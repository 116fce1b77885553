-- ===== src/Actor/Values.antt =====
-- values.ts in apps/runtime-server/src/modules/actor, and the bodies of Definition Bricks and the
-- ActorTemplate specification: brick/schemas.ts and actor-template/schemas.ts in
-- packages/runtime-contracts/src.
use ai_block.Prelude.{
  ℕ, String, Text, Bool, true, false, Option, none, some, List, [], ◌∷◌, map, ◌==◌, not, ◌&&◌, ◌||◌,
  if◌then◌else◌, Attempt,
}
use ai_block.Project.Values.{DefinitionBrickRevision}

pub record ExactBrickRef : Type 0 where
  pub id : ℕ
  pub revision : ℕ

-- A `BoundDefinitionBrickRef`, or no revision
pub data BindingResult : Type 0 where
  resolved : (authored : ExactBrickRef) (uid : ℕ) (digest : String) → BindingResult
  unresolved : BindingResult

-- `bindDefinitionBrickRef`
unfoldable pub bind_definition_brick_ref :
    ℕ → ExactBrickRef → Option DefinitionBrickRevision → BindingResult
bind_definition_brick_ref project_id authored none = BindingResult.unresolved
bind_definition_brick_ref project_id authored (some found) =
    if not (found.project_id == project_id)
      || not (found.brick_id == authored.id)
      || not (found.revision == authored.revision)
    then BindingResult.unresolved
    else BindingResult.resolved authored found.revision_uid found.digest

abbrev pub byte_order_mark : ℕ
byte_order_mark = 0xfeff

abbrev pub carriage_return : ℕ
carriage_return = 13

abbrev pub line_feed : ℕ
line_feed = 10

-- `value.replace(/^\uFEFF/, "")`
unfoldable pub strip_byte_order_mark : Text → Text
strip_byte_order_mark [] = []
strip_byte_order_mark (c ∷ s) = if c == byte_order_mark then s else c ∷ s

-- `value.replace(/\r\n?/g, "\n")`; `after` says that a carriage return was just replaced, so that a
-- line feed belongs to that match
unfoldable pub replace_line_ends : (after : Bool) → Text → Text
replace_line_ends after [] = []
replace_line_ends after (c ∷ s) =
    let matched = replace_line_ends true s in
    let rest = replace_line_ends false s in
    if c == carriage_return
    then line_feed ∷ matched
    else if after && c == line_feed
    then rest
    else c ∷ rest

-- `canonicalizeText`
unfoldable pub canonicalize_text : Text → Text
canonicalize_text value = replace_line_ends false (strip_byte_order_mark value)

mutual
  pub data BrickPromptBody : Type 0 where
    text : Text → BrickPromptBody
    composite : BrickPromptParts → BrickPromptBody

  pub data BrickPromptParts : Type 0 where
    no_part : BrickPromptParts
    part : BrickPromptBody → BrickPromptParts → BrickPromptParts

unfoldable mutual
  -- `normalizePromptBody`
  pub normalize_prompt_body : BrickPromptBody → BrickPromptBody
  normalize_prompt_body (BrickPromptBody.text value) =
      BrickPromptBody.text (canonicalize_text value)
  normalize_prompt_body (BrickPromptBody.composite parts) =
      BrickPromptBody.composite (normalize_parts parts)

  pub normalize_parts : BrickPromptParts → BrickPromptParts
  normalize_parts BrickPromptParts.no_part = BrickPromptParts.no_part
  normalize_parts (BrickPromptParts.part body parts) =
      BrickPromptParts.part (normalize_prompt_body body) (normalize_parts parts)

-- `config` is named by its JSON text.
pub record BackendBrickBody : Type 0 where
  pub adapter_id : ℕ
  pub model_id : String
  pub config : String

pub record ToolProviderBrickConfig : Type 0 where
  pub provider_id : ℕ
  pub config : String

pub record Workspace : Type 0 where
  pub root_id : ℕ
  pub relative_working_directory : String

-- A system prompt's body is `{ text }`, named by its text.
pub record ConfigurationDigestMaterial : Type 0 where
  pub system_prompts : List Text
  pub initial_prompts : List BrickPromptBody
  pub backend : BackendBrickBody
  pub tool_providers : List ToolProviderBrickConfig
  pub working_directory : String

-- `buildConfigurationDigestMaterial`
unfoldable pub build_configuration_digest_material :
    ConfigurationDigestMaterial → ConfigurationDigestMaterial
build_configuration_digest_material input = record {
  system_prompts = map canonicalize_text input.system_prompts;
  initial_prompts = map normalize_prompt_body input.initial_prompts;
  backend = input.backend;
  tool_providers = input.tool_providers;
  working_directory = input.working_directory;
}

-- `labels` is named by its JSON text.
pub record TemplateMetadata : Type 0 where
  pub display_name : String
  pub description : String
  pub labels : String

-- `spec.spec` of an `ActorTemplateSpec`
pub record TemplateSpec : Type 0 where
  pub system_prompt : List ExactBrickRef
  pub initial_prompt : List ExactBrickRef
  pub backend : ExactBrickRef
  pub toolset : ExactBrickRef
  pub runtime_config : ExactBrickRef

-- `buildTemplateRevisionDigestMaterial`; the schema version is a constant.
pub record TemplateRevisionDigestMaterial : Type 0 where
  pub metadata : TemplateMetadata
  pub spec : TemplateSpec

-- `sha256CanonicalJson` of the two materials: what it throws is a body that is not JSON.
pub record Digests : Type 0 where
  pub sha256_configuration : ConfigurationDigestMaterial → Attempt String
  pub sha256_revision : TemplateRevisionDigestMaterial → Attempt String

module _ (digests : Digests) where
  -- `computeConfigurationDigest`
  unfoldable pub compute_configuration_digest : ConfigurationDigestMaterial → Attempt String
  compute_configuration_digest input =
      digests.sha256_configuration (build_configuration_digest_material input)

  -- `computeTemplateRevisionDigest`
  unfoldable pub compute_template_revision_digest : TemplateMetadata → TemplateSpec → Attempt String
  compute_template_revision_digest metadata spec =
      digests.sha256_revision (record { metadata = metadata; spec = spec })
