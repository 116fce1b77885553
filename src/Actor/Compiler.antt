-- ===== src/Actor/Compiler.antt =====
-- `compileActorTemplate`: compiler.ts in apps/runtime-server/src/modules/actor, and the snapshot of
-- actor-template/schemas.ts in packages/runtime-contracts/src. In the compiler's `try` block, `none`
-- is `return failure()`, and also an exception, since the `catch` returns `failure()` too.
use ai_block.Prelude.{
  ℕ, suc, String, Text, Bool, Option, none, some, List, [], ◌∷◌, ◌++◌, map, ◌==◌, not,
  if◌then◌else◌, Attempt, returns, throws, unique, length,
}
use ai_block.Project.Values.{BrickKind, same_kind}
use ai_block.Actor.Values.{
  ExactBrickRef, canonicalize_text, BrickPromptBody, BrickPromptParts, ToolProviderBrickConfig,
  ConfigurationDigestMaterial, Digests, compute_configuration_digest,
}
use ai_block.Actor.Slots.{ResolvedActorTemplateBrick, ResolvedActorTemplateCandidate}
use ai_block.Actor.Validation.{BodyCodec}
use text.Mathlib.Text.{◌==◌ as str_eq}

pub record SourceTemplate : Type 0 where
  pub template_uid : ℕ
  pub human_readable_id : ℕ
  pub revision : ℕ
  pub revision_digest : String

pub record ActorCompilerInput : Type 0 where
  pub snapshot_id : ℕ
  pub created_at : ℕ
  pub source_template : SourceTemplate
  pub candidate : ResolvedActorTemplateCandidate

pub record SnapshotHead : Type 0 where
  pub snapshot_id : ℕ
  pub project_id : ℕ
  pub source_template : SourceTemplate
  pub config_digest : String
  pub created_at : ℕ

-- A member of `source_bricks`
pub record SourceBrick : Type 0 where
  pub slot : BrickKind
  pub order : Option ℕ
  pub revision_uid : ℕ
  pub digest : String

-- `resolved` has the members of the material of its digest.
pub record ActorConfigSnapshot : Type 0 where
  pub head : SnapshotHead
  pub source_bricks : List SourceBrick
  pub resolved : ConfigurationDigestMaterial

-- `decodeContract(...).ok` for the schemas of identifiers and of the snapshot, and for a part of a
-- prompt that was decoded
pub record CompilerChecks : Type 0 where
  pub snapshot_id_ok : ℕ → Bool
  pub timestamp_ok : ℕ → Bool
  pub project_id_ok : ℕ → Bool
  pub template_id_ok : ℕ → Bool
  pub human_readable_id_ok : ℕ → Bool
  pub positive_revision_ok : ℕ → Bool
  pub revision_digest_ok : String → Bool
  pub ref_ok : ExactBrickRef → Bool
  pub part_ok : BrickPromptBody → Bool
  pub snapshot_ok : ActorConfigSnapshot → Bool

infixl 5 ◌>>=◌ ◌>>◌
abbrev pub ◌>>=◌ : {A B : Type 0} → Option A → (A → Option B) → Option B
none >>= f = none
some a >>= f = f a

abbrev pub ◌>>◌ : {B : Type 0} → Option (Unit {0}) → Option B → Option B
m >> k = m >>= λ _. k

-- `if (!holds) return failure()`
abbrev pub guard : Bool → Option (Unit {0})
guard holds = if holds then some tt else none

-- A call that may throw
abbrev pub value_of : {A : Type 0} → Attempt A → Option A
value_of (returns a) = some a
value_of (throws e) = none

-- `sourceBrick`
abbrev pub source_brick : BrickKind → ResolvedActorTemplateBrick → Option ℕ → SourceBrick
source_brick slot entry order = record {
  slot = slot;
  order = order;
  revision_uid = entry.revision.revision_uid;
  digest = entry.revision.digest;
}

-- `entries.map((entry, index) => sourceBrick(slot, entry, index))`, from an index on
unfoldable pub source_bricks_from :
    BrickKind → ℕ → List ResolvedActorTemplateBrick → List SourceBrick
source_bricks_from slot index [] = []
source_bricks_from slot index (entry ∷ entries) =
    source_brick slot entry (some index) ∷ source_bricks_from slot (suc index) entries

-- The `source_bricks` of the snapshot
unfoldable pub source_bricks : ResolvedActorTemplateCandidate → List SourceBrick
source_bricks candidate =
    source_bricks_from BrickKind.sys_prompt 0 candidate.system_prompts
    ++ source_bricks_from BrickKind.prompt 0 candidate.initial_prompts
    ++ source_brick BrickKind.backend candidate.backend none
      ∷ source_brick BrickKind.toolset candidate.toolset none
      ∷ source_brick BrickKind.runtime_config candidate.runtime_config none
      ∷ []

-- `new Set(ids).size`
abbrev pub set_size : List ToolProviderBrickConfig → ℕ
set_size providers = length (unique (λ a b. a == b) [] (map (λ p. p.provider_id) providers))

module _ (codec : BodyCodec) (checks : CompilerChecks) (digests : Digests) where
  unfoldable mutual
    -- `normalizedPrompt` of a decoded value
    pub normalized_body : BrickPromptBody → Option BrickPromptBody
    normalized_body (BrickPromptBody.text value) =
        some (BrickPromptBody.text (canonicalize_text value))
    normalized_body (BrickPromptBody.composite parts) = do
      normalized ← normalized_parts parts
      some (BrickPromptBody.composite normalized)

    pub normalized_parts : BrickPromptParts → Option BrickPromptParts
    normalized_parts BrickPromptParts.no_part = some BrickPromptParts.no_part
    normalized_parts (BrickPromptParts.part body parts) = do
      guard (checks.part_ok body)
      first ← normalized_body body
      rest ← normalized_parts parts
      some (BrickPromptParts.part first rest)

  -- `normalizedSysPrompt`
  unfoldable pub normalized_sys_prompt : ResolvedActorTemplateBrick → Option Text
  normalized_sys_prompt entry = do
    value ← codec.sys_prompt entry.revision.body
    some (canonicalize_text value)

  -- `normalizedInitialPrompt`
  unfoldable pub normalized_initial_prompt : ResolvedActorTemplateBrick → Option BrickPromptBody
  normalized_initial_prompt entry = do
    value ← codec.prompt entry.revision.body
    normalized_body value

  -- `entries.map(normalize)`, if no member is undefined
  unfoldable pub all_defined :
      {A : Type 0}
      → (ResolvedActorTemplateBrick → Option A)
      → List ResolvedActorTemplateBrick
      → Option (List A)
  all_defined normalize [] = some []
  all_defined normalize (entry ∷ entries) = do
    body ← normalize entry
    bodies ← all_defined normalize entries
    some (body ∷ bodies)

  -- `validRevision`
  unfoldable pub valid_revision : ℕ → BrickKind → ResolvedActorTemplateBrick → Option (Unit {0})
  valid_revision project_id expected_kind entry = do
    guard (checks.ref_ok entry.authored)
    guard (entry.authored.id == entry.revision.brick_id)
    guard (entry.authored.revision == entry.revision.revision)
    guard (entry.revision.project_id == project_id)
    guard (same_kind entry.revision.kind expected_kind)
    guard (codec.revision_ok entry.revision)
    digest ← value_of (codec.definition_brick_digest entry.revision.kind entry.revision.body)
    guard (str_eq digest entry.revision.digest)

  unfoldable pub valid_revisions :
      ℕ → BrickKind → List ResolvedActorTemplateBrick → Option (Unit {0})
  valid_revisions project_id kind [] = some tt
  valid_revisions project_id kind (entry ∷ entries) = do
    valid_revision project_id kind entry
    valid_revisions project_id kind entries

  -- The checks of `inputIsConsistent` before the bricks
  unfoldable pub valid_head : ActorCompilerInput → Option (Unit {0})
  valid_head input = do
    guard (checks.snapshot_id_ok input.snapshot_id)
    guard (checks.timestamp_ok input.created_at)
    guard (checks.project_id_ok input.candidate.project_id)
    guard (checks.template_id_ok input.source_template.template_uid)
    guard (checks.human_readable_id_ok input.source_template.human_readable_id)
    guard (checks.positive_revision_ok input.source_template.revision)
    guard (checks.revision_digest_ok input.source_template.revision_digest)
    guard (not (str_eq input.candidate.working_directory ""))

  -- `inputIsConsistent`
  unfoldable pub input_is_consistent : ActorCompilerInput → Option (Unit {0})
  input_is_consistent input = do
    let candidate = input.candidate
    valid_head input
    valid_revision candidate.project_id BrickKind.backend candidate.backend
    valid_revision candidate.project_id BrickKind.toolset candidate.toolset
    valid_revision candidate.project_id BrickKind.runtime_config candidate.runtime_config
    valid_revisions candidate.project_id BrickKind.sys_prompt candidate.system_prompts
    valid_revisions candidate.project_id BrickKind.prompt candidate.initial_prompts

  -- `configMaterial`
  unfoldable pub config_material :
      ResolvedActorTemplateCandidate → Option ConfigurationDigestMaterial
  config_material candidate = do
    system_prompts ← all_defined normalized_sys_prompt candidate.system_prompts
    initial_prompts ← all_defined normalized_initial_prompt candidate.initial_prompts
    backend ← codec.backend candidate.backend.revision.body
    providers ← codec.toolset candidate.toolset.revision.body
    workspace ← codec.runtime_config candidate.runtime_config.revision.body
    guard (set_size providers == length providers)
    some (record {
      system_prompts = system_prompts;
      initial_prompts = initial_prompts;
      backend = backend;
      tool_providers = providers;
      working_directory = candidate.working_directory;
    })

  abbrev pub new_snapshot :
      ActorCompilerInput → ConfigurationDigestMaterial → String → ActorConfigSnapshot
  new_snapshot input material config_digest = record {
    head = record {
      snapshot_id = input.snapshot_id;
      project_id = input.candidate.project_id;
      source_template = input.source_template;
      config_digest = config_digest;
      created_at = input.created_at;
    };
    source_bricks = source_bricks input.candidate;
    resolved = material;
  }

  -- `compileActorTemplate`
  unfoldable pub compile_actor_template : ActorCompilerInput → Option ActorConfigSnapshot
  compile_actor_template input = do
    input_is_consistent input
    material ← config_material input.candidate
    config_digest ← value_of (compute_configuration_digest digests material)
    let snapshot = new_snapshot input material config_digest
    guard (checks.snapshot_ok snapshot)
    some snapshot
