-- ===== src/Actor/Revisions.antt =====
-- The revision of an ActorTemplate as it is stored, and the way from a candidate to it and back:
-- application.ts in apps/runtime-server/src/modules/actor, and the views of
-- actor-template/schemas.ts in packages/runtime-contracts/src.
use ai_block.Prelude.{
  ℕ, suc, String, Text, codes, same_text, Bool, Option, none, some, List, [], ◌∷◌, map,
  if◌then◌else◌, Attempt, returns, ◌>>=◌,
}
use ai_block.Project.Values.{BrickKind, BrickStatus}
use ai_block.Actor.Values.{
  ExactBrickRef, BrickPromptBody, BackendBrickBody, ToolProviderBrickConfig, Workspace,
  ConfigurationDigestMaterial, Digests, TemplateMetadata, TemplateSpec,
  compute_configuration_digest, compute_template_revision_digest,
}
use ai_block.Actor.Slots.{
  ResolvedActorTemplateBrick, ResolvedActorTemplateCandidate, PersistedDefinitionBrickProvenance,
  prompt_path,
}
use ai_block.Actor.Validation.{BodyCodec, Provenance}
use ai_block.Actor.Candidate.{ValidateActorTemplateCandidate}
use text.Mathlib.Text.{◌==◌ as str_eq}

-- `{ ref, resolved: { uid, digest } }`
pub record ResolvedEntry : Type 0 where
  pub ref : ExactBrickRef
  pub uid : ℕ
  pub digest : String

pub record ResolvedSpec : Type 0 where
  pub system_prompt : List ResolvedEntry
  pub initial_prompt : List ResolvedEntry
  pub backend : ResolvedEntry
  pub toolset : ResolvedEntry
  pub runtime_config : ResolvedEntry

pub record ActorTemplateRevisionView : Type 0 where
  pub template_uid : ℕ
  pub template_id : ℕ
  pub project_id : ℕ
  pub revision : ℕ
  pub revision_digest : String
  pub config_digest : String
  pub metadata : TemplateMetadata
  pub spec : ResolvedSpec
  pub status : BrickStatus
  pub created_at : ℕ

-- `authoredSpecFromRevision`: the `spec` of the specification; its metadata is the view's
unfoldable pub authored_spec_from_revision : ActorTemplateRevisionView → TemplateSpec
authored_spec_from_revision view = record {
  system_prompt = map (λ entry. entry.ref) view.spec.system_prompt;
  initial_prompt = map (λ entry. entry.ref) view.spec.initial_prompt;
  backend = view.spec.backend.ref;
  toolset = view.spec.toolset.ref;
  runtime_config = view.spec.runtime_config.ref;
}

-- `validationCandidateFromRevision`
unfoldable pub validation_candidate_from_revision :
    ActorTemplateRevisionView → ValidateActorTemplateCandidate
validation_candidate_from_revision view = record {
  project_id = view.project_id;
  requested_template_id = view.template_id;
  metadata = view.metadata;
  spec = authored_spec_from_revision view;
}

-- What `add` sets
abbrev pub provenance_entry :
    ActorTemplateRevisionView → ResolvedEntry → BrickKind → PersistedDefinitionBrickProvenance
provenance_entry view entry kind = record {
  project_id = view.project_id;
  brick_id = entry.ref.id;
  revision = entry.ref.revision;
  kind = kind;
  revision_uid = entry.uid;
  digest = entry.digest;
}

-- `provenance.set(path, value)`
abbrev pub add : Text → PersistedDefinitionBrickProvenance → Provenance → Provenance
add path value provenance p = if same_text path p then some value else provenance p

-- The two `forEach` loops, from an index on
unfoldable pub add_prompts :
    ActorTemplateRevisionView → Text → BrickKind → ℕ → List ResolvedEntry → Provenance → Provenance
add_prompts view section kind index [] provenance = provenance
add_prompts view section kind index (entry ∷ entries) provenance =
    add_prompts view section kind (suc index) entries
      (add (prompt_path section index) (provenance_entry view entry kind) provenance)

-- `persistedProvenanceFromRevision`
unfoldable pub persisted_provenance_from_revision : ActorTemplateRevisionView → Provenance
persisted_provenance_from_revision view =
    let system =
      add_prompts view (codes "/system_prompt") BrickKind.sys_prompt 0 view.spec.system_prompt
        (λ path. none) in
    let prompts =
      add_prompts view (codes "/initial_prompt") BrickKind.prompt 0 view.spec.initial_prompt
        system in
    let backend =
      add (codes "/backend/ref") (provenance_entry view view.spec.backend BrickKind.backend)
        prompts in
    let toolset =
      add (codes "/toolset/ref") (provenance_entry view view.spec.toolset BrickKind.toolset)
        backend in
    add (codes "/runtime_config/ref")
      (provenance_entry view view.spec.runtime_config BrickKind.runtime_config) toolset

-- `resolvedEntry`
abbrev pub resolved_entry : ResolvedActorTemplateBrick → ResolvedEntry
resolved_entry entry = record {
  ref = entry.authored;
  uid = entry.revision.revision_uid;
  digest = entry.revision.digest;
}

-- `entries.map(decode)`, or nothing where one result is not ok
abbrev pub both : {A : Type 0} → Option A → Option (List A) → Option (List A)
both (some body) (some bodies) = some (body ∷ bodies)
both _ _ = none

unfoldable pub decode_all :
    {A : Type 0} → (String → Option A) → List ResolvedActorTemplateBrick → Option (List A)
decode_all decode [] = some []
decode_all decode (entry ∷ entries) = both (decode entry.revision.body) (decode_all decode entries)

-- The argument of `computeConfigurationDigest`, if every body was decoded
abbrev pub material_of :
    (working_directory : String)
    → Option (List Text)
    → Option (List BrickPromptBody)
    → Option BackendBrickBody
    → Option (List ToolProviderBrickConfig)
    → Option Workspace
    → Option ConfigurationDigestMaterial
material_of directory (some system) (some initial) (some backend) (some providers)
      (some workspace) =
    some (record {
      system_prompts = system;
      initial_prompts = initial;
      backend = backend;
      tool_providers = providers;
      working_directory = directory;
    })
material_of directory _ _ _ _ _ = none

module _ (codec : BodyCodec) (digests : Digests) where
  -- The bodies of `configurationDigestFor`, as they were decoded
  unfoldable pub authored_material :
      ResolvedActorTemplateCandidate → Option ConfigurationDigestMaterial
  authored_material candidate =
      material_of candidate.working_directory (decode_all codec.sys_prompt candidate.system_prompts)
        (decode_all codec.prompt candidate.initial_prompts)
        (codec.backend candidate.backend.revision.body)
        (codec.toolset candidate.toolset.revision.body)
        (codec.runtime_config candidate.runtime_config.revision.body)

  abbrev pub digest_of : Option ConfigurationDigestMaterial → Attempt (Option String)
  digest_of none = returns none
  digest_of (some material) = do
    digest ← compute_configuration_digest digests material
    returns (some digest)

  -- `configurationDigestFor`
  unfoldable pub configuration_digest_for : ResolvedActorTemplateCandidate → Attempt (Option String)
  configuration_digest_for candidate = digest_of (authored_material candidate)

  -- `templateRevisionDigestMatches`
  unfoldable pub template_revision_digest_matches : ActorTemplateRevisionView → Attempt Bool
  template_revision_digest_matches view = do
    digest ←
        compute_template_revision_digest digests view.metadata (authored_spec_from_revision view)
    returns (str_eq digest view.revision_digest)

  abbrev pub new_view :
      (template_uid template_id project_id : ℕ)
      → TemplateMetadata
      → ResolvedActorTemplateCandidate
      → (revision created_at : ℕ) → (revision_digest config_digest : String)
      → ActorTemplateRevisionView
  new_view template_uid template_id project_id metadata candidate revision created_at
        revision_digest config_digest =
      record {
        template_uid = template_uid;
        template_id = template_id;
        project_id = project_id;
        revision = revision;
        revision_digest = revision_digest;
        config_digest = config_digest;
        metadata = metadata;
        spec = record {
          system_prompt = map resolved_entry candidate.system_prompts;
          initial_prompt = map resolved_entry candidate.initial_prompts;
          backend = resolved_entry candidate.backend;
          toolset = resolved_entry candidate.toolset;
          runtime_config = resolved_entry candidate.runtime_config;
        };
        status = BrickStatus.active;
        created_at = created_at;
      }

  -- `revisionView`
  unfoldable pub revision_view :
      (template_uid template_id : ℕ)
      → ValidateActorTemplateCandidate
      → ResolvedActorTemplateCandidate
      → (revision created_at : ℕ) → Attempt (Option ActorTemplateRevisionView)
  revision_view template_uid template_id command candidate revision created_at = do
    config_digest ← configuration_digest_for candidate
    elim config_digest [
      | none ↦ returns none
      | some digest ↦ do
        revision_digest ← compute_template_revision_digest digests command.metadata command.spec
        returns (
            some (
              new_view template_uid template_id command.project_id command.metadata candidate
                revision created_at revision_digest digest))
    ]
