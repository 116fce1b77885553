-- ===== src/Actor/Validation.antt =====
-- The resolution of the references of an ActorTemplate: the first loop of `resolveCandidate` in
-- validation.ts in apps/runtime-server/src/modules/actor, and the ports of a validation in ports.ts.
use ai_block.Prelude.{
  ℕ, String, Text, Bool, true, Option, none, some, List, [], ◌∷◌, ◌++◌, ◌==◌, not, ◌&&◌,
  if◌then◌else◌, Attempt, returns, throws, error, ◌>>=◌, ◌>>◌,
}
use ai_block.Project.Values.{BrickKind, DefinitionBrickRevision, same_kind}
use ai_block.Actor.Values.{
  ExactBrickRef, BindingResult, bind_definition_brick_ref, BrickPromptBody, BackendBrickBody,
  ToolProviderBrickConfig, Workspace,
}
use ai_block.Actor.Report.{PublicIssue, StableIssueCode}
use text.Mathlib.Text.{◌==◌ as str_eq}
use ai_block.Actor.Slots.{
  RefDescriptor, PersistedDefinitionBrickProvenance, ResolvedActorTemplateBrick, BySlot, push_entry,
  ref_issue,
}

pub data WorkspaceResolution : Type 0 where
  resolved :
      (root_id : ℕ) (relative_working_directory working_directory : String) → WorkspaceResolution
  root_not_found path_escape : WorkspaceResolution

pub record ValidatorFinding : Type 0 where
  pub code : String
  pub provider_id : Option ℕ

-- `BackendAdapterValidatorPort.validate` and `ToolProviderValidatorPort.validate`
abbrev pub Validator : Type 0 → Type 0
Validator A = A → Attempt (List ValidatorFinding)

-- `ActorTemplateValidationPorts`: what the ports answer during one validation
pub record ValidationPorts : Type 0 where
  pub resolve_exact : ℕ → ExactBrickRef → Attempt (Option DefinitionBrickRevision)
  pub find_backend_validator : ℕ → Attempt (Option (Validator BackendBrickBody))
  pub find_tool_provider_validator : ℕ → Attempt (Option (Validator ToolProviderBrickConfig))
  pub compatibility :
      BackendBrickBody → List ToolProviderBrickConfig → Attempt (List ValidatorFinding)
  pub resolve_working_directory : ℕ → Workspace → Attempt WorkspaceResolution

-- `decodeContract` with the schemas of the bodies, which returns a value or no value, and
-- `computeDefinitionBrickDigest`
pub record BodyCodec : Type 0 where
  pub revision_ok : DefinitionBrickRevision → Bool
  pub definition_brick_digest : BrickKind → String → Attempt String
  pub sys_prompt : String → Option Text
  pub prompt : String → Option BrickPromptBody
  pub backend : String → Option BackendBrickBody
  pub toolset : String → Option (List ToolProviderBrickConfig)
  pub runtime_config : String → Option Workspace

-- What one round of the loop in `resolveCandidate` does.
pub data Resolution : Type 0 where
  reported : PublicIssue → Resolution
  entered : ResolvedActorTemplateBrick → Resolution

abbrev pub kind_mismatch : RefDescriptor → BrickKind → PublicIssue
kind_mismatch descriptor kind = record {
  code = StableIssueCode.brick_kind_mismatch;
  path = descriptor.path;
  resource_id = none;
  revision = none;
  expected_kind = some descriptor.expected_kind;
  actual_kind = some kind;
  provider_id = none;
}

unfoldable pub agrees : DefinitionBrickRevision → Option PersistedDefinitionBrickProvenance → Bool
agrees found none = true
agrees found (some expected) =
    found.project_id == expected.project_id
    && found.brick_id == expected.brick_id
    && found.revision == expected.revision
    && same_kind found.kind expected.kind
    && found.revision_uid == expected.revision_uid
    && str_eq found.digest expected.digest

abbrev pub Provenance : Type 0
Provenance = Text → Option PersistedDefinitionBrickProvenance

-- `throw new Error(message)` where a test fails
abbrev pub require : Bool → String → Attempt (Unit {0})
require holds message = if holds then returns tt else throws (error message)

-- The issues and the entries so far
abbrev pub Progress : Type 0
Progress = List PublicIssue × BySlot ResolvedActorTemplateBrick

-- What a round leaves
unfoldable pub advance : RefDescriptor → Progress → Resolution → Progress
advance descriptor (issues, entries) (Resolution.reported issue) = (issues ++ issue ∷ [], entries)
advance descriptor (issues, entries) (Resolution.entered entry) =
    (issues, push_entry entries descriptor.slot entry)

module _ (codec : BodyCodec) (ports : ValidationPorts) where
  -- The checks of a revision that has the expected kind
  unfoldable pub check_revision :
      Provenance → RefDescriptor → DefinitionBrickRevision → Attempt Resolution
  check_revision provenance descriptor found = do
    require (codec.revision_ok found) "Definition Brick resolver returned an invalid revision."
    digest ← codec.definition_brick_digest found.kind found.body
    require (str_eq digest found.digest) "Definition Brick digest integrity check failed."
    require (agrees found (provenance descriptor.path))
        "Persisted Definition Brick provenance check failed."
    returns (Resolution.entered (record { authored = descriptor.ref; revision = found }))

  unfoldable pub judge_bound :
      Provenance → RefDescriptor → DefinitionBrickRevision → BindingResult → Attempt Resolution
  judge_bound provenance descriptor found BindingResult.unresolved =
      returns (Resolution.reported (ref_issue StableIssueCode.ref_not_found descriptor))
  judge_bound provenance descriptor found (BindingResult.resolved authored uid digest) =
      if not (same_kind found.kind descriptor.expected_kind)
      then returns (Resolution.reported (kind_mismatch descriptor found.kind))
      else check_revision provenance descriptor found

  -- One round, with what the resolver returned
  unfoldable pub judge :
      Provenance → ℕ → RefDescriptor → Option DefinitionBrickRevision → Attempt Resolution
  judge provenance project_id descriptor none =
      returns (Resolution.reported (ref_issue StableIssueCode.ref_not_found descriptor))
  judge provenance project_id descriptor (some found) =
      judge_bound provenance descriptor found
        (bind_definition_brick_ref project_id descriptor.ref (some found))

  -- The loop, with what it has pushed and entered
  unfoldable pub resolve_all : Provenance → ℕ → List RefDescriptor → Progress → Attempt Progress
  unfolding advance
  resolve_all provenance project_id [] progress = returns progress
  resolve_all provenance project_id (descriptor ∷ descriptors) progress = do
    candidate ← ports.resolve_exact project_id descriptor.ref
    resolution ← judge provenance project_id descriptor candidate
    resolve_all provenance project_id descriptors (advance descriptor progress resolution)
