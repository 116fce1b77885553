-- ===== src/Project/Values.antt =====
-- The records and the errors of the project module, and what its ports answer: ports.ts, errors.ts
-- and values.ts in apps/runtime-server/src/modules/project. A body is named by its JSON text, so that
-- `JSON.stringify` and `JSON.parse` are the identity.
use ai_block.Prelude.{
  ℕ, String, Bool, true, false, Option, none, some, ◌==◌, leb, not, ◌||◌, if◌then◌else◌, Attempt,
}

pub data BrickKind : Type 0 where
  sys_prompt prompt backend toolset runtime_config : BrickKind

pub data BrickStatus : Type 0 where
  active archived : BrickStatus

pub record ProjectRecord : Type 0 where
  pub project_id : ℕ
  pub created_at : ℕ

pub record DefinitionBrickSummary : Type 0 where
  pub brick_uid : ℕ
  pub project_id : ℕ
  pub brick_id : ℕ
  pub kind : BrickKind
  pub current_revision : ℕ
  pub status : BrickStatus
  pub created_at : ℕ

pub record DefinitionBrickRevision : Type 0 where
  pub revision_uid : ℕ
  pub project_id : ℕ
  pub brick_id : ℕ
  pub kind : BrickKind
  pub revision : ℕ
  pub body : String
  pub digest : String
  pub created_at : ℕ

-- `ProjectDefinitionBrickError`; its category follows from its code.
pub data ProjectError : Type 0 where
  project_not_found definition_brick_already_exists definition_brick_not_found : ProjectError
  definition_brick_revision_not_found definition_brick_revision_conflict : ProjectError
  definition_brick_archived definition_brick_invalid_candidate : ProjectError
  definition_brick_integrity_error persistence_failure : ProjectError

-- The clock, the identity provider and the digest, the checks of `decodeContract` on a record, and
-- `canonicalDefinitionBrickBody`, which is built from those of the bodies.
pub record ProjectPorts : Type 0 where
  pub now : Attempt ℕ
  pub new_project_id : Attempt ℕ
  pub new_definition_brick_id : ℕ → ℕ → Attempt ℕ
  pub new_definition_brick_revision_id : ℕ → ℕ → ℕ → Attempt ℕ
  pub compute : BrickKind → String → Attempt String
  pub project_ok : ProjectRecord → Bool
  pub summary_ok : DefinitionBrickSummary → Bool
  pub revision_ok : DefinitionBrickRevision → Bool
  pub canonical_definition_brick_body : BrickKind → String → Option String

abbrev pub same_kind : BrickKind → BrickKind → Bool
same_kind BrickKind.sys_prompt BrickKind.sys_prompt = true
same_kind BrickKind.prompt BrickKind.prompt = true
same_kind BrickKind.backend BrickKind.backend = true
same_kind BrickKind.toolset BrickKind.toolset = true
same_kind BrickKind.runtime_config BrickKind.runtime_config = true
same_kind _ _ = false

abbrev pub is_archived : BrickStatus → Bool
is_archived BrickStatus.archived = true
is_archived BrickStatus.active = false

-- A record that was read: `none` where the repository returned an object without members.
module _ (ports : ProjectPorts) where
  -- `decodeStoredProject`
  unfoldable pub decode_stored_project : ProjectRecord → ℕ → Option ProjectRecord
  decode_stored_project value expected_project_id =
      if not (ports.project_ok value) || not (value.project_id == expected_project_id)
      then none
      else some value

  -- `decodeStoredSummary`, with an expected brick
  unfoldable pub decode_stored_summary :
      Option DefinitionBrickSummary → ℕ → ℕ → Option DefinitionBrickSummary
  decode_stored_summary none expected_project_id expected_brick_id = none
  decode_stored_summary (some value) expected_project_id expected_brick_id =
      if not (ports.summary_ok value) || not (value.project_id == expected_project_id)
      then none
      else if not (value.brick_id == expected_brick_id)
      then none
      else some value

  -- `decodeStoredRevision`, with an expected revision
  unfoldable pub decode_stored_revision :
      Option DefinitionBrickRevision → DefinitionBrickSummary → ℕ → Option DefinitionBrickRevision
  decode_stored_revision none summary expected_revision = none
  decode_stored_revision (some revision) summary expected_revision =
      if not (ports.revision_ok revision)
      then none
      else if not (revision.project_id == summary.project_id)
          || not (revision.brick_id == summary.brick_id)
          || not (same_kind revision.kind summary.kind)
          || not (leb revision.revision summary.current_revision)
          || not (revision.revision == expected_revision)
      then none
      else some revision
