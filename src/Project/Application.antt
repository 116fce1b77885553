-- ===== src/Project/Application.antt =====
-- `ProjectApplicationService`: application.ts in apps/runtime-server/src/modules/project.
use ai_block.Prelude.{
  ℕ, ◌+◌, String, Bool, Option, none, some, ◌==◌, leb, not, ◌&&◌, if◌then◌else◌, Attempt, returns,
  throws,
}
use ai_block.Protocol.{Decoded, decoded, undecodable}
use ai_block.Project.Values.{
  BrickKind, BrickStatus, ProjectRecord, DefinitionBrickSummary, DefinitionBrickRevision,
  ProjectError, ProjectPorts, same_kind, is_archived, decode_stored_project, decode_stored_summary,
  decode_stored_revision,
}
use ai_block.Project.Sql.{
  Work, Faults, Database, Outcome, pure, abort, crash, bind, select_project, run,
}
use ai_block.Project.Repositories.{
  CreateWriteResult, AppendWriteResult, ArchiveWriteResult, create_project, create_brick,
  find_summary, find_revision, append_revision, archive,
}
use text.Mathlib.Text.{◌==◌ as str_eq}

-- What an operation returns: its value, or `{ error }`.
pub data Result (A : Type 0) : Type 0 where
  ok : A → Result A
  error : ProjectError → Result A

pub record CreateCommand : Type 0 where
  pub project_id : ℕ
  pub requested_brick_id : ℕ
  pub kind : BrickKind
  pub body : String

pub record ReviseCommand : Type 0 where
  pub project_id : ℕ
  pub brick_id : ℕ
  pub base_revision : ℕ
  pub kind : BrickKind
  pub body : String

-- The command of `archiveDefinitionBrick` and of `readDefinitionBrick`
pub record BrickCommand : Type 0 where
  pub project_id : ℕ
  pub brick_id : ℕ

pub record ExactCommand : Type 0 where
  pub project_id : ℕ
  pub id : ℕ
  pub revision : ℕ

pub record BrickAndRevision : Type 0 where
  pub brick : DefinitionBrickSummary
  pub revision : DefinitionBrickRevision

-- `runInTransaction`, from what `unitOfWork.run` comes to
abbrev pub result_of : {A : Type 0} → Outcome A → Result A
result_of (Outcome.done a) = Result.ok a
result_of (Outcome.aborted e) = Result.error e
result_of Outcome.failed = Result.error ProjectError.persistence_failure

-- `runInTransaction`
unfoldable pub run_in_transaction : {A : Type 0} → Faults → Database → Work A → Database × Result A
run_in_transaction faults d work = let (e, outcome) = run faults d work in (e, result_of outcome)

-- A call of a port; what it throws is no `ProjectOperationAbort`.
abbrev pub call : {A : Type 0} → Attempt A → Work A
call (returns a) = pure a
call (throws e) = crash

abbrev pub or_abort : {A : Type 0} → ProjectError → Option A → Work A
or_abort code none = abort code
or_abort code (some a) = pure a

abbrev pub check : Bool → ProjectError → Work (Unit {0})
check holds code = if holds then pure tt else abort code

-- The write results that `reviseDefinitionBrick` and `archiveDefinitionBrick` turn into aborts
abbrev pub appended_or_abort : AppendWriteResult → Work (Unit {0})
appended_or_abort AppendWriteResult.not_found = abort ProjectError.definition_brick_not_found
appended_or_abort AppendWriteResult.archived = abort ProjectError.definition_brick_archived
appended_or_abort AppendWriteResult.kind_mismatch =
    abort ProjectError.definition_brick_invalid_candidate
appended_or_abort AppendWriteResult.base_revision_conflict =
    abort ProjectError.definition_brick_revision_conflict
appended_or_abort AppendWriteResult.appended = pure tt

abbrev pub archived_or_abort : ArchiveWriteResult → Work (Unit {0})
archived_or_abort ArchiveWriteResult.not_found = abort ProjectError.definition_brick_not_found
archived_or_abort ArchiveWriteResult.base_revision_conflict =
    abort ProjectError.definition_brick_revision_conflict
archived_or_abort ArchiveWriteResult.archived = pure tt

abbrev pub created_or_abort : CreateWriteResult → Work (Unit {0})
created_or_abort CreateWriteResult.already_exists =
    abort ProjectError.definition_brick_already_exists
created_or_abort CreateWriteResult.created = pure tt

-- The new brick of `createDefinitionBrick`
abbrev pub new_brick : CreateCommand → ℕ → ℕ → DefinitionBrickSummary
new_brick command brick_uid created_at = record {
  brick_uid = brick_uid;
  project_id = command.project_id;
  brick_id = command.requested_brick_id;
  kind = command.kind;
  current_revision = 1;
  status = BrickStatus.active;
  created_at = created_at;
}

-- The checks of `reviseDefinitionBrick` on the current brick
unfoldable pub check_current : ReviseCommand → DefinitionBrickSummary → Work (Unit {0})
check_current command current =
    if not (same_kind current.kind command.kind)
    then abort ProjectError.definition_brick_invalid_candidate
    else if is_archived current.status
    then abort ProjectError.definition_brick_archived
    else if not (current.current_revision == command.base_revision)
    then abort ProjectError.definition_brick_revision_conflict
    else pure tt

-- The end of `requireRevisionIntegrity`: the digest of the body
unfoldable pub verify_digest :
    DefinitionBrickRevision → Attempt String → Work DefinitionBrickRevision
verify_digest revision (throws e) = abort ProjectError.definition_brick_integrity_error
verify_digest revision (returns digest) =
    if not (str_eq digest revision.digest)
    then abort ProjectError.definition_brick_integrity_error
    else pure revision

-- The body is its canonical text, and has the digest that is computed.
unfoldable pub verify_body :
    DefinitionBrickRevision → Option String → Attempt String → Work DefinitionBrickRevision
verify_body revision none computed = abort ProjectError.definition_brick_integrity_error
verify_body revision (some canonical) computed =
    if not (str_eq canonical revision.body)
    then abort ProjectError.definition_brick_integrity_error
    else verify_digest revision computed

module _ (ports : ProjectPorts) where
  -- `candidateDigest`, after `canonicalDefinitionBrickBody`
  unfoldable pub candidate : BrickKind → String → Option (String × String)
  candidate kind body = elim (ports.canonical_definition_brick_body kind body) [
    | none ↦ none
    | some canonical ↦ elim (ports.compute kind canonical) [
      | throws e ↦ none
      | returns digest ↦ some (canonical, digest)
    ]
  ]

  -- `newRevision`
  unfoldable pub new_revision :
      DefinitionBrickSummary → ℕ → String × String → ℕ → Work DefinitionBrickRevision
  new_revision brick revision (body, digest) created_at =
      bind (call (ports.new_definition_brick_revision_id brick.project_id brick.brick_id revision))
        λ revision_uid. pure (record {
          revision_uid = revision_uid;
          project_id = brick.project_id;
          brick_id = brick.brick_id;
          kind = brick.kind;
          revision = revision;
          body = body;
          digest = digest;
          created_at = created_at;
        })

  module _ (faults : Faults) where
    -- The work of `readProject`, with its two aborts
    unfoldable pub find_project : ℕ → Work ProjectRecord
    find_project project_id = bind (select_project faults project_id) λ row.
        bind (or_abort ProjectError.project_not_found row) λ stored.
          or_abort ProjectError.definition_brick_integrity_error
            (decode_stored_project ports stored project_id)

    -- `requireSummary`
    unfoldable pub require_summary : ℕ → ℕ → Work DefinitionBrickSummary
    require_summary project_id brick_id = bind (find_summary faults project_id brick_id) λ found.
        bind (or_abort ProjectError.definition_brick_not_found found) λ stored.
          or_abort ProjectError.definition_brick_integrity_error
            (decode_stored_summary ports stored project_id brick_id)

    -- `requireRevisionIntegrity`
    unfoldable pub require_revision_integrity :
        Option DefinitionBrickRevision → DefinitionBrickSummary → ℕ → Work DefinitionBrickRevision
    require_revision_integrity stored brick expected_revision =
        bind
          (or_abort ProjectError.definition_brick_integrity_error
            (decode_stored_revision ports stored brick expected_revision))
          λ revision.
            verify_body revision (ports.canonical_definition_brick_body revision.kind revision.body)
              (ports.compute revision.kind revision.body)

    -- The end of `readExactDefinitionBrickRevision`, from what `findRevision` returned
    unfoldable pub exact_found :
        ExactCommand
        → DefinitionBrickSummary
        → Option (Option DefinitionBrickRevision)
        → Work BrickAndRevision
    exact_found command brick none =
        if leb command.revision brick.current_revision
        then abort ProjectError.definition_brick_integrity_error
        else abort ProjectError.definition_brick_revision_not_found
    exact_found command brick (some stored) =
        bind (require_revision_integrity stored brick command.revision)
          λ revision. pure (record { brick = brick; revision = revision })

    -- The transaction of `createProject`
    unfoldable pub creating_project : Work ProjectRecord
    creating_project = bind (call ports.new_project_id) λ project_id.
        bind (call ports.now) λ created_at.
          let project : ProjectRecord = record {
            project_id = project_id;
            created_at = created_at;
          } in
          bind (check (ports.project_ok project) ProjectError.persistence_failure) λ _.
            bind (create_project faults project)
              λ created. bind (check created ProjectError.persistence_failure) λ _. pure project

    -- The transaction of `createDefinitionBrick`
    unfoldable pub creating_brick : CreateCommand → String × String → Work BrickAndRevision
    creating_brick command body = bind (find_project command.project_id) λ _.
        bind (call ports.now) λ created_at.
          bind (call (ports.new_definition_brick_id command.project_id command.requested_brick_id))
            λ brick_uid.
              let brick : DefinitionBrickSummary = new_brick command brick_uid created_at in
              bind (new_revision brick 1 body created_at) λ revision.
                bind
                  (check (ports.summary_ok brick && ports.revision_ok revision)
                    ProjectError.persistence_failure)
                  λ _. bind (create_brick faults brick revision) λ result.
                    bind (created_or_abort result)
                      λ _. pure (record { brick = brick; revision = revision })

    -- The transaction of `reviseDefinitionBrick`
    unfoldable pub revising_brick : ReviseCommand → String × String → Work BrickAndRevision
    revising_brick command body = bind (find_project command.project_id) λ _.
        bind (require_summary command.project_id command.brick_id) λ current.
          bind (check_current command current) λ _. bind (call ports.now) λ created_at.
            bind (new_revision current (current.current_revision + 1) body created_at) λ revision.
              bind (check (ports.revision_ok revision) ProjectError.persistence_failure) λ _.
                bind (append_revision faults revision command.base_revision) λ result.
                  bind (appended_or_abort result) λ _. pure (record {
                    brick = record current { current_revision = current.current_revision + 1 };
                    revision = revision;
                  })

    -- The transaction of `archiveDefinitionBrick`
    unfoldable pub archiving_brick : BrickCommand → Work DefinitionBrickSummary
    archiving_brick command = bind (find_project command.project_id) λ _.
        bind (require_summary command.project_id command.brick_id) λ current.
          if is_archived current.status
          then pure current
          else bind (archive faults command.project_id command.brick_id current.current_revision)
              λ result.
                bind (archived_or_abort result)
                  λ _. pure (record current { status = BrickStatus.archived })

    -- The transaction of `readDefinitionBrick`
    unfoldable pub reading_brick : BrickCommand → Work DefinitionBrickSummary
    reading_brick command =
        bind (find_project command.project_id)
          λ _. require_summary command.project_id command.brick_id

    -- The transaction of `readExactDefinitionBrickRevision`
    unfoldable pub reading_exact : ExactCommand → Work BrickAndRevision
    reading_exact command = bind (find_project command.project_id) λ _.
        bind (require_summary command.project_id command.id) λ brick.
          bind (find_revision faults command.project_id command.id command.revision)
            λ found. exact_found command brick found

    -- The seven operations. The command of `createProject` has no content.
    unfoldable pub create_project_op : Database → Bool → Database × Result ProjectRecord
    create_project_op d decodes =
        if not decodes
        then (d, Result.error ProjectError.definition_brick_invalid_candidate)
        else run_in_transaction faults d creating_project

    unfoldable pub read_project_op : Database → Decoded ℕ → Database × Result ProjectRecord
    read_project_op d (undecodable e) =
        (d, Result.error ProjectError.definition_brick_invalid_candidate)
    read_project_op d (decoded project_id) = run_in_transaction faults d (find_project project_id)

    unfoldable pub create_definition_brick :
        Database → Decoded CreateCommand → Database × Result BrickAndRevision
    create_definition_brick d (undecodable e) =
        (d, Result.error ProjectError.definition_brick_invalid_candidate)
    create_definition_brick d (decoded command) = elim (candidate command.kind command.body) [
      | none ↦ (d, Result.error ProjectError.definition_brick_invalid_candidate)
      | some body ↦ run_in_transaction faults d (creating_brick command body)
    ]

    unfoldable pub revise_definition_brick :
        Database → Decoded ReviseCommand → Database × Result BrickAndRevision
    revise_definition_brick d (undecodable e) =
        (d, Result.error ProjectError.definition_brick_invalid_candidate)
    revise_definition_brick d (decoded command) = elim (candidate command.kind command.body) [
      | none ↦ (d, Result.error ProjectError.definition_brick_invalid_candidate)
      | some body ↦ run_in_transaction faults d (revising_brick command body)
    ]

    unfoldable pub archive_definition_brick :
        Database → Decoded BrickCommand → Database × Result DefinitionBrickSummary
    archive_definition_brick d (undecodable e) =
        (d, Result.error ProjectError.definition_brick_invalid_candidate)
    archive_definition_brick d (decoded command) =
        run_in_transaction faults d (archiving_brick command)

    unfoldable pub read_definition_brick :
        Database → Decoded BrickCommand → Database × Result DefinitionBrickSummary
    read_definition_brick d (undecodable e) =
        (d, Result.error ProjectError.definition_brick_invalid_candidate)
    read_definition_brick d (decoded command) = run_in_transaction faults d (reading_brick command)

    unfoldable pub read_exact_definition_brick_revision :
        Database → Decoded ExactCommand → Database × Result BrickAndRevision
    read_exact_definition_brick_revision d (undecodable e) =
        (d, Result.error ProjectError.definition_brick_invalid_candidate)
    read_exact_definition_brick_revision d (decoded command) =
        run_in_transaction faults d (reading_exact command)
