-- ===== src/Actor/Application.antt =====
-- `ActorTemplateApplicationService`: application.ts in apps/runtime-server/src/modules/actor.
use ai_block.Prelude.{
  ℕ, ◌+◌, Text, Bool, true, Option, none, some, List, ◌==◌, not, if◌then◌else◌, Attempt, returns,
  throws, sort, leb, by_text,
}
use ai_block.Project.Values.{is_archived}
use ai_block.Actor.Values.{TemplateMetadata, TemplateSpec}
use ai_block.Actor.Report.{ActorTemplateValidationReport}
use ai_block.Actor.Slots.{ResolvedActorTemplateCandidate}
use ai_block.Actor.Validation.{Provenance}
use ai_block.Actor.Candidate.{
  ActorTemplateValidationOutcome, ValidateActorTemplateCandidate, CandidateInput, DecodeError,
  resolve_and_validate_actor_template_candidate,
}
use ai_block.Actor.Compiler.{ActorConfigSnapshot, ActorCompilerInput, compile_actor_template}
use ai_block.Actor.Revisions.{
  ActorTemplateRevisionView, validation_candidate_from_revision, persisted_provenance_from_revision,
  template_revision_digest_matches, revision_view,
}
use ai_block.Actor.Unit.{
  ActorApplicationError, ActorTemplateSummary, ActorTemplateRevisionSummary,
  ProjectResourceReservation, ActorTemplateCreateResult, ActorTemplateRevisionWriteResult,
  ActorTemplateArchiveResult, ActorConfigSnapshotWriteResult, ActorUnitOfWork, ActorUnitOfWorkPort,
  ActorModulePorts, Outcome, ◌>>=◌, ◌>>◌, pure, abort, ask, call, or_abort,
}

pub record CreateActorTemplateCommand : Type 0 where
  pub project_id : ℕ
  pub requested_template_id : ℕ
  pub metadata : TemplateMetadata
  pub spec : TemplateSpec

pub record ReviseActorTemplateCommand : Type 0 where
  pub project_id : ℕ
  pub template_id : ℕ
  pub base_revision : ℕ
  pub metadata : TemplateMetadata
  pub spec : TemplateSpec

pub record ActorTemplateCompileCommand : Type 0 where
  pub project_id : ℕ
  pub template_id : ℕ
  pub revision : ℕ

-- `ActorOperationResult`
pub data ActorOperationResult (A : Type 0) : Type 0 where
  ok : A → ActorOperationResult A
  error : ActorApplicationError → ActorOperationResult A

-- `asValidationCandidate`, of a command to create
abbrev pub candidate_of_create : CreateActorTemplateCommand → ValidateActorTemplateCandidate
candidate_of_create command = record {
  project_id = command.project_id;
  requested_template_id = command.requested_template_id;
  metadata = command.metadata;
  spec = command.spec;
}

-- `asValidationCandidate`, of a command to revise
abbrev pub candidate_of_revise : ReviseActorTemplateCommand → ValidateActorTemplateCandidate
candidate_of_revise command = record {
  project_id = command.project_id;
  requested_template_id = command.template_id;
  metadata = command.metadata;
  spec = command.spec;
}

-- The comparison of `sortSummaries` is not above zero.
unfoldable pub summary_le : (ℕ → Text) → ActorTemplateSummary → ActorTemplateSummary → Bool
summary_le id_text left right =
    by_text (id_text left.template_id) (id_text right.template_id)
      (by_text (id_text left.template_uid) (id_text right.template_uid) true)

-- `sortSummaries`
abbrev pub sort_summaries : (ℕ → Text) → List ActorTemplateSummary → List ActorTemplateSummary
sort_summaries id_text = sort (summary_le id_text)

abbrev pub history_le : ActorTemplateRevisionSummary → ActorTemplateRevisionSummary → Bool
history_le left right = leb left.revision right.revision

-- `sortHistory`
abbrev pub sort_history : List ActorTemplateRevisionSummary → List ActorTemplateRevisionSummary
sort_history = sort history_le

-- What `runInTransaction` returns, from what `unitOfWork.run` comes to
abbrev pub result_of : {A : Type 0} → Outcome A → ActorOperationResult A
result_of (Outcome.done a) = ActorOperationResult.ok a
result_of (Outcome.aborted code) = ActorOperationResult.error code
result_of Outcome.failed = ActorOperationResult.error ActorApplicationError.operation_failed

-- `given ?? fallback`
abbrev pub or_else : {A : Type 0} → Option A → A → A
or_else none fallback = fallback
or_else (some a) fallback = a

-- `!outcome.report.valid || outcome.resolved === undefined`
abbrev pub accepted : ActorTemplateValidationOutcome → Option ResolvedActorTemplateCandidate
accepted outcome = if not outcome.report.valid then none else outcome.resolved

-- What `decodeContract` makes of a candidate
abbrev pub decoded_input : ValidateActorTemplateCandidate → Option DecodeError → CandidateInput
decoded_input candidate none = CandidateInput.candidate candidate
decoded_input candidate (some e) = CandidateInput.malformed e

module _ (ports : ActorModulePorts) where
  abbrev pub input_of : ValidateActorTemplateCandidate → CandidateInput
  input_of candidate = decoded_input candidate (ports.candidate_error candidate)

  -- `authoritativeValidation`: what it catches is `operationFailure()`.
  abbrev pub authoritative_validation :
      Provenance → CandidateInput → Attempt ActorTemplateValidationOutcome
  authoritative_validation =
      resolve_and_validate_actor_template_candidate ports.codec ports.validation

  -- `validate`
  unfoldable pub validate : CandidateInput → ActorOperationResult ActorTemplateValidationReport
  validate input = elim (authoritative_validation (λ path. none) input) [
    | throws e ↦ ActorOperationResult.error ActorApplicationError.operation_failed
    | returns outcome ↦ ActorOperationResult.ok outcome.report
  ]

  module _ {S : Type 0} (uow : ActorUnitOfWork S) where
    unfoldable pub reading : ℕ → ℕ → Option ℕ → S → S × Outcome ActorTemplateRevisionView
    reading project_id template_id revision = do
      found ← ask (uow.find_summary project_id template_id)
      summary ← or_abort ActorApplicationError.template_not_found found
      let target_revision = or_else revision summary.current_revision
      view ← ask (uow.find_revision project_id template_id target_revision)
      or_abort ActorApplicationError.template_not_found view

    unfoldable pub listing : ℕ → S → S × Outcome (List ActorTemplateSummary)
    listing project_id = do
      found ← ask (uow.list_summaries project_id)
      summaries ← or_abort ActorApplicationError.project_not_found found
      pure (sort_summaries ports.id_text summaries)

    unfoldable pub telling_history : ℕ → ℕ → S → S × Outcome (List ActorTemplateRevisionSummary)
    telling_history project_id template_id = do
      found ← ask (uow.list_revision_summaries project_id template_id)
      history ← or_abort ActorApplicationError.template_not_found found
      pure (sort_history history)

    abbrev reserved_or_abort : ProjectResourceReservation → S → S × Outcome (Unit {0})
    reserved_or_abort ProjectResourceReservation.project_not_found =
        abort ActorApplicationError.project_not_found
    reserved_or_abort ProjectResourceReservation.occupied =
        abort ActorApplicationError.resource_id_conflict
    reserved_or_abort ProjectResourceReservation.reserved = pure tt

    abbrev created_or_abort : ActorTemplateCreateResult → S → S × Outcome (Unit {0})
    created_or_abort ActorTemplateCreateResult.resource_id_conflict =
        abort ActorApplicationError.resource_id_conflict
    created_or_abort ActorTemplateCreateResult.created = pure tt

    abbrev pub appended_or_abort : ActorTemplateRevisionWriteResult → S → S × Outcome (Unit {0})
    appended_or_abort ActorTemplateRevisionWriteResult.not_found =
        abort ActorApplicationError.template_not_found
    appended_or_abort ActorTemplateRevisionWriteResult.archived =
        abort ActorApplicationError.template_archived
    appended_or_abort ActorTemplateRevisionWriteResult.base_revision_conflict =
        abort ActorApplicationError.base_revision_conflict
    appended_or_abort ActorTemplateRevisionWriteResult.appended = pure tt

    abbrev archived_or_abort : ActorTemplateArchiveResult → S → S × Outcome (Unit {0})
    archived_or_abort ActorTemplateArchiveResult.not_found =
        abort ActorApplicationError.template_not_found
    archived_or_abort ActorTemplateArchiveResult.base_revision_conflict =
        abort ActorApplicationError.base_revision_conflict
    archived_or_abort ActorTemplateArchiveResult.archived = pure tt

    abbrev pub saved_or_abort : ActorConfigSnapshotWriteResult → S → S × Outcome (Unit {0})
    saved_or_abort ActorConfigSnapshotWriteResult.snapshot_id_conflict =
        abort ActorApplicationError.operation_failed
    saved_or_abort ActorConfigSnapshotWriteResult.created = pure tt

    -- The work of `create`
    unfoldable pub creating :
        CreateActorTemplateCommand
        → ResolvedActorTemplateCandidate
        → S
        → S × Outcome ActorTemplateRevisionView
    creating command resolved = do
      reservation ← ask (uow.reserve command.project_id command.requested_template_id)
      reserved_or_abort reservation
      template_uid ← call (ports.new_template_uid command.project_id command.requested_template_id)
      created_at ← call ports.now
      made ← call (
          revision_view ports.codec ports.digests template_uid command.requested_template_id
            (candidate_of_create command) resolved 1 created_at)
      revision ← or_abort ActorApplicationError.operation_failed made
      result ← ask (uow.create revision)
      created_or_abort result
      pure revision

    -- `if (!holds) abort(code)`
    abbrev pub check : Bool → ActorApplicationError → S → S × Outcome (Unit {0})
    check holds code = if holds then pure tt else abort code

    -- The work of `revise`
    unfoldable pub revising :
        ReviseActorTemplateCommand
        → ResolvedActorTemplateCandidate
        → S
        → S × Outcome ActorTemplateRevisionView
    revising command resolved = do
      found ← ask (uow.find_summary command.project_id command.template_id)
      current ← or_abort ActorApplicationError.template_not_found found
      check (not (is_archived current.status)) ActorApplicationError.template_archived
      check (current.current_revision == command.base_revision)
          ActorApplicationError.base_revision_conflict
      created_at ← call ports.now
      made ← call (
          revision_view ports.codec ports.digests current.template_uid command.template_id
            (candidate_of_revise command) resolved (current.current_revision + 1) created_at)
      revision ← or_abort ActorApplicationError.operation_failed made
      result ← ask (uow.append_revision revision command.base_revision)
      appended_or_abort result
      pure revision

    -- The rest of the work of `archive`, where the template is active
    unfoldable pub archiving_active :
        ℕ → ℕ → Option ℕ → ActorTemplateSummary → S → S × Outcome ActorTemplateSummary
    archiving_active project_id template_id expected_current_revision current = do
      let expected_revision = or_else expected_current_revision current.current_revision
      check (expected_revision == current.current_revision)
          ActorApplicationError.base_revision_conflict
      result ← ask (uow.archive project_id template_id expected_revision)
      archived_or_abort result
      again ← ask (uow.find_summary project_id template_id)
      or_abort ActorApplicationError.operation_failed again

    -- The work of `archive`
    unfoldable pub archiving : ℕ → ℕ → Option ℕ → S → S × Outcome ActorTemplateSummary
    archiving project_id template_id expected_current_revision = do
      found ← ask (uow.find_summary project_id template_id)
      current ← or_abort ActorApplicationError.template_not_found found
      (if is_archived current.status
          then pure current
          else archiving_active project_id template_id expected_current_revision current)

    abbrev pub compiler_input :
        ActorTemplateRevisionView
        → ResolvedActorTemplateCandidate
        → (snapshot_id created_at : ℕ) → ActorCompilerInput
    compiler_input view candidate snapshot_id created_at = record {
      snapshot_id = snapshot_id;
      created_at = created_at;
      source_template = record {
        template_uid = view.template_uid;
        human_readable_id = view.template_id;
        revision = view.revision;
        revision_digest = view.revision_digest;
      };
      candidate = candidate;
    }

    -- The work of `compileAndPersist`
    unfoldable pub compiling : ActorTemplateCompileCommand → S → S × Outcome ActorConfigSnapshot
    compiling command = do
      found ← ask (uow.find_revision command.project_id command.template_id command.revision)
      view ← or_abort ActorApplicationError.template_not_found found
      matches ← call (template_revision_digest_matches ports.codec ports.digests view)
      check matches ActorApplicationError.operation_failed
      outcome ← call (
          authoritative_validation (persisted_provenance_from_revision view)
            (input_of (validation_candidate_from_revision view)))
      candidate ←
          or_abort (ActorApplicationError.validation_failed outcome.report) (accepted outcome)
      snapshot_id ← call (ports.new_snapshot_id command.project_id)
      created_at ← call ports.now
      snapshot ← or_abort ActorApplicationError.compilation_failed (
          compile_actor_template ports.codec ports.checks ports.digests
            (compiler_input view candidate snapshot_id created_at))
      saved ← ask (uow.save snapshot)
      saved_or_abort saved
      pure snapshot

    module _ (port : ActorUnitOfWorkPort S) where
      -- `runInTransaction`, which `readInTransaction` and `writeInTransaction` call
      unfoldable pub run_in_transaction :
          {A : Type 0} → (S → S × Outcome A) → S → S × ActorOperationResult A
      run_in_transaction {A} work s = let (t, outcome) = port.run A work s in (t, result_of outcome)

      unfoldable pub read :
          ℕ → ℕ → Option ℕ → S → S × ActorOperationResult ActorTemplateRevisionView
      read project_id template_id revision =
          run_in_transaction (reading project_id template_id revision)

      unfoldable pub list : ℕ → S → S × ActorOperationResult (List ActorTemplateSummary)
      list project_id = run_in_transaction (listing project_id)

      unfoldable pub history :
          ℕ → ℕ → S → S × ActorOperationResult (List ActorTemplateRevisionSummary)
      history project_id template_id = run_in_transaction (telling_history project_id template_id)

      unfoldable pub when_accepted :
          {A : Type 0}
          → ActorTemplateValidationReport
          → Option ResolvedActorTemplateCandidate
          → (ResolvedActorTemplateCandidate → S → S × Outcome A)
          → S
          → S × ActorOperationResult A
      when_accepted report none work s =
          (s, ActorOperationResult.error (ActorApplicationError.validation_failed report))
      when_accepted report (some resolved) work s = run_in_transaction (work resolved) s

      unfoldable pub after_validation :
          {A : Type 0}
          → Attempt ActorTemplateValidationOutcome
          → (ResolvedActorTemplateCandidate → S → S × Outcome A)
          → S
          → S × ActorOperationResult A
      after_validation (throws e) work s =
          (s, ActorOperationResult.error ActorApplicationError.operation_failed)
      after_validation (returns outcome) work s =
          when_accepted outcome.report (accepted outcome) work s

      -- The validation before a transaction, the error that it gives, and the transaction
      unfoldable pub validated :
          {A : Type 0}
          → ValidateActorTemplateCandidate
          → (ResolvedActorTemplateCandidate → S → S × Outcome A)
          → S
          → S × ActorOperationResult A
      validated candidate =
          after_validation (authoritative_validation (λ path. none) (input_of candidate))

      unfoldable pub create :
          CreateActorTemplateCommand → S → S × ActorOperationResult ActorTemplateRevisionView
      create command = validated (candidate_of_create command) (creating command)

      unfoldable pub revise :
          ReviseActorTemplateCommand → S → S × ActorOperationResult ActorTemplateRevisionView
      revise command = validated (candidate_of_revise command) (revising command)

      unfoldable pub archive : ℕ → ℕ → Option ℕ → S → S × ActorOperationResult ActorTemplateSummary
      archive project_id template_id expected_current_revision =
          run_in_transaction (archiving project_id template_id expected_current_revision)

      unfoldable pub compile_and_persist :
          ActorTemplateCompileCommand → S → S × ActorOperationResult ActorConfigSnapshot
      compile_and_persist command = run_in_transaction (compiling command)
