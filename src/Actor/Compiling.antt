-- ===== src/Actor/Compiling.antt =====
-- Compiling a stored revision: `compileAndPersist` of application.ts in
-- apps/runtime-server/src/modules/actor.
use ai_block.Prelude.{true, some, returns, ◌≡◌, refl, ap, ◌∙◌}
use ai_block.Actor.Slots.{ResolvedActorTemplateCandidate}
use ai_block.Actor.Validated.{IsValidated}
use ai_block.Actor.Compiler.{ActorConfigSnapshot, ActorCompilerInput}
use ai_block.Actor.Compiled.{IsCompiled, compile_actor_template_lem}
use ai_block.Actor.Revisions.{
  ActorTemplateRevisionView, authored_spec_from_revision, validation_candidate_from_revision,
  persisted_provenance_from_revision, template_revision_digest_matches,
}
use ai_block.Actor.Provenance.{IsRecorded, validated-IsRecorded}
use ai_block.Actor.Unit.{
  ActorConfigSnapshotWriteResult, ActorUnitOfWork, ActorUnitOfWorkPort, IsUnitOfWork,
  ActorModulePorts, Outcome,
}
use ai_block.Actor.Application.{
  ActorOperationResult, ActorTemplateCompileCommand, result_of, accepted, compiler_input, compiling,
  run_in_transaction, compile_and_persist,
}
use ai_block.Actor.Service.{
  Gives, ask-Gives, call-Gives, or_abort-Gives, check-Gives, saved-Gives, pure-Gives,
  accepted-IsValidated,
}

module _ (ports : ActorModulePorts) {S : Type 0} (uow : ActorUnitOfWork S) where
  -- The snapshot is compiled from a stored revision, which was validated again: the revision passes
  -- the check of its digest; the bricks that the references resolve to now are, slot by slot and in
  -- order, the ones that the revision recorded, by uid and by digest; and the snapshot was saved.
  pub record IsPersisted (command : ActorTemplateCompileCommand) (s t : S)
      (snapshot : ActorConfigSnapshot) : Type 0 where
    pub middle : S
    pub view : ActorTemplateRevisionView
    pub candidate : ResolvedActorTemplateCandidate
    pub input : ActorCompilerInput
    pub found :
        uow.find_revision command.project_id command.template_id command.revision s
        ≡ (middle, returns (some view))
    pub intact : template_revision_digest_matches ports.codec ports.digests view ≡ returns true
    pub validated :
        IsValidated ports.codec ports.validation
          (persisted_provenance_from_revision view)
          view.project_id
          (authored_spec_from_revision view)
          candidate
    pub recorded : IsRecorded view candidate
    pub from_view :
        input ≡ compiler_input ports uow view candidate input.snapshot_id input.created_at
    pub compiled : IsCompiled ports.codec ports.checks ports.digests input snapshot
    pub written : uow.save snapshot middle ≡ (t, returns ActorConfigSnapshotWriteResult.created)

  compiling-Gives :
      (command : ActorTemplateCompileCommand) (s : S)
      → Gives (compiling ports uow command) s (λ snapshot t. IsPersisted command s t snapshot)
  unfolding compiling validation_candidate_from_revision
  compiling-Gives command s = ask-Gives _ λ o middle found. or_abort-Gives _ o λ view is_view.
      call-Gives _ λ matches is_matches. check-Gives ports uow matches _ λ intact.
        call-Gives _ λ outcome is_outcome.
          or_abort-Gives _ (accepted outcome) λ candidate is_candidate.
            call-Gives _ λ snapshot_id is_id. call-Gives _ λ at is_at.
              or_abort-Gives _ _ λ snapshot is_snapshot. ask-Gives _ λ saved t written.
                saved-Gives ports uow saved λ created. pure-Gives (record {
                  middle = middle;
                  view = view;
                  candidate = candidate;
                  input = compiler_input ports uow view candidate snapshot_id at;
                  found = found ∙ ap (λ x. (middle, returns x)) is_view;
                  intact = is_matches ∙ ap returns intact;
                  validated =
                      accepted-IsValidated ports (persisted_provenance_from_revision view)
                        (validation_candidate_from_revision view) is_outcome is_candidate;
                  recorded =
                      validated-IsRecorded ports.codec ports.validation view.project_id view
                        candidate
                        (accepted-IsValidated ports (persisted_provenance_from_revision view)
                          (validation_candidate_from_revision view) is_outcome is_candidate);
                  from_view = refl;
                  compiled =
                      compile_actor_template_lem ports.codec ports.checks ports.digests _
                        is_snapshot;
                  written = written ∙ ap (λ x. (t, returns x)) created;
                })

  module _ (port : ActorUnitOfWorkPort S) (law : IsUnitOfWork port) where
    -- A snapshot that was saved, or nothing that was written
    abbrev pub PersistedOr :
        ActorTemplateCompileCommand → S → S → ActorOperationResult ActorConfigSnapshot → Type 0
    PersistedOr command s t (ActorOperationResult.ok snapshot) = IsPersisted command s t snapshot
    PersistedOr command s t (ActorOperationResult.error code) = t ≡ s

    ran-PersistedOr :
        (command : ActorTemplateCompileCommand) (s : S) (x : S × Outcome ActorConfigSnapshot)
        → port.run ActorConfigSnapshot (compiling ports uow command) s ≡ x
        → PersistedOr command s x.0 (result_of x.1)
    ran-PersistedOr command s (t, Outcome.done snapshot) e =
        (compiling-Gives command s).holds t snapshot (law.commits _ _ s t snapshot e)
    ran-PersistedOr command s (t, Outcome.aborted code) e = law.aborts _ _ s t code e
    ran-PersistedOr command s (t, Outcome.failed) e = law.fails _ _ s t e

    -- `compileAndPersist` on a unit of work that commits the value of a work and else writes
    -- nothing: if it succeeds, the snapshot is compiled from the revision that was found at the
    -- command's number, whose revision digest is that of its own references, and from a candidate
    -- that was validated again and has, slot by slot and in order, the bricks that the revision
    -- recorded, with their uids and digests; it was saved; and if it fails, in any way, the state is the one before.
    pub compile_and_persist_lem :
        (command : ActorTemplateCompileCommand) (s : S)
        → PersistedOr command s
            (compile_and_persist ports uow port command s).0
            (compile_and_persist ports uow port command s).1
    unfolding compile_and_persist run_in_transaction
    compile_and_persist_lem command s = ran-PersistedOr command s _ refl
