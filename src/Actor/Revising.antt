-- ===== src/Actor/Revising.antt =====
-- Revising a template, with its check of the base revision: `revise` of application.ts in
-- apps/runtime-server/src/modules/actor.
use ai_block.Prelude.{
  ℕ, ◌+◌, true, false, Option, none, some, ◌==◌, ==_iff, not, Attempt, returns, throws, ◌≡◌, refl,
  ap, ◌∙◌, arith,
}
use ai_block.Project.Values.{is_archived}
use ai_block.Actor.Slots.{ResolvedActorTemplateCandidate}
use ai_block.Actor.Validation.{Provenance}
use ai_block.Actor.Candidate.{ActorTemplateValidationOutcome}
use ai_block.Actor.Validated.{IsValidated}
use ai_block.Actor.Revisions.{
  ActorTemplateRevisionView, authored_spec_from_revision, template_revision_digest_matches,
  revision_view,
}
use ai_block.Actor.Digests.{revision_view-IsView, revision_view-authored}
use ai_block.Actor.Unit.{
  ActorTemplateSummary, ActorTemplateRevisionWriteResult, ActorUnitOfWork, ActorUnitOfWorkPort,
  IsUnitOfWork, ActorModulePorts, Outcome,
}
use ai_block.Actor.Application.{
  ActorOperationResult, ReviseActorTemplateCommand, candidate_of_revise, result_of, accepted,
  input_of, authoritative_validation, revising, run_in_transaction, when_accepted, after_validation,
  validated, revise,
}
use ai_block.Actor.Service.{
  Gives, ask-Gives, call-Gives, or_abort-Gives, check-Gives, appended-Gives, pure-Gives,
  accepted-IsValidated,
}

module _ (ports : ActorModulePorts) {S : Type 0} (uow : ActorUnitOfWork S) where
  -- The revision follows the current one of an active template, on which the command is based; it
  -- was appended; its references are those of the command, and its revision digest is that of them.
  pub record IsRevised (command : ReviseActorTemplateCommand) (s t : S)
      (view : ActorTemplateRevisionView) : Type 0 where
    pub middle : S
    pub current : ActorTemplateSummary
    pub found :
        uow.find_summary command.project_id command.template_id s ≡ (middle, returns (some current))
    pub active : is_archived current.status ≡ false
    pub base : current.current_revision ≡ command.base_revision
    pub number : view.revision ≡ command.base_revision + 1
    pub uid : view.template_uid ≡ current.template_uid
    pub place : (view.project_id ≡ command.project_id) × (view.template_id ≡ command.template_id)
    pub authored : authored_spec_from_revision view ≡ command.spec
    pub metadata : view.metadata ≡ command.metadata
    pub intact : template_revision_digest_matches ports.codec ports.digests view ≡ returns true
    pub written :
        uow.append_revision view command.base_revision middle
        ≡ (t, returns ActorTemplateRevisionWriteResult.appended)

  revised :
      (command : ReviseActorTemplateCommand) (c : ResolvedActorTemplateCandidate)
      (provenance : Provenance) {s middle t : S} {o : Option ActorTemplateSummary}
      {current : ActorTemplateSummary} (at : ℕ) {view : ActorTemplateRevisionView}
      → IsValidated ports.codec ports.validation provenance command.project_id command.spec c
      → uow.find_summary command.project_id command.template_id s ≡ (middle, returns o)
      → o ≡ some current
      → not (is_archived current.status) ≡ true
      → (current.current_revision == command.base_revision) ≡ true
      → revision_view ports.codec ports.digests current.template_uid command.template_id
          (candidate_of_revise command)
          c
          (current.current_revision + 1)
          at
        ≡ returns (some view)
      → uow.append_revision view command.base_revision middle
        ≡ (t, returns ActorTemplateRevisionWriteResult.appended)
      → IsRevised command s t view
  revised command c provenance {s} {middle} {t} {o} {current} at {view} v found is_current active
        base made written =
      let is_view = revision_view-IsView ports.codec ports.digests _ _ _ _ _ _ made in
      let (authored, metadata, intact) =
        revision_view-authored ports.codec ports.digests ports.validation provenance _ _
          (candidate_of_revise command) c _ _ v made in
      let same : current.current_revision ≡ command.base_revision = (==_iff _ _).0 base in
      record {
        middle = middle;
        current = current;
        found = found ∙ ap (λ x. (middle, returns x)) is_current;
        active = ground (arith, active);
        base = same;
        number = ap (λ w. w.revision) is_view.made ∙ ap (λ n. n + 1) same;
        uid = ap (λ w. w.template_uid) is_view.made;
        place = (ap (λ w. w.project_id) is_view.made, ap (λ w. w.template_id) is_view.made);
        authored = authored;
        metadata = metadata;
        intact = intact;
        written = written;
      }

  revising-Gives :
      (command : ReviseActorTemplateCommand) (c : ResolvedActorTemplateCandidate) (s : S)
      (provenance : Provenance)
      → IsValidated ports.codec ports.validation provenance command.project_id command.spec c
      → Gives (revising ports uow command c) s (λ view t. IsRevised command s t view)
  unfolding revising
  revising-Gives command c s provenance v = ask-Gives _ λ o middle found.
      or_abort-Gives _ o λ current is_current. check-Gives ports uow _ _ λ active.
        check-Gives ports uow _ _ λ base. call-Gives _ λ at is_at. call-Gives _ λ made is_made.
          or_abort-Gives _ made λ view is_view. ask-Gives _ λ r t written.
            appended-Gives ports uow r λ appended. pure-Gives (
              revised command c provenance at v found is_current active base
                (is_made ∙ ap returns is_view) (written ∙ ap (λ x. (t, returns x)) appended))

  module _ (port : ActorUnitOfWorkPort S) (law : IsUnitOfWork port) where
    -- A revision that was made, or nothing that was written
    abbrev pub RevisedOr :
        ReviseActorTemplateCommand → S → S → ActorOperationResult ActorTemplateRevisionView → Type 0
    RevisedOr command s t (ActorOperationResult.ok view) = IsRevised command s t view
    RevisedOr command s t (ActorOperationResult.error code) = t ≡ s

    ran-RevisedOr :
        (command : ReviseActorTemplateCommand) (c : ResolvedActorTemplateCandidate) (s : S)
        → IsValidated ports.codec ports.validation (λ path. none) command.project_id command.spec c
        → (x : S × Outcome ActorTemplateRevisionView)
        → port.run ActorTemplateRevisionView (revising ports uow command c) s ≡ x
        → RevisedOr command s x.0 (result_of x.1)
    ran-RevisedOr command c s v (t, Outcome.done view) e =
        (revising-Gives command c s (λ path. none) v).holds t view (law.commits _ _ s t view e)
    ran-RevisedOr command c s v (t, Outcome.aborted code) e = law.aborts _ _ s t code e
    ran-RevisedOr command c s v (t, Outcome.failed) e = law.fails _ _ s t e

    after-RevisedOr :
        (command : ReviseActorTemplateCommand) (s : S) (x : Attempt ActorTemplateValidationOutcome)
        → authoritative_validation ports
            (λ path. none)
            (input_of ports (candidate_of_revise command))
          ≡ x
        → RevisedOr command s
            (after_validation ports uow port x (revising ports uow command) s).0
            (after_validation ports uow port x (revising ports uow command) s).1
    unfolding after_validation when_accepted run_in_transaction
    after-RevisedOr command s (throws e) h = refl
    after-RevisedOr command s (returns outcome) h = by_candidate (accepted outcome) refl
      where
        by_candidate :
            (o : Option ResolvedActorTemplateCandidate)
            → accepted outcome ≡ o
            → RevisedOr command s
                (when_accepted ports uow port outcome.report o (revising ports uow command) s).0
                (when_accepted ports uow port outcome.report o (revising ports uow command) s).1
        by_candidate none a = refl
        by_candidate (some c) a =
            ran-RevisedOr command c s
              (accepted-IsValidated ports (λ path. none) (candidate_of_revise command) h a) _ refl

    -- `revise` on a unit of work that commits the value of a work and else writes nothing: if it
    -- succeeds, the template was found active with the command's base revision as its current one,
    -- and the revision that is returned was appended, has the next number, the template's uid, the
    -- command's metadata and references, and a revision digest that passes the integrity check; and
    -- if it fails, in any way, the state is the one before.
    pub revise_lem :
        (command : ReviseActorTemplateCommand) (s : S)
        → RevisedOr command s
            (revise ports uow port command s).0
            (revise ports uow port command s).1
    unfolding revise validated
    revise_lem command s = after-RevisedOr command s _ refl
