-- ===== src/Actor/Service.antt =====
-- What the operations of `ActorTemplateApplicationService` promise: application.ts in
-- apps/runtime-server/src/modules/actor.
use ai_block.Prelude.{
  Bool, true, false, Option, none, some, List, [], ◌∷◌, Attempt, returns, throws, ◌≡◌, refl, sym,
  ap, subst, ◌∙◌, arith, Bool-cases, inl, inr,
}
use ai_block.Actor.Report.Order.{report_for-valid}
use ai_block.Actor.Slots.{ResolvedActorTemplateCandidate}
use ai_block.Actor.Validation.{Provenance}
use ai_block.Actor.Candidate.{
  ActorTemplateValidationOutcome, ValidateActorTemplateCandidate, DecodeError, ShapeIssue,
  shape_or_root, shape_report, resolve_candidate, resolve_and_validate_actor_template_candidate,
}
use ai_block.Actor.Checks.{returns-eq}
use ai_block.Actor.Validated.{IsValidated, resolve_candidate_lem}
use ai_block.Actor.Compiled.{some-eq}
use ai_block.Actor.Unit.{
  ActorApplicationError, ActorTemplateRevisionWriteResult, ActorConfigSnapshotWriteResult,
  ActorUnitOfWork, ActorModulePorts, Outcome, ◌>>=◌, ◌>>◌, >>=-done, pure, outcome_of, ask, call,
  or_abort,
}
use ai_block.Actor.Application.{
  accepted, decoded_input, input_of, authoritative_validation, appended_or_abort, saved_or_abort,
  check, validated,
}

module _ {S : Type 0} where
  pub ask-done :
      {A : Type 0} (question : S → S × Attempt A) (s : S) {t : S} {a : A}
      → ask question s ≡ (t, Outcome.done a)
      → question s ≡ (t, returns a)
  unfolding ask
  ask-done {A} question s {t} {a} h = by_answer (question s) h
    where
      by_answer : (x : S × Attempt A) → outcome_of x ≡ (t, Outcome.done a) → x ≡ (t, returns a)
      by_answer (u, returns b) h = cc h
      by_answer (u, throws e) h = absurd (ground (arith, ap (λ p. p.1) h))

  pub done-eq :
      {A : Type 0} {s t : S} {a b : A}
      → ◌≡◌ {A = S × Outcome A} (s, Outcome.done a) (t, Outcome.done b)
      → (a ≡ b) × (t ≡ s)
  done-eq h = (cc h, cc h)

  pub call-done :
      {A : Type 0} (x : Attempt A) (s : S) {t : S} {a : A}
      → call x s ≡ (t, Outcome.done a)
      → (x ≡ returns a) × (t ≡ s)
  call-done (returns b) s h = let (e, u) = done-eq h in (ap returns e, u)
  call-done (throws e) s h = absurd (ground (arith, ap (λ p. p.1) h))

  pub or_abort-done :
      {A : Type 0} (code : ActorApplicationError) (o : Option A) (s : S) {t : S} {a : A}
      → or_abort code o s ≡ (t, Outcome.done a)
      → (o ≡ some a) × (t ≡ s)
  or_abort-done code none s h = absurd (ground (arith, ap (λ p. p.1) h))
  or_abort-done code (some b) s h = let (e, u) = done-eq h in (ap some e, u)

  pub check-done :
      (ports : ActorModulePorts) (uow : ActorUnitOfWork S) (holds : Bool)
      (code : ActorApplicationError) (s : S) {t : S} {a : Unit {0}}
      → check ports uow holds code s ≡ (t, Outcome.done a)
      → (holds ≡ true) × (t ≡ s)
  check-done ports uow true code s h = (refl, (done-eq h).1)
  check-done ports uow false code s h = absurd (ground (arith, ap (λ p. p.1) h))

  pub appended-done :
      (ports : ActorModulePorts) (uow : ActorUnitOfWork S) (r : ActorTemplateRevisionWriteResult)
      (s : S) {t : S} {a : Unit {0}}
      → appended_or_abort ports uow r s ≡ (t, Outcome.done a)
      → (r ≡ ActorTemplateRevisionWriteResult.appended) × (t ≡ s)
  appended-done ports uow ActorTemplateRevisionWriteResult.appended s h = (refl, (done-eq h).1)
  appended-done ports uow _ s h = absurd (ground (arith, ap (λ p. p.1) h))

  pub saved-done :
      (ports : ActorModulePorts) (uow : ActorUnitOfWork S) (r : ActorConfigSnapshotWriteResult)
      (s : S) {t : S} {a : Unit {0}}
      → saved_or_abort ports uow r s ≡ (t, Outcome.done a)
      → (r ≡ ActorConfigSnapshotWriteResult.created) × (t ≡ s)
  saved-done ports uow ActorConfigSnapshotWriteResult.created s h = (refl, (done-eq h).1)
  saved-done ports uow ActorConfigSnapshotWriteResult.snapshot_id_conflict s h =
      absurd (ground (arith, ap (λ p. p.1) h))

-- What holds if a work that starts in a state ends with a value
pub record Gives {S A : Type 0} (m : S → S × Outcome A) (s : S) (Q : A → S → Type 0) : Type 0 where
  pub holds : (t : S) (a : A) → m s ≡ (t, Outcome.done a) → Q a t

module _ {S A B : Type 0} {f : A → S → S × Outcome B} {s : S} {Q : B → S → Type 0} where
  pub bind-Gives :
      {R : A → S → Type 0} (m : S → S × Outcome A)
      → Gives m s R
      → ((a : A) (t : S) → R a t → Gives (f a) t Q)
      → Gives (m >>= f) s Q
  bind-Gives m g h = record {
    holds = λ u b e. let (t, a, p, q) = >>=-done m f s e in (h a t (g.holds t a p)).holds u b q;
  }

  -- A step that writes nothing
  quiet-Gives :
      {R : A → Type 0} (m : S → S × Outcome A)
      → ((t : S) (a : A) → m s ≡ (t, Outcome.done a) → R a × (t ≡ s))
      → ((a : A) → R a → Gives (f a) s Q)
      → Gives (m >>= f) s Q
  quiet-Gives {R} m g h =
      bind-Gives {R = λ a t. R a × (t ≡ s)} m (record { holds = g })
        (λ a t (r, e). subst (λ v. Gives (f a) v Q) (sym e) (h a r))

  pub ask-Gives :
      (question : S → S × Attempt A)
      → ((a : A) (t : S) → question s ≡ (t, returns a) → Gives (f a) t Q)
      → Gives (ask question >>= f) s Q
  ask-Gives question h =
      bind-Gives (ask question) (record { holds = λ t a e. ask-done question s e }) h

  pub call-Gives :
      (x : Attempt A) → ((a : A) → x ≡ returns a → Gives (f a) s Q) → Gives (call x >>= f) s Q
  call-Gives x h = quiet-Gives (call x) (λ t a e. call-done x s e) h

  pub or_abort-Gives :
      (code : ActorApplicationError) (o : Option A)
      → ((a : A) → o ≡ some a → Gives (f a) s Q)
      → Gives (or_abort code o >>= f) s Q
  or_abort-Gives code o h = quiet-Gives (or_abort code o) (λ t a e. or_abort-done code o s e) h

module _ {S B : Type 0} (ports : ActorModulePorts) (uow : ActorUnitOfWork S) {k : S → S × Outcome B}
    {s : S} {Q : B → S → Type 0} where
  pub check-Gives :
      (holds : Bool) (code : ActorApplicationError)
      → (holds ≡ true → Gives k s Q)
      → Gives (check ports uow holds code >> k) s Q
  check-Gives holds code h =
      quiet-Gives (check ports uow holds code) (λ t a e. check-done ports uow holds code s e)
        (λ a. h)

  pub appended-Gives :
      (r : ActorTemplateRevisionWriteResult)
      → (r ≡ ActorTemplateRevisionWriteResult.appended → Gives k s Q)
      → Gives (appended_or_abort ports uow r >> k) s Q
  appended-Gives r h =
      quiet-Gives (appended_or_abort ports uow r) (λ t a e. appended-done ports uow r s e) (λ a. h)

  pub saved-Gives :
      (r : ActorConfigSnapshotWriteResult)
      → (r ≡ ActorConfigSnapshotWriteResult.created → Gives k s Q)
      → Gives (saved_or_abort ports uow r >> k) s Q
  saved-Gives r h =
      quiet-Gives (saved_or_abort ports uow r) (λ t a e. saved-done ports uow r s e) (λ a. h)

pub pure-Gives : {S A : Type 0} {a : A} {s : S} {Q : A → S → Type 0} → Q a s → Gives (pure a) s Q
pure-Gives {a = a} {s = s} {Q = Q} q = record {
  holds = λ t b e. let (p, u) = done-eq e in subst (λ v. Q b v) (sym u) (subst (λ c. Q c s) p q);
}

-- A report on an input that could not be decoded is not valid.
shape_or_root-raises : (e : DecodeError) (l : List ShapeIssue) → shape_or_root e l ≡ [] → ⊥
shape_or_root-raises e [] h = ground arith
shape_or_root-raises e (issue ∷ l) h = ground arith

pub accepted-some :
    (outcome : ActorTemplateValidationOutcome) {c : ResolvedActorTemplateCandidate}
    → accepted outcome ≡ some c
    → (outcome.report.valid ≡ true) × (outcome.resolved ≡ some c)
accepted-some outcome h = elim (Bool-cases outcome.report.valid) [
  | inl v ↦ (v, rw v at h)
  | inr v ↦ absurd (ground (arith, rw v at h))
]

module _ (ports : ActorModulePorts) where
  decoded_input-resolves :
      (provenance : Provenance) (candidate : ValidateActorTemplateCandidate)
      (o : Option DecodeError) {outcome : ActorTemplateValidationOutcome}
      → authoritative_validation ports provenance (decoded_input candidate o) ≡ returns outcome
      → outcome.report.valid ≡ true
      → resolve_candidate ports.codec ports.validation provenance candidate ≡ returns outcome
  unfolding resolve_and_validate_actor_template_candidate shape_report
  decoded_input-resolves provenance candidate none h v = h
  decoded_input-resolves provenance candidate (some e) h v =
      let same = ap (λ o. o.report.valid) (returns-eq h) in
      absurd (shape_or_root-raises e _ ((report_for-valid _).0 (same ∙ v)))

  -- An accepted candidate is a validated one.
  pub accepted-IsValidated :
      (provenance : Provenance) (candidate : ValidateActorTemplateCandidate)
      {outcome : ActorTemplateValidationOutcome} {c : ResolvedActorTemplateCandidate}
      → authoritative_validation ports provenance (input_of ports candidate) ≡ returns outcome
      → accepted outcome ≡ some c
      → IsValidated ports.codec ports.validation provenance candidate.project_id candidate.spec c
  accepted-IsValidated provenance candidate {outcome} {c} h a =
      let (v, r) = accepted-some outcome a in
      let (c', e, validated) =
        resolve_candidate_lem ports.codec ports.validation provenance candidate
          (decoded_input-resolves provenance candidate _ h v) v in
      subst
        (IsValidated ports.codec ports.validation provenance candidate.project_id candidate.spec)
        (some-eq (sym e ∙ r)) validated
