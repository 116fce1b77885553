-- ===== src/Actor/Unit.antt =====
-- The unit of work of the actor module: ports.ts in apps/runtime-server/src/modules/actor. Its
-- implementation is not in the repository: a state that is a parameter, and functions on it.
use ai_block.Prelude.{
  ℕ, String, Text, Option, none, some, List, Attempt, returns, throws, ◌≡◌, refl, ap, arith,
}
use ai_block.Project.Values.{BrickStatus}
use ai_block.Actor.Report.{ActorTemplateValidationReport}
use ai_block.Actor.Values.{Digests}
use ai_block.Actor.Validation.{BodyCodec, ValidationPorts}
use ai_block.Actor.Candidate.{ValidateActorTemplateCandidate, DecodeError}
use ai_block.Actor.Compiler.{ActorConfigSnapshot, CompilerChecks}
use ai_block.Actor.Revisions.{ActorTemplateRevisionView}

-- `ActorApplicationError`, by its code; its category and its message follow from the code.
pub data ActorApplicationError : Type 0 where
  project_not_found resource_id_conflict template_not_found template_archived :
      ActorApplicationError
  base_revision_conflict compilation_failed operation_failed : ActorApplicationError
  validation_failed : ActorTemplateValidationReport → ActorApplicationError

pub data ErrorCategory : Type 0 where
  not_found conflict validation internal : ErrorCategory

abbrev pub category_of : ActorApplicationError → ErrorCategory
category_of ActorApplicationError.project_not_found = ErrorCategory.not_found
category_of ActorApplicationError.resource_id_conflict = ErrorCategory.conflict
category_of ActorApplicationError.template_not_found = ErrorCategory.not_found
category_of ActorApplicationError.template_archived = ErrorCategory.conflict
category_of ActorApplicationError.base_revision_conflict = ErrorCategory.conflict
category_of ActorApplicationError.compilation_failed = ErrorCategory.internal
category_of ActorApplicationError.operation_failed = ErrorCategory.internal
category_of (ActorApplicationError.validation_failed report) = ErrorCategory.validation

abbrev pub error_message : ActorApplicationError → String
error_message ActorApplicationError.project_not_found = "Project not found."
error_message ActorApplicationError.resource_id_conflict = "Project resource ID conflict."
error_message ActorApplicationError.template_not_found = "ActorTemplate not found."
error_message ActorApplicationError.template_archived = "ActorTemplate is archived."
error_message ActorApplicationError.base_revision_conflict = "ActorTemplate base revision conflict."
error_message ActorApplicationError.compilation_failed = "ActorTemplate compilation failed."
error_message ActorApplicationError.operation_failed = "ActorTemplate operation failed."
error_message (ActorApplicationError.validation_failed report) = "ActorTemplate validation failed."

pub record ActorTemplateSummary : Type 0 where
  pub template_uid : ℕ
  pub template_id : ℕ
  pub project_id : ℕ
  pub display_name : String
  pub current_revision : ℕ
  pub status : BrickStatus
  pub created_at : ℕ

pub record ActorTemplateRevisionSummary : Type 0 where
  pub revision : ℕ
  pub revision_digest : String
  pub config_digest : String
  pub status : BrickStatus
  pub created_at : ℕ

pub data ProjectResourceReservation : Type 0 where
  reserved occupied project_not_found : ProjectResourceReservation

pub data ActorTemplateCreateResult : Type 0 where
  created resource_id_conflict : ActorTemplateCreateResult

pub data ActorTemplateRevisionWriteResult : Type 0 where
  appended not_found archived base_revision_conflict : ActorTemplateRevisionWriteResult

pub data ActorTemplateArchiveResult : Type 0 where
  archived not_found base_revision_conflict : ActorTemplateArchiveResult

pub data ActorConfigSnapshotWriteResult : Type 0 where
  created snapshot_id_conflict : ActorConfigSnapshotWriteResult

-- `ActorUnitOfWork`: its namespace, its templates and its snapshots, on a state
pub record ActorUnitOfWork (S : Type 0) : Type 0 where
  pub reserve : ℕ → ℕ → S → S × Attempt ProjectResourceReservation
  pub list_summaries : ℕ → S → S × Attempt (Option (List ActorTemplateSummary))
  pub find_summary : ℕ → ℕ → S → S × Attempt (Option ActorTemplateSummary)
  pub find_revision : ℕ → ℕ → ℕ → S → S × Attempt (Option ActorTemplateRevisionView)
  pub list_revision_summaries : ℕ → ℕ → S → S × Attempt (Option (List ActorTemplateRevisionSummary))
  pub create : ActorTemplateRevisionView → S → S × Attempt ActorTemplateCreateResult
  pub append_revision :
      ActorTemplateRevisionView → ℕ → S → S × Attempt ActorTemplateRevisionWriteResult
  pub archive : ℕ → ℕ → ℕ → S → S × Attempt ActorTemplateArchiveResult
  pub save : ActorConfigSnapshot → S → S × Attempt ActorConfigSnapshotWriteResult

-- The other ports of the service, and what the contracts' package decodes and digests for it.
-- `candidate_error` is what `decodeContract` says of a candidate that the service built.
pub record ActorModulePorts : Type 0 where
  pub codec : BodyCodec
  pub checks : CompilerChecks
  pub digests : Digests
  pub validation : ValidationPorts
  pub candidate_error : ValidateActorTemplateCandidate → Option DecodeError
  pub now : Attempt ℕ
  pub new_template_uid : ℕ → ℕ → Attempt ℕ
  pub new_snapshot_id : ℕ → Attempt ℕ
  pub id_text : ℕ → Text

-- A value, the throw of an `ActorOperationAbort`, or any other throw.
pub data Outcome (A : Type 0) : Type 0 where
  done : A → Outcome A
  aborted : ActorApplicationError → Outcome A
  failed : Outcome A

-- `ActorUnitOfWorkPort`
pub record ActorUnitOfWorkPort (S : Type 0) : Type 1 where
  pub run : (A : Type 0) → (S → S × Outcome A) → S → S × Outcome A

-- What the service relies on: a value is that of the work, with what the work has written; and
-- without a value nothing is written.
pub record IsUnitOfWork {S : Type 0} (port : ActorUnitOfWorkPort S) : Type 1 where
  pub commits :
      (A : Type 0) (work : S → S × Outcome A) (s t : S) (a : A)
      → port.run A work s ≡ (t, Outcome.done a)
      → work s ≡ (t, Outcome.done a)
  pub aborts :
      (A : Type 0) (work : S → S × Outcome A) (s t : S) (code : ActorApplicationError)
      → port.run A work s ≡ (t, Outcome.aborted code)
      → t ≡ s
  pub fails :
      (A : Type 0) (work : S → S × Outcome A) (s t : S)
      → port.run A work s ≡ (t, Outcome.failed)
      → t ≡ s

module _ {S : Type 0} where
  abbrev follow : {A B : Type 0} → S × Outcome A → (A → S → S × Outcome B) → S × Outcome B
  follow (s, Outcome.done a) f = f a s
  follow (s, Outcome.aborted code) f = (s, Outcome.aborted code)
  follow (s, Outcome.failed) f = (s, Outcome.failed)

  infixl 5 ◌>>=◌ ◌>>◌
  unfoldable pub ◌>>=◌ :
      {A B : Type 0} → (S → S × Outcome A) → (A → S → S × Outcome B) → S → S × Outcome B
  (m >>= f) s = follow (m s) f

  abbrev pub ◌>>◌ :
      {B : Type 0} → (S → S × Outcome (Unit {0})) → (S → S × Outcome B) → S → S × Outcome B
  m >> k = m >>= λ _. k

  abbrev pub pure : {A : Type 0} → A → S → S × Outcome A
  pure a s = (s, Outcome.done a)

  -- `abort`
  abbrev pub abort : {A : Type 0} → ActorApplicationError → S → S × Outcome A
  abort code s = (s, Outcome.aborted code)

  abbrev pub outcome_of : {A : Type 0} → S × Attempt A → S × Outcome A
  outcome_of (s, returns a) = (s, Outcome.done a)
  outcome_of (s, throws e) = (s, Outcome.failed)

  -- A call of the unit of work
  unfoldable pub ask : {A : Type 0} → (S → S × Attempt A) → S → S × Outcome A
  ask question s = outcome_of (question s)

  -- A call of another port
  abbrev pub call : {A : Type 0} → Attempt A → S → S × Outcome A
  call (returns a) = pure a
  call (throws e) = λ s. (s, Outcome.failed)

  abbrev pub or_abort : {A : Type 0} → ActorApplicationError → Option A → S → S × Outcome A
  or_abort code none = abort code
  or_abort code (some a) = pure a

  -- A chain that ended with a value has a value at each step.
  pub >>=-done :
      {A B : Type 0} (m : S → S × Outcome A) (f : A → S → S × Outcome B) (s : S) {u : S} {b : B}
      → (m >>= f) s ≡ (u, Outcome.done b)
      → (t : S) × (a : A) × (m s ≡ (t, Outcome.done a)) × (f a t ≡ (u, Outcome.done b))
  unfolding ◌>>=◌
  >>=-done {A} {B} m f s {u} {b} h = by_outcome (m s) h
    where
      by_outcome :
          (x : S × Outcome A)
          → follow x f ≡ (u, Outcome.done b)
          → (t : S) × (a : A) × (x ≡ (t, Outcome.done a)) × (f a t ≡ (u, Outcome.done b))
      by_outcome (t, Outcome.done a) h = (t, a, refl, h)
      by_outcome (t, Outcome.aborted code) h = absurd (ground (arith, ap (λ p. p.1) h))
      by_outcome (t, Outcome.failed) h = absurd (ground (arith, ap (λ p. p.1) h))
