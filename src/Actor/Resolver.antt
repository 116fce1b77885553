-- ===== src/Actor/Resolver.antt =====
-- The resolver that the actor module takes for its port, on the project module's exact read:
-- infrastructure/actor-definition-brick-resolver.ts in apps/runtime-server/src/modules/project.
use ai_block.Prelude.{
  ℕ, ◌≡◌, refl, ap, subst, Bool, true, false, Option, none, some, Attempt, returns, throws, Thrown,
  error, not, ◌==◌, ==_iff, ◌||◌, if◌then◌else◌, Bool-cases, inl, inr, arith,
}
use ai_block.Protocol.{decoded}
use ai_block.Project.Values.{ProjectPorts, ProjectError, DefinitionBrickRevision, same_kind}
use ai_block.Project.Sql.{Faults, Database, Outcome}
use ai_block.Project.Application.{
  Result, ExactCommand, BrickAndRevision, reading_exact, run_in_transaction,
  read_exact_definition_brick_revision,
}
use ai_block.Project.Transactions.{AllOrNothing, run_in_transaction_lem}
use ai_block.Project.Exact.{IsExact, reading_exact_lem}
use ai_block.Project.Ensures.{After}
use ai_block.Actor.Values.{ExactBrickRef, BindingResult, bind_definition_brick_ref}
use ai_block.Actor.Checks.{returns-eq}
use ai_block.Actor.Resolved.{IsNamed}

-- `resolutionFailure`
abbrev pub resolution_failure : Thrown
resolution_failure = error "Persisted Definition Brick resolution failed."

-- `absenceCodes.has(code)`
abbrev pub is_absence : ProjectError → Bool
is_absence ProjectError.project_not_found = true
is_absence ProjectError.definition_brick_not_found = true
is_absence ProjectError.definition_brick_revision_not_found = true
is_absence _ = false

-- What is looked at in a revision
abbrev pub is_foreign : ℕ → ExactBrickRef → BrickAndRevision → Bool
is_foreign project_id ref found =
    not (found.brick.project_id == project_id)
    || not (found.brick.brick_id == ref.id)
    || not (same_kind found.brick.kind found.revision.kind)
    || not (found.revision.project_id == project_id)
    || not (found.revision.brick_id == ref.id)
    || not (found.revision.revision == ref.revision)

unfoldable pub answer :
    ℕ → ExactBrickRef → Result BrickAndRevision → Attempt (Option DefinitionBrickRevision)
answer project_id ref (Result.ok found) =
    if is_foreign project_id ref found
    then throws resolution_failure
    else returns (some found.revision)
answer project_id ref (Result.error code) =
    if is_absence code then returns none else throws resolution_failure

bound :
    (project_id : ℕ) (ref : ExactBrickRef) (r : DefinitionBrickRevision)
    → IsNamed project_id ref r
    → bind_definition_brick_ref project_id ref (some r)
      ≡ BindingResult.resolved ref r.revision_uid r.digest
unfolding bind_definition_brick_ref
bound project_id ref r (p, i, n) = rw ((==_iff _ _).1 p, (==_iff _ _).1 i, (==_iff _ _).1 n)

ok-eq : {a b : BrickAndRevision} → Result.ok a ≡ Result.ok b → a ≡ b
ok-eq h = cc h

-- `result_ok` is whether `decodeContract` accepts the reader's result.
module _ (result_ok : Result BrickAndRevision → Bool) where
  unfoldable pub resolved_of :
      ℕ
      → ExactBrickRef
      → Attempt (Result BrickAndRevision)
      → Attempt (Option DefinitionBrickRevision)
  resolved_of project_id ref (throws e) = throws resolution_failure
  resolved_of project_id ref (returns result) =
      if not (result_ok result) then throws resolution_failure else answer project_id ref result

  -- `resolveExact`
  unfoldable pub resolve_exact :
      (ExactCommand → Attempt (Result BrickAndRevision))
      → ℕ
      → ExactBrickRef
      → Attempt (Option DefinitionBrickRevision)
  resolve_exact reader project_id ref =
      resolved_of project_id ref
        (reader (record { project_id = project_id; id = ref.id; revision = ref.revision }))

  answer-some :
      (project_id : ℕ) (ref : ExactBrickRef) (result : Result BrickAndRevision)
      {r : DefinitionBrickRevision}
      → answer project_id ref result ≡ returns (some r)
      → (found : BrickAndRevision) × (result ≡ Result.ok found)
        × (found.revision ≡ r)
        × IsNamed project_id ref found.revision
  unfolding answer
  answer-some project_id ref (Result.error code) h = elim (Bool-cases (is_absence code)) [
    | inl e ↦ absurd (ground (arith, rw e at h))
    | inr e ↦ absurd (ground (arith, rw e at h))
  ]
  answer-some project_id ref (Result.ok found) h =
      elim (Bool-cases (is_foreign project_id ref found)) [
        | inl e ↦ absurd (ground (arith, rw e at h))
        | inr e ↦
            (found, refl, cc (rw e at h), (ground (arith, e), ground (arith, e), ground (arith, e)))
      ]

  resolved_of-some :
      (project_id : ℕ) (ref : ExactBrickRef) (x : Attempt (Result BrickAndRevision))
      {r : DefinitionBrickRevision}
      → resolved_of project_id ref x ≡ returns (some r)
      → (found : BrickAndRevision) × (x ≡ returns (Result.ok found))
        × (found.revision ≡ r)
        × IsNamed project_id ref found.revision
  unfolding resolved_of
  resolved_of-some project_id ref (throws e) h = absurd (ground arith)
  resolved_of-some project_id ref (returns result) h = elim (Bool-cases (result_ok result)) [
    | inl e ↦
        let (found, q, same, named) = answer-some project_id ref result (rw e at h) in
        (found, ap returns q, same, named)
    | inr e ↦ absurd (ground (arith, rw e at h))
  ]

  module _ (ports : ProjectPorts) (faults : Faults) (d : Database) where
    -- The reader that the server passes on: the service on a database, with what may fail
    abbrev pub service : ExactCommand → Attempt (Result BrickAndRevision)
    service command =
        returns (read_exact_definition_brick_revision ports faults d (decoded command)).1

    abbrev pub command_of : ℕ → ExactBrickRef → ExactCommand
    command_of project_id ref = record {
      project_id = project_id;
      id = ref.id;
      revision = ref.revision;
    }

    transaction-IsExact :
        (command : ExactCommand) (found : BrickAndRevision) (x : Database × Result BrickAndRevision)
        → AllOrNothing d (reading_exact ports faults command) x
        → x.1 ≡ Result.ok found
        → IsExact ports faults d.committed command found
    transaction-IsExact command found (e, Result.error code) h q = absurd (ground arith)
    transaction-IsExact command found (e, Result.ok a) (s, ran, committed) q =
        let after = (reading_exact_lem ports faults d.committed command).holds 0 in
        let done : After
            (λ found u. (u ≡ d.committed) × IsExact ports faults d.committed command found)
            (s, Outcome.done a) =
          subst (After λ x u. (u ≡ d.committed) × IsExact ports faults d.committed command x) ran
            after in
        subst (IsExact ports faults d.committed command) (ok-eq q) done.1

    -- What the resolver finds, on the project service as its reader and whatever statement of it
    -- fails, is a revision that the database holds under the names of the reference, with the digest
    -- that is computed of its body; and the actor module binds the reference to it.
    pub resolve_exact_lem :
        (project_id : ℕ) (ref : ExactBrickRef) {r : DefinitionBrickRevision}
        → resolve_exact service project_id ref ≡ returns (some r)
        → (found : BrickAndRevision) × (found.revision ≡ r)
          × IsExact ports faults d.committed (command_of project_id ref) found
          × (bind_definition_brick_ref project_id ref (some r)
              ≡ BindingResult.resolved ref r.revision_uid r.digest)
    unfolding resolve_exact read_exact_definition_brick_revision
    resolve_exact_lem project_id ref {r} h =
        let (found, q, same, named) = resolved_of-some project_id ref _ h in
        let exact =
          transaction-IsExact (command_of project_id ref) found
            (run_in_transaction faults d (reading_exact ports faults (command_of project_id ref)))
            (run_in_transaction_lem faults d
              (reading_exact ports faults (command_of project_id ref)))
            (returns-eq q) in
        (found, same, exact, bound project_id ref r (subst (IsNamed project_id ref) same named))
