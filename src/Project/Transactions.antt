-- ===== src/Project/Transactions.antt =====
-- An operation that returns an error has changed nothing: `run` in persistence.ts and
-- `runInTransaction` in application.ts.
use ai_block.Prelude.{
  ◌≡◌, refl, Bool, true, false, arith, inl, inr, Bool-cases, is_none, not, ◌||◌, if◌then◌else◌,
}
use ai_block.Project.Sql.{Work, Session, Faults, Database, Outcome, rollback, finish, run}
use ai_block.Project.Application.{Result, result_of, run_in_transaction}

-- The transaction was committed with the tables that the work left, or nothing is committed.
abbrev pub AllOrNothing : {A : Type 0} → Database → Work A → Database × Result A → Type 0
AllOrNothing d work (e, Result.ok a) =
    (s : Session) × (work (record { tables = d.committed; executed = 0 }) ≡ (s, Outcome.done a))
    × (e.committed ≡ s.tables)
AllOrNothing d work (e, Result.error code) = e.committed ≡ d.committed

rollback-committed : (faults : Faults) (d : Database) → (rollback faults d).committed ≡ d.committed
rollback-committed faults d = ground arith

finish_lem :
    {A : Type 0} (faults : Faults) (d : Database) (work : Work A) (x : Session × Outcome A)
    → work (record { tables = d.committed; executed = 0 }) ≡ x
    → AllOrNothing d work ((finish faults d x).0, result_of (finish faults d x).1)
finish_lem faults d work (s, Outcome.done a) e = elim (Bool-cases faults.commit_fails) [
  | inl c ↦ rw c (rollback-committed faults _)
  | inr c ↦ rw c (s, e, refl)
]
finish_lem faults d work (s, Outcome.aborted code) e = rollback-committed faults _
finish_lem faults d work (s, Outcome.failed) e = rollback-committed faults _

either : {A : Type 0} (P : A → Type 0) (b : Bool) {x y : A} → P x → P y → P (if b then x else y)
either P true p q = p
either P false p q = q

-- A transaction is all or nothing, wherever its work or the database fails: if it returns a value, its
-- work ended with that value and exactly the work's tables are committed; if it returns an error, what
-- is committed is what was.
pub run_in_transaction_lem :
    {A : Type 0} (faults : Faults) (d : Database) (work : Work A)
    → AllOrNothing d work (run_in_transaction faults d work)
unfolding run_in_transaction run
run_in_transaction_lem {A} faults d work = either Good d.closed refl (
    either Good (faults.begin_fails || not (is_none d.pending)) (rollback-committed faults d)
      (finish_lem faults d work _ refl))
  where
    Good : Database × Outcome A → Type 0
    Good x = AllOrNothing d work (x.0, result_of x.1)
