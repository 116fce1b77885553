-- ===== src/Project/Sql.antt =====
-- The tables of the schema, the statements on them, and a transaction: the SQL texts in
-- infrastructure/sqlite/migrations/v1.ts and persistence.ts. A table is a function of its unique key.
-- Any statement may fail besides: by its constraints, or as the answers say.
use ai_block.Prelude.{
  ℕ, ◌+◌, Bool, true, false, Option, none, some, ◌==◌, ltb, not, ◌||◌, ◌&&◌, if◌then◌else◌, is_none,
}
use ai_block.Project.Values.{
  BrickKind, BrickStatus, ProjectRecord, DefinitionBrickSummary, DefinitionBrickRevision,
  ProjectError, same_kind, is_archived,
}

-- A row of `definition_brick_revisions`
pub record RevisionRow : Type 0 where
  pub brick_uid : ℕ
  pub revision : DefinitionBrickRevision

pub record Tables : Type 0 where
  pub projects : ℕ → Option ProjectRecord
  pub aggregates : ℕ → ℕ → Option DefinitionBrickSummary
  pub revisions : ℕ → ℕ → ℕ → Option RevisionRow

abbrev pub no_rows : Tables
no_rows = record { projects = λ p. none; aggregates = λ p b. none; revisions = λ p b n. none }

-- Within a transaction: the tables as it sees them, and how many statements it has executed.
pub record Session : Type 0 where
  pub tables : Tables
  pub executed : ℕ

-- A value, the throw of a `ProjectOperationAbort`, or any other throw.
pub data Outcome (A : Type 0) : Type 0 where
  done : A → Outcome A
  aborted : ProjectError → Outcome A
  failed : Outcome A

abbrev pub Work : Type 0 → Type 0
Work A = Session → Session × Outcome A

abbrev pub pure : {A : Type 0} → A → Work A
pure a s = (s, Outcome.done a)

-- `abortProjectOperation`
abbrev pub abort : {A : Type 0} → ProjectError → Work A
abort error s = (s, Outcome.aborted error)

abbrev pub crash : {A : Type 0} → Work A
crash s = (s, Outcome.failed)

abbrev pub follow : {A B : Type 0} → Session × Outcome A → (A → Work B) → Session × Outcome B
follow (s, Outcome.done a) f = f a s
follow (s, Outcome.aborted error) f = (s, Outcome.aborted error)
follow (s, Outcome.failed) f = (s, Outcome.failed)

unfoldable pub bind : {A B : Type 0} → Work A → (A → Work B) → Work B
bind m f s = follow (m s) f

-- What can go wrong around one transaction.
pub record Faults : Type 0 where
  pub begin_fails : Bool
  pub commit_fails : Bool
  pub rollback_fails : Bool
  pub statement_fails : ℕ → Bool

abbrev pub set_project : Tables → ProjectRecord → Tables
set_project t row = record t {
  projects = λ p. if row.project_id == p then some row else t.projects p;
}

abbrev pub set_aggregate : Tables → ℕ → ℕ → DefinitionBrickSummary → Tables
set_aggregate t p b row = record t {
  aggregates = λ q c. if p == q && b == c then some row else t.aggregates q c;
}

abbrev pub set_revision : Tables → RevisionRow → Tables
set_revision t row = record t {
  revisions = λ p b n.
      if row.revision.project_id == p && row.revision.brick_id == b && row.revision.revision == n
      then some row
      else t.revisions p b n;
}

-- A row for the revision refers to an aggregate that is there: the foreign key.
abbrev pub has_aggregate : Option DefinitionBrickSummary → RevisionRow → Bool
has_aggregate none row = false
has_aggregate (some aggregate) row =
    aggregate.brick_uid == row.brick_uid && same_kind aggregate.kind row.revision.kind

module _ (faults : Faults) where
  -- One statement: it fails, or reads and writes the tables.
  unfoldable pub execute : {A : Type 0} → (Tables → Tables × Outcome A) → Work A
  execute statement s =
      if faults.statement_fails s.executed
      then (record s { executed = s.executed + 1 }, Outcome.failed)
      else let (tables, outcome) = statement s.tables in
        (record { tables = tables; executed = s.executed + 1 }, outcome)

  unfoldable pub select_project : ℕ → Work (Option ProjectRecord)
  select_project project_id = execute λ t. (t, Outcome.done (t.projects project_id))

  unfoldable pub insert_project : ProjectRecord → Work (Unit {0})
  insert_project row = execute λ t.
      if is_none (t.projects row.project_id)
      then (set_project t row, Outcome.done tt)
      else (t, Outcome.failed)

  unfoldable pub select_summary : ℕ → ℕ → Work (Option DefinitionBrickSummary)
  select_summary project_id brick_id =
      execute λ t. (t, Outcome.done (t.aggregates project_id brick_id))

  unfoldable pub insert_aggregate : DefinitionBrickSummary → Work (Unit {0})
  insert_aggregate row = execute λ t.
      if is_none (t.projects row.project_id)
        || not (is_none (t.aggregates row.project_id row.brick_id))
        || ltb row.current_revision 1
      then (t, Outcome.failed)
      else (set_aggregate t row.project_id row.brick_id row, Outcome.done tt)

  unfoldable pub insert_revision : RevisionRow → Work (Unit {0})
  insert_revision row = execute λ t.
      if not (has_aggregate (t.aggregates row.revision.project_id row.revision.brick_id) row)
        || not (
            is_none
              (t.revisions row.revision.project_id row.revision.brick_id row.revision.revision))
        || ltb row.revision.revision 1
      then (t, Outcome.failed)
      else (set_revision t row, Outcome.done tt)

  unfoldable pub select_revision : ℕ → ℕ → ℕ → Work (Option RevisionRow)
  select_revision project_id brick_id revision =
      execute λ t. (t, Outcome.done (t.revisions project_id brick_id revision))

  -- `UPDATE … SET current_revision`: whether it changed exactly one row
  unfoldable pub advance_aggregate : ℕ → ℕ → BrickKind → ℕ → ℕ → Work Bool
  advance_aggregate project_id brick_id kind expected_revision next_revision = execute λ t.
      elim (t.aggregates project_id brick_id) [
        | none ↦ (t, Outcome.done false)
        | some row ↦
            if same_kind row.kind kind
              && not (is_archived row.status)
              && row.current_revision == expected_revision
            then (
              set_aggregate t project_id brick_id (record row { current_revision = next_revision }),
              Outcome.done true,
            )
            else (t, Outcome.done false)
      ]

  -- `UPDATE … SET status = 'archived'`: whether it changed exactly one row
  unfoldable pub archive_aggregate : ℕ → ℕ → ℕ → Work Bool
  archive_aggregate project_id brick_id expected_revision = execute λ t.
      elim (t.aggregates project_id brick_id) [
        | none ↦ (t, Outcome.done false)
        | some row ↦
            if row.current_revision == expected_revision
            then (
              set_aggregate t project_id brick_id (record row { status = BrickStatus.archived }),
              Outcome.done true,
            )
            else (t, Outcome.done false)
      ]

-- The database connection. `pending` is the state of a transaction that is not over.
pub record Database : Type 0 where
  pub committed : Tables
  pub pending : Option Tables
  pub closed : Bool

abbrev pub new_database : Database
new_database = record { committed = no_rows; pending = none; closed = false }

-- `ROLLBACK`, whose failure is ignored
abbrev pub rollback : Faults → Database → Database
rollback faults d = if faults.rollback_fails then d else record d { pending = none }

abbrev pub finish : {A : Type 0} → Faults → Database → Session × Outcome A → Database × Outcome A
finish faults d (s, Outcome.done a) =
    if faults.commit_fails
    then (rollback faults (record d { pending = some s.tables }), Outcome.failed)
    else (record d { committed = s.tables; pending = none }, Outcome.done a)
finish faults d (s, Outcome.aborted error) =
    (rollback faults (record d { pending = some s.tables }), Outcome.aborted error)
finish faults d (s, Outcome.failed) =
    (rollback faults (record d { pending = some s.tables }), Outcome.failed)

-- `SqliteProjectUnitOfWork.run`; `BEGIN` also fails within a transaction.
unfoldable pub run : {A : Type 0} → Faults → Database → Work A → Database × Outcome A
run faults d work =
    if d.closed
    then (d, Outcome.failed)
    else if faults.begin_fails || not (is_none d.pending)
    then (rollback faults d, Outcome.failed)
    else finish faults d (work (record { tables = d.committed; executed = 0 }))

-- `close`
abbrev pub close : Database → Database
close d = record d { closed = true }
