-- ===== src/Project/Revisions.antt =====
-- What a successful revision leaves in the tables: `reviseDefinitionBrick` in application.ts and
-- `appendRevision` in persistence.ts.
use ai_block.Prelude.{
  ℕ, ◌+◌, ◌≡◌, refl, ap, ◌∙◌, true, false, String, Option, none, some, arith, inl, inr, Bool-cases,
  Option-cases, not, ◌==◌, ◌&&◌,
}
use ai_block.Project.Values.{
  ProjectPorts, DefinitionBrickSummary, DefinitionBrickRevision, same_kind, is_archived,
  decode_stored_summary,
}
use ai_block.Project.Sql.{
  Tables, RevisionRow, Faults, set_aggregate, set_revision, select_project, select_summary,
  insert_revision, advance_aggregate,
}
use ai_block.Project.Repositories.{
  AppendWriteResult, summary_of_row, find_summary, append_advanced, append_found, append_revision,
}
use ai_block.Project.Application.{
  ReviseCommand, BrickAndRevision, appended_or_abort, check_current, new_revision, find_project,
  require_summary, revising_brick,
}
use ai_block.Project.Ensures.{
  Ensures, bind-Ensures, read-Ensures, pure-Ensures, call-Ensures, check-Ensures, or_abort-Ensures,
  execute-Ensures, weaken-Ensures, write-Ensures,
}

pub select_summary-Ensures :
    (faults : Faults) (t : Tables) (p b : ℕ)
    → Ensures t (select_summary faults p b) (λ a u. (u ≡ t) × (a ≡ t.aggregates p b))
unfolding select_summary
select_summary-Ensures faults t p b = execute-Ensures faults _ (refl, refl)

pub find_summary-Ensures :
    (faults : Faults) (t : Tables) (p b : ℕ)
    → Ensures t (find_summary faults p b) (λ a u. (u ≡ t) × (a ≡ summary_of_row (t.aggregates p b)))
unfolding find_summary
find_summary-Ensures faults t p b =
    read-Ensures (select_summary-Ensures faults t p b)
      λ a e. pure-Ensures (refl, ap summary_of_row e)

pub find_project-Ensures :
    (ports : ProjectPorts) (faults : Faults) (t : Tables) (p : ℕ)
    → Ensures t (find_project ports faults p) (λ a u. (u ≡ t) × Unit {0})
unfolding find_project select_project
find_project-Ensures ports faults t p =
    read-Ensures {S = λ a. a ≡ t.projects p} (execute-Ensures faults _ (refl, refl)) λ row e.
      read-Ensures (or_abort-Ensures t _ row)
        λ stored q. weaken-Ensures (or_abort-Ensures t _ _) λ a u w. (w.0, tt)

decoded_summary :
    (ports : ProjectPorts) (p b : ℕ) (row stored : Option DefinitionBrickSummary)
    (found : Option (Option DefinitionBrickSummary)) (x : DefinitionBrickSummary)
    → found ≡ summary_of_row row
    → found ≡ some stored
    → decode_stored_summary ports stored p b ≡ some x
    → (row ≡ some x) × (x.project_id ≡ p) × (x.brick_id ≡ b)
unfolding decode_stored_summary
decoded_summary ports p b row stored found x e f d = (ground arith, ground arith, ground arith)

-- The brick that a successful `requireSummary` returns is the stored one.
abbrev pub IsStored : Tables → ℕ → ℕ → DefinitionBrickSummary → Type 0
IsStored t p b x = (t.aggregates p b ≡ some x) × (x.project_id ≡ p) × (x.brick_id ≡ b)

pub require_summary-Ensures :
    (ports : ProjectPorts) (faults : Faults) (t : Tables) (p b : ℕ)
    → Ensures t (require_summary ports faults p b) (λ x u. (u ≡ t) × IsStored t p b x)
unfolding require_summary
require_summary-Ensures ports faults t p b =
    read-Ensures (find_summary-Ensures faults t p b) λ found e.
      read-Ensures (or_abort-Ensures t _ found) λ stored f.
        weaken-Ensures (or_abort-Ensures t _ _)
          λ x u w. (w.0, decoded_summary ports p b (t.aggregates p b) stored found x e f w.1)

-- A revision as `newRevision` builds it.
abbrev IsBuilt : DefinitionBrickSummary → ℕ → String × String → DefinitionBrickRevision → Type 0
IsBuilt brick n (body, digest) r =
    (r.project_id ≡ brick.project_id)
    × (r.brick_id ≡ brick.brick_id)
    × (r.kind ≡ brick.kind)
    × (r.revision ≡ n)
    × (r.body ≡ body)
    × (r.digest ≡ digest)

new_revision-Ensures :
    (ports : ProjectPorts) (t : Tables) (brick : DefinitionBrickSummary) (n : ℕ)
    (body : String × String) (at : ℕ)
    → Ensures t (new_revision ports brick n body at) (λ r u. (u ≡ t) × IsBuilt brick n body r)
unfolding new_revision
new_revision-Ensures ports t brick n (body, digest) at =
    read-Ensures (call-Ensures t _)
      λ uid e. pure-Ensures (refl, (refl, refl, refl, refl, refl, refl))

check_current-Ensures :
    (t : Tables) (command : ReviseCommand) (current : DefinitionBrickSummary)
    → Ensures t (check_current command current) (λ a u.
      (u ≡ t)
      × ((same_kind current.kind command.kind ≡ true)
          × (is_archived current.status ≡ false)
          × (current.current_revision ≡ command.base_revision)))
unfolding check_current
check_current-Ensures t command current = elim (Bool-cases (same_kind current.kind command.kind)) [
  | inr k ↦ rw k (record { holds = λ _. tt })
  | inl k ↦ rw k (elim (Bool-cases (is_archived current.status)) [
    | inl a ↦ rw a (record { holds = λ _. tt })
    | inr a ↦ rw a (elim (Bool-cases (current.current_revision == command.base_revision)) [
      | inr n ↦ rw n (record { holds = λ _. tt })
      | inl n ↦ rw n (record { holds = λ _. (refl, (refl, refl, ground arith)) })
    ])
  ])
]

-- The aggregate's row with the next revision, and the revision's row.
abbrev pub appended_tables : Tables → DefinitionBrickSummary → DefinitionBrickRevision → Tables
appended_tables t current r =
    set_revision
      (set_aggregate t r.project_id r.brick_id (record current { current_revision = r.revision }))
      (record { brick_uid = current.brick_uid; revision = r })

advance_aggregate-Ensures :
    (faults : Faults) (t : Tables) (r : DefinitionBrickRevision) (expected : ℕ)
    (current : DefinitionBrickSummary)
    → t.aggregates r.project_id r.brick_id ≡ some current
    → Ensures t
        (advance_aggregate faults r.project_id r.brick_id r.kind expected r.revision)
        (λ changed u.
          changed ≡ true
          → u
            ≡ set_aggregate t r.project_id r.brick_id
                (record current { current_revision = r.revision }))
unfolding advance_aggregate
advance_aggregate-Ensures faults t r expected current e = execute-Ensures faults _ (
    rw e
      (elim (Bool-cases (
        same_kind current.kind r.kind
        && not (is_archived current.status)
        && current.current_revision == expected)) [
          | inl c ↦ rw c (λ _. refl)
          | inr c ↦ rw c (λ q. cc)
        ]))

insert_revision-Ensures :
    (faults : Faults) (t : Tables) (row : RevisionRow)
    → Ensures t (insert_revision faults row) (λ a u. u ≡ set_revision t row)
unfolding insert_revision
insert_revision-Ensures faults t row = write-Ensures faults _ (λ x. set_revision x row) refl

same : {A : Type 0} {o : Option A} {x y : A} → o ≡ some x → o ≡ some y → x ≡ y
same e f = cc

-- What `appendRevision` that answers "appended" has found and done.
abbrev IsAppended : Tables → DefinitionBrickRevision → ℕ → AppendWriteResult → Tables → Type 0
IsAppended t r expected result u =
    result ≡ AppendWriteResult.appended
    → (current : DefinitionBrickSummary) → t.aggregates r.project_id r.brick_id ≡ some current
    → u ≡ appended_tables t current r

append_advanced-Ensures :
    (faults : Faults) (t : Tables) (r : DefinitionBrickRevision) (expected : ℕ)
    (stored : DefinitionBrickSummary)
    → t.aggregates r.project_id r.brick_id ≡ some stored
    → Ensures t (append_advanced faults r expected stored) (IsAppended t r expected)
unfolding append_advanced
append_advanced-Ensures faults t r expected stored e =
    bind-Ensures (advance_aggregate-Ensures faults t r expected stored e) λ changed u w.
      elim (Bool-cases changed) [
        | inr c ↦ rw c (record { holds = λ k q. cc })
        | inl c ↦ rw c (
            bind-Ensures (insert_revision-Ensures faults u _) λ a v p. pure-Ensures λ _ current e'.
              p
              ∙ ap (λ x. set_revision x (record { brick_uid = stored.brick_uid; revision = r }))
                  (w c)
              ∙ ap (λ x. appended_tables t x r) (same e e'))
      ]

row_is :
    {row : Option DefinitionBrickSummary} {stored : DefinitionBrickSummary}
    → some (some stored) ≡ summary_of_row row
    → row ≡ some stored
row_is {row} e = elim (Option-cases row) [ inl n ↦ ground arith | inr (x, n) ↦ ground arith ]

append_found-Ensures :
    (faults : Faults) (t : Tables) (r : DefinitionBrickRevision) (expected : ℕ)
    (found : Option (Option DefinitionBrickSummary))
    → found ≡ summary_of_row (t.aggregates r.project_id r.brick_id)
    → Ensures t (append_found faults r expected found) (IsAppended t r expected)
unfolding append_found
append_found-Ensures faults t r expected none e = record { holds = λ k q. cc }
append_found-Ensures faults t r expected (some none) e = record { holds = λ k q. cc }
append_found-Ensures faults t r expected (some (some stored)) e =
    elim (Bool-cases (same_kind stored.kind r.kind)) [
      | inr k ↦ rw k (record { holds = λ _ q. cc })
      | inl k ↦ rw k (elim (Bool-cases (is_archived stored.status)) [
        | inl a ↦ rw a (record { holds = λ _ q. cc })
        | inr a ↦ rw a (elim (Bool-cases (stored.current_revision == expected)) [
          | inr n ↦ rw n (record { holds = λ _ q. cc })
          | inl n ↦ rw n (elim (Bool-cases (r.revision == expected + 1)) [
            | inr m ↦ rw m (record { holds = λ _. tt })
            | inl m ↦ rw m (append_advanced-Ensures faults t r expected stored (row_is e))
          ])
        ])
      ])
    ]

append_revision-Ensures :
    (faults : Faults) (t : Tables) (r : DefinitionBrickRevision) (expected : ℕ)
    → Ensures t (append_revision faults r expected) (IsAppended t r expected)
unfolding append_revision
append_revision-Ensures faults t r expected =
    read-Ensures (find_summary-Ensures faults t r.project_id r.brick_id)
      λ found e. append_found-Ensures faults t r expected found e

appended-Ensures :
    (t : Tables) (result : AppendWriteResult)
    → Ensures t (appended_or_abort result) (λ a u. (u ≡ t) × (result ≡ AppendWriteResult.appended))
appended-Ensures t AppendWriteResult.appended = record { holds = λ k. (refl, refl) }
appended-Ensures t AppendWriteResult.not_found = record { holds = λ k. tt }
appended-Ensures t AppendWriteResult.archived = record { holds = λ k. tt }
appended-Ensures t AppendWriteResult.kind_mismatch = record { holds = λ k. tt }
appended-Ensures t AppendWriteResult.base_revision_conflict = record { holds = λ k. tt }

-- The command was for the current state of an active brick of its kind; the answer is that brick with
-- the next revision, and the tables have just the advanced brick and the new revision.
abbrev pub IsRevised : Tables → ReviseCommand → String × String → BrickAndRevision → Tables → Type 0
IsRevised t command body answer u =
    (current : DefinitionBrickSummary) × (t.aggregates command.project_id command.brick_id
      ≡ some current)
    × (is_archived current.status ≡ false)
    × (same_kind current.kind command.kind ≡ true)
    × (current.current_revision ≡ command.base_revision)
    × (answer.brick ≡ record current { current_revision = command.base_revision + 1 })
    × IsBuilt current (command.base_revision + 1) body answer.revision
    × (u ≡ appended_tables t current answer.revision)

-- A revision that succeeds was based on the brick's current revision, and the brick was active and of
-- the kind of the command; it answers the brick with the next revision number and the new revision
-- with that number, the brick's identities and the given body and digest; and it writes nothing but
-- that number in the brick's row and the row of the new revision.
pub revising_brick_lem :
    (ports : ProjectPorts) (faults : Faults) (t : Tables) (command : ReviseCommand)
    (body : String × String)
    → Ensures t (revising_brick ports faults command body) (IsRevised t command body)
unfolding revising_brick
revising_brick_lem ports faults t command body =
    read-Ensures (find_project-Ensures ports faults t command.project_id) λ _ _.
      read-Ensures (require_summary-Ensures ports faults t command.project_id command.brick_id)
        λ current stored. read-Ensures (check_current-Ensures t command current) λ _ fits.
          read-Ensures (call-Ensures t ports.now) λ at _.
            read-Ensures (new_revision-Ensures ports t current _ body at) λ r built.
              read-Ensures (check-Ensures t _ _) λ _ _.
                bind-Ensures (append_revision-Ensures faults t r command.base_revision)
                  λ result u appended. read-Ensures (appended-Ensures u result) λ _ q.
                    pure-Ensures (
                      current,
                      stored.0,
                      fits.1,
                      fits.0,
                      fits.2,
                      ap (λ n. record current { current_revision = n + 1 }) fits.2,
                      (
                        built.0,
                        built.1,
                        built.2,
                        built.3 ∙ ap (λ n. n + 1) fits.2,
                        built.4,
                        built.5,
                      ),
                      appended q current (
                          ap (λ x. t.aggregates x r.brick_id) (built.0 ∙ stored.1)
                          ∙ ap (λ x. t.aggregates command.project_id x) (built.1 ∙ stored.2)
                          ∙ stored.0),
                    )
