-- ===== src/Project/Exact.antt =====
-- What a successful exact read returns: `readExactDefinitionBrickRevision` and
-- `requireRevisionIntegrity` in application.ts, and `findRevision` in persistence.ts.
use ai_block.Prelude.{
  ℕ, String, ◌≡◌, refl, sym, ap, ◌∙◌, subst, true, Option, none, some, arith, inl, inr, Bool-cases,
  Attempt, returns, throws, leb,
}
use ai_block.Project.Values.{
  ProjectPorts, ProjectError, DefinitionBrickSummary, DefinitionBrickRevision, same_kind,
  decode_stored_revision,
}
use ai_block.Project.Sql.{Tables, RevisionRow, Faults, abort, select_revision}
use ai_block.Project.Repositories.{revision_of_row, find_revision}
use ai_block.Project.Application.{
  ExactCommand, BrickAndRevision, verify_digest, verify_body, exact_found,
  require_revision_integrity, reading_exact,
}
use ai_block.Project.Ensures.{
  Ensures, read-Ensures, pure-Ensures, or_abort-Ensures, execute-Ensures, weaken-Ensures,
}
use ai_block.Project.Revisions.{
  IsStored, select_summary-Ensures, find_project-Ensures, require_summary-Ensures,
}
use text.Mathlib.Text.{◌==◌ as str_eq}
use text.Mathlib.TextEquality.{eq_iff}

-- The revision is the one that is asked for, of the brick's kind, and has the digest of its body.
pub record IsIntact (ports : ProjectPorts) (brick : DefinitionBrickSummary) (n : ℕ)
    (r : DefinitionBrickRevision) : Type 0 where
  pub project : r.project_id ≡ brick.project_id
  pub brick_id : r.brick_id ≡ brick.brick_id
  pub kind : same_kind r.kind brick.kind ≡ true
  pub number : r.revision ≡ n
  pub current : leb r.revision brick.current_revision ≡ true
  pub well_formed : ports.revision_ok r ≡ true
  pub digest : ports.compute r.kind r.body ≡ returns r.digest

decoded_facts :
    (ports : ProjectPorts) (brick : DefinitionBrickSummary) (n : ℕ) (x : DefinitionBrickRevision)
    {r : DefinitionBrickRevision}
    → decode_stored_revision ports (some x) brick n ≡ some r
    → (x ≡ r)
      × (ports.revision_ok x ≡ true)
      × (x.project_id ≡ brick.project_id)
      × (x.brick_id ≡ brick.brick_id)
      × (same_kind x.kind brick.kind ≡ true)
      × (leb x.revision brick.current_revision ≡ true)
      × (x.revision ≡ n)
unfolding decode_stored_revision
decoded_facts ports brick n x h = (
  ground arith,
  ground arith,
  ground arith,
  ground arith,
  ground arith,
  ground arith,
  ground arith,
)

decoded_revision :
    (ports : ProjectPorts) (brick : DefinitionBrickSummary) (n : ℕ)
    (stored : Option DefinitionBrickRevision) {r : DefinitionBrickRevision}
    → decode_stored_revision ports stored brick n ≡ some r
    → ports.compute r.kind r.body ≡ returns r.digest
    → (stored ≡ some r) × IsIntact ports brick n r
unfolding decode_stored_revision
decoded_revision ports brick n none h d = absurd (ground arith)
decoded_revision ports brick n (some x) {r} h d =
    let (same, ok, project, id, kind, current, number) = decoded_facts ports brick n x h in
    (
      ap some same,
      record {
        project = subst (λ y. y.project_id ≡ brick.project_id) same project;
        brick_id = subst (λ y. y.brick_id ≡ brick.brick_id) same id;
        kind = subst (λ y. same_kind y.kind brick.kind ≡ true) same kind;
        number = subst (λ y. y.revision ≡ n) same number;
        current = subst (λ y. leb y.revision brick.current_revision ≡ true) same current;
        well_formed = subst (λ y. ports.revision_ok y ≡ true) same ok;
        digest = d;
      },
    )

find_revision-Ensures :
    (faults : Faults) (t : Tables) (p b n : ℕ)
    → Ensures t
        (find_revision faults p b n)
        (λ a u. (u ≡ t) × (a ≡ revision_of_row (t.revisions p b n) (t.aggregates p b)))
unfolding find_revision select_revision
find_revision-Ensures faults t p b n =
    read-Ensures (select_summary-Ensures faults t p b) λ aggregate e.
      read-Ensures {S = λ row. row ≡ t.revisions p b n} (execute-Ensures faults _ (refl, refl))
        λ row q. pure-Ensures (refl, cc (e, q))

abort-Ensures :
    {A : Type 0} (t : Tables) (code : ProjectError) {Q : A → Tables → Type 0}
    → Ensures t (abort code) Q
abort-Ensures t code = record { holds = λ k. tt }

verify_digest-Ensures :
    (t : Tables) (r : DefinitionBrickRevision) (x : Attempt String)
    → Ensures t (verify_digest r x) (λ a u. (u ≡ t) × ((a ≡ r) × (x ≡ returns r.digest)))
unfolding verify_digest
verify_digest-Ensures t r (throws e) = abort-Ensures t _
verify_digest-Ensures t r (returns digest) = elim (Bool-cases (str_eq digest r.digest)) [
  | inl e ↦ rw e (pure-Ensures (refl, (refl, ap returns ((eq_iff digest r.digest).0 e))))
  | inr e ↦ rw e (abort-Ensures t _)
]

verify_body-Ensures :
    (t : Tables) (r : DefinitionBrickRevision) (o : Option String) (x : Attempt String)
    → Ensures t (verify_body r o x) (λ a u. (u ≡ t) × ((a ≡ r) × (x ≡ returns r.digest)))
unfolding verify_body
verify_body-Ensures t r none x = abort-Ensures t _
verify_body-Ensures t r (some canonical) x = elim (Bool-cases (str_eq canonical r.body)) [
  | inl e ↦ rw e (verify_digest-Ensures t r x)
  | inr e ↦ rw e (abort-Ensures t _)
]

module _ (ports : ProjectPorts) (faults : Faults) (t : Tables) where
  integrity-Ensures :
      (brick : DefinitionBrickSummary) (n : ℕ) (stored : Option DefinitionBrickRevision)
      → Ensures t
          (require_revision_integrity ports faults stored brick n)
          (λ r u. (u ≡ t) × ((stored ≡ some r) × IsIntact ports brick n r))
  unfolding require_revision_integrity
  integrity-Ensures brick n stored =
      read-Ensures (or_abort-Ensures t _ (decode_stored_revision ports stored brick n)) λ r is_r.
        weaken-Ensures (verify_body-Ensures t r _ _) λ a u (same, (is_a, digest)). (
          same,
          decoded_revision ports brick n stored (is_r ∙ ap some (sym is_a))
              (subst (λ y. ports.compute y.kind y.body ≡ returns y.digest) (sym is_a) digest),
        )

  -- What is returned is stored: the brick, and a row of it with the revision.
  pub record IsExact (command : ExactCommand) (found : BrickAndRevision) : Type 0 where
    pub brick : IsStored t command.project_id command.id found.brick
    pub row : RevisionRow
    pub stored : t.revisions command.project_id command.id command.revision ≡ some row
    pub revision : row.revision ≡ found.revision
    pub intact : IsIntact ports found.brick command.revision found.revision

  row-revision :
      (row : Option RevisionRow) (aggregate : Option DefinitionBrickSummary)
      {r : DefinitionBrickRevision}
      → revision_of_row row aggregate ≡ some (some r)
      → (x : RevisionRow) × (row ≡ some x) × (x.revision ≡ r)
  row-revision none aggregate h = absurd (ground arith)
  row-revision (some x) aggregate h = (x, refl, ground arith)

  exact_found-Ensures :
      (command : ExactCommand) (brick : DefinitionBrickSummary)
      (found : Option (Option DefinitionBrickRevision))
      → IsStored t command.project_id command.id brick
      → found
        ≡ revision_of_row
            (t.revisions command.project_id command.id command.revision)
            (t.aggregates command.project_id command.id)
      → Ensures t
          (exact_found ports faults command brick found)
          (λ a u. (u ≡ t) × IsExact command a)
  unfolding exact_found
  exact_found-Ensures command brick none s e =
      elim (Bool-cases (leb command.revision brick.current_revision)) [
        | inl l ↦ rw l (abort-Ensures t _)
        | inr l ↦ rw l (abort-Ensures t _)
      ]
  exact_found-Ensures command brick (some stored) s e =
      read-Ensures (integrity-Ensures brick command.revision stored) λ r (is_r, intact).
        let (row, is_row, same) = row-revision _ _ (sym e ∙ ap some is_r) in
        pure-Ensures
          (refl, record { brick = s; row = row; stored = is_row; revision = same; intact = intact })

  -- A successful exact read changes nothing and returns what the tables hold under the names of the
  -- command: the brick, and its revision of that number, which is not above the current one, has the
  -- brick's kind, passes the check of a revision, and has the digest that is computed of its body.
  pub reading_exact_lem :
      (command : ExactCommand)
      → Ensures t (reading_exact ports faults command) (λ found u. (u ≡ t) × IsExact command found)
  unfolding reading_exact
  reading_exact_lem command =
      read-Ensures (find_project-Ensures ports faults t command.project_id) λ _ _.
        read-Ensures (require_summary-Ensures ports faults t command.project_id command.id)
          λ brick stored.
            read-Ensures
              (find_revision-Ensures faults t command.project_id command.id command.revision)
              λ found e. exact_found-Ensures command brick found stored e
