-- ===== src/Actor/Provenance.antt =====
-- What a stored revision recorded of its bricks is found again at each of its references:
-- `persistedProvenanceFromRevision` of application.ts in apps/runtime-server/src/modules/actor.
use ai_block.Prelude.{
  ℕ, zero, suc, ◌≤◌, ◌+◌, ◌<◌, Text, codes, decimal, digits, same_text, same_text_self,
  same_text_eq, true, false, none, some, List, [], ◌∷◌, ◌++◌, map, ◌==◌, ltb, if◌then◌else◌, ◌≡◌,
  ◌≢◌, refl, sym, ap, subst, ◌∙◌, arith, Bool-cases, inl, inr,
}
use Prim.Native.Nat.{◌*◌, ◌-◌, ◌/◌, ◌%◌}
use mathlib.Core.List.{append_assoc}
use ai_block.Project.Values.{BrickKind}
use ai_block.Actor.Slots.{
  RefSlot, RefDescriptor, ResolvedActorTemplateBrick, ResolvedActorTemplateCandidate, prompt_path,
  prompt_descriptors,
}
use ai_block.Actor.Validation.{BodyCodec, ValidationPorts, Provenance}
use ai_block.Actor.Resolved.{IsPersistedAs, IsSound}
use ai_block.Actor.Sound.{Matches}
use ai_block.Actor.Validated.{IsValidated}
use ai_block.Actor.Revisions.{
  ResolvedEntry, ActorTemplateRevisionView, authored_spec_from_revision, provenance_entry, add,
  add_prompts, persisted_provenance_from_revision,
}

-- The number that the digits before a slash spell, after `acc`
read_number : ℕ → Text → ℕ
read_number acc [] = acc
read_number acc (c ∷ s) =
    let rest = read_number (acc * 10 + (c - 48)) s in if c == 47 then acc else rest

read_number-digit :
    (acc d : ℕ) (s : Text)
    → d < 10
    → read_number acc ((b'0' + d) ∷ s) ≡ read_number (acc * 10 + d) s
unfolding read_number
read_number-digit acc d s lt =
    let plain : (b'0' + d == 47) ≡ false = ground (arith, lt) in
    let same : b'0' + d - 48 ≡ d = omega arith in
    rw plain (ap (λ x. read_number (acc * 10 + x) s) same)

digits-one : (fuel n : ℕ) → ltb n 10 ≡ true → digits (suc fuel) n ≡ (b'0' + n) ∷ []
unfolding digits
digits-one fuel n e = rw e refl

digits-more :
    (fuel n : ℕ)
    → ltb n 10 ≡ false
    → digits (suc fuel) n ≡ digits fuel (n / 10) ++ (b'0' + n % 10) ∷ []
unfolding digits
digits-more fuel n e = rw e refl

read_number-digits :
    (fuel n : ℕ) (s : Text) → n < fuel → read_number 0 (digits fuel n ++ s) ≡ read_number n s
read_number-digits zero n s lt = absurd (omega (arith, lt))
read_number-digits (suc fuel) n s lt = elim (Bool-cases (ltb n 10)) [
  | inl e ↦
      let small : n < 10 = ground (arith, e) in
      rw (digits-one fuel n e)
        (read_number-digit 0 n s small ∙ ap (λ x. read_number x s) (omega arith))
  | inr e ↦
      let big : 10 ≤ n = ground (arith, e) in
      let less : n / 10 < fuel = omega (arith, big, lt) in
      let last : n % 10 < 10 = omega arith in
      let whole : n / 10 * 10 + n % 10 ≡ n = omega arith in
      rw (digits-more fuel n e) (
        rw (append_assoc (digits fuel (n / 10))) (
          read_number-digits fuel (n / 10) ((b'0' + n % 10) ∷ s) less
          ∙ read_number-digit (n / 10) (n % 10) s last
          ∙ ap (λ x. read_number x s) whole))
]

-- The index of a prompt is read back from its path.
read_number-decimal : (n : ℕ) (s : Text) → read_number 0 (decimal n ++ b'/' ∷ s) ≡ n
unfolding read_number
read_number-decimal n s = read_number-digits (suc n) n (b'/' ∷ s) (omega arith) ∙ refl

abbrev system_section : Text
system_section = codes "/system_prompt"

abbrev initial_section : Text
initial_section = codes "/initial_prompt"

append-cancel : (p : Text) {s t : Text} → p ++ s ≡ p ++ t → s ≡ t
append-cancel [] e = e
append-cancel (c ∷ p) e = append-cancel p (ap tail e)
  where
    tail : Text → Text
    tail [] = []
    tail (x ∷ xs) = xs

prompt_path-parts :
    (section : Text) (i : ℕ)
    → prompt_path section i ≡ section ++ (codes "/bricks/" ++ (decimal i ++ codes "/ref"))
prompt_path-parts section i =
    append_assoc (section ++ codes "/bricks/") (decimal i) (codes "/ref")
    ∙ append_assoc section (codes "/bricks/") (decimal i ++ codes "/ref")

-- The paths of the prompts of one list differ.
prompt_path-index :
    (section : Text) (i j : ℕ) → prompt_path section i ≡ prompt_path section j → i ≡ j
prompt_path-index section i j e =
    sym (read_number-decimal i (codes "ref"))
    ∙ ap (read_number 0) (
        append-cancel (codes "/bricks/") (
          append-cancel section
            (sym (prompt_path-parts section i) ∙ e ∙ prompt_path-parts section j)))
    ∙ read_number-decimal j (codes "ref")

same_text-other :
    (section : Text) (i j : ℕ)
    → i ≢ j
    → same_text (prompt_path section i) (prompt_path section j) ≡ false
same_text-other section i j ne =
    elim (Bool-cases (same_text (prompt_path section i) (prompt_path section j))) [
      | inl e ↦ absurd (ne (prompt_path-index section i j (same_text_eq _ _ e)))
      | inr e ↦ e
    ]

module _ (view : ActorTemplateRevisionView) where
  -- A list of references adds nothing at a path that none of its prompts has.
  add_prompts-elsewhere :
      (section : Text) (kind : BrickKind) (k : ℕ) (entries : List ResolvedEntry) (base : Provenance)
      (path : Text)
      → ((i : ℕ) → k ≤ i → same_text (prompt_path section i) path ≡ false)
      → add_prompts view section kind k entries base path ≡ base path
  unfolding add_prompts
  add_prompts-elsewhere section kind k [] base path other = refl
  add_prompts-elsewhere section kind k (entry ∷ entries) base path other =
      add_prompts-elsewhere section kind (suc k) entries
        (add (prompt_path section k) (provenance_entry view entry kind) base) path
        (λ i le. other i (omega (arith, le)))
      ∙ rw (other k (omega arith)) refl

  -- At the path of each entry, from index `k` on, stands what was recorded of it.
  abbrev FoundAt : Provenance → Text → BrickKind → ℕ → List ResolvedEntry → Type 0
  FoundAt provenance section kind k [] = Unit
  FoundAt provenance section kind k (entry ∷ entries) =
      (provenance (prompt_path section k) ≡ some (provenance_entry view entry kind))
      × FoundAt provenance section kind (suc k) entries

  FoundAt-agree :
      (P Q : Provenance) (section : Text) (kind : BrickKind) (k : ℕ) (entries : List ResolvedEntry)
      → ((i : ℕ) → P (prompt_path section i) ≡ Q (prompt_path section i))
      → FoundAt Q section kind k entries
      → FoundAt P section kind k entries
  FoundAt-agree P Q section kind k [] same found = tt
  FoundAt-agree P Q section kind k (entry ∷ entries) same found =
      (same k ∙ found.0, FoundAt-agree P Q section kind (suc k) entries same found.1)

  add_prompts-FoundAt :
      (section : Text) (kind : BrickKind) (k : ℕ) (entries : List ResolvedEntry) (base : Provenance)
      → FoundAt (add_prompts view section kind k entries base) section kind k entries
  unfolding add_prompts
  add_prompts-FoundAt section kind k [] base = tt
  add_prompts-FoundAt section kind k (entry ∷ entries) base =
      let here = add (prompt_path section k) (provenance_entry view entry kind) base in
      (
        add_prompts-elsewhere section kind (suc k) entries here (prompt_path section k)
              (λ i le. same_text-other section i k (λ e. absurd (omega (arith, le, e))))
            ∙ rw (same_text_self (prompt_path section k)) refl,
        add_prompts-FoundAt section kind (suc k) entries here,
      )

  initial_elsewhere :
      (i j : ℕ) → same_text (prompt_path initial_section i) (prompt_path system_section j) ≡ false
  unfolding same_text
  initial_elsewhere i j = refl

  abbrev system_part : Provenance
  system_part =
      add_prompts view system_section BrickKind.sys_prompt 0 view.spec.system_prompt (λ path. none)

  abbrev initial_part : Provenance
  initial_part =
      add_prompts view initial_section BrickKind.prompt 0 view.spec.initial_prompt system_part

  system-FoundAt :
      FoundAt
        (persisted_provenance_from_revision view)
        system_section
        BrickKind.sys_prompt
        0
        view.spec.system_prompt
  unfolding persisted_provenance_from_revision same_text
  system-FoundAt =
      FoundAt-agree (persisted_provenance_from_revision view) system_part system_section
        BrickKind.sys_prompt 0 view.spec.system_prompt
        (λ j.
          add_prompts-elsewhere initial_section BrickKind.prompt 0 view.spec.initial_prompt
            system_part (prompt_path system_section j) (λ i le. initial_elsewhere i j))
        (add_prompts-FoundAt system_section BrickKind.sys_prompt 0 view.spec.system_prompt
          (λ path. none))

  initial-FoundAt :
      FoundAt
        (persisted_provenance_from_revision view)
        initial_section
        BrickKind.prompt
        0
        view.spec.initial_prompt
  unfolding persisted_provenance_from_revision same_text
  initial-FoundAt =
      FoundAt-agree (persisted_provenance_from_revision view) initial_part initial_section
        BrickKind.prompt 0 view.spec.initial_prompt (λ j. refl)
        (add_prompts-FoundAt initial_section BrickKind.prompt 0 view.spec.initial_prompt
          system_part)

-- An entry of a revision recorded the brick: its reference, and the uid and the digest.
abbrev pub IsRecordOf : ResolvedEntry → ResolvedActorTemplateBrick → Type 0
IsRecordOf entry brick =
    (entry.ref ≡ brick.authored)
    × (entry.uid ≡ brick.revision.revision_uid)
    × (entry.digest ≡ brick.revision.digest)

abbrev pub AreRecordsOf : List ResolvedEntry → List ResolvedActorTemplateBrick → Type 0
AreRecordsOf [] [] = Unit
AreRecordsOf (entry ∷ entries) (brick ∷ bricks) =
    IsRecordOf entry brick × AreRecordsOf entries bricks
AreRecordsOf _ _ = ⊥

-- The candidate has the bricks that the revision recorded, slot by slot and in order.
pub record IsRecorded (view : ActorTemplateRevisionView) (c : ResolvedActorTemplateCandidate)
    : Type 0 where
  pub system_prompts : AreRecordsOf view.spec.system_prompt c.system_prompts
  pub initial_prompts : AreRecordsOf view.spec.initial_prompt c.initial_prompts
  pub backend : IsRecordOf view.spec.backend c.backend
  pub toolset : IsRecordOf view.spec.toolset c.toolset
  pub runtime_config : IsRecordOf view.spec.runtime_config c.runtime_config

module _ (codec : BodyCodec) (ports : ValidationPorts) (project_id : ℕ)
    (view : ActorTemplateRevisionView) where
  IsSound-IsRecordOf :
      (provenance : Provenance) (d : RefDescriptor) (entry : ResolvedEntry)
      (brick : ResolvedActorTemplateBrick) (kind : BrickKind)
      → entry.ref ≡ d.ref
      → provenance d.path ≡ some (provenance_entry view entry kind)
      → IsSound codec provenance ports project_id d brick
      → IsRecordOf entry brick
  IsSound-IsRecordOf provenance d entry brick kind same found sound =
      let (p, i, n, k, uid, digest) =
        subst (IsPersistedAs brick.revision) found sound.intact.agreed in
      (same ∙ sym sound.authored, sym uid, sym digest)

  Matches-AreRecordsOf :
      (provenance : Provenance) (slot : RefSlot) (section : Text) (kind : BrickKind) (k : ℕ)
      (entries : List ResolvedEntry) (bricks : List ResolvedActorTemplateBrick)
      → FoundAt view provenance section kind k entries
      → Matches codec ports provenance project_id
          (prompt_descriptors slot section kind k (map (λ entry. entry.ref) entries))
          bricks
      → AreRecordsOf entries bricks
  unfolding prompt_descriptors
  Matches-AreRecordsOf provenance slot section kind k [] [] found m = tt
  Matches-AreRecordsOf provenance slot section kind k [] (brick ∷ bricks) found m = absurd m
  Matches-AreRecordsOf provenance slot section kind k (entry ∷ entries) [] found m = absurd m
  Matches-AreRecordsOf provenance slot section kind k (entry ∷ entries) (brick ∷ bricks) found m = (
    IsSound-IsRecordOf provenance _ entry brick kind refl found.0 m.0,
    Matches-AreRecordsOf provenance slot section kind (suc k) entries bricks found.1 m.1,
  )

  -- A candidate that was validated against what a revision recorded has just the bricks that it
  -- recorded.
  pub validated-IsRecorded :
      (c : ResolvedActorTemplateCandidate)
      → IsValidated codec ports
          (persisted_provenance_from_revision view)
          project_id
          (authored_spec_from_revision view)
          c
      → IsRecorded view c
  unfolding persisted_provenance_from_revision authored_spec_from_revision same_text
  validated-IsRecorded c v =
      let provenance = persisted_provenance_from_revision view in
      record {
        system_prompts =
            Matches-AreRecordsOf provenance _ system_section BrickKind.sys_prompt 0
              view.spec.system_prompt c.system_prompts (system-FoundAt view) v.system_prompts;
        initial_prompts =
            Matches-AreRecordsOf provenance _ initial_section BrickKind.prompt 0
              view.spec.initial_prompt c.initial_prompts (initial-FoundAt view) v.initial_prompts;
        backend =
            IsSound-IsRecordOf provenance _ view.spec.backend c.backend BrickKind.backend refl refl
              v.backend;
        toolset =
            IsSound-IsRecordOf provenance _ view.spec.toolset c.toolset BrickKind.toolset refl refl
              v.toolset;
        runtime_config =
            IsSound-IsRecordOf provenance _ view.spec.runtime_config c.runtime_config
              BrickKind.runtime_config refl refl v.runtime_config;
      }
