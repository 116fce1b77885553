-- ===== src/Actor/Resolved.antt =====
-- What the loop of `resolveCandidate` enters: validation.ts in apps/runtime-server/src/modules/actor.
use ai_block.Prelude.{
  ℕ, String, Bool, true, false, Option, none, some, List, [], ◌∷◌, ◌++◌, Attempt, returns,
  >>=-returns, ◌≡◌, ◌≢◌, refl, sym, ap, subst, ◌∙◌, arith, ◌==◌, ◌||◌, not, Bool-cases, inl, inr,
  ◌⊎◌,
}
use ai_block.Project.Values.{BrickKind, DefinitionBrickRevision, same_kind}
use ai_block.Actor.Values.{ExactBrickRef, BindingResult, bind_definition_brick_ref}
use ai_block.Actor.Slots.{
  RefDescriptor, PersistedDefinitionBrickProvenance, ResolvedActorTemplateBrick, BySlot, push_entry,
}
use ai_block.Actor.Validation.{
  ValidationPorts, BodyCodec, Provenance, Resolution, require, agrees, check_revision, judge,
  judge_bound, resolve_all, Progress, advance,
}
use text.Mathlib.Text.{◌==◌ as str_eq}
use text.Mathlib.TextEquality.{eq_iff}

pub same_kind-eq : (a b : BrickKind) → same_kind a b ≡ true → a ≡ b
same_kind-eq BrickKind.sys_prompt BrickKind.sys_prompt h = refl
same_kind-eq BrickKind.prompt BrickKind.prompt h = refl
same_kind-eq BrickKind.backend BrickKind.backend h = refl
same_kind-eq BrickKind.toolset BrickKind.toolset h = refl
same_kind-eq BrickKind.runtime_config BrickKind.runtime_config h = refl
same_kind-eq _ _ h = absurd (ground arith)

-- The revision is one that the reference names, in the project.
abbrev pub IsNamed : ℕ → ExactBrickRef → DefinitionBrickRevision → Type 0
IsNamed project_id ref found =
    (found.project_id ≡ project_id) × (found.brick_id ≡ ref.id) × (found.revision ≡ ref.revision)

pub bind-cases :
    (project_id : ℕ) (ref : ExactBrickRef) (found : DefinitionBrickRevision)
    → (bind_definition_brick_ref project_id ref (some found) ≡ BindingResult.unresolved)
      ⊎ ((bind_definition_brick_ref project_id ref (some found)
            ≡ BindingResult.resolved ref found.revision_uid found.digest)
          × IsNamed project_id ref found)
unfolding bind_definition_brick_ref
bind-cases project_id ref found =
    elim (Bool-cases (
      not (found.project_id == project_id)
      || not (found.brick_id == ref.id)
      || not (found.revision == ref.revision))) [
        | inl e ↦ inl (rw e)
        | inr e ↦ inr (rw e, ground arith)
      ]

require-returns :
    (holds : Bool) (message : String) {u : Unit {0}}
    → require holds message ≡ returns u
    → holds ≡ true
require-returns true message h = refl
require-returns false message h = absurd (ground arith)

returns-eq : {A : Type 0} {a b : A} → Attempt.returns a ≡ returns b → a ≡ b
returns-eq h = cc h

-- The revision is the one that was persisted, where one was.
abbrev pub IsPersistedAs :
    DefinitionBrickRevision → Option PersistedDefinitionBrickProvenance → Type 0
IsPersistedAs found none = Unit {0}
IsPersistedAs found (some expected) =
    (found.project_id ≡ expected.project_id)
    × (found.brick_id ≡ expected.brick_id)
    × (found.revision ≡ expected.revision)
    × (found.kind ≡ expected.kind)
    × (found.revision_uid ≡ expected.revision_uid)
    × (found.digest ≡ expected.digest)

agrees-IsPersistedAs :
    (found : DefinitionBrickRevision) (o : Option PersistedDefinitionBrickProvenance)
    → agrees found o ≡ true
    → IsPersistedAs found o
unfolding agrees
agrees-IsPersistedAs found none h = tt
agrees-IsPersistedAs found (some expected) h =
    let kind : same_kind found.kind expected.kind ≡ true = ground (arith, h) in
    let digest : str_eq found.digest expected.digest ≡ true = ground (arith, h) in
    (
      ground (arith, h),
      ground (arith, h),
      ground (arith, h),
      same_kind-eq found.kind expected.kind kind,
      ground (arith, h),
      (eq_iff found.digest expected.digest).0 digest,
    )

module _ (codec : BodyCodec) (provenance : Provenance) where
  -- What is checked of a revision
  pub record IsIntact (d : RefDescriptor) (found : DefinitionBrickRevision) : Type 0 where
    pub well_formed : codec.revision_ok found ≡ true
    pub digest : codec.definition_brick_digest found.kind found.body ≡ returns found.digest
    pub agreed : IsPersistedAs found (provenance d.path)

  module _ (ports : ValidationPorts) (project_id : ℕ) where
    -- The entry is the revision that the resolver gave for the reference, in the project and of the
    -- kind that the slot wants; its digest is that of its body; and it is the revision that was
    -- persisted, where one was.
    pub record IsSound (d : RefDescriptor) (e : ResolvedActorTemplateBrick) : Type 0 where
      pub authored : e.authored ≡ d.ref
      pub found : ports.resolve_exact project_id d.ref ≡ returns (some e.revision)
      pub named : IsNamed project_id d.ref e.revision
      pub kind : e.revision.kind ≡ d.expected_kind
      pub intact : IsIntact d e.revision

entered-eq :
    {a b : ResolvedActorTemplateBrick} → Resolution.entered a ≡ Resolution.entered b → a ≡ b
entered-eq h = cc h

append_one≢nil : {A : Type 0} (l : List A) (x : A) → l ++ x ∷ [] ≢ []
append_one≢nil [] x h = absurd (ground arith)
append_one≢nil (y ∷ l) x h = absurd (ground arith)

module _ (codec : BodyCodec) (ports : ValidationPorts) (provenance : Provenance)
    (project_id : ℕ) where
  abbrev Made : RefDescriptor → DefinitionBrickRevision → ResolvedActorTemplateBrick → Type 0
  Made d found e =
      (some found ≡ some e.revision)
      × (e.authored ≡ d.ref)
      × IsNamed project_id d.ref e.revision
      × (e.revision.kind ≡ d.expected_kind)
      × IsIntact codec provenance d e.revision

  check_revision-returns :
      (d : RefDescriptor) (found : DefinitionBrickRevision) (r : Resolution)
      → check_revision codec ports provenance d found ≡ returns r
      → (r ≡ Resolution.entered (record { authored = d.ref; revision = found }))
        × IsIntact codec provenance d found
  unfolding check_revision
  check_revision-returns d found r h =
      let (u, p, h1) = >>=-returns (require (codec.revision_ok found) _) _ h in
      let (digest, q, h2) =
        >>=-returns (codec.definition_brick_digest found.kind found.body) _ h1 in
      let (v, p3, h3) = >>=-returns (require (str_eq digest found.digest) _) _ h2 in
      let (w, p4, h4) = >>=-returns (require (agrees found (provenance d.path)) _) _ h3 in
      let e : digest ≡ found.digest = (eq_iff digest found.digest).0 (require-returns _ _ p3) in
      (
        sym (returns-eq h4),
        record {
          well_formed = require-returns _ _ p;
          digest = q ∙ ap returns e;
          agreed = agrees-IsPersistedAs found (provenance d.path) (require-returns _ _ p4);
        },
      )

  judge-Intact :
      (d : RefDescriptor) (o : Option DefinitionBrickRevision) (e : ResolvedActorTemplateBrick)
      → judge codec ports provenance project_id d o ≡ returns (Resolution.entered e)
      → (o ≡ some e.revision)
        × (e.authored ≡ d.ref)
        × IsNamed project_id d.ref e.revision
        × (e.revision.kind ≡ d.expected_kind)
        × IsIntact codec provenance d e.revision
  unfolding judge judge_bound
  judge-Intact d none e h = absurd (ground arith)
  judge-Intact d (some found) e h = elim (bind-cases project_id d.ref found) [
    | inl b ↦ absurd (ground (arith, rw b at h))
    | inr (b, named) ↦ elim (Bool-cases (same_kind found.kind d.expected_kind)) [
      | inl k ↦
          let (made, intact) = check_revision-returns d found _ (rw (b, k) at h) in
          subst (Made d found) (sym (entered-eq made))
            (refl, refl, named, same_kind-eq found.kind d.expected_kind k, intact)
      | inr k ↦ absurd (ground (arith, rw (b, k) at h))
    ]
  ]

  -- The entries that the loop over some references adds
  abbrev pub Resolves :
      List RefDescriptor
      → BySlot ResolvedActorTemplateBrick
      → BySlot ResolvedActorTemplateBrick
      → Type 0
  Resolves [] before after = after ≡ before
  Resolves (d ∷ ds) before after =
      (e : ResolvedActorTemplateBrick) × IsSound codec provenance ports project_id d e
      × Resolves ds (push_entry before d.slot e) after

  -- A round after which nothing is reported entered a sound revision.
  round-IsSound :
      (d : RefDescriptor) (o : Option DefinitionBrickRevision) (before : Progress) (r : Resolution)
      → ports.resolve_exact project_id d.ref ≡ returns o
      → judge codec ports provenance project_id d o ≡ returns r
      → (advance d before r).0 ≡ []
      → (before.0 ≡ [])
        × (e : ResolvedActorTemplateBrick) × IsSound codec provenance ports project_id d e
        × ((advance d before r).1 ≡ push_entry before.1 d.slot e)
  unfolding advance
  round-IsSound d o (issues, before) (Resolution.reported issue) p q z =
      absurd (append_one≢nil issues issue z)
  round-IsSound d o (issues, before) (Resolution.entered e) p q z =
      let (o_eq, authored, named, kind, intact) = judge-Intact d o e q in
      (
        z,
        e,
        record {
          authored = authored;
          found = p ∙ ap returns o_eq;
          named = named;
          kind = kind;
          intact = intact;
        },
        refl,
      )

  -- The loop that reported nothing has entered a sound revision for each reference.
  pub resolve_all-Resolves :
      (ds : List RefDescriptor) (before : Progress) {out : Progress}
      → resolve_all codec ports provenance project_id ds before ≡ returns out
      → out.0 ≡ []
      → (before.0 ≡ []) × Resolves ds before.1 out.1
  unfolding resolve_all
  resolve_all-Resolves [] before h z =
      let e = returns-eq h in (ap (λ p. p.0) e ∙ z, sym (ap (λ p. p.1) e))
  resolve_all-Resolves (d ∷ ds) before {out} h z =
      let (o, p, h1) = >>=-returns (ports.resolve_exact project_id d.ref) _ h in
      let (r, q, h2) = >>=-returns (judge codec ports provenance project_id d o) _ h1 in
      let (none_later, more) = resolve_all-Resolves ds (advance d before r) h2 z in
      let (none_before, e, sound, entered) = round-IsSound d o before r p q none_later in
      (none_before, (e, sound, subst (λ b. Resolves ds b out.1) entered more))
