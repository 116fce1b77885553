-- ===== src/Actor/Sound.antt =====
-- What a valid report promises: `resolveCandidate` of validation.ts in
-- apps/runtime-server/src/modules/actor.
use ai_block.Prelude.{
  ℕ, suc, Text, true, false, List, [], ◌∷◌, ◌++◌, if◌then◌else◌, ◌≡◌, refl, sym, ap, subst, ◌∙◌,
  arith, Bool-cases, inl, inr,
}
use mathlib.Core.List.{append_assoc, append-nil}
use ai_block.Project.Values.{BrickKind}
use ai_block.Actor.Values.{ExactBrickRef, TemplateSpec}
use ai_block.Actor.Slots.{
  RefSlot, RefDescriptor, ResolvedActorTemplateBrick, BySlot, push_entry, same_slot, no_entries,
  prompt_descriptors, descriptors_for, system_prompt_descriptors, initial_prompt_descriptors,
  backend_descriptor, toolset_descriptor, runtime_config_descriptor,
}
use ai_block.Actor.Validation.{ValidationPorts, BodyCodec, Provenance}
use ai_block.Actor.Resolved.{IsSound, Resolves}

-- The references of one slot, in order
abbrev of_slot : RefSlot → List RefDescriptor → List RefDescriptor
of_slot s [] = []
of_slot s (d ∷ ds) = if same_slot d.slot s then d ∷ of_slot s ds else of_slot s ds

of_slot-append :
    (s : RefSlot) (ds es : List RefDescriptor) → of_slot s (ds ++ es) ≡ of_slot s ds ++ of_slot s es
of_slot-append s [] es = refl
of_slot-append s (d ∷ ds) es = ground (arith, of_slot-append s ds es)

of_slot-own :
    (s : RefSlot) (section : Text) (kind : BrickKind) (k : ℕ) (refs : List ExactBrickRef)
    → same_slot s s ≡ true
    → of_slot s (prompt_descriptors s section kind k refs)
      ≡ prompt_descriptors s section kind k refs
unfolding prompt_descriptors
of_slot-own s section kind k [] h = refl
of_slot-own s section kind k (ref ∷ refs) h = rw h (cc (of_slot-own s section kind (suc k) refs h))

of_slot-other :
    (s j : RefSlot) (section : Text) (kind : BrickKind) (k : ℕ) (refs : List ExactBrickRef)
    → same_slot j s ≡ false
    → of_slot s (prompt_descriptors j section kind k refs) ≡ []
unfolding prompt_descriptors
of_slot-other s j section kind k [] h = refl
of_slot-other s j section kind k (ref ∷ refs) h =
    rw h (of_slot-other s j section kind (suc k) refs h)

-- The three references that are not lists
abbrev pub singles : TemplateSpec → List RefDescriptor
singles spec =
    backend_descriptor spec ∷ toolset_descriptor spec ∷ runtime_config_descriptor spec ∷ []

slots_split :
    (s : RefSlot) (spec : TemplateSpec)
    → of_slot s (descriptors_for spec)
      ≡ of_slot s (system_prompt_descriptors spec)
        ++ of_slot s (initial_prompt_descriptors spec)
        ++ of_slot s (singles spec)
unfolding descriptors_for
slots_split s spec =
    of_slot-append s (system_prompt_descriptors spec ++ initial_prompt_descriptors spec)
      (singles spec)
    ∙ ap (λ ds. ds ++ of_slot s (singles spec))
        (of_slot-append s (system_prompt_descriptors spec) (initial_prompt_descriptors spec))

system_slots :
    (spec : TemplateSpec)
    → of_slot RefSlot.system_prompt (descriptors_for spec) ≡ system_prompt_descriptors spec
system_slots spec =
    slots_split RefSlot.system_prompt spec
    ∙ simp (
      of_slot-own RefSlot.system_prompt _ BrickKind.sys_prompt 0 spec.system_prompt refl,
      of_slot-other RefSlot.system_prompt RefSlot.initial_prompt _ BrickKind.prompt 0
          spec.initial_prompt refl,
      append-nil,
    )

initial_slots :
    (spec : TemplateSpec)
    → of_slot RefSlot.initial_prompt (descriptors_for spec) ≡ initial_prompt_descriptors spec
initial_slots spec =
    slots_split RefSlot.initial_prompt spec
    ∙ simp (
      of_slot-own RefSlot.initial_prompt _ BrickKind.prompt 0 spec.initial_prompt refl,
      of_slot-other RefSlot.initial_prompt RefSlot.system_prompt _ BrickKind.sys_prompt 0
          spec.system_prompt refl,
      append-nil,
    )

-- No prompt belongs to a slot that is not the prompts'.
slots_single :
    (s : RefSlot) (spec : TemplateSpec)
    → same_slot RefSlot.system_prompt s ≡ false
    → same_slot RefSlot.initial_prompt s ≡ false
    → of_slot s (descriptors_for spec) ≡ of_slot s (singles spec)
slots_single s spec p q =
    slots_split s spec
    ∙ cc (
      of_slot-other s RefSlot.system_prompt _ BrickKind.sys_prompt 0 spec.system_prompt p,
      of_slot-other s RefSlot.initial_prompt _ BrickKind.prompt 0 spec.initial_prompt q,
    )

module _ (codec : BodyCodec) (ports : ValidationPorts) (provenance : Provenance)
    (project_id : ℕ) where
  -- The entries are sound for the references, one for each, in order.
  abbrev pub Matches : List RefDescriptor → List ResolvedActorTemplateBrick → Type 0
  Matches [] [] = Unit
  Matches (d ∷ ds) (e ∷ es) = IsSound codec provenance ports project_id d e × Matches ds es
  Matches _ _ = ⊥

  Resolves-Matches :
      (s : RefSlot) (ds : List RefDescriptor) (before after : BySlot ResolvedActorTemplateBrick)
      → Resolves codec ports provenance project_id ds before after
      → (es : List ResolvedActorTemplateBrick) × (after s ≡ before s ++ es)
        × Matches (of_slot s ds) es
  Resolves-Matches s [] before after h = ([], ap (λ f. f s) h ∙ sym (append-nil (before s)), tt)
  Resolves-Matches s (d ∷ ds) before after (e, sound, more) =
      let (es, eq, all) = Resolves-Matches s ds (push_entry before d.slot e) after more in
      elim (Bool-cases (same_slot d.slot s)) [
        | inl own ↦
            (e ∷ es, (rw own at eq) ∙ append_assoc (before s) (e ∷ []) es, rw own (sound, all))
        | inr other ↦ (es, rw other at eq, rw other all)
      ]

  pub Matches-one :
      (d : RefDescriptor) (es : List ResolvedActorTemplateBrick)
      → Matches (d ∷ []) es
      → (e : ResolvedActorTemplateBrick) × (es ≡ e ∷ [])
        × IsSound codec provenance ports project_id d e
  Matches-one d [] h = absurd h
  Matches-one d (e ∷ []) h = (e, refl, h.0)
  Matches-one d (e ∷ f ∷ es) h = absurd h.1

  -- The entries of the five slots
  pub record FillsSlots (spec : TemplateSpec) (entries : BySlot ResolvedActorTemplateBrick)
      : Type 0 where
    pub system_prompts : Matches (system_prompt_descriptors spec) (entries RefSlot.system_prompt)
    pub initial_prompts : Matches (initial_prompt_descriptors spec) (entries RefSlot.initial_prompt)
    pub backend : Matches (backend_descriptor spec ∷ []) (entries RefSlot.backend)
    pub toolset : Matches (toolset_descriptor spec ∷ []) (entries RefSlot.toolset)
    pub runtime_config :
        Matches (runtime_config_descriptor spec ∷ []) (entries RefSlot.runtime_config)

  fills :
      (s : RefSlot) (spec : TemplateSpec) (after : BySlot ResolvedActorTemplateBrick)
      (ds : List RefDescriptor)
      → Resolves codec ports provenance project_id (descriptors_for spec) no_entries after
      → of_slot s (descriptors_for spec) ≡ ds
      → Matches ds (after s)
  fills s spec after ds h q =
      let (es, eq, all) = Resolves-Matches s (descriptors_for spec) no_entries after h in
      subst (λ xs. Matches ds xs) (sym eq) (subst (λ xs. Matches xs es) q all)

  pub Resolves-FillsSlots :
      (spec : TemplateSpec) (after : BySlot ResolvedActorTemplateBrick)
      → Resolves codec ports provenance project_id (descriptors_for spec) no_entries after
      → FillsSlots spec after
  Resolves-FillsSlots spec after h = record {
    system_prompts = fills RefSlot.system_prompt spec after _ h (system_slots spec);
    initial_prompts = fills RefSlot.initial_prompt spec after _ h (initial_slots spec);
    backend = fills RefSlot.backend spec after _ h (slots_single RefSlot.backend spec refl refl);
    toolset = fills RefSlot.toolset spec after _ h (slots_single RefSlot.toolset spec refl refl);
    runtime_config =
        fills RefSlot.runtime_config spec after _ h
          (slots_single RefSlot.runtime_config spec refl refl);
  }
