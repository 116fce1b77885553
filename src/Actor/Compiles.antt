-- ===== src/Actor/Compiles.antt =====
-- A validated candidate compiles: validation.ts and compiler.ts in
-- apps/runtime-server/src/modules/actor, put together.
use ai_block.Prelude.{
  ℕ, suc, String, Text, true, false, Option, some, none, List, [], ◌∷◌, ◌==◌, ==_iff, Attempt,
  returns, throws, All, ◌⊎◌, inl, inr, Bool-cases, ◌≡◌, refl, sym, ap, subst, ◌∙◌, codes,
}
use ai_block.Project.Values.{BrickKind, same_kind}
use ai_block.Actor.Values.{
  ExactBrickRef, canonicalize_text, BrickPromptBody, BrickPromptParts, normalize_prompt_body,
  normalize_parts, ConfigurationDigestMaterial, Digests, TemplateSpec, compute_configuration_digest,
}
use ai_block.Actor.Slots.{RefDescriptor, ResolvedActorTemplateBrick, prompt_descriptors, RefSlot}
use ai_block.Actor.Validation.{BodyCodec, ValidationPorts, Provenance}
use ai_block.Actor.Resolved.{IsSound}
use ai_block.Actor.Sound.{Matches}
use ai_block.Actor.Checks.{AllDecode}
use ai_block.Actor.Candidate.{
  ValidateActorTemplateCandidate, ActorTemplateValidationOutcome, resolve_candidate,
}
use ai_block.Actor.Compiled.{some-eq, IsMaterial, config_material-IsMaterial}
use ai_block.Actor.Validated.{IsValidated, resolve_candidate_lem}
use ai_block.Actor.Compiler.{
  ActorCompilerInput, ActorConfigSnapshot, CompilerChecks, normalized_body, normalized_parts,
  normalized_sys_prompt, normalized_initial_prompt, all_defined, valid_revision, valid_revisions,
  valid_head, input_is_consistent, config_material, new_snapshot, compile_actor_template,
}
use text.Mathlib.TextPositions.{eq_refl}

same_number : {a b : ℕ} → a ≡ b → (a == b) ≡ true
same_number {a} {b} e = (==_iff a b).1 e

same_kind_refl : (k : BrickKind) → same_kind k k ≡ true
same_kind_refl BrickKind.sys_prompt = refl
same_kind_refl BrickKind.prompt = refl
same_kind_refl BrickKind.backend = refl
same_kind_refl BrickKind.toolset = refl
same_kind_refl BrickKind.runtime_config = refl

same_kind_of : {a b : BrickKind} → a ≡ b → same_kind a b ≡ true
same_kind_of {a} e = subst (λ b. same_kind a b ≡ true) e (same_kind_refl a)

module _ (checks : CompilerChecks) where
  -- Every part of a prompt, however deep, is accepted by itself.
  unfoldable mutual
    pub PartsAreAccepted : BrickPromptBody → Type 0
    PartsAreAccepted (BrickPromptBody.text value) = Unit {0}
    PartsAreAccepted (BrickPromptBody.composite parts) = AllAreAccepted parts

    pub AllAreAccepted : BrickPromptParts → Type 0
    AllAreAccepted BrickPromptParts.no_part = Unit {0}
    AllAreAccepted (BrickPromptParts.part body parts) =
        (checks.part_ok body ≡ true) × PartsAreAccepted body × AllAreAccepted parts

  abbrev AcceptedRefs : List ExactBrickRef → Type 0
  AcceptedRefs = All (λ ref. checks.ref_ok ref ≡ true)

  -- `decodeContract` accepts again what it has decoded: the references of the specification, and
  -- the parts of a prompt, which have the schema of a prompt themselves.
  pub record DecodesAgain (codec : BodyCodec) (spec : TemplateSpec) : Type 0 where
    pub system_prompt : AcceptedRefs spec.system_prompt
    pub initial_prompt : AcceptedRefs spec.initial_prompt
    pub backend : checks.ref_ok spec.backend ≡ true
    pub toolset : checks.ref_ok spec.toolset ≡ true
    pub runtime_config : checks.ref_ok spec.runtime_config ≡ true
    pub parts :
        (body : String) (value : BrickPromptBody)
        → codec.prompt body ≡ some value
        → PartsAreAccepted value

module _ (codec : BodyCodec) (checks : CompilerChecks) (digests : Digests) (spec : TemplateSpec)
    (again : DecodesAgain checks codec spec) where
  mutual
    unfolding normalized_body normalize_prompt_body PartsAreAccepted

    normalized_body_of_ok :
        (b : BrickPromptBody)
        → PartsAreAccepted checks b
        → normalized_body codec checks digests b ≡ some (normalize_prompt_body b)
    normalized_body_of_ok (BrickPromptBody.text value) a = refl
    normalized_body_of_ok (BrickPromptBody.composite parts) a = rw (normalized_parts_of_ok parts a)

    normalized_parts_of_ok :
        (ps : BrickPromptParts)
        → AllAreAccepted checks ps
        → normalized_parts codec checks digests ps ≡ some (normalize_parts ps)
    normalized_parts_of_ok BrickPromptParts.no_part a = refl
    normalized_parts_of_ok (BrickPromptParts.part body parts) (a, b, c) =
        rw (a, normalized_body_of_ok body b, normalized_parts_of_ok parts c)

  all_defined_of_texts :
      (entries : List ResolvedActorTemplateBrick)
      → AllDecode codec.sys_prompt (codes "/system_prompt") entries
      → (ts : List Text) × (all_defined codec checks digests
            (normalized_sys_prompt codec checks digests)
            entries
          ≡ some ts)
  unfolding all_defined normalized_sys_prompt
  all_defined_of_texts [] h = ([], refl)
  all_defined_of_texts (entry ∷ entries) ((value, e), more) =
      let (ts, q) = all_defined_of_texts entries more in (canonicalize_text value ∷ ts, rw (e, q))

  all_defined_of_prompts :
      (entries : List ResolvedActorTemplateBrick)
      → AllDecode codec.prompt (codes "/initial_prompt") entries
      → (bs : List BrickPromptBody) × (all_defined codec checks digests
            (normalized_initial_prompt codec checks digests)
            entries
          ≡ some bs)
  unfolding all_defined normalized_initial_prompt
  all_defined_of_prompts [] h = ([], refl)
  all_defined_of_prompts (entry ∷ entries) ((value, e), more) =
      let (bs, q) = all_defined_of_prompts entries more in
      let n = normalized_body_of_ok value (again.parts entry.revision.body value e) in
      (normalize_prompt_body value ∷ bs, rw (e, n, q))

  module _ (ports : ValidationPorts) (provenance : Provenance) (project_id : ℕ) where
    valid_revision_of_IsSound :
        (d : RefDescriptor) (e : ResolvedActorTemplateBrick)
        → checks.ref_ok d.ref ≡ true
        → IsSound codec provenance ports project_id d e
        → valid_revision codec checks digests project_id d.expected_kind e ≡ some tt
    unfolding valid_revision
    valid_revision_of_IsSound d e ok s =
        let r = ap checks.ref_ok s.authored ∙ ok in
        let i = same_number (ap (λ a. a.id) s.authored ∙ sym s.named.1) in
        let n = same_number (ap (λ a. a.revision) s.authored ∙ sym s.named.2) in
        let p = same_number s.named.0 in
        let k = same_kind_of s.kind in
        rw (r, i, n, p, k, s.intact.well_formed, s.intact.digest, eq_refl e.revision.digest)

    valid_prompts :
        (slot : RefSlot) (section : Text) (kind : BrickKind) (k : ℕ) (refs : List ExactBrickRef)
        (entries : List ResolvedActorTemplateBrick)
        → AcceptedRefs checks refs
        → Matches codec ports provenance project_id
            (prompt_descriptors slot section kind k refs)
            entries
        → valid_revisions codec checks digests project_id kind entries ≡ some tt
    unfolding prompt_descriptors valid_revisions
    valid_prompts slot section kind k [] [] a h = refl
    valid_prompts slot section kind k (ref ∷ refs) [] a h = absurd h
    valid_prompts slot section kind k [] (entry ∷ entries) a h = absurd h
    valid_prompts slot section kind k (ref ∷ refs) (entry ∷ entries) a h = rw (
      valid_revision_of_IsSound _ entry a.0 h.0,
      valid_prompts slot section kind (suc k) refs entries a.1 h.1,
    )

  module _ (ports : ValidationPorts) (provenance : Provenance) (input : ActorCompilerInput)
      (project_id : ℕ)
      (validated : IsValidated codec ports provenance project_id spec input.candidate) where
    validated_consistent :
        valid_head codec checks digests input ≡ some tt
        → input_is_consistent codec checks digests input ≡ some tt
    unfolding input_is_consistent
    validated_consistent h =
        let sound : (d : RefDescriptor) (e : ResolvedActorTemplateBrick)
            → checks.ref_ok d.ref ≡ true
            → IsSound codec provenance ports project_id d e
            → valid_revision codec checks digests project_id d.expected_kind e ≡ some tt =
          valid_revision_of_IsSound ports provenance project_id in
        rw (
          h,
          validated.project,
          sound _ _ again.backend validated.backend,
          sound _ _ again.toolset validated.toolset,
          sound _ _ again.runtime_config validated.runtime_config,
          valid_prompts ports provenance project_id _ _ _ _ _ _ again.system_prompt
              validated.system_prompts,
          valid_prompts ports provenance project_id _ _ _ _ _ _ again.initial_prompt
              validated.initial_prompts,
        )

    validated_material :
        (m : ConfigurationDigestMaterial) × (config_material codec checks digests input.candidate
          ≡ some m)
    unfolding config_material
    validated_material =
        let (ts, p) = all_defined_of_texts _ validated.system_texts in
        let (bs, q) = all_defined_of_prompts _ validated.initial_bodies in
        (
          record {
            system_prompts = ts;
            initial_prompts = bs;
            backend = validated.backend_body;
            tool_providers = validated.providers;
            working_directory = input.candidate.working_directory;
          },
          rw (
            p,
            q,
            validated.backend_decodes,
            validated.toolset_decodes,
            validated.workspace_decodes,
            same_number validated.distinct,
          ),
        )

module _ (codec : BodyCodec) (checks : CompilerChecks) (digests : Digests) where
  -- What `compileActorTemplate` returns for a material: its snapshot, if the digest does not throw
  -- and the snapshot's schema accepts it.
  abbrev pub SnapshotOf :
      ActorCompilerInput
      → ConfigurationDigestMaterial
      → Attempt String
      → Option ActorConfigSnapshot
      → Type 0
  SnapshotOf input m (returns digest) result =
      let s = new_snapshot codec checks digests input m digest in
      ((checks.snapshot_ok s ≡ true) × (result ≡ some s))
      ⊎ ((checks.snapshot_ok s ≡ false) × (result ≡ none))
  SnapshotOf input m (throws e) result = result ≡ none

  compiles_material :
      (input : ActorCompilerInput) (m : ConfigurationDigestMaterial) (digest : Attempt String)
      → input_is_consistent codec checks digests input ≡ some tt
      → config_material codec checks digests input.candidate ≡ some m
      → compute_configuration_digest digests m ≡ digest
      → SnapshotOf input m digest (compile_actor_template codec checks digests input)
  unfolding compile_actor_template
  compiles_material input m (returns digest) p q r =
      let s = new_snapshot codec checks digests input m digest in
      elim (Bool-cases (checks.snapshot_ok s)) [
        | inl e ↦ inl (e, rw (p, q, r, e))
        | inr e ↦ inr (e, rw (p, q, r, e))
      ]
  compiles_material input m (throws e) p q r = rw (p, q, r)

  -- A candidate that was resolved under a valid report passes every check of the compiler on its
  -- input and on its bodies, for every input with that candidate whose identities and working
  -- directory are well formed, if `decodeContract` accepts again the references and the parts of
  -- prompts that it has decoded. From its bodies, with the prompts in canonical form, the snapshot
  -- is made; and `compileActorTemplate` returns it, unless the digest throws or the snapshot's
  -- schema refuses it.
  pub validated_compiles :
      (ports : ValidationPorts) (provenance : Provenance) (command : ValidateActorTemplateCandidate)
      (input : ActorCompilerInput) {outcome : ActorTemplateValidationOutcome}
      → DecodesAgain checks codec command.spec
      → resolve_candidate codec ports provenance command ≡ returns outcome
      → outcome.report.valid ≡ true
      → outcome.resolved ≡ some input.candidate
      → valid_head codec checks digests input ≡ some tt
      → (m : ConfigurationDigestMaterial) × IsMaterial codec checks digests input.candidate m
        × SnapshotOf input m
            (compute_configuration_digest digests m)
            (compile_actor_template codec checks digests input)
  validated_compiles ports provenance command input again h v e head =
      let (c, e', validated) = resolve_candidate_lem codec ports provenance command h v in
      let same : c ≡ input.candidate = some-eq (sym e' ∙ e) in
      let here =
        subst (IsValidated codec ports provenance command.project_id command.spec) same validated in
      let consistent =
        validated_consistent codec checks digests command.spec again ports provenance input
          command.project_id here head in
      let (m, material) =
        validated_material codec checks digests command.spec again ports provenance input
          command.project_id here in
      (
        m,
        config_material-IsMaterial codec checks digests input.candidate material,
        compiles_material input m (compute_configuration_digest digests m) consistent material refl,
      )
