-- ===== src/Actor/Digests.antt =====
-- The two digests of a stored revision: application.ts and compiler.ts in
-- apps/runtime-server/src/modules/actor.
use ai_block.Prelude.{
  ℕ, suc, String, Text, true, Option, none, some, List, [], ◌∷◌, map, returns, ◌>>=◌, >>=-returns,
  ◌≡◌, refl, sym, ap, subst, ◌∙◌, arith, All,
}
use ai_block.Project.Values.{BrickKind}
use ai_block.Actor.Values.{
  ExactBrickRef, BrickPromptBody, BackendBrickBody, ToolProviderBrickConfig, Workspace,
  ConfigurationDigestMaterial, Digests, canonicalize_text, normalize_prompt_body,
  build_configuration_digest_material, compute_configuration_digest,
  compute_template_revision_digest,
}
use ai_block.Actor.Canonical.{
  HasOneMark, HasOneMarks, canonicalize_text_idem, normalize_prompt_body_idem,
}
use ai_block.Actor.Slots.{
  RefSlot, ResolvedActorTemplateBrick, ResolvedActorTemplateCandidate, prompt_descriptors,
}
use ai_block.Actor.Validation.{BodyCodec, ValidationPorts, Provenance}
use ai_block.Actor.Sound.{Matches}
use ai_block.Actor.Checks.{returns-eq}
use ai_block.Actor.Candidate.{ValidateActorTemplateCandidate}
use ai_block.Actor.Validated.{IsValidated}
use ai_block.Actor.Compiler.{
  CompilerChecks, ActorCompilerInput, ActorConfigSnapshot, compile_actor_template,
}
use ai_block.Actor.Compiled.{AreTexts, ArePrompts, compile_actor_template_lem, some-eq}
use ai_block.Actor.Revisions.{
  ActorTemplateRevisionView, resolved_entry, authored_spec_from_revision, both, decode_all,
  material_of, authored_material, configuration_digest_for, digest_of,
  template_revision_digest_matches, new_view, revision_view,
}
use text.Mathlib.TextPositions.{eq_refl}

both-some :
    {A : Type 0} (o : Option A) (p : Option (List A)) {l : List A}
    → both o p ≡ some l
    → (a : A) × (rest : List A) × (o ≡ some a) × (p ≡ some rest) × (a ∷ rest ≡ l)
both-some none p h = absurd (ground arith)
both-some (some a) none h = absurd (ground arith)
both-some (some a) (some rest) h = (a, rest, refl, refl, some-eq h)

-- What was decoded is a function of the body.
same_value : {A : Type 0} {o : Option A} {a b : A} → o ≡ some a → o ≡ some b → a ≡ b
same_value p q = some-eq (sym p ∙ q)

module _ (codec : BodyCodec) where
  -- No text of a prompt of the candidate starts with two byte order marks.
  abbrev pub SystemMarks : List ResolvedActorTemplateBrick → Type 0
  SystemMarks = All (λ e. (t : Text) → codec.sys_prompt e.revision.body ≡ some t → HasOneMark t)

  abbrev pub InitialMarks : List ResolvedActorTemplateBrick → Type 0
  InitialMarks =
      All (λ e. (b : BrickPromptBody) → codec.prompt e.revision.body ≡ some b → HasOneMarks b)

  module _ (checks : CompilerChecks) (digests : Digests) where
    texts_agree :
        (entries : List ResolvedActorTemplateBrick) (ts : List Text) {us : List Text}
        → AreTexts codec checks digests entries ts
        → decode_all codec.sys_prompt entries ≡ some us
        → SystemMarks entries
        → map canonicalize_text ts ≡ map canonicalize_text us
    unfolding decode_all
    texts_agree [] [] a d m = ap (map canonicalize_text) (some-eq d)
    texts_agree [] (t ∷ ts) a d m = absurd a
    texts_agree (e ∷ entries) [] a d m = absurd a
    texts_agree (e ∷ entries) (t ∷ ts) ((value, v, q), more) d m =
        let (u, us, p, r, made) =
          both-some (codec.sys_prompt e.revision.body) (decode_all codec.sys_prompt entries) d in
        let rest = texts_agree entries ts more r m.1 in
        let same : u ≡ value = same_value p v in
        let head : canonicalize_text t ≡ canonicalize_text u =
          ap canonicalize_text q
          ∙ canonicalize_text_idem value (m.0 value v)
          ∙ ap canonicalize_text (sym same) in
        cc (head, rest) ∙ ap (map canonicalize_text) made

    prompts_agree :
        (entries : List ResolvedActorTemplateBrick) (bs : List BrickPromptBody)
        {us : List BrickPromptBody}
        → ArePrompts codec checks digests entries bs
        → decode_all codec.prompt entries ≡ some us
        → InitialMarks entries
        → map normalize_prompt_body bs ≡ map normalize_prompt_body us
    unfolding decode_all
    prompts_agree [] [] a d m = ap (map normalize_prompt_body) (some-eq d)
    prompts_agree [] (b ∷ bs) a d m = absurd a
    prompts_agree (e ∷ entries) [] a d m = absurd a
    prompts_agree (e ∷ entries) (b ∷ bs) ((value, v, q), more) d m =
        let (u, us, p, r, made) =
          both-some (codec.prompt e.revision.body) (decode_all codec.prompt entries) d in
        let rest = prompts_agree entries bs more r m.1 in
        let same : u ≡ value = same_value p v in
        let head : normalize_prompt_body b ≡ normalize_prompt_body u =
          ap normalize_prompt_body q
          ∙ normalize_prompt_body_idem value (m.0 value v)
          ∙ ap normalize_prompt_body (sym same) in
        cc (head, rest) ∙ ap (map normalize_prompt_body) made

-- The bodies of a material, one by one
material_of-some :
    (directory : String) (s : Option (List Text)) (i : Option (List BrickPromptBody))
    (b : Option BackendBrickBody) (t : Option (List ToolProviderBrickConfig)) (w : Option Workspace)
    {m : ConfigurationDigestMaterial}
    → material_of directory s i b t w ≡ some m
    → (s ≡ some m.system_prompts)
      × (i ≡ some m.initial_prompts)
      × (b ≡ some m.backend)
      × (t ≡ some m.tool_providers)
      × (m.working_directory ≡ directory)
material_of-some directory (some s) (some i) (some b) (some t) (some w) {m} h =
    let e = some-eq h in
    (
      ap (λ n. some n.system_prompts) e,
      ap (λ n. some n.initial_prompts) e,
      ap (λ n. some n.backend) e,
      ap (λ n. some n.tool_providers) e,
      sym (ap (λ n. n.working_directory) e),
    )
material_of-some directory _ _ _ _ _ {m} h = absurd (ground arith)

module _ (codec : BodyCodec) (digests : Digests) where
  -- Where `revisionView` has a value: the material of its configuration digest, and its digests
  pub record IsView (template_uid template_id : ℕ) (command : ValidateActorTemplateCandidate)
      (c : ResolvedActorTemplateCandidate) (revision created_at : ℕ)
      (view : ActorTemplateRevisionView) : Type 0 where
    pub material : ConfigurationDigestMaterial
    pub decoded : authored_material codec digests c ≡ some material
    pub config_digest : compute_configuration_digest digests material ≡ returns view.config_digest
    pub revision_digest :
        compute_template_revision_digest digests command.metadata command.spec
        ≡ returns view.revision_digest
    pub made :
        view
        ≡ new_view codec digests template_uid template_id command.project_id command.metadata c
            revision created_at view.revision_digest view.config_digest

  digest_of-some :
      (o : Option ConfigurationDigestMaterial) {d : String}
      → digest_of codec digests o ≡ returns (some d)
      → (m : ConfigurationDigestMaterial) × (o ≡ some m)
        × (compute_configuration_digest digests m ≡ returns d)
  digest_of-some none h = absurd (ground (arith, returns-eq h))
  digest_of-some (some m) h =
      let (d, p, h1) = >>=-returns (compute_configuration_digest digests m) _ h in
      (m, refl, p ∙ ap returns (some-eq (returns-eq h1)))

  pub revision_view-IsView :
      (template_uid template_id : ℕ) (command : ValidateActorTemplateCandidate)
      (c : ResolvedActorTemplateCandidate) (revision created_at : ℕ)
      {view : ActorTemplateRevisionView}
      → revision_view codec digests template_uid template_id command c revision created_at
        ≡ returns (some view)
      → IsView template_uid template_id command c revision created_at view
  unfolding revision_view configuration_digest_for
  revision_view-IsView template_uid template_id command c revision created_at {view} h =
      let (o, p, h1) =
        >>=-returns (digest_of codec digests (authored_material codec digests c)) _ h in
      by_digest o p h1
    where
      by_digest :
          (o : Option String)
          → digest_of codec digests (authored_material codec digests c) ≡ returns o
          → (elim o [
            | none ↦ returns none
            | some digest ↦ do
              revision_digest ←
                  compute_template_revision_digest digests command.metadata command.spec
              returns (
                  some (
                    new_view codec digests template_uid template_id command.project_id
                      command.metadata c revision created_at revision_digest digest))
          ])
            ≡ returns (some view)
          → IsView template_uid template_id command c revision created_at view
      by_digest none p h = absurd (ground (arith, returns-eq h))
      by_digest (some digest) p h =
          let (r, q, h1) =
            >>=-returns (compute_template_revision_digest digests command.metadata command.spec) _
              h in
          let e = some-eq (returns-eq h1) in
          let (m, d, computed) = digest_of-some _ p in
          subst (IsView template_uid template_id command c revision created_at) e (record {
            material = m;
            decoded = d;
            config_digest = computed;
            revision_digest = q;
            made = refl;
          })

module _ (codec : BodyCodec) (checks : CompilerChecks) (digests : Digests) where
  -- The configuration digest of a stored revision is the digest of every snapshot that is compiled
  -- from its candidate, if no text of its prompts starts with two byte order marks.
  pub config_digests_agree :
      (template_uid template_id : ℕ) (command : ValidateActorTemplateCandidate)
      (revision created_at : ℕ) (input : ActorCompilerInput) {view : ActorTemplateRevisionView}
      {s : ActorConfigSnapshot}
      → revision_view codec digests template_uid template_id command input.candidate revision
          created_at
        ≡ returns (some view)
      → compile_actor_template codec checks digests input ≡ some s
      → SystemMarks codec input.candidate.system_prompts
      → InitialMarks codec input.candidate.initial_prompts
      → s.head.config_digest ≡ view.config_digest
  unfolding authored_material compute_configuration_digest build_configuration_digest_material
  config_digests_agree template_uid template_id command revision created_at input {view} {s} hv hc
        ms mi =
      let is_view = revision_view-IsView codec digests _ _ _ _ _ _ hv in
      let compiled = compile_actor_template_lem codec checks digests input hc in
      let (ds, di, db, dt, directory) = material_of-some _ _ _ _ _ _ is_view.decoded in
      let texts = texts_agree codec checks digests _ _ compiled.material.system_prompts ds ms in
      let prompts =
        prompts_agree codec checks digests _ _ compiled.material.initial_prompts di mi in
      let same : build_configuration_digest_material s.resolved
          ≡ build_configuration_digest_material is_view.material =
        cc (
          texts,
          prompts,
          same_value compiled.material.backend db,
          same_value compiled.material.toolset dt,
          compiled.material.directory,
          directory,
        ) in
      returns-eq
        (sym compiled.digest ∙ ap digests.sha256_configuration same ∙ is_view.config_digest)

module _ (codec : BodyCodec) (ports : ValidationPorts) (provenance : Provenance)
    (project_id : ℕ) where
  entries-refs :
      (slot : RefSlot) (section : Text) (kind : BrickKind) (k : ℕ) (refs : List ExactBrickRef)
      (entries : List ResolvedActorTemplateBrick)
      → Matches codec ports provenance project_id
          (prompt_descriptors slot section kind k refs)
          entries
      → map (λ e. e.ref) (map resolved_entry entries) ≡ refs
  unfolding prompt_descriptors
  entries-refs slot section kind k [] [] h = refl
  entries-refs slot section kind k [] (e ∷ entries) h = absurd h
  entries-refs slot section kind k (ref ∷ refs) [] h = absurd h
  entries-refs slot section kind k (ref ∷ refs) (e ∷ entries) h =
      cc (h.0.authored, entries-refs slot section kind (suc k) refs entries h.1)

module _ (codec : BodyCodec) (digests : Digests) where
  -- The specification comes back: what `revisionView` stores for a candidate that was validated has
  -- the metadata and, in `authoredSpecFromRevision`, the references of the command, so that the
  -- integrity check of its revision digest, `templateRevisionDigestMatches`, succeeds.
  pub revision_view-authored :
      (ports : ValidationPorts) (provenance : Provenance) (template_uid template_id : ℕ)
      (command : ValidateActorTemplateCandidate) (c : ResolvedActorTemplateCandidate)
      (revision created_at : ℕ) {view : ActorTemplateRevisionView}
      → IsValidated codec ports provenance command.project_id command.spec c
      → revision_view codec digests template_uid template_id command c revision created_at
        ≡ returns (some view)
      → (authored_spec_from_revision view ≡ command.spec)
        × (view.metadata ≡ command.metadata)
        × (template_revision_digest_matches codec digests view ≡ returns true)
  unfolding authored_spec_from_revision template_revision_digest_matches
  revision_view-authored ports provenance template_uid template_id command c revision created_at
        {view} validated h =
      let v = revision_view-IsView codec digests _ _ _ _ _ _ h in
      let metadata : view.metadata ≡ command.metadata = ap (λ w. w.metadata) v.made in
      let authored : authored_spec_from_revision view ≡ command.spec =
        ap authored_spec_from_revision v.made
        ∙ cc (
          entries-refs codec ports provenance command.project_id _ _ _ _ _ _
              validated.system_prompts,
          entries-refs codec ports provenance command.project_id _ _ _ _ _ _
              validated.initial_prompts,
          validated.backend.authored,
          validated.toolset.authored,
          validated.runtime_config.authored,
        ) in
      (authored, metadata, rw (metadata, authored, v.revision_digest, eq_refl view.revision_digest))
