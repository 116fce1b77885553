-- ===== src/Actor/Compiled.antt =====
-- What a snapshot is, and that a validated candidate compiles: compiler.ts in
-- apps/runtime-server/src/modules/actor.
use ai_block.Prelude.{
  ℕ, suc, ◌++◌, Text, Bool, true, false, Option, none, some, List, [], ◌∷◌, ◌==◌, Attempt, returns,
  ◌≡◌, refl, sym, ap, subst, ◌∙◌, arith, length,
}
use ai_block.Project.Values.{BrickKind}
use ai_block.Actor.Values.{
  canonicalize_text, BrickPromptBody, BrickPromptParts, normalize_prompt_body, normalize_parts,
  ConfigurationDigestMaterial, Digests, compute_configuration_digest,
}
use ai_block.Actor.Slots.{ResolvedActorTemplateBrick, ResolvedActorTemplateCandidate}
use ai_block.Actor.Validation.{BodyCodec}
use ai_block.Actor.Compiler.{
  ActorCompilerInput, ActorConfigSnapshot, CompilerChecks, ◌>>=◌, guard, value_of, SourceBrick,
  source_brick, source_bricks_from, source_bricks, set_size, normalized_body, normalized_parts,
  normalized_sys_prompt, normalized_initial_prompt, all_defined, input_is_consistent,
  config_material, new_snapshot, compile_actor_template,
}

-- A chain that has a value has one at each step.
pub >>=-some :
    {A B : Type 0} (m : Option A) (f : A → Option B) {b : B}
    → (m >>= f) ≡ some b
    → (a : A) × (m ≡ some a) × (f a ≡ some b)
>>=-some none f e = absurd (ground arith)
>>=-some (some a) f e = (a, refl, e)

pub some-eq : {A : Type 0} {a b : A} → Option.some a ≡ some b → a ≡ b
some-eq h = cc h

guard-some : (holds : Bool) {u : Unit {0}} → guard holds ≡ some u → holds ≡ true
guard-some true h = refl
guard-some false h = absurd (ground arith)

value_of-some : {A : Type 0} (x : Attempt A) {a : A} → value_of x ≡ some a → x ≡ returns a
value_of-some (Attempt.returns b) h = ap returns (some-eq h)
value_of-some (Attempt.throws e) h = absurd (ground arith)

module _ (codec : BodyCodec) (checks : CompilerChecks) (digests : Digests) where
  mutual
    unfolding normalized_body normalize_prompt_body

    -- What `normalizedPrompt` returns is the normal form.
    pub normalized_body-eq :
        (b : BrickPromptBody) {n : BrickPromptBody}
        → normalized_body codec checks digests b ≡ some n
        → n ≡ normalize_prompt_body b
    normalized_body-eq (BrickPromptBody.text value) h = sym (some-eq h)
    normalized_body-eq (BrickPromptBody.composite parts) h =
        let (ps, e, h1) = >>=-some (normalized_parts codec checks digests parts) _ h in
        sym (some-eq h1) ∙ ap BrickPromptBody.composite (normalized_parts-eq parts e)

    normalized_parts-eq :
        (ps : BrickPromptParts) {n : BrickPromptParts}
        → normalized_parts codec checks digests ps ≡ some n
        → n ≡ normalize_parts ps
    normalized_parts-eq BrickPromptParts.no_part h = sym (some-eq h)
    normalized_parts-eq (BrickPromptParts.part body parts) h =
        let (u, p, h1) = >>=-some (guard (checks.part_ok body)) _ h in
        let (b, e, h2) = >>=-some (normalized_body codec checks digests body) _ h1 in
        let (ps, e', h3) = >>=-some (normalized_parts codec checks digests parts) _ h2 in
        sym (some-eq h3) ∙ cc (normalized_body-eq body e, normalized_parts-eq parts e')

  -- The texts are the canonical ones of the bodies, in order.
  abbrev pub AreTexts : List ResolvedActorTemplateBrick → List Text → Type 0
  AreTexts [] [] = Unit
  AreTexts (entry ∷ entries) (t ∷ ts) =
      ((value : Text) × (codec.sys_prompt entry.revision.body ≡ some value)
        × (t ≡ canonicalize_text value))
      × AreTexts entries ts
  AreTexts _ _ = ⊥

  -- The prompts are the normal forms of the bodies, in order.
  abbrev pub ArePrompts : List ResolvedActorTemplateBrick → List BrickPromptBody → Type 0
  ArePrompts [] [] = Unit
  ArePrompts (entry ∷ entries) (b ∷ bs) =
      ((value : BrickPromptBody) × (codec.prompt entry.revision.body ≡ some value)
        × (b ≡ normalize_prompt_body value))
      × ArePrompts entries bs
  ArePrompts _ _ = ⊥

  all_defined-AreTexts :
      (entries : List ResolvedActorTemplateBrick) {ts : List Text}
      → all_defined codec checks digests (normalized_sys_prompt codec checks digests) entries
        ≡ some ts
      → AreTexts entries ts
  unfolding all_defined normalized_sys_prompt
  all_defined-AreTexts [] {ts} h = subst (AreTexts []) (some-eq h) tt
  all_defined-AreTexts (entry ∷ entries) {ts} h =
      let (t, p, h1) = >>=-some (normalized_sys_prompt codec checks digests entry) _ h in
      let (value, q, h2) = >>=-some (codec.sys_prompt entry.revision.body) _ p in
      let (rest, r, h3) =
        >>=-some
          (all_defined codec checks digests (normalized_sys_prompt codec checks digests) entries) _
          h1 in
      subst (AreTexts (entry ∷ entries)) (some-eq h3)
        ((value, q, sym (some-eq h2)), all_defined-AreTexts entries r)

  all_defined-ArePrompts :
      (entries : List ResolvedActorTemplateBrick) {bs : List BrickPromptBody}
      → all_defined codec checks digests (normalized_initial_prompt codec checks digests) entries
        ≡ some bs
      → ArePrompts entries bs
  unfolding all_defined normalized_initial_prompt
  all_defined-ArePrompts [] {bs} h = subst (ArePrompts []) (some-eq h) tt
  all_defined-ArePrompts (entry ∷ entries) {bs} h =
      let (b, p, h1) = >>=-some (normalized_initial_prompt codec checks digests entry) _ h in
      let (value, q, h2) = >>=-some (codec.prompt entry.revision.body) _ p in
      let (rest, r, h3) =
        >>=-some
          (all_defined codec checks digests (normalized_initial_prompt codec checks digests)
            entries)
          _ h1 in
      subst (ArePrompts (entry ∷ entries)) (some-eq h3)
        ((value, q, normalized_body-eq value h2), all_defined-ArePrompts entries r)

  -- The material of a candidate: its bodies, with canonical prompts
  pub record IsMaterial (c : ResolvedActorTemplateCandidate) (m : ConfigurationDigestMaterial)
      : Type 0 where
    pub system_prompts : AreTexts c.system_prompts m.system_prompts
    pub initial_prompts : ArePrompts c.initial_prompts m.initial_prompts
    pub backend : codec.backend c.backend.revision.body ≡ some m.backend
    pub toolset : codec.toolset c.toolset.revision.body ≡ some m.tool_providers
    pub distinct : (set_size m.tool_providers == length m.tool_providers) ≡ true
    pub directory : m.working_directory ≡ c.working_directory

  pub config_material-IsMaterial :
      (c : ResolvedActorTemplateCandidate) {m : ConfigurationDigestMaterial}
      → config_material codec checks digests c ≡ some m
      → IsMaterial c m
  unfolding config_material
  config_material-IsMaterial c {m} h =
      let (ts, p, h1) =
        >>=-some
          (all_defined codec checks digests (normalized_sys_prompt codec checks digests)
            c.system_prompts)
          _ h in
      let (bs, q, h2) =
        >>=-some
          (all_defined codec checks digests (normalized_initial_prompt codec checks digests)
            c.initial_prompts)
          _ h1 in
      let (backend, r, h3) = >>=-some (codec.backend c.backend.revision.body) _ h2 in
      let (providers, s, h4) = >>=-some (codec.toolset c.toolset.revision.body) _ h3 in
      let (workspace, t, h5) =
        >>=-some (codec.runtime_config c.runtime_config.revision.body) _ h4 in
      let (u, d, h6) = >>=-some (guard (set_size providers == length providers)) _ h5 in
      subst (IsMaterial c) (some-eq h6) (record {
        system_prompts = all_defined-AreTexts c.system_prompts p;
        initial_prompts = all_defined-ArePrompts c.initial_prompts q;
        backend = r;
        toolset = s;
        distinct = guard-some _ d;
        directory = refl;
      })

  -- A brick pins the revision of an entry.
  abbrev pub IsPin : BrickKind → Option ℕ → ResolvedActorTemplateBrick → SourceBrick → Type 0
  IsPin kind order entry brick =
      (brick.slot ≡ kind)
      × (brick.order ≡ order)
      × (brick.revision_uid ≡ entry.revision.revision_uid)
      × (brick.digest ≡ entry.revision.digest)

  -- The bricks pin the revisions of the entries, one each, and are numbered from `k` on.
  abbrev pub ArePins : BrickKind → ℕ → List ResolvedActorTemplateBrick → List SourceBrick → Type 0
  ArePins kind k [] [] = Unit
  ArePins kind k (entry ∷ entries) (brick ∷ bricks) =
      IsPin kind (some k) entry brick × ArePins kind (suc k) entries bricks
  ArePins _ _ _ _ = ⊥

  -- The pins of a candidate: the system prompts, the initial prompts, and the three single bricks
  pub record PinsCandidate (c : ResolvedActorTemplateCandidate) (bricks : List SourceBrick)
      : Type 0 where
    pub system : List SourceBrick
    pub initial : List SourceBrick
    pub backend : SourceBrick
    pub toolset : SourceBrick
    pub runtime_config : SourceBrick
    pub all : bricks ≡ system ++ initial ++ backend ∷ toolset ∷ runtime_config ∷ []
    pub system_prompts : ArePins BrickKind.sys_prompt 0 c.system_prompts system
    pub initial_prompts : ArePins BrickKind.prompt 0 c.initial_prompts initial
    pub backend_pin : IsPin BrickKind.backend none c.backend backend
    pub toolset_pin : IsPin BrickKind.toolset none c.toolset toolset
    pub runtime_config_pin : IsPin BrickKind.runtime_config none c.runtime_config runtime_config

  source_bricks_from-ArePins :
      (kind : BrickKind) (k : ℕ) (entries : List ResolvedActorTemplateBrick)
      → ArePins kind k entries (source_bricks_from kind k entries)
  unfolding source_bricks_from
  source_bricks_from-ArePins kind k [] = tt
  source_bricks_from-ArePins kind k (entry ∷ entries) =
      ((refl, refl, refl, refl), source_bricks_from-ArePins kind (suc k) entries)

  source_bricks-PinsCandidate :
      (c : ResolvedActorTemplateCandidate) → PinsCandidate c (source_bricks c)
  unfolding source_bricks
  source_bricks-PinsCandidate c = record {
    system = source_bricks_from BrickKind.sys_prompt 0 c.system_prompts;
    initial = source_bricks_from BrickKind.prompt 0 c.initial_prompts;
    backend = source_brick BrickKind.backend c.backend none;
    toolset = source_brick BrickKind.toolset c.toolset none;
    runtime_config = source_brick BrickKind.runtime_config c.runtime_config none;
    all = refl;
    system_prompts = source_bricks_from-ArePins BrickKind.sys_prompt 0 c.system_prompts;
    initial_prompts = source_bricks_from-ArePins BrickKind.prompt 0 c.initial_prompts;
    backend_pin = (refl, refl, refl, refl);
    toolset_pin = (refl, refl, refl, refl);
    runtime_config_pin = (refl, refl, refl, refl);
  }

  -- A snapshot stands for its input: it carries the identities that were given, and pins the
  -- revisions of the candidate in order; what it holds are their bodies, the prompts in canonical
  -- form; and its digest is the digest of what it holds.
  pub record IsCompiled (input : ActorCompilerInput) (s : ActorConfigSnapshot) : Type 0 where
    pub snapshot_id : s.head.snapshot_id ≡ input.snapshot_id
    pub project_id : s.head.project_id ≡ input.candidate.project_id
    pub source_template : s.head.source_template ≡ input.source_template
    pub created_at : s.head.created_at ≡ input.created_at
    pub pinned : PinsCandidate input.candidate s.source_bricks
    pub material : IsMaterial input.candidate s.resolved
    pub digest : compute_configuration_digest digests s.resolved ≡ returns s.head.config_digest
    pub well_formed : checks.snapshot_ok s ≡ true

  -- If `compileActorTemplate` returns a snapshot, then the snapshot carries the identities that were
  -- given and pins the candidate's revisions in order: those of the system prompts and those of the
  -- initial prompts, each numbered from 0, the backend, the toolset and the runtime configuration,
  -- with the uid and the digest of each; it holds the decoded bodies of the candidate,
  -- the texts of the prompts in canonical form, providers with distinct numbers, and the candidate's
  -- working directory; its digest is the configuration digest of what it holds; and it passes the
  -- snapshot's schema.
  pub compile_actor_template_lem :
      (input : ActorCompilerInput) {s : ActorConfigSnapshot}
      → compile_actor_template codec checks digests input ≡ some s
      → IsCompiled input s
  unfolding compile_actor_template
  compile_actor_template_lem input h =
      let (u, p, h1) = >>=-some (input_is_consistent codec checks digests input) _ h in
      let (m, q, h2) = >>=-some (config_material codec checks digests input.candidate) _ h1 in
      let (digest, r, h3) = >>=-some (value_of (compute_configuration_digest digests m)) _ h2 in
      let (v, t, h4) =
        >>=-some (guard (checks.snapshot_ok (new_snapshot codec checks digests input m digest))) _
          h3 in
      subst (IsCompiled input) (some-eq h4) (record {
        snapshot_id = refl;
        project_id = refl;
        source_template = refl;
        created_at = refl;
        pinned = source_bricks-PinsCandidate input.candidate;
        material = config_material-IsMaterial input.candidate q;
        digest = value_of-some _ r;
        well_formed = guard-some _ t;
      })
