-- ===== src/Actor/Checks.antt =====
-- What the checks of the bodies promise where they push no issue: `resolveCandidate` of
-- validation.ts in apps/runtime-server/src/modules/actor.
use ai_block.Prelude.{
  ℕ, suc, String, Text, Bool, true, false, Option, none, some, List, [], ◌∷◌, ◌++◌, map, Attempt,
  returns, >>=-returns, ◌≡◌, refl, sym, ap, subst, ◌∙◌, arith, ◌==◌, Bool-cases, inl, inr, has,
  unique, length, All,
}
use mathlib.Core.List.{append_assoc}
use ai_block.Project.Values.{BrickKind}
use ai_block.Actor.Values.{
  ExactBrickRef, ToolProviderBrickConfig, BackendBrickBody, TemplateSpec, Workspace,
}
use ai_block.Actor.Report.{PublicIssue}
use ai_block.Actor.Slots.{
  RefSlot, RefDescriptor, ResolvedActorTemplateBrick, BySlot, push_entry, same_ref, same_slot,
  is_prompt, no_entries, prompt_descriptors, descriptors_for, duplicate_prompt_issues,
}
use ai_block.Actor.Validation.{
  ValidationPorts, BodyCodec, Validator, ValidatorFinding, WorkspaceResolution,
}
use ai_block.Actor.Candidate.{
  prompt_issues, body_issues, run_validator, workspace_outcome, check_backend_body,
  check_toolset_body, check_workspace_body, check_backend, check_provider, check_providers,
  check_toolset, check_compatibility, check_workspace, each_finding, backend_issue, provider_issue,
}

pub append-eq-nil : {A : Type 0} (xs ys : List A) → xs ++ ys ≡ [] → (xs ≡ []) × (ys ≡ [])
append-eq-nil [] ys h = (refl, h)
append-eq-nil (x ∷ xs) ys h = absurd (ground arith)

pub returns-eq : {A : Type 0} {a b : A} → Attempt.returns a ≡ returns b → a ≡ b
returns-eq h = cc h

-- No reference is among those before it.
abbrev pub IsFresh : (before : List ExactBrickRef) → List ExactBrickRef → Type 0
IsFresh before [] = Unit
IsFresh before (ref ∷ refs) = (has same_ref ref before ≡ false) × IsFresh (before ++ ref ∷ []) refs

abbrev after_refs : RefSlot → BySlot ExactBrickRef → List ExactBrickRef → BySlot ExactBrickRef
after_refs slot seen [] = seen
after_refs slot seen (ref ∷ refs) = after_refs slot (push_entry seen slot ref) refs

duplicates-IsFresh :
    (slot : RefSlot) (section : Text) (kind : BrickKind) (k : ℕ) (refs : List ExactBrickRef)
    (more : List RefDescriptor) (seen : BySlot ExactBrickRef)
    → is_prompt slot ≡ true
    → same_slot slot slot ≡ true
    → duplicate_prompt_issues seen (prompt_descriptors slot section kind k refs ++ more) ≡ []
    → IsFresh (seen slot) refs × (duplicate_prompt_issues (after_refs slot seen refs) more ≡ [])
unfolding duplicate_prompt_issues prompt_descriptors
duplicates-IsFresh slot section kind k [] more seen p s h = (tt, h)
duplicates-IsFresh slot section kind k (ref ∷ refs) more seen p s h =
    elim (Bool-cases (has same_ref ref (seen slot))) [
      | inl e ↦ absurd (ground (arith, rw (p, e) at h))
      | inr e ↦
          let (fresh, rest) =
            duplicates-IsFresh slot section kind (suc k) refs more (push_entry seen slot ref) p s
              (rw (p, e) at h) in
          ((e, rw s at fresh), rest)
    ]

after_refs-other :
    (slot j : RefSlot) (seen : BySlot ExactBrickRef) (refs : List ExactBrickRef)
    → same_slot slot j ≡ false
    → after_refs slot seen refs j ≡ seen j
after_refs-other slot j seen [] h = refl
after_refs-other slot j seen (ref ∷ refs) h =
    after_refs-other slot j (push_entry seen slot ref) refs h ∙ rw h

-- Where `duplicatePromptIssues` pushes nothing, no list of prompts names a revision twice.
pub descriptors_for-IsFresh :
    (spec : TemplateSpec)
    → duplicate_prompt_issues no_entries (descriptors_for spec) ≡ []
    → IsFresh [] spec.system_prompt × IsFresh [] spec.initial_prompt
unfolding descriptors_for
descriptors_for-IsFresh spec h =
    let (system, more) =
      duplicates-IsFresh RefSlot.system_prompt _ _ 0 spec.system_prompt _ no_entries refl refl
        (rw append_assoc at h) in
    let (initial, rest) =
      duplicates-IsFresh RefSlot.initial_prompt _ _ 0 spec.initial_prompt _ _ refl refl more in
    (
      system,
      subst (λ seen. IsFresh seen spec.initial_prompt)
          (after_refs-other RefSlot.system_prompt RefSlot.initial_prompt no_entries
            spec.system_prompt refl)
          initial,
    )

module _ {A : Type 0} (decode : String → Option A) (path : Text) where
  -- Every body decodes.
  abbrev pub AllDecode : List ResolvedActorTemplateBrick → Type 0
  AllDecode = All (λ entry. (a : A) × (decode entry.revision.body ≡ some a))

  pub prompt_issues-AllDecode :
      (entries : List ResolvedActorTemplateBrick)
      → prompt_issues decode path entries ≡ []
      → AllDecode entries
  unfolding prompt_issues
  prompt_issues-AllDecode [] h = tt
  prompt_issues-AllDecode (entry ∷ entries) h =
      let (here, later) = append-eq-nil (body_issues path (decode entry.revision.body)) _ h in
      (decoded (decode entry.revision.body) here, prompt_issues-AllDecode entries later)
    where
      decoded : (o : Option A) → body_issues path o ≡ [] → (a : A) × (o ≡ some a)
      decoded none h = absurd (ground arith)
      decoded (some a) h = (a, refl)

no_findings :
    (issue : PublicIssue) (fs : List ValidatorFinding) → each_finding issue fs ≡ [] → fs ≡ []
no_findings issue [] h = refl
no_findings issue (f ∷ fs) h = absurd (ground arith)

-- A validator is registered, and finds nothing.
abbrev pub Accepts : {A : Type 0} → Attempt (Option (Validator A)) → A → Type 0
Accepts {A} registered a =
    (validate : Validator A) × (registered ≡ returns (some validate)) × (validate a ≡ returns [])

run_validator-Accepts :
    {A : Type 0} (issue : PublicIssue) (a : A) (registered : Attempt (Option (Validator A)))
    (o : Option (Validator A))
    → registered ≡ returns o
    → run_validator issue a o ≡ returns []
    → Accepts registered a
unfolding run_validator
run_validator-Accepts issue a registered none p h = absurd (ground arith)
run_validator-Accepts issue a registered (some validate) p h =
    let (fs, q, h1) = >>=-returns (validate a) _ h in
    (validate, p, q ∙ ap returns (no_findings issue fs (returns-eq h1)))

abbrev same_number : ℕ → ℕ → Bool
same_number a b = a == b

-- The numbers are pairwise distinct: what a `Set` of them holds is as many.
abbrev pub AreDistinct : List ToolProviderBrickConfig → Type 0
AreDistinct providers =
    length (unique (λ a b. a == b) [] (map (λ p. p.provider_id) providers)) ≡ length providers

module _ (codec : BodyCodec) (ports : ValidationPorts) where
  check_backend_body-Accepts :
      (o : Option BackendBrickBody) {out : List PublicIssue × Option BackendBrickBody}
      → check_backend_body codec ports o ≡ returns out
      → out.0 ≡ []
      → (body : BackendBrickBody) × (o ≡ some body)
        × (out.1 ≡ some body)
        × Accepts (ports.find_backend_validator body.adapter_id) body
  unfolding check_backend_body
  check_backend_body-Accepts none h z = absurd (ground (arith, ap (λ p. p.0) (returns-eq h)))
  check_backend_body-Accepts (some body) {out} h z =
      let (v, p, h1) = >>=-returns (ports.find_backend_validator body.adapter_id) _ h in
      let (issues, q, h2) = >>=-returns (run_validator backend_issue body v) _ h1 in
      let e = returns-eq h2 in
      (
        body,
        refl,
        sym (ap (λ p. p.1) e),
        run_validator-Accepts backend_issue body _ v p (q ∙ ap returns (ap (λ p. p.0) e ∙ z)),
      )

  pub check_backend-Accepts :
      (entry : ResolvedActorTemplateBrick) {out : List PublicIssue × Option BackendBrickBody}
      → check_backend codec ports (some entry) ≡ returns out
      → out.0 ≡ []
      → (body : BackendBrickBody) × (codec.backend entry.revision.body ≡ some body)
        × (out.1 ≡ some body)
        × Accepts (ports.find_backend_validator body.adapter_id) body
  unfolding check_backend
  check_backend-Accepts entry h z =
      check_backend_body-Accepts (codec.backend entry.revision.body) h z

  -- Each provider is accepted by its validator.
  abbrev pub AllAccepted : List ToolProviderBrickConfig → Type 0
  AllAccepted = All (λ p. Accepts (ports.find_tool_provider_validator p.provider_id) p)

  check_providers-lem :
      (seen : List ℕ) (providers : List ToolProviderBrickConfig)
      → check_providers codec ports seen providers ≡ returns []
      → (length (unique same_number seen (map (λ p. p.provider_id) providers)) ≡ length providers)
        × AllAccepted providers
  unfolding check_providers check_provider unique
  check_providers-lem seen [] h = (refl, tt)
  check_providers-lem seen (provider ∷ providers) h =
      elim (Bool-cases (has same_number provider.provider_id seen)) [
        | inl e ↦
            let (rest, p, h1) =
              >>=-returns (check_providers codec ports seen providers) _ (rw e at h) in
            absurd (ground (arith, returns-eq h1))
        | inr e ↦
            let (issues, p, h1) = >>=-returns (check_provider codec ports provider) _ (rw e at h) in
            let (rest, q, h2) =
              >>=-returns (check_providers codec ports (provider.provider_id ∷ seen) providers) _
                h1 in
            let (z1, z2) = append-eq-nil issues rest (returns-eq h2) in
            let (v, r, h3) =
              >>=-returns (ports.find_tool_provider_validator provider.provider_id) _ p in
            let (distinct, all) =
              check_providers-lem (provider.provider_id ∷ seen) providers (q ∙ ap returns z2) in
            (
              rw e (ap suc distinct),
              (
                run_validator-Accepts (provider_issue provider) provider _ v r (h3 ∙ ap returns z1),
                all,
              ),
            )
      ]

  check_toolset_body-lem :
      (o : Option (List ToolProviderBrickConfig))
      {out : List PublicIssue × Option (List ToolProviderBrickConfig)}
      → check_toolset_body codec ports o ≡ returns out
      → out.0 ≡ []
      → (providers : List ToolProviderBrickConfig) × (o ≡ some providers)
        × (out.1 ≡ some providers)
        × AreDistinct providers
        × AllAccepted providers
  unfolding check_toolset_body
  check_toolset_body-lem none h z = absurd (ground (arith, ap (λ p. p.0) (returns-eq h)))
  check_toolset_body-lem (some providers) h z =
      let (issues, p, h1) = >>=-returns (check_providers codec ports [] providers) _ h in
      let e = returns-eq h1 in
      let (distinct, all) =
        check_providers-lem [] providers (p ∙ ap returns (ap (λ p. p.0) e ∙ z)) in
      (providers, refl, sym (ap (λ p. p.1) e), distinct, all)

  pub check_toolset-Accepts :
      (entry : ResolvedActorTemplateBrick)
      {out : List PublicIssue × Option (List ToolProviderBrickConfig)}
      → check_toolset codec ports (some entry) ≡ returns out
      → out.0 ≡ []
      → (providers : List ToolProviderBrickConfig) × (codec.toolset entry.revision.body
          ≡ some providers)
        × (out.1 ≡ some providers)
        × AreDistinct providers
        × AllAccepted providers
  unfolding check_toolset
  check_toolset-Accepts entry h z = check_toolset_body-lem (codec.toolset entry.revision.body) h z

  pub check_compatibility-Accepts :
      (backend : BackendBrickBody) (toolset : List ToolProviderBrickConfig)
      → check_compatibility codec ports (some backend) (some toolset) ≡ returns []
      → ports.compatibility backend toolset ≡ returns []
  unfolding check_compatibility
  check_compatibility-Accepts backend toolset h =
      let (fs, p, h1) = >>=-returns (ports.compatibility backend toolset) _ h in
      p ∙ ap returns (no_findings _ fs (returns-eq h1))

  -- The workspace resolves to the directory.
  abbrev pub Resolves : ℕ → Workspace → String → Type 0
  Resolves project_id workspace directory =
      (root_id : ℕ) × (relative : String) × (ports.resolve_working_directory project_id workspace
        ≡ returns (WorkspaceResolution.resolved root_id relative directory))

  resolution-Resolves :
      (project_id : ℕ) (workspace : Workspace) (r : WorkspaceResolution)
      → ports.resolve_working_directory project_id workspace ≡ returns r
      → (workspace_outcome r).0 ≡ []
      → (directory : String) × ((workspace_outcome r).1 ≡ some directory)
        × Resolves project_id workspace directory
  resolution-Resolves project_id workspace WorkspaceResolution.root_not_found p z =
      absurd (ground arith)
  resolution-Resolves project_id workspace WorkspaceResolution.path_escape p z =
      absurd (ground arith)
  resolution-Resolves project_id workspace (WorkspaceResolution.resolved root relative directory) p
        z =
      (directory, refl, (root, relative, p))

  check_workspace_body-lem :
      (project_id : ℕ) (o : Option Workspace) {out : List PublicIssue × Option String}
      → check_workspace_body codec ports project_id o ≡ returns out
      → out.0 ≡ []
      → (workspace : Workspace) × (o ≡ some workspace)
        × (directory : String) × (out.1 ≡ some directory)
        × Resolves project_id workspace directory
  unfolding check_workspace_body
  check_workspace_body-lem project_id none h z =
      absurd (ground (arith, ap (λ p. p.0) (returns-eq h)))
  check_workspace_body-lem project_id (some workspace) h z =
      let (r, p, h1) = >>=-returns (ports.resolve_working_directory project_id workspace) _ h in
      let e = returns-eq h1 in
      let (directory, q, resolves) =
        resolution-Resolves project_id workspace r p (ap (λ p. p.0) e ∙ z) in
      (workspace, refl, directory, sym (ap (λ p. p.1) e) ∙ q, resolves)

  pub check_workspace-Resolves :
      (project_id : ℕ) (entry : ResolvedActorTemplateBrick) {out : List PublicIssue × Option String}
      → check_workspace codec ports project_id (some entry) ≡ returns out
      → out.0 ≡ []
      → (workspace : Workspace) × (codec.runtime_config entry.revision.body ≡ some workspace)
        × (directory : String) × (out.1 ≡ some directory)
        × Resolves project_id workspace directory
  unfolding check_workspace
  check_workspace-Resolves project_id entry h z =
      check_workspace_body-lem project_id (codec.runtime_config entry.revision.body) h z
