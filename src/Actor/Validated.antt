-- ===== src/Actor/Validated.antt =====
-- A valid report comes with a candidate, and what that candidate is: `resolveCandidate` of
-- validation.ts in apps/runtime-server/src/modules/actor.
use ai_block.Prelude.{
  ℕ, String, true, Option, some, List, [], ◌∷◌, ◌++◌, returns, >>=-returns, ◌≡◌, refl, sym, ap,
  Bool-cases, inl, inr, ◌∙◌, codes,
}
use ai_block.Actor.Values.{ToolProviderBrickConfig, BackendBrickBody, Workspace, TemplateSpec}
use ai_block.Actor.Report.{PublicIssue, report_for, ActorTemplateValidationReport}
use ai_block.Actor.Report.Order.{report_for-valid}
use ai_block.Actor.Slots.{
  RefSlot, ResolvedActorTemplateBrick, ResolvedActorTemplateCandidate, BySlot, no_entries,
  descriptors_for, system_prompt_descriptors, initial_prompt_descriptors, backend_descriptor,
  toolset_descriptor, runtime_config_descriptor, duplicate_prompt_issues,
}
use ai_block.Actor.Validation.{ValidationPorts, BodyCodec, Provenance, Progress, resolve_all}
use ai_block.Actor.Candidate.{
  ActorTemplateValidationOutcome, ValidateActorTemplateCandidate, first, assemble, conclude,
  prompt_issues, check_backend, check_toolset, check_compatibility, check_workspace,
  resolve_candidate,
}
use ai_block.Actor.Resolved.{IsSound, resolve_all-Resolves}
use ai_block.Actor.Sound.{Matches, Matches-one, FillsSlots, Resolves-FillsSlots}
use ai_block.Actor.Checks.{
  append-eq-nil, returns-eq, IsFresh, descriptors_for-IsFresh, AllDecode, prompt_issues-AllDecode,
  Accepts, AreDistinct, AllAccepted, Resolves, check_backend-Accepts, check_toolset-Accepts,
  check_compatibility-Accepts, check_workspace-Resolves,
}

module _ (codec : BodyCodec) (ports : ValidationPorts) (provenance : Provenance) where
  -- The bricks are sound for the references of the specification, in its order, and no prompt is
  -- named twice; every body decodes and is accepted by the validators that are registered for it;
  -- and the working directory is the one that the workspace resolves to.
  pub record IsValidated (project_id : ℕ) (spec : TemplateSpec) (c : ResolvedActorTemplateCandidate)
      : Type 0 where
    pub project : c.project_id ≡ project_id
    pub system_prompts :
        Matches codec ports provenance project_id (system_prompt_descriptors spec) c.system_prompts
    pub initial_prompts :
        Matches codec ports provenance project_id
          (initial_prompt_descriptors spec)
          c.initial_prompts
    pub backend : IsSound codec provenance ports project_id (backend_descriptor spec) c.backend
    pub toolset : IsSound codec provenance ports project_id (toolset_descriptor spec) c.toolset
    pub runtime_config :
        IsSound codec provenance ports project_id (runtime_config_descriptor spec) c.runtime_config
    pub fresh_system_prompts : IsFresh [] spec.system_prompt
    pub fresh_initial_prompts : IsFresh [] spec.initial_prompt
    pub system_texts : AllDecode codec.sys_prompt (codes "/system_prompt") c.system_prompts
    pub initial_bodies : AllDecode codec.prompt (codes "/initial_prompt") c.initial_prompts
    pub backend_body : BackendBrickBody
    pub backend_decodes : codec.backend c.backend.revision.body ≡ some backend_body
    pub backend_accepted :
        Accepts (ports.find_backend_validator backend_body.adapter_id) backend_body
    pub providers : List ToolProviderBrickConfig
    pub toolset_decodes : codec.toolset c.toolset.revision.body ≡ some providers
    pub distinct : AreDistinct providers
    pub providers_accepted : AllAccepted codec ports providers
    pub compatible : ports.compatibility backend_body providers ≡ returns []
    pub workspace : Workspace
    pub workspace_decodes : codec.runtime_config c.runtime_config.revision.body ≡ some workspace
    pub directory : Resolves codec ports project_id workspace c.working_directory

assemble-some :
    (project_id : ℕ) (entries : BySlot ResolvedActorTemplateBrick)
    (b t r : ResolvedActorTemplateBrick) (directory : String) (o : Option String)
    → entries RefSlot.backend ≡ b ∷ []
    → entries RefSlot.toolset ≡ t ∷ []
    → entries RefSlot.runtime_config ≡ r ∷ []
    → o ≡ some directory
    → assemble project_id entries
        (first (entries RefSlot.backend))
        (first (entries RefSlot.toolset))
        (first (entries RefSlot.runtime_config))
        o
      ≡ some (record {
        project_id = project_id;
        system_prompts = entries RefSlot.system_prompt;
        initial_prompts = entries RefSlot.initial_prompt;
        backend = b;
        toolset = t;
        runtime_config = r;
        working_directory = directory;
      })
unfolding assemble
assemble-some project_id entries b t r directory o eb et er eo = rw (eb, et, er, eo)

conclude-report :
    (project_id : ℕ) (entries : BySlot ResolvedActorTemplateBrick) (directory : Option String)
    (report : ActorTemplateValidationReport)
    → (conclude project_id entries directory report).report ≡ report
unfolding conclude
conclude-report project_id entries directory report = elim (Bool-cases report.valid) [
  | inl e ↦ rw e
  | inr e ↦ rw e
]

conclude-resolved :
    (project_id : ℕ) (entries : BySlot ResolvedActorTemplateBrick) (directory : Option String)
    (report : ActorTemplateValidationReport)
    → report.valid ≡ true
    → (conclude project_id entries directory report).resolved
      ≡ assemble project_id entries
          (first (entries RefSlot.backend))
          (first (entries RefSlot.toolset))
          (first (entries RefSlot.runtime_config))
          directory
unfolding conclude
conclude-resolved project_id entries directory report h = rw h

module _ (codec : BodyCodec) (ports : ValidationPorts) (provenance : Provenance)
    (command : ValidateActorTemplateCandidate) where
  -- The candidate, where nothing was pushed
  checked-IsValidated :
      (entries : BySlot ResolvedActorTemplateBrick)
      {out_backend : List PublicIssue × Option BackendBrickBody}
      {out_toolset : List PublicIssue × Option (List ToolProviderBrickConfig)}
      {compatible : List PublicIssue} {out_workspace : List PublicIssue × Option String}
      → FillsSlots codec ports provenance command.project_id command.spec entries
      → duplicate_prompt_issues no_entries (descriptors_for command.spec) ≡ []
      → prompt_issues codec.sys_prompt (codes "/system_prompt") (entries RefSlot.system_prompt) ≡ []
      → prompt_issues codec.prompt (codes "/initial_prompt") (entries RefSlot.initial_prompt) ≡ []
      → check_backend codec ports (first (entries RefSlot.backend)) ≡ returns out_backend
      → out_backend.0 ≡ []
      → check_toolset codec ports (first (entries RefSlot.toolset)) ≡ returns out_toolset
      → out_toolset.0 ≡ []
      → check_compatibility codec ports out_backend.1 out_toolset.1 ≡ returns compatible
      → compatible ≡ []
      → check_workspace codec ports command.project_id (first (entries RefSlot.runtime_config))
        ≡ returns out_workspace
      → out_workspace.0 ≡ []
      → (c : ResolvedActorTemplateCandidate) × (assemble command.project_id entries
            (first (entries RefSlot.backend))
            (first (entries RefSlot.toolset))
            (first (entries RefSlot.runtime_config))
            out_workspace.1
          ≡ some c)
        × IsValidated codec ports provenance command.project_id command.spec c
  checked-IsValidated entries {out_workspace = ow} f dup sys init hb zb ht zt hc zc hw zw =
      let (b, eb, sound_b) = Matches-one codec ports provenance command.project_id _ _ f.backend in
      let (t, et, sound_t) = Matches-one codec ports provenance command.project_id _ _ f.toolset in
      let (r, er, sound_r) =
        Matches-one codec ports provenance command.project_id _ _ f.runtime_config in
      let (body, db, ob, accepted) = check_backend-Accepts codec ports b (rw eb at hb) zb in
      let (providers, dt, ot, distinct, all) =
        check_toolset-Accepts codec ports t (rw et at ht) zt in
      let (workspace, dw, directory, ow_eq, resolves) =
        check_workspace-Resolves codec ports command.project_id r (rw er at hw) zw in
      let (fresh_system, fresh_initial) = descriptors_for-IsFresh command.spec dup in
      (
        _,
        assemble-some command.project_id entries b t r directory ow.1 eb et er ow_eq,
        record {
          project = refl;
          system_prompts = f.system_prompts;
          initial_prompts = f.initial_prompts;
          backend = sound_b;
          toolset = sound_t;
          runtime_config = sound_r;
          fresh_system_prompts = fresh_system;
          fresh_initial_prompts = fresh_initial;
          system_texts = prompt_issues-AllDecode codec.sys_prompt _ _ sys;
          initial_bodies = prompt_issues-AllDecode codec.prompt _ _ init;
          backend_body = body;
          backend_decodes = db;
          backend_accepted = accepted;
          providers = providers;
          toolset_decodes = dt;
          distinct = distinct;
          providers_accepted = all;
          compatible =
              check_compatibility-Accepts codec ports body providers
                (rw (ob, ot) at hc ∙ ap returns zc);
          workspace = workspace;
          workspace_decodes = dw;
          directory = resolves;
        },
      )

  -- What is pushed, in order
  abbrev raised :
      (progress : Progress) (backend toolset compatible workspace : List PublicIssue)
      → List PublicIssue
  raised (issues, entries) backend toolset compatible workspace =
      issues
      ++ (prompt_issues codec.sys_prompt (codes "/system_prompt") (entries RefSlot.system_prompt)
          ++ prompt_issues codec.prompt (codes "/initial_prompt") (entries RefSlot.initial_prompt))
      ++ backend
      ++ toolset
      ++ compatible
      ++ workspace

  concluded :
      (progress : Progress) (backend : List PublicIssue × Option BackendBrickBody)
      (toolset : List PublicIssue × Option (List ToolProviderBrickConfig))
      (compatible : List PublicIssue) (workspace : List PublicIssue × Option String)
      {outcome : ActorTemplateValidationOutcome}
      → resolve_all codec ports provenance command.project_id
          (descriptors_for command.spec)
          (duplicate_prompt_issues no_entries (descriptors_for command.spec), no_entries)
        ≡ returns progress
      → check_backend codec ports (first (progress.1 RefSlot.backend)) ≡ returns backend
      → check_toolset codec ports (first (progress.1 RefSlot.toolset)) ≡ returns toolset
      → check_compatibility codec ports backend.1 toolset.1 ≡ returns compatible
      → check_workspace codec ports command.project_id (first (progress.1 RefSlot.runtime_config))
        ≡ returns workspace
      → conclude command.project_id progress.1 workspace.1
          (report_for (raised progress backend.0 toolset.0 compatible workspace.0))
        ≡ outcome
      → outcome.report.valid ≡ true
      → (c : ResolvedActorTemplateCandidate) × (outcome.resolved ≡ some c)
        × IsValidated codec ports provenance command.project_id command.spec c
  concluded (issues, entries) backend toolset compatible workspace {outcome} hp hb ht hc hw made v =
      let report =
        report_for (raised (issues, entries) backend.0 toolset.0 compatible workspace.0) in
      let same : report ≡ outcome.report =
        sym (conclude-report command.project_id entries workspace.1 report)
        ∙ ap (λ o. o.report) made in
      let valid : report.valid ≡ true = ap (λ r. r.valid) same ∙ v in
      let z = (report_for-valid _).0 valid in
      let (z4, z_workspace) = append-eq-nil _ workspace.0 z in
      let (z3, z_compatible) = append-eq-nil _ compatible z4 in
      let (z2, z_toolset) = append-eq-nil _ toolset.0 z3 in
      let (z1, z_backend) = append-eq-nil _ backend.0 z2 in
      let (z0, z_prompts) = append-eq-nil issues _ z1 in
      let (z_system, z_initial) = append-eq-nil (prompt_issues codec.sys_prompt _ _) _ z_prompts in
      let (z_duplicates, resolves) =
        resolve_all-Resolves codec ports provenance command.project_id _ _ hp z0 in
      let slots =
        Resolves-FillsSlots codec ports provenance command.project_id command.spec entries
          resolves in
      let (c, e, validated) =
        checked-IsValidated entries slots z_duplicates z_system z_initial hb z_backend ht z_toolset
          hc z_compatible hw z_workspace in
      (
        c,
        sym (ap (λ o. o.resolved) made)
            ∙ conclude-resolved command.project_id entries workspace.1 report valid
            ∙ e,
        validated,
      )

  -- If the validation of a candidate returns and its report is valid, then it returns a resolved
  -- candidate too: the entries of each slot are, in the specification's order, the revisions that
  -- the resolver gave for its references, in the project, of the kind the slot wants, with the
  -- digest of their body; where one was persisted for the reference's path, it has the project, the
  -- brick, the number, the kind, the uid and the digest that were; no list of prompts names a
  -- revision twice; every body decodes; the backend, each of the providers, whose numbers are
  -- distinct, and their combination pass a registered validator without a finding; and the working
  -- directory is what the workspace resolves to.
  pub resolve_candidate_lem :
      {outcome : ActorTemplateValidationOutcome}
      → resolve_candidate codec ports provenance command ≡ returns outcome
      → outcome.report.valid ≡ true
      → (c : ResolvedActorTemplateCandidate) × (outcome.resolved ≡ some c)
        × IsValidated codec ports provenance command.project_id command.spec c
  unfolding resolve_candidate
  resolve_candidate_lem {outcome} h v =
      let (progress, hp, h1) =
        >>=-returns
          (resolve_all codec ports provenance command.project_id (descriptors_for command.spec)
            (duplicate_prompt_issues no_entries (descriptors_for command.spec), no_entries))
          _ h in
      let entries = progress.1 in
      let (backend, hb, h2) =
        >>=-returns (check_backend codec ports (first (entries RefSlot.backend))) _ h1 in
      let (toolset, ht, h3) =
        >>=-returns (check_toolset codec ports (first (entries RefSlot.toolset))) _ h2 in
      let (compatible, hc, h4) =
        >>=-returns (check_compatibility codec ports backend.1 toolset.1) _ h3 in
      let (workspace, hw, h5) =
        >>=-returns
          (check_workspace codec ports command.project_id (first (entries RefSlot.runtime_config)))
          _ h4 in
      concluded progress backend toolset compatible workspace hp hb ht hc hw (returns-eq h5) v
