-- ===== src/Actor/Candidate.antt =====
-- `resolveCandidate` and its entry points: validation.ts in apps/runtime-server/src/modules/actor.
use ai_block.Prelude.{
  ℕ, String, Text, codes, Option, none, some, List, [], ◌∷◌, ◌++◌, map, not, ◌&&◌, if◌then◌else◌,
  Attempt, returns, ◌>>=◌, has, ◌==◌, same_text,
}
use ai_block.Actor.Values.{
  BackendBrickBody, ToolProviderBrickConfig, Workspace, TemplateMetadata, TemplateSpec,
}
use ai_block.Actor.Report.{
  PublicIssue, StableIssueCode, plain_issue, ActorTemplateValidationReport, report_for,
  manifest_path,
}
use ai_block.Actor.Slots.{
  RefSlot, ResolvedActorTemplateBrick, ResolvedActorTemplateCandidate, BySlot, no_entries,
  descriptors_for, duplicate_prompt_issues,
}
use ai_block.Actor.Validation.{
  ValidationPorts, BodyCodec, Provenance, ValidatorFinding, Validator, WorkspaceResolution,
  resolve_all,
}

pub record ActorTemplateValidationOutcome : Type 0 where
  pub report : ActorTemplateValidationReport
  pub resolved : Option ResolvedActorTemplateCandidate

abbrev pub first : {A : Type 0} → List A → Option A
first [] = none
first (x ∷ xs) = some x

-- A rule of the schema, where the code looks at it
abbrev pub additional_property : Text
additional_property = codes "additional_property"

-- An issue of a decoding error: the members that are strings
pub record RawIssue : Type 0 where
  pub path : Option Text
  pub rule : Option Text

-- `decoded.error.details`, with its `issues` if they are an array, and its `path` if it is a string
pub record DecodeError : Type 0 where
  pub issues : List RawIssue
  pub path : Option Text

pub record ShapeIssue : Type 0 where
  pub path : Text
  pub rule : Text

-- `shapeIssues`
unfoldable pub shape_issues : List RawIssue → List ShapeIssue
shape_issues [] = []
shape_issues (issue ∷ issues) =
    let rest = shape_issues issues in
    elim issue.path [
      | none ↦ rest
      | some path ↦ elim issue.rule [
        | none ↦ rest
        | some rule ↦ record { path = manifest_path path; rule = rule } ∷ rest
      ]
    ]

-- `materializationPath`
abbrev pub materialization_path : DecodeError → Text
materialization_path e = elim e.path [ none ↦ codes "/" | some path ↦ manifest_path path ]

abbrev required_component_paths : List Text
required_component_paths =
    codes "/system_prompt"
    ∷ codes "/initial_prompt"
    ∷ codes "/backend"
    ∷ codes "/toolset"
    ∷ codes "/runtime_config"
    ∷ []

-- `shapeCode`
unfoldable pub shape_code : ShapeIssue → StableIssueCode
shape_code issue =
    if same_text issue.rule (codes "additional_property")
    then StableIssueCode.unknown_field
    else if same_text issue.path (codes "/schema_version")
    then StableIssueCode.unsupported_schema_version
    else if same_text issue.rule (codes "required")
        && has same_text issue.path required_component_paths
    then StableIssueCode.missing_required_component
    else StableIssueCode.schema_invalid

abbrev pub shape_or_root : DecodeError → List ShapeIssue → List PublicIssue
shape_or_root e [] = plain_issue StableIssueCode.schema_invalid (materialization_path e) ∷ []
shape_or_root e (issue ∷ issues) = map (λ i. plain_issue (shape_code i) i.path) (issue ∷ issues)

-- `shapeReport`, of an input that could not be decoded
unfoldable pub shape_report : DecodeError → ActorTemplateValidationReport
shape_report e = report_for (shape_or_root e (shape_issues e.issues))

-- A `ValidateActorTemplateCandidate`, without its operation and its base revision, which the
-- validation does not read
pub record ValidateActorTemplateCandidate : Type 0 where
  pub project_id : ℕ
  pub requested_template_id : ℕ
  pub metadata : TemplateMetadata
  pub spec : TemplateSpec

-- What an input is to `decodeContract`
pub data CandidateInput : Type 0 where
  candidate : ValidateActorTemplateCandidate → CandidateInput
  malformed : DecodeError → CandidateInput

-- `validateSysPromptBody` and `validatePromptBody`, from what the decoder returned
abbrev pub body_issues : {A : Type 0} → Text → Option A → List PublicIssue
body_issues path none = plain_issue StableIssueCode.schema_invalid path ∷ []
body_issues path (some body) = []

-- Their loops
unfoldable pub prompt_issues :
    {A : Type 0} → (String → Option A) → Text → List ResolvedActorTemplateBrick → List PublicIssue
prompt_issues decode path [] = []
prompt_issues decode path (entry ∷ entries) =
    body_issues path (decode entry.revision.body) ++ prompt_issues decode path entries

abbrev pub provider_issue : ToolProviderBrickConfig → PublicIssue
provider_issue provider = record {
  code = StableIssueCode.tool_provider_invalid;
  path = codes "/toolset/ref";
  resource_id = none;
  revision = none;
  expected_kind = none;
  actual_kind = none;
  provider_id = some provider.provider_id;
}

abbrev pub backend_issue : PublicIssue
backend_issue = plain_issue StableIssueCode.backend_config_invalid (codes "/backend/ref")

abbrev pub each_finding : PublicIssue → List ValidatorFinding → List PublicIssue
each_finding issue findings = map (λ f. issue) findings

-- `validator === undefined`, or the loop over its findings
unfoldable pub run_validator :
    {A : Type 0} → PublicIssue → A → Option (Validator A) → Attempt (List PublicIssue)
run_validator issue body none = returns (issue ∷ [])
run_validator issue body (some validate) = do
  findings ← validate body
  returns (each_finding issue findings)

-- The issues about the workspace, and the working directory
abbrev pub workspace_outcome : WorkspaceResolution → List PublicIssue × Option String
workspace_outcome WorkspaceResolution.root_not_found =
    (plain_issue StableIssueCode.workspace_root_not_found (codes "/runtime_config/ref") ∷ [], none)
workspace_outcome WorkspaceResolution.path_escape =
    (plain_issue StableIssueCode.workspace_path_escape (codes "/runtime_config/ref") ∷ [], none)
workspace_outcome (WorkspaceResolution.resolved root relative directory) = ([], some directory)

-- The candidate, if no part of it is undefined
unfoldable pub assemble :
    ℕ
    → BySlot ResolvedActorTemplateBrick
    → (backend toolset runtime_config : Option ResolvedActorTemplateBrick) → Option String
    → Option ResolvedActorTemplateCandidate
assemble project_id entries (some backend) (some toolset) (some runtime_config) (some directory) =
    some (record {
      project_id = project_id;
      system_prompts = entries RefSlot.system_prompt;
      initial_prompts = entries RefSlot.initial_prompt;
      backend = backend;
      toolset = toolset;
      runtime_config = runtime_config;
      working_directory = directory;
    })
assemble project_id entries _ _ _ _ = none

-- The last lines of `resolveCandidate`
unfoldable pub conclude :
    ℕ
    → BySlot ResolvedActorTemplateBrick
    → Option String
    → ActorTemplateValidationReport
    → ActorTemplateValidationOutcome
conclude project_id entries directory report =
    if not report.valid then record { report = report; resolved = none } else record {
      report = report;
      resolved =
          assemble project_id entries (first (entries RefSlot.backend))
            (first (entries RefSlot.toolset)) (first (entries RefSlot.runtime_config)) directory;
    }

module _ (codec : BodyCodec) (ports : ValidationPorts) where
  -- The issues of a decoded backend, and its body
  unfoldable pub check_backend_body :
      Option BackendBrickBody → Attempt (List PublicIssue × Option BackendBrickBody)
  check_backend_body none = returns (backend_issue ∷ [], none)
  check_backend_body (some body) = do
    validator ← ports.find_backend_validator body.adapter_id
    issues ← run_validator backend_issue body validator
    returns (issues, some body)

  unfoldable pub check_backend :
      Option ResolvedActorTemplateBrick → Attempt (List PublicIssue × Option BackendBrickBody)
  check_backend none = returns ([], none)
  check_backend (some entry) = check_backend_body (codec.backend entry.revision.body)

  -- One provider that is not a duplicate
  unfoldable pub check_provider : ToolProviderBrickConfig → Attempt (List PublicIssue)
  check_provider provider = do
    validator ← ports.find_tool_provider_validator provider.provider_id
    run_validator (provider_issue provider) provider validator

  unfoldable pub check_providers :
      (seen : List ℕ) → List ToolProviderBrickConfig → Attempt (List PublicIssue)
  check_providers seen [] = returns []
  check_providers seen (provider ∷ providers) =
      let skip = check_providers seen providers in
      let next = check_providers (provider.provider_id ∷ seen) providers in
      if has (λ a b. a == b) provider.provider_id seen
      then (skip >>= λ rest. returns (provider_issue provider ∷ rest))
      else (check_provider provider >>= λ issues. next >>= λ rest. returns (issues ++ rest))

  -- The issues of a decoded toolset, and its providers
  unfoldable pub check_toolset_body :
      Option (List ToolProviderBrickConfig)
      → Attempt (List PublicIssue × Option (List ToolProviderBrickConfig))
  check_toolset_body none =
      returns (plain_issue StableIssueCode.tool_provider_invalid (codes "/toolset/ref") ∷ [], none)
  check_toolset_body (some providers) = do
    issues ← check_providers [] providers
    returns (issues, some providers)

  unfoldable pub check_toolset :
      Option ResolvedActorTemplateBrick
      → Attempt (List PublicIssue × Option (List ToolProviderBrickConfig))
  check_toolset none = returns ([], none)
  check_toolset (some entry) = check_toolset_body (codec.toolset entry.revision.body)

  unfoldable pub check_compatibility :
      Option BackendBrickBody → Option (List ToolProviderBrickConfig) → Attempt (List PublicIssue)
  check_compatibility (some backend) (some toolset) = do
    findings ← ports.compatibility backend toolset
    returns (
        each_finding
          (plain_issue StableIssueCode.backend_toolset_incompatible (codes "/toolset/ref"))
          findings)
  check_compatibility _ _ = returns []

  -- The issues of a decoded runtime configuration, and the working directory
  unfoldable pub check_workspace_body :
      ℕ → Option Workspace → Attempt (List PublicIssue × Option String)
  check_workspace_body project_id none =
      returns (plain_issue StableIssueCode.schema_invalid (codes "/runtime_config/ref") ∷ [], none)
  check_workspace_body project_id (some workspace) = do
    resolution ← ports.resolve_working_directory project_id workspace
    returns (workspace_outcome resolution)

  unfoldable pub check_workspace :
      ℕ → Option ResolvedActorTemplateBrick → Attempt (List PublicIssue × Option String)
  check_workspace project_id none = returns ([], none)
  check_workspace project_id (some entry) =
      check_workspace_body project_id (codec.runtime_config entry.revision.body)

  -- `resolveCandidate`
  unfoldable pub resolve_candidate :
      Provenance → ValidateActorTemplateCandidate → Attempt ActorTemplateValidationOutcome
  resolve_candidate provenance command = do
    let descriptors = descriptors_for command.spec
    let duplicates = duplicate_prompt_issues no_entries descriptors
    progress ←
        resolve_all codec ports provenance command.project_id descriptors (duplicates, no_entries)
    let entries = progress.1
    let prompts =
        prompt_issues codec.sys_prompt (codes "/system_prompt") (entries RefSlot.system_prompt)
        ++ prompt_issues codec.prompt (codes "/initial_prompt") (entries RefSlot.initial_prompt)
    backend ← check_backend (first (entries RefSlot.backend))
    toolset ← check_toolset (first (entries RefSlot.toolset))
    compatible ← check_compatibility backend.1 toolset.1
    workspace ← check_workspace command.project_id (first (entries RefSlot.runtime_config))
    let issues = progress.0 ++ prompts ++ backend.0 ++ toolset.0 ++ compatible ++ workspace.0
    returns (conclude command.project_id entries workspace.1 (report_for issues))

  -- `resolveAndValidateActorTemplateCandidate`
  unfoldable pub resolve_and_validate_actor_template_candidate :
      Provenance → CandidateInput → Attempt ActorTemplateValidationOutcome
  resolve_and_validate_actor_template_candidate provenance (CandidateInput.malformed e) =
      returns (record { report = shape_report e; resolved = none })
  resolve_and_validate_actor_template_candidate provenance (CandidateInput.candidate command) =
      resolve_candidate provenance command
