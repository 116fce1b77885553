-- ===== src/Actor/Tests.antt =====
-- Validation, revising and compiling at fixed inputs: apps/runtime-server/src/modules/actor.
use ai_block.Prelude.{
  ℕ, ◌+◌, ◌==◌, String, same_text, Text, codes, true, Option, none, some, List, [], ◌∷◌,
  if◌then◌else◌, returns, ◌≡◌, refl, sym, ap, subst, arith, IsSorted, count, insert_sorted, sort,
  unique, text_ltb, digits,
}
use ai_block.Project.Values.{
  BrickKind, BrickStatus, DefinitionBrickRevision, decode_stored_project, decode_stored_revision,
  decode_stored_summary,
}
use ai_block.Actor.Values.{
  ExactBrickRef, BindingResult, BrickPromptBody, Digests, TemplateMetadata, TemplateSpec,
  ConfigurationDigestMaterial, canonicalize_text, strip_byte_order_mark, replace_line_ends,
  bind_definition_brick_ref, compute_configuration_digest, compute_template_revision_digest,
}
use ai_block.Actor.Canonical.{HasOneMark, HasOneMarks}
use ai_block.Actor.Report.{
  PublicIssue, PublicIssue-discrete, StableIssueCode, plain_issue, same_issue, not_after, indexed,
  sort_and_deduplicate_issues, report_for,
}
use ai_block.Actor.Report.Order.{issue_le, sort_and_deduplicate_issues_lem}
use ai_block.Actor.Slots.{
  ResolvedActorTemplateCandidate, prompt_descriptors, descriptors_for, duplicate_prompt_issues,
}
use ai_block.Actor.Validation.{
  ValidationPorts, BodyCodec, Provenance, WorkspaceResolution, agrees, advance, check_revision,
  judge_bound, judge, resolve_all,
}
use ai_block.Actor.Candidate.{
  ActorTemplateValidationOutcome, ValidateActorTemplateCandidate, prompt_issues, run_validator,
  check_backend_body, check_backend, check_provider, check_providers, check_toolset_body,
  check_toolset, check_compatibility, check_workspace_body, check_workspace, assemble, conclude,
  resolve_candidate,
}
use ai_block.Actor.Validated.{IsValidated, resolve_candidate_lem}
use ai_block.Actor.Compiler.{
  CompilerChecks, ActorCompilerInput, ActorConfigSnapshot, source_bricks_from, source_bricks,
  normalized_body, normalized_sys_prompt, normalized_initial_prompt, all_defined, valid_revision,
  valid_revisions, valid_head, input_is_consistent, config_material, compile_actor_template,
}
use ai_block.Actor.Compiled.{some-eq, IsMaterial, IsCompiled, compile_actor_template_lem}
use ai_block.Actor.Compiles.{PartsAreAccepted, DecodesAgain, SnapshotOf, validated_compiles}
use ai_block.Actor.Revisions.{
  ActorTemplateRevisionView, authored_spec_from_revision, template_revision_digest_matches,
  decode_all, authored_material, configuration_digest_for, revision_view,
}
use ai_block.Actor.Digests.{config_digests_agree, revision_view-authored}
use ai_block.Actor.Unit.{
  ActorTemplateSummary, ActorTemplateRevisionWriteResult, ActorTemplateCreateResult,
  ActorTemplateArchiveResult, ActorConfigSnapshotWriteResult, ProjectResourceReservation,
  ActorUnitOfWork, ActorUnitOfWorkPort, IsUnitOfWork, ActorModulePorts, ActorApplicationError,
  Outcome,
}
use ai_block.Actor.Application.{
  ReviseActorTemplateCommand, ActorTemplateCompileCommand, revise, compile_and_persist,
}
use ai_block.Actor.Revising.{RevisedOr, revise_lem}
use ai_block.Project.Tests.{ports as project_ports, no_faults, with_brick}
use ai_block.Project.Exact.{IsExact}
use ai_block.Project.Application.{
  BrickAndRevision, read_exact_definition_brick_revision, run_in_transaction,
  create_definition_brick, candidate, create_project_op, creating_project, creating_brick,
  find_project, exact_found, new_revision, reading_exact, require_revision_integrity,
  require_summary, verify_body, verify_digest,
}
use ai_block.Project.Sql.{
  run, bind, select_project, execute, insert_project, insert_aggregate, insert_revision,
  select_revision, select_summary,
}
use ai_block.Project.Repositories.{create_project, create_brick, find_revision, find_summary}
use ai_block.Actor.Resolver.{
  answer, resolved_of, resolve_exact, service, command_of, resolve_exact_lem,
}
use ai_block.Actor.Compiling.{PersistedOr, compile_and_persist_lem}

-- Bricks 1 to 5 of every project, one of each kind
abbrev kind_of : ℕ → BrickKind
kind_of id =
    if id == 1
    then BrickKind.sys_prompt
    else if id == 2
    then BrickKind.prompt
    else if id == 3
    then BrickKind.backend
    else if id == 4
    then BrickKind.toolset
    else BrickKind.runtime_config

abbrev brick : ℕ → ℕ → ℕ → DefinitionBrickRevision
brick project_id id revision = record {
  revision_uid = 10 + id;
  project_id = project_id;
  brick_id = id;
  kind = kind_of id;
  revision = revision;
  body = "b";
  digest = "b";
  created_at = 7;
}

abbrev codec : BodyCodec
codec = record {
  revision_ok = λ r. true;
  definition_brick_digest = λ kind body. returns body;
  sys_prompt = λ body. some (codes body);
  prompt = λ body. some (BrickPromptBody.text (codes body));
  backend = λ body. some (record { adapter_id = 1; model_id = "m"; config = body });
  toolset = λ body.
      some (
        record { provider_id = 1; config = body } ∷ record { provider_id = 2; config = body } ∷ []);
  runtime_config = λ body. some (record { root_id = 1; relative_working_directory = "w" });
}

abbrev ports : ValidationPorts
ports = record {
  resolve_exact = λ project_id ref. returns (some (brick project_id ref.id ref.revision));
  find_backend_validator = λ id. returns (some (λ body. returns []));
  find_tool_provider_validator = λ id. returns (some (λ provider. returns []));
  compatibility = λ backend toolset. returns [];
  resolve_working_directory =
      λ project_id workspace. returns (WorkspaceResolution.resolved 1 "w" "/r/w");
}

abbrev checks : CompilerChecks
checks = record {
  snapshot_id_ok = λ n. true;
  timestamp_ok = λ n. true;
  project_id_ok = λ n. true;
  template_id_ok = λ n. true;
  human_readable_id_ok = λ n. true;
  positive_revision_ok = λ n. true;
  revision_digest_ok = λ d. true;
  ref_ok = λ r. true;
  part_ok = λ p. true;
  snapshot_ok = λ s. true;
}

abbrev digests : Digests
digests = record { sha256_configuration = λ m. returns "c"; sha256_revision = λ m. returns "r" }

abbrev ref_to : ℕ → ExactBrickRef
ref_to id = record { id = id; revision = 1 }

abbrev spec : TemplateSpec
spec = record {
  system_prompt = ref_to 1 ∷ [];
  initial_prompt = ref_to 2 ∷ [];
  backend = ref_to 3;
  toolset = ref_to 4;
  runtime_config = ref_to 5;
}

abbrev metadata : TemplateMetadata
metadata = record { display_name = "t"; description = ""; labels = "{}" }

abbrev command : ValidateActorTemplateCandidate
command = record { project_id = 1; requested_template_id = 6; metadata = metadata; spec = spec }

-- The backend was persisted with its uid and its digest.
abbrev persisted : Provenance
persisted path =
    if same_text path (codes "/backend/ref")
    then some (record {
      project_id = 1;
      brick_id = 3;
      revision = 1;
      kind = BrickKind.backend;
      revision_uid = 13;
      digest = "b";
    })
    else none

abbrev resolved_candidate : ResolvedActorTemplateCandidate
resolved_candidate = record {
  project_id = 1;
  system_prompts = record { authored = ref_to 1; revision = brick 1 1 1 } ∷ [];
  initial_prompts = record { authored = ref_to 2; revision = brick 1 2 1 } ∷ [];
  backend = record { authored = ref_to 3; revision = brick 1 3 1 };
  toolset = record { authored = ref_to 4; revision = brick 1 4 1 };
  runtime_config = record { authored = ref_to 5; revision = brick 1 5 1 };
  working_directory = "/r/w";
}

abbrev valid_outcome : ActorTemplateValidationOutcome
valid_outcome = record {
  report = record { valid = true; issues = [] };
  resolved = some resolved_candidate;
}

resolves : resolve_candidate codec ports persisted command ≡ returns valid_outcome
unfolding same_text resolve_candidate resolve_all descriptors_for prompt_descriptors judge
    judge_bound bind_definition_brick_ref check_revision agrees check_backend check_backend_body
    run_validator check_toolset check_toolset_body check_providers check_provider
    check_compatibility check_workspace assemble check_workspace_body conclude prompt_issues indexed
    not_after report_for same_issue sort_and_deduplicate_issues duplicate_prompt_issues advance
    digits text_ltb insert_sorted sort unique
resolves = refl

resolve_candidate_lem_example :
    (c : ResolvedActorTemplateCandidate) × (valid_outcome.resolved ≡ some c)
    × IsValidated codec ports persisted 1 spec c
resolve_candidate_lem_example =
    resolve_candidate_lem codec ports persisted command {outcome = valid_outcome} resolves refl

abbrev input : ActorCompilerInput
input = record {
  snapshot_id = 20;
  created_at = 8;
  source_template = record {
    template_uid = 9;
    human_readable_id = 6;
    revision = 1;
    revision_digest = "r";
  };
  candidate = resolved_candidate;
}

text_parts :
    (body : String) (value : BrickPromptBody)
    → codec.prompt body ≡ some value
    → PartsAreAccepted checks value
unfolding PartsAreAccepted
text_parts body value e = subst (PartsAreAccepted checks) (some-eq e) tt

again : DecodesAgain checks codec spec
again = record {
  system_prompt = (refl, tt);
  initial_prompt = (refl, tt);
  backend = refl;
  toolset = refl;
  runtime_config = refl;
  parts = text_parts;
}

head_is_valid : valid_head codec checks digests input ≡ some tt
unfolding valid_head
head_is_valid = refl

validated_compiles_example :
    (m : ConfigurationDigestMaterial) × IsMaterial codec checks digests resolved_candidate m
    × SnapshotOf codec checks digests input m
        (compute_configuration_digest digests m)
        (compile_actor_template codec checks digests input)
validated_compiles_example =
    validated_compiles codec checks digests ports persisted command input {outcome = valid_outcome}
      again resolves refl refl head_is_valid

abbrev snapshot : ActorConfigSnapshot
snapshot = record {
  head = record {
    snapshot_id = 20;
    project_id = 1;
    source_template = input.source_template;
    config_digest = "c";
    created_at = 8;
  };
  source_bricks =
      record { slot = BrickKind.sys_prompt; order = some 0; revision_uid = 11; digest = "b" }
      ∷ record { slot = BrickKind.prompt; order = some 0; revision_uid = 12; digest = "b" }
      ∷ record { slot = BrickKind.backend; order = none; revision_uid = 13; digest = "b" }
      ∷ record { slot = BrickKind.toolset; order = none; revision_uid = 14; digest = "b" }
      ∷ record { slot = BrickKind.runtime_config; order = none; revision_uid = 15; digest = "b" }
      ∷ [];
  resolved = record {
    system_prompts = codes "b" ∷ [];
    initial_prompts = BrickPromptBody.text (codes "b") ∷ [];
    backend = record { adapter_id = 1; model_id = "m"; config = "b" };
    tool_providers =
        record { provider_id = 1; config = "b" } ∷ record { provider_id = 2; config = "b" } ∷ [];
    working_directory = "/r/w";
  };
}

compiles : compile_actor_template codec checks digests input ≡ some snapshot
unfolding compile_actor_template input_is_consistent valid_head valid_revision valid_revisions
    config_material all_defined normalized_sys_prompt normalized_initial_prompt normalized_body
    canonicalize_text strip_byte_order_mark replace_line_ends compute_configuration_digest unique
    source_bricks source_bricks_from
compiles = refl

compile_actor_template_lem_example : IsCompiled codec checks digests input snapshot
compile_actor_template_lem_example = compile_actor_template_lem codec checks digests input compiles

abbrev view : ActorTemplateRevisionView
view = record {
  template_uid = 9;
  template_id = 6;
  project_id = 1;
  revision = 1;
  revision_digest = "r";
  config_digest = "c";
  metadata = metadata;
  spec = record {
    system_prompt = record { ref = ref_to 1; uid = 11; digest = "b" } ∷ [];
    initial_prompt = record { ref = ref_to 2; uid = 12; digest = "b" } ∷ [];
    backend = record { ref = ref_to 3; uid = 13; digest = "b" };
    toolset = record { ref = ref_to 4; uid = 14; digest = "b" };
    runtime_config = record { ref = ref_to 5; uid = 15; digest = "b" };
  };
  status = BrickStatus.active;
  created_at = 7;
}

views : revision_view codec digests 9 6 command resolved_candidate 1 7 ≡ returns (some view)
unfolding revision_view configuration_digest_for authored_material decode_all
    compute_configuration_digest compute_template_revision_digest
views = refl

no_system_marks : (t : Text) → codec.sys_prompt "b" ≡ some t → HasOneMark t
unfolding canonicalize_text strip_byte_order_mark replace_line_ends
no_system_marks t h = subst HasOneMark (some-eq h) refl

no_initial_marks : (b : BrickPromptBody) → codec.prompt "b" ≡ some b → HasOneMarks b
unfolding canonicalize_text strip_byte_order_mark replace_line_ends
no_initial_marks b h = subst HasOneMarks (some-eq h) refl

config_digests_agree_example : snapshot.head.config_digest ≡ view.config_digest
config_digests_agree_example =
    config_digests_agree codec checks digests 9 6 command 1 7 input {view = view} {s = snapshot}
      views compiles (no_system_marks, tt) (no_initial_marks, tt)

validated_here : IsValidated codec ports persisted 1 spec resolved_candidate
validated_here =
    let (c, e, v) =
      resolve_candidate_lem codec ports persisted command {outcome = valid_outcome} resolves refl in
    subst (IsValidated codec ports persisted 1 spec) (sym (some-eq e)) v

revision_view-authored_example :
    (authored_spec_from_revision view ≡ spec)
    × (view.metadata ≡ metadata)
    × (template_revision_digest_matches codec digests view ≡ returns true)
revision_view-authored_example =
    revision_view-authored codec digests ports persisted 9 6 command resolved_candidate 1 7
      {view = view} validated_here views

-- Two issues at one path, the first of them raised twice, and one at an earlier path
abbrev raised : List PublicIssue
raised =
    plain_issue StableIssueCode.unknown_field (codes "/b")
    ∷ plain_issue StableIssueCode.schema_invalid (codes "/b")
    ∷ plain_issue StableIssueCode.unknown_field (codes "/b")
    ∷ plain_issue StableIssueCode.ref_not_found (codes "/a")
    ∷ []

sorts :
    sort_and_deduplicate_issues raised
    ≡ plain_issue StableIssueCode.ref_not_found (codes "/a")
      ∷ plain_issue StableIssueCode.schema_invalid (codes "/b")
      ∷ plain_issue StableIssueCode.unknown_field (codes "/b")
      ∷ []
unfolding sort_and_deduplicate_issues indexed sort insert_sorted not_after text_ltb unique
    same_issue PublicIssue-discrete native.Mathlib.Decide.ℕ_discrete
sorts = refl

sort_and_deduplicate_issues_lem_example :
    IsSorted issue_le (sort_and_deduplicate_issues raised)
    × ((issue : PublicIssue)
        → count same_issue issue (sort_and_deduplicate_issues raised)
          ≡ (if count same_issue issue raised == 0 then 0 else 1))
sort_and_deduplicate_issues_lem_example = sort_and_deduplicate_issues_lem raised

-- A store of one template
record Store : Type 0 where
  summary : Option ActorTemplateSummary
  views : ℕ → Option ActorTemplateRevisionView
  saved : List ActorConfigSnapshot

abbrev template : ActorTemplateSummary
template = record {
  template_uid = 9;
  template_id = 6;
  project_id = 1;
  display_name = "t";
  current_revision = 1;
  status = BrickStatus.active;
  created_at = 7;
}

abbrev store : Store
store = record {
  summary = some template;
  views = λ n. if n == 1 then some view else none;
  saved = [];
}

abbrev uow : ActorUnitOfWork Store
uow = record {
  reserve = λ p t s. (s, returns ProjectResourceReservation.occupied);
  list_summaries = λ p s. (s, returns (some (template ∷ [])));
  find_summary = λ p t s. (s, returns s.summary);
  find_revision = λ p t n s. (s, returns (s.views n));
  list_revision_summaries = λ p t s. (s, returns none);
  create = λ v s. (s, returns ActorTemplateCreateResult.resource_id_conflict);
  append_revision = λ v n s. (
    record s {
      summary = some (record template { current_revision = v.revision });
      views = λ m. if m == v.revision then some v else s.views m;
    },
    returns ActorTemplateRevisionWriteResult.appended,
  );
  archive = λ p t n s. (s, returns ActorTemplateArchiveResult.not_found);
  save = λ c s. (record s { saved = c ∷ s.saved }, returns ActorConfigSnapshotWriteResult.created);
}

abbrev settle : {A : Type 0} → Store → Store × Outcome A → Store × Outcome A
settle s (t, Outcome.done a) = (t, Outcome.done a)
settle s (t, Outcome.aborted code) = (s, Outcome.aborted code)
settle s (t, Outcome.failed) = (s, Outcome.failed)

abbrev port : ActorUnitOfWorkPort Store
port = record { run = λ A work s. settle s (work s) }

settle-done :
    {A : Type 0} (s t : Store) (a : A) (x : Store × Outcome A)
    → settle s x ≡ (t, Outcome.done a)
    → x ≡ (t, Outcome.done a)
settle-done s t a (u, Outcome.done b) h = h
settle-done s t a (u, Outcome.aborted code) h = absurd (ground (arith, ap (λ p. p.1) h))
settle-done s t a (u, Outcome.failed) h = absurd (ground (arith, ap (λ p. p.1) h))

settle-aborted :
    {A : Type 0} (s t : Store) (code : ActorApplicationError) (x : Store × Outcome A)
    → settle s x ≡ (t, Outcome.aborted code)
    → t ≡ s
settle-aborted s t code (u, Outcome.done b) h = absurd (ground (arith, ap (λ p. p.1) h))
settle-aborted s t code (u, Outcome.aborted c) h = sym (ap (λ p. p.0) h)
settle-aborted s t code (u, Outcome.failed) h = absurd (ground (arith, ap (λ p. p.1) h))

settle-failed :
    {A : Type 0} (s t : Store) (x : Store × Outcome A) → settle s x ≡ (t, Outcome.failed) → t ≡ s
settle-failed s t (u, Outcome.done b) h = absurd (ground (arith, ap (λ p. p.1) h))
settle-failed s t (u, Outcome.aborted c) h = absurd (ground (arith, ap (λ p. p.1) h))
settle-failed s t (u, Outcome.failed) h = sym (ap (λ p. p.0) h)

law : IsUnitOfWork port
law = record {
  commits = λ A work s t a h. settle-done s t a (work s) h;
  aborts = λ A work s t code h. settle-aborted s t code (work s) h;
  fails = λ A work s t h. settle-failed s t (work s) h;
}

abbrev module_ports : ActorModulePorts
module_ports = record {
  codec = codec;
  checks = checks;
  digests = digests;
  validation = ports;
  candidate_error = λ c. none;
  now = returns 7;
  new_template_uid = λ p t. returns 9;
  new_snapshot_id = λ p. returns 20;
  id_text = λ n. n ∷ [];
}

abbrev revise_command : ReviseActorTemplateCommand
revise_command = record {
  project_id = 1;
  template_id = 6;
  base_revision = 1;
  metadata = metadata;
  spec = spec;
}

revise_lem_example :
    RevisedOr module_ports uow port law revise_command store
      (revise module_ports uow port revise_command store).0
      (revise module_ports uow port revise_command store).1
revise_lem_example = revise_lem module_ports uow port law revise_command store

abbrev compile_command : ActorTemplateCompileCommand
compile_command = record { project_id = 1; template_id = 6; revision = 1 }

compile_and_persist_lem_example :
    PersistedOr module_ports uow port law compile_command store
      (compile_and_persist module_ports uow port compile_command store).0
      (compile_and_persist module_ports uow port compile_command store).1
compile_and_persist_lem_example =
    compile_and_persist_lem module_ports uow port law compile_command store

abbrev stored_revision : DefinitionBrickRevision
stored_revision = record {
  revision_uid = 4;
  project_id = 1;
  brick_id = 2;
  kind = BrickKind.prompt;
  revision = 1;
  body = "{}";
  digest = "{}";
  created_at = 8;
}

resolves_stored :
    resolve_exact
      (λ result. true)
      (service (λ result. true) project_ports no_faults with_brick)
      1
      (ref_to 2)
    ≡ returns (some stored_revision)
unfolding resolve_exact resolved_of answer read_exact_definition_brick_revision run_in_transaction
    run create_definition_brick candidate create_project_op creating_project bind create_project
    select_project execute insert_project creating_brick find_project decode_stored_project
    exact_found new_revision reading_exact require_revision_integrity require_summary verify_body
    verify_digest create_brick find_revision find_summary insert_aggregate insert_revision
    select_revision select_summary decode_stored_revision decode_stored_summary
resolves_stored = refl

resolve_exact_lem_example :
    (found : BrickAndRevision) × (found.revision ≡ stored_revision)
    × IsExact project_ports no_faults with_brick.committed
        (command_of (λ result. true) project_ports no_faults with_brick 1 (ref_to 2))
        found
    × (bind_definition_brick_ref 1 (ref_to 2) (some stored_revision)
        ≡ BindingResult.resolved (ref_to 2) 4 "{}")
resolve_exact_lem_example =
    resolve_exact_lem (λ result. true) project_ports no_faults with_brick 1 (ref_to 2)
      {r = stored_revision} resolves_stored
