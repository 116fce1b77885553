-- ===== src/Actor/Report.antt =====
-- The issues of a validation and its report: validation.ts in apps/runtime-server/src/modules/actor.
pub mod Order
use native.Mathlib.Decide.{ℕ_discrete}
use ai_block.Prelude.{
  ℕ, suc, is_yes, Text, codes, text_ltb, Bool, true, false, Option, none, some, List, [], ◌∷◌, map,
  leb, length, if◌then◌else◌, sort, unique, ◌==◌, after_prefix, starts_with, same_text, by_text,
  ◌&&◌, ◌||◌, ltb,
}
use ai_block.Project.Values.{BrickKind}

pub data StableIssueCode : Type 0 where
  missing_required_component duplicate_brick_ref ref_not_found : StableIssueCode
  brick_kind_mismatch backend_config_invalid tool_provider_invalid : StableIssueCode
  backend_toolset_incompatible workspace_root_not_found workspace_path_escape : StableIssueCode
  unsupported_schema_version unknown_field schema_invalid : StableIssueCode

-- The string that a code is
abbrev pub code_text : StableIssueCode → Text
code_text StableIssueCode.missing_required_component = codes "missing_required_component"
code_text StableIssueCode.duplicate_brick_ref = codes "duplicate_brick_ref"
code_text StableIssueCode.ref_not_found = codes "ref_not_found"
code_text StableIssueCode.brick_kind_mismatch = codes "brick_kind_mismatch"
code_text StableIssueCode.backend_config_invalid = codes "backend_config_invalid"
code_text StableIssueCode.tool_provider_invalid = codes "tool_provider_invalid"
code_text StableIssueCode.backend_toolset_incompatible = codes "backend_toolset_incompatible"
code_text StableIssueCode.workspace_root_not_found = codes "workspace_root_not_found"
code_text StableIssueCode.workspace_path_escape = codes "workspace_path_escape"
code_text StableIssueCode.unsupported_schema_version = codes "unsupported_schema_version"
code_text StableIssueCode.unknown_field = codes "unknown_field"
code_text StableIssueCode.schema_invalid = codes "schema_invalid"

pub record PublicIssue : Type 0 where
  pub code : StableIssueCode
  pub path : Text
  pub resource_id : Option ℕ
  pub revision : Option ℕ
  pub expected_kind : Option BrickKind
  pub actual_kind : Option BrickKind
  pub provider_id : Option ℕ

-- `pushIssue` without further fields
abbrev pub plain_issue : StableIssueCode → Text → PublicIssue
plain_issue code path = record {
  code = code;
  path = path;
  resource_id = none;
  revision = none;
  expected_kind = none;
  actual_kind = none;
  provider_id = none;
}

unfoldable pub PublicIssue-discrete : Discrete PublicIssue
PublicIssue-discrete = hlevel (ℕ_discrete)

-- The members of an issue have one order, so that its JSON text stands for its members.
unfoldable pub same_issue : PublicIssue → PublicIssue → Bool
same_issue a b = is_yes (PublicIssue-discrete a b)

-- The comparison of `sortAndDeduplicateIssues` is not above zero.
unfoldable pub not_after : PublicIssue × ℕ → PublicIssue × ℕ → Bool
not_after (left, i) (right, j) =
    by_text left.path right.path (by_text (code_text left.code) (code_text right.code) (leb i j))

-- `issues.map((issue, index) => ({ issue, index }))`, from an index on
unfoldable pub indexed : ℕ → List PublicIssue → List (PublicIssue × ℕ)
indexed index [] = []
indexed index (issue ∷ issues) = (issue, index) ∷ indexed (suc index) issues

-- `sortAndDeduplicateIssues`
unfoldable pub sort_and_deduplicate_issues : List PublicIssue → List PublicIssue
sort_and_deduplicate_issues issues =
    unique same_issue [] (map (λ p. p.0) (sort not_after (indexed 0 issues)))

pub record ActorTemplateValidationReport : Type 0 where
  pub valid : Bool
  pub issues : List PublicIssue

abbrev report_of : List PublicIssue → ActorTemplateValidationReport
report_of [] = record { valid = true; issues = [] }
report_of (issue ∷ issues) = record { valid = false; issues = issue ∷ issues }

-- `reportFor`
unfoldable pub report_for : List PublicIssue → ActorTemplateValidationReport
report_for issues = report_of (sort_and_deduplicate_issues issues)

-- `manifestPath`
unfoldable pub manifest_path : Text → Text
manifest_path path =
    if same_text (codes "/spec/spec") path
    then codes "/"
    else if starts_with (codes "/spec/spec/") path
    then after_prefix (codes "/spec/spec") path
    else if same_text (codes "/spec") path
    then codes "/"
    else if starts_with (codes "/spec/") path
    then after_prefix (codes "/spec") path
    else if ltb 0 (length path)
    then path
    else codes "/"
