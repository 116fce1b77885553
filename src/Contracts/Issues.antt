-- ===== src/Contracts/Issues.antt =====
-- `issueRule`, `issuePath` and `normalizeIssues`: packages/runtime-contracts/src/validation/decode.ts,
-- with the rules of error/error.ts. The errors come from the third-party validator.
pub mod Once
use ai_block.Prelude.{
  ℕ, Text, codes, Bool, true, false, Option, none, some, List, [], ◌∷◌, ◌++◌, ◌||◌, if◌then◌else◌,
  same_text, by_text, sort,
}
use ai_block.Contracts.Pointer.{child_path}

pub data SchemaIssueRule : Type 0 where
  required additional_property type literal format range structure reference : SchemaIssueRule

-- The string that a rule is
abbrev pub rule_text : SchemaIssueRule → Text
rule_text SchemaIssueRule.required = codes "required"
rule_text SchemaIssueRule.additional_property = codes "additional_property"
rule_text SchemaIssueRule.type = codes "type"
rule_text SchemaIssueRule.literal = codes "literal"
rule_text SchemaIssueRule.format = codes "format"
rule_text SchemaIssueRule.range = codes "range"
rule_text SchemaIssueRule.structure = codes "structure"
rule_text SchemaIssueRule.reference = codes "reference"

-- What is read of the validator's `ErrorObject`; a parameter that is no string is `none`.
pub record ErrorObject : Type 0 where
  pub keyword : Text
  pub instance_path : Text
  pub missing_property : Option Text
  pub additional_property : Option Text

pub record SchemaIssue : Type 0 where
  pub path : Text
  pub rule : SchemaIssueRule

-- `keywords.includes(keyword)`
unfoldable pub includes : List Text → Text → Bool
includes [] keyword = false
includes (k ∷ keywords) keyword = same_text k keyword || includes keywords keyword

abbrev pub range_keywords : List Text
range_keywords =
    codes "minimum"
    ∷ codes "maximum"
    ∷ codes "exclusiveMinimum"
    ∷ codes "exclusiveMaximum"
    ∷ codes "multipleOf"
    ∷ codes "minLength"
    ∷ codes "maxLength"
    ∷ codes "minItems"
    ∷ codes "maxItems"
    ∷ codes "minProperties"
    ∷ codes "maxProperties"
    ∷ []

-- `issueRule`. A keyword with a rule of structure of its own has the rule of any other keyword.
unfoldable pub issue_rule : Text → SchemaIssueRule
issue_rule keyword =
    if same_text keyword (codes "required")
    then SchemaIssueRule.required
    else if same_text keyword (codes "additionalProperties")
    then SchemaIssueRule.additional_property
    else if includes (codes "const" ∷ codes "enum" ∷ []) keyword
    then SchemaIssueRule.literal
    else if includes (codes "pattern" ∷ codes "format" ∷ codes "propertyNames" ∷ []) keyword
    then SchemaIssueRule.format
    else if includes range_keywords keyword
    then SchemaIssueRule.range
    else if same_text keyword (codes "$ref")
    then SchemaIssueRule.reference
    else if same_text keyword (codes "type")
    then SchemaIssueRule.type
    else SchemaIssueRule.structure

abbrev or_path : Text → Option Text → Text
or_path path none = path
or_path path (some key) = child_path path key

-- `issuePath`
unfoldable pub issue_path : ErrorObject → Text
issue_path error =
    if same_text error.keyword (codes "required")
    then or_path error.instance_path error.missing_property
    else if same_text error.keyword (codes "additionalProperties")
    then or_path error.instance_path error.additional_property
    else error.instance_path

abbrev pub issue_of : ErrorObject → SchemaIssue
issue_of error = record { path = issue_path error; rule = issue_rule error.keyword }

-- The key of an issue in the map
unfoldable pub issue_key : SchemaIssue → Text
issue_key issue = issue.path ++ 0 ∷ rule_text issue.rule

abbrev pub same_key : SchemaIssue → SchemaIssue → Bool
same_key a b = same_text (issue_key a) (issue_key b)

-- `unique.set(key, issue)`: an entry is under the key of its issue, so that the map is the list of
-- its values; a key that is there keeps its place.
unfoldable pub set : SchemaIssue → List SchemaIssue → List SchemaIssue
set issue [] = issue ∷ []
set issue (i ∷ entries) =
    let later = set issue entries in if same_key i issue then issue ∷ entries else i ∷ later

-- The loop of `normalizeIssues`
unfoldable pub collect : List SchemaIssue → List ErrorObject → List SchemaIssue
collect entries [] = entries
collect entries (error ∷ errors) = collect (set (issue_of error) entries) errors

-- The comparison of `normalizeIssues` is not above zero.
unfoldable pub issue_le : SchemaIssue → SchemaIssue → Bool
issue_le left right =
    by_text left.path right.path (by_text (rule_text left.rule) (rule_text right.rule) true)

-- `normalizeIssues`
unfoldable pub normalize_issues : List ErrorObject → List SchemaIssue
normalize_issues errors = sort issue_le (collect [] errors)
