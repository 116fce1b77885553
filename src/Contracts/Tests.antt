-- ===== src/Contracts/Tests.antt =====
-- Examples and witnesses for the surrogate check, the pointer segments and the issues of
-- packages/runtime-contracts/src/validation/decode.ts.
use ai_block.Prelude.{
  Text, codes, true, false, none, some, List, [], ◌∷◌, ◌≡◌, refl, ◌⊎◌, ◌↔◌, map, count, IsSorted,
  ◌==◌, if◌then◌else◌, text_ltb, same_text, sort, insert_sorted,
}
use ai_block.Contracts.Surrogates.{has_lone_surrogate, IsUtf16, IsCutOff, has_lone_surrogate_lem}
use ai_block.Contracts.Pointer.{
  replace_all, pointer_segment, child_path, read_segment, read_segment-pointer_segment,
}
use ai_block.Contracts.Issues.{
  SchemaIssueRule, ErrorObject, SchemaIssue, includes, issue_rule, issue_path, issue_key, same_key,
  issue_of, set, collect, issue_le, normalize_issues,
}
use ai_block.Contracts.Issues.Once.{normalize_issues_lem}

abbrev two_surrogates : Text
two_surrogates = 0xd83d ∷ 0xde00 ∷ []

has_lone_surrogate_lem_example :
    (has_lone_surrogate two_surrogates ≡ false) ↔ (IsUtf16 two_surrogates ⊎ IsCutOff two_surrogates)
has_lone_surrogate_lem_example = has_lone_surrogate_lem two_surrogates

-- A high surrogate alone is let through, and before another unit it is not.
high_at_the_end : has_lone_surrogate (0xd800 ∷ []) ≡ false
unfolding has_lone_surrogate
high_at_the_end = refl

high_before_a_unit : has_lone_surrogate (0xd800 ∷ b'a' ∷ []) ≡ true
unfolding has_lone_surrogate
high_before_a_unit = refl

child_path_example : child_path (codes "/a") (codes "b/~") ≡ codes "/a/b~1~0"
unfolding child_path pointer_segment replace_all
child_path_example = refl

read_segment-pointer_segment_example :
    read_segment (pointer_segment (codes "a~/b~1")) ≡ some (codes "a~/b~1")
read_segment-pointer_segment_example = read_segment-pointer_segment (codes "a~/b~1")

abbrev missing_name : ErrorObject
missing_name = record {
  keyword = codes "required";
  instance_path = codes "/spec";
  missing_property = some (codes "name");
  additional_property = none;
}

abbrev wrong_type : ErrorObject
wrong_type = record {
  keyword = codes "type";
  instance_path = codes "/id";
  missing_property = none;
  additional_property = none;
}

abbrev three_errors : List ErrorObject
three_errors = missing_name ∷ wrong_type ∷ missing_name ∷ []

normalize_three_errors :
    normalize_issues three_errors
    ≡ record { path = codes "/id"; rule = SchemaIssueRule.type }
      ∷ record { path = codes "/spec/name"; rule = SchemaIssueRule.required }
      ∷ []
unfolding normalize_issues collect set issue_le issue_rule issue_path issue_key includes child_path
    pointer_segment replace_all text_ltb same_text sort insert_sorted
normalize_three_errors = refl

normalize_issues_lem_example :
    IsSorted issue_le (normalize_issues three_errors)
    × ((issue : SchemaIssue)
        → count same_key issue (normalize_issues three_errors)
          ≡ (if count same_key issue (map issue_of three_errors) == 0 then 0 else 1))
    × ((a b : SchemaIssue) → (same_key a b ≡ true) ↔ (a ≡ b))
normalize_issues_lem_example = normalize_issues_lem three_errors
