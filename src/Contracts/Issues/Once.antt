-- ===== src/Contracts/Issues/Once.antt =====
-- That `normalizeIssues` tells each issue once and in order:
-- packages/runtime-contracts/src/validation/decode.ts.
use ai_block.Prelude.{
  Text, codes, Bool, true, false, List, [], ◌∷◌, ◌++◌, map, ◌||◌, ◌==◌, if◌then◌else◌, ◌≡◌, refl,
  sym, ap, ap₂, ◌↔◌, ◌∙◌, subst, arith, Bool-cases, inl, inr, same_text, same_text_self,
  same_text_eq, by_text_total, by_text_trans, IsSorted, IsTotalOrder, IsSame, count, count-sort,
  sort-IsSorted,
}
use ai_block.Contracts.Issues.{
  SchemaIssueRule, rule_text, ErrorObject, SchemaIssue, issue_of, issue_key, same_key, set, collect,
  issue_le, normalize_issues,
}

has_nul : Text → Bool
has_nul [] = false
has_nul (c ∷ s) = c == 0 || has_nul s

has_nul-left : (r p s : Text) → same_text r (p ++ 0 ∷ s) ≡ true → has_nul r ≡ true
unfolding has_nul same_text
has_nul-left [] [] s h = absurd (ground (arith, h))
has_nul-left [] (b ∷ p) s h = absurd (ground (arith, h))
has_nul-left (c ∷ r) [] s h = ground (arith, h)
has_nul-left (c ∷ r) (b ∷ p) s h =
    let later : same_text r (p ++ 0 ∷ s) ≡ true = ground (arith, h) in
    ground (arith, has_nul-left r p s later)

has_nul-right : (r p s : Text) → same_text (p ++ 0 ∷ s) r ≡ true → has_nul r ≡ true
unfolding has_nul same_text
has_nul-right [] [] s h = absurd (ground (arith, h))
has_nul-right [] (b ∷ p) s h = absurd (ground (arith, h))
has_nul-right (c ∷ r) [] s h = ground (arith, h)
has_nul-right (c ∷ r) (b ∷ p) s h =
    let later : same_text (p ++ 0 ∷ s) r ≡ true = ground (arith, h) in
    ground (arith, has_nul-right r p s later)

-- The last nul of a key stands before the rule.
key-split :
    (p q r s : Text)
    → has_nul r ≡ false
    → has_nul s ≡ false
    → same_text (p ++ 0 ∷ r) (q ++ 0 ∷ s) ≡ true
    → (p ≡ q) × (r ≡ s)
unfolding same_text
key-split [] [] r s g h e = (refl, same_text_eq r s e)
key-split [] (b ∷ q) r s g h e =
    let later : same_text r (q ++ 0 ∷ s) ≡ true = ground (arith, e) in
    absurd (ground (arith, has_nul-left r q s later, g))
key-split (a ∷ p) [] r s g h e =
    let later : same_text (p ++ 0 ∷ r) s ≡ true = ground (arith, e) in
    absurd (ground (arith, has_nul-right s p r later, h))
key-split (a ∷ p) (b ∷ q) r s g h e =
    let c : a ≡ b = ground (arith, e) in
    let later : same_text (p ++ 0 ∷ r) (q ++ 0 ∷ s) ≡ true = ground (arith, e) in
    let (i, j) = key-split p q r s g h later in (rw (c, i) refl, j)

rule-nul : (rule : SchemaIssueRule) → has_nul (rule_text rule) ≡ false
unfolding has_nul
rule-nul SchemaIssueRule.required = refl
rule-nul SchemaIssueRule.additional_property = refl
rule-nul SchemaIssueRule.type = refl
rule-nul SchemaIssueRule.literal = refl
rule-nul SchemaIssueRule.format = refl
rule-nul SchemaIssueRule.range = refl
rule-nul SchemaIssueRule.structure = refl
rule-nul SchemaIssueRule.reference = refl

-- The rule that a string is
rule_of : Text → SchemaIssueRule
rule_of s =
    if same_text s (codes "required")
    then SchemaIssueRule.required
    else if same_text s (codes "additional_property")
    then SchemaIssueRule.additional_property
    else if same_text s (codes "type")
    then SchemaIssueRule.type
    else if same_text s (codes "literal")
    then SchemaIssueRule.literal
    else if same_text s (codes "format")
    then SchemaIssueRule.format
    else if same_text s (codes "range")
    then SchemaIssueRule.range
    else if same_text s (codes "structure")
    then SchemaIssueRule.structure
    else SchemaIssueRule.reference

rule_of-rule_text : (rule : SchemaIssueRule) → rule_of (rule_text rule) ≡ rule
unfolding rule_of same_text
rule_of-rule_text SchemaIssueRule.required = refl
rule_of-rule_text SchemaIssueRule.additional_property = refl
rule_of-rule_text SchemaIssueRule.type = refl
rule_of-rule_text SchemaIssueRule.literal = refl
rule_of-rule_text SchemaIssueRule.format = refl
rule_of-rule_text SchemaIssueRule.range = refl
rule_of-rule_text SchemaIssueRule.structure = refl
rule_of-rule_text SchemaIssueRule.reference = refl

rule_text-injective : (a b : SchemaIssueRule) → rule_text a ≡ rule_text b → a ≡ b
rule_text-injective a b e = sym (rule_of-rule_text a) ∙ ap rule_of e ∙ rule_of-rule_text b

same_key_eq : (a b : SchemaIssue) → same_key a b ≡ true → a ≡ b
unfolding issue_key
same_key_eq a b h =
    let (i, j) =
      key-split a.path b.path (rule_text a.rule) (rule_text b.rule) (rule-nul a.rule)
        (rule-nul b.rule) h in
    ap₂ (λ p r. record { path = p; rule = r }) i (rule_text-injective a.rule b.rule j)

same_key-IsSame : IsSame same_key
same_key-IsSame = record { self = λ a. same_text_self (issue_key a); eq = same_key_eq }

count-set :
    (z issue : SchemaIssue) (entries : List SchemaIssue)
    → count same_key z (set issue entries) ≡ (
        if same_key z issue
        then (if count same_key z entries == 0 then 1 else count same_key z entries)
        else count same_key z entries)
unfolding set
count-set z issue [] = ground arith
count-set z issue (i ∷ entries) = elim (Bool-cases (same_key i issue)) [
  | inl e ↦ ground (arith, e, ap (same_key z) (same_key_eq i issue e))
  | inr e ↦ elim (Bool-cases (same_key z issue)) [
    | inl f ↦
        let g : same_key i z ≡ false =
          subst (λ x. same_key i x ≡ false) (sym (same_key_eq z issue f)) e in
        elim (Bool-cases (same_key z i)) [
          | inl k ↦
              let m : same_key i i ≡ false =
                subst (λ x. same_key i x ≡ false) (same_key_eq z i k) g in
              absurd (ground (arith, m, same_key-IsSame.self i))
          | inr k ↦ ground (arith, e, f, k, count-set z issue entries)
        ]
    | inr f ↦ ground (arith, e, f, count-set z issue entries)
  ]
]

count-collect :
    (z : SchemaIssue) (entries : List SchemaIssue) (errors : List ErrorObject)
    → count same_key z (collect entries errors) ≡ (
        if count same_key z entries == 0
        then (if count same_key z (map issue_of errors) == 0 then 0 else 1)
        else count same_key z entries)
unfolding collect
count-collect z entries [] = ground arith
count-collect z entries (error ∷ errors) = ground (
  arith,
  count-set z (issue_of error) entries,
  count-collect z (set (issue_of error) entries) errors,
)

issue_le-IsTotalOrder : IsTotalOrder issue_le
unfolding issue_le
issue_le-IsTotalOrder = record {
  total = λ l r h.
      by_text_total l.path r.path _ _
        (by_text_total (rule_text l.rule) (rule_text r.rule) true true (λ e. refl)) h;
  trans = λ l m r g h.
      by_text_trans l.path m.path r.path _ _ _
        (by_text_trans (rule_text l.rule) (rule_text m.rule) (rule_text r.rule) true true true
          (λ e e'. refl))
        g h;
}

-- The issues of a mismatch stand in the order of their paths, and at one path of their rules; and
-- a path with a rule stands among them once if an error has them, however many do, and else not at
-- all. The key of an issue in the map, its path and its rule with a nul between them, tells it from
-- every other issue, whatever characters its path has.
pub normalize_issues_lem :
    (errors : List ErrorObject)
    → IsSorted issue_le (normalize_issues errors)
      × ((issue : SchemaIssue)
          → count same_key issue (normalize_issues errors)
            ≡ (if count same_key issue (map issue_of errors) == 0 then 0 else 1))
      × ((a b : SchemaIssue) → (same_key a b ≡ true) ↔ (a ≡ b))
unfolding normalize_issues
normalize_issues_lem errors = (
  sort-IsSorted issue_le issue_le-IsTotalOrder (collect [] errors),
  λ issue. count-sort same_key issue_le issue (collect [] errors) ∙ count-collect issue [] errors,
  λ a b. (same_key_eq a b, λ e. subst (λ x. same_key a x ≡ true) e (same_key-IsSame.self a)),
)
