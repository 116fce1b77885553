-- ===== src/Actor/Report/Order.antt =====
-- The order of a report's issues, and that each stands in it once: `sortAndDeduplicateIssues` and
-- `reportFor` of validation.ts in apps/runtime-server/src/modules/actor.
use ai_block.Prelude.{
  ℕ, suc, is_yes_of, of_is_yes, Bool, true, List, [], ◌∷◌, map, leb, if◌then◌else◌, sort, unique,
  ◌==◌, ◌≡◌, refl, sym, ap, subst, arith, IsSorted, IsTotalOrder, IsSame, count, count-sort,
  count-unique, sort-IsSorted, unique-IsSorted, All, by_text, by_text_total, by_text_weaken,
  by_text_trans, ◌↔◌,
}
use ai_block.Actor.Report.{
  PublicIssue, PublicIssue-discrete, same_issue, code_text, not_after, indexed,
  sort_and_deduplicate_issues, report_for, report_of,
}

not_after-IsTotalOrder : IsTotalOrder not_after
unfolding not_after
not_after-IsTotalOrder = record {
  total = λ (l, i) (r, j) h.
      by_text_total l.path r.path _ _
        (by_text_total (code_text l.code) (code_text r.code) (leb i j) (leb j i)
          (λ e. ground arith))
        h;
  trans = λ (l, i) (m, k) (r, j) g h.
      by_text_trans l.path m.path r.path _ _ _
        (by_text_trans (code_text l.code) (code_text m.code) (code_text r.code) (leb i k) (leb k j)
          (leb i j) (λ e e'. ground arith))
        g h;
}

pub same_issue-IsSame : IsSame same_issue
unfolding same_issue
same_issue-IsSame = record {
  self = λ a. is_yes_of (PublicIssue-discrete a a) refl;
  eq = λ a b h. of_is_yes (PublicIssue-discrete a b) h;
}

-- The order of a report: by path, then by code
unfoldable pub issue_le : PublicIssue → PublicIssue → Bool
issue_le left right =
    by_text left.path right.path (by_text (code_text left.code) (code_text right.code) true)

issue_le_of_not_after : (x y : PublicIssue × ℕ) → not_after x y ≡ true → issue_le x.0 y.0 ≡ true
unfolding not_after issue_le
issue_le_of_not_after (l, i) (r, j) h =
    by_text_weaken l.path r.path _ _
      (by_text_weaken (code_text l.code) (code_text r.code) (leb i j) true (λ e. refl)) h

issues-All :
    (x : PublicIssue × ℕ) (l : List (PublicIssue × ℕ))
    → All (λ y. not_after x y ≡ true) l
    → All (λ b. issue_le x.0 b ≡ true) (map (λ p. p.0) l)
issues-All x [] h = tt
issues-All x (y ∷ l) h = (issue_le_of_not_after x y h.0, issues-All x l h.1)

issues-IsSorted :
    (l : List (PublicIssue × ℕ)) → IsSorted not_after l → IsSorted issue_le (map (λ p. p.0) l)
issues-IsSorted [] h = tt
issues-IsSorted (x ∷ l) h = (issues-All x l h.0, issues-IsSorted l h.1)

abbrev same_entry : PublicIssue × ℕ → PublicIssue × ℕ → Bool
same_entry x y = same_issue x.0 y.0

count-map :
    (x : PublicIssue × ℕ) (l : List (PublicIssue × ℕ))
    → count same_issue x.0 (map (λ p. p.0) l) ≡ count same_entry x l
count-map x [] = refl
count-map x (y ∷ l) = ground (arith, count-map x l)

count-indexed :
    (x : PublicIssue × ℕ) (k : ℕ) (l : List PublicIssue)
    → count same_entry x (indexed k l) ≡ count same_issue x.0 l
unfolding indexed
count-indexed x k [] = refl
count-indexed x k (y ∷ l) = ground (arith, count-indexed x (suc k) l)

count-sorted :
    (x : PublicIssue) (l : List PublicIssue)
    → count same_issue x (map (λ p. p.0) (sort not_after (indexed 0 l))) ≡ count same_issue x l
count-sorted x l = ground (
  arith,
  count-map (x, 0) (sort not_after (indexed 0 l)),
  count-sort same_entry not_after (x, 0) (indexed 0 l),
  count-indexed (x, 0) 0 l,
)

-- The issues of a report stand in the order of their paths, and at one path of their codes; and an
-- issue stands in it once if it was raised, however often, and else not at all.
pub sort_and_deduplicate_issues_lem :
    (issues : List PublicIssue)
    → IsSorted issue_le (sort_and_deduplicate_issues issues)
      × ((issue : PublicIssue)
          → count same_issue issue (sort_and_deduplicate_issues issues)
            ≡ (if count same_issue issue issues == 0 then 0 else 1))
unfolding sort_and_deduplicate_issues
sort_and_deduplicate_issues_lem issues = (
  unique-IsSorted issue_le same_issue [] _
      (issues-IsSorted _ (sort-IsSorted not_after not_after-IsTotalOrder (indexed 0 issues))),
  λ issue. ground (
    arith,
    count-sorted issue issues,
    count-unique same_issue same_issue-IsSame issue []
        (map (λ p. p.0) (sort not_after (indexed 0 issues))),
  ),
)

pub sorted-none :
    (issues : List PublicIssue) → sort_and_deduplicate_issues issues ≡ [] → issues ≡ []
sorted-none [] e = refl
sorted-none (issue ∷ issues) e =
    let once = (sort_and_deduplicate_issues_lem (issue ∷ issues)).1 issue in
    let none_left : count same_issue issue (sort_and_deduplicate_issues (issue ∷ issues)) ≡ 0 =
      ap (count same_issue issue) e in
    absurd (ground (arith, once, none_left, same_issue-IsSame.self issue))

report_of-valid : (l : List PublicIssue) → (report_of l).valid ≡ true → l ≡ []
report_of-valid [] h = refl
report_of-valid (issue ∷ l) h = absurd (ground arith)

none_raised : (report_for []).valid ≡ true
unfolding report_for sort_and_deduplicate_issues indexed sort unique
none_raised = refl

-- A report is valid exactly if no issue was raised.
pub report_for-valid :
    (issues : List PublicIssue) → ((report_for issues).valid ≡ true) ↔ (issues ≡ [])
unfolding report_for
report_for-valid issues = (
  λ h. sorted-none issues (report_of-valid (sort_and_deduplicate_issues issues) h),
  λ e. subst (λ l. (report_for l).valid ≡ true) (sym e) none_raised,
)
