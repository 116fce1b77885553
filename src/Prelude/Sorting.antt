-- ===== src/Prelude/Sorting.antt =====
-- `[...items].sort(compare)` for a comparison that is a total order, and filtering by a `Set` of
-- what was seen.
use Prim.Native.Nat.{ℕ, ◌+◌}
use mathlib.Core.Path.{◌≡◌, refl, ap}
use mathlib.Core.Logic.{inl, inr}
use mathlib.Core.Bool.{Bool, true, false, ◌||◌}
use mathlib.Core.List.{List, [], ◌∷◌}
use native.Mathlib.Omega.{arith}
use ai_block.Prelude.Tests.{◌==◌, if◌then◌else◌, Bool-cases}
use ai_block.Prelude.Lists.{All}

module _ {ℓ} {A : Type ℓ} (le : A → A → Bool) where
  unfoldable pub insert_sorted : A → List A → List A
  insert_sorted x [] = x ∷ []
  insert_sorted x (y ∷ ys) =
      let rest = insert_sorted x ys in if le x y then x ∷ y ∷ ys else y ∷ rest

  unfoldable pub sort : List A → List A
  sort [] = []
  sort (x ∷ xs) = insert_sorted x (sort xs)

  abbrev pub IsSorted : List A → Type ℓ
  IsSorted [] = Unit
  IsSorted (x ∷ xs) = All (λ y. le x y ≡ true) xs × IsSorted xs

module _ {ℓ κ} {A : Type ℓ} (P : A → Type κ) where
  pub All-mono {μ} : {Q : A → Type μ} (xs : List A) → ((x : A) → P x → Q x) → All P xs → All Q xs
  All-mono [] f h = tt
  All-mono (x ∷ xs) f h = (f x h.0, All-mono xs f h.1)

  All-insert_sorted :
      (le : A → A → Bool) (x : A) (ys : List A) → P x → All P ys → All P (insert_sorted le x ys)
  unfolding insert_sorted
  All-insert_sorted le x [] p h = (p, tt)
  All-insert_sorted le x (y ∷ ys) p h = elim (Bool-cases (le x y)) [
    | inl e ↦ rw e (p, h)
    | inr e ↦ rw e (h.0, All-insert_sorted le x ys p h.1)
  ]

  pub All-sort : (le : A → A → Bool) (xs : List A) → All P xs → All P (sort le xs)
  unfolding sort
  All-sort le [] h = tt
  All-sort le (x ∷ xs) h = All-insert_sorted le x (sort le xs) h.0 (All-sort le xs h.1)

-- The laws of a comparison
pub record IsTotalOrder {ℓ} {A : Type ℓ} (le : A → A → Bool) : Type ℓ where
  pub total : (a b : A) → le a b ≡ false → le b a ≡ true
  pub trans : (a b c : A) → le a b ≡ true → le b c ≡ true → le a c ≡ true

module _ {ℓ} {A : Type ℓ} (le : A → A → Bool) (o : IsTotalOrder le) where
  insert_sorted-IsSorted :
      (x : A) (ys : List A) → IsSorted le ys → IsSorted le (insert_sorted le x ys)
  unfolding insert_sorted
  insert_sorted-IsSorted x [] s = (tt, tt)
  insert_sorted-IsSorted x (y ∷ ys) s = elim (Bool-cases (le x y)) [
    | inl e ↦ rw e ((e, All-mono (λ z. le y z ≡ true) ys (λ z p. o.trans x y z e p) s.0), s)
    | inr e ↦ rw e (
      All-insert_sorted (λ z. le y z ≡ true) le x ys (o.total x y e) s.0,
      insert_sorted-IsSorted x ys s.1,
    )
  ]

  pub sort-IsSorted : (xs : List A) → IsSorted le (sort le xs)
  unfolding sort
  sort-IsSorted [] = tt
  sort-IsSorted (x ∷ xs) = insert_sorted-IsSorted x (sort le xs) (sort-IsSorted xs)

module _ {ℓ} {A : Type ℓ} (same : A → A → Bool) where
  abbrev pub has : A → List A → Bool
  has x [] = false
  has x (y ∷ ys) = same x y || has x ys

  abbrev pub count : A → List A → ℕ
  count x [] = 0
  count x (y ∷ ys) = (if same x y then 1 else 0) + count x ys

  -- The first of each, in order; `seen` is the set of those before.
  unfoldable pub unique : (seen xs : List A) → List A
  unique seen [] = []
  unique seen (x ∷ xs) =
      let skip = unique seen xs in
      let keep = unique (x ∷ seen) xs in if has x seen then skip else x ∷ keep

-- The laws of a test for equality
pub record IsSame {ℓ} {A : Type ℓ} (same : A → A → Bool) : Type ℓ where
  pub self : (a : A) → same a a ≡ true
  pub eq : (a b : A) → same a b ≡ true → a ≡ b

module _ {ℓ} {A : Type ℓ} (same : A → A → Bool) where
  pub count-insert_sorted :
      (le : A → A → Bool) (z x : A) (ys : List A)
      → count same z (insert_sorted le x ys) ≡ count same z (x ∷ ys)
  unfolding insert_sorted
  count-insert_sorted le z x [] = refl
  count-insert_sorted le z x (y ∷ ys) = ground (arith, count-insert_sorted le z x ys)

  -- Sorting keeps the number of occurrences.
  pub count-sort :
      (le : A → A → Bool) (z : A) (xs : List A) → count same z (sort le xs) ≡ count same z xs
  unfolding sort
  count-sort le z [] = refl
  count-sort le z (x ∷ xs) =
      ground (arith, count-insert_sorted le z x (sort le xs), count-sort le z xs)

module _ {ℓ} {A : Type ℓ} (same : A → A → Bool) (s : IsSame same) where
  -- What is in the list and was not seen occurs once.
  pub count-unique :
      (z : A) (seen xs : List A)
      → count same z (unique same seen xs)
        ≡ (if has same z seen then 0 else if count same z xs == 0 then 0 else 1)
  unfolding unique
  count-unique z seen [] = ground arith
  count-unique z seen (x ∷ xs) = elim (Bool-cases (same z x)) [
    | inl e ↦
        let q : has same z seen ≡ has same x seen = ap (λ a. has same a seen) (s.eq z x e) in
        ground (arith, e, q, count-unique z seen xs, count-unique z (x ∷ seen) xs)
    | inr e ↦ ground (arith, e, count-unique z seen xs, count-unique z (x ∷ seen) xs)
  ]

module _ {ℓ κ} {A : Type ℓ} (P : A → Type κ) where
  pub All-unique : (same : A → A → Bool) (seen xs : List A) → All P xs → All P (unique same seen xs)
  unfolding unique
  All-unique same seen [] h = tt
  All-unique same seen (x ∷ xs) h = elim (Bool-cases (has same x seen)) [
    | inl e ↦ rw e (All-unique same seen xs h.1)
    | inr e ↦ rw e (h.0, All-unique same (x ∷ seen) xs h.1)
  ]

pub unique-IsSorted {ℓ} :
    {A : Type ℓ} (le same : A → A → Bool) (seen xs : List A)
    → IsSorted le xs
    → IsSorted le (unique same seen xs)
unfolding unique
unique-IsSorted le same seen [] h = tt
unique-IsSorted le same seen (x ∷ xs) h = elim (Bool-cases (has same x seen)) [
  | inl e ↦ rw e (unique-IsSorted le same seen xs h.1)
  | inr e ↦ rw e (
    All-unique (λ y. le x y ≡ true) same (x ∷ seen) xs h.0,
    unique-IsSorted le same (x ∷ seen) xs h.1,
  )
]
