-- ===== src/Prelude/CodeUnits.antt =====
-- JavaScript's strings where the program walks them: their UTF-16 code units; and the order of `<`.
use Prim.Native.Nat.{ℕ, zero, suc, ◌+◌, ◌/◌, ◌%◌}
use Prim.Native.Char.{code}
use Prim.Native.String.{String}
use mathlib.Core.Path.{◌≡◌, refl, ap₂}
use mathlib.Core.Bool.{Bool, true, false, ◌&&◌}
use mathlib.Core.List.{List, [], ◌∷◌, ◌++◌}
use native.Mathlib.Omega.{arith}
use mathlib.Core.Path.{sym, subst}
use mathlib.Core.Logic.{inl, inr}
use ai_block.Prelude.Tests.{ltb, ◌==◌, if◌then◌else◌, Bool-cases}

abbrev pub Text : Type 0
Text = List ℕ

-- The code units of a literal whose characters are below 2 ^ 16
abbrev pub codes : String → Text
codes String.[] = []
codes (String.◌∷◌ c s) = code c ∷ codes s

-- `left < right`
unfoldable pub text_ltb : Text → Text → Bool
text_ltb s [] = false
text_ltb [] (b ∷ t) = true
text_ltb (a ∷ s) (b ∷ t) = let rest = text_ltb s t in if ltb a b then true else a == b && rest

pub text_ltb_irrefl : (s : Text) → text_ltb s s ≡ false
unfolding text_ltb
text_ltb_irrefl [] = refl
text_ltb_irrefl (a ∷ s) = ground (arith, text_ltb_irrefl s)

pub text_ltb_trans :
    (r s t : Text) → text_ltb r s ≡ true → text_ltb s t ≡ true → text_ltb r t ≡ true
unfolding text_ltb
text_ltb_trans r s [] p q = ground arith
text_ltb_trans r [] (c ∷ t) p q = ground arith
text_ltb_trans [] (b ∷ s) (c ∷ t) p q = refl
text_ltb_trans (a ∷ r) (b ∷ s) (c ∷ t) p q = ground (arith, text_ltb_trans r s t)

-- Two strings of which neither is before the other are one string.
pub text_ltb_tri : (s t : Text) → text_ltb s t ≡ false → text_ltb t s ≡ false → s ≡ t
unfolding text_ltb
text_ltb_tri [] [] p q = refl
text_ltb_tri [] (b ∷ t) p q = ground arith
text_ltb_tri (a ∷ s) [] p q = ground arith
text_ltb_tri (a ∷ s) (b ∷ t) p q =
    let e : a ≡ b = ground arith in
    let e' : s ≡ t = text_ltb_tri s t (ground arith) (ground arith) in ap₂ ◌∷◌ e e'

-- `` `${n}` `` for a natural number; a number has at most as many digits as its own value and one
unfoldable pub digits : ℕ → ℕ → Text
digits zero n = []
digits (suc fuel) n =
    let rest = digits fuel (n / 10) in
    if ltb n 10 then (b'0' + n) ∷ [] else rest ++ (b'0' + n % 10) ∷ []

abbrev pub decimal : ℕ → Text
decimal n = digits (suc n) n

-- `text.startsWith(prefix)`, and then what follows the prefix
unfoldable pub after_prefix : Text → Text → Text
after_prefix [] s = s
after_prefix (p ∷ ps) [] = []
after_prefix (p ∷ ps) (a ∷ s) = after_prefix ps s

unfoldable pub starts_with : Text → Text → Bool
starts_with [] s = true
starts_with (p ∷ ps) [] = false
starts_with (p ∷ ps) (a ∷ s) = p == a && starts_with ps s

-- `left === right`
unfoldable pub same_text : Text → Text → Bool
same_text [] [] = true
same_text (a ∷ s) (b ∷ t) = a == b && same_text s t
same_text _ _ = false

-- The comparison of two strings, and where they are one string that of `rest`
abbrev pub by_text : Text → Text → Bool → Bool
by_text left right rest =
    if text_ltb left right then true else if text_ltb right left then false else rest

pub by_text_total :
    (s t : Text) (p q : Bool)
    → (p ≡ false → q ≡ true)
    → by_text s t p ≡ false
    → by_text t s q ≡ true
by_text_total s t p q f h = ground arith

pub by_text_weaken :
    (s t : Text) (p q : Bool) → (p ≡ true → q ≡ true) → by_text s t p ≡ true → by_text s t q ≡ true
by_text_weaken s t p q f h = ground arith

pub by_text_trans :
    (r s t : Text) (p q o : Bool)
    → (p ≡ true → q ≡ true → o ≡ true)
    → by_text r s p ≡ true
    → by_text s t q ≡ true
    → by_text r t o ≡ true
by_text_trans r s t p q o f g h = elim (Bool-cases (text_ltb r s)) [
  | inl rs ↦ elim (Bool-cases (text_ltb s t)) [
    | inl st ↦ let rt = text_ltb_trans r s t rs st in ground arith
    | inr st ↦
        let e : s ≡ t = text_ltb_tri s t st (ground arith) in
        let rt : text_ltb r t ≡ true = subst (λ u. text_ltb r u ≡ true) e rs in ground arith
  ]
  | inr rs ↦
      let e : r ≡ s = text_ltb_tri r s rs (ground arith) in
      subst (λ u. by_text u t o ≡ true) (sym e) (by_text_weaken s t q o (f (ground arith)) h)
]

pub same_text_self : (s : Text) → same_text s s ≡ true
unfolding same_text
same_text_self [] = refl
same_text_self (a ∷ s) = ground (arith, same_text_self s)

pub same_text_eq : (s t : Text) → same_text s t ≡ true → s ≡ t
unfolding same_text
same_text_eq [] [] h = refl
same_text_eq (a ∷ s) [] h = absurd (ground (arith, h))
same_text_eq [] (b ∷ t) h = absurd (ground (arith, h))
same_text_eq (a ∷ s) (b ∷ t) h =
    let e : a ≡ b = ground (arith, h) in
    let r : same_text s t ≡ true = ground (arith, h) in rw (e, same_text_eq s t r) refl
