-- ===== src/Contracts/Pointer.antt =====
-- `pointerSegment` and `childPath`: packages/runtime-contracts/src/validation/decode.ts.
use ai_block.Prelude.{
  ℕ, Text, false, Option, none, some, [], ◌∷◌, ◌++◌, ◌==◌, if◌then◌else◌, ◌≡◌, refl, ap, ◌∙◌, arith,
  Bool-cases, inl, inr,
}

-- `value.replaceAll(character, replacement)`, for one character
unfoldable pub replace_all : ℕ → Text → Text → Text
replace_all character replacement [] = []
replace_all character replacement (c ∷ s) =
    let rest = replace_all character replacement s in
    if c == character then replacement ++ rest else c ∷ rest

abbrev pub tilde : ℕ
tilde = b'~'

abbrev pub slash : ℕ
slash = b'/'

-- `pointerSegment`
unfoldable pub pointer_segment : Text → Text
pointer_segment value =
    replace_all slash (tilde ∷ b'1' ∷ []) (replace_all tilde (tilde ∷ b'0' ∷ []) value)

-- `childPath`
unfoldable pub child_path : Text → Text → Text
child_path path key = path ++ slash ∷ pointer_segment key

before : ℕ → Option Text → Option Text
before c none = none
before c (some t) = some (c ∷ t)

-- What a segment stands for, by RFC 6901: `~0` is a tilde, `~1` is a slash, and a slash ends it
pub read_segment : Text → Option Text
read_segment [] = some []
read_segment (c ∷ []) = if c == tilde then none else if c == slash then none else some (c ∷ [])
read_segment (c ∷ d ∷ s) =
    let escaped = read_segment s in
    let plain = read_segment (d ∷ s) in
    if c == tilde
    then (if d == b'0'
        then before tilde escaped
        else if d == b'1'
        then before slash escaped
        else none)
    else if c == slash
    then none
    else before c plain

read_segment-plain :
    (c : ℕ) (s : Text)
    → (c == tilde) ≡ false
    → (c == slash) ≡ false
    → read_segment (c ∷ s) ≡ before c (read_segment s)
unfolding read_segment before
read_segment-plain c [] t l = rw (t, l)
read_segment-plain c (d ∷ s) t l = rw (t, l)

pointer_segment-plain :
    (c : ℕ) (s : Text)
    → (c == tilde) ≡ false
    → (c == slash) ≡ false
    → pointer_segment (c ∷ s) ≡ c ∷ pointer_segment s
unfolding pointer_segment replace_all
pointer_segment-plain c s t l = rw (t, l)

segment-plain :
    (c : ℕ) (s : Text)
    → (c == tilde) ≡ false
    → (c == slash) ≡ false
    → read_segment (pointer_segment (c ∷ s)) ≡ before c (read_segment (pointer_segment s))
segment-plain c s t l =
    rw (pointer_segment-plain c s t l) (read_segment-plain c (pointer_segment s) t l)

-- A segment is read back as the key it was made of, whatever characters the key has.
pub read_segment-pointer_segment : (key : Text) → read_segment (pointer_segment key) ≡ some key
unfolding read_segment pointer_segment replace_all before
read_segment-pointer_segment [] = refl
read_segment-pointer_segment (c ∷ s) =
    let rest = read_segment-pointer_segment s in
    elim (Bool-cases (c == tilde)) [
      | inl t ↦ let e : c ≡ tilde = ground (arith, t) in rw e (ap (before tilde) rest)
      | inr t ↦ elim (Bool-cases (c == slash)) [
        | inl l ↦ let e : c ≡ slash = ground (arith, l) in rw e (ap (before slash) rest)
        | inr l ↦ segment-plain c s t l ∙ ap (before c) rest
      ]
    ]
