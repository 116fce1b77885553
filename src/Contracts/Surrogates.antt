-- ===== src/Contracts/Surrogates.antt =====
-- `hasLoneSurrogate` and what it lets through: packages/runtime-contracts/src/validation/decode.ts.
use ai_block.Prelude.{
  ℕ, Text, Bool, true, false, [], ◌∷◌, ltb, leb, ◌&&◌, ◌||◌, if◌then◌else◌, ◌≡◌, refl, arith, ◌⊎◌,
  inl, inr, ◌↔◌, Bool-cases,
}

abbrev pub is_high : ℕ → Bool
is_high code = leb 0xd800 code && leb code 0xdbff

abbrev pub is_low : ℕ → Bool
is_low code = leb 0xdc00 code && leb code 0xdfff

-- The loop, from an index on. Past the last code unit `charCodeAt` is `NaN`, of which both
-- comparisons are false.
unfoldable pub has_lone_surrogate : Text → Bool
has_lone_surrogate [] = false
has_lone_surrogate (code ∷ []) = if is_high code then false else is_low code
has_lone_surrogate (code ∷ next ∷ rest) =
    let after_pair = has_lone_surrogate rest in
    let after_unit = has_lone_surrogate (next ∷ rest) in
    if is_high code
    then (if ltb next 0xdc00 || ltb 0xdfff next then true else after_pair)
    else if is_low code
    then true
    else after_unit

-- Well-formed UTF-16
pub data IsUtf16 : Text → Type 0 where
  empty : IsUtf16 []
  single :
      {s : Text} (code : ℕ)
      → is_high code ≡ false
      → is_low code ≡ false
      → IsUtf16 s
      → IsUtf16 (code ∷ s)
  pair :
      {s : Text} (high low : ℕ)
      → is_high high ≡ true
      → is_low low ≡ true
      → IsUtf16 s
      → IsUtf16 (high ∷ low ∷ s)

-- Well-formed UTF-16 and then one high surrogate
pub data IsCutOff : Text → Type 0 where
  cut : (high : ℕ) → is_high high ≡ true → IsCutOff (high ∷ [])
  single :
      {s : Text} (code : ℕ)
      → is_high code ≡ false
      → is_low code ≡ false
      → IsCutOff s
      → IsCutOff (code ∷ s)
  pair :
      {s : Text} (high low : ℕ)
      → is_high high ≡ true
      → is_low low ≡ true
      → IsCutOff s
      → IsCutOff (high ∷ low ∷ s)

unit_passes :
    (code : ℕ) (s : Text)
    → is_high code ≡ false
    → is_low code ≡ false
    → has_lone_surrogate (code ∷ s) ≡ has_lone_surrogate s
unfolding has_lone_surrogate
unit_passes code [] h l = rw (h, l)
unit_passes code (next ∷ rest) h l = rw (h, l)

pair_passes :
    (high low : ℕ) (s : Text)
    → is_high high ≡ true
    → is_low low ≡ true
    → has_lone_surrogate (high ∷ low ∷ s) ≡ has_lone_surrogate s
unfolding has_lone_surrogate
pair_passes high low s h l = ground (arith, h, l)

utf16_passes : {s : Text} → IsUtf16 s → has_lone_surrogate s ≡ false
unfolding has_lone_surrogate
utf16_passes IsUtf16.empty = refl
utf16_passes (IsUtf16.single {s} code h l u) = rw (unit_passes code s h l) (utf16_passes u)
utf16_passes (IsUtf16.pair {s} high low h l u) = rw (pair_passes high low s h l) (utf16_passes u)

cut_off_passes : {s : Text} → IsCutOff s → has_lone_surrogate s ≡ false
unfolding has_lone_surrogate
cut_off_passes (IsCutOff.cut high h) = rw h
cut_off_passes (IsCutOff.single {s} code h l u) = rw (unit_passes code s h l) (cut_off_passes u)
cut_off_passes (IsCutOff.pair {s} high low h l u) =
    rw (pair_passes high low s h l) (cut_off_passes u)

extend :
    {s t : Text}
    → (IsUtf16 s → IsUtf16 t)
    → (IsCutOff s → IsCutOff t)
    → IsUtf16 s ⊎ IsCutOff s
    → IsUtf16 t ⊎ IsCutOff t
extend f g (inl u) = inl (f u)
extend f g (inr c) = inr (g c)

passing : (s : Text) → has_lone_surrogate s ≡ false → IsUtf16 s ⊎ IsCutOff s
unfolding has_lone_surrogate
passing [] e = inl IsUtf16.empty
passing (code ∷ []) e = elim (Bool-cases (is_high code)) [
  | inl h ↦ inr (IsCutOff.cut code h)
  | inr h ↦ inl (IsUtf16.single code h (rw h at e) IsUtf16.empty)
]
passing (code ∷ next ∷ rest) e = elim (Bool-cases (is_high code)) [
  | inl h ↦
      let l : is_low next ≡ true = ground (arith, e, h) in
      let later : has_lone_surrogate rest ≡ false = ground (arith, e, h) in
      extend (IsUtf16.pair code next h l) (IsCutOff.pair code next h l) (passing rest later)
  | inr h ↦
      let l : is_low code ≡ false = ground (arith, e, h) in
      let later : has_lone_surrogate (next ∷ rest) ≡ false = ground (arith, e, h, l) in
      extend (IsUtf16.single code h l) (IsCutOff.single code h l) (passing (next ∷ rest) later)
]

-- `hasLoneSurrogate` finds nothing exactly in the texts that are well-formed UTF-16, and in those
-- that are so but for a high surrogate at their very end.
pub has_lone_surrogate_lem : (s : Text) → (has_lone_surrogate s ≡ false) ↔ (IsUtf16 s ⊎ IsCutOff s)
has_lone_surrogate_lem s = (passing s, either)
  where
    either : IsUtf16 s ⊎ IsCutOff s → has_lone_surrogate s ≡ false
    either (inl u) = utf16_passes u
    either (inr c) = cut_off_passes c
