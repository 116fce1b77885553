-- ===== src/Actor/Canonical.antt =====
-- What canonical text is: `canonicalizeText` and `normalizePromptBody` of values.ts in
-- apps/runtime-server/src/modules/actor.
use ai_block.Prelude.{Text, Bool, true, false, [], ◌∷◌, ◌==◌, ◌≡◌, refl, ap, arith, All}
use ai_block.Actor.Values.{
  byte_order_mark, carriage_return, strip_byte_order_mark, replace_line_ends, canonicalize_text,
  BrickPromptBody, BrickPromptParts, normalize_prompt_body, normalize_parts,
}

-- No carriage return is left.
abbrev pub HasUnixLines : Text → Type 0
HasUnixLines = All (λ c. (c == carriage_return) ≡ false)

abbrev pub starts_with_mark : Text → Bool
starts_with_mark [] = false
starts_with_mark (c ∷ s) = c == byte_order_mark

replace_line_ends-HasUnixLines :
    (after : Bool) (s : Text) → HasUnixLines (replace_line_ends after s)
unfolding replace_line_ends
replace_line_ends-HasUnixLines after [] = tt
replace_line_ends-HasUnixLines after (c ∷ s) =
    ground (arith, replace_line_ends-HasUnixLines true s, replace_line_ends-HasUnixLines false s)

replace_line_ends_of_HasUnixLines : (s : Text) → HasUnixLines s → replace_line_ends false s ≡ s
unfolding replace_line_ends
replace_line_ends_of_HasUnixLines [] h = refl
replace_line_ends_of_HasUnixLines (c ∷ s) h =
    rw h.0 (ap (◌∷◌ c) (replace_line_ends_of_HasUnixLines s h.1))

pub canonicalize_text-HasUnixLines : (s : Text) → HasUnixLines (canonicalize_text s)
unfolding canonicalize_text
canonicalize_text-HasUnixLines s = replace_line_ends-HasUnixLines false (strip_byte_order_mark s)

strip_of_no_mark : (s : Text) → starts_with_mark s ≡ false → strip_byte_order_mark s ≡ s
unfolding strip_byte_order_mark
strip_of_no_mark [] h = refl
strip_of_no_mark (c ∷ s) h = rw h

-- `canonicalizeText` changes nothing in a text that has Unix line ends and no byte order mark in
-- front.
pub canonicalize_text_of_canonical :
    (s : Text) → HasUnixLines s → starts_with_mark s ≡ false → canonicalize_text s ≡ s
unfolding canonicalize_text
canonicalize_text_of_canonical s h m =
    rw (strip_of_no_mark s m) (replace_line_ends_of_HasUnixLines s h)

-- One byte order mark in front at most
abbrev pub HasOneMark : Text → Type 0
HasOneMark s = starts_with_mark (canonicalize_text s) ≡ false

pub canonicalize_text_idem :
    (s : Text) → HasOneMark s → canonicalize_text (canonicalize_text s) ≡ canonicalize_text s
canonicalize_text_idem s m =
    canonicalize_text_of_canonical (canonicalize_text s) (canonicalize_text-HasUnixLines s) m

abbrev mutual
  pub HasOneMarks : BrickPromptBody → Type 0
  HasOneMarks (BrickPromptBody.text s) = HasOneMark s
  HasOneMarks (BrickPromptBody.composite parts) = PartsHaveOneMarks parts

  pub PartsHaveOneMarks : BrickPromptParts → Type 0
  PartsHaveOneMarks BrickPromptParts.no_part = Unit
  PartsHaveOneMarks (BrickPromptParts.part body parts) = HasOneMarks body × PartsHaveOneMarks parts

mutual
  unfolding normalize_prompt_body normalize_parts

  pub normalize_prompt_body_idem :
      (b : BrickPromptBody)
      → HasOneMarks b
      → normalize_prompt_body (normalize_prompt_body b) ≡ normalize_prompt_body b
  normalize_prompt_body_idem (BrickPromptBody.text s) h =
      ap BrickPromptBody.text (canonicalize_text_idem s h)
  normalize_prompt_body_idem (BrickPromptBody.composite parts) h =
      ap BrickPromptBody.composite (normalize_parts_idem parts h)

  normalize_parts_idem :
      (parts : BrickPromptParts)
      → PartsHaveOneMarks parts
      → normalize_parts (normalize_parts parts) ≡ normalize_parts parts
  normalize_parts_idem BrickPromptParts.no_part h = refl
  normalize_parts_idem (BrickPromptParts.part body parts) h =
      cc (normalize_prompt_body_idem body h.0, normalize_parts_idem parts h.1)
