-- ===== src/Text/Blank.antt =====
-- `str::trim().is_empty()`: every character is Unicode white space. The characters U+0009 to U+000D,
-- U+0020, U+0085, U+00A0, U+1680, U+2000 to U+200A, U+2028, U+2029, U+202F, U+205F and U+3000 are
-- recognised by their UTF-8 bytes, which the states below have read in part.
use technical_tts.Prelude.{
  ℕ, ◌≡◌, ◌<◌, refl, Bool, true, false, ◌&&◌, ◌||◌, Option, none, some, [], ◌∷◌, arith, leb, ◌==◌,
  if◌then◌else◌,
}
use technical_tts.Text.Order.{Text}

pub data Pending : Type 0 where
  start c2 e1 e1_9a e2 e2_80 e2_81 e3 e3_80 : Pending

-- The state behind one more byte, or `none` where no white space continues so.
advance : Pending → ℕ → Option Pending
advance start b =
    if (leb 0x09 b && leb b 0x0d) || b == 0x20
    then some start
    else if b == 0xc2
    then some c2
    else if b == 0xe1
    then some e1
    else if b == 0xe2
    then some e2
    else if b == 0xe3
    then some e3
    else none
advance c2 b = if b == 0x85 || b == 0xa0 then some start else none
advance e1 b = if b == 0x9a then some e1_9a else none
advance e1_9a b = if b == 0x80 then some start else none
advance e2 b = if b == 0x80 then some e2_80 else if b == 0x81 then some e2_81 else none
advance e2_80 b =
    if (leb 0x80 b && leb b 0x8a) || b == 0xa8 || b == 0xa9 || b == 0xaf then some start else none
advance e2_81 b = if b == 0x9f then some start else none
advance e3 b = if b == 0x80 then some e3_80 else none
advance e3_80 b = if b == 0x80 then some start else none

blank_from : Pending → Text → Bool
unfolding advance
blank_from start [] = true
blank_from _ [] = false
blank_from st (b ∷ s) = elim (advance st b) [ none ↦ false | some st' ↦ blank_from st' s ]

unfoldable pub is_blank : Text → Bool
unfolding blank_from
is_blank s = blank_from start s

-- A text that begins with a printable ASCII character is not blank.
pub is_blank-graphic : (c : ℕ) (s : Text) → 0x20 < c → c < 0x7f → is_blank (c ∷ s) ≡ false
unfolding is_blank
is_blank-graphic c s h k = ground arith

pub is_blank-nil : is_blank [] ≡ true
unfolding is_blank
is_blank-nil = refl

-- The text behind the white space in front of it: what is kept is the text at the last character
-- that began, and the state is that of the automaton behind it.
skip_from : Pending → Text → Text → Text
unfolding advance
skip_from start kept [] = []
skip_from _ kept [] = kept
skip_from st kept (b ∷ s) = elim (advance st b) [
  | none ↦ kept
  | some start ↦ skip_from start s s
  | some st' ↦ skip_from st' kept s
]

-- `str::trim_start`.
unfoldable pub trim_start : Text → Text
unfolding skip_from
trim_start s = skip_from start s s

-- `str::trim_end`. A byte inside a character begins no white space, so the shortest front with only
-- white space behind it ends between two characters.
unfoldable pub trim_end : Text → Text
trim_end [] = []
trim_end (b ∷ s) = let rest = b ∷ trim_end s in if is_blank (b ∷ s) then [] else rest

-- `str::trim`.
abbrev pub trim : Text → Text
trim s = trim_end (trim_start s)

trims : trim (32 ∷ 65 ∷ 32 ∷ 66 ∷ 0xc2 ∷ 0xa0 ∷ 10 ∷ []) ≡ 65 ∷ 32 ∷ 66 ∷ []
unfolding trim_end trim_start is_blank
trims = refl
