-- ===== src/Timeline/Escape/Metadata.antt =====
-- FFMETADATA values: no unescaped mark, no line break, and readable back to the single line.
use technical_tts.Prelude.{
  ℕ, ◌≡◌, refl, sym, ap, subst, ◌∙◌, Bool, true, false, ◌||◌, Option, none, some, [], ◌∷◌, All,
  arith, ◌==◌, if◌then◌else◌,
}
use technical_tts.Text.{Text, codes}
use technical_tts.Timeline.{single_line, replace, escape_metadata_value}
use technical_tts.Timeline.Escape.{
  IsInline, single_line-IsInline, spelled, All-spelled, replace-append, spelled-of, replace-split,
}

-- `=`, `;`, `#` and the backslash.
abbrev is_special : ℕ → Bool
is_special c = c == b'\\' || c == b'=' || c == b';' || c == b'#'

abbrev value_spelling : ℕ → Text
value_spelling c = if is_special c then b'\\' ∷ c ∷ [] else c ∷ []

abbrev backslash_replaced : Text → Text
backslash_replaced = replace b'\\' (codes "\\\\")

abbrev equals_replaced : Text → Text
equals_replaced s = replace b'=' (codes "\\=") (backslash_replaced s)

abbrev semicolon_replaced : Text → Text
semicolon_replaced s = replace b';' (codes "\\;") (equals_replaced s)

abbrev hash_replaced : Text → Text
hash_replaced s = replace b'#' (codes "\\#") (semicolon_replaced s)

hash_replaced-one : (c : ℕ) → hash_replaced (c ∷ []) ≡ value_spelling c
hash_replaced-one c = ground arith

hash_replaced-spelled : (s : Text) → hash_replaced s ≡ spelled value_spelling s
hash_replaced-spelled =
    spelled-of hash_replaced value_spelling refl
      (replace-split b'#' (codes "\\#") semicolon_replaced (
        replace-split b';' (codes "\\;") equals_replaced (
          replace-split b'=' (codes "\\=") backslash_replaced
            (replace-append b'\\' (codes "\\\\")))))
      hash_replaced-one

escape_metadata_value-spelled :
    (text : Text) → escape_metadata_value text ≡ spelled value_spelling (single_line text)
unfolding escape_metadata_value
escape_metadata_value-spelled text = hash_replaced-spelled (single_line text)

value_spelling-IsInline : (c : ℕ) → IsInline c → All IsInline (value_spelling c)
value_spelling-IsInline c h = ground arith

-- An escaped value has no line break.
pub escape_metadata_value-IsInline : (text : Text) → All IsInline (escape_metadata_value text)
escape_metadata_value-IsInline text =
    subst (All IsInline) (sym (escape_metadata_value-spelled text)) (
      All-spelled IsInline IsInline value_spelling (single_line text) value_spelling-IsInline
        (single_line-IsInline text))

-- A reader of a value, behind a backslash or not: the value up to its end, or `none` where a mark
-- or a backslash at the end would cut it.
abbrev read_from : Bool → Text → Option Text
read_from false [] = some []
read_from true [] = none
read_from true (c ∷ s) = elim (read_from false s) [ none ↦ none | some t ↦ some (c ∷ t) ]
read_from false (c ∷ s) = elim (c == b'\\') [
  | true ↦ read_from true s
  | false ↦ elim (is_special c) [
    | true ↦ none
    | false ↦ elim (read_from false s) [ none ↦ none | some t ↦ some (c ∷ t) ]
  ]
]

unfoldable pub read_value : Text → Option Text
read_value s = read_from false s

read_from-spelled : (s : Text) → read_from false (spelled value_spelling s) ≡ some s
read_from-spelled [] = refl
read_from-spelled (c ∷ s) = ground (arith, read_from-spelled s)

-- A reader that stops at an unescaped `=`, `;` or `#` reads an escaped value to its end, and finds
-- the single line of the text again.
pub read-escape_metadata_value :
    (text : Text) → read_value (escape_metadata_value text) ≡ some (single_line text)
unfolding read_value
read-escape_metadata_value text =
    ap (read_from false) (escape_metadata_value-spelled text) ∙ read_from-spelled (single_line text)
