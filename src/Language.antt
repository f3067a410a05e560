-- ===== src/Language.antt =====
-- crates/study-tts-core/src/language.rs: language tags, brought to one spelling.
use technical_tts.Prelude.{
  ℕ, ◌+◌, ◌-◌, ◌≡◌, refl, Bool, true, false, not, ◌&&◌, ◌||◌, Option, none, some, List, [], ◌∷◌,
  ◌++◌, map, length, all, any, leb, ltb, ◌==◌, if◌then◌else◌, Result, ok_or,
}
use technical_tts.Text.{
  Text, codes, is_digit, is_lower, is_upper, is_alphabetic, is_alphanumeric, is_empty, text_eq,
}

abbrev pub max_language_tag_bytes : ℕ
max_language_tag_bytes = 64

pub data MalformedLanguageTag : Type 0 where
  malformed_language_tag : Text → MalformedLanguageTag

-- `to_ascii_lowercase` and `to_ascii_uppercase`.
abbrev pub to_lower : ℕ → ℕ
to_lower b = if is_upper b then b + 32 else b

abbrev pub to_upper : ℕ → ℕ
to_upper b = if is_lower b then b - 32 else b

abbrev add_first : ℕ → List Text → List Text
add_first c [] = (c ∷ []) ∷ []
add_first c (part ∷ parts) = (c ∷ part) ∷ parts

-- `split('-')`.
abbrev pub split_subtags : Text → List Text
split_subtags [] = [] ∷ []
split_subtags (c ∷ s) =
    let parts = split_subtags s in if c == b'-' then [] ∷ parts else add_first c parts

abbrev pub is_script : Text → Bool
is_script subtag = length subtag == 4 && all is_alphabetic subtag

abbrev pub is_region : Text → Bool
is_region subtag =
    (length subtag == 2 && all is_alphabetic subtag) || (length subtag == 3 && all is_digit subtag)

abbrev pub starts_with_digit : Text → Bool
starts_with_digit [] = false
starts_with_digit (c ∷ s) = is_digit c

abbrev pub is_variant : Text → Bool
is_variant subtag =
    all is_alphanumeric subtag
    && ((length subtag == 4 && starts_with_digit subtag)
        || (leb 5 (length subtag) && leb (length subtag) 8))

abbrev pub title_case : Text → Text
title_case [] = []
title_case (c ∷ s) = to_upper c ∷ map to_lower s

-- The loop over the variants, with those seen so far.
abbrev pub add_variants : Text → List Text → List Text → Option Text
add_variants normalized seen [] = some normalized
add_variants normalized seen (subtag ∷ subtags) =
    let variant = map to_lower subtag in
    elim (is_variant subtag && not (any (text_eq variant) seen)) [
      | true ↦ add_variants (normalized ++ b'-' ∷ variant) (variant ∷ seen) subtags
      | false ↦ none
    ]

abbrev pub add_region : Text → List Text → Option Text
add_region normalized [] = add_variants normalized [] []
add_region normalized (subtag ∷ subtags) =
    if is_region subtag
    then add_variants (normalized ++ b'-' ∷ map to_upper subtag) [] subtags
    else add_variants normalized [] (subtag ∷ subtags)

abbrev pub add_script : Text → List Text → Option Text
add_script normalized [] = add_region normalized []
add_script normalized (subtag ∷ subtags) =
    if is_script subtag
    then add_region (normalized ++ b'-' ∷ title_case subtag) subtags
    else add_region normalized (subtag ∷ subtags)

abbrev pub add_language : List Text → Option Text
add_language [] = none
add_language (language ∷ subtags) =
    if not (leb 2 (length language) && leb (length language) 8) || not (all is_alphabetic language)
    then none
    else add_script (map to_lower language) subtags

unfoldable pub parse_language_tag : Text → Option Text
parse_language_tag value =
    if is_empty value || ltb max_language_tag_bytes (length value)
    then none
    else add_language (split_subtags value)

-- `FromStr` for `LanguageTag`.
unfoldable pub parse_tag : Text → Result Text MalformedLanguageTag
parse_tag value = ok_or (parse_language_tag value) (malformed_language_tag value)

normalizes : parse_language_tag (codes "EN-LATN-us") ≡ some (codes "en-Latn-US")
unfolding parse_language_tag text_eq
normalizes = refl

variant_repeated : parse_language_tag (codes "sl-rozaj-ROZAJ") ≡ none
unfolding parse_language_tag text_eq
variant_repeated = refl
