-- ===== src/Canonical/Strings.antt =====
-- A written string ends at its closing quote, and its text is read back.
use mathlib.Core.Path.{ap₂}
use technical_tts.Prelude.{
  ℕ, ◌+◌, ◌-◌, ◌*◌, ◌≡◌, sym, ap, ◌∙◌, [], ◌∷◌, ◌++◌, append_assoc, arith, ltb, ◌==◌, if◌then◌else◌,
  Option, none, some,
}
use technical_tts.Text.{Text}
use technical_tts.Canonical.{json_character, json_characters, write_json_string}

abbrev hex_value : ℕ → ℕ
hex_value c = if ltb c b'a' then c - b'0' else c - b'a' + 10

-- The character behind a backslash, and the rest.
abbrev escaped : Text → Option (Option ℕ × Text)
escaped [] = none
escaped (c ∷ s) =
    if c == b'b'
    then some (some 8, s)
    else if c == b'f'
    then some (some 12, s)
    else if c == b'n'
    then some (some 10, s)
    else if c == b'r'
    then some (some 13, s)
    else if c == b't'
    then some (some 9, s)
    else if c == b'u'
    then elim s [
      | (a ∷ b ∷ x ∷ y ∷ rest) ↦ some (some (hex_value x * 16 + hex_value y), rest)
      | _ ↦ none
    ]
    else some (some c, s)

-- The next character of a string, or its end, and the rest.
abbrev next_character : Text → Option (Option ℕ × Text)
next_character [] = none
next_character (c ∷ s) =
    if c == b'"' then some (none, s) else if c == b'\\' then escaped s else some (some c, s)

next-json_character : (c : ℕ) (s : Text) → next_character (json_character c ++ s) ≡ some (some c, s)
next-json_character c s = ground arith

-- A character and another one are not written alike, nor is either a closing quote.
split_character :
    (c d : ℕ) (s t : Text) → json_character c ++ s ≡ json_character d ++ t → (c ≡ d) × (s ≡ t)
split_character c d s t e =
    let same : some (some c, s) ≡ some (some d, t) =
      sym (next-json_character c s) ∙ ap next_character e ∙ next-json_character d t in
    ground (arith, same)

not_closed : (c : ℕ) (s t : Text) → json_character c ++ s ≡ b'"' ∷ t → ⊥
not_closed c s t e =
    let wrong : some (some c, s) ≡ some (none, t) =
      sym (next-json_character c s) ∙ ap next_character e in
    ground (arith, wrong)

split_characters :
    (u v s t : Text)
    → json_characters u ++ (b'"' ∷ s) ≡ json_characters v ++ (b'"' ∷ t)
    → (u ≡ v) × (s ≡ t)
unfolding json_characters
split_characters [] [] s t e = ground (arith, e)
split_characters [] (d ∷ v) s t e = absurd (
    not_closed d (json_characters v ++ (b'"' ∷ t)) s
      (sym (append_assoc (json_character d) (json_characters v) (b'"' ∷ t)) ∙ sym e))
split_characters (c ∷ u) [] s t e = absurd (
    not_closed c (json_characters u ++ (b'"' ∷ s)) t
      (sym (append_assoc (json_character c) (json_characters u) (b'"' ∷ s)) ∙ e))
split_characters (c ∷ u) (d ∷ v) s t e =
    let (same, rest) =
      split_character c d (json_characters u ++ (b'"' ∷ s)) (json_characters v ++ (b'"' ∷ t)) (
        sym (append_assoc (json_character c) (json_characters u) (b'"' ∷ s))
        ∙ e
        ∙ append_assoc (json_character d) (json_characters v) (b'"' ∷ t)) in
    let (more, tail) = split_characters u v s t rest in (ap₂ (λ x y. x ∷ y) same more, tail)

-- Where two written strings begin the same text, they are the same string.
pub split_string :
    (u v s t : Text) → write_json_string u ++ s ≡ write_json_string v ++ t → (u ≡ v) × (s ≡ t)
unfolding write_json_string
split_string u v s t e = split_characters u v s t (
    sym (append_assoc (json_characters u) (b'"' ∷ []) s)
    ∙ ground (arith, e)
    ∙ append_assoc (json_characters v) (b'"' ∷ []) t)
