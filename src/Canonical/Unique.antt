-- ===== src/Canonical/Unique.antt =====
-- Different values have different canonical bytes.
use mathlib.Core.Path.{ap₂}
use technical_tts.Prelude.{
  ℕ, ◌+◌, ◌≡◌, ◌<◌, refl, sym, ap, ◌∙◌, ◌&&◌, [], ◌∷◌, ◌++◌, append_assoc, append-nil, All, arith,
  leb, ◌==◌, if◌then◌else◌, some,
}
use technical_tts.Text.{Text}
use technical_tts.Text.Decimal.{to_decimal, parse_decimal}
use technical_tts.Text.Decimal.RoundTrip.{
  IsDigit, IsCanonical, parse-to_decimal, All-to_decimal, to_decimal-IsCanonical,
}
use technical_tts.Canonical.{
  CanonicalValue, null, unsigned, text, array, object, Elements, no_element, element, Entries,
  no_entry, entry, write_json_string, write_value, write_elements, write_more_elements,
  write_entries, write_more_entries, canonical_bytes,
}
use technical_tts.Canonical.Strings.{split_string}

-- The text does not go on with a digit.
abbrev Ends : Text → Type 0
Ends [] = Unit
Ends (c ∷ s) = ¬ IsDigit c

split_digits :
    (a b s t : Text)
    → All IsDigit a
    → All IsDigit b
    → Ends s
    → Ends t
    → a ++ s ≡ b ++ t
    → (a ≡ b) × (s ≡ t)
split_digits [] [] s t ha hb hs ht e = (refl, e)
split_digits [] (d ∷ b) [] t ha hb hs ht e = absurd (ground (arith, e))
split_digits [] (d ∷ b) (c ∷ s) t ha hb hs ht e = ground (arith, e)
split_digits (c ∷ a) [] s [] ha hb hs ht e = absurd (ground (arith, e))
split_digits (c ∷ a) [] s (d ∷ t) ha hb hs ht e = ground (arith, e)
split_digits (c ∷ a) (d ∷ b) s t ha hb hs ht e =
    ground (arith, e, split_digits a b s t ha.1 hb.1 hs ht)

to_decimal_injective : (n m : ℕ) → to_decimal n ≡ to_decimal m → n ≡ m
to_decimal_injective n m e =
    let p = parse-to_decimal (n + m) n (omega arith) in
    let q = parse-to_decimal (n + m) m (omega arith) in
    let r : some n ≡ some m = sym p ∙ ap (parse_decimal (n + m)) e ∙ q in ground (arith, r)

split_number :
    (n m : ℕ) (s t : Text)
    → Ends s
    → Ends t
    → to_decimal n ++ s ≡ to_decimal m ++ t
    → (n ≡ m) × (s ≡ t)
split_number n m s t hs ht e =
    let (same, rest) =
      split_digits (to_decimal n) (to_decimal m) s t (All-to_decimal n) (All-to_decimal m) hs ht
        e in
    (to_decimal_injective n m same, rest)

-- Which kind of value a text begins: none, by its first byte.
abbrev kind_of_byte : ℕ → ℕ
kind_of_byte c =
    if c == b'n'
    then 0
    else if leb b'0' c && leb c b'9'
    then 1
    else if c == b'"'
    then 2
    else if c == b'['
    then 3
    else if c == b'{'
    then 4
    else 5

abbrev kind_of_text : Text → ℕ
kind_of_text [] = 5
kind_of_text (c ∷ s) = kind_of_byte c

abbrev kind : CanonicalValue → ℕ
kind null = 0
kind (unsigned n) = 1
kind (text s) = 2
kind (array es) = 3
kind (object es) = 4

digits-kind : (s t : Text) → IsCanonical s → kind_of_text (s ++ t) ≡ 1
digits-kind [] t h = absurd h
digits-kind (c ∷ []) t h = ground arith
digits-kind (c ∷ d ∷ s) t h = ground arith

write_value-kind : (v : CanonicalValue) (s : Text) → kind_of_text (write_value v ++ s) ≡ kind v
unfolding write_value write_json_string
write_value-kind null s = refl
write_value-kind (unsigned n) s = digits-kind (to_decimal n) s (to_decimal-IsCanonical n)
write_value-kind (text u) s = refl
write_value-kind (array es) s = refl
write_value-kind (object es) s = refl

same_kind :
    (v w : CanonicalValue) (s t : Text) → write_value v ++ s ≡ write_value w ++ t → kind v ≡ kind w
same_kind v w s t e = sym (write_value-kind v s) ∙ ap kind_of_text e ∙ write_value-kind w t

-- Two values of the same kind.
data Alike : CanonicalValue → CanonicalValue → Type 0 where
  nulls : Alike null null
  numbers : (n m : ℕ) → Alike (unsigned n) (unsigned m)
  texts : (u v : Text) → Alike (text u) (text v)
  arrays : (es fs : Elements) → Alike (array es) (array fs)
  objects : (es fs : Entries) → Alike (object es) (object fs)

alike : (v w : CanonicalValue) → kind v ≡ kind w → Alike v w
alike null null h = nulls
alike (unsigned n) (unsigned m) h = numbers n m
alike (text u) (text v) h = texts u v
alike (array es) (array fs) h = arrays es fs
alike (object es) (object fs) h = objects es fs
alike _ _ h = absurd (omega arith)

kind-lt : (v : CanonicalValue) → kind v < 5
kind-lt null = omega arith
kind-lt (unsigned n) = omega arith
kind-lt (text s) = omega arith
kind-lt (array es) = omega arith
kind-lt (object es) = omega arith

-- A closing bracket begins no value.
not_value :
    (v : CanonicalValue) (c : ℕ) (s t : Text) → kind_of_byte c ≡ 5 → c ∷ s ≡ write_value v ++ t → ⊥
not_value v c s t k e =
    let same : kind_of_byte c ≡ kind v = ap kind_of_text e ∙ write_value-kind v t in
    omega (arith, kind-lt v)

Ends-more_elements : (es : Elements) (s : Text) → Ends (write_more_elements es ++ (b']' ∷ s))
unfolding write_more_elements
Ends-more_elements no_element s = omega arith
Ends-more_elements (element v es) s = omega arith

Ends-more_entries : (es : Entries) (s : Text) → Ends (write_more_entries es ++ (b'}' ∷ s))
unfolding write_more_entries
Ends-more_entries no_entry s = omega arith
Ends-more_entries (entry k v es) s = omega arith

abbrev rest_of : Text → Text
rest_of [] = []
rest_of (c ∷ s) = s

-- What is between two brackets, and what follows.
unbracket :
    (a b s t : Text) (left right : ℕ)
    → (left ∷ (a ++ (right ∷ []))) ++ s ≡ (left ∷ (b ++ (right ∷ []))) ++ t
    → a ++ (right ∷ s) ≡ b ++ (right ∷ t)
unbracket a b s t left right e =
    sym (append_assoc a (right ∷ []) s) ∙ ap rest_of e ∙ append_assoc b (right ∷ []) t

-- Three parts, from the left and from the right.
regroup : (a b c d e f : Text) → a ++ b ++ c ≡ d ++ e ++ f → a ++ (b ++ c) ≡ d ++ (e ++ f)
regroup a b c d e f h = sym (append_assoc a b c) ∙ h ∙ append_assoc d e f

-- A key, a colon, a value and the rest.
regroup_entry :
    (k v m s k' v' m' s' : Text)
    → (k ++ (b':' ∷ (v ++ m))) ++ s ≡ (k' ++ (b':' ∷ (v' ++ m'))) ++ s'
    → k ++ (b':' ∷ (v ++ (m ++ s))) ≡ k' ++ (b':' ∷ (v' ++ (m' ++ s')))
regroup_entry k v m s k' v' m' s' e =
    ap (λ x. k ++ (b':' ∷ x)) (sym (append_assoc v m s))
    ∙ sym (append_assoc k (b':' ∷ (v ++ m)) s)
    ∙ e
    ∙ append_assoc k' (b':' ∷ (v' ++ m')) s'
    ∙ ap (λ x. k' ++ (b':' ∷ x)) (append_assoc v' m' s')

-- The entries behind the first one are the entries of the rest behind a comma.
comma_elements :
    (es fs : Elements) (s t : Text)
    → write_more_elements es ++ (b']' ∷ s) ≡ write_more_elements fs ++ (b']' ∷ t)
    → write_elements es ++ (b']' ∷ s) ≡ write_elements fs ++ (b']' ∷ t)
unfolding write_more_elements write_elements
comma_elements no_element no_element s t e = e
comma_elements no_element (element w fs) s t e = absurd (ground (arith, e))
comma_elements (element v es) no_element s t e = absurd (ground (arith, e))
comma_elements (element v es) (element w fs) s t e = ap rest_of e

comma_entries :
    (es fs : Entries) (s t : Text)
    → write_more_entries es ++ (b'}' ∷ s) ≡ write_more_entries fs ++ (b'}' ∷ t)
    → write_entries es ++ (b'}' ∷ s) ≡ write_entries fs ++ (b'}' ∷ t)
unfolding write_more_entries write_entries
comma_entries no_entry no_entry s t e = e
comma_entries no_entry (entry k v fs) s t e = absurd (ground (arith, e))
comma_entries (entry k v es) no_entry s t e = absurd (ground (arith, e))
comma_entries (entry k v es) (entry l w fs) s t e = ap rest_of e

-- A closing brace begins no key.
not_key : (k s t : Text) → b'}' ∷ s ≡ write_json_string k ++ t → ⊥
unfolding write_json_string
not_key k s t e = ground (arith, e)

mutual
  unfolding write_value write_elements write_entries

  split_alike :
      (v w : CanonicalValue) (s t : Text)
      → Ends s
      → Ends t
      → write_value v ++ s ≡ write_value w ++ t
      → kind v ≡ kind w
      → (v ≡ w) × (s ≡ t)
  split_alike null null s t hs ht e k = (refl, ground (arith, e))
  split_alike (unsigned n) (unsigned m) s t hs ht e k =
      let (same, rest) = split_number n m s t hs ht e in (ap unsigned same, rest)
  split_alike (text u) (text v) s t hs ht e k =
      let (same, rest) = split_string u v s t e in (ap text same, rest)
  split_alike (array es) (array fs) s t hs ht e k =
      let (same, rest) =
        split_elements es fs s t
          (unbracket (write_elements es) (write_elements fs) s t b'[' b']' e) in
      (ap array same, rest)
  split_alike (object es) (object fs) s t hs ht e k =
      let (same, rest) =
        split_entries es fs s t (unbracket (write_entries es) (write_entries fs) s t b'{' b'}' e) in
      (ap object same, rest)
  split_alike _ _ s t hs ht e k = absurd (omega arith)

  split_elements :
      (es fs : Elements) (s t : Text)
      → write_elements es ++ (b']' ∷ s) ≡ write_elements fs ++ (b']' ∷ t)
      → (es ≡ fs) × (s ≡ t)
  split_elements no_element no_element s t e = (refl, ap rest_of e)
  split_elements no_element (element w fs) s t e = absurd (
      not_value w b']' s (write_more_elements fs ++ (b']' ∷ t)) refl
        (e ∙ append_assoc (write_value w) (write_more_elements fs) (b']' ∷ t)))
  split_elements (element v es) no_element s t e = absurd (
      not_value v b']' t (write_more_elements es ++ (b']' ∷ s)) refl
        (sym e ∙ append_assoc (write_value v) (write_more_elements es) (b']' ∷ s)))
  split_elements (element v es) (element w fs) s t e =
      let h =
        regroup (write_value v) (write_more_elements es) (b']' ∷ s) (write_value w)
          (write_more_elements fs) (b']' ∷ t) e in
      let (first, more) =
        split_alike v w (write_more_elements es ++ (b']' ∷ s))
          (write_more_elements fs ++ (b']' ∷ t)) (Ends-more_elements es s) (Ends-more_elements fs t)
          h (same_kind v w _ _ h) in
      let (others, rest) = split_elements es fs s t (comma_elements es fs s t more) in
      (ap₂ element first others, rest)

  split_entries :
      (es fs : Entries) (s t : Text)
      → write_entries es ++ (b'}' ∷ s) ≡ write_entries fs ++ (b'}' ∷ t)
      → (es ≡ fs) × (s ≡ t)
  split_entries no_entry no_entry s t e = (refl, ap rest_of e)
  split_entries no_entry (entry k v fs) s t e =
      absurd (not_key k s _ (e ∙ append_assoc (write_json_string k) _ (b'}' ∷ t)))
  split_entries (entry k v es) no_entry s t e =
      absurd (not_key k t _ (sym e ∙ append_assoc (write_json_string k) _ (b'}' ∷ s)))
  split_entries (entry k v es) (entry l w fs) s t e =
      let h =
        regroup_entry (write_json_string k) (write_value v) (write_more_entries es) (b'}' ∷ s)
          (write_json_string l) (write_value w) (write_more_entries fs) (b'}' ∷ t) e in
      let (key, behind) = split_string k l _ _ h in
      let (first, more) =
        split_alike v w (write_more_entries es ++ (b'}' ∷ s)) (write_more_entries fs ++ (b'}' ∷ t))
          (Ends-more_entries es s) (Ends-more_entries fs t) (ap rest_of behind)
          (same_kind v w _ _ (ap rest_of behind)) in
      let (others, rest) = split_entries es fs s t (comma_entries es fs s t more) in
      (ap₂ (λ (x : Entries → Entries) m. x m) (ap₂ (λ x y m. entry x y m) key first) others, rest)

-- Two values with the same canonical bytes are the same value: no text, number, list or object can
-- be written so that it reads as another one.
pub canonical_bytes_injective :
    (v w : CanonicalValue) → canonical_bytes v ≡ canonical_bytes w → v ≡ w
unfolding canonical_bytes
canonical_bytes_injective v w e =
    let open_ended : write_value v ++ [] ≡ write_value w ++ [] =
      append-nil (write_value v) ∙ e ∙ sym (append-nil (write_value w)) in
    (split_alike v w [] [] tt tt open_ended (same_kind v w [] [] open_ended)).0
