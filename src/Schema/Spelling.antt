-- ===== src/Schema/Spelling.antt =====
-- A version has one spelling, and the published `enum` lists what the parser and the rule accept.
use technical_tts.Prelude.{
  ℕ, ◌≤◌, ◌≡◌, ◌↔◌, inl, inr, refl, sym, ◌∙◌, true, ◌&&◌, some, [], ◌∷◌, arith, All, all, leb,
  Option-cases, ok,
}
use technical_tts.Text.{Text, Lacks, split_once, split_once-append, split_once-some}
use technical_tts.Text.Decimal.{to_decimal, parse_decimal}
use technical_tts.Text.Decimal.RoundTrip.{
  IsDigit, IsCanonical, to_decimal-IsCanonical, All-to_decimal, parse-to_decimal, to_decimal-parse,
  parse_decimal-le,
}
use technical_tts.Schema.{
  SchemaVersion, IsVersion, max_u16, to_string, parse_version_component, from_str,
}

digits-Lacks : (s : Text) → All IsDigit s → Lacks b'.' s
digits-Lacks [] d = tt
digits-Lacks (c ∷ s) d = ((λ e. omega arith), digits-Lacks s d.1)

all_digits : (s : Text) → All IsDigit s → all (λ c. leb b'0' c && leb c b'9') s ≡ true
all_digits [] d = refl
all_digits (c ∷ s) d = ground (arith, all_digits s d.1)

digits_of_all : (s : Text) → all (λ c. leb b'0' c && leb c b'9') s ≡ true → All IsDigit s
digits_of_all [] h = tt
digits_of_all (c ∷ s) h = ground (arith, digits_of_all s)

component_of_canonical :
    (s : Text) → IsCanonical s → parse_version_component s ≡ parse_decimal max_u16 s
unfolding parse_version_component
component_of_canonical [] v = absurd v
component_of_canonical (c ∷ []) v = ground arith
component_of_canonical (c ∷ d ∷ s) v = ground (arith, all_digits s v.1.1.1)

IsCanonical-component :
    (s : Text) (n : ℕ)
    → parse_version_component s ≡ some n
    → IsCanonical s × (parse_decimal max_u16 s ≡ some n)
unfolding parse_version_component
IsCanonical-component [] n h = cc
IsCanonical-component (c ∷ []) n h = ground arith
IsCanonical-component (c ∷ d ∷ s) n h = ground (arith, digits_of_all s)

-- A component parses to `n` exactly when it is the spelling of `n` and `n` is a `u16`.
pub parse_version_component_iff :
    (s : Text) (n : ℕ) → (parse_version_component s ≡ some n) ↔ ((s ≡ to_decimal n) × (n ≤ max_u16))
parse_version_component_iff s n = (
  λ h.
      let (v, e) = IsCanonical-component s n h in
      (sym (to_decimal-parse max_u16 n s v e), parse_decimal-le max_u16 n s e),
  λ h.
      rw (h.0, component_of_canonical (to_decimal n) (to_decimal-IsCanonical n))
        (parse-to_decimal max_u16 n h.1),
)

-- `to_string` then `from_str`.
from_str-to_string : (v : SchemaVersion) → IsVersion v → from_str (to_string v) ≡ ok v
unfolding from_str to_string
from_str-to_string v fits = rw (
  split_once-append b'.' (to_decimal v.major) (to_decimal v.minor)
      (digits-Lacks _ (All-to_decimal v.major)),
  (parse_version_component_iff (to_decimal v.major) v.major).1 (refl, fits.major_fits),
  (parse_version_component_iff (to_decimal v.minor) v.minor).1 (refl, fits.minor_fits),
)

from_str_inv :
    (s : Text) (v : SchemaVersion)
    → from_str s ≡ ok v
    → (a : Text) × (b : Text) × (split_once b'.' s ≡ some (a, b))
      × (parse_version_component a ≡ some v.major)
      × (parse_version_component b ≡ some v.minor)
unfolding from_str
from_str_inv s v h = elim (Option-cases (split_once b'.' s)) [
  | inl e ↦ ground arith
  | inr ((a, b), e) ↦ (
    a,
    b,
    e,
    ground
        (arith, Option-cases (parse_version_component a), Option-cases (parse_version_component b)),
    ground
        (arith, Option-cases (parse_version_component a), Option-cases (parse_version_component b)),
  )
]

to_string-from_str :
    (s : Text) (v : SchemaVersion) → from_str s ≡ ok v → (s ≡ to_string v) × IsVersion v
unfolding to_string
to_string-from_str s v h =
    let (a, b, e, x, y) = from_str_inv s v h in
    let (ea, fa) = (parse_version_component_iff a v.major).0 x in
    let (eb, fb) = (parse_version_component_iff b v.minor).0 y in
    ((split_once-some b'.' s a b e).0 ∙ rw (ea, eb), record { major_fits = fa; minor_fits = fb })

-- A text parses to a version exactly when it is that version's one spelling, and its parts are `u16`.
pub from_str_iff :
    (s : Text) (v : SchemaVersion) → (from_str s ≡ ok v) ↔ ((s ≡ to_string v) × IsVersion v)
from_str_iff s v = (to_string-from_str s v, λ h. rw h.0 (from_str-to_string v h.1))
