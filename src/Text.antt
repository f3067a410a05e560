-- ===== src/Text.antt =====
-- A Rust `str` as its UTF-8 bytes, with the operations of the standard library that the code uses.
mod Order
mod Blank
pub mod Decimal
unfoldable pub use Order.*
unfoldable pub use Blank.*
use Prim.Native.Char.{code}
use Prim.Native.String.{String}
use technical_tts.Prelude.{
  ℕ, ◌+◌, ◌≡◌, ◌≢◌, refl, Bool, true, false, ◌&&◌, ◌||◌, Option, none, some, List, [], ◌∷◌, ◌++◌,
  arith, All, Option-cases, leb, ◌==◌, if◌then◌else◌,
}

-- The bytes of an ASCII literal.
abbrev pub codes : String → Text
codes String.[] = []
codes (String.◌∷◌ c s) = code c ∷ codes s

abbrev pub is_digit : ℕ → Bool
is_digit c = leb b'0' c && leb c b'9'

abbrev pub is_lower : ℕ → Bool
is_lower c = leb b'a' c && leb c b'z'

abbrev pub is_upper : ℕ → Bool
is_upper c = leb b'A' c && leb c b'Z'

abbrev pub is_alphabetic : ℕ → Bool
is_alphabetic c = is_lower c || is_upper c

abbrev pub is_alphanumeric : ℕ → Bool
is_alphanumeric c = is_digit c || is_alphabetic c

-- `str::is_empty`.
abbrev pub is_empty : Text → Bool
is_empty [] = true
is_empty (c ∷ s) = false

-- `str::starts_with` at one ASCII character.
abbrev pub starts_with : Text → ℕ → Bool
starts_with [] b = false
starts_with (c ∷ s) b = c == b

-- `str::split_once` at one ASCII character.
unfoldable pub split_once : ℕ → Text → Option (Text × Text)
split_once sep [] = none
split_once sep (c ∷ s) =
    if c == sep
    then some ([], s)
    else elim (split_once sep s) [ none ↦ none | some (a, b) ↦ some (c ∷ a, b) ]

-- The text holds no such byte.
abbrev pub Lacks : ℕ → Text → Type 0
Lacks b = All (λ c. c ≢ b)

pub split_once-append :
    (sep : ℕ) (a b : Text) → Lacks sep a → split_once sep (a ++ sep ∷ b) ≡ some (a, b)
unfolding split_once
split_once-append sep [] b h = ground arith
split_once-append sep (c ∷ a) b h = ground (arith, split_once-append sep a b h.1)

-- What `split_once` finds is the text, cut at its first separator.
pub split_once-some :
    (sep : ℕ) (s a b : Text) → split_once sep s ≡ some (a, b) → (s ≡ a ++ sep ∷ b) × Lacks sep a
unfolding split_once
split_once-some sep [] a b h = cc
split_once-some sep (c ∷ s) [] b h = ground (arith, Option-cases (split_once sep s))
split_once-some sep (c ∷ s) (d ∷ a) b h =
    ground (arith, Option-cases (split_once sep s), split_once-some sep s a b)

-- `[T]::join`.
unfoldable pub join : Text → List Text → Text
join sep [] = []
join sep (t ∷ []) = t
join sep (t ∷ u ∷ ts) = t ++ sep ++ join sep (u ∷ ts)
