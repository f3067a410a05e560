-- ===== src/Text/Decimal.antt =====
-- Unsigned integers in decimal: `to_string`, and `parse` into a type that holds less than a bound.
pub mod RoundTrip
pub mod Padded
use mathlib.Core.Logic.{dite}
use mathlib.Core.WellFounded.{Acc, WellFounded}
use native.Mathlib.Decide.{dec_lt}
use technical_tts.Prelude.{
  ℕ, zero, suc, ◌+◌, ◌-◌, ◌*◌, ◌/◌, ◌%◌, ◌≤◌, ◌<◌, ◌≡◌, refl, Bool, true, false, Option, none, some,
  List, [], ◌∷◌, ◌++◌, append_assoc, arith, All, all, length, replicate, ltb, leb, ◌==◌,
  if◌then◌else◌,
}
use technical_tts.Text.Order.{Text}

Acc-below : (k n : ℕ) → n < k → Acc ◌<◌ n
Acc-below zero n h = absurd (omega arith)
Acc-below (suc k) n h = Acc.intro n (λ m hm. Acc-below k m (omega arith))

lt_wf : WellFounded ◌<◌
unfolding Acc-below
lt_wf = record { apply = λ n. Acc-below (suc n) n (omega arith) }

emit : (n : ℕ) → Acc ◌<◌ n → Text
emit n (Acc.intro _ smaller) =
    dite (dec_lt 9 n) (λ h. emit (n / 10) (smaller (n / 10) (omega arith)) ++ (b'0' + n % 10) ∷ [])
      (λ _. (b'0' + n) ∷ [])

-- `n.to_string()`.
unfoldable pub to_decimal : ℕ → Text
unfolding emit lt_wf dec_lt
to_decimal n = emit n (lt_wf.apply n)

-- One digit more, refused where the value would pass `max`.
push_digit : ℕ → ℕ → ℕ → Option ℕ
push_digit max acc c =
    if leb (acc * 10 + (c - b'0')) max then some (acc * 10 + (c - b'0')) else none

scan : ℕ → ℕ → Text → Option ℕ
unfolding push_digit
scan max acc [] = some acc
scan max acc (c ∷ s) = elim (push_digit max acc c) [ none ↦ none | some acc' ↦ scan max acc' s ]

-- `s.parse::<uN>()` on a text of digits, where the type holds up to `max`.
unfoldable pub parse_decimal : ℕ → Text → Option ℕ
unfolding scan
parse_decimal max s = scan max 0 s

to_decimal_large : to_decimal 65535 ≡ 54 ∷ 53 ∷ 53 ∷ 51 ∷ 53 ∷ []
unfolding to_decimal
to_decimal_large = refl

-- `{:02}`, `{:03}` and `{:04}`.
abbrev pub padded : ℕ → ℕ → Text
padded width n = replicate (width - length (to_decimal n)) b'0' ++ to_decimal n
