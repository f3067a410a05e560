-- ===== src/Text/Decimal/Padded.antt =====
-- Decimal texts with zeros in front.
use technical_tts.Prelude.{
  ℕ, zero, suc, ◌+◌, ◌-◌, ◌*◌, ◌/◌, ◌%◌, ◌≤◌, ◌<◌, ◌≡◌, ap, sym, ◌∙◌, some, [], ◌∷◌, length,
  length-append, replicate, All, All-append, Option, arith, Bool-cases, inl, inr, ltb, ltb→lt,
  ltb_false→le,
}
use technical_tts.Text.{Text}
use technical_tts.Text.Decimal.{to_decimal, parse_decimal, padded}
use technical_tts.Text.Decimal.RoundTrip.{
  IsDigit, parse-to_decimal, parse_decimal-zeros, All-to_decimal, to_decimal_small,
  to_decimal_large,
}

All-replicate : (k : ℕ) → All IsDigit (replicate k b'0')
All-replicate zero = tt
All-replicate (suc k) = (omega arith, All-replicate k)

pub All-padded : (width n : ℕ) → All IsDigit (padded width n)
All-padded width n =
    All-append IsDigit _ _ (All-replicate (width - length (to_decimal n))) (All-to_decimal n)

pub parse-padded : (max width n : ℕ) → n ≤ max → parse_decimal max (padded width n) ≡ some n
parse-padded max width n h =
    parse_decimal-zeros max (width - length (to_decimal n)) (to_decimal n)
    ∙ parse-to_decimal max n h

some_injective : (m n : ℕ) → ◌≡◌ {A = Option ℕ} (some m) (some n) → m ≡ n
some_injective m n h = ground (arith, h)

-- Two numbers with the same text are the same.
pub padded_injective : (width m n : ℕ) → padded width m ≡ padded width n → m ≡ n
padded_injective width m n h = some_injective m n (
    sym (parse-padded (m + n) width m (omega arith))
    ∙ ap (parse_decimal (m + n)) h
    ∙ parse-padded (m + n) width n (omega arith))

length-replicate : (k b : ℕ) → length (replicate k b) ≡ k
length-replicate zero b = omega arith
length-replicate (suc k) b = omega (arith, length-replicate k b)

abbrev ten_to : ℕ → ℕ
ten_to zero = 1
ten_to (suc k) = 10 * ten_to k

length-to_decimal : (k n : ℕ) → n < ten_to (suc k) → length (to_decimal n) ≤ suc k
length-to_decimal zero n h =
    let small = ap (λ (t : Text). length t) (to_decimal_small n (omega arith)) in omega arith
length-to_decimal (suc k) n h = elim (Bool-cases (ltb 9 n)) [
  | inl e ↦
      let large = to_decimal_large n (ltb→lt 9 n e) in
      let parts = ap (λ (t : Text). length t) large in
      let front = length-append (to_decimal (n / 10)) ((b'0' + n % 10) ∷ []) in
      let ih = length-to_decimal k (n / 10) (omega arith) in omega arith
  | inr e ↦
      let small = ap (λ (t : Text). length t) (to_decimal_small n (ltb_false→le 9 n e)) in
      omega arith
]

pub length-padded : (width n : ℕ) → n < 100000 → length (padded width n) ≤ width + 5
length-padded width n h =
    let digits = length-to_decimal 4 n (omega arith) in
    let zeros = length-replicate (width - length (to_decimal n)) b'0' in
    let parts = length-append (replicate (width - length (to_decimal n)) b'0') (to_decimal n) in
    omega arith
