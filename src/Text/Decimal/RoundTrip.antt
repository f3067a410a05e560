-- ===== src/Text/Decimal/RoundTrip.antt =====
-- Decimal text and numbers: printing then parsing, and parsing then printing, give the start back.
use mathlib.Core.Logic.{dif_pos, dif_neg}
use mathlib.Core.WellFounded.{Acc}
use native.Mathlib.Decide.{dec_lt}
use native.Mathlib.Bridge.{le_prop}
use technical_tts.Prelude.{
  ℕ, zero, suc, ◌+◌, ◌-◌, ◌*◌, ◌/◌, ◌%◌, ◌≤◌, ◌<◌, ◌≡◌, ◌≢◌, refl, sym, subst, ap, ◌∙◌, some, [],
  ◌∷◌, ◌++◌, replicate, append_assoc, append-nil, arith, All, All-append,
}
use technical_tts.Text.Order.{Text}
use technical_tts.Text.Decimal.{lt_wf, emit, to_decimal, scan, parse_decimal}

-- The digit `0` to `9` as a byte.
abbrev pub IsDigit : ℕ → Type 0
IsDigit c = (b'0' ≤ c) × (c ≤ b'9')

emit_small : (n : ℕ) (w : Acc ◌<◌ n) → n ≤ 9 → emit n w ≡ (b'0' + n) ∷ []
unfolding emit
emit_small n (Acc.intro _ f) h = rw (dif_neg _ (λ (p : 9 < n). omega arith))

emit_irrelevant : (n : ℕ) (w w' : Acc ◌<◌ n) → emit n w ≡ emit n w'
unfolding emit
emit_irrelevant n (Acc.intro _ f) (Acc.intro _ g) = elim (dec_lt 9 n) [
  | yes p ↦
      rw (dif_pos _ le_prop p, dif_pos _ le_prop p)
        (ap (λ t. t ++ (b'0' + n % 10) ∷ [])
          (emit_irrelevant (n / 10) (f (n / 10) _) (g (n / 10) _)))
  | no p ↦ rw (dif_neg _ p, dif_neg _ p)
]

pub to_decimal_small : (n : ℕ) → n ≤ 9 → to_decimal n ≡ (b'0' + n) ∷ []
unfolding to_decimal
to_decimal_small n h = emit_small n (lt_wf.apply n) h

emit_large :
    (n : ℕ) (w : Acc ◌<◌ n) → 9 < n → emit n w ≡ to_decimal (n / 10) ++ (b'0' + n % 10) ∷ []
unfolding emit to_decimal
emit_large n (Acc.intro _ f) h = rw (dif_pos _ le_prop h) (
    ap (λ t. t ++ (b'0' + n % 10) ∷ [])
      (emit_irrelevant (n / 10) (f (n / 10) _) (lt_wf.apply (n / 10))))

pub to_decimal_large : (n : ℕ) → 9 < n → to_decimal n ≡ to_decimal (n / 10) ++ (b'0' + n % 10) ∷ []
unfolding to_decimal
to_decimal_large n h = emit_large n (lt_wf.apply n) h

scan-append :
    (max acc k : ℕ) (s t : Text) → scan max acc s ≡ some k → scan max acc (s ++ t) ≡ scan max k t
unfolding scan
scan-append max acc k [] t h = ground arith
scan-append max acc k (c ∷ s) t h = ground (arith, scan-append max (acc * 10 + (c - b'0')) k s t)

-- The digits below hold for every bound on the number, by recursion on the bound.
parse-to_decimal_below : (b max n : ℕ) → n < b → n ≤ max → scan max 0 (to_decimal n) ≡ some n
parse-to_decimal_below zero max n lt h = absurd (omega arith)
parse-to_decimal_below (suc b) max n lt h = elim (dec_lt 9 n) [
  | yes p ↦ rw (to_decimal_large n p) (
      scan-append max 0 (n / 10) (to_decimal (n / 10)) ((b'0' + n % 10) ∷ [])
        (parse-to_decimal_below b max (n / 10) (omega arith) (omega arith))
      ∙ (unfold scan in ground arith))
  | no p ↦ rw (to_decimal_small n (omega arith)) (unfold scan in ground arith)
]

-- Printing a number that the type holds and parsing the text gives the number back.
pub parse-to_decimal : (max n : ℕ) → n ≤ max → parse_decimal max (to_decimal n) ≡ some n
unfolding parse_decimal
parse-to_decimal max n h = parse-to_decimal_below (suc n) max n (omega arith) h

scan-zeros : (max k : ℕ) (s : Text) → scan max 0 (replicate k b'0' ++ s) ≡ scan max 0 s
unfolding scan
scan-zeros max zero s = refl
scan-zeros max (suc k) s = ground (arith, scan-zeros max k s)

-- Zeros in front are read as nothing.
pub parse_decimal-zeros :
    (max k : ℕ) (s : Text) → parse_decimal max (replicate k b'0' ++ s) ≡ parse_decimal max s
unfolding parse_decimal
parse_decimal-zeros max k s = scan-zeros max k s

All-to_decimal_below : (b n : ℕ) → n < b → All IsDigit (to_decimal n)
All-to_decimal_below zero n lt = absurd (omega arith)
All-to_decimal_below (suc b) n lt = elim (dec_lt 9 n) [
  | yes p ↦ rw (to_decimal_large n p) (
      All-append IsDigit (to_decimal (n / 10)) _ (All-to_decimal_below b (n / 10) (omega arith))
        (omega arith))
  | no p ↦ rw (to_decimal_small n (omega arith)) (omega arith)
]

pub All-to_decimal : (n : ℕ) → All IsDigit (to_decimal n)
All-to_decimal n = All-to_decimal_below (suc n) n (omega arith)

scan_step :
    (max acc n c : ℕ) (s : Text)
    → scan max acc (c ∷ s) ≡ some n
    → scan max (acc * 10 + (c - b'0')) s ≡ some n
unfolding scan
scan_step max acc n c s h = ground arith

scan_fits :
    (max acc n c : ℕ) (s : Text) → scan max acc (c ∷ s) ≡ some n → acc * 10 + (c - b'0') ≤ max
unfolding scan
scan_fits max acc n c s h = ground arith

-- With digits already read, each one more is one more byte of the printed number.
to_decimal-scan :
    (max acc n : ℕ) (s : Text)
    → 0 < acc
    → All IsDigit s
    → scan max acc s ≡ some n
    → to_decimal n ≡ to_decimal acc ++ s
to_decimal-scan max acc n [] pos d h = rw append-nil (unfold scan in ground arith)
to_decimal-scan max acc n (c ∷ s) pos d h =
    let acc' = acc * 10 + (c - b'0') in
    let tenth : acc' / 10 ≡ acc = omega arith in
    let last : b'0' + acc' % 10 ≡ c = omega arith in
    to_decimal-scan max acc' n s (omega arith) d.1 (scan_step max acc n c s h)
    ∙ ap (λ t. t ++ s) (to_decimal_large acc' (omega arith) ∙ rw (tenth, last))
    ∙ append_assoc (to_decimal acc) (c ∷ []) s

scan-le : (max acc n : ℕ) (s : Text) → acc ≤ max → scan max acc s ≡ some n → n ≤ max
scan-le max acc n [] h e = unfold scan in ground arith
scan-le max acc n (c ∷ s) h e =
    scan-le max (acc * 10 + (c - b'0')) n s (scan_fits max acc n c s e) (scan_step max acc n c s e)

-- A value of the type comes out, never a larger one.
pub parse_decimal-le : (max n : ℕ) (s : Text) → parse_decimal max s ≡ some n → n ≤ max
unfolding parse_decimal
parse_decimal-le max n s h = scan-le max 0 n s (omega arith) h

-- The spelling that `to_string` writes: digits, and no zero before another digit.
abbrev pub IsCanonical : Text → Type 0
IsCanonical [] = ⊥
IsCanonical (c ∷ []) = IsDigit c
IsCanonical (c ∷ d ∷ s) = (c ≢ b'0') × All IsDigit (c ∷ d ∷ s)

-- Parsing a canonical spelling and printing the number gives the spelling back.
pub to_decimal-parse :
    (max n : ℕ) (s : Text) → IsCanonical s → parse_decimal max s ≡ some n → to_decimal n ≡ s
unfolding parse_decimal
to_decimal-parse max n [] v h = absurd v
to_decimal-parse max n (c ∷ []) v h =
    let e : n ≡ c - b'0' = (unfold scan in ground arith) in
    to_decimal_small n (omega arith) ∙ (ground arith)
to_decimal-parse max n (c ∷ d ∷ s) v h =
    let first : 0 * 10 + (c - b'0') ≡ c - b'0' = omega arith in
    to_decimal-scan max (0 * 10 + (c - b'0')) n (d ∷ s) (omega arith) v.1.1
      (scan_step max 0 n c (d ∷ s) h)
    ∙ rw (first, to_decimal_small (c - b'0') (omega arith)) (ground arith)

-- A positive number does not begin with a zero.
first_digit : (b n : ℕ) → n < b → 0 < n → (c : ℕ) × (s : Text) × (to_decimal n ≡ c ∷ s) × (c ≢ b'0')
first_digit zero n lt pos = absurd (omega arith)
first_digit (suc b) n lt pos = elim (dec_lt 9 n) [
  | yes p ↦
      let (c, s, e, ne) = first_digit b (n / 10) (omega arith) (omega arith) in
      (c, s ++ (b'0' + n % 10) ∷ [], to_decimal_large n p ∙ rw e, ne)
  | no p ↦ (b'0' + n, [], to_decimal_small n (omega arith), (λ e. omega arith))
]

IsCanonical-cons : (c : ℕ) (s : Text) → c ≢ b'0' → All IsDigit (c ∷ s) → IsCanonical (c ∷ s)
IsCanonical-cons c [] ne d = d.0
IsCanonical-cons c (x ∷ s) ne d = (ne, d)

-- `to_string` writes the canonical spelling.
pub to_decimal-IsCanonical : (n : ℕ) → IsCanonical (to_decimal n)
to_decimal-IsCanonical zero = rw (to_decimal_small 0 (omega arith)) (omega arith)
to_decimal-IsCanonical (suc n) =
    let (c, s, e, ne) = first_digit (suc (suc n)) (suc n) (omega arith) (omega arith) in
    subst IsCanonical (sym e)
      (IsCanonical-cons c s ne (subst (All IsDigit) e (All-to_decimal (suc n))))
