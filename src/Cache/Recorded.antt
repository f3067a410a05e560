-- ===== src/Cache/Recorded.antt =====
-- The record of a conditioning describes the audio that was conditioned.
use technical_tts.Prelude.{
  ℕ, suc, ◌+◌, ◌-◌, ◌/◌, ◌<◌, ◌≤◌, ◌≡◌, ◌≢◌, inl, inr, refl, sym, subst, Bool, true, false,
  Bool-cases, List, length, ltb, ltb→lt, ltb_false→le, arith,
}
use technical_tts.Audio.{Signal, EdgeConditioning, provisional, min}
use technical_tts.Audio.Zeros.{zero_at, zero_at-beyond, AreZero}
use technical_tts.Audio.Speech.{IsConditioned, IsSpeech}
use technical_tts.Cache.{new_recorded}
use technical_tts.Cache.Conditioning.{maximum_ramp}
use technical_tts.Cache.Declared.{Spans, IsDeclared}

module _ (s : Signal) where
  open s use {Sample}

  clash : (b : Bool) → b ≡ true → b ≡ false → (n m : ℕ) → n < m
  clash b t f n m = absurd (ground (arith, t, f))

  heard_inside : (i : ℕ) (ys : List Sample) → zero_at s i ys ≡ false → i < length ys
  heard_inside i ys h = elim (Bool-cases (ltb i (length ys))) [
    | inl e ↦ ltb→lt i (length ys) e
    | inr e ↦
        clash (zero_at s i ys) (zero_at-beyond s i ys (ltb_false→le i (length ys) e)) h i
          (length ys)
  ]

  heard_before :
      (i to : ℕ) (ys : List Sample) → AreZero s to (length ys) ys → zero_at s i ys ≡ false → i < to
  heard_before i to ys zeros h = elim (Bool-cases (ltb i to)) [
    | inl e ↦ ltb→lt i to e
    | inr e ↦ clash (zero_at s i ys) (zeros i (ltb_false→le i to e) (heard_inside i ys h)) h i to
  ]

  heard_from :
      (i from : ℕ) (ys : List Sample) → AreZero s 0 from ys → zero_at s i ys ≡ false → from < suc i
  heard_from i from ys zeros h = elim (Bool-cases (ltb i from)) [
    | inl e ↦ clash (zero_at s i ys) (zeros i (omega arith) (ltb→lt i from e)) h from (suc i)
    | inr e ↦ let le = ltb_false→le i from e in omega arith
  ]

  heard_not : (i k : ℕ) (ys : List Sample) → zero_at s k ys ≡ true → zero_at s i ys ≡ false → i ≢ k
  heard_not i k ys z h same =
      absurd (let e = subst (λ n. zero_at s n ys ≡ false) same h in ground (arith, z, e))

  min_below : (m n b : ℕ) → m ≤ 120 → n ≤ b → min m n ≤ min 120 b
  min_below m n b h k = ground (arith, h, k)

  maximum_le : (ys : List Sample) → maximum_ramp s ys ≤ 120
  maximum_le ys = ground arith

  positive_ramp : (d r : ℕ) → 2 ≤ d → r ≡ min 120 (d / 2) → 0 < r
  positive_ramp d r h e = ground (arith, h, e)

  IsSpeech-Spans :
      (xs ys : List Sample) (padding ramp : ℕ) → IsSpeech s xs ys padding ramp → Spans s ys ramp
  IsSpeech-Spans xs ys padding ramp p i j lt zi zj =
      let a = heard_from i p.from ys p.before zi in
      let b = heard_before j p.to ys p.behind zj in
      let some_ramp = positive_ramp (p.to - p.from) ramp (omega arith) p.ramp_is in
      let c = heard_not i p.from ys (p.onset some_ramp) zi in
      let d = heard_not j (p.to - 1) ys (p.end_zero some_ramp) zj in
      let span : (j - i + 3) / 2 ≤ (p.to - p.from) / 2 = omega (arith, c, d) in
      let below =
        min_below (maximum_ramp s ys) ((j - i + 3) / 2) ((p.to - p.from) / 2) (maximum_le ys)
          span in
      subst (λ r. min (maximum_ramp s ys) ((j - i + 3) / 2) ≤ r) (sym p.ramp_is) below

  ramp_fits : (n d r : ℕ) → d + 480 ≤ n → r ≡ min 120 (d / 2) → r ≤ min 120 ((n - 480) / 2)
  ramp_fits n d r h e = ground (arith, h, e)

  IsConditioned-fits :
      (xs ys : List Sample) (c : EdgeConditioning)
      → IsConditioned s xs ys c
      → c.leading_ramp ≤ maximum_ramp s ys
  IsConditioned-fits xs ys c w = elim w.speech [
    | inl (whole, zeros, silent) ↦ omega (arith, silent)
    | inr p ↦
        let a = p.front in
        let b = p.back in
        let o = p.ordered in
        ramp_fits (length ys) (p.to - p.from) c.leading_ramp (omega arith) p.ramp_is
  ]

  IsConditioned-Spans :
      (xs ys : List Sample) (c : EdgeConditioning)
      → IsConditioned s xs ys c
      → Spans s ys c.leading_ramp
  IsConditioned-Spans xs ys c w = elim w.speech [
    | inl (whole, zeros, silent) ↦ λ i j lt zi zj.
        let never : 1 < 0 =
          clash (zero_at s i ys) (zeros i (omega arith) (heard_inside i ys zi)) zi 1 0 in
        absurd (omega arith)
    | inr p ↦ IsSpeech-Spans xs ys c.leading_padding c.leading_ramp p
  ]

  -- What the conditioner records passes the check of the record.
  pub IsConditioned-IsDeclared :
      (xs ys : List Sample) (c : EdgeConditioning)
      → IsConditioned s xs ys c
      → IsDeclared s (new_recorded c provisional) ys
  IsConditioned-IsDeclared xs ys c w = record {
    leading_padding_le = w.leading_padding_le;
    trailing_padding_le = w.trailing_padding_le;
    applied = refl;
    same_ramp = w.same_ramp;
    ramp_le = IsConditioned-fits xs ys c w;
    spans = IsConditioned-Spans xs ys c w;
  }
