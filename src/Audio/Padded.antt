-- ===== src/Audio/Padded.antt =====
-- The audio with silent, padded edges, before the ramps.
use technical_tts.Prelude.{
  ℕ, ◌+◌, ◌-◌, ◌<◌, ◌≤◌, ◌≡◌, ◌⊎◌, inl, inr, ◌∙◌, subst, true, List, ◌++◌, length, length-append,
  replicate, All, All-append, Bool-cases, ltb, ltb→lt, ltb_false→le, arith,
}
use technical_tts.Audio.{Signal, IsLawful, fill_front, fill_back, padded_edges}
use technical_tts.Audio.Zeros.{
  zero_at, length-fill_front, length-fill_back, length-replicate, All-fill_front, All-fill_back,
  All-replicate, zero_at-fill_front, zero_at-fill_back, zero_at-fill_back_kept, zero_at-front,
  zero_at-shifted, zero_at-back,
}

module _ (s : Signal) where
  open s use {Sample, silence, in_range}

  pub length-padded_edges :
      (leading trailing p q : ℕ) (xs : List Sample)
      → length (padded_edges s leading trailing p q xs) ≡ p + length xs + q
  length-padded_edges leading trailing p q xs =
      let filled = fill_back (length xs - trailing) silence (fill_front leading silence xs) in
      let a = length-append (replicate p silence) (filled ++ replicate q silence) in
      let b = length-append filled (replicate q silence) in
      let c = length-fill_back (length xs - trailing) silence (fill_front leading silence xs) in
      let d = length-fill_front leading silence xs in
      let e = length-replicate p silence in let f = length-replicate q silence in omega arith

  module _ (lawful : IsLawful s) where
    pub All-padded_edges :
        (leading trailing p q : ℕ) (xs : List Sample)
        → All (λ x. in_range x ≡ true) xs
        → All (λ x. in_range x ≡ true) (padded_edges s leading trailing p q xs)
    All-padded_edges leading trailing p q xs h =
        let P : Sample → Type 0 = λ x. in_range x ≡ true in
        let zero = lawful.silence_range in
        let filled = fill_back (length xs - trailing) silence (fill_front leading silence xs) in
        All-append P (replicate p silence) (filled ++ replicate q silence)
          (All-replicate P p silence zero)
          (All-append P filled (replicate q silence)
            (All-fill_back P (length xs - trailing) silence (fill_front leading silence xs) zero
              (All-fill_front P leading silence xs zero h))
            (All-replicate P q silence zero))

    -- The padded edges are zero, inside and outside of the audio that was given.
    pub padded_edges-zero :
        (leading trailing p q i : ℕ) (xs : List Sample)
        → (i < p + leading) ⊎ (p + length xs - trailing ≤ i)
        → zero_at s i (padded_edges s leading trailing p q xs) ≡ true
    padded_edges-zero leading trailing p q i xs h = elim (Bool-cases (ltb i p)) [
      | inl e ↦ zero_at-front s lawful i p _ (ltb→lt i p e)
      | inr e ↦
          let le = ltb_false→le i p e in
          let front = fill_front leading silence xs in
          let filled = fill_back (length xs - trailing) silence front in
          let same : p + (i - p) ≡ i = omega arith in
          let inside : zero_at s (i - p) filled ≡ true = elim h [
            | inl low ↦
                zero_at-fill_back_kept s lawful (i - p) (length xs - trailing) front
                  (zero_at-fill_front s lawful (i - p) leading xs (omega arith))
            | inr high ↦
                zero_at-fill_back s lawful (i - p) (length xs - trailing) front (omega arith)
          ] in
          subst (λ n. zero_at s n (padded_edges s leading trailing p q xs) ≡ true) same
            (zero_at-shifted s lawful (i - p) p (filled ++ replicate q silence)
              ∙ zero_at-back s lawful (i - p) q filled inside)
    ]
