-- ===== src/Audio/Silence.antt =====
-- What the measurements of silence are at least and at most.
use technical_tts.Prelude.{
  ℕ, zero, suc, ◌+◌, ◌-◌, ◌≤◌, ◌≡◌, refl, ◌∙◌, sym, subst, Bool, true, false, not, ◌&&◌, List,
  length, ltb, leb, leb→le, &&_iff, if◌then◌else◌, arith,
}
use technical_tts.Audio.{
  Signal, IsLawful, drop, take, slice, leading_loop, leading_silent_samples, trailing_loop,
  trailing_silent_samples, measure_edge_silence, max, samples_for, edge_analysis_frame_ms,
}
use technical_tts.Audio.Zeros.{AreZero, All-slice}

if-le : (b : Bool) (x y n : ℕ) → (b ≡ true → x ≤ n) → (b ≡ false → y ≤ n) → (if b then x else y) ≤ n
if-le true x y n f g = f refl
if-le false x y n f g = g refl

le-if : (b : Bool) (x y n : ℕ) → (b ≡ true → n ≤ x) → (b ≡ false → n ≤ y) → n ≤ (if b then x else y)
le-if true x y n f g = f refl
le-if false x y n f g = g refl

le_refl : (n : ℕ) → n ≤ n
le_refl n = omega arith

zero_le : (n : ℕ) → 0 ≤ n
zero_le n = omega arith

module _ (s : Signal) where
  open s use {Sample, above, within}

  leading_loop-le :
      (fuel frame silent : ℕ) (xs : List Sample)
      → silent ≤ length xs
      → leading_loop s fuel frame silent xs ≤ length xs
  unfolding leading_loop
  leading_loop-le zero frame silent xs h = h
  leading_loop-le (suc fuel) frame silent xs h =
      if-le _ _ _ _
        (λ e.
          leading_loop-le fuel frame (silent + frame) xs
            (leb→le _ _ ((&&_iff (leb (silent + frame) (length xs)) _).0 e).0))
        (λ e. h)

  le-leading_loop :
      (fuel frame silent : ℕ) (xs : List Sample) → silent ≤ leading_loop s fuel frame silent xs
  unfolding leading_loop
  le-leading_loop zero frame silent xs = omega arith
  le-leading_loop (suc fuel) frame silent xs =
      let later = le-leading_loop fuel frame (silent + frame) xs in
      let grown : silent ≤ leading_loop s fuel frame (silent + frame) xs = omega arith in
      le-if _ _ _ _ (λ e. grown) (λ e. le_refl silent)

  trailing_loop-le :
      (fuel frame silent : ℕ) (xs : List Sample)
      → silent ≤ length xs
      → trailing_loop s fuel frame silent xs ≤ length xs
  unfolding trailing_loop
  trailing_loop-le zero frame silent xs h = h
  trailing_loop-le (suc fuel) frame silent xs h =
      if-le _ _ _ _
        (λ e.
          trailing_loop-le fuel frame (silent + frame) xs
            (leb→le _ _ ((&&_iff (leb (silent + frame) (length xs)) _).0 e).0))
        (λ e. h)

  le-trailing_loop :
      (fuel frame silent : ℕ) (xs : List Sample) → silent ≤ trailing_loop s fuel frame silent xs
  unfolding trailing_loop
  le-trailing_loop zero frame silent xs = omega arith
  le-trailing_loop (suc fuel) frame silent xs =
      let later = le-trailing_loop fuel frame (silent + frame) xs in
      let grown : silent ≤ trailing_loop s fuel frame (silent + frame) xs = omega arith in
      le-if _ _ _ _ (λ e. grown) (λ e. le_refl silent)

  leading_silent_samples-le :
      (xs : List Sample) (rate : ℕ) → leading_silent_samples s xs rate ≤ length xs
  unfolding leading_silent_samples
  leading_silent_samples-le xs rate =
      let frame = max (samples_for edge_analysis_frame_ms rate) 1 in
      let silent = leading_loop s (suc (length xs)) frame 0 xs in
      if-le (ltb (length xs - silent) frame && within (drop silent xs)) (length xs) silent
        (length xs) (λ e. le_refl (length xs))
        (λ e. leading_loop-le (suc (length xs)) frame 0 xs (zero_le (length xs)))

  trailing_silent_samples-le :
      (xs : List Sample) (rate : ℕ) → trailing_silent_samples s xs rate ≤ length xs
  unfolding trailing_silent_samples
  trailing_silent_samples-le xs rate =
      let frame = max (samples_for edge_analysis_frame_ms rate) 1 in
      let silent = trailing_loop s (suc (length xs)) frame 0 xs in
      if-le (ltb (length xs - silent) frame && within (take (length xs - silent) xs)) (length xs)
        silent (length xs) (λ e. le_refl (length xs))
        (λ e. trailing_loop-le (suc (length xs)) frame 0 xs (zero_le (length xs)))

  -- Neither measurement passes the samples.
  pub measure_edge_silence-le :
      (xs : List Sample) (rate : ℕ)
      → ((measure_edge_silence s xs rate).0 ≤ length xs)
        × ((measure_edge_silence s xs rate).1 ≤ length xs)
  unfolding measure_edge_silence
  measure_edge_silence-le xs rate = (
    leading_silent_samples-le xs rate,
    if-le _ _ _ _ (λ e. leading_silent_samples-le xs rate)
        (λ e. trailing_silent_samples-le xs rate),
  )

  module _ (lawful : IsLawful s) where
    leading_test :
        (frame silent : ℕ) (xs : List Sample)
        → silent + frame ≤ length xs
        → AreZero s silent (silent + frame) xs
        → (leb (silent + frame) (length xs) && not (above (slice silent (silent + frame) xs)))
          ≡ true
    leading_test frame silent xs fits zeros =
        let count : silent + frame - silent ≡ frame = omega arith in
        let quiet =
          (lawful.zeros_quiet (take frame (drop silent xs))
            (All-slice s silent frame xs zeros)).0 in
        let fit : leb (silent + frame) (length xs) ≡ true = ground (arith, fits) in
        rw (count, quiet, fit) refl

    trailing_test :
        (frame silent : ℕ) (xs : List Sample)
        → silent + frame ≤ length xs
        → AreZero s (length xs - silent - frame) (length xs - silent) xs
        → (leb (silent + frame) (length xs)
            && not (above (slice (length xs - silent - frame) (length xs - silent) xs)))
          ≡ true
    trailing_test frame silent xs fits zeros =
        let count : length xs - silent - (length xs - silent - frame) ≡ frame = omega arith in
        let stop : length xs - silent - frame + frame ≡ length xs - silent = omega arith in
        let quiet =
          (lawful.zeros_quiet (take frame (drop (length xs - silent - frame) xs)) (
            All-slice s (length xs - silent - frame) frame xs
              (λ i a b. zeros i a (omega arith)))).0 in
        let fit : leb (silent + frame) (length xs) ≡ true = ground (arith, fits) in
        rw (count, quiet, fit) refl

    leading_loop-step :
        (fuel frame silent : ℕ) (xs : List Sample)
        → silent + frame ≤ length xs
        → AreZero s silent (silent + frame) xs
        → leading_loop s (suc fuel) frame silent xs ≡ leading_loop s fuel frame (silent + frame) xs
    unfolding leading_loop
    leading_loop-step fuel frame silent xs fits zeros =
        rw (leading_test frame silent xs fits zeros) refl

    trailing_loop-step :
        (fuel frame silent : ℕ) (xs : List Sample)
        → silent + frame ≤ length xs
        → AreZero s (length xs - silent - frame) (length xs - silent) xs
        → trailing_loop s (suc fuel) frame silent xs
          ≡ trailing_loop s fuel frame (silent + frame) xs
    unfolding trailing_loop
    trailing_loop-step fuel frame silent xs fits zeros =
        rw (trailing_test frame silent xs fits zeros) refl

    -- Two frames of zeros at an edge are both measured; a frame is 120 samples.
    pub leading_silent_samples-zeros :
        (xs : List Sample)
        → 240 ≤ length xs
        → AreZero s 0 240 xs
        → 240 ≤ leading_silent_samples s xs 24000
    unfolding leading_silent_samples
    leading_silent_samples-zeros xs long zeros =
        let fuel = length xs - 1 in
        let enough : suc (length xs) ≡ suc (suc fuel) = omega arith in
        let first =
          leading_loop-step (suc fuel) 120 0 xs (omega arith)
            (λ i a b. zeros i (omega arith) (omega arith)) in
        let second =
          leading_loop-step fuel 120 120 xs (omega arith)
            (λ i a b. zeros i (omega arith) (omega arith)) in
        let later = le-leading_loop fuel 120 240 xs in
        let reached : 240 ≤ leading_loop s (suc (length xs)) 120 0 xs =
          rw enough (subst (λ n. 240 ≤ n) (sym (first ∙ second)) later) in
        le-if _ _ _ _ (λ e. long) (λ e. reached)

    pub trailing_silent_samples-zeros :
        (xs : List Sample)
        → 240 ≤ length xs
        → AreZero s (length xs - 240) (length xs) xs
        → 240 ≤ trailing_silent_samples s xs 24000
    unfolding trailing_silent_samples
    trailing_silent_samples-zeros xs long zeros =
        let fuel = length xs - 1 in
        let enough : suc (length xs) ≡ suc (suc fuel) = omega arith in
        let first =
          trailing_loop-step (suc fuel) 120 0 xs (omega arith)
            (λ i a b. zeros i (omega arith) (omega arith)) in
        let second =
          trailing_loop-step fuel 120 120 xs (omega arith)
            (λ i a b. zeros i (omega arith) (omega arith)) in
        let later = le-trailing_loop fuel 120 240 xs in
        let reached : 240 ≤ trailing_loop s (suc (length xs)) 120 0 xs =
          rw enough (subst (λ n. 240 ≤ n) (sym (first ∙ second)) later) in
        le-if _ _ _ _ (λ e. long) (λ e. reached)

    -- Both measurements find the zeros at both edges.
    pub measure_edge_silence-zeros :
        (xs : List Sample)
        → 240 ≤ length xs
        → AreZero s 0 240 xs
        → AreZero s (length xs - 240) (length xs) xs
        → (240 ≤ (measure_edge_silence s xs 24000).0) × (240 ≤ (measure_edge_silence s xs 24000).1)
    unfolding measure_edge_silence
    measure_edge_silence-zeros xs long front back =
        let leading = leading_silent_samples-zeros xs long front in
        (leading, le-if _ _ _ _ (λ e. leading) (λ e. trailing_silent_samples-zeros xs long back))
