-- ===== src/Audio/Floats.antt =====
-- crates/study-tts-runtime/src/audio_edges.rs: `raised_cosine_gain` and `frame_rms`, and the signal that
-- they make over the operations of `f32` and `f64`.
use technical_tts.Prelude.{ℕ, suc, ◌<◌, ◌≡◌, ap, ◌∙◌, Bool, true, false, List, [], ◌∷◌, length, All}
use technical_tts.Audio.{Signal, IsLawful}

-- `f32` and `f64`, with the operations that the code applies.
pub record Floats : Type 1 where
  pub Single : Type 0
  pub Double : Type 0
  pub nought : Single
  pub one : Single
  pub half : Single
  pub pi : Single
  pub of_usize : ℕ → Single
  pub sub : Single → Single → Single
  pub mul : Single → Single → Single
  pub div : Single → Single → Single
  pub cos : Single → Single
  pub is_finite : Single → Bool
  -- `== 0.0`, from 0.0 to 1.0, and finite with a magnitude of at most 1.0.
  pub is_zero : Single → Bool
  pub is_gain : Single → Bool
  pub in_range : Single → Bool
  pub greater : Single → Single → Bool
  pub at_most : Single → Single → Bool
  pub threshold : Single
  -- `f64::from`, `powi(2)`, what a sum starts from, `+`, `/` by a length, `sqrt` and `as f32`.
  pub widen : Single → Double
  pub square : Double → Double
  pub start : Double
  pub add : Double → Double → Double
  pub over : Double → ℕ → Double
  pub sqrt : Double → Double
  pub narrow : Double → Single
  pub is_zero_double : Double → Bool

-- What IEEE 754 and `f32::cos` promise of these, and that the threshold is not negative.
pub record IsFloats (f : Floats) : Type 0 where
  pub nought_zero : f.is_zero f.nought ≡ true
  pub nought_range : f.in_range f.nought ≡ true
  pub angle_finite :
      (o l : ℕ) → o < l → f.is_finite (f.mul f.pi (f.div (f.of_usize o) (f.of_usize l))) ≡ true
  pub start_angle : (l : ℕ) → 0 < l → f.is_zero (f.div (f.of_usize 0) (f.of_usize l)) ≡ true
  pub mul_zero :
      (x y : f.Single) → f.is_finite x ≡ true → f.is_zero y ≡ true → f.is_zero (f.mul x y) ≡ true
  pub pi_finite : f.is_finite f.pi ≡ true
  pub half_finite : f.is_finite f.half ≡ true
  pub range_finite : (x : f.Single) → f.in_range x ≡ true → f.is_finite x ≡ true
  pub cos_range : (x : f.Single) → f.is_finite x ≡ true → f.in_range (f.cos x) ≡ true
  pub cos_zero : (x : f.Single) → f.is_zero x ≡ true → f.cos x ≡ f.one
  pub one_less_one : f.is_zero (f.sub f.one f.one) ≡ true
  pub half_gap :
      (c : f.Single) → f.in_range c ≡ true → f.is_gain (f.mul f.half (f.sub f.one c)) ≡ true
  pub scaled_range :
      (x g : f.Single) → f.in_range x ≡ true → f.is_gain g ≡ true → f.in_range (f.mul x g) ≡ true
  pub scaled_zero :
      (x g : f.Single) → f.is_zero x ≡ true → f.is_gain g ≡ true → f.is_zero (f.mul x g) ≡ true
  pub widen_zero : (x : f.Single) → f.is_zero x ≡ true → f.is_zero_double (f.widen x) ≡ true
  pub square_zero :
      (x : f.Double) → f.is_zero_double x ≡ true → f.is_zero_double (f.square x) ≡ true
  pub start_zero : f.is_zero_double f.start ≡ true
  pub add_zero :
      (x y : f.Double)
      → f.is_zero_double x ≡ true
      → f.is_zero_double y ≡ true
      → f.is_zero_double (f.add x y) ≡ true
  pub over_zero :
      (x : f.Double) (n : ℕ)
      → f.is_zero_double x ≡ true
      → f.is_zero_double (f.over x (suc n)) ≡ true
  pub sqrt_zero : (x : f.Double) → f.is_zero_double x ≡ true → f.is_zero_double (f.sqrt x) ≡ true
  pub narrow_zero : (x : f.Double) → f.is_zero_double x ≡ true → f.is_zero (f.narrow x) ≡ true
  pub not_greater : (x : f.Single) → f.is_zero x ≡ true → f.greater x f.threshold ≡ false
  pub zero_at_most : (x : f.Single) → f.is_zero x ≡ true → f.at_most x f.threshold ≡ true

module _ (f : Floats) where
  open f use {Single, Double, is_zero, is_zero_double}

  unfoldable pub raised_cosine_gain : (offset length : ℕ) → Single
  raised_cosine_gain offset length =
      let position = f.div (f.of_usize offset) (f.of_usize length) in
      f.mul f.half (f.sub f.one (f.cos (f.mul f.pi position)))

  unfoldable pub sum_of_squares : Double → List Single → Double
  sum_of_squares sum [] = sum
  sum_of_squares sum (sample ∷ samples) =
      sum_of_squares (f.add sum (f.square (f.widen sample))) samples

  unfoldable pub frame_rms : List Single → Single
  frame_rms [] = f.nought
  frame_rms (sample ∷ samples) =
      let frame = sample ∷ samples in
      f.narrow (f.sqrt (f.over (sum_of_squares f.start frame) (length frame)))

  abbrev pub signal_of : Signal
  signal_of = record {
    Sample = Single;
    silence = f.nought;
    is_zero = is_zero;
    in_range = f.in_range;
    ramped = λ offset length sample. f.mul sample (raised_cosine_gain offset length);
    above = λ frame. f.greater (frame_rms frame) f.threshold;
    within = λ frame. f.at_most (frame_rms frame) f.threshold;
  }

  module _ (laws : IsFloats f) where
    gain-is : (o l : ℕ) → o < l → f.is_gain (raised_cosine_gain o l) ≡ true
    unfolding raised_cosine_gain
    gain-is o l h = laws.half_gap _ (laws.cos_range _ (laws.angle_finite o l h))

    first_gain-zero : (l : ℕ) → 0 < l → is_zero (raised_cosine_gain 0 l) ≡ true
    unfolding raised_cosine_gain
    first_gain-zero l h =
        let angle = laws.mul_zero f.pi _ laws.pi_finite (laws.start_angle l h) in
        laws.mul_zero f.half _ laws.half_finite
          (ap (λ c. is_zero (f.sub f.one c)) (laws.cos_zero _ angle) ∙ laws.one_less_one)

    sum-zero :
        (sum : Double) (xs : List Single)
        → is_zero_double sum ≡ true
        → All (λ x. is_zero x ≡ true) xs
        → is_zero_double (sum_of_squares sum xs) ≡ true
    unfolding sum_of_squares
    sum-zero sum [] h zeros = h
    sum-zero sum (x ∷ xs) h zeros =
        sum-zero (f.add sum (f.square (f.widen x))) xs
          (laws.add_zero sum _ h (laws.square_zero _ (laws.widen_zero x zeros.0))) zeros.1

    frame_rms-zero :
        (xs : List Single) → All (λ x. is_zero x ≡ true) xs → is_zero (frame_rms xs) ≡ true
    unfolding frame_rms
    frame_rms-zero [] zeros = laws.nought_zero
    frame_rms-zero (x ∷ xs) zeros = laws.narrow_zero _ (
        laws.sqrt_zero _
          (laws.over_zero _ (length xs) (sum-zero f.start (x ∷ xs) laws.start_zero zeros)))

    -- The gain of the code and its measure of a frame make a lawful signal.
    pub signal_of-IsLawful : IsLawful signal_of
    signal_of-IsLawful = record {
      silence_zero = laws.nought_zero;
      silence_range = laws.nought_range;
      ramped_zero = λ o l x b h. laws.scaled_zero x _ h (gain-is o l b);
      ramped_range = λ o l x b h. laws.scaled_range x _ h (gain-is o l b);
      first_gain = λ l x b h. laws.mul_zero x _ (laws.range_finite x h) (first_gain-zero l b);
      zeros_quiet = λ xs zeros.
          let quiet = frame_rms-zero xs zeros in
          (laws.not_greater _ quiet, laws.zero_at_most _ quiet);
    }
