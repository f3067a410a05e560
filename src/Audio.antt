-- ===== src/Audio.antt =====
-- crates/study-tts-runtime/src/audio_edges.rs: measuring and conditioning the edges of one segment.
-- There are no floats here: a `Signal` is `f32` with what the code computes of it under the provisional
-- threshold.
pub mod Zeros
pub mod Silence
pub mod Loops
pub mod Padded
pub mod Spoken
pub mod Speech
pub mod Conditioned
pub mod Overlap
pub mod Floats
use technical_tts.Prelude.{
  ℕ, zero, suc, ◌+◌, ◌-◌, ◌*◌, ◌/◌, ◌^◌, ◌<◌, ◌≤◌, ◌≡◌, Bool, true, false, not, ◌&&◌, Option, none,
  some, List, [], ◌∷◌, ◌++◌, length, replicate, All, ltb, leb, ◌==◌, if◌then◌else◌, ◌||◌, ◌⊎◌,
}

abbrev pub edge_analysis_frame_ms : ℕ
edge_analysis_frame_ms = 5

abbrev pub required_edge_silence_ms : ℕ
required_edge_silence_ms = 10

abbrev pub max_transition_ramp_ms : ℕ
max_transition_ramp_ms = 5

abbrev pub max_segment_audio_ms : ℕ
max_segment_audio_ms = 600000

pub data CalibrationSource : Type 0 where
  provisional frozen : CalibrationSource

pub record Signal : Type 1 where
  pub Sample : Type 0
  -- `0.0`, and `== 0.0`.
  pub silence : Sample
  pub is_zero : Sample → Bool
  -- Finite, and not above 1.0 in magnitude.
  pub in_range : Sample → Bool
  -- A sample times the raised-cosine gain of an offset in a ramp of a length.
  pub ramped : ℕ → ℕ → Sample → Sample
  -- `frame_rms(frame) > threshold`, and `<= threshold`.
  pub above : List Sample → Bool
  pub within : List Sample → Bool

-- What the code needs of these: zero is a zero in range, the gain at an offset inside its ramp keeps zeros
-- and the range, the gain at offset zero is zero, and a frame of zeros is silent.
pub record IsLawful (s : Signal) : Type 0 where
  pub silence_zero : s.is_zero s.silence ≡ true
  pub silence_range : s.in_range s.silence ≡ true
  pub ramped_zero :
      (o l : ℕ) (x : s.Sample) → o < l → s.is_zero x ≡ true → s.is_zero (s.ramped o l x) ≡ true
  pub ramped_range :
      (o l : ℕ) (x : s.Sample) → o < l → s.in_range x ≡ true → s.in_range (s.ramped o l x) ≡ true
  pub first_gain :
      (l : ℕ) (x : s.Sample) → 0 < l → s.in_range x ≡ true → s.is_zero (s.ramped 0 l x) ≡ true
  pub zeros_quiet :
      (xs : List s.Sample)
      → All (λ x. s.is_zero x ≡ true) xs
      → (s.above xs ≡ false) × (s.within xs ≡ true)

pub record EdgeConditioning : Type 0 where
  pub leading_padding : ℕ
  pub trailing_padding : ℕ
  pub leading_ramp : ℕ
  pub trailing_ramp : ℕ

-- `u64` holds the product of two `u32`.
abbrev pub samples_for : ℕ → ℕ → ℕ
samples_for milliseconds sample_rate = milliseconds * sample_rate / 1000

abbrev pub max_u32 : ℕ
max_u32 = 4294967295

-- `u32::try_from(n).unwrap_or(u32::MAX)`.
abbrev pub to_u32 : ℕ → ℕ
to_u32 n = if leb n max_u32 then n else max_u32

-- `a - b` on `usize`: below zero, a build with overflow checks panics, which is `none`, and one without,
-- as `[profile.release]` makes it, wraps around.
unfoldable pub sub_usize : (overflow_checks : Bool) → ℕ → ℕ → Option ℕ
sub_usize overflow_checks a b =
    if ltb a b then (if overflow_checks then none else some (a + 2 ^ 64 - b)) else some (a - b)

abbrev pub min : ℕ → ℕ → ℕ
min a b = if leb a b then a else b

abbrev pub max : ℕ → ℕ → ℕ
max a b = if leb a b then b else a

module _ {A : Type 0} where
  unfoldable pub drop : ℕ → List A → List A
  drop zero xs = xs
  drop (suc n) [] = []
  drop (suc n) (x ∷ xs) = drop n xs

  unfoldable pub take : ℕ → List A → List A
  take zero xs = []
  take (suc n) [] = []
  take (suc n) (x ∷ xs) = x ∷ take n xs

  -- `xs[from..to]`.
  abbrev pub slice : ℕ → ℕ → List A → List A
  slice from to xs = take (to - from) (drop from xs)

  -- `xs[i] = f(xs[i])`.
  unfoldable pub modify : ℕ → (A → A) → List A → List A
  modify i f [] = []
  modify zero f (x ∷ xs) = f x ∷ xs
  modify (suc i) f (x ∷ xs) = x ∷ modify i f xs

  -- `xs[..n].fill(a)` and `xs[n..].fill(a)`.
  unfoldable pub fill_front : ℕ → A → List A → List A
  fill_front zero a xs = xs
  fill_front (suc n) a [] = []
  fill_front (suc n) a (x ∷ xs) = a ∷ fill_front n a xs

  unfoldable pub fill_back : ℕ → A → List A → List A
  fill_back n a [] = []
  fill_back zero a (x ∷ xs) = a ∷ fill_back zero a xs
  fill_back (suc n) a (x ∷ xs) = x ∷ fill_back n a xs

module _ (s : Signal) where
  open s use {Sample, silence, ramped, above, within}

  -- The loop of `leading_silent_samples`, on fuel.
  unfoldable pub leading_loop : ℕ → ℕ → ℕ → List Sample → ℕ
  leading_loop zero frame silent samples = silent
  leading_loop (suc fuel) frame silent samples =
      let more = leading_loop fuel frame (silent + frame) samples in
      if leb (silent + frame) (length samples)
        && not (above (slice silent (silent + frame) samples))
      then more
      else silent

  unfoldable pub leading_silent_samples : List Sample → ℕ → ℕ
  leading_silent_samples samples sample_rate =
      let frame = max (samples_for edge_analysis_frame_ms sample_rate) 1 in
      let silent = leading_loop (suc (length samples)) frame 0 samples in
      if ltb (length samples - silent) frame && within (drop silent samples)
      then length samples
      else silent

  -- The loop of `trailing_silent_samples`, on fuel.
  unfoldable pub trailing_loop : ℕ → ℕ → ℕ → List Sample → ℕ
  trailing_loop zero frame silent samples = silent
  trailing_loop (suc fuel) frame silent samples =
      let more = trailing_loop fuel frame (silent + frame) samples in
      let end = length samples - silent in
      if leb (silent + frame) (length samples) && not (above (slice (end - frame) end samples))
      then more
      else silent

  unfoldable pub trailing_silent_samples : List Sample → ℕ → ℕ
  trailing_silent_samples samples sample_rate =
      let frame = max (samples_for edge_analysis_frame_ms sample_rate) 1 in
      let silent = trailing_loop (suc (length samples)) frame 0 samples in
      if ltb (length samples - silent) frame && within (take (length samples - silent) samples)
      then length samples
      else silent

  unfoldable pub measure_edge_silence : List Sample → ℕ → ℕ × ℕ
  measure_edge_silence samples sample_rate =
      let leading = leading_silent_samples samples sample_rate in
      (
        leading,
        (if leading == length samples
            then leading
            else trailing_silent_samples samples sample_rate),
      )

  -- The loops over the offsets of a ramp, with those that are left.
  unfoldable pub leading_ramp_loop : ℕ → ℕ → ℕ → ℕ → List Sample → List Sample
  leading_ramp_loop zero offset onset length samples = samples
  leading_ramp_loop (suc left) offset onset length samples =
      leading_ramp_loop left (offset + 1) onset length
        (modify (onset + offset) (ramped offset length) samples)

  unfoldable pub trailing_ramp_loop : ℕ → ℕ → ℕ → ℕ → List Sample → List Sample
  trailing_ramp_loop zero offset end length samples = samples
  trailing_ramp_loop (suc left) offset end length samples =
      trailing_ramp_loop left (offset + 1) end length
        (modify (end - 1 - offset) (ramped offset length) samples)

  abbrev pub apply_leading_ramp : ℕ → ℕ → List Sample → List Sample
  apply_leading_ramp onset length = leading_ramp_loop length 0 onset length

  abbrev pub apply_trailing_ramp : ℕ → ℕ → List Sample → List Sample
  apply_trailing_ramp end length = trailing_ramp_loop length 0 end length

  -- The samples with both edges silent and padded.
  abbrev pub padded_edges : ℕ → ℕ → ℕ → ℕ → List Sample → List Sample
  padded_edges leading trailing leading_padding trailing_padding samples =
      replicate leading_padding silence
      ++ (fill_back (length samples - trailing) silence (fill_front leading silence samples)
          ++ replicate trailing_padding silence)

  -- Both ramps, over half of the signal each at most; an index out of the samples is a panic in every build.
  unfoldable pub apply_ramps :
      (leading_boundary trailing_boundary max_ramp : ℕ)
      → List Sample
      → EdgeConditioning
      → Option ℕ
      → Option (List Sample × EdgeConditioning)
  apply_ramps leading_boundary trailing_boundary max_ramp padded quiet none = none
  apply_ramps leading_boundary trailing_boundary max_ramp padded quiet (some signal) =
      let ramp = min max_ramp (signal / 2) in
      if ltb (length padded) (leading_boundary + ramp) || ltb trailing_boundary ramp
      then none
      else some (
        apply_trailing_ramp trailing_boundary ramp
            (apply_leading_ramp leading_boundary ramp padded),
        record quiet { leading_ramp = to_u32 ramp; trailing_ramp = to_u32 ramp },
      )

  -- `none` is a panic.
  unfoldable pub condition_edges :
      (overflow_checks : Bool) → List Sample → ℕ → Option (List Sample × EdgeConditioning)
  condition_edges overflow_checks samples sample_rate =
      let required = samples_for required_edge_silence_ms sample_rate in
      let max_ramp = samples_for max_transition_ramp_ms sample_rate in
      let (leading, trailing) = measure_edge_silence samples sample_rate in
      let leading_padding = required - leading in
      let trailing_padding = required - trailing in
      let padded = padded_edges leading trailing leading_padding trailing_padding samples in
      let quiet : EdgeConditioning = record {
        leading_padding = to_u32 leading_padding;
        trailing_padding = to_u32 trailing_padding;
        leading_ramp = 0;
        trailing_ramp = 0;
      } in
      if leading == length samples
      then some (padded, quiet)
      else let leading_boundary = leading + leading_padding in
        let trailing_boundary = length padded - (trailing + trailing_padding) in
        apply_ramps leading_boundary trailing_boundary max_ramp padded quiet
          (sub_usize overflow_checks trailing_boundary leading_boundary)

  -- The two silences do not overlap, or the one at the front is everything.
  abbrev pub AreApart : List Sample → Type 0
  AreApart samples =
      let (leading, trailing) = measure_edge_silence samples 24000 in
      (leading ≡ length samples) ⊎ (leading + trailing ≤ length samples)
