-- ===== src/Examples/Edges.antt =====
-- Short audio and a burst between two frames, over a signal of numbers.
use technical_tts.Prelude.{
  ℕ, suc, ◌+◌, ◌<◌, ◌≢◌, ◌↔◌, ◌≡◌, refl, inr, true, false, none, some, List, [], ◌∷◌, ◌++◌, length,
  replicate, All, ltb, leb, ◌==◌, ==_iff, if◌then◌else◌, arith,
}
use technical_tts.Audio.{
  Signal, IsLawful, EdgeConditioning, drop, take, modify, fill_front, fill_back, leading_loop,
  leading_silent_samples, trailing_loop, trailing_silent_samples, measure_edge_silence,
  leading_ramp_loop, trailing_ramp_loop, sub_usize, apply_ramps, condition_edges, AreApart,
}
use technical_tts.Audio.Speech.{IsConditioned}
use technical_tts.Audio.Conditioned.{condition_edges-IsConditioned}
use technical_tts.Audio.Loops.{Runs, leading_condition, trailing_condition, loops-Runs}
use technical_tts.Audio.Overlap.{condition_edges-none_iff}

abbrev sum : List ℕ → ℕ
sum [] = 0
sum (x ∷ xs) = x + sum xs

-- Samples of zero and one; a frame is quiet up to a sum of ninety; a ramp only silences its end.
abbrev pub numbers : ℕ → Signal
numbers level = record {
  Sample = ℕ;
  silence = 0;
  is_zero = λ x. x == 0;
  in_range = λ x. leb x 1;
  ramped = λ o l x. if o == 0 then 0 else x;
  above = λ xs. ltb level (sum xs);
  within = λ xs. leb (sum xs) level;
}

zero_sum : (xs : List ℕ) → All (λ x. (x == 0) ≡ true) xs → sum xs ≡ 0
zero_sum [] h = refl
zero_sum (x ∷ xs) h = let a = (==_iff x 0).0 h.0 in let b = zero_sum xs h.1 in omega arith

pub numbers-IsLawful : (level : ℕ) → IsLawful (numbers level)
numbers-IsLawful level = record {
  silence_zero = refl;
  silence_range = refl;
  ramped_zero = λ o l x b h. ground (arith, h);
  ramped_range = λ o l x b h. ground (arith, h);
  first_gain = λ l x b h. refl;
  zeros_quiet = λ xs h. let e = zero_sum xs h in (ground (arith, e), ground (arith, e));
}

abbrev pub ten : List ℕ
ten = replicate 10 1

abbrev pub conditioned_ten : List ℕ
conditioned_ten = replicate 241 0 ++ (replicate 8 1 ++ replicate 241 0)

abbrev pub ten_padding : EdgeConditioning
ten_padding = record {
  leading_padding = 240;
  trailing_padding = 240;
  leading_ramp = 5;
  trailing_ramp = 5;
}

pub conditioned : condition_edges (numbers 3) false ten 24000 ≡ some (conditioned_ten, ten_padding)
unfolding condition_edges apply_ramps sub_usize measure_edge_silence leading_silent_samples
    trailing_silent_samples leading_loop trailing_loop leading_ramp_loop trailing_ramp_loop modify
    fill_front fill_back take drop
conditioned = refl

pub ten-AreApart : AreApart (numbers 3) ten
unfolding measure_edge_silence leading_silent_samples trailing_silent_samples leading_loop
    trailing_loop take drop
ten-AreApart = inr (omega arith)

condition_edges-IsConditioned_example : IsConditioned (numbers 3) ten conditioned_ten ten_padding
condition_edges-IsConditioned_example =
    condition_edges-IsConditioned (numbers 3) (numbers-IsLawful 3) false ten conditioned_ten
      ten_padding ground arith (inr ten-AreApart) conditioned

-- A hundred and twenty samples of one: a frame of their own from the front, two halves from the back.
abbrev burst : List ℕ
burst = replicate 120 0 ++ (replicate 120 1 ++ replicate 60 0)

condition_edges-none_iff_example : (condition_edges (numbers 90) true burst 24000 ≡ none) ↔ (
    ((measure_edge_silence (numbers 90) burst 24000).0 ≢ length burst)
    × (length burst
        < (measure_edge_silence (numbers 90) burst 24000).0
          + (measure_edge_silence (numbers 90) burst 24000).1))
condition_edges-none_iff_example = condition_edges-none_iff (numbers 90) burst

overlapping : condition_edges (numbers 90) true burst 24000 ≡ none
unfolding condition_edges apply_ramps sub_usize measure_edge_silence leading_silent_samples
    trailing_silent_samples leading_loop trailing_loop leading_ramp_loop trailing_ramp_loop modify
    fill_front fill_back take drop
overlapping = refl

-- Without the checks, the boundaries that have passed one another take two ramps of full length.
wrapped :
    (ys : List ℕ) × (condition_edges (numbers 90) false burst 24000
      ≡ some (
        ys,
        record {
          leading_padding = 120;
          trailing_padding = 0;
          leading_ramp = 120;
          trailing_ramp = 120;
        },
      ))
unfolding condition_edges apply_ramps sub_usize measure_edge_silence leading_silent_samples
    trailing_silent_samples leading_loop trailing_loop leading_ramp_loop trailing_ramp_loop modify
    fill_front fill_back take drop
wrapped = (_, refl)

loops-Runs_example :
    Runs
      (leading_condition (numbers 90) 120 burst)
      120
      0
      (leading_loop (numbers 90) (suc (length burst)) 120 0 burst)
    × Runs
        (trailing_condition (numbers 90) 120 burst)
        120
        0
        (trailing_loop (numbers 90) (suc (length burst)) 120 0 burst)
loops-Runs_example = loops-Runs (numbers 90) burst 24000
