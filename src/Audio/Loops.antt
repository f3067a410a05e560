-- ===== src/Audio/Loops.antt =====
-- The loops that measure silence, as the steps of the source's `while`.
use technical_tts.Prelude.{
  ℕ, zero, suc, ◌+◌, ◌-◌, ◌<◌, ◌≤◌, ◌≡◌, inl, inr, Bool, true, false, not, ◌&&◌, Bool-cases, List,
  length, leb, if◌then◌else◌, arith,
}
use technical_tts.Audio.{
  Signal, max, slice, samples_for, edge_analysis_frame_ms, leading_loop, trailing_loop,
}

-- A loop that adds a step while a condition holds of its counter, from its start to its end.
pub data Runs (condition : ℕ → Bool) (step : ℕ) : ℕ → ℕ → Type 0 where
  stop : (n : ℕ) → condition n ≡ false → Runs condition step n n
  advance :
      (n end : ℕ)
      → condition n ≡ true
      → Runs condition step (n + step) end
      → Runs condition step n end

go_on :
    (condition : ℕ → Bool) (step n end : ℕ)
    → (condition n ≡ true → Runs condition step (n + step) end)
    → Runs condition step n (if condition n then end else n)
go_on condition step n end more = elim (Bool-cases (condition n)) [
  | inl e ↦ rw e (advance n end e (more e))
  | inr e ↦ rw e (stop n e)
]

module _ (s : Signal) where
  open s use {Sample, above}

  abbrev pub leading_condition : ℕ → List Sample → ℕ → Bool
  leading_condition frame samples silent =
      leb (silent + frame) (length samples) && not (above (slice silent (silent + frame) samples))

  abbrev pub trailing_condition : ℕ → List Sample → ℕ → Bool
  trailing_condition frame samples silent =
      leb (silent + frame) (length samples)
      && not (above (slice (length samples - silent - frame) (length samples - silent) samples))

  beyond :
      (silent frame : ℕ) (xs : List Sample) (b : Bool)
      → length xs < silent
      → (leb (silent + frame) (length xs) && b) ≡ false
  beyond silent frame xs b h = ground (arith, h)

  leading_loop-Runs :
      (fuel frame silent : ℕ) (xs : List Sample)
      → 1 ≤ frame
      → length xs < silent + fuel
      → Runs (leading_condition frame xs) frame silent (leading_loop s fuel frame silent xs)
  unfolding leading_loop
  leading_loop-Runs zero frame silent xs f h = stop silent (beyond silent frame xs _ (omega arith))
  leading_loop-Runs (suc fuel) frame silent xs f h =
      go_on (leading_condition frame xs) frame silent
        (leading_loop s fuel frame (silent + frame) xs)
        (λ e. leading_loop-Runs fuel frame (silent + frame) xs f (omega arith))

  trailing_loop-Runs :
      (fuel frame silent : ℕ) (xs : List Sample)
      → 1 ≤ frame
      → length xs < silent + fuel
      → Runs (trailing_condition frame xs) frame silent (trailing_loop s fuel frame silent xs)
  unfolding trailing_loop
  trailing_loop-Runs zero frame silent xs f h = stop silent (beyond silent frame xs _ (omega arith))
  trailing_loop-Runs (suc fuel) frame silent xs f h =
      go_on (trailing_condition frame xs) frame silent
        (trailing_loop s fuel frame (silent + frame) xs)
        (λ e. trailing_loop-Runs fuel frame (silent + frame) xs f (omega arith))

  some_frame : (n : ℕ) → 1 ≤ max n 1
  some_frame n = ground arith

  -- Both loops end at every rate, however long the audio is: their fuel, one more than the samples, is
  -- enough for the loop of the source to run from no silence to their answer.
  pub loops-Runs :
      (xs : List Sample) (rate : ℕ)
      → let frame = max (samples_for edge_analysis_frame_ms rate) 1 in
        Runs (leading_condition frame xs) frame 0 (leading_loop s (suc (length xs)) frame 0 xs)
        × Runs (trailing_condition frame xs) frame 0 (trailing_loop s (suc (length xs)) frame 0 xs)
  loops-Runs xs rate =
      let n = samples_for edge_analysis_frame_ms rate in
      (
        leading_loop-Runs (suc (length xs)) (max n 1) 0 xs (some_frame n) (omega arith),
        trailing_loop-Runs (suc (length xs)) (max n 1) 0 xs (some_frame n) (omega arith),
      )
