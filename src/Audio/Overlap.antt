-- ===== src/Audio/Overlap.antt =====
-- Where the two measured silences overlap.
use technical_tts.Prelude.{
  ℕ, ◌+◌, ◌-◌, ◌/◌, ◌<◌, ◌≤◌, ◌≡◌, ◌≢◌, ◌↔◌, inl, inr, refl, sym, subst, Bool, true, false, ◌||◌,
  Option, none, some, List, length, Bool-cases, ltb, ltb→lt, ltb_false→le, ◌==◌, ==_iff,
  if◌then◌else◌, arith,
}
use technical_tts.Audio.{
  Signal, EdgeConditioning, min, sub_usize, measure_edge_silence, padded_edges, apply_ramps,
  condition_edges,
}
use technical_tts.Audio.Silence.{measure_edge_silence-le}
use technical_tts.Audio.Padded.{length-padded_edges}
use technical_tts.Audio.Conditioned.{quiet_padding, sub_usize-apart, sub_usize-checked}

not_equal : (a b : ℕ) → (a == b) ≡ false → a ≢ b
not_equal a b h same = absurd (ground (arith, h, (==_iff a b).1 same))

equal_false : (a b : ℕ) → a ≢ b → (a == b) ≡ false
equal_false a b h = elim (Bool-cases (a == b)) [ inl e ↦ absurd (h ((==_iff a b).0 e)) | inr e ↦ e ]

branches-none_iff :
    {A : Type 0} (b : Bool) (x : A) (o : Option A)
    → ((if b then some x else o) ≡ none) ↔ ((b ≡ false) × (o ≡ none))
branches-none_iff true x o = ground arith
branches-none_iff false x o = (λ h. (refl, h), λ h. h.1)

not_below : (a b : ℕ) → b ≤ a → ltb a b ≡ false
not_below a b h = ground (arith, h)

-- Two ramps over half of the signal each lie inside the audio.
ramps_fit :
    (from to size max_ramp : ℕ)
    → from ≤ to
    → to ≤ size
    → (ltb size (from + min max_ramp ((to - from) / 2)) || ltb to (min max_ramp ((to - from) / 2)))
      ≡ false
ramps_fit from to size max_ramp h k =
    let short : min max_ramp ((to - from) / 2) ≤ (to - from) / 2 = ground arith in
    let a = not_below size (from + min max_ramp ((to - from) / 2)) (omega arith) in
    let b = not_below to (min max_ramp ((to - from) / 2)) (omega arith) in rw (a, b) refl

some_not_none :
    {A : Type 0} (b : Bool) (x : A) → b ≡ false → (if b then none else some x) ≡ none → ⊥
some_not_none true x e h = ground (arith, e)
some_not_none false x e h = ground (arith, h)

module _ (s : Signal) where
  open s use {Sample, silence}

  apply_ramps-none :
      (from to max_ramp : ℕ) (padded : List Sample) (quiet : EdgeConditioning)
      → apply_ramps s from to max_ramp padded quiet none ≡ none
  unfolding apply_ramps
  apply_ramps-none from to max_ramp padded quiet = refl

  apply_ramps-some :
      (checks : Bool) (from to max_ramp : ℕ) (padded : List Sample) (quiet : EdgeConditioning)
      → from ≤ to
      → to ≤ length padded
      → apply_ramps s from to max_ramp padded quiet (sub_usize checks to from) ≢ none
  unfolding apply_ramps
  apply_ramps-some checks from to max_ramp padded quiet h k gone =
      let apart = sub_usize-apart checks to from h in
      let fit = ramps_fit from to (length padded) max_ramp h k in
      let refused = subst (λ o. apply_ramps s from to max_ramp padded quiet o ≡ none) apart gone in
      some_not_none _ _ fit refused

  -- At the canonical rate, conditioning panics in a build with overflow checks exactly where the two
  -- measured silences overlap without the one at the front being everything.
  pub condition_edges-none_iff :
      (xs : List Sample)
      → (condition_edges s true xs 24000 ≡ none) ↔ (
          ((measure_edge_silence s xs 24000).0 ≢ length xs)
          × (length xs < (measure_edge_silence s xs 24000).0 + (measure_edge_silence s xs 24000).1))
  unfolding condition_edges
  condition_edges-none_iff xs =
      let (l, t) = measure_edge_silence-le s xs 24000 in
      let leading = (measure_edge_silence s xs 24000).0 in
      let trailing = (measure_edge_silence s xs 24000).1 in
      let padded = padded_edges s leading trailing (240 - leading) (240 - trailing) xs in
      let size = length-padded_edges s leading trailing (240 - leading) (240 - trailing) xs in
      let to = length padded - (trailing + (240 - trailing)) in
      let from = leading + (240 - leading) in
      let both = branches-none_iff (leading == length xs) _ _ in
      (
        (λ h.
            let passed : to < from = elim (Bool-cases (ltb to from)) [
              | inl e ↦ ltb→lt to from e
              | inr e ↦ absurd (
                  apply_ramps-some true from to 120 padded (quiet_padding s xs)
                    (ltb_false→le to from e) (omega arith) (both.0 h).1)
            ] in
            (not_equal leading (length xs) (both.0 h).0, omega arith)),
        (λ h. both.1 (
          equal_false leading (length xs) h.0,
          subst (λ o. apply_ramps s from to 120 padded (quiet_padding s xs) o ≡ none)
              (sym (sub_usize-checked to from (let p = h.1 in omega arith)))
              (apply_ramps-none from to 120 padded (quiet_padding s xs)),
        )),
      )
