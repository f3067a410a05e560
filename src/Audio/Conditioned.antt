-- ===== src/Audio/Conditioned.antt =====
-- What conditioning leaves at the edges, at the canonical rate.
use technical_tts.Prelude.{
  ℕ, ◌+◌, ◌-◌, ◌<◌, ◌≤◌, ◌≡◌, ◌⊎◌, inl, inr, refl, sym, Option, lt→ltb, subst, Bool, true, false,
  none, some, List, length, All, Bool-cases, ltb, ltb→lt, ltb_false→le, ◌==◌, ==_iff, if◌then◌else◌,
  arith,
}
use technical_tts.Audio.{
  Signal, IsLawful, EdgeConditioning, to_u32, measure_edge_silence, padded_edges, sub_usize,
  apply_ramps, condition_edges, AreApart,
}
use technical_tts.Audio.Padded.{length-padded_edges}
use technical_tts.Audio.Speech.{
  AreInRange, IsConditioned, silent-IsConditioned, speech-IsConditioned,
}
use technical_tts.Audio.Silence.{measure_edge_silence-le}

branches :
    {A : Type 0} (b : Bool) (x : A) (o : Option A) (r : A) (P : A → Type 0)
    → (b ≡ true → P x)
    → (b ≡ false → o ≡ some r → P r)
    → (if b then some x else o) ≡ some r
    → P r
branches true x o r P f g h = subst P (ground (arith, h)) (f refl)
branches false x o r P f g h = g refl h

not_refused :
    {A : Type 0} (b : Bool) (x r : A) (P : A → Type 0)
    → P x
    → (if b then none else some x) ≡ some r
    → P r
not_refused true x r P p h = absurd (ground (arith, h))
not_refused false x r P p h = subst P (ground (arith, h)) p

pub sub_usize-apart : (checks : Bool) (a b : ℕ) → b ≤ a → sub_usize checks a b ≡ some (a - b)
unfolding sub_usize
sub_usize-apart checks a b h = let e : ltb a b ≡ false = ground (arith, h) in rw e refl

pub sub_usize-checked : (a b : ℕ) → a < b → sub_usize true a b ≡ none
unfolding sub_usize
sub_usize-checked a b h = rw (lt→ltb a b h) refl

module _ (s : Signal) where
  open s use {Sample, silence, in_range, ramped}

  abbrev pub quiet_padding : List Sample → EdgeConditioning
  quiet_padding xs = record {
    leading_padding = to_u32 (240 - (measure_edge_silence s xs 24000).0);
    trailing_padding = to_u32 (240 - (measure_edge_silence s xs 24000).1);
    leading_ramp = 0;
    trailing_ramp = 0;
  }

  -- The ramps at the canonical rate.
  abbrev ramps : Bool → List Sample → Option (List Sample × EdgeConditioning)
  ramps checks xs =
      let leading = (measure_edge_silence s xs 24000).0 in
      let trailing = (measure_edge_silence s xs 24000).1 in
      let padded = padded_edges s leading trailing (240 - leading) (240 - trailing) xs in
      let from = leading + (240 - leading) in
      let to = length padded - (trailing + (240 - trailing)) in
      apply_ramps s from to 120 padded (quiet_padding xs) (sub_usize checks to from)

  module _ (lawful : IsLawful s) where
    apart_from :
        (checks : Bool) (xs : List Sample) (r : List Sample × EdgeConditioning)
        → (checks ≡ true) ⊎ AreApart s xs
        → ((measure_edge_silence s xs 24000).0 == length xs) ≡ false
        → ramps checks xs ≡ some r
        → (measure_edge_silence s xs 24000).0 + (measure_edge_silence s xs 24000).1 ≤ length xs
    unfolding apply_ramps
    apart_from checks xs r (inr (inl all)) part made =
        absurd (ground (arith, part, (==_iff _ (length xs)).1 all))
    apart_from checks xs r (inr (inr le)) part made = le
    apart_from checks xs r (inl on) part made =
        let (l, t) = measure_edge_silence-le s xs 24000 in
        let leading = (measure_edge_silence s xs 24000).0 in
        let trailing = (measure_edge_silence s xs 24000).1 in
        let padded = padded_edges s leading trailing (240 - leading) (240 - trailing) xs in
        let size = length-padded_edges s leading trailing (240 - leading) (240 - trailing) xs in
        let from = leading + (240 - leading) in
        let to = length padded - (trailing + (240 - trailing)) in
        elim (Bool-cases (ltb to from)) [
          | inl e ↦
              let gone : sub_usize checks to from ≡ none =
                subst (λ b. sub_usize b to from ≡ none) (sym on)
                  (sub_usize-checked to from (ltb→lt to from e)) in
              let refused : none ≡ some r =
                subst (λ o. apply_ramps s from to 120 padded (quiet_padding xs) o ≡ some r) gone
                  made in
              absurd (ground (arith, refused))
          | inr e ↦ let le = ltb_false→le to from e in omega arith
        ]

    ramped-IsConditioned :
        (checks : Bool) (xs : List Sample) (r : List Sample × EdgeConditioning)
        → AreInRange s xs
        → (measure_edge_silence s xs 24000).0 + (measure_edge_silence s xs 24000).1 ≤ length xs
        → ramps checks xs ≡ some r
        → IsConditioned s xs r.0 r.1
    unfolding apply_ramps
    ramped-IsConditioned checks xs r h apart made =
        let (l, t) = measure_edge_silence-le s xs 24000 in
        let leading = (measure_edge_silence s xs 24000).0 in
        let trailing = (measure_edge_silence s xs 24000).1 in
        let padded = padded_edges s leading trailing (240 - leading) (240 - trailing) xs in
        let size = length-padded_edges s leading trailing (240 - leading) (240 - trailing) xs in
        let from = leading + (240 - leading) in
        let to = length padded - (trailing + (240 - trailing)) in
        let signal = sub_usize-apart checks to from (omega arith) in
        not_refused _ _ r (λ r. IsConditioned s xs r.0 r.1)
          (speech-IsConditioned s lawful xs leading trailing refl refl h l t apart)
          (subst (λ o. apply_ramps s from to 120 padded (quiet_padding xs) o ≡ some r) signal made)

    -- At the canonical rate, in a build with overflow checks, or where the two measured silences do not
    -- overlap, conditioned audio in range is in range, longer by the padding, at most 10 ms at each edge,
    -- and zero in its first and last 10 ms. Unless it was silent throughout, its speech lies between the
    -- measured silences, with two equal ramps of at most 5 ms and half of the speech that end in zeros, and
    -- its samples are those that were given, in a ramp times the gain of
    -- their offset.
    pub condition_edges-IsConditioned :
        (overflow_checks : Bool) (xs ys : List Sample) (c : EdgeConditioning)
        → All (λ x. in_range x ≡ true) xs
        → (overflow_checks ≡ true) ⊎ AreApart s xs
        → condition_edges s overflow_checks xs 24000 ≡ some (ys, c)
        → IsConditioned s xs ys c
    unfolding condition_edges
    condition_edges-IsConditioned checks xs ys c h apart made =
        let (l, t) = measure_edge_silence-le s xs 24000 in
        let leading = (measure_edge_silence s xs 24000).0 in
        let trailing = (measure_edge_silence s xs 24000).1 in
        let padded = padded_edges s leading trailing (240 - leading) (240 - trailing) xs in
        let size = length-padded_edges s leading trailing (240 - leading) (240 - trailing) xs in
        branches (leading == length xs) _ _ (ys, c) (λ r. IsConditioned s xs r.0 r.1)
          (λ whole.
            let all : leading ≡ length xs = (==_iff leading (length xs)).0 whole in
            subst
              (λ n.
                IsConditioned s xs (padded_edges s n trailing (240 - n) (240 - trailing) xs)
                  (record {
                    leading_padding = to_u32 (240 - n);
                    trailing_padding = to_u32 (240 - trailing);
                    leading_ramp = 0;
                    trailing_ramp = 0;
                  }))
              (sym all) (silent-IsConditioned s lawful xs trailing all h))
          (λ part ramped.
            ramped-IsConditioned checks xs (ys, c) h
              (apart_from checks xs (ys, c) apart part ramped) ramped)
          made
