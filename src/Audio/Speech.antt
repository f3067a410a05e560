-- ===== src/Audio/Speech.antt =====
-- What conditioned audio is, and that the silent and the ramped audio are.
use technical_tts.Prelude.{
  ℕ, zero, suc, ◌+◌, ◌-◌, ◌/◌, ◌<◌, ◌≤◌, ◌≡◌, ◌⊎◌, inl, inr, refl, ap, sym, ◌∙◌, true, List, length,
  All, Bool-cases, ltb, ltb→lt, ltb_false→le, arith,
}
use technical_tts.Audio.{
  Signal, IsLawful, EdgeConditioning, to_u32, min, leading_ramp_loop, trailing_ramp_loop,
  measure_edge_silence, padded_edges,
}
use technical_tts.Audio.Zeros.{
  zero_at, AreZero, zero_at-leading_ramp, zero_at-trailing_ramp, zero_at-onset, zero_at-end,
  All-leading_ramp, All-trailing_ramp, length-leading_ramp, length-trailing_ramp,
}
use technical_tts.Audio.Padded.{length-padded_edges, All-padded_edges, padded_edges-zero}
use technical_tts.Audio.Spoken.{sample_at, scaled, between_ramps, in_leading_ramp, in_trailing_ramp}

module _ (s : Signal) where
  open s use {Sample, silence, in_range, ramped}

  abbrev pub AreInRange : List Sample → Type 0
  AreInRange = All (λ x. in_range x ≡ true)

  -- Where the speech is: between the two measured silences, each boundary at least 10 ms inside the audio,
  -- with ramps of at most 5 ms and half of the speech that end in zeros; between the ramps the samples are
  -- those that were given, and in them each is the given one times the gain of its offset.
  pub record IsSpeech (xs ys : List Sample) (padding ramp : ℕ) : Type 0 where
    pub from : ℕ
    pub to : ℕ
    pub ordered : from ≤ to
    pub front : 240 ≤ from
    pub back : to + 240 ≤ length ys
    pub before : AreZero s 0 from ys
    pub behind : AreZero s to (length ys) ys
    pub ramp_is : ramp ≡ min 120 ((to - from) / 2)
    pub onset : 0 < ramp → zero_at s from ys ≡ true
    pub end_zero : 0 < ramp → zero_at s (to - 1) ys ≡ true
    pub from_is : from ≡ padding + (measure_edge_silence s xs 24000).0
    pub to_is : to + (measure_edge_silence s xs 24000).1 ≡ padding + length xs
    pub spoken :
        (i : ℕ)
        → from + ramp ≤ padding + i
        → padding + i + ramp < to
        → sample_at (padding + i) ys ≡ sample_at i xs
    pub faded_in :
        (i k : ℕ)
        → padding + i ≡ from + k
        → k < ramp
        → sample_at (padding + i) ys ≡ scaled (ramped k ramp) (sample_at i xs)
    pub faded_out :
        (i k : ℕ)
        → padding + i + 1 + k ≡ to
        → k < ramp
        → sample_at (padding + i) ys ≡ scaled (ramped k ramp) (sample_at i xs)

  -- What conditioned audio is, with the record of its conditioning.
  pub record IsConditioned (xs ys : List Sample) (c : EdgeConditioning) : Type 0 where
    pub long : length ys ≡ c.leading_padding + length xs + c.trailing_padding
    pub leading_padding_le : c.leading_padding ≤ 240
    pub trailing_padding_le : c.trailing_padding ≤ 240
    pub same_ramp : c.leading_ramp ≡ c.trailing_ramp
    pub ramp_le : c.leading_ramp ≤ 120
    pub ranged : All (λ y. in_range y ≡ true) ys
    pub front_zero : AreZero s 0 240 ys
    pub back_zero : AreZero s (length ys - 240) (length ys) ys
    pub long_enough : 240 ≤ length ys
    pub speech :
        (((measure_edge_silence s xs 24000).0 ≡ length xs)
          × AreZero s 0 (length ys) ys
          × (c.leading_ramp ≡ 0))
        ⊎ IsSpeech xs ys c.leading_padding c.leading_ramp

  module _ (lawful : IsLawful s) where
    onset_zero :
        (ramp onset : ℕ) (xs : List Sample)
        → 0 < ramp
        → AreInRange xs
        → zero_at s onset (leading_ramp_loop s ramp 0 onset ramp xs) ≡ true
    onset_zero zero onset xs h r = absurd (omega arith)
    onset_zero (suc ramp) onset xs h r =
        zero_at-onset s lawful ramp onset (suc ramp) xs (omega arith) r

    end_is_zero :
        (ramp end : ℕ) (xs : List Sample)
        → 0 < ramp
        → AreInRange xs
        → zero_at s (end - 1) (trailing_ramp_loop s ramp 0 end ramp xs) ≡ true
    end_is_zero zero end xs h r = absurd (omega arith)
    end_is_zero (suc ramp) end xs h r = zero_at-end s lawful ramp end (suc ramp) xs (omega arith) r

    min_le : (a b : ℕ) → min a b ≤ a
    min_le a b = ground arith

    min_le_right : (a b : ℕ) → min a b ≤ b
    min_le_right a b = ground arith

    below_or : (i n t : ℕ) → (i < n) ⊎ (n - t ≤ i)
    below_or i n t = elim (Bool-cases (ltb i n)) [
      | inl e ↦ inl (ltb→lt i n e)
      | inr e ↦ let le = ltb_false→le i n e in inr (omega arith)
    ]

    to_u32_small : (n : ℕ) → n ≤ 240 → to_u32 n ≡ n
    to_u32_small n h = ground (arith, h)

    pub silent-IsConditioned :
        (xs : List Sample) (trailing : ℕ)
        → (measure_edge_silence s xs 24000).0 ≡ length xs
        → AreInRange xs
        → IsConditioned xs
            (padded_edges s (length xs) trailing (240 - length xs) (240 - trailing) xs)
            (record {
              leading_padding = to_u32 (240 - length xs);
              trailing_padding = to_u32 (240 - trailing);
              leading_ramp = 0;
              trailing_ramp = 0;
            })
    silent-IsConditioned xs trailing whole h =
        let p = 240 - length xs in
        let q = 240 - trailing in
        let size = length-padded_edges s (length xs) trailing p q xs in
        let lead = to_u32_small p (omega arith) in
        let trail = to_u32_small q (omega arith) in
        let zeros : (i : ℕ) → zero_at s i (padded_edges s (length xs) trailing p q xs) ≡ true = λ i.
          padded_edges-zero s lawful (length xs) trailing p q i xs
            (below_or i (p + length xs) trailing) in
        record {
          long = omega arith;
          leading_padding_le = omega arith;
          trailing_padding_le = omega arith;
          same_ramp = refl;
          ramp_le = omega arith;
          ranged = All-padded_edges s lawful (length xs) trailing p q xs h;
          front_zero = λ i a b. zeros i;
          back_zero = λ i a b. zeros i;
          long_enough = omega arith;
          speech = inl (whole, (λ i a b. zeros i), refl);
        }

    pub speech-IsConditioned :
        (xs : List Sample) (leading trailing : ℕ)
        → (measure_edge_silence s xs 24000).0 ≡ leading
        → (measure_edge_silence s xs 24000).1 ≡ trailing
        → AreInRange xs
        → leading ≤ length xs
        → trailing ≤ length xs
        → leading + trailing ≤ length xs
        → let p = 240 - leading in
          let q = 240 - trailing in
          let padded = padded_edges s leading trailing p q xs in
          let from = leading + p in
          let to = length padded - (trailing + q) in
          let ramp = min 120 ((to - from) / 2) in
          IsConditioned xs
            (trailing_ramp_loop s ramp 0 to ramp (leading_ramp_loop s ramp 0 from ramp padded))
            (record {
              leading_padding = to_u32 p;
              trailing_padding = to_u32 q;
              leading_ramp = to_u32 ramp;
              trailing_ramp = to_u32 ramp;
            })
    speech-IsConditioned xs leading trailing m n h l t apart =
        let p = 240 - leading in
        let q = 240 - trailing in
        let padded = padded_edges s leading trailing p q xs in
        let from = leading + p in
        let to = length padded - (trailing + q) in
        let ramp = min 120 ((to - from) / 2) in
        let size = length-padded_edges s leading trailing p q xs in
        let lead = to_u32_small p (omega arith) in
        let trail = to_u32_small q (omega arith) in
        let short = min_le 120 ((to - from) / 2) in
        let halved = min_le_right 120 ((to - from) / 2) in
        let ramp_is = to_u32_small ramp (omega arith) in
        let ys₁ = leading_ramp_loop s ramp 0 from ramp padded in
        let ys = trailing_ramp_loop s ramp 0 to ramp ys₁ in
        let size₁ = length-leading_ramp s ramp 0 from ramp padded in
        let size₂ = length-trailing_ramp s ramp 0 to ramp ys₁ in
        let range = All-padded_edges s lawful leading trailing p q xs h in
        let range₁ = All-leading_ramp s lawful ramp 0 from ramp padded (omega arith) range in
        let kept : (i : ℕ) → zero_at s i padded ≡ true → zero_at s i ys ≡ true = λ i z.
          zero_at-trailing_ramp s lawful ramp 0 to ramp i ys₁ (omega arith)
            (zero_at-leading_ramp s lawful ramp 0 from ramp i padded (omega arith) z) in
        let before : (i : ℕ) → i < from → zero_at s i ys ≡ true = λ i b.
          kept i (padded_edges-zero s lawful leading trailing p q i xs (inl (omega arith))) in
        let behind : (i : ℕ) → to ≤ i → zero_at s i ys ≡ true = λ i b.
          kept i (padded_edges-zero s lawful leading trailing p q i xs (inr (omega arith))) in
        record {
          long = omega arith;
          leading_padding_le = omega arith;
          trailing_padding_le = omega arith;
          same_ramp = refl;
          ramp_le = omega arith;
          ranged = All-trailing_ramp s lawful ramp 0 to ramp ys₁ (omega arith) range₁;
          front_zero = λ i a b. before i (omega arith);
          back_zero = λ i a b. behind i (omega arith);
          long_enough = omega arith;
          speech = inr (record {
            from = from;
            to = to;
            ordered = omega arith;
            front = omega arith;
            back = omega arith;
            before = λ i a b. before i b;
            behind = λ i a b. behind i a;
            ramp_is = ramp_is;
            onset = λ pos.
                zero_at-trailing_ramp s lawful ramp 0 to ramp from ys₁ (omega arith)
                  (onset_zero ramp from padded (omega arith) range);
            end_zero = λ pos. end_is_zero ramp to ys₁ (omega arith) range₁;
            from_is = omega (arith, m, lead);
            to_is = omega (arith, n, lead);
            spoken = λ i a b.
                ap (λ k. sample_at (k + i) ys) lead
                ∙ between_ramps s leading trailing p q ramp to xs i (omega arith) (omega arith)
                    (omega arith);
            faded_in = λ i k e b.
                ap (λ n. sample_at (n + i) ys) lead
                ∙ in_leading_ramp s leading trailing p q ramp to xs i k (omega arith) (omega arith)
                    (omega arith) (omega arith)
                ∙ ap (λ n. scaled (ramped k n) (sample_at i xs)) (sym ramp_is);
            faded_out = λ i k e b.
                ap (λ n. sample_at (n + i) ys) lead
                ∙ in_trailing_ramp s leading trailing p q ramp to xs i k (omega arith) (omega arith)
                    (omega arith) (omega arith)
                ∙ ap (λ n. scaled (ramped k n) (sample_at i xs)) (sym ramp_is);
          });
        }
