-- ===== src/Audio/Spoken.antt =====
-- The samples that padding and ramps leave as they were.
use technical_tts.Prelude.{
  ℕ, zero, suc, ◌+◌, ◌-◌, ◌<◌, ◌≤◌, ◌≡◌, ◌⊎◌, inl, inr, refl, ap, sym, subst, ◌∙◌, false, ◌==◌,
  ==_iff, Bool-cases, Option, none, some, List, [], ◌∷◌, ◌++◌, length, replicate, arith,
}
use technical_tts.Audio.{
  Signal, modify, fill_front, fill_back, leading_ramp_loop, trailing_ramp_loop, padded_edges,
}
use technical_tts.Audio.Zeros.{length-fill_front, length-fill_back}

module _ {A : Type 0} where
  abbrev pub sample_at : ℕ → List A → Option A
  sample_at i [] = none
  sample_at zero (x ∷ xs) = some x
  sample_at (suc i) (x ∷ xs) = sample_at i xs

  sample_at-modify :
      (i j : ℕ) (f : A → A) (xs : List A)
      → (i < j) ⊎ (j < i)
      → sample_at i (modify j f xs) ≡ sample_at i xs
  unfolding modify
  sample_at-modify i j f [] h = refl
  sample_at-modify zero zero f (x ∷ xs) h = elim h [
    | inl a ↦ absurd (omega arith)
    | inr a ↦ absurd (omega arith)
  ]
  sample_at-modify (suc i) zero f (x ∷ xs) h = refl
  sample_at-modify zero (suc j) f (x ∷ xs) h = refl
  sample_at-modify (suc i) (suc j) f (x ∷ xs) h =
      sample_at-modify i j f xs (elim h [ inl a ↦ inl (omega arith) | inr a ↦ inr (omega arith) ])

  abbrev pub scaled : (A → A) → Option A → Option A
  scaled f none = none
  scaled f (some x) = some (f x)

  sample_at-modified :
      (i : ℕ) (f : A → A) (xs : List A) → sample_at i (modify i f xs) ≡ scaled f (sample_at i xs)
  unfolding modify
  sample_at-modified i f [] = refl
  sample_at-modified zero f (x ∷ xs) = refl
  sample_at-modified (suc i) f (x ∷ xs) = sample_at-modified i f xs

  sample_at-fill_front :
      (i n : ℕ) (a : A) (xs : List A) → n ≤ i → sample_at i (fill_front n a xs) ≡ sample_at i xs
  unfolding fill_front
  sample_at-fill_front i zero a xs h = refl
  sample_at-fill_front i (suc n) a [] h = refl
  sample_at-fill_front zero (suc n) a (x ∷ xs) h = absurd (omega arith)
  sample_at-fill_front (suc i) (suc n) a (x ∷ xs) h = sample_at-fill_front i n a xs (omega arith)

  sample_at-fill_back :
      (i n : ℕ) (a : A) (xs : List A) → i < n → sample_at i (fill_back n a xs) ≡ sample_at i xs
  unfolding fill_back
  sample_at-fill_back i n a [] h = refl
  sample_at-fill_back i zero a (x ∷ xs) h = absurd (omega arith)
  sample_at-fill_back zero (suc n) a (x ∷ xs) h = refl
  sample_at-fill_back (suc i) (suc n) a (x ∷ xs) h = sample_at-fill_back i n a xs (omega arith)

  sample_at-shifted :
      (i k : ℕ) (a : A) (xs : List A) → sample_at (k + i) (replicate k a ++ xs) ≡ sample_at i xs
  sample_at-shifted i zero a xs = ap (λ n. sample_at n xs) (omega arith)
  sample_at-shifted i (suc k) a xs =
      let e : suc k + i ≡ suc (k + i) = omega arith in rw e (sample_at-shifted i k a xs)

  sample_at-front :
      (i : ℕ) (xs ys : List A) → i < length xs → sample_at i (xs ++ ys) ≡ sample_at i xs
  sample_at-front i [] ys h = absurd (omega arith)
  sample_at-front zero (x ∷ xs) ys h = refl
  sample_at-front (suc i) (x ∷ xs) ys h = sample_at-front i xs ys (omega arith)

apart : (k o : ℕ) → (k == o) ≡ false → o ≤ k → o < k
apart k o e le = ground (arith, e, le)

module _ (s : Signal) where
  open s use {Sample, silence, ramped}

  -- Below the ramp that is left, and at an offset of it.
  below-leading_ramp :
      (left o onset l i : ℕ) (xs : List Sample)
      → i < onset + o
      → sample_at i (leading_ramp_loop s left o onset l xs) ≡ sample_at i xs
  unfolding leading_ramp_loop
  below-leading_ramp zero o onset l i xs h = refl
  below-leading_ramp (suc left) o onset l i xs h =
      below-leading_ramp left (o + 1) onset l i (modify (onset + o) (ramped o l) xs) (omega arith)
      ∙ sample_at-modify i (onset + o) (ramped o l) xs (inl (omega arith))

  inside-leading_ramp :
      (left o onset l k : ℕ) (xs : List Sample)
      → o ≤ k
      → k < o + left
      → sample_at (onset + k) (leading_ramp_loop s left o onset l xs)
        ≡ scaled (ramped k l) (sample_at (onset + k) xs)
  unfolding leading_ramp_loop
  inside-leading_ramp zero o onset l k xs low high = absurd (omega arith)
  inside-leading_ramp (suc left) o onset l k xs low high =
      let ys = modify (onset + o) (ramped o l) xs in
      elim (Bool-cases (k == o)) [
        | inl e ↦
            let same : o ≡ k = sym ((==_iff k o).0 e) in
            below-leading_ramp left (o + 1) onset l (onset + k) ys (omega arith)
            ∙ subst
                (λ n.
                  sample_at (onset + k) (modify (onset + n) (ramped n l) xs)
                  ≡ scaled (ramped k l) (sample_at (onset + k) xs))
                (sym same) (sample_at-modified (onset + k) (ramped k l) xs)
        | inr e ↦
            let above = apart k o e low in
            inside-leading_ramp left (o + 1) onset l k ys (omega arith) (omega arith)
            ∙ ap (scaled (ramped k l))
                (sample_at-modify (onset + k) (onset + o) (ramped o l) xs (inr (omega arith)))
      ]

  above-trailing_ramp :
      (left o end l i : ℕ) (xs : List Sample)
      → end ≤ i + o
      → o + left ≤ end
      → sample_at i (trailing_ramp_loop s left o end l xs) ≡ sample_at i xs
  unfolding trailing_ramp_loop
  above-trailing_ramp zero o end l i xs h fits = refl
  above-trailing_ramp (suc left) o end l i xs h fits =
      above-trailing_ramp left (o + 1) end l i (modify (end - 1 - o) (ramped o l) xs) (omega arith)
        (omega arith)
      ∙ sample_at-modify i (end - 1 - o) (ramped o l) xs (inr (omega arith))

  inside-trailing_ramp :
      (left o end l k i : ℕ) (xs : List Sample)
      → o ≤ k
      → k < o + left
      → o + left ≤ end
      → i + 1 + k ≡ end
      → sample_at i (trailing_ramp_loop s left o end l xs) ≡ scaled (ramped k l) (sample_at i xs)
  unfolding trailing_ramp_loop
  inside-trailing_ramp zero o end l k i xs low high fits here = absurd (omega arith)
  inside-trailing_ramp (suc left) o end l k i xs low high fits here =
      let ys = modify (end - 1 - o) (ramped o l) xs in
      elim (Bool-cases (k == o)) [
        | inl e ↦
            let same : o ≡ k = sym ((==_iff k o).0 e) in
            let place : end - 1 - o ≡ i = omega arith in
            above-trailing_ramp left (o + 1) end l i ys (omega arith) (omega arith)
            ∙ ap (λ n. sample_at i (modify n (ramped o l) xs)) place
            ∙ subst
                (λ n. sample_at i (modify i (ramped n l) xs) ≡ scaled (ramped k l) (sample_at i xs))
                (sym same) (sample_at-modified i (ramped k l) xs)
        | inr e ↦
            let above = apart k o e low in
            inside-trailing_ramp left (o + 1) end l k i ys (omega arith) (omega arith) (omega arith)
              here
            ∙ ap (scaled (ramped k l))
                (sample_at-modify i (end - 1 - o) (ramped o l) xs (inl (omega arith)))
      ]

  sample_at-leading_ramp :
      (left o onset l i : ℕ) (xs : List Sample)
      → onset + o + left ≤ i
      → sample_at i (leading_ramp_loop s left o onset l xs) ≡ sample_at i xs
  unfolding leading_ramp_loop
  sample_at-leading_ramp zero o onset l i xs h = refl
  sample_at-leading_ramp (suc left) o onset l i xs h =
      sample_at-leading_ramp left (o + 1) onset l i (modify (onset + o) (ramped o l) xs)
        (omega arith)
      ∙ sample_at-modify i (onset + o) (ramped o l) xs (inr (omega arith))

  sample_at-trailing_ramp :
      (left o end l i : ℕ) (xs : List Sample)
      → i + o + left < end
      → sample_at i (trailing_ramp_loop s left o end l xs) ≡ sample_at i xs
  unfolding trailing_ramp_loop
  sample_at-trailing_ramp zero o end l i xs h = refl
  sample_at-trailing_ramp (suc left) o end l i xs h =
      sample_at-trailing_ramp left (o + 1) end l i (modify (end - 1 - o) (ramped o l) xs)
        (omega arith)
      ∙ sample_at-modify i (end - 1 - o) (ramped o l) xs (inl (omega arith))

  -- Between the two silences, the padded audio is what was given.
  sample_at-padded_edges :
      (leading trailing p q i : ℕ) (xs : List Sample)
      → leading ≤ i
      → i + trailing < length xs
      → sample_at (p + i) (padded_edges s leading trailing p q xs) ≡ sample_at i xs
  sample_at-padded_edges leading trailing p q i xs low high =
      let front = fill_front leading silence xs in
      let filled = fill_back (length xs - trailing) silence front in
      let a = length-fill_back (length xs - trailing) silence front in
      let b = length-fill_front leading silence xs in
      sample_at-shifted i p silence (filled ++ replicate q silence)
      ∙ sample_at-front i filled (replicate q silence) (omega arith)
      ∙ sample_at-fill_back i (length xs - trailing) silence front (omega arith)
      ∙ sample_at-fill_front i leading silence xs low

  -- Audio with padded edges and both ramps: the samples between the ramps, and those in them.
  module _ (leading trailing p q ramp to : ℕ) (xs : List Sample) where
    abbrev padded : List Sample
    padded = padded_edges s leading trailing p q xs

    abbrev both_ramps : List Sample
    both_ramps =
        trailing_ramp_loop s ramp 0 to ramp (leading_ramp_loop s ramp 0 (leading + p) ramp padded)

    pub between_ramps :
        (i : ℕ)
        → to + trailing ≡ p + length xs
        → leading + p + ramp ≤ p + i
        → p + i + ramp < to
        → sample_at (p + i) both_ramps ≡ sample_at i xs
    between_ramps i h a b =
        sample_at-trailing_ramp ramp 0 to ramp (p + i) _ (omega arith)
        ∙ sample_at-leading_ramp ramp 0 (leading + p) ramp (p + i) padded (omega arith)
        ∙ sample_at-padded_edges leading trailing p q i xs (omega arith) (omega arith)

    pub in_leading_ramp :
        (i k : ℕ)
        → to + trailing ≡ p + length xs
        → leading + p + ramp + ramp ≤ to
        → p + i ≡ leading + p + k
        → k < ramp
        → sample_at (p + i) both_ramps ≡ scaled (ramped k ramp) (sample_at i xs)
    in_leading_ramp i k h fits here b =
        sample_at-trailing_ramp ramp 0 to ramp (p + i) _ (omega arith)
        ∙ ap (λ n. sample_at n (leading_ramp_loop s ramp 0 (leading + p) ramp padded)) here
        ∙ inside-leading_ramp ramp 0 (leading + p) ramp k padded (omega arith) (omega arith)
        ∙ ap (λ n. scaled (ramped k ramp) (sample_at n padded)) (sym here)
        ∙ ap (scaled (ramped k ramp))
            (sample_at-padded_edges leading trailing p q i xs (omega arith) (omega arith))

    pub in_trailing_ramp :
        (i k : ℕ)
        → to + trailing ≡ p + length xs
        → leading + p + ramp + ramp ≤ to
        → p + i + 1 + k ≡ to
        → k < ramp
        → sample_at (p + i) both_ramps ≡ scaled (ramped k ramp) (sample_at i xs)
    in_trailing_ramp i k h fits here b =
        inside-trailing_ramp ramp 0 to ramp k (p + i) _ (omega arith) (omega arith) (omega arith)
          here
        ∙ ap (scaled (ramped k ramp)) (
            sample_at-leading_ramp ramp 0 (leading + p) ramp (p + i) padded (omega arith)
            ∙ sample_at-padded_edges leading trailing p q i xs (omega arith) (omega arith))
