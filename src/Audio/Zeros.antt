-- ===== src/Audio/Zeros.antt =====
-- Where a list of samples is zero, and what keeps it so.
use technical_tts.Prelude.{
  ℕ, zero, suc, ◌+◌, ◌-◌, ◌<◌, ◌≤◌, ◌≡◌, refl, ap, ◌∙◌, Bool, true, List, [], ◌∷◌, ◌++◌, length,
  replicate, All, arith,
}
use technical_tts.Audio.{
  Signal, IsLawful, drop, take, modify, fill_front, fill_back, leading_ramp_loop,
  trailing_ramp_loop,
}

module _ {A : Type 0} where
  pub length-modify : (i : ℕ) (f : A → A) (xs : List A) → length (modify i f xs) ≡ length xs
  unfolding modify
  length-modify i f [] = refl
  length-modify zero f (x ∷ xs) = refl
  length-modify (suc i) f (x ∷ xs) = ap (λ n. suc n) (length-modify i f xs)

  pub length-fill_front : (n : ℕ) (a : A) (xs : List A) → length (fill_front n a xs) ≡ length xs
  unfolding fill_front
  length-fill_front zero a xs = refl
  length-fill_front (suc n) a [] = refl
  length-fill_front (suc n) a (x ∷ xs) = ap (λ n. suc n) (length-fill_front n a xs)

  pub length-fill_back : (n : ℕ) (a : A) (xs : List A) → length (fill_back n a xs) ≡ length xs
  unfolding fill_back
  length-fill_back n a [] = refl
  length-fill_back zero a (x ∷ xs) = ap (λ n. suc n) (length-fill_back zero a xs)
  length-fill_back (suc n) a (x ∷ xs) = ap (λ n. suc n) (length-fill_back n a xs)

  pub length-replicate : (k : ℕ) (a : A) → length (replicate k a) ≡ k
  length-replicate zero a = omega arith
  length-replicate (suc k) a = omega (arith, length-replicate k a)

  All-modify :
      (P : A → Type 0) (i : ℕ) (f : A → A) (xs : List A)
      → ((x : A) → P x → P (f x))
      → All P xs
      → All P (modify i f xs)
  unfolding modify
  All-modify P i f [] keep h = tt
  All-modify P zero f (x ∷ xs) keep h = (keep x h.0, h.1)
  All-modify P (suc i) f (x ∷ xs) keep h = (h.0, All-modify P i f xs keep h.1)

  pub All-fill_front :
      (P : A → Type 0) (n : ℕ) (a : A) (xs : List A) → P a → All P xs → All P (fill_front n a xs)
  unfolding fill_front
  All-fill_front P zero a xs here h = h
  All-fill_front P (suc n) a [] here h = tt
  All-fill_front P (suc n) a (x ∷ xs) here h = (here, All-fill_front P n a xs here h.1)

  pub All-fill_back :
      (P : A → Type 0) (n : ℕ) (a : A) (xs : List A) → P a → All P xs → All P (fill_back n a xs)
  unfolding fill_back
  All-fill_back P n a [] here h = tt
  All-fill_back P zero a (x ∷ xs) here h = (here, All-fill_back P zero a xs here h.1)
  All-fill_back P (suc n) a (x ∷ xs) here h = (h.0, All-fill_back P n a xs here h.1)

  pub All-replicate : (P : A → Type 0) (k : ℕ) (a : A) → P a → All P (replicate k a)
  All-replicate P zero a here = tt
  All-replicate P (suc k) a here = (here, All-replicate P k a here)

module _ (s : Signal) where
  open s use {Sample, silence, is_zero, in_range, ramped}

  -- The sample of an index is zero, or there is none.
  abbrev pub zero_at : ℕ → List Sample → Bool
  zero_at i [] = true
  zero_at zero (x ∷ xs) = is_zero x
  zero_at (suc i) (x ∷ xs) = zero_at i xs

  pub zero_at-beyond : (i : ℕ) (xs : List Sample) → length xs ≤ i → zero_at i xs ≡ true
  zero_at-beyond i [] h = refl
  zero_at-beyond zero (x ∷ xs) h = absurd (omega arith)
  zero_at-beyond (suc i) (x ∷ xs) h = zero_at-beyond i xs (omega arith)

  -- Zeros on a stretch.
  abbrev pub AreZero : ℕ → ℕ → List Sample → Type 0
  AreZero from to xs = (i : ℕ) → from ≤ i → i < to → zero_at i xs ≡ true

  All-take : (n : ℕ) (xs : List Sample) → AreZero 0 n xs → All (λ x. is_zero x ≡ true) (take n xs)
  unfolding take
  All-take zero xs h = tt
  All-take (suc n) [] h = tt
  All-take (suc n) (x ∷ xs) h = (
    h 0 (omega arith) (omega arith),
    All-take n xs (λ i a b. h (suc i) (omega arith) (omega arith)),
  )

  pub All-slice :
      (from n : ℕ) (xs : List Sample)
      → AreZero from (from + n) xs
      → All (λ x. is_zero x ≡ true) (take n (drop from xs))
  unfolding drop
  All-slice zero n xs h = All-take n xs (λ i a b. h i a (omega arith))
  All-slice (suc from) n [] h = All-take n [] (λ i a b. refl)
  All-slice (suc from) n (x ∷ xs) h =
      All-slice from n xs (λ i a b. h (suc i) (omega arith) (omega arith))

  module _ (lawful : IsLawful s) where
    zero_at-modify :
        (i j o l : ℕ) (xs : List Sample)
        → o < l
        → zero_at i xs ≡ true
        → zero_at i (modify j (ramped o l) xs) ≡ true
    unfolding modify
    zero_at-modify i j o l [] b h = refl
    zero_at-modify zero zero o l (x ∷ xs) b h = lawful.ramped_zero o l x b h
    zero_at-modify (suc i) zero o l (x ∷ xs) b h = h
    zero_at-modify zero (suc j) o l (x ∷ xs) b h = h
    zero_at-modify (suc i) (suc j) o l (x ∷ xs) b h = zero_at-modify i j o l xs b h

    zero_at-first_gain :
        (j l : ℕ) (xs : List Sample)
        → 0 < l
        → All (λ x. in_range x ≡ true) xs
        → zero_at j (modify j (ramped 0 l) xs) ≡ true
    unfolding modify
    zero_at-first_gain j l [] b h = refl
    zero_at-first_gain zero l (x ∷ xs) b h = lawful.first_gain l x b h.0
    zero_at-first_gain (suc j) l (x ∷ xs) b h = zero_at-first_gain j l xs b h.1

    pub zero_at-fill_front :
        (i n : ℕ) (xs : List Sample) → i < n → zero_at i (fill_front n silence xs) ≡ true
    unfolding fill_front
    zero_at-fill_front i zero xs h = absurd (omega arith)
    zero_at-fill_front i (suc n) [] h = refl
    zero_at-fill_front zero (suc n) (x ∷ xs) h = lawful.silence_zero
    zero_at-fill_front (suc i) (suc n) (x ∷ xs) h = zero_at-fill_front i n xs (omega arith)

    pub zero_at-fill_back :
        (i n : ℕ) (xs : List Sample) → n ≤ i → zero_at i (fill_back n silence xs) ≡ true
    unfolding fill_back
    zero_at-fill_back i n [] h = refl
    zero_at-fill_back zero zero (x ∷ xs) h = lawful.silence_zero
    zero_at-fill_back (suc i) zero (x ∷ xs) h = zero_at-fill_back i zero xs (omega arith)
    zero_at-fill_back zero (suc n) (x ∷ xs) h = absurd (omega arith)
    zero_at-fill_back (suc i) (suc n) (x ∷ xs) h = zero_at-fill_back i n xs (omega arith)

    pub zero_at-fill_back_kept :
        (i n : ℕ) (xs : List Sample)
        → zero_at i xs ≡ true
        → zero_at i (fill_back n silence xs) ≡ true
    unfolding fill_back
    zero_at-fill_back_kept i n [] h = refl
    zero_at-fill_back_kept zero zero (x ∷ xs) h = lawful.silence_zero
    zero_at-fill_back_kept (suc i) zero (x ∷ xs) h = zero_at-fill_back_kept i zero xs h
    zero_at-fill_back_kept zero (suc n) (x ∷ xs) h = h
    zero_at-fill_back_kept (suc i) (suc n) (x ∷ xs) h = zero_at-fill_back_kept i n xs h

    zero_at-replicate : (i k : ℕ) → zero_at i (replicate k silence) ≡ true
    zero_at-replicate i zero = refl
    zero_at-replicate zero (suc k) = lawful.silence_zero
    zero_at-replicate (suc i) (suc k) = zero_at-replicate i k

    pub zero_at-front :
        (i k : ℕ) (xs : List Sample) → i < k → zero_at i (replicate k silence ++ xs) ≡ true
    zero_at-front i zero xs h = absurd (omega arith)
    zero_at-front zero (suc k) xs h = lawful.silence_zero
    zero_at-front (suc i) (suc k) xs h = zero_at-front i k xs (omega arith)

    pub zero_at-shifted :
        (i k : ℕ) (xs : List Sample) → zero_at (k + i) (replicate k silence ++ xs) ≡ zero_at i xs
    zero_at-shifted i zero xs = ap (λ n. zero_at n xs) (omega arith)
    zero_at-shifted i (suc k) xs =
        let e : suc k + i ≡ suc (k + i) = omega arith in rw e (zero_at-shifted i k xs)

    pub zero_at-back :
        (i k : ℕ) (xs : List Sample)
        → zero_at i xs ≡ true
        → zero_at i (xs ++ replicate k silence) ≡ true
    zero_at-back i k [] h = zero_at-replicate i k
    zero_at-back zero k (x ∷ xs) h = h
    zero_at-back (suc i) k (x ∷ xs) h = zero_at-back i k xs h

    -- Ramps keep zeros, the number of samples and the range, and the end of each is a zero.
    pub zero_at-leading_ramp :
        (left o onset l i : ℕ) (xs : List Sample)
        → o + left ≤ l
        → zero_at i xs ≡ true
        → zero_at i (leading_ramp_loop s left o onset l xs) ≡ true
    unfolding leading_ramp_loop
    zero_at-leading_ramp zero o onset l i xs b h = h
    zero_at-leading_ramp (suc left) o onset l i xs b h =
        zero_at-leading_ramp left (o + 1) onset l i (modify (onset + o) (ramped o l) xs)
          (omega arith) (zero_at-modify i (onset + o) o l xs (omega arith) h)

    pub zero_at-trailing_ramp :
        (left o end l i : ℕ) (xs : List Sample)
        → o + left ≤ l
        → zero_at i xs ≡ true
        → zero_at i (trailing_ramp_loop s left o end l xs) ≡ true
    unfolding trailing_ramp_loop
    zero_at-trailing_ramp zero o end l i xs b h = h
    zero_at-trailing_ramp (suc left) o end l i xs b h =
        zero_at-trailing_ramp left (o + 1) end l i (modify (end - 1 - o) (ramped o l) xs)
          (omega arith) (zero_at-modify i (end - 1 - o) o l xs (omega arith) h)

    pub zero_at-onset :
        (left onset l : ℕ) (xs : List Sample)
        → suc left ≤ l
        → All (λ x. in_range x ≡ true) xs
        → zero_at onset (leading_ramp_loop s (suc left) 0 onset l xs) ≡ true
    unfolding leading_ramp_loop
    zero_at-onset left onset l xs b h =
        let here : onset + 0 ≡ onset = omega arith in
        zero_at-leading_ramp left (0 + 1) onset l onset (modify (onset + 0) (ramped 0 l) xs)
          (omega arith) (rw here (zero_at-first_gain onset l xs (omega arith) h))

    pub zero_at-end :
        (left end l : ℕ) (xs : List Sample)
        → suc left ≤ l
        → All (λ x. in_range x ≡ true) xs
        → zero_at (end - 1) (trailing_ramp_loop s (suc left) 0 end l xs) ≡ true
    unfolding trailing_ramp_loop
    zero_at-end left end l xs b h =
        let here : end - 1 - 0 ≡ end - 1 = omega arith in
        zero_at-trailing_ramp left (0 + 1) end l (end - 1) (modify (end - 1 - 0) (ramped 0 l) xs)
          (omega arith) (rw here (zero_at-first_gain (end - 1) l xs (omega arith) h))

    pub All-leading_ramp :
        (left o onset l : ℕ) (xs : List Sample)
        → o + left ≤ l
        → All (λ x. in_range x ≡ true) xs
        → All (λ x. in_range x ≡ true) (leading_ramp_loop s left o onset l xs)
    unfolding leading_ramp_loop
    All-leading_ramp zero o onset l xs b h = h
    All-leading_ramp (suc left) o onset l xs b h =
        All-leading_ramp left (o + 1) onset l (modify (onset + o) (ramped o l) xs) (omega arith) (
          All-modify (λ x. in_range x ≡ true) (onset + o) (ramped o l) xs
            (λ x. lawful.ramped_range o l x (omega arith)) h)

    pub All-trailing_ramp :
        (left o end l : ℕ) (xs : List Sample)
        → o + left ≤ l
        → All (λ x. in_range x ≡ true) xs
        → All (λ x. in_range x ≡ true) (trailing_ramp_loop s left o end l xs)
    unfolding trailing_ramp_loop
    All-trailing_ramp zero o end l xs b h = h
    All-trailing_ramp (suc left) o end l xs b h =
        All-trailing_ramp left (o + 1) end l (modify (end - 1 - o) (ramped o l) xs) (omega arith) (
          All-modify (λ x. in_range x ≡ true) (end - 1 - o) (ramped o l) xs
            (λ x. lawful.ramped_range o l x (omega arith)) h)

  pub length-leading_ramp :
      (left o onset l : ℕ) (xs : List Sample)
      → length (leading_ramp_loop s left o onset l xs) ≡ length xs
  unfolding leading_ramp_loop
  length-leading_ramp zero o onset l xs = refl
  length-leading_ramp (suc left) o onset l xs =
      length-leading_ramp left (o + 1) onset l (modify (onset + o) (ramped o l) xs)
      ∙ length-modify (onset + o) (ramped o l) xs

  pub length-trailing_ramp :
      (left o end l : ℕ) (xs : List Sample)
      → length (trailing_ramp_loop s left o end l xs) ≡ length xs
  unfolding trailing_ramp_loop
  length-trailing_ramp zero o end l xs = refl
  length-trailing_ramp (suc left) o end l xs =
      length-trailing_ramp left (o + 1) end l (modify (end - 1 - o) (ramped o l) xs)
      ∙ length-modify (end - 1 - o) (ramped o l) xs
