-- ===== src/Examples/Floats.antt =====
-- Numbers in the place of floats: the promises that a signal rests on can be kept.
use technical_tts.Prelude.{
  ℕ, zero, suc, ==_iff, ◌-◌, ◌*◌, ◌+◌, ◌≡◌, refl, true, ltb, leb, ◌==◌, arith,
}
use technical_tts.Audio.{IsLawful}
use technical_tts.Audio.Floats.{Floats, IsFloats, signal_of, signal_of-IsLawful}

abbrev whole : Floats
whole = record {
  Single = ℕ;
  Double = ℕ;
  nought = 0;
  one = 1;
  half = 1;
  pi = 3;
  of_usize = λ n. n;
  sub = λ x y. x - y;
  mul = λ x y. x * y;
  div = λ x y. 0;
  cos = λ x. 1;
  is_finite = λ x. true;
  is_zero = λ x. x == 0;
  is_gain = λ x. leb x 1;
  in_range = λ x. leb x 1;
  greater = λ x y. ltb y x;
  at_most = λ x y. leb x y;
  threshold = 3;
  widen = λ x. x;
  square = λ x. x * x;
  start = 0;
  add = λ x y. x + y;
  over = λ x n. x;
  sqrt = λ x. x;
  narrow = λ x. x;
  is_zero_double = λ x. x == 0;
}

zero_product : (x y : ℕ) → (y == 0) ≡ true → (x * y == 0) ≡ true
zero_product x y h = let e : y ≡ 0 = (==_iff y 0).0 h in rw e (ground arith)

product_zero : (x y : ℕ) → (x == 0) ≡ true → (x * y == 0) ≡ true
product_zero x y h = let e : x ≡ 0 = (==_iff x 0).0 h in rw e (ground arith)

small_product : (x g : ℕ) → leb x 1 ≡ true → leb g 1 ≡ true → leb (x * g) 1 ≡ true
small_product zero g h k = ground arith
small_product (suc zero) g h k = ground (arith, k)
small_product (suc (suc x)) g h k = absurd (ground (arith, h))

whole-IsFloats : IsFloats whole
whole-IsFloats = record {
  nought_zero = refl;
  nought_range = refl;
  angle_finite = λ o l h. refl;
  start_angle = λ l h. refl;
  mul_zero = λ x y h k. zero_product x y k;
  pi_finite = refl;
  half_finite = refl;
  range_finite = λ x h. refl;
  cos_range = λ x h. refl;
  cos_zero = λ x h. refl;
  one_less_one = refl;
  half_gap = λ c h. ground (arith, h);
  scaled_range = λ x g h k. small_product x g h k;
  scaled_zero = λ x g h k. product_zero x g h;
  widen_zero = λ x h. h;
  square_zero = λ x h. zero_product x x h;
  start_zero = refl;
  add_zero = λ x y h k. ground (arith, h, k);
  over_zero = λ x n h. h;
  sqrt_zero = λ x h. h;
  narrow_zero = λ x h. h;
  not_greater = λ x h. ground (arith, h);
  zero_at_most = λ x h. ground (arith, h);
}

whole-IsLawful : IsLawful (signal_of whole)
whole-IsLawful = signal_of-IsLawful whole whole-IsFloats
