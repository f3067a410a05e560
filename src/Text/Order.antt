-- ===== src/Text/Order.antt =====
-- Byte strings and their order: `str::eq` and `str::cmp` compare bytes from the left.
use Prim.Native.Nat.Ordering.{lt, eq, gt}
use technical_tts.Prelude.{
  ℕ, ◌≡◌, refl, ◌↔◌, Bool, true, false, ◌&&◌, List, [], ◌∷◌, arith, ◌==◌, compare, Ordering,
}

abbrev pub Text : Type 0
Text = List ℕ

unfoldable pub text_eq : Text → Text → Bool
text_eq [] [] = true
text_eq (a ∷ s) (b ∷ t) = a == b && text_eq s t
text_eq _ _ = false

pub text_eq_iff : (s t : Text) → (text_eq s t ≡ true) ↔ (s ≡ t)
unfolding text_eq
text_eq_iff [] [] = (λ _. refl, λ _. refl)
text_eq_iff [] (b ∷ t) = ground arith
text_eq_iff (a ∷ s) [] = ground arith
text_eq_iff (a ∷ s) (b ∷ t) = ground (arith, text_eq_iff s t)

abbrev then_cmp : Ordering → Ordering → Ordering
then_cmp eq second = second
then_cmp first _ = first

unfoldable pub text_cmp : Text → Text → Ordering
text_cmp [] [] = eq
text_cmp [] (b ∷ t) = lt
text_cmp (a ∷ s) [] = gt
text_cmp (a ∷ s) (b ∷ t) = then_cmp (compare a b) (text_cmp s t)

pub text_cmp_refl : (s : Text) → text_cmp s s ≡ eq
unfolding text_cmp
text_cmp_refl [] = refl
text_cmp_refl (a ∷ s) = ground (arith, text_cmp_refl s)

pub eq_of_text_cmp : (s t : Text) → text_cmp s t ≡ eq → s ≡ t
unfolding text_cmp
eq_of_text_cmp [] [] h = refl
eq_of_text_cmp [] (b ∷ t) h = ground arith
eq_of_text_cmp (a ∷ s) [] h = ground arith
eq_of_text_cmp (a ∷ s) (b ∷ t) h = ground (arith, eq_of_text_cmp s t)

pub lt_of_text_gt : (s t : Text) → text_cmp s t ≡ gt → text_cmp t s ≡ lt
unfolding text_cmp
lt_of_text_gt [] [] h = ground arith
lt_of_text_gt [] (b ∷ t) h = ground arith
lt_of_text_gt (a ∷ s) [] h = refl
lt_of_text_gt (a ∷ s) (b ∷ t) h = ground (arith, lt_of_text_gt s t)

pub text_lt_trans : (r s t : Text) → text_cmp r s ≡ lt → text_cmp s t ≡ lt → text_cmp r t ≡ lt
unfolding text_cmp
text_lt_trans [] [] [] h k = k
text_lt_trans [] [] (c ∷ t) h k = refl
text_lt_trans [] (b ∷ s) [] h k = ground arith
text_lt_trans [] (b ∷ s) (c ∷ t) h k = refl
text_lt_trans (a ∷ r) [] [] h k = ground arith
text_lt_trans (a ∷ r) [] (c ∷ t) h k = ground arith
text_lt_trans (a ∷ r) (b ∷ s) [] h k = ground arith
text_lt_trans (a ∷ r) (b ∷ s) (c ∷ t) h k = ground (arith, text_lt_trans r s t)
