-- ===== src/Prelude/Results.antt =====
-- `Result<A, E>` with its bind, `?` being `←`.
use mathlib.Core.Path.{◌≡◌, refl}
use mathlib.Core.Logic.{◌⊎◌, inl, inr, ◌↔◌}
use mathlib.Core.Bool.{Bool, true, false, not}
use mathlib.Core.Option.{Option, none, some}
use mathlib.Core.List.{List, [], ◌∷◌}
use technical_tts.Prelude.Lists.{All}
use native.Mathlib.Omega.{arith}

pub data Result {ℓ κ} (A : Type ℓ) (E : Type κ) : Type (ℓ ⊔ κ) where
  ok : A → Result A E
  err : E → Result A E

-- `if bad { return Err(e) }`.
abbrev pub refuse_if {μ} : {E : Type μ} → Bool → E → Result (Unit {0}) E
refuse_if true e = err e
refuse_if false e = ok tt

-- `Option::ok_or`.
abbrev pub ok_or {ℓ μ} : {A : Type ℓ} {E : Type μ} → Option A → E → Result A E
ok_or none e = err e
ok_or (some a) e = ok a

infixl 5 ◌>>=◌
-- `?`, with the rest of the body.
abbrev pub ◌>>=◌ {ℓ κ μ} :
    {A : Type ℓ} {B : Type κ} {E : Type μ} → Result A E → (A → Result B E) → Result B E
ok value >>= body = body value
err failure >>= body = err failure

infixl 5 ◌>>◌
-- `?` on a value that is not used.
abbrev pub ◌>>◌ {κ μ} : {B : Type κ} {E : Type μ} → Result (Unit {0}) E → Result B E → Result B E
check >> body = check >>= λ _. body

-- `Result::map_err`.
abbrev pub map_err {ℓ κ μ} :
    {A : Type ℓ} {E : Type κ} {F : Type μ} → (E → F) → Result A E → Result A F
map_err f (ok a) = ok a
map_err f (err e) = err (f e)

-- `for x in xs { body(x)?; }`.
abbrev pub for_each {ℓ μ} :
    {A : Type ℓ} {E : Type μ} → (A → Result (Unit {0}) E) → List A → Result (Unit {0}) E
for_each f [] = ok tt
for_each f (x ∷ xs) = f x >> for_each f xs

-- `xs.iter().map(f).collect::<Result<Vec<_>, _>>()`.
abbrev pub map_result {ℓ κ μ} :
    {A : Type ℓ} {B : Type κ} {E : Type μ} → (A → Result B E) → List A → Result (List B) E
map_result f [] = ok []
map_result f (x ∷ xs) = do y ← f x; ys ← map_result f xs; ok (y ∷ ys)

pub Result-cases {ℓ κ} :
    {A : Type ℓ} {E : Type κ} (r : Result A E) → ((a : A) × (r ≡ ok a)) ⊎ ((e : E) × (r ≡ err e))
Result-cases (ok a) = inl (a, refl)
Result-cases (err e) = inr (e, refl)

-- A body runs exactly when the check in front of it passes.
pub then-ok_iff {κ μ} :
    {B : Type κ} {E : Type μ} (check : Result (Unit {0}) E) (body : Result B E) (b : B)
    → ((check >> body) ≡ ok b) ↔ ((check ≡ ok tt) × (body ≡ ok b))
then-ok_iff (ok u) body b = (λ h. (refl, h), λ h. h.1)
then-ok_iff (err e) body b = ground arith

pub map_err-ok_iff {ℓ κ μ} :
    {A : Type ℓ} {E : Type κ} {F : Type μ} (f : E → F) (r : Result A E) (a : A)
    → (map_err f r ≡ ok a) ↔ (r ≡ ok a)
map_err-ok_iff f (ok x) a = ground arith
map_err-ok_iff f (err e) a = ground arith

pub refuse_if-ok_iff {μ} :
    {E : Type μ} (bad : Bool) (e : E) → (refuse_if bad e ≡ ok tt) ↔ (bad ≡ false)
refuse_if-ok_iff true e = ground arith
refuse_if-ok_iff false e = (λ _. refl, λ _. refl)

-- A loop of checks passes exactly when each check does.
pub for_each-ok_iff {ℓ μ} :
    {A : Type ℓ} {E : Type μ} (f : A → Result (Unit {0}) E) (xs : List A)
    → (for_each f xs ≡ ok tt) ↔ All (λ x. f x ≡ ok tt) xs
for_each-ok_iff f [] = (λ _. tt, λ _. refl)
for_each-ok_iff f (x ∷ xs) =
    let (m, n) = then-ok_iff (f x) (for_each f xs) tt in
    let (p, q) = for_each-ok_iff f xs in (λ h. ((m h).0, p (m h).1), λ h. n (h.0, q h.1))

-- What ran where a body behind a result succeeded.
pub bind-ok {ℓ κ μ} :
    {A : Type ℓ} {B : Type κ} {E : Type μ} (r : Result A E) (body : A → Result B E) (b : B)
    → (r >>= body) ≡ ok b
    → (a : A) × (r ≡ ok a) × (body a ≡ ok b)
bind-ok (ok a) body b h = (a, refl, h)
bind-ok (err e) body b h = absurd (ground (arith, h))

pub ok_or-ok {ℓ μ} :
    {A : Type ℓ} {E : Type μ} (o : Option A) (e : E) (a : A) → ok_or o e ≡ ok a → o ≡ some a
ok_or-ok none e a h = absurd (ground (arith, h))
ok_or-ok (some x) e a h = ground (arith, h)

pub ok_injective {ℓ μ} :
    {A : Type ℓ} {E : Type μ} {a b : A} → ◌≡◌ {A = Result A E} (ok a) (ok b) → a ≡ b
ok_injective h = ground (arith, h)

-- A guard passes to its body exactly where its test fails.
pub refuse_if-then_iff {κ μ} :
    {B : Type κ} {E : Type μ} (bad : Bool) (e : E) (body : Result B E) (b : B)
    → ((refuse_if bad e >> body) ≡ ok b) ↔ ((bad ≡ false) × (body ≡ ok b))
refuse_if-then_iff true e body b = ground arith
refuse_if-then_iff false e body b = (λ h. (refl, h), λ h. h.1)

pub bind-ok_iff {ℓ κ μ} :
    {A : Type ℓ} {B : Type κ} {E : Type μ} (r : Result A E) (body : A → Result B E) (b : B)
    → ((r >>= body) ≡ ok b) ↔ ((a : A) × (r ≡ ok a) × (body a ≡ ok b))
bind-ok_iff (ok a) body b = (λ h. (a, refl, h), λ (x, e, h). rw (ok_injective e) h)
bind-ok_iff (err e) body b =
    (λ h. absurd (ground (arith, h)), λ (x, f, h). absurd (ground (arith, f)))

-- A guard on what must hold.
pub refuse_not-ok_iff {μ} :
    {E : Type μ} (good : Bool) (e : E) → (refuse_if (not good) e ≡ ok tt) ↔ (good ≡ true)
refuse_not-ok_iff true e = (λ _. refl, λ _. refl)
refuse_not-ok_iff false e = ground arith

pub refuse_not-then_iff {κ μ} :
    {B : Type κ} {E : Type μ} (good : Bool) (e : E) (body : Result B E) (b : B)
    → ((refuse_if (not good) e >> body) ≡ ok b) ↔ ((good ≡ true) × (body ≡ ok b))
refuse_not-then_iff true e body b = (λ h. (refl, h), λ h. h.1)
refuse_not-then_iff false e body b = ground arith
