-- ===== src/Cache/Declared.antt =====
-- What `check_declared_conditioning` accepts.
use technical_tts.Prelude.{
  ℕ, zero, suc, ◌+◌, ◌-◌, ◌/◌, ◌<◌, ◌≤◌, ◌≡◌, ◌↔◌, inl, inr, refl, subst, true, false, not, ◌&&◌,
  Bool-cases, Option, none, some, Option-cases, List, [], ◌∷◌, ltb, leb, ltb→lt, lt→ltb, leb→le,
  le→leb, ltb_false→le, ◌==◌, ==_iff, &&_iff, ok, ◌>>◌, refuse_if, refuse_if-ok_iff,
  refuse_if-then_iff, then-ok_iff, for_each, for_each-ok_iff, arith,
}
use technical_tts.Audio.{Signal, CalibrationSource, provisional, frozen, to_u32, min}
use technical_tts.Audio.Zeros.{zero_at}
use technical_tts.Cache.{RecordedConditioning, CacheEntryFault}
use technical_tts.Cache.Conditioning.{
  source_eq, first_nonzero, last_nonzero, maximum_ramp, span_ramp, minimum_ramp, check_field,
  bounded_fields, check_ramp, ramp_fields, check_declared_conditioning,
}

source_eq_iff : (a b : CalibrationSource) → (source_eq a b ≡ true) ↔ (a ≡ b)
unfolding source_eq
source_eq_iff provisional provisional = (λ _. refl, λ _. refl)
source_eq_iff frozen frozen = (λ _. refl, λ _. refl)
source_eq_iff provisional frozen = ground arith
source_eq_iff frozen provisional = ground arith

module _ (s : Signal) where
  open s use {Sample, is_zero}

  pub first_nonzero-at :
      (xs : List Sample) (f : ℕ) → first_nonzero s xs ≡ some f → zero_at s f xs ≡ false
  unfolding first_nonzero
  first_nonzero-at [] f h = absurd (ground (arith, h))
  first_nonzero-at (x ∷ xs) f h = elim (Bool-cases (is_zero x)) [
    | inl z ↦ elim (Option-cases (first_nonzero s xs)) [
      | inl e ↦ absurd (ground (arith, h, z, e))
      | inr (g, e) ↦
          let same : suc g ≡ f = ground (arith, h, z, e) in
          subst (λ n. zero_at s n (x ∷ xs) ≡ false) same (first_nonzero-at xs g e)
    ]
    | inr z ↦
        let same : 0 ≡ f = ground (arith, h, z) in subst (λ n. zero_at s n (x ∷ xs) ≡ false) same z
  ]

  first_nonzero-le :
      (xs : List Sample) (i : ℕ)
      → zero_at s i xs ≡ false
      → (f : ℕ) × (first_nonzero s xs ≡ some f) × (f ≤ i)
  unfolding first_nonzero
  first_nonzero-le [] i h = absurd (ground (arith, h))
  first_nonzero-le (x ∷ xs) zero h = (0, (rw h refl), omega arith)
  first_nonzero-le (x ∷ xs) (suc i) h = elim (Bool-cases (is_zero x)) [
    | inl z ↦ let (f, e, le) = first_nonzero-le xs i h in (suc f, rw (z, e) refl, omega arith)
    | inr z ↦ (0, rw z refl, omega arith)
  ]

  pub last_nonzero-at :
      (xs : List Sample) (l : ℕ) → last_nonzero s xs ≡ some l → zero_at s l xs ≡ false
  unfolding last_nonzero
  last_nonzero-at [] l h = absurd (ground (arith, h))
  last_nonzero-at (x ∷ xs) l h = elim (Option-cases (last_nonzero s xs)) [
    | inl e ↦ elim (Bool-cases (is_zero x)) [
      | inl z ↦ absurd (ground (arith, h, z, e))
      | inr z ↦
          let same : 0 ≡ l = ground (arith, h, z, e) in
          subst (λ n. zero_at s n (x ∷ xs) ≡ false) same z
    ]
    | inr (g, e) ↦
        let same : suc g ≡ l = ground (arith, h, e) in
        subst (λ n. zero_at s n (x ∷ xs) ≡ false) same (last_nonzero-at xs g e)
  ]

  le-last_nonzero :
      (xs : List Sample) (i : ℕ)
      → zero_at s i xs ≡ false
      → (l : ℕ) × (last_nonzero s xs ≡ some l) × (i ≤ l)
  unfolding last_nonzero
  le-last_nonzero [] i h = absurd (ground (arith, h))
  le-last_nonzero (x ∷ xs) zero h = elim (Option-cases (last_nonzero s xs)) [
    | inl e ↦ (0, rw (e, h) refl, omega arith)
    | inr (g, e) ↦ (suc g, rw e refl, omega arith)
  ]
  le-last_nonzero (x ∷ xs) (suc i) h =
      let (l, e, le) = le-last_nonzero xs i h in (suc l, rw e refl, omega arith)

  -- No shorter than the span of any two samples that are not zero takes.
  abbrev pub Spans : List Sample → ℕ → Type 0
  Spans xs ramp =
      (i j : ℕ)
      → i < j
      → zero_at s i xs ≡ false
      → zero_at s j xs ≡ false
      → min (maximum_ramp s xs) ((j - i + 3) / 2) ≤ ramp

  min_mono : (m a b : ℕ) → a ≤ b → min m a ≤ min m b
  min_mono m a b h = ground (arith, h)

  minimum_ramp-Spans : (xs : List Sample) (ramp : ℕ) → (minimum_ramp s xs ≤ ramp) ↔ Spans xs ramp
  minimum_ramp-Spans xs ramp =
      let most = maximum_ramp s xs in
      (
        (λ h i j lt zi zj.
            let (f, ef, fi) = first_nonzero-le xs i zi in
            let (l, el, jl) = le-last_nonzero xs j zj in
            let before : ltb f l ≡ true = lt→ltb f l (omega arith) in
            let span : minimum_ramp s xs ≡ min most ((l - f + 3) / 2) = rw (ef, el, before) refl in
            let wider = min_mono most ((j - i + 3) / 2) ((l - f + 3) / 2) (omega arith) in
            omega arith),
        (λ h. elim (Option-cases (first_nonzero s xs)) [
          | inl e ↦ rw e (omega arith)
          | inr (f, e) ↦ elim (Option-cases (last_nonzero s xs)) [
            | inl d ↦ rw (e, d) (omega arith)
            | inr (l, d) ↦ elim (Bool-cases (ltb f l)) [
              | inl lt ↦
                  rw (e, d, lt)
                    (h f l (ltb→lt f l lt) (first_nonzero-at xs f e) (last_nonzero-at xs l d))
              | inr ge ↦ rw (e, d, ge) (omega arith)
            ]
          ]
        ]),
      )

  -- Padding of at most 10 ms, and two equal ramps of at most 5 ms that fit between two edges of 10 ms
  -- and are no shorter than the samples that are not zero allow.
  pub record IsDeclared (recorded : RecordedConditioning) (xs : List Sample) : Type 0 where
    pub leading_padding_le : recorded.leading_padding ≤ 240
    pub trailing_padding_le : recorded.trailing_padding ≤ 240
    pub applied : recorded.calibration_source ≡ provisional
    pub same_ramp : recorded.leading_ramp ≡ recorded.trailing_ramp
    pub ramp_le : recorded.leading_ramp ≤ maximum_ramp s xs
    pub spans : Spans xs recorded.leading_ramp

  refuse_ltb : (a b : ℕ) (f : CacheEntryFault Sample) → (refuse_if (ltb a b) f ≡ ok tt) ↔ (b ≤ a)
  refuse_ltb a b f =
      let (p, q) = refuse_if-ok_iff (ltb a b) f in
      (λ h. ltb_false→le a b (p h), λ h. q (ground (arith, h)))

  check_fields-ok_iff :
      (recorded : RecordedConditioning)
      → (for_each (check_field s) (bounded_fields s recorded) ≡ ok tt) ↔ (
          (recorded.leading_ramp ≤ 120)
          × (recorded.trailing_ramp ≤ 120)
          × (recorded.leading_padding ≤ 240)
          × (recorded.trailing_padding ≤ 240))
  check_fields-ok_iff recorded =
      let (p, q) = for_each-ok_iff (check_field s) (bounded_fields s recorded) in
      (
        (λ h.
            let (a, (b, (c, (d, _)))) = p h in
            (
              (refuse_ltb 120 recorded.leading_ramp _).0 a,
              (refuse_ltb 120 recorded.trailing_ramp _).0 b,
              (refuse_ltb 240 recorded.leading_padding _).0 c,
              (refuse_ltb 240 recorded.trailing_padding _).0 d,
            )),
        (λ (a, b, c, d). q (
          (refuse_ltb 120 recorded.leading_ramp _).1 a,
          (
            (refuse_ltb 120 recorded.trailing_ramp _).1 b,
            (
              (refuse_ltb 240 recorded.leading_padding _).1 c,
              ((refuse_ltb 240 recorded.trailing_padding _).1 d, tt),
            ),
          ),
        )),
      )

  refuse_outside :
      (minimum maximum declared : ℕ) (f : CacheEntryFault Sample)
      → (refuse_if (not (leb minimum declared && leb declared maximum)) f ≡ ok tt)
        ↔ ((minimum ≤ declared) × (declared ≤ maximum))
  refuse_outside minimum maximum declared f =
      let (p, q) = refuse_if-ok_iff (not (leb minimum declared && leb declared maximum)) f in
      let (m, n) = &&_iff (leb minimum declared) (leb declared maximum) in
      (
        (λ h.
            let both = m (ground (arith, p h)) in
            (leb→le minimum declared both.0, leb→le declared maximum both.1)),
        (λ (a, b).
            let both = n (le→leb minimum declared a, le→leb declared maximum b) in
            q (ground (arith, both))),
      )

  check_ramps-ok_iff :
      (minimum maximum : ℕ) (recorded : RecordedConditioning)
      → (for_each (check_ramp s minimum maximum) (ramp_fields s recorded) ≡ ok tt) ↔ (
          ((minimum ≤ recorded.leading_ramp) × (recorded.leading_ramp ≤ maximum))
          × ((minimum ≤ recorded.trailing_ramp) × (recorded.trailing_ramp ≤ maximum)))
  check_ramps-ok_iff minimum maximum recorded =
      let (p, q) = for_each-ok_iff (check_ramp s minimum maximum) (ramp_fields s recorded) in
      let lead = refuse_outside minimum maximum recorded.leading_ramp in
      let trail = refuse_outside minimum maximum recorded.trailing_ramp in
      (
        (λ h. let (a, (b, _)) = p h in ((lead _).0 a, (trail _).0 b)),
        (λ (a, b). q ((lead _).1 a, ((trail _).1 b, tt))),
      )

  maximum_le : (xs : List Sample) → maximum_ramp s xs ≤ 120
  maximum_le xs = ground arith

  span_le :
      (maximum : ℕ) (first last : Option ℕ) → maximum ≤ 120 → span_ramp s maximum first last ≤ 120
  span_le maximum none last h = omega arith
  span_le maximum (some f) none h = omega arith
  span_le maximum (some f) (some l) h = ground (arith, h)

  minimum_le : (xs : List Sample) → minimum_ramp s xs ≤ 120
  minimum_le xs =
      span_le (maximum_ramp s xs) (first_nonzero s xs) (last_nonzero s xs) (maximum_le xs)

  to_u32_small : (n : ℕ) → n ≤ 120 → to_u32 n ≡ n
  to_u32_small n h = ground (arith, h)

  pub check_declared_conditioning-ok_iff :
      (recorded : RecordedConditioning) (xs : List Sample)
      → (check_declared_conditioning s recorded xs ≡ ok tt) ↔ IsDeclared recorded xs
  unfolding check_declared_conditioning
  check_declared_conditioning-ok_iff recorded xs =
      let minimum = to_u32 (minimum_ramp s xs) in
      let maximum = to_u32 (maximum_ramp s xs) in
      let least = to_u32_small (minimum_ramp s xs) (minimum_le xs) in
      let most = to_u32_small (maximum_ramp s xs) (maximum_le xs) in
      let short = maximum_le xs in
      let (spans, spanned) = minimum_ramp-Spans xs recorded.leading_ramp in
      let same_iff = ==_iff recorded.leading_ramp recorded.trailing_ramp in
      let source_iff = source_eq_iff recorded.calibration_source provisional in
      let fields = check_fields-ok_iff recorded in
      let ramps = check_ramps-ok_iff minimum maximum recorded in
      let b₃ = refuse_if (not (recorded.leading_ramp == recorded.trailing_ramp)) _ in
      let b₂ = for_each (check_ramp s minimum maximum) (ramp_fields s recorded) >> b₃ in
      let b₁ = refuse_if (not (source_eq recorded.calibration_source provisional)) _ >> b₂ in
      let first = then-ok_iff (for_each (check_field s) (bounded_fields s recorded)) b₁ tt in
      let second =
        refuse_if-then_iff (not (source_eq recorded.calibration_source provisional)) _ b₂ tt in
      let third =
        then-ok_iff (for_each (check_ramp s minimum maximum) (ramp_fields s recorded)) b₃ tt in
      let last = refuse_if-ok_iff (not (recorded.leading_ramp == recorded.trailing_ramp)) _ in
      (
        (λ h.
            let (a, h₁) = first.0 h in
            let (b, h₂) = second.0 h₁ in
            let (c, d) = third.0 h₂ in
            let (_, _, p, q) = fields.0 a in
            let ((low, high), _) = ramps.0 c in
            record {
              leading_padding_le = p;
              trailing_padding_le = q;
              applied = source_iff.0 (ground (arith, b));
              same_ramp = same_iff.0 (ground (arith, last.0 d));
              ramp_le = omega arith;
              spans = spans (omega arith);
            }),
        (λ w.
            let long = w.ramp_le in
            let low = spanned w.spans in
            let same = w.same_ramp in
            let p = w.leading_padding_le in
            let q = w.trailing_padding_le in
            first.1 (
              fields.1 (omega arith, omega arith, p, q),
              second.1 (
                ground (arith, source_iff.1 w.applied),
                third.1 (
                  ramps.1 ((omega arith, omega arith), (omega arith, omega arith)),
                  last.1 (ground (arith, same_iff.1 same)),
                ),
              ),
            )),
      )
