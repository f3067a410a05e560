-- ===== src/Map/Laws.antt =====
-- The laws of the ordered map: what `get` answers after `insert` and `extend`, and the order of the keys.
use Prim.Native.Nat.Ordering.{lt, eq, gt}
use technical_tts.Prelude.{
  ◌≡◌, refl, sym, ap, subst, ◌∙◌, ◌⊎◌, inl, inr, some, List, [], ◌∷◌, arith, In, Ordering,
  Bool-cases, if◌then◌else◌,
}
use technical_tts.Text.{
  Text, text_eq, text_eq_iff, text_cmp, text_cmp_refl, eq_of_text_cmp, lt_of_text_gt, text_lt_trans,
}
use technical_tts.Map.{Map, get, insert, keys, extend}

Ordering-cases : (o : Ordering) → (o ≡ lt) ⊎ ((o ≡ eq) ⊎ (o ≡ gt))
Ordering-cases lt = inl refl
Ordering-cases eq = inr (inl refl)
Ordering-cases gt = inr (inr refl)

module _ {V : Type 0} where
  pub get-insert :
      (j k : Text) (v : V) (m : Map V)
      → get j (insert k v m) ≡ (if text_eq j k then some v else get j m)
  unfolding get insert
  get-insert j k v [] = refl
  get-insert j k v ((i, w) ∷ m) = elim (Ordering-cases (text_cmp k i)) [
    | inl before ↦ rw (before, get)
    | inr (inl same) ↦
        rw (same, get) (ground (arith, eq_of_text_cmp k i, text_eq_iff j k, text_eq_iff j i))
    | inr (inr behind) ↦
        rw (behind, get)
          (ground (arith, get-insert j k v m, text_cmp_refl k, text_eq_iff j k, text_eq_iff j i))
  ]

  -- The keys rise strictly.
  abbrev pub Above : Text → Map V → Type 0
  Above k [] = Unit
  Above k ((j, w) ∷ m) = (text_cmp k j ≡ lt) × Above k m

  abbrev pub IsSorted : Map V → Type 0
  IsSorted [] = Unit
  IsSorted ((k, v) ∷ m) = Above k m × IsSorted m

  Above-insert :
      (i k : Text) (v : V) (m : Map V) → text_cmp i k ≡ lt → Above i m → Above i (insert k v m)
  unfolding insert
  Above-insert i k v [] h a = (h, tt)
  Above-insert i k v ((j, w) ∷ m) h a = ground (arith, Above-insert i k v m h a.1)

  Above-trans : (i k : Text) (m : Map V) → text_cmp i k ≡ lt → Above k m → Above i m
  Above-trans i k [] h a = tt
  Above-trans i k ((j, w) ∷ m) h a = (text_lt_trans i k j h a.0, Above-trans i k m h a.1)

  -- `insert` keeps the keys in order, with no key twice.
  pub insert-IsSorted : (k : Text) (v : V) (m : Map V) → IsSorted m → IsSorted (insert k v m)
  unfolding insert
  insert-IsSorted k v [] s = (tt, tt)
  insert-IsSorted k v ((j, w) ∷ m) s = ground (
    arith,
    insert-IsSorted k v m s.1,
    Above-insert j k v m,
    Above-trans k j m,
    lt_of_text_gt k j,
    eq_of_text_cmp k j,
  )

  pub extend-IsSorted : (m : Map V) (es : List (Text × V)) → IsSorted m → IsSorted (extend m es)
  unfolding extend
  extend-IsSorted m [] s = s
  extend-IsSorted m ((k, v) ∷ es) s = extend-IsSorted (insert k v m) es (insert-IsSorted k v m s)

  -- A key of the map is one that `get` finds.
  pub get-In : (k : Text) (m : Map V) → In k (keys m) → (v : V) × (get k m ≡ some v)
  unfolding get
  get-In k [] i = absurd i
  get-In k ((j, w) ∷ m) (inl e) = (w, rw ((text_eq_iff k j).1 e))
  get-In k ((j, w) ∷ m) (inr i) = elim (Bool-cases (text_eq k j)) [
    | inl same ↦ (w, rw same)
    | inr other ↦ rw other (get-In k m i)
  ]

  pub In-get : (k : Text) (m : Map V) (v : V) → get k m ≡ some v → In k (keys m)
  unfolding get
  In-get k [] v h = cc
  In-get k ((j, w) ∷ m) v h = ground (arith, text_eq_iff k j, In-get k m v)

  -- What a collected map answers was inserted, or was there before.
  pub get-extend :
      (k : Text) (v : V) (m : Map V) (es : List (Text × V))
      → get k (extend m es) ≡ some v
      → In (k, v) es ⊎ (get k m ≡ some v)
  unfolding extend
  get-extend k v m [] h = inr h
  get-extend k v m ((j, w) ∷ es) h = elim (get-extend k v (insert j w m) es h) [
    | inl i ↦ inl (inr i)
    | inr e ↦ elim (Bool-cases (text_eq k j)) [
      | inl same ↦
          let found : some w ≡ some v = sym (get-insert k j w m ∙ rw same refl) ∙ e in
          inl (inl (ground (arith, text_eq_iff k j)))
      | inr other ↦ inr (sym (get-insert k j w m ∙ rw other refl) ∙ e)
    ]
  ]

  extend-keeps :
      (k : Text) (v : V) (m : Map V) (es : List (Text × V))
      → get k m ≡ some v
      → (w : V) × (get k (extend m es) ≡ some w)
  unfolding extend
  extend-keeps k v m [] h = (v, h)
  extend-keeps k v m ((j, w) ∷ es) h = elim (Bool-cases (text_eq k j)) [
    | inl same ↦ extend-keeps k w (insert j w m) es (get-insert k j w m ∙ rw same refl)
    | inr other ↦ extend-keeps k v (insert j w m) es (get-insert k j w m ∙ rw other h)
  ]

  -- A key that was inserted is there.
  pub extend-has :
      (k : Text) (v : V) (m : Map V) (es : List (Text × V))
      → In (k, v) es
      → (w : V) × (get k (extend m es) ≡ some w)
  unfolding extend
  extend-has k v m [] i = absurd i
  extend-has k v m ((j, w) ∷ es) (inl e) =
      let same = (text_eq_iff k j).1 (ap (λ p. p.0) e) in
      extend-keeps k w (insert j w m) es (get-insert k j w m ∙ rw same refl)
  extend-has k v m ((j, w) ∷ es) (inr i) = extend-has k v (insert j w m) es i

  -- What `get` answers is an entry.
  pub get-pair : (k : Text) (v : V) (m : Map V) → get k m ≡ some v → In (k, v) m
  unfolding get
  get-pair k v [] h = absurd (ground (arith, h))
  get-pair k v ((j, w) ∷ m) h = elim (Bool-cases (text_eq k j)) [
    | inl same ↦ inl (ground (arith, h, text_eq_iff k j))
    | inr other ↦ inr (get-pair k v m (sym (rw other refl) ∙ h))
  ]

  In-first : (p q : Text × V) (m : Map V) → In p (q ∷ m) → (p ≡ q) ⊎ In p m
  In-first p q m i = i

  In-insert :
      (p : Text × V) (k : Text) (v : V) (m : Map V) → In p (insert k v m) → (p ≡ (k, v)) ⊎ In p m
  unfolding insert
  In-insert p k v [] i = elim i [ inl e ↦ inl e | inr j ↦ absurd j ]
  In-insert p k v ((j, w) ∷ m) i = elim (Ordering-cases (text_cmp k j)) [
    | inl before ↦
        let shape : insert k v ((j, w) ∷ m) ≡ (k, v) ∷ (j, w) ∷ m = rw (before, insert) refl in
        In-first p (k, v) ((j, w) ∷ m) (subst (In p) shape i)
    | inr (inl same) ↦
        let shape : insert k v ((j, w) ∷ m) ≡ (k, v) ∷ m = rw (same, insert) refl in
        elim (In-first p (k, v) m (subst (In p) shape i)) [ inl e ↦ inl e | inr l ↦ inr (inr l) ]
    | inr (inr behind) ↦
        let shape : insert k v ((j, w) ∷ m) ≡ (j, w) ∷ insert k v m = rw (behind, insert) refl in
        elim (In-first p (j, w) (insert k v m) (subst (In p) shape i)) [
          | inl e ↦ inr (inl e)
          | inr l ↦ elim (In-insert p k v m l) [ inl e ↦ inl e | inr n ↦ inr (inr n) ]
        ]
  ]

  -- An entry of a collected map was inserted, or was there before.
  pub In-extend :
      (p : Text × V) (m : Map V) (es : List (Text × V)) → In p (extend m es) → In p es ⊎ In p m
  unfolding extend
  In-extend p m [] i = inr i
  In-extend p m ((k, v) ∷ es) i = elim (In-extend p (insert k v m) es i) [
    | inl j ↦ inl (inr j)
    | inr j ↦ elim (In-insert p k v m j) [ inl e ↦ inl (inl e) | inr l ↦ inr l ]
  ]
