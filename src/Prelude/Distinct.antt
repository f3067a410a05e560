-- ===== src/Prelude/Distinct.antt =====
-- Lists without repetition, and lists none of whose names were seen before.
use mathlib.Core.Path.{sym}
use mathlib.Core.Logic.{inl, inr, ◌↔◌}
use mathlib.Core.List.{List, [], ◌∷◌, map}
use technical_tts.Prelude.Lists.{All, In}

-- No two entries are the same.
abbrev pub Distinct : {A : Type 0} → List A → Type 0
Distinct [] = Unit
Distinct (x ∷ xs) = (¬ In x xs) × Distinct xs

module _ {A B : Type 0} (name : A → B) where
  abbrev pub Unseen : List B → List A → Type 0
  Unseen seen = All (λ x. ¬ In (name x) seen)

  -- A name more that was seen is one that none of the entries has.
  pub Unseen-cons_iff :
      (b : B) (seen : List B) (xs : List A)
      → Unseen (b ∷ seen) xs ↔ ((¬ In b (map name xs)) × Unseen seen xs)
  Unseen-cons_iff b seen [] = (λ _. (λ i. i, tt), λ _. tt)
  Unseen-cons_iff b seen (x ∷ xs) =
      let (f, g) = Unseen-cons_iff b seen xs in
      (
        λ h. (
          λ i. elim i [ inl e ↦ h.0 (inl (sym e)) | inr j ↦ (f h.1).0 j ],
          (λ i. h.0 (inr i), (f h.1).1),
        ),
        λ h. (
          λ i. elim i [ inl e ↦ h.0 (inl (sym e)) | inr j ↦ h.1.0 j ],
          g (λ i. h.0 (inr i), h.1.1),
        ),
      )
