-- ===== src/Selection/Retakes.antt =====
-- What a request for alternate takes changes.
use technical_tts.Prelude.{
  ℕ, ◌≡◌, refl, ap, subst, ◌∙◌, not, Option, none, some, [], ◌∷◌, any, In, arith, ◌==◌, Bool-cases,
  Option-cases, inl, inr, ok, ◌>>◌, refuse_if, then-ok_iff, Result-cases,
}
use technical_tts.Prelude.Distinct.{Distinct}
use technical_tts.Text.{Text, text_eq, text_eq_iff}
use technical_tts.Map.{Map, get, insert, keys}
use technical_tts.Map.Laws.{get-insert, In-get}
use technical_tts.Plan.{RenderPlan}
use technical_tts.Selection.{
  unplanned_retake, retake_uses_selected_take, ResolvedTake, TakeSelection, resolved_take,
  retake_each, with_retakes,
}

-- A requested take, which no audio is approved for, in place of what was resolved before.
abbrev pub retaken : Option ℕ → Option ResolvedTake → Option ResolvedTake
retaken none before = before
retaken (some take) before = some (record { take = take; approved_audio = none })

get-absent : {V : Type 0} (k : Text) (m : Map V) → (¬ In k (keys m)) → get k m ≡ none
get-absent k m h = elim (Option-cases (get k m)) [
  | inl e ↦ e
  | inr (v, e) ↦ absurd (h (In-get k m v e))
]

retake_rest :
    (base : RenderPlan) (resolved resolved' : Map ResolvedTake) (k : Text) (take : ℕ)
    (retakes : Map ℕ)
    → retake_each base resolved ((k, take) ∷ retakes) ≡ ok resolved'
    → retake_each base (insert k (record { take = take; approved_audio = none }) resolved) retakes
      ≡ ok resolved'
unfolding retake_each
retake_rest base resolved resolved' k take retakes h =
    let rest =
      retake_each base (insert k (record { take = take; approved_audio = none }) resolved)
        retakes in
    let changed =
      refuse_if (take == (resolved_take resolved k).take) (retake_uses_selected_take k take) in
    let first =
      (then-ok_iff (refuse_if (not (any (λ g. text_eq g.id k) base.segments)) (unplanned_retake k))
          (changed >> rest) resolved').0
        h in
    ((then-ok_iff changed rest resolved').0 first.1).1

retake_each-get :
    (base : RenderPlan) (resolved resolved' : Map ResolvedTake) (retakes : Map ℕ) (id : Text)
    → Distinct (keys retakes)
    → retake_each base resolved retakes ≡ ok resolved'
    → get id resolved' ≡ retaken (get id retakes) (get id resolved)
retake_each-get base resolved resolved' [] id d h = unfold retake_each get in ground (arith, h)
retake_each-get base resolved resolved' ((k, take) ∷ retakes) id d h =
    let r : ResolvedTake = record { take = take; approved_audio = none } in
    let ih =
      retake_each-get base (insert k r resolved) resolved' retakes id d.1
        (retake_rest base resolved resolved' k take retakes h) in
    elim (Bool-cases (text_eq id k)) [
      | inl same ↦
          let absent =
            get-absent id retakes
              (λ i. d.0 (subst (λ x. In x (keys retakes)) ((text_eq_iff id k).0 same) i)) in
          let found : get id (insert k r resolved) ≡ some r =
            get-insert id k r resolved ∙ rw same refl in
          let asked : get id ((k, take) ∷ retakes) ≡ some take = (unfold get in rw same refl) in
          ih ∙ rw (absent, found, asked) refl
      | inr other ↦
          let kept : get id (insert k r resolved) ≡ get id resolved =
            get-insert id k r resolved ∙ rw other refl in
          let asked : get id ((k, take) ∷ retakes) ≡ get id retakes =
            (unfold get in rw other refl) in
          ih ∙ rw (kept, asked) refl
    ]

-- A granted request resolves each requested segment at the requested take, with no approved audio,
-- and every other segment as before; the request names no segment twice.
pub with_retakes-get :
    (base : RenderPlan) (selection selection' : TakeSelection) (retakes : Map ℕ) (id : Text)
    → Distinct (keys retakes)
    → with_retakes selection base retakes ≡ ok selection'
    → get id selection'.resolved ≡ retaken (get id retakes) (get id selection.resolved)
unfolding with_retakes
with_retakes-get base selection selection' [] id d h = unfold get in ground (arith, h)
with_retakes-get base selection selection' (first ∷ retakes) id d h =
    elim (Result-cases (retake_each base selection.resolved (first ∷ retakes))) [
      | inr (x, e) ↦ absurd (ground (arith, e))
      | inl (resolved, e) ↦
          let same : selection'.resolved ≡ resolved = ground (arith, e) in
          ap (get id) same
          ∙ retake_each-get base selection.resolved resolved (first ∷ retakes) id d e
    ]
