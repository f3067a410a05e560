-- ===== src/Takes/Reconciled.antt =====
-- Which selections are applied to a plan, and which plans they approve.
use technical_tts.Prelude.{
  ◌≡◌, ◌↔◌, refl, sym, ap, subst, ◌∙◌, some, List, [], ◌∷◌, map, All, In, arith, Option-cases, inl,
  inr, Result, ok, ◌>>◌, for_each, for_each-ok_iff, then-ok_iff, Result-cases,
}
use technical_tts.Text.{Text, text_eq_iff}
use technical_tts.Map.{get, keys}
use technical_tts.Plan.{PlannedSegment, RenderPlan, base_take}
use technical_tts.Takes.{
  SelectedTake, ValidatedTakes, TakesError, AppliedSelection, check_base_takes, check_base_key,
  check_planned, check_selected_key, selected_by_segment, reconcile_with_plan, verify_selected_keys,
  unplanned_selection, selected_plan_mismatch,
}
use technical_tts.Takes.Accepted.{contains_iff}

abbrev pub planned_ids : List PlannedSegment → List Text
planned_ids = map (λ g. g.id)

-- The selection for the segment was recorded against its base key.
abbrev pub IsCurrent : AppliedSelection → PlannedSegment → Type 0
IsCurrent selected g =
    (s : SelectedTake) × (get g.id selected ≡ some s) × (s.synthesis_base_key ≡ g.cache_key)

-- The segment is at the selected key.
abbrev pub IsApproved : AppliedSelection → PlannedSegment → Type 0
IsApproved selected g =
    (s : SelectedTake) × (get g.id selected ≡ some s) × (s.selected_cache_key ≡ g.cache_key)

check_base_takes_iff :
    (gs : List PlannedSegment) (ids : List Text)
    → (check_base_takes gs ≡ ok ids) ↔ ((ids ≡ planned_ids gs) × All (λ g. g.take ≡ base_take) gs)
unfolding check_base_takes
check_base_takes_iff [] ids = ground arith
check_base_takes_iff (g ∷ gs) ids = elim (Result-cases (check_base_takes gs)) [
  | inl (rest, e) ↦ ground (arith, e, check_base_takes_iff gs rest)
  | inr (x, e) ↦ ground (arith, e, check_base_takes_iff gs (planned_ids gs))
]

check_base_key_iff :
    (selected : AppliedSelection) (g : PlannedSegment)
    → (check_base_key selected g ≡ ok tt) ↔ IsCurrent selected g
unfolding check_base_key
check_base_key_iff selected g = elim (Option-cases (get g.id selected)) [
  | inl e ↦ ground (arith, e)
  | inr (s, e) ↦ ground (arith, e, text_eq_iff s.synthesis_base_key g.cache_key)
]

check_selected_key_iff :
    (selected : AppliedSelection) (g : PlannedSegment)
    → (check_selected_key selected g ≡ ok tt) ↔ IsApproved selected g
unfolding check_selected_key
check_selected_key_iff selected g = elim (Option-cases (get g.id selected)) [
  | inl e ↦ ground (arith, e)
  | inr (s, e) ↦ ground (arith, e, text_eq_iff s.selected_cache_key g.cache_key)
]

check_planned_iff :
    (planned ids : List Text) (refusal : Text → TakesError)
    → (check_planned planned ids refusal ≡ ok tt) ↔ All (λ id. In id planned) ids
unfolding check_planned
check_planned_iff planned [] refusal = (λ _. tt, λ _. refl)
check_planned_iff planned (id ∷ ids) refusal =
    ground (arith, contains_iff planned id, check_planned_iff planned ids refusal)

-- A check of each segment passes exactly when each segment is as it should be.
All-iff :
    (P Q : PlannedSegment → Type 0) (gs : List PlannedSegment)
    → ((g : PlannedSegment) → P g ↔ Q g)
    → All P gs ↔ All Q gs
All-iff P Q [] f = (λ _. tt, λ _. tt)
All-iff P Q (g ∷ gs) f =
    let (a, b) = All-iff P Q gs f in (λ h. ((f g).0 h.0, a h.1), λ h. ((f g).1 h.0, b h.1))

checks_iff :
    (check : PlannedSegment → Result (Unit {0}) TakesError) (Q : PlannedSegment → Type 0)
    (gs : List PlannedSegment)
    → ((g : PlannedSegment) → (check g ≡ ok tt) ↔ Q g)
    → (for_each check gs ≡ ok tt) ↔ All Q gs
checks_iff check Q gs f =
    let (a, b) = for_each-ok_iff check gs in
    let (c, d) = All-iff (λ g. check g ≡ ok tt) Q gs f in (λ h. c (a h), λ h. b (d h))

-- A selection approves a plan exactly when every segment of the plan is at the key that was selected
-- for it, and every selection is for a segment of the plan.
pub verify_selected_keys_iff :
    (selected : AppliedSelection) (plan : RenderPlan)
    → (verify_selected_keys selected plan ≡ ok tt) ↔ (
        All (IsApproved selected) plan.segments
        × All (λ id. In id (planned_ids plan.segments)) (keys selected))
unfolding verify_selected_keys
verify_selected_keys_iff selected plan =
    let (a, b) =
      checks_iff (check_selected_key selected) (IsApproved selected) plan.segments
        (check_selected_key_iff selected) in
    let (c, d) =
      check_planned_iff (planned_ids plan.segments) (keys selected) selected_plan_mismatch in
    let (e, f) =
      then-ok_iff (for_each (check_selected_key selected) plan.segments)
        (check_planned (planned_ids plan.segments) (keys selected) selected_plan_mismatch) tt in
    (λ h. (a (e h).0, c (e h).1), λ h. f (b h.0, d h.1))

-- What an applied selection is for the plan it was applied to.
pub record IsReconciled (t : ValidatedTakes) (base : RenderPlan) (selected : AppliedSelection)
    : Type 0 where
  pub collected : selected ≡ selected_by_segment t.authored.selections
  pub same_lesson : t.authored.lesson_id ≡ base.lesson_id
  pub base_takes : All (λ g. g.take ≡ base_take) base.segments
  pub each_current : All (IsCurrent selected) base.segments
  pub all_planned : All (λ id. In id (planned_ids base.segments)) (keys selected)

-- Behind the test of the lesson, with the identifiers of the plan.
behind_iff :
    (t : ValidatedTakes) (base : RenderPlan) (ids : List Text) (selected : AppliedSelection)
    → ((do
      for_each (check_base_key (selected_by_segment t.authored.selections)) base.segments
      check_planned ids (keys (selected_by_segment t.authored.selections)) unplanned_selection
      ok (selected_by_segment t.authored.selections))
        ≡ ok selected)
      ↔ ((selected ≡ selected_by_segment t.authored.selections)
          × All (IsCurrent (selected_by_segment t.authored.selections)) base.segments
          × All (λ id. In id ids) (keys (selected_by_segment t.authored.selections)))
behind_iff t base ids selected =
    let all = selected_by_segment t.authored.selections in
    let (a, b) =
      checks_iff (check_base_key all) (IsCurrent all) base.segments (check_base_key_iff all) in
    let (c, d) = check_planned_iff ids (keys all) unplanned_selection in
    let (e, f) =
      then-ok_iff (for_each (check_base_key all) base.segments)
        (check_planned ids (keys all) unplanned_selection >> ok all) selected in
    let (g, h) = then-ok_iff (check_planned ids (keys all) unplanned_selection) (ok all) selected in
    (
      λ x. (ground (arith, (g (e x).1).1), a (e x).0, c (g (e x).1).0),
      λ x. f (b x.1, h (d x.2, ap ok (sym x.0))),
    )

reconcile_inv :
    (t : ValidatedTakes) (base : RenderPlan) (selected : AppliedSelection)
    → reconcile_with_plan t base ≡ ok selected
    → IsReconciled t base selected
unfolding reconcile_with_plan
reconcile_inv t base selected h = elim (Result-cases (check_base_takes base.segments)) [
  | inl (ids, e) ↦
      let lesson : t.authored.lesson_id ≡ base.lesson_id =
        ground (arith, text_eq_iff t.authored.lesson_id base.lesson_id) in
      let same = (text_eq_iff t.authored.lesson_id base.lesson_id).1 lesson in
      let (planned, zero_takes) = (check_base_takes_iff base.segments ids).0 e in
      let b = (behind_iff t base ids selected).0 (sym (rw (same, e) refl) ∙ h) in
      record {
        collected = b.0;
        same_lesson = lesson;
        base_takes = zero_takes;
        each_current = subst (λ m. All (IsCurrent m) base.segments) (sym b.0) b.1;
        all_planned =
            subst (λ ps. All (λ id. In id ps) (keys selected)) planned
              (subst (λ m. All (λ id. In id ids) (keys m)) (sym b.0) b.2);
      }
  | inr (x, e) ↦ absurd (ground arith)
]

-- Accepted takes are applied to a plan exactly when they are for its lesson, every segment of the
-- plan is at take zero and has a selection that was recorded against its key, and every selection
-- is for a segment of the plan; what is applied is the selections by their segment.
pub reconcile_with_plan_iff :
    (t : ValidatedTakes) (base : RenderPlan) (selected : AppliedSelection)
    → (reconcile_with_plan t base ≡ ok selected) ↔ IsReconciled t base selected
unfolding reconcile_with_plan
reconcile_with_plan_iff t base selected = (
  reconcile_inv t base selected,
  λ r.
      let same = (text_eq_iff t.authored.lesson_id base.lesson_id).1 r.same_lesson in
      let e =
        (check_base_takes_iff base.segments (planned_ids base.segments)).1 (refl, r.base_takes) in
      let all = selected_by_segment t.authored.selections in
      rw (same, e)
        ((behind_iff t base (planned_ids base.segments) selected).1 (
          r.collected,
          subst (λ m. All (IsCurrent m) base.segments) r.collected r.each_current,
          subst (λ m. All (λ id. In id (planned_ids base.segments)) (keys m)) r.collected
              r.all_planned,
        )),
)
