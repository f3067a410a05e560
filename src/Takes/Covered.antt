-- ===== src/Takes/Covered.antt =====
-- An applied selection and its plan name the same segments.
use technical_tts.Prelude.{
  ◌≡◌, refl, sym, ap, subst, ◌∙◌, some, List, [], ◌∷◌, map, All, All-mono, All-In, In, arith, inl,
  inr, ok,
}
use technical_tts.Text.{Text}
use technical_tts.Map.{get, keys}
use technical_tts.Map.Laws.{get-extend, extend-has, In-get}
use technical_tts.Plan.{PlannedSegment, RenderPlan}
use technical_tts.Takes.{
  SelectedTake, ValidatedTakes, AppliedSelection, selected_by_segment, reconcile_with_plan,
}
use technical_tts.Takes.Reconciled.{planned_ids, IsCurrent, reconcile_with_plan_iff}

-- The selection by which it stands in the map.
abbrev pub entry : SelectedTake → Text × SelectedTake
entry s = (s.segment_id, s)

pub In-entries :
    (k : Text) (s : SelectedTake) (ss : List SelectedTake)
    → In (k, s) (map entry ss)
    → (s.segment_id ≡ k) × In s ss
In-entries k s [] i = absurd i
In-entries k s (r ∷ ss) (inl e) =
    let same = ap (λ p. p.1) e in (ap (λ x. x.segment_id) same ∙ sym (ap (λ p. p.0) e), inl same)
In-entries k s (r ∷ ss) (inr i) = let (named, j) = In-entries k s ss i in (named, inr j)

entries-In : (s : SelectedTake) (ss : List SelectedTake) → In s ss → In (entry s) (map entry ss)
entries-In s [] i = absurd i
entries-In s (r ∷ ss) (inl e) = inl (ap entry e)
entries-In s (r ∷ ss) (inr i) = inr (entries-In s ss i)

-- What the collected map answers is one of the selections, for that segment.
pub get-selected :
    (k : Text) (s : SelectedTake) (ss : List SelectedTake)
    → get k (selected_by_segment ss) ≡ some s
    → (s.segment_id ≡ k) × In s ss
unfolding selected_by_segment
get-selected k s ss h = elim (get-extend k s [] (map entry ss) h) [
  | inl i ↦ In-entries k s ss i
  | inr e ↦ absurd (unfold get in ground arith)
]

selected-In-keys :
    (s : SelectedTake) (ss : List SelectedTake)
    → In s ss
    → In s.segment_id (keys (selected_by_segment ss))
unfolding selected_by_segment
selected-In-keys s ss i =
    let (w, e) = extend-has s.segment_id s [] (map entry ss) (entries-In s ss i) in
    In-get s.segment_id _ w e

All-In-keys :
    (P : Text → Type 0) (all ss : List SelectedTake)
    → ((s : SelectedTake) → In s ss → In s all)
    → All P (keys (selected_by_segment all))
    → All (λ s. P s.segment_id) ss
All-In-keys P all [] within h = tt
All-In-keys P all (s ∷ ss) within h = (
  All-In P _ s.segment_id h (selected-In-keys s all (within s (inl refl))),
  All-In-keys P all ss (λ r i. within r (inr i)) h,
)

-- The document selects the segment at its key.
abbrev pub IsSelectedIn : List SelectedTake → PlannedSegment → Type 0
IsSelectedIn ss g =
    (s : SelectedTake) × In s ss × (s.segment_id ≡ g.id) × (s.synthesis_base_key ≡ g.cache_key)

-- Where takes are applied to a plan, the document has a selection for each segment of the plan,
-- recorded against the key that the plan derives for it, and no selection for another segment: a
-- build at an applied selection renders nothing that was not reviewed.
pub reconcile_with_plan-IsSelectedIn :
    (t : ValidatedTakes) (base : RenderPlan) (selected : AppliedSelection)
    → reconcile_with_plan t base ≡ ok selected
    → All (IsSelectedIn t.authored.selections) base.segments
      × All (λ s. In s.segment_id (planned_ids base.segments)) t.authored.selections
reconcile_with_plan-IsSelectedIn t base selected h =
    let r = (reconcile_with_plan_iff t base selected).0 h in
    let ss = t.authored.selections in
    (
      All-mono (IsCurrent (selected_by_segment ss)) (IsSelectedIn ss) base.segments
          (λ g (s, found, key). let (named, i) = get-selected g.id s ss found in (s, i, named, key))
          (subst (λ m. All (IsCurrent m) base.segments) r.collected r.each_current),
      All-In-keys (λ id. In id (planned_ids base.segments)) ss ss (λ s i. i)
          (subst (λ m. All (λ id. In id (planned_ids base.segments)) (keys m)) r.collected
            r.all_planned),
    )
