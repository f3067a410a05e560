-- ===== src/Selection/Reviewed.antt =====
-- A plan at an applied selection holds the reviewed takes.
use technical_tts.Prelude.{
  ◌≡◌, refl, sym, ap, subst, ◌∙◌, some, List, [], ◌∷◌, map, All, In, arith, inl, inr, ok,
}
use technical_tts.Text.{Text}
use technical_tts.Map.{Map, get}
use technical_tts.Map.Laws.{get-extend, extend-has, get-pair, In-extend}
use technical_tts.Digest.{Digest}
use technical_tts.Lesson.{LessonSegment, ValidatedLesson}
use technical_tts.Plan.{PlannedSegment, RenderPlan}
use technical_tts.Takes.{
  SelectedTake, ValidatedTakes, AppliedSelection, selected_by_segment, reconcile_with_plan,
}
use technical_tts.Takes.Reconciled.{IsCurrent, reconcile_with_plan_iff}
use technical_tts.Takes.Covered.{entry, In-entries}
use technical_tts.Identity.{SynthesisContext}
use technical_tts.Selection.{
  ResolvedTake, taken, implicitly, explicitly, resolved_take, for_lesson, for_lesson_with_takes,
}
use technical_tts.Selection.Derived.{ArePlanned, for_lesson_with_takes-ArePlanned}

-- A selection of the document is for the segment, at its take and with its approved audio.
abbrev pub IsReviewed : List SelectedTake → PlannedSegment → Type 0
IsReviewed ss g =
    (s : SelectedTake) × In s ss
    × (s.segment_id ≡ g.id)
    × (s.selected_take ≡ g.take)
    × (g.audio_blake3 ≡ some s.audio_blake3)

abbrev resolve : Text × SelectedTake → Text × ResolvedTake
resolve p = (p.0, taken p.1)

resolved-In :
    (p : Text × SelectedTake) (m : AppliedSelection) → In p m → In (resolve p) (map resolve m)
resolved-In p [] i = absurd i
resolved-In p (q ∷ m) (inl e) = inl (ap resolve e)
resolved-In p (q ∷ m) (inr i) = inr (resolved-In p m i)

In-resolved :
    (k : Text) (r : ResolvedTake) (m : AppliedSelection)
    → In (k, r) (map resolve m)
    → (s : SelectedTake) × In (k, s) m × (r ≡ taken s)
In-resolved k r [] i = absurd i
In-resolved k r (q ∷ m) (inl e) = (q.1, inl (ap (λ x. (x, q.1)) (ap (λ p. p.0) e)), ap (λ p. p.1) e)
In-resolved k r (q ∷ m) (inr i) = let (s, j, same) = In-resolved k r m i in (s, inr j, same)

In-selected :
    (k : Text) (s : SelectedTake) (ss : List SelectedTake)
    → In (k, s) (selected_by_segment ss)
    → (s.segment_id ≡ k) × In s ss
unfolding selected_by_segment
In-selected k s ss i = elim (In-extend (k, s) [] (map entry ss) i) [
  | inl j ↦ In-entries k s ss j
  | inr j ↦ absurd j
]

resolved_take-found :
    (m : Map ResolvedTake) (k : Text) (r : ResolvedTake) → get k m ≡ some r → resolved_take m k ≡ r
resolved_take-found m k r e = rw (e, resolved_take) refl

-- The take that an explicit selection resolves for a selected segment is one of the document's.
explicit-take :
    (ss : List SelectedTake) (k : Text) (s : SelectedTake)
    → get k (selected_by_segment ss) ≡ some s
    → (s' : SelectedTake) × In s' ss
      × (s'.segment_id ≡ k)
      × (resolved_take (explicitly (selected_by_segment ss)).resolved k ≡ taken s')
unfolding explicitly
explicit-take ss k s h =
    let all = selected_by_segment ss in
    let (r, found) =
      extend-has k (taken s) [] (map resolve all) (resolved-In (k, s) all (get-pair k s all h)) in
    elim (get-extend k r [] (map resolve all) found) [
      | inr e ↦ absurd (unfold get in ground (arith, e))
      | inl i ↦
          let (s', j, same) = In-resolved k r all i in
          let (named, l) = In-selected k s' ss j in
          (s', l, named, resolved_take-found _ k r found ∙ same)
    ]

module _ (hash : Text → Digest) (lesson : ValidatedLesson) (context : SynthesisContext)
    (takes : ValidatedTakes) where
  -- Segment by segment: the base plan shows that the segment was selected, and the plan takes the
  -- selected take.
  segments-IsReviewed :
      (ss : List LessonSegment) (bs gs : List PlannedSegment)
      → ArePlanned hash lesson context implicitly ss bs
      → All (IsCurrent (selected_by_segment takes.authored.selections)) bs
      → ArePlanned hash lesson context
          (explicitly (selected_by_segment takes.authored.selections))
          ss
          gs
      → All (IsReviewed takes.authored.selections) gs
  segments-IsReviewed [] [] [] b c p = tt
  segments-IsReviewed [] [] (g ∷ gs) b c p = absurd p
  segments-IsReviewed [] (x ∷ bs) gs b c p = absurd b
  segments-IsReviewed (s ∷ ss) [] gs b c p = absurd b
  segments-IsReviewed (s ∷ ss) (x ∷ bs) [] b c p = absurd p
  segments-IsReviewed (s ∷ ss) (x ∷ bs) (g ∷ gs) b c p =
      let all = takes.authored.selections in
      let (found, current, key) = c.0 in
      let here = subst (λ k. get k (selected_by_segment all) ≡ some found) b.0.same_id current in
      let (r, i, named, same) = explicit-take all s.id found here in
      (
        (
          r,
          i,
          named ∙ sym p.0.same_id,
          sym (p.0.selected ∙ ap (λ (y : ResolvedTake). y.take) same),
          p.0.approved ∙ ap (λ (y : ResolvedTake). y.approved_audio) same,
        ),
        segments-IsReviewed ss bs gs b.1 c.1 p.1,
      )

  -- Where takes are applied to the base plan of a lesson, the plan of the same lesson at the applied
  -- selection holds for each segment a take of the document that was recorded for it, with the
  -- audio that was approved: nothing else is rendered or reused.
  pub explicit-IsReviewed :
      (base plan : RenderPlan) (selected : AppliedSelection)
      → for_lesson hash lesson context ≡ ok base
      → reconcile_with_plan takes base ≡ ok selected
      → for_lesson_with_takes hash lesson context (explicitly selected) ≡ ok plan
      → All (IsReviewed takes.authored.selections) plan.segments
  unfolding for_lesson
  explicit-IsReviewed base plan selected hb hr hp =
      let r = (reconcile_with_plan_iff takes base selected).0 hr in
      let hp' =
        subst (λ m. for_lesson_with_takes hash lesson context (explicitly m) ≡ ok plan) r.collected
          hp in
      segments-IsReviewed lesson.authored.segments base.segments plan.segments
        (for_lesson_with_takes-ArePlanned hash lesson context implicitly base hb).0
        (subst (λ m. All (IsCurrent m) base.segments) r.collected r.each_current)
        (for_lesson_with_takes-ArePlanned hash lesson context
          (explicitly (selected_by_segment takes.authored.selections)) plan hp').0
