-- ===== src/Selection/Derived.antt =====
-- What a derived plan holds.
use technical_tts.Prelude.{
  ◌≡◌, ◌↔◌, refl, sym, ap, subst, ◌∙◌, some, List, [], ◌∷◌, arith, Bool-cases, Option-cases, inl,
  inr, Result, ok, map_result, for_each, Result-cases, ok_injective,
}
use technical_tts.Text.{Text, text_eq, text_eq_iff}
use technical_tts.Map.{get}
use technical_tts.Digest.{Digest}
use technical_tts.Lesson.{style_name, SpeakerDeclaration, LessonSegment, ValidatedLesson}
use technical_tts.Plan.{PlannedSegment, RenderPlan, base_take}
use technical_tts.Identity.{SynthesisContext, voice_conditioning_for, segment_digest, key_for}
use technical_tts.Identity.Inputs.{segment_digest-SameInputs}
use technical_tts.Selection.{
  PlanError, TakeSelection, resolved_take, check_recorded, verify_recorded_selection,
  synthesis_digest, planned, planned_plan, plan_segment, plan_digest, for_lesson_with_takes,
}

module _ (hash : Text → Digest) (lesson : ValidatedLesson) (context : SynthesisContext)
    (selection : TakeSelection) where
  -- The planned segment is the segment of the lesson, at the take that is selected for it, under the
  -- keys of that take and of take zero.
  pub record IsPlanned (s : LessonSegment) (g : PlannedSegment) : Type 0 where
    pub same_id : g.id ≡ s.id
    pub same_speaker : g.speaker ≡ s.speaker
    pub same_display : g.display_text ≡ s.display_text
    pub same_spoken : g.spoken_text ≡ s.spoken_text
    pub same_style : g.style ≡ s.style
    pub same_pause : g.pause_after_ms ≡ s.pause_after_ms
    pub declared :
        (d : SpeakerDeclaration) × (get s.speaker lesson.authored.speakers ≡ some d)
        × (g.voice_profile ≡ d.voice_profile)
    pub conditioned : (c : Digest) × (voice_conditioning_for context s.speaker ≡ some c)
    pub selected : g.take ≡ (resolved_take selection.resolved s.id).take
    pub approved : g.audio_blake3 ≡ (resolved_take selection.resolved s.id).approved_audio
    pub key : key_for hash context g ≡ g.cache_key
    pub base_key : synthesis_digest hash context s base_take ≡ g.synthesis_base_key

  -- One for one and in the same order.
  abbrev pub ArePlanned : List LessonSegment → List PlannedSegment → Type 0
  ArePlanned [] [] = Unit
  ArePlanned [] (g ∷ gs) = ⊥
  ArePlanned (s ∷ ss) [] = ⊥
  ArePlanned (s ∷ ss) (g ∷ gs) = IsPlanned s g × ArePlanned ss gs

  plan_segment-IsPlanned :
      (s : LessonSegment) (g : PlannedSegment)
      → plan_segment hash lesson context selection s ≡ ok g
      → IsPlanned s g
  unfolding plan_segment synthesis_digest key_for
  plan_segment-IsPlanned s g h = elim (Option-cases (voice_conditioning_for context s.speaker)) [
    | inl e ↦ absurd (ground (arith, e))
    | inr (c, e) ↦ elim (Option-cases (get s.speaker lesson.authored.speakers)) [
      | inl f ↦ absurd (ground (arith, e, f))
      | inr (d, f) ↦
          let made : ◌≡◌ {A = Result PlannedSegment PlanError}
              (ok (planned hash context selection s d)) (ok g) =
            sym (rw (e, f) refl) ∙ h in
          let same = ok_injective made in
          subst (IsPlanned s) same (record {
            same_id = refl;
            same_speaker = refl;
            same_display = refl;
            same_spoken = refl;
            same_style = refl;
            same_pause = refl;
            declared = (d, f, refl);
            conditioned = (c, e);
            selected = refl;
            approved = refl;
            key = refl;
            base_key = refl;
          })
    ]
  ]

  plan_segments-ArePlanned :
      (ss : List LessonSegment) (gs : List PlannedSegment)
      → map_result (plan_segment hash lesson context selection) ss ≡ ok gs
      → ArePlanned ss gs
  plan_segments-ArePlanned [] [] h = tt
  plan_segments-ArePlanned [] (g ∷ gs) h = absurd (ground (arith, h))
  plan_segments-ArePlanned (s ∷ ss) gs h =
      elim (Result-cases (plan_segment hash lesson context selection s)) [
        | inr (x, e) ↦ absurd (ground (arith, e))
        | inl (g, e) ↦
            elim (Result-cases (map_result (plan_segment hash lesson context selection) ss)) [
              | inr (x, f) ↦ absurd (ground (arith, e, f))
              | inl (rest, f) ↦
                  let made : ◌≡◌ {A = Result (List PlannedSegment) PlanError} (ok (g ∷ rest))
                      (ok gs) =
                    sym (rw (e, f) refl) ∙ h in
                  let same = ok_injective made in
                  subst (ArePlanned (s ∷ ss)) same
                    (plan_segment-IsPlanned s g e, plan_segments-ArePlanned ss rest f)
            ]
      ]

  -- A derived plan is for the lesson, with its segments one for one and in their order: each is the
  -- lesson's segment under a declared and conditioned speaker, at the take selected for it or take
  -- zero, with the audio approved for that take, under the key that an executor derives for it, and
  -- beside the key of take zero; the plan's hash is that of its segments.
  pub for_lesson_with_takes-ArePlanned :
      (plan : RenderPlan)
      → for_lesson_with_takes hash lesson context selection ≡ ok plan
      → ArePlanned lesson.authored.segments plan.segments
        × (plan.lesson_id ≡ lesson.authored.lesson_id)
        × (plan.take_selection_source ≡ selection.source)
        × (plan.plan_hash ≡ plan_digest hash plan.segments)
  unfolding for_lesson_with_takes
  for_lesson_with_takes-ArePlanned plan h =
      elim (Result-cases
        (map_result (plan_segment hash lesson context selection) lesson.authored.segments)) [
          | inr (x, e) ↦ absurd (ground (arith, e))
          | inl (gs, e) ↦
              let made : ◌≡◌ {A = Result RenderPlan PlanError}
                  (ok (planned_plan hash lesson selection gs)) (ok plan) =
                sym (rw e refl) ∙ h in
              let same = ok_injective made in
              subst
                (λ (p : RenderPlan).
                  ArePlanned lesson.authored.segments p.segments
                  × (p.lesson_id ≡ lesson.authored.lesson_id)
                  × (p.take_selection_source ≡ selection.source)
                  × (p.plan_hash ≡ plan_digest hash p.segments))
                same (plan_segments-ArePlanned lesson.authored.segments gs e, refl, refl, refl)
        ]

  module _ (collision_free : (s t : Text) → hash s ≡ hash t → s ≡ t) where
    keys_iff :
        (s : LessonSegment) (g : PlannedSegment)
        → IsPlanned s g
        → (g.take ≡ base_take) ↔ (g.synthesis_base_key ≡ g.cache_key)
    unfolding key_for synthesis_digest
    keys_iff s g p = (
      λ zero_take.
          sym p.base_key
          ∙ ap (λ t. segment_digest hash context t s.spoken_text (style_name s.style) base_take)
              (sym p.same_speaker)
          ∙ ap (λ t. segment_digest hash context g.speaker t (style_name s.style) base_take)
              (sym p.same_spoken)
          ∙ ap (λ t. segment_digest hash context g.speaker g.spoken_text (style_name t) base_take)
              (sym p.same_style)
          ∙ ap (λ t. segment_digest hash context g.speaker g.spoken_text (style_name g.style) t)
              (sym zero_take)
          ∙ p.key,
      λ same.
          sym
            (segment_digest-SameInputs hash collision_free context context s.speaker g.speaker
              s.spoken_text g.spoken_text (style_name s.style) (style_name g.style) base_take g.take
              (p.base_key ∙ same ∙ sym p.key)).takes,
    )

    IsPlanned-check_recorded :
        (s : LessonSegment) (g : PlannedSegment) → IsPlanned s g → check_recorded g ≡ ok tt
    unfolding check_recorded
    IsPlanned-check_recorded s g p = ground (
      arith,
      keys_iff s g p,
      text_eq_iff g.synthesis_base_key g.cache_key,
      Bool-cases (text_eq g.synthesis_base_key g.cache_key),
    )

    ArePlanned-checks :
        (ss : List LessonSegment) (gs : List PlannedSegment)
        → ArePlanned ss gs
        → for_each check_recorded gs ≡ ok tt
    ArePlanned-checks [] [] p = refl
    ArePlanned-checks [] (g ∷ gs) p = absurd p
    ArePlanned-checks (s ∷ ss) [] p = absurd p
    ArePlanned-checks (s ∷ ss) (g ∷ gs) p =
        rw (IsPlanned-check_recorded s g p.0) (ArePlanned-checks ss gs p.1)

    -- With a hash that no two byte strings share, every derived plan passes the check that a
    -- retained plan has to pass: take zero is at its base key, and no retake is.
    pub for_lesson_with_takes-verifies :
        (plan : RenderPlan)
        → for_lesson_with_takes hash lesson context selection ≡ ok plan
        → verify_recorded_selection plan ≡ ok tt
    unfolding verify_recorded_selection
    for_lesson_with_takes-verifies plan h =
        ArePlanned-checks lesson.authored.segments plan.segments
          (for_lesson_with_takes-ArePlanned plan h).0
