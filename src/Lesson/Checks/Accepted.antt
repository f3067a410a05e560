-- ===== src/Lesson/Checks/Accepted.antt =====
-- Which lessons are accepted.
use technical_tts.Prelude.{
  ℕ, ◌≡◌, ◌≤◌, ◌<◌, ◌↔◌, ◌⊎◌, refl, sym, ap, subst, ◌∙◌, true, false, some, List, [], ◌∷◌, length,
  map, any, All, In, arith, ltb, Bool-cases, Option-cases, inl, inr, ok, ◌>>◌, refuse_if,
  then-ok_iff, Result-cases,
}
use technical_tts.Prelude.Distinct.{Distinct, Unseen, Unseen-cons_iff}
use technical_tts.Text.{Text, text_eq, text_eq_iff, is_blank}
use technical_tts.Map.{Map, get}
use technical_tts.Lesson.{
  LessonError, approved, empty_source_ref, source_ref_too_long, authored_text_too_large,
  SpeakerDeclaration, LessonSegment, validate_segment_id,
}
use technical_tts.Lesson.Identifiers.{IsPortable, validate_segment_id_iff}
use technical_tts.Lesson.Checks.{
  max_segment_text_bytes, max_source_refs_per_segment, max_source_ref_bytes,
  max_authored_text_bytes, max_pause_after_ms, min_recall_response_ms, max_recall_response_ms,
  refuse_longer, check_texts, check_identity, check_spoken, check_display, check_sources,
  check_review, is_recall_prompt, check_pause, segment_bytes, check_segment, check_segments,
}

-- A text that says something, of at most so many bytes.
abbrev pub IsText : ℕ → Text → Type 0
IsText max t = (is_blank t ≡ false) × (length t ≤ max)

-- What an accepted segment is, under the lesson's speakers.
pub record IsSegment (speakers : Map SpeakerDeclaration) (s : LessonSegment) : Type 0 where
  pub named : IsPortable s.id
  pub spoken : IsText max_segment_text_bytes s.spoken_text
  pub displayed : IsText max_segment_text_bytes s.display_text
  pub sourced : (0 < length s.source_refs) ⊎ (s.editorial ≡ true)
  pub few_sources : length s.source_refs ≤ max_source_refs_per_segment
  pub sources : All (IsText max_source_ref_bytes) s.source_refs
  pub reviewed : s.review_status ≡ approved
  pub speaker : is_blank s.speaker ≡ false
  pub declared : (d : SpeakerDeclaration) × (get s.speaker speakers ≡ some d)
  pub pause : s.pause_after_ms ≤ max_pause_after_ms
  pub recall :
      (is_recall_prompt s.role ≡ false)
      ⊎ ((min_recall_response_ms ≤ s.pause_after_ms) × (s.pause_after_ms ≤ max_recall_response_ms))

pub check_texts_iff :
    (texts : List Text) (blank : LessonError) (max : ℕ) (longer : ℕ → LessonError)
    → (check_texts texts blank max longer ≡ ok tt) ↔ All (IsText max) texts
unfolding check_texts
check_texts_iff [] blank max longer = (λ _. tt, λ _. refl)
check_texts_iff (t ∷ ts) blank max longer = ground (
  arith,
  check_texts_iff ts blank max longer,
  Bool-cases (any is_blank ts),
  Result-cases (refuse_longer max longer ts),
)

seen_iff : (ids : List Text) (id : Text) → (any (text_eq id) ids ≡ true) ↔ In id ids
seen_iff [] id = ground arith
seen_iff (x ∷ ids) id = ground (arith, text_eq_iff id x, seen_iff ids id)

check_identity_iff :
    (ids : List Text) (s : LessonSegment)
    → (check_identity ids s ≡ ok tt) ↔ (IsPortable s.id × (¬ In s.id ids))
unfolding check_identity
check_identity_iff ids s = ground (
  arith,
  validate_segment_id_iff s.id,
  seen_iff ids s.id,
  Result-cases (validate_segment_id s.id),
  Bool-cases (any (text_eq s.id) ids),
)

check_spoken_iff :
    (s : LessonSegment) → (check_spoken s ≡ ok tt) ↔ IsText max_segment_text_bytes s.spoken_text
unfolding check_spoken
check_spoken_iff s = ground arith

check_display_iff :
    (s : LessonSegment) → (check_display s ≡ ok tt) ↔ IsText max_segment_text_bytes s.display_text
unfolding check_display
check_display_iff s = ground arith

check_sources_iff :
    (s : LessonSegment)
    → (check_sources s ≡ ok tt) ↔ (
        ((0 < length s.source_refs) ⊎ (s.editorial ≡ true))
        × (length s.source_refs ≤ max_source_refs_per_segment)
        × All (IsText max_source_ref_bytes) s.source_refs)
unfolding check_sources
check_sources_iff s =
    let longer : ℕ → LessonError = λ bytes. source_ref_too_long s.id bytes max_source_ref_bytes in
    let texts = check_texts s.source_refs (empty_source_ref s.id) max_source_ref_bytes longer in
    ground (
      arith,
      check_texts_iff s.source_refs (empty_source_ref s.id) max_source_ref_bytes longer,
      Result-cases texts,
      Bool-cases s.editorial,
    )

check_review_iff :
    (speakers : Map SpeakerDeclaration) (s : LessonSegment)
    → (check_review speakers s ≡ ok tt) ↔ (
        (s.review_status ≡ approved)
        × (is_blank s.speaker ≡ false)
        × ((d : SpeakerDeclaration) × (get s.speaker speakers ≡ some d)))
unfolding check_review
check_review_iff speakers s = ground (arith, Option-cases (get s.speaker speakers))

check_pause_iff :
    (s : LessonSegment)
    → (check_pause s ≡ ok tt) ↔ (
        (s.pause_after_ms ≤ max_pause_after_ms)
        × ((is_recall_prompt s.role ≡ false)
            ⊎ ((min_recall_response_ms ≤ s.pause_after_ms)
                × (s.pause_after_ms ≤ max_recall_response_ms))))
unfolding check_pause
check_pause_iff s = ground (arith, Bool-cases (is_recall_prompt s.role))

-- The last check of a segment, on the bytes of all texts so far.
total_iff :
    (total m : ℕ)
    → ((refuse_if
            (ltb max_authored_text_bytes total)
            (authored_text_too_large max_authored_text_bytes)
          >> ok total)
        ≡ ok m)
      ↔ ((m ≡ total) × (total ≤ max_authored_text_bytes))
total_iff total m = ground arith

-- A segment passes its checks exactly when it is as described, its identifier is new, and the
-- authored texts up to it have at most 16 MiB; the total of their bytes goes on to the next one.
pub check_segment_iff :
    (speakers : Map SpeakerDeclaration) (ids : List Text) (n m : ℕ) (s : LessonSegment)
    → (check_segment speakers ids n s ≡ ok m) ↔ (
        IsSegment speakers s
        × (¬ In s.id ids)
        × (m ≡ segment_bytes n s)
        × (segment_bytes n s ≤ max_authored_text_bytes))
unfolding check_segment
check_segment_iff speakers ids n m s =
    let total = segment_bytes n s in
    let k6 =
      refuse_if (ltb max_authored_text_bytes total)
        (authored_text_too_large max_authored_text_bytes)
      >> ok total in
    let k5 = check_pause s >> k6 in
    let k4 = check_review speakers s >> k5 in
    let k3 = check_sources s >> k4 in
    let k2 = check_display s >> k3 in
    let k1 = check_spoken s >> k2 in
    let t1 = then-ok_iff (check_identity ids s) k1 m in
    let t2 = then-ok_iff (check_spoken s) k2 m in
    let t3 = then-ok_iff (check_display s) k3 m in
    let t4 = then-ok_iff (check_sources s) k4 m in
    let t5 = then-ok_iff (check_review speakers s) k5 m in
    let t6 = then-ok_iff (check_pause s) k6 m in
    (
      λ h.
          let h1 = t1.0 h in
          let h2 = t2.0 h1.1 in
          let h3 = t3.0 h2.1 in
          let h4 = t4.0 h3.1 in
          let h5 = t5.0 h4.1 in
          let h6 = t6.0 h5.1 in
          let identity = (check_identity_iff ids s).0 h1.0 in
          let sources = (check_sources_iff s).0 h4.0 in
          let review = (check_review_iff speakers s).0 h5.0 in
          let pauses = (check_pause_iff s).0 h6.0 in
          let last = (total_iff total m).0 h6.1 in
          (
            record {
              named = identity.0;
              spoken = (check_spoken_iff s).0 h2.0;
              displayed = (check_display_iff s).0 h3.0;
              sourced = sources.0;
              few_sources = sources.1;
              sources = sources.2;
              reviewed = review.0;
              speaker = review.1;
              declared = review.2;
              pause = pauses.0;
              recall = pauses.1;
            },
            identity.1,
            last.0,
            last.1,
          ),
      λ (g, new_id, same, few). t1.1 (
        (check_identity_iff ids s).1 (g.named, new_id),
        t2.1 (
          (check_spoken_iff s).1 g.spoken,
          t3.1 (
            (check_display_iff s).1 g.displayed,
            t4.1 (
              (check_sources_iff s).1 (g.sourced, g.few_sources, g.sources),
              t5.1 (
                (check_review_iff speakers s).1 (g.reviewed, g.speaker, g.declared),
                t6.1 ((check_pause_iff s).1 (g.pause, g.recall), (total_iff total m).1 (same, few)),
              ),
            ),
          ),
        ),
      ),
    )

-- Every running total of the authored bytes is within the bound.
abbrev pub Within : ℕ → List LessonSegment → Type 0
Within n [] = Unit
Within n (s ∷ ss) = (segment_bytes n s ≤ max_authored_text_bytes) × Within (segment_bytes n s) ss

abbrev pub ids_of : List LessonSegment → List Text
ids_of = map (λ s. s.id)

segments_step :
    (speakers : Map SpeakerDeclaration) (ids : List Text) (n : ℕ) (s : LessonSegment)
    (ss : List LessonSegment)
    → check_segments speakers ids n (s ∷ ss) ≡ ok tt
    → (check_segment speakers ids n s ≡ ok (segment_bytes n s))
      × (check_segments speakers (s.id ∷ ids) (segment_bytes n s) ss ≡ ok tt)
unfolding check_segments
segments_step speakers ids n s ss h = elim (Result-cases (check_segment speakers ids n s)) [
  | inl (m, e) ↦
      let same = ((check_segment_iff speakers ids n m s).0 e).2 in
      (
        e ∙ ap ok same,
        subst (λ k. check_segments speakers (s.id ∷ ids) k ss ≡ ok tt) same (sym (rw e refl) ∙ h),
      )
  | inr (x, e) ↦ absurd (ground (arith, e))
]

segments_again :
    (speakers : Map SpeakerDeclaration) (ids : List Text) (n : ℕ) (s : LessonSegment)
    (ss : List LessonSegment)
    → check_segment speakers ids n s ≡ ok (segment_bytes n s)
    → check_segments speakers (s.id ∷ ids) (segment_bytes n s) ss ≡ ok tt
    → check_segments speakers ids n (s ∷ ss) ≡ ok tt
unfolding check_segments
segments_again speakers ids n s ss e h = rw e h

pub check_segments_iff :
    (speakers : Map SpeakerDeclaration) (ids : List Text) (n : ℕ) (ss : List LessonSegment)
    → (check_segments speakers ids n ss ≡ ok tt) ↔ (
        All (IsSegment speakers) ss
        × Distinct (ids_of ss)
        × Unseen (λ (s : LessonSegment). s.id) ids ss
        × Within n ss)
check_segments_iff speakers ids n [] = (λ _. (tt, tt, tt, tt), λ _. unfold check_segments in refl)
check_segments_iff speakers ids n (s ∷ ss) =
    let total = segment_bytes n s in
    let step = check_segment_iff speakers ids n total s in
    let rest = check_segments_iff speakers (s.id ∷ ids) total ss in
    let unseen = Unseen-cons_iff (λ (r : LessonSegment). r.id) s.id ids ss in
    (
      λ h.
          let (passed, others) = segments_step speakers ids n s ss h in
          let a = step.0 passed in
          let b = rest.0 others in
          let u = unseen.0 b.2 in ((a.0, b.0), (u.0, b.1), (a.1, u.1), (a.3, b.3)),
      λ (all_segments, distinct, fresh, within).
          segments_again speakers ids n s ss (step.1 (all_segments.0, fresh.0, refl, within.0))
            (rest.1 (all_segments.1, distinct.1, unseen.1 (distinct.0, fresh.1), within.1)),
    )
