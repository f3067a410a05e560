-- ===== src/Lesson/Checks/Documents.antt =====
-- Which lesson documents are accepted, with their segments.
use technical_tts.Prelude.{
  ℕ, ◌≡◌, ◌≤◌, ◌<◌, ◌↔◌, ◌⊎◌, refl, sym, ap, subst, ◌∙◌, Option, none, some, List, [], ◌∷◌, length,
  All, arith, ltb, ◌==◌, Bool-cases, inl, inr, Result, ok, ◌>>=◌, ◌>>◌, refuse_if, map_err,
  for_each, then-ok_iff, Result-cases,
}
use technical_tts.Prelude.Distinct.{Distinct, Unseen}
use technical_tts.Text.{Text, text_eq_iff, is_blank}
use technical_tts.Map.{Map}
use technical_tts.Schema.{SchemaVersion, from_str, accepted_by, schema_uri}
use technical_tts.Schema.Acceptance.{IsAccepted}
use technical_tts.Language.{parse_tag}
use technical_tts.Repository.{max_lesson_segments}
use technical_tts.Lesson.{
  LessonError, empty_lesson_reference, lesson_reference_too_long, empty_learning_objective,
  learning_objective_too_long, missing_segments, too_many_segments, malformed_language,
  SpeakerDeclaration, LessonSource, LessonSegment, AuthoredLesson, ValidatedLesson,
  validate_lesson_id,
}
use technical_tts.Lesson.Identifiers.{
  IsPortable, is_portable_id_iff, IsPortable-graphic, validate_lesson_id_iff,
}
use technical_tts.Lesson.Checks.{
  lesson_schema_version, lesson_schema_stem, max_learning_objectives, max_learning_objective_bytes,
  max_lesson_references, max_lesson_reference_bytes, references_of, check_texts, check_source,
  check_provenance, check_schema, check_speaker, check_document, check_segments, lesson_bytes,
  validate_lesson,
}
use technical_tts.Lesson.Checks.Accepted.{
  IsText, check_texts_iff, IsSegment, ids_of, Within, check_segments_iff,
}

-- A list of at most so many texts, each within its own bound.
abbrev pub IsTexts : ℕ → ℕ → List Text → Type 0
IsTexts most max texts = (length texts ≤ most) × All (IsText max) texts

check_source_iff :
    (source : Option LessonSource)
    → (check_source source ≡ ok tt)
      ↔ IsTexts max_lesson_references max_lesson_reference_bytes (references_of source)
unfolding check_source
check_source_iff none = (λ _. (omega arith, tt), λ _. refl)
check_source_iff (some source) =
    let longer : ℕ → LessonError =
      λ bytes. lesson_reference_too_long bytes max_lesson_reference_bytes in
    ground (
      arith,
      check_texts_iff source.references empty_lesson_reference max_lesson_reference_bytes longer,
    )

check_provenance_iff :
    (lesson : AuthoredLesson)
    → (check_provenance lesson ≡ ok tt) ↔ (
        IsTexts max_learning_objectives max_learning_objective_bytes lesson.learning_objectives
        × IsTexts max_lesson_references max_lesson_reference_bytes (references_of lesson.source))
unfolding check_provenance
check_provenance_iff lesson =
    let longer : ℕ → LessonError =
      λ bytes. learning_objective_too_long bytes max_learning_objective_bytes in
    let texts =
      check_texts lesson.learning_objectives empty_learning_objective max_learning_objective_bytes
        longer in
    ground (
      arith,
      check_texts_iff lesson.learning_objectives empty_learning_objective
          max_learning_objective_bytes longer,
      Result-cases texts,
      check_source_iff lesson.source,
    )

check_schema_iff :
    (version : SchemaVersion) (link : Option Text)
    → (check_schema version link ≡ ok tt)
      ↔ ((link ≡ none) ⊎ (link ≡ some (schema_uri lesson_schema_stem version.major)))
unfolding check_schema
check_schema_iff version none = ground arith
check_schema_iff version (some declared) =
    ground (arith, text_eq_iff declared (schema_uri lesson_schema_stem version.major))

check_speaker_iff :
    (p : Text × SpeakerDeclaration) → (check_speaker p ≡ ok tt) ↔ IsPortable p.1.voice_profile
unfolding check_speaker
check_speaker_iff (speaker, d) = ground (
  arith,
  is_portable_id_iff d.voice_profile,
  IsPortable-graphic d.voice_profile,
  Bool-cases (is_blank d.voice_profile),
)

check_speakers_iff :
    (ps : Map SpeakerDeclaration)
    → (for_each check_speaker ps ≡ ok tt) ↔ All (λ p. IsPortable p.1.voice_profile) ps
check_speakers_iff [] = (λ _. tt, λ _. refl)
check_speakers_iff (p ∷ ps) =
    ground (arith, check_speaker_iff p, check_speakers_iff ps, Result-cases (check_speaker p))

-- What an accepted document is, with its version and its language tag.
pub record IsDocument (lesson : AuthoredLesson) (v : SchemaVersion) (tag : Text) : Type 0 where
  pub declared : from_str lesson.schema_version ≡ ok v
  pub readable : IsAccepted v lesson_schema_version
  pub linked :
      (lesson.schema ≡ none) ⊎ (lesson.schema ≡ some (schema_uri lesson_schema_stem v.major))
  pub named : IsPortable lesson.lesson_id
  pub tagged : parse_tag lesson.language ≡ ok tag
  pub objectives :
      IsTexts max_learning_objectives max_learning_objective_bytes lesson.learning_objectives
  pub references :
      IsTexts max_lesson_references max_lesson_reference_bytes (references_of lesson.source)
  pub some_segments : 0 < length lesson.segments
  pub few_segments : length lesson.segments ≤ max_lesson_segments
  pub profiles : All (λ p. IsPortable p.1.voice_profile) lesson.speakers

-- The checks behind the version.
abbrev checked : AuthoredLesson → SchemaVersion → Result (SchemaVersion × Text) LessonError
checked lesson v = do
  check_schema v lesson.schema
  validate_lesson_id lesson.lesson_id
  language ← map_err malformed_language (parse_tag lesson.language)
  check_provenance lesson
  refuse_if (length lesson.segments == 0) missing_segments
  refuse_if (ltb max_lesson_segments (length lesson.segments))
      (too_many_segments (length lesson.segments) max_lesson_segments)
  for_each check_speaker lesson.speakers
  ok (v, language)

checked_iff :
    (lesson : AuthoredLesson) (v w : SchemaVersion) (tag : Text)
    → (checked lesson v ≡ ok (w, tag)) ↔ (
        (w ≡ v)
        × ((lesson.schema ≡ none) ⊎ (lesson.schema ≡ some (schema_uri lesson_schema_stem v.major)))
        × IsPortable lesson.lesson_id
        × (parse_tag lesson.language ≡ ok tag)
        × (IsTexts max_learning_objectives max_learning_objective_bytes lesson.learning_objectives
            × IsTexts max_lesson_references max_lesson_reference_bytes
                (references_of lesson.source))
        × (0 < length lesson.segments)
        × (length lesson.segments ≤ max_lesson_segments)
        × All (λ p. IsPortable p.1.voice_profile) lesson.speakers)
checked_iff lesson v w tag =
    let a = check_schema_iff v lesson.schema in
    let b = validate_lesson_id_iff lesson.lesson_id in
    let c = check_provenance_iff lesson in
    let d = check_speakers_iff lesson.speakers in
    ground (
      arith,
      a,
      b,
      c,
      d,
      Result-cases (check_schema v lesson.schema),
      Result-cases (validate_lesson_id lesson.lesson_id),
      Result-cases (parse_tag lesson.language),
      Result-cases (check_provenance lesson),
      Result-cases (for_each check_speaker lesson.speakers),
    )

document-checked :
    (lesson : AuthoredLesson) (v : SchemaVersion)
    → from_str lesson.schema_version ≡ ok v
    → IsAccepted v lesson_schema_version
    → check_document lesson ≡ checked lesson v
unfolding check_document
document-checked lesson v e (c, f) = rw (e, f) refl

document_version :
    (lesson : AuthoredLesson) (r : SchemaVersion × Text)
    → check_document lesson ≡ ok r
    → (v : SchemaVersion) × (from_str lesson.schema_version ≡ ok v)
      × IsAccepted v lesson_schema_version
unfolding check_document
document_version lesson r h = elim (Result-cases (from_str lesson.schema_version)) [
  | inl (v, e) ↦ elim (Result-cases (accepted_by v lesson_schema_version)) [
    | inl (c, f) ↦ (v, e, (c, f))
    | inr (x, f) ↦ absurd (ground arith)
  ]
  | inr (x, e) ↦ absurd (ground arith)
]

check_document_iff :
    (lesson : AuthoredLesson) (w : SchemaVersion) (tag : Text)
    → (check_document lesson ≡ ok (w, tag)) ↔ IsDocument lesson w tag
check_document_iff lesson w tag = (
  λ h.
      let (v, e, a) = document_version lesson (w, tag) h in
      let k = (checked_iff lesson v w tag).0 (sym (document-checked lesson v e a) ∙ h) in
      record {
        declared = e ∙ ap ok (sym k.0);
        readable = subst (λ x. IsAccepted x lesson_schema_version) (sym k.0) a;
        linked =
            subst
              (λ (x : SchemaVersion).
                (lesson.schema ≡ none)
                ⊎ (lesson.schema ≡ some (schema_uri lesson_schema_stem x.major)))
              (sym k.0) k.1;
        named = k.2;
        tagged = k.3;
        objectives = k.4.0;
        references = k.4.1;
        some_segments = k.5;
        few_segments = k.6;
        profiles = k.7;
      },
  λ d.
      document-checked lesson w d.declared d.readable
      ∙ (checked_iff lesson w w tag).1 (
        refl,
        d.linked,
        d.named,
        d.tagged,
        (d.objectives, d.references),
        d.some_segments,
        d.few_segments,
        d.profiles,
      ),
)

-- What an accepted lesson is.
pub record IsLesson (lesson : AuthoredLesson) (v : ValidatedLesson) : Type 0 where
  pub kept : v.authored ≡ lesson
  pub document : IsDocument lesson v.schema_version v.language
  pub all_segments : All (IsSegment lesson.speakers) lesson.segments
  pub distinct : Distinct (ids_of lesson.segments)
  pub within : Within (lesson_bytes lesson) lesson.segments

Unseen-nil : (ss : List LessonSegment) → Unseen (λ (s : LessonSegment). s.id) [] ss
Unseen-nil [] = tt
Unseen-nil (s ∷ ss) = (λ i. i, Unseen-nil ss)

IsLesson-inv :
    (lesson : AuthoredLesson) (v : ValidatedLesson)
    → validate_lesson lesson ≡ ok v
    → IsLesson lesson v
unfolding validate_lesson
IsLesson-inv lesson v h = elim (Result-cases (check_document lesson)) [
  | inr (x, e) ↦ absurd (ground (arith, e))
  | inl ((w, tag), e) ↦
      let segments = check_segments lesson.speakers [] (lesson_bytes lesson) lesson.segments in
      let made : ValidatedLesson = record {
        authored = lesson;
        schema_version = w;
        language = tag;
      } in
      let (passed, same) = (then-ok_iff segments (ok made) v).0 (sym (rw e refl) ∙ h) in
      let eq : made ≡ v = ground (arith, same) in
      let s =
        (check_segments_iff lesson.speakers [] (lesson_bytes lesson) lesson.segments).0 passed in
      subst (IsLesson lesson) eq (record {
        kept = refl;
        document = (check_document_iff lesson w tag).0 e;
        all_segments = s.0;
        distinct = s.1;
        within = s.3;
      })
]

-- A lesson is accepted exactly when its document is as described (version, schema link, identifier,
-- language tag, bounded objectives and references, 1 to 4,096 segments, portable voice profiles),
-- every segment is as described and under a declared speaker, no identifier is used twice, and the
-- authored texts up to each segment have at most 16 MiB; it is kept as it is, with its version and
-- tag.
pub validate_lesson_iff :
    (lesson : AuthoredLesson) (v : ValidatedLesson)
    → (validate_lesson lesson ≡ ok v) ↔ IsLesson lesson v
validate_lesson_iff lesson v = (
  IsLesson-inv lesson v,
  λ l.
      let e = (check_document_iff lesson v.schema_version v.language).1 l.document in
      let s =
        (check_segments_iff lesson.speakers [] (lesson_bytes lesson) lesson.segments).1
          (l.all_segments, l.distinct, Unseen-nil lesson.segments, l.within) in
      unfold validate_lesson in
      rw (e, s)
        (ap
          (λ a.
            ok (record { authored = a; schema_version = v.schema_version; language = v.language }))
          (sym l.kept)),
)
