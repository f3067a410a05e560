-- ===== src/Lesson/Checks.antt =====
-- `AuthoredLesson::check_document`, `check_provenance`, `check_segment` and `validate`. The place that
-- a diagnostic names, the document with its segment, is left out.
pub mod Accepted
pub mod Documents
use technical_tts.Prelude.{
  ℕ, ◌+◌, ◌*◌, ◌-◌, ◌^◌, Bool, true, false, not, ◌&&◌, ◌||◌, Option, none, some, List, [], ◌∷◌,
  length, any, leb, ltb, ◌==◌, if◌then◌else◌, Result, ok, err, ◌>>=◌, ◌>>◌, refuse_if, map_err,
  for_each,
}
use technical_tts.Text.{Text, codes, is_empty, is_blank, text_eq}
use technical_tts.Map.{Map, contains_key}
use technical_tts.Schema.{SchemaVersion, new, from_str, accepted_by, schema_uri}
use technical_tts.Language.{parse_tag}
use technical_tts.Repository.{max_lesson_segments}
use technical_tts.Lesson.{
  LessonError, unsupported_schema, unexpected_schema_link, malformed_language, missing_segments,
  too_many_segments, duplicate_segment_id, missing_spoken_text, spoken_text_too_long,
  missing_display_text, display_text_too_long, missing_source_refs, too_many_source_refs,
  empty_source_ref, source_ref_too_long, unapproved_segment, missing_speaker, undeclared_speaker,
  missing_voice_profile, invalid_voice_profile, pause_out_of_range,
  recall_prompt_without_response_interval, recall_prompt_response_interval_too_long,
  too_many_learning_objectives, empty_learning_objective, learning_objective_too_long,
  too_many_lesson_references, empty_lesson_reference, lesson_reference_too_long,
  authored_text_too_large, SegmentRole, recall_prompt, ReviewStatus, approved, SpeakerDeclaration,
  LessonSource, LessonSegment, AuthoredLesson, ValidatedLesson, is_portable_id, validate_lesson_id,
  validate_segment_id,
}

abbrev pub lesson_schema_version : SchemaVersion
lesson_schema_version = new 3 1

abbrev pub lesson_schema_stem : Text
lesson_schema_stem = codes "lesson"

abbrev pub max_segment_text_bytes : ℕ
max_segment_text_bytes = 64 * 1024

abbrev pub max_source_refs_per_segment : ℕ
max_source_refs_per_segment = 256

abbrev pub max_source_ref_bytes : ℕ
max_source_ref_bytes = 4 * 1024

abbrev pub max_authored_text_bytes : ℕ
max_authored_text_bytes = 16 * 1024 * 1024

abbrev pub max_learning_objectives : ℕ
max_learning_objectives = 64

abbrev pub max_learning_objective_bytes : ℕ
max_learning_objective_bytes = 4 * 1024

abbrev pub max_lesson_references : ℕ
max_lesson_references = 256

abbrev pub max_lesson_reference_bytes : ℕ
max_lesson_reference_bytes = 4 * 1024

abbrev pub max_pause_after_ms : ℕ
max_pause_after_ms = 10000

abbrev pub min_recall_response_ms : ℕ
min_recall_response_ms = 1500

abbrev pub max_recall_response_ms : ℕ
max_recall_response_ms = 4000

-- `usize::saturating_add`.
abbrev pub saturating_add : ℕ → ℕ → ℕ
saturating_add a b = if leb (a + b) (2 ^ 64 - 1) then a + b else 2 ^ 64 - 1

-- No text of the list is blank, and none is longer than `max`; else the first such refusal.
abbrev pub refuse_longer : ℕ → (ℕ → LessonError) → List Text → Result (Unit {0}) LessonError
refuse_longer max refusal [] = ok tt
refuse_longer max refusal (t ∷ ts) =
    let rest = refuse_longer max refusal ts in
    if ltb max (length t) then err (refusal (length t)) else rest

pub check_texts : List Text → LessonError → ℕ → (ℕ → LessonError) → Result (Unit {0}) LessonError
check_texts texts blank max longer = do
  refuse_if (any is_blank texts) blank
  refuse_longer max longer texts

check_source : Option LessonSource → Result (Unit {0}) LessonError
unfolding check_texts
check_source none = ok tt
check_source (some source) = do
  refuse_if (ltb max_lesson_references (length source.references))
      (too_many_lesson_references (length source.references) max_lesson_references)
  check_texts source.references empty_lesson_reference max_lesson_reference_bytes
      (λ bytes. lesson_reference_too_long bytes max_lesson_reference_bytes)

unfoldable pub check_provenance : AuthoredLesson → Result (Unit {0}) LessonError
unfolding check_source check_texts
check_provenance lesson = do
  refuse_if (ltb max_learning_objectives (length lesson.learning_objectives))
      (too_many_learning_objectives (length lesson.learning_objectives) max_learning_objectives)
  check_texts lesson.learning_objectives empty_learning_objective max_learning_objective_bytes
      (λ bytes. learning_objective_too_long bytes max_learning_objective_bytes)
  check_source lesson.source

check_schema : SchemaVersion → Option Text → Result (Unit {0}) LessonError
check_schema version none = ok tt
check_schema version (some declared) =
    let expected = schema_uri lesson_schema_stem version.major in
    refuse_if (not (text_eq declared expected)) (unexpected_schema_link declared version expected)

check_speaker : Text × SpeakerDeclaration → Result (Unit {0}) LessonError
check_speaker (speaker, declaration) = do
  refuse_if (is_blank declaration.voice_profile) (missing_voice_profile speaker)
  refuse_if (not (is_portable_id declaration.voice_profile))
      (invalid_voice_profile speaker declaration.voice_profile)

unfoldable pub check_document : AuthoredLesson → Result (SchemaVersion × Text) LessonError
unfolding check_schema check_speaker
check_document lesson = do
  schema_version ← map_err unsupported_schema (from_str lesson.schema_version)
  compatibility ← map_err unsupported_schema (accepted_by schema_version lesson_schema_version)
  check_schema schema_version lesson.schema
  validate_lesson_id lesson.lesson_id
  language ← map_err malformed_language (parse_tag lesson.language)
  check_provenance lesson
  refuse_if (length lesson.segments == 0) missing_segments
  refuse_if (ltb max_lesson_segments (length lesson.segments))
      (too_many_segments (length lesson.segments) max_lesson_segments)
  for_each check_speaker lesson.speakers
  ok (schema_version, language)

-- The parts of `check_segment`, in its order.
check_identity : List Text → LessonSegment → Result (Unit {0}) LessonError
check_identity ids segment = do
  validate_segment_id segment.id
  refuse_if (any (text_eq segment.id) ids) (duplicate_segment_id segment.id)

check_spoken : LessonSegment → Result (Unit {0}) LessonError
check_spoken segment = do
  refuse_if (is_blank segment.spoken_text) (missing_spoken_text segment.id)
  refuse_if (ltb max_segment_text_bytes (length segment.spoken_text))
      (spoken_text_too_long segment.id (length segment.spoken_text) max_segment_text_bytes)

check_display : LessonSegment → Result (Unit {0}) LessonError
check_display segment = do
  refuse_if (is_blank segment.display_text) (missing_display_text segment.id)
  refuse_if (ltb max_segment_text_bytes (length segment.display_text))
      (display_text_too_long segment.id (length segment.display_text) max_segment_text_bytes)

check_sources : LessonSegment → Result (Unit {0}) LessonError
unfolding check_texts
check_sources segment = do
  refuse_if (length segment.source_refs == 0 && not segment.editorial)
      (missing_source_refs segment.id)
  refuse_if (ltb max_source_refs_per_segment (length segment.source_refs))
      (too_many_source_refs segment.id (length segment.source_refs) max_source_refs_per_segment)
  check_texts segment.source_refs (empty_source_ref segment.id) max_source_ref_bytes
      (λ bytes. source_ref_too_long segment.id bytes max_source_ref_bytes)

abbrev pub is_approved : ReviewStatus → Bool
is_approved approved = true
is_approved _ = false

check_review : Map SpeakerDeclaration → LessonSegment → Result (Unit {0}) LessonError
check_review speakers segment = do
  refuse_if (not (is_approved segment.review_status)) (unapproved_segment segment.id)
  refuse_if (is_blank segment.speaker) (missing_speaker segment.id)
  refuse_if (not (contains_key segment.speaker speakers))
      (undeclared_speaker segment.id segment.speaker)

abbrev pub is_recall_prompt : SegmentRole → Bool
is_recall_prompt recall_prompt = true
is_recall_prompt _ = false

check_pause : LessonSegment → Result (Unit {0}) LessonError
check_pause segment = do
  refuse_if (ltb max_pause_after_ms segment.pause_after_ms) (pause_out_of_range segment.id)
  refuse_if (is_recall_prompt segment.role && ltb segment.pause_after_ms min_recall_response_ms) (
      recall_prompt_without_response_interval segment.id segment.pause_after_ms
        min_recall_response_ms)
  refuse_if (is_recall_prompt segment.role && ltb max_recall_response_ms segment.pause_after_ms) (
      recall_prompt_response_interval_too_long segment.id segment.pause_after_ms
        max_recall_response_ms)

-- The bytes of the texts, added to a total.
abbrev pub add_bytes : ℕ → List Text → ℕ
add_bytes total [] = total
add_bytes total (t ∷ ts) = add_bytes (saturating_add total (length t)) ts

abbrev pub segment_bytes : ℕ → LessonSegment → ℕ
segment_bytes total segment = add_bytes total (
    segment.id ∷ segment.speaker ∷ segment.display_text ∷ segment.spoken_text ∷ segment.source_refs)

-- `check_segment`: the total of the authored bytes behind the segment.
unfoldable pub check_segment :
    Map SpeakerDeclaration → List Text → ℕ → LessonSegment → Result ℕ LessonError
unfolding check_identity check_spoken check_display check_sources check_review check_pause
check_segment speakers ids authored_text_bytes segment = do
  check_identity ids segment
  check_spoken segment
  check_display segment
  check_sources segment
  check_review speakers segment
  check_pause segment
  refuse_if (ltb max_authored_text_bytes (segment_bytes authored_text_bytes segment))
      (authored_text_too_large max_authored_text_bytes)
  ok (segment_bytes authored_text_bytes segment)

pub check_segments :
    Map SpeakerDeclaration → List Text → ℕ → List LessonSegment → Result (Unit {0}) LessonError
check_segments speakers ids authored_text_bytes [] = ok tt
check_segments speakers ids authored_text_bytes (segment ∷ segments) = do
  total ← check_segment speakers ids authored_text_bytes segment
  check_segments speakers (segment.id ∷ ids) total segments

abbrev add_speakers : ℕ → Map SpeakerDeclaration → ℕ
add_speakers total [] = total
add_speakers total ((speaker, declaration) ∷ speakers) =
    add_speakers (add_bytes total (speaker ∷ declaration.voice_profile ∷ [])) speakers

abbrev references_of : Option LessonSource → List Text
references_of none = []
references_of (some source) = source.references

-- The bytes of the texts that belong to the lesson as a whole.
abbrev pub lesson_bytes : AuthoredLesson → ℕ
lesson_bytes lesson =
    add_bytes
      (add_bytes (add_speakers (length lesson.title) lesson.speakers) lesson.learning_objectives)
      (references_of lesson.source)

unfoldable pub validate_lesson : AuthoredLesson → Result ValidatedLesson LessonError
unfolding check_segments
validate_lesson lesson = do
  (schema_version, language) ← check_document lesson
  check_segments lesson.speakers [] (lesson_bytes lesson) lesson.segments
  ok (record { authored = lesson; schema_version = schema_version; language = language })
