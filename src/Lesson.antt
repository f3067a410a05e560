-- ===== src/Lesson.antt =====
-- crates/study-tts-core/src/lesson.rs: the identifiers of lessons and segments.
pub mod Identifiers
pub mod Checks
use technical_tts.Prelude.{
  ℕ, ◌≡◌, Bool, true, false, not, ◌&&◌, ◌||◌, Option, none, some, List, [], ◌∷◌, length, all, leb,
  ◌==◌, if◌then◌else◌, Result, ok, err,
}
use technical_tts.Schema.{SchemaVersion, SchemaVersionError}
use technical_tts.Digest.{Digest, MalformedDigest}
use technical_tts.Map.{Map}
use technical_tts.Language.{MalformedLanguageTag}
use technical_tts.Text.{Text, codes, is_alphanumeric, is_empty, is_blank, starts_with}

abbrev pub max_identifier_length : ℕ
max_identifier_length = 64

pub data LessonError : Type 0 where
  lesson_json_too_large : ℕ → LessonError
  invalid_json : LessonError
  unsupported_schema : SchemaVersionError → LessonError
  unexpected_schema_link : Text → SchemaVersion → Text → LessonError
  missing_lesson_id : LessonError
  malformed_language : MalformedLanguageTag → LessonError
  malformed_source_content_hash : MalformedDigest → LessonError
  invalid_lesson_id : Text → LessonError
  missing_segments : LessonError
  too_many_segments : ℕ → ℕ → LessonError
  missing_segment_id : LessonError
  invalid_segment_id : Text → LessonError
  duplicate_segment_id : Text → LessonError
  missing_spoken_text : Text → LessonError
  spoken_text_too_long : Text → ℕ → ℕ → LessonError
  missing_display_text : Text → LessonError
  display_text_too_long : Text → ℕ → ℕ → LessonError
  missing_source_refs : Text → LessonError
  too_many_source_refs : Text → ℕ → ℕ → LessonError
  empty_source_ref : Text → LessonError
  source_ref_too_long : Text → ℕ → ℕ → LessonError
  unknown_segment_role : Text → LessonError
  unknown_delivery_style : Text → LessonError
  unknown_review_status : Text → LessonError
  missing_segment_role : LessonError
  missing_delivery_style : LessonError
  missing_review_status : LessonError
  unapproved_segment : Text → LessonError
  missing_speaker : Text → LessonError
  undeclared_speaker : Text → Text → LessonError
  missing_voice_profile : Text → LessonError
  invalid_voice_profile : Text → Text → LessonError
  duplicate_speaker : Text → LessonError
  pause_out_of_range : Text → LessonError
  recall_prompt_without_response_interval : Text → ℕ → ℕ → LessonError
  recall_prompt_response_interval_too_long : Text → ℕ → ℕ → LessonError
  too_many_learning_objectives : ℕ → ℕ → LessonError
  empty_learning_objective : LessonError
  learning_objective_too_long : ℕ → ℕ → LessonError
  too_many_lesson_references : ℕ → ℕ → LessonError
  empty_lesson_reference : LessonError
  lesson_reference_too_long : ℕ → ℕ → LessonError
  authored_text_too_large : ℕ → LessonError

abbrev pub is_identifier_byte : ℕ → Bool
is_identifier_byte b = is_alphanumeric b || b == b'-' || b == b'_' || b == b'.'

unfoldable pub is_portable_id : Text → Bool
is_portable_id value =
    not (is_empty value)
    && leb (length value) max_identifier_length
    && not (starts_with value b'.')
    && all is_identifier_byte value

unfoldable pub validate_lesson_id : Text → Result (Unit {0}) LessonError
validate_lesson_id lesson_id =
    if is_blank lesson_id
    then err missing_lesson_id
    else if not (is_portable_id lesson_id)
    then err (invalid_lesson_id lesson_id)
    else ok tt

unfoldable pub validate_segment_id : Text → Result (Unit {0}) LessonError
validate_segment_id segment_id =
    if is_blank segment_id
    then err missing_segment_id
    else if not (is_portable_id segment_id)
    then err (invalid_segment_id segment_id)
    else ok tt

pub data SegmentRole : Type 0 where
  problem prerequisite definition explanation why_it_works example challenge plausible_error :
      SegmentRole
  interruption clarification correction pseudocode synthesis recap compressed_rule : SegmentRole
  recall_prompt answer : SegmentRole

pub data DeliveryStyle : Type 0 where
  calm calm_explanatory emphatic deliberate : DeliveryStyle

-- `DeliveryStyle::as_str`.
unfoldable pub style_name : DeliveryStyle → Text
style_name calm = codes "calm"
style_name calm_explanatory = codes "calm_explanatory"
style_name emphatic = codes "emphatic"
style_name deliberate = codes "deliberate"

pub data ReviewStatus : Type 0 where
  approved draft needs_review : ReviewStatus

-- `SpeakerDeclaration`, `LessonSource` and `LessonSegment`; the pause is a `u32`.
pub record SpeakerDeclaration : Type 0 where
  pub voice_profile : Text

pub record LessonSource : Type 0 where
  pub content_hash : Digest
  pub references : List Text

pub record LessonSegment : Type 0 where
  pub id : Text
  pub speaker : Text
  pub role : SegmentRole
  pub source_refs : List Text
  pub display_text : Text
  pub spoken_text : Text
  pub style : DeliveryStyle
  pub pause_after_ms : ℕ
  pub review_status : ReviewStatus
  pub editorial : Bool

pub record AuthoredLesson : Type 0 where
  pub schema : Option Text
  pub schema_version : Text
  pub lesson_id : Text
  pub title : Text
  pub language : Text
  pub learning_objectives : List Text
  pub source : Option LessonSource
  pub speakers : Map SpeakerDeclaration
  pub segments : List LessonSegment

-- `language` is a parsed tag.
pub record ValidatedLesson : Type 0 where
  pub authored : AuthoredLesson
  pub schema_version : SchemaVersion
  pub language : Text
