-- ===== src/Markdown/Compiled.antt =====
-- `compile_lesson`: the draft of a lesson from the blocks of a document.
use technical_tts.Prelude.{
  ℕ, ◌+◌, Bool, true, false, Option, none, some, List, [], ◌∷◌, ◌++◌, if◌then◌else◌, Result, ok,
  ◌>>=◌, ◌>>◌, ok_or, refuse_if,
}
use technical_tts.Text.{Text, codes}
use technical_tts.Text.Decimal.{padded}
use technical_tts.Map.{Map}
use technical_tts.Digest.{Digest}
use technical_tts.Schema.{schema_uri, to_string}
use technical_tts.Lesson.{
  SegmentRole, DeliveryStyle, draft, SpeakerDeclaration, LessonSegment, AuthoredLesson,
}
use technical_tts.Lesson.Checks.{lesson_schema_stem, lesson_schema_version}
use technical_tts.Markdown.{
  Span, SourceBlockKind, heading, paragraph, list_item, fenced_code, inline_code, quotation, link,
  table, pronunciation_directive, SourceBlock, CompileError, no_title_heading, no_prose_to_speak,
  Event,
}
use technical_tts.Markdown.Source.{parse_source}

pub record CompileRequest : Type 0 where
  pub lesson_id : Text
  pub language : Text
  pub speakers : Map SpeakerDeclaration
  pub speaker : Text
  pub role : SegmentRole
  pub style : DeliveryStyle
  pub pause_after_ms : ℕ

abbrev pub is_spoken : SourceBlockKind → Bool
is_spoken paragraph = true
is_spoken list_item = true
is_spoken quotation = true
is_spoken table = true
is_spoken (heading level) = false
is_spoken (fenced_code info) = false
is_spoken inline_code = false
is_spoken (link destination) = false
is_spoken pronunciation_directive = false

abbrev pub is_heading : SourceBlockKind → Bool
is_heading (heading level) = true
is_heading _ = false

-- `find` of the first heading, with its text.
unfoldable pub first_heading : List SourceBlock → Option Text
first_heading [] = none
first_heading (block ∷ blocks) =
    let rest = first_heading blocks in if is_heading block.kind then some block.text else rest

unfoldable pub spoken : List SourceBlock → List SourceBlock
spoken [] = []
spoken (block ∷ blocks) =
    let rest = spoken blocks in if is_spoken block.kind then block ∷ rest else rest

abbrev pub segment_reference : ℕ → Text
segment_reference index = codes "seg-" ++ padded 4 (index + 1)

abbrev pub drafted : CompileRequest → ℕ → SourceBlock → LessonSegment
drafted request index block = record {
  id = segment_reference index;
  speaker = request.speaker;
  role = request.role;
  source_refs = block.id ∷ [];
  display_text = block.text;
  spoken_text = block.text;
  style = request.style;
  pause_after_ms = request.pause_after_ms;
  review_status = draft;
  editorial = false;
}

-- `enumerate` and `map`, from a number.
unfoldable pub draft_from : CompileRequest → ℕ → List SourceBlock → List LessonSegment
draft_from request index [] = []
draft_from request index (block ∷ blocks) =
    drafted request index block ∷ draft_from request (index + 1) blocks

abbrev pub is_nothing : List LessonSegment → Bool
is_nothing [] = true
is_nothing (segment ∷ segments) = false

-- `AuthoredLesson::new`.
abbrev pub new_lesson :
    Text → Text → Text → Map SpeakerDeclaration → List LessonSegment → AuthoredLesson
new_lesson lesson_id title language speakers segments = record {
  schema = some (schema_uri lesson_schema_stem lesson_schema_version.major);
  schema_version = to_string lesson_schema_version;
  lesson_id = lesson_id;
  title = title;
  language = language;
  learning_objectives = [];
  source = none;
  speakers = speakers;
  segments = segments;
}

-- `hash` is BLAKE3 with its hexadecimal spelling, which the check of a source hash accepts.
module _ (events_of : Text → List (Event × Span)) (hash : Text → Digest) where
  abbrev pub compiled : Text → CompileRequest → Text → List LessonSegment → AuthoredLesson
  compiled document request title segments =
      record (new_lesson request.lesson_id title request.language request.speakers segments) {
        source = some (record { content_hash = hash document; references = [] });
      }

  unfoldable pub compile_lesson : Text → CompileRequest → Result AuthoredLesson CompileError
  unfolding first_heading spoken draft_from
  compile_lesson document request = do
    blocks ← parse_source (events_of document)
    title ← ok_or (first_heading blocks) no_title_heading
    let segments = draft_from request 0 (spoken blocks)
    refuse_if (is_nothing segments) no_prose_to_speak
    ok (compiled document request title segments)
