-- ===== src/Examples/Lessons.antt =====
-- A lesson of one segment, its takes and its plan at concrete inputs.
use technical_tts.Prelude.{◌≡◌, ◌↔◌, refl, [], ◌∷◌, none, All, false, ok}
use technical_tts.Text.{Text, codes, text_eq, text_cmp}
use technical_tts.Map.{get, insert, extend}
use technical_tts.Digest.{Digest}
use technical_tts.Schema.{new}
use technical_tts.Lesson.{
  SpeakerDeclaration, LessonSegment, AuthoredLesson, ValidatedLesson, recall_prompt, approved, calm,
  style_name,
}
use technical_tts.Lesson.Checks.{validate_lesson}
use technical_tts.Lesson.Checks.Documents.{IsLesson, validate_lesson_iff}
use technical_tts.Plan.{RenderPlan}
use technical_tts.Takes.{
  SelectedTake, ValidatedTakes, AppliedSelection, selected_by_segment, reconcile_with_plan,
}
use technical_tts.Identity.{
  SynthesisContext, reproducible, segment_digest, canonical_digest, class_name,
}
use technical_tts.Canonical.{canonical_bytes, write_value, object_of, write_json_string}
use technical_tts.Text.Decimal.{to_decimal}
use technical_tts.Selection.{
  TakeSelection, implicitly, explicitly, synthesis_digest, plan_digest, planned, planned_plan,
  for_lesson, for_lesson_with_takes, with_retakes, retake_each,
}
use technical_tts.Plan.{implicit}
use technical_tts.Selection.Derived.{ArePlanned, for_lesson_with_takes-ArePlanned}
use technical_tts.Selection.Reviewed.{IsReviewed, explicit-IsReviewed}

abbrev prompt : LessonSegment
prompt = record {
  id = codes "seg-1";
  speaker = codes "nadia";
  role = recall_prompt;
  source_refs = codes "block-1" ∷ [];
  display_text = codes "Recall.";
  spoken_text = codes "Recall it.";
  style = calm;
  pause_after_ms = 2000;
  review_status = approved;
  editorial = false;
}

abbrev nadia : SpeakerDeclaration
nadia = record { voice_profile = codes "nadia-v1" }

abbrev authored_lesson : AuthoredLesson
authored_lesson = record {
  schema = none;
  schema_version = codes "3.1";
  lesson_id = codes "lesson";
  title = codes "A lesson";
  language = codes "EN";
  learning_objectives = [];
  source = none;
  speakers = (codes "nadia", nadia) ∷ [];
  segments = prompt ∷ [];
}

abbrev one_lesson : ValidatedLesson
one_lesson = record { authored = authored_lesson; schema_version = new 3 1; language = codes "en" }

validate_lesson_iff_example :
    (validate_lesson authored_lesson ≡ ok one_lesson) ↔ IsLesson authored_lesson one_lesson
validate_lesson_iff_example = validate_lesson_iff authored_lesson one_lesson

abbrev one_context : SynthesisContext
one_context = record {
  worker_bundle_hash = codes "11";
  model_repository = codes "example/model";
  model_revision = codes "22";
  tokenizer_revision = codes "33";
  model_artifacts_hash = codes "44";
  language = codes "en";
  determinism_class = reproducible;
  seed = 7;
  generation_parameters = [];
  voice_conditioning_hashes = (codes "nadia", codes "55") ∷ [];
}

-- A hash that keeps its input.
abbrev kept : Text → Digest
kept bytes = bytes

abbrev plan_at : TakeSelection → RenderPlan
plan_at selection =
    planned_plan kept one_lesson selection (planned kept one_context selection prompt nadia ∷ [])

implicit_plan : for_lesson kept one_lesson one_context ≡ ok (plan_at implicitly)
unfolding for_lesson for_lesson_with_takes get text_eq
implicit_plan = refl

abbrev retake : SelectedTake
retake = record {
  segment_id = codes "seg-1";
  synthesis_base_key = synthesis_digest kept one_context prompt 0;
  selected_take = 2;
  selected_cache_key = synthesis_digest kept one_context prompt 2;
  audio_blake3 = codes "ee";
}

abbrev one_take : ValidatedTakes
one_take = record {
  authored = record {
    schema = none;
    schema_version = codes "1.0";
    lesson_id = codes "lesson";
    selections = retake ∷ [];
  };
  schema_version = new 1 0;
}

abbrev one_selection : AppliedSelection
one_selection = (codes "seg-1", retake) ∷ []

take_applied : reconcile_with_plan one_take (plan_at implicitly) ≡ ok one_selection
unfolding reconcile_with_plan selected_by_segment implicitly extend insert get text_eq text_cmp
    synthesis_digest segment_digest canonical_digest canonical_bytes write_value object_of
    write_json_string to_decimal class_name style_name
take_applied = refl

explicit_plan :
    for_lesson_with_takes kept one_lesson one_context (explicitly one_selection)
    ≡ ok (plan_at (explicitly one_selection))
unfolding for_lesson_with_takes get text_eq
explicit_plan = refl

for_lesson_with_takes-ArePlanned_example :
    ArePlanned kept one_lesson one_context
      (explicitly one_selection)
      (prompt ∷ [])
      (plan_at (explicitly one_selection)).segments
    × (codes "lesson" ≡ codes "lesson")
    × ((plan_at (explicitly one_selection)).take_selection_source
        ≡ (explicitly one_selection).source)
    × ((plan_at (explicitly one_selection)).plan_hash
        ≡ plan_digest kept (plan_at (explicitly one_selection)).segments)
for_lesson_with_takes-ArePlanned_example =
    for_lesson_with_takes-ArePlanned kept one_lesson one_context (explicitly one_selection)
      (plan_at (explicitly one_selection)) explicit_plan

explicit-IsReviewed_example :
    All (IsReviewed (retake ∷ [])) (plan_at (explicitly one_selection)).segments
explicit-IsReviewed_example =
    explicit-IsReviewed kept one_lesson one_context one_take (plan_at implicitly)
      (plan_at (explicitly one_selection)) one_selection implicit_plan take_applied explicit_plan

abbrev retried : TakeSelection
retried = record {
  source = implicit;
  resolved = (codes "seg-1", record { take = 3; approved_audio = none }) ∷ [];
}

retake_granted :
    with_retakes
      (explicitly one_selection)
      (plan_at (explicitly one_selection))
      ((codes "seg-1", 3) ∷ [])
    ≡ ok retried
unfolding with_retakes retake_each explicitly insert get text_eq text_cmp extend
retake_granted = refl
