-- ===== src/Examples/Takes.antt =====
-- A takes document and its plan at concrete inputs.
use technical_tts.Prelude.{ℕ, ◌≡◌, ◌↔◌, refl, List, [], ◌∷◌, none, ok}
use technical_tts.Text.{Text, codes, text_eq, text_cmp, split_once, is_blank}
use technical_tts.Text.Decimal.{parse_decimal}
use technical_tts.Map.{get, insert, extend}
use technical_tts.Schema.{new, from_str, parse_version_component, accepted_by}
use technical_tts.Lesson.{validate_segment_id, validate_lesson_id, is_portable_id}
use technical_tts.Plan.{PlannedSegment, RenderPlan, implicit}
use technical_tts.Lesson.{calm}
use technical_tts.Takes.{
  SelectedTake, TakesDocument, ValidatedTakes, validate, selected_by_segment, reconcile_with_plan,
  verify_selected_keys,
}
use technical_tts.Takes.Accepted.{IsAcceptable, validate_iff}

abbrev first_take : SelectedTake
first_take = record {
  segment_id = codes "seg-1";
  synthesis_base_key = codes "aa";
  selected_take = 0;
  selected_cache_key = codes "aa";
  audio_blake3 = codes "dd";
}

abbrev second_take : SelectedTake
second_take = record {
  segment_id = codes "seg-2";
  synthesis_base_key = codes "bb";
  selected_take = 3;
  selected_cache_key = codes "cc";
  audio_blake3 = codes "ee";
}

abbrev two_takes : TakesDocument
two_takes = record {
  schema = none;
  schema_version = codes "1.0";
  lesson_id = codes "lesson";
  selections = second_take ∷ first_take ∷ [];
}

abbrev accepted_takes : ValidatedTakes
accepted_takes = record { authored = two_takes; schema_version = new 1 0 }

abbrev segment_at : Text → ℕ → Text → PlannedSegment
segment_at id take key = record {
  id = id;
  speaker = codes "nadia";
  voice_profile = codes "nadia-v1";
  display_text = codes "Shown.";
  spoken_text = codes "Spoken.";
  style = calm;
  pause_after_ms = 0;
  take = take;
  cache_key = key;
  synthesis_base_key = key;
  audio_blake3 = none;
}

abbrev plan_of : List PlannedSegment → RenderPlan
plan_of segments = record {
  schema_version = new 4 0;
  lesson_id = codes "lesson";
  plan_hash = codes "ff";
  take_selection_source = implicit;
  segments = segments;
}

abbrev base_plan : RenderPlan
base_plan =
    plan_of
      (segment_at (codes "seg-1") 0 (codes "aa") ∷ segment_at (codes "seg-2") 0 (codes "bb") ∷ [])

abbrev selected_plan : RenderPlan
selected_plan =
    plan_of
      (segment_at (codes "seg-1") 0 (codes "aa") ∷ segment_at (codes "seg-2") 3 (codes "cc") ∷ [])

takes_accepted : validate two_takes ≡ ok accepted_takes
unfolding validate accepted_by from_str parse_version_component parse_decimal split_once
    validate_lesson_id validate_segment_id is_blank is_portable_id text_eq
takes_accepted = refl

takes_reconciled :
    reconcile_with_plan accepted_takes base_plan ≡ ok (selected_by_segment two_takes.selections)
unfolding reconcile_with_plan selected_by_segment extend insert get text_eq text_cmp
takes_reconciled = refl

takes_verified :
    verify_selected_keys (selected_by_segment two_takes.selections) selected_plan ≡ ok tt
unfolding verify_selected_keys selected_by_segment extend insert get text_eq text_cmp
takes_verified = refl

validate_iff_example :
    (validate two_takes ≡ ok accepted_takes)
    ↔ ((two_takes ≡ two_takes) × IsAcceptable two_takes (new 1 0))
validate_iff_example = validate_iff two_takes accepted_takes
