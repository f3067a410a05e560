-- ===== src/Takes.antt =====
-- crates/study-tts-core/src/takes.rs: the reviewer's selection of one take for each segment.
pub mod Accepted
pub mod Reconciled
pub mod Covered
use technical_tts.Prelude.{
  ℕ, ◌*◌, ◌≡◌, Bool, true, false, not, ◌&&◌, ◌||◌, Option, none, some, List, [], ◌∷◌, map, length,
  any, leb, ltb, ◌==◌, if◌then◌else◌, Result, ok, err, ◌>>=◌, ◌>>◌, ok_or, refuse_if, map_err,
  for_each, map_result,
}
use technical_tts.Text.{Text, codes, text_eq}
use technical_tts.Map.{Map, get, keys, collect}
use technical_tts.Digest.{Digest}
use technical_tts.Schema.{
  SchemaVersion, SchemaVersionError, new, from_str, accepted_by, check_declared_version, schema_uri,
}
use technical_tts.Repository.{max_lesson_segments}
use technical_tts.Lesson.{LessonError, validate_lesson_id, validate_segment_id}
use technical_tts.Plan.{
  PlannedSegment, RenderPlan, TakeSelectionSource, implicit, explicit, base_take,
}

abbrev pub takes_schema_version : SchemaVersion
takes_schema_version = new 1 0

abbrev pub takes_schema_stem : Text
takes_schema_stem = codes "takes"

abbrev pub max_takes_json_bytes : ℕ
max_takes_json_bytes = 8 * 1024 * 1024

-- `selected_take` is a `u32`.
pub record SelectedTake : Type 0 where
  pub segment_id : Text
  pub synthesis_base_key : Digest
  pub selected_take : ℕ
  pub selected_cache_key : Digest
  pub audio_blake3 : Digest

-- `TakeSelectionSource::name` and `TakeSelectionSource::production`.
unfoldable pub name : TakeSelectionSource → Text
name implicit = codes "implicit"
name explicit = codes "explicit"

pub data ImplicitTakeSelection : Type 0 where
  implicit_take_selection : ImplicitTakeSelection

unfoldable pub production : TakeSelectionSource → Result (Unit {0}) ImplicitTakeSelection
production explicit = ok tt
production implicit = err implicit_take_selection

pub record TakesDocument : Type 0 where
  pub schema : Option Text
  pub schema_version : Text
  pub lesson_id : Text
  pub selections : List SelectedTake

pub record ValidatedTakes : Type 0 where
  pub authored : TakesDocument
  pub schema_version : SchemaVersion

pub data TakesError : Type 0 where
  takes_json_too_large : ℕ → TakesError
  invalid_json : TakesError
  unsupported_schema : SchemaVersionError → TakesError
  unexpected_schema_link : Text → SchemaVersion → Text → TakesError
  invalid_lesson_id : LessonError → TakesError
  invalid_segment_id : LessonError → TakesError
  missing_selections : TakesError
  too_many_selections : ℕ → ℕ → TakesError
  duplicate_selection : Text → TakesError
  base_take_key_mismatch : Text → TakesError
  retake_uses_base_key : Text → ℕ → TakesError
  lesson_mismatch : Text → Text → TakesError
  plan_is_not_base_takes : Text → ℕ → TakesError
  unselected_segment : Text → TakesError
  unplanned_selection : Text → TakesError
  stale_synthesis_base_key : Text → Digest → Digest → TakesError
  selected_cache_key_mismatch : Text → ℕ → Digest → Digest → TakesError
  selected_plan_mismatch : Text → TakesError
  approved_audio_mismatch : Text → Digest → Digest → Digest → TakesError

-- `contains` of a set of texts.
abbrev pub contains : List Text → Text → Bool
contains set t = any (text_eq t) set

check_link : SchemaVersion → Option Text → Result (Unit {0}) TakesError
check_link version none = ok tt
check_link version (some declared) =
    let expected = schema_uri takes_schema_stem version.major in
    refuse_if (not (text_eq declared expected)) (unexpected_schema_link declared version expected)

check_keys : SelectedTake → Result (Unit {0}) TakesError
check_keys selection =
    let keys_match = text_eq selection.selected_cache_key selection.synthesis_base_key in
    let is_base_take = selection.selected_take == base_take in
    if is_base_take && not keys_match
    then err (base_take_key_mismatch selection.segment_id)
    else if not is_base_take && keys_match
    then err (retake_uses_base_key selection.segment_id selection.selected_take)
    else ok tt

-- The loop over the selections, with the segments seen so far.
check_selections : List Text → List SelectedTake → Result (Unit {0}) TakesError
unfolding check_keys
check_selections segments [] = ok tt
check_selections segments (selection ∷ selections) = do
  map_err invalid_segment_id (validate_segment_id selection.segment_id)
  refuse_if (contains segments selection.segment_id) (duplicate_selection selection.segment_id)
  check_keys selection
  check_selections (selection.segment_id ∷ segments) selections

unfoldable pub validate : TakesDocument → Result ValidatedTakes TakesError
unfolding check_link check_selections
validate document = do
  schema_version ← map_err unsupported_schema (from_str document.schema_version)
  compatibility ← map_err unsupported_schema (accepted_by schema_version takes_schema_version)
  check_link schema_version document.schema
  map_err invalid_lesson_id (validate_lesson_id document.lesson_id)
  refuse_if (length document.selections == 0) missing_selections
  refuse_if (ltb max_lesson_segments (length document.selections))
      (too_many_selections (length document.selections) max_lesson_segments)
  check_selections [] document.selections
  ok (record { authored = document; schema_version = schema_version })

-- `from_json`: `header` and `decode` are `serde_json`'s.
unfoldable pub from_json :
    (header : Text → Option Text) (decode : Text → Option TakesDocument)
    → Text
    → Result ValidatedTakes TakesError
from_json header decode bytes = do
  refuse_if (ltb max_takes_json_bytes (length bytes)) (takes_json_too_large max_takes_json_bytes)
  map_err unsupported_schema (check_declared_version header bytes takes_schema_version)
  document ← ok_or (decode bytes) invalid_json
  validate document

-- `AppliedSelection`.
abbrev pub AppliedSelection : Type 0
AppliedSelection = Map SelectedTake

check_base_takes : List PlannedSegment → Result (List Text) TakesError
check_base_takes segments =
    map_result
      (λ segment.
        if segment.take == base_take
        then ok segment.id
        else err (plan_is_not_base_takes segment.id segment.take))
      segments

check_base_key : AppliedSelection → PlannedSegment → Result (Unit {0}) TakesError
check_base_key selected segment = do
  selection ← ok_or (get segment.id selected) (unselected_segment segment.id)
  refuse_if (not (text_eq selection.synthesis_base_key segment.cache_key))
      (stale_synthesis_base_key segment.id selection.synthesis_base_key segment.cache_key)

-- Each key of the map is in the set.
check_planned : List Text → List Text → (Text → TakesError) → Result (Unit {0}) TakesError
check_planned planned ids refusal =
    for_each (λ id. refuse_if (not (contains planned id)) (refusal id)) ids

unfoldable pub selected_by_segment : List SelectedTake → AppliedSelection
selected_by_segment selections = collect (map (λ s. (s.segment_id, s)) selections)

unfoldable pub reconcile_with_plan :
    ValidatedTakes → RenderPlan → Result AppliedSelection TakesError
unfolding check_base_takes check_base_key check_planned
reconcile_with_plan takes base = do
  refuse_if (not (text_eq takes.authored.lesson_id base.lesson_id))
      (lesson_mismatch takes.authored.lesson_id base.lesson_id)
  planned ← check_base_takes base.segments
  let selected = selected_by_segment takes.authored.selections
  for_each (check_base_key selected) base.segments
  check_planned planned (keys selected) unplanned_selection
  ok selected

check_selected_key : AppliedSelection → PlannedSegment → Result (Unit {0}) TakesError
check_selected_key selected segment = do
  recorded ← ok_or (get segment.id selected) (selected_plan_mismatch segment.id)
  refuse_if (not (text_eq recorded.selected_cache_key segment.cache_key)) (
      selected_cache_key_mismatch segment.id recorded.selected_take recorded.selected_cache_key
        segment.cache_key)

unfoldable pub verify_selected_keys : AppliedSelection → RenderPlan → Result (Unit {0}) TakesError
unfolding check_selected_key check_planned
verify_selected_keys selected plan = do
  for_each (check_selected_key selected) plan.segments
  check_planned (map (λ s. s.id) plan.segments) (keys selected) selected_plan_mismatch
