-- ===== src/Selection.antt =====
-- crates/study-tts-core/src/plan.rs: the derivation of a plan from a lesson and the takes selected for
-- it. `TakeSelection::implicit`, `explicit` and `recovered` are `implicitly`, `explicitly` and
-- `recovered`.
pub mod Derived
pub mod Reviewed
pub mod Retakes
use technical_tts.Prelude.{
  ℕ, ◌≡◌, Bool, true, false, not, ◌&&◌, ◌||◌, Option, none, some, List, [], ◌∷◌, ◌++◌, map, any,
  ◌==◌, if◌then◌else◌, Result, ok, err, ◌>>=◌, ◌>>◌, ok_or, refuse_if, for_each, map_result,
}
use technical_tts.Text.{Text, codes, text_eq}
use technical_tts.Map.{Map, get, insert, collect}
use technical_tts.Digest.{Digest}
use technical_tts.Schema.{SchemaVersion, new}
use technical_tts.Canonical.{
  CanonicalValue, unsigned, text, array, Elements, no_element, element, object_of,
}
use technical_tts.Lesson.{style_name, SpeakerDeclaration, LessonSegment, ValidatedLesson}
use technical_tts.Plan.{
  PlannedSegment, RenderPlan, TakeSelectionSource, implicit, explicit, base_take,
}
use technical_tts.Takes.{SelectedTake, AppliedSelection}
use technical_tts.Identity.{
  SynthesisContext, voice_conditioning_for, canonical_digest, segment_digest,
}

abbrev pub plan_schema_version : SchemaVersion
plan_schema_version = new 4 0

pub data PlanError : Type 0 where
  unresolved_speaker : Text → Text → PlanError
  unplanned_retake : Text → PlanError
  retake_uses_selected_take : Text → ℕ → PlanError
  base_take_key_mismatch : Text → PlanError
  retake_uses_base_key : Text → ℕ → PlanError

pub record ResolvedTake : Type 0 where
  pub take : ℕ
  pub approved_audio : Option Digest

pub record TakeSelection : Type 0 where
  pub source : TakeSelectionSource
  pub resolved : Map ResolvedTake

unfoldable pub implicitly : TakeSelection
implicitly = record { source = implicit; resolved = [] }

abbrev pub taken : SelectedTake → ResolvedTake
taken s = record { take = s.selected_take; approved_audio = some s.audio_blake3 }

unfoldable pub explicitly : AppliedSelection → TakeSelection
explicitly selected = record {
  source = explicit;
  resolved = collect (map (λ p. (p.0, taken p.1)) selected);
}

unfoldable pub recovered : RenderPlan → TakeSelection
recovered retained = record {
  source = retained.take_selection_source;
  resolved = collect (
      map (λ g. (g.id, record { take = g.take; approved_audio = g.audio_blake3 }))
        retained.segments);
}

-- The take of a segment: the resolved one, or take zero without approved audio.
abbrev pub resolved_take : Map ResolvedTake → Text → ResolvedTake
resolved_take resolved id = elim (get id resolved) [
  | none ↦ record { take = base_take; approved_audio = none }
  | some r ↦ r
]

-- The loop of `with_retakes`, over the entries in the order of their keys.
unfoldable pub retake_each :
    RenderPlan → Map ResolvedTake → List (Text × ℕ) → Result (Map ResolvedTake) PlanError
retake_each base resolved [] = ok resolved
retake_each base resolved ((segment_id, take) ∷ retakes) = do
  refuse_if (not (any (λ g. text_eq g.id segment_id) base.segments)) (unplanned_retake segment_id)
  refuse_if (take == (resolved_take resolved segment_id).take)
      (retake_uses_selected_take segment_id take)
  retake_each base (insert segment_id (record { take = take; approved_audio = none }) resolved)
      retakes

unfoldable pub with_retakes : TakeSelection → RenderPlan → Map ℕ → Result TakeSelection PlanError
unfolding retake_each
with_retakes selection base [] = ok selection
with_retakes selection base (first ∷ retakes) = do
  resolved ← retake_each base selection.resolved (first ∷ retakes)
  ok (record { source = implicit; resolved = resolved })

check_recorded : PlannedSegment → Result (Unit {0}) PlanError
check_recorded segment =
    let keys_match = text_eq segment.synthesis_base_key segment.cache_key in
    if segment.take == base_take && not keys_match
    then err (base_take_key_mismatch segment.id)
    else if not (segment.take == base_take) && keys_match
    then err (retake_uses_base_key segment.id segment.take)
    else ok tt

unfoldable pub verify_recorded_selection : RenderPlan → Result (Unit {0}) PlanError
unfolding check_recorded
verify_recorded_selection plan = for_each check_recorded plan.segments

unfoldable pub request_id : PlannedSegment → Text
request_id segment = codes "e0-" ++ segment.cache_key ++ codes "-" ++ segment.id

-- The fields that `plan_digest` hashes.
abbrev pub planned_value : PlannedSegment → CanonicalValue
planned_value g = object_of (
    (codes "id", text g.id)
    ∷ (codes "speaker", text g.speaker)
    ∷ (codes "voice_profile", text g.voice_profile)
    ∷ (codes "display_text", text g.display_text)
    ∷ (codes "spoken_text", text g.spoken_text)
    ∷ (codes "style", text (style_name g.style))
    ∷ (codes "pause_after_ms", unsigned g.pause_after_ms)
    ∷ (codes "take", unsigned g.take)
    ∷ (codes "cache_key", text g.cache_key)
    ∷ [])

abbrev pub planned_values : List PlannedSegment → Elements
planned_values [] = no_element
planned_values (g ∷ gs) = element (planned_value g) (planned_values gs)

-- `hash` is BLAKE3 with its hexadecimal spelling.
module _ (hash : Text → Digest) where
  unfoldable pub plan_digest : List PlannedSegment → Digest
  plan_digest segments = canonical_digest hash (array (planned_values segments))

  -- `synthesis_digest` of crates/study-tts-core/src/identity.rs.
  unfoldable pub synthesis_digest : SynthesisContext → LessonSegment → ℕ → Digest
  synthesis_digest context segment take =
      segment_digest hash context segment.speaker segment.spoken_text (style_name segment.style)
        take

  -- The segment as it is planned, under its speaker's declaration.
  abbrev pub planned :
      SynthesisContext → TakeSelection → LessonSegment → SpeakerDeclaration → PlannedSegment
  planned context selection segment declaration =
      let resolved = resolved_take selection.resolved segment.id in
      record {
        id = segment.id;
        speaker = segment.speaker;
        voice_profile = declaration.voice_profile;
        display_text = segment.display_text;
        spoken_text = segment.spoken_text;
        style = segment.style;
        pause_after_ms = segment.pause_after_ms;
        take = resolved.take;
        cache_key = synthesis_digest context segment resolved.take;
        synthesis_base_key = synthesis_digest context segment base_take;
        audio_blake3 = resolved.approved_audio;
      }

  -- The body of the `map` over the segments.
  plan_segment :
      ValidatedLesson
      → SynthesisContext
      → TakeSelection
      → LessonSegment
      → Result PlannedSegment PlanError
  plan_segment lesson context selection segment = do
    conditioning ←
        ok_or (voice_conditioning_for context segment.speaker)
          (unresolved_speaker segment.id segment.speaker)
    declaration ←
        ok_or (get segment.speaker lesson.authored.speakers)
          (unresolved_speaker segment.id segment.speaker)
    ok (planned context selection segment declaration)

  abbrev pub planned_plan : ValidatedLesson → TakeSelection → List PlannedSegment → RenderPlan
  planned_plan lesson selection segments = record {
    schema_version = plan_schema_version;
    lesson_id = lesson.authored.lesson_id;
    plan_hash = plan_digest segments;
    take_selection_source = selection.source;
    segments = segments;
  }

  unfoldable pub for_lesson_with_takes :
      ValidatedLesson → SynthesisContext → TakeSelection → Result RenderPlan PlanError
  unfolding plan_segment
  for_lesson_with_takes lesson context selection = do
    segments ← map_result (plan_segment lesson context selection) lesson.authored.segments
    ok (planned_plan lesson selection segments)

  unfoldable pub for_lesson : ValidatedLesson → SynthesisContext → Result RenderPlan PlanError
  for_lesson lesson context = for_lesson_with_takes lesson context implicitly
