-- ===== src/Plan.antt =====
-- crates/study-tts-core/src/plan.rs: the render plan.
use technical_tts.Prelude.{ℕ, Option, List}
use technical_tts.Text.{Text}
use technical_tts.Digest.{Digest}
use technical_tts.Lesson.{DeliveryStyle}
use technical_tts.Schema.{SchemaVersion}

-- The counts are `u32`.
pub record PlannedSegment : Type 0 where
  pub id : Text
  pub speaker : Text
  pub voice_profile : Text
  pub display_text : Text
  pub spoken_text : Text
  pub style : DeliveryStyle
  pub pause_after_ms : ℕ
  pub take : ℕ
  pub cache_key : Digest
  pub synthesis_base_key : Digest
  pub audio_blake3 : Option Digest

-- `TakeSelectionSource` of crates/study-tts-core/src/takes.rs.
pub data TakeSelectionSource : Type 0 where
  implicit explicit : TakeSelectionSource

pub record RenderPlan : Type 0 where
  pub schema_version : SchemaVersion
  pub lesson_id : Text
  pub plan_hash : Digest
  pub take_selection_source : TakeSelectionSource
  pub segments : List PlannedSegment

abbrev pub base_take : ℕ
base_take = 0
