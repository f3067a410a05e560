-- ===== src/Manifest/Layouts.antt =====
-- crates/study-tts-runtime/src/manifest.rs: the layouts that a stored manifest may have.
use technical_tts.Prelude.{ℕ, Option, List}
use technical_tts.Text.{Text}
use technical_tts.Digest.{Digest}
use technical_tts.Release.{ReleaseStatus}
use technical_tts.Plan.{TakeSelectionSource}
use technical_tts.Manifest.{RecordedTool, StoredToolIdentity, StoredJoin}

pub record StoredArtifact : Type 0 where
  pub path : Text
  pub blake3 : Digest

pub record StoredManifestSegment : Type 0 where
  pub segment_id : Text
  pub cache_key : Digest
  pub selected_take : ℕ
  pub synthesis_base_key : Digest
  pub audio_blake3 : Digest
  pub frames : ℕ
  pub pause_after_ms : ℕ
  pub start_frame : ℕ
  pub pause_frames : ℕ

pub record StoredExecution : Type 0 where
  pub tool : RecordedTool
  pub arguments : List Text
  pub argument_profile_blake3 : Digest

pub record StoredTools : Type 0 where
  pub ffmpeg : StoredToolIdentity
  pub ffprobe : StoredToolIdentity
  pub executions : List StoredExecution

pub record StoredArtifactsV2 : Type 0 where
  pub master_wav : StoredArtifact
  pub m4a : StoredArtifact
  pub mp3 : StoredArtifact
  pub transcript : StoredArtifact
  pub captions : StoredArtifact
  pub chapters : StoredArtifact

-- The six artifacts before it, and the run report.
pub record StoredArtifacts : Type 0 where
  pub others : StoredArtifactsV2
  pub run_report : StoredArtifact

pub record StoredManifestV2 : Type 0 where
  pub release_status : ReleaseStatus
  pub lesson_id : Text
  pub plan_hash : Digest
  pub take_selection_source : TakeSelectionSource
  pub text_renderer_version : Text
  pub total_frames : ℕ
  pub segments : List StoredManifestSegment
  pub join_continuity : List StoredJoin
  pub artifacts : StoredArtifactsV2
  pub tools : StoredTools

pub record StoredManifest : Type 0 where
  pub release_status : ReleaseStatus
  pub lesson_id : Text
  pub build_attempt : ℕ
  pub plan_hash : Digest
  pub take_selection_source : TakeSelectionSource
  pub text_renderer_version : Text
  pub total_frames : ℕ
  pub segments : List StoredManifestSegment
  pub join_continuity : List StoredJoin
  pub artifacts : StoredArtifacts
  pub tools : StoredTools

pub record LegacyStoredSegment : Type 0 where
  pub segment_id : Text
  pub cache_key : Digest
  pub audio_blake3 : Digest
  pub frames : ℕ
  pub pause_after_ms : ℕ

-- `LegacyStoredToolUse`; a `SkeletonStoredToolUse` has its profile always.
pub record LegacyStoredToolUse : Type 0 where
  pub resolved_executable : Text
  pub version : Text
  pub arguments : List Text
  pub argument_profile_blake3 : Option Digest

pub record LegacyStoredManifest : Type 0 where
  pub release_status : ReleaseStatus
  pub lesson_id : Text
  pub plan_hash : Digest
  pub segments : List LegacyStoredSegment
  pub master_wav : StoredArtifact
  pub m4a : StoredArtifact
  pub ffmpeg : LegacyStoredToolUse
  pub ffprobe : LegacyStoredToolUse
