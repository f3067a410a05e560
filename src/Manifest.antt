-- ===== src/Manifest.antt =====
-- crates/study-tts-runtime/src/manifest.rs: what a package's manifest is read into, and the run report
-- beside it (run_report.rs). The faults, of error/state.rs, leave out paths and the errors of libraries.
pub mod Layouts
pub mod Stored
pub mod Report
pub mod Package
pub mod Write
pub mod Tiled
pub mod Reused
pub mod Redacted
pub mod Reconciled
pub mod Verified
use technical_tts.Prelude.{ℕ, ◌≡◌, Bool, true, false, Option, none, some, List, [], ◌∷◌}
use technical_tts.Text.{Text, codes}
use technical_tts.Digest.{Digest}
use technical_tts.Release.{ReleaseStatus}
use technical_tts.Plan.{TakeSelectionSource}

abbrev pub current_manifest_layout_version : Text
current_manifest_layout_version = codes "4.0-skeleton"

abbrev pub absolute_path_manifest_layout_version : Text
absolute_path_manifest_layout_version = codes "3.0-skeleton"

abbrev pub run_reportless_manifest_layout_version : Text
run_reportless_manifest_layout_version = codes "2.0-skeleton"

abbrev pub skeleton_manifest_layout_version : Text
skeleton_manifest_layout_version = codes "0.2-skeleton"

abbrev pub legacy_manifest_layout_version : Text
legacy_manifest_layout_version = codes "0.1-skeleton"

pub data RecordedTool : Type 0 where
  ffmpeg ffprobe : RecordedTool

pub record StoredToolIdentity : Type 0 where
  pub resolved_executable : Text
  pub version : Text

pub record RecordedToolUse : Type 0 where
  pub tool : RecordedTool
  pub arguments : List Text
  pub argument_profile_blake3 : Option Digest

-- `JoinTolerance` of audio_edges.rs.
pub data JoinTolerance : Type 0 where
  within outside not_comparable : JoinTolerance

-- The ratios of a join are what `provisional_tolerance` says of them.
pub record StoredJoin : Type 0 where
  pub earlier_segment_id : Text
  pub later_segment_id : Text
  pub tolerance : JoinTolerance

pub record WrittenPosition : Type 0 where
  pub start_frame : ℕ
  pub pause_after_ms : ℕ
  pub pause_frames : ℕ

pub record RecordedSegment : Type 0 where
  pub segment_id : Text
  pub cache_key : Digest
  pub audio_blake3 : Digest
  pub synthesis_base_key : Digest
  pub selected_take : Option ℕ
  pub frames : ℕ
  pub written : Option WrittenPosition

pub record RecordedArtifact : Type 0 where
  pub required_name : Text
  pub path : Text
  pub blake3 : Digest

pub record PackageRecord : Type 0 where
  pub release_status : ReleaseStatus
  pub lesson_id : Text
  pub build_attempt : Option ℕ
  pub plan_hash : Digest
  pub total_frames : Option ℕ
  pub text_renderer_version : Option Text
  pub take_selection_source : Option TakeSelectionSource
  pub segments : List RecordedSegment
  pub artifacts : List RecordedArtifact
  pub ffmpeg : StoredToolIdentity
  pub ffprobe : StoredToolIdentity
  pub executions : List RecordedToolUse
  pub redacted_arguments : Bool
  pub joins : List StoredJoin

-- What is wrong with a timeline, as `detail` says it.
pub data TimelineDetail : Type 0 where
  starts_elsewhere : (segment_id : Text) (start_frame boundary : ℕ) → TimelineDetail
  pause_differs : (segment_id : Text) (pause_after_ms pause_frames : ℕ) → TimelineDetail
  boundaries_overflow : (segment_id : Text) → TimelineDetail
  spans_otherwise : (boundary total_frames : ℕ) → TimelineDetail

pub data PackageError : Type 0 where
  io_error : (name : Text) → PackageError
  malformed_package_manifest : PackageError
  unsupported_package_manifest : (found : Text) → PackageError
  unredacted_package_tool_argument : RecordedTool → PackageError
  package_release_status_mismatch : (found : ReleaseStatus) → PackageError
  package_lesson_mismatch : (recorded required : Text) → PackageError
  empty_package_segment_id : PackageError
  empty_package_segment_audio : (segment_id : Text) → PackageError
  incoherent_package_timeline : TimelineDetail → PackageError
  unexpected_package_artifact_path : (recorded required : Text) → PackageError
  package_artifact_checksum_mismatch : (name : Text) (expected found : Digest) → PackageError
  malformed_package_run_report : PackageError
  package_run_report_segment_count_exceeded : PackageError
  package_run_report_incomplete : PackageError
  package_run_report_identity_mismatch : PackageError
  package_run_report_segment_mismatch : PackageError
  package_run_report_join_mismatch : PackageError
  missing_package_tool_arguments : RecordedTool → PackageError
