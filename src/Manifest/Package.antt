-- ===== src/Manifest/Package.antt =====
-- crates/study-tts-runtime/src/manifest.rs: `validate_package` and its checks.
use technical_tts.Prelude.{
  ℕ, ◌/◌, Bool, true, false, not, ◌&&◌, ◌||◌, Option, none, some, List, [], ◌∷◌, length, all, any,
  ltb, ◌==◌, if◌then◌else◌, Result, ok, ◌>>=◌, ◌>>◌, ok_or, refuse_if, for_each,
}
use technical_tts.Text.{Text, codes, is_empty, text_eq}
use technical_tts.Digest.{Digest}
use technical_tts.Plan.{TakeSelectionSource}
use technical_tts.Assembly.{
  canonical_sample_rate, milliseconds_per_second, checked_mul, add_segment,
}
use technical_tts.Repository.{max_lesson_segments}
use technical_tts.Manifest.{
  ffmpeg, ffprobe, RecordedTool, RecordedToolUse, StoredJoin, WrittenPosition, RecordedSegment,
  RecordedArtifact, PackageRecord, starts_elsewhere, pause_differs, boundaries_overflow,
  spans_otherwise, PackageError, io_error, package_release_status_mismatch, package_lesson_mismatch,
  empty_package_segment_id, empty_package_segment_audio, incoherent_package_timeline,
  unexpected_package_artifact_path, package_artifact_checksum_mismatch,
  malformed_package_run_report, package_run_report_segment_count_exceeded,
  package_run_report_incomplete, package_run_report_identity_mismatch,
  package_run_report_segment_mismatch, package_run_report_join_mismatch,
  missing_package_tool_arguments,
}
use technical_tts.Manifest.Stored.{
  run_report_name, package_artifact_names, Parsers, parse_manifest, parse_stored_manifest,
}
use technical_tts.Manifest.Report.{
  RunReportSegment, JoinFinding, RunReportJoin, ReportLayoutRead, current, superseded, option_eq,
  number_eq, is_preview, is_complete, is_failed, is_observed, is_outside, tool_eq, take_source_eq,
  findings_eq,
}

abbrev pub manifest_name : Text
manifest_name = codes "manifest.json"

-- The boundary behind a segment that is recorded with its position.
abbrev pub check_written : ℕ → RecordedSegment → WrittenPosition → Result ℕ PackageError
check_written boundary segment written = do
  refuse_if (not (written.start_frame == boundary)) (
      incoherent_package_timeline
        (starts_elsewhere segment.segment_id written.start_frame boundary))
  refuse_if
      (not (
        option_eq number_eq
          (elim (checked_mul written.pause_after_ms canonical_sample_rate) [
            | none ↦ none
            | some frames ↦ some (frames / milliseconds_per_second)
          ])
          (some written.pause_frames)))
      (incoherent_package_timeline
        (pause_differs segment.segment_id written.pause_after_ms written.pause_frames))
  ok_or (add_segment boundary segment.frames written.pause_frames)
      (incoherent_package_timeline (boundaries_overflow segment.segment_id))

abbrev pub next_boundary : ℕ → RecordedSegment → Option WrittenPosition → Result ℕ PackageError
next_boundary boundary segment none = ok boundary
next_boundary boundary segment (some written) = check_written boundary segment written

-- The loop of `validate_written_timeline`.
unfoldable pub boundary_from : ℕ → List RecordedSegment → Result ℕ PackageError
boundary_from boundary [] = ok boundary
boundary_from boundary (segment ∷ segments) = do
  next ← next_boundary boundary segment segment.written
  boundary_from next segments

unfoldable pub validate_timeline_of :
    Option ℕ → List RecordedSegment → Result (Unit {0}) PackageError
validate_timeline_of none segments = ok tt
validate_timeline_of (some total_frames) segments = do
  boundary ← boundary_from 0 segments
  refuse_if (not (boundary == total_frames))
      (incoherent_package_timeline (spans_otherwise boundary total_frames))

abbrev pub validate_written_timeline : PackageRecord → Result (Unit {0}) PackageError
validate_written_timeline manifest = validate_timeline_of manifest.total_frames manifest.segments

abbrev pub check_recorded_segment : RecordedSegment → Result (Unit {0}) PackageError
check_recorded_segment segment = do
  refuse_if (is_empty segment.segment_id) empty_package_segment_id
  refuse_if (segment.frames == 0) (empty_package_segment_audio segment.segment_id)

abbrev pub check_execution : RecordedToolUse → Result (Unit {0}) PackageError
check_execution recorded =
    refuse_if (elim recorded.arguments [ [] ↦ true | a ∷ more ↦ false ])
      (missing_package_tool_arguments recorded.tool)

-- The pairs of `zip`.
abbrev pub zip_all : {A B : Type 0} → (A → B → Bool) → List A → List B → Bool
zip_all p (a ∷ xs) (b ∷ ys) = p a b && zip_all p xs ys
zip_all p _ _ = true

abbrev pub matches_recorded : RunReportSegment → RecordedSegment → Bool
matches_recorded reported recorded =
    text_eq reported.segment_id recorded.segment_id
    && option_eq number_eq (some reported.take) recorded.selected_take
    && not (is_failed reported.cache_outcome)
    && is_observed recorded.frames reported.audio_frames

unfoldable pub expected_findings : List StoredJoin → List JoinFinding
expected_findings [] = []
expected_findings (join ∷ joins) =
    let rest = expected_findings joins in
    if is_outside join.tolerance
    then record {
      earlier_segment_id = join.earlier_segment_id;
      later_segment_id = join.later_segment_id;
    }
      ∷ rest
    else rest

unfoldable pub join_run_report : RunReportJoin → PackageRecord → Result (Unit {0}) PackageError
join_run_report report manifest = do
  refuse_if
      (ltb max_lesson_segments (length report.segments)
        || ltb max_lesson_segments (length report.join_findings))
      package_run_report_segment_count_exceeded
  refuse_if (not (is_complete report.completion)) package_run_report_incomplete
  refuse_if
      (not (text_eq report.job_id manifest.lesson_id)
        || not (text_eq report.lesson_id manifest.lesson_id))
      package_run_report_identity_mismatch
  refuse_if (not (text_eq report.plan_hash manifest.plan_hash)) package_run_report_identity_mismatch
  refuse_if (not (option_eq number_eq (some report.build_attempt) manifest.build_attempt))
      package_run_report_identity_mismatch
  refuse_if
      (not (length report.segments == length manifest.segments)
        || not (zip_all matches_recorded report.segments manifest.segments))
      package_run_report_segment_mismatch
  refuse_if (not (findings_eq report.join_findings (expected_findings manifest.joins)))
      package_run_report_join_mismatch

-- `ExportProfiles`, by the identities of its profiles.
pub record ExportProfiles : Type 0 where
  pub ffmpeg_m4a : Digest
  pub ffmpeg_mp3 : Digest
  pub ffmpeg_encoders : Digest
  pub ffmpeg_loudnorm_measure : Digest
  pub ffmpeg_loudnorm_apply : Digest
  pub ffprobe_profile : Digest

-- The invocations of a complete build, in their order.
unfoldable pub expected_executions : ExportProfiles → List (RecordedTool × Digest)
expected_executions profiles =
    (ffmpeg, profiles.ffmpeg_encoders)
    ∷ (ffmpeg, profiles.ffmpeg_loudnorm_measure)
    ∷ (ffmpeg, profiles.ffmpeg_loudnorm_apply)
    ∷ (ffprobe, profiles.ffprobe_profile)
    ∷ (ffmpeg, profiles.ffmpeg_m4a)
    ∷ (ffprobe, profiles.ffprobe_profile)
    ∷ (ffmpeg, profiles.ffmpeg_mp3)
    ∷ (ffprobe, profiles.ffprobe_profile)
    ∷ []

-- `ReuseExpectations`, with the versions of the tools.
pub record ReuseExpectations : Type 0 where
  pub ffmpeg_version : Text
  pub ffprobe_version : Text
  pub profiles : ExportProfiles
  pub text_renderer_version : Text
  pub take_selection_source : TakeSelectionSource

unfoldable pub records_every_artifact : PackageRecord → Bool
records_every_artifact manifest =
    all (λ required. any (λ a. text_eq a.required_name required) manifest.artifacts)
      package_artifact_names

abbrev pub matches_execution : RecordedToolUse → RecordedTool × Digest → Bool
matches_execution recorded (tool, profile) =
    tool_eq recorded.tool tool && option_eq text_eq recorded.argument_profile_blake3 (some profile)

unfoldable pub tools_match : PackageRecord → ReuseExpectations → Bool
tools_match manifest expected =
    text_eq manifest.ffmpeg.version expected.ffmpeg_version
    && text_eq manifest.ffprobe.version expected.ffprobe_version
    && length manifest.executions == length (expected_executions expected.profiles)
    && zip_all matches_execution manifest.executions (expected_executions expected.profiles)

abbrev pub is_current : ReportLayoutRead → Bool
is_current current = true
is_current superseded = false

unfoldable pub reusable : ReportLayoutRead → PackageRecord → Option ReuseExpectations → Bool
reusable layout manifest none = true
reusable layout manifest (some expected) =
    is_current layout
    && manifest.redacted_arguments
    && records_every_artifact manifest
    && tools_match manifest expected
    && option_eq text_eq manifest.text_renderer_version (some expected.text_renderer_version)
    && option_eq take_source_eq manifest.take_selection_source (some expected.take_selection_source)

abbrev pub plan_matches : Digest → Option Text → Bool
plan_matches recorded none = true
plan_matches recorded (some expected) = text_eq recorded expected

-- The files of a package by name, without a run report beyond its bound of bytes, BLAKE3 with its hexadecimal spelling, and `serde_json` for the
-- manifest's layouts and the run report, with the layout that it declares.
module _ (files : Text → Option Text) (hash : Text → Digest) (parsers : Parsers)
    (parse_report : Text → Option (ReportLayoutRead × RunReportJoin)) where
  abbrev pub read_file : Text → Result Text PackageError
  read_file name = ok_or (files name) (io_error name)

  unfoldable pub validate_artifact : RecordedArtifact → Result (Unit {0}) PackageError
  validate_artifact artifact = do
    refuse_if (not (text_eq artifact.path artifact.required_name))
        (unexpected_package_artifact_path artifact.path artifact.required_name)
    bytes ← read_file artifact.required_name
    refuse_if (not (text_eq (hash bytes) artifact.blake3))
        (package_artifact_checksum_mismatch artifact.required_name artifact.blake3 (hash bytes))

  unfoldable pub validate_run_report : PackageRecord → Result ReportLayoutRead PackageError
  validate_run_report manifest = do
    bytes ← read_file run_report_name
    report ← ok_or (parse_report bytes) malformed_package_run_report
    join_run_report report.1 manifest
    ok report.0

  abbrev pub report_of : PackageRecord → Option ℕ → Result ReportLayoutRead PackageError
  report_of manifest none = ok current
  report_of manifest (some build_attempt) = validate_run_report manifest

  -- The checks of a record, which answer with the layout of its report.
  unfoldable pub check_record : PackageRecord → Text → Result ReportLayoutRead PackageError
  check_record manifest lesson_id = do
    refuse_if (not (is_preview manifest.release_status))
        (package_release_status_mismatch manifest.release_status)
    refuse_if (not (text_eq manifest.lesson_id lesson_id))
        (package_lesson_mismatch manifest.lesson_id lesson_id)
    for_each check_recorded_segment manifest.segments
    validate_written_timeline manifest
    for_each validate_artifact manifest.artifacts
    layout ← report_of manifest manifest.build_attempt
    for_each check_execution manifest.executions
    ok layout

  abbrev pub read_record : Result PackageRecord PackageError
  read_record = do
    bytes ← read_file manifest_name
    version ← parse_manifest parsers parsers.version bytes
    parse_stored_manifest parsers bytes version

  unfoldable pub validate_package :
      Text → Option Text → Option ReuseExpectations → Result Bool PackageError
  validate_package lesson_id plan_hash reuse = do
    manifest ← read_record
    layout ← check_record manifest lesson_id
    ok (plan_matches manifest.plan_hash plan_hash && reusable layout manifest reuse)
