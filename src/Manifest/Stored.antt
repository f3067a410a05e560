-- ===== src/Manifest/Stored.antt =====
-- crates/study-tts-runtime/src/manifest.rs: what the stored layouts record, and
-- `parse_stored_manifest`.
use technical_tts.Prelude.{
  Bool, true, false, Option, none, some, List, [], ◌∷◌, map, any, if◌then◌else◌, Result, ok, err,
  ◌>>=◌, ◌>>◌, ok_or,
}
use technical_tts.Text.{Text, codes, text_eq, starts_with}
use technical_tts.Manifest.{
  current_manifest_layout_version, absolute_path_manifest_layout_version,
  run_reportless_manifest_layout_version, skeleton_manifest_layout_version,
  legacy_manifest_layout_version, RecordedTool, ffmpeg, ffprobe, StoredToolIdentity,
  RecordedToolUse, RecordedSegment, RecordedArtifact, PackageRecord, PackageError,
  malformed_package_manifest, unsupported_package_manifest, unredacted_package_tool_argument,
}
use technical_tts.Manifest.Layouts.{
  StoredArtifact, StoredManifestSegment, StoredExecution, StoredArtifactsV2, StoredManifestV2,
  StoredManifest, LegacyStoredSegment, LegacyStoredToolUse, LegacyStoredManifest,
}

abbrev pub master_wav_name : Text
master_wav_name = codes "lesson.wav"

abbrev pub m4a_name : Text
m4a_name = codes "lesson.m4a"

abbrev pub mp3_name : Text
mp3_name = codes "lesson.mp3"

abbrev pub transcript_name : Text
transcript_name = codes "transcript.txt"

abbrev pub captions_name : Text
captions_name = codes "transcript.vtt"

abbrev pub chapters_name : Text
chapters_name = codes "chapters.ffmetadata"

abbrev pub run_report_name : Text
run_report_name = codes "run-report.json"

abbrev pub package_artifact_names : List Text
package_artifact_names =
    master_wav_name ∷ m4a_name ∷ mp3_name ∷ transcript_name ∷ captions_name ∷ chapters_name
    ∷ run_report_name ∷ []

abbrev pub recorded_artifact : Text → StoredArtifact → RecordedArtifact
recorded_artifact required_name artifact = record {
  required_name = required_name;
  path = artifact.path;
  blake3 = artifact.blake3;
}

abbrev pub recorded_v2 : StoredArtifactsV2 → List RecordedArtifact → List RecordedArtifact
recorded_v2 artifacts more =
    recorded_artifact master_wav_name artifacts.master_wav
    ∷ recorded_artifact m4a_name artifacts.m4a
    ∷ recorded_artifact mp3_name artifacts.mp3
    ∷ recorded_artifact transcript_name artifacts.transcript
    ∷ recorded_artifact captions_name artifacts.captions
    ∷ recorded_artifact chapters_name artifacts.chapters
    ∷ more

abbrev pub recorded_segment : StoredManifestSegment → RecordedSegment
recorded_segment segment = record {
  segment_id = segment.segment_id;
  cache_key = segment.cache_key;
  audio_blake3 = segment.audio_blake3;
  synthesis_base_key = segment.synthesis_base_key;
  selected_take = some segment.selected_take;
  frames = segment.frames;
  written = some (record {
    start_frame = segment.start_frame;
    pause_after_ms = segment.pause_after_ms;
    pause_frames = segment.pause_frames;
  });
}

abbrev pub recorded_execution : StoredExecution → RecordedToolUse
recorded_execution execution = record {
  tool = execution.tool;
  arguments = execution.arguments;
  argument_profile_blake3 = some execution.argument_profile_blake3;
}

-- `From<StoredManifest> for PackageRecord`.
abbrev pub from_stored : StoredManifest → PackageRecord
from_stored manifest = record {
  release_status = manifest.release_status;
  lesson_id = manifest.lesson_id;
  build_attempt = some manifest.build_attempt;
  plan_hash = manifest.plan_hash;
  total_frames = some manifest.total_frames;
  text_renderer_version = some manifest.text_renderer_version;
  take_selection_source = some manifest.take_selection_source;
  segments = map recorded_segment manifest.segments;
  artifacts =
      recorded_v2 manifest.artifacts.others
        (recorded_artifact run_report_name manifest.artifacts.run_report ∷ []);
  ffmpeg = manifest.tools.ffmpeg;
  ffprobe = manifest.tools.ffprobe;
  executions = map recorded_execution manifest.tools.executions;
  redacted_arguments = false;
  joins = manifest.join_continuity;
}

-- `From<StoredManifestV2> for PackageRecord`.
abbrev pub from_stored_v2 : StoredManifestV2 → PackageRecord
from_stored_v2 manifest = record {
  release_status = manifest.release_status;
  lesson_id = manifest.lesson_id;
  build_attempt = none;
  plan_hash = manifest.plan_hash;
  total_frames = some manifest.total_frames;
  text_renderer_version = some manifest.text_renderer_version;
  take_selection_source = some manifest.take_selection_source;
  segments = map recorded_segment manifest.segments;
  artifacts = recorded_v2 manifest.artifacts [];
  ffmpeg = manifest.tools.ffmpeg;
  ffprobe = manifest.tools.ffprobe;
  executions = map recorded_execution manifest.tools.executions;
  redacted_arguments = false;
  joins = [];
}

abbrev pub legacy_segment : LegacyStoredSegment → RecordedSegment
legacy_segment segment = record {
  segment_id = segment.segment_id;
  cache_key = segment.cache_key;
  audio_blake3 = segment.audio_blake3;
  synthesis_base_key = segment.cache_key;
  selected_take = none;
  frames = segment.frames;
  written = none;
}

abbrev pub legacy_use : RecordedTool → LegacyStoredToolUse → RecordedToolUse
legacy_use which tool = record {
  tool = which;
  arguments = tool.arguments;
  argument_profile_blake3 = tool.argument_profile_blake3;
}

abbrev pub legacy_identity : LegacyStoredToolUse → StoredToolIdentity
legacy_identity tool = record {
  resolved_executable = tool.resolved_executable;
  version = tool.version;
}

abbrev pub legacy_record : LegacyStoredManifest → PackageRecord
legacy_record manifest = record {
  release_status = manifest.release_status;
  lesson_id = manifest.lesson_id;
  build_attempt = none;
  plan_hash = manifest.plan_hash;
  total_frames = none;
  text_renderer_version = none;
  take_selection_source = none;
  segments = map legacy_segment manifest.segments;
  artifacts =
      recorded_artifact master_wav_name manifest.master_wav
      ∷ recorded_artifact m4a_name manifest.m4a
      ∷ [];
  ffmpeg = legacy_identity manifest.ffmpeg;
  ffprobe = legacy_identity manifest.ffprobe;
  executions = legacy_use ffmpeg manifest.ffmpeg ∷ legacy_use ffprobe manifest.ffprobe ∷ [];
  redacted_arguments = false;
  joins = [];
}

-- `Path::is_absolute`, of an argument of an execution.
abbrev pub records_absolute_argument : RecordedToolUse → Bool
records_absolute_argument execution =
    any (λ argument. starts_with argument b'/') execution.arguments

-- The refusal of the first execution with an absolute argument.
unfoldable pub redacted : List RecordedToolUse → Result (Unit {0}) PackageError
redacted [] = ok tt
redacted (execution ∷ executions) =
    let rest = redacted executions in
    if records_absolute_argument execution
    then err (unredacted_package_tool_argument execution.tool)
    else rest

-- `serde_json` for the declared version and each layout.
pub record Parsers : Type 0 where
  pub version : Text → Option Text
  pub current : Text → Option StoredManifest
  pub without_report : Text → Option StoredManifestV2
  pub skeleton : Text → Option LegacyStoredManifest
  pub legacy : Text → Option LegacyStoredManifest

module _ (parsers : Parsers) where
  abbrev pub parse_manifest : {T : Type 0} → (Text → Option T) → Text → Result T PackageError
  parse_manifest parse bytes = ok_or (parse bytes) malformed_package_manifest

  abbrev pub parse_current : Text → Result PackageRecord PackageError
  parse_current bytes = do
    manifest ← parse_manifest parsers.current bytes
    redacted (from_stored manifest).executions
    ok (record (from_stored manifest) { redacted_arguments = true })

  abbrev pub parse_absolute : Text → Result PackageRecord PackageError
  parse_absolute bytes = do
    manifest ← parse_manifest parsers.current bytes
    ok (from_stored manifest)

  abbrev pub parse_without_report : Text → Result PackageRecord PackageError
  parse_without_report bytes = do
    manifest ← parse_manifest parsers.without_report bytes
    ok (from_stored_v2 manifest)

  abbrev pub parse_legacy :
      (Text → Option LegacyStoredManifest) → Text → Result PackageRecord PackageError
  parse_legacy parse bytes = do manifest ← parse_manifest parse bytes; ok (legacy_record manifest)

  unfoldable pub parse_stored_manifest : Text → Text → Result PackageRecord PackageError
  parse_stored_manifest bytes version =
      if text_eq version legacy_manifest_layout_version
      then parse_legacy parsers.legacy bytes
      else if text_eq version skeleton_manifest_layout_version
      then parse_legacy parsers.skeleton bytes
      else if text_eq version run_reportless_manifest_layout_version
      then parse_without_report bytes
      else if text_eq version absolute_path_manifest_layout_version
      then parse_absolute bytes
      else if text_eq version current_manifest_layout_version
      then parse_current bytes
      else err (unsupported_package_manifest version)
