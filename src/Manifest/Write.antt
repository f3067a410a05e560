-- ===== src/Manifest/Write.antt =====
-- crates/study-tts-runtime/src/manifest.rs: `write`, up to the encoding of the manifest.
use technical_tts.Prelude.{
  ℕ, zero, suc, ◌-◌, Bool, true, false, ◌&&◌, Option, List, [], ◌∷◌, ◌++◌, map, length, ◌==◌,
  if◌then◌else◌, Result, ok, ◌>>=◌, ok_or,
}
use technical_tts.Text.{Text, codes}
use technical_tts.Digest.{Digest}
use technical_tts.Release.{private_preview}
use technical_tts.Plan.{PlannedSegment, RenderPlan}
use technical_tts.Assembly.{CachedArtifact, WrittenSegment, Timeline}
use technical_tts.Manifest.{RecordedTool, StoredToolIdentity, StoredJoin, PackageError, io_error}
use technical_tts.Manifest.Layouts.{
  StoredArtifact, StoredArtifacts, StoredManifestSegment, StoredExecution, StoredManifest,
}
use technical_tts.Manifest.Stored.{
  master_wav_name, m4a_name, mp3_name, transcript_name, captions_name, chapters_name,
  run_report_name,
}

abbrev pub staging_root_placeholder : Text
staging_root_placeholder = codes "{staging}"

-- `str::starts_with` at a text.
unfoldable pub starts_with_text : Text → Text → Bool
starts_with_text [] s = true
starts_with_text (p ∷ ps) [] = false
starts_with_text (p ∷ ps) (c ∷ s) = p == c && starts_with_text ps s

-- `str::replace` of a pattern that is not empty, with the bytes of a match that are left.
unfoldable pub replace_from : (skip : ℕ) → (pattern by : Text) → Text → Text
replace_from skip pattern by [] = []
replace_from (suc skip) pattern by (c ∷ s) = replace_from skip pattern by s
replace_from zero pattern by (c ∷ s) =
    let matched = replace_from (length pattern - 1) pattern by s in
    let rest = replace_from zero pattern by s in
    if starts_with_text pattern (c ∷ s) then by ++ matched else c ∷ rest

-- `with_staging_root_redacted`; a staging root is not empty.
abbrev pub with_staging_root_redacted : List Text → Text → List Text
with_staging_root_redacted arguments staging =
    map (replace_from 0 staging staging_root_placeholder) arguments

-- `RecordedExecution` with its `ToolExecution`.
pub record RecordedExecution : Type 0 where
  pub tool : RecordedTool
  pub arguments : List Text
  pub argument_profile_blake3 : Digest

-- `ManifestRecords`, with the path of the package directory and the version of the renderer.
pub record ManifestRecords : Type 0 where
  pub lesson_id : Text
  pub build_attempt : ℕ
  pub plan : RenderPlan
  pub segments : List CachedArtifact
  pub timeline : Timeline
  pub package_dir : Text
  pub ffmpeg : StoredToolIdentity
  pub ffprobe : StoredToolIdentity
  pub executions : List RecordedExecution
  pub joins : List StoredJoin
  pub text_renderer_version : Text

-- A segment as cached, as planned and as written.
abbrev pub manifest_segment :
    CachedArtifact → PlannedSegment → WrittenSegment → StoredManifestSegment
manifest_segment segment planned written = record {
  segment_id = segment.segment_id;
  cache_key = segment.cache_key;
  selected_take = planned.take;
  synthesis_base_key = planned.synthesis_base_key;
  audio_blake3 = segment.audio_blake3;
  frames = segment.frames;
  pause_after_ms = segment.pause_after_ms;
  start_frame = written.start_frame;
  pause_frames = written.pause_frames;
}

-- `zip` ends with the shortest.
abbrev pub manifest_segments :
    List CachedArtifact → List PlannedSegment → List WrittenSegment → List StoredManifestSegment
manifest_segments (s ∷ ss) (p ∷ ps) (w ∷ ws) = manifest_segment s p w ∷ manifest_segments ss ps ws
manifest_segments _ _ _ = []

abbrev pub execution_record : Text → RecordedExecution → StoredExecution
execution_record package_dir recorded = record {
  tool = recorded.tool;
  arguments = with_staging_root_redacted recorded.arguments package_dir;
  argument_profile_blake3 = recorded.argument_profile_blake3;
}

-- The manifest of the records, with the artifacts of its package.
abbrev pub manifest_of : ManifestRecords → StoredArtifacts → StoredManifest
manifest_of records artifacts = record {
  release_status = private_preview;
  lesson_id = records.lesson_id;
  build_attempt = records.build_attempt;
  plan_hash = records.plan.plan_hash;
  take_selection_source = records.plan.take_selection_source;
  text_renderer_version = records.text_renderer_version;
  total_frames = records.timeline.total_frames;
  segments = manifest_segments records.segments records.plan.segments records.timeline.segments;
  join_continuity = records.joins;
  artifacts = artifacts;
  tools = record {
    ffmpeg = records.ffmpeg;
    ffprobe = records.ffprobe;
    executions = map (execution_record records.package_dir) records.executions;
  };
}

-- Six artifacts and the run report.
abbrev pub artifacts_in :
    (master_wav m4a mp3 transcript captions chapters run_report : StoredArtifact) → StoredArtifacts
artifacts_in master_wav m4a mp3 transcript captions chapters run_report = record {
  others = record {
    master_wav = master_wav;
    m4a = m4a;
    mp3 = mp3;
    transcript = transcript;
    captions = captions;
    chapters = chapters;
  };
  run_report = run_report;
}

module _ (files : Text → Option Text) (hash : Text → Digest) where
  unfoldable pub artifact : Text → Result StoredArtifact PackageError
  artifact name = do
    bytes ← ok_or (files name) (io_error name)
    ok (record { path = name; blake3 = hash bytes })

  unfoldable pub artifacts_of : Result StoredArtifacts PackageError
  artifacts_of = do
    master_wav ← artifact master_wav_name
    m4a ← artifact m4a_name
    mp3 ← artifact mp3_name
    transcript ← artifact transcript_name
    captions ← artifact captions_name
    chapters ← artifact chapters_name
    run_report ← artifact run_report_name
    ok (artifacts_in master_wav m4a mp3 transcript captions chapters run_report)

  unfoldable pub write : ManifestRecords → Result StoredManifest PackageError
  write records = do artifacts ← artifacts_of; ok (manifest_of records artifacts)
