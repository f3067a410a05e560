-- ===== src/Cache/Publish.antt =====
-- crates/study-tts-runtime/src/cache.rs: what `synthesize_transaction` publishes of a worker's audio. The
-- staging and quarantine directories are left out.
use technical_tts.Prelude.{
  ℕ, Bool, false, not, ◌||◌, Option, none, some, List, length, ltb, ◌==◌, Result, ok, ◌>>=◌, ◌>>◌,
  ok_or, refuse_if, map_err,
}
use technical_tts.Text.{Text, text_eq}
use technical_tts.Digest.{Digest}
use technical_tts.Assembly.{CachedArtifact, canonical_sample_rate}
use technical_tts.Identity.{
  SynthesisContext, voice_conditioning_for, cache_schema_version, canonical_channels,
  canonical_sample_format, key_for,
}
use technical_tts.Plan.{PlannedSegment}
use technical_tts.Audio.{Signal, EdgeConditioning, provisional, max_u32, to_u32, condition_edges}
use technical_tts.Cache.{
  AudioFault, unreadable, frame_count_overflow, CacheEntryFault, ArtifactProvenance, CacheArtifact,
  new_recorded,
}
use technical_tts.Cache.Audio.{
  validate_wav, check_endpoints, check_edge_silence, check_segment_ceiling,
}
use technical_tts.Cache.Entry.{Codec, load_validated}

pub record SynthesisReport : Type 0 where
  pub sample_rate : ℕ
  pub channels : ℕ
  pub frames : ℕ
  pub backend_revision : Text
  pub context : SynthesisContext
  pub voice_profile : Text
  pub voice_conditioning_hash : Digest

-- `panicked` is a panic of `condition_edges`, and `unusable_conditioned` the `UnusableAudio` that is raised
-- once the conditioned audio was written back, with its bytes.
pub data StageFault (A : Type 0) : Type 0 where
  unusable_audio : AudioFault A → StageFault A
  unusable_conditioned : AudioFault A → (bytes : Text) → StageFault A
  synthesizer_report_mismatch :
      (segment_id : Text) (report : SynthesisReport) (written_frames : ℕ) → StageFault A
  conditioning_identity_contradiction :
      (segment_id : Text) (reported : Digest) (in_context : Option Digest) → StageFault A
  synthesizer_identity_mismatch : (segment_id : Text) (planned reported : Digest) → StageFault A
  entry_fault : CacheEntryFault A → StageFault A
  panicked : StageFault A

pub record ConditionedStage (A : Type 0) : Type 0 where
  pub samples : List A
  pub bytes : Text
  pub frames : ℕ
  pub conditioning : EdgeConditioning

-- `in_context != Some(&report.voice_conditioning_hash)`, negated.
abbrev pub names_same : Option Digest → Digest → Bool
names_same none reported = false
names_same (some in_context) reported = text_eq in_context reported

abbrev pub provenance_of : SynthesisReport → PlannedSegment → ArtifactProvenance
provenance_of report segment = record {
  worker_bundle_hash = report.context.worker_bundle_hash;
  model_repository = report.context.model_repository;
  model_revision = report.context.model_revision;
  tokenizer_revision = report.context.tokenizer_revision;
  model_artifacts_hash = report.context.model_artifacts_hash;
  language = report.context.language;
  determinism_class = report.context.determinism_class;
  seed = report.context.seed;
  generation_parameters = report.context.generation_parameters;
  voice_conditioning_hash = voice_conditioning_for report.context segment.speaker;
  voice_profile = report.voice_profile;
  backend_revision = report.backend_revision;
}

module _ (s : Signal) (codec : Codec s) where
  open s use {Sample}
  open codec use {hash, open_wav, write_wav, print}

  -- What follows the conditioner in `condition_staged_audio`.
  unfoldable pub staged :
      ℕ → List Sample → EdgeConditioning → Result (ConditionedStage Sample) (StageFault Sample)
  staged frames samples conditioning = do
    conditioned ← map_err unusable_audio (check_segment_ceiling s frames (length samples))
    bytes ← ok_or (write_wav samples) (unusable_audio unreadable)
    map_err (λ f. unusable_conditioned f bytes) (check_endpoints s samples)
    map_err (λ f. unusable_conditioned f bytes) (check_edge_silence s samples)
    ok (record {
      samples = samples;
      bytes = bytes;
      frames = conditioned;
      conditioning = conditioning;
    })

  -- In a build without overflow checks, as `[profile.release]` makes it.
  unfoldable pub condition_staged_audio :
      List Sample → Result (ConditionedStage Sample) (StageFault Sample)
  condition_staged_audio samples = do
    refuse_if (ltb max_u32 (length samples)) (unusable_audio frame_count_overflow)
    made ← ok_or (condition_edges s false samples canonical_sample_rate) panicked
    staged (length samples) made.0 made.1

  -- The gates between the worker's audio and its conditioning.
  unfoldable pub check_report :
      PlannedSegment → SynthesisReport → List Sample → Result (Unit {0}) (StageFault Sample)
  check_report segment report samples =
      let in_context = voice_conditioning_for report.context segment.speaker in
      let reported_key = key_for hash report.context segment in
      do
        refuse_if
            (not (report.sample_rate == canonical_sample_rate)
              || not (report.channels == canonical_channels)
              || not (report.frames == to_u32 (length samples)))
            (synthesizer_report_mismatch segment.id report (to_u32 (length samples)))
        refuse_if (not (names_same in_context report.voice_conditioning_hash)) (
            conditioning_identity_contradiction segment.id report.voice_conditioning_hash
              in_context)
        refuse_if (not (text_eq reported_key segment.cache_key))
            (synthesizer_identity_mismatch segment.id segment.cache_key reported_key)

  abbrev pub artifact_of :
      PlannedSegment → SynthesisReport → ConditionedStage Sample → CacheArtifact
  artifact_of segment report stage = record {
    schema_version = cache_schema_version;
    cache_key = segment.cache_key;
    audio_blake3 = hash stage.bytes;
    sample_rate = canonical_sample_rate;
    channels = canonical_channels;
    sample_format = canonical_sample_format;
    frames = stage.frames;
    edge_conditioning = new_recorded stage.conditioning provisional;
    provenance = provenance_of report segment;
  }

  -- From the bytes that a worker wrote to the artifact and the audio of the entry.
  unfoldable pub stage_entry :
      PlannedSegment
      → SynthesisReport
      → Text
      → Result (CacheArtifact × ConditionedStage Sample) (StageFault Sample)
  stage_entry segment report written = do
    validated ← map_err unusable_audio (validate_wav s (open_wav written))
    check_report segment report validated
    stage ← condition_staged_audio validated
    ok (artifact_of segment report stage, stage)

  -- What was published is loaded.
  unfoldable pub synthesize_transaction :
      PlannedSegment
      → (entry_dir audio_path : Text) → SynthesisReport
      → Text
      → Result CachedArtifact (StageFault Sample)
  unfolding stage_entry
  synthesize_transaction segment entry_dir audio_path report written = do
    entry ← stage_entry segment report written
    map_err entry_fault
        (load_validated s codec segment entry_dir audio_path (some (print entry.0)) entry.1.bytes)
