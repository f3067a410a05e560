-- ===== src/Cache.antt =====
-- crates/study-tts-runtime/src/cache.rs: what an entry of the synthesis cache records, and the faults of
-- an entry (error/cache.rs) and of its audio (error/audio.rs). The faults leave out paths, the errors of
-- libraries and the constants of this build.
pub mod Audio
pub mod Conditioning
pub mod Entry
pub mod Publish
pub mod Derived
pub mod Recorded
pub mod Staged
pub mod Published
pub mod Resolve
pub mod Kept
pub mod Retained
pub mod Live
pub mod Compatible
pub mod Audible
pub mod Usable
pub mod Declared
pub mod Read
use technical_tts.Prelude.{ℕ, ◌*◌, ◌/◌, ◌≡◌, Bool, Option, none, some, List, [], ◌∷◌}
use technical_tts.Text.{Text}
use technical_tts.Map.{Map}
use technical_tts.Digest.{Digest}
use technical_tts.Assembly.{canonical_sample_rate}
use technical_tts.Identity.{DeterminismClass, SynthesisContext}
use technical_tts.Audio.{CalibrationSource, EdgeConditioning, max_segment_audio_ms}

-- `hound::WavReader`: the header, and the samples with `none` where one cannot be read.
pub record Wav (A : Type 0) : Type 0 where
  pub channels : ℕ
  pub sample_rate : ℕ
  pub bits_per_sample : ℕ
  pub is_float : Bool
  pub samples : List (Option A)

-- The numbers are `u32`, the names of an edge or a field `&'static str`.
pub data AudioFault (A : Type 0) : Type 0 where
  unreadable : AudioFault A
  non_canonical : (channels sample_rate bits_per_sample : ℕ) (is_float : Bool) → AudioFault A
  too_long : (frames max_frames : ℕ) → AudioFault A
  conditioned_too_long : (frames conditioned_frames max_frames : ℕ) → AudioFault A
  exposed_endpoint_not_zero : (edge : Text) (value : A) → AudioFault A
  insufficient_edge_silence : (edge : Text) (silence_frames required_frames : ℕ) → AudioFault A
  out_of_range_sample : (index : ℕ) (value : A) → AudioFault A
  no_frames : AudioFault A
  frame_count_overflow : AudioFault A

pub data CacheEntryFault (A : Type 0) : Type 0 where
  unreadable_artifact : CacheEntryFault A
  unparseable_artifact : CacheEntryFault A
  incompatible_artifact :
      (schema_version : Text) (sample_rate channels : ℕ) (sample_format : Text) → CacheEntryFault A
  cache_key_mismatch : (recorded required : Digest) → CacheEntryFault A
  provenance_key_mismatch : (recorded derived : Digest) → CacheEntryFault A
  frame_count_mismatch : (found declared : ℕ) → CacheEntryFault A
  malformed_recorded_digest : (recorded : Text) → CacheEntryFault A
  checksum_mismatch : (found declared : Digest) → CacheEntryFault A
  conditioning_outside_ratified_geometry :
      (field : Text) (declared permitted : ℕ) → CacheEntryFault A
  conditioning_inconsistent_with_audio :
      (field : Text) (declared minimum maximum : ℕ) → CacheEntryFault A
  conditioned_under_another_calibration :
      (recorded required : CalibrationSource) → CacheEntryFault A
  audio : AudioFault A → CacheEntryFault A

pub record RecordedConditioning : Type 0 where
  pub leading_padding : ℕ
  pub trailing_padding : ℕ
  pub leading_ramp : ℕ
  pub trailing_ramp : ℕ
  pub calibration_source : CalibrationSource

-- `RecordedConditioning::new`, under a threshold of this calibration.
abbrev pub new_recorded : EdgeConditioning → CalibrationSource → RecordedConditioning
new_recorded conditioning source = record {
  leading_padding = conditioning.leading_padding;
  trailing_padding = conditioning.trailing_padding;
  leading_ramp = conditioning.leading_ramp;
  trailing_ramp = conditioning.trailing_ramp;
  calibration_source = source;
}

pub record ArtifactProvenance : Type 0 where
  pub worker_bundle_hash : Digest
  pub model_repository : Text
  pub model_revision : Text
  pub tokenizer_revision : Text
  pub model_artifacts_hash : Digest
  pub language : Text
  pub determinism_class : DeterminismClass
  pub seed : ℕ
  pub generation_parameters : Map Text
  pub voice_conditioning_hash : Option Digest
  pub voice_profile : Text
  pub backend_revision : Text

-- `ArtifactProvenance::context`.
unfoldable pub context_of : ArtifactProvenance → Text → SynthesisContext
context_of provenance speaker = record {
  worker_bundle_hash = provenance.worker_bundle_hash;
  model_repository = provenance.model_repository;
  model_revision = provenance.model_revision;
  tokenizer_revision = provenance.tokenizer_revision;
  model_artifacts_hash = provenance.model_artifacts_hash;
  language = provenance.language;
  determinism_class = provenance.determinism_class;
  seed = provenance.seed;
  generation_parameters = provenance.generation_parameters;
  voice_conditioning_hashes = elim provenance.voice_conditioning_hash [
    | none ↦ []
    | some hash ↦ (speaker, hash) ∷ []
  ];
}

pub record CacheArtifact : Type 0 where
  pub schema_version : Text
  pub cache_key : Digest
  pub audio_blake3 : Text
  pub sample_rate : ℕ
  pub channels : ℕ
  pub sample_format : Text
  pub frames : ℕ
  pub edge_conditioning : RecordedConditioning
  pub provenance : ArtifactProvenance

-- 14,400,000, which is a `u32`.
abbrev pub max_segment_frames : ℕ
max_segment_frames = max_segment_audio_ms * canonical_sample_rate / 1000
