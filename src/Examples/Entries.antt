-- ===== src/Examples/Entries.antt =====
-- Ten samples of a worker, staged and loaded, over a signal of numbers.
use technical_tts.Prelude.{
  ℕ, ◌≡◌, ◌↔◌, refl, true, none, some, List, [], ◌∷◌, map, replicate, ok, if◌then◌else◌, ap, arith,
}
use technical_tts.Text.{Text, codes, text_eq}
use technical_tts.Map.{get}
use technical_tts.Digest.{Digest, is_blake3_hex}
use technical_tts.Lesson.{calm}
use technical_tts.Plan.{PlannedSegment}
use technical_tts.Assembly.{canonical_sample_rate}
use technical_tts.Identity.{
  SynthesisContext, reproducible, canonical_channels, canonical_bits_per_sample, segment_digest,
  canonical_digest, key_for,
}
use technical_tts.Audio.{
  measure_edge_silence, leading_silent_samples, trailing_silent_samples, leading_loop,
  trailing_loop, leading_ramp_loop, trailing_ramp_loop, modify, fill_front, fill_back, take, drop,
  condition_edges, apply_ramps, sub_usize, provisional,
}
use technical_tts.Examples.Edges.{
  numbers, numbers-IsLawful, ten, ten-AreApart, conditioned_ten, ten_padding,
}
use technical_tts.Cache.{CacheArtifact}
use technical_tts.Cache.Audio.{
  read_samples, validate_wav, check_exposed_endpoints, last_sample, check_endpoints,
  check_edge_silence_counts, check_edge_silence, check_segment_ceiling,
}
use technical_tts.Cache.Entry.{Codec, loaded, load_validated}
use technical_tts.Cache.Usable.{IsUsable, load_validated-ok_iff}
use technical_tts.Cache.Publish.{
  SynthesisReport, ConditionedStage, staged, condition_staged_audio, check_report, stage_entry,
}
use technical_tts.Cache.Published.{IsFaithful, stage_entry-load}

abbrev pub digest : Digest
digest = replicate 64 b'a'

abbrev pub context : SynthesisContext
context = record {
  worker_bundle_hash = digest;
  model_repository = codes "example/model";
  model_revision = codes "22";
  tokenizer_revision = codes "33";
  model_artifacts_hash = digest;
  language = codes "en";
  determinism_class = reproducible;
  seed = 7;
  generation_parameters = [];
  voice_conditioning_hashes = (codes "nadia", digest) ∷ [];
}

abbrev pub segment : PlannedSegment
segment = record {
  id = codes "seg-1";
  speaker = codes "nadia";
  voice_profile = codes "nadia-v1";
  display_text = codes "Hi.";
  spoken_text = codes "Hi.";
  style = calm;
  pause_after_ms = 500;
  take = 0;
  cache_key = digest;
  synthesis_base_key = digest;
  audio_blake3 = none;
}

abbrev pub report : SynthesisReport
report = record {
  sample_rate = 24000;
  channels = 1;
  frames = 10;
  backend_revision = codes "44";
  context = context;
  voice_profile = codes "nadia-v1";
  voice_conditioning_hash = digest;
}

abbrev pub written : Text
written = replicate 10 1

abbrev pub stage : ConditionedStage ℕ
stage = record {
  samples = conditioned_ten;
  bytes = conditioned_ten;
  frames = 490;
  conditioning = ten_padding;
}

-- A digest that is always the same, audio files that are their samples, and one artifact by its name.
abbrev codec_of : CacheArtifact → Codec (numbers 3)
codec_of artifact = record {
  hash = λ t. digest;
  open_wav = λ t. some (record {
    channels = canonical_channels;
    sample_rate = canonical_sample_rate;
    bits_per_sample = canonical_bits_per_sample;
    is_float = true;
    samples = map (λ x. some x) t;
  });
  write_wav = λ xs. some xs;
  parse = λ t. if text_eq t (codes "artifact") then some artifact else none;
  print = λ a. codes "artifact";
}

abbrev pub artifact : CacheArtifact
artifact = record {
  schema_version = codes "3.0";
  cache_key = digest;
  audio_blake3 = digest;
  sample_rate = 24000;
  channels = 1;
  sample_format = codes "f32le";
  frames = 490;
  edge_conditioning = record {
    leading_padding = 240;
    trailing_padding = 240;
    leading_ramp = 5;
    trailing_ramp = 5;
    calibration_source = provisional;
  };
  provenance = record {
    worker_bundle_hash = digest;
    model_repository = codes "example/model";
    model_revision = codes "22";
    tokenizer_revision = codes "33";
    model_artifacts_hash = digest;
    language = codes "en";
    determinism_class = reproducible;
    seed = 7;
    generation_parameters = [];
    voice_conditioning_hash = some digest;
    voice_profile = codes "nadia-v1";
    backend_revision = codes "44";
  };
}

abbrev pub codec : Codec (numbers 3)
codec = codec_of artifact

pub codec-IsFaithful : IsFaithful (numbers 3) codec
unfolding is_blake3_hex
codec-IsFaithful = record {
  hash_hex = λ t. refl;
  reopened = λ xs t h. let same : t ≡ xs = ground (arith, h) in ap codec.open_wav same;
}

pub entry_staged : stage_entry (numbers 3) codec segment report written ≡ ok (artifact, stage)
unfolding stage_entry condition_staged_audio staged check_report check_segment_ceiling
    check_endpoints check_exposed_endpoints last_sample check_edge_silence check_edge_silence_counts
    validate_wav read_samples condition_edges apply_ramps sub_usize measure_edge_silence
    leading_silent_samples trailing_silent_samples leading_loop trailing_loop leading_ramp_loop
    trailing_ramp_loop modify fill_front fill_back take drop get text_eq key_for segment_digest
    canonical_digest
entry_staged = refl

pub ten_heard : validate_wav (numbers 3) (codec.open_wav written) ≡ ok ten
unfolding validate_wav read_samples
ten_heard = refl

pub artifact_parsed : codec.parse (codec.print artifact) ≡ some artifact
unfolding text_eq
artifact_parsed = refl

stage_entry-load_example :
    load_validated
      (numbers 3)
      codec
      segment
      (codes "entry")
      (codes "entry/audio.wav")
      (some (codes "artifact"))
      conditioned_ten
    ≡ ok (
        loaded
          (numbers 3)
          codec
          segment
          (codes "entry")
          (codes "entry/audio.wav")
          conditioned_ten
          conditioned_ten)
stage_entry-load_example =
    stage_entry-load (numbers 3) (numbers-IsLawful 3) codec codec-IsFaithful segment (codes "entry")
      (codes "entry/audio.wav") report written ten artifact stage ten_heard ten-AreApart
      entry_staged artifact_parsed

load_validated-ok_iff_example :
    (load_validated
        (numbers 3)
        codec
        segment
        (codes "entry")
        (codes "entry/audio.wav")
        (some (codes "artifact"))
        conditioned_ten
      ≡ ok (
          loaded
            (numbers 3)
            codec
            segment
            (codes "entry")
            (codes "entry/audio.wav")
            conditioned_ten
            conditioned_ten))
    ↔ ((samples : List ℕ) × IsUsable
          (numbers 3)
          codec
          segment
          (some (codes "artifact"))
          conditioned_ten
          samples
        × (loaded
              (numbers 3)
              codec
              segment
              (codes "entry")
              (codes "entry/audio.wav")
              conditioned_ten
              conditioned_ten
            ≡ loaded
                (numbers 3)
                codec
                segment
                (codes "entry")
                (codes "entry/audio.wav")
                samples
                conditioned_ten))
load_validated-ok_iff_example =
    load_validated-ok_iff (numbers 3) codec segment (codes "entry") (codes "entry/audio.wav")
      (some (codes "artifact")) conditioned_ten
      (loaded (numbers 3) codec segment (codes "entry") (codes "entry/audio.wav") conditioned_ten
        conditioned_ten)
