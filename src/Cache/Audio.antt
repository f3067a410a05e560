-- ===== src/Cache/Audio.antt =====
-- crates/study-tts-runtime/src/cache.rs: the checks of one segment's audio.
use technical_tts.Prelude.{
  ℕ, suc, Bool, true, false, not, ◌||◌, Option, none, some, List, [], ◌∷◌, leb, ltb, ◌==◌, Result,
  ok, err, ◌>>=◌, ◌>>◌, refuse_if, for_each,
}
use technical_tts.Text.{Text, codes}
use technical_tts.Assembly.{canonical_sample_rate}
use technical_tts.Identity.{canonical_channels, canonical_bits_per_sample}
use technical_tts.Audio.{
  Signal, max_u32, to_u32, samples_for, required_edge_silence_ms, measure_edge_silence,
}
use technical_tts.Cache.{
  Wav, AudioFault, unreadable, non_canonical, too_long, conditioned_too_long,
  exposed_endpoint_not_zero, insufficient_edge_silence, out_of_range_sample, no_frames,
  frame_count_overflow, max_segment_frames,
}

module _ (s : Signal) where
  open s use {Sample, is_zero, in_range}

  -- The loop of `validate_wav`, with the number of samples that were read.
  unfoldable pub read_samples : ℕ → List (Option Sample) → Result (List Sample) (AudioFault Sample)
  read_samples index [] = ok []
  read_samples index (none ∷ rest) = err unreadable
  read_samples index (some value ∷ rest) = do
    refuse_if (ltb max_u32 index) frame_count_overflow
    refuse_if (not (in_range value)) (out_of_range_sample index value)
    refuse_if (leb max_segment_frames index) (too_long (to_u32 (suc index)) max_segment_frames)
    samples ← read_samples (suc index) rest
    ok (value ∷ samples)

  abbrev pub is_nothing : List Sample → Bool
  is_nothing [] = true
  is_nothing (x ∷ xs) = false

  abbrev pub is_canonical : Wav Sample → Bool
  is_canonical wav = not (
      not (wav.channels == canonical_channels)
      || not (wav.sample_rate == canonical_sample_rate)
      || not (wav.bits_per_sample == canonical_bits_per_sample)
      || not wav.is_float)

  -- `none` is a file that cannot be opened as WAV.
  unfoldable pub validate_wav : Option (Wav Sample) → Result (List Sample) (AudioFault Sample)
  validate_wav none = err unreadable
  validate_wav (some wav) = do
    refuse_if (not (is_canonical wav))
        (non_canonical wav.channels wav.sample_rate wav.bits_per_sample wav.is_float)
    samples ← read_samples 0 wav.samples
    refuse_if (is_nothing samples) no_frames
    ok samples

  abbrev pub check_endpoint : Text × Sample → Result (Unit {0}) (AudioFault Sample)
  check_endpoint (edge, value) =
      refuse_if (not (is_zero value)) (exposed_endpoint_not_zero edge value)

  unfoldable pub check_exposed_endpoints : Sample → Sample → Result (Unit {0}) (AudioFault Sample)
  check_exposed_endpoints first last =
      for_each check_endpoint ((codes "first", first) ∷ (codes "last", last) ∷ [])

  -- `samples[samples.len() - 1]` of a sample and those behind it.
  unfoldable pub last_sample : Sample → List Sample → Sample
  last_sample x [] = x
  last_sample x (y ∷ ys) = last_sample y ys

  -- The check of `samples[0]` and the last sample; both callers hold a sample at least.
  unfoldable pub check_endpoints : List Sample → Result (Unit {0}) (AudioFault Sample)
  check_endpoints [] = ok tt
  check_endpoints (x ∷ xs) = check_exposed_endpoints x (last_sample x xs)

  abbrev pub check_silence : ℕ → Text × ℕ → Result (Unit {0}) (AudioFault Sample)
  check_silence required (edge, measured) =
      refuse_if (ltb measured required)
        (insufficient_edge_silence edge (to_u32 measured) (to_u32 required))

  unfoldable pub check_edge_silence_counts : ℕ → ℕ → Result (Unit {0}) (AudioFault Sample)
  check_edge_silence_counts leading trailing =
      for_each (check_silence (samples_for required_edge_silence_ms canonical_sample_rate))
        ((codes "first", leading) ∷ (codes "last", trailing) ∷ [])

  unfoldable pub check_edge_silence : List Sample → Result (Unit {0}) (AudioFault Sample)
  check_edge_silence samples =
      let (leading, trailing) = measure_edge_silence s samples canonical_sample_rate in
      check_edge_silence_counts leading trailing

  unfoldable pub check_segment_ceiling : ℕ → ℕ → Result ℕ (AudioFault Sample)
  check_segment_ceiling frames conditioned = do
    refuse_if (ltb max_u32 conditioned) frame_count_overflow
    refuse_if (ltb max_segment_frames conditioned)
        (conditioned_too_long frames conditioned max_segment_frames)
    ok conditioned
