-- ===== src/Cache/Entry.antt =====
-- crates/study-tts-runtime/src/cache.rs: `load_validated`, the checks of a published entry. Where it
-- fails, the source wraps the fault with the entry's directory and the segment.
use technical_tts.Prelude.{
  Bool, not, ◌||◌, Option, List, length, ◌==◌, Result, ok, ◌>>=◌, ◌>>◌, ok_or, refuse_if, map_err,
}
use technical_tts.Text.{Text, text_eq}
use technical_tts.Digest.{Digest, is_blake3_hex}
use technical_tts.Assembly.{CachedArtifact, canonical_sample_rate}
use technical_tts.Identity.{
  cache_schema_version, canonical_channels, canonical_sample_format, key_for,
}
use technical_tts.Plan.{PlannedSegment}
use technical_tts.Audio.{Signal, to_u32}
use technical_tts.Cache.{
  Wav, CacheEntryFault, unreadable_artifact, unparseable_artifact, incompatible_artifact,
  cache_key_mismatch, provenance_key_mismatch, frame_count_mismatch, malformed_recorded_digest,
  checksum_mismatch, audio, CacheArtifact, context_of,
}
use technical_tts.Cache.Audio.{validate_wav, check_endpoints, check_edge_silence}
use technical_tts.Cache.Conditioning.{check_declared_conditioning}

-- What the code uses of other crates: BLAKE3 in hexadecimal, `hound`'s reader and writer, and `serde` for
-- an artifact. A file is its bytes.
pub record Codec (s : Signal) : Type 0 where
  pub hash : Text → Digest
  pub open_wav : Text → Option (Wav s.Sample)
  pub write_wav : List s.Sample → Option Text
  pub parse : Text → Option CacheArtifact
  pub print : CacheArtifact → Text

abbrev pub is_compatible : CacheArtifact → Bool
is_compatible artifact = not (
    not (text_eq artifact.schema_version cache_schema_version)
    || not (artifact.sample_rate == canonical_sample_rate)
    || not (artifact.channels == canonical_channels)
    || not (text_eq artifact.sample_format canonical_sample_format))

module _ (s : Signal) (codec : Codec s) where
  open s use {Sample}
  open codec use {hash, open_wav, parse}

  -- The first five paths, over what the artifact records.
  unfoldable pub check_artifact :
      PlannedSegment → CacheArtifact → Result (Unit {0}) (CacheEntryFault Sample)
  check_artifact segment artifact =
      let derived = key_for hash (context_of artifact.provenance segment.speaker) segment in
      do
        refuse_if (not (is_blake3_hex artifact.audio_blake3))
            (malformed_recorded_digest artifact.audio_blake3)
        refuse_if (not (is_compatible artifact)) (
            incompatible_artifact artifact.schema_version artifact.sample_rate artifact.channels
              artifact.sample_format)
        refuse_if (not (text_eq artifact.cache_key segment.cache_key))
            (cache_key_mismatch artifact.cache_key segment.cache_key)
        refuse_if (not (text_eq derived artifact.cache_key))
            (provenance_key_mismatch artifact.cache_key derived)

  -- The sixth path, over the samples and the bytes of the audio.
  unfoldable pub check_samples :
      CacheArtifact → List Sample → Text → Result (Unit {0}) (CacheEntryFault Sample)
  check_samples artifact samples bytes = do
    map_err audio (check_endpoints s samples)
    map_err audio (check_edge_silence s samples)
    check_declared_conditioning s artifact.edge_conditioning samples
    refuse_if (not (to_u32 (length samples) == artifact.frames))
        (frame_count_mismatch (to_u32 (length samples)) artifact.frames)
    refuse_if (not (text_eq (hash bytes) artifact.audio_blake3))
        (checksum_mismatch (hash bytes) artifact.audio_blake3)

  abbrev pub loaded :
      PlannedSegment → (entry_dir audio_path : Text) → List Sample → Text → CachedArtifact
  loaded segment entry_dir audio_path samples bytes = record {
    segment_id = segment.id;
    cache_key = segment.cache_key;
    entry_dir = entry_dir;
    audio_path = audio_path;
    audio_blake3 = hash bytes;
    frames = to_u32 (length samples);
    pause_after_ms = segment.pause_after_ms;
  }

  -- The files are the artifact, `none` where it cannot be read, and the audio; audio that cannot be read
  -- is not opened as WAV.
  unfoldable pub load_validated :
      PlannedSegment
      → (entry_dir audio_path : Text) → Option Text
      → Text
      → Result CachedArtifact (CacheEntryFault Sample)
  load_validated segment entry_dir audio_path artifact_file bytes = do
    written ← ok_or artifact_file unreadable_artifact
    artifact ← ok_or (parse written) unparseable_artifact
    check_artifact segment artifact
    samples ← map_err audio (validate_wav s (open_wav bytes))
    check_samples artifact samples bytes
    ok (loaded segment entry_dir audio_path samples bytes)
