-- ===== src/Cache/Published.antt =====
-- What is staged of a worker's audio, and that it is loaded.
use technical_tts.Prelude.{
  ◌-◌, ◌≤◌, ◌≡◌, refl, sym, ◌∙◌, subst, true, some, List, map, length, ok, ok_injective, inr, false,
  arith,
}
use technical_tts.Text.{Text}
use technical_tts.Digest.{is_blake3_hex}
use technical_tts.Assembly.{canonical_sample_rate}
use technical_tts.Identity.{canonical_channels, canonical_bits_per_sample}
use technical_tts.Plan.{PlannedSegment}
use technical_tts.Audio.{Signal, IsLawful, to_u32, AreApart}
use technical_tts.Audio.Silence.{measure_edge_silence-zeros}
use technical_tts.Audio.Speech.{IsConditioned}
use technical_tts.Audio.Conditioned.{condition_edges-IsConditioned}
use technical_tts.Cache.{CacheArtifact, max_segment_frames}
use technical_tts.Cache.Audio.{validate_wav}
use technical_tts.Cache.Read.{validate_wav-ok_iff}
use technical_tts.Cache.Recorded.{IsConditioned-IsDeclared}
use technical_tts.Cache.Entry.{Codec, loaded, load_validated}
use technical_tts.Cache.Compatible.{IsRecordOf}
use technical_tts.Cache.Audible.{IsAudioOf}
use technical_tts.Cache.Usable.{load_validated-ok_iff}
use technical_tts.Cache.Publish.{SynthesisReport, ConditionedStage, artifact_of, stage_entry}
use technical_tts.Cache.Staged.{stage_entry-IsStaged}
use technical_tts.Cache.Derived.{key_for-context_of}

module _ (s : Signal) where
  open s use {Sample, in_range}

  -- What `blake3` and `hound` promise: a digest is sixty-four hexadecimal digits, and a file that was
  -- written opens with its format and its samples.
  pub record IsFaithful (codec : Codec s) : Type 0 where
    pub hash_hex : (t : Text) → is_blake3_hex (codec.hash t) ≡ true
    pub reopened :
        (xs : List Sample) (t : Text)
        → codec.write_wav xs ≡ some t
        → codec.open_wav t
          ≡ some (record {
            channels = canonical_channels;
            sample_rate = canonical_sample_rate;
            bits_per_sample = canonical_bits_per_sample;
            is_float = true;
            samples = map (λ x. some x) xs;
          })

  IsConditioned-IsAudioOf :
      (lawful : IsLawful s) (codec : Codec s) (segment : PlannedSegment) (report : SynthesisReport)
      (xs : List Sample) (stage : ConditionedStage Sample)
      → IsConditioned s xs stage.samples stage.conditioning
      → stage.frames ≡ length stage.samples
      → length stage.samples ≤ max_segment_frames
      → IsAudioOf s codec (artifact_of s codec segment report stage) stage.samples stage.bytes
  IsConditioned-IsAudioOf lawful codec segment report xs stage w counted few =
      let ys = stage.samples in
      let long = w.long_enough in
      let quiet = measure_edge_silence-zeros s lawful ys long w.front_zero w.back_zero in
      let small : to_u32 (length ys) ≡ length ys = ground (arith, few) in
      record {
        first_zero = w.front_zero 0 (omega arith) (omega arith);
        last_zero = w.back_zero (length ys - 1) (omega arith) (omega arith);
        leading_silence = quiet.0;
        trailing_silence = quiet.1;
        declared = IsConditioned-IsDeclared s xs ys stage.conditioning w;
        frames = counted ∙ sym small;
        checksum = refl;
      }

  -- With a lawful signal, and `blake3`, `hound` and `serde` as they promise, an entry that was staged of
  -- audio whose measured silences do not overlap is loaded: it is not refused after it was published.
  pub stage_entry-load :
      (lawful : IsLawful s) (codec : Codec s) (faithful : IsFaithful codec)
      (segment : PlannedSegment) (entry_dir audio_path : Text) (report : SynthesisReport)
      (written : Text) (heard : List Sample) (artifact : CacheArtifact)
      (stage : ConditionedStage Sample)
      → validate_wav s (codec.open_wav written) ≡ ok heard
      → AreApart s heard
      → stage_entry s codec segment report written ≡ ok (artifact, stage)
      → codec.parse (codec.print artifact) ≡ some artifact
      → load_validated s codec segment entry_dir audio_path
          (some (codec.print artifact))
          stage.bytes
        ≡ ok (loaded s codec segment entry_dir audio_path stage.samples stage.bytes)
  stage_entry-load lawful codec faithful segment entry_dir audio_path report written heard artifact
        stage opened apart made parsed =
      let w = stage_entry-IsStaged s codec segment report written artifact stage made in
      let same : heard ≡ w.validated =
        ok_injective
          (sym opened ∙ (validate_wav-ok_iff s (codec.open_wav written) w.validated).1 w.wav) in
      let made_of = artifact_of s codec segment report stage in
      let good =
        condition_edges-IsConditioned s lawful false w.validated stage.samples stage.conditioning
          w.wav.ranged (inr (subst (AreApart s) same apart)) w.conditioned in
      let long = good.long_enough in
      let sounds : IsAudioOf s codec made_of stage.samples stage.bytes =
        IsConditioned-IsAudioOf lawful codec segment report w.validated stage good w.counted
          w.few_frames in
      let recorded : IsRecordOf codec.hash segment made_of = record {
        digest = faithful.hash_hex stage.bytes;
        schema = refl;
        rate = refl;
        mono = refl;
        format = refl;
        key = refl;
        derived = key_for-context_of codec.hash report segment ∙ w.named;
      } in
      (load_validated-ok_iff s codec segment entry_dir audio_path (some (codec.print artifact))
          stage.bytes (loaded s codec segment entry_dir audio_path stage.samples stage.bytes)).1
        (
          stage.samples,
          record {
            written = codec.print artifact;
            artifact = artifact;
            readable = refl;
            parsed = parsed;
            recorded = subst (IsRecordOf codec.hash segment) (sym w.recorded) recorded;
            wav = record {
              wav = _;
              opened = faithful.reopened stage.samples stage.bytes w.encoded;
              mono = refl;
              rate = refl;
              bits = refl;
              float = refl;
              read = refl;
              ranged = good.ranged;
              some_frames = omega arith;
              few_frames = w.few_frames;
            };
            sounds =
                subst (λ a. IsAudioOf s codec a stage.samples stage.bytes) (sym w.recorded) sounds;
          },
          refl,
        )
