-- ===== src/Cache/Usable.antt =====
-- What `load_validated` accepts.
use technical_tts.Prelude.{
  ◌≡◌, ◌↔◌, refl, ap, sym, Option, some, List, Result, ok, ◌>>=◌, ◌>>◌, ok_or, ok_or-ok,
  ok_injective, then-ok_iff, bind-ok_iff, map_err, map_err-ok_iff,
}
use technical_tts.Text.{Text}
use technical_tts.Assembly.{CachedArtifact}
use technical_tts.Plan.{PlannedSegment}
use technical_tts.Audio.{Signal}
use technical_tts.Cache.{
  AudioFault, CacheEntryFault, unreadable_artifact, unparseable_artifact, audio, CacheArtifact,
}
use technical_tts.Cache.Audio.{validate_wav}
use technical_tts.Cache.Read.{IsWavOf, validate_wav-ok_iff}
use technical_tts.Cache.Entry.{Codec, check_artifact, check_samples, loaded, load_validated}
use technical_tts.Cache.Compatible.{IsRecordOf, check_artifact-ok_iff}
use technical_tts.Cache.Audible.{IsAudioOf, check_samples-ok_iff}

module _ (s : Signal) where
  open s use {Sample}

  module _ (codec : Codec s) where
    open codec use {hash, open_wav, parse}

    pub record IsUsable (segment : PlannedSegment) (artifact_file : Option Text) (bytes : Text)
        (samples : List Sample) : Type 0 where
      pub written : Text
      pub artifact : CacheArtifact
      pub readable : artifact_file ≡ some written
      pub parsed : parse written ≡ some artifact
      pub recorded : IsRecordOf hash segment artifact
      pub wav : IsWavOf s (open_wav bytes) samples
      pub sounds : IsAudioOf s codec artifact samples bytes

    -- Behind the artifact that was parsed.
    checked-ok_iff :
        (segment : PlannedSegment) (entry_dir audio_path bytes : Text) (made : CacheArtifact)
        (artifact : CachedArtifact)
        → ((check_artifact s codec segment made
              >> (map_err audio (validate_wav s (open_wav bytes)) >>= λ xs.
                  check_samples s codec made xs bytes
                  >> ok (loaded s codec segment entry_dir audio_path xs bytes)))
            ≡ ok artifact)
          ↔ (IsRecordOf hash segment made
              × (samples : List Sample) × IsWavOf s (open_wav bytes) samples
              × IsAudioOf s codec made samples bytes
              × (artifact ≡ loaded s codec segment entry_dir audio_path samples bytes))
    checked-ok_iff segment entry_dir audio_path bytes made artifact =
        let wrap : AudioFault Sample → CacheEntryFault Sample = λ f. audio f in
        let answer = λ (xs : List Sample). loaded s codec segment entry_dir audio_path xs bytes in
        let heard : List Sample → Result CachedArtifact (CacheEntryFault Sample) =
          λ xs. check_samples s codec made xs bytes >> ok (answer xs) in
        let wav = validate_wav s (open_wav bytes) in
        let read = map_err wrap wav in
        let first = then-ok_iff (check_artifact s codec segment made) (read >>= heard) artifact in
        let second = bind-ok_iff read heard artifact in
        let third = λ (xs : List Sample).
          then-ok_iff (check_samples s codec made xs bytes) (ok (answer xs)) artifact in
        let record_iff = check_artifact-ok_iff s codec segment made in
        let opened_iff = λ (xs : List Sample). map_err-ok_iff wrap wav xs in
        let wav_iff = validate_wav-ok_iff s (open_wav bytes) in
        let audio_iff = λ (xs : List Sample). check_samples-ok_iff s codec made xs bytes in
        (
          (λ h.
              let (a, h₁) = first.0 h in
              let (xs, b, h₂) = second.0 h₁ in
              let (c, same) = (third xs).0 h₂ in
              (
                record_iff.0 a,
                xs,
                (wav_iff xs).0 ((opened_iff xs).0 b),
                (audio_iff xs).0 c,
                sym (ok_injective same),
              )),
          (λ (a, xs, b, c, same). first.1 (
            record_iff.1 a,
            second.1 (
              xs,
              (opened_iff xs).1 ((wav_iff xs).1 b),
              (third xs).1 ((audio_iff xs).1 c, ap (λ x. ok x) (sym same)),
            ),
          )),
        )

    -- An entry is loaded exactly where its artifact is readable, has a digest, the schema and the format
    -- of this build, and the key of the segment, which its provenance derives as well; its audio is
    -- canonical, in range and no longer than ten minutes, silent for 10 ms at each edge, conditioned in a
    -- way that its record may describe, and has the recorded frames and digest. What is loaded is the
    -- segment with the digest and the frames of the audio.
    pub load_validated-ok_iff :
        (segment : PlannedSegment) (entry_dir audio_path : Text) (artifact_file : Option Text)
        (bytes : Text) (artifact : CachedArtifact)
        → (load_validated s codec segment entry_dir audio_path artifact_file bytes ≡ ok artifact)
          ↔ ((samples : List Sample) × IsUsable segment artifact_file bytes samples
              × (artifact ≡ loaded s codec segment entry_dir audio_path samples bytes))
    unfolding load_validated
    load_validated-ok_iff segment entry_dir audio_path artifact_file bytes artifact =
        let checked : CacheArtifact → Result CachedArtifact (CacheEntryFault Sample) = λ a.
          check_artifact s codec segment a
          >> (map_err audio (validate_wav s (open_wav bytes)) >>= λ xs.
              check_samples s codec a xs bytes
              >> ok (loaded s codec segment entry_dir audio_path xs bytes)) in
        let opened : Text → Result CachedArtifact (CacheEntryFault Sample) =
          λ t. ok_or (parse t) unparseable_artifact >>= checked in
        let first = bind-ok_iff (ok_or artifact_file unreadable_artifact) opened artifact in
        let second =
          λ (t : Text). bind-ok_iff (ok_or (parse t) unparseable_artifact) checked artifact in
        let third =
          λ (a : CacheArtifact). checked-ok_iff segment entry_dir audio_path bytes a artifact in
        (
          (λ h.
              let (written, a, h₁) = first.0 h in
              let (made, b, h₂) = (second written).0 h₁ in
              let (recorded, xs, wav, sounds, same) = (third made).0 h₂ in
              (
                xs,
                record {
                  written = written;
                  artifact = made;
                  readable = ok_or-ok artifact_file unreadable_artifact written a;
                  parsed = ok_or-ok (parse written) unparseable_artifact made b;
                  recorded = recorded;
                  wav = wav;
                  sounds = sounds;
                },
                same,
              )),
          (λ (xs, w, same). first.1 (
            w.written,
            rw w.readable refl,
            (second w.written).1 (
              w.artifact,
              rw w.parsed refl,
              (third w.artifact).1 (w.recorded, xs, w.wav, w.sounds, same),
            ),
          )),
        )
