-- ===== src/Cache/Compatible.antt =====
-- What `check_artifact` accepts.
use technical_tts.Prelude.{
  ◌≡◌, ◌↔◌, sym, ◌∙◌, true, not, ◌==◌, ==_iff, Result, ok, ◌>>◌, refuse_if, refuse_not-ok_iff,
  refuse_not-then_iff,
}
use technical_tts.Text.{Text, text_eq, text_eq_iff}
use technical_tts.Digest.{Digest, is_blake3_hex}
use technical_tts.Assembly.{canonical_sample_rate}
use technical_tts.Identity.{
  cache_schema_version, canonical_channels, canonical_sample_format, key_for,
}
use technical_tts.Plan.{PlannedSegment}
use technical_tts.Audio.{Signal}
use technical_tts.Cache.{CacheEntryFault, CacheArtifact, context_of}
use technical_tts.Cache.Read.{not_or-true_iff}
use technical_tts.Cache.Entry.{Codec, is_compatible, check_artifact}

-- What an artifact records where its segment may use it.
pub record IsRecordOf (hash : Text → Digest) (segment : PlannedSegment) (artifact : CacheArtifact)
    : Type 0 where
  pub digest : is_blake3_hex artifact.audio_blake3 ≡ true
  pub schema : artifact.schema_version ≡ cache_schema_version
  pub rate : artifact.sample_rate ≡ canonical_sample_rate
  pub mono : artifact.channels ≡ canonical_channels
  pub format : artifact.sample_format ≡ canonical_sample_format
  pub key : artifact.cache_key ≡ segment.cache_key
  pub derived :
      key_for hash (context_of artifact.provenance segment.speaker) segment ≡ segment.cache_key

is_compatible_iff :
    (artifact : CacheArtifact)
    → (is_compatible artifact ≡ true) ↔ (
        (artifact.schema_version ≡ cache_schema_version)
        × (artifact.sample_rate ≡ canonical_sample_rate)
        × (artifact.channels ≡ canonical_channels)
        × (artifact.sample_format ≡ canonical_sample_format))
is_compatible_iff artifact =
    let four =
      not_or-true_iff (text_eq artifact.schema_version cache_schema_version)
        (artifact.sample_rate == canonical_sample_rate) (artifact.channels == canonical_channels)
        (text_eq artifact.sample_format canonical_sample_format) in
    let schema = text_eq_iff artifact.schema_version cache_schema_version in
    let rate = ==_iff artifact.sample_rate canonical_sample_rate in
    let mono = ==_iff artifact.channels canonical_channels in
    let format = text_eq_iff artifact.sample_format canonical_sample_format in
    (
      (λ h. let (a, b, c, d) = four.0 h in (schema.0 a, rate.0 b, mono.0 c, format.0 d)),
      (λ (a, b, c, d). four.1 (schema.1 a, rate.1 b, mono.1 c, format.1 d)),
    )

module _ (s : Signal) where
  open s use {Sample}

  module _ (codec : Codec s) where
    open codec use {hash, open_wav, parse}

    pub check_artifact-ok_iff :
        (segment : PlannedSegment) (artifact : CacheArtifact)
        → (check_artifact s codec segment artifact ≡ ok tt) ↔ IsRecordOf hash segment artifact
    unfolding check_artifact
    check_artifact-ok_iff segment artifact =
        let derived = key_for hash (context_of artifact.provenance segment.speaker) segment in
        let r₄ : Result (Unit {0}) (CacheEntryFault Sample) =
          refuse_if (not (text_eq derived artifact.cache_key)) _ in
        let r₃ = refuse_if (not (text_eq artifact.cache_key segment.cache_key)) _ >> r₄ in
        let r₂ = refuse_if (not (is_compatible artifact)) _ >> r₃ in
        let first = refuse_not-then_iff (is_blake3_hex artifact.audio_blake3) _ r₂ tt in
        let second = refuse_not-then_iff (is_compatible artifact) _ r₃ tt in
        let third = refuse_not-then_iff (text_eq artifact.cache_key segment.cache_key) _ r₄ tt in
        let last = refuse_not-ok_iff (text_eq derived artifact.cache_key) _ in
        let key = text_eq_iff artifact.cache_key segment.cache_key in
        let same = text_eq_iff derived artifact.cache_key in
        let four = is_compatible_iff artifact in
        (
          (λ h.
              let (a, h₁) = first.0 h in
              let (b, h₂) = second.0 h₁ in
              let (c, d) = third.0 h₂ in
              let (e, f, g, i) = four.0 b in
              record {
                digest = a;
                schema = e;
                rate = f;
                mono = g;
                format = i;
                key = key.0 c;
                derived = same.0 (last.0 d) ∙ key.0 c;
              }),
          (λ w. first.1 (
            w.digest,
            second.1 (
              four.1 (w.schema, w.rate, w.mono, w.format),
              third.1 (key.1 w.key, last.1 (same.1 (w.derived ∙ sym w.key))),
            ),
          )),
        )
