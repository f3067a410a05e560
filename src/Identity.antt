-- ===== src/Identity.antt =====
-- crates/study-tts-core/src/identity.rs: what a synthesized segment is cached under.
pub mod Inputs
use technical_tts.Prelude.{
  ℕ, ◌≡◌, Bool, true, false, not, ◌&&◌, ◌||◌, Option, none, some, List, [], ◌∷◌, map, length, all,
  any, leb, ltb, ◌==◌, ◌+◌, if◌then◌else◌, Result, ok, err,
}
use technical_tts.Text.{Text, codes, is_empty, is_upper, text_eq}
use technical_tts.Map.{Map, get}
use technical_tts.Digest.{Digest}
use technical_tts.Assembly.{canonical_sample_rate}
use technical_tts.Canonical.{
  CanonicalValue, unsigned, text, object, entries, optional, object_of, canonical_bytes,
}
use technical_tts.Plan.{PlannedSegment}
use technical_tts.Lesson.{DeliveryStyle, style_name}

abbrev pub synthesis_identity_version : Text
synthesis_identity_version = codes "e1-s5-v1"

abbrev pub cache_schema_version : Text
cache_schema_version = codes "3.0"

-- The other three constants of the canonical format, of plan.rs.
abbrev pub canonical_channels : ℕ
canonical_channels = 1

abbrev pub canonical_sample_format : Text
canonical_sample_format = codes "f32le"

abbrev pub canonical_bits_per_sample : ℕ
canonical_bits_per_sample = 32

pub data DeterminismClass : Type 0 where
  reproducible seeded_nondeterministic : DeterminismClass

unfoldable pub class_name : DeterminismClass → Text
class_name reproducible = codes "reproducible"
class_name seeded_nondeterministic = codes "seeded_nondeterministic"

abbrev pub max_revision_bytes : ℕ
max_revision_bytes = 64

unfoldable pub moving_refs : List Text
moving_refs = codes "dev" ∷ codes "head" ∷ codes "latest" ∷ codes "main" ∷ codes "master" ∷ []

pub data MalformedRevision : Type 0 where
  unusable : Text → MalformedRevision
  moving_ref : Text → MalformedRevision

-- `is_ascii_graphic` and `eq_ignore_ascii_case`.
abbrev pub is_graphic : ℕ → Bool
is_graphic b = leb 33 b && leb b 126

abbrev pub lower : ℕ → ℕ
lower b = if is_upper b then b + 32 else b

abbrev pub eq_ignore_case : Text → Text → Bool
eq_ignore_case s t = text_eq (map lower s) (map lower t)

-- `FromStr` for `Revision`.
unfoldable pub parse_revision : Text → Result Text MalformedRevision
parse_revision value =
    if is_empty value || ltb max_revision_bytes (length value) || not (all is_graphic value)
    then err (unusable value)
    else if any (eq_ignore_case value) moving_refs
    then err (moving_ref value)
    else ok value

-- `seed` is a `u64`.
pub record SynthesisContext : Type 0 where
  pub worker_bundle_hash : Digest
  pub model_repository : Text
  pub model_revision : Text
  pub tokenizer_revision : Text
  pub model_artifacts_hash : Digest
  pub language : Text
  pub determinism_class : DeterminismClass
  pub seed : ℕ
  pub generation_parameters : Map Text
  pub voice_conditioning_hashes : Map Digest

abbrev pub voice_conditioning_for : SynthesisContext → Text → Option Digest
voice_conditioning_for context speaker = get speaker context.voice_conditioning_hashes

-- The parameters as an object; they are a `BTreeMap` already.
abbrev pub parameters : Map Text → CanonicalValue
parameters m = object (entries (map (λ p. (p.0, text p.1)) m))

-- The fields of `segment_digest`.
abbrev pub segment_fields : SynthesisContext → Text → Text → Text → ℕ → List (Text × CanonicalValue)
segment_fields context speaker spoken_text style take =
    (codes "identity_version", text synthesis_identity_version)
    ∷ (codes "cache_schema_version", text cache_schema_version)
    ∷ (codes "worker_bundle_hash", text context.worker_bundle_hash)
    ∷ (codes "model_repository", text context.model_repository)
    ∷ (codes "model_revision", text context.model_revision)
    ∷ (codes "tokenizer_revision", text context.tokenizer_revision)
    ∷ (codes "model_artifacts_hash", text context.model_artifacts_hash)
    ∷ (codes "voice_conditioning_hash", optional (voice_conditioning_for context speaker))
    ∷ (codes "speaker", text speaker)
    ∷ (codes "language", text context.language)
    ∷ (codes "spoken_text", text spoken_text)
    ∷ (codes "style", text style)
    ∷ (codes "generation_parameters", parameters context.generation_parameters)
    ∷ (codes "seed", unsigned context.seed)
    ∷ (codes "determinism_class", text (class_name context.determinism_class))
    ∷ (codes "take", unsigned take)
    ∷ (codes "sample_rate", unsigned canonical_sample_rate)
    ∷ (codes "channels", unsigned canonical_channels)
    ∷ (codes "sample_format", text canonical_sample_format)
    ∷ (codes "bits_per_sample", unsigned canonical_bits_per_sample)
    ∷ []

-- `hash` is BLAKE3 with its hexadecimal spelling.
module _ (hash : Text → Digest) where
  unfoldable pub canonical_digest : CanonicalValue → Digest
  canonical_digest v = hash (canonical_bytes v)

  unfoldable pub segment_digest : SynthesisContext → Text → Text → Text → ℕ → Digest
  unfolding canonical_digest
  segment_digest context speaker spoken_text style take =
      canonical_digest (object_of (segment_fields context speaker spoken_text style take))

  unfoldable pub key_for : SynthesisContext → PlannedSegment → Digest
  key_for context segment =
      segment_digest context segment.speaker segment.spoken_text (style_name segment.style)
        segment.take
