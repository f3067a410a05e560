-- ===== src/Examples/Identity.antt =====
-- Canonical bytes and cache keys at concrete inputs.
use technical_tts.Prelude.{◌≡◌, refl, [], ◌∷◌}
use technical_tts.Text.{Text, codes}
use technical_tts.Text.Decimal.{to_decimal}
use technical_tts.Digest.{Digest}
use technical_tts.Canonical.{
  CanonicalValue, null, unsigned, array, object, no_element, element, no_entry, entry, write_value,
  write_elements, write_more_elements, write_entries, write_more_entries, write_json_string,
  canonical_bytes,
}
use technical_tts.Canonical.Unique.{canonical_bytes_injective}
use technical_tts.Identity.{SynthesisContext, reproducible}
use technical_tts.Identity.Inputs.{SameInputs, segment_digest-SameInputs}

abbrev sample_value : CanonicalValue
sample_value = object (
    entry (codes "absent") null (
      entry (codes "depth") (array (element (unsigned 1) (element (unsigned 20) no_element)))
        no_entry))

sample_bytes : canonical_bytes sample_value ≡ codes "{\"absent\":null,\"depth\":[1,20]}"
unfolding canonical_bytes write_value write_elements write_more_elements write_entries
    write_more_entries write_json_string to_decimal
sample_bytes = refl

canonical_bytes_injective_example : sample_value ≡ sample_value
canonical_bytes_injective_example = canonical_bytes_injective sample_value sample_value refl

abbrev sample_context : SynthesisContext
sample_context = record {
  worker_bundle_hash = codes "11";
  model_repository = codes "example/model";
  model_revision = codes "22";
  tokenizer_revision = codes "33";
  model_artifacts_hash = codes "44";
  language = codes "en";
  determinism_class = reproducible;
  seed = 7;
  generation_parameters = (codes "temperature", codes "0.5") ∷ [];
  voice_conditioning_hashes = (codes "nadia", codes "55") ∷ [];
}

abbrev plain_hash : Text → Digest
plain_hash bytes = bytes

segment_digest-SameInputs_example :
    SameInputs sample_context sample_context
      (codes "nadia")
      (codes "nadia")
      (codes "Hello.")
      (codes "Hello.")
      (codes "calm")
      (codes "calm")
      2
      2
segment_digest-SameInputs_example =
    segment_digest-SameInputs plain_hash (λ s t e. e) sample_context sample_context (codes "nadia")
      (codes "nadia") (codes "Hello.") (codes "Hello.") (codes "calm") (codes "calm") 2 2 refl
