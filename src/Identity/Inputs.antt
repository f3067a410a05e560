-- ===== src/Identity/Inputs.antt =====
-- A cache key determines everything that it was derived from.
use technical_tts.Prelude.{
  ℕ, ◌≡◌, refl, sym, ap, ◌∙◌, false, Option, none, some, List, [], ◌∷◌, map, arith,
}
use technical_tts.Text.{Text, codes, text_eq, text_cmp}
use technical_tts.Map.{Map, get, insert, extend, collect}
use technical_tts.Digest.{Digest}
use technical_tts.Canonical.{
  CanonicalValue, null, unsigned, text, object, Entries, no_entry, entry, entries, optional,
  is_written_twice, object_of,
}
use technical_tts.Canonical.Unique.{canonical_bytes_injective}
use technical_tts.Identity.{
  DeterminismClass, reproducible, seeded_nondeterministic, SynthesisContext, voice_conditioning_for,
  parameters, class_name, segment_fields, canonical_digest, segment_digest,
}

-- The assertion on the keys of an object holds for the fields of a key.
fields_written_once :
    (context : SynthesisContext) (speaker spoken style : Text) (take : ℕ)
    → is_written_twice [] (segment_fields context speaker spoken style take) ≡ false
unfolding text_eq text_cmp get insert
fields_written_once context speaker spoken style take = refl

-- The map of an object's entries.
abbrev map_of : Entries → Map CanonicalValue
map_of no_entry = []
map_of (entry k v es) = (k, v) ∷ map_of es

map_of-entries : (m : Map CanonicalValue) → map_of (entries m) ≡ m
map_of-entries [] = refl
map_of-entries ((k, v) ∷ m) = ap (λ x. (k, v) ∷ x) (map_of-entries m)

abbrev fields_of : CanonicalValue → Map CanonicalValue
fields_of (object es) = map_of es
fields_of _ = []

same_fields :
    (es fs : List (Text × CanonicalValue)) → object_of es ≡ object_of fs → collect es ≡ collect fs
unfolding object_of
same_fields es fs e =
    sym (map_of-entries (collect es)) ∙ ap fields_of e ∙ map_of-entries (collect fs)

-- The value of a field.
abbrev field : Text → Map CanonicalValue → CanonicalValue
field k m = elim (get k m) [ none ↦ null | some v ↦ v ]

abbrev text_value : CanonicalValue → Text
text_value (text s) = s
text_value _ = []

abbrev number_value : CanonicalValue → ℕ
number_value (unsigned n) = n
number_value _ = 0

abbrev optional_value : CanonicalValue → Option Text
optional_value (text s) = some s
optional_value _ = none

abbrev text_values : Map CanonicalValue → Map Text
text_values = map (λ p. (p.0, text_value p.1))

optional-inverse : (o : Option Text) → optional_value (optional o) ≡ o
optional-inverse none = refl
optional-inverse (some t) = refl

parameters-inverse : (m : Map Text) → text_values (fields_of (parameters m)) ≡ m
parameters-inverse [] = refl
parameters-inverse ((k, v) ∷ m) = ap (λ x. (k, v) ∷ x) (parameters-inverse m)

class_name_injective : (c d : DeterminismClass) → class_name c ≡ class_name d → c ≡ d
unfolding class_name
class_name_injective reproducible reproducible e = refl
class_name_injective reproducible seeded_nondeterministic e = absurd (ground (arith, e))
class_name_injective seeded_nondeterministic reproducible e = absurd (ground (arith, e))
class_name_injective seeded_nondeterministic seeded_nondeterministic e = refl

-- What a key is derived from, in two derivations of it.
pub record SameInputs (c d : SynthesisContext) (speaker speaker' spoken spoken' style style' : Text)
    (take take' : ℕ) : Type 0 where
  pub worker_bundle : c.worker_bundle_hash ≡ d.worker_bundle_hash
  pub repository : c.model_repository ≡ d.model_repository
  pub model : c.model_revision ≡ d.model_revision
  pub tokenizer : c.tokenizer_revision ≡ d.tokenizer_revision
  pub artifacts : c.model_artifacts_hash ≡ d.model_artifacts_hash
  pub conditioning : voice_conditioning_for c speaker ≡ voice_conditioning_for d speaker'
  pub speakers : speaker ≡ speaker'
  pub languages : c.language ≡ d.language
  pub texts : spoken ≡ spoken'
  pub styles : style ≡ style'
  pub generation : c.generation_parameters ≡ d.generation_parameters
  pub seeds : c.seed ≡ d.seed
  pub classes : c.determinism_class ≡ d.determinism_class
  pub takes : take ≡ take'

-- The fields of two derivations, read back.
fields-SameInputs :
    (c d : SynthesisContext) (speaker speaker' spoken spoken' style style' : Text) (take take' : ℕ)
    → collect (segment_fields c speaker spoken style take)
      ≡ collect (segment_fields d speaker' spoken' style' take')
    → SameInputs c d speaker speaker' spoken spoken' style style' take take'
unfolding text_eq text_cmp get insert extend
fields-SameInputs c d speaker speaker' spoken spoken' style style' take take' e = record {
  worker_bundle = ap (λ m. text_value (field (codes "worker_bundle_hash") m)) e;
  repository = ap (λ m. text_value (field (codes "model_repository") m)) e;
  model = ap (λ m. text_value (field (codes "model_revision") m)) e;
  tokenizer = ap (λ m. text_value (field (codes "tokenizer_revision") m)) e;
  artifacts = ap (λ m. text_value (field (codes "model_artifacts_hash") m)) e;
  conditioning =
      sym (optional-inverse (voice_conditioning_for c speaker))
      ∙ ap (λ m. optional_value (field (codes "voice_conditioning_hash") m)) e
      ∙ optional-inverse (voice_conditioning_for d speaker');
  speakers = ap (λ m. text_value (field (codes "speaker") m)) e;
  languages = ap (λ m. text_value (field (codes "language") m)) e;
  texts = ap (λ m. text_value (field (codes "spoken_text") m)) e;
  styles = ap (λ m. text_value (field (codes "style") m)) e;
  generation =
      sym (parameters-inverse c.generation_parameters)
      ∙ ap (λ m. text_values (fields_of (field (codes "generation_parameters") m))) e
      ∙ parameters-inverse d.generation_parameters;
  seeds = ap (λ m. number_value (field (codes "seed") m)) e;
  classes =
      class_name_injective c.determinism_class d.determinism_class
        (ap (λ m. text_value (field (codes "determinism_class") m)) e);
  takes = ap (λ m. number_value (field (codes "take") m)) e;
}

-- With a hash that no two byte strings share, two segments have the same cache key only where every
-- input of the synthesis is the same: the worker and the models, the language, the parameters, the
-- seed, the conditioning of the speaker, the speaker, the spoken text, the style and the take.
pub segment_digest-SameInputs :
    (hash : Text → Digest) (collision_free : (s t : Text) → hash s ≡ hash t → s ≡ t)
    (c d : SynthesisContext) (speaker speaker' spoken spoken' style style' : Text) (take take' : ℕ)
    → segment_digest hash c speaker spoken style take
      ≡ segment_digest hash d speaker' spoken' style' take'
    → SameInputs c d speaker speaker' spoken spoken' style style' take take'
unfolding segment_digest canonical_digest
segment_digest-SameInputs hash collision_free c d speaker speaker' spoken spoken' style style' take
      take' e =
    fields-SameInputs c d speaker speaker' spoken spoken' style style' take take' (
      same_fields (segment_fields c speaker spoken style take)
        (segment_fields d speaker' spoken' style' take')
        (canonical_bytes_injective _ _ (collision_free _ _ e)))
