-- ===== src/Cache/Conditioning.antt =====
-- crates/study-tts-runtime/src/cache.rs: `check_declared_conditioning`.
use technical_tts.Prelude.{
  ℕ, suc, ◌+◌, ◌-◌, ◌*◌, ◌/◌, Bool, true, false, not, ◌&&◌, Option, none, some, List, [], ◌∷◌,
  length, leb, ltb, ◌==◌, if◌then◌else◌, Result, ◌>>◌, refuse_if, for_each,
}
use technical_tts.Text.{Text, codes}
use technical_tts.Assembly.{canonical_sample_rate}
use technical_tts.Audio.{
  Signal, CalibrationSource, provisional, frozen, to_u32, min, samples_for,
  required_edge_silence_ms, max_transition_ramp_ms,
}
use technical_tts.Cache.{
  CacheEntryFault, conditioning_outside_ratified_geometry, conditioning_inconsistent_with_audio,
  conditioned_under_another_calibration, RecordedConditioning,
}

unfoldable pub source_eq : CalibrationSource → CalibrationSource → Bool
source_eq provisional provisional = true
source_eq frozen frozen = true
source_eq _ _ = false

abbrev pub ratified_samples : ℕ → ℕ
ratified_samples milliseconds = to_u32 (samples_for milliseconds canonical_sample_rate)

module _ (s : Signal) where
  open s use {Sample, is_zero}

  -- `iter().position` and `iter().rposition` of a sample that is not zero.
  unfoldable pub first_nonzero : List Sample → Option ℕ
  first_nonzero [] = none
  first_nonzero (x ∷ xs) =
      if is_zero x then elim (first_nonzero xs) [ none ↦ none | some i ↦ some (suc i) ] else some 0

  unfoldable pub last_nonzero : List Sample → Option ℕ
  last_nonzero [] = none
  last_nonzero (x ∷ xs) = elim (last_nonzero xs) [
    | none ↦ if is_zero x then none else some 0
    | some i ↦ some (suc i)
  ]

  abbrev pub maximum_ramp : List Sample → ℕ
  maximum_ramp samples =
      min (samples_for max_transition_ramp_ms canonical_sample_rate)
        ((length samples - samples_for required_edge_silence_ms canonical_sample_rate * 2) / 2)

  abbrev pub span_ramp : ℕ → Option ℕ → Option ℕ → ℕ
  span_ramp maximum none last = 0
  span_ramp maximum (some first) none = 0
  span_ramp maximum (some first) (some last) =
      if ltb first last then min maximum ((last - first + 3) / 2) else 0

  abbrev pub minimum_ramp : List Sample → ℕ
  minimum_ramp samples =
      span_ramp (maximum_ramp samples) (first_nonzero samples) (last_nonzero samples)

  -- The fields with what was declared of each and what is permitted.
  abbrev pub bounded_fields : RecordedConditioning → List (Text × (ℕ × ℕ))
  bounded_fields recorded =
      (codes "leading_ramp", (recorded.leading_ramp, ratified_samples max_transition_ramp_ms))
      ∷ (codes "trailing_ramp", (recorded.trailing_ramp, ratified_samples max_transition_ramp_ms))
      ∷ (
        codes "leading_padding",
        (recorded.leading_padding, ratified_samples required_edge_silence_ms),
      )
      ∷ (
        codes "trailing_padding",
        (recorded.trailing_padding, ratified_samples required_edge_silence_ms),
      )
      ∷ []

  abbrev pub check_field : Text × (ℕ × ℕ) → Result (Unit {0}) (CacheEntryFault Sample)
  check_field (field, (declared, permitted)) =
      refuse_if (ltb permitted declared)
        (conditioning_outside_ratified_geometry field declared permitted)

  abbrev pub check_ramp : ℕ → ℕ → Text × ℕ → Result (Unit {0}) (CacheEntryFault Sample)
  check_ramp minimum maximum (field, declared) =
      refuse_if (not (leb minimum declared && leb declared maximum))
        (conditioning_inconsistent_with_audio field declared minimum maximum)

  abbrev pub ramp_fields : RecordedConditioning → List (Text × ℕ)
  ramp_fields recorded =
      (codes "leading_ramp", recorded.leading_ramp)
      ∷ (codes "trailing_ramp", recorded.trailing_ramp)
      ∷ []

  -- Every call to the conditioner is under the provisional threshold.
  unfoldable pub check_declared_conditioning :
      RecordedConditioning → List Sample → Result (Unit {0}) (CacheEntryFault Sample)
  check_declared_conditioning recorded samples = do
    for_each check_field (bounded_fields recorded)
    refuse_if (not (source_eq recorded.calibration_source provisional))
        (conditioned_under_another_calibration recorded.calibration_source provisional)
    for_each (check_ramp (to_u32 (minimum_ramp samples)) (to_u32 (maximum_ramp samples)))
        (ramp_fields recorded)
    refuse_if (not (recorded.leading_ramp == recorded.trailing_ramp)) (
        conditioning_inconsistent_with_audio (codes "trailing_ramp") recorded.trailing_ramp
          recorded.leading_ramp recorded.leading_ramp)
