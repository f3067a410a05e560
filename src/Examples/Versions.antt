-- ===== src/Examples/Versions.antt =====
-- Versions, release claims and their acceptance at concrete inputs.
use technical_tts.Prelude.{◌≡◌, ◌↔◌, ◌≤◌, refl, some, [], ◌∷◌, In, All, ok, err}
use technical_tts.Text.{codes, split_once}
use technical_tts.Prelude.{none, true}
use technical_tts.Contract.{
  ContractDescriptor, worker_frames, baseline, compatible_extension, successor_compatible_extension,
  assess_successor, classified,
}
use technical_tts.Contract.Successors.{Moved, assess_successor-Moved}
use technical_tts.Text.Decimal.{to_decimal, parse_decimal}
use technical_tts.Schema.{
  new, max_u16, IsVersion, malformed, from_str, to_string, parse_version_component,
}
use technical_tts.Schema.Spelling.{parse_version_component_iff, from_str_iff}
use technical_tts.Release.{
  ReleaseClaim, production_release, validate_as_production, required_production_gates,
  missing_gates,
}
use technical_tts.Release.{missing_gates_iff, validate_as_production_iff}

from_str_runs : from_str (codes "2.13") ≡ ok (new 2 13)
unfolding from_str parse_version_component parse_decimal split_once
from_str_runs = refl

leading_zero_refused : from_str (codes "2.03") ≡ err (malformed (codes "2.03"))
unfolding from_str parse_version_component parse_decimal split_once
leading_zero_refused = refl

from_str_iff_example :
    (from_str (codes "2.13") ≡ ok (new 2 13))
    ↔ ((codes "2.13" ≡ to_string (new 2 13)) × IsVersion (new 2 13))
from_str_iff_example = from_str_iff (codes "2.13") (new 2 13)

parse_version_component_iff_example :
    (parse_version_component (codes "13") ≡ some 13)
    ↔ ((codes "13" ≡ to_decimal 13) × (13 ≤ max_u16))
parse_version_component_iff_example = parse_version_component_iff (codes "13") 13

missing_gates_iff_example :
    In (codes "E3-S5") (missing_gates (codes "E3-S4" ∷ []) (codes "E3-S4" ∷ codes "E3-S5" ∷ [])) ↔ (
      In (codes "E3-S5") (codes "E3-S4" ∷ codes "E3-S5" ∷ [])
      × ¬ In (codes "E3-S5") (codes "E3-S4" ∷ []))
missing_gates_iff_example =
    missing_gates_iff (codes "E3-S4" ∷ []) (codes "E3-S4" ∷ codes "E3-S5" ∷ []) (codes "E3-S5")

abbrev complete_claim : ReleaseClaim
complete_claim = record { status = production_release; satisfied_gates = required_production_gates }

validate_as_production_iff_example : (validate_as_production complete_claim ≡ ok tt) ↔ (
    (production_release ≡ production_release)
    × All (λ gate. In gate required_production_gates) required_production_gates)
validate_as_production_iff_example = validate_as_production_iff complete_claim

abbrev first_frames : ContractDescriptor
first_frames = record {
  contract_id = worker_frames;
  version = record { major = 0; minor = 1; patch = 0 };
  change = baseline;
  extension_default = none;
  rejects_unknown_fields = true;
}

abbrev extended_frames : ContractDescriptor
extended_frames = record {
  contract_id = worker_frames;
  version = record { major = 0; minor = 2; patch = 0 };
  change = compatible_extension;
  extension_default = some (codes "absent");
  rejects_unknown_fields = true;
}

extension_accepted :
    assess_successor first_frames extended_frames ≡ ok successor_compatible_extension
unfolding assess_successor classified
extension_accepted = refl

assess_successor-Moved_example :
    (worker_frames ≡ worker_frames)
    × (true ≡ true)
    × Moved successor_compatible_extension first_frames.version extended_frames.version
assess_successor-Moved_example =
    assess_successor-Moved first_frames extended_frames successor_compatible_extension
      extension_accepted
