-- ===== src/Contract.antt =====
-- crates/study-tts-core/src/contract.rs: which descriptor may follow another one.
pub mod Successors
use technical_tts.Prelude.{
  ℕ, ◌≡◌, ◌↔◌, refl, Bool, true, false, not, ◌&&◌, ◌||◌, Option, none, some, ltb, ◌==◌,
  if◌then◌else◌, arith, Result, ok, err, ◌>>=◌, ◌>>◌, refuse_if, ok_or,
}
use technical_tts.Text.{Text, text_eq, text_eq_iff}

pub data ContractId : Type 0 where
  tts_executor worker_frames cache_publication package_writer job_state : ContractId

-- The numbers are `u16`.
pub record ContractVersion : Type 0 where
  pub major : ℕ
  pub minor : ℕ
  pub patch : ℕ

pub data ContractChange : Type 0 where
  baseline diagnostic_patch compatible_extension breaking architectural : ContractChange

pub record ContractDescriptor : Type 0 where
  pub contract_id : ContractId
  pub version : ContractVersion
  pub change : ContractChange
  pub extension_default : Option Text
  pub rejects_unknown_fields : Bool

-- `SuccessorCompatibility`, each with the word of the code and `successor` in front.
pub data SuccessorCompatibility : Type 0 where
  successor_unchanged successor_diagnostic_patch : SuccessorCompatibility
  successor_compatible_extension successor_breaking : SuccessorCompatibility

pub data ContractVersionError : Type 0 where
  contract_changed : ContractId → ContractId → ContractVersionError
  unknown_fields_must_be_rejected : ContractVersionError
  missing_extension_default : ContractVersionError
  version_class_mismatch : ContractVersion → ContractVersion → ContractChange → ContractVersionError

-- `==` of the derived `PartialEq`s.
abbrev pub id_number : ContractId → ℕ
id_number tts_executor = 0
id_number worker_frames = 1
id_number cache_publication = 2
id_number package_writer = 3
id_number job_state = 4

abbrev pub change_number : ContractChange → ℕ
change_number baseline = 0
change_number diagnostic_patch = 1
change_number compatible_extension = 2
change_number breaking = 3
change_number architectural = 4

abbrev pub version_eq : ContractVersion → ContractVersion → Bool
version_eq v w = v.major == w.major && v.minor == w.minor && v.patch == w.patch

abbrev pub bool_eq : Bool → Bool → Bool
bool_eq true b = b
bool_eq false b = not b

abbrev pub default_eq : Option Text → Option Text → Bool
default_eq none none = true
default_eq (some s) (some t) = text_eq s t
default_eq _ _ = false

abbrev pub descriptor_eq : ContractDescriptor → ContractDescriptor → Bool
descriptor_eq d e =
    id_number d.contract_id == id_number e.contract_id
    && version_eq d.version e.version
    && change_number d.change == change_number e.change
    && default_eq d.extension_default e.extension_default
    && bool_eq d.rejects_unknown_fields e.rejects_unknown_fields

abbrev pub lacks_default : ContractDescriptor → Bool
lacks_default d = elim d.extension_default [
  | some _ ↦ false
  | none ↦ change_number d.change == change_number compatible_extension
]

abbrev pub when : Bool → SuccessorCompatibility → Option SuccessorCompatibility
when true c = some c
when false c = none

-- The `match` on the class of the change.
unfoldable pub classified :
    ContractDescriptor → ContractDescriptor → ContractChange → Option SuccessorCompatibility
classified self successor baseline = none
classified self successor diagnostic_patch =
    when
      (version_eq successor.version self.version
        && (default_eq successor.extension_default self.extension_default
            && bool_eq successor.rejects_unknown_fields self.rejects_unknown_fields))
      successor_diagnostic_patch
classified self successor compatible_extension =
    when
      (successor.version.major == self.version.major
        && ltb self.version.minor successor.version.minor
        && successor.version.patch == 0)
      successor_compatible_extension
classified self successor _ =
    when
      (ltb self.version.major successor.version.major
        && successor.version.minor == 0
        && successor.version.patch == 0)
      successor_breaking

unfoldable pub assess_successor :
    ContractDescriptor → ContractDescriptor → Result SuccessorCompatibility ContractVersionError
unfolding classified
assess_successor self successor = do
  refuse_if (not (id_number self.contract_id == id_number successor.contract_id))
      (contract_changed self.contract_id successor.contract_id)
  refuse_if (not successor.rejects_unknown_fields) unknown_fields_must_be_rejected
  refuse_if (lacks_default successor) missing_extension_default
  (if descriptor_eq successor self
      then ok successor_unchanged
      else ok_or (classified self successor successor.change)
          (version_class_mismatch self.version successor.version successor.change))
