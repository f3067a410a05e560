-- ===== src/Voice.antt =====
-- crates/study-tts-core/src/voice.rs: the records of a voice and the gate on its use. The `validate` of
-- the two records are `validate_profile` and `validate_consent`.
pub mod Permitted
use technical_tts.Prelude.{
  ℕ, ◌≡◌, Bool, true, false, not, List, [], ◌∷◌, map, any, ◌==◌, if◌then◌else◌, Result, ok, err,
  ◌>>=◌, ◌>>◌, refuse_if,
}
use technical_tts.Text.{Text, codes, text_eq, is_blank, join}
use technical_tts.Digest.{is_blake3_hex}

abbrev pub voice_schema_version : Text
voice_schema_version = codes "0.1-voice"

pub data ConsentStatus : Type 0 where
  granted pending revoked : ConsentStatus

abbrev pub status_name : ConsentStatus → Text
status_name granted = codes "granted"
status_name pending = codes "pending"
status_name revoked = codes "revoked"

pub data RightsDecision : Type 0 where
  decision_approved restricted review_required prohibited : RightsDecision

abbrev pub decision_name : RightsDecision → Text
decision_name decision_approved = codes "approved"
decision_name restricted = codes "restricted"
decision_name review_required = codes "review_required"
decision_name prohibited = codes "prohibited"

pub data VoiceUse : Type 0 where
  private_synthesis voice_qualification : VoiceUse

abbrev pub use_name : VoiceUse → Text
use_name private_synthesis = codes "private_synthesis"
use_name voice_qualification = codes "voice_qualification"

pub record VoiceConsent : Type 0 where
  pub schema_version : Text
  pub declaration : Text
  pub permitted_use : List VoiceUse
  pub reference_wav_blake3 : Text
  pub created : Text
  pub consent_status : ConsentStatus
  pub rights_record_id : Text

pub record VoiceProfile : Type 0 where
  pub schema_version : Text
  pub profile_id : Text
  pub reference_wav_blake3 : Text
  pub conditionals_blake3 : Text
  pub extractor_identity : Text
  pub approval : RightsDecision

pub data VoiceError : Type 0 where
  unsupported_schema : Text → VoiceError
  missing_field : Text → VoiceError
  malformed_checksum : Text → Text → VoiceError
  consent_not_granted : Text → Text → VoiceError
  profile_not_approved : Text → Text → VoiceError
  consent_scope_excluded : Text → Text → Text → VoiceError
  consent_checksum_disagreement : Text → VoiceError

-- The comparisons with one variant, and `==` of two uses.
abbrev pub is_granted : ConsentStatus → Bool
is_granted granted = true
is_granted _ = false

abbrev pub is_decision_approved : RightsDecision → Bool
is_decision_approved decision_approved = true
is_decision_approved _ = false

abbrev pub use_eq : VoiceUse → VoiceUse → Bool
use_eq private_synthesis private_synthesis = true
use_eq voice_qualification voice_qualification = true
use_eq _ _ = false

unfoldable pub require_non_blank : Text → Text → Result (Unit {0}) VoiceError
require_non_blank field value = refuse_if (is_blank value) (missing_field field)

unfoldable pub require_blake3_hex : Text → Text → Result (Unit {0}) VoiceError
require_blake3_hex field value = do
  require_non_blank field value
  refuse_if (not (is_blake3_hex value)) (malformed_checksum field value)

unfoldable pub validate_profile : VoiceProfile → Result (Unit {0}) VoiceError
validate_profile profile = do
  refuse_if (not (text_eq profile.schema_version voice_schema_version))
      (unsupported_schema profile.schema_version)
  require_non_blank (codes "profile_id") profile.profile_id
  require_non_blank (codes "extractor_identity") profile.extractor_identity
  require_blake3_hex (codes "reference_wav_blake3") profile.reference_wav_blake3
  require_blake3_hex (codes "conditionals_blake3") profile.conditionals_blake3

abbrev pub has_no_use : List VoiceUse → Bool
has_no_use [] = true
has_no_use (u ∷ us) = false

unfoldable pub validate_consent : VoiceConsent → Result (Unit {0}) VoiceError
validate_consent consent = do
  refuse_if (not (text_eq consent.schema_version voice_schema_version))
      (unsupported_schema consent.schema_version)
  require_non_blank (codes "declaration") consent.declaration
  require_non_blank (codes "created") consent.created
  require_non_blank (codes "rights_record_id") consent.rights_record_id
  require_blake3_hex (codes "reference_wav_blake3") consent.reference_wav_blake3
  refuse_if (has_no_use consent.permitted_use) (missing_field (codes "permitted_use"))

abbrev pub permits : VoiceConsent → VoiceUse → Bool
permits consent requested = any (use_eq requested) consent.permitted_use

abbrev pub recorded_scope : VoiceConsent → Text
recorded_scope consent = join (codes ", ") (map use_name consent.permitted_use)

unfoldable pub validate_profile_for_use :
    VoiceProfile → VoiceConsent → VoiceUse → Result (Unit {0}) VoiceError
validate_profile_for_use profile consent requested = do
  validate_profile profile
  validate_consent consent
  refuse_if (not (is_granted consent.consent_status))
      (consent_not_granted profile.profile_id (status_name consent.consent_status))
  refuse_if (not (is_decision_approved profile.approval))
      (profile_not_approved profile.profile_id (decision_name profile.approval))
  refuse_if (not (permits consent requested))
      (consent_scope_excluded profile.profile_id (use_name requested) (recorded_scope consent))
  refuse_if (not (text_eq profile.reference_wav_blake3 consent.reference_wav_blake3))
      (consent_checksum_disagreement profile.profile_id)
