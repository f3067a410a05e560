-- ===== src/Examples/Voices.antt =====
-- A voice and the gate on its use at concrete inputs.
use technical_tts.Prelude.{◌≡◌, ◌↔◌, refl, [], ◌∷◌, ok, err}
use technical_tts.Text.{Text, codes, text_eq, is_blank, join}
use technical_tts.Digest.{is_blake3_hex}
use technical_tts.Voice.{
  VoiceProfile, VoiceConsent, granted, decision_approved, private_synthesis, voice_qualification,
  consent_scope_excluded, validate_profile_for_use, validate_profile, validate_consent,
  require_blake3_hex, require_non_blank,
}
use technical_tts.Voice.Permitted.{IsUsable, validate_profile_for_use_iff}

abbrev digest_text : Text
digest_text = codes "00112233445566778899aabbccddeeff00112233445566778899aabbccddeeff"

abbrev owner_profile : VoiceProfile
owner_profile = record {
  schema_version = codes "0.1-voice";
  profile_id = codes "owner";
  reference_wav_blake3 = digest_text;
  conditionals_blake3 = digest_text;
  extractor_identity = codes "extractor";
  approval = decision_approved;
}

abbrev owner_consent : VoiceConsent
owner_consent = record {
  schema_version = codes "0.1-voice";
  declaration = codes "own voice";
  permitted_use = private_synthesis ∷ [];
  reference_wav_blake3 = digest_text;
  created = codes "2026-01-01";
  consent_status = granted;
  rights_record_id = codes "rights-1";
}

private_use_passes : validate_profile_for_use owner_profile owner_consent private_synthesis ≡ ok tt
unfolding validate_profile_for_use validate_profile validate_consent require_blake3_hex
    require_non_blank is_blake3_hex is_blank text_eq
private_use_passes = refl

other_use_refused :
    validate_profile_for_use owner_profile owner_consent voice_qualification
    ≡ err (
        consent_scope_excluded
          (codes "owner")
          (codes "voice_qualification")
          (codes "private_synthesis"))
unfolding validate_profile_for_use validate_profile validate_consent require_blake3_hex
    require_non_blank is_blake3_hex is_blank text_eq join
other_use_refused = refl

validate_profile_for_use_iff_example :
    (validate_profile_for_use owner_profile owner_consent private_synthesis ≡ ok tt)
    ↔ IsUsable owner_profile owner_consent private_synthesis
validate_profile_for_use_iff_example =
    validate_profile_for_use_iff owner_profile owner_consent private_synthesis
