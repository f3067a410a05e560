-- ===== src/Voice/Permitted.antt =====
-- Which records pass the gate of a voice, and what a refusal says.
use technical_tts.Prelude.{
  ℕ, ◌≡◌, ◌≢◌, ◌↔◌, refl, ◌<◌, Bool, true, false, not, List, [], ◌∷◌, any, In, arith, Result, ok,
  ◌>>◌, refuse_if, then-ok_iff, refuse_if-ok_iff, refuse_not-ok_iff,
}
use technical_tts.Text.{Text, text_eq, text_eq_iff, is_blank, is_blank-graphic}
use technical_tts.Digest.{is_blake3_hex, is_hex_byte}
use technical_tts.Voice.{
  ConsentStatus, granted, pending, revoked, RightsDecision, decision_approved, restricted,
  review_required, prohibited, VoiceUse, private_synthesis, voice_qualification, VoiceConsent,
  VoiceProfile, VoiceError, missing_field, malformed_checksum, unsupported_schema,
  voice_schema_version, is_granted, is_decision_approved, use_eq, require_non_blank,
  require_blake3_hex, validate_profile, validate_consent, has_no_use, permits,
  validate_profile_for_use,
}

pub record IsProfile (profile : VoiceProfile) : Type 0 where
  pub version : profile.schema_version ≡ voice_schema_version
  pub has_id : is_blank profile.profile_id ≡ false
  pub has_extractor : is_blank profile.extractor_identity ≡ false
  pub reference_digest : is_blake3_hex profile.reference_wav_blake3 ≡ true
  pub conditionals_digest : is_blake3_hex profile.conditionals_blake3 ≡ true

pub record IsConsent (consent : VoiceConsent) : Type 0 where
  pub version : consent.schema_version ≡ voice_schema_version
  pub has_declaration : is_blank consent.declaration ≡ false
  pub has_date : is_blank consent.created ≡ false
  pub has_rights_record : is_blank consent.rights_record_id ≡ false
  pub reference_digest : is_blake3_hex consent.reference_wav_blake3 ≡ true
  pub permits_some : consent.permitted_use ≢ []

hex_byte-graphic : (c : ℕ) → is_hex_byte c ≡ true → (0x20 < c) × (c < 0x7f)
hex_byte-graphic c h = ground arith

-- A digest has printable characters.
hex-is_blank : (value : Text) → is_blake3_hex value ≡ true → is_blank value ≡ false
unfolding is_blake3_hex
hex-is_blank [] h = absurd (ground (arith, h))
hex-is_blank (c ∷ s) h =
    let (low, high) = hex_byte-graphic c (ground (arith, h)) in is_blank-graphic c s low high

-- Two checks in a row pass exactly when each does.
then_iff :
    {P Q : Type 0} (check body : Result (Unit {0}) VoiceError)
    → (check ≡ ok tt) ↔ P
    → (body ≡ ok tt) ↔ Q
    → ((check >> body) ≡ ok tt) ↔ (P × Q)
then_iff check body (f, g) (m, n) =
    let (a, b) = then-ok_iff check body tt in (λ h. (f (a h).0, m (a h).1), λ h. b (g h.0, n h.1))

require_non_blank-ok_iff :
    (field value : Text) → (require_non_blank field value ≡ ok tt) ↔ (is_blank value ≡ false)
unfolding require_non_blank
require_non_blank-ok_iff field value = refuse_if-ok_iff (is_blank value) (missing_field field)

require_blake3_hex-ok_iff :
    (field value : Text) → (require_blake3_hex field value ≡ ok tt) ↔ (is_blake3_hex value ≡ true)
unfolding require_blake3_hex
require_blake3_hex-ok_iff field value =
    let (f, g) =
      then_iff (require_non_blank field value)
        (refuse_if (not (is_blake3_hex value)) (malformed_checksum field value))
        (require_non_blank-ok_iff field value)
        (refuse_not-ok_iff (is_blake3_hex value) (malformed_checksum field value)) in
    (λ h. (f h).1, λ h. g (hex-is_blank value h, h))

good_iff :
    {P : Type 0} (good : Bool) (e : VoiceError)
    → (good ≡ true) ↔ P
    → (refuse_if (not good) e ≡ ok tt) ↔ P
good_iff good e (m, n) = let (f, g) = refuse_not-ok_iff good e in (λ h. m (f h), λ h. g (n h))

version-ok_iff :
    (version : Text)
    → (refuse_if (not (text_eq version voice_schema_version)) (unsupported_schema version) ≡ ok tt)
      ↔ (version ≡ voice_schema_version)
version-ok_iff version =
    good_iff (text_eq version voice_schema_version) (unsupported_schema version)
      (text_eq_iff version voice_schema_version)

validate_profile_iff :
    (profile : VoiceProfile) → (validate_profile profile ≡ ok tt) ↔ IsProfile profile
unfolding validate_profile
validate_profile_iff profile =
    let (f, g) = then_iff _ _ (version-ok_iff profile.schema_version) (
      then_iff _ _ (require_non_blank-ok_iff _ profile.profile_id) (
        then_iff _ _ (require_non_blank-ok_iff _ profile.extractor_identity) (
          then_iff _ _ (require_blake3_hex-ok_iff _ profile.reference_wav_blake3)
            (require_blake3_hex-ok_iff _ profile.conditionals_blake3)))) in
    (
      λ h.
          let (a, (b, (c, (d, e)))) = f h in
          record {
            version = a;
            has_id = b;
            has_extractor = c;
            reference_digest = d;
            conditionals_digest = e;
          },
      λ p.
          g (
            p.version,
            (p.has_id, (p.has_extractor, (p.reference_digest, (p.conditionals_digest)))),
          ),
    )

has_no_use_iff : (us : List VoiceUse) → (has_no_use us ≡ false) ↔ (us ≢ [])
has_no_use_iff [] = ground arith
has_no_use_iff (u ∷ us) = ground arith

uses-ok_iff :
    (us : List VoiceUse) (e : VoiceError) → (refuse_if (has_no_use us) e ≡ ok tt) ↔ (us ≢ [])
uses-ok_iff us e =
    let (f, g) = refuse_if-ok_iff (has_no_use us) e in
    let (m, n) = has_no_use_iff us in (λ h. m (f h), λ h. g (n h))

validate_consent_iff :
    (consent : VoiceConsent) → (validate_consent consent ≡ ok tt) ↔ IsConsent consent
unfolding validate_consent
validate_consent_iff consent =
    let (f, g) = then_iff _ _ (version-ok_iff consent.schema_version) (
      then_iff _ _ (require_non_blank-ok_iff _ consent.declaration) (
        then_iff _ _ (require_non_blank-ok_iff _ consent.created) (
          then_iff _ _ (require_non_blank-ok_iff _ consent.rights_record_id) (
            then_iff _ _ (require_blake3_hex-ok_iff _ consent.reference_wav_blake3)
              (uses-ok_iff consent.permitted_use _))))) in
    (
      λ h.
          let (a, (b, (c, (d, (e, u))))) = f h in
          record {
            version = a;
            has_declaration = b;
            has_date = c;
            has_rights_record = d;
            reference_digest = e;
            permits_some = u;
          },
      λ p. g (
        p.version,
        (
          p.has_declaration,
          (p.has_date, (p.has_rights_record, (p.reference_digest, (p.permits_some)))),
        ),
      ),
    )

is_granted_iff : (status : ConsentStatus) → (is_granted status ≡ true) ↔ (status ≡ granted)
is_granted_iff granted = (λ _. refl, λ _. refl)
is_granted_iff pending = ground arith
is_granted_iff revoked = ground arith

is_decision_approved_iff :
    (decision : RightsDecision)
    → (is_decision_approved decision ≡ true) ↔ (decision ≡ decision_approved)
is_decision_approved_iff decision_approved = (λ _. refl, λ _. refl)
is_decision_approved_iff restricted = ground arith
is_decision_approved_iff review_required = ground arith
is_decision_approved_iff prohibited = ground arith

use_eq_iff : (u v : VoiceUse) → (use_eq u v ≡ true) ↔ (u ≡ v)
use_eq_iff private_synthesis private_synthesis = (λ _. refl, λ _. refl)
use_eq_iff voice_qualification voice_qualification = (λ _. refl, λ _. refl)
use_eq_iff private_synthesis voice_qualification = ground arith
use_eq_iff voice_qualification private_synthesis = ground arith

any-use_eq_iff : (u : VoiceUse) (us : List VoiceUse) → (any (use_eq u) us ≡ true) ↔ In u us
any-use_eq_iff u [] = ground arith
any-use_eq_iff u (v ∷ us) = ground (arith, use_eq_iff u v, any-use_eq_iff u us)

-- What a profile and its consent are where the requested use is allowed.
pub record IsUsable (profile : VoiceProfile) (consent : VoiceConsent) (requested : VoiceUse)
    : Type 0 where
  pub profile_valid : IsProfile profile
  pub consent_valid : IsConsent consent
  pub consent_granted : consent.consent_status ≡ granted
  pub rights_approved : profile.approval ≡ decision_approved
  pub in_scope : In requested consent.permitted_use
  pub same_reference : profile.reference_wav_blake3 ≡ consent.reference_wav_blake3

-- A profile may serve a use exactly when both records are as described, the consent is granted, the
-- rights are approved, the use is one of the permitted ones, and the two records have the same
-- reference audio.
pub validate_profile_for_use_iff :
    (profile : VoiceProfile) (consent : VoiceConsent) (requested : VoiceUse)
    → (validate_profile_for_use profile consent requested ≡ ok tt)
      ↔ IsUsable profile consent requested
unfolding validate_profile_for_use
validate_profile_for_use_iff profile consent requested =
    let granted_iff = is_granted_iff consent.consent_status in
    let approved_iff = is_decision_approved_iff profile.approval in
    let scope_iff = any-use_eq_iff requested consent.permitted_use in
    let reference_iff = text_eq_iff profile.reference_wav_blake3 consent.reference_wav_blake3 in
    let (f, g) = then_iff _ _ (validate_profile_iff profile) (
      then_iff _ _ (validate_consent_iff consent) (
        then_iff _ _ (good_iff (is_granted consent.consent_status) _ granted_iff) (
          then_iff _ _ (good_iff (is_decision_approved profile.approval) _ approved_iff) (
            then_iff _ _ (good_iff (permits consent requested) _ scope_iff) (
              good_iff (text_eq profile.reference_wav_blake3 consent.reference_wav_blake3) _
                reference_iff))))) in
    (
      λ h.
          let (a, (b, (c, (d, (e, u))))) = f h in
          record {
            profile_valid = a;
            consent_valid = b;
            consent_granted = c;
            rights_approved = d;
            in_scope = e;
            same_reference = u;
          },
      λ p. g (
        p.profile_valid,
        (
          p.consent_valid,
          (p.consent_granted, (p.rights_approved, (p.in_scope, (p.same_reference)))),
        ),
      ),
    )
