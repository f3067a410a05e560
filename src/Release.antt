-- ===== src/Release.antt =====
-- crates/study-tts-core/src/release.rs: what an artifact may claim to be, and the production gates.
use mathlib.Core.Bool.{false≢true}
use technical_tts.Prelude.{
  ◌≡◌, ◌↔◌, ◌⊎◌, ◌∙◌, sym, subst, Bool, true, not, List, [], ◌∷◌, arith, All, In, any,
  if◌then◌else◌, Bool-cases, inl, inr, Result, ok, err,
}
use technical_tts.Text.{Text, codes, text_eq, text_eq_iff, join}

-- Twelve gates, in the source's order.
unfoldable pub required_production_gates : List Text
required_production_gates =
    codes "long_form_soak"
    ∷ codes "content_integrity_review"
    ∷ codes "asr_triage_recorded"
    ∷ codes "worker_unloaded_before_verification"
    ∷ codes "explicit_take_selection"
    ∷ codes "frozen_loudness_references"
    ∷ codes "voice_identity_and_format"
    ∷ codes "automated_audio_checks"
    ∷ codes "package_provenance"
    ∷ codes "offline_render_verified"
    ∷ codes "rights_and_licensing"
    ∷ codes "clean_machine_operations"
    ∷ []

pub data ReleaseStatus : Type 0 where
  private_preview production_release : ReleaseStatus

unfoldable pub as_str : ReleaseStatus → Text
as_str private_preview = codes "private_preview"
as_str production_release = codes "production_release"

pub data ReleaseError : Type 0 where
  private_profile_cannot_claim_production : ReleaseError
  missing_gate_evidence : Text → ReleaseError

pub record ReleaseClaim : Type 0 where
  pub status : ReleaseStatus
  pub satisfied_gates : List Text

unfoldable pub preview_claim : ReleaseClaim
preview_claim = record { status = private_preview; satisfied_gates = [] }

unfoldable pub production_claim : List Text → ReleaseClaim
production_claim gates = record { status = production_release; satisfied_gates = gates }

-- The gate is among those held.
unfoldable pub is_held : List Text → Text → Bool
is_held held gate = any (λ h. text_eq h gate) held

-- The gates of the list that are not held, in its order.
unfoldable pub missing_gates : List Text → List Text → List Text
missing_gates held [] = []
missing_gates held (gate ∷ gates) =
    if not (is_held held gate) then gate ∷ missing_gates held gates else missing_gates held gates

check_gates : List Text → Result (Unit {0}) ReleaseError
check_gates [] = ok tt
check_gates (gate ∷ gates) = err (missing_gate_evidence (join (codes ", ") (gate ∷ gates)))

unfoldable pub validate_as_production : ReleaseClaim → Result (Unit {0}) ReleaseError
unfolding check_gates
validate_as_production claim = elim claim.status [
  | private_preview ↦ err private_profile_cannot_claim_production
  | production_release ↦ check_gates (missing_gates claim.satisfied_gates required_production_gates)
]

is_held_iff : (held : List Text) (gate : Text) → (is_held held gate ≡ true) ↔ In gate held
unfolding is_held
is_held_iff [] gate = ground arith
is_held_iff (h ∷ held) gate = ground (arith, text_eq_iff h gate, is_held_iff held gate)

missing_behind_kept :
    (held gates missing : List Text) (g gate : Text)
    → In g held
    → In gate missing ↔ (In gate gates × ¬ In gate held)
    → In gate missing ↔ (((gate ≡ g) ⊎ In gate gates) × ¬ In gate held)
missing_behind_kept held gates missing g gate i ih = (
  λ j. (inr (ih.0 j).0, (ih.0 j).1),
  λ (o, n). elim o [ inl e ↦ absurd (n (subst (λ x. In x held) (sym e) i)) | inr k ↦ ih.1 (k, n) ],
)

missing_behind_missing :
    (held gates missing : List Text) (g gate : Text)
    → ¬ In g held
    → In gate missing ↔ (In gate gates × ¬ In gate held)
    → ((gate ≡ g) ⊎ In gate missing) ↔ (((gate ≡ g) ⊎ In gate gates) × ¬ In gate held)
missing_behind_missing held gates missing g gate n ih = (
  λ o. elim o [
    | inl e ↦ (inl e, λ i. n (subst (λ x. In x held) e i))
    | inr j ↦ (inr (ih.0 j).0, (ih.0 j).1)
  ],
  λ (o, k). elim o [ inl e ↦ inl e | inr j ↦ inr (ih.1 (j, k)) ],
)

-- A gate is listed as missing exactly when it is one of the gates and is not held.
pub missing_gates_iff :
    (held gates : List Text) (gate : Text)
    → In gate (missing_gates held gates) ↔ (In gate gates × ¬ In gate held)
unfolding missing_gates
missing_gates_iff held [] gate = (λ i. absurd i, λ h. absurd h.0)
missing_gates_iff held (g ∷ gates) gate = elim (Bool-cases (is_held held g)) [
  | inl kept ↦ rw kept (
      missing_behind_kept held gates (missing_gates held gates) g gate ((is_held_iff held g).0 kept)
        (missing_gates_iff held gates gate))
  | inr absent ↦ rw absent (
      missing_behind_missing held gates (missing_gates held gates) g gate
        (λ i. false≢true (sym absent ∙ (is_held_iff held g).1 i))
        (missing_gates_iff held gates gate))
]

missing-nil_iff :
    (held gates : List Text) → (missing_gates held gates ≡ []) ↔ All (λ gate. In gate held) gates
unfolding missing_gates
missing-nil_iff held [] = ground arith
missing-nil_iff held (gate ∷ gates) =
    ground (arith, is_held_iff held gate, missing-nil_iff held gates)

-- A claim passes exactly when it is a production claim with evidence for all twelve gates.
pub validate_as_production_iff :
    (claim : ReleaseClaim)
    → (validate_as_production claim ≡ ok tt) ↔ (
        (claim.status ≡ production_release)
        × All (λ gate. In gate claim.satisfied_gates) required_production_gates)
unfolding validate_as_production
validate_as_production_iff claim =
    ground (arith, missing-nil_iff claim.satisfied_gates required_production_gates)
