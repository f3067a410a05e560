-- ===== src/Repository.antt =====
-- crates/study-tts-runtime/src/job_repository.rs: the checks on a job document that is stored, and on
-- one that replaces it, and its event. The document is the one that `serde_json` decodes; the path of an
-- error and failures of the file system are left out.
pub mod Steps
pub mod Valid
use technical_tts.Prelude.{
  ℕ, ◌+◌, ◌≡◌, ◌↔◌, refl, Bool, true, false, not, ◌&&◌, ◌||◌, Option, none, some, List, length, ltb,
  ◌==◌, arith, if◌then◌else◌, Result, ok, err, ◌>>=◌, ◌>>◌, refuse_if, map_err,
}
use technical_tts.Text.{Text, text_eq}
use technical_tts.Schema.{SchemaVersion, accepted_by, to_string}
use technical_tts.Release.{ReleaseError, private_profile_cannot_claim_production}
use technical_tts.Job.{
  JobState, created, validated, planned, rendering, rendered, verifying, verified, needs_review,
  assembling, quality_checked, published, failed, cancelled, state_eq, state_eq_iff,
  AbandonedAttempt, SelectedPackageIdentity, JobDocument, job_schema_version, may_transition_to,
  has_rendered, is_published, is_production, next_attempt,
}
use technical_tts.Events.{
  JobEvent, new_event, state_durable, EventLogError, preflight_append, append_event,
}

abbrev pub max_job_json_bytes : ℕ
max_job_json_bytes = 16777216

abbrev pub max_lesson_segments : ℕ
max_lesson_segments = 4096

-- The variants of `DurableStateError` that the checks raise, and the release refusal beside them.
pub data DurableStateError : Type 0 where
  unsupported_durable_record : Text → DurableStateError
  identity_mismatch : Text → Text → DurableStateError
  segment_count_exceeded : ℕ → ℕ → DurableStateError
  release : ReleaseError → DurableStateError
  attempt_mismatch : ℕ → Option AbandonedAttempt → DurableStateError
  last_successful_state_mismatch : JobState → JobState → DurableStateError
  selection_mismatch : JobState → DurableStateError
  package_identity_mismatch : Text → Text → DurableStateError
  illegal_job_transition : Text → JobState → JobState → DurableStateError
  replacement_predecessor_mismatch : ℕ → JobState → ℕ → Option AbandonedAttempt → DurableStateError
  record_too_large : ℕ → DurableStateError
  event_log_error : EventLogError → DurableStateError

-- `==` on abandoned attempts.
pub abandoned_eq : Option AbandonedAttempt → Option AbandonedAttempt → Bool
unfolding state_eq
abandoned_eq none none = true
abandoned_eq (some a) (some b) = a.build_attempt == b.build_attempt && state_eq a.state b.state
abandoned_eq _ _ = false

pub abandoned_eq_iff : (a b : Option AbandonedAttempt) → (abandoned_eq a b ≡ true) ↔ (a ≡ b)
unfolding abandoned_eq
abandoned_eq_iff none none = (λ _. refl, λ _. refl)
abandoned_eq_iff none (some b) = ground arith
abandoned_eq_iff (some a) none = ground arith
abandoned_eq_iff (some a) (some b) = ground (arith, state_eq_iff a.state b.state)

unfoldable pub attempts_are_coherent : JobDocument → Bool
attempts_are_coherent d = elim d.abandoned_attempt [
  | none ↦ d.build_attempt == 1
  | some abandoned ↦ elim (next_attempt abandoned.build_attempt) [
    | none ↦ false
    | some n ↦ n == d.build_attempt
  ]
]

unfoldable pub states_are_coherent : JobState → JobState → Bool
states_are_coherent failed rendering = true
states_are_coherent failed verifying = true
states_are_coherent failed assembling = true
states_are_coherent failed _ = false
states_are_coherent cancelled last = state_eq last rendering
states_are_coherent state last = state_eq state last

-- `document.preview_package.is_some() && !last_successful_state.has_rendered()`.
abbrev pub selected_too_early : JobDocument → Bool
selected_too_early d = elim d.preview_package [
  | none ↦ false
  | some _ ↦ not (has_rendered d.last_successful_state)
]

check_package : Option SelectedPackageIdentity → Result (Unit {0}) DurableStateError
check_package none = ok tt
check_package (some p) =
    refuse_if (not (text_eq p.package_id p.manifest_blake3))
      (package_identity_mismatch p.package_id p.manifest_blake3)

check_version : SchemaVersion → Result (Unit {0}) DurableStateError
check_version v = elim (accepted_by v job_schema_version) [
  | ok _ ↦ ok tt
  | err _ ↦ err (unsupported_durable_record (to_string v))
]

unfoldable pub validate_document : Text → JobDocument → Result (Unit {0}) DurableStateError
unfolding check_version check_package
validate_document job_id d = do
  check_version d.schema_version
  refuse_if (not (text_eq d.job_id job_id)) (identity_mismatch d.job_id job_id)
  refuse_if (ltb max_lesson_segments (length d.segments))
      (segment_count_exceeded (length d.segments) max_lesson_segments)
  refuse_if (is_published d.state && not (is_production d.release_status))
      (release private_profile_cannot_claim_production)
  refuse_if (not (attempts_are_coherent d)) (attempt_mismatch d.build_attempt d.abandoned_attempt)
  refuse_if (not (states_are_coherent d.state d.last_successful_state))
      (last_successful_state_mismatch d.state d.last_successful_state)
  refuse_if (selected_too_early d) (selection_mismatch d.state)
  check_package d.preview_package

abbrev pub is_initial : JobState → Bool
is_initial created = true
is_initial validated = true
is_initial planned = true
is_initial _ = false

unfoldable pub validate_initial_state : JobDocument → Result (Unit {0}) DurableStateError
validate_initial_state d =
    if is_initial d.state then ok tt else err (illegal_job_transition d.job_id created d.state)

predecessor_mismatch : JobDocument → JobDocument → DurableStateError
predecessor_mismatch current replacement =
    replacement_predecessor_mismatch current.build_attempt current.state replacement.build_attempt
      replacement.abandoned_attempt

-- The replacement carries the next attempt number and names the current one as abandoned.
abbrev pub follows : JobDocument → JobDocument → Bool
follows current replacement =
    (elim (next_attempt current.build_attempt) [
      | none ↦ false
      | some n ↦ replacement.build_attempt == n
    ])
    && abandoned_eq replacement.abandoned_attempt
        (some (record { build_attempt = current.build_attempt; state = current.state }))

unfoldable pub validate_replacement :
    JobDocument → JobDocument → Result (Unit {0}) DurableStateError
unfolding validate_initial_state predecessor_mismatch
validate_replacement current replacement =
    if replacement.build_attempt == current.build_attempt
    then (do
      refuse_if (not (abandoned_eq replacement.abandoned_attempt current.abandoned_attempt))
          (predecessor_mismatch current replacement)
      refuse_if
          (not (state_eq replacement.state current.state)
            && not (may_transition_to current.state replacement.state))
          (illegal_job_transition replacement.job_id current.state replacement.state))
    else (do
      refuse_if (not (follows current replacement)) (predecessor_mismatch current replacement)
      validate_initial_state replacement)

-- `job.json` and the event log beside it.
pub record StoredJob : Type 0 where
  pub document : Option JobDocument
  pub event_log : Option Text

-- `size` is the bytes of a document's file; `to_vec` and `from_slice` are those of serde_json at `JobEvent`.
module _ (size : JobDocument → ℕ) (to_vec : JobEvent → Option Text)
    (from_slice : Text → Option JobEvent) where
  -- `load_document`, behind `read_bounded_bytes`.
  load_document : Text → JobDocument → Result JobDocument DurableStateError
  load_document job_id stored = do
    refuse_if (ltb max_job_json_bytes (size stored)) (record_too_large (size stored))
    validate_document job_id stored
    ok stored

  unfoldable pub check_against :
      JobDocument → Option JobDocument → Result (Unit {0}) DurableStateError
  unfolding load_document
  check_against document none = validate_initial_state document
  check_against document (some stored) = do
    previous ← load_document document.job_id stored
    validate_replacement previous document

  abbrev pub durable_event : ℕ → JobDocument → JobEvent
  durable_event now document =
      new_event now document.job_id (some document.build_attempt) (state_durable document.state)

  -- `replace_document`: what is stored afterwards. `now` is the clock's answer.
  unfoldable pub replace_document :
      (now : ℕ) → StoredJob → JobDocument → Result StoredJob DurableStateError
  replace_document now stored document = do
    validate_document document.job_id document
    check_against document stored.document
    map_err event_log_error
        (preflight_append to_vec from_slice stored.event_log (durable_event now document))
    log ←
        map_err event_log_error
          (append_event to_vec from_slice stored.event_log (durable_event now document))
    ok (record { document = some document; event_log = some log })
