-- ===== src/Job.antt =====
-- crates/study-tts-core/src/job.rs: the job document and the state machine that it records.
pub mod Machine
use technical_tts.Prelude.{
  ℕ, ◌+◌, ◌≡◌, ◌↔◌, refl, Bool, true, false, not, ◌&&◌, Option, none, some, List, [], ◌∷◌, ltb,
  ◌==◌, if◌then◌else◌, Result, ok, err, ◌>>=◌, ok_or,
}
use technical_tts.Text.{Text}
use technical_tts.Map.{Map, insert}
use technical_tts.Digest.{Digest}
use technical_tts.Schema.{SchemaVersion}
use technical_tts.Schema
use technical_tts.Release.{
  ReleaseStatus, private_preview, production_release, ReleaseError,
  private_profile_cannot_claim_production,
}

abbrev pub job_schema_version : SchemaVersion
job_schema_version = Schema.new 1 0

pub data JobState : Type 0 where
  created validated planned rendering rendered verifying verified : JobState
  needs_review assembling quality_checked published failed cancelled : JobState

-- `may_transition_to`, one group of clauses for each source state.
unfoldable pub may_transition_to : JobState → JobState → Bool
may_transition_to created validated = true
may_transition_to validated planned = true
may_transition_to planned rendering = true
may_transition_to rendering rendering = true
may_transition_to rendering rendered = true
may_transition_to rendering failed = true
may_transition_to rendering cancelled = true
may_transition_to rendered verifying = true
may_transition_to verifying verifying = true
may_transition_to verifying verified = true
may_transition_to verifying needs_review = true
may_transition_to verifying failed = true
may_transition_to verified assembling = true
may_transition_to verified verifying = true
may_transition_to needs_review verified = true
may_transition_to needs_review planned = true
may_transition_to assembling quality_checked = true
may_transition_to assembling failed = true
may_transition_to quality_checked published = true
may_transition_to failed verifying = true
may_transition_to failed planned = true
may_transition_to cancelled planned = true
may_transition_to _ _ = false

unfoldable pub has_rendered : JobState → Bool
has_rendered created = false
has_rendered validated = false
has_rendered planned = false
has_rendered rendering = false
has_rendered failed = false
has_rendered cancelled = false
has_rendered rendered = true
has_rendered verifying = true
has_rendered verified = true
has_rendered needs_review = true
has_rendered assembling = true
has_rendered quality_checked = true
has_rendered published = true

pub JobState-discrete : Discrete JobState
JobState-discrete = hlevel

-- `==` on states.
unfoldable pub state_eq : JobState → JobState → Bool
state_eq s t = elim (JobState-discrete s t) [ yes _ ↦ true | no _ ↦ false ]

pub state_eq_iff : (s t : JobState) → (state_eq s t ≡ true) ↔ (s ≡ t)
unfolding state_eq
state_eq_iff s t =
    elim (JobState-discrete s t)
      as (λ d. (elim d as (λ _. Bool) [ yes _ ↦ true | no _ ↦ false ] ≡ true) ↔ (s ≡ t)) [
        | yes e ↦ (λ _. e, λ _. refl)
        | no n ↦ (λ h. cc, λ e. absurd (n e))
      ]

pub data JobStateError : Type 0 where
  illegal_transition : Text → JobState → JobState → JobStateError
  attempt_overflow : Text → JobStateError
  release : ReleaseError → JobStateError

pub record SelectedPackageIdentity : Type 0 where
  pub package_id : Digest
  pub manifest_blake3 : Digest

pub record SegmentStatus : Type 0 where
  pub cache_key : Digest
  pub audio_blake3 : Digest

-- The attempt number is a `NonZeroU32`.
pub record AbandonedAttempt : Type 0 where
  pub build_attempt : ℕ
  pub state : JobState

pub record JobDocument : Type 0 where
  pub schema_version : SchemaVersion
  pub job_id : Text
  pub build_attempt : ℕ
  pub state : JobState
  pub last_successful_state : JobState
  pub abandoned_attempt : Option AbandonedAttempt
  pub lesson_blake3 : Digest
  pub plan_hash : Digest
  pub segments : Map SegmentStatus
  pub preview_package : Option SelectedPackageIdentity
  pub release_status : ReleaseStatus
  pub application_version : Text

abbrev pub max_u32 : ℕ
max_u32 = 4294967295

-- `NonZeroU32::checked_add(1)`.
abbrev pub next_attempt : ℕ → Option ℕ
next_attempt n = if ltb n max_u32 then some (n + 1) else none

-- The document of a new attempt; `version` is `CARGO_PKG_VERSION`, which the build supplies.
opened : Text → Text → Digest → Digest → ℕ → Option AbandonedAttempt → JobDocument
opened version job_id lesson plan attempt abandoned = record {
  schema_version = job_schema_version;
  job_id = job_id;
  build_attempt = attempt;
  state = created;
  last_successful_state = created;
  abandoned_attempt = abandoned;
  lesson_blake3 = lesson;
  plan_hash = plan;
  segments = [];
  preview_package = none;
  release_status = private_preview;
  application_version = version;
}

unfoldable pub open_attempt :
    Text → Text → Digest → Digest → Option JobDocument → Result JobDocument JobStateError
unfolding opened
open_attempt version job_id lesson plan none = ok (opened version job_id lesson plan 1 none)
open_attempt version job_id lesson plan (some previous) = do
  attempt ← ok_or (next_attempt previous.build_attempt) (attempt_overflow job_id)
  let abandoned = some (record { build_attempt = previous.build_attempt; state = previous.state })
  ok (opened version job_id lesson plan attempt abandoned)

abbrev pub is_published : JobState → Bool
is_published published = true
is_published _ = false

abbrev pub is_planned : JobState → Bool
is_planned planned = true
is_planned _ = false

abbrev pub is_production : ReleaseStatus → Bool
is_production production_release = true
is_production private_preview = false

-- The state recorded as the last successful one.
unfoldable pub success_after : JobState → JobState → JobState
success_after failed last = last
success_after cancelled last = last
success_after next last = next

unfoldable pub moved : JobDocument → JobState → JobDocument
unfolding success_after
moved d next = record d {
  last_successful_state = success_after next d.last_successful_state;
  state = next;
  preview_package = if is_planned next then none else d.preview_package;
}

unfoldable pub transition : JobDocument → JobState → Result JobDocument JobStateError
unfolding moved
transition d next =
    if not (may_transition_to d.state next)
    then err (illegal_transition d.job_id d.state next)
    else if is_published next && not (is_production d.release_status)
    then err (release private_profile_cannot_claim_production)
    else ok (moved d next)

unfoldable pub with_segment : JobDocument → Text → SegmentStatus → JobDocument
with_segment d segment_id status = record d { segments = insert segment_id status d.segments }

unfoldable pub with_preview_package : JobDocument → SelectedPackageIdentity → JobDocument
with_preview_package d selected = record d { preview_package = some selected }
