-- ===== src/Examples/Jobs.antt =====
-- A build attempt and its documents at concrete inputs.
use technical_tts.Prelude.{ℕ, Option, ◌≡◌, ◌↔◌, ◌⊎◌, ◌≢◌, ◌≤◌, refl, arith, none, some, [], ◌∷◌, ok}
use technical_tts.Text.{Text, codes}
use technical_tts.Events.{
  JobEvent, preflight_append, append_event, validate_existing_log, encode_line,
}
use technical_tts.Release.{private_preview, production_release}
use technical_tts.Job.{
  JobState, created, validated, planned, rendering, published, failed, JobDocument,
  job_schema_version, open_attempt, transition, success_after, may_transition_to,
}
use technical_tts.Job.Machine.{◌⟶◌, transition_ok_iff}
use technical_tts.Repository.{validate_replacement, replace_document, durable_event}
use technical_tts.Repository.Steps.{Continues, Succeeds, validate_replacement_iff, run, run-le}
use technical_tts.Repository.Valid.{Step, Reach, attempt_is_stored}

abbrev first_document : JobState → JobState → JobDocument
first_document state last = record {
  schema_version = job_schema_version;
  job_id = codes "job-1";
  build_attempt = 1;
  state = state;
  last_successful_state = last;
  abandoned_attempt = none;
  lesson_blake3 = codes "aa";
  plan_hash = codes "bb";
  segments = [];
  preview_package = none;
  release_status = private_preview;
  application_version = codes "0.1.0";
}

abbrev second_document : JobDocument
second_document = record (first_document created created) {
  build_attempt = 2;
  abandoned_attempt = some (record { build_attempt = 1; state = failed });
}

attempt_opens :
    open_attempt (codes "0.1.0") (codes "job-1") (codes "aa") (codes "bb") none
    ≡ ok (first_document created created)
unfolding open_attempt
attempt_opens = refl

next_attempt_opens :
    open_attempt
      (codes "0.1.0")
      (codes "job-1")
      (codes "aa")
      (codes "bb")
      (some (first_document failed rendering))
    ≡ ok second_document
unfolding open_attempt
next_attempt_opens = refl

created_validates :
    transition (first_document created created) validated ≡ ok (first_document validated validated)
unfolding transition may_transition_to success_after
created_validates = refl

transition_ok_iff_example :
    ((d' : JobDocument) × (transition (first_document created created) validated ≡ ok d'))
    ↔ ((created ⟶ validated) × ((validated ≢ published) ⊎ (private_preview ≡ production_release)))
transition_ok_iff_example = transition_ok_iff (first_document created created) validated

validate_replacement_iff_example :
    (validate_replacement (first_document failed rendering) second_document ≡ ok tt) ↔ (
      Continues (first_document failed rendering) second_document
      ⊎ Succeeds (first_document failed rendering) second_document)
validate_replacement_iff_example =
    validate_replacement_iff (first_document failed rendering) second_document

-- A file without bytes, and an event that is written as a letter.
abbrev nothing_measured : JobDocument → ℕ
nothing_measured d = 0

abbrev always_x : JobEvent → Option Text
always_x event = some (codes "x")

abbrev never_parsed : Text → Option JobEvent
never_parsed t = none

run-le_example :
    (e : JobDocument) × ((run nothing_measured always_x never_parsed
        (record { document = some (first_document failed rendering); event_log = none })
        ((7, second_document) ∷ [])).document
      ≡ some e)
    × (1 ≤ e.build_attempt)
run-le_example =
    run-le nothing_measured always_x never_parsed (first_document failed rendering)
      (record { document = some (first_document failed rendering); event_log = none })
      ((7, second_document) ∷ []) refl

validated_reached : Reach (first_document created created) (first_document validated validated)
validated_reached = Reach.further Reach.here (Step.moves validated created_validates)

validated_plans :
    transition (first_document validated validated) planned ≡ ok (first_document planned planned)
unfolding transition may_transition_to success_after
validated_plans = refl

log_has_room :
    preflight_append always_x never_parsed none
      (durable_event nothing_measured always_x never_parsed 7 (first_document planned planned))
    ≡ ok tt
unfolding preflight_append validate_existing_log encode_line
log_has_room = refl

attempt_is_stored_example :
    (log' : Text) × (append_event always_x never_parsed none
        (durable_event nothing_measured always_x never_parsed 7 (first_document planned planned))
      ≡ ok log')
    × (replace_document nothing_measured always_x never_parsed 7
          (record { document = some (first_document validated validated); event_log = none })
          (first_document planned planned)
        ≡ ok (record { document = some (first_document planned planned); event_log = some log' }))
attempt_is_stored_example =
    attempt_is_stored (codes "0.1.0") (codes "job-1") (codes "aa") (codes "bb") none attempt_opens
      validated_reached nothing_measured always_x never_parsed 7 none
      (Step.moves planned validated_plans) (omega arith) (omega arith) (omega arith) log_has_room
