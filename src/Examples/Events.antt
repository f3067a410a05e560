-- ===== src/Examples/Events.antt =====
-- An event log and an append at concrete inputs.
use technical_tts.Prelude.{
  ◌≡◌, ◌≢◌, ◌≤◌, ◌↔◌, refl, List, [], ◌∷◌, ◌++◌, Option, none, some, All, ok, err, ◌>>=◌, length,
  arith,
}
use technical_tts.Text.{Text, codes}
use technical_tts.Events.{
  JobEvent, new_event, package_encoded, newline, read_line, check_line, check_lines,
  validate_event_file, encode_line, append_event, preflight_append, unfinished, malformed_log,
  max_job_event_log_bytes,
}
use technical_tts.Events.Lines.{lines, IsLine, validate_event_file_iff}
use technical_tts.Events.Append.{append_event-lines, preflight_append-append_event}
use technical_tts.Events.Finished.{validate_event_file-finishes}

abbrev encoded_event : JobEvent
encoded_event = new_event 17 (codes "job-1") (some 1) package_encoded

-- A serializer for the one event.
abbrev written : JobEvent → Option Text
written event = some (codes "{}")

abbrev parsed : Text → Option JobEvent
parsed bytes = some encoded_event

abbrev one_line : Text
one_line = codes "{}" ++ newline ∷ []

appended : append_event written parsed none encoded_event ≡ ok one_line
unfolding append_event validate_event_file encode_line
appended = refl

partial_line_refused :
    validate_event_file written parsed (codes "{}") (codes "job-1") ≡ err malformed_log
unfolding validate_event_file check_lines check_line read_line
partial_line_refused = refl

append_event-lines_example :
    (ls : List Text) × ([] ≡ lines ls)
    × (one_line ≡ lines (ls ++ codes "{}" ∷ []))
    × All (IsLine written parsed (codes "job-1")) (ls ++ codes "{}" ∷ [])
    × (validate_event_file written parsed one_line (codes "job-1") ≡ ok tt)
append_event-lines_example =
    append_event-lines written parsed none encoded_event one_line (codes "{}") refl
      ((λ e. omega (arith, e)), ((λ e. omega (arith, e)), tt)) refl refl appended

preflight_append-append_event_example :
    preflight_append written parsed none encoded_event
    ≡ (append_event written parsed none encoded_event >>= λ _. ok tt)
preflight_append-append_event_example =
    preflight_append-append_event written parsed none encoded_event

validate_event_file_iff_example :
    (validate_event_file written parsed one_line (codes "job-1") ≡ ok tt) ↔ (
      (length one_line ≤ max_job_event_log_bytes)
      × ((ls : List Text) × (one_line ≡ lines ls) × All (IsLine written parsed (codes "job-1")) ls))
validate_event_file_iff_example = validate_event_file_iff written parsed one_line (codes "job-1")

validate_event_file-finishes_example :
    validate_event_file written parsed one_line (codes "job-1") ≢ err unfinished
validate_event_file-finishes_example =
    validate_event_file-finishes written parsed one_line (codes "job-1")
