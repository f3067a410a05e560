-- ===== src/Events/Finished.antt =====
-- The loop over the lines of an event log comes to its end.
use technical_tts.Prelude.{
  ℕ, zero, suc, ◌≢◌, ◌<◌, ◌≤◌, Bool, true, false, [], ◌∷◌, length, Bool-cases, inl, inr, ltb, ◌==◌,
  if◌then◌else◌, arith, Result, ok, err, ◌>>◌, refuse_if, Option, none, some,
}
use technical_tts.Text.{Text}
use technical_tts.Events.{
  JobEvent, newline, read_line, but_last, is_nothing, check_line, check_event, check_lines,
  validate_event_file, EventLogError, unfinished, malformed_log, event_line_too_large,
  max_job_event_line_bytes, max_job_event_log_bytes,
}

-- A read takes a byte at least.
read_line-shorter : (limit : ℕ) (s : Text) → length (read_line limit s).1 ≤ length s
unfolding read_line
read_line-shorter zero s = omega arith
read_line-shorter (suc limit) [] = omega arith
read_line-shorter (suc limit) (b ∷ s) =
    let ih = read_line-shorter limit s in
    elim (Bool-cases (b == newline)) [ inl e ↦ rw e (omega arith) | inr e ↦ rw e (omega arith) ]

read_line-takes :
    (limit b : ℕ) (s : Text) → length (read_line (suc limit) (b ∷ s)).1 < length (b ∷ s)
unfolding read_line
read_line-takes limit b s =
    let ih = read_line-shorter limit s in
    elim (Bool-cases (b == newline)) [ inl e ↦ rw e (omega arith) | inr e ↦ rw e (omega arith) ]

-- Not the answer of a loop that is cut off.
Finished : Result (Unit {0}) EventLogError → Type 0
Finished r = r ≢ err unfinished

refused-Finished : (bad : Bool) (e : EventLogError) → e ≢ unfinished → Finished (refuse_if bad e)
unfolding Finished
refused-Finished true e other h = other (ground (arith, h))
refused-Finished false e other h = absurd (ground (arith, h))

then-Finished :
    (check body : Result (Unit {0}) EventLogError)
    → Finished check
    → Finished body
    → Finished (check >> body)
unfolding Finished
then-Finished (ok u) body first second h = second h
then-Finished (err e) body first second h = first h

check_event-Finished :
    (job_id : Text) (parsed : Option JobEvent) → Finished (check_event job_id parsed)
unfolding Finished
check_event-Finished job_id none = λ h. absurd (ground (arith, h))
check_event-Finished job_id (some event) = refused-Finished _ malformed_log (λ e. ground (arith, e))

if-Finished :
    (b : Bool) (r s : Result (Unit {0}) EventLogError)
    → Finished r
    → Finished s
    → Finished (if b then r else s)
unfolding Finished
if-Finished true r s first second = first
if-Finished false r s first second = second

looped-Finished :
    (line : Text) (more : Result (Unit {0}) EventLogError)
    → Finished more
    → Finished (if is_nothing line then ok tt else more)
unfolding Finished
looped-Finished [] more later h = ground (arith, h)
looped-Finished (b ∷ line) more later h = later h

module _ (to_vec : JobEvent → Option Text) (from_slice : Text → Option JobEvent) where
  check_line-Finished : (job_id line : Text) → Finished (check_line to_vec from_slice job_id line)
  unfolding check_line
  check_line-Finished job_id line =
      then-Finished _ _ (refused-Finished _ malformed_log (λ e. ground (arith, e))) (
        then-Finished _ _ (refused-Finished _ event_line_too_large (λ e. ground (arith, e)))
          (check_event-Finished job_id (from_slice (but_last line))))

  check_lines-Finished :
      (fuel : ℕ) (job_id s : Text)
      → length s < fuel
      → Finished (check_lines to_vec from_slice fuel job_id s)
  unfolding check_lines
  check_lines-Finished zero job_id s enough = absurd (omega arith)
  check_lines-Finished (suc fuel) job_id [] enough =
      unfold Finished read_line in λ h. ground (arith, h)
  check_lines-Finished (suc fuel) job_id (b ∷ s) enough =
      let read = read_line (suc max_job_event_line_bytes) (b ∷ s) in
      let shorter = read_line-takes max_job_event_line_bytes b s in
      let later = check_lines-Finished fuel job_id read.1 (omega arith) in
      looped-Finished read.0 _ (then-Finished _ _ (check_line-Finished job_id read.0) later)

  -- The fuel of the loop is enough: no log makes the loop end for lack of fuel.
  pub validate_event_file-finishes :
      (log job_id : Text) → validate_event_file to_vec from_slice log job_id ≢ err unfinished
  unfolding validate_event_file Finished
  validate_event_file-finishes log job_id =
      if-Finished (length log == 0) _ _ (λ h. ground (arith, h))
        (if-Finished (ltb max_job_event_log_bytes (length log)) _ _ (λ h. ground (arith, h))
          (check_lines-Finished (suc (length log)) job_id log (omega arith)))
