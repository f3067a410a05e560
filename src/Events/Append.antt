-- ===== src/Events/Append.antt =====
-- Appends to an event log.
use technical_tts.Prelude.{
  ℕ, ◌+◌, ◌≡◌, ◌≤◌, refl, sym, ap, ◌∙◌, subst, List, [], ◌∷◌, ◌++◌, append_assoc, length,
  length-append, All, All-append, inl, inr, ltb_false→le, arith, Option, none, some, Result, ok,
  err, ◌>>=◌, ◌>>◌, ok_or, then-ok_iff, bind-ok, ok_or-ok, refuse_if-ok_iff, Result-cases,
}
use technical_tts.Text.{Text, Lacks}
use technical_tts.Events.{
  JobEvent, newline, created, encode_line, append_event, validate_existing_log, preflight_append,
  validate_event_file, EventLogError, write_json, max_job_event_line_bytes, max_job_event_log_bytes,
  job_event_schema_version,
}
use technical_tts.Events.Lines.{lines, IsLine, validate_event_file_iff}

lines-append : (ls : List Text) (l : Text) → lines (ls ++ l ∷ []) ≡ lines ls ++ (l ++ newline ∷ [])
lines-append [] l = refl
lines-append (k ∷ ls) l = rw (lines-append ls l) (simp append_assoc refl)

then-ok :
    {B : Type 0} (r : Result (Unit {0}) EventLogError) (body : Result B EventLogError) (b : B)
    → (r >> body) ≡ ok b
    → (r ≡ ok tt) × (body ≡ ok b)
then-ok r body b h = (then-ok_iff r body b).0 h

bind_discard :
    {A B : Type 0} (r : Result A EventLogError) (f : A → B)
    → ◌≡◌ {A = Result (Unit {0}) EventLogError}
        (r >>= λ _. ok tt)
        ((r >>= λ a. ok (f a)) >>= λ _. ok tt)
bind_discard (ok a) f = refl
bind_discard (err e) f = refl

module _ (to_vec : JobEvent → Option Text) (from_slice : Text → Option JobEvent) where
  encode_line-inv :
      (event : JobEvent) (before : ℕ) (line : Text)
      → encode_line to_vec from_slice event before ≡ ok line
      → (bytes : Text) × (to_vec event ≡ some bytes)
        × (line ≡ bytes ++ newline ∷ [])
        × (length line ≤ max_job_event_line_bytes)
        × (before + length line ≤ max_job_event_log_bytes)
  unfolding encode_line
  encode_line-inv event before line h =
      let (bytes, encoded, rest) = bind-ok (ok_or (to_vec event) write_json) _ line h in
      let (short, more) = then-ok _ _ line rest in
      let (fits, same) = then-ok _ _ line more in
      let made : bytes ++ newline ∷ [] ≡ line = ground (arith, same) in
      let less = ltb_false→le _ _ ((refuse_if-ok_iff _ _).0 short) in
      let within = ltb_false→le _ _ ((refuse_if-ok_iff _ _).0 fits) in
      (
        bytes,
        ok_or-ok (to_vec event) write_json bytes encoded,
        sym made,
        subst (λ (t : Text). length t ≤ max_job_event_line_bytes) made less,
        subst (λ (t : Text). before + length t ≤ max_job_event_log_bytes) made within,
      )

  append_event-inv :
      (file : Option Text) (event : JobEvent) (log' : Text)
      → append_event to_vec from_slice file event ≡ ok log'
      → (validate_event_file to_vec from_slice (created file) event.job_id ≡ ok tt)
        × ((line : Text) × (encode_line to_vec from_slice event (length (created file)) ≡ ok line)
            × (log' ≡ created file ++ line))
  unfolding append_event
  append_event-inv file event log' h =
      let (valid, rest) = then-ok _ _ log' h in
      let (line, encoded, same) =
        bind-ok (encode_line to_vec from_slice event (length (created file))) _ log' rest in
      (valid, (line, encoded, ground (arith, same)))

  nothing_valid : (job_id : Text) → validate_event_file to_vec from_slice [] job_id ≡ ok tt
  unfolding validate_event_file
  nothing_valid job_id = refl

  -- The check before a transition gives the answer of the append behind it, refusals included.
  pub preflight_append-append_event :
      (file : Option Text) (event : JobEvent)
      → preflight_append to_vec from_slice file event
        ≡ (append_event to_vec from_slice file event >>= λ _. ok tt)
  unfolding preflight_append append_event validate_existing_log
  preflight_append-append_event none event =
      rw (nothing_valid event.job_id)
        (bind_discard (encode_line to_vec from_slice event 0) (λ line. created none ++ line))
  preflight_append-append_event (some log) event =
      elim (Result-cases (validate_event_file to_vec from_slice log event.job_id)) [
        | inl (t, e) ↦
            rw e (
              bind_discard (encode_line to_vec from_slice event (length log)) (λ line. log ++ line))
        | inr (x, e) ↦ rw e refl
      ]

  -- Where an event in the version of the log is appended, and its serialized form is a line that
  -- parses back, the log was and is a sequence of lines for the job, the last one is the event's, and
  -- the log with it is accepted again.
  pub append_event-lines :
      (file : Option Text) (event : JobEvent) (log' bytes : Text)
      → to_vec event ≡ some bytes
      → Lacks newline bytes
      → from_slice bytes ≡ some event
      → event.schema_version ≡ job_event_schema_version
      → append_event to_vec from_slice file event ≡ ok log'
      → (ls : List Text) × (created file ≡ lines ls)
        × (log' ≡ lines (ls ++ bytes ∷ []))
        × All (IsLine to_vec from_slice event.job_id) (ls ++ bytes ∷ [])
        × (validate_event_file to_vec from_slice log' event.job_id ≡ ok tt)
  append_event-lines file event log' bytes encoded one_line parsed version h =
      let (valid, (line, made, joined)) = append_event-inv file event log' h in
      let (limit, (ls, before, all)) =
        (validate_event_file_iff to_vec from_slice (created file) event.job_id).0 valid in
      let (bytes', encoded', line_is, short, fits) =
        encode_line-inv event (length (created file)) line made in
      let same : bytes' ≡ bytes = ground (arith, encoded, encoded') in
      let line_here : line ≡ bytes ++ newline ∷ [] =
        line_is ∙ ap (λ (t : Text). t ++ newline ∷ []) same in
      let log_is : log' ≡ lines (ls ++ bytes ∷ []) =
        joined ∙ rw (before, line_here) (sym (lines-append ls bytes)) in
      let room = ap (λ (t : Text). length t) line_here in
      let length_line = length-append bytes (newline ∷ []) in
      let length_log = ap (λ (t : Text). length t) joined ∙ length-append (created file) line in
      let is_line : IsLine to_vec from_slice event.job_id bytes =
        (one_line, omega arith, (event, parsed, version, refl)) in
      let every =
        All-append (IsLine to_vec from_slice event.job_id) ls (bytes ∷ []) all (is_line, tt) in
      (
        ls,
        before,
        log_is,
        every,
        (validate_event_file_iff to_vec from_slice log' event.job_id).1
            (omega arith, (ls ++ bytes ∷ [], log_is, every)),
      )
