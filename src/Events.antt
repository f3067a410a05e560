-- ===== src/Events.antt =====
-- crates/study-tts-runtime/src/job_events.rs: the event log of a job. The file is its bytes; a missing
-- file is `none`. `BuildErrorClass` is from crates/study-tts-runtime/src/error/mod.rs, each word with
-- `class` behind it.
pub mod Lines
pub mod Append
pub mod Finished
use technical_tts.Prelude.{
  ℕ, zero, suc, ◌+◌, ◌≡◌, Bool, true, false, not, ◌&&◌, Option, none, some, List, [], ◌∷◌, ◌++◌,
  length, ltb, ◌==◌, if◌then◌else◌, Result, ok, err, ◌>>=◌, ◌>>◌, ok_or, refuse_if,
}
use technical_tts.Text.{Text, codes, text_eq}
use technical_tts.Job.{JobState}

abbrev pub job_event_schema_version : Text
job_event_schema_version = codes "e2.job-event.0.1"

abbrev pub max_job_event_line_bytes : ℕ
max_job_event_line_bytes = 4096

abbrev pub max_job_event_log_bytes : ℕ
max_job_event_log_bytes = 8388608

pub data BuildErrorClass : Type 0 where
  io_class lesson_class takes_class plan_class voice_class voice_profile_class : BuildErrorClass
  rights_class publication_class cache_class audio_class tool_class : BuildErrorClass
  managed_path_class durable_state_class synthesis_class worker_bundle_class : BuildErrorClass
  model_artifacts_class : BuildErrorClass

pub data JobEventKind : Type 0 where
  state_durable : JobState → JobEventKind
  job_lock_recovered : ℕ → ℕ → JobEventKind
  plan_selected : ℕ → JobEventKind
  segment_synthesized : Text → ℕ → Text → ℕ → JobEventKind
  segment_reused : Text → ℕ → JobEventKind
  segment_failed : Text → ℕ → BuildErrorClass → Option ℕ → JobEventKind
  package_assembled package_encoded : JobEventKind
  package_published : Text → JobEventKind
  package_reused : Text → JobEventKind

pub record JobEvent : Type 0 where
  pub schema_version : Text
  pub job_id : Text
  pub build_attempt : Option ℕ
  pub kind : JobEventKind
  pub at_unix_ms : ℕ

-- `now` is the clock's answer in milliseconds.
abbrev pub new_event : ℕ → Text → Option ℕ → JobEventKind → JobEvent
new_event now job_id build_attempt kind = record {
  schema_version = job_event_schema_version;
  job_id = job_id;
  build_attempt = build_attempt;
  kind = kind;
  at_unix_ms = now;
}

-- The last one stands for a loop that is cut off, which the code has not.
pub data EventLogError : Type 0 where
  write_json malformed_log event_line_too_large record_too_large unfinished : EventLogError

abbrev pub newline : ℕ
newline = 10

-- `take(limit).read_until(b'\n')`: the bytes read, and those behind them.
unfoldable pub read_line : ℕ → Text → Text × Text
read_line zero s = ([], s)
read_line (suc limit) [] = ([], [])
read_line (suc limit) (b ∷ s) =
    let rest = read_line limit s in if b == newline then (b ∷ [], s) else (b ∷ rest.0, rest.1)

-- `line.last() == Some(&b'\n')`.
abbrev pub ends_line : Text → Bool
ends_line [] = false
ends_line (b ∷ []) = b == newline
ends_line (b ∷ c ∷ s) = ends_line (c ∷ s)

-- `line[..line.len() - 1]`.
abbrev pub but_last : Text → Text
but_last [] = []
but_last (b ∷ []) = []
but_last (b ∷ c ∷ s) = b ∷ but_last (c ∷ s)

abbrev pub is_nothing : Text → Bool
is_nothing [] = true
is_nothing (b ∷ s) = false

-- What `create(true)` opens.
abbrev pub created : Option Text → Text
created none = []
created (some log) = log

-- The checks on what a line parsed as.
abbrev pub check_event : Text → Option JobEvent → Result (Unit {0}) EventLogError
check_event job_id none = err malformed_log
check_event job_id (some event) =
    refuse_if
      (not (text_eq event.schema_version job_event_schema_version && text_eq event.job_id job_id))
      malformed_log

-- `to_vec` and `from_slice` are those of serde_json at `JobEvent`.
module _ (to_vec : JobEvent → Option Text) (from_slice : Text → Option JobEvent) where
  -- The checks on one line that was read.
  unfoldable pub check_line : Text → Text → Result (Unit {0}) EventLogError
  check_line job_id line = do
    refuse_if (not (ends_line line)) malformed_log
    refuse_if (ltb max_job_event_line_bytes (length line)) event_line_too_large
    check_event job_id (from_slice (but_last line))

  -- The loop, on fuel.
  unfoldable pub check_lines : ℕ → Text → Text → Result (Unit {0}) EventLogError
  check_lines zero job_id s = err unfinished
  check_lines (suc fuel) job_id s =
      let (line, rest) = read_line (suc max_job_event_line_bytes) s in
      let more = check_lines fuel job_id rest in
      if is_nothing line then ok tt else check_line job_id line >> more

  unfoldable pub validate_event_file : Text → Text → Result (Unit {0}) EventLogError
  validate_event_file log job_id =
      if length log == 0
      then ok tt
      else if ltb max_job_event_log_bytes (length log)
      then err record_too_large
      else check_lines (suc (length log)) job_id log

  -- The length is one of a file, so the saturating sum is far from its bound.
  unfoldable pub encode_line : JobEvent → ℕ → Result Text EventLogError
  encode_line event length_before = do
    bytes ← ok_or (to_vec event) write_json
    let line = bytes ++ newline ∷ []
    refuse_if (ltb max_job_event_line_bytes (length line)) event_line_too_large
    refuse_if (ltb max_job_event_log_bytes (length_before + length line)) record_too_large
    ok line

  -- The log behind the append; `create` makes a missing one empty.
  unfoldable pub append_event : Option Text → JobEvent → Result Text EventLogError
  append_event file event = do
    let log = created file
    validate_event_file log event.job_id
    line ← encode_line event (length log)
    ok (log ++ line)

  unfoldable pub validate_existing_log : Option Text → Text → Result ℕ EventLogError
  validate_existing_log none job_id = ok 0
  validate_existing_log (some log) job_id = do validate_event_file log job_id; ok (length log)

  unfoldable pub preflight_append : Option Text → JobEvent → Result (Unit {0}) EventLogError
  preflight_append file event = do
    before ← validate_existing_log file event.job_id
    line ← encode_line event before
    ok tt
