-- ===== src/Events/Lines.antt =====
-- The event log as a sequence of lines.
use technical_tts.Prelude.{
  ℕ, zero, suc, ◌≡◌, ◌<◌, ◌≤◌, ◌↔◌, refl, sym, ap, subst, ◌∙◌, true, false, not, List, [], ◌∷◌,
  ◌++◌, length, length-append, ◌&&◌, &&_iff, ltb_false→le, refuse_if-ok_iff, refuse_not-ok_iff, All,
  Bool-cases, inl, inr, ltb, ◌==◌, ==_iff, if◌then◌else◌, arith, Result, ok, ◌>>◌, refuse_if,
  then-ok_iff, Option, none, some,
}
use technical_tts.Text.{Text, Lacks, text_eq, text_eq_iff}
use technical_tts.Events.{
  JobEvent, newline, read_line, ends_line, but_last, is_nothing, check_line, check_lines,
  validate_event_file, EventLogError, malformed_log, event_line_too_large, check_event,
  max_job_event_line_bytes, max_job_event_log_bytes, job_event_schema_version,
}

abbrev pub lines : List Text → Text
lines [] = []
lines (l ∷ ls) = l ++ newline ∷ lines ls

ends_line-append : (l : Text) → ends_line (l ++ newline ∷ []) ≡ true
ends_line-append [] = refl
ends_line-append (b ∷ []) = refl
ends_line-append (b ∷ c ∷ l) = ends_line-append (c ∷ l)

but_last-append : (l : Text) (b : ℕ) → but_last (l ++ b ∷ []) ≡ l
but_last-append [] b = refl
but_last-append (c ∷ []) b = refl
but_last-append (c ∷ d ∷ l) b = ap (λ s. c ∷ s) (but_last-append (d ∷ l) b)

-- A line that fits is read whole.
read_line-append :
    (limit : ℕ) (l s : Text)
    → Lacks newline l
    → length l < limit
    → read_line limit (l ++ newline ∷ s) ≡ (l ++ newline ∷ [], s)
unfolding read_line
read_line-append zero l s lacks fits = absurd (omega arith)
read_line-append (suc limit) [] s lacks fits = refl
read_line-append (suc limit) (b ∷ l) s lacks fits =
    ground (arith, read_line-append limit l s lacks.1 (omega arith))

-- The parts of a text that was read as a whole line.
abbrev WholeLine : Text → Text × Text → Type 0
WholeLine s read =
    ends_line read.0 ≡ true
    → Lacks newline (but_last read.0) × (s ≡ but_last read.0 ++ newline ∷ read.1)

WholeLine-cons :
    (b : ℕ) (s line rest : Text)
    → (b == newline) ≡ false
    → WholeLine s (line, rest)
    → WholeLine (b ∷ s) (b ∷ line, rest)
WholeLine-cons b s [] rest other whole h = absurd (ground (arith, other, h))
WholeLine-cons b s (c ∷ line) rest other whole h =
    let (lacks, same) = whole h in ((λ e. ground (arith, other, e), lacks), ap (λ t. b ∷ t) same)

read_line-WholeLine : (limit : ℕ) (s : Text) → WholeLine s (read_line limit s)
unfolding read_line
read_line-WholeLine zero s = λ h. absurd (ground (arith, h))
read_line-WholeLine (suc limit) [] = λ h. absurd (ground (arith, h))
read_line-WholeLine (suc limit) (b ∷ s) = elim (Bool-cases (b == newline)) [
  | inl e ↦
      let same : b ≡ newline = (==_iff b newline).0 e in rw e (λ _. (tt, ap (λ c. c ∷ s) same))
  | inr e ↦ rw e (
      WholeLine-cons b s (read_line limit s).0 (read_line limit s).1 e
        (read_line-WholeLine limit s))
]

le→ltb_false : (a b : ℕ) → b ≤ a → ltb a b ≡ false
le→ltb_false a b h = ground arith

suc_nonzero : (n : ℕ) → (suc n == 0) ≡ false
suc_nonzero n = ground arith

length-but_last : (line : Text) → ends_line line ≡ true → length line ≡ suc (length (but_last line))
length-but_last [] h = absurd (ground (arith, h))
length-but_last (b ∷ []) h = refl
length-but_last (b ∷ c ∷ line) h = ap (λ n. suc n) (length-but_last (c ∷ line) h)

read_line-something :
    (limit b : ℕ) (s : Text) → is_nothing (read_line (suc limit) (b ∷ s)).0 ≡ false
unfolding read_line
read_line-something limit b s = elim (Bool-cases (b == newline)) [
  | inl e ↦ rw e refl
  | inr e ↦ rw e refl
]

-- An event of the job, in the version of the log.
abbrev pub IsEvent : Text → Option JobEvent → Type 0
IsEvent job_id parsed =
    (event : JobEvent) × (parsed ≡ some event)
    × (event.schema_version ≡ job_event_schema_version)
    × (event.job_id ≡ job_id)

check_event_iff :
    (job_id : Text) (parsed : Option JobEvent)
    → (check_event job_id parsed ≡ ok tt) ↔ IsEvent job_id parsed
check_event_iff job_id none = ground arith
check_event_iff job_id (some event) =
    let version = text_eq event.schema_version job_event_schema_version in
    let job = text_eq event.job_id job_id in
    let (f, g) = refuse_not-ok_iff (version && job) malformed_log in
    let (a, b) = text_eq_iff event.schema_version job_event_schema_version in
    let (c, d) = text_eq_iff event.job_id job_id in
    let (m, n) = &&_iff version job in
    (
      λ h. (event, refl, a (m (f h)).0, c (m (f h)).1),
      λ (other, same, v, j).
          let here : event ≡ other = ground (arith, same) in
          g (
            n (
              b (ap (λ (e : JobEvent). e.schema_version) here ∙ v),
              d (ap (λ (e : JobEvent). e.job_id) here ∙ j),
            )),
    )

append-something : (l : Text) (b : ℕ) → is_nothing (l ++ b ∷ []) ≡ false
append-something [] b = refl
append-something (c ∷ l) b = refl

-- What the loop does behind a read that found something.
something_iff :
    (line : Text) (check more : Result (Unit {0}) EventLogError)
    → is_nothing line ≡ false
    → ((if is_nothing line then ok tt else check >> more) ≡ ok tt)
      ↔ ((check ≡ ok tt) × (more ≡ ok tt))
something_iff line check more h = rw h (then-ok_iff check more tt)

something_passed :
    (line : Text) (check more : Result (Unit {0}) EventLogError)
    → is_nothing line ≡ false
    → check ≡ ok tt
    → (if is_nothing line then ok tt else check >> more) ≡ more
something_passed line check more h passed = rw (h, passed) refl

module _ (to_vec : JobEvent → Option Text) (from_slice : Text → Option JobEvent) where
  -- One line, without its newline: short enough, and an event of the job in this version.
  abbrev pub IsLine : Text → Text → Type 0
  IsLine job_id l =
      Lacks newline l × (length l < max_job_event_line_bytes) × IsEvent job_id (from_slice l)

  check_line_iff :
      (job_id line : Text)
      → (check_line to_vec from_slice job_id line ≡ ok tt) ↔ (
          (ends_line line ≡ true)
          × (length line ≤ max_job_event_line_bytes)
          × IsEvent job_id (from_slice (but_last line)))
  unfolding check_line
  check_line_iff job_id line =
      let long = ltb max_job_event_line_bytes (length line) in
      let event = check_event job_id (from_slice (but_last line)) in
      let (a, b) =
        then-ok_iff (refuse_if (not (ends_line line)) malformed_log)
          (refuse_if long event_line_too_large >> event) tt in
      let (c, d) = then-ok_iff (refuse_if long event_line_too_large) event tt in
      let (f, g) = refuse_not-ok_iff (ends_line line) malformed_log in
      let (m, n) = refuse_if-ok_iff long event_line_too_large in
      let (p, q) = check_event_iff job_id (from_slice (but_last line)) in
      (
        λ h. (f (a h).0, ltb_false→le _ _ (m (c (a h).1).0), p (c (a h).1).1),
        λ (ends, fits, is). b (g ends, d (n (le→ltb_false _ _ fits), q is)),
      )

  -- A line at the front passes its checks, and the loop goes on behind it.
  check_lines-line :
      (fuel : ℕ) (job_id l s : Text)
      → IsLine job_id l
      → check_lines to_vec from_slice (suc fuel) job_id (l ++ newline ∷ s)
        ≡ check_lines to_vec from_slice fuel job_id s
  unfolding check_lines
  check_lines-line fuel job_id l s (lacks, fits, is) =
      let read = read_line-append (suc max_job_event_line_bytes) l s lacks (omega arith) in
      let length_line = length-append l (newline ∷ []) in
      let checked : check_line to_vec from_slice job_id (l ++ newline ∷ []) ≡ ok tt =
        (check_line_iff job_id (l ++ newline ∷ [])).1
          (ends_line-append l, omega arith, rw (but_last-append l newline) is) in
      rw read (
        something_passed (l ++ newline ∷ [])
          (check_line to_vec from_slice job_id (l ++ newline ∷ []))
          (check_lines to_vec from_slice fuel job_id s) (append-something l newline) checked)

  -- Lines all pass, on fuel beyond their bytes.
  check_lines-lines :
      (fuel : ℕ) (job_id : Text) (ls : List Text)
      → All (IsLine job_id) ls
      → length (lines ls) < fuel
      → check_lines to_vec from_slice fuel job_id (lines ls) ≡ ok tt
  check_lines-lines zero job_id ls all enough = absurd (omega arith)
  check_lines-lines (suc fuel) job_id [] all enough = unfold check_lines read_line in refl
  check_lines-lines (suc fuel) job_id (l ∷ ls) all enough =
      let size = length-append l (newline ∷ lines ls) in
      check_lines-line fuel job_id l (lines ls) all.0
      ∙ check_lines-lines fuel job_id ls all.1 (omega arith)

  lines-check_lines :
      (fuel : ℕ) (job_id s : Text)
      → check_lines to_vec from_slice fuel job_id s ≡ ok tt
      → (ls : List Text) × (s ≡ lines ls) × All (IsLine job_id) ls
  unfolding check_lines
  lines-check_lines zero job_id s h = absurd (ground (arith, h))
  lines-check_lines (suc fuel) job_id [] h = ([], refl, tt)
  lines-check_lines (suc fuel) job_id (b ∷ s) h =
      let read = read_line (suc max_job_event_line_bytes) (b ∷ s) in
      let (checked, more) =
        (something_iff read.0 (check_line to_vec from_slice job_id read.0)
            (check_lines to_vec from_slice fuel job_id read.1)
            (read_line-something max_job_event_line_bytes b s)).0
          h in
      let (ends, fits, is) = (check_line_iff job_id read.0).0 checked in
      let (lacks, same) = read_line-WholeLine (suc max_job_event_line_bytes) (b ∷ s) ends in
      let size = length-but_last read.0 ends in
      let (ls, rest, all) = lines-check_lines fuel job_id read.1 more in
      (
        but_last read.0 ∷ ls,
        same ∙ ap (λ (t : Text). but_last read.0 ++ newline ∷ t) rest,
        ((lacks, omega arith, is), all),
      )

  -- A log is accepted exactly when it has at most 8 MiB and is a sequence of lines, each of at most
  -- 4096 bytes with its newline, which parse as events of the job in the version of the log.
  pub validate_event_file_iff :
      (log job_id : Text)
      → (validate_event_file to_vec from_slice log job_id ≡ ok tt) ↔ (
          (length log ≤ max_job_event_log_bytes)
          × ((ls : List Text) × (log ≡ lines ls) × All (IsLine job_id) ls))
  unfolding validate_event_file
  validate_event_file_iff [] job_id = (λ _. (omega arith, ([], refl, tt)), λ _. refl)
  validate_event_file_iff (b ∷ log) job_id =
      let loop = check_lines to_vec from_slice (suc (length (b ∷ log))) job_id (b ∷ log) in
      (
        λ h. elim (Bool-cases (ltb max_job_event_log_bytes (length (b ∷ log)))) [
          | inl e ↦ absurd (ground (arith, e, h))
          | inr e ↦ (
            ltb_false→le _ _ e,
            lines-check_lines (suc (length (b ∷ log))) job_id (b ∷ log) (ground (arith, e, h)),
          )
        ],
        λ (fits, (ls, same, all)).
            let passed : loop ≡ ok tt =
              subst (λ (t : Text). check_lines to_vec from_slice (suc (length t)) job_id t ≡ ok tt)
                (sym same)
                (check_lines-lines (suc (length (lines ls))) job_id ls all (omega arith)) in
            rw (suc_nonzero (length log), le→ltb_false _ _ fits) passed,
      )
