-- ===== src/Manifest/Report.antt =====
-- crates/study-tts-runtime/src/run_report.rs, what of a run report joins its manifest, and the
-- comparisons that manifest.rs makes of the two.
use technical_tts.Prelude.{ℕ, Bool, true, false, ◌&&◌, Option, none, some, List, [], ◌∷◌, ◌==◌}
use technical_tts.Text.{Text, text_eq}
use technical_tts.Release.{ReleaseStatus, private_preview, production_release}
use technical_tts.Plan.{TakeSelectionSource, implicit, explicit}
use technical_tts.Manifest.{RecordedTool, ffmpeg, ffprobe, JoinTolerance, outside}

-- `Measured` of run_report.rs, whose reason is left out.
pub data Measured : Type 0 where
  observed : (value : ℕ) → Measured
  unavailable : Measured

pub data CacheOutcome : Type 0 where
  synthesized reused failed : CacheOutcome

-- `RunReportSegment`, without its retries and its wall time.
pub record RunReportSegment : Type 0 where
  pub segment_id : Text
  pub take : ℕ
  pub cache_outcome : CacheOutcome
  pub audio_frames : Measured

pub record JoinFinding : Type 0 where
  pub earlier_segment_id : Text
  pub later_segment_id : Text

-- `ReportCompletion`, whose class of error is left out.
pub data ReportCompletion : Type 0 where
  complete incomplete : ReportCompletion

pub record RunReportJoin : Type 0 where
  pub job_id : Text
  pub build_attempt : ℕ
  pub lesson_id : Text
  pub plan_hash : Text
  pub completion : ReportCompletion
  pub segments : List RunReportSegment
  pub join_findings : List JoinFinding

pub data ReportLayoutRead : Type 0 where
  current superseded : ReportLayoutRead

-- Derived `==`.
abbrev pub option_eq : {A : Type 0} → (A → A → Bool) → Option A → Option A → Bool
option_eq eq none none = true
option_eq eq (some a) (some b) = eq a b
option_eq eq _ _ = false

abbrev pub number_eq : ℕ → ℕ → Bool
number_eq a b = a == b

abbrev pub is_preview : ReleaseStatus → Bool
is_preview private_preview = true
is_preview production_release = false

abbrev pub is_complete : ReportCompletion → Bool
is_complete complete = true
is_complete incomplete = false

abbrev pub is_failed : CacheOutcome → Bool
is_failed failed = true
is_failed _ = false

abbrev pub is_observed : ℕ → Measured → Bool
is_observed n (observed value) = value == n
is_observed n unavailable = false

abbrev pub is_outside : JoinTolerance → Bool
is_outside outside = true
is_outside _ = false

abbrev pub tool_eq : RecordedTool → RecordedTool → Bool
tool_eq ffmpeg ffmpeg = true
tool_eq ffprobe ffprobe = true
tool_eq _ _ = false

abbrev pub take_source_eq : TakeSelectionSource → TakeSelectionSource → Bool
take_source_eq implicit implicit = true
take_source_eq explicit explicit = true
take_source_eq _ _ = false

abbrev pub findings_eq : List JoinFinding → List JoinFinding → Bool
findings_eq [] [] = true
findings_eq (f ∷ fs) (g ∷ gs) =
    text_eq f.earlier_segment_id g.earlier_segment_id
    && text_eq f.later_segment_id g.later_segment_id
    && findings_eq fs gs
findings_eq _ _ = false
