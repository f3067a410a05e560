-- ===== src/Manifest/Reused.antt =====
-- A package that was just written may be reused.
use technical_tts.Prelude.{
  sym, suc, ◌≡◌, refl, ap, subst, true, false, Option, some, List, [], ◌∷◌, map, length, All, ◌==◌,
  ok, ok_or, ok_injective, bind-ok, for_each, then-ok_iff,
}
use technical_tts.Text.{Text, is_empty, text_eq, text_eq_iff}
use technical_tts.Digest.{Digest}
use technical_tts.Plan.{TakeSelectionSource, implicit, explicit}
use technical_tts.Assembly.{CachedArtifact, WrittenSegment}
use technical_tts.Manifest.{
  RecordedTool, ffmpeg, ffprobe, PackageRecord, RecordedArtifact, RecordedToolUse, io_error,
}
use technical_tts.Manifest.Layouts.{StoredArtifact, StoredArtifacts, StoredManifest}
use technical_tts.Manifest.Stored.{
  recorded_artifact, recorded_segment, recorded_execution, from_stored, records_absolute_argument,
  redacted, Parsers, run_report_name, master_wav_name, m4a_name, mp3_name, transcript_name,
  captions_name, chapters_name,
}
use technical_tts.Manifest.Report.{
  RunReportJoin, ReportLayoutRead, current, tool_eq, take_source_eq,
}
use technical_tts.Manifest.Package.{
  check_recorded_segment, check_execution, zip_all, matches_execution, ReuseExpectations,
  ExportProfiles, expected_executions, records_every_artifact, tools_match, reusable,
  validate_artifact,
}
use technical_tts.Manifest.Write.{
  RecordedExecution, ManifestRecords, manifest_segments, execution_record, manifest_of, artifact,
  artifacts_of,
}
use technical_tts.Manifest.Tiled.{equal_self}

pub text_self : (t : Text) → text_eq t t ≡ true
text_self t = (text_eq_iff t t).1 refl

-- What the current layout is read into.
abbrev pub reread : StoredManifest → PackageRecord
reread manifest = record (from_stored manifest) { redacted_arguments = true }

abbrev pub expected_execution : RecordedExecution → RecordedTool × Digest
expected_execution e = (e.tool, e.argument_profile_blake3)

-- What a build with these tools, profiles and selections expects of a package.
abbrev pub expectations_of : ManifestRecords → ExportProfiles → ReuseExpectations
expectations_of records profiles = record {
  ffmpeg_version = records.ffmpeg.version;
  ffprobe_version = records.ffprobe.version;
  profiles = profiles;
  text_renderer_version = records.text_renderer_version;
  take_selection_source = records.plan.take_selection_source;
}

-- The execution as it is read back.
abbrev pub reread_execution : Text → RecordedExecution → RecordedToolUse
reread_execution package_dir e = recorded_execution (execution_record package_dir e)

pub redacted-ok :
    (dir : Text) (es : List RecordedExecution)
    → All (λ e. records_absolute_argument (reread_execution dir e) ≡ false) es
    → redacted (map recorded_execution (map (execution_record dir) es)) ≡ ok tt
unfolding redacted
redacted-ok dir [] h = refl
redacted-ok dir (e ∷ es) h = rw h.0 (redacted-ok dir es h.1)

pub executions-ok :
    (dir : Text) (es : List RecordedExecution)
    → All (λ e. check_execution (reread_execution dir e) ≡ ok tt) es
    → for_each check_execution (map recorded_execution (map (execution_record dir) es)) ≡ ok tt
executions-ok dir [] h = refl
executions-ok dir (e ∷ es) h = (then-ok_iff _ _ tt).1 (h.0, executions-ok dir es h.1)

tool_self : (t : RecordedTool) → tool_eq t t ≡ true
tool_self ffmpeg = refl
tool_self ffprobe = refl

source_self : (t : TakeSelectionSource) → take_source_eq t t ≡ true
source_self implicit = refl
source_self explicit = refl

executions-match :
    (dir : Text) (es : List RecordedExecution)
    → zip_all matches_execution
        (map recorded_execution (map (execution_record dir) es))
        (map expected_execution es)
      ≡ true
executions-match dir [] = refl
executions-match dir (e ∷ es) =
    rw (tool_self e.tool, text_self e.argument_profile_blake3) (executions-match dir es)

executions-length :
    (dir : Text) (es : List RecordedExecution)
    → length (map recorded_execution (map (execution_record dir) es))
      ≡ length (map expected_execution es)
executions-length dir [] = refl
executions-length dir (e ∷ es) = ap (λ n. suc n) (executions-length dir es)

pub segments-ok :
    (ss : List CachedArtifact) (ps : _) (ws : List WrittenSegment)
    → All (λ s. (is_empty s.segment_id ≡ false) × ((s.frames == 0) ≡ false)) ss
    → for_each check_recorded_segment (map recorded_segment (manifest_segments ss ps ws)) ≡ ok tt
segments-ok [] ps ws h = refl
segments-ok (s ∷ ss) [] ws h = refl
segments-ok (s ∷ ss) (p ∷ ps) [] h = refl
segments-ok (s ∷ ss) (p ∷ ps) (w ∷ ws) h = rw (h.0.0, h.0.1) (segments-ok ss ps ws h.1)

tools_match-reread :
    (records : ManifestRecords) (artifacts : StoredArtifacts) (profiles : ExportProfiles)
    → map expected_execution records.executions ≡ expected_executions profiles
    → tools_match (reread (manifest_of records artifacts)) (expectations_of records profiles) ≡ true
unfolding tools_match
tools_match-reread records artifacts profiles performed =
    rw
      (
        text_self records.ffmpeg.version,
        text_self records.ffprobe.version,
        sym performed,
        executions-length records.package_dir records.executions,
        equal_self (length (map expected_execution records.executions)),
        executions-match records.package_dir records.executions,
      )
      refl

pub reusable-reread :
    (records : ManifestRecords) (artifacts : StoredArtifacts) (profiles : ExportProfiles)
    → map expected_execution records.executions ≡ expected_executions profiles
    → reusable current
        (reread (manifest_of records artifacts))
        (some (expectations_of records profiles))
      ≡ true
unfolding reusable records_every_artifact text_eq
reusable-reread records artifacts profiles performed =
    rw
      (
        tools_match-reread records artifacts profiles performed,
        text_self records.text_renderer_version,
        source_self records.plan.take_selection_source,
      )
      refl

module _ (files : Text → Option Text) (hash : Text → Digest) (parsers : Parsers)
    (parse_report : Text → Option (ReportLayoutRead × RunReportJoin)) where
  abbrev pub IsValid : RecordedArtifact → Type 0
  IsValid a = validate_artifact files hash parsers parse_report a ≡ ok tt

  artifact-IsValid :
      (name : Text) (a : StoredArtifact)
      → artifact files hash name ≡ ok a
      → IsValid (recorded_artifact name a)
  unfolding artifact validate_artifact
  artifact-IsValid name a h =
      let (bytes, read, e) =
        bind-ok (ok_or (files name) (io_error name))
          (λ bytes. ok (record { path = name; blake3 = hash bytes })) a h in
      subst (λ b. IsValid (recorded_artifact name b)) (ok_injective e)
        (rw (text_self name, read, text_self (hash bytes)) refl)

  pub artifacts-IsValid :
      (records : ManifestRecords) (artifacts : StoredArtifacts)
      → artifacts_of files hash ≡ ok artifacts
      → All IsValid (reread (manifest_of records artifacts)).artifacts
  unfolding artifacts_of
  artifacts-IsValid records artifacts h =
      let (a, h₁, i₁) = bind-ok (artifact files hash master_wav_name) _ artifacts h in
      let (b, h₂, i₂) = bind-ok (artifact files hash m4a_name) _ artifacts i₁ in
      let (c, h₃, i₃) = bind-ok (artifact files hash mp3_name) _ artifacts i₂ in
      let (d, h₄, i₄) = bind-ok (artifact files hash transcript_name) _ artifacts i₃ in
      let (e, h₅, i₅) = bind-ok (artifact files hash captions_name) _ artifacts i₄ in
      let (f, h₆, i₆) = bind-ok (artifact files hash chapters_name) _ artifacts i₅ in
      let (g, h₇, i₇) = bind-ok (artifact files hash run_report_name) _ artifacts i₆ in
      subst (λ x. All IsValid (reread (manifest_of records x)).artifacts) (ok_injective i₇)
        (
          artifact-IsValid master_wav_name a h₁,
          (
            artifact-IsValid m4a_name b h₂,
            (
              artifact-IsValid mp3_name c h₃,
              (
                artifact-IsValid transcript_name d h₄,
                (
                  artifact-IsValid captions_name e h₅,
                  (
                    artifact-IsValid chapters_name f h₆,
                    (artifact-IsValid run_report_name g h₇, tt),
                  ),
                ),
              ),
            ),
          ),
        )
