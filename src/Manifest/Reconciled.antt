-- ===== src/Manifest/Reconciled.antt =====
-- `validate_package` of the package that `write` has completed.
use technical_tts.Prelude.{
  ◌≡◌, ◌≤◌, refl, ap, sym, ◌∙◌, subst, true, false, Option, some, List, map, length, All, All-mono,
  ◌==◌, Result, ok, ok_injective, bind-ok, for_each-ok_iff,
}
use technical_tts.Text.{Text, is_empty, text_eq}
use technical_tts.Digest.{Digest}
use technical_tts.Assembly.{BuildError, assemble}
use technical_tts.Manifest.{current_manifest_layout_version, PackageRecord}
use technical_tts.Manifest.Layouts.{StoredArtifacts, StoredManifest}
use technical_tts.Manifest.Stored.{
  Parsers, parse_stored_manifest, run_report_name, records_absolute_argument,
}
use technical_tts.Manifest.Report.{RunReportJoin, ReportLayoutRead, current}
use technical_tts.Manifest.Package.{
  manifest_name, check_execution, join_run_report, validate_written_timeline, validate_artifact,
  validate_run_report, ExportProfiles, expected_executions, check_record, read_record,
  validate_package,
}
use technical_tts.Manifest.Write.{ManifestRecords, manifest_of, artifacts_of, write}
use technical_tts.Manifest.Tiled.{max_pause_ms, assemble-validate_timeline}
use technical_tts.Manifest.Redacted.{IsPortableUse, IsPortableUse-relative, IsPortableUse-argued}
use technical_tts.Manifest.Reused.{
  text_self, reread, reread_execution, expected_execution, expectations_of, redacted-ok,
  executions-ok, segments-ok, reusable-reread, artifacts-IsValid,
}

module _ (files : Text → Option Text) (hash : Text → Digest) (parsers : Parsers)
    (parse_report : Text → Option (ReportLayoutRead × RunReportJoin)) where
  read_record-reread :
      (records : ManifestRecords) (artifacts : StoredArtifacts) (bytes : Text)
      → All
          (λ e. records_absolute_argument (reread_execution records.package_dir e) ≡ false)
          records.executions
      → files manifest_name ≡ some bytes
      → parsers.version bytes ≡ some current_manifest_layout_version
      → parsers.current bytes ≡ some (manifest_of records artifacts)
      → read_record files hash parsers parse_report ≡ ok (reread (manifest_of records artifacts))
  unfolding parse_stored_manifest text_eq
  read_record-reread records artifacts bytes relative found version parsed =
      rw (found, version, parsed, redacted-ok records.package_dir records.executions relative) refl

  report-current :
      (manifest : PackageRecord) (report : RunReportJoin) (bytes : Text)
      → files run_report_name ≡ some bytes
      → parse_report bytes ≡ some (current, report)
      → join_run_report report manifest ≡ ok tt
      → validate_run_report files hash parsers parse_report manifest ≡ ok current
  unfolding validate_run_report
  report-current manifest report bytes found parsed joined = rw (found, parsed, joined) refl

  check_record-reread :
      (records : ManifestRecords) (artifacts : StoredArtifacts) (report : RunReportJoin)
      (report_bytes : Text)
      → artifacts_of files hash ≡ ok artifacts
      → All (λ s. (is_empty s.segment_id ≡ false) × ((s.frames == 0) ≡ false)) records.segments
      → validate_written_timeline (reread (manifest_of records artifacts)) ≡ ok tt
      → All
          (λ e. check_execution (reread_execution records.package_dir e) ≡ ok tt)
          records.executions
      → files run_report_name ≡ some report_bytes
      → parse_report report_bytes ≡ some (current, report)
      → join_run_report report (reread (manifest_of records artifacts)) ≡ ok tt
      → check_record files hash parsers parse_report
          (reread (manifest_of records artifacts))
          records.lesson_id
        ≡ ok current
  unfolding check_record
  check_record-reread records artifacts report report_bytes made named tiled argued found parsed
        joined =
      let manifest = reread (manifest_of records artifacts) in
      let valid =
        (for_each-ok_iff (validate_artifact files hash parsers parse_report) manifest.artifacts).1
          (artifacts-IsValid files hash parsers parse_report records artifacts made) in
      rw
        (
          text_self records.lesson_id,
          segments-ok records.segments records.plan.segments records.timeline.segments named,
          tiled,
          valid,
          report-current manifest report report_bytes found parsed joined,
          executions-ok records.package_dir records.executions argued,
        )
        refl

  module _ {Sample : Type 0} (silence : Sample) (hash_file : Text → Result Digest BuildError)
      (decode : Text → Result (List Sample) BuildError) where
    -- Where a master was assembled of the segments of the plan, each with a name, with audio and with a
    -- pause that is a `u32`, the eight executions of a complete build were performed in their order, each
    -- with arguments and no absolute one but in the package directory, the manifest was written over the files of the package and reads
    -- back as it was written, and the run report joins it, a build with the same tools, profiles and
    -- selections finds the package valid, of its plan, and reusable.
    pub write-validate_package :
        (finish : List Sample → Result (Unit {0}) BuildError) (parent : Option Text)
        (destination : Text) (master : List Sample) (records : ManifestRecords)
        (manifest : StoredManifest) (bytes report_bytes : Text) (report : RunReportJoin)
        (profiles : ExportProfiles)
        → assemble silence hash_file decode finish parent destination records.segments
          ≡ ok (records.timeline, master)
        → length records.plan.segments ≡ length records.segments
        → All (λ s. s.pause_after_ms ≤ max_pause_ms) records.segments
        → All (λ s. (is_empty s.segment_id ≡ false) × ((s.frames == 0) ≡ false)) records.segments
        → map expected_execution records.executions ≡ expected_executions profiles
        → write files hash records ≡ ok manifest
        → All (IsPortableUse records.package_dir) records.executions
        → files manifest_name ≡ some bytes
        → parsers.version bytes ≡ some current_manifest_layout_version
        → parsers.current bytes ≡ some manifest
        → files run_report_name ≡ some report_bytes
        → parse_report report_bytes ≡ some (current, report)
        → join_run_report report (reread manifest) ≡ ok tt
        → validate_package files hash parsers parse_report records.lesson_id
            (some records.plan.plan_hash)
            (some (expectations_of records profiles))
          ≡ ok true
    unfolding write validate_package
    write-validate_package finish parent destination master records manifest bytes report_bytes
          report profiles assembled same short named performed written portable found version parsed
          found_report parsed_report joined =
        let dir = records.package_dir in
        let argued =
          All-mono (IsPortableUse dir) (λ e. check_execution (reread_execution dir e) ≡ ok tt)
            records.executions (IsPortableUse-argued dir) portable in
        let relative =
          All-mono (IsPortableUse dir)
            (λ e. records_absolute_argument (reread_execution dir e) ≡ false) records.executions
            (IsPortableUse-relative dir) portable in
        let (artifacts, made, e) =
          bind-ok (artifacts_of files hash) (λ a. ok (manifest_of records a)) manifest written in
        let is : manifest_of records artifacts ≡ manifest = ok_injective e in
        let tiled =
          assemble-validate_timeline silence hash_file decode finish parent destination
            records.segments records.plan.segments (records.timeline, master) same short
            assembled in
        let read =
          read_record-reread records artifacts bytes relative found version
            (parsed ∙ ap (λ m. some m) (sym is)) in
        let checked =
          check_record-reread records artifacts report report_bytes made named tiled argued
            found_report parsed_report
            (subst (λ m. join_run_report report (reread m) ≡ ok tt) (sym is) joined) in
        rw
          (
            read,
            checked,
            text_self records.plan.plan_hash,
            reusable-reread records artifacts profiles performed,
          )
          refl
