-- ===== src/Examples/Packages.antt =====
-- The package of the assembled master, written and validated.
use technical_tts.Prelude.{
  ◌≡◌, refl, true, Option, none, some, [], ◌∷◌, map, All, inl, inr, ok, arith,
}
use technical_tts.Text.{Text, codes, text_eq}
use technical_tts.Digest.{Digest}
use technical_tts.Schema.{new}
use technical_tts.Plan.{RenderPlan, implicit}
use technical_tts.Manifest.{ffmpeg, ffprobe, outside, PackageRecord}
use technical_tts.Manifest.Layouts.{StoredArtifact, StoredManifest}
use technical_tts.Manifest.Stored.{Parsers}
use technical_tts.Manifest.Report.{
  RunReportJoin, ReportLayoutRead, current, synthesized, reused, observed, complete,
}
use technical_tts.Manifest.Package.{
  ExportProfiles, expected_executions, expected_findings, join_run_report, read_record,
  validate_package,
}
use technical_tts.Manifest.Write.{
  RecordedExecution, ManifestRecords, starts_with_text, replace_from, manifest_of, artifacts_in,
  artifact, artifacts_of, write,
}
use technical_tts.Manifest.Redacted.{IsPortableUse}
use technical_tts.Manifest.Reused.{expected_execution, reread, expectations_of}
use technical_tts.Manifest.Reconciled.{write-validate_package}
use technical_tts.Manifest.Verified.{IsVerified, validate_package-IsVerified}
use technical_tts.Examples.Masters.{
  digest_of, samples_of, takes_all, two_segments, two_planned, two_written, two_assembled,
}

abbrev two_plan : RenderPlan
two_plan = record {
  schema_version = new 4 0;
  lesson_id = codes "lesson";
  plan_hash = codes "99";
  take_selection_source = implicit;
  segments = two_planned;
}

abbrev encoding : RecordedExecution
encoding = record {
  tool = ffmpeg;
  arguments = codes "-i" ∷ codes "/tmp/stage/lesson.wav" ∷ [];
  argument_profile_blake3 = codes "88";
}

abbrev probing : RecordedExecution
probing = record {
  tool = ffprobe;
  arguments = codes "-show_format" ∷ codes "/tmp/stage/lesson.wav" ∷ [];
  argument_profile_blake3 = codes "77";
}

abbrev profiles : ExportProfiles
profiles = record {
  ffmpeg_m4a = codes "88";
  ffmpeg_mp3 = codes "88";
  ffmpeg_encoders = codes "88";
  ffmpeg_loudnorm_measure = codes "88";
  ffmpeg_loudnorm_apply = codes "88";
  ffprobe_profile = codes "77";
}

abbrev records : ManifestRecords
records = record {
  lesson_id = codes "lesson";
  build_attempt = 2;
  plan = two_plan;
  segments = two_segments;
  timeline = two_written.0;
  package_dir = codes "/tmp/stage";
  ffmpeg = record { resolved_executable = codes "/usr/bin/ffmpeg"; version = codes "7.1" };
  ffprobe = record { resolved_executable = codes "/usr/bin/ffprobe"; version = codes "7.1" };
  executions =
      encoding ∷ encoding ∷ encoding ∷ probing ∷ encoding ∷ probing ∷ encoding ∷ probing ∷ [];
  joins =
      record {
        earlier_segment_id = codes "one";
        later_segment_id = codes "two";
        tolerance = outside;
      }
      ∷ [];
  text_renderer_version = codes "1";
}

abbrev two_report : RunReportJoin
two_report = record {
  job_id = codes "lesson";
  build_attempt = 2;
  lesson_id = codes "lesson";
  plan_hash = codes "99";
  completion = complete;
  segments =
      record {
        segment_id = codes "one";
        take = 0;
        cache_outcome = synthesized;
        audio_frames = observed 3;
      }
      ∷ record {
        segment_id = codes "two";
        take = 0;
        cache_outcome = reused;
        audio_frames = observed 2;
      }
      ∷ [];
  join_findings = record { earlier_segment_id = codes "one"; later_segment_id = codes "two" } ∷ [];
}

-- Every file holds its name, and every digest is its text.
abbrev named : Text → Option Text
named name = some name

abbrev itself : Text → Digest
itself bytes = bytes

abbrev two_manifest : StoredManifest
two_manifest =
    let file : Text → StoredArtifact = λ name. record { path = name; blake3 = name } in
    manifest_of records (
      artifacts_in (file (codes "lesson.wav")) (file (codes "lesson.m4a"))
        (file (codes "lesson.mp3")) (file (codes "transcript.txt")) (file (codes "transcript.vtt"))
        (file (codes "chapters.ffmetadata")) (file (codes "run-report.json")))

abbrev parsers : Parsers
parsers = record {
  version = λ bytes. some (codes "4.0-skeleton");
  current = λ bytes. some two_manifest;
  without_report = λ bytes. none;
  skeleton = λ bytes. none;
  legacy = λ bytes. none;
}

abbrev parse_report : Text → Option (ReportLayoutRead × RunReportJoin)
parse_report bytes = some (current, two_report)

two_write : write named itself records ≡ ok two_manifest
unfolding write artifacts_of artifact
two_write = refl

encoding_portable : IsPortableUse (codes "/tmp/stage") encoding
unfolding starts_with_text
encoding_portable = record {
  some_argument = λ h. ground (arith, h);
  inside = (inr refl, (inl refl, tt));
}

probing_portable : IsPortableUse (codes "/tmp/stage") probing
unfolding starts_with_text
probing_portable = record {
  some_argument = λ h. ground (arith, h);
  inside = (inr refl, (inl refl, tt));
}

two_portable : All (IsPortableUse (codes "/tmp/stage")) records.executions
two_portable = (
  encoding_portable,
  (
    encoding_portable,
    (
      encoding_portable,
      (
        probing_portable,
        (encoding_portable, (probing_portable, (encoding_portable, (probing_portable, tt)))),
      ),
    ),
  ),
)

two_performed : map expected_execution records.executions ≡ expected_executions profiles
unfolding expected_executions
two_performed = refl

two_joined : join_run_report two_report (reread two_manifest) ≡ ok tt
unfolding join_run_report expected_findings text_eq
two_joined = refl

write-validate_package_example :
    validate_package named itself parsers parse_report
      (codes "lesson")
      (some (codes "99"))
      (some (expectations_of records profiles))
    ≡ ok true
unfolding replace_from starts_with_text
write-validate_package_example =
    write-validate_package named itself parsers parse_report 0 digest_of samples_of takes_all
      (some (codes "out")) (codes "out/master.wav") two_written.1 records two_manifest
      (codes "manifest.json") (codes "run-report.json") two_report profiles two_assembled refl
      (ground arith, (ground arith, tt)) ((refl, refl), ((refl, refl), tt)) two_performed two_write
      two_portable refl refl refl refl refl two_joined

validated :
    validate_package named itself parsers parse_report
      (codes "lesson")
      (some (codes "99"))
      (some (expectations_of records profiles))
    ≡ ok true
unfolding replace_from starts_with_text
validated =
    write-validate_package named itself parsers parse_report 0 digest_of samples_of takes_all
      (some (codes "out")) (codes "out/master.wav") two_written.1 records two_manifest
      (codes "manifest.json") (codes "run-report.json") two_report profiles two_assembled refl
      (ground arith, (ground arith, tt)) ((refl, refl), ((refl, refl), tt)) two_performed two_write
      two_portable refl refl refl refl refl two_joined

validate_package-IsVerified_example :
    (manifest : PackageRecord) × (read_record named itself parsers parse_report ≡ ok manifest)
    × IsVerified named itself parsers parse_report manifest (codes "lesson")
validate_package-IsVerified_example =
    validate_package-IsVerified named itself parsers parse_report (codes "lesson")
      (some (codes "99")) (some (expectations_of records profiles)) true validated
