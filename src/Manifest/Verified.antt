-- ===== src/Manifest/Verified.antt =====
-- What `validate_package` has verified of a package.
use technical_tts.Prelude.{
  ℕ, ◌+◌, ◌*◌, ◌/◌, ◌≡◌, ◌≢◌, refl, sym, subst, Bool, true, false, not, Option, none, some, List,
  [], ◌∷◌, All, All-mono, ◌==◌, ==_iff, Result, ok, ◌>>=◌, ◌>>◌, ok_or, ok_or-ok, ok_injective,
  bind-ok, refuse_if, refuse_if-ok_iff, refuse_if-then_iff, for_each, for_each-ok_iff, then-ok_iff,
  arith,
}
use technical_tts.Text.{Text, is_empty, text_eq, text_eq_iff}
use technical_tts.Digest.{Digest}
use technical_tts.Release.{ReleaseStatus, private_preview, production_release}
use technical_tts.Assembly.{
  canonical_sample_rate, milliseconds_per_second, checked_mul, add_segment,
}
use technical_tts.Assembly.Sound.{add_segment-sum}
use technical_tts.Manifest.{
  RecordedSegment, WrittenPosition, RecordedArtifact, PackageRecord, PackageError, io_error,
}
use technical_tts.Manifest.Stored.{Parsers}
use technical_tts.Manifest.Report.{
  RunReportJoin, ReportLayoutRead, is_preview, option_eq, number_eq,
}
use technical_tts.Manifest.Package.{
  ReuseExpectations, next_boundary, boundary_from, validate_timeline_of, validate_written_timeline,
  check_recorded_segment, check_execution, validate_artifact, report_of, check_record, read_record,
  validate_package,
}

not-passed : (b : Bool) → not b ≡ false → b ≡ true
not-passed b h = ground (arith, h)

-- From a boundary to another, the recorded positions follow one another without a gap, each pause with
-- the frames of its milliseconds.
pub data Tiles : ℕ → List RecordedSegment → ℕ → Type 0 where
  end : (boundary : ℕ) → Tiles boundary [] boundary
  unplaced :
      (boundary total : ℕ) (segment : RecordedSegment) (segments : List RecordedSegment)
      → segment.written ≡ none
      → Tiles boundary segments total
      → Tiles boundary (segment ∷ segments) total
  placed :
      (total : ℕ) (segment : RecordedSegment) (segments : List RecordedSegment)
      (written : WrittenPosition)
      → segment.written ≡ some written
      → written.pause_frames
        ≡ written.pause_after_ms * canonical_sample_rate / milliseconds_per_second
      → Tiles (written.start_frame + segment.frames + written.pause_frames) segments total
      → Tiles written.start_frame (segment ∷ segments) total

pause-is :
    (ms frames : ℕ)
    → option_eq number_eq
        (elim (checked_mul ms canonical_sample_rate) [
          | none ↦ none
          | some f ↦ some (f / milliseconds_per_second)
        ])
        (some frames)
      ≡ true
    → frames ≡ ms * canonical_sample_rate / milliseconds_per_second
pause-is ms frames h = ground (arith, h)

next_boundary-Tiles :
    (boundary next total : ℕ) (segment : RecordedSegment) (segments : List RecordedSegment)
    (o : Option WrittenPosition)
    → segment.written ≡ o
    → next_boundary boundary segment o ≡ ok next
    → Tiles next segments total
    → Tiles boundary (segment ∷ segments) total
next_boundary-Tiles boundary next total segment segments none w h t =
    unplaced boundary total segment segments w
      (subst (λ b. Tiles b segments total) (sym (ok_injective h)) t)
next_boundary-Tiles boundary next total segment segments (some written) w h t =
    let same = written.start_frame == boundary in
    let paused =
      option_eq number_eq
        (elim (checked_mul written.pause_after_ms canonical_sample_rate) [
          | none ↦ none
          | some f ↦ some (f / milliseconds_per_second)
        ])
        (some written.pause_frames) in
    let r₂ : Result ℕ PackageError =
      ok_or (add_segment boundary segment.frames written.pause_frames) _ in
    let r₁ = refuse_if (not paused) _ >> r₂ in
    let (a, h₁) = (refuse_if-then_iff (not same) _ r₁ next).0 h in
    let (b, h₂) = (refuse_if-then_iff (not paused) _ r₂ next).0 h₁ in
    let start = (==_iff written.start_frame boundary).0 (not-passed same a) in
    let pause = pause-is written.pause_after_ms written.pause_frames (not-passed paused b) in
    let sum =
      add_segment-sum boundary segment.frames written.pause_frames next
        (ok_or-ok (add_segment boundary segment.frames written.pause_frames) _ next h₂) in
    let along : next ≡ written.start_frame + segment.frames + written.pause_frames = omega arith in
    subst (λ b. Tiles b (segment ∷ segments) total) start
      (placed total segment segments written w pause (subst (λ b. Tiles b segments total) along t))

boundary_from-Tiles :
    (boundary total : ℕ) (segments : List RecordedSegment)
    → boundary_from boundary segments ≡ ok total
    → Tiles boundary segments total
unfolding boundary_from
boundary_from-Tiles boundary total [] h = subst (Tiles boundary []) (ok_injective h) (end boundary)
boundary_from-Tiles boundary total (segment ∷ segments) h =
    let (next, e, rest) =
      bind-ok (next_boundary boundary segment segment.written) (λ b. boundary_from b segments) total
        h in
    next_boundary-Tiles boundary next total segment segments segment.written refl e
      (boundary_from-Tiles next total segments rest)

-- A total that is recorded is what the segments span.
abbrev pub IsTiled : Option ℕ → List RecordedSegment → Type 0
IsTiled none segments = Unit
IsTiled (some total) segments = Tiles 0 segments total

validate_timeline_of-IsTiled :
    (o : Option ℕ) (segments : List RecordedSegment)
    → validate_timeline_of o segments ≡ ok tt
    → IsTiled o segments
unfolding validate_timeline_of
validate_timeline_of-IsTiled none segments h = tt
validate_timeline_of-IsTiled (some total) segments h =
    let (n, e, rest) = bind-ok (boundary_from 0 segments) _ tt h in
    let same =
      (==_iff n total).0
        (not-passed (n == total) ((refuse_if-ok_iff (not (n == total)) _).0 rest)) in
    subst (Tiles 0 segments) same (boundary_from-Tiles 0 n segments e)

-- A segment with a name and with audio.
abbrev pub IsAudible : RecordedSegment → Type 0
IsAudible segment = (is_empty segment.segment_id ≡ false) × (segment.frames ≢ 0)

check_recorded_segment-IsAudible :
    (segment : RecordedSegment) → check_recorded_segment segment ≡ ok tt → IsAudible segment
check_recorded_segment-IsAudible segment h =
    let last : Result (Unit {0}) PackageError = refuse_if (segment.frames == 0) _ in
    let (named, h₁) = (refuse_if-then_iff (is_empty segment.segment_id) _ last tt).0 h in
    let audio = (refuse_if-ok_iff (segment.frames == 0) _).0 h₁ in
    (named, λ gone. absurd (let e = (==_iff segment.frames 0).1 gone in ground (arith, audio, e)))

preview-is : (status : ReleaseStatus) → is_preview status ≡ true → status ≡ private_preview
preview-is private_preview h = refl
preview-is production_release h = absurd (ground (arith, h))

module _ (files : Text → Option Text) (hash : Text → Digest) (parsers : Parsers)
    (parse_report : Text → Option (ReportLayoutRead × RunReportJoin)) where
  -- The file is where it has to be, with the digest that is recorded.
  abbrev pub IsIntact : RecordedArtifact → Type 0
  IsIntact a =
      (a.path ≡ a.required_name)
      × ((bytes : Text) × (files a.required_name ≡ some bytes) × (hash bytes ≡ a.blake3))

  pub record IsVerified (manifest : PackageRecord) (lesson_id : Text) : Type 0 where
    pub preview : manifest.release_status ≡ private_preview
    pub lesson : manifest.lesson_id ≡ lesson_id
    pub audible : All IsAudible manifest.segments
    pub tiled : IsTiled manifest.total_frames manifest.segments
    pub intact : All IsIntact manifest.artifacts

  validate_artifact-IsIntact :
      (a : RecordedArtifact)
      → validate_artifact files hash parsers parse_report a ≡ ok tt
      → IsIntact a
  unfolding validate_artifact
  validate_artifact-IsIntact a h =
      let last : Text → Result (Unit {0}) PackageError =
        λ bytes. refuse_if (not (text_eq (hash bytes) a.blake3)) _ in
      let r = ok_or (files a.required_name) (io_error a.required_name) >>= last in
      let (p, h₁) = (refuse_if-then_iff (not (text_eq a.path a.required_name)) _ r tt).0 h in
      let (bytes, found, h₂) =
        bind-ok (ok_or (files a.required_name) (io_error a.required_name)) last tt h₁ in
      let same = (refuse_if-ok_iff (not (text_eq (hash bytes) a.blake3)) _).0 h₂ in
      (
        (text_eq_iff a.path a.required_name).0 (not-passed (text_eq a.path a.required_name) p),
        (
          bytes,
          ok_or-ok (files a.required_name) _ bytes found,
          (text_eq_iff (hash bytes) a.blake3).0 (not-passed (text_eq (hash bytes) a.blake3) same),
        ),
      )

  check_record-IsVerified :
      (manifest : PackageRecord) (lesson_id : Text) (layout : ReportLayoutRead)
      → check_record files hash parsers parse_report manifest lesson_id ≡ ok layout
      → IsVerified manifest lesson_id
  unfolding check_record
  check_record-IsVerified manifest lesson_id layout h =
      let valid = validate_artifact files hash parsers parse_report in
      let r₅ : Result ReportLayoutRead PackageError =
        report_of files hash parsers parse_report manifest manifest.build_attempt >>= λ found.
        for_each check_execution manifest.executions >> ok found in
      let r₄ = for_each valid manifest.artifacts >> r₅ in
      let r₃ = validate_written_timeline manifest >> r₄ in
      let r₂ = for_each check_recorded_segment manifest.segments >> r₃ in
      let r₁ = refuse_if (not (text_eq manifest.lesson_id lesson_id)) _ >> r₂ in
      let (a, h₁) =
        (refuse_if-then_iff (not (is_preview manifest.release_status)) _ r₁ layout).0 h in
      let (b, h₂) =
        (refuse_if-then_iff (not (text_eq manifest.lesson_id lesson_id)) _ r₂ layout).0 h₁ in
      let (c, h₃) =
        (then-ok_iff (for_each check_recorded_segment manifest.segments) r₃ layout).0 h₂ in
      let (d, h₄) = (then-ok_iff (validate_written_timeline manifest) r₄ layout).0 h₃ in
      let (e, _) = (then-ok_iff (for_each valid manifest.artifacts) r₅ layout).0 h₄ in
      record {
        preview =
            preview-is manifest.release_status (not-passed (is_preview manifest.release_status) a);
        lesson =
            (text_eq_iff manifest.lesson_id lesson_id).0
              (not-passed (text_eq manifest.lesson_id lesson_id) b);
        audible =
            All-mono (λ g. check_recorded_segment g ≡ ok tt) IsAudible manifest.segments
              check_recorded_segment-IsAudible
              ((for_each-ok_iff check_recorded_segment manifest.segments).0 c);
        tiled = validate_timeline_of-IsTiled manifest.total_frames manifest.segments d;
        intact =
            All-mono (λ x. valid x ≡ ok tt) IsIntact manifest.artifacts validate_artifact-IsIntact
              ((for_each-ok_iff valid manifest.artifacts).0 e);
      }

  -- Whatever the layout of a manifest and whether or not its package may be reused, a package that is
  -- validated is a private preview of the lesson, every artifact of it is in its place with the recorded
  -- digest, every segment has a name and audio, and where positions are recorded they follow one another
  -- from frame zero to the recorded end, each pause with the frames of its milliseconds.
  pub validate_package-IsVerified :
      (lesson_id : Text) (plan_hash : Option Text) (reuse : Option ReuseExpectations)
      (answer : Bool)
      → validate_package files hash parsers parse_report lesson_id plan_hash reuse ≡ ok answer
      → (manifest : PackageRecord) × (read_record files hash parsers parse_report ≡ ok manifest)
        × IsVerified manifest lesson_id
  unfolding validate_package
  validate_package-IsVerified lesson_id plan_hash reuse answer h =
      let (manifest, read, h₁) = bind-ok (read_record files hash parsers parse_report) _ answer h in
      let (layout, checked, _) =
        bind-ok (check_record files hash parsers parse_report manifest lesson_id) _ answer h₁ in
      (manifest, read, check_record-IsVerified manifest lesson_id layout checked)
