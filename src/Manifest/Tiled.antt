-- ===== src/Manifest/Tiled.antt =====
-- The boundaries of an assembled master pass the check of a manifest.
use technical_tts.Prelude.{
  ℕ, ◌+◌, ◌*◌, ◌≤◌, ◌≡◌, refl, ap, ◌∙◌, Bool, true, false, not, Option, some, List, [], ◌∷◌, map,
  length, All, ◌==◌, ==_iff, Result, ok, ◌>>=◌, ◌>>◌, refuse_if, arith,
}
use technical_tts.Text.{Text}
use technical_tts.Digest.{Digest}
use technical_tts.Plan.{PlannedSegment}
use technical_tts.Assembly.{
  max_u64, canonical_sample_rate, checked_mul, add_segment, CachedArtifact, Timeline, BuildError,
  assemble,
}
use technical_tts.Assembly.Sound.{pause_length, layout, total_length, assemble-IsMaster}
use technical_tts.Assembly.Width.{total-le}
use technical_tts.Manifest.Stored.{recorded_segment}
use technical_tts.Manifest.Write.{manifest_segment, manifest_segments}
use technical_tts.Manifest.Package.{next_boundary, boundary_from, validate_timeline_of}

abbrev pub max_pause_ms : ℕ
max_pause_ms = 4294967295

pub equal_self : (a : ℕ) → (a == a) ≡ true
equal_self a = (==_iff a a).1 refl

pub refuse_not-true :
    {B E : Type 0} (b : Bool) (e : E) (body : Result B E)
    → b ≡ true
    → (refuse_if (not b) e >> body) ≡ body
refuse_not-true true e body h = refl
refuse_not-true false e body h = absurd (ground (arith, h))

add_segment-some :
    (running frames pause : ℕ)
    → running + frames + pause ≤ max_u64
    → add_segment running frames pause ≡ some (running + frames + pause)
add_segment-some running frames pause h = ground (arith, h)

pause-some :
    (ms : ℕ)
    → ms ≤ max_pause_ms
    → checked_mul ms canonical_sample_rate ≡ some (ms * canonical_sample_rate)
pause-some ms h = ground (arith, h)

check_written-layout :
    (start : ℕ) (s : CachedArtifact) (p : PlannedSegment)
    → s.pause_after_ms ≤ max_pause_ms
    → start + s.frames + pause_length s ≤ max_u64
    → next_boundary start
        (recorded_segment (
          manifest_segment s p (record {
            start_frame = start;
            audio_frames = s.frames;
            pause_frames = pause_length s;
          })))
        (some (record {
          start_frame = start;
          pause_after_ms = s.pause_after_ms;
          pause_frames = pause_length s;
        }))
      ≡ ok (start + s.frames + pause_length s)
check_written-layout start s p short le =
    rw
      (
        equal_self start,
        pause-some s.pause_after_ms short,
        equal_self (pause_length s),
        add_segment-some start s.frames (pause_length s) le,
      )
      refl

boundary_from-layout :
    (start : ℕ) (ss : List CachedArtifact) (ps : List PlannedSegment)
    → length ps ≡ length ss
    → All (λ s. s.pause_after_ms ≤ max_pause_ms) ss
    → start + total_length ss ≤ max_u64
    → boundary_from start (map recorded_segment (manifest_segments ss ps (layout start ss)))
      ≡ ok (start + total_length ss)
unfolding boundary_from
boundary_from-layout start [] ps same short le = ap (λ n. ok n) (omega arith)
boundary_from-layout start (s ∷ ss) [] same short le = absurd (omega arith)
boundary_from-layout start (s ∷ ss) (p ∷ ps) same short le =
    let here = check_written-layout start s p short.0 (omega arith) in
    let next = start + s.frames + pause_length s in
    let later = boundary_from-layout next ss ps (omega arith) short.1 (omega arith) in
    let sum : next + total_length ss ≡ start + (s.frames + pause_length s + total_length ss) =
      omega arith in
    ap
      (λ r. r >>= λ b.
        boundary_from b (map recorded_segment (manifest_segments ss ps (layout next ss))))
      here
    ∙ later
    ∙ ap (λ n. ok n) sum

-- Where a master was assembled, of as many segments as are planned and with pauses that are `u32`, its
-- manifest's segments follow one another from frame zero to the last, with the pauses that they declare.
module _ {Sample : Type 0} (silence : Sample) (hash_file : Text → Result Digest BuildError)
    (decode : Text → Result (List Sample) BuildError) where
  pub assemble-validate_timeline :
      (finish : List Sample → Result (Unit {0}) BuildError) (parent : Option Text)
      (destination : Text) (ss : List CachedArtifact) (ps : List PlannedSegment)
      (r : Timeline × List Sample)
      → length ps ≡ length ss
      → All (λ s. s.pause_after_ms ≤ max_pause_ms) ss
      → assemble silence hash_file decode finish parent destination ss ≡ ok r
      → validate_timeline_of
          (some r.0.total_frames)
          (map recorded_segment (manifest_segments ss ps r.0.segments))
        ≡ ok tt
  unfolding validate_timeline_of
  assemble-validate_timeline finish parent destination ss ps r same short h =
      let m = assemble-IsMaster silence hash_file decode finish parent destination ss r h in
      let le = total-le silence hash_file decode finish parent destination ss r h in
      let frames = m.frames in
      let total : 0 + total_length ss ≡ r.0.total_frames = omega arith in
      let tiled = boundary_from-layout 0 ss ps same short (omega arith) in
      rw (m.boundaries, tiled, total, equal_self r.0.total_frames) refl
