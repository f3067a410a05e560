-- ===== src/Assembly/Total.antt =====
-- Verified audio within the widths of the recorded fields is assembled where the writer takes it.
use technical_tts.Prelude.{
  ◌>>◌, ◌>>=◌, ℕ, ◌+◌, ◌*◌, ◌≡◌, ◌≤◌, refl, ap, ◌∙◌, some, List, [], ◌∷◌, ◌++◌, append_assoc,
  append-nil, length, replicate, All, arith, ==_iff, le→leb, Result, ok,
}
use technical_tts.Text.{Text, text_eq_iff}
use technical_tts.Digest.{Digest}
use technical_tts.Job.{max_u32}
use technical_tts.Repository.{max_lesson_segments}
use technical_tts.Assembly.{
  CachedArtifact, WrittenSegment, BuildError, max_u64, pause_frames, add_segment,
  verify_recorded_audio, count_samples, write_samples, write_segment, write_segments,
  assemble_samples, assemble, expected_from, expected_frames,
}
use technical_tts.Assembly.Sound.{pause_length, layout, total_length, Verified, audio, sound}

-- The two recorded counts are `u32`.
abbrev pub Fits : CachedArtifact → Type 0
Fits s = (s.frames ≤ max_u32) × (s.pause_after_ms ≤ max_u32)

-- The most frames a segment and its pause can have.
abbrev widest : ℕ
widest = 25 * max_u32

pause_length-le : (s : CachedArtifact) → Fits s → s.frames + pause_length s ≤ widest
pause_length-le s fits = omega (arith, fits.0, fits.1)

pause_frames-ok : (s : CachedArtifact) → Fits s → pause_frames s ≡ ok (pause_length s)
unfolding pause_frames
pause_frames-ok s fits = rw (le→leb (s.pause_after_ms * 24000) max_u64 (omega (arith, fits.1))) refl

add_segment-ok :
    (running frames pause : ℕ)
    → running + frames + pause ≤ max_u64
    → add_segment running frames pause ≡ some (running + frames + pause)
add_segment-ok running frames pause h = ground (
  arith,
  le→leb (running + frames) max_u64 (omega arith),
  le→leb (running + frames + pause) max_u64 h,
)

expected_from-ok :
    (expected : ℕ) (ss : List CachedArtifact)
    → All Fits ss
    → expected + widest * length ss ≤ max_u64
    → expected_from expected ss ≡ ok (expected + total_length ss)
unfolding expected_from
expected_from-ok expected [] fits h = ground arith
expected_from-ok expected (s ∷ ss) (fit, fits) h =
    let n = pause_length-le s fit in
    ground (
      arith,
      pause_frames-ok s fit,
      add_segment-ok expected s.frames (pause_length s) (omega arith),
      expected_from-ok (expected + s.frames + pause_length s) ss fits (omega arith),
    )

module _ {Sample : Type 0} (silence : Sample) (hash_file : Text → Result Digest BuildError)
    (decode : Text → Result (List Sample) BuildError) where
  count_samples-ok :
      (destination : Text) (counted : ℕ) (samples : List Sample)
      → counted + length samples ≤ max_u64
      → count_samples silence hash_file decode destination counted samples
        ≡ ok (counted + length samples)
  unfolding count_samples
  count_samples-ok destination counted [] h = ground arith
  count_samples-ok destination counted (x ∷ samples) h = ground (
    arith,
    le→leb (counted + 1) max_u64 (omega arith),
    count_samples-ok destination (counted + 1) samples (omega arith),
  )

  verify_recorded_audio-ok :
      (s : CachedArtifact)
      → hash_file s.audio_path ≡ ok s.audio_blake3
      → verify_recorded_audio silence hash_file decode s ≡ ok tt
  unfolding verify_recorded_audio
  verify_recorded_audio-ok s h = ground (arith, text_eq_iff s.audio_blake3 s.audio_blake3)

  write_segment-ok :
      (destination : Text) (total : ℕ) (s : CachedArtifact)
      → Fits s
      → Verified silence hash_file decode s
      → total + s.frames + pause_length s ≤ max_u64
      → write_segment silence hash_file decode destination total s
        ≡ ok (
          total + s.frames + pause_length s,
          record { start_frame = total; audio_frames = s.frames; pause_frames = pause_length s },
          audio silence hash_file decode s ++ replicate (pause_length s) silence,
        )
  unfolding write_segment write_samples
  write_segment-ok destination total s fits v h =
      let c : count_samples silence hash_file decode destination 0 v.samples ≡ ok s.frames =
        count_samples-ok destination 0 v.samples (omega (arith, v.counted))
        ∙ ap ok (omega (arith, v.counted)) in
      ground (
        arith,
        c,
        v.decoded,
        verify_recorded_audio-ok s v.hashed,
        pause_frames-ok s fits,
        ==_iff s.frames s.frames,
        add_segment-ok total s.frames (pause_length s) h,
      )

  write_segments-ok :
      (destination : Text) (ss : List CachedArtifact) (total : ℕ) (written : List WrittenSegment)
      (master : List Sample)
      → All Fits ss
      → All (Verified silence hash_file decode) ss
      → total + widest * length ss ≤ max_u64
      → write_segments silence hash_file decode destination ss total written master
        ≡ ok (
          record { segments = written ++ layout total ss; total_frames = total + total_length ss },
          master ++ sound silence hash_file decode ss,
        )
  unfolding write_segments
  write_segments-ok destination [] total written master fits v h =
      ground (arith, append-nil written, append-nil master)
  write_segments-ok destination (s ∷ ss) total written master (fit, fits) (v, vs) h =
      let n = pause_length-le s fit in
      let end = total + s.frames + pause_length s in
      let boundary : WrittenSegment = record {
        start_frame = total;
        audio_frames = s.frames;
        pause_frames = pause_length s;
      } in
      let piece = audio silence hash_file decode s ++ replicate (pause_length s) silence in
      ground (
        arith,
        write_segment-ok destination total s fit v (omega arith),
        write_segments-ok destination ss end (written ++ boundary ∷ []) (master ++ piece) fits vs
            (omega arith),
        append_assoc written (boundary ∷ []) (layout end ss),
        append_assoc master piece (sound silence hash_file decode ss),
      )

  assemble_samples-ok :
      (directory destination : Text) (ss : List CachedArtifact)
      → length ss ≤ max_lesson_segments
      → All Fits ss
      → All (Verified silence hash_file decode) ss
      → assemble_samples silence hash_file decode (some directory) destination ss
        ≡ ok (
          record { segments = layout 0 ss; total_frames = total_length ss },
          sound silence hash_file decode ss,
        )
  unfolding assemble_samples expected_frames
  assemble_samples-ok directory destination ss few fits v = ground (
    arith,
    expected_from-ok 0 ss fits (omega arith),
    write_segments-ok destination ss 0 [] [] fits v (omega arith),
    ==_iff (total_length ss) (total_length ss),
  )

  -- Up to 4096 segments whose recorded counts are `u32`, each with a file of the recorded digest and
  -- number of samples, are assembled into a destination that has a parent exactly as its writer answers to
  -- their samples with the silence of their pauses: where it takes them, the timeline is their layout from
  -- frame zero, and where it fails, its failure is reported and no other. No sum or product of the assembly
  -- passes `u64`.
  pub assemble-total :
      (finish : List Sample → Result (Unit {0}) BuildError) (directory destination : Text)
      (ss : List CachedArtifact)
      → length ss ≤ max_lesson_segments
      → All Fits ss
      → All (Verified silence hash_file decode) ss
      → assemble silence hash_file decode finish (some directory) destination ss ≡ (
          finish (sound silence hash_file decode ss)
          >> ok (
            record { segments = layout 0 ss; total_frames = total_length ss },
            sound silence hash_file decode ss,
          ))
  unfolding assemble
  assemble-total finish directory destination ss few fits v =
      ap (λ r. r >>= λ m. finish m.1 >> ok m)
        (assemble_samples-ok directory destination ss few fits v)
