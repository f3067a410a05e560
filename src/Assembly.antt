-- ===== src/Assembly.antt =====
-- crates/study-tts-runtime/src/assembly.rs: validated cache entries joined into one master.
pub mod Sound
pub mod Total
pub mod Width
use technical_tts.Prelude.{
  ℕ, zero, suc, ◌+◌, ◌*◌, ◌/◌, ◌-◌, ◌^◌, ◌≡◌, refl, Bool, true, false, not, Option, none, some,
  List, [], ◌∷◌, ◌++◌, length, replicate, leb, ltb, ◌==◌, if◌then◌else◌, Result, ok, err, ◌>>=◌,
  ◌>>◌, ok_or, refuse_if, map_err,
}
use technical_tts.Text.{Text, text_eq}
use technical_tts.Digest.{Digest}

abbrev pub max_u64 : ℕ
max_u64 = 2 ^ 64 - 1

abbrev pub canonical_sample_rate : ℕ
canonical_sample_rate = 24000

abbrev pub milliseconds_per_second : ℕ
milliseconds_per_second = 1000

-- `u64::checked_add` and `u64::checked_mul`.
abbrev pub checked_add : ℕ → ℕ → Option ℕ
checked_add a b = if leb (a + b) max_u64 then some (a + b) else none

abbrev pub checked_mul : ℕ → ℕ → Option ℕ
checked_mul a b = if leb (a * b) max_u64 then some (a * b) else none

-- `ValidatedCachedArtifact`; the last two are `u32`.
pub record CachedArtifact : Type 0 where
  pub segment_id : Text
  pub cache_key : Digest
  pub entry_dir : Text
  pub audio_path : Text
  pub audio_blake3 : Digest
  pub frames : ℕ
  pub pause_after_ms : ℕ

-- `timeline::WrittenSegment` and `timeline::Timeline`, with exact frame counts.
pub record WrittenSegment : Type 0 where
  pub start_frame : ℕ
  pub audio_frames : ℕ
  pub pause_frames : ℕ

pub record Timeline : Type 0 where
  pub segments : List WrittenSegment
  pub total_frames : ℕ

-- `io` is a failure of the file system or of `hound`.
pub data BuildError : Type 0 where
  io : ℕ → BuildError
  unrooted_destination : Text → BuildError
  pause_frame_overflow : Text → ℕ → BuildError
  planned_length_overflow : BuildError
  assembled_length_overflow : Text → BuildError
  assembled_length_mismatch : Text → ℕ → ℕ → BuildError
  checksum_mismatch : Text → Text → Digest → Digest → BuildError
  frame_count_mismatch : Text → Text → ℕ → ℕ → BuildError

unfoldable pub pause_frames : CachedArtifact → Result ℕ BuildError
pause_frames segment = do
  product ←
      ok_or (checked_mul segment.pause_after_ms canonical_sample_rate)
        (pause_frame_overflow segment.segment_id segment.pause_after_ms)
  ok (product / milliseconds_per_second)

-- `running + frames + pause`, checked.
abbrev pub add_segment : ℕ → ℕ → ℕ → Option ℕ
add_segment running frames pause = elim (checked_add running frames) [
  | none ↦ none
  | some sum ↦ checked_add sum pause
]

-- The loop of `expected_frames`, with the sum so far.
pub expected_from : ℕ → List CachedArtifact → Result ℕ BuildError
expected_from expected [] = ok expected
expected_from expected (segment ∷ segments) = do
  pause ← pause_frames segment
  expected' ← ok_or (add_segment expected segment.frames pause) planned_length_overflow
  expected_from expected' segments

unfoldable pub expected_frames : List CachedArtifact → Result ℕ BuildError
expected_frames segments = expected_from 0 segments

-- What the assembly reads: `hash_file` of an audio file, and the samples that `hound` decodes from
-- it, in order. `Sample` is `f32` and `silence` its `0.0`.
module _ {Sample : Type 0} (silence : Sample) (hash_file : Text → Result Digest BuildError)
    (decode : Text → Result (List Sample) BuildError) where
  unfoldable pub verify_recorded_audio : CachedArtifact → Result (Unit {0}) BuildError
  verify_recorded_audio segment = do
    computed ← hash_file segment.audio_path
    refuse_if (not (text_eq computed segment.audio_blake3))
        (checksum_mismatch segment.entry_dir segment.segment_id computed segment.audio_blake3)

  -- `segment_frames`, counted one sample at a time.
  pub count_samples : Text → ℕ → List Sample → Result ℕ BuildError
  count_samples destination counted [] = ok counted
  count_samples destination counted (sample ∷ samples) = do
    counted' ← ok_or (checked_add counted 1) (assembled_length_overflow destination)
    count_samples destination counted' samples

  -- The rest of a round, behind the decoding of the samples.
  pub write_samples :
      Text → ℕ → CachedArtifact → List Sample → Result (ℕ × WrittenSegment × List Sample) BuildError
  write_samples destination total segment samples = do
    counted ← count_samples destination 0 samples
    refuse_if (not (counted == segment.frames))
        (frame_count_mismatch segment.entry_dir segment.segment_id counted segment.frames)
    pause ← pause_frames segment
    total' ← ok_or (add_segment total counted pause) (assembled_length_overflow destination)
    ok (
      total',
      record { start_frame = total; audio_frames = counted; pause_frames = pause },
      samples ++ replicate pause silence,
    )

  -- One round of the write loop from `total`: the new total, the boundaries, and what is written.
  pub write_segment :
      Text → ℕ → CachedArtifact → Result (ℕ × WrittenSegment × List Sample) BuildError
  write_segment destination total segment = do
    verify_recorded_audio segment
    samples ← decode segment.audio_path
    write_samples destination total segment samples

  -- The write loop: `total` is `total_frames`, `written` the boundaries and `master` the samples
  -- written so far.
  pub write_segments :
      Text
      → List CachedArtifact
      → ℕ
      → List WrittenSegment
      → List Sample
      → Result (Timeline × List Sample) BuildError
  write_segments destination [] total written master =
      ok (record { segments = written; total_frames = total }, master)
  write_segments destination (segment ∷ segments) total written master = do
    (total', boundary, samples) ← write_segment destination total segment
    write_segments destination segments total' (written ++ boundary ∷ []) (master ++ samples)

  -- The timeline and the samples that the writer is given; `parent` is `destination.parent()`.
  unfoldable pub assemble_samples :
      Option Text → Text → List CachedArtifact → Result (Timeline × List Sample) BuildError
  assemble_samples parent destination segments = do
    directory ← ok_or parent (unrooted_destination destination)
    expected ← expected_frames segments
    (timeline, master) ← write_segments destination segments 0 [] []
    refuse_if (not (timeline.total_frames == expected))
        (assembled_length_mismatch destination timeline.total_frames expected)
    ok (timeline, master)

  -- `finish` is what the file operations answer to all of the samples: the temporary file, `hound`'s writer
  -- with its 32 bits for the length of the data, `finalize`, and `persist`, which renames the master into
  -- place. A failure of the writer is reported here, where the code stops at the sample.
  unfoldable pub assemble :
      (finish : List Sample → Result (Unit {0}) BuildError)
      → Option Text
      → Text
      → List CachedArtifact
      → Result (Timeline × List Sample) BuildError
  assemble finish parent destination segments = do
    assembled ← assemble_samples parent destination segments
    finish assembled.1
    ok assembled
