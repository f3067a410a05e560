-- ===== src/Examples/Masters.antt =====
-- An assembly of two segments, and its timeline documents, at concrete inputs.
use technical_tts.Prelude.{
  ℕ, ◌≡◌, refl, arith, none, some, List, [], ◌∷◌, All, Result, ok, if◌then◌else◌,
}
use technical_tts.Text.{Text, codes, text_eq, join}
use technical_tts.Text.Decimal.{to_decimal}
use technical_tts.Digest.{Digest}
use technical_tts.Plan.{PlannedSegment}
use technical_tts.Lesson.{calm}
use technical_tts.Assembly.{CachedArtifact, Timeline, BuildError, assemble}
use technical_tts.Assembly.Sound.{Verified, layout, sound, IsMaster, assemble-IsMaster}
use technical_tts.Assembly.Total.{Fits, assemble-total}
use technical_tts.Timeline.{
  single_line, escape_cue_text, escape_metadata_value, timestamp, captions,
}
use technical_tts.Timeline.Timestamp.{read_timestamp, read-timestamp}
use technical_tts.Timeline.Escape.Cue.{read_cue, read-escape_cue_text}
use technical_tts.Timeline.Documents.{lines, cue_lines, lines-captions}
use technical_tts.Timeline.Chapters.{Contiguous, assemble-Contiguous}

abbrev pub artifact : Text → ℕ → ℕ → CachedArtifact
artifact id frames pause = record {
  segment_id = id;
  cache_key = codes "cc";
  entry_dir = codes "cc/dd";
  audio_path = id;
  audio_blake3 = id;
  frames = frames;
  pause_after_ms = pause;
}

abbrev pub two_segments : List CachedArtifact
two_segments = artifact (codes "one") 3 1 ∷ artifact (codes "two") 2 0 ∷ []

-- A file whose digest is its name, and whose samples are `3` or `2` ones.
abbrev pub digest_of : Text → Result Digest BuildError
digest_of path = ok path

abbrev pub samples_of : Text → Result (List ℕ) BuildError
samples_of path = if text_eq path (codes "one") then ok (1 ∷ 1 ∷ 1 ∷ []) else ok (1 ∷ 1 ∷ [])

abbrev pub two_written : Timeline × List ℕ
two_written = (
  record { segments = layout 0 two_segments; total_frames = 29 },
  sound 0 digest_of samples_of two_segments,
)

two_segments-Verified : All (Verified 0 digest_of samples_of) two_segments
unfolding text_eq
two_segments-Verified = (
  record { samples = 1 ∷ 1 ∷ 1 ∷ []; hashed = refl; decoded = refl; counted = refl },
  (record { samples = 1 ∷ 1 ∷ []; hashed = refl; decoded = refl; counted = refl }, tt),
)

two_fit : All Fits two_segments
two_fit = ((omega arith, omega arith), ((omega arith, omega arith), tt))

-- A writer that takes any samples.
abbrev pub takes_all : List ℕ → Result (Unit {0}) BuildError
takes_all samples = ok tt

assemble-total_example :
    assemble 0 digest_of samples_of takes_all
      (some (codes "out"))
      (codes "out/master.wav")
      two_segments
    ≡ ok two_written
assemble-total_example =
    assemble-total 0 digest_of samples_of takes_all (codes "out") (codes "out/master.wav")
      two_segments (omega arith) two_fit two_segments-Verified

-- The assembly above, for the theorems that start from a finished one.
pub two_assembled :
    assemble 0 digest_of samples_of takes_all
      (some (codes "out"))
      (codes "out/master.wav")
      two_segments
    ≡ ok two_written
two_assembled =
    assemble-total 0 digest_of samples_of takes_all (codes "out") (codes "out/master.wav")
      two_segments (omega arith) two_fit two_segments-Verified

assemble-IsMaster_example : IsMaster 0 digest_of samples_of two_segments two_written
assemble-IsMaster_example =
    assemble-IsMaster 0 digest_of samples_of takes_all (some (codes "out")) (codes "out/master.wav")
      two_segments two_written two_assembled

assemble-Contiguous_example : Contiguous 0 (layout 0 two_segments) 29
assemble-Contiguous_example =
    assemble-Contiguous 0 digest_of samples_of takes_all (some (codes "out"))
      (codes "out/master.wav") two_segments two_written two_assembled

timestamp_runs : timestamp 24023 ≡ codes "00:00:01.000"
unfolding timestamp to_decimal
timestamp_runs = refl

read-timestamp_example : read_timestamp (timestamp 24023) ≡ some 1000
read-timestamp_example = read-timestamp 24023 (omega arith)

abbrev hostile : Text
hostile = codes "a\n\n<b> --> c=d;\\e"

cue_text_runs : escape_cue_text hostile ≡ codes "a &lt;b&gt; --&gt; c=d;\\e"
unfolding escape_cue_text single_line join
cue_text_runs = refl

value_runs : escape_metadata_value hostile ≡ codes "a <b> --> c\\=d\\;\\\\e"
unfolding escape_metadata_value single_line join
value_runs = refl

read-escape_cue_text_example : read_cue (escape_cue_text hostile) ≡ single_line hostile
read-escape_cue_text_example = read-escape_cue_text hostile

abbrev pub planned_segment : Text → PlannedSegment
planned_segment id = record {
  id = id;
  speaker = codes "nadia";
  voice_profile = codes "nadia-v1";
  display_text = hostile;
  spoken_text = codes "Spoken.";
  style = calm;
  pause_after_ms = 0;
  take = 0;
  cache_key = codes "cc";
  synthesis_base_key = codes "cc";
  audio_blake3 = none;
}

abbrev pub two_planned : List PlannedSegment
two_planned = planned_segment (codes "one") ∷ planned_segment (codes "two") ∷ []

lines-captions_example :
    lines (captions two_planned two_written.0)
    ≡ codes "WEBVTT" ∷ cue_lines 0 two_planned (layout 0 two_segments)
lines-captions_example = lines-captions two_planned two_written.0
