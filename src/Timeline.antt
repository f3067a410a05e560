-- ===== src/Timeline.antt =====
-- crates/study-tts-runtime/src/timeline.rs: transcript, captions and chapters of a written timeline.
pub mod Timestamp
pub mod Escape
pub mod Documents
pub mod Chapters
use technical_tts.Prelude.{
  ℕ, zero, suc, ◌+◌, ◌-◌, ◌*◌, ◌/◌, ◌%◌, ◌^◌, Bool, ◌||◌, not, List, [], ◌∷◌, ◌++◌, length,
  replicate, ◌==◌, if◌then◌else◌,
}
use technical_tts.Text.{Text, codes, is_empty, join}
use technical_tts.Text.Decimal.{to_decimal, padded}
use technical_tts.Plan.{PlannedSegment}
use technical_tts.Assembly.{
  WrittenSegment, Timeline, canonical_sample_rate, milliseconds_per_second,
}

abbrev pub newline : ℕ
newline = 10

abbrev pub carriage_return : ℕ
carriage_return = 13

abbrev pub seconds_per_minute : ℕ
seconds_per_minute = 60

abbrev pub minutes_per_hour : ℕ
minutes_per_hour = 60

-- `u64` addition and multiplication, unchecked.
abbrev pub add_u64 : ℕ → ℕ → ℕ
add_u64 a b = (a + b) % 2 ^ 64

abbrev pub mul_u64 : ℕ → ℕ → ℕ
mul_u64 a b = (a * b) % 2 ^ 64

abbrev pub speech_end_frame : WrittenSegment → ℕ
speech_end_frame w = add_u64 w.start_frame w.audio_frames

abbrev pub chapter_end_frame : WrittenSegment → ℕ
chapter_end_frame w = add_u64 (speech_end_frame w) w.pause_frames

-- The digit put before the first part.
abbrev pub cons_first : ℕ → List Text → List Text
cons_first c [] = (c ∷ []) ∷ []
cons_first c (part ∷ parts) = (c ∷ part) ∷ parts

-- `text.split(['\r', '\n'])`.
abbrev pub split_lines : Text → List Text
split_lines [] = [] ∷ []
split_lines (c ∷ s) =
    let parts = split_lines s in
    if c == carriage_return || c == newline then [] ∷ parts else cons_first c parts

-- `filter(|line| !line.is_empty())`.
abbrev pub non_empty : List Text → List Text
non_empty [] = []
non_empty (line ∷ lines) = let rest = non_empty lines in if is_empty line then rest else line ∷ rest

unfoldable pub single_line : Text → Text
single_line text = join (codes " ") (non_empty (split_lines text))

-- `str::replace` of one ASCII character.
abbrev pub replace : ℕ → Text → Text → Text
replace b with [] = []
replace b with (c ∷ s) = let rest = replace b with s in if c == b then with ++ rest else c ∷ rest

unfoldable pub escape_cue_text : Text → Text
escape_cue_text text =
    replace b'>' (codes "&gt;")
      (replace b'<' (codes "&lt;") (replace b'&' (codes "&amp;") (single_line text)))

unfoldable pub escape_metadata_value : Text → Text
escape_metadata_value text = replace b'#' (codes "\\#") (
    replace b';' (codes "\\;")
      (replace b'=' (codes "\\=") (replace b'\\' (codes "\\\\") (single_line text))))

unfoldable pub timestamp : ℕ → Text
timestamp frames =
    let seconds = frames / canonical_sample_rate in
    let milliseconds =
      mul_u64 (frames % canonical_sample_rate) milliseconds_per_second / canonical_sample_rate in
    padded 2 (seconds / (seconds_per_minute * minutes_per_hour))
    ++ codes ":"
    ++ padded 2 (seconds / seconds_per_minute % minutes_per_hour)
    ++ codes ":"
    ++ padded 2 (seconds % seconds_per_minute)
    ++ codes "."
    ++ padded 3 milliseconds

unfoldable pub transcript : List PlannedSegment → Text
transcript [] = []
transcript (segment ∷ segments) =
    single_line segment.speaker
    ++ codes ": "
    ++ single_line segment.display_text
    ++ codes "\n"
    ++ transcript segments

-- The cue of one segment and what it was written as.
abbrev pub cue : ℕ → PlannedSegment → WrittenSegment → Text
cue index segment written =
    codes "\n"
    ++ to_decimal (index + 1)
    ++ codes "\n"
    ++ timestamp written.start_frame
    ++ codes " --> "
    ++ timestamp (speech_end_frame written)
    ++ codes "\n"
    ++ escape_cue_text segment.display_text
    ++ codes "\n"

-- The loop of `captions` from an index: it stops where either list does.
abbrev pub cues : ℕ → List PlannedSegment → List WrittenSegment → Text
cues index (segment ∷ segments) (written ∷ rest) =
    cue index segment written ++ cues (index + 1) segments rest
cues _ _ _ = []

unfoldable pub captions : List PlannedSegment → Timeline → Text
captions segments timeline = codes "WEBVTT\n" ++ cues 0 segments timeline.segments

abbrev pub chapter : PlannedSegment → WrittenSegment → Text
chapter segment written =
    codes "\n[CHAPTER]\nTIMEBASE=1/"
    ++ to_decimal canonical_sample_rate
    ++ codes "\nSTART="
    ++ to_decimal written.start_frame
    ++ codes "\nEND="
    ++ to_decimal (chapter_end_frame written)
    ++ codes "\ntitle="
    ++ escape_metadata_value segment.display_text
    ++ codes "\n"

abbrev pub chapter_records : List PlannedSegment → List WrittenSegment → Text
chapter_records (segment ∷ segments) (written ∷ rest) =
    chapter segment written ++ chapter_records segments rest
chapter_records _ _ = []

unfoldable pub chapters : List PlannedSegment → Timeline → Text
chapters segments timeline = codes ";FFMETADATA1\n" ++ chapter_records segments timeline.segments
