-- ===== src/Timeline/Documents.antt =====
-- The lines of the three documents.
use technical_tts.Prelude.{
  ℕ, ◌+◌, ◌≡◌, refl, ap, ◌∙◌, List, [], ◌∷◌, ◌++◌, append_assoc, map, All, All-append, All-mono,
  arith, ◌==◌, if◌then◌else◌,
}
use technical_tts.Text.{Text, codes}
use technical_tts.Text.Decimal.{to_decimal}
use technical_tts.Text.Decimal.RoundTrip.{IsDigit, All-to_decimal}
use technical_tts.Plan.{PlannedSegment}
use technical_tts.Assembly.{WrittenSegment, Timeline, canonical_sample_rate}
use technical_tts.Timeline.{
  newline, cons_first, single_line, escape_cue_text, escape_metadata_value, timestamp,
  speech_end_frame, chapter_end_frame, transcript, cues, captions, chapter_records, chapters,
}
use technical_tts.Text.Decimal.{padded}
use technical_tts.Text.Decimal.Padded.{All-padded}
use technical_tts.Timeline.Escape.{IsInline, single_line-IsInline}
use technical_tts.Timeline.Escape.Cue.{IsPayload, escape_cue_text-IsPayload}
use technical_tts.Timeline.Escape.Metadata.{escape_metadata_value-IsInline}

-- The lines of a document, each without the line feed that ends it.
abbrev pub lines : Text → List Text
lines [] = []
lines (c ∷ s) = let rest = lines s in if c == newline then [] ∷ rest else cons_first c rest

lines-line : (a s : Text) → All IsInline a → lines (a ++ newline ∷ s) ≡ a ∷ lines s
lines-line [] s h = refl
lines-line (c ∷ a) s h = ground (arith, lines-line a s h.1)

digits-IsInline : (s : Text) → All IsDigit s → All IsInline s
digits-IsInline s = All-mono IsDigit IsInline s (λ c h. ground arith)

to_decimal-IsInline : (n : ℕ) → All IsInline (to_decimal n)
to_decimal-IsInline n = digits-IsInline (to_decimal n) (All-to_decimal n)

padded-IsInline : (width n : ℕ) → All IsInline (padded width n)
padded-IsInline width n = digits-IsInline (padded width n) (All-padded width n)

-- A part, a mark, and a part.
marked-IsInline :
    (a b : Text) (c : ℕ)
    → All IsInline a
    → IsInline c
    → All IsInline b
    → All IsInline (a ++ (c ∷ []) ++ b)
marked-IsInline a b c ha hc hb =
    All-append IsInline (a ++ (c ∷ [])) b (All-append IsInline a (c ∷ []) ha (hc, tt)) hb

timestamp-IsInline : (frames : ℕ) → All IsInline (timestamp frames)
unfolding timestamp
timestamp-IsInline frames =
    marked-IsInline _ (padded 3 _) b'.'
      (marked-IsInline _ (padded 2 _) b':'
        (marked-IsInline (padded 2 _) (padded 2 _) b':' (padded-IsInline 2 _) (ground arith)
          (padded-IsInline 2 _))
        (ground arith) (padded-IsInline 2 _))
      (ground arith) (padded-IsInline 3 _)

abbrev pub transcript_line : PlannedSegment → Text
transcript_line segment =
    single_line segment.speaker ++ (codes ": " ++ single_line segment.display_text)

transcript_line-IsInline : (segment : PlannedSegment) → All IsInline (transcript_line segment)
transcript_line-IsInline segment =
    All-append IsInline (single_line segment.speaker) _ (single_line-IsInline segment.speaker) (
      All-append IsInline (codes ": ") _ (ground arith) (single_line-IsInline segment.display_text))

transcript_step :
    (a b s : Text)
    → (a ++ codes ": " ++ b ++ codes "\n" ++ s) ≡ (a ++ (codes ": " ++ b)) ++ newline ∷ s
transcript_step a b s = simp append_assoc refl

-- The transcript has one line for each segment: its speaker, a colon and its text, each on a single
-- line.
pub lines-transcript :
    (segments : List PlannedSegment) → lines (transcript segments) ≡ map transcript_line segments
unfolding transcript
lines-transcript [] = refl
lines-transcript (segment ∷ segments) =
    ap lines (transcript_step (single_line segment.speaker) (single_line segment.display_text) _)
    ∙ lines-line (transcript_line segment) (transcript segments) (transcript_line-IsInline segment)
    ∙ ap (λ ls. transcript_line segment ∷ ls) (lines-transcript segments)

-- The times of a cue.
abbrev pub timing : WrittenSegment → Text
timing written =
    timestamp written.start_frame ++ (codes " --> " ++ timestamp (speech_end_frame written))

timing-IsInline : (written : WrittenSegment) → All IsInline (timing written)
timing-IsInline written =
    All-append IsInline (timestamp written.start_frame) _ (timestamp-IsInline written.start_frame) (
      All-append IsInline (codes " --> ") (timestamp (speech_end_frame written)) (ground arith)
        (timestamp-IsInline (speech_end_frame written)))

-- The lines of the cues, the first one at an index.
abbrev pub cue_lines : ℕ → List PlannedSegment → List WrittenSegment → List Text
cue_lines index (segment ∷ segments) (written ∷ rest) =
    []
    ∷ to_decimal (index + 1)
    ∷ timing written
    ∷ escape_cue_text segment.display_text
    ∷ cue_lines (index + 1) segments rest
cue_lines _ _ _ = []

payload-IsInline : (text : Text) → All IsInline (escape_cue_text text)
payload-IsInline text =
    All-mono IsPayload IsInline (escape_cue_text text) (λ c h. h.2) (escape_cue_text-IsPayload text)

cue_step :
    (d a b p s : Text)
    → (codes "\n" ++ d ++ codes "\n" ++ a ++ codes " --> " ++ b ++ codes "\n" ++ p ++ codes "\n")
        ++ s
      ≡ newline ∷ (d ++ newline ∷ ((a ++ (codes " --> " ++ b)) ++ newline ∷ (p ++ newline ∷ s)))
cue_step d a b p s = simp append_assoc refl

lines-cues :
    (index : ℕ) (segments : List PlannedSegment) (written : List WrittenSegment)
    → lines (cues index segments written) ≡ cue_lines index segments written
lines-cues index [] written = refl
lines-cues index (segment ∷ segments) [] = refl
lines-cues index (segment ∷ segments) (written ∷ rest) =
    let d = to_decimal (index + 1) in
    let p = escape_cue_text segment.display_text in
    let s = cues (index + 1) segments rest in
    ap lines (cue_step d (timestamp written.start_frame) (timestamp (speech_end_frame written)) p s)
    ∙ rw
        (
          lines-line d (timing written ++ newline ∷ (p ++ newline ∷ s))
              (to_decimal-IsInline (index + 1)),
          lines-line (timing written) (p ++ newline ∷ s) (timing-IsInline written),
          lines-line p s (payload-IsInline segment.display_text),
          lines-cues (index + 1) segments rest,
        )
        refl

-- The captions are the line `WEBVTT` and four lines for each segment and what it was written as: an
-- empty one, the number of the cue from one, the times of the start and the end of its speech, and
-- its escaped text. No text moves a line.
pub lines-captions :
    (segments : List PlannedSegment) (timeline : Timeline)
    → lines (captions segments timeline) ≡ codes "WEBVTT" ∷ cue_lines 0 segments timeline.segments
unfolding captions
lines-captions segments timeline =
    ap (λ ls. codes "WEBVTT" ∷ ls) (lines-cues 0 segments timeline.segments)

-- The lines of the chapters.
abbrev pub chapter_lines : List PlannedSegment → List WrittenSegment → List Text
chapter_lines (segment ∷ segments) (written ∷ rest) =
    []
    ∷ codes "[CHAPTER]"
    ∷ codes "TIMEBASE=1/24000"
    ∷ (codes "START=" ++ to_decimal written.start_frame)
    ∷ (codes "END=" ++ to_decimal (chapter_end_frame written))
    ∷ (codes "title=" ++ escape_metadata_value segment.display_text)
    ∷ chapter_lines segments rest
chapter_lines _ _ = []

chapter_step :
    (a b p s : Text)
    → (codes "\n[CHAPTER]\nTIMEBASE=1/"
          ++ codes "24000"
          ++ codes "\nSTART="
          ++ a
          ++ codes "\nEND="
          ++ b
          ++ codes "\ntitle="
          ++ p
          ++ codes "\n")
        ++ s
      ≡ codes "\n[CHAPTER]\nTIMEBASE=1/24000\n"
        ++ ((codes "START=" ++ a)
            ++ newline ∷ ((codes "END=" ++ b) ++ newline ∷ ((codes "title=" ++ p) ++ newline ∷ s)))
chapter_step a b p s = simp append_assoc refl

rate_decimal : to_decimal canonical_sample_rate ≡ codes "24000"
unfolding to_decimal
rate_decimal = refl

lines-chapter_records :
    (segments : List PlannedSegment) (written : List WrittenSegment)
    → lines (chapter_records segments written) ≡ chapter_lines segments written
lines-chapter_records [] written = refl
lines-chapter_records (segment ∷ segments) [] = refl
lines-chapter_records (segment ∷ segments) (written ∷ rest) =
    let a = to_decimal written.start_frame in
    let b = to_decimal (chapter_end_frame written) in
    let p = escape_metadata_value segment.display_text in
    let s = chapter_records segments rest in
    let title = codes "title=" ++ p in
    rw rate_decimal (
      ap lines (chapter_step a b p s)
      ∙ rw
          (
            lines-line (codes "START=" ++ a)
                ((codes "END=" ++ b) ++ newline ∷ (title ++ newline ∷ s))
                (All-append IsInline (codes "START=") a (ground arith)
                  (to_decimal-IsInline written.start_frame)),
            lines-line (codes "END=" ++ b) (title ++ newline ∷ s) (
                All-append IsInline (codes "END=") b (ground arith)
                  (to_decimal-IsInline (chapter_end_frame written))),
            lines-line title s (
                All-append IsInline (codes "title=") p (ground arith)
                  (escape_metadata_value-IsInline segment.display_text)),
            lines-chapter_records segments rest,
          )
          refl)

-- The chapters are the line `;FFMETADATA1` and six lines for each segment and what it was written
-- as: an empty one, the section, the time base of one frame, the first frame, the frame behind the
-- pause, and the escaped text. No text moves a line.
pub lines-chapters :
    (segments : List PlannedSegment) (timeline : Timeline)
    → lines (chapters segments timeline)
      ≡ codes ";FFMETADATA1" ∷ chapter_lines segments timeline.segments
unfolding chapters
lines-chapters segments timeline =
    ap (λ ls. codes ";FFMETADATA1" ∷ ls) (lines-chapter_records segments timeline.segments)
