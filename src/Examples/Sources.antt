-- ===== src/Examples/Sources.antt =====
-- A document with a heading, a paragraph and a link at concrete inputs.
use technical_tts.Prelude.{
  In, err, ℕ, ◌≡◌, ◌≢◌, ◌≤◌, refl, List, [], ◌∷◌, ◌++◌, none, All, ok, err, arith, length, map,
}
use technical_tts.Prelude.Distinct.{Distinct}
use mathlib.Core.List.{Perm}
use technical_tts.Text.{Text, codes, trim, trim_start, trim_end, is_blank}
use technical_tts.Text.Decimal.{to_decimal}
use technical_tts.Digest.{Digest}
use technical_tts.Lesson.{AuthoredLesson, explanation, calm}
use technical_tts.Lesson.Identifiers.{IsPortable}
use technical_tts.Markdown.{
  rule, max_source_blocks, Span, paragraph, SourceBlock, quotation, block_quote_tag, fenced_tag,
  code_block_end, block_quote_end, heading, link, unsupported_structure, heading_tag, paragraph_tag,
  link_tag, heading_end, paragraph_end, link_end, Event, start_of, end_of, text_of, soft_break,
  html, unnumbered, BlockBuilder, empty_builder, apply,
}
use technical_tts.Markdown.Source.{apply_each, parse_source}
use technical_tts.Markdown.Said.{opens_paragraph, IsInner}
use technical_tts.Markdown.Prose.{apply_each-block}
use technical_tts.Markdown.Refused.{IsSupported, parse_source-IsSupported, parse_source-unsupported}
use technical_tts.Markdown.Ordered.{IsOrdered, IsNumbered, content, parse_source-IsOrdered}
use technical_tts.Markdown.Compiled.{CompileRequest, compile_lesson, compiled, draft_from}
use technical_tts.Markdown.Numbered.{segment_ids, block_ids}
use technical_tts.Markdown.Drafts.{
  IsTitle, SpeakEach, compile_lesson-SpeakEach, compile_lesson-Distinct,
}

abbrev at : (start stop : ℕ) → Span
at start stop = record { start = start; stop = stop }

-- `# Title` and a paragraph that is a link and a word on the next line.
abbrev events : List (Event × Span)
events =
    (start_of (heading_tag 1), at 0 8)
    ∷ (text_of (codes "Title"), at 2 7)
    ∷ (end_of (heading_end 1), at 0 8)
    ∷ (start_of paragraph_tag, at 9 30)
    ∷ (start_of (link_tag (codes "url")), at 9 20)
    ∷ (text_of (codes "Read"), at 10 14)
    ∷ (end_of link_end, at 9 20)
    ∷ (soft_break, at 20 21)
    ∷ (text_of (codes "on."), at 21 24)
    ∷ (end_of paragraph_end, at 9 30)
    ∷ []

abbrev title_block : SourceBlock
title_block = record {
  id = codes "block-001";
  kind = heading 1;
  text = codes "Title";
  span = at 0 8;
}

abbrev prose_block : SourceBlock
prose_block = record {
  id = codes "block-002";
  kind = paragraph;
  text = codes "Read on.";
  span = at 9 30;
}

abbrev link_block : SourceBlock
link_block = record {
  id = codes "block-003";
  kind = link (codes "url");
  text = codes "Read";
  span = at 9 20;
}

-- The paragraph comes before the link in it, which closed first.
parsed_events : parse_source events ≡ ok (title_block ∷ prose_block ∷ link_block ∷ [])
unfolding parse_source apply trim_end trim_start is_blank to_decimal
parsed_events = refl

refused_html :
    parse_source ((html, at 4 9) ∷ []) ≡ err (unsupported_structure (codes "HTML block") 4)
unfolding parse_source apply
refused_html = refl

-- Code that is fenced inside a quotation becomes part of what is spoken.
code_in_quotation :
    parse_source (
      (start_of (block_quote_tag none), at 0 30)
      ∷ (start_of paragraph_tag, at 2 8)
      ∷ (text_of (codes "Look:"), at 2 7)
      ∷ (end_of paragraph_end, at 2 8)
      ∷ (start_of (fenced_tag (codes "rust")), at 10 28)
      ∷ (text_of (codes "let x;"), at 18 24)
      ∷ (end_of code_block_end, at 10 28)
      ∷ (end_of (block_quote_end none), at 0 30)
      ∷ [])
    ≡ ok (
        record {
          id = codes "block-001";
          kind = quotation;
          text = codes "Look:let x;";
          span = at 0 30;
        }
        ∷ [])
unfolding parse_source apply trim_end trim_start is_blank to_decimal
code_in_quotation = refl

abbrev paragraph_events : List (Event × Span)
paragraph_events = (text_of (codes "Read"), at 0 4) ∷ (soft_break, at 4 5) ∷ []

apply_each-block_example :
    (b' : BlockBuilder) × (inner : List SourceBlock) × (apply_each empty_builder [] (
        (start_of paragraph_tag, at 0 6)
        ∷ (paragraph_events ++ (end_of paragraph_end, at 0 6) ∷ []))
      ≡ apply_each b' ([] ++ inner ++ unnumbered paragraph (trim (codes "Read ")) (at 0 6) ∷ []) [])
    × (b'.opened ≡ none)
    × (b'.table_cell ≡ none)
    × All IsInner inner
apply_each-block_example =
    apply_each-block paragraph_tag paragraph paragraph_end (at 0 6) (at 0 6) paragraph_events []
      empty_builder [] opens_paragraph refl refl (tt, (tt, tt)) (omega arith)

parse_source-IsSupported_example : All (λ p. IsSupported p.0) events
parse_source-IsSupported_example =
    parse_source-IsSupported events (title_block ∷ prose_block ∷ link_block ∷ []) parsed_events

-- A rule behind a paragraph.
abbrev ruled : List (Event × Span)
ruled =
    (start_of paragraph_tag, at 0 4)
    ∷ (text_of (codes "Text"), at 0 4)
    ∷ (end_of paragraph_end, at 0 4)
    ∷ (rule, at 6 9)
    ∷ []

rule_refused : parse_source ruled ≡ err (unsupported_structure (codes "thematic break") 6)
unfolding parse_source apply_each apply
rule_refused = refl

parse_source-unsupported_example :
    (e : Event) × (span : Span) × In (e, span) ruled × (¬ IsSupported e) × (6 ≡ span.start)
parse_source-unsupported_example =
    parse_source-unsupported ruled (codes "thematic break") 6 rule_refused

parse_source-IsOrdered_example :
    IsOrdered (title_block ∷ prose_block ∷ link_block ∷ [])
    × IsNumbered 0 (title_block ∷ prose_block ∷ link_block ∷ [])
    × (length (title_block ∷ prose_block ∷ link_block ∷ []) ≤ max_source_blocks)
    × ((pushed : List SourceBlock) × (apply_each empty_builder [] events ≡ ok pushed)
        × Perm (map content (title_block ∷ prose_block ∷ link_block ∷ [])) (map content pushed))
parse_source-IsOrdered_example =
    parse_source-IsOrdered events (title_block ∷ prose_block ∷ link_block ∷ []) parsed_events

abbrev asked : CompileRequest
asked = record {
  lesson_id = codes "lesson";
  language = codes "en";
  speakers = [];
  speaker = codes "nadia";
  role = explanation;
  style = calm;
  pause_after_ms = 200;
}

abbrev read_events : Text → List (Event × Span)
read_events document = events

abbrev kept_bytes : Text → Digest
kept_bytes bytes = bytes

abbrev compiled_lesson : AuthoredLesson
compiled_lesson =
    compiled read_events kept_bytes (codes "# Title") asked (codes "Title")
      (draft_from asked 0 (prose_block ∷ []))

compiles : compile_lesson read_events kept_bytes (codes "# Title") asked ≡ ok compiled_lesson
unfolding compile_lesson draft_from parse_source apply trim_end trim_start is_blank to_decimal
compiles = refl

compile_lesson-SpeakEach_example :
    (blocks : List SourceBlock) × (parse_source events ≡ ok blocks)
    × IsTitle (codes "Title") blocks
    × SpeakEach asked compiled_lesson.segments blocks
    × (compiled_lesson.segments ≢ [])
compile_lesson-SpeakEach_example =
    compile_lesson-SpeakEach read_events kept_bytes (codes "# Title") asked compiled_lesson compiles

compile_lesson-Distinct_example :
    All IsPortable (segment_ids compiled_lesson.segments)
    × Distinct (segment_ids compiled_lesson.segments)
    × ((blocks : List SourceBlock) × (parse_source events ≡ ok blocks)
        × Distinct (block_ids blocks))
compile_lesson-Distinct_example =
    compile_lesson-Distinct read_events kept_bytes (codes "# Title") asked compiled_lesson compiles
