-- ===== src/Markdown.antt =====
-- crates/study-tts-core/src/markdown.rs: the fold over the events of a Markdown parser. The events are
-- those that the code matches on, without the contents that it does not read; which events a document
-- has is the parser's to say.
pub mod Source
pub mod Said
pub mod Kept
pub mod Prose
pub mod Refused
pub mod Ordered
pub mod Compiled
pub mod Numbered
pub mod Drafts
use technical_tts.Prelude.{
  ℕ, ◌+◌, ◌≡◌, Bool, true, false, not, ◌&&◌, ◌||◌, Option, none, some, List, [], ◌∷◌, ◌++◌, ◌==◌,
  if◌then◌else◌, Result, ok, err, ◌>>=◌,
}
use technical_tts.Text.{Text, codes, text_eq, is_blank, is_empty, trim, join}
use technical_tts.Text.Decimal.{to_decimal}

abbrev pub max_source_blocks : ℕ
max_source_blocks = 10000

-- `Range<usize>`: the bytes of the document.
pub record Span : Type 0 where
  pub start : ℕ
  pub stop : ℕ

pub data SourceBlockKind : Type 0 where
  heading : ℕ → SourceBlockKind
  paragraph list_item : SourceBlockKind
  fenced_code : Text → SourceBlockKind
  inline_code quotation : SourceBlockKind
  link : Text → SourceBlockKind
  table pronunciation_directive : SourceBlockKind

pub record SourceBlock : Type 0 where
  pub id : Text
  pub kind : SourceBlockKind
  pub text : Text
  pub span : Span

abbrev pub pronunciation_fence : Text
pronunciation_fence = codes "pronounce"

pub data CompileError : Type 0 where
  unsupported_structure : Text → ℕ → CompileError
  empty_table_cell : ℕ → Text → CompileError
  too_many_source_blocks : ℕ → CompileError
  no_title_heading : CompileError
  speaker_not_chosen : ℕ → CompileError
  speaker_declared_twice : Text → CompileError
  source_not_utf8 : ℕ → CompileError
  no_prose_to_speak : CompileError

-- `pulldown_cmark::Tag`. The kind of a block quotation is a number.
pub data Tag : Type 0 where
  heading_tag : ℕ → Tag
  paragraph_tag item_tag : Tag
  block_quote_tag : Option ℕ → Tag
  fenced_tag : Text → Tag
  indented_tag : Tag
  link_tag : Text → Tag
  table_tag table_head_tag table_row_tag table_cell_tag list_tag emphasis_tag strong_tag : Tag
  image_tag footnote_definition_tag html_block_tag strikethrough_tag superscript_tag : Tag
  subscript_tag metadata_block_tag definition_list_tag definition_list_title_tag : Tag
  definition_list_definition_tag : Tag

-- `pulldown_cmark::TagEnd`; `other_end` is each that the code passes over by its last arm.
pub data TagEnd : Type 0 where
  heading_end : ℕ → TagEnd
  paragraph_end item_end : TagEnd
  block_quote_end : Option ℕ → TagEnd
  code_block_end table_end table_head_end table_row_end table_cell_end link_end : TagEnd
  list_end emphasis_end strong_end other_end : TagEnd

-- `pulldown_cmark::Event`.
pub data Event : Type 0 where
  start_of : Tag → Event
  end_of : TagEnd → Event
  text_of : Text → Event
  code_of : Text → Event
  soft_break hard_break html inline_html footnote_reference task_list_marker rule : Event
  inline_math display_math : Event

abbrev pub kind_eq : Option ℕ → Option ℕ → Bool
kind_eq none none = true
kind_eq (some a) (some b) = a == b
kind_eq _ _ = false

-- `==` on what a block may close on.
abbrev pub tag_end_eq : TagEnd → TagEnd → Bool
tag_end_eq (heading_end a) (heading_end b) = a == b
tag_end_eq paragraph_end paragraph_end = true
tag_end_eq item_end item_end = true
tag_end_eq (block_quote_end a) (block_quote_end b) = kind_eq a b
tag_end_eq code_block_end code_block_end = true
tag_end_eq table_end table_end = true
tag_end_eq _ _ = false

pub record OpenLink : Type 0 where
  pub destination : Text
  pub label : Text
  pub span : Span

pub record OpenBlock : Type 0 where
  pub kind : SourceBlockKind
  pub text : Text
  pub span : Span
  pub closes_on : TagEnd

pub record BlockBuilder : Type 0 where
  pub opened : Option OpenBlock
  pub table_header : List Text
  pub table_cells : List Text
  pub table_cell : Option Text
  pub link : Option OpenLink

-- `BlockBuilder::default()`.
abbrev pub empty_builder : BlockBuilder
empty_builder = record {
  opened = none;
  table_header = [];
  table_cells = [];
  table_cell = none;
  link = none;
}

-- The builder behind an event, and the blocks with those that it pushed.
abbrev pub Applied : Type 0
Applied = Result (BlockBuilder × List SourceBlock) CompileError

-- `push_str` on the text of the open block.
abbrev pub push_opened : Text → Option OpenBlock → Option OpenBlock
push_opened text none = none
push_opened text (some o) = some (record o { text = o.text ++ text })

abbrev pub push_label : Text → Option OpenLink → Option OpenLink
push_label text none = none
push_label text (some l) = some (record l { label = l.label ++ text })

-- The first part of the arm of `Event::Text` and `Event::Code`.
abbrev pub push_text : Text → BlockBuilder → BlockBuilder
push_text text b = elim b.table_cell [
  | some cell ↦ record b { table_cell = some (cell ++ text); link = push_label text b.link }
  | none ↦ record b { opened = push_opened text b.opened; link = push_label text b.link }
]

-- Identifiers are left empty for the numbering.
abbrev pub unnumbered : SourceBlockKind → Text → Span → SourceBlock
unnumbered kind text span = record { id = []; kind = kind; text = text; span = span }

-- `BlockBuilder::open`.
abbrev pub open_block : SourceBlockKind → Span → TagEnd → Option OpenBlock → Option OpenBlock
open_block kind span closes_on (some o) = some o
open_block kind span closes_on none =
    some (record { kind = kind; text = []; span = span; closes_on = closes_on })

-- `BlockBuilder::close`.
close_block : TagEnd → BlockBuilder → List SourceBlock → BlockBuilder × List SourceBlock
close_block tag b blocks = elim b.opened [
  | none ↦ (b, blocks)
  | some o ↦
      if tag_end_eq o.closes_on tag
      then (record b { opened = none }, blocks ++ unnumbered o.kind (trim o.text) o.span ∷ [])
      else (b, blocks)
]

-- Each cell behind the header of its column, as far as both go.
abbrev pub row_cells : List Text → List Text → List Text
row_cells (h ∷ hs) (c ∷ cs) = (h ++ codes ": " ++ c) ∷ row_cells hs cs
row_cells _ _ = []

-- `BlockBuilder::append_table_row`.
append_table_row : BlockBuilder → BlockBuilder
append_table_row b = elim b.opened [
  | none ↦ b
  | some o ↦
      let row = join (codes ", ") (row_cells b.table_header b.table_cells) in
      let front = if is_empty o.text then o.text else o.text ++ codes " " in
      record b { opened = some (record o { text = front ++ row ++ codes "." }) }
]

-- `position` of the first blank column, counted from a number.
abbrev pub blank_position : ℕ → List Text → Option ℕ
blank_position i [] = none
blank_position i (c ∷ cs) =
    let rest = blank_position (i + 1) cs in if is_blank c then some i else rest

-- The header of the first blank cell, as far as both go.
abbrev pub blank_column : List Text → List Text → Option Text
blank_column (h ∷ hs) (c ∷ cs) =
    let rest = blank_column hs cs in if is_blank c then some h else rest
blank_column _ _ = none

abbrev pub opened_offset : BlockBuilder → ℕ
opened_offset b = elim b.opened [ none ↦ 0 | some o ↦ o.span.start ]

abbrev pub code_kind : Text → SourceBlockKind
code_kind info =
    if text_eq (trim info) pronunciation_fence then pronunciation_directive else fenced_code info

abbrev pub opening :
    SourceBlockKind → Span → TagEnd → BlockBuilder → Result BlockBuilder CompileError
opening kind span closes_on b = ok (record b { opened = open_block kind span closes_on b.opened })

abbrev pub decoration : Text
decoration = codes "unsupported inline or block decoration"

-- `BlockBuilder::start`.
start : BlockBuilder → Tag → Span → Result BlockBuilder CompileError
start b (heading_tag level) span = opening (heading level) span (heading_end level) b
start b paragraph_tag span = opening paragraph span paragraph_end b
start b item_tag span = opening list_item span item_end b
start b (block_quote_tag kind) span = opening quotation span (block_quote_end none) b
start b (fenced_tag info) span = opening (code_kind info) span code_block_end b
start b indented_tag span = opening (code_kind []) span code_block_end b
start b (link_tag destination) span =
    ok (record b { link = some (record { destination = destination; label = []; span = span }) })
start b table_tag span =
    ok (record b { table_header = []; opened = open_block table span table_end b.opened })
start b table_head_tag span = ok (record b { table_cells = [] })
start b table_row_tag span = ok (record b { table_cells = [] })
start b table_cell_tag span = ok (record b { table_cell = some [] })
start b list_tag span = ok b
start b emphasis_tag span = ok b
start b strong_tag span = ok b
start b image_tag span = err (unsupported_structure (codes "image") span.start)
start b footnote_definition_tag span =
    err (unsupported_structure (codes "footnote definition") span.start)
start b html_block_tag span = err (unsupported_structure (codes "HTML block") span.start)
start b strikethrough_tag span = err (unsupported_structure decoration span.start)
start b superscript_tag span = err (unsupported_structure decoration span.start)
start b subscript_tag span = err (unsupported_structure decoration span.start)
start b metadata_block_tag span = err (unsupported_structure decoration span.start)
start b definition_list_tag span = err (unsupported_structure decoration span.start)
start b definition_list_title_tag span = err (unsupported_structure decoration span.start)
start b definition_list_definition_tag span = err (unsupported_structure decoration span.start)

-- The arms of the ends of a table head, of a row, of a cell and of a link.
end_table_head : BlockBuilder → List SourceBlock → Applied
end_table_head b blocks = elim (blank_position 0 b.table_cells) [
  | some position ↦
      err (empty_table_cell (opened_offset b) (codes "column " ++ to_decimal (position + 1)))
  | none ↦ ok (record b { table_header = b.table_cells; table_cells = [] }, blocks)
]

end_table_row : BlockBuilder → List SourceBlock → Applied
unfolding append_table_row
end_table_row b blocks = elim (blank_column b.table_header b.table_cells) [
  | some column ↦ err (empty_table_cell (opened_offset b) column)
  | none ↦ ok (append_table_row b, blocks)
]

abbrev pub end_table_cell : BlockBuilder → BlockBuilder
end_table_cell b = elim b.table_cell [
  | none ↦ b
  | some cell ↦ record b { table_cell = none; table_cells = b.table_cells ++ cell ∷ [] }
]

abbrev pub end_link : BlockBuilder → List SourceBlock → BlockBuilder × List SourceBlock
end_link b blocks = elim b.link [
  | none ↦ (b, blocks)
  | some l ↦
      (record b { link = none }, blocks ++ unnumbered (link l.destination) l.label l.span ∷ [])
]

-- `BlockBuilder::end`.
end_tag : BlockBuilder → TagEnd → List SourceBlock → Applied
unfolding close_block end_table_head end_table_row
end_tag b (heading_end level) blocks = ok (close_block (heading_end level) b blocks)
end_tag b paragraph_end blocks = ok (close_block paragraph_end b blocks)
end_tag b item_end blocks = ok (close_block item_end b blocks)
end_tag b (block_quote_end kind) blocks = ok (close_block (block_quote_end kind) b blocks)
end_tag b code_block_end blocks = ok (close_block code_block_end b blocks)
end_tag b table_cell_end blocks = ok (end_table_cell b, blocks)
end_tag b table_head_end blocks = end_table_head b blocks
end_tag b table_row_end blocks = end_table_row b blocks
end_tag b table_end blocks = ok (close_block table_end b blocks)
end_tag b link_end blocks = ok (end_link b blocks)
end_tag b list_end blocks = ok (b, blocks)
end_tag b emphasis_end blocks = ok (b, blocks)
end_tag b strong_end blocks = ok (b, blocks)
end_tag b other_end blocks = ok (b, blocks)

-- `BlockBuilder::apply`.
unfoldable pub apply : BlockBuilder → Event → Span → List SourceBlock → Applied
unfolding start end_tag
apply b (start_of tag) span blocks = do b' ← start b tag span; ok (b', blocks)
apply b (end_of tag) span blocks = end_tag b tag blocks
apply b (text_of text) span blocks = ok (push_text text b, blocks)
apply b (code_of text) span blocks =
    ok (push_text text b, blocks ++ unnumbered inline_code text span ∷ [])
apply b soft_break span blocks = ok (record b { opened = push_opened (codes " ") b.opened }, blocks)
apply b hard_break span blocks = ok (record b { opened = push_opened (codes " ") b.opened }, blocks)
apply b html span blocks = err (unsupported_structure (codes "HTML block") span.start)
apply b inline_html span blocks = err (unsupported_structure (codes "inline HTML") span.start)
apply b footnote_reference span blocks =
    err (unsupported_structure (codes "footnote reference") span.start)
apply b task_list_marker span blocks =
    err (unsupported_structure (codes "task-list marker") span.start)
apply b rule span blocks = err (unsupported_structure (codes "thematic break") span.start)
apply b inline_math span blocks = err (unsupported_structure (codes "math span") span.start)
apply b display_math span blocks = err (unsupported_structure (codes "math span") span.start)
