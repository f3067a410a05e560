-- ===== src/Markdown/Said.antt =====
-- The events between the start and the end of a block, and what they say.
use technical_tts.Prelude.{ℕ, ◌≡◌, false, none, List, [], ◌∷◌, ◌++◌}
use technical_tts.Text.{Text, codes}
use technical_tts.Markdown.{
  Span, SourceBlockKind, heading, paragraph, list_item, inline_code, quotation, link, SourceBlock,
  Tag, heading_tag, paragraph_tag, item_tag, block_quote_tag, fenced_tag, indented_tag, link_tag,
  list_tag, emphasis_tag, strong_tag, TagEnd, heading_end, paragraph_end, item_end, block_quote_end,
  code_block_end, link_end, list_end, emphasis_end, strong_end, other_end, Event, start_of, end_of,
  text_of, code_of, soft_break, hard_break, tag_end_eq,
}

-- What an event says inside a block.
abbrev pub said : Event → Text
said (text_of text) = text
said (code_of text) = text
said soft_break = codes " "
said hard_break = codes " "
said _ = []

abbrev pub all_said : List (Event × Span) → Text
all_said [] = []
all_said ((e, span) ∷ es) = said e ++ all_said es

-- The tags that open a block by themselves, with its kind and the end that closes it.
pub data Opens : Tag → SourceBlockKind → TagEnd → Type 0 where
  opens_heading : (level : ℕ) → Opens (heading_tag level) (heading level) (heading_end level)
  opens_paragraph : Opens paragraph_tag paragraph paragraph_end
  opens_item : Opens item_tag list_item item_end
  opens_quotation : Opens (block_quote_tag none) quotation (block_quote_end none)

-- An event that keeps a block with this end open: text, breaks, decoration, links, and the starts and
-- other ends of blocks inside it.
abbrev pub Keeps : TagEnd → Event → Type 0
Keeps c (text_of text) = Unit
Keeps c (code_of text) = Unit
Keeps c soft_break = Unit
Keeps c hard_break = Unit
Keeps c (start_of (heading_tag level)) = Unit
Keeps c (start_of paragraph_tag) = Unit
Keeps c (start_of item_tag) = Unit
Keeps c (start_of (block_quote_tag kind)) = Unit
Keeps c (start_of (fenced_tag info)) = Unit
Keeps c (start_of indented_tag) = Unit
Keeps c (start_of (link_tag destination)) = Unit
Keeps c (start_of list_tag) = Unit
Keeps c (start_of emphasis_tag) = Unit
Keeps c (start_of strong_tag) = Unit
Keeps c (end_of (heading_end level)) = tag_end_eq c (heading_end level) ≡ false
Keeps c (end_of paragraph_end) = tag_end_eq c paragraph_end ≡ false
Keeps c (end_of item_end) = tag_end_eq c item_end ≡ false
Keeps c (end_of (block_quote_end kind)) = tag_end_eq c (block_quote_end kind) ≡ false
Keeps c (end_of code_block_end) = tag_end_eq c code_block_end ≡ false
Keeps c (end_of link_end) = Unit
Keeps c (end_of list_end) = Unit
Keeps c (end_of emphasis_end) = Unit
Keeps c (end_of strong_end) = Unit
Keeps c (end_of other_end) = Unit
Keeps c _ = ⊥

abbrev pub IsInnerKind : SourceBlockKind → Type 0
IsInnerKind inline_code = Unit
IsInnerKind (link destination) = Unit
IsInnerKind _ = ⊥

-- A block that is pushed while another one is open: inline code or a link.
abbrev pub IsInner : SourceBlock → Type 0
IsInner block = IsInnerKind block.kind
