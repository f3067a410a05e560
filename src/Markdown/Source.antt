-- ===== src/Markdown/Source.antt =====
-- `parse_source`: the blocks of a document, in the order of their first bytes and numbered.
use technical_tts.Prelude.{
  ℕ, ◌+◌, Bool, ◌&&◌, ◌||◌, List, [], ◌∷◌, ◌++◌, length, ltb, leb, ◌==◌, if◌then◌else◌, Result, ok,
  ◌>>=◌, ◌>>◌, refuse_if,
}
use technical_tts.Text.{Text, codes}
use technical_tts.Text.Decimal.{padded}
use technical_tts.Markdown.{
  max_source_blocks, Span, SourceBlock, CompileError, too_many_source_blocks, Event, BlockBuilder,
  empty_builder, apply,
}

abbrev pub block_reference : ℕ → Text
block_reference index = codes "block-" ++ padded 3 (index + 1)

-- The loop over the events.
unfoldable pub apply_each :
    BlockBuilder → List SourceBlock → List (Event × Span) → Result (List SourceBlock) CompileError
apply_each b blocks [] = ok blocks
apply_each b blocks ((event, span) ∷ events) = do
  (b', blocks') ← apply b event span blocks
  refuse_if (ltb max_source_blocks (length blocks')) (too_many_source_blocks max_source_blocks)
  apply_each b' blocks' events

-- The key `(start, Reverse(end))` of the first block is not above that of the second.
abbrev pub key_le : Span → Span → Bool
key_le s t = ltb s.start t.start || (s.start == t.start && leb t.stop s.stop)

-- `sort_by_key`, which is stable.
unfoldable pub insert_block : SourceBlock → List SourceBlock → List SourceBlock
insert_block block [] = block ∷ []
insert_block block (other ∷ blocks) =
    let later = other ∷ insert_block block blocks in
    if key_le block.span other.span then block ∷ other ∷ blocks else later

unfoldable pub sort_by_key : List SourceBlock → List SourceBlock
unfolding insert_block
sort_by_key [] = []
sort_by_key (block ∷ blocks) = insert_block block (sort_by_key blocks)

-- The loop that overwrites the identifiers.
unfoldable pub number_from : ℕ → List SourceBlock → List SourceBlock
number_from index [] = []
number_from index (block ∷ blocks) =
    record block { id = block_reference index } ∷ number_from (index + 1) blocks

-- The events are those of the parser, with their spans.
unfoldable pub parse_source : List (Event × Span) → Result (List SourceBlock) CompileError
unfolding apply_each sort_by_key number_from
parse_source events = do
  blocks ← apply_each empty_builder [] events
  ok (number_from 0 (sort_by_key blocks))
