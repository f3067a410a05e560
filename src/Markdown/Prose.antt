-- ===== src/Markdown/Prose.antt =====
-- What the text of a block is.
use technical_tts.Prelude.{
  ◌+◌, ◌≤◌, ◌<◌, ◌≡◌, ◌==◌, refl, sym, ap, ◌∙◌, true, false, none, some, List, [], ◌∷◌, ◌++◌,
  append_assoc, append-nil, length, length-append, All, All-append, ltb, arith, ok,
}
use technical_tts.Text.{Text, trim}
use technical_tts.Markdown.{
  max_source_blocks, Span, SourceBlockKind, SourceBlock, Tag, TagEnd, Event, start_of, end_of,
  OpenBlock, BlockBuilder, unnumbered, apply, close_block, open_block,
}
use technical_tts.Markdown.Source.{apply_each}
use technical_tts.Markdown.Said.{
  said, all_said, Opens, opens_heading, opens_paragraph, opens_item, opens_quotation, Keeps,
  IsInner,
}
use technical_tts.Markdown.Kept.{more, more-nil, apply-Keeps}

-- What a run of such events does.
record Ran (b : BlockBuilder) (o : OpenBlock) (es : List (Event × Span)) (blocks : List SourceBlock)
    : Type 0 where
  after : BlockBuilder
  inner : List SourceBlock
  ran :
      (rest : List (Event × Span))
      → apply_each b blocks (es ++ rest) ≡ apply_each after (blocks ++ inner) rest
  still_open : after.opened ≡ some (more o (all_said es))
  no_cell : after.table_cell ≡ none
  are_inner : All IsInner inner
  few : length inner ≤ length es

-- One event of the loop, where the ceiling is not passed.
apply_each-step :
    (b b' : BlockBuilder) (e : Event) (span : Span) (blocks blocks' : List SourceBlock)
    (rest : List (Event × Span))
    → apply b e span blocks ≡ ok (b', blocks')
    → length blocks' ≤ max_source_blocks
    → apply_each b blocks ((e, span) ∷ rest) ≡ apply_each b' blocks' rest
unfolding apply_each
apply_each-step b b' e span blocks blocks' rest runs fits =
    let small : ltb max_source_blocks (length blocks') ≡ false = ground (arith, fits) in
    rw (runs, small) refl

apply_each-Keeps :
    (es : List (Event × Span)) (b : BlockBuilder) (o : OpenBlock) (blocks : List SourceBlock)
    → b.opened ≡ some o
    → b.table_cell ≡ none
    → All (λ p. Keeps o.closes_on p.0) es
    → length blocks + length es ≤ max_source_blocks
    → Ran b o es blocks
apply_each-Keeps [] b o blocks h c k fits = record {
  after = b;
  inner = [];
  ran = λ rest. ap (λ (bs : List SourceBlock). apply_each b bs rest) (sym (append-nil blocks));
  still_open = h ∙ ap some (sym (more-nil o));
  no_cell = c;
  are_inner = tt;
  few = omega arith;
}
apply_each-Keeps ((e, span) ∷ es) b o blocks h c k fits =
    let first = apply-Keeps e b o span blocks h c k.0 in
    let size = length-append blocks first.inner in
    let bound = first.one_at_most in
    let later =
      apply_each-Keeps es first.after (more o (said e)) (blocks ++ first.inner) first.still_open
        first.no_cell k.1 (omega arith) in
    let size' = length-append first.inner later.inner in
    let bound' = later.few in
    record {
      after = later.after;
      inner = first.inner ++ later.inner;
      ran = λ rest.
          apply_each-step b first.after e span blocks (blocks ++ first.inner) (es ++ rest)
            first.applied (omega arith)
          ∙ later.ran rest
          ∙ ap (λ (bs : List SourceBlock). apply_each later.after bs rest)
              (append_assoc blocks first.inner later.inner);
      still_open =
          later.still_open
          ∙ ap (λ (t : Text). some (record o { text = t }))
              (append_assoc o.text (said e) (all_said es));
      no_cell = later.no_cell;
      are_inner = All-append IsInner first.inner later.inner first.are_inner later.are_inner;
      few = omega arith;
    }

opening_applied :
    (tag : Tag) (kind : SourceBlockKind) (end : TagEnd) (b : BlockBuilder) (span : Span)
    (blocks : List SourceBlock)
    → Opens tag kind end
    → apply b (start_of tag) span blocks
      ≡ ok (record b { opened = open_block kind span end b.opened }, blocks)
unfolding apply
opening_applied _ _ _ b span blocks (opens_heading level) = refl
opening_applied _ _ _ b span blocks opens_paragraph = refl
opening_applied _ _ _ b span blocks opens_item = refl
opening_applied _ _ _ b span blocks opens_quotation = refl

closing_applied :
    (tag : Tag) (kind : SourceBlockKind) (end : TagEnd) (b : BlockBuilder) (o : OpenBlock)
    (span : Span) (blocks : List SourceBlock)
    → Opens tag kind end
    → b.opened ≡ some o
    → o.closes_on ≡ end
    → apply b (end_of end) span blocks
      ≡ ok (record b { opened = none }, blocks ++ unnumbered o.kind (trim o.text) o.span ∷ [])
unfolding apply
closing_applied _ _ _ b o span blocks (opens_heading level) h c =
    let same : (level == level) ≡ true = ground arith in unfold close_block in rw (h, c, same) refl
closing_applied _ _ _ b o span blocks opens_paragraph h c = unfold close_block in rw (h, c) refl
closing_applied _ _ _ b o span blocks opens_item h c = unfold close_block in rw (h, c) refl
closing_applied _ _ _ b o span blocks opens_quotation h c = unfold close_block in rw (h, c) refl

-- Where a heading, paragraph, list item or quotation opens, only events that keep it open come before
-- its end, and the ceiling leaves room for a block for each of them, the block that is recorded for it
-- has the span of its start, and its text is everything that was said in between, trimmed; only inline
-- code and links are recorded besides.
pub apply_each-block :
    (tag : Tag) (kind : SourceBlockKind) (end : TagEnd) (span span' : Span)
    (es rest : List (Event × Span)) (b : BlockBuilder) (blocks : List SourceBlock)
    → Opens tag kind end
    → b.opened ≡ none
    → b.table_cell ≡ none
    → All (λ p. Keeps end p.0) es
    → length blocks + length es < max_source_blocks
    → (b' : BlockBuilder) × (inner : List SourceBlock) × (apply_each b blocks
          ((start_of tag, span) ∷ (es ++ (end_of end, span') ∷ rest))
        ≡ apply_each b' (blocks ++ inner ++ unnumbered kind (trim (all_said es)) span ∷ []) rest)
      × (b'.opened ≡ none)
      × (b'.table_cell ≡ none)
      × All IsInner inner
apply_each-block tag kind end span span' es rest b blocks opens h c keeps fits =
    let o : OpenBlock = record { kind = kind; text = []; span = span; closes_on = end } in
    let b₁ : BlockBuilder = record b { opened = open_block kind span end b.opened } in
    let still : b₁.opened ≡ some o = rw h refl in
    let inside = apply_each-Keeps es b₁ o blocks still c keeps (omega arith) in
    let closing =
      closing_applied tag kind end inside.after (more o (all_said es)) span'
        (blocks ++ inside.inner) opens inside.still_open refl in
    let block = unnumbered kind (trim (all_said es)) span in
    let size = length-append blocks inside.inner in
    let size' = length-append (blocks ++ inside.inner) (block ∷ []) in
    let bound = inside.few in
    (
      record inside.after { opened = none },
      inside.inner,
      apply_each-step b b₁ (start_of tag) span blocks blocks (es ++ (end_of end, span') ∷ rest)
            (opening_applied tag kind end b span blocks opens) (omega arith)
          ∙ inside.ran ((end_of end, span') ∷ rest)
          ∙ apply_each-step inside.after (record inside.after { opened = none }) (end_of end) span'
              (blocks ++ inside.inner) (blocks ++ inside.inner ++ block ∷ []) rest closing
              (omega arith),
      refl,
      inside.no_cell,
      inside.are_inner,
    )
