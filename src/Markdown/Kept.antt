-- ===== src/Markdown/Kept.antt =====
-- What one event does to a builder with an open block.
use technical_tts.Prelude.{
  ◌≤◌, ◌≡◌, refl, sym, ap, ◌∙◌, false, none, some, List, [], ◌∷◌, ◌++◌, append-nil, Option-cases,
  inl, inr, length, All, arith, ok,
}
use technical_tts.Text.{Text, codes}
use technical_tts.Markdown.{
  Span, SourceBlockKind, heading, paragraph, list_item, inline_code, quotation, link, SourceBlock,
  Tag, heading_tag, paragraph_tag, item_tag, block_quote_tag, fenced_tag, indented_tag, link_tag,
  list_tag, emphasis_tag, strong_tag, TagEnd, heading_end, paragraph_end, item_end, block_quote_end,
  code_block_end, link_end, list_end, emphasis_end, strong_end, other_end, Event, start_of, end_of,
  text_of, code_of, soft_break, hard_break, tag_end_eq, OpenBlock, BlockBuilder, unnumbered, apply,
  close_block, open_block, push_text, push_opened, code_kind,
}
use technical_tts.Markdown.Said.{said, Keeps, IsInner}

abbrev pub more : OpenBlock → Text → OpenBlock
more o text = record o { text = o.text ++ text }

pub more-nil : (o : OpenBlock) → more o [] ≡ o
more-nil o = ap (λ (t : Text). record o { text = t }) (append-nil o.text)

-- What an event does to a builder with an open block.
pub record Kept (b : BlockBuilder) (o : OpenBlock) (e : Event) (span : Span)
    (blocks : List SourceBlock) : Type 0 where
  pub after : BlockBuilder
  pub inner : List SourceBlock
  pub applied : apply b e span blocks ≡ ok (after, blocks ++ inner)
  pub still_open : after.opened ≡ some (more o (said e))
  pub no_cell : after.table_cell ≡ none
  pub are_inner : All IsInner inner
  pub one_at_most : length inner ≤ 1

-- An event that says nothing and pushes nothing.
quiet :
    (e : Event) (b b' : BlockBuilder) (o : OpenBlock) (span : Span) (blocks : List SourceBlock)
    → said e ≡ []
    → apply b e span blocks ≡ ok (b', blocks)
    → b'.opened ≡ some o
    → b'.table_cell ≡ none
    → Kept b o e span blocks
quiet e b b' o span blocks silent runs still cell = record {
  after = b';
  inner = [];
  applied = runs ∙ ap (λ (bs : List SourceBlock). ok (b', bs)) (sym (append-nil blocks));
  still_open = still ∙ ap some (sym (ap (more o) silent ∙ more-nil o));
  no_cell = cell;
  are_inner = tt;
  one_at_most = omega arith;
}

close_other :
    (tag : TagEnd) (b : BlockBuilder) (o : OpenBlock) (blocks : List SourceBlock)
    → b.opened ≡ some o
    → tag_end_eq o.closes_on tag ≡ false
    → close_block tag b blocks ≡ (b, blocks)
unfolding close_block
close_other tag b o blocks h other = rw (h, other) refl

closed_other :
    (tag : TagEnd) (b : BlockBuilder) (o : OpenBlock) (span : Span) (blocks : List SourceBlock)
    → b.opened ≡ some o
    → b.table_cell ≡ none
    → tag_end_eq o.closes_on tag ≡ false
    → apply b (end_of tag) span blocks ≡ ok (close_block tag b blocks)
    → Kept b o (end_of tag) span blocks
closed_other tag b o span blocks h c other runs =
    quiet (end_of tag) b b o span blocks refl
      (runs
        ∙ ap (λ (r : BlockBuilder × List SourceBlock). ok r) (close_other tag b o blocks h other))
      h c

reopen :
    (kind : SourceBlockKind) (span : Span) (end : TagEnd) (b : BlockBuilder) (o : OpenBlock)
    → b.opened ≡ some o
    → open_block kind span end b.opened ≡ some o
reopen kind span end b o h = rw h refl

-- A start of a block inside the open one.
nested :
    (tag : Tag) (kind : SourceBlockKind) (end : TagEnd) (b : BlockBuilder) (o : OpenBlock)
    (span : Span) (blocks : List SourceBlock)
    → b.opened ≡ some o
    → b.table_cell ≡ none
    → apply b (start_of tag) span blocks
      ≡ ok (record b { opened = open_block kind span end b.opened }, blocks)
    → Kept b o (start_of tag) span blocks
nested tag kind end b o span blocks h c runs =
    quiet (start_of tag) b (record b { opened = open_block kind span end b.opened }) o span blocks
      refl runs (reopen kind span end b o h) c

push_text-open :
    (text : Text) (b : BlockBuilder) (o : OpenBlock)
    → b.opened ≡ some o
    → b.table_cell ≡ none
    → ((push_text text b).opened ≡ some (more o text)) × ((push_text text b).table_cell ≡ none)
push_text-open text b o h c = (rw (c, h) refl, rw c refl)

broken :
    (e : Event) (b : BlockBuilder) (o : OpenBlock) (span : Span) (blocks : List SourceBlock)
    → b.opened ≡ some o
    → b.table_cell ≡ none
    → said e ≡ codes " "
    → apply b e span blocks ≡ ok (record b { opened = push_opened (codes " ") b.opened }, blocks)
    → Kept b o e span blocks
broken e b o span blocks h c is runs = record {
  after = record b { opened = push_opened (codes " ") b.opened };
  inner = [];
  applied =
      runs
      ∙ ap
          (λ (bs : List SourceBlock).
            ok (record b { opened = push_opened (codes " ") b.opened }, bs))
          (sym (append-nil blocks));
  still_open = rw h (ap (λ (t : Text). some (more o t)) (sym is));
  no_cell = c;
  are_inner = tt;
  one_at_most = omega arith;
}

ended_link :
    (b : BlockBuilder) (o : OpenBlock) (span : Span) (blocks : List SourceBlock)
    → b.opened ≡ some o
    → b.table_cell ≡ none
    → Kept b o (end_of link_end) span blocks
unfolding apply
ended_link b o span blocks h c = elim (Option-cases b.link) [
  | inl e ↦ quiet (end_of link_end) b b o span blocks refl (rw e refl) h c
  | inr (l, e) ↦ record {
    after = record b { link = none };
    inner = unnumbered (link l.destination) l.label l.span ∷ [];
    applied = rw e refl;
    still_open = h ∙ ap some (sym (more-nil o));
    no_cell = c;
    are_inner = (tt, tt);
    one_at_most = omega arith;
  }
]

pub apply-Keeps :
    (e : Event) (b : BlockBuilder) (o : OpenBlock) (span : Span) (blocks : List SourceBlock)
    → b.opened ≡ some o
    → b.table_cell ≡ none
    → Keeps o.closes_on e
    → Kept b o e span blocks
unfolding apply
apply-Keeps (text_of text) b o span blocks h c k =
    let (still, cell) = push_text-open text b o h c in
    record {
      after = push_text text b;
      inner = [];
      applied = ap (λ (bs : List SourceBlock). ok (push_text text b, bs)) (sym (append-nil blocks));
      still_open = still;
      no_cell = cell;
      are_inner = tt;
      one_at_most = omega arith;
    }
apply-Keeps (code_of text) b o span blocks h c k =
    let (still, cell) = push_text-open text b o h c in
    record {
      after = push_text text b;
      inner = unnumbered inline_code text span ∷ [];
      applied = refl;
      still_open = still;
      no_cell = cell;
      are_inner = (tt, tt);
      one_at_most = omega arith;
    }
apply-Keeps soft_break b o span blocks h c k = broken soft_break b o span blocks h c refl refl
apply-Keeps hard_break b o span blocks h c k = broken hard_break b o span blocks h c refl refl
apply-Keeps (start_of (heading_tag level)) b o span blocks h c k =
    nested (heading_tag level) (heading level) (heading_end level) b o span blocks h c refl
apply-Keeps (start_of paragraph_tag) b o span blocks h c k =
    nested paragraph_tag paragraph paragraph_end b o span blocks h c refl
apply-Keeps (start_of item_tag) b o span blocks h c k =
    nested item_tag list_item item_end b o span blocks h c refl
apply-Keeps (start_of (block_quote_tag kind)) b o span blocks h c k =
    nested (block_quote_tag kind) quotation (block_quote_end none) b o span blocks h c refl
apply-Keeps (start_of (fenced_tag info)) b o span blocks h c k =
    nested (fenced_tag info) (code_kind info) code_block_end b o span blocks h c refl
apply-Keeps (start_of indented_tag) b o span blocks h c k =
    nested indented_tag (code_kind []) code_block_end b o span blocks h c refl
apply-Keeps (start_of (link_tag destination)) b o span blocks h c k =
    quiet (start_of (link_tag destination)) b
      (record b { link = some (record { destination = destination; label = []; span = span }) }) o
      span blocks refl refl h c
apply-Keeps (start_of list_tag) b o span blocks h c k =
    quiet (start_of list_tag) b b o span blocks refl refl h c
apply-Keeps (start_of emphasis_tag) b o span blocks h c k =
    quiet (start_of emphasis_tag) b b o span blocks refl refl h c
apply-Keeps (start_of strong_tag) b o span blocks h c k =
    quiet (start_of strong_tag) b b o span blocks refl refl h c
apply-Keeps (end_of list_end) b o span blocks h c k =
    quiet (end_of list_end) b b o span blocks refl refl h c
apply-Keeps (end_of emphasis_end) b o span blocks h c k =
    quiet (end_of emphasis_end) b b o span blocks refl refl h c
apply-Keeps (end_of strong_end) b o span blocks h c k =
    quiet (end_of strong_end) b b o span blocks refl refl h c
apply-Keeps (end_of other_end) b o span blocks h c k =
    quiet (end_of other_end) b b o span blocks refl refl h c
apply-Keeps (end_of (heading_end level)) b o span blocks h c k =
    closed_other (heading_end level) b o span blocks h c k refl
apply-Keeps (end_of paragraph_end) b o span blocks h c k =
    closed_other paragraph_end b o span blocks h c k refl
apply-Keeps (end_of item_end) b o span blocks h c k =
    closed_other item_end b o span blocks h c k refl
apply-Keeps (end_of (block_quote_end kind)) b o span blocks h c k =
    closed_other (block_quote_end kind) b o span blocks h c k refl
apply-Keeps (end_of code_block_end) b o span blocks h c k =
    closed_other code_block_end b o span blocks h c k refl
apply-Keeps (end_of link_end) b o span blocks h c k = ended_link b o span blocks h c
apply-Keeps _ b o span blocks h c k = absurd k
