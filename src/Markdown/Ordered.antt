-- ===== src/Markdown/Ordered.antt =====
-- The order and the numbers of the blocks of a document.
use mathlib.Core.List.{Perm}
use mathlib.Core.List.Perm
use technical_tts.Prelude.{
  ℕ, suc, ◌+◌, ◌<◌, ◌≤◌, ◌≡◌, ◌⊎◌, inl, inr, refl, sym, ap, subst, ◌∙◌, true, false, List, [], ◌∷◌,
  map, length, All, All-mono, Bool-cases, ltb, ltb_false→le, arith, ok, ◌>>◌, refuse_if,
  Result-cases, then-ok_iff, refuse_if-ok_iff,
}
use technical_tts.Markdown.{
  max_source_blocks, Span, SourceBlock, BlockBuilder, Event, empty_builder, too_many_source_blocks,
  apply,
}
use technical_tts.Markdown.Source.{
  block_reference, apply_each, key_le, insert_block, sort_by_key, number_from, parse_source,
}

-- The span begins before the other one, or at the same byte and does not end before it.
abbrev pub Before : Span → Span → Type 0
Before s t = (s.start < t.start) ⊎ ((s.start ≡ t.start) × (t.stop ≤ s.stop))

-- Each block is before all that follow it.
abbrev pub IsOrdered : List SourceBlock → Type 0
IsOrdered [] = Unit
IsOrdered (block ∷ blocks) = All (λ b. Before block.span b.span) blocks × IsOrdered blocks

-- The identifiers count from a number.
abbrev pub IsNumbered : ℕ → List SourceBlock → Type 0
IsNumbered index [] = Unit
IsNumbered index (block ∷ blocks) =
    (block.id ≡ block_reference index) × IsNumbered (index + 1) blocks

-- A block without its identifier.
abbrev pub content : SourceBlock → SourceBlock
content block = record block { id = [] }

key_le-Before : (s t : Span) → key_le s t ≡ true → Before s t
key_le-Before s t h = ground (arith, h)

key_le-false : (s t : Span) → key_le s t ≡ false → Before t s
key_le-false s t h = ground (arith, h)

Before-trans : (s t u : Span) → Before s t → Before t u → Before s u
Before-trans s t u h k = ground (arith, h, k)

All-insert_block :
    (P : SourceBlock → Type 0) (block : SourceBlock) (blocks : List SourceBlock)
    → P block
    → All P blocks
    → All P (insert_block block blocks)
unfolding insert_block
All-insert_block P block [] h k = (h, tt)
All-insert_block P block (other ∷ blocks) h k = elim (Bool-cases (key_le block.span other.span)) [
  | inl e ↦ rw e (h, k)
  | inr e ↦ rw e (k.0, All-insert_block P block blocks h k.1)
]

insert_block-IsOrdered :
    (block : SourceBlock) (blocks : List SourceBlock)
    → IsOrdered blocks
    → IsOrdered (insert_block block blocks)
unfolding insert_block
insert_block-IsOrdered block [] h = (tt, tt)
insert_block-IsOrdered block (other ∷ blocks) h = elim (Bool-cases (key_le block.span other.span)) [
  | inl e ↦
      let first = key_le-Before block.span other.span e in
      rw e (
        (
          first,
          All-mono (λ b. Before other.span b.span) (λ b. Before block.span b.span) blocks
              (λ b k. Before-trans block.span other.span b.span first k) h.0,
        ),
        h,
      )
  | inr e ↦ rw e (
    All-insert_block (λ b. Before other.span b.span) block blocks
        (key_le-false block.span other.span e) h.0,
    insert_block-IsOrdered block blocks h.1,
  )
]

sort_by_key-IsOrdered : (blocks : List SourceBlock) → IsOrdered (sort_by_key blocks)
unfolding sort_by_key
sort_by_key-IsOrdered [] = tt
sort_by_key-IsOrdered (block ∷ blocks) =
    insert_block-IsOrdered block (sort_by_key blocks) (sort_by_key-IsOrdered blocks)

insert_block-perm :
    (block : SourceBlock) (blocks : List SourceBlock)
    → Perm (map content (insert_block block blocks)) (content block ∷ map content blocks)
unfolding insert_block
insert_block-perm block [] = Perm.refl (content block ∷ [])
insert_block-perm block (other ∷ blocks) = elim (Bool-cases (key_le block.span other.span)) [
  | inl e ↦ rw e (Perm.refl _)
  | inr e ↦ rw e (
      Perm.trans (Perm.cons (content other) (insert_block-perm block blocks))
        (Perm.swap (content block) (content other) (map content blocks)))
]

sort_by_key-perm :
    (blocks : List SourceBlock) → Perm (map content (sort_by_key blocks)) (map content blocks)
unfolding sort_by_key
sort_by_key-perm [] = Perm.refl []
sort_by_key-perm (block ∷ blocks) =
    Perm.trans (insert_block-perm block (sort_by_key blocks))
      (Perm.cons (content block) (sort_by_key-perm blocks))

map-content-number_from :
    (index : ℕ) (blocks : List SourceBlock)
    → map content (number_from index blocks) ≡ map content blocks
unfolding number_from
map-content-number_from index [] = refl
map-content-number_from index (block ∷ blocks) =
    ap (λ (bs : List SourceBlock). content block ∷ bs) (map-content-number_from (index + 1) blocks)

All-number_from :
    (P : Span → Type 0) (index : ℕ) (blocks : List SourceBlock)
    → All (λ b. P b.span) blocks
    → All (λ b. P b.span) (number_from index blocks)
unfolding number_from
All-number_from P index [] h = tt
All-number_from P index (block ∷ blocks) h = (h.0, All-number_from P (index + 1) blocks h.1)

number_from-IsOrdered :
    (index : ℕ) (blocks : List SourceBlock)
    → IsOrdered blocks
    → IsOrdered (number_from index blocks)
unfolding number_from
number_from-IsOrdered index [] h = tt
number_from-IsOrdered index (block ∷ blocks) h = (
  All-number_from (Before block.span) (index + 1) blocks h.0,
  number_from-IsOrdered (index + 1) blocks h.1,
)

number_from-IsNumbered :
    (index : ℕ) (blocks : List SourceBlock) → IsNumbered index (number_from index blocks)
unfolding number_from
number_from-IsNumbered index [] = tt
number_from-IsNumbered index (block ∷ blocks) = (refl, number_from-IsNumbered (index + 1) blocks)

length-insert_block :
    (block : SourceBlock) (blocks : List SourceBlock)
    → length (insert_block block blocks) ≡ suc (length blocks)
unfolding insert_block
length-insert_block block [] = refl
length-insert_block block (other ∷ blocks) = elim (Bool-cases (key_le block.span other.span)) [
  | inl e ↦ rw e refl
  | inr e ↦ rw e (ap (λ n. suc n) (length-insert_block block blocks))
]

length-sort_by_key : (blocks : List SourceBlock) → length (sort_by_key blocks) ≡ length blocks
unfolding sort_by_key
length-sort_by_key [] = refl
length-sort_by_key (block ∷ blocks) =
    length-insert_block block (sort_by_key blocks) ∙ ap (λ n. suc n) (length-sort_by_key blocks)

length-number_from :
    (index : ℕ) (blocks : List SourceBlock) → length (number_from index blocks) ≡ length blocks
unfolding number_from
length-number_from index [] = refl
length-number_from index (block ∷ blocks) = ap (λ n. suc n) (length-number_from (index + 1) blocks)

length-apply_each :
    (events : List (Event × Span)) (b : BlockBuilder) (blocks out : List SourceBlock)
    → length blocks ≤ max_source_blocks
    → apply_each b blocks events ≡ ok out
    → length out ≤ max_source_blocks
unfolding apply_each
length-apply_each [] b blocks out fits h =
    subst (λ (bs : List SourceBlock). length bs ≤ max_source_blocks) (ground (arith, h)) fits
length-apply_each ((e, span) ∷ events) b blocks out fits h =
    elim (Result-cases (apply b e span blocks)) [
      | inr (x, failed) ↦ absurd (ground (arith, failed, h))
      | inl (r, ran) ↦
          let rest : (refuse_if (ltb max_source_blocks (length r.1))
                  (too_many_source_blocks max_source_blocks)
                >> apply_each r.0 r.1 events)
              ≡ ok out =
            ground (arith, ran, h) in
          let (room, more) = (then-ok_iff _ _ out).0 rest in
          length-apply_each events r.0 r.1 out (ltb_false→le _ _ ((refuse_if-ok_iff _ _).0 room))
            more
    ]

-- A parsed document has at most 10,000 blocks: those that the events pushed, in the order of their
-- first bytes and, from the same byte, the longer one first, numbered from block-001.
pub parse_source-IsOrdered :
    (events : List (Event × Span)) (blocks : List SourceBlock)
    → parse_source events ≡ ok blocks
    → IsOrdered blocks
      × IsNumbered 0 blocks
      × (length blocks ≤ max_source_blocks)
      × ((pushed : List SourceBlock) × (apply_each empty_builder [] events ≡ ok pushed)
          × Perm (map content blocks) (map content pushed))
unfolding parse_source
parse_source-IsOrdered events blocks h = elim (Result-cases (apply_each empty_builder [] events)) [
  | inr (x, e) ↦ absurd (ground (arith, e, h))
  | inl (pushed, e) ↦
      let same : number_from 0 (sort_by_key pushed) ≡ blocks = ground (arith, e, h) in
      let few = length-apply_each events empty_builder [] pushed (omega arith) e in
      let size = length-number_from 0 (sort_by_key pushed) ∙ length-sort_by_key pushed in
      subst
        (λ (bs : List SourceBlock).
          IsOrdered bs
          × IsNumbered 0 bs
          × (length bs ≤ max_source_blocks)
          × ((pushed : List SourceBlock) × (apply_each empty_builder [] events ≡ ok pushed)
              × Perm (map content bs) (map content pushed)))
        same
        (
          number_from-IsOrdered 0 (sort_by_key pushed) (sort_by_key-IsOrdered pushed),
          number_from-IsNumbered 0 (sort_by_key pushed),
          omega arith,
          (
            pushed,
            e,
            subst (λ (cs : List SourceBlock). Perm cs (map content pushed))
                (sym (map-content-number_from 0 (sort_by_key pushed))) (sort_by_key-perm pushed),
          ),
        )
]
