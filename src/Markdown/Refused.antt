-- ===== src/Markdown/Refused.antt =====
-- What a document may not hold.
use technical_tts.Text.{Text}
use technical_tts.Prelude.{
  ℕ, ◌≡◌, refl, subst, Bool, true, false, List, [], ◌∷◌, All, In, inl, inr, length, Option-cases,
  ltb, arith, Result, ok, err, ◌>>=◌, Result-cases, ◌>>◌, refuse_if, then-ok_iff,
}
use technical_tts.Markdown.{
  max_source_blocks, Span, SourceBlock, CompileError, unsupported_structure, empty_table_cell,
  too_many_source_blocks, image_tag, footnote_definition_tag, html_block_tag, strikethrough_tag,
  superscript_tag, subscript_tag, metadata_block_tag, definition_list_tag,
  definition_list_title_tag, definition_list_definition_tag, Event, start_of, end_of, html,
  inline_html, footnote_reference, task_list_marker, rule, inline_math, display_math, BlockBuilder,
  empty_builder, apply, end_tag, blank_position, blank_column, TagEnd, table_head_end,
  table_row_end,
}
use technical_tts.Markdown.Source.{apply_each, parse_source}

-- The events of structures that a lesson is compiled from.
abbrev pub IsSupported : Event → Type 0
IsSupported (start_of image_tag) = ⊥
IsSupported (start_of footnote_definition_tag) = ⊥
IsSupported (start_of html_block_tag) = ⊥
IsSupported (start_of strikethrough_tag) = ⊥
IsSupported (start_of superscript_tag) = ⊥
IsSupported (start_of subscript_tag) = ⊥
IsSupported (start_of metadata_block_tag) = ⊥
IsSupported (start_of definition_list_tag) = ⊥
IsSupported (start_of definition_list_title_tag) = ⊥
IsSupported (start_of definition_list_definition_tag) = ⊥
IsSupported html = ⊥
IsSupported inline_html = ⊥
IsSupported footnote_reference = ⊥
IsSupported task_list_marker = ⊥
IsSupported rule = ⊥
IsSupported inline_math = ⊥
IsSupported display_math = ⊥
IsSupported _ = Unit

apply-IsSupported :
    (e : Event) (b : BlockBuilder) (span : Span) (blocks : List SourceBlock)
    (r : BlockBuilder × List SourceBlock)
    → apply b e span blocks ≡ ok r
    → IsSupported e
unfolding apply
apply-IsSupported (start_of image_tag) b span blocks r h = ground (arith, h)
apply-IsSupported _ b span blocks r h = ground (arith, h)

-- What a refusal says of the event that it came from.
abbrev At : Event → Span → CompileError → Type 0
At e span (unsupported_structure structure offset) = (¬ IsSupported e) × (offset ≡ span.start)
At e span (empty_table_cell offset column) = Unit
At e span _ = ⊥

-- Where the result is a refusal, it is one of these.
abbrev Errs : {A : Type 0} → (CompileError → Type 0) → Result A CompileError → Type 0
Errs P (ok a) = Unit
Errs P (err x) = P x

Errs-err :
    {A : Type 0} (P : CompileError → Type 0) (r : Result A CompileError) (x : CompileError)
    → Errs P r
    → r ≡ err x
    → P x
Errs-err P r x holds h = subst (Errs P) h holds

Errs-bind :
    {A B : Type 0} (P : CompileError → Type 0) (m : Result A CompileError)
    (body : A → Result B CompileError)
    → Errs P m
    → ((a : A) → Errs P (body a))
    → Errs P (m >>= body)
Errs-bind P (ok a) body h k = k a
Errs-bind P (err x) body h k = h

Errs-refuse_if :
    (P : CompileError → Type 0) (bad : Bool) (x : CompileError) → P x → Errs P (refuse_if bad x)
Errs-refuse_if P true x h = h
Errs-refuse_if P false x h = tt

Errs-mono :
    {A : Type 0} (P Q : CompileError → Type 0) (r : Result A CompileError)
    → ((x : CompileError) → P x → Q x)
    → Errs P r
    → Errs Q r
Errs-mono P Q (ok a) f h = tt
Errs-mono P Q (err x) f h = f x h

ended-At :
    (tag : TagEnd) (b : BlockBuilder) (span : Span) (blocks : List SourceBlock)
    → Errs (At (end_of tag) span) (end_tag b tag blocks)
unfolding end_tag
ended-At table_head_end b span blocks = elim (Option-cases (blank_position 0 b.table_cells)) [
  | inl e ↦ rw (e, Errs) tt
  | inr (i, e) ↦ rw (e, Errs) tt
]
ended-At table_row_end b span blocks =
    elim (Option-cases (blank_column b.table_header b.table_cells)) [
      | inl e ↦ rw (e, Errs) tt
      | inr (i, e) ↦ rw (e, Errs) tt
    ]
ended-At _ b span blocks = tt

apply-At :
    (e : Event) (b : BlockBuilder) (span : Span) (blocks : List SourceBlock)
    → Errs (At e span) (apply b e span blocks)
unfolding apply
apply-At (start_of image_tag) b span blocks = ((λ i. i), refl)
apply-At (start_of footnote_definition_tag) b span blocks = ((λ i. i), refl)
apply-At (start_of html_block_tag) b span blocks = ((λ i. i), refl)
apply-At (start_of strikethrough_tag) b span blocks = ((λ i. i), refl)
apply-At (start_of superscript_tag) b span blocks = ((λ i. i), refl)
apply-At (start_of subscript_tag) b span blocks = ((λ i. i), refl)
apply-At (start_of metadata_block_tag) b span blocks = ((λ i. i), refl)
apply-At (start_of definition_list_tag) b span blocks = ((λ i. i), refl)
apply-At (start_of definition_list_title_tag) b span blocks = ((λ i. i), refl)
apply-At (start_of definition_list_definition_tag) b span blocks = ((λ i. i), refl)
apply-At html b span blocks = ((λ i. i), refl)
apply-At inline_html b span blocks = ((λ i. i), refl)
apply-At footnote_reference b span blocks = ((λ i. i), refl)
apply-At task_list_marker b span blocks = ((λ i. i), refl)
apply-At rule b span blocks = ((λ i. i), refl)
apply-At inline_math b span blocks = ((λ i. i), refl)
apply-At display_math b span blocks = ((λ i. i), refl)
apply-At (end_of tag) b span blocks = ended-At tag b span blocks
apply-At _ b span blocks = tt

-- A refusal names an event that is not supported, at its first byte; a cell without text; or the
-- ceiling on blocks.
abbrev IsReason : List (Event × Span) → CompileError → Type 0
IsReason events (unsupported_structure structure offset) =
    (e : Event) × (span : Span) × In (e, span) events × (¬ IsSupported e) × (offset ≡ span.start)
IsReason events (empty_table_cell offset column) = Unit
IsReason events (too_many_source_blocks max) = max ≡ max_source_blocks
IsReason events _ = ⊥

At-IsReason :
    (x : CompileError) (e : Event) (span : Span) (events : List (Event × Span))
    → At e span x
    → IsReason ((e, span) ∷ events) x
At-IsReason (unsupported_structure s o) e span events (n, h) = (e, span, inl refl, n, h)
At-IsReason (empty_table_cell o c) e span events h = tt
At-IsReason _ e span events h = absurd h

later-IsReason :
    (x : CompileError) (p : Event × Span) (events : List (Event × Span))
    → IsReason events x
    → IsReason (p ∷ events) x
later-IsReason (unsupported_structure s o) p events (e, span, i, n, h) = (e, span, inr i, n, h)
later-IsReason (empty_table_cell o c) p events h = tt
later-IsReason (too_many_source_blocks max) p events h = h
later-IsReason _ p events h = absurd h

apply_each-Errs :
    (events : List (Event × Span)) (b : BlockBuilder) (blocks : List SourceBlock)
    → Errs (IsReason events) (apply_each b blocks events)
unfolding apply_each
apply_each-Errs [] b blocks = tt
apply_each-Errs ((e, span) ∷ events) b blocks =
    let P = IsReason ((e, span) ∷ events) in
    Errs-bind P (apply b e span blocks) _
      (Errs-mono (At e span) P (apply b e span blocks) (λ x. At-IsReason x e span events)
        (apply-At e b span blocks))
      (λ r.
        Errs-bind P
          (refuse_if (ltb max_source_blocks (length r.1))
            (too_many_source_blocks max_source_blocks))
          (λ _. apply_each r.0 r.1 events)
          (Errs-refuse_if P (ltb max_source_blocks (length r.1))
            (too_many_source_blocks max_source_blocks) refl)
          (λ _.
            Errs-mono (IsReason events) P (apply_each r.0 r.1 events)
              (λ x. later-IsReason x (e, span) events) (apply_each-Errs events r.0 r.1)))

apply_each-IsSupported :
    (events : List (Event × Span)) (b : BlockBuilder) (blocks out : List SourceBlock)
    → apply_each b blocks events ≡ ok out
    → All (λ p. IsSupported p.0) events
unfolding apply_each
apply_each-IsSupported [] b blocks out h = tt
apply_each-IsSupported ((e, span) ∷ events) b blocks out h =
    elim (Result-cases (apply b e span blocks)) [
      | inr (x, failed) ↦ absurd (ground (arith, failed, h))
      | inl (r, ran) ↦
          let rest : (refuse_if (ltb max_source_blocks (length r.1))
                  (too_many_source_blocks max_source_blocks)
                >> apply_each r.0 r.1 events)
              ≡ ok out =
            ground (arith, ran, h) in
          (
            apply-IsSupported e b span blocks r ran,
            apply_each-IsSupported events r.0 r.1 out ((then-ok_iff _ _ out).0 rest).1,
          )
    ]

parse_source-IsReason :
    (events : List (Event × Span)) (refusal : CompileError)
    → parse_source events ≡ err refusal
    → IsReason events refusal
unfolding parse_source
parse_source-IsReason events refusal h =
    Errs-err (IsReason events) (parse_source events) refusal
      (Errs-bind (IsReason events) (apply_each empty_builder [] events) _
        (apply_each-Errs events empty_builder []) (λ pushed. tt))
      h

-- A document is parsed only where every event of it is of a supported structure.
pub parse_source-IsSupported :
    (events : List (Event × Span)) (blocks : List SourceBlock)
    → parse_source events ≡ ok blocks
    → All (λ p. IsSupported p.0) events
unfolding parse_source
parse_source-IsSupported events blocks h =
    elim (Result-cases (apply_each empty_builder [] events)) [
      | inl (pushed, e) ↦ apply_each-IsSupported events empty_builder [] pushed e
      | inr (x, e) ↦ absurd (ground (arith, e, h))
    ]

-- A document that is refused for a structure has an event of a structure that is not supported, and the
-- offset of the refusal is the first byte of that event.
pub parse_source-unsupported :
    (events : List (Event × Span)) (structure : Text) (offset : ℕ)
    → parse_source events ≡ err (unsupported_structure structure offset)
    → (e : Event) × (span : Span) × In (e, span) events × (¬ IsSupported e) × (offset ≡ span.start)
parse_source-unsupported events structure offset h =
    parse_source-IsReason events (unsupported_structure structure offset) h
