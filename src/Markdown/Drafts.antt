-- ===== src/Markdown/Drafts.antt =====
-- What a compiled lesson is.
use technical_tts.Prelude.{
  ℕ, ◌+◌, ◌≡◌, ◌≢◌, inl, inr, refl, ap, subst, true, false, some, List, [], ◌∷◌, ◌++◌, All,
  Bool-cases, arith, ok, ok_or, bind-ok, ok_or-ok, ok_injective, then-ok_iff, refuse_if-ok_iff,
}
use technical_tts.Prelude.Distinct.{Distinct}
use technical_tts.Text.{Text}
use technical_tts.Digest.{Digest}
use technical_tts.Lesson.{draft, LessonSegment, AuthoredLesson}
use technical_tts.Lesson.Identifiers.{IsPortable}
use technical_tts.Markdown.{Span, SourceBlock, no_title_heading, Event}
use technical_tts.Markdown.Source.{block_reference, parse_source}
use technical_tts.Markdown.Ordered.{parse_source-IsOrdered}
use technical_tts.Markdown.Compiled.{
  CompileRequest, is_spoken, is_heading, first_heading, spoken, segment_reference, drafted,
  draft_from, is_nothing, compiled, compile_lesson,
}
use technical_tts.Markdown.Numbered.{
  Counted-Distinct, segment_reference_injective, block_reference_injective, segment_ids, block_ids,
  draft_from-Counted, IsNumbered-Counted, draft_from-IsPortable, length-spoken,
}

-- The segment is a draft that speaks the block as the request asks.
pub record Speaks (request : CompileRequest) (segment : LessonSegment) (block : SourceBlock)
    : Type 0 where
  pub refers : segment.source_refs ≡ block.id ∷ []
  pub shows : segment.display_text ≡ block.text
  pub says : segment.spoken_text ≡ block.text
  pub is_draft : segment.review_status ≡ draft
  pub not_editorial : segment.editorial ≡ false
  pub by : segment.speaker ≡ request.speaker
  pub role : segment.role ≡ request.role
  pub style : segment.style ≡ request.style
  pub pause : segment.pause_after_ms ≡ request.pause_after_ms

drafted-Speaks :
    (request : CompileRequest) (index : ℕ) (block : SourceBlock)
    → Speaks request (drafted request index block) block
drafted-Speaks request index block = record {
  refers = refl;
  shows = refl;
  says = refl;
  is_draft = refl;
  not_editorial = refl;
  by = refl;
  role = refl;
  style = refl;
  pause = refl;
}

-- The segments speak the blocks of spoken kinds, one for one and in order.
pub data SpeakEach (request : CompileRequest) : List LessonSegment → List SourceBlock → Type 0 where
  done : SpeakEach request [] []
  passed :
      {segments : List LessonSegment} {blocks : List SourceBlock} (block : SourceBlock)
      → is_spoken block.kind ≡ false
      → SpeakEach request segments blocks
      → SpeakEach request segments (block ∷ blocks)
  spoke :
      {segments : List LessonSegment} {blocks : List SourceBlock} (segment : LessonSegment)
      (block : SourceBlock)
      → is_spoken block.kind ≡ true
      → Speaks request segment block
      → SpeakEach request segments blocks
      → SpeakEach request (segment ∷ segments) (block ∷ blocks)

draft_from-SpeakEach :
    (request : CompileRequest) (index : ℕ) (blocks : List SourceBlock)
    → SpeakEach request (draft_from request index (spoken blocks)) blocks
unfolding draft_from spoken
draft_from-SpeakEach request index [] = done
draft_from-SpeakEach request index (block ∷ blocks) = elim (Bool-cases (is_spoken block.kind)) [
  | inl e ↦ rw e (
      spoke (drafted request index block) block e (drafted-Speaks request index block)
        (draft_from-SpeakEach request (index + 1) blocks))
  | inr e ↦ rw e (passed block e (draft_from-SpeakEach request index blocks))
]

-- The text is that of the first heading.
abbrev pub IsTitle : Text → List SourceBlock → Type 0
IsTitle title blocks =
    (front : List SourceBlock) × (block : SourceBlock) × (back : List SourceBlock) × (blocks
      ≡ front ++ block ∷ back)
    × All (λ b. is_heading b.kind ≡ false) front
    × (is_heading block.kind ≡ true)
    × (title ≡ block.text)

first_heading-IsTitle :
    (blocks : List SourceBlock) (title : Text)
    → first_heading blocks ≡ some title
    → IsTitle title blocks
unfolding first_heading
first_heading-IsTitle [] title h = absurd (ground (arith, h))
first_heading-IsTitle (block ∷ blocks) title h = elim (Bool-cases (is_heading block.kind)) [
  | inl e ↦ ([], block, blocks, refl, tt, e, ground (arith, e, h))
  | inr e ↦
      let (front, found, back, same, plain, is, titled) =
        first_heading-IsTitle blocks title (ground (arith, e, h)) in
      (
        block ∷ front,
        found,
        back,
        ap (λ (bs : List SourceBlock). block ∷ bs) same,
        (e, plain),
        is,
        titled,
      )
]

something : (segments : List LessonSegment) → is_nothing segments ≡ false → segments ≢ []
something [] h e = absurd (ground (arith, h))
something (s ∷ ss) h e = ground (arith, e)

module _ (events_of : Text → List (Event × Span)) (hash : Text → Digest) where
  -- What ran where a lesson was compiled.
  compile_lesson-inv :
      (document : Text) (request : CompileRequest) (lesson : AuthoredLesson)
      → compile_lesson events_of hash document request ≡ ok lesson
      → (blocks : List SourceBlock) × (title : Text) × (parse_source (events_of document)
          ≡ ok blocks)
        × (first_heading blocks ≡ some title)
        × (is_nothing (draft_from request 0 (spoken blocks)) ≡ false)
        × (compiled events_of hash document request title (draft_from request 0 (spoken blocks))
            ≡ lesson)
  unfolding compile_lesson
  compile_lesson-inv document request lesson h =
      let (blocks, parsed, h₁) = bind-ok (parse_source (events_of document)) _ lesson h in
      let (title, titled, h₂) =
        bind-ok (ok_or (first_heading blocks) no_title_heading) _ lesson h₁ in
      let (some_prose, made) = (then-ok_iff _ _ lesson).0 h₂ in
      (
        blocks,
        title,
        parsed,
        ok_or-ok (first_heading blocks) no_title_heading title titled,
        (refuse_if-ok_iff _ _).0 some_prose,
        ok_injective made,
      )

  -- A compiled lesson has the title of the first heading, and its segments are drafts that speak the
  -- paragraphs, list items, quotations and tables of the document, one for one and in order, each with
  -- the text of its block and a reference to it; there is one at least.
  pub compile_lesson-SpeakEach :
      (document : Text) (request : CompileRequest) (lesson : AuthoredLesson)
      → compile_lesson events_of hash document request ≡ ok lesson
      → (blocks : List SourceBlock) × (parse_source (events_of document) ≡ ok blocks)
        × IsTitle lesson.title blocks
        × SpeakEach request lesson.segments blocks
        × (lesson.segments ≢ [])
  compile_lesson-SpeakEach document request lesson h =
      let (blocks, title, parsed, titled, prose, made) =
        compile_lesson-inv document request lesson h in
      (
        blocks,
        parsed,
        subst (λ (l : AuthoredLesson). IsTitle l.title blocks) made
            (first_heading-IsTitle blocks title titled),
        subst (λ (l : AuthoredLesson). SpeakEach request l.segments blocks) made
            (draft_from-SpeakEach request 0 blocks),
        subst (λ (l : AuthoredLesson). l.segments ≢ []) made
            (something (draft_from request 0 (spoken blocks)) prose),
      )

  -- The identifiers of the segments of a compiled lesson are portable and distinct, and so are the
  -- references of the blocks distinct that they name.
  pub compile_lesson-Distinct :
      (document : Text) (request : CompileRequest) (lesson : AuthoredLesson)
      → compile_lesson events_of hash document request ≡ ok lesson
      → All IsPortable (segment_ids lesson.segments)
        × Distinct (segment_ids lesson.segments)
        × ((blocks : List SourceBlock) × (parse_source (events_of document) ≡ ok blocks)
            × Distinct (block_ids blocks))
  compile_lesson-Distinct document request lesson h =
      let (blocks, title, parsed, titled, prose, made) =
        compile_lesson-inv document request lesson h in
      let (ordered, numbered, few, from) =
        parse_source-IsOrdered (events_of document) blocks parsed in
      let fewer = length-spoken blocks in
      (
        subst (λ (l : AuthoredLesson). All IsPortable (segment_ids l.segments)) made
            (draft_from-IsPortable request 0 (spoken blocks) (omega arith)),
        subst (λ (l : AuthoredLesson). Distinct (segment_ids l.segments)) made
            (Counted-Distinct segment_reference 0 _ segment_reference_injective
              (draft_from-Counted request 0 (spoken blocks))),
        (
          blocks,
          parsed,
          Counted-Distinct block_reference 0 (block_ids blocks) block_reference_injective
              (IsNumbered-Counted 0 blocks numbered),
        ),
      )
