-- ===== src/Markdown/Numbered.antt =====
-- The identifiers of the drafts and of their blocks.
use technical_tts.Prelude.{
  ℕ, ◌+◌, ◌<◌, ◌≤◌, ◌≡◌, inl, inr, refl, sym, ◌∙◌, List, [], ◌∷◌, map, length, All, All-mono, In,
  Bool-cases, arith,
}
use technical_tts.Prelude.Distinct.{Distinct}
use technical_tts.Text.{Text}
use technical_tts.Text.Decimal.{padded}
use technical_tts.Text.Decimal.Padded.{padded_injective, length-padded, All-padded}
use technical_tts.Text.Decimal.RoundTrip.{IsDigit}
use technical_tts.Lesson.{LessonSegment}
use technical_tts.Lesson.Identifiers.{IsPortable, IsIdentifierByte}
use technical_tts.Markdown.{SourceBlock}
use technical_tts.Markdown.Source.{block_reference}
use technical_tts.Markdown.Ordered.{IsNumbered}
use technical_tts.Markdown.Compiled.{
  CompileRequest, is_spoken, spoken, segment_reference, draft_from,
}

-- The texts count from a number by a spelling.
abbrev Counted : (ℕ → Text) → ℕ → List Text → Type 0
Counted spell index [] = Unit
Counted spell index (t ∷ ts) = (t ≡ spell index) × Counted spell (index + 1) ts

Counted-In :
    (spell : ℕ → Text) (index : ℕ) (t : Text) (ts : List Text)
    → Counted spell index ts
    → In t ts
    → (k : ℕ) × (index ≤ k) × (t ≡ spell k)
Counted-In spell index t [] c i = absurd i
Counted-In spell index t (u ∷ ts) c (inl e) = (index, omega arith, e ∙ c.0)
Counted-In spell index t (u ∷ ts) c (inr i) =
    let (k, le, same) = Counted-In spell (index + 1) t ts c.1 i in (k, omega arith, same)

pub Counted-Distinct :
    (spell : ℕ → Text) (index : ℕ) (ts : List Text)
    → ((m n : ℕ) → spell m ≡ spell n → m ≡ n)
    → Counted spell index ts
    → Distinct ts
Counted-Distinct spell index [] injective c = tt
Counted-Distinct spell index (t ∷ ts) injective c = (
  λ i.
      let (k, le, same) = Counted-In spell (index + 1) t ts c.1 i in
      let equal = injective index k (sym c.0 ∙ same) in absurd (omega arith),
  Counted-Distinct spell (index + 1) ts injective c.1,
)

strip : (a b c d : ℕ) (s t : Text) → a ∷ b ∷ c ∷ d ∷ s ≡ a ∷ b ∷ c ∷ d ∷ t → s ≡ t
strip a b c d s t h = ground (arith, h)

pub segment_reference_injective : (m n : ℕ) → segment_reference m ≡ segment_reference n → m ≡ n
segment_reference_injective m n h =
    let same =
      padded_injective 4 (m + 1) (n + 1)
        (strip b's' b'e' b'g' b'-' (padded 4 (m + 1)) (padded 4 (n + 1)) h) in
    omega arith

strip_six :
    (a b c d e f : ℕ) (s t : Text) → a ∷ b ∷ c ∷ d ∷ e ∷ f ∷ s ≡ a ∷ b ∷ c ∷ d ∷ e ∷ f ∷ t → s ≡ t
strip_six a b c d e f s t h = ground (arith, h)

pub block_reference_injective : (m n : ℕ) → block_reference m ≡ block_reference n → m ≡ n
block_reference_injective m n h =
    let same =
      padded_injective 3 (m + 1) (n + 1)
        (strip_six b'b' b'l' b'o' b'c' b'k' b'-' (padded 3 (m + 1)) (padded 3 (n + 1)) h) in
    omega arith

digit-IsIdentifierByte : (c : ℕ) → IsDigit c → IsIdentifierByte c
digit-IsIdentifierByte c h = inl h

segment_reference-IsPortable : (index : ℕ) → index < 10000 → IsPortable (segment_reference index)
segment_reference-IsPortable index h =
    let size = length-padded 4 (index + 1) (omega arith) in
    (
      omega arith,
      λ e. omega (arith, e),
      (
        inr (inl (omega arith)),
        (
          inr (inl (omega arith)),
          (
            inr (inl (omega arith)),
            (
              inr (inr (inr (inl refl))),
              All-mono IsDigit IsIdentifierByte (padded 4 (index + 1)) digit-IsIdentifierByte
                  (All-padded 4 (index + 1)),
            ),
          ),
        ),
      ),
    )

abbrev pub segment_ids : List LessonSegment → List Text
segment_ids = map (λ s. s.id)

abbrev pub block_ids : List SourceBlock → List Text
block_ids = map (λ b. b.id)

pub draft_from-Counted :
    (request : CompileRequest) (index : ℕ) (blocks : List SourceBlock)
    → Counted segment_reference index (segment_ids (draft_from request index blocks))
unfolding draft_from
draft_from-Counted request index [] = tt
draft_from-Counted request index (block ∷ blocks) =
    (refl, draft_from-Counted request (index + 1) blocks)

pub IsNumbered-Counted :
    (index : ℕ) (blocks : List SourceBlock)
    → IsNumbered index blocks
    → Counted block_reference index (block_ids blocks)
IsNumbered-Counted index [] h = tt
IsNumbered-Counted index (block ∷ blocks) h = (h.0, IsNumbered-Counted (index + 1) blocks h.1)

pub draft_from-IsPortable :
    (request : CompileRequest) (index : ℕ) (blocks : List SourceBlock)
    → index + length blocks ≤ 10000
    → All IsPortable (segment_ids (draft_from request index blocks))
unfolding draft_from
draft_from-IsPortable request index [] h = tt
draft_from-IsPortable request index (block ∷ blocks) h = (
  segment_reference-IsPortable index (omega arith),
  draft_from-IsPortable request (index + 1) blocks (omega arith),
)

pub length-spoken : (blocks : List SourceBlock) → length (spoken blocks) ≤ length blocks
unfolding spoken
length-spoken [] = omega arith
length-spoken (block ∷ blocks) =
    let ih = length-spoken blocks in
    elim (Bool-cases (is_spoken block.kind)) [
      | inl e ↦ rw e (omega arith)
      | inr e ↦ rw e (omega arith)
    ]
