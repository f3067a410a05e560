-- ===== src/Lesson/Identifiers.antt =====
-- Which texts name a lesson or a segment.
use technical_tts.Prelude.{
  ℕ, ◌≡◌, ◌≢◌, ◌≤◌, ◌↔◌, ◌⊎◌, refl, true, false, ◌&&◌, [], ◌∷◌, length, All, all, arith, leb, ◌==◌,
  ok, Bool-cases, &&_iff, not,
}
use technical_tts.Text.{Text, is_blank, is_blank-graphic}
use technical_tts.Lesson.{
  max_identifier_length, is_identifier_byte, is_portable_id, validate_lesson_id,
  validate_segment_id,
}

-- A digit, a letter, or one of `-`, `_` and `.`.
abbrev pub IsIdentifierByte : ℕ → Type 0
IsIdentifierByte b =
    ((b'0' ≤ b) × (b ≤ b'9'))
    ⊎ ((b'a' ≤ b) × (b ≤ b'z'))
    ⊎ ((b'A' ≤ b) × (b ≤ b'Z'))
    ⊎ (b ≡ b'-')
    ⊎ (b ≡ b'_')
    ⊎ (b ≡ b'.')

-- A name that every file system takes: one to 64 such bytes, and no dot in front.
abbrev pub IsPortable : Text → Type 0
IsPortable [] = ⊥
IsPortable (c ∷ s) =
    (length (c ∷ s) ≤ max_identifier_length) × (c ≢ b'.') × All IsIdentifierByte (c ∷ s)

byte_iff : (b : ℕ) → (is_identifier_byte b ≡ true) ↔ IsIdentifierByte b
byte_iff b = ground arith

bytes_iff : (s : Text) → (all is_identifier_byte s ≡ true) ↔ All IsIdentifierByte s
bytes_iff [] = (λ _. tt, λ _. refl)
bytes_iff (c ∷ s) =
    let (f, g) = byte_iff c in
    let (h, k) = bytes_iff s in
    let (m, n) = &&_iff (is_identifier_byte c) (all is_identifier_byte s) in
    (λ e. (f (m e).0, h (m e).1), λ e. n (g e.0, k e.1))

pub is_portable_id_iff : (s : Text) → (is_portable_id s ≡ true) ↔ IsPortable s
unfolding is_portable_id
is_portable_id_iff [] = ground arith
is_portable_id_iff (c ∷ s) =
    let short = leb (length (c ∷ s)) max_identifier_length in
    let dotless = not (c == b'.') in
    let (m, n) = &&_iff (short && dotless) (all is_identifier_byte (c ∷ s)) in
    let (f, g) = bytes_iff (c ∷ s) in
    (
      λ e. (ground (arith, (m e).0), ground (arith, (m e).0), f (m e).1),
      λ h. n (ground (arith, h.0, h.1), g h.2),
    )

pub IsPortable-graphic : (s : Text) → IsPortable s → is_blank s ≡ false
IsPortable-graphic [] p = absurd p
IsPortable-graphic (c ∷ s) p = is_blank-graphic c s (ground (arith, p.2.0)) (ground (arith, p.2.0))

-- A segment identifier is accepted exactly when it is a portable name.
pub validate_segment_id_iff : (s : Text) → (validate_segment_id s ≡ ok tt) ↔ IsPortable s
unfolding validate_segment_id
validate_segment_id_iff s =
    ground (arith, is_portable_id_iff s, IsPortable-graphic s, Bool-cases (is_blank s))

-- A lesson identifier is accepted exactly when it is a portable name.
pub validate_lesson_id_iff : (s : Text) → (validate_lesson_id s ≡ ok tt) ↔ IsPortable s
unfolding validate_lesson_id
validate_lesson_id_iff s =
    ground (arith, is_portable_id_iff s, IsPortable-graphic s, Bool-cases (is_blank s))
