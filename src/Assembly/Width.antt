-- ===== src/Assembly/Width.antt =====
-- The frames of a finished assembly are counted by a `u64`.
use technical_tts.Prelude.{
  ℕ, ◌≡◌, ◌≤◌, Option, some, List, [], ◌∷◌, arith, Option-cases, inl, inr, Result-cases, Result, ok,
}
use technical_tts.Text.{Text}
use technical_tts.Digest.{Digest}
use technical_tts.Assembly.Sound.{assemble-inv}
use technical_tts.Assembly.{
  CachedArtifact, Timeline, BuildError, max_u64, pause_frames, add_segment, expected_from,
  expected_frames, write_segments, assemble_samples, assemble,
}

add_segment-le :
    (running frames pause n : ℕ) → add_segment running frames pause ≡ some n → n ≤ max_u64
add_segment-le running frames pause n h = ground arith

-- A finished sum of the planned frames is a `u64`.
expected_from-le :
    (expected n : ℕ) (ss : List CachedArtifact)
    → expected ≤ max_u64
    → expected_from expected ss ≡ ok n
    → n ≤ max_u64
unfolding expected_from
expected_from-le expected n [] le h = ground arith
expected_from-le expected n (s ∷ ss) le h = elim (Result-cases (pause_frames s)) [
  | inl (p, e) ↦ elim (Option-cases (add_segment expected s.frames p)) [
    | inl f ↦ absurd (ground arith)
    | inr (m, f) ↦ expected_from-le m n ss (add_segment-le expected s.frames p m f) (ground arith)
  ]
  | inr (x, e) ↦ absurd (ground arith)
]

module _ {Sample : Type 0} (silence : Sample) (hash_file : Text → Result Digest BuildError)
    (decode : Text → Result (List Sample) BuildError) where
  samples-le :
      (parent : Option Text) (destination : Text) (ss : List CachedArtifact)
      (r : Timeline × List Sample)
      → assemble_samples silence hash_file decode parent destination ss ≡ ok r
      → r.0.total_frames ≤ max_u64
  unfolding assemble_samples expected_frames
  samples-le parent destination ss r h = elim (Result-cases (expected_from 0 ss)) [
    | inl (n, e) ↦
        let le = expected_from-le 0 n ss (omega arith) e in
        ground (
          arith,
          Option-cases parent,
          Result-cases (write_segments silence hash_file decode destination ss 0 [] []),
        )
    | inr (x, e) ↦ absurd (ground (arith, Option-cases parent))
  ]

  pub total-le :
      (finish : List Sample → Result (Unit {0}) BuildError) (parent : Option Text)
      (destination : Text) (ss : List CachedArtifact) (r : Timeline × List Sample)
      → assemble silence hash_file decode finish parent destination ss ≡ ok r
      → r.0.total_frames ≤ max_u64
  total-le finish parent destination ss r h =
      samples-le parent destination ss r
        (assemble-inv silence hash_file decode finish parent destination ss r h).0
