-- ===== src/Assembly/Sound.antt =====
-- What a finished assembly has written: verified audio, in order, with its boundaries.
use mathlib.Core.Path.{ap₂}
use technical_tts.Prelude.{
  bind-ok, then-ok_iff, ok_injective, ◌>>◌, ℕ, zero, suc, ◌+◌, ◌*◌, ◌/◌, ◌≡◌, refl, sym, ap, subst,
  ◌∙◌, Option, some, List, [], ◌∷◌, ◌++◌, append_assoc, append-nil, length, replicate,
  length-append, All, arith, inl, inr, Result-cases, Result, ok, err,
}
use technical_tts.Text.{Text, text_eq_iff}
use technical_tts.Digest.{Digest}
use technical_tts.Assembly.{
  CachedArtifact, WrittenSegment, Timeline, BuildError, canonical_sample_rate,
  milliseconds_per_second, pause_frames, add_segment, verify_recorded_audio, count_samples,
  write_samples, write_segment, write_segments, assemble_samples, assemble, expected_frames,
}

-- The frames of a pause, rounded down.
abbrev pub pause_length : CachedArtifact → ℕ
pause_length s = s.pause_after_ms * canonical_sample_rate / milliseconds_per_second

-- The boundaries of the segments when the first one starts at `start`.
abbrev pub layout : ℕ → List CachedArtifact → List WrittenSegment
layout start [] = []
layout start (s ∷ ss) =
    record { start_frame = start; audio_frames = s.frames; pause_frames = pause_length s }
    ∷ layout (start + s.frames + pause_length s) ss

length-replicate {ℓ} : {A : Type ℓ} (n : ℕ) (a : A) → length (replicate n a) ≡ n
length-replicate zero a = refl
length-replicate (suc n) a = ap suc (length-replicate n a)

-- The frames of all segments together.
abbrev pub total_length : List CachedArtifact → ℕ
total_length [] = 0
total_length (s ∷ ss) = s.frames + pause_length s + total_length ss

pub pause_frames-length : (s : CachedArtifact) (p : ℕ) → pause_frames s ≡ ok p → p ≡ pause_length s
unfolding pause_frames
pause_frames-length s p h = ground arith

pub add_segment-sum :
    (running frames pause n : ℕ)
    → add_segment running frames pause ≡ some n
    → n ≡ running + frames + pause
add_segment-sum running frames pause n h = ground arith

module _ {Sample : Type 0} (silence : Sample) (hash_file : Text → Result Digest BuildError)
    (decode : Text → Result (List Sample) BuildError) where
  -- The file has the recorded digest and decodes to the recorded number of samples.
  pub record Verified (s : CachedArtifact) : Type 0 where
    pub samples : List Sample
    pub hashed : hash_file s.audio_path ≡ ok s.audio_blake3
    pub decoded : decode s.audio_path ≡ ok samples
    pub counted : length samples ≡ s.frames

  -- The samples of a file, or none where it does not decode.
  abbrev pub audio : CachedArtifact → List Sample
  audio s = elim (decode s.audio_path) [ ok samples ↦ samples | err _ ↦ [] ]

  -- The master that the segments should give.
  abbrev pub sound : List CachedArtifact → List Sample
  sound [] = []
  sound (s ∷ ss) = (audio s ++ replicate (pause_length s) silence) ++ sound ss

  count_samples-length :
      (destination : Text) (counted n : ℕ) (samples : List Sample)
      → count_samples silence hash_file decode destination counted samples ≡ ok n
      → n ≡ counted + length samples
  unfolding count_samples
  count_samples-length destination counted n [] h = ground arith
  count_samples-length destination counted n (x ∷ samples) h =
      ground (arith, count_samples-length destination (counted + 1) n samples)

  verify_inv :
      (s : CachedArtifact)
      → verify_recorded_audio silence hash_file decode s ≡ ok tt
      → hash_file s.audio_path ≡ ok s.audio_blake3
  unfolding verify_recorded_audio
  verify_inv s h = elim (Result-cases (hash_file s.audio_path)) [
    | inl (d, e) ↦ ground (arith, text_eq_iff d s.audio_blake3)
    | inr (x, e) ↦ ground arith
  ]

  -- What one round of the write loop makes of a segment.
  abbrev pub Written : ℕ → CachedArtifact → ℕ × WrittenSegment × List Sample → Type 0
  Written total s r =
      (r.0 ≡ total + s.frames + pause_length s)
      × (r.1
          ≡ record { start_frame = total; audio_frames = s.frames; pause_frames = pause_length s })
      × (r.2 ≡ audio s ++ replicate (pause_length s) silence)

  write_samples_inv :
      (destination : Text) (total : ℕ) (s : CachedArtifact) (samples : List Sample)
      (r : ℕ × WrittenSegment × List Sample)
      → decode s.audio_path ≡ ok samples
      → write_samples silence hash_file decode destination total s samples ≡ ok r
      → (length samples ≡ s.frames) × Written total s r
  unfolding write_samples
  write_samples_inv destination total s samples r decoded h =
      elim (Result-cases (count_samples silence hash_file decode destination 0 samples)) [
        | inl (counted, e) ↦ elim (Result-cases (pause_frames s)) [
          | inl (pause, f) ↦
              let n = count_samples-length destination 0 counted samples e in
              let p = pause_frames-length s pause f in
              (ground arith, (ground arith, ground arith, ground arith))
          | inr (x, f) ↦ absurd (ground arith)
        ]
        | inr (x, e) ↦ absurd (ground arith)
      ]

  write_segment_inv :
      (destination : Text) (total : ℕ) (s : CachedArtifact) (r : ℕ × WrittenSegment × List Sample)
      → write_segment silence hash_file decode destination total s ≡ ok r
      → Verified s × Written total s r
  unfolding write_segment
  write_segment_inv destination total s r h =
      elim (Result-cases (verify_recorded_audio silence hash_file decode s)) [
        | inl (_, v) ↦ elim (Result-cases (decode s.audio_path)) [
          | inl (samples, d) ↦
              let (n, w) = write_samples_inv destination total s samples r d (ground arith) in
              (record { samples = samples; hashed = verify_inv s v; decoded = d; counted = n }, w)
          | inr (x, d) ↦ absurd (ground arith)
        ]
        | inr (x, v) ↦ absurd (ground arith)
      ]

  -- What a finished write loop has made of the segments.
  pub record Assembled (total : ℕ) (written : List WrittenSegment) (master : List Sample)
      (ss : List CachedArtifact) (r : Timeline × List Sample) : Type 0 where
    pub verified : All Verified ss
    pub boundaries : r.0.segments ≡ written ++ layout total ss
    pub frames : r.0.total_frames ≡ total + total_length ss
    pub samples : r.1 ≡ master ++ sound ss

  write_segments_inv :
      (destination : Text) (ss : List CachedArtifact) (total : ℕ) (written : List WrittenSegment)
      (master : List Sample) (r : Timeline × List Sample)
      → write_segments silence hash_file decode destination ss total written master ≡ ok r
      → Assembled total written master ss r
  unfolding write_segments
  write_segments_inv destination [] total written master r h = record {
    verified = tt;
    boundaries = ground (arith, append-nil written);
    frames = ground arith;
    samples = ground (arith, append-nil master);
  }
  write_segments_inv destination (s ∷ ss) total written master r h =
      elim (Result-cases (write_segment silence hash_file decode destination total s)) [
        | inl (t, e) ↦
            let (v, w) = write_segment_inv destination total s t e in
            let rest =
              write_segments_inv destination ss t.0 (written ++ t.1 ∷ []) (master ++ t.2) r
                (ground arith) in
            record {
              verified = (v, rest.verified);
              boundaries =
                  rest.boundaries
                  ∙ append_assoc written (t.1 ∷ []) (layout t.0 ss)
                  ∙ ap₂ (λ b n. written ++ b ∷ layout n ss) w.1 w.0;
              frames = omega (arith, rest.frames, w.0);
              samples =
                  rest.samples
                  ∙ append_assoc master t.2 (sound ss)
                  ∙ ap (λ x. master ++ (x ++ sound ss)) w.2;
            }
        | inr (x, e) ↦ absurd (ground arith)
      ]

  audio-samples : (s : CachedArtifact) (v : Verified s) → audio s ≡ v.samples
  audio-samples s v = rw (v.decoded, audio) refl

  length-audio : (s : CachedArtifact) → Verified s → length (audio s) ≡ s.frames
  length-audio s v = ap length (audio-samples s v) ∙ v.counted

  length-piece :
      (s : CachedArtifact)
      → Verified s
      → length (audio s ++ replicate (pause_length s) silence) ≡ s.frames + pause_length s
  length-piece s v = omega (
    arith,
    length-append (audio s) (replicate (pause_length s) silence),
    length-replicate {A = Sample} (pause_length s) silence,
    length-audio s v,
  )

  length-sound : (ss : List CachedArtifact) → All Verified ss → length (sound ss) ≡ total_length ss
  length-sound [] v = refl
  length-sound (s ∷ ss) (v, vs) = omega (
    arith,
    length-append (audio s ++ replicate (pause_length s) silence) (sound ss),
    length-piece s v,
    length-sound ss vs,
  )

  -- Each boundary is the place in the master where the samples of its segment, and the silence
  -- behind them, were written.
  abbrev pub Placed : List Sample → List CachedArtifact → List WrittenSegment → Type 0
  Placed master [] [] = Unit
  Placed master [] (w ∷ ws) = ⊥
  Placed master (s ∷ ss) [] = ⊥
  Placed master (s ∷ ss) (w ∷ ws) =
      ((before after : List Sample) × (master
          ≡ before ++ ((audio s ++ replicate w.pause_frames silence) ++ after))
        × (length before ≡ w.start_frame)
        × (length (audio s) ≡ w.audio_frames))
      × Placed master ss ws

  layout-Placed :
      (before : List Sample) (ss : List CachedArtifact)
      → All Verified ss
      → Placed (before ++ sound ss) ss (layout (length before) ss)
  layout-Placed before [] v = tt
  layout-Placed before (s ∷ ss) (v, vs) =
      let piece = audio s ++ replicate (pause_length s) silence in
      let at : length (before ++ piece) ≡ length before + s.frames + pause_length s =
        omega (arith, length-append before piece, length-piece s v) in
      (
        (before, sound ss, refl, refl, length-audio s v),
        subst (λ n. Placed (before ++ (piece ++ sound ss)) ss (layout n ss)) at
            (subst (λ m. Placed m ss (layout (length (before ++ piece)) ss))
              (append_assoc before piece (sound ss)) (layout-Placed (before ++ piece) ss vs)),
      )

  -- What a finished assembly is: every file is verified, the boundaries are the layout of the
  -- segments from frame zero, and the master is as long as the timeline says.
  pub record IsMaster (ss : List CachedArtifact) (r : Timeline × List Sample) : Type 0 where
    pub verified : All Verified ss
    pub boundaries : r.0.segments ≡ layout 0 ss
    pub frames : r.0.total_frames ≡ total_length ss
    pub samples : r.1 ≡ sound ss
    pub filled : length r.1 ≡ r.0.total_frames
    pub placed : Placed r.1 ss r.0.segments

  Assembled-IsMaster :
      (ss : List CachedArtifact) (r : Timeline × List Sample)
      → Assembled 0 [] [] ss r
      → IsMaster ss r
  Assembled-IsMaster ss r a = record {
    verified = a.verified;
    boundaries = a.boundaries;
    frames = omega (arith, a.frames);
    samples = a.samples;
    filled = omega (arith, a.frames, length-sound ss a.verified, ap length a.samples);
    placed =
        subst (λ m. Placed m ss r.0.segments) (sym a.samples)
          (subst (λ b. Placed (sound ss) ss b) (sym a.boundaries) (layout-Placed [] ss a.verified));
  }

  assembled-IsMaster :
      (parent : Option Text) (destination : Text) (ss : List CachedArtifact)
      (r : Timeline × List Sample)
      → assemble_samples silence hash_file decode parent destination ss ≡ ok r
      → IsMaster ss r
  unfolding assemble_samples
  assembled-IsMaster parent destination ss r h =
      let loop = write_segments silence hash_file decode destination ss 0 [] [] in
      elim (Result-cases loop) [
        | inl (t, e) ↦
            subst (IsMaster ss) (ground (arith, Result-cases (expected_frames ss)))
              (Assembled-IsMaster ss t (write_segments_inv destination ss 0 [] [] t e))
        | inr (x, e) ↦ absurd (ground (arith, Result-cases (expected_frames ss)))
      ]

  pub assemble-inv :
      (finish : List Sample → Result (Unit {0}) BuildError) (parent : Option Text)
      (destination : Text) (ss : List CachedArtifact) (r : Timeline × List Sample)
      → assemble silence hash_file decode finish parent destination ss ≡ ok r
      → (assemble_samples silence hash_file decode parent destination ss ≡ ok r)
        × (finish r.1 ≡ ok tt)
  unfolding assemble
  assemble-inv finish parent destination ss r h =
      let (made, a, h₁) =
        bind-ok (assemble_samples silence hash_file decode parent destination ss)
          (λ m. finish m.1 >> ok m) r h in
      let (b, e) = (then-ok_iff (finish made.1) (ok made) r).0 h₁ in
      let same = ok_injective e in (a ∙ ap (λ m. ok m) same, subst (λ m. finish m.1 ≡ ok tt) same b)

  -- Where an assembly succeeds, every audio file has its recorded digest and number of samples, the
  -- timeline is the layout of the segments from frame zero, the master is their samples in order
  -- with the silence of their pauses, as long as the timeline says, and each boundary is the place
  -- in the master where the samples of its segment were written.
  pub assemble-IsMaster :
      (finish : List Sample → Result (Unit {0}) BuildError) (parent : Option Text)
      (destination : Text) (ss : List CachedArtifact) (r : Timeline × List Sample)
      → assemble silence hash_file decode finish parent destination ss ≡ ok r
      → IsMaster ss r
  assemble-IsMaster finish parent destination ss r h =
      assembled-IsMaster parent destination ss r (assemble-inv finish parent destination ss r h).0
