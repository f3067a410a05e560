-- ===== src/Timeline/Chapters.antt =====
-- Chapters of an assembled timeline: contiguous from frame zero to the end of the master.
use technical_tts.Prelude.{
  ℕ, ◌+◌, ◌%◌, ◌^◌, ◌≡◌, ◌≤◌, refl, sym, subst, Option, List, [], ◌∷◌, arith, Result, ok,
}
use technical_tts.Text.{Text}
use technical_tts.Digest.{Digest}
use technical_tts.Assembly.{CachedArtifact, WrittenSegment, Timeline, BuildError, max_u64, assemble}
use technical_tts.Assembly.Sound.{pause_length, layout, total_length, assemble-IsMaster}
use technical_tts.Assembly.Width.{total-le}
use technical_tts.Timeline.{speech_end_frame, chapter_end_frame}

-- Each chapter starts where the one before ended, each caption ends within its chapter, and the last
-- chapter ends at `end`.
abbrev pub Contiguous : ℕ → List WrittenSegment → ℕ → Type 0
Contiguous start [] end = start ≡ end
Contiguous start (w ∷ ws) end =
    (w.start_frame ≡ start)
    × (speech_end_frame w ≡ start + w.audio_frames)
    × (chapter_end_frame w ≡ speech_end_frame w + w.pause_frames)
    × Contiguous (chapter_end_frame w) ws end

layout-Contiguous :
    (start : ℕ) (ss : List CachedArtifact)
    → start + total_length ss ≤ max_u64
    → Contiguous start (layout start ss) (start + total_length ss)
layout-Contiguous start [] h = omega arith
layout-Contiguous start (s ∷ ss) h =
    let end = start + s.frames + pause_length s in
    let speech : (start + s.frames) % 2 ^ 64 ≡ start + s.frames = omega arith in
    let chapter : (start + s.frames + pause_length s) % 2 ^ 64 ≡ end = omega arith in
    rw speech (
      rw chapter (
        refl,
        refl,
        refl,
        subst (Contiguous end (layout end ss)) (omega arith)
            (layout-Contiguous end ss (omega arith)),
      ))

module _ {Sample : Type 0} (silence : Sample) (hash_file : Text → Result Digest BuildError)
    (decode : Text → Result (List Sample) BuildError) where
  -- Where an assembly succeeds, the chapters of its timeline follow one another without a gap from
  -- frame zero to the last frame of the master, each speech ends inside its chapter, and none of
  -- the unchecked additions that place them wraps around.
  pub assemble-Contiguous :
      (finish : List Sample → Result (Unit {0}) BuildError) (parent : Option Text)
      (destination : Text) (ss : List CachedArtifact) (r : Timeline × List Sample)
      → assemble silence hash_file decode finish parent destination ss ≡ ok r
      → Contiguous 0 r.0.segments r.0.total_frames
  assemble-Contiguous finish parent destination ss r h =
      let m = assemble-IsMaster silence hash_file decode finish parent destination ss r h in
      let le = total-le silence hash_file decode finish parent destination ss r h in
      subst (λ ws. Contiguous 0 ws r.0.total_frames) (sym m.boundaries)
        (subst (Contiguous 0 (layout 0 ss)) (omega (arith, m.frames))
          (layout-Contiguous 0 ss (omega (arith, m.frames))))
