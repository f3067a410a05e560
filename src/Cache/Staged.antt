-- ===== src/Cache/Staged.antt =====
-- What `stage_entry` has checked of an entry.
use technical_tts.Prelude.{
  ℕ, ◌≤◌, ◌≡◌, ap, sym, ◌∙◌, subst, Bool, true, false, not, ◌||◌, Option, none, some, List, length,
  ltb, ltb_false→le, ◌==◌, ==_iff, Result, ok, ◌>>=◌, ◌>>◌, ok_or, ok_or-ok, ok_injective,
  refuse_if, refuse_if-ok_iff, refuse_if-then_iff, then-ok_iff, bind-ok, map_err, map_err-ok_iff,
  arith,
}
use technical_tts.Text.{Text, text_eq, text_eq_iff}
use technical_tts.Digest.{Digest}
use technical_tts.Assembly.{canonical_sample_rate}
use technical_tts.Identity.{canonical_channels, voice_conditioning_for, key_for}
use technical_tts.Plan.{PlannedSegment}
use technical_tts.Audio.{Signal, EdgeConditioning, max_u32, to_u32, condition_edges}
use technical_tts.Cache.{
  AudioFault, unreadable, frame_count_overflow, CacheArtifact, max_segment_frames,
}
use technical_tts.Cache.Audio.{
  validate_wav, check_endpoints, check_edge_silence, check_segment_ceiling,
}
use technical_tts.Cache.Read.{IsWavOf, validate_wav-ok_iff}
use technical_tts.Cache.Entry.{Codec}
use technical_tts.Cache.Publish.{
  SynthesisReport, StageFault, unusable_audio, unusable_conditioned, panicked, ConditionedStage,
  names_same, staged, condition_staged_audio, check_report, artifact_of, stage_entry,
}

not-false : (b : Bool) → not b ≡ false → b ≡ true
not-false b h = ground (arith, h)

last_test : (a b c : Bool) → (not a || not b || not c) ≡ false → c ≡ true
last_test a b c h = ground (arith, h)

same_pair :
    {A B : Type 0} {a c : A} {b d : B}
    → a ≡ c
    → b ≡ d
    → ◌≡◌ {A = Option (A × B)} (some (a, b)) (some (c, d))
same_pair e f = cc

module _ (s : Signal) where
  open s use {Sample}

  -- What passed every check between the worker's file and its entry.
  pub record IsStaged (codec : Codec s) (segment : PlannedSegment) (report : SynthesisReport)
      (written : Text) (artifact : CacheArtifact) (stage : ConditionedStage Sample) : Type 0 where
    pub validated : List Sample
    pub wav : IsWavOf s (codec.open_wav written) validated
    pub named : key_for codec.hash report.context segment ≡ segment.cache_key
    pub conditioning :
        voice_conditioning_for report.context segment.speaker ≡ some report.voice_conditioning_hash
    pub reported : report.frames ≡ length validated
    pub conditioned :
        condition_edges s false validated 24000 ≡ some (stage.samples, stage.conditioning)
    pub few_frames : length stage.samples ≤ max_segment_frames
    pub counted : stage.frames ≡ length stage.samples
    pub encoded : codec.write_wav stage.samples ≡ some stage.bytes
    pub recorded : artifact ≡ artifact_of s codec segment report stage

  check_segment_ceiling-ok :
      (frames n m : ℕ)
      → check_segment_ceiling s frames n ≡ ok m
      → (m ≡ n) × (n ≤ max_segment_frames)
  unfolding check_segment_ceiling
  check_segment_ceiling-ok frames n m h =
      let r : Result ℕ (AudioFault Sample) = refuse_if (ltb max_segment_frames n) _ >> ok n in
      let (_, h₁) = (refuse_if-then_iff (ltb max_u32 n) frame_count_overflow r m).0 h in
      let (small, e) = (refuse_if-then_iff (ltb max_segment_frames n) _ (ok n) m).0 h₁ in
      (sym (ok_injective e), ltb_false→le max_segment_frames n small)

  module _ (codec : Codec s) where
    open codec use {hash, open_wav, write_wav}

    staged-ok :
        (frames : ℕ) (ys : List Sample) (c : EdgeConditioning) (stage : ConditionedStage Sample)
        → staged s codec frames ys c ≡ ok stage
        → (stage.samples ≡ ys)
          × (stage.conditioning ≡ c)
          × (write_wav ys ≡ some stage.bytes)
          × (stage.frames ≡ length ys)
          × (length ys ≤ max_segment_frames)
    unfolding staged
    staged-ok frames ys c stage h =
        let made : ℕ → Text → ConditionedStage Sample =
          λ n b. record { samples = ys; bytes = b; frames = n; conditioning = c } in
        let wrap : AudioFault Sample → StageFault Sample = λ f. unusable_audio f in
        let back : Text → AudioFault Sample → StageFault Sample = λ b f. unusable_conditioned f b in
        let r₂ : ℕ → Text → Result (ConditionedStage Sample) (StageFault Sample) =
          λ n b. map_err (back b) (check_edge_silence s ys) >> ok (made n b) in
        let r₁ : ℕ → Text → Result (ConditionedStage Sample) (StageFault Sample) =
          λ n b. map_err (back b) (check_endpoints s ys) >> r₂ n b in
        let ceiling = check_segment_ceiling s frames (length ys) in
        let bytes = ok_or (write_wav ys) (unusable_audio unreadable) in
        let (n, measured, h₁) = bind-ok (map_err wrap ceiling) (λ n. bytes >>= r₁ n) stage h in
        let counted = (map_err-ok_iff wrap ceiling n).0 measured in
        let (b, encoded, h₂) = bind-ok bytes (r₁ n) stage h₁ in
        let (_, h₃) = (then-ok_iff (map_err (back b) (check_endpoints s ys)) (r₂ n b) stage).0 h₂ in
        let (_, e) =
          (then-ok_iff (map_err (back b) (check_edge_silence s ys)) (ok (made n b)) stage).0 h₃ in
        let same = ok_injective e in
        let (total, few) = check_segment_ceiling-ok frames (length ys) n counted in
        (
          sym (ap (λ t. t.samples) same),
          sym (ap (λ t. t.conditioning) same),
          ok_or-ok (write_wav ys) (unusable_audio unreadable) b encoded
              ∙ ap (λ t. some t.bytes) same,
          sym (ap (λ t. t.frames) same) ∙ total,
          few,
        )

    names_same-some : (o : Option Digest) (d : Digest) → names_same o d ≡ true → o ≡ some d
    names_same-some none d h = absurd (ground (arith, h))
    names_same-some (some e) d h = ap (λ x. some x) ((text_eq_iff e d).0 h)

    check_report-ok :
        (segment : PlannedSegment) (report : SynthesisReport) (xs : List Sample)
        → check_report s codec segment report xs ≡ ok tt
        → (report.frames ≡ to_u32 (length xs))
          × (voice_conditioning_for report.context segment.speaker
              ≡ some report.voice_conditioning_hash)
          × (key_for hash report.context segment ≡ segment.cache_key)
    unfolding check_report
    check_report-ok segment report xs h =
        let in_context = voice_conditioning_for report.context segment.speaker in
        let named = names_same in_context report.voice_conditioning_hash in
        let key = key_for hash report.context segment in
        let written = report.frames == to_u32 (length xs) in
        let differs =
          not (report.sample_rate == canonical_sample_rate)
          || not (report.channels == canonical_channels)
          || not written in
        let r₂ : Result (Unit {0}) (StageFault Sample) =
          refuse_if (not (text_eq key segment.cache_key)) _ in
        let r₁ = refuse_if (not named) _ >> r₂ in
        let (a, h₁) = (refuse_if-then_iff differs _ r₁ tt).0 h in
        let (b, h₂) = (refuse_if-then_iff (not named) _ r₂ tt).0 h₁ in
        let c = (refuse_if-ok_iff (not (text_eq key segment.cache_key)) _).0 h₂ in
        (
          (==_iff report.frames (to_u32 (length xs))).0 (
              last_test (report.sample_rate == canonical_sample_rate)
                (report.channels == canonical_channels) written a),
          names_same-some in_context report.voice_conditioning_hash (not-false named b),
          (text_eq_iff key segment.cache_key).0 (not-false (text_eq key segment.cache_key) c),
        )

    pub stage_entry-IsStaged :
        (segment : PlannedSegment) (report : SynthesisReport) (written : Text)
        (artifact : CacheArtifact) (stage : ConditionedStage Sample)
        → stage_entry s codec segment report written ≡ ok (artifact, stage)
        → IsStaged codec segment report written artifact stage
    unfolding stage_entry condition_staged_audio
    stage_entry-IsStaged segment report written artifact stage made =
        let wrap : AudioFault Sample → StageFault Sample = λ f. unusable_audio f in
        let read = map_err wrap (validate_wav s (open_wav written)) in
        let answer : ConditionedStage Sample
            → Result (CacheArtifact × ConditionedStage Sample) (StageFault Sample) =
          λ t. ok (artifact_of s codec segment report t, t) in
        let conditioned = condition_staged_audio s codec in
        let body : List Sample
            → Result (CacheArtifact × ConditionedStage Sample) (StageFault Sample) =
          λ xs. check_report s codec segment report xs >> (conditioned xs >>= answer) in
        let (xs, a, h₁) = bind-ok read body (artifact, stage) made in
        let (b, h₂) =
          (then-ok_iff (check_report s codec segment report xs) (conditioned xs >>= answer)
              (artifact, stage)).0
            h₁ in
        let (t, c, e) = bind-ok (conditioned xs) answer (artifact, stage) h₂ in
        let both = ok_injective e in
        let same : t ≡ stage = ap (λ p. p.1) both in
        let wav =
          (validate_wav-ok_iff s (open_wav written) xs).0
            ((map_err-ok_iff wrap (validate_wav s (open_wav written)) xs).0 a) in
        let (frames, named, key) = check_report-ok segment report xs b in
        let few = wav.few_frames in
        let body₁ : List Sample × EdgeConditioning
            → Result (ConditionedStage Sample) (StageFault Sample) =
          λ m. staged s codec (length xs) m.0 m.1 in
        let (_, c₁) =
          (refuse_if-then_iff (ltb max_u32 (length xs)) (unusable_audio frame_count_overflow)
              (ok_or (condition_edges s false xs canonical_sample_rate) panicked >>= body₁) t).0
            c in
        let (m, d, c₂) =
          bind-ok (ok_or (condition_edges s false xs canonical_sample_rate) panicked) body₁ t c₁ in
        let (p, q, encoded, counted, short) =
          staged-ok (length xs) m.0 m.1 stage (subst (λ u. body₁ m ≡ ok u) same c₂) in
        let edges = ok_or-ok (condition_edges s false xs canonical_sample_rate) panicked m d in
        let small : to_u32 (length xs) ≡ length xs = ground (arith, few) in
        record {
          validated = xs;
          wav = wav;
          named = key;
          conditioning = named;
          reported = frames ∙ small;
          conditioned = edges ∙ same_pair (sym p) (sym q);
          few_frames = subst (λ ys. length ys ≤ max_segment_frames) (sym p) short;
          counted = counted ∙ ap (λ ys. length ys) (sym p);
          encoded = ap write_wav p ∙ encoded;
          recorded = sym (ap (λ p. p.0) both) ∙ ap (λ u. artifact_of s codec segment report u) same;
        }
