-- ===== src/Cache/Audible.antt =====
-- What `check_samples` accepts.
use technical_tts.Prelude.{
  ℕ, suc, ◌-◌, ◌≤◌, ◌≡◌, ◌↔◌, refl, sym, ◌∙◌, true, not, List, [], ◌∷◌, length, ltb, ltb_false→le,
  ◌==◌, ==_iff, Result, ok, ◌>>◌, refuse_if, refuse_if-ok_iff, refuse_not-ok_iff,
  refuse_not-then_iff, then-ok_iff, map_err, map_err-ok_iff, for_each-ok_iff, arith,
}
use technical_tts.Text.{Text, codes, text_eq, text_eq_iff}
use technical_tts.Audio.{Signal, to_u32, measure_edge_silence}
use technical_tts.Audio.Zeros.{zero_at}
use technical_tts.Cache.{AudioFault, CacheEntryFault, audio, CacheArtifact}
use technical_tts.Cache.Audio.{
  check_endpoint, check_exposed_endpoints, last_sample, check_endpoints, check_silence,
  check_edge_silence_counts, check_edge_silence,
}
use technical_tts.Cache.Conditioning.{check_declared_conditioning}
use technical_tts.Cache.Declared.{IsDeclared, check_declared_conditioning-ok_iff}
use technical_tts.Cache.Entry.{Codec, check_samples}

module _ (s : Signal) where
  open s use {Sample, is_zero}

  last-zero_at :
      (x : Sample) (xs : List Sample)
      → is_zero (last_sample s x xs) ≡ zero_at s (length (x ∷ xs) - 1) (x ∷ xs)
  unfolding last_sample
  last-zero_at x [] = refl
  last-zero_at x (y ∷ ys) =
      let e : length (x ∷ y ∷ ys) - 1 ≡ suc (length (y ∷ ys) - 1) = omega arith in
      rw e (last-zero_at y ys)

  pub check_endpoints-ok_iff :
      (xs : List Sample)
      → (check_endpoints s xs ≡ ok tt)
        ↔ ((zero_at s 0 xs ≡ true) × (zero_at s (length xs - 1) xs ≡ true))
  unfolding check_endpoints check_exposed_endpoints
  check_endpoints-ok_iff [] = (λ h. (refl, refl), λ h. refl)
  check_endpoints-ok_iff (x ∷ xs) =
      let last = last_sample s x xs in
      let (p, q) =
        for_each-ok_iff (check_endpoint s) ((codes "first", x) ∷ (codes "last", last) ∷ []) in
      let front = refuse_not-ok_iff (is_zero x) in
      let back = refuse_not-ok_iff (is_zero last) in
      (
        (λ h. let (a, (b, _)) = p h in ((front _).0 a, sym (last-zero_at x xs) ∙ (back _).0 b)),
        (λ (a, b). q ((front _).1 a, ((back _).1 (last-zero_at x xs ∙ b), tt))),
      )

  check_edge_silence_counts-ok_iff :
      (leading trailing : ℕ)
      → (check_edge_silence_counts s leading trailing ≡ ok tt)
        ↔ ((240 ≤ leading) × (240 ≤ trailing))
  unfolding check_edge_silence_counts
  check_edge_silence_counts-ok_iff leading trailing =
      let (p, q) =
        for_each-ok_iff (check_silence s 240)
          ((codes "first", leading) ∷ (codes "last", trailing) ∷ []) in
      (
        (λ h.
            let (a, (b, _)) = p h in
            (
              ltb_false→le leading 240 ((refuse_if-ok_iff (ltb leading 240) _).0 a),
              ltb_false→le trailing 240 ((refuse_if-ok_iff (ltb trailing 240) _).0 b),
            )),
        (λ (a, b). q (
          (refuse_if-ok_iff (ltb leading 240) _).1 (ground (arith, a)),
          ((refuse_if-ok_iff (ltb trailing 240) _).1 (ground (arith, b)), tt),
        )),
      )

  pub check_edge_silence-ok_iff :
      (xs : List Sample)
      → (check_edge_silence s xs ≡ ok tt) ↔ (
          (240 ≤ (measure_edge_silence s xs 24000).0) × (240 ≤ (measure_edge_silence s xs 24000).1))
  unfolding check_edge_silence
  check_edge_silence-ok_iff xs =
      check_edge_silence_counts-ok_iff (measure_edge_silence s xs 24000).0
        (measure_edge_silence s xs 24000).1

  module _ (codec : Codec s) where
    open codec use {hash, open_wav, parse}

    -- What the audio of an artifact is: from silence to silence, conditioned as recorded, with the frames
    -- and the digest that are recorded.
    pub record IsAudioOf (artifact : CacheArtifact) (samples : List Sample) (bytes : Text)
        : Type 0 where
      pub first_zero : zero_at s 0 samples ≡ true
      pub last_zero : zero_at s (length samples - 1) samples ≡ true
      pub leading_silence : 240 ≤ (measure_edge_silence s samples 24000).0
      pub trailing_silence : 240 ≤ (measure_edge_silence s samples 24000).1
      pub declared : IsDeclared s artifact.edge_conditioning samples
      pub frames : artifact.frames ≡ to_u32 (length samples)
      pub checksum : artifact.audio_blake3 ≡ hash bytes

    pub check_samples-ok_iff :
        (artifact : CacheArtifact) (xs : List Sample) (bytes : Text)
        → (check_samples s codec artifact xs bytes ≡ ok tt) ↔ IsAudioOf artifact xs bytes
    unfolding check_samples
    check_samples-ok_iff artifact xs bytes =
        let wrap : AudioFault Sample → CacheEntryFault Sample = λ f. audio f in
        let ends = check_endpoints s xs in
        let silence = check_edge_silence s xs in
        let same_frames = to_u32 (length xs) == artifact.frames in
        let same_bytes = text_eq (hash bytes) artifact.audio_blake3 in
        let r₄ : Result (Unit {0}) (CacheEntryFault Sample) = refuse_if (not same_bytes) _ in
        let r₃ = refuse_if (not same_frames) _ >> r₄ in
        let r₂ = check_declared_conditioning s artifact.edge_conditioning xs >> r₃ in
        let r₁ = map_err wrap silence >> r₂ in
        let first = then-ok_iff (map_err wrap ends) r₁ tt in
        let second = then-ok_iff (map_err wrap silence) r₂ tt in
        let third =
          then-ok_iff (check_declared_conditioning s artifact.edge_conditioning xs) r₃ tt in
        let fourth = refuse_not-then_iff same_frames _ r₄ tt in
        let last = refuse_not-ok_iff same_bytes _ in
        let zeros = check_endpoints-ok_iff xs in
        let quiet = check_edge_silence-ok_iff xs in
        let declared = check_declared_conditioning-ok_iff s artifact.edge_conditioning xs in
        let frames = ==_iff (to_u32 (length xs)) artifact.frames in
        let checksum = text_eq_iff (hash bytes) artifact.audio_blake3 in
        let ends_iff = map_err-ok_iff wrap ends tt in
        let silence_iff = map_err-ok_iff wrap silence tt in
        (
          (λ h.
              let (a, h₁) = first.0 h in
              let (b, h₂) = second.0 h₁ in
              let (c, h₃) = third.0 h₂ in
              let (d, e) = fourth.0 h₃ in
              let (front, back) = zeros.0 (ends_iff.0 a) in
              let (leading, trailing) = quiet.0 (silence_iff.0 b) in
              record {
                first_zero = front;
                last_zero = back;
                leading_silence = leading;
                trailing_silence = trailing;
                declared = declared.0 c;
                frames = sym (frames.0 d);
                checksum = sym (checksum.0 (last.0 e));
              }),
          (λ w. first.1 (
            ends_iff.1 (zeros.1 (w.first_zero, w.last_zero)),
            second.1 (
              silence_iff.1 (quiet.1 (w.leading_silence, w.trailing_silence)),
              third.1 (
                declared.1 w.declared,
                fourth.1 (frames.1 (sym w.frames), last.1 (checksum.1 (sym w.checksum))),
              ),
            ),
          )),
        )
