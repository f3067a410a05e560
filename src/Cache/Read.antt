-- ===== src/Cache/Read.antt =====
-- What `validate_wav` accepts.
use technical_tts.Prelude.{
  ℕ, suc, ◌+◌, ◌<◌, ◌≤◌, ◌≡◌, ◌↔◌, refl, ap, subst, Bool, true, false, not, ◌||◌, Option, none,
  some, List, [], ◌∷◌, map, length, All, leb, ltb, ◌==◌, ==_iff, Result, ok, ◌>>=◌, ◌>>◌, refuse_if,
  refuse_if-then_iff, bind-ok, bind-ok_iff, ok_injective, arith,
}
use technical_tts.Assembly.{canonical_sample_rate}
use technical_tts.Identity.{canonical_channels, canonical_bits_per_sample}
use technical_tts.Audio.{Signal, max_u32, to_u32}
use technical_tts.Cache.{
  Wav, AudioFault, non_canonical, too_long, out_of_range_sample, no_frames, frame_count_overflow,
  max_segment_frames,
}
use technical_tts.Cache.Audio.{read_samples, is_nothing, is_canonical, validate_wav}

pub not_or-true_iff :
    (a b c d : Bool)
    → (not (not a || not b || not c || not d) ≡ true)
      ↔ ((a ≡ true) × (b ≡ true) × (c ≡ true) × (d ≡ true))
not_or-true_iff a b c d = ground arith

some_injective : {A : Type 0} {a b : A} → ◌≡◌ {A = Option A} (some a) (some b) → a ≡ b
some_injective h = ground (arith, h)

module _ (s : Signal) where
  open s use {Sample, in_range}

  -- The samples of a file in the canonical format, all of them in range, one at least and no more than
  -- ten minutes of them.
  pub record IsWavOf (file : Option (Wav Sample)) (samples : List Sample) : Type 0 where
    pub wav : Wav Sample
    pub opened : file ≡ some wav
    pub mono : wav.channels ≡ canonical_channels
    pub rate : wav.sample_rate ≡ canonical_sample_rate
    pub bits : wav.bits_per_sample ≡ canonical_bits_per_sample
    pub float : wav.is_float ≡ true
    pub read : wav.samples ≡ map (λ x. some x) samples
    pub ranged : All (λ x. in_range x ≡ true) samples
    pub some_frames : 0 < length samples
    pub few_frames : length samples ≤ max_segment_frames

  read_samples-ok :
      (index : ℕ) (opened : List (Option Sample)) (xs : List Sample)
      → index ≤ max_segment_frames
      → read_samples s index opened ≡ ok xs
      → (opened ≡ map (λ x. some x) xs)
        × All (λ x. in_range x ≡ true) xs
        × (index + length xs ≤ max_segment_frames)
  unfolding read_samples
  read_samples-ok index [] xs le h =
      subst
        (λ ys.
          ([] ≡ map (λ x. some x) ys)
          × All (λ x. in_range x ≡ true) ys
          × (index + length ys ≤ max_segment_frames))
        (ok_injective h) (refl, tt, omega arith)
  read_samples-ok index (none ∷ rest) xs le h = absurd (ground (arith, h))
  read_samples-ok index (some value ∷ rest) xs le h =
      let e₂ = too_long (to_u32 (suc index)) max_segment_frames in
      let r₃ = read_samples s (suc index) rest >>= λ samples. ok (value ∷ samples) in
      let r₂ = refuse_if (leb max_segment_frames index) e₂ >> r₃ in
      let r₁ = refuse_if (not (in_range value)) (out_of_range_sample index value) >> r₂ in
      let (_, h₁) = (refuse_if-then_iff (ltb max_u32 index) frame_count_overflow r₁ xs).0 h in
      let (ranged, h₂) = (refuse_if-then_iff (not (in_range value)) _ r₂ xs).0 h₁ in
      let (room, h₃) = (refuse_if-then_iff (leb max_segment_frames index) e₂ r₃ xs).0 h₂ in
      let (ys, r, e) =
        bind-ok (read_samples s (suc index) rest) (λ samples. ok (value ∷ samples)) xs h₃ in
      let below : suc index ≤ max_segment_frames = ground (arith, room) in
      let here : in_range value ≡ true = ground (arith, ranged) in
      let (a, b, c) = read_samples-ok (suc index) rest ys below r in
      subst
        (λ zs.
          (some value ∷ rest ≡ map (λ x. some x) zs)
          × All (λ x. in_range x ≡ true) zs
          × (index + length zs ≤ max_segment_frames))
        (ok_injective e) (ap (λ t. some value ∷ t) a, (here, b), omega arith)

  read_samples-some :
      (index : ℕ) (xs : List Sample)
      → All (λ x. in_range x ≡ true) xs
      → index + length xs ≤ max_segment_frames
      → read_samples s index (map (λ x. some x) xs) ≡ ok xs
  unfolding read_samples
  read_samples-some index [] h le = refl
  read_samples-some index (x ∷ xs) h le =
      let later = read_samples-some (suc index) xs h.1 (omega arith) in
      let a : ltb max_u32 index ≡ false = ground arith in
      let b : leb max_segment_frames index ≡ false = ground arith in
      let c : not (in_range x) ≡ false = ground (arith, h.0) in rw (a, b, c, later) refl

  nonempty : (xs : List Sample) → (is_nothing s xs ≡ false) ↔ (0 < length xs)
  nonempty [] = ground arith
  nonempty (x ∷ xs) = ground arith

  pub validate_wav-ok_iff :
      (file : Option (Wav Sample)) (xs : List Sample)
      → (validate_wav s file ≡ ok xs) ↔ IsWavOf file xs
  unfolding validate_wav
  validate_wav-ok_iff none xs =
      (λ h. absurd (ground (arith, h)), λ w. absurd (let e = w.opened in ground (arith, e)))
  validate_wav-ok_iff (some wav) xs =
      let body : List Sample → Result (List Sample) (AudioFault Sample) =
        λ samples. refuse_if (is_nothing s samples) no_frames >> ok samples in
      let canonical =
        refuse_if-then_iff (not (is_canonical s wav))
          (non_canonical wav.channels wav.sample_rate wav.bits_per_sample wav.is_float)
          (read_samples s 0 wav.samples >>= body) xs in
      let four =
        not_or-true_iff (wav.channels == canonical_channels)
          (wav.sample_rate == canonical_sample_rate)
          (wav.bits_per_sample == canonical_bits_per_sample) wav.is_float in
      (
        (λ h.
            let (format, h₁) = canonical.0 h in
            let (ys, r, h₂) = bind-ok (read_samples s 0 wav.samples) body xs h₁ in
            let (full, e) = (refuse_if-then_iff (is_nothing s ys) no_frames (ok ys) xs).0 h₂ in
            let (a, b, c, d) = four.0 (ground (arith, format)) in
            let (read, ranged, few) = read_samples-ok 0 wav.samples ys (omega arith) r in
            let same = ok_injective e in
            subst (IsWavOf (some wav)) same (record {
              wav = wav;
              opened = refl;
              mono = (==_iff wav.channels canonical_channels).0 a;
              rate = (==_iff wav.sample_rate canonical_sample_rate).0 b;
              bits = (==_iff wav.bits_per_sample canonical_bits_per_sample).0 c;
              float = d;
              read = read;
              ranged = ranged;
              some_frames = (nonempty ys).0 full;
              few_frames = omega arith;
            })),
        (λ w.
            let same = some_injective w.opened in
            let few = w.few_frames in
            let format = four.1 (
              (==_iff wav.channels canonical_channels).1 (rw same w.mono),
              (==_iff wav.sample_rate canonical_sample_rate).1 (rw same w.rate),
              (==_iff wav.bits_per_sample canonical_bits_per_sample).1 (rw same w.bits),
              rw same w.float,
            ) in
            let read : read_samples s 0 wav.samples ≡ ok xs =
              rw (same, w.read) (read_samples-some 0 xs w.ranged (omega arith)) in
            canonical.1 (
              ground (arith, format),
              (bind-ok_iff (read_samples s 0 wav.samples) body xs).1 (
                xs,
                read,
                (refuse_if-then_iff (is_nothing s xs) no_frames (ok xs) xs).1
                    ((nonempty xs).1 w.some_frames, refl),
              ),
            )),
      )
