-- ===== src/Cache/Kept.antt =====
-- What `resolve` answers and what it keeps.
use technical_tts.Prelude.{
  ◌≡◌, ◌⊎◌, refl, ap, ◌∙◌, Option, none, some, In, Result, ok, err, ok_injective, map_err-ok_iff,
  arith,
}
use technical_tts.Text.{Text}
use technical_tts.Assembly.{CachedArtifact}
use technical_tts.Plan.{PlannedSegment}
use technical_tts.Audio.{Signal}
use technical_tts.Cache.{CacheEntryFault, CacheArtifact}
use technical_tts.Cache.Entry.{Codec}
use technical_tts.Cache.Publish.{ConditionedStage}
use technical_tts.Cache.Resolve.{
  Folder, CacheState, Produced, ResolveFault, load_entry, Outcome, answer_of, stage_produced,
  entry_of, settle, fill, reuse_loaded, reuse, resolve_locked, resolve,
}

-- A directory is the entry, a stage or quarantined.
abbrev pub Holds : Folder → CacheState → Type 0
Holds folder state =
    (state.entry ≡ some folder) ⊎ (In folder state.stages ⊎ In folder state.quarantine)

module _ (s : Signal) (codec : Codec s) (segment : PlannedSegment)
    (entry_dir audio_path : Text) where
  open s use {Sample}

  -- What is answered is what the entry holds.
  abbrev pub Answers : Result CachedArtifact (ResolveFault Sample) × CacheState → Type 0
  Answers r =
      (c : CachedArtifact)
      → r.0 ≡ ok c
      → (folder : Folder) × (r.1.entry ≡ some folder)
        × (load_entry s codec segment entry_dir audio_path folder ≡ ok c)

  abbrev load : Folder → Result CachedArtifact (CacheEntryFault Sample)
  load = load_entry s codec segment entry_dir audio_path

  answer_of-ok :
      (folder : Folder) (c : CachedArtifact)
      → answer_of s codec segment entry_dir audio_path folder ≡ ok c
      → load folder ≡ ok c
  answer_of-ok folder c h = (map_err-ok_iff _ (load folder) c).0 h

  reuse_loaded-cases {κ} :
      (P : Outcome s → Type κ) (r : Result CachedArtifact (CacheEntryFault Sample))
      (state : CacheState) (unusable : Outcome s)
      → ((c : CachedArtifact) → r ≡ ok c → P (ok c, state))
      → P unusable
      → P (reuse_loaded s codec segment entry_dir audio_path r state unusable)
  unfolding reuse_loaded
  reuse_loaded-cases P (ok c) state unusable g h = g c refl
  reuse_loaded-cases P (err fault) state unusable g h = h

  -- Either it is a hit, or there is no entry, or one that cannot be used.
  pub reuse-cases {κ} :
      (P : Outcome s → Type κ) (o : Option Folder) (state : CacheState) (missing : Outcome s)
      (unusable : Folder → Outcome s)
      → (o ≡ none → P missing)
      → ((folder : Folder) (c : CachedArtifact)
          → o ≡ some folder
          → load folder ≡ ok c
          → P (ok c, state))
      → ((folder : Folder) → o ≡ some folder → P (unusable folder))
      → P (reuse s codec segment entry_dir audio_path o state missing unusable)
  unfolding reuse
  reuse-cases P none state missing unusable f g h = f refl
  reuse-cases P (some entry) state missing unusable f g h =
      reuse_loaded-cases P (load entry) state (unusable entry) (λ c e. g entry c refl e)
        (h entry refl)

  reuse-hit :
      (o : Option Folder) (state : CacheState) (missing : Outcome s) (unusable : Folder → Outcome s)
      (folder : Folder) (c : CachedArtifact)
      → o ≡ some folder
      → load folder ≡ ok c
      → reuse s codec segment entry_dir audio_path o state missing unusable ≡ (ok c, state)
  unfolding reuse reuse_loaded
  reuse-hit o state missing unusable folder c e f =
      ap (λ x. reuse s codec segment entry_dir audio_path x state missing unusable) e
      ∙ ap (λ r. reuse_loaded s codec segment entry_dir audio_path r state (unusable folder)) f

  hit :
      (between : CacheState → CacheState) (produced : Produced) (state : CacheState)
      (folder : Folder) (c : CachedArtifact)
      → state.entry ≡ some folder
      → load folder ≡ ok c
      → resolve s codec segment entry_dir audio_path between produced state ≡ (ok c, state)
  unfolding resolve
  hit between produced state folder c e f = reuse-hit state.entry state _ _ folder c e f

  settle-Answers :
      (staged : Result (CacheArtifact × ConditionedStage Sample) (ResolveFault Sample))
      (produced : Produced) (state : CacheState)
      → Answers (settle s codec segment entry_dir audio_path staged produced state)
  unfolding settle
  settle-Answers (err fault) produced state = λ c h. absurd (ground (arith, h))
  settle-Answers (ok made) produced state =
      λ c h. (entry_of s codec segment entry_dir audio_path made, refl, answer_of-ok _ c h)

  fill-Answers :
      (o : Option Folder) (produced : Produced) (state : CacheState)
      → state.entry ≡ o
      → Answers (fill s codec segment entry_dir audio_path o produced state)
  unfolding fill
  fill-Answers none produced state e =
      settle-Answers (stage_produced s codec segment entry_dir audio_path produced) produced state
  fill-Answers (some folder) produced state e = λ c h. (folder, e, answer_of-ok folder c h)

  hit-Answers :
      (state : CacheState) (folder : Folder) (c : CachedArtifact)
      → state.entry ≡ some folder
      → load folder ≡ ok c
      → Answers (ok c, state)
  hit-Answers state folder c e f = λ d h. (folder, e, f ∙ ap (λ x. ok x) (ok_injective h))

  resolve_locked-Answers :
      (produced : Produced) (state : CacheState)
      → Answers (resolve_locked s codec segment entry_dir audio_path produced state)
  unfolding resolve_locked
  resolve_locked-Answers produced state =
      reuse-cases Answers state.entry state _ _ (λ e. fill-Answers _ produced _ refl)
        (λ folder c e f. hit-Answers state folder c e f)
        (λ folder e. fill-Answers _ produced _ refl)

  resolve-Answers :
      (between : CacheState → CacheState) (produced : Produced) (state : CacheState)
      → Answers (resolve s codec segment entry_dir audio_path between produced state)
  unfolding resolve
  resolve-Answers between produced state =
      reuse-cases Answers state.entry state _ _
        (λ e. resolve_locked-Answers produced (between state))
        (λ folder c e f. hit-Answers state folder c e f)
        (λ folder e. resolve_locked-Answers produced (between state))

  -- What was resolved is the entry from then on: to resolve it again, whatever a worker would produce and
  -- other processes would do, answers the same and changes nothing.
  pub resolve-resolve :
      (between again : CacheState → CacheState) (produced other : Produced) (state : CacheState)
      (artifact : CachedArtifact)
      → (resolve s codec segment entry_dir audio_path between produced state).0 ≡ ok artifact
      → let left = (resolve s codec segment entry_dir audio_path between produced state).1 in
        resolve s codec segment entry_dir audio_path again other left ≡ (ok artifact, left)
  resolve-resolve between again produced other state artifact h =
      let (folder, e, f) = resolve-Answers between produced state artifact h in
      hit again other (resolve s codec segment entry_dir audio_path between produced state).1 folder
        artifact e f
