-- ===== src/Cache/Live.antt =====
-- A segment whose worker returns usable audio is resolved.
use technical_tts.Prelude.{
  ◌≡◌, refl, ap, sym, ◌∙◌, subst, Bool, true, false, Option, none, some, List, [], ◌∷◌, Result, ok,
  err, map_err, arith,
}
use technical_tts.Text.{Text}
use technical_tts.Assembly.{CachedArtifact}
use technical_tts.Plan.{PlannedSegment}
use technical_tts.Audio.{Signal, IsLawful, AreApart}
use technical_tts.Cache.Audio.{validate_wav}
use technical_tts.Cache.{CacheEntryFault, CacheArtifact}
use technical_tts.Cache.Entry.{Codec, loaded}
use technical_tts.Cache.Publish.{ConditionedStage, SynthesisReport, stage_entry}
use technical_tts.Cache.Published.{IsFaithful, stage_entry-load}
use technical_tts.Cache.Resolve.{
  Folder, CacheState, Produced, unusable_cache_entry, stage_fault, is_ok, load_entry, loads, place,
  reconcile_each, reconcile_stages, Outcome, answer_of, check_stage_holds_only_audio,
  stage_produced, entry_of, settle, fill, reconcile_and_fill, resolve_locked, resolve,
}
use technical_tts.Cache.Kept.{reuse-cases}

is_ok-ok : {A E : Type 0} (r : Result A E) → is_ok r ≡ true → (a : A) × (r ≡ ok a)
is_ok-ok (ok a) h = (a, refl)
is_ok-ok (err e) h = absurd (ground (arith, h))

module _ (s : Signal) (codec : Codec s) (segment : PlannedSegment)
    (entry_dir audio_path : Text) where
  open s use {Sample}

  abbrev load : Folder → Result CachedArtifact (CacheEntryFault Sample)
  load = load_entry s codec segment entry_dir audio_path

  -- There is no entry, or one that loads.
  abbrev IsValidEntry : Option Folder → Type 0
  IsValidEntry none = Unit
  IsValidEntry (some folder) = (c : CachedArtifact) × (load folder ≡ ok c)

  abbrev IsResolved : Outcome s → Type 0
  IsResolved r = (c : CachedArtifact) × (r.0 ≡ ok c)

  loads-ok :
      (folder : Folder)
      → loads s codec segment entry_dir audio_path folder ≡ true
      → (c : CachedArtifact) × (load folder ≡ ok c)
  loads-ok folder h = is_ok-ok (load folder) h

  place-IsValidEntry :
      (o : Option Folder) (valid : Bool) (stage : Folder) (state : CacheState)
      → state.entry ≡ o
      → loads s codec segment entry_dir audio_path stage ≡ valid
      → IsValidEntry o
      → IsValidEntry (place o valid stage state).entry
  unfolding place
  place-IsValidEntry (some entry) valid stage state e l h = subst IsValidEntry (sym e) h
  place-IsValidEntry none true stage state e l h = loads-ok stage l
  place-IsValidEntry none false stage state e l h = subst IsValidEntry (sym e) tt

  reconcile_each-IsValidEntry :
      (stages : List Folder) (state : CacheState)
      → IsValidEntry state.entry
      → IsValidEntry (reconcile_each s codec segment entry_dir audio_path stages state).entry
  unfolding reconcile_each
  reconcile_each-IsValidEntry [] state h = h
  reconcile_each-IsValidEntry (stage ∷ rest) state h = reconcile_each-IsValidEntry rest _ (
      place-IsValidEntry state.entry (loads s codec segment entry_dir audio_path stage) stage state
        refl refl h)

  answer_of-loaded :
      (folder : Folder) (c : CachedArtifact)
      → load folder ≡ ok c
      → answer_of s codec segment entry_dir audio_path folder ≡ ok c
  answer_of-loaded folder c h = ap (λ r. map_err (λ f. unusable_cache_entry f) r) h

  fill-IsResolved :
      (o : Option Folder) (produced : Produced) (state : CacheState)
      (made : CacheArtifact × ConditionedStage Sample) (artifact : CachedArtifact)
      → stage_produced s codec segment entry_dir audio_path produced ≡ ok made
      → load (entry_of s codec segment entry_dir audio_path made) ≡ ok artifact
      → IsValidEntry o
      → IsResolved (fill s codec segment entry_dir audio_path o produced state)
  unfolding fill settle
  fill-IsResolved (some entry) produced state made artifact e f (c, h) =
      (c, answer_of-loaded entry c h)
  fill-IsResolved none produced state made artifact e f h = (
    artifact,
    ap (λ r. (settle s codec segment entry_dir audio_path r produced state).0) e
        ∙ answer_of-loaded (entry_of s codec segment entry_dir audio_path made) artifact f,
  )

  reconcile_and_fill-IsResolved :
      (produced : Produced) (state : CacheState) (made : CacheArtifact × ConditionedStage Sample)
      (artifact : CachedArtifact)
      → stage_produced s codec segment entry_dir audio_path produced ≡ ok made
      → load (entry_of s codec segment entry_dir audio_path made) ≡ ok artifact
      → state.entry ≡ none
      → IsResolved (reconcile_and_fill s codec segment entry_dir audio_path produced state)
  unfolding reconcile_stages
  reconcile_and_fill-IsResolved produced state made artifact e f gone =
      fill-IsResolved _ produced _ made artifact e f
        (reconcile_each-IsValidEntry state.stages _ (subst IsValidEntry (sym gone) tt))

  resolve_locked-IsResolved :
      (produced : Produced) (state : CacheState) (made : CacheArtifact × ConditionedStage Sample)
      (artifact : CachedArtifact)
      → stage_produced s codec segment entry_dir audio_path produced ≡ ok made
      → load (entry_of s codec segment entry_dir audio_path made) ≡ ok artifact
      → IsResolved (resolve_locked s codec segment entry_dir audio_path produced state)
  unfolding resolve_locked
  resolve_locked-IsResolved produced state made artifact e f =
      reuse-cases s codec segment entry_dir audio_path IsResolved state.entry state _ _
        (λ gone. reconcile_and_fill-IsResolved produced state made artifact e f gone)
        (λ folder c g h. (c, refl))
        (λ folder g. reconcile_and_fill-IsResolved produced _ made artifact e f refl)

  -- Whatever the directories of the key hold and other processes do before the lock, a segment is
  -- resolved where the worker leaves its audio alone in the stage, the checks of it pass and its measured
  -- silences do not overlap: with a lawful signal, and `blake3`, `hound` and `serde` as they promise, the answer is an artifact.
  pub resolve-IsResolved :
      (lawful : IsLawful s) (faithful : IsFaithful s codec) (between : CacheState → CacheState)
      (state : CacheState) (report : SynthesisReport) (written : Text) (heard : List Sample)
      (artifact : CacheArtifact) (stage : ConditionedStage Sample)
      → validate_wav s (codec.open_wav written) ≡ ok heard
      → AreApart s heard
      → stage_entry s codec segment report written ≡ ok (artifact, stage)
      → codec.parse (codec.print artifact) ≡ some artifact
      → (answer : CachedArtifact) × ((resolve s codec segment entry_dir audio_path between
            (record { audio_record = written; others = []; outcome = ok report })
            state).0
          ≡ ok answer)
  unfolding resolve stage_produced check_stage_holds_only_audio load_entry
  resolve-IsResolved lawful faithful between state report written heard artifact stage opened apart
        staged parsed =
      let produced : Produced = record {
        audio_record = written;
        others = [];
        outcome = ok report;
      } in
      let answer = loaded s codec segment entry_dir audio_path stage.samples stage.bytes in
      let e : stage_produced s codec segment entry_dir audio_path produced ≡ ok (artifact, stage) =
        ap (λ r. map_err (λ f. stage_fault f) r) staged in
      let f =
        stage_entry-load s lawful codec faithful segment entry_dir audio_path report written heard
          artifact stage opened apart staged parsed in
      let locked =
        resolve_locked-IsResolved produced (between state) (artifact, stage) answer e f in
      reuse-cases s codec segment entry_dir audio_path IsResolved state.entry state _ _
        (λ gone. locked) (λ folder c g h. (c, refl)) (λ folder g. locked)
