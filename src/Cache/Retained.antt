-- ===== src/Cache/Retained.antt =====
-- No directory of a cache key is lost.
use technical_tts.Prelude.{
  ◌≡◌, ◌⊎◌, inl, inr, refl, ap, sym, ◌∙◌, Bool, true, false, Option, none, some, List, [], ◌∷◌, In,
  Result, ok, err, arith,
}
use technical_tts.Text.{Text}
use technical_tts.Plan.{PlannedSegment}
use technical_tts.Audio.{Signal}
use technical_tts.Cache.{CacheArtifact}
use technical_tts.Cache.Entry.{Codec}
use technical_tts.Cache.Publish.{unusable_conditioned, panicked, ConditionedStage}
use technical_tts.Cache.Resolve.{
  Folder, CacheState, Produced, ResolveFault, quarantine_folder, publish, loads, place,
  reconcile_each, reconcile_stages, stage_produced, stage_fault, refuse_stage, settle, fill,
  reconcile_and_fill, resolve_locked, resolve,
}
use technical_tts.Cache.Kept.{Holds, reuse-cases}

Holds-quarantine :
    (folder other : Folder) (state : CacheState)
    → Holds folder state
    → Holds folder (quarantine_folder other state)
Holds-quarantine folder other state (inl e) = inl e
Holds-quarantine folder other state (inr (inl i)) = inr (inl i)
Holds-quarantine folder other state (inr (inr i)) = inr (inr (inr i))

Holds-publish :
    (folder other : Folder) (state : CacheState)
    → state.entry ≡ none
    → Holds folder state
    → Holds folder (publish other state)
Holds-publish folder other state gone (inl e) =
    absurd (let clash = sym gone ∙ e in ground (arith, clash))
Holds-publish folder other state gone (inr i) = inr i

Holds-place :
    (o : Option Folder) (valid : Bool) (folder stage : Folder) (state : CacheState)
    → state.entry ≡ o
    → (folder ≡ stage) ⊎ Holds folder state
    → Holds folder (place o valid stage state)
unfolding place
Holds-place (some entry) valid folder stage state e (inl same) = inr (inr (inl same))
Holds-place (some entry) valid folder stage state e (inr h) = Holds-quarantine folder stage state h
Holds-place none true folder stage state e (inl same) = inl (ap (λ f. some f) (sym same))
Holds-place none true folder stage state e (inr h) = Holds-publish folder stage state e h
Holds-place none false folder stage state e (inl same) = inr (inr (inl same))
Holds-place none false folder stage state e (inr h) = Holds-quarantine folder stage state h

module _ (s : Signal) (codec : Codec s) (segment : PlannedSegment)
    (entry_dir audio_path : Text) where
  open s use {Sample}

  reconcile_each-Holds :
      (folder : Folder) (stages : List Folder) (state : CacheState)
      → In folder stages ⊎ Holds folder state
      → Holds folder (reconcile_each s codec segment entry_dir audio_path stages state)
  unfolding reconcile_each
  reconcile_each-Holds folder [] state (inl i) = absurd i
  reconcile_each-Holds folder [] state (inr h) = h
  reconcile_each-Holds folder (stage ∷ rest) state h =
      let valid = loads s codec segment entry_dir audio_path stage in
      reconcile_each-Holds folder rest (place state.entry valid stage state) (elim h [
        | inl (inl same) ↦ inr (Holds-place state.entry valid folder stage state refl (inl same))
        | inl (inr i) ↦ inl i
        | inr held ↦ inr (Holds-place state.entry valid folder stage state refl (inr held))
      ])

  reconcile_stages-Holds :
      (folder : Folder) (state : CacheState)
      → Holds folder state
      → Holds folder (reconcile_stages s codec segment entry_dir audio_path state)
  unfolding reconcile_stages
  reconcile_stages-Holds folder state (inl e) =
      reconcile_each-Holds folder state.stages _ (inr (inl e))
  reconcile_stages-Holds folder state (inr (inl i)) =
      reconcile_each-Holds folder state.stages _ (inl i)
  reconcile_stages-Holds folder state (inr (inr i)) =
      reconcile_each-Holds folder state.stages _ (inr (inr (inr i)))

  refuse_stage-Holds :
      (fault : ResolveFault Sample) (produced : Produced) (folder : Folder) (state : CacheState)
      → Holds folder state
      → Holds folder (refuse_stage s codec segment entry_dir audio_path fault produced state)
  unfolding refuse_stage
  refuse_stage-Holds (stage_fault panicked) produced folder state (inl e) = inl e
  refuse_stage-Holds (stage_fault panicked) produced folder state (inr (inl i)) = inr (inl (inr i))
  refuse_stage-Holds (stage_fault panicked) produced folder state (inr (inr i)) = inr (inr i)
  refuse_stage-Holds (stage_fault (unusable_conditioned f bytes)) produced folder state h =
      Holds-quarantine folder _ state h
  refuse_stage-Holds _ produced folder state h = Holds-quarantine folder _ state h

  settle-Holds :
      (staged : Result (CacheArtifact × ConditionedStage Sample) (ResolveFault Sample))
      (produced : Produced) (folder : Folder) (state : CacheState)
      → state.entry ≡ none
      → Holds folder state
      → Holds folder (settle s codec segment entry_dir audio_path staged produced state).1
  unfolding settle
  settle-Holds (err fault) produced folder state e h =
      refuse_stage-Holds fault produced folder state h
  settle-Holds (ok made) produced folder state e h = Holds-publish folder _ state e h

  fill-Holds :
      (o : Option Folder) (produced : Produced) (folder : Folder) (state : CacheState)
      → state.entry ≡ o
      → Holds folder state
      → Holds folder (fill s codec segment entry_dir audio_path o produced state).1
  unfolding fill
  fill-Holds (some entry) produced folder state e h = h
  fill-Holds none produced folder state e h =
      settle-Holds (stage_produced s codec segment entry_dir audio_path produced) produced folder
        state e h

  reconcile_and_fill-Holds :
      (produced : Produced) (folder : Folder) (state : CacheState)
      → Holds folder state
      → Holds folder (reconcile_and_fill s codec segment entry_dir audio_path produced state).1
  reconcile_and_fill-Holds produced folder state h =
      fill-Holds _ produced folder _ refl (reconcile_stages-Holds folder state h)

  Holds-unusable :
      (folder entry : Folder) (state : CacheState)
      → state.entry ≡ some entry
      → Holds folder state
      → Holds folder (quarantine_folder entry (record state { entry = none }))
  Holds-unusable folder entry state e (inl f) =
      inr (inr (inl (let same = sym f ∙ e in ground (arith, same))))
  Holds-unusable folder entry state e (inr (inl i)) = inr (inl i)
  Holds-unusable folder entry state e (inr (inr i)) = inr (inr (inr i))

  resolve_locked-Holds :
      (produced : Produced) (folder : Folder) (state : CacheState)
      → Holds folder state
      → Holds folder (resolve_locked s codec segment entry_dir audio_path produced state).1
  unfolding resolve_locked
  resolve_locked-Holds produced folder state h =
      reuse-cases s codec segment entry_dir audio_path (λ r. Holds folder r.1) state.entry state _ _
        (λ e. reconcile_and_fill-Holds produced folder state h) (λ other c e f. h)
        (λ entry e.
          reconcile_and_fill-Holds produced folder _ (Holds-unusable folder entry state e h))

  -- Whatever a worker produces, and if other processes lose no directory either, a directory that was the
  -- entry, a stage or quarantined before is one of them afterwards.
  pub resolve-Holds :
      (between : CacheState → CacheState)
      (loses_none : (folder : Folder) (state : CacheState)
        → Holds folder state
        → Holds folder (between state))
      (produced : Produced) (folder : Folder) (state : CacheState)
      → Holds folder state
      → Holds folder (resolve s codec segment entry_dir audio_path between produced state).1
  unfolding resolve
  resolve-Holds between loses_none produced folder state h =
      let held = resolve_locked-Holds produced folder (between state) (loses_none folder state h) in
      reuse-cases s codec segment entry_dir audio_path (λ r. Holds folder r.1) state.entry state _ _
        (λ e. held) (λ other c e f. h) (λ entry e. held)
