-- ===== src/Cache/Resolve.antt =====
-- crates/study-tts-runtime/src/cache.rs: `resolve` and `reconcile_stages`, over the directories of one
-- cache key. The file system does as it is asked; a planted link, which `managed` refuses, and failures
-- of the file system are left out.
use technical_tts.Prelude.{
  Bool, true, false, Option, none, some, List, [], ◌∷◌, Result, ok, err, map_err, ◌>>=◌, ◌>>◌,
}
use technical_tts.Text.{Text}
use technical_tts.Assembly.{CachedArtifact}
use technical_tts.Plan.{PlannedSegment}
use technical_tts.Audio.{Signal}
use technical_tts.Cache.{CacheEntryFault, CacheArtifact}
use technical_tts.Cache.Entry.{Codec, load_validated}
use technical_tts.Cache.Publish.{
  SynthesisReport, StageFault, unusable_conditioned, panicked, ConditionedStage, stage_entry,
}

-- A directory with its two records. A missing audio record is read as an empty file: neither opens as
-- WAV.
pub record Folder : Type 0 where
  pub audio_record : Text
  pub artifact_record : Option Text

-- The entry of a key, the staging directories of its prefix in the order of their names, and what was
-- quarantined of them.
pub record CacheState : Type 0 where
  pub entry : Option Folder
  pub stages : List Folder
  pub quarantine : List Folder

-- What `StagedAudioProducer::produce` leaves behind: an error, or a report with the names of other files
-- in its directory.
pub record Produced : Type 0 where
  pub audio_record : Text
  pub others : List Text
  pub outcome : Result SynthesisReport Text

pub data ResolveFault (A : Type 0) : Type 0 where
  unusable_cache_entry : CacheEntryFault A → ResolveFault A
  synthesis : Text → ResolveFault A
  uncontained_staged_file : (segment_id unexpected : Text) → ResolveFault A
  stage_fault : StageFault A → ResolveFault A

-- `quarantine_transaction`.
abbrev pub quarantine_folder : Folder → CacheState → CacheState
quarantine_folder folder state = record state { quarantine = folder ∷ state.quarantine }

-- `publish_directory_noreplace` where there is no entry.
abbrev pub publish : Folder → CacheState → CacheState
publish folder state = record state { entry = some folder }

-- One stage, where there is an entry or none, and the stage loads or does not.
unfoldable pub place : Option Folder → Bool → Folder → CacheState → CacheState
place (some entry) valid stage state = quarantine_folder stage state
place none true stage state = publish stage state
place none false stage state = quarantine_folder stage state

-- `Result::is_ok`.
abbrev pub is_ok : {A E : Type 0} → Result A E → Bool
is_ok (ok a) = true
is_ok (err e) = false

abbrev pub Outcome : Signal → Type 0
Outcome s = Result CachedArtifact (ResolveFault s.Sample) × CacheState

module _ (s : Signal) (codec : Codec s) (segment : PlannedSegment)
    (entry_dir audio_path : Text) where
  open s use {Sample}
  open codec use {print}

  unfoldable pub load_entry : Folder → Result CachedArtifact (CacheEntryFault Sample)
  load_entry folder =
      load_validated s codec segment entry_dir audio_path folder.artifact_record folder.audio_record

  abbrev pub loads : Folder → Bool
  loads folder = is_ok (load_entry folder)

  -- The loop of `reconcile_stages`.
  unfoldable pub reconcile_each : List Folder → CacheState → CacheState
  reconcile_each [] state = state
  reconcile_each (stage ∷ rest) state =
      reconcile_each rest (place state.entry (loads stage) stage state)

  unfoldable pub reconcile_stages : CacheState → CacheState
  reconcile_stages state = reconcile_each state.stages (record state { stages = [] })

  abbrev pub answer_of : Folder → Result CachedArtifact (ResolveFault Sample)
  answer_of folder = map_err unusable_cache_entry (load_entry folder)

  -- `check_stage_holds_only_audio`.
  unfoldable pub check_stage_holds_only_audio : List Text → Result (Unit {0}) (ResolveFault Sample)
  check_stage_holds_only_audio [] = ok tt
  check_stage_holds_only_audio (name ∷ names) = err (uncontained_staged_file segment.id name)

  -- The checks of `synthesize_transaction`, in their order.
  unfoldable pub stage_produced :
      Produced → Result (CacheArtifact × ConditionedStage Sample) (ResolveFault Sample)
  stage_produced produced = do
    report ← map_err synthesis produced.outcome
    check_stage_holds_only_audio produced.others
    map_err stage_fault (stage_entry s codec segment report produced.audio_record)

  -- The directory that `synthesize_transaction` publishes.
  abbrev pub entry_of : CacheArtifact × ConditionedStage Sample → Folder
  entry_of (artifact, stage) = record {
    audio_record = stage.bytes;
    artifact_record = some (print artifact);
  }

  -- A stage that is refused is quarantined without an artifact, with the worker's audio, or the conditioned
  -- audio once it was written back; a panic leaves it among the stages.
  unfoldable pub refuse_stage : ResolveFault Sample → Produced → CacheState → CacheState
  refuse_stage (stage_fault panicked) produced state = record state {
    stages = record { audio_record = produced.audio_record; artifact_record = none } ∷ state.stages;
  }
  refuse_stage (stage_fault (unusable_conditioned fault bytes)) produced state =
      quarantine_folder (record { audio_record = bytes; artifact_record = none }) state
  refuse_stage _ produced state =
      quarantine_folder (record { audio_record = produced.audio_record; artifact_record = none })
        state

  -- What `synthesize_transaction` leaves in the directories, where there is no entry: under the lock of
  -- the key, no other process publishes one.
  unfoldable pub settle :
      Result (CacheArtifact × ConditionedStage Sample) (ResolveFault Sample)
      → Produced
      → CacheState
      → Outcome s
  settle (err fault) produced state = (err fault, refuse_stage fault produced state)
  settle (ok made) produced state = (answer_of (entry_of made), publish (entry_of made) state)

  -- What follows `reconcile_stages`.
  unfoldable pub fill : Option Folder → Produced → CacheState → Outcome s
  fill (some entry) produced state = (answer_of entry, state)
  fill none produced state = settle (stage_produced produced) produced state

  abbrev pub reconcile_and_fill : Produced → CacheState → Outcome s
  reconcile_and_fill produced state =
      let reconciled = reconcile_stages state in fill reconciled.entry produced reconciled

  -- A hit, and what is done with an entry that cannot be used, or without one.
  unfoldable pub reuse_loaded :
      Result CachedArtifact (CacheEntryFault Sample) → CacheState → Outcome s → Outcome s
  reuse_loaded (ok artifact) state unusable = (ok artifact, state)
  reuse_loaded (err fault) state unusable = unusable

  unfoldable pub reuse : Option Folder → CacheState → Outcome s → (Folder → Outcome s) → Outcome s
  reuse none state missing unusable = missing
  reuse (some entry) state missing unusable = reuse_loaded (load_entry entry) state (unusable entry)

  -- The body of `resolve` under the lock of the key.
  unfoldable pub resolve_locked : Produced → CacheState → Outcome s
  resolve_locked produced state =
      reuse state.entry state (reconcile_and_fill produced state) (λ entry.
        reconcile_and_fill produced (quarantine_folder entry (record state { entry = none })))

  -- `between` is what other processes do before the lock is acquired.
  unfoldable pub resolve : (between : CacheState → CacheState) → Produced → CacheState → Outcome s
  resolve between produced state =
      reuse state.entry state (resolve_locked produced (between state))
        (λ entry. resolve_locked produced (between state))
