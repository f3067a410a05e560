-- ===== src/Examples/Directories.antt =====
-- A broken entry, a stage and a worker's ten samples, resolved.
use technical_tts.Prelude.{◌≡◌, inl, refl, ap, none, some, [], ◌∷◌, ok, err}
use technical_tts.Text.{codes, text_eq}
use technical_tts.Map.{get}
use technical_tts.Digest.{is_blake3_hex}
use technical_tts.Assembly.{CachedArtifact}
use technical_tts.Identity.{segment_digest, canonical_digest, key_for}
use technical_tts.Audio.{
  measure_edge_silence, leading_silent_samples, trailing_silent_samples, leading_loop,
  trailing_loop, leading_ramp_loop, trailing_ramp_loop, modify, fill_front, fill_back, take, drop,
  condition_edges, apply_ramps, sub_usize,
}
use technical_tts.Examples.Edges.{numbers, numbers-IsLawful, ten, ten-AreApart, conditioned_ten}
use technical_tts.Examples.Entries.{
  ten_heard, segment, report, written, stage, artifact, codec, codec-IsFaithful, entry_staged,
  artifact_parsed,
}
use technical_tts.Cache.{context_of}
use technical_tts.Cache.Audio.{
  read_samples, validate_wav, check_exposed_endpoints, last_sample, check_endpoints,
  check_edge_silence_counts, check_edge_silence, check_segment_ceiling,
}
use technical_tts.Cache.Conditioning.{
  source_eq, first_nonzero, last_nonzero, check_declared_conditioning,
}
use technical_tts.Cache.Entry.{check_artifact, check_samples, loaded, load_validated}
use technical_tts.Cache.Publish.{staged, condition_staged_audio, check_report, stage_entry}
use technical_tts.Cache.Resolve.{
  Folder, CacheState, Produced, load_entry, place, reconcile_each, reconcile_stages,
  check_stage_holds_only_audio, stage_produced, settle, fill, reuse_loaded, reuse, resolve_locked,
  resolve,
}
use technical_tts.Cache.Kept.{Holds, resolve-resolve}
use technical_tts.Cache.Retained.{resolve-Holds}
use technical_tts.Cache.Live.{resolve-IsResolved}

abbrev broken : Folder
broken = record { audio_record = []; artifact_record = none }

abbrev abandoned : Folder
abandoned = record { audio_record = written; artifact_record = none }

abbrev before : CacheState
before = record { entry = some broken; stages = abandoned ∷ []; quarantine = [] }

abbrev alone : CacheState → CacheState
alone state = state

abbrev produced : Produced
produced = record { audio_record = written; others = []; outcome = ok report }

abbrev fails : Produced
fails = record { audio_record = []; others = []; outcome = err (codes "worker exited") }

abbrev answer : CachedArtifact
answer =
    loaded (numbers 3) codec segment (codes "entry") (codes "entry/audio.wav") conditioned_ten
      conditioned_ten

abbrev after : CacheState
after = record {
  entry =
      some (record { audio_record = conditioned_ten; artifact_record = some (codes "artifact") });
  stages = [];
  quarantine = abandoned ∷ broken ∷ [];
}

resolved :
    resolve
      (numbers 3)
      codec
      segment
      (codes "entry")
      (codes "entry/audio.wav")
      alone
      produced
      before
    ≡ (ok answer, after)
unfolding resolve resolve_locked reuse reuse_loaded fill settle stage_produced
    check_stage_holds_only_audio reconcile_stages reconcile_each place load_entry load_validated
    check_artifact check_samples check_declared_conditioning source_eq first_nonzero last_nonzero
    context_of is_blake3_hex stage_entry condition_staged_audio staged check_report
    check_segment_ceiling check_endpoints check_exposed_endpoints last_sample check_edge_silence
    check_edge_silence_counts validate_wav read_samples condition_edges apply_ramps sub_usize
    measure_edge_silence leading_silent_samples trailing_silent_samples leading_loop trailing_loop
    leading_ramp_loop trailing_ramp_loop modify fill_front fill_back take drop get text_eq key_for
    segment_digest canonical_digest
resolved = refl

resolve-resolve_example :
    let left =
      (resolve
        (numbers 3)
        codec
        segment
        (codes "entry")
        (codes "entry/audio.wav")
        alone
        produced
        before).1 in
    resolve (numbers 3) codec segment (codes "entry") (codes "entry/audio.wav") alone fails left
    ≡ (ok answer, left)
resolve-resolve_example =
    resolve-resolve (numbers 3) codec segment (codes "entry") (codes "entry/audio.wav") alone alone
      produced fails before answer (ap (λ r. r.0) resolved)

resolve-Holds_example :
    Holds broken
      (resolve
        (numbers 3)
        codec
        segment
        (codes "entry")
        (codes "entry/audio.wav")
        alone
        produced
        before).1
resolve-Holds_example =
    resolve-Holds (numbers 3) codec segment (codes "entry") (codes "entry/audio.wav") alone
      (λ folder state h. h) produced broken before (inl refl)

resolve-IsResolved_example :
    (c : CachedArtifact) × ((resolve
        (numbers 3)
        codec
        segment
        (codes "entry")
        (codes "entry/audio.wav")
        alone
        produced
        before).0
      ≡ ok c)
resolve-IsResolved_example =
    resolve-IsResolved (numbers 3) codec segment (codes "entry") (codes "entry/audio.wav")
      (numbers-IsLawful 3) codec-IsFaithful alone before report written ten artifact stage ten_heard
      ten-AreApart entry_staged artifact_parsed
