-- ===== src/Cache/Derived.antt =====
-- The key that an artifact's provenance derives.
use technical_tts.Prelude.{◌≡◌, refl, Option, none, some, [], ◌∷◌}
use technical_tts.Text.{Text, text_eq_iff}
use technical_tts.Map.{get}
use technical_tts.Digest.{Digest}
use technical_tts.Identity.{voice_conditioning_for, canonical_digest, segment_digest, key_for}
use technical_tts.Plan.{PlannedSegment}
use technical_tts.Cache.{context_of}
use technical_tts.Cache.Publish.{SynthesisReport, provenance_of}

alone :
    (speaker : Text) (o : Option Digest)
    → get speaker (elim o [ none ↦ [] | some hash ↦ (speaker, hash) ∷ [] ]) ≡ o
unfolding get
alone speaker none = refl
alone speaker (some hash) = let e = (text_eq_iff speaker speaker).1 refl in rw e refl

-- The provenance of a report derives the key that the report's context derives.
pub key_for-context_of :
    (hash : Text → Digest) (report : SynthesisReport) (segment : PlannedSegment)
    → key_for hash (context_of (provenance_of report segment) segment.speaker) segment
      ≡ key_for hash report.context segment
unfolding key_for segment_digest canonical_digest context_of
key_for-context_of hash report segment =
    rw (alone segment.speaker (voice_conditioning_for report.context segment.speaker)) refl
