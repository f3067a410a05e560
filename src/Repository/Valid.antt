-- ===== src/Repository/Valid.antt =====
-- The documents that one build attempt goes through, and that the repository stores each of them.
use technical_tts.Prelude.{
  ℕ, ltb, ◌∙◌, bind-ok, ◌≤◌, ◌≡◌, ◌≢◌, ◌⊎◌, inl, inr, refl, subst, sym, Bool, true, false, Option,
  none, some, arith, length, ok,
}
use technical_tts.Text.{Text, text_eq, text_eq_iff}
use technical_tts.Digest.{Digest}
use technical_tts.Schema.{accepted_by}
use technical_tts.Release.{private_preview}
use technical_tts.Job.{
  JobState, failed, cancelled, may_transition_to, is_planned, success_after, moved,
  SelectedPackageIdentity, SegmentStatus, JobDocument, job_schema_version, open_attempt, transition,
  with_segment, with_preview_package, has_rendered, is_published, state_eq, state_eq_iff,
}
use technical_tts.Events.{JobEvent, preflight_append, append_event}
use technical_tts.Events.Append.{preflight_append-append_event}
use technical_tts.Repository.{
  max_lesson_segments, attempts_are_coherent, states_are_coherent, selected_too_early,
  validate_document, validate_replacement, replace_document, abandoned_eq_iff, check_against,
  durable_event, max_job_json_bytes,
}

-- One step of an attempt. A package is recorded only once rendering is done, and under the digest
-- of its manifest.
pub data Step (d : JobDocument) : JobDocument → Type 0 where
  moves : (t : JobState) {d' : JobDocument} → transition d t ≡ ok d' → Step d d'
  records_segment : (id : Text) (status : SegmentStatus) → Step d (with_segment d id status)
  records_package :
      (digest : Digest)
      → has_rendered d.state ≡ true
      → Step d (with_preview_package d (record { package_id = digest; manifest_blake3 = digest }))

pub data Reach (d : JobDocument) : JobDocument → Type 0 where
  here : Reach d d
  further : {e f : JobDocument} → Reach d e → Step e f → Reach d f

abbrev package_agrees : Option SelectedPackageIdentity → Bool
package_agrees none = true
package_agrees (some p) = text_eq p.package_id p.manifest_blake3

-- What holds of a document between two steps.
pub record IsCoherent (d : JobDocument) : Type 0 where
  pub version : d.schema_version ≡ job_schema_version
  pub attempts : attempts_are_coherent d ≡ true
  pub states : states_are_coherent d.state d.last_successful_state ≡ true
  pub selection : selected_too_early d ≡ false
  pub package_id : package_agrees d.preview_package ≡ true
  pub unpublished : is_published d.state ≡ false
  pub preview : d.release_status ≡ private_preview

open_attempt-IsCoherent :
    (version job_id : Text) (lesson plan : Digest) (previous : Option JobDocument) (d : JobDocument)
    → open_attempt version job_id lesson plan previous ≡ ok d
    → IsCoherent d
unfolding open_attempt attempts_are_coherent states_are_coherent state_eq
open_attempt-IsCoherent version job_id lesson plan none d h = ground arith
open_attempt-IsCoherent version job_id lesson plan (some p) d h = ground arith

state_eq_refl : (s : JobState) → state_eq s s ≡ true
state_eq_refl s = (state_eq_iff s s).1 refl

-- A step of the machine keeps the two recorded states in agreement.
states_after :
    (s t last : JobState)
    → may_transition_to s t ≡ true
    → states_are_coherent s last ≡ true
    → states_are_coherent t (success_after t last) ≡ true
unfolding may_transition_to states_are_coherent success_after
states_after s failed last m c = ground (arith, state_eq_iff s last)
states_after s cancelled last m c = ground (arith, state_eq_iff s last)
states_after s t last m c = state_eq_refl t

rendered_after :
    (s t last : JobState)
    → may_transition_to s t ≡ true
    → states_are_coherent s last ≡ true
    → is_planned t ≡ false
    → has_rendered last ≡ true
    → has_rendered (success_after t last) ≡ true
unfolding may_transition_to states_are_coherent success_after has_rendered
rendered_after s failed last m c p r = r
rendered_after s t last m c p r = ground (arith, state_eq_iff s last)

-- A coherent state that has rendered is its own last successful one.
rendered_last :
    (s last : JobState)
    → has_rendered s ≡ true
    → states_are_coherent s last ≡ true
    → has_rendered last ≡ true
unfolding has_rendered states_are_coherent
rendered_last failed last r c = cc
rendered_last s last r c = ground (arith, state_eq_iff s last)

transition_inv :
    (d d' : JobDocument) (t : JobState)
    → transition d t ≡ ok d'
    → (d' ≡ moved d t)
      × (may_transition_to d.state t ≡ true)
      × ((is_published t ≡ false) ⊎ (d.release_status ≢ private_preview))
unfolding transition
transition_inv d d' t h = ground arith

moved-IsCoherent :
    (d : JobDocument) (t : JobState)
    → may_transition_to d.state t ≡ true
    → is_published t ≡ false
    → IsCoherent d
    → IsCoherent (moved d t)
unfolding moved attempts_are_coherent
moved-IsCoherent d t m p c = record {
  version = c.version;
  attempts = c.attempts;
  states = states_after d.state t d.last_successful_state m c.states;
  selection =
      ground (arith, c.selection, rendered_after d.state t d.last_successful_state m c.states);
  package_id = ground (arith, c.package_id);
  unpublished = p;
  preview = c.preview;
}

with_package-IsCoherent :
    (d : JobDocument) (digest : Digest)
    → has_rendered d.state ≡ true
    → IsCoherent d
    → IsCoherent (with_preview_package d (record { package_id = digest; manifest_blake3 = digest }))
unfolding with_preview_package attempts_are_coherent
with_package-IsCoherent d digest r c = record {
  version = c.version;
  attempts = c.attempts;
  states = c.states;
  selection = rw (rendered_last d.state d.last_successful_state r c.states) refl;
  package_id = (text_eq_iff digest digest).1 refl;
  unpublished = c.unpublished;
  preview = c.preview;
}

with_segment-IsCoherent :
    (d : JobDocument) (id : Text) (status : SegmentStatus)
    → IsCoherent d
    → IsCoherent (with_segment d id status)
unfolding with_segment attempts_are_coherent
with_segment-IsCoherent d id status c = record {
  version = c.version;
  attempts = c.attempts;
  states = c.states;
  selection = c.selection;
  package_id = c.package_id;
  unpublished = c.unpublished;
  preview = c.preview;
}

Step-IsCoherent : {d d' : JobDocument} → Step d d' → IsCoherent d → IsCoherent d'
Step-IsCoherent {d} {d'} (moves t h) c =
    let (e, m, claim) = transition_inv d d' t h in
    let private : is_published t ≡ false = elim claim [
      | inl p ↦ p
      | inr n ↦ absurd (n c.preview)
    ] in
    subst IsCoherent (sym e) (moved-IsCoherent d t m private c)
Step-IsCoherent {d} (records_segment id status) c = with_segment-IsCoherent d id status c
Step-IsCoherent {d} (records_package digest r) c = with_package-IsCoherent d digest r c

Reach-IsCoherent : {d e : JobDocument} → Reach d e → IsCoherent d → IsCoherent e
Reach-IsCoherent here c = c
Reach-IsCoherent (further r s) c = Step-IsCoherent s (Reach-IsCoherent r c)

-- A coherent document of at most 4,096 segments passes every check of the repository.
IsCoherent-validates :
    (d : JobDocument)
    → IsCoherent d
    → length d.segments ≤ max_lesson_segments
    → validate_document d.job_id d ≡ ok tt
unfolding validate_document accepted_by
IsCoherent-validates d c h = ground (
  arith,
  c.version,
  c.attempts,
  c.states,
  c.selection,
  c.package_id,
  c.unpublished,
  text_eq_iff d.job_id d.job_id,
)

-- What a step leaves alone, and where it may move the state.
record Keeps (d e : JobDocument) : Type 0 where
  same_job : e.job_id ≡ d.job_id
  same_attempt : e.build_attempt ≡ d.build_attempt
  same_abandoned : e.abandoned_attempt ≡ d.abandoned_attempt
  same_or_edge : (e.state ≡ d.state) ⊎ (may_transition_to d.state e.state ≡ true)

Step-Keeps : {d e : JobDocument} → Step d e → Keeps d e
unfolding with_segment with_preview_package moved
Step-Keeps {d} {e} (moves t h) =
    let (same, m, claim) = transition_inv d e t h in
    subst (Keeps d) (sym same)
      (record { same_job = refl; same_attempt = refl; same_abandoned = refl; same_or_edge = inr m })
Step-Keeps (records_segment id status) = record {
  same_job = refl;
  same_attempt = refl;
  same_abandoned = refl;
  same_or_edge = inl refl;
}
Step-Keeps (records_package digest r) = record {
  same_job = refl;
  same_attempt = refl;
  same_abandoned = refl;
  same_or_edge = inl refl;
}

Keeps-replaces : (d e : JobDocument) → Keeps d e → validate_replacement d e ≡ ok tt
unfolding validate_replacement
Keeps-replaces d e k = ground (
  arith,
  k.same_attempt,
  k.same_or_edge,
  abandoned_eq_iff e.abandoned_attempt d.abandoned_attempt,
  state_eq_iff e.state d.state,
)

module _ (version job_id : Text) (lesson plan : Digest) (previous : Option JobDocument)
    {d e : JobDocument} (opened : open_attempt version job_id lesson plan previous ≡ ok d)
    (reached : Reach d e) where
  -- No document that a build attempt reaches is published, and each is still a private preview.
  pub attempt_stays_private : (is_published e.state ≡ false) × (e.release_status ≡ private_preview)
  attempt_stays_private =
      let c =
        Reach-IsCoherent reached
          (open_attempt-IsCoherent version job_id lesson plan previous d opened) in
      (c.unpublished, c.preview)

  module _ (size : JobDocument → ℕ) (to_vec : JobEvent → Option Text)
      (from_slice : Text → Option JobEvent) where
    -- Whatever an attempt has reached, the repository stores the document of its next step, with its event
    -- behind the log, as long as neither document has more than 4,096 segments, the stored file is within
    -- its bound of bytes, and the log passes the preflight of the event.
    pub attempt_is_stored :
        {f : JobDocument} (now : ℕ) (log : Option Text)
        → Step e f
        → length e.segments ≤ max_lesson_segments
        → length f.segments ≤ max_lesson_segments
        → size e ≤ max_job_json_bytes
        → preflight_append to_vec from_slice log (durable_event size to_vec from_slice now f)
          ≡ ok tt
        → (log' : Text) × (append_event to_vec from_slice log
              (durable_event size to_vec from_slice now f)
            ≡ ok log')
          × (replace_document size to_vec from_slice now
                (record { document = some e; event_log = log })
                f
              ≡ ok (record { document = some f; event_log = some log' }))
    unfolding replace_document check_against
    attempt_is_stored {f} now log step he hf fits room =
        let c =
          Reach-IsCoherent reached
            (open_attempt-IsCoherent version job_id lesson plan previous d opened) in
        let k = Step-Keeps step in
        let event = durable_event size to_vec from_slice now f in
        let fine =
          subst (λ j. validate_document j e ≡ ok tt) (sym k.same_job)
            (IsCoherent-validates e c he) in
        let small : ltb max_job_json_bytes (size e) ≡ false = ground (arith, fits) in
        let (log', appended, _) =
          bind-ok (append_event to_vec from_slice log event) (λ _. ok tt) tt
            (sym (preflight_append-append_event to_vec from_slice log event) ∙ room) in
        (
          log',
          appended,
          rw
              (
                IsCoherent-validates f (Step-IsCoherent step c) hf,
                small,
                fine,
                Keeps-replaces e f k,
                room,
                appended,
              )
              refl,
        )
