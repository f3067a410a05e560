-- ===== src/Job/Machine.antt =====
-- The transition diagram, and what a transition does along each of its edges.
use technical_tts.Prelude.{◌≡◌, ◌≢◌, ◌↔◌, ◌⊎◌, inl, inr, refl, true, arith, ok}
use technical_tts.Release.{production_release}
use technical_tts.Job.{
  JobState, created, validated, planned, rendering, rendered, verifying, verified, needs_review,
  assembling, quality_checked, published, failed, cancelled, JobDocument, JobState-discrete,
  may_transition_to, transition, moved,
}

-- ADR-0001 §6.4, edge for edge.
infix 40 ◌⟶◌
pub data ◌⟶◌ : JobState → JobState → Type 0 where
  validate : created ⟶ validated
  plan : validated ⟶ planned
  render : planned ⟶ rendering
  render_more : rendering ⟶ rendering
  render_done : rendering ⟶ rendered
  render_failed : rendering ⟶ failed
  render_cancelled : rendering ⟶ cancelled
  verify : rendered ⟶ verifying
  verify_more : verifying ⟶ verifying
  verify_done : verifying ⟶ verified
  review : verifying ⟶ needs_review
  verify_failed : verifying ⟶ failed
  assemble : verified ⟶ assembling
  verify_again : verified ⟶ verifying
  accept : needs_review ⟶ verified
  replan : needs_review ⟶ planned
  check_quality : assembling ⟶ quality_checked
  assemble_failed : assembling ⟶ failed
  publish : quality_checked ⟶ published
  retry_verify : failed ⟶ verifying
  retry_plan : failed ⟶ planned
  resume_plan : cancelled ⟶ planned

ruleset edges = (
  validate, plan, render, render_more, render_done, render_failed, render_cancelled, verify,
  verify_more, verify_done, review, verify_failed, assemble, verify_again, accept, replan,
  check_quality, assemble_failed, publish, retry_verify, retry_plan, resume_plan,
)

⟶-may : {s t : JobState} → s ⟶ t → may_transition_to s t ≡ true
unfolding may_transition_to
⟶-may validate = refl
⟶-may _ = refl

may-⟶ : (s t : JobState) → may_transition_to s t ≡ true → s ⟶ t
unfolding may_transition_to
may-⟶ s t h = grind (arith, edges)

-- `may_transition_to` answers for the edges of the diagram.
pub may_iff : (s t : JobState) → (may_transition_to s t ≡ true) ↔ (s ⟶ t)
may_iff s t = (may-⟶ s t, ⟶-may)

-- A transition is made exactly along an edge of the diagram, and to `published` only by a
-- production release.
pub transition_ok_iff :
    (d : JobDocument) (next : JobState)
    → ((d' : JobDocument) × (transition d next ≡ ok d'))
      ↔ ((d.state ⟶ next) × ((next ≢ published) ⊎ (d.release_status ≡ production_release)))
unfolding transition
transition_ok_iff d next = (
  λ (d', h). (
    may-⟶ d.state next (ground arith),
    elim (JobState-discrete next published) [ yes e ↦ inr (ground arith) | no n ↦ inl n ],
  ),
  λ (edge, claim). (moved d next, ground (arith, ⟶-may edge)),
)
