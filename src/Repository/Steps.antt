-- ===== src/Repository/Steps.antt =====
-- What the repository allows to replace what: the first document, a step of the same attempt, or the
-- start of the next attempt.
use technical_tts.Prelude.{
  ℕ, ap, ltb, then-ok_iff, bind-ok, ok_injective, Result, map_err, ◌>>=◌, ◌>>◌, refuse_if, ◌+◌, ◌<◌,
  ◌≤◌, ◌≡◌, ◌↔◌, ◌⊎◌, inl, inr, refl, sym, subst, true, Option, some, List, [], ◌∷◌, arith, ◌==◌,
  Bool-cases, ==_iff, Result-cases, ok, err,
}
use technical_tts.Text.{Text}
use technical_tts.Events.{JobEvent, preflight_append, append_event}
use technical_tts.Job.{
  JobDocument, AbandonedAttempt, max_u32, may_transition_to, state_eq, state_eq_iff,
}
use technical_tts.Job.Machine.{◌⟶◌, may_iff}
use technical_tts.Repository.{
  validate_document, validate_replacement, validate_initial_state, replace_document, StoredJob,
  check_against, durable_event, event_log_error, record_too_large, max_job_json_bytes,
  DurableStateError, abandoned_eq_iff, is_initial,
}

-- The abandoned attempt that a successor of the document records.
abbrev pub abandons : JobDocument → Option AbandonedAttempt
abandons c = some (record { build_attempt = c.build_attempt; state = c.state })

-- The document goes on with the current attempt, at its state or along an edge.
pub record Continues (c d : JobDocument) : Type 0 where
  pub same_attempt : d.build_attempt ≡ c.build_attempt
  pub same_abandoned : d.abandoned_attempt ≡ c.abandoned_attempt
  pub edge : (d.state ≡ c.state) ⊎ (c.state ⟶ d.state)

-- The document opens the attempt after the current one, which it names as abandoned.
pub record Succeeds (c d : JobDocument) : Type 0 where
  pub room : c.build_attempt < max_u32
  pub next_attempt : d.build_attempt ≡ c.build_attempt + 1
  pub names_abandoned : d.abandoned_attempt ≡ abandons c
  pub initial : is_initial d.state ≡ true

replacement_inv :
    (c d : JobDocument) → validate_replacement c d ≡ ok tt → Continues c d ⊎ Succeeds c d
unfolding validate_replacement validate_initial_state
replacement_inv c d h = elim (Bool-cases (d.build_attempt == c.build_attempt)) [
  | inl same ↦ inl (record {
    same_attempt = (==_iff d.build_attempt c.build_attempt).0 same;
    same_abandoned = ground (arith, abandoned_eq_iff d.abandoned_attempt c.abandoned_attempt);
    edge = elim (Bool-cases (state_eq d.state c.state)) [
      | inl stays ↦ inl ((state_eq_iff d.state c.state).0 stays)
      | inr moves ↦ inr ((may_iff c.state d.state).0 (ground arith))
    ];
  })
  | inr other ↦ inr (record {
    room = ground arith;
    next_attempt = ground arith;
    names_abandoned = ground (arith, abandoned_eq_iff d.abandoned_attempt (abandons c));
    initial = ground arith;
  })
]

may_of_edge :
    (c d : JobDocument)
    → (d.state ≡ c.state) ⊎ (c.state ⟶ d.state)
    → (d.state ≡ c.state) ⊎ (may_transition_to c.state d.state ≡ true)
may_of_edge c d (inl e) = inl e
may_of_edge c d (inr e) = inr ((may_iff c.state d.state).1 e)

Continues-replaces : (c d : JobDocument) → Continues c d → validate_replacement c d ≡ ok tt
unfolding validate_replacement
Continues-replaces c d k = ground (
  arith,
  k.same_attempt,
  abandoned_eq_iff d.abandoned_attempt c.abandoned_attempt,
  state_eq_iff d.state c.state,
  may_of_edge c d k.edge,
)

Succeeds-replaces : (c d : JobDocument) → Succeeds c d → validate_replacement c d ≡ ok tt
unfolding validate_replacement validate_initial_state
Succeeds-replaces c d k = ground (
  arith,
  k.room,
  k.next_attempt,
  k.initial,
  abandoned_eq_iff d.abandoned_attempt (abandons c),
  k.names_abandoned,
)

-- A replacement is allowed exactly when it continues the current attempt, at its state or along an
-- edge of the machine, or opens the attempt after it at an initial state and names it as abandoned.
pub validate_replacement_iff :
    (c d : JobDocument) → (validate_replacement c d ≡ ok tt) ↔ (Continues c d ⊎ Succeeds c d)
validate_replacement_iff c d = (
  replacement_inv c d,
  λ o. elim o [ inl k ↦ Continues-replaces c d k | inr k ↦ Succeeds-replaces c d k ],
)

module _ (size : JobDocument → ℕ) (to_vec : JobEvent → Option Text)
    (from_slice : Text → Option JobEvent) where
  -- What is stored after a document is offered at a time; a refusal leaves what was stored.
  unfoldable pub store : StoredJob → ℕ × JobDocument → StoredJob
  store stored (now, d) = elim (replace_document size to_vec from_slice now stored d) [
    | ok stored' ↦ stored'
    | err _ ↦ stored
  ]

  unfoldable pub run : StoredJob → List (ℕ × JobDocument) → StoredJob
  run stored [] = stored
  run stored (d ∷ ds) = run (store stored d) ds

  replace_inv :
      (now : ℕ) (c d : JobDocument) (log : Option Text) (after : StoredJob)
      → replace_document size to_vec from_slice now
          (record { document = some c; event_log = log })
          d
        ≡ ok after
      → (after.document ≡ some d) × (validate_replacement c d ≡ ok tt)
  unfolding replace_document check_against
  replace_inv now c d log after h =
      let event = durable_event size to_vec from_slice now d in
      let appended : Result Text DurableStateError =
        map_err event_log_error (append_event to_vec from_slice log event) in
      let made : Text → StoredJob = λ l. record { document = some d; event_log = some l } in
      let ready = map_err event_log_error (preflight_append to_vec from_slice log event) in
      let rest₁ = ready >> (appended >>= λ l. ok (made l)) in
      let against = check_against size to_vec from_slice d (some c) in
      let (_, h₁) = (then-ok_iff (validate_document d.job_id d) (against >> rest₁) after).0 h in
      let (a, h₂) = (then-ok_iff against rest₁ after).0 h₁ in
      let (_, h₃) = (then-ok_iff ready (appended >>= λ l. ok (made l)) after).0 h₂ in
      let (l, _, e) = bind-ok appended (λ l. ok (made l)) after h₃ in
      let small = refuse_if (ltb max_job_json_bytes (size c)) (record_too_large (size c)) in
      let loaded = small >> (validate_document d.job_id c >> ok c) in
      let (p, b, v) = bind-ok loaded (λ p. validate_replacement p d) tt a in
      let (_, b₁) = (then-ok_iff small (validate_document d.job_id c >> ok c) p).0 b in
      let (_, b₂) = (then-ok_iff (validate_document d.job_id c) (ok c) p).0 b₁ in
      (
        ap (λ s. s.document) (sym (ok_injective e)),
        subst (λ x. validate_replacement x d ≡ ok tt) (sym (ok_injective b₂)) v,
      )

  store-le :
      (c d : JobDocument) (log : Option Text) (now : ℕ)
      → (e : JobDocument) × ((store
            (record { document = some c; event_log = log })
            (now, d)).document
          ≡ some e)
        × (c.build_attempt ≤ e.build_attempt)
  unfolding store
  store-le c d log now =
      let before : StoredJob = record { document = some c; event_log = log } in
      elim (Result-cases (replace_document size to_vec from_slice now before d)) [
        | inl (after, e) ↦
            let (same, allowed) = replace_inv now c d log after e in
            (
              d,
              rw (e, store) same,
              elim (replacement_inv c d allowed) [
                | inl k ↦ omega (arith, k.same_attempt)
                | inr k ↦ omega (arith, k.next_attempt)
              ],
            )
        | inr (x, e) ↦ (c, rw (e, store) refl, omega arith)
      ]

  -- However documents are offered, and whatever the event log holds, what is stored stays stored or gives
  -- way to one whose attempt number is no smaller, so no attempt number is used again for an earlier
  -- attempt.
  pub run-le :
      (c : JobDocument) (stored : StoredJob) (ds : List (ℕ × JobDocument))
      → stored.document ≡ some c
      → (e : JobDocument) × ((run stored ds).document ≡ some e)
        × (c.build_attempt ≤ e.build_attempt)
  unfolding run
  run-le c stored [] h = (c, h, omega arith)
  run-le c stored ((now, d) ∷ ds) h =
      let (e, after, le) = store-le c d stored.event_log now in
      let here : (store stored (now, d)).document ≡ some e =
        subst
          (λ o.
            (store (record { document = o; event_log = stored.event_log }) (now, d)).document
            ≡ some e)
          (sym h) after in
      let (f, ran, le') = run-le e (store stored (now, d)) ds here in (f, ran, omega arith)
