-- ===== src/RegistryListener/Conserved.antt =====
-- What each operation of registry_listener.py keeps: the items, the wake-up, and who has an append.
use ha_timescaledb_recorder.Prelude.{
  take, ◌≡◌, refl, sym, ap, ◌∙◌, true, false, Option, none, some, List, [], ◌++◌, arith,
  append_assoc, append-nil, is_empty, if◌then◌else◌, inl, inr, Bool-cases,
}
use ha_timescaledb_recorder.RegistryListener.{
  Append, Outcome, wrote, raised, lines, running, succeeded, failed, Listener, Phase, waiting,
  draining, backing_off, cancelled, final_flush, stopped, enqueue, flush_buffer, requeue,
  end_append, settle_inflight, flush_buffer_blocking, is_running,
}
use ha_timescaledb_recorder.RegistryListener.Stored.{pending, kept, all_of, kept-true, kept-false}

module _ {I : Type 0} where
  -- items in the buffer have woken the drainer
  abbrev pub IsAwake : Listener I → Type 0
  IsAwake l = is_empty l.buffer ≡ false → l.buffer_ready ≡ true

  -- only the phases that wait for an append have one
  abbrev pub Grounded : Phase → Option (Append × List I) → Type 0
  Grounded waiting o = o ≡ none
  Grounded backing_off o = o ≡ none
  Grounded stopped o = o ≡ none
  Grounded p o = Unit

  all_by :
      (l : Listener I) (o : Option (Append × List I))
      → l.inflight ≡ o
      → kept l.stored ++ pending o ++ l.buffer ≡ all_of l
  all_by l o h = ap (λ x. kept l.stored ++ pending x ++ l.buffer) (sym h)

  pub is_empty-nil : (b : List I) → is_empty b ≡ true → b ≡ []
  is_empty-nil b e = ground arith

  pub all-enqueue : (xs : List I) (l : Listener I) → all_of (enqueue xs l) ≡ all_of l ++ xs
  unfolding enqueue
  all-enqueue xs l = sym (append_assoc (kept l.stored ++ pending l.inflight) l.buffer xs)

  pub all-flush : (l : Listener I) → l.inflight ≡ none → all_of (flush_buffer l) ≡ all_of l
  unfolding flush_buffer
  all-flush l h = elim (Bool-cases (is_empty l.buffer)) [
    | inl e ↦ rw e (ap (◌++◌ (kept l.stored ++ pending l.inflight)) (sym (is_empty-nil l.buffer e)))
    | inr e ↦ rw e (
        append-nil (kept l.stored ++ l.buffer)
        ∙ (ap (λ x. x ++ l.buffer) (sym (append-nil (kept l.stored))) ∙ all_by l none h))
  ]

  pub all-end_append :
      (ended : Outcome) (l : Listener I) → all_of (end_append ended l.inflight l) ≡ all_of l
  unfolding end_append
  all-end_append ended l = by_state ended l.inflight l refl
    where
      by_state :
          (ended : Outcome) (o : Option (Append × List I)) (l : Listener I)
          → l.inflight ≡ o
          → all_of (end_append ended o l) ≡ all_of l
      by_state wrote (some (running, batch)) l h =
          ap (λ x. x ++ l.buffer) (append-nil (kept (l.stored ++ lines true batch)))
          ∙ (ap (λ x. x ++ l.buffer) (kept-true l.stored batch)
              ∙ all_by l (some (running, batch)) h)
      by_state (raised n) (some (running, batch)) l h =
          ap (λ x. x ++ batch ++ l.buffer) (kept-false l.stored (take n batch))
          ∙ all_by l (some (running, batch)) h
      by_state ended o l h = refl

  pub all-settle_inflight : (l : Listener I) → all_of (settle_inflight l.inflight l) ≡ all_of l
  unfolding settle_inflight requeue
  all-settle_inflight l = by_state l.inflight l refl
    where
      by_state :
          (o : Option (Append × List I)) (l : Listener I)
          → l.inflight ≡ o
          → all_of (settle_inflight o l) ≡ all_of l
      by_state (some (succeeded, batch)) l h = all_by l (some (succeeded, batch)) h
      by_state (some (failed, batch)) l h =
          ap (λ x. x ++ (batch ++ l.buffer)) (append-nil (kept l.stored))
          ∙ (sym (append_assoc (kept l.stored) batch l.buffer) ∙ all_by l (some (failed, batch)) h)
      by_state (some (running, batch)) l h = refl
      by_state none l h = refl

  pub settled-none :
      (o : Option (Append × List I)) (l : Listener I)
      → l.inflight ≡ o
      → is_running o ≡ false
      → (settle_inflight o l).inflight ≡ none
  unfolding settle_inflight requeue
  settled-none (some (succeeded, batch)) l h e = refl
  settled-none (some (failed, batch)) l h e = refl
  settled-none (some (running, batch)) l h e = ground arith
  settled-none none l h e = h

  pub all-blocking :
      (ended : Outcome) (l : Listener I)
      → l.inflight ≡ none
      → all_of (flush_buffer_blocking ended l) ≡ all_of l
  unfolding flush_buffer_blocking
  all-blocking wrote l h = elim (Bool-cases (is_empty l.buffer)) [
    | inl e ↦ rw e (ap (◌++◌ (kept l.stored ++ pending l.inflight)) (sym (is_empty-nil l.buffer e)))
    | inr e ↦ rw e (
        append-nil (kept (l.stored ++ lines true l.buffer) ++ pending l.inflight)
        ∙ (ap (λ o. kept (l.stored ++ lines true l.buffer) ++ pending o) h
            ∙ (append-nil (kept (l.stored ++ lines true l.buffer))
                ∙ (kept-true l.stored l.buffer
                    ∙ (ap (λ x. x ++ l.buffer) (sym (append-nil (kept l.stored)))
                        ∙ all_by l none h)))))
  ]
  all-blocking (raised n) l h = elim (Bool-cases (is_empty l.buffer)) [
    | inl e ↦ rw e (ap (◌++◌ (kept l.stored ++ pending l.inflight)) (sym (is_empty-nil l.buffer e)))
    | inr e ↦
        rw e (ap (λ x. x ++ pending l.inflight ++ l.buffer) (kept-false l.stored (take n l.buffer)))
  ]

  pub IsAwake-flush : (l : Listener I) → IsAwake (flush_buffer l)
  unfolding flush_buffer
  IsAwake-flush l = ground arith

  pub IsAwake-end_append :
      (ended : Outcome) (o : Option (Append × List I)) (l : Listener I)
      → IsAwake l
      → IsAwake (end_append ended o l)
  unfolding end_append
  IsAwake-end_append wrote (some (running, batch)) l h = h
  IsAwake-end_append (raised n) (some (running, batch)) l h = h
  IsAwake-end_append ok o l h = h

  pub IsAwake-settle_inflight :
      (o : Option (Append × List I)) (l : Listener I) → IsAwake l → IsAwake (settle_inflight o l)
  unfolding settle_inflight requeue
  IsAwake-settle_inflight (some (succeeded, batch)) l h = h
  IsAwake-settle_inflight (some (failed, batch)) l h = λ e. refl
  IsAwake-settle_inflight (some (running, batch)) l h = h
  IsAwake-settle_inflight none l h = h

  pub IsAwake-blocking :
      (ended : Outcome) (l : Listener I) → IsAwake l → IsAwake (flush_buffer_blocking ended l)
  unfolding flush_buffer_blocking
  IsAwake-blocking wrote l h = ground (arith, h)
  IsAwake-blocking (raised n) l h = ground (arith, h)

  no_append :
      (ok : Outcome) (l : Listener I)
      → l.inflight ≡ none
      → (end_append ok l.inflight l).inflight ≡ none
  unfolding end_append
  no_append ok l h = ap (λ o. (end_append ok o l).inflight) h ∙ by_outcome ok
    where
      by_outcome : (ok : Outcome) → (end_append ok none l).inflight ≡ none
      by_outcome wrote = h
      by_outcome (raised n) = h

  pub Grounded-end_append :
      (ok : Outcome) (p : Phase) (l : Listener I)
      → Grounded p l.inflight
      → Grounded p (end_append ok l.inflight l).inflight
  Grounded-end_append ok waiting l g = no_append ok l g
  Grounded-end_append ok backing_off l g = no_append ok l g
  Grounded-end_append ok stopped l g = no_append ok l g
  Grounded-end_append ok draining l g = tt
  Grounded-end_append ok cancelled l g = tt
  Grounded-end_append ok final_flush l g = tt

  pub flush-Grounded :
      (busy idle : Phase) (l : Listener I)
      → ((o : Option (Append × List I)) → Grounded busy o)
      → Grounded idle l.inflight
      → Grounded (if is_empty l.buffer then idle else busy) (flush_buffer l).inflight
  unfolding flush_buffer
  flush-Grounded busy idle l b i = elim (Bool-cases (is_empty l.buffer)) [
    | inl e ↦ rw e i
    | inr e ↦ rw e (b (some (running, l.buffer)))
  ]

  pub none-blocking :
      (ok : Outcome) (l : Listener I)
      → l.inflight ≡ none
      → (flush_buffer_blocking ok l).inflight ≡ none
  unfolding flush_buffer_blocking
  none-blocking wrote l h = ground (arith, h)
  none-blocking (raised n) l h = ground (arith, h)
