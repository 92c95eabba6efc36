-- ===== src/RegistryListener/Shutdown.antt =====
-- The end of `async_stop` in registry_listener.py.
use ha_timescaledb_recorder.Prelude.{
  ◌≡◌, refl, sym, ap, ◌∙◌, subst, Bool, true, false, none, List, [], ◌∷◌, ◌++◌, arith, append-nil,
  is_empty, inl, inr, Bool-cases, ◌||◌,
}
use ha_timescaledb_recorder.RegistryListener.{
  Outcome, wrote, raised, Listener, cancelled, final_flush, stopped, Event, wake, append_ends,
  resume, System, flush_buffer, requeue, end_append, settle_inflight, flush_buffer_blocking,
  is_running, start_flush, settled, go_on, after_append, step, run, start,
}
use ha_timescaledb_recorder.RegistryListener.Stored.{kept, pending}
use ha_timescaledb_recorder.RegistryListener.Conserved.{settled-none}
use ha_timescaledb_recorder.RegistryListener.Delivery.{IsDelivering, run-IsDelivering, run_delivers}

abbrev pub succeeds : Outcome → Bool
succeeds wrote = true
succeeds (raised n) = false

module _ {I : Type 0} where
  abbrev pub finish : Outcome → Outcome → List (Event I)
  finish ok blocking = wake ∷ append_ends ok ∷ resume blocking ∷ []

  -- nothing is left in memory
  abbrev IsDrained : Listener I → Type 0
  IsDrained l = (pending l.inflight ≡ []) × (l.buffer ≡ [])

  -- the last flush, from its start
  last_flush : Outcome → Outcome → System I → System I
  last_flush ok blocking t =
      run (start_flush final_flush stopped t) (append_ends ok ∷ resume blocking ∷ [])

  empty_flush-IsDrained :
      (ok blocking : Outcome) (t : System I)
      → t.listener.inflight ≡ none
      → is_empty t.listener.buffer ≡ true
      → IsDrained (last_flush ok blocking t).listener
  unfolding last_flush run step flush_buffer end_append after_append
  empty_flush-IsDrained wrote blocking t h e = simp (e, h) (refl, refl)
  empty_flush-IsDrained (raised n) blocking t h e = simp (e, h) (refl, refl)

  written-IsDrained :
      (l : Listener I) → l.inflight ≡ none → IsDrained (flush_buffer_blocking wrote l)
  unfolding flush_buffer_blocking
  written-IsDrained l h = elim (Bool-cases (is_empty l.buffer)) [
    | inl e ↦ simp (e, h) (refl, refl)
    | inr e ↦ simp (e, h) (refl, refl)
  ]

  full_flush-IsDrained :
      (ok blocking : Outcome) (t : System I)
      → is_empty t.listener.buffer ≡ false
      → succeeds ok || succeeds blocking ≡ true
      → IsDrained (last_flush ok blocking t).listener
  unfolding last_flush run step flush_buffer end_append after_append settle_inflight requeue
  full_flush-IsDrained wrote blocking t e w = simp e (refl, refl)
  full_flush-IsDrained (raised n) wrote t e w = simp e (written-IsDrained _ refl)
  full_flush-IsDrained (raised n) (raised m) t e w = ground arith

  finish-IsDrained :
      (ok blocking : Outcome) (s : System I)
      → s.phase ≡ cancelled
      → is_running s.listener.inflight ≡ false
      → succeeds ok || succeeds blocking ≡ true
      → IsDrained (run s (finish ok blocking)).listener
  unfolding run step go_on
  finish-IsDrained ok blocking s c n w =
      subst (λ t. IsDrained (run t (append_ends ok ∷ resume blocking ∷ [])).listener) (sym at_stop)
        (elim (Bool-cases (is_empty (settled s).listener.buffer)) [
          | inl e ↦
              unfold last_flush in
              empty_flush-IsDrained ok blocking (settled s)
                (settled-none s.listener.inflight s.listener refl n) e
          | inr e ↦ unfold last_flush in full_flush-IsDrained ok blocking (settled s) e w
        ])
    where
      at_stop : step wake s ≡ start_flush final_flush stopped (settled s)
      at_stop = ap (λ p. go_on p s) c ∙ simp n refl

  -- From the cancellation of the drainer on, once an append that it left has ended: where the last
  -- append returns, or the synchronous one after it does, the lines of the appends that returned are all
  -- the items that were ever produced, each once and in order. Lines that appends left which raised may
  -- double items.
  pub shutdown_delivers :
      (es : List (Event I)) (ok blocking : Outcome)
      → (run start es).phase ≡ cancelled
      → is_running (run start es).listener.inflight ≡ false
      → succeeds ok || succeeds blocking ≡ true
      → kept (run (run start es) (finish ok blocking)).listener.stored
        ≡ (run (run start es) (finish ok blocking)).produced
  shutdown_delivers es ok blocking c n w =
      let s = run start es in
      let e = run s (finish ok blocking) in
      let (paid, emptied) = finish-IsDrained ok blocking s c n w in
      let d : IsDelivering e = run-IsDelivering s (finish ok blocking) (run_delivers es) in
      sym (append-nil (kept e.listener.stored))
      ∙ (ap (λ x. kept e.listener.stored ++ x) (sym paid)
          ∙ (sym (append-nil (kept e.listener.stored ++ pending e.listener.inflight))
              ∙ (ap (◌++◌ (kept e.listener.stored ++ pending e.listener.inflight)) (sym emptied)
                  ∙ d.complete)))
