-- ===== src/RegistryListener/Delivery.antt =====
-- Where the registry changes are that registry_listener.py saw.
use ha_timescaledb_recorder.Prelude.{
  All, All-map, ◌≡◌, refl, sym, ap, ◌∙◌, subst, false, Option, none, List, [], ◌∷◌, ◌++◌, arith,
  inl, inr, Bool-cases,
}
use ha_timescaledb_recorder.RegistryListener.{
  Append, Phase, waiting, draining, backing_off, cancelled, final_flush, stopped, Event, item,
  snapshot, wake, append_ends, resume, stop, System, enqueue, settle_inflight, is_running, Outcome,
  end_append, flush_buffer_blocking, has_failed, start_flush, settled, go_on, after_append, halt,
  step, run, start,
}
use ha_timescaledb_recorder.RegistryListener.Stored.{
  Among, Among-left, strays, IsOf, IsOf-end_append, IsOf-blocking, stored-flush,
  stored-settle_inflight, all_of,
}
use ha_timescaledb_recorder.RegistryListener.Conserved.{
  IsAwake, Grounded, all-enqueue, all-flush, all-end_append, all-settle_inflight, settled-none,
  all-blocking, IsAwake-flush, IsAwake-end_append, IsAwake-settle_inflight, IsAwake-blocking,
  Grounded-end_append, flush-Grounded, none-blocking,
}

module _ {I : Type 0} where
  pub record IsDelivering (s : System I) : Type 0 where
    pub complete : all_of s.listener ≡ s.produced
    pub of_produced : IsOf s.produced s.listener
    pub grounded : Grounded s.phase s.listener.inflight
    pub awake : IsAwake s.listener

  start_flush-IsDelivering :
      (busy idle : Phase) (s : System I)
      → ((o : Option (Append × List I)) → Grounded busy o)
      → Grounded idle s.listener.inflight
      → s.listener.inflight ≡ none
      → all_of s.listener ≡ s.produced
      → IsOf s.produced s.listener
      → IsDelivering (start_flush busy idle s)
  start_flush-IsDelivering busy idle s b i h c o = record {
    complete = all-flush s.listener h ∙ c;
    of_produced =
        subst (λ ls. All (Among s.produced) (strays ls)) (sym (stored-flush s.listener)) o;
    grounded = flush-Grounded busy idle s.listener b i;
    awake = IsAwake-flush s.listener;
  }

  IsOf-settled : (s : System I) → IsOf s.produced s.listener → IsOf s.produced (settled s).listener
  IsOf-settled s o =
      subst (λ ls. All (Among s.produced) (strays ls))
        (sym (stored-settle_inflight s.listener.inflight s.listener)) o

  go_on-IsDelivering :
      (p : Phase) (s : System I)
      → Grounded p s.listener.inflight
      → IsDelivering s
      → IsDelivering (go_on p s)
  unfolding go_on
  go_on-IsDelivering waiting s g d = elim (Bool-cases s.listener.buffer_ready) [
    | inl y ↦
        rw y (start_flush-IsDelivering draining waiting s (λ o. tt) g g d.complete d.of_produced)
    | inr n ↦ simp n d
  ]
  go_on-IsDelivering backing_off s g d = record {
    complete = d.complete;
    of_produced = d.of_produced;
    grounded = g;
    awake = d.awake;
  }
  go_on-IsDelivering cancelled s g d = elim (Bool-cases (is_running s.listener.inflight)) [
    | inl y ↦ rw y d
    | inr n ↦ rw n (
        let free = settled-none s.listener.inflight s.listener refl n in
        start_flush-IsDelivering final_flush stopped (settled s) (λ o. tt) free free
          (all-settle_inflight s.listener ∙ d.complete) (IsOf-settled s d.of_produced))
  ]
  go_on-IsDelivering draining s g d = d
  go_on-IsDelivering final_flush s g d = d
  go_on-IsDelivering stopped s g d = d

  settled-IsDelivering :
      (p : Phase) (s : System I)
      → Grounded {I = I} p none
      → is_running s.listener.inflight ≡ false
      → IsDelivering s
      → IsDelivering (record (settled s) { phase = p })
  settled-IsDelivering p s g n d = record {
    complete = all-settle_inflight s.listener ∙ d.complete;
    of_produced = IsOf-settled s d.of_produced;
    grounded =
        subst (Grounded {I = I} p) (sym (settled-none s.listener.inflight s.listener refl n)) g;
    awake = IsAwake-settle_inflight s.listener.inflight s.listener d.awake;
  }

  after_append-IsDelivering :
      (p : Phase) (blocking : Outcome) (s : System I)
      → is_running s.listener.inflight ≡ false
      → IsDelivering s
      → IsDelivering (after_append p blocking s)
  unfolding after_append
  after_append-IsDelivering draining blocking s n d =
      elim (Bool-cases (has_failed s.listener.inflight)) [
        | inl y ↦ rw y (settled-IsDelivering backing_off s refl n d)
        | inr f ↦ rw f (settled-IsDelivering waiting s refl n d)
      ]
  after_append-IsDelivering final_flush blocking s n d =
      elim (Bool-cases (has_failed s.listener.inflight)) [
        | inl y ↦ rw y (
            let l = settle_inflight s.listener.inflight s.listener in
            let free = settled-none s.listener.inflight s.listener refl n in
            record {
              complete =
                  all-blocking blocking l free ∙ (all-settle_inflight s.listener ∙ d.complete);
              of_produced =
                  let same = all-settle_inflight s.listener ∙ d.complete in
                  subst (λ xs. IsOf xs (flush_buffer_blocking blocking l)) same
                    (IsOf-blocking blocking l
                      (subst (λ xs. IsOf xs l) (sym same) (IsOf-settled s d.of_produced)));
              grounded = none-blocking blocking l free;
              awake =
                  IsAwake-blocking blocking l
                    (IsAwake-settle_inflight s.listener.inflight s.listener d.awake);
            })
        | inr f ↦ rw f (settled-IsDelivering stopped s refl n d)
      ]
  after_append-IsDelivering waiting blocking s n d = d
  after_append-IsDelivering backing_off blocking s n d = d
  after_append-IsDelivering cancelled blocking s n d = d
  after_append-IsDelivering stopped blocking s n d = d

  halt-IsDelivering : (p : Phase) (s : System I) → IsDelivering s → IsDelivering (halt p s)
  unfolding halt
  halt-IsDelivering waiting s d = record {
    complete = d.complete;
    of_produced = d.of_produced;
    grounded = tt;
    awake = d.awake;
  }
  halt-IsDelivering draining s d = record {
    complete = d.complete;
    of_produced = d.of_produced;
    grounded = tt;
    awake = d.awake;
  }
  halt-IsDelivering backing_off s d = record {
    complete = d.complete;
    of_produced = d.of_produced;
    grounded = tt;
    awake = d.awake;
  }
  halt-IsDelivering cancelled s d = d
  halt-IsDelivering final_flush s d = d
  halt-IsDelivering stopped s d = d

  enqueue-IsDelivering :
      (xs : List I) (s : System I)
      → IsDelivering s
      → IsDelivering (record s { listener = enqueue xs s.listener; produced = s.produced ++ xs })
  unfolding enqueue
  enqueue-IsDelivering xs s d = record {
    complete = all-enqueue xs s.listener ∙ ap (λ x. x ++ xs) d.complete;
    of_produced = All-map _ _ (strays s.listener.stored) (Among-left s.produced xs) d.of_produced;
    grounded = d.grounded;
    awake = λ e. refl;
  }

  step-IsDelivering : (e : Event I) (s : System I) → IsDelivering s → IsDelivering (step e s)
  unfolding step
  step-IsDelivering (item x) s d = enqueue-IsDelivering (x ∷ []) s d
  step-IsDelivering (snapshot xs) s d = enqueue-IsDelivering xs s d
  step-IsDelivering wake s d = go_on-IsDelivering s.phase s d.grounded d
  step-IsDelivering (append_ends ok) s d = record {
    complete = all-end_append ok s.listener ∙ d.complete;
    of_produced =
        subst (λ xs. IsOf xs (end_append ok s.listener.inflight s.listener)) d.complete
          (IsOf-end_append ok s.listener
            (subst (λ xs. IsOf xs s.listener) (sym d.complete) d.of_produced));
    grounded = Grounded-end_append ok s.phase s.listener d.grounded;
    awake = IsAwake-end_append ok s.listener.inflight s.listener d.awake;
  }
  step-IsDelivering (resume blocking) s d = elim (Bool-cases (is_running s.listener.inflight)) [
    | inl y ↦ rw y d
    | inr n ↦ rw n (after_append-IsDelivering s.phase blocking s n d)
  ]
  step-IsDelivering stop s d = halt-IsDelivering s.phase s d

  pub run-IsDelivering :
      (s : System I) (es : List (Event I)) → IsDelivering s → IsDelivering (run s es)
  unfolding run
  run-IsDelivering s [] d = d
  run-IsDelivering s (e ∷ es) d = run-IsDelivering (step e s) es (step-IsDelivering e s d)

  -- In every interleaving of registry events, snapshots, drains, appends that return or raise with any
  -- number of their lines in the file, and the shutdown: the items stored by the appends that returned,
  -- those of the append that runs or has failed, and the buffer are together the items produced, each
  -- once and in order; the lines that appends left which raised are of items produced, and may double
  -- them; a flush that is not under way has no append; and a buffer that is not empty has its wake-up
  -- set.
  pub run_delivers : (es : List (Event I)) → IsDelivering (run start es)
  unfolding start
  run_delivers es =
      run-IsDelivering start es
        (record { complete = refl; of_produced = tt; grounded = refl; awake = λ e. ground arith })
