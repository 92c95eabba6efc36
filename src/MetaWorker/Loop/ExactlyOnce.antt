-- ===== src/MetaWorker/Loop/ExactlyOnce.antt =====
-- The items of meta_worker.py through crashes and restarts of its main loop.
use ha_timescaledb_recorder.Prelude.{
  ◌≡◌, refl, sym, ap, ◌∙◌, subst, Bool, false, none, List, [], ◌∷◌, ◌++◌, inl, inr, All, All-append,
  append_assoc,
}
use ha_timescaledb_recorder.Scd2.{Table}
use ha_timescaledb_recorder.PersistentQueue.Json.{Format}
use ha_timescaledb_recorder.PersistentQueue.{PersistentQueue}
use ha_timescaledb_recorder.PersistentQueue.Contract.{put_many-Represents, reopen-Represents}
use ha_timescaledb_recorder.MetaWorker.{Registry, Item, Worker}
use ha_timescaledb_recorder.MetaWorker.Loop.{
  Stage, ready, holding, wrote, Process, Event, produce, fetch, write, acknowledge, respawn,
  restart, step, run, start,
}
use ha_timescaledb_recorder.MetaWorker.Loop.Steps.{
  IsMade, MakesWell, written_all, AtStage, IsOnce, at_fetch-IsOnce, at_write-IsOnce,
  at_acknowledge-IsOnce, dropped, more-AtStage, nothing_left,
}

module _ {A P : Type 0} (r : Registry P) (json : Format A) (read : A → Item P)
    (enforced : Bool) where
  module _ (reflexive : (p : P) → r.changed p p ≡ false) where
    step-IsOnce :
        (t₀ : Table P) (e : Event A) (s : Process A P)
        → MakesWell read e
        → IsOnce r json read enforced reflexive t₀ s
        → IsOnce r json read enforced reflexive t₀ (step r json read enforced e s)
    unfolding step
    step-IsOnce t₀ (produce xs) s m h = record {
      pending = h.pending ++ xs;
      represents = put_many-Represents json xs s.queue h.pending h.represents;
      split = ap (λ l. l ++ xs) h.split ∙ append_assoc s.acknowledged h.pending xs;
      made = All-append (IsMade read) h.pending xs h.made m;
      progress =
          more-AtStage r json read enforced reflexive s.stage xs h.pending
            (written_all r json read enforced s.acknowledged t₀) s.worker.table h.progress;
    }
    step-IsOnce t₀ fetch s m h = at_fetch-IsOnce r json read enforced reflexive t₀ s.stage s refl h
    step-IsOnce t₀ (write now) s m h =
        at_write-IsOnce r json read enforced reflexive t₀ s.stage now s refl h
    step-IsOnce t₀ acknowledge s m h =
        at_acknowledge-IsOnce r json read enforced reflexive t₀ s.stage s refl h
    step-IsOnce t₀ respawn s m h = record {
      pending = h.pending;
      represents = h.represents;
      split = h.split;
      made = h.made;
      progress =
          dropped r json read enforced reflexive s.stage h.pending
            (written_all r json read enforced s.acknowledged t₀) s.worker.table h.progress;
    }
    step-IsOnce t₀ restart s m h = record {
      pending = h.pending;
      represents = reopen-Represents json s.queue h.pending h.represents;
      split = h.split;
      made = h.made;
      progress =
          dropped r json read enforced reflexive s.stage h.pending
            (written_all r json read enforced s.acknowledged t₀) s.worker.table h.progress;
    }

    run-IsOnce :
        (t₀ : Table P) (es : List (Event A)) (s : Process A P)
        → All (MakesWell read) es
        → IsOnce r json read enforced reflexive t₀ s
        → IsOnce r json read enforced reflexive t₀ (run r json read enforced es s)
    unfolding run
    run-IsOnce t₀ [] s m h = h
    run-IsOnce t₀ (e ∷ es) s (m, ms) h =
        run-IsOnce t₀ es (step r json read enforced e s) ms (step-IsOnce t₀ e s m h)

    start-IsOnce :
        (w : Worker P)
        → IsOnce r json read enforced reflexive w.table (start r json read enforced w)
    unfolding start written_all
    start-IsOnce w =
        let nothing : PersistentQueue A = record { file = []; in_flight = none; size = 0 } in
        record {
          pending = [];
          represents =
              reopen-Represents json nothing [] (record { file = refl; size = refl; flying = tt });
          split = refl;
          made = tt;
          progress = inl refl;
        }

    settled :
        (s : Process A P) (t₀ : Table P) (h : IsOnce r json read enforced reflexive t₀ s)
        → h.pending ≡ []
        → s.worker.table ≡ written_all r json read enforced s.acknowledged t₀
    settled s t₀ h e = even s.stage (
        subst
          (λ l.
            AtStage r json read enforced reflexive s.stage l
              (written_all r json read enforced s.acknowledged t₀) s.worker.table)
          e h.progress)
      where
        even :
            (st : Stage A)
            → AtStage r json read enforced reflexive st []
                (written_all r json read enforced s.acknowledged t₀)
                s.worker.table
            → s.worker.table ≡ written_all r json read enforced s.acknowledged t₀
        even ready (inl q) = q
        even ready (inr (x, rest, f, q)) = cc f
        even (holding x) ((rest, f), q) = cc f
        even (wrote x) (rest, f, q) = cc f

    -- From an empty queue file, after any schedule of enqueueing, fetching, writing, acknowledging,
    -- respawns of the thread and restarts of the process, where the items bear the id of their params and
    -- their time of enqueueing and the comparison of a payload with itself finds no change: when every
    -- item produced is acknowledged, the table is what writing each of them once, in the order of
    -- production, makes of the table at the start.
    pub run_exactly_once :
        (es : List (Event A)) (w : Worker P)
        → All (MakesWell read) es
        → (run r json read enforced es (start r json read enforced w)).acknowledged
          ≡ (run r json read enforced es (start r json read enforced w)).produced
        → (run r json read enforced es (start r json read enforced w)).worker.table
          ≡ written_all r json read enforced
              (run r json read enforced es (start r json read enforced w)).produced
              w.table
    run_exactly_once es w m all_done =
        let s = run r json read enforced es (start r json read enforced w) in
        let h : IsOnce r json read enforced reflexive w.table s =
          run-IsOnce w.table es (start r json read enforced w) m (unfold start in start-IsOnce w) in
        let empty = nothing_left s.acknowledged h.pending (sym h.split ∙ sym all_done) in
        settled s w.table h empty ∙ ap (λ l. written_all r json read enforced l w.table) all_done
