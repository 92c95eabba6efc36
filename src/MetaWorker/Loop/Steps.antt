-- ===== src/MetaWorker/Loop/Steps.antt =====
-- What a step of the main loop of meta_worker.py makes of the items and the table.
use ha_timescaledb_recorder.Prelude.{
  ℕ, suc, ◌≡◌, ◌⊎◌, refl, sym, ap, ◌∙◌, subst, Bool, false, some, List, [], ◌∷◌, ◌++◌, arith, inl,
  inr, All, length-append, append_assoc, length,
}
use ha_timescaledb_recorder.Scd2.{Table}
use ha_timescaledb_recorder.PersistentQueue.Json.{Format}
use ha_timescaledb_recorder.PersistentQueue.{PersistentQueue, Outcome, get, task_done}
use ha_timescaledb_recorder.PersistentQueue.Contract.{
  Represents, ServesFront, tail, get-front, task_done-Represents,
}
use ha_timescaledb_recorder.MetaWorker.{Registry, Item, Worker, write_item}
use ha_timescaledb_recorder.MetaWorker.Replay.Items.{Named, write_item-alike, write_item_again}
use ha_timescaledb_recorder.MetaWorker.Loop.{
  Stage, ready, holding, wrote, Process, Event, produce, fetched, at_fetch, at_write,
  at_acknowledge,
}

module _ {P : Type 0} where
  -- What the listener puts on the queue bears the id of its params and the time of its enqueueing.
  unfoldable pub WellMade : Item P → Type 0
  WellMade x = Named x.registry_id x.params × ((t : ℕ) × (x.enqueued_at ≡ some t))

  abbrev pub fresh : Table P → Worker P
  fresh t = record {
    table = t;
    integrity_drops = 0;
    out_of_order_skips = 0;
    poison_drops = 0;
    dead_letters = [];
  }

abbrev first_or : {A : Type 0} → A → List A → A
first_or x [] = x
first_or x (y ∷ ys) = y

pub nothing_left : {A : Type 0} (xs ys : List A) → xs ++ ys ≡ xs → ys ≡ []
nothing_left xs [] h = refl
nothing_left xs (y ∷ ys) h = absurd (omega (arith, sym (length-append xs (y ∷ ys)) ∙ ap length h))

module _ {A P : Type 0} (read : A → Item P) where
  abbrev pub IsMade : A → Type 0
  IsMade x = WellMade (read x)

  abbrev pub MakesWell : Event A → Type 0
  MakesWell (produce xs) = All IsMade xs
  MakesWell e = Unit

module _ {A P : Type 0} (r : Registry P) (json : Format A) (read : A → Item P)
    (enforced : Bool) where
  -- the table that an item leaves, written on its own
  abbrev pub written_once : A → Table P → Table P
  written_once x t = (write_item r enforced 0 (read x) (fresh t)).table

  -- every item once, in order
  unfoldable pub written_all : List A → Table P → Table P
  written_all [] t = t
  written_all (x ∷ xs) t = written_all xs (written_once x t)

  written_all-snoc :
      (xs : List A) (x : A) (t : Table P)
      → written_all (xs ++ x ∷ []) t ≡ written_once x (written_all xs t)
  unfolding written_all
  written_all-snoc [] x t = refl
  written_all-snoc (y ∷ xs) x t = written_all-snoc xs x (written_once y t)

  module _ (reflexive : (p : P) → r.changed p p ≡ false) where
    write_item-once :
        (now : ℕ) (x : A) (w : Worker P)
        → WellMade (read x)
        → (write_item r enforced now (read x) w).table ≡ written_once x w.table
    unfolding WellMade
    write_item-once now x w (n, (t, e)) =
        write_item-alike r enforced 0 now t (read x) w (fresh w.table) n e refl

    written_twice :
        (x : A) (t : Table P)
        → WellMade (read x)
        → written_once x (written_once x t) ≡ written_once x t
    unfolding WellMade
    written_twice x t (n, (at, e)) =
        write_item-alike r enforced 0 0 at (read x) (fresh (written_once x t))
          (write_item r enforced 0 (read x) (fresh t)) n e refl
        ∙ write_item_again r enforced reflexive 0 0 at (read x) (fresh t) n e

    -- the item that was written and is not acknowledged
    abbrev pub Ahead : List A → Table P → Table P → Type 0
    Ahead pending before t =
        (x : A) × (rest : List A) × (pending ≡ x ∷ rest) × (t ≡ written_once x before)

    abbrev pub AtStage : Stage A → List A → Table P → Table P → Type 0
    AtStage ready pending before t = (t ≡ before) ⊎ Ahead pending before t
    AtStage (holding x) pending before t =
        ((rest : List A) × (pending ≡ x ∷ rest)) × ((t ≡ before) ⊎ Ahead pending before t)
    AtStage (wrote x) pending before t =
        (rest : List A) × (pending ≡ x ∷ rest) × (t ≡ written_once x before)

    pub record IsOnce (t₀ : Table P) (s : Process A P) : Type 0 where
      pub pending : List A
      pub represents : Represents json s.queue pending
      pub split : s.produced ≡ s.acknowledged ++ pending
      pub made : All (IsMade read) pending
      pub progress : AtStage s.stage pending (written_all s.acknowledged t₀) s.worker.table

    more :
        (xs pending : List A) (before t : Table P)
        → Ahead pending before t
        → Ahead (pending ++ xs) before t
    more xs pending before t (x, rest, e, h) = (x, rest ++ xs, ap (λ l. l ++ xs) e, h)

    pub more-AtStage :
        (st : Stage A) (xs pending : List A) (before t : Table P)
        → AtStage st pending before t
        → AtStage st (pending ++ xs) before t
    more-AtStage ready xs pending before t (inl h) = inl h
    more-AtStage ready xs pending before t (inr a) = inr (more xs pending before t a)
    more-AtStage (holding x) xs pending before t ((rest, e), inl h) =
        ((rest ++ xs, ap (λ l. l ++ xs) e), inl h)
    more-AtStage (holding x) xs pending before t ((rest, e), inr a) =
        ((rest ++ xs, ap (λ l. l ++ xs) e), inr (more xs pending before t a))
    more-AtStage (wrote x) xs pending before t (rest, e, h) = (rest ++ xs, ap (λ l. l ++ xs) e, h)

    -- a new thread finds the table as it was or one item ahead
    pub dropped :
        (st : Stage A) (pending : List A) (before t : Table P)
        → AtStage st pending before t
        → AtStage ready pending before t
    dropped ready pending before t h = h
    dropped (holding x) pending before t (e, h) = h
    dropped (wrote x) pending before t (rest, e, h) = inr (x, rest, e, h)

    fetched-IsOnce :
        (t₀ : Table P) (s : Process A P) (pending : List A) (g : Outcome A × PersistentQueue A)
        → ServesFront json g pending
        → s.produced ≡ s.acknowledged ++ pending
        → All (IsMade read) pending
        → AtStage ready pending (written_all s.acknowledged t₀) s.worker.table
        → s.stage ≡ ready
        → IsOnce t₀ (fetched g s)
    fetched-IsOnce t₀ s [] (o, q) (e, f) sp m p at =
        subst (λ o. IsOnce t₀ (fetched (o, q) s)) (sym e)
          (record {
            pending = [];
            represents = f;
            split = sp;
            made = m;
            progress =
                subst (λ st. AtStage st [] (written_all s.acknowledged t₀) s.worker.table) (sym at)
                  p;
          })
    fetched-IsOnce t₀ s (x ∷ rest) (o, q) (e, f) sp m p at =
        subst (λ o. IsOnce t₀ (fetched (o, q) s)) (sym e)
          (record {
            pending = x ∷ rest;
            represents = f;
            split = sp;
            made = m;
            progress = ((rest, refl), p);
          })

    pub at_fetch-IsOnce :
        (t₀ : Table P) (st : Stage A) (s : Process A P)
        → s.stage ≡ st
        → IsOnce t₀ s
        → IsOnce t₀ (at_fetch r json read enforced st s)
    at_fetch-IsOnce t₀ (holding x) s e h = h
    at_fetch-IsOnce t₀ (wrote x) s e h = h
    at_fetch-IsOnce t₀ ready s e h =
        fetched-IsOnce t₀ s h.pending (get json (suc (length s.queue.file)) s.queue)
          (get-front json (length s.queue.file) s.queue h.pending h.represents) h.split h.made
          (subst (λ st. AtStage st h.pending (written_all s.acknowledged t₀) s.worker.table) e
            h.progress)
          e

    -- the item at the front of the queue, written now
    Ahead-now :
        (x : A) (now : ℕ) (w : Worker P) (rest pending : List A) (before : Table P)
        → pending ≡ x ∷ rest
        → All (IsMade read) pending
        → (w.table ≡ before) ⊎ Ahead pending before w.table
        → (write_item r enforced now (read x) w).table ≡ written_once x before
    Ahead-now x now w rest pending before e m (inl h) =
        write_item-once now x w (subst (All (IsMade read)) e m).0 ∙ ap (written_once x) h
    Ahead-now x now w rest pending before e m (inr (y, others, f, h)) =
        let same : y ≡ x = ap (first_or x) (sym f ∙ e) in
        let m' : WellMade (read x) = (subst (All (IsMade read)) e m).0 in
        write_item-once now x w m'
        ∙ (ap (written_once x) (h ∙ ap (λ z. written_once z before) same)
            ∙ written_twice x before m')

    pub at_write-IsOnce :
        (t₀ : Table P) (st : Stage A) (now : ℕ) (s : Process A P)
        → s.stage ≡ st
        → IsOnce t₀ s
        → IsOnce t₀ (at_write r json read enforced st now s)
    at_write-IsOnce t₀ ready now s e h = h
    at_write-IsOnce t₀ (wrote x) now s e h = h
    at_write-IsOnce t₀ (holding x) now s e h =
        let ((rest, f), p) =
          subst (λ st. AtStage st h.pending (written_all s.acknowledged t₀) s.worker.table) e
            h.progress in
        record {
          pending = h.pending;
          represents = h.represents;
          split = h.split;
          made = h.made;
          progress = (
            rest,
            f,
            Ahead-now x now s.worker rest h.pending (written_all s.acknowledged t₀) f h.made p,
          );
        }

    pub at_acknowledge-IsOnce :
        (t₀ : Table P) (st : Stage A) (s : Process A P)
        → s.stage ≡ st
        → IsOnce t₀ s
        → IsOnce t₀ (at_acknowledge r json read enforced st s)
    at_acknowledge-IsOnce t₀ ready s e h = h
    at_acknowledge-IsOnce t₀ (holding x) s e h = h
    at_acknowledge-IsOnce t₀ (wrote x) s e h =
        let (rest, f, p) =
          subst (λ st. AtStage st h.pending (written_all s.acknowledged t₀) s.worker.table) e
            h.progress in
        record {
          pending = rest;
          represents =
              subst (λ l. Represents json (task_done s.queue) (tail json l)) f
                (task_done-Represents json s.queue h.pending h.represents);
          split =
              h.split
              ∙ (ap (◌++◌ s.acknowledged) f ∙ sym (append_assoc s.acknowledged (x ∷ []) rest));
          made = (subst (All (IsMade read)) f h.made).1;
          progress = inl (p ∙ sym (written_all-snoc s.acknowledged x t₀));
        }
