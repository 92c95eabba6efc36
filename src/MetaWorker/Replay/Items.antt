-- ===== src/MetaWorker/Replay/Items.antt =====
-- An item of meta_worker.py that comes twice leaves the table that it left the first time.
use ha_timescaledb_recorder.Prelude.{
  ℕ, ◌≡◌, ◌⊎◌, refl, sym, ap, ◌∙◌, subst, Bool, false, Option, none, some, String, List, arith, inl,
  inr, Bool-cases, ltb, ◌&&◌, is_empty, if◌then◌else◌,
}
use ha_timescaledb_recorder.Scd2.{
  insert_version, Table, close, sweep_count, sweep_close, to_sweep, count,
}
use ha_timescaledb_recorder.Scd2.Replays.{count_again, to_sweep-OnOpen}
use ha_timescaledb_recorder.MetaWorker.Invariant.{table-note_removal_skipped}
use ha_timescaledb_recorder.MetaWorker.{
  Registry, Params, Action, create, update, remove, snapshot, sweep, unknown, Item, Worker, Result,
  done, rejected, no_params, process_remove, is_refused, process_sweep, row_changed, process_rename,
  process_reconcile, version_of, write_version, route, dispatch_item, drop_poison_item,
  drop_rejected_item, settle_item, write_item, close_timestamp,
}
use ha_timescaledb_recorder.MetaWorker.Replay.{
  left, left-finish_insert, renamed, renamed_again, reconciled, reconciled_again, first_or_next,
  closed_twice,
}

module _ {P : Type 0} where
  -- The params bear this id.
  unfoldable pub Named : String → Option (Params P) → Type 0
  Named id none = Unit
  Named id (some p) = p.id ≡ id

module _ {P : Type 0} (r : Registry P) (enforced : Bool) where
  left-process_rename :
      (id old_id : String) (p : Params P) (w : Worker P)
      → left r enforced w.table (process_rename r enforced id old_id p p.valid_from w)
        ≡ renamed r enforced old_id p w.table
  unfolding process_rename renamed
  left-process_rename id old_id p w =
      left-finish_insert r enforced w.table id p.valid_from p.payload w
        (insert_version enforced (version_of r p) (close old_id p.valid_from w.table).0)

  left-process_reconcile :
      (p : Params P) (w : Worker P)
      → left r enforced w.table (process_reconcile r enforced p.id p p.valid_from w)
        ≡ reconciled r enforced p w.table
  unfolding process_reconcile reconciled first_or_next
  left-process_reconcile p w = elim (Bool-cases (row_changed r p.id p.payload w.table)) [
    | inl new ↦ rw new (
        left-finish_insert r enforced w.table p.id p.valid_from p.payload w (
          insert_version enforced (version_of r (first_or_next r enforced p w.table))
            (close p.id p.valid_from w.table).0))
    | inr old ↦ rw old refl
  ]

  swept : ℕ → List String → Table P → Table P
  swept ts live t =
      let (open_rows, closing) = sweep_count ts live t in
      if ltb 0 open_rows && is_empty live
      then t
      else if is_refused open_rows closing
      then t
      else if ltb 0 closing
      then (sweep_close ts live t).0
      else t

  left-process_sweep :
      (item : Item P) (ts : ℕ) (w : Worker P)
      → left r enforced w.table (process_sweep item ts w) ≡ swept ts item.live_ids w.table
  unfolding process_sweep swept
  left-process_sweep item ts w = ground arith

  -- the three ways a sweep ends
  swept_cases :
      (ts : ℕ) (live : List String) (t : Table P)
      → (swept ts live t ≡ t) ⊎ (swept ts live t ≡ (sweep_close ts live t).0)
  unfolding swept
  swept_cases ts live t = elim (Bool-cases (ltb 0 (sweep_count ts live t).0 && is_empty live)) [
    | inl a ↦ inl (rw a refl)
    | inr a ↦ elim (Bool-cases (is_refused (sweep_count ts live t).0 (sweep_count ts live t).1)) [
      | inl b ↦ inl (rw (a, b) refl)
      | inr b ↦ elim (Bool-cases (ltb 0 (sweep_count ts live t).1)) [
        | inl c ↦ inr (rw (a, b, c) refl)
        | inr c ↦ inl (rw (a, b, c) refl)
      ]
    ]
  ]

  -- where nothing is to be closed a sweep does nothing
  swept_idle :
      (ts : ℕ) (live : List String) (t : Table P)
      → count (to_sweep ts live) t ≡ 0
      → swept ts live t ≡ t
  unfolding swept sweep_count
  swept_idle ts live t none_left = ground (arith, none_left)

  swept_again :
      (ts : ℕ) (live : List String) (t : Table P)
      → swept ts live (swept ts live t) ≡ swept ts live t
  unfolding sweep_close
  swept_again ts live t = elim (swept_cases ts live t) [
    | inl same ↦ ap (swept ts live) same
    | inr closed ↦
        ap (swept ts live) closed
        ∙ (swept_idle ts live _ (count_again _ ts t (to_sweep-OnOpen ts live)) ∙ sym closed)
  ]

  closed_again :
      (id : String) (ts : ℕ) (t : Table P) → (close id ts (close id ts t).0).0 ≡ (close id ts t).0
  closed_again = closed_twice r enforced

  left-process_remove :
      (id : String) (ts : ℕ) (w : Worker P)
      → left r enforced w.table (process_remove id ts w) ≡ (close id ts w.table).0
  unfolding process_remove
  left-process_remove id ts w = table-note_removal_skipped (close id ts w.table).1 id _

  -- What an item does to the table, as a function of the table alone.
  abbrev written : Option String → Option (Params P) → Table P → Table P
  written old_id none t = t
  written none (some p) t = reconciled r enforced p t
  written (some old_id) (some p) t = renamed r enforced old_id p t

  abbrev effect : Action → Item P → ℕ → Table P → Table P
  effect sweep item ts t = swept ts item.live_ids t
  effect remove item ts t = (close item.registry_id ts t).0
  effect update item ts t = written item.old_id item.params t
  effect create item ts t = written none item.params t
  effect snapshot item ts t = written none item.params t
  effect unknown item ts t = t

  -- The params carry the id of the item and the time at which it closes.
  abbrev Dated : String → ℕ → Option (Params P) → Type 0
  Dated id ts none = Unit
  Dated id ts (some p) = (p.id ≡ id) × (p.valid_from ≡ ts)

  left-write_version :
      (item : Item P) (old_id : Option String) (o : Option (Params P)) (ts : ℕ) (w : Worker P)
      → Dated item.registry_id ts o
      → left r enforced w.table (write_version r enforced item old_id o ts w)
        ≡ written old_id o w.table
  left-write_version item old_id none ts w d = refl
  left-write_version item none (some p) ts w (same, at) =
      subst
        (λ i.
          left r enforced w.table (process_reconcile r enforced i p ts w)
          ≡ reconciled r enforced p w.table)
        same
        (subst
          (λ n.
            left r enforced w.table (process_reconcile r enforced p.id p n w)
            ≡ reconciled r enforced p w.table)
          at (left-process_reconcile p w))
  left-write_version item (some old_id) (some p) ts w (same, at) =
      subst
        (λ n.
          left r enforced w.table (process_rename r enforced item.registry_id old_id p n w)
          ≡ renamed r enforced old_id p w.table)
        at (left-process_rename item.registry_id old_id p w)

  left-route :
      (a : Action) (item : Item P) (ts : ℕ) (w : Worker P)
      → Dated item.registry_id ts item.params
      → left r enforced w.table (route r enforced a item ts w) ≡ effect a item ts w.table
  left-route sweep item ts w d = left-process_sweep item ts w
  left-route remove item ts w d = left-process_remove item.registry_id ts w
  left-route update item ts w d = left-write_version item item.old_id item.params ts w d
  left-route create item ts w d = left-write_version item none item.params ts w d
  left-route snapshot item ts w d = left-write_version item none item.params ts w d
  left-route unknown item ts w d = refl

  table-settle_item :
      (item : Item P) (w : Worker P) (x : Result P)
      → (settle_item r item w x).table ≡ left r enforced w.table x
  unfolding settle_item drop_rejected_item drop_poison_item
  table-settle_item item w (done w') = refl
  table-settle_item item w rejected = refl
  table-settle_item item w no_params = refl

  dated :
      (now : ℕ) (id : String) (o : Option (Params P)) (t : Option ℕ)
      → Named id o
      → Dated id (close_timestamp now o t) o
  unfolding Named close_timestamp
  dated now id none t n = tt
  dated now id (some p) t n = (n, refl)

  table-write_item :
      (now : ℕ) (item : Item P) (w : Worker P)
      → Named item.registry_id item.params
      → (write_item r enforced now item w).table
        ≡ effect item.action item (close_timestamp now item.params item.enqueued_at) w.table
  unfolding write_item dispatch_item
  table-write_item now item w n =
      table-settle_item item w
        (route r enforced item.action item (close_timestamp now item.params item.enqueued_at) w)
      ∙ left-route item.action item _ w (dated now item.registry_id item.params item.enqueued_at n)

  timed :
      (now later t : ℕ) (o : Option (Params P))
      → close_timestamp later o (some t) ≡ close_timestamp now o (some t)
  unfolding close_timestamp
  timed now later t none = refl
  timed now later t (some p) = refl

  same_time :
      (now later t : ℕ) (item : Item P)
      → item.enqueued_at ≡ some t
      → close_timestamp later item.params item.enqueued_at
        ≡ close_timestamp now item.params item.enqueued_at
  same_time now later t item e =
      ap (close_timestamp later item.params) e
      ∙ (timed now later t item.params ∙ sym (ap (close_timestamp now item.params) e))

  -- What such an item does to a table depends on nothing but the table.
  pub write_item-alike :
      (now later t : ℕ) (item : Item P) (w v : Worker P)
      → Named item.registry_id item.params
      → item.enqueued_at ≡ some t
      → w.table ≡ v.table
      → (write_item r enforced later item w).table ≡ (write_item r enforced now item v).table
  write_item-alike now later t item w v n e same =
      let ts = close_timestamp now item.params item.enqueued_at in
      table-write_item later item w n
      ∙ (ap (λ x. effect item.action item x w.table) (same_time now later t item e)
          ∙ (ap (effect item.action item ts) same ∙ sym (table-write_item now item v n)))

  module _ (reflexive : (p : P) → r.changed p p ≡ false) where
    written_again :
        (old_id : Option String) (o : Option (Params P)) (t : Table P)
        → written old_id o (written old_id o t) ≡ written old_id o t
    written_again old_id none t = refl
    written_again none (some p) t = reconciled_again r enforced reflexive p t
    written_again (some old_id) (some p) t = renamed_again r enforced old_id p t

    effect_again :
        (a : Action) (item : Item P) (ts : ℕ) (t : Table P)
        → effect a item ts (effect a item ts t) ≡ effect a item ts t
    effect_again sweep item ts t = swept_again ts item.live_ids t
    effect_again remove item ts t = closed_again item.registry_id ts t
    effect_again update item ts t = written_again item.old_id item.params t
    effect_again create item ts t = written_again none item.params t
    effect_again snapshot item ts t = written_again none item.params t
    effect_again unknown item ts t = refl

    -- An item that bears the id of its params and its time of enqueueing, and comes again at any later
    -- moment, leaves the table as it left it the first time, with the exclusion constraint in force or
    -- not, where the comparison of a payload with itself finds no change.
    pub write_item_again :
        (now later t : ℕ) (item : Item P) (w : Worker P)
        → Named item.registry_id item.params
        → item.enqueued_at ≡ some t
        → (write_item r enforced later item (write_item r enforced now item w)).table
          ≡ (write_item r enforced now item w).table
    write_item_again now later t item w n e =
        let ts = close_timestamp now item.params item.enqueued_at in
        let first = table-write_item now item w n in
        table-write_item later item (write_item r enforced now item w) n
        ∙ (ap (λ x. effect item.action item x (write_item r enforced now item w).table)
              (same_time now later t item e)
            ∙ (ap (effect item.action item ts) first
                ∙ (effect_again item.action item ts w.table ∙ sym first)))
