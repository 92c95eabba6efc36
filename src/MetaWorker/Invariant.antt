-- ===== src/MetaWorker/Invariant.antt =====
-- With the exclusion constraint in force, meta_worker.py keeps every dimension table a history.
use ha_timescaledb_recorder.Prelude.{
  ℕ, ◌≡◌, refl, true, Option, none, some, String, arith, inl, inr, Bool-cases,
}
use ha_timescaledb_recorder.Scd2.{Table, insert_version, open_version}
use ha_timescaledb_recorder.Scd2.Intervals.{
  IsHistory, Inserted, close-IsHistory, sweep_close-IsHistory, insert_version-IsHistory,
}
use ha_timescaledb_recorder.MetaWorker.{
  Registry, Params, Action, create, update, remove, snapshot, sweep, unknown, Item, Worker, Result,
  done, rejected, no_params, note_change_lost, note_open, note_removal_skipped, process_remove,
  process_sweep, row_changed, note_version_skipped, version_of, finish_insert, process_rename,
  process_reconcile, write_version, route, dispatch_item, drop_poison_item, drop_rejected_item,
  settle_item, write_item,
}

module _ {P : Type 0} where
  -- `note_*` write no rows
  table-note_open : (id : String) (o : Option ℕ) (w : Worker P) → (note_open id o w).table ≡ w.table
  unfolding note_open note_change_lost
  table-note_open id none w = refl
  table-note_open id (some start) w = refl

  pub table-note_removal_skipped :
      (n : ℕ) (id : String) (w : Worker P) → (note_removal_skipped n id w).table ≡ w.table
  unfolding note_removal_skipped
  table-note_removal_skipped n id w = ground (arith, table-note_open id (open_version id w.table) w)

  pub table-note_version_skipped :
      (r : Registry P) (n : ℕ) (id : String) (ts : ℕ) (p : P) (w : Worker P)
      → (note_version_skipped r n id ts p w).table ≡ w.table
  unfolding note_version_skipped
  table-note_version_skipped r n id ts p w = ground arith

  abbrev Keeps : Result P → Type 0
  Keeps (done w) = IsHistory w.table
  Keeps rejected = Unit
  Keeps no_params = Unit

module _ {P : Type 0} (r : Registry P) where
  finish_insert-Keeps :
      (id : String) (ts : ℕ) (p : P) (w : Worker P) (o : Option (Table P × ℕ))
      → Inserted o
      → Keeps (finish_insert r id ts p w o)
  finish_insert-Keeps id ts p w none h = tt
  finish_insert-Keeps id ts p w (some (t, n)) h =
      rw (table-note_version_skipped r n id ts p (record w { table = t })) h

  insert-Keeps :
      (id : String) (ts : ℕ) (p : P) (q : Params P) (w : Worker P) (t : Table P)
      → IsHistory t
      → Keeps (finish_insert r id ts p w (insert_version true (version_of r q) t))
  unfolding version_of
  insert-Keeps id ts p q w t h =
      finish_insert-Keeps id ts p w _
        (insert_version-IsHistory true (version_of r q) t refl (inl refl) h)

  process_remove-Keeps :
      (id : String) (ts : ℕ) (w : Worker P) → IsHistory w.table → Keeps (process_remove id ts w)
  unfolding process_remove
  process_remove-Keeps id ts w h = rw table-note_removal_skipped (close-IsHistory id ts w.table h)

  process_sweep-Keeps :
      (item : Item P) (ts : ℕ) (w : Worker P) → IsHistory w.table → Keeps (process_sweep item ts w)
  unfolding process_sweep
  process_sweep-Keeps item ts w h = ground (arith, sweep_close-IsHistory ts item.live_ids w.table h)

  process_rename-Keeps :
      (id old_id : String) (p : Params P) (ts : ℕ) (w : Worker P)
      → IsHistory w.table
      → Keeps (process_rename r true id old_id p ts w)
  unfolding process_rename
  process_rename-Keeps id old_id p ts w h =
      insert-Keeps id ts p.payload p w _ (close-IsHistory old_id ts w.table h)

  process_reconcile-Keeps :
      (id : String) (p : Params P) (ts : ℕ) (w : Worker P)
      → IsHistory w.table
      → Keeps (process_reconcile r true id p ts w)
  unfolding process_reconcile
  process_reconcile-Keeps id p ts w h = elim (Bool-cases (row_changed r id p.payload w.table)) [
    | inl new ↦ rw new (insert-Keeps id ts p.payload _ w _ (close-IsHistory id ts w.table h))
    | inr same ↦ rw same h
  ]

  write_version-Keeps :
      (item : Item P) (old_id : Option String) (p : Option (Params P)) (ts : ℕ) (w : Worker P)
      → IsHistory w.table
      → Keeps (write_version r true item old_id p ts w)
  write_version-Keeps item old_id none ts w h = tt
  write_version-Keeps item none (some p) ts w h = process_reconcile-Keeps item.registry_id p ts w h
  write_version-Keeps item (some old) (some p) ts w h =
      process_rename-Keeps item.registry_id old p ts w h

  route-Keeps :
      (a : Action) (item : Item P) (ts : ℕ) (w : Worker P)
      → IsHistory w.table
      → Keeps (route r true a item ts w)
  route-Keeps sweep item ts w h = process_sweep-Keeps item ts w h
  route-Keeps remove item ts w h = process_remove-Keeps item.registry_id ts w h
  route-Keeps update item ts w h = write_version-Keeps item item.old_id item.params ts w h
  route-Keeps create item ts w h = write_version-Keeps item none item.params ts w h
  route-Keeps snapshot item ts w h = write_version-Keeps item none item.params ts w h
  route-Keeps unknown item ts w h = h

  settle_item-IsHistory :
      (item : Item P) (w : Worker P) (x : Result P)
      → IsHistory w.table
      → Keeps x
      → IsHistory (settle_item r item w x).table
  unfolding settle_item drop_rejected_item drop_poison_item
  settle_item-IsHistory item w (done w') h k = k
  settle_item-IsHistory item w rejected h k = h
  settle_item-IsHistory item w no_params h k = h

  -- With the exclusion constraint in force every item, in or out of order, accepted or dropped,
  -- leaves the table without inverted intervals and without two overlapping versions of one id.
  pub write_item-IsHistory :
      (now : ℕ) (item : Item P) (w : Worker P)
      → IsHistory w.table
      → IsHistory (write_item r true now item w).table
  unfolding write_item
  write_item-IsHistory now item w h =
      settle_item-IsHistory item w _ h (unfold dispatch_item in route-Keeps item.action item _ w h)
