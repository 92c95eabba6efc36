-- ===== src/MetaWorker.antt =====
-- custom_components/timescaledb_recorder/meta_worker.py: one metadata item applied to the dimension
-- table of its registry. The four registries have one code path and a table each, so the worker is
-- seen through the items and the table of one of them. A statement that fails for another reason
-- than a constraint is the business of retry.py.
pub mod Invariant
pub mod Replay
pub mod Reading
pub mod Loop
mod Tests
use ha_timescaledb_recorder.Prelude.{
  ℕ, zero, suc, ◌+◌, ◌*◌, Bool, true, false, not, ◌&&◌, ◌||◌, Option, none, some, String, List, [],
  ◌∷◌, ◌++◌, ltb, leb, ◌==◌, if◌then◌else◌, is_empty,
}
use ha_timescaledb_recorder.Scd2.{
  Version, Table, close, insert_version, open_version_at, open_version, current, any_version,
  sweep_count, sweep_close,
}

-- What the code asks of a payload: the comparison of registry_listener.py, the uuid of an entity, and
-- the `created_at` of the extra fields.
pub record Registry (P : Type 0) : Type 0 where
  pub changed : P → P → Bool  -- the stored row, the incoming one
  pub same_entry : P → P → Bool
  pub created_at : P → Option ℕ

-- The rehydrated params: the id is the first one.
pub record Params (P : Type 0) : Type 0 where
  pub id : String
  pub valid_from : ℕ
  pub payload : P

pub data Action : Type 0 where
  create update remove snapshot sweep unknown : Action

pub record Item (P : Type 0) : Type 0 where
  pub action : Action
  pub registry_id : String
  pub old_id : Option String
  pub params : Option (Params P)
  pub enqueued_at : Option ℕ  -- `none`: absent, or not a time
  pub live_ids : List String

pub data Reason : Type 0 where
  scd2_constraint_rejected arrived_after_newer_version non_transient_error sweep_refused : Reason

pub record Worker (P : Type 0) : Type 0 where
  pub table : Table P
  pub integrity_drops : ℕ
  pub out_of_order_skips : ℕ
  pub poison_drops : ℕ
  pub dead_letters : List (Reason × String)

-- How the dispatch of an item ends: `rejected` is ExclusionViolation or UniqueViolation, which rolls
-- the transaction back, and `no_params` is the ValueError of `_require_params`.
pub data Result (P : Type 0) : Type 0 where
  done : Worker P → Result P
  rejected : Result P
  no_params : Result P

abbrev pub sweep_free_closes : ℕ
sweep_free_closes = 2

abbrev pub is_refused : ℕ → ℕ → Bool
is_refused open_rows closing = ltb sweep_free_closes closing && ltb open_rows (2 * closing)

module _ {P : Type 0} where
  -- `_dead_letter`
  abbrev pub dead_letter : Reason → String → Worker P → Worker P
  dead_letter reason id w = record w { dead_letters = w.dead_letters ++ (reason, id) ∷ [] }

  -- `_note_change_lost`
  pub note_change_lost : String → Worker P → Worker P
  note_change_lost id w =
      dead_letter arrived_after_newer_version id
        (record w { out_of_order_skips = w.out_of_order_skips + 1 })

  -- `_close_timestamp`; `now` is the clock
  pub close_timestamp : ℕ → Option (Params P) → Option ℕ → ℕ
  close_timestamp now (some p) enqueued_at = p.valid_from
  close_timestamp now none (some t) = t
  close_timestamp now none none = now

  note_open : String → Option ℕ → Worker P → Worker P
  unfolding note_change_lost
  note_open id none w = w
  note_open id (some start) w = note_change_lost id w

  -- `_note_removal_skipped`
  pub note_removal_skipped : ℕ → String → Worker P → Worker P
  unfolding note_open
  note_removal_skipped rowcount id w =
      if ltb 0 rowcount then w else note_open id (open_version id w.table) w

  -- `_process_remove`
  pub process_remove : String → ℕ → Worker P → Result P
  unfolding note_removal_skipped
  process_remove id ts w =
      let (t, rowcount) = close id ts w.table in
      done (note_removal_skipped rowcount id (record w { table = t }))

  -- `_process_sweep`
  pub process_sweep : Item P → ℕ → Worker P → Result P
  process_sweep item ts w =
      let (open_rows, closing) = sweep_count ts item.live_ids w.table in
      done (
        if ltb 0 open_rows && is_empty item.live_ids
        then w
        else if is_refused open_rows closing
        then dead_letter sweep_refused item.registry_id w
        else if ltb 0 closing
        then record w { table = (sweep_close ts item.live_ids w.table).0 }
        else w)

module _ {P : Type 0} (r : Registry P) where
  differs : Option (Version P) → P → Bool
  differs none p = true
  differs (some v) p = r.changed v.payload p

  -- `_row_changed`, `_open_row_differs`
  pub row_changed : String → P → Table P → Bool
  unfolding differs
  row_changed id p t = differs (current id t) p

  -- `_note_version_skipped`
  pub note_version_skipped : ℕ → String → ℕ → P → Worker P → Worker P
  unfolding note_change_lost row_changed
  note_version_skipped rowcount id ts p w =
      if ltb 0 rowcount
      then w
      else if open_version_at id ts w.table && not (row_changed id p w.table)
      then w
      else note_change_lost id w

  pub version_of : Params P → Version P
  version_of p = record {
    id = p.id;
    valid_from = p.valid_from;
    valid_to = none;
    payload = p.payload;
  }

  abbrev finish_insert : String → ℕ → P → Worker P → Option (Table P × ℕ) → Result P
  finish_insert id ts p w none = rejected
  finish_insert id ts p w (some (t, rowcount)) =
      done (note_version_skipped rowcount id ts p (record w { table = t }))

  -- `_process_rename`
  pub process_rename : Bool → String → String → Params P → ℕ → Worker P → Result P
  unfolding version_of note_version_skipped
  process_rename enforced id old_id p ts w =
      let (t, closed) = close old_id ts w.table in
      finish_insert id ts p.payload w (insert_version enforced (version_of p) t)

  abbrev backdate : Option ℕ → Bool → Params P → Params P
  backdate none known p = p
  backdate (some start) known p =
      if leb p.valid_from start then p else if known then p else record p { valid_from = start }

  -- `_first_version_params`
  pub first_version_params : String → Params P → Table P → Params P
  first_version_params id p t =
      backdate (r.created_at p.payload) (any_version r.same_entry id p.payload t) p

  -- `_process_reconcile`
  pub process_reconcile : Bool → String → Params P → ℕ → Worker P → Result P
  unfolding row_changed version_of note_version_skipped
  process_reconcile enforced id p ts w =
      let (t, closed) = close id ts w.table in
      let p' = if ltb 0 closed then p else first_version_params id p t in
      if row_changed id p.payload w.table
      then finish_insert id ts p.payload w (insert_version enforced (version_of p') t)
      else done w

  -- the branches that write a version, behind `_require_params`
  abbrev write_version : Bool → Item P → Option String → Option (Params P) → ℕ → Worker P → Result P
  write_version enforced item old_id none ts w = no_params
  write_version enforced item none (some p) ts w =
      process_reconcile enforced item.registry_id p ts w
  write_version enforced item (some old_id) (some p) ts w =
      process_rename enforced item.registry_id old_id p ts w

  -- the chain of `if action == ...`
  abbrev route : Bool → Action → Item P → ℕ → Worker P → Result P
  route enforced sweep item ts w = process_sweep item ts w
  route enforced remove item ts w = process_remove item.registry_id ts w
  route enforced update item ts w = write_version enforced item item.old_id item.params ts w
  route enforced create item ts w = write_version enforced item none item.params ts w
  route enforced snapshot item ts w = write_version enforced item none item.params ts w
  route enforced unknown item ts w = done w

  -- `_dispatch_item`
  pub dispatch_item : Bool → ℕ → Item P → Worker P → Result P
  unfolding close_timestamp process_remove process_sweep process_rename process_reconcile
  dispatch_item enforced now item w =
      route enforced item.action item (close_timestamp now item.params item.enqueued_at) w

  -- `_drop_poison_item`, to which the retries of `ValueError` lead
  pub drop_poison_item : Item P → Worker P → Worker P
  drop_poison_item item w =
      dead_letter non_transient_error item.registry_id
        (record w { poison_drops = w.poison_drops + 1 })

  -- the handler of `_write_item_raw`
  pub drop_rejected_item : Item P → Worker P → Worker P
  drop_rejected_item item w =
      dead_letter scd2_constraint_rejected item.registry_id
        (record w { integrity_drops = w.integrity_drops + 1 })

  settle_item : Item P → Worker P → Result P → Worker P
  settle_item item w (done w') = w'
  settle_item item w rejected = drop_rejected_item item w
  settle_item item w no_params = drop_poison_item item w

  -- `_write_item`: the raw write with its retries, in an environment where the database answers
  pub write_item : Bool → ℕ → Item P → Worker P → Worker P
  unfolding dispatch_item settle_item drop_rejected_item drop_poison_item
  write_item enforced now item w = settle_item item w (dispatch_item enforced now item w)
