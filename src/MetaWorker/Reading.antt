-- ===== src/MetaWorker/Reading.antt =====
-- What meta_worker.py promises to the readers of the view states_flat.
use ha_timescaledb_recorder.Prelude.{ℕ, ◌≡◌, sym, subst, true, String, List, [], ◌∷◌, length}
use ha_timescaledb_recorder.Scd2.Intervals.{IsHistory}
use ha_timescaledb_recorder.Scd2.Era.{joined_rows, joined_once}
use ha_timescaledb_recorder.MetaWorker.{Registry, Item, Worker, write_item}
use ha_timescaledb_recorder.MetaWorker.Invariant.{write_item-IsHistory}

module _ {P : Type 0} (r : Registry P) where
  -- the worker on the items of the queue, each with the time at which it is written
  pub write_all : List (ℕ × Item P) → Worker P → Worker P
  write_all [] w = w
  write_all ((now, item) ∷ items) w = write_all items (write_item r true now item w)

  write_all-IsHistory :
      (items : List (ℕ × Item P)) (w : Worker P)
      → IsHistory w.table
      → IsHistory (write_all items w).table
  unfolding write_all
  write_all-IsHistory [] w h = h
  write_all-IsHistory ((now, item) ∷ items) w h =
      write_all-IsHistory items (write_item r true now item w) (write_item-IsHistory r now item w h)

  -- With the exclusion constraint in force, a table that was empty once and was written by items alone,
  -- in whatever order they came, gives every state exactly one row in the view: one version, or none.
  pub write_all_joins_once :
      (items : List (ℕ × Item P)) (w : Worker P) (id : String) (ts : ℕ)
      → w.table ≡ []
      → length (joined_rows id ts (write_all items w).table) ≡ 1
  write_all_joins_once items w id ts e =
      joined_once id ts (write_all items w).table
        (write_all-IsHistory items w (subst IsHistory (sym e) tt))
