-- ===== src/StatesWorker/Rollup.antt =====
-- The minutes that states_worker.py queues for recomputation after a backfill.
use ha_timescaledb_recorder.Prelude.{
  ℕ, ◌≡◌, List, [], ◌∷◌, All, String, Bool, true, false, not, ◌||◌, Option, none, some, leb,
}
use ha_timescaledb_recorder.StatesWorker.{StateRow, Statement, insert, insert_live, Worker}
use ha_timescaledb_recorder.StatesWorker.Delivery.{delivered}

abbrev pub from_reaches : Option ℕ → ℕ → Bool
from_reaches none t = false
from_reaches (some since) t = leb since t

abbrev pub marks_reach : List ℕ → ℕ → Bool
marks_reach [] t = false
marks_reach (since ∷ marks) t = leb since t || marks_reach marks t

module _ {C : Type 0} (rolled : String → Bool) where
  -- a time that is recomputed from, was warned of, or is to be queued when the backfill is done
  abbrev pub reaches : Worker C → ℕ → Bool
  reaches w t =
      marks_reach w.marked_dirty t
      || marks_reach w.not_marked t
      || from_reaches w.backfill_rollup_from t

  -- A backfilled row of an entity with a rollup lies at such a time.
  abbrev pub IsMarked : (ℕ → Bool) → (Statement × StateRow C) → Type 0
  IsMarked reached (insert_live, r) = Unit
  IsMarked reached (insert, r) = not (rolled r.entity_id) || reached r.last_updated ≡ true

  -- Of the rows given to the insert and those in the buffer, the backfilled ones with a rollup are reached.
  abbrev pub IsRolledUp : Worker C → Type 0
  IsRolledUp w = All (IsMarked (reaches w)) (delivered w)

  -- a flush marks nothing
  SameMarks : Worker C → Worker C → Type 0
  SameMarks w w' = (t : ℕ) → reaches w' t ≡ reaches w t
