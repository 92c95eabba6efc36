-- ===== src/StatesWorker/Isolation/Complete.antt =====
-- Row by row, states_worker.py handles every row of the chunk once, or none.
use ha_timescaledb_recorder.Prelude.{
  ℕ, ◌+◌, ◌≡◌, List, [], ◌∷◌, false, Option, none, some, if◌then◌else◌, All,
}
use ha_timescaledb_recorder.StatesWorker.{StateRow}
use ha_timescaledb_recorder.StatesWorker.Isolation.{
  Row, Database, Probe, no_probe, first_landed, not_poison, Handled, enumerate, is_landed,
}

module _ {C : Type 0} where
  -- no stop comes between the rows
  unfoldable pub NeverStops : Database C → Type 0
  NeverStops db = (r : Row C) → db.stop_at_row r ≡ false

  abbrev AllPicked : (Row C → Type 0) → Option (List (Row C)) → Type 0
  AllPicked P none = Unit
  AllPicked P (some rows) = All P rows

  abbrev LandsIn : (Row C → Type 0) → Probe C → Type 0
  LandsIn P (first_landed r) = P r
  LandsIn P no_probe = Unit
  LandsIn P not_poison = Unit

module _ {C : Type 0} (weight : Row C → ℕ) where
  -- Two lists have the same rows where every weight has the same sum on them.
  abbrev pub total : List (Row C) → ℕ
  total [] = 0
  total (r ∷ rows) = weight r + total rows

  -- the rows without the one at a place
  abbrev total_but : Option ℕ → List (Row C) → ℕ
  total_but l [] = 0
  total_but l (r ∷ rows) = (if is_landed l r then 0 else weight r) + total_but l rows

  -- The row and the others at other places are the whole chunk.
  Splits : List (Row C) → Row C → Type 0
  Splits rows r = weight r + total_but (some r.0) rows ≡ total rows

  -- Either nothing is done, or the rows that were inserted and those that were given up are the chunk,
  -- none is left, and the database refused each that was given up.
  abbrev pub IsComplete : Database C → List (StateRow C) → Option (Handled C) → Type 0
  IsComplete db chunk none = Unit
  IsComplete db chunk (some h) =
      (h.left ≡ [])
      × All (λ r. db.takes r ≡ false) h.dropped
      × (total h.inserted + total h.dropped ≡ total (enumerate 0 chunk))
