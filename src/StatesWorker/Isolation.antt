-- ===== src/StatesWorker/Isolation.antt =====
-- states_worker.py on a chunk that fails non-transiently: `_insert_rows_individually`, `_probe_rows` and
-- `_drop_row`. A row is a place in the chunk and what stands there, so that `row is not landed` can be
-- said. The database and the stop event are parameters.
pub mod Complete
pub mod Breaker
mod Tests
use text.Mathlib.Text.{◌==◌ as str_eq}
use ha_timescaledb_recorder.Prelude.{
  ℕ, zero, suc, ◌+◌, ◌∷◌, [], List, ◌++◌, Bool, true, false, not, ◌||◌, Option, none, some, String,
  ◌==◌, map, if◌then◌else◌,
}
use ha_timescaledb_recorder.StatesWorker.{StateRow}

abbrev pub poison_probe_rows : ℕ
poison_probe_rows = 5

abbrev pub Row : Type 0 → Type 0
Row C = ℕ × StateRow C

pub data Attempt : Type 0 where
  landed transient rejected : Attempt

-- What the inserts would do, and when the stop event is seen.
pub record Database (C : Type 0) : Type 0 where
  pub probe : Row C → Attempt  -- `_insert_row_raw`, once
  pub takes : Row C → Bool  -- `_insert_row` with its retries; `false`: `_drop_row` is called
  pub stop_at_probe : Row C → Bool
  pub stop_at_row : Row C → Bool

pub data Probe (C : Type 0) : Type 0 where
  no_probe : Probe C  -- `None`
  first_landed : Row C → Probe C
  not_poison : Probe C  -- raises NotPoison

pub record Handled (C : Type 0) : Type 0 where
  pub inserted : List (Row C)
  pub dropped : List (Row C)
  pub left : List (Row C)  -- by a return on the stop event

module _ {C : Type 0} where
  abbrev pub enumerate : ℕ → List (StateRow C) → List (Row C)
  enumerate i [] = []
  enumerate i (r ∷ rows) = (i, r) ∷ enumerate (i + 1) rows

  abbrev pub seen : String → List (Row C) → Bool
  seen id [] = false
  seen id (r ∷ rows) = str_eq id r.1.entity_id || seen id rows

  -- The loop that fills `probe`, which holds `picked`; `none` is its `else`.
  pub pick_probe : ℕ → List (Row C) → List (Row C) → Option (List (Row C))
  pick_probe zero picked rows = some picked
  pick_probe (suc n) picked [] = none
  pick_probe (suc n) picked (r ∷ rows) =
      let more = pick_probe n (picked ++ r ∷ []) rows in
      let same = pick_probe (suc n) picked rows in if seen r.1.entity_id picked then same else more

  abbrev on_attempt : Attempt → Row C → Probe C → Probe C
  on_attempt landed r rest = first_landed r
  on_attempt transient r rest = not_poison
  on_attempt rejected r rest = rest

  pub try_probes : Database C → List (Row C) → Probe C
  try_probes db [] = not_poison
  try_probes db (r ∷ rows) =
      let rest = try_probes db rows in
      if db.stop_at_probe r then no_probe else on_attempt (db.probe r) r rest

  abbrev try_picked : Database C → Option (List (Row C)) → Probe C
  try_picked db none = no_probe
  try_picked db (some rows) = try_probes db rows

  -- `_probe_rows`
  pub probe_rows : Database C → List (Row C) → Probe C
  unfolding pick_probe try_probes
  probe_rows db chunk = try_picked db (pick_probe poison_probe_rows [] chunk)

  abbrev pub is_landed : Option ℕ → Row C → Bool
  is_landed none r = false
  is_landed (some i) r = r.0 == i

  -- the loop of `_insert_rows_individually`
  pub insert_rest : Database C → Option ℕ → List (Row C) → Handled C
  insert_rest db l [] = record { inserted = []; dropped = []; left = [] }
  insert_rest db l (r ∷ rows) =
      let rest = insert_rest db l rows in
      if db.stop_at_row r
      then record { inserted = []; dropped = []; left = r ∷ rows }
      else if is_landed l r
      then rest
      else if db.takes r
      then record rest { inserted = r ∷ rest.inserted }
      else record rest { dropped = r ∷ rest.dropped }

  abbrev after_probe : Database C → List (Row C) → Probe C → Option (Handled C)
  after_probe db chunk not_poison = none
  after_probe db chunk no_probe = some (insert_rest db none chunk)
  after_probe db chunk (first_landed r) =
      let rest = insert_rest db (some r.0) chunk in
      some (record rest { inserted = r ∷ rest.inserted })

  -- `_insert_rows_individually`; `none` is NotPoison, which sends the chunk back to retrying
  pub insert_rows_individually : Database C → List (StateRow C) → Option (Handled C)
  unfolding probe_rows insert_rest
  insert_rows_individually db chunk =
      let rows = enumerate 0 chunk in after_probe db rows (probe_rows db rows)
