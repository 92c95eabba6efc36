-- ===== src/Rollup/Sync.antt =====
-- sync_minute_rollup of custom_components/timescaledb_recorder/schema.py, with its statements of
-- const.py. `first_ts id` is the oldest row of the entity in the hypertable, and `new_job` the id that
-- TimescaleDB gives to a job.
pub mod Views
pub mod Refilled
pub mod Filled
use text.Mathlib.Text.{◌==◌ as str_eq, is_lt}
use Prim.Native.String.{compare}
use ha_timescaledb_recorder.Prelude.{
  ℕ, ◌==◌, List, [], ◌∷◌, ◌++◌, Bool, true, false, not, ◌&&◌, Option, none, some, String, filter,
  if◌then◌else◌, is_some, is_empty,
}
use ha_timescaledb_recorder.Rollup.{Configured, MinuteRow, find_entity}
use ha_timescaledb_recorder.Rollup.Job.{Dirty, Tables}

-- an entry of minute_rollup
pub record Entry : Type 0 where
  pub entity_id : String
  pub hold : ℕ
  pub zero_hold : Option ℕ

-- `wanted[e["entity_id"]] = ...`: a key that is there keeps its place
abbrev pub put : Entry → List Entry → List Entry
put e [] = e ∷ []
put e (w ∷ ws) = let rest = put e ws in if str_eq w.entity_id e.entity_id then e ∷ ws else w ∷ rest

abbrev pub put_all : List Entry → List Entry → List Entry
put_all [] ws = ws
put_all (e ∷ es) ws = put_all es (put e ws)

-- `wanted`
abbrev pub wanted_of : List Entry → List Entry
wanted_of es = put_all es []

abbrev pub lookup : String → List Entry → Option Entry
lookup id [] = none
lookup id (w ∷ ws) = if str_eq w.entity_id id then some w else lookup id ws

abbrev pub same_seconds : Option ℕ → Option ℕ → Bool
same_seconds none none = true
same_seconds none (some n) = false
same_seconds (some m) none = false
same_seconds (some m) (some n) = m == n

-- `current.get(eid) == (hold, zero_hold)`
abbrev pub is_current : Option Configured → Entry → Bool
is_current none w = false
is_current (some c) w = c.hold == w.hold && same_seconds c.zero_hold w.zero_hold

abbrev pub delete_entity : String → List Configured → List Configured
delete_entity id cs = filter (λ c. not (str_eq c.entity_id id)) cs

-- STATES_MINUTE_ENTITY_UPSERT_SQL
abbrev pub upsert : Configured → List Configured → List Configured
upsert c [] = c ∷ []
upsert c (d ∷ ds) =
    let rest = upsert c ds in
    if str_eq d.entity_id c.entity_id
    then c ∷ ds
    else if is_lt (compare c.entity_id d.entity_id)
    then c ∷ d ∷ ds
    else d ∷ rest

abbrev pub configured : Entry → Configured
configured w = record {
  entity_id = w.entity_id;
  hold = w.hold;
  zero_hold = w.zero_hold;
  filled_until = none;
}

-- STATES_MINUTE_HISTORY_DIRTY_SQL
abbrev pub history : String → Option ℕ → ℕ → List Dirty
history id none now = []
history id (some first) now = record { entity_id = id; from_ts = first; to_ts = now } ∷ []

abbrev pub delete_dirty : String → List Dirty → List Dirty
delete_dirty id ds = filter (λ d. not (str_eq d.entity_id id)) ds

-- the ids of the jobs
abbrev pub sync_jobs : ℕ → List Entry → List ℕ → List ℕ
sync_jobs new_job wanted jobs =
    if not (is_empty wanted) && is_empty jobs
    then new_job ∷ []
    else if is_empty wanted
    then []
    else jobs

module _ {A : Type 0} where
  abbrev pub delete_rows : String → List (MinuteRow A) → List (MinuteRow A)
  delete_rows id rows = filter (λ row. not (str_eq row.entity_id id)) rows

  -- a removed entity; its dirty ranges go with it
  abbrev pub remove : String → Tables A → Tables A
  remove id t = record {
    entities = delete_entity id t.entities;
    dirty = delete_dirty id t.dirty;
    rows = delete_rows id t.rows;
  }

  -- `current.keys() - wanted.keys()`
  abbrev pub remove_unwanted : List Entry → List Configured → Tables A → Tables A
  remove_unwanted wanted [] t = t
  remove_unwanted wanted (c ∷ cs) t =
      remove_unwanted wanted cs
        (if is_some (lookup c.entity_id wanted) then t else remove c.entity_id t)

  abbrev pub refill : Option ℕ → ℕ → Entry → Tables A → Tables A
  refill first now w t = record {
    entities = upsert (configured w) t.entities;
    dirty = delete_dirty w.entity_id t.dirty ++ history w.entity_id first now;
    rows = delete_rows w.entity_id t.rows;
  }

  abbrev pub refill_changed :
      (String → Option ℕ) → ℕ → List Configured → List Entry → Tables A → Tables A
  refill_changed first_ts now current [] t = t
  refill_changed first_ts now current (w ∷ ws) t = refill_changed first_ts now current ws (
      if is_current (find_entity w.entity_id current) w
      then t
      else refill (first_ts w.entity_id) now w t)

  -- sync_minute_rollup
  unfoldable pub sync_minute_rollup :
      (String → Option ℕ) → ℕ → ℕ → List Entry → Tables A × List ℕ → Tables A × List ℕ
  sync_minute_rollup first_ts now new_job entities (t, jobs) =
      let wanted = wanted_of entities in
      (
        refill_changed first_ts now t.entities wanted (remove_unwanted wanted t.entities t),
        sync_jobs new_job wanted jobs,
      )
