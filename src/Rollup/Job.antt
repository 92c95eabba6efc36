-- ===== src/Rollup/Job.antt =====
-- The job of the per-minute rollup, STATES_MINUTE_JOB_PROC_SQL of
-- custom_components/timescaledb_recorder/const.py, with the ranges that it works through. `clock n` is
-- the clock at the refresh `n`, and `ended n` the one behind it. A time before 0 is 0.
pub mod Ranges
pub mod Settled
pub mod Runs
pub mod Finished
use text.Mathlib.Text.{◌==◌ as str_eq}
use ha_timescaledb_recorder.Prelude.{
  ℕ, zero, suc, ◌+◌, ◌-◌, ◌*◌, ◌/◌, List, [], ◌∷◌, ◌++◌, Bool, true, false, ◌&&◌, Option, none,
  some, String, ltb, leb, ◌==◌, min, max, map, if◌then◌else◌, length,
}
use ha_timescaledb_recorder.Rollup.{
  minute, Amount, Reading, Configured, MinuteRow, longest_hold, find_entity, states_minute_refresh,
}

abbrev pub day : ℕ
day = 86_400_000_000

-- states_minute_dirty, without its id: the list is in the order of the ids
pub record Dirty : Type 0 where
  pub entity_id : String
  pub from_ts : ℕ
  pub to_ts : ℕ

-- the three tables
pub record Tables (A : Type 0) : Type 0 where
  pub entities : List Configured
  pub dirty : List Dirty
  pub rows : List (MinuteRow A)

-- max(to_ts)
abbrev pub newest_end : List Dirty → ℕ
newest_end [] = 0
newest_end (d ∷ ds) = max d.to_ts (newest_end ds)

-- the first range that ends at `end`: ORDER BY to_ts DESC, id LIMIT 1
abbrev pub range_to : ℕ → List Dirty → Option Dirty
range_to end [] = none
range_to end (d ∷ ds) = if d.to_ts == end then some d else range_to end ds

-- `rest` in the place of that range
abbrev pub replace_range : ℕ → List Dirty → List Dirty → List Dirty
replace_range end rest [] = []
replace_range end rest (d ∷ ds) =
    let others = replace_range end rest ds in if d.to_ts == end then rest ++ ds else d ∷ others

abbrev pub fill_until : String → ℕ → List Configured → List Configured
fill_until id end [] = []
fill_until id end (c ∷ cs) =
    (if str_eq c.entity_id id then record c { filled_until = some end } else c)
    ∷ fill_until id end cs

-- COALESCE(v_frontier, v_end)
abbrev pub frontier_or : ℕ → Option ℕ → ℕ
frontier_or end none = end
frontier_or end (some f) = f

-- bounds the units of one day
abbrev pub days : Dirty → ℕ
days d = suc ((d.to_ts - d.from_ts) / day)

abbrev pub all_days : List Dirty → ℕ
all_days [] = 0
all_days (d ∷ ds) = days d + all_days ds

-- v_ids: the entities are in the order of their ids
abbrev pub ids_of : List Configured → List String
ids_of cs = map (λ c. c.entity_id) cs

module _ {A : Type 0} (am : Amount A) (states : String → List (Reading A)) where
  -- the tail of an entity that is found
  abbrev pub tail_of : ℕ → ℕ → ℕ → String → Configured → Tables A → Tables A
  tail_of lookback end now id c t =
      let from = frontier_or end c.filled_until - lookback in
      let behind = ltb from (end - day) in
      record {
        entities = fill_until id end t.entities;
        dirty =
            (if behind
              then t.dirty ++ record { entity_id = id; from_ts = from; to_ts = end - day } ∷ []
              else t.dirty);
        rows =
            states_minute_refresh am t.entities states now id (if behind then end - day else from)
              end t.rows;
      }

  abbrev pub tail_entity : ℕ → ℕ → ℕ → String → Tables A → Tables A
  tail_entity lookback end now id t = elim (find_entity id t.entities) [
    | none ↦ t
    | some c ↦ tail_of lookback end now id c t
  ]

  unfoldable pub tails : ℕ → ℕ → (ℕ → ℕ) → ℕ → List String → Tables A → Tables A
  tails lookback end clock n [] t = t
  tails lookback end clock n (id ∷ ids) t =
      tails lookback end clock (suc n) ids (tail_entity lookback end (clock n) id t)

  -- one day of a range
  abbrev pub range_unit : ℕ → Dirty → Tables A → Tables A
  range_unit now d t =
      let from = max d.from_ts (d.to_ts - day) in
      record t {
        dirty =
            replace_range (newest_end t.dirty)
              (if leb from d.from_ts then [] else record d { to_ts = from } ∷ []) t.dirty;
        rows = states_minute_refresh am t.entities states now d.entity_id from d.to_ts t.rows;
      }

  -- the second loop; `fuel` bounds the units
  unfoldable pub work_ranges : ℕ → ℕ → (ℕ → ℕ) → (ℕ → ℕ) → ℕ → ℕ → Tables A → Tables A
  work_ranges budget started clock ended zero n t = t
  work_ranges budget started clock ended (suc fuel) n t =
      elim (range_to (newest_end t.dirty) t.dirty) [
        | none ↦ t
        | some d ↦
            let worked = range_unit (clock n) d t in
            let rest = work_ranges budget started clock ended fuel (suc n) worked in
            if ltb budget (ended n - started) then worked else rest
      ]

  -- STATES_MINUTE_JOB_PROC_SQL
  unfoldable pub states_minute_job : ℕ → ℕ → ℕ → ℕ → (ℕ → ℕ) → (ℕ → ℕ) → Tables A → Tables A
  unfolding tails work_ranges
  states_minute_job lookback budget started now clock ended t =
      let ids = ids_of t.entities in
      let tailed = tails lookback (now / minute * minute) clock 0 ids t in
      work_ranges budget started clock ended (all_days tailed.dirty) (length ids) tailed
