-- ===== src/Backfill.antt =====
-- custom_components/timescaledb_recorder/backfill.py: one cycle of the orchestrator, from the request
-- to the sentinel. Times are microseconds, as in
-- `datetime`. What the recorder returns for a window is a parameter, and so are
-- the readers of the worker, the entity filter and the stop event.
pub mod Covered
mod Tests
use ha_timescaledb_recorder.Prelude.{
  ℕ, zero, suc, ◌+◌, ◌-◌, ◌/◌, ◌∷◌, [], List, ◌++◌, Bool, true, false, Option, none, some, String,
  ltb, min, is_empty, if◌then◌else◌,
}

abbrev pub slice_window : ℕ
slice_window = 300000000

abbrev pub late_arrival_grace : ℕ
late_arrival_grace = 600000000

-- What the stop event does around a slice that starts at a given time.
pub data Signal : Type 0 where
  quiet : Signal
  stop_seen : Signal  -- by the condition of the `while`
  stop_in_sleep : Signal  -- by the wait for the commit lag

-- What the orchestrator puts on the backfill queue.
pub data Item (R : Type 0) : Type 0 where
  fetched : ℕ → ℕ → R → Item R  -- the window [start, end) and the recorder's rows for it
  done : Item R

pub record Gap : Type 0 where
  pub window_start : ℕ
  pub window_end : ℕ
  pub duration_minutes : ℕ

pub record Environment (R : Type 0) : Type 0 where
  pub t_clear : ℕ
  pub watermark : Option ℕ
  pub oldest_ts : Option ℕ  -- `none`: the recorder has not loaded it
  pub known_entities : List String
  pub live_entities : List String
  pub entity_filter : String → Bool
  pub signal : ℕ → Signal
  pub fetch_slice : List String → ℕ → ℕ → R

-- what a cycle does: its puts, and `notify_backfill_gap`
pub record Cycle (R : Type 0) : Type 0 where
  pub puts : List (Item R)
  pub gap : Option Gap

-- `from_` and the gap, from the watermark less the grace
pub detect_gap : Option ℕ → ℕ → ℕ × Option Gap
detect_gap none from = (from, none)
detect_gap (some oldest) from =
    if ltb from oldest
    then (
      oldest,
      some (record {
        window_start = from;
        window_end = oldest;
        duration_minutes = (oldest - from) / 60000000;
      }),
    )
    else (from, none)

abbrev selected : (String → Bool) → List String → List String
selected keep [] = []
selected keep (e ∷ es) = if keep e then e ∷ selected keep es else selected keep es

module _ {R : Type 0} where
  -- the union, in some order and with repetitions that the recorder ignores
  pub entities_of : Environment R → List String
  entities_of env = selected env.entity_filter (env.known_entities ++ env.live_entities)

  abbrev pub slice_end : Environment R → ℕ → ℕ
  slice_end env start = min (start + slice_window) env.t_clear

  abbrev one_slice : Environment R → List String → ℕ → List (Item R) → Signal → List (Item R)
  one_slice env es start rest quiet =
      fetched start (slice_end env start) (env.fetch_slice es start (slice_end env start)) ∷ rest
  one_slice env es start rest stop_seen = done ∷ []
  one_slice env es start rest stop_in_sleep = []

  -- the inner `while`, on fuel, and the sentinel after it
  pub slices : ℕ → Environment R → List String → ℕ → List (Item R)
  slices zero env es start = if ltb start env.t_clear then [] else done ∷ []
  slices (suc fuel) env es start =
      let rest = slices fuel env es (slice_end env start) in
      if ltb start env.t_clear then one_slice env es start rest (env.signal start) else done ∷ []

  -- every slice takes a tick at least
  abbrev from_entities : Environment R → List String → ℕ → Option Gap → Cycle R
  from_entities env es start gap =
      if is_empty es
      then record { puts = done ∷ []; gap = gap }
      else record { puts = slices (env.t_clear - start) env es start; gap = gap }

  abbrev from_watermark : Environment R → Option ℕ → Cycle R
  from_watermark env none = record { puts = done ∷ []; gap = none }
  from_watermark env (some wm) =
      let (start, gap) = detect_gap env.oldest_ts (wm - late_arrival_grace) in
      from_entities env (entities_of env) start gap

  -- one pass of the outer `while`
  pub cycle : Environment R → Cycle R
  unfolding detect_gap entities_of slices
  cycle env = from_watermark env env.watermark
