-- ===== src/Rollup/Marked.antt =====
-- Rows written behind the frontier of the rollup: STATES_MINUTE_MARK_DIRTY_SQL of
-- custom_components/timescaledb_recorder/const.py, and mark_rollup_dirty of backfill_gaps.py.
pub mod Outside
pub mod Kept
use mathlib.Core.Option.{some-injective}
use text.Mathlib.Text.{◌==◌ as str_eq}
use ha_timescaledb_recorder.Prelude.{
  ℕ, ◌+◌, ◌*◌, ◌/◌, ◌≤◌, ◌<◌, ◌≡◌, refl, sym, ap, ◌∙◌, subst, List, [], ◌∷◌, ◌++◌, Bool, true, ◌||◌,
  arith, Option, none, some, String, filter, any-append, ltb, leb, min, if◌then◌else◌, Bool-cases,
  inl, inr, ◌⊎◌, All, All-map,
}
use ha_timescaledb_recorder.Rollup.{minute, Amount, Reading, Configured, longest_hold, find_entity}
use ha_timescaledb_recorder.Rollup.Sums.{sum_over-cong}
use ha_timescaledb_recorder.Rollup.Readings.{AreInOrder, or_first, latest, held}
use ha_timescaledb_recorder.Rollup.CarryIn.{longest_of, or_first_later}
use ha_timescaledb_recorder.Rollup.Rows.{text-≡, text_refl}
use ha_timescaledb_recorder.Rollup.Refreshed.{counting, reference, held_minute}
use ha_timescaledb_recorder.Rollup.Job.{Dirty, Tables}
use ha_timescaledb_recorder.Rollup.Job.Ranges.{covers, is_dirty}
use ha_timescaledb_recorder.Rollup.Job.Settled.{IsSettled}

-- LEAST(now(), COALESCE(to + hold, now()))
abbrev pub mark_end : ℕ → Option ℕ → Configured → ℕ
mark_end now none c = now
mark_end now (some to) c = min now (to + longest_hold c)

-- the ranges that STATES_MINUTE_MARK_DIRTY_SQL adds
unfoldable pub marks : ℕ → ℕ → Option ℕ → List Configured → List Dirty
marks now from to [] = []
marks now from to (c ∷ cs) =
    let rest = marks now from to cs in
    elim c.filled_until [
      | none ↦ rest
      | some f ↦
          if ltb from f
          then record { entity_id = c.entity_id; from_ts = from; to_ts = mark_end now to c } ∷ rest
          else rest
    ]

-- mark_rollup_dirty, where the tables exist
unfoldable pub mark_rollup_dirty : {A : Type 0} → ℕ → Option ℕ → Option ℕ → Tables A → Tables A
unfolding marks
mark_rollup_dirty now none to t = t
mark_rollup_dirty now (some from) to t = record t {
  dirty = t.dirty ++ marks now from to t.entities;
}
