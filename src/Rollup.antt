-- ===== src/Rollup.antt =====
-- The per-minute rollup: the statements of custom_components/timescaledb_recorder/const.py on
-- states_minute, with the function and the job that they put into the database. Times,
-- holds and covered seconds are microseconds, and a minute is the number of minutes before it. Readings
-- are added without rounding.
pub mod Sums
pub mod Readings
pub mod CarryIn
pub mod Rows
pub mod Refreshed
pub mod Job
pub mod Sync
pub mod Marked
mod Tests
use text.Mathlib.Text.{◌==◌ as str_eq}
use ha_timescaledb_recorder.Prelude.{
  ℕ, zero, suc, ◌+◌, ◌-◌, ◌*◌, ◌/◌, List, [], ◌∷◌, ◌++◌, Bool, true, false, not, ◌&&◌, ◌||◌, Option,
  none, some, String, ltb, leb, ◌==◌, min, max, filter, any, if◌then◌else◌, ◌≡◌,
}

abbrev pub minute : ℕ
minute = 60_000_000

-- What a reading is measured in.
pub record Amount (A : Type 0) : Type 0 where
  pub none_of : A
  pub plus : A → A → A
  pub is_zero : A → Bool
  pub plus_assoc : (a b c : A) → plus (plus a b) c ≡ plus a (plus b c)
  pub plus_comm : (a b : A) → plus a b ≡ plus b a
  pub plus-none_of : (a : A) → plus a none_of ≡ a

-- a numeric reading of one entity
pub record Reading (A : Type 0) : Type 0 where
  pub last_updated : ℕ
  pub value : A

-- states_minute_entities
pub record Configured : Type 0 where
  pub entity_id : String
  pub hold : ℕ
  pub zero_hold : Option ℕ
  pub filled_until : Option ℕ

-- states_minute
pub record MinuteRow (A : Type 0) : Type 0 where
  pub entity_id : String
  pub minute_of : ℕ
  pub integral : A
  pub covered : ℕ

-- from `t0` on until `t1`
pub record Segment (A : Type 0) : Type 0 where
  pub t0 : ℕ
  pub t1 : ℕ
  pub value : A

abbrev pub longest_hold : Configured → ℕ
longest_hold c = elim c.zero_hold [ none ↦ c.hold | some z ↦ max c.hold z ]

abbrev pub find_entity : String → List Configured → Option Configured
find_entity id [] = none
find_entity id (c ∷ cs) = if str_eq c.entity_id id then some c else find_entity id cs

module _ {A : Type 0} (am : Amount A) where
  abbrev pub hold_of : Configured → A → ℕ
  hold_of c v = elim c.zero_hold [ none ↦ c.hold | some z ↦ if am.is_zero v then z else c.hold ]

  -- `seg`
  abbrev pub segments : Configured → ℕ → List (Reading A) → List (Segment A)
  segments c to [] = []
  segments c to (r ∷ []) =
      record {
        t0 = r.last_updated;
        t1 = min (min to (r.last_updated + hold_of c r.value)) to;
        value = r.value;
      }
      ∷ []
  segments c to (r ∷ s ∷ rs) =
      record {
        t0 = r.last_updated;
        t1 = min (min s.last_updated (r.last_updated + hold_of c r.value)) to;
        value = r.value;
      }
      ∷ segments c to (s ∷ rs)

  -- the seconds of a slice, in ticks; 0 where `generate_series` does not give the minute
  abbrev pub slice : ℕ → ℕ → Segment A → ℕ
  slice from k seg =
      if ltb seg.t0 seg.t1 && leb (max (seg.t0 / minute) from) k && leb k ((seg.t1 - 1) / minute)
      then min seg.t1 ((k + 1) * minute) - max seg.t0 (k * minute)
      else 0

  abbrev pub times : ℕ → A → A
  times zero v = am.none_of
  times (suc n) v = am.plus v (times n v)

  -- SUM(value * secs), SUM(secs)
  pub integral_of : ℕ → ℕ → List (Segment A) → A
  integral_of from k [] = am.none_of
  integral_of from k (seg ∷ segs) =
      am.plus (times (slice from k seg) seg.value) (integral_of from k segs)

  pub seconds_of : ℕ → ℕ → List (Segment A) → ℕ
  seconds_of from k [] = 0
  seconds_of from k (seg ∷ segs) = slice from k seg + seconds_of from k segs

module _ {A : Type 0} where
  abbrev pub last_reading : List (Reading A) → List (Reading A)
  last_reading [] = []
  last_reading (r ∷ []) = r ∷ []
  last_reading (r ∷ s ∷ rs) = last_reading (s ∷ rs)

  -- the carry-in: ORDER BY last_updated DESC LIMIT 1
  abbrev pub carry_in : Configured → ℕ → List (Reading A) → List (Reading A)
  carry_in c from readings =
      last_reading (
        filter (λ r. ltb r.last_updated from && leb from (r.last_updated + longest_hold c))
          readings)

  -- `pts`
  abbrev pub points : Configured → ℕ → ℕ → List (Reading A) → List (Reading A)
  points c from to readings =
      carry_in c from readings
      ++ filter (λ r. leb from r.last_updated && ltb r.last_updated to) readings

  abbrev pub in_range : String → ℕ → ℕ → MinuteRow A → Bool
  in_range id from to row =
      str_eq row.entity_id id && leb from row.minute_of && ltb row.minute_of to

  -- `n` minutes from minute `k` on
  pub summed_rows : Amount A → String → ℕ → List (Segment A) → ℕ → ℕ → List (MinuteRow A)
  unfolding integral_of seconds_of
  summed_rows am id from segs k zero = []
  summed_rows am id from segs k (suc n) =
      let rest = summed_rows am id from segs (suc k) n in
      if ltb 0 (seconds_of am from k segs)
      then record {
        entity_id = id;
        minute_of = k;
        integral = integral_of am from k segs;
        covered = seconds_of am from k segs;
      }
        ∷ rest
      else rest

  -- STATES_MINUTE_REFRESH_FN_SQL behind its first select
  pub refresh_range :
      Amount A → Configured → List (Reading A) → ℕ → ℕ → List (MinuteRow A) → List (MinuteRow A)
  unfolding summed_rows
  refresh_range am c readings from to rows =
      let segs = segments am c (to * minute) (points c (from * minute) (to * minute) readings) in
      if leb to from
      then rows
      else filter (λ row. not (in_range c.entity_id from to row)) rows
        ++ summed_rows am c.entity_id from segs from (to - from)

  -- STATES_MINUTE_REFRESH_FN_SQL; `now` is the clock
  pub states_minute_refresh :
      Amount A
      → List Configured
      → (String → List (Reading A))
      → ℕ
      → String
      → ℕ
      → ℕ
      → List (MinuteRow A)
      → List (MinuteRow A)
  unfolding refresh_range
  states_minute_refresh am entities states now id from to rows = elim (find_entity id entities) [
    | none ↦ rows
    | some c ↦
        refresh_range am c (states id) (from / minute) (min (to / minute) (now / minute)) rows
  ]
