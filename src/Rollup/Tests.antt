-- ===== src/Rollup/Tests.antt =====
-- The rollup of one entity with a few readings.
use ha_timescaledb_recorder.Prelude.{
  ℕ, ◌-◌, ◌/◌, ◌<◌, ◌≡◌, refl, List, [], ◌∷◌, ◌&&◌, arith, Option, none, some, String, ltb, leb,
  min, if◌then◌else◌, is_empty, inl, inr,
}
use text.Mathlib.Text.{◌==◌ as str_eq}
use ha_timescaledb_recorder.Rollup.{
  minute, Reading, Configured, MinuteRow, find_entity, states_minute_refresh, refresh_range,
  summed_rows, integral_of, seconds_of,
}
use ha_timescaledb_recorder.Rollup.Readings.{AreInOrder}
use ha_timescaledb_recorder.Rollup.Rows.{rows_at}
use ha_timescaledb_recorder.Rollup.Refreshed.{counting, reference, states_minute_refresh-reference}
use ha_timescaledb_recorder.Rollup.Job.{Tables, states_minute_job, tails, work_ranges}
use ha_timescaledb_recorder.Rollup.Job.Settled.{IsRight, IsSettled}
use ha_timescaledb_recorder.Rollup.Job.Finished.{
  states_minute_job-IsSettled, states_minute_job-IsRight,
}
use ha_timescaledb_recorder.Rollup.Sync.{Entry, wanted_of, configured, sync_minute_rollup}
use ha_timescaledb_recorder.Rollup.Sync.Views.{view}
use ha_timescaledb_recorder.Rollup.Sync.Refilled.{synced, sync_minute_rollup-synced}
use ha_timescaledb_recorder.Rollup.Sync.Filled.{sync_minute_rollup-states_minute_job}
use ha_timescaledb_recorder.Rollup.Marked.{marks, mark_rollup_dirty}
use ha_timescaledb_recorder.Rollup.Marked.Kept.{mark_rollup_dirty-IsSettled}

-- two ticks before the end of minute 0, for three ticks
abbrev late_reading : Reading ℕ
late_reading = record { last_updated = 59_999_998; value = 5 }

abbrev next_reading : Reading ℕ
next_reading = record { last_updated = 120_000_000; value = 7 }

abbrev readings : String → List (Reading ℕ)
readings id = late_reading ∷ next_reading ∷ []

readings_ordered : (id : String) → AreInOrder (readings id)
readings_ordered id = ((omega arith, tt), (tt, tt))

abbrev meter : Configured
meter = record {
  entity_id = "sensor.power";
  hold = 3;
  zero_hold = none;
  filled_until = some 180_000_000;
}

abbrev new_meter : Configured
new_meter = record { entity_id = "sensor.power"; hold = 3; zero_hold = none; filled_until = none }

abbrev row_of : ℕ → ℕ → ℕ → MinuteRow ℕ
row_of k integral covered = record {
  entity_id = "sensor.power";
  minute_of = k;
  integral = integral;
  covered = covered;
}

refreshed :
    states_minute_refresh counting (meter ∷ []) readings 180_000_000 "sensor.power" 0 180_000_000 []
    ≡ row_of 0 10 2 ∷ row_of 1 5 1 ∷ row_of 2 21 3 ∷ []
unfolding states_minute_refresh refresh_range summed_rows integral_of seconds_of
refreshed = refl

-- the carry-in
refreshed_later :
    states_minute_refresh counting
      (meter ∷ [])
      readings
      180_000_000
      "sensor.power"
      60_000_000
      120_000_000
      []
    ≡ row_of 1 5 1 ∷ []
unfolding states_minute_refresh refresh_range summed_rows integral_of seconds_of
refreshed_later = refl

states_minute_refresh-reference_example :
    rows_at "sensor.power" 1 (
      states_minute_refresh counting
        (meter ∷ [])
        readings
        180_000_000
        "sensor.power"
        60_000_000
        120_000_000
        [])
    ≡ (if str_eq "sensor.power" "sensor.power"
          && leb (60_000_000 / minute) 1
          && ltb 1 (min (120_000_000 / minute) (180_000_000 / minute))
        then reference counting meter (readings "sensor.power") 1
        else [])
states_minute_refresh-reference_example =
    states_minute_refresh-reference counting (meter ∷ []) readings 180_000_000 "sensor.power"
      60_000_000 120_000_000 [] meter "sensor.power" 1 refl (readings_ordered "sensor.power")

-- the first minute of the meter is marked
abbrev tables : Tables ℕ
tables = record {
  entities = meter ∷ [];
  dirty = record { entity_id = "sensor.power"; from_ts = 0; to_ts = 180_000_000 } ∷ [];
  rows = [];
}

tables-IsSettled :
    (j : ℕ) → j < (180_000_000 - 60_000_000) / minute → IsSettled counting readings meter j tables
tables-IsSettled j lt = inr (ground (arith, lt))

abbrev ran : Tables ℕ
ran =
    states_minute_job counting readings 60_000_000 20 0 200_000_000 (λ n. 200_000_000) (λ n. 10)
      tables

states_minute_job-IsSettled_example :
    (find_entity "sensor.power" ran.entities ≡ some meter) × IsSettled counting readings meter 2 ran
states_minute_job-IsSettled_example =
    states_minute_job-IsSettled counting readings 60_000_000 20 0 200_000_000 (λ n. 200_000_000)
      (λ n. 10) tables meter 2 readings_ordered refl (λ n. omega arith) tables-IsSettled
      (omega arith)

states_minute_job-IsRight_example : (ran.dirty ≡ []) × IsRight counting readings meter 2 ran
states_minute_job-IsRight_example =
    states_minute_job-IsRight counting readings 60_000_000 20 0 200_000_000 (λ n. 200_000_000)
      (λ n. 10) tables meter 2 readings_ordered refl (λ n. omega arith) (λ n. omega arith)
      tables-IsSettled (omega arith)

ran_rows : ran.rows ≡ row_of 0 10 2 ∷ row_of 1 5 1 ∷ row_of 2 21 3 ∷ []
unfolding states_minute_job tails work_ranges states_minute_refresh refresh_range summed_rows
    integral_of seconds_of
ran_rows = refl

-- two entries for one entity, and one that is as it was
abbrev entries : List Entry
entries =
    record { entity_id = "sensor.power"; hold = 9; zero_hold = some 2 }
    ∷ record { entity_id = "sensor.heat"; hold = 4; zero_hold = none }
    ∷ record { entity_id = "sensor.power"; hold = 8; zero_hold = none }
    ∷ []

abbrev power : Entry
power = record { entity_id = "sensor.power"; hold = 8; zero_hold = none }

abbrev first_of_all : String → Option ℕ
first_of_all id = some 59_000_000

sync_minute_rollup-synced_example :
    (view "sensor.power" (sync_minute_rollup first_of_all 180_000_000 1000 entries (tables, [])).0
      ≡ synced first_of_all 180_000_000
          (wanted_of entries)
          "sensor.power"
          (view "sensor.power" tables))
    × (is_empty (sync_minute_rollup first_of_all 180_000_000 1000 entries (tables, [])).1
        ≡ is_empty (wanted_of entries))
sync_minute_rollup-synced_example =
    sync_minute_rollup-synced first_of_all 180_000_000 1000 entries tables [] "sensor.power"

sync_entities :
    (sync_minute_rollup first_of_all 180_000_000 1000 entries (tables, [])).0.entities
    ≡ record { entity_id = "sensor.heat"; hold = 4; zero_hold = none; filled_until = none }
      ∷ record { entity_id = "sensor.power"; hold = 8; zero_hold = none; filled_until = none }
      ∷ []
unfolding sync_minute_rollup
sync_entities = refl

abbrev ran_first : Tables ℕ
ran_first =
    states_minute_job counting readings 60_000_000 20 0 200_000_000 (λ n. 200_000_000) (λ n. 10)
      (sync_minute_rollup first_of_all 180_000_000 1000 entries (tables, [])).0

sync_minute_rollup-states_minute_job_example :
    (ran_first.dirty ≡ []) × IsRight counting readings (configured power) 1 ran_first
sync_minute_rollup-states_minute_job_example =
    sync_minute_rollup-states_minute_job counting readings first_of_all 180_000_000 1000 entries
      tables [] "sensor.power" power 60_000_000 20 0 200_000_000 (λ n. 200_000_000) (λ n. 10) 1
      readings_ordered (omega arith, (omega arith, tt)) refl refl (omega arith) (λ n. omega arith)
      (λ n. omega arith) (omega arith)

-- a reading that comes late
abbrev before : String → List (Reading ℕ)
before id = next_reading ∷ []

before_ordered : (id : String) → AreInOrder (before id)
before_ordered id = (tt, tt)

abbrev empty_tables : Tables ℕ
empty_tables = record { entities = meter ∷ []; dirty = []; rows = row_of 2 21 3 ∷ [] }

mark_rollup_dirty-IsSettled_example : IsSettled counting readings meter 0 (
    mark_rollup_dirty 200_000_000
      (some 59_999_998)
      (some 59_999_998)
      (record empty_tables { dirty = tables.dirty }))
mark_rollup_dirty-IsSettled_example =
    mark_rollup_dirty-IsSettled counting before readings 200_000_000 59_999_998 59_999_998
      (some 59_999_998) (record empty_tables { dirty = tables.dirty }) meter 180_000_000 0
      before_ordered readings_ordered (λ id. refl) refl refl (omega arith) (omega arith)
      (refl, inl (omega arith)) (inr refl)

-- The reading still holds for one tick of minute 1, which the range marked does not reach.
late_minute :
    (states_minute_job counting readings 60_000_000 20 0 200_000_000
      (λ n. 200_000_000)
      (λ n. 10)
      (mark_rollup_dirty 200_000_000 (some 59_999_998) (some 59_999_998) empty_tables)).rows
    ≡ row_of 2 21 3 ∷ row_of 0 10 2 ∷ []
unfolding states_minute_job tails work_ranges states_minute_refresh refresh_range summed_rows
    integral_of seconds_of mark_rollup_dirty marks
late_minute = refl

-- A first run later than the lookback after the sync: the reading of minute 2 is in no range.
gap_left :
    (states_minute_job counting readings 60_000_000 20 0 240_000_000
      (λ n. 240_000_000)
      (λ n. 10)
      (sync_minute_rollup first_of_all 60_000_000 1000
        (record { entity_id = "sensor.power"; hold = 3; zero_hold = none } ∷ [])
        (record { entities = []; dirty = []; rows = [] }, [])).0).rows
    ≡ row_of 0 10 2 ∷ []
unfolding states_minute_job tails work_ranges states_minute_refresh refresh_range summed_rows
    integral_of seconds_of sync_minute_rollup
gap_left = refl
