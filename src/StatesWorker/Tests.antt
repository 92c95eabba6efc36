-- ===== src/StatesWorker/Tests.antt =====
-- Runs of the main loop.
use ha_timescaledb_recorder.Prelude.{ℕ, ◌≡◌, refl, true, false, Bool, List, [], ◌∷◌, ◌++◌, String}
use ha_timescaledb_recorder.StatesWorker.{
  StateRow, Turn, nothing_yet, backfill_done, slice, timed_out, state_row, insert, insert_live, run,
  start,
}
use ha_timescaledb_recorder.StatesWorker.Delivery.{delivered, taken_all, run_delivers_rows}
use ha_timescaledb_recorder.StatesWorker.Bounded.{IsBounded, run_bounds}

abbrev sample : String → ℕ → StateRow ℕ
sample id at = record { entity_id = id; last_updated = at; content = 0 }

abbrev every : String → Bool
every id = true

-- a backfill of one slice, two live rows, and a timeout
abbrev morning : List (Turn ℕ)
morning =
    record { overflowed = false; backfill_item = nothing_yet; live_item = timed_out; now = 10 }
    ∷ record {
      overflowed = false;
      backfill_item = slice ((sample "a" 7 ∷ sample "a" 9 ∷ []) ∷ (sample "b" 8 ∷ []) ∷ []);
      live_item = timed_out;
      now = 20;
    }
    ∷ record {
      overflowed = false;
      backfill_item = backfill_done true;
      live_item = timed_out;
      now = 30;
    }
    ∷ record {
      overflowed = false;
      backfill_item = nothing_yet;
      live_item = state_row (sample "b" 31);
      now = 31;
    }
    ∷ record {
      overflowed = false;
      backfill_item = nothing_yet;
      live_item = state_row (sample "a" 32);
      now = 32;
    }
    ∷ record { overflowed = false; backfill_item = nothing_yet; live_item = timed_out; now = 5032 }
    ∷ []

morning_written :
    (run every morning (start 0)).written
    ≡ (insert, sample "a" 7 ∷ sample "b" 8 ∷ sample "a" 9 ∷ [])
      ∷ (insert_live, sample "b" 31 ∷ sample "a" 32 ∷ [])
      ∷ []
unfolding run
morning_written = refl

morning_marked : (run every morning (start 0)).marked_dirty ≡ 7 ∷ []
unfolding run
morning_marked = refl

run_delivers_rows_example :
    delivered (run every morning (start 0))
    ≡ delivered (start 0) ++ taken_all every morning (start 0)
run_delivers_rows_example = run_delivers_rows every morning (start 0)

run_bounds_example : IsBounded (run every morning (start 0))
run_bounds_example = run_bounds every 0 morning
