-- ===== src/GapBackfill/Tests.antt =====
-- Runs of backfill_gaps.py on small data.

use ha_timescaledb_recorder.Prelude.{ℕ, ◌≡◌, refl, [], ◌∷◌, false, none, some, arith}
use ha_timescaledb_recorder.StatesWorker.{StateRow}
use ha_timescaledb_recorder.GapBackfill.{Config, Progress, run}
use ha_timescaledb_recorder.GapBackfill.Runs.{Filled, run_fills}

abbrev lamp : StateRow ℕ
lamp = record { entity_id = "light.lamp"; last_updated = 10; content = 1 }

abbrev door : StateRow ℕ
door = record { entity_id = "sensor.door"; last_updated = 25; content = 2 }

abbrev late_lamp : StateRow ℕ
late_lamp = record { entity_id = "light.lamp"; last_updated = 30; content = 0 }

abbrev config : Config ℕ
config = record {
  sqlite = lamp ∷ door ∷ late_lamp ∷ [];
  entities_filter = some ("light.lamp" ∷ "sensor.door" ∷ []);
  bucket = 10;
  batch_size = 1;
  dry_run = false;
  end = 31;
}

abbrev at_first : Progress ℕ
at_first = record {
  states = lamp ∷ [];
  total_scanned = 0;
  total_gaps = 0;
  total_inserted = 0;
  buckets_skipped = 0;
  inserted_from = none;
  inserted_to = none;
}

one_run :
    run 21 config 10 at_first
    ≡ some (record {
      states = lamp ∷ door ∷ late_lamp ∷ [];
      total_scanned = 2;
      total_gaps = 2;
      total_inserted = 2;
      buckets_skipped = 1;
      inserted_from = some 25;
      inserted_to = some 30;
    })
unfolding run
one_run = refl

run_fills_example : Filled config 10 at_first (run 21 config 10 at_first)
run_fills_example =
    run_fills 21 config 10 at_first (refl, (refl, (refl, tt))) (ground arith) (ground arith) refl
      (ground arith)
