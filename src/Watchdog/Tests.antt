-- ===== src/Watchdog/Tests.antt =====
-- Polls of the watchdog.
use ha_timescaledb_recorder.Prelude.{ℕ, ◌≡◌, refl, List, [], ◌∷◌, none, some, true}
use ha_timescaledb_recorder.Watchdog.{Worker, call_in_flight, Poll, run, start}
use ha_timescaledb_recorder.Watchdog.Shown.{IsCurrent, run-IsCurrent}

abbrev busy : Worker
busy = record {
  is_alive = true;
  oldest_call = some ("insert_chunk", 100000);
  backfill_wait_since = none;
  last_op = "flush_live_timeout";
}

abbrev resting : Worker
resting = record { is_alive = true; oldest_call = none; backfill_wait_since = none; last_op = "" }

abbrev poll_at : ℕ → Worker → Poll
poll_at now w = record { now = now; ha_running = true; states = some w; meta = some resting }

-- a call of ten minutes, then of eleven
abbrev polls : List Poll
polls = poll_at 500000 busy ∷ poll_at 700000 busy ∷ poll_at 760000 busy ∷ []

polls_shown :
    (run polls start).shown ≡ some (call_in_flight "insert_chunk" 600000 "flush_live_timeout" ∷ [])
unfolding run
polls_shown = refl

run-IsCurrent_example : IsCurrent (poll_at 800000 resting) (run polls start)
run-IsCurrent_example = run-IsCurrent polls (poll_at 800000 resting)
