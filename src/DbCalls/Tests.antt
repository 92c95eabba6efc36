-- ===== src/DbCalls/Tests.antt =====
-- Calls of two threads, one of them nested.
use ha_timescaledb_recorder.Prelude.{◌≡◌, refl, List, [], ◌∷◌, some}
use ha_timescaledb_recorder.DbCalls.{Event, enter, leave, run, idle, oldest}
use ha_timescaledb_recorder.DbCalls.Outermost.{IsTracked, run_outermost}

abbrev nested_calls : List Event
nested_calls =
    enter 1 "insert_chunk" 10
    ∷ enter 2 "read_watermark" 15
    ∷ enter 1 "dead_letter" 20
    ∷ leave 1
    ∷ []

nested_calls-oldest :
    oldest (run nested_calls idle).calls ≡ some (record { op = "insert_chunk"; started = 10 })
unfolding run oldest
nested_calls-oldest = refl

run_outermost_example : IsTracked (run nested_calls idle)
run_outermost_example = run_outermost nested_calls
