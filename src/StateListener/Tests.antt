-- ===== src/StateListener/Tests.antt =====
-- A listener before a queue of two places.
use ha_timescaledb_recorder.Prelude.{
  ℕ, ◌≡◌, refl, List, [], ◌∷◌, Bool, false, not, none, some, String, length, ◌+◌,
}
use text.Mathlib.Text.{◌==◌ as str_eq}
use ha_timescaledb_recorder.OverflowQueue.{init, put_nowait, try_put, settle, note_peak, note_drop}
use ha_timescaledb_recorder.StateListener.{
  State, from_state, StateListener, Call, async_start, state_changed, stop, handle_state_changed,
  notify, step, run,
}
use ha_timescaledb_recorder.StateListener.Heard.{within, rows_heard, run_hears}

abbrev state_of : String → ℕ → State ℕ
state_of id t = record {
  entity_id = id;
  state = "on";
  attributes = 0;
  last_updated = t;
  last_changed = t;
}

abbrev accepts : String → Bool
accepts id = not (str_eq id "sun.sun")

abbrev calls : List (Call ℕ)
calls =
    state_changed (some (state_of "light.hall" 1))
    ∷ async_start
    ∷ state_changed (some (state_of "light.hall" 2))
    ∷ state_changed (some (state_of "sun.sun" 3))
    ∷ state_changed none
    ∷ state_changed (some (state_of "light.bath" 4))
    ∷ state_changed (some (state_of "light.hall" 5))
    ∷ stop
    ∷ state_changed (some (state_of "light.hall" 6))
    ∷ async_start
    ∷ async_start
    ∷ stop
    ∷ state_changed (some (state_of "light.hall" 7))
    ∷ []

abbrev heard : StateListener ℕ
heard = run accepts calls (record { subscriptions = 0; is_held = false; queue = init 2 })

two_kept :
    heard.queue.items
    ≡ from_state (state_of "light.hall" 2) ∷ from_state (state_of "light.bath" 4) ∷ []
unfolding run step notify handle_state_changed put_nowait try_put settle note_peak note_drop init
two_kept = refl

-- four rows passed the filter; the last by the subscription that no stop ended
four_rows : heard.queue.dropped ≡ 2
unfolding run step notify handle_state_changed put_nowait try_put settle note_peak note_drop init
four_rows = refl

run_hears_example :
    (heard.queue.items ≡ within 2 (rows_heard accepts 0 false calls))
    × (heard.queue.dropped + length heard.queue.items ≡ length (rows_heard accepts 0 false calls))
run_hears_example = run_hears accepts 2 calls
