-- ===== src/RegistryListener/Tests.antt =====
-- Runs of the drain task.
use ha_timescaledb_recorder.Prelude.{ℕ, ◌≡◌, refl, true, false, List, [], ◌∷◌}
use ha_timescaledb_recorder.RegistryListener.{
  wrote, raised, Event, item, snapshot, wake, append_ends, resume, stop, run, start, cancelled,
  is_running,
}
use ha_timescaledb_recorder.RegistryListener.Stored.{kept}
use ha_timescaledb_recorder.RegistryListener.Shutdown.{finish, shutdown_delivers}
use ha_timescaledb_recorder.RegistryListener.Delivery.{IsDelivering, run_delivers}

-- one failed append, a retry that is in flight when the shutdown comes, and a last event
abbrev stopped_in_flight : List (Event ℕ)
stopped_in_flight =
    item 1
    ∷ wake
    ∷ item 2
    ∷ append_ends (raised 1)
    ∷ resume wrote
    ∷ wake
    ∷ wake
    ∷ item 3
    ∷ stop
    ∷ append_ends wrote
    ∷ wake
    ∷ append_ends (raised 0)
    ∷ resume wrote
    ∷ []

stopped_in_flight_stored :
    (run start stopped_in_flight).listener.stored
    ≡ (false, 1) ∷ (true, 1) ∷ (true, 2) ∷ (true, 3) ∷ []
unfolding run start
stopped_in_flight_stored = refl

run_delivers_example : IsDelivering (run start stopped_in_flight)
run_delivers_example = run_delivers stopped_in_flight

-- the drainer is cancelled while its append runs, which then fails
abbrev cut_off : List (Event ℕ)
cut_off = snapshot (1 ∷ 2 ∷ []) ∷ wake ∷ item 3 ∷ stop ∷ append_ends (raised 0) ∷ []

cut_off-cancelled : (run start cut_off).phase ≡ cancelled
unfolding run start
cut_off-cancelled = refl

cut_off-ended : is_running (run start cut_off).listener.inflight ≡ false
unfolding run start
cut_off-ended = refl

shutdown_delivers_example :
    kept (run (run start cut_off) (finish (raised 1) wrote)).listener.stored
    ≡ (run (run start cut_off) (finish (raised 1) wrote)).produced
shutdown_delivers_example =
    shutdown_delivers cut_off (raised 1) wrote cut_off-cancelled cut_off-ended refl
