-- ===== src/Retry/Tests.antt =====
-- The wrapper on concrete outages.
use ha_timescaledb_recorder.Prelude.{
  ℕ, ◌≤◌, ◌≡◌, refl, true, false, List, [], ◌∷◌, ◌++◌, arith, inr,
}
use ha_timescaledb_recorder.Retry.Errors.{Error, is_transient}
use ha_timescaledb_recorder.Retry.{
  Config, initial, gives, Attempt, success, failure, Outcome, returned, run, round,
}
use ha_timescaledb_recorder.Retry.Hooks.{Fits, run_hooks, sustains, recoveries}
use ha_timescaledb_recorder.Retry.Giving.{EndsExplained, tried, gives_up_on_poison}
use ha_timescaledb_recorder.Retry.Persisting.{outlasts, short_outage_not_cleared}

abbrev lost_connection : Error
lost_connection = record {
  program_limit_exceeded = false;
  operational_error = true;
  interface_error = false;
  os_error = false;
  read_only_sql_transaction = false;
  insufficient_privilege = false;
  internal_error = false;
}

abbrev bad_input : Error
bad_input = record lost_connection { operational_error = false }

-- the wrapper of `_insert_chunk`
abbrev insert_chunk : Config
insert_chunk = record {
  has_on_transient = true;
  has_notify_stall = true;
  has_on_recovery = true;
  has_on_sustained_fail = true;
  has_on_poison = true;
  sustained_fail_seconds = 300;
  backoff_schedule = 1 ∷ 5 ∷ 10 ∷ 30 ∷ 60 ∷ [];
  stall_threshold = 5;
  poison_max_attempts = 3;
  poison_min_seconds = 60;
}

abbrev poison_input : List (Attempt ℕ)
poison_input =
    failure lost_connection 1 (gives 7) false
    ∷ failure bad_input 2 (gives 7) false
    ∷ failure bad_input 10 (gives 7) false
    ∷ failure bad_input 62 (gives 7) false
    ∷ []

poison_given_up : (run insert_chunk poison_input initial).outcome ≡ Outcome.poisoned 7
unfolding run round is_transient
poison_given_up = refl

run_hooks_example : Fits insert_chunk (run insert_chunk poison_input initial)
run_hooks_example = run_hooks insert_chunk poison_input

gives_up_on_poison_example :
    EndsExplained insert_chunk
      (run insert_chunk poison_input initial).outcome
      (tried insert_chunk poison_input initial [])
gives_up_on_poison_example = gives_up_on_poison insert_chunk poison_input

abbrev outage : List (Attempt ℕ)
outage = failure lost_connection 1 (gives 7) false ∷ []

outlasts_example : (run insert_chunk (outage ++ success 4 ∷ []) initial).outcome ≡ returned 4
unfolding is_transient
outlasts_example = outlasts insert_chunk outage 4 initial ((refl, inr refl), tt)

abbrev two_timeouts : List (Attempt ℕ)
two_timeouts =
    failure lost_connection 10 (gives 7) false
    ∷ failure lost_connection 311 (gives 7) false
    ∷ success 4
    ∷ []

short_outage_not_cleared_example :
    let r = run insert_chunk two_timeouts initial in
    (r.outcome ≡ returned 4) × (1 ≤ sustains r.state.calls) × (recoveries r.state.calls ≡ 0)
unfolding is_transient
short_outage_not_cleared_example =
    short_outage_not_cleared insert_chunk lost_connection lost_connection 10 311 (gives 7) (gives 7)
      4 refl refl refl (omega arith) (omega arith) (omega arith)
