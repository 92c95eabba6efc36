-- ===== src/Retry.antt =====
-- custom_components/timescaledb_recorder/retry.py: the wrapper that calls a function until it
-- succeeds. The function, the clock, the hooks and the stop event are the environment: each call of
-- the function is an `Attempt`, with all that the wrapper sees of it. Times are monotonic ticks.
pub mod Errors
pub mod Persisting
pub mod Hooks
pub mod Giving
mod Tests
use ha_timescaledb_recorder.Prelude.{
  ℕ, suc, ◌+◌, ◌-◌, min, Bool, true, false, not, ◌&&◌, ◌||◌, Option, none, some, List, [], ◌∷◌,
  ◌++◌, leb, ltb, length, get_or, if◌then◌else◌,
}
use Errors.{Error, is_transient}

-- The arguments of `retry_until_success`; a hook is there or not.
pub record Config : Type 0 where
  pub has_on_transient : Bool
  pub has_notify_stall : Bool
  pub has_on_recovery : Bool
  pub has_on_sustained_fail : Bool
  pub has_on_poison : Bool
  pub sustained_fail_seconds : ℕ
  pub backoff_schedule : List ℕ
  pub stall_threshold : ℕ
  pub poison_max_attempts : ℕ
  pub poison_min_seconds : ℕ

-- The hooks in the order in which they are called.
pub data Hook : Type 0 where
  on_transient : Hook
  notify_stall : ℕ → Hook
  on_recovery : Hook
  on_sustained_fail : Hook
  on_poison : Hook

-- The local variables of `wrapper`.
pub record State : Type 0 where
  pub attempts : ℕ
  pub notified : Bool
  pub stalled : Bool
  pub first_fail_ts : Option ℕ
  pub sustained_notified : Bool
  pub poison_attempts : ℕ
  pub first_poison_ts : Option ℕ
  pub vetoed : Bool
  pub calls : List Hook  -- what has been called so far

abbrev pub initial : State
initial = record {
  attempts = 0;
  notified = false;
  stalled = false;
  first_fail_ts = none;
  sustained_notified = false;
  poison_attempts = 0;
  first_poison_ts = none;
  vetoed = false;
  calls = [];
}

-- How a call of `on_poison` would end.
pub data Poison (A : Type 0) : Type 0 where
  gives : A → Poison A
  not_poison : Poison A
  raises : Error → Poison A

-- A call of the function: a result, or an error with the clock read after it, what `on_poison` would
-- do with it, and whether the stop event is set by the end of the backoff.
pub data Attempt (A : Type 0) : Type 0 where
  success : A → Attempt A
  failure : Error → ℕ → Poison A → Bool → Attempt A

pub data Outcome (A : Type 0) : Type 0 where
  returned : A → Outcome A  -- the function's result
  poisoned : A → Outcome A  -- the result of `on_poison`
  raised : Error → Outcome A  -- an error of `on_poison`
  interrupted : Outcome A  -- `None`, on shutdown
  waiting : ℕ → Outcome A  -- in the backoff before the next call

abbrev call : Bool → Hook → State → State
call there h s = record s { calls = if there then s.calls ++ h ∷ [] else s.calls }

-- `now - start >= seconds`, where `start` may be `None`
abbrev pub elapsed : Option ℕ → ℕ → ℕ → Bool
elapsed none now seconds = false
elapsed (some start) now seconds = leb (start + seconds) now

abbrev pub or_now : Option ℕ → ℕ → Option ℕ
or_now none now = some now
or_now (some t) now = some t

-- The bookkeeping of a failure, up to the call of `on_transient`.
pub record_failure : Config → Error → ℕ → State → State
record_failure c e now s =
    let transient = is_transient e in
    call c.has_on_transient on_transient (record s {
      attempts = s.attempts + 1;
      poison_attempts = if transient then 0 else s.poison_attempts + 1;
      first_poison_ts = if transient then none else or_now s.first_poison_ts now;
      first_fail_ts = or_now s.first_fail_ts now;
    })

-- the condition on which `on_poison` is asked
pub poison_due : Config → ℕ → State → Bool
poison_due c now s =
    c.has_on_poison
    && leb c.poison_max_attempts s.poison_attempts
    && elapsed s.first_poison_ts now c.poison_min_seconds

-- `except NotPoison`
pub veto : State → State
veto s = record s { vetoed = true; poison_attempts = 0; first_poison_ts = none }

pub poison_pending : Config → State → Bool
poison_pending c s = c.has_on_poison && ltb 0 s.poison_attempts && not s.vetoed

pub notify : Config → State → State
unfolding poison_pending
notify c s =
    if not s.notified && not (poison_pending c s) && leb c.stall_threshold s.attempts
    then record (call c.has_notify_stall (notify_stall s.attempts) s) {
      notified = true;
      stalled = true;
    }
    else s

pub sustained : Config → ℕ → State → State
sustained c now s =
    if not s.sustained_notified
      && c.has_on_sustained_fail
      && elapsed s.first_fail_ts now c.sustained_fail_seconds
    then record (call true on_sustained_fail s) { sustained_notified = true }
    else s

-- `backoff_schedule[min(attempts - 1, len(backoff_schedule) - 1)]`
pub backoff : Config → State → ℕ
backoff c s = get_or c.backoff_schedule (min (s.attempts - 1) (length c.backoff_schedule - 1)) 0

-- the hook that ends a stall
pub recover : Config → State → State
recover c s = call (s.stalled && c.has_on_recovery) on_recovery s

pub record Ended (A : Type 0) : Type 0 where
  pub outcome : Outcome A
  pub state : State

module _ {A : Type 0} where
  -- A failure from the stall notification on, to the end of the backoff.
  pub keep_trying : Config → ℕ → Bool → State → Ended A
  unfolding notify sustained backoff
  keep_trying c now stop s =
      let t = sustained c now (notify c s) in
      record { outcome = if stop then interrupted else waiting (backoff c t); state = t }

  abbrev ask_poison : Config → ℕ → Bool → Poison A → State → Ended A
  ask_poison c now stop (gives a) s = record {
    outcome = poisoned a;
    state = recover c (call true on_poison s);
  }
  ask_poison c now stop not_poison s = keep_trying c now stop (veto (call true on_poison s))
  ask_poison c now stop (raises e) s = record { outcome = raised e; state = call true on_poison s }

  pub on_failure : Config → Error → ℕ → Poison A → Bool → State → Ended A
  unfolding record_failure poison_due veto recover keep_trying
  on_failure c e now p stop s =
      let t = record_failure c e now s in
      if poison_due c now t then ask_poison c now stop p t else keep_trying c now stop t

  -- One round of `while True`.
  pub round : Config → Attempt A → State → Ended A
  unfolding on_failure recover
  round c (success a) s =
      let t = recover c s in
      record {
        outcome = returned a;
        state = record t {
          stalled = false;
          notified = false;
          sustained_notified = false;
          first_fail_ts = none;
          attempts = 0;
        };
      }
  round c (failure e now p stop) s = on_failure c e now p stop s

  abbrev go_on : (State → Ended A) → Ended A → Ended A
  go_on rest r = elim r.outcome [ waiting b ↦ rest r.state | other ↦ r ]

  -- `wrapper`, on the attempts that the environment makes of its calls.
  pub run : Config → List (Attempt A) → State → Ended A
  run c [] s = record { outcome = waiting 0; state = s }
  run c (a ∷ rest) s = go_on (run c rest) (round c a s)
