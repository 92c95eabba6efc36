-- ===== src/Watchdog.antt =====
-- custom_components/timescaledb_recorder/watchdog.py: the detection of stalls. Times are milliseconds; the
-- texts of the notices are kept as what they tell. A poll sees the clock, whether Home Assistant runs,
-- and what the workers show.
pub mod Shown
mod Tests
use ha_timescaledb_recorder.Prelude.{
  ℕ, ◌-◌, ◌∷◌, [], List, ◌++◌, map, Bool, true, false, not, ◌&&◌, ◌||◌, Option, none, some, String,
  leb, max, is_some, is_empty, if◌then◌else◌,
}

abbrev pub ingestion_stall_threshold : ℕ
ingestion_stall_threshold = 600000

pub data Component : Type 0 where
  states_worker meta_worker : Component

pub record Worker : Type 0 where
  pub is_alive : Bool
  pub oldest_call : Option (String × ℕ)  -- `db_calls.oldest()`
  pub backfill_wait_since : Option ℕ
  pub last_op : String

pub data Details : Type 0 where
  call_in_flight : String → ℕ → String → Details  -- the call, for how long, and `_last_op`
  waiting_for_backfill : ℕ → Details

pub record StallTracker : Type 0 where
  pub running_since : Option ℕ
  pub stalled : List (Component × Details × ℕ)  -- the dict, in its order

-- `shown` is the issue ingestion_stalled, if it is raised, and `notified` the notifications so far.
pub record Watch : Type 0 where
  pub tracker : StallTracker
  pub shown : Option (List Details)
  pub notified : List (Component × Details)

pub record Poll : Type 0 where
  pub now : ℕ
  pub ha_running : Bool
  pub states : Option Worker
  pub meta : Option Worker

abbrev call_details : ℕ → String → Option (String × ℕ) → Option Details
call_details now last_op none = none
call_details now last_op (some (op, started)) =
    if leb ingestion_stall_threshold (now - started)
    then some (call_in_flight op (now - started) last_op)
    else none

abbrev wait_details : ℕ → Option ℕ → Option ℕ → Option Details
wait_details now (some waiting) (some running) =
    if leb ingestion_stall_threshold (now - max waiting running)
    then some (waiting_for_backfill (now - max waiting running))
    else none
wait_details now w r = none

abbrev first_of : Option Details → Option Details → Option Details
first_of none o = o
first_of (some d) o = some d

-- `_stall_details`
pub stall_details : Option Worker → ℕ → Option ℕ → Option Details
stall_details none now running = none
stall_details (some w) now running =
    if w.is_alive
    then first_of (call_details now w.last_op w.oldest_call)
        (wait_details now w.backfill_wait_since running)
    else none

abbrev pub same : Component → Component → Bool
same states_worker states_worker = true
same meta_worker meta_worker = true
same c d = false

abbrev pub tracked : Component → List (Component × Details × ℕ) → Bool
tracked c [] = false
tracked c ((d, x, since) ∷ stalled) = same c d || tracked c stalled

abbrev pub without : Component → List (Component × Details × ℕ) → List (Component × Details × ℕ)
without c [] = []
without c ((d, x, since) ∷ stalled) =
    if same c d then without c stalled else (d, x, since) ∷ without c stalled

-- the dict, and whether it has changed
abbrev Tracked : Type 0
Tracked = List (Component × Details × ℕ) × Bool

-- the body of the loop over the components
pub note_component : Component → Option Details → ℕ → Tracked → Tracked
note_component c (some d) now (stalled, changed) =
    if tracked c stalled then (stalled, changed) else (stalled ++ (c, d, now) ∷ [], true)
note_component c none now (stalled, changed) =
    if tracked c stalled then (without c stalled, true) else (stalled, changed)

abbrev news :
    Component → Option Details → List (Component × Details × ℕ) → List (Component × Details)
news c none stalled = []
news c (some d) stalled = if tracked c stalled then [] else (c, d) ∷ []

abbrev pub running_from : Option ℕ → Poll → Option ℕ
running_from none p = if p.ha_running then some p.now else none
running_from (some since) p = some since

abbrev pub all_details : List (Component × Details × ℕ) → List Details
all_details stalled = map (λ (e : Component × Details × ℕ). e.1) stalled

abbrev pub issue : List (Component × Details × ℕ) → Option (List Details)
issue stalled = if is_empty stalled then none else some (all_details stalled)

abbrev pub found : Poll → Watch → Option Worker → Option Details
found p s w = stall_details w p.now (running_from s.tracker.running_since p)

-- `_check_stalls`
pub check_stalls : Poll → Watch → Watch
unfolding stall_details note_component
check_stalls p s =
    let before = s.tracker.stalled in
    let one = note_component states_worker (found p s p.states) p.now (before, false) in
    let two = note_component meta_worker (found p s p.meta) p.now one in
    record {
      tracker = record { running_since = running_from s.tracker.running_since p; stalled = two.0 };
      shown = if two.1 then issue two.0 else s.shown;
      notified =
          s.notified
          ++ news states_worker (found p s p.states) before
          ++ news meta_worker (found p s p.meta) one.0;
    }

-- the polls of `watchdog_loop`
pub run : List Poll → Watch → Watch
unfolding check_stalls
run [] s = s
run (p ∷ ps) s = run ps (check_stalls p s)

abbrev pub start : Watch
start = record {
  tracker = record { running_since = none; stalled = [] };
  shown = none;
  notified = [];
}
