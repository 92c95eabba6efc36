-- ===== src/OverflowQueue/System.antt =====
-- The queue of overflow_queue.py among its threads: the producer's attempt and its accounting are
-- two sections, and the consumer, the clearing and the polling may come between them.
pub mod Accounts
pub mod Fifo
use ha_timescaledb_recorder.Prelude.{
  ℕ, ◌+◌, Bool, true, false, Option, none, some, List, [], ◌∷◌, ◌++◌, if◌then◌else◌,
}
use ha_timescaledb_recorder.OverflowQueue.{
  OverflowQueue, init, try_put, settle, get, clear_and_reset_overflow, get_and_reset_peak,
}

pub data Event {ℓ} (A : Type ℓ) : Type ℓ where
  attempt : A → Event A
  account : Event A
  consume : Event A
  clear : Event A
  poll_peak : Event A

-- The queue, the attempt that is not accounted for yet, and what an observer has seen.
pub record System {ℓ} (A : Type ℓ) : Type ℓ where
  pub queue : OverflowQueue A
  pub pending : Option Bool
  pub accepted : List A
  pub removed : List A
  pub attempts : ℕ

module _ {ℓ} {A : Type ℓ} where
  pub start : ℕ → System A
  unfolding init
  start size = record {
    queue = init size;
    pending = none;
    accepted = [];
    removed = [];
    attempts = 0;
  }

  -- The producer is the event loop, which makes its next attempt only after accounting for the last.
  abbrev begin : Option Bool → A → System A → System A
  begin (some p) a s = s
  begin none a s =
      let (q, ok) = try_put a s.queue in
      record s {
        queue = q;
        pending = some ok;
        accepted = if ok then s.accepted ++ a ∷ [] else s.accepted;
        attempts = s.attempts + 1;
      }

  abbrev finish : Option Bool → System A → System A
  finish none s = s
  finish (some ok) s = record s { queue = settle ok s.queue; pending = none }

  abbrev note_removed : Option A → List A → List A
  note_removed none l = l
  note_removed (some a) l = l ++ a ∷ []

  pub step : System A → Event A → System A
  step s (attempt a) = begin s.pending a s
  step s account = finish s.pending s
  step s consume =
      let (o, q) = get s.queue in record s { queue = q; removed = note_removed o s.removed }
  step s clear = record s {
    queue = (clear_and_reset_overflow s.queue).1;
    removed = s.removed ++ s.queue.items;
  }
  step s poll_peak = record s { queue = (get_and_reset_peak s.queue).1 }

  pub run : System A → List (Event A) → System A
  run s [] = s
  run s (e ∷ es) = run (step s e) es
