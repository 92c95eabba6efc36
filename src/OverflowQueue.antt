-- ===== src/OverflowQueue.antt =====
-- custom_components/timescaledb_recorder/overflow_queue.py: the bounded live queue that drops the
-- newest item when it is full. `items` is the deque of the standard `queue.Queue`, oldest first.
-- Each function that changes the queue is one critical section; `put_nowait` is two of them.
pub mod System
mod Tests
use ha_timescaledb_recorder.Prelude.{
  ℕ, ◌+◌, max, Bool, true, false, Option, none, some, List, [], ◌∷◌, ◌++◌, ◌&&◌, ltb, leb, length,
  if◌then◌else◌,
}

pub record OverflowQueue {ℓ} (A : Type ℓ) : Type ℓ where
  pub items : List A
  pub maxsize : ℕ
  pub unfinished_tasks : ℕ
  pub overflowed : Bool
  pub dropped : ℕ  -- since the last reset
  pub peak_size : ℕ  -- since the last poll
  pub total_dropped : ℕ

module _ {ℓ} {A : Type ℓ} where
  -- `__init__`
  unfoldable pub init : ℕ → OverflowQueue A
  init size = record {
    items = [];
    maxsize = size;
    unfinished_tasks = 0;
    overflowed = false;
    dropped = 0;
    peak_size = 0;
    total_dropped = 0;
  }

  -- `queue.Full` is raised when there is a bound and it is reached
  abbrev pub full : OverflowQueue A → Bool
  full q = ltb 0 q.maxsize && leb q.maxsize (length q.items)

  -- `super().put(item, block=False)`, under `mutex`; `false` stands for `queue.Full`
  unfoldable pub try_put : A → OverflowQueue A → OverflowQueue A × Bool
  try_put a q =
      if full q
      then (q, false)
      else (record q { items = q.items ++ a ∷ []; unfinished_tasks = q.unfinished_tasks + 1 }, true)

  -- the section of the `try` block under `_overflow_lock`
  unfoldable pub note_peak : OverflowQueue A → OverflowQueue A
  note_peak q = record q { peak_size = max q.peak_size (length q.items) }

  -- the section of `except queue.Full` under `_overflow_lock`
  unfoldable pub note_drop : OverflowQueue A → OverflowQueue A
  note_drop q = record q {
    overflowed = true;
    dropped = q.dropped + 1;
    total_dropped = q.total_dropped + 1;
  }

  -- what `put_nowait` does after the attempt
  unfoldable pub settle : Bool → OverflowQueue A → OverflowQueue A
  unfolding note_peak note_drop
  settle true q = note_peak q
  settle false q = note_drop q

  unfoldable pub put_nowait : A → OverflowQueue A → OverflowQueue A
  unfolding try_put settle
  put_nowait a q = let (q', accepted) = try_put a q in settle accepted q'

  abbrev take_front : OverflowQueue A → List A → Option A × OverflowQueue A
  take_front q [] = (none, q)
  take_front q (a ∷ rest) = (some a, record q { items = rest })

  -- `queue.Queue.get`; `none` stands for `queue.Empty`
  pub get : OverflowQueue A → Option A × OverflowQueue A
  get q = take_front q q.items

  pub clear_and_reset_overflow : OverflowQueue A → ℕ × OverflowQueue A
  clear_and_reset_overflow q =
      (q.dropped, record q { items = []; unfinished_tasks = 0; dropped = 0; overflowed = false })

  pub get_and_reset_peak : OverflowQueue A → ℕ × OverflowQueue A
  get_and_reset_peak q = (q.peak_size, record q { peak_size = length q.items })
