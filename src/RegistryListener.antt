-- ===== src/RegistryListener.antt =====
-- custom_components/timescaledb_recorder/registry_listener.py: the buffer between the registry events
-- and the metadata queue, its drain task and its shutdown. An append to the queue is a parameter of the
-- step that ends it: it wrote the batch, or it raised and left so many whole lines of it in the file.
pub mod Stored
pub mod Conserved
pub mod Delivery
pub mod Shutdown
mod Tests
use ha_timescaledb_recorder.Prelude.{
  ℕ, Bool, true, false, Option, none, some, List, [], ◌∷◌, ◌++◌, is_empty, map, take, if◌then◌else◌,
}

-- The future of `put_many_async`.
pub data Append : Type 0 where
  running succeeded failed : Append

-- How `put_many` ends: `raised n`: with n whole lines of its batch in the file, which it writes before
-- the fsync.
pub data Outcome : Type 0 where
  wrote : Outcome
  raised : ℕ → Outcome

-- `stored` is what reached the queue file, in order, each line with whether its append returned.
pub record Listener (I : Type 0) : Type 0 where
  pub buffer : List I
  pub buffer_ready : Bool
  pub inflight : Option (Append × List I)
  pub stored : List (Bool × I)

-- Where the task that owns the next flush stands.
pub data Phase : Type 0 where
  waiting : Phase  -- `_buffer_ready.wait()` of `_drain_loop`
  draining : Phase  -- `await asyncio.shield(append)` of the drainer
  backing_off : Phase  -- `asyncio.sleep(delay)`
  cancelled : Phase  -- `async_stop` up to `_settle_inflight`
  final_flush : Phase  -- `_flush_buffer` of `async_stop`
  stopped : Phase

pub data Event (I : Type 0) : Type 0 where
  item : I → Event I  -- a registry event
  snapshot : List I → Event I  -- `async_enqueue_snapshot`
  wake : Event I  -- the drainer goes on
  append_ends : Outcome → Event I  -- in the executor
  resume : Outcome → Event I  -- the awaiter sees it; the outcome of a synchronous append
  stop : Event I  -- `async_stop`

pub record System (I : Type 0) : Type 0 where
  pub listener : Listener I
  pub phase : Phase
  pub produced : List I  -- all that the events gave, in order

-- lines of an append that returned, or of one that raised
abbrev pub lines : {I : Type 0} → Bool → List I → List (Bool × I)
lines b xs = map (λ x. (b, x)) xs

module _ {I : Type 0} where
  -- `_enqueue`, and the end of `async_enqueue_snapshot`
  pub enqueue : List I → Listener I → Listener I
  enqueue items l = record l { buffer = l.buffer ++ items; buffer_ready = true }

  -- `_flush_buffer` up to its `await`
  pub flush_buffer : Listener I → Listener I
  flush_buffer l =
      if is_empty l.buffer
      then record l { buffer = []; buffer_ready = false }
      else record l { buffer = []; buffer_ready = false; inflight = some (running, l.buffer) }

  -- `_requeue`
  pub requeue : List I → Listener I → Listener I
  requeue batch l = record l { buffer = batch ++ l.buffer; buffer_ready = true }

  -- `put_many_async` in the executor
  pub end_append : Outcome → Option (Append × List I) → Listener I → Listener I
  end_append wrote (some (running, batch)) l = record l {
    inflight = some (succeeded, batch);
    stored = l.stored ++ lines true batch;
  }
  end_append (raised n) (some (running, batch)) l = record l {
    inflight = some (failed, batch);
    stored = l.stored ++ lines false (take n batch);
  }
  end_append ended o l = l

  abbrev clear_inflight : Listener I → Listener I
  clear_inflight l = record l { inflight = none }

  -- `_flush_buffer` after its `await`, and `_settle_inflight`: they do the same with an append that
  -- has ended
  pub settle_inflight : Option (Append × List I) → Listener I → Listener I
  unfolding requeue
  settle_inflight (some (succeeded, batch)) l = clear_inflight l
  settle_inflight (some (failed, batch)) l = requeue batch (clear_inflight l)
  settle_inflight o l = l

  -- `_flush_buffer_blocking`
  pub flush_buffer_blocking : Outcome → Listener I → Listener I
  flush_buffer_blocking wrote l =
      if is_empty l.buffer
      then record l { buffer = [] }
      else record l { buffer = []; stored = l.stored ++ lines true l.buffer }
  flush_buffer_blocking (raised n) l =
      if is_empty l.buffer
      then record l { buffer = [] }
      else record l { stored = l.stored ++ lines false (take n l.buffer) }

  -- the future is not done: its awaiter does not go on
  abbrev pub is_running : Option (Append × List I) → Bool
  is_running (some (running, batch)) = true
  is_running o = false

  abbrev pub has_failed : Option (Append × List I) → Bool
  has_failed (some (failed, batch)) = true
  has_failed o = false

  abbrev start_flush : Phase → Phase → System I → System I
  start_flush busy idle s = record s {
    listener = flush_buffer s.listener;
    phase = if is_empty s.listener.buffer then idle else busy;
  }

  abbrev settled : System I → System I
  settled s = record s { listener = settle_inflight s.listener.inflight s.listener }

  -- `_drain_loop`, and `async_stop` after the cancellation
  go_on : Phase → System I → System I
  unfolding flush_buffer settle_inflight
  go_on waiting s = if s.listener.buffer_ready then start_flush draining waiting s else s
  go_on backing_off s = record s { phase = waiting }
  go_on cancelled s =
      if is_running s.listener.inflight then s else start_flush final_flush stopped (settled s)
  go_on p s = s

  -- what follows the `await` of an append that has ended
  after_append : Phase → Outcome → System I → System I
  unfolding settle_inflight flush_buffer_blocking
  after_append draining blocking s = record (settled s) {
    phase = if has_failed s.listener.inflight then backing_off else waiting;
  }
  after_append final_flush blocking s =
      if has_failed s.listener.inflight
      then record s {
        listener = flush_buffer_blocking blocking (settle_inflight s.listener.inflight s.listener);
        phase = stopped;
      }
      else record (settled s) { phase = stopped }
  after_append p blocking s = s

  halt : Phase → System I → System I
  halt waiting s = record s { phase = cancelled }
  halt draining s = record s { phase = cancelled }
  halt backing_off s = record s { phase = cancelled }
  halt p s = s

  pub step : Event I → System I → System I
  unfolding enqueue end_append go_on after_append halt
  step (item x) s = record s {
    listener = enqueue (x ∷ []) s.listener;
    produced = s.produced ++ x ∷ [];
  }
  step (snapshot xs) s = record s { listener = enqueue xs s.listener; produced = s.produced ++ xs }
  step wake s = go_on s.phase s
  step (append_ends ended) s = record s {
    listener = end_append ended s.listener.inflight s.listener;
  }
  step (resume blocking) s =
      if is_running s.listener.inflight then s else after_append s.phase blocking s
  step stop s = halt s.phase s

  pub run : System I → List (Event I) → System I
  unfolding step
  run s [] = s
  run s (e ∷ es) = run (step e s) es

  pub start : System I
  start = record {
    listener = record { buffer = []; buffer_ready = false; inflight = none; stored = [] };
    phase = waiting;
    produced = [];
  }
