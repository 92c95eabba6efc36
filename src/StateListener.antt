-- ===== src/StateListener.antt =====
-- custom_components/timescaledb_recorder/state_listener.py with `StateRow` of worker.py: the producer of
-- the live queue. A dict of attributes is a value, so its copy is the dict itself.
pub mod Heard
mod Tests
use ha_timescaledb_recorder.Prelude.{
  ℕ, zero, suc, ◌+◌, ◌-◌, List, [], ◌∷◌, Bool, true, false, Option, none, some, String,
  if◌then◌else◌,
}
use ha_timescaledb_recorder.OverflowQueue.{OverflowQueue, put_nowait}

-- a state of Home Assistant
pub record State (D : Type 0) : Type 0 where
  pub entity_id : String
  pub state : String
  pub attributes : D
  pub last_updated : ℕ
  pub last_changed : ℕ

pub record StateRow (D : Type 0) : Type 0 where
  pub entity_id : String
  pub state : String
  pub attributes : D
  pub last_updated : ℕ
  pub last_changed : ℕ

-- `StateRow.from_state`, and the row that the handler builds
abbrev pub from_state : {D : Type 0} → State D → StateRow D
from_state s = record {
  entity_id = s.entity_id;
  state = s.state;
  attributes = s.attributes;
  last_updated = s.last_updated;
  last_changed = s.last_changed;
}

-- `subscriptions`: those of the handler on the bus; `is_held`: `_cancel_listener` is not None, and
-- cancels the last one
pub record StateListener (D : Type 0) : Type 0 where
  pub subscriptions : ℕ
  pub is_held : Bool
  pub queue : OverflowQueue (StateRow D)

-- what calls the listener; `new_state` is none for an entity that is removed
pub data Call (D : Type 0) : Type 0 where
  async_start : Call D
  state_changed : Option (State D) → Call D
  stop : Call D

module _ {D : Type 0} (entity_filter : String → Bool) where
  -- `_handle_state_changed`
  unfoldable pub handle_state_changed :
      Option (State D) → OverflowQueue (StateRow D) → OverflowQueue (StateRow D)
  handle_state_changed none q = q
  handle_state_changed (some s) q =
      if entity_filter s.entity_id then put_nowait (from_state s) q else q

  -- the bus calls the handler once for each of its subscriptions
  unfoldable pub notify :
      ℕ → Option (State D) → OverflowQueue (StateRow D) → OverflowQueue (StateRow D)
  unfolding handle_state_changed
  notify zero new_state q = q
  notify (suc n) new_state q = notify n new_state (handle_state_changed new_state q)

  unfoldable pub step : Call D → StateListener D → StateListener D
  unfolding notify
  step async_start l = record l { subscriptions = l.subscriptions + 1; is_held = true }
  step (state_changed new_state) l = record l { queue = notify l.subscriptions new_state l.queue }
  step stop l =
      if l.is_held then record l { subscriptions = l.subscriptions - 1; is_held = false } else l

  unfoldable pub run : List (Call D) → StateListener D → StateListener D
  unfolding step
  run [] l = l
  run (c ∷ cs) l = run cs (step c l)
