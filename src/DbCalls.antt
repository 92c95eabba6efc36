-- ===== src/DbCalls.antt =====
-- custom_components/timescaledb_recorder/db.py, `DbCallTracker`: the database calls in flight, by
-- thread. A `with` block is its entry and its exit; `blocks` are the open ones of all threads, newest
-- first, with what each entry remembers.
pub mod Outermost
mod Tests
use ha_timescaledb_recorder.Prelude.{
  ℕ, ◌∷◌, [], List, ◌++◌, Bool, true, false, Option, none, some, String, ltb, ◌==◌, is_some,
  if◌then◌else◌,
}

pub record Call : Type 0 where
  pub op : String
  pub started : ℕ

-- `_calls`
abbrev pub Calls : Type 0
Calls = List (ℕ × Call)

pub record Block : Type 0 where
  pub ident : ℕ
  pub made : Call
  pub nested : Bool

pub record Tracker : Type 0 where
  pub calls : Calls
  pub blocks : List Block

pub data Event : Type 0 where
  enter : ℕ → String → ℕ → Event  -- the thread, the name, and the clock
  leave : ℕ → Event

abbrev pub lookup : ℕ → Calls → Option Call
lookup i [] = none
lookup i ((j, c) ∷ calls) = if i == j then some c else lookup i calls

abbrev pub pop : ℕ → Calls → Calls
pop i [] = []
pop i ((j, c) ∷ calls) = if i == j then pop i calls else (j, c) ∷ pop i calls

-- the innermost block of the thread, and the others
abbrev pub innermost : ℕ → List Block → Option Block
innermost i [] = none
innermost i (b ∷ bs) = if i == b.ident then some b else innermost i bs

abbrev pub without_innermost : ℕ → List Block → List Block
without_innermost i [] = []
without_innermost i (b ∷ bs) = if i == b.ident then bs else b ∷ without_innermost i bs

-- the entry of `call`
pub begin_call : ℕ → String → ℕ → Tracker → Tracker
begin_call i op now t =
    let c : Call = record { op = op; started = now } in
    if is_some (lookup i t.calls)
    then record t { blocks = record { ident = i; made = c; nested = true } ∷ t.blocks }
    else record {
      calls = (i, c) ∷ t.calls;
      blocks = record { ident = i; made = c; nested = false } ∷ t.blocks;
    }

-- its `finally`
abbrev close_block : Option Block → ℕ → Tracker → Tracker
close_block none i t = t
close_block (some b) i t =
    if b.nested
    then record t { blocks = without_innermost i t.blocks }
    else record { calls = pop i t.calls; blocks = without_innermost i t.blocks }

pub end_call : ℕ → Tracker → Tracker
end_call i t = close_block (innermost i t.blocks) i t

abbrev pub earlier : Call → Option Call → Option Call
earlier c none = some c
earlier c (some d) = if ltb d.started c.started then some d else some c

pub oldest : Calls → Option Call
oldest [] = none
oldest ((i, c) ∷ calls) = earlier c (oldest calls)

pub step : Event → Tracker → Tracker
unfolding begin_call end_call
step (enter i op now) t = begin_call i op now t
step (leave i) t = end_call i t

pub run : List Event → Tracker → Tracker
unfolding step
run [] t = t
run (e ∷ es) t = run es (step e t)

abbrev pub idle : Tracker
idle = record { calls = []; blocks = [] }
