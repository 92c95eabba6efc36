-- ===== src/MetaWorker/Loop.antt =====
-- The main loop of meta_worker.py on the queue of persistent_queue.py, `_run_main_loop` from the first
-- `get` on, with a restart of Home Assistant or a respawn of the thread between any two of its steps.
pub mod Steps
pub mod ExactlyOnce
mod Tests
use ha_timescaledb_recorder.Prelude.{ℕ, suc, Bool, Option, none, some, List, [], ◌∷◌, ◌++◌, length}
use ha_timescaledb_recorder.PersistentQueue.Json.{Format}
use ha_timescaledb_recorder.PersistentQueue.{
  PersistentQueue, Outcome, item, open_queue, put_many, get, task_done,
}
use ha_timescaledb_recorder.MetaWorker.{Registry, Item, Worker, write_item}

-- Where the loop stands.
pub data Stage (A : Type 0) : Type 0 where
  ready : Stage A  -- before `get`
  holding : A → Stage A  -- `get` has returned it
  wrote : A → Stage A  -- `_write_item` has returned

-- `A` is what the queue holds, the dicts, and `read` what the code sees in one. `produced` and `acknowledged` are what an observer has seen of the items.
pub record Process (A P : Type 0) : Type 0 where
  pub queue : PersistentQueue A
  pub worker : Worker P
  pub stage : Stage A
  pub produced : List A
  pub acknowledged : List A

pub data Event (A : Type 0) : Type 0 where
  produce : List A → Event A  -- the listener's `put_many`
  fetch : Event A
  write : ℕ → Event A  -- at that time
  acknowledge : Event A
  respawn : Event A  -- of the thread, on the same queue
  restart : Event A  -- of the process, on the file

module _ {P : Type 0} where
  -- the counters are those of the new object
  abbrev pub new_worker : Worker P → Worker P
  new_worker w = record w { integrity_drops = 0; out_of_order_skips = 0; poison_drops = 0 }

module _ {A P : Type 0} where
  abbrev pub fetched : Outcome A × PersistentQueue A → Process A P → Process A P
  fetched (item x, q) s = record s { queue = q; stage = holding x }
  fetched (o, q) s = record s { queue = q }

module _ {A P : Type 0} (r : Registry P) (json : Format A) (read : A → Item P)
    (enforced : Bool) where
  abbrev pub at_fetch : Stage A → Process A P → Process A P
  at_fetch ready s = fetched (get json (suc (length s.queue.file)) s.queue) s
  at_fetch t s = s

  abbrev pub at_write : Stage A → ℕ → Process A P → Process A P
  at_write (holding x) now s = record s {
    worker = write_item r enforced now (read x) s.worker;
    stage = wrote x;
  }
  at_write t now s = s

  abbrev pub at_acknowledge : Stage A → Process A P → Process A P
  at_acknowledge (wrote x) s = record s {
    queue = task_done s.queue;
    stage = ready;
    acknowledged = s.acknowledged ++ x ∷ [];
  }
  at_acknowledge t s = s

  pub step : Event A → Process A P → Process A P
  step (produce xs) s = record s { queue = put_many json xs s.queue; produced = s.produced ++ xs }
  step fetch s = at_fetch s.stage s
  step (write now) s = at_write s.stage now s
  step acknowledge s = at_acknowledge s.stage s
  step respawn s = record s { worker = new_worker s.worker; stage = ready }
  step restart s = record s {
    queue = open_queue s.queue.file;
    worker = new_worker s.worker;
    stage = ready;
  }

  pub run : List (Event A) → Process A P → Process A P
  unfolding step
  run [] s = s
  run (e ∷ es) s = run es (step e s)

  -- the first start, on an empty file
  pub start : Worker P → Process A P
  start w = record {
    queue = open_queue [];
    worker = w;
    stage = ready;
    produced = [];
    acknowledged = [];
  }
