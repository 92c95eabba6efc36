-- ===== src/StatesWorker.antt =====
-- custom_components/timescaledb_recorder/states_worker.py: the main loop, its buffer and its chunks. A
-- turn of the loop sees what the queues hold and the clock, in milliseconds, read once. `_insert_chunk` is the raw
-- insert behind retry.py: `written` lists the chunks given to it.
pub mod Chunks
pub mod Delivery
pub mod Bounded
pub mod Rollup
pub mod Isolation
mod Tests
use ha_timescaledb_recorder.Prelude.{
  ℕ, zero, suc, ◌+◌, ◌-◌, ◌∷◌, [], List, ◌++◌, Bool, true, false, ◌||◌, ◌&&◌, Option, none, some,
  String, leb, ltb, min, length, take, drop, is_empty, map, if◌then◌else◌,
}

abbrev pub batch_flush_size : ℕ
batch_flush_size = 200

abbrev pub insert_chunk_size : ℕ
insert_chunk_size = 200

abbrev pub flush_interval : ℕ
flush_interval = 5000

-- `content`: the state, the attributes and the time of the last change
pub record StateRow (C : Type 0) : Type 0 where
  pub entity_id : String
  pub last_updated : ℕ
  pub content : C

pub data Mode : Type 0 where
  mode_init mode_backfill mode_live : Mode

-- INSERT_SQL, which never overwrites a row, and INSERT_LIVE_SQL, which does
pub data Statement : Type 0 where
  insert insert_live : Statement

pub data BackfillItem (C : Type 0) : Type 0 where
  nothing_yet : BackfillItem C  -- queue.Empty
  backfill_done : Bool → BackfillItem C  -- and whether the marks behind it can be queued
  slice : List (List (StateRow C)) → BackfillItem C  -- the values of the dict

pub data LiveItem (C : Type 0) : Type 0 where
  timed_out : LiveItem C  -- queue.Empty
  state_row : StateRow C → LiveItem C
  sentinel : LiveItem C  -- anything else: it only wakes the worker

pub record Turn (C : Type 0) : Type 0 where
  pub overflowed : Bool
  pub backfill_item : BackfillItem C
  pub live_item : LiveItem C
  pub now : ℕ

pub record Worker (C : Type 0) : Type 0 where
  pub mode : Mode  -- also `_last_mode`
  pub buffer : List (StateRow C)
  pub last_flush : ℕ
  pub backfill_requests : ℕ
  pub backfill_wait_since : Option ℕ
  pub backfill_rollup_from : Option ℕ
  pub marked_dirty : List ℕ  -- what `_mark_rollup_dirty` has queued
  pub not_marked : List ℕ  -- what `_rollup_dirty_failed` has warned of
  pub written : List (Statement × List (StateRow C))

-- the choice of `_insert_chunk_raw`
abbrev pub statement : Mode → Statement
statement mode_live = insert_live
statement m = insert

abbrev pub earlier : Option ℕ → ℕ → Option ℕ
earlier none t = some t
earlier (some s) t = some (min s t)

module _ {C : Type 0} where
  -- `rows[i : i + INSERT_CHUNK_SIZE]` for every `i`; the number of rows is fuel enough
  abbrev pub chunks : ℕ → List (StateRow C) → List (List (StateRow C))
  chunks zero rows = []
  chunks (suc fuel) [] = []
  chunks (suc fuel) (r ∷ rows) =
      take insert_chunk_size (r ∷ rows) ∷ chunks fuel (drop insert_chunk_size (r ∷ rows))

  -- `_flush`, and `buffer.clear()`
  pub flush : Worker C → Worker C
  flush w = record w {
    buffer = [];
    written = w.written ++ map (λ c. (statement w.mode, c)) (chunks (length w.buffer) w.buffer);
  }

  abbrev pub flush_any : Worker C → Worker C
  flush_any w = if is_empty w.buffer then w else flush w

  abbrev insert_sorted : StateRow C → List (StateRow C) → List (StateRow C)
  insert_sorted r [] = r ∷ []
  insert_sorted r (s ∷ rows) =
      if leb r.last_updated s.last_updated then r ∷ s ∷ rows else s ∷ insert_sorted r rows

  abbrev sort : List (StateRow C) → List (StateRow C)
  sort [] = []
  sort (r ∷ rows) = insert_sorted r (sort rows)

  abbrev merge : List (List (StateRow C)) → List (StateRow C)
  merge [] = []
  merge (rows ∷ slices) = rows ++ merge slices

  -- `_slice_to_rows`
  pub slice_to_rows : List (List (StateRow C)) → List (StateRow C)
  slice_to_rows slices = sort (merge slices)

  -- `_note_rollup_rows`; `rolled` is the membership in `_rollup_entity_ids`
  pub note_rollup_rows : (String → Bool) → List (StateRow C) → Option ℕ → Option ℕ
  note_rollup_rows rolled [] from = from
  note_rollup_rows rolled (r ∷ rows) from =
      let rest = note_rollup_rows rolled rows from in
      if rolled r.entity_id then earlier rest r.last_updated else rest

  -- the first branch of the loop
  pub request_backfill : ℕ → Worker C → Worker C
  unfolding flush
  request_backfill now w = record (flush_any w) {
    mode = mode_backfill;
    last_flush = now;
    backfill_requests = w.backfill_requests + 1;
    backfill_wait_since = some now;
  }

  -- through its retry wrapper, which on poison calls `_rollup_dirty_failed` and returns
  abbrev pub mark_rollup_dirty : Bool → Option ℕ → Worker C → Worker C
  mark_rollup_dirty queued none w = w
  mark_rollup_dirty true (some since) w = record w {
    marked_dirty = w.marked_dirty ++ since ∷ [];
    backfill_rollup_from = none;
  }
  mark_rollup_dirty false (some since) w = record w {
    not_marked = w.not_marked ++ since ∷ [];
    backfill_rollup_from = none;
  }

  pub take_backfill : (String → Bool) → BackfillItem C → ℕ → Worker C → Worker C
  unfolding flush slice_to_rows note_rollup_rows
  take_backfill rolled nothing_yet now w = w
  take_backfill rolled (backfill_done queued) now w =
      record (mark_rollup_dirty queued w.backfill_rollup_from (flush_any w)) {
        mode = mode_live;
        last_flush = now;
        backfill_wait_since = none;
      }
  take_backfill rolled (slice slices) now w =
      let rows = slice_to_rows slices in
      record (flush (record w {
        buffer = w.buffer ++ rows;
        backfill_rollup_from = note_rollup_rows rolled rows w.backfill_rollup_from;
      })) { backfill_wait_since = some now }

  abbrev flush_if_due : ℕ → Worker C → Worker C
  flush_if_due now w =
      if leb batch_flush_size (length w.buffer) || leb flush_interval (now - w.last_flush)
      then record (flush w) { last_flush = now }
      else w

  pub take_live : LiveItem C → ℕ → Worker C → Worker C
  unfolding flush
  take_live timed_out now w = record (flush_any w) { last_flush = now }
  take_live (state_row r) now w = flush_if_due now (record w { buffer = w.buffer ++ r ∷ [] })
  take_live sentinel now w = flush_if_due now w

  abbrev by_mode : Mode → (String → Bool) → Turn C → Worker C → Worker C
  by_mode mode_init rolled t w = request_backfill t.now w
  by_mode mode_backfill rolled t w = take_backfill rolled t.backfill_item t.now w
  by_mode mode_live rolled t w =
      if t.overflowed then request_backfill t.now w else take_live t.live_item t.now w

  -- one pass of the `while` in `_run_main_loop`
  pub turn : (String → Bool) → Turn C → Worker C → Worker C
  unfolding request_backfill take_backfill take_live
  turn rolled t w = by_mode w.mode rolled t w

  pub run : (String → Bool) → List (Turn C) → Worker C → Worker C
  unfolding turn
  run rolled [] w = w
  run rolled (t ∷ ts) w = run rolled ts (turn rolled t w)

  -- before the first pass
  abbrev pub start : ℕ → Worker C
  start now = record {
    mode = mode_init;
    buffer = [];
    last_flush = now;
    backfill_requests = 0;
    backfill_wait_since = none;
    backfill_rollup_from = none;
    marked_dirty = [];
    not_marked = [];
    written = [];
  }
