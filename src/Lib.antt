-- ===== src/Lib.antt =====
-- A model of the recorder of custom_components/timescaledb_recorder, which writes the states and the
-- registry metadata of Home Assistant to TimescaleDB.
--
-- State events go through a bounded live queue to the states worker, which writes them in chunks; when
-- the live queue overflows, and at the start, the worker asks the backfill orchestrator for the history
-- of the recorder, window by window. Registry events go through the buffer of the registry listener to a
-- queue in a file, and from it to the metadata worker, which keeps a history of versions in one
-- dimension table for each registry. Both workers call the database through a retry wrapper.
--
-- Prelude: shared names, the Boolean tests on numbers, and lists measured by native numbers.
-- OverflowQueue: overflow_queue.py. `OverflowQueue` is the class, its operations are its methods, and
--   OverflowQueue/System has the interleavings of the producer's two critical sections with the others.
-- PersistentQueue: persistent_queue.py. The file is its characters, so that torn lines can be said;
--   PersistentQueue/Json is what the code relies on of the standard `json`, as a parameter.
-- Retry: retry.py. A call of the wrapper runs on the attempts that its environment makes.
-- Scd2: the statements of const.py on a dimension table, with the exclusion constraint;
--   Scd2/Era is the join of the view states_flat.
-- MetaWorker: meta_worker.py, from `_write_item` down. What the code asks of a payload is a parameter.
--   MetaWorker/Loop is the main loop on the queue file, one step at a time, with respawns of its thread
--   by watchdog.py and restarts of the process.
-- RegistryListener: the buffer, the drain task and the shutdown of registry_listener.py, as a step
--   function on events; a step that is not enabled changes nothing.
--   An append that raises may leave lines in the file: `stored` tells them from those of an append that
--   returned. A torn line that it may leave too is in PersistentQueue/Torn only.
-- StatesWorker: the main loop of states_worker.py, a turn for each pass; StatesWorker/Isolation is the
--   row by row fallback for a chunk that fails non-transiently.
-- Backfill: a cycle of backfill.py.
-- DbCalls: `DbCallTracker` of db.py, with the blocks of all threads interleaved.
-- Watchdog: the stall detection of watchdog.py, on what the workers show at each poll.
-- StateListener: state_listener.py, and `StateRow` of worker.py.
-- Migrations: migrations.py, with runs that are broken off.
-- Canonical: canonical.py, on values of Python with their sets.
-- RegistryItems: what registry_listener.py extracts, queues and compares of an entry; its child
--   Rehydration is `_rehydrate_params` of meta_worker.py, Events the handlers and the snapshot, Changes
--   the comparisons with the open rows. `Python` holds what the code takes from Python's library.
-- Repair: the repair of repair_scd2.py without its options, and its checks, with the statements of
--   const.py, on the rows of one id. What the moves of starts read of other tables is `Evidence`.
-- GapBackfill: the loop of backfill_gaps.py over the buckets of its window.
-- Rollup: the table states_minute, with the function states_minute_refresh of const.py; Rollup/Job is the
--   procedure states_minute_job, Rollup/Sync is sync_minute_rollup of schema.py, and Rollup/Marked the
--   marks for late rows. What a reading is measured in is an `Amount`, a parameter that adds exactly.
--
-- Times are natural numbers of ticks: microseconds in Backfill, GapBackfill, RegistryItems and Rollup,
-- milliseconds in StatesWorker and Watchdog, and any tick elsewhere. Fuel: `get` of the metadata queue
-- takes a round for each line, so the number of characters in the file and one is enough; the chunks of a
-- flush need the number of its rows, and the windows of a cycle the number of ticks, since each takes one
-- at least. A run of the gap backfill needs as much fuel as its window has ticks, since a bucket takes one
-- at least. The job of the rollup has one unit for each day of its ranges, and one for each range.
--
-- The database, the recorder, the standard `json` and `queue`, `ast`, the event loop and the clock are
-- parameters or events. Not modelled: the building of the entity filter (entity_filter.py), the options
-- and the reports of repair_scd2.py, the schema, which sends DDL (schema.py but
-- for the rollup), and the wiring of the integration with its sensors, form and notices.
pub mod Prelude
pub mod OverflowQueue
pub mod PersistentQueue
pub mod Retry
pub mod Scd2
pub mod MetaWorker
pub mod RegistryListener
pub mod StatesWorker
pub mod Backfill
pub mod DbCalls
pub mod Watchdog
pub mod Canonical
pub mod RegistryItems
pub mod Repair
pub mod GapBackfill
pub mod Migrations
pub mod Rollup
pub mod StateListener
