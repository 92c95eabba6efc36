-- ===== src/MetaWorker/Tests.antt =====
-- The theorems on meta_worker.py at concrete items.
use ha_timescaledb_recorder.Prelude.{
  ℕ, ◌≡◌, refl, true, false, not, arith, none, some, String, [], ◌∷◌, ◌==◌, length, List,
}
use ha_timescaledb_recorder.Scd2.{Table}
use ha_timescaledb_recorder.Scd2.Intervals.{IsHistory}
use ha_timescaledb_recorder.MetaWorker.{Registry, Params, create, update, Item, Worker, write_item}
use ha_timescaledb_recorder.Scd2.Era.{joined_rows}
use ha_timescaledb_recorder.MetaWorker.Reading.{write_all, write_all_joins_once}
use ha_timescaledb_recorder.MetaWorker.Invariant.{write_item-IsHistory}
use ha_timescaledb_recorder.MetaWorker.Replay.Items.{Named, write_item_again}

abbrev names : Registry ℕ
names = record {
  changed = λ old new. not (old == new);
  same_entry = λ old new. false;
  created_at = λ p. none;
}

abbrev params : String → ℕ → ℕ → Params ℕ
params id at p = record { id = id; valid_from = at; payload = p }

-- a rename of the entity "lamp", of which two versions are stored
abbrev renaming : Item ℕ
renaming = record {
  action = update;
  registry_id = "desk";
  old_id = some "lamp";
  params = some (params "desk" 30 9);
  enqueued_at = some 31;
  live_ids = [];
}

abbrev reconciling : ℕ → ℕ → Item ℕ
reconciling at p = record {
  action = create;
  registry_id = "lamp";
  old_id = none;
  params = some (params "lamp" at p);
  enqueued_at = some at;
  live_ids = [];
}

abbrev rows : Table ℕ
rows =
    record { id = "lamp"; valid_from = 10; valid_to = some 20; payload = 7 }
    ∷ record { id = "lamp"; valid_from = 20; valid_to = none; payload = 8 }
    ∷ []

abbrev worker : Worker ℕ
worker = record {
  table = rows;
  integrity_drops = 0;
  out_of_order_skips = 0;
  poison_drops = 0;
  dead_letters = [];
}

rows-IsHistory : IsHistory rows
rows-IsHistory = (refl, (refl, tt), (refl, tt, tt))

names-reflexive : (p : ℕ) → names.changed p p ≡ false
names-reflexive p = ground arith

renaming-Named : Named "desk" (some (params "desk" 30 9))
unfolding Named
renaming-Named = refl

write_item-IsHistory_example : IsHistory (write_item names true 40 renaming worker).table
write_item-IsHistory_example = write_item-IsHistory names 40 renaming worker rows-IsHistory

write_item_again_example :
    (write_item names true 50 renaming (write_item names true 40 renaming worker)).table
    ≡ (write_item names true 40 renaming worker).table
write_item_again_example =
    write_item_again names true names-reflexive 40 50 31 renaming worker renaming-Named refl

abbrev fresh : Worker ℕ
fresh = record {
  table = [];
  integrity_drops = 0;
  out_of_order_skips = 0;
  poison_drops = 0;
  dead_letters = [];
}

-- a registration, a change that comes before it in time, and the rename
abbrev arrivals : List (ℕ × Item ℕ)
arrivals = (12, reconciling 10 7) ∷ (13, reconciling 5 8) ∷ (31, renaming) ∷ []

write_all_joins_once_example :
    length (joined_rows "lamp" 25 (write_all names arrivals fresh).table) ≡ 1
write_all_joins_once_example = write_all_joins_once names arrivals fresh "lamp" 25 refl
