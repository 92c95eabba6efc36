-- ===== src/MetaWorker/Loop/Tests.antt =====
-- The main loop with a restart after a write.
use ha_timescaledb_recorder.Prelude.{
  ℕ, ◌≡◌, refl, Bool, true, false, not, none, some, List, [], ◌∷◌, ◌==◌, arith, All,
}
use ha_timescaledb_recorder.PersistentQueue.{
  open_queue, put_many, get, task_done, rewrite_without_front_line,
}
use ha_timescaledb_recorder.PersistentQueue.Lines.{first_line, rest_lines, read_first_line}
use ha_timescaledb_recorder.PersistentQueue.Letters.{letters}
use ha_timescaledb_recorder.MetaWorker.{Registry, create, remove, Item}
use ha_timescaledb_recorder.MetaWorker.Replay.Items.{Named}
use ha_timescaledb_recorder.MetaWorker.Loop.{
  Event, produce, fetch, write, acknowledge, restart, run, start,
}
use ha_timescaledb_recorder.MetaWorker.Loop.Steps.{WellMade, MakesWell, written_all, fresh}
use ha_timescaledb_recorder.MetaWorker.Loop.ExactlyOnce.{run_exactly_once}

abbrev names : Registry ℕ
names = record {
  changed = λ old new. not (old == new);
  same_entry = λ old new. false;
  created_at = λ p. none;
}

-- a registration at 10 and a removal at 20
abbrev message : Bool → Item ℕ
message true = record {
  action = create;
  registry_id = "lamp";
  old_id = none;
  params = some (record { id = "lamp"; valid_from = 10; payload = 7 });
  enqueued_at = some 11;
  live_ids = [];
}
message false = record {
  action = remove;
  registry_id = "lamp";
  old_id = none;
  params = none;
  enqueued_at = some 20;
  live_ids = [];
}

abbrev one_crash : List (Event Bool)
one_crash =
    produce (true ∷ false ∷ [])
    ∷ fetch
    ∷ write 30
    ∷ restart
    ∷ fetch
    ∷ write 50
    ∷ acknowledge
    ∷ fetch
    ∷ write 51
    ∷ acknowledge
    ∷ []

made : (b : Bool) → WellMade (message b)
unfolding WellMade Named
made true = (refl, (11, refl))
made false = (tt, (20, refl))

one_crash-MakesWell : All (MakesWell message) one_crash
one_crash-MakesWell =
    ((made true, (made false, tt)), (tt, (tt, (tt, (tt, (tt, (tt, (tt, (tt, (tt, tt))))))))))

names-reflexive : (p : ℕ) → names.changed p p ≡ false
names-reflexive p = ground arith

all_acknowledged :
    (run names letters message true one_crash
      (start names letters message true (fresh []))).acknowledged
    ≡ (run names letters message true one_crash
        (start names letters message true (fresh []))).produced
unfolding run start get put_many open_queue task_done rewrite_without_front_line first_line
    rest_lines read_first_line
all_acknowledged = refl

run_exactly_once_example :
    (run names letters message true one_crash
      (start names letters message true (fresh []))).worker.table
    ≡ written_all names letters message true
        (run names letters message true one_crash
          (start names letters message true (fresh []))).produced
        []
run_exactly_once_example =
    run_exactly_once names letters message true names-reflexive one_crash (fresh [])
      one_crash-MakesWell all_acknowledged
