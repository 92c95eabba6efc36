-- ===== src/PersistentQueue/Tests.antt =====
-- The queue on items that are bits, written as one letter each.
use ha_timescaledb_recorder.Prelude.{◌≡◌, ◌≢◌, refl, Bool, true, false, none, [], ◌∷◌, ◌++◌, arith}
use ha_timescaledb_recorder.PersistentQueue.Lines.{first_line, rest_lines, read_first_line}
use ha_timescaledb_recorder.PersistentQueue.Letters.{spell, letters}
use ha_timescaledb_recorder.PersistentQueue.{
  PersistentQueue, wait, out_of_fuel, open_queue, put, get, task_done,
}
use ha_timescaledb_recorder.PersistentQueue.Contract.{
  Represents, apply_all, expect_all, apply_all-Represents, get-front, ServesFront, put_one,
  put_batch, get_one, acknowledge, crash,
}
use ha_timescaledb_recorder.PersistentQueue.Scanning.{Recovers, get_ends, get-skips}
use ha_timescaledb_recorder.PersistentQueue.Torn.{put_after_torn_lost}

abbrev fresh : PersistentQueue Bool
fresh = record { file = []; in_flight = none; size = 0 }

fresh-Represents : Represents letters fresh []
fresh-Represents = record { file = refl; size = refl; flying = tt }

abbrev two : PersistentQueue Bool
two = record { file = spell true ++ 10 ∷ spell false ++ 10 ∷ []; in_flight = none; size = 2 }

two-Represents : Represents letters two (true ∷ false ∷ [])
two-Represents = record { file = refl; size = refl; flying = tt }

apply_all-Represents_example :
    Represents letters
      (apply_all letters
        (put_one true ∷ get_one ∷ crash ∷ put_batch (false ∷ []) ∷ acknowledge ∷ [])
        fresh)
      (expect_all letters
        (put_one true ∷ get_one ∷ crash ∷ put_batch (false ∷ []) ∷ acknowledge ∷ [])
        [])
apply_all-Represents_example =
    apply_all-Represents letters
      (put_one true ∷ get_one ∷ crash ∷ put_batch (false ∷ []) ∷ acknowledge ∷ []) fresh []
      fresh-Represents

get-front_example : ServesFront letters (get letters 1 two) (true ∷ false ∷ [])
get-front_example = get-front letters 0 two (true ∷ false ∷ []) two-Represents

get_ends_example : (get letters 5 two).0 ≢ out_of_fuel
get_ends_example = get_ends letters 5 two (omega arith)

-- a torn letter pair, on a line of its own
abbrev damaged : PersistentQueue Bool
damaged = record {
  file = ((b't' ∷ b't' ∷ []) ++ 10 ∷ []) ++ (spell false ++ 10 ∷ []);
  in_flight = none;
  size = 2;
}

get-skips_example : Recovers letters damaged false [] (get letters 2 damaged)
get-skips_example =
    get-skips letters ((b't' ∷ b't' ∷ []) ∷ []) false [] 2 damaged (omega arith)
      (record { whole = (refl, (refl, tt)); unreadable = refl }, tt) refl refl

put_after_torn_lost_example :
    let (o, q') = get letters 2 (put letters true (open_queue (b't' ∷ []))) in
    (o ≡ wait) × (q'.file ≡ []) × (q'.size ≡ (put letters true (open_queue (b't' ∷ []))).size)
put_after_torn_lost_example = put_after_torn_lost letters (b't' ∷ []) true 0 (refl, tt) refl

drained : (task_done (get letters 2 two).1).file ≡ b'f' ∷ 10 ∷ []
unfolding get task_done rest_lines first_line read_first_line
drained = refl
