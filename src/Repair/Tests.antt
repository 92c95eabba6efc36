-- ===== src/Repair/Tests.antt =====
-- Repairs of small tables.
use ha_timescaledb_recorder.Prelude.{
  ℕ, ◌≤◌, ◌≡◌, refl, [], ◌∷◌, true, false, Option, none, some, arith,
}
use ha_timescaledb_recorder.Scd2.{Version, Table}
use ha_timescaledb_recorder.Scd2.Intervals.{IsHistory}
use ha_timescaledb_recorder.Repair.{
  entities, devices, areas_or_labels, Evidence, repair_table, run_verification, is_clean,
}
use ha_timescaledb_recorder.Repair.Started.{repair_table-IsHistory}
use ha_timescaledb_recorder.Repair.Again.{repair_table-repair_table}
use ha_timescaledb_recorder.Repair.Moved.{is_clean-repair_table}

abbrev row : ℕ → Option ℕ → ℕ → Version ℕ
row from to payload = record {
  id = "light.lamp";
  valid_from = from;
  valid_to = to;
  payload = payload;
}

-- two open versions, an inverted one, and two that start at once
abbrev damaged : Table ℕ
damaged = row 20 none 3 ∷ row 10 none 1 ∷ row 30 (some 5) 4 ∷ row 20 (some 50) 2 ∷ []

damaged_checks : is_clean (run_verification 100 damaged) ≡ false
unfolding run_verification
damaged_checks = refl

-- the device starts at 15, and the first state is at 14
abbrev evidence : Evidence ℕ
evidence = record {
  device_from = λ p. some 15;
  created_at = λ p. some 5;
  first_state = some 14;
  entity_start = some 8;
}

one_repair : repair_table evidence areas_or_labels damaged ≡ (
  row 10 (some 20) 1 ∷ row 20 (some 20) 2 ∷ row 20 (some 30) 3 ∷ row 30 (some 30) 4 ∷ [],
  row 30 (some 5) 4 ∷ [],
)
unfolding repair_table
one_repair = refl

aligned_repair : repair_table evidence entities damaged ≡ (
  row 14 (some 20) 1 ∷ row 20 (some 20) 2 ∷ row 20 (some 30) 3 ∷ row 30 (some 30) 4 ∷ [],
  row 30 (some 5) 4 ∷ row 10 (some 20) 1 ∷ [],
)
unfolding repair_table
aligned_repair = refl

extended_repair : repair_table evidence devices damaged ≡ (
  row 8 (some 20) 1 ∷ row 20 (some 20) 2 ∷ row 20 (some 30) 3 ∷ row 30 (some 30) 4 ∷ [],
  row 30 (some 5) 4 ∷ row 10 (some 20) 1 ∷ [],
)
unfolding repair_table
extended_repair = refl

repair_table-IsHistory_example : IsHistory (repair_table evidence entities damaged).0
repair_table-IsHistory_example = repair_table-IsHistory evidence entities damaged

repair_table-repair_table_example :
    repair_table evidence entities (repair_table evidence entities damaged).0
    ≡ ((repair_table evidence entities damaged).0, [])
repair_table-repair_table_example = repair_table-repair_table evidence entities damaged

known_device : (p from : ℕ) → evidence.device_from p ≡ some from → from ≤ 100
known_device p from e = ground (arith, e)

is_clean-repair_table_example :
    is_clean (run_verification 100 (repair_table evidence entities damaged).0) ≡ true
is_clean-repair_table_example =
    is_clean-repair_table 100 evidence entities damaged
      (ground arith, (ground arith, (ground arith, (ground arith, tt)))) known_device
