-- ===== src/Repair.antt =====
-- custom_components/timescaledb_recorder/repair_scd2.py: the repair of a dimension table and its checks,
-- with their statements of const.py. The statements treat each id by itself, so a table here holds the
-- rows of one id, in the order of `ctid`.
pub mod Restored
pub mod Started
pub mod Again
pub mod Moved
pub mod Kept
mod Tests
use ha_timescaledb_recorder.Prelude.{
  ◌++◌, min, max, ℕ, zero, suc, ◌+◌, List, [], ◌∷◌, Bool, true, false, not, ◌&&◌, ◌||◌, Option,
  none, some, ltb, leb, ◌==◌, map, filter, any, length, if◌then◌else◌,
}
use ha_timescaledb_recorder.Canonical.Sorting.{sort_by, comes_before, insert_by}
use ha_timescaledb_recorder.Scd2.{Version, Table, is_open, below, overlaps, count}

-- what the checks count; `none`: range_overlap is skipped
pub record Checks : Type 0 where
  pub inverted : ℕ
  pub valid_from_sanity : ℕ
  pub multi_open : ℕ
  pub sequence : ℕ
  pub range_overlap : Option ℕ

-- `not any(row.values())`
abbrev pub is_clean : Checks → Bool
is_clean c =
    c.inverted == 0
    && c.valid_from_sanity == 0
    && c.multi_open == 0
    && c.sequence == 0
    && elim c.range_overlap [ none ↦ false | some n ↦ n == 0 ]

pub data Dimension : Type 0 where
  entities devices areas_or_labels : Dimension

-- What decides on the start of the first version of the id: of the payload of that version, the start of
-- its device's first version and its `created_at`; the first state of the id; and the earliest start of an
-- entity that refers to it, after the repair of the entities.
pub record Evidence (P : Type 0) : Type 0 where
  pub device_from : P → Option ℕ
  pub created_at : P → Option ℕ
  pub first_state : Option ℕ
  pub entity_start : Option ℕ

abbrev no_later : Option ℕ → ℕ → ℕ
no_later none x = x
no_later (some y) x = min x y

module _ {P : Type 0} where
  -- ORDER BY valid_from, (valid_to IS NULL), valid_to, ctid
  abbrev pub plan_key : Version P → List ℕ
  plan_key v = elim v.valid_to [
    | none ↦ v.valid_from ∷ 1 ∷ 0 ∷ []
    | some y ↦ v.valid_from ∷ 0 ∷ y ∷ []
  ]

  abbrev pub plan : Table P → Table P
  plan rows = sort_by plan_key rows

  abbrev pub shrink : ℕ → Version P → Version P
  shrink next_from v =
      if below next_from v.valid_to then record v { valid_to = some next_from } else v

  abbrev pub rebuild_planned : Table P → Table P
  rebuild_planned [] = []
  rebuild_planned (v ∷ []) = v ∷ []
  rebuild_planned (v ∷ w ∷ rows) = shrink w.valid_from v ∷ rebuild_planned (w ∷ rows)

  -- SCD2_REPAIR_REBUILD_SQL
  unfoldable pub rebuild : Table P → Table P
  rebuild rows = rebuild_planned (plan rows)

  abbrev pub is_inverted : Version P → Bool
  is_inverted v = elim v.valid_to [ none ↦ false | some y ↦ ltb y v.valid_from ]

  abbrev pub clamp_row : Version P → Version P
  clamp_row v = if is_inverted v then record v { valid_to = some v.valid_from } else v

  -- SCD2_REPAIR_CLAMP_SQL
  abbrev pub clamp : Table P → Table P
  clamp rows = map clamp_row rows

  -- SCD2_REPAIR_CLAMP_ROWS_SQL
  abbrev pub clamp_rows : Table P → Table P
  clamp_rows rows = filter is_inverted rows

  -- `repair_table` up to the moves of starts: the table, and what it puts in quarantine
  unfoldable pub repair_ends : Table P → Table P × Table P
  unfolding rebuild
  repair_ends rows = (clamp (rebuild rows), clamp_rows rows)

  -- SCD2_ALIGN_START_SQL: the new start of a first version, before its end and before the next version
  abbrev pub aligned : Evidence P → Version P → Option ℕ → Option ℕ
  aligned e v next_from = elim (e.device_from v.payload) [
    | none ↦ none
    | some device_from ↦
        let new_from = no_later e.first_state device_from in
        if ltb v.valid_from device_from
          && (ltb v.valid_from new_from && (below new_from v.valid_to && below new_from next_from))
        then some new_from
        else none
  ]

  -- SCD2_EXTEND_ENTITY_SQL
  abbrev pub extended_entity : Evidence P → Version P → Option ℕ → Option ℕ
  extended_entity e v next_from = elim e.first_state [
    | none ↦ none
    | some first_state ↦ elim (e.created_at v.payload) [
      | none ↦ none
      | some created_at ↦
          if ltb first_state v.valid_from && leb created_at first_state
          then some first_state
          else none
    ]
  ]

  -- SCD2_EXTEND_DEVICE_SQL
  abbrev pub extended_device : Evidence P → Version P → Option ℕ → Option ℕ
  extended_device e v next_from = elim e.entity_start [
    | none ↦ none
    | some entity_start ↦ elim (e.created_at v.payload) [
      | none ↦ none
      | some created_at ↦
          if ltb (max entity_start created_at) v.valid_from
          then some (max entity_start created_at)
          else none
    ]
  ]

  -- the UPDATE of a first version, whose old row is archived
  abbrev pub moved : Option ℕ → Version P → Table P → Table P → Table P × Table P
  moved none v rows archive = (v ∷ rows, archive)
  moved (some new_from) v rows archive =
      (record v { valid_from = new_from } ∷ rows, archive ++ v ∷ [])

  -- in the order of the plan; a first version that shares its start is not moved
  abbrev pub move_first : (Version P → Option ℕ → Option ℕ) → Table P → Table P → Table P × Table P
  move_first new_from [] archive = ([], archive)
  move_first new_from (v ∷ []) archive = moved (new_from v none) v [] archive
  move_first new_from (v ∷ w ∷ rows) archive =
      if w.valid_from == v.valid_from
      then (v ∷ w ∷ rows, archive)
      else moved (new_from v (some w.valid_from)) v (w ∷ rows) archive

  abbrev pub move_start : (Version P → Option ℕ → Option ℕ) → Table P × Table P → Table P × Table P
  move_start new_from (rows, archive) = move_first new_from (plan rows) archive

  -- the moves of `repair_table`
  abbrev pub move_starts : Evidence P → Dimension → Table P × Table P → Table P × Table P
  move_starts e entities t = move_start (extended_entity e) (move_start (aligned e) t)
  move_starts e devices t = move_start (extended_device e) t
  move_starts e areas_or_labels t = t

  -- `repair_table` without `collapse_duplicates`
  unfoldable pub repair_table : Evidence P → Dimension → Table P → Table P × Table P
  unfolding repair_ends
  repair_table e d rows = move_starts e d (repair_ends rows)

  abbrev pub overruns : Table P → ℕ
  overruns [] = 0
  overruns (v ∷ []) = 0
  overruns (v ∷ w ∷ rows) = (if below w.valid_from v.valid_to then 1 else 0) + overruns (w ∷ rows)

  abbrev pub overlapping_pairs : Table P → ℕ
  overlapping_pairs [] = 0
  overlapping_pairs (v ∷ rows) = count (overlaps v) rows + overlapping_pairs rows

  -- `run_verification` on one table; `horizon` is a day from now
  pub run_verification : ℕ → Table P → Checks
  run_verification horizon rows =
      let inverted = count is_inverted rows in
      record {
        inverted = inverted;
        valid_from_sanity = count (λ v. ltb horizon v.valid_from) rows;
        multi_open = if ltb 1 (count is_open rows) then 1 else 0;
        sequence = overruns (plan rows);
        range_overlap = if inverted == 0 then some (overlapping_pairs rows) else none;
      }
