-- ===== src/Migrations.antt =====
-- custom_components/timescaledb_recorder/migrations.py, and its start by meta_worker.py. A table is its rows, each with
-- what the migration reads of it; `none` is NULL; `rid` stands for the row, whose ctid an update changes. A transaction that does not commit changes nothing.
pub mod Rewritten
mod Tests
use ha_timescaledb_recorder.Prelude.{
  ℕ, zero, suc, ◌+◌, List, [], ◌∷◌, Bool, true, false, not, ◌||◌, Option, none, some, map,
  if◌then◌else◌,
}
use ha_timescaledb_recorder.Canonical.{Text, Value, canonical_labels, canonical_legacy}

pub record Row (S O : Type 0) : Type 0 where
  pub rid : ℕ
  pub labels : Option (List Text)
  pub extra : Option (Value S O)

-- what the migration takes from Python: `==`, the sort key and `ast.literal_eval`
pub record Python (S O : Type 0) : Type 0 where
  pub same_labels : Option (List Text) → Option (List Text) → Bool
  pub same_extra : Option (Value S O) → Option (Value S O) → Bool
  pub sort_key : Value S O → Text
  pub literal_eval : Text → Option (Value S O)

-- the tables in the order of SCD2_DIMENSIONS, and whether schema_migrations has the marker
pub record Database (S O : Type 0) : Type 0 where
  pub tables : List (List (Row S O))
  pub is_marked : Bool

module _ {S O : Type 0} (py : Python S O) where
  abbrev pub legacy_extra : Option (Value S O) → Option (Value S O)
  legacy_extra none = none
  legacy_extra (some v) = some (canonical_legacy py.sort_key py.literal_eval v)

  abbrev pub rewrite_row : Row S O → Row S O
  rewrite_row row =
      let new_labels = canonical_labels row.labels in
      let new_extra = legacy_extra row.extra in
      if not (py.same_labels new_labels row.labels) || not (py.same_extra new_extra row.extra)
      then record row { labels = new_labels; extra = new_extra }
      else row

  -- `_canonicalize_table`
  unfoldable pub canonicalize_table : List (Row S O) → List (Row S O)
  canonicalize_table rows = map rewrite_row rows

  -- `canonicalize_dimension_rows`, of which so many transactions commit; the last one has the marker
  unfoldable pub canonicalize_dimension_rows : ℕ → List (List (Row S O)) → Database S O
  unfolding canonicalize_table
  canonicalize_dimension_rows zero ts = record { tables = ts; is_marked = false }
  canonicalize_dimension_rows (suc n) [] = record { tables = []; is_marked = false }
  canonicalize_dimension_rows (suc n) (t ∷ []) = record {
    tables = canonicalize_table t ∷ [];
    is_marked = true;
  }
  canonicalize_dimension_rows (suc n) (t ∷ u ∷ ts) =
      let rest = canonicalize_dimension_rows n (u ∷ ts) in
      record rest { tables = canonicalize_table t ∷ rest.tables }

  -- the migration at a start of the worker
  unfoldable pub migrate : ℕ → Database S O → Database S O
  unfolding canonicalize_dimension_rows
  migrate n d = if d.is_marked then d else canonicalize_dimension_rows n d.tables

  unfoldable pub starts : List ℕ → Database S O → Database S O
  unfolding migrate
  starts [] d = d
  starts (n ∷ ns) d = starts ns (migrate n d)
