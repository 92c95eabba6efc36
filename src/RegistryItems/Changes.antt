-- ===== src/RegistryItems/Changes.antt =====
-- registry_listener.py: whether the params of an entry differ from its open row. `none` is an exception.
use ha_timescaledb_recorder.Prelude.{
  ℕ, List, [], ◌∷◌, Bool, true, false, not, ◌&&◌, ◌||◌, Option, none, some, ◌==◌, get_or,
}
use ha_timescaledb_recorder.Canonical.{Text, t, same_text, is_in, Value, dict, Fields, end}
use ha_timescaledb_recorder.Canonical.Sorting.{sort_by}
use ha_timescaledb_recorder.RegistryItems.{Python, Registry, Cell, time, array, by_key}

-- The column `extra` of a row as the driver gives it: a text, or what it says.
pub data Stored (S O : Type 0) : Type 0 where
  as_text : Text → Stored S O
  as_dict : Fields S O → Stored S O
  absent : Stored S O

-- The open row of an id: its columns are in the order of the params, and `extra` stands by itself.
pub record Row (S O : Type 0) : Type 0 where
  pub columns : List Cell
  pub extra : Stored S O

abbrev pub same_texts : List Text → List Text → Bool
same_texts [] [] = true
same_texts [] (b ∷ bs) = false
same_texts (a ∷ xs) [] = false
same_texts (a ∷ xs) (b ∷ bs) = same_text a b && same_texts xs bs

abbrev pub same_cell : Cell → Cell → Bool
same_cell Cell.null Cell.null = true
same_cell (Cell.str a) (Cell.str b) = same_text a b
same_cell (time a) (time b) = a == b
same_cell (array a) (array b) = same_texts a b
same_cell _ _ = false

-- `labels or []`, sorted
abbrev pub sorted_array : Cell → List Text
sorted_array (array labels) = sort_by (λ label. label) labels
sorted_array _ = []

abbrev pub column_changed : List Cell → List Cell → ℕ → Bool
column_changed columns params i =
    not (same_cell (get_or columns i Cell.null) (get_or params i Cell.null))

abbrev pub labels_changed : List Cell → List Cell → ℕ → Bool
labels_changed columns params i = not (
    same_texts (sorted_array (get_or columns i Cell.null))
      (sorted_array (get_or params i Cell.null)))

abbrev pub extra_compare_ignore : List Text
extra_compare_ignore = t "modified_at" ∷ []

module _ {S O : Type 0} where
  -- `_without_ignored`
  abbrev pub without_ignored : Fields S O → Fields S O
  without_ignored fs = by_key (λ k. not (is_in k extra_compare_ignore)) fs

  abbrev fields_of : Option (Value S O) → Option (Fields S O)
  fields_of (some (dict fs)) = some fs
  fields_of _ = none

  -- `same_json` is the `==` of dicts
  module _ (py : Python S O) (same_json : Fields S O → Fields S O → Bool) where
    abbrev stored_fields : Stored S O → Option (Fields S O)
    stored_fields (as_text s) = fields_of (py.loads s)
    stored_fields (as_dict fs) = some fs
    stored_fields absent = some end

    abbrev compare_fields : Option (Fields S O) → Option (Fields S O) → Option Bool
    compare_fields (some old) (some new) =
        some (not (same_json (without_ignored old) (without_ignored new)))
    compare_fields _ _ = none

    -- `_extra_changed`
    abbrev pub extra_changed : Stored S O → Cell → Option Bool
    extra_changed stored (Cell.str new_json) =
        compare_fields (stored_fields stored) (fields_of (py.loads new_json))
    extra_changed stored _ = none

    -- `or` looks at the extra fields last
    abbrev or_extra : Bool → Option Bool → Option Bool
    or_extra true extra = some true
    or_extra false extra = extra

    unfoldable pub entity_row_changed : Option (Row S O) → List Cell → Option Bool
    entity_row_changed none p = some true
    entity_row_changed (some row) p =
        or_extra
          (column_changed row.columns p 2
            || column_changed row.columns p 4
            || column_changed row.columns p 5
            || column_changed row.columns p 6
            || labels_changed row.columns p 7
            || column_changed row.columns p 8
            || column_changed row.columns p 9
            || column_changed row.columns p 10)
          (extra_changed row.extra (get_or p 12 Cell.null))

    unfoldable pub device_row_changed : Option (Row S O) → List Cell → Option Bool
    device_row_changed none p = some true
    device_row_changed (some row) p =
        or_extra
          (column_changed row.columns p 1
            || column_changed row.columns p 2
            || column_changed row.columns p 3
            || column_changed row.columns p 4
            || labels_changed row.columns p 5)
          (extra_changed row.extra (get_or p 7 Cell.null))

    unfoldable pub area_row_changed : Option (Row S O) → List Cell → Option Bool
    area_row_changed none p = some true
    area_row_changed (some row) p =
        or_extra (column_changed row.columns p 1) (extra_changed row.extra (get_or p 3 Cell.null))

    unfoldable pub label_row_changed : Option (Row S O) → List Cell → Option Bool
    label_row_changed none p = some true
    label_row_changed (some row) p =
        or_extra (column_changed row.columns p 1 || column_changed row.columns p 2)
          (extra_changed row.extra (get_or p 4 Cell.null))

    -- `_row_changed`
    abbrev pub row_changed : Registry → Option (Row S O) → List Cell → Option Bool
    row_changed Registry.entity = entity_row_changed
    row_changed Registry.device = device_row_changed
    row_changed Registry.area = area_row_changed
    row_changed Registry.label = label_row_changed
