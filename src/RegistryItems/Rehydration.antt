-- ===== src/RegistryItems/Rehydration.antt =====
-- meta_worker.py: the params of an item from the queue, made ready for the statements. `none` is an
-- exception.
use ha_timescaledb_recorder.Prelude.{ℕ, zero, suc, List, [], ◌∷◌, Option, none, some, map}
use ha_timescaledb_recorder.Canonical.{canonical_legacy, canonical_labels}
use ha_timescaledb_recorder.RegistryItems.{Python, Registry, Cell, time, array}

-- `_VALID_FROM_INDEX`
abbrev pub valid_from_index : Registry → ℕ
valid_from_index Registry.entity = 11
valid_from_index Registry.device = 6
valid_from_index Registry.area = 2
valid_from_index Registry.label = 3

-- `_LABELS_INDEX`
abbrev pub labels_index : Registry → Option ℕ
labels_index Registry.entity = some 7
labels_index Registry.device = some 5
labels_index _ = none

abbrev put_first : Option Cell → List Cell → Option (List Cell)
put_first none cells = none
put_first (some c) cells = some (c ∷ cells)

abbrev put_second : Cell → Option (List Cell) → Option (List Cell)
put_second c none = none
put_second c (some cells) = some (c ∷ cells)

abbrev pub and_then : Option (List Cell) → (List Cell → Option (List Cell)) → Option (List Cell)
and_then none k = none
and_then (some cells) k = k cells

abbrev pub update_at : (Cell → Option Cell) → ℕ → List Cell → Option (List Cell)
update_at f i [] = none
update_at f zero (c ∷ cells) = put_first (f c) cells
update_at f (suc i) (c ∷ cells) = put_second c (update_at f i cells)

abbrev pub update_last : (Cell → Option Cell) → List Cell → Option (List Cell)
update_last f [] = none
update_last f (c ∷ []) = put_first (f c) []
update_last f (c ∷ d ∷ cells) = put_second c (update_last f (d ∷ cells))

-- `sorted` takes a text apart
abbrev canonical_cell : Cell → Option Cell
canonical_cell Cell.null = some Cell.null
canonical_cell (array labels) = elim (canonical_labels (some labels)) [
  | none ↦ none
  | some l ↦ some (array l)
]
canonical_cell (Cell.str s) = elim (canonical_labels (some (map (λ c. c ∷ []) s))) [
  | none ↦ none
  | some l ↦ some (array l)
]
canonical_cell (time at) = none

module _ {S O : Type 0} (py : Python S O) where
  abbrev pub parsed_cell : Cell → Option Cell
  parsed_cell (Cell.str s) = elim (py.fromisoformat s) [ none ↦ none | some at ↦ some (time at) ]
  parsed_cell c = some c

  abbrev pub current_cell : Cell → Option Cell
  current_cell (Cell.str s) = elim (py.loads s) [
    | none ↦ none
    | some v ↦ some (Cell.str (py.dumps (canonical_legacy py.sort_key py.literal_eval v)))
  ]
  current_cell c = some c

  abbrev label_step : Option ℕ → List Cell → Option (List Cell)
  label_step none cells = some cells
  label_step (some i) cells = update_at canonical_cell i cells

  -- `_rehydrate_params` on params that are there
  unfoldable pub rehydrate_params : Registry → List Cell → Option (List Cell)
  unfolding canonical_legacy
  rehydrate_params registry cells =
      and_then (update_at parsed_cell (valid_from_index registry) cells) (λ rehydrated.
        and_then (update_last current_cell rehydrated) (label_step (labels_index registry)))
