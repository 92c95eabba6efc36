-- ===== src/RegistryItems.antt =====
-- custom_components/timescaledb_recorder/registry_listener.py and meta_worker.py: the params of a registry
-- entry, from the registry to the queue and from the queue to the worker. `none` is an exception, where
-- nothing else is said. Times are microseconds of UTC.
mod Entries
pub mod Rehydration
pub mod Events
pub mod Changes
pub mod RoundTrip
pub mod Snapshot
pub mod Unchanged
mod Tests
use ha_timescaledb_recorder.Prelude.{
  ℕ, zero, suc, List, [], ◌∷◌, Bool, true, false, not, ◌&&◌, ◌||◌, Option, none, some, ◌==◌, map,
  if◌then◌else◌,
}
use ha_timescaledb_recorder.Canonical.{
  Text, t, same_text, starts_with, is_in, Value, text, scalar, opaque, list, set, dict, Items, nil,
  cons, Fields, end, field, canonical, canonical_legacy, canonical_labels,
}
pub use ha_timescaledb_recorder.RegistryItems.Entries.{
  EntityEntry, DeviceEntry, AreaEntry, LabelEntry, Registry, Entry, Cell, cell, entity_typed_keys,
  entity_extra_excluded_keys, device_typed_keys, area_typed_keys, label_typed_keys, an_entity,
  a_device, an_area, a_label, time, array,
}

-- What the code takes from Python's library and Home Assistant: the texts of values and times, the key
-- by which a set is sorted, `ast.literal_eval`, `str` and the test for `COMPUTED_NAME`.
pub record Python (S O : Type 0) : Type 0 where
  pub dumps : Value S O → Text
  pub loads : Text → Option (Value S O)
  pub sort_key : Value S O → Text
  pub literal_eval : Text → Option (Value S O)
  pub isoformat : ℕ → Text
  pub fromisoformat : Text → Option ℕ
  pub str : Value S O → Text
  pub is_computed_name : O → Bool
  pub null : S

-- `entity_id.split(".")[0]`
abbrev pub domain_of : Text → Text
domain_of [] = []
domain_of (c ∷ s) = let rest = domain_of s in if c == b'.' then [] else c ∷ rest

abbrev pub is_kept : List Text → Text → Bool
is_kept keys k = not (is_in k keys) && not (starts_with (t "_") k)

module _ {S O : Type 0} where
  -- `{k: v for k, v in fs.items() if p(k)}`
  abbrev pub by_key : (Text → Bool) → Fields S O → Fields S O
  by_key p end = end
  by_key p (field k v fs) = let rest = by_key p fs in if p k then field k v rest else rest

  -- the fields that `_build_extra` keeps
  abbrev pub kept_fields : List Text → Fields S O → Fields S O
  kept_fields keys fs = by_key (is_kept keys) fs

  module _ (py : Python S O) where
    -- `_json_default`
    pub json_default : Value S O → Value S O
    json_default (opaque o) =
        if py.is_computed_name o then scalar py.null else text (py.str (opaque o))
    json_default v = text (py.str v)

    -- what `json.dumps` writes of a value, with `_json_default` for what it does not know
    unfoldable mutual
      unfolding json_default

      pub json_form : Value S O → Value S O
      json_form (text s) = text s
      json_form (scalar s) = scalar s
      json_form (opaque o) = json_default (opaque o)
      json_form (list xs) = list (json_items xs)
      json_form (set xs) = json_default (set xs)
      json_form (dict fs) = dict (json_fields fs)

      pub json_items : Items S O → Items S O
      json_items nil = nil
      json_items (cons v vs) = cons (json_form v) (json_items vs)

      pub json_fields : Fields S O → Fields S O
      json_fields end = end
      json_fields (field k v fs) = field k (json_form v) (json_fields fs)

    -- the value behind the text that `_build_extra` returns
    abbrev pub extra_value : Fields S O → List Text → Value S O
    extra_value raw keys = json_form (canonical py.sort_key (dict (kept_fields keys raw)))

    unfoldable pub build_extra : Fields S O → List Text → Text
    unfolding json_form canonical
    build_extra raw keys = py.dumps (extra_value raw keys)

    -- `name = entry.name if entry.name is not None else entry.original_name`
    abbrev pub or_else : Option Text → Option Text → Option Text
    or_else none o = o
    or_else (some s) o = some s

    abbrev pub sorted_labels : List Text → Cell
    sorted_labels labels = elim (canonical_labels (some labels)) [
      | none ↦ Cell.null
      | some l ↦ array l
    ]

    abbrev pub extract_entity_params : EntityEntry S O → ℕ → List Cell
    extract_entity_params e valid_from =
        Cell.str e.entity_id
        ∷ Cell.str e.id
        ∷ cell (or_else e.name e.original_name)
        ∷ Cell.str (domain_of e.entity_id)
        ∷ Cell.str e.platform
        ∷ cell e.device_id
        ∷ cell e.area_id
        ∷ sorted_labels e.labels
        ∷ cell e.device_class
        ∷ cell e.unit_of_measurement
        ∷ cell e.disabled_by
        ∷ time valid_from
        ∷ Cell.str (build_extra e.raw entity_extra_excluded_keys)
        ∷ []

    abbrev pub extract_device_params : DeviceEntry S O → ℕ → List Cell
    extract_device_params e valid_from =
        Cell.str e.id
        ∷ cell e.name
        ∷ (if e.is_child then Cell.null else cell e.manufacturer)
        ∷ (if e.is_child then Cell.null else cell e.model)
        ∷ cell e.area_id
        ∷ sorted_labels e.labels
        ∷ time valid_from
        ∷ Cell.str (build_extra e.raw device_typed_keys)
        ∷ []

    abbrev pub extract_area_params : AreaEntry S O → ℕ → List Cell
    extract_area_params e valid_from =
        Cell.str e.id
        ∷ Cell.str e.name
        ∷ time valid_from
        ∷ Cell.str (build_extra e.raw area_typed_keys)
        ∷ []

    abbrev pub extract_label_params : LabelEntry S O → ℕ → List Cell
    extract_label_params e valid_from =
        Cell.str e.label_id
        ∷ Cell.str e.name
        ∷ cell e.color
        ∷ time valid_from
        ∷ Cell.str (build_extra e.raw label_typed_keys)
        ∷ []

    -- `_to_json_safe`
    abbrev pub json_safe_cell : Cell → Cell
    json_safe_cell (time at) = Cell.str (py.isoformat at)
    json_safe_cell c = c

    unfoldable pub to_json_safe : List Cell → List Cell
    to_json_safe cells = map json_safe_cell cells

    -- the four extractions by registry
    abbrev pub extract_params : Entry S O → ℕ → List Cell
    extract_params (an_entity e) = extract_entity_params e
    extract_params (a_device e) = extract_device_params e
    extract_params (an_area e) = extract_area_params e
    extract_params (a_label e) = extract_label_params e

    -- the value behind the text of the extra fields of an entry
    abbrev pub extra_of : Entry S O → Value S O
    extra_of (an_entity e) = extra_value e.raw entity_extra_excluded_keys
    extra_of (a_device e) = extra_value e.raw device_typed_keys
    extra_of (an_area e) = extra_value e.raw area_typed_keys
    extra_of (a_label e) = extra_value e.raw label_typed_keys

  abbrev pub registry_of : Entry S O → Registry
  registry_of (an_entity e) = Registry.entity
  registry_of (a_device e) = Registry.device
  registry_of (an_area e) = Registry.area
  registry_of (a_label e) = Registry.label
