-- ===== src/RegistryItems/Events.antt =====
-- registry_listener.py: the items of the registries' events and of the snapshot.
use ha_timescaledb_recorder.Prelude.{ℕ, List, [], ◌∷◌, ◌++◌, Option, none, some, map, if◌then◌else◌}
use ha_timescaledb_recorder.Canonical.{Text, t, same_text, is_in}
use ha_timescaledb_recorder.Canonical.Sorting.{sort_by}
use ha_timescaledb_recorder.RegistryItems.{
  Python, Registry, EntityEntry, DeviceEntry, AreaEntry, LabelEntry, Cell, to_json_safe,
  extract_entity_params, extract_device_params, extract_area_params, extract_label_params,
}

pub record QueueItem : Type 0 where
  pub registry : Registry
  pub action : Text
  pub registry_id : Option Text
  pub old_id : Option Text
  pub params : Option (List Cell)
  pub live_ids : Option (List Text)  -- `none`: the key is absent
  pub enqueued_at : Text

-- How a handler ends: `skipped` returns without an item, `raised` is an AssertionError.
pub data Handled : Type 0 where
  enqueued : QueueItem → Handled
  skipped : Handled
  raised : Handled

abbrev event_item : Registry → Text → Text → Option Text → Option (List Cell) → Text → QueueItem
event_item registry action id old_id params enqueued_at = record {
  registry = registry;
  action = action;
  registry_id = some id;
  old_id = old_id;
  params = params;
  live_ids = none;
  enqueued_at = enqueued_at;
}

-- `list({...})`: one of each, here the last
abbrev pub distinct : List Text → List Text
distinct [] = []
distinct (x ∷ xs) = let rest = distinct xs in if is_in x rest then rest else x ∷ rest

-- What the handlers share: `entry` is what the registry has for the id, `now` the clock when the params
-- are extracted and `later` when the item is made.
module _ {S O E : Type 0} (py : Python S O) where
  abbrev pub handle :
      Registry → (E → ℕ → List Cell) → Text → Text → Option Text → Option E → ℕ → ℕ → Handled
  handle registry extract action id old_id entry now later =
      let item = λ (params : Option (List Cell)).
        enqueued (event_item registry action id old_id params (py.isoformat later)) in
      if same_text action (t "remove")
      then item none
      else elim entry [ none ↦ skipped | some e ↦ item (some (to_json_safe py (extract e now))) ]

  abbrev pub snapshot_item : Registry → (E → ℕ → List Cell) → (E → Text) → ℕ → E → QueueItem
  snapshot_item registry extract key now entry =
      event_item registry (t "snapshot") (key entry) none
        (some (to_json_safe py (extract entry now))) (py.isoformat now)

  abbrev pub sweep_item : Registry → (E → Text) → ℕ → List E → QueueItem
  sweep_item registry key now entries = record {
    registry = registry;
    action = t "sweep";
    registry_id = none;
    old_id = none;
    params = none;
    live_ids = some (sort_by (λ id. id) (distinct (map key entries)));
    enqueued_at = py.isoformat now;
  }

module _ {S O : Type 0} (py : Python S O) where
  unfoldable pub handle_entity_registry_updated :
      Text → Text → Option Text → Option (EntityEntry S O) → ℕ → ℕ → Handled
  unfolding to_json_safe
  handle_entity_registry_updated = handle py Registry.entity (extract_entity_params py)

  unfoldable pub handle_device_registry_updated :
      Text → Text → Option (DeviceEntry S O) → ℕ → ℕ → Handled
  unfolding to_json_safe
  handle_device_registry_updated action id =
      handle py Registry.device (extract_device_params py) action id none

  -- the id may be None, which only a reorder has
  unfoldable pub handle_area_registry_updated :
      Text → Option Text → Option (AreaEntry S O) → ℕ → ℕ → Handled
  unfolding to_json_safe
  handle_area_registry_updated action none entry now later =
      if same_text action (t "reorder") then skipped else raised
  handle_area_registry_updated action (some id) entry now later =
      if same_text action (t "reorder")
      then skipped
      else handle py Registry.area (extract_area_params py) action id none entry now later

  unfoldable pub handle_label_registry_updated :
      Text → Text → Option (LabelEntry S O) → ℕ → ℕ → Handled
  unfolding to_json_safe
  handle_label_registry_updated action id =
      handle py Registry.label (extract_label_params py) action id none

  -- `enqueue_snapshot`: what it appends to the buffer
  unfoldable pub enqueue_snapshot :
      List (AreaEntry S O)
      → List (LabelEntry S O)
      → List (EntityEntry S O)
      → List (DeviceEntry S O)
      → ℕ
      → List QueueItem
  unfolding to_json_safe
  enqueue_snapshot areas labels entities devices now =
      let items =
        map (snapshot_item py Registry.area (extract_area_params py) (λ e. e.id) now) areas
        ++ map (snapshot_item py Registry.label (extract_label_params py) (λ e. e.label_id) now)
            labels
        ++ map (snapshot_item py Registry.entity (extract_entity_params py) (λ e. e.entity_id) now)
            entities
        ++ map (snapshot_item py Registry.device (extract_device_params py) (λ e. e.id) now)
            devices in
      let sweeps =
        sweep_item py Registry.area (λ e. e.id) now areas
        ∷ sweep_item py Registry.label (λ e. e.label_id) now labels
        ∷ sweep_item py Registry.entity (λ e. e.entity_id) now entities
        ∷ sweep_item py Registry.device (λ e. e.id) now devices
        ∷ [] in
      items ++ sweeps
