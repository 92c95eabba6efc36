-- ===== src/RegistryItems/Entries.antt =====
-- registry_listener.py: the entries of the registries, and the params made of them.
use ha_timescaledb_recorder.Prelude.{ℕ, List, [], ◌∷◌, Bool, Option, none, some}
use ha_timescaledb_recorder.Canonical.{Text, t, Fields}

pub record EntityEntry (S O : Type 0) : Type 0 where
  pub entity_id : Text
  pub id : Text
  pub name : Option Text
  pub original_name : Option Text
  pub platform : Text
  pub device_id : Option Text
  pub area_id : Option Text
  pub labels : List Text  -- a set, in the order of its iteration
  pub device_class : Option Text
  pub unit_of_measurement : Option Text
  pub disabled_by : Option Text  -- its `value`
  pub raw : Fields S O  -- `attrs.asdict`, or what stands for it

pub record DeviceEntry (S O : Type 0) : Type 0 where
  pub id : Text
  pub name : Option Text
  pub manufacturer : Option Text
  pub model : Option Text
  pub area_id : Option Text
  pub labels : List Text
  pub is_child : Bool
  pub raw : Fields S O

pub record AreaEntry (S O : Type 0) : Type 0 where
  pub id : Text
  pub name : Text
  pub raw : Fields S O

pub record LabelEntry (S O : Type 0) : Type 0 where
  pub label_id : Text
  pub name : Text
  pub color : Option Text
  pub raw : Fields S O

pub data Registry : Type 0 where
  entity device area label : Registry

-- an entry of some registry
pub data Entry (S O : Type 0) : Type 0 where
  an_entity : EntityEntry S O → Entry S O
  a_device : DeviceEntry S O → Entry S O
  an_area : AreaEntry S O → Entry S O
  a_label : LabelEntry S O → Entry S O

-- one of the params
pub data Cell : Type 0 where
  null : Cell
  str : Text → Cell
  time : ℕ → Cell
  array : List Text → Cell

abbrev pub cell : Option Text → Cell
cell none = Cell.null
cell (some s) = Cell.str s

abbrev pub entity_typed_keys : List Text
entity_typed_keys =
    t "entity_id"
    ∷ t "id"
    ∷ t "name"
    ∷ t "original_name"
    ∷ t "domain"
    ∷ t "platform"
    ∷ t "device_id"
    ∷ t "area_id"
    ∷ t "labels"
    ∷ t "device_class"
    ∷ t "unit_of_measurement"
    ∷ t "disabled_by"
    ∷ []

abbrev pub entity_extra_excluded_keys : List Text
entity_extra_excluded_keys = t "compat_aliases" ∷ entity_typed_keys

abbrev pub device_typed_keys : List Text
device_typed_keys = t "id" ∷ t "name" ∷ t "manufacturer" ∷ t "model" ∷ t "area_id" ∷ t "labels" ∷ []

abbrev pub area_typed_keys : List Text
area_typed_keys = t "id" ∷ t "name" ∷ []

abbrev pub label_typed_keys : List Text
label_typed_keys = t "label_id" ∷ t "name" ∷ t "color" ∷ []
