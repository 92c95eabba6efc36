-- ===== src/RegistryItems/Tests.antt =====
-- Runs of the registry's items on small entries.
use ha_timescaledb_recorder.Prelude.{
  ℕ, ◌≡◌, refl, ap, [], ◌∷◌, ◌++◌, Bool, true, false, Option, none, some, arith, if◌then◌else◌,
  String,
}
use ha_timescaledb_recorder.Canonical.{
  Text, t, same_text, Value, text, list, set, dict, nil, cons, Fields, end, field, canonical,
  set_repr,
}
use ha_timescaledb_recorder.Canonical.Sorting.{swapped_first}
use ha_timescaledb_recorder.Canonical.SetOrder.{reordered, swapped, a_field, no_fields}
use ha_timescaledb_recorder.RegistryItems.{
  Python, EntityEntry, AreaEntry, an_entity, Registry, Cell, time, array, to_json_safe,
  extract_params, build_extra, json_form,
}
use ha_timescaledb_recorder.RegistryItems.Rehydration.{rehydrate_params}
use ha_timescaledb_recorder.RegistryItems.Events.{
  handle_entity_registry_updated, handle_device_registry_updated, handle_area_registry_updated,
  handle_label_registry_updated,
}
use ha_timescaledb_recorder.RegistryItems.Changes.{row_changed}
use ha_timescaledb_recorder.RegistryItems.RoundTrip.{rehydrate_params-to_json_safe}
use ha_timescaledb_recorder.RegistryItems.Snapshot.{is_handled, handlers_give_readable}
use ha_timescaledb_recorder.RegistryItems.Unchanged.{row_of, row_changed-SameVersion, same_entity}

abbrev word : String → Value Bool Bool
word s = text (t s)

-- the texts of the values that occur here, by the first field
abbrev write : Value Bool Bool → Text
write (dict (field k v fs)) = t "{" ++ k
write (dict end) = t "{}"
write (text s) = s
write _ = t "?"

abbrev aliases_now : Fields Bool Bool
aliases_now =
    field (t "aliases") (list (cons (word "x") (cons (word "y") nil)))
      (field (t "modified_at") (word "2") end)

abbrev read : Text → Option (Value Bool Bool)
read s =
    if same_text s (t "{aliases")
    then some (dict aliases_now)
    else if same_text s (t "{}")
    then some (dict end)
    else none

abbrev read_time : Text → Option ℕ
read_time (c ∷ []) = some c
read_time _ = none

abbrev py : Python Bool Bool
py = record {
  dumps = write;
  loads = read;
  sort_key = write;
  literal_eval = λ s. none;
  isoformat = λ at. at ∷ [];
  fromisoformat = read_time;
  str = λ v. t "?";
  is_computed_name = λ o. o;
  null = false;
}

abbrev lamp : EntityEntry Bool Bool
lamp = record {
  entity_id = t "light.lamp";
  id = t "u1";
  name = none;
  original_name = some (t "Lamp");
  platform = t "hue";
  device_id = some (t "d1");
  area_id = none;
  labels = t "b" ∷ t "a" ∷ [];
  device_class = none;
  unit_of_measurement = none;
  disabled_by = none;
  raw =
      field (t "aliases") (set (cons (word "y") (cons (word "x") nil)))
        (field (t "modified_at") (word "1") end);
}

abbrev raw_later : Fields Bool Bool
raw_later =
    field (t "aliases") (set (cons (word "x") (cons (word "y") nil)))
      (field (t "modified_at") (word "2") end)

abbrev lamp_later : EntityEntry Bool Bool
lamp_later = record lamp { labels = t "a" ∷ t "b" ∷ []; raw = raw_later }

abbrev kitchen : AreaEntry Bool Bool
kitchen = record { id = t "k"; name = t "Kitchen"; raw = field (t "id") (word "k") end }

lamp_params :
    extract_params py (an_entity lamp_later) 7
    ≡ Cell.str (t "light.lamp")
      ∷ Cell.str (t "u1")
      ∷ Cell.str (t "Lamp")
      ∷ Cell.str (t "light")
      ∷ Cell.str (t "hue")
      ∷ Cell.str (t "d1")
      ∷ Cell.null
      ∷ array (t "a" ∷ t "b" ∷ [])
      ∷ Cell.null
      ∷ Cell.null
      ∷ Cell.null
      ∷ time 7
      ∷ Cell.str (t "{aliases")
      ∷ []
unfolding build_extra json_form canonical
lamp_params = refl

rehydrate_params-to_json_safe_example :
    rehydrate_params py Registry.entity
      (to_json_safe py (extract_params py (an_entity lamp_later) 7))
    ≡ some (extract_params py (an_entity lamp_later) 7)
unfolding json_form canonical set_repr
rehydrate_params-to_json_safe_example =
    rehydrate_params-to_json_safe py (an_entity lamp_later) 7 refl refl
      ((refl, (refl, tt)), (refl, tt))

-- the two texts are told apart
apart :
    write (canonical write (word "y")) ≡ write (canonical write (word "x"))
    → canonical write (word "y") ≡ canonical write (word "x")
unfolding canonical
apart equal =
    let differ : same_text (t "y") (t "y") ≡ same_text (t "x") (t "y") =
      ap (λ s. same_text s (t "y")) equal in
    absurd (ground (arith, differ))

row_changed-SameVersion_example :
    row_changed py
      (λ fs gs. true)
      Registry.entity
      (some (row_of py (an_entity lamp) 3))
      (extract_params py (an_entity lamp_later) 7)
    ≡ some false
unfolding json_form canonical
row_changed-SameVersion_example =
    row_changed-SameVersion py (λ fs gs. true) (an_entity lamp) (an_entity lamp_later) 3 7
      (λ fs. refl)
      (same_entity swapped_first
        (a_field (reordered (swapped {v = word "y"} {w = word "x"} {xs = nil} apart)) no_fields))
      refl

handlers_give_readable_example :
    (is_handled py
        (handle_entity_registry_updated py (t "update") (t "light.lamp") none (some lamp_later) 7 8)
      ≡ true)
    × (is_handled py (handle_device_registry_updated py (t "update") (t "light.lamp") none 7 8)
        ≡ true)
    × (is_handled py
          (handle_area_registry_updated py (t "update") (some (t "light.lamp")) (some kitchen) 7 8)
        ≡ true)
    × (is_handled py (handle_label_registry_updated py (t "update") (t "light.lamp") none 7 8)
        ≡ true)
unfolding json_form canonical set_repr
handlers_give_readable_example =
    handlers_give_readable py (t "update") (t "light.lamp") none 7 8 (some lamp_later) none
      (some kitchen) none refl (refl, ((refl, (refl, tt)), (refl, tt))) tt (refl, tt) tt
