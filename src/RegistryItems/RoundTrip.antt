-- ===== src/RegistryItems/RoundTrip.antt =====
-- The params of a registry entry, through the queue and back.
use ha_timescaledb_recorder.Prelude.{
  ℕ, ◌≡◌, refl, Bool, true, false, Option, none, some, if◌then◌else◌,
}
use ha_timescaledb_recorder.Canonical.{Text}
use ha_timescaledb_recorder.Canonical.Sorting.{sort_by-sort_by}
use ha_timescaledb_recorder.Canonical.Plain.{IsCurrent, canonical_legacy-IsCurrent}
use ha_timescaledb_recorder.RegistryItems.{
  Python, Entry, an_entity, a_device, an_area, a_label, build_extra, Cell, cell, json_safe_cell,
  to_json_safe, extract_params, extra_of, registry_of,
}
use ha_timescaledb_recorder.RegistryItems.Rehydration.{rehydrate_params}

module _ {S O : Type 0} (py : Python S O) where
  safe_cell : (o : Option Text) → json_safe_cell py (cell o) ≡ cell o
  safe_cell none = refl
  safe_cell (some s) = refl

  safe_if :
      (b : Bool) (o : Option Text)
      → json_safe_cell py (if b then Cell.null else cell o) ≡ (if b then Cell.null else cell o)
  safe_if true o = refl
  safe_if false o = safe_cell o

  -- The params of an entry come back from the queue as they were extracted, where the text of the time
  -- and of the extra fields can be read back, and no text in these looks like one of a set.
  pub rehydrate_params-to_json_safe :
      (e : Entry S O) (now : ℕ)
      → py.fromisoformat (py.isoformat now) ≡ some now
      → py.loads (py.dumps (extra_of py e)) ≡ some (extra_of py e)
      → IsCurrent (extra_of py e)
      → rehydrate_params py (registry_of e) (to_json_safe py (extract_params py e now))
        ≡ some (extract_params py e now)
  unfolding rehydrate_params to_json_safe build_extra
  rehydrate_params-to_json_safe (an_entity e) now at extra current =
      let kept =
        canonical_legacy-IsCurrent py.sort_key py.literal_eval (extra_of py (an_entity e))
          current in
      let sorted = sort_by-sort_by (λ label. label) e.labels in
      simp (at, extra, kept, safe_cell, sorted)
  rehydrate_params-to_json_safe (a_device e) now at extra current =
      let kept =
        canonical_legacy-IsCurrent py.sort_key py.literal_eval (extra_of py (a_device e)) current in
      let sorted = sort_by-sort_by (λ label. label) e.labels in
      simp (at, extra, kept, safe_cell, safe_if, sorted)
  rehydrate_params-to_json_safe (an_area e) now at extra current =
      let kept =
        canonical_legacy-IsCurrent py.sort_key py.literal_eval (extra_of py (an_area e)) current in
      simp (at, extra, kept)
  rehydrate_params-to_json_safe (a_label e) now at extra current =
      let kept =
        canonical_legacy-IsCurrent py.sort_key py.literal_eval (extra_of py (a_label e)) current in
      simp (at, extra, kept, safe_cell)
