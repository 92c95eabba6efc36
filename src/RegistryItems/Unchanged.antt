-- ===== src/RegistryItems/Unchanged.antt =====
-- registry_listener.py: what the comparison with the open row says of an entry that is the same.
use ha_timescaledb_recorder.Prelude.{
  ℕ, ◌≡◌, refl, sym, ap, ◌∙◌, List, [], ◌∷◌, Bool, true, false, not, some, arith, Bool-cases, inl,
  inr,
}
use ha_timescaledb_recorder.Canonical.{
  Text, same_text, is_in, Fields, end, field, canonical, canonical_fields,
}
use ha_timescaledb_recorder.Canonical.Sorting.{Shuffled, sort_by-Shuffled}
use ha_timescaledb_recorder.Canonical.SetOrder.{AlikeFields, fields-AlikeFields}
use ha_timescaledb_recorder.RegistryItems.{
  Python, EntityEntry, DeviceEntry, AreaEntry, LabelEntry, Entry, an_entity, a_device, an_area,
  a_label, Cell, time, array, by_key, is_kept, kept_fields, json_form, json_fields, build_extra,
  extract_params, extra_of, registry_of, entity_extra_excluded_keys, device_typed_keys,
  area_typed_keys, label_typed_keys,
}
use ha_timescaledb_recorder.RegistryItems.Changes.{
  Row, as_dict, extra_compare_ignore, same_texts, same_cell, without_ignored, entity_row_changed,
  device_row_changed, area_row_changed, label_row_changed, row_changed,
}

same_text_refl : (s : Text) → same_text s s ≡ true
same_text_refl [] = refl
same_text_refl (c ∷ s) = ground (arith, same_text_refl s)

same_texts_refl : (l : List Text) → same_texts l l ≡ true
same_texts_refl [] = refl
same_texts_refl (s ∷ l) = ground (arith, same_text_refl s, same_texts_refl l)

same_cell_refl : (c : Cell) → same_cell c c ≡ true
same_cell_refl Cell.null = refl
same_cell_refl (Cell.str s) = same_text_refl s
same_cell_refl (time at) = ground arith
same_cell_refl (array l) = same_texts_refl l

module _ {S O : Type 0} where
  by_key-by_key :
      (p q : Text → Bool) (fs : Fields S O) → by_key p (by_key q fs) ≡ by_key q (by_key p fs)
  by_key-by_key p q end = refl
  by_key-by_key p q (field k v fs) = ground (arith, by_key-by_key p q fs)

  module _ (py : Python S O) where
    canonical_fields-by_key :
        (p : Text → Bool) (fs : Fields S O)
        → canonical_fields py.sort_key (by_key p fs) ≡ by_key p (canonical_fields py.sort_key fs)
    unfolding canonical
    canonical_fields-by_key p end = refl
    canonical_fields-by_key p (field k v fs) = elim (Bool-cases (p k)) [
      | inl y ↦ rw y (ap (field k (canonical py.sort_key v)) (canonical_fields-by_key p fs))
      | inr n ↦ rw n (canonical_fields-by_key p fs)
    ]

    json_fields-by_key :
        (p : Text → Bool) (fs : Fields S O)
        → json_fields py (by_key p fs) ≡ by_key p (json_fields py fs)
    unfolding json_form
    json_fields-by_key p end = refl
    json_fields-by_key p (field k v fs) = elim (Bool-cases (p k)) [
      | inl y ↦ rw y (ap (field k (json_form py v)) (json_fields-by_key p fs))
      | inr n ↦ rw n (json_fields-by_key p fs)
    ]

    extra_fields : List Text → Fields S O → Fields S O
    extra_fields keys raw = json_fields py (canonical_fields py.sort_key (kept_fields keys raw))

    -- what is compared of the extra fields
    compared-extra_fields :
        (keys : List Text) (raw : Fields S O)
        → without_ignored (extra_fields keys raw)
          ≡ json_fields py
              (by_key (is_kept keys) (canonical_fields py.sort_key (without_ignored raw)))
    unfolding extra_fields
    compared-extra_fields keys raw =
        let settled = λ (k : Text). not (is_in k extra_compare_ignore) in
        let plain = canonical_fields py.sort_key raw in
        sym (json_fields-by_key settled (canonical_fields py.sort_key (kept_fields keys raw)))
        ∙ ap (λ fs. json_fields py (by_key settled fs)) (canonical_fields-by_key (is_kept keys) raw)
        ∙ ap (json_fields py) (by_key-by_key settled (is_kept keys) plain)
        ∙ ap (λ fs. json_fields py (by_key (is_kept keys) fs))
            (sym (canonical_fields-by_key settled raw))

    extra_fields-AlikeFields :
        (keys : List Text) (raw later : Fields S O)
        → AlikeFields py.sort_key (without_ignored raw) (without_ignored later)
        → without_ignored (extra_fields keys raw) ≡ without_ignored (extra_fields keys later)
    extra_fields-AlikeFields keys raw later h =
        compared-extra_fields keys raw
        ∙ ap (λ fs. json_fields py (by_key (is_kept keys) fs)) (fields-AlikeFields py.sort_key h)
        ∙ sym (compared-extra_fields keys later)

    -- Two entries of one version: they differ in the order of their sets, and in the fields that the
    -- comparison leaves out.
    pub data SameVersion : Entry S O → Entry S O → Type 0 where
      same_entity :
          {e : EntityEntry S O} {labels : List Text} {raw : Fields S O}
          → Shuffled e.labels labels
          → AlikeFields py.sort_key (without_ignored e.raw) (without_ignored raw)
          → SameVersion (an_entity e) (an_entity (record e { labels = labels; raw = raw }))
      same_device :
          {e : DeviceEntry S O} {labels : List Text} {raw : Fields S O}
          → Shuffled e.labels labels
          → AlikeFields py.sort_key (without_ignored e.raw) (without_ignored raw)
          → SameVersion (a_device e) (a_device (record e { labels = labels; raw = raw }))
      same_area :
          {e : AreaEntry S O} {raw : Fields S O}
          → AlikeFields py.sort_key (without_ignored e.raw) (without_ignored raw)
          → SameVersion (an_area e) (an_area (record e { raw = raw }))
      same_label :
          {e : LabelEntry S O} {raw : Fields S O}
          → AlikeFields py.sort_key (without_ignored e.raw) (without_ignored raw)
          → SameVersion (a_label e) (a_label (record e { raw = raw }))

    abbrev raw_of : Entry S O → Fields S O
    raw_of (an_entity e) = e.raw
    raw_of (a_device e) = e.raw
    raw_of (an_area e) = e.raw
    raw_of (a_label e) = e.raw

    abbrev keys_of : Entry S O → List Text
    keys_of (an_entity e) = entity_extra_excluded_keys
    keys_of (a_device e) = device_typed_keys
    keys_of (an_area e) = area_typed_keys
    keys_of (a_label e) = label_typed_keys

    -- the open row that an entry leaves
    abbrev pub row_of : Entry S O → ℕ → Row S O
    row_of e valid_from = record {
      columns = extract_params py e valid_from;
      extra =
          as_dict
            (json_fields py (canonical_fields py.sort_key (kept_fields (keys_of e) (raw_of e))));
    }

    -- An entry that is read again as the same version, at any time, is no change to the open row, where the
    -- text of its extra fields can be read back and a dict equals itself.
    pub row_changed-SameVersion :
        (same_json : Fields S O → Fields S O → Bool) (e later : Entry S O) (then_ now : ℕ)
        → ((fs : Fields S O) → same_json fs fs ≡ true)
        → SameVersion e later
        → py.loads (py.dumps (extra_of py later)) ≡ some (extra_of py later)
        → row_changed py same_json
            (registry_of later)
            (some (row_of e then_))
            (extract_params py later now)
          ≡ some false
    unfolding entity_row_changed device_row_changed area_row_changed label_row_changed build_extra
        extra_fields json_form canonical
    row_changed-SameVersion same_json _ _ then_ now equal (same_entity {e} {labels} {raw} sh alike)
          loaded =
        let extra = extra_fields-AlikeFields entity_extra_excluded_keys e.raw raw alike in
        simp (loaded, extra, equal, sort_by-Shuffled sh, same_cell_refl, same_texts_refl)
    row_changed-SameVersion same_json _ _ then_ now equal (same_device {e} {labels} {raw} sh alike)
          loaded =
        let extra = extra_fields-AlikeFields device_typed_keys e.raw raw alike in
        simp (loaded, extra, equal, sort_by-Shuffled sh, same_cell_refl, same_texts_refl)
    row_changed-SameVersion same_json _ _ then_ now equal (same_area {e} {raw} alike) loaded =
        let extra = extra_fields-AlikeFields area_typed_keys e.raw raw alike in
        simp (loaded, extra, equal, same_text_refl)
    row_changed-SameVersion same_json _ _ then_ now equal (same_label {e} {raw} alike) loaded =
        let extra = extra_fields-AlikeFields label_typed_keys e.raw raw alike in
        simp (loaded, extra, equal, same_cell_refl)
