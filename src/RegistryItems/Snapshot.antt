-- ===== src/RegistryItems/Snapshot.antt =====
-- registry_listener.py: the items of a snapshot and of the events.
use ha_timescaledb_recorder.Prelude.{
  ℕ, ◌≡◌, refl, sym, ap, ◌∙◌, List, [], ◌∷◌, Bool, true, false, ◌||◌, Option, none, some, arith,
  map, any, is_some, All, All-append, Bool-cases, inl, inr,
}
use ha_timescaledb_recorder.Canonical.{Text, t, same_text, is_in}
use ha_timescaledb_recorder.Canonical.Sorting.{insert_by, sort_by}
use ha_timescaledb_recorder.Canonical.Plain.{IsCurrent}
use ha_timescaledb_recorder.RegistryItems.{
  Python, EntityEntry, DeviceEntry, AreaEntry, LabelEntry, Entry, an_entity, a_device, an_area,
  a_label, Registry, Cell, to_json_safe, extract_params, extra_of, registry_of,
  extract_entity_params, extract_device_params, extract_area_params, extract_label_params,
}
use ha_timescaledb_recorder.RegistryItems.Rehydration.{rehydrate_params}
use ha_timescaledb_recorder.RegistryItems.Events.{
  QueueItem, Handled, enqueued, skipped, raised, distinct, handle, handle_entity_registry_updated,
  handle_device_registry_updated, handle_area_registry_updated, handle_label_registry_updated,
  sweep_item, enqueue_snapshot,
}
use ha_timescaledb_recorder.RegistryItems.RoundTrip.{rehydrate_params-to_json_safe}

same_text_path : (a b : Text) → same_text a b ≡ true → a ≡ b
same_text_path [] [] h = refl
same_text_path [] (d ∷ b) h = absurd (ground (arith, h))
same_text_path (c ∷ a) [] h = absurd (ground (arith, h))
same_text_path (c ∷ a) (d ∷ b) h =
    let heads : c ≡ d = ground (arith, h) in
    let tails = same_text_path a b (ground (arith, h)) in λ i. heads i ∷ tails i

is_in-insert_by :
    (x y : Text) (ys : List Text) → is_in x (insert_by (λ s. s) y ys) ≡ is_in x (y ∷ ys)
is_in-insert_by x y [] = refl
is_in-insert_by x y (z ∷ ys) = ground (arith, is_in-insert_by x y ys)

is_in-sort_by : (x : Text) (ys : List Text) → is_in x (sort_by (λ s. s) ys) ≡ is_in x ys
is_in-sort_by x [] = refl
is_in-sort_by x (y ∷ ys) =
    is_in-insert_by x y (sort_by (λ s. s) ys) ∙ ap (λ b. same_text x y || b) (is_in-sort_by x ys)

is_in-distinct : (x : Text) (ys : List Text) → is_in x (distinct ys) ≡ is_in x ys
is_in-distinct x [] = refl
is_in-distinct x (y ∷ ys) = elim (Bool-cases (same_text x y)) [
  | inl h ↦
      let one = same_text_path x y h in
      let also : is_in x (distinct ys) ≡ is_in y (distinct ys) =
        ap (λ s. is_in s (distinct ys)) one in
      ground (arith, h, also)
  | inr n ↦ ground (arith, n, is_in-distinct x ys)
]

module _ {E : Type 0} where
  any-map :
      {B : Type 0} (p : B → Bool) (f : E → B) (xs : List E)
      → any p (map f xs) ≡ any (λ x. p (f x)) xs
  any-map p f [] = refl
  any-map p f (x ∷ xs) = ap (λ b. p (f x) || b) (any-map p f xs)

  All-of_map :
      {B : Type 0} (Q : E → Type 0) (P : B → Type 0) (f : E → B) (xs : List E)
      → ((x : E) → Q x → P (f x))
      → All Q xs
      → All P (map f xs)
  All-of_map Q P f [] h q = tt
  All-of_map Q P f (x ∷ xs) h (q, qs) = (h x q, All-of_map Q P f xs h qs)

abbrev pub is_live : Text → Option (List Text) → Bool
is_live id none = false
is_live id (some ids) = is_in id ids

module _ {S O E : Type 0} (py : Python S O) where
  -- A sweep takes for live the ids of the registry's entries, and no others.
  pub is_live-sweep_item :
      (registry : Registry) (key : E → Text) (now : ℕ) (entries : List E) (id : Text)
      → is_live id (sweep_item py registry key now entries).live_ids
        ≡ any (λ e. same_text id (key e)) entries
  is_live-sweep_item registry key now entries id =
      is_in-sort_by id (distinct (map key entries))
      ∙ is_in-distinct id (map key entries)
      ∙ any-map (same_text id) key entries

module _ {S O : Type 0} (py : Python S O) where
  -- what the queue and the worker need of an entry: its extra fields can be read back
  abbrev pub IsWritten : Entry S O → Type 0
  IsWritten e =
      (py.loads (py.dumps (extra_of py e)) ≡ some (extra_of py e)) × IsCurrent (extra_of py e)

  -- whether the worker can make ready the params of an item
  pub is_readable : QueueItem → Bool
  unfolding rehydrate_params
  is_readable item = elim item.params [
    | none ↦ same_text item.action (t "sweep") || same_text item.action (t "remove")
    | some cells ↦ is_some (rehydrate_params py item.registry cells)
  ]

  read_back :
      (e : Entry S O) (now : ℕ)
      → py.fromisoformat (py.isoformat now) ≡ some now
      → IsWritten e
      → is_some (rehydrate_params py (registry_of e) (to_json_safe py (extract_params py e now)))
        ≡ true
  read_back e now at (extra, current) =
      ap is_some (rehydrate_params-to_json_safe py e now at extra current)

  -- Each item of a snapshot can be made ready by the worker, where the extra fields of the entries can be
  -- read back and so can the time.
  pub enqueue_snapshot-is_readable :
      (areas : List (AreaEntry S O)) (labels : List (LabelEntry S O))
      (entities : List (EntityEntry S O)) (devices : List (DeviceEntry S O)) (now : ℕ)
      → py.fromisoformat (py.isoformat now) ≡ some now
      → All (λ e. IsWritten (an_area e)) areas
      → All (λ e. IsWritten (a_label e)) labels
      → All (λ e. IsWritten (an_entity e)) entities
      → All (λ e. IsWritten (a_device e)) devices
      → All
          (λ item. is_readable item ≡ true)
          (enqueue_snapshot py areas labels entities devices now)
  unfolding enqueue_snapshot is_readable
  enqueue_snapshot-is_readable areas labels entities devices now at a l e d =
      let P = λ (item : QueueItem). is_readable item ≡ true in
      All-append P _ _
        (All-append P _ _
          (All-append P _ _
            (All-append P _ _ (All-of_map _ P _ areas (λ x h. read_back (an_area x) now at h) a)
              (All-of_map _ P _ labels (λ x h. read_back (a_label x) now at h) l))
            (All-of_map _ P _ entities (λ x h. read_back (an_entity x) now at h) e))
          (All-of_map _ P _ devices (λ x h. read_back (a_device x) now at h) d))
        (refl, (refl, (refl, (refl, tt))))

  -- a handler that raises nothing and whose item, if it makes one, can be made ready
  pub is_handled : Handled → Bool
  unfolding is_readable
  is_handled (enqueued item) = is_readable item
  is_handled skipped = true
  is_handled raised = false

  abbrev pub Found {ℓ} : {E : Type ℓ} → (E → Entry S O) → Option E → Type 0
  Found inj none = Unit
  Found inj (some e) = IsWritten (inj e)

module _ {S O E : Type 0} (py : Python S O) where
  handle-is_handled :
      (registry : Registry) (inj : E → Entry S O) (extract : E → ℕ → List Cell) (action id : Text)
      (old_id : Option Text) (entry : Option E) (now later : ℕ)
      → ((e : E) → registry_of (inj e) ≡ registry)
      → ((e : E) → extract_params py (inj e) ≡ extract e)
      → py.fromisoformat (py.isoformat now) ≡ some now
      → Found py inj entry
      → is_handled py (handle py registry extract action id old_id entry now later) ≡ true
  unfolding is_handled is_readable to_json_safe
  handle-is_handled registry inj extract action id old_id none now later same_registry same at
        found =
      elim (Bool-cases (same_text action (t "remove"))) [
        | inl y ↦ rw y (ground (arith, y))
        | inr n ↦ rw n refl
      ]
  handle-is_handled registry inj extract action id old_id (some e) now later same_registry same at
        found =
      elim (Bool-cases (same_text action (t "remove"))) [
        | inl y ↦ rw y (ground (arith, y))
        | inr n ↦ rw n (
            sym
              (ap (λ f. is_some (rehydrate_params py registry (to_json_safe py (f now)))) (same e))
            ∙ sym (
                ap
                  (λ r.
                    is_some
                      (rehydrate_params py r (to_json_safe py (extract_params py (inj e) now))))
                  (same_registry e))
            ∙ read_back py (inj e) now at found)
      ]

module _ {S O : Type 0} (py : Python S O) where
  -- Where the time and the extra fields of the entries can be read back, and no text in the extra fields
  -- looks like the text of a set: the handlers of entities, devices and labels never raise, nor does that
  -- of areas where the event names an area, and the item that they put, if any, can be made ready by the
  -- worker, for any action and whether or not the registry still has the entry.
  pub handlers_give_readable :
      (action id : Text) (old_id : Option Text) (now later : ℕ) (entity : Option (EntityEntry S O))
      (device : Option (DeviceEntry S O)) (area : Option (AreaEntry S O))
      (label : Option (LabelEntry S O))
      → py.fromisoformat (py.isoformat now) ≡ some now
      → Found py an_entity entity
      → Found py a_device device
      → Found py an_area area
      → Found py a_label label
      → (is_handled py (handle_entity_registry_updated py action id old_id entity now later) ≡ true)
        × (is_handled py (handle_device_registry_updated py action id device now later) ≡ true)
        × (is_handled py (handle_area_registry_updated py action (some id) area now later) ≡ true)
        × (is_handled py (handle_label_registry_updated py action id label now later) ≡ true)
  unfolding handle_entity_registry_updated handle_device_registry_updated
      handle_area_registry_updated handle_label_registry_updated
  handlers_give_readable action id old_id now later entity device area label at e d a l =
      let area_handled =
        handle-is_handled py Registry.area an_area (extract_area_params py) action id none area now
          later (λ e. refl) (λ e. refl) at a in
      (
        handle-is_handled py Registry.entity an_entity (extract_entity_params py) action id old_id
            entity now later (λ e. refl) (λ e. refl) at e,
        handle-is_handled py Registry.device a_device (extract_device_params py) action id none
            device now later (λ e. refl) (λ e. refl) at d,
        elim (Bool-cases (same_text action (t "reorder"))) [
          | inl y ↦ rw y (unfold is_handled in refl)
          | inr n ↦ rw n area_handled
        ],
        handle-is_handled py Registry.label a_label (extract_label_params py) action id none label
            now later (λ e. refl) (λ e. refl) at l,
      )
