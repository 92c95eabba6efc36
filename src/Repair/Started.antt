-- ===== src/Repair/Started.antt =====
-- repair_scd2.py: a repaired table with the moves of its start.
use ha_timescaledb_recorder.Prelude.{
  ℕ, ◌≡◌, refl, sym, subst, [], ◌∷◌, true, Option, none, some, ◌==◌, arith, Bool-cases, inl, inr,
}
use ha_timescaledb_recorder.Scd2.{Version, Table}
use ha_timescaledb_recorder.Scd2.Intervals.{is_upright, IsHistory}
use ha_timescaledb_recorder.Repair.{
  Dimension, entities, devices, areas_or_labels, Evidence, plan, repair_ends, aligned,
  extended_entity, extended_device, moved, move_first, move_start, move_starts, repair_table,
}
use ha_timescaledb_recorder.Repair.Restored.{Stairs, repair-Stairs, plan-Stairs, Stairs-IsHistory}

module _ {P : Type 0} where
  -- a new start does not come behind the end
  abbrev pub KeepsUpright : (Version P → Option ℕ → Option ℕ) → Type 0
  KeepsUpright f =
      (v : Version P) (next : Option ℕ) (new : ℕ)
      → is_upright v ≡ true
      → f v next ≡ some new
      → is_upright (record v { valid_from = new }) ≡ true

  pub aligned-KeepsUpright : (e : Evidence P) → KeepsUpright (aligned e)
  aligned-KeepsUpright e v next new up h = ground (arith, up, h)

  extended_entity-KeepsUpright : (e : Evidence P) → KeepsUpright (extended_entity e)
  extended_entity-KeepsUpright e v next new up h = ground (arith, up, h)

  extended_device-KeepsUpright : (e : Evidence P) → KeepsUpright (extended_device e)
  extended_device-KeepsUpright e v next new up h = ground (arith, up, h)

  moved-one :
      (v : Version P) (archive : Table P) (o : Option ℕ)
      → ((new : ℕ) → o ≡ some new → is_upright (record v { valid_from = new }) ≡ true)
      → Stairs (v ∷ [])
      → Stairs (moved o v [] archive).0
  moved-one v archive none up h = h
  moved-one v archive (some new) up h = up new refl

  moved-more :
      (v w : Version P) (rows archive : Table P) (o : Option ℕ)
      → ((new : ℕ) → o ≡ some new → is_upright (record v { valid_from = new }) ≡ true)
      → Stairs (v ∷ w ∷ rows)
      → Stairs (moved o v (w ∷ rows) archive).0
  moved-more v w rows archive none up h = h
  moved-more v w rows archive (some new) up (u, ends, h) = (up new refl, ends, h)

  first-Stairs :
      (f : Version P → Option ℕ → Option ℕ)
      → KeepsUpright f
      → (rows archive : Table P) → Stairs rows
      → Stairs (move_first f rows archive).0
  first-Stairs f k [] archive h = h
  first-Stairs f k (v ∷ []) archive h = moved-one v archive (f v none) (λ new e. k v none new h e) h
  first-Stairs f k (v ∷ w ∷ rows) archive (u, ends, h) =
      elim (Bool-cases (w.valid_from == v.valid_from)) [
        | inl y ↦ rw y (u, ends, h)
        | inr n ↦ rw n (
            moved-more v w rows archive (f v (some w.valid_from))
              (λ new e. k v (some w.valid_from) new u e) (u, ends, h))
      ]

  pub start-Stairs :
      (f : Version P → Option ℕ → Option ℕ)
      → KeepsUpright f
      → (t : Table P × Table P) → Stairs t.0
      → Stairs (move_start f t).0
  start-Stairs f k (rows, archive) h =
      first-Stairs f k (plan rows) archive (subst Stairs (sym (plan-Stairs rows h)) h)

  pub starts-Stairs :
      (e : Evidence P) (d : Dimension) (t : Table P × Table P)
      → Stairs t.0
      → Stairs (move_starts e d t).0
  starts-Stairs e entities t h =
      start-Stairs (extended_entity e) (extended_entity-KeepsUpright e) (move_start (aligned e) t)
        (start-Stairs (aligned e) (aligned-KeepsUpright e) t h)
  starts-Stairs e devices t h =
      start-Stairs (extended_device e) (extended_device-KeepsUpright e) t h
  starts-Stairs e areas_or_labels t h = h

  pub table-Stairs :
      (e : Evidence P) (d : Dimension) (rows : Table P) → Stairs (repair_table e d rows).0
  unfolding repair_table
  table-Stairs e d rows = starts-Stairs e d (repair_ends rows) (repair-Stairs rows)

  -- Whatever the rows of an id were, in any dimension and with any evidence on its start: after the repair
  -- no interval is inverted, and no two overlap.
  pub repair_table-IsHistory :
      (e : Evidence P) (d : Dimension) (rows : Table P) → IsHistory (repair_table e d rows).0
  repair_table-IsHistory e d rows =
      Stairs-IsHistory (repair_table e d rows).0 (table-Stairs e d rows)
