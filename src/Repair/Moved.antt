-- ===== src/Repair/Moved.antt =====
-- repair_scd2.py: what a repair with its moves of starts leaves as it was.
use ha_timescaledb_recorder.Prelude.{
  ℕ, ◌≤◌, ◌≡◌, refl, sym, subst, [], ◌∷◌, true, Option, none, some, ◌==◌, arith, All, Bool-cases,
  inl, inr,
}
use ha_timescaledb_recorder.Scd2.{Version, Table}
use ha_timescaledb_recorder.Repair.{
  Dimension, entities, devices, areas_or_labels, Evidence, plan, repair_ends, aligned,
  extended_entity, extended_device, moved, move_first, move_start, move_starts, repair_table,
}
use ha_timescaledb_recorder.Repair.Kept.{repair_ends-from}
use ha_timescaledb_recorder.Repair.Started.{aligned-KeepsUpright, start-Stairs, table-Stairs}
use ha_timescaledb_recorder.Repair.{run_verification, is_clean}
use ha_timescaledb_recorder.Repair.Restored.{Stairs-is_clean, Stairs, repair-Stairs, plan-Stairs}

module _ {P : Type 0} where
  -- the same rows, but for the start of the first
  abbrev pub IsRestarted : Table P → Table P → Type 0
  IsRestarted [] [] = Unit
  IsRestarted (v ∷ rows) (w ∷ others) =
      (record v { valid_from = w.valid_from } ≡ w) × (rows ≡ others)
  IsRestarted _ _ = ⊥

  KeepsBefore : ℕ → (Version P → Option ℕ → Option ℕ) → Type 0
  KeepsBefore horizon f =
      (v : Version P) (next : Option ℕ) (new : ℕ)
      → v.valid_from ≤ horizon
      → f v next ≡ some new
      → new ≤ horizon

  aligned-KeepsBefore :
      (horizon : ℕ) (e : Evidence P)
      → ((p : P) (from : ℕ) → e.device_from p ≡ some from → from ≤ horizon)
      → KeepsBefore horizon (aligned e)
  unfolding KeepsBefore
  aligned-KeepsBefore horizon e known v next new le h = by_device (e.device_from v.payload) refl h
    where
      by_device :
          (o : Option ℕ)
          → e.device_from v.payload ≡ o
          → aligned (record e { device_from = λ p. o }) v next ≡ some new
          → new ≤ horizon
      by_device none q h = ground (arith, h)
      by_device (some from) q h = ground (arith, h, known v.payload from q)

  extended_entity-KeepsBefore :
      (horizon : ℕ) (e : Evidence P) → KeepsBefore horizon (extended_entity e)
  unfolding KeepsBefore
  extended_entity-KeepsBefore horizon e v next new le h = ground (arith, le, h)

  extended_device-KeepsBefore :
      (horizon : ℕ) (e : Evidence P) → KeepsBefore horizon (extended_device e)
  unfolding KeepsBefore
  extended_device-KeepsBefore horizon e v next new le h = ground (arith, le, h)

  AllBefore : ℕ → Table P → Type 0
  AllBefore horizon rows = All (λ v. v.valid_from ≤ horizon) rows

  moved-AllBefore :
      (horizon : ℕ) (o : Option ℕ) (v : Version P) (rows archive : Table P)
      → ((new : ℕ) → o ≡ some new → new ≤ horizon)
      → AllBefore horizon (v ∷ rows)
      → AllBefore horizon (moved o v rows archive).0
  unfolding AllBefore
  moved-AllBefore horizon none v rows archive k h = h
  moved-AllBefore horizon (some new) v rows archive k (le, h) = (k new refl, h)

  first-AllBefore :
      (horizon : ℕ) (f : Version P → Option ℕ → Option ℕ)
      → KeepsBefore horizon f
      → (rows archive : Table P) → AllBefore horizon rows
      → AllBefore horizon (move_first f rows archive).0
  unfolding KeepsBefore AllBefore
  first-AllBefore horizon f k [] archive h = tt
  first-AllBefore horizon f k (v ∷ []) archive (le, h) =
      unfold AllBefore in
      moved-AllBefore horizon (f v none) v [] archive (λ new. k v none new le) (le, h)
  first-AllBefore horizon f k (v ∷ w ∷ rows) archive (le, h) =
      elim (Bool-cases (w.valid_from == v.valid_from)) [
        | inl y ↦ rw y (le, h)
        | inr n ↦ rw n (
            moved-AllBefore horizon (f v (some w.valid_from)) v (w ∷ rows) archive
              (λ new. k v (some w.valid_from) new le) (le, h))
      ]

  start-AllBefore :
      (horizon : ℕ) (f : Version P → Option ℕ → Option ℕ)
      → KeepsBefore horizon f
      → (t : Table P × Table P) → Stairs t.0
      → AllBefore horizon t.0
      → AllBefore horizon (move_start f t).0
  start-AllBefore horizon f k (rows, archive) s h =
      first-AllBefore horizon f k (plan rows) archive
        (subst (AllBefore horizon) (sym (plan-Stairs rows s)) h)

  starts-AllBefore :
      (horizon : ℕ) (e : Evidence P) (d : Dimension) (t : Table P × Table P)
      → ((p : P) (from : ℕ) → e.device_from p ≡ some from → from ≤ horizon)
      → Stairs t.0
      → AllBefore horizon t.0
      → AllBefore horizon (move_starts e d t).0
  starts-AllBefore horizon e entities t known s h =
      start-AllBefore horizon (extended_entity e) (extended_entity-KeepsBefore horizon e)
        (move_start (aligned e) t) (start-Stairs (aligned e) (aligned-KeepsUpright e) t s)
        (start-AllBefore horizon (aligned e) (aligned-KeepsBefore horizon e known) t s h)
  starts-AllBefore horizon e devices t known s h =
      start-AllBefore horizon (extended_device e) (extended_device-KeepsBefore horizon e) t s h
  starts-AllBefore horizon e areas_or_labels t known s h = h

  -- A repaired table passes each check of the script, range_overlap included, where neither a start of the
  -- rows nor the first start of the device lies after the horizon.
  pub is_clean-repair_table :
      (horizon : ℕ) (e : Evidence P) (d : Dimension) (rows : Table P)
      → All (λ v. v.valid_from ≤ horizon) rows
      → ((p : P) (from : ℕ) → e.device_from p ≡ some from → from ≤ horizon)
      → is_clean (run_verification horizon (repair_table e d rows).0) ≡ true
  unfolding repair_table AllBefore
  is_clean-repair_table horizon e d rows sane known =
      Stairs-is_clean horizon (repair_table e d rows).0 (table-Stairs e d rows) (
        starts-AllBefore horizon e d (repair_ends rows) known (repair-Stairs rows)
          (repair_ends-from horizon rows sane))
