-- ===== src/Repair/Again.antt =====
-- repair_scd2.py: a second repair.
use ha_timescaledb_recorder.Prelude.{
  ℕ, ◌≡◌, refl, sym, ap, ◌∙◌, subst, [], ◌∷◌, true, Option, none, some, ◌==◌, arith, ◌⊎◌,
  Bool-cases, inl, inr,
}
use ha_timescaledb_recorder.Scd2.{Version, Table}
use ha_timescaledb_recorder.Repair.{
  Dimension, entities, devices, areas_or_labels, Evidence, plan, repair_ends, aligned,
  extended_entity, extended_device, moved, move_first, move_start, move_starts, repair_table,
}
use ha_timescaledb_recorder.Repair.Started.{aligned-KeepsUpright, start-Stairs, starts-Stairs}
use ha_timescaledb_recorder.Repair.Restored.{Stairs, repair-Stairs, plan-Stairs, Stairs-stay}

module _ {P : Type 0} where
  -- a first version that this move leaves where it is
  Rests : (Version P → Option ℕ → Option ℕ) → Table P → Type 0
  Rests f [] = Unit
  Rests f (v ∷ []) = f v none ≡ none
  Rests f (v ∷ w ∷ rows) = (w.valid_from == v.valid_from) ≡ true ⊎ f v (some w.valid_from) ≡ none

  -- after a move by the first, the second has nothing to do
  Settles : (Version P → Option ℕ → Option ℕ) → (Version P → Option ℕ → Option ℕ) → Type 0
  Settles f g =
      (v : Version P) (next : Option ℕ) (new : ℕ)
      → f v next ≡ some new
      → g (record v { valid_from = new }) next ≡ none

  aligned-Settles : (e : Evidence P) → Settles (aligned e) (aligned e)
  unfolding Settles
  aligned-Settles e v next new h = ground (arith, h)

  extended_entity-Settles : (e : Evidence P) → Settles (extended_entity e) (extended_entity e)
  unfolding Settles
  extended_entity-Settles e v next new h = ground (arith, h)

  extended_aligned-Settles : (e : Evidence P) → Settles (extended_entity e) (aligned e)
  unfolding Settles
  extended_aligned-Settles e v next new h = ground (arith, h)

  extended_device-Settles : (e : Evidence P) → Settles (extended_device e) (extended_device e)
  unfolding Settles
  extended_device-Settles e v next new h = ground (arith, h)

  one-Rests :
      (g : Version P → Option ℕ → Option ℕ) (v : Version P) (archive : Table P) (o : Option ℕ)
      → ((new : ℕ) → o ≡ some new → g (record v { valid_from = new }) none ≡ none)
      → (o ≡ none → g v none ≡ none)
      → Rests g (moved o v [] archive).0
  unfolding Rests
  one-Rests g v archive none after still = still refl
  one-Rests g v archive (some new) after still = after new refl

  more-Rests :
      (g : Version P → Option ℕ → Option ℕ) (v w : Version P) (rows archive : Table P)
      (o : Option ℕ)
      → ((new : ℕ) → o ≡ some new → g (record v { valid_from = new }) (some w.valid_from) ≡ none)
      → (o ≡ none → Rests g (v ∷ w ∷ rows))
      → Rests g (moved o v (w ∷ rows) archive).0
  unfolding Rests
  more-Rests g v w rows archive none after still = still refl
  more-Rests g v w rows archive (some new) after still = inr (after new refl)

  first-Rests :
      (f g : Version P → Option ℕ → Option ℕ)
      → Settles f g
      → (rows archive : Table P) → Rests g rows
      → Rests g (move_first f rows archive).0
  unfolding Settles
  first-Rests f g k [] archive h = unfold Rests in tt
  first-Rests f g k (v ∷ []) archive h =
      one-Rests g v archive (f v none) (k v none) (λ e. unfold Rests in h)
  first-Rests f g k (v ∷ w ∷ rows) archive h = elim (Bool-cases (w.valid_from == v.valid_from)) [
    | inl y ↦ rw y h
    | inr n ↦
        rw n (
          more-Rests g v w rows archive (f v (some w.valid_from)) (k v (some w.valid_from))
            (λ e. h))
  ]

  own-Rests :
      (f : Version P → Option ℕ → Option ℕ)
      → Settles f f
      → (rows archive : Table P) → Rests f (move_first f rows archive).0
  unfolding Settles
  own-Rests f k [] archive = unfold Rests in tt
  own-Rests f k (v ∷ []) archive = one-Rests f v archive (f v none) (k v none) (λ e. e)
  own-Rests f k (v ∷ w ∷ rows) archive = elim (Bool-cases (w.valid_from == v.valid_from)) [
    | inl y ↦ rw y (unfold Rests in inl y)
    | inr n ↦ rw n (
        more-Rests f v w rows archive (f v (some w.valid_from)) (k v (some w.valid_from))
          (λ e. unfold Rests in inr e))
  ]

  resting :
      (f : Version P → Option ℕ → Option ℕ) (rows archive : Table P)
      → Rests f rows
      → move_first f rows archive ≡ (rows, archive)
  unfolding Rests
  resting f [] archive h = refl
  resting f (v ∷ []) archive h = ap (λ o. moved o v [] archive) h
  resting f (v ∷ w ∷ rows) archive (inl y) = rw y refl
  resting f (v ∷ w ∷ rows) archive (inr e) = elim (Bool-cases (w.valid_from == v.valid_from)) [
    | inl y ↦ rw y refl
    | inr n ↦ rw n (ap (λ o. moved o v (w ∷ rows) archive) e)
  ]

  start-resting :
      (f : Version P → Option ℕ → Option ℕ) (rows archive : Table P)
      → Stairs rows
      → Rests f rows
      → move_start f (rows, archive) ≡ (rows, archive)
  start-resting f rows archive s h =
      ap (λ t. move_first f t archive) (plan-Stairs rows s) ∙ resting f rows archive h

  -- no move of the dimension has anything to do
  AllRest : Evidence P → Dimension → Table P → Type 0
  AllRest e entities rows = Rests (aligned e) rows × Rests (extended_entity e) rows
  AllRest e devices rows = Rests (extended_device e) rows
  AllRest e areas_or_labels rows = Unit

  starts-AllRest :
      (e : Evidence P) (d : Dimension) (t : Table P × Table P)
      → Stairs t.0
      → AllRest e d (move_starts e d t).0
  unfolding AllRest
  starts-AllRest e entities (rows, archive) s =
      let m = move_start (aligned e) (rows, archive) in
      (
        first-Rests (extended_entity e) (aligned e) (extended_aligned-Settles e) (plan m.0) m.1 (
            subst (Rests (aligned e))
              (sym (
                plan-Stairs m.0
                  (start-Stairs (aligned e) (aligned-KeepsUpright e) (rows, archive) s)))
              (own-Rests (aligned e) (aligned-Settles e) (plan rows) archive)),
        own-Rests (extended_entity e) (extended_entity-Settles e) (plan m.0) m.1,
      )
  starts-AllRest e devices (rows, archive) s =
      own-Rests (extended_device e) (extended_device-Settles e) (plan rows) archive
  starts-AllRest e areas_or_labels t s = tt

  starts-stay :
      (e : Evidence P) (d : Dimension) (rows : Table P)
      → Stairs rows
      → AllRest e d rows
      → move_starts e d (rows, []) ≡ (rows, [])
  unfolding AllRest
  starts-stay e entities rows s (a, x) =
      ap (move_start (extended_entity e)) (start-resting (aligned e) rows [] s a)
      ∙ start-resting (extended_entity e) rows [] s x
  starts-stay e devices rows s x = start-resting (extended_device e) rows [] s x
  starts-stay e areas_or_labels rows s x = refl

  -- A second repair on the same evidence changes no row and archives none.
  pub repair_table-repair_table :
      (e : Evidence P) (d : Dimension) (rows : Table P)
      → repair_table e d (repair_table e d rows).0 ≡ ((repair_table e d rows).0, [])
  unfolding repair_table
  repair_table-repair_table e d rows =
      let t = (move_starts e d (repair_ends rows)).0 in
      let s : Stairs t = starts-Stairs e d (repair_ends rows) (repair-Stairs rows) in
      ap (move_starts e d) (Stairs-stay t s)
      ∙ starts-stay e d t s (starts-AllRest e d (repair_ends rows) (repair-Stairs rows))
