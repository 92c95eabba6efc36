-- ===== src/Scd2/Era.antt =====
-- The join of the states with a dimension table in the view states_flat of const.py.

use text.Mathlib.TextEquality.{eq_iff}
use ha_timescaledb_recorder.Prelude.{
  ℕ, ◌≡◌, refl, Bool, true, false, ◌&&◌, Option, none, some, String, List, [], ◌∷◌, arith, leb,
  length, map, All, if◌then◌else◌, is_empty, Bool-cases, inl, inr,
}
use ha_timescaledb_recorder.Scd2.{Version, Table, below, has_id}
use ha_timescaledb_recorder.Scd2.Intervals.{IsHistory, Apart}

module _ {P : Type 0} where
  -- _SCD2_ERA_JOIN
  abbrev pub in_era : String → ℕ → Version P → Bool
  in_era id ts v = has_id id v && leb v.valid_from ts && below ts v.valid_to

  abbrev pub eras : String → ℕ → Table P → Table P
  eras id ts [] = []
  eras id ts (v ∷ t) = let rest = eras id ts t in if in_era id ts v then v ∷ rest else rest

  -- the rows that the LEFT JOIN makes of one state
  pub joined_rows : String → ℕ → Table P → List (Option (Version P))
  joined_rows id ts t =
      let found = eras id ts t in if is_empty found then none ∷ [] else map some found

  Apart-in_era :
      (id : String) (ts : ℕ) (v w : Version P)
      → Apart v w
      → in_era id ts v ≡ true
      → in_era id ts w ≡ false
  Apart-in_era id ts v w a h = ground (arith, eq_iff v.id id, eq_iff w.id id, eq_iff v.id w.id)

  none_left :
      (id : String) (ts : ℕ) (v : Version P) (t : Table P)
      → All (Apart v) t
      → in_era id ts v ≡ true
      → eras id ts t ≡ []
  none_left id ts v [] a h = refl
  none_left id ts v (w ∷ t) (p, a) h = rw (Apart-in_era id ts v w p h) (none_left id ts v t a h)

  pub joined_once :
      (id : String) (ts : ℕ) (t : Table P) → IsHistory t → length (joined_rows id ts t) ≡ 1
  unfolding joined_rows
  joined_once id ts [] h = refl
  joined_once id ts (v ∷ t) (u, a, h) = elim (Bool-cases (in_era id ts v)) [
    | inl hit ↦ rw (hit, none_left id ts v t a hit) refl
    | inr miss ↦ rw miss (joined_once id ts t h)
  ]
