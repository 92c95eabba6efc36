-- ===== src/Scd2.antt =====
-- The dimension tables of const.py and the statements on them, for one of the four registries: the
-- statements have one shape. `P` is what a row holds besides its id and its interval; times are
-- ticks. A statement gives the new table, and the number of rows that it wrote.
pub mod Intervals
pub mod Replays
pub mod Era
use text.Mathlib.Text.{◌==◌ as str_eq}
use ha_timescaledb_recorder.Prelude.{
  ℕ, suc, ◌+◌, Bool, true, false, not, ◌&&◌, ◌||◌, Option, none, some, String, List, [], ◌∷◌, ◌++◌,
  ltb, leb, ◌==◌, if◌then◌else◌, is_some,
}

pub record Version (P : Type 0) : Type 0 where
  pub id : String
  pub valid_from : ℕ
  pub valid_to : Option ℕ  -- NULL: the version is open
  pub payload : P

abbrev pub Table : Type 0 → Type 0
Table P = List (Version P)

-- `x < COALESCE(valid_to, 'infinity')`
abbrev pub below : ℕ → Option ℕ → Bool
below x none = true
below x (some y) = ltb x y

module _ {P : Type 0} where
  abbrev pub is_open : Version P → Bool
  is_open v = not (is_some v.valid_to)

  abbrev pub has_id : String → Version P → Bool
  has_id id v = str_eq v.id id

  abbrev pub count : (Version P → Bool) → Table P → ℕ
  count p [] = 0
  count p (v ∷ t) = (if p v then 1 else 0) + count p t

  abbrev pub exists : (Version P → Bool) → Table P → Bool
  exists p [] = false
  exists p (v ∷ t) = p v || exists p t

  -- `UPDATE ... SET valid_to = ts WHERE p`
  abbrev pub end_rows : (Version P → Bool) → ℕ → Table P → Table P
  end_rows p ts [] = []
  end_rows p ts (v ∷ t) = (if p v then record v { valid_to = some ts } else v) ∷ end_rows p ts t

  abbrev pub to_close : String → ℕ → Version P → Bool
  to_close id ts v = has_id id v && is_open v && ltb v.valid_from ts

  -- SCD2_CLOSE_*_SQL
  pub close : String → ℕ → Table P → Table P × ℕ
  close id ts t = (end_rows (to_close id ts) ts t, count (to_close id ts) t)

  -- `tstzrange(...) && tstzrange(...)` with `[)` bounds, on rows with one id. An empty range overlaps
  -- nothing.
  abbrev pub overlaps : Version P → Version P → Bool
  overlaps v w =
      str_eq v.id w.id
      && below v.valid_from v.valid_to
      && below w.valid_from w.valid_to
      && below v.valid_from w.valid_to
      && below w.valid_from v.valid_to

  pub has_open : String → Table P → Bool
  has_open id = exists (λ v. has_id id v && is_open v)

  -- SCD2_SNAPSHOT_*_SQL; `none` is the refusal of the exclusion constraint, where it is in force
  pub insert_version : Bool → Version P → Table P → Option (Table P × ℕ)
  unfolding has_open
  insert_version enforced v t =
      if has_open v.id t
      then some (t, 0)
      else if enforced && exists (overlaps v) t
      then none
      else some (t ++ v ∷ [], 1)

  -- SCD2_OPEN_VERSION_AT_SQL
  pub open_version_at : String → ℕ → Table P → Bool
  open_version_at id ts = exists (λ v. has_id id v && is_open v && v.valid_from == ts)

  -- SCD2_OPEN_VERSION_SQL
  pub open_version : String → Table P → Option ℕ
  open_version id [] = none
  open_version id (v ∷ t) =
      if has_id id v && is_open v then some v.valid_from else open_version id t

  abbrev newer : Option (Version P) → Version P → Version P
  newer none v = v
  newer (some w) v = if ltb w.valid_from v.valid_from then v else w

  current_from : Option (Version P) → String → Table P → Option (Version P)
  current_from best id [] = best
  current_from best id (v ∷ t) =
      current_from (if has_id id v && is_open v then some (newer best v) else best) id t

  -- SELECT_*_CURRENT_SQL: the open row that starts last
  pub current : String → Table P → Option (Version P)
  unfolding current_from
  current id t = current_from none id t

  -- SCD2_ANY_VERSION_SQL; the payloads are compared for the entities, whose rows have a uuid
  pub any_version : (P → P → Bool) → String → P → Table P → Bool
  any_version same_entry id p = exists (λ v. has_id id v || same_entry v.payload p)

  abbrev pub listed : List String → Version P → Bool
  listed [] v = false
  listed (id ∷ ids) v = has_id id v || listed ids v

  abbrev pub to_sweep : ℕ → List String → Version P → Bool
  to_sweep ts live v = is_open v && ltb v.valid_from ts && not (listed live v)

  -- SCD2_SWEEP_COUNT_SQL
  unfoldable pub sweep_count : ℕ → List String → Table P → ℕ × ℕ
  sweep_count ts live t = (count is_open t, count (to_sweep ts live) t)

  -- SCD2_SWEEP_CLOSE_SQL
  unfoldable pub sweep_close : ℕ → List String → Table P → Table P × ℕ
  sweep_close ts live t = (end_rows (to_sweep ts live) ts t, count (to_sweep ts live) t)
