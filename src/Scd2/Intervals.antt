-- ===== src/Scd2/Intervals.antt =====
-- The invariant of the dimension tables of const.py: no interval is inverted, and no two rows of one
-- id overlap. The statements keep it.

use text.Mathlib.TextEquality.{eq_iff}
use ha_timescaledb_recorder.Prelude.{
  ℕ, ◌<◌, ◌≡◌, ◌⊎◌, refl, Bool, true, false, ◌&&◌, Option, none, some, String, List, [], ◌∷◌, ◌++◌,
  arith, leb, All, All-append, if◌then◌else◌, Bool-cases, inl, inr,
}
use ha_timescaledb_recorder.Scd2.{
  Version, Table, is_open, exists, end_rows, to_close, close, overlaps, has_open, insert_version,
  to_sweep, sweep_close,
}

module _ {P : Type 0} where
  -- The interval does not end before it starts.
  abbrev pub is_upright : Version P → Bool
  is_upright v = elim v.valid_to [ none ↦ true | some y ↦ leb v.valid_from y ]

  abbrev pub Apart : Version P → Version P → Type 0
  Apart v w = overlaps v w ≡ false

  abbrev pub IsHistory : Table P → Type 0
  IsHistory [] = Unit
  IsHistory (v ∷ t) = (is_upright v ≡ true) × All (Apart v) t × IsHistory t

  -- an open row that starts before `ts`, ended at `ts`, where `b` holds
  abbrev ended : Bool → ℕ → Version P → Version P
  ended b ts v = if b then record v { valid_to = some ts } else v

  abbrev MayEnd : Bool → ℕ → Version P → Type 0
  MayEnd b ts v = b ≡ true → (is_open v ≡ true) × (v.valid_from < ts)

  ended-upright :
      (b : Bool) (ts : ℕ) (v : Version P)
      → MayEnd b ts v
      → is_upright v ≡ true
      → is_upright (ended b ts v) ≡ true
  ended-upright b ts v m h = ground arith

  ended-Apart :
      (b c : Bool) (ts : ℕ) (v w : Version P)
      → MayEnd b ts v
      → MayEnd c ts w
      → Apart v w
      → Apart (ended b ts v) (ended c ts w)
  ended-Apart b c ts v w m n h = ground arith

  -- the rows that an update may end
  abbrev pub Ends : (Version P → Bool) → ℕ → Type 0
  Ends p ts = (v : Version P) → MayEnd (p v) ts v

  end_rows-Apart :
      (p : Version P → Bool) (ts : ℕ) (v : Version P) (b : Bool) (t : Table P)
      → Ends p ts
      → MayEnd b ts v
      → All (Apart v) t
      → All (Apart (ended b ts v)) (end_rows p ts t)
  end_rows-Apart p ts v b [] e m h = tt
  end_rows-Apart p ts v b (w ∷ t) e m h =
      (ended-Apart b (p w) ts v w m (e w) h.0, end_rows-Apart p ts v b t e m h.1)

  end_rows-IsHistory :
      (p : Version P → Bool) (ts : ℕ) (t : Table P)
      → Ends p ts
      → IsHistory t
      → IsHistory (end_rows p ts t)
  end_rows-IsHistory p ts [] e h = tt
  end_rows-IsHistory p ts (v ∷ t) e h = (
    ended-upright (p v) ts v (e v) h.0,
    end_rows-Apart p ts v (p v) t e (e v) h.1,
    end_rows-IsHistory p ts t e h.2,
  )

  to_close-Ends : (id : String) (ts : ℕ) → Ends (to_close id ts) ts
  to_close-Ends id ts v h = (ground arith, ground arith)

  to_sweep-Ends : (ts : ℕ) (live : List String) → Ends (to_sweep ts live) ts
  to_sweep-Ends ts live v h = (ground arith, ground arith)

  pub close-IsHistory :
      (id : String) (ts : ℕ) (t : Table P) → IsHistory t → IsHistory (close id ts t).0
  unfolding close
  close-IsHistory id ts t h = end_rows-IsHistory (to_close id ts) ts t (to_close-Ends id ts) h

  pub sweep_close-IsHistory :
      (ts : ℕ) (live : List String) (t : Table P)
      → IsHistory t
      → IsHistory (sweep_close ts live t).0
  unfolding sweep_close
  sweep_close-IsHistory ts live t h =
      end_rows-IsHistory (to_sweep ts live) ts t (to_sweep-Ends ts live) h

  Apart-sym : (v w : Version P) → Apart v w → Apart w v
  Apart-sym v w h = ground (arith, eq_iff v.id w.id, eq_iff w.id v.id)

  All-Apart-snoc :
      (v w : Version P) (t : Table P) → All (Apart v) t → Apart v w → All (Apart v) (t ++ w ∷ [])
  All-Apart-snoc v w t h a = All-append (Apart v) t (w ∷ []) h (a, tt)

  snoc-IsHistory :
      (w : Version P) (t : Table P)
      → is_upright w ≡ true
      → exists (overlaps w) t ≡ false
      → IsHistory t
      → IsHistory (t ++ w ∷ [])
  snoc-IsHistory w [] u a h = (u, tt, tt)
  snoc-IsHistory w (v ∷ t) u a h =
      let apart : Apart w v = ground arith in
      let rest : exists (overlaps w) t ≡ false = ground arith in
      (h.0, All-Apart-snoc v w t h.1 (Apart-sym w v apart), snoc-IsHistory w t u rest h.2)

  open-upright : (v : Version P) → is_open v ≡ true → is_upright v ≡ true
  open-upright v o = ground arith

  -- What an insert comes to: a table that is a history, or a refusal.
  abbrev pub Inserted : Option (Table P × ℕ) → Type 0
  Inserted none = Unit
  Inserted (some (t, n)) = IsHistory t

  -- An insert of an open row keeps the invariant where the constraint is in force, and where the row
  -- overlaps none.
  pub insert_version-IsHistory :
      (enforced : Bool) (v : Version P) (t : Table P)
      → is_open v ≡ true
      → (enforced ≡ true) ⊎ (exists (overlaps v) t ≡ false)
      → IsHistory t
      → Inserted (insert_version enforced v t)
  unfolding insert_version
  insert_version-IsHistory enforced v t o c h = elim (Bool-cases (has_open v.id t)) [
    | inl found ↦ rw found h
    | inr absent ↦ rw absent (go enforced (exists (overlaps v) t) refl c)
  ]
    where
      go :
          (b clash : Bool)
          → exists (overlaps v) t ≡ clash
          → (b ≡ true) ⊎ (exists (overlaps v) t ≡ false)
          → Inserted (if b && clash then none else some (t ++ v ∷ [], 1))
      go true true e k = tt
      go true false e k = snoc-IsHistory v t (open-upright v o) e h
      go false true e (inl k) = cc
      go false true e (inr k) = cc
      go false false e k = snoc-IsHistory v t (open-upright v o) e h
