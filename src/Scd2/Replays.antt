-- ===== src/Scd2/Replays.antt =====
-- The statements of const.py done a second time.
use text.Mathlib.TextEquality.{eq_iff}
use ha_timescaledb_recorder.Prelude.{
  ℕ, ◌≡◌, refl, ap, ◌∙◌, Bool, true, false, ◌&&◌, none, some, String, List, [], ◌∷◌, ◌++◌, arith,
  if◌then◌else◌, Bool-cases, inl, inr,
}
use ha_timescaledb_recorder.Scd2.{
  Version, Table, is_open, has_id, exists, end_rows, to_close, close, overlaps, has_open,
  insert_version, to_sweep, count, current, current_from,
}

module _ {P : Type 0} where
  -- An update that only ends open rows.
  abbrev OnOpen : (Version P → Bool) → Type 0
  OnOpen p = (v : Version P) → p v ≡ true → is_open v ≡ true

  ended-spared :
      (p : Version P → Bool) (ts : ℕ) (v : Version P)
      → OnOpen p
      → p (if p v then record v { valid_to = some ts } else v) ≡ false
  ended-spared p ts v o = elim (Bool-cases (p v)) [
    | inl hit ↦ rw hit (elim (Bool-cases (p (record v { valid_to = some ts }))) [
      | inl again ↦ cc (o (record v { valid_to = some ts }) again)
      | inr spared ↦ spared
    ])
    | inr miss ↦ rw miss miss
  ]

  pub end_rows_again :
      (p : Version P → Bool) (ts : ℕ) (t : Table P)
      → OnOpen p
      → end_rows p ts (end_rows p ts t) ≡ end_rows p ts t
  end_rows_again p ts [] o = refl
  end_rows_again p ts (v ∷ t) o = rw (ended-spared p ts v o, end_rows_again p ts t o) refl

  pub count_again :
      (p : Version P → Bool) (ts : ℕ) (t : Table P) → OnOpen p → count p (end_rows p ts t) ≡ 0
  count_again p ts [] o = refl
  count_again p ts (v ∷ t) o = rw (ended-spared p ts v o, count_again p ts t o) refl

  pub to_close-OnOpen : (id : String) (ts : ℕ) → OnOpen (to_close id ts)
  to_close-OnOpen id ts v h = ground arith

  pub to_sweep-OnOpen : (ts : ℕ) (live : List String) → OnOpen (to_sweep ts live)
  to_sweep-OnOpen ts live v h = ground arith

  pub close_again :
      (id : String) (ts : ℕ) (t : Table P) → close id ts (close id ts t).0 ≡ ((close id ts t).0, 0)
  unfolding close
  close_again id ts t = λ i. (
    end_rows_again (to_close id ts) ts t (to_close-OnOpen id ts) i,
    count_again (to_close id ts) ts t (to_close-OnOpen id ts) i,
  )

  exists-snoc :
      (p : Version P → Bool) (t : Table P) (v : Version P)
      → p v ≡ true
      → exists p (t ++ v ∷ []) ≡ true
  exists-snoc p [] v h = rw h refl
  exists-snoc p (w ∷ t) v h = ground (arith, exists-snoc p t v h)

  current-none :
      (id : String) (t : Table P) (v : Version P)
      → has_open id t ≡ false
      → has_id id v ≡ true
      → is_open v ≡ true
      → current_from none id (t ++ v ∷ []) ≡ some v
  unfolding has_open current_from
  current-none id [] v h i o = rw (i, o) refl
  current-none id (w ∷ t) v h i o = elim (Bool-cases (has_id id w && is_open w)) [
    | inl open_row ↦ ground arith
    | inr passed ↦ rw (passed, current_from) (current-none id t v (ground arith) i o)
  ]

  -- A row inserted where its id had no open row is the current one.
  pub current-insert :
      (id : String) (t : Table P) (v : Version P)
      → has_open id t ≡ false
      → has_id id v ≡ true
      → is_open v ≡ true
      → current id (t ++ v ∷ []) ≡ some v
  unfolding current
  current-insert id t v h i o = current-none id t v h i o

  pub has_open-insert :
      (t : Table P) (v : Version P) → is_open v ≡ true → has_open v.id (t ++ v ∷ []) ≡ true
  unfolding has_open
  has_open-insert t v o = exists-snoc _ t v (ground (arith, eq_iff v.id v.id))

  pub data InsertCase (enforced : Bool) (v : Version P) (t : Table P) : Type 0 where
    kept :
        has_open v.id t ≡ true → insert_version enforced v t ≡ some (t, 0) → InsertCase enforced v t
    clashed : insert_version enforced v t ≡ none → InsertCase enforced v t
    added :
        has_open v.id t ≡ false
        → insert_version enforced v t ≡ some (t ++ v ∷ [], 1)
        → InsertCase enforced v t

  pub insert_cases : (enforced : Bool) (v : Version P) (t : Table P) → InsertCase enforced v t
  unfolding insert_version
  insert_cases enforced v t = elim (Bool-cases (has_open v.id t)) [
    | inl found ↦ kept found (rw found refl)
    | inr absent ↦ elim (Bool-cases (enforced && exists (overlaps v) t)) [
      | inl clash ↦ clashed (rw (absent, clash) refl)
      | inr free ↦ added absent (rw (absent, free) refl)
    ]
  ]

  end_rows-snoc :
      (p : Version P → Bool) (ts : ℕ) (t : Table P) (v : Version P)
      → p v ≡ false
      → end_rows p ts (t ++ v ∷ []) ≡ end_rows p ts t ++ v ∷ []
  end_rows-snoc p ts [] v h = rw h refl
  end_rows-snoc p ts (w ∷ t) v h =
      ap (◌∷◌ (if p w then record w { valid_to = some ts } else w)) (end_rows-snoc p ts t v h)

  -- A row that starts at the closing time stays open under the same close.
  pub close-insert :
      (id : String) (ts : ℕ) (t : Table P) (v : Version P)
      → v.valid_from ≡ ts
      → (close id ts ((close id ts t).0 ++ v ∷ [])).0 ≡ (close id ts t).0 ++ v ∷ []
  unfolding close
  close-insert id ts t v e =
      end_rows-snoc (to_close id ts) ts (end_rows (to_close id ts) ts t) v (ground arith)
      ∙ ap (λ u. u ++ v ∷ []) (end_rows_again (to_close id ts) ts t (to_close-OnOpen id ts))

  -- Where its id has an open row, an insert writes nothing.
  pub insert-kept :
      (enforced : Bool) (v : Version P) (t : Table P)
      → has_open v.id t ≡ true
      → insert_version enforced v t ≡ some (t, 0)
  unfolding insert_version
  insert-kept enforced v t found = rw found refl
