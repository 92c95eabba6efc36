-- ===== src/GapBackfill/Inserted.antt =====
-- The insertion of missing rows in backfill_gaps.py.
use text.Mathlib.TextEquality.{eq_iff}
use ha_timescaledb_recorder.Prelude.{
  ℕ, zero, suc, ◌≤◌, ◌<◌, ◌≡◌, refl, sym, ap, ◌∙◌, List, [], ◌∷◌, ◌++◌, Bool, true, false, not,
  ◌&&◌, Option, none, some, String, arith, length, take, drop, take-append-drop, length-drop,
  append_assoc, append-nil, All, All-map, All-zip, filter, any, any-append, filter-eq, Bool-cases,
  inl, inr,
}
use ha_timescaledb_recorder.StatesWorker.{StateRow}
use ha_timescaledb_recorder.GapBackfill.{
  mem, lets_through, Config, same_print, is_present, in_window, fetch_bucket, entity_ids,
  fetch_fingerprints, build_missing_rows, insert_rows, next_batch, insert_batches,
}

-- general facts on the predicates
module _ {A : Type 0} where
  any-filter :
      (p q : A → Bool) (xs : List A)
      → ((x : A) → p x ≡ true → q x ≡ true)
      → any p (filter q xs) ≡ any p xs
  any-filter p q [] h = refl
  any-filter p q (x ∷ xs) h = ground (arith, any-filter p q xs h, h x)

  any-filter_le : (p q : A → Bool) (xs : List A) → any p xs ≡ false → any p (filter q xs) ≡ false
  any-filter_le p q [] h = refl
  any-filter_le p q (x ∷ xs) h = ground (arith, any-filter_le p q xs)

  pub All-filter : (q : A → Bool) (xs : List A) → All (λ x. q x ≡ true) (filter q xs)
  All-filter q [] = tt
  All-filter q (x ∷ xs) = elim (Bool-cases (q x)) [
    | inl y ↦ rw y (y, All-filter q xs)
    | inr n ↦ rw n (All-filter q xs)
  ]

  pub filter-All : (P : A → Type 0) (q : A → Bool) (xs : List A) → All P xs → All P (filter q xs)
  filter-All P q [] h = tt
  filter-All P q (x ∷ xs) (p, h) = elim (Bool-cases (q x)) [
    | inl y ↦ rw y (p, filter-All P q xs h)
    | inr n ↦ rw n (filter-All P q xs h)
  ]

  none_of : (p : A → Bool) (xs : List A) → any p xs ≡ false → All (λ x. p x ≡ false) xs
  none_of p [] h = tt
  none_of p (x ∷ xs) h = (ground (arith, h), none_of p xs (ground (arith, h)))

module _ {C : Type 0} where
  -- no two rows have one fingerprint
  abbrev pub IsDistinct : List (StateRow C) → Type 0
  IsDistinct [] = Unit
  IsDistinct (r ∷ rows) = (is_present rows r ≡ false) × IsDistinct rows

  abbrev pub AllAbsent : List (StateRow C) → List (StateRow C) → Type 0
  AllAbsent states = All (λ r. is_present states r ≡ false)

  pub filter-IsDistinct :
      (q : StateRow C → Bool) (rows : List (StateRow C))
      → IsDistinct rows
      → IsDistinct (filter q rows)
  filter-IsDistinct q [] h = tt
  filter-IsDistinct q (r ∷ rows) (a, h) = elim (Bool-cases (q r)) [
    | inl y ↦ rw y (any-filter_le (same_print r) q rows a, filter-IsDistinct q rows h)
    | inr n ↦ rw n (filter-IsDistinct q rows h)
  ]

  pub same_print_sym : (r s : StateRow C) → same_print r s ≡ same_print s r
  same_print_sym r s =
      ground (arith, eq_iff r.entity_id s.entity_id, eq_iff s.entity_id r.entity_id)

  -- one row at a time, nothing clashes
  pub insert_rows-all :
      (rows states : List (StateRow C))
      → IsDistinct rows
      → AllAbsent states rows
      → insert_rows rows states ≡ some (states ++ rows)
  unfolding insert_rows
  insert_rows-all [] states d a = ap some (sym (append-nil states))
  insert_rows-all (r ∷ rows) states (u, d) (a, others) = rw a (
      insert_rows-all rows (states ++ r ∷ []) d (
        All-zip _ _ _ rows
          (λ s other absent.
            ground
              (arith, any-append (same_print s) states (r ∷ []), same_print_sym r s, other, absent))
          (none_of (same_print r) rows u) others)
      ∙ ap some (append_assoc states (r ∷ []) rows))

  insert_rows-append :
      (xs ys states : List (StateRow C))
      → insert_rows (xs ++ ys) states ≡ next_batch (insert_rows xs states) (insert_rows ys)
  unfolding insert_rows
  insert_rows-append [] ys states = refl
  insert_rows-append (x ∷ xs) ys states = elim (Bool-cases (is_present states x)) [
    | inl y ↦ rw y refl
    | inr n ↦ rw n (insert_rows-append xs ys (states ++ x ∷ []))
  ]

  next_batch-cong :
      (o : Option (List (StateRow C))) (f g : List (StateRow C) → Option (List (StateRow C)))
      → ((s : List (StateRow C)) → f s ≡ g s)
      → next_batch o f ≡ next_batch o g
  next_batch-cong none f g h = refl
  next_batch-cong (some s) f g h = h s

  -- Where batches hold a row at least and the fuel covers the rows, inserting in batches and inserting row
  -- by row come to the same table, or both to a clash.
  pub insert_batches-eq-insert_rows :
      (fuel size : ℕ) (rows states : List (StateRow C))
      → length rows ≤ fuel
      → 0 < size
      → insert_batches fuel size false rows states ≡ insert_rows rows states
  unfolding insert_batches
  insert_batches-eq-insert_rows zero size [] states h pos = unfold insert_rows in refl
  insert_batches-eq-insert_rows zero size (r ∷ rows) states h pos = absurd (omega (arith, h))
  insert_batches-eq-insert_rows (suc fuel) size [] states h pos = unfold insert_rows in refl
  insert_batches-eq-insert_rows (suc fuel) zero (r ∷ rows) states h pos =
      absurd (omega (arith, pos))
  insert_batches-eq-insert_rows (suc fuel) (suc k) (r ∷ rows) states h pos =
      next_batch-cong (insert_rows (r ∷ take k rows) states) _ (insert_rows (drop k rows)) (λ s.
        insert_batches-eq-insert_rows fuel (suc k) (drop k rows) s
          (omega (arith, length-drop k rows, h)) pos)
      ∙ (sym (insert_rows-append (r ∷ take k rows) (drop k rows) states)
          ∙ ap (λ l. insert_rows (r ∷ l) states) (take-append-drop k rows))

  insert_batches-dry :
      (fuel size : ℕ) (rows states : List (StateRow C))
      → insert_batches fuel size true rows states ≡ some states
  unfolding insert_batches
  insert_batches-dry zero size rows states = refl
  insert_batches-dry (suc fuel) size [] states = refl
  insert_batches-dry (suc fuel) size (r ∷ rows) states =
      insert_batches-dry fuel size (drop size (r ∷ rows)) states

  -- what a bucket lacks
  unfoldable pub missing : Config C → ℕ → ℕ → List (StateRow C) → List (StateRow C)
  missing c start end states =
      filter (λ r. not (is_present states r)) (fetch_bucket start end c.entities_filter c.sqlite)

  mem-entity_ids :
      (rows : List (StateRow C)) → All (λ r. mem r.entity_id (entity_ids rows) ≡ true) rows
  mem-entity_ids [] = tt
  mem-entity_ids (r ∷ rows) = (
    ground (arith, eq_iff r.entity_id r.entity_id),
    All-map _ _ rows (λ s h. ground (arith, h)) (mem-entity_ids rows),
  )

  kept :
      (start end : ℕ) (ids : List String) (r s : StateRow C) (b : Bool)
      → same_print r s ≡ true
      → in_window start end r && b ≡ true
      → mem r.entity_id ids ≡ true
      → in_window start end s && mem s.entity_id ids ≡ true
  kept start end ids r s b alike here listed =
      let one : r.entity_id ≡ s.entity_id = ground (arith, alike, eq_iff r.entity_id s.entity_id) in
      let there : mem s.entity_id ids ≡ true = ap (λ i. mem i ids) (sym one) ∙ listed in
      ground (arith, alike, here, there)

  -- The rows found missing by the fingerprints of the bucket's time and entities are those of the bucket
  -- whose fingerprint the whole table lacks.
  pub build_missing_rows-eq-missing :
      (c : Config C) (start end : ℕ) (states : List (StateRow C))
      → let rows = fetch_bucket start end c.entities_filter c.sqlite in
        build_missing_rows rows (fetch_fingerprints start end (entity_ids rows) states)
        ≡ missing c start end states
  unfolding build_missing_rows missing
  build_missing_rows-eq-missing c start end states =
      let inside =
        λ (r : StateRow C). in_window start end r && lets_through c.entities_filter r.entity_id in
      let rows = fetch_bucket start end c.entities_filter c.sqlite in
      filter-eq _ _ rows (
        All-zip _ _ _ rows
          (λ r here listed. ap not (
            any-filter (same_print r)
              (λ s. in_window start end s && mem s.entity_id (entity_ids rows)) states
              (λ s alike. kept start end (entity_ids rows) r s _ alike here listed)))
          (All-filter inside c.sqlite) (mem-entity_ids rows))
