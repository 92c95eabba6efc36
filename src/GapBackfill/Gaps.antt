-- ===== src/GapBackfill/Gaps.antt =====
-- backfill_gaps.py: rows that the table lacks.
use ha_timescaledb_recorder.Prelude.{
  ℕ, ◌≤◌, ◌≡◌, refl, List, [], ◌∷◌, ◌++◌, true, false, not, ◌&&◌, arith, All, All-map, All-zip,
  All-append, filter, any, any-append, Bool-cases, inl, inr,
}
use text.Mathlib.TextEquality.{eq_iff}
use ha_timescaledb_recorder.StatesWorker.{StateRow}
use ha_timescaledb_recorder.GapBackfill.{
  lets_through, Config, same_print, is_present, in_window, in_sync,
}
use ha_timescaledb_recorder.GapBackfill.Inserted.{
  same_print_sym, IsDistinct, AllAbsent, All-filter, filter-All, missing,
}
use ha_timescaledb_recorder.GapBackfill.Complete.{new_rows, missing-AllAbsent, missing-IsDistinct}

module _ {C : Type 0} where
  -- Rows of the database, of its window and of its entities, each once, that the table lacks.
  abbrev pub AreGaps : Config C → ℕ → ℕ → List (StateRow C) → List (StateRow C) → Type 0
  AreGaps c start end states rows =
      AllAbsent states rows
      × IsDistinct rows
      × All
          (λ r.
            is_present c.sqlite r
              && in_window start end r
              && lets_through c.entities_filter r.entity_id
            ≡ true)
          rows

  pub present : (rows : List (StateRow C)) → All (λ r. is_present rows r ≡ true) rows
  present [] = tt
  present (r ∷ rows) = (
    ground (arith, eq_iff r.entity_id r.entity_id),
    All-map _ _ rows (λ s h. ground (arith, h)) (present rows),
  )

  missing-AreGaps :
      (c : Config C) (start end : ℕ) (states : List (StateRow C))
      → IsDistinct c.sqlite
      → AllAbsent states (missing c start end states)
      → AreGaps c start end states (missing c start end states)
  unfolding missing
  missing-AreGaps c start end states d absent =
      let inside =
        λ (r : StateRow C). in_window start end r && lets_through c.entities_filter r.entity_id in
      let lacks = λ (r : StateRow C). not (is_present states r) in
      (
        absent,
        missing-IsDistinct c start end states d,
        filter-All _ lacks (filter inside c.sqlite) (
            All-zip _ _ _ (filter inside c.sqlite) (λ r a b. ground (arith, a, b))
              (All-filter inside c.sqlite)
              (filter-All (λ r. is_present c.sqlite r ≡ true) inside c.sqlite (present c.sqlite))),
      )

  pub new_rows-AreGaps :
      (c : Config C) (start end : ℕ) (states : List (StateRow C))
      → IsDistinct c.sqlite
      → AreGaps c start end states (new_rows c start end states)
  unfolding new_rows
  new_rows-AreGaps c start end states d = elim (Bool-cases (in_sync c start end states)) [
    | inl y ↦ rw y (tt, tt, tt)
    | inr n ↦ rw n (missing-AreGaps c start end states d (missing-AllAbsent c start end states))
  ]

  not_among :
      (x : StateRow C) (xs ys : List (StateRow C))
      → AllAbsent (x ∷ xs) ys
      → any (same_print x) ys ≡ false
  not_among x xs [] a = refl
  not_among x xs (y ∷ ys) (h, a) = ground (arith, h, same_print_sym x y, not_among x xs ys a)

  IsDistinct-append :
      (xs ys : List (StateRow C))
      → IsDistinct xs
      → IsDistinct ys
      → AllAbsent xs ys
      → IsDistinct (xs ++ ys)
  IsDistinct-append [] ys dx dy a = dy
  IsDistinct-append (x ∷ xs) ys (e, dx) dy a = (
    ground (arith, e, any-append (same_print x) xs ys, not_among x xs ys a),
    IsDistinct-append xs ys dx dy (All-map _ _ ys (λ r h. ground (arith, h)) a),
  )

  pub AreGaps-append :
      (c : Config C) (lo mid hi : ℕ) (states new later : List (StateRow C))
      → lo ≤ mid
      → mid ≤ hi
      → AreGaps c lo mid states new
      → AreGaps c mid hi (states ++ new) later
      → AreGaps c lo hi states (new ++ later)
  AreGaps-append c lo mid hi states new later le ge (a, d, o) (a', d', o') = (
    All-append _ new later a
        (All-map _ _ later (λ r h. ground (arith, h, any-append (same_print r) states new)) a'),
    IsDistinct-append new later d d'
        (All-map _ _ later (λ r h. ground (arith, h, any-append (same_print r) states new)) a'),
    All-append _ new later (All-map _ _ new (λ r h. ground (arith, h, ge)) o)
        (All-map _ _ later (λ r h. ground (arith, h, le)) o'),
  )
