-- ===== src/GapBackfill/Filled.antt =====
-- backfill_gaps.py: what a bucket of its loop leaves.
use text.Mathlib.TextEquality.{eq_iff}
use ha_timescaledb_recorder.Prelude.{
  ℕ, ◌+◌, min, ◌≤◌, ◌<◌, ◌≡◌, refl, List, [], ◌∷◌, ◌++◌, Bool, true, false, not, ◌&&◌, ◌⊎◌, Option,
  none, String, arith, append-nil, All, All-map, filter, any-append, count, count-append,
  Bool-cases, inl, inr,
}
use ha_timescaledb_recorder.StatesWorker.{StateRow}
use ha_timescaledb_recorder.GapBackfill.{
  lets_through, Config, same_print, is_present, in_window, bucket_count, in_sync,
}
use ha_timescaledb_recorder.GapBackfill.Inserted.{missing}
use ha_timescaledb_recorder.GapBackfill.Complete.{new_rows}

module _ {A : Type 0} where
  pub filter-filter :
      (p q : A → Bool) (xs : List A) → filter q (filter p xs) ≡ filter (λ x. p x && q x) xs
  filter-filter p q [] = refl
  filter-filter p q (x ∷ xs) = ground (arith, filter-filter p q xs)

  count_none : (p : A → Bool) (xs : List A) → All (λ x. p x ≡ false) xs → count p xs ≡ 0
  count_none p [] h = refl
  count_none p (x ∷ xs) (e, h) = ground (arith, e, count_none p xs h)

module _ {C : Type 0} where
  -- the rows of a window that the filter lets through are in the table
  abbrev pub IsCovered : Config C → Option (List String) → ℕ → ℕ → List (StateRow C) → Type 0
  IsCovered c ids start end states =
      All
        (λ r.
          in_window start end r && lets_through ids r.entity_id ≡ true → is_present states r ≡ true)
        c.sqlite

  -- A bucket whose rows of the filter are in the table, or whose counts say that it is in sync.
  abbrev pub IsCompared : Config C → ℕ → ℕ → List (StateRow C) → Type 0
  IsCompared c start end states =
      (in_sync c start end states ≡ true) ⊎ IsCovered c c.entities_filter start end states

  -- Each bucket from a time to the end of the window is such a one.
  pub data Compared (c : Config C) (states : List (StateRow C)) : ℕ → Type 0 where
    at_end : {ts : ℕ} → c.end ≤ ts → Compared c states ts
    bucket :
        {ts : ℕ}
        → ts < c.end
        → IsCompared c ts (min (ts + c.bucket) c.end) states
        → Compared c states (min (ts + c.bucket) c.end)
        → Compared c states ts

  found :
      (q : StateRow C → Bool) (rows : List (StateRow C))
      → All (λ r. q r ≡ true → is_present (filter q rows) r ≡ true) rows
  found q [] = tt
  found q (r ∷ rows) = (
    λ h. ground (arith, h, eq_iff r.entity_id r.entity_id),
    All-map _ _ rows (λ s f h. ground (arith, f h)) (found q rows),
  )

  missing-IsCovered :
      (c : Config C) (start end : ℕ) (states : List (StateRow C))
      → IsCovered c c.entities_filter start end (states ++ missing c start end states)
  unfolding missing
  missing-IsCovered c start end states =
      let lacks = λ (r : StateRow C). not (is_present states r) in
      let inside =
        λ (r : StateRow C). in_window start end r && lets_through c.entities_filter r.entity_id in
      rw (filter-filter inside lacks c.sqlite) (
        All-map _ _ c.sqlite
          (λ r f h. elim (Bool-cases (is_present states r)) [
            | inl y ↦ ground (
              arith,
              y,
              any-append (same_print r) states (filter (λ x. inside x && lacks x) c.sqlite),
            )
            | inr n ↦ ground (
              arith,
              n,
              h,
              f (ground (arith, n, h)),
              any-append (same_print r) states (filter (λ x. inside x && lacks x) c.sqlite),
            )
          ])
          (found (λ x. inside x && lacks x) c.sqlite))

  pub new_rows-IsCompared :
      (c : Config C) (start end : ℕ) (states : List (StateRow C))
      → IsCompared c start end (states ++ new_rows c start end states)
  unfolding new_rows
  new_rows-IsCompared c start end states = elim (Bool-cases (in_sync c start end states)) [
    | inl y ↦ rw y (inl (rw (append-nil states) y))
    | inr n ↦ rw n (inr (missing-IsCovered c start end states))
  ]

  bucket_count-later :
      (start end : ℕ) (ids : Option (List String)) (states later : List (StateRow C))
      → All (λ r. end ≤ r.last_updated) later
      → bucket_count start end ids (states ++ later) ≡ bucket_count start end ids states
  bucket_count-later start end ids states later h =
      let inside = λ (r : StateRow C). in_window start end r && lets_through ids r.entity_id in
      let nothing = count_none inside later (All-map _ _ later (λ r g. ground (arith, g)) h) in
      omega (arith, nothing, count-append inside states later)

  -- rows from its end on leave a bucket as it is
  pub IsCompared-later :
      (c : Config C) (start end : ℕ) (states later : List (StateRow C))
      → All (λ r. end ≤ r.last_updated) later
      → IsCompared c start end states
      → IsCompared c start end (states ++ later)
  unfolding in_sync
  IsCompared-later c start end states later h (inl y) = inl (
      rw (bucket_count-later start end none states later h)
        (rw (bucket_count-later start end c.entities_filter states later h) y))
  IsCompared-later c start end states later h (inr covered) = inr (
      All-map _ _ c.sqlite (λ r f i. ground (arith, f i, any-append (same_print r) states later))
        covered)
