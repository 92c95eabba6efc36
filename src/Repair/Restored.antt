-- ===== src/Repair/Restored.antt =====
-- repair_scd2.py: the shape of a repaired table.
use ha_timescaledb_recorder.Prelude.{
  ℕ, ◌≤◌, ◌≡◌, refl, sym, ap, ◌∙◌, subst, [], ◌∷◌, Bool, true, false, none, some, ltb, leb, arith,
  filter, All, All-map, Bool-cases, inl, inr,
}
use ha_timescaledb_recorder.Canonical.Sorting.{
  comes_before, IsSorted, sort_by-IsSorted, sorted_stays,
}
use ha_timescaledb_recorder.Scd2.{Version, Table, is_open, below, overlaps, count}
use ha_timescaledb_recorder.Scd2.Intervals.{is_upright, IsHistory}
use ha_timescaledb_recorder.Repair.{
  plan_key, plan, shrink, rebuild_planned, rebuild, is_inverted, clamp_row, clamp, repair_ends,
  overruns, overlapping_pairs, run_verification, is_clean,
}

module _ {P : Type 0} where
  abbrev ends_by : ℕ → Version P → Bool
  ends_by x v = elim v.valid_to [ none ↦ false | some y ↦ leb y x ]

  -- each interval is upright and ends before the next one starts
  abbrev pub Stairs : Table P → Type 0
  Stairs [] = Unit
  Stairs (v ∷ []) = is_upright v ≡ true
  Stairs (v ∷ w ∷ rows) =
      (is_upright v ≡ true) × (ends_by w.valid_from v ≡ true) × Stairs (w ∷ rows)

  -- a planned row starts no later than the next one
  pub plan_key-le :
      (v w : Version P)
      → comes_before (plan_key v) (plan_key w) ≡ true
      → v.valid_from ≤ w.valid_from
  plan_key-le v w h = ground (arith, h)

  clamp_row-from : (v : Version P) → (clamp_row v).valid_from ≡ v.valid_from
  clamp_row-from v = elim (Bool-cases (is_inverted v)) [ inl y ↦ simp (y) | inr n ↦ simp (n) ]

  shrink-from : (x : ℕ) (v : Version P) → (shrink x v).valid_from ≡ v.valid_from
  shrink-from x v = elim (Bool-cases (below x v.valid_to)) [ inl y ↦ simp (y) | inr n ↦ simp (n) ]

  clamped-upright : (v : Version P) → is_upright (clamp_row v) ≡ true
  clamped-upright v = ground arith

  clamped-ends_by :
      (x : ℕ) (v : Version P) → v.valid_from ≤ x → ends_by x (clamp_row (shrink x v)) ≡ true
  clamped-ends_by x v h = ground (arith, h)

  rebuilt-Stairs : (rows : Table P) → IsSorted plan_key rows → Stairs (clamp (rebuild_planned rows))
  rebuilt-Stairs [] h = tt
  rebuilt-Stairs (v ∷ []) h = clamped-upright v
  rebuilt-Stairs (v ∷ w ∷ []) (b, h) = (
    clamped-upright (shrink w.valid_from v),
    subst (λ x. ends_by x (clamp_row (shrink w.valid_from v)) ≡ true) (sym (clamp_row-from w))
        (clamped-ends_by w.valid_from v (plan_key-le v w b)),
    clamped-upright w,
  )
  rebuilt-Stairs (v ∷ w ∷ u ∷ rows) (b, h) = (
    clamped-upright (shrink w.valid_from v),
    subst (λ x. ends_by x (clamp_row (shrink w.valid_from v)) ≡ true)
        (sym (clamp_row-from (shrink u.valid_from w) ∙ shrink-from u.valid_from w))
        (clamped-ends_by w.valid_from v (plan_key-le v w b)),
    rebuilt-Stairs (w ∷ u ∷ rows) h,
  )

  pub repair-Stairs : (rows : Table P) → Stairs (repair_ends rows).0
  unfolding repair_ends rebuild
  repair-Stairs rows = rebuilt-Stairs (plan rows) (sort_by-IsSorted plan_key rows)

  later_from :
      (x : ℕ) (w : Version P) (rows : Table P)
      → x ≤ w.valid_from
      → Stairs (w ∷ rows)
      → All (λ u. x ≤ u.valid_from) (w ∷ rows)
  later_from x w [] le h = (le, tt)
  later_from x w (u ∷ rows) le (up, ends, h) =
      (le, later_from x u rows (ground (arith, le, up, ends)) h)

  pub Stairs-IsHistory : (rows : Table P) → Stairs rows → IsHistory rows
  Stairs-IsHistory [] h = tt
  Stairs-IsHistory (v ∷ []) h = (h, tt, tt)
  Stairs-IsHistory (v ∷ w ∷ rows) (up, ends, h) = (
    up,
    All-map _ _ (w ∷ rows) (λ u le. ground (arith, le, ends))
        (later_from w.valid_from w rows (omega arith) h),
    Stairs-IsHistory (w ∷ rows) h,
  )

  Stairs-IsSorted : (rows : Table P) → Stairs rows → IsSorted plan_key rows
  Stairs-IsSorted [] h = tt
  Stairs-IsSorted (v ∷ []) h = (tt, tt)
  Stairs-IsSorted (v ∷ w ∷ []) (up, ends, h) = (ground (arith, up, ends, h), (tt, tt))
  Stairs-IsSorted (v ∷ w ∷ u ∷ rows) (up, ends, h) =
      (ground (arith, up, ends, h), Stairs-IsSorted (w ∷ u ∷ rows) h)

  count_none :
      (p : Version P → Bool) (rows : Table P) → All (λ v. p v ≡ false) rows → count p rows ≡ 0
  count_none p [] h = refl
  count_none p (v ∷ rows) (e, h) = ground (arith, e, count_none p rows h)

  no_overlaps : (rows : Table P) → IsHistory rows → overlapping_pairs rows ≡ 0
  no_overlaps [] h = refl
  no_overlaps (v ∷ rows) (up, apart, h) =
      omega (arith, count_none (overlaps v) rows apart, no_overlaps rows h)

  none_inverted : (rows : Table P) → Stairs rows → All (λ v. is_inverted v ≡ false) rows
  none_inverted [] h = tt
  none_inverted (v ∷ []) h = (ground (arith, h), tt)
  none_inverted (v ∷ w ∷ rows) (up, ends, h) = (ground (arith, up), none_inverted (w ∷ rows) h)

  few_open : (rows : Table P) → Stairs rows → count is_open rows ≤ 1
  few_open [] h = omega arith
  few_open (v ∷ []) h = ground arith
  few_open (v ∷ w ∷ rows) (up, ends, h) = ground (arith, ends, few_open (w ∷ rows) h)

  no_overruns : (rows : Table P) → Stairs rows → overruns rows ≡ 0
  no_overruns [] h = refl
  no_overruns (v ∷ []) h = refl
  no_overruns (v ∷ w ∷ rows) (up, ends, h) = ground (arith, ends, no_overruns (w ∷ rows) h)

  -- the plan of stairs is themselves
  pub plan-Stairs : (rows : Table P) → Stairs rows → plan rows ≡ rows
  plan-Stairs rows h = sorted_stays plan_key rows (Stairs-IsSorted rows h)

  pub Stairs-is_clean :
      (horizon : ℕ) (rows : Table P)
      → Stairs rows
      → All (λ v. v.valid_from ≤ horizon) rows
      → is_clean (run_verification horizon rows) ≡ true
  unfolding run_verification
  Stairs-is_clean horizon rows h sane =
      let inverted = count_none is_inverted rows (none_inverted rows h) in
      let insane =
        count_none (λ v. ltb horizon v.valid_from) rows
          (All-map _ _ rows (λ v le. ground (arith, le)) sane) in
      let sequence : overruns (plan rows) ≡ 0 =
        ap overruns (plan-Stairs rows h) ∙ no_overruns rows h in
      let pairs = no_overlaps rows (Stairs-IsHistory rows h) in
      ground (arith, inverted, insane, sequence, pairs, few_open rows h)

  shrunk_stays :
      (x : ℕ) (v : Version P)
      → is_upright v ≡ true
      → ends_by x v ≡ true
      → clamp_row (shrink x v) ≡ v
  shrunk_stays x v up ends =
      let short : below x v.valid_to ≡ false = ground (arith, ends) in
      let level : is_inverted v ≡ false = ground (arith, up) in simp (short, level)

  rebuilt_stays : (rows : Table P) → Stairs rows → clamp (rebuild_planned rows) ≡ rows
  rebuilt_stays [] h = refl
  rebuilt_stays (v ∷ []) h = let level : is_inverted v ≡ false = ground (arith, h) in simp (level)
  rebuilt_stays (v ∷ w ∷ rows) (up, ends, h) =
      λ i. shrunk_stays w.valid_from v up ends i ∷ rebuilt_stays (w ∷ rows) h i

  filter_none :
      (p : Version P → Bool) (rows : Table P) → All (λ v. p v ≡ false) rows → filter p rows ≡ []
  filter_none p [] h = refl
  filter_none p (v ∷ rows) (e, h) = ground (arith, e, filter_none p rows h)

  pub Stairs-stay : (rows : Table P) → Stairs rows → repair_ends rows ≡ (rows, [])
  unfolding repair_ends rebuild
  Stairs-stay rows h =
      let table = ap (λ r. clamp (rebuild_planned r)) (plan-Stairs rows h) ∙ rebuilt_stays rows h in
      let archive = filter_none is_inverted rows (none_inverted rows h) in λ i. (table i, archive i)
