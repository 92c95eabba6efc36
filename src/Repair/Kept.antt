-- ===== src/Repair/Kept.antt =====
-- repair_scd2.py: what a repair leaves as it was.
use ha_timescaledb_recorder.Prelude.{
  ℕ, ◌≤◌, ◌≡◌, refl, sym, ap, ◌∙◌, subst, List, [], ◌∷◌, Bool, true, false, String, arith, leb, ltb,
  ◌&&◌, map, filter, All, Bool-cases, inl, inr,
}
use ha_timescaledb_recorder.Canonical.Sorting.{
  IsSorted, sort_by-IsSorted, Shuffled, unmoved, swapped_first, after_first, then_again,
  sort_by_shuffles,
}
use ha_timescaledb_recorder.Scd2.{Version, Table, below}
use ha_timescaledb_recorder.Repair.{
  plan_key, plan, shrink, rebuild_planned, rebuild, is_inverted, clamp_row, clamp, clamp_rows,
  repair_ends,
}
use ha_timescaledb_recorder.Repair.Restored.{plan_key-le}

module _ {A B : Type 0} where
  Shuffled-map : (f : A → B) {xs ys : List A} → Shuffled xs ys → Shuffled (map f xs) (map f ys)
  Shuffled-map f unmoved = unmoved
  Shuffled-map f swapped_first = swapped_first
  Shuffled-map f (after_first h) = after_first (Shuffled-map f h)
  Shuffled-map f (then_again h k) = then_again (Shuffled-map f h) (Shuffled-map f k)

  All-to_map : (P : B → Type 0) (f : A → B) (xs : List A) → All (λ x. P (f x)) xs → All P (map f xs)
  All-to_map P f [] h = tt
  All-to_map P f (x ∷ xs) (p, h) = (p, All-to_map P f xs h)

  All-from_map :
      (P : B → Type 0) (f : A → B) (xs : List A) → All P (map f xs) → All (λ x. P (f x)) xs
  All-from_map P f [] h = tt
  All-from_map P f (x ∷ xs) (p, h) = (p, All-from_map P f xs h)

module _ {A : Type 0} where
  Shuffled-filter :
      (p : A → Bool) {xs ys : List A} → Shuffled xs ys → Shuffled (filter p xs) (filter p ys)
  Shuffled-filter p unmoved = unmoved
  Shuffled-filter p (swapped_first {x} {y}) = elim (Bool-cases (p x)) [
    | inl a ↦ elim (Bool-cases (p y)) [
      | inl b ↦ rw a (rw b swapped_first)
      | inr b ↦ rw a (rw b unmoved)
    ]
    | inr a ↦ elim (Bool-cases (p y)) [ inl b ↦ rw a (rw b unmoved) | inr b ↦ rw a (rw b unmoved) ]
  ]
  Shuffled-filter p (after_first {x} h) = elim (Bool-cases (p x)) [
    | inl a ↦ rw a (after_first (Shuffled-filter p h))
    | inr a ↦ rw a (Shuffled-filter p h)
  ]
  Shuffled-filter p (then_again h k) = then_again (Shuffled-filter p h) (Shuffled-filter p k)

  All-Shuffled : (P : A → Type 0) {xs ys : List A} → Shuffled xs ys → All P xs → All P ys
  All-Shuffled P unmoved a = a
  All-Shuffled P swapped_first (a, (b, r)) = (b, (a, r))
  All-Shuffled P (after_first h) (a, r) = (a, All-Shuffled P h r)
  All-Shuffled P (then_again h k) a = All-Shuffled P k (All-Shuffled P h a)

module _ {P : Type 0} where
  -- what a row says besides the end of its interval
  abbrev pub face : Version P → String × ℕ × P
  face v = (v.id, v.valid_from, v.payload)

  face-clamp_row : (v : Version P) → face (clamp_row v) ≡ face v
  face-clamp_row v = elim (Bool-cases (is_inverted v)) [ inl y ↦ simp (y) | inr n ↦ simp (n) ]

  face-shrink : (x : ℕ) (v : Version P) → face (shrink x v) ≡ face v
  face-shrink x v = elim (Bool-cases (below x v.valid_to)) [ inl y ↦ simp (y) | inr n ↦ simp (n) ]

  faces_stay : (rows : Table P) → map face (clamp (rebuild_planned rows)) ≡ map face rows
  faces_stay [] = refl
  faces_stay (v ∷ []) = ap (λ f. f ∷ []) (face-clamp_row v)
  faces_stay (v ∷ w ∷ rows) = λ i.
      (face-clamp_row (shrink w.valid_from v) ∙ face-shrink w.valid_from v) i
      ∷ faces_stay (w ∷ rows) i

  repair_ends-face : (rows : Table P) → Shuffled (map face rows) (map face (repair_ends rows).0)
  unfolding repair_ends rebuild
  repair_ends-face rows =
      subst (Shuffled (map face rows)) (sym (faces_stay (plan rows)))
        (Shuffled-map face (sort_by_shuffles plan_key rows))

  pub repair_ends-from :
      (horizon : ℕ) (rows : Table P)
      → All (λ v. v.valid_from ≤ horizon) rows
      → All (λ v. v.valid_from ≤ horizon) (repair_ends rows).0
  repair_ends-from horizon rows sane =
      All-from_map (λ f. f.1 ≤ horizon) face (repair_ends rows).0
        (All-Shuffled (λ f. f.1 ≤ horizon) (repair_ends-face rows)
          (All-to_map (λ f. f.1 ≤ horizon) face rows sane))

  inverted-shrink :
      (x : ℕ) (v : Version P) → v.valid_from ≤ x → is_inverted (shrink x v) ≡ is_inverted v
  inverted-shrink x v h = ground (arith, h)

  shrink-inverted :
      (x : ℕ) (v : Version P) → is_inverted v ≡ true → v.valid_from ≤ x → shrink x v ≡ v
  shrink-inverted x v y h =
      let short : below x v.valid_to ≡ false = ground (arith, y, h) in simp (short)

  archived :
      (rows : Table P)
      → IsSorted plan_key rows
      → clamp_rows (rebuild_planned rows) ≡ clamp_rows rows
  archived [] h = refl
  archived (v ∷ []) h = refl
  archived (v ∷ w ∷ rows) (b, h) =
      let after = plan_key-le v w b in
      elim (Bool-cases (is_inverted v)) [
        | inl y ↦
            rw (shrink-inverted w.valid_from v y after) (rw y (ap (◌∷◌ v) (archived (w ∷ rows) h)))
        | inr n ↦ rw (inverted-shrink w.valid_from v after) (rw n (archived (w ∷ rows) h))
      ]

  -- The rows put in quarantine before the rebuild are, up to their order, those that the clamp rewrites
  -- after it.
  pub repair_ends-clamp_rows :
      (rows : Table P) → Shuffled (repair_ends rows).1 (clamp_rows (rebuild rows))
  unfolding repair_ends rebuild
  repair_ends-clamp_rows rows =
      subst (Shuffled (clamp_rows rows))
        (sym (archived (plan rows) (sort_by-IsSorted plan_key rows)))
        (Shuffled-filter is_inverted (sort_by_shuffles plan_key rows))

  abbrev pub covers : ℕ → Version P → Bool
  covers ts v = leb v.valid_from ts && below ts v.valid_to

  abbrev pub before_next : ℕ → Table P → Bool
  before_next ts [] = true
  before_next ts (w ∷ rows) = ltb ts w.valid_from

  -- The second table has the rows of the first, each cut where the next one starts.
  pub IsCut : Table P → Table P → Type 0
  IsCut [] [] = Unit
  IsCut (v ∷ rows) (w ∷ cut) =
      (face w ≡ face v)
      × ((ts : ℕ) → covers ts w ≡ covers ts v && before_next ts rows)
      × IsCut rows cut
  IsCut _ _ = ⊥

  covers-shrink :
      (x ts : ℕ) (v : Version P) → covers ts (clamp_row (shrink x v)) ≡ covers ts v && ltb ts x
  covers-shrink x ts v = ground arith

  covers-clamp_row : (ts : ℕ) (v : Version P) → covers ts (clamp_row v) ≡ covers ts v && true
  covers-clamp_row ts v = ground arith

  rebuilt-IsCut : (rows : Table P) → IsCut rows (clamp (rebuild_planned rows))
  unfolding IsCut
  rebuilt-IsCut [] = tt
  rebuilt-IsCut (v ∷ []) = (face-clamp_row v, λ ts. covers-clamp_row ts v, tt)
  rebuilt-IsCut (v ∷ w ∷ rows) = (
    face-clamp_row (shrink w.valid_from v) ∙ face-shrink w.valid_from v,
    λ ts. covers-shrink w.valid_from ts v,
    rebuilt-IsCut (w ∷ rows),
  )

  pub repair_ends-IsCut :
      (rows : Table P) → Shuffled rows (plan rows) × IsCut (plan rows) (repair_ends rows).0
  unfolding repair_ends rebuild
  repair_ends-IsCut rows = (sort_by_shuffles plan_key rows, rebuilt-IsCut (plan rows))
