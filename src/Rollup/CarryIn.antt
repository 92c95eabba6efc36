-- ===== src/Rollup/CarryIn.antt =====
-- The readings that a refresh of the rollup looks at, and the others.
use ha_timescaledb_recorder.Prelude.{
  ℕ, ◌+◌, ◌≤◌, ◌<◌, ◌≡◌, refl, sym, ap, ◌∙◌, List, [], ◌∷◌, ◌++◌, Bool, true, false, ◌&&◌, Option,
  none, some, arith, ltb, leb, max, filter, All, All-map, if◌then◌else◌, Bool-cases, inl, inr,
}
use ha_timescaledb_recorder.GapBackfill.Inserted.{filter-All, All-filter}
use ha_timescaledb_recorder.Rollup.{
  Amount, Reading, Configured, longest_hold, last_reading, carry_in, points,
}
use ha_timescaledb_recorder.Rollup.Readings.{AreInOrder, or_first, latest, latest_later, held, kept}

module _ {A : Type 0} where
  abbrev or_else : Option (Reading A) → Option (Reading A) → Option (Reading A)
  or_else (some r) o = some r
  or_else none o = o

  or_else-none : (o : Option (Reading A)) → or_else o none ≡ o
  or_else-none none = refl
  or_else-none (some r) = refl

  or_first-or_else :
      (t : ℕ) (r : Reading A) (o p : Option (Reading A))
      → or_first t r (or_else o p) ≡ or_else o (or_first t r p)
  or_first-or_else t r none p = refl
  or_first-or_else t r (some s) p = refl

  pub or_first_later :
      (t : ℕ) (r : Reading A) (o : Option (Reading A)) → t < r.last_updated → or_first t r o ≡ o
  or_first_later t r none lt = ground (arith, lt)
  or_first_later t r (some s) lt = refl

  latest-append :
      (t : ℕ) (xs ys : List (Reading A)) → latest t (xs ++ ys) ≡ or_else (latest t ys) (latest t xs)
  latest-append t [] ys = sym (or_else-none (latest t ys))
  latest-append t (x ∷ xs) ys =
      ap (or_first t x) (latest-append t xs ys) ∙ or_first-or_else t x (latest t ys) (latest t xs)

  filter-AreInOrder :
      (p : Reading A → Bool) (rs : List (Reading A)) → AreInOrder rs → AreInOrder (filter p rs)
  filter-AreInOrder p [] h = tt
  filter-AreInOrder p (r ∷ rs) (b, h) = elim (Bool-cases (p r)) [
    | inl y ↦ rw y (filter-All _ p rs b, filter-AreInOrder p rs h)
    | inr n ↦ rw n (filter-AreInOrder p rs h)
  ]

  -- the last of readings that are all there is the latest one
  latest-last_reading :
      (t : ℕ) (rs : List (Reading A))
      → All (λ r. r.last_updated ≤ t) rs
      → latest t (last_reading rs) ≡ latest t rs
  latest-last_reading t [] h = refl
  latest-last_reading t (r ∷ []) h = refl
  latest-last_reading t (r ∷ s ∷ rs) (b, (d, h)) =
      latest-last_reading t (s ∷ rs) (d, h) ∙ sym (latest_later t r s rs (ground (arith, d)))

  last_reading-AreInOrder :
      (from : ℕ) (xs ys : List (Reading A))
      → All (λ r. r.last_updated < from) xs
      → All (λ r. from ≤ r.last_updated) ys
      → AreInOrder ys
      → AreInOrder (last_reading xs ++ ys)
  last_reading-AreInOrder from [] ys b d h = h
  last_reading-AreInOrder from (x ∷ []) ys (b, _) d h = (
    All-map (λ y. from ≤ y.last_updated) (λ y. x.last_updated < y.last_updated) ys
        (λ y le. omega (arith, b, le)) d,
    h,
  )
  last_reading-AreInOrder from (x ∷ y ∷ xs) ys (_, b) d h =
      last_reading-AreInOrder from (y ∷ xs) ys b d h

module _ {A : Type 0} (c : Configured) (from to : ℕ) where
  abbrev old : List (Reading A) → List (Reading A)
  old rs = filter (λ r. ltb r.last_updated from) rs

  abbrev near : List (Reading A) → List (Reading A)
  near rs = filter (λ r. ltb r.last_updated from && leb from (r.last_updated + longest_hold c)) rs

  abbrev inside : List (Reading A) → List (Reading A)
  inside rs = filter (λ r. leb from r.last_updated && ltb r.last_updated to) rs

  none_old : (rs : List (Reading A)) → All (λ r. from ≤ r.last_updated) rs → old rs ≡ []
  none_old [] h = refl
  none_old (r ∷ rs) (b, h) = ground (arith, b, none_old rs h)

  inside_skip :
      (r : Reading A) (rs : List (Reading A)) → r.last_updated < from → inside (r ∷ rs) ≡ inside rs
  inside_skip r rs lt = ground (arith, lt)

  inside_over :
      (r : Reading A) (rs : List (Reading A)) → to ≤ r.last_updated → inside (r ∷ rs) ≡ inside rs
  inside_over r rs le = ground (arith, le)

  inside_take :
      (r : Reading A) (rs : List (Reading A))
      → from ≤ r.last_updated
      → r.last_updated < to
      → inside (r ∷ rs) ≡ r ∷ inside rs
  inside_take r rs le lt = ground (arith, le, lt)

  latest-split :
      (t : ℕ) (rs : List (Reading A))
      → AreInOrder rs
      → t < to
      → latest t rs ≡ or_else (latest t (inside rs)) (latest t (old rs))
  latest-split t [] h lt = refl
  latest-split t (r ∷ rs) (b, h) lt =
      let before = ap (or_first t r) (latest-split t rs h lt) in
      elim (Bool-cases (ltb r.last_updated from)) [
        | inl y ↦ before ∙ or_first-or_else t r (latest t (inside rs)) (latest t (old rs)) ∙ (λ i.
            or_else (latest t (sym (inside_skip r rs (ground (arith, y))) i))
              (latest t (if sym y i then r ∷ old rs else old rs)))
        | inr n ↦
            let empty = none_old rs (
              All-map (λ s. r.last_updated < s.last_updated) (λ s. from ≤ s.last_updated) rs
                (λ s lt. ground (arith, lt, n)) b) in
            let rest =
              latest-split t rs h lt
              ∙ (λ i. or_else (latest t (inside rs)) (latest t (empty i)))
              ∙ or_else-none (latest t (inside rs)) in
            let now = ap (or_first t r) rest in
            let none_left = λ (o : Option (Reading A)).
              (λ i. or_else o (latest t (if n i then r ∷ old rs else old rs)))
              ∙ (λ i. or_else o (latest t (empty i)))
              ∙ or_else-none o in
            elim (Bool-cases (ltb r.last_updated to)) [
              | inl y ↦
                  now
                  ∙ sym (ap (latest t) (inside_take r rs (ground (arith, n)) (ground (arith, y))))
                  ∙ sym (none_left (latest t (inside (r ∷ rs))))
              | inr m ↦
                  now
                  ∙ or_first_later t r (latest t (inside rs)) (ground (arith, m, lt))
                  ∙ sym (ap (latest t) (inside_over r rs (ground (arith, m))))
                  ∙ sym (none_left (latest t (inside (r ∷ rs))))
            ]
      ]

  -- behind a reading that is near, each old one is
  all_near :
      (r : Reading A) (rs : List (Reading A))
      → from ≤ r.last_updated + longest_hold c
      → All (λ s. r.last_updated < s.last_updated) rs
      → near rs ≡ old rs
  all_near r [] le h = refl
  all_near r (s ∷ rs) le (b, h) = elim (Bool-cases (ltb s.last_updated from)) [
    | inl y ↦ ground (arith, y, le, b, all_near r rs le h)
    | inr n ↦ ground (arith, n, all_near r rs le h)
  ]

  near_before : (rs : List (Reading A)) → All (λ r. r.last_updated < from) (near rs)
  near_before rs =
      All-map (λ r. (ltb r.last_updated from && leb from (r.last_updated + longest_hold c)) ≡ true)
        (λ r. r.last_updated < from) (near rs) (λ r e. ground (arith, e))
        (All-filter (λ r. ltb r.last_updated from && leb from (r.last_updated + longest_hold c)) rs)

  inside_since : (rs : List (Reading A)) → All (λ r. from ≤ r.last_updated) (inside rs)
  inside_since rs =
      All-map (λ r. (leb from r.last_updated && ltb r.last_updated to) ≡ true)
        (λ r. from ≤ r.last_updated) (inside rs) (λ r e. ground (arith, e))
        (All-filter (λ r. leb from r.last_updated && ltb r.last_updated to) rs)

  latest-carry_in :
      (t : ℕ) (rs : List (Reading A))
      → from ≤ t
      → latest t (carry_in c from rs) ≡ latest t (near rs)
  latest-carry_in t rs le = latest-last_reading t (near rs) (
      All-map (λ s. s.last_updated < from) (λ s. s.last_updated ≤ t) (near rs)
        (λ s lt. omega (arith, lt, le)) (near_before rs))

  pub points-AreInOrder : (rs : List (Reading A)) → AreInOrder rs → AreInOrder (points c from to rs)
  points-AreInOrder rs h =
      last_reading-AreInOrder from (near rs) (inside rs) (near_before rs) (inside_since rs)
        (filter-AreInOrder (λ r. leb from r.last_updated && ltb r.last_updated to) rs h)

module _ {A B : Type 0} (am : Amount A) (sums : Amount B) (weight : A → B) (c : Configured)
    (from to : ℕ) where
  pub longest_of :
      (z : Option ℕ) (h : ℕ) (b : Bool)
      → elim z [ none ↦ h | some z ↦ if b then z else h ] ≤ elim z [ none ↦ h | some z ↦ max h z ]
  longest_of none h b = ground arith
  longest_of (some z) h true = ground arith
  longest_of (some z) h false = ground arith

  kept_over :
      (t : ℕ) (r : Reading A)
      → leb from (r.last_updated + longest_hold c) ≡ false
      → from ≤ t
      → kept am sums weight c t r ≡ sums.none_of
  kept_over t r n le =
      let longest = longest_of c.zero_hold c.hold (am.is_zero r.value) in
      ground (arith, n, le, longest)

  held_over :
      (t : ℕ) (r : Reading A) (o : Option (Reading A))
      → leb from (r.last_updated + longest_hold c) ≡ false
      → r.last_updated < from
      → from ≤ t
      → held am sums weight c t (or_first t r o) ≡ held am sums weight c t o
  held_over t r none n lt le =
      let found : or_first t r none ≡ some r = ground (arith, lt, le) in
      ap (held am sums weight c t) found ∙ kept_over t r n le
  held_over t r (some s) n lt le = refl

  held-near :
      (t : ℕ) (rs : List (Reading A))
      → AreInOrder rs
      → from ≤ t
      → held am sums weight c t (latest t (near c from to rs))
        ≡ held am sums weight c t (latest t (old c from to rs))
  held-near t [] h le = refl
  held-near t (r ∷ rs) (b, h) le =
      let this = held am sums weight c t in
      let soon = leb from (r.last_updated + longest_hold c) in
      elim (Bool-cases (ltb r.last_updated from)) [
        | inl y ↦ elim (Bool-cases soon) [
          | inl p ↦
              (λ i.
                this (latest t (if y i && p i then r ∷ near c from to rs else near c from to rs)))
              ∙ ap (λ xs. this (or_first t r (latest t xs)))
                  (all_near c from to r rs (ground (arith, p)) b)
              ∙ (λ i. this (latest t (if sym y i then r ∷ old c from to rs else old c from to rs)))
          | inr q ↦
              (λ i.
                this (latest t (if y i && q i then r ∷ near c from to rs else near c from to rs)))
              ∙ held-near t rs h le
              ∙ sym (held_over t r (latest t (old c from to rs)) q (ground (arith, y)) le)
              ∙ (λ i. this (latest t (if sym y i then r ∷ old c from to rs else old c from to rs)))
        ]
        | inr n ↦
            (λ i.
              this (latest t (if n i && soon then r ∷ near c from to rs else near c from to rs)))
            ∙ held-near t rs h le
            ∙ (λ i. this (latest t (if sym n i then r ∷ old c from to rs else old c from to rs)))
      ]

  held-or_else :
      (t : ℕ) (o p q : Option (Reading A))
      → held am sums weight c t p ≡ held am sums weight c t q
      → held am sums weight c t (or_else o p) ≡ held am sums weight c t (or_else o q)
  held-or_else t none p q e = e
  held-or_else t (some r) p q e = refl

  pub held-points :
      (t : ℕ) (rs : List (Reading A))
      → AreInOrder rs
      → from ≤ t
      → t < to
      → held am sums weight c t (latest t (points c from to rs))
        ≡ held am sums weight c t (latest t rs)
  held-points t rs h le lt =
      let this = held am sums weight c t in
      ap this (latest-append t (carry_in c from rs) (inside c from to rs))
      ∙ ap (λ o. this (or_else (latest t (inside c from to rs)) o))
          (latest-carry_in c from to t rs le)
      ∙ held-or_else t (latest t (inside c from to rs)) (latest t (near c from to rs))
          (latest t (old c from to rs)) (held-near t rs h le)
      ∙ ap this (sym (latest-split c from to t rs h lt))
