-- ===== src/Rollup/Marked/Outside.antt =====
-- The rollup of an entity with and without the readings between two times.

use ha_timescaledb_recorder.Prelude.{
  ℕ, ◌+◌, ◌*◌, ◌/◌, ◌≤◌, ◌<◌, ◌≡◌, refl, sym, ap, ◌∙◌, subst, List, [], ◌∷◌, Bool, ◌||◌, arith,
  Option, none, some, filter, ltb, leb, if◌then◌else◌, Bool-cases, inl, inr, ◌⊎◌, All, All-map,
}
use ha_timescaledb_recorder.Rollup.{minute, Amount, Reading, Configured, longest_hold}
use ha_timescaledb_recorder.Rollup.Sums.{sum_over-cong}
use ha_timescaledb_recorder.Rollup.Readings.{AreInOrder, or_first, latest, held}
use ha_timescaledb_recorder.Rollup.CarryIn.{longest_of, or_first_later}
use ha_timescaledb_recorder.Rollup.Refreshed.{held_minute}

module _ {A : Type 0} where
  -- the readings that are not between the two times
  abbrev pub outside : ℕ → ℕ → List (Reading A) → List (Reading A)
  outside lo hi rs = filter (λ r. ltb r.last_updated lo || ltb hi r.last_updated) rs

  latest-outside_before :
      (t lo hi : ℕ) (rs : List (Reading A)) → t < lo → latest t (outside lo hi rs) ≡ latest t rs
  latest-outside_before t lo hi [] lt = refl
  latest-outside_before t lo hi (r ∷ rs) lt =
      let rest = outside lo hi rs in
      elim (Bool-cases (ltb r.last_updated lo || ltb hi r.last_updated)) [
        | inl y ↦
            (λ i. latest t (if y i then r ∷ rest else rest))
            ∙ ap (or_first t r) (latest-outside_before t lo hi rs lt)
        | inr n ↦
            (λ i. latest t (if n i then r ∷ rest else rest))
            ∙ latest-outside_before t lo hi rs lt
            ∙ sym (or_first_later t r (latest t rs) (ground (arith, n, lt)))
      ]

  outside_later :
      (lo hi : ℕ) (rs : List (Reading A))
      → All (λ r. hi < r.last_updated) rs
      → outside lo hi rs ≡ rs
  outside_later lo hi [] h = refl
  outside_later lo hi (r ∷ rs) (b, h) = ground (arith, b, outside_later lo hi rs h)

  -- nothing later than `hi`
  abbrev IsOld : ℕ → Option (Reading A) → Type 0
  IsOld hi none = Unit
  IsOld hi (some r) = r.last_updated ≤ hi

  or_first-IsOld :
      (t hi : ℕ) (r : Reading A) (o : Option (Reading A))
      → r.last_updated ≤ hi
      → IsOld hi o
      → IsOld hi (or_first t r o)
  or_first-IsOld t hi r none le h = elim (Bool-cases (leb r.last_updated t)) [
    | inl y ↦ subst (λ b. IsOld hi (if b then some r else none)) (sym y) le
    | inr n ↦ subst (λ b. IsOld hi (if b then some r else none)) (sym n) tt
  ]
  or_first-IsOld t hi r (some s) le h = h

  one_less :
      (t hi : ℕ) (r : Reading A) (o p : Option (Reading A))
      → r.last_updated ≤ hi
      → p ≡ o
      → (p ≡ or_first t r o) ⊎ (IsOld hi p × IsOld hi (or_first t r o))
  one_less t hi r none p le e = inr (subst (IsOld hi) (sym e) tt, or_first-IsOld t hi r none le tt)
  one_less t hi r (some s) p le e = inl e

  latest-outside_after :
      (t lo hi : ℕ) (rs : List (Reading A))
      → AreInOrder rs
      → (latest t (outside lo hi rs) ≡ latest t rs)
        ⊎ (IsOld hi (latest t (outside lo hi rs)) × IsOld hi (latest t rs))
  latest-outside_after t lo hi [] h = inl refl
  latest-outside_after t lo hi (r ∷ rs) (b, h) = elim (Bool-cases (ltb hi r.last_updated)) [
    | inl y ↦ inl (
        ap (latest t) (
          outside_later lo hi (r ∷ rs) (
            ground (arith, y),
            All-map (λ s. r.last_updated < s.last_updated) (λ s. hi < s.last_updated) rs
                (λ s lt. ground (arith, lt, y)) b,
          )))
    | inr n ↦
        let rest = outside lo hi rs in
        let early : r.last_updated ≤ hi = ground (arith, n) in
        let test = λ (b : Bool). latest t (if b then r ∷ rest else rest) in
        elim (Bool-cases (ltb r.last_updated lo || ltb hi r.last_updated)) [
          | inl z ↦ elim (latest-outside_after t lo hi rs h) [
            | inl e ↦ inl (ap test z ∙ ap (or_first t r) e)
            | inr (p, q) ↦ inr (
              subst (IsOld hi) (sym (ap test z)) (or_first-IsOld t hi r (latest t rest) early p),
              or_first-IsOld t hi r (latest t rs) early q,
            )
          ]
          | inr m ↦ elim (latest-outside_after t lo hi rs h) [
            | inl e ↦ elim (one_less t hi r (latest t rs) (latest t rest) early e) [
              | inl same ↦ inl (ap test m ∙ same)
              | inr (p, q) ↦ inr (subst (IsOld hi) (sym (ap test m)) p, q)
            ]
            | inr (p, q) ↦
                inr (
                  subst (IsOld hi) (sym (ap test m)) p,
                  or_first-IsOld t hi r (latest t rs) early q,
                )
          ]
        ]
  ]

module _ {A B : Type 0} (am : Amount A) (sums : Amount B) (weight : A → B) (c : Configured) where
  held-IsOld :
      (t hi : ℕ) (o : Option (Reading A))
      → hi + longest_hold c ≤ t
      → IsOld hi o
      → held am sums weight c t o ≡ sums.none_of
  held-IsOld t hi none le h = refl
  held-IsOld t hi (some r) le h =
      let longest = longest_of am sums weight c 0 0 c.zero_hold c.hold (am.is_zero r.value) in
      ground (arith, longest, le, h)

  held-outside :
      (t lo hi : ℕ) (rs : List (Reading A))
      → AreInOrder rs
      → t < lo ⊎ hi + longest_hold c ≤ t
      → held am sums weight c t (latest t (outside lo hi rs))
        ≡ held am sums weight c t (latest t rs)
  held-outside t lo hi rs h (inl lt) =
      ap (held am sums weight c t) (latest-outside_before t lo hi rs lt)
  held-outside t lo hi rs h (inr le) = elim (latest-outside_after t lo hi rs h) [
    | inl e ↦ ap (held am sums weight c t) e
    | inr (p, q) ↦
        held-IsOld t hi (latest t (outside lo hi rs)) le p
        ∙ sym (held-IsOld t hi (latest t rs) le q)
  ]

  -- readings between the two times make no difference to a minute before them, or behind their hold
  pub held_minute-outside :
      (k lo hi : ℕ) (rs ss : List (Reading A))
      → AreInOrder rs
      → AreInOrder ss
      → outside lo hi rs ≡ outside lo hi ss
      → k < lo / minute ⊎ hi + longest_hold c ≤ k * minute
      → held_minute am sums weight c rs k ≡ held_minute am sums weight c ss k
  held_minute-outside k lo hi rs ss h g e away =
      sum_over-cong sums minute
        (λ i. held am sums weight c (k * minute + i) (latest (k * minute + i) rs))
        (λ i. held am sums weight c (k * minute + i) (latest (k * minute + i) ss))
        (λ i b.
          let where_it_is = tick_away k lo hi i b away in
          sym (held-outside (k * minute + i) lo hi rs h where_it_is)
          ∙ ap (λ xs. held am sums weight c (k * minute + i) (latest (k * minute + i) xs)) e
          ∙ held-outside (k * minute + i) lo hi ss g where_it_is)
    where
      tick_away :
          (k lo hi i : ℕ)
          → i < minute
          → k < lo / minute ⊎ hi + longest_hold c ≤ k * minute
          → (k * minute + i) < lo ⊎ hi + longest_hold c ≤ k * minute + i
      tick_away k lo hi i b (inl lt) = inl (omega (arith, lt, b))
      tick_away k lo hi i b (inr le) = inr (omega (arith, le))
