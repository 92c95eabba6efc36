-- ===== src/Canonical/Sorting.antt =====
-- canonical.py: sorting by a key.
use ha_timescaledb_recorder.Prelude.{
  ℕ, ◌≡◌, refl, sym, ap, ◌∙◌, List, [], ◌∷◌, Bool, true, false, ◌&&◌, ◌||◌, ltb, ◌==◌, arith,
  if◌then◌else◌, Bool-cases, inl, inr,
}

-- `<=` of texts: the order of their code points
abbrev pub comes_before : List ℕ → List ℕ → Bool
comes_before [] t = true
comes_before (c ∷ s) [] = false
comes_before (c ∷ s) (d ∷ t) = ltb c d || (c == d && comes_before s t)

pub comes_before_refl : (s : List ℕ) → comes_before s s ≡ true
comes_before_refl [] = refl
comes_before_refl (c ∷ s) = ground (arith, comes_before_refl s)

pub comes_before_total : (s t : List ℕ) → comes_before s t ≡ false → comes_before t s ≡ true
comes_before_total [] t h = absurd (ground (arith, h))
comes_before_total (c ∷ s) [] h = refl
comes_before_total (c ∷ s) (d ∷ t) h = ground (arith, h, comes_before_total s t)

pub comes_before_trans :
    (s t u : List ℕ) → comes_before s t ≡ true → comes_before t u ≡ true → comes_before s u ≡ true
comes_before_trans [] t u h k = refl
comes_before_trans (c ∷ s) [] u h k = absurd (ground (arith, h))
comes_before_trans (c ∷ s) (d ∷ t) [] h k = absurd (ground (arith, k))
comes_before_trans (c ∷ s) (d ∷ t) (e ∷ u) h k = ground (arith, h, k, comes_before_trans s t u)

pub comes_before_antisymm :
    (s t : List ℕ) → comes_before s t ≡ true → comes_before t s ≡ true → s ≡ t
comes_before_antisymm [] [] h k = refl
comes_before_antisymm [] (d ∷ t) h k = absurd (ground (arith, k))
comes_before_antisymm (c ∷ s) [] h k = absurd (ground (arith, h))
comes_before_antisymm (c ∷ s) (d ∷ t) h k =
    let heads : c ≡ d = ground (arith, h, k) in
    let tails : s ≡ t = comes_before_antisymm s t (ground (arith, h, k)) (ground (arith, h, k)) in
    λ i. heads i ∷ tails i

module _ {A : Type 0} (key : A → List ℕ) where
  abbrev pub insert_by : A → List A → List A
  insert_by x [] = x ∷ []
  insert_by x (y ∷ ys) =
      let rest = insert_by x ys in if comes_before (key x) (key y) then x ∷ y ∷ ys else y ∷ rest

  -- `sorted`, which keeps the order of equal keys
  abbrev pub sort_by : List A → List A
  sort_by [] = []
  sort_by (x ∷ xs) = insert_by x (sort_by xs)

  abbrev pub IsBelow : A → List A → Type 0
  IsBelow x [] = Unit
  IsBelow x (y ∷ ys) = comes_before (key x) (key y) ≡ true

  -- each before the next one
  abbrev pub IsSorted : List A → Type 0
  IsSorted [] = Unit
  IsSorted (x ∷ xs) = IsBelow x xs × IsSorted xs

  insert_by-IsBelow :
      (x y : A) (ys : List A)
      → comes_before (key y) (key x) ≡ true
      → IsBelow y ys
      → IsBelow y (insert_by x ys)
  insert_by-IsBelow x y [] h b = h
  insert_by-IsBelow x y (z ∷ ys) h b = elim (Bool-cases (comes_before (key x) (key z))) [
    | inl a ↦ rw a h
    | inr n ↦ rw n b
  ]

  insert_by-IsSorted : (x : A) (xs : List A) → IsSorted xs → IsSorted (insert_by x xs)
  insert_by-IsSorted x [] h = (tt, tt)
  insert_by-IsSorted x (z ∷ ys) (b, h) = elim (Bool-cases (comes_before (key x) (key z))) [
    | inl y ↦ rw y (y, (b, h))
    | inr n ↦ rw n (
      insert_by-IsBelow x z ys (comes_before_total (key x) (key z) n) b,
      insert_by-IsSorted x ys h,
    )
  ]

  pub sort_by-IsSorted : (xs : List A) → IsSorted (sort_by xs)
  sort_by-IsSorted [] = tt
  sort_by-IsSorted (x ∷ xs) = insert_by-IsSorted x (sort_by xs) (sort_by-IsSorted xs)

  insert_by-least : (x : A) (xs : List A) → IsBelow x xs → insert_by x xs ≡ x ∷ xs
  insert_by-least x [] h = refl
  insert_by-least x (y ∷ ys) h = rw h refl

  pub sorted_stays : (xs : List A) → IsSorted xs → sort_by xs ≡ xs
  sorted_stays [] h = refl
  sorted_stays (x ∷ xs) (b, h) = ap (insert_by x) (sorted_stays xs h) ∙ insert_by-least x xs b

  pub sort_by-sort_by : (xs : List A) → sort_by (sort_by xs) ≡ sort_by xs
  sort_by-sort_by xs = sorted_stays (sort_by xs) (sort_by-IsSorted xs)

-- Two lists with the same elements, each as often.
pub data Shuffled {A : Type 0} : List A → List A → Type 0 where
  unmoved : {xs : List A} → Shuffled xs xs
  swapped_first : {x y : A} {xs : List A} → Shuffled (x ∷ y ∷ xs) (y ∷ x ∷ xs)
  after_first : {x : A} {xs ys : List A} → Shuffled xs ys → Shuffled (x ∷ xs) (x ∷ ys)
  then_again : {xs ys zs : List A} → Shuffled xs ys → Shuffled ys zs → Shuffled xs zs

abbrev insert_text : List ℕ → List (List ℕ) → List (List ℕ)
insert_text = insert_by (λ s. s)

insert-insert :
    (v w : List ℕ) (xs : List (List ℕ))
    → comes_before v w ≡ true
    → comes_before w v ≡ false
    → insert_text v (insert_text w xs) ≡ insert_text w (insert_text v xs)
insert-insert v w [] h n = ground (arith, h, n)
insert-insert v w (x ∷ xs) h n = elim (Bool-cases (comes_before w x)) [
  | inl y ↦ ground (arith, h, n, y, comes_before_trans v w x h y)
  | inr m ↦ elim (Bool-cases (comes_before v x)) [
    | inl y ↦ ground (arith, h, n, m, y)
    | inr k ↦ ground (arith, m, k, insert-insert v w xs h n)
  ]
]

insert_same :
    (v w : List ℕ) (xs : List (List ℕ))
    → v ≡ w
    → insert_text v (insert_text w xs) ≡ insert_text w (insert_text v xs)
insert_same v w xs e =
    ap (λ u. insert_text v (insert_text u xs)) (sym e)
    ∙ ap (λ u. insert_text u (insert_text v xs)) e

insert_comm :
    (v w : List ℕ) (xs : List (List ℕ))
    → insert_text v (insert_text w xs) ≡ insert_text w (insert_text v xs)
insert_comm v w xs = elim (Bool-cases (comes_before v w)) [
  | inl h ↦ elim (Bool-cases (comes_before w v)) [
    | inl k ↦ insert_same v w xs (comes_before_antisymm v w h k)
    | inr n ↦ insert-insert v w xs h n
  ]
  | inr n ↦ sym (insert-insert w v xs (comes_before_total v w n) n)
]

-- Sorted texts do not depend on the order given.
pub sort_by-Shuffled :
    {xs ys : List (List ℕ)} → Shuffled xs ys → sort_by (λ s. s) xs ≡ sort_by (λ s. s) ys
sort_by-Shuffled unmoved = refl
sort_by-Shuffled (swapped_first {x} {y} {xs}) = insert_comm x y (sort_by (λ s. s) xs)
sort_by-Shuffled (after_first {x} h) = ap (insert_text x) (sort_by-Shuffled h)
sort_by-Shuffled (then_again h k) = sort_by-Shuffled h ∙ sort_by-Shuffled k

module _ {A : Type 0} (key : A → List ℕ) where
  insert_by-Shuffled : (x : A) (xs : List A) → Shuffled (x ∷ xs) (insert_by key x xs)
  insert_by-Shuffled x [] = unmoved
  insert_by-Shuffled x (y ∷ ys) = elim (Bool-cases (comes_before (key x) (key y))) [
    | inl h ↦ rw h unmoved
    | inr n ↦ rw n (then_again swapped_first (after_first (insert_by-Shuffled x ys)))
  ]

  -- Sorting keeps the elements.
  pub sort_by_shuffles : (xs : List A) → Shuffled xs (sort_by key xs)
  sort_by_shuffles [] = unmoved
  sort_by_shuffles (x ∷ xs) =
      then_again (after_first (sort_by_shuffles xs)) (insert_by-Shuffled x (sort_by key xs))
