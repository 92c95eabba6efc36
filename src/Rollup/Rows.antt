-- ===== src/Rollup/Rows.antt =====
-- The rows of the rollup at one minute of one entity, and what the statements of a refresh do to them.
use text.Mathlib.Text.{◌==◌ as str_eq}
use text.Mathlib.TextEquality.{eq_iff}
use ha_timescaledb_recorder.Prelude.{
  ℕ, zero, suc, ◌+◌, ◌-◌, ◌≤◌, ◌<◌, ◌≡◌, refl, sym, ap, ◌∙◌, subst, List, [], ◌∷◌, ◌++◌, Bool, true,
  false, not, ◌&&◌, arith, String, ltb, leb, ◌==◌, filter, if◌then◌else◌, Bool-cases, inl, inr, ◌⊎◌,
}
use ha_timescaledb_recorder.Rollup.{
  Amount, Segment, MinuteRow, in_range, integral_of, seconds_of, summed_rows,
}

pub text-≡ : (s t : String) → str_eq s t ≡ true → s ≡ t
text-≡ s t = (eq_iff s t).0

pub text_refl : (s : String) → str_eq s s ≡ true
text_refl s = (eq_iff s s).1 refl

pub text_sym : (s t : String) → str_eq s t ≡ false → str_eq t s ≡ false
text_sym s t n = elim (Bool-cases (str_eq t s)) [
  | inl y ↦
      let t_s = subst (λ x. str_eq x t ≡ true) (text-≡ t s y) (text_refl t) in
      ground (arith, t_s, n)
  | inr m ↦ m
]

module _ {A : Type 0} where
  abbrev pub is_at : String → ℕ → MinuteRow A → Bool
  is_at id k row = str_eq row.entity_id id && row.minute_of == k

  -- SELECT * FROM states_minute WHERE entity_id = id AND minute = k
  abbrev pub rows_at : String → ℕ → List (MinuteRow A) → List (MinuteRow A)
  rows_at id k rows = filter (is_at id k) rows

  pub rows_at-append :
      (id : String) (k : ℕ) (xs ys : List (MinuteRow A))
      → rows_at id k (xs ++ ys) ≡ rows_at id k xs ++ rows_at id k ys
  rows_at-append id k [] ys = refl
  rows_at-append id k (x ∷ xs) ys = elim (Bool-cases (is_at id k x)) [
    | inl y ↦ rw y (ap (λ zs. x ∷ zs) (rows_at-append id k xs ys))
    | inr n ↦ rw n (rows_at-append id k xs ys)
  ]

  in_range-is_at :
      (id other : String) (from to k : ℕ) (row : MinuteRow A)
      → is_at other k row ≡ true
      → in_range id from to row ≡ (str_eq other id && leb from k && ltb k to)
  in_range-is_at id other from to k row y =
      let same_minute : row.minute_of ≡ k = ground (arith, y) in
      let same_id = text-≡ row.entity_id other (ground (arith, y)) in
      λ i. str_eq (same_id i) id && leb from (same_minute i) && ltb (same_minute i) to

  -- the DELETE of a refresh
  abbrev pub left : String → ℕ → ℕ → List (MinuteRow A) → List (MinuteRow A)
  left id from to rows = filter (λ row. not (in_range id from to row)) rows

  pub rows_at-left :
      (id other : String) (from to k : ℕ) (rows : List (MinuteRow A))
      → rows_at other k (left id from to rows)
        ≡ (if str_eq other id && leb from k && ltb k to then [] else rows_at other k rows)
  rows_at-left id other from to k [] =
      elim (Bool-cases (str_eq other id && leb from k && ltb k to)) [
        | inl y ↦ ap (λ b. if b then [] else []) (sym y)
        | inr n ↦ ap (λ b. if b then [] else []) (sym n)
      ]
  rows_at-left id other from to k (row ∷ rows) =
      let d = str_eq other id && leb from k && ltb k to in
      let rest = left id from to rows in
      let ih = rows_at-left id other from to k rows in
      elim (Bool-cases (is_at other k row)) [
        | inl y ↦
            let same = in_range-is_at id other from to k row y in
            elim (Bool-cases d) [
              | inl z ↦
                  (λ i. rows_at other k (if not ((same ∙ z) i) then row ∷ rest else rest))
                  ∙ ih
                  ∙ (λ i. if z i then [] else rows_at other k rows)
                  ∙ (λ i. if sym z i then [] else rows_at other k (row ∷ rows))
              | inr n ↦
                  (λ i. rows_at other k (if not ((same ∙ n) i) then row ∷ rest else rest))
                  ∙ (λ i. if y i then row ∷ rows_at other k rest else rows_at other k rest)
                  ∙ ap (λ xs. row ∷ xs) (ih ∙ (λ i. if n i then [] else rows_at other k rows))
                  ∙ (λ i. if sym y i then row ∷ rows_at other k rows else rows_at other k rows)
                  ∙ (λ i. if sym n i then [] else rows_at other k (row ∷ rows))
            ]
        | inr n ↦ elim (Bool-cases (in_range id from to row)) [
          | inl z ↦ (λ i. rows_at other k (if not (z i) then row ∷ rest else rest)) ∙ ih ∙ (λ i.
              if d
              then []
              else (if sym n i then row ∷ rows_at other k rows else rows_at other k rows))
          | inr m ↦
              (λ i. rows_at other k (if not (m i) then row ∷ rest else rest))
              ∙ (λ i. if n i then row ∷ rows_at other k rest else rows_at other k rest)
              ∙ ih
              ∙ (λ i.
                  if d
                  then []
                  else (if sym n i then row ∷ rows_at other k rows else rows_at other k rows))
        ]
      ]

module _ {A : Type 0} (am : Amount A) (id : String) (from : ℕ) (segs : List (Segment A)) where
  -- what the INSERT of a refresh gives for one minute
  abbrev pub summed_at : ℕ → List (MinuteRow A)
  summed_at k =
      if ltb 0 (seconds_of am from k segs)
      then record {
        entity_id = id;
        minute_of = k;
        integral = integral_of am from k segs;
        covered = seconds_of am from k segs;
      }
        ∷ []
      else []

  abbrev next_rows : Bool → ℕ → List (MinuteRow A) → List (MinuteRow A)
  next_rows b j rest =
      if b
      then record {
        entity_id = id;
        minute_of = j;
        integral = integral_of am from j segs;
        covered = seconds_of am from j segs;
      }
        ∷ rest
      else rest

  skip_row :
      (other : String) (j k : ℕ) (b : Bool) (rest : List (MinuteRow A))
      → (str_eq id other && j == k) ≡ false
      → rows_at other k (next_rows b j rest) ≡ rows_at other k rest
  skip_row other j k true rest e = rw e refl
  skip_row other j k false rest e = refl

  take_row :
      (j k : ℕ) (b : Bool) (rest : List (MinuteRow A))
      → j ≡ k
      → rows_at id k rest ≡ []
      → rows_at id k (next_rows b j rest) ≡ next_rows b j []
  take_row j k true rest e none_left =
      let here : (str_eq id id && j == k) ≡ true = ground (arith, text_refl id, e) in
      (λ i. next_rows (here i) j (rows_at id k rest)) ∙ ap (next_rows true j) none_left
  take_row j k false rest e none_left = none_left

  summed_other :
      (other : String) (j k n : ℕ)
      → str_eq id other ≡ false
      → rows_at other k (summed_rows am id from segs j n) ≡ []
  unfolding summed_rows
  summed_other other j k zero e = refl
  summed_other other j k (suc n) e =
      skip_row other j k (ltb 0 (seconds_of am from j segs)) (summed_rows am id from segs (suc j) n)
        (ap (λ b. b && j == k) e)
      ∙ summed_other other (suc j) k n e

  summed_later : (j k n : ℕ) → k < j → rows_at id k (summed_rows am id from segs j n) ≡ []
  unfolding summed_rows
  summed_later j k zero lt = refl
  summed_later j k (suc n) lt =
      skip_row id j k (ltb 0 (seconds_of am from j segs)) (summed_rows am id from segs (suc j) n)
        (ground (arith, lt))
      ∙ summed_later (suc j) k n (omega (arith, lt))

  summed_before : (j k n : ℕ) → j + n ≤ k → rows_at id k (summed_rows am id from segs j n) ≡ []
  unfolding summed_rows
  summed_before j k zero le = refl
  summed_before j k (suc n) le =
      skip_row id j k (ltb 0 (seconds_of am from j segs)) (summed_rows am id from segs (suc j) n)
        (ground (arith, le))
      ∙ summed_before (suc j) k n (omega (arith, le))

  summed_inside :
      (j k n : ℕ) → j ≤ k → k < j + n → rows_at id k (summed_rows am id from segs j n) ≡ summed_at k
  unfolding summed_rows
  summed_inside j k zero le lt = absurd (omega (arith, le, lt))
  summed_inside j k (suc n) le lt = elim (Bool-cases (j == k)) [
    | inl y ↦
        let same : j ≡ k = ground (arith, y) in
        take_row j k (ltb 0 (seconds_of am from j segs)) (summed_rows am id from segs (suc j) n)
          same (summed_later (suc j) k n (omega (arith, same)))
        ∙ ap summed_at same
    | inr m ↦
        skip_row id j k (ltb 0 (seconds_of am from j segs)) (summed_rows am id from segs (suc j) n)
          (ground (arith, m))
        ∙ summed_inside (suc j) k n (ground (arith, le, m)) (omega (arith, lt))
  ]

  none_summed :
      (k n : ℕ) → k < from ⊎ from + n ≤ k → rows_at id k (summed_rows am id from segs from n) ≡ []
  none_summed k n (inl lt) = summed_later from k n lt
  none_summed k n (inr le) = summed_before from k n le

  pub rows_at-summed_rows :
      (other : String) (to k : ℕ)
      → from ≤ to
      → rows_at other k (summed_rows am id from segs from (to - from))
        ≡ (if str_eq other id && leb from k && ltb k to then summed_at k else [])
  rows_at-summed_rows other to k le = elim (Bool-cases (str_eq other id)) [
    | inl y ↦
        let same = text-≡ other id y in
        let wanted = str_eq other id && leb from k && ltb k to in
        ap (λ x. rows_at x k (summed_rows am id from segs from (to - from))) same
        ∙ elim (Bool-cases (leb from k && ltb k to)) [
          | inl z ↦
              summed_inside from k (to - from) (ground (arith, z)) (ground (arith, z, le))
              ∙ (let all_true : wanted ≡ true = ground (arith, y, z) in
                  λ i. if sym all_true i then summed_at k else [])
          | inr n ↦
              none_summed k (to - from) (ground (arith, n, le))
              ∙ (let one_false : wanted ≡ false = ground (arith, y, n) in
                  λ i. if sym one_false i then summed_at k else [])
        ]
    | inr n ↦
        summed_other other from k (to - from) (text_sym other id n)
        ∙ (λ i. if sym n i && leb from k && ltb k to then summed_at k else [])
  ]
