-- ===== src/Rollup/Refreshed.antt =====
-- STATES_MINUTE_REFRESH_FN_SQL of custom_components/timescaledb_recorder/const.py against the minutes
-- that all readings of an entity make.
use mathlib.Core.Option.{some-injective}
use text.Mathlib.Text.{◌==◌ as str_eq}
use ha_timescaledb_recorder.Prelude.{
  ℕ, zero, suc, ◌+◌, ◌-◌, ◌*◌, ◌/◌, ◌≤◌, ◌<◌, ◌≡◌, refl, sym, ap, ◌∙◌, List, [], ◌∷◌, ◌++◌, Bool,
  true, false, ◌&&◌, arith, Option, none, some, String, ltb, leb, ◌==◌, min, map, if◌then◌else◌,
  Bool-cases, inl, inr, append-nil,
}
use ha_timescaledb_recorder.Rollup.{
  minute, Amount, Reading, Configured, MinuteRow, Segment, segments, slice, times, points,
  integral_of, seconds_of, summed_rows, refresh_range, find_entity, states_minute_refresh,
}
use ha_timescaledb_recorder.Rollup.Sums.{sum_over, sum_over-cong, segments_at, integral_of-sum_over}
use ha_timescaledb_recorder.Rollup.Readings.{AreInOrder, latest, weigh, held, segments_at-held}
use ha_timescaledb_recorder.Rollup.CarryIn.{points-AreInOrder, held-points}
use ha_timescaledb_recorder.Rollup.Rows.{
  rows_at, rows_at-append, left, rows_at-left, rows_at-summed_rows, summed_at, text-≡,
}

-- seconds, in ticks
abbrev pub counting : Amount ℕ
counting = record {
  none_of = 0;
  plus = λ m n. m + n;
  is_zero = λ n. n == 0;
  plus_assoc = λ a b c. omega arith;
  plus_comm = λ a b. omega arith;
  plus-none_of = λ a. omega arith;
}

module _ {A B : Type 0} (am : Amount A) (sums : Amount B) (weight : A → B) (c : Configured)
    (readings : List (Reading A)) where
  -- the sum over the ticks of minute `k` of what holds at each
  abbrev pub held_minute : ℕ → B
  held_minute k =
      sum_over sums minute
        (λ i. held am sums weight c (k * minute + i) (latest (k * minute + i) readings))

  integral_of-held :
      (from to k : ℕ)
      → AreInOrder readings
      → from ≤ k
      → k < to
      → integral_of sums from k (
          map
            (weigh am sums weight)
            (segments am c (to * minute) (points c (from * minute) (to * minute) readings)))
        ≡ held_minute k
  integral_of-held from to k h le lt =
      let pts = points c (from * minute) (to * minute) readings in
      integral_of-sum_over sums from k
        (map (weigh am sums weight) (segments am c (to * minute) pts)) le
      ∙ sum_over-cong sums minute
          (λ i.
            segments_at sums (map (weigh am sums weight) (segments am c (to * minute) pts))
              (k * minute + i))
          (λ i. held am sums weight c (k * minute + i) (latest (k * minute + i) readings))
          (λ i b.
            segments_at-held am sums weight c (to * minute) (k * minute + i) pts
              (points-AreInOrder c (from * minute) (to * minute) readings h) (omega (arith, lt, b))
            ∙ held-points am sums weight c (from * minute) (to * minute) (k * minute + i) readings h
                (omega (arith, le)) (omega (arith, lt, b)))

module _ {A : Type 0} (am : Amount A) where
  map-weigh : (segs : List (Segment A)) → map (weigh am am (λ x. x)) segs ≡ segs
  map-weigh [] = refl
  map-weigh (seg ∷ segs) = ap (λ xs. seg ∷ xs) (map-weigh segs)

  times-one : (n : ℕ) → times counting n 1 ≡ n
  times-one zero = refl
  times-one (suc n) = omega (arith, times-one n)

  seconds_of-counting :
      (from k : ℕ) (segs : List (Segment A))
      → seconds_of am from k segs
        ≡ integral_of counting from k (map (weigh am counting (λ v. 1)) segs)
  unfolding integral_of seconds_of
  seconds_of-counting from k [] = refl
  seconds_of-counting from k (seg ∷ segs) =
      λ i. sym (times-one (slice am from k seg)) i + seconds_of-counting from k segs i

  -- The row of minute `k` from all readings: at each tick the last one counts until its hold is over.
  -- No row where nothing counts.
  unfoldable pub reference : Configured → List (Reading A) → ℕ → List (MinuteRow A)
  reference c readings k =
      let covered = held_minute am counting (λ v. 1) c readings k in
      if ltb 0 covered
      then record {
        entity_id = c.entity_id;
        minute_of = k;
        integral = held_minute am am (λ v. v) c readings k;
        covered = covered;
      }
        ∷ []
      else []

  summed_at-reference :
      (c : Configured) (readings : List (Reading A)) (from to k : ℕ)
      → AreInOrder readings
      → from ≤ k
      → k < to
      → summed_at am c.entity_id from
          (segments am c (to * minute) (points c (from * minute) (to * minute) readings))
          k
        ≡ reference c readings k
  unfolding reference
  summed_at-reference c readings from to k h le lt =
      let segs = segments am c (to * minute) (points c (from * minute) (to * minute) readings) in
      let integrals =
        ap (integral_of am from k) (sym (map-weigh segs))
        ∙ integral_of-held am am (λ v. v) c readings from to k h le lt in
      let seconds =
        seconds_of-counting from k segs
        ∙ integral_of-held am counting (λ v. 1) c readings from to k h le lt in
      λ i.
        if ltb 0 (seconds i)
        then record {
          entity_id = c.entity_id;
          minute_of = k;
          integral = integrals i;
          covered = seconds i;
        }
          ∷ []
        else []

  both_at :
      (kept new wanted : List (MinuteRow A)) (b : Bool)
      → (b ≡ true → new ≡ wanted)
      → (if b then [] else kept) ++ (if b then new else []) ≡ (if b then wanted else kept)
  both_at kept new wanted true e = e refl
  both_at kept new wanted false e = append-nil kept

  pub rows_at-refresh_range :
      (c : Configured) (readings : List (Reading A)) (from to : ℕ) (rows : List (MinuteRow A))
      (id : String) (k : ℕ)
      → AreInOrder readings
      → rows_at id k (refresh_range am c readings from to rows) ≡ (
          if str_eq id c.entity_id && leb from k && ltb k to
          then reference c readings k
          else rows_at id k rows)
  unfolding refresh_range
  rows_at-refresh_range c readings from to rows id k h =
      let here = str_eq id c.entity_id && leb from k && ltb k to in
      let segs = segments am c (to * minute) (points c (from * minute) (to * minute) readings) in
      elim (Bool-cases (leb to from)) [
        | inl y ↦
            let outside : here ≡ false = ground (arith, y) in
            (λ i. rows_at id k (
              if y i
              then rows
              else left c.entity_id from to rows
                ++ summed_rows am c.entity_id from segs from (to - from)))
            ∙ (λ i. if sym outside i then reference c readings k else rows_at id k rows)
        | inr n ↦
            (λ i. rows_at id k (
              if n i
              then rows
              else left c.entity_id from to rows
                ++ summed_rows am c.entity_id from segs from (to - from)))
            ∙ rows_at-append id k (left c.entity_id from to rows)
                (summed_rows am c.entity_id from segs from (to - from))
            ∙ (λ i.
                rows_at-left c.entity_id id from to k rows i
                ++ rows_at-summed_rows am c.entity_id from segs id to k (ground (arith, n)) i)
            ∙ both_at (rows_at id k rows) (summed_at am c.entity_id from segs k)
                (reference c readings k) here
                (λ e.
                  summed_at-reference c readings from to k h (ground (arith, e))
                    (ground (arith, e)))
      ]

pub find_entity-entity_id :
    (id : String) (cs : List Configured) (c : Configured)
    → find_entity id cs ≡ some c
    → c.entity_id ≡ id
find_entity-entity_id id [] c e = ground (arith, e)
find_entity-entity_id id (d ∷ cs) c e = elim (Bool-cases (str_eq d.entity_id id)) [
  | inl y ↦
      let found : some d ≡ some c = (λ i. if sym y i then some d else find_entity id cs) ∙ e in
      ap (λ x. x.entity_id) (sym (some-injective d c found)) ∙ text-≡ d.entity_id id y
  | inr n ↦ find_entity-entity_id id cs c ((λ i. if sym n i then some d else find_entity id cs) ∙ e)
]

module _ {A : Type 0} (am : Amount A) where
  pub refresh_unknown :
      (entities : List Configured) (states : String → List (Reading A)) (now : ℕ) (id : String)
      (from to : ℕ) (rows : List (MinuteRow A))
      → find_entity id entities ≡ none
      → states_minute_refresh am entities states now id from to rows ≡ rows
  unfolding states_minute_refresh
  refresh_unknown entities states now id from to rows missing = λ i. elim (missing i) [
    | none ↦ rows
    | some c ↦
        refresh_range am c (states id) (from / minute) (min (to / minute) (now / minute)) rows
  ]

  -- After a refresh of one configured entity, whose readings are in order, the rollup holds for every
  -- minute of the truncated range that is over by the clock the row that all readings of the entity make,
  -- or none where they cover nothing of the minute; every other minute, and every other entity, has the
  -- rows it had. The range chosen makes no difference to a row.
  pub states_minute_refresh-reference :
      (entities : List Configured) (states : String → List (Reading A)) (now : ℕ) (id : String)
      (from to : ℕ) (rows : List (MinuteRow A)) (c : Configured) (other : String) (k : ℕ)
      → find_entity id entities ≡ some c
      → AreInOrder (states id)
      → rows_at other k (states_minute_refresh am entities states now id from to rows) ≡ (
          if str_eq other id && leb (from / minute) k && ltb k (min (to / minute) (now / minute))
          then reference am c (states id) k
          else rows_at other k rows)
  unfolding states_minute_refresh
  states_minute_refresh-reference entities states now id from to rows c other k found h =
      let end = min (to / minute) (now / minute) in
      let same = find_entity-entity_id id entities c found in
      (λ i. rows_at other k (elim (found i) [
        | none ↦ rows
        | some c ↦ refresh_range am c (states id) (from / minute) end rows
      ]))
      ∙ rows_at-refresh_range am c (states id) (from / minute) end rows other k h
      ∙ (λ i.
          if str_eq other (same i) && leb (from / minute) k && ltb k end
          then reference am c (states id) k
          else rows_at other k rows)

pub reference-filled :
    {A : Type 0} (am : Amount A) (c : Configured) (f : Option ℕ) (rs : List (Reading A)) (k : ℕ)
    → reference am (record c { filled_until = f }) rs k ≡ reference am c rs k
unfolding reference
reference-filled am c f rs k = refl
