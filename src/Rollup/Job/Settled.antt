-- ===== src/Rollup/Job/Settled.antt =====
-- A run of the job: what is right behind each of its units.
use mathlib.Core.Option.{some-injective}
use text.Mathlib.Text.{◌==◌ as str_eq}
use ha_timescaledb_recorder.Prelude.{
  ℕ, ◌-◌, ◌/◌, ◌≤◌, ◌<◌, ◌≡◌, refl, sym, ap, ◌∙◌, List, [], ◌∷◌, ◌++◌, Bool, true, false, ◌&&◌,
  arith, none, some, String, ltb, leb, min, max, any-append, if◌then◌else◌, Bool-cases, inl, inr,
  ◌⊎◌, Option-cases,
}
use ha_timescaledb_recorder.Rollup.{
  minute, Amount, Reading, Configured, find_entity, states_minute_refresh,
}
use ha_timescaledb_recorder.Rollup.Readings.{AreInOrder}
use ha_timescaledb_recorder.Rollup.Rows.{rows_at, text-≡}
use ha_timescaledb_recorder.Rollup.Refreshed.{
  reference, states_minute_refresh-reference, refresh_unknown,
}
use ha_timescaledb_recorder.Rollup.Job.{
  Dirty, Tables, day, newest_end, range_to, frontier_or, tail_of, range_unit,
}
use ha_timescaledb_recorder.Rollup.Job.Ranges.{covers, is_dirty, replaced_dirty, put_dirty}

some≢none : (c : Configured) → ¬ (some c ≡ none)
some≢none c h = absurd (ground (arith, h))

-- the refresh computes the minute
abbrev reaches : ℕ → String → ℕ → ℕ → Configured → ℕ → Bool
reaches now id from to c k =
    str_eq c.entity_id id && leb (from / minute) k && ltb k (min (to / minute) (now / minute))

dirty_more :
    (id : String) (k : ℕ) (b : Bool) (ds new : List Dirty)
    → is_dirty id k ds ≡ true
    → is_dirty id k (if b then ds ++ new else ds) ≡ true
dirty_more id k true ds new y =
    let both = any-append (covers id k) ds new in ground (arith, both, y)
dirty_more id k false ds new y = y

dirty_new :
    (id : String) (k : ℕ) (b : Bool) (ds new : List Dirty)
    → b ≡ true
    → is_dirty id k new ≡ true
    → is_dirty id k (if b then ds ++ new else ds) ≡ true
dirty_new id k true ds new e y =
    let both = any-append (covers id k) ds new in ground (arith, both, y)
dirty_new id k false ds new e y = absurd (ground (arith, e))

module _ {A : Type 0} (am : Amount A) (states : String → List (Reading A)) where
  -- The row of the minute is the one that all readings make.
  abbrev pub IsRight : Configured → ℕ → Tables A → Type 0
  IsRight c k t = rows_at c.entity_id k t.rows ≡ reference am c (states c.entity_id) k

  -- Right, or a dirty range still covers it.
  abbrev pub IsSettled : Configured → ℕ → Tables A → Type 0
  IsSettled c k t = IsRight c k t ⊎ is_dirty c.entity_id k t.dirty ≡ true

  -- a refresh does not spoil a row, and makes one right that it reaches
  refresh-IsRight :
      (entities : List Configured) (now : ℕ) (id : String) (from to : ℕ) (t u : Tables A)
      (c : Configured) (k : ℕ)
      → find_entity c.entity_id entities ≡ some c
      → ((id : String) → AreInOrder (states id))
      → u.rows ≡ states_minute_refresh am entities states now id from to t.rows
      → IsRight c k t ⊎ reaches now id from to c k ≡ true
      → IsRight c k u
  refresh-IsRight entities now id from to t u c k found order e h =
      ap (rows_at c.entity_id k) e ∙ elim (Option-cases (find_entity id entities)) [
        | inl missing ↦
            ap (rows_at c.entity_id k)
              (refresh_unknown am entities states now id from to t.rows missing)
            ∙ elim h [
              | inl right ↦ right
              | inr here ↦
                  let same = text-≡ c.entity_id id (ground (arith, here)) in
                  absurd (some≢none c (sym found ∙ ap (λ x. find_entity x entities) same ∙ missing))
            ]
        | inr (d, known) ↦
            let this =
              states_minute_refresh-reference am entities states now id from to t.rows d c.entity_id
                k known (order id) in
            this ∙ elim (Bool-cases (reaches now id from to c k)) [
              | inl y ↦
                  let same = text-≡ c.entity_id id (ground (arith, y)) in
                  let one =
                    some-injective d c
                      (sym known ∙ ap (λ x. find_entity x entities) (sym same) ∙ found) in
                  (λ i. if y i then reference am d (states id) k else rows_at c.entity_id k t.rows)
                  ∙ (λ i. reference am (one i) (states (sym same i)) k)
              | inr n ↦
                  (λ i. if n i then reference am d (states id) k else rows_at c.entity_id k t.rows)
                  ∙ elim h [ inl right ↦ right | inr y ↦ absurd (ground (arith, y, n)) ]
            ]
      ]

  -- what is left of a range behind one unit
  abbrev left_of : Dirty → List Dirty
  left_of d =
      let from = max d.from_ts (d.to_ts - day) in
      if leb from d.from_ts then [] else record d { to_ts = from } ∷ []

  pub range_unit-IsSettled :
      (now : ℕ) (d : Dirty) (t : Tables A) (c : Configured) (k : ℕ)
      → range_to (newest_end t.dirty) t.dirty ≡ some d
      → find_entity c.entity_id t.entities ≡ some c
      → ((id : String) → AreInOrder (states id))
      → k < now / minute
      → IsSettled c k t
      → IsSettled c k (range_unit am states now d t)
  range_unit-IsSettled now d t c k newest found order lt h =
      let from = max d.from_ts (d.to_ts - day) in
      let right =
        refresh-IsRight t.entities now d.entity_id from d.to_ts t (range_unit am states now d t) c k
          found order refl in
      elim h [
        | inl y ↦ inl (right (inl y))
        | inr y ↦
            elim (replaced_dirty c.entity_id k (newest_end t.dirty) (left_of d) t.dirty d newest
              y) [
                | inl on ↦ elim (Bool-cases (leb (from / minute) k)) [
                  | inl z ↦ inl (right (inr (ground (arith, on, z, lt))))
                  | inr n ↦
                      let more : leb from d.from_ts ≡ false = ground (arith, on, n) in
                      let on_left : is_dirty c.entity_id k (left_of d) ≡ true =
                        (λ i.
                          is_dirty c.entity_id k
                            (if more i then [] else record d { to_ts = from } ∷ []))
                        ∙ ground (arith, on, n) in
                      inr (
                        put_dirty c.entity_id k (newest_end t.dirty) (left_of d) t.dirty d newest
                          on_left)
                ]
                | inr still ↦ inr still
              ]
      ]

  pub tail_of-IsSettled :
      (lookback end now : ℕ) (id : String) (e : Configured) (t : Tables A) (c : Configured) (k : ℕ)
      → find_entity c.entity_id t.entities ≡ some c
      → ((id : String) → AreInOrder (states id))
      → end ≤ now
      → IsSettled c k t
        ⊎ (str_eq c.entity_id id
            && leb ((frontier_or end e.filled_until - lookback) / minute) k
            && ltb k (end / minute))
          ≡ true
      → IsSettled c k (tail_of am states lookback end now id e t)
  tail_of-IsSettled lookback end now id e t c k found order le h =
      let from = frontier_or end e.filled_until - lookback in
      let behind = ltb from (end - day) in
      let queued : List Dirty = record { entity_id = id; from_ts = from; to_ts = end - day } ∷ [] in
      let start = if behind then end - day else from in
      let right =
        refresh-IsRight t.entities now id start end t (tail_of am states lookback end now id e t) c
          k found order refl in
      elim h [
        | inl (inl y) ↦ inl (right (inl y))
        | inl (inr y) ↦ inr (dirty_more c.entity_id k behind t.dirty queued y)
        | inr on ↦ elim (Bool-cases behind) [
          | inl b ↦ elim (Bool-cases (ltb k ((end - day) / minute))) [
            | inl z ↦
                let this : is_dirty c.entity_id k queued ≡ true = ground (arith, on, z) in
                inr (dirty_new c.entity_id k behind t.dirty queued b this)
            | inr m ↦ inl (right (inr (ground (arith, on, b, m, le))))
          ]
          | inr n ↦ inl (right (inr (ground (arith, on, n, le))))
        ]
      ]
