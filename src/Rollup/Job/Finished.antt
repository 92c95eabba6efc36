-- ===== src/Rollup/Job/Finished.antt =====
-- What holds of the rollup when a run of its job is over.
use text.Mathlib.Text.{◌==◌ as str_eq}
use ha_timescaledb_recorder.Prelude.{
  ℕ, zero, suc, ◌+◌, ◌-◌, ◌*◌, ◌/◌, ◌≤◌, ◌<◌, ◌≡◌, refl, sym, ap, ◌∙◌, subst, List, [], ◌∷◌, true,
  false, ◌||◌, arith, Option, none, some, String, ltb, leb, max, any, if◌then◌else◌, Bool-cases,
  inl, inr, Option-cases, length,
}
use ha_timescaledb_recorder.Rollup.{minute, Amount, Reading, Configured, find_entity}
use ha_timescaledb_recorder.Rollup.Readings.{AreInOrder}
use ha_timescaledb_recorder.Rollup.Rows.{text-≡, text_refl}
use ha_timescaledb_recorder.Rollup.Job.{
  Dirty, Tables, day, days, all_days, newest_end, range_to, frontier_or, tails, range_unit,
  work_ranges, ids_of, states_minute_job,
}
use ha_timescaledb_recorder.Rollup.Job.Ranges.{
  is_dirty, range_to-newest_end, all_days-replace_range,
}
use ha_timescaledb_recorder.Rollup.Job.Settled.{IsRight, IsSettled, range_unit-IsSettled}
use ha_timescaledb_recorder.Rollup.Job.Runs.{
  Holds, tails_ready, IsSettled-with_frontier, with_frontier-IsSettled,
}

module _ {A : Type 0} (am : Amount A) (states : String → List (Reading A)) where
  -- a unit takes at least a day off the ranges
  all_days-range_unit :
      (now : ℕ) (d : Dirty) (t : Tables A)
      → range_to (newest_end t.dirty) t.dirty ≡ some d
      → all_days (range_unit am states now d t).dirty < all_days t.dirty
  all_days-range_unit now d t newest =
      let from = max d.from_ts (d.to_ts - day) in
      all_days-replace_range (newest_end t.dirty)
        (if leb from d.from_ts then [] else record d { to_ts = from } ∷ []) t.dirty d newest
        (elim (Bool-cases (leb from d.from_ts)) [
          | inl y ↦
              subst (λ b. all_days (if b then [] else record d { to_ts = from } ∷ []) < days d)
                (sym y) (omega arith)
          | inr n ↦
              subst (λ b. all_days (if b then [] else record d { to_ts = from } ∷ []) < days d)
                (sym n) (ground (arith, n))
        ])

  module _ (budget started : ℕ) (clock ended : ℕ → ℕ) where
    work_none :
        (fuel n : ℕ) (t : Tables A)
        → range_to (newest_end t.dirty) t.dirty ≡ none
        → work_ranges am states budget started clock ended fuel n t ≡ t
    unfolding work_ranges
    work_none zero n t missing = refl
    work_none (suc fuel) n t missing = λ i. elim (missing i) [
      | none ↦ t
      | some d ↦
          let worked = range_unit am states (clock n) d t in
          if ltb budget (ended n - started)
          then worked
          else work_ranges am states budget started clock ended fuel (suc n) worked
    ]

    work_some :
        (fuel n : ℕ) (t : Tables A) (d : Dirty)
        → range_to (newest_end t.dirty) t.dirty ≡ some d
        → work_ranges am states budget started clock ended (suc fuel) n t ≡ (
            if ltb budget (ended n - started)
            then range_unit am states (clock n) d t
            else work_ranges am states budget started clock ended fuel
                (suc n)
                (range_unit am states (clock n) d t))
    unfolding work_ranges
    work_some fuel n t d newest = λ i. elim (newest i) [
      | none ↦ t
      | some d ↦
          let worked = range_unit am states (clock n) d t in
          if ltb budget (ended n - started)
          then worked
          else work_ranges am states budget started clock ended fuel (suc n) worked
    ]

    no_days :
        (t : Tables A) (d : Dirty)
        → range_to (newest_end t.dirty) t.dirty ≡ some d
        → all_days t.dirty ≤ 0
        → ⊥
    no_days t d newest le = let less = all_days-range_unit 0 d t newest in omega (arith, less, le)

    -- Where a run is given as many units as there are days, and one for each range, in the ranges, more
    -- units make no difference: the loop of the job ends.
    pub work_ranges-all_days :
        (fuel more n : ℕ) (t : Tables A)
        → all_days t.dirty ≤ fuel
        → work_ranges am states budget started clock ended (fuel + more) n t
          ≡ work_ranges am states budget started clock ended fuel n t
    work_ranges-all_days zero more n t enough =
        elim (Option-cases (range_to (newest_end t.dirty) t.dirty)) [
          | inl missing ↦ work_none (0 + more) n t missing ∙ sym (work_none 0 n t missing)
          | inr (d, newest) ↦ absurd (no_days t d newest enough)
        ]
    work_ranges-all_days (suc fuel) more n t enough =
        elim (Option-cases (range_to (newest_end t.dirty) t.dirty)) [
          | inl missing ↦
              work_none (suc fuel + more) n t missing ∙ sym (work_none (suc fuel) n t missing)
          | inr (d, newest) ↦
              let less = all_days-range_unit (clock n) d t newest in
              let worked = range_unit am states (clock n) d t in
              let longer : suc fuel + more ≡ suc (fuel + more) = omega arith in
              ap (λ m. work_ranges am states budget started clock ended m n t) longer
              ∙ work_some (fuel + more) n t d newest
              ∙ ap (λ r. if ltb budget (ended n - started) then worked else r)
                  (work_ranges-all_days fuel more (suc n) worked (omega (arith, less, enough)))
              ∙ sym (work_some fuel n t d newest)
        ]

    work_ranges_empty :
        (fuel n : ℕ) (t : Tables A)
        → all_days t.dirty ≤ fuel
        → ((n : ℕ) → ended n - started ≤ budget)
        → (work_ranges am states budget started clock ended fuel n t).dirty ≡ []
    work_ranges_empty zero n t enough quick =
        elim (Option-cases (range_to (newest_end t.dirty) t.dirty)) [
          | inl missing ↦
              ap (λ u. u.dirty) (work_none 0 n t missing) ∙ range_to-newest_end t.dirty missing
          | inr (d, newest) ↦ absurd (no_days t d newest enough)
        ]
    work_ranges_empty (suc fuel) n t enough quick =
        elim (Option-cases (range_to (newest_end t.dirty) t.dirty)) [
          | inl missing ↦
              ap (λ u. u.dirty) (work_none (suc fuel) n t missing)
              ∙ range_to-newest_end t.dirty missing
          | inr (d, newest) ↦
              let less = all_days-range_unit (clock n) d t newest in
              let worked = range_unit am states (clock n) d t in
              let rest = work_ranges am states budget started clock ended fuel (suc n) worked in
              let in_time : ltb budget (ended n - started) ≡ false = ground (arith, quick n) in
              ap (λ u. u.dirty)
                (work_some fuel n t d newest ∙ (λ i. if in_time i then worked else rest))
              ∙ work_ranges_empty fuel (suc n) worked (omega (arith, less, enough)) quick
        ]

    module _ (order : (id : String) → AreInOrder (states id)) (c : Configured) where
      unit-Holds :
          (now k : ℕ) (f : Option ℕ) (d : Dirty) (t : Tables A)
          → range_to (newest_end t.dirty) t.dirty ≡ some d
          → k ≤ now / minute
          → Holds am states order c k f t
          → Holds am states order c k f (range_unit am states now d t)
      unit-Holds now k f d t newest le (found, h) = (
        found,
        λ j lt. IsSettled-with_frontier am states order c f j (range_unit am states now d t) (
            range_unit-IsSettled am states now d t (record c { filled_until = f }) j newest found
              order (omega (arith, lt, le))
              (with_frontier-IsSettled am states order c f j t (h j lt))),
      )

      work_ranges-Holds :
          (fuel n k : ℕ) (f : Option ℕ) (t : Tables A)
          → ((m : ℕ) → k ≤ clock m / minute)
          → Holds am states order c k f t
          → Holds am states order c k f (work_ranges am states budget started clock ended fuel n t)
      unfolding work_ranges
      work_ranges-Holds zero n k f t late h = h
      work_ranges-Holds (suc fuel) n k f t late h =
          elim (Option-cases (range_to (newest_end t.dirty) t.dirty)) [
            | inl missing ↦
                subst (Holds am states order c k f) (sym (work_none (suc fuel) n t missing)) h
            | inr (d, newest) ↦
                let worked = range_unit am states (clock n) d t in
                let rest = work_ranges am states budget started clock ended fuel (suc n) worked in
                let now = unit-Holds (clock n) k f d t newest (late n) h in
                subst (Holds am states order c k f) (sym (work_some fuel n t d newest))
                  (elim (Bool-cases (ltb budget (ended n - started))) [
                    | inl y ↦
                        subst (λ b. Holds am states order c k f (if b then worked else rest))
                          (sym y) now
                    | inr m ↦
                        subst (λ b. Holds am states order c k f (if b then worked else rest))
                          (sym m) (work_ranges-Holds fuel (suc n) k f worked late now)
                  ])
          ]

among_ids :
    (id : String) (cs : List Configured) (c : Configured)
    → find_entity id cs ≡ some c
    → any (λ x. str_eq id x) (ids_of cs) ≡ true
among_ids id [] c h = absurd (ground (arith, h))
among_ids id (d ∷ cs) c h = elim (Bool-cases (str_eq d.entity_id id)) [
  | inl y ↦
      let same = subst (λ x. str_eq id x ≡ true) (sym (text-≡ d.entity_id id y)) (text_refl id) in
      λ i. same i || any (λ x. str_eq id x) (ids_of cs)
  | inr n ↦
      let ih = among_ids id cs c ((λ i. if sym n i then some d else find_entity id cs) ∙ h) in
      ground (arith, ih)
]

module _ {A : Type 0} (am : Amount A) (states : String → List (Reading A)) where
  job-Holds :
      (lookback budget started now : ℕ) (clock ended : ℕ → ℕ)
      (order : (id : String) → AreInOrder (states id)) (t : Tables A) (c : Configured)
      → find_entity c.entity_id t.entities ≡ some c
      → ((n : ℕ) → now ≤ clock n)
      → ((j : ℕ)
          → j < (frontier_or (now / minute * minute) c.filled_until - lookback) / minute
          → IsSettled am states c j t)
      → Holds am states order c
          (now / minute)
          (some (now / minute * minute))
          (states_minute_job am states lookback budget started now clock ended t)
  unfolding states_minute_job
  job-Holds lookback budget started now clock ended order t c found late h =
      let end = now / minute * minute in
      let tailed = tails am states lookback end clock 0 (ids_of t.entities) t in
      let whole : end / minute ≡ now / minute = omega arith in
      let tail_holds =
        tails_ready am states order c lookback end clock (λ n. omega (arith, late n)) 0
          (ids_of t.entities) c.filled_until t (among_ids c.entity_id t.entities c found)
          (found, h) in
      work_ranges-Holds am states budget started clock ended order c (all_days tailed.dirty)
        (length (ids_of t.entities)) (now / minute) (some end) tailed (λ m. omega (arith, late m))
        (subst (λ k. Holds am states order c k (some end) tailed) whole tail_holds)

  -- A run of the job, its clock not going back: where up to the lookback before the frontier of an entity,
  -- or before the current minute if it has none, each minute has the row that all readings make, or a dirty
  -- range covers it, then afterwards the frontier is the current minute, and each minute before it has that
  -- row, or a dirty range covers it. That is so whatever of its budget the run has spent.
  pub states_minute_job-IsSettled :
      (lookback budget started now : ℕ) (clock ended : ℕ → ℕ) (t : Tables A) (c : Configured)
      (k : ℕ)
      → ((id : String) → AreInOrder (states id))
      → find_entity c.entity_id t.entities ≡ some c
      → ((n : ℕ) → now ≤ clock n)
      → ((j : ℕ)
          → j < (frontier_or (now / minute * minute) c.filled_until - lookback) / minute
          → IsSettled am states c j t)
      → k < now / minute
      → (find_entity c.entity_id
            (states_minute_job am states lookback budget started now clock ended t).entities
          ≡ some (record c { filled_until = some (now / minute * minute) }))
        × IsSettled am states c k
            (states_minute_job am states lookback budget started now clock ended t)
  states_minute_job-IsSettled lookback budget started now clock ended t c k order found late h lt =
      let (known, settled) =
        job-Holds lookback budget started now clock ended order t c found late h in
      (known, settled k lt)

  -- Where the run is never over its budget, no dirty range is left, and each minute before the current one
  -- has the row that all readings make.
  pub states_minute_job-IsRight :
      (lookback budget started now : ℕ) (clock ended : ℕ → ℕ) (t : Tables A) (c : Configured)
      (k : ℕ)
      → ((id : String) → AreInOrder (states id))
      → find_entity c.entity_id t.entities ≡ some c
      → ((n : ℕ) → now ≤ clock n)
      → ((n : ℕ) → ended n - started ≤ budget)
      → ((j : ℕ)
          → j < (frontier_or (now / minute * minute) c.filled_until - lookback) / minute
          → IsSettled am states c j t)
      → k < now / minute
      → ((states_minute_job am states lookback budget started now clock ended t).dirty ≡ [])
        × IsRight am states c k
            (states_minute_job am states lookback budget started now clock ended t)
  unfolding states_minute_job
  states_minute_job-IsRight lookback budget started now clock ended t c k order found late quick h
        lt =
      let tailed = tails am states lookback (now / minute * minute) clock 0 (ids_of t.entities) t in
      let empty =
        work_ranges_empty am states budget started clock ended (all_days tailed.dirty)
          (length (ids_of t.entities)) tailed (omega arith) quick in
      (
        empty,
        elim ((states_minute_job-IsSettled lookback budget started now clock ended t c k order found
            late h lt).1) [
              | inl right ↦ right
              | inr dirty ↦
                  let nothing = sym dirty ∙ ap (is_dirty c.entity_id k) empty in
                  absurd (ground (arith, nothing))
            ],
      )
