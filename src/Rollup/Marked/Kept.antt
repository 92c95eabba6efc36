-- ===== src/Rollup/Marked/Kept.antt =====
-- What mark_rollup_dirty of custom_components/timescaledb_recorder/backfill_gaps.py keeps up.
use mathlib.Core.Option.{some-injective}
use text.Mathlib.Text.{◌==◌ as str_eq}
use ha_timescaledb_recorder.Prelude.{
  ℕ, ◌+◌, ◌*◌, ◌/◌, ◌≤◌, ◌<◌, ◌≡◌, sym, ap, ◌∙◌, subst, List, [], ◌∷◌, true, ◌||◌, arith, Option,
  none, some, String, any-append, ltb, if◌then◌else◌, Bool-cases, inl, inr, ◌⊎◌,
}
use ha_timescaledb_recorder.Rollup.{minute, Amount, Reading, Configured, longest_hold, find_entity}
use ha_timescaledb_recorder.Rollup.Readings.{AreInOrder}
use ha_timescaledb_recorder.Rollup.Rows.{text-≡, text_refl}
use ha_timescaledb_recorder.Rollup.Refreshed.{counting, reference}
use ha_timescaledb_recorder.Rollup.Job.{Dirty, Tables}
use ha_timescaledb_recorder.Rollup.Job.Ranges.{covers, is_dirty}
use ha_timescaledb_recorder.Rollup.Job.Settled.{IsSettled}
use ha_timescaledb_recorder.Rollup.Marked.{mark_end, marks, mark_rollup_dirty}
use ha_timescaledb_recorder.Rollup.Marked.Outside.{outside, held_minute-outside}

marks-is_dirty :
    (now from : ℕ) (to : Option ℕ) (x : String) (cs : List Configured) (c : Configured) (f k : ℕ)
    → find_entity x cs ≡ some c
    → c.filled_until ≡ some f
    → from < f
    → from / minute ≤ k
    → k < mark_end now to c / minute
    → is_dirty x k (marks now from to cs) ≡ true
unfolding marks
marks-is_dirty now from to x [] c f k found filled early le lt = absurd (ground (arith, found))
marks-is_dirty now from to x (d ∷ cs) c f k found filled early le lt =
    let rest = marks now from to cs in
    elim (Bool-cases (str_eq d.entity_id x)) [
      | inl y ↦
          let same =
            some-injective d c ((λ i. if sym y i then some d else find_entity x cs) ∙ found) in
          let filled_d = ap (λ e. e.filled_until) same ∙ filled in
          let one : Dirty = record {
            entity_id = d.entity_id;
            from_ts = from;
            to_ts = mark_end now to d;
          } in
          let behind : ltb from f ≡ true = ground (arith, early) in
          let own = subst (λ s. str_eq x s ≡ true) (sym (text-≡ d.entity_id x y)) (text_refl x) in
          let end = ap (mark_end now to) same in
          let inside : covers x k one ≡ true = ground (arith, own, end, le, lt) in
          (λ i.
            is_dirty x k (elim (filled_d i) [
              | none ↦ rest
              | some f ↦ if ltb from f then one ∷ rest else rest
            ]))
          ∙ (λ i. is_dirty x k (if behind i then one ∷ rest else rest))
          ∙ (λ i. inside i || is_dirty x k rest)
      | inr n ↦ more_marks now from to x k d rest (
          marks-is_dirty now from to x cs c f k
            ((λ i. if sym n i then some d else find_entity x cs) ∙ found) filled early le lt)
    ]
  where
    more_marks :
        (now from : ℕ) (to : Option ℕ) (x : String) (k : ℕ) (d : Configured) (rest : List Dirty)
        → is_dirty x k rest ≡ true
        → is_dirty x k (elim d.filled_until [
          | none ↦ rest
          | some f ↦
              if ltb from f
              then record { entity_id = d.entity_id; from_ts = from; to_ts = mark_end now to d }
                ∷ rest
              else rest
        ])
          ≡ true
    more_marks now from to x k d rest h = with_filled d.filled_until
      where
        with_filled :
            (o : Option ℕ)
            → is_dirty x k (elim o [
              | none ↦ rest
              | some f ↦
                  if ltb from f
                  then record { entity_id = d.entity_id; from_ts = from; to_ts = mark_end now to d }
                    ∷ rest
                  else rest
            ])
              ≡ true
        with_filled none = h
        with_filled (some f) = elim (Bool-cases (ltb from f)) [
          | inl y ↦ ground (arith, y, h)
          | inr n ↦ ground (arith, n, h)
        ]

-- The range marked reaches the minute, or the hold is over at its start.
abbrev pub IsReached : Option ℕ → ℕ → Configured → ℕ → Type 0
IsReached none hi c k = Unit
IsReached (some to) hi c k =
    (to ≡ hi) × (k < (hi + longest_hold c) / minute ⊎ hi + longest_hold c ≤ k * minute)

module _ {A : Type 0} (am : Amount A) where
  reference-outside :
      (c : Configured) (k lo hi : ℕ) (rs ss : List (Reading A))
      → AreInOrder rs
      → AreInOrder ss
      → outside lo hi rs ≡ outside lo hi ss
      → k < lo / minute ⊎ hi + longest_hold c ≤ k * minute
      → reference am c rs k ≡ reference am c ss k
  unfolding reference
  reference-outside c k lo hi rs ss h g e away =
      let covered = held_minute-outside am counting (λ v. 1) c k lo hi rs ss h g e away in
      let integrals = held_minute-outside am am (λ v. v) c k lo hi rs ss h g e away in
      λ i.
        if ltb 0 (covered i)
        then record {
          entity_id = c.entity_id;
          minute_of = k;
          integral = integrals i;
          covered = covered i;
        }
          ∷ []
        else []

  -- Rows written between two times behind the frontier, and the marks made for them, keep it that each
  -- minute before the frontier has the row that all readings make, or is covered by a dirty range. With no
  -- end given that is so for each minute. With an end given it is so for each but the minute in which the
  -- longest hold of the last row ends, if the hold ends inside it.
  pub mark_rollup_dirty-IsSettled :
      (before after : String → List (Reading A)) (now lo hi : ℕ) (to : Option ℕ) (t : Tables A)
      (c : Configured) (f k : ℕ)
      → ((id : String) → AreInOrder (before id))
      → ((id : String) → AreInOrder (after id))
      → ((id : String) → outside lo hi (before id) ≡ outside lo hi (after id))
      → find_entity c.entity_id t.entities ≡ some c
      → c.filled_until ≡ some f
      → f ≤ now
      → k < f / minute
      → IsReached to hi c k
      → IsSettled am before c k t
      → IsSettled am after c k (mark_rollup_dirty now (some lo) to t)
  unfolding mark_rollup_dirty
  mark_rollup_dirty-IsSettled before after now lo hi to t c f k order order_after same found filled
        le lt reached h =
      let id = c.entity_id in
      let both = any-append (covers id k) t.dirty (marks now lo to t.entities) in
      elim h [
        | inl right ↦
            let still = λ (away : k < lo / minute ⊎ hi + longest_hold c ≤ k * minute).
              right
              ∙ reference-outside c k lo hi (before id) (after id) (order id) (order_after id)
                  (same id) away in
            elim (Bool-cases (ltb k (lo / minute))) [
              | inl y ↦ inl (still (inl (ground (arith, y))))
              | inr n ↦ elim (reaches_or_over now hi to c f k le lt reached) [
                | inl inside ↦
                    let new =
                      marks-is_dirty now lo to id t.entities c f k found filled
                        (ground (arith, n, lt)) (ground (arith, n)) inside in
                    inr (ground (arith, both, new))
                | inr over ↦ inl (still (inr over))
              ]
            ]
        | inr dirty ↦ inr (ground (arith, both, dirty))
      ]
    where
      reaches_or_over :
          (now hi : ℕ) (to : Option ℕ) (c : Configured) (f k : ℕ)
          → f ≤ now
          → k < f / minute
          → IsReached to hi c k
          → (k < mark_end now to c / minute) ⊎ hi + longest_hold c ≤ k * minute
      reaches_or_over now hi none c f k le lt h = inl (omega (arith, le, lt))
      reaches_or_over now hi (some to) c f k le lt (e, inl near) =
          inl (ground (arith, le, lt, e, near))
      reaches_or_over now hi (some to) c f k le lt (e, inr over) = inr over
