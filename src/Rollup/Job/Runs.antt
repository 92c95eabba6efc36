-- ===== src/Rollup/Job/Runs.antt =====
-- Whole runs of the job of the rollup.
use mathlib.Core.Option.{some-injective}
use text.Mathlib.Text.{◌==◌ as str_eq}
use ha_timescaledb_recorder.Prelude.{
  ℕ, suc, ◌-◌, ◌/◌, ◌≤◌, ◌<◌, ◌≡◌, sym, ap, ◌∙◌, subst, List, [], ◌∷◌, true, false, ◌&&◌, arith,
  Option, none, some, String, ltb, leb, any, if◌then◌else◌, Bool-cases, inl, inr, ◌⊎◌, Option-cases,
}
use ha_timescaledb_recorder.Rollup.{minute, Amount, Reading, Configured, find_entity}
use ha_timescaledb_recorder.Rollup.Readings.{AreInOrder}
use ha_timescaledb_recorder.Rollup.Rows.{text-≡, text_refl}
use ha_timescaledb_recorder.Rollup.Refreshed.{reference-filled}
use ha_timescaledb_recorder.Rollup.Job.{
  Tables, fill_until, frontier_or, tail_of, tail_entity, tails,
}
use ha_timescaledb_recorder.Rollup.Job.Settled.{IsSettled, tail_of-IsSettled}

abbrev filled : String → ℕ → Configured → Configured
filled id end c = if str_eq c.entity_id id then record c { filled_until = some end } else c

filled_id : (id : String) (end : ℕ) (c : Configured) → (filled id end c).entity_id ≡ c.entity_id
filled_id id end c = elim (Bool-cases (str_eq c.entity_id id)) [
  | inl y ↦ λ i. (if y i then record c { filled_until = some end } else c).entity_id
  | inr n ↦ λ i. (if n i then record c { filled_until = some end } else c).entity_id
]

find_entity-fill_until :
    (x id : String) (end : ℕ) (cs : List Configured) (c : Configured)
    → find_entity x cs ≡ some c
    → find_entity x (fill_until id end cs) ≡ some (filled id end c)
find_entity-fill_until x id end [] c h = ground (arith, h)
find_entity-fill_until x id end (d ∷ cs) c h = elim (Bool-cases (str_eq d.entity_id x)) [
  | inl y ↦
      let same = some-injective d c ((λ i. if sym y i then some d else find_entity x cs) ∙ h) in
      (λ i.
        if str_eq (filled_id id end d i) x
        then some (filled id end d)
        else find_entity x (fill_until id end cs))
      ∙ (λ i. if y i then some (filled id end d) else find_entity x (fill_until id end cs))
      ∙ ap (λ e. some (filled id end e)) same
  | inr n ↦
      (λ i.
        if str_eq (filled_id id end d i) x
        then some (filled id end d)
        else find_entity x (fill_until id end cs))
      ∙ (λ i. if n i then some (filled id end d) else find_entity x (fill_until id end cs))
      ∙ find_entity-fill_until x id end cs c
          ((λ i. if sym n i then some d else find_entity x cs) ∙ h)
]

module _ {A : Type 0} (am : Amount A) (states : String → List (Reading A))
    (order : (id : String) → AreInOrder (states id)) (c : Configured) where
  abbrev with_frontier : Option ℕ → Configured
  with_frontier f = record c { filled_until = f }

  pub with_frontier-IsSettled :
      (f : Option ℕ) (k : ℕ) (t : Tables A)
      → IsSettled am states c k t
      → IsSettled am states (with_frontier f) k t
  with_frontier-IsSettled f k t (inl y) =
      inl (y ∙ sym (reference-filled am c f (states c.entity_id) k))
  with_frontier-IsSettled f k t (inr y) = inr y

  pub IsSettled-with_frontier :
      (f : Option ℕ) (k : ℕ) (t : Tables A)
      → IsSettled am states (with_frontier f) k t
      → IsSettled am states c k t
  IsSettled-with_frontier f k t (inl y) = inl (y ∙ reference-filled am c f (states c.entity_id) k)
  IsSettled-with_frontier f k t (inr y) = inr y

  -- the entity has the frontier, and its first minutes are settled
  abbrev pub Holds : ℕ → Option ℕ → Tables A → Type 0
  Holds n f t =
      (find_entity c.entity_id t.entities ≡ some (with_frontier f))
      × ((k : ℕ) → k < n → IsSettled am states c k t)

  module _ (lookback end : ℕ) where
    own_minute :
        (f : Option ℕ) (t : Tables A) (k : ℕ)
        → k < end / minute
        → (k < (frontier_or end f - lookback) / minute → IsSettled am states c k t)
        → IsSettled am states (with_frontier f) k t
          ⊎ (str_eq c.entity_id c.entity_id
              && leb ((frontier_or end f - lookback) / minute) k
              && ltb k (end / minute))
            ≡ true
    own_minute f t k lt h = elim (Bool-cases (ltb k ((frontier_or end f - lookback) / minute))) [
      | inl y ↦ inl (with_frontier-IsSettled f k t (h (ground (arith, y))))
      | inr n ↦ inr (ground (arith, n, lt, text_refl c.entity_id))
    ]

    tail_entity-own :
        (now : ℕ) (f : Option ℕ) (t : Tables A)
        → end ≤ now
        → Holds ((frontier_or end f - lookback) / minute) f t
        → Holds (end / minute) (some end) (tail_entity am states lookback end now c.entity_id t)
    tail_entity-own now f t le (found, h) =
        let e = with_frontier f in
        let this : tail_entity am states lookback end now c.entity_id t
            ≡ tail_of am states lookback end now c.entity_id e t =
          λ i. elim (found i) [
            | none ↦ t
            | some x ↦ tail_of am states lookback end now c.entity_id x t
          ] in
        let renewed = find_entity-fill_until c.entity_id c.entity_id end t.entities e found ∙ (λ i.
          some (if text_refl c.entity_id i then record e { filled_until = some end } else e)) in
        subst (Holds (end / minute) (some end)) (sym this) (
          renewed,
          λ k lt. IsSettled-with_frontier f k (tail_of am states lookback end now c.entity_id e t) (
              tail_of-IsSettled am states lookback end now c.entity_id e t e k found order le
                (own_minute f t k lt (h k))),
        )

    tail_entity-other :
        (now : ℕ) (id : String) (n : ℕ) (f : Option ℕ) (t : Tables A)
        → end ≤ now
        → str_eq c.entity_id id ≡ false
        → Holds n f t
        → Holds n f (tail_entity am states lookback end now id t)
    tail_entity-other now id n f t le differ (found, h) =
        let e = with_frontier f in
        elim (Option-cases (find_entity id t.entities)) [
          | inl missing ↦
              let this : tail_entity am states lookback end now id t ≡ t = λ i. elim (missing i) [
                | none ↦ t
                | some x ↦ tail_of am states lookback end now id x t
              ] in
              subst (Holds n f) (sym this) (found, h)
          | inr (x, known) ↦
              let this : tail_entity am states lookback end now id t
                  ≡ tail_of am states lookback end now id x t =
                λ i. elim (known i) [
                  | none ↦ t
                  | some x ↦ tail_of am states lookback end now id x t
                ] in
              let kept =
                find_entity-fill_until c.entity_id id end t.entities e found
                ∙ (λ i. some (if differ i then record e { filled_until = some end } else e)) in
              subst (Holds n f) (sym this) (
                kept,
                λ k lt. IsSettled-with_frontier f k (tail_of am states lookback end now id x t) (
                    tail_of-IsSettled am states lookback end now id x t e k found order le
                      (inl (with_frontier-IsSettled f k t (h k lt)))),
              )
        ]

    module _ (clock : ℕ → ℕ) (late : (n : ℕ) → end ≤ clock n) where
      tails_done :
          (n : ℕ) (ids : List String) (t : Tables A)
          → Holds (end / minute) (some end) t
          → Holds (end / minute) (some end) (tails am states lookback end clock n ids t)
      unfolding tails
      tails_done n [] t h = h
      tails_done n (id ∷ ids) t h =
          tails_done (suc n) ids (tail_entity am states lookback end (clock n) id t)
            (elim (Bool-cases (str_eq c.entity_id id)) [
              | inl y ↦
                  subst
                    (λ x.
                      Holds (end / minute) (some end)
                        (tail_entity am states lookback end (clock n) x t))
                    (text-≡ c.entity_id id y)
                    (tail_entity-own (clock n) (some end) t (late n)
                      (h.0, λ k lt. h.1 k (omega (arith, lt))))
              | inr m ↦ tail_entity-other (clock n) id (end / minute) (some end) t (late n) m h
            ])

      pub tails_ready :
          (n : ℕ) (ids : List String) (f : Option ℕ) (t : Tables A)
          → any (λ id. str_eq c.entity_id id) ids ≡ true
          → Holds ((frontier_or end f - lookback) / minute) f t
          → Holds (end / minute) (some end) (tails am states lookback end clock n ids t)
      unfolding tails
      tails_ready n [] f t among h = absurd (ground (arith, among))
      tails_ready n (id ∷ ids) f t among h = elim (Bool-cases (str_eq c.entity_id id)) [
        | inl y ↦ tails_done (suc n) ids (tail_entity am states lookback end (clock n) id t) (
            subst
              (λ x.
                Holds (end / minute) (some end) (tail_entity am states lookback end (clock n) x t))
              (text-≡ c.entity_id id y) (tail_entity-own (clock n) f t (late n) h))
        | inr m ↦
            tails_ready (suc n) ids f (tail_entity am states lookback end (clock n) id t)
              (ground (arith, among, m))
              (tail_entity-other (clock n) id ((frontier_or end f - lookback) / minute) f t (late n)
                m h)
      ]
