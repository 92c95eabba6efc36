-- ===== src/Rollup/Readings.antt =====
-- Which reading holds at a tick, and the segments that the refresh makes of the readings.
use ha_timescaledb_recorder.Prelude.{
  ℕ, ◌+◌, ◌≤◌, ◌<◌, ◌≡◌, refl, sym, ap, ◌∙◌, List, [], ◌∷◌, true, Option, none, some, arith, ltb,
  leb, min, map, All, if◌then◌else◌, Bool-cases, inl, inr,
}
use ha_timescaledb_recorder.Rollup.{Amount, Reading, Configured, Segment, hold_of, segments}
use ha_timescaledb_recorder.Rollup.Sums.{at_tick, segments_at}

module _ {A : Type 0} where
  -- each reading is later than the one before it: the fingerprint of a state is unique
  abbrev pub AreInOrder : List (Reading A) → Type 0
  AreInOrder [] = Unit
  AreInOrder (r ∷ rs) = All (λ s. r.last_updated < s.last_updated) rs × AreInOrder rs

  abbrev pub or_first : ℕ → Reading A → Option (Reading A) → Option (Reading A)
  or_first t r none = if leb r.last_updated t then some r else none
  or_first t r (some s) = some s

  -- the last reading at a tick or before it
  abbrev pub latest : ℕ → List (Reading A) → Option (Reading A)
  latest t [] = none
  latest t (r ∷ rs) = or_first t r (latest t rs)

  latest_early :
      (t : ℕ) (r : Reading A) (rs : List (Reading A))
      → AreInOrder (r ∷ rs)
      → t < r.last_updated
      → latest t (r ∷ rs) ≡ none
  latest_early t r [] h lt = ground (arith, lt)
  latest_early t r (s ∷ rs) ((b, later), h) lt =
      rw (latest_early t s rs h (omega (arith, b, lt))) (ground (arith, lt))

  pub latest_later :
      (t : ℕ) (r s : Reading A) (rs : List (Reading A))
      → leb s.last_updated t ≡ true
      → latest t (r ∷ s ∷ rs) ≡ latest t (s ∷ rs)
  latest_later t r s rs y = ground (arith, y)

module _ {A B : Type 0} (am : Amount A) (sums : Amount B) (weight : A → B) where
  abbrev pub weigh : Segment A → Segment B
  weigh seg = record { t0 = seg.t0; t1 = seg.t1; value = weight seg.value }

  abbrev pub kept : Configured → ℕ → Reading A → B
  kept c t r =
      if ltb t (r.last_updated + hold_of am c r.value) then weight r.value else sums.none_of

  -- The amount at a tick: that of the latest reading, until its hold is over.
  abbrev pub held : Configured → ℕ → Option (Reading A) → B
  held c t none = sums.none_of
  held c t (some r) = kept c t r

  none_plus : (x : B) → sums.plus sums.none_of x ≡ x
  none_plus x = sums.plus_comm sums.none_of x ∙ sums.plus-none_of x

  early_tick : (t0 t1 t : ℕ) (v : B) → t < t0 → at_tick sums t0 t1 v t ≡ sums.none_of
  early_tick t0 t1 t v lt = ground (arith, lt)

  late_tick : (t0 t1 t : ℕ) (v : B) → t1 ≤ t → at_tick sums t0 t1 v t ≡ sums.none_of
  late_tick t0 t1 t v le = ground (arith, le)

  -- a segment at a tick that is before the next reading and the end
  tick_inside :
      (c : Configured) (next to t : ℕ) (r : Reading A)
      → r.last_updated ≤ t
      → t < next
      → t < to
      → at_tick sums r.last_updated
          (min (min next (r.last_updated + hold_of am c r.value)) to)
          (weight r.value)
          t
        ≡ kept c t r
  tick_inside c next to t r le before lt = ground (arith, le, before, lt)

  segments_early :
      (c : Configured) (to t : ℕ) (r : Reading A) (rs : List (Reading A))
      → AreInOrder (r ∷ rs)
      → t < r.last_updated
      → segments_at sums (map weigh (segments am c to (r ∷ rs))) t ≡ sums.none_of
  unfolding segments_at
  segments_early c to t r [] h lt =
      ap (λ x. sums.plus x sums.none_of)
        (early_tick r.last_updated (min (min to (r.last_updated + hold_of am c r.value)) to) t
          (weight r.value) lt)
      ∙ sums.plus-none_of sums.none_of
  segments_early c to t r (s ∷ rs) ((b, later), h) lt =
      let end = min (min s.last_updated (r.last_updated + hold_of am c r.value)) to in
      (λ i.
        sums.plus (early_tick r.last_updated end t (weight r.value) lt i)
          (segments_early c to t s rs h (omega (arith, b, lt)) i))
      ∙ sums.plus-none_of sums.none_of

  -- the first of two readings at a tick before the second
  first_held :
      (c : Configured) (next to t : ℕ) (r : Reading A) (o : Option (Reading A))
      → o ≡ none
      → t < next
      → t < to
      → sums.plus
          (at_tick sums r.last_updated
            (min (min next (r.last_updated + hold_of am c r.value)) to)
            (weight r.value)
            t)
          sums.none_of
        ≡ held c t (or_first t r o)
  first_held c next to t r o e before lt =
      let end = min (min next (r.last_updated + hold_of am c r.value)) to in
      let one = sums.plus-none_of (at_tick sums r.last_updated end (weight r.value) t) in
      elim (Bool-cases (leb r.last_updated t)) [
        | inl y ↦
            let this = ap (or_first t r) e ∙ ap (λ b. if b then some r else none) y in
            one ∙ tick_inside c next to t r (ground (arith, y)) before lt ∙ sym (ap (held c t) this)
        | inr n ↦
            let this = ap (or_first t r) e ∙ ap (λ b. if b then some r else none) n in
            one
            ∙ early_tick r.last_updated end t (weight r.value) (ground (arith, n))
            ∙ sym (ap (held c t) this)
      ]

  pub segments_at-held :
      (c : Configured) (to t : ℕ) (rs : List (Reading A))
      → AreInOrder rs
      → t < to
      → segments_at sums (map weigh (segments am c to rs)) t ≡ held c t (latest t rs)
  unfolding segments_at
  segments_at-held c to t [] h lt = refl
  segments_at-held c to t (r ∷ []) h lt = first_held c to to t r none refl lt lt
  segments_at-held c to t (r ∷ s ∷ rs) (b, h) lt = elim (Bool-cases (leb s.last_updated t)) [
    | inl y ↦
        let end = min (min s.last_updated (r.last_updated + hold_of am c r.value)) to in
        (λ i.
          sums.plus (late_tick r.last_updated end t (weight r.value) (ground (arith, y)) i)
            (segments_at-held c to t (s ∷ rs) h lt i))
        ∙ none_plus (held c t (latest t (s ∷ rs)))
        ∙ ap (held c t) (sym (latest_later t r s rs y))
    | inr n ↦
        ap
          (sums.plus (
            at_tick sums r.last_updated
              (min (min s.last_updated (r.last_updated + hold_of am c r.value)) to) (weight r.value)
              t))
          (segments_early c to t s rs h (ground (arith, n)))
        ∙ first_held c s.last_updated to t r (latest t (s ∷ rs))
            (latest_early t s rs h (ground (arith, n))) (ground (arith, n)) lt
  ]
