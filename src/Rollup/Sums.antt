-- ===== src/Rollup/Sums.antt =====
-- The sums of STATES_MINUTE_REFRESH_FN_SQL of custom_components/timescaledb_recorder/const.py, by slices
-- and by ticks.
use ha_timescaledb_recorder.Prelude.{
  ℕ, zero, suc, ◌+◌, ◌-◌, ◌*◌, ◌≤◌, ◌<◌, ◌≡◌, refl, sym, ap, ◌∙◌, List, [], ◌∷◌, ◌&&◌, arith, ltb,
  leb, min, max, if◌then◌else◌, Bool-cases, inl, inr,
}
use ha_timescaledb_recorder.Rollup.{minute, Amount, Segment, slice, times, integral_of}

module _ {A : Type 0} (am : Amount A) where
  -- the sum over the first `n` ticks
  unfoldable pub sum_over : ℕ → (ℕ → A) → A
  sum_over zero f = am.none_of
  sum_over (suc n) f = am.plus (sum_over n f) (f n)

  plus-swap :
      (a b c d : A) → am.plus (am.plus a b) (am.plus c d) ≡ am.plus (am.plus a c) (am.plus b d)
  plus-swap a b c d =
      am.plus_assoc a b (am.plus c d)
      ∙ ap (am.plus a) (
          sym (am.plus_assoc b c d)
          ∙ ap (λ x. am.plus x d) (am.plus_comm b c)
          ∙ am.plus_assoc c b d)
      ∙ sym (am.plus_assoc a c (am.plus b d))

  sum_over-plus :
      (n : ℕ) (f g : ℕ → A)
      → sum_over n (λ i. am.plus (f i) (g i)) ≡ am.plus (sum_over n f) (sum_over n g)
  unfolding sum_over
  sum_over-plus zero f g = sym (am.plus-none_of am.none_of)
  sum_over-plus (suc n) f g =
      ap (λ x. am.plus x (am.plus (f n) (g n))) (sum_over-plus n f g)
      ∙ plus-swap (sum_over n f) (sum_over n g) (f n) (g n)

  pub sum_over-cong :
      (n : ℕ) (f g : ℕ → A) → ((i : ℕ) → i < n → f i ≡ g i) → sum_over n f ≡ sum_over n g
  unfolding sum_over
  sum_over-cong zero f g h = refl
  sum_over-cong (suc n) f g h =
      λ j. am.plus (sum_over-cong n f g (λ i b. h i (omega arith)) j) (h n (omega arith) j)

  pub sum_over-none : (n : ℕ) → sum_over n (λ i. am.none_of) ≡ am.none_of
  unfolding sum_over
  sum_over-none zero = refl
  sum_over-none (suc n) =
      ap (λ x. am.plus x am.none_of) (sum_over-none n) ∙ am.plus-none_of am.none_of

  -- `v` at a tick of the segment, and nothing at another
  abbrev pub at_tick : ℕ → ℕ → A → ℕ → A
  at_tick t0 t1 v t = if leb t0 t && ltb t t1 then v else am.none_of

  abbrev overlap : ℕ → ℕ → ℕ → ℕ → ℕ
  overlap t0 t1 from n = min t1 (from + n) - max t0 from

  sum_over-at_tick :
      (t0 t1 from n : ℕ) (v : A)
      → sum_over n (λ i. at_tick t0 t1 v (from + i)) ≡ times am (overlap t0 t1 from n) v
  unfolding sum_over
  sum_over-at_tick t0 t1 from zero v =
      let nothing : overlap t0 t1 from 0 ≡ 0 = omega arith in sym (ap (λ n. times am n v) nothing)
  sum_over-at_tick t0 t1 from (suc n) v =
      elim (Bool-cases (leb t0 (from + n) && ltb (from + n) t1)) [
        | inl y ↦
            let longer : overlap t0 t1 from (suc n) ≡ suc (overlap t0 t1 from n) =
              ground (arith, y) in
            let here : at_tick t0 t1 v (from + n) ≡ v = ap (λ b. if b then v else am.none_of) y in
            ap (am.plus (sum_over n (λ i. at_tick t0 t1 v (from + i)))) here
            ∙ (ap (λ x. am.plus x v) (sum_over-at_tick t0 t1 from n v)
                ∙ am.plus_comm (times am (overlap t0 t1 from n) v) v
                ∙ sym (ap (λ n. times am n v) longer))
        | inr b ↦
            let equal : overlap t0 t1 from (suc n) ≡ overlap t0 t1 from n = ground (arith, b) in
            let here : at_tick t0 t1 v (from + n) ≡ am.none_of =
              ap (λ b. if b then v else am.none_of) b in
            ap (am.plus (sum_over n (λ i. at_tick t0 t1 v (from + i)))) here
            ∙ (am.plus-none_of (sum_over n (λ i. at_tick t0 t1 v (from + i)))
                ∙ sum_over-at_tick t0 t1 from n v
                ∙ sym (ap (λ n. times am n v) equal))
      ]

  -- what the segments give at a tick
  unfoldable pub segments_at : List (Segment A) → ℕ → A
  segments_at [] t = am.none_of
  segments_at (seg ∷ segs) t = am.plus (at_tick seg.t0 seg.t1 seg.value t) (segments_at segs t)

  slice-overlap :
      (from k : ℕ) (seg : Segment A)
      → from ≤ k
      → slice am from k seg ≡ overlap seg.t0 seg.t1 (k * minute) minute
  slice-overlap from k seg h = ground (arith, h)

  pub integral_of-sum_over :
      (from k : ℕ) (segs : List (Segment A))
      → from ≤ k
      → integral_of am from k segs ≡ sum_over minute (λ i. segments_at segs (k * minute + i))
  unfolding integral_of segments_at
  integral_of-sum_over from k [] h = sym (sum_over-none minute)
  integral_of-sum_over from k (seg ∷ segs) h =
      ap (λ n. am.plus (times am n seg.value) (integral_of am from k segs))
        (slice-overlap from k seg h)
      ∙ (λ i.
          am.plus (sym (sum_over-at_tick seg.t0 seg.t1 (k * minute) minute seg.value) i)
            (integral_of-sum_over from k segs h i))
      ∙ sym (
          sum_over-plus minute (λ i. at_tick seg.t0 seg.t1 seg.value (k * minute + i))
            (λ i. segments_at segs (k * minute + i)))
