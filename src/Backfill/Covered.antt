-- ===== src/Backfill/Covered.antt =====
-- The windows of a cycle of backfill.py.
use ha_timescaledb_recorder.Prelude.{
  ℕ, zero, suc, ◌+◌, ◌-◌, ◌≤◌, ◌<◌, ◌≡◌, subst, List, [], ◌∷◌, false, Option, none, some, arith,
  ltb, max, is_empty, Bool-cases, inl, inr,
}
use ha_timescaledb_recorder.Backfill.{
  quiet, Item, fetched, done, Environment, slice_window, late_arrival_grace, detect_gap,
  entities_of, slice_end, slices, cycle,
}

-- where the recorder's history begins, as far as it says
abbrev pub begins : Option ℕ → ℕ
begins none = 0
begins (some oldest) = oldest

detect_gap-max : (o : Option ℕ) (from : ℕ) → (detect_gap o from).0 ≡ max from (begins o)
unfolding detect_gap
detect_gap-max none from = omega arith
detect_gap-max (some oldest) from = ground arith

ltb_past : (m n : ℕ) → n ≤ m → ltb m n ≡ false
ltb_past m n h = ground arith

module _ {R : Type 0} where
  -- Windows of at most five minutes, each with the recorder's rows for the selected entities, that
  -- follow one another from `start` to the cutoff, and then the sentinel.
  pub data Covers (env : Environment R) : ℕ → List (Item R) → Type 0 where
    over : (start : ℕ) → env.t_clear ≤ start → Covers env start (done ∷ [])
    next :
        (start end : ℕ) (rest : List (Item R))
        → start < end
        → end ≤ start + slice_window
        → end ≤ env.t_clear
        → Covers env end rest
        → Covers env start (fetched start end (env.fetch_slice (entities_of env) start end) ∷ rest)

  -- no stop comes
  unfoldable pub Calm : Environment R → Type 0
  Calm env = (start : ℕ) → env.signal start ≡ quiet

  slices-Covers :
      (env : Environment R) (fuel start : ℕ)
      → Calm env
      → env.t_clear ≤ fuel + start
      → Covers env start (slices fuel env (entities_of env) start)
  unfolding slices Calm
  slices-Covers env zero start calm enough =
      simp (ltb_past start env.t_clear (omega (arith, enough))) (over start (omega (arith, enough)))
  slices-Covers env (suc fuel) start calm enough = elim (Bool-cases (ltb start env.t_clear)) [
    | inl more ↦
        simp (more, calm start)
          (next start (slice_end env start) _ (ground arith) (omega arith) (omega arith)
            (slices-Covers env fuel (slice_end env start) calm (ground (arith, enough))))
    | inr past ↦ simp past (over start (ground arith))
  ]

  -- Without a stop, a cycle with a watermark and an entity puts windows that begin ten minutes before
  -- the watermark, or where the recorder's history begins if that is later, follow one another without a
  -- gap or an overlap to the moment of the clearing, are five minutes long at most, and are followed by
  -- the sentinel, and nothing else.
  pub cycle_covers :
      (env : Environment R) (wm : ℕ)
      → Calm env
      → env.watermark ≡ some wm
      → is_empty (entities_of env) ≡ false
      → Covers env (max (wm - late_arrival_grace) (begins env.oldest_ts)) (cycle env).puts
  unfolding cycle
  cycle_covers env wm calm w some_entity =
      simp (w, some_entity)
        (subst
          (λ start. Covers env start (slices (env.t_clear - first) env (entities_of env) first))
          (detect_gap-max env.oldest_ts (wm - late_arrival_grace))
          (slices-Covers env (env.t_clear - first) first calm (omega arith)))
    where
      first : ℕ
      first = (detect_gap env.oldest_ts (wm - late_arrival_grace)).0
