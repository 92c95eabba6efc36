-- ===== src/StatesWorker/Isolation/Breaker.antt =====
-- The circuit breaker of `_insert_rows_individually` in states_worker.py.
use ha_timescaledb_recorder.Prelude.{
  ℕ, zero, suc, ◌≤◌, ◌<◌, ◌≡◌, refl, ap, List, [], ◌∷◌, ◌++◌, false, none, some, arith,
  if◌then◌else◌, leb, Bool-cases, inl, inr, ◌⊎◌,
}
use ha_timescaledb_recorder.StatesWorker.{StateRow}
use ha_timescaledb_recorder.StatesWorker.Isolation.{
  Row, rejected, transient, Database, not_poison, enumerate, seen, pick_probe, try_probes,
  try_picked, probe_rows, insert_rest, after_probe, insert_rows_individually, poison_probe_rows,
}

module _ {C : Type 0} where
  -- how many entities the rows have besides those of `picked`
  abbrev pub new_entities : List (Row C) → List (Row C) → ℕ
  new_entities picked [] = 0
  new_entities picked (r ∷ rows) =
      if seen r.1.entity_id picked
      then new_entities picked rows
      else suc (new_entities (picked ++ r ∷ []) rows)

  -- Every first try fails, transiently or not, and no stop comes before it.
  unfoldable pub AllFail : Database C → Type 0
  AllFail db =
      (r : Row C) → (db.probe r ≡ rejected ⊎ db.probe r ≡ transient) × (db.stop_at_probe r ≡ false)

  try_probes-fail :
      (db : Database C) (rows : List (Row C)) → AllFail db → try_probes db rows ≡ not_poison
  unfolding try_probes AllFail
  try_probes-fail db [] f = refl
  try_probes-fail db (r ∷ rows) f = elim ((f r).0) [
    | inl refused ↦ simp (refused, (f r).1) (try_probes-fail db rows f)
    | inr broken ↦ simp (broken, (f r).1) refl
  ]

  pick_probe-enough :
      (db : Database C) (n : ℕ) (picked rows : List (Row C))
      → AllFail db
      → n ≤ new_entities picked rows
      → try_picked db (pick_probe n picked rows) ≡ not_poison
  unfolding pick_probe
  pick_probe-enough db zero picked rows f h = try_probes-fail db picked f
  pick_probe-enough db (suc n) picked [] f h = ground (arith, h)
  pick_probe-enough db (suc n) picked (r ∷ rows) f h =
      elim (Bool-cases (seen r.1.entity_id picked)) [
        | inl y ↦ simp y (pick_probe-enough db (suc n) picked rows f (ground (arith, h)))
        | inr k ↦ simp k (pick_probe-enough db n (picked ++ r ∷ []) rows f (ground (arith, h)))
      ]

  pick_probe-few :
      (n : ℕ) (picked rows : List (Row C))
      → new_entities picked rows < n
      → pick_probe n picked rows ≡ none
  unfolding pick_probe
  pick_probe-few zero picked rows h = ground (arith, h)
  pick_probe-few (suc n) picked [] h = refl
  pick_probe-few (suc n) picked (r ∷ rows) h = elim (Bool-cases (seen r.1.entity_id picked)) [
    | inl y ↦ simp y (pick_probe-few (suc n) picked rows (ground (arith, h)))
    | inr k ↦ simp k (pick_probe-few n (picked ++ r ∷ []) rows (ground (arith, h)))
  ]

  -- Where the first try of every row fails, transiently or because the row is refused, and the stop event
  -- is not set while the probes are tried: a chunk with rows of five entities or more goes back to
  -- retrying with no row given up, and one with fewer is handled row by row.
  pub breaker :
      (db : Database C) (chunk : List (StateRow C))
      → AllFail db
      → insert_rows_individually db chunk ≡ (
          if leb poison_probe_rows (new_entities [] (enumerate 0 chunk))
          then none
          else some (insert_rest db none (enumerate 0 chunk)))
  unfolding insert_rows_individually probe_rows
  breaker db chunk f =
      let rows = enumerate 0 chunk in
      elim (Bool-cases (leb poison_probe_rows (new_entities [] rows))) [
        | inl many ↦ simp many (
            ap (after_probe db rows)
              (pick_probe-enough db poison_probe_rows [] rows f (ground (arith, many))))
        | inr few ↦ simp few (
            ap (λ o. after_probe db rows (try_picked db o))
              (pick_probe-few poison_probe_rows [] rows (ground (arith, few))))
      ]
