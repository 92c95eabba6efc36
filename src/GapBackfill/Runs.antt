-- ===== src/GapBackfill/Runs.antt =====
-- backfill_gaps.py: a run, and the rows of its window.
use ha_timescaledb_recorder.Prelude.{
  ℕ, zero, suc, ◌+◌, ◌≤◌, ◌<◌, ◌≡◌, sym, ap, ◌∙◌, subst, List, [], ◌++◌, false, Option, none, some,
  arith, ltb, min, length, length-append, append_assoc, append-nil, All, All-map, Bool-cases, inl,
  inr,
}
use ha_timescaledb_recorder.StatesWorker.{StateRow}
use ha_timescaledb_recorder.GapBackfill.{Config, Progress, process_bucket, then_next, run}
use ha_timescaledb_recorder.GapBackfill.Inserted.{IsDistinct}
use ha_timescaledb_recorder.GapBackfill.Gaps.{AreGaps, new_rows-AreGaps, AreGaps-append}
use ha_timescaledb_recorder.GapBackfill.Complete.{Adds, new_rows, process_bucket-Adds}
use ha_timescaledb_recorder.GapBackfill.Filled.{
  IsCompared, Compared, at_end, bucket, new_rows-IsCompared, IsCompared-later,
}

module _ {C : Type 0} where
  -- The run ends, with rows added that were gaps, and each bucket of the window compared after it.
  pub Filled : Config C → ℕ → Progress C → Option (Progress C) → Type 0
  Filled c ts p none = ⊥
  Filled c ts p (some q) =
      (new : List (StateRow C)) × (q.states ≡ p.states ++ new)
      × (q.total_inserted ≡ p.total_inserted + length new)
      × AreGaps c ts c.end p.states new
      × Compared c q.states ts

  after_end : (c : Config C) (ts : ℕ) (p : Progress C) → c.end ≤ ts → Filled c ts p (some p)
  unfolding Filled
  after_end c ts p h = ([], sym (append-nil p.states), omega arith, (tt, tt, tt), at_end h)

  -- gaps of a later window lie from its start on
  AreGaps-late :
      (c : Config C) (start end : ℕ) (states rows : List (StateRow C))
      → AreGaps c start end states rows
      → All (λ r. start ≤ r.last_updated) rows
  AreGaps-late c start end states rows (a, d, inside) =
      All-map _ _ rows (λ r h. ground (arith, h)) inside

  then-Filled :
      (c : Config C) (ts : ℕ) (new : List (StateRow C)) (p q : Progress C) (o : Option (Progress C))
      → let mid = min (ts + c.bucket) c.end in
        q.states ≡ p.states ++ new
        → q.total_inserted ≡ p.total_inserted + length new
        → AreGaps c ts mid p.states new
        → ts < c.end
        → IsCompared c ts mid q.states
        → Filled c mid q o
        → Filled c ts p o
  unfolding Filled
  then-Filled c ts new p q none eq total gaps lt here h = h
  then-Filled c ts new p q (some r) eq total gaps lt here (later, eq', total', gaps', there) =
      let mid = min (ts + c.bucket) c.end in
      (
        new ++ later,
        eq' ∙ ap (λ l. l ++ later) eq ∙ append_assoc p.states new later,
        omega (arith, total, total', length-append new later),
        AreGaps-append c ts mid c.end p.states new later (omega (arith, lt)) (omega arith) gaps
            (subst (λ l. AreGaps c mid c.end l later) eq gaps'),
        bucket lt
            (subst (IsCompared c ts mid) (sym eq') (
              IsCompared-later c ts mid q.states later
                (AreGaps-late c mid c.end q.states later gaps') here))
            there,
      )

  one_more :
      (fuel : ℕ) (c : Config C) (ts : ℕ) (p : Progress C) (o : Option (Progress C))
      → let mid = min (ts + c.bucket) c.end in
        Adds (new_rows c ts mid p.states) p o
        → ((q : Progress C) → Filled c mid q (run fuel c mid q))
        → IsDistinct c.sqlite
        → ts < c.end
        → Filled c ts p (then_next o (run fuel c mid))
  unfolding Adds
  one_more fuel c ts p none h rest d lt = absurd h
  one_more fuel c ts p (some q) (eq, total) rest d lt =
      let mid = min (ts + c.bucket) c.end in
      then-Filled c ts (new_rows c ts mid p.states) p q (run fuel c mid q) eq total
        (new_rows-AreGaps c ts mid p.states d) lt
        (subst (IsCompared c ts mid) (sym eq) (new_rows-IsCompared c ts mid p.states)) (rest q)

  -- A run that is not dry ends, by as many buckets as the window has ticks at most, where the database has
  -- no two rows of one fingerprint. The rows that it adds, and counts, are rows of the database, of the
  -- window and of the entities asked for, that were absent, each once. In the table that it leaves, each
  -- bucket of the window has all the database's rows of the entities asked for, or has counts by which the
  -- script takes it to be in sync.
  pub run_fills :
      (fuel : ℕ) (c : Config C) (ts : ℕ) (p : Progress C)
      → IsDistinct c.sqlite
      → 0 < c.batch_size
      → 0 < c.bucket
      → c.dry_run ≡ false
      → c.end ≤ fuel + ts
      → Filled c ts p (run fuel c ts p)
  unfolding run
  run_fills zero c ts p d pos wide live enough = after_end c ts p (omega (arith, enough))
  run_fills (suc fuel) c ts p d pos wide live enough =
      let mid = min (ts + c.bucket) c.end in
      elim (Bool-cases (ltb ts c.end)) [
        | inl y ↦ rw y (
            one_more fuel c ts p (process_bucket c ts mid p)
              (process_bucket-Adds c ts mid p d pos live)
              (λ q. run_fills fuel c mid q d pos wide live (ground (arith, y, wide, enough))) d
              (ground (arith, y)))
        | inr n ↦ rw n (after_end c ts p (ground (arith, n)))
      ]
