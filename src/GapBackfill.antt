-- ===== src/GapBackfill.antt =====
-- custom_components/timescaledb_recorder/backfill_gaps.py: the comparison of the recorder's database with
-- the table `states`, bucket by bucket, and the insertion of what is missing. Times are microseconds:
-- the floats of SQLite are taken as exact. `none` is an exception, which ends the script.
pub mod Inserted
pub mod Complete
pub mod Filled
pub mod Gaps
pub mod Runs
mod Tests
use text.Mathlib.Text.{◌==◌ as str_eq}
use ha_timescaledb_recorder.Prelude.{
  ℕ, zero, suc, ◌+◌, ◌-◌, ◌∷◌, [], List, ◌++◌, Bool, true, false, not, ◌&&◌, ◌||◌, Option, none,
  some, String, ltb, leb, ◌==◌, min, max, length, take, drop, is_empty, is_some, filter, any, count,
  map, if◌then◌else◌,
}
use ha_timescaledb_recorder.StatesWorker.{StateRow}

abbrev pub mem : String → List String → Bool
mem id ids = any (str_eq id) ids

-- `entities_filter`; `none` lets everything through, and `main` ends before the loop where it is empty
abbrev pub lets_through : Option (List String) → String → Bool
lets_through none id = true
lets_through (some ids) id = mem id ids

pub record Config (C : Type 0) : Type 0 where
  pub sqlite : List (StateRow C)  -- by time
  pub entities_filter : Option (List String)
  pub bucket : ℕ
  pub batch_size : ℕ
  pub dry_run : Bool
  pub end : ℕ

-- the variables of `main`
pub record Progress (C : Type 0) : Type 0 where
  pub states : List (StateRow C)
  pub total_scanned : ℕ
  pub total_gaps : ℕ
  pub total_inserted : ℕ
  pub buckets_skipped : ℕ
  pub inserted_from : Option ℕ
  pub inserted_to : Option ℕ

module _ {C : Type 0} where
  -- the fingerprint: the entity and the time
  abbrev pub same_print : StateRow C → StateRow C → Bool
  same_print r s = str_eq r.entity_id s.entity_id && r.last_updated == s.last_updated

  abbrev pub is_present : List (StateRow C) → StateRow C → Bool
  is_present states r = any (same_print r) states

  abbrev pub in_window : ℕ → ℕ → StateRow C → Bool
  in_window start end r = leb start r.last_updated && ltb r.last_updated end

  -- `sqlite_bucket_count`, `pg_bucket_count`
  abbrev pub bucket_count : ℕ → ℕ → Option (List String) → List (StateRow C) → ℕ
  bucket_count start end ids rows =
      count (λ r. in_window start end r && lets_through ids r.entity_id) rows

  -- `fetch_sqlite_bucket`
  abbrev pub fetch_bucket : ℕ → ℕ → Option (List String) → List (StateRow C) → List (StateRow C)
  fetch_bucket start end ids rows =
      filter (λ r. in_window start end r && lets_through ids r.entity_id) rows

  abbrev pub entity_ids : List (StateRow C) → List String
  entity_ids rows = map (λ r. r.entity_id) rows

  -- `fetch_pg_fingerprints`, as the rows that have them
  abbrev pub fetch_fingerprints : ℕ → ℕ → List String → List (StateRow C) → List (StateRow C)
  fetch_fingerprints start end ids states =
      filter (λ r. in_window start end r && mem r.entity_id ids) states

  pub build_missing_rows : List (StateRow C) → List (StateRow C) → List (StateRow C)
  build_missing_rows rows prints = filter (λ r. not (is_present prints r)) rows

  -- `executemany(INSERT_SQL, batch)`: the table has a unique index on the fingerprint
  pub insert_rows : List (StateRow C) → List (StateRow C) → Option (List (StateRow C))
  insert_rows [] states = some states
  insert_rows (r ∷ rows) states =
      let rest = insert_rows rows (states ++ r ∷ []) in if is_present states r then none else rest

  abbrev next_batch :
      Option (List (StateRow C))
      → (List (StateRow C) → Option (List (StateRow C)))
      → Option (List (StateRow C))
  next_batch none rest = none
  next_batch (some states) rest = rest states

  -- `insert_batches`; the number of rows is fuel enough
  pub insert_batches :
      ℕ → ℕ → Bool → List (StateRow C) → List (StateRow C) → Option (List (StateRow C))
  unfolding insert_rows
  insert_batches zero size dry rows states = some states
  insert_batches (suc fuel) size dry [] states = some states
  insert_batches (suc fuel) size dry (r ∷ rows) states =
      next_batch (if dry then some states else insert_rows (take size (r ∷ rows)) states)
        (insert_batches fuel size dry (drop size (r ∷ rows)))

  abbrev earliest : List (StateRow C) → Option ℕ → Option ℕ
  earliest [] o = o
  earliest (r ∷ rows) o =
      let rest = earliest rows o in
      some (elim rest [ none ↦ r.last_updated | some t ↦ min t r.last_updated ])

  abbrev latest : List (StateRow C) → Option ℕ → Option ℕ
  latest [] o = o
  latest (r ∷ rows) o =
      let rest = latest rows o in
      some (elim rest [ none ↦ r.last_updated | some t ↦ max t r.last_updated ])

  abbrev pub skip_bucket : Progress C → Progress C
  skip_bucket p = record p { buckets_skipped = p.buckets_skipped + 1 }

  abbrev note_inserted :
      List (StateRow C) → Progress C → Option (List (StateRow C)) → Option (Progress C)
  note_inserted missing p none = none
  note_inserted missing p (some states) = some (record p {
    states = states;
    total_gaps = p.total_gaps + length missing;
    total_inserted = p.total_inserted + length missing;
    inserted_from = earliest missing p.inserted_from;
    inserted_to = latest missing p.inserted_to;
  })

  -- the comparison by fingerprints
  pub compare_bucket : Config C → ℕ → ℕ → Progress C → Option (Progress C)
  unfolding build_missing_rows insert_batches
  compare_bucket c start end p =
      let rows = fetch_bucket start end c.entities_filter c.sqlite in
      let prints = fetch_fingerprints start end (entity_ids rows) p.states in
      let missing = build_missing_rows rows prints in
      let scanned = record p { total_scanned = p.total_scanned + length rows } in
      if is_empty missing
      then some scanned
      else note_inserted missing scanned
          (insert_batches (length missing) c.batch_size c.dry_run missing p.states)

  -- whether the counts of a bucket say that it is in sync
  pub in_sync : Config C → ℕ → ℕ → List (StateRow C) → Bool
  in_sync c start end states =
      let sq_count = bucket_count start end none c.sqlite in
      let pg_count = bucket_count start end none states in
      sq_count == 0
      || pg_count == sq_count
      || (is_some c.entities_filter
          && bucket_count start end c.entities_filter states
            == bucket_count start end c.entities_filter c.sqlite)

  -- the body of the loop of `main`
  pub process_bucket : Config C → ℕ → ℕ → Progress C → Option (Progress C)
  unfolding in_sync compare_bucket
  process_bucket c start end p =
      if in_sync c start end p.states then some (skip_bucket p) else compare_bucket c start end p

  abbrev then_next : Option (Progress C) → (Progress C → Option (Progress C)) → Option (Progress C)
  then_next none k = none
  then_next (some p) k = k p

  -- the loop of `main`; the number of ticks is fuel enough
  pub run : ℕ → Config C → ℕ → Progress C → Option (Progress C)
  unfolding process_bucket
  run zero c ts p = some p
  run (suc fuel) c ts p =
      let bucket_end = min (ts + c.bucket) c.end in
      if ltb ts c.end
      then then_next (process_bucket c ts bucket_end p) (run fuel c bucket_end)
      else some p

  -- `mark_rollup_dirty` behind its condition in `main`: the range that it queues
  pub mark_rollup_dirty : Bool → Config C → Progress C → Option (ℕ × Option ℕ)
  mark_rollup_dirty exists c p =
      if ltb 0 p.total_inserted && not c.dry_run && exists
      then elim p.inserted_from [ none ↦ none | some from ↦ some (from, p.inserted_to) ]
      else none
