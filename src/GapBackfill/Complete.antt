-- ===== src/GapBackfill/Complete.antt =====
-- backfill_gaps.py: the rows that a bucket adds.
use ha_timescaledb_recorder.Prelude.{
  ℕ, ◌+◌, ◌<◌, ◌≡◌, refl, sym, ◌∙◌, subst, List, [], ◌∷◌, ◌++◌, Bool, false, Option, none, some,
  arith, length, append-nil, All-map, is_empty, if◌then◌else◌, Bool-cases, inl, inr,
}
use ha_timescaledb_recorder.StatesWorker.{StateRow}
use ha_timescaledb_recorder.GapBackfill.{
  Config, Progress, fetch_bucket, insert_batches, note_inserted, compare_bucket, in_sync,
  process_bucket,
}
use ha_timescaledb_recorder.GapBackfill.Inserted.{
  IsDistinct, AllAbsent, All-filter, filter-IsDistinct, insert_rows-all,
  insert_batches-eq-insert_rows, missing, build_missing_rows-eq-missing,
}

module _ {C : Type 0} where
  -- The bucket goes through, and these are its new rows.
  unfoldable pub Adds : List (StateRow C) → Progress C → Option (Progress C) → Type 0
  Adds new p none = ⊥
  Adds new p (some q) =
      (q.states ≡ p.states ++ new) × (q.total_inserted ≡ p.total_inserted + length new)

  pub missing-IsDistinct :
      (c : Config C) (start end : ℕ) (states : List (StateRow C))
      → IsDistinct c.sqlite
      → IsDistinct (missing c start end states)
  unfolding missing
  missing-IsDistinct c start end states d =
      filter-IsDistinct _ (fetch_bucket start end c.entities_filter c.sqlite)
        (filter-IsDistinct _ c.sqlite d)

  pub missing-AllAbsent :
      (c : Config C) (start end : ℕ) (states : List (StateRow C))
      → AllAbsent states (missing c start end states)
  unfolding missing
  missing-AllAbsent c start end states =
      All-map _ _ (missing c start end states) (λ r h. ground (arith, h))
        (All-filter _ (fetch_bucket start end c.entities_filter c.sqlite))

  note-Adds :
      (rows : List (StateRow C)) (p : Progress C) (o : Option (List (StateRow C)))
      → o ≡ some (p.states ++ rows)
      → Adds rows p (note_inserted rows p o)
  unfolding Adds
  note-Adds rows p o e = subst (λ o. Adds rows p (note_inserted rows p o)) (sym e) (refl, refl)

  abbrev compared : List (StateRow C) → ℕ → ℕ → Bool → Progress C → Option (Progress C)
  compared rows scanned size dry p =
      let q = record p { total_scanned = scanned } in
      if is_empty rows
      then some q
      else note_inserted rows q (insert_batches (length rows) size dry rows p.states)

  compared-Adds :
      (rows : List (StateRow C)) (scanned size : ℕ) (p : Progress C)
      → IsDistinct rows
      → AllAbsent p.states rows
      → 0 < size
      → Adds rows p (compared rows scanned size false p)
  unfolding Adds
  compared-Adds [] scanned size p d a pos = (sym (append-nil p.states), omega arith)
  compared-Adds (r ∷ rows) scanned size p d a pos =
      note-Adds (r ∷ rows) (record p { total_scanned = scanned }) _
        (insert_batches-eq-insert_rows (length (r ∷ rows)) size (r ∷ rows) p.states (omega arith)
            pos
          ∙ insert_rows-all (r ∷ rows) p.states d a)

  compare_bucket-Adds :
      (c : Config C) (start end : ℕ) (p : Progress C)
      → IsDistinct c.sqlite
      → 0 < c.batch_size
      → c.dry_run ≡ false
      → Adds (missing c start end p.states) p (compare_bucket c start end p)
  unfolding compare_bucket
  compare_bucket-Adds c start end p d pos live =
      let rows = missing c start end p.states in
      let scanned = p.total_scanned + length (fetch_bucket start end c.entities_filter c.sqlite) in
      subst (λ l. Adds rows p (compared l scanned c.batch_size c.dry_run p))
        (sym (build_missing_rows-eq-missing c start end p.states))
        (subst (λ b. Adds rows p (compared rows scanned c.batch_size b p)) (sym live)
          (compared-Adds rows scanned c.batch_size p (missing-IsDistinct c start end p.states d)
            (missing-AllAbsent c start end p.states) pos))

  unfoldable pub new_rows : Config C → ℕ → ℕ → List (StateRow C) → List (StateRow C)
  new_rows c start end states =
      if in_sync c start end states then [] else missing c start end states

  pub process_bucket-Adds :
      (c : Config C) (start end : ℕ) (p : Progress C)
      → IsDistinct c.sqlite
      → 0 < c.batch_size
      → c.dry_run ≡ false
      → Adds (new_rows c start end p.states) p (process_bucket c start end p)
  unfolding process_bucket new_rows
  process_bucket-Adds c start end p d pos live = elim (Bool-cases (in_sync c start end p.states)) [
    | inl y ↦ rw y (unfold Adds in (sym (append-nil p.states), omega arith))
    | inr n ↦ rw n (compare_bucket-Adds c start end p d pos live)
  ]
