-- ===== src/StatesWorker/Delivery.antt =====
-- What reaches `_insert_chunk` in states_worker.py, and with which statement.
use ha_timescaledb_recorder.Prelude.{
  ℕ, ◌<◌, ◌-◌, ◌≡◌, Bool, true, false, refl, sym, ap, ◌∙◌, List, [], ◌∷◌, ◌++◌, arith, length,
  append_assoc, append-nil, String, Bool, true, Option, none, some, ◌||◌, leb, is_empty,
  if◌then◌else◌, Bool-cases, inl, inr,
}
use ha_timescaledb_recorder.StatesWorker.{
  StateRow, Mode, mode_init, mode_backfill, mode_live, Statement, insert, insert_live, BackfillItem,
  nothing_yet, backfill_done, slice, LiveItem, timed_out, state_row, sentinel, Turn, Worker,
  batch_flush_size, flush_interval, statement, flush, flush_any, slice_to_rows, request_backfill,
  mark_rollup_dirty, take_backfill, flush_if_due, take_live, by_mode, turn, run,
}
use ha_timescaledb_recorder.StatesWorker.Chunks.{
  tag, expand, tag-append, expand-append, expand-chunks,
}

module _ {C : Type 0} where
  -- The rows that reached `_insert_chunk` or wait for it, each with the statement for it.
  abbrev pub delivered_as : Mode → Worker C → List (Statement × StateRow C)
  delivered_as m w = expand w.written ++ tag (statement m) w.buffer

  abbrev pub delivered : Worker C → List (Statement × StateRow C)
  delivered w = delivered_as w.mode w

  -- The rows that a turn takes from the queue of the mode: backfilled rows never overwrite, live ones do.
  abbrev pub live_rows : LiveItem C → List (StateRow C)
  live_rows (state_row r) = r ∷ []
  live_rows i = []

  abbrev pub backfill_rows : BackfillItem C → List (StateRow C)
  backfill_rows (slice slices) = slice_to_rows slices
  backfill_rows i = []

  abbrev pub taken : Mode → Turn C → List (Statement × StateRow C)
  taken mode_init t = []
  taken mode_backfill t = tag insert (backfill_rows t.backfill_item)
  taken mode_live t = if t.overflowed then [] else tag insert_live (live_rows t.live_item)

  pub taken_all : (String → Bool) → List (Turn C) → Worker C → List (Statement × StateRow C)
  taken_all rolled [] w = []
  taken_all rolled (t ∷ ts) w = taken w.mode t ++ taken_all rolled ts (turn rolled t w)

  -- between two passes
  abbrev pub Quiet : Mode → List (StateRow C) → Type 0
  Quiet mode_live rows = length rows < batch_flush_size
  Quiet m rows = rows ≡ []

  delivered-flush : (w : Worker C) → delivered (flush w) ≡ delivered w
  unfolding flush
  delivered-flush w =
      append-nil _
      ∙ (expand-append w.written _
          ∙ ap (◌++◌ (expand w.written))
              (expand-chunks (statement w.mode) (length w.buffer) w.buffer (omega arith)))

  delivered-empty : (m : Mode) (w : Worker C) → w.buffer ≡ [] → delivered_as m w ≡ delivered w
  delivered-empty m w h =
      ap (λ b. expand w.written ++ tag (statement m) b) h
      ∙ sym (ap (λ b. expand w.written ++ tag (statement w.mode) b) h)

  is_empty-nil : (b : List (StateRow C)) → is_empty b ≡ true → b ≡ []
  is_empty-nil b e = ground arith

  pub buffer-flush_any : (w : Worker C) → (flush_any w).buffer ≡ []
  unfolding flush
  buffer-flush_any w = elim (Bool-cases (is_empty w.buffer)) [
    | inl e ↦ simp e (is_empty-nil w.buffer e)
    | inr e ↦ simp e refl
  ]

  flush_any-written : (m : Mode) (w : Worker C) → delivered_as m (flush_any w) ≡ delivered w
  unfolding flush
  flush_any-written m w = elim (Bool-cases (is_empty w.buffer)) [
    | inl e ↦ simp e (delivered-empty m w (is_empty-nil w.buffer e))
    | inr e ↦ simp e (delivered-flush w)
  ]

  pub flush_any-mode : (w : Worker C) → (flush_any w).mode ≡ w.mode
  unfolding flush
  flush_any-mode w = ground arith

  delivered-request : (now : ℕ) (w : Worker C) → delivered (request_backfill now w) ≡ delivered w
  unfolding request_backfill
  delivered-request now w = flush_any-written mode_backfill w

  rolled_up :
      (m : Mode) (queued : Bool) (o : Option ℕ) (w : Worker C)
      → delivered_as m (mark_rollup_dirty queued o w) ≡ delivered_as m w
  rolled_up m queued none w = refl
  rolled_up m true (some since) w = refl
  rolled_up m false (some since) w = refl

  pub buffer-rolled_up :
      (queued : Bool) (o : Option ℕ) (w : Worker C)
      → (mark_rollup_dirty queued o w).buffer ≡ w.buffer
  buffer-rolled_up queued none w = refl
  buffer-rolled_up true (some since) w = refl
  buffer-rolled_up false (some since) w = refl

  delivered-more :
      (m : Mode) (w : Worker C) (rows : List (StateRow C))
      → expand w.written ++ tag (statement m) (w.buffer ++ rows)
        ≡ delivered_as m w ++ tag (statement m) rows
  delivered-more m w rows =
      ap (◌++◌ (expand w.written)) (tag-append (statement m) w.buffer rows)
      ∙ sym (append_assoc (expand w.written) (tag (statement m) w.buffer) (tag (statement m) rows))

  delivered-take_backfill :
      (rolled : String → Bool) (i : BackfillItem C) (now : ℕ) (w : Worker C)
      → w.mode ≡ mode_backfill
      → delivered (take_backfill rolled i now w) ≡ delivered w ++ tag insert (backfill_rows i)
  unfolding take_backfill flush
  delivered-take_backfill rolled nothing_yet now w h = sym (append-nil (delivered w))
  delivered-take_backfill rolled (backfill_done queued) now w h =
      rolled_up mode_live queued w.backfill_rollup_from (flush_any w)
      ∙ (flush_any-written mode_live w ∙ sym (append-nil (delivered w)))
  delivered-take_backfill rolled (slice slices) now w h =
      delivered-flush (record w { buffer = w.buffer ++ slice_to_rows slices })
      ∙ (delivered-more w.mode w (slice_to_rows slices)
          ∙ ap (λ m. delivered w ++ tag (statement m) (slice_to_rows slices)) h)

  delivered-flush_if_due : (now : ℕ) (w : Worker C) → delivered (flush_if_due now w) ≡ delivered w
  unfolding flush
  delivered-flush_if_due now w =
      elim (Bool-cases
        (leb batch_flush_size (length w.buffer) || leb flush_interval (now - w.last_flush))) [
          | inl y ↦ simp y (delivered-flush w)
          | inr n ↦ simp n refl
        ]

  delivered-take_live :
      (i : LiveItem C) (now : ℕ) (w : Worker C)
      → w.mode ≡ mode_live
      → delivered (take_live i now w) ≡ delivered w ++ tag insert_live (live_rows i)
  unfolding take_live flush
  delivered-take_live timed_out now w h =
      ap (λ m. delivered_as m (flush_any w)) (flush_any-mode w)
      ∙ (flush_any-written w.mode w ∙ sym (append-nil (delivered w)))
  delivered-take_live (state_row r) now w h =
      delivered-flush_if_due now (record w { buffer = w.buffer ++ r ∷ [] })
      ∙ (delivered-more w.mode w (r ∷ []) ∙ ap (λ m. delivered w ++ tag (statement m) (r ∷ [])) h)
  delivered-take_live sentinel now w h =
      delivered-flush_if_due now w ∙ sym (append-nil (delivered w))

  pub delivered-by_mode :
      (m : Mode) (rolled : String → Bool) (t : Turn C) (w : Worker C)
      → w.mode ≡ m
      → delivered (by_mode m rolled t w) ≡ delivered w ++ taken m t
  delivered-by_mode mode_init rolled t w h =
      delivered-request t.now w ∙ sym (append-nil (delivered w))
  delivered-by_mode mode_backfill rolled t w h =
      delivered-take_backfill rolled t.backfill_item t.now w h
  delivered-by_mode mode_live rolled t w h = elim (Bool-cases t.overflowed) [
    | inl y ↦ simp y (delivered-request t.now w ∙ sym (append-nil (delivered w)))
    | inr n ↦ simp n (delivered-take_live t.live_item t.now w h)
  ]

  -- Whatever the queues give, in whatever order the modes change: the rows given to `_insert_chunk`,
  -- each with its statement, followed by those that still wait in the buffer, are the rows taken, in
  -- order, the backfilled ones with the statement that never overwrites and the live ones with the one
  -- that does.
  pub run_delivers_rows :
      (rolled : String → Bool) (ts : List (Turn C)) (w : Worker C)
      → delivered (run rolled ts w) ≡ delivered w ++ taken_all rolled ts w
  unfolding run turn taken_all
  run_delivers_rows rolled [] w = sym (append-nil (delivered w))
  run_delivers_rows rolled (t ∷ ts) w =
      run_delivers_rows rolled ts (turn rolled t w)
      ∙ (ap (λ x. x ++ taken_all rolled ts (turn rolled t w))
            (delivered-by_mode w.mode rolled t w refl)
          ∙ append_assoc (delivered w) (taken w.mode t) (taken_all rolled ts (turn rolled t w)))
