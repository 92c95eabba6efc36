-- ===== src/StatesWorker/Bounded.antt =====
-- The sizes of the buffer and of the chunks of states_worker.py.
use ha_timescaledb_recorder.Prelude.{
  ℕ, ◌<◌, ◌-◌, ◌≡◌, true, false, refl, sym, ◌∙◌, subst, List, [], ◌∷◌, ◌++◌, arith, length, All,
  String, Bool, Option, none, some, leb, is_empty, Bool-cases, inl, inr, All-append,
}
use ha_timescaledb_recorder.StatesWorker.{
  StateRow, Mode, mode_init, mode_backfill, mode_live, Statement, BackfillItem, nothing_yet,
  backfill_done, slice, LiveItem, timed_out, state_row, sentinel, Turn, Worker, batch_flush_size,
  flush_interval, statement, flush, flush_any, slice_to_rows, request_backfill, mark_rollup_dirty,
  take_backfill, flush_if_due, take_live, by_mode, turn, run, start,
}
use ha_timescaledb_recorder.StatesWorker.Chunks.{IsChunk, chunks-IsChunk}
use ha_timescaledb_recorder.StatesWorker.Delivery.{Quiet, buffer-flush_any, buffer-rolled_up}

module _ {C : Type 0} where
  abbrev IsChunked : Worker C → Type 0
  IsChunked w = All (λ (c : Statement × List (StateRow C)). IsChunk c.1) w.written

  -- The buffer is below the threshold in live mode and empty in the others, and every chunk that was
  -- given to `_insert_chunk` is of a legal size.
  pub record IsBounded (w : Worker C) : Type 0 where
    pub quiet : Quiet w.mode w.buffer
    pub chunked : IsChunked w

  flush-IsChunked : (w : Worker C) → IsChunked w → IsChunked (flush w)
  unfolding flush
  flush-IsChunked w h =
      All-append _ w.written _ h (chunks-IsChunk (statement w.mode) (length w.buffer) w.buffer)

  flush_any-IsChunked : (w : Worker C) → IsChunked w → IsChunked (flush_any w)
  flush_any-IsChunked w h = elim (Bool-cases (is_empty w.buffer)) [
    | inl e ↦ simp e h
    | inr e ↦ simp e (flush-IsChunked w h)
  ]

  request-IsBounded : (now : ℕ) (w : Worker C) → IsBounded w → IsBounded (request_backfill now w)
  unfolding request_backfill
  request-IsBounded now w b = record {
    quiet = buffer-flush_any w;
    chunked = flush_any-IsChunked w b.chunked;
  }

  marked-IsChunked :
      (queued : Bool) (o : Option ℕ) (w : Worker C)
      → IsChunked w
      → IsChunked (mark_rollup_dirty queued o w)
  marked-IsChunked queued none w h = h
  marked-IsChunked true (some since) w h = h
  marked-IsChunked false (some since) w h = h

  empty-Quiet : (m : Mode) (rows : List (StateRow C)) → rows ≡ [] → Quiet m rows
  empty-Quiet mode_live rows h = rw h (omega arith)
  empty-Quiet mode_init rows h = h
  empty-Quiet mode_backfill rows h = h

  take_backfill-IsBounded :
      (rolled : String → Bool) (i : BackfillItem C) (now : ℕ) (w : Worker C)
      → IsBounded w
      → IsBounded (take_backfill rolled i now w)
  unfolding take_backfill
  take_backfill-IsBounded rolled nothing_yet now w b = b
  take_backfill-IsBounded rolled (backfill_done queued) now w b = record {
    quiet =
        empty-Quiet mode_live _
          (buffer-rolled_up queued w.backfill_rollup_from (flush_any w) ∙ buffer-flush_any w);
    chunked =
        marked-IsChunked queued w.backfill_rollup_from (flush_any w)
          (flush_any-IsChunked w b.chunked);
  }
  take_backfill-IsBounded rolled (slice slices) now w b = record {
    quiet = unfold flush in empty-Quiet w.mode [] refl;
    chunked = flush-IsChunked (record w { buffer = w.buffer ++ slice_to_rows slices }) b.chunked;
  }

  -- below the threshold, whatever the mode
  Quiet-small :
      (m : Mode) (rows : List (StateRow C)) → Quiet m rows → length rows < batch_flush_size
  Quiet-small mode_live rows q = q
  Quiet-small mode_init rows q = rw q (omega arith)
  Quiet-small mode_backfill rows q = rw q (omega arith)

  flush_if_due-IsBounded :
      (now : ℕ) (w : Worker C) → w.mode ≡ mode_live → IsChunked w → IsBounded (flush_if_due now w)
  unfolding flush
  flush_if_due-IsBounded now w live h = elim (Bool-cases (leb batch_flush_size (length w.buffer))) [
    | inl full ↦
        simp full (record { quiet = empty-Quiet w.mode [] refl; chunked = flush-IsChunked w h })
    | inr small ↦ elim (Bool-cases (leb flush_interval (now - w.last_flush))) [
      | inl due ↦
          simp (small, due)
            (record { quiet = empty-Quiet w.mode [] refl; chunked = flush-IsChunked w h })
      | inr early ↦
          simp (small, early)
            (record {
              quiet = subst (λ m. Quiet m w.buffer) (sym live) (ground (arith, small));
              chunked = h;
            })
    ]
  ]

  take_live-IsBounded :
      (i : LiveItem C) (now : ℕ) (w : Worker C)
      → w.mode ≡ mode_live
      → IsBounded w
      → IsBounded (take_live i now w)
  unfolding take_live
  take_live-IsBounded timed_out now w live b = record {
    quiet = empty-Quiet _ _ (buffer-flush_any w);
    chunked = flush_any-IsChunked w b.chunked;
  }
  take_live-IsBounded (state_row r) now w live b =
      flush_if_due-IsBounded now (record w { buffer = w.buffer ++ r ∷ [] }) live b.chunked
  take_live-IsBounded sentinel now w live b = flush_if_due-IsBounded now w live b.chunked

  by_mode-IsBounded :
      (m : Mode) (rolled : String → Bool) (t : Turn C) (w : Worker C)
      → w.mode ≡ m
      → IsBounded w
      → IsBounded (by_mode m rolled t w)
  by_mode-IsBounded mode_init rolled t w h b = request-IsBounded t.now w b
  by_mode-IsBounded mode_backfill rolled t w h b =
      take_backfill-IsBounded rolled t.backfill_item t.now w b
  by_mode-IsBounded mode_live rolled t w h b = elim (Bool-cases t.overflowed) [
    | inl y ↦ simp y (request-IsBounded t.now w b)
    | inr n ↦ simp n (take_live-IsBounded t.live_item t.now w h b)
  ]

  run-IsBounded :
      (rolled : String → Bool) (ts : List (Turn C)) (w : Worker C)
      → IsBounded w
      → IsBounded (run rolled ts w)
  unfolding run turn
  run-IsBounded rolled [] w b = b
  run-IsBounded rolled (t ∷ ts) w b =
      run-IsBounded rolled ts (turn rolled t w) (by_mode-IsBounded w.mode rolled t w refl b)

  -- From the start of the loop, after any turns: the buffer holds fewer rows than the flush threshold in
  -- live mode and none in the other modes, and every chunk given to `_insert_chunk` has a row and at
  -- most as many as the chunk size.
  pub run_bounds :
      (rolled : String → Bool) (now : ℕ) (ts : List (Turn C))
      → IsBounded (run rolled ts (start now))
  run_bounds rolled now ts =
      run-IsBounded rolled ts (start now) (record { quiet = refl; chunked = tt })
