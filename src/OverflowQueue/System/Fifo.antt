-- ===== src/OverflowQueue/System/Fifo.antt =====
-- The live queue of overflow_queue.py is first in, first out, and gains and loses nothing unseen.
use ha_timescaledb_recorder.Prelude.{
  ℕ, ◌≡◌, refl, ◌∙◌, Bool, true, false, Option, none, some, List, [], ◌∷◌, ◌++◌, arith, ap,
  append-nil, append_assoc,
}
use ha_timescaledb_recorder.OverflowQueue.{
  OverflowQueue, try_put, settle, get, take_front, clear_and_reset_overflow, get_and_reset_peak,
}
use ha_timescaledb_recorder.OverflowQueue.System.{
  Event, attempt, account, consume, clear, poll_peak, System, start, begin, finish, note_removed,
  step, run,
}

module _ {ℓ} {A : Type ℓ} where
  abbrev IsFifo : System A → Type ℓ
  IsFifo s = s.removed ++ s.queue.items ≡ s.accepted

  begin-IsFifo : (p : Option Bool) (a : A) (s : System A) → IsFifo s → IsFifo (begin p a s)
  unfolding try_put
  begin-IsFifo (some p) a s h = h
  begin-IsFifo none a s h = ground (arith, append_assoc s.removed s.queue.items (a ∷ []))

  finish-IsFifo : (p : Option Bool) (s : System A) → IsFifo s → IsFifo (finish p s)
  unfolding settle
  finish-IsFifo none s h = h
  finish-IsFifo (some true) s h = h
  finish-IsFifo (some false) s h = h

  removed-take_front :
      (q : OverflowQueue A) (l r : List A)
      → q.items ≡ l
      → let (o, q') = take_front q l in note_removed o r ++ q'.items ≡ r ++ l
  removed-take_front q [] r e = ap (◌++◌ r) e
  removed-take_front q (a ∷ l) r e = append_assoc r (a ∷ []) l

  pub step-IsFifo : (s : System A) (e : Event A) → IsFifo s → IsFifo (step s e)
  unfolding step get clear_and_reset_overflow get_and_reset_peak
  step-IsFifo s (attempt a) h = begin-IsFifo s.pending a s h
  step-IsFifo s account h = finish-IsFifo s.pending s h
  step-IsFifo s consume h = removed-take_front s.queue s.queue.items s.removed refl ∙ h
  step-IsFifo s clear h = append-nil (s.removed ++ s.queue.items) ∙ h
  step-IsFifo s poll_peak h = h

  run-IsFifo : (es : List (Event A)) (s : System A) → IsFifo s → IsFifo (run s es)
  unfolding run
  run-IsFifo [] s h = h
  run-IsFifo (e ∷ es) s h = run-IsFifo es (step s e) (step-IsFifo s e h)

  -- In every interleaving, the items taken or cleared so far, in their order, followed by the items
  -- in the queue, are exactly the accepted items in the order of acceptance.
  pub run_fifo :
      (size : ℕ) (es : List (Event A))
      → let s = run (start size) es in s.removed ++ s.queue.items ≡ s.accepted
  unfolding start
  run_fifo size es = run-IsFifo es (start size) refl
