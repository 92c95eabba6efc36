-- ===== src/OverflowQueue/System/Accounts.antt =====
-- The counters and the bound of overflow_queue.py under every interleaving.
use ha_timescaledb_recorder.Prelude.{
  ℕ, ◌+◌, ◌≤◌, ◌<◌, ◌≡◌, Bool, true, false, Option, none, some, List, [], ◌∷◌, arith, length,
  length-append, refl,
}
use ha_timescaledb_recorder.OverflowQueue.{
  try_put, settle, get, clear_and_reset_overflow, get_and_reset_peak,
}
use ha_timescaledb_recorder.OverflowQueue.System.{
  Event, attempt, account, consume, clear, poll_peak, System, start, begin, finish, step, run,
}

abbrev pub unsettled_drop : Option Bool → ℕ
unsettled_drop none = 0
unsettled_drop (some true) = 0
unsettled_drop (some false) = 1

pub record IsAccounted {ℓ} {A : Type ℓ} (s : System A) : Type 0 where
  pub bounded : 0 < s.queue.maxsize → length s.queue.items ≤ s.queue.maxsize
  pub peak_bounded : 0 < s.queue.maxsize → s.queue.peak_size ≤ s.queue.maxsize
  pub flag_up : s.queue.overflowed ≡ true → 0 < s.queue.dropped
  pub flag_down : s.queue.overflowed ≡ false → s.queue.dropped ≡ 0
  pub dropped_le : s.queue.dropped ≤ s.queue.total_dropped
  pub counted : s.attempts ≡ length s.accepted + s.queue.total_dropped + unsettled_drop s.pending

module _ {ℓ} {A : Type ℓ} where
  pub start-IsAccounted : (size : ℕ) → IsAccounted (start {A = A} size)
  unfolding start
  start-IsAccounted size = ground arith

  begin-IsAccounted :
      (p : Option Bool) (a : A) (s : System A)
      → s.pending ≡ p
      → IsAccounted s
      → IsAccounted (begin p a s)
  unfolding try_put
  begin-IsAccounted (some p) a s e h = h
  begin-IsAccounted none a s e h =
      ground (arith, length-append s.queue.items (a ∷ []), length-append s.accepted (a ∷ []))

  finish-IsAccounted :
      (p : Option Bool) (s : System A) → s.pending ≡ p → IsAccounted s → IsAccounted (finish p s)
  unfolding settle
  finish-IsAccounted none s e h = h
  finish-IsAccounted (some true) s e h = ground arith
  finish-IsAccounted (some false) s e h = ground arith

  pub step-IsAccounted : (s : System A) (e : Event A) → IsAccounted s → IsAccounted (step s e)
  unfolding step get clear_and_reset_overflow get_and_reset_peak
  step-IsAccounted s (attempt a) h = begin-IsAccounted s.pending a s refl h
  step-IsAccounted s account h = finish-IsAccounted s.pending s refl h
  step-IsAccounted s consume h = ground arith
  step-IsAccounted s clear h = ground arith
  step-IsAccounted s poll_peak h = ground arith

  run-IsAccounted : (es : List (Event A)) (s : System A) → IsAccounted s → IsAccounted (run s es)
  unfolding run
  run-IsAccounted [] s h = h
  run-IsAccounted (e ∷ es) s h = run-IsAccounted es (step s e) (step-IsAccounted s e h)

  -- Whatever the producer, the consumer, the clearing and the polling do, in any order: a bounded
  -- queue and its reported peak stay within the bound, the overflow flag is up exactly while drops
  -- since the last reset are counted, and each attempt is accepted or counted as a drop.
  pub run_accounts : (size : ℕ) (es : List (Event A)) → IsAccounted (run (start size) es)
  run_accounts size es = run-IsAccounted es (start size) (start-IsAccounted size)
