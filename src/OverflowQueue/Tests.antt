-- ===== src/OverflowQueue/Tests.antt =====
-- Runs of the live queue.
use ha_timescaledb_recorder.Prelude.{ℕ, ◌≡◌, refl, List, [], ◌∷◌, ◌++◌}
use ha_timescaledb_recorder.OverflowQueue.{
  OverflowQueue, init, put_nowait, clear_and_reset_overflow, get_and_reset_peak,
}
use ha_timescaledb_recorder.OverflowQueue.System.{
  Event, attempt, account, consume, clear, poll_peak, start, run,
}
use ha_timescaledb_recorder.OverflowQueue.System.Accounts.{IsAccounted, run_accounts}
use ha_timescaledb_recorder.OverflowQueue.System.Fifo.{run_fifo}

abbrev three_puts : OverflowQueue ℕ
three_puts = put_nowait 7 (put_nowait 6 (put_nowait 5 (init 2)))

three_puts_items : three_puts.items ≡ 5 ∷ 6 ∷ []
unfolding put_nowait init
three_puts_items = refl

three_puts_dropped : (clear_and_reset_overflow three_puts).0 ≡ 1
unfolding put_nowait init clear_and_reset_overflow
three_puts_dropped = refl

three_puts_peak : (get_and_reset_peak three_puts).0 ≡ 2
unfolding put_nowait init get_and_reset_peak
three_puts_peak = refl

abbrev race : List (Event ℕ)
race =
    attempt 5
    ∷ account
    ∷ attempt 6
    ∷ consume
    ∷ clear
    ∷ account
    ∷ attempt 7
    ∷ attempt 8
    ∷ poll_peak
    ∷ account
    ∷ consume
    ∷ []

run_accounts_example : IsAccounted (run (start 1) race)
run_accounts_example = run_accounts 1 race

run_fifo_example :
    (run (start 1) race).removed ++ (run (start 1) race).queue.items ≡ (run (start 1) race).accepted
run_fifo_example = run_fifo 1 race
