-- ===== src/Backfill/Tests.antt =====
-- A cycle of the orchestrator.
use ha_timescaledb_recorder.Prelude.{ℕ, ◌≡◌, refl, ◌-◌, max, true, some, [], ◌∷◌, is_empty, false}
use ha_timescaledb_recorder.Backfill.{
  Environment, quiet, cycle, late_arrival_grace, entities_of, fetched, done,
}
use ha_timescaledb_recorder.Backfill.Covered.{Covers, Calm, begins, cycle_covers}

-- A watermark of 20 minutes, a recorder that begins at 14 minutes, and a clearing at 22 minutes.
abbrev outage : Environment ℕ
outage = record {
  t_clear = 1320000000;
  watermark = some 1200000000;
  oldest_ts = some 840000000;
  known_entities = "sun.sun" ∷ [];
  live_entities = [];
  entity_filter = λ id. true;
  signal = λ start. quiet;
  fetch_slice = λ es start end. 0;
}

outage_puts :
    (cycle outage).puts
    ≡ fetched 840000000 1140000000 0 ∷ fetched 1140000000 1320000000 0 ∷ done ∷ []
unfolding cycle
outage_puts = refl

outage_gap :
    (cycle outage).gap
    ≡ some (record { window_start = 600000000; window_end = 840000000; duration_minutes = 4 })
unfolding cycle
outage_gap = refl

outage-Calm : Calm outage
unfolding Calm
outage-Calm start = refl

outage_selected : is_empty (entities_of outage) ≡ false
unfolding entities_of
outage_selected = refl

cycle_covers_example :
    Covers outage
      (max (1200000000 - late_arrival_grace) (begins outage.oldest_ts))
      (cycle outage).puts
cycle_covers_example = cycle_covers outage 1200000000 outage-Calm refl outage_selected
