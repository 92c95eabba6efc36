-- ===== src/StatesWorker/Isolation/Tests.antt =====
-- Chunks with bad rows.
use ha_timescaledb_recorder.Prelude.{
  ℕ, ◌≡◌, refl, List, [], ◌∷◌, false, not, none, some, String, leb, if◌then◌else◌, ◌==◌, ◌⊎◌,
  Bool-cases, inl, inr,
}
use ha_timescaledb_recorder.StatesWorker.{StateRow}
use ha_timescaledb_recorder.StatesWorker.Isolation.{
  landed, transient, rejected, Database, enumerate, insert_rest, insert_rows_individually,
  poison_probe_rows,
}
use ha_timescaledb_recorder.StatesWorker.Isolation.Breaker.{AllFail, new_entities, breaker}

abbrev of : String → StateRow ℕ
of id = record { entity_id = id; last_updated = 1; content = 0 }

-- two rows of one entity among five entities
abbrev mixed : List (StateRow ℕ)
mixed = of "a" ∷ of "b" ∷ of "a" ∷ of "c" ∷ of "d" ∷ of "e" ∷ []

-- the database refuses the row at place 0, and only that
abbrev one_bad : Database ℕ
one_bad = record {
  probe = λ r. if r.0 == 0 then rejected else landed;
  takes = λ r. not (r.0 == 0);
  stop_at_probe = λ r. false;
  stop_at_row = λ r. false;
}

abbrev all_bad : Database ℕ
all_bad = record {
  probe = λ r. if r.0 == 1 then transient else rejected;
  takes = λ r. false;
  stop_at_probe = λ r. false;
  stop_at_row = λ r. false;
}

all_bad-AllFail : AllFail all_bad
unfolding AllFail
all_bad-AllFail (i, r) = by_place i
  where
    by_place :
        (i : ℕ)
        → (all_bad.probe (i, r) ≡ rejected ⊎ all_bad.probe (i, r) ≡ transient) × (false ≡ false)
    by_place i = elim (Bool-cases (i == 1)) [
      | inl y ↦ (inr (λ j. if y j then transient else rejected), refl)
      | inr n ↦ (inl (λ j. if n j then transient else rejected), refl)
    ]

breaker_example : insert_rows_individually all_bad mixed ≡ (
    if leb poison_probe_rows (new_entities [] (enumerate 0 mixed))
    then none
    else some (insert_rest all_bad none (enumerate 0 mixed)))
breaker_example = breaker all_bad mixed all_bad-AllFail
