-- ===== src/Retry/Giving.antt =====
-- When the wrapper of retry.py hands an input to `on_poison`.
use native.Mathlib.Numerals.{add-one}
use ha_timescaledb_recorder.Prelude.{
  ℕ, zero, suc, ◌+◌, ◌≤◌, ◌≡◌, refl, Bool, true, false, Option, none, some, List, [], ◌∷◌, arith,
  inl, inr, Bool-cases, leb,
}
use ha_timescaledb_recorder.Retry.Errors.{Error, is_transient}
use ha_timescaledb_recorder.Retry.{
  Config, on_poison, State, initial, Poison, gives, not_poison, raises, Attempt, success, failure,
  Outcome, returned, poisoned, raised, interrupted, waiting, Ended, call, or_now, record_failure,
  poison_due, veto, notify, sustained, keep_trying, elapsed, ask_poison, on_failure, round, go_on,
  run,
}

module _ (c : Config) where
  poison_attempts-notify : (s : State) → (notify c s).poison_attempts ≡ s.poison_attempts
  unfolding notify
  poison_attempts-notify s = ground arith

  first_poison_ts-notify : (s : State) → (notify c s).first_poison_ts ≡ s.first_poison_ts
  unfolding notify
  first_poison_ts-notify s = ground arith

  poison_attempts-sustained :
      (now : ℕ) (s : State) → (sustained c now s).poison_attempts ≡ s.poison_attempts
  unfolding sustained
  poison_attempts-sustained now s = ground arith

  first_poison_ts-sustained :
      (now : ℕ) (s : State) → (sustained c now s).first_poison_ts ≡ s.first_poison_ts
  unfolding sustained
  first_poison_ts-sustained now s = ground arith

  poison_due-enough :
      (now : ℕ) (s : State)
      → poison_due c now s ≡ true
      → leb c.poison_max_attempts s.poison_attempts ≡ true
  unfolding poison_due
  poison_due-enough now s h = ground arith

  poison_due-lasted :
      (now : ℕ) (s : State)
      → poison_due c now s ≡ true
      → elapsed s.first_poison_ts now c.poison_min_seconds ≡ true
  unfolding poison_due
  poison_due-lasted now s h = ground arith

module _ {A : Type 0} where
  -- The newest `k` attempts are all failures with an error that is not transient, the oldest of them
  -- at the time `t`.
  abbrev pub Spans : ℕ → ℕ → List (Attempt A) → Type 0
  Spans t (suc zero) (failure e now p stop ∷ past) = (is_transient e ≡ false) × (t ≡ now)
  Spans t (suc (suc k)) (failure e now p stop ∷ past) =
      (is_transient e ≡ false) × Spans t (suc k) past
  Spans t _ _ = ⊥

  abbrev PoisonRun : ℕ → Option ℕ → List (Attempt A) → Type 0
  PoisonRun zero none past = Unit
  PoisonRun (suc k) (some t) past = Spans t (suc k) past
  PoisonRun _ _ past = ⊥

  -- the attempts that a run makes, the newest first, on top of those made before
  abbrev go_past :
      (State → List (Attempt A) → List (Attempt A)) → Ended A → List (Attempt A) → List (Attempt A)
  go_past rest r past = elim r.outcome [ waiting b ↦ rest r.state past | other ↦ past ]

  pub tried : Config → List (Attempt A) → State → List (Attempt A) → List (Attempt A)
  tried c [] s past = past
  tried c (a ∷ rest) s past = go_past (tried c rest) (round c a s) (a ∷ past)

  -- the newest attempt is a failure at the time `now`
  abbrev pub Newest : ℕ → List (Attempt A) → Type 0
  Newest now (failure e t p stop ∷ past) = t ≡ now
  Newest now _ = ⊥

  -- The reason to give up: the newest `count` attempts, at least `poison_max_attempts` of them, all
  -- failed with an error that is not transient, and they span at least `poison_min_seconds`.
  pub record GaveUp (c : Config) (past : List (Attempt A)) : Type 0 where
    pub count : ℕ
    pub since : ℕ
    pub now : ℕ
    pub spans : Spans since count past
    pub newest : Newest now past
    pub enough : c.poison_max_attempts ≤ count
    pub lasted : since + c.poison_min_seconds ≤ now

  PoisonRun-failure :
      (k : ℕ) (o : Option ℕ) (past : List (Attempt A)) (e : Error) (now : ℕ) (p : Poison A)
      (stop : Bool)
      → is_transient e ≡ false
      → PoisonRun k o past
      → PoisonRun (suc k) (or_now o now) (failure e now p stop ∷ past)
  PoisonRun-failure zero none past e now p stop t h = (t, refl)
  PoisonRun-failure zero (some s) past e now p stop t h = absurd h
  PoisonRun-failure (suc k) none past e now p stop t h = absurd h
  PoisonRun-failure (suc k) (some s) past e now p stop t h = (t, h)

  abbrev Tracks : State → List (Attempt A) → Type 0
  Tracks s past = PoisonRun s.poison_attempts s.first_poison_ts past

  record_failure-Tracks :
      (c : Config) (e : Error) (now : ℕ) (p : Poison A) (stop : Bool) (s : State)
      (past : List (Attempt A))
      → Tracks s past
      → Tracks (record_failure c e now s) (failure e now p stop ∷ past)
  unfolding record_failure
  record_failure-Tracks c e now p stop s past h = elim (Bool-cases (is_transient e)) [
    | inl t ↦ rw t tt
    | inr t ↦
        rw (t, add-one)
          (PoisonRun-failure s.poison_attempts s.first_poison_ts past e now p stop t h)
  ]

  notify-Tracks :
      (c : Config) (s : State) (past : List (Attempt A)) → Tracks s past → Tracks (notify c s) past
  notify-Tracks c s past h = rw (poison_attempts-notify, first_poison_ts-notify) h

  sustained-Tracks :
      (c : Config) (now : ℕ) (s : State) (past : List (Attempt A))
      → Tracks s past
      → Tracks (sustained c now s) past
  sustained-Tracks c now s past h = rw (poison_attempts-sustained, first_poison_ts-sustained) h

  -- what a round leaves for the next one, or why it gave up
  abbrev Explained : Config → Outcome A → State → List (Attempt A) → Type 0
  Explained c (waiting b) s past = Tracks s past
  Explained c (poisoned r) s past = GaveUp c past
  Explained c (raised e) s past = GaveUp c past
  Explained c _ s past = Unit

  explain_keep :
      (c : Config) (now : ℕ) (stop : Bool) (s : State) (past : List (Attempt A))
      → Tracks s past
      → let r = keep_trying {A = A} c now stop s in Explained c r.outcome r.state past
  unfolding keep_trying
  explain_keep c now true s past h = tt
  explain_keep c now false s past h =
      sustained-Tracks c now (notify c s) past (notify-Tracks c s past h)

  explain_ask :
      (c : Config) (now : ℕ) (stop : Bool) (p : Poison A) (s : State) (past : List (Attempt A))
      → GaveUp c past
      → let r = ask_poison c now stop p s in Explained c r.outcome r.state past
  unfolding veto
  explain_ask c now stop (gives a) s past g = g
  explain_ask c now stop not_poison s past g =
      explain_keep c now stop (veto (call true on_poison s)) past tt
  explain_ask c now stop (raises e) s past g = g

  due-GaveUp :
      (c : Config) (now : ℕ) (k : ℕ) (o : Option ℕ) (past : List (Attempt A))
      → PoisonRun k o past
      → Newest now past
      → leb c.poison_max_attempts k ≡ true
      → elapsed o now c.poison_min_seconds ≡ true
      → GaveUp c past
  due-GaveUp c now k none past h n enough lasted = cc
  due-GaveUp c now zero (some t) past h n enough lasted = absurd h
  due-GaveUp c now (suc k) (some t) past h n enough lasted = record {
    count = suc k;
    since = t;
    now = now;
    spans = h;
    newest = n;
    enough = ground arith;
    lasted = ground arith;
  }

  explain_failure :
      (c : Config) (e : Error) (now : ℕ) (p : Poison A) (stop : Bool) (s : State)
      (past : List (Attempt A))
      → Tracks s past
      → let r = on_failure c e now p stop s in
        Explained c r.outcome r.state (failure e now p stop ∷ past)
  unfolding on_failure
  explain_failure c e now p stop s past h =
      let t = record_failure c e now s in
      let h' = record_failure-Tracks c e now p stop s past h in
      elim (Bool-cases (poison_due c now t)) [
        | inl due ↦ rw due (
            explain_ask c now stop p t (failure e now p stop ∷ past) (
              due-GaveUp c now t.poison_attempts t.first_poison_ts (failure e now p stop ∷ past) h'
                refl (poison_due-enough c now t due) (poison_due-lasted c now t due)))
        | inr later ↦ rw later (explain_keep c now stop t (failure e now p stop ∷ past) h')
      ]

  explain_round :
      (c : Config) (a : Attempt A) (s : State) (past : List (Attempt A))
      → Tracks s past
      → let r = round c a s in Explained c r.outcome r.state (a ∷ past)
  unfolding round
  explain_round c (success a) s past h = tt
  explain_round c (failure e now p stop) s past h = explain_failure c e now p stop s past h

  abbrev pub EndsExplained : Config → Outcome A → List (Attempt A) → Type 0
  EndsExplained c (poisoned r) past = GaveUp c past
  EndsExplained c (raised e) past = GaveUp c past
  EndsExplained c _ past = Unit

  explain_rest :
      (c : Config) (rest : List (Attempt A)) (o : Outcome A) (s : State) (past : List (Attempt A))
      → ((t : State) → Tracks t past → EndsExplained c (run c rest t).outcome (tried c rest t past))
      → Explained c o s past
      → let r : Ended A = record { outcome = o; state = s } in
        EndsExplained c (go_on (run c rest) r).outcome (go_past (tried c rest) r past)
  explain_rest c rest (returned a) s past ih x = tt
  explain_rest c rest (poisoned a) s past ih x = x
  explain_rest c rest (raised e) s past ih x = x
  explain_rest c rest interrupted s past ih x = tt
  explain_rest c rest (waiting b) s past ih x = ih s x

  explain_run :
      (c : Config) (tries : List (Attempt A)) (s : State) (past : List (Attempt A))
      → Tracks s past
      → EndsExplained c (run c tries s).outcome (tried c tries s past)
  unfolding run tried
  explain_run c [] s past h = tt
  explain_run c (a ∷ rest) s past h =
      let r = round c a s in
      explain_rest c rest r.outcome r.state (a ∷ past) (λ t. explain_run c rest t (a ∷ past))
        (explain_round c a s past h)

  -- When a call of the wrapper ends by `on_poison`, with its result or its error, then the newest
  -- attempts, at least `poison_max_attempts` of them, all failed with errors that are not transient,
  -- the last of them at least `poison_min_seconds` after the first.
  pub gives_up_on_poison :
      (c : Config) (tries : List (Attempt A))
      → EndsExplained c (run c tries initial).outcome (tried c tries initial [])
  gives_up_on_poison c tries = explain_run c tries initial [] tt
