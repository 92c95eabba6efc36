-- ===== src/Retry/Persisting.antt =====
-- The wrapper of retry.py on long and short outages, and on inputs that are poison.
use ha_timescaledb_recorder.Prelude.{
  ℕ, ◌+◌, ◌≤◌, ◌<◌, ◌≡◌, ◌⊎◌, refl, ◌∙◌, true, false, none, some, List, [], ◌∷◌, ◌++◌, arith, inl,
  inr, All,
}
use ha_timescaledb_recorder.Retry.Errors.{Error, is_transient}
use ha_timescaledb_recorder.Retry.Hooks.{sustains, sustains-append, recoveries, recoveries-append}
use ha_timescaledb_recorder.Retry.{
  Config, notify_stall, on_transient, on_sustained_fail, State, initial, Poison, Attempt, success,
  failure, returned, record_failure, poison_due, notify, sustained, recover, keep_trying,
  on_failure, round, run,
}

module _ (c : Config) where
  not_due :
      (e : Error) (now : ℕ) (s : State)
      → (c.has_on_poison ≡ false) ⊎ (is_transient e ≡ true)
      → poison_due c now (record_failure c e now s) ≡ false
  unfolding poison_due record_failure
  not_due e now s (inl never) = rw never refl
  not_due e now s (inr t) = ground arith

  -- the state after a failure that is tried again
  abbrev next : Error → ℕ → State → State
  next e now s = sustained c now (notify c (record_failure c e now s))

  attempts-next : (e : Error) (now : ℕ) (s : State) → (next e now s).attempts ≡ s.attempts + 1
  unfolding sustained notify record_failure
  attempts-next e now s = ground arith

  stalled-next :
      (e : Error) (now : ℕ) (s : State)
      → s.stalled ≡ false
      → s.attempts + 1 < c.stall_threshold
      → (next e now s).stalled ≡ false
  unfolding sustained notify record_failure
  stalled-next e now s h few = ground arith

  recoveries-next :
      (e : Error) (now : ℕ) (s : State) → recoveries (next e now s).calls ≡ recoveries s.calls
  unfolding sustained notify record_failure
  recoveries-next e now s = ground (
    arith,
    recoveries-append s.calls (on_transient ∷ []),
    recoveries-append (record_failure c e now s).calls (notify_stall (s.attempts + 1) ∷ []),
    recoveries-append (notify c (record_failure c e now s)).calls (on_sustained_fail ∷ []),
  )

  sustained_notified-next :
      (e : Error) (now : ℕ) (s : State)
      → s.sustained_notified ≡ false
      → s.first_fail_ts ≡ none
      → 0 < c.sustained_fail_seconds
      → ((next e now s).sustained_notified ≡ false) × ((next e now s).first_fail_ts ≡ some now)
  unfolding sustained notify record_failure
  sustained_notified-next e now s h first pos = (ground arith, ground arith)

  sustains-next :
      (e : Error) (start now : ℕ) (s : State)
      → s.sustained_notified ≡ false
      → s.first_fail_ts ≡ some start
      → c.has_on_sustained_fail ≡ true
      → start + c.sustained_fail_seconds ≤ now
      → 1 ≤ sustains (next e now s).calls
  unfolding sustained notify record_failure
  sustains-next e start now s h first on long =
      ground (
        arith,
        sustains-append (notify c (record_failure c e now s)).calls (on_sustained_fail ∷ []),
      )

module _ {A : Type 0} (c : Config) where
  -- A failure after which the wrapper must try again.
  abbrev pub WillRetry : Attempt A → Type 0
  WillRetry (success a) = ⊥
  WillRetry (failure e now p stop) =
      (stop ≡ false) × ((c.has_on_poison ≡ false) ⊎ (is_transient e ≡ true))

  -- However long the outage: if each failure is transient, or there is no `on_poison`, and the stop
  -- event is not set, then the wrapper goes on until the function succeeds, and returns its result.
  pub outlasts :
      (fails : List (Attempt A)) (a : A) (s : State)
      → All WillRetry fails
      → (run c (fails ++ success a ∷ []) s).outcome ≡ returned a
  unfolding run round on_failure keep_trying
  outlasts [] a s h = refl
  outlasts (success b ∷ fails) a s h = absurd h.0
  outlasts (failure e now p true ∷ fails) a s h = cc (h.0.0)
  outlasts (failure e now p false ∷ fails) a s h =
      rw (not_due c e now s h.0.1) (outlasts fails a _ h.1)

  retry_step :
      (e : Error) (now : ℕ) (p : Poison A) (rest : List (Attempt A)) (s : State)
      → (c.has_on_poison ≡ false) ⊎ (is_transient e ≡ true)
      → run c (failure e now p false ∷ rest) s ≡ run c rest (next c e now s)
  unfolding run round on_failure keep_trying
  retry_step e now p rest s h = rw (not_due c e now s h) refl

  calls-success :
      (a : A) (s : State)
      → s.stalled ≡ false
      → run c (success a ∷ []) s ≡ record {
        outcome = returned a;
        state = record s {
          stalled = false;
          notified = false;
          sustained_notified = false;
          first_fail_ts = none;
          attempts = 0;
        };
      }
  unfolding run round recover
  calls-success a s h = ground arith

  -- Two transient failures that lie `sustained_fail_seconds` apart, then a success, with a stall
  -- threshold above two: the sustained failure is announced, the function's result is returned, and
  -- no recovery hook takes the announcement back.
  pub short_outage_not_cleared :
      (e₁ e₂ : Error) (t₁ t₂ : ℕ) (p₁ p₂ : Poison A) (a : A)
      → is_transient e₁ ≡ true
      → is_transient e₂ ≡ true
      → c.has_on_sustained_fail ≡ true
      → 0 < c.sustained_fail_seconds
      → t₁ + c.sustained_fail_seconds ≤ t₂
      → 2 < c.stall_threshold
      → let r = run c (failure e₁ t₁ p₁ false ∷ failure e₂ t₂ p₂ false ∷ success a ∷ []) initial in
        (r.outcome ≡ returned a) × (1 ≤ sustains r.state.calls) × (recoveries r.state.calls ≡ 0)
  short_outage_not_cleared e₁ e₂ t₁ t₂ p₁ p₂ a h₁ h₂ on pos long few =
      let s₁ = next c e₁ t₁ initial in
      let s₂ = next c e₂ t₂ s₁ in
      let first = sustained_notified-next c e₁ t₁ initial refl refl pos in
      let calm : s₁.stalled ≡ false = stalled-next c e₁ t₁ initial refl (omega arith) in
      let calm' : s₂.stalled ≡ false =
        stalled-next c e₂ t₂ s₁ calm (omega (arith, attempts-next c e₁ t₁ initial)) in
      rw
        (
          retry_step e₁ t₁ p₁ _ initial (inr h₁),
          retry_step e₂ t₂ p₂ _ s₁ (inr h₂),
          calls-success a s₂ calm',
        )
        (
          refl,
          sustains-next c e₂ t₁ t₂ s₁ first.0 first.1 on long,
          recoveries-next c e₂ t₂ s₁ ∙ recoveries-next c e₁ t₁ initial,
        )
