-- ===== src/Retry/Hooks.antt =====
-- How often the wrapper of retry.py calls its hooks.
use ha_timescaledb_recorder.Prelude.{
  ℕ, suc, ◌+◌, ◌≤◌, ◌≡◌, Bool, true, false, ◌&&◌, List, [], ◌∷◌, ◌++◌, arith, inl, inr, Bool-cases,
}
use ha_timescaledb_recorder.Retry.Errors.{Error}
use ha_timescaledb_recorder.Retry.{
  Config, Hook, on_transient, notify_stall, on_recovery, on_sustained_fail, on_poison, State,
  initial, Poison, gives, not_poison, raises, Attempt, success, failure, Outcome, returned,
  poisoned, raised, interrupted, waiting, Ended, call, record_failure, poison_due, veto, notify,
  sustained, recover, keep_trying, ask_poison, on_failure, round, go_on, run,
}

abbrev pub stalls : List Hook → ℕ
stalls [] = 0
stalls (notify_stall n ∷ hs) = suc (stalls hs)
stalls (h ∷ hs) = stalls hs

abbrev pub sustains : List Hook → ℕ
sustains [] = 0
sustains (on_sustained_fail ∷ hs) = suc (sustains hs)
sustains (h ∷ hs) = sustains hs

abbrev pub recoveries : List Hook → ℕ
recoveries [] = 0
recoveries (on_recovery ∷ hs) = suc (recoveries hs)
recoveries (h ∷ hs) = recoveries hs

pub stalls-append : (hs gs : List Hook) → stalls (hs ++ gs) ≡ stalls hs + stalls gs
stalls-append [] gs = omega arith
stalls-append (notify_stall n ∷ hs) gs = omega (arith, stalls-append hs gs)
stalls-append (h ∷ hs) gs = stalls-append hs gs

pub sustains-append : (hs gs : List Hook) → sustains (hs ++ gs) ≡ sustains hs + sustains gs
sustains-append [] gs = omega arith
sustains-append (on_sustained_fail ∷ hs) gs = omega (arith, sustains-append hs gs)
sustains-append (h ∷ hs) gs = sustains-append hs gs

pub recoveries-append : (hs gs : List Hook) → recoveries (hs ++ gs) ≡ recoveries hs + recoveries gs
recoveries-append [] gs = omega arith
recoveries-append (on_recovery ∷ hs) gs = omega (arith, recoveries-append hs gs)
recoveries-append (h ∷ hs) gs = recoveries-append hs gs

abbrev pub one_if : Bool → ℕ
one_if true = 1
one_if false = 0

-- What holds between two rounds of the loop.
pub record IsCounted (c : Config) (s : State) : Type 0 where
  pub stall_once : stalls s.calls ≡ one_if (s.notified && c.has_notify_stall)
  pub sustain_once : sustains s.calls ≡ one_if s.sustained_notified
  pub no_recovery : recoveries s.calls ≡ 0
  pub same : s.stalled ≡ s.notified
  pub reached : s.notified ≡ true → c.stall_threshold ≤ s.attempts

module _ (c : Config) where
  record_failure-IsCounted :
      (e : Error) (now : ℕ) (s : State) → IsCounted c s → IsCounted c (record_failure c e now s)
  unfolding record_failure
  record_failure-IsCounted e now s h = ground (
    arith,
    stalls-append s.calls (on_transient ∷ []),
    sustains-append s.calls (on_transient ∷ []),
    recoveries-append s.calls (on_transient ∷ []),
  )

  veto-IsCounted : (s : State) → IsCounted c s → IsCounted c (veto (call true on_poison s))
  unfolding veto
  veto-IsCounted s h = ground (
    arith,
    stalls-append s.calls (on_poison ∷ []),
    sustains-append s.calls (on_poison ∷ []),
    recoveries-append s.calls (on_poison ∷ []),
  )

  notify-IsCounted : (s : State) → IsCounted c s → IsCounted c (notify c s)
  unfolding notify
  notify-IsCounted s h = ground (
    arith,
    stalls-append s.calls (notify_stall s.attempts ∷ []),
    sustains-append s.calls (notify_stall s.attempts ∷ []),
    recoveries-append s.calls (notify_stall s.attempts ∷ []),
  )

  sustained-IsCounted : (now : ℕ) (s : State) → IsCounted c s → IsCounted c (sustained c now s)
  unfolding sustained
  sustained-IsCounted now s h = ground (
    arith,
    stalls-append s.calls (on_sustained_fail ∷ []),
    sustains-append s.calls (on_sustained_fail ∷ []),
    recoveries-append s.calls (on_sustained_fail ∷ []),
  )

  pub record IsOnce (hs : List Hook) : Type 0 where
    pub stall : stalls hs ≤ 1
    pub sustain : sustains hs ≤ 1
    pub recovery : recoveries hs ≤ 1

  -- A stall that was announced is taken back when the run ends with a result, and only then.
  abbrev pub Settled : {A : Type 0} → Outcome A → List Hook → Type 0
  Settled (returned a) hs =
      c.has_notify_stall ≡ true → c.has_on_recovery ≡ true → recoveries hs ≡ stalls hs
  Settled (poisoned a) hs =
      c.has_notify_stall ≡ true → c.has_on_recovery ≡ true → recoveries hs ≡ stalls hs
  Settled (raised e) hs = recoveries hs ≡ 0
  Settled interrupted hs = recoveries hs ≡ 0
  Settled (waiting b) hs = recoveries hs ≡ 0

  abbrev pub Fits : {A : Type 0} → Ended A → Type 0
  Fits r = IsOnce r.state.calls × Settled r.outcome r.state.calls

  -- between two rounds, the counts hold as well
  abbrev Keeps : {A : Type 0} → Outcome A → State → Type 0
  Keeps (waiting b) s = IsCounted c s
  Keeps o s = Unit

  IsOnce-counted : (s : State) → IsCounted c s → IsOnce s.calls
  IsOnce-counted s h = ground arith

  IsOnce-recover : (s : State) → IsCounted c s → IsOnce (recover c s).calls
  unfolding recover
  IsOnce-recover s h = ground (
    arith,
    stalls-append s.calls (on_recovery ∷ []),
    sustains-append s.calls (on_recovery ∷ []),
    recoveries-append s.calls (on_recovery ∷ []),
  )

  recoveries-recover :
      (s : State)
      → IsCounted c s
      → c.has_notify_stall ≡ true
      → c.has_on_recovery ≡ true
      → recoveries (recover c s).calls ≡ stalls (recover c s).calls
  unfolding recover
  recoveries-recover s h p q = ground (
    arith,
    stalls-append s.calls (on_recovery ∷ []),
    recoveries-append s.calls (on_recovery ∷ []),
  )

  asked-IsCounted : (s : State) → IsCounted c s → IsCounted c (call true on_poison s)
  asked-IsCounted s h = ground (
    arith,
    stalls-append s.calls (on_poison ∷ []),
    sustains-append s.calls (on_poison ∷ []),
    recoveries-append s.calls (on_poison ∷ []),
  )

  abbrev Good : {A : Type 0} → Ended A → Type 0
  Good r = Fits r × Keeps r.outcome r.state

  keep_trying-Good :
      (A : Type 0) (now : ℕ) (stop : Bool) (s : State)
      → IsCounted c s
      → Good (keep_trying {A = A} c now stop s)
  unfolding keep_trying
  keep_trying-Good A now true s h =
      let k = sustained-IsCounted now (notify c s) (notify-IsCounted s h) in
      ((IsOnce-counted _ k, k.no_recovery), tt)
  keep_trying-Good A now false s h =
      let k = sustained-IsCounted now (notify c s) (notify-IsCounted s h) in
      ((IsOnce-counted _ k, k.no_recovery), k)

  initial-IsCounted : IsCounted c initial
  initial-IsCounted = ground arith

  module _ {A : Type 0} where
    ask_poison-Good :
        (now : ℕ) (stop : Bool) (p : Poison A) (s : State)
        → IsCounted c s
        → Good (ask_poison c now stop p s)
    ask_poison-Good now stop (gives a) s h =
        let k = asked-IsCounted s h in ((IsOnce-recover _ k, recoveries-recover _ k), tt)
    ask_poison-Good now stop not_poison s h = keep_trying-Good A now stop _ (veto-IsCounted s h)
    ask_poison-Good now stop (raises e) s h =
        let k = asked-IsCounted s h in ((IsOnce-counted _ k, k.no_recovery), tt)

    round-Good : (a : Attempt A) (s : State) → IsCounted c s → Good (round c a s)
    unfolding round on_failure
    round-Good (success a) s h = ((IsOnce-recover s h, recoveries-recover s h), tt)
    round-Good (failure e now p stop) s h =
        let t = record_failure c e now s in
        let k = record_failure-IsCounted e now s h in
        elim (Bool-cases (poison_due c now t)) [
          | inl due ↦ rw due (ask_poison-Good now stop p t k)
          | inr later ↦ rw later (keep_trying-Good A now stop t k)
        ]

    go_on-Fits :
        (rest : State → Ended A) (o : Outcome A) (s : State)
        → ((t : State) → IsCounted c t → Fits (rest t))
        → Good (record { outcome = o; state = s })
        → Fits (go_on rest (record { outcome = o; state = s }))
    go_on-Fits rest (returned a) s ih g = g.0
    go_on-Fits rest (poisoned a) s ih g = g.0
    go_on-Fits rest (raised e) s ih g = g.0
    go_on-Fits rest interrupted s ih g = g.0
    go_on-Fits rest (waiting b) s ih g = ih s g.1

    run-Fits : (tries : List (Attempt A)) (s : State) → IsCounted c s → Fits (run c tries s)
    unfolding run
    run-Fits [] s h = (IsOnce-counted s h, h.no_recovery)
    run-Fits (a ∷ rest) s h =
        let r = round c a s in
        go_on-Fits (run c rest) r.outcome r.state (run-Fits rest) (round-Good a s h)

    -- In one call of the wrapper, whatever its environment does: the stall, the sustained failure and
    -- the recovery are each announced at most once, and a recovery only when the call ends with a result
    -- of the function or of `on_poison`. Where both `notify_stall` and `on_recovery` are given, it is then
    -- announced exactly if the stall was.
    pub run_hooks : (tries : List (Attempt A)) → Fits (run c tries initial)
    run_hooks tries = run-Fits tries initial initial-IsCounted
