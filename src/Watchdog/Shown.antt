-- ===== src/Watchdog/Shown.antt =====
-- The issue that watchdog.py shows, after any polls.
use ha_timescaledb_recorder.Prelude.{
  ℕ, ◌≡◌, refl, sym, ap, ◌∙◌, List, [], ◌∷◌, ◌++◌, true, false, ◌||◌, Option, none, some, arith,
  is_some, if◌then◌else◌, Bool-cases, inl, inr,
}
use ha_timescaledb_recorder.Watchdog.{
  Component, states_worker, meta_worker, Details, Watch, Poll, same, tracked, without, Tracked,
  note_component, issue, found, check_stalls, run, start,
}

tracked-snoc :
    (c d : Component) (x : Details) (n : ℕ) (t : List (Component × Details × ℕ))
    → tracked c (t ++ (d, x, n) ∷ []) ≡ tracked c t || same c d
tracked-snoc c d x n [] = ground arith
tracked-snoc c d x n ((e, y, m) ∷ t) = ground (arith, tracked-snoc c d x n t)

tracked-without :
    (c : Component) (t : List (Component × Details × ℕ)) → tracked c (without c t) ≡ false
tracked-without c [] = refl
tracked-without c ((e, y, m) ∷ t) = ground (arith, tracked-without c t)

-- Two components of the two are not the same.
tracked-without_other :
    (t : List (Component × Details × ℕ))
    → tracked states_worker (without meta_worker t) ≡ tracked states_worker t
tracked-without_other [] = refl
tracked-without_other ((states_worker, y, m) ∷ t) = refl
tracked-without_other ((meta_worker, y, m) ∷ t) = tracked-without_other t

same_refl : (c : Component) → same c c ≡ true
same_refl states_worker = refl
same_refl meta_worker = refl

-- A component is tracked after its turn exactly if it was found stalled.
tracked-note_component :
    (c : Component) (o : Option Details) (now : ℕ) (t : Tracked)
    → tracked c (note_component c o now t).0 ≡ is_some o
unfolding note_component
tracked-note_component c none now (t, b) = ground (arith, tracked-without c t)
tracked-note_component c (some d) now (t, b) = ground (arith, tracked-snoc c c d now t, same_refl c)

kept-note_component :
    (o : Option Details) (now : ℕ) (t : Tracked)
    → tracked states_worker (note_component meta_worker o now t).0 ≡ tracked states_worker t.0
unfolding note_component
kept-note_component none now (t, b) = ground (arith, tracked-without_other t)
kept-note_component (some d) now (t, b) =
    ground (arith, tracked-snoc states_worker meta_worker d now t)

-- what is not marked as changed is not changed
changed-note_component :
    (c : Component) (o : Option Details) (now : ℕ) (before : List (Component × Details × ℕ))
    (t : Tracked)
    → (t.1 ≡ false → t.0 ≡ before)
    → (note_component c o now t).1 ≡ false
    → (note_component c o now t).0 ≡ before
unfolding note_component
changed-note_component c none now before (t, b) h = ground (arith, h)
changed-note_component c (some d) now before (t, b) h = ground (arith, h)

abbrev IsShown : Watch → Type 0
IsShown s = s.shown ≡ issue s.tracker.stalled

check_stalls-IsShown : (p : Poll) (s : Watch) → IsShown s → IsShown (check_stalls p s)
unfolding check_stalls
check_stalls-IsShown p s h =
    let one = note_component states_worker (found p s p.states) p.now (s.tracker.stalled, false) in
    let two = note_component meta_worker (found p s p.meta) p.now one in
    let same_set : two.1 ≡ false → two.0 ≡ s.tracker.stalled =
      changed-note_component meta_worker (found p s p.meta) p.now s.tracker.stalled one (
        changed-note_component states_worker (found p s p.states) p.now s.tracker.stalled
          (s.tracker.stalled, false) (λ e. refl)) in
    elim (Bool-cases two.1) [
      | inl y ↦ ap (λ b. if b then issue two.0 else s.shown) y
      | inr f ↦ ap (λ b. if b then issue two.0 else s.shown) f ∙ (h ∙ ap issue (sym (same_set f)))
    ]

run-IsShown : (ps : List Poll) (s : Watch) → IsShown s → IsShown (run ps s)
unfolding run
run-IsShown [] s h = h
run-IsShown (p ∷ ps) s h = run-IsShown ps (check_stalls p s) (check_stalls-IsShown p s h)

-- What a poll leaves: the issue lists the tracked stalls, and is absent if there is none; and a worker
-- is tracked exactly if this poll finds it stalled.
pub record IsCurrent (p : Poll) (s : Watch) : Type 0 where
  pub shown : (check_stalls p s).shown ≡ issue (check_stalls p s).tracker.stalled
  pub states :
      tracked states_worker (check_stalls p s).tracker.stalled ≡ is_some (found p s p.states)
  pub meta : tracked meta_worker (check_stalls p s).tracker.stalled ≡ is_some (found p s p.meta)

-- After any polls and one more, the issue shown lists the details of the workers that are tracked as
-- stalled and is absent if there is none, though it is rewritten only when the set changes; and each
-- worker is tracked exactly if the last poll found it stalled.
pub run-IsCurrent : (ps : List Poll) (p : Poll) → IsCurrent p (run ps start)
run-IsCurrent ps p =
    let s = run ps start in
    record {
      shown = check_stalls-IsShown p s (run-IsShown ps start refl);
      states =
          unfold check_stalls in
          kept-note_component (found p s p.meta) p.now _
          ∙ tracked-note_component states_worker (found p s p.states) p.now _;
      meta = unfold check_stalls in tracked-note_component meta_worker (found p s p.meta) p.now _;
    }
