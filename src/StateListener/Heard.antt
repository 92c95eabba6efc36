-- ===== src/StateListener/Heard.antt =====
-- The live queue behind the calls of the state listener.
use ha_timescaledb_recorder.Prelude.{
  ℕ, zero, suc, ◌+◌, ◌-◌, ◌≤◌, ◌<◌, ◌≡◌, refl, sym, ap, ◌∙◌, subst, List, [], ◌∷◌, ◌++◌, Bool, true,
  false, ◌&&◌, arith, Option, none, some, String, ltb, leb, length, length-append, take,
  if◌then◌else◌, Bool-cases, inl, inr, append-nil, append_assoc,
}
use ha_timescaledb_recorder.OverflowQueue.{
  OverflowQueue, init, full, try_put, note_peak, note_drop, settle, put_nowait,
}
use ha_timescaledb_recorder.StateListener.{
  State, StateRow, from_state, Call, async_start, state_changed, stop, handle_state_changed, notify,
  StateListener, step, run,
}

-- what a queue with this bound keeps of the items that come; 0 is no bound
abbrev pub within : {A : Type 0} → ℕ → List A → List A
within n xs = if ltb 0 n then take n xs else xs

module _ {A : Type 0} where
  take_full :
      (n : ℕ) (xs : List A) (a : A) → n ≤ length (take n xs) → take n (xs ++ a ∷ []) ≡ take n xs
  take_full zero xs a le = refl
  take_full (suc n) [] a le = absurd (omega (arith, le))
  take_full (suc n) (x ∷ xs) a le = ap (λ ys. x ∷ ys) (take_full n xs a (omega (arith, le)))

  take_room :
      (n : ℕ) (xs : List A) (a : A)
      → length (take n xs) < n
      → take n (xs ++ a ∷ []) ≡ take n xs ++ a ∷ []
  take_room zero xs a lt = absurd (omega (arith, lt))
  take_room (suc zero) [] a lt = refl
  take_room (suc (suc n)) [] a lt = refl
  take_room (suc n) (x ∷ xs) a lt = ap (λ ys. x ∷ ys) (take_room n xs a (omega (arith, lt)))

  take_nil : (n : ℕ) → take {A = A} n [] ≡ []
  take_nil zero = refl
  take_nil (suc n) = refl

  within_nil : (n : ℕ) → within {A = A} n [] ≡ []
  within_nil n = elim (Bool-cases (ltb 0 n)) [
    | inl y ↦ (λ i. if y i then take n [] else []) ∙ take_nil n
    | inr m ↦ λ i. if m i then take n [] else []
  ]

  within_full :
      (n : ℕ) (xs : List A) (a : A)
      → (ltb 0 n && leb n (length (within n xs))) ≡ true
      → within n (xs ++ a ∷ []) ≡ within n xs
  within_full n xs a e =
      let bounded : ltb 0 n ≡ true = ground (arith, e) in
      let long = (λ i. ltb 0 n && leb n (length (if sym bounded i then take n xs else xs))) ∙ e in
      (λ i. if bounded i then take n (xs ++ a ∷ []) else xs ++ a ∷ [])
      ∙ take_full n xs a (ground (arith, long))
      ∙ (λ i. if sym bounded i then take n xs else xs)

  within_room :
      (n : ℕ) (xs : List A) (a : A)
      → (ltb 0 n && leb n (length (within n xs))) ≡ false
      → within n (xs ++ a ∷ []) ≡ within n xs ++ a ∷ []
  within_room n xs a e = elim (Bool-cases (ltb 0 n)) [
    | inl y ↦
        let short = (λ i. ltb 0 n && leb n (length (if sym y i then take n xs else xs))) ∙ e in
        (λ i. if y i then take n (xs ++ a ∷ []) else xs ++ a ∷ [])
        ∙ take_room n xs a (ground (arith, y, short))
        ∙ (λ i. (if sym y i then take n xs else xs) ++ a ∷ [])
    | inr m ↦
        (λ i. if m i then take n (xs ++ a ∷ []) else xs ++ a ∷ [])
        ∙ (λ i. (if sym m i then take n xs else xs) ++ a ∷ [])
  ]

  -- `put_nowait` on the answer to whether the queue is full
  abbrev after : Bool → A → OverflowQueue A → OverflowQueue A
  after b a q =
      let r : OverflowQueue A × Bool = if b then (q, false) else (
        record q { items = q.items ++ a ∷ []; unfinished_tasks = q.unfinished_tasks + 1 },
        true,
      ) in
      settle r.1 r.0

  -- the queue holds the first of the items that came, and counts the others
  abbrev Tells : ℕ → List A → OverflowQueue A → Type 0
  Tells n xs q =
      (q.maxsize ≡ n) × (q.items ≡ within n xs) × (q.dropped + length q.items ≡ length xs)

  put_nowait-Tells :
      (n : ℕ) (xs : List A) (a : A) (q : OverflowQueue A)
      → Tells n xs q
      → Tells n (xs ++ a ∷ []) (put_nowait a q)
  unfolding put_nowait try_put settle note_peak note_drop
  put_nowait-Tells n xs a q (size, items, count) =
      let longer = length-append xs (a ∷ []) in
      let longer_items = length-append q.items (a ∷ []) in
      let bound = λ (b : Bool) (e : full q ≡ b).
        (λ i. ltb 0 (sym size i) && leb (sym size i) (length (sym items i))) ∙ e in
      elim (Bool-cases (full q)) [
        | inl y ↦
            let full_now = bound true y in
            subst (λ b. Tells n (xs ++ a ∷ []) (after b a q)) (sym y)
              (size, items ∙ sym (within_full n xs a full_now), omega (arith, longer, count))
        | inr m ↦
            let room = bound false m in
            subst (λ b. Tells n (xs ++ a ∷ []) (after b a q)) (sym m)
              (
                size,
                ap (λ ys. ys ++ a ∷ []) items ∙ sym (within_room n xs a room),
                omega (arith, longer, longer_items, count),
              )
      ]

-- the row of an event that has a new state and passes the filter
abbrev pub row_heard : {D : Type 0} → (String → Bool) → Option (State D) → List (StateRow D)
row_heard accepts none = []
row_heard accepts (some s) = if accepts s.entity_id then from_state s ∷ [] else []

abbrev pub copies : {A : Type 0} → ℕ → List A → List A
copies zero xs = []
copies (suc n) xs = xs ++ copies n xs

-- The rows of the events: once where the listener is started, and once more for each earlier start that
-- another start followed before a stop came.
abbrev pub rows_heard :
    {D : Type 0} → (String → Bool) → ℕ → Bool → List (Call D) → List (StateRow D)
rows_heard accepts earlier is_started [] = []
rows_heard accepts earlier is_started (async_start ∷ cs) =
    rows_heard accepts (if is_started then earlier + 1 else earlier) true cs
rows_heard accepts earlier is_started (state_changed s ∷ cs) =
    copies (if is_started then earlier + 1 else earlier) (row_heard accepts s)
    ++ rows_heard accepts earlier is_started cs
rows_heard accepts earlier is_started (stop ∷ cs) = rows_heard accepts earlier false cs

module _ {D : Type 0} (accepts : String → Bool) where
  handle-Tells :
      (n : ℕ) (xs : List (StateRow D)) (s : Option (State D)) (q : OverflowQueue (StateRow D))
      → Tells n xs q
      → Tells n (xs ++ row_heard accepts s) (handle_state_changed accepts s q)
  unfolding handle_state_changed
  handle-Tells n xs none q h = subst (λ ys. Tells n ys q) (sym (append-nil xs)) h
  handle-Tells n xs (some s) q h = elim (Bool-cases (accepts s.entity_id)) [
    | inl y ↦
        subst
          (λ b.
            Tells n (xs ++ (if b then from_state s ∷ [] else []))
              (if b then put_nowait (from_state s) q else q))
          (sym y) (put_nowait-Tells n xs (from_state s) q h)
    | inr m ↦
        subst
          (λ b.
            Tells n (xs ++ (if b then from_state s ∷ [] else []))
              (if b then put_nowait (from_state s) q else q))
          (sym m) (subst (λ ys. Tells n ys q) (sym (append-nil xs)) h)
  ]

  notify-Tells :
      (n k : ℕ) (xs : List (StateRow D)) (s : Option (State D)) (q : OverflowQueue (StateRow D))
      → Tells n xs q
      → Tells n (xs ++ copies k (row_heard accepts s)) (notify accepts k s q)
  unfolding notify
  notify-Tells n zero xs s q h = subst (λ ys. Tells n ys q) (sym (append-nil xs)) h
  notify-Tells n (suc k) xs s q h =
      let row = row_heard accepts s in
      subst (λ ys. Tells n ys (notify accepts k s (handle_state_changed accepts s q)))
        (append_assoc xs row (copies k row))
        (notify-Tells n k (xs ++ row) s (handle_state_changed accepts s q)
          (handle-Tells n xs s q h))

  -- the listener with these subscriptions
  abbrev listener : ℕ → Bool → OverflowQueue (StateRow D) → StateListener D
  listener earlier is_started q = record {
    subscriptions = if is_started then earlier + 1 else earlier;
    is_held = is_started;
    queue = q;
  }

  run-Tells :
      (n : ℕ) (cs : List (Call D)) (xs : List (StateRow D)) (k : ℕ) (b : Bool)
      (q : OverflowQueue (StateRow D))
      → Tells n xs q
      → Tells n (xs ++ rows_heard accepts k b cs) (run accepts cs (listener k b q)).queue
  unfolding run step
  run-Tells n [] xs k b q h = subst (λ ys. Tells n ys q) (sym (append-nil xs)) h
  run-Tells n (async_start ∷ cs) xs k true q h = run-Tells n cs xs (k + 1) true q h
  run-Tells n (async_start ∷ cs) xs k false q h = run-Tells n cs xs k true q h
  run-Tells n (stop ∷ cs) xs k true q h =
      let back : k + 1 - 1 ≡ k = omega arith in
      subst
        (λ m.
          Tells n (xs ++ rows_heard accepts k false cs)
            (run accepts cs (record { subscriptions = m; is_held = false; queue = q })).queue)
        (sym back) (run-Tells n cs xs k false q h)
  run-Tells n (stop ∷ cs) xs k false q h = run-Tells n cs xs k false q h
  run-Tells n (state_changed s ∷ cs) xs k b q h =
      let m = if b then k + 1 else k in
      let next = notify accepts m s q in
      subst (λ ys. Tells n ys (run accepts cs (listener k b next)).queue)
        (append_assoc xs (copies m (row_heard accepts s)) (rows_heard accepts k b cs))
        (run-Tells n cs (xs ++ copies m (row_heard accepts s)) k b next (notify-Tells n m xs s q h))

  -- Whatever calls a new listener, the new queue that it fills holds, as long as nothing is taken from it,
  -- the rows of the events that came while it was subscribed, had a new state and passed the filter, in
  -- their order, up to the bound of the queue; of all others of these rows it has counted the drop. A bound
  -- of 0 is none. An event comes once for each subscription: a stop ends the one of the last start only, so
  -- a start that another start followed goes on to double the rows, after a stop too.
  pub run_hears :
      (n : ℕ) (cs : List (Call D))
      → let l = run accepts cs (record { subscriptions = 0; is_held = false; queue = init n }) in
        (l.queue.items ≡ within n (rows_heard accepts 0 false cs))
        × (l.queue.dropped + length l.queue.items ≡ length (rows_heard accepts 0 false cs))
  unfolding init
  run_hears n cs =
      let nothing : within {A = StateRow D} n [] ≡ [] = within_nil n in
      let (size, items, count) =
        run-Tells n cs [] 0 false (init n) (refl, sym nothing, omega arith) in
      (items, count)
