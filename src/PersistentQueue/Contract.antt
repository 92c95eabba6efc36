-- ===== src/PersistentQueue/Contract.antt =====
-- The file of persistent_queue.py as the list of items that are not acknowledged, oldest first.
use ha_timescaledb_recorder.Prelude.{
  ℕ, suc, ◌≡◌, refl, sym, ap, subst, ◌∙◌, Option, none, some, List, [], ◌∷◌, ◌++◌, arith, length,
  length-append, append_assoc, append-nil, Bool-cases, inl, inr,
}
use ha_timescaledb_recorder.PersistentQueue.Lines.{
  rest_lines, rest_lines-append, read_first_line, read_first_line-append, count_lines,
  count_lines-append, count_lines-nil, rest_lines-nil, read_first_line-nil,
}
use ha_timescaledb_recorder.PersistentQueue.Json.{Format}
use ha_timescaledb_recorder.PersistentQueue.{
  PersistentQueue, Outcome, item, wait, open_queue, task_done, joined, encode, encode_line, put,
  put_many, get, get_woken, serve,
}

-- The item in flight, if there is one, is the oldest one.
abbrev pub InFlight {ℓ} : {A : Type ℓ} → Option A → List A → Type ℓ
InFlight none xs = Unit
InFlight {A} (some a) xs = (rest : List A) × (xs ≡ a ∷ rest)

module _ {ℓ} {A : Type ℓ} (json : Format A) where
  pub record Represents (q : PersistentQueue A) (xs : List A) : Type ℓ where
    pub file : q.file ≡ encode json xs
    pub size : q.size ≡ length xs
    pub flying : InFlight q.in_flight xs

  encode-append : (xs ys : List A) → encode json (xs ++ ys) ≡ encode json xs ++ encode json ys
  encode-append [] ys = refl
  encode-append (x ∷ xs) ys =
      ap (◌++◌ (encode_line json x)) (encode-append xs ys)
      ∙ sym (append_assoc (encode_line json x) (encode json xs) (encode json ys))

  InFlight-append : (o : Option A) (xs ys : List A) → InFlight o xs → InFlight o (xs ++ ys)
  InFlight-append none xs ys h = tt
  InFlight-append (some a) xs ys h = (h.0 ++ ys, ap (λ l. l ++ ys) h.1)

  count_lines-encode : (xs : List A) → count_lines (encode json xs) ≡ length xs
  count_lines-encode [] = count_lines-nil
  count_lines-encode (x ∷ xs) =
      count_lines-append (json.dumps x) (encode json xs) (json.dumps-HasNoNewline x)
        (json.is_blank-dumps x)
      ∙ ap suc (count_lines-encode xs)

  put-Represents :
      (a : A) (q : PersistentQueue A) (xs : List A)
      → Represents q xs
      → Represents (put json a q) (xs ++ a ∷ [])
  unfolding put
  put-Represents a q xs h = record {
    file =
        ap (λ f. f ++ encode_line json a) h.file
        ∙ (sym (ap (◌++◌ (encode json xs)) (append-nil (encode_line json a)))
            ∙ sym (encode-append xs (a ∷ [])));
    size = omega (arith, h.size, length-append xs (a ∷ []));
    flying = InFlight-append q.in_flight xs (a ∷ []) h.flying;
  }

  pub put_many-Represents :
      (items : List A) (q : PersistentQueue A) (xs : List A)
      → Represents q xs
      → Represents (put_many json items q) (xs ++ items)
  unfolding put_many
  put_many-Represents [] q xs h = rw (append-nil xs) h
  put_many-Represents (a ∷ items) q xs h = record {
    file = ap (λ f. f ++ encode json (a ∷ items)) h.file ∙ sym (encode-append xs (a ∷ items));
    size = omega (arith, h.size, length-append xs (a ∷ items));
    flying = InFlight-append q.in_flight xs (a ∷ items) h.flying;
  }

  rest_lines-encode : (x : A) (xs : List A) → rest_lines (encode json (x ∷ xs)) ≡ encode json xs
  rest_lines-encode x xs =
      rest_lines-append (json.dumps x) (encode json xs) (json.dumps-HasNoNewline x)

  abbrev pub tail : List A → List A
  tail [] = []
  tail (x ∷ xs) = xs

  pub task_done-Represents :
      (q : PersistentQueue A) (xs : List A) → Represents q xs → Represents (task_done q) (tail xs)
  unfolding task_done
  task_done-Represents q [] h = record {
    file = ap rest_lines h.file ∙ rest_lines-nil;
    size = ground (arith, h.size);
    flying = tt;
  }
  task_done-Represents q (x ∷ xs) h = record {
    file = ap rest_lines h.file ∙ rest_lines-encode x xs;
    size = ground (arith, h.size);
    flying = tt;
  }

  -- A crash forgets the item in flight; the next process finds every unacknowledged item again.
  pub reopen-Represents :
      (q : PersistentQueue A) (xs : List A) → Represents q xs → Represents (open_queue q.file) xs
  unfolding open_queue
  reopen-Represents q xs h = record {
    file = h.file;
    size = ap count_lines h.file ∙ count_lines-encode xs;
    flying = tt;
  }

  abbrev pub front : List A → Outcome A
  front [] = wait
  front (x ∷ xs) = item x

  read_first_line-encode :
      (x : A) (xs : List A) → read_first_line (encode json (x ∷ xs)) ≡ some (json.dumps x)
  read_first_line-encode x xs =
      read_first_line-append (json.dumps x) (encode json xs) (json.dumps-HasNoNewline x)

  abbrev pub ServesFront : Outcome A × PersistentQueue A → List A → Type ℓ
  ServesFront (o, q) xs = (o ≡ front xs) × Represents q xs

  serve-front :
      (n : ℕ) (q : PersistentQueue A) (o : Option A) (xs : List A)
      → q.in_flight ≡ o
      → Represents q xs
      → ServesFront (serve json (get json n) q o) xs
  serve-front n q (some a) xs e h =
      let f : InFlight (some a) xs = subst (λ o. InFlight o xs) e h.flying in
      (ap front (sym f.1), h)
  serve-front n q none [] e h =
      let read : read_first_line q.file ≡ none = ap read_first_line h.file ∙ read_first_line-nil in
      rw read (refl, h)
  serve-front n q none (x ∷ xs) e h =
      let read : read_first_line q.file ≡ some (json.dumps x) =
        ap read_first_line h.file ∙ read_first_line-encode x xs in
      rw (read, json.loads-dumps x)
        (refl, record { file = h.file; size = h.size; flying = (xs, refl) })

  -- On a file of whole lines `get` serves the oldest unacknowledged item and keeps it in the file;
  -- it waits exactly when there is none.
  pub get-front :
      (n : ℕ) (q : PersistentQueue A) (xs : List A)
      → Represents q xs
      → ServesFront (get json (suc n) q) xs
  unfolding get
  get-front n q xs h = serve-front n q q.in_flight xs refl h

  pub data Op : Type ℓ where
    put_one : A → Op
    put_batch : List A → Op
    get_one : Op
    wake : Op
    acknowledge : Op
    crash : Op

  -- One call on the queue; a crash loses the process, and the next one opens the file again.
  pub apply : Op → PersistentQueue A → PersistentQueue A
  apply (put_one a) q = put json a q
  apply (put_batch items) q = put_many json items q
  apply get_one q = (get json (suc (length q.file)) q).1
  apply wake q = (get_woken json (suc (length q.file)) q).1
  apply acknowledge q = task_done q
  apply crash q = open_queue q.file

  pub expected : Op → List A → List A
  expected (put_one a) xs = xs ++ a ∷ []
  expected (put_batch items) xs = xs ++ items
  expected get_one xs = xs
  expected wake xs = xs
  expected acknowledge xs = tail xs
  expected crash xs = xs

  pub apply_all : List Op → PersistentQueue A → PersistentQueue A
  apply_all [] q = q
  apply_all (o ∷ os) q = apply_all os (apply o q)

  pub expect_all : List Op → List A → List A
  expect_all [] xs = xs
  expect_all (o ∷ os) xs = expect_all os (expected o xs)

  get_woken-Represents :
      (n : ℕ) (q : PersistentQueue A) (xs : List A)
      → Represents q xs
      → Represents (get_woken json (suc n) q).1 xs
  unfolding get_woken
  get_woken-Represents n q xs h = elim (Bool-cases (joined q)) [
    | inl idle ↦ rw idle h
    | inr busy ↦ rw busy (get-front n q xs h).1
  ]

  apply-Represents :
      (o : Op) (q : PersistentQueue A) (xs : List A)
      → Represents q xs
      → Represents (apply o q) (expected o xs)
  unfolding apply expected
  apply-Represents (put_one a) q xs h = put-Represents a q xs h
  apply-Represents (put_batch items) q xs h = put_many-Represents items q xs h
  apply-Represents get_one q xs h = (get-front (length q.file) q xs h).1
  apply-Represents wake q xs h = get_woken-Represents (length q.file) q xs h
  apply-Represents acknowledge q xs h = task_done-Represents q xs h
  apply-Represents crash q xs h = reopen-Represents q xs h

  -- From a file of whole lines, after any calls and crashes in any order, the file holds exactly the
  -- lines of the items put and not acknowledged, in order, `size` is their number, and an item in
  -- flight is the oldest of them.
  pub apply_all-Represents :
      (os : List Op) (q : PersistentQueue A) (xs : List A)
      → Represents q xs
      → Represents (apply_all os q) (expect_all os xs)
  unfolding apply_all expect_all
  apply_all-Represents [] q xs h = h
  apply_all-Represents (o ∷ os) q xs h =
      apply_all-Represents os (apply o q) (expected o xs) (apply-Represents o q xs h)
