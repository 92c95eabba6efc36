-- ===== src/PersistentQueue/Scanning.antt =====
-- `get` of persistent_queue.py on files with malformed lines.
use ha_timescaledb_recorder.Prelude.{
  ℕ, zero, suc, ◌<◌, ◌≡◌, ◌≢◌, refl, sym, ap, subst, ◌∙◌, Option, none, some, List, [], ◌∷◌, ◌++◌,
  arith, length, append_assoc, All, Option-cases, inl, inr,
}
use ha_timescaledb_recorder.PersistentQueue.Lines.{
  HasNoNewline, newline, rest_lines, rest_lines-append, read_first_line, read_first_line-append,
  read_first_line-nil, read_first_line-cons, length-rest_lines, first_line,
}
use ha_timescaledb_recorder.PersistentQueue.Json.{Format}
use ha_timescaledb_recorder.PersistentQueue.{
  PersistentQueue, Outcome, item, out_of_fuel, encode, get, serve, read_front, parse_front,
  rewrite_without_front_line,
}

module _ {ℓ} {A : Type ℓ} (json : Format A) where
  -- A line that is not JSON, such as the rest of a write that a crash has torn.
  pub record IsMalformed (line : List ℕ) : Type ℓ where
    pub whole : HasNoNewline line
    pub unreadable : json.loads line ≡ none

  abbrev pub join_lines : List (List ℕ) → List ℕ
  join_lines [] = []
  join_lines (l ∷ ls) = (l ++ newline ∷ []) ++ join_lines ls

  drops_line :
      (q : PersistentQueue A) (c : ℕ) (r : List ℕ)
      → q.file ≡ c ∷ r
      → length (rewrite_without_front_line q).file < length q.file
  unfolding rewrite_without_front_line
  drops_line q c r e =
      let d : length (rest_lines q.file) < length (c ∷ r) =
        subst (λ f. length (rest_lines f) < length (c ∷ r)) (sym e) (length-rest_lines c r) in
      subst (λ f. length (rest_lines q.file) < length f) (sym e) d

  serve_ends :
      (again : PersistentQueue A → Outcome A × PersistentQueue A) (q : PersistentQueue A)
      (o : Option A) (f : List ℕ)
      → q.file ≡ f
      → ((r : PersistentQueue A) → length r.file < length q.file → (again r).0 ≢ out_of_fuel)
      → (serve json again q o).0 ≢ out_of_fuel
  serve_ends again q (some a) f e ih = λ p. cc
  serve_ends again q none [] e ih = rw (ap read_first_line e ∙ read_first_line-nil) (λ p. cc)
  serve_ends again q none (c ∷ r) e ih =
      rw (ap read_first_line e ∙ read_first_line-cons c r)
        (elim (Option-cases (json.loads (first_line (c ∷ r)))) [
          | inl torn ↦ rw torn (ih (rewrite_without_front_line q) (drops_line q c r e))
          | inr (a, whole) ↦ rw whole (λ p. cc)
        ])

  -- `get` always comes to a return or to a wait: each round drops a line, so a fuel above the length
  -- of the file is enough.
  pub get_ends :
      (fuel : ℕ) (q : PersistentQueue A) → length q.file < fuel → (get json fuel q).0 ≢ out_of_fuel
  unfolding get
  get_ends zero q h = absurd (omega arith)
  get_ends (suc fuel) q h =
      serve_ends (get json fuel) q q.in_flight q.file refl
        (λ r shorter. get_ends fuel r (omega arith))

  abbrev pub Recovers : PersistentQueue A → A → List A → Outcome A × PersistentQueue A → Type ℓ
  Recovers q x xs (o, q') =
      (o ≡ item x) × (q'.file ≡ encode json (x ∷ xs)) × (q'.in_flight ≡ some x) × (q'.size ≡ q.size)

  pub get-line :
      (fuel : ℕ) (q : PersistentQueue A) (line : List ℕ) (parsed : Option A)
      → q.in_flight ≡ none
      → read_first_line q.file ≡ some line
      → json.loads line ≡ parsed
      → get json (suc fuel) q ≡ parse_front json (get json fuel) q parsed
  unfolding get
  get-line fuel q line parsed e read p =
      ap (serve json (get json fuel) q) e
      ∙ (ap (read_front json (get json fuel) q) read ∙ ap (parse_front json (get json fuel) q) p)

  -- The malformed lines in front are dropped from the file, and the first readable item is served.
  -- `size` stays as it was, so from then on it is above the number of lines by those dropped.
  pub get-skips :
      (bad : List (List ℕ)) (x : A) (xs : List A) (fuel : ℕ) (q : PersistentQueue A)
      → length bad < fuel
      → All IsMalformed bad
      → q.in_flight ≡ none
      → q.file ≡ join_lines bad ++ encode json (x ∷ xs)
      → Recovers q x xs (get json fuel q)
  unfolding rewrite_without_front_line
  get-skips bad x xs zero q n h e f = absurd (omega arith)
  get-skips [] x xs (suc fuel) q n h e f =
      let read : read_first_line q.file ≡ some (json.dumps x) =
        ap read_first_line f
        ∙ read_first_line-append (json.dumps x) (encode json xs) (json.dumps-HasNoNewline x) in
      subst (Recovers q x xs)
        (sym (get-line fuel q (json.dumps x) (some x) e read (json.loads-dumps x)))
        (refl, f, refl, refl)
  get-skips (b ∷ bad) x xs (suc fuel) q n h e f =
      let whole : q.file ≡ (b ++ newline ∷ []) ++ (join_lines bad ++ encode json (x ∷ xs)) =
        f ∙ append_assoc (b ++ newline ∷ []) (join_lines bad) (encode json (x ∷ xs)) in
      let read : read_first_line q.file ≡ some b =
        ap read_first_line whole ∙ read_first_line-append b _ h.0.whole in
      subst (Recovers q x xs) (sym (get-line fuel q b none e read h.0.unreadable)) (
        get-skips bad x xs fuel (rewrite_without_front_line q) (omega arith) h.1 e
          (ap rest_lines whole ∙ rest_lines-append b _ h.0.whole))
