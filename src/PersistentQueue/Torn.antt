-- ===== src/PersistentQueue/Torn.antt =====
-- persistent_queue.py after a crash in the middle of an append: the file ends in the middle of a
-- line, and the next append continues that line.
use ha_timescaledb_recorder.Prelude.{
  ℕ, suc, ◌≡◌, refl, sym, ap, ◌∙◌, none, some, List, [], ◌∷◌, ◌++◌, append_assoc, append-nil,
}
use ha_timescaledb_recorder.PersistentQueue.Lines.{
  HasNoNewline, HasNoNewline-append, newline, rest_lines, rest_lines-append, read_first_line,
  read_first_line-append, read_first_line-nil,
}
use ha_timescaledb_recorder.PersistentQueue.Json.{Format}
use ha_timescaledb_recorder.PersistentQueue.{
  PersistentQueue, Outcome, wait, open_queue, encode_line, put, get, serve, read_front,
  rewrite_without_front_line,
}
use ha_timescaledb_recorder.PersistentQueue.Scanning.{get-line}

module _ {ℓ} {A : Type ℓ} (json : Format A) where
  get-empty :
      (fuel : ℕ) (q : PersistentQueue A)
      → q.in_flight ≡ none
      → q.file ≡ []
      → get json (suc fuel) q ≡ (wait, q)
  unfolding get
  get-empty fuel q e f =
      ap (serve json (get json fuel) q) e
      ∙ ap (read_front json (get json fuel) q) (ap read_first_line f ∙ read_first_line-nil)

  whole_line :
      (t : List ℕ) (a : A) → t ++ encode_line json a ≡ ((t ++ json.dumps a) ++ newline ∷ []) ++ []
  whole_line t a =
      sym (append_assoc t (json.dumps a) (newline ∷ []))
      ∙ sym (append-nil ((t ++ json.dumps a) ++ newline ∷ []))

  -- If a crash left the fragment `t` of a line in the file, and `t` followed by the text of `a` is not
  -- JSON, then an item `a` put afterwards is lost: the next `get` drops it with the fragment, finds
  -- the file empty and waits, while `size` still counts the item.
  pub put_after_torn_lost :
      (t : List ℕ) (a : A) (fuel : ℕ)
      → HasNoNewline t
      → json.loads (t ++ json.dumps a) ≡ none
      → let q = put json a (open_queue t) in
        let (o, q') = get json (suc (suc fuel)) q in
        (o ≡ wait) × (q'.file ≡ []) × (q'.size ≡ q.size)
  unfolding put open_queue rewrite_without_front_line
  put_after_torn_lost t a fuel h bad =
      let q : PersistentQueue A = put json a (open_queue t) in
      let line = t ++ json.dumps a in
      let clean : HasNoNewline line =
        HasNoNewline-append t (json.dumps a) h (json.dumps-HasNoNewline a) in
      let read : read_first_line q.file ≡ some line =
        ap read_first_line (whole_line t a) ∙ read_first_line-append line [] clean in
      let r : PersistentQueue A = rewrite_without_front_line q in
      let gone : r.file ≡ [] = ap rest_lines (whole_line t a) ∙ rest_lines-append line [] clean in
      let run : get json (suc (suc fuel)) q ≡ (wait, r) =
        get-line json (suc fuel) q line none refl read bad ∙ get-empty fuel r refl gone in
      (
        λ i. (run i).0,
        ap (λ (x : Outcome A × PersistentQueue A). x.1.file) run ∙ gone,
        ap (λ (x : Outcome A × PersistentQueue A). x.1.size) run,
      )
