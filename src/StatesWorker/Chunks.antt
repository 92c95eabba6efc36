-- ===== src/StatesWorker/Chunks.antt =====
-- The chunks of `_flush` in states_worker.py.
use ha_timescaledb_recorder.Prelude.{
  ℕ, zero, suc, ◌≤◌, ◌<◌, ◌≡◌, refl, sym, ap, ◌∙◌, List, [], ◌∷◌, ◌++◌, arith, length, take, drop,
  map, take-append-drop, length-take-le, length-drop, All, append_assoc,
}
use ha_timescaledb_recorder.StatesWorker.{StateRow, Statement, insert_chunk_size, chunks}

module _ {C : Type 0} where
  -- the rows of the chunks, each with the statement that writes it
  abbrev pub tag : Statement → List (StateRow C) → List (Statement × StateRow C)
  tag s rows = map (λ r. (s, r)) rows

  abbrev pub expand : List (Statement × List (StateRow C)) → List (Statement × StateRow C)
  expand [] = []
  expand ((s, c) ∷ cs) = tag s c ++ expand cs

  pub tag-append :
      (s : Statement) (xs ys : List (StateRow C)) → tag s (xs ++ ys) ≡ tag s xs ++ tag s ys
  tag-append s [] ys = refl
  tag-append s (x ∷ xs) ys = ap (◌∷◌ (s, x)) (tag-append s xs ys)

  pub expand-append :
      (xs ys : List (Statement × List (StateRow C))) → expand (xs ++ ys) ≡ expand xs ++ expand ys
  expand-append [] ys = refl
  expand-append ((s, c) ∷ xs) ys =
      ap (◌++◌ (tag s c)) (expand-append xs ys)
      ∙ sym (append_assoc (tag s c) (expand xs) (expand ys))

  pub expand-chunks :
      (s : Statement) (fuel : ℕ) (rows : List (StateRow C))
      → length rows ≤ fuel
      → expand (map (λ c. (s, c)) (chunks fuel rows)) ≡ tag s rows
  expand-chunks s zero [] h = refl
  expand-chunks s zero (r ∷ rows) h = ground (arith, h)
  expand-chunks s (suc fuel) [] h = refl
  expand-chunks s (suc fuel) (r ∷ rows) h =
      ap (◌++◌ (tag s (r ∷ take 199 rows)))
        (expand-chunks s fuel (drop 199 rows) (omega (arith, length-drop 199 rows, h)))
      ∙ (sym (tag-append s (r ∷ take 199 rows) (drop 199 rows))
          ∙ ap (λ x. tag s (r ∷ x)) (take-append-drop 199 rows))

  -- Every chunk has a row, and no more than the constant allows.
  abbrev pub IsChunk : List (StateRow C) → Type 0
  IsChunk c = (0 < length c) × (length c ≤ insert_chunk_size)

  pub chunks-IsChunk :
      (s : Statement) (fuel : ℕ) (rows : List (StateRow C))
      → All
          (λ (c : Statement × List (StateRow C)). IsChunk c.1)
          (map (λ c. (s, c)) (chunks fuel rows))
  chunks-IsChunk s zero rows = tt
  chunks-IsChunk s (suc fuel) [] = tt
  chunks-IsChunk s (suc fuel) (r ∷ rows) =
      ((omega arith, omega (arith, length-take-le 199 rows)), chunks-IsChunk s fuel (drop 199 rows))
