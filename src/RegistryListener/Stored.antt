-- ===== src/RegistryListener/Stored.antt =====
-- The lines of the queue file that registry_listener.py has stored, by whether their append returned.
use ha_timescaledb_recorder.Prelude.{
  subst, ℕ, zero, suc, take, All, All-map, All-append, ◌⊎◌, ◌∷◌, ◌≡◌, refl, sym, ap, Bool, true,
  false, Option, none, some, List, [], ◌++◌, arith, is_empty, inl, inr, Bool-cases,
}
use ha_timescaledb_recorder.RegistryListener.{
  Append, Outcome, wrote, raised, lines, running, succeeded, failed, Listener, flush_buffer,
  requeue, end_append, settle_inflight, flush_buffer_blocking,
}

module _ {I : Type 0} where
  -- what the running append, or one that failed, still owes
  abbrev pub pending : Option (Append × List I) → List I
  pending (some (running, batch)) = batch
  pending (some (failed, batch)) = batch
  pending o = []

  -- the lines of the appends that returned
  abbrev pub kept : List (Bool × I) → List I
  kept [] = []
  kept ((true, x) ∷ ls) = x ∷ kept ls
  kept ((false, x) ∷ ls) = kept ls

  -- those of the appends that raised
  abbrev pub strays : List (Bool × I) → List I
  strays [] = []
  strays ((true, x) ∷ ls) = strays ls
  strays ((false, x) ∷ ls) = x ∷ strays ls

  abbrev pub all_of : Listener I → List I
  all_of l = kept l.stored ++ pending l.inflight ++ l.buffer

  pub kept-true : (ls : List (Bool × I)) (xs : List I) → kept (ls ++ lines true xs) ≡ kept ls ++ xs
  kept-true [] [] = refl
  kept-true [] (x ∷ xs) = ap (λ ys. x ∷ ys) (kept-true [] xs)
  kept-true ((true, y) ∷ ls) xs = ap (λ ys. y ∷ ys) (kept-true ls xs)
  kept-true ((false, y) ∷ ls) xs = kept-true ls xs

  pub kept-false : (ls : List (Bool × I)) (xs : List I) → kept (ls ++ lines false xs) ≡ kept ls
  kept-false [] [] = refl
  kept-false [] (x ∷ xs) = kept-false [] xs
  kept-false ((true, y) ∷ ls) xs = ap (λ ys. y ∷ ys) (kept-false ls xs)
  kept-false ((false, y) ∷ ls) xs = kept-false ls xs

  strays-true : (ls : List (Bool × I)) (xs : List I) → strays (ls ++ lines true xs) ≡ strays ls
  strays-true [] [] = refl
  strays-true [] (x ∷ xs) = strays-true [] xs
  strays-true ((true, y) ∷ ls) xs = strays-true ls xs
  strays-true ((false, y) ∷ ls) xs = ap (λ ys. y ∷ ys) (strays-true ls xs)

  strays-false :
      (ls : List (Bool × I)) (xs : List I) → strays (ls ++ lines false xs) ≡ strays ls ++ xs
  strays-false [] [] = refl
  strays-false [] (x ∷ xs) = ap (λ ys. x ∷ ys) (strays-false [] xs)
  strays-false ((true, y) ∷ ls) xs = strays-false ls xs
  strays-false ((false, y) ∷ ls) xs = ap (λ ys. y ∷ ys) (strays-false ls xs)

  abbrev pub Among : List I → I → Type 0
  Among [] x = ⊥
  Among (y ∷ ys) x = (x ≡ y) ⊎ Among ys x

  pub Among-left : (xs ys : List I) (x : I) → Among xs x → Among (xs ++ ys) x
  Among-left [] ys x h = absurd h
  Among-left (y ∷ xs) ys x (inl e) = inl e
  Among-left (y ∷ xs) ys x (inr h) = inr (Among-left xs ys x h)

  Among-right : (xs ys : List I) (x : I) → Among ys x → Among (xs ++ ys) x
  Among-right [] ys x h = h
  Among-right (y ∷ xs) ys x h = inr (Among-right xs ys x h)

  take-Among : (n : ℕ) (xs : List I) → All (Among xs) (take n xs)
  take-Among zero xs = tt
  take-Among (suc n) [] = tt
  take-Among (suc n) (x ∷ xs) = (inl refl, All-map _ _ (take n xs) (λ y h. inr h) (take-Among n xs))

  -- the lines of appends that raised are of these items
  abbrev pub IsOf : List I → Listener I → Type 0
  IsOf items l = All (Among items) (strays l.stored)

  IsOf-stray :
      (items : List I) (n : ℕ) (batch : List I) (ls : List (Bool × I))
      → ((x : I) → Among batch x → Among items x)
      → All (Among items) (strays ls)
      → All (Among items) (strays (ls ++ lines false (take n batch)))
  IsOf-stray items n batch ls f h =
      subst (All (Among items)) (sym (strays-false ls (take n batch))) (
        All-append _ (strays ls) (take n batch) h
          (All-map _ _ (take n batch) f (take-Among n batch)))

  pub IsOf-end_append :
      (ended : Outcome) (l : Listener I)
      → IsOf (all_of l) l
      → IsOf (all_of l) (end_append ended l.inflight l)
  unfolding end_append
  IsOf-end_append ended l h = by_state ended l.inflight refl
    where
      by_state :
          (ended : Outcome) (o : Option (Append × List I))
          → l.inflight ≡ o
          → IsOf (all_of l) (end_append ended o l)
      by_state wrote (some (running, batch)) e =
          subst (All (Among (all_of l))) (sym (strays-true l.stored batch)) h
      by_state (raised n) (some (running, batch)) e =
          IsOf-stray (all_of l) n batch l.stored
            (λ x a. Among-left (kept l.stored ++ pending l.inflight) l.buffer x (
              Among-right (kept l.stored) (pending l.inflight) x
                (subst (λ o. Among (pending o) x) (sym e) a)))
            h
      by_state ended o e = h

  pub IsOf-blocking :
      (ended : Outcome) (l : Listener I)
      → IsOf (all_of l) l
      → IsOf (all_of l) (flush_buffer_blocking ended l)
  unfolding flush_buffer_blocking
  IsOf-blocking wrote l h = elim (Bool-cases (is_empty l.buffer)) [
    | inl e ↦ rw e h
    | inr e ↦ rw e (subst (All (Among (all_of l))) (sym (strays-true l.stored l.buffer)) h)
  ]
  IsOf-blocking (raised n) l h = elim (Bool-cases (is_empty l.buffer)) [
    | inl e ↦ rw e h
    | inr e ↦ rw e (
        IsOf-stray (all_of l) n l.buffer l.stored
          (Among-right (kept l.stored ++ pending l.inflight) l.buffer) h)
  ]

  pub stored-flush : (l : Listener I) → (flush_buffer l).stored ≡ l.stored
  unfolding flush_buffer
  stored-flush l = ground arith

  pub stored-settle_inflight :
      (o : Option (Append × List I)) (l : Listener I) → (settle_inflight o l).stored ≡ l.stored
  unfolding settle_inflight requeue
  stored-settle_inflight (some (succeeded, batch)) l = refl
  stored-settle_inflight (some (failed, batch)) l = refl
  stored-settle_inflight (some (running, batch)) l = refl
  stored-settle_inflight none l = refl
