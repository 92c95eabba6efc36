-- ===== src/DbCalls/Outermost.antt =====
-- What `DbCallTracker` of db.py shows of a thread is its outermost call.
use ha_timescaledb_recorder.Prelude.{
  ℕ, ◌≡◌, refl, sym, ap, ◌∙◌, List, [], ◌∷◌, true, false, Option, none, some, String, arith, ◌==◌,
  is_some, if◌then◌else◌, Bool-cases, Option-cases, inl, inr,
}
use ha_timescaledb_recorder.DbCalls.{
  Call, Calls, Block, Tracker, Event, enter, leave, lookup, pop, innermost, without_innermost,
  begin_call, close_block, end_call, step, run, idle,
}

abbrev or_else : Option Call → Call → Option Call
or_else none c = some c
or_else (some d) c = some d

-- the first block that the thread opened, of those that are open
abbrev pub outermost : ℕ → List Block → Option Call
outermost i [] = none
outermost i (b ∷ bs) = if i == b.ident then or_else (outermost i bs) b.made else outermost i bs

-- A block is nested exactly if an older one of its thread is open.
abbrev IsNested : List Block → Type 0
IsNested [] = Unit
IsNested (b ∷ bs) = (b.nested ≡ is_some (outermost b.ident bs)) × IsNested bs

pub record IsTracked (t : Tracker) : Type 0 where
  pub shown : (i : ℕ) → lookup i t.calls ≡ outermost i t.blocks
  pub nested : IsNested t.blocks

lookup-pop :
    (i j : ℕ) (calls : Calls) → lookup i (pop j calls) ≡ (if i == j then none else lookup i calls)
lookup-pop i j [] = ground arith
lookup-pop i j ((k, c) ∷ calls) = ground (arith, lookup-pop i j calls)

-- a first block of its thread
shown_first :
    (i j : ℕ) (c : Call) (calls : Calls) (bs : List Block)
    → lookup i calls ≡ none
    → lookup i calls ≡ outermost i bs
    → lookup j calls ≡ outermost j bs
    → (if j == i then some c else lookup j calls)
      ≡ (if j == i then or_else (outermost j bs) c else outermost j bs)
shown_first i j c calls bs new hi hj = elim (Bool-cases (j == i)) [
  | inl same ↦
      let e : j ≡ i = ground (arith, same) in
      rw same (sym (ap (λ k. or_else (outermost k bs) c) e ∙ ap (λ x. or_else x c) (sym hi ∙ new)))
  | inr other ↦ rw other hj
]

-- a block within another one
shown_nested :
    (i j : ℕ) (c d : Call) (calls : Calls) (bs : List Block)
    → lookup i calls ≡ some d
    → lookup i calls ≡ outermost i bs
    → lookup j calls ≡ outermost j bs
    → lookup j calls ≡ (if j == i then or_else (outermost j bs) c else outermost j bs)
shown_nested i j c d calls bs busy hi hj = elim (Bool-cases (j == i)) [
  | inl same ↦
      let e : j ≡ i = ground (arith, same) in
      rw same (
        ap (λ k. lookup k calls) e
        ∙ (busy
            ∙ sym (ap (λ k. or_else (outermost k bs) c) e ∙ ap (λ x. or_else x c) (sym hi ∙ busy))))
  | inr other ↦ rw other hj
]

begin-IsTracked :
    (i : ℕ) (op : String) (now : ℕ) (t : Tracker) → IsTracked t → IsTracked (begin_call i op now t)
unfolding begin_call
begin-IsTracked i op now t h = elim (Option-cases (lookup i t.calls)) [
  | inl new ↦ simp new (record {
    shown = λ j.
        shown_first i j (record { op = op; started = now }) t.calls t.blocks new (h.shown i)
          (h.shown j);
    nested = (sym (ap is_some (sym (h.shown i) ∙ new)), h.nested);
  })
  | inr (c, busy) ↦ simp busy (record {
    shown = λ j.
        shown_nested i j (record { op = op; started = now }) c t.calls t.blocks busy (h.shown i)
          (h.shown j);
    nested = (sym (ap is_some (sym (h.shown i) ∙ busy)), h.nested);
  })
]

outermost-other :
    (i j : ℕ) (bs : List Block)
    → i == j ≡ false
    → outermost i (without_innermost j bs) ≡ outermost i bs
outermost-other i j [] h = refl
outermost-other i j (b ∷ bs) h = ground (arith, outermost-other i j bs h)

-- the innermost block, if nested, is not the outermost one; if not, it is the only one
outermost-same :
    (i : ℕ) (bs : List Block) (b : Block)
    → IsNested bs
    → innermost i bs ≡ some b
    → outermost i (without_innermost i bs) ≡ (if b.nested then outermost i bs else none)
outermost-same i [] b n h = ground arith
outermost-same i (a ∷ bs) b (e, n) h = ground (arith, outermost-same i bs b n)

ident-innermost : (i : ℕ) (bs : List Block) (b : Block) → innermost i bs ≡ some b → b.ident ≡ i
ident-innermost i [] b h = ground arith
ident-innermost i (a ∷ bs) b h = ground (arith, ident-innermost i bs b)

IsNested-without : (i : ℕ) (bs : List Block) → IsNested bs → IsNested (without_innermost i bs)
IsNested-without i [] n = tt
IsNested-without i (b ∷ bs) (e, n) = elim (Bool-cases (i == b.ident)) [
  | inl same ↦ simp same n
  | inr other ↦ simp other (
    e ∙ ap is_some (sym (outermost-other b.ident i bs (ground (arith, other)))),
    IsNested-without i bs n,
  )
]

shown_closed :
    (i j : ℕ) (b : Block) (calls : Calls) (bs : List Block)
    → IsNested bs
    → innermost i bs ≡ some b
    → b.nested ≡ true
    → lookup j calls ≡ outermost j bs
    → lookup j calls ≡ outermost j (without_innermost i bs)
shown_closed i j b calls bs n h inner hj = elim (Bool-cases (j == i)) [
  | inl same ↦
      let e : j ≡ i = ground (arith, same) in
      hj
      ∙ (ap (λ k. outermost k bs) e
          ∙ (sym (outermost-same i bs b n h ∙ ap (λ x. if x then outermost i bs else none) inner)
              ∙ ap (λ k. outermost k (without_innermost i bs)) (sym e)))
  | inr other ↦ hj ∙ sym (outermost-other j i bs other)
]

shown_popped :
    (i j : ℕ) (b : Block) (calls : Calls) (bs : List Block)
    → IsNested bs
    → innermost i bs ≡ some b
    → b.nested ≡ false
    → lookup j calls ≡ outermost j bs
    → lookup j (pop i calls) ≡ outermost j (without_innermost i bs)
shown_popped i j b calls bs n h outer hj = lookup-pop j i calls ∙ elim (Bool-cases (j == i)) [
  | inl same ↦
      let e : j ≡ i = ground (arith, same) in
      rw same (
        sym (
          ap (λ k. outermost k (without_innermost i bs)) e
          ∙ (outermost-same i bs b n h ∙ ap (λ x. if x then outermost i bs else none) outer)))
  | inr other ↦ rw other (hj ∙ sym (outermost-other j i bs other))
]

end-IsTracked : (i : ℕ) (t : Tracker) → IsTracked t → IsTracked (end_call i t)
unfolding end_call
end-IsTracked i t h = by_block (innermost i t.blocks) refl
  where
    by_block : (o : Option Block) → innermost i t.blocks ≡ o → IsTracked (close_block o i t)
    by_block none e = h
    by_block (some b) e = elim (Bool-cases b.nested) [
      | inl inner ↦ simp inner (record {
        shown = λ j. shown_closed i j b t.calls t.blocks h.nested e inner (h.shown j);
        nested = IsNested-without i t.blocks h.nested;
      })
      | inr outer ↦ simp outer (record {
        shown = λ j. shown_popped i j b t.calls t.blocks h.nested e outer (h.shown j);
        nested = IsNested-without i t.blocks h.nested;
      })
    ]

step-IsTracked : (e : Event) (t : Tracker) → IsTracked t → IsTracked (step e t)
unfolding step
step-IsTracked (enter i op now) t h = begin-IsTracked i op now t h
step-IsTracked (leave i) t h = end-IsTracked i t h

run-IsTracked : (es : List Event) (t : Tracker) → IsTracked t → IsTracked (run es t)
unfolding run
run-IsTracked [] t h = h
run-IsTracked (e ∷ es) t h = run-IsTracked es (step e t) (step-IsTracked e t h)

-- After any entries and exits of blocks on any threads, the call that the tracker shows for a thread,
-- or its absence, is the outermost one of its open blocks, with its name and its start; and a block
-- remembers that it is nested exactly if an older block of its thread is open.
pub run_outermost : (es : List Event) → IsTracked (run es idle)
run_outermost es = run-IsTracked es idle (record { shown = λ i. refl; nested = tt })
