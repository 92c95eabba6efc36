-- ===== src/Rollup/Job/Ranges.antt =====
-- The dirty ranges of the rollup: the minutes they cover, and the number of days in them.
use mathlib.Core.Option.{some-injective}
use text.Mathlib.Text.{◌==◌ as str_eq}
use ha_timescaledb_recorder.Prelude.{
  ℕ, ◌+◌, ◌/◌, ◌≤◌, ◌<◌, ◌≡◌, refl, sym, ap, ◌∙◌, subst, List, [], ◌∷◌, ◌++◌, Bool, true, false,
  ◌&&◌, ◌||◌, arith, none, some, String, ltb, leb, ◌==◌, any, any-append, if◌then◌else◌, Bool-cases,
  inl, inr, ◌⊎◌,
}
use ha_timescaledb_recorder.Rollup.{minute}
use ha_timescaledb_recorder.Rollup.Job.{Dirty, days, all_days, newest_end, range_to, replace_range}

-- the refresh of the range reaches the minute
abbrev pub covers : String → ℕ → Dirty → Bool
covers id k d = str_eq id d.entity_id && leb (d.from_ts / minute) k && ltb k (d.to_ts / minute)

abbrev pub is_dirty : String → ℕ → List Dirty → Bool
is_dirty id k ds = any (covers id k) ds

some≢none : (d : Dirty) → ¬ (some d ≡ none)
some≢none d h = absurd (ground (arith, h))

some_found :
    (end : ℕ) (d e : Dirty) (ds : List Dirty)
    → (d.to_ts == end) ≡ true
    → range_to end (d ∷ ds) ≡ some e
    → d ≡ e
some_found end d e ds y h =
    some-injective d e ((λ i. if sym y i then some d else range_to end ds) ∙ h)

next_found :
    (end : ℕ) (d e : Dirty) (ds : List Dirty)
    → (d.to_ts == end) ≡ false
    → range_to end (d ∷ ds) ≡ some e
    → range_to end ds ≡ some e
next_found end d e ds n h = (λ i. if sym n i then some d else range_to end ds) ∙ h

-- a minute stays covered unless the range that goes covers it
pub replaced_dirty :
    (id : String) (k end : ℕ) (rest ds : List Dirty) (e : Dirty)
    → range_to end ds ≡ some e
    → is_dirty id k ds ≡ true
    → covers id k e ≡ true ⊎ is_dirty id k (replace_range end rest ds) ≡ true
replaced_dirty id k end rest [] e h on = inr on
replaced_dirty id k end rest (d ∷ ds) e h on = elim (Bool-cases (d.to_ts == end)) [
  | inl y ↦
      let same = some_found end d e ds y h in
      elim (Bool-cases (covers id k d)) [
        | inl z ↦ inl (subst (λ x. covers id k x ≡ true) same z)
        | inr n ↦
            let here = any-append (covers id k) rest ds in
            let left : is_dirty id k (rest ++ ds) ≡ true = ground (arith, here, n, on) in
            inr (
              (λ i. is_dirty id k (if y i then rest ++ ds else d ∷ replace_range end rest ds))
              ∙ left)
      ]
  | inr n ↦
      let kept : is_dirty id k (replace_range end rest (d ∷ ds))
          ≡ (covers id k d || is_dirty id k (replace_range end rest ds)) =
        λ i. is_dirty id k (if n i then rest ++ ds else d ∷ replace_range end rest ds) in
      elim (Bool-cases (covers id k d)) [
        | inl z ↦ inr (kept ∙ (λ i. z i || is_dirty id k (replace_range end rest ds)))
        | inr m ↦
            elim (replaced_dirty id k end rest ds e (next_found end d e ds n h)
              (ground (arith, m, on))) [ inl c ↦ inl c | inr r ↦ inr (kept ∙ ground (arith, r)) ]
      ]
]

pub put_dirty :
    (id : String) (k end : ℕ) (rest ds : List Dirty) (e : Dirty)
    → range_to end ds ≡ some e
    → is_dirty id k rest ≡ true
    → is_dirty id k (replace_range end rest ds) ≡ true
put_dirty id k end rest [] e h on = ground (arith, h)
put_dirty id k end rest (d ∷ ds) e h on = elim (Bool-cases (d.to_ts == end)) [
  | inl y ↦
      let here = any-append (covers id k) rest ds in
      let left : is_dirty id k (rest ++ ds) ≡ true = ground (arith, here, on) in
      (λ i. is_dirty id k (if y i then rest ++ ds else d ∷ replace_range end rest ds)) ∙ left
  | inr n ↦
      let ih = put_dirty id k end rest ds e (next_found end d e ds n h) on in
      (λ i. is_dirty id k (if n i then rest ++ ds else d ∷ replace_range end rest ds))
      ∙ ground (arith, ih)
]

none_ends :
    (end : ℕ) (ds : List Dirty)
    → range_to end ds ≡ none
    → newest_end ds ≤ end
    → ds ≡ [] ⊎ newest_end ds < end
none_ends end [] h le = inl refl
none_ends end (d ∷ ds) h le = elim (Bool-cases (d.to_ts == end)) [
  | inl y ↦ absurd (some≢none d ((λ i. if sym y i then some d else range_to end ds) ∙ h))
  | inr n ↦
      elim (none_ends end ds ((λ i. if sym n i then some d else range_to end ds) ∙ h)
        (omega (arith, le))) [
          | inl e ↦
              let nothing : newest_end ds ≡ 0 = ap newest_end e in
              inr (ground (arith, n, nothing, le))
          | inr lt ↦ inr (ground (arith, n, lt, le))
        ]
]

-- some range ends at the newest end
pub range_to-newest_end : (ds : List Dirty) → range_to (newest_end ds) ds ≡ none → ds ≡ []
range_to-newest_end ds h = elim (none_ends (newest_end ds) ds h (omega arith)) [
  | inl e ↦ e
  | inr lt ↦ absurd (omega (arith, lt))
]

all_days-append : (xs ys : List Dirty) → all_days (xs ++ ys) ≡ all_days xs + all_days ys
all_days-append [] ys = omega arith
all_days-append (x ∷ xs) ys = ap (λ n. days x + n) (all_days-append xs ys) ∙ omega arith

pub all_days-replace_range :
    (end : ℕ) (rest ds : List Dirty) (e : Dirty)
    → range_to end ds ≡ some e
    → all_days rest < days e
    → all_days (replace_range end rest ds) < all_days ds
all_days-replace_range end rest [] e h lt = ground (arith, h)
all_days-replace_range end rest (d ∷ ds) e h lt = elim (Bool-cases (d.to_ts == end)) [
  | inl y ↦
      let same = ap days (some_found end d e ds y h) in
      let now : all_days (replace_range end rest (d ∷ ds)) ≡ all_days (rest ++ ds) =
        λ i. all_days (if y i then rest ++ ds else d ∷ replace_range end rest ds) in
      subst (λ n. n < days d + all_days ds) (sym (now ∙ all_days-append rest ds))
        (omega (arith, lt, same))
  | inr n ↦
      let ih = all_days-replace_range end rest ds e (next_found end d e ds n h) lt in
      let now : all_days (replace_range end rest (d ∷ ds))
          ≡ days d + all_days (replace_range end rest ds) =
        λ i. all_days (if n i then rest ++ ds else d ∷ replace_range end rest ds) in
      subst (λ n. n < days d + all_days ds) (sym now) (omega (arith, ih))
]
