-- ===== src/Rollup/Sync/Views.antt =====
-- What the tables of the rollup hold of one entity, and what the statements of a config sync do to it.

use text.Mathlib.Text.{◌==◌ as str_eq, is_lt}
use Prim.Native.String.{compare}
use ha_timescaledb_recorder.Prelude.{
  ℕ, ◌≡◌, refl, sym, ap, ◌∙◌, subst, List, [], ◌∷◌, ◌++◌, Bool, true, false, not, Option, none,
  some, String, filter, if◌then◌else◌, Bool-cases, inl, inr, append-nil,
}
use ha_timescaledb_recorder.Rollup.{Configured, MinuteRow, find_entity}
use ha_timescaledb_recorder.Rollup.Rows.{text-≡, text_refl, text_sym}
use ha_timescaledb_recorder.Rollup.Job.{Dirty, Tables}
use ha_timescaledb_recorder.Rollup.Sync.{
  Entry, delete_entity, upsert, configured, history, delete_dirty, remove, refill,
}

-- the elements that have the key
abbrev pub with_key : {B : Type 0} → (B → String) → String → List B → List B
with_key key id xs = filter (λ x. str_eq (key x) id) xs

with_key-delete :
    {B : Type 0} (key : B → String) (id other : String) (xs : List B)
    → with_key key other (filter (λ x. not (str_eq (key x) id)) xs)
      ≡ (if str_eq id other then [] else with_key key other xs)
with_key-delete key id other [] = elim (Bool-cases (str_eq id other)) [
  | inl y ↦ λ i. if sym y i then [] else []
  | inr n ↦ λ i. if sym n i then [] else []
]
with_key-delete key id other (x ∷ xs) =
    let rest = filter (λ x. not (str_eq (key x) id)) xs in
    let ih = with_key-delete key id other xs in
    elim (Bool-cases (str_eq (key x) other)) [
      | inl y ↦
          let same = text-≡ (key x) other y in
          elim (Bool-cases (str_eq id other)) [
            | inl z ↦
                let gone : str_eq (key x) id ≡ true =
                  subst (λ s. str_eq (key x) s ≡ true) (same ∙ sym (text-≡ id other z))
                    (text_refl (key x)) in
                (λ i. with_key key other (if not (gone i) then x ∷ rest else rest))
                ∙ ih
                ∙ (λ i. if z i then [] else with_key key other xs)
                ∙ (λ i. if sym z i then [] else with_key key other (x ∷ xs))
            | inr n ↦
                let stays : str_eq (key x) id ≡ false =
                  ap (λ s. str_eq s id) same ∙ text_sym id other n in
                (λ i. with_key key other (if not (stays i) then x ∷ rest else rest))
                ∙ (λ i. if y i then x ∷ with_key key other rest else with_key key other rest)
                ∙ ap (λ zs. x ∷ zs) (ih ∙ (λ i. if n i then [] else with_key key other xs))
                ∙ (λ i. if sym y i then x ∷ with_key key other xs else with_key key other xs)
                ∙ (λ i. if sym n i then [] else with_key key other (x ∷ xs))
          ]
      | inr n ↦ either_way key id other x rest n ∙ ih ∙ (λ i.
          if str_eq id other
          then []
          else (if sym n i then x ∷ with_key key other xs else with_key key other xs))
    ]
  where
    either_way :
        {B : Type 0} (key : B → String) (id other : String) (x : B) (rest : List B)
        → str_eq (key x) other ≡ false
        → with_key key other (if not (str_eq (key x) id) then x ∷ rest else rest)
          ≡ with_key key other rest
    either_way key id other x rest n = elim (Bool-cases (str_eq (key x) id)) [
      | inl y ↦ λ i. with_key key other (if not (y i) then x ∷ rest else rest)
      | inr m ↦
          (λ i. with_key key other (if not (m i) then x ∷ rest else rest))
          ∙ (λ i. if n i then x ∷ with_key key other rest else with_key key other rest)
    ]

abbrev first_of : {B : Type 0} → List B → Option B
first_of [] = none
first_of (x ∷ xs) = some x

find_entity-first_of :
    (id : String) (cs : List Configured)
    → find_entity id cs ≡ first_of (with_key (λ c. c.entity_id) id cs)
find_entity-first_of id [] = refl
find_entity-first_of id (c ∷ cs) =
    let rest = with_key (λ c. c.entity_id) id cs in
    elim (Bool-cases (str_eq c.entity_id id)) [
      | inl y ↦
          (λ i. if y i then some c else find_entity id cs)
          ∙ (λ i. first_of (if sym y i then c ∷ rest else rest))
      | inr n ↦
          (λ i. if n i then some c else find_entity id cs)
          ∙ find_entity-first_of id cs
          ∙ (λ i. first_of (if sym n i then c ∷ rest else rest))
    ]

first_of-if :
    {B : Type 0} (b : Bool) (xs : List B)
    → first_of (if b then [] else xs) ≡ (if b then none else first_of xs)
first_of-if true xs = refl
first_of-if false xs = refl

pub find_entity-delete_entity :
    (id other : String) (cs : List Configured)
    → find_entity other (delete_entity id cs)
      ≡ (if str_eq id other then none else find_entity other cs)
find_entity-delete_entity id other cs =
    find_entity-first_of other (delete_entity id cs)
    ∙ ap first_of (with_key-delete (λ c. c.entity_id) id other cs)
    ∙ first_of-if (str_eq id other) (with_key (λ c. c.entity_id) other cs)
    ∙ (λ i. if str_eq id other then none else sym (find_entity-first_of other cs) i)

pub find_entity-upsert :
    (other : String) (c : Configured) (cs : List Configured)
    → find_entity other (upsert c cs)
      ≡ (if str_eq c.entity_id other then some c else find_entity other cs)
find_entity-upsert other c [] = refl
find_entity-upsert other c (d ∷ ds) =
    let before = is_lt (compare c.entity_id d.entity_id) in
    let spelled = λ (b : Bool).
      find_entity other (if b then c ∷ ds else if before then c ∷ d ∷ ds else d ∷ upsert c ds) in
    elim (Bool-cases (str_eq d.entity_id c.entity_id)) [
      | inl y ↦
          ap spelled y
          ∙ shadowed (str_eq c.entity_id other) (some c) (some d) (find_entity other ds)
          ∙ (λ i.
              if str_eq c.entity_id other
              then some c
              else if str_eq (sym (text-≡ d.entity_id c.entity_id y) i) other
              then some d
              else find_entity other ds)
      | inr n ↦ ap spelled n ∙ elim (Bool-cases before) [
        | inl z ↦ λ i. find_entity other (if z i then c ∷ d ∷ ds else d ∷ upsert c ds)
        | inr m ↦
            (λ i. find_entity other (if m i then c ∷ d ∷ ds else d ∷ upsert c ds))
            ∙ (λ i. if str_eq d.entity_id other then some d else find_entity-upsert other c ds i)
            ∙ elim (Bool-cases (str_eq c.entity_id other)) [
              | inl e ↦
                  let not_d : str_eq d.entity_id other ≡ false =
                    ap (str_eq d.entity_id) (sym (text-≡ c.entity_id other e)) ∙ n in
                  (λ i. if not_d i then some d else if e i then some c else find_entity other ds)
                  ∙ (λ i. if sym e i then some c else find_entity other (d ∷ ds))
              | inr e ↦
                  (λ i.
                    if str_eq d.entity_id other
                    then some d
                    else if e i
                    then some c
                    else find_entity other ds)
                  ∙ (λ i. if sym e i then some c else find_entity other (d ∷ ds))
            ]
      ]
    ]
  where
    shadowed :
        (b : Bool) (p q r : Option Configured)
        → (if b then p else r) ≡ (if b then p else if b then q else r)
    shadowed true p q r = refl
    shadowed false p q r = refl

with_key-append :
    {B : Type 0} (key : B → String) (id : String) (xs ys : List B)
    → with_key key id (xs ++ ys) ≡ with_key key id xs ++ with_key key id ys
with_key-append key id [] ys = refl
with_key-append key id (x ∷ xs) ys = elim (Bool-cases (str_eq (key x) id)) [
  | inl y ↦ rw y (ap (λ zs. x ∷ zs) (with_key-append key id xs ys))
  | inr n ↦ rw n (with_key-append key id xs ys)
]

history_of :
    (id other : String) (first : Option ℕ) (now : ℕ)
    → with_key (λ d. d.entity_id) other (history id first now)
      ≡ (if str_eq id other then history id first now else [])
history_of id other (some f) now = refl
history_of id other none now = elim (Bool-cases (str_eq id other)) [
  | inl y ↦ λ i. if sym y i then [] else []
  | inr n ↦ λ i. if sym n i then [] else []
]

-- what the tables hold of one entity
pub record View (A : Type 0) : Type 0 where
  pub config : Option Configured
  pub ranges : List Dirty
  pub minutes : List (MinuteRow A)

module _ {A : Type 0} where
  abbrev pub nothing_of : View A
  nothing_of = record { config = none; ranges = []; minutes = [] }

  abbrev pub view : String → Tables A → View A
  view id t = record {
    config = find_entity id t.entities;
    ranges = with_key (λ d. d.entity_id) id t.dirty;
    minutes = with_key (λ r. r.entity_id) id t.rows;
  }

  abbrev as_view : Option Configured → List Dirty → List (MinuteRow A) → View A
  as_view o ds rows = record { config = o; ranges = ds; minutes = rows }

  pub view-remove :
      (id other : String) (t : Tables A)
      → view other (remove id t) ≡ (if str_eq id other then nothing_of else view other t)
  view-remove id other t =
      (λ i. record {
        config = find_entity-delete_entity id other t.entities i;
        ranges = with_key-delete (λ d. d.entity_id) id other t.dirty i;
        minutes = with_key-delete (λ r. r.entity_id) id other t.rows i;
      })
      ∙ one_test (str_eq id other) (find_entity other t.entities)
          (with_key (λ d. d.entity_id) other t.dirty) (with_key (λ r. r.entity_id) other t.rows)
    where
      one_test :
          (b : Bool) (o : Option Configured) (ds : List Dirty) (rows : List (MinuteRow A))
          → record {
            config = if b then none else o;
            ranges = if b then [] else ds;
            minutes = if b then [] else rows;
          }
            ≡ (if b then nothing_of else record { config = o; ranges = ds; minutes = rows })
      one_test true o ds rows = refl
      one_test false o ds rows = refl

  abbrev pub refilled : Option ℕ → ℕ → Entry → View A
  refilled first now w = record {
    config = some (configured w);
    ranges = history w.entity_id first now;
    minutes = [];
  }

  pub view-refill :
      (first : Option ℕ) (now : ℕ) (w : Entry) (other : String) (t : Tables A)
      → view other (refill first now w t)
        ≡ (if str_eq w.entity_id other then refilled first now w else view other t)
  view-refill first now w other t =
      (λ i. record {
        config = find_entity-upsert other (configured w) t.entities i;
        ranges =
            (with_key-append (λ d. d.entity_id) other (delete_dirty w.entity_id t.dirty)
                  (history w.entity_id first now)
                ∙ (λ i.
                    with_key-delete (λ d. d.entity_id) w.entity_id other t.dirty i
                    ++ history_of w.entity_id other first now i))
              i;
        minutes = with_key-delete (λ r. r.entity_id) w.entity_id other t.rows i;
      })
      ∙ one_test (str_eq w.entity_id other) (find_entity other t.entities)
          (with_key (λ d. d.entity_id) other t.dirty) (history w.entity_id first now)
          (with_key (λ r. r.entity_id) other t.rows)
    where
      one_test :
          (b : Bool) (o : Option Configured) (ds new : List Dirty) (rows : List (MinuteRow A))
          → as_view
              (if b then some (configured w) else o)
              ((if b then [] else ds) ++ (if b then new else []))
              (if b then [] else rows)
            ≡ (if b
                then record { config = some (configured w); ranges = new; minutes = [] }
                else record { config = o; ranges = ds; minutes = rows })
      one_test true o ds new rows = refl
      one_test false o ds new rows =
          λ i. record { config = o; ranges = append-nil ds i; minutes = rows }
