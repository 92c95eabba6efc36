-- ===== src/Migrations/Tests.antt =====
-- Migrations of two tables that are broken off behind the first.
use ha_timescaledb_recorder.Prelude.{
  ap, Bool, ◌&&◌, ◌≡◌, refl, List, [], ◌∷◌, true, false, Option, none, some, map, arith,
  if◌then◌else◌, Bool-cases, subst, sym, inl, inr,
}
use ha_timescaledb_recorder.Canonical.{
  Text, t, Value, text, scalar, opaque, list, set, dict, Items, nil, cons, Fields, end, field,
  canonical_labels, set_repr, canonical, canonical_legacy, same_text,
}
use ha_timescaledb_recorder.Canonical.Plain.{AreCurrent}
use ha_timescaledb_recorder.Migrations.{
  Row, Python, Database, legacy_extra, canonicalize_table, canonicalize_dimension_rows, migrate,
  starts,
}
use ha_timescaledb_recorder.Migrations.Rewritten.{IsMigrating, starts-migrate}

abbrev key_of : Value Unit Unit → Text
key_of (text u) = u
key_of v = []

-- one text is read as a set
abbrev eval : Text → Option (Value Unit Unit)
eval r =
    if same_text r (t "{'b', 'a'}")
    then some (set (cons (text (t "b")) (cons (text (t "a")) nil)))
    else none

-- a structural `==`
same_text_path : (a b : Text) → same_text a b ≡ true → a ≡ b
same_text_path [] [] h = refl
same_text_path [] (d ∷ b) h = absurd (ground (arith, h))
same_text_path (c ∷ a) [] h = absurd (ground (arith, h))
same_text_path (c ∷ a) (d ∷ b) h =
    let heads : c ≡ d = ground (arith, h) in
    let tails = same_text_path a b (ground (arith, h)) in λ i. heads i ∷ tails i

mutual
  same_value : Value Unit Unit → Value Unit Unit → Bool
  same_value (text a) (text b) = same_text a b
  same_value (scalar x) (scalar y) = true
  same_value (opaque x) (opaque y) = true
  same_value (list xs) (list ys) = same_items xs ys
  same_value (set xs) (set ys) = same_items xs ys
  same_value (dict fs) (dict gs) = same_fields fs gs
  same_value v w = false

  same_items : Items Unit Unit → Items Unit Unit → Bool
  same_items nil nil = true
  same_items (cons x xs) (cons y ys) = same_value x y && same_items xs ys
  same_items xs ys = false

  same_fields : Fields Unit Unit → Fields Unit Unit → Bool
  same_fields end end = true
  same_fields (field k v fs) (field l w gs) = same_text k l && (same_value v w && same_fields fs gs)
  same_fields fs gs = false

mutual
  unfolding same_value same_items same_fields

  same_value-path : (v w : Value Unit Unit) → same_value v w ≡ true → v ≡ w
  same_value-path (text a) (text b) h = ap text (same_text_path a b h)
  same_value-path (text x) (scalar y) h = absurd (ground (arith, h))
  same_value-path (text x) (opaque y) h = absurd (ground (arith, h))
  same_value-path (text x) (list y) h = absurd (ground (arith, h))
  same_value-path (text x) (set y) h = absurd (ground (arith, h))
  same_value-path (text x) (dict y) h = absurd (ground (arith, h))
  same_value-path (scalar x) (text y) h = absurd (ground (arith, h))
  same_value-path (scalar x) (scalar y) h = refl
  same_value-path (scalar x) (opaque y) h = absurd (ground (arith, h))
  same_value-path (scalar x) (list y) h = absurd (ground (arith, h))
  same_value-path (scalar x) (set y) h = absurd (ground (arith, h))
  same_value-path (scalar x) (dict y) h = absurd (ground (arith, h))
  same_value-path (opaque x) (text y) h = absurd (ground (arith, h))
  same_value-path (opaque x) (scalar y) h = absurd (ground (arith, h))
  same_value-path (opaque x) (opaque y) h = refl
  same_value-path (opaque x) (list y) h = absurd (ground (arith, h))
  same_value-path (opaque x) (set y) h = absurd (ground (arith, h))
  same_value-path (opaque x) (dict y) h = absurd (ground (arith, h))
  same_value-path (list x) (text y) h = absurd (ground (arith, h))
  same_value-path (list x) (scalar y) h = absurd (ground (arith, h))
  same_value-path (list x) (opaque y) h = absurd (ground (arith, h))
  same_value-path (list xs) (list ys) h = ap list (same_items-path xs ys h)
  same_value-path (list x) (set y) h = absurd (ground (arith, h))
  same_value-path (list x) (dict y) h = absurd (ground (arith, h))
  same_value-path (set x) (text y) h = absurd (ground (arith, h))
  same_value-path (set x) (scalar y) h = absurd (ground (arith, h))
  same_value-path (set x) (opaque y) h = absurd (ground (arith, h))
  same_value-path (set x) (list y) h = absurd (ground (arith, h))
  same_value-path (set xs) (set ys) h = ap set (same_items-path xs ys h)
  same_value-path (set x) (dict y) h = absurd (ground (arith, h))
  same_value-path (dict x) (text y) h = absurd (ground (arith, h))
  same_value-path (dict x) (scalar y) h = absurd (ground (arith, h))
  same_value-path (dict x) (opaque y) h = absurd (ground (arith, h))
  same_value-path (dict x) (list y) h = absurd (ground (arith, h))
  same_value-path (dict x) (set y) h = absurd (ground (arith, h))
  same_value-path (dict fs) (dict gs) h = ap dict (same_fields-path fs gs h)

  same_items-path : (xs ys : Items Unit Unit) → same_items xs ys ≡ true → xs ≡ ys
  same_items-path nil nil h = refl
  same_items-path nil (cons y ys) h = absurd (ground (arith, h))
  same_items-path (cons x xs) nil h = absurd (ground (arith, h))
  same_items-path (cons x xs) (cons y ys) h =
      let heads = same_value-path x y (ground (arith, h)) in
      let tails = same_items-path xs ys (ground (arith, h)) in λ i. cons (heads i) (tails i)

  same_fields-path : (fs gs : Fields Unit Unit) → same_fields fs gs ≡ true → fs ≡ gs
  same_fields-path end end h = refl
  same_fields-path end (field l w gs) h = absurd (ground (arith, h))
  same_fields-path (field k v fs) end h = absurd (ground (arith, h))
  same_fields-path (field k v fs) (field l w gs) h =
      let keys = same_text_path k l (ground (arith, h)) in
      let heads = same_value-path v w (ground (arith, h)) in
      let tails = same_fields-path fs gs (ground (arith, h)) in
      λ i. field (keys i) (heads i) (tails i)

abbrev same_texts : List Text → List Text → Bool
same_texts [] [] = true
same_texts (a ∷ xs) (b ∷ ys) = same_text a b && same_texts xs ys
same_texts xs ys = false

same_texts-path : (xs ys : List Text) → same_texts xs ys ≡ true → xs ≡ ys
same_texts-path [] [] h = refl
same_texts-path [] (y ∷ ys) h = absurd (ground (arith, h))
same_texts-path (x ∷ xs) [] h = absurd (ground (arith, h))
same_texts-path (x ∷ xs) (y ∷ ys) h =
    let heads = same_text_path x y (ground (arith, h)) in
    let tails = same_texts-path xs ys (ground (arith, h)) in λ i. heads i ∷ tails i

abbrev same_option : {A : Type 0} → (A → A → Bool) → Option A → Option A → Bool
same_option same none none = true
same_option same (some a) (some b) = same a b
same_option same a b = false

same_option-path :
    {A : Type 0} (same : A → A → Bool)
    → ((a b : A) → same a b ≡ true → a ≡ b)
    → (a b : Option A) → same_option same a b ≡ true
    → a ≡ b
same_option-path same path none none h = refl
same_option-path same path none (some b) h = absurd (ground (arith, h))
same_option-path same path (some a) none h = absurd (ground (arith, h))
same_option-path same path (some a) (some b) h = ap some (path a b h)

abbrev python : Python Unit Unit
python = record {
  same_labels = same_option same_texts;
  same_extra = same_option same_value;
  sort_key = key_of;
  literal_eval = eval;
}

abbrev row_of : Value Unit Unit → Row Unit Unit
row_of v = record { rid = 1; labels = some (t "y" ∷ t "x" ∷ []); extra = some v }

abbrev old : List (Row Unit Unit)
old = row_of (dict (field (t "options") (text (t "{'b', 'a'}")) end)) ∷ []

abbrev new : List (Row Unit Unit)
new =
    record {
      rid = 1;
      labels = some (t "x" ∷ t "y" ∷ []);
      extra =
          some
            (dict (field (t "options") (list (cons (text (t "a")) (cons (text (t "b")) nil))) end));
    }
    ∷ []

broken_off :
    starts python (1 ∷ []) (record { tables = old ∷ old ∷ []; is_marked = false })
    ≡ record { tables = new ∷ old ∷ []; is_marked = false }
unfolding starts migrate canonicalize_dimension_rows canonicalize_table canonical_legacy canonical
    set_repr same_value same_items same_fields
broken_off = refl

abbrev IsParsed : Option (Value Unit Unit) → Type 0
IsParsed none = Unit
IsParsed (some (text u)) = Unit
IsParsed (some (scalar s)) = Unit
IsParsed (some (opaque o)) = Unit
IsParsed (some (list xs)) = Unit
IsParsed (some (set xs)) = AreCurrent xs
IsParsed (some (dict fs)) = Unit

eval-IsParsed : (r : Text) → IsParsed (eval r)
unfolding set_repr
eval-IsParsed r = elim (Bool-cases (same_text r (t "{'b', 'a'}"))) [
  | inl y ↦
      subst
        (λ b.
          IsParsed (if b then some (set (cons (text (t "b")) (cons (text (t "a")) nil))) else none))
        (sym y) (refl, (refl, tt))
  | inr n ↦
      subst
        (λ b.
          IsParsed (if b then some (set (cons (text (t "b")) (cons (text (t "a")) nil))) else none))
        (sym n) tt
]

eval-AreCurrent : (r : Text) (xs : Items Unit Unit) → eval r ≡ some (set xs) → AreCurrent xs
eval-AreCurrent r xs e = subst IsParsed e (eval-IsParsed r)

labels_kept :
    (l : Option (List Text))
    → python.same_labels (canonical_labels l) l ≡ true
    → canonical_labels l ≡ l
labels_kept l = same_option-path same_texts same_texts-path (canonical_labels l) l

extra_kept :
    (o : Option (Value Unit Unit))
    → python.same_extra (legacy_extra python o) o ≡ true
    → legacy_extra python o ≡ o
extra_kept o = same_option-path same_value same_value-path (legacy_extra python o) o

abbrev broken : Database Unit Unit
broken = starts python (1 ∷ 0 ∷ []) (record { tables = old ∷ new ∷ []; is_marked = false })

starts-migrate_example :
    IsMigrating python eval-AreCurrent labels_kept extra_kept (old ∷ new ∷ []) broken
    × (migrate python 2 broken
        ≡ record { tables = map (canonicalize_table python) (old ∷ new ∷ []); is_marked = true })
starts-migrate_example =
    starts-migrate python eval-AreCurrent labels_kept extra_kept (1 ∷ 0 ∷ []) 2 old (new ∷ [])
      (omega arith)
