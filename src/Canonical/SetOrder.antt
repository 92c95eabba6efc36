-- ===== src/Canonical/SetOrder.antt =====
-- canonical.py: the order in which a set gives its elements.
use ha_timescaledb_recorder.Prelude.{
  ◌≡◌, refl, sym, ap, ◌∙◌, Bool, true, false, arith, Bool-cases, inl, inr,
}
use ha_timescaledb_recorder.Canonical.Sorting.{
  comes_before, comes_before_total, comes_before_trans, comes_before_antisymm,
}
use ha_timescaledb_recorder.Canonical.{
  Text, Value, list, set, dict, Items, nil, cons, Fields, end, field, insert_item, sort_items,
  canonical, canonical_items, canonical_fields,
}

module _ {S O : Type 0} (sort_key : Value S O → Text) where
  -- Two values that differ in the order of their sets. Two elements of a set may change places where the
  -- keys of their canonical forms tell these apart.
  mutual
    pub data Alike : Value S O → Value S O → Type 0 where
      same : {v : Value S O} → Alike v v
      trans : {u v w : Value S O} → Alike u v → Alike v w → Alike u w
      in_list : {xs ys : Items S O} → AlikeItems xs ys → Alike (list xs) (list ys)
      in_set : {xs ys : Items S O} → AlikeItems xs ys → Alike (set xs) (set ys)
      in_dict : {fs gs : Fields S O} → AlikeFields fs gs → Alike (dict fs) (dict gs)
      reordered : {xs ys : Items S O} → Reordered xs ys → Alike (set xs) (set ys)

    pub data AlikeItems : Items S O → Items S O → Type 0 where
      no_items : AlikeItems nil nil
      an_item :
          {v w : Value S O} {xs ys : Items S O}
          → Alike v w
          → AlikeItems xs ys
          → AlikeItems (cons v xs) (cons w ys)

    pub data AlikeFields : Fields S O → Fields S O → Type 0 where
      no_fields : AlikeFields end end
      a_field :
          {k : Text} {v w : Value S O} {fs gs : Fields S O}
          → Alike v w
          → AlikeFields fs gs
          → AlikeFields (field k v fs) (field k w gs)

    pub data Reordered : Items S O → Items S O → Type 0 where
      swapped :
          {v w : Value S O} {xs : Items S O}
          → (sort_key (canonical sort_key v) ≡ sort_key (canonical sort_key w)
              → canonical sort_key v ≡ canonical sort_key w)
          → Reordered (cons v (cons w xs)) (cons w (cons v xs))
      further :
          {v : Value S O} {xs ys : Items S O} → Reordered xs ys → Reordered (cons v xs) (cons v ys)

  abbrev insert : Value S O → Items S O → Items S O
  insert = insert_item sort_key

  le : Value S O → Value S O → Bool
  le v w = comes_before (sort_key v) (sort_key w)

  insert-insert :
      (v w : Value S O) (xs : Items S O)
      → le v w ≡ true
      → le w v ≡ false
      → insert v (insert w xs) ≡ insert w (insert v xs)
  unfolding le
  insert-insert v w nil h n = ground (arith, h, n)
  insert-insert v w (cons x xs) h n = elim (Bool-cases (le w x)) [
    | inl y ↦
        let through = comes_before_trans (sort_key v) (sort_key w) (sort_key x) h y in
        ground (arith, h, n, y, through)
    | inr m ↦ elim (Bool-cases (le v x)) [
      | inl y ↦ ground (arith, h, n, m, y)
      | inr k ↦ ground (arith, m, k, insert-insert v w xs h n)
    ]
  ]

  insert_same :
      (v w : Value S O) (xs : Items S O) → v ≡ w → insert v (insert w xs) ≡ insert w (insert v xs)
  insert_same v w xs e =
      ap (λ u. insert v (insert u xs)) (sym e) ∙ ap (λ u. insert u (insert v xs)) e

  insert_comm :
      (v w : Value S O) (xs : Items S O)
      → (sort_key v ≡ sort_key w → v ≡ w)
      → insert v (insert w xs) ≡ insert w (insert v xs)
  unfolding le
  insert_comm v w xs apart = elim (Bool-cases (le v w)) [
    | inl h ↦ elim (Bool-cases (le w v)) [
      | inl k ↦ insert_same v w xs (apart (comes_before_antisymm (sort_key v) (sort_key w) h k))
      | inr n ↦ insert-insert v w xs h n
    ]
    | inr n ↦ sym (insert-insert w v xs (comes_before_total (sort_key v) (sort_key w) n) n)
  ]

  Reordered-sorted :
      {xs ys : Items S O}
      → Reordered xs ys
      → sort_items sort_key (canonical_items sort_key xs)
        ≡ sort_items sort_key (canonical_items sort_key ys)
  unfolding canonical
  Reordered-sorted (swapped {v} {w} {xs} apart) =
      insert_comm (canonical sort_key v) (canonical sort_key w)
        (sort_items sort_key (canonical_items sort_key xs)) apart
  Reordered-sorted (further {v} r) = ap (insert (canonical sort_key v)) (Reordered-sorted r)

  mutual
    unfolding canonical

    value-Alike : {v w : Value S O} → Alike v w → canonical sort_key v ≡ canonical sort_key w
    value-Alike same = refl
    value-Alike (trans a b) = value-Alike a ∙ value-Alike b
    value-Alike (in_list a) = ap list (items-AlikeItems a)
    value-Alike (in_set a) = ap (λ xs. list (sort_items sort_key xs)) (items-AlikeItems a)
    value-Alike (in_dict a) = ap dict (fields-AlikeFields a)
    value-Alike (reordered r) = ap list (Reordered-sorted r)

    items-AlikeItems :
        {xs ys : Items S O}
        → AlikeItems xs ys
        → canonical_items sort_key xs ≡ canonical_items sort_key ys
    items-AlikeItems no_items = refl
    items-AlikeItems (an_item a as_) = λ i. cons (value-Alike a i) (items-AlikeItems as_ i)

    pub fields-AlikeFields :
        {fs gs : Fields S O}
        → AlikeFields fs gs
        → canonical_fields sort_key fs ≡ canonical_fields sort_key gs
    fields-AlikeFields no_fields = refl
    fields-AlikeFields (a_field {k} a rest) =
        λ i. field k (value-Alike a i) (fields-AlikeFields rest i)

  -- Values that differ in the order of their sets, at any depth, have one canonical form.
  pub canonical-Alike : {v w : Value S O} → Alike v w → canonical sort_key v ≡ canonical sort_key w
  canonical-Alike alike = value-Alike alike
