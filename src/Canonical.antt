-- ===== src/Canonical.antt =====
-- custom_components/timescaledb_recorder/canonical.py: the canonical form of the fields of a registry entry.
-- A text is its code points.
mod Texts
pub mod Sorting
pub mod SetOrder
pub mod Plain
mod Tests
use ha_timescaledb_recorder.Prelude.{
  ℕ, zero, suc, List, [], ◌∷◌, Bool, true, false, ◌&&◌, ◌||◌, Option, none, some, ltb, ◌==◌, drop,
  is_empty, length, if◌then◌else◌,
}
pub use ha_timescaledb_recorder.Canonical.Texts.{Text, t, same_text, starts_with, is_in}
use ha_timescaledb_recorder.Canonical.Sorting.{sort_by, comes_before, insert_by}

-- A value of Python as `canonical` tells them apart: `scalar` is None, a Boolean or a number, `list` also a
-- tuple, `opaque` an object of another class.
mutual
  pub data Value (S O : Type 0) : Type 0 where
    text : Text → Value S O
    scalar : S → Value S O
    opaque : O → Value S O
    list : Items S O → Value S O
    set : Items S O → Value S O
    dict : Fields S O → Value S O

  pub data Items (S O : Type 0) : Type 0 where
    nil : Items S O
    cons : Value S O → Items S O → Items S O

  pub data Fields (S O : Type 0) : Type 0 where
    end : Fields S O
    field : Text → Value S O → Fields S O → Fields S O

abbrev ends_with : ℕ → Text → Bool
ends_with c [] = false
ends_with c (d ∷ []) = c == d
ends_with c (d ∷ e ∷ t) = ends_with c (e ∷ t)

-- `text[:-1]`
abbrev but_last : Text → Text
but_last [] = []
but_last (d ∷ []) = []
but_last (d ∷ e ∷ t) = d ∷ but_last (e ∷ t)

-- what `canonical_legacy` would parse; `none` where it keeps the text
unfoldable pub set_repr : Text → Option Text
set_repr v =
    let inner = but_last (drop (length (t "frozenset(")) v) in
    if starts_with (t "frozenset(") v && ends_with b')' v
    then some (if is_empty inner then t "set()" else inner)
    else if same_text (t "set()") v || (starts_with (t "{") v && ends_with b'}' v)
    then some v
    else none

-- `canonical_labels`; `none` is None
abbrev pub canonical_labels : Option (List Text) → Option (List Text)
canonical_labels none = none
canonical_labels (some labels) = some (sort_by (λ label. label) labels)

module _ {S O : Type 0} (sort_key : Value S O → Text) where
  abbrev insert_item : Value S O → Items S O → Items S O
  insert_item v nil = cons v nil
  insert_item v (cons w ws) =
      let rest = insert_item v ws in
      if comes_before (sort_key v) (sort_key w) then cons v (cons w ws) else cons w rest

  -- `sorted(..., key=_sort_key)`
  abbrev pub sort_items : Items S O → Items S O
  sort_items nil = nil
  sort_items (cons v vs) = insert_item v (sort_items vs)

  unfoldable mutual
    pub canonical : Value S O → Value S O
    canonical (text v) = text v
    canonical (scalar s) = scalar s
    canonical (opaque o) = opaque o
    canonical (list xs) = list (canonical_items xs)
    canonical (set xs) = list (sort_items (canonical_items xs))
    canonical (dict fs) = dict (canonical_fields fs)

    pub canonical_items : Items S O → Items S O
    canonical_items nil = nil
    canonical_items (cons v vs) = cons (canonical v) (canonical_items vs)

    pub canonical_fields : Fields S O → Fields S O
    canonical_fields end = end
    canonical_fields (field k v fs) = field k (canonical v) (canonical_fields fs)

  module _ (literal_eval : Text → Option (Value S O)) where
    abbrev pub accept : Text → Option (Value S O) → Value S O
    accept v (some (set xs)) = canonical (set xs)
    accept v _ = text v

    abbrev pub legacy_text : Text → Option Text → Value S O
    legacy_text v none = text v
    legacy_text v (some r) = accept v (literal_eval r)

    unfoldable mutual
      unfolding set_repr

      pub canonical_legacy : Value S O → Value S O
      canonical_legacy (text v) = legacy_text v (set_repr v)
      canonical_legacy (scalar s) = scalar s
      canonical_legacy (opaque o) = opaque o
      canonical_legacy (list xs) = list (legacy_items xs)
      canonical_legacy (set xs) = set xs
      canonical_legacy (dict fs) = dict (legacy_fields fs)

      pub legacy_items : Items S O → Items S O
      legacy_items nil = nil
      legacy_items (cons v vs) = cons (canonical_legacy v) (legacy_items vs)

      pub legacy_fields : Fields S O → Fields S O
      legacy_fields end = end
      legacy_fields (field k v fs) = field k (canonical_legacy v) (legacy_fields fs)
