-- ===== src/Canonical/Plain.antt =====
-- canonical.py: what the canonical form looks like, and the values that are in it already.
use ha_timescaledb_recorder.Prelude.{◌≡◌, refl, ap, Option, none, Bool-cases, inl, inr}
use ha_timescaledb_recorder.Canonical.Sorting.{comes_before}
use ha_timescaledb_recorder.Canonical.{
  Text, Value, text, scalar, opaque, list, set, dict, Items, nil, cons, Fields, end, field,
  set_repr, insert_item, sort_items, canonical, canonical_items, canonical_fields, canonical_legacy,
  legacy_items, legacy_fields,
}

module _ {S O : Type 0} where
  -- no set anywhere
  abbrev mutual
    pub IsPlain : Value S O → Type 0
    IsPlain (text u) = Unit
    IsPlain (scalar s) = Unit
    IsPlain (opaque o) = Unit
    IsPlain (list xs) = ArePlain xs
    IsPlain (set xs) = ⊥
    IsPlain (dict fs) = HasPlainFields fs

    pub ArePlain : Items S O → Type 0
    ArePlain nil = Unit
    ArePlain (cons v vs) = IsPlain v × ArePlain vs

    pub HasPlainFields : Fields S O → Type 0
    HasPlainFields end = Unit
    HasPlainFields (field k v fs) = IsPlain v × HasPlainFields fs

  -- no text that older versions could have written for a set
  abbrev mutual
    pub IsCurrent : Value S O → Type 0
    IsCurrent (text u) = set_repr u ≡ none
    IsCurrent (scalar s) = Unit
    IsCurrent (opaque o) = Unit
    IsCurrent (list xs) = AreCurrent xs
    IsCurrent (set xs) = AreCurrent xs
    IsCurrent (dict fs) = HasCurrentFields fs

    pub AreCurrent : Items S O → Type 0
    AreCurrent nil = Unit
    AreCurrent (cons v vs) = IsCurrent v × AreCurrent vs

    pub HasCurrentFields : Fields S O → Type 0
    HasCurrentFields end = Unit
    HasCurrentFields (field k v fs) = IsCurrent v × HasCurrentFields fs

module _ {S O : Type 0} (sort_key : Value S O → Text) where
  -- what holds of the items of a list holds of them sorted
  module _ (Q : Value S O → Type 0) (Qs : Items S O → Type 0)
      (pack : (v : Value S O) (xs : Items S O) → Q v × Qs xs → Qs (cons v xs))
      (unpack : (v : Value S O) (xs : Items S O) → Qs (cons v xs) → Q v × Qs xs) where
    insert_item-all :
        (v : Value S O) (xs : Items S O) → Q v → Qs nil → Qs xs → Qs (insert_item sort_key v xs)
    insert_item-all v nil p none_ ps = pack v nil (p, none_)
    insert_item-all v (cons x xs) p none_ ps =
        let (q, qs) = unpack x xs ps in
        elim (Bool-cases (comes_before (sort_key v) (sort_key x))) [
          | inl y ↦ rw y (pack v (cons x xs) (p, ps))
          | inr n ↦ rw n (pack x (insert_item sort_key v xs) (q, insert_item-all v xs p none_ qs))
        ]

    sort_items-all : (xs : Items S O) → Qs nil → Qs xs → Qs (sort_items sort_key xs)
    sort_items-all nil none_ ps = none_
    sort_items-all (cons x xs) none_ ps =
        let (q, qs) = unpack x xs ps in
        insert_item-all x (sort_items sort_key xs) q none_ (sort_items-all xs none_ qs)

  sort_items-ArePlain : (xs : Items S O) → ArePlain xs → ArePlain (sort_items sort_key xs)
  sort_items-ArePlain xs h = sort_items-all IsPlain ArePlain (λ v xs p. p) (λ v xs p. p) xs tt h

  sort_items-AreCurrent : (xs : Items S O) → AreCurrent xs → AreCurrent (sort_items sort_key xs)
  sort_items-AreCurrent xs h =
      sort_items-all IsCurrent AreCurrent (λ v xs p. p) (λ v xs p. p) xs tt h

  mutual
    unfolding canonical

    pub canonical-IsPlain : (v : Value S O) → IsPlain (canonical sort_key v)
    canonical-IsPlain (text u) = tt
    canonical-IsPlain (scalar s) = tt
    canonical-IsPlain (opaque o) = tt
    canonical-IsPlain (list xs) = items-ArePlain xs
    canonical-IsPlain (set xs) =
        sort_items-ArePlain (canonical_items sort_key xs) (items-ArePlain xs)
    canonical-IsPlain (dict fs) = fields-ArePlain fs

    items-ArePlain : (xs : Items S O) → ArePlain (canonical_items sort_key xs)
    items-ArePlain nil = tt
    items-ArePlain (cons x xs) = (canonical-IsPlain x, items-ArePlain xs)

    fields-ArePlain : (fs : Fields S O) → HasPlainFields (canonical_fields sort_key fs)
    fields-ArePlain end = tt
    fields-ArePlain (field k v fs) = (canonical-IsPlain v, fields-ArePlain fs)

  mutual
    unfolding canonical

    pub canonical-IsCurrent : (v : Value S O) → IsCurrent v → IsCurrent (canonical sort_key v)
    canonical-IsCurrent (text u) h = h
    canonical-IsCurrent (scalar s) h = tt
    canonical-IsCurrent (opaque o) h = tt
    canonical-IsCurrent (list xs) h = items-AreCurrent xs h
    canonical-IsCurrent (set xs) h =
        sort_items-AreCurrent (canonical_items sort_key xs) (items-AreCurrent xs h)
    canonical-IsCurrent (dict fs) h = fields-AreCurrent fs h

    items-AreCurrent : (xs : Items S O) → AreCurrent xs → AreCurrent (canonical_items sort_key xs)
    items-AreCurrent nil h = tt
    items-AreCurrent (cons x xs) (p, ps) = (canonical-IsCurrent x p, items-AreCurrent xs ps)

    fields-AreCurrent :
        (fs : Fields S O) → HasCurrentFields fs → HasCurrentFields (canonical_fields sort_key fs)
    fields-AreCurrent end h = tt
    fields-AreCurrent (field k v fs) (p, ps) = (canonical-IsCurrent v p, fields-AreCurrent fs ps)

  mutual
    unfolding canonical

    canonical-Plain : (v : Value S O) → IsPlain v → canonical sort_key v ≡ v
    canonical-Plain (text u) h = refl
    canonical-Plain (scalar s) h = refl
    canonical-Plain (opaque o) h = refl
    canonical-Plain (list xs) h = ap list (items-Plain xs h)
    canonical-Plain (set xs) h = absurd h
    canonical-Plain (dict fs) h = ap dict (fields-Plain fs h)

    items-Plain : (xs : Items S O) → ArePlain xs → canonical_items sort_key xs ≡ xs
    items-Plain nil h = refl
    items-Plain (cons x xs) (p, ps) = λ i. cons (canonical-Plain x p i) (items-Plain xs ps i)

    fields-Plain : (fs : Fields S O) → HasPlainFields fs → canonical_fields sort_key fs ≡ fs
    fields-Plain end h = refl
    fields-Plain (field k v fs) (p, ps) =
        λ i. field k (canonical-Plain v p i) (fields-Plain fs ps i)

  -- The canonical form of a canonical form is itself.
  pub canonical-canonical :
      (v : Value S O) → canonical sort_key (canonical sort_key v) ≡ canonical sort_key v
  canonical-canonical v = canonical-Plain (canonical sort_key v) (canonical-IsPlain v)

  module _ (literal_eval : Text → Option (Value S O)) where
    mutual
      unfolding canonical_legacy

      pub canonical_legacy-IsCurrent :
          (v : Value S O) → IsCurrent v → canonical_legacy sort_key literal_eval v ≡ v
      canonical_legacy-IsCurrent (text u) h = rw h refl
      canonical_legacy-IsCurrent (scalar s) h = refl
      canonical_legacy-IsCurrent (opaque o) h = refl
      canonical_legacy-IsCurrent (list xs) h = ap list (legacy_items-AreCurrent xs h)
      canonical_legacy-IsCurrent (set xs) h = refl
      canonical_legacy-IsCurrent (dict fs) h = ap dict (legacy_fields-AreCurrent fs h)

      legacy_items-AreCurrent :
          (xs : Items S O) → AreCurrent xs → legacy_items sort_key literal_eval xs ≡ xs
      legacy_items-AreCurrent nil h = refl
      legacy_items-AreCurrent (cons x xs) (p, ps) =
          λ i. cons (canonical_legacy-IsCurrent x p i) (legacy_items-AreCurrent xs ps i)

      legacy_fields-AreCurrent :
          (fs : Fields S O) → HasCurrentFields fs → legacy_fields sort_key literal_eval fs ≡ fs
      legacy_fields-AreCurrent end h = refl
      legacy_fields-AreCurrent (field k v fs) (p, ps) =
          λ i. field k (canonical_legacy-IsCurrent v p i) (legacy_fields-AreCurrent fs ps i)

  -- The migration of old rows leaves what the write path stores, where no text looks like one of a set.
  pub canonical_legacy-canonical :
      (literal_eval : Text → Option (Value S O)) (v : Value S O)
      → IsCurrent v
      → canonical_legacy sort_key literal_eval (canonical sort_key v) ≡ canonical sort_key v
  canonical_legacy-canonical literal_eval v h =
      canonical_legacy-IsCurrent literal_eval (canonical sort_key v) (canonical-IsCurrent v h)
