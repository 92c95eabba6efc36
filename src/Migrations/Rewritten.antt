-- ===== src/Migrations/Rewritten.antt =====
-- The starts of the worker until the migration of migrations.py is marked.
use ha_timescaledb_recorder.Prelude.{
  ℕ, zero, suc, ◌≡◌, refl, sym, ap, ◌∙◌, subst, List, [], ◌∷◌, true, false, not, ◌||◌, Option, none,
  some, map, if◌then◌else◌, Bool-cases, inl, inr, ◌⊎◌, arith, ◌≤◌, length,
}
use ha_timescaledb_recorder.Canonical.{
  Text, Value, text, scalar, opaque, list, set, dict, Items, nil, cons, Fields, end, field,
  set_repr, canonical, accept, legacy_text, canonical_legacy, legacy_items, legacy_fields,
  canonical_labels,
}
use ha_timescaledb_recorder.Canonical.Sorting.{sort_by-sort_by}
use ha_timescaledb_recorder.Canonical.Plain.{
  AreCurrent, canonical-IsCurrent, canonical_legacy-IsCurrent,
}
use ha_timescaledb_recorder.Migrations.{
  Row, Python, Database, legacy_extra, rewrite_row, canonicalize_table, canonicalize_dimension_rows,
  migrate, starts,
}

labels_again :
    (labels : Option (List Text))
    → canonical_labels (canonical_labels labels) ≡ canonical_labels labels
labels_again none = refl
labels_again (some ls) = ap some (sort_by-sort_by (λ label. label) ls)

module _ {S O : Type 0} (py : Python S O) where
  abbrev legacy : Value S O → Value S O
  legacy v = canonical_legacy py.sort_key py.literal_eval v

  module _
      (parsed : (r : Text) (xs : Items S O)
        → py.literal_eval r ≡ some (set xs)
        → AreCurrent xs) where
    accept-again :
        (u r : Text) (q : Option (Value S O))
        → q ≡ py.literal_eval r
        → legacy (text u) ≡ accept py.sort_key py.literal_eval u q
        → legacy (accept py.sort_key py.literal_eval u q) ≡ accept py.sort_key py.literal_eval u q
    accept-again u r none e h = h
    accept-again u r (some (text x)) e h = h
    accept-again u r (some (scalar x)) e h = h
    accept-again u r (some (opaque x)) e h = h
    accept-again u r (some (list x)) e h = h
    accept-again u r (some (dict x)) e h = h
    accept-again u r (some (set xs)) e h =
        canonical_legacy-IsCurrent py.sort_key py.literal_eval (canonical py.sort_key (set xs))
          (canonical-IsCurrent py.sort_key (set xs) (parsed r xs (sym e)))

    text-again :
        (u : Text) (o : Option Text)
        → o ≡ set_repr u
        → legacy (legacy_text py.sort_key py.literal_eval u o)
          ≡ legacy_text py.sort_key py.literal_eval u o
    unfolding canonical_legacy
    text-again u none e = ap (legacy_text py.sort_key py.literal_eval u) (sym e)
    text-again u (some r) e =
        accept-again u r (py.literal_eval r) refl
          (ap (legacy_text py.sort_key py.literal_eval u) (sym e))

    mutual
      unfolding canonical_legacy

      legacy-legacy : (v : Value S O) → legacy (legacy v) ≡ legacy v
      legacy-legacy (text u) = text-again u (set_repr u) refl
      legacy-legacy (scalar s) = refl
      legacy-legacy (opaque o) = refl
      legacy-legacy (list xs) = ap list (items-legacy xs)
      legacy-legacy (set xs) = refl
      legacy-legacy (dict fs) = ap dict (fields-legacy fs)

      items-legacy :
          (xs : Items S O)
          → legacy_items py.sort_key py.literal_eval (legacy_items py.sort_key py.literal_eval xs)
            ≡ legacy_items py.sort_key py.literal_eval xs
      items-legacy nil = refl
      items-legacy (cons x xs) = λ i. cons (legacy-legacy x i) (items-legacy xs i)

      fields-legacy :
          (fs : Fields S O)
          → legacy_fields py.sort_key py.literal_eval (legacy_fields py.sort_key py.literal_eval fs)
            ≡ legacy_fields py.sort_key py.literal_eval fs
      fields-legacy end = refl
      fields-legacy (field k v fs) = λ i. field k (legacy-legacy v i) (fields-legacy fs i)

    extra-again : (o : Option (Value S O)) → legacy_extra py (legacy_extra py o) ≡ legacy_extra py o
    extra-again none = refl
    extra-again (some v) = ap some (legacy-legacy v)

    module _
        (same_labels : (l : Option (List Text))
          → py.same_labels (canonical_labels l) l ≡ true
          → canonical_labels l ≡ l)
        (same_extra : (o : Option (Value S O))
          → py.same_extra (legacy_extra py o) o ≡ true
          → legacy_extra py o ≡ o) where
      abbrev rewritten : Row S O → Row S O
      rewritten row = record row {
        labels = canonical_labels row.labels;
        extra = legacy_extra py row.extra;
      }

      rewrite_row-rewritten : (row : Row S O) → rewrite_row py row ≡ rewritten row
      rewrite_row-rewritten row =
          let a = py.same_labels (canonical_labels row.labels) row.labels in
          let b = py.same_extra (legacy_extra py row.extra) row.extra in
          elim (Bool-cases (not a || not b)) [
            | inl y ↦ λ i. if y i then rewritten row else row
            | inr n ↦
                let labels = same_labels row.labels (ground (arith, n)) in
                let extra = same_extra row.extra (ground (arith, n)) in
                (λ i. if n i then rewritten row else row)
                ∙ (λ i. record row { labels = sym labels i; extra = sym extra i })
          ]

      rewritten-again : (row : Row S O) → rewritten (rewritten row) ≡ rewritten row
      rewritten-again row =
          λ i. record row { labels = labels_again row.labels i; extra = extra-again row.extra i }

      rewrite_row-rewrite_row :
          (row : Row S O) → rewrite_row py (rewrite_row py row) ≡ rewrite_row py row
      rewrite_row-rewrite_row row =
          ap (rewrite_row py) (rewrite_row-rewritten row)
          ∙ rewrite_row-rewritten (rewritten row)
          ∙ rewritten-again row
          ∙ sym (rewrite_row-rewritten row)

      table-again :
          (rows : List (Row S O))
          → canonicalize_table py (canonicalize_table py rows) ≡ canonicalize_table py rows
      unfolding canonicalize_table
      table-again [] = refl
      table-again (row ∷ rows) = λ i. rewrite_row-rewrite_row row i ∷ table-again rows i

      -- each table is as it was, or rewritten
      abbrev pub IsPartial : List (List (Row S O)) → List (List (Row S O)) → Type 0
      IsPartial [] [] = Unit
      IsPartial [] (t ∷ ts) = ⊥
      IsPartial (o ∷ os) [] = ⊥
      IsPartial (o ∷ os) (t ∷ ts) = (t ≡ o ⊎ t ≡ canonicalize_table py o) × IsPartial os ts

      IsPartial-unchanged : (os : List (List (Row S O))) → IsPartial os os
      IsPartial-unchanged [] = tt
      IsPartial-unchanged (o ∷ os) = (inl refl, IsPartial-unchanged os)

      one_table :
          (o t : List (Row S O))
          → t ≡ o ⊎ t ≡ canonicalize_table py o
          → canonicalize_table py t ≡ canonicalize_table py o
      one_table o t (inl e) = ap (canonicalize_table py) e
      one_table o t (inr e) = ap (canonicalize_table py) e ∙ table-again o

      all_tables :
          (os ts : List (List (Row S O)))
          → IsPartial os ts
          → map (canonicalize_table py) ts ≡ map (canonicalize_table py) os
      all_tables [] [] h = refl
      all_tables [] (t ∷ ts) h = absurd h
      all_tables (o ∷ os) [] h = absurd h
      all_tables (o ∷ os) (t ∷ ts) (p, h) = λ i. one_table o t p i ∷ all_tables os ts h i

      -- marked, and all is rewritten; or not, and each table is as it was or rewritten
      abbrev pub IsMigrating : List (List (Row S O)) → Database S O → Type 0
      IsMigrating os d =
          ((d.is_marked ≡ true) × (d.tables ≡ map (canonicalize_table py) os))
          ⊎ ((d.is_marked ≡ false) × IsPartial os d.tables)

      rows-IsMigrating :
          (n : ℕ) (os ts : List (List (Row S O)))
          → IsPartial os ts
          → IsMigrating os (canonicalize_dimension_rows py n ts)
      unfolding canonicalize_dimension_rows
      rows-IsMigrating zero os ts h = inr (refl, h)
      rows-IsMigrating (suc n) [] [] h = inr (refl, h)
      rows-IsMigrating (suc n) (o ∷ os) [] h = absurd h
      rows-IsMigrating (suc n) [] (t ∷ ts) h = absurd h
      rows-IsMigrating (suc n) (o ∷ []) (t ∷ []) (p, h) = inl (refl, λ i. one_table o t p i ∷ [])
      rows-IsMigrating (suc n) (o ∷ v ∷ os) (t ∷ []) (p, h) = absurd h
      rows-IsMigrating (suc n) (o ∷ []) (t ∷ u ∷ ts) (p, h) = absurd h
      rows-IsMigrating (suc n) (o ∷ v ∷ os) (t ∷ u ∷ ts) (p, h) =
          elim (rows-IsMigrating n (v ∷ os) (u ∷ ts) h) [
            | inl (marked, e) ↦ inl (marked, λ i. one_table o t p i ∷ e i)
            | inr (unmarked, g) ↦ inr (unmarked, (inr (one_table o t p), g))
          ]

      migrate-IsMigrating :
          (n : ℕ) (os : List (List (Row S O))) (d : Database S O)
          → IsMigrating os d
          → IsMigrating os (migrate py n d)
      unfolding migrate
      migrate-IsMigrating n os d (inl (marked, e)) =
          subst (λ b. IsMigrating os (if b then d else canonicalize_dimension_rows py n d.tables))
            (sym marked) (inl (marked, e))
      migrate-IsMigrating n os d (inr (unmarked, h)) =
          subst (λ b. IsMigrating os (if b then d else canonicalize_dimension_rows py n d.tables))
            (sym unmarked) (rows-IsMigrating n os d.tables h)

      starts-IsMigrating :
          (ns : List ℕ) (os : List (List (Row S O))) (d : Database S O)
          → IsMigrating os d
          → IsMigrating os (starts py ns d)
      unfolding starts
      starts-IsMigrating [] os d h = h
      starts-IsMigrating (n ∷ ns) os d h =
          starts-IsMigrating ns os (migrate py n d) (migrate-IsMigrating n os d h)

      full_run :
          (n : ℕ) (t : List (Row S O)) (ts : List (List (Row S O)))
          → length (t ∷ ts) ≤ n
          → canonicalize_dimension_rows py n (t ∷ ts)
            ≡ record { tables = map (canonicalize_table py) (t ∷ ts); is_marked = true }
      unfolding canonicalize_dimension_rows
      full_run zero t ts le = absurd (omega (arith, le))
      full_run (suc n) t [] le = refl
      full_run (suc n) t (u ∷ ts) le = λ i. record {
        tables = canonicalize_table py t ∷ (full_run n u ts (omega (arith, le)) i).tables;
        is_marked = (full_run n u ts (omega (arith, le)) i).is_marked;
      }

      full_migrate :
          (n : ℕ) (o : List (Row S O)) (os : List (List (Row S O))) (d : Database S O)
          → length (o ∷ os) ≤ n
          → IsMigrating (o ∷ os) d
          → migrate py n d
            ≡ record { tables = map (canonicalize_table py) (o ∷ os); is_marked = true }
      unfolding migrate
      full_migrate n o os d le (inl (marked, e)) =
          (λ i. if marked i then d else canonicalize_dimension_rows py n d.tables)
          ∙ (λ i. record { tables = e i; is_marked = marked i })
      full_migrate n o os d le (inr (unmarked, h)) =
          (λ i. if unmarked i then d else canonicalize_dimension_rows py n d.tables)
          ∙ from_partial d.tables h
        where
          same_length : (os ts : List (List (Row S O))) → IsPartial os ts → length ts ≡ length os
          same_length [] [] h = refl
          same_length [] (t ∷ ts) h = absurd h
          same_length (o ∷ os) [] h = absurd h
          same_length (o ∷ os) (t ∷ ts) (p, h) = ap suc (same_length os ts h)

          from_partial :
              (ts : List (List (Row S O)))
              → IsPartial (o ∷ os) ts
              → canonicalize_dimension_rows py n ts
                ≡ record { tables = map (canonicalize_table py) (o ∷ os); is_marked = true }
          from_partial [] h = absurd h
          from_partial (t ∷ ts) h =
              let long = same_length (o ∷ os) (t ∷ ts) h in
              full_run n t ts (omega (arith, le, long))
              ∙ (λ i. record { tables = all_tables (o ∷ os) (t ∷ ts) h i; is_marked = true })

      -- Where a text parsed as a set has no element that again looks like one, and Python finds the
      -- rewriting of the labels or of the extra fields of a row equal to what they were only where it
      -- changes nothing: after any starts of the worker, each broken off behind any number of its
      -- transactions, either the migration is marked and every table is rewritten, as by one rewriting, or
      -- it is not marked and each table is as it was or so rewritten. The next start that is not broken off
      -- leaves every table rewritten and the migration marked.
      pub starts-migrate :
          (ns : List ℕ) (n : ℕ) (o : List (Row S O)) (os : List (List (Row S O)))
          → length (o ∷ os) ≤ n
          → IsMigrating (o ∷ os) (starts py ns (record { tables = o ∷ os; is_marked = false }))
            × (migrate py n (starts py ns (record { tables = o ∷ os; is_marked = false }))
                ≡ record { tables = map (canonicalize_table py) (o ∷ os); is_marked = true })
      starts-migrate ns n o os le =
          let reached =
            starts-IsMigrating ns (o ∷ os) (record { tables = o ∷ os; is_marked = false })
              (inr (refl, IsPartial-unchanged (o ∷ os))) in
          (
            reached,
            full_migrate n o os (starts py ns (record { tables = o ∷ os; is_marked = false })) le
                reached,
          )
