-- ===== src/MetaWorker/Replay.antt =====
-- meta_worker.py on an item that it has already written: `task_done` runs after the write, so a crash
-- between the two brings the item back.
pub mod Items
use text.Mathlib.TextEquality.{eq_iff}
use ha_timescaledb_recorder.Prelude.{
  ℕ, ◌≡◌, refl, sym, ap, ◌∙◌, subst, Bool, true, false, Option, none, some, String, List, [], ◌∷◌,
  ◌++◌, arith, inl, inr, Bool-cases, Option-cases, ltb, ◌&&◌, is_empty, if◌then◌else◌,
}
use ha_timescaledb_recorder.Scd2.{
  Version, Table, close, insert_version, open_version, sweep_count, sweep_close, has_open, exists,
  overlaps, current, has_id, is_open, end_rows, to_sweep,
}
use ha_timescaledb_recorder.Scd2.Replays.{
  close_again, current-insert, has_open-insert, end_rows_again, count_again, to_sweep-OnOpen,
  close-insert, InsertCase, kept, clashed, added, insert_cases, insert-kept,
}
use ha_timescaledb_recorder.MetaWorker.Invariant.{
  table-note_removal_skipped, table-note_version_skipped,
}
use ha_timescaledb_recorder.MetaWorker.{
  Registry, Params, Action, create, update, remove, snapshot, sweep, unknown, Item, Worker, Result,
  done, rejected, no_params, process_remove, is_refused, process_sweep, row_changed, differs,
  version_of, finish_insert, process_rename, first_version_params, process_reconcile, write_version,
  route, dispatch_item, drop_poison_item, drop_rejected_item, settle_item, write_item,
  close_timestamp, note_version_skipped, backdate,
}

module _ {P : Type 0} (r : Registry P) (enforced : Bool) where
  -- The table that an item leaves; a rejected or refused item leaves it as it was.
  abbrev left : Table P → Result P → Table P
  left t (done w) = w.table
  left t rejected = t
  left t no_params = t

  abbrev after_insert : Table P → Option (Table P × ℕ) → Table P
  after_insert t none = t
  after_insert t (some (u, n)) = u

  left-finish_insert :
      (t : Table P) (id : String) (ts : ℕ) (p : P) (w : Worker P) (o : Option (Table P × ℕ))
      → left t (finish_insert r id ts p w o) ≡ after_insert t o
  left-finish_insert t id ts p w none = refl
  left-finish_insert t id ts p w (some (u, n)) = table-note_version_skipped r n id ts p _

  -- a close and a guarded insert in one transaction
  abbrev put_row : String → ℕ → Version P → Table P → Table P
  put_row id ts v t = after_insert t (insert_version enforced v (close id ts t).0)

  -- on a table where the close finds nothing and the id is open, nothing happens
  put_row_stays :
      (id : String) (ts : ℕ) (v : Version P) (t : Table P)
      → (close id ts t).0 ≡ t
      → has_open v.id t ≡ true
      → put_row id ts v t ≡ t
  put_row_stays id ts v t same found =
      ap (λ u. after_insert t (insert_version enforced v u)) same
      ∙ ap (after_insert t) (insert-kept enforced v t found)

  closed_twice :
      (id : String) (ts : ℕ) (t : Table P) → (close id ts (close id ts t).0).0 ≡ (close id ts t).0
  closed_twice id ts t = ap (λ (x : Table P × ℕ). x.0) (close_again id ts t)

  twice_from : (f : Table P → Table P) (t x : Table P) → f t ≡ x → f x ≡ x → f (f t) ≡ f t
  twice_from f t x e stays = ap f e ∙ (stays ∙ sym e)

  renamed : String → Params P → Table P → Table P
  renamed old_id p = put_row old_id p.valid_from (version_of r p)

  renamed_again :
      (old_id : String) (p : Params P) (t : Table P)
      → renamed old_id p (renamed old_id p t) ≡ renamed old_id p t
  unfolding renamed version_of
  renamed_again old_id p t =
      let v = version_of r p in
      let u = (close old_id p.valid_from t).0 in
      let f = renamed old_id p in
      elim (insert_cases enforced v u) [
        | kept found e ↦
            twice_from f t u (ap (after_insert t) e)
              (put_row_stays old_id p.valid_from v u (closed_twice old_id p.valid_from t) found)
        | clashed e ↦ twice_from f t t (ap (after_insert t) e) (ap (after_insert t) e)
        | added absent e ↦ twice_from f t (u ++ v ∷ []) (ap (after_insert t) e) (
            put_row_stays old_id p.valid_from v (u ++ v ∷ [])
              (close-insert old_id p.valid_from t v refl) (has_open-insert u v refl))
      ]

  first_or_next : Params P → Table P → Params P
  first_or_next p t =
      let u = (close p.id p.valid_from t).0 in
      if ltb 0 (close p.id p.valid_from t).1 then p else first_version_params r p.id p u

  reconciled : Params P → Table P → Table P
  reconciled p t =
      if row_changed r p.id p.payload t
      then put_row p.id p.valid_from (version_of r (first_or_next p t)) t
      else t

  same-first_version :
      (id : String) (p : Params P) (t : Table P)
      → ((first_version_params r id p t).id ≡ p.id)
        × ((first_version_params r id p t).payload ≡ p.payload)
  unfolding first_version_params
  same-first_version id p t = (ground arith, ground arith)

  id-first_or_next : (p : Params P) (t : Table P) → (first_or_next p t).id ≡ p.id
  unfolding first_or_next
  id-first_or_next p t = ground (arith, same-first_version p.id p (close p.id p.valid_from t).0)

  payload-first_or_next : (p : Params P) (t : Table P) → (first_or_next p t).payload ≡ p.payload
  unfolding first_or_next
  payload-first_or_next p t =
      ground (arith, same-first_version p.id p (close p.id p.valid_from t).0)

  unchanged :
      (p : Params P) (t : Table P) → row_changed r p.id p.payload t ≡ false → reconciled p t ≡ t
  unfolding reconciled
  unchanged p t e = rw e refl

  reconciled-changed :
      (p : Params P) (t : Table P)
      → row_changed r p.id p.payload t ≡ true
      → reconciled p t ≡ put_row p.id p.valid_from (version_of r (first_or_next p t)) t
  unfolding reconciled
  reconciled-changed p t e = rw e refl

  reconciled_stays :
      (p : Params P) (t : Table P)
      → (close p.id p.valid_from t).0 ≡ t
      → has_open p.id t ≡ true
      → reconciled p t ≡ t
  unfolding version_of
  reconciled_stays p t same found = elim (Bool-cases (row_changed r p.id p.payload t)) [
    | inl new ↦
        reconciled-changed p t new
        ∙ put_row_stays p.id p.valid_from (version_of r (first_or_next p t)) t same
            (ap (λ i. has_open i t) (id-first_or_next p t) ∙ found)
    | inr old ↦ unchanged p t old
  ]

  module _ (reflexive : (p : P) → r.changed p p ≡ false) where
    inserted_unchanged :
        (p : Params P) (q : Params P) (u : Table P)
        → q.id ≡ p.id
        → q.payload ≡ p.payload
        → has_open p.id u ≡ false
        → row_changed r p.id p.payload (u ++ version_of r q ∷ []) ≡ false
    unfolding row_changed version_of
    inserted_unchanged p q u i d absent =
        rw
          (current-insert p.id u (version_of r q) absent (ground (arith, eq_iff q.id p.id)) refl, d)
          (reflexive p.payload)

    reconciled_again : (p : Params P) (t : Table P) → reconciled p (reconciled p t) ≡ reconciled p t
    reconciled_again p t =
        let q = first_or_next p t in
        let v = version_of r q in
        let u = (close p.id p.valid_from t).0 in
        let f = reconciled p in
        let same_id : v.id ≡ p.id = unfold version_of in id-first_or_next p t in
        elim (Bool-cases (row_changed r p.id p.payload t)) [
          | inr old ↦ twice_from f t t (unchanged p t old) (unchanged p t old)
          | inl new ↦ elim (insert_cases enforced v u) [
            | kept found e ↦ twice_from f t u (reconciled-changed p t new ∙ ap (after_insert t) e) (
                reconciled_stays p u (closed_twice p.id p.valid_from t)
                  (ap (λ i. has_open i u) (sym same_id) ∙ found))
            | clashed e ↦
                let back : f t ≡ t = reconciled-changed p t new ∙ ap (after_insert t) e in
                twice_from f t t back back
            | added absent e ↦
                twice_from f t (u ++ v ∷ []) (reconciled-changed p t new ∙ ap (after_insert t) e) (
                  unchanged p (u ++ v ∷ []) (
                    inserted_unchanged p q u (id-first_or_next p t) (payload-first_or_next p t)
                      (ap (λ i. has_open i u) (sym same_id) ∙ absent)))
          ]
        ]
