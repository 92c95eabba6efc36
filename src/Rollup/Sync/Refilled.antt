-- ===== src/Rollup/Sync/Refilled.antt =====
-- sync_minute_rollup of custom_components/timescaledb_recorder/schema.py, entity by entity.
use mathlib.Core.Option.{some-injective}
use text.Mathlib.Text.{◌==◌ as str_eq}
use ha_timescaledb_recorder.Prelude.{
  ℕ, ◌≡◌, refl, sym, ap, ◌∙◌, subst, List, [], ◌∷◌, Bool, true, false, not, ◌&&◌, arith, Option,
  none, some, String, if◌then◌else◌, is_some, is_empty, Bool-cases, inl, inr, All,
}
use ha_timescaledb_recorder.Rollup.{Configured, find_entity}
use ha_timescaledb_recorder.Rollup.Rows.{text-≡, text_sym}
use ha_timescaledb_recorder.Rollup.Job.{Tables}
use ha_timescaledb_recorder.Rollup.Sync.{
  Entry, put, put_all, wanted_of, lookup, is_current, remove, remove_unwanted, refill,
  refill_changed, sync_jobs, sync_minute_rollup,
}
use ha_timescaledb_recorder.Rollup.Sync.Views.{
  View, nothing_of, view, view-remove, refilled, view-refill,
}

abbrev AreUnique : List Entry → Type 0
AreUnique [] = Unit
AreUnique (w ∷ ws) = All (λ v. str_eq v.entity_id w.entity_id ≡ false) ws × AreUnique ws

put-All :
    (id : String) (e : Entry) (ws : List Entry)
    → str_eq e.entity_id id ≡ false
    → All (λ v. str_eq v.entity_id id ≡ false) ws
    → All (λ v. str_eq v.entity_id id ≡ false) (put e ws)
put-All id e [] n h = (n, tt)
put-All id e (w ∷ ws) n (b, h) = elim (Bool-cases (str_eq w.entity_id e.entity_id)) [
  | inl y ↦ rw y (n, h)
  | inr m ↦ rw m (b, put-All id e ws n h)
]

put-AreUnique : (e : Entry) (ws : List Entry) → AreUnique ws → AreUnique (put e ws)
put-AreUnique e [] h = (tt, tt)
put-AreUnique e (w ∷ ws) (b, h) = elim (Bool-cases (str_eq w.entity_id e.entity_id)) [
  | inl y ↦
      let same = text-≡ w.entity_id e.entity_id y in
      rw y (subst (λ s. All (λ v. str_eq v.entity_id s ≡ false) ws) same b, h)
  | inr m ↦
      rw m (put-All w.entity_id e ws (text_sym w.entity_id e.entity_id m) b, put-AreUnique e ws h)
]

put_all-AreUnique : (es ws : List Entry) → AreUnique ws → AreUnique (put_all es ws)
put_all-AreUnique [] ws h = h
put_all-AreUnique (e ∷ es) ws h = put_all-AreUnique es (put e ws) (put-AreUnique e ws h)

lookup_other :
    (id : String) (ws : List Entry)
    → All (λ v. str_eq v.entity_id id ≡ false) ws
    → lookup id ws ≡ none
lookup_other id [] h = refl
lookup_other id (w ∷ ws) (n, h) = (λ i. if n i then some w else lookup id ws) ∙ lookup_other id ws h

pub lookup-entity_id :
    (id : String) (ws : List Entry) (w : Entry) → lookup id ws ≡ some w → w.entity_id ≡ id
lookup-entity_id id [] w h = absurd (ground (arith, h))
lookup-entity_id id (v ∷ ws) w h = elim (Bool-cases (str_eq v.entity_id id)) [
  | inl y ↦
      ap (λ x. x.entity_id)
        (sym (some-injective v w ((λ i. if sym y i then some v else lookup id ws) ∙ h)))
      ∙ text-≡ v.entity_id id y
  | inr n ↦ lookup-entity_id id ws w ((λ i. if sym n i then some v else lookup id ws) ∙ h)
]

module _ {A : Type 0} (first_ts : String → Option ℕ) (now : ℕ) (current : List Configured) where
  abbrev now_or_refilled : Option Entry → View A → View A
  now_or_refilled none v = v
  now_or_refilled (some w) v =
      if is_current (find_entity w.entity_id current) w
      then v
      else refilled (first_ts w.entity_id) now w

  view-refill_changed :
      (ws : List Entry) (x : String) (t : Tables A)
      → AreUnique ws
      → view x (refill_changed first_ts now current ws t) ≡ now_or_refilled (lookup x ws) (view x t)
  view-refill_changed [] x t h = refl
  view-refill_changed (w ∷ ws) x t (b, h) =
      let this = is_current (find_entity w.entity_id current) w in
      let first = first_ts w.entity_id in
      let step = if this then t else refill first now w t in
      view-refill_changed ws x step h ∙ elim (Bool-cases (str_eq w.entity_id x)) [
        | inl y ↦
            let absent = lookup_other x ws (
              subst (λ s. All (λ v. str_eq v.entity_id s ≡ false) ws) (text-≡ w.entity_id x y) b) in
            (λ i. now_or_refilled (absent i) (view x step))
            ∙ refilled_or_not this (view x t) (refilled first now w) t (refill first now w t) x refl
                (view-refill first now w x t
                  ∙ (λ i. if y i then refilled first now w else view x t))
            ∙ (λ i. now_or_refilled (if sym y i then some w else lookup x ws) (view x t))
        | inr n ↦
            ap (now_or_refilled (lookup x ws)) (
              refilled_or_not this (view x t) (view x t) t (refill first now w t) x refl (
                view-refill first now w x t ∙ (λ i. if n i then refilled first now w else view x t))
              ∙ either this (view x t))
            ∙ (λ i. now_or_refilled (if sym n i then some w else lookup x ws) (view x t))
      ]
    where
      refilled_or_not :
          (b : Bool) (v u : View A) (s t : Tables A) (x : String)
          → view x s ≡ v
          → view x t ≡ u
          → view x (if b then s else t) ≡ (if b then v else u)
      refilled_or_not true v u s t x e f = e
      refilled_or_not false v u s t x e f = f

      either : (b : Bool) (v : View A) → (if b then v else v) ≡ v
      either true v = refl
      either false v = refl

-- the entity goes
abbrev goes : List Entry → String → List Configured → Bool
goes wanted x cs = is_some (find_entity x cs) && not (is_some (lookup x wanted))

module _ {A : Type 0} (wanted : List Entry) where
  view-remove_unwanted :
      (cs : List Configured) (x : String) (t : Tables A)
      → view x (remove_unwanted wanted cs t) ≡ (if goes wanted x cs then nothing_of else view x t)
  view-remove_unwanted [] x t = refl
  view-remove_unwanted (c ∷ cs) x t =
      let stays = is_some (lookup c.entity_id wanted) in
      let step = if stays then t else remove c.entity_id t in
      view-remove_unwanted cs x step ∙ elim (Bool-cases (str_eq c.entity_id x)) [
        | inl y ↦
            let same = text-≡ c.entity_id x y in
            let removed =
              view-remove c.entity_id x t ∙ (λ i. if y i then nothing_of else view x t) in
            ap (λ v. if goes wanted x cs then nothing_of else v)
              (step_view stays x t (remove c.entity_id t) nothing_of removed)
            ∙ (λ i.
                if goes wanted x cs
                then nothing_of
                else if is_some (lookup (same i) wanted)
                then view x t
                else nothing_of)
            ∙ merged (is_some (find_entity x cs)) (is_some (lookup x wanted)) (view x t)
            ∙ (λ i.
                if is_some (if sym y i then some c else find_entity x cs)
                  && not (is_some (lookup x wanted))
                then nothing_of
                else view x t)
        | inr n ↦
            let kept = view-remove c.entity_id x t ∙ (λ i. if n i then nothing_of else view x t) in
            ap (λ v. if goes wanted x cs then nothing_of else v)
              (step_view stays x t (remove c.entity_id t) (view x t) kept ∙ either stays (view x t))
            ∙ (λ i.
                if is_some (if sym n i then some c else find_entity x cs)
                  && not (is_some (lookup x wanted))
                then nothing_of
                else view x t)
      ]
    where
      step_view :
          (b : Bool) (x : String) (t u : Tables A) (v : View A)
          → view x u ≡ v
          → view x (if b then t else u) ≡ (if b then view x t else v)
      step_view true x t u v e = refl
      step_view false x t u v e = e

      either : (b : Bool) (v : View A) → (if b then v else v) ≡ v
      either true v = refl
      either false v = refl

      merged :
          (found stays : Bool) (v : View A)
          → (if found && not stays then nothing_of else if stays then v else nothing_of)
            ≡ (if true && not stays then nothing_of else v)
      merged true true v = refl
      merged true false v = refl
      merged false true v = refl
      merged false false v = refl

-- What a sync leaves of an entity. One that is not wanted goes, if it was configured. One that is wanted
-- is left alone where its seconds are as they were, and starts anew otherwise.
unfoldable pub synced :
    {A : Type 0} → (String → Option ℕ) → ℕ → List Entry → String → View A → View A
synced first_ts now wanted id v = elim (lookup id wanted) [
  | none ↦ if is_some v.config then nothing_of else v
  | some w ↦ if is_current v.config w then v else refilled (first_ts id) now w
]

sync_jobs_needed :
    (new : ℕ) (wanted : List Entry) (jobs : List ℕ)
    → is_empty (sync_jobs new wanted jobs) ≡ is_empty wanted
sync_jobs_needed new [] [] = refl
sync_jobs_needed new [] (j ∷ js) = refl
sync_jobs_needed new (w ∷ ws) [] = refl
sync_jobs_needed new (w ∷ ws) (j ∷ js) = refl

module _ {A : Type 0} where
  synced_steps :
      (first_ts : String → Option ℕ) (now : ℕ) (current : List Configured) (x : String)
      (o : Option Entry) (v : View A)
      → find_entity x current ≡ v.config
      → ((w : Entry) → o ≡ some w → w.entity_id ≡ x)
      → now_or_refilled first_ts now current o
          (if is_some v.config && not (is_some o) then nothing_of else v)
        ≡ elim o [
          | none ↦ if is_some v.config then nothing_of else v
          | some w ↦ if is_current v.config w then v else refilled (first_ts x) now w
        ]
  synced_steps first_ts now current x none v e h = alone (is_some v.config) v
    where
      alone :
          (b : Bool) (v : View A)
          → (if b && true then nothing_of else v) ≡ (if b then nothing_of else v)
      alone true v = refl
      alone false v = refl
  synced_steps first_ts now current x (some w) v e h =
      let same = h w refl in
      let config = ap (λ s. find_entity s current) same ∙ e in
      (λ i.
        if is_current (config i) w
        then stays (is_some v.config) v i
        else refilled (first_ts (same i)) now w)
    where
      stays : (b : Bool) (v : View A) → (if b && false then nothing_of else v) ≡ v
      stays true v = refl
      stays false v = refl

  -- A sync leaves of each entity, of its configuration, its dirty ranges and its minutes, what the entries
  -- wanted make of it, whatever else the tables hold; of two entries for an entity the last counts. The
  -- job of the rollup exists afterwards just where some entity is wanted.
  pub sync_minute_rollup-synced :
      (first_ts : String → Option ℕ) (now new_job : ℕ) (entities : List Entry) (t : Tables A)
      (jobs : List ℕ) (id : String)
      → (view id (sync_minute_rollup first_ts now new_job entities (t, jobs)).0
          ≡ synced first_ts now (wanted_of entities) id (view id t))
        × (is_empty (sync_minute_rollup first_ts now new_job entities (t, jobs)).1
            ≡ is_empty (wanted_of entities))
  unfolding sync_minute_rollup synced
  sync_minute_rollup-synced first_ts now new_job entities t jobs id =
      let wanted = wanted_of entities in
      (
        view-refill_changed first_ts now t.entities wanted id (remove_unwanted wanted t.entities t)
              (put_all-AreUnique entities [] tt)
            ∙ ap (now_or_refilled first_ts now t.entities (lookup id wanted))
                (view-remove_unwanted wanted t.entities id t)
            ∙ synced_steps first_ts now t.entities id (lookup id wanted) (view id t) refl
                (lookup-entity_id id wanted),
        sync_jobs_needed new_job wanted jobs,
      )
