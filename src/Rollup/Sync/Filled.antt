-- ===== src/Rollup/Sync/Filled.antt =====
-- sync_minute_rollup of custom_components/timescaledb_recorder/schema.py and the first run of the job
-- behind it.
use text.Mathlib.Text.{◌==◌ as str_eq}
use ha_timescaledb_recorder.Prelude.{
  ℕ, suc, ◌+◌, ◌-◌, ◌*◌, ◌/◌, ◌≤◌, ◌<◌, ◌≡◌, refl, sym, ap, ◌∙◌, List, [], ◌∷◌, true, false, ◌&&◌,
  ◌||◌, arith, Option, none, some, String, ltb, leb, ◌==◌, if◌then◌else◌, is_some, Bool-cases, inl,
  inr, All,
}
use ha_timescaledb_recorder.Rollup.{minute, Amount, Reading, Configured, MinuteRow, find_entity}
use ha_timescaledb_recorder.Rollup.Sums.{sum_over-cong, sum_over-none}
use ha_timescaledb_recorder.Rollup.Readings.{AreInOrder, latest, held}
use ha_timescaledb_recorder.Rollup.Rows.{rows_at, text_refl, text_sym}
use ha_timescaledb_recorder.Rollup.Refreshed.{counting, reference, held_minute}
use ha_timescaledb_recorder.Rollup.Job.{Dirty, Tables, states_minute_job}
use ha_timescaledb_recorder.Rollup.Job.Ranges.{covers, is_dirty}
use ha_timescaledb_recorder.Rollup.Job.Settled.{IsRight, IsSettled}
use ha_timescaledb_recorder.Rollup.Job.Finished.{states_minute_job-IsRight}
use ha_timescaledb_recorder.Rollup.Sync.{
  Entry, wanted_of, lookup, is_current, configured, history, sync_minute_rollup,
}
use ha_timescaledb_recorder.Rollup.Sync.Views.{view, with_key, refilled, nothing_of}
use ha_timescaledb_recorder.Rollup.Sync.Refilled.{
  synced, sync_minute_rollup-synced, lookup-entity_id,
}

module _ {A : Type 0} where
  -- the oldest row is not later than a reading
  abbrev pub IsFirst : Option ℕ → List (Reading A) → Type 0
  IsFirst none rs = rs ≡ []
  IsFirst (some f) rs = All (λ r. f ≤ r.last_updated) rs

  latest_before :
      (t f : ℕ) (rs : List (Reading A))
      → t < f
      → All (λ r. f ≤ r.last_updated) rs
      → latest t rs ≡ none
  latest_before t f [] lt h = refl
  latest_before t f (r ∷ rs) lt (b, h) = rw (latest_before t f rs lt h) (ground (arith, lt, b))

  cons≢nil : (row : MinuteRow A) (rows : List (MinuteRow A)) → ¬ (row ∷ rows ≡ [])
  cons≢nil row rows h = absurd (ground (arith, h))

  rows_at-with_key :
      (id : String) (k : ℕ) (rows : List (MinuteRow A))
      → with_key (λ r. r.entity_id) id rows ≡ []
      → rows_at id k rows ≡ []
  rows_at-with_key id k [] h = refl
  rows_at-with_key id k (row ∷ rows) h =
      let rest = with_key (λ (r : MinuteRow A). r.entity_id) id rows in
      elim (Bool-cases (str_eq row.entity_id id)) [
        | inl y ↦ absurd (cons≢nil row rest ((λ i. if sym y i then row ∷ rest else rest) ∙ h))
        | inr n ↦
            (λ i. if n i && row.minute_of == k then row ∷ rows_at id k rows else rows_at id k rows)
            ∙ rows_at-with_key id k rows ((λ i. if sym n i then row ∷ rest else rest) ∙ h)
      ]

is_dirty-with_key :
    (id : String) (k : ℕ) (ds : List Dirty)
    → is_dirty id k (with_key (λ d. d.entity_id) id ds) ≡ is_dirty id k ds
is_dirty-with_key id k [] = refl
is_dirty-with_key id k (d ∷ ds) =
    let rest = with_key (λ (d : Dirty). d.entity_id) id ds in
    elim (Bool-cases (str_eq d.entity_id id)) [
      | inl y ↦
          (λ i. is_dirty id k (if y i then d ∷ rest else rest))
          ∙ ap (λ b. covers id k d || b) (is_dirty-with_key id k ds)
      | inr n ↦
          let not_it = text_sym d.entity_id id n in
          (λ i. is_dirty id k (if n i then d ∷ rest else rest)) ∙ is_dirty-with_key id k ds ∙ (λ i.
            (sym not_it i && leb (d.from_ts / minute) k && ltb k (d.to_ts / minute))
            || is_dirty id k ds)
    ]

module _ {A : Type 0} (am : Amount A) where
  reference_before :
      (c : Configured) (rs : List (Reading A)) (f k : ℕ)
      → k < f / minute
      → All (λ r. f ≤ r.last_updated) rs
      → reference am c rs k ≡ []
  unfolding reference
  reference_before c rs f k lt h =
      let nothing : held_minute am counting (λ v. 1) c rs k ≡ 0 =
        sum_over-cong counting minute
          (λ i. held am counting (λ v. 1) c (k * minute + i) (latest (k * minute + i) rs)) (λ i. 0)
          (λ i b.
            ap (held am counting (λ v. 1) c (k * minute + i))
              (latest_before (k * minute + i) f rs (omega (arith, lt, b)) h))
        ∙ sum_over-none counting minute in
      λ i.
        if ltb 0 (nothing i)
        then record {
          entity_id = c.entity_id;
          minute_of = k;
          integral = held_minute am am (λ v. v) c rs k;
          covered = nothing i;
        }
          ∷ []
        else []

  reference_never : (c : Configured) (k : ℕ) → reference am c [] k ≡ []
  reference_never c k = reference_before c [] (suc k * minute) k (omega arith) tt

  refilled-IsSettled :
      (states : String → List (Reading A)) (first : Option ℕ) (now : ℕ) (w : Entry) (t : Tables A)
      (k : ℕ)
      → view w.entity_id t ≡ refilled first now w
      → IsFirst first (states w.entity_id)
      → k < now / minute
      → IsSettled am states (configured w) k t
  refilled-IsSettled states none now w t k e h lt = inl (
      rows_at-with_key w.entity_id k t.rows (ap (λ v. v.minutes) e)
      ∙ sym (ap (λ rs. reference am (configured w) rs k) h ∙ reference_never (configured w) k))
  refilled-IsSettled states (some f) now w t k e h lt = elim (Bool-cases (leb (f / minute) k)) [
    | inl y ↦
        let known = text_refl w.entity_id in
        let one : is_dirty w.entity_id k (history w.entity_id (some f) now) ≡ true =
          ground (arith, known, y, lt) in
        inr (
          sym (is_dirty-with_key w.entity_id k t.dirty)
          ∙ ap (λ v. is_dirty w.entity_id k v.ranges) e
          ∙ one)
    | inr n ↦ inl (
        rows_at-with_key w.entity_id k t.rows (ap (λ v. v.minutes) e)
        ∙ sym (reference_before (configured w) (states w.entity_id) f k (ground (arith, n)) h))
  ]

  view-changed :
      (first_ts : String → Option ℕ) (now new_job : ℕ) (entities : List Entry) (t : Tables A)
      (jobs : List ℕ) (id : String) (w : Entry)
      → lookup id (wanted_of entities) ≡ some w
      → is_current (find_entity id t.entities) w ≡ false
      → view w.entity_id (sync_minute_rollup first_ts now new_job entities (t, jobs)).0
        ≡ refilled (first_ts w.entity_id) now w
  unfolding synced
  view-changed first_ts now new_job entities t jobs id w found changed =
      let same = lookup-entity_id id (wanted_of entities) w found in
      let synced_t = (sync_minute_rollup first_ts now new_job entities (t, jobs)).0 in
      ap (λ x. view x synced_t) same
      ∙ (sync_minute_rollup-synced first_ts now new_job entities t jobs id).0
      ∙ (λ i. elim (found i) [
        | none ↦ if is_some (view id t).config then nothing_of else view id t
        | some w ↦
            if is_current (find_entity id t.entities) w
            then view id t
            else refilled (first_ts id) now w
      ])
      ∙ (λ i. if changed i then view id t else refilled (first_ts (sym same i)) now w)

  -- An entity that a sync starts anew, where its first row is not later than its readings and these are
  -- in order: the next run of the job, if its clock is at most the lookback behind that of the sync and it
  -- stays within its budget, leaves no dirty range, and for every minute that is over the row that all
  -- readings of the entity make by the new seconds, or none where they cover nothing of it.
  pub sync_minute_rollup-states_minute_job :
      (states : String → List (Reading A)) (first_ts : String → Option ℕ) (synced_at new_job : ℕ)
      (entities : List Entry) (t : Tables A) (jobs : List ℕ) (id : String) (w : Entry)
      (lookback budget started now : ℕ) (clock ended : ℕ → ℕ) (k : ℕ)
      → ((id : String) → AreInOrder (states id))
      → IsFirst (first_ts w.entity_id) (states w.entity_id)
      → lookup id (wanted_of entities) ≡ some w
      → is_current (find_entity id t.entities) w ≡ false
      → now ≤ synced_at + lookback
      → ((n : ℕ) → now ≤ clock n)
      → ((n : ℕ) → ended n - started ≤ budget)
      → k < now / minute
      → let u =
          states_minute_job am states lookback budget started now clock ended
            (sync_minute_rollup first_ts synced_at new_job entities (t, jobs)).0 in
        (u.dirty ≡ []) × IsRight am states (configured w) k u
  sync_minute_rollup-states_minute_job states first_ts synced_at new_job entities t jobs id w
        lookback budget started now clock ended k order first found changed soon late quick lt =
      let synced_t = (sync_minute_rollup first_ts synced_at new_job entities (t, jobs)).0 in
      let anew = view-changed first_ts synced_at new_job entities t jobs id w found changed in
      states_minute_job-IsRight am states lookback budget started now clock ended synced_t
        (configured w) k order (ap (λ v. v.config) anew) late quick
        (λ j before.
          refilled-IsSettled states (first_ts w.entity_id) synced_at w synced_t j anew first
            (omega (arith, before, soon)))
        lt
