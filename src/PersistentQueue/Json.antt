-- ===== src/PersistentQueue/Json.antt =====
-- What persistent_queue.py relies on of the standard `json`: `dumps(item, default=str)` and `loads`.
use ha_timescaledb_recorder.Prelude.{ℕ, ◌≡◌, false, Option, some, List}
use ha_timescaledb_recorder.PersistentQueue.Lines.{HasNoNewline, is_blank}

-- The items are the JSON-safe dicts of registry_listener.py: `loads` gives them back. `dumps` writes
-- no line break and something that is not white space.
pub record Format {ℓ} (A : Type ℓ) : Type ℓ where
  pub dumps : A → List ℕ
  pub loads : List ℕ → Option A  -- `none` is `JSONDecodeError`
  pub loads-dumps : (a : A) → loads (dumps a) ≡ some a
  pub dumps-HasNoNewline : (a : A) → HasNoNewline (dumps a)
  pub is_blank-dumps : (a : A) → is_blank (dumps a) ≡ false
