-- ===== src/PersistentQueue.antt =====
-- custom_components/timescaledb_recorder/persistent_queue.py: a queue of items in a file, one JSON
-- text to a line. The file is its list of character codes, so that a line that a crash has torn can
-- be said; a file that does not exist is the empty one, which every reader treats alike. Each
-- function is one section under `_cond`; where `get` waits it gives up the lock, and is two.
pub mod Lines
pub mod Json
pub mod Scanning
pub mod Contract
pub mod Torn
pub mod Letters
mod Tests
use Lines.{read_first_line, rest_lines, count_lines, newline}
use Json.{Format}
use ha_timescaledb_recorder.Prelude.{
  ℕ, zero, suc, ◌+◌, ◌-◌, Bool, true, false, Option, none, some, List, [], ◌∷◌, ◌++◌, ◌&&◌, not,
  length, if◌then◌else◌, ltb, is_empty, is_some,
}

pub record PersistentQueue {ℓ} (A : Type ℓ) : Type ℓ where
  pub file : List ℕ
  pub in_flight : Option A  -- `none` is `_NO_IN_FLIGHT`
  pub size : ℕ

-- What `get` comes to: a return, or a wait that gives up the lock.
pub data Outcome {ℓ} (A : Type ℓ) : Type ℓ where
  item : A → Outcome A
  nothing : Outcome A
  wait : Outcome A
  out_of_fuel : Outcome A

module _ {ℓ} {A : Type ℓ} where
  -- `__init__`, on the file that an earlier process left
  unfoldable pub open_queue : List ℕ → PersistentQueue A
  open_queue f = record { file = f; in_flight = none; size = count_lines f }

  unfoldable pub rewrite_without_front_line : PersistentQueue A → PersistentQueue A
  rewrite_without_front_line q = record q { file = rest_lines q.file }

  unfoldable pub task_done : PersistentQueue A → PersistentQueue A
  unfolding rewrite_without_front_line
  task_done q =
      let r = rewrite_without_front_line q in
      record r { in_flight = none; size = if ltb 0 r.size then r.size - 1 else r.size }

  -- the condition on which the loop of `_join_blocking` ends
  pub joined : PersistentQueue A → Bool
  joined q = not (is_some q.in_flight) && not (is_some (read_first_line q.file))

module _ {ℓ} {A : Type ℓ} (json : Format A) where
  abbrev pub encode_line : A → List ℕ
  encode_line a = json.dumps a ++ newline ∷ []

  -- `"".join(...)` of the lines
  abbrev pub encode : List A → List ℕ
  encode [] = []
  encode (a ∷ rest) = encode_line a ++ encode rest

  pub put : A → PersistentQueue A → PersistentQueue A
  put a q = record q { file = q.file ++ encode_line a; size = q.size + 1 }

  unfoldable pub put_many : List A → PersistentQueue A → PersistentQueue A
  put_many items q =
      if is_empty items
      then q
      else record q { file = q.file ++ encode items; size = q.size + length items }

  -- the `try` block of `get` and its handler; `again` is the next round of the loop
  abbrev parse_front :
      (PersistentQueue A → Outcome A × PersistentQueue A)
      → PersistentQueue A
      → Option A
      → Outcome A × PersistentQueue A
  parse_front again q (some a) = (item a, record q { in_flight = some a })
  parse_front again q none = again (rewrite_without_front_line q)

  abbrev read_front :
      (PersistentQueue A → Outcome A × PersistentQueue A)
      → PersistentQueue A
      → Option (List ℕ)
      → Outcome A × PersistentQueue A
  read_front again q none = (wait, q)
  read_front again q (some line) = parse_front again q (json.loads line)

  abbrev serve :
      (PersistentQueue A → Outcome A × PersistentQueue A)
      → PersistentQueue A
      → Option A
      → Outcome A × PersistentQueue A
  serve again q (some a) = (item a, q)
  serve again q none = read_front again q (read_first_line q.file)

  -- The loop of `get` from its head to a `return` or to `wait()`: a round for each malformed line.
  unfoldable pub get : ℕ → PersistentQueue A → Outcome A × PersistentQueue A
  unfolding rewrite_without_front_line
  get zero q = (out_of_fuel, q)
  get (suc fuel) q = serve (get fuel) q q.in_flight

  -- `get` from the return of `wait()` on
  pub get_woken : ℕ → PersistentQueue A → Outcome A × PersistentQueue A
  unfolding joined
  get_woken fuel q = if joined q then (nothing, q) else get fuel q
