-- ===== src/PersistentQueue/Letters.antt =====
-- A format of the queue's items in which an item is a bit, and its text one letter.
use ha_timescaledb_recorder.Prelude.{
  ℕ, ◌≡◌, refl, Bool, true, false, Option, none, some, List, [], ◌∷◌, ◌==◌, if◌then◌else◌,
}
use ha_timescaledb_recorder.PersistentQueue.Lines.{is_space, is_blank, HasNoNewline}
use ha_timescaledb_recorder.PersistentQueue.Json.{Format}

abbrev pub spell : Bool → List ℕ
spell true = b't' ∷ []
spell false = b'f' ∷ []

abbrev pub read_letter : List ℕ → Option Bool
read_letter (c ∷ []) = if c == b't' then some true else if c == b'f' then some false else none
read_letter _ = none

pub spells : (a : Bool) → read_letter (spell a) ≡ some a
spells true = refl
spells false = refl

pub is_blank-spell : (a : Bool) → is_blank (spell a) ≡ false
unfolding is_space
is_blank-spell true = refl
is_blank-spell false = refl

pub HasNoNewline-spell : (a : Bool) → HasNoNewline (spell a)
HasNoNewline-spell true = (refl, tt)
HasNoNewline-spell false = (refl, tt)

abbrev pub letters : Format Bool
letters = record {
  dumps = spell;
  loads = read_letter;
  loads-dumps = spells;
  dumps-HasNoNewline = HasNoNewline-spell;
  is_blank-dumps = is_blank-spell;
}
