-- ===== src/Canonical/Texts.antt =====
-- A text of Python as its code points, whose order is that of `<`.
use Prim.Native.Char.{code}
use Prim.Native.String.{[] as no_chars, ◌∷◌ as ◌then◌}
use ha_timescaledb_recorder.Prelude.{
  ℕ, List, [], ◌∷◌, Bool, true, false, ◌&&◌, ◌==◌, String, ◌≡◌, refl, any,
}

abbrev pub Text : Type 0
Text = List ℕ

abbrev pub t : String → Text
t no_chars = []
t (c then s) = code c ∷ t s

abbrev pub same_text : Text → Text → Bool
same_text [] [] = true
same_text [] (d ∷ b) = false
same_text (c ∷ a) [] = false
same_text (c ∷ a) (d ∷ b) = c == d && same_text a b

abbrev pub starts_with : Text → Text → Bool
starts_with [] b = true
starts_with (c ∷ a) [] = false
starts_with (c ∷ a) (d ∷ b) = c == d && starts_with a b

-- `key in keys`
abbrev pub is_in : Text → List Text → Bool
is_in key keys = any (same_text key) keys

is_in_test : is_in (t "name") (t "id" ∷ t "name" ∷ []) ≡ true
is_in_test = refl
