-- ===== src/PersistentQueue/Lines.antt =====
-- The lines of a text file, as persistent_queue.py reads them. The file is ASCII: `json.dumps`
-- escapes everything else.
use ha_timescaledb_recorder.Prelude.{
  ℕ, suc, ◌+◌, ◌<◌, ◌≡◌, refl, Bool, true, false, not, ◌&&◌, ◌||◌, Option, none, some, List, [],
  ◌∷◌, ◌++◌, arith, leb, ◌==◌, length, if◌then◌else◌,
}

abbrev pub newline : ℕ
newline = 10

-- `readline()` without its newline
unfoldable pub first_line : List ℕ → List ℕ
first_line [] = []
first_line (c ∷ r) = if c == newline then [] else c ∷ first_line r

-- what the file holds after its first line
unfoldable pub rest_lines : List ℕ → List ℕ
rest_lines [] = []
rest_lines (c ∷ r) = if c == newline then r else rest_lines r

unfoldable pub read_first_line : List ℕ → Option (List ℕ)
read_first_line [] = none
read_first_line (c ∷ r) = some (first_line (c ∷ r))

-- the white space of `strip` among the ASCII characters
unfoldable pub is_space : ℕ → Bool
is_space c = (leb 9 c && leb c 13) || (leb 28 c && leb c 32)

abbrev pub one_if : Bool → ℕ
one_if true = 1
one_if false = 0

-- The loop over the lines, with whether the current one has held more than white space.
pub count_from : Bool → List ℕ → ℕ
count_from seen [] = one_if seen
count_from seen (c ∷ r) =
    (if c == newline then one_if seen else 0)
    + count_from (if c == newline then false else seen || not (is_space c)) r

pub count_lines : List ℕ → ℕ
count_lines f = count_from false f

abbrev pub HasNoNewline : List ℕ → Type 0
HasNoNewline [] = Unit
HasNoNewline (c ∷ r) = ((c == newline) ≡ false) × HasNoNewline r

abbrev pub is_blank : List ℕ → Bool
is_blank [] = true
is_blank (c ∷ r) = is_space c && is_blank r

pub first_line-append : (l r : List ℕ) → HasNoNewline l → first_line ((l ++ newline ∷ []) ++ r) ≡ l
unfolding first_line
first_line-append [] r h = refl
first_line-append (c ∷ l) r h = ground (arith, first_line-append l r h.1)

pub rest_lines-append : (l r : List ℕ) → HasNoNewline l → rest_lines ((l ++ newline ∷ []) ++ r) ≡ r
unfolding rest_lines
rest_lines-append [] r h = refl
rest_lines-append (c ∷ l) r h = ground (arith, rest_lines-append l r h.1)

pub read_first_line-append :
    (l r : List ℕ) → HasNoNewline l → read_first_line ((l ++ newline ∷ []) ++ r) ≡ some l
unfolding read_first_line
read_first_line-append [] r h = unfold first_line in refl
read_first_line-append (c ∷ l) r h = ground (arith, first_line-append (c ∷ l) r h)

count_from-append :
    (seen : Bool) (l r : List ℕ)
    → HasNoNewline l
    → count_from seen ((l ++ newline ∷ []) ++ r)
      ≡ one_if (seen || not (is_blank l)) + count_from false r
unfolding count_from
count_from-append true [] r h = refl
count_from-append false [] r h = refl
count_from-append true (c ∷ l) r h = ground (arith, count_from-append true l r h.1)
count_from-append false (c ∷ l) r h = ground (arith, count_from-append (not (is_space c)) l r h.1)

-- A complete line that is not blank counts once.
pub count_lines-append :
    (l r : List ℕ)
    → HasNoNewline l
    → is_blank l ≡ false
    → count_lines ((l ++ newline ∷ []) ++ r) ≡ suc (count_lines r)
unfolding count_lines
count_lines-append l r h b = ground (arith, count_from-append false l r h)

pub length-rest_lines : (c : ℕ) (r : List ℕ) → length (rest_lines (c ∷ r)) < length (c ∷ r)
unfolding rest_lines
length-rest_lines c [] = ground arith
length-rest_lines c (d ∷ r) = ground (arith, length-rest_lines d r)

pub HasNoNewline-append : (l r : List ℕ) → HasNoNewline l → HasNoNewline r → HasNoNewline (l ++ r)
HasNoNewline-append [] r hl hr = hr
HasNoNewline-append (c ∷ l) r hl hr = (hl.0, HasNoNewline-append l r hl.1 hr)

pub rest_lines-nil : rest_lines [] ≡ []
unfolding rest_lines
rest_lines-nil = refl

pub count_lines-nil : count_lines [] ≡ 0
unfolding count_lines count_from
count_lines-nil = refl

pub read_first_line-nil : read_first_line [] ≡ none
unfolding read_first_line
read_first_line-nil = refl

pub read_first_line-cons :
    (c : ℕ) (r : List ℕ) → read_first_line (c ∷ r) ≡ some (first_line (c ∷ r))
unfolding read_first_line
read_first_line-cons c r = refl
