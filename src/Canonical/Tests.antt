-- ===== src/Canonical/Tests.antt =====
-- Runs of canonical.py on small values.
use ha_timescaledb_recorder.Prelude.{
  ◌≡◌, refl, ap, ◌++◌, Bool, true, false, none, some, arith, String,
}
use ha_timescaledb_recorder.Canonical.{
  Text, t, same_text, Value, text, scalar, opaque, list, set, dict, Items, nil, cons, Fields, end,
  field, canonical, canonical_legacy, set_repr,
}

-- a text of a value
unfoldable mutual
  pub print : Value Bool Bool → Text
  print (text s) = t "'" ++ s ++ t "'"
  print (scalar true) = t "true"
  print (scalar false) = t "null"
  print (opaque o) = t "object"
  print (list xs) = t "[" ++ print_items xs
  print (set xs) = t "{" ++ print_items xs
  print (dict fs) = t "{" ++ print_fields fs

  print_items : Items Bool Bool → Text
  print_items nil = t "]"
  print_items (cons v vs) = print v ++ t "," ++ print_items vs

  print_fields : Fields Bool Bool → Text
  print_fields end = t "}"
  print_fields (field k v fs) = k ++ t ":" ++ print v ++ t "," ++ print_fields fs

abbrev word : String → Value Bool Bool
word s = text (t s)

abbrev y_first : Value Bool Bool
y_first = set (cons (word "y") (cons (word "x") nil))

abbrev x_first : Value Bool Bool
x_first = set (cons (word "x") (cons (word "y") nil))

sorted_set : canonical print y_first ≡ list (cons (word "x") (cons (word "y") nil))
unfolding canonical print
sorted_set = refl

old_text : set_repr (t "{'a'}") ≡ some (t "{'a'}")
unfolding set_repr
old_text = refl

old_frozen_text : set_repr (t "frozenset({'a'})") ≡ some (t "{'a'}")
unfolding set_repr
old_frozen_text = refl

other_text : set_repr (t "a {b}") ≡ none
unfolding set_repr
other_text = refl

old_value :
    canonical_legacy print (λ s. some y_first) (dict (field (t "aliases") (word "{'y', 'x'}") end))
    ≡ dict (field (t "aliases") (list (cons (word "x") (cons (word "y") nil))) end)
unfolding canonical canonical_legacy print set_repr
old_value = refl

-- the two texts are told apart
apart :
    print (canonical print (word "y")) ≡ print (canonical print (word "x"))
    → canonical print (word "y") ≡ canonical print (word "x")
unfolding canonical print
apart same =
    let differ : same_text (t "'y'") (t "'y'") ≡ same_text (t "'x'") (t "'y'") =
      ap (λ s. same_text s (t "'y'")) same in
    absurd (ground (arith, differ))
