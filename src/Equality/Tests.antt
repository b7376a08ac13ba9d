-- ===== src/Equality/Tests.antt =====
-- Runs of `isEqual` on concrete values.
use dataops_testgen.Base.{◌≡◌, refl, ◌↔◌, Bool, true, false}
use dataops_testgen.Base.Int.{pos}
use dataops_testgen.Equality.{
  number, Value, primitive, null, array, object, no_items, item, no_fields, field, is_equal,
}
use dataops_testgen.Equality.Places.{IsProper, Alike}
use dataops_testgen.Equality.Equal.{is_equal_iff, is_equal_sym}

abbrev one : Value
one = primitive (number (pos 1))

abbrev ab : Value
ab = object (field "a" one (field "b" (array (item null (item one no_items))) no_fields))

abbrev ba : Value
ba = object (field "b" (array (item null (item one no_items))) (field "a" one no_fields))

-- three different objects
abbrev never : Value → Value → Bool
never v w = false

never_eq : (v w : Value) → never v w ≡ true → v ≡ w
never_eq v w h = absurd cc

ab-IsProper : IsProper ab
unfolding IsProper
ab-IsProper = ((refl, (refl, tt)), (tt, ((tt, (tt, tt)), tt)))

ba-IsProper : IsProper ba
unfolding IsProper
ba-IsProper = ((refl, (refl, tt)), ((tt, (tt, tt)), (tt, tt)))

order_test : is_equal never ab ba ≡ true
unfolding is_equal
order_test = refl

order_test_back : is_equal never ba ab ≡ true
unfolding is_equal
order_test_back = refl

missing_test : is_equal never ab (object (field "a" one (field "c" null no_fields))) ≡ false
unfolding is_equal
missing_test = refl

is_equal_iff_example : (is_equal never ab ba ≡ true) ↔ Alike ab ba
is_equal_iff_example = is_equal_iff never never_eq ab ba ab-IsProper

is_equal_sym_example : is_equal never ab ba ≡ is_equal never ba ab
is_equal_sym_example = is_equal_sym never never_eq ab ba ab-IsProper ba-IsProper
