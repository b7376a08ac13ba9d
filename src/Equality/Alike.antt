-- ===== src/Equality/Alike.antt =====
-- Lemmas on the values that have the same at every place.
use dataops_testgen.Base.{
  ℕ, ◌≡◌, refl, sym, ◌∙◌, ap, Bool, true, false, Option, none, some, List, [], ◌∷◌, Bool-cases, inl,
  inr, arith, String, str_eq, str_eq_iff, str_eq_refl,
}
use dataops_testgen.Base.Int.{pos, negsuc}
use dataops_testgen.Equality.{
  Primitive, undefined, boolean, number, string, Value, array, object, Items, Fields, field,
  object_is, array_length, key_count, lookup, found,
}
use dataops_testgen.Equality.Keys.{lookup-other}
use dataops_testgen.Equality.Places.{
  of_array, of_object, Step, index, key, item_at, and_then, at, Alike,
}

pub object_is_eq : (p q : Primitive) → object_is p q ≡ true → p ≡ q
object_is_eq undefined undefined h = refl
object_is_eq (boolean true) (boolean true) h = refl
object_is_eq (boolean false) (boolean false) h = refl
object_is_eq (number (pos m)) (number (pos n)) h = ap (λ k. number (pos k)) (ground arith)
object_is_eq (number (negsuc m)) (number (negsuc n)) h = ap (λ k. number (negsuc k)) (ground arith)
object_is_eq (string s) (string t) h = ap string ((str_eq_iff s t).0 h)
object_is_eq _ _ h = cc

pub object_is_refl : (p : Primitive) → object_is p p ≡ true
object_is_refl undefined = refl
object_is_refl (boolean true) = refl
object_is_refl (boolean false) = refl
object_is_refl (number (pos m)) = ground arith
object_is_refl (number (negsuc m)) = ground arith
object_is_refl (string s) = str_eq_refl s

pub Alike-array :
    (xs ys : Items)
    → array_length xs ≡ array_length ys
    → ((i : ℕ) (path : List Step)
        → and_then (item_at i xs) (at path) ≡ and_then (item_at i ys) (at path))
    → Alike (array xs) (array ys)
unfolding at
Alike-array xs ys n h [] = ap (λ k. some (of_array k)) n
Alike-array xs ys n h (index i ∷ path) = h i path
Alike-array xs ys n h (key k ∷ path) = refl

pub Alike-object :
    (fs gs : Fields)
    → key_count fs ≡ key_count gs
    → ((k : String) (path : List Step)
        → and_then (lookup k fs) (at path) ≡ and_then (lookup k gs) (at path))
    → Alike (object fs) (object gs)
unfolding at
Alike-object fs gs n h [] = ap (λ k. some (of_object k)) n
Alike-object fs gs n h (index i ∷ path) = refl
Alike-object fs gs n h (key k ∷ path) = h k path

pub some-found :
    (o : Option Value) (test : Value → Bool)
    → found o test ≡ true
    → (w : Value) × ((o ≡ some w) × (test w ≡ true))
some-found none test h = absurd cc
some-found (some w) test h = (w, (refl, h))

pub lookup-later :
    (k l : String) (v x : Value) (fs : Fields)
    → lookup k fs ≡ none
    → lookup l fs ≡ some x
    → lookup l (field k v fs) ≡ some x
lookup-later k l v x fs u e = elim (Bool-cases (str_eq k l)) [
  | inl same ↦
      let there : none ≡ some x = sym u ∙ ap (λ j. lookup j fs) ((str_eq_iff k l).0 same) ∙ e in
      absurd cc
  | inr other ↦ lookup-other k l v fs other ∙ e
]
