-- ===== src/Equality/Places.antt =====
-- What a value has at each place: `isEqual` is the equality of that.
use dataops_testgen.Base.{ℕ, zero, suc, ◌≡◌, Option, none, some, List, [], ◌∷◌, String}
use dataops_testgen.Equality.{
  Primitive, Value, primitive, null, array, object, Items, no_items, item, Fields, no_fields, field,
  array_length, key_count, lookup,
}
use dataops_testgen.Equality.Keys.{IsDistinct}

-- What is at one place: a primitive value, `null`, or an array or object of some size.
pub data Shape : Type 0 where
  of_primitive : Primitive → Shape
  of_null : Shape
  of_array : ℕ → Shape
  of_object : ℕ → Shape

pub data Step : Type 0 where
  index : ℕ → Step
  key : String → Step

abbrev pub shape : Value → Shape
shape (primitive p) = of_primitive p
shape null = of_null
shape (array xs) = of_array (array_length xs)
shape (object fs) = of_object (key_count fs)

abbrev pub item_at : ℕ → Items → Option Value
item_at i no_items = none
item_at zero (item x xs) = some x
item_at (suc i) (item x xs) = item_at i xs

abbrev pub into : Step → Value → Option Value
into (index i) (array xs) = item_at i xs
into (key k) (object fs) = lookup k fs
into _ _ = none

abbrev pub and_then : Option Value → (Value → Option Shape) → Option Shape
and_then none f = none
and_then (some v) f = f v

-- What a value has at the end of a path.
unfoldable pub at : List Step → Value → Option Shape
at [] v = some (shape v)
at (s ∷ path) v = and_then (into s v) (at path)

-- The objects in a value have no key twice.
unfoldable mutual
  pub IsProper : Value → Type 0
  IsProper (primitive p) = Unit
  IsProper null = Unit
  IsProper (array xs) = IsProperItems xs
  IsProper (object fs) = IsDistinct fs × IsProperFields fs

  pub IsProperItems : Items → Type 0
  IsProperItems no_items = Unit
  IsProperItems (item x xs) = IsProper x × IsProperItems xs

  pub IsProperFields : Fields → Type 0
  IsProperFields no_fields = Unit
  IsProperFields (field k v fs) = IsProper v × IsProperFields fs

-- Two values with the same at every place.
abbrev pub Alike : Value → Value → Type 0
Alike v w = (path : List Step) → at path v ≡ at path w
