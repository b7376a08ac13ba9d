-- ===== src/Equality.antt =====
-- `isEqual` of testgen/ui/static/js/utils.js, on values as JSON has them and `undefined`. Numbers
-- are integers. The keys that an object inherits, which `k in other` sees too, are left out.
pub mod Keys
pub mod Places
pub mod Alike
pub mod Equal
mod Tests
use dataops_testgen.Base.{
  ℕ, zero, suc, Bool, true, false, ◌&&◌, ◌||◌, Option, none, some, List, [], ◌∷◌, ◌==◌,
  if◌then◌else◌, String, str_eq,
}
use dataops_testgen.Base.Int.{ℤ, pos, negsuc}

pub data Primitive : Type 0 where
  undefined : Primitive
  boolean : Bool → Primitive
  number : ℤ → Primitive
  string : String → Primitive

mutual
  pub data Value : Type 0 where
    primitive : Primitive → Value
    null : Value
    array : Items → Value
    object : Fields → Value

  pub data Items : Type 0 where
    no_items : Items
    item : Value → Items → Items

  -- the entries of an object, in their order
  pub data Fields : Type 0 where
    no_fields : Fields
    field : String → Value → Fields → Fields

abbrev bool_eq : Bool → Bool → Bool
bool_eq true true = true
bool_eq false false = true
bool_eq _ _ = false

abbrev int_eq : ℤ → ℤ → Bool
int_eq (pos m) (pos n) = m == n
int_eq (negsuc m) (negsuc n) = m == n
int_eq _ _ = false

-- `Object.is`
abbrev pub object_is : Primitive → Primitive → Bool
object_is undefined undefined = true
object_is (boolean a) (boolean b) = bool_eq a b
object_is (number m) (number n) = int_eq m n
object_is (string s) (string t) = str_eq s t
object_is _ _ = false

abbrev pub array_length : Items → ℕ
array_length no_items = 0
array_length (item x xs) = suc (array_length xs)

-- `Object.keys(value).length`
abbrev pub key_count : Fields → ℕ
key_count no_fields = 0
key_count (field k v fs) = suc (key_count fs)

-- `other[k]`, `none` unless `k in other`
abbrev pub lookup : String → Fields → Option Value
lookup k no_fields = none
lookup k (field l v fs) = let rest = lookup k fs in if str_eq l k then some v else rest

abbrev pub found : Option Value → (Value → Bool) → Bool
found none test = false
found (some w) test = test w

-- `same` is `===` on two arrays or two objects: one and the same reference.
mutual
  pub is_equal : (Value → Value → Bool) → Value → Value → Bool
  is_equal same (primitive p) (primitive q) = object_is p q
  is_equal same null null = true
  is_equal same (array xs) (array ys) =
      same (array xs) (array ys) || array_length xs == array_length ys && each_item same xs ys
  is_equal same (object fs) (object gs) =
      same (object fs) (object gs) || key_count fs == key_count gs && each_field same fs gs
  is_equal same _ _ = false

  -- the loop over the items
  pub each_item : (Value → Value → Bool) → Items → Items → Bool
  each_item same no_items ys = true
  each_item same (item x xs) no_items =
      is_equal same x (primitive undefined) && each_item same xs no_items
  each_item same (item x xs) (item y ys) = is_equal same x y && each_item same xs ys

  -- the loop over the entries
  pub each_field : (Value → Value → Bool) → Fields → Fields → Bool
  each_field same no_fields gs = true
  each_field same (field k v fs) gs =
      found (lookup k gs) (λ w. is_equal same v w) && each_field same fs gs
