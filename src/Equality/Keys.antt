-- ===== src/Equality/Keys.antt =====
-- Two objects with as many keys, where each key of the first is one of the second.
use dataops_testgen.Base.{
  suc, ◌≡◌, refl, sym, ◌∙◌, ap, true, false, none, some, Bool-cases, inl, inr, arith, String,
  str_eq, str_eq_iff, if◌then◌else◌,
}
use dataops_testgen.Equality.{Value, Fields, no_fields, field, key_count, lookup}

-- No key stands twice.
abbrev pub IsDistinct : Fields → Type 0
IsDistinct no_fields = Unit
IsDistinct (field k v fs) = (lookup k fs ≡ none) × IsDistinct fs

abbrev pub Covers : Fields → Fields → Type 0
Covers no_fields gs = Unit
Covers (field k v fs) gs = ((w : Value) × (lookup k gs ≡ some w)) × Covers fs gs

remove : String → Fields → Fields
remove k no_fields = no_fields
remove k (field l v fs) = let rest = remove k fs in if str_eq l k then fs else field l v rest

pub lookup-same :
    (l k : String) (v : Value) (fs : Fields) → str_eq l k ≡ true → lookup k (field l v fs) ≡ some v
lookup-same l k v fs e = rw e refl

pub lookup-other :
    (l k : String) (v : Value) (fs : Fields)
    → str_eq l k ≡ false
    → lookup k (field l v fs) ≡ lookup k fs
lookup-other l k v fs e = rw e refl

key_count-remove :
    (k : String) (gs : Fields) (w : Value)
    → lookup k gs ≡ some w
    → suc (key_count (remove k gs)) ≡ key_count gs
unfolding remove
key_count-remove k no_fields w h = cc
key_count-remove k (field l v gs) w h = elim (Bool-cases (str_eq l k)) [
  | inl e ↦ rw e refl
  | inr e ↦ rw e (ap suc (key_count-remove k gs w (sym (lookup-other l k v gs e) ∙ h)))
]

str_eq-other : (l j k : String) → str_eq l j ≡ true → str_eq j k ≡ false → str_eq l k ≡ false
str_eq-other l j k e h = ground (arith, str_eq_iff l j, str_eq_iff j k, str_eq_iff l k)

lookup-remove :
    (k j : String) (gs : Fields) → str_eq j k ≡ false → lookup k (remove j gs) ≡ lookup k gs
unfolding remove
lookup-remove k j no_fields h = refl
lookup-remove k j (field l v gs) h = elim (Bool-cases (str_eq l j)) [
  | inl e ↦ rw (e, str_eq-other l j k e h) refl
  | inr e ↦ elim (Bool-cases (str_eq l k)) [
    | inl e' ↦ rw (e, e') refl
    | inr e' ↦ rw (e, e') (lookup-remove k j gs h)
  ]
]

-- A key that is not among the entries is none of their keys.
differs :
    (l j : String) (v : Value) (fs : Fields)
    → lookup j (field l v fs) ≡ none
    → (str_eq l j ≡ false) × (lookup j fs ≡ none)
differs l j v fs h = elim (Bool-cases (str_eq l j)) [
  | inl e ↦ let there : some v ≡ none = sym (lookup-same l j v fs e) ∙ h in absurd cc
  | inr e ↦ (e, sym (lookup-other l j v fs e) ∙ h)
]

str_eq-sym : (k l : String) → str_eq k l ≡ false → str_eq l k ≡ false
str_eq-sym k l h = ground (arith, str_eq_iff k l, str_eq_iff l k)

Covers-remove :
    (j : String) (fs gs : Fields) → lookup j fs ≡ none → Covers fs gs → Covers fs (remove j gs)
Covers-remove j no_fields gs h c = c
Covers-remove j (field k v fs) gs h c =
    let other : (str_eq k j ≡ false) × (lookup j fs ≡ none) = differs k j v fs h in
    (
      (c.0.0, lookup-remove k j gs (str_eq-sym k j other.0) ∙ c.0.1),
      Covers-remove j fs gs other.1 c.1,
    )

pub no_fields-key_count : (k : String) (gs : Fields) → key_count gs ≡ 0 → lookup k gs ≡ none
no_fields-key_count k no_fields h = refl
no_fields-key_count k (field l v gs) h = absurd (omega arith)

-- Then a key that is missing in the first object is missing in the second.
pub lookup-Covers :
    (k : String) (fs gs : Fields)
    → IsDistinct fs
    → Covers fs gs
    → key_count fs ≡ key_count gs
    → lookup k fs ≡ none
    → lookup k gs ≡ none
lookup-Covers k no_fields gs d c same h = no_fields-key_count k gs (sym same)
lookup-Covers k (field l v fs) gs d c same h =
    let other : (str_eq l k ≡ false) × (lookup k fs ≡ none) = differs l k v fs h in
    let count : suc (key_count (remove l gs)) ≡ key_count gs = key_count-remove l gs c.0.0 c.0.1 in
    sym (lookup-remove k l gs other.0)
    ∙ lookup-Covers k fs (remove l gs) d.1 (Covers-remove l fs gs d.0 c.1) (omega arith) other.1
