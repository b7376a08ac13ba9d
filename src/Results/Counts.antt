-- ===== src/Results/Counts.antt =====
-- Counting the ids of a predicate: a set of ids that has them all is as long as any.
use dataops_testgen.Base.{
  ℕ, suc, ◌≤◌, ◌≡◌, refl, sym, ◌∙◌, Bool, true, false, List, [], ◌∷◌, length, Bool-cases, inl, inr,
  arith, String, str_eq, str_eq_refl, leb, ◌↔◌,
}
use dataops_testgen.Results.Sets.{has, delete_id}
use dataops_testgen.Results.Sets.Laws.{has-delete_id, has-same, IsUnique, IsUnique-delete_id}

-- Each id of the first list is one of the second.
abbrev pub IsWithin : List String → List String → Type 0
IsWithin xs ys = (id : String) → has id xs ≡ true → has id ys ≡ true

delete_id-absent : (v : String) (set : List String) → has v set ≡ false → delete_id v set ≡ set
unfolding delete_id has
delete_id-absent v [] h = refl
delete_id-absent v (x ∷ set) h =
    let other : str_eq x v ≡ false = ground arith in
    let rest : delete_id v set ≡ set = delete_id-absent v set (ground arith) in
    rw (other, rest) refl

length-delete_id :
    (v : String) (set : List String)
    → IsUnique set
    → has v set ≡ true
    → length set ≡ suc (length (delete_id v set))
unfolding delete_id has
length-delete_id v [] d h = absurd cc
length-delete_id v (x ∷ set) d h = elim (Bool-cases (str_eq x v)) [
  | inl e ↦
      let absent : has v set ≡ false = sym (has-same x v set e) ∙ d.0 in
      rw (e, delete_id-absent v set absent) refl
  | inr e ↦
      let rest : length set ≡ suc (length (delete_id v set)) =
        length-delete_id v set d.1 (ground arith) in
      rw e (omega (arith, rest))
]

IsWithin-delete_id :
    (x : String) (xs ys : List String)
    → has x xs ≡ false
    → IsWithin xs ys
    → IsWithin xs (delete_id x ys)
IsWithin-delete_id x xs ys n w id h = elim (Bool-cases (str_eq x id)) [
  | inl e ↦ let no_id : has id xs ≡ false = sym (has-same x id xs e) ∙ n in absurd cc
  | inr e ↦ has-delete_id id x ys ∙ rw (e, w id h) refl
]

pub length-IsWithin :
    (xs ys : List String) → IsUnique xs → IsUnique ys → IsWithin xs ys → length xs ≤ length ys
unfolding has
length-IsWithin [] ys d d' w = omega arith
length-IsWithin (x ∷ xs) ys d d' w =
    let there : has x ys ≡ true = w x (rw (str_eq_refl x) refl) in
    let tail : IsWithin xs ys = λ id h. w id (ground arith) in
    let shorter : length xs ≤ length (delete_id x ys) =
      length-IsWithin xs (delete_id x ys) d.1 (IsUnique-delete_id x ys d')
        (IsWithin-delete_id x xs ys d.0 tail) in
    omega (arith, shorter, length-delete_id x ys d' there)

-- Of two sets the first, if it lies within the second and is as long, has all of its ids.
pub IsWithin-length :
    (xs ys : List String)
    → IsUnique xs
    → IsUnique ys
    → IsWithin xs ys
    → length ys ≤ length xs
    → IsWithin ys xs
IsWithin-length xs ys d d' w size id h = elim (Bool-cases (has id xs)) [
  | inl e ↦ e
  | inr e ↦
      let shorter : length xs ≤ length (delete_id id ys) =
        length-IsWithin xs (delete_id id ys) d (IsUnique-delete_id id ys d')
          (IsWithin-delete_id id xs ys e w) in
      absurd (omega (arith, shorter, size, length-delete_id id ys d' h))
]

-- The predicate holds of `n` ids at least.
abbrev pub AtLeast : ℕ → (String → Bool) → Type 0
AtLeast n f =
    (xs : List String) × IsUnique xs
    × (n ≤ length xs)
    × ((id : String) → has id xs ≡ true → f id ≡ true)

pub AtLeast-iff :
    (n : ℕ) (set : List String) (f : String → Bool)
    → IsUnique set
    → ((id : String) → has id set ≡ f id)
    → (leb n (length set) ≡ true) ↔ AtLeast n f
AtLeast-iff n set f d e = (
  λ h. (set, d, ground arith, λ id on. sym (e id) ∙ on),
  λ (xs, u, size, w).
      let fits : length xs ≤ length set = length-IsWithin xs set u d (λ id on. e id ∙ w id on) in
      ground arith,
)
