-- ===== src/Equality/Equal.antt =====
-- `isEqual` on two values is their having the same at every place.
use dataops_testgen.Base.{
  ℕ, zero, suc, ◌≡◌, refl, sym, ◌∙◌, ap, Bool, true, none, some, List, [], ◌∷◌, Bool-cases,
  Option-cases, inl, inr, arith, String, str_eq, str_eq_iff, str_eq_refl, ◌↔◌,
}
use dataops_testgen.Equality.{
  Value, primitive, null, array, object, Items, no_items, item, Fields, no_fields, field, object_is,
  array_length, key_count, lookup, is_equal, each_item, each_field,
}
use dataops_testgen.Equality.Keys.{IsDistinct, Covers, lookup-same, lookup-other, lookup-Covers}
use dataops_testgen.Equality.Places.{
  Step, index, key, item_at, shape, and_then, at, IsProper, IsProperItems, IsProperFields, Alike,
}
use dataops_testgen.Equality.Alike.{
  object_is_eq, object_is_refl, Alike-array, Alike-object, some-found, lookup-later,
}
use mathlib.Core.Path.{subst}

module _ (same : Value → Value → Bool) (same_eq : (v w : Value) → same v w ≡ true → v ≡ w) where
  Covers-each_field : (fs gs : Fields) → each_field same fs gs ≡ true → Covers fs gs
  unfolding each_field
  Covers-each_field no_fields gs h = tt
  Covers-each_field (field k v fs) gs h =
      let w : (w : Value) × ((lookup k gs ≡ some w) × (is_equal same v w ≡ true)) =
        some-found (lookup k gs) (λ w. is_equal same v w) (ground arith) in
      ((w.0, w.1.0), Covers-each_field fs gs (ground arith))

  fields_at :
      (fs gs : Fields)
      → IsDistinct fs
      → Covers fs gs
      → key_count fs ≡ key_count gs
      → ((k : String) (v : Value)
          → lookup k fs ≡ some v
          → (w : Value) × ((lookup k gs ≡ some w) × Alike v w))
      → (k : String) (path : List Step)
      → and_then (lookup k fs) (at path) ≡ and_then (lookup k gs) (at path)
  fields_at fs gs d c n h k path = elim (Option-cases (lookup k fs)) [
    | inl e ↦ ap (λ o. and_then o (at path)) (e ∙ sym (lookup-Covers k fs gs d c n e))
    | inr (v, e) ↦
        let w : (w : Value) × ((lookup k gs ≡ some w) × Alike v w) = h k v e in
        ap (λ o. and_then o (at path)) e ∙ w.1.1 path ∙ ap (λ o. and_then o (at path)) (sym w.1.0)
  ]

  mutual
    unfolding is_equal each_item each_field IsProper IsProperItems IsProperFields

    Alike-is_equal_at : (v w : Value) → IsProper v → is_equal same v w ≡ true → Alike v w
    Alike-is_equal_at (primitive p) (primitive q) d h =
        let e : p ≡ q = object_is_eq p q h in λ path. ap (λ r. at path (primitive r)) e
    Alike-is_equal_at null null d h = λ path. refl
    Alike-is_equal_at (array xs) (array ys) d h = elim (Bool-cases (same (array xs) (array ys))) [
      | inl e ↦ λ path. ap (at path) (same_eq (array xs) (array ys) e)
      | inr e ↦
          let n : array_length xs ≡ array_length ys = ground arith in
          Alike-array xs ys n (Alike-each_item xs ys d n (ground arith))
    ]
    Alike-is_equal_at (object fs) (object gs) d h =
        elim (Bool-cases (same (object fs) (object gs))) [
          | inl e ↦ λ path. ap (at path) (same_eq (object fs) (object gs) e)
          | inr e ↦
              let n : key_count fs ≡ key_count gs = ground arith in
              let each : each_field same fs gs ≡ true = ground arith in
              Alike-object fs gs n (
                fields_at fs gs d.0 (Covers-each_field fs gs each) n
                  (Alike-each_field fs gs d.1 each))
        ]
    Alike-is_equal_at _ _ d h = absurd cc

    Alike-each_item :
        (xs ys : Items)
        → IsProperItems xs
        → array_length xs ≡ array_length ys
        → each_item same xs ys ≡ true
        → (i : ℕ) (path : List Step)
        → and_then (item_at i xs) (at path) ≡ and_then (item_at i ys) (at path)
    Alike-each_item no_items no_items d n h i path = refl
    Alike-each_item no_items (item y ys) d n h i path = absurd (omega arith)
    Alike-each_item (item x xs) no_items d n h i path = absurd (omega arith)
    Alike-each_item (item x xs) (item y ys) d n h zero path =
        Alike-is_equal_at x y d.0 (ground arith) path
    Alike-each_item (item x xs) (item y ys) d n h (suc i) path =
        Alike-each_item xs ys d.1 (omega arith) (ground arith) i path

    Alike-each_field :
        (fs gs : Fields)
        → IsProperFields fs
        → each_field same fs gs ≡ true
        → (k : String) (v : Value) → lookup k fs ≡ some v
        → (w : Value) × ((lookup k gs ≡ some w) × Alike v w)
    Alike-each_field no_fields gs d h k v e = absurd cc
    Alike-each_field (field l x fs) gs d h k v e = elim (Bool-cases (str_eq l k)) [
      | inl e' ↦
          let w : (w : Value) × ((lookup l gs ≡ some w) × (is_equal same x w ≡ true)) =
            some-found (lookup l gs) (λ w. is_equal same x w) (ground arith) in
          let there : some x ≡ some v = sym (lookup-same l k x fs e') ∙ e in
          let x_is : x ≡ v = cc in
          (
            w.0,
            (
              ap (λ j. lookup j gs) (sym ((str_eq_iff l k).0 e')) ∙ w.1.0,
              subst (λ u. Alike u w.0) x_is (Alike-is_equal_at x w.0 d.0 w.1.1),
            ),
          )
      | inr e' ↦ Alike-each_field fs gs d.1 (ground arith) k v (sym (lookup-other l k x fs e') ∙ e)
    ]

  mutual
    unfolding is_equal each_item each_field at IsProper IsProperItems IsProperFields

    is_equal-Alike_at : (v w : Value) → IsProper v → Alike v w → is_equal same v w ≡ true
    is_equal-Alike_at (primitive p) (primitive q) d a =
        let here : at [] (primitive p) ≡ at [] (primitive q) = a [] in
        let e : p ≡ q = cc in subst (λ r. object_is p r ≡ true) e (object_is_refl p)
    is_equal-Alike_at null null d a = refl
    is_equal-Alike_at (array xs) (array ys) d a =
        let here : at [] (array xs) ≡ at [] (array ys) = a [] in
        let n : array_length xs ≡ array_length ys = cc in
        let each : each_item same xs ys ≡ true =
          each_item-Alike xs ys d n (λ i path. a (index i ∷ path)) in
        ground arith
    is_equal-Alike_at (object fs) (object gs) d a =
        let here : at [] (object fs) ≡ at [] (object gs) = a [] in
        let n : key_count fs ≡ key_count gs = cc in
        let each : each_field same fs gs ≡ true =
          each_field-Alike fs gs d.0 d.1
            (λ k v e path. sym (ap (λ o. and_then o (at path)) e) ∙ a (key k ∷ path)) in
        ground arith
    is_equal-Alike_at v w d a = let here : at [] v ≡ at [] w = a [] in absurd cc

    each_item-Alike :
        (xs ys : Items)
        → IsProperItems xs
        → array_length xs ≡ array_length ys
        → ((i : ℕ) (path : List Step)
            → and_then (item_at i xs) (at path) ≡ and_then (item_at i ys) (at path))
        → each_item same xs ys ≡ true
    each_item-Alike no_items ys d n a = refl
    each_item-Alike (item x xs) no_items d n a = absurd (omega arith)
    each_item-Alike (item x xs) (item y ys) d n a =
        rw
          (
            is_equal-Alike_at x y d.0 (a 0),
            each_item-Alike xs ys d.1 (omega arith) (λ i. a (suc i)),
          )
          refl

    each_field-Alike :
        (fs gs : Fields)
        → IsDistinct fs
        → IsProperFields fs
        → ((k : String) (v : Value)
            → lookup k fs ≡ some v
            → (path : List Step) → at path v ≡ and_then (lookup k gs) (at path))
        → each_field same fs gs ≡ true
    each_field-Alike no_fields gs u d a = refl
    each_field-Alike (field k v fs) gs u d a =
        let rest : each_field same fs gs ≡ true =
          each_field-Alike fs gs u.1 d.1 (λ l x e. a l x (lookup-later k l v x fs u.0 e)) in
        let first : lookup k (field k v fs) ≡ some v = lookup-same k k v fs (str_eq_refl k) in
        elim (Option-cases (lookup k gs)) [
          | inl e ↦
              let gone : some (shape v) ≡ none = a k v first [] ∙ ap (λ o. and_then o (at [])) e in
              absurd cc
          | inr (w, e) ↦
              let alike : Alike v w = λ path. a k v first path ∙ ap (λ o. and_then o (at path)) e in
              rw e (rw (is_equal-Alike_at v w d.0 alike) rest)
        ]

  -- isEqual holds of two values exactly when they have the same at every place: the same primitive
  -- values, `null`, and arrays and objects of the same size, whatever the order of the keys, for a
  -- first value whose objects have no key twice and where one reference means one value.
  pub is_equal_iff : (v w : Value) → IsProper v → (is_equal same v w ≡ true) ↔ Alike v w
  is_equal_iff v w d = (Alike-is_equal_at v w d, is_equal-Alike_at v w d)

  -- isEqual does not depend on the order of its arguments, for values whose objects have no key
  -- twice and where one reference means one value.
  pub is_equal_sym : (v w : Value) → IsProper v → IsProper w → is_equal same v w ≡ is_equal same w v
  is_equal_sym v w d d' = elim (Bool-cases (is_equal same v w)) [
    | inl e ↦
        let back : is_equal same w v ≡ true =
          is_equal-Alike_at w v d' (λ path. sym (Alike-is_equal_at v w d e path)) in
        e ∙ sym back
    | inr e ↦ elim (Bool-cases (is_equal same w v)) [
      | inl e' ↦
          let there : is_equal same v w ≡ true =
            is_equal-Alike_at v w d (λ path. sym (Alike-is_equal_at w v d' e' path)) in
          absurd cc
      | inr e' ↦ e ∙ sym e'
    ]
  ]

  -- Of three values, if isEqual holds of the first and second and of the second and third, it holds
  -- of the first and third, for values whose objects have no key twice and where one reference means
  -- one value.
  pub is_equal_trans :
      (u v w : Value)
      → IsProper u
      → IsProper v
      → is_equal same u v ≡ true
      → is_equal same v w ≡ true
      → is_equal same u w ≡ true
  is_equal_trans u v w d d' h h' =
      is_equal-Alike_at u w d
        (λ path. Alike-is_equal_at u v d h path ∙ Alike-is_equal_at v w d' h' path)
