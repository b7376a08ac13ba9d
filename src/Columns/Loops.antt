-- ===== src/Columns/Loops.antt =====
-- What a loop that pushes lists leaves of a test on what is pushed.
use dataops_testgen.Base.{
  ◌≡◌, refl, ◌∙◌, ap, ap₂, sym, Bool, true, false, ◌||◌, List, [], ◌∷◌, ◌++◌, any, All, all, ◌⊎◌,
  inl, inr, arith,
}
use dataops_testgen.Columns.{push_each}

-- A test has the value `o`, or fails.
abbrev AtMost : Bool → Bool → Type 0
AtMost o a = (a ≡ o) ⊎ (a ≡ false)

or_AtMost : (o a b : Bool) → AtMost o a → AtMost o b → AtMost o (a || b)
or_AtMost o a b (inl e) (inl f) = inl (ground arith)
or_AtMost o a b (inl e) (inr f) = inl (ground arith)
or_AtMost o a b (inr e) (inl f) = inl (ground arith)
or_AtMost o a b (inr e) (inr f) = inr (ground arith)

or_first : (o a b : Bool) → a ≡ o → AtMost o b → (a || b) ≡ o
or_first o a b e (inl f) = ground arith
or_first o a b e (inr f) = ground arith

or_second : (o a b : Bool) → AtMost o a → b ≡ o → (a || b) ≡ o
or_second o a b (inl e) f = ground arith
or_second o a b (inr e) f = ground arith

module _ {A : Type 0} where
  -- The list has the element.
  abbrev pub Among : A → List A → Type 0
  Among x [] = ⊥
  Among x (y ∷ ys) = (y ≡ x) ⊎ Among x ys

  pub all-Among : (p : A → Bool) (x : A) (ys : List A) → all p ys ≡ true → Among x ys → p x ≡ true
  all-Among p x [] h i = absurd i
  all-Among p x (y ∷ ys) h (inl e) = ap p (sym e) ∙ ground arith
  all-Among p x (y ∷ ys) h (inr i) = all-Among p x ys (ground arith) i

any-append :
    {B : Type 0} (p : B → Bool) (xs ys : List B) → any p (xs ++ ys) ≡ (any p xs || any p ys)
any-append p [] ys = refl
any-append p (x ∷ xs) ys = rw (any-append p xs ys) (ground arith)

module _ {A B : Type 0} where
  pub any-none :
      (p : B → Bool) (push : A → List B) (xs : List A)
      → ((x : A) → any p (push x) ≡ false)
      → any p (push_each push xs) ≡ false
  unfolding push_each
  any-none p push [] h = refl
  any-none p push (x ∷ xs) h =
      any-append p (push x) (push_each push xs) ∙ ap₂ (λ a b. a || b) (h x) (any-none p push xs h)

  -- The other elements of the list push nothing that meets the test.
  abbrev pub IsOnly : (B → Bool) → (A → List B) → A → List A → Type 0
  IsOnly p push x ys = All (λ y. (y ≡ x) ⊎ (any p (push y) ≡ false)) ys

  element_AtMost :
      (p : B → Bool) (push : A → List B) (x y : A)
      → (y ≡ x) ⊎ (any p (push y) ≡ false)
      → AtMost (any p (push x)) (any p (push y))
  element_AtMost p push x y (inl e) = inl (ap (λ z. any p (push z)) e)
  element_AtMost p push x y (inr e) = inr e

  loop_AtMost :
      (p : B → Bool) (push : A → List B) (x : A) (ys : List A)
      → IsOnly p push x ys
      → AtMost (any p (push x)) (any p (push_each push ys))
  unfolding push_each
  loop_AtMost p push x [] h = inr refl
  loop_AtMost p push x (y ∷ ys) h = rw (any-append p (push y) (push_each push ys)) (
      or_AtMost (any p (push x)) (any p (push y)) (any p (push_each push ys))
        (element_AtMost p push x y h.0) (loop_AtMost p push x ys h.1))

  -- Then the loop pushes something that meets the test if this element does.
  pub any-only :
      (p : B → Bool) (push : A → List B) (x : A) (ys : List A)
      → Among x ys
      → IsOnly p push x ys
      → any p (push_each push ys) ≡ any p (push x)
  unfolding push_each
  any-only p push x [] i h = absurd i
  any-only p push x (y ∷ ys) (inl e) h =
      any-append p (push y) (push_each push ys)
      ∙ or_first (any p (push x)) (any p (push y)) (any p (push_each push ys))
          (ap (λ z. any p (push z)) e) (loop_AtMost p push x ys h.1)
  any-only p push x (y ∷ ys) (inr i) h =
      any-append p (push y) (push_each push ys)
      ∙ or_second (any p (push x)) (any p (push y)) (any p (push_each push ys))
          (element_AtMost p push x y h.0) (any-only p push x ys i h.1)
