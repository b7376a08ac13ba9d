-- ===== src/Select/Multi.antt =====
-- The choice of several options.
use dataops_testgen.Base.{
  ◌≡◌, refl, sym, ◌∙◌, ap, Bool, true, false, not, ◌&&◌, ◌||◌, List, [], ◌∷◌, ◌++◌, Bool-cases, inl,
  inr, if◌then◌else◌, arith, String, str_eq, str_eq_iff,
}
use dataops_testgen.Select.{is_selected, remove_value, toggle_option}

-- No value stands twice.
abbrev pub IsDistinct : List String → Type 0
IsDistinct [] = Unit
IsDistinct (x ∷ xs) = (is_selected x xs ≡ false) × IsDistinct xs

is_selected-append :
    (w v : String) (xs : List String)
    → is_selected w (xs ++ v ∷ []) ≡ (is_selected w xs || str_eq v w)
is_selected-append w v [] = ground arith
is_selected-append w v (x ∷ xs) = rw (is_selected-append w v xs) (ground arith)

is_selected-same :
    (v w : String) (xs : List String) → str_eq v w ≡ true → is_selected v xs ≡ is_selected w xs
is_selected-same v w xs h = ap (λ u. is_selected u xs) ((str_eq_iff v w).0 h)

is_selected-same_eq :
    (v w : String) (xs : List String)
    → str_eq v w ≡ true
    → is_selected v xs ≡ false
    → is_selected w xs ≡ false
is_selected-same_eq v w xs h n = sym (is_selected-same v w xs h) ∙ n

removed_first :
    (w v x : String) (xs : List String) (b : Bool)
    → str_eq x v ≡ true
    → (str_eq x w ≡ true → b ≡ false)
    → b ≡ ((str_eq x w || b) && not (str_eq v w))
removed_first w v x xs b e h =
    let both : str_eq v w ≡ str_eq x w = ap (λ u. str_eq u w) (sym ((str_eq_iff x v).0 e)) in
    rw both
      (elim (Bool-cases (str_eq x w)) [ inl q ↦ rw (q, h q) refl | inr q ↦ rw q (ground arith) ])

kept_first :
    (w v x : String) (b : Bool)
    → str_eq x v ≡ false
    → (str_eq x w || b && not (str_eq v w)) ≡ ((str_eq x w || b) && not (str_eq v w))
kept_first w v x b e = elim (Bool-cases (str_eq v w)) [
  | inl q ↦
      let other : str_eq x w ≡ false = ap (str_eq x) (sym ((str_eq_iff v w).0 q)) ∙ e in
      rw (q, other) (ground arith)
  | inr q ↦ rw q (ground arith)
]

is_selected-remove_value :
    (w v : String) (xs : List String)
    → IsDistinct xs
    → is_selected w (remove_value v xs) ≡ (is_selected w xs && not (str_eq v w))
unfolding remove_value
is_selected-remove_value w v [] d = refl
is_selected-remove_value w v (x ∷ xs) d = elim (Bool-cases (str_eq x v)) [
  | inl e ↦
      rw e
        (removed_first w v x xs (is_selected w xs) e (λ same. is_selected-same_eq x w xs same d.0))
  | inr e ↦ rw e (rw (is_selected-remove_value w v xs d.1) (kept_first w v x (is_selected w xs) e))
]

-- A click on an option changes whether this one is chosen, and no other, where no value is chosen
-- twice.
pub is_selected-toggle_option :
    (w v : String) (xs : List String)
    → IsDistinct xs
    → is_selected w (toggle_option v xs)
      ≡ (if str_eq v w then not (is_selected w xs) else is_selected w xs)
unfolding toggle_option
is_selected-toggle_option w v xs d = elim (Bool-cases (is_selected v xs)) [
  | inl e ↦
      let there : str_eq v w ≡ true → is_selected w xs ≡ true =
        λ q. sym (is_selected-same v w xs q) ∙ e in
      rw e (rw (is_selected-remove_value w v xs d) (ground arith))
  | inr e ↦
      let there : str_eq v w ≡ true → is_selected w xs ≡ false =
        λ q. sym (is_selected-same v w xs q) ∙ e in
      rw e (rw (is_selected-append w v xs) (ground arith))
]

IsDistinct-append :
    (v : String) (xs : List String)
    → IsDistinct xs
    → is_selected v xs ≡ false
    → IsDistinct (xs ++ v ∷ [])
IsDistinct-append v [] d h = (refl, tt)
IsDistinct-append v (x ∷ xs) d h =
    let back : str_eq v x ≡ false = ground (arith, str_eq_iff v x, str_eq_iff x v) in
    (rw (is_selected-append x v xs, d.0, back) refl, IsDistinct-append v xs d.1 (ground arith))

IsDistinct-remove_value :
    (v : String) (xs : List String) → IsDistinct xs → IsDistinct (remove_value v xs)
unfolding remove_value
IsDistinct-remove_value v [] d = d
IsDistinct-remove_value v (x ∷ xs) d = elim (Bool-cases (str_eq x v)) [
  | inl e ↦ rw e d.1
  | inr e ↦
      rw e (rw (is_selected-remove_value x v xs d.1, d.0) refl, IsDistinct-remove_value v xs d.1)
]

-- A click on an option does not choose a value twice, where no value was chosen twice before.
pub IsDistinct-toggle_option :
    (v : String) (xs : List String) → IsDistinct xs → IsDistinct (toggle_option v xs)
unfolding toggle_option
IsDistinct-toggle_option v xs d = elim (Bool-cases (is_selected v xs)) [
  | inl e ↦ rw e (IsDistinct-remove_value v xs d)
  | inr e ↦ rw e (IsDistinct-append v xs d e)
]
