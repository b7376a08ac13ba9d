-- ===== src/Results/Elsewhere.antt =====
-- The ids of a set that are not on a page.
use dataops_testgen.Base.{
  ◌≡◌, ◌≤◌, refl, ◌∙◌, ap, Bool, true, false, not, List, [], ◌∷◌, ◌++◌, Bool-cases, inl, inr,
  if◌then◌else◌, arith, String, str_eq, str_eq_iff, str_eq_refl, split_if, length, keep,
}
use dataops_testgen.Results.{Item, item_ids, take_over}
use dataops_testgen.Results.Sets.{has, add_id, delete_id}

keep-append :
    (p : String → Bool) (v : String) (set : List String)
    → p v ≡ false
    → keep p (set ++ v ∷ []) ≡ keep p set
keep-append p v [] n = rw n refl
keep-append p v (x ∷ set) n = rw (keep-append p v set n) refl

keep-add_id :
    (p : String → Bool) (v : String) (set : List String)
    → p v ≡ false
    → keep p (add_id v set) ≡ keep p set
unfolding add_id
keep-add_id p v set n = elim (Bool-cases (has v set)) [
  | inl e ↦ rw e refl
  | inr e ↦ rw e (keep-append p v set n)
]

keep-delete_id :
    (p : String → Bool) (v : String) (set : List String)
    → p v ≡ false
    → keep p (delete_id v set) ≡ keep p set
unfolding delete_id
keep-delete_id p v [] n = refl
keep-delete_id p v (x ∷ set) n = elim (Bool-cases (str_eq x v)) [
  | inl e ↦
      let off : p x ≡ false = ap p ((str_eq_iff x v).0 e) ∙ n in
      rw (e, off) (keep-delete_id p v set n)
  | inr e ↦ rw (e, keep-delete_id p v set n) refl
]

pub keep-take_over :
    (p : String → Bool) (page active set : List String)
    → ((id : String) → has id page ≡ true → p id ≡ false)
    → keep p (take_over page active set) ≡ keep p set
unfolding take_over has
keep-take_over p [] active set off = refl
keep-take_over p (v ∷ page) active set off =
    keep-take_over p page active (if has v active then add_id v set else delete_id v set)
      (λ id h. off id (rw h (ground arith)))
    ∙ split_if (λ t. keep p t ≡ keep p set) (has v active)
        (λ e. keep-add_id p v set (off v (rw (str_eq_refl v) refl)))
        (λ e. keep-delete_id p v set (off v (rw (str_eq_refl v) refl)))

pub length-keep : (p : String → Bool) (set : List String) → length (keep p set) ≤ length set
length-keep p [] = omega arith
length-keep p (x ∷ set) = elim (Bool-cases (p x)) [
  | inl e ↦ rw e (omega (arith, length-keep p set))
  | inr e ↦ rw e (omega (arith, length-keep p set))
]

pub elsewhere_all :
    (items : List Item) (set : List String)
    → ((id : String) → has id set ≡ true → has id (item_ids items) ≡ false)
    → keep (λ id. not (has id (item_ids items))) set ≡ set
unfolding has
elsewhere_all items [] off = refl
elsewhere_all items (x ∷ set) off =
    rw
      (
        off x (rw (str_eq_refl x) refl),
        elsewhere_all items set (λ id h. off id (rw h (ground arith))),
      )
      refl
