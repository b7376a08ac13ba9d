-- ===== src/Results/Sets/Laws.antt =====
-- Sets of ids after `add` and `delete`.
use dataops_testgen.Base.{
  ◌≡◌, refl, sym, ◌∙◌, ap, true, false, not, ◌&&◌, ◌||◌, List, [], ◌∷◌, ◌++◌, Bool-cases, inl, inr,
  arith, String, str_eq, str_eq_iff, str_eq_refl,
}
use dataops_testgen.Results.Sets.{has, add_id, delete_id}

pub has-same : (v w : String) (set : List String) → str_eq v w ≡ true → has v set ≡ has w set
has-same v w set e = ap (λ u. has u set) ((str_eq_iff v w).0 e)

pub has-append :
    (w v : String) (set : List String) → has w (set ++ v ∷ []) ≡ (has w set || str_eq v w)
unfolding has
has-append w v [] = ground arith
has-append w v (x ∷ set) = rw (has-append w v set) (ground arith)

pub has-add_id :
    (w v : String) (set : List String) → has w (add_id v set) ≡ (str_eq v w || has w set)
unfolding add_id
has-add_id w v set = elim (Bool-cases (has v set)) [
  | inl e ↦
      let there : str_eq v w ≡ true → has w set ≡ true = λ q. sym (has-same v w set q) ∙ e in
      rw e (ground arith)
  | inr e ↦ rw (e, has-append w v set) (ground arith)
]

pub has-delete_id :
    (w v : String) (set : List String) → has w (delete_id v set) ≡ (not (str_eq v w) && has w set)
unfolding has delete_id
has-delete_id w v [] = ground arith
has-delete_id w v (x ∷ set) = elim (Bool-cases (str_eq x v)) [
  | inl e ↦
      let same : str_eq x w ≡ str_eq v w = ap (λ u. str_eq u w) ((str_eq_iff x v).0 e) in
      rw (e, same) (has-delete_id w v set ∙ ground arith)
  | inr e ↦
      let other : str_eq v w ≡ true → str_eq x w ≡ false =
        λ q. ap (str_eq x) (sym ((str_eq_iff v w).0 q)) ∙ e in
      rw (e, has-delete_id w v set) (ground arith)
]

-- No id stands twice.
abbrev pub IsUnique : List String → Type 0
IsUnique [] = Unit
IsUnique (x ∷ set) = (has x set ≡ false) × IsUnique set

str_ne_sym : (x v : String) → str_eq x v ≡ false → str_eq v x ≡ false
str_ne_sym x v n = elim (Bool-cases (str_eq v x)) [
  | inl e ↦
      absurd
        (let same : str_eq x v ≡ true = ap (str_eq x) ((str_eq_iff v x).0 e) ∙ str_eq_refl x in cc)
  | inr e ↦ e
]

IsUnique-append :
    (v : String) (set : List String) → has v set ≡ false → IsUnique set → IsUnique (set ++ v ∷ [])
unfolding has
IsUnique-append v [] n d = (refl, tt)
IsUnique-append v (x ∷ set) n d =
    let other : str_eq v x ≡ false = str_ne_sym x v (ground arith) in
    let rest : has v set ≡ false = ground arith in
    (has-append x v set ∙ rw (d.0, other) refl, IsUnique-append v set rest d.1)

pub IsUnique-add_id : (v : String) (set : List String) → IsUnique set → IsUnique (add_id v set)
unfolding add_id
IsUnique-add_id v set d = elim (Bool-cases (has v set)) [
  | inl e ↦ rw e d
  | inr e ↦ rw e (IsUnique-append v set e d)
]

pub IsUnique-delete_id :
    (v : String) (set : List String) → IsUnique set → IsUnique (delete_id v set)
unfolding delete_id
IsUnique-delete_id v [] d = tt
IsUnique-delete_id v (x ∷ set) d = elim (Bool-cases (str_eq x v)) [
  | inl e ↦ rw e (IsUnique-delete_id v set d.1)
  | inr e ↦ rw e (has-delete_id x v set ∙ ground (arith, d.0), IsUnique-delete_id v set d.1)
]
