-- ===== src/Inputs/Reports.antt =====
-- What the entries of a form say after its inputs have reported.
use dataops_testgen.Base.{
  ◌≡◌, refl, ◌∙◌, ap, Bool, true, false, ◌&&◌, some, List, [], ◌∷◌, any, All, String, str_eq,
  str_eq_iff, str_eq_refl, if◌then◌else◌, Bool-cases, inl, inr, arith,
}
use dataops_testgen.Inputs.{runs, Field, Form, valid, every, report_if, reports}

pub All-zip :
    {A : Type 0} (P Q R : A → Type 0) (xs : List A)
    → ((x : A) → P x → Q x → R x)
    → All P xs
    → All Q xs
    → All R xs
All-zip P Q R [] f p q = tt
All-zip P Q R (x ∷ xs) f p q = (f x p.0 q.0, All-zip P Q R xs f p.1 q.1)

pub runs-keeps :
    {E F : Type 0} (P : F → Type 0) (step : E → F → F)
    → ((e : E) (form : F) → P form → P (step e form))
    → (es : List E) (form : F) → P form
    → P (runs step es form)
unfolding runs
runs-keeps P step keep [] form h = h
runs-keeps P step keep (e ∷ es) form h = runs-keeps P step keep es (step e form) (keep e form h)

differs : (x y : String) → str_eq x y ≡ false → str_eq y x ≡ false
differs x y h = ground (arith, str_eq_iff x y, str_eq_iff y x)

module _ {S : Type 0} where
  abbrev pub named : String → List (Field S) → Bool
  named name fs = any (λ g. str_eq g.name name) fs

  pub unnamed :
      (name : String) (fs : List (Field S))
      → named name fs ≡ false
      → All (λ g. str_eq g.name name ≡ false) fs
  unnamed name [] h = tt
  unnamed name (g ∷ fs) h = (ground arith, unnamed name fs (ground arith))

  -- No two fields have one name.
  abbrev pub IsDistinct : List (Field S) → Type 0
  IsDistinct [] = Unit
  IsDistinct (f ∷ fs) = (named f.name fs ≡ false) × IsDistinct fs

  -- The inputs in the markup have an entry, which says whether they have no errors, and `isValid`
  -- says whether all entries are true.
  pub record IsCurrent (fields : List (Field S)) (form : Form S) : Type 0 where
    pub entries :
        All
          (λ f. f.shown form.state ≡ true → form.validity f.name ≡ some (valid f form.state))
          fields
    pub total : form.is_valid ≡ every fields form.validity

  module _ (fields : List (Field S)) (test : Field S → Bool) (s : S) where
    pub reports-state :
        (fs : List (Field S)) (form : Form S) → (reports fields test s fs form).state ≡ form.state
    unfolding reports
    reports-state [] form = refl
    reports-state (f ∷ fs) form =
        reports-state fs (report_if fields test s f form)
        ∙ elim (Bool-cases (test f)) [ inl e ↦ rw e refl | inr e ↦ rw e refl ]

    step-entry :
        (f : Field S) (form : Form S) (name : String)
        → (report_if fields test s f form).validity name
          ≡ (if test f && str_eq name f.name then some (valid f s) else form.validity name)
    step-entry f form name = elim (Bool-cases (test f)) [ inl e ↦ rw e refl | inr e ↦ rw e refl ]

    pub reports-other :
        (fs : List (Field S)) (form : Form S) (name : String)
        → named name fs ≡ false
        → (reports fields test s fs form).validity name ≡ form.validity name
    unfolding reports
    reports-other [] form name h = refl
    reports-other (f ∷ fs) form name h =
        let other : str_eq name f.name ≡ false = differs f.name name (ground arith) in
        reports-other fs (report_if fields test s f form) name (ground arith)
        ∙ step-entry f form name
        ∙ rw other (ground arith)

    pub reports-entries :
        (fs : List (Field S)) (form : Form S)
        → IsDistinct fs
        → All
            (λ f.
              (reports fields test s fs form).validity f.name
              ≡ (if test f then some (valid f s) else form.validity f.name))
            fs
    unfolding reports
    reports-entries [] form d = tt
    reports-entries (f ∷ fs) form d = (
      reports-other fs (report_if fields test s f form) f.name d.0
          ∙ step-entry f form f.name
          ∙ rw (str_eq_refl f.name) (ground arith),
      All-zip (λ g. str_eq g.name f.name ≡ false)
          (λ g. (reports fields test s fs (report_if fields test s f form)).validity g.name ≡ (
            if test g then some (valid g s) else (report_if fields test s f form).validity g.name))
          (λ g.
            (reports fields test s fs (report_if fields test s f form)).validity g.name
            ≡ (if test g then some (valid g s) else form.validity g.name))
          fs
          (λ g h e.
            e
            ∙ ap (λ o. if test g then some (valid g s) else o)
                (step-entry f form g.name ∙ rw h (ground arith)))
          (unnamed f.name fs d.0) (reports-entries fs (report_if fields test s f form) d.1),
    )

    pub reports-total :
        (fs : List (Field S)) (form : Form S)
        → form.is_valid ≡ every fields form.validity
        → (reports fields test s fs form).is_valid
          ≡ every fields (reports fields test s fs form).validity
    unfolding reports
    reports-total [] form h = h
    reports-total (f ∷ fs) form h =
        reports-total fs (report_if fields test s f form)
          (elim (Bool-cases (test f)) [ inl e ↦ rw e refl | inr e ↦ rw e h ])

    pub reports-some :
        (fs : List (Field S)) (form : Form S)
        → any test fs ≡ true
        → (reports fields test s fs form).is_valid
          ≡ every fields (reports fields test s fs form).validity
    unfolding reports
    reports-some [] form h = cc
    reports-some (f ∷ fs) form h = elim (Bool-cases (test f)) [
      | inl e ↦ reports-total fs (report_if fields test s f form) (rw e refl)
      | inr e ↦ reports-some fs (report_if fields test s f form) (ground arith)
    ]
