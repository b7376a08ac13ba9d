-- ===== src/Inputs/Current.antt =====
-- The entries of a form stay true to its inputs, and what `isValid` then says.
use dataops_testgen.Base.{
  ◌≡◌, refl, sym, ◌∙◌, Bool, true, false, Option, none, some, List, [], ◌∷◌, all, any, All, String,
  or_default, if◌then◌else◌, Bool-cases, inl, inr, arith,
}
use dataops_testgen.Inputs.{
  Field, Form, valid, every, reports, reacts, mounts, change_to, open_form,
}
use dataops_testgen.Inputs.Reports.{
  All-zip, IsDistinct, IsCurrent, reports-state, reports-entries, reports-total, reports-some,
}
use mathlib.Core.Path.{subst}

All-unit : {A : Type 0} (xs : List A) → All (λ x. Unit {0}) xs
All-unit [] = tt
All-unit (x ∷ xs) = (tt, All-unit xs)

module _ {S : Type 0} where
  after_reports :
      (f : Field S) (old new : S) (m m' m'' : Option Bool)
      → (mounts old new f ≡ false → f.shown old ≡ true → m ≡ some (valid f old))
      → m' ≡ (if reacts old new f then some (valid f new) else m)
      → m'' ≡ (if mounts old new f then some (valid f new) else m')
      → f.shown new ≡ true
      → m'' ≡ some (valid f new)
  after_reports f old new m m' m'' h e e' shown = elim (Bool-cases (mounts old new f)) [
    | inl built ↦ e' ∙ rw built refl
    | inr stays ↦
        let was : f.shown old ≡ true = ground arith in
        let before : m ≡ some (valid f old) = h stays was in ground arith
  ]

  pub state-change_to :
      (fields : List (Field S)) (new : S) (form : Form S) → (change_to fields new form).state ≡ new
  unfolding change_to
  state-change_to fields new form =
      reports-state fields (mounts form.state new) new fields
        (reports fields (reacts form.state new) new fields (record form { state = new }))
      ∙ reports-state fields (reacts form.state new) new fields (record form { state = new })

  pub state-open_form :
      (fields : List (Field S)) (start : Bool) (s : S) → (open_form fields start s).state ≡ s
  unfolding open_form
  state-open_form fields start s =
      reports-state fields (λ f. f.shown s) s fields
        (record { state = s; validity = λ name. none; is_valid = start })

  -- Before a change it is enough that the inputs that it does not build have their entries.
  pub record IsReady (fields : List (Field S)) (new : S) (form : Form S) : Type 0 where
    pub entries :
        All
          (λ f.
            mounts form.state new f ≡ false
            → f.shown form.state ≡ true
            → form.validity f.name ≡ some (valid f form.state))
          fields
    pub total : form.is_valid ≡ every fields form.validity

  pub change_to-IsReady :
      (fields : List (Field S)) (new : S) (form : Form S)
      → IsDistinct fields
      → IsReady fields new form
      → IsCurrent fields (change_to fields new form)
  unfolding change_to
  change_to-IsReady fields new form d c =
      let first : Form S =
        reports fields (reacts form.state new) new fields (record form { state = new }) in
      let second : Form S = reports fields (mounts form.state new) new fields first in
      let at_new : second.state ≡ new = state-change_to fields new form in
      record {
        entries =
            subst
              (λ t. All (λ f. f.shown t ≡ true → second.validity f.name ≡ some (valid f t)) fields)
              (sym at_new)
              (All-zip
                (λ f.
                  (mounts form.state new f ≡ false
                    → f.shown form.state ≡ true
                    → form.validity f.name ≡ some (valid f form.state))
                  × (first.validity f.name ≡ (
                      if reacts form.state new f
                      then some (valid f new)
                      else form.validity f.name)))
                (λ f.
                  second.validity f.name
                  ≡ (if mounts form.state new f then some (valid f new) else first.validity f.name))
                (λ f. f.shown new ≡ true → second.validity f.name ≡ some (valid f new)) fields
                (λ f p q.
                  after_reports f form.state new (form.validity f.name) (first.validity f.name)
                    (second.validity f.name) p.0 p.1 q)
                (All-zip
                  (λ f.
                    mounts form.state new f ≡ false
                    → f.shown form.state ≡ true
                    → form.validity f.name ≡ some (valid f form.state))
                  (λ f. first.validity f.name ≡ (
                    if reacts form.state new f then some (valid f new) else form.validity f.name))
                  _ fields (λ f p q. (p, q)) c.entries
                  (reports-entries fields (reacts form.state new) new fields
                    (record form { state = new }) d))
                (reports-entries fields (mounts form.state new) new fields first d));
        total = reports-total fields (mounts form.state new) new fields first (
            reports-total fields (reacts form.state new) new fields (record form { state = new })
              c.total);
      }

  pub IsReady-IsCurrent :
      (fields : List (Field S)) (new : S) (form : Form S)
      → IsCurrent fields form
      → IsReady fields new form
  IsReady-IsCurrent fields new form c = record {
    entries =
        All-zip (λ f. f.shown form.state ≡ true → form.validity f.name ≡ some (valid f form.state))
          (λ f. Unit {0})
          (λ f.
            mounts form.state new f ≡ false
            → f.shown form.state ≡ true
            → form.validity f.name ≡ some (valid f form.state))
          fields (λ f p u stays shown. p shown) c.entries (All-unit fields);
    total = c.total;
  }

  -- A change keeps the entries true to the inputs.
  pub change_to-IsCurrent :
      (fields : List (Field S)) (new : S) (form : Form S)
      → IsDistinct fields
      → IsCurrent fields form
      → IsCurrent fields (change_to fields new form)
  change_to-IsCurrent fields new form d c =
      change_to-IsReady fields new form d (IsReady-IsCurrent fields new form c)

  -- So does opening the form, if some input is in the markup from the start.
  pub open_form-IsCurrent :
      (fields : List (Field S)) (start : Bool) (s : S)
      → IsDistinct fields
      → any (λ f. f.shown s) fields ≡ true
      → IsCurrent fields (open_form fields start s)
  unfolding open_form
  open_form-IsCurrent fields start s d some_shown =
      let empty : Form S = record { state = s; validity = λ name. none; is_valid = start } in
      let opened : Form S = reports fields (λ f. f.shown s) s fields empty in
      record {
        entries =
            subst
              (λ t. All (λ f. f.shown t ≡ true → opened.validity f.name ≡ some (valid f t)) fields)
              (sym (reports-state fields (λ f. f.shown s) s fields empty))
              (All-zip (λ f. Unit {0})
                (λ f. opened.validity f.name ≡ (if f.shown s then some (valid f s) else none))
                (λ f. f.shown s ≡ true → opened.validity f.name ≡ some (valid f s)) fields
                (λ f u e h. e ∙ rw h refl) (All-unit fields)
                (reports-entries fields (λ f. f.shown s) s fields empty d));
        total = reports-some fields (λ f. f.shown s) s fields empty some_shown;
      }

  shown_valid :
      (f : Field S) (s : S) (m : String → Option Bool)
      → (f.shown s ≡ true → m f.name ≡ some (valid f s))
      → or_default (m f.name) true ≡ true
      → f.shown s ≡ true
      → valid f s ≡ true
  shown_valid f s m h e shown = let entry : m f.name ≡ some (valid f s) = h shown in ground arith

  every-All :
      (fields : List (Field S)) (m : String → Option Bool)
      → every fields m ≡ true
      → All (λ f. or_default (m f.name) true ≡ true) fields
  every-All [] m h = tt
  every-All (f ∷ fs) m h = (ground arith, every-All fs m (ground arith))

  -- A form that counts as valid has no input with an error in the markup.
  pub valid-IsCurrent :
      (fields : List (Field S)) (form : Form S)
      → IsCurrent fields form
      → form.is_valid ≡ true
      → All (λ f. f.shown form.state ≡ true → valid f form.state ≡ true) fields
  valid-IsCurrent fields form c h =
      All-zip _ _ _ fields (λ f p q. shown_valid f form.state form.validity p q) c.entries
        (every-All fields form.validity (sym c.total ∙ h))

  every-shown :
      (fields : List (Field S)) (s : S) (m : String → Option Bool)
      → all (λ f. f.shown s) fields ≡ true
      → All (λ f. f.shown s ≡ true → m f.name ≡ some (valid f s)) fields
      → every fields m ≡ all (λ f. valid f s) fields
  every-shown [] s m h e = refl
  every-shown (f ∷ fs) s m h e =
      let entry : m f.name ≡ some (valid f s) = e.0 (ground arith) in
      rw (entry, every-shown fs s m (ground arith) e.1) refl

  -- Where all inputs are in the markup, `isValid` says whether none of them has an error.
  pub is_valid-IsCurrent :
      (fields : List (Field S)) (form : Form S)
      → IsCurrent fields form
      → all (λ f. f.shown form.state) fields ≡ true
      → form.is_valid ≡ all (λ f. valid f form.state) fields
  is_valid-IsCurrent fields form c h =
      c.total ∙ every-shown fields form.state form.validity h c.entries
