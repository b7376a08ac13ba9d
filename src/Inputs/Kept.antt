-- ===== src/Inputs/Kept.antt =====
-- The entries of inputs that keep their number of errors while they are out of the markup.
use dataops_testgen.Base.{
  ◌≡◌, refl, ◌∙◌, Bool, true, false, Option, none, some, String, List, [], ◌∷◌, All, all,
  if◌then◌else◌, Bool-cases, inl, inr, arith, sym,
}
use dataops_testgen.Inputs.{
  Field, Form, valid, every, reports, reacts, mounts, change_to, open_form,
}
use dataops_testgen.Inputs.Reports.{
  All-zip, IsDistinct, reports-entries, reports-total, reports-state, reports-some,
}
use dataops_testgen.Inputs.Current.{state-change_to}
use mathlib.Core.Path.{subst}

module _ {S : Type 0} where
  -- Every input has an entry that says whether it has no errors, also out of the markup.
  pub record IsFull (fields : List (Field S)) (form : Form S) : Type 0 where
    pub entries : All (λ f. form.validity f.name ≡ some (valid f form.state)) fields
    pub total : form.is_valid ≡ every fields form.validity

  kept_reports :
      (f : Field S) (old new : S) (m m' m'' : Option Bool)
      → m ≡ some (valid f old)
      → (f.shown old ≡ false → f.shown new ≡ false → valid f new ≡ valid f old)
      → m' ≡ (if reacts old new f then some (valid f new) else m)
      → m'' ≡ (if mounts old new f then some (valid f new) else m')
      → m'' ≡ some (valid f new)
  kept_reports f old new m m' m'' h hidden e e' = elim (Bool-cases (f.shown old)) [
    | inl was ↦ ground arith
    | inr away ↦ elim (Bool-cases (f.shown new)) [
      | inl on ↦ ground arith
      | inr off ↦ let same : valid f new ≡ valid f old = hidden away off in ground arith
    ]
  ]

  -- Out of the markup before and after a change, the input has as many errors.
  abbrev pub IsLeft : S → S → Field S → Type 0
  IsLeft old new f = f.shown old ≡ false → f.shown new ≡ false → valid f new ≡ valid f old

  pub change_to-IsFull :
      (fields : List (Field S)) (new : S) (form : Form S)
      → IsDistinct fields
      → All (IsLeft form.state new) fields
      → IsFull fields form
      → IsFull fields (change_to fields new form)
  unfolding change_to
  change_to-IsFull fields new form d left c =
      let first : Form S =
        reports fields (reacts form.state new) new fields (record form { state = new }) in
      let second : Form S = reports fields (mounts form.state new) new fields first in
      let at_new : second.state ≡ new = state-change_to fields new form in
      let Before : Field S → Type 0 = λ f. form.validity f.name ≡ some (valid f form.state) in
      let Reacted : Field S → Type 0 = λ f.
        first.validity f.name
        ≡ (if reacts form.state new f then some (valid f new) else form.validity f.name) in
      record {
        entries =
            subst (λ t. All (λ f. second.validity f.name ≡ some (valid f t)) fields) (sym at_new)
              (All-zip (λ f. IsLeft form.state new f × Before f × Reacted f)
                (λ f.
                  second.validity f.name
                  ≡ (if mounts form.state new f then some (valid f new) else first.validity f.name))
                (λ f. second.validity f.name ≡ some (valid f new)) fields
                (λ f p q.
                  kept_reports f form.state new (form.validity f.name) (first.validity f.name)
                    (second.validity f.name) p.1 p.0 p.2 q)
                (All-zip (IsLeft form.state new) (λ f. Before f × Reacted f)
                  (λ f. IsLeft form.state new f × Before f × Reacted f) fields
                  (λ f p q. (p, q.0, q.1)) left
                  (All-zip Before Reacted (λ f. Before f × Reacted f) fields (λ f p q. (p, q))
                    c.entries
                    (reports-entries fields (reacts form.state new) new fields
                      (record form { state = new }) d)))
                (reports-entries fields (mounts form.state new) new fields first d));
        total = reports-total fields (mounts form.state new) new fields first (
            reports-total fields (reacts form.state new) new fields (record form { state = new })
              c.total);
      }

  opened_entries :
      (fields : List (Field S)) (s : S) (m : Field S → Option Bool)
      → all (λ f. f.shown s) fields ≡ true
      → All (λ f. m f ≡ (if f.shown s then some (valid f s) else none)) fields
      → All (λ f. m f ≡ some (valid f s)) fields
  opened_entries [] s m h e = tt
  opened_entries (f ∷ fs) s m h e =
      let on : f.shown s ≡ true = ground arith in
      (e.0 ∙ rw on refl, opened_entries fs s m (ground arith) e.1)

  -- A form whose inputs are all in the markup when it is opened starts so.
  pub open_form-IsFull :
      (f : Field S) (fs : List (Field S)) (start : Bool) (s : S)
      → IsDistinct (f ∷ fs)
      → all (λ g. g.shown s) (f ∷ fs) ≡ true
      → IsFull (f ∷ fs) (open_form (f ∷ fs) start s)
  unfolding open_form
  open_form-IsFull f fs start s d on =
      let fields : List (Field S) = f ∷ fs in
      let empty : Form S = record { state = s; validity = λ name. none; is_valid = start } in
      let opened : Form S = reports fields (λ g. g.shown s) s fields empty in
      record {
        entries =
            subst (λ t. All (λ g. opened.validity g.name ≡ some (valid g t)) fields)
              (sym (reports-state fields (λ g. g.shown s) s fields empty))
              (opened_entries fields s (λ g. opened.validity g.name) on
                (reports-entries fields (λ g. g.shown s) s fields empty d));
        total = reports-some fields (λ g. g.shown s) s fields empty (ground arith);
      }

  every-full :
      (fields : List (Field S)) (s : S) (m : String → Option Bool)
      → All (λ f. m f.name ≡ some (valid f s)) fields
      → every fields m ≡ all (λ f. valid f s) fields
  every-full [] s m e = refl
  every-full (f ∷ fs) s m e =
      let entry : m f.name ≡ some (valid f s) = e.0 in rw (entry, every-full fs s m e.1) refl

  pub is_valid-IsFull :
      (fields : List (Field S)) (form : Form S)
      → IsFull fields form
      → form.is_valid ≡ all (λ f. valid f form.state) fields
  is_valid-IsFull fields form c = c.total ∙ every-full fields form.state form.validity c.entries
