-- ===== src/Inputs/Entries.antt =====
-- The entries of inputs that are out of the markup.
use dataops_testgen.Base.{
  ◌≡◌, refl, sym, ◌∙◌, ap, Bool, true, false, all, Option, some, List, [], ◌∷◌, All, String,
  if◌then◌else◌, inl, inr, ◌⊎◌, arith,
}
use dataops_testgen.Inputs.{runs, Field, Form, valid, every, reports, reacts, mounts, change_to}
use dataops_testgen.Inputs.Current.{IsReady, IsReady-IsCurrent, change_to-IsReady, state-change_to}
use dataops_testgen.Inputs.Reports.{IsDistinct, IsCurrent, reports-entries}
use mathlib.Core.Path.{subst}

module _ {S : Type 0} where
  -- The field is one of the form's.
  abbrev pub In : Field S → List (Field S) → Type 0
  In f [] = ⊥
  In f (g ∷ gs) = (f ≡ g) ⊎ In f gs

  pub All-In : (P : Field S → Type 0) (f : Field S) (fs : List (Field S)) → In f fs → All P fs → P f
  All-In P f [] i h = absurd i
  All-In P f (g ∷ gs) (inl e) h = subst P (sym e) h.0
  All-In P f (g ∷ gs) (inr i) h = All-In P f gs i h.1

  -- The entry of an input that neither reports in place nor is built anew stays as it is.
  pub change_to-entry :
      (fields : List (Field S)) (f : Field S) (new : S) (form : Form S)
      → In f fields
      → IsDistinct fields
      → reacts form.state new f ≡ false
      → mounts form.state new f ≡ false
      → (change_to fields new form).validity f.name ≡ form.validity f.name
  unfolding change_to
  change_to-entry fields f new form i d quiet away =
      let first : Form S =
        reports fields (reacts form.state new) new fields (record form { state = new }) in
      All-In
        (λ g.
          (reports fields (mounts form.state new) new fields first).validity g.name
          ≡ (if mounts form.state new g then some (valid g new) else first.validity g.name))
        f fields i (reports-entries fields (mounts form.state new) new fields first d)
      ∙ rw away (
          All-In
            (λ g.
              first.validity g.name
              ≡ (if reacts form.state new g then some (valid g new) else form.validity g.name))
            f fields i
            (reports-entries fields (reacts form.state new) new fields (record form { state = new })
              d)
          ∙ rw quiet refl)

  every-entry :
      (fields : List (Field S)) (f : Field S) (m : String → Option Bool)
      → In f fields
      → m f.name ≡ some false
      → every fields m ≡ false
  every-entry [] f m i h = absurd i
  every-entry (g ∷ gs) f m (inl e) h =
      let entry : m g.name ≡ some false = ap (λ k. m k.name) (sym e) ∙ h in rw entry refl
  every-entry (g ∷ gs) f m (inr i) h =
      let rest : every gs m ≡ false = every-entry gs f m i h in ground arith

  -- An entry that is false keeps the form from counting as valid, also when its input is gone.
  pub is_valid-entry :
      (fields : List (Field S)) (f : Field S) (form : Form S)
      → In f fields
      → IsCurrent fields form
      → form.validity f.name ≡ some false
      → form.is_valid ≡ false
  is_valid-entry fields f form i c h = c.total ∙ every-entry fields f form.validity i h

  -- An input is out of the markup, and its entry says that it has errors.
  abbrev pub IsAbsent : List (Field S) → Field S → Form S → Type 0
  IsAbsent fields f form =
      IsCurrent fields form × (f.shown form.state ≡ false) × (form.validity f.name ≡ some false)

  -- An input that a change takes away, without an error more or less, is absent from then on.
  pub change_to-IsAbsent :
      (fields : List (Field S)) (f : Field S) (new : S) (form : Form S)
      → In f fields
      → IsDistinct fields
      → IsReady fields new form
      → form.validity f.name ≡ some false
      → reacts form.state new f ≡ false
      → f.shown new ≡ false
      → IsAbsent fields f (change_to fields new form)
  change_to-IsAbsent fields f new form i d r entry quiet off = (
    change_to-IsReady fields new form d r,
    ap f.shown (state-change_to fields new form) ∙ off,
    change_to-entry fields f new form i d quiet (rw off refl) ∙ entry,
  )

  -- It stays so while it is not brought back.
  pub IsAbsent-change_to :
      (fields : List (Field S)) (f : Field S) (new : S) (form : Form S)
      → In f fields
      → IsDistinct fields
      → f.shown new ≡ false
      → IsAbsent fields f form
      → IsAbsent fields f (change_to fields new form)
  IsAbsent-change_to fields f new form i d off (c, was, entry) =
      change_to-IsAbsent fields f new form i d (IsReady-IsCurrent fields new form c) entry
        (rw was refl) off

  pub entry-IsCurrent :
      (fields : List (Field S)) (f : Field S) (form : Form S)
      → In f fields
      → IsCurrent fields form
      → f.shown form.state ≡ true
      → valid f form.state ≡ false
      → form.validity f.name ≡ some false
  entry-IsCurrent fields f form i c on missing =
      All-In (λ g. g.shown form.state ≡ true → form.validity g.name ≡ some (valid g form.state)) f
        fields i c.entries on
      ∙ ap some missing

  pub is_valid-IsAbsent :
      (fields : List (Field S)) (f : Field S) (form : Form S)
      → In f fields
      → IsAbsent fields f form
      → form.is_valid ≡ false
  is_valid-IsAbsent fields f form i a = is_valid-entry fields f form i a.0 a.2

-- A predicate on forms that the changes that meet a test keep.
pub runs-keeps_if :
    {E F : Type 0} (P : F → Type 0) (ok : E → Bool) (step : E → F → F)
    → ((e : E) (form : F) → ok e ≡ true → P form → P (step e form))
    → (es : List E) (form : F) → all ok es ≡ true
    → P form
    → P (runs step es form)
unfolding runs
runs-keeps_if P ok step keep [] form h p = p
runs-keeps_if P ok step keep (e ∷ es) form h p =
    runs-keeps_if P ok step keep es (step e form) (ground arith) (keep e form (ground arith) p)
