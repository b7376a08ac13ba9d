-- ===== src/Connection/Databricks/Valid.antt =====
-- What the form of Databricks counts as valid.
use dataops_testgen.Base.{
  ◌≡◌, refl, ap, Bool, true, false, List, All, if◌then◌else◌, bool_ne, Bool-cases, inl, inr, arith,
}
use dataops_testgen.Inputs.{Form, valid, every, change_to, runs}
use dataops_testgen.Inputs.Reports.{IsDistinct, IsCurrent, runs-keeps}
use dataops_testgen.Inputs.Current.{
  IsReady, change_to-IsReady, change_to-IsCurrent, open_form-IsCurrent, valid-IsCurrent,
}
use dataops_testgen.Connection.Databricks.{
  DatabricksState, DatabricksEvent, pick_oauth, databricks_fields, databricks_after,
  databricks_event, databricks_open, forget,
}

pub databricks_fields-IsDistinct : IsDistinct databricks_fields
unfolding databricks_fields
databricks_fields-IsDistinct = (refl, (refl, (refl, (refl, (refl, (refl, (refl, tt)))))))

-- The form in which the choice of an authentication method is made.
abbrev pub forgotten : Bool → Form DatabricksState → Form DatabricksState
forgotten v form = record form {
  validity = forget v form.validity;
  is_valid = every databricks_fields (forget v form.validity);
}

pub forget-IsReady :
    (v : Bool) (form : Form DatabricksState)
    → bool_ne form.state.use_oauth v ≡ true
    → IsCurrent databricks_fields form
    → IsReady databricks_fields (databricks_after (pick_oauth v) form.state) (record form {
      validity = forget v form.validity;
      is_valid = every databricks_fields (forget v form.validity);
    })
unfolding databricks_fields databricks_after
forget-IsReady true form h c =
    let e : _ = c.entries in
    record {
      entries = (
        λ m. e.0,
        (
          λ m. e.1.0,
          (
            λ m. e.1.1.0,
            (
              λ m. e.1.1.1.0,
              (
                λ m. e.1.1.1.1.0,
                (λ m shown. absurd (ground arith), (λ m shown. absurd (ground arith), tt)),
              ),
            ),
          ),
        ),
      );
      total = refl;
    }
forget-IsReady false form h c =
    let e : _ = c.entries in
    record {
      entries = (
        λ m. e.0,
        (
          λ m. e.1.0,
          (
            λ m. e.1.1.0,
            (
              λ m. e.1.1.1.0,
              (λ m. e.1.1.1.1.0, (λ m. e.1.1.1.1.1.0, (λ m shown. absurd (ground arith), tt))),
            ),
          ),
        ),
      );
      total = refl;
    }

pub pick_oauth-same :
    (v : Bool) (form : Form DatabricksState)
    → bool_ne form.state.use_oauth v ≡ false
    → databricks_event (pick_oauth v) form ≡ form
unfolding databricks_event
pick_oauth-same v form h =
    ap
      (λ b.
        if b
        then change_to databricks_fields (databricks_after (pick_oauth v) form.state)
            (forgotten v form)
        else form)
      h

pub pick_oauth-other :
    (v : Bool) (form : Form DatabricksState)
    → bool_ne form.state.use_oauth v ≡ true
    → databricks_event (pick_oauth v) form
      ≡ change_to databricks_fields (databricks_after (pick_oauth v) form.state) (forgotten v form)
unfolding databricks_event
pick_oauth-other v form h =
    ap
      (λ b.
        if b
        then change_to databricks_fields (databricks_after (pick_oauth v) form.state)
            (forgotten v form)
        else form)
      h

pub databricks_event-IsCurrent :
    (e : DatabricksEvent) (form : Form DatabricksState)
    → IsCurrent databricks_fields form
    → IsCurrent databricks_fields (databricks_event e form)
unfolding databricks_event
databricks_event-IsCurrent (pick_oauth v) form c =
    elim (Bool-cases (bool_ne form.state.use_oauth v)) [
      | inl other ↦ rw other (
          change_to-IsReady databricks_fields (databricks_after (pick_oauth v) form.state) _
            databricks_fields-IsDistinct (forget-IsReady v form other c))
      | inr same ↦ rw same c
    ]
databricks_event-IsCurrent e form c =
    change_to-IsCurrent databricks_fields _ form databricks_fields-IsDistinct c

pub databricks_open-IsCurrent :
    (s : DatabricksState) → IsCurrent databricks_fields (databricks_open s)
unfolding databricks_open databricks_fields
databricks_open-IsCurrent s =
    open_form-IsCurrent databricks_fields true s databricks_fields-IsDistinct refl

-- After any changes, a form of Databricks that counts as valid shows no input with an error.
pub shown_valid-databricks_event :
    (es : List DatabricksEvent) (s : DatabricksState)
    → let form = runs databricks_event es (databricks_open s) in
      form.is_valid ≡ true
      → All (λ f. f.shown form.state ≡ true → valid f form.state ≡ true) databricks_fields
shown_valid-databricks_event es s h =
    valid-IsCurrent databricks_fields _
      (runs-keeps (IsCurrent databricks_fields) databricks_event databricks_event-IsCurrent es
        (databricks_open s) (databricks_open-IsCurrent s))
      h
