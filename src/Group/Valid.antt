-- ===== src/Group/Valid.antt =====
-- When the form of a table group counts as valid.
use dataops_testgen.Base.{
  ◌≡◌, refl, ◌∙◌, Bool, true, false, not, ◌&&◌, ◌||◌, List, [], ◌∷◌, ◌==◌, any, all, length,
  if◌then◌else◌, arith,
}
use dataops_testgen.Validators.Passes.{filled}
use dataops_testgen.Validators.{required_error}
use dataops_testgen.Inputs.{runs, Form, valid}
use dataops_testgen.Inputs.Reports.{IsDistinct, IsCurrent, runs-keeps}
use dataops_testgen.Inputs.Current.{change_to-IsCurrent, open_form-IsCurrent, is_valid-IsCurrent}
use dataops_testgen.Inputs.Errors.{input_laws}
use dataops_testgen.Group.{
  GroupState, GroupEvent, base_fields, group_fields, has_connection, group_after, group_event,
  group_open,
}

base_fields-IsDistinct : IsDistinct base_fields
unfolding base_fields
base_fields-IsDistinct = (
  refl,
  (
    refl,
    (
      refl,
      (
        refl,
        (
          refl,
          (
            refl,
            (
              refl,
              (
                refl,
                (refl, (refl, (refl, (refl, (refl, (refl, (refl, (refl, (refl, (refl, tt)))))))))),
              ),
            ),
          ),
        ),
      ),
    ),
  ),
)

group_fields-IsDistinct : (selector : Bool) → IsDistinct (group_fields selector)
unfolding group_fields base_fields
group_fields-IsDistinct true = (refl, base_fields-IsDistinct)
group_fields-IsDistinct false = base_fields-IsDistinct

some_shown :
    (selector : Bool) (s : GroupState) → any (λ f. f.shown s) (group_fields selector) ≡ true
unfolding group_fields base_fields
some_shown true s = refl
some_shown false s = refl

all_shown : (selector : Bool) (s : GroupState) → all (λ f. f.shown s) (group_fields selector) ≡ true
unfolding group_fields base_fields
all_shown true s = refl
all_shown false s = refl

group_event-IsCurrent :
    (selector : Bool) (e : GroupEvent) (form : Form GroupState)
    → IsCurrent (group_fields selector) form
    → IsCurrent (group_fields selector) (group_event selector e form)
unfolding group_event
group_event-IsCurrent selector e form h =
    change_to-IsCurrent (group_fields selector) (group_after e form.state) form
      (group_fields-IsDistinct selector) h

group_open-IsCurrent :
    (selector : Bool) (s : GroupState) → IsCurrent (group_fields selector) (group_open selector s)
unfolding group_open
group_open-IsCurrent selector s =
    open_form-IsCurrent (group_fields selector) false s (group_fields-IsDistinct selector)
      (some_shown selector s)

abbrev pub group_ok : Bool → GroupState → Bool
group_ok selector s =
    (not selector || has_connection s) && filled s.table_groups_name && filled s.table_group_schema

chosen_ok :
    (b name schema : Bool)
    → (length (if b then [] else required_error ∷ []) == 0
        && (name && true && (schema && true && true)))
      ≡ (b && name && schema)
chosen_ok true name schema = ground arith
chosen_ok false name schema = refl

fields_ok :
    (selector : Bool) (s : GroupState)
    → all (λ f. valid f s) (group_fields selector) ≡ group_ok selector s
unfolding group_fields base_fields
fields_ok true s =
    simp input_laws
      (chosen_ok (has_connection s) (filled s.table_groups_name) (filled s.table_group_schema))
fields_ok false s = simp input_laws (ground arith)

-- The form of a table group counts as valid, after any changes, exactly when it has a name and a
-- schema, and a connection where this is asked for.
pub is_valid-group_event :
    (selector : Bool) (es : List GroupEvent) (s : GroupState)
    → (runs (group_event selector) es (group_open selector s)).is_valid
      ≡ group_ok selector (runs (group_event selector) es (group_open selector s)).state
is_valid-group_event selector es s =
    let form : Form GroupState = runs (group_event selector) es (group_open selector s) in
    let h : IsCurrent (group_fields selector) form =
      runs-keeps (IsCurrent (group_fields selector)) (group_event selector)
        (group_event-IsCurrent selector) es (group_open selector s)
        (group_open-IsCurrent selector s) in
    is_valid-IsCurrent (group_fields selector) form h (all_shown selector form.state)
    ∙ fields_ok selector form.state
