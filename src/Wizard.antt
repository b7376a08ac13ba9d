-- ===== src/Wizard.antt =====
-- Component `TableGroupWizard` (testgen/ui/static/js/components/table_group_wizard.js) and the indicator of
-- its progress (wizard_progress_indicator.js): the steps, the buttons, and the payload. A step reports
-- its value and its validity, and may do so while another step is shown: its inputs are built again
-- whenever the step that is shown changes. These values are a parameter `V`. `skipped` is the
-- property of this name that a place of the indicator is given.
pub mod Places
pub mod Saved
pub mod Finish
mod Tests
use dataops_testgen.Base.{
  ℕ, zero, suc, ◌+◌, ◌-◌, Bool, true, false, not, ◌&&◌, ◌||◌, Option, none, some, List, [], ◌∷◌,
  String, any, length, get_elem?, ltb, leb, ◌==◌, if◌then◌else◌, keep, or_default, map,
}
use mathlib.Core.Option

pub data Step : Type 0 where
  table_group : Step
  test_table_group : Step
  run_profiling : Step
  test_suite : Step
  monitor_suite : Step

-- the position of the content of a step
unfoldable pub number : Step → ℕ
number table_group = 0
number test_table_group = 1
number run_profiling = 2
number test_suite = 3
number monitor_suite = 4

abbrev pub step_eq : Step → Step → Bool
step_eq s t = number s == number t

abbrev pub default_steps : List Step
default_steps = table_group ∷ test_table_group ∷ []

abbrev pub all_steps : List Step
all_steps = table_group ∷ test_table_group ∷ run_profiling ∷ test_suite ∷ monitor_suite ∷ []

abbrev pub event_key : Step → String
event_key table_group = "table_group"
event_key test_table_group = "table_group_verified"
event_key run_profiling = "run_profiling"
event_key test_suite = "standard_test_suite"
event_key monitor_suite = "monitor_test_suite"

-- the place in the indicator, whose first place includes two steps
abbrev pub place_of : Step → ℕ
place_of table_group = 0
place_of test_table_group = 0
place_of run_profiling = 1
place_of test_suite = 2
place_of monitor_suite = 3

-- `includedSteps[0]`
abbrev pub is_first_included : Step → Bool
is_first_included test_table_group = false
is_first_included _ = true

-- `steps.indexOf`, where none is -1
unfoldable pub index_of : List Step → Step → Option ℕ
index_of [] s = none
index_of (t ∷ ts) s =
    let rest = index_of ts s in if step_eq t s then some 0 else Option.map suc rest

pub record Wizard (V : Type 0) : Type 0 where
  -- `currentStepIndex`
  pub index : ℕ
  -- `stepsValidity`
  pub validity : Step → Bool
  -- `stepsState`
  pub states : Step → V

pub data Action (V : Type 0) : Type 0 where
  next : Action V
  previous : Action V
  -- a click on the place of the indicator whose first step is this
  indicate : Step → Action V
  -- a step reports
  report : Step → V → Bool → Action V

module _ {V : Type 0} (steps : List Step) (skipped : (Step → V) → Step → Bool) where
  -- `!currentStepIsInvalid`
  abbrev pub current_valid : Wizard V → Bool
  current_valid w = or_default (Option.map w.validity (get_elem? steps w.index)) false

  -- A place of the indicator can be clicked if it is completed and not skipped, or the current one.
  abbrev pub can_click_at : Step → Wizard V → Option Step → Bool
  can_click_at s w none = false
  can_click_at s w (some current) =
      is_first_included s
      && (if ltb (place_of s + 1) w.index
          then not (skipped w.states s)
          else place_of s == place_of current)

  abbrev pub can_click : Step → Wizard V → Bool
  can_click s w = can_click_at s w (get_elem? steps w.index)

  -- For a step that is not among those asked for, where the indicator would set the index -1, the index
  -- is kept.
  unfoldable pub act : Action V → Wizard V → Wizard V
  unfolding index_of
  act next w =
      if current_valid w && ltb w.index (length steps - 1)
      then record w { index = w.index + 1 }
      else w
  act previous w = if w.index == 0 then w else record w { index = w.index - 1 }
  act (indicate s) w =
      if can_click s w then record w { index = or_default (index_of steps s) w.index } else w
  act (report from v valid) w = record w {
    validity = λ s. if step_eq s from then valid else w.validity s;
    states = λ s. if step_eq s from then v else w.states s;
  }

  -- `saveTableGroup`: the values of the steps that there are
  unfoldable pub payload : (Step → V) → List (String × V)
  payload states =
      map (λ s. (event_key s, states s)) (keep (λ s. any (λ t. step_eq t s) steps) all_steps)

  -- What the button emits on the last step, if it is enabled.
  unfoldable pub save : Wizard V → Option (List (String × V))
  unfolding payload
  save w =
      if current_valid w && not (ltb w.index (length steps - 1))
      then some (payload w.states)
      else none

-- The wizard is built; the server may ask for some of the steps alone.
unfoldable pub open_wizard : {V : Type 0} → (Step → V) → Wizard V
open_wizard states = record {
  index = 0;
  validity = λ s. not (step_eq s table_group || step_eq s test_table_group);
  states = states;
}
