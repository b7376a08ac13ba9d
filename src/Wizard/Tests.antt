-- ===== src/Wizard/Tests.antt =====
-- Runs of the wizard.
use dataops_testgen.Base.{ℕ, suc, zero, ◌≡◌, refl, Bool, true, false, none, some, List, [], ◌∷◌}
use dataops_testgen.Inputs.{runs}
use dataops_testgen.Wizard.{
  Step, table_group, test_table_group, default_steps, number, index_of, Wizard, Action, next,
  previous, report, act, save, payload, open_wizard,
}
use dataops_testgen.Wizard.Saved.{IsPrefix, AllKeepPassed, save-valid}

abbrev never : (Step → ℕ) → Step → Bool
never states s = false

abbrev opened : Wizard ℕ
opened = open_wizard (λ s. 0)

abbrev filled_in : List (Action ℕ)
filled_in = report table_group 5 true ∷ next ∷ report test_table_group 1 true ∷ []

save_test :
    save default_steps never (runs (act default_steps never) filled_in opened)
    ≡ some (("table_group", 5) ∷ ("table_group_verified", 1) ∷ [])
unfolding runs act save payload number index_of open_wizard
save_test = refl

-- The second step has not reported yet.
early_test :
    save default_steps never
      (runs (act default_steps never) (report table_group 5 true ∷ next ∷ []) opened)
    ≡ none
unfolding runs act save payload number index_of open_wizard
early_test = refl

default-IsPrefix : IsPrefix default_steps
unfolding number
default-IsPrefix zero table_group h = refl
default-IsPrefix zero s h = cc
default-IsPrefix (suc zero) test_table_group h = refl
default-IsPrefix (suc zero) s h = cc
default-IsPrefix (suc (suc i)) s h = cc

filled_keeps : AllKeepPassed default_steps never filled_in opened
unfolding act number open_wizard
filled_keeps = (λ h. refl, (tt, (λ h. refl, tt)))

save-valid_example :
    (runs (act default_steps never) filled_in opened).validity test_table_group ≡ true
unfolding runs act save payload number index_of open_wizard
save-valid_example =
    save-valid default_steps never default-IsPrefix filled_in opened
      (("table_group", 5) ∷ ("table_group_verified", 1) ∷ []) refl filled_keeps refl 1
      test_table_group refl

-- Back to the first step, which is no longer valid.
abbrev gone_back : List (Action ℕ)
gone_back = report table_group 5 true ∷ next ∷ previous ∷ report table_group 0 false ∷ []
