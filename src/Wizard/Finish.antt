-- ===== src/Wizard/Finish.antt =====
-- The wizard can always be finished.
use dataops_testgen.Base.{
  ℕ, zero, suc, ◌<◌, ◌≡◌, Bool, true, some, List, [], ◌∷◌, length, if◌then◌else◌, any,
}
use dataops_testgen.Wizard.{
  Step, table_group, test_table_group, run_profiling, test_suite, monitor_suite, step_eq, Wizard,
  Action, next, report, act, save, payload,
}

abbrev pub drop : {A : Type 0} → ℕ → List A → List A
drop zero xs = xs
drop (suc n) [] = []
drop (suc n) (x ∷ xs) = drop n xs

step_at : ℕ → Step
step_at zero = table_group
step_at (suc zero) = test_table_group
step_at (suc (suc zero)) = run_profiling
step_at (suc (suc (suc zero))) = test_suite
step_at (suc (suc (suc (suc n)))) = monitor_suite

-- One of the steps.
abbrev pub is_among : List Step → Step → Bool
is_among ss s = any (λ t. step_eq t s) ss

-- The values of some steps are new.
abbrev pub filled : {V : Type 0} → (Step → V) → List Step → (Step → V) → Step → V
filled vs ss states s = if is_among ss s then vs s else states s

module _ {V : Type 0} (steps : List Step) (skipped : (Step → V) → Step → Bool) where
  -- One of the steps is shown.
  abbrev pub IsShown : Wizard V → Type 0
  IsShown w = w.index < length steps

  -- Each of the steps reports its value and that it is valid, with the button to the next step in
  -- between.
  pub drive : (Step → V) → List Step → List (Action V)
  drive vs [] = []
  drive vs (s ∷ []) = report s (vs s) true ∷ []
  drive vs (s ∷ t ∷ rest) = report s (vs s) true ∷ next ∷ drive vs (t ∷ rest)

  reported : (Step → V) → Step → Wizard V → Wizard V
  reported vs s w = act steps skipped (report s (vs s) true) w

  -- What is saved after the steps have reported.
  abbrev IsSaved : (Step → V) → List Step → Wizard V → Wizard V → Type 0
  IsSaved vs ss w end =
      save steps skipped end ≡ some (payload steps skipped (filled vs ss w.states))
