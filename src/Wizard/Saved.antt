-- ===== src/Wizard/Saved.antt =====
-- What is valid when the wizard saves.
use dataops_testgen.Base.{
  ℕ, ◌+◌, ◌-◌, ◌<◌, ◌≤◌, ◌≡◌, ◌≢◌, refl, sym, ◌∙◌, ap, Bool, true, false, not, ◌&&◌, none, some,
  List, [], ◌∷◌, String, length, get_elem?, ltb, ◌==◌, if◌then◌else◌, or_default, Bool-cases,
  Option-cases, inl, inr, arith, keep_if, ==_iff, ◌⊎◌,
}
use mathlib.Core.Option
use mathlib.Core.Path.{subst}
use dataops_testgen.Inputs.{runs}
use dataops_testgen.Wizard.{
  Step, number, step_eq, place_of, is_first_included, index_of, Wizard, Action, next, previous,
  indicate, report, current_valid, can_click, can_click_at, act, save, payload,
}
use dataops_testgen.Wizard.Places.{
  get_elem?-lt, first_number, number_bound, index_of-number, get_elem?-some, absent,
}

-- The steps are those of the contents, from the first on.
abbrev pub IsPrefix : List Step → Type 0
IsPrefix steps = (i : ℕ) (s : Step) → get_elem? steps i ≡ some s → number s ≡ i

lt_or_eq : (i n : ℕ) → i < n + 1 → (i < n) ⊎ (i ≡ n)
lt_or_eq i n h = ground arith

-- A report of a step before the one that is shown finds it valid.
abbrev pub KeepsPassed : {V : Type 0} → Wizard V → Action V → Type 0
KeepsPassed w (report s v valid) = number s < w.index → valid ≡ true
KeepsPassed w _ = Unit

abbrev pub AllKeepPassed :
    {V : Type 0} → List Step → ((Step → V) → Step → Bool) → List (Action V) → Wizard V → Type 0
AllKeepPassed steps skipped [] w = Unit
AllKeepPassed steps skipped (a ∷ acts) w =
    KeepsPassed w a × AllKeepPassed steps skipped acts (act steps skipped a w)

module _ {V : Type 0} (steps : List Step) (skipped : (Step → V) → Step → Bool)
    (prefix : IsPrefix steps) where
  -- The steps before the one that is shown are valid.
  abbrev IsPassed : Wizard V → Type 0
  IsPassed w = (i : ℕ) (s : Step) → i < w.index → get_elem? steps i ≡ some s → w.validity s ≡ true

  current-valid :
      (w : Wizard V) (i : ℕ) (s : Step)
      → current_valid steps skipped w ≡ true
      → i ≡ w.index
      → get_elem? steps i ≡ some s
      → w.validity s ≡ true
  current-valid w i s h same e =
      subst (λ o. or_default (Option.map w.validity o) false ≡ true)
        (ap (get_elem? steps) (sym same) ∙ e) h

  clicked_bound :
      (s current : Step) (w : Wizard V)
      → number current ≡ w.index
      → (is_first_included s
          && (if ltb (place_of s + 1) w.index
              then not (skipped w.states s)
              else place_of s == place_of current))
        ≡ true
      → number s ≤ w.index
  clicked_bound s current w at h =
      let first : _ = first_number s (ground arith) in
      let bound : _ = number_bound current in ground arith

  target_bound :
      (s : Step) (j : ℕ) (w : Wizard V)
      → can_click steps skipped s w ≡ true
      → index_of steps s ≡ some j
      → j ≤ w.index
  target_bound s j w h found =
      let target : _ = index_of-number steps s j found in
      let at_j : number s ≡ j = sym target.1.1 ∙ prefix j target.0 target.1.0 in
      elim (Option-cases (get_elem? steps w.index)) [
        | inl out ↦
            let never : false ≡ true = subst (λ o. can_click_at steps skipped s w o ≡ true) out h in
            cc
        | inr (current, here) ↦
            let bound : number s ≤ w.index =
              clicked_bound s current w (prefix w.index current here)
                (subst (λ o. can_click_at steps skipped s w o ≡ true) here h) in
            omega (arith, bound, at_j)
      ]

  -- A place of the indicator that can be clicked is that of a step that is asked for, so that `indexOf`
  -- does not give -1.
  index_of-can_click :
      (s : Step) (w : Wizard V) → can_click steps skipped s w ≡ true → index_of steps s ≢ none
  index_of-can_click s w h gone = elim (Option-cases (get_elem? steps w.index)) [
    | inl out ↦
        let never : false ≡ true = subst (λ o. can_click_at steps skipped s w o ≡ true) out h in
        absurd cc
    | inr (current, here) ↦
        let bound : number s ≤ w.index =
          clicked_bound s current w (prefix w.index current here)
            (subst (λ o. can_click_at steps skipped s w o ≡ true) here h) in
        let inside : w.index < length steps = get_elem?-lt steps w.index current here in
        let (t, there) = get_elem?-some steps (number s) (omega (arith, bound, inside)) in
        let other : step_eq t s ≡ false = absent steps s (number s) t gone there in
        let same : step_eq t s ≡ true =
          (==_iff (number t) (number s)).1 (prefix (number s) t there) in
        absurd cc
  ]

  act-IsPassed :
      (a : Action V) (w : Wizard V)
      → KeepsPassed w a
      → IsPassed w
      → IsPassed (act steps skipped a w)
  unfolding act
  act-IsPassed next w k h =
      elim (Bool-cases (current_valid steps skipped w && ltb w.index (length steps - 1))) [
        | inl on ↦ rw on (λ i s lt e. elim (lt_or_eq i w.index lt) [
          | inl before ↦ h i s before e
          | inr same ↦ current-valid w i s (ground arith) same e
        ])
        | inr off ↦ rw off h
      ]
  act-IsPassed previous w k h =
      keep_if IsPassed (w.index == 0) h (λ i s lt e. h i s (omega (arith, lt)) e)
  act-IsPassed (indicate s) w k h = elim (Bool-cases (can_click steps skipped s w)) [
    | inl on ↦ elim (Option-cases (index_of steps s)) [
      | inl missing ↦ rw (on, missing) h
      | inr (j, found) ↦
          let bound : j ≤ w.index = target_bound s j w on found in
          rw (on, found) (λ i t lt e. h i t (omega (arith, lt, bound)) e)
    ]
    | inr off ↦ rw off h
  ]
  act-IsPassed (report from v valid) w k h = λ i s lt e.
      let at_i : number s ≡ i = prefix i s e in
      let valid_before : w.validity s ≡ true = h i s lt e in
      elim (Bool-cases (step_eq s from)) [
        | inl same ↦ let again : valid ≡ true = k (ground arith) in rw (same, again) refl
        | inr other ↦ rw other valid_before
      ]

  runs-IsPassed :
      (acts : List (Action V)) (w : Wizard V)
      → AllKeepPassed steps skipped acts w
      → IsPassed w
      → IsPassed (runs (act steps skipped) acts w)
  unfolding runs
  runs-IsPassed [] w k h = h
  runs-IsPassed (a ∷ acts) w k h =
      runs-IsPassed acts (act steps skipped a w) k.1 (act-IsPassed a w k.0 h)

  -- The wizard, opened on its first step, saves only when each of its steps is valid, whatever the user
  -- has done before, if its steps are those of the contents from the first on, and a step before
  -- the one that is shown, when it reports once more, is valid still.
  pub save-valid :
      (acts : List (Action V)) (w : Wizard V) (p : List (String × V))
      → w.index ≡ 0
      → AllKeepPassed steps skipped acts w
      → save steps skipped (runs (act steps skipped) acts w) ≡ some p
      → (i : ℕ) (s : Step) → get_elem? steps i ≡ some s
      → (runs (act steps skipped) acts w).validity s ≡ true
  unfolding save
  save-valid acts w p start k h i s e =
      let last : Wizard V = runs (act steps skipped) acts w in
      let passed : IsPassed last =
        runs-IsPassed acts w k (λ j t lt g. absurd (omega (arith, lt, start))) in
      let inside : i < length steps = get_elem?-lt steps i s e in
      elim (Bool-cases
        (current_valid steps skipped last && not (ltb last.index (length steps - 1)))) [
          | inl on ↦ elim (lt_or_eq i last.index (ground arith)) [
            | inl before ↦ passed i s before e
            | inr same ↦ current-valid last i s (ground arith) same e
          ]
          | inr off ↦
              let nothing : none ≡ some p =
                sym (ap (λ b. if b then some (payload steps skipped last.states) else none) off)
                ∙ h in
              cc
        ]
