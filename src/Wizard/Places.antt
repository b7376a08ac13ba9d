-- ===== src/Wizard/Places.antt =====
-- The places of the steps among those asked for, and in the indicator.
use dataops_testgen.Base.{
  ℕ, zero, suc, ◌+◌, ◌<◌, ◌≤◌, ◌≡◌, refl, sym, ◌∙◌, ap, true, false, Option, none, some, List, [],
  ◌∷◌, length, get_elem?, ◌==◌, if◌then◌else◌, Bool-cases, Option-cases, inl, inr, arith, ==_iff,
}
use mathlib.Core.Option
use mathlib.Core.Path.{subst}
use dataops_testgen.Wizard.{
  Step, table_group, test_table_group, run_profiling, test_suite, monitor_suite, number, step_eq,
  place_of, is_first_included, index_of,
}

pub get_elem?-lt :
    {A : Type 0} (xs : List A) (i : ℕ) (x : A) → get_elem? xs i ≡ some x → i < length xs
get_elem?-lt [] i x h = cc
get_elem?-lt (y ∷ xs) zero x h = omega arith
get_elem?-lt (y ∷ xs) (suc i) x h = omega (arith, get_elem?-lt xs i x h)

pub first_number :
    (s : Step)
    → is_first_included s ≡ true
    → number s ≡ (if place_of s == 0 then 0 else place_of s + 1)
unfolding number
first_number table_group h = refl
first_number test_table_group h = cc
first_number run_profiling h = refl
first_number test_suite h = refl
first_number monitor_suite h = refl

pub number_bound : (s : Step) → (if place_of s == 0 then 0 else place_of s + 1) ≤ number s
unfolding number
number_bound table_group = omega arith
number_bound test_table_group = omega arith
number_bound run_profiling = omega arith
number_bound test_suite = omega arith
number_bound monitor_suite = omega arith

pub index_of-number :
    (steps : List Step) (s : Step) (j : ℕ)
    → index_of steps s ≡ some j
    → (t : Step) × ((get_elem? steps j ≡ some t) × (number t ≡ number s))
unfolding index_of
index_of-number [] s j h = cc
index_of-number (t ∷ ts) s j h = elim (Bool-cases (step_eq t s)) [
  | inl on ↦
      let found : some 0 ≡ some j =
        sym (ap (λ b. if b then some 0 else Option.map suc (index_of ts s)) on) ∙ h in
      let zero_j : 0 ≡ j = cc in
      subst (λ k. (x : Step) × ((get_elem? (t ∷ ts) k ≡ some x) × (number x ≡ number s))) zero_j
        (t, (refl, (==_iff (number t) (number s)).0 on))
  | inr off ↦
      let later : Option.map suc (index_of ts s) ≡ some j =
        sym (ap (λ b. if b then some 0 else Option.map suc (index_of ts s)) off) ∙ h in
      elim (Option-cases (index_of ts s)) [
        | inl none_there ↦
            let bad : none ≡ some j = sym (ap (Option.map suc) none_there) ∙ later in cc
        | inr (k, there) ↦
            let found : some (suc k) ≡ some j = sym (ap (Option.map suc) there) ∙ later in
            let next_j : suc k ≡ j = cc in
            let rest : _ = index_of-number ts s k there in
            subst (λ k'. (x : Step) × ((get_elem? (t ∷ ts) k' ≡ some x) × (number x ≡ number s)))
              next_j rest
      ]
]

pub get_elem?-some :
    {A : Type 0} (xs : List A) (i : ℕ) → i < length xs → (x : A) × (get_elem? xs i ≡ some x)
get_elem?-some [] i h = absurd (omega (arith, h))
get_elem?-some (x ∷ xs) zero h = (x, refl)
get_elem?-some (x ∷ xs) (suc i) h = get_elem?-some xs i (omega (arith, h))

pub absent :
    (steps : List Step) (s : Step) (i : ℕ) (t : Step)
    → index_of steps s ≡ none
    → get_elem? steps i ≡ some t
    → step_eq t s ≡ false
unfolding index_of
absent [] s i t h e = cc
absent (u ∷ us) s i t h e = elim (Bool-cases (step_eq u s)) [
  | inl on ↦
      let bad : ◌≡◌ {A = Option ℕ} (some 0) none =
        sym (ap (λ b. if b then some 0 else Option.map suc (index_of us s)) on) ∙ h in
      absurd cc
  | inr off ↦
      let later : Option.map suc (index_of us s) ≡ none =
        sym (ap (λ b. if b then some 0 else Option.map suc (index_of us s)) off) ∙ h in
      absent_tail u us s i t off
        (elim (Option-cases (index_of us s)) [
          | inl gone ↦ gone
          | inr (k, there) ↦
              let bad : ◌≡◌ {A = Option ℕ} (some (suc k)) none =
                sym (ap (Option.map suc) there) ∙ later in
              absurd cc
        ])
        e (absent us s)
]
  where
    absent_tail :
        (u : Step) (us : List Step) (s : Step) (i : ℕ) (t : Step)
        → step_eq u s ≡ false
        → index_of us s ≡ none
        → get_elem? (u ∷ us) i ≡ some t
        → ((j : ℕ) (x : Step)
            → index_of us s ≡ none
            → get_elem? us j ≡ some x
            → step_eq x s ≡ false)
        → step_eq t s ≡ false
    absent_tail u us s zero t off gone e ih =
        let same : u ≡ t = cc in subst (λ x. step_eq x s ≡ false) same off
    absent_tail u us s (suc i) t off gone e ih = ih i t gone e
