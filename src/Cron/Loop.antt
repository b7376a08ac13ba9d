-- ===== src/Cron/Loop.antt =====
-- The loop of `generateSteppedValues` without fuel.
use dataops_testgen.Base.{
  ℕ, zero, suc, ◌+◌, ◌≤◌, ◌<◌, ◌≡◌, refl, sym, ap, ◌↔◌, List, [], ◌∷◌, leb, Bool-cases, inl, inr,
  arith,
}
use mathlib.Core.Path.{subst}
use dataops_testgen.Cron.{stepped_from, stepped_values}

-- `for (let i = start; i <= max; i += step) values.push(i)`: a run that ends, and what it pushes.
pub data Ends (step max : ℕ) : ℕ → List ℕ → Type 0 where
  over : {i : ℕ} → max < i → Ends step max i []
  round : {i : ℕ} {vs : List ℕ} → i ≤ max → Ends step max (i + step) vs → Ends step max i (i ∷ vs)

stepped_from-Ends :
    (fuel i step max : ℕ)
    → 0 < step
    → max < fuel + i
    → Ends step max i (stepped_from fuel i step max)
unfolding stepped_from
stepped_from-Ends zero i step max pos enough = over (omega (arith, enough))
stepped_from-Ends (suc fuel) i step max pos enough = elim (Bool-cases (leb i max)) [
  | inl e ↦ rw e (
      round (ground arith)
        (stepped_from-Ends fuel (i + step) step max pos (omega (arith, enough, pos))))
  | inr e ↦ rw e (over (ground arith))
]

Ends-unique : (step max i : ℕ) (vs ws : List ℕ) → Ends step max i vs → Ends step max i ws → vs ≡ ws
Ends-unique step max i [] [] (over p) (over q) = refl
Ends-unique step max i [] (w ∷ ws) (over p) (round q r) = absurd (omega (arith, p, q))
Ends-unique step max i (v ∷ vs) [] (round p r) (over q) = absurd (omega (arith, p, q))
Ends-unique step max i (v ∷ vs) (w ∷ ws) (round p r) (round q t) =
    ap (λ xs. i ∷ xs) (Ends-unique step max (i + step) vs ws r t)

-- With a step of at least one the loop ends, whatever its start and its bound, and has then pushed
-- the values of `stepped_values`, and no others.
pub Ends-stepped_values :
    (start step max : ℕ) (vs : List ℕ)
    → 0 < step
    → Ends step max start vs ↔ (vs ≡ stepped_values start step max)
unfolding stepped_values
Ends-stepped_values start step max vs pos =
    let ends : Ends step max start (stepped_from (suc max) start step max) =
      stepped_from-Ends (suc max) start step max pos (omega arith) in
    (
      λ e. Ends-unique step max start vs (stepped_from (suc max) start step max) e ends,
      λ e. subst (Ends step max start) (sym e) ends,
    )
