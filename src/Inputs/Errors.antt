-- ===== src/Inputs/Errors.antt =====
-- The number of errors of an input.
use dataops_testgen.Base.{
  ◌≡◌, refl, Bool, ◌&&◌, Option, none, some, List, [], ◌∷◌, all, length, ◌==◌, arith,
}
use dataops_testgen.Inputs.{errors_of}
use dataops_testgen.Base.Text.{Text}
use dataops_testgen.Validators.{Validator}
use dataops_testgen.Validators.Passes.{
  is_none, is_none-required, is_none-required_if, is_none-min_length, is_none-max_length,
}

errors_step :
    (o : Option Text) (es : List Text) (b : Bool)
    → (length es == 0) ≡ b
    → (length (elim o [ none ↦ es | some e ↦ e ∷ es ]) == 0) ≡ (is_none o && b)
errors_step none es b h = h
errors_step (some e) es b h = ground arith

-- An input is valid when its value passes every validator.
pub length-errors_of :
    (vs : List Validator) (t : Text) → (length (errors_of vs t) == 0) ≡ all (λ v. is_none (v t)) vs
unfolding errors_of
length-errors_of [] t = refl
length-errors_of (v ∷ vs) t =
    errors_step (v t) (errors_of vs t) (all (λ w. is_none (w t)) vs) (length-errors_of vs t)

pub ruleset input_laws = (
  length-errors_of, is_none-required, is_none-required_if, is_none-min_length, is_none-max_length,
)
