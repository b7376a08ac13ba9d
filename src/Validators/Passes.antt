-- ===== src/Validators/Passes.antt =====
-- The texts that each validator lets pass.
use dataops_testgen.Base.{
  ℕ, ◌≡◌, refl, ◌∙◌, Bool, true, false, not, ◌&&◌, ◌||◌, Option, none, some, any, length, ltb, leb,
  ◌==◌, if◌then◌else◌, arith, Bool-cases, inl, inr,
}
use dataops_testgen.Base.Text.{Text, is_empty}
use dataops_testgen.Validators.{
  Floats, decimal_part, number_between, required, required_if, no_spaces, min_length, max_length,
}

-- The result is null.
abbrev pub is_none : Option Text → Bool
is_none none = true
is_none (some e) = false

abbrev pub within : ℕ → Text → Bool
within max t = leb (length t) max

abbrev pub filled : Text → Bool
filled t = not (is_empty t)

is_none-if : (b : Bool) (e : Text) → is_none (if b then some e else none) ≡ not b
is_none-if true e = refl
is_none-if false e = refl

pub is_none-required : (t : Text) → is_none (required t) ≡ filled t
unfolding required
is_none-required t = is_none-if (is_empty t) _

pub is_none-required_if : (b : Bool) (t : Text) → is_none (required_if b t) ≡ (not b || filled t)
unfolding required_if
is_none-required_if true t = is_none-if (is_empty t) _
is_none-required_if false t = refl

pub is_none-no_spaces : (t : Text) → is_none (no_spaces t) ≡ not (any (λ c. c == 32) t)
unfolding no_spaces
is_none-no_spaces t = is_none-if (any (λ c. c == 32) t) _

pub is_none-min_length :
    (n : ℕ) (t : Text) → is_none (min_length n t) ≡ (is_empty t || leb n (length t))
unfolding min_length
is_none-min_length n t = is_none-if (not (is_empty t) && ltb (length t) n) _ ∙ ground arith

pub is_none-max_length : (n : ℕ) (t : Text) → is_none (max_length n t) ≡ within n t
unfolding max_length
is_none-max_length n t = is_none-if (ltb n (length t)) _ ∙ ground arith

-- A number between two others, without more digits after the point than given.
abbrev pub in_range : Floats → ℕ → ℕ → ℕ → Text → Bool
in_range floats min max precision t =
    not (floats.is_nan t)
    && not (floats.less t min)
    && not (floats.greater t max)
    && leb (length (decimal_part t)) precision

pub is_none-number_between :
    (floats : Floats) (min max precision : ℕ) (t : Text)
    → is_none (number_between floats min max precision t) ≡ in_range floats min max precision t
unfolding number_between
is_none-number_between floats min max precision t = elim (Bool-cases (floats.is_nan t)) [
  | inl n ↦ rw n refl
  | inr n ↦ elim (Bool-cases (floats.less t min || floats.greater t max)) [
    | inl out ↦ rw (n, out) (ground arith)
    | inr inside ↦
        rw (n, inside) (is_none-if (ltb precision (length (decimal_part t))) _ ∙ ground arith)
  ]
]
