-- ===== src/Validators.antt =====
-- testgen/ui/static/js/form_validators.js, on the texts of inputs and the sizes of files. A result
-- `none` is null: no error. `length` counts code points, where the program counts UTF-16 units.
pub mod Passes
use dataops_testgen.Base.{
  ℕ, Bool, true, false, not, ◌&&◌, ◌||◌, Option, none, some, List, [], ◌∷◌, ◌++◌, any, length, ltb,
  ◌==◌, if◌then◌else◌, or_default,
}
use dataops_testgen.Base.Text.{Text, codes, decimal, is_empty, join, split_by, text_eq}

abbrev pub Validator : Type 0
Validator = Text → Option Text

abbrev pub required_error : Text
required_error = codes "This field is required"

unfoldable pub required : Validator
required value = if is_empty value then some required_error else none

unfoldable pub required_if : Bool → Validator
unfolding required
required_if condition value = if condition then required value else none

unfoldable pub no_spaces : Validator
no_spaces value =
    if any (λ c. c == 32) value then some (codes "Value cannot contain spaces.") else none

unfoldable pub min_length : ℕ → Validator
min_length min value =
    if not (is_empty value) && ltb (length value) min
    then some (codes "Value must be at least " ++ decimal min ++ codes " characters long.")
    else none

unfoldable pub max_length : ℕ → Validator
max_length max value =
    if ltb max (length value)
    then some (codes "Value must be " ++ decimal max ++ codes " characters long or shorter.")
    else none

-- `sizeLimit`, for the size of the file, if there is one
unfoldable pub size_limit : ℕ → Option ℕ → Option Text
size_limit limit none = none
size_limit limit (some size) =
    if ltb limit size
    then some (codes "Uploaded file must be smaller than " ++ decimal limit ++ codes ".")
    else none

-- `values.join(', ')`
unfoldable pub join_all : List Text → Text
join_all [] = []
join_all (x ∷ []) = x
join_all (x ∷ y ∷ xs) = x ++ codes ", " ++ join_all (y ∷ xs)

-- `notIn`, for texts: `options` may hold a message and a formatter.
unfoldable pub not_in : List Text → Option Text → (Text → Text) → Validator
unfolding join_all
not_in values message formatter value =
    if not (is_empty value) && any (text_eq (formatter value)) values
    then some
        (or_default message (codes "Value cannot be any of: " ++ join_all values ++ codes "."))
    else none

-- `parseFloat`, with the comparisons of its result with a number of the program, which are false on NaN.
pub record Floats : Type 0 where
  pub is_nan : Text → Bool
  pub less : Text → ℕ → Bool
  pub greater : Text → ℕ → Bool

-- The digits after the decimal point: `value.split('.')[1]`.
unfoldable pub decimal_part : Text → Text
unfolding split_by
decimal_part value = elim (split_by (λ c. c == b'.') value) [ x ∷ y ∷ rest ↦ y | other ↦ [] ]

abbrev precision_error : ℕ → Text
precision_error precision =
    if precision == 0
    then codes "Value must be an integer."
    else codes "Value must have at most "
      ++ (decimal precision ++ codes " digits after the decimal point.")

-- `numberBetween` with a precision
unfoldable pub number_between : Floats → ℕ → ℕ → ℕ → Validator
unfolding decimal_part
number_between floats min max precision value =
    if floats.is_nan value
    then some (codes "Value must be a numeric type.")
    else if floats.less value min || floats.greater value max
    then some (
        codes "Value must be between "
        ++ (decimal min ++ (codes " and " ++ (decimal max ++ codes "."))))
    else if ltb precision (length (decimal_part value))
    then some (precision_error precision)
    else none
