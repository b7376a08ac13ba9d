-- ===== src/Select.antt =====
-- Component `Select` (testgen/ui/static/js/components/select.js): the filter on the options, and the
-- choice of several options. Lower case is a parameter.
pub mod Filter
pub mod Multi
mod Tests
use dataops_testgen.Base.{
  ℕ, suc, Bool, true, false, not, ◌&&◌, ◌||◌, Option, none, some, List, [], ◌∷◌, ◌++◌, any,
  or_default, String, str_eq, if◌then◌else◌,
}
use dataops_testgen.Base.Text.{Text, text_eq, starts_with, is_empty}

pub record SelectOption : Type 0 where
  pub label : Text
  pub raw_label : Option Text
  pub value : Option String

-- `option.rawLabel ?? option.label`
abbrev pub shown_label : SelectOption → Text
shown_label o = or_default o.raw_label o.label

-- `s.includes(t)`
pub includes : Text → Text → Bool
includes [] t = is_empty t
includes (c ∷ s) t = starts_with (c ∷ s) t || includes s t

abbrev pub keep_if : Bool → SelectOption → Option (List SelectOption) → Option (List SelectOption)
keep_if b o none = none
keep_if b o (some os) = some (if b then o ∷ os else os)

-- The loop of `filteredOptions`; `none` is its early return.
pub filter_loop : (Text → Text) → Text → List SelectOption → Option (List SelectOption)
filter_loop lower term [] = some []
filter_loop lower term (o ∷ os) =
    let rest = filter_loop lower term os in
    if text_eq (shown_label o) term
    then none
    else keep_if (includes (lower (shown_label o)) (lower term)) o rest

pub filtered_options : (Text → Text) → Bool → Text → List SelectOption → List SelectOption
unfolding filter_loop
filtered_options lower filterable term os =
    if filterable && not (is_empty term) then or_default (filter_loop lower term os) os else os

-- `values.includes(v)`
abbrev pub is_selected : String → List String → Bool
is_selected v xs = any (λ x. str_eq x v) xs

-- `current.splice(current.indexOf(v), 1)`
pub remove_value : String → List String → List String
remove_value v [] = []
remove_value v (x ∷ xs) = let rest = remove_value v xs in if str_eq x v then xs else x ∷ rest

pub toggle_option : String → List String → List String
toggle_option v xs = if is_selected v xs then remove_value v xs else xs ++ v ∷ []

-- The `valid` that `onChange` is told.
pub toggle_valid : Bool → List String → Bool
toggle_valid required [] = not required
toggle_valid required (x ∷ xs) = true
