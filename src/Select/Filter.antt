-- ===== src/Select/Filter.antt =====
-- What the filter leaves.
use dataops_testgen.Base.{
  ◌≡◌, refl, Bool, true, false, none, some, List, [], ◌∷◌, any, keep, or_default, Bool-cases, inl,
  inr, if◌then◌else◌,
}
use dataops_testgen.Base.Text.{Text, text_eq, is_empty}
use dataops_testgen.Select.{
  SelectOption, shown_label, includes, keep_if, filter_loop, filtered_options,
}

abbrev pub is_term : Text → SelectOption → Bool
is_term term o = text_eq (shown_label o) term

abbrev pub matches : (Text → Text) → Text → SelectOption → Bool
matches lower term o = includes (lower (shown_label o)) (lower term)

keep_if-if :
    (b c : Bool) (o : SelectOption) (os : List SelectOption)
    → keep_if b o (if c then none else some os)
      ≡ (if c then none else some (if b then o ∷ os else os))
keep_if-if b true o os = refl
keep_if-if b false o os = refl

filter_loop_eq :
    (lower : Text → Text) (term : Text) (os : List SelectOption)
    → filter_loop lower term os
      ≡ (if any (is_term term) os then none else some (keep (matches lower term) os))
unfolding filter_loop
filter_loop_eq lower term [] = refl
filter_loop_eq lower term (o ∷ os) = elim (Bool-cases (is_term term o)) [
  | inl e ↦ rw e refl
  | inr e ↦
      rw (e, filter_loop_eq lower term os)
        (keep_if-if (matches lower term o) (any (is_term term) os) o (keep (matches lower term) os))
]

or_default-if :
    (b : Bool) (os xs : List SelectOption)
    → or_default (if b then none else some xs) os ≡ (if b then os else xs)
or_default-if true os xs = refl
or_default-if false os xs = refl

-- A filter with a term shows all options if the term is the label of one of them, and otherwise the
-- options, in their order, whose label holds the term, cases aside.
pub filtered_options-keep :
    (lower : Text → Text) (term : Text) (os : List SelectOption)
    → is_empty term ≡ false
    → filtered_options lower true term os
      ≡ (if any (is_term term) os then os else keep (matches lower term) os)
unfolding filtered_options
filtered_options-keep lower term os h =
    rw (h, filter_loop_eq lower term os)
      (or_default-if (any (is_term term) os) os (keep (matches lower term) os))
