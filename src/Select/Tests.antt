-- ===== src/Select/Tests.antt =====
-- Runs of the filter and of the multiple choice.
use dataops_testgen.Base.{
  ◌≡◌, refl, true, not, none, some, [], ◌∷◌, any, keep, if◌then◌else◌, str_eq,
}
use dataops_testgen.Base.Text.{Text, codes}
use dataops_testgen.Select.{SelectOption, filtered_options, includes, is_selected, toggle_option}
use dataops_testgen.Select.Filter.{is_term, matches, filtered_options-keep}
use dataops_testgen.Select.Multi.{is_selected-toggle_option}

abbrev weekly : SelectOption
weekly = record { label = codes "weekly"; raw_label = none; value = some "w" }

abbrev week : SelectOption
week = record { label = codes "week"; raw_label = none; value = some "k" }

abbrev daily : SelectOption
daily = record { label = codes "daily"; raw_label = none; value = some "d" }

abbrev as_is : Text → Text
as_is s = s

filter_test :
    filtered_options as_is true (codes "ly") (weekly ∷ week ∷ daily ∷ []) ≡ weekly ∷ daily ∷ []
unfolding filtered_options includes
filter_test = refl

exact_test :
    filtered_options as_is true (codes "week") (weekly ∷ week ∷ daily ∷ [])
    ≡ weekly ∷ week ∷ daily ∷ []
unfolding filtered_options includes
exact_test = refl

filtered_options-keep_example : filtered_options as_is true (codes "ly") (weekly ∷ daily ∷ []) ≡ (
    if any (is_term (codes "ly")) (weekly ∷ daily ∷ [])
    then weekly ∷ daily ∷ []
    else keep (matches as_is (codes "ly")) (weekly ∷ daily ∷ []))
filtered_options-keep_example = filtered_options-keep as_is (codes "ly") (weekly ∷ daily ∷ []) refl

is_selected-toggle_option_example : is_selected "b" (toggle_option "a" ("a" ∷ "b" ∷ [])) ≡ (
    if str_eq "a" "b"
    then not (is_selected "b" ("a" ∷ "b" ∷ []))
    else is_selected "b" ("a" ∷ "b" ∷ []))
is_selected-toggle_option_example =
    is_selected-toggle_option "b" "a" ("a" ∷ "b" ∷ []) (refl, (refl, tt))
