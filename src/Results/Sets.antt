-- ===== src/Results/Sets.antt =====
-- The JavaScript `Set` of ids, and the `Map` from ids to the states of check boxes.
pub mod Laws
pub mod Boxes
use dataops_testgen.Base.{
  String, Bool, true, false, not, ◌&&◌, ◌||◌, List, [], ◌∷◌, ◌++◌, map, any, keep, str_eq,
  if◌then◌else◌,
}

-- `set.has(id)`
unfoldable pub has : String → List String → Bool
has id set = any (λ x. str_eq x id) set

-- `set.add(id)`, in the order of insertion
unfoldable pub add_id : String → List String → List String
unfolding has
add_id id set = if has id set then set else set ++ id ∷ []

-- `set.delete(id)`
unfoldable pub delete_id : String → List String → List String
delete_id id set = keep (λ x. not (str_eq x id)) set

pub record Check : Type 0 where
  pub id : String
  pub ticked : Bool

abbrev pub Checks : Type 0
Checks = List Check

unfoldable pub has_check : String → Checks → Bool
has_check id checks = any (λ c. str_eq c.id id) checks

-- `getCheckboxState(id)`: a state that is not there yet is made, unticked.
unfoldable pub get_check : String → Checks → Checks
unfolding has_check
get_check id checks =
    if has_check id checks then checks else checks ++ record { id = id; ticked = false } ∷ []

abbrev set_check : String → Bool → Check → Check
set_check id b c = if str_eq c.id id then record c { ticked = b } else c

-- `getCheckboxState(id).val = b`
unfoldable pub tick_box : String → Bool → Checks → Checks
unfolding get_check
tick_box id b checks = map (set_check id b) (get_check id checks)

-- The states that the rows make.
unfoldable pub ensure : List String → Checks → Checks
unfolding get_check
ensure [] checks = checks
ensure (id ∷ page) checks = ensure page (get_check id checks)

abbrev untick : Check → Check
untick c = record c { ticked = false }

unfoldable pub untick_all : Checks → Checks
untick_all checks = map untick checks

abbrev retick_check : List String → List String → Check → Check
unfolding has
retick_check page active c = if has c.id page then record c { ticked = has c.id active } else c

-- The loop over the states in `onRowsSelected`.
unfoldable pub retick : List String → List String → Checks → Checks
unfolding has
retick page active checks = map (retick_check page active) checks

-- The state of the box of an id: the first of the list, as each id stands there once.
unfoldable pub is_ticked : String → Checks → Bool
is_ticked id checks = any (λ c. str_eq c.id id && c.ticked) checks
