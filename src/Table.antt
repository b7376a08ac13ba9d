-- ===== src/Table.antt =====
-- Component `Table` (testgen/ui/static/js/components/table.js): the sort options, the selected rows
-- and the page buttons under the table.
pub mod Sorting
pub mod Rows
pub mod Pages
mod Tests
use dataops_testgen.Base.{
  ℕ, zero, suc, ◌+◌, ◌-◌, ◌*◌, ◌/◌, ◌%◌, String, Bool, true, false, not, ◌||◌, Option, none, some,
  List, [], ◌∷◌, ◌++◌, map, find, keep, str_eq, if◌then◌else◌, ltb, leb, ◌==◌,
}
use Prim.Native.Nat.{min}

pub data Order : Type 0 where
  asc desc : Order

pub record SortColumn : Type 0 where
  pub field : String
  pub order : Order

abbrev pub is_field : String → SortColumn → Bool
is_field name c = str_eq c.field name

abbrev sort_existing : Order → List SortColumn → String → List SortColumn
sort_existing desc cols name =
    map (λ c. if is_field name c then record c { order = asc } else c) cols
sort_existing asc cols name = keep (λ c. not (is_field name c)) cols

abbrev sort_found : Option SortColumn → List SortColumn → String → List SortColumn
sort_found none cols name = cols ++ record { field = name; order = desc } ∷ []
sort_found (some existing) cols name = sort_existing existing.order cols name

-- `onSortChange` where `columns` is given: the new columns.
pub sort_columns : List SortColumn → String → List SortColumn
sort_columns cols name = sort_found (find (is_field name) cols) cols name

-- `{field, order}`, both null when the sort is cleared.
pub record Sort : Type 0 where
  pub field : Option String
  pub order : Option Order

abbrev is_name : Option String → String → Bool
is_name none name = false
is_name (some s) name = str_eq s name

abbrev sort_next : Bool → Option Order → String → Sort
sort_next true (some desc) name = record { field = some name; order = some asc }
sort_next true (some asc) name = record { field = none; order = none }
sort_next _ _ name = record { field = some name; order = some desc }

-- `onSortChange` where it is not.
pub sort_single : Sort → String → Sort
sort_single s name = sort_next (is_name s.field name) s.order name

-- `selectedRows`, a state for each row that the table has ever had.
-- The first derive: each row of the new list gets its initial value, and later states stay.
unfoldable pub reset_rows : List Bool → List Bool → List Bool
reset_rows [] selected = selected
reset_rows (b ∷ bs) [] = b ∷ reset_rows bs []
reset_rows (b ∷ bs) (s ∷ selected) = b ∷ reset_rows bs selected

-- The second derive: the indices that are reported.
unfoldable pub reported_from : ℕ → List Bool → List ℕ
reported_from i [] = []
reported_from i (s ∷ selected) =
    let rest = reported_from (i + 1) selected in if s then i ∷ rest else rest

unfoldable pub reported : List Bool → List ℕ
unfolding reported_from
reported selected = reported_from 0 selected

abbrev toggle_at : ℕ → List Bool → List Bool
toggle_at i [] = []
toggle_at zero (s ∷ selected) = not s ∷ selected
toggle_at (suc i) (s ∷ selected) = s ∷ toggle_at i selected

-- `onRowSelected`: `multi` and `listens` say whether the options `multi` and `onRowsSelected` are set.
unfoldable pub on_row_selected : Bool → Bool → ℕ → List Bool → List Bool
on_row_selected multi listens idx selected =
    let kept = if multi then selected else map (λ s. false) selected in
    if listens then toggle_at idx kept else kept

pub page_start : ℕ → ℕ → ℕ
page_start items_per_page page = items_per_page * page + 1

-- `none` is NaN: `totalItems` may be undefined.
pub page_end : ℕ → Option ℕ → ℕ → Option ℕ
unfolding page_start
page_end items_per_page none page = none
page_end items_per_page (some total) page =
    some (min (page_start items_per_page page + items_per_page - 1) total)

-- The number of pages, one more than `lastPage`.
unfoldable pub page_count : ℕ → ℕ → ℕ
page_count items_per_page total =
    total / items_per_page + (if ltb 0 (total % items_per_page) then 1 else 0)

-- `disabled` of the first two buttons, and of the last two; a comparison with NaN is false.
unfoldable pub back_disabled : ℕ → Bool
back_disabled page = page == 0

unfoldable pub forward_disabled : ℕ → Option ℕ → ℕ → Bool
forward_disabled items_per_page none page = false
forward_disabled items_per_page (some total) page =
    leb total (min (page_start items_per_page page + items_per_page - 1) total)

pub data PageButton : Type 0 where
  first previous next last : PageButton

-- The page that a button asks for if it is not disabled. `lastPage` is -1 for no items, and NaN for
-- an unknown total: there `none` is returned for both.
unfoldable pub press : ℕ → Option ℕ → ℕ → PageButton → Option ℕ
unfolding back_disabled forward_disabled page_start
press size total page first = if back_disabled page then none else some 0
press size total page previous = if back_disabled page then none else some (page - 1)
press size total page next = if forward_disabled size total page then none else some (page + 1)
press size none page last = none
press size (some total) page last =
    if forward_disabled size (some total) page || page_count size total == 0
    then none
    else some (page_count size total - 1)
