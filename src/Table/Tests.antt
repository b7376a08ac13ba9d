-- ===== src/Table/Tests.antt =====
-- The table's functions at concrete values, and the theorems at them.
use dataops_testgen.Base.{
  ◌≤◌, ◌≡◌, refl, ◌↔◌, Bool, true, false, List, [], ◌∷◌, some, arith, get_elem?,
}
use dataops_testgen.Table.{
  asc, desc, SortColumn, sort_columns, reset_rows, reported, page_count, page_start,
  forward_disabled, last, press,
}
use dataops_testgen.Table.Sorting.{order_of, order_of-sort_columns}
use dataops_testgen.Table.Rows.{get_elem?-reset_rows}
use dataops_testgen.Table.Pages.{forward_disabled_iff}

abbrev by_name : List SortColumn
by_name = record { field = "name"; order = desc } ∷ []

order_of-sort_columns_example : order_of "name" (sort_columns by_name "name") ≡ some asc
order_of-sort_columns_example = order_of-sort_columns by_name "name" "name"

abbrev rows : List Bool
rows = false ∷ true ∷ false ∷ []

-- A row that is gone stays selected.
get_elem?-reset_rows_example : get_elem? (reset_rows (false ∷ []) rows) 1 ≡ some true
get_elem?-reset_rows_example = get_elem?-reset_rows (false ∷ []) rows 1

stale_row : reported (reset_rows (false ∷ []) rows) ≡ 1 ∷ []
unfolding reported reset_rows
stale_row = refl

forward_disabled_iff_example : (forward_disabled 20 (some 45) 2 ≡ true) ↔ (page_count 20 45 ≤ 3)
forward_disabled_iff_example = forward_disabled_iff 20 45 2 (omega arith)

to_last : press 20 (some 45) 0 last ≡ some 2
unfolding press page_count
to_last = refl

enabled : forward_disabled 20 (some 45) 1 ≡ false
unfolding forward_disabled page_start
enabled = refl
