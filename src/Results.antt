-- ===== src/Results.antt =====
-- Component `Results` (testgen/ui/components/frontend/js/pages/test_results.js): the rows that are
-- selected over the pages of the list of test results, the filters, and what the page sends.
-- The handlers run at once; the derives that read a state they changed run after them.
pub mod Sets
pub mod Loops
pub mod Consistent
pub mod Runs
pub mod Counts
pub mod Chosen
pub mod Settled
pub mod Kept
pub mod Box
pub mod Refined
pub mod Restored
pub mod Elsewhere
pub mod Stale
pub mod Dispositions
pub mod Sent
mod Tests
use dataops_testgen.Base.{
  ℕ, zero, suc, ◌-◌, ◌==◌, String, Bool, true, false, not, ◌&&◌, ◌||◌, Option, none, some, List, [],
  ◌∷◌, ◌++◌, map, find, str_eq, if◌then◌else◌, ltb, leb, length, get_elem?, bool_ne,
}
use dataops_testgen.Base.Text.{Text, codes}
use dataops_testgen.Results.Sets.{
  has, add_id, delete_id, Checks, tick_box, ensure, untick_all, retick,
}

-- The fields of an item of `props.items` that are read here. The texts are not null.
pub record Item : Type 0 where
  pub id : String
  pub definition : Option String
  pub status : String

abbrev pub item_ids : List Item → List String
item_ids items = map (λ r. r.id) items

pub record Filters : Type 0 where
  pub status : Option Text
  pub table_name : Option Text
  pub column_name : Option Text
  pub test_type : Option Text
  pub action : Option Text
  pub flagged : Option Text

-- The states of the page; `items`, `total` and `page_size` come with the props.
pub record Page : Type 0 where
  pub items : List Item
  pub total : ℕ
  pub page_size : ℕ
  pub filters : Filters
  pub multi : Bool
  pub select_all : Bool
  pub row : Option String
  pub checks : Checks
  pub ids : List String
  pub restore : List String
  pub count : ℕ

pub data Message : Type 0 where
  row_selected : String → Message
  filter_changed : Filters → Message
  page_changed : ℕ → Option ℕ → Message
  disposition_all : Filters → String → Message
  disposition_changed : List String → String → Message
  flag_all : Filters → Bool → Message
  flag_changed : List String → Bool → Message
  flag_definitions : List String → Bool → Message

-- `selectedIds = [...selectedIdSetForRestore]`, and its length is counted.
abbrev recount : Page → Page
recount s = record s { ids = s.restore; count = length s.restore }

-- `clearAllCheckboxStates`
abbrev clear_checks : Page → Page
clear_checks s = record s { checks = untick_all s.checks; select_all = false; count = 0 }

abbrev clear_selection : Page → Page
clear_selection s = record (clear_checks s) { ids = []; restore = [] }

-- The loop over the items where all are selected.
unfoldable pub add_items : List Item → Page → Page
add_items [] s = s
add_items (r ∷ items) s =
    add_items items
      (record s { checks = tick_box r.id true s.checks; restore = add_id r.id s.restore })

-- `onSelectAllToggle`
unfoldable pub on_select_all : Bool → Page → Page
on_select_all true s = recount (add_items s.items (record s { select_all = true }))
on_select_all false s = clear_selection s

-- The derive that runs when the multi-selection is switched.
unfoldable pub leave_multi : Page → Page
leave_multi s = if s.multi then s else clear_selection s

-- The derive of the rows.
unfoldable pub derive_rows : Page → Page
derive_rows s =
    let t = if s.multi && s.select_all then recount (add_items s.items s) else s in
    if s.multi then record t { checks = ensure (item_ids s.items) t.checks } else t

-- Which of the derives follow a handler that found the first page and left the second: the first
-- reads `multiSelect`, the second `selectAll` too. A state that is set back in time is no change.
unfoldable pub after_multi : Page → Page → Page
unfolding leave_multi
after_multi old s = if bool_ne old.multi s.multi then leave_multi s else s

unfoldable pub after_all : Page → Page → Page
unfolding derive_rows
after_all old s =
    if bool_ne old.multi s.multi || bool_ne old.select_all s.select_all then derive_rows s else s

abbrev pub settle : Page → Page → Page
settle old s = after_all old (after_multi old s)

-- `isInitiallySelected`
unfoldable pub is_initially_selected : Page → Item → Bool
is_initially_selected s r =
    if s.multi then has r.id s.restore else elim s.row [ none ↦ false | some id ↦ str_eq r.id id ]

abbrev add_item : Option Item → List String → List String
add_item none set = set
add_item (some r) set = add_id r.id set

-- `activeSet`
unfoldable pub active_ids : List Item → List ℕ → List String → List String
active_ids items [] set = set
active_ids items (i ∷ idxs) set = active_ids items idxs (add_item (get_elem? items i) set)

-- `new Set(items.map(r => r.test_result_id))`
unfoldable pub page_ids : List Item → List String → List String
page_ids [] set = set
page_ids (r ∷ items) set = page_ids items (add_id r.id set)

-- The loop over the ids of the page.
unfoldable pub take_over : List String → List String → List String → List String
take_over [] active set = set
take_over (id ∷ page) active set =
    take_over page active (if has id active then add_id id set else delete_id id set)

-- `onRowsSelected` in the multi-selection, its two tests of `selectAll` last.
unfoldable pub leave_all : ℕ → ℕ → Page → Page
leave_all active page s =
    if s.select_all && ltb active page then record s { select_all = false } else s

unfoldable pub enter_all : Page → Page
enter_all s =
    if not s.select_all && ltb 0 s.total && leb s.total (length s.ids)
    then record s { select_all = true }
    else s

unfoldable pub pick_rows : List ℕ → Page → Page
unfolding leave_all enter_all
pick_rows idxs s =
    let page = page_ids s.items [] in
    let active = active_ids s.items idxs [] in
    let restore = take_over page active s.restore in
    let checks = retick page active s.checks in
    enter_all (
      leave_all (length active) (length page)
        (recount (record s { restore = restore; checks = checks })))

abbrev row_at : List Item → List ℕ → Option Item
row_at items [] = none
row_at items (i ∷ idxs) = get_elem? items i

abbrev is_row : Option String → String → Bool
is_row none id = false
is_row (some row) id = str_eq row id

abbrev pick_row : Option Item → Page → Page × Option Message
pick_row none s = (s, none)
pick_row (some r) s =
    if is_row s.row r.id
    then (s, none)
    else (record s { row = some r.id }, some (Message.row_selected r.id))

-- `onRowsSelected`
unfoldable pub on_rows_selected : List ℕ → Page → Page × Option Message
unfolding pick_rows
on_rows_selected idxs s =
    if s.multi then (pick_rows idxs s, none) else pick_row (row_at s.items idxs) s

-- A new value of a filter; `custom_column` is a text that is not among the options.
pub data FilterChange : Type 0 where
  by_status by_table by_column by_test_type by_action by_flag : Option Text → FilterChange
  custom_column : Text → FilterChange

unfoldable pub change_filter : FilterChange → Filters → Filters
change_filter (by_status v) f = record f { status = v }
change_filter (by_table v) f = record f { table_name = v; column_name = none }
change_filter (by_column v) f = record f { column_name = v }
change_filter (custom_column t) f = record f { column_name = some (codes "%" ++ (t ++ codes "%")) }
change_filter (by_test_type v) f = record f { test_type = v }
change_filter (by_action v) f = record f { action = v }
change_filter (by_flag v) f = record f { flagged = v }

-- The six handlers of the filters.
unfoldable pub on_filter_change : FilterChange → Page → Page × Option Message
unfolding change_filter
on_filter_change c s =
    let filters = change_filter c s.filters in
    (record s { filters = filters; row = none }, some (Message.filter_changed filters))

-- `onPageChange` of the paginator.
unfoldable pub on_page_change : ℕ → ℕ → Page → Page × Option Message
on_page_change idx size s =
    if size == s.page_size then (s, some (Message.page_changed idx none)) else (
      (if s.select_all then s else clear_selection s),
      some (Message.page_changed 0 (some size)),
    )

-- The page as it opens: one row at most is selected, that of `props.selected_id`.
unfoldable pub open_page : List Item → ℕ → ℕ → Filters → Option String → Page
open_page items total page_size filters row = record {
  items = items;
  total = total;
  page_size = page_size;
  filters = filters;
  multi = false;
  select_all = false;
  row = row;
  checks = [];
  ids = [];
  restore = [];
  count = 0;
}

-- What happens to the page; `arrive` is a change of the props. The box of `onSelectAllToggle`
-- stands over the rows in the multi-selection only.
pub data PageEvent : Type 0 where
  set_multi set_all : Bool → PageEvent
  pick : List ℕ → PageEvent
  arrive : List Item → ℕ → ℕ → PageEvent
  turn : ℕ → ℕ → PageEvent
  filter_by : FilterChange → PageEvent

abbrev pub handle_event : PageEvent → Page → Page
handle_event (set_multi b) s = record s { multi = b }
handle_event (set_all b) s = if s.multi then on_select_all b s else s
handle_event (pick idxs) s = (on_rows_selected idxs s).0
handle_event (arrive items total page_size) s =
    derive_rows (record s { items = items; total = total; page_size = page_size })
handle_event (turn idx size) s = (on_page_change idx size s).0
handle_event (filter_by c) s = (on_filter_change c s).0

abbrev pub page_after : PageEvent → Page → Page
page_after a s = settle s (handle_event a s)

unfoldable pub after_events : List PageEvent → Page → Page
unfolding after_multi after_all on_select_all on_rows_selected derive_rows on_page_change
    on_filter_change
after_events [] s = s
after_events (a ∷ actions) s = after_events actions (page_after a s)
