-- ===== src/Results/Tests.antt =====
-- Runs of the list of test results.
use dataops_testgen.Base.{
  ◌≡◌, refl, sym, ap, true, false, none, some, List, [], ◌∷◌, ◌++◌, String, str_eq_iff, arith, map,
  ◌||◌, ◌&&◌, not, ltb, length,
}
use dataops_testgen.Base.Text.{codes}
use dataops_testgen.Table.{reset_rows, reported}
use dataops_testgen.Results.{
  take_over, page_ids, active_ids, add_items, Item, Filters, Page, open_page, Message, PageEvent,
  set_multi, set_all, pick, arrive, turn, filter_by, by_table, after_events, page_after, item_ids,
  is_initially_selected, FilterChange, change_filter,
}
use dataops_testgen.Results.Dispositions.{on_disposition, disposition_disabled}
use dataops_testgen.Results.Sets.{has, add_id, delete_id}
use dataops_testgen.Results.Consistent.{IsConsistent}
use dataops_testgen.Results.Runs.{open_page-IsConsistent, after_events-open_page}
use dataops_testgen.Results.Chosen.{view, Replays}
use dataops_testgen.Results.Refined.{run_refines}
use dataops_testgen.Results.Restored.{page_after-reported}
use dataops_testgen.Results.Stale.{on_disposition-filter_by}
use dataops_testgen.Results.Sent.{meant, on_disposition-enabled}

abbrev item : String → Item
item id = record { id = id; definition = none; status = "Failed" }

abbrev no_filters : Filters
no_filters = record {
  status = none;
  table_name = none;
  column_name = none;
  test_type = none;
  action = none;
  flagged = none;
}

abbrev opened : Page
opened = open_page (item "a" ∷ item "b" ∷ []) 4 2 no_filters none

abbrev second_page : PageEvent
second_page = arrive (item "c" ∷ item "d" ∷ []) 4 2

-- One row of each page is selected, then the first page comes back.
abbrev two_pages : List PageEvent
two_pages = set_multi true ∷ pick (1 ∷ []) ∷ turn 1 2 ∷ second_page ∷ pick (0 ∷ []) ∷ []

two_pages_test : (after_events two_pages opened).restore ≡ "b" ∷ "c" ∷ []
unfolding after_events open_page take_over page_ids add_id active_ids delete_id add_items
    disposition_disabled
two_pages_test = refl

all_test : (after_events (two_pages ++ set_all true ∷ []) opened).restore ≡ "b" ∷ "c" ∷ "d" ∷ []
unfolding after_events open_page take_over page_ids add_id active_ids delete_id add_items
    disposition_disabled
all_test = refl

-- All four rows, one by one.
enabled_test :
    (after_events
      (two_pages
        ++ pick (0 ∷ 1 ∷ []) ∷ arrive (item "a" ∷ item "b" ∷ []) 4 2 ∷ pick (0 ∷ 1 ∷ []) ∷ [])
      opened).select_all
    ≡ true
unfolding after_events open_page take_over page_ids add_id active_ids delete_id add_items
    disposition_disabled
enabled_test = refl

after_events-open_page_example : IsConsistent (after_events two_pages opened)
after_events-open_page_example =
    after_events-open_page two_pages (item "a" ∷ item "b" ∷ []) 4 2 no_filters none

run_refines_example : Replays two_pages (view opened) (view (after_events two_pages opened))
run_refines_example =
    run_refines two_pages opened
      (open_page-IsConsistent (item "a" ∷ item "b" ∷ []) 4 2 no_filters none)

abbrev both_pages : Page
both_pages = after_events two_pages opened

page_after-reported_example :
    has "c"
      (page_after
        (pick (
          reported (
            reset_rows
              (map (is_initially_selected both_pages) both_pages.items)
              (true ∷ true ∷ true ∷ []))))
        both_pages).restore
    ≡ (has "c" both_pages.restore
        || ((page_after
              (pick (
                reported (
                  reset_rows
                    (map (is_initially_selected both_pages) both_pages.items)
                    (true ∷ true ∷ true ∷ []))))
              both_pages).select_all
            && not both_pages.select_all)
          && has "c" (item_ids both_pages.items))
unfolding after_events open_page take_over page_ids add_id active_ids delete_id add_items
    disposition_disabled
page_after-reported_example = page_after-reported both_pages (true ∷ true ∷ true ∷ []) "c" refl

abbrev picked_page : Page
picked_page = after_events (set_multi true ∷ pick (1 ∷ []) ∷ []) opened

abbrev other_table : FilterChange
other_table = by_table (some (codes "orders"))

not_shown : (id : String) → has id ("b" ∷ []) ≡ true → has id ("x" ∷ []) ≡ false
unfolding has
not_shown id h = ap (λ u. has u ("x" ∷ [])) (sym ((str_eq_iff "b" id).0 (ground arith)))

on_disposition-filter_by_example :
    on_disposition "Dismissed"
      (after_events (filter_by other_table ∷ arrive (item "x" ∷ []) 1 2 ∷ pick [] ∷ []) picked_page)
    ≡ some (Message.disposition_all (change_filter other_table picked_page.filters) "Dismissed")
unfolding after_events open_page take_over page_ids add_id active_ids delete_id add_items
    disposition_disabled
on_disposition-filter_by_example =
    on_disposition-filter_by other_table (item "x" ∷ []) 1 2 [] "Dismissed" picked_page refl refl
      not_shown (omega arith) (omega arith)

on_disposition-enabled_example :
    (on_disposition "Confirmed" both_pages
      ≡ some (Message.disposition_changed ("b" ∷ "c" ∷ []) "Confirmed"))
    × ((both_pages.select_all || ltb 0 (length (meant both_pages))) ≡ true)
unfolding after_events open_page take_over page_ids add_id active_ids delete_id add_items
    disposition_disabled
on_disposition-enabled_example =
    on_disposition-enabled "Confirmed" both_pages
      (after_events-open_page two_pages (item "a" ∷ item "b" ∷ []) 4 2 no_filters none) refl
