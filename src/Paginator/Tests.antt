-- ===== src/Paginator/Tests.antt =====
-- Runs of the page buttons on a list of 25 items, ten to a page.
use dataops_testgen.Base.{◌≡◌, ◌<◌, refl, none, some, arith}
use dataops_testgen.Base.Int.{pos}
use dataops_testgen.Table.{next, last, press, page_count}
use dataops_testgen.Paginator.{turn_page, on_last, last_index, decrement, page_total}
use dataops_testgen.Paginator.Buttons.{turn_page-press}
use mathlib.Core.Option

last_test : turn_page 25 10 (pos 0) last ≡ some (pos 2)
unfolding turn_page on_last last_index decrement page_total
last_test = refl

end_test : turn_page 25 10 (pos 2) next ≡ none
unfolding turn_page on_last last_index decrement page_total
end_test = refl

one_page : 1 < page_count 10 25
unfolding page_count
one_page = omega arith

turn_page-press_example : turn_page 25 10 (pos 1) next ≡ Option.map pos (press 10 (some 25) 1 next)
turn_page-press_example = turn_page-press 25 10 1 next (omega arith) one_page
