-- ===== src/Paginator.antt =====
-- Component `Paginator` (testgen/ui/static/js/components/paginator.js): the page index and the four
-- buttons. The index is a whole number, since the last page of no items is -1. A disabled button
-- takes no click: `none`.
pub mod Buttons
mod Tests
use dataops_testgen.Base.{
  ℕ, zero, suc, ◌+◌, ◌/◌, ◌%◌, Bool, true, false, Option, none, some, ◌==◌, if◌then◌else◌,
}
use dataops_testgen.Base.Int.{ℤ, pos, negsuc}
use dataops_testgen.Table.{PageButton, first, previous, next, last}

-- `Math.ceil(count / pageSize)`
pub page_total : ℕ → ℕ → ℕ
page_total count page_size = count / page_size + (if count % page_size == 0 then 0 else 1)

pub decrement : ℤ → ℤ
decrement (pos zero) = negsuc 0
decrement (pos (suc n)) = pos n
decrement (negsuc n) = negsuc (suc n)

pub increment : ℤ → ℤ
increment (pos n) = pos (suc n)
increment (negsuc zero) = pos 0
increment (negsuc (suc n)) = negsuc n

abbrev pub index_eq : ℤ → ℤ → Bool
index_eq (pos m) (pos n) = m == n
index_eq (negsuc m) (negsuc n) = m == n
index_eq _ _ = false

pub last_index : ℕ → ℕ → ℤ
unfolding decrement page_total
last_index count page_size = decrement (pos (page_total count page_size))

pub on_first : ℤ → Bool
on_first page = index_eq page (pos 0)

pub on_last : ℕ → ℕ → ℤ → Bool
on_last count page_size page = index_eq page (last_index count page_size)

-- The page index after a click.
pub turn_page : ℕ → ℕ → ℤ → PageButton → Option ℤ
turn_page count page_size page first = if on_first page then none else some (pos 0)
turn_page count page_size page previous = if on_first page then none else some (decrement page)
turn_page count page_size page next =
    if on_last count page_size page then none else some (increment page)
turn_page count page_size page last =
    if on_last count page_size page then none else some (last_index count page_size)
