-- ===== src/Paginator/Buttons.antt =====
-- The buttons against those under a table (Table.antt), and the pages that they lead to.
use native.Mathlib.Decide.{dec_lt}
use dataops_testgen.Base.{
  ℕ, zero, suc, ◌+◌, ◌-◌, ◌*◌, ◌<◌, ◌≤◌, ◌≡◌, refl, sym, ◌∙◌, ap, Bool, true, false, ◌||◌, Option,
  none, some, if◌then◌else◌, arith, ◌==◌, Bool-cases, inl, inr,
}
use dataops_testgen.Base.Int.{ℤ, pos, negsuc}
use dataops_testgen.Table.{
  page_count, back_disabled, forward_disabled, PageButton, first, previous, next, last, press,
}
use dataops_testgen.Table.Pages.{lt-page_count_iff, forward_disabled_iff, press-lt}
use mathlib.Core.Option
use dataops_testgen.Table
use dataops_testgen.Paginator.{
  page_total, decrement, increment, index_eq, last_index, on_first, on_last, turn_page,
}

page_total-page_count : (count size : ℕ) → page_total count size ≡ page_count size count
unfolding page_total Table.page_count
page_total-page_count count size = ground arith

decrement-pos : (n : ℕ) → 0 < n → decrement (pos n) ≡ pos (n - 1)
unfolding decrement
decrement-pos zero h = absurd (omega arith)
decrement-pos (suc n) h = ap pos (omega arith)

last_index-pos :
    (count size : ℕ)
    → 0 < page_count size count
    → last_index count size ≡ pos (page_count size count - 1)
unfolding last_index
last_index-pos count size h =
    ap (λ n. decrement (pos n)) (page_total-page_count count size)
    ∙ decrement-pos (page_count size count) h

on_last-forward_disabled :
    (count size page : ℕ)
    → 0 < size
    → page < page_count size count
    → on_last count size (pos page) ≡ forward_disabled size (some count) page
unfolding on_last
on_last-forward_disabled count size page h l =
    ap (index_eq (pos page)) (last_index-pos count size (omega arith))
    ∙ elim (Bool-cases (forward_disabled size (some count) page)) [
      | inl e ↦
          let behind : page_count size count ≤ page + 1 =
            (forward_disabled_iff size count page h).0 e in
          let same : (page == page_count size count - 1) ≡ true = ground arith in same ∙ sym e
      | inr e ↦
          let other : (page == page_count size count - 1) ≡ false =
            elim (Bool-cases (page == page_count size count - 1)) [
              | inl q ↦
                  let there : forward_disabled size (some count) page ≡ true =
                    (forward_disabled_iff size count page h).1 (ground arith) in
                  absurd cc
              | inr q ↦ q
            ] in
          other ∙ sym e
    ]

map-if :
    (b : Bool) (n : ℕ)
    → (if b then none else some (pos n)) ≡ Option.map pos (if b then none else some n)
map-if true n = refl
map-if false n = refl

map-if-next :
    (b : Bool) (n : ℕ)
    → (if b then none else some (increment (pos n)))
      ≡ Option.map pos (if b then none else some (n + 1))
unfolding increment
map-if-next true n = refl
map-if-next false n = ap (λ k. some (pos k)) (omega arith)

map-if-last :
    (b : Bool) (n : ℕ)
    → (if b then none else some (pos n)) ≡ Option.map pos (if b || false then none else some n)
map-if-last true n = refl
map-if-last false n = refl

-- On every page of a list that has items the four buttons are disabled where those under a table
-- are, and lead to the same pages.
pub turn_page-press :
    (count size page : ℕ) (b : PageButton)
    → 0 < size
    → page < page_count size count
    → turn_page count size (pos page) b ≡ Option.map pos (press size (some count) page b)
unfolding turn_page press on_first back_disabled
turn_page-press count size page first h l = map-if (page == 0) 0
turn_page-press count size page previous h l = elim (Bool-cases (page == 0)) [
  | inl e ↦ rw e refl
  | inr e ↦ rw e (ap some (decrement-pos page (ground arith)))
]
turn_page-press count size page next h l =
    rw (on_last-forward_disabled count size page h l)
      (map-if-next (forward_disabled size (some count) page) page)
turn_page-press count size page last h l =
    let some_page : (page_count size count == 0) ≡ false = ground arith in
    rw
      (
        on_last-forward_disabled count size page h l,
        last_index-pos count size (omega arith),
        some_page,
      )
      (map-if-last (forward_disabled size (some count) page) (page_count size count - 1))

-- The pages that the buttons lead to, from the first.
pub data Turned (count size : ℕ) : ℤ → Type 0 where
  start : Turned count size (pos 0)
  click :
      {page page' : ℤ} (b : PageButton)
      → Turned count size page
      → turn_page count size page b ≡ some page'
      → Turned count size page'

some-map :
    (o : Option ℕ) (page : ℤ)
    → Option.map pos o ≡ some page
    → (n : ℕ) × ((o ≡ some n) × (page ≡ pos n))
some-map none page h = absurd cc
some-map (some n) page h = (n, (refl, cc))

-- From the first page of a list that has items the buttons lead to existing pages alone.
pub Turned-lt :
    (count size : ℕ) (page : ℤ)
    → 0 < size
    → 0 < count
    → Turned count size page
    → (n : ℕ) × ((page ≡ pos n) × (n < page_count size count))
Turned-lt count size _ h c start = (0, (refl, (lt-page_count_iff size count 0 h).1 (ground arith)))
Turned-lt count size page' h c (click {page} b t e) =
    let before : (n : ℕ) × ((page ≡ pos n) × (n < page_count size count)) =
      Turned-lt count size page h c t in
    let pressed : turn_page count size page b
        ≡ Option.map pos (press size (some count) before.0 b) =
      ap (λ k. turn_page count size k b) before.1.0
      ∙ turn_page-press count size before.0 b h before.1.1 in
    let after : (n : ℕ) × ((press size (some count) before.0 b ≡ some n) × (page' ≡ pos n)) =
      some-map (press size (some count) before.0 b) page' (sym pressed ∙ e) in
    (after.0, (after.1.1, press-lt size count before.0 after.0 b h before.1.1 after.1.0))

page_count-zero : (size : ℕ) → 0 < size → page_count size 0 ≡ 0
page_count-zero size h = elim (dec_lt 0 (page_count size 0)) [
  | yes l ↦ let item : size * 0 < 0 = (lt-page_count_iff size 0 0 h).0 l in absurd (omega arith)
  | no l ↦ omega arith
]

last_index-empty : (size : ℕ) → 0 < size → last_index 0 size ≡ negsuc 0
unfolding last_index decrement
last_index-empty size h =
    ap (λ k. decrement (pos k)) (page_total-page_count 0 size ∙ page_count-zero size h)

-- A list without items has no last page: the button to the next page is never disabled, and leads
-- on to a page that does not exist; the one to the last page leads to the page -1.
pub turn_page-empty :
    (size n : ℕ)
    → 0 < size
    → (turn_page 0 size (pos n) next ≡ some (pos (n + 1)))
      × (turn_page 0 size (pos n) last ≡ some (negsuc 0))
unfolding turn_page on_last increment
turn_page-empty size n h = rw (last_index-empty size h) (ap (λ k. some (pos k)) (omega arith), refl)
