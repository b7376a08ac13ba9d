-- ===== src/Table/Pages.antt =====
-- The page buttons under a table.
use Prim.Native.Nat.{min}
use native.Mathlib.Decide.{dec_lt}
use native.Mathlib.Nat.{div-add-mod}
use dataops_testgen.Base.{
  ℕ, ◌+◌, ◌-◌, ◌*◌, ◌/◌, ◌%◌, ◌<◌, ◌≤◌, ◌≡◌, refl, true, false, some, ◌↔◌, if◌then◌else◌, arith,
  ltb, Bool-cases, inl, inr,
}
use dataops_testgen.Table.{
  page_start, page_end, page_count, back_disabled, forward_disabled, PageButton, first, previous,
  next, last, press,
}

mul_mono : (size a b : ℕ) → a ≤ b → size * a ≤ size * b
mul_mono size a b h = grind arith

lt-mul_of_lt :
    (size q r a : ℕ) → a < q + (if ltb 0 r then 1 else 0) → 0 < size → size * a < size * q + r
lt-mul_of_lt size q r a h k = elim (dec_lt a q) [
  | yes p ↦ omega (arith, mul_mono size (a + 1) q (omega arith))
  | no p ↦ ground (arith, mul_mono size a q)
]

lt_of_lt-mul :
    (size q r a : ℕ) → r < size → size * a < size * q + r → a < q + (if ltb 0 r then 1 else 0)
lt_of_lt-mul size q r a h k = elim (dec_lt a q) [
  | yes p ↦ omega arith
  | no p ↦ elim (dec_lt q a) [
    | yes l ↦ absurd (omega (arith, mul_mono size (q + 1) a (omega arith)))
    | no l ↦ let e : a ≡ q = omega arith in ground arith
  ]
]

-- A page number is below the count exactly when an item stands on the page.
pub lt-page_count_iff :
    (size total page : ℕ) → 0 < size → (page < page_count size total) ↔ (size * page < total)
unfolding page_count
lt-page_count_iff size total page h =
    let e : size * (total / size) + total % size ≡ total = div-add-mod total size in
    let r : total % size < size = omega arith in
    (
      λ p. omega (arith, lt-mul_of_lt size (total / size) (total % size) page p h),
      λ p. lt_of_lt-mul size (total / size) (total % size) page r (omega arith),
    )

forward_enabled :
    (size total page : ℕ)
    → 0 < size
    → forward_disabled size (some total) page ≡ false
    → page + 1 < page_count size total
unfolding forward_disabled page_start
forward_enabled size total page h e = (lt-page_count_iff size total (page + 1) h).1 (ground arith)

disabled_on_last :
    (size total page : ℕ)
    → 0 < size
    → forward_disabled size (some total) page ≡ true
    → page_count size total ≤ page + 1
unfolding forward_disabled page_start
disabled_on_last size total page h e = elim (dec_lt (page + 1) (page_count size total)) [
  | yes p ↦ let q = (lt-page_count_iff size total (page + 1) h).0 p in absurd (ground arith)
  | no p ↦ omega arith
]

-- The buttons to the next and to the last page are disabled exactly where no page follows.
pub forward_disabled_iff :
    (size total page : ℕ)
    → 0 < size
    → (forward_disabled size (some total) page ≡ true) ↔ (page_count size total ≤ page + 1)
forward_disabled_iff size total page h = (
  disabled_on_last size total page h,
  λ p. elim (Bool-cases (forward_disabled size (some total) page)) [
    | inl e ↦ e
    | inr e ↦ absurd (omega (arith, forward_enabled size total page h e))
  ],
)

-- The pages that the buttons lead to, from the first.
pub data Visited (size total : ℕ) : ℕ → Type 0 where
  start : Visited size total 0
  click :
      {page page' : ℕ} (b : PageButton)
      → Visited size total page
      → press size (some total) page b ≡ some page'
      → Visited size total page'

pub press-lt :
    (size total page page' : ℕ) (b : PageButton)
    → 0 < size
    → page < page_count size total
    → press size (some total) page b ≡ some page'
    → page' < page_count size total
unfolding press back_disabled
press-lt size total page page' first h l e = ground arith
press-lt size total page page' previous h l e = ground arith
press-lt size total page page' next h l e = ground (arith, forward_enabled size total page h)
press-lt size total page page' last h l e = ground arith

Visited-lt :
    (size total page : ℕ)
    → 0 < size
    → 0 < total
    → Visited size total page
    → page < page_count size total
Visited-lt size total _ h t start = (lt-page_count_iff size total 0 h).1 (ground arith)
Visited-lt size total page' h t (click {page} b v e) =
    press-lt size total page page' b h (Visited-lt size total page h t v) e

-- From the first page of a table that has rows the enabled buttons lead to existing pages alone:
-- the range in the label is not empty, and ends at the last item at most.
pub Visited-range :
    (size total page : ℕ)
    → 0 < size
    → 0 < total
    → Visited size total page
    → (page < page_count size total)
      × ((end : ℕ) × (page_end size (some total) page ≡ some end)
          × (page_start size page ≤ end)
          × (end ≤ total))
unfolding page_end page_start
Visited-range size total page h t v =
    let l = Visited-lt size total page h t v in
    let s = (lt-page_count_iff size total page h).0 l in
    (l, (min (size * page + 1 + size - 1) total, refl, omega arith, omega arith))

-- Where a page follows, its first item is the one behind the last item of this page.
pub page_start-suc :
    (size total page : ℕ)
    → 0 < size
    → forward_disabled size (some total) page ≡ false
    → page_end size (some total) page ≡ some (page_start size (page + 1) - 1)
unfolding page_end page_start forward_disabled
page_start-suc size total page h e = ground arith
