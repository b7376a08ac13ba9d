-- ===== src/Table/Sorting.antt =====
-- What a click on a sortable header does to the order of each column.
use dataops_testgen.Base.{
  ◌≡◌, refl, ◌∙◌, ap, String, not, Option, none, some, List, [], ◌∷◌, ◌++◌, map, find, keep, str_eq,
  str_eq_iff, str_eq_refl, if◌then◌else◌, arith, Bool-cases, Option-cases, inl, inr, ◌⊎◌,
}
use dataops_testgen.Table.{Order, asc, desc, SortColumn, is_field, sort_columns}
use mathlib.Core.Option

-- The order in which a column is sorted.
abbrev pub order_of : String → List SortColumn → Option Order
order_of name cols = Option.map (λ c. c.order) (find (is_field name) cols)

-- Unsorted, descending, ascending, unsorted.
abbrev pub next_order : Option Order → Option Order
next_order none = some desc
next_order (some desc) = some asc
next_order (some asc) = none

order_of-append :
    (m n : String) (cols : List SortColumn)
    → find (is_field n) cols ≡ none
    → order_of m (cols ++ record { field = n; order = desc } ∷ [])
      ≡ (if str_eq m n then some desc else order_of m cols)
order_of-append m n [] h = ground (arith, str_eq_iff n m, str_eq_iff m n)
order_of-append m n (c ∷ cols) h =
    ground
      (arith, str_eq_iff c.field m, str_eq_iff c.field n, str_eq_iff m n, order_of-append m n cols)

abbrev mark : String → SortColumn → SortColumn
mark n c = if is_field n c then record c { order = asc } else c

find-mark :
    (m n : String) (cols : List SortColumn)
    → order_of m (map (mark n) cols)
      ≡ (if str_eq m n then Option.map (λ o. asc) (order_of m cols) else order_of m cols)
find-mark m n [] = ground arith
find-mark m n (c ∷ cols) = elim (Bool-cases (str_eq c.field n)) [
  | inl e ↦ elim (Bool-cases (str_eq c.field m)) [
    | inl d ↦ rw (e, d) (ground (arith, str_eq_iff c.field m, str_eq_iff c.field n, str_eq_iff m n))
    | inr d ↦ rw (e, d) (find-mark m n cols)
  ]
  | inr e ↦ elim (Bool-cases (str_eq c.field m)) [
    | inl d ↦ rw (e, d) (ground (arith, str_eq_iff c.field m, str_eq_iff c.field n, str_eq_iff m n))
    | inr d ↦ rw (e, d) (find-mark m n cols)
  ]
]

order_of-drop :
    (m n : String) (cols : List SortColumn)
    → order_of m (keep (λ c. not (is_field n c)) cols)
      ≡ (if str_eq m n then none else order_of m cols)
order_of-drop m n [] = ground arith
order_of-drop m n (c ∷ cols) = elim (Bool-cases (str_eq c.field n)) [
  | inl e ↦ rw e (
      order_of-drop m n cols
      ∙ ground (arith, str_eq_iff c.field m, str_eq_iff c.field n, str_eq_iff m n))
  | inr e ↦ elim (Bool-cases (str_eq c.field m)) [
    | inl d ↦ rw (e, d) (ground (arith, str_eq_iff c.field m, str_eq_iff c.field n, str_eq_iff m n))
    | inr d ↦ rw (e, d) (order_of-drop m n cols)
  ]
]

Order-cases : (o : Order) → (o ≡ asc) ⊎ (o ≡ desc)
Order-cases asc = inl refl
Order-cases desc = inr refl

marked :
    (cols : List SortColumn) (n m : String) (c : SortColumn)
    → find (is_field n) cols ≡ some c
    → (if str_eq m n then Option.map (λ o. asc) (order_of m cols) else order_of m cols)
      ≡ (if str_eq m n then some asc else order_of m cols)
marked cols n m c e = elim (Bool-cases (str_eq m n)) [
  | inl d ↦ let q : m ≡ n = (str_eq_iff m n).0 d in rw (d, q, e)
  | inr d ↦ rw d
]

-- A click on the header `n` takes the order of this column from unsorted to descending, then to
-- ascending and back to unsorted, and leaves the orders of the other columns as they are.
pub order_of-sort_columns :
    (cols : List SortColumn) (n m : String)
    → order_of m (sort_columns cols n)
      ≡ (if str_eq m n then next_order (order_of n cols) else order_of m cols)
unfolding sort_columns
order_of-sort_columns cols n m = elim (Option-cases (find (is_field n) cols)) [
  | inl e ↦ rw e (order_of-append m n cols e)
  | inr (c, e) ↦ elim (Order-cases c.order) [
    | inl o ↦ rw (e, o) (order_of-drop m n cols)
    | inr o ↦ rw (e, o) (find-mark m n cols ∙ marked cols n m c e)
  ]
]

abbrev added : Order → List SortColumn → String → List SortColumn
added o cols n = cols ++ record { field = n; order = o } ∷ []

module _ (n : String) where
  find-added :
      (o : Order) (cols : List SortColumn)
      → find (is_field n) cols ≡ none
      → find (is_field n) (added o cols n) ≡ some (record { field = n; order = o })
  find-added o [] h = rw (str_eq_refl n)
  find-added o (c ∷ cols) h = elim (Bool-cases (str_eq c.field n)) [
    | inl e ↦ cc (rw e at h)
    | inr e ↦ rw e (find-added o cols (rw e at h))
  ]

  mark-added :
      (cols : List SortColumn)
      → find (is_field n) cols ≡ none
      → map (mark n) (added desc cols n) ≡ added asc cols n
  mark-added [] h = rw (str_eq_refl n)
  mark-added (c ∷ cols) h = elim (Bool-cases (str_eq c.field n)) [
    | inl e ↦ cc (rw e at h)
    | inr e ↦ rw e (ap (c ∷◌) (mark-added cols (rw e at h)))
  ]

  drop-added :
      (cols : List SortColumn)
      → find (is_field n) cols ≡ none
      → keep (λ c. not (is_field n c)) (added asc cols n) ≡ cols
  drop-added [] h = rw (str_eq_refl n)
  drop-added (c ∷ cols) h = elim (Bool-cases (str_eq c.field n)) [
    | inl e ↦ cc (rw e at h)
    | inr e ↦ rw e (ap (c ∷◌) (drop-added cols (rw e at h)))
  ]

-- Three clicks on a header by which nothing was sorted leave the sorted columns as they were.
pub sort_columns_thrice :
    (cols : List SortColumn) (n : String)
    → find (is_field n) cols ≡ none
    → sort_columns (sort_columns (sort_columns cols n) n) n ≡ cols
unfolding sort_columns
sort_columns_thrice cols n h =
    rw (h, find-added n desc cols h, mark-added n cols h, find-added n asc cols h)
      (drop-added n cols h)
