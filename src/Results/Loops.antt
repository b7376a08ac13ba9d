-- ===== src/Results/Loops.antt =====
-- The loops over the items and the ids of the page.
use dataops_testgen.Base.{
  ◌≡◌, refl, sym, ◌∙◌, true, false, ◌||◌, List, [], ◌∷◌, Bool-cases, inl, inr, if◌then◌else◌, arith,
  String, str_eq,
}
use dataops_testgen.Results.{Item, item_ids, Page, add_items, page_ids, take_over}
use dataops_testgen.Results.Sets.{has, add_id, delete_id, Checks, has_check, tick_box, is_ticked}
use dataops_testgen.Results.Sets.Laws.{
  has-same, has-add_id, has-delete_id, IsUnique, IsUnique-add_id, IsUnique-delete_id,
}
use dataops_testgen.Results.Sets.Boxes.{has_check-tick_box, is_ticked-tick_box}

-- The loop over the items, one state at a time.
abbrev pub tick_items : List Item → Checks → Checks
tick_items [] checks = checks
tick_items (r ∷ items) checks = tick_items items (tick_box r.id true checks)

pub add_items_eq :
    (items : List Item) (s : Page)
    → add_items items s
      ≡ record s { checks = tick_items items s.checks; restore = page_ids items s.restore }
unfolding add_items page_ids
add_items_eq [] s = refl
add_items_eq (r ∷ items) s =
    add_items_eq items
      (record s { checks = tick_box r.id true s.checks; restore = add_id r.id s.restore })

pub has-page_ids :
    (w : String) (items : List Item) (set : List String)
    → has w (page_ids items set) ≡ (has w (item_ids items) || has w set)
unfolding page_ids has
has-page_ids w [] set = refl
has-page_ids w (r ∷ items) set =
    rw (has-page_ids w items (add_id r.id set), has-add_id w r.id set) (ground arith)

pub IsUnique-page_ids :
    (items : List Item) (set : List String) → IsUnique set → IsUnique (page_ids items set)
unfolding page_ids
IsUnique-page_ids [] set d = d
IsUnique-page_ids (r ∷ items) set d =
    IsUnique-page_ids items (add_id r.id set) (IsUnique-add_id r.id set d)

pub has_check-tick_items :
    (w : String) (items : List Item) (checks : Checks)
    → has_check w (tick_items items checks) ≡ (has w (item_ids items) || has_check w checks)
unfolding has
has_check-tick_items w [] checks = refl
has_check-tick_items w (r ∷ items) checks =
    rw
      (
        has_check-tick_items w items (tick_box r.id true checks),
        has_check-tick_box w r.id true checks,
      )
      (ground arith)

pub is_ticked-tick_items :
    (w : String) (items : List Item) (checks : Checks)
    → is_ticked w (tick_items items checks) ≡ (has w (item_ids items) || is_ticked w checks)
unfolding has
is_ticked-tick_items w [] checks = refl
is_ticked-tick_items w (r ∷ items) checks =
    rw
      (
        is_ticked-tick_items w items (tick_box r.id true checks),
        is_ticked-tick_box w r.id true checks,
      )
      (ground arith)

has-taken :
    (w v : String) (active set : List String)
    → has w (if has v active then add_id v set else delete_id v set)
      ≡ (if str_eq v w then has w active else has w set)
has-taken w v active set = elim (Bool-cases (has v active)) [
  | inl e ↦
      let on : str_eq v w ≡ true → has w active ≡ true = λ q. sym (has-same v w active q) ∙ e in
      rw (e, has-add_id w v set) (ground arith)
  | inr e ↦
      let off : str_eq v w ≡ true → has w active ≡ false = λ q. sym (has-same v w active q) ∙ e in
      rw (e, has-delete_id w v set) (ground arith)
]

pub has-take_over :
    (w : String) (page active set : List String)
    → has w (take_over page active set) ≡ (if has w page then has w active else has w set)
unfolding take_over has
has-take_over w [] active set = refl
has-take_over w (v ∷ page) active set =
    has-take_over w page active (if has v active then add_id v set else delete_id v set)
    ∙ rw (has-taken w v active set) (ground arith)

pub IsUnique-take_over :
    (page active set : List String) → IsUnique set → IsUnique (take_over page active set)
unfolding take_over
IsUnique-take_over [] active set d = d
IsUnique-take_over (v ∷ page) active set d = elim (Bool-cases (has v active)) [
  | inl e ↦ rw e (IsUnique-take_over page active (add_id v set) (IsUnique-add_id v set d))
  | inr e ↦ rw e (IsUnique-take_over page active (delete_id v set) (IsUnique-delete_id v set d))
]
