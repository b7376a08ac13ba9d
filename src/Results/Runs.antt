-- ===== src/Results/Runs.antt =====
-- The selection over runs of the page.
use mathlib.Core.Path.{subst}
use dataops_testgen.Base.{
  ℕ, ◌≡◌, refl, sym, ◌∙◌, ap, Bool, true, false, not, ◌&&◌, ◌||◌, Option, none, some, List, [], ◌∷◌,
  Bool-cases, inl, inr, if◌then◌else◌, arith, String, length, bool_ne, keep_if, split_if, ltb, leb,
  ◌==◌,
}
use dataops_testgen.Results.{
  Item, item_ids, Filters, open_page, Message, change_filter, Page, recount, clear_selection,
  on_select_all, derive_rows, page_ids, take_over, active_ids, leave_all, enter_all, pick_rows,
  row_at, pick_row, is_row, on_rows_selected, on_filter_change, on_page_change, PageEvent,
  set_multi, set_all, pick, arrive, turn, filter_by, handle_event, page_after, after_events,
}
use dataops_testgen.Results.Sets.{has, is_ticked, retick}
use dataops_testgen.Results.Sets.Boxes.{has_check-untick_all, is_ticked-retick, has_check-retick}
use dataops_testgen.Results.Loops.{has-page_ids, has-take_over, IsUnique-take_over}
use dataops_testgen.Results.Consistent.{
  Counted, IsMade, IsReady, IsConsistent, Counted-clear, all_added, recount-add_items,
  Counted-all_added, IsMade-all_added, derive_rows-IsConsistent, made_ready, bare_ready, is_bare,
  settle-IsConsistent,
}

is_made : (s : Page) → IsConsistent s → s.multi ≡ true → IsMade s
is_made s h m = subst (λ b. IsReady b s) m h.ready

clear-IsConsistent : (s : Page) → IsConsistent s → IsConsistent (clear_selection s)
clear-IsConsistent s h = elim (Bool-cases s.multi) [
  | inl m ↦
      made_ready (clear_selection s) m (Counted-clear s)
        (λ w on. has_check-untick_all w s.checks ∙ is_made s h m w on)
  | inr m ↦ bare_ready (clear_selection s) m (Counted-clear s) (refl, refl)
]

on_select_all-IsConsistent :
    (b : Bool) (s : Page) → s.multi ≡ true → IsConsistent s → IsConsistent (on_select_all b s)
unfolding on_select_all
on_select_all-IsConsistent true s m h =
    let t : Page = record s { select_all = true } in
    subst IsConsistent (sym (recount-add_items t))
      (made_ready (all_added t) m (Counted-all_added t h.agreed) (IsMade-all_added t))
on_select_all-IsConsistent false s m h = clear-IsConsistent s h

-- The selection that the reported rows give, before `selectAll` is looked at.
abbrev pub picked : List ℕ → Page → Page
picked idxs s =
    let page = page_ids s.items [] in
    let active = active_ids s.items idxs [] in
    recount
      (record s { restore = take_over page active s.restore; checks = retick page active s.checks })

pub has-page_ids_nil :
    (w : String) (items : List Item) → has w (page_ids items []) ≡ has w (item_ids items)
unfolding has
has-page_ids_nil w items = has-page_ids w items [] ∙ ground arith

picked_box :
    (idxs : List ℕ) (s : Page) (w : String)
    → IsConsistent s
    → s.multi ≡ true
    → is_ticked w (picked idxs s).checks ≡ has w (picked idxs s).restore
picked_box idxs s w h m =
    let page = page_ids s.items [] in
    let active = active_ids s.items idxs [] in
    is_ticked-retick w page active s.checks ∙ elim (Bool-cases (has w page)) [
      | inl on ↦
          let here : has w (item_ids s.items) ≡ true = sym (has-page_ids_nil w s.items) ∙ on in
          rw (on, is_made s h m w here, has-take_over w page active s.restore, on) refl
      | inr off ↦ rw (off, has-take_over w page active s.restore, off) (h.agreed.boxes w)
    ]

picked-IsConsistent :
    (idxs : List ℕ) (s : Page) → s.multi ≡ true → IsConsistent s → IsConsistent (picked idxs s)
picked-IsConsistent idxs s m h =
    let page = page_ids s.items [] in
    let active = active_ids s.items idxs [] in
    made_ready (picked idxs s) m
      (record {
        unique = IsUnique-take_over page active s.restore h.agreed.unique;
        listed = refl;
        counted = refl;
        boxes = λ w. picked_box idxs s w h m;
      })
      (λ w on. has_check-retick w page active s.checks ∙ is_made s h m w on)

abbrev pub with_all : Bool → Page → Page
with_all b s = record s { select_all = b }

all_set : (b : Bool) (s : Page) → s.multi ≡ true → IsConsistent s → IsConsistent (with_all b s)
all_set b s m h = made_ready (with_all b s) m h.agreed (is_made s h m)

set_if :
    (b v : Bool) (s : Page)
    → (if b then with_all v s else s) ≡ with_all (if b then v else s.select_all) s
set_if true v s = refl
set_if false v s = refl

leave_all_eq :
    (active page : ℕ) (s : Page)
    → leave_all active page s ≡ with_all (s.select_all && not (ltb active page)) s
unfolding leave_all
leave_all_eq active page s =
    set_if (s.select_all && ltb active page) false s ∙ ap (λ b. with_all b s) (ground arith)

enter_all_eq :
    (s : Page)
    → enter_all s ≡ with_all (s.select_all || ltb 0 s.total && leb s.total (length s.ids)) s
unfolding enter_all
enter_all_eq s =
    set_if (not s.select_all && ltb 0 s.total && leb s.total (length s.ids)) true s
    ∙ ap (λ b. with_all b s) (ground arith)

-- Whether all are selected after a report of the rows.
abbrev pub all_after : List ℕ → Page → Bool
all_after idxs s =
    s.select_all && not (ltb (length (active_ids s.items idxs [])) (length (page_ids s.items [])))
    || ltb 0 s.total && leb s.total (length (picked idxs s).restore)

pub pick_rows_eq :
    (idxs : List ℕ) (s : Page) → pick_rows idxs s ≡ with_all (all_after idxs s) (picked idxs s)
unfolding pick_rows
pick_rows_eq idxs s =
    let active : ℕ = length (active_ids s.items idxs []) in
    let page : ℕ = length (page_ids s.items []) in
    enter_all_eq (leave_all active page (picked idxs s))
    ∙ ap (λ t. with_all (t.select_all || ltb 0 t.total && leb t.total (length t.ids)) t)
        (leave_all_eq active page (picked idxs s))

pick_rows-IsConsistent :
    (idxs : List ℕ) (s : Page) → s.multi ≡ true → IsConsistent s → IsConsistent (pick_rows idxs s)
pick_rows-IsConsistent idxs s m h =
    subst IsConsistent (sym (pick_rows_eq idxs s))
      (all_set (all_after idxs s) (picked idxs s) m (picked-IsConsistent idxs s m h))

row_set :
    (row : Option String) (f : Filters) (s : Page)
    → IsConsistent s
    → IsConsistent (record s { row = row; filters = f })
row_set row f s h =
    let t : Page = record s { row = row; filters = f } in
    elim (Bool-cases s.multi) [
      | inl m ↦ made_ready t m h.agreed (is_made s h m)
      | inr m ↦ bare_ready t m h.agreed (is_bare s h m)
    ]

pick_row-IsConsistent :
    (r : Option Item) (s : Page) → IsConsistent s → IsConsistent (pick_row r s).0
pick_row-IsConsistent none s h = h
pick_row-IsConsistent (some r) s h = elim (Bool-cases (is_row s.row r.id)) [
  | inl e ↦ rw e h
  | inr e ↦ rw e (row_set (some r.id) s.filters s h)
]

on_rows_selected-IsConsistent :
    (idxs : List ℕ) (s : Page) → IsConsistent s → IsConsistent (on_rows_selected idxs s).0
unfolding on_rows_selected
on_rows_selected-IsConsistent idxs s h =
    split_if {A = Page × Option Message} (λ r. IsConsistent r.0) s.multi
      (λ m. pick_rows-IsConsistent idxs s m h)
      (λ m. pick_row-IsConsistent (row_at s.items idxs) s h)

on_page_change-IsConsistent :
    (idx size : ℕ) (s : Page) → IsConsistent s → IsConsistent (on_page_change idx size s).0
unfolding on_page_change
on_page_change-IsConsistent idx size s h = elim (Bool-cases (size == s.page_size)) [
  | inl e ↦ rw e h
  | inr e ↦ rw e (keep_if IsConsistent s.select_all h (clear-IsConsistent s h))
]

arrive-IsConsistent :
    (items : List Item) (total size : ℕ) (s : Page)
    → IsConsistent s
    → IsConsistent (derive_rows (record s { items = items; total = total; page_size = size }))
arrive-IsConsistent items total size s h =
    derive_rows-IsConsistent (record s { items = items; total = total; page_size = size }) h.agreed
      (is_bare s h)

set_all-IsConsistent :
    (b : Bool) (s : Page) → IsConsistent s → IsConsistent (handle_event (set_all b) s)
set_all-IsConsistent b s h =
    split_if IsConsistent s.multi (λ m. on_select_all-IsConsistent b s m h) (λ m. h)

-- What a handler leaves; a switch of the multi-selection waits for the derives.
IsLeft : Page → Page → Type 0
IsLeft s t = Counted t × (bool_ne s.multi t.multi ≡ false → IsConsistent t)

left : (s t : Page) → IsConsistent t → IsLeft s t
unfolding IsLeft
left s t h = (h.agreed, λ same. h)

set_multi-IsLeft : (b : Bool) (s : Page) → IsConsistent s → IsLeft s (record s { multi = b })
unfolding IsLeft
set_multi-IsLeft b s h =
    (h.agreed, λ same. subst (λ c. IsConsistent (record s { multi = c })) (ground arith) h)

handle_event-IsLeft : (a : PageEvent) (s : Page) → IsConsistent s → IsLeft s (handle_event a s)
unfolding on_filter_change
handle_event-IsLeft (set_multi b) s h = set_multi-IsLeft b s h
handle_event-IsLeft (set_all b) s h =
    left s (handle_event (set_all b) s) (set_all-IsConsistent b s h)
handle_event-IsLeft (pick idxs) s h =
    left s (handle_event (pick idxs) s) (on_rows_selected-IsConsistent idxs s h)
handle_event-IsLeft (arrive items total size) s h =
    left s (handle_event (arrive items total size) s) (arrive-IsConsistent items total size s h)
handle_event-IsLeft (turn idx size) s h =
    left s (handle_event (turn idx size) s) (on_page_change-IsConsistent idx size s h)
handle_event-IsLeft (filter_by c) s h =
    left s (handle_event (filter_by c) s) (row_set none (change_filter c s.filters) s h)

pub page_after-IsConsistent :
    (a : PageEvent) (s : Page) → IsConsistent s → IsConsistent (page_after a s)
unfolding IsLeft
page_after-IsConsistent a s h =
    let l : IsLeft s (handle_event a s) = handle_event-IsLeft a s h in
    settle-IsConsistent s (handle_event a s) l.0 l.1

pub after_events-IsConsistent :
    (actions : List PageEvent) (s : Page) → IsConsistent s → IsConsistent (after_events actions s)
unfolding after_events
after_events-IsConsistent [] s h = h
after_events-IsConsistent (a ∷ actions) s h =
    after_events-IsConsistent actions (page_after a s) (page_after-IsConsistent a s h)

pub open_page-IsConsistent :
    (items : List Item) (total size : ℕ) (filters : Filters) (row : Option String)
    → IsConsistent (open_page items total size filters row)
unfolding open_page has is_ticked
open_page-IsConsistent items total size filters row = record {
  agreed = record { unique = tt; listed = refl; counted = refl; boxes = λ w. refl };
  ready = (refl, refl);
}

-- After any actions on the page as it opens, each id stands once in the Set, the list of ids and the
-- counter follow it, the boxes that are ticked are those of its ids, and in the multi-selection each
-- row has its box; in the single selection nothing is in the Set and `selectAll` is off.
pub after_events-open_page :
    (actions : List PageEvent) (items : List Item) (total size : ℕ) (filters : Filters)
    (row : Option String)
    → IsConsistent (after_events actions (open_page items total size filters row))
after_events-open_page actions items total size filters row =
    after_events-IsConsistent actions (open_page items total size filters row)
      (open_page-IsConsistent items total size filters row)
