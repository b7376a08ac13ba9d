-- ===== src/Results/Kept.antt =====
-- What each handler leaves of the selection.
use mathlib.Core.Path.{subst}
use dataops_testgen.Base.{
  ℕ, ◌≡◌, refl, sym, ◌∙◌, Bool, true, false, ◌&&◌, ◌||◌, Option, none, some, List, [],
  if◌then◌else◌, arith, String, split_if, ◌==◌,
}
use dataops_testgen.Results.{
  Message, Item, item_ids, Page, clear_selection, on_select_all, page_ids, active_ids, pick_rows,
  row_at, pick_row, is_row, on_rows_selected, on_page_change, set_all, pick, turn, handle_event,
}
use dataops_testgen.Results.Sets.{has}
use dataops_testgen.Results.Loops.{has-page_ids, has-take_over}
use dataops_testgen.Results.Consistent.{recount-add_items}
use dataops_testgen.Results.Runs.{picked, pick_rows_eq, all_after}
use dataops_testgen.Results.Chosen.{at_one}
use dataops_testgen.Results.Settled.{IsHandled, has-active_ids}

abbrev pub IsKept : (s t : Page) → (String → Bool) → Bool → Type 0
IsKept s t f all = IsHandled s t s.items s.total s.page_size f × (t.select_all ≡ all)

pub kept :
    (s : Page) (f : String → Bool)
    → ((id : String) → has id s.restore ≡ f id)
    → IsKept s s f s.select_all
kept s f e = (
  record { items_eq = refl; total_eq = refl; size_eq = refl; multi_eq = refl; chosen_eq = e },
  refl,
)

pub recast :
    (s t : Page) {f : String → Bool} (g : String → Bool) {b : Bool} (c : Bool)
    → IsKept s t f b
    → ((id : String) → f id ≡ g id)
    → b ≡ c
    → IsKept s t g c
recast s t g c k e a = (
  record {
    items_eq = k.0.items_eq;
    total_eq = k.0.total_eq;
    size_eq = k.0.size_eq;
    multi_eq = k.0.multi_eq;
    chosen_eq = λ id. k.0.chosen_eq id ∙ e id;
  },
  k.1 ∙ a,
)

pub cleared : (s : Page) → IsKept s (clear_selection s) (λ id. false) false
unfolding has
cleared s = (
  record {
    items_eq = refl;
    total_eq = refl;
    size_eq = refl;
    multi_eq = refl;
    chosen_eq = λ id. refl;
  },
  refl,
)

pub on_select_all-IsKept :
    (b : Bool) (s : Page)
    → IsKept s (on_select_all b s) (λ id. b && (has id (item_ids s.items) || has id s.restore)) b
unfolding on_select_all
on_select_all-IsKept true s =
    let t : Page = record s { select_all = true } in
    subst (λ u. IsKept s u (λ id. has id (item_ids s.items) || has id s.restore) true)
      (sym (recount-add_items t))
      (
        record {
          items_eq = refl;
          total_eq = refl;
          size_eq = refl;
          multi_eq = refl;
          chosen_eq = λ id. has-page_ids id s.items s.restore;
        },
        refl,
      )
on_select_all-IsKept false s = (
  record {
    items_eq = refl;
    total_eq = refl;
    size_eq = refl;
    multi_eq = refl;
    chosen_eq = λ id. (unfold has in refl);
  },
  refl,
)

abbrev pub all_chosen : Bool → Page → String → Bool
all_chosen b s id =
    if s.multi then b && (has id (item_ids s.items) || has id s.restore) else has id s.restore

pub set_all-IsKept :
    (b : Bool) (s : Page)
    → IsKept s (handle_event (set_all b) s) (all_chosen b s) (if s.multi then b else s.select_all)
set_all-IsKept b s =
    let all : Bool = if s.multi then b else s.select_all in
    split_if (λ u. IsKept s u (all_chosen b s) all) s.multi
      (λ m.
        recast s (on_select_all b s) (all_chosen b s) all (on_select_all-IsKept b s) (λ id. simp m)
          (simp m))
      (λ m.
        recast s s (all_chosen b s) all (kept s (λ id. has id s.restore) (λ id. refl))
          (λ id. simp m) (simp m))

pub turn-IsKept :
    (idx size : ℕ) (s : Page)
    → IsKept s
        (handle_event (turn idx size) s)
        (λ id. (size == s.page_size || s.select_all) && has id s.restore)
        s.select_all
unfolding on_page_change
turn-IsKept idx size s =
    let f : String → Bool = λ id. (size == s.page_size || s.select_all) && has id s.restore in
    let same : IsKept s s (λ id. has id s.restore) s.select_all =
      kept s (λ id. has id s.restore) (λ id. refl) in
    split_if {A = Page × Option Message} (λ r. IsKept s r.0 f s.select_all) (size == s.page_size)
      (λ e. recast s s f s.select_all same (λ id. ground arith) refl)
      (λ e.
        split_if (λ u. IsKept s u f s.select_all) s.select_all
          (λ a. recast s s f s.select_all same (λ id. ground arith) refl)
          (λ a.
            recast s (clear_selection s) f s.select_all (cleared s) (λ id. ground arith) (sym a)))

pub row_only :
    (row : Option String) (s : Page)
    → IsKept s (record s { row = row }) (λ id. has id s.restore) s.select_all
row_only row s = (
  record {
    items_eq = refl;
    total_eq = refl;
    size_eq = refl;
    multi_eq = refl;
    chosen_eq = λ id. refl;
  },
  refl,
)

pub pick_row-IsKept :
    (r : Option Item) (s : Page) → IsKept s (pick_row r s).0 (λ id. has id s.restore) s.select_all
pick_row-IsKept none s = kept s (λ id. has id s.restore) (λ id. refl)
pick_row-IsKept (some r) s =
    split_if {A = Page × Option Message} (λ u. IsKept s u.0 (λ id. has id s.restore) s.select_all)
      (is_row s.row r.id) (λ e. kept s (λ id. has id s.restore) (λ id. refl))
      (λ e. row_only (some r.id) s)

abbrev pub picked_chosen : List ℕ → Page → String → Bool
picked_chosen idxs s id =
    if s.multi && has id (item_ids s.items)
    then at_one (item_ids s.items) idxs id
    else has id s.restore

pub chosen-picked :
    (idxs : List ℕ) (s : Page) (id : String)
    → has id (picked idxs s).restore
      ≡ (if has id (item_ids s.items) then at_one (item_ids s.items) idxs id else has id s.restore)
unfolding has
chosen-picked idxs s id =
    has-take_over id (page_ids s.items []) (active_ids s.items idxs []) s.restore
    ∙ rw (has-page_ids id s.items [], has-active_ids id s.items idxs []) (ground arith)

pub pick_rows-IsKept :
    (idxs : List ℕ) (s : Page)
    → IsKept s
        (pick_rows idxs s)
        (λ id.
          if has id (item_ids s.items) then at_one (item_ids s.items) idxs id else has id s.restore)
        (all_after idxs s)
pick_rows-IsKept idxs s = rw (pick_rows_eq idxs s) (
  record {
    items_eq = refl;
    total_eq = refl;
    size_eq = refl;
    multi_eq = refl;
    chosen_eq = chosen-picked idxs s;
  },
  refl,
)

pub pick-IsKept :
    (idxs : List ℕ) (s : Page)
    → IsKept s
        (handle_event (pick idxs) s)
        (picked_chosen idxs s)
        (if s.multi then all_after idxs s else s.select_all)
unfolding on_rows_selected
pick-IsKept idxs s =
    let all : Bool = if s.multi then all_after idxs s else s.select_all in
    split_if {A = Page × Option Message} (λ r. IsKept s r.0 (picked_chosen idxs s) all) s.multi
      (λ m.
        recast s (pick_rows idxs s) (picked_chosen idxs s) all (pick_rows-IsKept idxs s)
          (λ id. simp m) (simp m))
      (λ m.
        recast s (pick_row (row_at s.items idxs) s).0 (picked_chosen idxs s) all
          (pick_row-IsKept (row_at s.items idxs) s) (λ id. simp m) (simp m))
