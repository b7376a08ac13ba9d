-- ===== src/Results/Refined.antt =====
-- The page refines the selection as a predicate.
use dataops_testgen.Base.{
  ℕ, ◌≡◌, refl, sym, ◌∙◌, ap, Bool, true, false, not, ◌&&◌, ◌||◌, List, [], ◌∷◌, Bool-cases, inl,
  inr, if◌then◌else◌, arith, String, bool_ne, ◌==◌,
}
use dataops_testgen.Results.{
  FilterChange, Item, item_ids, Page, clear_selection, derive_rows, on_filter_change, PageEvent,
  set_multi, set_all, pick, arrive, turn, filter_by, handle_event, page_after, after_events,
}
use dataops_testgen.Results.Sets.{has}
use dataops_testgen.Results.Consistent.{after_multi_kept, after_multi_left, IsConsistent, is_bare}
use dataops_testgen.Results.Runs.{page_after-IsConsistent, all_after}
use dataops_testgen.Results.Chosen.{view, adding}
use dataops_testgen.Results.Settled.{derive_rows-IsDerived, IsDerived, view-settle, view-switch}
use mathlib.Core.Path.{subst}
use dataops_testgen.Results.Chosen.{choose, IsBox, Replays}
use dataops_testgen.Results.Box.{is_box}
use dataops_testgen.Results.Kept.{
  IsKept, all_chosen, set_all-IsKept, turn-IsKept, picked_chosen, pick-IsKept,
}

-- An action takes the header's box to this state, and the selection to what it makes of it.
abbrev pub IsStep : PageEvent → Page → Bool → Type 0
IsStep a s b =
    ((page_after a s).select_all ≡ b)
    × (view (page_after a s) ≡ choose a (page_after a s).select_all (view s))

seen_after :
    (a : PageEvent) (s : Page) (b : Bool)
    → ((choose a b (view s)).all ≡ b)
    → view (page_after a s) ≡ choose a b (view s)
    → IsStep a s b
unfolding view
seen_after a s b same e =
    let box : (page_after a s).select_all ≡ b = ap (λ c. c.all) e ∙ same in
    (box, e ∙ ap (λ x. choose a x (view s)) (sym box))

view-set_all : (b : Bool) (s : Page) → IsStep (set_all b) s (if s.multi then b else s.select_all)
unfolding view
view-set_all b s =
    let t : Page = handle_event (set_all b) s in
    let all : Bool = if s.multi then b else s.select_all in
    let k : IsKept s t (all_chosen b s) all = set_all-IsKept b s in
    seen_after (set_all b) s all refl (
      view-settle s t s.items s.total s.page_size (all_chosen b s) (choose (set_all b) all (view s))
        k.0 refl refl refl refl k.1 (λ id. rw k.1 (ground arith)))

view-filter_by : (c : FilterChange) (s : Page) → IsStep (filter_by c) s s.select_all
unfolding view on_filter_change
view-filter_by c s =
    let t : Page = handle_event (filter_by c) s in
    seen_after (filter_by c) s s.select_all refl (
      view-settle s t s.items s.total s.page_size (λ id. has id s.restore)
        (choose (filter_by c) s.select_all (view s))
        (record {
          items_eq = refl;
          total_eq = refl;
          size_eq = refl;
          multi_eq = refl;
          chosen_eq = λ id. refl;
        })
        refl refl refl refl refl (λ id. ground arith))

view-turn : (idx size : ℕ) (s : Page) → IsStep (turn idx size) s s.select_all
unfolding view
view-turn idx size s =
    let t : Page = handle_event (turn idx size) s in
    let f : String → Bool = λ id. (size == s.page_size || s.select_all) && has id s.restore in
    let k : IsKept s t f s.select_all = turn-IsKept idx size s in
    seen_after (turn idx size) s s.select_all refl (
      view-settle s t s.items s.total s.page_size f (choose (turn idx size) s.select_all (view s))
        k.0 refl refl refl refl k.1 (λ id. rw k.1 (ground arith)))

view-arrive :
    (items : List Item) (total size : ℕ) (s : Page)
    → IsStep (arrive items total size) s s.select_all
unfolding view
view-arrive items total size s =
    let u : Page = record s { items = items; total = total; page_size = size } in
    let t : Page = derive_rows u in
    let d : IsDerived (s.multi && s.select_all) u t = derive_rows-IsDerived u in
    let f : String → Bool =
      adding (s.multi && s.select_all) (item_ids items) (λ id. has id s.restore) in
    seen_after (arrive items total size) s s.select_all refl (
      view-settle s t items total size f (choose (arrive items total size) s.select_all (view s))
        (record {
          items_eq = d.items_eq;
          total_eq = d.total_eq;
          size_eq = d.size_eq;
          multi_eq = d.multi_eq;
          chosen_eq = d.chosen_eq;
        })
        refl refl refl refl d.all_eq (λ id. rw d.all_eq (ground arith)))

added_alike :
    (old now multi x y : Bool)
    → (if bool_ne old now && (multi && now) then x || y else y)
      ≡ (if multi && now && not old then x || y else y)
added_alike old now multi x y = ground arith

pub view-pick :
    (idxs : List ℕ) (s : Page)
    → IsStep (pick idxs) s (if s.multi then all_after idxs s else s.select_all)
unfolding view
view-pick idxs s =
    let t : Page = handle_event (pick idxs) s in
    let all : Bool = if s.multi then all_after idxs s else s.select_all in
    let k : IsKept s t (picked_chosen idxs s) all = pick-IsKept idxs s in
    seen_after (pick idxs) s all refl (
      view-settle s t s.items s.total s.page_size (picked_chosen idxs s)
        (choose (pick idxs) all (view s)) k.0 refl refl refl refl k.1
        (λ id. rw k.1 (
          added_alike s.select_all all s.multi (has id (item_ids s.items))
            (picked_chosen idxs s id))))

bare_chosen : (s : Page) (id : String) → IsConsistent s → s.multi ≡ false → has id s.restore ≡ false
unfolding has
bare_chosen s id h m = rw (is_bare s h m).0 refl

set_same :
    (b : Bool) (s : Page)
    → IsConsistent s
    → s.multi ≡ b
    → (id : String) → has id s.restore ≡ (b && has id s.restore)
set_same true s h m id = refl
set_same false s h m id = bare_chosen s id h m

view-set_same :
    (b : Bool) (s : Page)
    → IsConsistent s
    → s.multi ≡ b
    → view (page_after (set_multi b) s) ≡ choose (set_multi b) s.select_all (view s)
unfolding view
view-set_same b s h m =
    view-settle s (record s { multi = b }) s.items s.total s.page_size (λ id. has id s.restore)
      (choose (set_multi b) s.select_all (view s))
      (record {
        items_eq = refl;
        total_eq = refl;
        size_eq = refl;
        multi_eq = sym m;
        chosen_eq = λ id. refl;
      })
      refl refl refl m refl (λ id. ground arith ∙ set_same b s h m id)

view-enter :
    (s : Page)
    → IsConsistent s
    → s.multi ≡ false
    → view (page_after (set_multi true) s) ≡ choose (set_multi true) false (view s)
unfolding view
view-enter s h m =
    let t : Page = record s { multi = true } in
    rw (after_multi_kept s t (ground arith)) (
      view-switch s t (choose (set_multi true) false (view s)) (is_bare s h m).1 refl refl refl refl
        (is_bare s h m).1 (λ id. refl))

view-leave :
    (s : Page)
    → s.multi ≡ true
    → view (page_after (set_multi false) s) ≡ choose (set_multi false) false (view s)
unfolding view has
view-leave s m =
    let t : Page = record s { multi = false } in
    rw (after_multi_left s t (rw m refl) refl) (
      view-switch s (clear_selection t) (choose (set_multi false) false (view s)) refl refl refl
        refl refl refl (λ id. refl))

bare_all : (s : Page) → IsConsistent s → s.multi ≡ false → s.select_all ≡ false
bare_all s h m = (is_bare s h m).1

view-set_multi :
    (b : Bool) (s : Page) → IsConsistent s → IsStep (set_multi b) s (b && (s.multi && s.select_all))
view-set_multi true s h = elim (Bool-cases s.multi) [
  | inl m ↦
      let (box, e) = seen_after (set_multi true) s s.select_all refl (view-set_same true s h m) in
      (box ∙ rw m refl, e)
  | inr m ↦
      let (box, e) = seen_after (set_multi true) s false refl (view-enter s h m) in
      (box ∙ rw m refl, e)
]
view-set_multi false s h = elim (Bool-cases s.multi) [
  | inl m ↦ seen_after (set_multi false) s false refl (view-leave s m)
  | inr m ↦
      let (box, e) = seen_after (set_multi false) s s.select_all refl (view-set_same false s h m) in
      (box ∙ bare_all s h m, e)
]

-- The header's box after an action, and the selection.
refines_step :
    (a : PageEvent) (s : Page)
    → IsConsistent s
    → IsBox a (view s) (page_after a s).select_all
      × (view (page_after a s) ≡ choose a (page_after a s).select_all (view s))
unfolding view
refines_step (set_multi b) s h = view-set_multi b s h
refines_step (set_all b) s h = view-set_all b s
refines_step (pick idxs) s h =
    let (box, e) = view-pick idxs s in
    ((λ m. box ∙ simp m, λ m. is_box idxs s h m (box ∙ simp m)), e)
refines_step (arrive items total size) s h = view-arrive items total size s
refines_step (turn idx size) s h = view-turn idx size s
refines_step (filter_by c) s h = view-filter_by c s

-- From a page whose copies of the selection agree, after any actions the ids of the page, its size,
-- the number of rows, the two modes and the ids that are selected are those that the actions give on
-- a predicate of ids: a report of the table decides on the page's ids only; it ticks the header's box
-- exactly if this was ticked and each row of the page is reported, or if there are rows and as many
-- ids are selected; the box adds the ids of the page and of each page that comes; and a switch to the
-- single selection or another page size without the box selects none.
pub run_refines :
    (actions : List PageEvent) (s : Page)
    → IsConsistent s
    → Replays actions (view s) (view (after_events actions s))
unfolding after_events
run_refines [] s h = refl
run_refines (a ∷ actions) s h =
    let t : Page = page_after a s in
    let (box, e) = refines_step a s h in
    (
      t.select_all,
      box,
      subst (λ c. Replays actions c (view (after_events actions t))) e
          (run_refines actions t (page_after-IsConsistent a s h)),
    )
