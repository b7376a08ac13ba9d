-- ===== src/Results/Stale.antt =====
-- Selected ids that are not on the page any more.
use dataops_testgen.Base.{
  Option, none, ℕ, ◌≡◌, ◌≤◌, ◌<◌, refl, sym, ◌∙◌, ap, Bool, true, false, not, ◌||◌, some, List, [],
  ◌∷◌, Bool-cases, inl, inr, if◌then◌else◌, arith, String, split_if, length, keep, bool_ne,
}
use dataops_testgen.Results.{
  Item, item_ids, Page, Message, page_ids, active_ids, take_over, after_all, after_multi, settle,
  derive_rows, on_rows_selected, on_filter_change, filter_by, arrive, pick, handle_event,
  page_after, after_events, FilterChange, change_filter,
}
use dataops_testgen.Results.Dispositions.{on_disposition}
use dataops_testgen.Results.Sets.{has}
use dataops_testgen.Results.Elsewhere.{keep-take_over, length-keep, elsewhere_all}
use dataops_testgen.Results.Consistent.{
  derive_rows-all, derive_rows-none, derive_rows-some, boxed, after_multi_kept,
}
use dataops_testgen.Results.Settled.{settle-IsDerived}
use dataops_testgen.Results.Kept.{IsKept, pick-IsKept, picked_chosen}
use dataops_testgen.Results.Runs.{has-page_ids_nil, pick_rows_eq, picked, all_after}

-- The selected ids of other pages.
abbrev pub elsewhere : Page → List String
elsewhere s = keep (λ id. not (has id (item_ids s.items))) s.restore

elsewhere-picked :
    (idxs : List ℕ) (s : Page) → length (elsewhere s) ≤ length (picked idxs s).restore
elsewhere-picked idxs s =
    let page : List String = page_ids s.items [] in
    let active : List String = active_ids s.items idxs [] in
    let p : String → Bool = λ id. not (has id (item_ids s.items)) in
    let same : keep p (take_over page active s.restore) ≡ elsewhere s =
      keep-take_over p page active s.restore
        (λ id h. ap not (sym (has-page_ids_nil id s.items) ∙ h)) in
    omega (arith, ap (length {0}) same, length-keep p (take_over page active s.restore))

pub select_all-on_rows_selected :
    (idxs : List ℕ) (s : Page)
    → s.multi ≡ true
    → 0 < s.total
    → s.total ≤ length (elsewhere s)
    → (on_rows_selected idxs s).0.select_all ≡ true
unfolding on_rows_selected
select_all-on_rows_selected idxs s m pos most =
    let many : s.total ≤ length (picked idxs s).restore = omega (arith, elsewhere-picked idxs s) in
    let all : all_after idxs s ≡ true = ground arith in
    let k : IsKept s (handle_event (pick idxs) s) (picked_chosen idxs s)
        (if s.multi then all_after idxs s else s.select_all) =
      pick-IsKept idxs s in
    k.1 ∙ simp m all

settle_kept : (s t : Page) → t.multi ≡ s.multi → t.select_all ≡ s.select_all → settle s t ≡ t
unfolding after_all
settle_kept s t m a =
    let same : bool_ne s.multi t.multi ≡ false = ground arith in
    let alike : bool_ne s.select_all t.select_all ≡ false = ground arith in
    rw (after_multi_kept s t (rw same refl), same, alike) refl

filters-derive_rows : (s : Page) → (derive_rows s).filters ≡ s.filters
filters-derive_rows s = elim (Bool-cases s.multi) [
  | inl m ↦ elim (Bool-cases s.select_all) [
    | inl a ↦ rw (derive_rows-all s m a) refl
    | inr a ↦ rw (derive_rows-some s m a) refl
  ]
  | inr m ↦ rw (derive_rows-none s m) refl
]

filters-after_all : (s t : Page) → (after_all s t).filters ≡ t.filters
unfolding after_all
filters-after_all s t =
    split_if {A = Page} (λ u. u.filters ≡ t.filters)
      (bool_ne s.multi t.multi || bool_ne s.select_all t.select_all) (λ e. filters-derive_rows t)
      (λ e. refl)

filters-on_rows_selected :
    (idxs : List ℕ) (s : Page) → s.multi ≡ true → (on_rows_selected idxs s).0.filters ≡ s.filters
unfolding on_rows_selected
filters-on_rows_selected idxs s m =
    split_if {A = Page × Option Message} (λ r. r.0.filters ≡ s.filters) s.multi
      (λ e. ap (λ t. t.filters) (pick_rows_eq idxs s)) (λ off. absurd cc)

-- Where more ids of other pages are selected than rows match, a report turns `selectAll` on.
pick_stuck :
    (idxs : List ℕ) (s : Page)
    → s.multi ≡ true
    → 0 < s.total
    → s.total ≤ length (elsewhere s)
    → ((page_after (pick idxs) s).select_all ≡ true)
      × ((page_after (pick idxs) s).filters ≡ s.filters)
pick_stuck idxs s m pos most =
    let t : Page = handle_event (pick idxs) s in
    let k : IsKept s t (picked_chosen idxs s) (if s.multi then all_after idxs s else s.select_all) =
      pick-IsKept idxs s in
    let same : bool_ne s.multi t.multi ≡ false = rw k.0.multi_eq (ground arith) in
    let plain : after_multi s t ≡ t = after_multi_kept s t (rw same refl) in
    (
      (settle-IsDerived s t k.0.multi_eq).all_eq ∙ select_all-on_rows_selected idxs s m pos most,
      rw plain (filters-after_all s t ∙ filters-on_rows_selected idxs s m),
    )

arrived : List Item → ℕ → ℕ → Page → Page
arrived items total size s = boxed (record s { items = items; total = total; page_size = size })

page_after-arrive :
    (items : List Item) (total size : ℕ) (s : Page)
    → s.multi ≡ true
    → s.select_all ≡ false
    → page_after (arrive items total size) s ≡ arrived items total size s
unfolding arrived
page_after-arrive items total size s m a =
    let u : Page = record s { items = items; total = total; page_size = size } in
    let t : derive_rows u ≡ boxed u = derive_rows-some u m a in
    ap (settle s) t ∙ settle_kept s (boxed u) refl refl

filtered_page : FilterChange → Page → Page
filtered_page c s = record s { filters = change_filter c s.filters; row = none }

page_after-filter_by :
    (c : FilterChange) (s : Page) → page_after (filter_by c) s ≡ filtered_page c s
unfolding filtered_page on_filter_change
page_after-filter_by c s = settle_kept s (filtered_page c s) refl refl

-- The page after a filter and the rows that match it.
narrowed : FilterChange → List Item → ℕ → ℕ → Page → Page
narrowed c items total size s = arrived items total size (filtered_page c s)

page_after-narrowed :
    (c : FilterChange) (items : List Item) (total size : ℕ) (s : Page)
    → s.multi ≡ true
    → s.select_all ≡ false
    → page_after (arrive items total size) (page_after (filter_by c) s)
      ≡ narrowed c items total size s
unfolding narrowed filtered_page
page_after-narrowed c items total size s m a =
    ap (page_after (arrive items total size)) (page_after-filter_by c s)
    ∙ page_after-arrive items total size (filtered_page c s) m a

pick-narrowed :
    (c : FilterChange) (items : List Item) (total size : ℕ) (idxs : List ℕ) (s : Page)
    → s.multi ≡ true
    → ((id : String) → has id s.restore ≡ true → has id (item_ids items) ≡ false)
    → 0 < total
    → total ≤ length s.restore
    → ((page_after (pick idxs) (narrowed c items total size s)).select_all ≡ true)
      × ((page_after (pick idxs) (narrowed c items total size s)).filters
          ≡ change_filter c s.filters)
unfolding narrowed arrived filtered_page
pick-narrowed c items total size idxs s m off pos most =
    pick_stuck idxs (narrowed c items total size s) m pos
      (omega (arith, ap (length {0}) (elsewhere_all items s.restore off)))

-- Where rows are selected one by one, a filter is changed, none of the selected ids is on the page
-- that comes, and at least one and no more rows match than ids are selected, the next report of the
-- table, whatever it is, turns `selectAll` on: a disposition then goes to all that match the new
-- filters.
pub on_disposition-filter_by :
    (c : FilterChange) (items : List Item) (total size : ℕ) (idxs : List ℕ) (status : String)
    (s : Page)
    → s.multi ≡ true
    → s.select_all ≡ false
    → ((id : String) → has id s.restore ≡ true → has id (item_ids items) ≡ false)
    → 0 < total
    → total ≤ length s.restore
    → on_disposition status
        (after_events (filter_by c ∷ arrive items total size ∷ pick idxs ∷ []) s)
      ≡ some (Message.disposition_all (change_filter c s.filters) status)
unfolding after_events on_disposition
on_disposition-filter_by c items total size idxs status s m a off pos most =
    rw (page_after-narrowed c items total size s m a) (
      let p : ((page_after (pick idxs) (narrowed c items total size s)).select_all ≡ true)
          × ((page_after (pick idxs) (narrowed c items total size s)).filters
              ≡ change_filter c s.filters) =
        pick-narrowed c items total size idxs s m off pos most in
      rw (p.0, p.1) refl)
