-- ===== src/Results/Box.antt =====
-- When a report of the table ticks the box of the header.
use dataops_testgen.Base.{
  ℕ, zero, suc, ◌<◌, ◌≤◌, ◌≡◌, sym, ◌∙◌, Bool, true, not, ◌&&◌, ◌||◌, Option, none, some, List, [],
  ◌∷◌, length, get_elem?, ltb, leb, Bool-cases, inl, inr, arith, String, ◌↔◌, ◌⊎◌,
}
use dataops_testgen.Results.{Item, item_ids, Page, add_item, active_ids, page_ids}
use dataops_testgen.Results.Sets.{has}
use dataops_testgen.Results.Sets.Laws.{IsUnique, IsUnique-add_id}
use dataops_testgen.Results.Counts.{
  IsWithin, length-IsWithin, IsWithin-length, AtLeast, AtLeast-iff,
}
use dataops_testgen.Results.Loops.{has-page_ids, IsUnique-page_ids, IsUnique-take_over}
use dataops_testgen.Results.Consistent.{IsConsistent}
use dataops_testgen.Results.Runs.{picked, all_after}
use dataops_testgen.Results.Chosen.{is_at, at_one, after_report, view}
use dataops_testgen.Results.Settled.{has-active_ids}
use dataops_testgen.Results.Kept.{chosen-picked}

IsUnique-active_ids :
    (items : List Item) (idxs : List ℕ) (set : List String)
    → IsUnique set
    → IsUnique (active_ids items idxs set)
unfolding active_ids
IsUnique-active_ids items [] set d = d
IsUnique-active_ids items (i ∷ idxs) set d =
    IsUnique-active_ids items idxs (add_item (get_elem? items i) set)
      (IsUnique-add_item (get_elem? items i) set d)
  where
    IsUnique-add_item : (o : Option Item) (s : List String) → IsUnique s → IsUnique (add_item o s)
    IsUnique-add_item none s u = u
    IsUnique-add_item (some r) s u = IsUnique-add_id r.id s u

has-get_elem? :
    (page : List String) (i : ℕ) (id : String)
    → is_at (get_elem? page i) id ≡ true
    → has id page ≡ true
unfolding has
has-get_elem? [] i id h = cc
has-get_elem? (x ∷ page) zero id h = ground arith
has-get_elem? (x ∷ page) (suc i) id h =
    let rest : has id page ≡ true = has-get_elem? page i id h in ground arith

has-at_one :
    (page : List String) (idxs : List ℕ) (id : String)
    → at_one page idxs id ≡ true
    → has id page ≡ true
has-at_one page [] id h = cc
has-at_one page (i ∷ idxs) id h = elim (Bool-cases (is_at (get_elem? page i) id)) [
  | inl e ↦ has-get_elem? page i id e
  | inr e ↦ has-at_one page idxs id (ground arith)
]

has_nil : (b : Bool) (id : String) → (b || has id []) ≡ b
unfolding has
has_nil b id = ground arith

module _ (idxs : List ℕ) (s : Page) where
  active-at_one :
      (id : String) → has id (active_ids s.items idxs []) ≡ at_one (item_ids s.items) idxs id
  active-at_one id = has-active_ids id s.items idxs [] ∙ has_nil _ id

  page-item_ids : (id : String) → has id (page_ids s.items []) ≡ has id (item_ids s.items)
  page-item_ids id = has-page_ids id s.items [] ∙ has_nil _ id

  -- The page has no more ids than the rows that are reported.
  reported_iff :
      (not (ltb (length (active_ids s.items idxs [])) (length (page_ids s.items []))) ≡ true) ↔ (
        (id : String) → has id (item_ids s.items) ≡ true → at_one (item_ids s.items) idxs id ≡ true)
  reported_iff =
      let active : List String = active_ids s.items idxs [] in
      let page : List String = page_ids s.items [] in
      let unique : IsUnique active = IsUnique-active_ids s.items idxs [] tt in
      let unique' : IsUnique page = IsUnique-page_ids s.items [] tt in
      let within : IsWithin active page = λ id h.
        page-item_ids id ∙ has-at_one (item_ids s.items) idxs id (sym (active-at_one id) ∙ h) in
      (
        λ h id on.
            sym (active-at_one id)
            ∙ IsWithin-length active page unique unique' within (ground arith) id
                (page-item_ids id ∙ on),
        λ w.
            let fits : length page ≤ length active =
              length-IsWithin page active unique' unique
                (λ id h. active-at_one id ∙ w id (sym (page-item_ids id) ∙ h)) in
            ground arith,
      )

  selected_after :
      (id : String)
      → s.multi ≡ true
      → has id (picked idxs s).restore ≡ after_report (view s) idxs id
  unfolding view
  selected_after id m = chosen-picked idxs s id ∙ simp m

  enough_iff :
      IsConsistent s
      → s.multi ≡ true
      → (leb s.total (length (picked idxs s).restore) ≡ true)
        ↔ AtLeast s.total (after_report (view s) idxs)
  enough_iff h m =
      AtLeast-iff s.total (picked idxs s).restore (after_report (view s) idxs)
        (IsUnique-take_over (page_ids s.items []) (active_ids s.items idxs []) s.restore
          h.agreed.unique)
        (λ id. selected_after id m)

either :
    (a b c d : Bool)
    → (a && b || c && d) ≡ true
    → ((a ≡ true) × (b ≡ true)) ⊎ ((c ≡ true) × (d ≡ true))
either a b c d h = ground arith

either' :
    (a b c d : Bool)
    → ((a ≡ true) × (b ≡ true)) ⊎ ((c ≡ true) × (d ≡ true))
    → (a && b || c && d) ≡ true
either' a b c d h = ground arith

positive : (n : ℕ) → (ltb 0 n ≡ true) ↔ (0 < n)
positive n = (λ h. ground arith, λ h. ground arith)

pub is_box :
    (idxs : List ℕ) (s : Page) {all : Bool}
    → IsConsistent s
    → s.multi ≡ true
    → all ≡ all_after idxs s
    → (all ≡ true) ↔ (
        (s.select_all ≡ true)
          × ((id : String)
              → has id (item_ids s.items) ≡ true
              → at_one (item_ids s.items) idxs id ≡ true)
        ⊎ (0 < s.total) × AtLeast s.total (after_report (view s) idxs))
is_box idxs s h m e = (
  λ on.
      elim (either s.select_all
        (not (ltb (length (active_ids s.items idxs [])) (length (page_ids s.items []))))
        (ltb 0 s.total) (leb s.total (length (picked idxs s).restore)) (sym e ∙ on)) [
          | inl (a, b) ↦ inl (a, (reported_iff idxs s).0 b)
          | inr (c, d) ↦ inr ((positive s.total).0 c, (enough_iff idxs s h m).0 d)
        ],
  λ why.
      e
      ∙ either' s.select_all
          (not (ltb (length (active_ids s.items idxs [])) (length (page_ids s.items []))))
          (ltb 0 s.total) (leb s.total (length (picked idxs s).restore))
          (elim why [
            | inl (a, b) ↦ inl (a, (reported_iff idxs s).1 b)
            | inr (c, d) ↦ inr ((positive s.total).1 c, (enough_iff idxs s h m).1 d)
          ]),
)
