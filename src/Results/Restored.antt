-- ===== src/Results/Restored.antt =====
-- What the table reports of a new page: its rows that were selected before.
use dataops_testgen.Base.{
  ℕ, suc, ◌+◌, ◌≡◌, refl, sym, ◌∙◌, ap, ap₂, Bool, true, false, not, ◌&&◌, ◌||◌, List, [], ◌∷◌, map,
  Bool-cases, inl, inr, if◌then◌else◌, arith, String, str_eq,
}
use dataops_testgen.Table.{reset_rows, reported_from, reported}
use dataops_testgen.Results.{pick, Item, item_ids, Page, is_initially_selected, page_after}
use dataops_testgen.Results.Sets.{has}
use dataops_testgen.Results.Sets.Laws.{has-same}
use dataops_testgen.Results.Chosen.{view, at_one}
use dataops_testgen.Results.Refined.{view-pick}

at_one_nil : (idxs : List ℕ) (id : String) → at_one [] idxs id ≡ false
at_one_nil [] id = refl
at_one_nil (i ∷ idxs) id = at_one_nil idxs id

at_one_later :
    (x : String) (page : List String) (k : ℕ) (selected : List Bool) (id : String)
    → at_one (x ∷ page) (reported_from (suc k) selected) id
      ≡ at_one page (reported_from k selected) id
unfolding reported_from
at_one_later x page k [] id = refl
at_one_later x page k (b ∷ selected) id =
    let next : suc k + 1 ≡ suc (k + 1) = omega arith in
    let rest : at_one (x ∷ page) (reported_from (suc (k + 1)) selected) id
        ≡ at_one page (reported_from (k + 1) selected) id =
      at_one_later x page (k + 1) selected id in
    elim (Bool-cases b) [ inl e ↦ rw (next, e, rest) refl | inr e ↦ rw (next, e, rest) refl ]

-- The rows' initial states.
abbrev initial : List String → List Item → List Bool
initial set items = map (λ r. has r.id set) items

first_alike :
    (x rest chosen b : Bool)
    → (x ≡ true → b ≡ chosen)
    → (if b then x || rest && chosen else rest && chosen) ≡ ((x || rest) && chosen)
first_alike x rest chosen b e = ground arith

at_one_first :
    (r : Item) (items : List Item) (set : List String) (selected : List Bool) (id : String)
    → at_one (item_ids items) (reported selected) id ≡ (has id (item_ids items) && has id set)
    → at_one (item_ids (r ∷ items)) (reported (has r.id set ∷ selected)) id
      ≡ (has id (item_ids (r ∷ items)) && has id set)
unfolding reported reported_from has
at_one_first r items set selected id ih =
    let later : at_one (item_ids (r ∷ items)) (reported_from 1 selected) id
        ≡ (has id (item_ids items) && has id set) =
      at_one_later r.id (item_ids items) 0 selected id ∙ ih in
    let same : str_eq r.id id ≡ true → has r.id set ≡ has id set = has-same r.id id set in
    elim (Bool-cases (has r.id set)) [
      | inl e ↦
          rw (e, later)
            (first_alike (str_eq r.id id) (has id (item_ids items)) (has id set) true
              (λ q. sym e ∙ same q))
      | inr e ↦
          rw (e, later)
            (first_alike (str_eq r.id id) (has id (item_ids items)) (has id set) false
              (λ q. sym e ∙ same q))
    ]

at_one-reset_rows :
    (items : List Item) (set : List String) (old : List Bool) (id : String)
    → at_one (item_ids items) (reported (reset_rows (initial set items) old)) id
      ≡ (has id (item_ids items) && has id set)
unfolding reset_rows
at_one-reset_rows [] set old id = at_one_nil (reported old) id ∙ unfold has in refl
at_one-reset_rows (r ∷ items) set [] id =
    at_one_first r items set (reset_rows (initial set items) []) id
      (at_one-reset_rows items set [] id)
at_one-reset_rows (r ∷ items) set (b ∷ old) id =
    at_one_first r items set (reset_rows (initial set items) old) id
      (at_one-reset_rows items set old id)

initially :
    (s : Page) (items : List Item)
    → s.multi ≡ true
    → map (is_initially_selected s) items ≡ initial s.restore items
unfolding is_initially_selected
initially s [] m = refl
initially s (r ∷ items) m = ap₂ (λ b bs. b ∷ bs) (simp m) (initially s items m)

restored_alike :
    (multi page set at now old : Bool)
    → multi ≡ true
    → at ≡ (page && set)
    → (if multi && now && not old
        then page || (if multi && page then at else set)
        else if multi && page
        then at
        else set)
      ≡ (set || (now && not old) && page)
restored_alike multi page set at now old m e = ground arith

-- A report of the rows of the page that are selected.
after_pick :
    (idxs : List ℕ) (s : Page) (id : String)
    → s.multi ≡ true
    → at_one (item_ids s.items) idxs id ≡ (has id (item_ids s.items) && has id s.restore)
    → has id (page_after (pick idxs) s).restore ≡ (
        has id s.restore
        || ((page_after (pick idxs) s).select_all && not s.select_all) && has id (item_ids s.items))
unfolding view
after_pick idxs s id m e =
    ap (λ c. c.chosen id) (view-pick idxs s).1
    ∙ restored_alike s.multi (has id (item_ids s.items)) (has id s.restore)
        (at_one (item_ids s.items) idxs id) (page_after (pick idxs) s).select_all s.select_all m e

-- In the multi-selection, when the table reports the rows that it shows as selected at first, whatever
-- rows it had before, then once the derives have run each id is selected that was, and no other, unless
-- the report has turned `selectAll` on: then the ids of the page are selected, too.
pub page_after-reported :
    (s : Page) (old : List Bool) (id : String)
    → s.multi ≡ true
    → let t =
        page_after (pick (reported (reset_rows (map (is_initially_selected s) s.items) old))) s in
      has id t.restore
      ≡ (has id s.restore || (t.select_all && not s.select_all) && has id (item_ids s.items))
page_after-reported s old id m =
    after_pick (reported (reset_rows (map (is_initially_selected s) s.items) old)) s id m (
      ap (λ states. at_one (item_ids s.items) (reported (reset_rows states old)) id)
        (initially s s.items m)
      ∙ at_one-reset_rows s.items s.restore old id)
