-- ===== src/Table/Rows.antt =====
-- The selected rows that the table reports.
use dataops_testgen.Base.{
  ℕ, zero, suc, ◌+◌, ◌<◌, ◌≡◌, refl, ◌∙◌, ap, Bool, true, false, not, List, [], ◌∷◌, map,
  if◌then◌else◌, arith, length, get_elem?, ltb, ◌==◌,
}
use mathlib.Core.Option
use dataops_testgen.Table.{reset_rows, reported_from, reported, toggle_at, on_row_selected}

abbrev cleared : List Bool → List Bool
cleared selected = map (λ s. false) selected

reported_from-cleared : (i : ℕ) (selected : List Bool) → reported_from i (cleared selected) ≡ []
unfolding reported_from
reported_from-cleared i [] = refl
reported_from-cleared i (s ∷ selected) = reported_from-cleared (i + 1) selected

reported_from-toggle :
    (i idx : ℕ) (selected : List Bool)
    → idx < length selected
    → reported_from i (toggle_at idx (cleared selected)) ≡ (i + idx) ∷ []
unfolding reported_from
reported_from-toggle i idx [] h = absurd (omega arith)
reported_from-toggle i zero (s ∷ selected) h =
    rw (reported_from-cleared (i + 1) selected) (ap (λ k. k ∷ []) (omega arith))
reported_from-toggle i (suc idx) (s ∷ selected) h =
    reported_from-toggle (i + 1) idx selected (omega arith) ∙ ap (λ k. k ∷ []) (omega arith)

-- Where one row at most can be selected, a click on a row selects this row and no other, also if
-- it was selected already.
pub reported-on_row_selected :
    (idx : ℕ) (selected : List Bool)
    → idx < length selected
    → reported (on_row_selected false true idx selected) ≡ idx ∷ []
unfolding reported on_row_selected
reported-on_row_selected idx selected h =
    reported_from-toggle 0 idx selected h ∙ ap (λ k. k ∷ []) (omega arith)

get_elem?-toggle_at :
    (i j : ℕ) (selected : List Bool)
    → get_elem? (toggle_at i selected) j
      ≡ (if i == j then Option.map not (get_elem? selected j) else get_elem? selected j)
get_elem?-toggle_at i j [] = ground arith
get_elem?-toggle_at zero zero (s ∷ selected) = refl
get_elem?-toggle_at zero (suc j) (s ∷ selected) = ground arith
get_elem?-toggle_at (suc i) zero (s ∷ selected) = ground arith
get_elem?-toggle_at (suc i) (suc j) (s ∷ selected) = get_elem?-toggle_at i j selected ∙ ground arith

-- Where several rows can be selected, a click on a row changes the state of this row alone.
pub get_elem?-on_row_selected :
    (idx j : ℕ) (selected : List Bool)
    → get_elem? (on_row_selected true true idx selected) j
      ≡ (if idx == j then Option.map not (get_elem? selected j) else get_elem? selected j)
unfolding on_row_selected
get_elem?-on_row_selected idx j selected = get_elem?-toggle_at idx j selected

get_elem?-reset_rows_eq :
    (bs selected : List Bool) (j : ℕ)
    → get_elem? (reset_rows bs selected) j
      ≡ (if ltb j (length bs) then get_elem? bs j else get_elem? selected j)
unfolding reset_rows
get_elem?-reset_rows_eq [] selected j = ground arith
get_elem?-reset_rows_eq (b ∷ bs) [] zero = ground arith
get_elem?-reset_rows_eq (b ∷ bs) [] (suc j) = get_elem?-reset_rows_eq bs [] j ∙ ground arith
get_elem?-reset_rows_eq (b ∷ bs) (s ∷ selected) zero = ground arith
get_elem?-reset_rows_eq (b ∷ bs) (s ∷ selected) (suc j) =
    get_elem?-reset_rows_eq bs selected j ∙ ground arith

-- New rows take their initial states; a state behind the last of them stays as it was, though the
-- table has no such row.
pub get_elem?-reset_rows :
    (bs selected : List Bool) (j : ℕ)
    → get_elem? (reset_rows bs selected) j
      ≡ (if ltb j (length bs) then get_elem? bs j else get_elem? selected j)
get_elem?-reset_rows bs selected j = get_elem?-reset_rows_eq bs selected j
