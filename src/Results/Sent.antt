-- ===== src/Results/Sent.antt =====
-- What a disposition sends.
use dataops_testgen.Base.{
  ℕ, ◌≡◌, refl, true, false, ◌||◌, some, List, Bool-cases, inl, inr, if◌then◌else◌, arith, String,
  length, ltb, ◌==◌, Option-cases,
}
use dataops_testgen.Results.{Page, Message}
use dataops_testgen.Results.Dispositions.{
  given_id, row_ids, selected_ids, find_row, selected_row, on_disposition, no_failure,
  disposition_disabled,
}
use dataops_testgen.Results.Consistent.{IsConsistent}

-- The ids that are meant: those of the Set, or of the row that was clicked.
abbrev pub meant : Page → List String
meant s = if s.multi then s.restore else row_ids (given_id s.row)

given_row :
    (s : Page)
    → no_failure (selected_row s) ≡ false
    → ltb 0 (length (row_ids (given_id s.row))) ≡ true
unfolding selected_row
given_row s e = elim (Option-cases (given_id s.row)) [
  | inl n ↦ absurd (let z : no_failure (find_row (given_id s.row) s.items) ≡ true = rw n refl in cc)
  | inr (id, n) ↦ rw n refl
]

counted_some : (n : ℕ) → (n == 0) ≡ false → ltb 0 n ≡ true
counted_some n e = ground arith

selected_some :
    (s : Page)
    → IsConsistent s
    → s.select_all ≡ false
    → disposition_disabled s ≡ false
    → (selected_ids s ≡ meant s) × (ltb 0 (length (meant s)) ≡ true)
unfolding selected_ids disposition_disabled
selected_some s h a e = elim (Bool-cases s.multi) [
  | inl m ↦
      let some_ids : ltb 0 (length s.restore) ≡ true =
        rw⁻¹ h.agreed.counted (counted_some s.count (simp (m, a) at e)) in
      simp (m, some_ids) (refl, refl)
  | inr m ↦
      let row : ltb 0 (length (row_ids (given_id s.row))) ≡ true = given_row s (simp m at e) in
      simp (m, row) (refl, refl)
]

-- Where the copies of the selection agree, an enabled button of the four always sends a message: for
-- all rows that match the filters where `selectAll` is on, else for the ids of the Set, or in the
-- single selection for the row that was clicked, and then for one id at least.
pub on_disposition-enabled :
    (status : String) (s : Page)
    → IsConsistent s
    → disposition_disabled s ≡ false
    → (on_disposition status s
        ≡ some (
            if s.select_all
            then Message.disposition_all s.filters status
            else Message.disposition_changed (meant s) status))
      × ((s.select_all || ltb 0 (length (meant s))) ≡ true)
unfolding on_disposition disposition_disabled selected_ids
on_disposition-enabled status s h e = elim (Bool-cases s.select_all) [
  | inl a ↦ simp a (refl, refl)
  | inr a ↦
      let p : (selected_ids s ≡ meant s) × (ltb 0 (length (meant s)) ≡ true) =
        selected_some s h a e in
      simp (a, p.0, p.1) (refl, refl)
]
