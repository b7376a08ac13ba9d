-- ===== src/Results/Consistent.antt =====
-- The copies of the selection agree: the Set, the list of ids, the counter and the check boxes.
use dataops_testgen.Base.{
  ℕ, ◌≡◌, refl, sym, ◌∙◌, ap, Bool, true, false, not, ◌&&◌, ◌||◌, List, [], Bool-cases, inl, inr,
  arith, String, length, bool_ne, keep_if,
}
use mathlib.Core.Path.{subst}
use dataops_testgen.Results.{
  after_all, after_multi, item_ids, Page, add_items, recount, clear_selection, leave_multi,
  derive_rows, settle, page_ids,
}
use dataops_testgen.Results.Sets.{has, Checks, has_check, is_ticked, ensure}
use dataops_testgen.Results.Sets.Laws.{IsUnique}
use dataops_testgen.Results.Sets.Boxes.{has_check-ensure, is_ticked-ensure, is_ticked-untick_all}
use dataops_testgen.Results.Loops.{
  tick_items, add_items_eq, has-page_ids, IsUnique-page_ids, has_check-tick_items,
  is_ticked-tick_items,
}

-- The ids stand once each in the Set, the list and the counter follow it, and the boxes that are
-- ticked are those of its ids.
pub record IsCounted (set ids : List String) (count : ℕ) (checks : Checks) : Type 0 where
  pub unique : IsUnique set
  pub listed : ids ≡ set
  pub counted : count ≡ length set
  pub boxes : (w : String) → is_ticked w checks ≡ has w set

abbrev pub Counted : Page → Type 0
Counted s = IsCounted s.restore s.ids s.count s.checks

-- Each row has its box.
abbrev pub IsMade : Page → Type 0
IsMade s = (w : String) → has w (item_ids s.items) ≡ true → has_check w s.checks ≡ true

-- Nothing is selected, one by one or all.
abbrev pub IsBare : Page → Type 0
IsBare s = (s.restore ≡ []) × (s.select_all ≡ false)

abbrev pub IsReady : Bool → Page → Type 0
IsReady true s = IsMade s
IsReady false s = IsBare s

pub record IsConsistent (s : Page) : Type 0 where
  pub agreed : Counted s
  pub ready : IsReady s.multi s

pub Counted-clear : (s : Page) → Counted (clear_selection s)
unfolding has
Counted-clear s = record {
  unique = tt;
  listed = refl;
  counted = refl;
  boxes = λ w. is_ticked-untick_all w s.checks;
}

abbrev pub all_added : Page → Page
all_added s =
    recount
      (record s { checks = tick_items s.items s.checks; restore = page_ids s.items s.restore })

pub recount-add_items : (s : Page) → recount (add_items s.items s) ≡ all_added s
recount-add_items s = ap (λ t. recount t) (add_items_eq s.items s)

pub Counted-all_added : (s : Page) → Counted s → Counted (all_added s)
Counted-all_added s c = record {
  unique = IsUnique-page_ids s.items s.restore c.unique;
  listed = refl;
  counted = refl;
  boxes = λ w.
      is_ticked-tick_items w s.items s.checks
      ∙ ap (has w (item_ids s.items) ||◌) (c.boxes w)
      ∙ sym (has-page_ids w s.items s.restore);
}

pub IsMade-all_added : (s : Page) → IsMade (all_added s)
IsMade-all_added s w h = has_check-tick_items w s.items s.checks ∙ rw h refl

abbrev pub boxed : Page → Page
boxed s = record s { checks = ensure (item_ids s.items) s.checks }

Counted-boxed : (s : Page) → Counted s → Counted (boxed s)
Counted-boxed s c = record {
  unique = c.unique;
  listed = c.listed;
  counted = c.counted;
  boxes = λ w. is_ticked-ensure w (item_ids s.items) s.checks ∙ c.boxes w;
}

IsMade-boxed : (s : Page) → IsMade (boxed s)
IsMade-boxed s w h = has_check-ensure w (item_ids s.items) s.checks ∙ rw h refl

pub derive_rows-all :
    (s : Page) → s.multi ≡ true → s.select_all ≡ true → derive_rows s ≡ boxed (all_added s)
unfolding derive_rows
derive_rows-all s m a = simp (m, a, recount-add_items)

pub derive_rows-some : (s : Page) → s.multi ≡ true → s.select_all ≡ false → derive_rows s ≡ boxed s
unfolding derive_rows
derive_rows-some s m a = simp (m, a)

pub derive_rows-none : (s : Page) → s.multi ≡ false → derive_rows s ≡ s
unfolding derive_rows
derive_rows-none s m = simp m

pub made_ready : (s : Page) → s.multi ≡ true → Counted s → IsMade s → IsConsistent s
made_ready s m c made = record { agreed = c; ready = subst (λ b. IsReady b s) (sym m) made }

pub bare_ready : (s : Page) → s.multi ≡ false → Counted s → IsBare s → IsConsistent s
bare_ready s m c bare = record { agreed = c; ready = subst (λ b. IsReady b s) (sym m) bare }

pub derive_rows-IsConsistent :
    (s : Page) → Counted s → (s.multi ≡ false → IsBare s) → IsConsistent (derive_rows s)
derive_rows-IsConsistent s c bare = elim (Bool-cases s.multi) [
  | inl m ↦ elim (Bool-cases s.select_all) [
    | inl a ↦ subst IsConsistent (sym (derive_rows-all s m a)) (
        made_ready (boxed (all_added s)) m (Counted-boxed (all_added s) (Counted-all_added s c))
          (IsMade-boxed (all_added s)))
    | inr a ↦
        subst IsConsistent (sym (derive_rows-some s m a))
          (made_ready (boxed s) m (Counted-boxed s c) (IsMade-boxed s))
  ]
  | inr m ↦ subst IsConsistent (sym (derive_rows-none s m)) (bare_ready s m c (bare m))
]

after_all-IsConsistent :
    (old s : Page)
    → Counted s
    → (s.multi ≡ false → IsBare s)
    → (bool_ne old.multi s.multi ≡ false → IsConsistent s)
    → IsConsistent (after_all old s)
unfolding after_all
after_all-IsConsistent old s c bare same =
    let derived : IsConsistent (derive_rows s) = derive_rows-IsConsistent s c bare in
    elim (Bool-cases (bool_ne old.multi s.multi)) [
      | inl e ↦ rw e derived
      | inr e ↦ rw e (keep_if IsConsistent (bool_ne old.select_all s.select_all) derived (same e))
    ]

pub after_multi_left :
    (old s : Page)
    → bool_ne old.multi s.multi ≡ true
    → s.multi ≡ false
    → after_multi old s ≡ clear_selection s
unfolding after_multi leave_multi
after_multi_left old s e m = rw e (simp m)

pub after_multi_kept :
    (old s : Page) → (bool_ne old.multi s.multi && not s.multi) ≡ false → after_multi old s ≡ s
unfolding after_multi leave_multi
after_multi_kept old s e = elim (Bool-cases (bool_ne old.multi s.multi)) [
  | inl q ↦ let m : s.multi ≡ true = ground arith in rw q (simp m)
  | inr q ↦ rw q refl
]

pub is_bare : (s : Page) → IsConsistent s → s.multi ≡ false → IsBare s
is_bare s h m = subst (λ b. IsReady b s) m h.ready

pub settle-IsConsistent :
    (old s : Page)
    → Counted s
    → (bool_ne old.multi s.multi ≡ false → IsConsistent s)
    → IsConsistent (settle old s)
settle-IsConsistent old s c same = elim (Bool-cases (bool_ne old.multi s.multi)) [
  | inl e ↦ elim (Bool-cases s.multi) [
    | inl m ↦
        rw (after_multi_kept old s (rw m (ground arith)))
          (after_all-IsConsistent old s c (λ off. absurd cc) same)
    | inr m ↦
        let t : Page = clear_selection s in
        let bare : IsConsistent t = bare_ready t m (Counted-clear s) (refl, refl) in
        rw (after_multi_left old s e m)
          (after_all-IsConsistent old t (Counted-clear s) (λ off. (refl, refl)) (λ off. bare))
  ]
  | inr e ↦
      rw (after_multi_kept old s (rw e refl))
        (after_all-IsConsistent old s c (is_bare s (same e)) same)
]
