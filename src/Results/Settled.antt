-- ===== src/Results/Settled.antt =====
-- What the derives leave of a selection.
use mathlib.Core.Path.{subst}
use mathlib.Core.Option
use dataops_testgen.Base.{
  zero, suc, ℕ, ◌≡◌, refl, sym, ◌∙◌, ap, Bool, true, false, ◌&&◌, ◌||◌, Option, none, some, List,
  [], ◌∷◌, Bool-cases, inl, inr, if◌then◌else◌, arith, String, bool_ne, split_if, get_elem?,
}
use dataops_testgen.Results.{
  add_item, Item, item_ids, Page, derive_rows, settle, after_all, after_multi, active_ids,
}
use dataops_testgen.Results.Sets.{has}
use dataops_testgen.Results.Sets.Laws.{has-add_id}
use dataops_testgen.Results.Loops.{has-page_ids}
use dataops_testgen.Results.Consistent.{
  after_multi_kept, derive_rows-all, derive_rows-some, derive_rows-none,
}
use dataops_testgen.Results.Chosen.{Choice, view, is_at, at_one, adding, view_eq}

-- The states that the derive of the rows leaves alone, and the selection after it.
pub record IsDerived (b : Bool) (s t : Page) : Type 0 where
  pub items_eq : t.items ≡ s.items
  pub total_eq : t.total ≡ s.total
  pub size_eq : t.page_size ≡ s.page_size
  pub multi_eq : t.multi ≡ s.multi
  pub all_eq : t.select_all ≡ s.select_all
  pub chosen_eq :
      (id : String) → has id t.restore ≡ adding b (item_ids s.items) (λ x. has x s.restore) id

pub derive_rows-IsDerived : (s : Page) → IsDerived (s.multi && s.select_all) s (derive_rows s)
derive_rows-IsDerived s = elim (Bool-cases s.multi) [
  | inl m ↦ elim (Bool-cases s.select_all) [
    | inl a ↦ subst (IsDerived (s.multi && s.select_all) s) (sym (derive_rows-all s m a)) (record {
      items_eq = refl;
      total_eq = refl;
      size_eq = refl;
      multi_eq = refl;
      all_eq = refl;
      chosen_eq = λ id. has-page_ids id s.items s.restore ∙ simp (m, a);
    })
    | inr a ↦ subst (IsDerived (s.multi && s.select_all) s) (sym (derive_rows-some s m a)) (record {
      items_eq = refl;
      total_eq = refl;
      size_eq = refl;
      multi_eq = refl;
      all_eq = refl;
      chosen_eq = λ id. simp (m, a);
    })
  ]
  | inr m ↦ subst (IsDerived (s.multi && s.select_all) s) (sym (derive_rows-none s m)) (record {
    items_eq = refl;
    total_eq = refl;
    size_eq = refl;
    multi_eq = refl;
    all_eq = refl;
    chosen_eq = λ id. simp m;
  })
]

IsDerived-if :
    (b v : Bool) (s t : Page) → IsDerived v s t → IsDerived (b && v) s (if b then t else s)
IsDerived-if true v s t d = d
IsDerived-if false v s t d = record {
  items_eq = refl;
  total_eq = refl;
  size_eq = refl;
  multi_eq = refl;
  all_eq = refl;
  chosen_eq = λ id. refl;
}

pub settle-IsDerived :
    (s t : Page)
    → t.multi ≡ s.multi
    → IsDerived (bool_ne s.select_all t.select_all && (t.multi && t.select_all)) t (settle s t)
unfolding after_all
settle-IsDerived s t m =
    let same : bool_ne s.multi t.multi ≡ false = ground arith in
    let kept : after_multi s t ≡ t = after_multi_kept s t (rw same refl) in
    rw (kept, same)
      (IsDerived-if (bool_ne s.select_all t.select_all) (t.multi && t.select_all) t (derive_rows t)
        (derive_rows-IsDerived t))

get_elem?-item_ids :
    (items : List Item) (i : ℕ)
    → get_elem? (item_ids items) i ≡ Option.map (λ r. r.id) (get_elem? items i)
get_elem?-item_ids [] i = refl
get_elem?-item_ids (r ∷ items) zero = refl
get_elem?-item_ids (r ∷ items) (suc i) = get_elem?-item_ids items i

has-add_item :
    (id : String) (o : Option Item) (set : List String)
    → has id (add_item o set) ≡ (is_at (Option.map (λ r. r.id) o) id || has id set)
has-add_item id none set = refl
has-add_item id (some r) set = has-add_id id r.id set

pub has-active_ids :
    (id : String) (items : List Item) (idxs : List ℕ) (set : List String)
    → has id (active_ids items idxs set) ≡ (at_one (item_ids items) idxs id || has id set)
unfolding active_ids
has-active_ids id items [] set = refl
has-active_ids id items (i ∷ idxs) set =
    rw
      (
        has-active_ids id items idxs (add_item (get_elem? items i) set),
        has-add_item id (get_elem? items i) set,
        get_elem?-item_ids items i,
      )
      (ground arith)

IsDerived-after_all :
    (s t : Page) → (t.multi && t.select_all) ≡ false → IsDerived false t (after_all s t)
unfolding after_all
IsDerived-after_all s t n =
    split_if (IsDerived false t) (bool_ne s.multi t.multi || bool_ne s.select_all t.select_all)
      (λ e. subst (λ b. IsDerived b t (derive_rows t)) n (derive_rows-IsDerived t))
      (λ e. record {
        items_eq = refl;
        total_eq = refl;
        size_eq = refl;
        multi_eq = refl;
        all_eq = refl;
        chosen_eq = λ id. refl;
      })

-- The states of the second page by those of the first.
pub record IsHandled (s t : Page) (items : List Item) (total size : ℕ) (f : String → Bool)
    : Type 0 where
  pub items_eq : t.items ≡ items
  pub total_eq : t.total ≡ total
  pub size_eq : t.page_size ≡ size
  pub multi_eq : t.multi ≡ s.multi
  pub chosen_eq : (id : String) → has id t.restore ≡ f id

-- A handler that leaves the multi-selection as it is.
pub view-settle :
    (s t : Page) (items : List Item) (total size : ℕ) (f : String → Bool) (c : Choice)
    → IsHandled s t items total size f
    → item_ids items ≡ c.page
    → total ≡ c.total
    → size ≡ c.page_size
    → s.multi ≡ c.multi
    → t.select_all ≡ c.all
    → ((id : String)
        → adding
            (bool_ne s.select_all t.select_all && (s.multi && t.select_all))
            (item_ids items)
            f
            id
          ≡ c.chosen id)
    → view (settle s t) ≡ c
view-settle s t items total size f c h p n z m a e =
    let flag : Bool = bool_ne s.select_all t.select_all && (t.multi && t.select_all) in
    let d : IsDerived flag t (settle s t) = settle-IsDerived s t h.multi_eq in
    view_eq (settle s t) c (ap item_ids (d.items_eq ∙ h.items_eq) ∙ p) (d.total_eq ∙ h.total_eq ∙ n)
      (d.size_eq ∙ h.size_eq ∙ z) (d.multi_eq ∙ h.multi_eq ∙ m) (d.all_eq ∙ a)
      (λ id. d.chosen_eq id ∙ rw (h.multi_eq, h.items_eq, h.chosen_eq id) (e id))

-- A switch of the multi-selection.
pub view-switch :
    (s t : Page) (c : Choice)
    → (t.multi && t.select_all) ≡ false
    → item_ids t.items ≡ c.page
    → t.total ≡ c.total
    → t.page_size ≡ c.page_size
    → t.multi ≡ c.multi
    → t.select_all ≡ c.all
    → ((id : String) → has id t.restore ≡ c.chosen id)
    → view (after_all s t) ≡ c
view-switch s t c q p n z m a e =
    let d : IsDerived false t (after_all s t) = IsDerived-after_all s t q in
    view_eq (after_all s t) c (ap item_ids d.items_eq ∙ p) (d.total_eq ∙ n) (d.size_eq ∙ z)
      (d.multi_eq ∙ m) (d.all_eq ∙ a) (λ id. d.chosen_eq id ∙ e id)
