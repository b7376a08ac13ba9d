-- ===== src/Columns/Covers.antt =====
-- The columns that a selection of filters covers.
use dataops_testgen.Base.{
  ◌≡◌, refl, ◌∙◌, sym, Bool, true, false, ◌&&◌, List, [], ◌∷◌, any, All, all, ◌⊎◌, inl, inr,
  Bool-cases, if◌then◌else◌, arith,
}
use dataops_testgen.Base.Text.{Text, text_eq, text_eq_refl}
use dataops_testgen.Columns.{
  Level, group_level, table_level, column_level, FilterValue, ColumnNode, TableNode, GroupNode,
  column_filters, table_filters, group_filters, get_selection,
}
use dataops_testgen.Columns.Loops.{Among, all-Among, any-none, IsOnly, any-only}

-- The names of a column, of its table and of its group.
pub record Names : Type 0 where
  pub group : Text
  pub table : Text
  pub column : Text

abbrev pub name_at : Level → Names → Text
name_at group_level n = n.group
name_at table_level n = n.table
name_at column_level n = n.column

-- A filter covers a column that has its value and those of `others`.
abbrev pub covers : Names → FilterValue → Bool
covers n f = text_eq (name_at f.field n) f.value && all (λ o. text_eq (name_at o.0 n) o.1) f.others

any_if :
    (p : FilterValue → Bool) (b : Bool) (f : FilterValue)
    → any p (if b then f ∷ [] else []) ≡ (b && p f)
any_if p true f = ground arith
any_if p false f = refl

-- The other elements have other names.
abbrev pub IsNamed : {A : Type 0} → (A → Text) → A → List A → Type 0
IsNamed name x ys = All (λ y. (y ≡ x) ⊎ (text_eq (name x) (name y) ≡ false)) ys

IsOnly-IsNamed :
    {A B : Type 0} (name : A → Text) (p : B → Bool) (push : A → List B) (x : A) (ys : List A)
    → ((y : A) → text_eq (name x) (name y) ≡ false → any p (push y) ≡ false)
    → IsNamed name x ys
    → IsOnly p push x ys
IsOnly-IsNamed name p push x [] h named = tt
IsOnly-IsNamed name p push x (y ∷ ys) h named = (
  elim named.0 [ inl e ↦ inl e | inr e ↦ inr (h y e) ],
  IsOnly-IsNamed name p push x ys h named.1,
)

module _ (value : Text → Text) (n : Names) where
  column_covers :
      (g t : Text) (c : ColumnNode)
      → any (covers n) (column_filters false value g t c) ≡ (
          c.selected
          && (text_eq n.column (value c.id)
              && (text_eq n.table (value t) && (text_eq n.group (value g) && true))))
  unfolding column_filters
  column_covers g t c = any_if (covers n) c.selected _

  column_other_group :
      (g t : Text) (c : ColumnNode)
      → text_eq n.group (value g) ≡ false
      → any (covers n) (column_filters false value g t c) ≡ false
  column_other_group g t c h = column_covers g t c ∙ ground arith

  column_other_table :
      (g t : Text) (c : ColumnNode)
      → text_eq n.table (value t) ≡ false
      → any (covers n) (column_filters false value g t c) ≡ false
  column_other_table g t c h = column_covers g t c ∙ ground arith

  column_other :
      (g t : Text) (c : ColumnNode)
      → text_eq n.column (value c.id) ≡ false
      → any (covers n) (column_filters false value g t c) ≡ false
  column_other g t c h = column_covers g t c ∙ ground arith

  table_other_group :
      (g : Text) (t : TableNode)
      → text_eq n.group (value g) ≡ false
      → any (covers n) (table_filters false value g t) ≡ false
  unfolding table_filters
  table_other_group g t h = elim (Bool-cases t.ticked) [
    | inl on ↦ rw on (ground arith)
    | inr off ↦ rw off (
        any-none (covers n) (column_filters false value g t.id) t.children
          (λ c. column_other_group g t.id c h))
  ]

  table_other :
      (g : Text) (t : TableNode)
      → text_eq n.table (value t.id) ≡ false
      → any (covers n) (table_filters false value g t) ≡ false
  unfolding table_filters
  table_other g t h = elim (Bool-cases t.ticked) [
    | inl on ↦ rw on (ground arith)
    | inr off ↦ rw off (
        any-none (covers n) (column_filters false value g t.id) t.children
          (λ c. column_other_table g t.id c h))
  ]

  group_other :
      (g : GroupNode)
      → text_eq n.group (value g.id) ≡ false
      → any (covers n) (group_filters false value g) ≡ false
  unfolding group_filters
  group_other g h = elim (Bool-cases g.ticked) [
    | inl on ↦ rw on (ground arith)
    | inr off ↦ rw off (
        any-none (covers n) (table_filters false value g.id) g.children
          (λ t. table_other_group g.id t h))
  ]

module _ (value : Text → Text) (g : GroupNode) (t : TableNode) (c : ColumnNode) where
  abbrev names_of : Names
  names_of = record { group = value g.id; table = value t.id; column = value c.id }

  column_own : any (covers names_of) (column_filters false value g.id t.id c) ≡ c.selected
  column_own =
      column_covers value names_of g.id t.id c
      ∙ rw (text_eq_refl (value c.id), text_eq_refl (value t.id), text_eq_refl (value g.id))
          (ground arith)

  table_own :
      Among c t.children
      → t.ticked ≡ all (λ d. d.selected) t.children
      → IsNamed (λ d. value d.id) c t.children
      → any (covers names_of) (table_filters false value g.id t) ≡ c.selected
  unfolding table_filters
  table_own i whole named = elim (Bool-cases t.ticked) [
    | inl on ↦
        rw (on, text_eq_refl (value t.id), text_eq_refl (value g.id))
          (sym (all-Among (λ d. d.selected) c t.children (sym whole ∙ on) i))
    | inr off ↦ rw off (
        any-only (covers names_of) (column_filters false value g.id t.id) c t.children i (
          IsOnly-IsNamed (λ d. value d.id) (covers names_of) (column_filters false value g.id t.id)
            c t.children (column_other value names_of g.id t.id) named)
        ∙ column_own)
  ]

  group_own :
      Among t g.children
      → Among c t.children
      → g.ticked ≡ all (λ u. u.ticked) g.children
      → t.ticked ≡ all (λ d. d.selected) t.children
      → IsNamed (λ u. value u.id) t g.children
      → IsNamed (λ d. value d.id) c t.children
      → any (covers names_of) (group_filters false value g) ≡ c.selected
  unfolding group_filters
  group_own i j whole_group whole_table tables columns = elim (Bool-cases g.ticked) [
    | inl on ↦
        let ticked : t.ticked ≡ true =
          all-Among (λ u. u.ticked) t g.children (sym whole_group ∙ on) i in
        rw (on, text_eq_refl (value g.id))
          (sym (all-Among (λ d. d.selected) c t.children (sym whole_table ∙ ticked) j))
    | inr off ↦ rw off (
        any-only (covers names_of) (table_filters false value g.id) t g.children i (
          IsOnly-IsNamed (λ u. value u.id) (covers names_of) (table_filters false value g.id) t
            g.children (table_other value names_of g.id) tables)
        ∙ table_own j whole_table columns)
  ]

  -- A column of the nodes, where a group or a table is ticked just when all that it has is, is covered
  -- by the filters of the selection exactly when it is selected, if no other group, no other table of
  -- its group and no other column of its table has the same name.
  pub covers-get_selection :
      (groups : List GroupNode)
      → Among g groups
      → Among t g.children
      → Among c t.children
      → g.ticked ≡ all (λ u. u.ticked) g.children
      → t.ticked ≡ all (λ d. d.selected) t.children
      → IsNamed (λ h. value h.id) g groups
      → IsNamed (λ u. value u.id) t g.children
      → IsNamed (λ d. value d.id) c t.children
      → any
          (covers (record { group = value g.id; table = value t.id; column = value c.id }))
          (get_selection false value groups)
        ≡ c.selected
  unfolding get_selection
  covers-get_selection groups k i j whole_group whole_table named tables columns =
      any-only (covers names_of) (group_filters false value) g groups k (
        IsOnly-IsNamed (λ h. value h.id) (covers names_of) (group_filters false value) g groups
          (group_other value names_of) named)
      ∙ group_own i j whole_group whole_table tables columns
