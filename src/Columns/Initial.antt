-- ===== src/Columns/Initial.antt =====
-- The selection that the component starts with.
use dataops_testgen.Base.{◌≡◌, refl, List, [], ◌∷◌, any, all, inl, inr}
use dataops_testgen.Base.Text.{Text}
use dataops_testgen.Columns.{
  Column, ColumnNode, TableNode, GroupNode, tick_tables, tick_groups, mapping, initial_nodes,
  initial_selection, value_by_id,
}
use dataops_testgen.Columns.Loops.{Among}
use dataops_testgen.Columns.Covers.{covers, IsNamed, covers-get_selection}
use mathlib.Core.Path.{subst}

-- It is ticked just when all that it has is.
abbrev IsWholeTable : TableNode → Type 0
IsWholeTable t = t.ticked ≡ all (λ c. c.selected) t.children

abbrev IsWholeGroup : GroupNode → Type 0
IsWholeGroup g = g.ticked ≡ all (λ t. t.ticked) g.children

tick_tables-IsWholeTable :
    (ts : List TableNode) (t : TableNode) → Among t (tick_tables ts) → IsWholeTable t
unfolding tick_tables
tick_tables-IsWholeTable [] t i = absurd i
tick_tables-IsWholeTable (u ∷ ts) t (inl e) = subst IsWholeTable e refl
tick_tables-IsWholeTable (u ∷ ts) t (inr i) = tick_tables-IsWholeTable ts t i

tick_groups-IsWholeGroup :
    (gs : List GroupNode) (g : GroupNode)
    → Among g (tick_groups gs)
    → IsWholeGroup g × ((t : TableNode) → Among t g.children → IsWholeTable t)
unfolding tick_groups
tick_groups-IsWholeGroup [] g i = absurd i
tick_groups-IsWholeGroup (h ∷ gs) g (inl e) =
    subst (λ k. IsWholeGroup k × ((t : TableNode) → Among t k.children → IsWholeTable t)) e
      (refl, tick_tables-IsWholeTable h.children)
tick_groups-IsWholeGroup (h ∷ gs) g (inr i) = tick_groups-IsWholeGroup gs g i

-- A column of the nodes that are made at first is covered by the filters of the selection that the
-- component starts with exactly when it is selected, if no other group, no other table of its group
-- and no other column of its table has the same name.
pub covers-initial_selection :
    (lower : Text → Text) (columns : List Column) (g : GroupNode) (t : TableNode) (c : ColumnNode)
    → let value = value_by_id lower columns (λ id. []) in
      Among g (initial_nodes lower columns)
      → Among t g.children
      → Among c t.children
      → IsNamed (λ h. value h.id) g (initial_nodes lower columns)
      → IsNamed (λ u. value u.id) t g.children
      → IsNamed (λ d. value d.id) c t.children
      → any
          (covers (record { group = value g.id; table = value t.id; column = value c.id }))
          (initial_selection lower columns)
        ≡ c.selected
unfolding initial_selection initial_nodes
covers-initial_selection lower columns g t c k i j groups tables cs =
    let whole : _ = tick_groups-IsWholeGroup (mapping lower columns []) g k in
    covers-get_selection (value_by_id lower columns (λ id. [])) g t c (initial_nodes lower columns)
      k i j whole.0 (whole.1 t i) groups tables cs
