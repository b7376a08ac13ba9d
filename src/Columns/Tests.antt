-- ===== src/Columns/Tests.antt =====
-- Runs of the selection of columns.
use dataops_testgen.Base.{◌++◌, ◌≡◌, refl, Bool, true, false, List, [], ◌∷◌, any, inl, inr}
use dataops_testgen.Base.Text.{Text, codes}
use dataops_testgen.Columns.{
  ColumnNode, TableNode, GroupNode, Column, TableNode, GroupNode, push_each, column_filters,
  table_filters, group_filters, get_selection, dashes, drop_last_dash, slugify, put_node,
  put_column, put_table, put_group, mapping, value_by_id, tick_tables, tick_groups, initial_nodes,
  initial_selection,
}
use dataops_testgen.Columns.Covers.{covers}
use dataops_testgen.Columns.Initial.{covers-initial_selection}

abbrev keep_case : Text → Text
keep_case t = t

slug_test : slugify keep_case (codes "_my  table_") ≡ codes "my-table"
unfolding slugify dashes drop_last_dash
slug_test = refl

abbrev column : Text → Text → Bool → Column
column name table selected = record {
  name = name;
  table = table;
  table_group = codes "g";
  selected = selected;
}

abbrev two_tables : List Column
two_tables =
    column (codes "a") (codes "t") true
    ∷ column (codes "b") (codes "u") true
    ∷ column (codes "c") (codes "u") false
    ∷ []

-- One table is whole, of the other a column is selected.
selection_test :
    push_each (λ f. f.value ∷ []) (initial_selection keep_case two_tables)
    ≡ codes "t" ∷ codes "b" ∷ []
unfolding push_each column_filters table_filters group_filters get_selection dashes drop_last_dash
    slugify put_node put_column put_table put_group mapping value_by_id tick_tables tick_groups
    initial_nodes initial_selection
selection_test = refl

-- Two tables whose names have one slug are one node, under the name of the second.
collision_test :
    push_each
      (λ f. f.value ∷ [])
      (initial_selection keep_case (
        column (codes "a") (codes "t_1") true
        ∷ column (codes "b") (codes "t-1") true
        ∷ column (codes "c") (codes "u") false
        ∷ []))
    ≡ codes "t-1" ∷ []
unfolding push_each column_filters table_filters group_filters get_selection dashes drop_last_dash
    slugify put_node put_column put_table put_group mapping value_by_id tick_tables tick_groups
    initial_nodes initial_selection
collision_test = refl

abbrev node : Text → Bool → ColumnNode
node name selected = record { id = codes "column_name:g:u:" ++ name; selected = selected }

abbrev table_u : TableNode
table_u = record {
  id = codes "table_name:g:u";
  ticked = false;
  children = node (codes "b") true ∷ node (codes "c") false ∷ [];
}

abbrev table_t : TableNode
table_t = record {
  id = codes "table_name:g:t";
  ticked = true;
  children = record { id = codes "column_name:g:t:a"; selected = true } ∷ [];
}

abbrev group_g : GroupNode
group_g = record {
  id = codes "table_groups_name:g";
  ticked = false;
  children = table_t ∷ table_u ∷ [];
}

covers-initial_selection_example :
    any
      (covers (record {
        group = value_by_id keep_case two_tables (λ id. []) group_g.id;
        table = value_by_id keep_case two_tables (λ id. []) table_u.id;
        column = value_by_id keep_case two_tables (λ id. []) (node (codes "b") true).id;
      }))
      (initial_selection keep_case two_tables)
    ≡ true
unfolding dashes drop_last_dash slugify put_node put_column put_table put_group mapping value_by_id
    tick_tables tick_groups initial_nodes
covers-initial_selection_example =
    covers-initial_selection keep_case two_tables group_g table_u (node (codes "b") true) (inl refl)
      (inr (inl refl)) (inl refl) (inl refl, tt) (inr refl, (inl refl, tt))
      (inl refl, (inr refl, tt))
