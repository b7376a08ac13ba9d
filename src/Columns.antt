-- ===== src/Columns.antt =====
-- Component `ColumnSelector` (testgen/ui/static/js/components/explorer_column_selector.js): the nodes that
-- it builds from the columns, and the filters that stand for a selection of nodes. `slugify` is from
-- testgen/ui/static/js/utils.js.
pub mod Loops
pub mod Covers
pub mod Initial
mod Tests
use dataops_testgen.Base.{
  ℕ, Bool, true, false, not, ◌&&◌, ◌||◌, List, [], ◌∷◌, ◌++◌, all, leb, ◌==◌, if◌then◌else◌,
}
use dataops_testgen.Base.Text.{Text, codes, text_eq}

-- `columnFieldName` and the names of the other fields
pub data Level : Type 0 where
  group_level : Level
  table_level : Level
  column_level : Level

-- The filters of `others` have no others.
pub record FilterValue : Type 0 where
  pub field : Level
  pub value : Text
  pub others : List (Level × Text)

pub record Column : Type 0 where
  pub name : Text
  pub table : Text
  pub table_group : Text
  pub selected : Bool

pub record ColumnNode : Type 0 where
  pub id : Text
  pub selected : Bool

-- `ticked` is `selected` in the nodes that are built, and `all` in those that the user has selected.
pub record TableNode : Type 0 where
  pub id : Text
  pub ticked : Bool
  pub children : List ColumnNode

pub record GroupNode : Type 0 where
  pub id : Text
  pub ticked : Bool
  pub children : List TableNode

-- `for (const x of xs)`, where each turn pushes a list
unfoldable pub push_each : {A B : Type 0} → (A → List B) → List A → List B
push_each push [] = []
push_each push (x ∷ xs) = push x ++ push_each push xs

-- `getSelectionFromTreeNodes`; `user` is `isFromUserAction`, and `value` is the lookup in `valueById`.
module _ (user : Bool) (value : Text → Text) where
  unfoldable pub column_filters : Text → Text → ColumnNode → List FilterValue
  column_filters group table c =
      if user || c.selected
      then record {
        field = column_level;
        value = value c.id;
        others = (table_level, value table) ∷ (group_level, value group) ∷ [];
      }
        ∷ []
      else []

  unfoldable pub table_filters : Text → TableNode → List FilterValue
  unfolding column_filters
  table_filters group t =
      if t.ticked
      then record {
        field = table_level;
        value = value t.id;
        others = (group_level, value group) ∷ [];
      }
        ∷ []
      else push_each (column_filters group t.id) t.children

  unfoldable pub group_filters : GroupNode → List FilterValue
  unfolding table_filters
  group_filters g =
      if g.ticked
      then record { field = group_level; value = value g.id; others = [] } ∷ []
      else push_each (table_filters g.id) g.children

  unfoldable pub get_selection : List GroupNode → List FilterValue
  unfolding group_filters
  get_selection groups = push_each group_filters groups

-- `[a-z0-9]`
abbrev pub is_slug : ℕ → Bool
is_slug c = leb b'a' c && leb c b'z' || leb b'0' c && leb c b'9'

-- `replace(/[^a-z0-9]+/g, '-')`, where the first argument says that the run before has its dash
unfoldable pub dashes : Bool → Text → Text
dashes dashed [] = []
dashes dashed (c ∷ s) =
    let in_run = dashes true s in
    let next = dashes false s in
    if is_slug c then c ∷ next else if dashed then in_run else b'-' ∷ in_run

-- `replace(/^-|-$/g, '')`
abbrev pub drop_first_dash : Text → Text
drop_first_dash [] = []
drop_first_dash (c ∷ s) = if c == b'-' then s else c ∷ s

unfoldable pub drop_last_dash : Text → Text
drop_last_dash [] = []
drop_last_dash (c ∷ []) = if c == b'-' then [] else c ∷ []
drop_last_dash (c ∷ d ∷ s) = let rest = drop_last_dash (d ∷ s) in c ∷ rest

-- The nodes of the object `children` that have the key `id`, or a new one, changed by `f`.
unfoldable pub put_node : {A : Type 0} → (A → Bool) → (A → A) → A → List A → List A
put_node is_it f new [] = f new ∷ []
put_node is_it f new (x ∷ xs) =
    let rest = put_node is_it f new xs in if is_it x then f x ∷ xs else x ∷ rest

-- `lower` is `toLowerCase`.
module _ (lower : Text → Text) where
  unfoldable pub slugify : Text → Text
  unfolding dashes drop_last_dash
  slugify str = drop_last_dash (drop_first_dash (dashes false (lower str)))

  abbrev pub group_id : Column → Text
  group_id c = codes "table_groups_name:" ++ slugify c.table_group

  abbrev pub table_id : Column → Text
  table_id c = codes "table_name:" ++ slugify c.table_group ++ codes ":" ++ slugify c.table

  abbrev pub column_id : Column → Text
  column_id c =
      codes "column_name:"
      ++ slugify c.table_group
      ++ codes ":"
      ++ slugify c.table
      ++ codes ":"
      ++ slugify c.name

  unfoldable pub put_column : Column → List ColumnNode → List ColumnNode
  unfolding put_node
  put_column c =
      put_node (λ n. text_eq n.id (column_id c)) (λ n. record n { selected = c.selected })
        (record { id = column_id c; selected = c.selected })

  unfoldable pub put_table : Column → List TableNode → List TableNode
  unfolding put_node put_column
  put_table c =
      put_node (λ n. text_eq n.id (table_id c))
        (λ n. record n { children = put_column c n.children })
        (record { id = table_id c; ticked = false; children = [] })

  -- One turn of the loop over the columns.
  unfoldable pub put_group : Column → List GroupNode → List GroupNode
  unfolding put_node put_table
  put_group c =
      put_node (λ n. text_eq n.id (group_id c))
        (λ n. record n { children = put_table c n.children })
        (record { id = group_id c; ticked = false; children = [] })

  unfoldable pub mapping : List Column → List GroupNode → List GroupNode
  unfolding put_group
  mapping [] groups = groups
  mapping (c ∷ cs) groups = mapping cs (put_group c groups)

  -- One turn writes the names of the column into `valueById`.
  abbrev pub put_values : Column → (Text → Text) → Text → Text
  put_values c values id =
      if text_eq id (column_id c)
      then c.name
      else if text_eq id (table_id c)
      then c.table
      else if text_eq id (group_id c)
      then c.table_group
      else values id

  -- `valueById`, with the empty text for `undefined`
  unfoldable pub value_by_id : List Column → (Text → Text) → Text → Text
  value_by_id [] values = values
  value_by_id (c ∷ cs) values = value_by_id cs (put_values c values)

-- `table.selected = table.children.every(child => child.selected)`, and so for the groups
abbrev pub tick_table : TableNode → TableNode
tick_table t = record t { ticked = all (λ c. c.selected) t.children }

unfoldable pub tick_tables : List TableNode → List TableNode
tick_tables [] = []
tick_tables (t ∷ ts) = tick_table t ∷ tick_tables ts

abbrev pub tick_group : GroupNode → GroupNode
tick_group g = record g {
  ticked = all (λ t. t.ticked) (tick_tables g.children);
  children = tick_tables g.children;
}

unfoldable pub tick_groups : List GroupNode → List GroupNode
unfolding tick_tables
tick_groups [] = []
tick_groups (g ∷ gs) = tick_group g ∷ tick_groups gs

-- The nodes of `initlialize`.
unfoldable pub initial_nodes : (Text → Text) → List Column → List GroupNode
unfolding mapping tick_groups
initial_nodes lower columns = tick_groups (mapping lower columns [])

-- The selection of `initlialize`.
unfoldable pub initial_selection : (Text → Text) → List Column → List FilterValue
unfolding initial_nodes value_by_id get_selection
initial_selection lower columns =
    get_selection false (value_by_id lower columns (λ id. [])) (initial_nodes lower columns)
