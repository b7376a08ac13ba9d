-- ===== src/Tree/Tests.antt =====
-- A small tree, what the functions make of it, and the theorems at it.
use dataops_testgen.Base.{
  ◌≡◌, refl, String, Bool, true, false, not, none, some, [], ◌∷◌, inl, str_eq,
}
use dataops_testgen.Tree.{
  TreeNode, leaf, branch, TreeNodes, nil, cons, NodeProps, NodeState, row, init_tree_state,
  filter_tree, one, group, nothing, more, push_node, whole_group, get_multi_selection, click_node,
  click_nodes,
}
use dataops_testgen.Tree.Everywhere.{Everywhere, EverywhereIn, AlongIn, ids}
use dataops_testgen.Tree.Search.{
  mentions_in, IsFresh, init_tree_state_lem, IsSearched, filter_tree-Along,
}
use dataops_testgen.Tree.Selection.{named, ticked, named-get_multi_selection}
use dataops_testgen.Tree.Groups.{push_node_branch}
use dataops_testgen.Tree.Clicks.{Agrees, Has, click_node-Has, click_nodes-Agrees}

abbrev state : String → Bool → NodeState
state id v = record {
  id = id;
  label = id;
  level = 0;
  expanded = false;
  hidden = false;
  selected = v;
}

abbrev props : String → NodeProps
props id = record { id = id; label = id; selected = none }

-- A table with the columns "a", ticked, and "b".
abbrev columns : TreeNodes NodeState
columns = cons (leaf (state "a" true)) (cons (leaf (state "b" false)) nil)

abbrev schema : TreeNodes NodeState
schema = cons (branch (state "t" false) columns) nil

abbrev only_b : TreeNode NodeState → Bool
only_b n = not (str_eq (row n).id "b")

abbrev given : TreeNodes NodeProps
given = cons (branch (props "t") (cons (leaf (props "a")) (cons (leaf (props "b")) nil))) nil

selection_test :
    get_multi_selection schema ≡ more (group "t" false (more (one "a") nothing)) nothing
unfolding push_node whole_group
selection_test = refl

click_test :
    click_nodes schema 0 (1 ∷ [])
    ≡ some (
        cons
          (branch
            (state "t" true)
            (cons (leaf (state "a" true)) (cons (leaf (state "b" true)) nil)))
          nil)
unfolding click_node
click_test = refl

init_tree_state_lem_example :
    (ids (λ r. r.id) (init_tree_state (some "b") 0 given).1 ≡ ids (λ r. r.id) given)
    × ((init_tree_state (some "b") 0 given).0
        ≡ mentions_in (some "b") (init_tree_state (some "b") 0 given).1)
    × EverywhereIn (IsFresh (some "b")) (init_tree_state (some "b") 0 given).1
init_tree_state_lem_example = init_tree_state_lem (some "b") 0 given

filter_tree-Along_example : AlongIn (IsSearched only_b) schema (filter_tree only_b schema)
filter_tree-Along_example = filter_tree-Along only_b schema

named-get_multi_selection_example : named (get_multi_selection schema) ≡ ticked schema
named-get_multi_selection_example = named-get_multi_selection schema

push_node_branch_example :
    push_node (branch (state "t" false) columns) nothing
    ≡ more (group "t" false (get_multi_selection columns)) nothing
push_node_branch_example =
    push_node_branch (state "t" false) columns nothing (tt, inl (tt, (tt, tt)), (tt, (tt, tt)))

click_node-Has_example :
    (m : TreeNode NodeState) × (click_node (branch (state "t" false) columns) [] ≡ some m)
    × Everywhere (Has true) m
click_node-Has_example =
    click_node-Has (state "t" false) (leaf (state "a" true)) (cons (leaf (state "b" false)) nil)
      (refl, (refl, tt)) refl

click_nodes-Agrees_example : EverywhereIn Agrees (
    cons
      (branch (state "t" true) (cons (leaf (state "a" true)) (cons (leaf (state "b" true)) nil)))
      nil)
click_nodes-Agrees_example =
    click_nodes-Agrees schema _ 0 (1 ∷ []) ((refl, (refl, (refl, tt))), tt)
      ((refl, (tt, (tt, tt))), tt) click_test
