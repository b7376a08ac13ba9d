-- ===== src/Tree.antt =====
-- Component `Tree` (testgen/ui/static/js/components/tree.js): the nodes and the functions that
-- set their states. An array of nodes has a list type of its own; a node whose `children` is
-- undefined is a `leaf`. The functions that write `node.x.val` return the new nodes.
pub mod Everywhere
pub mod Search
pub mod Selection
pub mod Groups
pub mod Clicks
mod Tests
use mathlib.Core.Option
use dataops_testgen.Base.{
  ℕ, zero, suc, ◌+◌, String, Bool, true, false, not, ◌&&◌, ◌||◌, Option, none, some, List, [], ◌∷◌,
  str_eq, or_default, if◌then◌else◌, length, all, any, ◌==◌,
}

-- `R` is what a node carries beside its children.
mutual
  pub data TreeNode (R : Type 0) : Type 0 where
    leaf : R → TreeNode R
    branch : R → TreeNodes R → TreeNode R

  pub data TreeNodes (R : Type 0) : Type 0 where
    nil : TreeNodes R
    cons : TreeNode R → TreeNodes R → TreeNodes R

-- A node as the page gives it.
pub record NodeProps : Type 0 where
  pub id : String
  pub label : String
  pub selected : Option Bool

-- A node after `initTreeState`: the three van states, and the level.
pub record NodeState : Type 0 where
  pub id : String
  pub label : String
  pub level : ℕ
  pub expanded : Bool
  pub hidden : Bool
  pub selected : Bool

abbrev pub row : {R : Type 0} → TreeNode R → R
row (leaf r) = r
row (branch r ns) = r

abbrev pub nodes : {R : Type 0} → TreeNodes R → List (TreeNode R)
nodes nil = []
nodes (cons n ns) = n ∷ nodes ns

-- `node.id === selected`, false where nothing is selected
abbrev pub is_id : Option String → String → Bool
is_id none id = false
is_id (some s) id = str_eq id s

init_row : Bool → ℕ → NodeProps → NodeState
init_row expanded level r = record {
  id = r.id;
  label = r.label;
  level = level;
  expanded = expanded;
  hidden = false;
  selected = or_default r.selected false;
}

mutual
  pub init_node : Option String → ℕ → TreeNode NodeProps → Bool × TreeNode NodeState
  init_node sel level (leaf r) =
      let expanded = is_id sel r.id in (expanded, leaf (init_row expanded level r))
  init_node sel level (branch r ns) =
      let (below, ns') = init_tree_state sel (level + 1) ns in
      let expanded = below || is_id sel r.id in (expanded, branch (init_row expanded level r) ns')

  pub init_tree_state : Option String → ℕ → TreeNodes NodeProps → Bool × TreeNodes NodeState
  init_tree_state sel level nil = (false, nil)
  init_tree_state sel level (cons n ns) =
      let (e, n') = init_node sel level n in
      let (es, ns') = init_tree_state sel level ns in (e || es, cons n' ns')

abbrev pub is_hidden : TreeNode NodeState → Bool
is_hidden n = (row n).hidden

abbrev pub is_selected : TreeNode NodeState → Bool
is_selected n = (row n).selected

-- `hide` is `isNodeHidden`, which sees the node before the call writes to it.
mutual
  pub filter_node : (TreeNode NodeState → Bool) → TreeNode NodeState → TreeNode NodeState
  filter_node hide (leaf r) = leaf (record r { hidden = hide (leaf r) })
  filter_node hide (branch r ns) =
      let ns' = filter_tree hide ns in
      branch (record r { hidden = hide (branch r ns) && all is_hidden (nodes ns') }) ns'

  pub filter_tree : (TreeNode NodeState → Bool) → TreeNodes NodeState → TreeNodes NodeState
  filter_tree hide nil = nil
  filter_tree hide (cons n ns) = cons (filter_node hide n) (filter_tree hide ns)

-- `noMatches`
pub no_matches : TreeNodes NodeState → Bool
no_matches ns = all is_hidden (nodes ns)

-- `expandOrCollapseTree`
mutual
  pub expand_node : Bool → TreeNode NodeState → TreeNode NodeState
  expand_node expanded (leaf r) = leaf r
  expand_node expanded (branch r ns) =
      branch (record r { expanded = expanded }) (expand_or_collapse_tree expanded ns)

  pub expand_or_collapse_tree : Bool → TreeNodes NodeState → TreeNodes NodeState
  expand_or_collapse_tree expanded nil = nil
  expand_or_collapse_tree expanded (cons n ns) =
      cons (expand_node expanded n) (expand_or_collapse_tree expanded ns)

mutual
  pub select_node : Bool → TreeNode NodeState → TreeNode NodeState
  select_node v (leaf r) =
      if not v || not r.hidden then leaf (record r { selected = v }) else leaf r
  select_node v (branch r ns) =
      let below = select_tree v ns in
      if not v || not r.hidden then branch (record r { selected = v }) below else branch r ns

  pub select_tree : Bool → TreeNodes NodeState → TreeNodes NodeState
  select_tree v nil = nil
  select_tree v (cons n ns) = cons (select_node v n) (select_tree v ns)

-- What `getMultiSelection` returns; `one` has an `id` only.
mutual
  pub data SelectedNode : Type 0 where
    one : String → SelectedNode
    group : String → Bool → SelectedNodes → SelectedNode

  pub data SelectedNodes : Type 0 where
    nothing : SelectedNodes
    more : SelectedNode → SelectedNodes → SelectedNodes

abbrev pub selected_nodes : SelectedNodes → List SelectedNode
selected_nodes nothing = []
selected_nodes (more s ss) = s ∷ selected_nodes ss

-- `child.all`, undefined on a leaf
abbrev pub is_all : SelectedNode → Bool
is_all (one id) = false
is_all (group id whole ss) = whole

-- `selectedChildren[0]?.children === undefined`
abbrev pub starts_with_one : SelectedNodes → Bool
starts_with_one nothing = true
starts_with_one (more (one id) ss) = true
starts_with_one (more (group id whole cs) ss) = false

-- The `all` of a group of which `ss` are selected among the children `ns`.
pub whole_group : SelectedNodes → TreeNodes NodeState → Bool
whole_group ss ns =
    length (selected_nodes ss) == length (nodes ns)
    && (starts_with_one ss || all is_all (selected_nodes ss))

-- One round of the loop of `getMultiSelection`: a group is pushed if any of it is selected.
abbrev push_group : NodeState → TreeNodes NodeState → SelectedNodes → SelectedNodes → SelectedNodes
push_group r ns nothing rest = rest
push_group r ns (more s ss) rest = more (group r.id (whole_group (more s ss) ns) (more s ss)) rest

mutual
  pub push_node : TreeNode NodeState → SelectedNodes → SelectedNodes
  push_node (leaf r) rest = if r.selected then more (one r.id) rest else rest
  push_node (branch r ns) rest = push_group r ns (get_multi_selection ns) rest

  pub get_multi_selection : TreeNodes NodeState → SelectedNodes
  get_multi_selection nil = nothing
  get_multi_selection (cons n ns) = push_node n (get_multi_selection ns)

mutual
  pub is_any_descendant_selected : TreeNode NodeState → Bool
  is_any_descendant_selected (leaf r) = false
  is_any_descendant_selected (branch r ns) = is_any_selected ns

  -- the loop over `node.children`
  pub is_any_selected : TreeNodes NodeState → Bool
  is_any_selected nil = false
  is_any_selected (cons n ns) =
      (is_selected n || is_any_descendant_selected n) || is_any_selected ns

pub is_indeterminate : TreeNode NodeState → Bool
is_indeterminate n = not (is_selected n) && is_any_descendant_selected n

-- `node.selected.val = node.children.every(child => child.selected.val)`
abbrev pub refresh : NodeState → TreeNodes NodeState → TreeNode NodeState
refresh r ns = branch (record r { selected = all is_selected (nodes ns) }) ns

-- The `onclick` of a node with children, for an event that did not pass through a child.
click_group : NodeState → TreeNodes NodeState → TreeNode NodeState
click_group r ns =
    let unticked = any (λ c. not (is_hidden c) && not (is_selected c)) (nodes ns) in
    refresh r (select_tree (if r.selected then false else unticked) ns)

-- A click on the row at a path of child indices; `none` if there is no such row. The event goes
-- up from the row, so each node above it sees `event.fromChild`.
mutual
  pub click_node : TreeNode NodeState → List ℕ → Option (TreeNode NodeState)
  click_node (leaf r) [] = some (leaf (record r { selected = not r.selected }))
  click_node (leaf r) (i ∷ path) = none
  click_node (branch r nil) [] = some (branch (record r { selected = not r.selected }) nil)
  click_node (branch r (cons n ns)) [] = some (click_group r (cons n ns))
  click_node (branch r ns) (i ∷ path) = Option.map (refresh r) (click_nodes ns i path)

  pub click_nodes : TreeNodes NodeState → ℕ → List ℕ → Option (TreeNodes NodeState)
  click_nodes nil i path = none
  click_nodes (cons n ns) zero path = Option.map (λ n'. cons n' ns) (click_node n path)
  click_nodes (cons n ns) (suc i) path = Option.map (λ ns'. cons n ns') (click_nodes ns i path)
