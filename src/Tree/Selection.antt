-- ===== src/Tree/Selection.antt =====
-- `selectTree` and `getMultiSelection`: what the multiple selection reports.
use dataops_testgen.Base.{
  ◌≡◌, refl, ap, ◌∙◌, ◌++◌, ◌∷◌, [], List, String, false, arith, if◌then◌else◌,
}
use dataops_testgen.Tree.{
  TreeNode, leaf, branch, TreeNodes, nil, cons, NodeState, select_node, select_tree, is_selected,
  SelectedNode, one, group, SelectedNodes, nothing, more, push_group, push_node,
  get_multi_selection,
}
use dataops_testgen.Tree.Everywhere.{Everywhere, EverywhereIn}

-- The leaves that a reported selection names.
abbrev mutual
  pub named_by : SelectedNode → List String
  named_by (one id) = id ∷ []
  named_by (group id whole ss) = named ss

  pub named : SelectedNodes → List String
  named nothing = []
  named (more s ss) = named_by s ++ named ss

-- The leaves whose checkbox is ticked.
abbrev mutual
  pub ticked_in : TreeNode NodeState → List String
  ticked_in (leaf r) = if r.selected then r.id ∷ [] else []
  ticked_in (branch r ns) = ticked ns

  pub ticked : TreeNodes NodeState → List String
  ticked nil = []
  ticked (cons n ns) = ticked_in n ++ ticked ns

named-push_group :
    (r : NodeState) (ns : TreeNodes NodeState) (ss rest : SelectedNodes)
    → named (push_group r ns ss rest) ≡ named ss ++ named rest
named-push_group r ns nothing rest = refl
named-push_group r ns (more s ss) rest = refl

mutual
  unfolding push_node

  named-push_node :
      (n : TreeNode NodeState) (rest : SelectedNodes)
      → named (push_node n rest) ≡ ticked_in n ++ named rest
  named-push_node (leaf r) rest = ground arith
  named-push_node (branch r ns) rest =
      named-push_group r ns (get_multi_selection ns) rest
      ∙ ap (λ l. l ++ named rest) (named-get_multi_selection_eq ns)

  named-get_multi_selection_eq :
      (ns : TreeNodes NodeState) → named (get_multi_selection ns) ≡ ticked ns
  named-get_multi_selection_eq nil = refl
  named-get_multi_selection_eq (cons n ns) =
      named-push_node n (get_multi_selection ns)
      ∙ ap (λ l. ticked_in n ++ l) (named-get_multi_selection_eq ns)

-- `getMultiSelection` names exactly the ticked leaves, in the order of the tree, hidden or not.
pub named-get_multi_selection :
    (ns : TreeNodes NodeState) → named (get_multi_selection ns) ≡ ticked ns
named-get_multi_selection ns = named-get_multi_selection_eq ns

mutual
  unfolding select_node

  select_node_clear :
      (n : TreeNode NodeState) → Everywhere (λ m. is_selected m ≡ false) (select_node false n)
  select_node_clear (leaf r) = refl
  select_node_clear (branch r ns) = (refl, select_tree_clear ns)

  select_tree_clear :
      (ns : TreeNodes NodeState) → EverywhereIn (λ m. is_selected m ≡ false) (select_tree false ns)
  select_tree_clear nil = tt
  select_tree_clear (cons n ns) = (select_node_clear n, select_tree_clear ns)

mutual
  unfolding push_node

  push_node_clear :
      (n : TreeNode NodeState) (rest : SelectedNodes)
      → Everywhere (λ m. is_selected m ≡ false) n
      → push_node n rest ≡ rest
  push_node_clear (leaf r) rest h = rw h refl
  push_node_clear (branch r ns) rest h = rw (get_multi_selection_clear ns h.1) refl

  get_multi_selection_clear :
      (ns : TreeNodes NodeState)
      → EverywhereIn (λ m. is_selected m ≡ false) ns
      → get_multi_selection ns ≡ nothing
  get_multi_selection_clear nil h = refl
  get_multi_selection_clear (cons n ns) h =
      push_node_clear n _ h.0 ∙ get_multi_selection_clear ns h.1

-- Leaving the multiple selection unticks every node, hidden ones too, and nothing is reported.
pub select_tree-false :
    (ns : TreeNodes NodeState)
    → EverywhereIn (λ m. is_selected m ≡ false) (select_tree false ns)
      × (get_multi_selection (select_tree false ns) ≡ nothing)
select_tree-false ns =
    (select_tree_clear ns, get_multi_selection_clear (select_tree false ns) (select_tree_clear ns))
