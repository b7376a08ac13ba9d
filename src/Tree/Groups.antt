-- ===== src/Tree/Groups.antt =====
-- The `all` of a reported group, in a tree whose nodes have either leaves or groups below them.
use dataops_testgen.Base.{
  ℕ, ◌≤◌, suc, ◌≡◌, refl, ◌∙◌, Bool, true, false, not, ◌||◌, ◌&&◌, ◌==◌, all, length, arith, inl,
  inr, ◌⊎◌, if◌then◌else◌,
}
use dataops_testgen.Tree.{
  TreeNode, leaf, branch, TreeNodes, nil, cons, NodeState, nodes, group, SelectedNodes, nothing,
  more, selected_nodes, is_all, starts_with_one, whole_group, push_group, push_node,
  get_multi_selection,
}

-- Every leaf is ticked.
abbrev mutual
  pub every_leaf_of : TreeNode NodeState → Bool
  every_leaf_of (leaf r) = r.selected
  every_leaf_of (branch r ns) = every_leaf ns

  pub every_leaf : TreeNodes NodeState → Bool
  every_leaf nil = true
  every_leaf (cons n ns) = every_leaf_of n && every_leaf ns

-- Some leaf is ticked.
abbrev mutual
  pub some_leaf_of : TreeNode NodeState → Bool
  some_leaf_of (leaf r) = r.selected
  some_leaf_of (branch r ns) = some_leaf ns

  pub some_leaf : TreeNodes NodeState → Bool
  some_leaf nil = false
  some_leaf (cons n ns) = some_leaf_of n || some_leaf ns

abbrev pub IsLeaf : TreeNode NodeState → Type 0
IsLeaf (leaf r) = Unit
IsLeaf (branch r ns) = ⊥

abbrev pub IsBranch : TreeNode NodeState → Type 0
IsBranch (leaf r) = ⊥
IsBranch (branch r ns) = Unit

abbrev pub Each : (TreeNode NodeState → Type 0) → TreeNodes NodeState → Type 0
Each P nil = Unit
Each P (cons n ns) = P n × Each P ns

abbrev pub IsNonempty : TreeNodes NodeState → Type 0
IsNonempty nil = ⊥
IsNonempty (cons n ns) = Unit

abbrev mutual
  pub IsUniformNode : TreeNode NodeState → Type 0
  IsUniformNode (leaf r) = Unit
  IsUniformNode (branch r ns) = IsNonempty ns × (Each IsLeaf ns ⊎ Each IsBranch ns) × IsUniform ns

  pub IsUniform : TreeNodes NodeState → Type 0
  IsUniform nil = Unit
  IsUniform (cons n ns) = IsUniformNode n × IsUniform ns

abbrev is_nothing : SelectedNodes → Bool
is_nothing nothing = true
is_nothing (more s ss) = false

is_nothing-push_group :
    (r : NodeState) (ns : TreeNodes NodeState) (ss rest : SelectedNodes)
    → is_nothing (push_group r ns ss rest) ≡ is_nothing ss && is_nothing rest
is_nothing-push_group r ns nothing rest = refl
is_nothing-push_group r ns (more s ss) rest = refl

mutual
  unfolding push_node

  is_nothing-push_node :
      (n : TreeNode NodeState) (rest : SelectedNodes)
      → is_nothing (push_node n rest) ≡ not (some_leaf_of n) && is_nothing rest
  is_nothing-push_node (leaf r) rest = ground arith
  is_nothing-push_node (branch r ns) rest =
      is_nothing-push_group r ns (get_multi_selection ns) rest ∙ rw (is_nothing-get ns) refl

  is_nothing-get :
      (ns : TreeNodes NodeState) → is_nothing (get_multi_selection ns) ≡ not (some_leaf ns)
  is_nothing-get nil = refl
  is_nothing-get (cons n ns) =
      is_nothing-push_node n (get_multi_selection ns) ∙ rw (is_nothing-get ns) (ground arith)

-- A tree with a leaf in each group cannot have all ticked and none.
mutual
  every-some_leaf_of :
      (n : TreeNode NodeState) → IsUniformNode n → every_leaf_of n ≡ true → some_leaf_of n ≡ true
  every-some_leaf_of (leaf r) u h = h
  every-some_leaf_of (branch r ns) u h = every-some_leaf ns u.0 u.2 h

  every-some_leaf :
      (ns : TreeNodes NodeState)
      → IsNonempty ns
      → IsUniform ns
      → every_leaf ns ≡ true
      → some_leaf ns ≡ true
  every-some_leaf nil e u h = absurd e
  every-some_leaf (cons n ns) e u h = ground (arith, every-some_leaf_of n u.0)

abbrev size : SelectedNodes → ℕ
size ss = length (selected_nodes ss)

size-push_node :
    (n : TreeNode NodeState) (rest : SelectedNodes)
    → size (push_node n rest) ≡ (if some_leaf_of n then suc (size rest) else size rest)
unfolding push_node
size-push_node (leaf r) rest = ground arith
size-push_node (branch r ns) rest = go (get_multi_selection ns) (is_nothing-get ns)
  where
    go :
        (ss : SelectedNodes)
        → is_nothing ss ≡ not (some_leaf ns)
        → size (push_group r ns ss rest) ≡ (if some_leaf ns then suc (size rest) else size rest)
    go nothing h = ground arith
    go (more s ss) h = ground arith

size-le : (ns : TreeNodes NodeState) → size (get_multi_selection ns) ≤ length (nodes ns)
unfolding push_node
size-le nil = omega arith
size-le (cons n ns) = ground (arith, size-push_node n (get_multi_selection ns), size-le ns)

leaves_whole :
    (ns : TreeNodes NodeState)
    → Each IsLeaf ns
    → ((size (get_multi_selection ns) == length (nodes ns)) ≡ every_leaf ns)
      × (starts_with_one (get_multi_selection ns) ≡ true)
unfolding push_node
leaves_whole nil u = (refl, refl)
leaves_whole (cons (leaf r) ns) u =
    let (e, s) = leaves_whole ns u.1 in (ground (arith, size-le ns), ground arith)
leaves_whole (cons (branch r cs) ns) u = absurd u.0

branches_start :
    (ns : TreeNodes NodeState)
    → Each IsBranch ns
    → some_leaf ns ≡ true
    → starts_with_one (get_multi_selection ns) ≡ false
unfolding push_node
branches_start nil u h = cc
branches_start (cons (leaf r) ns) u h = absurd u.0
branches_start (cons (branch r cs) ns) u h =
    go (get_multi_selection cs) (is_nothing-get cs) (branches_start ns u.1)
  where
    go :
        (ss : SelectedNodes)
        → is_nothing ss ≡ not (some_leaf cs)
        → (some_leaf ns ≡ true → starts_with_one (get_multi_selection ns) ≡ false)
        → starts_with_one (push_group r cs ss (get_multi_selection ns)) ≡ false
    go nothing e ih = ih (ground arith)
    go (more s ss) e ih = refl

abbrev AllWhole : TreeNodes NodeState → Type 0
AllWhole ns =
    (size (get_multi_selection ns) == length (nodes ns)
      && all is_all (selected_nodes (get_multi_selection ns)))
    ≡ every_leaf ns

whole_group_of :
    (ns : TreeNodes NodeState)
    → Each IsLeaf ns ⊎ Each IsBranch ns
    → some_leaf ns ≡ true
    → (Each IsBranch ns → AllWhole ns)
    → whole_group (get_multi_selection ns) ns ≡ every_leaf ns
unfolding whole_group
whole_group_of ns (inl u) h b = let (e, s) = leaves_whole ns u in rw (s, e) (ground arith)
whole_group_of ns (inr u) h b = rw (branches_start ns u h) (b u)

-- One round, for a group that is reported and for one that is not.
push_group_whole :
    (r : NodeState) (cs ns : TreeNodes NodeState) (ss rest : SelectedNodes)
    → IsNonempty cs
    → IsUniform cs
    → is_nothing ss ≡ not (some_leaf cs)
    → (some_leaf cs ≡ true → whole_group ss cs ≡ every_leaf cs)
    → size rest ≤ length (nodes ns)
    → (size rest == length (nodes ns) && all is_all (selected_nodes rest)) ≡ every_leaf ns
    → (size (push_group r cs ss rest) == suc (length (nodes ns))
        && all is_all (selected_nodes (push_group r cs ss rest)))
      ≡ (every_leaf cs && every_leaf ns)
push_group_whole r cs ns nothing rest e u h w le ih = ground (arith, every-some_leaf cs e u)
push_group_whole r cs ns (more s ss) rest e u h w le ih = ground arith

branches_whole : (ns : TreeNodes NodeState) → IsUniform ns → Each IsBranch ns → AllWhole ns
unfolding push_node
branches_whole nil v u = refl
branches_whole (cons (leaf r) ns) v u = absurd u.0
branches_whole (cons (branch r cs) ns) v u =
    push_group_whole r cs ns (get_multi_selection cs) (get_multi_selection ns) v.0.0 v.0.2
      (is_nothing-get cs) (λ h. whole_group_of cs v.0.1 h (branches_whole cs v.0.2)) (size-le ns)
      (branches_whole ns v.1 u.1)

-- Where each group has leaves only or groups only below it, and no group is empty, a group is
-- reported exactly when some leaf below it is ticked, and its `all` says whether every one is.
pub push_node_branch :
    (r : NodeState) (ns : TreeNodes NodeState) (rest : SelectedNodes)
    → IsUniformNode (branch r ns)
    → push_node (branch r ns) rest ≡ (
        if some_leaf ns
        then more (group r.id (every_leaf ns) (get_multi_selection ns)) rest
        else rest)
unfolding push_node
push_node_branch r ns rest u =
    go (get_multi_selection ns) (is_nothing-get ns)
      (λ h. whole_group_of ns u.1 h (branches_whole ns u.2))
  where
    go :
        (ss : SelectedNodes)
        → is_nothing ss ≡ not (some_leaf ns)
        → (some_leaf ns ≡ true → whole_group ss ns ≡ every_leaf ns)
        → push_group r ns ss rest
          ≡ (if some_leaf ns then more (group r.id (every_leaf ns) ss) rest else rest)
    go nothing h w = ground arith
    go (more s ss) h w = ground arith
