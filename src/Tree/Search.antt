-- ===== src/Tree/Search.antt =====
-- `initTreeState`, `filterTree` and `expandOrCollapseTree`: what is expanded and what is hidden.
use dataops_testgen.Base.{
  ℕ, ◌+◌, ◌≡◌, refl, ap, ap₂, ◌++◌, ◌∷◌, String, Bool, false, ◌||◌, ◌&&◌, Option, ◌↔◌, all, arith,
  inl, inr, ◌⊎◌,
}
use dataops_testgen.Tree.{
  TreeNode, leaf, branch, TreeNodes, nil, cons, NodeProps, NodeState, row, nodes, is_id, is_hidden,
  init_row, init_node, init_tree_state, filter_node, filter_tree, no_matches,
}
use dataops_testgen.Tree.Everywhere.{Everywhere, EverywhereIn, Along, AlongIn, ids_of, ids}

-- The node or a node below it has the selected id.
abbrev mutual
  pub mentions : Option String → TreeNode NodeState → Bool
  mentions sel (leaf r) = is_id sel r.id
  mentions sel (branch r ns) = mentions_in sel ns || is_id sel r.id

  pub mentions_in : Option String → TreeNodes NodeState → Bool
  mentions_in sel nil = false
  mentions_in sel (cons n ns) = mentions sel n || mentions_in sel ns

abbrev pub IsFresh : Option String → TreeNode NodeState → Type 0
IsFresh sel n = ((row n).expanded ≡ mentions sel n) × ((row n).hidden ≡ false)

mutual
  unfolding init_node init_row

  init_node-IsFresh :
      (sel : Option String) (level : ℕ) (n : TreeNode NodeProps)
      → ((init_node sel level n).0 ≡ mentions sel (init_node sel level n).1)
        × Everywhere (IsFresh sel) (init_node sel level n).1
  init_node-IsFresh sel level (leaf r) = (refl, (refl, refl))
  init_node-IsFresh sel level (branch r ns) =
      let (e, h) = init_tree_state-IsFresh sel (level + 1) ns in (rw e refl, ((rw e refl, refl), h))

  init_tree_state-IsFresh :
      (sel : Option String) (level : ℕ) (ns : TreeNodes NodeProps)
      → ((init_tree_state sel level ns).0 ≡ mentions_in sel (init_tree_state sel level ns).1)
        × EverywhereIn (IsFresh sel) (init_tree_state sel level ns).1
  init_tree_state-IsFresh sel level nil = (refl, tt)
  init_tree_state-IsFresh sel level (cons n ns) =
      let (e, h) = init_node-IsFresh sel level n in
      let (es, hs) = init_tree_state-IsFresh sel level ns in (rw (e, es) refl, (h, hs))

mutual
  unfolding init_node init_row

  ids_of-init_node :
      (sel : Option String) (level : ℕ) (n : TreeNode NodeProps)
      → ids_of (λ r. r.id) (init_node sel level n).1 ≡ ids_of (λ r. r.id) n
  ids_of-init_node sel level (leaf r) = refl
  ids_of-init_node sel level (branch r ns) = ap (r.id ∷◌) (ids-init_tree_state sel (level + 1) ns)

  ids-init_tree_state :
      (sel : Option String) (level : ℕ) (ns : TreeNodes NodeProps)
      → ids (λ r. r.id) (init_tree_state sel level ns).1 ≡ ids (λ r. r.id) ns
  ids-init_tree_state sel level nil = refl
  ids-init_tree_state sel level (cons n ns) =
      ap₂ ◌++◌ (ids_of-init_node sel level n) (ids-init_tree_state sel level ns)

-- `initTreeState` keeps the ids in their order; the flag that it returns says whether the selected
-- id is in the tree, and then each node is expanded exactly when it or a node below it has that
-- id, and no node is hidden.
pub init_tree_state_lem :
    (sel : Option String) (level : ℕ) (ns : TreeNodes NodeProps)
    → (ids (λ r. r.id) (init_tree_state sel level ns).1 ≡ ids (λ r. r.id) ns)
      × ((init_tree_state sel level ns).0 ≡ mentions_in sel (init_tree_state sel level ns).1)
      × EverywhereIn (IsFresh sel) (init_tree_state sel level ns).1
init_tree_state_lem sel level ns =
    let (e, h) = init_tree_state-IsFresh sel level ns in (ids-init_tree_state sel level ns, e, h)

-- A node that the search keeps, somewhere in the tree.
mutual
  pub data Matches (hide : TreeNode NodeState → Bool) : TreeNode NodeState → Type 0 where
    here : {n : TreeNode NodeState} → hide n ≡ false → Matches hide n
    below :
        {r : NodeState} {ns : TreeNodes NodeState} → MatchesIn hide ns → Matches hide (branch r ns)

  pub data MatchesIn (hide : TreeNode NodeState → Bool) : TreeNodes NodeState → Type 0 where
    first :
        {n : TreeNode NodeState} {ns : TreeNodes NodeState}
        → Matches hide n
        → MatchesIn hide (cons n ns)
    later :
        {n : TreeNode NodeState} {ns : TreeNodes NodeState}
        → MatchesIn hide ns
        → MatchesIn hide (cons n ns)

and-eq-false : (a b : Bool) → (a && b) ≡ false → (a ≡ false) ⊎ (b ≡ false)
and-eq-false a b h = ground arith

and-eq-false_of_right : (a b : Bool) → b ≡ false → (a && b) ≡ false
and-eq-false_of_right a b h = ground arith

module _ (hide : TreeNode NodeState → Bool) where
  mutual
    unfolding filter_node

    filter_node_sound :
        (n : TreeNode NodeState) → is_hidden (filter_node hide n) ≡ false → Matches hide n
    filter_node_sound (leaf r) h = here h
    filter_node_sound (branch r ns) h = elim (and-eq-false _ _ h) [
      | inl e ↦ here e
      | inr e ↦ below (filter_tree_sound ns e)
    ]

    filter_tree_sound :
        (ns : TreeNodes NodeState)
        → all is_hidden (nodes (filter_tree hide ns)) ≡ false
        → MatchesIn hide ns
    filter_tree_sound nil h = cc
    filter_tree_sound (cons n ns) h = elim (and-eq-false _ _ h) [
      | inl e ↦ first (filter_node_sound n e)
      | inr e ↦ later (filter_tree_sound ns e)
    ]

  mutual
    unfolding filter_node

    filter_node_complete :
        {n : TreeNode NodeState} → Matches hide n → is_hidden (filter_node hide n) ≡ false
    filter_node_complete (here {n = leaf r} e) = e
    filter_node_complete (here {n = branch r ns} e) = rw e refl
    filter_node_complete (below m) = and-eq-false_of_right _ _ (filter_tree_complete m)

    filter_tree_complete :
        {ns : TreeNodes NodeState}
        → MatchesIn hide ns
        → all is_hidden (nodes (filter_tree hide ns)) ≡ false
    filter_tree_complete (first m) = rw (filter_node_complete m) refl
    filter_tree_complete (later m) = and-eq-false_of_right _ _ (filter_tree_complete m)

-- After a search the tree says "No matching items found" unless a node somewhere in it matches.
pub no_matches-filter_tree_iff :
    (hide : TreeNode NodeState → Bool) (ns : TreeNodes NodeState)
    → (no_matches (filter_tree hide ns) ≡ false) ↔ MatchesIn hide ns
unfolding no_matches
no_matches-filter_tree_iff hide ns = (filter_tree_sound hide ns, filter_tree_complete hide)

filter_node_iff :
    (hide : TreeNode NodeState → Bool) (n : TreeNode NodeState)
    → (is_hidden (filter_node hide n) ≡ false) ↔ Matches hide n
filter_node_iff hide n = (filter_node_sound hide n, filter_node_complete hide)

-- The second node is the first, shown exactly when the first or a node below it matches.
abbrev pub IsSearched :
    (TreeNode NodeState → Bool) → TreeNode NodeState → TreeNode NodeState → Type 0
IsSearched hide n m =
    (row m ≡ record (row n) { hidden = is_hidden m }) × ((is_hidden m ≡ false) ↔ Matches hide n)

module _ (hide : TreeNode NodeState → Bool) where
  mutual
    unfolding filter_node

    filter_node-Along : (n : TreeNode NodeState) → Along (IsSearched hide) n (filter_node hide n)
    filter_node-Along (leaf r) = (refl, filter_node_iff hide (leaf r))
    filter_node-Along (branch r ns) =
        ((refl, filter_node_iff hide (branch r ns)), filter_tree-Along_in ns)

    filter_tree-Along_in :
        (ns : TreeNodes NodeState) → AlongIn (IsSearched hide) ns (filter_tree hide ns)
    filter_tree-Along_in nil = tt
    filter_tree-Along_in (cons n ns) = (filter_node-Along n, filter_tree-Along_in ns)

-- A search keeps the nodes of the tree in their places, and each of them as it was but for whether it
-- is shown: at every depth a node is shown exactly when it or a node below it matches.
pub filter_tree-Along :
    (hide : TreeNode NodeState → Bool) (ns : TreeNodes NodeState)
    → AlongIn (IsSearched hide) ns (filter_tree hide ns)
filter_tree-Along hide ns = filter_tree-Along_in hide ns
