-- ===== src/Tree/Everywhere.antt =====
-- Predicates that hold at every node of a tree, and the ids of a tree in order.
use dataops_testgen.Base.{String, List, [], ◌∷◌, ◌++◌}
use dataops_testgen.Tree.{TreeNode, leaf, branch, TreeNodes, nil, cons}

module _ {R : Type 0} where
  abbrev mutual
    pub Everywhere : (TreeNode R → Type 0) → TreeNode R → Type 0
    Everywhere P (leaf r) = P (leaf r)
    Everywhere P (branch r ns) = P (branch r ns) × EverywhereIn P ns

    pub EverywhereIn : (TreeNode R → Type 0) → TreeNodes R → Type 0
    EverywhereIn P nil = Unit
    EverywhereIn P (cons n ns) = Everywhere P n × EverywhereIn P ns

  -- Two trees of one shape, with a predicate of each node of the first and that of the second in its
  -- place.
  abbrev mutual
    pub Along : (TreeNode R → TreeNode R → Type 0) → TreeNode R → TreeNode R → Type 0
    Along P (leaf r) (leaf q) = P (leaf r) (leaf q)
    Along P (branch r ns) (branch q ms) = P (branch r ns) (branch q ms) × AlongIn P ns ms
    Along P _ _ = ⊥

    pub AlongIn : (TreeNode R → TreeNode R → Type 0) → TreeNodes R → TreeNodes R → Type 0
    AlongIn P nil nil = Unit
    AlongIn P (cons n ns) (cons m ms) = Along P n m × AlongIn P ns ms
    AlongIn P _ _ = ⊥

  abbrev mutual
    pub ids_of : (R → String) → TreeNode R → List String
    ids_of id (leaf r) = id r ∷ []
    ids_of id (branch r ns) = id r ∷ ids id ns

    pub ids : (R → String) → TreeNodes R → List String
    ids id nil = []
    ids id (cons n ns) = ids_of id n ++ ids id ns
