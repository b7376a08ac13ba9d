-- ===== src/Tree/Clicks.antt =====
-- The clicks on rows in multiple selection (`onclick` of `TreeNode`).
use mathlib.Core.Option
use dataops_testgen.Base.{
  ℕ, suc, zero, ◌≡◌, refl, sym, ◌∙◌, Bool, true, List, [], ◌∷◌, Option, some, none, false, not,
  ◌&&◌, all, any, arith, inl, inr, Bool-cases,
}
use dataops_testgen.Tree.{
  TreeNode, leaf, branch, TreeNodes, nil, cons, NodeState, nodes, is_hidden, is_selected,
  select_node, select_tree, refresh, click_group, click_node, click_nodes,
}
use dataops_testgen.Tree.Everywhere.{Everywhere, EverywhereIn}

abbrev pub IsShown : TreeNode NodeState → Type 0
IsShown n = is_hidden n ≡ false

-- The checkbox of a node with children says whether those of all its children are ticked.
abbrev pub Agrees : TreeNode NodeState → Type 0
Agrees (leaf r) = Unit
Agrees (branch r nil) = Unit
Agrees (branch r (cons n ns)) = r.selected ≡ all is_selected (nodes (cons n ns))

abbrev pub Has : Bool → TreeNode NodeState → Type 0
Has v n = is_selected n ≡ v

mutual
  unfolding select_node

  select_node-Has :
      (v : Bool) (n : TreeNode NodeState)
      → Everywhere IsShown n
      → Everywhere (Has v) (select_node v n)
  select_node-Has v (leaf r) h = ground arith
  select_node-Has true (branch r ns) h = rw h.0 (refl, select_tree-Has_in true ns h.1)
  select_node-Has false (branch r ns) h = (refl, select_tree-Has_in false ns h.1)

  select_tree-Has_in :
      (v : Bool) (ns : TreeNodes NodeState)
      → EverywhereIn IsShown ns
      → EverywhereIn (Has v) (select_tree v ns)
  select_tree-Has_in v nil h = tt
  select_tree-Has_in v (cons n ns) h = (select_node-Has v n h.0, select_tree-Has_in v ns h.1)

Has-of_Everywhere : (v : Bool) (n : TreeNode NodeState) → Everywhere (Has v) n → is_selected n ≡ v
Has-of_Everywhere v (leaf r) h = h
Has-of_Everywhere v (branch r ns) h = h.0

all-is_selected :
    (v : Bool) (n : TreeNode NodeState) (ns : TreeNodes NodeState)
    → EverywhereIn (Has v) (cons n ns)
    → all is_selected (nodes (cons n ns)) ≡ v
all-is_selected v n nil h = rw (Has-of_Everywhere v n h.0) (ground arith)
all-is_selected v n (cons m ms) h =
    rw (Has-of_Everywhere v n h.0, all-is_selected v m ms h.1) (ground arith)

mutual
  Agrees-of_Has : (v : Bool) (n : TreeNode NodeState) → Everywhere (Has v) n → Everywhere Agrees n
  Agrees-of_Has v (leaf r) h = tt
  Agrees-of_Has v (branch r nil) h = (tt, tt)
  Agrees-of_Has v (branch r (cons n ns)) h = (
    h.0 ∙ sym (all-is_selected v n ns h.1),
    (Agrees-of_Has v n h.1.0, Agrees-in_of_Has v ns h.1.1),
  )

  Agrees-in_of_Has :
      (v : Bool) (ns : TreeNodes NodeState) → EverywhereIn (Has v) ns → EverywhereIn Agrees ns
  Agrees-in_of_Has v nil h = tt
  Agrees-in_of_Has v (cons n ns) h = (Agrees-of_Has v n h.0, Agrees-in_of_Has v ns h.1)

-- The value that a click on an unticked group sets, if all below is shown.
any_unticked :
    (ns : TreeNodes NodeState)
    → EverywhereIn IsShown ns
    → all is_selected (nodes ns) ≡ false
    → any (λ c. not (is_hidden c) && not (is_selected c)) (nodes ns) ≡ true
any_unticked nil h e = cc
any_unticked (cons (leaf r) ns) h e = ground (arith, any_unticked ns h.1)
any_unticked (cons (branch r cs) ns) h e = ground (arith, any_unticked ns h.1)

-- A click on a group ticks all that is below it if it was not ticked, and unticks all otherwise,
-- where no node below is hidden and its checkbox agrees with those of its children.
pub click_node-Has :
    (r : NodeState) (n : TreeNode NodeState) (ns : TreeNodes NodeState)
    → EverywhereIn IsShown (cons n ns)
    → Agrees (branch r (cons n ns))
    → (m : TreeNode NodeState) × (click_node (branch r (cons n ns)) [] ≡ some m)
      × Everywhere (Has (not r.selected)) m
unfolding click_node click_group
click_node-Has r n ns h a = elim (Bool-cases r.selected) [
  | inl e ↦
      let p = select_tree-Has_in false (cons n ns) h in
      (
        _,
        refl,
        rw e (
          unfold select_node in
              all-is_selected false (select_node false n) (select_tree false ns) p,
          p,
        ),
      )
  | inr e ↦
      let p = select_tree-Has_in true (cons n ns) h in
      (
        _,
        refl,
        rw (e, any_unticked (cons n ns) h (sym a ∙ e))
            (
              unfold select_node in
                  all-is_selected true (select_node true n) (select_tree true ns) p,
              p,
            ),
      )
]

abbrev OnSome : {A : Type 0} → (A → Type 0) → Option A → Type 0
OnSome P none = Unit
OnSome P (some a) = P a

OnSome-map :
    {A B : Type 0} (P : A → Type 0) (Q : B → Type 0) (f : A → B)
    → ((a : A) → P a → Q (f a))
    → (o : Option A) → OnSome P o
    → OnSome Q (Option.map f o)
OnSome-map P Q f k none h = tt
OnSome-map P Q f k (some a) h = k a h

Agrees-refresh :
    (r : NodeState) (ns : TreeNodes NodeState)
    → EverywhereIn Agrees ns
    → Everywhere Agrees (refresh r ns)
Agrees-refresh r nil h = (tt, tt)
Agrees-refresh r (cons n ns) h = (refl, h)

Agrees-click_group :
    (r : NodeState) (ns : TreeNodes NodeState)
    → EverywhereIn IsShown ns
    → Everywhere Agrees (click_group r ns)
unfolding click_group
Agrees-click_group r ns h =
    Agrees-refresh r (select_tree _ ns) (Agrees-in_of_Has _ _ (select_tree-Has_in _ ns h))

mutual
  unfolding click_node

  Agrees-click_node :
      (n : TreeNode NodeState) (path : List ℕ)
      → Everywhere IsShown n
      → Everywhere Agrees n
      → OnSome (Everywhere Agrees) (click_node n path)
  Agrees-click_node (leaf r) [] h a = tt
  Agrees-click_node (leaf r) (i ∷ path) h a = tt
  Agrees-click_node (branch r nil) [] h a = (tt, tt)
  Agrees-click_node (branch r (cons n ns)) [] h a = Agrees-click_group r (cons n ns) h.1
  Agrees-click_node (branch r nil) (i ∷ path) h a = tt
  Agrees-click_node (branch r (cons n ns)) (i ∷ path) h a =
      OnSome-map (EverywhereIn Agrees) (Everywhere Agrees) (refresh r) (Agrees-refresh r) _
        (Agrees-click_nodes (cons n ns) i path h.1 a.1)

  Agrees-click_nodes :
      (ns : TreeNodes NodeState) (i : ℕ) (path : List ℕ)
      → EverywhereIn IsShown ns
      → EverywhereIn Agrees ns
      → OnSome (EverywhereIn Agrees) (click_nodes ns i path)
  Agrees-click_nodes nil i path h a = tt
  Agrees-click_nodes (cons n ns) zero path h a =
      OnSome-map (Everywhere Agrees) (EverywhereIn Agrees) (λ m. cons m ns) (λ m b. (b, a.1)) _
        (Agrees-click_node n path h.0 a.0)
  Agrees-click_nodes (cons n ns) (suc i) path h a =
      OnSome-map (EverywhereIn Agrees) (EverywhereIn Agrees) (cons n) (λ ms b. (a.0, b)) _
        (Agrees-click_nodes ns i path h.1 a.1)

-- Where no node is hidden, a click on any row keeps the checkbox of each node with children in
-- agreement with those of its children.
pub click_nodes-Agrees :
    (ns ms : TreeNodes NodeState) (i : ℕ) (path : List ℕ)
    → EverywhereIn IsShown ns
    → EverywhereIn Agrees ns
    → click_nodes ns i path ≡ some ms
    → EverywhereIn Agrees ms
click_nodes-Agrees ns ms i path h a e = rw e at (Agrees-click_nodes ns i path h a)
