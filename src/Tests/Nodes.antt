-- ===== src/Tests/Nodes.antt =====
-- A node 0 with the children 1 and 2, and a node 3 that stands alone; and a tree in which the node 2 has
-- the children 3 and 4.
use acgatea.Common.{ℕ, ◌≡◌, refl, Option, none, some, [], ◌∷◌, ◌++◌, arith}
use acgatea.Common.Map.{find}
use acgatea.OperationTree.{Node, Heap, insert_child_node, unlink, unlink_node}
use acgatea.OperationTree.Children.{insert_after, insert_in_children}
use acgatea.OperationTree.Siblings.{HasChildren}
use acgatea.OperationTree.Inserting.Free.{IsFree}
use acgatea.OperationTree.Inserting.{insert_child_node-HasChildren}
use acgatea.OperationTree.Unlinking.{IsUnlinked, unlink-HasChildren}
use acgatea.OperationTree.Dissolving.{IsDissolved, unlink_node-HasChildren}
use acgatea.OperationTree.RoundTrip.{unlink-insert_child_node}

abbrev tree_node : Option ℕ → Option ℕ → Option ℕ → Node
tree_node parent_node first_child next_sibling = record {
  parent_node = parent_node;
  first_child = first_child;
  next_sibling = next_sibling;
}

abbrev sample_heap : Heap
sample_heap =
    (0, tree_node none (some 1) none)
    ∷ (1, tree_node (some 0) none (some 2))
    ∷ (2, tree_node (some 0) none none)
    ∷ (3, tree_node none none none)
    ∷ []

sample_children : HasChildren sample_heap 0 (1 ∷ 2 ∷ [])
unfolding find
sample_children = record {
  node = tree_node none (some 1) none;
  found = refl;
  siblings = (
    refl,
    tree_node (some 0) none (some 2),
    refl,
    refl,
    (refl, tree_node (some 0) none none, refl, refl, refl),
  );
  distinct = omega arith;
  proper = λ m. ground (arith, m);
}

sample-IsFree : IsFree sample_heap 0 (1 ∷ 2 ∷ []) 3
unfolding find
sample-IsFree = record {
  node = tree_node none none none;
  found = refl;
  alone = refl;
  apart = λ m. ground (arith, m);
  proper = λ e. ground (arith, e);
}

sample_inserted : insert_in_children 3 (some 1) (1 ∷ 2 ∷ []) ≡ some (1 ∷ 3 ∷ 2 ∷ [])
unfolding insert_in_children insert_after
sample_inserted = refl

insert_child_node-HasChildren_example :
    (h' : Heap) × (insert_child_node sample_heap 0 3 (some 1) ≡ some h')
    × HasChildren h' 0 (1 ∷ 3 ∷ 2 ∷ [])
insert_child_node-HasChildren_example =
    insert_child_node-HasChildren sample_heap 0 3 (1 ∷ 2 ∷ []) (some 1) (1 ∷ 3 ∷ 2 ∷ [])
      sample_children sample-IsFree sample_inserted

unlink-HasChildren_example :
    (h' : Heap) × (unlink sample_heap 2 ≡ some h') × IsUnlinked sample_heap h' 0 2 ((1 ∷ []) ++ [])
unlink-HasChildren_example = unlink-HasChildren sample_heap 0 2 (1 ∷ []) [] sample_children

unlink-insert_child_node_example :
    (h1 : Heap) × (h2 : Heap) × (insert_child_node sample_heap 0 3 (some 1) ≡ some h1)
    × (unlink h1 3 ≡ some h2)
    × HasChildren h2 0 (1 ∷ 2 ∷ [])
unlink-insert_child_node_example =
    unlink-insert_child_node sample_heap 0 3 (1 ∷ 2 ∷ []) (some 1) (1 ∷ 3 ∷ 2 ∷ []) sample_children
      sample-IsFree sample_inserted

abbrev deep_heap : Heap
deep_heap =
    (0, tree_node none (some 1) none)
    ∷ (1, tree_node (some 0) none (some 2))
    ∷ (2, tree_node (some 0) (some 3) (some 5))
    ∷ (3, tree_node (some 2) none (some 4))
    ∷ (4, tree_node (some 2) none none)
    ∷ (5, tree_node (some 0) none none)
    ∷ []

deep_children : HasChildren deep_heap 0 (1 ∷ 2 ∷ 5 ∷ [])
unfolding find
deep_children = record {
  node = tree_node none (some 1) none;
  found = refl;
  siblings = (
    refl,
    tree_node (some 0) none (some 2),
    refl,
    refl,
    (
      refl,
      tree_node (some 0) (some 3) (some 5),
      refl,
      refl,
      (refl, tree_node (some 0) none none, refl, refl, refl),
    ),
  );
  distinct = omega arith;
  proper = λ m. ground (arith, m);
}

deep_grandchildren : HasChildren deep_heap 2 (3 ∷ 4 ∷ [])
unfolding find
deep_grandchildren = record {
  node = tree_node (some 0) (some 3) (some 5);
  found = refl;
  siblings = (
    refl,
    tree_node (some 2) none (some 4),
    refl,
    refl,
    (refl, tree_node (some 2) none none, refl, refl, refl),
  );
  distinct = omega arith;
  proper = λ m. ground (arith, m);
}

unlink_node-HasChildren_example :
    (h' : Heap) × (unlink_node deep_heap 2 ≡ some h')
    × IsDissolved deep_heap h' 0 2 (1 ∷ 3 ∷ 4 ∷ 5 ∷ [])
unlink_node-HasChildren_example =
    unlink_node-HasChildren deep_heap 0 2 (1 ∷ []) (5 ∷ []) (3 ∷ 4 ∷ []) deep_children
      deep_grandchildren (λ m. ground (arith, m))
