-- ===== src/Arch/MemoryTree/WellFormed.antt =====
-- The invariant of a memory tree, and that the operations that build it keep it.
use acgatea.Common.{ℕ, ◌<◌, ◌≡◌, true, Option, none, some, arith, ◌==◌, if◌then◌else◌}
use acgatea.Common.Map.{find, contains, find-assign}
use acgatea.Arch.MemoryTree.{MemoryTree, empty_tree, new_node, add_node, parent_of}

-- Ids are below the counter, a parent is an older node, and the two resource maps name nodes.
pub record IsWellFormed (t : MemoryTree) : Type 0 where
  pub below : (n : ℕ) → contains n t.nodes ≡ true → n < t.next_node_id
  pub older : (c p : ℕ) → parent_of t c ≡ some p → p < c
  pub present : (c p : ℕ) → parent_of t c ≡ some p → contains p t.nodes ≡ true
  pub named : (r n : ℕ) → find r t.resource_to_node ≡ some n → contains n t.nodes ≡ true
  pub aliased : (r n : ℕ) → find r t.alias_to_node ≡ some n → contains n t.nodes ≡ true

pub empty_tree-IsWellFormed : IsWellFormed empty_tree
unfolding find
empty_tree-IsWellFormed = record {
  below = λ n h. cc;
  older = λ c p h. cc;
  present = λ c p h. cc;
  named = λ r n h. cc;
  aliased = λ r n h. cc;
}

module _ (r : ℕ) (capacity reserved : Option ℕ) (t : MemoryTree) where
  pub contains-add_node :
      (n : ℕ)
      → contains n (add_node r capacity reserved t).nodes
        ≡ (if t.next_node_id == n then true else contains n t.nodes)
  unfolding add_node
  contains-add_node n =
      ground
        (arith, find-assign t.next_node_id n (new_node t.next_node_id r capacity reserved) t.nodes)

  pub parent_of-add_node :
      (c : ℕ)
      → parent_of (add_node r capacity reserved t) c
        ≡ (if t.next_node_id == c then none else parent_of t c)
  unfolding add_node
  parent_of-add_node c =
      ground
        (arith, find-assign t.next_node_id c (new_node t.next_node_id r capacity reserved) t.nodes)

  pub add_node-IsWellFormed : IsWellFormed t → IsWellFormed (add_node r capacity reserved t)
  unfolding add_node
  add_node-IsWellFormed v = record {
    below = λ n h. ground (arith, contains-add_node n, v.below n);
    older = λ c p h. ground (arith, parent_of-add_node c, v.older c p);
    present = λ c p h. ground (arith, parent_of-add_node c, v.present c p, contains-add_node p);
    named = λ s n h. ground (
      arith,
      find-assign r s t.next_node_id t.resource_to_node,
      v.named s n,
      contains-add_node n,
    );
    aliased = λ s n h. ground (arith, v.aliased s n, contains-add_node n);
  }
