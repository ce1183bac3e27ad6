-- ===== src/Arch/MemoryTree/Build.antt =====
-- `MemoryTree::initialize` and `populateAliases`: two passes over the device, then the aliases.
use acgatea.Common.{ℕ, Option, none, some, List, [], ◌∷◌}
use acgatea.Common.Map.{Map, find, assign}
use acgatea.Arch.Device.{
  SizeAttr, no_size, int_size, other_size, DeviceOp, memory, exec_unit, group, datapath, other,
  Body, end, op,
}
use acgatea.Arch.MemoryTree.{MemoryTree, empty_tree, add_node, with_alias, update_node, set_parent}

-- What the first pass keeps beside the tree.
pub record Walk : Type 0 where
  pub tree : MemoryTree
  pub value_to_node : Map ℕ
  pub child_to_parent : Map ℕ

-- The capacity of a memory: its size, if that is an integer.
abbrev pub capacity_of : SizeAttr → Option ℕ
capacity_of no_size = none
capacity_of (int_size n) = some n
capacity_of other_size = none

-- The reserved part: zero where there is a capacity.
abbrev pub reserved_of : SizeAttr → Option ℕ
reserved_of no_size = none
reserved_of (int_size n) = some 0
reserved_of other_size = none

abbrev pub note_parent : ℕ → Option ℕ → Map ℕ → Map ℕ
note_parent result none m = m
note_parent result (some p) m = assign result p m

unfoldable pub add_memory : ℕ → ℕ → SizeAttr → Option ℕ → Walk → Walk
add_memory result kind size parent_mem w = record {
  tree = add_node kind (capacity_of size) (reserved_of size) w.tree;
  value_to_node = assign result w.tree.next_node_id w.value_to_node;
  child_to_parent = note_parent result parent_mem w.child_to_parent;
}

-- The memory that a group's own memories hang under: the first that it shares, or else the outer one.
abbrev pub group_parent : List ℕ → Option ℕ → Option ℕ
group_parent [] parent_mem = parent_mem
group_parent (s ∷ shared) parent_mem = some s

unfoldable mutual
  pub process_op : DeviceOp → Option ℕ → Walk → Walk
  process_op (memory result kind size) parent_mem w = add_memory result kind size parent_mem w
  process_op (group kind shared args body yields results) parent_mem w =
      process_region body (group_parent shared parent_mem) w
  process_op (exec_unit result kind load_store) parent_mem w = w
  process_op (datapath source target) parent_mem w = w
  process_op other parent_mem w = w

  pub process_region : Body → Option ℕ → Walk → Walk
  process_region end parent_mem w = w
  process_region (op o rest) parent_mem w =
      process_region rest parent_mem (process_op o parent_mem w)

-- The loop that establishes the parents: pairs of which a value is no memory are passed over.
unfoldable pub link_parents : Map ℕ → Map ℕ → MemoryTree → Option MemoryTree
link_parents value_to_node [] t = some t
link_parents value_to_node ((child_val, parent_val) ∷ rest) t =
    elim (find child_val value_to_node) [
      | none ↦ link_parents value_to_node rest t
      | some child ↦ elim (find parent_val value_to_node) [
        | none ↦ link_parents value_to_node rest t
        | some parent ↦ elim (set_parent child parent t) [
          | none ↦ none
          | some t' ↦ link_parents value_to_node rest t'
        ]
      ]
    ]

-- One entry `key = value` of `mem_space_mapping`: `value` is the canonical resource.
unfoldable pub add_alias : ℕ → ℕ → MemoryTree → MemoryTree
add_alias key value t = elim (find value t.resource_to_node) [
  | none ↦ t
  | some n ↦ elim (update_node n (with_alias key) t) [
    | none ↦ t
    | some t' ↦ record t' { alias_to_node = assign key n t'.alias_to_node }
  ]
]

unfoldable pub populate_aliases : List (ℕ × ℕ) → MemoryTree → MemoryTree
populate_aliases [] t = t
populate_aliases ((key, value) ∷ entries) t = populate_aliases entries (add_alias key value t)

abbrev pub start_walk : Walk
start_walk = record { tree = empty_tree; value_to_node = []; child_to_parent = [] }

-- The tree of a device body and the entries of its memory-space mapping, if it has one.
unfoldable pub initialize : Body → List (ℕ × ℕ) → Option MemoryTree
initialize body mapping =
    let w = process_region body none start_walk in
    elim (link_parents w.value_to_node w.child_to_parent w.tree) [
      | none ↦ none
      | some t ↦ some (populate_aliases mapping t)
    ]
