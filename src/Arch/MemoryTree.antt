-- ===== src/Arch/MemoryTree.antt =====
-- lib/Analysis/ArchViews/MemoryTree.cpp: the tree of the device's memories. Node ids and resources
-- are numbers. Where the source asserts that a node exists the model returns an `Option`, `none`
-- being the failed assertion; the loops up the parents run on fuel, `none` being its end.
pub mod Build
pub mod Query
pub mod WellFormed
pub mod Linking
pub mod Scope
pub mod Depth
pub mod Levels
pub mod Chains
pub mod Path
pub mod Aliases
use acgatea.Common.{
  ℕ, ◌+◌, Bool, true, false, Option, none, some, List, [], ◌∷◌, ◌++◌, if◌then◌else◌, ◌==◌, is_some,
  suc,
}
use acgatea.Common.Map.{Map, find, assign}

-- `MemoryTree::MemoryNode`.
pub record MemoryNode : Type 0 where
  pub id : ℕ
  pub memory_resource : ℕ
  pub alias : Option ℕ
  pub parent : Option ℕ
  pub children : List ℕ
  pub capacity_in_bytes : Option ℕ
  pub reserved_in_bytes : Option ℕ

pub record MemoryTree : Type 0 where
  pub next_node_id : ℕ
  pub nodes : Map MemoryNode
  pub resource_to_node : Map ℕ
  pub alias_to_node : Map ℕ

abbrev pub empty_tree : MemoryTree
empty_tree = record { next_node_id = 0; nodes = []; resource_to_node = []; alias_to_node = [] }

-- The tree with the new node; its id is the counter before the call.
abbrev pub new_node : ℕ → ℕ → Option ℕ → Option ℕ → MemoryNode
new_node node_id memory_resource capacity reserved = record {
  id = node_id;
  memory_resource = memory_resource;
  alias = none;
  parent = none;
  children = [];
  capacity_in_bytes = capacity;
  reserved_in_bytes = reserved;
}

unfoldable pub add_node : ℕ → Option ℕ → Option ℕ → MemoryTree → MemoryTree
add_node memory_resource capacity reserved t = record t {
  next_node_id = suc t.next_node_id;
  nodes = assign t.next_node_id (new_node t.next_node_id memory_resource capacity reserved) t.nodes;
  resource_to_node = assign memory_resource t.next_node_id t.resource_to_node;
}

-- `nodes_[k]` changed in place, where the node exists.
unfoldable pub update_node : ℕ → (MemoryNode → MemoryNode) → MemoryTree → Option MemoryTree
update_node k f t = elim (find k t.nodes) [
  | none ↦ none
  | some n ↦ some (record t { nodes = assign k (f n) t.nodes })
]

abbrev pub with_parent : ℕ → MemoryNode → MemoryNode
with_parent p n = record n { parent = some p }

abbrev pub with_child : ℕ → MemoryNode → MemoryNode
with_child c n = record n { children = n.children ++ c ∷ [] }

abbrev pub with_alias : ℕ → MemoryNode → MemoryNode
with_alias a n = record n { alias = some a }

unfoldable pub set_parent : ℕ → ℕ → MemoryTree → Option MemoryTree
set_parent child_id parent_id t = elim (update_node child_id (with_parent parent_id) t) [
  | none ↦ none
  | some t' ↦ update_node parent_id (with_child child_id) t'
]

abbrev pub get_node : MemoryTree → ℕ → Option MemoryNode
get_node t n = find n t.nodes

abbrev pub parent_in : Option MemoryNode → Option ℕ
parent_in none = none
parent_in (some d) = d.parent

-- The parent of a node, if it exists and has one.
abbrev pub parent_of : MemoryTree → ℕ → Option ℕ
parent_of t n = parent_in (find n t.nodes)
