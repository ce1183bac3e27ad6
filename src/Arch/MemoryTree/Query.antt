-- ===== src/Arch/MemoryTree/Query.antt =====
-- The queries of `MemoryTree`.
use acgatea.Common.{
  ℕ, zero, suc, ◌+◌, ◌-◌, ◌%◌, Bool, true, false, ◌||◌, ◌&&◌, Option, none, some, List, [], ◌∷◌,
  ◌++◌, if◌then◌else◌, ◌==◌, is_some, is_contained,
}
use acgatea.Common.Map.{Map, find, keys, contains}
use acgatea.Arch.MemoryTree.{MemoryNode, MemoryTree, get_node, parent_of}

abbrev pub get_all_node_ids : MemoryTree → List ℕ
get_all_node_ids t = keys t.nodes

-- `getNode(ResourceType)`: by the canonical resource only.
unfoldable pub get_node_by_resource : MemoryTree → ℕ → Option MemoryNode
get_node_by_resource t r = elim (find r t.resource_to_node) [ none ↦ none | some n ↦ get_node t n ]

-- The canonical resource first, then the aliases.
unfoldable pub get_node_id_for_resource : MemoryTree → ℕ → Option ℕ
get_node_id_for_resource t r = elim (find r t.resource_to_node) [
  | some n ↦ some n
  | none ↦ find r t.alias_to_node
]

unfoldable pub select_roots : Map MemoryNode → List ℕ
select_roots [] = []
select_roots ((n, d) ∷ m) = if is_some d.parent then select_roots m else n ∷ select_roots m

abbrev pub get_root_nodes : MemoryTree → List ℕ
get_root_nodes t = select_roots t.nodes

unfoldable pub select_leaves : Map MemoryNode → List ℕ
select_leaves [] = []
select_leaves ((n, d) ∷ m) = elim d.children [ [] ↦ n ∷ select_leaves m | c ∷ cs ↦ select_leaves m ]

abbrev pub get_leaf_nodes : MemoryTree → List ℕ
get_leaf_nodes t = select_leaves t.nodes

-- The walk to the root, the start first: `current` must exist (`nodes_.at`).
unfoldable pub ancestors : MemoryTree → ℕ → ℕ → Option (List ℕ)
ancestors t zero current = none
ancestors t (suc fuel) current = elim (get_node t current) [
  | none ↦ none
  | some d ↦ elim d.parent [
    | none ↦ some (current ∷ [])
    | some p ↦ elim (ancestors t fuel p) [ none ↦ none | some up ↦ some (current ∷ up) ]
  ]
]

unfoldable pub depth_loop : MemoryTree → ℕ → ℕ → ℕ → Option ℕ
depth_loop t zero current depth = none
depth_loop t (suc fuel) current depth = elim (get_node t current) [
  | none ↦ none
  | some d ↦ elim d.parent [ none ↦ some depth | some p ↦ depth_loop t fuel p (depth + 1) ]
]

-- As many rounds as there are ids suffice where each parent is older than its child.
unfoldable pub get_node_depth : MemoryTree → ℕ → Option ℕ
get_node_depth t n = if contains n t.nodes then depth_loop t t.next_node_id n 0 else none

unfoldable pub select_depth : MemoryTree → ℕ → List ℕ → List ℕ
select_depth t depth [] = []
select_depth t depth (n ∷ ns) = elim (get_node_depth t n) [
  | none ↦ select_depth t depth ns
  | some d ↦ if d == depth then n ∷ select_depth t depth ns else select_depth t depth ns
]

abbrev pub get_nodes_at_depth : MemoryTree → ℕ → List ℕ
get_nodes_at_depth t depth = select_depth t depth (get_all_node_ids t)

-- The walk up of `isDescendantOf`; a parent that is no node ends it.
unfoldable pub descendant_loop : MemoryTree → ℕ → ℕ → ℕ → Bool
descendant_loop t zero current ancestor = false
descendant_loop t (suc fuel) current ancestor = elim (parent_of t current) [
  | none ↦ false
  | some p ↦ elim (p == ancestor) [ true ↦ true | false ↦ descendant_loop t fuel p ancestor ]
]

unfoldable pub is_descendant_of : MemoryTree → ℕ → ℕ → Bool
is_descendant_of t descendant ancestor =
    if contains descendant t.nodes && contains ancestor t.nodes
    then descendant_loop t t.next_node_id descendant ancestor
    else false

unfoldable pub any_below : MemoryTree → ℕ → List ℕ → Bool
any_below t n [] = false
any_below t n (s ∷ ss) = is_descendant_of t n s || any_below t n ss

unfoldable pub is_below_scratch_pad : MemoryTree → ℕ → Bool
is_below_scratch_pad t r = elim (get_node_id_for_resource t r) [
  | none ↦ false
  | some n ↦ any_below t n (get_nodes_at_depth t 1)
]

abbrev pub is_alias : Option ℕ → ℕ → Bool
is_alias none r = false
is_alias (some a) r = a == r

-- A node carries the resource, as its canonical one or as its alias.
abbrev pub matches_resource : MemoryNode → ℕ → Bool
matches_resource d r = d.memory_resource == r || is_alias d.alias r

abbrev pub node_matches : Option MemoryNode → ℕ → Bool
node_matches none r = false
node_matches (some d) r = matches_resource d r

-- Some node of the list matches: the loop over a level.
unfoldable pub any_matches : MemoryTree → ℕ → List ℕ → Bool
any_matches t r [] = false
any_matches t r (n ∷ ns) = node_matches (get_node t n) r || any_matches t r ns

unfoldable pub is_global_memory : MemoryTree → ℕ → Bool
is_global_memory t r = any_matches t r (get_root_nodes t)

-- The source leaves early where there is no root.
unfoldable pub is_per_core_scratch_pad_memory : MemoryTree → ℕ → Bool
is_per_core_scratch_pad_memory t r = elim (get_root_nodes t) [
  | [] ↦ false
  | _ ∷ _ ↦ any_matches t r (get_nodes_at_depth t 1)
]

unfoldable pub are_aliases : MemoryTree → ℕ → ℕ → Bool
are_aliases t r s = if r == s then true else elim (get_node_id_for_resource t r) [
  | none ↦ false
  | some n ↦ elim (get_node_id_for_resource t s) [ none ↦ false | some m ↦ n == m ]
]

-- The first loop over the target's parents: it stops at the first that is an ancestor of the source.
-- The result is the list walked, the last node first.
unfoldable pub climb_to : MemoryTree → List ℕ → ℕ → ℕ → List ℕ → Option (List ℕ)
climb_to t source_ancestors zero current walked = none
climb_to t source_ancestors (suc fuel) current walked = elim (get_node t current) [
  | none ↦ none
  | some d ↦ elim d.parent [
    | none ↦ some walked
    | some p ↦ elim (is_contained p source_ancestors) [
      | true ↦ some (p ∷ walked)
      | false ↦ climb_to t source_ancestors fuel p (p ∷ walked)
    ]
  ]
]

-- The source's ancestors down to the common one.
unfoldable pub up_to : ℕ → List ℕ → List ℕ
up_to common [] = []
up_to common (n ∷ ns) = if n == common then n ∷ [] else n ∷ up_to common ns

-- The reversed walk of the target without the common ancestor.
unfoldable pub without : ℕ → List ℕ → List ℕ
without common [] = []
without common (n ∷ ns) = if n == common then without common ns else n ∷ without common ns

unfoldable pub join_path : List ℕ → List ℕ → List ℕ
join_path source_ancestors [] = []
join_path source_ancestors (common ∷ walked) =
    if is_contained common source_ancestors
    then up_to common source_ancestors ++ without common (common ∷ walked)
    else []

unfoldable pub get_path : MemoryTree → ℕ → ℕ → Option (List ℕ)
get_path t source target =
    if contains source t.nodes && contains target t.nodes
    then elim (ancestors t t.next_node_id source) [
      | none ↦ none
      | some source_ancestors ↦
          elim (climb_to t source_ancestors t.next_node_id target (target ∷ [])) [
            | none ↦ none
            | some walked ↦ some (join_path source_ancestors walked)
          ]
    ]
    else some []

unfoldable pub get_path_by_resource : MemoryTree → ℕ → ℕ → Option (List ℕ)
get_path_by_resource t source target = elim (get_node_id_for_resource t source) [
  | none ↦ some []
  | some s ↦ elim (get_node_id_for_resource t target) [ none ↦ some [] | some u ↦ get_path t s u ]
]

abbrev pub get_capacity : MemoryTree → ℕ → Option ℕ
get_capacity t r = elim (get_node_by_resource t r) [ none ↦ none | some d ↦ d.capacity_in_bytes ]

-- `capacity - reserved` on `size_t`.
abbrev pub get_available : MemoryTree → ℕ → Option ℕ
get_available t r = elim (get_node_by_resource t r) [
  | none ↦ none
  | some d ↦ elim d.capacity_in_bytes [
    | none ↦ none
    | some c ↦ some (
        (c + 0x10000000000000000 - elim d.reserved_in_bytes [ none ↦ 0 | some v ↦ v ])
        % 0x10000000000000000)
  ]
]
