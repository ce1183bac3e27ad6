-- ===== src/Tests/Arch.antt =====
-- The memory tree of the small device.
use acgatea.Common.{◌⊎◌, ℕ, ◌≡◌, ◌≤◌, ◌↔◌, refl, true, some, List, [], ◌∷◌, ◌++◌, In, inr}
use acgatea.Common.Map.{find}
use acgatea.Arch.MemoryTree.{MemoryTree, MemoryNode, get_node}
use acgatea.Arch.MemoryTree.Build.{initialize}
use acgatea.Arch.MemoryTree.Query.{
  get_node_depth, get_nodes_at_depth, is_descendant_of, is_below_scratch_pad, ancestors, climb_to,
  up_to, without, join_path, is_per_core_scratch_pad_memory, get_node_id_for_resource, get_path,
  are_aliases,
}
use acgatea.Arch.MemoryTree.WellFormed.{IsWellFormed}
use acgatea.Arch.MemoryTree.Scope.{initialize-IsWellFormed}
use acgatea.Arch.MemoryTree.Depth.{
  IsAbove, HasDepth, parent, is_descendant_of_iff, get_node_depth_correct, get_nodes_at_depth_iff,
}
use acgatea.Arch.MemoryTree.Levels.{is_below_scratch_pad_iff, is_per_core_scratch_pad_memory_iff}
use acgatea.Arch.MemoryTree.Chains.{IsRoute, HasCommon}
use acgatea.Arch.MemoryTree.Path.{get_path_correct, get_path_detour}
use acgatea.Arch.MemoryTree.Aliases.{IsNamed, are_aliases_iff}
use acgatea.Tests.Devices.{
  sample_body, sample_mapping, sample_tree, sample_body-IsScopedBody, sample_tree-IsWellFormed,
}

sample_path : get_path sample_tree 2 1 ≡ some (2 ∷ 1 ∷ 0 ∷ 1 ∷ [])
unfolding get_path ancestors climb_to up_to without join_path find
sample_path = refl

initialize-IsWellFormed_example :
    (t : MemoryTree) × (initialize sample_body sample_mapping ≡ some t) × IsWellFormed t
initialize-IsWellFormed_example =
    initialize-IsWellFormed sample_body sample_mapping sample_body-IsScopedBody

is_descendant_of_iff_example : (is_descendant_of sample_tree 2 0 ≡ true) ↔ IsAbove sample_tree 0 2
is_descendant_of_iff_example = is_descendant_of_iff sample_tree sample_tree-IsWellFormed 2 0

get_node_depth_correct_example :
    (k : ℕ) × (get_node_depth sample_tree 2 ≡ some k) × HasDepth sample_tree 2 k
unfolding find
get_node_depth_correct_example = get_node_depth_correct sample_tree sample_tree-IsWellFormed 2 refl

get_nodes_at_depth_iff_example : In 2 (get_nodes_at_depth sample_tree 2) ↔ HasDepth sample_tree 2 2
get_nodes_at_depth_iff_example = get_nodes_at_depth_iff sample_tree sample_tree-IsWellFormed 2 2

is_below_scratch_pad_iff_example : (is_below_scratch_pad sample_tree 3 ≡ true) ↔ (
    (n : ℕ) × (k : ℕ) × (get_node_id_for_resource sample_tree 3 ≡ some n)
    × (get_node_depth sample_tree n ≡ some k)
    × (2 ≤ k))
is_below_scratch_pad_iff_example = is_below_scratch_pad_iff sample_tree sample_tree-IsWellFormed 3

is_per_core_scratch_pad_memory_iff_example :
    (is_per_core_scratch_pad_memory sample_tree 7 ≡ true) ↔ (
      (n : ℕ) × (d : MemoryNode) × (get_node_depth sample_tree n ≡ some 1)
      × (get_node sample_tree n ≡ some d)
      × ((d.memory_resource ≡ 7) ⊎ (d.alias ≡ some 7)))
is_per_core_scratch_pad_memory_iff_example =
    is_per_core_scratch_pad_memory_iff sample_tree sample_tree-IsWellFormed 7

get_path_correct_example :
    (p : List ℕ) × (get_path sample_tree 0 2 ≡ some p)
    × (HasCommon sample_tree 0 2 → IsRoute sample_tree 0 2 p)
    × (¬ HasCommon sample_tree 0 2 → p ≡ [])
unfolding find
get_path_correct_example = get_path_correct sample_tree sample_tree-IsWellFormed 0 2 refl refl

get_path_detour_example : (xs : List ℕ) × (get_path sample_tree 2 1 ≡ some (xs ++ 1 ∷ 0 ∷ 1 ∷ []))
unfolding find
get_path_detour_example =
    get_path_detour sample_tree sample_tree-IsWellFormed 2 1 0 refl (inr (parent 2 refl)) refl

abbrev canonical_name : ℕ
canonical_name = 2

abbrev other_name : ℕ
other_name = 7

are_aliases_iff_example : (are_aliases sample_tree canonical_name other_name ≡ true) ↔ (
    (canonical_name ≡ other_name)
    ⊎ ((n : ℕ) × IsNamed sample_tree canonical_name n × IsNamed sample_tree other_name n))
are_aliases_iff_example = are_aliases_iff sample_tree canonical_name other_name
