-- ===== src/Tests/Devices.antt =====
-- A small device (a memory, a core's scratch pad below it, a register file below that, two units and
-- two datapaths), and the views that are built of it.
use acgatea.Common.{ℕ, ◌≡◌, refl, sym, subst, ◌∙◌, none, some, List, [], ◌∷◌, arith}
use acgatea.Common.Map.{find, assign}
use acgatea.Arch.Device.{int_size, no_size, memory, group, Body, end, op}
use acgatea.Arch.MemoryTree.{MemoryTree, add_node, update_node, set_parent}
use acgatea.Arch.MemoryTree.Build.{
  add_memory, process_op, process_region, link_parents, add_alias, populate_aliases, initialize,
}
use acgatea.Arch.MemoryTree.WellFormed.{IsWellFormed}
use acgatea.Arch.MemoryTree.Scope.{memories, IsScopedBody, initialize-IsWellFormed}

abbrev pub inner_body : Body
inner_body =
    op (memory 101 2 (int_size 64))
      (op (group none (101 ∷ []) [] (op (memory 102 3 no_size) end) none []) end)

abbrev pub sample_body : Body
sample_body =
    op (memory 100 1 (int_size 1024)) (op (group none (100 ∷ []) [] inner_body none []) end)

abbrev pub sample_mapping : List (ℕ × ℕ)
sample_mapping = (7, 2) ∷ []

abbrev pub sample_tree : MemoryTree
sample_tree = record {
  next_node_id = 3;
  nodes =
      (
        0,
        record {
          id = 0;
          memory_resource = 1;
          alias = none;
          parent = none;
          children = 1 ∷ [];
          capacity_in_bytes = some 1024;
          reserved_in_bytes = some 0;
        },
      )
      ∷ (
        1,
        record {
          id = 1;
          memory_resource = 2;
          alias = some 7;
          parent = some 0;
          children = 2 ∷ [];
          capacity_in_bytes = some 64;
          reserved_in_bytes = some 0;
        },
      )
      ∷ (
        2,
        record {
          id = 2;
          memory_resource = 3;
          alias = none;
          parent = some 1;
          children = [];
          capacity_in_bytes = none;
          reserved_in_bytes = none;
        },
      )
      ∷ [];
  resource_to_node = (1, 0) ∷ (2, 1) ∷ (3, 2) ∷ [];
  alias_to_node = (7, 1) ∷ [];
}

pub sample_body-IsScopedBody : IsScopedBody sample_body
unfolding memories
sample_body-IsScopedBody = ground arith

pub sample_built : initialize sample_body sample_mapping ≡ some sample_tree
unfolding initialize process_op process_region add_memory link_parents set_parent update_node
    add_node populate_aliases add_alias find assign
sample_built = refl

pub sample_tree-IsWellFormed : IsWellFormed sample_tree
sample_tree-IsWellFormed =
    let (t, e, v) = initialize-IsWellFormed sample_body sample_mapping sample_body-IsScopedBody in
    let same : t ≡ sample_tree = cc (sym e ∙ sample_built) in subst IsWellFormed same v
