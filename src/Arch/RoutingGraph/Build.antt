-- ===== src/Arch/RoutingGraph/Build.antt =====
-- `RoutingGraph::initialize` and the functions that process the operations of the device.
use acgatea.Common.{
  ℕ, Bool, true, false, Option, none, some, List, [], ◌∷◌, if◌then◌else◌, ◌==◌, not, is_contained,
  ◌>>=◌, ◌>>◌, guard,
}
use acgatea.Common.Map.{Map, find, assign}
use acgatea.Arch.Device.{
  SizeAttr, no_size, int_size, other_size, DeviceOp, exec_unit, group, datapath, other, Body, end,
  op,
}
use acgatea.Arch.RoutingGraph.{
  ResourceKind, compute, load_store_unit, ResourceNode, RoutingGraph, empty_graph, add_node,
  add_edge,
}

-- `DeviceInitContext`.
pub record Context : Type 0 where
  pub graph : RoutingGraph
  pub value_to_node_id : Map ℕ
  pub processed_group_kinds : List ℕ
  pub node_sizes : Map ℕ

abbrev pub note_size : ℕ → SizeAttr → Map ℕ → Map ℕ
note_size node_id no_size m = m
note_size node_id (int_size n) m = assign node_id n m
note_size node_id other_size m = m

-- A new node for a value.
unfoldable pub add_value : ℕ → ℕ → ResourceKind → Context → Context
add_value result resource kind ctx = record ctx {
  graph = add_node resource kind ctx.graph;
  value_to_node_id = assign result ctx.graph.next_node_id ctx.value_to_node_id;
}

unfoldable pub process_memory_op : ℕ → ℕ → SizeAttr → Context → Context
process_memory_op result kind size ctx = record (add_value result kind ResourceKind.memory ctx) {
  node_sizes = note_size ctx.graph.next_node_id size ctx.node_sizes;
}

abbrev pub kind_or : ℕ → Option ℕ → ℕ
kind_or default none = default
kind_or default (some kind) = kind

-- The results of a group whose kind was seen before get nodes of their own.
unfoldable pub add_results : ℕ → List ℕ → Context → Context
add_results kind [] ctx = ctx
add_results kind (r ∷ rs) ctx = add_results kind rs (add_value r kind compute ctx)

-- `ctx.value_to_node_id[target] = (value of source)` for each pair of the zip; the source must be there.
unfoldable pub map_values : List ℕ → List ℕ → Context → Option Context
map_values [] targets ctx = some ctx
map_values (source ∷ sources) [] ctx = some ctx
map_values (source ∷ sources) (target ∷ targets) ctx = do
  n ← find source ctx.value_to_node_id
  map_values sources targets
      (record ctx { value_to_node_id = assign target n ctx.value_to_node_id })

abbrev pub map_yields : Option (List ℕ) → List ℕ → Context → Option Context
map_yields none results ctx = some ctx
map_yields (some operands) results ctx = map_values operands results ctx

abbrev pub is_processed : Option ℕ → Context → Bool
is_processed none ctx = false
is_processed (some kind) ctx = is_contained kind ctx.processed_group_kinds

abbrev pub note_kind : Option ℕ → Context → Context
note_kind none ctx = ctx
note_kind (some kind) ctx = record ctx { processed_group_kinds = kind ∷ ctx.processed_group_kinds }

unfoldable pub process_datapath_op : ℕ → ℕ → Context → Option Context
process_datapath_op source target ctx = do
  source_id ← find source ctx.value_to_node_id
  target_id ← find target ctx.value_to_node_id
  guard (not (source_id == target_id))
  graph ← add_edge source_id target_id 1 ctx.graph
  some (record ctx { graph = graph })

-- `exec_unit_kind` is the kind of an execution unit that names none, the attribute "exec_unit".
module _ (exec_unit_kind : ℕ) where
  unfoldable pub process_execution_unit_op : ℕ → Option ℕ → Bool → Context → Context
  process_execution_unit_op result kind is_ls ctx =
      add_value result (kind_or exec_unit_kind kind) (if is_ls then load_store_unit else compute)
        ctx

  unfoldable mutual
    pub process_op : DeviceOp → Context → Option Context
    process_op (DeviceOp.memory result kind size) ctx =
        some (process_memory_op result kind size ctx)
    process_op (exec_unit result kind is_ls) ctx =
        some (process_execution_unit_op result kind is_ls ctx)
    process_op (group kind shared args body yields results) ctx = elim (is_processed kind ctx) [
      | true ↦ some (add_results (kind_or exec_unit_kind kind) results ctx)
      | false ↦ map_values shared args (note_kind kind ctx) >>= λ ctx₁.
          process_region body ctx₁ >>= λ ctx₂. map_yields yields results ctx₂
    ]
    process_op (datapath source target) ctx = process_datapath_op source target ctx
    process_op other ctx = some ctx

    pub process_region : Body → Context → Option Context
    process_region end ctx = some ctx
    process_region (op o rest) ctx = process_op o ctx >>= λ ctx'. process_region rest ctx'

-- The sizes collected on the way: a capacity, and nothing reserved. They were collected of nodes that exist.
unfoldable pub apply_sizes : Map ℕ → Map ResourceNode → Map ResourceNode
apply_sizes [] nodes = nodes
apply_sizes ((n, size) ∷ sizes) nodes = elim (find n nodes) [
  | none ↦ apply_sizes sizes nodes
  | some d ↦ apply_sizes sizes (
      assign n (record d { total_capacity_in_bytes = some size; total_reserved_in_bytes = some 0 })
        nodes)
]

abbrev pub start_context : Context
start_context = record {
  graph = empty_graph;
  value_to_node_id = [];
  processed_group_kinds = [];
  node_sizes = [];
}

unfoldable pub initialize : ℕ → Body → Option RoutingGraph
initialize exec_unit_kind body = do
  ctx ← process_region exec_unit_kind body start_context
  some (record ctx.graph { nodes = apply_sizes ctx.node_sizes ctx.graph.nodes })
