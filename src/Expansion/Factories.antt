-- ===== src/Expansion/Factories.antt =====
-- lib/Transforms/PathExpansion/PlannerFactories.cpp. The factories are the two lists of the plan, and
-- `none` is a failed assertion. The constant that serves as the zero index is the value `zero_index`.
use acgatea.Common.{
  ℕ, Bool, true, false, Option, none, some, List, [], ◌∷◌, ◌++◌, map, if◌then◌else◌, ◌>>=◌, length,
  get_elem?,
}
use acgatea.Common.Map.{Map, find, assign}
use acgatea.Arch.RoutingGraph.{EdgeInfo}
use acgatea.Expansion.Plan.{
  Size, constant, Index, value, zero_index, AffineMap, identity, DataTransferOp, SpecKind,
  memory_buffer, fifo, PrivateResourceSpec, TransferMaterializationInfo, PathExpansionPlan,
}

-- The plan with the spec, and the pointer to it.
abbrev pub push_spec : PrivateResourceSpec → PathExpansionPlan → ℕ × PathExpansionPlan
push_spec spec plan = (length plan.specs, record plan { specs = plan.specs ++ spec ∷ [] })

abbrev pub memory_buffer_spec : Option ℕ → List ℕ → ℕ → PrivateResourceSpec
memory_buffer_spec memory_resource shape element_type = record {
  kind = memory_buffer;
  memory_resource = memory_resource;
  fifo_src = none;
  fifo_dest = none;
  elements_per_slot = [];
  shape = shape;
  element_type = element_type;
}

abbrev pub fifo_spec : Option ℕ → Option ℕ → List ℕ → ℕ → PrivateResourceSpec
fifo_spec fifo_src fifo_dest elements_per_slot element_type = record {
  kind = fifo;
  memory_resource = none;
  fifo_src = fifo_src;
  fifo_dest = fifo_dest;
  elements_per_slot = elements_per_slot;
  shape = [];
  element_type = element_type;
}

unfoldable pub create_memory_buffer :
    Option ℕ → List ℕ → ℕ → PathExpansionPlan → ℕ × PathExpansionPlan
create_memory_buffer memory_resource shape element_type plan =
    push_spec (memory_buffer_spec memory_resource shape element_type) plan

unfoldable pub create_fifo :
    Option ℕ → Option ℕ → List ℕ → ℕ → PathExpansionPlan → ℕ × PathExpansionPlan
create_fifo fifo_src fifo_dest elements_per_slot element_type plan =
    push_spec (fifo_spec fifo_src fifo_dest elements_per_slot element_type) plan

abbrev pub register_allocation : ℕ → List ℕ → Map (List ℕ) → Map (List ℕ)
register_allocation spec ssa_values allocations = assign spec ssa_values allocations

abbrev pub get_allocation : ℕ → Map (List ℕ) → Option (List ℕ)
get_allocation spec allocations = find spec allocations

-- Empty for a null pointer.
abbrev pub sizes_of_spec : PrivateResourceSpec → SpecKind → ℕ → Option (List Size)
sizes_of_spec spec fifo slot_index = do
  slot_capacity ← get_elem? spec.elements_per_slot slot_index
  some (constant slot_capacity ∷ [])
sizes_of_spec spec memory_buffer slot_index = some (map constant spec.shape)

unfoldable pub derive_sizes_from_resource_spec :
    PathExpansionPlan → Option ℕ → ℕ → Option (List Size)
derive_sizes_from_resource_spec plan none slot_index = some []
derive_sizes_from_resource_spec plan (some p) slot_index = do
  spec ← get_elem? plan.specs p
  sizes_of_spec spec spec.kind slot_index

abbrev pub zero_indices : List ℕ → List Index
zero_indices [] = []
zero_indices (d ∷ shape) = zero_index ∷ zero_indices shape

abbrev pub push_transfer : TransferMaterializationInfo → PathExpansionPlan → ℕ × PathExpansionPlan
push_transfer transfer plan =
    (length plan.transfers, record plan { transfers = plan.transfers ++ transfer ∷ [] })

-- `buffer_shape` is the shape of the memory buffer to which `buffer` points.
unfoldable pub create_from_template_with_buffer :
    DataTransferOp
    → EdgeInfo
    → Option ℕ
    → Option ℕ
    → Bool
    → ℕ
    → List ℕ
    → PathExpansionPlan
    → ℕ × PathExpansionPlan
create_from_template_with_buffer t edge intermediate current true buffer buffer_shape plan =
    push_transfer
      (record {
        template_op = some t.operation;
        hop = edge;
        source_resource = intermediate;
        dest_resource = current;
        source_private_resource = some buffer;
        dest_private_resource = none;
        source_slot_index = 0;
        dest_slot_index = 0;
        source_indices = zero_indices buffer_shape;
        source_sizes = map constant buffer_shape;
        dest_indices = map value t.dest_indices;
        dest_sizes = t.mixed_dest_sizes;
        source_map = some (identity (length buffer_shape));
        dest_map = t.dest_map;
      })
      plan
create_from_template_with_buffer t edge intermediate current false buffer buffer_shape plan =
    push_transfer
      (record {
        template_op = some t.operation;
        hop = edge;
        source_resource = current;
        dest_resource = intermediate;
        source_private_resource = none;
        dest_private_resource = some buffer;
        source_slot_index = 0;
        dest_slot_index = 0;
        source_indices = map value t.source_indices;
        source_sizes = t.mixed_source_sizes;
        dest_indices = zero_indices buffer_shape;
        dest_sizes = map constant buffer_shape;
        source_map = t.source_map;
        dest_map = some (identity (length buffer_shape));
      })
      plan

unfoldable pub create_from_fifo_op :
    ℕ → EdgeInfo → Option ℕ → Option ℕ → ℕ → ℕ → Bool → PathExpansionPlan → ℕ × PathExpansionPlan
create_from_fifo_op op edge source_resource dest_resource spec slot_index is_read plan =
    push_transfer
      (record {
        template_op = some op;
        hop = edge;
        source_resource = source_resource;
        dest_resource = dest_resource;
        source_private_resource = if is_read then some spec else none;
        dest_private_resource = if is_read then none else some spec;
        source_slot_index = if is_read then slot_index else 0;
        dest_slot_index = if is_read then 0 else slot_index;
        source_indices = [];
        source_sizes = [];
        dest_indices = [];
        dest_sizes = [];
        source_map = none;
        dest_map = none;
      })
      plan

-- One side of a synthetic transfer, as its neighbour on that side has it.
pub record Side : Type 0 where
  pub spec : Option ℕ
  pub slot_index : ℕ
  pub indices : List Index
  pub sizes : List Size
  pub side_map : Option AffineMap

abbrev pub sizes_or_derived : PathExpansionPlan → Side → List Size → Option (List Size)
sizes_or_derived plan side [] = derive_sizes_from_resource_spec plan side.spec side.slot_index
sizes_or_derived plan side (s ∷ sizes) = some (s ∷ sizes)

unfoldable pub create_synthetic :
    EdgeInfo
    → Option ℕ
    → Option ℕ
    → Side
    → Side
    → PathExpansionPlan
    → Option (ℕ × PathExpansionPlan)
create_synthetic edge source_resource dest_resource source dest plan = do
  dest_sizes ← sizes_or_derived plan dest dest.sizes
  source_sizes ← sizes_or_derived plan source source.sizes
  some (
      push_transfer
        (record {
          template_op = none;
          hop = edge;
          source_resource = source_resource;
          dest_resource = dest_resource;
          source_private_resource = source.spec;
          dest_private_resource = dest.spec;
          source_slot_index = source.slot_index;
          dest_slot_index = dest.slot_index;
          source_indices = source.indices;
          source_sizes = source_sizes;
          dest_indices = dest.indices;
          dest_sizes = dest_sizes;
          source_map = source.side_map;
          dest_map = dest.side_map;
        })
        plan)
