-- ===== src/Expansion/Classify/Transfers.antt =====
-- lib/Transforms/PathExpansion/Planner.cpp, the walk of `classifyOriginalStages` over the data
-- transfers of a stage.
use acgatea.Common.{
  ℕ, Bool, true, false, Option, none, some, List, [], ◌∷◌, ◌++◌, if◌then◌else◌, ◌>>=◌, ◌&&◌, ◌||◌,
  not,
}
use acgatea.Arch.RoutingGraph.{RoutingGraph, EdgeInfo, get_node_id_for_resource, get_edge_info}
use acgatea.Expansion.Plan.{
  OperandType, memref, other, Size, constant, dynamic, DataTransferOp, BodyOp, transfer_op, fifo_op,
  PathExpansionPlan, adapt_transfer, StageKind, info_of, set_info,
}
use acgatea.Expansion.Factories.{create_memory_buffer, create_from_template_with_buffer}

abbrev pub is_memref : OperandType → Bool
is_memref (memref space element_type) = true
is_memref other = false

-- The element type of the side that is a memref.
abbrev pub memref_element_type : OperandType → OperandType → ℕ
memref_element_type (memref space element_type) dest = element_type
memref_element_type other (memref space element_type) = element_type
memref_element_type other other = 0

unfoldable pub buffer_shape : List Size → Option (List ℕ)
buffer_shape [] = some []
buffer_shape (constant n ∷ sizes) = do shape ← buffer_shape sizes; some (n ∷ shape)
buffer_shape (dynamic v ∷ sizes) = none

-- `getNodeIdForResource`, for which a null resource is unreachable.
abbrev pub node_id_of : RoutingGraph → Option ℕ → Option ℕ
node_id_of g none = none
node_id_of g (some resource) = get_node_id_for_resource g resource

abbrev pub edge_or_dummy : Option EdgeInfo → ℕ → ℕ → EdgeInfo
edge_or_dummy none src dst = record { source = src; target = dst; cost = 1 }
edge_or_dummy (some edge) src dst = edge

-- `stage_info.transfers.push_back(transfer)` and the kind of the stage.
abbrev pub add_transfer : ℕ → ℕ → StageKind → PathExpansionPlan → PathExpansionPlan
add_transfer stage transfer kind plan =
    set_info stage
      (record (info_of plan stage) {
        kind = kind;
        transfers = (info_of plan stage).transfers ++ transfer ∷ [];
      })
      plan

abbrev pub add_transfer_of : ℕ → StageKind → ℕ × PathExpansionPlan → PathExpansionPlan
add_transfer_of stage kind (transfer, plan) = add_transfer stage transfer kind plan

abbrev pub with_buffer :
    ℕ
    → DataTransferOp
    → EdgeInfo
    → Option ℕ
    → Option ℕ
    → Bool
    → List ℕ
    → ℕ × PathExpansionPlan
    → PathExpansionPlan
with_buffer stage t edge intermediate current intermediate_is_source shape (buffer, plan) =
    add_transfer_of stage adapt_transfer (
      create_from_template_with_buffer t edge intermediate current intermediate_is_source buffer
        shape plan)

unfoldable pub adapt_data_transfer :
    RoutingGraph → ℕ → ℕ → Bool → DataTransferOp → PathExpansionPlan → Option PathExpansionPlan
adapt_data_transfer g stage neighbor intermediate_is_source t plan = do
  let intermediate = (info_of plan neighbor).stage_resource
  let current = (info_of plan stage).stage_resource
  shape ← buffer_shape (if is_memref t.source then t.mixed_source_sizes else t.mixed_dest_sizes)
  src_node_id ← node_id_of g (if intermediate_is_source then intermediate else current)
  dst_node_id ← node_id_of g (if intermediate_is_source then current else intermediate)
  some (
      with_buffer stage t
        (edge_or_dummy (get_edge_info g src_node_id dst_node_id) src_node_id dst_node_id)
        intermediate current intermediate_is_source shape
        (create_memory_buffer intermediate shape (memref_element_type t.source t.destination) plan))

-- The walk over the transfers of a stage: those with exactly one memref are adapted.
unfoldable pub adapt_transfers :
    RoutingGraph → ℕ → ℕ → Bool → List BodyOp → PathExpansionPlan → Option PathExpansionPlan
adapt_transfers g stage neighbor intermediate_is_source [] plan = some plan
adapt_transfers g stage neighbor intermediate_is_source (fifo_op f ∷ body) plan =
    adapt_transfers g stage neighbor intermediate_is_source body plan
adapt_transfers g stage neighbor intermediate_is_source (transfer_op t ∷ body) plan = do
  plan' ←
      if (is_memref t.source && not (is_memref t.destination))
        || (not (is_memref t.source) && is_memref t.destination)
      then adapt_data_transfer g stage neighbor intermediate_is_source t plan
      else some plan
  adapt_transfers g stage neighbor intermediate_is_source body plan'
