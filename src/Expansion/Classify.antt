-- ===== src/Expansion/Classify.antt =====
-- lib/Transforms/PathExpansion/Planner.cpp, `classifyOriginalStages`. `none` is a failed assertion or
-- an `llvm_unreachable`.
use acgatea.Common.{
  ℕ, zero, suc, Bool, true, false, Option, none, some, List, [], ◌∷◌, ◌++◌, if◌then◌else◌, ◌==◌,
  ◌>>=◌, ◌>>◌, guard, length, ◌&&◌, ◌||◌, not, ltb, get_elem?,
}
use acgatea.Common.Map.{find}
use acgatea.Arch.RoutingGraph.{RoutingGraph, EdgeInfo, get_node_id_for_resource, get_edge_info}
use acgatea.Expansion.Plan.{
  OperandType, memref, other, Size, constant, dynamic, DataTransferOp, FifoOp, BodyOp, transfer_op,
  fifo_op, StageOp, PipelineTree, PrivateResourceSpec, PathExpansionPlan, adapt_fifo_kinds,
  adapt_transfer, StageKind, info_of, set_info, is_intermediate_stage,
}
use acgatea.Expansion.Factories.{
  create_memory_buffer, create_fifo, create_from_template_with_buffer, create_from_fifo_op,
}
use acgatea.Expansion.Classify.Transfers.{adapt_transfers}
use acgatea.Expansion.Classify.Fifos.{Classified, adapt_fifo_ops}
pub mod Transfers
pub mod Fifos
pub mod Slots

-- The intermediate neighbour with which a transfer is adapted: the previous one, if it is one.
abbrev pub adapt_with :
    RoutingGraph
    → ℕ
    → Option ℕ
    → Option ℕ
    → List BodyOp
    → PathExpansionPlan
    → Option PathExpansionPlan
adapt_with g stage (some prev) next body plan = adapt_transfers g stage prev true body plan
adapt_with g stage none (some next) body plan = adapt_transfers g stage next false body plan
adapt_with g stage none none body plan = some plan

abbrev pub has_intermediate : Option ℕ → Option ℕ → Bool
has_intermediate none none = false
has_intermediate none (some next) = true
has_intermediate (some prev) next = true

unfoldable pub classify_stage :
    RoutingGraph → ℕ → Option ℕ → Option ℕ → StageOp → Classified → Option Classified
classify_stage g stage prev next op c =
    if has_intermediate prev next
    then (adapt_with g stage prev next op.body c.plan >>= λ plan.
        adapt_fifo_ops g stage prev next op.body (record c { plan = plan }))
    else some c

abbrev pub if_intermediate : PipelineTree → Option ℕ → Option ℕ
if_intermediate tree none = none
if_intermediate tree (some s) = if is_intermediate_stage tree s then some s else none

abbrev pub first_of : List ℕ → Option ℕ
first_of [] = none
first_of (s ∷ stages) = some s

abbrev pub classify_if_original :
    RoutingGraph → ℕ → Option ℕ → Option ℕ → Option StageOp → Classified → Option Classified
classify_if_original g stage prev next none c = some c
classify_if_original g stage prev next (some op) c = classify_stage g stage prev next op c

unfoldable pub classify_from :
    RoutingGraph → PipelineTree → Option ℕ → List ℕ → Classified → Option Classified
classify_from g tree prev [] c = some c
classify_from g tree prev (stage ∷ stages) c = do
  c' ←
      classify_if_original g stage (if_intermediate tree prev)
        (if_intermediate tree (first_of stages)) (find stage tree.operation) c
  classify_from g tree (some stage) stages c'

unfoldable pub classify_original_stages :
    RoutingGraph → PipelineTree → List ℕ → PathExpansionPlan → Option PathExpansionPlan
classify_original_stages g tree stages plan = do
  c ← classify_from g tree none stages (record { plan = plan; fifos = [] })
  some c.plan
