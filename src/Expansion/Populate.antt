-- ===== src/Expansion/Populate.antt =====
-- lib/Transforms/PathExpansion/Planner.cpp, `populateIntermediateStageTransfers`. `none` is a failed
-- assertion, an `llvm_unreachable` or the use of a null pointer.
use acgatea.Common.{
  ℕ, Bool, true, false, Option, none, some, List, [], ◌∷◌, if◌then◌else◌, ◌==◌, ◌>>=◌, ◌>>◌, guard,
  length, ◌&&◌, ◌||◌, not, get_elem?, is_contained, is_some,
}
use acgatea.Common.Map.{find}
use acgatea.Arch.RoutingGraph.{RoutingGraph, get_edge_info}
use acgatea.Expansion.Plan.{
  AffineMap, identity, PipelineTree, memory_buffer, fifo, SpecKind, PrivateResourceSpec,
  TransferMaterializationInfo, StageMaterializationInfo, synthetic_transfer, PathExpansionPlan,
  info_of, set_info, is_intermediate_stage,
}
use acgatea.Expansion.Factories.{Side, create_synthetic}
use acgatea.Expansion.Classify.{first_of}
use acgatea.Expansion.Classify.Transfers.{node_id_of, edge_or_dummy, add_transfer_of}

-- Two resources are equal, or both are null.
abbrev pub equal_resources : Option ℕ → Option ℕ → Bool
equal_resources none none = true
equal_resources none (some b) = false
equal_resources (some a) none = false
equal_resources (some a) (some b) = a == b

-- `matchesIntermediate`
abbrev pub matches_intermediate : StageMaterializationInfo → Option ℕ → Bool
matches_intermediate info r =
    equal_resources r info.stage_resource
    || (is_some info.applicable_unit && equal_resources r info.applicable_unit)

abbrev pub identity_of : SpecKind → PrivateResourceSpec → Option AffineMap
identity_of memory_buffer spec = some (identity (length spec.shape))
identity_of fifo spec = none

-- The map of the neighbour, or an identity map if there is none and the resource is a buffer.
abbrev pub map_or_identity : PathExpansionPlan → Option AffineMap → Option ℕ → Option AffineMap
map_or_identity plan (some m) spec = some m
map_or_identity plan none none = none
map_or_identity plan none (some p) = elim (get_elem? plan.specs p) [
  | none ↦ none
  | some spec ↦ identity_of spec.kind spec
]

-- The first transfer of the next stage that was not used yet and starts at the intermediate stage.
unfoldable pub find_next_transfer :
    PathExpansionPlan
    → StageMaterializationInfo
    → List ℕ
    → List ℕ
    → Option (ℕ × TransferMaterializationInfo)
find_next_transfer plan info visited [] = none
find_next_transfer plan info visited (p ∷ transfers) =
    let rest = find_next_transfer plan info visited transfers in
    elim (get_elem? plan.transfers p) [
      | none ↦ rest
      | some t ↦
          if not (is_contained p visited) && matches_intermediate info t.source_resource
          then some (p, t)
          else rest
    ]

abbrev pub source_side : PathExpansionPlan → TransferMaterializationInfo → Side
source_side plan prev = record {
  spec = prev.dest_private_resource;
  slot_index = prev.dest_slot_index;
  indices = prev.dest_indices;
  sizes = prev.dest_sizes;
  side_map = map_or_identity plan prev.dest_map prev.dest_private_resource;
}

abbrev pub dest_side : PathExpansionPlan → TransferMaterializationInfo → Side
dest_side plan next = record {
  spec = next.source_private_resource;
  slot_index = next.source_slot_index;
  indices = next.source_indices;
  sizes = next.source_sizes;
  side_map = map_or_identity plan next.source_map next.source_private_resource;
}

-- The stages around an intermediate stage; only a materialized `prev` has a context.
pub record Around : Type 0 where
  pub stage : ℕ
  pub prev : ℕ
  pub next : ℕ
  pub prev_is_original : Bool

-- One transfer of the previous stage that ends at the intermediate stage, and the transfers of the
-- next stage that were used.
unfoldable pub connect_transfer :
    RoutingGraph
    → Around
    → TransferMaterializationInfo
    → List ℕ × PathExpansionPlan
    → Option (List ℕ × PathExpansionPlan)
connect_transfer g a prev_transfer (visited, plan) = do
  guard (is_some prev_transfer.dest_private_resource)
  (p, next_transfer) ←
      find_next_transfer plan (info_of plan a.stage) visited (info_of plan a.next).transfers
  guard (is_some next_transfer.source_private_resource)
  src_nid ← node_id_of g (info_of plan a.prev).stage_resource
  dst_nid ← node_id_of g (info_of plan a.next).stage_resource
  guard a.prev_is_original
  created ←
      create_synthetic (edge_or_dummy (get_edge_info g src_nid dst_nid) src_nid dst_nid)
        (info_of plan a.prev).stage_resource (info_of plan a.next).stage_resource
        (source_side plan prev_transfer) (dest_side plan next_transfer) plan
  some (p ∷ visited, add_transfer_of a.stage synthetic_transfer created)

abbrev pub connect_if_matching :
    RoutingGraph
    → Around
    → TransferMaterializationInfo
    → List ℕ × PathExpansionPlan
    → Option (List ℕ × PathExpansionPlan)
connect_if_matching g a t (visited, plan) =
    if matches_intermediate (info_of plan a.stage) t.dest_resource
    then connect_transfer g a t (visited, plan)
    else some (visited, plan)

-- The loop over the transfers of the previous stage.
unfoldable pub connect_transfers :
    RoutingGraph → Around → List ℕ → List ℕ × PathExpansionPlan → Option PathExpansionPlan
connect_transfers g a [] (visited, plan) = some plan
connect_transfers g a (p ∷ transfers) (visited, plan) = do
  t ← get_elem? plan.transfers p
  state ← connect_if_matching g a t (visited, plan)
  connect_transfers g a transfers state

abbrev pub set_synthetic : ℕ → PathExpansionPlan → PathExpansionPlan
set_synthetic stage plan =
    set_info stage (record (info_of plan stage) { kind = synthetic_transfer }) plan

unfoldable pub populate_stage :
    RoutingGraph
    → PipelineTree
    → Option ℕ
    → ℕ
    → Option ℕ
    → PathExpansionPlan
    → Option PathExpansionPlan
populate_stage g tree none stage next plan = none
populate_stage g tree (some prev) stage none plan = none
populate_stage g tree (some prev) stage (some next) plan = elim (find prev plan.stage_info) [
  | none ↦ some (set_synthetic stage plan)
  | some prev_info ↦
      connect_transfers g
        (record {
          stage = stage;
          prev = prev;
          next = next;
          prev_is_original = is_some (find prev tree.operation);
        })
        prev_info.transfers ([], set_synthetic stage plan)
]

unfoldable pub populate_from :
    RoutingGraph → PipelineTree → Option ℕ → List ℕ → PathExpansionPlan → Option PathExpansionPlan
populate_from g tree prev [] plan = some plan
populate_from g tree prev (stage ∷ stages) plan = do
  plan' ←
      if is_intermediate_stage tree stage
      then populate_stage g tree prev stage (first_of stages) plan
      else some plan
  populate_from g tree (some stage) stages plan'

unfoldable pub populate_intermediate_stage_transfers :
    RoutingGraph → PipelineTree → List ℕ → PathExpansionPlan → Option PathExpansionPlan
populate_intermediate_stage_transfers g tree stages plan = populate_from g tree none stages plan
