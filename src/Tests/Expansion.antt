-- ===== src/Tests/Expansion.antt =====
-- A line of two memories, two load/store units and a compute unit, and a pipeline of two stages that is
-- expanded by a third one.
use acgatea.Common.{
  ◌≡◌, ◌↔◌, ◌<◌, refl, true, false, none, some, [], ◌∷◌, Option, List, ℕ, In, arith, Distinct,
}
use acgatea.Common.Map.{find, assign}
use acgatea.Arch.Device.{int_size, DeviceOp, exec_unit, datapath, Body, end, op}
use acgatea.Arch.RoutingGraph.{
  RoutingGraph, EdgeInfo, ResourceNode, ResourceKind, compute, load_store_unit, add_node, add_edge,
}
use acgatea.Arch.RoutingGraph.Build.{
  add_value, process_memory_op, process_execution_unit_op, process_datapath_op, process_op,
  process_region, apply_sizes, initialize,
}
use acgatea.Arch.RoutingGraph.WellFormed.{IsWellFormed}
use acgatea.Arch.RoutingGraph.Initialized.{routing_initialize-IsWellFormed}
use acgatea.Stages.Dependencies.{entry}
use acgatea.Expansion.Chain.{sort_and_validate_linear_pipeline_stages}
use acgatea.Expansion.Chain.Linear.{IsChain}
use acgatea.Expansion.Chain.Sorted.{sort_and_validate-IsChain}
use acgatea.Expansion.FullPath.{build_full_shortest_path}
use acgatea.Expansion.FullPath.Legs.{IsFullPath, build_full_shortest_path-IsFullPath}
use acgatea.Expansion.Plan.{
  memref, other, constant, DataTransferOp, FifoOp, transfer_op, fifo_op, PipelineTree,
  PathExpansionPlan, StageMaterializationInfo, preserve_original, synthetic_transfer, empty_plan,
}
use acgatea.Expansion.Resources.{assign_original_stage_resources}
use acgatea.Expansion.Resources.Assigning.{
  IsAssignment, assign_original_stage_resources-IsAssignment,
}
use acgatea.Expansion.StageList.{
  Walk, find_sorted_index, anchor_indices, insert_synthetic_stage, find_stage_from,
  handle_memory_node, handle_load_store_node, handle_compute_node, walk_path, clear_dependents,
  chain_dependents, build_expanded_stage_list,
}
use acgatea.OperationTree.Children.{insert_after, insert_in_children}
use acgatea.Expansion.StageList.Expanded.{IsExpanded, build_expanded_stage_list-IsExpanded}
use acgatea.Expansion.Factories.{fifo_spec}
use acgatea.Expansion.Classify.Fifos.{FifoEntry, take_slot}
use acgatea.Expansion.Classify.Slots.{IsTaken, take_slot-IsTaken}
use acgatea.Expansion.Planner.{plan_path_expansion}
use acgatea.Expansion.Planner.Outcome.Answers.{IsPlanned}
use acgatea.Expansion.Planner.Outcome.{plan_path_expansion-IsPlanned}

abbrev line_body : Body
line_body = op (DeviceOp.memory 100 1 (int_size 1024)) (
    op (exec_unit 101 (some 2) true) (
      op (DeviceOp.memory 102 3 (int_size 64)) (
        op (exec_unit 103 (some 4) true) (
          op (exec_unit 104 none false) (
            op (datapath 100 101)
              (op (datapath 101 102) (op (datapath 102 103) (op (datapath 103 104) end))))))))

abbrev pub unit_node : ℕ → ℕ → ResourceKind → ResourceNode
unit_node id resource kind = record {
  id = id;
  resource = resource;
  kind = kind;
  total_capacity_in_bytes = none;
  total_reserved_in_bytes = none;
}

abbrev pub memory_node : ℕ → ℕ → ℕ → ResourceNode
memory_node id resource capacity = record {
  id = id;
  resource = resource;
  kind = ResourceKind.memory;
  total_capacity_in_bytes = some capacity;
  total_reserved_in_bytes = some 0;
}

abbrev pub hop : ℕ → ℕ → EdgeInfo
hop source target = record { source = source; target = target; cost = 1 }

abbrev line_graph : RoutingGraph
line_graph = record {
  next_node_id = 5;
  nodes =
      (0, memory_node 0 1 1024)
      ∷ (1, unit_node 1 2 load_store_unit)
      ∷ (2, memory_node 2 3 64)
      ∷ (3, unit_node 3 4 load_store_unit)
      ∷ (4, unit_node 4 9 compute)
      ∷ [];
  adjacency = (0, hop 0 1 ∷ []) ∷ (1, hop 1 2 ∷ []) ∷ (2, hop 2 3 ∷ []) ∷ (3, hop 3 4 ∷ []) ∷ [];
}

abbrev load : DataTransferOp
load = record {
  operation = 20;
  source = memref (some 1) 7;
  destination = other;
  mixed_source_sizes = constant 16 ∷ [];
  mixed_dest_sizes = [];
  source_indices = 30 ∷ [];
  dest_indices = [];
  source_map = none;
  dest_map = none;
}

abbrev take : FifoOp
take = record {
  operation = 21;
  is_read = true;
  element_type = 7;
  num_elements = some 16;
  slot_is_result = false;
  alloc_result = none;
}

-- A stage that loads from the memory 1, and one that computes on the unit 9.
abbrev pub sample_tree : PipelineTree
sample_tree = record {
  operation =
      (1, record { applicable_units = none; body = transfer_op load ∷ [] })
      ∷ (2, record { applicable_units = some (9 ∷ []); body = fifo_op take ∷ [] })
      ∷ [];
  stage_id = (1, 0) ∷ (2, 1) ∷ [];
  dependents = (1, 2 ∷ []) ∷ (2, []) ∷ [];
  stages = 1 ∷ 2 ∷ [];
  fresh = 3;
}

line_built : initialize 9 line_body ≡ some line_graph
unfolding initialize process_op process_region process_memory_op process_execution_unit_op
    process_datapath_op add_value add_node add_edge apply_sizes find assign
line_built = refl

line_IsWellFormed : IsWellFormed line_graph
line_IsWellFormed = routing_initialize-IsWellFormed 9 line_body line_graph line_built

sample-Distinct : Distinct (1 ∷ 2 ∷ [])
sample-Distinct = omega arith

sample_closed :
    (s t : ℕ) → In s (1 ∷ 2 ∷ []) → In t (entry sample_tree.dependents s) → In t (1 ∷ 2 ∷ [])
unfolding find
sample_closed s t m n = ground (arith, m, n)

sample_below : (s : ℕ) → In s (1 ∷ 2 ∷ []) → s < 3
sample_below s m = ground (arith, m)

sort_and_validate-IsChain_example :
    (sort_and_validate_linear_pipeline_stages sample_tree.dependents (1 ∷ 2 ∷ [])
      ≡ some (1 ∷ 2 ∷ []))
    ↔ IsChain sample_tree.dependents (1 ∷ 2 ∷ []) (1 ∷ 2 ∷ [])
sort_and_validate-IsChain_example =
    sort_and_validate-IsChain sample_tree.dependents (1 ∷ 2 ∷ []) (1 ∷ 2 ∷ []) sample-Distinct
      sample_closed

build_full_shortest_path-IsFullPath_example :
    IsFullPath line_graph [] 1 (9 ∷ []) (build_full_shortest_path line_graph (1 ∷ 9 ∷ []))
build_full_shortest_path-IsFullPath_example =
    build_full_shortest_path-IsFullPath line_graph line_IsWellFormed 1 9 []

assign_original_stage_resources-IsAssignment_example :
    IsAssignment sample_tree
      (1 ∷ 2 ∷ [])
      (assign_original_stage_resources sample_tree (1 ∷ 2 ∷ []) empty_plan)
assign_original_stage_resources-IsAssignment_example =
    assign_original_stage_resources-IsAssignment sample_tree (1 ∷ 2 ∷ [])

abbrev info : ℕ → Option ℕ → StageMaterializationInfo
info resource unit = record {
  kind = preserve_original;
  stage_resource = some resource;
  transfers = [];
  applicable_unit = unit;
}

abbrev first_plan : PathExpansionPlan
first_plan = record {
  stage_info = (1, info 1 none) ∷ (2, info 9 none) ∷ [];
  specs = [];
  transfers = [];
  changed = false;
}

abbrev expanded_walk : Walk
expanded_walk = record {
  tree = record sample_tree {
    stage_id = (1, 0) ∷ (2, 1) ∷ (3, 2) ∷ [];
    dependents = (1, 3 ∷ []) ∷ (2, []) ∷ (3, 2 ∷ []) ∷ [];
    stages = 1 ∷ 3 ∷ 2 ∷ [];
    fresh = 4;
  };
  plan = record first_plan {
    stage_info =
        (1, info 1 (some 2))
        ∷ (2, info 9 (some 9))
        ∷ (3, record (info 3 (some 4)) { kind = synthetic_transfer })
        ∷ [];
  };
  ordered_stages = 1 ∷ 3 ∷ 2 ∷ [];
  visited = 2 ∷ 1 ∷ [];
  last_inserted = some 2;
  next_anchor_cursor = 1;
  search_begin = 2;
  search_end = 2;
  next_stage_id = 3;
}

abbrev line_path : List ℕ
line_path = 0 ∷ 1 ∷ 2 ∷ 3 ∷ 4 ∷ []

expanded_built :
    build_expanded_stage_list line_graph sample_tree line_path (1 ∷ 2 ∷ []) first_plan 2
    ≡ some expanded_walk
unfolding build_expanded_stage_list walk_path anchor_indices find_sorted_index find_stage_from
    handle_memory_node handle_load_store_node handle_compute_node insert_synthetic_stage
    insert_in_children insert_after clear_dependents chain_dependents find assign
expanded_built = refl

build_expanded_stage_list-IsExpanded_example :
    IsExpanded line_graph sample_tree line_path (1 ∷ 2 ∷ []) expanded_walk
build_expanded_stage_list-IsExpanded_example =
    build_expanded_stage_list-IsExpanded line_graph sample_tree line_path (1 ∷ 2 ∷ []) first_plan 2
      expanded_walk (λ s m. m) sample_below expanded_built

-- Two FIFOs out of the unit 4, with one and two slots.
abbrev fifo_plan : PathExpansionPlan
fifo_plan = record empty_plan {
  specs =
      fifo_spec (some 4) (some 8) (16 ∷ []) 7 ∷ fifo_spec (some 4) (some 9) (16 ∷ 32 ∷ []) 7 ∷ [];
}

abbrev two_fifos : List FifoEntry
two_fifos =
    record { src = 4; dest = 8; spec = 0; next_slot = 1 }
    ∷ record { src = 4; dest = 9; spec = 1; next_slot = 2 }
    ∷ []

take_slot-IsTaken_example :
    IsTaken 4 9 two_fifos fifo_plan 64 (take_slot 4 9 64 7 two_fifos fifo_plan)
take_slot-IsTaken_example = take_slot-IsTaken 4 9 64 7 two_fifos fifo_plan (record {
  next = ((refl, omega arith, refl, refl), ((refl, omega arith, refl, refl), tt));
  apart = omega arith;
})

plan_path_expansion-IsPlanned_example :
    IsPlanned line_graph sample_tree (plan_path_expansion line_graph sample_tree)
plan_path_expansion-IsPlanned_example =
    plan_path_expansion-IsPlanned line_graph sample_tree line_IsWellFormed sample_below
      sample-Distinct sample_closed
