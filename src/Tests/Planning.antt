-- ===== src/Tests/Planning.antt =====
-- Two memories of the path without a stage between them: the second stage that is added has no transfers
-- yet when the first is populated, and planning ends in a failed assertion.
use acgatea.Stages.Sorting.{
  relax, drain, clear_degrees, count_edges, count_incoming, ready_stages, topological_sort_stages,
}
use acgatea.Expansion.Chain.{
  note_dependents, validate_stages, validate_linear_chain, sort_and_validate_linear_pipeline_stages,
}
use acgatea.Expansion.Resources.{
  first_spaces_from, first_transfer_mem_spaces, first_rules, first_pass, sweep, second_pass,
  all_resolved, has_anchor_stage, collect_original_stage_resource_path,
  assign_original_stage_resources,
}
use acgatea.Expansion.FullPath.{
  shares_junction, append_segment, walk_resources, build_full_shortest_path,
}
use acgatea.Expansion.Classify.{classify_stage, classify_from, classify_original_stages}
use acgatea.Expansion.Classify.Transfers.{buffer_shape, adapt_data_transfer, adapt_transfers}
use acgatea.Expansion.Classify.Fifos.{slot_is_valid, adapt_fifo_op, adapt_fifo_ops, take_slot}
use acgatea.Expansion.Populate.{
  find_next_transfer, connect_transfer, connect_transfers, populate_stage, populate_from,
  populate_intermediate_stage_transfers,
}
use acgatea.Expansion.Planner.{
  resources_without_units, needs_expansion, apply_path_expansion, aborted_planning,
  plan_path_expansion,
}
use acgatea.Expansion.Factories.{
  create_memory_buffer, create_fifo, create_from_template_with_buffer, create_from_fifo_op,
}
use acgatea.Arch.RoutingGraph.{
  find_resource, get_node_id_for_resource, RoutingGraph, compute, load_store_unit,
}
use acgatea.Arch.RoutingGraph.ShortestPath.{visit_all, search, follow, find_shortest_path}
use acgatea.Common.{◌≡◌, refl, [], ◌∷◌}
use acgatea.Common.Map.{find, assign}
use acgatea.Expansion.StageList.{
  find_sorted_index, anchor_indices, insert_synthetic_stage, find_stage_from, handle_memory_node,
  handle_compute_node, walk_path, build_expanded_stage_list,
}
use acgatea.OperationTree.Children.{insert_after, insert_in_children}
use acgatea.Tests.Expansion.{memory_node, unit_node, hop, sample_tree}

-- The line with one more memory and load/store unit, for which no stage is there: two stages are added in
-- a row.
abbrev long_graph : RoutingGraph
long_graph = record {
  next_node_id = 7;
  nodes =
      (0, memory_node 0 1 1024)
      ∷ (1, unit_node 1 2 load_store_unit)
      ∷ (2, memory_node 2 3 64)
      ∷ (3, unit_node 3 4 load_store_unit)
      ∷ (4, memory_node 4 5 64)
      ∷ (5, unit_node 5 6 load_store_unit)
      ∷ (6, unit_node 6 9 compute)
      ∷ [];
  adjacency =
      (0, hop 0 1 ∷ [])
      ∷ (1, hop 1 2 ∷ [])
      ∷ (2, hop 2 3 ∷ [])
      ∷ (3, hop 3 4 ∷ [])
      ∷ (4, hop 4 5 ∷ [])
      ∷ (5, hop 5 6 ∷ [])
      ∷ [];
}

two_synthetic_stages_abort : plan_path_expansion long_graph sample_tree ≡ aborted_planning
unfolding relax drain clear_degrees count_edges count_incoming ready_stages topological_sort_stages
    note_dependents validate_stages validate_linear_chain sort_and_validate_linear_pipeline_stages
    first_spaces_from first_transfer_mem_spaces first_rules first_pass sweep second_pass
    all_resolved assign_original_stage_resources has_anchor_stage
    collect_original_stage_resource_path shares_junction append_segment walk_resources
    build_full_shortest_path find_sorted_index anchor_indices insert_synthetic_stage find_stage_from
    handle_memory_node handle_compute_node walk_path build_expanded_stage_list classify_stage
    classify_from classify_original_stages buffer_shape adapt_data_transfer adapt_transfers
    take_slot slot_is_valid adapt_fifo_op adapt_fifo_ops find_next_transfer connect_transfer
    connect_transfers populate_stage populate_from populate_intermediate_stage_transfers
    resources_without_units needs_expansion apply_path_expansion plan_path_expansion
    create_memory_buffer create_fifo create_from_template_with_buffer create_from_fifo_op
    insert_after insert_in_children find_resource get_node_id_for_resource visit_all search follow
    find_shortest_path find assign
two_synthetic_stages_abort = refl
