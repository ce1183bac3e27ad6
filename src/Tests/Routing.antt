-- ===== src/Tests/Routing.antt =====
-- The routing graph of a device: a memory, a load-store unit, a compute unit and a second memory, with
-- two ways from the first memory to the second.
use acgatea.Common.{◌≡◌, refl, true, false, none, some, [], ◌∷◌}
use acgatea.Common.Map.{find, assign}
use acgatea.Arch.Device.{int_size, no_size, DeviceOp, exec_unit, datapath, Body, end, op}
use acgatea.Arch.RoutingGraph.{
  ResourceKind, compute, load_store_unit, RoutingGraph, add_node, add_edge,
}
use acgatea.Arch.RoutingGraph.Build.{
  add_value, process_memory_op, process_execution_unit_op, process_datapath_op, process_op,
  process_region, apply_sizes, initialize,
}
use acgatea.Arch.RoutingGraph.WellFormed.{IsWellFormed}
use acgatea.Arch.RoutingGraph.Initialized.{routing_initialize-IsWellFormed}
use acgatea.Arch.RoutingGraph.ShortestPath.{found, visit_all, search, follow, find_shortest_path}
use acgatea.Arch.RoutingGraph.ShortestPath.Correct.{IsShortest, find_shortest_path-IsShortest}

abbrev paths_body : Body
paths_body =
    op (datapath 100 101)
      (op (datapath 101 102) (op (datapath 102 103) (op (datapath 100 102) end)))

abbrev sample_body : Body
sample_body = op (DeviceOp.memory 100 1 (int_size 1024)) (
    op (exec_unit 101 (some 2) true)
      (op (exec_unit 102 none false) (op (DeviceOp.memory 103 4 no_size) paths_body)))

abbrev sample_graph : RoutingGraph
sample_graph = record {
  next_node_id = 4;
  nodes =
      (
        0,
        record {
          id = 0;
          resource = 1;
          kind = ResourceKind.memory;
          total_capacity_in_bytes = some 1024;
          total_reserved_in_bytes = some 0;
        },
      )
      ∷ (
        1,
        record {
          id = 1;
          resource = 2;
          kind = load_store_unit;
          total_capacity_in_bytes = none;
          total_reserved_in_bytes = none;
        },
      )
      ∷ (
        2,
        record {
          id = 2;
          resource = 9;
          kind = compute;
          total_capacity_in_bytes = none;
          total_reserved_in_bytes = none;
        },
      )
      ∷ (
        3,
        record {
          id = 3;
          resource = 4;
          kind = ResourceKind.memory;
          total_capacity_in_bytes = none;
          total_reserved_in_bytes = none;
        },
      )
      ∷ [];
  adjacency =
      (
        0,
        record { source = 0; target = 1; cost = 1 }
            ∷ record { source = 0; target = 2; cost = 1 }
            ∷ [],
      )
      ∷ (1, record { source = 1; target = 2; cost = 1 } ∷ [])
      ∷ (2, record { source = 2; target = 3; cost = 1 } ∷ [])
      ∷ [];
}

sample_built : initialize 9 sample_body ≡ some sample_graph
unfolding initialize process_op process_region process_memory_op process_execution_unit_op
    process_datapath_op add_value add_node add_edge apply_sizes find assign
sample_built = refl

routing_initialize-IsWellFormed_example : IsWellFormed sample_graph
routing_initialize-IsWellFormed_example =
    routing_initialize-IsWellFormed 9 sample_body sample_graph sample_built

sample_path : find_shortest_path sample_graph 0 3 ≡ found (0 ∷ 2 ∷ 3 ∷ [])
unfolding find_shortest_path search visit_all follow find assign
sample_path = refl

find_shortest_path-IsShortest_example :
    IsShortest sample_graph 0 3 (find_shortest_path sample_graph 0 3)
find_shortest_path-IsShortest_example =
    find_shortest_path-IsShortest sample_graph 0 3
      (routing_initialize-IsWellFormed 9 sample_body sample_graph sample_built)
