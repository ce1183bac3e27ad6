-- ===== src/Expansion/FullPath.antt =====
-- lib/Transforms/PathExpansion/Planner.cpp, `buildFullShortestPath`. The outer `none` is the
-- `llvm_unreachable` of a resource that is not in the graph, and the inner one is `std::nullopt`.
use acgatea.Common.{
  ℕ, Bool, true, false, Option, none, some, List, [], ◌∷◌, ◌++◌, if◌then◌else◌, ◌==◌, ◌>>=◌,
}
use acgatea.Arch.RoutingGraph.{RoutingGraph, get_node_id_for_resource}
use acgatea.Arch.RoutingGraph.ShortestPath.{
  PathResult, found, no_path, out_of_fuel, find_shortest_path,
}
pub mod Legs
pub mod Known

-- `full_path.back() == seg->front()`, false if one of the two is empty.
unfoldable pub shares_junction : List ℕ → List ℕ → Bool
shares_junction [] segment = false
shares_junction (x ∷ y ∷ path) segment = shares_junction (y ∷ path) segment
shares_junction (x ∷ []) [] = false
shares_junction (x ∷ []) (s ∷ segment) = x == s

abbrev pub drop_first : List ℕ → List ℕ
drop_first [] = []
drop_first (x ∷ xs) = xs

unfoldable pub append_segment : List ℕ → List ℕ → List ℕ
append_segment full_path segment =
    full_path ++ (if shares_junction full_path segment then drop_first segment else segment)

abbrev pub extend :
    (List ℕ → Option (Option (List ℕ))) → List ℕ → PathResult → Option (Option (List ℕ))
extend rest full_path (found segment) = rest (append_segment full_path segment)
extend rest full_path no_path = some none
extend rest full_path out_of_fuel = none

-- The loop over the consecutive pairs of resources.
unfoldable pub walk_resources : RoutingGraph → ℕ → List ℕ → List ℕ → Option (Option (List ℕ))
walk_resources g resource [] full_path = some (some full_path)
walk_resources g resource (next ∷ resources) full_path = do
  src ← get_node_id_for_resource g resource
  dst ← get_node_id_for_resource g next
  extend (walk_resources g next resources) full_path (find_shortest_path g src dst)

unfoldable pub build_full_shortest_path : RoutingGraph → List ℕ → Option (Option (List ℕ))
build_full_shortest_path g [] = some (some [])
build_full_shortest_path g (resource ∷ resources) = walk_resources g resource resources []
