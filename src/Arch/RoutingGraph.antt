-- ===== src/Arch/RoutingGraph.antt =====
-- lib/Analysis/ArchViews/RoutingGraph.cpp: the graph of the device's resources and the hops between
-- them. `none` is a failed assertion, or `std::nullopt` where the source returns one.
pub mod Build
pub mod Initialized
pub mod ShortestPath
pub mod WellFormed
use acgatea.Common.{
  ℕ, suc, ◌+◌, ◌-◌, ◌%◌, Bool, true, false, Option, none, some, List, [], ◌∷◌, ◌++◌, map,
  if◌then◌else◌, ◌==◌, ◌>>=◌, ◌>>◌, guard,
}
use acgatea.Common.Map.{Map, find, assign, contains, keys}

pub data ResourceKind : Type 0 where
  memory compute load_store_unit : ResourceKind

pub record ResourceNode : Type 0 where
  pub id : ℕ
  pub resource : ℕ
  pub kind : ResourceKind
  pub total_capacity_in_bytes : Option ℕ
  pub total_reserved_in_bytes : Option ℕ

pub record EdgeInfo : Type 0 where
  pub source : ℕ
  pub target : ℕ
  pub cost : ℕ

pub record RoutingGraph : Type 0 where
  pub next_node_id : ℕ
  pub nodes : Map ResourceNode
  pub adjacency : Map (List EdgeInfo)

abbrev pub empty_graph : RoutingGraph
empty_graph = record { next_node_id = 0; nodes = []; adjacency = [] }

abbrev pub new_node : ℕ → ℕ → ResourceKind → ResourceNode
new_node node_id resource kind = record {
  id = node_id;
  resource = resource;
  kind = kind;
  total_capacity_in_bytes = none;
  total_reserved_in_bytes = none;
}

-- The graph with the new node, whose id is the counter before the call.
unfoldable pub add_node : ℕ → ResourceKind → RoutingGraph → RoutingGraph
add_node resource kind g = record g {
  next_node_id = suc g.next_node_id;
  nodes = assign g.next_node_id (new_node g.next_node_id resource kind) g.nodes;
}

abbrev pub has_node : RoutingGraph → ℕ → Bool
has_node g n = contains n g.nodes

abbrev pub or_empty : Option (List EdgeInfo) → List EdgeInfo
or_empty none = []
or_empty (some es) = es

-- `adjacency_[source]`, read.
abbrev pub edges_of : RoutingGraph → ℕ → List EdgeInfo
edges_of g source = or_empty (find source g.adjacency)

-- The graph with one more edge out of `source`, behind those that are there.
abbrev pub with_edge : ℕ → ℕ → ℕ → RoutingGraph → RoutingGraph
with_edge source target cost g = record g {
  adjacency =
      assign source
        (edges_of g source ++ record { source = source; target = target; cost = cost } ∷ [])
        g.adjacency;
}

unfoldable pub add_edge : ℕ → ℕ → ℕ → RoutingGraph → Option RoutingGraph
add_edge source target cost g = do
  guard (has_node g source)
  guard (has_node g target)
  some (with_edge source target cost g)

abbrev pub get_node : RoutingGraph → ℕ → Option ResourceNode
get_node g n = find n g.nodes

abbrev pub targets : List EdgeInfo → List ℕ
targets = map (λ e. e.target)

abbrev pub get_neighbors : RoutingGraph → ℕ → List ℕ
get_neighbors g n = targets (edges_of g n)

unfoldable pub find_edge : ℕ → List EdgeInfo → Option EdgeInfo
find_edge target [] = none
find_edge target (e ∷ es) = if e.target == target then some e else find_edge target es

unfoldable pub get_edge_info : RoutingGraph → ℕ → ℕ → Option EdgeInfo
get_edge_info g source target = find_edge target (edges_of g source)

unfoldable pub find_resource : ℕ → Map ResourceNode → Option ℕ
find_resource resource [] = none
find_resource resource ((n, d) ∷ m) =
    if d.resource == resource then some n else find_resource resource m

-- The first node of the resource; `none` is `llvm_unreachable`.
unfoldable pub get_node_id_for_resource : RoutingGraph → ℕ → Option ℕ
get_node_id_for_resource g resource = find_resource resource g.nodes

-- `getEdgeInfoForResources`: the outer `none` is `llvm_unreachable`.
unfoldable pub get_edge_info_for_resources : RoutingGraph → ℕ → ℕ → Option (Option EdgeInfo)
get_edge_info_for_resources g source dest = do
  source_node ← get_node_id_for_resource g source
  dest_node ← get_node_id_for_resource g dest
  some (get_edge_info g source_node dest_node)

abbrev pub get_all_node_ids : RoutingGraph → List ℕ
get_all_node_ids g = keys g.nodes

-- `getNode(ResourceType)`, behind the capacity queries.
unfoldable pub get_node_for_resource : RoutingGraph → ℕ → Option (Option ResourceNode)
get_node_for_resource g resource = do n ← get_node_id_for_resource g resource; some (get_node g n)

abbrev pub capacity_in : Option ResourceNode → Option ℕ
capacity_in none = none
capacity_in (some d) = d.total_capacity_in_bytes

abbrev pub reserved_in : Option ResourceNode → Option ℕ
reserved_in none = none
reserved_in (some d) = d.total_reserved_in_bytes

unfoldable pub get_resource_capacity : RoutingGraph → ℕ → Option (Option ℕ)
get_resource_capacity g resource = do d ← get_node_for_resource g resource; some (capacity_in d)

unfoldable pub get_resource_reserved : RoutingGraph → ℕ → Option (Option ℕ)
get_resource_reserved g resource = do d ← get_node_for_resource g resource; some (reserved_in d)

-- The difference of two `size_t`.
abbrev pub less_reserved : Option ℕ → Option ℕ → Option ℕ
less_reserved none reserved = none
less_reserved (some capacity) none = none
less_reserved (some capacity) (some reserved) =
    some ((capacity + 0x10000000000000000 - reserved) % 0x10000000000000000)

unfoldable pub get_resource_available : RoutingGraph → ℕ → Option (Option ℕ)
get_resource_available g resource = do
  capacity ← get_resource_capacity g resource
  reserved ← get_resource_reserved g resource
  some (less_reserved capacity reserved)
