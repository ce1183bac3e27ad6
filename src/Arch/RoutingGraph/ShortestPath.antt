-- ===== src/Arch/RoutingGraph/ShortestPath.antt =====
-- `RoutingGraph::findShortestPath`: a breadth-first search from the source, and the way back along
-- the predecessors. The two `while` loops run on fuel, of which the number of nodes is enough.
pub mod Route
pub mod Layers
pub mod Invariant
pub mod Visiting
pub mod Searching
pub mod Correct
use acgatea.Common.{
  ℕ, zero, suc, Bool, true, false, Option, none, some, List, [], ◌∷◌, ◌++◌, if◌then◌else◌, ◌==◌,
  not, ◌||◌, length,
}
use acgatea.Common.Map.{Map, find, assign}
use acgatea.Arch.RoutingGraph.{RoutingGraph, has_node, get_neighbors}

pub record Search : Type 0 where
  pub worklist : List ℕ
  pub predecessor : Map ℕ
  pub visited : Map Bool

pub data PathResult : Type 0 where
  found : List ℕ → PathResult
  -- `std::nullopt`
  no_path : PathResult
  out_of_fuel : PathResult

abbrev pub or_false : Option Bool → Bool
or_false none = false
or_false (some b) = b

-- `visited.lookup(n)`.
abbrev pub is_visited : Search → ℕ → Bool
is_visited s n = or_false (find n s.visited)

abbrev pub mark : ℕ → ℕ → Search → Search
mark current neighbor s = record {
  worklist = s.worklist ++ neighbor ∷ [];
  predecessor = assign neighbor current s.predecessor;
  visited = assign neighbor true s.visited;
}

abbrev pub visit : ℕ → ℕ → Search → Search
visit current neighbor s = if is_visited s neighbor then s else mark current neighbor s

unfoldable pub visit_all : ℕ → List ℕ → Search → Search
visit_all current [] s = s
visit_all current (n ∷ ns) s = visit_all current ns (visit current n s)

-- The outer `none` is the end of the fuel.
unfoldable pub search : ℕ → RoutingGraph → ℕ → Search → Option Search
search zero g target s = none
search (suc fuel) g target s = elim s.worklist [
  | [] ↦ some s
  | current ∷ rest ↦ elim (current == target) [
    | true ↦ some (record s { worklist = rest })
    | false ↦
        search fuel g target
          (visit_all current (get_neighbors g current) (record s { worklist = rest }))
  ]
]

-- `path` is `reversed_path` turned round, as the source does at the end; its first node is `current`.
unfoldable pub follow : ℕ → ℕ → Map ℕ → ℕ → List ℕ → PathResult
follow zero source predecessor current path = if current == source then found path else out_of_fuel
follow (suc fuel) source predecessor current path = elim (current == source) [
  | true ↦ found path
  | false ↦ elim (find current predecessor) [
    | none ↦ no_path
    | some p ↦ follow fuel source predecessor p (p ∷ path)
  ]
]

abbrev pub start : ℕ → Search
start source = record { worklist = source ∷ []; predecessor = []; visited = assign source true [] }

abbrev pub path_of : ℕ → ℕ → ℕ → Option Search → PathResult
path_of fuel source target none = out_of_fuel
path_of fuel source target (some s) =
    if not (is_visited s target)
    then no_path
    else follow fuel source s.predecessor target (target ∷ [])

unfoldable pub find_shortest_path : RoutingGraph → ℕ → ℕ → PathResult
find_shortest_path g source target =
    if not (has_node g source) || not (has_node g target)
    then no_path
    else path_of (length g.nodes) source target
        (search (suc (length g.nodes)) g target (start source))
