-- ===== src/Arch/RoutingGraph/ShortestPath/Route.antt =====
-- What a path is, whatever search finds it: a list of nodes with an edge between neighbours.
use acgatea.Common.{ℕ, ◌≡◌, true, List, [], ◌∷◌, In}
use acgatea.Arch.RoutingGraph.{RoutingGraph, has_node, get_neighbors}

abbrev pub Edge : RoutingGraph → ℕ → ℕ → Type 0
Edge g u v = In v (get_neighbors g u)

pub data Route (g : RoutingGraph) : ℕ → ℕ → List ℕ → Type 0 where
  arrived : (v : ℕ) → has_node g v ≡ true → Route g v v (v ∷ [])
  hop : (u w v : ℕ) (p : List ℕ) → Edge g u w → Route g w v p → Route g u v (u ∷ p)
