-- ===== src/Expansion/FullPath/Known.antt =====
-- The nodes of a full path are in the graph.
use acgatea.Common.{ℕ, ◌≡◌, true, some, List, [], ◌∷◌, ◌++◌, All, All-append, In, arith, subst}
use acgatea.Common.Map.{Map, find, contains}
use acgatea.Arch.RoutingGraph.{
  RoutingGraph, ResourceNode, EdgeInfo, has_node, edges_of, targets, find_resource,
  get_node_id_for_resource,
}
use acgatea.Arch.RoutingGraph.WellFormed.{IsWellFormed, IsEdgeOf}
use acgatea.Arch.RoutingGraph.ShortestPath.Route.{Route, arrived, hop}
use acgatea.Arch.RoutingGraph.ShortestPath.Correct.{shortest}
use acgatea.Expansion.FullPath.Legs.{Legs, leg, arrived_at}

abbrev pub IsNode : RoutingGraph → ℕ → Type 0
IsNode g n = has_node g n ≡ true

source-IsNode :
    (g : RoutingGraph) (u w : ℕ) (es : List EdgeInfo)
    → All (IsEdgeOf g u) es
    → In w (targets es)
    → IsNode g u
source-IsNode g u w [] h m = absurd m
source-IsNode g u w (e ∷ es) h m = subst (IsNode g) h.0.from h.0.source_known

Route-IsNode :
    (g : RoutingGraph) → IsWellFormed g → (u v : ℕ) (p : List ℕ) → Route g u v p → All (IsNode g) p
Route-IsNode g k u v p (arrived _ h) = (h, tt)
Route-IsNode g k u v p (hop _ w _ q e r) =
    (source-IsNode g u w (edges_of g u) (k.edges u) e, Route-IsNode g k w v q r)

All-front : (P : ℕ → Type 0) (xs ys : List ℕ) → All P (xs ++ ys) → All P xs
All-front P [] ys h = tt
All-front P (x ∷ xs) ys h = (h.0, All-front P xs ys h.1)

find_resource-contains :
    (resource n : ℕ) (m : Map ResourceNode)
    → find_resource resource m ≡ some n
    → contains n m ≡ true
unfolding find_resource find
find_resource-contains resource n [] h = cc
find_resource-contains resource n ((k, d) ∷ m) h =
    ground (arith, h, find_resource-contains resource n m)

pub Legs-IsNode :
    (g : RoutingGraph)
    → IsWellFormed g
    → (resource : ℕ) (resources path : List ℕ) → Legs g resource resources path
    → All (IsNode g) path
unfolding get_node_id_for_resource
Legs-IsNode g k resource resources path (arrived_at _ src e) =
    (find_resource-contains resource src g.nodes e, tt)
Legs-IsNode g k resource resources path
      (leg _ next src dst rs segment rest e f (shortest _ r _) l) =
    All-append (IsNode g) segment (dst ∷ rest)
      (All-front (IsNode g) segment (dst ∷ []) (Route-IsNode g k src dst (segment ++ dst ∷ []) r))
      (Legs-IsNode g k next rs (dst ∷ rest) l)
