-- ===== src/Arch/RoutingGraph/ShortestPath/Correct.antt =====
-- The path that the search finds is a shortest one, and it finds one when there is one.
use acgatea.Common.{
  ℕ, suc, ◌≤◌, ◌<◌, ◌≡◌, refl, sym, subst, true, List, [], ◌∷◌, length, All, In, arith, inl, inr,
  Bool-cases,
}
use acgatea.Common.Map.{Map, find, assign, keys, find-In}
use acgatea.Arch.RoutingGraph.{RoutingGraph, ResourceNode, EdgeInfo, targets, edges_of, has_node}
use acgatea.Arch.RoutingGraph.WellFormed.{IsWellFormed, IsEdgeOf}
use acgatea.Arch.RoutingGraph.ShortestPath.{
  Search, PathResult, found, no_path, is_visited, search, start, path_of, find_shortest_path,
}
use acgatea.Arch.RoutingGraph.ShortestPath.Route.{Route, arrived, hop}
use acgatea.Arch.RoutingGraph.ShortestPath.Layers.{unvisited, unvisited-mark}
use acgatea.Arch.RoutingGraph.ShortestPath.Invariant.{IsSearch}
use acgatea.Arch.RoutingGraph.ShortestPath.Searching.{search-IsSearched, follow_correct, no_shorter}

-- What a search for a path has to answer.
pub data IsShortest (g : RoutingGraph) (source target : ℕ) : PathResult → Type 0 where
  shortest :
      (p : List ℕ)
      → Route g source target p
      → ((q : List ℕ) → Route g source target q → length p ≤ length q)
      → IsShortest g source target (found p)
  unreachable : ((q : List ℕ) → ¬ Route g source target q) → IsShortest g source target no_path

unvisited_le : (s : Search) (ks : List ℕ) → unvisited s ks ≤ length ks
unvisited_le s [] = omega arith
unvisited_le s (k ∷ ks) = ground (arith, unvisited_le s ks)

length-keys : (m : Map ResourceNode) → length (keys m) ≡ length m
length-keys [] = refl
length-keys ((k, d) ∷ m) = omega (arith, length-keys m)

targets-known :
    (g : RoutingGraph) (u : ℕ) (es : List EdgeInfo)
    → All (IsEdgeOf g u) es
    → All (λ n. In n (keys g.nodes)) (targets es)
targets-known g u [] h = tt
targets-known g u (e ∷ es) h = (find-In e.target g.nodes h.0.target_known, targets-known g u es h.1)

-- An edge leaves a node of the graph.
edge-known :
    (g : RoutingGraph) (u w : ℕ) (es : List EdgeInfo)
    → All (IsEdgeOf g u) es
    → In w (targets es)
    → has_node g u ≡ true
edge-known g u w [] h m = absurd m
edge-known g u w (e ∷ es) h (inl q) = subst (λ n. has_node g n ≡ true) h.0.from h.0.source_known
edge-known g u w (e ∷ es) h (inr m) = edge-known g u w es h.1 m

Route-known :
    (g : RoutingGraph) (u v : ℕ) (p : List ℕ)
    → IsWellFormed g
    → Route g u v p
    → (has_node g u ≡ true) × (has_node g v ≡ true)
Route-known g u v _ k (arrived _ e) = (e, e)
Route-known g u v _ k (hop _ w _ p e r) =
    (edge-known g u w (edges_of g u) (k.edges u) e, (Route-known g w v p k r).1)

start-only : (source v : ℕ) → is_visited (start source) v ≡ true → v ≡ source
unfolding find assign
start-only source v h = ground arith

start-visited : (source : ℕ) → is_visited (start source) source ≡ true
unfolding find assign
start-visited source = ground arith

module _ (g : RoutingGraph) (source target : ℕ) where
  abbrev ks : List ℕ
  ks = keys g.nodes

  start-room : has_node g source ≡ true → unvisited (start source) ks < length g.nodes
  unfolding find
  start-room known =
      let s₀ : Search = record { worklist = []; predecessor = []; visited = [] } in
      omega (
        arith,
        unvisited-mark 0 source s₀ ks (find-In source g.nodes known) refl,
        unvisited_le s₀ ks,
        length-keys g.nodes,
      )

  start-IsSearch :
      has_node g source ≡ true
      → IsSearch g source (length g.nodes) ks (λ v. 0) 0 (source ∷ []) (start source)
  start-IsSearch known = record {
    at_source = (start-visited source, refl);
    back = λ v at. inl (start-only source v at);
    closed = λ v at. inl (inl (start-only source v at));
    shallow = λ v at. omega arith;
    layered = inl (refl, tt);
    queued = λ v m. elim m [ inl e ↦ rw e (start-visited source) | inr n ↦ absurd n ];
    room = λ v at. omega (arith, start-room known);
  }

  answer :
      IsWellFormed g
      → has_node g source ≡ true
      → has_node g target ≡ true
      → IsShortest g source target (
          path_of
            (length g.nodes)
            source
            target
            (search (suc (length g.nodes)) g target (start source)))
  answer k at_s at_t =
      let n = length g.nodes in
      let known = λ (u : ℕ). targets-known g u (edges_of g u) (k.edges u) in
      let (s, eq, z) =
        search-IsSearched g source target ks n known (suc n) (λ v. 0) 0 (start source)
          (omega (arith, start-room at_s)) (start-IsSearch at_s) in
      subst (λ o. IsShortest g source target (path_of n source target o)) (sym eq)
        (elim (Bool-cases (is_visited s target)) [
          | inl seen ↦
              let (p, found_p, route, len) =
                follow_correct g source target ks n known n z.dep z.b z.queue s target target
                  (target ∷ []) z.inv seen (omega (arith, z.inv.room target seen))
                  (arrived target at_t) in
              rw (seen, found_p)
                (shortest p route (λ q r. omega (
                  arith,
                  len,
                  z.inv.at_source.1,
                  (no_shorter g source target ks n known s z source q r z.inv.at_source.0).1,
                )))
          | inr unseen ↦ rw unseen (
              unreachable (λ q r. ground (
                arith,
                (no_shorter g source target ks n known s z source q r z.inv.at_source.0).0,
              )))
        ])

  -- In a graph whose edges join its nodes, the search between any two ids answers with a path of the
  -- graph from one to the other that no other path undercuts, or with none when there is none
  -- (an id that is not a node has no path); its fuel is never used up.
  pub find_shortest_path-IsShortest :
      IsWellFormed g → IsShortest g source target (find_shortest_path g source target)
  unfolding find_shortest_path
  find_shortest_path-IsShortest k = elim (Bool-cases (has_node g source)) [
    | inl at_s ↦ elim (Bool-cases (has_node g target)) [
      | inl at_t ↦ rw (at_s, at_t) (answer k at_s at_t)
      | inr no_t ↦
          rw (at_s, no_t) (unreachable (λ q r. ground (arith, Route-known g source target q k r)))
    ]
    | inr no_s ↦ rw no_s (unreachable (λ q r. ground (arith, Route-known g source target q k r)))
  ]
