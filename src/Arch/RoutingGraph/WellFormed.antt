-- ===== src/Arch/RoutingGraph/WellFormed.antt =====
-- Whatever the device, a routing graph that is built has edges between nodes only.
use acgatea.Common.{
  ℕ, ◌<◌, ◌≡◌, refl, subst, true, not, Option, none, some, List, [], ◌∷◌, ◌++◌, All, All-append,
  All-mono, arith, ◌==◌, ==_iff, if◌then◌else◌, guard, >>=-eq-some, Bool-cases, inl, inr,
}
use acgatea.Common.Map.{find, find-assign}
use acgatea.Arch.RoutingGraph.{
  ResourceKind, compute, EdgeInfo, RoutingGraph, new_node, add_node, with_edge, add_edge, has_node,
  edges_of,
}
use acgatea.Arch.RoutingGraph.Build.{
  Context, add_value, add_results, map_values, map_yields, note_kind, process_datapath_op,
}

-- An edge out of a node: it joins two different nodes of the graph.
pub record IsEdgeOf (g : RoutingGraph) (u : ℕ) (e : EdgeInfo) : Type 0 where
  pub from : e.source ≡ u
  pub proper : ¬ (e.source ≡ e.target)
  pub source_known : has_node g e.source ≡ true
  pub target_known : has_node g e.target ≡ true

-- Ids are below the counter, and every edge joins two different nodes.
pub record IsWellFormed (g : RoutingGraph) : Type 0 where
  pub below : (n : ℕ) → has_node g n ≡ true → n < g.next_node_id
  pub edges : (u : ℕ) → All (IsEdgeOf g u) (edges_of g u)

pub IsEdgeOf-more :
    (g g' : RoutingGraph) (u : ℕ)
    → ((n : ℕ) → has_node g n ≡ true → has_node g' n ≡ true)
    → (e : EdgeInfo) → IsEdgeOf g u e
    → IsEdgeOf g' u e
IsEdgeOf-more g g' u more e k = record {
  from = k.from;
  proper = k.proper;
  source_known = more e.source k.source_known;
  target_known = more e.target k.target_known;
}

has_node-add_node :
    (r : ℕ) (kind : ResourceKind) (g : RoutingGraph) (n : ℕ)
    → has_node (add_node r kind g) n ≡ (if g.next_node_id == n then true else has_node g n)
unfolding add_node
has_node-add_node r kind g n =
    ground (arith, find-assign g.next_node_id n (new_node g.next_node_id r kind) g.nodes)

add_node-IsWellFormed :
    (r : ℕ) (kind : ResourceKind) (g : RoutingGraph)
    → IsWellFormed g
    → IsWellFormed (add_node r kind g)
unfolding add_node
add_node-IsWellFormed r kind g v = record {
  below = λ n h. ground (arith, has_node-add_node r kind g n, v.below n);
  edges = λ u.
      All-mono (IsEdgeOf g u) (IsEdgeOf (add_node r kind g) u)
        (IsEdgeOf-more g (add_node r kind g) u
          (λ n h. ground (arith, has_node-add_node r kind g n)))
        (edges_of g u) (v.edges u);
}

module _ (s t c : ℕ) (g : RoutingGraph) (ne : ¬ (s ≡ t)) (v : IsWellFormed g)
    (in_s : has_node g s ≡ true) (in_t : has_node g t ≡ true) where
  abbrev new_edge : EdgeInfo
  new_edge = record { source = s; target = t; cost = c }

  edges_of-with_edge :
      (u : ℕ)
      → edges_of (with_edge s t c g) u
        ≡ (if s == u then edges_of g s ++ new_edge ∷ [] else edges_of g u)
  edges_of-with_edge u = ground (arith, find-assign s u (edges_of g s ++ new_edge ∷ []) g.adjacency)

  with_edge-IsWellFormed : IsWellFormed (with_edge s t c g)
  with_edge-IsWellFormed = record {
    below = v.below;
    edges = λ u. elim (Bool-cases (s == u)) [
      | inl hit ↦ rw (edges_of-with_edge u) (
          rw hit (
            subst (λ w. All (IsEdgeOf (with_edge s t c g) w) (edges_of g s ++ new_edge ∷ []))
              ((==_iff s u).0 hit) all_edges))
      | inr miss ↦ rw (edges_of-with_edge u) (
          rw miss (
            All-mono (IsEdgeOf g u) (IsEdgeOf (with_edge s t c g) u)
              (IsEdgeOf-more g (with_edge s t c g) u (λ n h. h)) (edges_of g u) (v.edges u)))
    ];
  }
    where
      all_edges : All (IsEdgeOf (with_edge s t c g) s) (edges_of g s ++ new_edge ∷ [])
      all_edges =
          All-append (IsEdgeOf (with_edge s t c g) s) (edges_of g s) (new_edge ∷ [])
            (All-mono (IsEdgeOf g s) (IsEdgeOf (with_edge s t c g) s)
              (IsEdgeOf-more g (with_edge s t c g) s (λ n h. h)) (edges_of g s) (v.edges s))
            (record { from = refl; proper = ne; source_known = in_s; target_known = in_t }, tt)

add_edge-inv :
    (s t c : ℕ) (g g' : RoutingGraph)
    → add_edge s t c g ≡ some g'
    → (has_node g s ≡ true) × (has_node g t ≡ true) × (g' ≡ with_edge s t c g)
unfolding add_edge
add_edge-inv s t c g g' h = ground arith

-- The invariant of the walk: the graph's, and each mapped value names a node.
pub record IsContext (ctx : Context) : Type 0 where
  pub graph : IsWellFormed ctx.graph
  pub values : (v n : ℕ) → find v ctx.value_to_node_id ≡ some n → has_node ctx.graph n ≡ true

pub add_value-IsContext :
    (result r : ℕ) (kind : ResourceKind) (ctx : Context)
    → IsContext ctx
    → IsContext (add_value result r kind ctx)
unfolding add_value
add_value-IsContext result r kind ctx k = record {
  graph = add_node-IsWellFormed r kind ctx.graph k.graph;
  values = λ v n h. ground (
    arith,
    find-assign result v ctx.graph.next_node_id ctx.value_to_node_id,
    k.values v n,
    has_node-add_node r kind ctx.graph n,
  );
}

pub add_results-IsContext :
    (kind : ℕ) (rs : List ℕ) (ctx : Context) → IsContext ctx → IsContext (add_results kind rs ctx)
unfolding add_results
add_results-IsContext kind [] ctx k = k
add_results-IsContext kind (r ∷ rs) ctx k =
    add_results-IsContext kind rs (add_value r kind compute ctx)
      (add_value-IsContext r kind compute ctx k)

pub map_values-IsContext :
    (ss ts : List ℕ) (ctx ctx' : Context)
    → IsContext ctx
    → map_values ss ts ctx ≡ some ctx'
    → IsContext ctx'
unfolding map_values
map_values-IsContext [] ts ctx ctx' k h = let e : ctx ≡ ctx' = cc in subst IsContext e k
map_values-IsContext (s ∷ ss) [] ctx ctx' k h = let e : ctx ≡ ctx' = cc in subst IsContext e k
map_values-IsContext (s ∷ ss) (t ∷ ts) ctx ctx' k h =
    let (n, e, rest) = >>=-eq-some (find s ctx.value_to_node_id) _ h in
    map_values-IsContext ss ts _ ctx'
      (record {
        graph = k.graph;
        values = λ v m at.
            ground (arith, find-assign t v n ctx.value_to_node_id, k.values v m, k.values s n);
      })
      rest

pub map_yields-IsContext :
    (ys : Option (List ℕ)) (rs : List ℕ) (ctx ctx' : Context)
    → IsContext ctx
    → map_yields ys rs ctx ≡ some ctx'
    → IsContext ctx'
map_yields-IsContext none rs ctx ctx' k h = let e : ctx ≡ ctx' = cc in subst IsContext e k
map_yields-IsContext (some ys) rs ctx ctx' k h = map_values-IsContext ys rs ctx ctx' k h

pub note_kind-IsContext :
    (kind : Option ℕ) (ctx : Context) → IsContext ctx → IsContext (note_kind kind ctx)
note_kind-IsContext none ctx k = k
note_kind-IsContext (some kind) ctx k = record { graph = k.graph; values = k.values }

guard-ne : (n m : ℕ) {u : Unit {0}} → guard (not (n == m)) ≡ some u → ¬ (n ≡ m)
guard-ne n m h e = ground arith

pub process_datapath_op-IsContext :
    (s t : ℕ) (ctx ctx' : Context)
    → IsContext ctx
    → process_datapath_op s t ctx ≡ some ctx'
    → IsContext ctx'
unfolding process_datapath_op
process_datapath_op-IsContext s t ctx ctx' k h =
    let (n, es, h₁) = >>=-eq-some (find s ctx.value_to_node_id) _ h in
    let (m, et, h₂) = >>=-eq-some (find t ctx.value_to_node_id) _ h₁ in
    let (_, ne, h₃) = >>=-eq-some (guard (not (n == m))) _ h₂ in
    let (g, eg, h₄) = >>=-eq-some (add_edge n m 1 ctx.graph) _ h₃ in
    let (in_n, in_m, same) = add_edge-inv n m 1 ctx.graph g eg in
    let e : record ctx { graph = g } ≡ ctx' = cc in
    subst IsContext e (record {
      graph =
          rw same
            (with_edge-IsWellFormed n m 1 ctx.graph (λ q. guard-ne n m ne q) k.graph in_n in_m);
      values = λ v x at. rw same (k.values v x at);
    })
