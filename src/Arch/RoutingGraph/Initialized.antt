-- ===== src/Arch/RoutingGraph/Initialized.antt =====
-- A routing graph that `initialize` returns.
use acgatea.Common.{
  ℕ, ◌≡◌, ◌∙◌, refl, subst, sym, some, [], ◌∷◌, All-mono, arith, ◌>>=◌, >>=-eq-some, Bool-cases,
  Option-cases, inl, inr,
}
use acgatea.Common.Map.{Map, find, assign, contains, find-assign}
use acgatea.Arch.Device.{SizeAttr, DeviceOp, exec_unit, group, datapath, other, Body, end, op}
use acgatea.Arch.RoutingGraph.{ResourceKind, ResourceNode, RoutingGraph, edges_of}
use acgatea.Arch.RoutingGraph.Build.{
  Context, process_memory_op, process_execution_unit_op, add_results, map_values, kind_or,
  map_yields, is_processed, note_kind, process_op, process_region, apply_sizes, start_context,
  initialize,
}
use acgatea.Arch.RoutingGraph.WellFormed.{
  IsEdgeOf, IsEdgeOf-more, IsWellFormed, IsContext, add_value-IsContext, add_results-IsContext,
  map_values-IsContext, map_yields-IsContext, note_kind-IsContext, process_datapath_op-IsContext,
}

process_memory_op-IsContext :
    (result kind : ℕ) (size : SizeAttr) (ctx : Context)
    → IsContext ctx
    → IsContext (process_memory_op result kind size ctx)
unfolding process_memory_op
process_memory_op-IsContext result kind size ctx k =
    let j = add_value-IsContext result kind ResourceKind.memory ctx k in
    record { graph = j.graph; values = j.values }

mutual
  unfolding process_op process_execution_unit_op process_region

  process_op-IsContext :
      (x : ℕ) (o : DeviceOp) (ctx ctx' : Context)
      → IsContext ctx
      → process_op x o ctx ≡ some ctx'
      → IsContext ctx'
  process_op-IsContext x (DeviceOp.memory result kind size) ctx ctx' k h =
      let e : process_memory_op result kind size ctx ≡ ctx' = cc in
      subst IsContext e (process_memory_op-IsContext result kind size ctx k)
  process_op-IsContext x (exec_unit result kind is_ls) ctx ctx' k h =
      let e : process_execution_unit_op x result kind is_ls ctx ≡ ctx' = cc in
      subst IsContext e (add_value-IsContext result _ _ ctx k)
  process_op-IsContext x (group kind shared args body yields results) ctx ctx' k h =
      elim (Bool-cases (is_processed kind ctx)) [
        | inl seen ↦
            let e : add_results (kind_or x kind) results ctx ≡ ctx' = cc in
            subst IsContext e (add_results-IsContext (kind_or x kind) results ctx k)
        | inr fresh ↦
            let h' : (map_values shared args (note_kind kind ctx) >>= λ ctx₁.
            process_region x body ctx₁ >>= λ ctx₂. map_yields yields results ctx₂)
                ≡ some ctx' =
              cc in
            let (ctx₁, e₁, r₁) = >>=-eq-some (map_values shared args (note_kind kind ctx)) _ h' in
            let (ctx₂, e₂, r₂) = >>=-eq-some (process_region x body ctx₁) _ r₁ in
            map_yields-IsContext yields results ctx₂ ctx'
              (process_region-IsContext x body ctx₁ ctx₂
                (map_values-IsContext shared args (note_kind kind ctx) ctx₁
                  (note_kind-IsContext kind ctx k) e₁)
                e₂)
              r₂
      ]
  process_op-IsContext x (datapath s t) ctx ctx' k h =
      process_datapath_op-IsContext s t ctx ctx' k h
  process_op-IsContext x other ctx ctx' k h = let e : ctx ≡ ctx' = cc in subst IsContext e k

  process_region-IsContext :
      (x : ℕ) (b : Body) (ctx ctx' : Context)
      → IsContext ctx
      → process_region x b ctx ≡ some ctx'
      → IsContext ctx'
  process_region-IsContext x end ctx ctx' k h = let e : ctx ≡ ctx' = cc in subst IsContext e k
  process_region-IsContext x (op o rest) ctx ctx' k h =
      let (ctx₁, e₁, r₁) = >>=-eq-some (process_op x o ctx) _ h in
      process_region-IsContext x rest ctx₁ ctx' (process_op-IsContext x o ctx ctx₁ k e₁) r₁

has_node-apply_sizes :
    (sizes : Map ℕ) (nodes : Map ResourceNode) (n : ℕ)
    → contains n (apply_sizes sizes nodes) ≡ contains n nodes
unfolding apply_sizes
has_node-apply_sizes [] nodes n = refl
has_node-apply_sizes ((m, size) ∷ sizes) nodes n = elim (Option-cases (find m nodes)) [
  | inl e ↦ rw (e, apply_sizes) (has_node-apply_sizes sizes nodes n)
  | inr (d, e) ↦
      rw (e, apply_sizes)
        (ground (
          arith,
          has_node-apply_sizes sizes
              (assign m
                (record d { total_capacity_in_bytes = some size; total_reserved_in_bytes = some 0 })
                nodes)
              n,
          find-assign m n
              (record d { total_capacity_in_bytes = some size; total_reserved_in_bytes = some 0 })
              nodes,
        ))
]

start-IsContext : IsContext start_context
unfolding find
start-IsContext = record {
  graph = record { below = λ n h. cc; edges = λ u. tt };
  values = λ v n h. cc;
}

-- Whatever device is given, a routing graph that `initialize` returns has all its ids below the
-- counter, and each edge stands under its own source and joins two different nodes of the graph.
pub routing_initialize-IsWellFormed :
    (exec_unit_kind : ℕ) (body : Body) (g : RoutingGraph)
    → initialize exec_unit_kind body ≡ some g
    → IsWellFormed g
unfolding initialize
routing_initialize-IsWellFormed x body g h =
    let (ctx, e, r) = >>=-eq-some (process_region x body start_context) _ h in
    let k = process_region-IsContext x body start_context ctx start-IsContext e in
    let nodes' = apply_sizes ctx.node_sizes ctx.graph.nodes in
    let q : record ctx.graph { nodes = nodes' } ≡ g = cc in
    subst IsWellFormed q (record {
      below = λ n at.
          k.graph.below n (sym (has_node-apply_sizes ctx.node_sizes ctx.graph.nodes n) ∙ at);
      edges = λ u.
          All-mono (IsEdgeOf ctx.graph u) (IsEdgeOf (record ctx.graph { nodes = nodes' }) u)
            (IsEdgeOf-more ctx.graph (record ctx.graph { nodes = nodes' }) u
              (λ n at. has_node-apply_sizes ctx.node_sizes ctx.graph.nodes n ∙ at))
            (edges_of ctx.graph u) (k.graph.edges u);
    })
