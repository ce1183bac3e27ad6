-- ===== src/Arch/RoutingGraph/ShortestPath/Visiting.antt =====
-- Visiting all neighbours of the node in hand expands it.
use acgatea.Common.{
  ℕ, suc, ◌+◌, ◌≤◌, ◌≡◌, refl, ◌∙◌, true, List, [], ◌∷◌, length, All, All-In, In-All, In, arith,
  inl, inr, Bool-cases,
}
use acgatea.Arch.RoutingGraph.{RoutingGraph, get_neighbors}
use acgatea.Arch.RoutingGraph.ShortestPath.{Search, is_visited, visit, visit_all}
use acgatea.Arch.RoutingGraph.ShortestPath.Route.{Edge}
use acgatea.Arch.RoutingGraph.ShortestPath.Layers.{unvisited, IsLayered-pop, is_visited-mark}
use acgatea.Arch.RoutingGraph.ShortestPath.Invariant.{
  IsSearch, IsGrown, dep', mark-IsGrown, mark-IsSearch,
}

module _ (g : RoutingGraph) (source bound : ℕ) (ks : List ℕ) where
  -- The search after some neighbours of `cur`, all of which are visited and not deep.
  pub record IsVisited (dep : ℕ → ℕ) (cur : ℕ) (ns : List ℕ) (s s' : Search) : Type 0 where
    pub depth : ℕ → ℕ
    pub search : IsSearch g source bound ks depth (depth cur) (cur ∷ s'.worklist) s'
    pub grown : IsGrown g source bound ks dep depth s s'
    pub reached : (n : ℕ) → In n ns → (is_visited s' n ≡ true) × (depth n ≤ suc (depth cur))

  visit-IsVisited :
      (dep : ℕ → ℕ) (cur n : ℕ) (s : Search)
      → Edge g cur n
      → In n ks
      → IsSearch g source bound ks dep (dep cur) (cur ∷ s.worklist) s
      → IsVisited dep cur (n ∷ []) s (visit cur n s)
  visit-IsVisited dep cur n s edge known k = elim (Bool-cases (is_visited s n)) [
    | inl old ↦ rw old (record {
      depth = dep;
      search = k;
      grown = record { kept = λ v at. (at, refl); measure = omega arith };
      reached = λ m at. elim at [ inl e ↦ rw e (old, k.shallow n old) | inr at ↦ absurd at ];
    })
    | inr fresh ↦ rw fresh (record {
      depth = dep' g source bound ks dep cur n s fresh edge known k;
      search = mark-IsSearch g source bound ks dep cur n s fresh edge known k;
      grown = mark-IsGrown g source bound ks dep cur n s fresh edge known k;
      reached = λ m at. elim at [
        | inl e ↦ rw e (ground (arith, is_visited-mark cur n s n))
        | inr at ↦ absurd at
      ];
    })
  ]

  pub visit_all-IsVisited :
      (dep : ℕ → ℕ) (cur : ℕ) (ns : List ℕ) (s : Search)
      → All (λ n. Edge g cur n × In n ks) ns
      → IsSearch g source bound ks dep (dep cur) (cur ∷ s.worklist) s
      → IsVisited dep cur ns s (visit_all cur ns s)
  unfolding visit_all
  visit_all-IsVisited dep cur [] s h k = record {
    depth = dep;
    search = k;
    grown = record { kept = λ v at. (at, refl); measure = omega arith };
    reached = λ n at. absurd at;
  }
  visit_all-IsVisited dep cur (n ∷ ns) s h k =
      let one = visit-IsVisited dep cur n s h.0.0 h.0.1 k in
      let all = visit_all-IsVisited one.depth cur ns (visit cur n s) h.1 one.search in
      record {
        depth = all.depth;
        search = all.search;
        grown = record {
          kept = λ v at.
              let (seen, e) = one.grown.kept v at in
              let (seen', e') = all.grown.kept v seen in (seen', e' ∙ e);
          measure = omega (arith, one.grown.measure, all.grown.measure);
        };
        reached = λ m at. elim at [
          | inl e ↦
              let (seen, le) = one.reached m (inl e) in
              let (seen', e') = all.grown.kept m seen in
              let (_, same) = all.grown.kept cur (one.search.queued cur (inl refl)) in
              (seen', ground (arith, e', same, le))
          | inr later ↦ all.reached m later
        ];
      }

  -- The node in hand leaves the queue, expanded.
  pub expand-IsSearch :
      (dep : ℕ → ℕ) (cur : ℕ) (s : Search)
      → All (λ n. In n ks) (get_neighbors g cur)
      → IsSearch g source bound ks dep (dep cur) (cur ∷ s.worklist) s
      → (depth : ℕ → ℕ) × (b : ℕ) × IsSearch g source bound ks depth b
          (visit_all cur (get_neighbors g cur) s).worklist
          (visit_all cur (get_neighbors g cur) s)
        × (length (visit_all cur (get_neighbors g cur) s).worklist
              + unvisited (visit_all cur (get_neighbors g cur) s) ks
            ≤ length s.worklist + unvisited s ks)
  expand-IsSearch dep cur s known k =
      let ns = get_neighbors g cur in
      let v =
        visit_all-IsVisited dep cur ns s
          (In-All (λ n. Edge g cur n × In n ks) ns (λ n m. (m, All-In (λ n. In n ks) ns known n m)))
          k in
      let j = v.search in
      (
        v.depth,
        v.depth cur,
        record {
          at_source = j.at_source;
          back = j.back;
          closed = λ w at. elim (j.closed w at) [
            | inl (inl e) ↦ inr (rw e v.reached)
            | inl (inr m) ↦ inl m
            | inr x ↦ inr x
          ];
          shallow = j.shallow;
          layered = (IsLayered-pop v.depth (v.depth cur) cur _ j.layered).1;
          queued = λ w m. j.queued w (inr m);
          room = j.room;
        },
        v.grown.measure,
      )
