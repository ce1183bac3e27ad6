-- ===== src/Arch/RoutingGraph/ShortestPath/Searching.antt =====
-- The two loops of the search: what the first one leaves, and where the second one leads.
use acgatea.Common.{
  ℕ, zero, suc, ◌+◌, ◌≤◌, ◌<◌, ◌≡◌, refl, ◌∙◌, subst, true, false, some, List, ◌∷◌, ◌==◌, ==_iff,
  ==-ne, length, All, In, arith, inl, inr, ◌⊎◌, Bool-cases, List-cases,
}
use acgatea.Common.Map.{Map, find}
use acgatea.Arch.RoutingGraph.{RoutingGraph, get_neighbors}
use acgatea.Arch.RoutingGraph.ShortestPath.{Search, found, is_visited, visit_all, search, follow}
use acgatea.Arch.RoutingGraph.ShortestPath.Route.{Route, arrived, hop}
use acgatea.Arch.RoutingGraph.ShortestPath.Layers.{unvisited, IsLayered-pop, IsLayered-ge}
use acgatea.Arch.RoutingGraph.ShortestPath.Invariant.{IsExpanded, IsSearch}
use acgatea.Arch.RoutingGraph.ShortestPath.Visiting.{expand-IsSearch}

search-found :
    (fuel : ℕ) (g : RoutingGraph) (target cur : ℕ) (rest : List ℕ) (s : Search)
    → s.worklist ≡ cur ∷ rest
    → (cur == target) ≡ true
    → search (suc fuel) g target s ≡ some (record s { worklist = rest })
unfolding search
search-found fuel g target cur rest s e hit = ground arith

search-next :
    (fuel : ℕ) (g : RoutingGraph) (target cur : ℕ) (rest : List ℕ) (s : Search)
    → s.worklist ≡ cur ∷ rest
    → (cur == target) ≡ false
    → search (suc fuel) g target s
      ≡ search fuel g target (visit_all cur (get_neighbors g cur) (record s { worklist = rest }))
unfolding search
search-next fuel g target cur rest s e miss = ground arith

follow-here :
    (fuel source : ℕ) (m : Map ℕ) (v : ℕ) (p : List ℕ)
    → (v == source) ≡ true
    → follow fuel source m v p ≡ found p
unfolding follow
follow-here zero source m v p h = ground arith
follow-here (suc fuel) source m v p h = ground arith

follow-back :
    (fuel source : ℕ) (m : Map ℕ) (v u : ℕ) (p : List ℕ)
    → (v == source) ≡ false
    → find v m ≡ some u
    → follow (suc fuel) source m v p ≡ follow fuel source m u (u ∷ p)
unfolding follow
follow-back fuel source m v u p h e = ground arith

module _ (g : RoutingGraph) (source target : ℕ) (ks : List ℕ) (bound : ℕ)
    (known : (u : ℕ) → All (λ n. In n ks) (get_neighbors g u)) where
  -- What the loop leaves: nodes above the target's depth are the only ones not expanded.
  pub record IsSearched (s : Search) : Type 0 where
    pub dep : ℕ → ℕ
    pub b : ℕ
    pub queue : List ℕ
    pub inv : IsSearch g source bound ks dep b queue s
    pub expanded :
        (v : ℕ)
        → is_visited s v ≡ true
        → ((is_visited s target ≡ true) × (dep target ≤ dep v))
          ⊎ IsExpanded g source bound ks dep s v

  -- The node at the front is taken off the queue, and its depth is the base.
  rebase :
      (dep : ℕ → ℕ) (b cur : ℕ) (rest : List ℕ) (s : Search)
      → IsSearch g source bound ks dep b (cur ∷ rest) s
      → IsSearch g source bound ks dep (dep cur) (cur ∷ rest) (record s { worklist = rest })
  rebase dep b cur rest s k =
      let (ge, layered) = IsLayered-pop dep b cur rest k.layered in
      record {
        at_source = k.at_source;
        back = λ v at. elim (k.back v at) [
          | inl e ↦ inl e
          | inr f ↦
              inr
                (f.0, record { at = f.1.at; seen = f.1.seen; edge = f.1.edge; deeper = f.1.deeper })
        ];
        closed = k.closed;
        shallow = λ v at. omega (arith, k.shallow v at, ge);
        layered = inl (refl, layered);
        queued = k.queued;
        room = k.room;
      }

  shorter :
      (wl rest : List ℕ) (cur u m f : ℕ)
      → wl ≡ cur ∷ rest
      → m ≤ length rest + u
      → length wl + u < suc f
      → m < f
  shorter wl rest cur u m f e le lt =
      let l : length wl ≡ suc (length rest) = rw e refl in omega (arith, l, le, lt)

  pub search-IsSearched :
      (fuel : ℕ) (dep : ℕ → ℕ) (b : ℕ) (s : Search)
      → length s.worklist + unvisited s ks < fuel
      → IsSearch g source bound ks dep b s.worklist s
      → (s' : Search) × (search fuel g target s ≡ some s') × IsSearched s'
  unfolding search
  search-IsSearched zero dep b s lt k = absurd (omega (arith, lt))
  search-IsSearched (suc fuel) dep b s lt k = elim (List-cases s.worklist) [
    | inl e ↦ (
      s,
      rw e refl,
      record {
        dep = dep;
        b = b;
        queue = s.worklist;
        inv = k;
        expanded =
            λ v at. elim (k.closed v at) [ inl m ↦ absurd (subst (In v) e m) | inr x ↦ inr x ];
      },
    )
    | inr (cur, rest, e) ↦
        let k' = subst (λ q. IsSearch g source bound ks dep b q s) e k in
        elim (Bool-cases (cur == target)) [
          | inl hit ↦ (
            record s { worklist = rest },
            search-found fuel g target cur rest s e hit,
            record {
              dep = dep;
              b = dep cur;
              queue = cur ∷ rest;
              inv = rebase dep b cur rest s k';
              expanded = λ v at. elim (k'.closed v at) [
                | inl m ↦
                    let le =
                      IsLayered-ge dep (dep cur) (cur ∷ rest) (rebase dep b cur rest s k').layered v
                        m in
                    let e' = (==_iff cur target).0 hit in
                    inl (
                      subst (λ t. is_visited s t ≡ true) e' (k'.queued cur (inl refl)),
                      subst (λ t. dep t ≤ dep v) e' le,
                    )
                | inr x ↦ inr x
              ];
            },
          )
          | inr miss ↦
              let s₁ : Search = record s { worklist = rest } in
              let (d, c, inv, le) =
                expand-IsSearch g source bound ks dep cur s₁ (known cur)
                  (rebase dep b cur rest s k') in
              let (s', eq, done) =
                search-IsSearched fuel d c (visit_all cur (get_neighbors g cur) s₁)
                  (shorter s.worklist rest cur (unvisited s ks) _ fuel e le lt) inv in
              (s', search-next fuel g target cur rest s e miss ∙ eq, done)
        ]
  ]

  at_source :
      (fuel : ℕ) (dep : ℕ → ℕ) (b : ℕ) (queue : List ℕ) (s : Search) (v t : ℕ) (p : List ℕ)
      → IsSearch g source bound ks dep b queue s
      → (v == source) ≡ true
      → Route g v t p
      → (q : List ℕ) × (follow fuel source s.predecessor v p ≡ found q)
        × Route g source t q
        × (length q ≡ dep v + length p)
  at_source fuel dep b queue s v t p k hit r =
      let e = (==_iff v source).0 hit in
      (
        p,
        follow-here fuel source s.predecessor v p hit,
        subst (λ x. Route g x t p) e r,
        ground (arith, k.at_source.1, e),
      )

  -- Back from a visited node, the predecessors lead to the source in `dep` hops.
  pub follow_correct :
      (fuel : ℕ) (dep : ℕ → ℕ) (b : ℕ) (queue : List ℕ) (s : Search) (v t : ℕ) (p : List ℕ)
      → IsSearch g source bound ks dep b queue s
      → is_visited s v ≡ true
      → dep v ≤ fuel
      → Route g v t p
      → (q : List ℕ) × (follow fuel source s.predecessor v p ≡ found q)
        × Route g source t q
        × (length q ≡ dep v + length p)
  follow_correct zero dep b queue s v t p k at le r = elim (Bool-cases (v == source)) [
    | inl hit ↦ at_source zero dep b queue s v t p k hit r
    | inr miss ↦ elim (k.back v at) [
      | inl e ↦ absurd (==-ne v source miss e)
      | inr (u, f) ↦ absurd (omega (arith, f.deeper, le))
    ]
  ]
  follow_correct (suc fuel) dep b queue s v t p k at le r = elim (Bool-cases (v == source)) [
    | inl hit ↦ at_source (suc fuel) dep b queue s v t p k hit r
    | inr miss ↦ elim (k.back v at) [
      | inl e ↦ absurd (==-ne v source miss e)
      | inr (u, f) ↦
          let (q, eq, route, len) =
            follow_correct fuel dep b queue s u t (u ∷ p) k f.seen (omega (arith, f.deeper, le))
              (hop u v t p f.edge r) in
          (
            q,
            follow-back fuel source s.predecessor v u p miss f.at ∙ eq,
            route,
            omega (arith, f.deeper, len),
          )
    ]
  ]

  -- No route to the target is shorter than its depth.
  pub no_shorter :
      (s : Search) (z : IsSearched s) (u : ℕ) (q : List ℕ)
      → Route g u target q
      → is_visited s u ≡ true
      → (is_visited s target ≡ true) × (suc (z.dep target) ≤ z.dep u + length q)
  no_shorter s z u _ (arrived _ _) at = (at, omega arith)
  no_shorter s z u _ (hop _ w _ p e r) at = elim (z.expanded u at) [
    | inl (seen, le) ↦ (seen, omega (arith, le))
    | inr x ↦
        let (seen_w, le_w) = x w e in
        let (seen, le) = no_shorter s z w p r seen_w in (seen, omega (arith, le, le_w))
  ]
