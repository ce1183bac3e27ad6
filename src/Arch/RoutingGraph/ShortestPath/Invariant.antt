-- ===== src/Arch/RoutingGraph/ShortestPath/Invariant.antt =====
-- The invariant of the search, and that visiting the neighbours of the node in hand keeps it.
use acgatea.Common.{
  ℕ, suc, ◌+◌, ◌≤◌, ◌≡◌, refl, sym, ◌∙◌, subst, true, false, some, List, [], ◌∷◌, ◌++◌,
  if◌then◌else◌, ◌==◌, length, length-append, In, In-append, arith, inl, inr, ◌⊎◌,
}
use acgatea.Common.Map.{find, find-assign_self, find-assign_ne}
use acgatea.Arch.RoutingGraph.{RoutingGraph}
use acgatea.Arch.RoutingGraph.ShortestPath.{Search, is_visited, mark}
use acgatea.Arch.RoutingGraph.ShortestPath.Route.{Edge}
use acgatea.Arch.RoutingGraph.ShortestPath.Layers.{
  unvisited, is_visited-mark, unvisited-mark, unvisited-mark_le, IsLayered, IsLayered-push,
  IsLayered-agree,
}

module _ (g : RoutingGraph) (source bound : ℕ) (ks : List ℕ) where
  abbrev pub IsExpanded : (ℕ → ℕ) → Search → ℕ → Type 0
  IsExpanded dep s v = (w : ℕ) → Edge g v w → (is_visited s w ≡ true) × (dep w ≤ suc (dep v))

  -- The edge by which a node was found.
  pub record IsFoundBy (dep : ℕ → ℕ) (s : Search) (v u : ℕ) : Type 0 where
    pub at : find v s.predecessor ≡ some u
    pub seen : is_visited s u ≡ true
    pub edge : Edge g u v
    pub deeper : dep v ≡ suc (dep u)

  -- `dep` gives each visited node its number of hops, `b` is the depth that is being expanded, and
  -- `queue` lists the nodes that are not expanded yet.
  pub record IsSearch (dep : ℕ → ℕ) (b : ℕ) (queue : List ℕ) (s : Search) : Type 0 where
    pub at_source : (is_visited s source ≡ true) × (dep source ≡ 0)
    pub back : (v : ℕ) → is_visited s v ≡ true → (v ≡ source) ⊎ ((u : ℕ) × IsFoundBy dep s v u)
    pub closed : (v : ℕ) → is_visited s v ≡ true → In v queue ⊎ IsExpanded dep s v
    pub shallow : (v : ℕ) → is_visited s v ≡ true → dep v ≤ suc b
    pub layered : IsLayered dep b queue
    pub queued : (v : ℕ) → In v queue → is_visited s v ≡ true
    pub room : (v : ℕ) → is_visited s v ≡ true → dep v + unvisited s ks ≤ bound

  -- What visiting keeps of the nodes that were there, and that the queue plus the rest gets no longer.
  pub record IsGrown (dep dep' : ℕ → ℕ) (s s' : Search) : Type 0 where
    pub kept : (v : ℕ) → is_visited s v ≡ true → (is_visited s' v ≡ true) × (dep' v ≡ dep v)
    pub measure : length s'.worklist + unvisited s' ks ≤ length s.worklist + unvisited s ks

  pub IsExpanded-grown :
      (dep dep' : ℕ → ℕ) (s s' : Search)
      → IsGrown dep dep' s s'
      → (v : ℕ) → is_visited s v ≡ true
      → IsExpanded dep s v
      → IsExpanded dep' s' v
  IsExpanded-grown dep dep' s s' k v at x w e =
      let (seen, le) = x w e in
      let (seen', eq) = k.kept w seen in (seen', ground (arith, eq, k.kept v at))

  abbrev pub deepen : (ℕ → ℕ) → ℕ → ℕ → ℕ → ℕ
  deepen dep n d v = if n == v then d else dep v

  module _ (dep : ℕ → ℕ) (cur n : ℕ) (s : Search) (fresh : is_visited s n ≡ false)
      (edge : Edge g cur n) (known : In n ks)
      (k : IsSearch dep (dep cur) (cur ∷ s.worklist) s) where
    abbrev pub dep' : ℕ → ℕ
    dep' = deepen dep n (suc (dep cur))

    kept-mark :
        (v : ℕ) → is_visited s v ≡ true → (is_visited (mark cur n s) v ≡ true) × (dep' v ≡ dep v)
    kept-mark v at = ground (arith, is_visited-mark cur n s v)

    pub mark-IsGrown : IsGrown dep dep' s (mark cur n s)
    mark-IsGrown = record {
      kept = kept-mark;
      measure =
          ground (arith, unvisited-mark cur n s ks known fresh, length-append s.worklist (n ∷ []));
    }

    seen_cur : is_visited s cur ≡ true
    seen_cur = k.queued cur (inl refl)

    -- A visited node is the new one or was visited before.
    marked-cases : (v : ℕ) → is_visited (mark cur n s) v ≡ true → (n ≡ v) ⊎ (is_visited s v ≡ true)
    marked-cases v at = ground (arith, is_visited-mark cur n s v)

    dep'-new : dep' n ≡ suc (dep cur)
    dep'-new = ground arith

    back-mark :
        (v : ℕ)
        → is_visited (mark cur n s) v ≡ true
        → (v ≡ source) ⊎ ((u : ℕ) × IsFoundBy dep' (mark cur n s) v u)
    back-mark v at = elim (marked-cases v at) [
      | inl new ↦ inr (
        cur,
        subst (λ x. IsFoundBy dep' (mark cur n s) x cur) new
            (record {
              at = find-assign_self n cur s.predecessor;
              seen = (kept-mark cur seen_cur).0;
              edge = edge;
              deeper = ground (arith, kept-mark cur seen_cur);
            }),
      )
      | inr old ↦ elim (k.back v old) [
        | inl e ↦ inl e
        | inr f ↦ inr (
          f.0,
          record {
            at = find-assign_ne n v cur s.predecessor (λ e. ground arith) ∙ f.1.at;
            seen = (kept-mark f.0 f.1.seen).0;
            edge = f.1.edge;
            deeper = ground (arith, kept-mark f.0 f.1.seen, kept-mark v old, f.1.deeper);
          },
        )
      ]
    ]

    closed-mark :
        (v : ℕ)
        → is_visited (mark cur n s) v ≡ true
        → In v (cur ∷ s.worklist ++ n ∷ []) ⊎ IsExpanded dep' (mark cur n s) v
    closed-mark v at = elim (marked-cases v at) [
      | inl new ↦ inl (inr ((In-append v s.worklist (n ∷ [])).1 (inr (inl (sym new)))))
      | inr old ↦ elim (k.closed v old) [
        | inl (inl e) ↦ inl (inl e)
        | inl (inr m) ↦ inl (inr ((In-append v s.worklist (n ∷ [])).1 (inl m)))
        | inr x ↦ inr (IsExpanded-grown dep dep' s (mark cur n s) mark-IsGrown v old x)
      ]
    ]

    queued-mark : (v : ℕ) → In v (cur ∷ s.worklist ++ n ∷ []) → is_visited (mark cur n s) v ≡ true
    queued-mark v (inl e) = (kept-mark v (k.queued v (inl e))).0
    queued-mark v (inr m) = elim ((In-append v s.worklist (n ∷ [])).0 m) [
      | inl there ↦ (kept-mark v (k.queued v (inr there))).0
      | inr (inl e) ↦ ground (arith, is_visited-mark cur n s v)
      | inr (inr none_left) ↦ absurd none_left
    ]

    pub mark-IsSearch : IsSearch dep' (dep' cur) (cur ∷ s.worklist ++ n ∷ []) (mark cur n s)
    mark-IsSearch = record {
      at_source =
          ((kept-mark source k.at_source.0).0, (kept-mark source k.at_source.0).1 ∙ k.at_source.1);
      back = back-mark;
      closed = closed-mark;
      shallow = λ v at. elim (marked-cases v at) [
        | inl new ↦ ground (arith, kept-mark cur seen_cur)
        | inr old ↦ ground (arith, kept-mark cur seen_cur, kept-mark v old, k.shallow v old)
      ];
      layered =
          subst (λ c. IsLayered dep' c (cur ∷ s.worklist ++ n ∷ []))
            (sym (kept-mark cur seen_cur).1)
            (IsLayered-push dep' (dep cur) (cur ∷ s.worklist) n
              (IsLayered-agree dep dep' (dep cur) (cur ∷ s.worklist)
                (λ y m. (kept-mark y (k.queued y m)).1) k.layered)
              dep'-new);
      queued = queued-mark;
      room = λ v at. elim (marked-cases v at) [
        | inl new ↦ ground (arith, k.room cur seen_cur, unvisited-mark cur n s ks known fresh)
        | inr old ↦ ground (arith, k.room v old, kept-mark v old, unvisited-mark_le cur n s ks)
      ];
    }
