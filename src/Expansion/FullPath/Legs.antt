-- ===== src/Expansion/FullPath/Legs.antt =====
-- The full path is made of shortest routes between the nodes of the resources, joined at their ends.
use acgatea.Common.{
  ℕ, ◌≡◌, Option, none, some, List, [], ◌∷◌, ◌++◌, ◌==◌, refl, ◌⊎◌, inl, inr, append_assoc, subst,
  sym, ap, ◌∙◌, Option-cases, ==_refl,
}
use acgatea.Arch.RoutingGraph.{RoutingGraph, get_node_id_for_resource}
use acgatea.Arch.RoutingGraph.WellFormed.{IsWellFormed}
use acgatea.Arch.RoutingGraph.ShortestPath.{
  PathResult, found, no_path, out_of_fuel, find_shortest_path,
}
use acgatea.Arch.RoutingGraph.ShortestPath.Route.{Route, arrived, hop}
use acgatea.Arch.RoutingGraph.ShortestPath.Correct.{
  IsShortest, shortest, unreachable, find_shortest_path-IsShortest,
}
use acgatea.Expansion.FullPath.{
  shares_junction, append_segment, extend, walk_resources, build_full_shortest_path,
}

-- A path along the resources: from the node of each to the node of the next by a shortest route,
-- the common node written once.
pub data Legs (g : RoutingGraph) : ℕ → List ℕ → List ℕ → Type 0 where
  leg :
      (resource next src dst : ℕ) (resources segment : List ℕ) (rest : List ℕ)
      → get_node_id_for_resource g resource ≡ some src
      → get_node_id_for_resource g next ≡ some dst
      → IsShortest g src dst (found (segment ++ dst ∷ []))
      → Legs g next resources (dst ∷ rest)
      → Legs g resource (next ∷ resources) (segment ++ dst ∷ rest)
  arrived_at :
      (resource src : ℕ)
      → get_node_id_for_resource g resource ≡ some src
      → Legs g resource [] (src ∷ [])

-- Two neighbours among the resources have no route between their nodes.
abbrev pub HasGap : RoutingGraph → ℕ → List ℕ → Type 0
HasGap g resource [] = ⊥
HasGap g resource (next ∷ resources) =
    ((src : ℕ) × (dst : ℕ) × (get_node_id_for_resource g resource ≡ some src)
      × (get_node_id_for_resource g next ≡ some dst)
      × ((p : List ℕ) → ¬ Route g src dst p))
    ⊎ HasGap g next resources

-- A route ends in its target.
Route-last :
    (g : RoutingGraph) (u v : ℕ) (p : List ℕ)
    → Route g u v p
    → (before : List ℕ) × (p ≡ before ++ v ∷ [])
Route-last g u v p (arrived _ h) = ([], refl)
Route-last g u v p (hop _ w _ q e r) =
    let (before, same) = Route-last g w v q r in (u ∷ before, ap (λ l. u ∷ l) same)

Route-first :
    (g : RoutingGraph) (u v : ℕ) (p : List ℕ) → Route g u v p → (after : List ℕ) × (p ≡ u ∷ after)
Route-first g u v p (arrived _ h) = ([], refl)
Route-first g u v p (hop _ w _ q e r) = (q, refl)

shares_junction-back :
    (before : List ℕ) (v s : ℕ) (segment : List ℕ)
    → shares_junction (before ++ v ∷ []) (s ∷ segment) ≡ (v == s)
unfolding shares_junction
shares_junction-back [] v s segment = refl
shares_junction-back (x ∷ []) v s segment = refl
shares_junction-back (x ∷ y ∷ before) v s segment = shares_junction-back (y ∷ before) v s segment

append_segment-junction :
    (before : List ℕ) (v : ℕ) (segment : List ℕ)
    → append_segment (before ++ v ∷ []) (v ∷ segment) ≡ before ++ v ∷ segment
unfolding append_segment
append_segment-junction before v segment =
    rw (shares_junction-back before v v segment ∙ ==_refl v) (append_assoc before (v ∷ []) segment)

-- A resource among those that are looked up is not in the graph.
abbrev pub HasUnknown : RoutingGraph → ℕ → List ℕ → Type 0
HasUnknown g resource [] = ⊥
HasUnknown g resource (next ∷ resources) =
    (get_node_id_for_resource g resource ≡ none)
    ⊎ (get_node_id_for_resource g next ≡ none)
    ⊎ HasUnknown g next resources

-- What the walk has to answer, behind the path `before`.
pub data IsFullPath (g : RoutingGraph) (before : List ℕ) (resource : ℕ) (resources : List ℕ)
    : Option (Option (List ℕ)) → Type 0 where
  built :
      (path legs : List ℕ)
      → path ≡ before ++ legs
      → Legs g resource resources legs
      → IsFullPath g before resource resources (some (some path))
  gap : HasGap g resource resources → IsFullPath g before resource resources (some none)
  unknown : HasUnknown g resource resources → IsFullPath g before resource resources none

starts :
    (before : List ℕ) (src dst : ℕ) (after rest : List ℕ)
    → src ∷ after ≡ before ++ dst ∷ []
    → (q : List ℕ) × (before ++ dst ∷ rest ≡ src ∷ q)
starts [] src dst after rest e = (rest, cc)
starts (b ∷ before) src dst after rest e = (before ++ dst ∷ rest, cc)

Legs-first :
    (g : RoutingGraph) (resource src : ℕ) (resources legs : List ℕ)
    → get_node_id_for_resource g resource ≡ some src
    → Legs g resource resources legs
    → (q : List ℕ) × (legs ≡ src ∷ q)
Legs-first g resource src resources legs e (arrived_at _ s f) = ([], cc)
Legs-first g resource src resources legs e
      (leg _ next s dst rs segment rest f h (shortest _ r _) l) =
    let (after, same) = Route-first g s dst (segment ++ dst ∷ []) r in
    let (q, k) = starts segment s dst after rest (sym same) in (q, cc)

module _ (g : RoutingGraph) (v : IsWellFormed g) where
  module _ (resource next src dst : ℕ) (resources : List ℕ)
      (e : get_node_id_for_resource g resource ≡ some src)
      (known : get_node_id_for_resource g next ≡ some dst) where
    prepend-IsFullPath :
        (before ahead : List ℕ) (o : Option (Option (List ℕ)))
        → IsShortest g src dst (found (ahead ++ dst ∷ []))
        → IsFullPath g (before ++ ahead) next resources o
        → IsFullPath g before resource (next ∷ resources) o
    prepend-IsFullPath before ahead (some (some path)) short (built _ legs same l) =
        let (q, first) = Legs-first g next dst resources legs known l in
        built path (ahead ++ dst ∷ q)
          (same ∙ append_assoc before ahead legs ∙ ap (λ k. before ++ (ahead ++ k)) first)
          (leg resource next src dst resources ahead q e known short
            (subst (Legs g next resources) first l))
    prepend-IsFullPath before ahead (some none) short (gap h) = gap (inr h)
    prepend-IsFullPath before ahead none short (unknown h) = unknown (inr (inr h))

    -- One segment, when the rest of the walk is right behind every path.
    extend-IsFullPath :
        (full before : List ℕ)
        → ((after : List ℕ) → append_segment full (src ∷ after) ≡ before ++ src ∷ after)
        → ((full' before' : List ℕ)
            → ((after : List ℕ) → append_segment full' (dst ∷ after) ≡ before' ++ dst ∷ after)
            → (resources ≡ [] → full' ≡ before' ++ dst ∷ [])
            → IsFullPath g before' next resources (walk_resources g next resources full'))
        → (r : PathResult) → IsShortest g src dst r
        → IsFullPath g before resource
            (next ∷ resources)
            (extend (walk_resources g next resources) full r)
    extend-IsFullPath full before joins again (found p) (shortest _ route least) =
        let (after, first) = Route-first g src dst p route in
        let (ahead, last) = Route-last g src dst p route in
        let joined : append_segment full p ≡ (before ++ ahead) ++ dst ∷ [] =
          ap (append_segment full) first
          ∙ joins after
          ∙ ap (λ l. before ++ l) (sym first ∙ last)
          ∙ sym (append_assoc before ahead (dst ∷ [])) in
        prepend-IsFullPath before ahead _
          (subst (λ l. IsShortest g src dst (found l)) last (shortest p route least))
          (again (append_segment full p) (before ++ ahead)
            (λ k.
              ap (λ l. append_segment l (dst ∷ k)) joined
              ∙ append_segment-junction (before ++ ahead) dst k)
            (λ _. joined))
    extend-IsFullPath full before joins again no_path (unreachable none_there) =
        gap (inl (src, dst, e, known, none_there))
    extend-IsFullPath full before joins again out_of_fuel h = elim h [ ]

  walk_resources-IsFullPath :
      (resources : List ℕ) (resource src : ℕ)
      → get_node_id_for_resource g resource ≡ some src
      → (full before : List ℕ)
      → ((after : List ℕ) → append_segment full (src ∷ after) ≡ before ++ src ∷ after)
      → (resources ≡ [] → full ≡ before ++ src ∷ [])
      → IsFullPath g before resource resources (walk_resources g resource resources full)
  unfolding walk_resources
  walk_resources-IsFullPath [] resource src e full before joins end =
      built full (src ∷ []) (end refl) (arrived_at resource src e)
  walk_resources-IsFullPath (next ∷ resources) resource src e full before joins end =
      elim (Option-cases (get_node_id_for_resource g next)) [
        | inl missing ↦ rw e (rw missing (unknown (inr (inl missing))))
        | inr (dst, known) ↦ rw e (
            rw known (
              extend-IsFullPath resource next src dst resources e known full before joins
                (walk_resources-IsFullPath resources next dst known) (find_shortest_path g src dst)
                (find_shortest_path-IsShortest g src dst v)))
      ]

-- For a graph whose edges join its nodes and two resources or more, building the full path returns
-- one of three answers. A path consists of a shortest route from the node of each resource to the
-- node of the next one, with the common node of two such routes written once. `std::nullopt` means
-- that two consecutive resources have no route between them, and an abort that one of the resources
-- is not in the graph.
pub build_full_shortest_path-IsFullPath :
    (g : RoutingGraph)
    → IsWellFormed g
    → (resource next : ℕ) (resources : List ℕ)
    → IsFullPath g [] resource
        (next ∷ resources)
        (build_full_shortest_path g (resource ∷ next ∷ resources))
unfolding build_full_shortest_path walk_resources append_segment shares_junction
build_full_shortest_path-IsFullPath g v resource next resources =
    elim (Option-cases (get_node_id_for_resource g resource)) [
      | inl missing ↦ rw missing (unknown (inl missing))
      | inr (src, e) ↦
          walk_resources-IsFullPath g v (next ∷ resources) resource src e [] [] (λ after. refl)
            (λ h. cc)
    ]
