-- ===== src/Expansion/Planner/Outcome.antt =====
-- What planning answers, from the parts.
use acgatea.Common.{
  ℕ, suc, ◌⊎◌, ◌<◌, ◌≡◌, ◌↔◌, Bool, true, false, Option, none, some, List, [], ◌∷◌, In, inl, inr,
  arith, length, ltb, Distinct, >>=-eq-some, Bool-cases, All, is_some, is_some-witness,
  if◌then◌else◌, ==_refl, refl, sym, subst, ◌∙◌, ap,
}
use acgatea.Stages.Dependencies.{entry}
use acgatea.Arch.RoutingGraph.{RoutingGraph, load_store_unit, get_node}
use acgatea.Arch.RoutingGraph.WellFormed.{IsWellFormed}
use acgatea.Expansion.Chain.Linear.{IsChain}
use acgatea.Expansion.Chain.Sorted.{sort_and_validate-IsChain}
use acgatea.Expansion.FullPath.{build_full_shortest_path}
use acgatea.Expansion.FullPath.Legs.{
  Legs, HasGap, HasUnknown, IsFullPath, built, gap, unknown, build_full_shortest_path-IsFullPath,
}
use acgatea.Expansion.FullPath.Known.{IsNode, Legs-IsNode}
use acgatea.Expansion.Plan.{PipelineTree, PathExpansionPlan, empty_plan}
use acgatea.Expansion.Resources.{
  Assigned, assigned, aborted, out_of_fuel, assign_original_stage_resources, has_anchor_stage,
  collect_original_stage_resource_path,
}
use acgatea.Expansion.Resources.Assigning.{
  IsAssignment, assign_original_stage_resources-IsAssignment,
}
use acgatea.Expansion.StageList.{Walk, is_kind, build_expanded_stage_list}
use acgatea.Expansion.StageList.Expanded.{IsExpanded, build_expanded_stage_list-IsExpanded}
use acgatea.Expansion.StageList.Flag.{build_expanded_stage_list-changed}
use acgatea.Expansion.Classify.{classify_original_stages}
use acgatea.Expansion.Populate.{populate_intermediate_stage_transfers}
use acgatea.Expansion.Planner.Kept.{IsKept, IsKept-trans}
use acgatea.Expansion.Planner.Kept.Classifying.{classify_original_stages-IsKept}
use acgatea.Expansion.Planner.Kept.Populating.{populate-IsKept}
use acgatea.Expansion.Planner.{
  Planned, planned, no_plan, aborted_planning, planning_out_of_fuel, planned_or_abort,
  plan_if_needed, plan_on_path, plan_with_endpoints, plan_assigned, plan_sorted,
  plan_path_expansion, needs_expansion, equal_lists, resources_without_units, apply_path_expansion,
}
use acgatea.Expansion.Planner.Outcome.Legal.{needs_expansion_iff}
use acgatea.Expansion.Planner.Outcome.Answers.{
  IsResourced, IsLegal, IsRefused, no_chain, no_anchor, too_short, no_route, IsAborted,
  no_resources, unknown_resource, no_expansion, IsApplied, IsPlanned, legal_already, expanded,
  refused, failed_assertion,
}
pub mod Answers
pub mod Legal

module _ (g : RoutingGraph) (tree : PipelineTree)
    (below : (s : ℕ) → In s tree.stages → s < tree.fresh) (order : List ℕ)
    (plan : PathExpansionPlan) (resource next : ℕ) (resources : List ℕ)
    (known : IsResourced tree order plan (resource ∷ next ∷ resources)) where
  apply-IsPlanned :
      (path : List ℕ) (o : Option (PipelineTree × PathExpansionPlan))
      → Legs g resource (next ∷ resources) path
      → ¬ IsLegal g path (resource ∷ next ∷ resources)
      → apply_path_expansion g tree path order (record plan { changed = true }) (length order) ≡ o
      → IsPlanned g tree (planned_or_abort o)
  unfolding apply_path_expansion
  apply-IsPlanned path none legs illegal e =
      failed_assertion (no_expansion order plan resource next resources path known legs illegal e)
  apply-IsPlanned path (some (tree', plan')) legs illegal e =
      let start : PathExpansionPlan = record plan { changed = true } in
      let (w, f, h) =
        >>=-eq-some (build_expanded_stage_list g tree path order start (length order)) _ e in
      let (c, k, h2) =
        >>=-eq-some (classify_original_stages g w.tree w.ordered_stages w.plan) _ h in
      let (p, l, h3) =
        >>=-eq-some (populate_intermediate_stage_transfers g w.tree w.ordered_stages c) _ h2 in
      let same : w.tree ≡ tree' = ground (arith, h3) in
      let same_plan : p ≡ plan' = ground (arith, h3) in
      let kept : IsKept w.plan p =
        IsKept-trans w.plan c p
          (classify_original_stages-IsKept g w.tree w.ordered_stages w.plan c k)
          (populate-IsKept g w.tree w.ordered_stages c p l) in
      subst (λ t. IsPlanned g tree (planned t plan')) same
        (subst (λ q. IsPlanned g tree (planned w.tree q)) same_plan
          (expanded order plan c p resource next resources path w known legs illegal (record {
            expanded =
                build_expanded_stage_list-IsExpanded g tree path order start (length order) w
                  (λ s m. (known.chain.2 s).0 m) below f;
            listed = f;
            classify = k;
            populate = l;
            changed =
                kept.changed
                ∙ build_expanded_stage_list-changed g tree path order start (length order) w f;
            kept = kept;
          })))

  on_path-IsPlanned :
      IsWellFormed g
      → (o : Option (Option (List ℕ))) → IsFullPath g [] resource (next ∷ resources) o
      → IsPlanned g tree (plan_on_path g tree order (resource ∷ next ∷ resources) plan o)
  on_path-IsPlanned v (some (some path)) (built _ legs same l) =
      let l' : Legs g resource (next ∷ resources) path =
        subst (Legs g resource (next ∷ resources)) (sym same) l in
      elim (needs_expansion_iff g (resource ∷ next ∷ resources) path
        (Legs-IsNode g v resource (next ∷ resources) path l')) [
          | inl (e, legal) ↦
              rw e (legal_already order plan resource next resources path known l' legal)
          | inr (e, illegal) ↦ rw e (apply-IsPlanned path _ l' illegal refl)
        ]
  on_path-IsPlanned v (some none) (gap h) =
      refused (no_route order plan resource next resources known h)
  on_path-IsPlanned v none (unknown h) =
      failed_assertion (unknown_resource order plan resource next resources known h)

module _ (g : RoutingGraph) (v : IsWellFormed g) (tree : PipelineTree)
    (below : (s : ℕ) → In s tree.stages → s < tree.fresh) (order : List ℕ)
    (chain : IsChain tree.dependents tree.stages order)
    (anchor : has_anchor_stage tree order ≡ true) where
  endpoints-IsPlanned :
      (plan : PathExpansionPlan) (endpoints : List ℕ)
      → IsResourced tree order plan endpoints
      → IsPlanned g tree (plan_with_endpoints g tree order plan endpoints)
  endpoints-IsPlanned plan [] k = refused (too_short order plan [] k (omega arith))
  endpoints-IsPlanned plan (r ∷ []) k = refused (too_short order plan (r ∷ []) k (omega arith))
  endpoints-IsPlanned plan (r ∷ n ∷ rs) k = rw (ltb_two rs) (
      on_path-IsPlanned g tree below order plan r n rs k v (build_full_shortest_path g (r ∷ n ∷ rs))
        (build_full_shortest_path-IsFullPath g v r n rs))
    where
      ltb_two : (xs : List ℕ) → ltb (suc (suc (length xs))) 2 ≡ false
      ltb_two xs = ground arith

  assigned-IsPlanned :
      (a : Assigned)
      → assign_original_stage_resources tree order empty_plan ≡ a
      → IsPlanned g tree (plan_assigned g tree order a)
  assigned-IsPlanned (assigned plan) e =
      endpoints-IsPlanned plan (collect_original_stage_resource_path plan order)
        (record { chain = chain; anchor = anchor; given = e; ends = refl })
  assigned-IsPlanned aborted e = failed_assertion (no_resources order chain anchor e)
  assigned-IsPlanned out_of_fuel e = absurd (
      ends_first (
        subst (IsAssignment tree order) e
          (assign_original_stage_resources-IsAssignment tree order)))
    where
      ends_first : ¬ IsAssignment tree order out_of_fuel
      ends_first k = elim k [ ]

sorted-IsPlanned :
    (g : RoutingGraph) (tree : PipelineTree)
    → IsWellFormed g
    → ((s : ℕ) → In s tree.stages → s < tree.fresh)
    → (o : Option (List ℕ))
    → ((order : List ℕ) → (o ≡ some order) ↔ IsChain tree.dependents tree.stages order)
    → IsPlanned g tree (plan_sorted g tree o)
sorted-IsPlanned g tree v below none iff =
    refused (no_chain (λ order c. none_given order ((iff order).1 c)))
  where
    none_given : (order : List ℕ) → ¬ (none ≡ some order)
    none_given order e = cc
sorted-IsPlanned g tree v below (some order) iff =
    let chain = (iff order).0 refl in
    elim (Bool-cases (has_anchor_stage tree order)) [
      | inl e ↦ rw e (assigned-IsPlanned g v tree below order chain e _ refl)
      | inr e ↦ rw e (refused (no_anchor order chain e))
    ]

-- For a graph whose edges join its nodes and a pipeline whose stages have addresses that were given
-- out, none twice, and only each other as dependents, planning answers in one of these ways, and never
-- runs out of fuel. (1) The stages are a chain with an anchor, their resources have a full path of
-- shortest routes, and the path without its load/store units is exactly these resources: then the tree
-- is returned as it is, with the plan of the resources, not changed. (2) There is such a path, but
-- without its load/store units it is not these resources: then the tree is the one with the expanded
-- list of stages for this path, and the plan is the result of classifying and populating them; it is
-- changed, and each stage has the resource and the unit that it has after the list was built. (3) There
-- is no plan: the stages are no chain, no stage of the chain is an anchor, there are fewer than two
-- resources, or two consecutive resources have no route. (4) An assertion fails: while resources are
-- assigned to the chain, for a resource that is not in the graph, or in a step of the expansion along a
-- path as in (2).
pub plan_path_expansion-IsPlanned :
    (g : RoutingGraph) (tree : PipelineTree)
    → IsWellFormed g
    → ((s : ℕ) → In s tree.stages → s < tree.fresh)
    → Distinct tree.stages
    → ((s t : ℕ) → In s tree.stages → In t (entry tree.dependents s) → In t tree.stages)
    → IsPlanned g tree (plan_path_expansion g tree)
unfolding plan_path_expansion
plan_path_expansion-IsPlanned g tree v below distinct closed =
    sorted-IsPlanned g tree v below _
      (λ order. sort_and_validate-IsChain tree.dependents tree.stages order distinct closed)
