-- ===== src/Expansion/Planner.antt =====
-- lib/Transforms/PathExpansion/Planner.cpp, `needsExpansion`, `applyPathExpansion` and
-- `planPathExpansion`.
use acgatea.Common.{
  ℕ, suc, Bool, true, false, Option, none, some, List, [], ◌∷◌, ◌++◌, if◌then◌else◌, ◌==◌, ◌>>=◌,
  length, ◌&&◌, not, ltb,
}
use acgatea.Arch.RoutingGraph.{RoutingGraph, ResourceNode, load_store_unit, get_node}
use acgatea.Expansion.Chain.{sort_and_validate_linear_pipeline_stages}
use acgatea.Expansion.FullPath.{build_full_shortest_path}
use acgatea.Expansion.Plan.{PipelineTree, PathExpansionPlan, empty_plan}
use acgatea.Expansion.Resources.{
  Assigned, assigned, aborted, out_of_fuel, assign_original_stage_resources, has_anchor_stage,
  collect_original_stage_resource_path,
}
use acgatea.Expansion.StageList.{Walk, is_kind, build_expanded_stage_list}
use acgatea.Expansion.Classify.{classify_original_stages}
use acgatea.Expansion.Populate.{populate_intermediate_stage_transfers}
pub mod Outcome
pub mod Kept

abbrev pub equal_lists : List ℕ → List ℕ → Bool
equal_lists [] [] = true
equal_lists [] (y ∷ ys) = false
equal_lists (x ∷ xs) [] = false
equal_lists (x ∷ xs) (y ∷ ys) = (x == y) && equal_lists xs ys

-- `full_path_no_ls`; `none` is the assertion that each node is in the graph.
unfoldable pub resources_without_units : RoutingGraph → List ℕ → Option (List ℕ)
resources_without_units g [] = some []
resources_without_units g (n ∷ path) = do
  node ← get_node g n
  resources ← resources_without_units g path
  some (if is_kind node.kind load_store_unit then resources else node.resource ∷ resources)

unfoldable pub needs_expansion : RoutingGraph → List ℕ → List ℕ → Option Bool
needs_expansion g endpoint_path full_path = do
  resources ← resources_without_units g full_path
  some (not (equal_lists resources endpoint_path))

-- The tree and the plan, changed in place.
unfoldable pub apply_path_expansion :
    RoutingGraph
    → PipelineTree
    → List ℕ
    → List ℕ
    → PathExpansionPlan
    → ℕ
    → Option (PipelineTree × PathExpansionPlan)
apply_path_expansion g tree full_path sorted_stages plan next_stage_id = do
  w ← build_expanded_stage_list g tree full_path sorted_stages plan next_stage_id
  classified ← classify_original_stages g w.tree w.ordered_stages w.plan
  populated ← populate_intermediate_stage_transfers g w.tree w.ordered_stages classified
  some (w.tree, populated)

pub data Planned : Type 0 where
  planned : PipelineTree → PathExpansionPlan → Planned
  -- `nullptr`
  no_plan : Planned
  aborted_planning : Planned
  -- The assignment of resources has run out of fuel.
  planning_out_of_fuel : Planned

abbrev pub planned_or_abort : Option (PipelineTree × PathExpansionPlan) → Planned
planned_or_abort none = aborted_planning
planned_or_abort (some (tree, plan)) = planned tree plan

abbrev pub plan_if_needed :
    RoutingGraph → PipelineTree → List ℕ → List ℕ → PathExpansionPlan → Option Bool → Planned
plan_if_needed g tree sorted_stages full_path plan none = aborted_planning
plan_if_needed g tree sorted_stages full_path plan (some false) =
    planned tree (record plan { changed = false })
plan_if_needed g tree sorted_stages full_path plan (some true) = planned_or_abort (
    apply_path_expansion g tree full_path sorted_stages (record plan { changed = true })
      (length sorted_stages))

abbrev pub plan_on_path :
    RoutingGraph
    → PipelineTree
    → List ℕ
    → List ℕ
    → PathExpansionPlan
    → Option (Option (List ℕ))
    → Planned
plan_on_path g tree sorted_stages endpoint_path plan none = aborted_planning
plan_on_path g tree sorted_stages endpoint_path plan (some none) = no_plan
plan_on_path g tree sorted_stages endpoint_path plan (some (some full_path)) =
    plan_if_needed g tree sorted_stages full_path plan (needs_expansion g endpoint_path full_path)

abbrev pub plan_with_endpoints :
    RoutingGraph → PipelineTree → List ℕ → PathExpansionPlan → List ℕ → Planned
plan_with_endpoints g tree sorted_stages plan endpoint_path =
    if ltb (length endpoint_path) 2
    then no_plan
    else plan_on_path g tree sorted_stages endpoint_path plan
        (build_full_shortest_path g endpoint_path)

abbrev pub plan_assigned : RoutingGraph → PipelineTree → List ℕ → Assigned → Planned
plan_assigned g tree sorted_stages aborted = aborted_planning
plan_assigned g tree sorted_stages out_of_fuel = planning_out_of_fuel
plan_assigned g tree sorted_stages (assigned plan) =
    plan_with_endpoints g tree sorted_stages plan
      (collect_original_stage_resource_path plan sorted_stages)

abbrev pub plan_sorted : RoutingGraph → PipelineTree → Option (List ℕ) → Planned
plan_sorted g tree none = no_plan
plan_sorted g tree (some sorted_stages) =
    if has_anchor_stage tree sorted_stages
    then plan_assigned g tree sorted_stages
        (assign_original_stage_resources tree sorted_stages empty_plan)
    else no_plan

unfoldable pub plan_path_expansion : RoutingGraph → PipelineTree → Planned
plan_path_expansion g tree =
    plan_sorted g tree (sort_and_validate_linear_pipeline_stages tree.dependents tree.stages)
