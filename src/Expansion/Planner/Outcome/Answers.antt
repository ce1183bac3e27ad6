-- ===== src/Expansion/Planner/Outcome/Answers.antt =====
-- The answers that planning gives, and when it gives them.
use acgatea.Common.{ℕ, ◌<◌, ◌≡◌, true, false, none, some, List, ◌∷◌, length}
use acgatea.Arch.RoutingGraph.{RoutingGraph}
use acgatea.Expansion.Chain.Linear.{IsChain}
use acgatea.Expansion.FullPath.Legs.{Legs, HasGap, HasUnknown}
use acgatea.Expansion.Plan.{PipelineTree, PathExpansionPlan, empty_plan}
use acgatea.Expansion.Resources.{
  assigned, aborted, assign_original_stage_resources, has_anchor_stage,
  collect_original_stage_resource_path,
}
use acgatea.Expansion.StageList.{Walk, build_expanded_stage_list}
use acgatea.Expansion.StageList.Expanded.{IsExpanded}
use acgatea.Expansion.Classify.{classify_original_stages}
use acgatea.Expansion.Populate.{populate_intermediate_stage_transfers}
use acgatea.Expansion.Planner.Kept.{IsKept}
use acgatea.Expansion.Planner.{
  Planned, planned, no_plan, aborted_planning, resources_without_units, apply_path_expansion,
}

-- What is known when the stages have been given resources: they are the chain `order`, one of them is
-- an anchor, and `plan` has the resources, which are `endpoints`.
pub record IsResourced (tree : PipelineTree) (order : List ℕ) (plan : PathExpansionPlan)
    (endpoints : List ℕ) : Type 0 where
  pub chain : IsChain tree.dependents tree.stages order
  pub anchor : has_anchor_stage tree order ≡ true
  pub given : assign_original_stage_resources tree order empty_plan ≡ assigned plan
  pub ends : collect_original_stage_resource_path plan order ≡ endpoints

-- The path without its load/store units is the list of resources.
abbrev pub IsLegal : RoutingGraph → List ℕ → List ℕ → Type 0
IsLegal g path endpoints = resources_without_units g path ≡ some endpoints

-- Why there is no plan for the pipeline: its stages are no chain, or none of the chain is an anchor,
-- or there are fewer than two resources, or two consecutive ones have no route between them.
pub data IsRefused (g : RoutingGraph) (tree : PipelineTree) : Type 0 where
  no_chain : ((order : List ℕ) → ¬ IsChain tree.dependents tree.stages order) → IsRefused g tree
  no_anchor :
      (order : List ℕ)
      → IsChain tree.dependents tree.stages order
      → has_anchor_stage tree order ≡ false
      → IsRefused g tree
  too_short :
      (order : List ℕ) (plan : PathExpansionPlan) (endpoints : List ℕ)
      → IsResourced tree order plan endpoints
      → length endpoints < 2
      → IsRefused g tree
  no_route :
      (order : List ℕ) (plan : PathExpansionPlan) (resource next : ℕ) (resources : List ℕ)
      → IsResourced tree order plan (resource ∷ next ∷ resources)
      → HasGap g resource (next ∷ resources)
      → IsRefused g tree

-- Where an assertion fails: while the resources are assigned to the chain, for a resource that is not
-- in the graph, or in one of the steps of the expansion along a path that is not legal.
pub data IsAborted (g : RoutingGraph) (tree : PipelineTree) : Type 0 where
  no_resources :
      (order : List ℕ)
      → IsChain tree.dependents tree.stages order
      → has_anchor_stage tree order ≡ true
      → assign_original_stage_resources tree order empty_plan ≡ aborted
      → IsAborted g tree
  unknown_resource :
      (order : List ℕ) (plan : PathExpansionPlan) (resource next : ℕ) (resources : List ℕ)
      → IsResourced tree order plan (resource ∷ next ∷ resources)
      → HasUnknown g resource (next ∷ resources)
      → IsAborted g tree
  no_expansion :
      (order : List ℕ) (plan : PathExpansionPlan) (resource next : ℕ) (resources path : List ℕ)
      → IsResourced tree order plan (resource ∷ next ∷ resources)
      → Legs g resource (next ∷ resources) path
      → ¬ IsLegal g path (resource ∷ next ∷ resources)
      → apply_path_expansion g tree path order (record plan { changed = true }) (length order)
        ≡ none
      → IsAborted g tree

-- The plan and the tree of an expansion: from the plan `first`, marked as changed, over the expanded
-- list of stages, the classification and the population, to `plan`.
pub record IsApplied (g : RoutingGraph) (tree : PipelineTree) (path order : List ℕ)
    (first : PathExpansionPlan) (w : Walk) (classified plan : PathExpansionPlan) : Type 0 where
  pub expanded : IsExpanded g tree path order w
  pub listed :
      build_expanded_stage_list g tree path order (record first { changed = true }) (length order)
      ≡ some w
  pub classify : classify_original_stages g w.tree w.ordered_stages w.plan ≡ some classified
  pub populate :
      populate_intermediate_stage_transfers g w.tree w.ordered_stages classified ≡ some plan
  pub changed : plan.changed ≡ true
  pub kept : IsKept w.plan plan

pub data IsPlanned (g : RoutingGraph) (tree : PipelineTree) : Planned → Type 0 where
  legal_already :
      (order : List ℕ) (plan : PathExpansionPlan) (resource next : ℕ) (resources path : List ℕ)
      → IsResourced tree order plan (resource ∷ next ∷ resources)
      → Legs g resource (next ∷ resources) path
      → IsLegal g path (resource ∷ next ∷ resources)
      → IsPlanned g tree (planned tree (record plan { changed = false }))
  expanded :
      (order : List ℕ) (first classified plan : PathExpansionPlan) (resource next : ℕ)
      (resources path : List ℕ) (w : Walk)
      → IsResourced tree order first (resource ∷ next ∷ resources)
      → Legs g resource (next ∷ resources) path
      → ¬ IsLegal g path (resource ∷ next ∷ resources)
      → IsApplied g tree path order first w classified plan
      → IsPlanned g tree (planned w.tree plan)
  refused : IsRefused g tree → IsPlanned g tree no_plan
  failed_assertion : IsAborted g tree → IsPlanned g tree aborted_planning
