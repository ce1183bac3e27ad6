-- ===== src/Expansion/StageList/Expanded.antt =====
-- What the expanded list of stages and the rebuilt pipeline are.
use acgatea.Common.{
  ℕ, ◌≤◌, ◌<◌, ◌≡◌, ◌⊎◌, true, false, some, List, [], ◌∷◌, In, inl, arith, >>=-eq-some, refl, sym,
  subst, ◌∙◌, Distinct, All,
}
use acgatea.Stages.Dependencies.{entry}
use acgatea.Stages.Sorting.{Dependents}
use acgatea.Stages.Sorting.Topological.{IsTopological}
use acgatea.Arch.RoutingGraph.{RoutingGraph}
use acgatea.Expansion.Chain.{validate_linear_chain}
use acgatea.Expansion.Chain.Linear.{IsLinear, validate_linear_chain_iff}
use acgatea.Expansion.Plan.{PipelineTree, PathExpansionPlan}
use acgatea.Expansion.StageList.{
  Walk, walk_path, clear_dependents, chain_dependents, start_walk, anchor_indices,
  rebuild_dependents, build_expanded_stage_list,
}
use acgatea.Expansion.StageList.Steps.{IsWalk}
use acgatea.Expansion.StageList.Covered.{
  Covers, walk_path-IsWalked, clear_dependents-entry, chain_dependents-other,
  chain_dependents-IsLinear,
}

pub record IsExpanded (g : RoutingGraph) (tree : PipelineTree) (path sorted_stages : List ℕ)
    (w : Walk) : Type 0 where
  pub distinct : Distinct w.ordered_stages
  pub covers : Covers g w.plan false path w.ordered_stages
  pub linear : IsLinear w.tree.dependents w.ordered_stages
  pub validated : validate_linear_chain w.tree.dependents w.ordered_stages ≡ true
  pub loose :
      (s : ℕ) → In s w.tree.stages → ¬ In s w.ordered_stages → entry w.tree.dependents s ≡ []
  pub listed : (s : ℕ) → In s w.ordered_stages → In s w.tree.stages
  pub origin : (s : ℕ) → In s w.ordered_stages → In s sorted_stages ⊎ (tree.fresh ≤ s)

IsLinear-IsTopological :
    (dependents : Dependents) (order : List ℕ)
    → IsLinear dependents order
    → Distinct order
    → IsTopological (entry dependents) order
IsLinear-IsTopological dependents [] l d = tt
IsLinear-IsTopological dependents (s ∷ []) l d = (d.0, subst (All (λ t. In t [])) (sym l) tt, tt)
IsLinear-IsTopological dependents (s ∷ x ∷ order) l d = (
  d.0,
  subst (All (λ t. In t (x ∷ order))) (sym l.0) (inl refl, tt),
  IsLinear-IsTopological dependents (x ∷ order) l.1 d.1,
)

rebuilt-IsExpanded :
    (g : RoutingGraph) (tree : PipelineTree) (path sorted_stages : List ℕ) (w : Walk)
    → IsWalk tree.fresh sorted_stages w
    → Covers g w.plan false path w.ordered_stages
    → IsExpanded g tree path sorted_stages
        (record w { tree = rebuild_dependents w.ordered_stages w.tree })
rebuilt-IsExpanded g tree path sorted_stages w v c = record {
  distinct = v.distinct;
  covers = c;
  linear = linear;
  validated =
      (validate_linear_chain_iff rebuilt w.ordered_stages
          (IsLinear-IsTopological rebuilt w.ordered_stages linear v.distinct)).1
        linear;
  loose = λ s m n.
      chain_dependents-other w.ordered_stages cleared s n
      ∙ clear_dependents-entry w.tree.stages w.tree.dependents s (inl m);
  listed = v.listed;
  origin = v.origin;
}
  where
    cleared : Dependents
    cleared = clear_dependents w.tree.stages w.tree.dependents

    rebuilt : Dependents
    rebuilt = chain_dependents w.ordered_stages cleared

    linear : IsLinear rebuilt w.ordered_stages
    linear =
        chain_dependents-IsLinear w.ordered_stages cleared v.distinct
          (λ s m. clear_dependents-entry w.tree.stages w.tree.dependents s (inl (v.listed s m)))

-- If the sorted stages belong to the pipeline and its stages have addresses that were given out, then
-- the expanded list that comes out holds no stage twice. Its stages stand for the nodes of the path
-- in order: a stage stands for a memory and a load/store unit that are next to one another, or for
-- one of these alone if no such other node is behind it, or for a compute unit. In the plan, a stage
-- that stands for a memory has it as its resource, one that stands for a load/store unit alone has
-- none, and a stage that stands for a unit has that unit. The new dependencies make the list a
-- chain, which passes the validation again. Each of the stages is a sorted stage or a new one and
-- belongs to the pipeline, and a stage of the pipeline that is not on the list has no dependents left.
pub build_expanded_stage_list-IsExpanded :
    (g : RoutingGraph) (tree : PipelineTree) (path sorted_stages : List ℕ)
    (plan : PathExpansionPlan) (next_stage_id : ℕ) (w : Walk)
    → ((s : ℕ) → In s sorted_stages → In s tree.stages)
    → ((s : ℕ) → In s tree.stages → s < tree.fresh)
    → build_expanded_stage_list g tree path sorted_stages plan next_stage_id ≡ some w
    → IsExpanded g tree path sorted_stages w
unfolding build_expanded_stage_list
build_expanded_stage_list-IsExpanded g tree path sorted_stages plan next_stage_id w within below h =
    let anchors = anchor_indices g plan sorted_stages path in
    let first = start_walk tree plan anchors sorted_stages next_stage_id in
    let (w', e, k) = >>=-eq-some (walk_path g anchors sorted_stages false path first) _ h in
    let walked =
      walk_path-IsWalked g anchors tree.fresh sorted_stages false path first w'
        (record {
          below = below;
          grown = omega arith;
          listed = λ s m. absurd m;
          original = λ s m. (within s m, below s (within s m));
          known = λ s m low. m;
          origin = λ s m. absurd m;
          distinct = tt;
        })
        e in
    let same : record w' { tree = rebuild_dependents w'.ordered_stages w'.tree } ≡ w =
      ground (arith, k) in
    subst (IsExpanded g tree path sorted_stages) same (
      rebuilt-IsExpanded g tree path sorted_stages w' walked.walks
        (subst (Covers g w'.plan false path) (sym walked.appended) walked.covers))
