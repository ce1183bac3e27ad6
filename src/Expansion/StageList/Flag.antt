-- ===== src/Expansion/StageList/Flag.antt =====
-- `buildExpandedStageList` leaves it to its caller whether the plan changes the pipeline.
use acgatea.Common.{
  ℕ, ◌≡◌, Bool, true, false, Option, none, some, List, [], ◌∷◌, ◌>>=◌, guard, not, is_contained,
  get_elem?, OnSome, OnSome-chain, OnSome-any, OnSome-value, refl, ◌∙◌,
}
use acgatea.Arch.RoutingGraph.{
  RoutingGraph, ResourceNode, ResourceKind, memory, compute, load_store_unit, get_node,
}
use acgatea.OperationTree.Children.{insert_in_children}
use acgatea.Expansion.Plan.{PipelineTree, PathExpansionPlan}
use acgatea.Expansion.StageList.{
  Walk, insert_synthetic_stage, handle_memory_node, handle_load_store_node, handle_compute_node,
  handle_kind, right_of_kind, find_for, find_stage_from, right_node, skip_next, walk_path,
  anchor_indices, start_walk, build_expanded_stage_list,
}

abbrev HasFlag : Bool → Walk → Type 0
HasFlag b w = w.plan.changed ≡ b

abbrev HasFlagToo : Bool → Walk × Bool → Type 0
HasFlagToo b (w, skip) = w.plan.changed ≡ b

insert_synthetic_stage-HasFlag :
    (resource : Option ℕ) (unit : ℕ) (w : Walk)
    → OnSome (HasFlag w.plan.changed) (insert_synthetic_stage resource unit w)
unfolding insert_synthetic_stage
insert_synthetic_stage-HasFlag resource unit w =
    OnSome-any (HasFlag w.plan.changed)
      (insert_in_children w.tree.fresh w.last_inserted w.tree.stages) _ (λ stages. refl)

synthetic-HasFlag :
    (resource : Option ℕ) (unit : ℕ) (skip : Bool) (w : Walk)
    → OnSome (HasFlagToo w.plan.changed) (insert_synthetic_stage resource unit w >>= skip_next skip)
synthetic-HasFlag resource unit skip w =
    OnSome-chain (HasFlag w.plan.changed) (HasFlagToo w.plan.changed)
      (insert_synthetic_stage resource unit w) _ (insert_synthetic_stage-HasFlag resource unit w)
      (λ w' e. e)

handle_memory_node-HasFlag :
    (resource : ℕ) (stage unit : Option ℕ) (w : Walk)
    → OnSome (HasFlagToo w.plan.changed) (handle_memory_node resource stage unit w)
unfolding handle_memory_node
handle_memory_node-HasFlag resource (some stage) (some unit) w = refl
handle_memory_node-HasFlag resource (some stage) none w = refl
handle_memory_node-HasFlag resource none (some unit) w =
    synthetic-HasFlag (some resource) unit true w
handle_memory_node-HasFlag resource none none w = tt

handle_load_store_node-HasFlag :
    (unit : ℕ) (resource stage : Option ℕ) (w : Walk)
    → OnSome (HasFlagToo w.plan.changed) (handle_load_store_node unit resource stage w)
unfolding handle_load_store_node
handle_load_store_node-HasFlag unit (some resource) (some stage) w = refl
handle_load_store_node-HasFlag unit (some resource) none w =
    synthetic-HasFlag (some resource) unit true w
handle_load_store_node-HasFlag unit none stage w = synthetic-HasFlag none unit false w

handle_compute_node-HasFlag :
    (anchors sorted_stages : List ℕ) (resource : ℕ) (w : Walk)
    → OnSome (HasFlagToo w.plan.changed) (handle_compute_node anchors sorted_stages resource w)
unfolding handle_compute_node
handle_compute_node-HasFlag anchors sorted_stages resource w =
    let R = HasFlagToo w.plan.changed in
    OnSome-any R (get_elem? anchors w.next_anchor_cursor) _ (λ anchor_idx.
      OnSome-any R (get_elem? sorted_stages anchor_idx) _
        (λ stage. OnSome-any R (guard (not (is_contained stage w.visited))) _ (λ _. refl)))

handle_kind-HasFlag :
    (k : ResourceKind) (anchors sorted_stages : List ℕ) (resource : ℕ) (right : Option ResourceNode)
    (w : Walk)
    → OnSome (HasFlagToo w.plan.changed) (handle_kind k anchors sorted_stages resource right w)
handle_kind-HasFlag memory anchors sorted_stages resource right w =
    handle_memory_node-HasFlag resource (find_stage_from w resource 0 sorted_stages)
      (right_of_kind load_store_unit right) w
handle_kind-HasFlag load_store_unit anchors sorted_stages resource right w =
    handle_load_store_node-HasFlag resource (right_of_kind memory right)
      (find_for w sorted_stages (right_of_kind memory right)) w
handle_kind-HasFlag compute anchors sorted_stages resource right w =
    handle_compute_node-HasFlag anchors sorted_stages resource w

walk_path-HasFlag :
    (g : RoutingGraph) (anchors sorted_stages : List ℕ) (skip : Bool) (path : List ℕ) (w : Walk)
    (b : Bool)
    → w.plan.changed ≡ b
    → OnSome (HasFlag b) (walk_path g anchors sorted_stages skip path w)
unfolding walk_path
walk_path-HasFlag g anchors sorted_stages skip [] w b e = e
walk_path-HasFlag g anchors sorted_stages true (n ∷ path) w b e =
    walk_path-HasFlag g anchors sorted_stages false path w b e
walk_path-HasFlag g anchors sorted_stages false (n ∷ path) w b e =
    OnSome-any (HasFlag b) (get_node g n) _ (λ node.
      OnSome-chain (HasFlagToo w.plan.changed) (HasFlag b)
        (handle_kind node.kind anchors sorted_stages node.resource (right_node g path) w) _
        (handle_kind-HasFlag node.kind anchors sorted_stages node.resource (right_node g path) w)
        (λ r f. walk_path-HasFlag g anchors sorted_stages r.1 path r.0 b (f ∙ e)))

pub build_expanded_stage_list-changed :
    (g : RoutingGraph) (tree : PipelineTree) (path sorted_stages : List ℕ)
    (plan : PathExpansionPlan) (next_stage_id : ℕ) (w : Walk)
    → build_expanded_stage_list g tree path sorted_stages plan next_stage_id ≡ some w
    → w.plan.changed ≡ plan.changed
unfolding build_expanded_stage_list
build_expanded_stage_list-changed g tree path sorted_stages plan next_stage_id w e =
    let anchors = anchor_indices g plan sorted_stages path in
    let first = start_walk tree plan anchors sorted_stages next_stage_id in
    OnSome-value (HasFlag plan.changed) _ w
      (OnSome-chain (HasFlag plan.changed) (HasFlag plan.changed)
        (walk_path g anchors sorted_stages false path first) _
        (walk_path-HasFlag g anchors sorted_stages false path first plan.changed refl) (λ w' k. k))
      e
