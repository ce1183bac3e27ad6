-- ===== src/Expansion/StageList.antt =====
-- lib/Transforms/PathExpansion/Planner.cpp, `buildExpandedStageList`. `none` is a failed assertion or
-- an `llvm_unreachable`.
use acgatea.Common.{
  ℕ, zero, suc, ◌+◌, Bool, true, false, Option, none, some, List, [], ◌∷◌, ◌++◌, if◌then◌else◌,
  ◌==◌, ◌>>=◌, ◌>>◌, guard, is_some, length, ◌&&◌, not, ltb, leb, get_elem?, is_contained,
}
use acgatea.Common.Map.{Map, find, assign}
use acgatea.Stages.Dependencies.{entry, push_back}
use acgatea.Stages.Sorting.{Dependents}
use acgatea.Arch.RoutingGraph.{
  RoutingGraph, ResourceNode, ResourceKind, memory, compute, load_store_unit, get_node,
}
use acgatea.OperationTree.Children.{insert_in_children}
use acgatea.Expansion.Plan.{
  PipelineTree, PathExpansionPlan, StageMaterializationInfo, synthetic_transfer, info_of, set_info,
}
pub mod Steps
pub mod Pieces
pub mod Covered
pub mod Expanded
pub mod Flag

abbrev pub is_resource : Option ℕ → ℕ → Bool
is_resource none r = false
is_resource (some s) r = s == r

-- A stage without an entry has no resource to compare.
abbrev pub has_resource : Option StageMaterializationInfo → ℕ → Bool
has_resource none r = false
has_resource (some info) r = is_resource info.stage_resource r

unfoldable pub find_sorted_index : PathExpansionPlan → ℕ → ℕ → List ℕ → Option ℕ
find_sorted_index plan resource k [] = none
find_sorted_index plan resource k (s ∷ stages) =
    let rest = find_sorted_index plan resource (suc k) stages in
    if has_resource (find s plan.stage_info) resource then some k else rest

abbrev pub is_kind : ResourceKind → ResourceKind → Bool
is_kind memory memory = true
is_kind memory compute = false
is_kind memory load_store_unit = false
is_kind compute memory = false
is_kind compute compute = true
is_kind compute load_store_unit = false
is_kind load_store_unit memory = false
is_kind load_store_unit compute = false
is_kind load_store_unit load_store_unit = true

abbrev pub anchor_index : PathExpansionPlan → List ℕ → Option ResourceNode → List ℕ → List ℕ
anchor_index plan sorted_stages none rest = rest
anchor_index plan sorted_stages (some node) rest =
    if is_kind node.kind compute
    then elim (find_sorted_index plan node.resource 0 sorted_stages) [
      | none ↦ rest
      | some k ↦ k ∷ rest
    ]
    else rest

-- `anchor_sorted_indices`
unfoldable pub anchor_indices : RoutingGraph → PathExpansionPlan → List ℕ → List ℕ → List ℕ
anchor_indices g plan sorted_stages [] = []
anchor_indices g plan sorted_stages (n ∷ path) =
    anchor_index plan sorted_stages (get_node g n) (anchor_indices g plan sorted_stages path)

pub record Walk : Type 0 where
  pub tree : PipelineTree
  pub plan : PathExpansionPlan
  pub ordered_stages : List ℕ
  pub visited : List ℕ
  pub last_inserted : Option ℕ
  pub next_anchor_cursor : ℕ
  pub search_begin : ℕ
  pub search_end : ℕ
  pub next_stage_id : ℕ

abbrev pub insert_stage : ℕ → Walk → Walk
insert_stage stage w = record w {
  ordered_stages = w.ordered_stages ++ stage ∷ [];
  last_inserted = some stage;
}

abbrev pub synthetic_info : Option ℕ → ℕ → StageMaterializationInfo
synthetic_info stage_resource unit = record {
  kind = synthetic_transfer;
  stage_resource = stage_resource;
  transfers = [];
  applicable_unit = some unit;
}

-- `createSyntheticStage`, the node of which is `fresh`, followed by `insertStage`.
abbrev pub with_synthetic_stage : List ℕ → Option ℕ → ℕ → Walk → Walk
with_synthetic_stage stages stage_resource unit w = insert_stage w.tree.fresh (record w {
  tree = record w.tree {
    stage_id = assign w.tree.fresh w.next_stage_id w.tree.stage_id;
    dependents = assign w.tree.fresh [] w.tree.dependents;
    stages = stages;
    fresh = suc w.tree.fresh;
  };
  plan = set_info w.tree.fresh (synthetic_info stage_resource unit) w.plan;
  next_stage_id = suc w.next_stage_id;
})

unfoldable pub insert_synthetic_stage : Option ℕ → ℕ → Walk → Option Walk
insert_synthetic_stage stage_resource unit w = do
  stages ← insert_in_children w.tree.fresh w.last_inserted w.tree.stages
  some (with_synthetic_stage stages stage_resource unit w)

-- `visited.insert(stage)`, followed by `insertStage`.
abbrev pub insert_original_stage : ℕ → Walk → Walk
insert_original_stage stage w = insert_stage stage (record w { visited = stage ∷ w.visited })

abbrev pub with_unit : ℕ → ℕ → Walk → Walk
with_unit stage unit w = record w {
  plan = set_info stage (record (info_of w.plan stage) { applicable_unit = some unit }) w.plan;
}

-- `findStage`, with the index of the first stage of the list.
unfoldable pub find_stage_from : Walk → ℕ → ℕ → List ℕ → Option ℕ
find_stage_from w resource idx [] = none
find_stage_from w resource idx (s ∷ stages) =
    let rest = find_stage_from w resource (suc idx) stages in
    if leb w.search_begin idx
      && (ltb idx w.search_end
          && (not (is_contained s w.visited) && has_resource (find s w.plan.stage_info) resource))
    then some s
    else rest

abbrev pub right_node : RoutingGraph → List ℕ → Option ResourceNode
right_node g [] = none
right_node g (n ∷ path) = get_node g n

abbrev pub right_of_kind : ResourceKind → Option ResourceNode → Option ℕ
right_of_kind k none = none
right_of_kind k (some node) = if is_kind node.kind k then some node.resource else none

-- Of each handler, the result says also whether the next node of the path is used up with this one.
abbrev pub skip_next : Bool → Walk → Option (Walk × Bool)
skip_next skip w = some (w, skip)

-- The stage found, and the resource of a load/store unit to the right.
unfoldable pub handle_memory_node : ℕ → Option ℕ → Option ℕ → Walk → Option (Walk × Bool)
handle_memory_node resource (some stage) (some unit) w =
    skip_next true (insert_original_stage stage (with_unit stage unit w))
handle_memory_node resource (some stage) none w = skip_next false (insert_original_stage stage w)
handle_memory_node resource none (some unit) w =
    insert_synthetic_stage (some resource) unit w >>= skip_next true
handle_memory_node resource none none w = none

-- The resource of a memory to the right, and the stage found for it.
unfoldable pub handle_load_store_node : ℕ → Option ℕ → Option ℕ → Walk → Option (Walk × Bool)
handle_load_store_node unit (some resource) (some stage) w =
    skip_next true (insert_original_stage stage (with_unit stage unit w))
handle_load_store_node unit (some resource) none w =
    insert_synthetic_stage (some resource) unit w >>= skip_next true
handle_load_store_node unit none stage w = insert_synthetic_stage none unit w >>= skip_next false

abbrev pub or_size : Option ℕ → List ℕ → ℕ
or_size none stages = length stages
or_size (some k) stages = k

unfoldable pub handle_compute_node : List ℕ → List ℕ → ℕ → Walk → Option (Walk × Bool)
handle_compute_node anchors sorted_stages resource w = do
  anchor_idx ← get_elem? anchors w.next_anchor_cursor
  stage ← get_elem? sorted_stages anchor_idx
  guard (not (is_contained stage w.visited))
  skip_next false (
      insert_original_stage stage (
        with_unit stage resource (record w {
          next_anchor_cursor = suc w.next_anchor_cursor;
          search_begin = suc anchor_idx;
          search_end = or_size (get_elem? anchors (suc w.next_anchor_cursor)) sorted_stages;
        })))

abbrev pub find_for : Walk → List ℕ → Option ℕ → Option ℕ
find_for w sorted_stages none = none
find_for w sorted_stages (some resource) = find_stage_from w resource 0 sorted_stages

abbrev pub handle_kind :
    ResourceKind → List ℕ → List ℕ → ℕ → Option ResourceNode → Walk → Option (Walk × Bool)
handle_kind memory anchors sorted_stages resource right w =
    handle_memory_node resource (find_stage_from w resource 0 sorted_stages)
      (right_of_kind load_store_unit right) w
handle_kind load_store_unit anchors sorted_stages resource right w =
    handle_load_store_node resource (right_of_kind memory right)
      (find_for w sorted_stages (right_of_kind memory right)) w
handle_kind compute anchors sorted_stages resource right w =
    handle_compute_node anchors sorted_stages resource w

-- The walk over the rest of the path; the flag says that its first node is used up already.
unfoldable pub walk_path : RoutingGraph → List ℕ → List ℕ → Bool → List ℕ → Walk → Option Walk
walk_path g anchors sorted_stages skip [] w = some w
walk_path g anchors sorted_stages true (n ∷ path) w = walk_path g anchors sorted_stages false path w
walk_path g anchors sorted_stages false (n ∷ path) w = do
  node ← get_node g n
  (w', skip) ← handle_kind node.kind anchors sorted_stages node.resource (right_node g path) w
  walk_path g anchors sorted_stages skip path w'

-- `nullifyAllDependencies` and `removeNullifiedDependencies` leave no dependency.
unfoldable pub clear_dependents : List ℕ → Dependents → Dependents
clear_dependents [] dependents = dependents
clear_dependents (s ∷ stages) dependents = clear_dependents stages (assign s [] dependents)

unfoldable pub chain_dependents : List ℕ → Dependents → Dependents
chain_dependents [] dependents = dependents
chain_dependents (s ∷ []) dependents = dependents
chain_dependents (s ∷ t ∷ stages) dependents =
    chain_dependents (t ∷ stages) (push_back s t dependents)

abbrev pub rebuild_dependents : List ℕ → PipelineTree → PipelineTree
rebuild_dependents ordered_stages tree = record tree {
  dependents = chain_dependents ordered_stages (clear_dependents tree.stages tree.dependents);
}

abbrev pub start_walk : PipelineTree → PathExpansionPlan → List ℕ → List ℕ → ℕ → Walk
start_walk tree plan anchors sorted_stages next_stage_id = record {
  tree = tree;
  plan = plan;
  ordered_stages = [];
  visited = [];
  last_inserted = none;
  next_anchor_cursor = 0;
  search_begin = 0;
  search_end = or_size (get_elem? anchors 0) sorted_stages;
  next_stage_id = next_stage_id;
}

-- The walk at its end, with the dependencies rebuilt.
unfoldable pub build_expanded_stage_list :
    RoutingGraph → PipelineTree → List ℕ → List ℕ → PathExpansionPlan → ℕ → Option Walk
build_expanded_stage_list g tree path sorted_stages plan next_stage_id = do
  let anchors = anchor_indices g plan sorted_stages path
  w ←
      walk_path g anchors sorted_stages false path
        (start_walk tree plan anchors sorted_stages next_stage_id)
  some (record w { tree = rebuild_dependents w.ordered_stages w.tree })
