-- ===== src/Expansion/StageList/Pieces.antt =====
-- Each node of the path, alone or with the next one, becomes one stage of the list.
use acgatea.Common.{
  ℕ, zero, suc, ◌≡◌, Bool, true, false, Option, none, some, List, [], ◌∷◌, guard, not, get_elem?,
  is_contained, In, inl, inr, arith, >>=-eq-some, refl, sym, subst, ◌∙◌, ap,
}
use acgatea.Common.Map.{find, find-assign_self, find-assign_ne}
use acgatea.Arch.RoutingGraph.{
  RoutingGraph, ResourceNode, ResourceKind, memory, compute, load_store_unit,
}
use acgatea.Expansion.Plan.{StageMaterializationInfo, info_of, or_new}
use acgatea.Expansion.StageList.{
  Walk, has_resource, is_resource, insert_synthetic_stage, insert_original_stage, with_unit,
  find_stage_from, right_node, right_of_kind, handle_memory_node, handle_load_store_node,
  handle_compute_node, handle_kind, find_for, or_size,
}
use acgatea.Expansion.StageList.Steps.{
  IsWalk, IsStep, insert_original_stage-IsStep, insert_synthetic_stage-IsStep,
  find_stage_from-Found,
}

-- What a stage stands for on the path: the node `node`, in front of the nodes `path`. The flag says
-- that the stage stands for the first of these, too.
pub data IsPiece (g : RoutingGraph) (node : ResourceNode) (path : List ℕ)
    (info : StageMaterializationInfo) : Bool → Type 0 where
  at_memory_and_unit :
      (unit : ℕ)
      → node.kind ≡ memory
      → right_of_kind load_store_unit (right_node g path) ≡ some unit
      → info.stage_resource ≡ some node.resource
      → info.applicable_unit ≡ some unit
      → IsPiece g node path info true
  at_memory :
      node.kind ≡ memory
      → right_of_kind load_store_unit (right_node g path) ≡ none
      → info.stage_resource ≡ some node.resource
      → IsPiece g node path info false
  at_unit_and_memory :
      (resource : ℕ)
      → node.kind ≡ load_store_unit
      → right_of_kind memory (right_node g path) ≡ some resource
      → info.stage_resource ≡ some resource
      → info.applicable_unit ≡ some node.resource
      → IsPiece g node path info true
  at_unit :
      node.kind ≡ load_store_unit
      → right_of_kind memory (right_node g path) ≡ none
      → info.stage_resource ≡ none
      → info.applicable_unit ≡ some node.resource
      → IsPiece g node path info false
  at_compute :
      node.kind ≡ compute
      → info.applicable_unit ≡ some node.resource
      → IsPiece g node path info false

has_resource-eq :
    (o : Option StageMaterializationInfo) (r : ℕ)
    → has_resource o r ≡ true
    → (or_new o).stage_resource ≡ some r
has_resource-eq none r h = cc
has_resource-eq (some info) r h = resource-eq info.stage_resource h
  where
    resource-eq : (s : Option ℕ) → is_resource s r ≡ true → s ≡ some r
    resource-eq none e = cc
    resource-eq (some x) e = ground (arith, e)

get_elem?-In : (xs : List ℕ) (i x : ℕ) → get_elem? xs i ≡ some x → In x xs
get_elem?-In [] i x h = cc
get_elem?-In (y ∷ xs) zero x h = inl (ground (arith, h))
get_elem?-In (y ∷ xs) (suc i) x h = inr (get_elem?-In xs i x h)

with_unit-info :
    (w : Walk) (s unit : ℕ)
    → ((info_of (with_unit s unit w).plan s).stage_resource ≡ (info_of w.plan s).stage_resource)
      × ((info_of (with_unit s unit w).plan s).applicable_unit ≡ some unit)
with_unit-info w s unit =
    let e : find s (with_unit s unit w).plan.stage_info
        ≡ some (record (info_of w.plan s) { applicable_unit = some unit }) =
      find-assign_self s (record (info_of w.plan s) { applicable_unit = some unit })
        w.plan.stage_info in
    (ap (λ o. (or_new o).stage_resource) e, ap (λ o. (or_new o).applicable_unit) e)

module _ (start : ℕ) (sorted_stages : List ℕ) where
  with_unit-IsStep :
      (w : Walk) (s unit : ℕ)
      → IsWalk start sorted_stages w
      → In s sorted_stages
      → is_contained s w.visited ≡ false
      → IsStep start sorted_stages w (insert_original_stage s (with_unit s unit w)) s
  with_unit-IsStep w s unit v m u =
      insert_original_stage-IsStep start sorted_stages w (with_unit s unit w) s v refl refl refl
        (λ t n. find-assign_ne s t _ w.plan.stage_info (λ q. n (sym q))) m u

  -- One node of the path, dealt with: a stage of the list stands for it.
  abbrev pub IsHandled : RoutingGraph → ResourceNode → List ℕ → Walk → Walk × Bool → Type 0
  IsHandled g node path w (w', skip) =
      (s : ℕ) × IsStep start sorted_stages w w' s × IsPiece g node path (info_of w'.plan s) skip

  module _ (g : RoutingGraph) (node : ResourceNode) (path : List ℕ) (w : Walk)
      (v : IsWalk start sorted_stages w) where
    handle_memory_node-IsHandled :
        (stage unit : Option ℕ) (r : Walk × Bool)
        → node.kind ≡ memory
        → find_stage_from w node.resource 0 sorted_stages ≡ stage
        → right_of_kind load_store_unit (right_node g path) ≡ unit
        → handle_memory_node node.resource stage unit w ≡ some r
        → IsHandled g node path w r
    unfolding handle_memory_node
    handle_memory_node-IsHandled (some s) (some unit) r k e f h =
        let (m, u, has) = find_stage_from-Found w node.resource 0 sorted_stages s e in
        let same : (insert_original_stage s (with_unit s unit w), true) ≡ r = ground (arith, h) in
        subst (IsHandled g node path w) same (
          s,
          with_unit-IsStep w s unit v m u,
          at_memory_and_unit unit k f
              ((with_unit-info w s unit).0
                ∙ has_resource-eq (find s w.plan.stage_info) node.resource has)
              (with_unit-info w s unit).1,
        )
    handle_memory_node-IsHandled (some s) none r k e f h =
        let (m, u, has) = find_stage_from-Found w node.resource 0 sorted_stages s e in
        let same : (insert_original_stage s w, false) ≡ r = ground (arith, h) in
        subst (IsHandled g node path w) same (
          s,
          insert_original_stage-IsStep start sorted_stages w w s v refl refl refl (λ t n. refl) m u,
          at_memory k f (has_resource-eq (find s w.plan.stage_info) node.resource has),
        )
    handle_memory_node-IsHandled none (some unit) r k e f h =
        let (w', i, l) = >>=-eq-some (insert_synthetic_stage (some node.resource) unit w) _ h in
        let (step, info) =
          insert_synthetic_stage-IsStep start sorted_stages w w' (some node.resource) unit v i in
        let same : (w', true) ≡ r = ground (arith, l) in
        subst (IsHandled g node path w) same (
          w.tree.fresh,
          step,
          at_memory_and_unit unit k f (ap (λ o. (or_new o).stage_resource) info)
              (ap (λ o. (or_new o).applicable_unit) info),
        )
    handle_memory_node-IsHandled none none r k e f h = cc

    handle_load_store_node-IsHandled :
        (resource stage : Option ℕ) (r : Walk × Bool)
        → node.kind ≡ load_store_unit
        → right_of_kind memory (right_node g path) ≡ resource
        → find_for w sorted_stages resource ≡ stage
        → handle_load_store_node node.resource resource stage w ≡ some r
        → IsHandled g node path w r
    unfolding handle_load_store_node
    handle_load_store_node-IsHandled (some resource) (some s) r k f e h =
        let (m, u, has) = find_stage_from-Found w resource 0 sorted_stages s e in
        let same : (insert_original_stage s (with_unit s node.resource w), true) ≡ r =
          ground (arith, h) in
        subst (IsHandled g node path w) same (
          s,
          with_unit-IsStep w s node.resource v m u,
          at_unit_and_memory resource k f
              ((with_unit-info w s node.resource).0
                ∙ has_resource-eq (find s w.plan.stage_info) resource has)
              (with_unit-info w s node.resource).1,
        )
    handle_load_store_node-IsHandled (some resource) none r k f e h =
        let (w', i, l) = >>=-eq-some (insert_synthetic_stage (some resource) node.resource w) _ h in
        let (step, info) =
          insert_synthetic_stage-IsStep start sorted_stages w w' (some resource) node.resource v
            i in
        let same : (w', true) ≡ r = ground (arith, l) in
        subst (IsHandled g node path w) same (
          w.tree.fresh,
          step,
          at_unit_and_memory resource k f (ap (λ o. (or_new o).stage_resource) info)
              (ap (λ o. (or_new o).applicable_unit) info),
        )
    handle_load_store_node-IsHandled none stage r k f e h =
        let (w', i, l) = >>=-eq-some (insert_synthetic_stage none node.resource w) _ h in
        let (step, info) =
          insert_synthetic_stage-IsStep start sorted_stages w w' none node.resource v i in
        let same : (w', false) ≡ r = ground (arith, l) in
        subst (IsHandled g node path w) same (
          w.tree.fresh,
          step,
          at_unit k f (ap (λ o. (or_new o).stage_resource) info)
              (ap (λ o. (or_new o).applicable_unit) info),
        )

    handle_compute_node-IsHandled :
        (anchors : List ℕ) (r : Walk × Bool)
        → node.kind ≡ compute
        → handle_compute_node anchors sorted_stages node.resource w ≡ some r
        → IsHandled g node path w r
    unfolding handle_compute_node
    handle_compute_node-IsHandled anchors r k h =
        let (idx, e, h2) = >>=-eq-some (get_elem? anchors w.next_anchor_cursor) _ h in
        let (s, f, h3) = >>=-eq-some (get_elem? sorted_stages idx) _ h2 in
        let (_, seen, h4) = >>=-eq-some (guard (not (is_contained s w.visited))) _ h3 in
        let moved : Walk = record w {
          next_anchor_cursor = suc w.next_anchor_cursor;
          search_begin = suc idx;
          search_end = or_size (get_elem? anchors (suc w.next_anchor_cursor)) sorted_stages;
        } in
        let same : (insert_original_stage s (with_unit s node.resource moved), false) ≡ r =
          ground (arith, h4) in
        subst (IsHandled g node path w) same (
          s,
          insert_original_stage-IsStep start sorted_stages w (with_unit s node.resource moved) s v
              refl refl refl (λ t n. find-assign_ne s t _ w.plan.stage_info (λ q. n (sym q)))
              (get_elem?-In sorted_stages idx s f) (unseen (is_contained s w.visited) seen),
          at_compute k (with_unit-info moved s node.resource).1,
        )
      where
        unseen : (b : Bool) → guard (not b) ≡ some tt → b ≡ false
        unseen true q = cc
        unseen false q = refl

    pub handle_kind-IsHandled :
        (anchors : List ℕ) (kind : ResourceKind) (r : Walk × Bool)
        → node.kind ≡ kind
        → handle_kind kind anchors sorted_stages node.resource (right_node g path) w ≡ some r
        → IsHandled g node path w r
    handle_kind-IsHandled anchors memory r k h = handle_memory_node-IsHandled _ _ r k refl refl h
    handle_kind-IsHandled anchors load_store_unit r k h =
        handle_load_store_node-IsHandled _ _ r k refl refl h
    handle_kind-IsHandled anchors compute r k h = handle_compute_node-IsHandled anchors r k h
