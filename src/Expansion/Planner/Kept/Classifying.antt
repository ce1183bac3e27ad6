-- ===== src/Expansion/Planner/Kept/Classifying.antt =====
-- The classification of stages keeps their resources and units.
use acgatea.Common.{
  ℕ, ◌≡◌, Bool, true, false, Option, none, some, List, [], ◌∷◌, guard, ◌&&◌, ◌||◌, not,
  if◌then◌else◌, inl, inr, Bool-cases, OnSome, OnSome-chain, OnSome-any, OnSome-value, refl,
}
use acgatea.Common.Map.{find}
use acgatea.Arch.RoutingGraph.{RoutingGraph, EdgeInfo, get_edge_info}
use acgatea.Expansion.Plan.{
  DataTransferOp, FifoOp, BodyOp, transfer_op, fifo_op, StageOp, PipelineTree, PathExpansionPlan,
  adapt_transfer, adapt_fifo_kinds, info_of,
}
use acgatea.Expansion.Factories.{
  create_memory_buffer, create_fifo, create_from_template_with_buffer, create_from_fifo_op,
}
use acgatea.Expansion.Classify.Transfers.{
  buffer_shape, is_memref, node_id_of, edge_or_dummy, memref_element_type, adapt_data_transfer,
  adapt_transfers,
}
use acgatea.Expansion.Classify.Fifos.{
  FifoEntry, Slot, Classified, take_slot, is_key, next_of, use_slot, adapt_fifo_op,
  adapt_if_adjacent, adapt_fifo_ops, slot_is_valid,
}
use acgatea.Expansion.Classify.{
  adapt_with, classify_stage, has_intermediate, classify_if_original, if_intermediate, first_of,
  classify_from, classify_original_stages,
}
use acgatea.Expansion.Planner.Kept.{
  IsKept, IsKept-refl, IsKept-trans, IsCreated, add_transfer_of-IsKept, IsKept-added, if-IsKept,
  from-OnSome,
}

template-IsCreated :
    (t : DataTransferOp) (edge : EdgeInfo) (intermediate current : Option ℕ) (b : Bool) (buffer : ℕ)
    (shape : List ℕ) (p q : PathExpansionPlan)
    → IsKept p q
    → IsCreated p (create_from_template_with_buffer t edge intermediate current b buffer shape q)
unfolding create_from_template_with_buffer
template-IsCreated t edge i c true buffer shape p q k =
    IsKept-trans p q _ k (IsKept-added q _ refl refl)
template-IsCreated t edge i c false buffer shape p q k =
    IsKept-trans p q _ k (IsKept-added q _ refl refl)

adapt_data_transfer-IsKept :
    (g : RoutingGraph) (stage neighbor : ℕ) (b : Bool) (t : DataTransferOp) (p : PathExpansionPlan)
    → OnSome (IsKept p) (adapt_data_transfer g stage neighbor b t p)
unfolding adapt_data_transfer create_memory_buffer
adapt_data_transfer-IsKept g stage neighbor b t p =
    let intermediate = (info_of p neighbor).stage_resource in
    let current = (info_of p stage).stage_resource in
    OnSome-any (IsKept p)
      (buffer_shape (if is_memref t.source then t.mixed_source_sizes else t.mixed_dest_sizes)) _
      (λ shape. OnSome-any (IsKept p) (node_id_of g (if b then intermediate else current)) _ (λ src.
        OnSome-any (IsKept p) (node_id_of g (if b then current else intermediate)) _ (λ dst.
          add_transfer_of-IsKept stage adapt_transfer p _ (
            template-IsCreated t (edge_or_dummy (get_edge_info g src dst) src dst) intermediate
              current b _ shape p
              (create_memory_buffer intermediate shape (memref_element_type t.source t.destination)
                p).1
              (IsKept-added p _ refl refl)))))

adapt_transfers-IsKept :
    (g : RoutingGraph) (stage neighbor : ℕ) (b : Bool) (body : List BodyOp) (p : PathExpansionPlan)
    → OnSome (IsKept p) (adapt_transfers g stage neighbor b body p)
unfolding adapt_transfers
adapt_transfers-IsKept g stage neighbor b [] p = IsKept-refl p
adapt_transfers-IsKept g stage neighbor b (fifo_op f ∷ body) p =
    adapt_transfers-IsKept g stage neighbor b body p
adapt_transfers-IsKept g stage neighbor b (transfer_op t ∷ body) p =
    OnSome-chain (IsKept p) (IsKept p)
      (if (is_memref t.source && not (is_memref t.destination))
          || (not (is_memref t.source) && is_memref t.destination)
        then adapt_data_transfer g stage neighbor b t p
        else some p)
      _ (if-IsKept _ p _ (adapt_data_transfer-IsKept g stage neighbor b t p))
      (λ q k. from-OnSome p q _ k (adapt_transfers-IsKept g stage neighbor b body q))

next_of-IsKept :
    (f : FifoEntry) (fifos : List FifoEntry) (n : ℕ) (p : PathExpansionPlan)
    → IsKept p (next_of f fifos n p).plan
next_of-IsKept f fifos n p = IsKept-added p _ refl refl

take_slot-IsKept :
    (src dest n t : ℕ) (fifos : List FifoEntry) (p : PathExpansionPlan)
    → IsKept p (take_slot src dest n t fifos p).plan
unfolding take_slot create_fifo
take_slot-IsKept src dest n t [] p = IsKept-added p _ refl refl
take_slot-IsKept src dest n t (f ∷ fifos) p = elim (Bool-cases (is_key f src dest)) [
  | inl e ↦ rw e (next_of-IsKept f fifos n p)
  | inr e ↦ rw e (take_slot-IsKept src dest n t fifos p)
]

use_slot-IsKept :
    (stage : ℕ) (f : FifoOp) (edge : EdgeInfo) (src dest : ℕ) (s : Slot) (p : PathExpansionPlan)
    → IsKept p s.plan
    → IsKept p (use_slot stage f edge src dest s).plan
unfolding create_from_fifo_op
use_slot-IsKept stage f edge src dest s p k =
    add_transfer_of-IsKept stage adapt_fifo_kinds p _
      (IsKept-trans p s.plan _ k (IsKept-added s.plan _ refl refl))

abbrev IsKeptBy : PathExpansionPlan → Classified → Type 0
IsKeptBy p c = IsKept p c.plan

adapt_fifo_op-IsKept :
    (g : RoutingGraph) (stage adjacent : ℕ) (f : FifoOp) (c : Classified)
    → OnSome (IsKeptBy c.plan) (adapt_fifo_op g stage adjacent f c)
unfolding adapt_fifo_op
adapt_fifo_op-IsKept g stage adjacent f c =
    let R = IsKeptBy c.plan in
    let own = (info_of c.plan stage).stage_resource in
    OnSome-any R (find adjacent c.plan.stage_info) _ (λ adj.
      OnSome-any R (if f.is_read then adj.applicable_unit else own) _ (λ src.
        OnSome-any R (if f.is_read then own else adj.applicable_unit) _ (λ dest.
          OnSome-any R f.num_elements _ (λ n.
            let s = take_slot src dest n f.element_type c.fifos c.plan in
            OnSome-any R (guard (slot_is_valid f s)) _ (λ _.
              OnSome-any R (node_id_of g own) _ (λ own_id.
                OnSome-any R (node_id_of g adj.stage_resource) _ (λ adj_id.
                  use_slot-IsKept stage f _ src dest s c.plan
                    (take_slot-IsKept src dest n f.element_type c.fifos c.plan))))))))

from-IsKeptBy :
    (p q : PathExpansionPlan) (o : Option Classified)
    → IsKept p q
    → OnSome (IsKeptBy q) o
    → OnSome (IsKeptBy p) o
from-IsKeptBy p q none k h = tt
from-IsKeptBy p q (some c) k h = IsKept-trans p q c.plan k h

adapt_if_adjacent-IsKept :
    (g : RoutingGraph) (stage : ℕ) (adjacent : Option ℕ) (f : FifoOp) (c : Classified)
    → OnSome (IsKeptBy c.plan) (adapt_if_adjacent g stage adjacent f c)
adapt_if_adjacent-IsKept g stage none f c = IsKept-refl c.plan
adapt_if_adjacent-IsKept g stage (some a) f c = adapt_fifo_op-IsKept g stage a f c

adapt_fifo_ops-IsKept :
    (g : RoutingGraph) (stage : ℕ) (prev next : Option ℕ) (body : List BodyOp) (c : Classified)
    → OnSome (IsKeptBy c.plan) (adapt_fifo_ops g stage prev next body c)
unfolding adapt_fifo_ops
adapt_fifo_ops-IsKept g stage prev next [] c = IsKept-refl c.plan
adapt_fifo_ops-IsKept g stage prev next (transfer_op t ∷ body) c =
    adapt_fifo_ops-IsKept g stage prev next body c
adapt_fifo_ops-IsKept g stage prev next (fifo_op f ∷ body) c =
    OnSome-chain (IsKeptBy c.plan) (IsKeptBy c.plan)
      (adapt_if_adjacent g stage (if f.is_read then prev else next) f c) _
      (adapt_if_adjacent-IsKept g stage (if f.is_read then prev else next) f c)
      (λ d k. from-IsKeptBy c.plan d.plan _ k (adapt_fifo_ops-IsKept g stage prev next body d))

adapt_with-IsKept :
    (g : RoutingGraph) (stage : ℕ) (prev next : Option ℕ) (body : List BodyOp)
    (p : PathExpansionPlan)
    → OnSome (IsKept p) (adapt_with g stage prev next body p)
adapt_with-IsKept g stage (some prev) next body p = adapt_transfers-IsKept g stage prev true body p
adapt_with-IsKept g stage none (some next) body p = adapt_transfers-IsKept g stage next false body p
adapt_with-IsKept g stage none none body p = IsKept-refl p

classify_stage-IsKept :
    (g : RoutingGraph) (stage : ℕ) (prev next : Option ℕ) (op : StageOp) (c : Classified)
    → OnSome (IsKeptBy c.plan) (classify_stage g stage prev next op c)
unfolding classify_stage
classify_stage-IsKept g stage prev next op c = elim (Bool-cases (has_intermediate prev next)) [
  | inl e ↦ rw e (
      OnSome-chain (IsKept c.plan) (IsKeptBy c.plan) (adapt_with g stage prev next op.body c.plan) _
        (adapt_with-IsKept g stage prev next op.body c.plan)
        (λ q k.
          from-IsKeptBy c.plan q _ k
            (adapt_fifo_ops-IsKept g stage prev next op.body (record c { plan = q }))))
  | inr e ↦ rw e (IsKept-refl c.plan)
]

classify_if_original-IsKept :
    (g : RoutingGraph) (stage : ℕ) (prev next : Option ℕ) (o : Option StageOp) (c : Classified)
    → OnSome (IsKeptBy c.plan) (classify_if_original g stage prev next o c)
classify_if_original-IsKept g stage prev next none c = IsKept-refl c.plan
classify_if_original-IsKept g stage prev next (some op) c =
    classify_stage-IsKept g stage prev next op c

classify_from-IsKept :
    (g : RoutingGraph) (tree : PipelineTree) (prev : Option ℕ) (stages : List ℕ) (c : Classified)
    → OnSome (IsKeptBy c.plan) (classify_from g tree prev stages c)
unfolding classify_from
classify_from-IsKept g tree prev [] c = IsKept-refl c.plan
classify_from-IsKept g tree prev (stage ∷ stages) c =
    OnSome-chain (IsKeptBy c.plan) (IsKeptBy c.plan)
      (classify_if_original g stage (if_intermediate tree prev)
        (if_intermediate tree (first_of stages)) (find stage tree.operation) c)
      _
      (classify_if_original-IsKept g stage (if_intermediate tree prev)
        (if_intermediate tree (first_of stages)) (find stage tree.operation) c)
      (λ d k. from-IsKeptBy c.plan d.plan _ k (classify_from-IsKept g tree (some stage) stages d))

pub classify_original_stages-IsKept :
    (g : RoutingGraph) (tree : PipelineTree) (stages : List ℕ) (p q : PathExpansionPlan)
    → classify_original_stages g tree stages p ≡ some q
    → IsKept p q
unfolding classify_original_stages
classify_original_stages-IsKept g tree stages p q e =
    let start : Classified = record { plan = p; fifos = [] } in
    OnSome-value (IsKept p) _ q
      (OnSome-chain (IsKeptBy p) (IsKept p) (classify_from g tree none stages start) _
        (classify_from-IsKept g tree none stages start) (λ c k. k))
      e
