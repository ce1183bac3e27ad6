-- ===== src/Expansion/Planner/Kept.antt =====
-- What the classification and the population of stages leave as it is in the plan.
use acgatea.Common.{
  ℕ, ◌≡◌, Bool, true, false, Option, none, some, List, [], ◌∷◌, ◌++◌, ◌>>=◌, guard, get_elem?, ◌&&◌,
  ◌||◌, not, if◌then◌else◌, arith, inl, inr, Bool-cases, Option-cases, is_some, OnSome,
  OnSome-chain, OnSome-any, OnSome-value, refl, ◌∙◌, ap,
}
use acgatea.Common.Map.{find, assign, find-assign}
use acgatea.Arch.RoutingGraph.{RoutingGraph, EdgeInfo, get_edge_info}
use acgatea.Expansion.Plan.{
  DataTransferOp, FifoOp, BodyOp, transfer_op, fifo_op, StageOp, PipelineTree, PathExpansionPlan,
  StageMaterializationInfo, TransferMaterializationInfo, StageKind, adapt_transfer,
  adapt_fifo_kinds, synthetic_transfer, info_of, or_new, set_info, is_intermediate_stage,
}
use acgatea.Expansion.Factories.{
  create_memory_buffer, create_fifo, create_from_template_with_buffer, create_from_fifo_op,
  create_synthetic, Side, sizes_or_derived,
}
use acgatea.Expansion.Classify.Transfers.{
  add_transfer, add_transfer_of, with_buffer, buffer_shape, is_memref, node_id_of, edge_or_dummy,
  memref_element_type, adapt_data_transfer, adapt_transfers,
}
use acgatea.Expansion.Classify.Fifos.{
  FifoEntry, Slot, Classified, take_slot, is_key, next_of, use_slot, adapt_fifo_op,
  adapt_if_adjacent, adapt_fifo_ops, slot_is_valid,
}
use acgatea.Expansion.Classify.{
  adapt_with, classify_stage, has_intermediate, classify_if_original, if_intermediate, first_of,
  classify_from, classify_original_stages,
}
use acgatea.Expansion.Populate.{
  Around, connect_transfer, connect_if_matching, connect_transfers, set_synthetic, populate_stage,
  find_next_transfer, source_side, dest_side, matches_intermediate, populate_from,
  populate_intermediate_stage_transfers,
}
pub mod Classifying
pub mod Populating

-- Whether the plan changes the pipeline, and the resource and the unit of every stage.
pub record IsKept (p q : PathExpansionPlan) : Type 0 where
  pub changed : q.changed ≡ p.changed
  pub stage_resource : (s : ℕ) → (info_of q s).stage_resource ≡ (info_of p s).stage_resource
  pub applicable_unit : (s : ℕ) → (info_of q s).applicable_unit ≡ (info_of p s).applicable_unit

pub IsKept-refl : (p : PathExpansionPlan) → IsKept p p
IsKept-refl p = record { changed = refl; stage_resource = λ s. refl; applicable_unit = λ s. refl }

pub IsKept-trans : (p q r : PathExpansionPlan) → IsKept p q → IsKept q r → IsKept p r
IsKept-trans p q r a b = record {
  changed = b.changed ∙ a.changed;
  stage_resource = λ s. b.stage_resource s ∙ a.stage_resource s;
  applicable_unit = λ s. b.applicable_unit s ∙ a.applicable_unit s;
}

pub IsKept-set_info :
    (stage : ℕ) (info : StageMaterializationInfo) (p : PathExpansionPlan)
    → info.stage_resource ≡ (info_of p stage).stage_resource
    → info.applicable_unit ≡ (info_of p stage).applicable_unit
    → IsKept p (set_info stage info p)
IsKept-set_info stage info p r u = record {
  changed = refl;
  stage_resource = λ s. ground (arith, find-assign stage s info p.stage_info, r);
  applicable_unit = λ s. ground (arith, find-assign stage s info p.stage_info, u);
}

add_transfer-IsKept :
    (stage transfer : ℕ) (kind : StageKind) (p q : PathExpansionPlan)
    → IsKept p q
    → IsKept p (add_transfer stage transfer kind q)
add_transfer-IsKept stage transfer kind p q k =
    IsKept-trans p q _ k (IsKept-set_info stage _ q refl refl)

-- A factory only adds to the specs or to the transfers.
abbrev pub IsCreated : PathExpansionPlan → ℕ × PathExpansionPlan → Type 0
IsCreated p (n, q) = IsKept p q

pub add_transfer_of-IsKept :
    (stage : ℕ) (kind : StageKind) (p : PathExpansionPlan) (c : ℕ × PathExpansionPlan)
    → IsCreated p c
    → IsKept p (add_transfer_of stage kind c)
add_transfer_of-IsKept stage kind p (n, q) k = add_transfer-IsKept stage n kind p q k

pub IsKept-added :
    (p q : PathExpansionPlan) → q.changed ≡ p.changed → q.stage_info ≡ p.stage_info → IsKept p q
IsKept-added p q c e = record {
  changed = c;
  stage_resource = λ s. ap (λ m. (or_new (find s m)).stage_resource) e;
  applicable_unit = λ s. ap (λ m. (or_new (find s m)).applicable_unit) e;
}

pub if-IsKept :
    (b : Bool) (p : PathExpansionPlan) (o : Option PathExpansionPlan)
    → OnSome (IsKept p) o
    → OnSome (IsKept p) (if b then o else some p)
if-IsKept true p o h = h
if-IsKept false p o h = IsKept-refl p

pub from-OnSome :
    (p q : PathExpansionPlan) (o : Option PathExpansionPlan)
    → IsKept p q
    → OnSome (IsKept q) o
    → OnSome (IsKept p) o
from-OnSome p q none k h = tt
from-OnSome p q (some r) k h = IsKept-trans p q r k h
