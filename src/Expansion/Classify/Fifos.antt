-- ===== src/Expansion/Classify/Fifos.antt =====
-- lib/Transforms/PathExpansion/Planner.cpp, the walk of `classifyOriginalStages` over the FIFO
-- operations of a stage, and `validateFifoSlotIndex`.
use acgatea.Common.{
  ℕ, zero, suc, Bool, false, Option, none, some, List, [], ◌∷◌, ◌++◌, if◌then◌else◌, ◌==◌, ◌>>=◌,
  ◌>>◌, guard, length, ◌&&◌, ◌||◌, not, ltb, get_elem?,
}
use acgatea.Common.Map.{find}
use acgatea.Arch.RoutingGraph.{RoutingGraph, EdgeInfo}
use acgatea.Expansion.Plan.{
  FifoOp, BodyOp, transfer_op, fifo_op, PrivateResourceSpec, PathExpansionPlan, adapt_fifo_kinds,
  info_of,
}
use acgatea.Expansion.Factories.{create_fifo, create_from_fifo_op}
use acgatea.Expansion.Classify.Transfers.{node_id_of, add_transfer_of}

-- `fifo_specs` and `fifo_next_slot` at one key.
pub record FifoEntry : Type 0 where
  pub src : ℕ
  pub dest : ℕ
  pub spec : ℕ
  pub next_slot : ℕ

pub record Classified : Type 0 where
  pub plan : PathExpansionPlan
  pub fifos : List FifoEntry

abbrev pub with_slot : ℕ → PrivateResourceSpec → PrivateResourceSpec
with_slot num_elements spec = record spec {
  elements_per_slot = spec.elements_per_slot ++ num_elements ∷ [];
}

-- `fifo_specs[fifo_key]->elements_per_slot.push_back(num_elements)`
unfoldable pub push_slot : ℕ → ℕ → List PrivateResourceSpec → List PrivateResourceSpec
push_slot p num_elements [] = []
push_slot zero num_elements (spec ∷ specs) = with_slot num_elements spec ∷ specs
push_slot (suc p) num_elements (spec ∷ specs) = spec ∷ push_slot p num_elements specs

abbrev pub is_key : FifoEntry → ℕ → ℕ → Bool
is_key f src dest = (f.src == src) && (f.dest == dest)

-- The pointer to the spec of the FIFO, and the slot that it has next.
pub record Slot : Type 0 where
  pub spec : ℕ
  pub slot_index : ℕ
  pub fifos : List FifoEntry
  pub plan : PathExpansionPlan

abbrev pub new_fifo : ℕ → ℕ → ℕ × PathExpansionPlan → Slot
new_fifo src dest (spec, plan) = record {
  spec = spec;
  slot_index = 0;
  fifos = record { src = src; dest = dest; spec = spec; next_slot = 1 } ∷ [];
  plan = plan;
}

abbrev pub next_of : FifoEntry → List FifoEntry → ℕ → PathExpansionPlan → Slot
next_of f fifos num_elements plan = record {
  spec = f.spec;
  slot_index = f.next_slot;
  fifos = record f { next_slot = suc f.next_slot } ∷ fifos;
  plan = record plan { specs = push_slot f.spec num_elements plan.specs };
}

-- A FIFO that has no spec yet gets one with this slot; any other gets the slot.
unfoldable pub take_slot : ℕ → ℕ → ℕ → ℕ → List FifoEntry → PathExpansionPlan → Slot
take_slot src dest num_elements element_type [] plan =
    new_fifo src dest (create_fifo (some src) (some dest) (num_elements ∷ []) element_type plan)
take_slot src dest num_elements element_type (f ∷ fifos) plan =
    let rest = take_slot src dest num_elements element_type fifos plan in
    if is_key f src dest
    then next_of f fifos num_elements plan
    else record rest { fifos = f ∷ rest.fifos }

abbrev pub slot_count : Option PrivateResourceSpec → ℕ
slot_count none = 0
slot_count (some spec) = length spec.elements_per_slot

abbrev pub is_result_number : Option ℕ → ℕ → Bool
is_result_number none slot_index = false
is_result_number (some n) slot_index = slot_index == n

-- `validateFifoSlotIndex`
unfoldable pub slot_is_valid : FifoOp → Slot → Bool
slot_is_valid f s =
    (not f.slot_is_result || is_result_number f.alloc_result s.slot_index)
    && ltb s.slot_index (slot_count (get_elem? s.plan.specs s.spec))

abbrev pub use_slot : ℕ → FifoOp → EdgeInfo → ℕ → ℕ → Slot → Classified
use_slot stage f edge src dest s = record {
  plan = add_transfer_of stage adapt_fifo_kinds (
      create_from_fifo_op f.operation edge (some src) (some dest) s.spec s.slot_index f.is_read
        s.plan);
  fifos = s.fifos;
}

-- A FIFO operation whose other end is the intermediate stage `adjacent`.
unfoldable pub adapt_fifo_op : RoutingGraph → ℕ → ℕ → FifoOp → Classified → Option Classified
adapt_fifo_op g stage adjacent f c = do
  adj_info ← find adjacent c.plan.stage_info
  let own = (info_of c.plan stage).stage_resource
  src ← if f.is_read then adj_info.applicable_unit else own
  dest ← if f.is_read then own else adj_info.applicable_unit
  num_elements ← f.num_elements
  let s = take_slot src dest num_elements f.element_type c.fifos c.plan
  guard (slot_is_valid f s)
  src_node_id ← node_id_of g own
  adj_node_id ← node_id_of g adj_info.stage_resource
  some (
      use_slot stage f
        (record {
          source = if f.is_read then adj_node_id else src_node_id;
          target = if f.is_read then src_node_id else adj_node_id;
          cost = 1;
        })
        src dest s)

abbrev pub adapt_if_adjacent : RoutingGraph → ℕ → Option ℕ → FifoOp → Classified → Option Classified
adapt_if_adjacent g stage none f c = some c
adapt_if_adjacent g stage (some adjacent) f c = adapt_fifo_op g stage adjacent f c

-- The walk over the FIFO operations; a neighbour that is not intermediate is `none`.
unfoldable pub adapt_fifo_ops :
    RoutingGraph → ℕ → Option ℕ → Option ℕ → List BodyOp → Classified → Option Classified
adapt_fifo_ops g stage prev next [] c = some c
adapt_fifo_ops g stage prev next (transfer_op t ∷ body) c = adapt_fifo_ops g stage prev next body c
adapt_fifo_ops g stage prev next (fifo_op f ∷ body) c = do
  c' ← adapt_if_adjacent g stage (if f.is_read then prev else next) f c
  adapt_fifo_ops g stage prev next body c'
