-- ===== src/Expansion/Plan.antt =====
-- include/dataflow-scheduler/Transforms/PathExpansion/Planner.h and the nodes of
-- include/dataflow-scheduler/Analysis/PipelineTree.h that the planner works on. Nodes, operations,
-- values, types and resources are numbers, and a null pointer or attribute is `none`. Of the body of a
-- stage operation the model has what the planner looks at, in the order of `walk`. A pointer to a
-- `PrivateResourceSpec` or to a `TransferMaterializationInfo` is its position in its factory.
use acgatea.Common.{ℕ, Bool, true, false, Option, none, some, List, [], is_some}
use acgatea.Common.Map.{Map, find, assign}
use acgatea.Stages.Sorting.{Dependents}
use acgatea.Arch.RoutingGraph.{EdgeInfo}

pub data OperandType : Type 0 where
  -- A `MemRefType`: its memory space and its element type.
  memref : Option ℕ → ℕ → OperandType
  -- Any other type, such as a FIFO slot.
  other : OperandType

-- An `OpFoldResult`.
pub data Size : Type 0 where
  constant : ℕ → Size
  dynamic : ℕ → Size

pub data Index : Type 0 where
  value : ℕ → Index
  zero_index : Index

pub data AffineMap : Type 0 where
  -- `getMultiDimIdentityMap` with so many dimensions.
  identity : ℕ → AffineMap
  given : ℕ → AffineMap

pub record DataTransferOp : Type 0 where
  pub operation : ℕ
  pub source : OperandType
  pub destination : OperandType
  pub mixed_source_sizes : List Size
  pub mixed_dest_sizes : List Size
  pub source_indices : List ℕ
  pub dest_indices : List ℕ
  pub source_map : Option AffineMap
  pub dest_map : Option AffineMap

-- A `read_from_fifo` or a `write_to_fifo`.
pub record FifoOp : Type 0 where
  pub operation : ℕ
  pub is_read : Bool
  pub element_type : ℕ
  -- `none` if the number of elements is dynamic.
  pub num_elements : Option ℕ
  -- Whether the slot is the result of an operation.
  pub slot_is_result : Bool
  -- The result number of the slot in its allocation; `none` if there is none to be found.
  pub alloc_result : Option ℕ

pub data BodyOp : Type 0 where
  transfer_op : DataTransferOp → BodyOp
  fifo_op : FifoOp → BodyOp

pub record StageOp : Type 0 where
  pub applicable_units : Option (List ℕ)
  pub body : List BodyOp

-- The stage nodes below one pipeline node, each field by node: a node without an operation is not
-- materialized. `stages` is `getStages()`, in the order of the siblings; `fresh` is the next address.
pub record PipelineTree : Type 0 where
  pub operation : Map StageOp
  pub stage_id : Map ℕ
  pub dependents : Dependents
  pub stages : List ℕ
  pub fresh : ℕ

pub data SpecKind : Type 0 where
  memory_buffer fifo : SpecKind

pub record PrivateResourceSpec : Type 0 where
  pub kind : SpecKind
  pub memory_resource : Option ℕ
  pub fifo_src : Option ℕ
  pub fifo_dest : Option ℕ
  pub elements_per_slot : List ℕ
  pub shape : List ℕ
  pub element_type : ℕ

pub record TransferMaterializationInfo : Type 0 where
  pub template_op : Option ℕ
  pub hop : EdgeInfo
  pub source_resource : Option ℕ
  pub dest_resource : Option ℕ
  pub source_private_resource : Option ℕ
  pub dest_private_resource : Option ℕ
  pub source_slot_index : ℕ
  pub dest_slot_index : ℕ
  pub source_indices : List Index
  pub source_sizes : List Size
  pub dest_indices : List Index
  pub dest_sizes : List Size
  pub source_map : Option AffineMap
  pub dest_map : Option AffineMap

pub data StageKind : Type 0 where
  preserve_original adapt_fifo_kinds adapt_transfer synthetic_transfer : StageKind

pub record StageMaterializationInfo : Type 0 where
  pub kind : StageKind
  pub stage_resource : Option ℕ
  pub transfers : List ℕ
  pub applicable_unit : Option ℕ

pub record PathExpansionPlan : Type 0 where
  pub stage_info : Map StageMaterializationInfo
  pub specs : List PrivateResourceSpec
  pub transfers : List TransferMaterializationInfo
  pub changed : Bool

abbrev pub empty_plan : PathExpansionPlan
empty_plan = record { stage_info = []; specs = []; transfers = []; changed = false }

abbrev pub new_info : StageMaterializationInfo
new_info = record {
  kind = preserve_original;
  stage_resource = none;
  transfers = [];
  applicable_unit = none;
}

abbrev pub or_new : Option StageMaterializationInfo → StageMaterializationInfo
or_new none = new_info
or_new (some info) = info

-- `stage_info[stage]`, read.
abbrev pub info_of : PathExpansionPlan → ℕ → StageMaterializationInfo
info_of plan stage = or_new (find stage plan.stage_info)

abbrev pub set_info : ℕ → StageMaterializationInfo → PathExpansionPlan → PathExpansionPlan
set_info stage info plan = record plan { stage_info = assign stage info plan.stage_info }

abbrev pub is_intermediate_stage : PipelineTree → ℕ → Bool
is_intermediate_stage tree stage = elim (is_some (find stage tree.operation)) [
  | true ↦ false
  | false ↦ true
]
