-- ===== src/Expansion/Resources.antt =====
-- lib/Transforms/PathExpansion/Planner.cpp, `firstTransferMemSpaces`, `assignOriginalStageResources`,
-- `hasAnchorStage` and `collectOriginalStageResourcePath`. `none` is a failed assertion.
use acgatea.Common.{
  ℕ, zero, suc, Bool, true, false, Option, none, some, List, [], ◌∷◌, if◌then◌else◌, ◌==◌, ◌>>=◌,
  ◌>>◌, guard, is_some, length, ◌&&◌, ◌||◌,
}
use acgatea.Common.Map.{Map, find, assign}
use acgatea.Expansion.Plan.{
  OperandType, memref, other, DataTransferOp, BodyOp, transfer_op, fifo_op, StageOp, PipelineTree,
  PathExpansionPlan, StageMaterializationInfo, info_of, set_info,
}
pub mod Rules
pub mod Passes
pub mod Assigning

abbrev pub memref_memory_space : OperandType → Option ℕ
memref_memory_space (memref space element_type) = space
memref_memory_space other = none

abbrev pub or_else : Option ℕ → Option ℕ → Option ℕ
or_else none b = b
or_else (some a) b = some a

-- The walk may stop once both are found, since nothing changes from there on.
unfoldable pub first_spaces_from : List BodyOp → Option ℕ × Option ℕ → Option ℕ × Option ℕ
first_spaces_from [] spaces = spaces
first_spaces_from (transfer_op t ∷ body) (src, dst) =
    first_spaces_from body
      (or_else src (memref_memory_space t.source), or_else dst (memref_memory_space t.destination))
first_spaces_from (fifo_op f ∷ body) spaces = first_spaces_from body spaces

unfoldable pub first_transfer_mem_spaces : StageOp → Option ℕ × Option ℕ
first_transfer_mem_spaces op = first_spaces_from op.body (none, none)

abbrev pub the_unit : List ℕ → Option (Option ℕ)
the_unit (u ∷ []) = some (some u)
the_unit units = none

abbrev pub assert_some : Option ℕ → Option (Option ℕ)
assert_some none = none
assert_some (some r) = some (some r)

-- Rule 4; an inner `none` is left to the second pass.
abbrev pub only_side : Option ℕ → Option ℕ → Option ℕ
only_side (some src) none = some src
only_side none (some dst) = some dst
only_side (some src) (some dst) = none
only_side none none = none

-- Rules 1 to 4.
unfoldable pub first_rules : Bool → Bool → StageOp → Option (Option ℕ)
first_rules is_first is_last op = elim op.applicable_units [
  | some units ↦ the_unit units
  | none ↦
      if is_first
      then assert_some (first_transfer_mem_spaces op).0
      else if is_last
      then assert_some (first_transfer_mem_spaces op).1
      else some (only_side (first_transfer_mem_spaces op).0 (first_transfer_mem_spaces op).1)
]

abbrev pub set_resource : ℕ → Option ℕ → PathExpansionPlan → PathExpansionPlan
set_resource stage resource plan =
    set_info stage (record (info_of plan stage) { stage_resource = resource }) plan

-- `info.stage_resource` stays as it was if no rule applies.
abbrev pub keep_or_set : ℕ → Option ℕ → PathExpansionPlan → PathExpansionPlan
keep_or_set stage none plan = set_info stage (info_of plan stage) plan
keep_or_set stage (some r) plan = set_resource stage (some r) plan

abbrev pub is_nil : List ℕ → Bool
is_nil [] = true
is_nil (x ∷ xs) = false

unfoldable pub first_pass :
    PipelineTree → Bool → List ℕ → PathExpansionPlan → Option PathExpansionPlan
first_pass tree is_first [] plan = some plan
first_pass tree is_first (stage ∷ stages) plan = do
  op ← find stage tree.operation
  resource ← first_rules is_first (is_nil stages) op
  first_pass tree false stages (keep_or_set stage resource plan)

abbrev pub resource_of : PathExpansionPlan → ℕ → Option ℕ
resource_of plan stage = (info_of plan stage).stage_resource

abbrev pub same_resource : Option ℕ → Option ℕ → Bool
same_resource (some a) (some b) = a == b
same_resource (some a) none = false
same_resource none b = false

-- Rule 5. The inner `none`: neither neighbour tells.
abbrev pub rule_5 : Option ℕ → Option ℕ → Option ℕ × Option ℕ → Option (Option ℕ)
rule_5 left right (src, dst) =
    if same_resource left src
    then assert_some dst
    else if same_resource right dst
    then assert_some src
    else some none

abbrev pub resolved : ℕ → Option ℕ → PathExpansionPlan × Bool → PathExpansionPlan × Bool
resolved stage none state = state
resolved stage (some r) (plan, changed) = (set_resource stage (some r) plan, true)

unfoldable pub resolve_stage :
    PipelineTree → ℕ → ℕ → ℕ → PathExpansionPlan × Bool → Option (PathExpansionPlan × Bool)
resolve_stage tree left stage right (plan, changed) =
    if is_some (resource_of plan stage) then some (plan, changed) else do
      op ← find stage tree.operation
      resource ←
          rule_5 (resource_of plan left) (resource_of plan right) (first_transfer_mem_spaces op)
      some (resolved stage resource (plan, changed))

-- One round of the second pass, over the stages that have two neighbours.
unfoldable pub sweep :
    PipelineTree → ℕ → List ℕ → PathExpansionPlan × Bool → Option (PathExpansionPlan × Bool)
sweep tree left [] state = some state
sweep tree left (stage ∷ []) state = some state
sweep tree left (stage ∷ right ∷ stages) state = do
  state' ← resolve_stage tree left stage right state
  sweep tree stage (right ∷ stages) state'

pub data Assigned : Type 0 where
  assigned : PathExpansionPlan → Assigned
  aborted : Assigned
  out_of_fuel : Assigned

abbrev pub again : (PathExpansionPlan → Assigned) → Option (PathExpansionPlan × Bool) → Assigned
again rest none = aborted
again rest (some (plan, true)) = rest plan
again rest (some (plan, false)) = assigned plan

-- `while (changed)`.
unfoldable pub second_pass : ℕ → PipelineTree → ℕ → List ℕ → PathExpansionPlan → Assigned
second_pass zero tree left stages plan = out_of_fuel
second_pass (suc fuel) tree left stages plan =
    again (second_pass fuel tree left stages) (sweep tree left stages (plan, false))

unfoldable pub all_resolved : List ℕ → PathExpansionPlan → Bool
all_resolved [] plan = true
all_resolved (s ∷ stages) plan = is_some (resource_of plan s) && all_resolved stages plan

abbrev pub verified : List ℕ → Assigned → Assigned
verified stages (assigned plan) = if all_resolved stages plan then assigned plan else aborted
verified stages aborted = aborted
verified stages out_of_fuel = out_of_fuel

abbrev pub resolve_rest : PipelineTree → List ℕ → Option PathExpansionPlan → Assigned
resolve_rest tree stages none = aborted
resolve_rest tree [] (some plan) = assigned plan
resolve_rest tree (s ∷ stages) (some plan) =
    verified (s ∷ stages) (second_pass (suc (length (s ∷ stages))) tree s stages plan)

unfoldable pub assign_original_stage_resources :
    PipelineTree → List ℕ → PathExpansionPlan → Assigned
assign_original_stage_resources tree stages plan =
    resolve_rest tree stages (first_pass tree true stages plan)

abbrev pub is_anchor : Option StageOp → Bool
is_anchor none = false
is_anchor (some op) = is_some op.applicable_units

unfoldable pub has_anchor_stage : PipelineTree → List ℕ → Bool
has_anchor_stage tree [] = false
has_anchor_stage tree (s ∷ stages) =
    is_anchor (find s tree.operation) || has_anchor_stage tree stages

abbrev pub push_some : Option ℕ → List ℕ → List ℕ
push_some none rest = rest
push_some (some r) rest = r ∷ rest

unfoldable pub collect_original_stage_resource_path : PathExpansionPlan → List ℕ → List ℕ
collect_original_stage_resource_path plan [] = []
collect_original_stage_resource_path plan (s ∷ stages) =
    push_some (resource_of plan s) (collect_original_stage_resource_path plan stages)
