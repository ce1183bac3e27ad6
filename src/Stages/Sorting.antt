-- ===== src/Stages/Sorting.antt =====
-- lib/Dialect/KTDF/Analysis/GlobalStageDAG.cpp, `topologicalSortStages`, and
-- lib/Analysis/PipelineTree.cpp, `PipelineTree::topologicalSortStages`, `identifySourceStages` and
-- `identifySinkStages`. Stages are numbers. Both sorts start with an empty result; they differ in how
-- they count the incoming edges, and share the loop over the queue, which runs on fuel.
use acgatea.Common.{
  ℕ, zero, suc, Bool, true, false, Option, none, some, List, [], ◌∷◌, ◌++◌, if◌then◌else◌, ◌==◌,
  not, length, is_contained, ℤ, pos, increment, decrement, is_zero,
}
use acgatea.Common.Map.{Map, find, assign}
use acgatea.Stages.Dependencies.{StageDependencyDag, entry}
pub mod Draining
pub mod Topological
pub mod ByTree
pub mod Mirrored
pub mod ByDag
pub mod Sources

abbrev pub or_zero : Option ℤ → ℤ
or_zero none = pos 0
or_zero (some d) = d

-- `in_degree[stage]`, read.
abbrev pub degree_of : Map ℤ → ℕ → ℤ
degree_of in_degree stage = or_zero (find stage in_degree)

-- The loop over the successors of a stage that leaves the queue.
unfoldable pub relax : List ℕ → Map ℤ × List ℕ → Map ℤ × List ℕ
relax [] state = state
relax (s ∷ successors) (in_degree, queue) = relax successors (
  assign s (decrement (degree_of in_degree s)) in_degree,
  if is_zero (decrement (degree_of in_degree s)) then queue ++ s ∷ [] else queue,
)

pub data Sorting : Type 0 where
  sorted : List ℕ → Sorting
  failure : Sorting
  out_of_fuel : Sorting

-- `while (!queue.empty())`.
unfoldable pub drain : (ℕ → List ℕ) → ℕ → Map ℤ × List ℕ → List ℕ → Sorting
drain successors zero state done = out_of_fuel
drain successors (suc fuel) (in_degree, []) done = sorted done
drain successors (suc fuel) (in_degree, current ∷ queue) done =
    drain successors fuel (relax (successors current) (in_degree, queue)) (done ++ current ∷ [])

-- The test on the sizes behind the loop.
abbrev pub all_or_failure : List ℕ → Sorting → Sorting
all_or_failure stages (sorted done) = if length done == length stages then sorted done else failure
all_or_failure stages failure = failure
all_or_failure stages out_of_fuel = out_of_fuel

-- The first loop of the sort by a dag.
unfoldable pub count_predecessors : StageDependencyDag → List ℕ → Map ℤ × List ℕ → Map ℤ × List ℕ
count_predecessors dag [] state = state
count_predecessors dag (op ∷ stages) (in_degree, queue) = count_predecessors dag stages (
  assign op (pos (length (entry dag.predecessors op))) in_degree,
  if length (entry dag.predecessors op) == 0 then queue ++ op ∷ [] else queue,
)

unfoldable pub sort_dag : List ℕ → StageDependencyDag → Sorting
sort_dag [] dag = sorted []
sort_dag (op ∷ stages) dag = all_or_failure (op ∷ stages) (
    drain (entry dag.successors) (suc (length (op ∷ stages)))
      (count_predecessors dag (op ∷ stages) ([], [])) [])

-- The dependencies of the stages of a pipeline: for each stage, those that wait for it.
abbrev pub Dependents : Type 0
Dependents = Map (List ℕ)

unfoldable pub clear_degrees : List ℕ → Map ℤ → Map ℤ
clear_degrees [] in_degree = in_degree
clear_degrees (s ∷ stages) in_degree = clear_degrees stages (assign s (pos 0) in_degree)

unfoldable pub count_edges : List ℕ → Map ℤ → Map ℤ
count_edges [] in_degree = in_degree
count_edges (d ∷ dependents) in_degree =
    count_edges dependents (assign d (increment (degree_of in_degree d)) in_degree)

unfoldable pub count_incoming : Dependents → List ℕ → Map ℤ → Map ℤ
count_incoming dependents [] in_degree = in_degree
count_incoming dependents (s ∷ stages) in_degree =
    count_incoming dependents stages (count_edges (entry dependents s) in_degree)

unfoldable pub ready_stages : Map ℤ → List ℕ → List ℕ → List ℕ
ready_stages in_degree [] worklist = worklist
ready_stages in_degree (s ∷ stages) worklist =
    ready_stages in_degree stages
      (if is_zero (degree_of in_degree s) then worklist ++ s ∷ [] else worklist)

unfoldable pub topological_sort_stages : Dependents → List ℕ → Sorting
topological_sort_stages dependents [] = sorted []
topological_sort_stages dependents (s ∷ stages) =
    let in_degree = count_incoming dependents (s ∷ stages) (clear_degrees (s ∷ stages) []) in
    all_or_failure (s ∷ stages) (
      drain (entry dependents) (suc (length (s ∷ stages)))
        (in_degree, ready_stages in_degree (s ∷ stages) []) [])

-- `has_incoming`, a set.
unfoldable pub all_dependents : Dependents → List ℕ → List ℕ
all_dependents dependents [] = []
all_dependents dependents (s ∷ stages) = entry dependents s ++ all_dependents dependents stages

unfoldable pub pick_sources : List ℕ → List ℕ → List ℕ
pick_sources has_incoming [] = []
pick_sources has_incoming (s ∷ stages) =
    let rest = pick_sources has_incoming stages in
    if not (is_contained s has_incoming) then s ∷ rest else rest

unfoldable pub identify_source_stages : Dependents → List ℕ → List ℕ
identify_source_stages dependents stages = pick_sources (all_dependents dependents stages) stages

unfoldable pub identify_sink_stages : Dependents → List ℕ → List ℕ
identify_sink_stages dependents [] = []
identify_sink_stages dependents (s ∷ stages) =
    let rest = identify_sink_stages dependents stages in
    if length (entry dependents s) == 0 then s ∷ rest else rest
