-- ===== src/Expansion/Chain.antt =====
-- lib/Transforms/PathExpansion/Planner.cpp, `validateLinearChain` and
-- `sortAndValidateLinearPipelineStages`. `none` is `failure()`.
use acgatea.Common.{
  ℕ, zero, suc, ◌+◌, ◌≤◌, ◌<◌, ◌≡◌, ◌↔◌, ◌==◌, Bool, true, false, Option, none, some, List, [], ◌∷◌,
  if◌then◌else◌, ltb, not, ◌||◌, ◌&&◌, length,
}
use acgatea.Common.Map.{Map, find, assign}
use acgatea.Stages.Dependencies.{entry}
use acgatea.Stages.Sorting.{
  Dependents, Sorting, sorted, failure, out_of_fuel, topological_sort_stages,
}
pub mod Linear
pub mod Sorted

abbrev pub or_zero : Option ℕ → ℕ
or_zero none = 0
or_zero (some n) = n

-- `predecessor_count[stage]`, read.
abbrev pub count_of : Map ℕ → ℕ → ℕ
count_of predecessor_count stage = or_zero (find stage predecessor_count)

unfoldable pub note_dependents : List ℕ → Map ℕ → Map ℕ
note_dependents [] predecessor_count = predecessor_count
note_dependents (d ∷ dependents) predecessor_count =
    note_dependents dependents (assign d (suc (count_of predecessor_count d)) predecessor_count)

-- The loop; its result is the number of sources and of sinks.
unfoldable pub validate_stages : Dependents → List ℕ → Map ℕ → ℕ → ℕ → Option (ℕ × ℕ)
validate_stages dependents [] predecessor_count sources sinks = some (sources, sinks)
validate_stages dependents (stage ∷ stages) predecessor_count sources sinks =
    let deps = entry dependents stage in
    let counted = note_dependents deps predecessor_count in
    let rest =
      validate_stages dependents stages counted
        (if count_of counted stage == 0 then suc sources else sources)
        (if length deps == 0 then suc sinks else sinks) in
    if ltb 1 (length deps) then none else if ltb 1 (count_of counted stage) then none else rest

abbrev pub one_of_each : Option (ℕ × ℕ) → Bool
one_of_each none = false
one_of_each (some (sources, sinks)) = (sources == 1) && (sinks == 1)

unfoldable pub validate_linear_chain : Dependents → List ℕ → Bool
validate_linear_chain dependents [] = true
validate_linear_chain dependents (s ∷ stages) =
    one_of_each (validate_stages dependents (s ∷ stages) [] 0 0)

abbrev pub if_linear : Dependents → Sorting → Option (List ℕ)
if_linear dependents (sorted order) =
    if validate_linear_chain dependents order then some order else none
if_linear dependents failure = none
if_linear dependents out_of_fuel = none

unfoldable pub sort_and_validate_linear_pipeline_stages : Dependents → List ℕ → Option (List ℕ)
sort_and_validate_linear_pipeline_stages dependents stages =
    if_linear dependents (topological_sort_stages dependents stages)
