-- ===== src/Stages/Dependencies.antt =====
-- lib/Dialect/KTDF/Analysis/GlobalStageDAG.cpp: the dependencies of the stages of a pipeline by the
-- tokens that they pass. Stages and tokens are numbers. The search for a cycle runs on fuel.
pub mod Mirror
pub mod Coloring
pub mod Cycles
pub mod Analyzed
use acgatea.Common.{
  ℕ, zero, suc, Bool, true, false, Option, none, some, List, [], ◌∷◌, ◌++◌, if◌then◌else◌, ◌==◌,
  length,
}
use acgatea.Common.Map.{Map, find, assign}

pub record StageOp : Type 0 where
  pub operation : ℕ
  pub depends_in : List ℕ
  pub depends_out : List ℕ

pub record StageDependencyDag : Type 0 where
  pub predecessors : Map (List ℕ)
  pub successors : Map (List ℕ)

abbrev pub or_none : Option (List ℕ) → List ℕ
or_none none = []
or_none (some xs) = xs

-- `m[k]`, read.
abbrev pub entry : Map (List ℕ) → ℕ → List ℕ
entry m k = or_none (find k m)

-- `m[k].push_back(v)`.
abbrev pub push_back : ℕ → ℕ → Map (List ℕ) → Map (List ℕ)
push_back k v m = assign k (entry m k ++ v ∷ []) m

-- The first loop: each stage has an empty entry in both maps.
unfoldable pub clear_entries : List StageOp → StageDependencyDag → StageDependencyDag
clear_entries [] dag = dag
clear_entries (s ∷ stages) dag = clear_entries stages (record {
  predecessors = assign s.operation [] dag.predecessors;
  successors = assign s.operation [] dag.successors;
})

unfoldable pub note_producer : ℕ → List ℕ → Map ℕ → Map ℕ
note_producer operation [] m = m
note_producer operation (t ∷ tokens) m = note_producer operation tokens (assign t operation m)

-- `token_producer_map`: of two stages with a token the later one counts.
unfoldable pub token_producers : List StageOp → Map ℕ → Map ℕ
token_producers [] m = m
token_producers (s ∷ stages) m = token_producers stages (note_producer s.operation s.depends_out m)

abbrev pub link : ℕ → Option ℕ → StageDependencyDag → StageDependencyDag
link operation none dag = dag
link operation (some producer) dag = record {
  predecessors = push_back operation producer dag.predecessors;
  successors = push_back producer operation dag.successors;
}

unfoldable pub link_tokens : Map ℕ → ℕ → List ℕ → StageDependencyDag → StageDependencyDag
link_tokens producers operation [] dag = dag
link_tokens producers operation (t ∷ tokens) dag =
    link_tokens producers operation tokens (link operation (find t producers) dag)

unfoldable pub link_stages : Map ℕ → List StageOp → StageDependencyDag → StageDependencyDag
link_stages producers [] dag = dag
link_stages producers (s ∷ stages) dag =
    link_stages producers stages (link_tokens producers s.operation s.depends_in dag)

-- The two maps, of an empty `dag`, before the search for a cycle.
unfoldable pub dependencies : List StageOp → StageDependencyDag
dependencies stages =
    link_stages (token_producers stages []) stages
      (clear_entries stages (record { predecessors = []; successors = [] }))

-- 0 is white, 1 is gray and 2 is black.
abbrev pub or_white : Option ℕ → ℕ
or_white none = 0
or_white (some color) = color

abbrev pub color_of : Map ℕ → ℕ → ℕ
color_of color operation = or_white (find operation color)

pub data Visit : Type 0 where
  cycle_found : Visit
  finished : Map ℕ → Visit
  out_of_fuel : Visit

abbrev pub continue : Visit → (Map ℕ → Visit) → Visit
continue cycle_found rest = cycle_found
continue (finished color) rest = rest color
continue out_of_fuel rest = out_of_fuel

-- The loop over the successors; `visit` is the recursive call.
unfoldable pub scan : (ℕ → Map ℕ → Visit) → List ℕ → Map ℕ → Visit
scan visit [] color = finished color
scan visit (s ∷ successors) color = elim (color_of color s == 1) [
  | true ↦ cycle_found
  | false ↦ elim (color_of color s == 0) [
    | true ↦ continue (visit s color) (scan visit successors)
    | false ↦ scan visit successors color
  ]
]

unfoldable pub has_cycle : StageDependencyDag → ℕ → ℕ → Map ℕ → Visit
has_cycle dag zero operation color = out_of_fuel
has_cycle dag (suc fuel) operation color =
    continue (scan (has_cycle dag fuel) (entry dag.successors operation) (assign operation 1 color))
      (λ color'. finished (assign operation 2 color'))

-- The loop over the stages.
unfoldable pub search_cycles : StageDependencyDag → ℕ → List StageOp → Map ℕ → Visit
search_cycles dag fuel [] color = finished color
search_cycles dag fuel (s ∷ stages) color = elim (color_of color s.operation == 0) [
  | true ↦ continue (has_cycle dag fuel s.operation color) (search_cycles dag fuel stages)
  | false ↦ search_cycles dag fuel stages color
]

pub data Analysis : Type 0 where
  analyzed : StageDependencyDag → Analysis
  circular : Analysis
  not_finished : Analysis

abbrev pub conclude : StageDependencyDag → Visit → Analysis
conclude dag cycle_found = circular
conclude dag (finished color) = analyzed dag
conclude dag out_of_fuel = not_finished

unfoldable pub analyze_stage_dependencies : List StageOp → Analysis
analyze_stage_dependencies stages =
    conclude (dependencies stages) (search_cycles (dependencies stages) (length stages) stages [])
