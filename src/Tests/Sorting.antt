-- ===== src/Tests/Sorting.antt =====
-- The sorts of the stages of a pipeline.
use acgatea.Common.{ℕ, ◌≡◌, ◌↔◌, refl, List, [], ◌∷◌, In, arith}
use acgatea.Common.Map.{find, assign}
use acgatea.Stages.Dependencies.{
  StageOp, entry, dependencies, note_producer, token_producers, link_tokens, link_stages,
  clear_entries, scan, has_cycle, search_cycles, analyzed, analyze_stage_dependencies,
}
use acgatea.Stages.Dependencies.Analyzed.{operations}
use acgatea.Stages.Sorting.{
  Dependents, identify_source_stages, identify_sink_stages, sorted, relax, drain,
  count_predecessors, sort_dag, topological_sort_stages,
}
use acgatea.Stages.Sorting.Sources.{WaitsForNone, source_and_sink_stages}
use acgatea.Stages.Sorting.Topological.{IsTopological, IsSorting}
use acgatea.Stages.Sorting.ByTree.{topological_sort_stages-IsSorting}
use acgatea.Stages.Sorting.ByDag.{sort_dag-analyzed}

-- The stages stand in the reverse of the order in which they can run.
abbrev reversed : List StageOp
reversed =
    record { operation = 3; depends_in = 11 ∷ []; depends_out = [] }
    ∷ record { operation = 2; depends_in = 10 ∷ []; depends_out = 11 ∷ [] }
    ∷ record { operation = 1; depends_in = []; depends_out = 10 ∷ [] }
    ∷ []

reversed_analyzed : analyze_stage_dependencies reversed ≡ analyzed (dependencies reversed)
unfolding analyze_stage_dependencies dependencies note_producer token_producers link_tokens
    link_stages clear_entries scan has_cycle search_cycles find assign
reversed_analyzed = refl

reversed_sorted : sort_dag (3 ∷ 2 ∷ 1 ∷ []) (dependencies reversed) ≡ sorted (1 ∷ 2 ∷ 3 ∷ [])
unfolding sort_dag relax drain count_predecessors dependencies note_producer token_producers
    link_tokens link_stages clear_entries find assign
reversed_sorted = refl

sort_dag-analyzed_example :
    (order : List ℕ) × (sort_dag (operations reversed) (dependencies reversed) ≡ sorted order)
    × IsTopological (entry (dependencies reversed).successors) order
    × ((s : ℕ) → In s order ↔ In s (operations reversed))
sort_dag-analyzed_example =
    sort_dag-analyzed reversed (dependencies reversed) (omega arith) reversed_analyzed

abbrev diamond : Dependents
diamond = (4, []) ∷ (1, 2 ∷ 3 ∷ []) ∷ (2, 4 ∷ []) ∷ (3, 4 ∷ []) ∷ []

diamond_closed :
    (s t : ℕ) → In s (4 ∷ 3 ∷ 2 ∷ 1 ∷ []) → In t (entry diamond s) → In t (4 ∷ 3 ∷ 2 ∷ 1 ∷ [])
unfolding find
diamond_closed s t m n = ground (arith, m, n)

topological_sort_stages-IsSorting_example :
    IsSorting
      (entry diamond)
      (4 ∷ 3 ∷ 2 ∷ 1 ∷ [])
      (topological_sort_stages diamond (4 ∷ 3 ∷ 2 ∷ 1 ∷ []))
topological_sort_stages-IsSorting_example =
    topological_sort_stages-IsSorting diamond (4 ∷ 3 ∷ 2 ∷ 1 ∷ []) (omega arith) diamond_closed

source_and_sink_stages_example :
    (In 1 (identify_source_stages diamond (4 ∷ 3 ∷ 2 ∷ 1 ∷ []))
      ↔ (In 1 (4 ∷ 3 ∷ 2 ∷ 1 ∷ []) × WaitsForNone diamond (4 ∷ 3 ∷ 2 ∷ 1 ∷ []) 1))
    × (In 1 (identify_sink_stages diamond (4 ∷ 3 ∷ 2 ∷ 1 ∷ []))
        ↔ (In 1 (4 ∷ 3 ∷ 2 ∷ 1 ∷ []) × (entry diamond 1 ≡ [])))
source_and_sink_stages_example = source_and_sink_stages diamond (4 ∷ 3 ∷ 2 ∷ 1 ∷ []) 1
