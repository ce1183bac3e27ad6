-- ===== src/Tests/Stages.antt =====
-- Three stages in a chain, and two that wait for one another.
use acgatea.Common.{ℕ, ◌≡◌, ◌↔◌, refl, List, [], ◌∷◌, In}
use acgatea.Common.Map.{find, assign}
use acgatea.Stages.Dependencies.{
  StageOp, entry, dependencies, note_producer, token_producers, link_tokens, link_stages,
  clear_entries, scan, has_cycle, search_cycles, circular, analyze_stage_dependencies,
}
use acgatea.Stages.Dependencies.Mirror.{DependsOn, dependencies_iff}
use acgatea.Stages.Dependencies.Analyzed.{IsAnalysis, analyze_stage_dependencies-IsAnalysis}

abbrev stage : ℕ → List ℕ → List ℕ → StageOp
stage operation depends_in depends_out = record {
  operation = operation;
  depends_in = depends_in;
  depends_out = depends_out;
}

abbrev chained : List StageOp
chained = stage 1 [] (10 ∷ []) ∷ stage 2 (10 ∷ []) (11 ∷ []) ∷ stage 3 (10 ∷ 11 ∷ []) [] ∷ []

abbrev waiting : List StageOp
waiting = stage 1 (11 ∷ []) (10 ∷ []) ∷ stage 2 (10 ∷ []) (11 ∷ []) ∷ []

waiting_circular : analyze_stage_dependencies waiting ≡ circular
unfolding analyze_stage_dependencies dependencies note_producer token_producers link_tokens
    link_stages clear_entries scan has_cycle search_cycles find assign
waiting_circular = refl

dependencies_iff_example :
    (In 1 (entry (dependencies chained).predecessors 3) ↔ DependsOn chained chained 3 1)
    × (In 3 (entry (dependencies chained).successors 1) ↔ DependsOn chained chained 3 1)
dependencies_iff_example = dependencies_iff chained 3 1

analyze_stage_dependencies-IsAnalysis_example :
    IsAnalysis chained (analyze_stage_dependencies chained)
analyze_stage_dependencies-IsAnalysis_example = analyze_stage_dependencies-IsAnalysis chained
