-- ===== src/Stages/Sorting/ByDag.antt =====
-- The sort of `GlobalStageDAG.cpp` on the dag that the analysis of the same stages gives: the number
-- of predecessors of a stage is the number of edges into it.
use acgatea.Common.{
  ℕ, suc, ◌<◌, ◌≡◌, ◌↔◌, ◌⊎◌, List, [], ◌∷◌, ◌++◌, In, In-append, length, inl, inr, arith, ℤ, pos,
  Distinct, Distinct-append_one, refl, sym, ◌∙◌, ap, In-cases, List-cases, subst,
}
use acgatea.Common.Map.{Map, find, assign}
use acgatea.Stages.Dependencies.{
  entry, StageOp, StageDependencyDag, dependencies, Analysis, analyzed, circular, not_finished,
  analyze_stage_dependencies,
}
use acgatea.Stages.Dependencies.Mirror.{dependencies_iff}
use acgatea.Stages.Dependencies.Analyzed.{
  operations, IsAnalysis, acyclic, cyclic, analyze_stage_dependencies-IsAnalysis, DependsOn-stage,
  DependsOn-producer,
}
use acgatea.Stages.Dependencies.Coloring.{Chain, step, more}
use acgatea.Stages.Sorting.{
  degree_of, count_predecessors, sort_dag, drain, all_or_failure, Sorting, sorted, failure,
  out_of_fuel,
}
use acgatea.Stages.Sorting.Mirrored.{dependencies-IsMirrored, total-ext, length-occurrences}
use acgatea.Stages.Sorting.Draining.{incoming, IsCounted, drain-IsDrained, degree_of-assign}
use acgatea.Stages.Sorting.Topological.{
  IsTopological, Reaches, edge, further, IsSorting, in_order, in_cycle, IsDrained-IsSorting,
}

module _ (dag : StageDependencyDag) where
  abbrev predecessor_count : ℕ → ℕ
  predecessor_count s = length (entry dag.predecessors s)

  count_predecessors-degree :
      (stages : List ℕ) (m : Map ℤ) (q : List ℕ) (s : ℕ)
      → (In s stages ⊎ (degree_of m s ≡ pos (predecessor_count s)))
      → degree_of (count_predecessors dag stages (m, q)).0 s ≡ pos (predecessor_count s)
  unfolding count_predecessors
  count_predecessors-degree [] m q s h = ground arith
  count_predecessors-degree (x ∷ stages) m q s h =
      count_predecessors-degree stages _ _ s
        (ground (arith, h, degree_of-assign x (pos (predecessor_count x)) m s))

  count_predecessors-In :
      (stages : List ℕ) (m : Map ℤ) (q : List ℕ) (s : ℕ)
      → In s (count_predecessors dag stages (m, q)).1
        ↔ (In s q ⊎ (In s stages × (predecessor_count s ≡ 0)))
  unfolding count_predecessors
  count_predecessors-In [] m q s = ground arith
  count_predecessors-In (x ∷ stages) m q s = ground (
    arith,
    count_predecessors-In stages (assign x (pos (predecessor_count x)) m) q s,
    count_predecessors-In stages (assign x (pos (predecessor_count x)) m) (q ++ x ∷ []) s,
    In-append s q (x ∷ []),
  )

  count_predecessors-Distinct :
      (stages : List ℕ) (m : Map ℤ) (q : List ℕ)
      → Distinct stages
      → Distinct q
      → ((s : ℕ) → In s q → ¬ In s stages)
      → Distinct (count_predecessors dag stages (m, q)).1
  unfolding count_predecessors
  count_predecessors-Distinct [] m q d e apart = e
  count_predecessors-Distinct (x ∷ stages) m q d e apart =
      count_predecessors-Distinct stages _ _ d.1
        (ground (arith, Distinct-append_one x q e, apart x))
        (λ s m. ground (arith, m, In-append s q (x ∷ []), apart s, d.0))

module _ (stages : List StageOp) (distinct : Distinct (operations stages)) where
  abbrev own_dag : StageDependencyDag
  own_dag = dependencies stages

  edges-stages :
      (s p : ℕ)
      → In p (entry own_dag.predecessors s)
      → In s (operations stages) × In p (operations stages)
  edges-stages s p m =
      let d = (dependencies_iff stages s p).0.0 m in
      (DependsOn-stage stages stages s p d, DependsOn-producer stages stages s p d)

  predecessor_count-known : (s : ℕ) → 0 < predecessor_count own_dag s → In s (operations stages)
  predecessor_count-known s h = elim (List-cases (entry own_dag.predecessors s)) [
    | inl e ↦ absurd (omega (arith, ap (λ (l : List ℕ). length l) e))
    | inr (p, rest, e) ↦ (edges-stages s p (subst (In p) (sym e) (inl refl))).0
  ]

  predecessor_count-incoming :
      (s : ℕ)
      → predecessor_count own_dag s ≡ incoming (entry own_dag.successors) (operations stages) s
  predecessor_count-incoming s =
      length-occurrences (entry own_dag.predecessors s) (operations stages) distinct
        (λ p m. (edges-stages s p m).1)
      ∙ total-ext _ _ (operations stages) (λ p. dependencies-IsMirrored stages p s)

  successors-closed :
      (s t : ℕ)
      → In s (operations stages)
      → In t (entry own_dag.successors s)
      → In t (operations stages)
  successors-closed s t m n =
      DependsOn-stage stages stages t s ((dependencies_iff stages t s).1.0 n)

  start-IsCounted :
      (ops : List ℕ)
      → ops ≡ operations stages
      → IsCounted ops
          (predecessor_count own_dag)
          (incoming (entry own_dag.successors) [])
          (count_predecessors own_dag ops ([], [])).0
          (count_predecessors own_dag ops ([], [])).1
  unfolding find
  start-IsCounted ops same = record {
    degree = λ s. elim (In-cases s ops) [
      | inl m ↦ ground (arith, count_predecessors-degree own_dag ops [] [] s (inl m))
      | inr left ↦
          let unknown : ¬ In s (operations stages) = λ m. left (subst (In s) (sym same) m) in
          let none_left : predecessor_count own_dag s ≡ 0 =
            ground (arith, predecessor_count-known s, unknown) in
          ground (
            arith,
            count_predecessors-degree own_dag ops [] [] s (inr (ap pos (sym none_left))),
            none_left,
          )
    ];
    pushed = λ s. ground (arith, count_predecessors-In own_dag ops [] [] s);
    once =
        count_predecessors-Distinct own_dag ops [] [] (subst (Distinct) (sym same) distinct) tt
          (λ s m. absurd m);
  }

  drained-IsSorting :
      (ops : List ℕ)
      → ops ≡ operations stages
      → IsSorting (entry own_dag.successors) ops (
          all_or_failure ops (
            drain
              (entry own_dag.successors)
              (suc (length ops))
              (count_predecessors own_dag ops ([], []))
              []))
  drained-IsSorting ops same =
      let d : Distinct ops = subst (Distinct) (sym same) distinct in
      let known : (s : ℕ) → 0 < predecessor_count own_dag s → In s ops =
        λ s h. subst (In s) (sym same) (predecessor_count-known s h) in
      let closed : (s t : ℕ) → In s ops → In t (entry own_dag.successors s) → In t ops =
        λ s t m n. subst (In t) (sym same) (successors-closed s t (subst (In s) same m) n) in
      let all : (s : ℕ)
          → In s ops
          → predecessor_count own_dag s ≡ incoming (entry own_dag.successors) ops s =
        λ s m.
          subst (λ l. predecessor_count own_dag s ≡ incoming (entry own_dag.successors) l s)
            (sym same) (predecessor_count-incoming s) in
      let (done, e, v) =
        drain-IsDrained ops (predecessor_count own_dag) known (entry own_dag.successors)
          (suc (length ops)) (count_predecessors own_dag ops ([], [])).0
          (count_predecessors own_dag ops ([], [])).1 [] (omega arith) (start-IsCounted ops same)
          tt in
      rw e (
        IsDrained-IsSorting (entry own_dag.successors) ops d closed (predecessor_count own_dag) all
          done v)

  sorted-IsSorting :
      (ops : List ℕ)
      → ops ≡ operations stages
      → IsSorting (entry own_dag.successors) ops (sort_dag ops own_dag)
  unfolding sort_dag
  sorted-IsSorting [] same = in_order [] tt (λ s. (λ m. m, λ m. m))
  sorted-IsSorting (x ∷ ops) same = drained-IsSorting (x ∷ ops) same

  pub sort_dag-IsSorting :
      IsSorting
        (entry own_dag.successors)
        (operations stages)
        (sort_dag (operations stages) own_dag)
  sort_dag-IsSorting = sorted-IsSorting (operations stages) refl

Reaches-Chain :
    (dag : StageDependencyDag) (a b : ℕ) → Reaches (entry dag.successors) a b → Chain dag a b
Reaches-Chain dag a b (edge _ m) = step b m
Reaches-Chain dag a b (further c _ r m) = more c b (Reaches-Chain dag a c r) m

in_order-of_acyclic :
    (successors : ℕ → List ℕ) (stages : List ℕ) (result : Sorting)
    → IsSorting successors stages result
    → ((s : ℕ) → ¬ Reaches successors s s)
    → (order : List ℕ) × (result ≡ sorted order)
      × IsTopological successors order
      × ((s : ℕ) → In s order ↔ In s stages)
in_order-of_acyclic successors stages (sorted order) (in_order _ t same) none_round =
    (order, refl, t, same)
in_order-of_acyclic successors stages failure (in_cycle s m r) none_round = absurd (none_round s r)
in_order-of_acyclic successors stages out_of_fuel h none_round = elim h [ ]

analyzed-acyclic :
    (stages : List StageOp) (dag : StageDependencyDag) (a : Analysis)
    → IsAnalysis stages a
    → a ≡ analyzed dag
    → (dependencies stages ≡ dag) × ((v : ℕ) → ¬ Chain (dependencies stages) v v)
analyzed-acyclic stages dag (analyzed _) (acyclic h) e = (cc, h)
analyzed-acyclic stages dag circular (cyclic v c) e = cc
analyzed-acyclic stages dag not_finished h e = elim h [ ]

-- If no two of the stages are the same operation and their analysis gives a dag, then the sort by that
-- dag succeeds. Its result holds exactly the stages, each once and in front of all its successors.
pub sort_dag-analyzed :
    (stages : List StageOp) (dag : StageDependencyDag)
    → Distinct (operations stages)
    → analyze_stage_dependencies stages ≡ analyzed dag
    → (order : List ℕ) × (sort_dag (operations stages) dag ≡ sorted order)
      × IsTopological (entry dag.successors) order
      × ((s : ℕ) → In s order ↔ In s (operations stages))
sort_dag-analyzed stages dag d e =
    let (same, none_round) =
      analyzed-acyclic stages dag _ (analyze_stage_dependencies-IsAnalysis stages) e in
    subst
      (λ g.
        (order : List ℕ) × (sort_dag (operations stages) g ≡ sorted order)
        × IsTopological (entry g.successors) order
        × ((s : ℕ) → In s order ↔ In s (operations stages)))
      same
      (in_order-of_acyclic (entry (dependencies stages).successors) (operations stages) _
        (sort_dag-IsSorting stages d)
        (λ s r. none_round s (Reaches-Chain (dependencies stages) s s r)))
