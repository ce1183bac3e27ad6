-- ===== src/Stages/Sorting/ByTree.antt =====
-- The sort of `PipelineTree`, which counts the incoming edges along the dependents.
use acgatea.Common.{
  ℕ, suc, ◌+◌, ◌<◌, ◌≡◌, ◌↔◌, ◌⊎◌, ◌==◌, if◌then◌else◌, List, [], ◌∷◌, ◌++◌, In, In-append, length,
  arith, ℤ, pos, increment, count, count-In, total-lt, Distinct, Distinct-append_one, refl,
}
use acgatea.Common.Map.{Map, find, assign}
use acgatea.Stages.Dependencies.{entry}
use acgatea.Stages.Sorting.{
  degree_of, Dependents, clear_degrees, count_edges, count_incoming, ready_stages,
  topological_sort_stages, drain, all_or_failure,
}
use acgatea.Stages.Sorting.Draining.{incoming, IsCounted, drain-IsDrained, degree_of-assign}
use acgatea.Stages.Sorting.Topological.{IsSorting, in_order, IsDrained-IsSorting}

clear_degrees-degree :
    (stages : List ℕ) (m : Map ℤ)
    → ((s : ℕ) → degree_of m s ≡ pos 0)
    → (s : ℕ) → degree_of (clear_degrees stages m) s ≡ pos 0
unfolding clear_degrees
clear_degrees-degree [] m h s = h s
clear_degrees-degree (x ∷ stages) m h s =
    clear_degrees-degree stages (assign x (pos 0) m)
      (λ t. ground (arith, degree_of-assign x (pos 0) m t, h t)) s

count_edges-degree :
    (xs : List ℕ) (m : Map ℤ) (s n : ℕ)
    → degree_of m s ≡ pos n
    → degree_of (count_edges xs m) s ≡ pos (n + count s xs)
unfolding count_edges
count_edges-degree [] m s n h = ground (arith, h)
count_edges-degree (x ∷ xs) m s n h = ground (
  arith,
  degree_of-assign x (increment (degree_of m x)) m s,
  count_edges-degree xs (assign x (increment (degree_of m x)) m) s (if x == s then suc n else n),
)

count_incoming-degree :
    (dependents : Dependents) (stages : List ℕ) (m : Map ℤ) (s n : ℕ)
    → degree_of m s ≡ pos n
    → degree_of (count_incoming dependents stages m) s
      ≡ pos (n + incoming (entry dependents) stages s)
unfolding count_incoming
count_incoming-degree dependents [] m s n h = ground (arith, h)
count_incoming-degree dependents (x ∷ stages) m s n h = ground (
  arith,
  count_edges-degree (entry dependents x) m s n,
  count_incoming-degree dependents stages (count_edges (entry dependents x) m) s
      (n + count s (entry dependents x)),
)

module _ (m : Map ℤ) (edges : ℕ → ℕ) (degree : (s : ℕ) → degree_of m s ≡ pos (edges s)) where
  ready_stages-In :
      (stages worklist : List ℕ) (s : ℕ)
      → In s (ready_stages m stages worklist) ↔ (In s worklist ⊎ (In s stages × (edges s ≡ 0)))
  unfolding ready_stages
  ready_stages-In [] worklist s = ground arith
  ready_stages-In (x ∷ stages) worklist s = ground (
    arith,
    degree x,
    ready_stages-In stages worklist s,
    ready_stages-In stages (worklist ++ x ∷ []) s,
    In-append s worklist (x ∷ []),
  )

  ready_stages-Distinct :
      (stages worklist : List ℕ)
      → Distinct stages
      → Distinct worklist
      → ((s : ℕ) → In s worklist → ¬ In s stages)
      → Distinct (ready_stages m stages worklist)
  unfolding ready_stages
  ready_stages-Distinct [] worklist d e apart = e
  ready_stages-Distinct (x ∷ stages) worklist d e apart =
      ready_stages-Distinct stages _ d.1 (ground (arith, Distinct-append_one x worklist e, apart x))
        (λ s m. ground (arith, m, In-append s worklist (x ∷ []), apart s, d.0))

module _ (dependents : Dependents) (stages : List ℕ) (distinct : Distinct stages)
    (closed : (s t : ℕ) → In s stages → In t (entry dependents s) → In t stages) where
  abbrev edges : ℕ → ℕ
  edges s = incoming (entry dependents) stages s

  abbrev degree_map : Map ℤ
  degree_map = count_incoming dependents stages (clear_degrees stages [])

  degree_map-degree : (s : ℕ) → degree_of degree_map s ≡ pos (edges s)
  unfolding find
  degree_map-degree s = ground (
    arith,
    count_incoming-degree dependents stages (clear_degrees stages []) s 0
        (clear_degrees-degree stages [] (λ t. refl) s),
  )

  edges-known : (s : ℕ) → 0 < edges s → In s stages
  edges-known s h =
      let (c, m, _, e) =
        total-lt (λ c. count s (entry dependents c)) [] stages tt distinct (λ a n. absurd n) h in
      closed c s m ((count-In s (entry dependents c)).0 e)

  start-IsCounted :
      IsCounted stages edges
        (incoming (entry dependents) [])
        degree_map
        (ready_stages degree_map stages [])
  start-IsCounted = record {
    degree = λ s. ground (arith, degree_map-degree s);
    pushed = λ s. ground (arith, ready_stages-In degree_map edges degree_map-degree stages [] s);
    once =
        ready_stages-Distinct degree_map edges degree_map-degree stages [] distinct tt
          (λ s m. absurd m);
  }

  drained-IsSorting : IsSorting (entry dependents) stages (
      all_or_failure stages (
        drain
          (entry dependents)
          (suc (length stages))
          (degree_map, ready_stages degree_map stages [])
          []))
  drained-IsSorting =
      let (done, e, v) =
        drain-IsDrained stages edges edges-known (entry dependents) (suc (length stages)) degree_map
          (ready_stages degree_map stages []) [] (omega arith) start-IsCounted tt in
      rw e
        (IsDrained-IsSorting (entry dependents) stages distinct closed edges (λ s m. refl) done v)

-- If no stage is listed twice and the dependents of the stages are stages of the pipeline, the sort
-- returns. It gives an order in which exactly the stages stand, each once and in front of all its
-- dependents, or it fails, and then some stage of the pipeline waits for itself through a chain of
-- dependencies.
pub topological_sort_stages-IsSorting :
    (dependents : Dependents) (stages : List ℕ)
    → Distinct stages
    → ((s t : ℕ) → In s stages → In t (entry dependents s) → In t stages)
    → IsSorting (entry dependents) stages (topological_sort_stages dependents stages)
unfolding topological_sort_stages
topological_sort_stages-IsSorting dependents [] d closed = in_order [] tt (λ s. (λ m. m, λ m. m))
topological_sort_stages-IsSorting dependents (x ∷ stages) d closed =
    drained-IsSorting dependents (x ∷ stages) d closed
