-- ===== src/Stages/Sorting/Sources.antt =====
-- The stages of a pipeline that wait for none, and those that none waits for.
use acgatea.Common.{
  ℕ, ◌≡◌, ◌↔◌, List, [], ◌∷◌, In, In-append, All, arith, is_contained_iff, inl, inr,
}
use acgatea.Stages.Dependencies.{entry}
use acgatea.Stages.Sorting.{
  Dependents, all_dependents, pick_sources, identify_source_stages, identify_sink_stages,
}

-- No stage of the list has `s` among its dependents.
abbrev pub WaitsForNone : Dependents → List ℕ → ℕ → Type 0
WaitsForNone dependents stages s = All (λ p. ¬ In s (entry dependents p)) stages

all_dependents-In :
    (dependents : Dependents) (stages : List ℕ) (s : ℕ)
    → (¬ In s (all_dependents dependents stages)) ↔ WaitsForNone dependents stages s
unfolding all_dependents
all_dependents-In dependents [] s = (λ h. tt, λ h m. m)
all_dependents-In dependents (p ∷ stages) s =
    let (f, g) = all_dependents-In dependents stages s in
    let (a, b) = In-append s (entry dependents p) (all_dependents dependents stages) in
    (
      λ h. (λ m. h (b (inl m)), f (λ m. h (b (inr m)))),
      λ h m. elim (a m) [ inl n ↦ h.0 n | inr n ↦ g h.1 n ],
    )

pick_sources-In :
    (has_incoming stages : List ℕ) (s : ℕ)
    → In s (pick_sources has_incoming stages) ↔ (In s stages × (¬ In s has_incoming))
unfolding pick_sources
pick_sources-In has_incoming [] s = ground arith
pick_sources-In has_incoming (x ∷ stages) s =
    ground (arith, pick_sources-In has_incoming stages s, is_contained_iff x has_incoming)

sink_stages-In :
    (dependents : Dependents) (stages : List ℕ) (s : ℕ)
    → In s (identify_sink_stages dependents stages) ↔ (In s stages × (entry dependents s ≡ []))
unfolding identify_sink_stages
sink_stages-In dependents [] s = ground arith
sink_stages-In dependents (x ∷ stages) s = ground (arith, sink_stages-In dependents stages s)

-- The source stages are exactly the stages that are a dependent of no stage of the pipeline, and the
-- sink stages exactly those that have no dependents.
pub source_and_sink_stages :
    (dependents : Dependents) (stages : List ℕ) (s : ℕ)
    → (In s (identify_source_stages dependents stages)
        ↔ (In s stages × WaitsForNone dependents stages s))
      × (In s (identify_sink_stages dependents stages) ↔ (In s stages × (entry dependents s ≡ [])))
unfolding identify_source_stages
source_and_sink_stages dependents stages s =
    let (a, b) = pick_sources-In (all_dependents dependents stages) stages s in
    let (f, g) = all_dependents-In dependents stages s in
    ((λ m. ((a m).0, f (a m).1), λ h. b (h.0, g h.1)), sink_stages-In dependents stages s)
