-- ===== src/Expansion/Resources/Assigning.antt =====
-- What the assignment of resources answers.
use acgatea.Common.{
  ℕ, zero, suc, ◌<◌, ◌≡◌, Bool, true, false, Option, none, some, List, [], ◌∷◌, In, inl, inr, arith,
  length, Option-cases, Bool-cases, >>=-eq-some, refl, subst, All,
}
use acgatea.Common.Map.{find}
use acgatea.Expansion.Plan.{PipelineTree, PathExpansionPlan, empty_plan}
use acgatea.Expansion.Resources.{
  first_rules, keep_or_set, is_nil, first_pass, resource_of, sweep, Assigned, assigned, aborted,
  out_of_fuel, again, second_pass, all_resolved, verified, resolve_rest,
  assign_original_stage_resources,
}
use acgatea.Expansion.Resources.Rules.{IsGiven, head, resource_of-keep_or_set, first_rules-Rule}
use acgatea.Expansion.Resources.Passes.{unresolved, unresolved-le, IsRuled, IsSwept, sweep-IsSwept}

module _ (tree : PipelineTree) (all : List ℕ) where
  -- Rules 1 to 4 do not look at the plan.
  abbrev IsRuledAnyway : PathExpansionPlan → Type 0
  IsRuledAnyway plan =
      (p : PathExpansionPlan) (s r : ℕ) → resource_of plan s ≡ some r → IsGiven tree p none all s r

  first_pass-IsRuledAnyway :
      (stages : List ℕ) (left : Option ℕ) (is_first : Bool) (plan plan' : PathExpansionPlan)
      → (is_first ≡ true → left ≡ none)
      → ((p : PathExpansionPlan) (s r : ℕ)
          → IsGiven tree p left stages s r
          → IsGiven tree p none all s r)
      → IsRuledAnyway plan
      → first_pass tree is_first stages plan ≡ some plan'
      → IsRuledAnyway plan'
  unfolding first_pass
  first_pass-IsRuledAnyway [] left is_first plan plan' f lift h e =
      let same : plan ≡ plan' = ground (arith, e) in subst IsRuledAnyway same h
  first_pass-IsRuledAnyway (stage ∷ stages) left is_first plan plan' f lift h e =
      let (op, found_op, k) = >>=-eq-some (find stage tree.operation) _ e in
      let (resource, rules, rest) = >>=-eq-some (first_rules is_first (is_nil stages) op) _ k in
      first_pass-IsRuledAnyway stages (some stage) false (keep_or_set stage resource plan) plan'
        (λ n. absurd (ground (arith, n))) (λ p s r g. lift p s r (inr g))
        (λ p s r n. elim (resource_of-keep_or_set stage resource plan s r n) [
          | inl before ↦ h p s r before
          | inr (same, is_r) ↦
              subst (λ y. IsGiven tree p none all y r) same
                (lift p stage r (
                  inl (
                    refl,
                    first_rules-Rule tree p left stage (head stages) r op is_first (is_nil stages)
                        found_op f (last_none stages) (ground (arith, rules, is_r)),
                  )))
        ])
        rest
    where
      last_none : (xs : List ℕ) → is_nil xs ≡ true → head xs ≡ none
      last_none [] n = refl
      last_none (x ∷ xs) n = cc

  -- The second pass ends, and all resources are given by rules.
  abbrev IsEnd : Assigned → Type 0
  IsEnd (assigned plan) = IsRuled tree all plan
  IsEnd aborted = Unit
  IsEnd out_of_fuel = ⊥

  module _ (left : ℕ) (stages : List ℕ) (within : (s : ℕ) → In s stages → In s all)
      (lift : (p : PathExpansionPlan) (s r : ℕ)
        → IsGiven tree p (some left) stages s r
        → IsGiven tree p none all s r) where
    again-IsEnd :
        (plan : PathExpansionPlan) (rest : PathExpansionPlan → Assigned)
        (o : Option (PathExpansionPlan × Bool))
        → IsRuled tree all plan
        → ((state : PathExpansionPlan × Bool) → o ≡ some state → IsSwept tree all plan false state)
        → ((p : PathExpansionPlan)
            → unresolved tree p all < unresolved tree plan all
            → IsRuled tree all p
            → IsEnd (rest p))
        → IsEnd (again rest o)
    again-IsEnd plan rest none h swept go = tt
    again-IsEnd plan rest (some (p, false)) h swept go = (swept (p, false) refl).ruled h
    again-IsEnd plan rest (some (p, true)) h swept go =
        let v = swept (p, true) refl in
        elim (v.progress refl) [
          | inl n ↦ absurd (ground (arith, n))
          | inr less ↦ go p less (v.ruled h)
        ]

    second_pass-IsEnd :
        (fuel : ℕ) (plan : PathExpansionPlan)
        → unresolved tree plan all < fuel
        → IsRuled tree all plan
        → IsEnd (second_pass fuel tree left stages plan)
    unfolding second_pass
    second_pass-IsEnd zero plan less h = absurd (omega arith)
    second_pass-IsEnd (suc fuel) plan less h =
        again-IsEnd plan (second_pass fuel tree left stages) (sweep tree left stages (plan, false))
          h (λ state e. sweep-IsSwept tree all stages left plan false state within lift e)
          (λ p n k. second_pass-IsEnd fuel p (omega (arith, n)) k)

-- What the assignment has to answer, an abort being a failed assertion.
pub data IsAssignment (tree : PipelineTree) (stages : List ℕ) : Assigned → Type 0 where
  ruled :
      (plan : PathExpansionPlan)
      → All
          (λ s. (r : ℕ) × (resource_of plan s ≡ some r) × IsGiven tree plan none stages s r)
          stages
      → IsAssignment tree stages (assigned plan)
  failed_assertion : IsAssignment tree stages aborted

all_resolved-All :
    (tree : PipelineTree) (all stages : List ℕ) (plan : PathExpansionPlan)
    → IsRuled tree all plan
    → all_resolved stages plan ≡ true
    → All (λ s. (r : ℕ) × (resource_of plan s ≡ some r) × IsGiven tree plan none all s r) stages
unfolding all_resolved
all_resolved-All tree all [] plan h e = tt
all_resolved-All tree all (s ∷ stages) plan h e = (
  elim (Option-cases (resource_of plan s)) [
    | inl n ↦ absurd (ground (arith, n, e))
    | inr (r, k) ↦ (r, k, h s r k)
  ],
  all_resolved-All tree all stages plan h (ground (arith, e)),
)

verified-IsAssignment :
    (tree : PipelineTree) (stages : List ℕ) (a : Assigned)
    → IsEnd tree stages a
    → IsAssignment tree stages (verified stages a)
verified-IsAssignment tree stages (assigned plan) h = elim (Bool-cases (all_resolved stages plan)) [
  | inl e ↦ rw e (ruled plan (all_resolved-All tree stages stages plan h e))
  | inr e ↦ rw e failed_assertion
]
verified-IsAssignment tree stages aborted h = failed_assertion
verified-IsAssignment tree stages out_of_fuel h = absurd h

resolve_rest-IsAssignment :
    (tree : PipelineTree) (stages : List ℕ) (o : Option PathExpansionPlan)
    → ((plan : PathExpansionPlan) → o ≡ some plan → IsRuled tree stages plan)
    → IsAssignment tree stages (resolve_rest tree stages o)
resolve_rest-IsAssignment tree stages none h = failed_assertion
resolve_rest-IsAssignment tree [] (some plan) h = ruled plan tt
resolve_rest-IsAssignment tree (s ∷ stages) (some plan) h =
    verified-IsAssignment tree (s ∷ stages) _ (
      second_pass-IsEnd tree (s ∷ stages) s stages (λ x m. inr m) (λ p x r g. inr g)
        (suc (length (s ∷ stages))) plan (omega (arith, unresolved-le tree plan (s ∷ stages)))
        (h plan refl))

-- For an empty plan, assigning resources to stages comes to an end. Unless an assertion fails, it
-- gives every stage of the list a resource, and for each of them one of the rules gives that resource
-- at a place where the stage stands in the list: its unit, the source of its transfer at the front
-- or the destination at the back, the only side that has a memory space, or the one side when the
-- neighbour beyond the other side was given that other side's memory space.
pub assign_original_stage_resources-IsAssignment :
    (tree : PipelineTree) (stages : List ℕ)
    → IsAssignment tree stages (assign_original_stage_resources tree stages empty_plan)
unfolding assign_original_stage_resources find
assign_original_stage_resources-IsAssignment tree stages =
    resolve_rest-IsAssignment tree stages (first_pass tree true stages empty_plan) (λ plan e.
      first_pass-IsRuledAnyway tree stages stages none true empty_plan plan (λ _. refl)
        (λ p s r g. g) (λ p s r n. absurd (ground (arith, n))) e plan)
