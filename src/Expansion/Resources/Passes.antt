-- ===== src/Expansion/Resources/Passes.antt =====
-- The two passes: each resource is given by a rule, and the second pass ends.
use acgatea.Common.{
  ℕ, suc, ◌≤◌, ◌<◌, ◌≡◌, ◌⊎◌, Bool, true, Option, none, some, List, [], ◌∷◌, if◌then◌else◌, ◌==◌,
  ◌>>=◌, In, inl, inr, arith, length, Option-cases, Bool-cases, >>=-eq-some, refl, subst, is_some,
}
use acgatea.Common.Map.{find}
use acgatea.Expansion.Plan.{StageOp, PipelineTree, PathExpansionPlan}
use acgatea.Expansion.Resources.{
  first_transfer_mem_spaces, assert_some, resource_of, same_resource, rule_5, resolved,
  resolve_stage, sweep, set_resource,
}
use acgatea.Expansion.Resources.Rules.{
  Rule, IsGiven, IsKept, IsGiven-kept, Rule-kept, resource_of-set, from_left, from_right,
}

same_resource-some :
    (a b : Option ℕ) → same_resource a b ≡ true → (x : ℕ) × (a ≡ some x) × (b ≡ some x)
same_resource-some none b h = cc
same_resource-some (some a) none h = cc
same_resource-some (some a) (some b) h = (a, refl, ground (arith, h))

assert_some-eq : (o : Option ℕ) (r : ℕ) → assert_some o ≡ some (some r) → o ≡ some r
assert_some-eq none r h = cc
assert_some-eq (some x) r h = ground (arith, h)

module _ (tree : PipelineTree) where
  rule_5-Rule :
      (plan : PathExpansionPlan) (left stage right : ℕ) (op : StageOp) (r : ℕ)
      → find stage tree.operation ≡ some op
      → rule_5 (resource_of plan left) (resource_of plan right) (first_transfer_mem_spaces op)
        ≡ some (some r)
      → Rule tree plan (some left) stage (some right) r
  rule_5-Rule plan left stage right op r e h =
      let src = (first_transfer_mem_spaces op).0 in
      let dst = (first_transfer_mem_spaces op).1 in
      elim (Bool-cases (same_resource (resource_of plan left) src)) [
        | inl k ↦
            let (a, x, y) = same_resource-some (resource_of plan left) src k in
            from_left op left a e refl x y (assert_some-eq dst r (ground (arith, k, h)))
        | inr k ↦ elim (Bool-cases (same_resource (resource_of plan right) dst)) [
          | inl n ↦
              let (a, x, y) = same_resource-some (resource_of plan right) dst n in
              from_right op right a e refl x y (assert_some-eq src r (ground (arith, k, n, h)))
          | inr n ↦ absurd (ground (arith, k, n, h))
        ]
      ]

  -- What one stage's turn does: nothing, or a rule gives it a resource.
  data Turn (left stage right : ℕ) (plan : PathExpansionPlan) (changed : Bool)
      : PathExpansionPlan × Bool → Type 0 where
    unchanged : Turn left stage right plan changed (plan, changed)
    gives :
        (r : ℕ)
        → resource_of plan stage ≡ none
        → Rule tree plan (some left) stage (some right) r
        → Turn left stage right plan changed (set_resource stage (some r) plan, true)

  resolve_stage-Turn :
      (left stage right : ℕ) (plan : PathExpansionPlan) (changed : Bool)
      (state : PathExpansionPlan × Bool)
      → resolve_stage tree left stage right (plan, changed) ≡ some state
      → Turn left stage right plan changed state
  unfolding resolve_stage
  resolve_stage-Turn left stage right plan changed state h =
      elim (Option-cases (resource_of plan stage)) [
        | inr (r, known) ↦
            let e : (plan, changed) ≡ state = ground (arith, known, h) in
            subst (Turn left stage right plan changed) e unchanged
        | inl open_yet ↦
            let chain : (find stage tree.operation >>= λ op.
            rule_5 (resource_of plan left) (resource_of plan right) (first_transfer_mem_spaces op)
            >>= λ resource. some (resolved stage resource (plan, changed)))
                ≡ some state =
              ground (arith, open_yet, h) in
            let (op, e, k) = >>=-eq-some (find stage tree.operation) _ chain in
            let (o, f, l) =
              >>=-eq-some
                (rule_5 (resource_of plan left) (resource_of plan right)
                  (first_transfer_mem_spaces op))
                _ k in
            elim (Option-cases o) [
              | inl nothing ↦
                  subst (Turn left stage right plan changed) (ground (arith, nothing, l)) unchanged
              | inr (r, is_r) ↦
                  subst (Turn left stage right plan changed) (ground (arith, is_r, l)) (
                    gives r open_yet
                      (rule_5-Rule plan left stage right op r e (ground (arith, f, is_r))))
            ]
      ]

  abbrev pub unresolved : PathExpansionPlan → List ℕ → ℕ
  unresolved plan [] = 0
  unresolved plan (s ∷ stages) =
      if is_some (resource_of plan s) then unresolved plan stages else suc (unresolved plan stages)

  pub unresolved-le :
      (plan : PathExpansionPlan) (stages : List ℕ) → unresolved plan stages ≤ length stages
  unresolved-le plan [] = omega arith
  unresolved-le plan (s ∷ stages) = ground (arith, unresolved-le plan stages)

  unresolved-set_le :
      (stage r : ℕ) (plan : PathExpansionPlan) (stages : List ℕ)
      → unresolved (set_resource stage (some r) plan) stages ≤ unresolved plan stages
  unresolved-set_le stage r plan [] = omega arith
  unresolved-set_le stage r plan (s ∷ stages) =
      ground (arith, resource_of-set stage (some r) plan s, unresolved-set_le stage r plan stages)

  unresolved-set_lt :
      (stage r : ℕ) (plan : PathExpansionPlan) (stages : List ℕ)
      → In stage stages
      → resource_of plan stage ≡ none
      → unresolved (set_resource stage (some r) plan) stages < unresolved plan stages
  unresolved-set_lt stage r plan [] m e = absurd m
  unresolved-set_lt stage r plan (s ∷ stages) m e = ground (
    arith,
    resource_of-set stage (some r) plan s,
    unresolved-set_le stage r plan stages,
    unresolved-set_lt stage r plan stages,
    m,
    e,
  )

  module _ (all : List ℕ) where
    -- Every resource is given by a rule.
    abbrev pub IsRuled : PathExpansionPlan → Type 0
    IsRuled plan = (s r : ℕ) → resource_of plan s ≡ some r → IsGiven tree plan none all s r

    pub record IsSwept (plan : PathExpansionPlan) (changed : Bool)
        (state : PathExpansionPlan × Bool) : Type 0 where
      pub ruled : IsRuled plan → IsRuled state.0
      pub fewer : unresolved state.0 all ≤ unresolved plan all
      pub progress :
          state.1 ≡ true → (changed ≡ true) ⊎ (unresolved state.0 all < unresolved plan all)

    IsSwept-trans :
        (plan : PathExpansionPlan) (changed : Bool) (state : PathExpansionPlan × Bool)
        (state' : PathExpansionPlan × Bool)
        → IsSwept plan changed state
        → IsSwept state.0 state.1 state'
        → IsSwept plan changed state'
    IsSwept-trans plan changed state state' v w = record {
      ruled = λ h. w.ruled (v.ruled h);
      fewer = omega (arith, v.fewer, w.fewer);
      progress = λ h. elim (w.progress h) [
        | inr less ↦ inr (omega (arith, less, v.fewer))
        | inl before ↦ elim (v.progress before) [
          | inl k ↦ inl k
          | inr less ↦ inr (omega (arith, less, w.fewer))
        ]
      ];
    }

    Turn-IsSwept :
        (left stage right : ℕ) (plan : PathExpansionPlan) (changed : Bool)
        (state : PathExpansionPlan × Bool)
        → In stage all
        → ((p : PathExpansionPlan) (r : ℕ)
            → Rule tree p (some left) stage (some right) r
            → IsGiven tree p none all stage r)
        → Turn left stage right plan changed state
        → IsSwept plan changed state
    Turn-IsSwept left stage right plan changed _ m place unchanged = record {
      ruled = λ h. h;
      fewer = omega arith;
      progress = inl;
    }
    Turn-IsSwept left stage right plan changed _ m place (gives r open_yet rule) = record {
      ruled = λ h s x e. elim (Bool-cases (stage == s)) [
        | inl same ↦
            let es : stage ≡ s = ground (arith, same) in
            let ex : r ≡ x = ground (arith, same, e, resource_of-set stage (some r) plan s) in
            subst (λ y. IsGiven tree (set_resource stage (some r) plan) none all y x) es
              (subst (λ y. IsGiven tree (set_resource stage (some r) plan) none all stage y) ex
                (place _ r (Rule-kept tree plan _ (some left) stage (some right) r kept rule)))
        | inr apart ↦
            IsGiven-kept tree plan _ none all s x kept
              (h s x (ground (arith, apart, e, resource_of-set stage (some r) plan s)))
      ];
      fewer = unresolved-set_le stage r plan all;
      progress = λ _. inr (unresolved-set_lt stage r plan all m open_yet);
    }
      where
        kept : IsKept plan (set_resource stage (some r) plan)
        kept s x e = ground (arith, e, open_yet, resource_of-set stage (some r) plan s)

    pub sweep-IsSwept :
        (stages : List ℕ) (left : ℕ) (plan : PathExpansionPlan) (changed : Bool)
        (state : PathExpansionPlan × Bool)
        → ((s : ℕ) → In s stages → In s all)
        → ((p : PathExpansionPlan) (s r : ℕ)
            → IsGiven tree p (some left) stages s r
            → IsGiven tree p none all s r)
        → sweep tree left stages (plan, changed) ≡ some state
        → IsSwept plan changed state
    unfolding sweep
    sweep-IsSwept [] left plan changed state within lift h =
        subst (IsSwept plan changed) (ground (arith, h))
          (record { ruled = λ k. k; fewer = omega arith; progress = inl })
    sweep-IsSwept (stage ∷ []) left plan changed state within lift h =
        subst (IsSwept plan changed) (ground (arith, h))
          (record { ruled = λ k. k; fewer = omega arith; progress = inl })
    sweep-IsSwept (stage ∷ right ∷ stages) left plan changed state within lift h =
        let (mid, e, rest) =
          >>=-eq-some (resolve_stage tree left stage right (plan, changed)) _ h in
        IsSwept-trans plan changed mid state
          (Turn-IsSwept left stage right plan changed mid (within stage (inl refl))
            (λ p r rule. lift p stage r (inl (refl, rule)))
            (resolve_stage-Turn left stage right plan changed mid e))
          (sweep-IsSwept (right ∷ stages) stage mid.0 mid.1 state (λ s m. within s (inr m))
            (λ p s r g. lift p s r (inr g)) rest)
