-- ===== src/Expansion/Chain/Sorted.antt =====
-- The order that the sort and the validation give is the one chain of the stages.
use acgatea.Common.{
  ℕ, ◌≡◌, ◌↔◌, true, some, List, [], ◌∷◌, In, All-In, inl, inr, arith, Bool-cases, refl, sym, ◌∙◌,
  subst, Distinct,
}
use acgatea.Stages.Dependencies.{entry}
use acgatea.Stages.Sorting.{Dependents, Sorting, sorted, failure, out_of_fuel}
use acgatea.Stages.Sorting.Topological.{
  IsTopological, IsSorting, in_order, in_cycle, Reaches, edge, further,
}
use acgatea.Stages.Sorting.ByTree.{topological_sort_stages-IsSorting}
use acgatea.Expansion.Chain.{
  if_linear, validate_linear_chain, sort_and_validate_linear_pipeline_stages,
}
use acgatea.Expansion.Chain.Linear.{IsLinear, IsChain, validate_linear_chain_iff}

module _ (successors : ℕ → List ℕ) where
  successor-In :
      (order : List ℕ) (a b : ℕ)
      → IsTopological successors order
      → In a order
      → In b (successors a)
      → In b order
  successor-In [] a b t m n = absurd m
  successor-In (x ∷ order) a b t (inl e) n =
      inr (All-In (λ y. In y order) (successors x) t.1 b (subst (λ v. In b (successors v)) e n))
  successor-In (x ∷ order) a b t (inr m) n = inr (successor-In order a b t.2 m n)

  Reaches-In :
      (order : List ℕ) (a b : ℕ)
      → IsTopological successors order
      → In a order
      → Reaches successors a b
      → In b order
  Reaches-In order a b t m (edge _ n) = successor-In order a b t m n
  Reaches-In order a b t m (further c _ r n) =
      successor-In order c b t (Reaches-In order a c t m r) n

  first-Reaches :
      (x : ℕ) (order : List ℕ) (b : ℕ)
      → IsTopological successors (x ∷ order)
      → Reaches successors x b
      → In b order
  first-Reaches x order b t (edge _ n) = All-In (λ y. In y order) (successors x) t.1 b n
  first-Reaches x order b t (further c _ r n) =
      successor-In order c b t.2 (first-Reaches x order c t r) n

  IsTopological-acyclic :
      (order : List ℕ) (a : ℕ)
      → IsTopological successors order
      → In a order
      → ¬ Reaches successors a a
  IsTopological-acyclic [] a t m r = m
  IsTopological-acyclic (x ∷ order) a t (inl e) r =
      t.0 (first-Reaches x order x t (subst (λ v. Reaches successors v v) e r))
  IsTopological-acyclic (x ∷ order) a t (inr m) r = IsTopological-acyclic order a t.2 m r

-- In a chain every stage behind the first one is the dependent of some stage.
predecessor-In :
    (dependents : Dependents) (s : ℕ) (stages : List ℕ) (u : ℕ)
    → IsLinear dependents (s ∷ stages)
    → In u stages
    → (p : ℕ) × In p (s ∷ stages) × In u (entry dependents p)
predecessor-In dependents s [] u l m = absurd m
predecessor-In dependents s (t ∷ stages) u l (inl e) = (s, inl refl, subst (In u) (sym l.0) (inl e))
predecessor-In dependents s (t ∷ stages) u l (inr m) =
    let (p, n, k) = predecessor-In dependents t stages u l.1 m in (p, inr n, k)

IsLinear-tail :
    (dependents : Dependents) (s : ℕ) (stages : List ℕ)
    → IsLinear dependents (s ∷ stages)
    → IsLinear dependents stages
IsLinear-tail dependents s [] l = tt
IsLinear-tail dependents s (t ∷ stages) l = l.1

-- Any topological order of the stages of a chain is the chain.
chain_unique :
    (dependents : Dependents) (chain order : List ℕ)
    → IsLinear dependents chain
    → IsTopological (entry dependents) chain
    → IsTopological (entry dependents) order
    → ((s : ℕ) → In s order ↔ In s chain)
    → order ≡ chain
chain_unique dependents [] [] l tc to same = refl
chain_unique dependents [] (x ∷ order) l tc to same = absurd ((same x).0 (inl refl))
chain_unique dependents (s ∷ chain) [] l tc to same = absurd ((same s).1 (inl refl))
chain_unique dependents (s ∷ chain) (x ∷ order) l tc to same =
    let e : x ≡ s = elim ((same x).0 (inl refl)) [
      | inl e ↦ e
      | inr m ↦
          let (p, n, k) = predecessor-In dependents s chain x l m in
          absurd (elim ((same p).1 n) [
            | inl e ↦ to.0 (
                All-In (λ y. In y order) (entry dependents x) to.1 x
                  (subst (λ v. In x (entry dependents v)) e k))
            | inr later ↦ to.0 (successor-In (entry dependents) order p x to.2 later k)
          ])
    ] in
    let rest : order ≡ chain =
      chain_unique dependents chain order (IsLinear-tail dependents s chain l) tc.2 to.2 (λ y. (
        λ m. elim ((same y).0 (inr m)) [
          | inl k ↦ absurd (to.0 (subst (λ v. In v order) (k ∙ sym e) m))
          | inr n ↦ n
        ],
        λ m. elim ((same y).1 (inr m)) [
          | inl k ↦ absurd (tc.0 (subst (λ v. In v chain) (k ∙ e) m))
          | inr n ↦ n
        ],
      )) in
    cc

module _ (dependents : Dependents) (stages : List ℕ) where
  if_linear-IsChain :
      (result : Sorting) (order : List ℕ)
      → IsSorting (entry dependents) stages result
      → if_linear dependents result ≡ some order
      → IsChain dependents stages order
  if_linear-IsChain (sorted o) order (in_order _ t same) e =
      elim (Bool-cases (validate_linear_chain dependents o)) [
        | inl h ↦
            let k : o ≡ order = ground (arith, h, e) in
            subst (IsChain dependents stages) k
              (t, (validate_linear_chain_iff dependents o t).0 h, same)
        | inr h ↦ absurd (ground (arith, h, e))
      ]
  if_linear-IsChain failure order (in_cycle s m r) e = cc
  if_linear-IsChain out_of_fuel order h e = elim h [ ]

  IsChain-if_linear :
      (result : Sorting) (order : List ℕ)
      → IsSorting (entry dependents) stages result
      → IsChain dependents stages order
      → if_linear dependents result ≡ some order
  IsChain-if_linear (sorted o) order (in_order _ t same) (tc, l, all) =
      let k : o ≡ order =
        chain_unique dependents order o l tc t
          (λ s. (λ m. (all s).1 ((same s).0 m), λ m. (same s).1 ((all s).0 m))) in
      let h : validate_linear_chain dependents o ≡ true =
        (validate_linear_chain_iff dependents o t).1 (subst (IsLinear dependents) (sym k) l) in
      ground (arith, h, k)
  IsChain-if_linear failure order (in_cycle s m r) (tc, l, all) =
      absurd (IsTopological-acyclic (entry dependents) order s tc ((all s).1 m) r)
  IsChain-if_linear out_of_fuel order h c = elim h [ ]

-- If no stage is listed twice and the dependents of the stages are stages of the pipeline, then
-- sorting and validating gives `order` exactly if `order` holds the stages, each once, and each has
-- the next one as its only dependent, and the last has none. It fails exactly if there is no such
-- order.
pub sort_and_validate-IsChain :
    (dependents : Dependents) (stages order : List ℕ)
    → Distinct stages
    → ((s t : ℕ) → In s stages → In t (entry dependents s) → In t stages)
    → (sort_and_validate_linear_pipeline_stages dependents stages ≡ some order)
      ↔ IsChain dependents stages order
unfolding sort_and_validate_linear_pipeline_stages
sort_and_validate-IsChain dependents stages order d closed =
    let answer = topological_sort_stages-IsSorting dependents stages d closed in
    (
      if_linear-IsChain dependents stages _ order answer,
      IsChain-if_linear dependents stages _ order answer,
    )
