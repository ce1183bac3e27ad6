-- ===== src/Expansion/Planner/Outcome/Legal.antt =====
-- Whether a path is legal, and the test for it.
use acgatea.Common.{
  ℕ, ◌⊎◌, ◌≡◌, ◌↔◌, true, false, some, List, [], ◌∷◌, inl, inr, arith, Bool-cases, All,
  is_some-witness, if◌then◌else◌, refl, subst, ◌∙◌, ap,
}
use acgatea.Arch.RoutingGraph.{RoutingGraph, load_store_unit, get_node}
use acgatea.Expansion.FullPath.Known.{IsNode}
use acgatea.Expansion.StageList.{is_kind}
use acgatea.Expansion.Planner.{needs_expansion, equal_lists, resources_without_units}
use acgatea.Expansion.Planner.Outcome.Answers.{IsLegal}

equal_lists_iff : (xs ys : List ℕ) → (equal_lists xs ys ≡ true) ↔ (xs ≡ ys)
equal_lists_iff xs ys =
    (equal_lists-eq xs ys, λ e. subst (λ l. equal_lists xs l ≡ true) e (self xs))
  where
    equal_lists-eq : (xs ys : List ℕ) → equal_lists xs ys ≡ true → xs ≡ ys
    equal_lists-eq [] [] h = refl
    equal_lists-eq [] (y ∷ ys) h = cc
    equal_lists-eq (x ∷ xs) [] h = cc
    equal_lists-eq (x ∷ xs) (y ∷ ys) h = ground (arith, h, equal_lists-eq xs ys)

    self : (xs : List ℕ) → equal_lists xs xs ≡ true
    self [] = refl
    self (x ∷ xs) = ground (arith, self xs)

-- A path of nodes of the graph has resources.
resources_without_units-some :
    (g : RoutingGraph) (path : List ℕ)
    → All (IsNode g) path
    → (rs : List ℕ) × (resources_without_units g path ≡ some rs)
unfolding resources_without_units
resources_without_units-some g [] h = ([], refl)
resources_without_units-some g (n ∷ path) h =
    let (node, e) = is_some-witness (get_node g n) h.0 in
    let (rs, f) = resources_without_units-some g path h.1 in
    (if is_kind node.kind load_store_unit then rs else node.resource ∷ rs, rw (e, f) refl)

-- The test for an expansion is answered, and exactly by whether the path is legal.
pub needs_expansion_iff :
    (g : RoutingGraph) (endpoints path : List ℕ)
    → All (IsNode g) path
    → ((needs_expansion g endpoints path ≡ some false) × IsLegal g path endpoints)
      ⊎ ((needs_expansion g endpoints path ≡ some true) × (¬ IsLegal g path endpoints))
unfolding needs_expansion
needs_expansion_iff g endpoints path nodes =
    let (rs, f) = resources_without_units-some g path nodes in
    elim (Bool-cases (equal_lists rs endpoints)) [
      | inl e ↦ inl (ground (arith, f, e), f ∙ ap some ((equal_lists_iff rs endpoints).0 e))
      | inr e ↦ inr (
        ground (arith, f, e),
        λ legal.
            let same : rs ≡ endpoints = ground (arith, f, legal) in
            let yes_equal : equal_lists rs endpoints ≡ true =
              (equal_lists_iff rs endpoints).1 same in
            ground (arith, e, yes_equal),
      )
    ]
