-- ===== src/Arch/MemoryTree/Aliases.antt =====
-- The queries of `MemoryTree` that go by resource, and the relation of naming the same memory.
use acgatea.Common.{
  ℕ, ◌≡◌, Bool, true, false, Option, none, some, List, [], ◌∷◌, if◌then◌else◌, arith, is_some, ◌↔◌,
  ◌⊎◌, inl, inr, Option-cases, Bool-cases, ◌==◌,
}
use acgatea.Common.Map.{Map, find}
use acgatea.Arch.MemoryTree.{MemoryNode, MemoryTree, get_node}
use acgatea.Arch.MemoryTree.Query.{
  get_node_by_resource, get_node_id_for_resource, is_descendant_of, are_aliases,
}

unfoldable pub is_descendant_of_by_resource : MemoryTree → ℕ → ℕ → Bool
is_descendant_of_by_resource t descendant ancestor = elim (get_node_id_for_resource t descendant) [
  | none ↦ false
  | some d ↦ elim (get_node_id_for_resource t ancestor) [
    | none ↦ false
    | some a ↦ is_descendant_of t d a
  ]
]

abbrev pub get_reserved : MemoryTree → ℕ → Option ℕ
get_reserved t r = elim (get_node_by_resource t r) [ none ↦ none | some d ↦ d.reserved_in_bytes ]

unfoldable pub select_with_capacity : Map MemoryNode → List ℕ
select_with_capacity [] = []
select_with_capacity ((n, d) ∷ m) =
    if is_some d.capacity_in_bytes
    then d.memory_resource ∷ select_with_capacity m
    else select_with_capacity m

abbrev pub get_memory_resources_with_capacity : MemoryTree → List ℕ
get_memory_resources_with_capacity t = select_with_capacity t.nodes

abbrev pub alias_list : Option ℕ → List ℕ
alias_list none = []
alias_list (some a) = a ∷ []

unfoldable pub get_aliases : MemoryTree → ℕ → List ℕ
get_aliases t r = elim (get_node_id_for_resource t r) [
  | none ↦ r ∷ []
  | some n ↦ elim (get_node t n) [ none ↦ r ∷ [] | some d ↦ d.memory_resource ∷ alias_list d.alias ]
]

-- The node of a resource: the one that has it, or else the one that it is an alias of.
pub data IsNamed (t : MemoryTree) (r n : ℕ) : Type 0 where
  canonical : find r t.resource_to_node ≡ some n → IsNamed t r n
  by_alias : find r t.resource_to_node ≡ none → find r t.alias_to_node ≡ some n → IsNamed t r n

get_node_id_for_resource_iff :
    (t : MemoryTree) (r n : ℕ) → (get_node_id_for_resource t r ≡ some n) ↔ IsNamed t r n
unfolding get_node_id_for_resource
get_node_id_for_resource_iff t r n = elim (Option-cases (find r t.resource_to_node)) [
  | inl e ↦ (
    λ h. by_alias e (ground (arith, e, h)),
    λ s. elim s [
      | canonical k ↦ absurd (ground (arith, e, k))
      | by_alias _ k ↦ ground (arith, e, k)
    ],
  )
  | inr (m, e) ↦ (
    λ h. canonical (ground (arith, e, h)),
    λ s. elim s [ canonical k ↦ ground (arith, k) | by_alias k _ ↦ absurd (ground (arith, e, k)) ],
  )
]

-- In every tree, `areAliases` holds of two resources exactly if they are equal or both name the same
-- node: as its canonical resource, or, if a resource is no canonical one, by the table of aliases.
pub are_aliases_iff :
    (t : MemoryTree) (r s : ℕ)
    → (are_aliases t r s ≡ true) ↔ ((r ≡ s) ⊎ ((n : ℕ) × IsNamed t r n × IsNamed t s n))
unfolding are_aliases
are_aliases_iff t r s = (
  λ h. elim (Bool-cases (r == s)) [
    | inl e ↦ inl (ground (arith, e))
    | inr e ↦ elim (Option-cases (get_node_id_for_resource t r)) [
      | inl k ↦ absurd (ground (arith, e, k, h))
      | inr (n, k) ↦
          let other : get_node_id_for_resource t s ≡ some n = ground (arith, e, k, h) in
          inr (
            n,
            (get_node_id_for_resource_iff t r n).0 k,
            (get_node_id_for_resource_iff t s n).0 other,
          )
    ]
  ],
  λ p. elim p [
    | inl e ↦ ground (arith, e)
    | inr (n, a, b) ↦
        ground (
          arith,
          (get_node_id_for_resource_iff t r n).1 a,
          (get_node_id_for_resource_iff t s n).1 b,
        )
  ],
)

module _ (t : MemoryTree) where
  -- In every tree, naming the same memory is an equivalence of resources.
  are_aliases-IsEquivalence :
      ((r : ℕ) → are_aliases t r r ≡ true)
      × ((r s : ℕ) → are_aliases t r s ≡ true → are_aliases t s r ≡ true)
      × ((r s u : ℕ)
          → are_aliases t r s ≡ true
          → are_aliases t s u ≡ true
          → are_aliases t r u ≡ true)
  unfolding are_aliases
  are_aliases-IsEquivalence =
      (λ r. ground arith, λ r s h. ground (arith, h), λ r s u h k. ground (arith, h, k))
