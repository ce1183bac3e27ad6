-- ===== src/Arch/MemoryTree/Levels.antt =====
-- The memory levels: `isGlobalMemory`, `isPerCoreScratchPadMemory` and `isBelowScratchPad`.
use acgatea.Common.{
  Option, ◌⊎◌, ◌==◌, ℕ, zero, suc, ◌-◌, ◌≤◌, ◌<◌, ◌≡◌, refl, subst, ◌∙◌, true, none, some, List, [],
  ◌∷◌, In, arith, Bool-cases, ◌↔◌, inl, inr, Option-cases, List-cases,
}
use acgatea.Common.Map.{Map, find}
use acgatea.Arch.MemoryTree.{MemoryNode, MemoryTree, parent_of, get_node}
use acgatea.Arch.MemoryTree.Query.{
  get_node_id_for_resource, get_node_depth, get_nodes_at_depth, is_descendant_of, any_below,
  is_below_scratch_pad, matches_resource, is_alias, node_matches, select_roots, any_matches,
  get_root_nodes, is_per_core_scratch_pad_memory,
}
use acgatea.Arch.MemoryTree.WellFormed.{IsWellFormed}
use acgatea.Arch.MemoryTree.Depth.{
  IsAbove, parent, up, HasDepth, HasDepth-unique, contains_below, node_at, root, below,
  is_descendant_of_iff, get_nodes_at_depth_iff, get_node_depth_iff, get_node_depth_correct,
}

In-select_roots :
    (n : ℕ) (d : MemoryNode) (m : Map MemoryNode)
    → find n m ≡ some d
    → d.parent ≡ none
    → In n (select_roots m)
unfolding find select_roots
In-select_roots n d [] e top = cc
In-select_roots n d ((j, w) ∷ m) e top = ground (arith, In-select_roots n d m)

is_alias_iff : (o : Option ℕ) (r : ℕ) → (is_alias o r ≡ true) ↔ (o ≡ some r)
is_alias_iff none r = (λ h. cc, λ h. cc)
is_alias_iff (some a) r = (λ h. ground (arith, h), λ h. ground (arith, h))

matches_resource_iff :
    (d : MemoryNode) (r : ℕ)
    → (matches_resource d r ≡ true) ↔ ((d.memory_resource ≡ r) ⊎ (d.alias ≡ some r))
matches_resource_iff d r = (
  λ h. elim (Bool-cases (d.memory_resource == r)) [
    | inl e ↦ inl (ground (arith, e))
    | inr e ↦ inr ((is_alias_iff d.alias r).0 (ground (arith, e, h)))
  ],
  λ s. elim s [ inl e ↦ ground (arith, e) | inr e ↦ ground (arith, (is_alias_iff d.alias r).1 e) ],
)

module _ (t : MemoryTree) (v : IsWellFormed t) where
  any_below_iff :
      (n : ℕ) (ss : List ℕ) → (any_below t n ss ≡ true) ↔ ((s : ℕ) × In s ss × IsAbove t s n)
  unfolding any_below
  any_below_iff n [] = (λ h. cc, λ (s, m, _). absurd m)
  any_below_iff n (s ∷ ss) = (
    λ h. elim (Bool-cases (is_descendant_of t n s)) [
      | inl e ↦ (s, inl refl, (is_descendant_of_iff t v n s).0 e)
      | inr e ↦ let (x, m, a) = (any_below_iff n ss).0 (ground arith) in (x, inr m, a)
    ],
    λ (x, m, a). elim m [
      | inl e ↦
          let hit = (is_descendant_of_iff t v n s).1 (subst (λ y. IsAbove t y n) e a) in
          ground arith
      | inr m' ↦ let hit = (any_below_iff n ss).1 (x, m', a) in ground (arith, hit)
    ],
  )

  depth_of_parent :
      (n p k : ℕ) → parent_of t n ≡ some p → HasDepth t n k → (j : ℕ) × (k ≡ suc j) × HasDepth t p j
  depth_of_parent n p _ e (root _ h e') = cc
  depth_of_parent n p _ e (below _ q j e' d) =
      (j, refl, subst (λ x. HasDepth t x j) (ground arith) d)

  -- A node under a node of depth j is deeper.
  IsAbove-depth : (a n j k : ℕ) → IsAbove t a n → HasDepth t a j → HasDepth t n k → j < k
  IsAbove-depth a n j k (parent _ e) da dn =
      let (i, same, d) = depth_of_parent n a k e dn in omega (arith, HasDepth-unique t v a i j d da)
  IsAbove-depth a n j k (up _ p e h) da dn =
      let (i, same, d) = depth_of_parent n p k e dn in omega (arith, IsAbove-depth a p j i h da d)

  -- A node of depth two or more has an ancestor of depth one.
  IsAbove-at_one : (k n : ℕ) → HasDepth t n (suc (suc k)) → (a : ℕ) × HasDepth t a 1 × IsAbove t a n
  IsAbove-at_one zero n (below _ p _ e d) = (p, d, parent n e)
  IsAbove-at_one (suc k) n (below _ p _ e d) =
      let (a, one, h) = IsAbove-at_one k p d in (a, one, up n p e h)

  -- In a well-formed tree, `isBelowScratchPad` holds of a resource (or of an alias of one) exactly if it names a node whose
  -- depth in the tree is at least two.
  pub is_below_scratch_pad_iff :
      (r : ℕ)
      → (is_below_scratch_pad t r ≡ true) ↔ (
          (n : ℕ) × (k : ℕ) × (get_node_id_for_resource t r ≡ some n)
          × (get_node_depth t n ≡ some k)
          × (2 ≤ k))
  unfolding is_below_scratch_pad
  is_below_scratch_pad_iff r = elim (Option-cases (get_node_id_for_resource t r)) [
    | inl e ↦ (λ h. cc (rw (e, is_below_scratch_pad) at h), λ (n, k, e', _, _). cc)
    | inr (n, e) ↦ (
      λ h.
          let (a, m, above) =
            (any_below_iff n (get_nodes_at_depth t 1)).0 (rw (e, is_below_scratch_pad) at h) in
          let one = (get_nodes_at_depth_iff t v 1 a).0 m in
          let (k, depth, deep) = get_node_depth_correct t v n (contains_below t v n a above) in
          (n, k, e, depth, IsAbove-depth a n 1 k above one deep),
      λ (n', k, e', depth, two).
          let same : n' ≡ n = ground arith in
          let deep = (get_node_depth_iff t v n' k).0 depth in
          let split : k ≡ suc (suc (k - 2)) = omega arith in
          let (a, one, above) =
            IsAbove-at_one (k - 2) n
              (subst (HasDepth t n) split (subst (λ x. HasDepth t x k) same deep)) in
          rw (e, is_below_scratch_pad)
            ((any_below_iff n (get_nodes_at_depth t 1)).1
              (a, (get_nodes_at_depth_iff t v 1 a).1 one, above)),
    )
  ]

  node_matches_witness :
      (n r : ℕ)
      → node_matches (get_node t n) r ≡ true
      → (d : MemoryNode) × (get_node t n ≡ some d) × (matches_resource d r ≡ true)
  node_matches_witness n r h = elim (Option-cases (get_node t n)) [
    | inl e ↦ cc
    | inr (d, e) ↦ (d, e, ground arith)
  ]

  any_matches_iff :
      (r : ℕ) (ns : List ℕ)
      → (any_matches t r ns ≡ true) ↔ (
          (n : ℕ) × (d : MemoryNode) × In n ns
          × (get_node t n ≡ some d)
          × (matches_resource d r ≡ true))
  unfolding any_matches
  any_matches_iff r [] = (λ h. cc, λ (n, d, m, _, _). absurd m)
  any_matches_iff r (n ∷ ns) = (
    λ h. elim (Bool-cases (node_matches (get_node t n) r)) [
      | inl hit ↦ let (d, at, ok) = node_matches_witness n r hit in (n, d, inl refl, at, ok)
      | inr miss ↦
          let (x, d, m, at, ok) = (any_matches_iff r ns).0 (ground arith) in (x, d, inr m, at, ok)
    ],
    λ (x, d, m, at, ok). elim m [
      | inl e ↦ ground arith
      | inr m' ↦ let rest = (any_matches_iff r ns).1 (x, d, m', at, ok) in ground (arith, rest)
    ],
  )

  early :
      (r : ℕ)
      → is_per_core_scratch_pad_memory t r ≡ true
      → any_matches t r (get_nodes_at_depth t 1) ≡ true
  unfolding is_per_core_scratch_pad_memory
  early r h = ground arith

  late :
      (r : ℕ)
      → ((x : ℕ) × In x (get_root_nodes t))
      → any_matches t r (get_nodes_at_depth t 1) ≡ true
      → is_per_core_scratch_pad_memory t r ≡ true
  unfolding is_per_core_scratch_pad_memory
  late r (x, m) h = elim (List-cases (get_root_nodes t)) [
    | inl e ↦ absurd (subst (In x) e m)
    | inr (y, ys, e) ↦ rw (e, is_per_core_scratch_pad_memory) h
  ]

  -- The parent of a node of depth one is a root.
  root_of_one : (n : ℕ) → HasDepth t n 1 → (x : ℕ) × In x (get_root_nodes t)
  root_of_one n (below _ p _ e (root _ h none_above)) =
      let (d, at, same) = node_at t p h in (p, In-select_roots p d t.nodes at (same ∙ none_above))

  -- In a well-formed tree, `isPerCoreScratchPadMemory` holds of a resource exactly if a node of depth
  -- one has it as its resource or as the one alias that a node can have.
  pub is_per_core_scratch_pad_memory_iff :
      (r : ℕ)
      → (is_per_core_scratch_pad_memory t r ≡ true) ↔ (
          (n : ℕ) × (d : MemoryNode) × (get_node_depth t n ≡ some 1)
          × (get_node t n ≡ some d)
          × ((d.memory_resource ≡ r) ⊎ (d.alias ≡ some r)))
  unfolding is_per_core_scratch_pad_memory
  is_per_core_scratch_pad_memory_iff r = (
    λ h.
        let (n, d, m, at, ok) = (any_matches_iff r (get_nodes_at_depth t 1)).0 (early r h) in
        (
          n,
          d,
          (get_node_depth_iff t v n 1).1 ((get_nodes_at_depth_iff t v 1 n).0 m),
          at,
          (matches_resource_iff d r).0 ok,
        ),
    λ (n, d, depth, at, ok).
        let one = (get_node_depth_iff t v n 1).0 depth in
        let hit =
          (any_matches_iff r (get_nodes_at_depth t 1)).1
            (n, d, (get_nodes_at_depth_iff t v 1 n).1 one, at, (matches_resource_iff d r).1 ok) in
        late r (root_of_one n one) hit,
  )
