-- ===== src/Arch/MemoryTree/Depth.antt =====
-- The walks up the tree: `getNodeDepth` and `isDescendantOf` against the relations that they decide.
use acgatea.Common.{
  ℕ, zero, suc, ◌+◌, ◌<◌, ◌≡◌, refl, sym, ap, subst, ◌∙◌, true, none, some, List, [], ◌∷◌, In,
  arith, ◌==◌, ==_iff, Bool-cases, ◌↔◌, inl, inr, Option-cases, is_some-witness,
}
use acgatea.Common.Map.{find, contains, find-In}
use acgatea.Arch.MemoryTree.{MemoryNode, MemoryTree, parent_of}
use acgatea.Arch.MemoryTree.Query.{
  depth_loop, get_node_depth, get_all_node_ids, select_depth, get_nodes_at_depth, descendant_loop,
  is_descendant_of,
}
use acgatea.Arch.MemoryTree.WellFormed.{IsWellFormed}

-- The ancestors of a node, the node itself excluded.
pub data IsAbove (t : MemoryTree) (a : ℕ) : ℕ → Type 0 where
  parent : (c : ℕ) → parent_of t c ≡ some a → IsAbove t a c
  up : (c p : ℕ) → parent_of t c ≡ some p → IsAbove t a p → IsAbove t a c

-- The distance of an existing node from its root.
pub data HasDepth (t : MemoryTree) : ℕ → ℕ → Type 0 where
  root : (n : ℕ) → contains n t.nodes ≡ true → parent_of t n ≡ none → HasDepth t n 0
  below : (n p k : ℕ) → parent_of t n ≡ some p → HasDepth t p k → HasDepth t n (suc k)

pub contains_of_parent :
    (t : MemoryTree) (c p : ℕ) → parent_of t c ≡ some p → contains c t.nodes ≡ true
contains_of_parent t c p h = ground arith

-- The node at an id, from its parent.
pub node_at :
    (t : MemoryTree) (c : ℕ)
    → contains c t.nodes ≡ true
    → (d : MemoryNode) × (find c t.nodes ≡ some d) × (d.parent ≡ parent_of t c)
node_at t c h = let (d, e) = is_some-witness (find c t.nodes) h in (d, e, ground arith)

module _ (t : MemoryTree) (v : IsWellFormed t) where
  descendant_loop_sound : (fuel n a : ℕ) → descendant_loop t fuel n a ≡ true → IsAbove t a n
  unfolding descendant_loop
  descendant_loop_sound zero n a h = cc
  descendant_loop_sound (suc fuel) n a h = elim (Option-cases (parent_of t n)) [
    | inl e ↦ cc (rw (e, descendant_loop) at h)
    | inr (p, e) ↦ elim (Bool-cases (p == a)) [
      | inl hit ↦ parent n (e ∙ ap some ((==_iff p a).0 hit))
      | inr miss ↦ up n p e (descendant_loop_sound fuel p a (ground arith))
    ]
  ]

  descendant_loop_complete :
      (fuel n a : ℕ) → n < fuel → IsAbove t a n → descendant_loop t fuel n a ≡ true
  unfolding descendant_loop
  descendant_loop_complete zero n a lt h = absurd (omega arith)
  descendant_loop_complete (suc fuel) n a lt (parent _ e) = ground arith
  descendant_loop_complete (suc fuel) n a lt (up _ p e h) =
      ground (arith, descendant_loop_complete fuel p a (omega (arith, v.older n p e)) h)

  -- The upper end of a walk is a node.
  pub contains_above : (a n : ℕ) → IsAbove t a n → contains a t.nodes ≡ true
  contains_above a n (parent _ e) = v.present n a e
  contains_above a n (up _ p e h) = contains_above a p h

  pub contains_below : (n a : ℕ) → IsAbove t a n → contains n t.nodes ≡ true
  contains_below n a (parent _ e) = contains_of_parent t n a e
  contains_below n a (up _ p e h) = contains_of_parent t n p e

  -- In a well-formed tree, `isDescendantOf` decides the strict ancestor relation.
  pub is_descendant_of_iff : (n a : ℕ) → (is_descendant_of t n a ≡ true) ↔ IsAbove t a n
  unfolding is_descendant_of
  is_descendant_of_iff n a = (
    λ h. descendant_loop_sound t.next_node_id n a (ground arith),
    λ h.
        let in_n = contains_below n a h in
        let loops = descendant_loop_complete t.next_node_id n a (v.below n in_n) h in
        ground (arith, in_n, contains_above a n h, loops),
  )

  depth_loop_correct :
      (fuel n k : ℕ)
      → n < fuel
      → contains n t.nodes ≡ true
      → (d : ℕ) × (depth_loop t fuel n k ≡ some (k + d)) × HasDepth t n d
  unfolding depth_loop
  depth_loop_correct zero n k lt h = absurd (omega arith)
  depth_loop_correct (suc fuel) n k lt h = elim (Option-cases (parent_of t n)) [
    | inl e ↦ let (d, at, same) = node_at t n h in (0, ground arith, root n h e)
    | inr (p, e) ↦
        let (d, at, same) = node_at t n h in
        let (j, done, deep) =
          depth_loop_correct fuel p (k + 1) (omega (arith, v.older n p e)) (v.present n p e) in
        (suc j, ground arith, below n p j e deep)
  ]

  -- On every node of a well-formed tree `getNodeDepth` returns, and gives the distance from the root.
  pub get_node_depth_correct :
      (n : ℕ) → contains n t.nodes ≡ true → (k : ℕ) × (get_node_depth t n ≡ some k) × HasDepth t n k
  unfolding get_node_depth
  get_node_depth_correct n h =
      let (k, e, deep) = depth_loop_correct t.next_node_id n 0 (v.below n h) h in
      (k, ground arith, deep)

  pub HasDepth-contains : (n k : ℕ) → HasDepth t n k → contains n t.nodes ≡ true
  HasDepth-contains n _ (root _ h e) = h
  HasDepth-contains n _ (below _ p k e d) = contains_of_parent t n p e

  pub HasDepth-unique : (n j k : ℕ) → HasDepth t n j → HasDepth t n k → j ≡ k
  HasDepth-unique n _ _ (root _ h e) (root _ h' e') = refl
  HasDepth-unique n _ _ (root _ h e) (below _ p k e' d) = cc
  HasDepth-unique n _ _ (below _ p k e d) (root _ h' e') = cc
  HasDepth-unique n _ _ (below _ p j e d) (below _ q k e' d') =
      let same : p ≡ q = ground arith in
      ap suc (HasDepth-unique p j k d (subst (λ x. HasDepth t x k) (sym same) d'))

  contains_of_depth : (n k : ℕ) → get_node_depth t n ≡ some k → contains n t.nodes ≡ true
  unfolding get_node_depth
  contains_of_depth n k h = ground arith

  pub get_node_depth_iff : (n k : ℕ) → (get_node_depth t n ≡ some k) ↔ HasDepth t n k
  get_node_depth_iff n k = (
    λ h.
        let (j, e, d) = get_node_depth_correct n (contains_of_depth n k h) in
        subst (HasDepth t n) (ground arith) d,
    λ d.
        let (j, e, d') = get_node_depth_correct n (HasDepth-contains n k d) in
        e ∙ ap some (HasDepth-unique n j k d' d),
  )

  select_depth_iff :
      (k : ℕ) (ns : List ℕ) (n : ℕ) → In n (select_depth t k ns) ↔ (In n ns × HasDepth t n k)
  unfolding select_depth
  select_depth_iff k [] n = (λ h. absurd h, λ h. absurd h.0)
  select_depth_iff k (m ∷ ns) n = ground (arith, select_depth_iff k ns n, get_node_depth_iff m k)

  -- In a well-formed tree, the nodes that are listed at a depth are the nodes of that depth.
  pub get_nodes_at_depth_iff : (k n : ℕ) → In n (get_nodes_at_depth t k) ↔ HasDepth t n k
  get_nodes_at_depth_iff k n = (
    λ h. ((select_depth_iff k (get_all_node_ids t) n).0 h).1,
    λ d.
        (select_depth_iff k (get_all_node_ids t) n).1
          (find-In n t.nodes (HasDepth-contains n k d), d),
  )
