-- ===== src/Arch/MemoryTree/Path.antt =====
-- `MemoryTree::getPath` between two nodes: what it returns is a route along parent links, and where
-- the target is an ancestor that has a parent of its own the route runs past it and comes back.
use acgatea.Common.{
  ℕ, zero, suc, ◌<◌, ◌≡◌, refl, ap, subst, ◌∙◌, true, some, List, [], ◌∷◌, ◌++◌, append_assoc,
  arith, Bool-cases, inl, inr, is_contained, is_contained_iff,
}
use acgatea.Common.Map.{contains}
use acgatea.Arch.MemoryTree.{MemoryTree, parent_of}
use acgatea.Arch.MemoryTree.Query.{climb_to, up_to, join_path, get_path}
use acgatea.Arch.MemoryTree.WellFormed.{IsWellFormed}
use acgatea.Arch.MemoryTree.Depth.{IsAbove, parent, up, node_at, contains_of_parent}
use acgatea.Arch.MemoryTree.Chains.{
  IsRoute, UpChain, ancestors_correct, climb_to_correct, without_head, up_to-IsRoute, IsAtOrAbove,
  HasCommon, above_parent, In_ancestors, ancestors_In, IsAtOrAbove-trans, DownChain-IsAtOrAbove,
  root_above, stopped, no_common,
}

-- Between two nodes of a well-formed tree `getPath` returns. If they have a node in common on their
-- ways up, then the result is a route from the first to the second, each node the parent or a child of
-- the one before it; if they have none, then it is empty.
pub get_path_correct :
    (t : MemoryTree) (v : IsWellFormed t) (s u : ℕ)
    → contains s t.nodes ≡ true
    → contains u t.nodes ≡ true
    → (p : List ℕ) × (get_path t s u ≡ some p)
      × (HasCommon t s u → IsRoute t s u p)
      × (¬ HasCommon t s u → p ≡ [])
unfolding get_path join_path
get_path_correct t v s u in_s in_u =
    let (r, up_done, chain) = ancestors_correct t v t.next_node_id s (v.below s in_s) in_s in
    let (c, w, climbed, down, ends, stop) =
      climb_to_correct t v (s ∷ r) t.next_node_id u [] (v.below u in_u) in_u tt in
    let above_u : IsAtOrAbove t c u =
      subst (IsAtOrAbove t c) ends (DownChain-IsAtOrAbove t c w down) in
    let path : get_path t s u ≡ some (join_path (s ∷ r) (c ∷ w)) = ground arith in
    elim (Bool-cases (is_contained c (s ∷ r))) [
      | inl hit ↦
          let m = (is_contained_iff c (s ∷ r)).0 hit in
          (
            up_to c (s ∷ r) ++ w,
            path ∙ ap some (rw (hit, join_path) (rw (without_head t v c w down))),
            λ _.
                subst (λ x. IsRoute t s x (up_to c (s ∷ r) ++ w)) ends
                  (up_to-IsRoute t c s r w chain m down),
            λ no. absurd (no (c, ancestors_In t c s r chain m, above_u)),
          )
      | inr miss ↦ (
        [],
        path ∙ ap some (rw (miss, join_path)),
        λ (a, above_s, above_a). absurd (
            no_common t s r c miss chain (
              IsAtOrAbove-trans t c a s
                (root_above t c a u (stopped t c (s ∷ r) miss stop) above_u above_a) above_s)),
        λ _. refl,
      )
    ]

IsAbove-lt : (t : MemoryTree) (v : IsWellFormed t) (a n : ℕ) → IsAbove t a n → a < n
IsAbove-lt t v a n (parent _ e) = v.older n a e
IsAbove-lt t v a n (up _ p e h) = omega (arith, IsAbove-lt t v a p h, v.older n p e)

up_to_past :
    (t : MemoryTree) (v : IsWellFormed t) (u c x : ℕ) (r : List ℕ)
    → UpChain t (x ∷ r)
    → IsAtOrAbove t u x
    → parent_of t u ≡ some c
    → (xs : List ℕ) × (up_to c (x ∷ r) ≡ xs ++ u ∷ c ∷ [])
unfolding up_to
up_to_past t v u c x [] chain (inl e) pu = cc
up_to_past t v u c x [] chain (inr (parent _ e)) pu = cc
up_to_past t v u c x [] chain (inr (up _ p e h)) pu = cc
up_to_past t v u c x (y ∷ r) chain (inl e) pu = ([], ground (arith, v.older u c pu))
up_to_past t v u c x (y ∷ r) chain (inr h) pu =
    let (xs, rest) = up_to_past t v u c y r chain.1 (above_parent t u x y chain.0 h) pu in
    let lt = IsAbove-lt t v u x h in let lt' = v.older u c pu in (x ∷ xs, ground arith)

climb_to_at :
    (t : MemoryTree) (src : List ℕ) (fuel u c : ℕ) (r : List ℕ)
    → 0 < fuel
    → contains u t.nodes ≡ true
    → parent_of t u ≡ some c
    → is_contained c src ≡ true
    → climb_to t src fuel u r ≡ some (c ∷ r)
unfolding climb_to
climb_to_at t src zero u c r lt in_u pu hit = absurd (omega arith)
climb_to_at t src (suc fuel) u c r lt in_u pu hit =
    let (d, at, same) = node_at t u in_u in ground arith

-- The detour, in a well-formed tree: from a node to an ancestor (or to itself) that is no root, the path climbs past its
-- target to the target's parent and steps back down, so that it visits the target twice.
pub get_path_detour :
    (t : MemoryTree) (v : IsWellFormed t) (s u c : ℕ)
    → contains s t.nodes ≡ true
    → IsAtOrAbove t u s
    → parent_of t u ≡ some c
    → (xs : List ℕ) × (get_path t s u ≡ some (xs ++ u ∷ c ∷ u ∷ []))
unfolding get_path join_path
get_path_detour t v s u c in_s above pu =
    let in_u = contains_of_parent t u c pu in
    let (r, up_done, chain) = ancestors_correct t v t.next_node_id s (v.below s in_s) in_s in
    let (xs, past) = up_to_past t v u c s r chain above pu in
    let at_c : IsAtOrAbove t c s = IsAtOrAbove-trans t c u s (inr (parent u pu)) above in
    let hit = (is_contained_iff c (s ∷ r)).1 (In_ancestors t c s r chain at_c) in
    let climbed =
      climb_to_at t (s ∷ r) t.next_node_id u c (u ∷ []) (omega (arith, v.below u in_u)) in_u pu
        hit in
    let tail = without_head t v c (u ∷ []) (pu, tt) in
    let path : get_path t s u ≡ some (join_path (s ∷ r) (c ∷ u ∷ [])) = ground arith in
    (
      xs,
      path
          ∙ ap some
              (rw (hit, join_path) (rw tail (rw past (append_assoc xs (u ∷ c ∷ []) (u ∷ []))))),
    )
