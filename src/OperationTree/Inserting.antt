-- ===== src/OperationTree/Inserting.antt =====
-- `insertChildNode` inserts into the list of children.
use acgatea.Common.{
  ℕ, ◌≡◌, ◌⊎◌, Option, none, some, List, [], ◌∷◌, ◌++◌, ◌==◌, ◌>>=◌, In, In-append, inl, inr, arith,
  length, length-append, Distinct, Distinct-append_one, Distinct-append, Bool-cases, >>=-eq-some,
  refl, sym, subst, ◌∙◌, ap, append_assoc,
}
use acgatea.Common.Map.{find, assign, find-assign_self, find-assign_ne}
use acgatea.OperationTree.{
  Node, Heap, last_sibling, get_last_child, link_child, insert_child_node, insert_as_first_child,
}
use acgatea.OperationTree.Children.{insert_after, insert_in_children}
use acgatea.OperationTree.Siblings.{
  Siblings, HasChildren, Siblings-frame, Siblings-splice, Siblings-node, Siblings-length,
  last_sibling-last,
}
use acgatea.OperationTree.Inserting.Free.{IsFree}
use acgatea.OperationTree.Inserting.Ends.{insert-first, insert-last}
use acgatea.OperationTree.Inserting.Behind.{insert-behind}
pub mod Free
pub mod Ends
pub mod Behind
pub mod Front

pub Split-last : (xs : List ℕ) → (xs ≡ []) ⊎ ((ys : List ℕ) × (l : ℕ) × (xs ≡ ys ++ l ∷ []))
Split-last [] = inl refl
Split-last (x ∷ xs) = elim (Split-last xs) [
  | inl e ↦ inr ([], x, ap (λ l. x ∷ l) e)
  | inr (ys, l, e) ↦ inr (x ∷ ys, l, ap (λ k. x ∷ k) e)
]

pub insert_after-split :
    (pos child : ℕ) (xs ys : List ℕ)
    → insert_after pos child xs ≡ some ys
    → (before : List ℕ) × (after : List ℕ) × (xs ≡ before ++ pos ∷ after)
      × (before ++ pos ∷ child ∷ after ≡ ys)
unfolding insert_after
insert_after-split pos child [] ys h = cc
insert_after-split pos child (x ∷ xs) ys h = elim (Bool-cases (x == pos)) [
  | inl e ↦
      let same : x ≡ pos = ground (arith, e) in
      let k : x ∷ child ∷ xs ≡ ys = ground (arith, e, h) in
      ([], xs, ap (λ z. z ∷ xs) same, ap (λ z. z ∷ child ∷ xs) (sym same) ∙ k)
  | inr e ↦
      let chain : (insert_after pos child xs >>= λ zs. some (x ∷ zs)) ≡ some ys =
        ground (arith, e, h) in
      let (zs, f, k) = >>=-eq-some (insert_after pos child xs) _ chain in
      let g : x ∷ zs ≡ ys = ground (arith, k) in
      let (before, after, a, b) = insert_after-split pos child xs zs f in
      (x ∷ before, after, ap (λ l. x ∷ l) a, ap (λ l. x ∷ l) b ∙ g)
]

-- If the node `p` has the children `xs` and `child` is a node without a sibling that is neither `p`
-- nor one of `xs`, and inserting the child into the list `xs` gives `ys` (behind the given position,
-- which is in the list, or at the end), then inserting it on the heap succeeds, and afterwards `p` has
-- the children `ys`.
pub insert_child_node-HasChildren :
    (h : Heap) (p child : ℕ) (xs : List ℕ) (pos : Option ℕ) (ys : List ℕ)
    → HasChildren h p xs
    → IsFree h p xs child
    → insert_in_children child pos xs ≡ some ys
    → (h' : Heap) × (insert_child_node h p child pos ≡ some h') × HasChildren h' p ys
unfolding insert_in_children
insert_child_node-HasChildren h p child xs none ys c f e = elim (Split-last xs) [
  | inl k ↦
      let (h', run, d) =
        insert-first h p child (subst (HasChildren h p) k c)
          (subst (λ l. IsFree h p l child) k f) in
      let same : child ∷ [] ≡ ys = ap (λ l. l ++ child ∷ []) (sym k) ∙ ground (arith, e) in
      (h', run, subst (HasChildren h' p) same d)
  | inr (zs, l, k) ↦
      let (h', run, d) =
        insert-last h p child zs l (subst (HasChildren h p) k c)
          (subst (λ l. IsFree h p l child) k f) in
      let same : (zs ++ l ∷ []) ++ child ∷ [] ≡ ys =
        ap (λ l. l ++ child ∷ []) (sym k) ∙ ground (arith, e) in
      (h', run, subst (HasChildren h' p) same d)
]
insert_child_node-HasChildren h p child xs (some pos) ys c f e =
    let (before, after, k, same) = insert_after-split pos child xs ys e in
    let (h', run, d) =
      insert-behind h p child before pos after (subst (HasChildren h p) k c)
        (subst (λ l. IsFree h p l child) k f) in
    (h', run, subst (HasChildren h' p) same d)
