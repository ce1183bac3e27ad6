-- ===== src/OperationTree/RoundTrip.antt =====
-- A node that was inserted and is unlinked again.
use acgatea.Common.{
  ℕ, ◌≡◌, Option, none, some, List, [], ◌∷◌, ◌++◌, arith, sym, subst, ◌∙◌, append_assoc, append-nil,
}
use acgatea.OperationTree.{Heap, insert_child_node, unlink}
use acgatea.OperationTree.Children.{insert_in_children}
use acgatea.OperationTree.Siblings.{HasChildren}
use acgatea.OperationTree.Inserting.Free.{IsFree}
use acgatea.OperationTree.Inserting.{insert_after-split, insert_child_node-HasChildren}
use acgatea.OperationTree.Unlinking.{unlink-HasChildren}

inserted-split :
    (child : ℕ) (pos : Option ℕ) (xs ys : List ℕ)
    → insert_in_children child pos xs ≡ some ys
    → (before : List ℕ) × (after : List ℕ) × (before ++ after ≡ xs) × (ys ≡ before ++ child ∷ after)
unfolding insert_in_children
inserted-split child none xs ys e = (xs, [], append-nil xs, ground (arith, e))
inserted-split child (some pos) xs ys e =
    let (before, after, k, same) = insert_after-split pos child xs ys e in
    (
      before ++ pos ∷ [],
      after,
      append_assoc before (pos ∷ []) after ∙ sym k,
      sym same ∙ sym (append_assoc before (pos ∷ []) (child ∷ after)),
    )

-- If the node `p` has the children `xs`, `child` is a node without a sibling that is neither `p` nor
-- one of `xs`, and the position, if one is given, is among `xs`, then inserting the child and
-- unlinking it again succeeds, and `p` has the children `xs` again.
pub unlink-insert_child_node :
    (h : Heap) (p child : ℕ) (xs : List ℕ) (pos : Option ℕ) (ys : List ℕ)
    → HasChildren h p xs
    → IsFree h p xs child
    → insert_in_children child pos xs ≡ some ys
    → (h1 : Heap) × (h2 : Heap) × (insert_child_node h p child pos ≡ some h1)
      × (unlink h1 child ≡ some h2)
      × HasChildren h2 p xs
unlink-insert_child_node h p child xs pos ys c f e =
    let (h1, run1, d) = insert_child_node-HasChildren h p child xs pos ys c f e in
    let (before, after, k, same) = inserted-split child pos xs ys e in
    let (h2, run2, u) =
      unlink-HasChildren h1 p child before after (subst (HasChildren h1 p) same d) in
    (h1, h2, run1, run2, subst (HasChildren h2 p) k u.children)
