-- ===== src/OperationTree/Unlinking.antt =====
-- `unlink` takes a node out of the list of children.
use acgatea.Common.{
  ℕ, ◌≡◌, none, some, List, ◌∷◌, ◌++◌, In, In-append, inl, inr, arith, Distinct-append,
  Distinct-join, refl, sym, subst, ◌∙◌,
}
use acgatea.Common.Map.{find, assign, find-assign_self, find-assign_ne}
use acgatea.OperationTree.{Node, Heap, unlink}
use acgatea.OperationTree.Siblings.{HasChildren, Siblings-frame, Siblings-node}
use acgatea.OperationTree.Bypass.{get_prev_sibling-IsBypassed}

-- After `unlink` the node stands alone, and its old parent has the other children.
pub record IsUnlinked (h h' : Heap) (p n : ℕ) (others : List ℕ) : Type 0 where
  pub children : HasChildren h' p others
  pub node : Node
  pub found : find n h' ≡ some node
  pub no_parent : node.parent_node ≡ none
  pub no_sibling : node.next_sibling ≡ none
  pub frame : (y : ℕ) → ¬ In y others → ¬ (y ≡ n) → ¬ (y ≡ p) → find y h' ≡ find y h

module _ (n : ℕ) where
  abbrev alone : Node → Node
  alone r = record r { parent_node = none; next_sibling = none }

  abbrev cut : Node → Heap → Heap
  cut r h1 = assign n (alone r) (assign n (record r { next_sibling = none }) h1)

  cut-other : (r : Node) (h1 : Heap) (y : ℕ) → ¬ (y ≡ n) → find y (cut r h1) ≡ find y h1
  cut-other r h1 y a =
      find-assign_ne n y (alone r) (assign n (record r { next_sibling = none }) h1) (λ e. a (sym e))
      ∙ find-assign_ne n y (record r { next_sibling = none }) h1 (λ e. a (sym e))

-- If the node `p` has the children `before`, then `n`, then `after`, then `unlink` of `n` succeeds.
-- Afterwards `p` has the children `before` and `after`, `n` has no parent and no sibling, and the
-- nodes other than `n`, `p` and the other children are what they were.
pub unlink-HasChildren :
    (h : Heap) (p n : ℕ) (before after : List ℕ)
    → HasChildren h p (before ++ n ∷ after)
    → (h' : Heap) × (unlink h n ≡ some h') × IsUnlinked h h' p n (before ++ after)
unfolding unlink
unlink-HasChildren h p n before after c =
    let (r, f, g, rest) = Siblings-node h p c.node.first_child before n after c.siblings in
    let all = before ++ n ∷ after in
    let n_in : In n all = (In-append n before (n ∷ after)).1 (inr (inl refl)) in
    let n_ne : ¬ (n ≡ p) = λ e. c.proper (subst (λ z. In z all) e n_in) in
    let in_before : (y : ℕ) → In y before → In y all =
      λ y m. (In-append y before (n ∷ after)).1 (inl m) in
    let in_after : (y : ℕ) → In y after → In y all =
      λ y m. (In-append y before (n ∷ after)).1 (inr (inr m)) in
    let (prev, at_prev, bypass) = get_prev_sibling-IsBypassed h p n before after c in
    let b = bypass r.next_sibling in
    let (db, da, parts) = Distinct-append before (n ∷ after) c.distinct in
    let n_before : ¬ In n before = λ i. parts n i (inl refl) in
    let found1 : find n b.heap ≡ some r = b.frame n n_before n_ne ∙ f in
    let h2 = cut n r b.heap in
    (
      h2,
      ground (
        arith,
        f,
        g,
        at_prev,
        b.linked,
        found1,
        find-assign_self n (record r { next_sibling = none }) b.heap,
      ),
      record {
        children = record {
          node = b.node;
          found = cut-other n r b.heap p (λ e. n_ne (sym e)) ∙ b.found;
          siblings =
              b.siblings h2 after
                (λ y i. cut-other n r b.heap y (λ e. n_before (subst (λ z. In z before) e i)))
                (Siblings-frame h h2 p r.next_sibling after
                  (λ y i.
                    cut-other n r b.heap y (λ e. da.0 (subst (λ z. In z after) e i))
                    ∙ b.frame y (λ j. parts y j (inr i))
                        (λ e. c.proper (subst (λ z. In z all) e (in_after y i))))
                  rest);
          distinct = Distinct-join before after db da.1 (λ a i j. parts a i (inr j));
          proper =
              λ i. ground (arith, i, In-append p before after, c.proper, in_before p, in_after p);
        };
        node = alone n r;
        found = find-assign_self n (alone n r) (assign n (record r { next_sibling = none }) b.heap);
        no_parent = refl;
        no_sibling = refl;
        frame = λ y a u v.
            cut-other n r b.heap y u ∙ b.frame y (λ i. a ((In-append y before after).1 (inl i))) v;
      },
    )
