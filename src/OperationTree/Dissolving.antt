-- ===== src/OperationTree/Dissolving.antt =====
-- `unlinkNode` puts the children of a node in its place.
use acgatea.Common.{
  ℕ, zero, suc, ◌<◌, ◌≡◌, Option, none, some, List, [], ◌∷◌, ◌++◌, In, In-append, inl, inr, arith,
  length, length-append, Distinct, Distinct-append, Distinct-join, refl, sym, subst, ◌∙◌, ap,
  append_assoc,
}
use acgatea.Common.Map.{find, assign, find-assign_self, find-assign_ne}
use acgatea.OperationTree.{
  Node, Heap, get_prev_sibling, get_last_child, last_sibling, adopt, move_children, unlink_from,
  unlink_node,
}
use acgatea.OperationTree.Siblings.{
  Siblings, HasChildren, Siblings-frame, Siblings-node, Siblings-length, last_sibling-last,
}
use acgatea.OperationTree.Inserting.{Split-last}
use acgatea.OperationTree.Inserting.Free.{Siblings-start}
use acgatea.OperationTree.Bypass.{IsBypassed, get_prev_sibling-IsBypassed}
use acgatea.OperationTree.Dissolving.Moving.{IsMoved, move_children-IsMoved}
pub mod Adopting
pub mod Moving

Siblings-parent :
    (h : Heap) (p : ℕ) (o : Option ℕ) (xs : List ℕ) (x : ℕ)
    → Siblings h p o xs
    → In x xs
    → (r : Node) × (find x h ≡ some r) × (r.parent_node ≡ some p)
Siblings-parent h p o [] x s m = absurd m
Siblings-parent h p o (y ∷ xs) x (e, r, f, g, s) (inl k) =
    (r, subst (λ z. find z h ≡ some r) (sym k) f, g)
Siblings-parent h p o (y ∷ xs) x (e, r, f, g, s) (inr m) =
    Siblings-parent h p r.next_sibling xs x s m

-- The children of two nodes are different.
Siblings-apart :
    (h : Heap) (p n : ℕ) (xs cs : List ℕ) (o o' : Option ℕ)
    → Siblings h p o xs
    → Siblings h n o' cs
    → ¬ (p ≡ n)
    → (y : ℕ) → In y cs
    → ¬ In y xs
Siblings-apart h p n xs cs o o' s t ne y m k =
    let (r, f, g) = Siblings-parent h p o xs y s k in
    let (r', f', g') = Siblings-parent h n o' cs y t m in
    let same : r ≡ r' = ground (arith, f, f') in
    let g2 : r.parent_node ≡ some n = subst (λ r. r.parent_node ≡ some n) (sym same) g' in
    ground (arith, g, g2, ne)

-- After `unlinkNode` the node stands alone, without children, and its old parent has `others`.
pub record IsDissolved (h h' : Heap) (p n : ℕ) (others : List ℕ) : Type 0 where
  pub children : HasChildren h' p others
  pub node : Node
  pub found : find n h' ≡ some node
  pub no_parent : node.parent_node ≡ none
  pub no_child : node.first_child ≡ none
  pub no_sibling : node.next_sibling ≡ none
  pub frame : (y : ℕ) → ¬ In y others → ¬ (y ≡ n) → ¬ (y ≡ p) → find y h' ≡ find y h

module _ (n : ℕ) (r : Node) where
  abbrev cleared : Node
  cleared = record r { first_child = none; next_sibling = none; parent_node = none }

  abbrev clear : Heap → Heap
  clear h = assign n cleared (
      assign n (record r { first_child = none; next_sibling = none })
        (assign n (record r { first_child = none }) h))

  clear-other : (h : Heap) (y : ℕ) → ¬ (y ≡ n) → find y (clear h) ≡ find y h
  clear-other h y a =
      find-assign_ne n y cleared _ (λ k. a (sym k))
      ∙ find-assign_ne n y (record r { first_child = none; next_sibling = none }) _ (λ k. a (sym k))
      ∙ find-assign_ne n y (record r { first_child = none }) h (λ k. a (sym k))

-- If the node `p` has the children `before`, then `n`, then `after`, and `n` has the children `cs`, of
-- which `p` is none, then `unlinkNode` of `n` succeeds. Afterwards `p` has the children `before`, `cs`
-- and `after`, `n` has no parent, child or sibling, and the nodes other than these are what they were.
pub unlink_node-HasChildren :
    (h : Heap) (p n : ℕ) (before after cs : List ℕ)
    → HasChildren h p (before ++ n ∷ after)
    → HasChildren h n cs
    → (¬ In p cs)
    → (h' : Heap) × (unlink_node h n ≡ some h') × IsDissolved h h' p n (before ++ (cs ++ after))
unfolding unlink_node unlink_from
unlink_node-HasChildren h p n before after cs c k acyclic =
    let (r, f, g, s) = Siblings-node h p c.node.first_child before n after c.siblings in
    let same : r ≡ k.node = ground (arith, f, k.found) in
    let parent : k.node.parent_node ≡ some p = subst (λ r. r.parent_node ≡ some p) same g in
    let rest : Siblings h p k.node.next_sibling after =
      subst (λ r. Siblings h p r.next_sibling after) same s in
    let all = before ++ n ∷ after in
    let n_in : In n all = (In-append n before (n ∷ after)).1 (inr (inl refl)) in
    let p_ne : ¬ (p ≡ n) = λ e. c.proper (subst (λ z. In z all) (sym e) n_in) in
    let apart : (y : ℕ) → In y cs → ¬ In y all =
      Siblings-apart h p n all cs c.node.first_child k.node.first_child c.siblings k.siblings
        p_ne in
    let in_before : (y : ℕ) → In y before → In y all =
      λ y m. (In-append y before (n ∷ after)).1 (inl m) in
    let in_after : (y : ℕ) → In y after → In y all =
      λ y m. (In-append y before (n ∷ after)).1 (inr (inr m)) in
    let (prev, at_prev, b) = get_prev_sibling-IsBypassed h p n before after c in
    let (last, at_last, h1, run, m) =
      move_children-IsMoved h p n before cs prev k.node.next_sibling b k
        (λ y i j. apart y i (in_before y j)) acyclic in
    let (db, da, parts) = Distinct-append before (n ∷ after) c.distinct in
    let n_before : ¬ In n before = λ i. parts n i (inl refl) in
    let found1 : find n h1 ≡ some k.node =
      m.frame n n_before k.proper (λ e. p_ne (sym e)) ∙ k.found in
    let h4 = clear n k.node h1 in
    (
      h4,
      ground (
        arith,
        k.found,
        parent,
        at_prev,
        at_last,
        run,
        found1,
        find-assign_self n (record k.node { first_child = none }) h1,
        find-assign_self n (record k.node { first_child = none; next_sibling = none })
            (assign n (record k.node { first_child = none }) h1),
      ),
      record {
        children = record {
          node = m.node;
          found = clear-other n k.node h1 p p_ne ∙ m.found;
          siblings =
              m.siblings h4 after
                (λ y i. clear-other n k.node h1 y (λ e. n_before (subst (λ z. In z before) e i)))
                (λ y i. clear-other n k.node h1 y (λ e. k.proper (subst (λ z. In z cs) e i)))
                (Siblings-frame h h4 p k.node.next_sibling after
                  (λ y i.
                    clear-other n k.node h1 y (λ e. da.0 (subst (λ z. In z after) e i))
                    ∙ m.frame y (λ j. parts y j (inr i)) (λ j. apart y j (in_after y i))
                        (λ e. c.proper (subst (λ z. In z all) e (in_after y i))))
                  rest);
          distinct =
              Distinct-join before (cs ++ after) db
                (Distinct-join cs after k.distinct da.1 (λ a i j. apart a i (in_after a j)))
                (λ a i j. elim ((In-append a cs after).0 j) [
                  | inl l ↦ apart a l (in_before a i)
                  | inr l ↦ parts a i (inr l)
                ]);
          proper = λ i. ground (
            arith,
            i,
            In-append p before (cs ++ after),
            In-append p cs after,
            acyclic,
            c.proper,
            in_before p,
            in_after p,
          );
        };
        node = cleared n k.node;
        found = find-assign_self n (cleared n k.node) _;
        no_parent = refl;
        no_child = refl;
        no_sibling = refl;
        frame = λ y a u v.
            clear-other n k.node h1 y u
            ∙ m.frame y (λ i. a ((In-append y before (cs ++ after)).1 (inl i)))
                (λ i.
                  a ((In-append y before (cs ++ after)).1 (inr ((In-append y cs after).1 (inl i)))))
                v;
      },
    )
