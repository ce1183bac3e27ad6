-- ===== src/OperationTree/Inserting/Behind.antt =====
-- `insertChildNode` behind a child.
use acgatea.Common.{
  ℕ, ◌≡◌, some, List, [], ◌∷◌, ◌++◌, In, In-append, inl, inr, arith, Distinct, Distinct-append,
  refl, sym, subst, ◌∙◌,
}
use acgatea.Common.Map.{find, assign, find-assign_self, find-assign_ne}
use acgatea.OperationTree.{Node, Heap, link_child, insert_child_node}
use acgatea.OperationTree.Siblings.{HasChildren, Siblings-frame, Siblings-splice, Siblings-node}
use acgatea.OperationTree.Inserting.Free.{IsFree, Siblings-start}

Distinct-insert :
    (ys : List ℕ) (l : ℕ) (zs : List ℕ) (c : ℕ)
    → Distinct (ys ++ l ∷ zs)
    → (¬ In c (ys ++ l ∷ zs))
    → Distinct (ys ++ l ∷ c ∷ zs)
Distinct-insert [] l zs c d h = ground (arith, d.0, d.1, h)
Distinct-insert (y ∷ ys) l zs c d h = (
  λ m. ground (arith, m, In-append y ys (l ∷ c ∷ zs), In-append y ys (l ∷ zs), d.0, h),
  Distinct-insert ys l zs c d.1 (λ m. h (inr m)),
)

module _ (h : Heap) (p child : ℕ) where
  -- Behind a given child.
  pub insert-behind :
      (ys : List ℕ) (l : ℕ) (zs : List ℕ)
      → HasChildren h p (ys ++ l ∷ zs)
      → IsFree h p (ys ++ l ∷ zs) child
      → (h' : Heap) × (insert_child_node h p child (some l) ≡ some h')
        × HasChildren h' p (ys ++ l ∷ child ∷ zs)
  unfolding insert_child_node link_child
  insert-behind ys l zs c f =
      let (r, found_l, parent_l, rest) = Siblings-node h p c.node.first_child ys l zs c.siblings in
      let h1 : Heap = assign l (record r { next_sibling = some child }) h in
      let h2 : Heap = assign child (record f.node { next_sibling = r.next_sibling }) h1 in
      let last : Node = record f.node { next_sibling = r.next_sibling; parent_node = some p } in
      let h3 : Heap = assign child last h2 in
      let l_in : In l (ys ++ l ∷ zs) = (In-append l ys (l ∷ zs)).1 (inr (inl refl)) in
      let l_ne : ¬ (l ≡ child) = λ e. f.apart (subst (λ x. In x (ys ++ l ∷ zs)) e l_in) in
      let same : (y : ℕ) → ¬ (y ≡ child) → ¬ (y ≡ l) → find y h3 ≡ find y h = λ y a b.
        find-assign_ne child y _ h2 (λ e. a (sym e))
        ∙ find-assign_ne child y _ h1 (λ e. a (sym e))
        ∙ find-assign_ne l y _ h (λ e. b (sym e)) in
      let (dy, dl, parts) = Distinct-append ys (l ∷ zs) c.distinct in
      let outside : (y : ℕ) → In y (ys ++ l ∷ zs) → ¬ (y ≡ child) =
        λ y m e. f.apart (subst (λ x. In x (ys ++ l ∷ zs)) e m) in
      let found1 : find child h1 ≡ some f.node = find-assign_ne l child _ h l_ne ∙ f.found in
      let found2 : find child h2 ≡ some (record f.node { next_sibling = r.next_sibling }) =
        find-assign_self child _ h1 in
      let (x, start) = Siblings-start h p ys l zs c.node.first_child c.siblings in
      (
        h3,
        ground (arith, c.found, start, found_l, parent_l, found1, found2),
        record {
          node = c.node;
          found =
              same p (λ e. f.proper (sym e))
                (λ e. c.proper (subst (λ x. In x (ys ++ l ∷ zs)) (sym e) l_in))
              ∙ c.found;
          siblings =
              Siblings-splice h h3 p c.node.first_child ys l zs (child ∷ zs)
                (record r { next_sibling = some child }) c.siblings
                (λ y m.
                  same y (outside y ((In-append y ys (l ∷ zs)).1 (inl m))) (λ e. parts y m (inl e)))
                (find-assign_ne child l _ h2 (λ e. l_ne (sym e))
                  ∙ find-assign_ne child l _ h1 (λ e. l_ne (sym e))
                  ∙ find-assign_self l _ h)
                parent_l
                (
                  refl,
                  last,
                  find-assign_self child last h2,
                  refl,
                  Siblings-frame h h3 p r.next_sibling zs
                      (λ y m.
                        same y (outside y ((In-append y ys (l ∷ zs)).1 (inr (inr m))))
                          (λ e. dl.0 (subst (λ x. In x zs) e m)))
                      rest,
                );
          distinct = Distinct-insert ys l zs child c.distinct f.apart;
          proper = λ m. ground (
            arith,
            m,
            In-append p ys (l ∷ child ∷ zs),
            In-append p ys (l ∷ zs),
            c.proper,
            f.proper,
          );
        },
      )
