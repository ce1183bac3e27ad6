-- ===== src/OperationTree/Inserting/Ends.antt =====
-- `insertChildNode` without a position: the child becomes the first or the last one.
use acgatea.Common.{
  ℕ, ◌≡◌, none, some, List, [], ◌∷◌, ◌++◌, In, In-append, inl, inr, arith, length, length-append,
  Distinct-append_one, Distinct-append, refl, sym, subst, ◌∙◌, append_assoc,
}
use acgatea.Common.Map.{find, assign, find-assign_self, find-assign_ne}
use acgatea.OperationTree.{Heap, last_sibling, get_last_child, link_child, insert_child_node}
use acgatea.OperationTree.Siblings.{
  Siblings, HasChildren, Siblings-splice, Siblings-node, Siblings-length, last_sibling-last,
}
use acgatea.OperationTree.Inserting.Free.{IsFree, Siblings-start}

module _ (h : Heap) (p child : ℕ) where
  -- A first child.
  pub insert-first :
      HasChildren h p []
      → IsFree h p [] child
      → (h' : Heap) × (insert_child_node h p child none ≡ some h') × HasChildren h' p (child ∷ [])
  unfolding insert_child_node link_child
  insert-first c f =
      let h1 : Heap = assign p (record c.node { first_child = some child }) h in
      let h2 : Heap = assign child (record f.node { parent_node = some p }) h1 in
      let found1 : find child h1 ≡ some f.node =
        find-assign_ne p child _ h (λ e. f.proper (sym e)) ∙ f.found in
      (
        h2,
        ground (arith, c.found, c.siblings, found1),
        record {
          node = record c.node { first_child = some child };
          found = find-assign_ne child p _ h1 f.proper ∙ find-assign_self p _ h;
          siblings = (
            refl,
            record f.node { parent_node = some p },
            find-assign_self child _ h1,
            refl,
            f.alone,
          );
          distinct = (λ m. m, tt);
          proper = λ m. elim m [ inl e ↦ f.proper (sym e) | inr n ↦ n ];
        },
      )

  -- Behind the last child.
  pub insert-last :
      (ys : List ℕ) (l : ℕ)
      → HasChildren h p (ys ++ l ∷ [])
      → IsFree h p (ys ++ l ∷ []) child
      → (h' : Heap) × (insert_child_node h p child none ≡ some h')
        × HasChildren h' p ((ys ++ l ∷ []) ++ child ∷ [])
  unfolding insert_child_node link_child get_last_child
  insert-last ys l c f =
      let (r, found_l, parent_l, _) = Siblings-node h p c.node.first_child ys l [] c.siblings in
      let h1 : Heap = assign l (record r { next_sibling = some child }) h in
      let h2 : Heap = assign child (record f.node { parent_node = some p }) h1 in
      let (x, start) = Siblings-start h p ys l [] c.node.first_child c.siblings in
      let last : last_sibling (length h) h x ≡ some l =
        last_sibling-last (length h) h p x ys l
          (subst (λ o. Siblings h p o (ys ++ l ∷ [])) start c.siblings)
          (omega (
            arith,
            Siblings-length h p c.node.first_child (ys ++ l ∷ []) c.siblings c.distinct,
            length-append ys (l ∷ []),
          )) in
      let l_in : In l (ys ++ l ∷ []) = (In-append l ys (l ∷ [])).1 (inr (inl refl)) in
      let l_ne : ¬ (l ≡ child) = λ e. f.apart (subst (λ x. In x (ys ++ l ∷ [])) e l_in) in
      let found1 : find child h1 ≡ some f.node = find-assign_ne l child _ h l_ne ∙ f.found in
      (
        h2,
        ground (arith, c.found, start, last, found_l, found1),
        record {
          node = c.node;
          found =
              find-assign_ne child p _ h1 f.proper
              ∙ find-assign_ne l p _ h (λ e. c.proper (subst (λ x. In x (ys ++ l ∷ [])) e l_in))
              ∙ c.found;
          siblings =
              subst (Siblings h2 p c.node.first_child) (sym (append_assoc ys (l ∷ []) (child ∷ [])))
                (Siblings-splice h h2 p c.node.first_child ys l [] (child ∷ [])
                  (record r { next_sibling = some child }) c.siblings
                  (λ y m.
                    find-assign_ne child y _ h1 (λ e.
                      f.apart
                        ((In-append child ys (l ∷ [])).1 (inl (subst (λ z. In z ys) (sym e) m))))
                    ∙ find-assign_ne l y _ h
                        (λ e. (Distinct-append ys (l ∷ []) c.distinct).2 y m (inl (sym e))))
                  (find-assign_ne child l _ h1 (λ e. l_ne (sym e)) ∙ find-assign_self l _ h)
                  parent_l
                  (
                    refl,
                    record f.node { parent_node = some p },
                    find-assign_self child _ h1,
                    refl,
                    f.alone,
                  ));
          distinct = Distinct-append_one child (ys ++ l ∷ []) c.distinct f.apart;
          proper =
              λ m. ground (arith, In-append p (ys ++ l ∷ []) (child ∷ []), m, c.proper, f.proper);
        },
      )
