-- ===== src/OperationTree/Inserting/Front.antt =====
-- `insertAsFirstChild` inserts in front of the children.
use acgatea.Common.{ℕ, ◌≡◌, some, List, [], ◌∷◌, In, inl, inr, arith, refl, sym, subst, ◌∙◌}
use acgatea.Common.Map.{find, assign, find-assign_self, find-assign_ne}
use acgatea.OperationTree.{Node, Heap, insert_as_first_child}
use acgatea.OperationTree.Siblings.{Siblings, HasChildren, Siblings-frame}
use acgatea.OperationTree.Inserting.Free.{IsFree}

module _ (h : Heap) (p child : ℕ) where
  in_front-HasChildren :
      (xs : List ℕ) (c : HasChildren h p xs) (h1 : Heap) (n1 : Node)
      → IsFree h p xs child
      → find child h1 ≡ some n1
      → n1.next_sibling ≡ c.node.first_child
      → ((y : ℕ) → ¬ (y ≡ child) → find y h1 ≡ find y h)
      → HasChildren
          (assign child
            (record n1 { parent_node = some p })
            (assign p (record c.node { first_child = some child }) h1))
          p
          (child ∷ xs)
  in_front-HasChildren xs c h1 n1 f found1 next same = record {
    node = parent;
    found = find-assign_ne child p first h2 f.proper ∙ find-assign_self p parent h1;
    siblings = (
      refl,
      first,
      find-assign_self child first h2,
      refl,
      subst (λ o. Siblings (assign child first h2) p o xs) (sym next)
          (Siblings-frame h (assign child first h2) p c.node.first_child xs kept c.siblings),
    );
    distinct = (f.apart, c.distinct);
    proper = λ m. elim m [ inl e ↦ f.proper (sym e) | inr n ↦ c.proper n ];
  }
    where
      parent : Node
      parent = record c.node { first_child = some child }

      first : Node
      first = record n1 { parent_node = some p }

      h2 : Heap
      h2 = assign p parent h1

      kept : (y : ℕ) → In y xs → find y (assign child first h2) ≡ find y h
      kept y m =
          find-assign_ne child y first h2 (λ e. f.apart (subst (λ z. In z xs) (sym e) m))
          ∙ find-assign_ne p y parent h1 (λ e. c.proper (subst (λ z. In z xs) (sym e) m))
          ∙ same y (λ e. f.apart (subst (λ z. In z xs) e m))

  -- If the node `p` has the children `xs` and `child` is a node without a sibling that is neither `p`
  -- nor one of `xs`, then inserting it as the first child succeeds, and afterwards `p` has the child
  -- and then `xs` as its children.
  pub insert_as_first_child-HasChildren :
      (xs : List ℕ)
      → HasChildren h p xs
      → IsFree h p xs child
      → (h' : Heap) × (insert_as_first_child h p child ≡ some h') × HasChildren h' p (child ∷ xs)
  unfolding insert_as_first_child
  insert_as_first_child-HasChildren [] c f = (
    _,
    ground (
      arith,
      c.found,
      c.siblings,
      find-assign_ne p child (record c.node { first_child = some child }) h (λ e. f.proper (sym e)),
      f.found,
    ),
    in_front-HasChildren [] c h f.node f f.found (f.alone ∙ sym c.siblings) (λ y n. refl),
  )
  insert_as_first_child-HasChildren (x ∷ xs) c f =
      let n1 : Node = record f.node { next_sibling = some x } in
      let h1 : Heap = assign child n1 h in
      (
        _,
        ground (
          arith,
          c.found,
          c.siblings.0,
          f.found,
          find-assign_ne child p n1 h f.proper,
          find-assign_ne p child (record c.node { first_child = some child }) h1
              (λ e. f.proper (sym e)),
          find-assign_self child n1 h,
        ),
        in_front-HasChildren (x ∷ xs) c h1 n1 f (find-assign_self child n1 h) (sym c.siblings.0)
            (λ y n. find-assign_ne child y n1 h (λ e. n (sym e))),
      )
