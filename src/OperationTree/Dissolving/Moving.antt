-- ===== src/OperationTree/Dissolving/Moving.antt =====
-- `unlinkNode` puts the children of the node behind its previous sibling.
use acgatea.Common.{
  ℕ, ◌<◌, ◌≡◌, Option, none, some, List, [], ◌∷◌, ◌++◌, In, inl, inr, arith, length, length-append,
  sym, subst, ◌∙◌,
}
use acgatea.Common.Map.{find}
use acgatea.OperationTree.{Node, Heap, get_last_child, last_sibling, move_children}
use acgatea.OperationTree.Siblings.{
  Siblings, HasChildren, Siblings-frame, Siblings-length, last_sibling-last,
}
use acgatea.OperationTree.Inserting.{Split-last}
use acgatea.OperationTree.Inserting.Free.{Siblings-start}
use acgatea.OperationTree.Bypass.{IsBypassed}
use acgatea.OperationTree.Dissolving.Adopting.{adopt-IsAdopted}

-- The nodes `cs` stand behind `ys`, and `next` follows them.
pub record IsMoved (h h' : Heap) (p : ℕ) (ys cs : List ℕ) (next : Option ℕ) : Type 0 where
  pub frame : (y : ℕ) → ¬ In y ys → ¬ In y cs → ¬ (y ≡ p) → find y h' ≡ find y h
  pub node : Node
  pub found : find p h' ≡ some node
  pub siblings :
      (h'' : Heap) (zs : List ℕ)
      → ((y : ℕ) → In y ys → find y h'' ≡ find y h')
      → ((y : ℕ) → In y cs → find y h'' ≡ find y h')
      → Siblings h'' p next zs
      → Siblings h'' p node.first_child (ys ++ (cs ++ zs))

module _ (h : Heap) (p n : ℕ) (ys : List ℕ) (prev next : Option ℕ)
    (b : (o : Option ℕ) → IsBypassed h p n ys prev o) where
  move-none :
      (c : HasChildren h n [])
      → (last : Option ℕ) × (get_last_child h n ≡ some last)
        × (h' : Heap) × (move_children prev p next c.node.first_child last h ≡ some h')
        × IsMoved h h' p ys [] next
  unfolding get_last_child move_children
  move-none c = (
    none,
    ground (arith, c.found, c.siblings),
    (b next).heap,
    rw c.siblings (b next).linked,
    record {
      frame = λ y u v w. (b next).frame y u w;
      node = (b next).node;
      found = (b next).found;
      siblings = λ h'' zs same _ t. (b next).siblings h'' zs same t;
    },
  )

  move-some :
      (ds : List ℕ) (l : ℕ) (c : HasChildren h n (ds ++ l ∷ []))
      → ((y : ℕ) → In y (ds ++ l ∷ []) → ¬ In y ys)
      → (¬ In p (ds ++ l ∷ []))
      → (last : Option ℕ) × (get_last_child h n ≡ some last)
        × (h' : Heap) × (move_children prev p next c.node.first_child last h ≡ some h')
        × IsMoved h h' p ys (ds ++ l ∷ []) next
  unfolding get_last_child move_children
  move-some ds l c apart acyclic =
      let cs = ds ++ l ∷ [] in
      let (x, start) = Siblings-start h n ds l [] c.node.first_child c.siblings in
      let s : Siblings h n (some x) (ds ++ l ∷ []) =
        subst (λ o. Siblings h n o (ds ++ l ∷ [])) start c.siblings in
      let enough : length ds < length h = omega (
        arith,
        Siblings-length h n c.node.first_child (ds ++ l ∷ []) c.siblings c.distinct,
        length-append ds (l ∷ []),
      ) in
      let last : last_sibling (length h) h x ≡ some l =
        last_sibling-last (length h) h n x ds l s enough in
      let k = b (some x) in
      let (h', run, a) =
        adopt-IsAdopted (length h) k.heap p n (some x) next ds l
          (Siblings-frame h k.heap n (some x) (ds ++ l ∷ [])
            (λ y m. k.frame y (apart y m) (λ e. acyclic (subst (λ z. In z (ds ++ l ∷ [])) e m))) s)
          c.distinct enough in
      (
        some l,
        ground (arith, c.found, start, last),
        h',
        rw start (ground (arith, k.linked, run)),
        record {
          frame = λ y u v w. a.frame y v ∙ k.frame y u w;
          node = k.node;
          found = a.frame p acyclic ∙ k.found;
          siblings = λ h'' zs same kept t.
              k.siblings h'' ((ds ++ l ∷ []) ++ zs) (λ y m. same y m ∙ a.frame y (λ i. apart y i m))
                (a.siblings h'' zs kept t);
        },
      )

pub move_children-IsMoved :
    (h : Heap) (p n : ℕ) (ys cs : List ℕ) (prev next : Option ℕ)
    → ((o : Option ℕ) → IsBypassed h p n ys prev o)
    → (c : HasChildren h n cs) → ((y : ℕ) → In y cs → ¬ In y ys)
    → (¬ In p cs)
    → (last : Option ℕ) × (get_last_child h n ≡ some last)
      × (h' : Heap) × (move_children prev p next c.node.first_child last h ≡ some h')
      × IsMoved h h' p ys cs next
move_children-IsMoved h p n ys cs prev next b = elim (Split-last cs) [
  | inl e ↦
      subst
        (λ l.
          (c : HasChildren h n l)
          → ((y : ℕ) → In y l → ¬ In y ys)
          → (¬ In p l)
          → (last : Option ℕ) × (get_last_child h n ≡ some last)
            × (h' : Heap) × (move_children prev p next c.node.first_child last h ≡ some h')
            × IsMoved h h' p ys l next)
        (sym e) (λ c apart acyclic. move-none h p n ys prev next b c)
  | inr (ds, l, e) ↦
      subst
        (λ l.
          (c : HasChildren h n l)
          → ((y : ℕ) → In y l → ¬ In y ys)
          → (¬ In p l)
          → (last : Option ℕ) × (get_last_child h n ≡ some last)
            × (h' : Heap) × (move_children prev p next c.node.first_child last h ≡ some h')
            × IsMoved h h' p ys l next)
        (sym e) (λ c apart acyclic. move-some h p n ys prev next b ds l c apart acyclic)
]
