-- ===== src/OperationTree/Bypass.antt =====
-- The link over a node, from its previous sibling or from its parent.
use acgatea.Common.{
  ℕ, zero, suc, ◌<◌, ◌≡◌, Option, none, some, List, [], ◌∷◌, ◌++◌, In, In-append, inl, inr, arith,
  length, length-append, Distinct, Distinct-append, refl, sym, subst, ◌∙◌, ap, append_assoc,
}
use acgatea.Common.Map.{find, assign, find-assign_self, find-assign_ne}
use acgatea.OperationTree.{Node, Heap, sibling_before, get_prev_sibling, link_over}
use acgatea.OperationTree.Siblings.{
  Siblings, HasChildren, Siblings-splice, Siblings-node, Siblings-length,
}
use acgatea.OperationTree.Inserting.{Split-last}

sibling_before-last :
    (fuel : ℕ) (h : Heap) (p n : ℕ) (o : Option ℕ) (ws : List ℕ) (q : ℕ) (zs : List ℕ)
    → Siblings h p o (ws ++ q ∷ n ∷ zs)
    → Distinct (ws ++ q ∷ n ∷ zs)
    → length ws < fuel
    → sibling_before fuel h n o ≡ some (some q)
unfolding sibling_before
sibling_before-last zero h p n o ws q zs s d enough = absurd (omega arith)
sibling_before-last (suc fuel) h p n o [] q zs (e, r, f, g, s) d enough = ground (arith, e, f, s.0)
sibling_before-last (suc fuel) h p n o (w ∷ []) q zs (e, r, f, g, s) d enough = ground (
  arith,
  e,
  f,
  s.0,
  d.1.0,
  sibling_before-last fuel h p n r.next_sibling [] q zs s d.1 (omega arith),
)
sibling_before-last (suc fuel) h p n o (w ∷ x ∷ ws) q zs (e, r, f, g, s) d enough = ground (
  arith,
  e,
  f,
  s.0,
  d.1.0,
  In-append n ws (q ∷ n ∷ zs),
  In-append x ws (q ∷ n ∷ zs),
  sibling_before-last fuel h p n r.next_sibling (x ∷ ws) q zs s d.1 (omega arith),
)

Siblings-start :
    (h : Heap) (p n : ℕ) (o : Option ℕ) (ws : List ℕ) (q : ℕ) (zs : List ℕ)
    → Siblings h p o (ws ++ q ∷ n ∷ zs)
    → Distinct (ws ++ q ∷ n ∷ zs)
    → (x : ℕ) × (o ≡ some x) × (¬ (x ≡ n))
Siblings-start h p n o [] q zs s d = (q, s.0, λ e. d.0 (inl e))
Siblings-start h p n o (w ∷ ws) q zs s d =
    (w, s.0, λ e. d.0 ((In-append w ws (q ∷ n ∷ zs)).1 (inr (inr (inl e)))))

-- `prev` is the previous sibling of `n`, and the link over it can be set to any sibling.
pub record IsBypassed (h : Heap) (p n : ℕ) (ys : List ℕ) (prev o : Option ℕ) : Type 0 where
  pub heap : Heap
  pub linked : link_over prev p o h ≡ some heap
  pub frame : (y : ℕ) → ¬ In y ys → ¬ (y ≡ p) → find y heap ≡ find y h
  pub node : Node
  pub found : find p heap ≡ some node
  pub siblings :
      (h' : Heap) (ws : List ℕ)
      → ((y : ℕ) → In y ys → find y h' ≡ find y heap)
      → Siblings h' p o ws
      → Siblings h' p node.first_child (ys ++ ws)

module _ (h : Heap) (p n : ℕ) where
  bypass-first :
      (zs : List ℕ)
      → HasChildren h p (n ∷ zs)
      → (prev : Option ℕ) × (get_prev_sibling h n ≡ some prev)
        × ((o : Option ℕ) → IsBypassed h p n [] prev o)
  unfolding get_prev_sibling
  bypass-first zs c =
      let (e, r, f, g, s) = c.siblings in
      (
        none,
        ground (arith, e, f, g, c.found),
        λ o. record {
          heap = assign p (record c.node { first_child = o }) h;
          linked = ground (arith, c.found);
          frame =
              λ y a b. find-assign_ne p y (record c.node { first_child = o }) h (λ k. b (sym k));
          node = record c.node { first_child = o };
          found = find-assign_self p (record c.node { first_child = o }) h;
          siblings = λ h' ws same t. t;
        },
      )

  bypass-behind :
      (ws : List ℕ) (q : ℕ) (zs : List ℕ)
      → HasChildren h p (ws ++ q ∷ n ∷ zs)
      → (prev : Option ℕ) × (get_prev_sibling h n ≡ some prev)
        × ((o : Option ℕ) → IsBypassed h p n (ws ++ q ∷ []) prev o)
  unfolding get_prev_sibling
  bypass-behind ws q zs c =
      let (rq, fq, gq, sq) = Siblings-node h p c.node.first_child ws q (n ∷ zs) c.siblings in
      let (x, start, x_ne) =
        Siblings-start h p n c.node.first_child ws q zs c.siblings c.distinct in
      let prev : sibling_before (length h) h n c.node.first_child ≡ some (some q) =
        sibling_before-last (length h) h p n c.node.first_child ws q zs c.siblings c.distinct (
          omega (
            arith,
            Siblings-length h p c.node.first_child (ws ++ q ∷ n ∷ zs) c.siblings c.distinct,
            length-append ws (q ∷ n ∷ zs),
          )) in
      let (dw, dq, parts) = Distinct-append ws (q ∷ n ∷ zs) c.distinct in
      let q_ne : ¬ (q ≡ p) = λ k. c.proper (
        subst (λ z. In z (ws ++ q ∷ n ∷ zs)) k
          ((In-append q ws (q ∷ n ∷ zs)).1 (inr (inl refl)))) in
      (
        some q,
        ground (arith, sq.2, sq.3, c.found, start, x_ne, prev),
        λ o. record {
          heap = assign q (record rq { next_sibling = o }) h;
          linked = ground (arith, fq);
          frame = λ y a b.
              find-assign_ne q y (record rq { next_sibling = o }) h
                (λ k. a ((In-append y ws (q ∷ [])).1 (inr (inl (sym k)))));
          node = c.node;
          found = find-assign_ne q p (record rq { next_sibling = o }) h q_ne ∙ c.found;
          siblings = λ h' vs same t.
              subst (Siblings h' p c.node.first_child) (sym (append_assoc ws (q ∷ []) vs)) (
                Siblings-splice h h' p c.node.first_child ws q (n ∷ zs) vs
                  (record rq { next_sibling = o }) c.siblings
                  (λ y m.
                    same y ((In-append y ws (q ∷ [])).1 (inl m))
                    ∙ find-assign_ne q y (record rq { next_sibling = o }) h
                        (λ k. parts y m (inl (sym k))))
                  (same q ((In-append q ws (q ∷ [])).1 (inr (inl refl)))
                    ∙ find-assign_self q (record rq { next_sibling = o }) h)
                  gq t);
        },
      )

pub get_prev_sibling-IsBypassed :
    (h : Heap) (p n : ℕ) (ys zs : List ℕ)
    → HasChildren h p (ys ++ n ∷ zs)
    → (prev : Option ℕ) × (get_prev_sibling h n ≡ some prev)
      × ((o : Option ℕ) → IsBypassed h p n ys prev o)
get_prev_sibling-IsBypassed h p n ys zs c = elim (Split-last ys) [
  | inl e ↦
      let (prev, run, b) = bypass-first h p n zs (subst (λ l. HasChildren h p (l ++ n ∷ zs)) e c) in
      (prev, run, λ o. subst (λ l. IsBypassed h p n l prev o) (sym e) (b o))
  | inr (ws, q, e) ↦
      let (prev, run, b) =
        bypass-behind h p n ws q zs (
          subst (HasChildren h p) (ap (λ l. l ++ n ∷ zs) e ∙ append_assoc ws (q ∷ []) (n ∷ zs))
            c) in
      (prev, run, λ o. subst (λ l. IsBypassed h p n l prev o) (sym e) (b o))
]
