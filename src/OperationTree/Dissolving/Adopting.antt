-- ===== src/OperationTree/Dissolving/Adopting.antt =====
-- The loop of `unlinkNode` over the children of the node.
use acgatea.Common.{
  ℕ, zero, suc, ◌<◌, ◌≡◌, Option, some, List, [], ◌∷◌, ◌++◌, In, In-append, inl, inr, arith, length,
  Distinct, refl, sym, subst, ◌∙◌,
}
use acgatea.Common.Map.{find, assign, find-assign_self, find-assign_ne}
use acgatea.OperationTree.{Node, Heap, adopt}
use acgatea.OperationTree.Siblings.{Siblings, Siblings-frame}

-- The siblings `cs`, which start at `o`, are children of `p`, and `next` follows them.
pub record IsAdopted (h h' : Heap) (p : ℕ) (cs : List ℕ) (o next : Option ℕ) : Type 0 where
  pub frame : (y : ℕ) → ¬ In y cs → find y h' ≡ find y h
  pub siblings :
      (h'' : Heap) (zs : List ℕ)
      → ((y : ℕ) → In y cs → find y h'' ≡ find y h')
      → Siblings h'' p next zs
      → Siblings h'' p o (cs ++ zs)

pub adopt-IsAdopted :
    (fuel : ℕ) (h : Heap) (p n : ℕ) (o next : Option ℕ) (cs : List ℕ) (last : ℕ)
    → Siblings h n o (cs ++ last ∷ [])
    → Distinct (cs ++ last ∷ [])
    → length cs < fuel
    → (h' : Heap) × (adopt fuel p (some last) next h o ≡ some h')
      × IsAdopted h h' p (cs ++ last ∷ []) o next
unfolding adopt
adopt-IsAdopted zero h p n o next cs last s d enough = absurd (omega arith)
adopt-IsAdopted (suc fuel) h p n o next [] last (e, r, f, g, s) d enough =
    let r1 : Node = record r { parent_node = some p } in
    let h1 : Heap = assign last r1 h in
    let r2 : Node = record r1 { next_sibling = next } in
    (
      assign last r2 h1,
      ground (arith, e, f, find-assign_self last r1 h),
      record {
        frame = λ y a.
            find-assign_ne last y r2 h1 (λ k. a (inl (sym k)))
            ∙ find-assign_ne last y r1 h (λ k. a (inl (sym k)));
        siblings =
            λ h'' zs same t. (e, r2, same last (inl refl) ∙ find-assign_self last r2 h1, refl, t);
      },
    )
adopt-IsAdopted (suc fuel) h p n o next (c ∷ cs) last (e, r, f, g, s) d enough =
    let r1 : Node = record r { parent_node = some p } in
    let h1 : Heap = assign c r1 h in
    let last_ne : ¬ (last ≡ c) = λ k. d.0 ((In-append c cs (last ∷ [])).1 (inr (inl (sym k)))) in
    let (h', run, a) =
      adopt-IsAdopted fuel h1 p n r.next_sibling next cs last
        (Siblings-frame h h1 n r.next_sibling (cs ++ last ∷ [])
          (λ y m.
            find-assign_ne c y r1 h (λ k. d.0 (subst (λ z. In z (cs ++ last ∷ [])) (sym k) m)))
          s)
        d.1 (omega arith) in
    (
      h',
      ground (arith, e, f, find-assign_self c r1 h, last_ne, run),
      record {
        frame = λ y b. a.frame y (λ m. b (inr m)) ∙ find-assign_ne c y r1 h (λ k. b (inl (sym k)));
        siblings = λ h'' zs same t. (
          e,
          r1,
          same c (inl refl) ∙ a.frame c d.0 ∙ find-assign_self c r1 h,
          refl,
          a.siblings h'' zs (λ y m. same y (inr m)) t,
        );
      },
    )
