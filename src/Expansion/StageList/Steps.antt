-- ===== src/Expansion/StageList/Steps.antt =====
-- What one node of the path does to the walk.
use acgatea.Common.{
  ℕ, suc, ◌≤◌, ◌<◌, ◌≡◌, ◌↔◌, ◌⊎◌, true, false, Option, none, some, List, [], ◌∷◌, ◌++◌, ◌==◌,
  ◌>>=◌, ◌&&◌, not, ltb, leb, is_contained, is_contained_iff, In, In-append, inl, inr, arith,
  Distinct, Distinct-append_one, >>=-eq-some, Bool-cases, refl, sym, subst, ap,
}
use acgatea.Common.Map.{find, find-assign_self, find-assign_ne}
use acgatea.OperationTree.Children.{insert_after, insert_in_children}
use acgatea.Expansion.StageList.{
  Walk, has_resource, synthetic_info, insert_synthetic_stage, with_synthetic_stage,
  insert_original_stage, find_stage_from,
}

insert_after-In :
    (pos node : ℕ) (xs ys : List ℕ) (x : ℕ)
    → insert_after pos node xs ≡ some ys
    → In x ys ↔ ((x ≡ node) ⊎ In x xs)
unfolding insert_after
insert_after-In pos node [] ys x h = cc
insert_after-In pos node (y ∷ xs) ys x h = elim (Bool-cases (y == pos)) [
  | inl e ↦
      let k : y ∷ node ∷ xs ≡ ys = ground (arith, e, h) in
      subst (λ l. In x l ↔ ((x ≡ node) ⊎ In x (y ∷ xs))) k (ground arith)
  | inr e ↦
      let chain : (insert_after pos node xs >>= λ zs. some (y ∷ zs)) ≡ some ys =
        ground (arith, e, h) in
      let (zs, f, k) = >>=-eq-some (insert_after pos node xs) _ chain in
      let g : y ∷ zs ≡ ys = ground (arith, k) in
      subst (λ l. In x l ↔ ((x ≡ node) ⊎ In x (y ∷ xs))) g
        (ground (arith, insert_after-In pos node xs zs x f))
]

insert_in_children-In :
    (node : ℕ) (pos : Option ℕ) (xs ys : List ℕ) (x : ℕ)
    → insert_in_children node pos xs ≡ some ys
    → In x ys ↔ ((x ≡ node) ⊎ In x xs)
unfolding insert_in_children
insert_in_children-In node none xs ys x h =
    let k : xs ++ node ∷ [] ≡ ys = ground (arith, h) in
    subst (λ l. In x l ↔ ((x ≡ node) ⊎ In x xs)) k (ground (arith, In-append x xs (node ∷ [])))
insert_in_children-In node (some pos) xs ys x h = insert_after-In pos node xs ys x h

module _ (start : ℕ) (sorted_stages : List ℕ) where
  -- The original stages have addresses below `start`, and those on the list were visited.
  pub record IsWalk (w : Walk) : Type 0 where
    pub below : (s : ℕ) → In s w.tree.stages → s < w.tree.fresh
    pub grown : start ≤ w.tree.fresh
    pub listed : (s : ℕ) → In s w.ordered_stages → In s w.tree.stages
    pub original : (s : ℕ) → In s sorted_stages → In s w.tree.stages × (s < start)
    pub known : (s : ℕ) → In s w.ordered_stages → s < start → In s w.visited
    pub origin : (s : ℕ) → In s w.ordered_stages → In s sorted_stages ⊎ (start ≤ s)
    pub distinct : Distinct w.ordered_stages

  -- One stage joins the list.
  pub record IsStep (w w' : Walk) (s : ℕ) : Type 0 where
    pub walks : IsWalk w'
    pub appended : w'.ordered_stages ≡ w.ordered_stages ++ s ∷ []
    pub absent : ¬ In s w.ordered_stages
    pub kept : (t : ℕ) → ¬ (t ≡ s) → find t w'.plan.stage_info ≡ find t w.plan.stage_info

  pub insert_original_stage-IsStep :
      (w w' : Walk) (s : ℕ)
      → IsWalk w
      → w'.tree ≡ w.tree
      → w'.ordered_stages ≡ w.ordered_stages
      → w'.visited ≡ w.visited
      → ((t : ℕ) → ¬ (t ≡ s) → find t w'.plan.stage_info ≡ find t w.plan.stage_info)
      → In s sorted_stages
      → is_contained s w.visited ≡ false
      → IsStep w (insert_original_stage s w') s
  insert_original_stage-IsStep w w' s v et eo ev kept m unseen = record {
    walks = record {
      below = λ t n. subst (λ r. In t r.stages → t < r.fresh) (sym et) (v.below t) n;
      grown = subst (λ r. start ≤ r.fresh) (sym et) v.grown;
      listed = λ t n.
          subst (λ r. In t r.stages) (sym et)
            (elim ((In-append t w.ordered_stages (s ∷ [])).0
              (subst (λ l. In t (l ++ s ∷ [])) eo n)) [
                | inl old ↦ v.listed t old
                | inr (inl e) ↦ subst (λ x. In x w.tree.stages) (sym e) (v.original s m).0
                | inr (inr none_left) ↦ absurd none_left
              ]);
      original = λ t n. subst (λ r. In t r.stages × (t < start)) (sym et) (v.original t n);
      known = λ t n low.
          elim ((In-append t w.ordered_stages (s ∷ [])).0 (subst (λ l. In t (l ++ s ∷ [])) eo n)) [
            | inl old ↦ inr (subst (In t) (sym ev) (v.known t old low))
            | inr (inl e) ↦ inl e
            | inr (inr none_left) ↦ absurd none_left
          ];
      origin = λ t n.
          elim ((In-append t w.ordered_stages (s ∷ [])).0 (subst (λ l. In t (l ++ s ∷ [])) eo n)) [
            | inl old ↦ v.origin t old
            | inr (inl e) ↦ inl (subst (λ x. In x sorted_stages) (sym e) m)
            | inr (inr none_left) ↦ absurd none_left
          ];
      distinct =
          subst (λ l. Distinct (l ++ s ∷ [])) (sym eo)
            (Distinct-append_one s w.ordered_stages v.distinct fresh);
    };
    appended = ap (λ l. l ++ s ∷ []) eo;
    absent = fresh;
    kept = kept;
  }
    where
      fresh : ¬ In s w.ordered_stages
      fresh n =
          absurd
            (ground (arith, unseen, is_contained_iff s w.visited, v.known s n (v.original s m).1))

  inserted-IsStep :
      (w w' : Walk) (s : ℕ)
      → IsWalk w
      → s ≡ w.tree.fresh
      → w'.tree.fresh ≡ suc s
      → ((x : ℕ) → In x w'.tree.stages ↔ ((x ≡ s) ⊎ In x w.tree.stages))
      → w'.ordered_stages ≡ w.ordered_stages ++ s ∷ []
      → w'.visited ≡ w.visited
      → ((t : ℕ) → ¬ (t ≡ s) → find t w'.plan.stage_info ≡ find t w.plan.stage_info)
      → IsStep w w' s
  inserted-IsStep w w' s v es ef into eo ev kept = record {
    walks = record {
      below = λ t n. ground (arith, into t, n, es, ef, v.below t);
      grown = omega (arith, es, ef, v.grown);
      listed = λ t n. ground (arith, split t n, into t, v.listed t);
      original = λ t n. ((into t).1 (inr (v.original t n).0), (v.original t n).1);
      known = λ t n low. elim (split t n) [
        | inl old ↦ subst (In t) (sym ev) (v.known t old low)
        | inr e ↦ absurd (omega (arith, e, es, low, v.grown))
      ];
      origin = λ t n. elim (split t n) [
        | inl old ↦ v.origin t old
        | inr e ↦ inr (omega (arith, e, es, v.grown))
      ];
      distinct =
          subst (Distinct) (sym eo) (Distinct-append_one s w.ordered_stages v.distinct fresh);
    };
    appended = eo;
    absent = fresh;
    kept = kept;
  }
    where
      fresh : ¬ In s w.ordered_stages
      fresh n = absurd (omega (arith, es, v.below s (v.listed s n)))

      split : (t : ℕ) → In t w'.ordered_stages → In t w.ordered_stages ⊎ (t ≡ s)
      split t n = ground (arith, In-append t w.ordered_stages (s ∷ []), subst (In t) eo n)

  -- The new node has the information that the planner gave it.
  pub insert_synthetic_stage-IsStep :
      (w w' : Walk) (resource : Option ℕ) (unit : ℕ)
      → IsWalk w
      → insert_synthetic_stage resource unit w ≡ some w'
      → IsStep w w' w.tree.fresh
        × (find w.tree.fresh w'.plan.stage_info ≡ some (synthetic_info resource unit))
  unfolding insert_synthetic_stage
  insert_synthetic_stage-IsStep w w' resource unit v h =
      let (stages, e, k) =
        >>=-eq-some (insert_in_children w.tree.fresh w.last_inserted w.tree.stages) _ h in
      let same : with_synthetic_stage stages resource unit w ≡ w' = ground (arith, k) in
      subst
        (λ x.
          IsStep w x w.tree.fresh
          × (find w.tree.fresh x.plan.stage_info ≡ some (synthetic_info resource unit)))
        same
        (
          inserted-IsStep w (with_synthetic_stage stages resource unit w) w.tree.fresh v refl refl
              (λ x. insert_in_children-In w.tree.fresh w.last_inserted w.tree.stages stages x e)
              refl refl (λ t n. find-assign_ne w.tree.fresh t _ w.plan.stage_info (λ q. n (sym q))),
          find-assign_self w.tree.fresh _ w.plan.stage_info,
        )

pub find_stage_from-Found :
    (w : Walk) (resource idx : ℕ) (stages : List ℕ) (s : ℕ)
    → find_stage_from w resource idx stages ≡ some s
    → In s stages
      × (is_contained s w.visited ≡ false)
      × (has_resource (find s w.plan.stage_info) resource ≡ true)
unfolding find_stage_from
find_stage_from-Found w resource idx [] s h = cc
find_stage_from-Found w resource idx (x ∷ stages) s h =
    elim (Bool-cases (
      leb w.search_begin idx
      && (ltb idx w.search_end
          && (not (is_contained x w.visited)
              && has_resource (find x w.plan.stage_info) resource)))) [
                | inl e ↦
                    let same : x ≡ s = ground (arith, e, h) in
                    subst
                      (λ y.
                        In y (x ∷ stages)
                        × (is_contained y w.visited ≡ false)
                        × (has_resource (find y w.plan.stage_info) resource ≡ true))
                      same (inl refl, ground (arith, e), ground (arith, e))
                | inr e ↦
                    let (m, u, r) =
                      find_stage_from-Found w resource (suc idx) stages s (ground (arith, e, h)) in
                    (inr m, u, r)
              ]
