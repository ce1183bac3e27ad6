-- ===== src/Stages/Dependencies/Cycles.antt =====
-- One visit of the search for a cycle, which has fuel for each white stage.
use acgatea.Common.{
  ℕ, zero, suc, ◌≤◌, subst, ◌≡◌, refl, sym, ◌==◌, ==_iff, true, false, List, [], ◌∷◌, In, All,
  All-In, In-All, All-mono, inl, inr, arith, Bool-cases,
}
use acgatea.Common.Map.{Map, assign}
use acgatea.Stages.Dependencies.{
  StageDependencyDag, entry, color_of, Visit, cycle_found, finished, out_of_fuel, continue, scan,
  has_cycle,
}
use acgatea.Stages.Dependencies.Coloring.{
  Chain, step, more, IsColored, whites, IsLater, color_of-assign, whites_le, whites-assign, IsVisit,
  GrayLeads, GrayLeadsOr, IsLater-refl, IsLater-trans, IsLater-white,
}

pub IsVisit-after :
    (dag : StageDependencyDag) (c c' : Map ℕ) (P Q : Map ℕ → Type 0) (r : Visit)
    → IsLater c c'
    → ((d : Map ℕ) → IsLater c' d → P d → Q d)
    → IsVisit dag c' P r
    → IsVisit dag c Q r
IsVisit-after dag c c' P Q cycle_found l f v = v
IsVisit-after dag c c' P Q (finished d) l f (ord, k, l', p) =
    (ord, k, IsLater-trans c c' d l l', f d l' p)
IsVisit-after dag c c' P Q out_of_fuel l f v = v

pub continue-IsVisit :
    (dag : StageDependencyDag) (c : Map ℕ) (P Q R : Map ℕ → Type 0) (r : Visit)
    (rest : Map ℕ → Visit)
    → IsVisit dag c P r
    → ((d : Map ℕ) (ord : List ℕ)
        → IsColored dag d ord
        → IsLater c d
        → P d
        → IsVisit dag d Q (rest d))
    → ((d e : Map ℕ) → P d → IsLater d e → Q e → R e)
    → IsVisit dag c R (continue r rest)
continue-IsVisit dag c P Q R cycle_found rest v f g = v
continue-IsVisit dag c P Q R (finished d) rest (ord, k, l, p) f g =
    IsVisit-after dag c d Q R (rest d) l (λ e l' q. g d e p l' q) (f d ord k l p)
continue-IsVisit dag c P Q R out_of_fuel rest v f g = v

module _ (visit : ℕ → Map ℕ → Visit) (s : ℕ) (ss : List ℕ) (c : Map ℕ) where
  scan-gray : (color_of c s == 1) ≡ true → scan visit (s ∷ ss) c ≡ cycle_found
  unfolding scan
  scan-gray gray = rw (gray, scan) refl

  scan-white :
      (color_of c s == 1) ≡ false
      → (color_of c s == 0) ≡ true
      → scan visit (s ∷ ss) c ≡ continue (visit s c) (scan visit ss)
  unfolding scan
  scan-white other white = rw (other, white, scan) refl

  scan-black :
      (color_of c s == 1) ≡ false
      → (color_of c s == 0) ≡ false
      → scan visit (s ∷ ss) c ≡ scan visit ss c
  unfolding scan
  scan-black other black = rw (other, black, scan) refl

module _ (dag : StageDependencyDag) (ks : List ℕ)
    (known : (u : ℕ) → All (λ n. In n ks) (entry dag.successors u)) where
  -- A visit that has fuel for the white stages.
  abbrev pub IsVisitor : ℕ → (ℕ → Map ℕ → Visit) → Type 0
  IsVisitor fuel visit =
      (s : ℕ) (c : Map ℕ) (ord : List ℕ)
      → IsColored dag c ord
      → color_of c s ≡ 0
      → In s ks
      → GrayLeads dag c s
      → whites c ks ≤ fuel
      → IsVisit dag c (λ d. color_of d s ≡ 2) (visit s c)

  abbrev IsBlack : List ℕ → Map ℕ → Type 0
  IsBlack ss c = All (λ s. color_of c s ≡ 2) ss

  pub whites-later :
      (c d : Map ℕ) (ord : List ℕ) (fuel : ℕ)
      → IsColored dag c ord
      → IsLater c d
      → whites c ks ≤ fuel
      → whites d ks ≤ fuel
  whites-later c d ord fuel k l le =
      omega (arith, le, whites_le c d ks (IsLater-white dag c d ord k l))

  module _ (fuel : ℕ) (visit : ℕ → Map ℕ → Visit) (ok : IsVisitor fuel visit) (operation : ℕ) where
    scan-IsVisit :
        (ss : List ℕ) (c : Map ℕ) (ord : List ℕ)
        → All (λ s. In s ks × In s (entry dag.successors operation)) ss
        → IsColored dag c ord
        → GrayLeadsOr dag c operation
        → whites c ks ≤ fuel
        → IsVisit dag c (IsBlack ss) (scan visit ss c)
    unfolding scan
    scan-IsVisit [] c ord h k lead le = (ord, k, IsLater-refl c, tt)
    scan-IsVisit (s ∷ ss) c ord h k lead le = elim (Bool-cases (color_of c s == 1)) [
      | inl gray ↦
          subst (IsVisit dag c (IsBlack (s ∷ ss))) (sym (scan-gray visit s ss c gray))
            (elim (lead s ((==_iff (color_of c s) 1).0 gray)) [
              | inl e ↦ (s, subst (λ x. Chain dag x s) (sym e) (step s h.0.1))
              | inr chain ↦ (s, more operation s chain h.0.1)
            ])
      | inr other ↦ elim (Bool-cases (color_of c s == 0)) [
        | inl white ↦
            subst (IsVisit dag c (IsBlack (s ∷ ss))) (sym (scan-white visit s ss c other white)) (
              continue-IsVisit dag c (λ d. color_of d s ≡ 2) (IsBlack ss) (IsBlack (s ∷ ss))
                (visit s c) (scan visit ss)
                (ok s c ord k ((==_iff (color_of c s) 0).0 white) h.0.0
                  (λ g at. elim (lead g at) [
                    | inl e ↦ subst (λ x. Chain dag x s) (sym e) (step s h.0.1)
                    | inr chain ↦ more operation s chain h.0.1
                  ])
                  le)
                (λ d ord' k' l p.
                  scan-IsVisit ss d ord' h.1 k' (λ g at. lead g ((l.gray g).0 at))
                    (whites-later c d ord fuel k l le))
                (λ d e p l q. (l.still s p, q)))
        | inr black ↦
            let two : color_of c s ≡ 2 = ground (arith, k.at_most s, other, black) in
            subst (IsVisit dag c (IsBlack (s ∷ ss))) (sym (scan-black visit s ss c other black)) (
              IsVisit-after dag c c (IsBlack ss) (IsBlack (s ∷ ss)) (scan visit ss c)
                (IsLater-refl c) (λ d l p. (l.still s two, p))
                (scan-IsVisit ss c ord h.1 k lead le))
      ]
    ]

  -- The stage in hand becomes black when all its successors are.
  close-IsVisit :
      (operation : ℕ) (c : Map ℕ) (r : Visit)
      → color_of c operation ≡ 0
      → IsVisit dag (assign operation 1 c) (IsBlack (entry dag.successors operation)) r
      → IsVisit dag c
          (λ d. color_of d operation ≡ 2)
          (continue r (λ d. finished (assign operation 2 d)))
  close-IsVisit o c cycle_found white v = v
  close-IsVisit o c out_of_fuel white v = v
  close-IsVisit o c (finished d) white (ord, k, l, all) =
      let gray : color_of d o ≡ 1 = (l.gray o).1 (ground (arith, color_of-assign o 1 c o)) in
      (
        o ∷ ord,
        record {
          order = (
            λ m. ground (arith, (k.black o).1 m, gray),
            All-mono (λ y. color_of d y ≡ 2) (λ y. In y ord) (λ y e. (k.black y).0 e)
                (entry dag.successors o) all,
            k.order,
          );
          black = λ v. ground (arith, color_of-assign o 2 d v, k.black v);
          at_most = λ v. ground (arith, color_of-assign o 2 d v, k.at_most v);
        },
        record {
          gray = λ v.
              ground (arith, color_of-assign o 2 d v, color_of-assign o 1 c v, l.gray v, white);
          still = λ v h.
              ground (arith, color_of-assign o 2 d v, color_of-assign o 1 c v, l.still v, white);
        },
        ground (arith, color_of-assign o 2 d o),
      )

  pub has_cycle-IsVisitor : (fuel : ℕ) → IsVisitor fuel (has_cycle dag fuel)
  unfolding has_cycle
  has_cycle-IsVisitor zero s c ord k white at lead le =
      absurd (omega (arith, whites-assign s c ks at white, le))
  has_cycle-IsVisitor (suc fuel) s c ord k white at lead le = close-IsVisit s c _ white (
      scan-IsVisit fuel (has_cycle dag fuel) (has_cycle-IsVisitor fuel) s (entry dag.successors s)
        (assign s 1 c) ord
        (In-All (λ n. In n ks × In n (entry dag.successors s)) (entry dag.successors s)
          (λ n m. (All-In (λ n. In n ks) (entry dag.successors s) (known s) n m, m)))
        (record {
          order = k.order;
          black = λ v. ground (arith, color_of-assign s 1 c v, k.black v, white);
          at_most = λ v. ground (arith, color_of-assign s 1 c v, k.at_most v);
        })
        (λ g gray. elim (Bool-cases (s == g)) [
          | inl e ↦ inl (sym ((==_iff s g).0 e))
          | inr ne ↦ inr (lead g (ground (arith, color_of-assign s 1 c g)))
        ])
        (omega (arith, whites-assign s c ks at white, le)))
