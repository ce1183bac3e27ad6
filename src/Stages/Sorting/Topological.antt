-- ===== src/Stages/Sorting/Topological.antt =====
-- What a sort has to answer, and that the result of the loop does: an order of all stages, or a cycle.
use acgatea.Common.{
  ℕ, zero, suc, ◌+◌, ◌≤◌, ◌≡◌, ◌↔◌, ◌==◌, List, [], ◌∷◌, ◌++◌, In, In-append, In-All, In-cases, All,
  length, append_assoc, inl, inr, arith, count, count-In, total-append, total-one, total-le,
  total-lt, Distinct, Distinct-append, Bool-cases, refl, sym, subst,
}
use acgatea.Stages.Sorting.{Sorting, sorted, failure, all_or_failure}
use acgatea.Stages.Sorting.Draining.{incoming, IsReady, IsDrained}

-- Each stage stands once, in front of all its successors.
abbrev pub IsTopological : (ℕ → List ℕ) → List ℕ → Type 0
IsTopological successors [] = Unit
IsTopological successors (s ∷ stages) =
    (¬ In s stages) × All (λ t. In t stages) (successors s) × IsTopological successors stages

-- A way along one edge or more.
pub data Reaches (successors : ℕ → List ℕ) (a : ℕ) : ℕ → Type 0 where
  edge : (b : ℕ) → In b (successors a) → Reaches successors a b
  further : (b c : ℕ) → Reaches successors a b → In c (successors b) → Reaches successors a c

-- The answer of a sort of `stages`.
pub data IsSorting (successors : ℕ → List ℕ) (stages : List ℕ) : Sorting → Type 0 where
  in_order :
      (order : List ℕ)
      → IsTopological successors order
      → ((s : ℕ) → In s order ↔ In s stages)
      → IsSorting successors stages (sorted order)
  in_cycle : (s : ℕ) → In s stages → Reaches successors s s → IsSorting successors stages failure

prepend :
    (successors : ℕ → List ℕ) (a b c : ℕ)
    → In b (successors a)
    → Reaches successors b c
    → Reaches successors a c
prepend successors a b c e (edge d f) = further b d (edge b e) f
prepend successors a b c e (further d f r g) = further d f (prepend successors a b d e r) g

module _ (successors : ℕ → List ℕ) (stages : List ℕ) (distinct : Distinct stages)
    (closed : (s t : ℕ) → In s stages → In t (successors s) → In t stages) where
  module _ (edges : ℕ → ℕ)
      (all_edges : (s : ℕ) → In s stages → edges s ≡ incoming successors stages s) where
    -- A stage whose incoming edges all start in `before` is no successor of another stage.
    settled :
        (before : List ℕ) (s t : ℕ)
        → Distinct before
        → ((a : ℕ) → In a before → In a stages)
        → In s stages
        → (¬ In s before)
        → edges t ≤ incoming successors before t
        → ¬ In t (successors s)
    settled before s t d within m fresh h n = omega (
      arith,
      total-le (λ c. count t (successors c)) (s ∷ before) stages (fresh, d)
          (λ a k. elim k [ inl e ↦ subst (λ b. In b stages) (sym e) m | inr l ↦ within a l ]),
      all_edges t (closed s t m n),
      (count-In t (successors s)).1 n,
    )

    IsReady-IsTopological :
        (before after : List ℕ)
        → Distinct (before ++ after)
        → ((a : ℕ) → In a (before ++ after) ↔ In a stages)
        → ((a : ℕ) → In a before → edges a ≤ incoming successors before a)
        → IsReady edges successors before after
        → IsTopological successors after
    IsReady-IsTopological before [] d within settle r = tt
    IsReady-IsTopological before (s ∷ after) d within settle r =
        let (db, ds, apart) = Distinct-append before (s ∷ after) d in
        let m : In s stages = (within s).0 ((In-append s before (s ∷ after)).1 (inr (inl refl))) in
        let fresh = λ (n : In s before). apart s n (inl refl) in
        let same = append_assoc before (s ∷ []) after in
        let inside =
          λ (a : ℕ) (n : In a before). (within a).0 ((In-append a before (s ∷ after)).1 (inl n)) in
        (
          ds.0,
          In-All (λ t. In t after) (successors s)
              (λ t n. ground (
                arith,
                within t,
                closed s t m n,
                In-append t before (s ∷ after),
                settle t,
                settled before s t db inside m fresh,
                r.0,
                n,
              )),
          IsReady-IsTopological (before ++ s ∷ []) after (subst (Distinct) (sym same) d)
              (λ a. subst (λ l. In a l ↔ In a stages) (sym same) (within a))
              (λ a n. ground (
                arith,
                total-append (λ c. count a (successors c)) before (s ∷ []),
                settle a,
                r.0,
                In-append a before (s ∷ []),
                n,
              ))
              r.1,
        )

    -- Back along the edges between the stages that the loop left over, to one that comes again.
    back_to_cycle :
        (done : List ℕ)
        → IsDrained edges successors stages done
        → (fuel s : ℕ) (trail : List ℕ) → length stages ≤ fuel + length trail
        → Distinct (s ∷ trail)
        → ((a : ℕ) → In a (s ∷ trail) → In a stages)
        → (¬ In s done)
        → ((a : ℕ) → In a trail → Reaches successors s a)
        → (c : ℕ) × In c stages × Reaches successors c c
    back_to_cycle done v zero s trail enough d within left reach = absurd (
        omega
          (arith, total-le (λ _. 1) (s ∷ trail) stages d within, total-one stages, total-one trail))
    back_to_cycle done v (suc fuel) s trail enough d within left reach =
        let m : In s stages = within s (inl refl) in
        let (c, n, unsorted, positive) =
          total-lt (λ p. count s (successors p)) done stages v.distinct distinct
            (λ a k. ((v.complete a).0 k).0)
            (ground (arith, v.complete s, all_edges s m, m, left)) in
        let e : In s (successors c) = (count-In s (successors c)).0 positive in
        elim (In-cases c (s ∷ trail)) [
          | inl (inl same) ↦ (s, m, edge s (subst (λ x. In s (successors x)) same e))
          | inl (inr k) ↦ (s, m, further c s (reach c k) e)
          | inr fresh ↦
              back_to_cycle done v fuel c (s ∷ trail) (omega (arith)) (fresh, d)
                (λ a k. elim k [
                  | inl same ↦ subst (λ b. In b stages) (sym same) n
                  | inr l ↦ within a l
                ])
                unsorted
                (λ a k. elim k [
                  | inl same ↦ subst (Reaches successors c) (sym same) (edge s e)
                  | inr l ↦ prepend successors c s a e (reach a l)
                ])
        ]

    -- As many as the stages are all of them.
    full :
        (done : List ℕ)
        → IsDrained edges successors stages done
        → length done ≡ length stages
        → (a : ℕ) → In a stages
        → In a done
    full done v e a m = elim (In-cases a done) [
      | inl n ↦ n
      | inr fresh ↦ absurd (
          omega (
            arith,
            total-le (λ _. 1) (a ∷ done) stages (fresh, v.distinct)
                (λ b k. elim k [
                  | inl same ↦ subst (λ x. In x stages) (sym same) m
                  | inr l ↦ ((v.complete b).0 l).0
                ]),
            total-one stages,
            total-one done,
          ))
    ]

    pub IsDrained-IsSorting :
        (done : List ℕ)
        → IsDrained edges successors stages done
        → IsSorting successors stages (all_or_failure stages (sorted done))
    IsDrained-IsSorting done v = elim (Bool-cases (length done == length stages)) [
      | inl e ↦
          let same : length done ≡ length stages = ground (arith, e) in
          let all : (s : ℕ) → In s done ↔ In s stages =
            λ s. (λ m. ((v.complete s).0 m).0, full done v same s) in
          rw e (
            in_order done (IsReady-IsTopological [] done v.distinct all (λ a n. absurd n) v.ready)
              all)
      | inr e ↦
          let (s, m, left, _) =
            total-lt (λ _. 1) done stages v.distinct distinct (λ a k. ((v.complete a).0 k).0)
              (ground (
                arith,
                e,
                total-one done,
                total-one stages,
                total-le (λ _. 1) done stages v.distinct (λ a k. ((v.complete a).0 k).0),
              )) in
          let (c, n, r) =
            back_to_cycle done v (length stages) s [] (omega arith) (λ n. n, tt)
              (λ a k. elim k [
                | inl same ↦ subst (λ b. In b stages) (sym same) m
                | inr l ↦ absurd l
              ])
              left (λ a n. absurd n) in
          rw e (in_cycle c n r)
    ]
