-- ===== src/Stages/Dependencies/Analyzed.antt =====
-- `analyzeStageDependencies` fails exactly if there is a cycle; one unit of fuel for each stage is enough.
use acgatea.Common.{
  ℕ, ◌≤◌, subst, ◌≡◌, refl, sym, ◌==◌, ==_iff, true, false, List, [], ◌∷◌, In, All, All-In, In-All,
  inl, inr, arith, Bool-cases, length, map,
}
use acgatea.Common.Map.{Map, find}
use acgatea.Stages.Dependencies.{
  StageOp, StageDependencyDag, entry, color_of, Visit, cycle_found, finished, out_of_fuel, continue,
  has_cycle, search_cycles, Analysis, analyzed, circular, conclude, dependencies,
  analyze_stage_dependencies,
}
use acgatea.Stages.Dependencies.Mirror.{DependsOn, IsFed, IsProducer, dependencies_iff}
use acgatea.Stages.Dependencies.Coloring.{
  Chain, step, more, IsOrder, IsColored, whites, IsVisit, IsLater-refl,
}
use acgatea.Stages.Dependencies.Cycles.{
  has_cycle-IsVisitor, whites-later, continue-IsVisit, IsVisit-after,
}

abbrev pub operations : List StageOp → List ℕ
operations = map (λ s. s.operation)

module _ (dag : StageDependencyDag) where
  search_cycles-white :
      (fuel : ℕ) (s : StageOp) (stages : List StageOp) (c : Map ℕ)
      → (color_of c s.operation == 0) ≡ true
      → search_cycles dag fuel (s ∷ stages) c
        ≡ continue (has_cycle dag fuel s.operation c) (search_cycles dag fuel stages)
  unfolding search_cycles
  search_cycles-white fuel s stages c white = rw (white, search_cycles) refl

  search_cycles-black :
      (fuel : ℕ) (s : StageOp) (stages : List StageOp) (c : Map ℕ)
      → (color_of c s.operation == 0) ≡ false
      → search_cycles dag fuel (s ∷ stages) c ≡ search_cycles dag fuel stages c
  unfolding search_cycles
  search_cycles-black fuel s stages c black = rw (black, search_cycles) refl

  abbrev AreBlack : List StageOp → Map ℕ → Type 0
  AreBlack stages c = All (λ n. color_of c n ≡ 2) (operations stages)

  search_cycles-IsVisit :
      (ks : List ℕ) (known : (u : ℕ) → All (λ n. In n ks) (entry dag.successors u)) (fuel : ℕ)
      (stages : List StageOp) (c : Map ℕ) (ord : List ℕ)
      → All (λ n. In n ks) (operations stages)
      → IsColored dag c ord
      → ((g : ℕ) → ¬ (color_of c g ≡ 1))
      → whites c ks ≤ fuel
      → IsVisit dag c (AreBlack stages) (search_cycles dag fuel stages c)
  unfolding search_cycles
  search_cycles-IsVisit ks known fuel [] c ord h k quiet le = (ord, k, IsLater-refl c, tt)
  search_cycles-IsVisit ks known fuel (s ∷ stages) c ord h k quiet le =
      elim (Bool-cases (color_of c s.operation == 0)) [
        | inl white ↦
            subst (IsVisit dag c (AreBlack (s ∷ stages)))
              (sym (search_cycles-white fuel s stages c white))
              (continue-IsVisit dag c (λ d. color_of d s.operation ≡ 2) (AreBlack stages)
                (AreBlack (s ∷ stages)) (has_cycle dag fuel s.operation c)
                (search_cycles dag fuel stages)
                (has_cycle-IsVisitor dag ks known fuel s.operation c ord k
                  ((==_iff (color_of c s.operation) 0).0 white) h.0
                  (λ g gray. absurd (quiet g gray)) le)
                (λ d ord' k' l p.
                  search_cycles-IsVisit ks known fuel stages d ord' h.1 k'
                    (λ g gray. quiet g ((l.gray g).0 gray))
                    (whites-later dag ks known c d ord fuel k l le))
                (λ d e p l q. (l.still s.operation p, q)))
        | inr other ↦
            let two : color_of c s.operation ≡ 2 =
              ground (arith, k.at_most s.operation, other, quiet s.operation) in
            subst (IsVisit dag c (AreBlack (s ∷ stages)))
              (sym (search_cycles-black fuel s stages c other))
              (IsVisit-after dag c c (AreBlack stages) (AreBlack (s ∷ stages))
                (search_cycles dag fuel stages c) (IsLater-refl c)
                (λ d l p. (l.still s.operation two, p))
                (search_cycles-IsVisit ks known fuel stages c ord h.1 k quiet le))
      ]

  -- An order is closed under successors, and so under chains.
  IsOrder-successor :
      (xs : List ℕ) (a b : ℕ) → IsOrder dag xs → In a xs → In b (entry dag.successors a) → In b xs
  IsOrder-successor [] a b o m e = absurd m
  IsOrder-successor (x ∷ xs) a b o (inl same) e = inr (
      All-In (λ y. In y xs) (entry dag.successors x) o.1 b
        (subst (λ z. In b (entry dag.successors z)) same e))
  IsOrder-successor (x ∷ xs) a b o (inr m) e = inr (IsOrder-successor xs a b o.2 m e)

  Chain-behind : (x : ℕ) (xs : List ℕ) (b : ℕ) → IsOrder dag (x ∷ xs) → Chain dag x b → In b xs
  Chain-behind x xs b o (step _ e) = All-In (λ y. In y xs) (entry dag.successors x) o.1 b e
  Chain-behind x xs c o (more b _ chain e) =
      IsOrder-successor xs b c o.2 (Chain-behind x xs b o chain) e

  IsOrder-acyclic : (xs : List ℕ) (v : ℕ) → IsOrder dag xs → In v xs → ¬ Chain dag v v
  IsOrder-acyclic [] v o m chain = absurd m
  IsOrder-acyclic (x ∷ xs) v o (inl same) chain =
      o.0 (Chain-behind x xs x o (subst (λ z. Chain dag z z) same chain))
  IsOrder-acyclic (x ∷ xs) v o (inr m) chain = IsOrder-acyclic xs v o.2 m chain

  Chain-end : (a b : ℕ) → Chain dag a b → (u : ℕ) × In b (entry dag.successors u)
  Chain-end a b (step _ e) = (a, e)
  Chain-end a b (more u _ chain e) = (u, e)

pub DependsOn-stage :
    (all stages : List StageOp) (s p : ℕ) → DependsOn all stages s p → In s (operations stages)
DependsOn-stage all [] s p h = absurd h
DependsOn-stage all (x ∷ stages) s p (inl h) = inl (sym h.0)
DependsOn-stage all (x ∷ stages) s p (inr h) = inr (DependsOn-stage all stages s p h)

IsProducer-stage :
    (stages : List StageOp) (t p : ℕ) → IsProducer stages t p → In p (operations stages)
IsProducer-stage [] t p h = absurd h
IsProducer-stage (x ∷ stages) t p (inl h) = inr (IsProducer-stage stages t p h)
IsProducer-stage (x ∷ stages) t p (inr h) = inl (sym h.0)

IsFed-stage : (all : List StageOp) (ts : List ℕ) (p : ℕ) → IsFed all ts p → In p (operations all)
IsFed-stage all [] p h = absurd h
IsFed-stage all (t ∷ ts) p (inl h) = IsProducer-stage all t p h
IsFed-stage all (t ∷ ts) p (inr h) = IsFed-stage all ts p h

pub DependsOn-producer :
    (all stages : List StageOp) (s p : ℕ) → DependsOn all stages s p → In p (operations all)
DependsOn-producer all [] s p h = absurd h
DependsOn-producer all (x ∷ stages) s p (inl h) = IsFed-stage all x.depends_in p h.1
DependsOn-producer all (x ∷ stages) s p (inr h) = DependsOn-producer all stages s p h

whites-start : (stages : List StageOp) → whites [] (operations stages) ≤ length stages
unfolding find
whites-start [] = omega arith
whites-start (s ∷ stages) = omega (arith, whites-start stages)

-- What the analysis has to answer.
pub data IsAnalysis (stages : List StageOp) : Analysis → Type 0 where
  acyclic :
      ((v : ℕ) → ¬ Chain (dependencies stages) v v)
      → IsAnalysis stages (analyzed (dependencies stages))
  cyclic : (v : ℕ) → Chain (dependencies stages) v v → IsAnalysis stages circular

-- For any stages, the analysis returns: it gives the dependencies, and then no stage depends on itself
-- through a chain of them, or it reports a cycle, and then some stage does.
pub analyze_stage_dependencies-IsAnalysis :
    (stages : List StageOp) → IsAnalysis stages (analyze_stage_dependencies stages)
unfolding analyze_stage_dependencies find
analyze_stage_dependencies-IsAnalysis stages =
    conclude-IsAnalysis (search_cycles dag (length stages) stages []) (
      search_cycles-IsVisit dag ks known (length stages) stages [] []
        (In-All (λ n. In n ks) ks (λ n m. m))
        (record { order = tt; black = λ v. ground arith; at_most = λ v. omega arith })
        (λ g h. ground arith) (whites-start stages))
  where
    dag : StageDependencyDag
    dag = dependencies stages

    ks : List ℕ
    ks = operations stages

    known : (u : ℕ) → All (λ n. In n ks) (entry dag.successors u)
    known u =
        In-All (λ n. In n ks) (entry dag.successors u)
          (λ n m. DependsOn-stage stages stages n u ((dependencies_iff stages n u).1.0 m))

    conclude-IsAnalysis :
        (r : Visit) → IsVisit dag [] (AreBlack dag stages) r → IsAnalysis stages (conclude dag r)
    conclude-IsAnalysis cycle_found (v, chain) = cyclic v chain
    conclude-IsAnalysis (finished d) (ord, k, l, all) = acyclic (λ v chain.
        let (u, e) = Chain-end dag v v chain in
        let in_ks = All-In (λ n. In n ks) (entry dag.successors u) (known u) v e in
        let two = All-In (λ n. color_of d n ≡ 2) ks all v in_ks in
        IsOrder-acyclic dag ord v k.order ((k.black v).0 two) chain)
    conclude-IsAnalysis out_of_fuel v = absurd v
