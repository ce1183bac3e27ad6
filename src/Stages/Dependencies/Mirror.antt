-- ===== src/Stages/Dependencies/Mirror.antt =====
-- The two maps of dependencies say the same, and what they say of the tokens.
use acgatea.Common.{
  ℕ, subst, ◌≡◌, refl, ◌↔◌, Option, none, some, List, [], ◌∷◌, ◌++◌, In, In-cases, In-append, ◌⊎◌,
  inl, inr, arith,
}
use acgatea.Common.Map.{Map, find, assign, find-assign}
use acgatea.Stages.Dependencies.{
  StageOp, StageDependencyDag, entry, push_back, clear_entries, note_producer, token_producers,
  link, link_tokens, link_stages, dependencies,
}

-- Some stage gives the token out.
abbrev pub IsProduced : List StageOp → ℕ → Type 0
IsProduced [] t = ⊥
IsProduced (s ∷ stages) t = In t s.depends_out ⊎ IsProduced stages t

-- The last stage that gives the token out is `p`.
abbrev pub IsProducer : List StageOp → ℕ → ℕ → Type 0
IsProducer [] t p = ⊥
IsProducer (s ∷ stages) t p =
    IsProducer stages t p ⊎ ((s.operation ≡ p) × In t s.depends_out × (¬ IsProduced stages t))

-- One of the tokens comes from `p`.
abbrev pub IsFed : List StageOp → List ℕ → ℕ → Type 0
IsFed all [] p = ⊥
IsFed all (t ∷ tokens) p = IsProducer all t p ⊎ IsFed all tokens p

-- Among the stages there is `s`, which takes a token that comes from `p`.
abbrev pub DependsOn : List StageOp → List StageOp → ℕ → ℕ → Type 0
DependsOn all [] s p = ⊥
DependsOn all (x ∷ stages) s p =
    ((x.operation ≡ s) × IsFed all x.depends_in p) ⊎ DependsOn all stages s p

note_producer-find :
    (o : ℕ) (ts : List ℕ) (m : Map ℕ) (t p : ℕ)
    → (find t (note_producer o ts m) ≡ some p)
      ↔ ((In t ts × (o ≡ p)) ⊎ ((¬ In t ts) × (find t m ≡ some p)))
unfolding note_producer
note_producer-find o [] m t p = ground arith
note_producer-find o (x ∷ ts) m t p =
    ground (arith, In-cases t ts, note_producer-find o ts (assign x o m) t p, find-assign x t o m)

token_producers-find :
    (stages : List StageOp) (m : Map ℕ) (t p : ℕ)
    → (find t (token_producers stages m) ≡ some p)
      ↔ (IsProducer stages t p ⊎ ((¬ IsProduced stages t) × (find t m ≡ some p)))
unfolding token_producers
token_producers-find [] m t p = ground arith
token_producers-find (s ∷ stages) m t p = ground (
  arith,
  token_producers-find stages (note_producer s.operation s.depends_out m) t p,
  note_producer-find s.operation s.depends_out m t p,
)

entry-push_back :
    (k v : ℕ) (m : Map (List ℕ)) (j x : ℕ)
    → In x (entry (push_back k v m) j) ↔ (((k ≡ j) × (x ≡ v)) ⊎ In x (entry m j))
entry-push_back k v m j x =
    ground (arith, find-assign k j (entry m k ++ v ∷ []) m, In-append x (entry m k) (v ∷ []))

link-predecessors :
    (o : ℕ) (f : Option ℕ) (dag : StageDependencyDag) (s p : ℕ)
    → In p (entry (link o f dag).predecessors s)
      ↔ (In p (entry dag.predecessors s) ⊎ ((o ≡ s) × (f ≡ some p)))
link-predecessors o none dag s p = ground arith
link-predecessors o (some q) dag s p = ground (arith, entry-push_back o q dag.predecessors s p)

link-successors :
    (o : ℕ) (f : Option ℕ) (dag : StageDependencyDag) (s p : ℕ)
    → In s (entry (link o f dag).successors p)
      ↔ (In s (entry dag.successors p) ⊎ ((o ≡ s) × (f ≡ some p)))
link-successors o none dag s p = ground arith
link-successors o (some q) dag s p = ground (arith, entry-push_back q o dag.successors p s)

module _ (all : List StageOp) (producers : Map ℕ)
    (known : (t p : ℕ) → (find t producers ≡ some p) ↔ IsProducer all t p) where
  link_tokens-predecessors :
      (o : ℕ) (ts : List ℕ) (dag : StageDependencyDag) (s p : ℕ)
      → In p (entry (link_tokens producers o ts dag).predecessors s)
        ↔ (In p (entry dag.predecessors s) ⊎ ((o ≡ s) × IsFed all ts p))
  unfolding link_tokens
  link_tokens-predecessors o [] dag s p = ground arith
  link_tokens-predecessors o (t ∷ ts) dag s p = ground (
    arith,
    link_tokens-predecessors o ts (link o (find t producers) dag) s p,
    link-predecessors o (find t producers) dag s p,
    known t p,
  )

  link_tokens-successors :
      (o : ℕ) (ts : List ℕ) (dag : StageDependencyDag) (s p : ℕ)
      → In s (entry (link_tokens producers o ts dag).successors p)
        ↔ (In s (entry dag.successors p) ⊎ ((o ≡ s) × IsFed all ts p))
  unfolding link_tokens
  link_tokens-successors o [] dag s p = ground arith
  link_tokens-successors o (t ∷ ts) dag s p = ground (
    arith,
    link_tokens-successors o ts (link o (find t producers) dag) s p,
    link-successors o (find t producers) dag s p,
    known t p,
  )

  link_stages-dependencies :
      (stages : List StageOp) (dag : StageDependencyDag) (s p : ℕ)
      → (In p (entry (link_stages producers stages dag).predecessors s)
          ↔ (In p (entry dag.predecessors s) ⊎ DependsOn all stages s p))
        × (In s (entry (link_stages producers stages dag).successors p)
            ↔ (In s (entry dag.successors p) ⊎ DependsOn all stages s p))
  unfolding link_stages
  link_stages-dependencies [] dag s p = ground arith
  link_stages-dependencies (x ∷ stages) dag s p = ground (
    arith,
    link_stages-dependencies stages (link_tokens producers x.operation x.depends_in dag) s p,
    link_tokens-predecessors x.operation x.depends_in dag s p,
    link_tokens-successors x.operation x.depends_in dag s p,
  )

pub clear_entries-empty :
    (stages : List StageOp) (dag : StageDependencyDag)
    → ((j : ℕ) → (entry dag.predecessors j ≡ []) × (entry dag.successors j ≡ []))
    → (j : ℕ)
    → (entry (clear_entries stages dag).predecessors j ≡ [])
      × (entry (clear_entries stages dag).successors j ≡ [])
unfolding clear_entries
clear_entries-empty [] dag h j = h j
clear_entries-empty (x ∷ stages) dag h j =
    clear_entries-empty stages _
      (λ i. ground (
        arith,
        h i,
        find-assign x.operation i [] dag.predecessors,
        find-assign x.operation i [] dag.successors,
      ))
      j

iff_of_empty : (P Q : Type 0) (a : ℕ) (xs : List ℕ) → xs ≡ [] → (P ↔ (In a xs ⊎ Q)) → P ↔ Q
iff_of_empty P Q a xs e f =
    (λ p. elim (f.0 p) [ inl m ↦ absurd (subst (In a) e m) | inr q ↦ q ], λ q. f.1 (inr q))

-- For any stages, `p` is listed as a predecessor of `s`, and `s` as a successor of `p`, exactly if
-- some stage with the name `s` takes a token which `p` is the last of the stages to give out.
pub dependencies_iff :
    (stages : List StageOp) (s p : ℕ)
    → (In p (entry (dependencies stages).predecessors s) ↔ DependsOn stages stages s p)
      × (In s (entry (dependencies stages).successors p) ↔ DependsOn stages stages s p)
unfolding dependencies find
dependencies_iff stages s p =
    let none_yet : StageDependencyDag = record { predecessors = []; successors = [] } in
    let start = clear_entries stages none_yet in
    let (no_p, _) = clear_entries-empty stages none_yet (λ j. (refl, refl)) s in
    let (_, no_s) = clear_entries-empty stages none_yet (λ j. (refl, refl)) p in
    let (a, b) =
      link_stages-dependencies stages (token_producers stages [])
        (λ t q. ground (arith, token_producers-find stages [] t q)) stages start s p in
    (
      iff_of_empty (In p (entry (dependencies stages).predecessors s)) (DependsOn stages stages s p)
          p (entry start.predecessors s) no_p a,
      iff_of_empty (In s (entry (dependencies stages).successors p)) (DependsOn stages stages s p) s
          (entry start.successors p) no_s b,
    )
