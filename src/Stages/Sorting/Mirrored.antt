-- ===== src/Stages/Sorting/Mirrored.antt =====
-- In the dag of the analysis each edge is listed as often at its source as at its target.
use acgatea.Common.{
  ℕ, ◌+◌, ◌≡◌, ◌==◌, if◌then◌else◌, List, [], ◌∷◌, ◌++◌, In, length, inl, inr, arith, count,
  count-In, count-append, total, Distinct, Option, none, some, refl, ap,
}
use acgatea.Common.Map.{Map, find, find-assign}
use acgatea.Stages.Dependencies.{
  entry, StageOp, StageDependencyDag, push_back, link, link_tokens, link_stages, dependencies,
  token_producers,
}
use acgatea.Stages.Dependencies.Mirror.{clear_entries-empty}

-- Each edge is listed as often at its one end as at the other.
abbrev pub IsMirrored : StageDependencyDag → Type 0
IsMirrored dag = (p s : ℕ) → count p (entry dag.predecessors s) ≡ count s (entry dag.successors p)

count-push_back :
    (k v : ℕ) (m : Map (List ℕ)) (j x : ℕ)
    → count x (entry (push_back k v m) j)
      ≡ count x (entry m j) + (if k == j then (if v == x then 1 else 0) else 0)
count-push_back k v m j x =
    ground (arith, find-assign k j (entry m k ++ v ∷ []) m, count-append x (entry m k) (v ∷ []))

link-IsMirrored :
    (o : ℕ) (f : Option ℕ) (dag : StageDependencyDag) → IsMirrored dag → IsMirrored (link o f dag)
link-IsMirrored o none dag h p s = h p s
link-IsMirrored o (some q) dag h p s =
    ground (
      arith,
      count-push_back o q dag.predecessors s p,
      count-push_back q o dag.successors p s,
      h p s,
    )

link_tokens-IsMirrored :
    (producers : Map ℕ) (o : ℕ) (ts : List ℕ) (dag : StageDependencyDag)
    → IsMirrored dag
    → IsMirrored (link_tokens producers o ts dag)
unfolding link_tokens
link_tokens-IsMirrored producers o [] dag h = h
link_tokens-IsMirrored producers o (t ∷ ts) dag h =
    link_tokens-IsMirrored producers o ts _ (link-IsMirrored o (find t producers) dag h)

link_stages-IsMirrored :
    (producers : Map ℕ) (stages : List StageOp) (dag : StageDependencyDag)
    → IsMirrored dag
    → IsMirrored (link_stages producers stages dag)
unfolding link_stages
link_stages-IsMirrored producers [] dag h = h
link_stages-IsMirrored producers (s ∷ stages) dag h =
    link_stages-IsMirrored producers stages _
      (link_tokens-IsMirrored producers s.operation s.depends_in dag h)

pub dependencies-IsMirrored : (stages : List StageOp) → IsMirrored (dependencies stages)
unfolding dependencies find
dependencies-IsMirrored stages = link_stages-IsMirrored (token_producers stages []) stages _ (λ p s.
    let none_yet : StageDependencyDag = record { predecessors = []; successors = [] } in
    let (a, _) = clear_entries-empty stages none_yet (λ j. (refl, refl)) s in
    let (_, b) = clear_entries-empty stages none_yet (λ j. (refl, refl)) p in
    omega (arith, ap (count p) a, ap (count s) b))

pub total-ext : (f g : ℕ → ℕ) (ks : List ℕ) → ((p : ℕ) → f p ≡ g p) → total f ks ≡ total g ks
total-ext f g [] h = refl
total-ext f g (k ∷ ks) h = omega (arith, h k, total-ext f g ks h)

total-count :
    (x : ℕ) (xs ks : List ℕ)
    → total (λ p. count p (x ∷ xs)) ks ≡ count x ks + total (λ p. count p xs) ks
total-count x xs [] = refl
total-count x xs (k ∷ ks) = ground (arith, total-count x xs ks)

Distinct-count : (x : ℕ) (ks : List ℕ) → Distinct ks → In x ks → count x ks ≡ 1
Distinct-count x [] d m = absurd m
Distinct-count x (k ∷ ks) d m =
    ground (arith, Distinct-count x ks d.1, count-In x ks, count-In k ks, d.0, m)

-- A list all of whose elements are in `ks` is as long as their occurrences together.
pub length-occurrences :
    (xs ks : List ℕ)
    → Distinct ks
    → ((a : ℕ) → In a xs → In a ks)
    → length xs ≡ total (λ p. count p xs) ks
length-occurrences [] [] d h = refl
length-occurrences [] (k ∷ ks) d h = omega (arith, length-occurrences [] ks d.1 (λ a m. absurd m))
length-occurrences (x ∷ xs) ks d h = omega (
  arith,
  total-count x xs ks,
  Distinct-count x ks d (h x (inl refl)),
  length-occurrences xs ks d (λ a m. h a (inr m)),
)
