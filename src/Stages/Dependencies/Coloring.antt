-- ===== src/Stages/Dependencies/Coloring.antt =====
-- The three-colour search: the invariant of its colours, and what one visit does.
use acgatea.Common.{
  ℕ, suc, ◌≤◌, ◌<◌, ◌≡◌, ◌↔◌, ◌==◌, if◌then◌else◌, List, [], ◌∷◌, In, All, ◌⊎◌, inl, inr, arith,
}
use acgatea.Common.Map.{Map, assign, find-assign}
use acgatea.Stages.Dependencies.{
  StageDependencyDag, entry, color_of, Visit, cycle_found, finished, out_of_fuel,
}

-- A chain of at least one dependency.
pub data Chain (dag : StageDependencyDag) (a : ℕ) : ℕ → Type 0 where
  step : (b : ℕ) → In b (entry dag.successors a) → Chain dag a b
  more : (b c : ℕ) → Chain dag a b → In c (entry dag.successors b) → Chain dag a c

-- An order of stages, each in front of all its successors.
abbrev pub IsOrder : StageDependencyDag → List ℕ → Type 0
IsOrder dag [] = Unit
IsOrder dag (x ∷ xs) = (¬ In x xs) × All (λ y. In y xs) (entry dag.successors x) × IsOrder dag xs

-- The black stages in the reverse of the order in which they became black.
pub record IsColored (dag : StageDependencyDag) (c : Map ℕ) (ord : List ℕ) : Type 0 where
  pub order : IsOrder dag ord
  pub black : (v : ℕ) → (color_of c v ≡ 2) ↔ In v ord
  pub at_most : (v : ℕ) → color_of c v ≤ 2

abbrev pub whites : Map ℕ → List ℕ → ℕ
whites c [] = 0
whites c (k ∷ ks) = if color_of c k == 0 then suc (whites c ks) else whites c ks

-- From the colours `c` on: gray stages stay gray, and black ones black, and no stage becomes gray.
pub record IsLater (c c' : Map ℕ) : Type 0 where
  pub gray : (v : ℕ) → (color_of c' v ≡ 1) ↔ (color_of c v ≡ 1)
  pub still : (v : ℕ) → color_of c v ≡ 2 → color_of c' v ≡ 2

pub color_of-assign :
    (k x : ℕ) (c : Map ℕ) (v : ℕ) → color_of (assign k x c) v ≡ (if k == v then x else color_of c v)
color_of-assign k x c v = ground (arith, find-assign k v x c)

pub whites_le :
    (c c' : Map ℕ) (ks : List ℕ)
    → ((v : ℕ) → color_of c' v ≡ 0 → color_of c v ≡ 0)
    → whites c' ks ≤ whites c ks
whites_le c c' [] f = omega arith
whites_le c c' (k ∷ ks) f = ground (arith, whites_le c c' ks f, f k)

pub whites-assign :
    (k : ℕ) (c : Map ℕ) (ks : List ℕ)
    → In k ks
    → color_of c k ≡ 0
    → whites (assign k 1 c) ks < whites c ks
whites-assign k c [] h e = absurd h
whites-assign k c (x ∷ ks) (inl same) e = ground (
  arith,
  whites_le c (assign k 1 c) ks (λ v z. ground (arith, color_of-assign k 1 c v)),
  color_of-assign k 1 c x,
  same,
)
whites-assign k c (x ∷ ks) (inr later) e =
    ground (arith, whites-assign k c ks later e, color_of-assign k 1 c x)

-- What a visit or a scan has to leave: on `finished`, later colours that satisfy `Post`.
abbrev pub IsVisit : StageDependencyDag → Map ℕ → (Map ℕ → Type 0) → Visit → Type 0
IsVisit dag c Post cycle_found = (v : ℕ) × Chain dag v v
IsVisit dag c Post (finished c') = (ord : List ℕ) × IsColored dag c' ord × IsLater c c' × Post c'
IsVisit dag c Post out_of_fuel = ⊥

-- The gray stages lead to the stage in hand, or are it.
abbrev pub GrayLeads : StageDependencyDag → Map ℕ → ℕ → Type 0
GrayLeads dag c s = (g : ℕ) → color_of c g ≡ 1 → Chain dag g s

abbrev pub GrayLeadsOr : StageDependencyDag → Map ℕ → ℕ → Type 0
GrayLeadsOr dag c s = (g : ℕ) → color_of c g ≡ 1 → (g ≡ s) ⊎ Chain dag g s

pub IsLater-refl : (c : Map ℕ) → IsLater c c
IsLater-refl c = record { gray = λ v. (λ h. h, λ h. h); still = λ v h. h }

pub IsLater-trans : (a b c : Map ℕ) → IsLater a b → IsLater b c → IsLater a c
IsLater-trans a b c f g = record {
  gray = λ v. (λ h. (f.gray v).0 ((g.gray v).0 h), λ h. (g.gray v).1 ((f.gray v).1 h));
  still = λ v h. g.still v (f.still v h);
}

pub IsLater-white :
    (dag : StageDependencyDag) (c c' : Map ℕ) (ord : List ℕ)
    → IsColored dag c ord
    → IsLater c c'
    → (v : ℕ) → color_of c' v ≡ 0
    → color_of c v ≡ 0
IsLater-white dag c c' ord k f v z = ground (arith, k.at_most v, f.gray v, f.still v)
