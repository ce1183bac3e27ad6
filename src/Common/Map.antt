-- ===== src/Common/Map.antt =====
-- Hash maps with number keys (`llvm::DenseMap`, `llvm::MapVector`, `std::map` in the source): an
-- association list in the order of first insertion. The proofs about loops over a hash map do not use
-- that order.
use Prim.Native.Nat.{ℕ}
use mathlib.Core.Path.{◌≡◌, refl, subst, sym}
use mathlib.Core.Logic.{inl, inr}
use mathlib.Core.Bool.{Bool, true}
use mathlib.Core.Option.{Option, none, some}
use mathlib.Core.List.{List, [], ◌∷◌}
use native.Mathlib.Omega.{arith}
use acgatea.Common.Tests.{◌==◌, ==_iff, Bool-cases, if◌then◌else◌, is_some}
use acgatea.Common.Lists.{In, All}

abbrev pub Map {ℓ} : Type ℓ → Type ℓ
Map V = List (ℕ × V)

module _ {ℓ} {V : Type ℓ} where
  -- `find`, with `end()` as `none`.
  unfoldable pub find : ℕ → Map V → Option V
  find k [] = none
  find k ((j, v) ∷ m) = if j == k then some v else find k m

  -- `m[k] = v`.
  unfoldable pub assign : ℕ → V → Map V → Map V
  assign k v [] = (k, v) ∷ []
  assign k v ((j, w) ∷ m) = if j == k then (j, v) ∷ m else (j, w) ∷ assign k v m

  abbrev pub contains : ℕ → Map V → Bool
  contains k m = is_some (find k m)

  abbrev pub keys : Map V → List ℕ
  keys [] = []
  keys ((j, v) ∷ m) = j ∷ keys m

  pub find-assign :
      (k j : ℕ) (v : V) (m : Map V) → find j (assign k v m) ≡ (if k == j then some v else find j m)
  unfolding find assign
  find-assign k j v [] = refl
  find-assign k j v ((i, w) ∷ m) = ground (arith, find-assign k j v m)

  pub find-assign_self : (k : ℕ) (v : V) (m : Map V) → find k (assign k v m) ≡ some v
  find-assign_self k v m = ground (arith, find-assign k k v m)

  pub find-assign_ne : (k j : ℕ) (v : V) (m : Map V) → ¬ (k ≡ j) → find j (assign k v m) ≡ find j m
  find-assign_ne k j v m h = ground (arith, find-assign k j v m)

  pub find-In : (k : ℕ) (m : Map V) → contains k m ≡ true → In k (keys m)
  unfolding find
  find-In k [] h = cc
  find-In k ((j, v) ∷ m) h = ground (arith, find-In k m)

  pub In-find : (k : ℕ) (m : Map V) → In k (keys m) → contains k m ≡ true
  unfolding find
  In-find k [] h = absurd h
  In-find k ((j, v) ∷ m) h = ground (arith, In-find k m)

pub All-assign {ℓ κ} :
    {V : Type ℓ} (P : ℕ × V → Type κ) (k : ℕ) (v : V) (m : Map V)
    → All P m
    → P (k, v)
    → All P (assign k v m)
unfolding assign
All-assign P k v [] h p = (p, tt)
All-assign {V} P k v ((j, w) ∷ m) h p = elim (Bool-cases (j == k)) [
  | inl e ↦ rw (e, assign) (subst (λ i. P (i, v)) (sym ((==_iff j k).0 e)) p, h.1)
  | inr e ↦ rw (e, assign) (h.0, All-assign P k v m h.1 p)
]
