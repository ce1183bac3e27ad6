-- ===== src/Common/Counting.antt =====
-- Occurrences in a list, sums over one, and lists in which nothing stands twice.
use Prim.Native.Nat.{ℕ, suc, ◌+◌, ◌≤◌, ◌<◌}
use mathlib.Core.Path.{◌≡◌, refl, subst}
use mathlib.Core.Logic.{inl, inr, ◌↔◌}
use mathlib.Core.List.{List, [], ◌∷◌, ◌++◌}
use native.Mathlib.Omega.{arith}
use acgatea.Common.Tests.{◌==◌, if◌then◌else◌, Bool-cases}
use acgatea.Common.Lists.{In, In-append, length}

abbrev pub count : ℕ → List ℕ → ℕ
count a [] = 0
count a (x ∷ xs) = if x == a then suc (count a xs) else count a xs

abbrev pub total : (ℕ → ℕ) → List ℕ → ℕ
total f [] = 0
total f (x ∷ xs) = f x + total f xs

abbrev pub Distinct : List ℕ → Type 0
Distinct [] = Unit
Distinct (x ∷ xs) = (¬ In x xs) × Distinct xs

abbrev remove : ℕ → List ℕ → List ℕ
remove a [] = []
remove a (x ∷ xs) = if x == a then xs else x ∷ remove a xs

pub count-In : (a : ℕ) (xs : List ℕ) → (0 < count a xs) ↔ In a xs
count-In a [] = ground arith
count-In a (x ∷ xs) = ground (arith, count-In a xs)

pub count-append : (a : ℕ) (xs ys : List ℕ) → count a (xs ++ ys) ≡ count a xs + count a ys
count-append a [] ys = omega arith
count-append a (x ∷ xs) ys = ground (arith, count-append a xs ys)

pub total-append : (f : ℕ → ℕ) (xs ys : List ℕ) → total f (xs ++ ys) ≡ total f xs + total f ys
total-append f [] ys = omega arith
total-append f (x ∷ xs) ys = omega (arith, total-append f xs ys)

pub total-one : (xs : List ℕ) → total (λ _. 1) xs ≡ length xs
total-one [] = refl
total-one (x ∷ xs) = omega (arith, total-one xs)

pub Distinct-append_one :
    (a : ℕ) (xs : List ℕ) → Distinct xs → (¬ In a xs) → Distinct (xs ++ a ∷ [])
Distinct-append_one a [] d h = (λ m. m, tt)
Distinct-append_one a (x ∷ xs) d h = (
  λ m. ground (arith, In-append x xs (a ∷ []), d.0, h),
  Distinct-append_one a xs d.1 (λ m. h (inr m)),
)

pub Distinct-append :
    (xs ys : List ℕ)
    → Distinct (xs ++ ys)
    → Distinct xs × Distinct ys × ((a : ℕ) → In a xs → ¬ In a ys)
Distinct-append [] ys d = (tt, d, λ a m n. m)
Distinct-append (x ∷ xs) ys d =
    let (dx, dy, apart) = Distinct-append xs ys d.1 in
    (
      (λ m. ground (arith, In-append x xs ys, d.0), dx),
      dy,
      λ a m n. ground (arith, In-append x xs ys, d.0, apart a),
    )

pub Distinct-join :
    (xs ys : List ℕ)
    → Distinct xs
    → Distinct ys
    → ((a : ℕ) → In a xs → ¬ In a ys)
    → Distinct (xs ++ ys)
Distinct-join [] ys dx dy apart = dy
Distinct-join (x ∷ xs) ys dx dy apart = (
  λ m. ground (arith, m, In-append x xs ys, dx.0, apart x (inl refl)),
  Distinct-join xs ys dx.1 dy (λ a m. apart a (inr m)),
)

total-remove :
    (f : ℕ → ℕ) (a : ℕ) (xs : List ℕ) → In a xs → total f xs ≡ f a + total f (remove a xs)
total-remove f a [] h = absurd h
total-remove f a (x ∷ xs) h = ground (arith, total-remove f a xs)

In-remove : (a b : ℕ) (xs : List ℕ) → In b xs → (¬ (b ≡ a)) → In b (remove a xs)
In-remove a b [] m h = absurd m
In-remove a b (x ∷ xs) m h = ground (arith, In-remove a b xs, h)

remove-In : (a b : ℕ) (xs : List ℕ) → In b (remove a xs) → In b xs
remove-In a b [] m = m
remove-In a b (x ∷ xs) m = ground (arith, remove-In a b xs)

Distinct-remove :
    (a : ℕ) (xs : List ℕ) → Distinct xs → Distinct (remove a xs) × (¬ In a (remove a xs))
Distinct-remove a [] d = (tt, λ m. m)
Distinct-remove a (x ∷ xs) d = ground (arith, Distinct-remove a xs d.1, remove-In a x xs)

-- A list in which nothing stands twice, and each element of which stands in another one.
pub total-le :
    (f : ℕ → ℕ) (xs ys : List ℕ)
    → Distinct xs
    → ((a : ℕ) → In a xs → In a ys)
    → total f xs ≤ total f ys
total-le f [] ys d h = omega arith
total-le f (x ∷ xs) ys d h = omega (
  arith,
  total-remove f x ys (h x (inl refl)),
  total-le f xs (remove x ys) d.1
      (λ a m. In-remove x a ys (h a (inr m)) (λ e. ground (arith, d.0))),
)

-- What is missing in the smaller sum comes from an element that it lacks.
pub total-lt :
    (f : ℕ → ℕ) (xs ys : List ℕ)
    → Distinct xs
    → Distinct ys
    → ((a : ℕ) → In a xs → In a ys)
    → total f xs < total f ys
    → (a : ℕ) × In a ys × (¬ In a xs) × (0 < f a)
total-lt f [] [] d e h less = absurd (omega arith)
total-lt f [] (y ∷ ys) d e h less = elim (Bool-cases (f y == 0)) [
  | inl zero_y ↦
      let (a, m, _, p) = total-lt f [] ys tt e.1 (λ a m. absurd m) (ground arith) in
      (a, inr m, λ m. m, p)
  | inr p ↦ (y, inl refl, λ m. m, ground arith)
]
total-lt f (x ∷ xs) ys d e h less =
    let (e', gone) = Distinct-remove x ys e in
    let (a, m, lacks, p) =
      total-lt f xs (remove x ys) d.1 e'
        (λ a m. In-remove x a ys (h a (inr m)) (λ e. ground (arith, d.0)))
        (omega (arith, total-remove f x ys (h x (inl refl)))) in
    (
      a,
      remove-In x a ys m,
      λ n. elim n [
        | inl same ↦ gone (subst (λ b. In b (remove x ys)) same m)
        | inr later ↦ lacks later
      ],
      p,
    )
