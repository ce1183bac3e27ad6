-- ===== src/Memory/Assignment/Size.antt =====
-- The size of an allocation: the product of its bounds, where nothing overflows.
use acgatea.Common.{
  ℕ, ◌*◌, ◌%◌, ◌≤◌, ◌<◌, ◌≡◌, refl, Option, none, some, List, [], ◌∷◌, arith, ◌⊎◌, inl, inr,
}
use acgatea.Memory.Tracker.{size_mod}
use acgatea.Memory.Assignment.{
  int64_sign, minus_one, Dim, static, dynamic, AllocOp, get_element_size_bytes, or_minus_one,
  compute_dynamic_dimension_bound, total_elements, compute_total_elements, compute_allocation_size,
}

-- The bytes of an element are the fewest that hold its bits.
pub get_element_size_bytes_least :
    (bits k : ℕ)
    → (bits ≤ 8 * k → get_element_size_bytes bits ≤ k) × (bits ≤ 8 * get_element_size_bytes bits)
unfolding get_element_size_bytes
get_element_size_bytes_least bits k = (λ h. omega arith, omega arith)

-- The numbers are the bounds of the shape: each size, or the non-negative bound of a dynamic one.
abbrev pub IsBounds : (ℕ → Option ℕ) → List Dim → List ℕ → Type 0
IsBounds bound [] [] = Unit {0}
IsBounds bound [] (m ∷ ns) = ⊥
IsBounds bound (static n ∷ shape) [] = ⊥
IsBounds bound (static n ∷ shape) (m ∷ ns) = (m ≡ n) × IsBounds bound shape ns
IsBounds bound (dynamic value ∷ shape) [] = ⊥
IsBounds bound (dynamic value ∷ shape) (m ∷ ns) =
    (bound value ≡ some m) × (m < int64_sign) × IsBounds bound shape ns

-- Some dynamic dimension has no bound, or a negative one.
abbrev pub HasUnknown : (ℕ → Option ℕ) → List Dim → Type 0
HasUnknown bound [] = ⊥
HasUnknown bound (static n ∷ shape) = HasUnknown bound shape
HasUnknown bound (dynamic value ∷ shape) =
    (bound value ≡ none)
    ⊎ (((n : ℕ) × (bound value ≡ some n) × (int64_sign ≤ n)) ⊎ HasUnknown bound shape)

abbrev pub product : List ℕ → ℕ → ℕ
product [] total = total
product (n ∷ ns) total = product ns (total * n)

-- No partial product reaches 2^63.
abbrev pub Fits : List ℕ → ℕ → Type 0
Fits [] total = total < int64_sign
Fits (n ∷ ns) total = (total * n < int64_sign) × Fits ns (total * n)

Fits-product : (ns : List ℕ) (total : ℕ) → Fits ns total → product ns total < int64_sign
Fits-product [] total h = h
Fits-product (n ∷ ns) total h = Fits-product ns (total * n) h.1

module _ (bound : ℕ → Option ℕ) where
  total_elements_known :
      (shape : List Dim) (ns : List ℕ) (total : ℕ)
      → IsBounds bound shape ns
      → Fits ns total
      → total_elements bound shape total ≡ product ns total
  unfolding total_elements compute_dynamic_dimension_bound or_minus_one
  total_elements_known [] [] total k fits = refl
  total_elements_known [] (m ∷ ns) total k fits = absurd k
  total_elements_known (static n ∷ shape) [] total k fits = absurd k
  total_elements_known (static n ∷ shape) (m ∷ ns) total k fits =
      let whole : total * n % size_mod ≡ total * m = rw (← k.0) (omega arith) in
      rw whole (total_elements_known shape ns (total * m) k.1 fits.1)
  total_elements_known (dynamic value ∷ shape) [] total k fits = absurd k
  total_elements_known (dynamic value ∷ shape) (m ∷ ns) total k fits =
      let whole : total * m % size_mod ≡ total * m = omega arith in
      rw (k.0, or_minus_one)
        (rw whole (ground (arith, total_elements_known shape ns (total * m) k.2 fits.1)))

  total_elements_unknown :
      (shape : List Dim) (total : ℕ)
      → HasUnknown bound shape
      → total_elements bound shape total ≡ minus_one
  unfolding total_elements compute_dynamic_dimension_bound or_minus_one
  total_elements_unknown [] total h = absurd h
  total_elements_unknown (static n ∷ shape) total h =
      total_elements_unknown shape (total * n % size_mod) h
  total_elements_unknown (dynamic value ∷ shape) total (inl e) = ground arith
  total_elements_unknown (dynamic value ∷ shape) total (inr (inl (n, e, neg))) = ground arith
  total_elements_unknown (dynamic value ∷ shape) total (inr (inr h)) =
      let b = compute_dynamic_dimension_bound bound value in
      ground (arith, total_elements_unknown shape (total * b % size_mod) h)

-- The size of an allocation is the product of the bounds of its dimensions and of the bytes of an
-- element, where no product reaches 2^63; and it is -1, the sign of an unknown size, where a dynamic
-- dimension has no bound or a negative one.
pub compute_allocation_size_correct :
    (bound : ℕ → Option ℕ) (alloc : AllocOp)
    → ((ns : List ℕ)
        → IsBounds bound alloc.shape ns
        → Fits ns 1
        → product ns 1 * get_element_size_bytes alloc.element_bits < int64_sign
        → compute_allocation_size bound alloc
          ≡ product ns 1 * get_element_size_bytes alloc.element_bits)
      × (HasUnknown bound alloc.shape → compute_allocation_size bound alloc ≡ minus_one)
unfolding compute_allocation_size compute_total_elements
compute_allocation_size_correct bound alloc = (
  λ ns k fits small.
      let known = total_elements_known bound alloc.shape ns 1 k fits in
      let lt = Fits-product ns 1 fits in ground arith,
  λ h. let unknown = total_elements_unknown bound alloc.shape 1 h in ground arith,
)
