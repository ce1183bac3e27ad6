-- ===== src/Memory/Assignment.antt =====
-- lib/Transforms/AddressAssignment.cpp: every `memref.alloc` with a memory space is given an address.
-- An `int64_t` is its bit pattern, a number below 2^64, negative from 2^63 on; products wrap. The
-- bounds of dynamic sizes come from MLIR's `ValueBoundsConstraintSet`, a parameter.
pub mod Size
pub mod Disjoint
pub mod Complete
use acgatea.Common.{
  ℕ, suc, ◌+◌, ◌*◌, ◌/◌, ◌%◌, Bool, true, false, Option, none, some, List, [], ◌∷◌, ◌++◌,
  if◌then◌else◌, leb, ltb, is_some,
}
use acgatea.Memory.Tracker.{
  MemoryTracker, Allocation, allocated, refused, assertion_failed, allocate, size_mod,
}

abbrev pub int64_sign : ℕ
int64_sign = 0x8000000000000000

abbrev pub is_negative : ℕ → Bool
is_negative x = leb int64_sign x

-- The pattern of -1.
abbrev pub minus_one : ℕ
minus_one = 0xffffffffffffffff

-- One dimension of a memref's shape: a size, or the value that a `kDynamic` one is given by.
pub data Dim : Type 0 where
  static : ℕ → Dim
  dynamic : ℕ → Dim

pub record AllocOp : Type 0 where
  pub result : ℕ
  pub shape : List Dim
  pub element_bits : ℕ
  pub memory_space : Option ℕ

-- `getElementSizeBytes`.
unfoldable pub get_element_size_bytes : ℕ → ℕ
get_element_size_bytes element_size_bits = (element_size_bits + 7) / 8

-- The bound of a dynamic dimension, or -1.
unfoldable pub or_minus_one : Option ℕ → ℕ
or_minus_one none = minus_one
or_minus_one (some bound) = bound

-- `collectAllocations`: what has a memory space, in the order of the walk.
unfoldable pub collect_allocations : List AllocOp → List AllocOp
collect_allocations [] = []
collect_allocations (a ∷ allocs) =
    if is_some a.memory_space then a ∷ collect_allocations allocs else collect_allocations allocs

-- An assigned address, with the resource and the size for which it was made.
pub record Region : Type 0 where
  pub value : ℕ
  pub resource : ℕ
  pub address : ℕ
  pub size : ℕ

pub data Processed : Type 0 where
  assigned : Region → MemoryTracker → Processed
  -- The size is unknown, or the tracker refuses.
  failed : Processed
  aborted : Processed

-- The tracker's answer becomes the region that `materializeAddressAssignment` writes into the IR.
unfoldable pub record_address : ℕ → ℕ → ℕ → Allocation → Processed
record_address value resource size (allocated address m) =
    assigned (record { value = value; resource = resource; address = address; size = size }) m
record_address value resource size (refused e) = failed
record_address value resource size assertion_failed = aborted

pub record Outcome : Type 0 where
  pub tracker : MemoryTracker
  pub regions : List Region
  pub successful_assignments : ℕ
  pub failed_assignments : ℕ

abbrev pub no_assignments : MemoryTracker → Outcome
no_assignments m = record {
  tracker = m;
  regions = [];
  successful_assignments = 0;
  failed_assignments = 0;
}

abbrev pub count_success : Region → MemoryTracker → Outcome → Outcome
count_success g m o = record {
  tracker = m;
  regions = o.regions ++ g ∷ [];
  successful_assignments = suc o.successful_assignments;
  failed_assignments = o.failed_assignments;
}

abbrev pub count_failure : Outcome → Outcome
count_failure o = record o { failed_assignments = suc o.failed_assignments }

-- `compute_constant_bound` gives the closed upper bound of a value, as an `int64_t`, or fails.
module _ (compute_constant_bound : ℕ → Option ℕ) where
  unfoldable pub compute_dynamic_dimension_bound : ℕ → ℕ
  unfolding or_minus_one
  compute_dynamic_dimension_bound dynamic_size = or_minus_one (compute_constant_bound dynamic_size)

  -- The loop over the shape. A product beyond 64 bits, which is undefined in C++, wraps around here.
  unfoldable pub total_elements : List Dim → ℕ → ℕ
  total_elements [] total = total
  total_elements (static n ∷ shape) total = total_elements shape (total * n % size_mod)
  total_elements (dynamic value ∷ shape) total =
      let bound = compute_dynamic_dimension_bound value in
      let rest = total_elements shape (total * bound % size_mod) in
      if is_negative bound then minus_one else rest

  unfoldable pub compute_total_elements : AllocOp → ℕ
  compute_total_elements alloc = total_elements alloc.shape 1

  unfoldable pub compute_allocation_size : AllocOp → ℕ
  compute_allocation_size alloc =
      if is_negative (compute_total_elements alloc)
      then minus_one
      else compute_total_elements alloc * get_element_size_bytes alloc.element_bits % size_mod

  -- An allocation without memory space does not come here (`assert(memory_space_attr)`).
  unfoldable pub process_allocation : AllocOp → MemoryTracker → Processed
  unfolding record_address
  process_allocation alloc m =
      if is_negative (compute_allocation_size alloc) then failed else elim alloc.memory_space [
        | none ↦ aborted
        | some r ↦
            record_address alloc.result r (compute_allocation_size alloc)
              (allocate m r (compute_allocation_size alloc) 1)
      ]

  -- The loop; `none` is a failed assertion.
  unfoldable pub process_from : List AllocOp → Outcome → Option Outcome
  process_from [] o = some o
  process_from (a ∷ allocs) o = elim (process_allocation a o.tracker) [
    | assigned g m ↦ process_from allocs (count_success g m o)
    | failed ↦ process_from allocs (count_failure o)
    | aborted ↦ none
  ]

  unfoldable pub process_allocations : List AllocOp → MemoryTracker → Option Outcome
  process_allocations allocs m = process_from allocs (no_assignments m)

  -- `disable` is the option `DisableThisPass`; a pass that runs succeeds exactly if no assignment
  -- failed.
  unfoldable pub run_on_operation : Bool → List AllocOp → MemoryTracker → Option (Outcome × Bool)
  run_on_operation true allocs m = some (no_assignments m, true)
  run_on_operation false allocs m = elim (process_allocations (collect_allocations allocs) m) [
    | none ↦ none
    | some o ↦ some (o, if ltb 0 o.failed_assignments then false else true)
  ]
