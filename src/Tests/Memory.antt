-- ===== src/Tests/Memory.antt =====
-- A tracker with one memory of 64 bytes, and three allocations.
use acgatea.Common.{
  false, ◌⊎◌, ℕ, ◌≡◌, ◌≤◌, ◌<◌, ◌+◌, ◌-◌, ◌*◌, ◌%◌, ◌↔◌, refl, ◌==◌, if◌then◌else◌, Bool-cases,
  Bool, true, Option, none, some, List, [], ◌∷◌, inl, inr, arith, All, length,
}
use acgatea.Common.Map.{find, assign}
use acgatea.Arch.MemoryTree.{MemoryNode, get_node}
use acgatea.Memory.Tracker.{
  MemoryTracker, allocated, refused, exceeds_capacity, allocate, align_address, make_tracker,
  size_mod, new_next_address,
}
use acgatea.Memory.Tracker.Align.{align_address_correct}
use acgatea.Memory.Tracker.Laws.{IsWithin, allocate_correct, allocate_wraps}
use acgatea.Memory.Tracker.Init.{IsModestTree, make_tracker_correct}
use acgatea.Memory.Assignment.{
  no_assignments, Dim, static, dynamic, AllocOp, Outcome, get_element_size_bytes,
  compute_allocation_size, int64_sign, minus_one, process_allocations, run_on_operation,
  collect_allocations, compute_total_elements, total_elements, compute_dynamic_dimension_bound,
  or_minus_one, process_allocation, process_from, record_address,
}
use acgatea.Memory.Assignment.Size.{
  IsBounds, HasUnknown, product, Fits, compute_allocation_size_correct,
}
use acgatea.Memory.Assignment.Disjoint.{IsDisjoint, IsInside, process_allocations-IsDisjoint}
use acgatea.Memory.Assignment.Complete.{values, alloc_results, run_on_operation_correct}
use acgatea.Tests.Devices.{sample_tree}

abbrev sample_tracker : MemoryTracker
sample_tracker = record { capacities = (5, 64) ∷ []; next_address = (5, 8) ∷ [] }

sample_tracker-IsWithin : IsWithin sample_tracker
unfolding find
sample_tracker-IsWithin = record {
  known = λ r a h. elim (Bool-cases (5 == r)) [
    | inl hit ↦ (64, ground (arith, hit, h), ground (arith, hit, h))
    | inr miss ↦ absurd (ground (arith, miss, h))
  ];
  small = λ r c h. ground arith;
}

-- The value 1 has the bound 4, and nothing else has one.
abbrev sample_bound : ℕ → Option ℕ
sample_bound n = if n == 1 then some 4 else none

abbrev alloc_of : ℕ → List Dim → Option ℕ → AllocOp
alloc_of result shape space = record {
  result = result;
  shape = shape;
  element_bits = 16;
  memory_space = space;
}

abbrev sample_allocs : List AllocOp
sample_allocs =
    alloc_of 11 (static 3 ∷ dynamic 1 ∷ []) (some 5)
    ∷ alloc_of 12 (static 2 ∷ []) none
    ∷ alloc_of 13 (static 5 ∷ []) (some 5)
    ∷ []

align_address_correct_example :
    (10 ≤ align_address 10 8)
    × (align_address 10 8 ≤ 10 + 8)
    × (align_address 10 8 % 8 ≡ 0)
    × ((2 * 8 < 10) ⊎ (align_address 10 8 ≤ 2 * 8))
align_address_correct_example = align_address_correct 10 8 (omega arith) 2 (omega arith)

allocate_correct_example :
    ((allocate sample_tracker 5 16 8 ≡ refused exceeds_capacity) ↔ (64 < align_address 8 8 + 16))
    × (align_address 8 8 + 16 ≤ 64
        → allocate sample_tracker 5 16 8
          ≡ allocated (align_address 8 8) (record sample_tracker {
            next_address = assign 5 (align_address 8 8 + 16) sample_tracker.next_address;
          }))
unfolding find
allocate_correct_example =
    allocate_correct sample_tracker 5 16 8 8 64 refl refl sample_tracker-IsWithin (omega arith)

allocate_wraps_example :
    allocate sample_tracker 5 (size_mod - 3) 1
    ≡ allocated 8
        (record sample_tracker { next_address = assign 5 (8 - 3) sample_tracker.next_address })
unfolding find
allocate_wraps_example =
    allocate_wraps sample_tracker 5 8 64 3 refl refl (omega arith) (omega arith) (omega arith)
      (omega arith)

sample_tree-IsModestTree : IsModestTree sample_tree
unfolding find
sample_tree-IsModestTree = λ n d c at cap. ground (arith, at, cap)

make_tracker_correct_example :
    IsWithin (make_tracker sample_tree)
    × ((n c : ℕ) (d : MemoryNode)
        → get_node sample_tree n ≡ some d
        → d.capacity_in_bytes ≡ some c
        → find d.memory_resource (make_tracker sample_tree).next_address ≡ some 0)
make_tracker_correct_example = make_tracker_correct sample_tree sample_tree-IsModestTree

compute_allocation_size_correct_example :
    ((ns : List ℕ)
      → IsBounds sample_bound (static 3 ∷ dynamic 1 ∷ []) ns
      → Fits ns 1
      → product ns 1 * get_element_size_bytes 16 < int64_sign
      → compute_allocation_size sample_bound (alloc_of 11 (static 3 ∷ dynamic 1 ∷ []) (some 5))
        ≡ product ns 1 * get_element_size_bytes 16)
    × (HasUnknown sample_bound (static 3 ∷ dynamic 1 ∷ [])
        → compute_allocation_size sample_bound (alloc_of 11 (static 3 ∷ dynamic 1 ∷ []) (some 5))
          ≡ minus_one)
compute_allocation_size_correct_example =
    compute_allocation_size_correct sample_bound (alloc_of 11 (static 3 ∷ dynamic 1 ∷ []) (some 5))

abbrev sample_outcome : Outcome
sample_outcome = record {
  tracker = record { capacities = (5, 64) ∷ []; next_address = (5, 42) ∷ [] };
  regions =
      record { value = 11; resource = 5; address = 8; size = 24 }
      ∷ record { value = 13; resource = 5; address = 32; size = 10 }
      ∷ [];
  successful_assignments = 2;
  failed_assignments = 0;
}

sample_run :
    process_allocations sample_bound (collect_allocations sample_allocs) sample_tracker
    ≡ some sample_outcome
unfolding process_allocations process_from process_allocation record_address collect_allocations
    compute_allocation_size compute_total_elements total_elements compute_dynamic_dimension_bound
    or_minus_one get_element_size_bytes allocate align_address new_next_address find assign
sample_run = refl

process_allocations-IsDisjoint_example :
    IsDisjoint sample_outcome.regions
    × All (IsInside sample_tracker) sample_outcome.regions
    × (length sample_outcome.regions ≡ 2)
    × IsWithin sample_outcome.tracker
process_allocations-IsDisjoint_example =
    process_allocations-IsDisjoint sample_bound (collect_allocations sample_allocs) sample_tracker
      sample_outcome sample_tracker-IsWithin sample_run

run_on_operation_correct_example :
    ((o : Outcome) × (ok : Bool) × (run_on_operation sample_bound false sample_allocs sample_tracker
        ≡ some (o, ok))
      × (o.successful_assignments + o.failed_assignments
          ≡ length (collect_allocations sample_allocs))
      × (ok ≡ true
          → values o.regions ≡ alloc_results sample_bound (collect_allocations sample_allocs)))
    × (run_on_operation sample_bound true sample_allocs sample_tracker
        ≡ some (no_assignments sample_tracker, true))
unfolding find
run_on_operation_correct_example =
    run_on_operation_correct sample_bound sample_allocs sample_tracker sample_tracker-IsWithin
      (inr (5, refl, refl), (inl refl, (inr (5, refl, refl), tt)))
