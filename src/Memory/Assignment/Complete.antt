-- ===== src/Memory/Assignment/Complete.antt =====
-- The pass returns, counts every allocation once, and where none failed it has given each an address.
use acgatea.Common.{
  ℕ, ◌+◌, ◌≤◌, ◌≡◌, refl, sym, ap, ◌∙◌, true, false, Bool, Option, none, some, List, [], ◌∷◌, ◌++◌,
  map, append-nil, All, All-mono, arith, if◌then◌else◌, ltb, ◌⊎◌, inl, inr, length,
}
use acgatea.Common.Map.{contains, find-assign}
use acgatea.Memory.Tracker.{MemoryTracker, assertion_failed, allocate}
use acgatea.Memory.Tracker.Laws.{IsWithin, Granted, Granted-IsWithin}
use acgatea.Memory.Assignment.{
  AllocOp, Region, aborted, Outcome, no_assignments, count_success, count_failure,
  collect_allocations, compute_allocation_size, process_allocation, process_from,
  process_allocations, run_on_operation,
}
use acgatea.Memory.Assignment.Disjoint.{Processed-cases, process_allocation-Step}

-- The memory space of an allocation is a resource that is tracked.
abbrev pub IsTracked : MemoryTracker → AllocOp → Type 0
IsTracked m a = (r : ℕ) × (a.memory_space ≡ some r) × (contains r m.next_address ≡ true)

-- The values that were given a region, each with the region's size.
abbrev pub values : List Region → List (ℕ × ℕ)
values = map (λ g. (g.value, g.size))

-- The results of the allocations, each with the size that is computed for it.
abbrev pub alloc_results : (ℕ → Option ℕ) → List AllocOp → List (ℕ × ℕ)
alloc_results bound = map (λ a. (a.result, compute_allocation_size bound a))

IsTracked-after :
    (m m' : MemoryTracker) (g : Region)
    → Granted m m' g.resource g.size g.address
    → (a : AllocOp) → IsTracked m a
    → IsTracked m' a
IsTracked-after m m' g k a (r, space, in_m) =
    (r, space, ground (arith, find-assign g.resource r (g.address + g.size) m.next_address, k.free))

allocate-ne-assertion :
    (m : MemoryTracker) (r size : ℕ)
    → contains r m.next_address ≡ true
    → ¬ (allocate m r size 1 ≡ assertion_failed)
unfolding allocate
allocate-ne-assertion m r size h e = ground arith

values-concat :
    (gs : List Region) (g : Region) (x : ℕ × ℕ) (l : List (ℕ × ℕ))
    → (g.value, g.size) ≡ x
    → values (gs ++ g ∷ []) ++ l ≡ values gs ++ x ∷ l
values-concat [] g x l e = ap (λ y. y ∷ l) e
values-concat (h ∷ gs) g x l e = ap (λ y. (h.value, h.size) ∷ y) (values-concat gs g x l e)

collect-IsTracked :
    (m : MemoryTracker) (allocs : List AllocOp)
    → All (λ a. (a.memory_space ≡ none) ⊎ IsTracked m a) allocs
    → All (IsTracked m) (collect_allocations allocs)
unfolding collect_allocations
collect-IsTracked m [] h = tt
collect-IsTracked m (a ∷ allocs) (inl e, h) =
    rw (e, collect_allocations) (collect-IsTracked m allocs h)
collect-IsTracked m (a ∷ allocs) (inr (r, e, in_m), h) =
    rw (e, collect_allocations) ((r, refl, in_m), collect-IsTracked m allocs h)

module _ (bound : ℕ → Option ℕ) where
  process_allocation-ne-aborted :
      (a : AllocOp) (m : MemoryTracker) → IsTracked m a → ¬ (process_allocation bound a m ≡ aborted)
  unfolding process_allocation
  process_allocation-ne-aborted a m (r, space, in_m) e =
      ground (arith, allocate-ne-assertion m r (compute_allocation_size bound a) in_m)

  -- What is known of the loop's end from its start.
  record Done (allocs : List AllocOp) (o o' : Outcome) : Type 0 where
    more : o.failed_assignments ≤ o'.failed_assignments
    all :
        o'.successful_assignments + o'.failed_assignments
        ≡ o.successful_assignments + o.failed_assignments + length allocs
    each :
        o'.failed_assignments ≡ o.failed_assignments
        → values o'.regions ≡ values o.regions ++ alloc_results bound allocs

  process_from_total :
      (allocs : List AllocOp) (o : Outcome)
      → IsWithin o.tracker
      → All (IsTracked o.tracker) allocs
      → (o' : Outcome) × (process_from bound allocs o ≡ some o') × Done allocs o o'
  unfolding process_from
  process_from_total [] o v h =
      (o, refl, record { more = omega arith; all = omega arith; each = λ _. sym (append-nil _) })
  process_from_total (a ∷ allocs) o v h =
      elim (Processed-cases (process_allocation bound a o.tracker)) [
        | inl (g, m, e) ↦
            let s = process_allocation-Step bound a o.tracker m g v e in
            let (o', done, k) =
              process_from_total allocs (count_success g m o) (Granted-IsWithin v s.granted) (
                All-mono (IsTracked o.tracker) (IsTracked m)
                  (IsTracked-after o.tracker m g s.granted) allocs h.1) in
            (
              o',
              rw (e, process_from) done,
              record {
                more = k.more;
                all = omega (arith, k.all);
                each = λ same.
                    k.each same
                    ∙ values-concat o.regions g (a.result, compute_allocation_size bound a)
                        (alloc_results bound allocs) (ground (arith, s.value, s.size));
              },
            )
        | inr (inl e) ↦
            let (o', done, k) = process_from_total allocs (count_failure o) v h.1 in
            (
              o',
              rw (e, process_from) done,
              record {
                more = omega (arith, k.more);
                all = omega (arith, k.all);
                each = λ same. absurd (omega (arith, k.more));
              },
            )
        | inr (inr e) ↦ absurd (process_allocation-ne-aborted a o.tracker h.0 e)
      ]

-- Where the tracker starts within its capacities, below 2^63, and each allocation has a tracked memory
-- space or none, the pass returns: no assertion fails. Every
-- allocation with a memory space is counted once, as a success or as a failure, and if the pass
-- reports success then the regions belong to just these allocations, in their order, each of the size
-- that is computed for its allocation. If the pass is disabled, it succeeds with no region, nothing is
-- counted, and the tracker is left as it was.
pub run_on_operation_correct :
    (bound : ℕ → Option ℕ) (allocs : List AllocOp) (m : MemoryTracker)
    → IsWithin m
    → All (λ a. (a.memory_space ≡ none) ⊎ IsTracked m a) allocs
    → ((o : Outcome) × (ok : Bool) × (run_on_operation bound false allocs m ≡ some (o, ok))
        × (o.successful_assignments + o.failed_assignments ≡ length (collect_allocations allocs))
        × (ok ≡ true → values o.regions ≡ alloc_results bound (collect_allocations allocs)))
      × (run_on_operation bound true allocs m ≡ some (no_assignments m, true))
unfolding run_on_operation process_allocations
run_on_operation_correct bound allocs m v h =
    let (o, done, k) =
      process_from_total bound (collect_allocations allocs) (no_assignments m) v
        (collect-IsTracked m allocs h) in
    (
      (
        o,
        if ltb 0 o.failed_assignments then false else true,
        rw (done, run_on_operation),
        omega (arith, k.all),
        λ ok. k.each (ground arith),
      ),
      refl,
    )
