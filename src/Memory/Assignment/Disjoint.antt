-- ===== src/Memory/Assignment/Disjoint.antt =====
-- The addresses that the pass assigns do not overlap and stay within the capacities.
use acgatea.Common.{
  ℕ, ◌+◌, ◌≤◌, ◌≡◌, refl, subst, ◌∙◌, false, Option, some, List, [], ◌∷◌, ◌++◌, All, All-mono,
  All-append, arith, ◌==◌, if◌then◌else◌, ◌⊎◌, inl, inr, Bool-cases, Option-cases, length,
  length-append,
}
use acgatea.Common.Map.{find, find-assign}
use acgatea.Memory.Tracker.{
  MemoryTracker, Allocation, AllocError, allocated, refused, assertion_failed, allocate,
}
use acgatea.Memory.Tracker.Laws.{IsWithin, Granted, allocate-Granted, Granted-IsWithin}
use acgatea.Memory.Assignment.{
  is_negative, AllocOp, Region, Processed, assigned, failed, aborted, Outcome, no_assignments,
  count_success, count_failure, compute_allocation_size, process_allocation, process_from,
  process_allocations,
}

abbrev pub region_end : Region → ℕ
region_end g = g.address + g.size

-- Of two regions of one resource the later starts where the earlier has ended.
abbrev pub IsBehind : Region → Region → Type 0
IsBehind g h = g.resource ≡ h.resource → region_end g ≤ h.address

abbrev pub IsDisjoint : List Region → Type 0
IsDisjoint [] = Unit {0}
IsDisjoint (g ∷ gs) = All (IsBehind g) gs × IsDisjoint gs

-- A region ends within the capacity of its resource.
abbrev pub IsInside : MemoryTracker → Region → Type 0
IsInside m g = (c : ℕ) × (find g.resource m.capacities ≡ some c) × (region_end g ≤ c)

abbrev IsUsed : MemoryTracker → Region → Type 0
IsUsed m g = (a : ℕ) × (find g.resource m.next_address ≡ some a) × (region_end g ≤ a)

IsDisjoint-concat :
    (gs : List Region) (h : Region)
    → IsDisjoint gs
    → All (λ g. IsBehind g h) gs
    → IsDisjoint (gs ++ h ∷ [])
IsDisjoint-concat [] h d b = (tt, tt)
IsDisjoint-concat (g ∷ gs) h d b =
    (All-append (IsBehind g) gs (h ∷ []) d.0 (b.0, tt), IsDisjoint-concat gs h d.1 b.1)

pub Allocation-cases :
    (x : Allocation)
    → ((address : ℕ) × (m' : MemoryTracker) × (x ≡ allocated address m'))
      ⊎ ((x ≡ assertion_failed) ⊎ ((e : AllocError) × (x ≡ refused e)))
Allocation-cases (allocated address m) = inl (address, m, refl)
Allocation-cases assertion_failed = inr (inl refl)
Allocation-cases (refused e) = inr (inr (e, refl))

pub Processed-cases :
    (p : Processed)
    → ((g : Region) × (m : MemoryTracker) × (p ≡ assigned g m)) ⊎ ((p ≡ failed) ⊎ (p ≡ aborted))
Processed-cases (assigned g m) = inl (g, m, refl)
Processed-cases failed = inr (inl refl)
Processed-cases aborted = inr (inr refl)

-- What one allocation that succeeds has done.
pub record Step (bound : ℕ → Option ℕ) (a : AllocOp) (m : MemoryTracker) (g : Region)
    (m' : MemoryTracker) : Type 0 where
  pub granted : Granted m m' g.resource g.size g.address
  pub value : g.value ≡ a.result
  pub size : g.size ≡ compute_allocation_size bound a
  pub space : a.memory_space ≡ some g.resource

module _ (m m' : MemoryTracker) (g : Region) (k : Granted m m' g.resource g.size g.address) where
  next_after :
      (x : ℕ)
      → find x m'.next_address
        ≡ (if g.resource == x then some (region_end g) else find x m.next_address)
  next_after x = ground (arith, find-assign g.resource x (region_end g) m.next_address, k.free)

  used-IsBehind : (h : Region) → IsUsed m h → IsBehind h g
  used-IsBehind h (a, at, le) same = ground (arith, k.was, k.behind)

  IsUsed-still : (h : Region) → IsUsed m h → IsUsed m' h
  IsUsed-still h (a, at, le) = elim (Bool-cases (g.resource == h.resource)) [
    | inl hit ↦
        (region_end g, ground (arith, next_after h.resource), ground (arith, k.was, k.behind))
    | inr miss ↦ (a, ground (arith, next_after h.resource), le)
  ]

  IsUsed-now : IsUsed m' g
  IsUsed-now = (region_end g, ground (arith, next_after g.resource), omega arith)

  IsInside-still : (h : Region) → IsInside m h → IsInside m' h
  IsInside-still h (c, at, le) = (c, ground (arith, k.same), le)

  IsInside-now : IsInside m' g
  IsInside-now = (k.capacity, ground (arith, k.limit, k.same), k.inside)

module _ (bound : ℕ → Option ℕ) where
  assigned_parts :
      (a : AllocOp) (m m' m'' : MemoryTracker) (g : Region) (r address : ℕ)
      → a.memory_space ≡ some r
      → allocate m r (compute_allocation_size bound a) 1 ≡ allocated address m''
      → process_allocation bound a m ≡ assigned g m'
      → (g.value ≡ a.result)
        × (g.resource ≡ r)
        × (g.address ≡ address)
        × (g.size ≡ compute_allocation_size bound a)
        × (m' ≡ m'')
  unfolding process_allocation
  assigned_parts a m m' m'' g r address e done h = ground arith

  pub process_allocation-Step :
      (a : AllocOp) (m m' : MemoryTracker) (g : Region)
      → IsWithin m
      → process_allocation bound a m ≡ assigned g m'
      → Step bound a m g m'
  unfolding process_allocation
  process_allocation-Step a m m' g v h = elim (Option-cases a.memory_space) [
    | inl e ↦ absurd (ground arith)
    | inr (r, e) ↦ elim (Allocation-cases (allocate m r (compute_allocation_size bound a) 1)) [
      | inl (address, m'', done) ↦
          let small : is_negative (compute_allocation_size bound a) ≡ false = ground arith in
          let (value, resource, start, size, after) =
            assigned_parts a m m' m'' g r address e done h in
          record {
            granted =
                allocate-Granted m m' g.resource g.size 1 g.address v (ground arith) (ground arith);
            value = value;
            size = size;
            space = ground arith;
          }
      | inr other ↦ absurd (ground arith)
    ]
  ]

  record Inv (start : MemoryTracker) (o : Outcome) : Type 0 where
    within : IsWithin o.tracker
    disjoint : IsDisjoint o.regions
    used : All (IsUsed o.tracker) o.regions
    inside : All (IsInside o.tracker) o.regions
    same : o.tracker.capacities ≡ start.capacities
    counted : length o.regions ≡ o.successful_assignments

  count_success-Inv :
      (start : MemoryTracker) (o : Outcome) (a : AllocOp) (g : Region) (m : MemoryTracker)
      → Step bound a o.tracker g m
      → Inv start o
      → Inv start (count_success g m o)
  count_success-Inv start o a g m s v = record {
    within = Granted-IsWithin v.within s.granted;
    disjoint = IsDisjoint-concat o.regions g v.disjoint (
        All-mono (IsUsed o.tracker) (λ h. IsBehind h g) (used-IsBehind o.tracker m g s.granted)
          o.regions v.used);
    used =
        All-append (IsUsed m) o.regions (g ∷ [])
          (All-mono (IsUsed o.tracker) (IsUsed m) (IsUsed-still o.tracker m g s.granted) o.regions
            v.used)
          (IsUsed-now o.tracker m g s.granted, tt);
    inside =
        All-append (IsInside m) o.regions (g ∷ [])
          (All-mono (IsInside o.tracker) (IsInside m) (IsInside-still o.tracker m g s.granted)
            o.regions v.inside)
          (IsInside-now o.tracker m g s.granted, tt);
    same = s.granted.same ∙ v.same;
    counted = omega (arith, length-append o.regions (g ∷ []), v.counted);
  }

  count_failure-Inv :
      (start : MemoryTracker) (o : Outcome) → Inv start o → Inv start (count_failure o)
  count_failure-Inv start o v = record {
    within = v.within;
    disjoint = v.disjoint;
    used = v.used;
    inside = v.inside;
    same = v.same;
    counted = v.counted;
  }

  process_from-Inv :
      (start : MemoryTracker) (allocs : List AllocOp) (o o' : Outcome)
      → Inv start o
      → process_from bound allocs o ≡ some o'
      → Inv start o'
  unfolding process_from
  process_from-Inv start [] o o' v h = let e : o ≡ o' = cc in subst (Inv start) e v
  process_from-Inv start (a ∷ allocs) o o' v h =
      elim (Processed-cases (process_allocation bound a o.tracker)) [
        | inl (g, m, e) ↦
            process_from-Inv start allocs (count_success g m o) o'
              (count_success-Inv start o a g m (process_allocation-Step a o.tracker m g v.within e)
                v)
              (rw (e, process_from) at h)
        | inr (inl e) ↦
            process_from-Inv start allocs (count_failure o) o' (count_failure-Inv start o v)
              (rw (e, process_from) at h)
        | inr (inr e) ↦ cc (rw (e, process_from) at h)
      ]

  no_assignments-Inv : (m : MemoryTracker) → IsWithin m → Inv m (no_assignments m)
  no_assignments-Inv m v = record {
    within = v;
    disjoint = tt;
    used = tt;
    inside = tt;
    same = refl;
    counted = refl;
  }

-- If the tracker starts within its capacities and these are below 2^63, then whatever the allocations
-- ask for: of two assigned regions of one memory the later starts at or behind
-- the end of the earlier, each region ends within the capacity of its memory, the regions are as many
-- as the successes that were counted, and the tracker is left within its capacities.
pub process_allocations-IsDisjoint :
    (bound : ℕ → Option ℕ) (allocs : List AllocOp) (m : MemoryTracker) (o : Outcome)
    → IsWithin m
    → process_allocations bound allocs m ≡ some o
    → IsDisjoint o.regions
      × All (IsInside m) o.regions
      × (length o.regions ≡ o.successful_assignments)
      × IsWithin o.tracker
unfolding process_allocations
process_allocations-IsDisjoint bound allocs m o v h =
    let k = process_from-Inv bound m allocs (no_assignments m) o (no_assignments-Inv bound m v) h in
    (
      k.disjoint,
      All-mono (IsInside o.tracker) (IsInside m) (λ g (c, at, le). (c, ground (arith, k.same), le))
          o.regions k.inside,
      k.counted,
      k.within,
    )
