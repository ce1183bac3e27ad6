-- ===== src/Memory/Tracker/Laws.antt =====
-- What one call of `allocate` does, on every branch, and the invariant that it keeps.
use acgatea.Common.{
  ℕ, ◌+◌, ◌-◌, ◌≤◌, ◌<◌, ◌≡◌, some, arith, ◌==◌, inl, inr, ◌↔◌, Option-cases, Bool-cases,
}
use acgatea.Common.Map.{find, assign, find-assign}
use acgatea.Memory.Tracker.{
  size_mod, MemoryTracker, exceeds_capacity, allocated, refused, align_address, new_next_address,
  allocate,
}
use acgatea.Memory.Tracker.Align.{align_address_bounds}

-- Each resource that is tracked has a capacity, below 2^63, and its free addresses start within it.
pub record IsWithin (m : MemoryTracker) : Type 0 where
  pub known :
      (r a : ℕ)
      → find r m.next_address ≡ some a
      → (c : ℕ) × (find r m.capacities ≡ some c) × (a ≤ c)
  pub small : (r c : ℕ) → find r m.capacities ≡ some c → c < 0x8000000000000000

-- A request that cannot wrap: size and alignment together are at most 2^63.
abbrev pub IsModest : ℕ → ℕ → Type 0
IsModest size alignment = size + alignment ≤ 0x8000000000000000

module _ (m : MemoryTracker) (r size alignment a c : ℕ) (at : find r m.next_address ≡ some a)
    (cap : find r m.capacities ≡ some c) (v : IsWithin m) (q : IsModest size alignment) where
  no_wrap :
      (a ≤ align_address a alignment)
      × (align_address a alignment ≤ a + alignment)
      × (new_next_address a size alignment ≡ align_address a alignment + size)
  unfolding new_next_address
  no_wrap =
      let (c', cap', le) = v.known r a at in
      let lt = v.small r c' cap' in
      let (lo, hi) = align_address_bounds a alignment (omega arith) in (lo, hi, omega arith)

  -- In a tracker within its capacities, which are below 2^63, a request for a tracked resource whose size
  -- and alignment together are at most 2^63 is refused exactly if its aligned block ends beyond the
  -- capacity. Otherwise it is given the aligned next address, and the next address moves to the end of
  -- the block; nothing else changes.
  pub allocate_correct :
      ((allocate m r size alignment ≡ refused exceeds_capacity)
        ↔ (c < align_address a alignment + size))
      × (align_address a alignment + size ≤ c
          → allocate m r size alignment
            ≡ allocated (align_address a alignment) (record m {
              next_address = assign r (align_address a alignment + size) m.next_address;
            }))
  unfolding allocate
  allocate_correct = (ground (arith, no_wrap), λ fits. ground (arith, no_wrap))

  allocate_inv :
      (address : ℕ) (m' : MemoryTracker)
      → allocate m r size alignment ≡ allocated address m'
      → (address ≡ align_address a alignment)
        × (align_address a alignment + size ≤ c)
        × (m'.next_address ≡ assign r (align_address a alignment + size) m.next_address)
        × (m'.capacities ≡ m.capacities)
  unfolding allocate
  allocate_inv address m' h = ground (arith, no_wrap)

-- What a successful modest call gives: a block in the capacity, behind the free address, which becomes
-- its end.
pub record Granted (m m' : MemoryTracker) (r size address : ℕ) : Type 0 where
  pub before : ℕ
  pub capacity : ℕ
  pub was : find r m.next_address ≡ some before
  pub limit : find r m.capacities ≡ some capacity
  pub behind : before ≤ address
  pub inside : address + size ≤ capacity
  pub free : m'.next_address ≡ assign r (address + size) m.next_address
  pub same : m'.capacities ≡ m.capacities

pub allocate-Granted :
    (m m' : MemoryTracker) (r size alignment address : ℕ)
    → IsWithin m
    → IsModest size alignment
    → allocate m r size alignment ≡ allocated address m'
    → Granted m m' r size address
unfolding allocate
allocate-Granted m m' r size alignment address v q h = elim (Option-cases (find r m.next_address)) [
  | inl e ↦ cc (rw (e, allocate) at h)
  | inr (a, e) ↦
      let (c, e', le) = v.known r a e in
      let (lo, hi, exact) = no_wrap m r size alignment a c e e' v q in
      let (start, fits, next, kept) = allocate_inv m r size alignment a c e e' v q address m' h in
      record {
        before = a;
        capacity = c;
        was = e;
        limit = e';
        behind = omega arith;
        inside = omega arith;
        free = rw start next;
        same = kept;
      }
]

pub Granted-IsWithin :
    {m m' : MemoryTracker} {r size address : ℕ}
    → IsWithin m
    → Granted m m' r size address
    → IsWithin m'
Granted-IsWithin {m} {m'} {r} {size} {address} v g = record {
  known = λ x a e. elim (Bool-cases (r == x)) [
    | inl hit ↦ (
      g.capacity,
      ground (arith, g.limit, g.same),
      ground (arith, find-assign r x (address + size) m.next_address, g.free, g.inside),
    )
    | inr miss ↦
        let (c, e', le) =
          v.known x a (ground (arith, find-assign r x (address + size) m.next_address, g.free)) in
        (c, ground (arith, g.same), le)
  ];
  small = λ x c e. v.small x c (ground (arith, g.same));
}

-- The sum that is compared with the capacity wraps: a request of 2^64 - k bytes, for some k up to the
-- address that is free (which is within the capacity, and below 2^64), is granted whatever the capacity
-- is, and gives k used bytes back.
pub allocate_wraps :
    (m : MemoryTracker) (r a c k : ℕ)
    → find r m.next_address ≡ some a
    → find r m.capacities ≡ some c
    → a ≤ c
    → a < size_mod
    → 0 < k
    → k ≤ a
    → allocate m r (size_mod - k) 1
      ≡ allocated a (record m { next_address = assign r (a - k) m.next_address })
unfolding allocate new_next_address align_address
allocate_wraps m r a c k at cap le lt pos small = ground arith
