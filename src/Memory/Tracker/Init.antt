-- ===== src/Memory/Tracker/Init.antt =====
-- The constructor of `MemoryTracker`: the tracker of a memory tree.
use acgatea.Common.{
  ℕ, ◌<◌, ◌≡◌, refl, subst, sym, ap, ◌∙◌, true, Option, none, some, List, [], ◌∷◌, In, arith, ◌==◌,
  inl, inr, Option-cases, Bool-cases, is_some-witness,
}
use acgatea.Common.Map.{find, contains, find-assign, find-In}
use acgatea.Arch.MemoryTree.{MemoryNode, MemoryTree, get_node}
use acgatea.Arch.MemoryTree.Query.{get_all_node_ids}
use acgatea.Memory.Tracker.{
  MemoryTracker, available_of, add_node_capacity, add_capacities, make_tracker,
}
use acgatea.Memory.Tracker.Laws.{IsWithin}

-- The available bytes of every memory of the tree are a number below 2^63.
abbrev pub IsModestTree : MemoryTree → Type 0
IsModestTree t =
    (n : ℕ) (d : MemoryNode) (c : ℕ)
    → get_node t n ≡ some d
    → d.capacity_in_bytes ≡ some c
    → available_of c d.reserved_in_bytes < 0x8000000000000000

-- A tracker on which nothing is allocated.
record IsFresh (m : MemoryTracker) : Type 0 where
  known : (r a : ℕ) → find r m.next_address ≡ some a → (c : ℕ) × (find r m.capacities ≡ some c)
  zeros : (r a : ℕ) → find r m.next_address ≡ some a → a ≡ 0
  small : (r c : ℕ) → find r m.capacities ≡ some c → c < 0x8000000000000000

add_node_capacity-IsFresh :
    (o : Option MemoryNode) (m : MemoryTracker)
    → ((d : MemoryNode) (c : ℕ)
        → o ≡ some d
        → d.capacity_in_bytes ≡ some c
        → available_of c d.reserved_in_bytes < 0x8000000000000000)
    → IsFresh m
    → IsFresh (add_node_capacity o m)
unfolding add_node_capacity
add_node_capacity-IsFresh none m bound v = v
add_node_capacity-IsFresh (some d) m bound v = elim (Option-cases d.capacity_in_bytes) [
  | inl e ↦ rw (e, add_node_capacity) v
  | inr (c, e) ↦
      let r = d.memory_resource in
      let room = available_of c d.reserved_in_bytes in
      let lt = bound d c refl e in
      rw (e, add_node_capacity)
        (record {
          known = λ x a h. elim (Bool-cases (r == x)) [
            | inl hit ↦ (room, ground (arith, find-assign r x room m.capacities))
            | inr miss ↦
                let (k, e') = v.known x a (ground (arith, find-assign r x 0 m.next_address)) in
                (k, ground (arith, find-assign r x room m.capacities))
          ];
          zeros = λ x a h. ground (arith, find-assign r x 0 m.next_address, v.zeros x a);
          small = λ x k h. ground (arith, find-assign r x room m.capacities, v.small x k);
        })
]

-- A resource that is tracked stays tracked.
tracked_step :
    (r : ℕ) (o : Option MemoryNode) (m : MemoryTracker)
    → contains r m.next_address ≡ true
    → contains r (add_node_capacity o m).next_address ≡ true
unfolding add_node_capacity
tracked_step r none m h = h
tracked_step r (some d) m h = elim (Option-cases d.capacity_in_bytes) [
  | inl e ↦ rw (e, add_node_capacity) h
  | inr (c, e) ↦
      rw (e, add_node_capacity) (ground (arith, find-assign d.memory_resource r 0 m.next_address))
]

tracked_now :
    (d : MemoryNode) (c : ℕ) (m : MemoryTracker)
    → d.capacity_in_bytes ≡ some c
    → contains d.memory_resource (add_node_capacity (some d) m).next_address ≡ true
unfolding add_node_capacity
tracked_now d c m e =
    rw (e, add_node_capacity)
      (ground (arith, find-assign d.memory_resource d.memory_resource 0 m.next_address))

module _ (t : MemoryTree) where
  tracked_rest :
      (r : ℕ) (ns : List ℕ) (m : MemoryTracker)
      → contains r m.next_address ≡ true
      → contains r (add_capacities t ns m).next_address ≡ true
  unfolding add_capacities
  tracked_rest r [] m h = h
  tracked_rest r (n ∷ ns) m h =
      tracked_rest r ns (add_node_capacity (get_node t n) m) (tracked_step r (get_node t n) m h)

  tracked_all :
      (n c : ℕ) (d : MemoryNode) (ns : List ℕ) (m : MemoryTracker)
      → In n ns
      → get_node t n ≡ some d
      → d.capacity_in_bytes ≡ some c
      → contains d.memory_resource (add_capacities t ns m).next_address ≡ true
  unfolding add_capacities
  tracked_all n c d [] m i at e = absurd i
  tracked_all n c d (x ∷ ns) m (inl same) at e =
      tracked_rest d.memory_resource ns (add_node_capacity (get_node t x) m) (
        subst (λ o. contains d.memory_resource (add_node_capacity o m).next_address ≡ true)
          (sym at ∙ ap (get_node t) same) (tracked_now d c m e))
  tracked_all n c d (x ∷ ns) m (inr i) at e =
      tracked_all n c d ns (add_node_capacity (get_node t x) m) i at e

  add_capacities-IsFresh :
      (ns : List ℕ) (m : MemoryTracker)
      → IsModestTree t
      → IsFresh m
      → IsFresh (add_capacities t ns m)
  unfolding add_capacities
  add_capacities-IsFresh [] m bound v = v
  add_capacities-IsFresh (n ∷ ns) m bound v =
      add_capacities-IsFresh ns _ bound
        (add_node_capacity-IsFresh (get_node t n) m (λ d c e h. bound n d c e h) v)

blank-IsFresh : IsFresh (record { capacities = []; next_address = [] })
unfolding find
blank-IsFresh = record { known = λ r a h. cc; zeros = λ r a h. cc; small = λ r c h. cc }

-- The tracker of a tree whose capacities are below 2^63 tracks each memory that has a capacity, from
-- address 0 on, and starts within the capacities.
pub make_tracker_correct :
    (t : MemoryTree)
    → IsModestTree t
    → IsWithin (make_tracker t)
      × ((n c : ℕ) (d : MemoryNode)
          → get_node t n ≡ some d
          → d.capacity_in_bytes ≡ some c
          → find d.memory_resource (make_tracker t).next_address ≡ some 0)
unfolding make_tracker
make_tracker_correct t bound =
    let blank : MemoryTracker = record { capacities = []; next_address = [] } in
    let ids = get_all_node_ids t in
    let v = add_capacities-IsFresh t ids blank bound blank-IsFresh in
    (
      record {
        known = λ r a h. let (c, e) = v.known r a h in (c, e, omega (arith, v.zeros r a h));
        small = v.small;
      },
      λ n c d at e.
          let (a, h) =
            is_some-witness (find d.memory_resource (add_capacities t ids blank).next_address)
              (tracked_all t n c d ids blank (find-In n t.nodes (ground arith)) at e) in
          h ∙ ap some (v.zeros d.memory_resource a h),
    )
