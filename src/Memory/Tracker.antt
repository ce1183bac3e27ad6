-- ===== src/Memory/Tracker.antt =====
-- lib/Analysis/MemoryTracker.cpp: a bump allocator for each memory resource. Addresses and sizes are
-- `size_t`, so every sum is taken modulo 2^64. A failed assertion is an outcome of its own.
pub mod Align
pub mod Laws
pub mod Init
use acgatea.Common.{
  ℕ, ◌+◌, ◌-◌, ◌%◌, Bool, true, false, Option, none, some, List, [], ◌∷◌, if◌then◌else◌, ◌==◌, leb,
  ltb,
}
use acgatea.Common.Map.{Map, find, assign}
use acgatea.Arch.MemoryTree.{MemoryNode, MemoryTree, get_node}
use acgatea.Arch.MemoryTree.Query.{get_all_node_ids}

abbrev pub size_mod : ℕ
size_mod = 0x10000000000000000

pub record MemoryTracker : Type 0 where
  pub capacities : Map ℕ
  pub next_address : Map ℕ

pub data AllocError : Type 0 where
  no_capacity exceeds_capacity : AllocError

pub data Allocation : Type 0 where
  -- The address, and the tracker after the call.
  allocated : ℕ → MemoryTracker → Allocation
  refused : AllocError → Allocation
  assertion_failed : Allocation

abbrev pub first_available_address : ℕ
first_available_address = 0

-- The bytes of a node that may be allocated: its capacity less what is reserved.
abbrev pub available_of : ℕ → Option ℕ → ℕ
available_of capacity none = capacity
available_of capacity (some reserved) = (capacity + size_mod - reserved) % size_mod

-- One round of the constructor's loop.
unfoldable pub add_node_capacity : Option MemoryNode → MemoryTracker → MemoryTracker
add_node_capacity none m = m
add_node_capacity (some node) m = elim node.capacity_in_bytes [
  | none ↦ m
  | some capacity ↦ record {
    capacities =
        assign node.memory_resource (available_of capacity node.reserved_in_bytes) m.capacities;
    next_address = assign node.memory_resource first_available_address m.next_address;
  }
]

unfoldable pub add_capacities : MemoryTree → List ℕ → MemoryTracker → MemoryTracker
add_capacities t [] m = m
add_capacities t (n ∷ ns) m = add_capacities t ns (add_node_capacity (get_node t n) m)

unfoldable pub make_tracker : MemoryTree → MemoryTracker
make_tracker t =
    add_capacities t (get_all_node_ids t) (record { capacities = []; next_address = [] })

unfoldable pub align_address : ℕ → ℕ → ℕ
align_address address alignment =
    if leb alignment 1
    then address
    else if address % alignment == 0
    then address
    else (address + (alignment - address % alignment)) % size_mod

-- The end of an allocation of `size` bytes from the next free address on.
unfoldable pub new_next_address : ℕ → ℕ → ℕ → ℕ
new_next_address current size alignment = (align_address current alignment + size) % size_mod

unfoldable pub allocate : MemoryTracker → ℕ → ℕ → ℕ → Allocation
allocate m resource size alignment = elim (find resource m.next_address) [
  | none ↦ assertion_failed
  | some current ↦ elim (find resource m.capacities) [
    | none ↦ refused no_capacity
    | some capacity ↦
        if ltb capacity (new_next_address current size alignment)
        then refused exceeds_capacity
        else allocated (align_address current alignment) (record m {
          next_address = assign resource (new_next_address current size alignment) m.next_address;
        })
  ]
]

unfoldable pub get_next_available_address : MemoryTracker → ℕ → ℕ
get_next_available_address m resource = elim (find resource m.next_address) [
  | none ↦ first_available_address
  | some address ↦ address
]

unfoldable pub get_total_allocated : MemoryTracker → ℕ → ℕ
unfolding get_next_available_address
get_total_allocated m resource =
    (get_next_available_address m resource + size_mod - first_available_address) % size_mod
