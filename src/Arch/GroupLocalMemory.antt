-- ===== src/Arch/GroupLocalMemory.antt =====
-- lib/Analysis/ArchViews/GroupLocalMemory.cpp: which memory an execution unit has beside it in each of
-- its groups.
pub mod Shared
pub mod Local
use acgatea.Common.{
  ℕ, Bool, true, false, Option, none, some, List, [], ◌∷◌, ◌++◌, if◌then◌else◌, is_contained,
}
use acgatea.Common.Map.{Map, find, assign}
use acgatea.Arch.Device.{DeviceOp, memory, exec_unit, group, datapath, other, Body, end, op}

-- The kinds of the units that stand directly in a group; a unit without a kind is passed over.
unfoldable pub exec_kinds : Body → List ℕ
exec_kinds end = []
exec_kinds (op (exec_unit result none is_ls) rest) = exec_kinds rest
exec_kinds (op (exec_unit result (some kind) is_ls) rest) = kind ∷ exec_kinds rest
exec_kinds (op (memory result kind size) rest) = exec_kinds rest
exec_kinds (op (group kind shared args body yields results) rest) = exec_kinds rest
exec_kinds (op (datapath source target) rest) = exec_kinds rest
exec_kinds (op other rest) = exec_kinds rest

-- `insert` of a set.
abbrev pub insert : ℕ → List ℕ → List ℕ
insert k s = if is_contained k s then s else k ∷ s

-- The kinds of the memories that stand directly in it, as a set.
unfoldable pub mem_kinds : Body → List ℕ
mem_kinds end = []
mem_kinds (op (memory result kind size) rest) = insert kind (mem_kinds rest)
mem_kinds (op (exec_unit result kind is_ls) rest) = mem_kinds rest
mem_kinds (op (group kind shared args body yields results) rest) = mem_kinds rest
mem_kinds (op (datapath source target) rest) = mem_kinds rest
mem_kinds (op other rest) = mem_kinds rest

-- The bodies of the groups, in the order of the walk: a group after those in it.
unfoldable mutual
  pub groups_of : DeviceOp → List Body
  groups_of (group kind shared args body yields results) = groups body ++ body ∷ []
  groups_of (memory result kind size) = []
  groups_of (exec_unit result kind is_ls) = []
  groups_of (datapath source target) = []
  groups_of other = []

  pub groups : Body → List Body
  groups end = []
  groups (op o rest) = groups_of o ++ groups rest

unfoldable pub keep_in : List ℕ → List ℕ → List ℕ
keep_in mem_kinds [] = []
keep_in mem_kinds (k ∷ s) =
    if is_contained k mem_kinds then k ∷ keep_in mem_kinds s else keep_in mem_kinds s

-- `try_emplace`, or else the intersection.
abbrev pub narrow : List ℕ → Option (List ℕ) → List ℕ
narrow mem_kinds none = mem_kinds
narrow mem_kinds (some s) = keep_in mem_kinds s

unfoldable pub record_units : List ℕ → List ℕ → Map (List ℕ) → Map (List ℕ)
record_units mem_kinds [] m = m
record_units mem_kinds (k ∷ exec_kinds) m =
    record_units mem_kinds exec_kinds (assign k (narrow mem_kinds (find k m)) m)

unfoldable pub record_groups : List Body → Map (List ℕ) → Map (List ℕ)
record_groups [] m = m
record_groups (g ∷ gs) m = record_groups gs (record_units (mem_kinds g) (exec_kinds g) m)

-- `exec_to_mem_kinds_` of a device.
abbrev pub initialize : Body → Map (List ℕ)
initialize body = record_groups (groups body) []

abbrev pub only : Option (List ℕ) → Option ℕ
only none = none
only (some []) = none
only (some (k ∷ [])) = some k
only (some (k ∷ j ∷ s)) = none

abbrev pub get_local_memory_kind : Map (List ℕ) → ℕ → Option ℕ
get_local_memory_kind m exec_unit_kind = only (find exec_unit_kind m)

-- `applicable_units` is the stage's attribute, if it has one; `none` stands behind an error.
abbrev pub get_local_memory_kind_for_stage : Map (List ℕ) → Option (List ℕ) → Option ℕ
get_local_memory_kind_for_stage m none = none
get_local_memory_kind_for_stage m (some []) = none
get_local_memory_kind_for_stage m (some (k ∷ [])) = get_local_memory_kind m k
get_local_memory_kind_for_stage m (some (k ∷ j ∷ s)) = none
