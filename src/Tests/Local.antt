-- ===== src/Tests/Local.antt =====
-- Two groups with a unit of kind 8: one has the memories 2 and 3, the other the memory 2 alone.
use acgatea.Common.{ℕ, ◌≡◌, ◌↔◌, refl, false, none, some, []}
use acgatea.Common.Map.{find, assign}
use acgatea.Arch.Device.{no_size, memory, exec_unit, group, Body, end, op}
use acgatea.Arch.GroupLocalMemory.{
  exec_kinds, mem_kinds, groups, keep_in, record_units, record_groups, initialize,
  get_local_memory_kind,
}
use acgatea.Arch.GroupLocalMemory.Shared.{HasUnit, IsShared}
use acgatea.Arch.GroupLocalMemory.Local.{get_local_memory_kind_iff}

abbrev first_group : Body
first_group =
    op (memory 100 2 no_size) (op (memory 101 3 no_size) (op (exec_unit 102 (some 8) false) end))

abbrev second_group : Body
second_group = op (exec_unit 103 (some 8) false) (op (memory 104 2 no_size) end)

abbrev local_body : Body
local_body =
    op (group none [] [] first_group none []) (op (group none [] [] second_group none []) end)

local_kind : get_local_memory_kind (initialize local_body) 8 ≡ some 2
unfolding groups exec_kinds mem_kinds keep_in record_units record_groups find assign
local_kind = refl

get_local_memory_kind_iff_example :
    (get_local_memory_kind (initialize local_body) 8 ≡ some 2)
    ↔ (HasUnit (groups local_body) 8 × ((y : ℕ) → IsShared (groups local_body) 8 y ↔ (y ≡ 2)))
get_local_memory_kind_iff_example = get_local_memory_kind_iff local_body 8 2
