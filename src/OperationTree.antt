-- ===== src/OperationTree.antt =====
-- lib/Analysis/OperationTree.cpp and include/dataflow-scheduler/Analysis/OperationTree.h: nodes on a
-- heap that point to their parent, their first child and their next sibling. A node is its address;
-- `none` is a failed assertion or the use of a null pointer. The loops over siblings run on fuel, of
-- which the number of nodes is enough.
use acgatea.Common.{
  ℕ, zero, suc, Bool, true, false, Option, none, some, List, [], ◌∷◌, if◌then◌else◌, ◌==◌, ◌>>=◌,
  ◌>>◌, guard, length,
}
use acgatea.Common.Map.{Map, find, assign}
pub mod Children
pub mod Siblings
pub mod Inserting
pub mod Unlinking
pub mod RoundTrip
pub mod Bypass
pub mod Dissolving

pub record Node : Type 0 where
  pub parent_node : Option ℕ
  pub first_child : Option ℕ
  pub next_sibling : Option ℕ

abbrev pub Heap : Type 0
Heap = Map Node

abbrev pub set_parent_node : ℕ → Option ℕ → Heap → Option Heap
set_parent_node n p h = find n h >>= λ r. some (assign n (record r { parent_node = p }) h)

abbrev pub set_first_child : ℕ → Option ℕ → Heap → Option Heap
set_first_child n c h = find n h >>= λ r. some (assign n (record r { first_child = c }) h)

abbrev pub set_next_sibling : ℕ → Option ℕ → Heap → Option Heap
set_next_sibling n s h = find n h >>= λ r. some (assign n (record r { next_sibling = s }) h)

unfoldable pub count_siblings : ℕ → Heap → Option ℕ → Option ℕ
count_siblings fuel h none = some 0
count_siblings zero h (some child) = none
count_siblings (suc fuel) h (some child) = do
  r ← find child h
  count ← count_siblings fuel h r.next_sibling
  some (suc count)

unfoldable pub get_number_of_children : Heap → ℕ → Option ℕ
get_number_of_children h n = do r ← find n h; count_siblings (length h) h r.first_child

unfoldable pub last_sibling : ℕ → Heap → ℕ → Option ℕ
last_sibling zero h child = none
last_sibling (suc fuel) h child = do
  r ← find child h
  elim r.next_sibling [ none ↦ some child | some next ↦ last_sibling fuel h next ]

-- The inner `none` is the null pointer of a node without children.
unfoldable pub get_last_child : Heap → ℕ → Option (Option ℕ)
get_last_child h n = do
  r ← find n h
  elim r.first_child [
    | none ↦ some none
    | some child ↦ last_sibling (length h) h child >>= λ last. some (some last)
  ]

abbrev pub points_to : Option ℕ → ℕ → Bool
points_to none n = false
points_to (some m) n = m == n

-- `while (prev)`, with the test on the next sibling first.
unfoldable pub sibling_before : ℕ → Heap → ℕ → Option ℕ → Option (Option ℕ)
sibling_before fuel h n none = some none
sibling_before zero h n (some prev) = none
sibling_before (suc fuel) h n (some prev) = do
  r ← find prev h
  elim (points_to r.next_sibling n) [
    | true ↦ some (some prev)
    | false ↦ sibling_before fuel h n r.next_sibling
  ]

unfoldable pub get_prev_sibling : Heap → ℕ → Option (Option ℕ)
get_prev_sibling h n = do
  r ← find n h
  parent ← r.parent_node
  p ← find parent h
  elim (points_to p.first_child n) [
    | true ↦ some none
    | false ↦ sibling_before (length h) h n p.first_child
  ]

-- The link to the child, from the parent or from a sibling.
unfoldable pub link_child : Heap → ℕ → ℕ → Option ℕ → Option ℕ → Option Heap
link_child h n child none none = set_first_child n (some child) h
link_child h n child none (some pos) = none
link_child h n child (some first) (some pos) = do
  p ← find pos h
  parent ← p.parent_node
  guard (parent == n)
  h' ← set_next_sibling pos (some child) h
  set_next_sibling child p.next_sibling h'
link_child h n child (some first) none = do
  last ← get_last_child h n
  l ← last
  set_next_sibling l (some child) h

unfoldable pub insert_child_node : Heap → ℕ → ℕ → Option ℕ → Option Heap
insert_child_node h n child pos = do
  r ← find n h
  h' ← link_child h n child r.first_child pos
  set_parent_node child (some n) h'

abbrev pub link_old_first : ℕ → Option ℕ → Heap → Option Heap
link_old_first child none h = some h
link_old_first child (some first) h = set_next_sibling child (some first) h

unfoldable pub insert_as_first_child : Heap → ℕ → ℕ → Option Heap
insert_as_first_child h n child = do
  r ← find n h
  h1 ← link_old_first child r.first_child h
  h2 ← set_first_child n (some child) h1
  set_parent_node child (some n) h2

-- The link over the node: from its previous sibling, or from its parent.
abbrev pub link_over : Option ℕ → ℕ → Option ℕ → Heap → Option Heap
link_over none parent next h = set_first_child parent next h
link_over (some prev) parent next h = set_next_sibling prev next h

unfoldable pub unlink : Heap → ℕ → Option Heap
unlink h n = do
  prev ← get_prev_sibling h n
  r ← find n h
  parent ← r.parent_node
  h1 ← link_over prev parent r.next_sibling h
  h2 ← set_next_sibling n none h1
  set_parent_node n none h2

-- `while (child)`: each child gets the new parent, and the last one the next sibling.
unfoldable pub adopt : ℕ → ℕ → Option ℕ → Option ℕ → Heap → Option ℕ → Option Heap
adopt fuel parent last next h none = some h
adopt zero parent last next h (some child) = none
adopt (suc fuel) parent last next h (some child) = do
  h1 ← set_parent_node child (some parent) h
  r ← find child h1
  elim (points_to last child) [
    | true ↦ set_next_sibling child next h1
    | false ↦ adopt fuel parent last next h1 r.next_sibling
  ]

unfoldable pub move_children : Option ℕ → ℕ → Option ℕ → Option ℕ → Option ℕ → Heap → Option Heap
move_children prev parent next none last h = link_over prev parent next h
move_children prev parent next (some first) last h = do
  h1 ← link_over prev parent (some first) h
  adopt (length h) parent last next h1 (some first)

unfoldable pub unlink_from : Heap → ℕ → ℕ → Node → Option Heap
unlink_from h n parent r = do
  prev ← get_prev_sibling h n
  last ← get_last_child h n
  h1 ← move_children prev parent r.next_sibling r.first_child last h
  h2 ← set_first_child n none h1
  h3 ← set_next_sibling n none h2
  set_parent_node n none h3

-- `unlinkNode`, which does nothing at a root.
unfoldable pub unlink_node : Heap → ℕ → Option Heap
unlink_node h n = do
  r ← find n h
  elim r.parent_node [ none ↦ some h | some parent ↦ unlink_from h n parent r ]
