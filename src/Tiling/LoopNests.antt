-- ===== src/Tiling/LoopNests.antt =====
-- lib/Dialect/KTDF/Analysis/LoopTiling.cpp: the groups of perfectly nested loops, and the strategy of
-- each loop. A loop is a number, and what MLIR answers of it is a parameter.
pub mod Split
pub mod Computed
pub mod Strategies
use acgatea.Common.{
  ℕ, zero, suc, Bool, true, false, Option, none, some, List, [], ◌∷◌, ◌++◌, if◌then◌else◌, ◌==◌,
  ltb, not, ◌||◌, ◌&&◌, is_contained, length, get_elem?, take,
}
use acgatea.Common.Map.{Map, find, assign}

abbrev pub max_loop_nest_depth : ℕ
max_loop_nest_depth = 4

pub data Strategy : Type 0 where
  unplanned tiling strip_mining : Strategy

pub record LoopTilingMetadata : Type 0 where
  pub divisibility : ℕ
  pub min_value : ℕ
  pub strategy : Strategy
  pub is_invalidated : Bool

-- `visited` is local to `computeLoopNests`.
pub record LoopTilingInfo : Type 0 where
  pub loop_nests : List (List ℕ)
  pub loop_to_metadata : Map LoopTilingMetadata
  pub loop_to_nest_index : Map ℕ
  pub visited : List ℕ

abbrev pub no_nests : LoopTilingInfo
no_nests = record { loop_nests = []; loop_to_metadata = []; loop_to_nest_index = []; visited = [] }

abbrev pub get_metadata_for_loop : LoopTilingInfo → ℕ → Option LoopTilingMetadata
get_metadata_for_loop i loop = find loop i.loop_to_metadata

abbrev pub nest_at : List (List ℕ) → Option ℕ → Option (List ℕ)
nest_at nests none = none
nest_at nests (some index) = get_elem? nests index

abbrev pub get_nest_containing_loop : LoopTilingInfo → ℕ → Option (List ℕ)
get_nest_containing_loop i loop = nest_at i.loop_nests (find loop i.loop_to_nest_index)

abbrev pub invalidated :
    Option LoopTilingMetadata → ℕ → Map LoopTilingMetadata → Map LoopTilingMetadata
invalidated none loop m = m
invalidated (some d) loop m = assign loop (record d { is_invalidated = true }) m

unfoldable pub invalidate_loop : ℕ → LoopTilingInfo → LoopTilingInfo
invalidate_loop loop i = record i {
  loop_to_metadata = invalidated (find loop i.loop_to_metadata) loop i.loop_to_metadata;
}

abbrev pub updated :
    Option LoopTilingMetadata
    → ℕ
    → LoopTilingMetadata
    → Map LoopTilingMetadata
    → Map LoopTilingMetadata
updated none loop d m = m
updated (some old) loop d m = assign loop d m

unfoldable pub update_metadata : ℕ → LoopTilingMetadata → LoopTilingInfo → LoopTilingInfo
update_metadata loop d i = record i {
  loop_to_metadata = updated (find loop i.loop_to_metadata) loop d i.loop_to_metadata;
}

-- `nested_loops.back()`.
abbrev pub back : ℕ → List ℕ → ℕ
back l [] = l
back l (x ∷ xs) = back x xs

-- `isParallelLoop`.
module _ (is_parallel : ℕ → Bool) where
  -- `current` is `current_sub_nest`, `last` the last of all the loops.
  unfoldable pub split_from : ℕ → List ℕ → List ℕ → List (List ℕ)
  split_from last current [] = []
  split_from last current (l ∷ ls) =
      if not (is_parallel l) || (l == last)
      then (current ++ l ∷ []) ∷ split_from last [] ls
      else split_from last (current ++ l ∷ []) ls

  abbrev pub split : List ℕ → List (List ℕ)
  split [] = []
  split (l ∷ ls) = split_from (back l ls) [] (l ∷ ls)

unfoldable pub record_index : ℕ → List ℕ → Map ℕ → Map ℕ
record_index nest_index [] m = m
record_index nest_index (l ∷ ls) m = record_index nest_index ls (assign l nest_index m)

-- Whether a loop has a loop around it (`getParentOfType<scf::ForOp>`).
module _ (has_parent : ℕ → Bool) where
  unfoldable pub strategy_of : ℕ → ℕ → ℕ → Strategy
  strategy_of depth index loop =
      if ltb 1 depth
      then tiling
      else if (depth == 1) && (index == 0)
      then (if has_parent loop then unplanned else strip_mining)
      else unplanned

  abbrev pub initial_metadata : ℕ → ℕ → ℕ → LoopTilingMetadata
  initial_metadata depth index loop = record {
    divisibility = 1;
    min_value = 1;
    strategy = strategy_of depth index loop;
    is_invalidated = false;
  }

  -- The loops of the nest from `index` on.
  unfoldable pub assign_metadata : ℕ → ℕ → List ℕ → Map LoopTilingMetadata → Map LoopTilingMetadata
  assign_metadata depth index [] m = m
  assign_metadata depth index (l ∷ ls) m =
      assign_metadata depth (suc index) ls (assign l (initial_metadata depth index l) m)

  unfoldable pub add_nest : List ℕ → LoopTilingInfo → LoopTilingInfo
  add_nest nest i = record {
    loop_nests = i.loop_nests ++ nest ∷ [];
    loop_to_metadata = assign_metadata (length nest) 0 nest i.loop_to_metadata;
    loop_to_nest_index = record_index (length i.loop_nests) nest i.loop_to_nest_index;
    visited = nest ++ i.visited;
  }

  unfoldable pub add_nests : List (List ℕ) → LoopTilingInfo → LoopTilingInfo
  add_nests [] i = i
  add_nests (n ∷ ns) i = add_nests ns (add_nest n i)

-- `getPerfectlyNestedLoops`: a loop, and the loops perfectly nested in it.
module _ (perfectly_nested : ℕ → List ℕ) (is_parallel has_parent : ℕ → Bool) where
  abbrev pub process_loop : ℕ → LoopTilingInfo → LoopTilingInfo
  process_loop loop i =
      if is_contained loop i.visited
      then i
      else add_nests has_parent
          (split is_parallel (take max_loop_nest_depth (perfectly_nested loop))) i

  unfoldable pub process_loops : List ℕ → LoopTilingInfo → LoopTilingInfo
  process_loops [] i = i
  process_loops (l ∷ ls) i = process_loops ls (process_loop l i)

  -- The loops in pre-order.
  abbrev pub compute_loop_nests : List ℕ → LoopTilingInfo
  compute_loop_nests all_loops = process_loops all_loops no_nests
