-- ===== src/Tiling/TileSize.antt =====
-- lib/Dialect/KTDF/Transforms/TileSizeSelection.cpp: the size that replaces each
-- `tiling.reserve_size`. Operations and values are numbers. A total size is given as its absolute
-- value (only divisibility is asked of it), and a `min_value` or `divisibility` below 0 as 0, which
-- the code treats alike.
pub mod Best
use acgatea.Common.{
  ℕ, zero, suc, ◌+◌, ◌-◌, ◌%◌, Bool, true, false, Option, none, some, List, [], ◌∷◌, ◌++◌,
  if◌then◌else◌, max, ◌==◌, ltb, not, ◌&&◌, is_contained,
}

abbrev pub max_candidate_tile_size : ℕ
max_candidate_tile_size = 2

pub record AssociatedLoopInfo : Type 0 where
  pub loop : ℕ
  pub total_size : ℕ

-- A user of the quotient: a loop, and whether the quotient is its upper bound.
pub data BoundUser : Type 0 where
  for_op : ℕ → Bool → BoundUser
  other_bound_user : BoundUser

-- A user of the reserved size. For a `ceildivui`: is the size its divisor, its dividend if that is a
-- constant, and the users of its result.
pub data SizeUser : Type 0 where
  ceildiv : Bool → Option ℕ → List BoundUser → SizeUser
  other_user : SizeUser

pub record ReserveSizeOp : Type 0 where
  pub id : ℕ
  pub result : ℕ
  pub users : List SizeUser
  pub min_value : ℕ
  pub divisibility : ℕ

pub record TileSizeInfo : Type 0 where
  pub reserve_size_op : ReserveSizeOp
  pub associated_loops : List AssociatedLoopInfo

-- The loops with the quotient as upper bound.
unfoldable pub collect_bound_loops : ℕ → List BoundUser → List AssociatedLoopInfo
collect_bound_loops total [] = []
collect_bound_loops total (for_op loop is_upper ∷ us) =
    if is_upper
    then record { loop = loop; total_size = total } ∷ collect_bound_loops total us
    else collect_bound_loops total us
collect_bound_loops total (other_bound_user ∷ us) = collect_bound_loops total us

-- The loops found so far, and the unresolved operations.
pub record Collected : Type 0 where
  pub info : TileSizeInfo
  pub unresolved_ops : List ℕ

abbrev pub unresolve : Collected → Collected
unresolve c = record c { unresolved_ops = c.unresolved_ops ++ c.info.reserve_size_op.id ∷ [] }

unfoldable pub collect_user : SizeUser → Collected → Collected
collect_user (ceildiv false total us) c = unresolve c
collect_user (ceildiv true none us) c = unresolve c
collect_user (ceildiv true (some total) us) c = record c {
  info = record c.info {
    associated_loops = c.info.associated_loops ++ collect_bound_loops total us;
  };
}
collect_user other_user c = c

unfoldable pub collect_users : List SizeUser → Collected → Collected
collect_users [] c = c
collect_users (u ∷ us) c = collect_users us (collect_user u c)

-- `visited_values` without the insertion: each call of the source starts from an empty set.
unfoldable pub collect_associated_loops : ℕ → List SizeUser → List ℕ → Collected → Collected
collect_associated_loops value users visited_values c =
    if is_contained value visited_values then c else collect_users users c

pub data TileSizeValidity : Type 0 where
  valid_for_all_loops invalid_for_this_tile_size : TileSizeValidity
  -- A remainder by 0, which is undefined in the source.
  divided_by_zero : TileSizeValidity

unfoldable pub evaluate_candidate_tile_size : List AssociatedLoopInfo → ℕ → TileSizeValidity
evaluate_candidate_tile_size [] candidate = valid_for_all_loops
evaluate_candidate_tile_size (l ∷ ls) zero = divided_by_zero
evaluate_candidate_tile_size (l ∷ ls) (suc c) =
    if not ((l.total_size % suc c) == 0)
    then invalid_for_this_tile_size
    else evaluate_candidate_tile_size ls (suc c)

pub data Choice : Type 0 where
  chosen : ℕ → Choice
  -- `std::nullopt`
  unresolved : Choice
  -- `llvm_unreachable`
  unreachable : Choice
  undefined : Choice

-- The candidates below `min_value + k`, from the greatest down.
unfoldable pub try_candidates : ℕ → ℕ → List AssociatedLoopInfo → ℕ → Choice
try_candidates min_value divisibility loops zero = unreachable
try_candidates min_value divisibility loops (suc k) =
    elim (ltb 1 divisibility && not (((min_value + k) % divisibility) == 0)) [
      | true ↦ try_candidates min_value divisibility loops k
      | false ↦ elim (evaluate_candidate_tile_size loops (min_value + k)) [
        | valid_for_all_loops ↦ chosen (min_value + k)
        | invalid_for_this_tile_size ↦ try_candidates min_value divisibility loops k
        | divided_by_zero ↦ undefined
      ]
    ]

abbrev pub start_candidate : ℕ → ℕ
start_candidate min_value = max max_candidate_tile_size min_value

abbrev pub choose_from : ℕ → ℕ → List AssociatedLoopInfo → Choice
choose_from min_value divisibility [] = unresolved
choose_from min_value divisibility (l ∷ ls) =
    try_candidates min_value divisibility (l ∷ ls) (suc (start_candidate min_value - min_value))

unfoldable pub choose_tile_size : TileSizeInfo → Choice
choose_tile_size ts_info =
    choose_from ts_info.reserve_size_op.min_value ts_info.reserve_size_op.divisibility
      ts_info.associated_loops

-- What the source adds to `unresolved_ops` in the same call.
unfoldable pub note_unresolved : TileSizeInfo → List ℕ → List ℕ
note_unresolved ts_info ops = elim ts_info.associated_loops [
  | [] ↦ ops ++ ts_info.reserve_size_op.id ∷ []
  | l ∷ ls ↦ ops
]

-- The first loop of the pass.
unfoldable pub analyse : List ReserveSizeOp → List ℕ → List TileSizeInfo × List ℕ
analyse [] unresolved_ops = ([], unresolved_ops)
analyse (o ∷ os) unresolved_ops =
    let c = collect_associated_loops o.result o.users [] (record {
      info = record { reserve_size_op = o; associated_loops = [] };
      unresolved_ops = unresolved_ops;
    }) in
    let rest = analyse os c.unresolved_ops in (c.info ∷ rest.0, rest.1)

abbrev pub prepend : ℕ × ℕ → Option (List (ℕ × ℕ)) → Option (List (ℕ × ℕ))
prepend r none = none
prepend r (some rs) = some (r ∷ rs)

-- The second loop: the operations replaced, each with its size. `none` where the run is undefined.
unfoldable pub replace_ops : List TileSizeInfo → Option (List (ℕ × ℕ))
replace_ops [] = some []
replace_ops (i ∷ is) = elim (choose_tile_size i) [
  | chosen c ↦ prepend (i.reserve_size_op.id, c) (replace_ops is)
  | unresolved ↦ replace_ops is
  | unreachable ↦ none
  | undefined ↦ none
]

unfoldable pub run_on_operation : List ReserveSizeOp → Option (List (ℕ × ℕ))
run_on_operation ops = replace_ops (analyse ops []).0
