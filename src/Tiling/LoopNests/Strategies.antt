-- ===== src/Tiling/LoopNests/Strategies.antt =====
-- The strategy that a loop is given, and the updates of its metadata.
use acgatea.Common.{
  ℕ, ◌≡◌, Bool, true, false, Option, none, some, List, [], ◌∷◌, if◌then◌else◌, ◌==◌, arith,
  Bool-cases, inl, inr, Option-cases,
}
use acgatea.Common.Map.{find, assign, find-assign}
use acgatea.Tiling.LoopNests.{
  tiling, LoopTilingMetadata, LoopTilingInfo, get_metadata_for_loop, get_nest_containing_loop,
  invalidate_loop, split_from, strategy_of, assign_metadata, record_index, add_nest, add_nests,
  process_loops, compute_loop_nests,
}

abbrev pub tiling_metadata : LoopTilingMetadata
tiling_metadata = record {
  divisibility = 1;
  min_value = 1;
  strategy = tiling;
  is_invalidated = false;
}

abbrev pub mark_invalidated : Option LoopTilingMetadata → Option LoopTilingMetadata
mark_invalidated none = none
mark_invalidated (some d) = some (record d { is_invalidated = true })

-- Invalidating a loop marks its metadata, if it has any, and leaves all other loops' as they were.
get_metadata_for_loop-invalidate_loop :
    (i : LoopTilingInfo) (loop l : ℕ)
    → get_metadata_for_loop (invalidate_loop loop i) l ≡ (
        if loop == l
        then mark_invalidated (get_metadata_for_loop i l)
        else get_metadata_for_loop i l)
unfolding invalidate_loop
get_metadata_for_loop-invalidate_loop i loop l =
    elim (Option-cases (find loop i.loop_to_metadata)) [
      | inl e ↦ rw e (ground arith)
      | inr (d, e) ↦ rw e (
          ground
            (arith, find-assign loop l (record d { is_invalidated = true }) i.loop_to_metadata))
    ]

-- Both loops are in the nest of the two, and to be tiled.
pub record IsTiledTogether (i : LoopTilingInfo) (outer inner : ℕ) : Type 0 where
  pub outer_nest : get_nest_containing_loop i outer ≡ some (outer ∷ inner ∷ [])
  pub inner_nest : get_nest_containing_loop i inner ≡ some (outer ∷ inner ∷ [])
  pub outer_metadata : get_metadata_for_loop i outer ≡ some tiling_metadata
  pub inner_metadata : get_metadata_for_loop i inner ≡ some tiling_metadata

-- If of two loops the inner one is perfectly nested in the outer one and has no loop perfectly nested
-- in it, the outer one is parallel and the inner one is not, then after the walk over the two both are
-- found in the same nest of the two, and the strategy of both is tiling.
pub compute_loop_nests-serial_inner :
    (perfectly_nested : ℕ → List ℕ) (is_parallel has_parent : ℕ → Bool) (outer inner : ℕ)
    → perfectly_nested outer ≡ outer ∷ inner ∷ []
    → is_parallel outer ≡ true
    → is_parallel inner ≡ false
    → IsTiledTogether
        (compute_loop_nests perfectly_nested is_parallel has_parent (outer ∷ inner ∷ []))
        outer
        inner
unfolding split_from strategy_of assign_metadata record_index add_nest add_nests process_loops find
    assign
compute_loop_nests-serial_inner nested is_parallel has_parent outer inner e par ser =
    elim (Bool-cases (outer == inner)) [
      | inl same ↦ absurd (ground (arith, same, par, ser))
      | inr other ↦ rw e (
          rw (par, ser)
            (record {
              outer_nest = ground (arith, other);
              inner_nest = ground (arith, other);
              outer_metadata = ground (arith, other);
              inner_metadata = ground (arith, other);
            }))
    ]
