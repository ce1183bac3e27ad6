-- ===== src/Tests/Tiling.antt =====
-- A size that two loops share, and three loops of which two are perfectly nested.
use acgatea.Common.{
  ℕ, ◌≡◌, refl, Bool, not, ◌==◌, List, [], ◌∷◌, inl, inr, arith, All, if◌then◌else◌,
}
use acgatea.Tiling.TileSize.{
  AssociatedLoopInfo, TileSizeInfo, chosen, unreachable, choose_tile_size,
}
use acgatea.Tiling.TileSize.Best.{
  IsBest, choose_tile_size-IsBest, choose_tile_size-default, choose_tile_size-too_coarse,
}
use acgatea.Tiling.LoopNests.{LoopTilingInfo, split, compute_loop_nests}
use acgatea.Tiling.LoopNests.Split.{flatten, IsSubNest, split_correct}
use acgatea.Tiling.LoopNests.Computed.{IsRecorded, compute_loop_nests-IsRecorded}
use acgatea.Tiling.LoopNests.Strategies.{IsTiledTogether, compute_loop_nests-serial_inner}

-- Two loops over 12 and 6 elements.
abbrev sample_loops : List AssociatedLoopInfo
sample_loops = record { loop = 1; total_size = 12 } ∷ record { loop = 2; total_size = 6 } ∷ []

abbrev sample_info : ℕ → TileSizeInfo
sample_info divisibility = record {
  reserve_size_op = record {
    id = 0;
    result = 9;
    users = [];
    min_value = 1;
    divisibility = divisibility;
  };
  associated_loops = sample_loops;
}

choose_tile_size-IsBest_example : IsBest 1 2 sample_loops (choose_tile_size (sample_info 2))
choose_tile_size-IsBest_example = choose_tile_size-IsBest (sample_info 2) (omega arith) (λ h. cc)

choose_tile_size-default_example : (c : ℕ) × (choose_tile_size (sample_info 1) ≡ chosen c)
choose_tile_size-default_example =
    choose_tile_size-default (sample_info 1) refl (omega arith) (λ h. cc)

choose_tile_size-too_coarse_example : choose_tile_size (sample_info 3) ≡ unreachable
choose_tile_size-too_coarse_example =
    choose_tile_size-too_coarse (sample_info 3) (omega arith) (omega arith) (λ h. cc)

-- Loop 1 has loop 2 perfectly nested in it; loop 3 stands alone. Only loop 2 is not parallel.
abbrev inner_of : ℕ → List ℕ
inner_of l = if l == 1 then 2 ∷ [] else []

abbrev nested_in : ℕ → List ℕ
nested_in l = l ∷ inner_of l

abbrev is_parallel : ℕ → Bool
is_parallel l = not (l == 2)

abbrev has_parent : ℕ → Bool
has_parent l = l == 2

abbrev sample_nests : LoopTilingInfo
sample_nests = compute_loop_nests nested_in is_parallel has_parent (1 ∷ 2 ∷ 3 ∷ [])

split_correct_example :
    (flatten (split is_parallel (1 ∷ 2 ∷ 3 ∷ [])) ≡ 1 ∷ 2 ∷ 3 ∷ [])
    × All (IsSubNest is_parallel) (split is_parallel (1 ∷ 2 ∷ 3 ∷ []))
split_correct_example = split_correct is_parallel (1 ∷ 2 ∷ 3 ∷ [])

compute_loop_nests-IsRecorded_example : IsRecorded has_parent sample_nests 2
compute_loop_nests-IsRecorded_example =
    compute_loop_nests-IsRecorded nested_in is_parallel has_parent (λ l. (inner_of l, refl))
      (1 ∷ 2 ∷ 3 ∷ []) 2 (inr (inl refl))

compute_loop_nests-serial_inner_example :
    IsTiledTogether (compute_loop_nests nested_in is_parallel has_parent (1 ∷ 2 ∷ [])) 1 2
compute_loop_nests-serial_inner_example =
    compute_loop_nests-serial_inner nested_in is_parallel has_parent 1 2 refl refl refl
