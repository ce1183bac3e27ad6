-- ===== src/Tiling/TileSize/Best.antt =====
-- The tile size that is chosen is the greatest suitable one.
use acgatea.Common.{
  ℕ, zero, suc, ◌+◌, ◌-◌, ◌%◌, ◌≤◌, ◌<◌, ◌≡◌, refl, subst, List, [], ◌∷◌, mod-eq_of_lt, ◌==◌,
  ==_iff, ==-ne, ltb, not, ◌&&◌, All, arith, inl, inr, ◌⊎◌, Bool-cases,
}
use acgatea.Tiling.TileSize.{
  AssociatedLoopInfo, TileSizeInfo, valid_for_all_loops, invalid_for_this_tile_size,
  evaluate_candidate_tile_size, Choice, chosen, unreachable, try_candidates, start_candidate,
  choose_from, choose_tile_size,
}

-- Each loop runs over whole tiles.
abbrev pub IsWhole : ℕ → List AssociatedLoopInfo → Type 0
IsWhole c loops = All (λ l. (l.total_size % c) ≡ 0) loops

-- What the operation and its loops ask of a size.
pub record IsSuitable (min_value divisibility : ℕ) (loops : List AssociatedLoopInfo) (c : ℕ)
    : Type 0 where
  pub at_least : min_value ≤ c
  pub at_most : c ≤ start_candidate min_value
  pub divisible : 1 < divisibility → (c % divisibility) ≡ 0
  pub whole : IsWhole c loops

pub data IsBest (min_value divisibility : ℕ) (loops : List AssociatedLoopInfo)
    : Choice → Type 0 where
  best :
      (c : ℕ)
      → IsSuitable min_value divisibility loops c
      → ((d : ℕ) → IsSuitable min_value divisibility loops d → d ≤ c)
      → IsBest min_value divisibility loops (chosen c)
  none_suitable :
      ((c : ℕ) → ¬ IsSuitable min_value divisibility loops c)
      → IsBest min_value divisibility loops unreachable

evaluate-cases :
    (loops : List AssociatedLoopInfo) (c : ℕ)
    → 1 ≤ c
    → ((evaluate_candidate_tile_size loops c ≡ valid_for_all_loops) × IsWhole c loops)
      ⊎ ((evaluate_candidate_tile_size loops c ≡ invalid_for_this_tile_size) × ¬ IsWhole c loops)
unfolding evaluate_candidate_tile_size
evaluate-cases [] c h = inl (refl, tt)
evaluate-cases (l ∷ ls) zero h = absurd (omega (arith, h))
evaluate-cases (l ∷ ls) (suc c) h = elim (Bool-cases ((l.total_size % suc c) == 0)) [
  | inl whole ↦
      let e = (==_iff (l.total_size % suc c) 0).0 whole in
      elim (evaluate-cases ls (suc c) h) [
        | inl (v, all) ↦ inl (rw whole v, (e, all))
        | inr (v, bad) ↦ inr (rw whole v, λ all. bad all.1)
      ]
  | inr rest ↦ inr (rw rest refl, λ all. ==-ne (l.total_size % suc c) 0 rest all.0)
]

module _ (min_value divisibility : ℕ) (loops : List AssociatedLoopInfo)
    (positive : 1 ≤ min_value) where
  -- A candidate that is not suitable is passed over.
  below :
      (k : ℕ)
      → ((d : ℕ) → IsSuitable min_value divisibility loops d → d < min_value + suc k)
      → ¬ IsSuitable min_value divisibility loops (min_value + k)
      → (d : ℕ) → IsSuitable min_value divisibility loops d
      → d < min_value + k
  below k bound bad d s = elim (Bool-cases (d == min_value + k)) [
    | inl e ↦
        absurd
          (bad (subst (IsSuitable min_value divisibility loops) ((==_iff d (min_value + k)).0 e) s))
    | inr ne ↦ omega (arith, bound d s, ==-ne d (min_value + k) ne)
  ]

  try_candidates-IsBest :
      (k : ℕ)
      → min_value + k ≤ suc (start_candidate min_value)
      → ((d : ℕ) → IsSuitable min_value divisibility loops d → d < min_value + k)
      → IsBest min_value divisibility loops (try_candidates min_value divisibility loops k)
  unfolding try_candidates
  try_candidates-IsBest zero le bound =
      none_suitable (λ c s. absurd (omega (arith, bound c s, s.at_least)))
  try_candidates-IsBest (suc k) le bound =
      let c = min_value + k in
      let le' : min_value + k ≤ suc (start_candidate min_value) = omega (arith, le) in
      elim (Bool-cases (ltb 1 divisibility && not ((c % divisibility) == 0))) [
        | inl odd ↦
            rw (odd, try_candidates)
              (try_candidates-IsBest k le' (below k bound (λ s. ground (arith, s.divisible))))
        | inr fits ↦ elim (evaluate-cases loops c (omega (arith, positive))) [
          | inl (v, whole) ↦
              rw (fits, v, try_candidates)
                (best c
                  (record {
                    at_least = omega arith;
                    at_most = omega (arith, le);
                    divisible = λ h. ground arith;
                    whole = whole;
                  })
                  (λ d s. omega (arith, bound d s)))
          | inr (v, bad) ↦
              rw (fits, v, try_candidates)
                (try_candidates-IsBest k le' (below k bound (λ s. bad s.whole)))
        ]
      ]

-- With a minimum of at least 1 and some loop, the choice is the greatest size between the minimum and
-- the first candidate that has the divisibility asked and divides every loop's total; the source's
-- unreachable end is reached exactly when no size in that range does, and no remainder by 0 is taken.
pub choose_tile_size-IsBest :
    (i : TileSizeInfo)
    → 1 ≤ i.reserve_size_op.min_value
    → ¬ (i.associated_loops ≡ [])
    → IsBest i.reserve_size_op.min_value i.reserve_size_op.divisibility i.associated_loops
        (choose_tile_size i)
unfolding choose_tile_size
choose_tile_size-IsBest i positive some_loop = go i.associated_loops some_loop
  where
    go :
        (loops : List AssociatedLoopInfo)
        → ¬ (loops ≡ [])
        → IsBest i.reserve_size_op.min_value i.reserve_size_op.divisibility loops
            (choose_from i.reserve_size_op.min_value i.reserve_size_op.divisibility loops)
    go [] bad = absurd (bad refl)
    go (l ∷ ls) bad =
        try_candidates-IsBest i.reserve_size_op.min_value i.reserve_size_op.divisibility (l ∷ ls)
          positive (suc (start_candidate i.reserve_size_op.min_value - i.reserve_size_op.min_value))
          (ground arith) (λ d s. ground (arith, s.at_most))

IsWhole-one : (loops : List AssociatedLoopInfo) → IsWhole 1 loops
IsWhole-one [] = tt
IsWhole-one (l ∷ ls) = (omega arith, IsWhole-one ls)

chosen-of-best :
    (m d : ℕ) (loops : List AssociatedLoopInfo) (choice : Choice)
    → IsBest m d loops choice
    → IsSuitable m d loops 1
    → (c : ℕ) × (choice ≡ chosen c)
chosen-of-best m d loops _ (best c s g) one = (c, refl)
chosen-of-best m d loops _ (none_suitable f) one = absurd (f 1 one)

-- An operation with some loop, a minimum of 1 and no divisibility asked (as the tiling passes make
-- them) always gets a size.
pub choose_tile_size-default :
    (i : TileSizeInfo)
    → i.reserve_size_op.min_value ≡ 1
    → i.reserve_size_op.divisibility ≤ 1
    → ¬ (i.associated_loops ≡ [])
    → (c : ℕ) × (choose_tile_size i ≡ chosen c)
choose_tile_size-default i one le some_loop =
    chosen-of-best _ _ _ _ (choose_tile_size-IsBest i (omega (arith, one)) some_loop) (record {
      at_least = omega (arith, one);
      at_most = ground (arith, one);
      divisible = λ h. absurd (omega (arith, h, le));
      whole = IsWhole-one i.associated_loops;
    })

unreachable-of-best :
    (m d : ℕ) (loops : List AssociatedLoopInfo) (choice : Choice)
    → IsBest m d loops choice
    → ((c : ℕ) → ¬ IsSuitable m d loops c)
    → choice ≡ unreachable
unreachable-of-best m d loops _ (best c s g) none_fits = absurd (none_fits c s)
unreachable-of-best m d loops _ (none_suitable f) none_fits = refl

-- When some loop uses the size, the minimum is at least 1, and the divisibility asked is above the
-- greatest candidate (above 2 and above the minimum), the source's unreachable end is reached,
-- whatever the totals of the loops are.
pub choose_tile_size-too_coarse :
    (i : TileSizeInfo)
    → 1 ≤ i.reserve_size_op.min_value
    → start_candidate i.reserve_size_op.min_value < i.reserve_size_op.divisibility
    → ¬ (i.associated_loops ≡ [])
    → choose_tile_size i ≡ unreachable
choose_tile_size-too_coarse i positive coarse some_loop =
    let d = i.reserve_size_op.divisibility in
    unreachable-of-best _ _ _ _ (choose_tile_size-IsBest i positive some_loop) (λ c s.
      let small : c < d = omega (arith, s.at_most, coarse) in
      let one : 1 ≤ c = omega (arith, s.at_least, positive) in
      let whole = s.divisible (omega (arith, one, small)) in
      absurd (omega (arith, one, whole, mod-eq_of_lt small)))
