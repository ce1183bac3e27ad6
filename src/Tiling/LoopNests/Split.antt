-- ===== src/Tiling/LoopNests/Split.antt =====
-- A list of nested loops is cut behind each loop that is not parallel.
use acgatea.Common.{
  ℕ, ◌≡◌, refl, ◌∙◌, Bool, true, List, [], ◌∷◌, ◌++◌, append-nil, append_assoc, ◌==◌, ==_refl, not,
  ◌||◌, All, All-append, arith, inl, inr, Bool-cases,
}
use acgatea.Tiling.LoopNests.{back, split_from, split}

abbrev pub flatten : List (List ℕ) → List ℕ
flatten [] = []
flatten (n ∷ ns) = n ++ flatten ns

module _ (is_parallel : ℕ → Bool) where
  -- Parallel loops, and one more behind them that may be any.
  pub record IsSubNest (nest : List ℕ) : Type 0 where
    pub outer : List ℕ
    pub innermost : ℕ
    pub parts : nest ≡ outer ++ innermost ∷ []
    pub parallel : All (λ l. is_parallel l ≡ true) outer

  split_from-flatten :
      (current : List ℕ) (l : ℕ) (ls : List ℕ)
      → flatten (split_from is_parallel (back l ls) current (l ∷ ls)) ≡ current ++ l ∷ ls
  unfolding split_from
  split_from-flatten current l [] =
      let cut : (not (is_parallel l) || (l == l)) ≡ true = ground (arith, ==_refl l) in
      rw cut (append-nil (current ++ l ∷ []))
  split_from-flatten current l (x ∷ xs) =
      elim (Bool-cases (not (is_parallel l) || (l == back x xs))) [
        | inl cut ↦ rw (cut, split_from-flatten [] x xs) (append_assoc current (l ∷ []) (x ∷ xs))
        | inr on ↦
            rw on
              (split_from-flatten (current ++ l ∷ []) x xs ∙ append_assoc current (l ∷ []) (x ∷ xs))
      ]

  split_from-IsSubNest :
      (last : ℕ) (current ls : List ℕ)
      → All (λ l. is_parallel l ≡ true) current
      → All IsSubNest (split_from is_parallel last current ls)
  unfolding split_from
  split_from-IsSubNest last current [] h = tt
  split_from-IsSubNest last current (l ∷ ls) h =
      elim (Bool-cases (not (is_parallel l) || (l == last))) [
        | inl cut ↦ rw cut (
          record { outer = current; innermost = l; parts = refl; parallel = h },
          split_from-IsSubNest last [] ls tt,
        )
        | inr on ↦ rw on (
            split_from-IsSubNest last (current ++ l ∷ []) ls
              (All-append (λ l. is_parallel l ≡ true) current (l ∷ []) h (ground (arith, on), tt)))
      ]

  -- Cutting a list of loops loses none and keeps their order, and in each part all loops but the
  -- innermost are parallel.
  pub split_correct :
      (ls : List ℕ) → (flatten (split is_parallel ls) ≡ ls) × All IsSubNest (split is_parallel ls)
  split_correct [] = (refl, tt)
  split_correct (l ∷ ls) =
      (split_from-flatten [] l ls, split_from-IsSubNest (back l ls) [] (l ∷ ls) tt)
