-- ===== src/Expansion/Chain/Linear.antt =====
-- The validation accepts exactly the chains.
use acgatea.Common.{
  ℕ, suc, ◌+◌, ◌≤◌, ◌≡◌, ◌↔◌, ◌==◌, true, some, List, [], ◌∷◌, if◌then◌else◌, ltb, length, In, All,
  inl, inr, arith, count, Bool-cases, Option-cases, List-cases, refl, sym, subst, ap,
}
use acgatea.Common.Map.{Map, find, assign, find-assign}
use acgatea.Stages.Dependencies.{entry}
use acgatea.Stages.Sorting.{Dependents}
use acgatea.Stages.Sorting.Topological.{IsTopological}
use acgatea.Expansion.Chain.{count_of, note_dependents, validate_stages, validate_linear_chain}

-- Each stage has the next one as its only dependent, and the last has none.
abbrev pub IsLinear : Dependents → List ℕ → Type 0
IsLinear dependents [] = Unit
IsLinear dependents (s ∷ []) = entry dependents s ≡ []
IsLinear dependents (s ∷ t ∷ stages) =
    (entry dependents s ≡ t ∷ []) × IsLinear dependents (t ∷ stages)

note_dependents-count :
    (xs : List ℕ) (m : Map ℕ) (s : ℕ)
    → count_of (note_dependents xs m) s ≡ count_of m s + count s xs
unfolding note_dependents
note_dependents-count [] m s = omega arith
note_dependents-count (x ∷ xs) m s = ground (
  arith,
  note_dependents-count xs (assign x (suc (count_of m x)) m) s,
  find-assign x s (suc (count_of m x)) m,
)

module _ (dependents : Dependents) where
  -- No stage has two dependents, or two stages in front of it.
  abbrev HasPassed : Map ℕ → List ℕ → Type 0
  HasPassed m [] = Unit
  HasPassed m (s ∷ stages) =
      (length (entry dependents s) ≤ 1)
      × (count_of (note_dependents (entry dependents s) m) s ≤ 1)
      × HasPassed (note_dependents (entry dependents s) m) stages

  abbrev sinks_in : List ℕ → ℕ
  sinks_in [] = 0
  sinks_in (s ∷ stages) =
      if length (entry dependents s) == 0 then suc (sinks_in stages) else sinks_in stages

  validate_stages-HasPassed :
      (stages : List ℕ) (m : Map ℕ) (sources sinks a b : ℕ)
      → validate_stages dependents stages m sources sinks ≡ some (a, b)
      → HasPassed m stages × (b ≡ sinks + sinks_in stages)
  unfolding validate_stages
  validate_stages-HasPassed [] m sources sinks a b e = (tt, ground arith)
  validate_stages-HasPassed (s ∷ stages) m sources sinks a b e =
      let counted = note_dependents (entry dependents s) m in
      elim (Bool-cases (ltb 1 (length (entry dependents s)))) [
        | inl h ↦ ground (arith, h, e)
        | inr h ↦ elim (Bool-cases (ltb 1 (count_of counted s))) [
          | inl k ↦ ground (arith, h, k, e)
          | inr k ↦
              let (p, q) =
                validate_stages-HasPassed stages counted
                  (if count_of counted s == 0 then suc sources else sources)
                  (if length (entry dependents s) == 0 then suc sinks else sinks) a b
                  (ground (arith, h, k, e)) in
              ((ground (arith, h), ground (arith, k), p), ground (arith, q))
        ]
      ]

  HasPassed-count :
      (stages : List ℕ) (m : Map ℕ) (t : ℕ) → HasPassed m stages → In t stages → count_of m t ≤ 1
  HasPassed-count [] m t h n = absurd n
  HasPassed-count (s ∷ stages) m t h n = ground (
    arith,
    note_dependents-count (entry dependents s) m t,
    h.1,
    n,
    HasPassed-count stages (note_dependents (entry dependents s) m) t h.2,
  )

  -- A stage behind the first of a chain has its predecessor there, and no other.
  second_predecessor :
      (s : ℕ) (stages : List ℕ) (m : Map ℕ) (u : ℕ)
      → IsLinear dependents (s ∷ stages)
      → HasPassed m (s ∷ stages)
      → In u stages
      → count_of m u ≡ 0
  second_predecessor s [] m u l h n = absurd n
  second_predecessor s (t ∷ stages) m u l h n =
      let counted = note_dependents (entry dependents s) m in
      let one : count t (entry dependents s) ≡ 1 =
        subst (λ xs. count t xs ≡ 1) (sym l.0) (ground arith) in
      ground (
        arith,
        n,
        one,
        note_dependents-count (entry dependents s) m u,
        HasPassed-count (t ∷ stages) counted u h.2,
        second_predecessor t stages counted u l.1 h.2,
      )

  sinks_in-pos :
      (s : ℕ) (stages : List ℕ)
      → IsTopological (entry dependents) (s ∷ stages)
      → 1 ≤ sinks_in (s ∷ stages)
  sinks_in-pos s [] t = elim (List-cases (entry dependents s)) [
    | inl e ↦ ground (arith, e)
    | inr (x, rest, e) ↦ absurd (subst (All (λ y. In y [])) e t.1).0
  ]
  sinks_in-pos s (x ∷ stages) t = ground (arith, sinks_in-pos x stages t.2)

  HasPassed-IsLinear :
      (s : ℕ) (stages : List ℕ) (m : Map ℕ)
      → IsTopological (entry dependents) (s ∷ stages)
      → HasPassed m (s ∷ stages)
      → sinks_in (s ∷ stages) ≡ 1
      → IsLinear dependents (s ∷ stages)
  HasPassed-IsLinear s [] m t h e = elim (List-cases (entry dependents s)) [
    | inl none_left ↦ none_left
    | inr (x, rest, e) ↦ absurd (subst (All (λ y. In y [])) e t.1).0
  ]
  HasPassed-IsLinear s (x ∷ stages) m t h e = elim (List-cases (entry dependents s)) [
    | inl none_left ↦ absurd (ground (arith, none_left, e, sinks_in-pos x stages t.2))
    | inr (u, [], d) ↦
        let counted = note_dependents (entry dependents s) m in
        let l = HasPassed-IsLinear x stages counted t.2 h.2 (ground (arith, d, e)) in
        let one : count u (entry dependents s) ≡ 1 =
          subst (λ xs. count u xs ≡ 1) (sym d) (ground arith) in
        elim (subst (All (λ y. In y (x ∷ stages))) d t.1).0 [
          | inl same ↦ (subst (λ v. entry dependents s ≡ v ∷ []) same d, l)
          | inr n ↦ absurd (
              omega (
                arith,
                one,
                note_dependents-count (entry dependents s) m u,
                second_predecessor x stages counted u l h.2 n,
              ))
        ]
    | inr (u, v ∷ rest, d) ↦ absurd (omega (arith, ap (λ (xs : List ℕ). length xs) d, h.0))
  ]

  IsLinear-validate :
      (s : ℕ) (stages : List ℕ) (m : Map ℕ) (sources sinks : ℕ)
      → IsLinear dependents (s ∷ stages)
      → IsTopological (entry dependents) (s ∷ stages)
      → count_of m s ≤ 1
      → ((t : ℕ) → In t stages → count_of m t ≡ 0)
      → validate_stages dependents (s ∷ stages) m sources sinks
        ≡ some (if count_of m s == 0 then suc sources else sources, suc sinks)
  unfolding validate_stages
  IsLinear-validate s [] m sources sinks l t h z =
      ground (arith, l, note_dependents-count (entry dependents s) m s)
  IsLinear-validate s (x ∷ stages) m sources sinks l t h z =
      let counted = note_dependents (entry dependents s) m in
      let counts : (v : ℕ) → count_of counted v ≡ count_of m v + (if x == v then 1 else 0) = λ v.
        subst (λ xs. count_of counted v ≡ count_of m v + count v xs) l.0
          (note_dependents-count (entry dependents s) m v) in
      ground (
        arith,
        l.0,
        counts s,
        counts x,
        t.0,
        z x (inl refl),
        IsLinear-validate x stages counted (if count_of m s == 0 then suc sources else sources)
            sinks l.1 t.2 (ground (arith, counts x, z x (inl refl)))
            (λ v n. ground (arith, counts v, z v (inr n), t.2.0, n)),
      )

  -- Of stages in topological order the validation accepts exactly the chains.
  pub validate_linear_chain_iff :
      (stages : List ℕ)
      → IsTopological (entry dependents) stages
      → (validate_linear_chain dependents stages ≡ true) ↔ IsLinear dependents stages
  unfolding validate_linear_chain find
  validate_linear_chain_iff [] t = (λ e. tt, λ l. refl)
  validate_linear_chain_iff (s ∷ stages) t = (
    λ e. elim (Option-cases (validate_stages dependents (s ∷ stages) [] 0 0)) [
      | inl f ↦ absurd (ground (arith, f, e))
      | inr ((a, b), f) ↦
          let (h, k) = validate_stages-HasPassed (s ∷ stages) [] 0 0 a b f in
          HasPassed-IsLinear s stages [] t h (ground (arith, f, e, k))
    ],
    λ l. rw (IsLinear-validate s stages [] 0 0 l t (omega arith) (λ v n. refl)),
  )

-- The stages can be put in a row, each of them once, in which each stage has the next one as its only
-- dependent, and the last has none.
abbrev pub IsChain : Dependents → List ℕ → List ℕ → Type 0
IsChain dependents stages order =
    IsTopological (entry dependents) order
    × IsLinear dependents order
    × ((s : ℕ) → In s order ↔ In s stages)
