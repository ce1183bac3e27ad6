-- ===== src/Arch/MemoryTree/Chains.antt =====
-- The walks up the parents that `getPath` makes, as chains of nodes, and the routes that they join to.
use acgatea.Common.{
  ℕ, zero, suc, ◌<◌, ◌≡◌, refl, sym, ap, subst, ◌∙◌, true, false, none, some, List, [], ◌∷◌, ◌++◌,
  In, arith, ◌==◌, ==_iff, ==_refl, ==-ne, Bool-cases, ◌⊎◌, inl, inr, Option-cases, is_contained,
  is_contained_iff,
}
use acgatea.Common.Map.{contains}
use acgatea.Arch.MemoryTree.{MemoryTree, parent_of}
use acgatea.Arch.MemoryTree.Query.{ancestors, climb_to, up_to, without}
use acgatea.Arch.MemoryTree.WellFormed.{IsWellFormed}
use acgatea.Arch.MemoryTree.Depth.{IsAbove, parent, up, node_at}

-- Two nodes of which one is the other's parent.
abbrev pub Adjacent : MemoryTree → ℕ → ℕ → Type 0
Adjacent t a b = (parent_of t a ≡ some b) ⊎ (parent_of t b ≡ some a)

-- A list of nodes, each next to the one before it, that ends in a given node.
abbrev pub RouteTo : MemoryTree → ℕ → List ℕ → Type 0
RouteTo t u [] = ⊥
RouteTo t u (x ∷ []) = x ≡ u
RouteTo t u (x ∷ y ∷ r) = Adjacent t x y × RouteTo t u (y ∷ r)

-- The same, with its first node given.
abbrev pub IsRoute : MemoryTree → ℕ → ℕ → List ℕ → Type 0
IsRoute t s u [] = ⊥
IsRoute t s u (x ∷ r) = (x ≡ s) × RouteTo t u (x ∷ r)

-- Each node's successor in the list is its parent; the last has none.
abbrev pub UpChain : MemoryTree → List ℕ → Type 0
UpChain t [] = ⊥
UpChain t (x ∷ []) = parent_of t x ≡ none
UpChain t (x ∷ y ∷ r) = (parent_of t x ≡ some y) × UpChain t (y ∷ r)

-- Each node is the parent of its successor.
abbrev pub DownChain : MemoryTree → List ℕ → Type 0
DownChain t [] = ⊥
DownChain t (x ∷ []) = Unit {0}
DownChain t (x ∷ y ∷ r) = (parent_of t y ≡ some x) × DownChain t (y ∷ r)

abbrev pub last_of : ℕ → List ℕ → ℕ
last_of x [] = x
last_of x (y ∷ r) = last_of y r

module _ (t : MemoryTree) (v : IsWellFormed t) where
  -- The source's walk: the node, its parent, and so on to the root.
  pub ancestors_correct :
      (fuel n : ℕ)
      → n < fuel
      → contains n t.nodes ≡ true
      → (r : List ℕ) × (ancestors t fuel n ≡ some (n ∷ r)) × UpChain t (n ∷ r)
  unfolding ancestors
  ancestors_correct zero n lt h = absurd (omega arith)
  ancestors_correct (suc fuel) n lt h = elim (Option-cases (parent_of t n)) [
    | inl e ↦ let (d, at, same) = node_at t n h in ([], ground arith, e)
    | inr (p, e) ↦
        let (d, at, same) = node_at t n h in
        let (r, done, chain) =
          ancestors_correct fuel p (omega (arith, v.older n p e)) (v.present n p e) in
        (p ∷ r, ground arith, (e, chain))
  ]

  -- The target's walk: from some node down to the target, and its head is an ancestor of the source
  -- or a root.
  pub climb_to_correct :
      (src : List ℕ) (fuel n : ℕ) (r : List ℕ)
      → n < fuel
      → contains n t.nodes ≡ true
      → DownChain t (n ∷ r)
      → (c : ℕ) × (w : List ℕ) × (climb_to t src fuel n (n ∷ r) ≡ some (c ∷ w))
        × DownChain t (c ∷ w)
        × (last_of c w ≡ last_of n r)
        × ((is_contained c src ≡ true) ⊎ (parent_of t c ≡ none))
  unfolding climb_to
  climb_to_correct src zero n r lt h chain = absurd (omega arith)
  climb_to_correct src (suc fuel) n r lt h chain = elim (Option-cases (parent_of t n)) [
    | inl e ↦ let (d, at, same) = node_at t n h in (n, r, ground arith, chain, refl, inr e)
    | inr (p, e) ↦ elim (Bool-cases (is_contained p src)) [
      | inl hit ↦
          let (d, at, same) = node_at t n h in (p, n ∷ r, ground arith, (e, chain), refl, inl hit)
      | inr miss ↦
          let (d, at, same) = node_at t n h in
          let (c, w, done, chain', ends, stop) =
            climb_to_correct src fuel p (n ∷ r) (omega (arith, v.older n p e)) (v.present n p e)
              (e, chain) in
          (c, w, ground arith, chain', ends, stop)
    ]
  ]

  pub without-DownChain :
      (c x : ℕ) (r : List ℕ) → c < x → DownChain t (x ∷ r) → without c (x ∷ r) ≡ x ∷ r
  unfolding without
  without-DownChain c x [] lt h = ground arith
  without-DownChain c x (y ∷ r) lt h =
      ground (arith, without-DownChain c y r (omega (arith, v.older y x h.0)) h.1)

  -- Of the target's walk only the head goes.
  pub without_head : (c : ℕ) (w : List ℕ) → DownChain t (c ∷ w) → without c (c ∷ w) ≡ w
  unfolding without
  without_head c [] h = ground arith
  without_head c (y ∷ w) h = ground (arith, without-DownChain c y w (v.older y c h.0) h.1)

pub DownChain-RouteTo :
    (t : MemoryTree) (c : ℕ) (w : List ℕ) → DownChain t (c ∷ w) → RouteTo t (last_of c w) (c ∷ w)
DownChain-RouteTo t c [] h = refl
DownChain-RouteTo t c (y ∷ w) h = (inr h.0, DownChain-RouteTo t y w h.1)

pub RouteTo-cons :
    (t : MemoryTree) (u x y : ℕ) (l : List ℕ)
    → Adjacent t x y
    → IsRoute t y u l
    → RouteTo t u (x ∷ l)
RouteTo-cons t u x y [] a h = absurd h
RouteTo-cons t u x y (z ∷ l) a (e, h) = (subst (Adjacent t x) (sym e) a, h)

pub In-tail : (a x : ℕ) (l : List ℕ) → ¬ (x ≡ a) → In a (x ∷ l) → In a l
In-tail a x l ne (inl e) = absurd (ne (sym e))
In-tail a x l ne (inr m) = m

-- The two halves make a route.
pub up_to-IsRoute :
    (t : MemoryTree) (c x : ℕ) (r w : List ℕ)
    → UpChain t (x ∷ r)
    → In c (x ∷ r)
    → DownChain t (c ∷ w)
    → IsRoute t x (last_of c w) (up_to c (x ∷ r) ++ w)
unfolding up_to
up_to-IsRoute t c x [] w chain (inl e) down =
    rw (← e) (rw (==_refl c) (refl, DownChain-RouteTo t c w down))
up_to-IsRoute t c x [] w chain (inr m) down = absurd m
up_to-IsRoute t c x (y ∷ r) w chain m down = elim (Bool-cases (x == c)) [
  | inl hit ↦
      let same = (==_iff x c).0 hit in
      rw hit (
        refl,
        subst (λ z. RouteTo t (last_of c w) (z ∷ w)) (sym same) (DownChain-RouteTo t c w down),
      )
  | inr miss ↦ rw miss (
    refl,
    RouteTo-cons t (last_of c w) x y (up_to c (y ∷ r) ++ w) (inl chain.0)
        (up_to-IsRoute t c y r w chain.1 (In-tail c x (y ∷ r) (==-ne x c miss) m) down),
  )
]

-- A node or an ancestor of it.
abbrev pub IsAtOrAbove : MemoryTree → ℕ → ℕ → Type 0
IsAtOrAbove t a n = (a ≡ n) ⊎ IsAbove t a n

-- Two nodes have a node in common on their ways to the root.
abbrev pub HasCommon : MemoryTree → ℕ → ℕ → Type 0
HasCommon t s u = (a : ℕ) × IsAtOrAbove t a s × IsAtOrAbove t a u

pub IsAtOrAbove-up :
    (t : MemoryTree) (a n p : ℕ) → parent_of t n ≡ some p → IsAtOrAbove t a p → IsAbove t a n
IsAtOrAbove-up t a n p e (inl same) = parent n (e ∙ ap some (sym same))
IsAtOrAbove-up t a n p e (inr h) = up n p e h

-- What stands above a node stands at or above its parent.
pub above_parent :
    (t : MemoryTree) (a n p : ℕ) → parent_of t n ≡ some p → IsAbove t a n → IsAtOrAbove t a p
above_parent t a n p e (parent _ e') = inl (ground arith)
above_parent t a n p e (up _ q e' h) = inr (subst (IsAbove t a) (ground arith) h)

pub In_ancestors :
    (t : MemoryTree) (a n : ℕ) (r : List ℕ) → UpChain t (n ∷ r) → IsAtOrAbove t a n → In a (n ∷ r)
In_ancestors t a n r chain (inl e) = inl e
In_ancestors t a n [] chain (inr (parent _ e)) = cc
In_ancestors t a n [] chain (inr (up _ p e h)) = cc
In_ancestors t a n (y ∷ r) chain (inr h) =
    inr (In_ancestors t a y r chain.1 (above_parent t a n y chain.0 h))

pub ancestors_In :
    (t : MemoryTree) (a n : ℕ) (r : List ℕ) → UpChain t (n ∷ r) → In a (n ∷ r) → IsAtOrAbove t a n
ancestors_In t a n r chain (inl e) = inl e
ancestors_In t a n [] chain (inr m) = absurd m
ancestors_In t a n (y ∷ r) chain (inr m) =
    inr (IsAtOrAbove-up t a n y chain.0 (ancestors_In t a y r chain.1 m))

pub IsAtOrAbove-trans :
    (t : MemoryTree) (a b n : ℕ) → IsAtOrAbove t a b → IsAtOrAbove t b n → IsAtOrAbove t a n
IsAtOrAbove-trans t a b n h (inl e) = subst (IsAtOrAbove t a) e h
IsAtOrAbove-trans t a b n h (inr (parent _ e)) = inr (IsAtOrAbove-up t a n b e h)
IsAtOrAbove-trans t a b n h (inr (up _ p e k)) =
    inr (IsAtOrAbove-up t a n p e (IsAtOrAbove-trans t a b p h (inr k)))

pub DownChain-IsAtOrAbove :
    (t : MemoryTree) (c : ℕ) (w : List ℕ) → DownChain t (c ∷ w) → IsAtOrAbove t c (last_of c w)
DownChain-IsAtOrAbove t c [] h = inl refl
DownChain-IsAtOrAbove t c (y ∷ w) h =
    IsAtOrAbove-trans t c y (last_of y w) (inr (parent y h.0)) (DownChain-IsAtOrAbove t y w h.1)

-- A root above a node stands at or above everything that stands above the node.
pub root_above :
    (t : MemoryTree) (c a u : ℕ)
    → parent_of t c ≡ none
    → IsAtOrAbove t c u
    → IsAtOrAbove t a u
    → IsAtOrAbove t c a
root_above t c a u top h (inl e) = subst (IsAtOrAbove t c) (sym e) h
root_above t c a u top (inl e) (inr (parent _ e')) = cc
root_above t c a u top (inl e) (inr (up _ p e' k)) = cc
root_above t c a u top (inr h) (inr (parent _ e')) = above_parent t c u a e' h
root_above t c a u top (inr h) (inr (up _ p e' k)) =
    root_above t c a p top (above_parent t c u p e' h) (inr k)

module _ (t : MemoryTree) where
  pub stopped :
      (c : ℕ) (src : List ℕ)
      → is_contained c src ≡ false
      → (is_contained c src ≡ true) ⊎ (parent_of t c ≡ none)
      → parent_of t c ≡ none
  stopped c src miss (inl hit) = cc
  stopped c src miss (inr top) = top

  pub no_common :
      (s : ℕ) (r : List ℕ) (c : ℕ)
      → is_contained c (s ∷ r) ≡ false
      → UpChain t (s ∷ r)
      → ¬ IsAtOrAbove t c s
  no_common s r c miss chain h =
      let hit = (is_contained_iff c (s ∷ r)).1 (In_ancestors t c s r chain h) in cc
