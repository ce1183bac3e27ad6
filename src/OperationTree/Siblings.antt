-- ===== src/OperationTree/Siblings.antt =====
-- The list of children for which the pointers of a heap stand.
use acgatea.Common.{
  ℕ, zero, suc, ◌≤◌, ◌<◌, ◌≡◌, Option, none, some, List, [], ◌∷◌, ◌++◌, In, inl, inr, arith, length,
  Distinct, total-one, total-le, refl, ◌∙◌, ap,
}
use acgatea.Common.Map.{find, keys, find-In}
use acgatea.OperationTree.{Node, Heap, count_siblings, get_number_of_children, last_sibling}

-- From the pointer on, the siblings are `xs`, all of them children of `p`.
abbrev pub Siblings : Heap → ℕ → Option ℕ → List ℕ → Type 0
Siblings h p o [] = o ≡ none
Siblings h p o (x ∷ xs) =
    (o ≡ some x)
    × (r : Node) × (find x h ≡ some r)
    × (r.parent_node ≡ some p)
    × Siblings h p r.next_sibling xs

-- The node `p` has the children `xs`, in this order.
pub record HasChildren (h : Heap) (p : ℕ) (xs : List ℕ) : Type 0 where
  pub node : Node
  pub found : find p h ≡ some node
  pub siblings : Siblings h p node.first_child xs
  pub distinct : Distinct xs
  pub proper : ¬ In p xs

pub Siblings-frame :
    (h h' : Heap) (p : ℕ) (o : Option ℕ) (xs : List ℕ)
    → ((x : ℕ) → In x xs → find x h' ≡ find x h)
    → Siblings h p o xs
    → Siblings h' p o xs
Siblings-frame h h' p o [] same s = s
Siblings-frame h h' p o (x ∷ xs) same (e, r, f, g, s) = (
  e,
  r,
  same x (inl refl) ∙ f,
  g,
  Siblings-frame h h' p r.next_sibling xs (λ y m. same y (inr m)) s,
)

-- Behind the sibling `l` the chain may go on otherwise.
pub Siblings-splice :
    (h h' : Heap) (p : ℕ) (o : Option ℕ) (ys : List ℕ) (l : ℕ) (zs ws : List ℕ) (r : Node)
    → Siblings h p o (ys ++ l ∷ zs)
    → ((y : ℕ) → In y ys → find y h' ≡ find y h)
    → find l h' ≡ some r
    → r.parent_node ≡ some p
    → Siblings h' p r.next_sibling ws
    → Siblings h' p o (ys ++ l ∷ ws)
Siblings-splice h h' p o [] l zs ws r (e, _, _, _, _) same f g s = (e, r, f, g, s)
Siblings-splice h h' p o (y ∷ ys) l zs ws r (e, q, k, m, s) same f g t = (
  e,
  q,
  same y (inl refl) ∙ k,
  m,
  Siblings-splice h h' p q.next_sibling ys l zs ws r s (λ x n. same x (inr n)) f g t,
)

-- The record of a sibling.
pub Siblings-node :
    (h : Heap) (p : ℕ) (o : Option ℕ) (ys : List ℕ) (l : ℕ) (zs : List ℕ)
    → Siblings h p o (ys ++ l ∷ zs)
    → (r : Node) × (find l h ≡ some r) × (r.parent_node ≡ some p) × Siblings h p r.next_sibling zs
Siblings-node h p o [] l zs (e, r, f, g, s) = (r, f, g, s)
Siblings-node h p o (y ∷ ys) l zs (e, q, k, m, s) = Siblings-node h p q.next_sibling ys l zs s

length-keys : (h : Heap) → length (keys h) ≡ length h
length-keys [] = refl
length-keys ((k, r) ∷ h) = ap suc (length-keys h)

Siblings-known :
    (h : Heap) (p : ℕ) (o : Option ℕ) (xs : List ℕ) (x : ℕ)
    → Siblings h p o xs
    → In x xs
    → In x (keys h)
Siblings-known h p o [] x s m = absurd m
Siblings-known h p o (y ∷ xs) x (e, r, f, g, s) (inl k) = find-In x h (ground (arith, k, f))
Siblings-known h p o (y ∷ xs) x (e, r, f, g, s) (inr m) = Siblings-known h p r.next_sibling xs x s m

-- There are no more siblings than nodes.
pub Siblings-length :
    (h : Heap) (p : ℕ) (o : Option ℕ) (xs : List ℕ)
    → Siblings h p o xs
    → Distinct xs
    → length xs ≤ length h
Siblings-length h p o xs s d = omega (
  arith,
  total-le (λ _. 1) xs (keys h) d (λ x m. Siblings-known h p o xs x s m),
  total-one xs,
  total-one (keys h),
  length-keys h,
)

count_siblings-length :
    (fuel : ℕ) (h : Heap) (p : ℕ) (o : Option ℕ) (xs : List ℕ)
    → Siblings h p o xs
    → length xs ≤ fuel
    → count_siblings fuel h o ≡ some (length xs)
unfolding count_siblings
count_siblings-length zero h p o [] s enough = rw s refl
count_siblings-length (suc fuel) h p o [] s enough = rw s refl
count_siblings-length zero h p o (x ∷ xs) s enough = absurd (omega arith)
count_siblings-length (suc fuel) h p o (x ∷ xs) (e, r, f, g, s) enough =
    ground (arith, e, f, count_siblings-length fuel h p r.next_sibling xs s (omega arith))

pub last_sibling-last :
    (fuel : ℕ) (h : Heap) (p : ℕ) (x : ℕ) (ys : List ℕ) (l : ℕ)
    → Siblings h p (some x) (ys ++ l ∷ [])
    → length ys < fuel
    → last_sibling fuel h x ≡ some l
unfolding last_sibling
last_sibling-last zero h p x ys l s enough = absurd (omega arith)
last_sibling-last (suc fuel) h p x [] l (e, r, f, g, s) enough = ground (arith, e, f, s)
last_sibling-last (suc fuel) h p x (y ∷ []) l (e, r, f, g, s) enough =
    ground
      (arith, e, f, s.0, last_sibling-last fuel h p l [] l (refl, s.1, s.2, s.3, s.4) (omega arith))
last_sibling-last (suc fuel) h p x (y ∷ z ∷ ys) l (e, r, f, g, s) enough = ground (
  arith,
  e,
  f,
  s.0,
  last_sibling-last fuel h p z (z ∷ ys) l (refl, s.1, s.2, s.3, s.4) (omega arith),
)

-- The number of children of a node that has the children `xs` is the length of `xs`.
pub get_number_of_children-length :
    (h : Heap) (p : ℕ) (xs : List ℕ)
    → HasChildren h p xs
    → get_number_of_children h p ≡ some (length xs)
unfolding get_number_of_children
get_number_of_children-length h p xs c = ground (
  arith,
  c.found,
  count_siblings-length (length h) h p c.node.first_child xs c.siblings
      (Siblings-length h p c.node.first_child xs c.siblings c.distinct),
)
