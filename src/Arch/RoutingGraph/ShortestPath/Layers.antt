-- ===== src/Arch/RoutingGraph/ShortestPath/Layers.antt =====
-- The measures of the search: the nodes not visited yet, and the layers of its queue. `dep` gives
-- each node its depth, and `b` is the depth of the front of the queue.
use acgatea.Common.{
  ℕ, suc, ◌≤◌, ◌<◌, ◌≡◌, refl, sym, ◌∙◌, subst, true, false, List, [], ◌∷◌, ◌++◌, if◌then◌else◌,
  ◌==◌, All, All-append, All-In, In-All, In, arith, inl, inr, ◌⊎◌,
}
use acgatea.Common.Map.{find-assign}
use acgatea.Arch.RoutingGraph.ShortestPath.{Search, is_visited, mark}

-- How many of the keys are not visited.
abbrev pub unvisited : Search → List ℕ → ℕ
unvisited s [] = 0
unvisited s (k ∷ ks) = if is_visited s k then unvisited s ks else suc (unvisited s ks)

pub is_visited-mark :
    (current n : ℕ) (s : Search) (v : ℕ)
    → is_visited (mark current n s) v ≡ (if n == v then true else is_visited s v)
is_visited-mark current n s v = ground (arith, find-assign n v true s.visited)

pub unvisited-mark_le :
    (current n : ℕ) (s : Search) (ks : List ℕ) → unvisited (mark current n s) ks ≤ unvisited s ks
unvisited-mark_le current n s [] = omega arith
unvisited-mark_le current n s (k ∷ ks) =
    ground (arith, unvisited-mark_le current n s ks, is_visited-mark current n s k)

pub unvisited-mark :
    (current n : ℕ) (s : Search) (ks : List ℕ)
    → In n ks
    → is_visited s n ≡ false
    → unvisited (mark current n s) ks < unvisited s ks
unvisited-mark current n s [] h e = absurd h
unvisited-mark current n s (k ∷ ks) (inl same) e =
    ground (arith, unvisited-mark_le current n s ks, is_visited-mark current n s k, same)
unvisited-mark current n s (k ∷ ks) (inr later) e =
    ground (arith, unvisited-mark current n s ks later e, is_visited-mark current n s k)

-- Nodes of depth `b`, and behind them nodes of the next depth.
abbrev pub IsLayered : (ℕ → ℕ) → ℕ → List ℕ → Type 0
IsLayered dep b [] = Unit
IsLayered dep b (x ∷ xs) = ((dep x ≡ b) × IsLayered dep b xs) ⊎ All (λ y. dep y ≡ suc b) (x ∷ xs)

IsLayered-level : (dep : ℕ → ℕ) (b : ℕ) (xs : List ℕ) → All (λ y. dep y ≡ b) xs → IsLayered dep b xs
IsLayered-level dep b [] h = tt
IsLayered-level dep b (x ∷ xs) h = inl (h.0, IsLayered-level dep b xs h.1)

-- The next base is the depth of the first node.
pub IsLayered-pop :
    (dep : ℕ → ℕ) (b x : ℕ) (xs : List ℕ)
    → IsLayered dep b (x ∷ xs)
    → (b ≤ dep x) × IsLayered dep (dep x) xs
IsLayered-pop dep b x xs (inl h) =
    (ground (arith, h.0), subst (λ c. IsLayered dep c xs) (sym h.0) h.1)
IsLayered-pop dep b x xs (inr h) = (
  ground (arith, h.0),
  subst (λ c. IsLayered dep c xs) (sym h.0) (IsLayered-level dep (suc b) xs h.1),
)

pub IsLayered-ge :
    (dep : ℕ → ℕ) (b : ℕ) (xs : List ℕ) → IsLayered dep b xs → (y : ℕ) → In y xs → b ≤ dep y
IsLayered-ge dep b [] h y m = absurd m
IsLayered-ge dep b (x ∷ xs) (inl h) y (inl e) = rw e (ground (arith, h.0))
IsLayered-ge dep b (x ∷ xs) (inl h) y (inr m) = IsLayered-ge dep b xs h.1 y m
IsLayered-ge dep b (x ∷ xs) (inr h) y m =
    rw (All-In (λ y. dep y ≡ suc b) (x ∷ xs) h y m) (omega arith)

pub IsLayered-push :
    (dep : ℕ → ℕ) (b : ℕ) (xs : List ℕ) (n : ℕ)
    → IsLayered dep b xs
    → dep n ≡ suc b
    → IsLayered dep b (xs ++ n ∷ [])
IsLayered-push dep b [] n h e = inr (e, tt)
IsLayered-push dep b (x ∷ xs) n (inl h) e = inl (h.0, IsLayered-push dep b xs n h.1 e)
IsLayered-push dep b (x ∷ xs) n (inr h) e =
    inr (All-append (λ y. dep y ≡ suc b) (x ∷ xs) (n ∷ []) h (e, tt))

-- The depths of the nodes on the list are all that the layers depend on.
pub IsLayered-agree :
    (dep dep' : ℕ → ℕ) (b : ℕ) (xs : List ℕ)
    → ((y : ℕ) → In y xs → dep' y ≡ dep y)
    → IsLayered dep b xs
    → IsLayered dep' b xs
IsLayered-agree dep dep' b [] f h = tt
IsLayered-agree dep dep' b (x ∷ xs) f (inl h) =
    inl (f x (inl refl) ∙ h.0, IsLayered-agree dep dep' b xs (λ y m. f y (inr m)) h.1)
IsLayered-agree dep dep' b (x ∷ xs) f (inr h) = inr (
    In-All (λ y. dep' y ≡ suc b) (x ∷ xs)
      (λ y m. f y m ∙ All-In (λ y. dep y ≡ suc b) (x ∷ xs) h y m))
