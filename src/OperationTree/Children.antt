-- ===== src/OperationTree/Children.antt =====
-- `insertChildNode` on the list of the children, without the pointers. The planner of the path
-- expansion, which looks at no pointer, uses it in this form.
use acgatea.Common.{ℕ, Option, none, some, List, [], ◌∷◌, ◌++◌, if◌then◌else◌, ◌==◌, ◌>>=◌}

unfoldable pub insert_after : ℕ → ℕ → List ℕ → Option (List ℕ)
insert_after pos child [] = none
insert_after pos child (x ∷ xs) =
    let rest = insert_after pos child xs in
    if x == pos then some (x ∷ child ∷ xs) else (rest >>= λ ys. some (x ∷ ys))

-- Behind `pos`, or behind all children.
unfoldable pub insert_in_children : ℕ → Option ℕ → List ℕ → Option (List ℕ)
insert_in_children child none children = some (children ++ child ∷ [])
insert_in_children child (some pos) children = insert_after pos child children
