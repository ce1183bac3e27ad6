-- ===== src/OperationTree/Inserting/Free.antt =====
-- What can become a child, and where the children of a node start.
use acgatea.Common.{ℕ, ◌≡◌, Option, none, some, List, [], ◌∷◌, ◌++◌, In}
use acgatea.Common.Map.{find}
use acgatea.OperationTree.{Node, Heap}
use acgatea.OperationTree.Siblings.{Siblings}

-- A node that can become a child of `p`, whose children are `xs`.
pub record IsFree (h : Heap) (p : ℕ) (xs : List ℕ) (child : ℕ) : Type 0 where
  pub node : Node
  pub found : find child h ≡ some node
  pub alone : node.next_sibling ≡ none
  pub apart : ¬ In child xs
  pub proper : ¬ (child ≡ p)

module _ (h : Heap) (p : ℕ) where
  pub Siblings-start :
      (ys : List ℕ) (l : ℕ) (zs : List ℕ) (o : Option ℕ)
      → Siblings h p o (ys ++ l ∷ zs)
      → (x : ℕ) × (o ≡ some x)
  Siblings-start [] l zs o s = (l, s.0)
  Siblings-start (y ∷ ys) l zs o s = (y, s.0)
