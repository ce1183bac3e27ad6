-- ===== src/Expansion/StageList/Covered.antt =====
-- The list of stages covers the path, and the rebuilt dependencies make it a chain.
use acgatea.Common.{
  ℕ, ◌≡◌, ◌⊎◌, Bool, true, false, some, List, [], ◌∷◌, ◌++◌, In, In-append, inl, inr, arith,
  >>=-eq-some, refl, sym, subst, ◌∙◌, ap, append_assoc, append-nil, Distinct,
}
use acgatea.Common.Map.{find, assign, find-assign}
use acgatea.Stages.Dependencies.{entry, push_back}
use acgatea.Stages.Sorting.{Dependents}
use acgatea.Arch.RoutingGraph.{RoutingGraph, ResourceNode, get_node}
use acgatea.Expansion.Chain.Linear.{IsLinear}
use acgatea.Expansion.Plan.{PathExpansionPlan, info_of, or_new}
use acgatea.Expansion.StageList.{
  Walk, walk_path, handle_kind, right_node, clear_dependents, chain_dependents,
}
use acgatea.Expansion.StageList.Steps.{IsWalk, IsStep}
use acgatea.Expansion.StageList.Pieces.{IsPiece, handle_kind-IsHandled}

-- The stages stand for the nodes of the path, in order; with `true` the first node is done already.
pub data Covers (g : RoutingGraph) (plan : PathExpansionPlan)
    : Bool → List ℕ → List ℕ → Type 0 where
  at_end : (skip : Bool) → Covers g plan skip [] []
  done_already :
      (n : ℕ) (path stages : List ℕ)
      → Covers g plan false path stages
      → Covers g plan true (n ∷ path) stages
  covered :
      (n : ℕ) (path : List ℕ) (s : ℕ) (stages : List ℕ) (node : ResourceNode) (skip : Bool)
      → get_node g n ≡ some node
      → IsPiece g node path (info_of plan s) skip
      → Covers g plan skip path stages
      → Covers g plan false (n ∷ path) (s ∷ stages)

module _ (g : RoutingGraph) (anchors : List ℕ) (start : ℕ) (sorted_stages : List ℕ) where
  pub record IsWalked (skip : Bool) (path : List ℕ) (w w' : Walk) : Type 0 where
    pub new : List ℕ
    pub appended : w'.ordered_stages ≡ w.ordered_stages ++ new
    pub covers : Covers g w'.plan skip path new
    pub kept :
        (t : ℕ) → In t w.ordered_stages → find t w'.plan.stage_info ≡ find t w.plan.stage_info
    pub walks : IsWalk start sorted_stages w'

  IsWalked-step :
      (n : ℕ) (path : List ℕ) (w w1 w' : Walk) (skip : Bool) (node : ResourceNode) (s : ℕ)
      → get_node g n ≡ some node
      → IsStep start sorted_stages w w1 s
      → IsPiece g node path (info_of w1.plan s) skip
      → IsWalked skip path w1 w'
      → IsWalked false (n ∷ path) w w'
  IsWalked-step n path w w1 w' skip node s e step piece later = record {
    new = s ∷ later.new;
    appended =
        later.appended
        ∙ ap (λ l. l ++ later.new) step.appended
        ∙ append_assoc w.ordered_stages (s ∷ []) later.new;
    covers =
        covered n path s later.new node skip e
          (subst (λ i. IsPiece g node path i skip)
            (ap or_new (
              sym (
                later.kept s (
                  subst (In s) (sym step.appended)
                    ((In-append s w.ordered_stages (s ∷ [])).1 (inr (inl refl)))))))
            piece)
          later.covers;
    kept = λ t m.
        later.kept t
          (subst (In t) (sym step.appended) ((In-append t w.ordered_stages (s ∷ [])).1 (inl m)))
        ∙ step.kept t (λ same. step.absent (subst (λ x. In x w.ordered_stages) same m));
    walks = later.walks;
  }

  pub walk_path-IsWalked :
      (skip : Bool) (path : List ℕ) (w w' : Walk)
      → IsWalk start sorted_stages w
      → walk_path g anchors sorted_stages skip path w ≡ some w'
      → IsWalked skip path w w'
  unfolding walk_path
  walk_path-IsWalked skip [] w w' v h =
      let same : w ≡ w' = ground (arith, h) in
      subst (IsWalked skip [] w) same (record {
        new = [];
        appended = sym (append-nil w.ordered_stages);
        covers = at_end skip;
        kept = λ t m. refl;
        walks = v;
      })
  walk_path-IsWalked true (n ∷ path) w w' v h =
      let later = walk_path-IsWalked false path w w' v h in
      record {
        new = later.new;
        appended = later.appended;
        covers = done_already n path later.new later.covers;
        kept = later.kept;
        walks = later.walks;
      }
  walk_path-IsWalked false (n ∷ path) w w' v h =
      let (node, e, h2) = >>=-eq-some (get_node g n) _ h in
      let ((w1, skip), f, h3) =
        >>=-eq-some
          (handle_kind node.kind anchors sorted_stages node.resource (right_node g path) w) _ h2 in
      let (s, step, piece) =
        handle_kind-IsHandled start sorted_stages g node path w v anchors node.kind (w1, skip) refl
          f in
      IsWalked-step n path w w1 w' skip node s e step piece
        (walk_path-IsWalked skip path w1 w' step.walks h3)

pub clear_dependents-entry :
    (stages : List ℕ) (d : Dependents) (s : ℕ)
    → (In s stages ⊎ (entry d s ≡ []))
    → entry (clear_dependents stages d) s ≡ []
unfolding clear_dependents
clear_dependents-entry [] d s h = ground (arith, h)
clear_dependents-entry (x ∷ stages) d s h =
    clear_dependents-entry stages (assign x [] d) s (ground (arith, h, find-assign x s [] d))

pub chain_dependents-other :
    (order : List ℕ) (d : Dependents) (s : ℕ)
    → (¬ In s order)
    → entry (chain_dependents order d) s ≡ entry d s
unfolding chain_dependents
chain_dependents-other [] d s h = refl
chain_dependents-other (x ∷ []) d s h = refl
chain_dependents-other (x ∷ y ∷ order) d s h =
    chain_dependents-other (y ∷ order) (push_back x y d) s (λ m. h (inr m))
    ∙ ground (arith, h, find-assign x s (entry d x ++ y ∷ []) d)

pub chain_dependents-IsLinear :
    (order : List ℕ) (d : Dependents)
    → Distinct order
    → ((s : ℕ) → In s order → entry d s ≡ [])
    → IsLinear (chain_dependents order d) order
unfolding chain_dependents
chain_dependents-IsLinear [] d distinct empty = tt
chain_dependents-IsLinear (x ∷ []) d distinct empty = empty x (inl refl)
chain_dependents-IsLinear (x ∷ y ∷ order) d distinct empty = (
  chain_dependents-other (y ∷ order) (push_back x y d) x distinct.0
      ∙ ground (arith, find-assign x x (entry d x ++ y ∷ []) d, empty x (inl refl)),
  chain_dependents-IsLinear (y ∷ order) (push_back x y d) distinct.1 (λ s m.
      ground (arith, find-assign x s (entry d x ++ y ∷ []) d, empty s (inr m), distinct.0, m)),
)
