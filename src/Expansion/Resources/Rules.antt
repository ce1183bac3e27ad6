-- ===== src/Expansion/Resources/Rules.antt =====
-- The rules by which a stage has its resource, and the two passes against them.
use acgatea.Common.{
  ℕ, ◌≡◌, ◌⊎◌, Bool, true, Option, none, some, List, [], ◌∷◌, if◌then◌else◌, ◌==◌, inl, inr, arith,
  Option-cases, Bool-cases,
}
use acgatea.Common.Map.{find, find-assign}
use acgatea.Expansion.Plan.{StageOp, PipelineTree, PathExpansionPlan, info_of}
use acgatea.Expansion.Resources.{
  first_transfer_mem_spaces, only_side, first_rules, keep_or_set, resource_of, set_resource,
}

-- Why `stage`, between its neighbours, has the resource `r`.
pub data Rule (tree : PipelineTree) (plan : PathExpansionPlan) (left : Option ℕ) (stage : ℕ)
    (right : Option ℕ) (r : ℕ) : Type 0 where
  anchor :
      (op : StageOp)
      → find stage tree.operation ≡ some op
      → op.applicable_units ≡ some (r ∷ [])
      → Rule tree plan left stage right r
  first_stage :
      (op : StageOp)
      → find stage tree.operation ≡ some op
      → left ≡ none
      → (first_transfer_mem_spaces op).0 ≡ some r
      → Rule tree plan left stage right r
  last_stage :
      (op : StageOp)
      → find stage tree.operation ≡ some op
      → right ≡ none
      → (first_transfer_mem_spaces op).1 ≡ some r
      → Rule tree plan left stage right r
  one_side :
      (op : StageOp)
      → find stage tree.operation ≡ some op
      → only_side (first_transfer_mem_spaces op).0 (first_transfer_mem_spaces op).1 ≡ some r
      → Rule tree plan left stage right r
  from_left :
      (op : StageOp) (l a : ℕ)
      → find stage tree.operation ≡ some op
      → left ≡ some l
      → resource_of plan l ≡ some a
      → (first_transfer_mem_spaces op).0 ≡ some a
      → (first_transfer_mem_spaces op).1 ≡ some r
      → Rule tree plan left stage right r
  from_right :
      (op : StageOp) (n a : ℕ)
      → find stage tree.operation ≡ some op
      → right ≡ some n
      → resource_of plan n ≡ some a
      → (first_transfer_mem_spaces op).1 ≡ some a
      → (first_transfer_mem_spaces op).0 ≡ some r
      → Rule tree plan left stage right r

abbrev pub head : List ℕ → Option ℕ
head [] = none
head (x ∷ xs) = some x

-- At some place of the list a rule gives `s` the resource `r`.
abbrev pub IsGiven : PipelineTree → PathExpansionPlan → Option ℕ → List ℕ → ℕ → ℕ → Type 0
IsGiven tree plan left [] s r = ⊥
IsGiven tree plan left (x ∷ stages) s r =
    ((x ≡ s) × Rule tree plan left x (head stages) r) ⊎ IsGiven tree plan (some x) stages s r

abbrev pub IsKept : PathExpansionPlan → PathExpansionPlan → Type 0
IsKept plan plan' = (s r : ℕ) → resource_of plan s ≡ some r → resource_of plan' s ≡ some r

pub Rule-kept :
    (tree : PipelineTree) (plan plan' : PathExpansionPlan) (left : Option ℕ) (s : ℕ)
    (right : Option ℕ) (r : ℕ)
    → IsKept plan plan'
    → Rule tree plan left s right r
    → Rule tree plan' left s right r
Rule-kept tree plan plan' left s right r k (anchor op e h) = anchor op e h
Rule-kept tree plan plan' left s right r k (first_stage op e h i) = first_stage op e h i
Rule-kept tree plan plan' left s right r k (last_stage op e h i) = last_stage op e h i
Rule-kept tree plan plan' left s right r k (one_side op e h) = one_side op e h
Rule-kept tree plan plan' left s right r k (from_left op l a e h i j m) =
    from_left op l a e h (k l a i) j m
Rule-kept tree plan plan' left s right r k (from_right op n a e h i j m) =
    from_right op n a e h (k n a i) j m

pub IsGiven-kept :
    (tree : PipelineTree) (plan plan' : PathExpansionPlan) (left : Option ℕ) (stages : List ℕ)
    (s r : ℕ)
    → IsKept plan plan'
    → IsGiven tree plan left stages s r
    → IsGiven tree plan' left stages s r
IsGiven-kept tree plan plan' left [] s r k h = h
IsGiven-kept tree plan plan' left (x ∷ stages) s r k (inl h) =
    inl (h.0, Rule-kept tree plan plan' left x (head stages) r k h.1)
IsGiven-kept tree plan plan' left (x ∷ stages) s r k (inr h) =
    inr (IsGiven-kept tree plan plan' (some x) stages s r k h)

pub resource_of-set :
    (stage : ℕ) (r : Option ℕ) (plan : PathExpansionPlan) (s : ℕ)
    → resource_of (set_resource stage r plan) s ≡ (if stage == s then r else resource_of plan s)
resource_of-set stage r plan s = ground (
  arith,
  find-assign stage s (record (info_of plan stage) { stage_resource = r }) plan.stage_info,
)

pub resource_of-keep_or_set :
    (stage : ℕ) (r : Option ℕ) (plan : PathExpansionPlan) (s x : ℕ)
    → resource_of (keep_or_set stage r plan) s ≡ some x
    → (resource_of plan s ≡ some x) ⊎ ((stage ≡ s) × (r ≡ some x))
resource_of-keep_or_set stage none plan s x h =
    ground (arith, h, find-assign stage s (info_of plan stage) plan.stage_info)
resource_of-keep_or_set stage (some r) plan s x h =
    ground (arith, h, resource_of-set stage (some r) plan s)

-- Rules 1 to 4.
pub first_rules-Rule :
    (tree : PipelineTree) (plan : PathExpansionPlan) (left : Option ℕ) (s : ℕ) (right : Option ℕ)
    (r : ℕ) (op : StageOp) (is_first is_last : Bool)
    → find s tree.operation ≡ some op
    → (is_first ≡ true → left ≡ none)
    → (is_last ≡ true → right ≡ none)
    → first_rules is_first is_last op ≡ some (some r)
    → Rule tree plan left s right r
unfolding first_rules
first_rules-Rule tree plan left s right r op is_first is_last e f l h =
    elim (Option-cases op.applicable_units) [
      | inr (u ∷ [], eu) ↦ anchor op e (ground (arith, eu, h))
      | inr ([], eu) ↦ absurd (ground (arith, eu, h))
      | inr (u ∷ v ∷ us, eu) ↦ absurd (ground (arith, eu, h))
      | inl eu ↦ elim (Bool-cases is_first) [
        | inl one ↦ first_stage op e (f one) (elim (Option-cases (first_transfer_mem_spaces op).0) [
          | inl n ↦ absurd (ground (arith, eu, one, n, h))
          | inr (a, n) ↦ ground (arith, eu, one, n, h)
        ])
        | inr more ↦ elim (Bool-cases is_last) [
          | inl one ↦
              last_stage op e (l one) (elim (Option-cases (first_transfer_mem_spaces op).1) [
                | inl n ↦ absurd (ground (arith, eu, more, one, n, h))
                | inr (a, n) ↦ ground (arith, eu, more, one, n, h)
              ])
          | inr between ↦ one_side op e (ground (arith, eu, more, between, h))
        ]
      ]
    ]
