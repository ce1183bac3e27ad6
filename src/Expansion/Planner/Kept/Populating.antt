-- ===== src/Expansion/Planner/Kept/Populating.antt =====
-- The population of the synthetic stages keeps the resources and units of the stages.
use acgatea.Common.{
  ℕ, ◌≡◌, Option, none, some, List, [], ◌∷◌, guard, get_elem?, if◌then◌else◌, inl, inr, Bool-cases,
  is_some, OnSome, OnSome-chain, OnSome-any, OnSome-value, refl,
}
use acgatea.Common.Map.{find}
use acgatea.Arch.RoutingGraph.{RoutingGraph, EdgeInfo, get_edge_info}
use acgatea.Expansion.Plan.{
  PipelineTree, PathExpansionPlan, TransferMaterializationInfo, synthetic_transfer, info_of,
  is_intermediate_stage,
}
use acgatea.Expansion.Factories.{create_synthetic, Side, sizes_or_derived}
use acgatea.Expansion.Classify.Transfers.{node_id_of, edge_or_dummy}
use acgatea.Expansion.Classify.{first_of}
use acgatea.Expansion.Populate.{
  Around, connect_transfer, connect_if_matching, connect_transfers, set_synthetic, populate_stage,
  find_next_transfer, source_side, dest_side, matches_intermediate, populate_from,
  populate_intermediate_stage_transfers,
}
use acgatea.Expansion.Planner.Kept.{
  IsKept, IsKept-refl, IsKept-set_info, IsCreated, add_transfer_of-IsKept, IsKept-added, if-IsKept,
  from-OnSome,
}

abbrev IsKeptBeside : PathExpansionPlan → List ℕ × PathExpansionPlan → Type 0
IsKeptBeside p (visited, q) = IsKept p q

create_synthetic-IsCreated :
    (edge : EdgeInfo) (src dest : Option ℕ) (source target : Side) (p : PathExpansionPlan)
    → OnSome (IsCreated p) (create_synthetic edge src dest source target p)
unfolding create_synthetic
create_synthetic-IsCreated edge src dest source target p =
    OnSome-any (IsCreated p) (sizes_or_derived p target target.sizes) _ (λ a.
      OnSome-any (IsCreated p) (sizes_or_derived p source source.sizes) _
        (λ b. IsKept-added p _ refl refl))

connect_transfer-IsKept :
    (g : RoutingGraph) (a : Around) (t : TransferMaterializationInfo) (visited : List ℕ)
    (p : PathExpansionPlan)
    → OnSome (IsKeptBeside p) (connect_transfer g a t (visited, p))
unfolding connect_transfer
connect_transfer-IsKept g a t visited p =
    let R = IsKeptBeside p in
    let source = (info_of p a.prev).stage_resource in
    let target = (info_of p a.next).stage_resource in
    OnSome-any R (guard (is_some t.dest_private_resource)) _ (λ _.
      OnSome-any R (find_next_transfer p (info_of p a.stage) visited (info_of p a.next).transfers) _
        (λ next. OnSome-any R (guard (is_some next.1.source_private_resource)) _ (λ _.
          OnSome-any R (node_id_of g source) _ (λ src. OnSome-any R (node_id_of g target) _ (λ dst.
            OnSome-any R (guard a.prev_is_original) _ (λ _.
              OnSome-chain (IsCreated p) R
                (create_synthetic (edge_or_dummy (get_edge_info g src dst) src dst) source target
                  (source_side p t) (dest_side p next.1) p)
                _ (create_synthetic-IsCreated _ source target _ _ p)
                (λ c k. add_transfer_of-IsKept a.stage synthetic_transfer p c k)))))))

connect_if_matching-IsKept :
    (g : RoutingGraph) (a : Around) (t : TransferMaterializationInfo) (visited : List ℕ)
    (p : PathExpansionPlan)
    → OnSome (IsKeptBeside p) (connect_if_matching g a t (visited, p))
connect_if_matching-IsKept g a t visited p =
    elim (Bool-cases (matches_intermediate (info_of p a.stage) t.dest_resource)) [
      | inl e ↦ rw e (connect_transfer-IsKept g a t visited p)
      | inr e ↦ rw e (IsKept-refl p)
    ]

connect_transfers-IsKept :
    (g : RoutingGraph) (a : Around) (transfers visited : List ℕ) (p : PathExpansionPlan)
    → OnSome (IsKept p) (connect_transfers g a transfers (visited, p))
unfolding connect_transfers
connect_transfers-IsKept g a [] visited p = IsKept-refl p
connect_transfers-IsKept g a (n ∷ transfers) visited p =
    OnSome-any (IsKept p) (get_elem? p.transfers n) _ (λ t.
      OnSome-chain (IsKeptBeside p) (IsKept p) (connect_if_matching g a t (visited, p)) _
        (connect_if_matching-IsKept g a t visited p)
        (λ state k.
          from-OnSome p state.1 _ k (connect_transfers-IsKept g a transfers state.0 state.1)))

set_synthetic-IsKept : (stage : ℕ) (p : PathExpansionPlan) → IsKept p (set_synthetic stage p)
set_synthetic-IsKept stage p = IsKept-set_info stage _ p refl refl

abbrev around : PipelineTree → ℕ → ℕ → ℕ → Around
around tree prev stage next = record {
  stage = stage;
  prev = prev;
  next = next;
  prev_is_original = is_some (find prev tree.operation);
}

populate_stage-IsKept :
    (g : RoutingGraph) (tree : PipelineTree) (prev : Option ℕ) (stage : ℕ) (next : Option ℕ)
    (p : PathExpansionPlan)
    → OnSome (IsKept p) (populate_stage g tree prev stage next p)
unfolding populate_stage
populate_stage-IsKept g tree none stage next p = tt
populate_stage-IsKept g tree (some prev) stage none p = tt
populate_stage-IsKept g tree (some prev) stage (some next) p =
    elim (find prev p.stage_info)
      as (λ o. OnSome (IsKept p) (elim o [
        | none ↦ some (set_synthetic stage p)
        | some info ↦
            connect_transfers g (around tree prev stage next) info.transfers
              ([], set_synthetic stage p)
      ])) [
        | none ↦ set_synthetic-IsKept stage p
        | some info ↦ from-OnSome p (set_synthetic stage p) _ (set_synthetic-IsKept stage p) (
            connect_transfers-IsKept g (around tree prev stage next) info.transfers []
              (set_synthetic stage p))
      ]

populate_from-IsKept :
    (g : RoutingGraph) (tree : PipelineTree) (prev : Option ℕ) (stages : List ℕ)
    (p : PathExpansionPlan)
    → OnSome (IsKept p) (populate_from g tree prev stages p)
unfolding populate_from
populate_from-IsKept g tree prev [] p = IsKept-refl p
populate_from-IsKept g tree prev (stage ∷ stages) p =
    OnSome-chain (IsKept p) (IsKept p)
      (if is_intermediate_stage tree stage
        then populate_stage g tree prev stage (first_of stages) p
        else some p)
      _
      (if-IsKept (is_intermediate_stage tree stage) p _
        (populate_stage-IsKept g tree prev stage (first_of stages) p))
      (λ q k. from-OnSome p q _ k (populate_from-IsKept g tree (some stage) stages q))

pub populate-IsKept :
    (g : RoutingGraph) (tree : PipelineTree) (stages : List ℕ) (p q : PathExpansionPlan)
    → populate_intermediate_stage_transfers g tree stages p ≡ some q
    → IsKept p q
unfolding populate_intermediate_stage_transfers
populate-IsKept g tree stages p q e =
    OnSome-value (IsKept p) _ q (populate_from-IsKept g tree none stages p) e
