-- ===== src/Arch/GroupLocalMemory/Local.antt =====
-- The local memory of a unit's kind is the one memory that all of its groups have.
use acgatea.Common.{
  ℕ, ◌≡◌, refl, sym, ◌∙◌, subst, ◌↔◌, none, some, List, [], ◌∷◌, In-cases, In, ◌⊎◌, inl, inr,
}
use acgatea.Common.Map.{Map, find}
use acgatea.Arch.Device.{Body}
use acgatea.Arch.GroupLocalMemory.{
  exec_kinds, mem_kinds, groups, record_units, record_groups, initialize, only,
  get_local_memory_kind,
}
use acgatea.Arch.GroupLocalMemory.Shared.{
  HasUnit, IsShared, IsDistinct, IsEntry, IsEntry-iff, mem_kinds-IsDistinct, record_units-entry,
  record_units-none, record_units-new,
}

HasUnit-cases : (gs : List Body) (k : ℕ) → HasUnit gs k ⊎ (¬ HasUnit gs k)
HasUnit-cases [] k = inr (λ h. h)
HasUnit-cases (g ∷ gs) k = elim (In-cases k (exec_kinds g)) [
  | inl m ↦ inl (inl m)
  | inr absent ↦ elim (HasUnit-cases gs k) [
    | inl h ↦ inl (inr h)
    | inr nowhere ↦ inr (λ h. elim h [ inl m ↦ absent m | inr t ↦ nowhere t ])
  ]
]

record_groups-entry :
    (gs : List Body) (m : Map (List ℕ)) (k : ℕ) (P : ℕ → Type 0)
    → IsEntry (find k m) P
    → IsEntry (find k (record_groups gs m)) (λ y. P y × IsShared gs k y)
unfolding record_groups
record_groups-entry [] m k P e = IsEntry-iff (find k m) P _ (λ y. (λ p. (p, tt), λ q. q.0)) e
record_groups-entry (g ∷ gs) m k P e =
    let Q : ℕ → Type 0 = λ y. P y × (In k (exec_kinds g) → In y (mem_kinds g)) in
    let m' = record_units (mem_kinds g) (exec_kinds g) m in
    IsEntry-iff (find k (record_groups gs m')) (λ y. Q y × IsShared gs k y)
      (λ y. P y × IsShared (g ∷ gs) k y)
      (λ y. (λ ((p, f), s). (p, (f, s)), λ (p, (f, s)). ((p, f), s)))
      (record_groups-entry gs m' k Q (record_units-entry (mem_kinds g) (exec_kinds g) m k P e))

record_groups-none :
    (gs : List Body) (m : Map (List ℕ)) (k : ℕ)
    → find k m ≡ none
    → ¬ HasUnit gs k
    → find k (record_groups gs m) ≡ none
unfolding record_groups
record_groups-none [] m k e absent = e
record_groups-none (g ∷ gs) m k e absent =
    record_groups-none gs (record_units (mem_kinds g) (exec_kinds g) m) k
      (record_units-none (mem_kinds g) (exec_kinds g) m k e (λ h. absent (inl h)))
      (λ h. absent (inr h))

record_groups-new :
    (gs : List Body) (m : Map (List ℕ)) (k : ℕ)
    → find k m ≡ none
    → HasUnit gs k
    → IsEntry (find k (record_groups gs m)) (IsShared gs k)
unfolding record_groups
record_groups-new [] m k e h = absurd h
record_groups-new (g ∷ gs) m k e h =
    let m' = record_units (mem_kinds g) (exec_kinds g) m in
    elim (In-cases k (exec_kinds g)) [
      | inl here ↦
          IsEntry-iff (find k (record_groups gs m')) (λ y. In y (mem_kinds g) × IsShared gs k y)
            (IsShared (g ∷ gs) k) (λ y. (λ (p, s). (λ _. p, s), λ (f, s). (f here, s)))
            (record_groups-entry gs m' k (λ y. In y (mem_kinds g))
              (record_units-new (mem_kinds g) (mem_kinds-IsDistinct g) (exec_kinds g) m k e here))
      | inr absent ↦
          IsEntry-iff (find k (record_groups gs m')) (IsShared gs k) (IsShared (g ∷ gs) k)
            (λ y. (λ s. (λ here. absurd (absent here), s), λ (f, s). s))
            (record_groups-new gs m' k (record_units-none (mem_kinds g) (exec_kinds g) m k e absent)
              (elim h [ inl here ↦ absurd (absent here) | inr t ↦ t ]))
    ]

-- A set has a single element exactly if just that one is a member.
only_iff :
    (s : List ℕ) (P : ℕ → Type 0) (x : ℕ)
    → IsDistinct s
    → ((y : ℕ) → In y s ↔ P y)
    → (only (some s) ≡ some x) ↔ ((y : ℕ) → P y ↔ (y ≡ x))
only_iff [] P x d f = (λ h. cc, λ h. absurd ((f x).1 ((h x).1 refl)))
only_iff (a ∷ []) P x d f = (
  λ h.
      let same : a ≡ x = cc in
      λ y. (
        λ p. elim ((f y).1 p) [ inl e ↦ e ∙ same | inr n ↦ absurd n ],
        λ e. (f y).0 (inl (e ∙ sym same)),
      ),
  λ h. let same : a ≡ x = (h a).0 ((f a).0 (inl refl)) in rw same refl,
)
only_iff (a ∷ b ∷ s) P x d f = (
  λ h. cc,
  λ h.
      let same_a : a ≡ x = (h a).0 ((f a).0 (inl refl)) in
      let same_b : b ≡ x = (h b).0 ((f b).0 (inr (inl refl))) in
      absurd (d.0 (inl (same_a ∙ sym same_b))),
)

-- Of any device, a unit's kind has a local memory exactly if some group has a unit of the kind and
-- there is one memory kind, the answer, that every group with such a unit has.
pub get_local_memory_kind_iff :
    (body : Body) (k x : ℕ)
    → (get_local_memory_kind (initialize body) k ≡ some x)
      ↔ (HasUnit (groups body) k × ((y : ℕ) → IsShared (groups body) k y ↔ (y ≡ x)))
unfolding find
get_local_memory_kind_iff body k x = elim (HasUnit-cases (groups body) k) [
  | inl h ↦
      let e = record_groups-new (groups body) [] k refl h in
      let iff = only_iff e.set (IsShared (groups body) k) x e.distinct e.members in
      (
        λ at. (h, iff.0 (subst (λ o. only o ≡ some x) e.at at)),
        λ (_, f). subst (λ o. only o ≡ some x) (sym e.at) (iff.1 f),
      )
  | inr absent ↦
      let e = record_groups-none (groups body) [] k refl absent in
      (λ at. cc (subst (λ o. only o ≡ some x) e at), λ (h, _). absurd (absent h))
]
