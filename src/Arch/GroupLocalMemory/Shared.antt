-- ===== src/Arch/GroupLocalMemory/Shared.antt =====
-- The entry of one unit kind, through the groups: the set of the memories that all groups with the unit
-- have had so far.
use acgatea.Common.{
  ℕ, ◌≡◌, refl, sym, ◌∙◌, subst, ◌↔◌, true, Option, none, some, List, [], ◌∷◌, ◌==◌, ==_iff, ==-ne,
  is_contained, is_contained_iff, In, ◌⊎◌, inl, inr, arith, Bool-cases,
}
use acgatea.Common.Map.{Map, find, assign, find-assign_self, find-assign_ne}
use acgatea.Arch.Device.{memory, exec_unit, group, datapath, other, Body, end, op}
use acgatea.Arch.GroupLocalMemory.{exec_kinds, insert, mem_kinds, keep_in, narrow, record_units}

-- Some group has a unit of the kind.
abbrev pub HasUnit : List Body → ℕ → Type 0
HasUnit [] k = ⊥
HasUnit (g ∷ gs) k = In k (exec_kinds g) ⊎ HasUnit gs k

-- Each group with a unit of the kind has the memory.
abbrev pub IsShared : List Body → ℕ → ℕ → Type 0
IsShared [] k y = Unit
IsShared (g ∷ gs) k y = (In k (exec_kinds g) → In y (mem_kinds g)) × IsShared gs k y

abbrev pub IsDistinct : List ℕ → Type 0
IsDistinct [] = Unit
IsDistinct (x ∷ xs) = (¬ In x xs) × IsDistinct xs

-- The entry is a set, of just the elements that the predicate holds of.
pub record IsEntry (o : Option (List ℕ)) (P : ℕ → Type 0) : Type 0 where
  pub set : List ℕ
  pub at : o ≡ some set
  pub distinct : IsDistinct set
  pub members : (y : ℕ) → In y set ↔ P y

In-insert : (k : ℕ) (s : List ℕ) (y : ℕ) → In y (insert k s) ↔ ((y ≡ k) ⊎ In y s)
In-insert k s y = ground (arith, is_contained_iff k s)

pub mem_kinds-IsDistinct : (g : Body) → IsDistinct (mem_kinds g)
unfolding mem_kinds
mem_kinds-IsDistinct end = tt
mem_kinds-IsDistinct (op (memory result kind size) rest) =
    elim (Bool-cases (is_contained kind (mem_kinds rest))) [
      | inl e ↦ rw e (mem_kinds-IsDistinct rest)
      | inr e ↦ rw e (
        λ m. ground (arith, is_contained_iff kind (mem_kinds rest), m),
        mem_kinds-IsDistinct rest,
      )
    ]
mem_kinds-IsDistinct (op (exec_unit result kind is_ls) rest) = mem_kinds-IsDistinct rest
mem_kinds-IsDistinct (op (group kind shared args body yields results) rest) =
    mem_kinds-IsDistinct rest
mem_kinds-IsDistinct (op (datapath source target) rest) = mem_kinds-IsDistinct rest
mem_kinds-IsDistinct (op other rest) = mem_kinds-IsDistinct rest

In-keep_in : (ms s : List ℕ) (y : ℕ) → In y (keep_in ms s) ↔ (In y s × In y ms)
unfolding keep_in
In-keep_in ms [] y = (λ h. absurd h, λ h. absurd h.0)
In-keep_in ms (k ∷ s) y = ground (arith, In-keep_in ms s y, is_contained_iff k ms)

keep_in-IsDistinct : (ms s : List ℕ) → IsDistinct s → IsDistinct (keep_in ms s)
unfolding keep_in
keep_in-IsDistinct ms [] h = tt
keep_in-IsDistinct ms (k ∷ s) h = elim (Bool-cases (is_contained k ms)) [
  | inl e ↦ rw e (λ m. h.0 ((In-keep_in ms s k).0 m).0, keep_in-IsDistinct ms s h.1)
  | inr e ↦ rw e (keep_in-IsDistinct ms s h.1)
]

pub IsEntry-iff :
    (o : Option (List ℕ)) (P Q : ℕ → Type 0) → ((y : ℕ) → P y ↔ Q y) → IsEntry o P → IsEntry o Q
IsEntry-iff o P Q f e = record {
  set = e.set;
  at = e.at;
  distinct = e.distinct;
  members = λ y. (λ m. (f y).0 ((e.members y).0 m), λ q. (e.members y).1 ((f y).1 q));
}

IsEntry-narrow :
    (ms : List ℕ) (o : Option (List ℕ)) (P : ℕ → Type 0)
    → IsEntry o P
    → IsEntry (some (narrow ms o)) (λ y. P y × In y ms)
IsEntry-narrow ms o P e = record {
  set = keep_in ms e.set;
  at = rw e.at refl;
  distinct = keep_in-IsDistinct ms e.set e.distinct;
  members = λ y. (
    λ m. let (a, b) = (In-keep_in ms e.set y).0 m in ((e.members y).0 a, b),
    λ (p, b). (In-keep_in ms e.set y).1 ((e.members y).1 p, b),
  );
}

module _ (ms : List ℕ) where
  find-narrowed :
      (j k : ℕ) (m : Map (List ℕ))
      → (j == k) ≡ true
      → find k (assign j (narrow ms (find j m)) m) ≡ some (narrow ms (find k m))
  find-narrowed j k m hit =
      let e = (==_iff j k).0 hit in rw e (find-assign_self k (narrow ms (find k m)) m)

  pub record_units-entry :
      (ks : List ℕ) (m : Map (List ℕ)) (k : ℕ) (P : ℕ → Type 0)
      → IsEntry (find k m) P
      → IsEntry (find k (record_units ms ks m)) (λ y. P y × (In k ks → In y ms))
  unfolding record_units
  record_units-entry [] m k P e =
      IsEntry-iff (find k m) P _ (λ y. (λ p. (p, λ h. absurd h), λ q. q.0)) e
  record_units-entry (j ∷ ks) m k P e =
      let m' = assign j (narrow ms (find j m)) m in
      elim (Bool-cases (j == k)) [
        | inl hit ↦
            IsEntry-iff (find k (record_units ms ks m'))
              (λ y. (P y × In y ms) × (In k ks → In y ms)) (λ y. P y × (In k (j ∷ ks) → In y ms))
              (λ y. (
                λ (p, f). (p.0, λ h. p.1),
                λ (p, f). ((p, f (inl (sym ((==_iff j k).0 hit)))), λ h. f (inr h)),
              ))
              (record_units-entry ks m' k (λ y. P y × In y ms)
                (subst (λ o. IsEntry o (λ y. P y × In y ms)) (sym (find-narrowed j k m hit))
                  (IsEntry-narrow ms (find k m) P e)))
        | inr miss ↦
            IsEntry-iff (find k (record_units ms ks m')) (λ y. P y × (In k ks → In y ms))
              (λ y. P y × (In k (j ∷ ks) → In y ms))
              (λ y. (
                λ (p, f).
                    (p, λ h. elim h [ inl s ↦ absurd (==-ne j k miss (sym s)) | inr t ↦ f t ]),
                λ (p, f). (p, λ h. f (inr h)),
              ))
              (record_units-entry ks m' k P (
                subst (λ o. IsEntry o P)
                  (sym (find-assign_ne j k (narrow ms (find j m)) m (==-ne j k miss))) e))
      ]

  pub record_units-none :
      (ks : List ℕ) (m : Map (List ℕ)) (k : ℕ)
      → find k m ≡ none
      → ¬ In k ks
      → find k (record_units ms ks m) ≡ none
  unfolding record_units
  record_units-none [] m k e absent = e
  record_units-none (j ∷ ks) m k e absent =
      record_units-none ks (assign j (narrow ms (find j m)) m) k
        (find-assign_ne j k (narrow ms (find j m)) m (λ s. absent (inl (sym s))) ∙ e)
        (λ h. absent (inr h))

  pub record_units-new :
      IsDistinct ms
      → (ks : List ℕ) (m : Map (List ℕ)) (k : ℕ) → find k m ≡ none
      → In k ks
      → IsEntry (find k (record_units ms ks m)) (λ y. In y ms)
  unfolding record_units
  record_units-new d [] m k e h = absurd h
  record_units-new d (j ∷ ks) m k e h =
      let m' = assign j (narrow ms (find j m)) m in
      elim (Bool-cases (j == k)) [
        | inl hit ↦
            let first : IsEntry (find k m') (λ y. In y ms) = record {
              set = ms;
              at = find-narrowed j k m hit ∙ rw e refl;
              distinct = d;
              members = λ y. (λ p. p, λ p. p);
            } in
            IsEntry-iff (find k (record_units ms ks m')) (λ y. In y ms × (In k ks → In y ms))
              (λ y. In y ms) (λ y. (λ p. p.0, λ p. (p, λ q. p)))
              (record_units-entry ks m' k (λ y. In y ms) first)
        | inr miss ↦
            record_units-new d ks m' k
              (find-assign_ne j k (narrow ms (find j m)) m (==-ne j k miss) ∙ e)
              (elim h [ inl s ↦ absurd (==-ne j k miss (sym s)) | inr t ↦ t ])
      ]
