-- ===== src/Arch/MemoryTree/Scope.antt =====
-- The first pass over the device as a fold over its memories, and the invariant of the whole build.
use acgatea.Common.{
  ℕ, ◌≡◌, refl, sym, ap, ◌∙◌, subst, true, Option, none, some, List, [], ◌∷◌, ◌++◌, arith, ◌⊎◌, inl,
  inr, In, In-All, All, All-mono,
}
use acgatea.Common.Map.{
  Map, find, contains, find-assign, find-assign_self, find-assign_ne, All-assign,
}
use acgatea.Arch.Device.{
  SizeAttr, DeviceOp, memory, exec_unit, group, datapath, other, Body, end, op,
}
use acgatea.Arch.MemoryTree.{MemoryTree}
use acgatea.Arch.MemoryTree.Build.{
  Walk, capacity_of, reserved_of, note_parent, add_memory, group_parent, process_op, process_region,
  start_walk, initialize, populate_aliases,
}
use acgatea.Arch.MemoryTree.WellFormed.{
  IsWellFormed, empty_tree-IsWellFormed, add_node-IsWellFormed, contains-add_node,
}
use acgatea.Arch.MemoryTree.Linking.{
  IsOlderPair, AllOlder, link_parents-IsWellFormed, populate_aliases-IsWellFormed,
}

-- A memory of the device, with the value that it hangs under.
pub record Memory : Type 0 where
  pub result : ℕ
  pub kind : ℕ
  pub size : SizeAttr
  pub parent_mem : Option ℕ

-- The memories of a body, in the order of the walk.
unfoldable mutual
  pub memories_op : DeviceOp → Option ℕ → List Memory
  memories_op (memory result kind size) p =
      record { result = result; kind = kind; size = size; parent_mem = p } ∷ []
  memories_op (group kind shared args body yields results) p = memories body (group_parent shared p)
  memories_op (exec_unit result kind load_store) p = []
  memories_op (datapath source target) p = []
  memories_op other p = []

  pub memories : Body → Option ℕ → List Memory
  memories end p = []
  memories (op o rest) p = memories_op o p ++ memories rest p

add_all : List Memory → Walk → Walk
add_all [] w = w
add_all (m ∷ ms) w = add_all ms (add_memory m.result m.kind m.size m.parent_mem w)

add_all-append : (xs ys : List Memory) (w : Walk) → add_all (xs ++ ys) w ≡ add_all ys (add_all xs w)
unfolding add_all
add_all-append [] ys w = refl
add_all-append (x ∷ xs) ys w = add_all-append xs ys _

mutual
  unfolding process_op memories_op add_all

  process_op-memories :
      (o : DeviceOp) (p : Option ℕ) (w : Walk) → process_op o p w ≡ add_all (memories_op o p) w
  process_op-memories (memory result kind size) p w = refl
  process_op-memories (group kind shared args body yields results) p w =
      process_region-memories body (group_parent shared p) w
  process_op-memories (exec_unit result kind load_store) p w = refl
  process_op-memories (datapath source target) p w = refl
  process_op-memories other p w = refl

  process_region-memories :
      (b : Body) (p : Option ℕ) (w : Walk) → process_region b p w ≡ add_all (memories b p) w
  process_region-memories end p w = refl
  process_region-memories (op o rest) p w =
      process_region-memories rest p (process_op o p w)
      ∙ ap (add_all (memories rest p)) (process_op-memories o p w)
      ∙ sym (add_all-append (memories_op o p) (memories rest p) w)

abbrev pub results : List Memory → List ℕ
results [] = []
results (m ∷ ms) = m.result ∷ results ms

abbrev pub IsParentScoped : List ℕ → List ℕ → Option ℕ → Type 0
IsParentScoped all seen none = Unit {0}
IsParentScoped all seen (some p) = In p seen ⊎ (¬ In p all)

-- Static single assignment: each memory is a value of its own, and the value that it hangs under is
-- a memory above it, or no memory at all.
abbrev pub IsScoped : List ℕ → List ℕ → List Memory → Type 0
IsScoped all seen [] = Unit {0}
IsScoped all seen (m ∷ ms) =
    (¬ In m.result seen) × IsParentScoped all seen m.parent_mem × IsScoped all (m.result ∷ seen) ms

abbrev PairScoped : List ℕ → List ℕ → ℕ × ℕ → Type 0
PairScoped all seen (cv, pv) = In cv seen × (In pv seen ⊎ (¬ In pv all))

record Walked (all seen : List ℕ) (w : Walk) : Type 0 where
  tree : IsWellFormed w.tree
  values :
      (v n : ℕ) → find v w.value_to_node ≡ some n → In v seen × (contains n w.tree.nodes ≡ true)
  scoped : All (PairScoped all seen) w.child_to_parent
  older : AllOlder w.value_to_node w.tree w.child_to_parent

module _ (all seen : List ℕ) (m : Memory) (w : Walk) (new : In m.result all)
    (fresh : ¬ In m.result seen) (k : Walked all seen w) where
  abbrev next : Walk
  next = add_memory m.result m.kind m.size m.parent_mem w

  next-values :
      (v n : ℕ)
      → find v next.value_to_node ≡ some n
      → In v (m.result ∷ seen) × (contains n next.tree.nodes ≡ true)
  unfolding add_memory
  next-values v n h = ground (
    arith,
    find-assign m.result v w.tree.next_node_id w.value_to_node,
    k.values v n,
    contains-add_node m.kind (capacity_of m.size) (reserved_of m.size) w.tree n,
  )

  scoped_ne : (v : ℕ) → (In v seen ⊎ (¬ In v all)) → ¬ (m.result ≡ v)
  scoped_ne v (inl old) e = fresh (subst (λ x. In x seen) (sym e) old)
  scoped_ne v (inr never) e = never (subst (λ x. In x all) e new)

  find-next :
      (v : ℕ) → (In v seen ⊎ (¬ In v all)) → find v next.value_to_node ≡ find v w.value_to_node
  unfolding add_memory
  find-next v s = find-assign_ne m.result v w.tree.next_node_id w.value_to_node (scoped_ne v s)

  contains-next : (n : ℕ) → contains n w.tree.nodes ≡ true → contains n next.tree.nodes ≡ true
  unfolding add_memory
  contains-next n h =
      ground (arith, contains-add_node m.kind (capacity_of m.size) (reserved_of m.size) w.tree n)

  old_pair :
      (e : ℕ × ℕ)
      → PairScoped all seen e
      → IsOlderPair w.value_to_node w.tree e
      → IsOlderPair next.value_to_node next.tree e
  old_pair (cv, pv) s o c p hc hp =
      let (lt, in_c, in_p) =
        o c p (sym (find-next cv (inl s.0)) ∙ hc) (sym (find-next pv s.1) ∙ hp) in
      (lt, contains-next c in_c, contains-next p in_p)

  new_pair :
      (pv : ℕ)
      → IsParentScoped all seen (some pv)
      → IsOlderPair next.value_to_node next.tree (m.result, pv)
  unfolding add_memory
  new_pair pv s c p hc hp =
      let (_, in_p) = k.values pv p (sym (find-next pv s) ∙ hp) in
      let at : c ≡ w.tree.next_node_id =
        ground (arith, find-assign_self m.result w.tree.next_node_id w.value_to_node) in
      (
        omega (arith, k.tree.below p in_p),
        ground (arith, contains-add_node m.kind (capacity_of m.size) (reserved_of m.size) w.tree c),
        contains-next p in_p,
      )

  PairScoped-next : (e : ℕ × ℕ) → PairScoped all seen e → PairScoped all (m.result ∷ seen) e
  PairScoped-next (cv, pv) (a, inl b) = (inr a, inl (inr b))
  PairScoped-next (cv, pv) (a, inr b) = (inr a, inr b)

note_parent-All {κ} :
    (P : ℕ × ℕ → Type κ) (result : ℕ) (o : Option ℕ) (m : Map ℕ)
    → All P m
    → ((p : ℕ) → o ≡ some p → P (result, p))
    → All P (note_parent result o m)
note_parent-All P result none m h f = h
note_parent-All P result (some p) m h f = All-assign P result p m h (f p refl)

All₂-mono {κ} :
    (P Q R : ℕ × ℕ → Type κ)
    → ((e : ℕ × ℕ) → P e → Q e → R e)
    → (m : Map ℕ) → All P m
    → All Q m
    → All R m
All₂-mono P Q R f [] p q = tt
All₂-mono P Q R f (e ∷ m) p q = (f e p.0 q.0, All₂-mono P Q R f m p.1 q.1)

In-seen : (all seen : List ℕ) (r p : ℕ) → In p seen ⊎ (¬ In p all) → In p (r ∷ seen) ⊎ (¬ In p all)
In-seen all seen r p (inl h) = inl (inr h)
In-seen all seen r p (inr h) = inr h

add_memory-Walked :
    (all seen : List ℕ) (m : Memory) (w : Walk)
    → In m.result all
    → ¬ In m.result seen
    → IsParentScoped all seen m.parent_mem
    → Walked all seen w
    → Walked all (m.result ∷ seen) (add_memory m.result m.kind m.size m.parent_mem w)
unfolding add_memory
add_memory-Walked all seen m w new fresh par k = record {
  tree = add_node-IsWellFormed m.kind (capacity_of m.size) (reserved_of m.size) w.tree k.tree;
  values = next-values all seen m w new fresh k;
  scoped =
      note_parent-All (PairScoped all (m.result ∷ seen)) m.result m.parent_mem w.child_to_parent
        (All-mono (PairScoped all seen) (PairScoped all (m.result ∷ seen))
          (PairScoped-next all seen m w new fresh k) w.child_to_parent k.scoped)
        (λ p e. (inl refl, In-seen all seen m.result p (subst (IsParentScoped all seen) e par)));
  older =
      note_parent-All _ m.result m.parent_mem w.child_to_parent
        (All₂-mono _ _ _ (old_pair all seen m w new fresh k) w.child_to_parent k.scoped k.older)
        (λ p e. new_pair all seen m w new fresh k p (subst (IsParentScoped all seen) e par));
}

add_all-Walked :
    (all seen : List ℕ) (ms : List Memory) (w : Walk)
    → All (λ x. In x all) (results ms)
    → IsScoped all seen ms
    → Walked all seen w
    → (seen' : List ℕ) × Walked all seen' (add_all ms w)
unfolding add_all
add_all-Walked all seen [] w new s k = (seen, k)
add_all-Walked all seen (m ∷ ms) w new s k =
    add_all-Walked all (m.result ∷ seen) ms _ new.1 s.2
      (add_memory-Walked all seen m w new.0 s.0 s.1 k)

start_walk-Walked : (all : List ℕ) → Walked all [] start_walk
unfolding find
start_walk-Walked all = record {
  tree = empty_tree-IsWellFormed;
  values = λ v n h. cc;
  scoped = tt;
  older = tt;
}

abbrev pub IsScopedBody : Body → Type 0
IsScopedBody body = IsScoped (results (memories body none)) [] (memories body none)

-- The tree of a device whose memories are in SSA form is built without a failed assertion, and in it
-- every parent is an existing node with a smaller id than its child, so that no walk up the parents
-- runs in a cycle; both resource maps name existing nodes.
pub initialize-IsWellFormed :
    (body : Body) (mapping : List (ℕ × ℕ))
    → IsScopedBody body
    → (t : MemoryTree) × (initialize body mapping ≡ some t) × IsWellFormed t
unfolding initialize
initialize-IsWellFormed body mapping s =
    let ms = memories body none in
    let all = results ms in
    let e : process_region body none start_walk ≡ add_all ms start_walk =
      process_region-memories body none start_walk in
    let (_, k) =
      add_all-Walked all [] ms start_walk (In-All (λ x. In x all) all (λ a h. h)) s
        (start_walk-Walked all) in
    let w = add_all ms start_walk in
    let (t, done, v) =
      link_parents-IsWellFormed w.value_to_node w.child_to_parent w.tree k.older k.tree in
    (
      populate_aliases mapping t,
      rw (e, initialize) (rw (done, initialize)),
      populate_aliases-IsWellFormed mapping t v,
    )
