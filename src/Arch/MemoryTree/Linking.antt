-- ===== src/Arch/MemoryTree/Linking.antt =====
-- `setParent`, the loop that establishes the parents, and the aliases.
use acgatea.Common.{
  ℕ, ◌<◌, ◌≡◌, refl, true, some, List, [], ◌∷◌, arith, ◌==◌, ◌∙◌, if◌then◌else◌, inl, inr,
  Option-cases, is_some-witness, All,
}
use acgatea.Common.Map.{Map, find, assign, contains, find-assign}
use acgatea.Arch.MemoryTree.{
  MemoryNode, MemoryTree, update_node, with_parent, with_child, with_alias, set_parent, parent_of,
}
use acgatea.Arch.MemoryTree.Build.{link_parents, add_alias, populate_aliases}
use acgatea.Arch.MemoryTree.WellFormed.{IsWellFormed}

-- What `set_parent` does: the child has the parent, and nothing else that the invariant reads changes.
pub record Linked (child parent : ℕ) (t t' : MemoryTree) : Type 0 where
  pub parents : (x : ℕ) → parent_of t' x ≡ (if child == x then some parent else parent_of t x)
  pub nodes : (x : ℕ) → contains x t'.nodes ≡ contains x t.nodes
  pub counter : t'.next_node_id ≡ t.next_node_id
  pub resources : t'.resource_to_node ≡ t.resource_to_node
  pub aliases : t'.alias_to_node ≡ t.alias_to_node

module _ (k : ℕ) (f : MemoryNode → MemoryNode) (t : MemoryTree) (d : MemoryNode)
    (at : find k t.nodes ≡ some d) where
  abbrev updated : MemoryTree
  updated = record t { nodes = assign k (f d) t.nodes }

  update_node-eq : update_node k f t ≡ some updated
  unfolding update_node
  update_node-eq = rw (at, update_node)

  contains-updated : (x : ℕ) → contains x updated.nodes ≡ contains x t.nodes
  contains-updated x = ground (arith, find-assign k x (f d) t.nodes, at)

  parent_of-updated :
      (x : ℕ) → parent_of updated x ≡ (if k == x then (f d).parent else parent_of t x)
  parent_of-updated x = ground (arith, find-assign k x (f d) t.nodes)

pub set_parent_lem :
    (child parent : ℕ) (t : MemoryTree)
    → contains child t.nodes ≡ true
    → contains parent t.nodes ≡ true
    → (t' : MemoryTree) × (set_parent child parent t ≡ some t') × Linked child parent t t'
unfolding set_parent
set_parent_lem child parent t hc hp =
    let (c, at_c) = is_some-witness (find child t.nodes) hc in
    let t₁ = updated child (with_parent parent) t c at_c in
    let in₁ = contains-updated child (with_parent parent) t c at_c in
    let (p, at_p) = is_some-witness (find parent t₁.nodes) (in₁ parent ∙ hp) in
    let e₁ = update_node-eq child (with_parent parent) t c at_c in
    (
      updated parent (with_child child) t₁ p at_p,
      rw (e₁, set_parent) (update_node-eq parent (with_child child) t₁ p at_p),
      record {
        parents = λ x. ground (
          arith,
          parent_of-updated parent (with_child child) t₁ p at_p x,
          parent_of-updated child (with_parent parent) t c at_c x,
          at_p,
        );
        nodes = λ x. contains-updated parent (with_child child) t₁ p at_p x ∙ in₁ x;
        counter = refl;
        resources = refl;
        aliases = refl;
      },
    )

pub Linked-IsWellFormed :
    (child parent : ℕ) {t t' : MemoryTree}
    → parent < child
    → contains parent t.nodes ≡ true
    → Linked child parent t t'
    → IsWellFormed t
    → IsWellFormed t'
Linked-IsWellFormed child parent lt hp l v = record {
  below = λ n h. ground (arith, l.nodes n, v.below n, l.counter);
  older = λ c p h. ground (arith, l.parents c, v.older c p);
  present = λ c p h. ground (arith, l.parents c, v.present c p, l.nodes p);
  named = λ r n h. ground (arith, l.resources, v.named r n, l.nodes n);
  aliased = λ r n h. ground (arith, l.aliases, v.aliased r n, l.nodes n);
}

-- A pair of the first pass, where both values are memories: two nodes, the parent's the older.
abbrev pub IsOlderPair : Map ℕ → MemoryTree → ℕ × ℕ → Type 0
IsOlderPair v2n t (cv, pv) =
    (c p : ℕ)
    → find cv v2n ≡ some c
    → find pv v2n ≡ some p
    → (p < c) × (contains c t.nodes ≡ true) × (contains p t.nodes ≡ true)

abbrev pub AllOlder : Map ℕ → MemoryTree → Map ℕ → Type 0
AllOlder v2n t = All (IsOlderPair v2n t)

AllOlder-Linked :
    (v2n : Map ℕ) (t t' : MemoryTree) (es : Map ℕ)
    → ((x : ℕ) → contains x t'.nodes ≡ contains x t.nodes)
    → AllOlder v2n t es
    → AllOlder v2n t' es
AllOlder-Linked v2n t t' [] same h = tt
AllOlder-Linked v2n t t' ((cv, pv) ∷ es) same h = (
  λ c p hc hp. let (lt, in_c, in_p) = h.0 c p hc hp in (lt, same c ∙ in_c, same p ∙ in_p),
  AllOlder-Linked v2n t t' es same h.1,
)

pub link_parents-IsWellFormed :
    (v2n : Map ℕ) (es : Map ℕ) (t : MemoryTree)
    → AllOlder v2n t es
    → IsWellFormed t
    → (t' : MemoryTree) × (link_parents v2n es t ≡ some t') × IsWellFormed t'
unfolding link_parents
link_parents-IsWellFormed v2n [] t h v = (t, refl, v)
link_parents-IsWellFormed v2n ((cv, pv) ∷ es) t h v = elim (Option-cases (find cv v2n)) [
  | inl e ↦ rw (e, link_parents) (link_parents-IsWellFormed v2n es t h.1 v)
  | inr (c, e) ↦ elim (Option-cases (find pv v2n)) [
    | inl e' ↦
        rw (e, link_parents) (rw (e', link_parents) (link_parents-IsWellFormed v2n es t h.1 v))
    | inr (p, e') ↦
        let (lt, in_c, in_p) = h.0 c p e e' in
        let (t', e'', l) = set_parent_lem c p t in_c in_p in
        rw (e, link_parents)
          (rw (e', link_parents)
            (rw (e'', link_parents)
              (link_parents-IsWellFormed v2n es t' (AllOlder-Linked v2n t t' es l.nodes h.1)
                (Linked-IsWellFormed c p lt in_p l v))))
  ]
]

add_alias-IsWellFormed :
    (key value : ℕ) (t : MemoryTree) → IsWellFormed t → IsWellFormed (add_alias key value t)
unfolding add_alias
add_alias-IsWellFormed key value t v = elim (Option-cases (find value t.resource_to_node)) [
  | inl e ↦ rw (e, add_alias) v
  | inr (n, e) ↦
      let (d, at) = is_some-witness (find n t.nodes) (v.named value n e) in
      let same = contains-updated n (with_alias key) t d at in
      let parents = parent_of-updated n (with_alias key) t d at in
      rw (e, add_alias)
        (rw (update_node-eq n (with_alias key) t d at, add_alias)
          (record {
            below = λ x h. ground (arith, v.below x, same x);
            older = λ c p h. ground (arith, parents c, v.older c p, at);
            present = λ c p h. ground (arith, parents c, v.present c p, at, same p);
            named = λ r x h. ground (arith, v.named r x, same x);
            aliased = λ r x h.
                ground
                  (arith, v.aliased r x, same x, same n, find-assign key r n t.alias_to_node, at);
          }))
]

pub populate_aliases-IsWellFormed :
    (mapping : List (ℕ × ℕ)) (t : MemoryTree)
    → IsWellFormed t
    → IsWellFormed (populate_aliases mapping t)
unfolding populate_aliases
populate_aliases-IsWellFormed [] t v = v
populate_aliases-IsWellFormed ((key, value) ∷ mapping) t v =
    populate_aliases-IsWellFormed mapping (add_alias key value t)
      (add_alias-IsWellFormed key value t v)
