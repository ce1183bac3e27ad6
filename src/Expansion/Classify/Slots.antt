-- ===== src/Expansion/Classify/Slots.antt =====
-- The slots of the FIFOs: each operation gets the next slot of its FIFO.
use acgatea.Common.{
  ℕ, zero, suc, ◌+◌, ◌≤◌, ◌<◌, ◌≡◌, ◌⊎◌, Option, none, some, List, [], ◌∷◌, ◌++◌, In, All, inl, inr,
  arith, false, length, length-append, get_elem?, Distinct, Bool-cases, refl, sym, subst, ◌∙◌, ap,
}
use acgatea.Expansion.Plan.{PrivateResourceSpec, PathExpansionPlan}
use acgatea.Expansion.Factories.{create_fifo, fifo_spec}
use acgatea.Expansion.Classify.Fifos.{
  FifoEntry, Slot, slot_count, push_slot, take_slot, is_key, next_of,
}
use acgatea.Expansion.Classify.Slots.Specs.{
  elements_of, src_of, dest_of, slot_count-elements, get-append, get-append_last, get-number_append,
  length-push_slot, get-push_slot_self, get-push_slot_ne, ends-push_slot,
}
pub mod Specs

-- A FIFO between two resources, with its spec and the slot that it has next.
pub data HasFifo (src dest spec next : ℕ) : List FifoEntry → Type 0 where
  here :
      (f : FifoEntry) (fifos : List FifoEntry)
      → f.src ≡ src
      → f.dest ≡ dest
      → f.spec ≡ spec
      → f.next_slot ≡ next
      → HasFifo src dest spec next (f ∷ fifos)
  behind :
      (f : FifoEntry) (fifos : List FifoEntry)
      → HasFifo src dest spec next fifos
      → HasFifo src dest spec next (f ∷ fifos)

abbrev pub spec_pointers : List FifoEntry → List ℕ
spec_pointers [] = []
spec_pointers (f ∷ fifos) = f.spec ∷ spec_pointers fifos

-- The next slot of each FIFO is behind the slots that its spec has, the spec is between the resources
-- of the FIFO, and no two share a spec.
pub record IsCounted (fifos : List FifoEntry) (specs : List PrivateResourceSpec) : Type 0 where
  pub next :
      All
        (λ f.
          (length (elements_of (get_elem? specs f.spec)) ≡ f.next_slot)
          × (f.spec < length specs)
          × (src_of (get_elem? specs f.spec) ≡ some f.src)
          × (dest_of (get_elem? specs f.spec) ≡ some f.dest))
        fifos
  pub apart : Distinct (spec_pointers fifos)

-- The slot that was taken, and what became of the FIFOs and the specs.
pub record IsTaken (src dest : ℕ) (fifos : List FifoEntry) (plan : PathExpansionPlan)
    (num_elements : ℕ) (s : Slot) : Type 0 where
  pub at_src : src_of (get_elem? s.plan.specs s.spec) ≡ some src
  pub at_dest : dest_of (get_elem? s.plan.specs s.spec) ≡ some dest
  pub old_or_new :
      HasFifo src dest s.spec s.slot_index fifos
      ⊎ (((spec next : ℕ) → ¬ HasFifo src dest spec next fifos)
          × (s.spec ≡ length plan.specs)
          × (s.slot_index ≡ 0))
  pub advanced : HasFifo src dest s.spec (suc s.slot_index) s.fifos
  pub other_fifos :
      (a b spec next : ℕ)
      → ¬ ((a ≡ src) × (b ≡ dest))
      → HasFifo a b spec next fifos
      → HasFifo a b spec next s.fifos
  pub counted : IsCounted s.fifos s.plan.specs
  pub element :
      get_elem? (elements_of (get_elem? s.plan.specs s.spec)) s.slot_index ≡ some num_elements
  pub in_range : s.slot_index < slot_count (get_elem? s.plan.specs s.spec)
  pub others :
      (q : ℕ)
      → q < length plan.specs
      → ¬ (q ≡ s.spec)
      → get_elem? s.plan.specs q ≡ get_elem? plan.specs q
  pub longer : length plan.specs ≤ length s.plan.specs
  pub pointers : (q : ℕ) → In q (spec_pointers s.fifos) → In q (spec_pointers fifos) ⊎ (q ≡ s.spec)
  pub own : In s.spec (spec_pointers fifos) ⊎ (length plan.specs ≤ s.spec)

abbrev IsNext : List PrivateResourceSpec → FifoEntry → Type 0
IsNext specs f =
    (length (elements_of (get_elem? specs f.spec)) ≡ f.next_slot)
    × (f.spec < length specs)
    × (src_of (get_elem? specs f.spec) ≡ some f.src)
    × (dest_of (get_elem? specs f.spec) ≡ some f.dest)

-- The FIFOs whose specs stay.
IsNext-kept :
    (fifos : List FifoEntry) (specs specs' : List PrivateResourceSpec)
    → All (IsNext specs) fifos
    → length specs ≤ length specs'
    → ((q : ℕ)
        → In q (spec_pointers fifos)
        → q < length specs
        → get_elem? specs' q ≡ get_elem? specs q)
    → All (IsNext specs') fifos
IsNext-kept [] specs specs' h longer same = tt
IsNext-kept (f ∷ fifos) specs specs' h longer same = (
  (
    ap (λ o. length (elements_of o)) (same f.spec (inl refl) h.0.1) ∙ h.0.0,
    omega (arith, h.0.1, longer),
    ap src_of (same f.spec (inl refl) h.0.1) ∙ h.0.2,
    ap dest_of (same f.spec (inl refl) h.0.1) ∙ h.0.3,
  ),
  IsNext-kept fifos specs specs' h.1 longer (λ q m. same q (inr m)),
)

advance-other :
    (f f' : FifoEntry) (fifos : List FifoEntry) (a b spec next : ℕ)
    → ¬ ((a ≡ f.src) × (b ≡ f.dest))
    → HasFifo a b spec next (f ∷ fifos)
    → HasFifo a b spec next (f' ∷ fifos)
advance-other f f' fifos a b spec next k (here _ _ e g _ _) = absurd (k (sym e, sym g))
advance-other f f' fifos a b spec next k (behind _ _ m) = behind f' fifos m

next_of-IsTaken :
    (f : FifoEntry) (fifos : List FifoEntry) (n : ℕ) (plan : PathExpansionPlan)
    → IsCounted (f ∷ fifos) plan.specs
    → IsTaken f.src f.dest (f ∷ fifos) plan n (next_of f fifos n plan)
next_of-IsTaken f fifos n plan v = record {
  at_src = (ends-push_slot f.spec n plan.specs f.spec).0 ∙ v.next.0.2;
  at_dest = (ends-push_slot f.spec n plan.specs f.spec).1 ∙ v.next.0.3;
  old_or_new = inl (here f fifos refl refl refl refl);
  advanced = here (record f { next_slot = suc f.next_slot }) fifos refl refl refl refl;
  other_fifos = λ a b spec next k m.
      advance-other f (record f { next_slot = suc f.next_slot }) fifos a b spec next k m;
  counted = record {
    next = (
      (
        count,
        omega (arith, v.next.0.1, size),
        (ends-push_slot f.spec n plan.specs f.spec).0 ∙ v.next.0.2,
        (ends-push_slot f.spec n plan.specs f.spec).1 ∙ v.next.0.3,
      ),
      IsNext-kept fifos plan.specs specs' v.next.1 (omega (arith, size)) (λ q m low.
          get-push_slot_ne f.spec n plan.specs q
            (λ e. v.apart.0 (subst (λ x. In x (spec_pointers fifos)) e m))),
    );
    apart = v.apart;
  };
  element =
      ap (λ l. get_elem? l f.next_slot) pushed
      ∙ subst (λ i. get_elem? (old ++ n ∷ []) i ≡ some n) v.next.0.0 (get-number_append old n);
  in_range = omega (arith, slot_count-elements (get_elem? specs' f.spec), count);
  others = λ q low k. get-push_slot_ne f.spec n plan.specs q k;
  longer = omega (arith, size);
  pointers = λ q m. inl m;
  own = inl (inl refl);
}
  where
    specs' : List PrivateResourceSpec
    specs' = push_slot f.spec n plan.specs

    old : List ℕ
    old = elements_of (get_elem? plan.specs f.spec)

    size : length specs' ≡ length plan.specs
    size = length-push_slot f.spec n plan.specs

    pushed : elements_of (get_elem? specs' f.spec) ≡ old ++ n ∷ []
    pushed = get-push_slot_self f.spec n plan.specs v.next.0.1

    count : length (elements_of (get_elem? specs' f.spec)) ≡ suc f.next_slot
    count =
        ap (λ (l : List ℕ). length l) pushed ∙ omega (arith, length-append old (n ∷ []), v.next.0.0)

pass-other :
    (f : FifoEntry) (fifos fifos' : List FifoEntry) (a b spec next : ℕ)
    → (HasFifo a b spec next fifos → HasFifo a b spec next fifos')
    → HasFifo a b spec next (f ∷ fifos)
    → HasFifo a b spec next (f ∷ fifos')
pass-other f fifos fifos' a b spec next h (here _ _ e g k l) = here f fifos' e g k l
pass-other f fifos fifos' a b spec next h (behind _ _ m) = behind f fifos' (h m)

none-behind :
    (src dest : ℕ) (f : FifoEntry) (fifos : List FifoEntry) (spec next : ℕ)
    → is_key f src dest ≡ false
    → ¬ HasFifo src dest spec next fifos
    → ¬ HasFifo src dest spec next (f ∷ fifos)
none-behind src dest f fifos spec next e h (here _ _ a b _ _) = ground (arith, e, a, b)
none-behind src dest f fifos spec next e h (behind _ _ m) = h m

pass-IsTaken :
    (src dest : ℕ) (f : FifoEntry) (fifos : List FifoEntry) (n : ℕ) (plan : PathExpansionPlan)
    (s : Slot)
    → is_key f src dest ≡ false
    → IsCounted (f ∷ fifos) plan.specs
    → IsTaken src dest fifos plan n s
    → IsTaken src dest (f ∷ fifos) plan n (record s { fifos = f ∷ s.fifos })
pass-IsTaken src dest f fifos n plan s key v r = record {
  at_src = r.at_src;
  at_dest = r.at_dest;
  old_or_new = elim r.old_or_new [
    | inl m ↦ inl (behind f fifos m)
    | inr (lacks, at, zero_slot) ↦
        inr (
          (λ spec next. none-behind src dest f fifos spec next key (lacks spec next)),
          at,
          zero_slot,
        )
  ];
  advanced = behind f s.fifos r.advanced;
  other_fifos = λ a b spec next k m.
      pass-other f fifos s.fifos a b spec next (r.other_fifos a b spec next k) m;
  counted = record {
    next = (
      (
        ap (λ o. length (elements_of o)) (r.others f.spec v.next.0.1 apart_from_own) ∙ v.next.0.0,
        omega (arith, v.next.0.1, r.longer),
        ap src_of (r.others f.spec v.next.0.1 apart_from_own) ∙ v.next.0.2,
        ap dest_of (r.others f.spec v.next.0.1 apart_from_own) ∙ v.next.0.3,
      ),
      r.counted.next,
    );
    apart = (
      λ m. elim (r.pointers f.spec m) [ inl n ↦ v.apart.0 n | inr e ↦ apart_from_own e ],
      r.counted.apart,
    );
  };
  element = r.element;
  in_range = r.in_range;
  others = r.others;
  longer = r.longer;
  pointers = λ q m. ground (arith, m, r.pointers q);
  own = elim r.own [ inl m ↦ inl (inr m) | inr h ↦ inr h ];
}
  where
    apart_from_own : ¬ (f.spec ≡ s.spec)
    apart_from_own e = elim r.own [
      | inl m ↦ v.apart.0 (subst (λ x. In x (spec_pointers fifos)) (sym e) m)
      | inr h ↦ absurd (omega (arith, e, h, v.next.0.1))
    ]

none_at_end : (a b spec next : ℕ) → ¬ HasFifo a b spec next []
none_at_end a b spec next m = elim m [ ]

-- If no two FIFOs share a spec, each spec is between the resources of its FIFO and the next slot of
-- each is the number of slots that its spec has, then this holds after a slot was taken too. The slot
-- is the next one of a FIFO between the given resources, or, if there is none, the first one of a new
-- spec; it lies in a spec between these resources, in its range, and holds the given number of
-- elements. The FIFO has the slot behind it next, and every FIFO between other resources and every
-- other spec stays as it was.
pub take_slot-IsTaken :
    (src dest num_elements element_type : ℕ) (fifos : List FifoEntry) (plan : PathExpansionPlan)
    → IsCounted fifos plan.specs
    → IsTaken src dest fifos plan num_elements
        (take_slot src dest num_elements element_type fifos plan)
unfolding take_slot create_fifo
take_slot-IsTaken src dest n t [] plan v = record {
  at_src = ap src_of last;
  at_dest = ap dest_of last;
  old_or_new = inr ((λ spec next. none_at_end src dest spec next), refl, refl);
  advanced = here _ [] refl refl refl refl;
  other_fifos = λ a b spec next k m. absurd (none_at_end a b spec next m);
  counted = record {
    next = (
      (
        ap (λ o. length (elements_of o)) last,
        omega (arith, grows),
        ap src_of last,
        ap dest_of last,
      ),
      tt,
    );
    apart = (λ m. m, tt);
  };
  element = ap (λ o. get_elem? (elements_of o) 0) last;
  in_range = omega (arith, ap slot_count last);
  others = λ q h k. get-append plan.specs spec q h;
  longer = omega (arith, grows);
  pointers = λ q m. elim m [ inl e ↦ inr e | inr n ↦ absurd n ];
  own = inr (omega arith);
}
  where
    spec : PrivateResourceSpec
    spec = fifo_spec (some src) (some dest) (n ∷ []) t

    last : get_elem? (plan.specs ++ spec ∷ []) (length plan.specs) ≡ some spec
    last = get-append_last plan.specs spec

    grows : length (plan.specs ++ spec ∷ []) ≡ length plan.specs + 1
    grows = length-append plan.specs (spec ∷ [])
take_slot-IsTaken src dest n t (f ∷ fifos) plan v =
    let rest =
      take_slot-IsTaken src dest n t fifos plan (record { next = v.next.1; apart = v.apart.1 }) in
    elim (Bool-cases (is_key f src dest)) [
      | inl e ↦
          let same_src : f.src ≡ src = ground (arith, e) in
          let same_dest : f.dest ≡ dest = ground (arith, e) in
          rw e (
            subst (λ x. IsTaken src x (f ∷ fifos) plan n (next_of f fifos n plan)) same_dest
              (subst (λ x. IsTaken x f.dest (f ∷ fifos) plan n (next_of f fifos n plan)) same_src
                (next_of-IsTaken f fifos n plan v)))
      | inr e ↦ rw e (pass-IsTaken src dest f fifos n plan _ e v rest)
    ]
