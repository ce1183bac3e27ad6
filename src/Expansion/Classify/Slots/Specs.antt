-- ===== src/Expansion/Classify/Slots/Specs.antt =====
-- The specs of a plan, and a slot that is pushed to one of them.
use acgatea.Common.{
  ℕ, zero, suc, ◌<◌, ◌≡◌, Option, none, some, List, [], ◌∷◌, ◌++◌, arith, length, get_elem?, refl,
  ap,
}
use acgatea.Expansion.Plan.{PrivateResourceSpec}
use acgatea.Expansion.Classify.Fifos.{slot_count, push_slot}

abbrev pub elements_of : Option PrivateResourceSpec → List ℕ
elements_of none = []
elements_of (some spec) = spec.elements_per_slot

abbrev pub src_of : Option PrivateResourceSpec → Option ℕ
src_of none = none
src_of (some spec) = spec.fifo_src

abbrev pub dest_of : Option PrivateResourceSpec → Option ℕ
dest_of none = none
dest_of (some spec) = spec.fifo_dest

pub slot_count-elements : (o : Option PrivateResourceSpec) → slot_count o ≡ length (elements_of o)
slot_count-elements none = refl
slot_count-elements (some spec) = refl

pub get-append :
    (xs : List PrivateResourceSpec) (x : PrivateResourceSpec) (i : ℕ)
    → i < length xs
    → get_elem? (xs ++ x ∷ []) i ≡ get_elem? xs i
get-append [] x i h = absurd (omega arith)
get-append (y ∷ xs) x zero h = refl
get-append (y ∷ xs) x (suc i) h = get-append xs x i (omega arith)

pub get-append_last :
    (xs : List PrivateResourceSpec) (x : PrivateResourceSpec)
    → get_elem? (xs ++ x ∷ []) (length xs) ≡ some x
get-append_last [] x = refl
get-append_last (y ∷ xs) x = get-append_last xs x

pub get-number_append : (xs : List ℕ) (x : ℕ) → get_elem? (xs ++ x ∷ []) (length xs) ≡ some x
get-number_append [] x = refl
get-number_append (y ∷ xs) x = get-number_append xs x

pub length-push_slot :
    (p n : ℕ) (specs : List PrivateResourceSpec) → length (push_slot p n specs) ≡ length specs
unfolding push_slot
length-push_slot p n [] = refl
length-push_slot zero n (s ∷ specs) = refl
length-push_slot (suc p) n (s ∷ specs) = ap suc (length-push_slot p n specs)

pub get-push_slot_self :
    (p n : ℕ) (specs : List PrivateResourceSpec)
    → p < length specs
    → elements_of (get_elem? (push_slot p n specs) p) ≡ elements_of (get_elem? specs p) ++ n ∷ []
unfolding push_slot
get-push_slot_self p n [] h = absurd (omega arith)
get-push_slot_self zero n (s ∷ specs) h = refl
get-push_slot_self (suc p) n (s ∷ specs) h = get-push_slot_self p n specs (omega arith)

pub get-push_slot_ne :
    (p n : ℕ) (specs : List PrivateResourceSpec) (q : ℕ)
    → ¬ (q ≡ p)
    → get_elem? (push_slot p n specs) q ≡ get_elem? specs q
unfolding push_slot
get-push_slot_ne p n [] q h = refl
get-push_slot_ne zero n (s ∷ specs) zero h = absurd (h refl)
get-push_slot_ne zero n (s ∷ specs) (suc q) h = refl
get-push_slot_ne (suc p) n (s ∷ specs) zero h = refl
get-push_slot_ne (suc p) n (s ∷ specs) (suc q) h = get-push_slot_ne p n specs q (λ e. h (ap suc e))

pub ends-push_slot :
    (p n : ℕ) (specs : List PrivateResourceSpec) (q : ℕ)
    → (src_of (get_elem? (push_slot p n specs) q) ≡ src_of (get_elem? specs q))
      × (dest_of (get_elem? (push_slot p n specs) q) ≡ dest_of (get_elem? specs q))
unfolding push_slot
ends-push_slot p n [] q = (refl, refl)
ends-push_slot zero n (s ∷ specs) zero = (refl, refl)
ends-push_slot zero n (s ∷ specs) (suc q) = (refl, refl)
ends-push_slot (suc p) n (s ∷ specs) zero = (refl, refl)
ends-push_slot (suc p) n (s ∷ specs) (suc q) = ends-push_slot p n specs q
