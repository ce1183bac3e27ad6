-- ===== src/Common/Options.antt =====
-- What holds of the result of a chain, if it has one.
use mathlib.Core.Path.{◌≡◌, subst}
use mathlib.Core.Option.{Option, none, some}
use acgatea.Common.Tests.{◌>>=◌}

-- The predicate holds of the value, if there is one.
abbrev pub OnSome {ℓ} : {A : Type ℓ} → (A → Type 0) → Option A → Type 0
OnSome R none = Unit
OnSome R (some a) = R a

pub OnSome-chain {ℓ κ} :
    {A : Type ℓ} {B : Type κ} (R : A → Type 0) (S : B → Type 0) (o : Option A) (f : A → Option B)
    → OnSome R o
    → ((a : A) → R a → OnSome S (f a))
    → OnSome S (o >>= f)
OnSome-chain R S none f h k = tt
OnSome-chain R S (some a) f h k = k a h

pub OnSome-any {ℓ κ} :
    {A : Type ℓ} {B : Type κ} (S : B → Type 0) (o : Option A) (f : A → Option B)
    → ((a : A) → OnSome S (f a))
    → OnSome S (o >>= f)
OnSome-any S none f k = tt
OnSome-any S (some a) f k = k a

pub OnSome-value {ℓ} :
    {A : Type ℓ} (R : A → Type 0) (o : Option A) (a : A) → OnSome R o → o ≡ some a → R a
OnSome-value R o a h e = subst (OnSome R) e h
