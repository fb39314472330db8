-- ===== src/Base/Options.antt =====
-- Options: chains of calls that may fail, and what holds of a result.
use mathlib.Core.Option.{Option, none, some}

infixl 5 ◌>>=◌
abbrev pub ◌>>=◌ {ℓ κ} : {A : Type ℓ} {B : Type κ} → Option A → (A → Option B) → Option B
none >>= f = none
some a >>= f = f a

-- A property of the result, where there is one.
abbrev pub IfSome {ℓ} : {A : Type ℓ} → (A → Type 0) → Option A → Type 0
IfSome P none = Unit
IfSome P (some a) = P a

pub bind-IfSome {ℓ κ} :
    {A : Type ℓ} {B : Type κ} {P : A → Type 0} (Q : B → Type 0) (o : Option A) (f : A → Option B)
    → IfSome P o
    → ((a : A) → P a → IfSome Q (f a))
    → IfSome Q (o >>= f)
bind-IfSome Q none f h next = tt
bind-IfSome Q (some a) f h next = next a h

pub always-IfSome {ℓ} : {A : Type ℓ} (o : Option A) → IfSome (λ _. Unit) o
always-IfSome none = tt
always-IfSome (some a) = tt
