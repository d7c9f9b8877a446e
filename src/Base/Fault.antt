-- ===== src/Base/Fault.antt =====
-- Memory faults: `none` is an access that C++ leaves undefined, such as a read through a null pointer
-- or outside a block.
use mathlib.Core.Path.{◌≡◌, ap, ◌∙◌}
use mathlib.Core.Option.{Option, none, some}

infixl 5 ◌>>=◌
abbrev pub ◌>>=◌ {ℓ κ} : {A : Type ℓ} {B : Type κ} → Option A → (A → Option B) → Option B
none >>= f = none
some a >>= f = f a

abbrev pub fmap {ℓ κ} : {A : Type ℓ} {B : Type κ} → (A → B) → Option A → Option B
fmap f none = none
fmap f (some a) = some (f a)

-- A chain goes on where its first part succeeds.
pub bind_some {ℓ κ} :
    {A : Type ℓ} {B : Type κ} {o : Option A} {a : A} {r : Option B} (f : A → Option B)
    → o ≡ some a
    → f a ≡ r
    → (o >>= f) ≡ r
bind_some f e h = ap (λ o. o >>= f) e ∙ h
