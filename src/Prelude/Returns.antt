-- ===== src/Prelude/Returns.antt =====
-- Total correctness of a call that may panic.
use mathlib.Core.Path.{◌≡◌, refl}
use mathlib.Core.Option.{Option, some}
use cs162hwproj.Prelude.Panics.{◌>>=◌}

-- The call ends without a panic, and its result satisfies `P`.
pub data Returns {ℓ κ} {A : Type ℓ} (P : A → Type κ) : Option A → Type (ℓ ⊔ κ) where
  returns : {a : A} → P a → Returns P (some a)

pub bind {ℓ κ μ ν} :
    {A : Type ℓ} {P : A → Type κ} {B : Type μ} {Q : B → Type ν} {m : Option A} {k : A → Option B}
    → Returns P m
    → ((a : A) → P a → Returns Q (k a))
    → Returns Q (m >>= k)
bind (returns p) next = next _ p

pub mono {ℓ κ ν} :
    {A : Type ℓ} {P : A → Type κ} {Q : A → Type ν} {m : Option A}
    → Returns P m
    → ((a : A) → P a → Q a)
    → Returns Q m
mono (returns p) weaken = returns (weaken _ p)

pub value {ℓ κ} :
    {A : Type ℓ} {P : A → Type κ} {m : Option A} → Returns P m → (a : A) × (m ≡ some a) × P a
value (returns {a} p) = (a, refl, p)
