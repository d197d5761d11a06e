-- ===== src/Prelude/Panics.antt =====
-- A kernel function that may fail an `ASSERT` or call `PANIC` returns an option: `none` is the
-- panic, after which the kernel does not go on.
use mathlib.Core.Path.{◌≡◌, refl}
use mathlib.Core.Bool.{Bool, true, false}
use mathlib.Core.Option.{Option, none, some}

infixl 5 ◌>>=◌ ◌>>◌
abbrev pub ◌>>=◌ {ℓ κ} : {A : Type ℓ} {B : Type κ} → Option A → (A → Option B) → Option B
none >>= f = none
some a >>= f = f a

abbrev pub ◌>>◌ {ℓ} : {B : Type ℓ} → Option (Unit {0}) → Option B → Option B
m >> k = m >>= λ _. k

-- `ASSERT (b)`.
abbrev pub assert : Bool → Option (Unit {0})
assert true = some tt
assert false = none

-- What an assertion that passed says.
pub assert-some {ℓ} :
    {A : Type ℓ} (b : Bool) (k : Option A) {a : A}
    → (assert b >> k) ≡ some a
    → (b ≡ true) × (k ≡ some a)
assert-some true k e = (refl, e)
assert-some false k e = cc

pub eq_of_some {ℓ} : {A : Type ℓ} {a b : A} → some a ≡ some b → a ≡ b
eq_of_some e = cc

-- What a chain that gave a result says of its first step.
pub >>=-eq-some {ℓ κ} :
    {A : Type ℓ} {B : Type κ} (m : Option A) (f : A → Option B) {b : B}
    → (m >>= f) ≡ some b
    → (a : A) × (m ≡ some a) × (f a ≡ some b)
>>=-eq-some none f e = cc
>>=-eq-some (some a) f e = (a, refl, e)
