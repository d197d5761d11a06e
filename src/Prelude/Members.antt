-- ===== src/Prelude/Members.antt =====
-- Membership in a list of numbers as a test, and lists with no number twice.
use Prim.Native.Nat.{ℕ}
use mathlib.Core.Path.{◌≡◌, refl}
use mathlib.Core.Logic.{◌≢◌}
use mathlib.Core.Bool.{Bool, true, false, ◌||◌}
use mathlib.Core.List.{List, [], ◌∷◌, ◌++◌}
use cs162hwproj.Prelude.Tests.{◌==◌}
use native.Mathlib.Omega.{arith}

abbrev pub has : ℕ → List ℕ → Bool
has a [] = false
has a (x ∷ xs) = (a == x) || has a xs

abbrev pub Distinct : List ℕ → Type 0
Distinct [] = Unit
Distinct (x ∷ xs) = (has x xs ≡ false) × Distinct xs

pub has-append : (a : ℕ) (xs ys : List ℕ) → has a (xs ++ ys) ≡ (has a xs || has a ys)
has-append a [] ys = refl
has-append a (x ∷ xs) ys = ground (arith, has-append a xs ys)

pub ne_of_has : (p q : ℕ) (xs : List ℕ) → has p xs ≡ true → has q xs ≡ false → p ≢ q
ne_of_has p q [] h k = cc
ne_of_has p q (x ∷ xs) h k = ground (arith, ne_of_has p q xs)

pub Distinct-append :
    (xs ys : List ℕ)
    → Distinct (xs ++ ys)
    → Distinct xs × Distinct ys × ((p : ℕ) → has p xs ≡ true → has p ys ≡ false)
Distinct-append [] ys d = (tt, d, λ p h. cc)
Distinct-append (x ∷ xs) ys (o, d) =
    let (dx, dy, apart) = Distinct-append xs ys d in
    (
      (ground (arith, has-append x xs ys), dx),
      dy,
      λ p h. ground (arith, has-append x xs ys, apart p),
    )

pub Distinct-join :
    (xs ys : List ℕ)
    → Distinct xs
    → Distinct ys
    → ((p : ℕ) → has p xs ≡ true → has p ys ≡ false)
    → Distinct (xs ++ ys)
Distinct-join [] ys dx dy apart = dy
Distinct-join (x ∷ xs) ys (o, dx) dy apart = (
  ground (arith, has-append x xs ys, apart x),
  Distinct-join xs ys dx dy (λ p h. apart p (ground arith)),
)
