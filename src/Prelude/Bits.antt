-- ===== src/Prelude/Bits.antt =====
-- Binary digits of a number, and what `&`, `|`, `^` and `~` of the machine do to them.
use Prim.Native.Nat.{
  ℕ, zero, suc, ◌+◌, ◌-◌, ◌*◌, ◌/◌, ◌%◌, ◌^◌, ◌≤◌, ◌<◌, min, max, digits, bit_and, bit_or, bit_xor,
  differ, bit_and-bitwise, bit_or-bitwise, bit_xor-bitwise,
}
use mathlib.Core.Path.{◌≡◌, refl, ap, ◌∙◌}
use mathlib.Core.Logic.{◌≢◌}
use native.Mathlib.Nat.{pow-suc, one-le-pow, le_refl}
use native.Mathlib.Decide.{ℕ_discrete}
use native.Mathlib.Omega.{arith}

-- The binary digit of weight `2 ^ k`.
abbrev pub digit : ℕ → ℕ → ℕ
digit a zero = a % 2
digit a (suc k) = digit (a / 2) k

pub digit-lt : (a k : ℕ) → digit a k < 2
digit-lt a zero = omega arith
digit-lt a (suc k) = digit-lt (a / 2) k

pub zero-digit : (k : ℕ) → digit 0 k ≡ 0
zero-digit zero = refl
zero-digit (suc k) = zero-digit k

module _ (z : ℕ → ℕ) (f : ℕ → ℕ → ℕ) (rest : (b k : ℕ) → digit (z b) k ≡ f 0 (digit b k))
    (small : (x y : ℕ) → x < 2 → y < 2 → f x y < 2) where
  digit-digits : (n a b k : ℕ) → a ≤ n → digit (digits z f n a b) k ≡ f (digit a k) (digit b k)
  digit-digits zero zero b k h = rest b k ∙ ap (λ t. f t (digit b k)) (omega (arith, zero-digit k))
  digit-digits zero (suc a) b k h = absurd (omega arith)
  digit-digits (suc n) zero b k h =
      rest b k ∙ ap (λ t. f t (digit b k)) (omega (arith, zero-digit k))
  digit-digits (suc n) (suc a) b zero h =
      omega (arith, small (suc a % 2) (b % 2) (omega arith) (omega arith))
  digit-digits (suc n) (suc a) b (suc k) h =
      ap (λ t. digit t k) halved ∙ digit-digits n (suc a / 2) (b / 2) k (omega arith)
    where
      halved :
          (digits z f n (suc a / 2) (b / 2) * 2 + f (suc a % 2) (b % 2)) / 2
          ≡ digits z f n (suc a / 2) (b / 2)
      halved = omega (arith, small (suc a % 2) (b % 2) (omega arith) (omega arith))

pub digit-bit_and : (a b k : ℕ) → digit (bit_and a b) k ≡ min (digit a k) (digit b k)
digit-bit_and a b k = rw bit_and-bitwise (
    digit-digits (λ b. 0) min (λ b k. omega (arith, zero-digit k)) (λ x y p q. omega arith) a a b k
      (le_refl a))

pub digit-bit_or : (a b k : ℕ) → digit (bit_or a b) k ≡ max (digit a k) (digit b k)
digit-bit_or a b k =
    rw bit_or-bitwise
      (digit-digits (λ b. b) max (λ b k. omega arith) (λ x y p q. omega arith) a a b k (le_refl a))

differ-lt : (x y : ℕ) → x < 2 → y < 2 → differ x y < 2
differ-lt zero y p q = q
differ-lt (suc x) zero p q = p
differ-lt (suc x) (suc y) p q = differ-lt x y (omega arith) (omega arith)

pub digit-bit_xor : (a b k : ℕ) → digit (bit_xor a b) k ≡ differ (digit a k) (digit b k)
digit-bit_xor a b k =
    rw bit_xor-bitwise (digit-digits (λ b. b) differ (λ b k. refl) differ-lt a a b k (le_refl a))

pub digit-pow_self : (k : ℕ) → digit (2 ^ k) k ≡ 1
digit-pow_self zero = refl
digit-pow_self (suc k) = ap (λ t. digit t k) (omega (arith, pow-suc 2 k)) ∙ digit-pow_self k

pub digit-pow_ne : (k j : ℕ) → k ≢ j → digit (2 ^ k) j ≡ 0
digit-pow_ne zero zero h = absurd (h refl)
digit-pow_ne zero (suc j) h = zero-digit j
digit-pow_ne (suc k) zero h = omega (arith, pow-suc 2 k)
digit-pow_ne (suc k) (suc j) h =
    ap (λ t. digit t j) (omega (arith, pow-suc 2 k)) ∙ digit-pow_ne k j (λ e. h (ap suc e))

-- The complement among the numbers of `n` digits: `~x` on an `n`-bit word.
abbrev pub complement : ℕ → ℕ → ℕ
complement n x = 2 ^ n - 1 - x

pub digit-complement : (n x j : ℕ) → x < 2 ^ n → j < n → digit (complement n x) j ≡ 1 - digit x j
digit-complement zero x j h i = absurd (omega arith)
digit-complement (suc n) x zero h i = omega (arith, pow-suc 2 n)
digit-complement (suc n) x (suc j) h i =
    ap (λ t. digit t j) (omega (arith, pow-suc 2 n))
    ∙ digit-complement n (x / 2) j (omega (arith, pow-suc 2 n)) (omega arith)

zero_of_digits_fuel : (n a : ℕ) → a ≤ n → ((k : ℕ) → digit a k ≡ 0) → a ≡ 0
zero_of_digits_fuel zero a h all = omega arith
zero_of_digits_fuel (suc n) zero h all = refl
zero_of_digits_fuel (suc n) (suc a) h all =
    omega (arith, all 0, zero_of_digits_fuel n (suc a / 2) (omega arith) (λ k. all (suc k)))

pub zero_of_digits : (a : ℕ) → ((k : ℕ) → digit a k ≡ 0) → a ≡ 0
zero_of_digits a all = zero_of_digits_fuel a a (le_refl a) all

-- Masking with one bit leaves zero exactly when that digit is zero.
pub bit_and-pow-eq_zero : (a k : ℕ) → digit a k ≡ 0 → bit_and a (2 ^ k) ≡ 0
bit_and-pow-eq_zero a k h = zero_of_digits _ (λ j. each j)
  where
    each : (j : ℕ) → digit (bit_and a (2 ^ k)) j ≡ 0
    each j = elim (ℕ_discrete k j) [
      | yes e ↦ let h' : digit a j ≡ 0 = rw e at h in omega (arith, digit-bit_and a (2 ^ k) j)
      | no ne ↦ omega (arith, digit-bit_and a (2 ^ k) j, digit-pow_ne k j ne)
    ]

pub bit_and-pow-ne_zero : (a k : ℕ) → digit a k ≡ 1 → bit_and a (2 ^ k) ≢ 0
bit_and-pow-ne_zero a k h e =
    omega (arith, digit-bit_and a (2 ^ k) k, digit-pow_self k, zero-digit k, ap (λ t. digit t k) e)

pub pow_mono : (k n : ℕ) → k < n → 2 ^ k < 2 ^ n
pow_mono k zero h = absurd (omega arith)
pow_mono zero (suc n) h = omega (arith, pow-suc 2 n, one-le-pow n 2)
pow_mono (suc k) (suc n) h = omega (arith, pow-suc 2 n, pow-suc 2 k, pow_mono k n (omega arith))

le_of_digits_fuel : (n a b : ℕ) → a ≤ n → ((k : ℕ) → digit a k ≤ digit b k) → a ≤ b
le_of_digits_fuel zero a b f h = omega arith
le_of_digits_fuel (suc n) zero b f h = omega arith
le_of_digits_fuel (suc n) (suc a) b f h =
    let low = h 0 in
    let high = le_of_digits_fuel n (suc a / 2) (b / 2) (omega arith) (λ k. h (suc k)) in omega arith

pub le_of_digits : (a b : ℕ) → ((k : ℕ) → digit a k ≤ digit b k) → a ≤ b
le_of_digits a b = le_of_digits_fuel a a b (le_refl a)

pub bit_and-le_right : (a b : ℕ) → bit_and a b ≤ b
bit_and-le_right a b = le_of_digits (bit_and a b) b (λ k. omega (arith, digit-bit_and a b k))

pub bit_and-le_left : (a b : ℕ) → bit_and a b ≤ a
bit_and-le_left a b = le_of_digits (bit_and a b) a (λ k. omega (arith, digit-bit_and a b k))
