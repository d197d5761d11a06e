-- ===== src/Arithmetic/Bounds.antt =====
-- Leading zeros, and how far the first guess of the quotient in arithmetic.c can be off.
use native.Mathlib.Nat.{
  le-div_iff_mul-le, div-lt_iff_lt-mul, lt-mul-div-succ, pow-suc, mul-le-mul_left, le_refl,
}
use cs162hwproj.Prelude.{ℕ, zero, suc, ◌+◌, ◌*◌, ◌/◌, ◌^◌, ◌≤◌, ◌<◌, ◌≡◌, ◌⊎◌, inl, inr, arith}
use cs162hwproj.Arithmetic.{nlz}

-- `nlz x` is the shift that brings the first one of a nonzero number to bit 31.
pub nlz_lem :
    (x : ℕ)
    → 0 < x
    → x < 2 ^ 32
    → (2 ^ 31 ≤ x * 2 ^ nlz x) × (x * 2 ^ nlz x < 2 ^ 32) × (nlz x < 32)
unfolding nlz
nlz_lem x p h = ground arith

pub pow-add : (s k : ℕ) → 2 ^ s * 2 ^ k ≡ 2 ^ (s + k)
pow-add zero k = let e : zero + k ≡ k = omega arith in rw e (omega arith)
pow-add (suc s) k =
    let e : suc s + k ≡ suc (s + k) = omega arith in
    rw (e, pow-suc 2 (s + k), pow-suc 2 s, ← pow-add s k) (grind arith)

quotient_small : (n d b t k : ℕ) → k * d ≤ n → n < 2 ^ 64 → b ≤ d → 2 ^ 31 * t ≤ b → k * t < 2 ^ 33
quotient_small n d b t k q small lo big = omega (arith, mul-le-mul_left k lo, mul-le-mul_left k big)

slack : (k t b : ℕ) → k * t < 2 ^ 33 → 2 ^ 31 * t ≤ b → (t ≡ 2) ⊎ (4 ≤ t) → k * t + t ≤ b + k + 1
slack k t b h big (inl e) =
    let h' : k * 2 < 2 ^ 33 = rw e at h in
    let big' : 2 ^ 31 * 2 ≤ b = rw e at big in rw e (omega arith)
slack zero t b h big (inr four) = omega arith
slack (suc zero) t b h big (inr four) = omega arith
slack (suc (suc k)) t b h big (inr four) = omega arith

not_far : (n d b t k : ℕ) → n < (k + 1) * d → d < b + t → k * t + t ≤ b + k + 1 → n < (k + 2) * b
not_far n d b t k high hi room = omega (arith, mul-le-mul_left (k + 1) hi)

-- Dividing by a number `b` that falls short of `d` by less than `t` gives the quotient or one more.
pub estimate :
    (n d b t : ℕ)
    → n < 2 ^ 64
    → 0 < t
    → b ≤ d
    → d < b + t
    → 2 ^ 31 * t ≤ b
    → (t ≡ 2) ⊎ (4 ≤ t)
    → (n / d ≤ n / b) × (n / b ≤ n / d + 1)
estimate n d b t small p lo hi big even =
    let pos_b : 0 < b = omega arith in
    let pos_d : 0 < d = omega arith in
    let low : n / d * d ≤ n = (le-div_iff_mul-le pos_d).0 (le_refl (n / d)) in
    let high : n < (n / d + 1) * d = omega (arith, lt-mul-div-succ n pos_d) in
    let room = slack (n / d) t b (quotient_small n d b t (n / d) low small lo big) big even in
    (
      (le-div_iff_mul-le pos_b).1 (omega (arith, mul-le-mul_left (n / d) lo)),
      omega (
        arith,
        (div-lt_iff_lt-mul {x = n} {y = n / d + 2} pos_b).1 (not_far n d b t (n / d) high hi room),
      ),
    )
