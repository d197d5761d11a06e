-- ===== src/Arithmetic/Unsigned.antt =====
-- `udiv64` of arithmetic.c is division, and never traps on a nonzero divisor.
use native.Mathlib.Nat.{
  le-div_iff_mul-le, div-lt_iff_lt-mul, lt-mul-div-succ, pow-suc, div-div-eq-div-mul,
  mul-div-mul_right, one-le-pow, mul-le-mul_left, mul-le-mul_right, le_refl, mul-add-div,
  div-add-mod, mod-lt, mod-eq_of_lt, div-le_self, div-eq_of_lt, div-mul-le_self, lt-div-mul-add,
}
use cs162hwproj.Prelude.{
  ℕ, zero, suc, ◌+◌, ◌-◌, ◌*◌, ◌/◌, ◌%◌, ◌^◌, ◌≤◌, ◌<◌, ◌≡◌, refl, sym, ap, ◌∙◌, inl, inr, ◌≢◌,
  arith, true, false, some, ltb, ◌==◌, if◌then◌else◌, Bool-cases, lt→ltb, ge→ltb,
}
use native.Mathlib.Decide.{dec_lt}
use cs162hwproj.Arithmetic.{two32, two64, divl, nlz, udiv64, umod64}
use cs162hwproj.Arithmetic.Bounds.{nlz_lem, pow-add, estimate}

divl-some : (n d : ℕ) → 0 < d → n < two32 * d → divl n d ≡ some (n / d)
unfolding divl
divl-some n d p h =
    let e : (d == 0) ≡ false = ground arith in
    rw (e, lt→ltb (n / d) two32 ((div-lt_iff_lt-mul {x = n} {y = two32} p).1 h))

-- A divisor of 32 bits: long division in two digits.
short_quotient :
    (n d : ℕ)
    → 0 < d
    → d < two32
    → n < two64
    → (two32 * (n / two32 % d) + n % two32) / d + two32 * (n / two32 / d) ≡ n / d
short_quotient n d p s h =
    let a = n / two32 in
    let whole : d * (two32 * (a / d)) + (two32 * (a % d) + n % two32) ≡ n =
      omega (arith, ap (λ (t : ℕ). two32 * t) (div-add-mod a d)) in
    omega (
      arith,
      sym (mul-add-div p (two32 * (a / d)) (two32 * (a % d) + n % two32))
          ∙ ap (λ (t : ℕ). t / d) whole,
    )

udiv64_short : (n d : ℕ) → 0 < d → d < two32 → n < two64 → udiv64 n d ≡ some (n / d)
unfolding udiv64
udiv64_short n d p s h =
    let r = n / two32 % d in
    let small : r < d = mod-lt (n / two32) p in
    let e : d / two32 ≡ 0 = omega arith in
    let f : d % two32 ≡ d = omega arith in
    let g : (two32 * r + n % two32) % two64 ≡ two32 * r + n % two32 = omega arith in
    let m = two32 * r + n % two32 in
    let le : n / d ≤ n = div-le_self n d in
    rw (e, f, g, divl-some m d p (omega arith))
      (ap some (let q = short_quotient n d p s h in omega arith))

-- The divisor shifted until its top bit is set: its upper half, and how it relates to `d`.
record Shifted (d s : ℕ) : Type 0 where
  half : d * 2 ^ s % two64 / two32 ≡ d / 2 ^ (32 - s)
  large : 2 ^ 31 ≤ d / 2 ^ (32 - s)
  fits : d / 2 ^ (32 - s) < two32

shift_small : (d₁ S t : ℕ) → S * t ≡ two32 → d₁ * S < two32 → d₁ < t
shift_small d₁ S t e h = elim (dec_lt d₁ t) [
  | yes p ↦ p
  | no np ↦ absurd (omega (arith, mul-le-mul_left {m = t} {n = d₁} S (omega arith)))
]

shifted : (d s : ℕ) → s < 32 → 2 ^ 31 ≤ d / two32 * 2 ^ s → d / two32 * 2 ^ s < two32 → Shifted d s
shifted d s small lo hi = record {
  half = rw (no_wrap, ← split) (mul-div-mul_right d t pos_S);
  large =
      rw (← half) ((le-div_iff_mul-le {k = two32} {x = 2 ^ 31} {y = d * S} (omega arith)).1 bottom);
  fits = rw (← half) (
      (div-lt_iff_lt-mul {k = two32} {x = d * S} {y = two32} (omega arith)).1 (omega (arith, top)));
}
  where
    S : ℕ
    S = 2 ^ s

    t : ℕ
    t = 2 ^ (32 - s)

    pos_S : 0 < S
    pos_S = one-le-pow s 2 (omega arith)

    split : t * S ≡ two32
    split = let e : 32 - s + s ≡ 32 = omega arith in pow-add (32 - s) s ∙ ap (λ k. 2 ^ k) e

    below : d / two32 < t
    below = shift_small (d / two32) S t (omega (arith, split)) hi

    top : d * S < two64
    top =
        omega (
          arith,
          mul-le-mul_right {m = d + 1} {n = two32 * t} S (omega (arith, below)),
          split,
          pos_S,
        )

    no_wrap : d * S % two64 ≡ d * S
    no_wrap = omega (arith, top)

    bottom : 2 ^ 31 * two32 ≤ d * S
    bottom = omega (arith, mul-le-mul_right {m = two32 * (d / two32)} {n = d} S (omega arith))

    half : d * S / two32 ≡ d / t
    half = rw (← split) (mul-div-mul_right d t pos_S)

pred_mul : (k d : ℕ) → 1 ≤ k → (k - 1) * d + d ≡ k * d
pred_mul zero d h = absurd (omega arith)
pred_mul (suc k) d h = let e : suc k - 1 ≡ k = omega arith in rw e (omega arith)

-- The correction that the code makes to a guess that is the quotient or one more.
correct :
    (n d q : ℕ)
    → n < two64
    → 0 < d
    → d ≤ n
    → n / d ≤ q
    → q ≤ n / d + 1
    → q < two64
    → (if ltb ((n + two64 - (q + two64 - 1) % two64 * d % two64) % two64) d
        then (q + two64 - 1) % two64
        else q)
      ≡ n / d
correct n d q small p le lo hi fits =
    let k = n / d in
    let pos_k : 1 ≤ k = (le-div_iff_mul-le p).1 (omega arith) in
    let low : k * d ≤ n = (le-div_iff_mul-le p).0 (le_refl k) in
    let high : n < k * d + d = omega (arith, lt-mul-div-succ n p) in
    let less_one : (q + two64 - 1) % two64 ≡ q - 1 = omega arith in
    rw less_one (elim (Bool-cases (q == k)) [
      | inl exact ↦
          let e : q ≡ k = ground (arith, exact) in
          let f = pred_mul k d pos_k in
          let g : ltb ((n + two64 - (q - 1) * d % two64) % two64) d ≡ false =
            rw e (ge→ltb _ _ (omega arith)) in
          rw (g, e) refl
      | inr over ↦
          let e : q - 1 ≡ k = ground (arith, over) in
          let g : ltb ((n + two64 - (q - 1) * d % two64) % two64) d ≡ true =
            rw e (lt→ltb _ _ (omega arith)) in
          rw (g, e) refl
    ])

udiv64_long : (n d : ℕ) → two32 ≤ d → d < two64 → n < two64 → udiv64 n d ≡ some (n / d)
unfolding udiv64
udiv64_long n d lo hi small = elim (Bool-cases (ltb n d)) [
  | inl less ↦ rw (long, less) (ap some (sym (div-eq_of_lt (ground (arith, less)))))
  | inr more ↦
      rw (long, more, sh.half, divl-some (n / 2) v pos_v (omega (arith, sh.large)))
        (ap some (
          rw guess (
            correct n d (n / (v * t)) small (omega arith) (ground (arith, more)) near.0 near.1
              bound)))
]
  where
    long : (d / two32 == 0) ≡ false
    long = ground arith

    s : ℕ
    s = nlz (d / two32)

    zeros : (2 ^ 31 ≤ d / two32 * 2 ^ s) × (d / two32 * 2 ^ s < 2 ^ 32) × (s < 32)
    zeros = nlz_lem (d / two32) (omega arith) (omega arith)

    sh : Shifted d s
    sh = shifted d s zeros.2 zeros.0 zeros.1

    t : ℕ
    t = 2 ^ (32 - s)

    T : ℕ
    T = 2 ^ (31 - s)

    v : ℕ
    v = d / t

    pos_T : 1 ≤ T
    pos_T = one-le-pow (31 - s) 2 (omega arith)

    double : t ≡ 2 * T
    double =
        let e : 32 - s ≡ suc (31 - s) = omega (arith, zeros) in
        rw (e, pow-suc 2 (31 - s)) (omega arith)

    pos_v : 0 < v
    pos_v = omega (arith, sh.large)

    pos_t : 0 < t
    pos_t = omega (arith, double, pos_T)

    guess : n / 2 / v / T ≡ n / (v * t)
    guess =
        let e : 2 * v * T ≡ v * t = rw double (omega arith) in
        rw (div-div-eq-div-mul n 2 v, div-div-eq-div-mul n (2 * v) T, e) refl

    near : (n / d ≤ n / (v * t)) × (n / (v * t) ≤ n / d + 1)
    near =
        estimate n d (v * t) t small pos_t (div-mul-le_self d t) (lt-div-mul-add pos_t)
          (mul-le-mul_right t sh.large) (omega (arith, double, pos_T))

    bound : n / (v * t) < two64
    bound = omega (arith, near.1, quotient-le)
      where
        quotient-le : n / d ≤ n
        quotient-le = div-le_self n d

-- `udiv64` on 64-bit numbers with a divisor other than 0 raises no divide error and returns the
-- quotient.
pub udiv64-div : (n d : ℕ) → n < two64 → d < two64 → 0 < d → udiv64 n d ≡ some (n / d)
udiv64-div n d small fits p = elim (dec_lt d two32) [
  | yes short ↦ udiv64_short n d p short small
  | no long ↦ udiv64_long n d (omega arith) fits small
]

-- `umod64` on 64-bit numbers with a divisor other than 0 raises no divide error and returns the
-- remainder modulo 2^32, the size of its result type.
pub umod64-mod : (n d : ℕ) → n < two64 → d < two64 → 0 < d → umod64 n d ≡ some (n % d % two32)
unfolding umod64
umod64-mod n d small fits p =
    let whole = div-add-mod n d in
    let e : (n + two64 - d * (n / d) % two64) % two64 ≡ n % d = omega (arith, mod-lt n p) in
    rw (udiv64-div n d small fits p, e) refl

-- `umod64` does not return the remainder for a dividend of more than 32 bits that is smaller than
-- its divisor.
pub umod64_wrong : (n d : ℕ) → two32 ≤ n → n < d → d < two64 → umod64 n d ≢ some (n % d)
umod64_wrong n d big less fits e =
    let same : n % d ≡ n = mod-eq_of_lt less in
    let wrong : some (n % d % two32) ≡ some (n % d) =
      sym (umod64-mod n d (omega arith) fits (omega arith)) ∙ e in
    ground (arith, wrong, same)
