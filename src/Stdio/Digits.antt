-- ===== src/Stdio/Digits.antt =====
-- The digits that `format_integer` of stdio.c stores, read back.
use cs162hwproj.Prelude.{
  ℕ, zero, suc, ◌+◌, ◌-◌, ◌*◌, ◌/◌, ◌%◌, ◌^◌, ◌<◌, ◌≤◌, ◌≡◌, refl, ap, ◌∙◌, some, none, Bool, true,
  false, not, ◌&&◌, inl, inr, Option, List, [], ◌∷◌, arith, ltb, ◌==◌, if◌then◌else◌, Bool-cases,
  length, get_or, min, max,
}
use native.Mathlib.Nat.{pow-suc, mod-lt, div-add-mod', div-lt_iff_lt-mul, mul-le-mul_left}
use cs162hwproj.Stdio.{
  Flags, IntegerBase, digit_loop, precision_loop, digits_text, rendered_precision, starts_with_zero,
}

-- The value of a digit in any base up to 16.
abbrev pub digit_value : ℕ → ℕ
digit_value c = if ltb c 58 then c - 48 else if ltb c 71 then c - 55 else c - 87

-- The number that a text denotes behind `n`; commas between the digits do not count.
abbrev pub value_from : (base n : ℕ) → List ℕ → ℕ
value_from base n [] = n
value_from base n (c ∷ text) =
    value_from base (if c == b',' then n else n * base + digit_value c) text

-- What the four bases have in common.
pub record IsBase (b : IntegerBase) : Type 0 where
  pub at_least : 8 ≤ b.base
  pub digit_lem :
      (d : ℕ)
      → d < b.base
      → (digit_value (get_or b.digits d 0) ≡ d) × ((get_or b.digits d 0 == b',') ≡ false)
  pub letter_lem :
      b.x
      ≡ (if b.base == 16 then some (if get_or b.digits 10 0 == b'a' then b'x' else b'X') else none)

pub div-lt_pow : (base value k : ℕ) → 8 ≤ base → value < 8 ^ suc k → value / base < 8 ^ k
div-lt_pow base value k p h = (div-lt_iff_lt-mul (omega arith)).1 (
    let e : 8 ^ suc k ≡ 8 ^ k * 8 = pow-suc 8 k in
    let m : 8 ^ k * 8 ≤ 8 ^ k * base = mul-le-mul_left (8 ^ k) p in omega arith)

module _ {b : IntegerBase} (w : IsBase b) where
  value_from-digit :
      (n value : ℕ) (buf : List ℕ)
      → n ≡ value / b.base
      → value_from b.base n (get_or b.digits (value % b.base) 0 ∷ buf) ≡ value_from b.base value buf
  value_from-digit n value buf e =
      let (d, c) = w.digit_lem (value % b.base) (mod-lt value (omega (arith, w.at_least))) in
      rw (c, d, e) (ap (λ n. value_from b.base n buf) (div-add-mod' value b.base))

  value_from-group :
      (g : Bool) (n : ℕ) (buf : List ℕ)
      → value_from b.base n (if g then b',' ∷ buf else buf) ≡ value_from b.base n buf
  value_from-group true n buf = refl
  value_from-group false n buf = refl

module _ {b : IntegerBase} (w : IsBase b) (f : Flags) where
  -- Each round moves a digit from the value to the buffer.
  pub digit_loop-value :
      (fuel value digit_cnt : ℕ) (buf : List ℕ)
      → value < 8 ^ fuel
      → value_from b.base 0 (digit_loop f b fuel value digit_cnt buf) ≡ value_from b.base value buf
  unfolding digit_loop
  digit_loop-value zero value digit_cnt buf h =
      let e : 0 ≡ value = omega arith in ap (λ n. value_from b.base n buf) e
  digit_loop-value (suc fuel) value digit_cnt buf h = elim (Bool-cases (value == 0)) [
    | inl z ↦ let e : 0 ≡ value = ground arith in rw z (ap (λ n. value_from b.base n buf) e)
    | inr k ↦
        let g = f.group && (ltb 0 digit_cnt && (digit_cnt % b.grouping == 0)) in
        let grouped = if g then b',' ∷ buf else buf in
        let d = get_or b.digits (value % b.base) 0 in
        rw k (
          digit_loop-value fuel (value / b.base) (digit_cnt + 1) (d ∷ grouped)
            (div-lt_pow b.base value fuel w.at_least h)
          ∙ (value_from-digit w (value / b.base) value grouped refl
              ∙ value_from-group w g value buf))
  ]

  pub length-digit_loop :
      (k fuel value digit_cnt : ℕ) (buf : List ℕ)
      → value < 8 ^ k
      → length (digit_loop f b fuel value digit_cnt buf) ≤ length buf + 2 * k
  unfolding digit_loop
  length-digit_loop k zero value digit_cnt buf h = omega arith
  length-digit_loop zero (suc fuel) value digit_cnt buf h =
      let z : (value == 0) ≡ true = ground arith in rw z (omega arith)
  length-digit_loop (suc k) (suc fuel) value digit_cnt buf h =
      let g = f.group && (ltb 0 digit_cnt && (digit_cnt % b.grouping == 0)) in
      let grouped = if g then b',' ∷ buf else buf in
      let d = get_or b.digits (value % b.base) 0 in
      let l : length grouped ≤ length buf + 1 = ground arith in
      let ih =
        length-digit_loop k fuel (value / b.base) (digit_cnt + 1) (d ∷ grouped)
          (div-lt_pow b.base value k w.at_least h) in
      elim (Bool-cases (value == 0)) [ inl z ↦ rw z (omega arith) | inr n ↦ rw n (omega arith) ]

value_from-zero : (base : ℕ) (buf : List ℕ) → value_from base 0 (b'0' ∷ buf) ≡ value_from base 0 buf
value_from-zero base buf = ap (λ n. value_from base n buf) (omega arith)

precision_loop-value :
    (base fuel precision : ℕ) (buf : List ℕ)
    → value_from base 0 (precision_loop fuel precision buf) ≡ value_from base 0 buf
unfolding precision_loop
precision_loop-value base zero precision buf = refl
precision_loop-value base (suc fuel) precision buf =
    elim (Bool-cases (ltb (length buf) precision && ltb (length buf) 63)) [
      | inl y ↦
          rw y (precision_loop-value base fuel precision (b'0' ∷ buf) ∙ value_from-zero base buf)
      | inr n ↦ rw n refl
    ]

length-precision_loop :
    (fuel precision : ℕ) (buf : List ℕ)
    → 63 ≤ length buf + fuel
    → (min precision 63 ≤ length (precision_loop fuel precision buf))
      × (length (precision_loop fuel precision buf) ≤ max (length buf) (min precision 63))
unfolding precision_loop
length-precision_loop zero precision buf h = (omega arith, omega arith)
length-precision_loop (suc fuel) precision buf h =
    elim (Bool-cases (ltb (length buf) precision && ltb (length buf) 63)) [
      | inl y ↦
          let (l, u) = length-precision_loop fuel precision (b'0' ∷ buf) (omega arith) in
          let more : (length buf < precision) × (length buf < 63) = ground arith in
          rw y (l, omega arith)
      | inr n ↦ rw n (ground arith, omega arith)
    ]

-- The zero that the # flag puts in front of an octal number.
value_from-octal :
    (base : ℕ) (g : Bool) (buf : List ℕ)
    → value_from base 0 (if g then b'0' ∷ buf else buf) ≡ value_from base 0 buf
value_from-octal base true buf = value_from-zero base buf
value_from-octal base false buf = refl

length-octal :
    (g : Bool) (buf : List ℕ)
    → (length buf ≤ length (if g then b'0' ∷ buf else buf))
      × (length (if g then b'0' ∷ buf else buf) ≤ length buf + 1)
length-octal g buf = ground arith

module _ {b : IntegerBase} (w : IsBase b) (f : Flags) (precision : Option ℕ) (value : ℕ)
    (h : value < 2 ^ 64) where
  abbrev pub raw : List ℕ
  raw = digit_loop f b 64 value 0 []

  abbrev padded : List ℕ
  padded = precision_loop 64 (rendered_precision precision) raw

  abbrev octal_zero : Bool
  octal_zero = f.pound && ((b.base == 8) && not (starts_with_zero padded))

  -- What the buffer denotes.
  pub digits_text-value : value_from b.base 0 (digits_text f b precision value) ≡ value
  unfolding digits_text
  digits_text-value =
      value_from-octal b.base octal_zero padded
      ∙ (precision_loop-value b.base 64 (rendered_precision precision) raw
          ∙ digit_loop-value w f 64 value 0 [] (omega arith))

  -- How much of the 64 places of the buffer is used.
  pub length-digits_text :
      (min (rendered_precision precision) 63 ≤ length (digits_text f b precision value))
      × (length (digits_text f b precision value) ≤ 64)
  unfolding digits_text
  length-digits_text =
      let d : length raw ≤ 44 = length-digit_loop w f 22 64 value 0 [] (omega arith) in
      let (l, u) = length-precision_loop 64 (rendered_precision precision) raw (omega arith) in
      let (lo, uo) = length-octal octal_zero padded in (omega arith, omega arith)
