-- ===== src/Stdio/Zeros.antt =====
-- The zeros in front of the digits that `format_integer` of stdio.c stores.
use cs162hwproj.Prelude.{
  ℕ, zero, suc, ◌+◌, ◌-◌, ◌*◌, ◌/◌, ◌%◌, ◌^◌, ◌<◌, ◌≤◌, ◌≡◌, refl, sym, ap, ◌∙◌, ◌≢◌, ◌++◌,
  replicate, Bool, true, false, not, ◌&&◌, inl, inr, Option, List, [], ◌∷◌, arith, ltb, ◌==◌,
  if◌then◌else◌, Bool-cases, length, get_or, min, max,
}
use native.Mathlib.Nat.{mod-lt, div-add-mod'}
use cs162hwproj.Stdio.{
  Flags, IntegerBase, digit_loop, precision_loop, digits_text, rendered_precision, starts_with_zero,
}
use cs162hwproj.Stdio.Digits.{IsBase, digit_value, div-lt_pow, raw}

-- The digits of a number without zeros in front: there is none for 0.
abbrev pub IsSignificant : (value : ℕ) → List ℕ → Type 0
IsSignificant value [] = value ≡ 0
IsSignificant value (c ∷ text) = c ≢ b'0'

abbrev pub NoComma : List ℕ → Type 0
NoComma [] = Unit
NoComma (c ∷ text) = (c ≢ b',') × NoComma text

module _ {b : IntegerBase} (w : IsBase b) (f : Flags) where
  digit_loop_zero : (fuel digit_cnt : ℕ) (buf : List ℕ) → digit_loop f b fuel 0 digit_cnt buf ≡ buf
  unfolding digit_loop
  digit_loop_zero zero digit_cnt buf = refl
  digit_loop_zero (suc fuel) digit_cnt buf = refl

  digit_ne_zero :
      (value : ℕ) → value ≢ 0 → value / b.base ≡ 0 → get_or b.digits (value % b.base) 0 ≢ b'0'
  digit_ne_zero value n z q =
      let (v, c) = w.digit_lem (value % b.base) (mod-lt value (omega (arith, w.at_least))) in
      let m : 0 * b.base + value % b.base ≡ value =
        ap (λ t. t * b.base + value % b.base) (sym z) ∙ div-add-mod' value b.base in
      let e : value % b.base ≡ 0 = sym v ∙ ap digit_value q in n (omega (arith, m, e))

  -- The character that is stored last is not '0'.
  digit_loop-first :
      (fuel value digit_cnt : ℕ) (buf : List ℕ)
      → value < 8 ^ fuel
      → value ≢ 0
      → (c : ℕ) × (text : List ℕ) × (digit_loop f b fuel value digit_cnt buf ≡ c ∷ text)
        × (c ≢ b'0')
  unfolding digit_loop
  digit_loop-first zero value digit_cnt buf h n = absurd (n (omega arith))
  digit_loop-first (suc fuel) value digit_cnt buf h n =
      let k : (value == 0) ≡ false = ground arith in
      let g = f.group && (ltb 0 digit_cnt && (digit_cnt % b.grouping == 0)) in
      let grouped = if g then b',' ∷ buf else buf in
      let d = get_or b.digits (value % b.base) 0 in
      elim (Bool-cases (value / b.base == 0)) [
        | inl z ↦
            let e : value / b.base ≡ 0 = ground arith in
            rw k (
              d,
              grouped,
              ap (λ v. digit_loop f b fuel v (digit_cnt + 1) (d ∷ grouped)) e
                  ∙ digit_loop_zero fuel (digit_cnt + 1) (d ∷ grouped),
              digit_ne_zero value n e,
            )
        | inr z ↦ rw k (
            digit_loop-first fuel (value / b.base) (digit_cnt + 1) (d ∷ grouped)
              (div-lt_pow b.base value fuel w.at_least h) (ground arith))
      ]

  digit_loop-IsSignificant :
      (value : ℕ) → value < 8 ^ 64 → IsSignificant value (digit_loop f b 64 value 0 [])
  digit_loop-IsSignificant value h = elim (Bool-cases (value == 0)) [
    | inl z ↦ let e : value ≡ 0 = ground arith in rw (e, digit_loop_zero 64 0 []) refl
    | inr k ↦ let (c, text, e, n) = digit_loop-first 64 value 0 [] h (ground arith) in rw e n
  ]

  digit_loop-NoComma :
      (fuel value digit_cnt : ℕ) (buf : List ℕ)
      → f.group ≡ false
      → NoComma buf
      → NoComma (digit_loop f b fuel value digit_cnt buf)
  unfolding digit_loop
  digit_loop-NoComma zero value digit_cnt buf e n = n
  digit_loop-NoComma (suc fuel) value digit_cnt buf e n =
      let (v, c) = w.digit_lem (value % b.base) (mod-lt value (omega (arith, w.at_least))) in
      elim (Bool-cases (value == 0)) [
        | inl z ↦ rw z n
        | inr k ↦
            rw (k, e)
              (digit_loop-NoComma fuel (value / b.base) (digit_cnt + 1)
                (get_or b.digits (value % b.base) 0 ∷ buf) e (ground arith, n))
      ]

replicate_zero : (n c : ℕ) (s : List ℕ) → replicate n c ++ (c ∷ s) ≡ c ∷ (replicate n c ++ s)
replicate_zero zero c s = refl
replicate_zero (suc n) c s = ap (λ t. c ∷ t) (replicate_zero n c s)

precision_loop-replicate :
    (fuel precision : ℕ) (buf : List ℕ)
    → 63 ≤ length buf + fuel
    → precision_loop fuel precision buf ≡ replicate (min precision 63 - length buf) b'0' ++ buf
unfolding precision_loop
precision_loop-replicate zero precision buf h =
    let e : min precision 63 - length buf ≡ 0 = omega arith in rw e refl
precision_loop-replicate (suc fuel) precision buf h =
    elim (Bool-cases (ltb (length buf) precision && ltb (length buf) 63)) [
      | inl y ↦
          let n = min precision 63 - (length buf + 1) in
          let e : min precision 63 - length buf ≡ suc n = ground arith in
          let i = precision_loop-replicate fuel precision (b'0' ∷ buf) (omega arith) in
          let l : min precision 63 - suc (length buf) ≡ n = omega arith in
          rw (y, e) (i ∙ (ap (λ n. replicate n b'0' ++ (b'0' ∷ buf)) l ∙ replicate_zero n b'0' buf))
      | inr n ↦ let e : min precision 63 - length buf ≡ 0 = ground arith in rw (n, e) refl
    ]

IsSignificant-start :
    (value : ℕ) (text : List ℕ) → IsSignificant value text → starts_with_zero text ≡ false
IsSignificant-start value [] s = refl
IsSignificant-start value (c ∷ text) s = ground arith

-- The zero of the # flag, after those of the precision.
octal-replicate :
    (o : Bool) (n value : ℕ) (text : List ℕ)
    → IsSignificant value text
    → (if o && not (starts_with_zero (replicate n b'0' ++ text))
        then b'0' ∷ (replicate n b'0' ++ text)
        else replicate n b'0' ++ text)
      ≡ replicate (max n (if o then 1 else 0)) b'0' ++ text
octal-replicate false n value text s = let e : max n 0 ≡ n = omega arith in rw e refl
octal-replicate true zero value text s = let z = IsSignificant-start value text s in rw z refl
octal-replicate true (suc n) value text s = let e : max (suc n) 1 ≡ suc n = omega arith in rw e refl

module _ {b : IntegerBase} (w : IsBase b) (f : Flags) (precision : Option ℕ) (value : ℕ)
    (h : value < 2 ^ 64) where
  -- The zeros for the precision and the # flag, and then the digits of the value.
  pub digits_text-replicate :
      digits_text f b precision value
      ≡ replicate
          (max
            (min (rendered_precision precision) 63 - length (raw w f precision value h))
            (if f.pound && (b.base == 8) then 1 else 0))
          b'0'
        ++ (raw w f precision value h)
  unfolding digits_text
  digits_text-replicate =
      let s = digit_loop-IsSignificant w f value (omega arith) in
      let e =
        precision_loop-replicate 64 (rendered_precision precision) (raw w f precision value h)
          (omega arith) in
      let n = min (rendered_precision precision) 63 - length (raw w f precision value h) in
      rw e (
        reorder f.pound (b.base == 8) (replicate n b'0' ++ (raw w f precision value h))
        ∙ octal-replicate (f.pound && (b.base == 8)) n value (raw w f precision value h) s)
    where
      reorder :
          (p o : Bool) (t : List ℕ)
          → (if p && (o && not (starts_with_zero t)) then b'0' ∷ t else t)
            ≡ (if (p && o) && not (starts_with_zero t) then b'0' ∷ t else t)
      reorder p o t = ground arith

  pub raw-IsSignificant : IsSignificant value (raw w f precision value h)
  raw-IsSignificant = digit_loop-IsSignificant w f value (omega arith)

  pub raw-NoComma : f.group ≡ false → NoComma (raw w f precision value h)
  raw-NoComma e = digit_loop-NoComma w f 64 value 0 [] e tt
