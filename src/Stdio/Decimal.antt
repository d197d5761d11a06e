-- ===== src/Stdio/Decimal.antt =====
-- `printf` of stdio.c on a plain text, and "%d" against `atoi` of stdlib.c.
use native.Mathlib.Nat.{pow-suc}
use mathlib.Core.List.{append-nil}
use cs162hwproj.Prelude.{
  ℕ, zero, suc, ◌+◌, ◌-◌, ◌/◌, ◌%◌, ◌^◌, ◌<◌, ◌≤◌, ◌≡◌, refl, ap, ◌∙◌, Bool, true, false, not, ◌&&◌,
  inl, inr, none, some, List, [], ◌∷◌, ◌++◌, arith, ltb, leb, ◌==◌, if◌then◌else◌, Bool-cases,
  length, get_or, ==_iff,
}
use cs162hwproj.CString.{Memory}
use cs162hwproj.Stdlib.{atoi}
use cs162hwproj.Stdlib.Numbers.{decimal, decimal-first, sign_text, atoi-decimal}
use cs162hwproj.Stdio.{
  IntegerBase, base_d, base_o, base_x, base_upper_x, Conversion, int, digit_loop, precision_loop,
  digits_text, sign_of, prefix_text, output_dup, format_integer,
}
use cs162hwproj.Stdio.Digits.{IsBase, digit_value}
use cs162hwproj.Stdio.Parse.{no_flags, parse_conversion}
use cs162hwproj.Stdio.Printf.{vprintf}

-- A test of all numbers below a bound.
abbrev all_below : ℕ → (ℕ → Bool) → Bool
all_below zero p = true
all_below (suc n) p = p n && all_below n p

all_below_sound : (n : ℕ) (p : ℕ → Bool) (d : ℕ) → all_below n p ≡ true → d < n → p d ≡ true
all_below_sound zero p d h l = absurd (omega arith)
all_below_sound (suc n) p d h l = ground (arith, all_below_sound n p d)

abbrev is_digit_of : IntegerBase → ℕ → Bool
is_digit_of b d = (digit_value (get_or b.digits d 0) == d) && not (get_or b.digits d 0 == b',')

check_digit :
    (b : IntegerBase) (d : ℕ)
    → is_digit_of b d ≡ true
    → (digit_value (get_or b.digits d 0) ≡ d) × ((get_or b.digits d 0 == b',') ≡ false)
check_digit b d t = (ground (arith, t), ground (arith, t))

check_base :
    (b : IntegerBase)
    → 8 ≤ b.base
    → all_below b.base (is_digit_of b) ≡ true
    → b.x
      ≡ (if b.base == 16 then some (if get_or b.digits 10 0 == b'a' then b'x' else b'X') else none)
    → IsBase b
check_base b l h x = record {
  at_least = l;
  letter_lem = x;
  digit_lem = λ d k. check_digit b d (all_below_sound b.base (is_digit_of b) d h k);
}

pub base_d-IsBase : IsBase base_d
base_d-IsBase = check_base base_d (omega arith) refl refl

pub base_o-IsBase : IsBase base_o
base_o-IsBase = check_base base_o (omega arith) refl refl

pub base_x-IsBase : IsBase base_x
base_x-IsBase = check_base base_x (omega arith) refl refl

pub base_upper_x-IsBase : IsBase base_upper_x
base_upper_x-IsBase = check_base base_upper_x (omega arith) refl refl

decimal_digit : (d : ℕ) → d < 10 → get_or base_d.digits d 0 ≡ 48 + d
decimal_digit d h =
    (==_iff _ (48 + d)).0 (all_below_sound 10 (λ d. get_or base_d.digits d 0 == 48 + d) d refl h)

digit_loop-zero :
    (fuel digit_cnt : ℕ) (buf : List ℕ) → digit_loop no_flags base_d fuel 0 digit_cnt buf ≡ buf
unfolding digit_loop
digit_loop-zero zero digit_cnt buf = refl
digit_loop-zero (suc fuel) digit_cnt buf = refl

digit_loop-decimal :
    (fuel m v digit_cnt : ℕ) (buf : List ℕ)
    → 0 < v
    → v < 8 ^ fuel
    → v < m
    → digit_loop no_flags base_d fuel v digit_cnt buf ≡ decimal m v buf
unfolding digit_loop
digit_loop-decimal zero m v digit_cnt buf p h l = absurd (omega arith)
digit_loop-decimal (suc fuel) zero v digit_cnt buf p h l = absurd (omega arith)
digit_loop-decimal (suc fuel) (suc m) v digit_cnt buf p h l =
    let k : (v == 0) ≡ false = ground arith in
    let e = decimal_digit (v % 10) (omega arith) in
    elim (Bool-cases (ltb v 10)) [
      | inl y ↦
          let z : v / 10 ≡ 0 = ground arith in
          let r : v % 10 ≡ v = ground arith in
          let e' : get_or base_d.digits v 0 ≡ 48 + v = decimal_digit v (ground arith) in
          rw (k, y, r, z, e') (digit_loop-zero fuel (digit_cnt + 1) ((48 + v) ∷ buf))
      | inr n ↦
          rw (k, n, e)
            (digit_loop-decimal fuel m (v / 10) (digit_cnt + 1) ((48 + v % 10) ∷ buf) (ground arith)
              (omega (arith, pow-suc 8 fuel)) (ground arith))
    ]

precision_loop_none : (fuel : ℕ) (buf : List ℕ) → 0 < length buf → precision_loop fuel 1 buf ≡ buf
unfolding precision_loop
precision_loop_none zero buf h = refl
precision_loop_none (suc fuel) buf h =
    let e : ltb (length buf) 1 ≡ false = ground arith in rw e refl

digits_text-decimal :
    (v : ℕ) → v < 8 ^ 64 → digits_text no_flags base_d none v ≡ decimal (suc v) v []
unfolding digits_text
digits_text-decimal v h = elim (Bool-cases (v == 0)) [
  | inl y ↦ let e : v ≡ 0 = ground arith in rw e (unfold precision_loop digit_loop in refl)
  | inr n ↦
      let p : 0 < v = ground arith in
      let (c, t, e, d) = decimal-first (suc v) v [] (omega arith) in
      let l : 0 < length (decimal (suc v) v []) = rw e (omega arith) in
      rw (digit_loop-decimal 64 (suc v) v 0 [] p h (omega arith))
        (precision_loop_none 64 (decimal (suc v) v []) l)
]

abbrev plain : Conversion
plain = record { flags = no_flags; width = 0; precision = none; type = int }

format_integer-decimal :
    (v : ℕ) (negative : Bool)
    → v < 8 ^ 64
    → format_integer v true negative base_d plain
      ≡ sign_text (if negative then some true else none) ++ decimal (suc v) v []
unfolding format_integer sign_of prefix_text output_dup
format_integer-decimal v true h =
    let n = length (decimal (suc v) v []) in
    let z : 0 - n - 0 - 1 ≡ 0 = omega arith in rw (digits_text-decimal v h, z, append-nil) refl
format_integer-decimal v false h =
    let n = length (decimal (suc v) v []) in
    let z : 0 - n - 0 - 0 ≡ 0 = omega arith in rw (digits_text-decimal v h, z, append-nil) refl

vprintf_word :
    (fpu : (d power : ℕ) → ℕ × ℕ × Bool) (mem : Memory) (w : ℕ) (behind args : List ℕ)
    → w < 2 ^ 32
    → vprintf fpu mem (b'%' ∷ b'd' ∷ 0 ∷ behind) (w ∷ args)
      ≡ some (
          format_integer
            (if leb (2 ^ 31) w then 2 ^ 32 - w else w)
            true
            (leb (2 ^ 31) w)
            base_d
            plain)
unfolding vprintf parse_conversion
vprintf_word fpu mem w behind args h =
    let e : w % 2 ^ 32 ≡ w = omega arith in rw (e, append-nil) refl

-- The text that "%d" gives for a 32-bit argument is read back by `atoi`, as the same 32-bit pattern.
pub atoi-vprintf :
    (fpu : (d power : ℕ) → ℕ × ℕ × Bool) (mem : Memory) (w : ℕ) (behind args : List ℕ)
    → w < 2 ^ 32
    → (text : List ℕ) × (vprintf fpu mem (b'%' ∷ b'd' ∷ 0 ∷ behind) (w ∷ args) ≡ some text)
      × (atoi text ≡ w)
atoi-vprintf fpu mem w behind args h = elim (Bool-cases (leb (2 ^ 31) w)) [
  | inl y ↦
      let v = 2 ^ 32 - w in
      let l : 2 ^ 31 ≤ w = ground arith in
      (
        sign_text (some true) ++ decimal (suc v) v [],
        vprintf_word fpu mem w behind args h
            ∙ rw y (ap (λ t. some t) (format_integer-decimal v true (omega arith))),
        atoi-decimal [] (some true) v [] tt (omega arith) refl ∙ omega arith,
      )
  | inr n ↦
      let l : w < 2 ^ 31 = ground arith in
      (
        decimal (suc w) w [],
        vprintf_word fpu mem w behind args h
            ∙ rw n (ap (λ t. some t) (format_integer-decimal w false (omega arith))),
        atoi-decimal [] none w [] tt (omega arith) refl,
      )
]
