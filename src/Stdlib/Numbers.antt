-- ===== src/Stdlib/Numbers.antt =====
-- `atoi` of stdlib.c reads back a number that is written in decimal.
use cs162hwproj.Prelude.{
  ℕ, zero, suc, ◌+◌, ◌-◌, ◌*◌, ◌/◌, ◌%◌, ◌^◌, ◌<◌, ◌≤◌, ◌≡◌, refl, ap, ◌∙◌, Bool, true, false, not,
  inl, inr, Option, none, some, List, [], ◌∷◌, ◌++◌, arith, ltb, ◌==◌, if◌then◌else◌, Bool-cases,
}
use cs162hwproj.Stdlib.{isspace, isdigit, skip_space, digits_loop, parse_sign, atoi}

-- The decimal digits of a number below the fuel, in front of other characters.
abbrev pub decimal : (fuel n : ℕ) → List ℕ → List ℕ
decimal zero n rest = rest
decimal (suc fuel) n rest =
    let longer = decimal fuel (n / 10) ((48 + n % 10) ∷ rest) in
    if ltb n 10 then (48 + n) ∷ rest else longer

digits_loop-digit :
    (m d : ℕ) (rest : List ℕ)
    → d < 10
    → 10 * m + d ≤ 2 ^ 31
    → digits_loop ((48 + d) ∷ rest) ((2 ^ 32 - m) % 2 ^ 32)
      ≡ digits_loop rest ((2 ^ 32 - (10 * m + d)) % 2 ^ 32)
unfolding digits_loop
digits_loop-digit m d rest p q =
    let i : isdigit (48 + d) ≡ true = ground arith in rw i (ap (digits_loop rest) (omega arith))

digits_loop-decimal :
    (fuel n : ℕ) (rest : List ℕ)
    → n < fuel
    → n ≤ 2 ^ 31
    → digits_loop (decimal fuel n rest) 0 ≡ digits_loop rest ((2 ^ 32 - n) % 2 ^ 32)
digits_loop-decimal zero n rest p q = absurd (omega arith)
digits_loop-decimal (suc fuel) n rest p q = elim (Bool-cases (ltb n 10)) [
  | inl y ↦
      let z : 10 * 0 + n ≡ n = omega arith in
      rw y (rw z at (digits_loop-digit 0 n rest (ground arith) (omega arith)))
  | inr k ↦
      let l : 10 ≤ n = ground arith in
      let e : 10 * (n / 10) + n % 10 ≡ n = omega arith in
      rw k (
        digits_loop-decimal fuel (n / 10) ((48 + n % 10) ∷ rest) (omega arith) (omega arith)
        ∙ rw e at (digits_loop-digit (n / 10) (n % 10) rest (omega arith) (omega arith)))
]

-- A number starts with a digit.
pub decimal-first :
    (fuel n : ℕ) (rest : List ℕ)
    → n < fuel
    → (c : ℕ) × (t : List ℕ) × (decimal fuel n rest ≡ c ∷ t) × (isdigit c ≡ true)
decimal-first zero n rest p = absurd (omega arith)
decimal-first (suc fuel) n rest p = elim (Bool-cases (ltb n 10)) [
  | inl y ↦ (48 + n, rest, rw y refl, ground arith)
  | inr k ↦
      let l : 10 ≤ n = ground arith in
      let (c, t, e, d) = decimal-first fuel (n / 10) ((48 + n % 10) ∷ rest) (omega arith) in
      (c, t, rw k e, d)
]

-- A sign, or none.
abbrev pub sign_text : Option Bool → List ℕ
sign_text none = []
sign_text (some negative) = (if negative then 45 else 43) ∷ []

abbrev pub is_minus : Option Bool → Bool
is_minus none = false
is_minus (some negative) = negative

abbrev pub AllSpaces : List ℕ → Type 0
AllSpaces [] = Unit
AllSpaces (c ∷ s) = (isspace c ≡ true) × AllSpaces s

abbrev pub no_digit : List ℕ → Bool
no_digit [] = true
no_digit (c ∷ s) = not (isdigit c)

skip_space-append : (s t : List ℕ) → AllSpaces s → skip_space (s ++ t) ≡ skip_space t
unfolding skip_space
skip_space-append [] t h = refl
skip_space-append (c ∷ s) t (p, h) = rw p (skip_space-append s t h)

digits_loop-stop : (rest : List ℕ) (v : ℕ) → no_digit rest ≡ true → digits_loop rest v ≡ v
unfolding digits_loop
digits_loop-stop [] v h = refl
digits_loop-stop (c ∷ s) v h = let d : isdigit c ≡ false = ground arith in rw d refl

parse_sign-sign :
    (sign : Option Bool) (n : ℕ) (rest : List ℕ)
    → parse_sign (skip_space (sign_text sign ++ decimal (suc n) n rest))
      ≡ (is_minus sign, decimal (suc n) n rest)
unfolding parse_sign skip_space
parse_sign-sign (some true) n rest = refl
parse_sign-sign (some false) n rest = refl
parse_sign-sign none n rest =
    let (c, t, e, d) = decimal-first (suc n) n rest (omega arith) in
    let space : isspace c ≡ false = ground arith in
    let plus : (c == 43) ≡ false = ground arith in
    let minus : (c == 45) ≡ false = ground arith in
    rw (e, skip_space, space, parse_sign, plus, minus) refl

-- `atoi` of white space, a sign or none, a number of at most 2^31 in decimal, and anything that does not start
-- with a digit is the number with its sign, as a 32-bit pattern.
pub atoi-decimal :
    (spaces : List ℕ) (sign : Option Bool) (n : ℕ) (rest : List ℕ)
    → AllSpaces spaces
    → n ≤ 2 ^ 31
    → no_digit rest ≡ true
    → atoi (spaces ++ (sign_text sign ++ decimal (suc n) n rest))
      ≡ (if is_minus sign then (2 ^ 32 - n) % 2 ^ 32 else n)
unfolding atoi
atoi-decimal spaces sign n rest a p d =
    let b =
      digits_loop-decimal (suc n) n rest (omega arith) p
      ∙ digits_loop-stop rest ((2 ^ 32 - n) % 2 ^ 32) d in
    rw
      (
        skip_space-append spaces (sign_text sign ++ decimal (suc n) n rest) a,
        parse_sign-sign sign n rest,
        b,
      )
      (elim (Bool-cases (is_minus sign)) [ inl y ↦ rw y refl | inr k ↦ rw k (omega arith) ])
