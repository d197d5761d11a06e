-- ===== src/Stdio/Rendering.antt =====
-- `format_integer` of stdio.c against the documented form of a number: padding, sign, prefix, digits.
use cs162hwproj.Prelude.{
  ℕ, ◌+◌, ◌-◌, ◌≤◌, ◌≡◌, ltb, ◌==◌, get_or, Bool, true, false, ◌&&◌, List, [], ◌∷◌, ◌++◌,
  if◌then◌else◌, length, min, max, replicate,
}
use cs162hwproj.Stdio.{Flags, IntegerBase, Conversion, rendered_precision}
use cs162hwproj.Stdio.Digits.{value_from}
use cs162hwproj.Stdio.Zeros.{IsSignificant, NoComma}

-- A sign is shown for a negative value, or on request.
abbrev pub shown_sign : Flags → (is_signed negative : Bool) → List ℕ
shown_sign f is_signed negative =
    if is_signed && negative
    then b'-' ∷ []
    else if is_signed && f.plus
    then b'+' ∷ []
    else if is_signed && f.space
    then b' ' ∷ []
    else []

-- 0x or 0X, as the hexadecimal digits are small or capital letters, on request and for no 0.
abbrev pub shown_prefix : Flags → IntegerBase → (value : ℕ) → List ℕ
shown_prefix f b value =
    if f.pound && ltb 0 value && (b.base == 16)
    then b'0' ∷ (if get_or b.digits 10 0 == b'a' then b'x' else b'X') ∷ []
    else []

pub record Rendered (b : IntegerBase) (c : Conversion) (value : ℕ) (sign prefix text : List ℕ)
    : Type 0 where
  pub left : ℕ
  pub zeros : ℕ
  pub right : ℕ
  pub digits : List ℕ
  pub shape :
      text
      ≡ replicate left b' '
        ++ (sign ++ (prefix ++ (replicate zeros b'0' ++ (digits ++ replicate right b' '))))
  pub denotes : value_from b.base 0 digits ≡ value
  pub lead : ℕ
  pub significant : List ℕ
  pub digits_are : digits ≡ replicate lead b'0' ++ significant
  pub is_significant : IsSignificant value significant
  pub ungrouped : c.flags.group ≡ false → NoComma significant
  pub precise :
      lead
      ≡ max
          (min (rendered_precision c.precision) 63 - length significant)
          (if c.flags.pound && (b.base == 8) then 1 else 0)
  pub fits : length digits ≤ 64
  pub wide : length text ≡ max c.width (length sign + length prefix + length digits)
  pub to_left : c.flags.minus ≡ true → (left ≡ 0) × (zeros ≡ 0)
  pub to_right : c.flags.minus ≡ false → right ≡ 0
  pub with_zeros : c.flags.zeros ≡ true → left ≡ 0
  pub no_zeros : c.flags.zeros ≡ false → zeros ≡ 0
