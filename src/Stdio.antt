-- ===== src/Stdio.antt =====
-- group0/src/lib/stdio.c: what a conversion of `printf` writes. A function returns the characters that it passes to
-- `output`, in that order. An `int` field is a number below 2^31; a precision of none is -1.
pub mod Parse
pub mod Printf
pub mod Digits
pub mod Zeros
pub mod Rendering
pub mod Buffer
pub mod Text
pub mod Decimal
use cs162hwproj.Prelude.{
  ℕ, zero, suc, ◌+◌, ◌-◌, ◌/◌, ◌%◌, Bool, true, false, not, ◌&&◌, ◌||◌, Option, none, some, List,
  [], ◌∷◌, ◌++◌, ltb, ◌==◌, if◌then◌else◌, length, replicate, get_or,
}

-- MINUS, PLUS, SPACE, POUND, ZERO and GROUP.
pub record Flags : Type 0 where
  pub minus : Bool
  pub plus : Bool
  pub space : Bool
  pub pound : Bool
  pub zeros : Bool
  pub group : Bool

pub data ArgType : Type 0 where
  char short int intmax long longlong ptrdifft sizet : ArgType

pub record Conversion : Type 0 where
  pub flags : Flags
  pub width : ℕ
  pub precision : Option ℕ
  pub type : ArgType

pub record IntegerBase : Type 0 where
  pub base : ℕ
  pub digits : List ℕ
  pub x : Option ℕ
  pub grouping : ℕ

abbrev pub lower_digits : List ℕ
lower_digits = 48 ∷ 49 ∷ 50 ∷ 51 ∷ 52 ∷ 53 ∷ 54 ∷ 55 ∷ 56 ∷ 57 ∷ 97 ∷ 98 ∷ 99 ∷ 100 ∷ 101 ∷ 102 ∷ []

abbrev pub upper_digits : List ℕ
upper_digits = 48 ∷ 49 ∷ 50 ∷ 51 ∷ 52 ∷ 53 ∷ 54 ∷ 55 ∷ 56 ∷ 57 ∷ 65 ∷ 66 ∷ 67 ∷ 68 ∷ 69 ∷ 70 ∷ []

abbrev pub base_d : IntegerBase
base_d = record {
  base = 10;
  digits = 48 ∷ 49 ∷ 50 ∷ 51 ∷ 52 ∷ 53 ∷ 54 ∷ 55 ∷ 56 ∷ 57 ∷ [];
  x = none;
  grouping = 3;
}

abbrev pub base_o : IntegerBase
base_o = record {
  base = 8;
  digits = 48 ∷ 49 ∷ 50 ∷ 51 ∷ 52 ∷ 53 ∷ 54 ∷ 55 ∷ [];
  x = none;
  grouping = 3;
}

abbrev pub base_x : IntegerBase
base_x = record { base = 16; digits = lower_digits; x = some b'x'; grouping = 4 }

abbrev pub base_upper_x : IntegerBase
base_upper_x = record { base = 16; digits = upper_digits; x = some b'X'; grouping = 4 }

-- `sign`, where there is one.
unfoldable pub sign_of : Flags → (is_signed negative : Bool) → List ℕ
sign_of f is_signed negative =
    if not is_signed
    then []
    else if f.plus
    then (if negative then b'-' else b'+') ∷ []
    else if f.space
    then (if negative then b'-' else b' ') ∷ []
    else if negative
    then b'-' ∷ []
    else []

-- `0x` or `0X`, where it is included.
abbrev pub prefix_of : Option ℕ → List ℕ
prefix_of none = []
prefix_of (some x) = b'0' ∷ x ∷ []

unfoldable pub prefix_text : Flags → IntegerBase → (value : ℕ) → List ℕ
prefix_text f b value = if f.pound && ltb 0 value then prefix_of b.x else []

-- `buf`, with the character that was stored last in front, as it is put out. A value of less than 64 bits has
-- fewer digits than there is fuel.
unfoldable pub digit_loop :
    Flags → IntegerBase → (fuel value digit_cnt : ℕ) → (buf : List ℕ) → List ℕ
digit_loop f b zero value digit_cnt buf = buf
digit_loop f b (suc fuel) value digit_cnt buf =
    let grouped =
      if f.group && (ltb 0 digit_cnt && (digit_cnt % b.grouping == 0)) then b',' ∷ buf else buf in
    let rest =
      digit_loop f b fuel (value / b.base) (digit_cnt + 1)
        (get_or b.digits (value % b.base) 0 ∷ grouped) in
    if value == 0 then buf else rest

-- `while (cp - buf < precision && cp < buf + sizeof buf - 1) *cp++ = '0';`
unfoldable pub precision_loop : (fuel precision : ℕ) → (buf : List ℕ) → List ℕ
precision_loop zero precision buf = buf
precision_loop (suc fuel) precision buf =
    let rest = precision_loop fuel precision (b'0' ∷ buf) in
    if ltb (length buf) precision && ltb (length buf) 63 then rest else buf

abbrev pub rendered_precision : Option ℕ → ℕ
rendered_precision none = 1
rendered_precision (some precision) = precision

abbrev pub starts_with_zero : List ℕ → Bool
starts_with_zero [] = false
starts_with_zero (c ∷ buf) = c == b'0'

-- The content of the buffer when it is put out.
unfoldable pub digits_text : Flags → IntegerBase → (precision : Option ℕ) → (value : ℕ) → List ℕ
digits_text f b precision value =
    let buf = precision_loop 64 (rendered_precision precision) (digit_loop f b 64 value 0 []) in
    if f.pound && ((b.base == 8) && not (starts_with_zero buf)) then b'0' ∷ buf else buf

unfoldable pub output_dup : (ch cnt : ℕ) → List ℕ
output_dup ch cnt = replicate cnt ch

unfoldable pub format_integer :
    (value : ℕ) → (is_signed negative : Bool) → IntegerBase → Conversion → List ℕ
format_integer value is_signed negative b c =
    let f = c.flags in
    let sign = sign_of f is_signed negative in
    let x = prefix_text f b value in
    let buf = digits_text f b c.precision value in
    let pad_cnt = c.width - length buf - length x - length sign in
    (if not (f.minus || f.zeros) then output_dup b' ' pad_cnt else [])
    ++ (sign
        ++ (x
            ++ ((if f.zeros then output_dup b'0' pad_cnt else [])
                ++ (buf ++ (if f.minus then output_dup b' ' pad_cnt else [])))))

unfoldable pub format_string : (string : List ℕ) → Conversion → List ℕ
unfolding output_dup
format_string string c =
    let pad = output_dup b' ' (c.width - length string) in
    (if ltb (length string) c.width && not c.flags.minus then pad else [])
    ++ (string ++ (if ltb (length string) c.width && c.flags.minus then pad else []))
