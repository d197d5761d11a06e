-- ===== src/Arithmetic.antt =====
-- group0/src/lib/arithmetic.c: 64-bit division from the processor's `divl`. Signed numbers are
-- their 64-bit patterns. `none` is the divide error of the processor.
pub mod Bounds
pub mod Unsigned
use cs162hwproj.Prelude.{
  ℕ, ◌+◌, ◌-◌, ◌*◌, ◌/◌, ◌%◌, ◌^◌, Bool, Option, none, some, ltb, leb, ◌==◌, same, if◌then◌else◌,
  ◌>>=◌,
}

abbrev pub two32 : ℕ
two32 = 2 ^ 32

abbrev pub two64 : ℕ
two64 = 2 ^ 64

-- `divl` divides by a divisor of 32 bits; a quotient that needs more, or a zero divisor, traps.
unfoldable pub divl : ℕ → ℕ → Option ℕ
divl n d = if d == 0 then none else if ltb (n / d) two32 then some (n / d) else none

-- One step of `nlz`: if the upper bits are clear, count them and shift them out.
abbrev pub nlz_step : (limit bits : ℕ) → ℕ × ℕ → ℕ × ℕ
nlz_step limit bits (n, x) = if leb x limit then (n + bits, x * 2 ^ bits % two32) else (n, x)

unfoldable pub nlz : ℕ → ℕ
nlz x =
    let (n, y) =
      nlz_step 0x3fffffff 2
        (nlz_step 0x0fffffff 4 (nlz_step 0x00ffffff 8 (nlz_step 0x0000ffff 16 (0, x)))) in
    if leb y 0x7fffffff then n + 1 else n

unfoldable pub udiv64 : ℕ → ℕ → Option ℕ
udiv64 n d =
    if d / two32 == 0
    then (do
      q ← divl ((two32 * (n / two32 % (d % two32)) + n % two32) % two64) (d % two32)
      some ((q + two32 * (n / two32 / (d % two32))) % two64))
    else if ltb n d
    then some 0
    else (do
      let s = nlz (d / two32)
      q₁ ← divl (n / 2) (d * 2 ^ s % two64 / two32)
      let q = q₁ / 2 ^ (31 - s)
      some (
          if ltb ((n + two64 - (q + two64 - 1) % two64 * d % two64) % two64) d
          then (q + two64 - 1) % two64
          else q))

-- The result type is `uint32_t`.
unfoldable pub umod64 : ℕ → ℕ → Option ℕ
umod64 n d = do q ← udiv64 n d; some ((n + two64 - d * q % two64) % two64 % two32)

-- The sign of a pattern, and its negation.
abbrev pub is_negative : ℕ → Bool
is_negative n = leb (2 ^ 63) n

abbrev pub negate : ℕ → ℕ
negate n = (two64 - n) % two64

unfoldable pub sdiv64 : ℕ → ℕ → Option ℕ
sdiv64 n d = do
  q_abs ← udiv64 (if is_negative n then negate n else n) (if is_negative d then negate d else d)
  some (if same (is_negative n) (is_negative d) then q_abs else negate q_abs)

-- The result type is `int32_t`.
unfoldable pub smod64 : ℕ → ℕ → Option ℕ
smod64 n d = do q ← sdiv64 n d; some ((n + two64 - d * q % two64) % two64 % two32)

-- A 32-bit pattern as a 64-bit one, by its sign.
abbrev pub sign_extend : ℕ → ℕ
sign_extend n = if leb (2 ^ 31) n then n + (two64 - two32) else n

abbrev pub divdi3 : ℕ → ℕ → Option ℕ
divdi3 = sdiv64

unfoldable pub moddi3 : ℕ → ℕ → Option ℕ
moddi3 n d = do r ← smod64 n d; some (sign_extend r)

abbrev pub udivdi3 : ℕ → ℕ → Option ℕ
udivdi3 = udiv64

abbrev pub umoddi3 : ℕ → ℕ → Option ℕ
umoddi3 = umod64
