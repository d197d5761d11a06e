-- ===== src/Examples/Printing.antt =====
-- Inputs of the printing functions of stdio.c.
use cs162hwproj.Prelude.{
  ℕ, ◌+◌, ◌-◌, ◌^◌, ◌<◌, ◌≤◌, ◌≡◌, ◌⊎◌, refl, Bool, true, false, none, some, List, [], ◌∷◌, ◌++◌,
  arith, ◌>>=◌,
}
use cs162hwproj.CString.{Memory}
use cs162hwproj.Stdlib.{atoi}
use cs162hwproj.Stdio.{
  Conversion, base_x, format_integer, prefix_text, int, output_dup, digits_text, precision_loop,
  digit_loop, sign_of,
}
use cs162hwproj.Stdio.Parse.{no_flags, parse_conversion}
use cs162hwproj.Stdio.Printf.{vprintf, vprintf_loop, vsnprintf}
use cs162hwproj.Stdio.Buffer.{printed, vsnprintf-printed}
use cs162hwproj.Stdio.Decimal.{atoi-vprintf}
use cs162hwproj.Stdio.Text.{escaped, no_conversion, vprintf_open}

abbrev no_fpu : (d power : ℕ) → ℕ × ℕ × Bool
no_fpu d power = (0, 0, false)

abbrev blank : Memory
blank q = 0

-- "%#8x".
abbrev hex_conversion : Conversion
hex_conversion = record {
  flags = record no_flags { pound = true };
  width = 8;
  precision = none;
  type = int;
}

hex_text :
    format_integer 255 false false base_x hex_conversion
    ≡ b' ' ∷ b' ' ∷ b' ' ∷ b' ' ∷ b'0' ∷ b'x' ∷ b'f' ∷ b'f' ∷ []
unfolding format_integer output_dup digits_text precision_loop digit_loop prefix_text sign_of
hex_text = refl

-- "%-5d|" of -42.
left_text :
    vprintf no_fpu blank (b'%' ∷ b'-' ∷ b'5' ∷ b'd' ∷ b'|' ∷ 0 ∷ []) ((2 ^ 32 - 42) ∷ [])
    ≡ some (b'-' ∷ b'4' ∷ b'2' ∷ b' ' ∷ b' ' ∷ b'|' ∷ [])
unfolding vprintf parse_conversion format_integer output_dup digits_text precision_loop digit_loop
    prefix_text sign_of
left_text = refl

hello :
    vprintf no_fpu blank (b'h' ∷ b'%' ∷ b'%' ∷ b'i' ∷ 0 ∷ []) [] ≡ some (b'h' ∷ b'%' ∷ b'i' ∷ [])
unfolding vprintf
hello = refl

vsnprintf-printed_example :
    (mem' : Memory) × (vsnprintf no_fpu 100 3 (b'h' ∷ b'%' ∷ b'%' ∷ b'i' ∷ 0 ∷ []) [] blank
      ≡ some (3, mem'))
    × ((q : ℕ) → mem' q ≡ printed 100 3 (b'h' ∷ b'%' ∷ b'i' ∷ []) blank q)
    × ((q : ℕ) → (q < 100) ⊎ (100 + 3 ≤ q) → mem' q ≡ blank q)
vsnprintf-printed_example =
    vsnprintf-printed no_fpu 100 3 (b'h' ∷ b'%' ∷ b'%' ∷ b'i' ∷ 0 ∷ []) [] blank
      (b'h' ∷ b'%' ∷ b'i' ∷ []) (omega arith) (omega arith) hello

atoi-vprintf_example :
    (text : List ℕ) × (vprintf no_fpu blank (b'%' ∷ b'd' ∷ 0 ∷ []) ((2 ^ 32 - 42) ∷ []) ≡ some text)
    × (atoi text ≡ 2 ^ 32 - 42)
atoi-vprintf_example = atoi-vprintf no_fpu blank (2 ^ 32 - 42) [] [] (omega arith)

-- "5%", and "x" behind it.
vprintf_open_example :
    vprintf_loop no_fpu blank 5 (escaped (b'5' ∷ []) ++ (b'%' ∷ 0 ∷ b'x' ∷ 0 ∷ [])) [] ≡ (do
      more ← vprintf_loop no_fpu blank 3 (b'x' ∷ 0 ∷ []) []
      some ((b'5' ∷ []) ++ (no_conversion ++ more)))
vprintf_open_example = vprintf_open no_fpu blank 3 (b'5' ∷ []) (b'x' ∷ 0 ∷ []) [] (omega arith, tt)
