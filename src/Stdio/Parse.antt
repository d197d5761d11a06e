-- ===== src/Stdio/Parse.antt =====
-- group0/src/lib/stdio.c: `parse_conversion`. A format is its characters without the zero byte; `va_list` is the
-- sequence of the 32-bit words that are still to be read, and `none` is a read past their end.
use cs162hwproj.Prelude.{
  ℕ, ◌+◌, ◌-◌, ◌*◌, ◌^◌, Bool, true, false, not, ◌&&◌, Option, none, some, List, [], ◌∷◌, leb, ◌==◌,
  if◌then◌else◌, ◌>>=◌,
}
use cs162hwproj.Stdlib.{isdigit}
use cs162hwproj.Stdio.{
  Flags, ArgType, char, short, int, intmax, long, longlong, ptrdifft, sizet, Conversion,
}

abbrev pub next_word : List ℕ → Option (ℕ × List ℕ)
next_word [] = none
next_word (w ∷ args) = some (w, args)

abbrev pub no_flags : Flags
no_flags = record {
  minus = false;
  plus = false;
  space = false;
  pound = false;
  zeros = false;
  group = false;
}

-- The `switch` of the loop over the flags; `none` is its default case.
abbrev pub add_flag : ℕ → Flags → Option Flags
add_flag ch f =
    if ch == b'-'
    then some (record f { minus = true })
    else if ch == b'+'
    then some (record f { plus = true })
    else if ch == b' '
    then some (record f { space = true })
    else if ch == b'#'
    then some (record f { pound = true })
    else if ch == b'0'
    then some (record f { zeros = true })
    else if ch == b'\''
    then some (record f { group = true })
    else none

unfoldable pub flag_loop : Flags → List ℕ → Flags × List ℕ
flag_loop f [] = (f, [])
flag_loop f (ch ∷ format) = elim (add_flag ch f) [
  | none ↦ (f, ch ∷ format)
  | some f' ↦ flag_loop f' format
]

-- MINUS overrides ZERO, and PLUS overrides SPACE.
abbrev pub override : Flags → Flags
override f = record f { zeros = f.zeros && not f.minus; space = f.space && not f.plus }

unfoldable pub number_loop : (n : ℕ) → List ℕ → ℕ × List ℕ
number_loop n [] = (n, [])
number_loop n (ch ∷ format) =
    if isdigit ch then number_loop (n * 10 + ch - 48) format else (n, ch ∷ format)

abbrev pub is_next : ℕ → List ℕ → Bool
is_next k [] = false
is_next k (ch ∷ format) = ch == k

abbrev pub after : List ℕ → List ℕ
after [] = []
after (ch ∷ format) = format

-- Is an `int` argument negative?
abbrev pub is_negative_word : ℕ → Bool
is_negative_word w = leb (2 ^ 31) w

-- The field width, and the flags behind it.
unfoldable pub parse_width : Flags → List ℕ → (args : List ℕ) → Option (ℕ × Flags × List ℕ × List ℕ)
unfolding number_loop
parse_width f format args =
    if is_next b'*' format
    then (do
      (w, args') ← next_word args
      some (
          if is_negative_word w
          then (2 ^ 32 - w, record f { minus = true }, after format, args')
          else (w, f, after format, args')))
    else (let (width, format') = number_loop 0 format in some (width, f, format', args))

unfoldable pub parse_precision : List ℕ → (args : List ℕ) → Option (Option ℕ × List ℕ × List ℕ)
unfolding number_loop
parse_precision format args =
    if not (is_next b'.' format)
    then some (none, format, args)
    else if is_next b'*' (after format)
    then (do
      (w, args') ← next_word args
      some (if is_negative_word w then none else some w, after (after format), args'))
    else (let (precision, format') = number_loop 0 (after format) in
        some (some precision, format', args))

-- A precision overrides ZERO.
abbrev pub without_zeros : Option ℕ → Flags → Flags
without_zeros none f = f
without_zeros (some precision) f = record f { zeros = false }

unfoldable pub parse_type : List ℕ → ArgType × List ℕ
parse_type [] = (int, [])
parse_type (ch ∷ format) =
    if ch == b'h'
    then (if is_next b'h' format then (char, after format) else (short, format))
    else if ch == b'j'
    then (intmax, format)
    else if ch == b'l'
    then (if is_next b'l' format then (longlong, after format) else (long, format))
    else if ch == b't'
    then (ptrdifft, format)
    else if ch == b'z'
    then (sizet, format)
    else (int, ch ∷ format)

unfoldable pub parse_conversion : List ℕ → (args : List ℕ) → Option (Conversion × List ℕ × List ℕ)
unfolding flag_loop parse_width parse_precision parse_type
parse_conversion format args = do
  let (flags, format1) = flag_loop no_flags format
  (width, flags', format2, args') ← parse_width (override flags) format1 args
  (precision, format3, args'') ← parse_precision format2 args'
  let (type, format4) = parse_type format3
  some (
    record {
      flags = without_zeros precision flags';
      width = width;
      precision = precision;
      type = type;
    },
    format4,
    args'',
  )
