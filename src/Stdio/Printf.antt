-- ===== src/Stdio/Printf.antt =====
-- group0/src/lib/stdio.c: `__vprintf` and its callers. The arithmetic on `double` is the parameter `fpu`: of the bits
-- of `d` and a power of ten it gives the absolute values of `first` and `rest`, and whether `d` is negative. A string argument does not overlap the
-- buffer that is written. A format is the bytes from its address on, the zero byte that ends it and what is behind it
-- included; a result of none is a read past these bytes, or of an argument that is not given.
use cs162hwproj.Prelude.{
  ℕ, zero, suc, ◌+◌, ◌-◌, ◌*◌, ◌/◌, ◌%◌, ◌^◌, Bool, true, false, not, ◌||◌, Option, none, some,
  List, [], ◌∷◌, ◌++◌, ltb, leb, ◌==◌, if◌then◌else◌, length, min, ◌>>=◌,
}
use cs162hwproj.CString.{Memory, put, strnlen}
use cs162hwproj.Stdio.{
  ArgType, char, short, int, intmax, long, longlong, ptrdifft, sizet, Conversion, IntegerBase,
  base_d, base_o, base_x, base_upper_x, format_integer, format_string,
}
use cs162hwproj.Stdio.Parse.{next_word, no_flags, is_next, after, parse_conversion}

-- An argument of 64 bits is two words, the lower one first.
abbrev pub next_long_long : List ℕ → Option (ℕ × List ℕ)
next_long_long args = do
  (low, args') ← next_word args
  (high, args'') ← next_word args'
  some (low + high * 2 ^ 32, args'')

-- The bits of the argument that are printed.
abbrev pub type_bits : ArgType → ℕ
type_bits char = 8
type_bits short = 16
type_bits int = 32
type_bits intmax = 64
type_bits long = 32
type_bits longlong = 64
type_bits ptrdifft = 32
type_bits sizet = 32

unfoldable pub next_integer : ArgType → List ℕ → Option (ℕ × List ℕ)
next_integer type args =
    if type_bits type == 64
    then next_long_long args
    else (do (w, args') ← next_word args; some (w % 2 ^ type_bits type, args'))

-- A signed value as its absolute value, and whether it is negative.
abbrev pub is_negative_value : ArgType → ℕ → Bool
is_negative_value type v = leb (2 ^ (type_bits type - 1)) v

unfoldable pub absolute : ArgType → ℕ → ℕ
absolute type v = if is_negative_value type v then 2 ^ type_bits type - v else v

abbrev pub unsigned_base : ℕ → IntegerBase
unsigned_base k =
    if k == b'o'
    then base_o
    else if k == b'u'
    then base_d
    else if k == b'x'
    then base_x
    else base_upper_x

-- "(null)", "<<no %", " in kernel>>" and " conversion>>".
abbrev pub null_text : List ℕ
null_text = 40 ∷ 110 ∷ 117 ∷ 108 ∷ 108 ∷ 41 ∷ []

abbrev pub no_text : List ℕ
no_text = 60 ∷ 60 ∷ 110 ∷ 111 ∷ 32 ∷ 37 ∷ []

abbrev pub in_kernel_text : List ℕ
in_kernel_text = 32 ∷ 105 ∷ 110 ∷ 32 ∷ 107 ∷ 101 ∷ 114 ∷ 110 ∷ 101 ∷ 108 ∷ 62 ∷ 62 ∷ []

abbrev pub conversion_text : List ℕ
conversion_text = 32 ∷ 99 ∷ 111 ∷ 110 ∷ 118 ∷ 101 ∷ 114 ∷ 115 ∷ 105 ∷ 111 ∷ 110 ∷ 62 ∷ 62 ∷ []

abbrev pub is_unsigned : ℕ → Bool
is_unsigned k = (k == b'o') || (k == b'u') || (k == b'x') || (k == b'X')

abbrev pub is_unsupported : ℕ → Bool
is_unsupported k = (k == b'e') || (k == b'E') || (k == b'g') || (k == b'G') || (k == b'n')

-- `strnlen (s, c.precision)`; a precision of -1 is SIZE_MAX.
abbrev pub string_limit : Option ℕ → ℕ
string_limit none = 2 ^ 32 - 1
string_limit (some precision) = precision

abbrev pub chars_at : (p size : ℕ) → Memory → List ℕ
chars_at p zero mem = []
chars_at p (suc size) mem = mem p ∷ chars_at (p + 1) size mem

abbrev pub float_precision : Option ℕ → ℕ
float_precision none = 6
float_precision (some precision) = min precision 9

-- `powers[precision]`; the table starts with 0.
abbrev pub power_of : ℕ → ℕ
power_of precision = if precision == 0 then 0 else 10 ^ precision

module _ (fpu : (d power : ℕ) → ℕ × ℕ × Bool) (mem : Memory) where
  unfoldable pub convert_float : Conversion → List ℕ → Option (List ℕ × List ℕ)
  convert_float c args = do
    (d, args') ← next_long_long args
    let precision = float_precision c.precision
    let (first, rest, negative) = fpu d (power_of precision)
    let whole = format_integer first true negative base_d (record c { precision = none })
    let behind = some (if precision == 0 then 1 else precision)
    let decimals = format_integer rest false false base_d (record c { precision = behind })
    some (whole ++ (b'.' ∷ decimals), args')

  -- The `switch` on the conversion `k`: the characters put out, and the arguments left.
  unfoldable pub convert : (k : ℕ) → Conversion → List ℕ → Option (List ℕ × List ℕ)
  unfolding next_integer absolute convert_float
  convert k c args =
      if (k == b'd') || (k == b'i')
      then (do
        (v, args') ← next_integer c.type args
        some (format_integer (absolute c.type v) true (is_negative_value c.type v) base_d c, args'))
      else if is_unsigned k
      then (do
        (v, args') ← next_integer c.type args
        some (format_integer v false false (unsigned_base k) c, args'))
      else if k == b'c'
      then (do (w, args') ← next_word args; some (format_string (w % 2 ^ 8 ∷ []) c, args'))
      else if k == b's'
      then (do
        (s, args') ← next_word args
        let string =
            if s == 0 then null_text else chars_at s (strnlen s (string_limit c.precision) mem) mem
        some (format_string string c, args'))
      else if k == b'p'
      then (do
        (p, args') ← next_word args
        let c' = record c { flags = record no_flags { pound = true } }
        some (format_integer p false false base_x c', args'))
      else if k == b'f'
      then convert_float c args
      else if is_unsupported k
      then some (no_text ++ (k ∷ in_kernel_text), args)
      else some (no_text ++ (k ∷ conversion_text), args)

  abbrev pub Next : Type 0
  Next = List ℕ → (args : List ℕ) → Option (List ℕ)

  -- One conversion behind its `%`, and then the rest. A zero byte takes the default case like another character, and
  -- `format++` steps over it.
  unfoldable pub converted : Next → List ℕ → (args : List ℕ) → Option (List ℕ)
  unfolding convert
  converted next format args = do
    (c, format', args') ← parse_conversion format args
    elim format' [
      | [] ↦ none
      | k ∷ behind ↦ do
        (text, args'') ← convert k c args'
        text' ← next behind args''
        some (text ++ text')
    ]

  -- What `__vprintf` puts out. Each round takes a byte of the format at least.
  unfoldable pub vprintf_loop : (fuel : ℕ) → Next
  unfolding converted
  vprintf_loop zero format args = none
  vprintf_loop (suc fuel) [] args = none
  vprintf_loop (suc fuel) (ch ∷ format) args =
      let plain = vprintf_loop fuel format args in
      let percent = vprintf_loop fuel (after format) args in
      if ch == 0
      then some []
      else if not (ch == b'%')
      then (do text ← plain; some (ch ∷ text))
      else if is_next b'%' format
      then (do text ← percent; some (b'%' ∷ text))
      else converted (vprintf_loop fuel) format args

  unfoldable pub vprintf : (format args : List ℕ) → Option (List ℕ)
  unfolding vprintf_loop
  vprintf format args = vprintf_loop (suc (length format)) format args

-- `struct vsnprintf_aux`, and the memory that the helper writes. `length` and `max_length` are the patterns of an `int`.
pub record Aux : Type 0 where
  pub p : ℕ
  pub length : ℕ
  pub max_length : ℕ
  pub mem : Memory

-- `<` on two patterns of an `int`.
abbrev pub int_lt : ℕ → ℕ → Bool
int_lt a b = ltb ((a + 2 ^ 31) % 2 ^ 32) ((b + 2 ^ 31) % 2 ^ 32)

unfoldable pub vsnprintf_helper : ℕ → Aux → Aux
vsnprintf_helper ch aux =
    let aux' = record aux { length = (aux.length + 1) % 2 ^ 32 } in
    if int_lt aux.length aux.max_length
    then record aux' { mem = put aux.mem aux.p ch; p = aux.p + 1 }
    else aux'

-- Every character that `__vprintf` puts out goes to the helper.
unfoldable pub output_all : List ℕ → Aux → Aux
output_all [] aux = aux
output_all (ch ∷ text) aux = output_all text (vsnprintf_helper ch aux)

unfoldable pub vsnprintf :
    (fpu : (d power : ℕ) → ℕ × ℕ × Bool)
    → (buffer buf_size : ℕ) → (format args : List ℕ) → Memory
    → Option (ℕ × Memory)
vsnprintf fpu buffer buf_size format args mem = do
  text ← vprintf fpu mem format args
  let max_length = if ltb 0 buf_size then (buf_size - 1) % 2 ^ 32 else 0
  let aux = output_all text (record { p = buffer; length = 0; max_length = max_length; mem = mem })
  some (aux.length, if ltb 0 buf_size then put aux.mem aux.p 0 else aux.mem)

-- The number and the unit of `print_human_readable_size`; the units are counted from "bytes" to "TB".
unfoldable pub human_loop : (units_left size unit : ℕ) → ℕ × ℕ
human_loop zero size unit = (size, unit)
human_loop (suc units_left) size unit =
    let rest = human_loop units_left (size / 1024) (unit + 1) in
    if leb 1024 size then rest else (size, unit)

unfoldable pub human_readable_size : (size : ℕ) → ℕ × ℕ
unfolding human_loop
human_readable_size size = human_loop 4 size 0
