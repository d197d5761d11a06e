-- ===== src/CString.antt =====
-- group0/src/lib/string.c: the memory and string functions of the kernel's C library. Memory is the
-- byte at every address; an address is a number, 0 is the null pointer, and the blocks and strings that
-- a call is given do not run past the end of the address space. A loop that ends at a zero byte runs on
-- fuel, and `none` is a failed assertion or a lack of fuel.
pub mod Blocks
pub mod Copies
pub mod Tokens
use cs162hwproj.Prelude.{
  ℕ, zero, suc, ◌+◌, ◌-◌, ◌%◌, Bool, true, false, not, ◌&&◌, ◌||◌, Option, none, some, ltb, leb,
  ◌==◌, if◌then◌else◌, min, ◌>>=◌, ◌>>◌, assert,
}

abbrev pub Memory : Type 0
Memory = ℕ → ℕ

abbrev pub put : Memory → ℕ → ℕ → Memory
put mem p byte = λ q. if q == p then byte else mem q

-- `p != NULL || size == 0`.
abbrev pub assert_block : ℕ → ℕ → Option (Unit {0})
assert_block p size = assert (not (p == 0) || (size == 0))

abbrev pub assert_pointer : ℕ → Option (Unit {0})
assert_pointer p = assert (not (p == 0))

-- `while (size-- > 0) *dst++ = *src++;`, with the value of `dst` behind it.
unfoldable pub copy_up : (size dst src : ℕ) → Memory → ℕ × Memory
copy_up zero dst src mem = (dst, mem)
copy_up (suc size) dst src mem = copy_up size (dst + 1) (src + 1) (put mem dst (mem src))

-- `while (size-- > 0) *--dst = *--src;`.
unfoldable pub copy_down : (size dst src : ℕ) → Memory → ℕ × Memory
copy_down zero dst src mem = (dst, mem)
copy_down (suc size) dst src mem =
    copy_down size (dst - 1) (src - 1) (put mem (dst - 1) (mem (src - 1)))

unfoldable pub memcpy : (dst src size : ℕ) → Memory → Option (ℕ × Memory)
unfolding copy_up
memcpy dst src size mem = do
  assert_block dst size
  assert_block src size
  some (dst, (copy_up size dst src mem).1)

unfoldable pub memmove : (dst src size : ℕ) → Memory → Option (ℕ × Memory)
unfolding copy_up copy_down
memmove dst src size mem = do
  assert_block dst size
  assert_block src size
  some (
      if ltb dst src
      then copy_up size dst src mem
      else copy_down size (dst + size) (src + size) mem)

-- The sign of the result of a comparison.
pub data Sign : Type 0 where
  negative zero_ positive : Sign

abbrev pub is_zero : Sign → Bool
is_zero zero_ = true
is_zero negative = false
is_zero positive = false

unfoldable pub memcmp_loop : (size a b : ℕ) → Memory → Sign
memcmp_loop zero a b mem = zero_
memcmp_loop (suc size) a b mem =
    let rest = memcmp_loop size (a + 1) (b + 1) mem in
    if mem a == mem b then rest else if ltb (mem b) (mem a) then positive else negative

unfoldable pub memcmp : (a b size : ℕ) → Memory → Option Sign
unfolding memcmp_loop
memcmp a b size mem = do assert_block a size; assert_block b size; some (memcmp_loop size a b mem)

unfoldable pub strcmp_loop : (fuel a b : ℕ) → Memory → Option Sign
strcmp_loop zero a b mem = none
strcmp_loop (suc fuel) a b mem =
    let rest = strcmp_loop fuel (a + 1) (b + 1) mem in
    if not (mem a == 0) && (mem a == mem b)
    then rest
    else some
        (if ltb (mem a) (mem b) then negative else if ltb (mem b) (mem a) then positive else zero_)

unfoldable pub strcmp : (fuel a b : ℕ) → Memory → Option Sign
unfolding strcmp_loop
strcmp fuel a b mem = do assert_pointer a; assert_pointer b; strcmp_loop fuel a b mem

-- A null pointer as the result is 0.
unfoldable pub memchr_loop : (size block ch : ℕ) → Memory → ℕ
memchr_loop zero block ch mem = 0
memchr_loop (suc size) block ch mem =
    let rest = memchr_loop size (block + 1) ch mem in if mem block == ch then block else rest

unfoldable pub memchr : (block ch size : ℕ) → Memory → Option ℕ
unfolding memchr_loop
memchr block ch size mem = do assert_block block size; some (memchr_loop size block (ch % 256) mem)

unfoldable pub strchr_loop : (fuel string c : ℕ) → Memory → Option ℕ
strchr_loop zero string c mem = none
strchr_loop (suc fuel) string c mem =
    let rest = strchr_loop fuel (string + 1) c mem in
    if mem string == c then some string else if mem string == 0 then some 0 else rest

unfoldable pub strchr : (fuel string c : ℕ) → Memory → Option ℕ
unfolding strchr_loop
strchr fuel string c mem = do assert_pointer string; strchr_loop fuel string (c % 256) mem

-- The loops of `strcspn` and `strspn`, which stop at a character that is in `stop`, or is not; `fuel` is
-- that of each call of `strchr`.
unfoldable pub span_loop : (rounds fuel length string stop : ℕ) (stop_at : Bool) → Memory → Option ℕ
unfolding strchr
span_loop zero fuel length string stop stop_at mem = none
span_loop (suc rounds) fuel length string stop stop_at mem =
    let rest = span_loop rounds fuel (length + 1) string stop stop_at mem in
    if mem (string + length) == 0
    then some length
    else (strchr fuel stop (mem (string + length)) mem >>= λ found.
        if (if stop_at then not (found == 0) else (found == 0)) then some length else rest)

abbrev pub strcspn : (fuel string stop : ℕ) → Memory → Option ℕ
strcspn fuel string stop mem = span_loop fuel fuel 0 string stop true mem

abbrev pub strspn : (fuel string skip : ℕ) → Memory → Option ℕ
strspn fuel string skip mem = span_loop fuel fuel 0 string skip false mem

unfoldable pub strpbrk_loop : (rounds fuel string stop : ℕ) → Memory → Option ℕ
unfolding strchr
strpbrk_loop zero fuel string stop mem = none
strpbrk_loop (suc rounds) fuel string stop mem =
    let rest = strpbrk_loop rounds fuel (string + 1) stop mem in
    if mem string == 0
    then some 0
    else (strchr fuel stop (mem string) mem >>= λ found. if found == 0 then rest else some string)

abbrev pub strpbrk : (fuel string stop : ℕ) → Memory → Option ℕ
strpbrk fuel string stop mem = strpbrk_loop fuel fuel string stop mem

unfoldable pub strrchr_loop : (fuel string c p : ℕ) → Memory → Option ℕ
strrchr_loop zero string c p mem = none
strrchr_loop (suc fuel) string c p mem =
    let rest = strrchr_loop fuel (string + 1) c (if mem string == c then string else p) mem in
    if mem string == 0 then some p else rest

abbrev pub strrchr : (fuel string c : ℕ) → Memory → Option ℕ
strrchr fuel string c mem = strrchr_loop fuel string (c % 256) 0 mem

unfoldable pub memset_loop : (size dst value : ℕ) → Memory → Memory
memset_loop zero dst value mem = mem
memset_loop (suc size) dst value mem = memset_loop size (dst + 1) value (put mem dst (value % 256))

unfoldable pub memset : (dst value size : ℕ) → Memory → Option (ℕ × Memory)
unfolding memset_loop
memset dst value size mem = do assert_block dst size; some (dst, memset_loop size dst value mem)

unfoldable pub strlen_loop : (fuel p : ℕ) → Memory → Option ℕ
strlen_loop zero p mem = none
strlen_loop (suc fuel) p mem =
    let rest = strlen_loop fuel (p + 1) mem in if mem p == 0 then some p else rest

unfoldable pub strlen : (fuel string : ℕ) → Memory → Option ℕ
unfolding strlen_loop
strlen fuel string mem = do
  assert_pointer string
  p ← strlen_loop fuel string mem
  some (p - string)

unfoldable pub strnlen_loop : (left length string : ℕ) → Memory → ℕ
strnlen_loop zero length string mem = length
strnlen_loop (suc left) length string mem =
    let rest = strnlen_loop left (length + 1) string mem in
    if mem (string + length) == 0 then length else rest

abbrev pub strnlen : (string maxlen : ℕ) → Memory → ℕ
strnlen string maxlen mem = strnlen_loop maxlen 0 string mem

unfoldable pub strlcpy : (fuel dst src size : ℕ) → Memory → Option (ℕ × Memory)
strlcpy fuel dst src size mem = do
  assert_pointer dst
  assert_pointer src
  src_len ← strlen fuel src mem
  if ltb 0 size
      then (do
        let dst_len = if ltb src_len (size - 1) then src_len else size - 1
        (_, mem') ← memcpy dst src dst_len mem
        some (src_len, put mem' (dst + dst_len) 0))
      else some (src_len, mem)

unfoldable pub strlcat : (fuel dst src size : ℕ) → Memory → Option (ℕ × Memory)
strlcat fuel dst src size mem = do
  assert_pointer dst
  assert_pointer src
  src_len ← strlen fuel src mem
  dst_len ← strlen fuel dst mem
  if ltb 0 size && ltb dst_len size
      then (do
        let copy_cnt = if ltb src_len (size - dst_len - 1) then src_len else size - dst_len - 1
        (_, mem') ← memcpy (dst + dst_len) src copy_cnt mem
        some (src_len + dst_len, put mem' (dst + dst_len + copy_cnt) 0))
      else some (src_len + dst_len, mem)

-- The rounds of `strstr` from `i` on; `memcmp` has its own assertions.
unfoldable pub strstr_loop : (rounds i haystack needle needle_len : ℕ) → Memory → Option ℕ
strstr_loop zero i haystack needle needle_len mem = some 0
strstr_loop (suc rounds) i haystack needle needle_len mem =
    let rest = strstr_loop rounds (i + 1) haystack needle needle_len mem in
    memcmp (haystack + i) needle needle_len mem >>= λ order.
    if is_zero order then some (haystack + i) else rest

unfoldable pub strstr : (fuel haystack needle : ℕ) → Memory → Option ℕ
unfolding strstr_loop
strstr fuel haystack needle mem = do
  haystack_len ← strlen fuel haystack mem
  needle_len ← strlen fuel needle mem
  if leb needle_len haystack_len
      then strstr_loop (haystack_len - needle_len + 1) 0 haystack needle needle_len mem
      else some 0
