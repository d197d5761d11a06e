-- ===== src/Bitmap.antt =====
-- group0/src/lib/kernel/bitmap.c: an array of bits in 32-bit elements. `none` is a kernel panic
-- (a failed `ASSERT`). What `malloc` returns is an argument. `size_t` is 32 bits wide.
pub mod Bit
pub mod Range
pub mod Scan
use Prim.Native.Nat.{bit_and, bit_or, bit_xor}
use cs162hwproj.Prelude.{
  ℕ, zero, suc, ◌+◌, ◌-◌, ◌*◌, ◌/◌, ◌%◌, ◌^◌, ◌≡◌, Bool, true, false, not, Option, none, some, List,
  ltb, leb, ◌==◌, same, if◌then◌else◌, get_or, set, ◌>>=◌, ◌>>◌, assert,
}
use cs162hwproj.Prelude.Bits.{complement}

-- `struct bitmap`; `bits` is the memory that the pointer of that name leads to.
pub record Bitmap : Type 0 where
  pub bit_cnt : ℕ
  pub bits : List ℕ

-- `ELEM_BITS`, `sizeof (elem_type)` and `sizeof (struct bitmap)` on the 32-bit machine.
abbrev pub elem_bits : ℕ
elem_bits = 32

abbrev pub elem_size : ℕ
elem_size = 4

abbrev pub struct_size : ℕ
struct_size = 8

-- `BITMAP_ERROR`, that is `SIZE_MAX`.
abbrev pub bitmap_error : ℕ
bitmap_error = 2 ^ 32 - 1

-- Addition of two values of `size_t`.
abbrev pub add_size : ℕ → ℕ → ℕ
add_size a b = (a + b) % 2 ^ 32

abbrev pub elem_idx : ℕ → ℕ
elem_idx bit_idx = bit_idx / elem_bits

abbrev pub bit_mask : ℕ → ℕ
bit_mask bit_idx = 2 ^ (bit_idx % elem_bits)

-- `DIV_ROUND_UP (bit_cnt, ELEM_BITS)`.
unfoldable pub elem_cnt : ℕ → ℕ
elem_cnt bit_cnt = add_size bit_cnt (elem_bits - 1) / elem_bits

unfoldable pub byte_cnt : ℕ → ℕ
unfolding elem_cnt
byte_cnt bit_cnt = (elem_size * elem_cnt bit_cnt) % 2 ^ 32

unfoldable pub buf_size : ℕ → ℕ
unfolding byte_cnt
buf_size bit_cnt = add_size struct_size (byte_cnt bit_cnt)

unfoldable pub last_mask : Bitmap → ℕ
last_mask b =
    let last_bits = b.bit_cnt % elem_bits in
    if last_bits == 0 then 2 ^ 32 - 1 else 2 ^ last_bits - 1

abbrev pub size : Bitmap → ℕ
size b = b.bit_cnt

-- The element that holds a bit, and the bitmap with that element changed by an operation.
abbrev pub element : Bitmap → ℕ → ℕ
element b bit_idx = get_or b.bits (elem_idx bit_idx) 0

abbrev pub update : Bitmap → ℕ → ℕ → Bitmap
update b bit_idx w = record b { bits = set b.bits (elem_idx bit_idx) w }

-- `orl`, `andl` and `xorl` on the element. An index past the elements changes nothing here.
unfoldable pub mark : Bitmap → ℕ → Bitmap
mark b bit_idx = update b bit_idx (bit_or (element b bit_idx) (bit_mask bit_idx))

unfoldable pub reset : Bitmap → ℕ → Bitmap
reset b bit_idx = update b bit_idx (bit_and (element b bit_idx) (complement 32 (bit_mask bit_idx)))

unfoldable pub flip : Bitmap → ℕ → Bitmap
flip b bit_idx = update b bit_idx (bit_xor (element b bit_idx) (bit_mask bit_idx))

unfoldable pub set_bit : Bitmap → ℕ → Bool → Option Bitmap
unfolding mark reset
set_bit b idx value = do
  assert (ltb idx b.bit_cnt)
  some (if value then mark b idx else reset b idx)

unfoldable pub test : Bitmap → ℕ → Option Bool
test b idx = do assert (ltb idx b.bit_cnt); some (not (bit_and (element b idx) (bit_mask idx) == 0))

-- The body of `bitmap_set_multiple`: `n` rounds to go, from `i` on.
unfoldable pub set_loop : ℕ → ℕ → ℕ → Bool → Bitmap → Option Bitmap
set_loop zero i start value b = some b
set_loop (suc n) i start value b = do
  b' ← set_bit b (add_size start i) value
  set_loop n (i + 1) start value b'

-- The assertions that the functions on a range of bits share.
abbrev pub assert_range : Bitmap → ℕ → ℕ → Option (Unit {0})
assert_range b start cnt = do
  assert (leb start b.bit_cnt)
  assert (leb (add_size start cnt) b.bit_cnt)

unfoldable pub set_multiple : Bitmap → ℕ → ℕ → Bool → Option Bitmap
unfolding set_loop
set_multiple b start cnt value = assert_range b start cnt >> set_loop cnt 0 start value b

unfoldable pub set_all : Bitmap → Bool → Option Bitmap
unfolding set_multiple
set_all b value = set_multiple b 0 (size b) value

-- `storage` is what the second `malloc` returns; `first` whether the first one succeeds. A null
-- pointer is the inner `none`.
unfoldable pub create : (first : Bool) → (storage : Option (List ℕ)) → ℕ → Option (Option Bitmap)
unfolding set_all
create false storage bit_cnt = some none
create true (some bits) bit_cnt = do
  b ← set_all (record { bit_cnt = bit_cnt; bits = bits }) false
  some (some b)
create true none bit_cnt =
    if bit_cnt == 0
    then (do b ← set_all (record { bit_cnt = bit_cnt; bits = List.[] }) false; some (some b))
    else some none

-- `block` is the memory behind the header in a buffer of `block_size` bytes.
unfoldable pub create_in_buf : ℕ → (block : List ℕ) → (block_size : ℕ) → Option Bitmap
unfolding set_all buf_size
create_in_buf bit_cnt block block_size = do
  assert (leb (buf_size bit_cnt) block_size)
  set_all (record { bit_cnt = bit_cnt; bits = block }) false

unfoldable pub count_loop : ℕ → ℕ → ℕ → Bool → Bitmap → ℕ → Option ℕ
count_loop zero i start value b value_cnt = some value_cnt
count_loop (suc n) i start value b value_cnt = do
  t ← test b (add_size start i)
  count_loop n (i + 1) start value b (if same t value then value_cnt + 1 else value_cnt)

unfoldable pub count : Bitmap → ℕ → ℕ → Bool → Option ℕ
unfolding count_loop
count b start cnt value = assert_range b start cnt >> count_loop cnt 0 start value b 0

unfoldable pub contains_loop : ℕ → ℕ → ℕ → Bool → Bitmap → Option Bool
contains_loop zero i start value b = some false
contains_loop (suc n) i start value b = do
  t ← test b (add_size start i)
  if same t value then some true else contains_loop n (i + 1) start value b

unfoldable pub contains : Bitmap → ℕ → ℕ → Bool → Option Bool
unfolding contains_loop
contains b start cnt value = assert_range b start cnt >> contains_loop cnt 0 start value b

unfoldable pub any_set : Bitmap → ℕ → ℕ → Option Bool
unfolding contains
any_set b start cnt = contains b start cnt true

unfoldable pub none_set : Bitmap → ℕ → ℕ → Option Bool
unfolding contains
none_set b start cnt = do c ← contains b start cnt true; some (not c)

unfoldable pub all_set : Bitmap → ℕ → ℕ → Option Bool
unfolding contains
all_set b start cnt = do c ← contains b start cnt false; some (not c)

-- `n` is the number of values of `i` up to `last` that are left.
unfoldable pub scan_loop : ℕ → ℕ → ℕ → Bool → Bitmap → Option ℕ
scan_loop zero i cnt value b = some bitmap_error
scan_loop (suc n) i cnt value b = do
  c ← contains b i cnt (not value)
  if c then scan_loop n (i + 1) cnt value b else some i

unfoldable pub scan : Bitmap → ℕ → ℕ → Bool → Option ℕ
unfolding scan_loop
scan b start cnt value = do
  assert (leb start b.bit_cnt)
  if leb cnt b.bit_cnt
      then (let last = b.bit_cnt - cnt in scan_loop (last + 1 - start) start cnt value b)
      else some bitmap_error

unfoldable pub scan_and_flip : Bitmap → ℕ → ℕ → Bool → Option (ℕ × Bitmap)
unfolding scan set_multiple
scan_and_flip b start cnt value = do
  idx ← scan b start cnt value
  if idx == bitmap_error
      then some (idx, b)
      else (do b' ← set_multiple b idx cnt (not value); some (idx, b'))
