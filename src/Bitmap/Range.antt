-- ===== src/Bitmap/Range.antt =====
-- The operations of bitmap.c on a range of bits, against the bits that the bitmap stands for.
use cs162hwproj.Prelude.{
  ℕ, zero, suc, ◌+◌, ◌/◌, ◌^◌, ◌≤◌, ◌<◌, ◌≡◌, refl, ◌∙◌, Bool, true, false, ◌&&◌, some, arith, ltb,
  leb, if◌then◌else◌, length, length-set, List, le→leb, lt→ltb,
}
use cs162hwproj.Prelude.Returns
use cs162hwproj.Prelude.Returns.{Returns, returns}
use cs162hwproj.Bitmap.{
  Bitmap, add_size, mark, reset, set_bit, set_loop, set_multiple, assert_range, elem_cnt, set_all,
  create, create_in_buf, buf_size,
}
use cs162hwproj.Bitmap.Bit.{bit_at, IsValid, update-IsValid, bit_at-mark, bit_at-reset}

abbrev pub within : ℕ → ℕ → ℕ → Bool
within lo hi j = leb lo j && ltb j hi

-- `b'` is `b` with the bits from `lo` up to `hi` made `value`.
pub record Sets (b : Bitmap) (lo hi : ℕ) (value : Bool) (b' : Bitmap) : Type 0 where
  pub valid : IsValid b'
  pub size : b'.bit_cnt ≡ b.bit_cnt
  pub elements : length b'.bits ≡ length b.bits
  pub bits : (j : ℕ) → bit_at b' j ≡ (if within lo hi j then value else bit_at b j)

Sets-refl :
    {b : Bitmap} {hi : ℕ} (lo : ℕ) (value : Bool) → IsValid b → hi ≤ lo → Sets b lo hi value b
Sets-refl lo value v h = record {
  valid = v;
  size = refl;
  elements = refl;
  bits = λ j. ground arith;
}

Sets-trans :
    {a b c : Bitmap} {lo mid mid' hi lo' hi' : ℕ} {value : Bool}
    → Sets a lo mid value b
    → Sets b mid' hi value c
    → mid ≡ mid'
    → lo ≡ lo'
    → hi ≡ hi'
    → lo ≤ mid
    → mid ≤ hi
    → Sets a lo' hi' value c
Sets-trans s t e d f p q = record {
  valid = t.valid;
  size = t.size ∙ s.size;
  elements = t.elements ∙ s.elements;
  bits = λ j. ground (arith, s.bits j, t.bits j);
}

module _ {b : Bitmap} (v : IsValid b) where
  pub set_bit-Sets :
      (i : ℕ) (value : Bool) → i < b.bit_cnt → Returns (Sets b i (i + 1) value) (set_bit b i value)
  unfolding set_bit mark reset
  set_bit-Sets i true h = rw (lt→ltb _ _ h) (
      returns (record {
        valid = update-IsValid b i _ v;
        size = refl;
        elements = length-set b.bits (i / 32) _;
        bits = λ j. ground (arith, bit_at-mark i v h j);
      }))
  set_bit-Sets i false h = rw (lt→ltb _ _ h) (
      returns (record {
        valid = update-IsValid b i _ v;
        size = refl;
        elements = length-set b.bits (i / 32) _;
        bits = λ j. ground (arith, bit_at-reset i v h j);
      }))

set_loop-Sets :
    (n i start : ℕ) (value : Bool) {b : Bitmap}
    → IsValid b
    → start + (i + n) ≤ b.bit_cnt
    → Returns (Sets b (start + i) (start + i + n) value) (set_loop n i start value b)
unfolding set_loop
set_loop-Sets zero i start value {b} v h = returns (Sets-refl _ value v (omega arith))
set_loop-Sets (suc n) i start value {b} v h =
    Returns.bind (set_bit-Sets v (add_size start i) value (omega arith)) λ b₁ s₁.
      Returns.mono (set_loop-Sets n (i + 1) start value s₁.valid (omega (arith, s₁.size))) λ b₂ s₂.
        Sets-trans s₁ s₂ (omega arith) (omega arith) (omega arith) (omega arith) (omega arith)

Sets-bounds :
    {b c : Bitmap} {lo hi lo' hi' : ℕ} {value : Bool}
    → Sets b lo hi value c
    → lo ≡ lo'
    → hi ≡ hi'
    → Sets b lo' hi' value c
Sets-bounds s e f = record {
  valid = s.valid;
  size = s.size;
  elements = s.elements;
  bits = λ j. ground (arith, s.bits j);
}

pub assert_range-pass :
    {b : Bitmap} (start cnt : ℕ)
    → IsValid b
    → start + cnt ≤ b.bit_cnt
    → assert_range b start cnt ≡ some tt
assert_range-pass {b} start cnt v h =
    rw (le→leb start b.bit_cnt (omega arith), le→leb (add_size start cnt) b.bit_cnt (omega arith))

module _ {b : Bitmap} (start cnt : ℕ) (value : Bool) (v : IsValid b) where
  -- On a valid bitmap and a range inside it, `bitmap_set_multiple` fails no assertion, keeps the
  -- bitmap valid and its size, makes each bit of the range `value`, and leaves every other bit as
  -- it was.
  pub set_multiple-Sets :
      start + cnt ≤ b.bit_cnt
      → Returns (Sets b start (start + cnt) value) (set_multiple b start cnt value)
  unfolding set_multiple
  set_multiple-Sets h = rw (assert_range-pass start cnt v h) (
      Returns.mono (set_loop-Sets cnt 0 start value v (omega arith))
        λ b' s. Sets-bounds s (omega arith) (omega arith))

module _ {b : Bitmap} (v : IsValid b) where
  -- On a valid bitmap, `bitmap_set_all` fails no assertion, keeps it valid and its size, and makes
  -- each bit `value`.
  pub set_all-Sets : (value : Bool) → Returns (Sets b 0 b.bit_cnt value) (set_all b value)
  unfolding set_all
  set_all-Sets value =
      Returns.mono (set_multiple-Sets 0 b.bit_cnt value v (omega arith))
        λ b' s. Sets-bounds s refl (omega arith)

-- A new bitmap: the size that was asked for, and every bit false.
pub record Cleared (bit_cnt : ℕ) (b : Bitmap) : Type 0 where
  pub valid : IsValid b
  pub size : b.bit_cnt ≡ bit_cnt
  pub bits : (j : ℕ) → j < bit_cnt → bit_at b j ≡ false

Sets-Cleared : {b : Bitmap} (b' : Bitmap) → Sets b 0 b.bit_cnt false b' → Cleared b.bit_cnt b'
Sets-Cleared b' s = record {
  valid = s.valid;
  size = s.size;
  bits = λ j h. ground (arith, s.bits j);
}

module _ (bit_cnt : ℕ) (small : bit_cnt + 31 < 2 ^ 32) where
  -- `bitmap_create` for `bit_cnt` bits, where `bit_cnt + 31` fits in 32 bits and both allocations
  -- succeed with room for the elements, returns a valid bitmap of that size in which every bit is
  -- false, whatever the memory held.
  pub create-Created :
      (bits : List ℕ)
      → elem_cnt bit_cnt ≤ length bits
      → Returns
          (λ r. (b : Bitmap) × (r ≡ some b) × Cleared bit_cnt b)
          (create true (some bits) bit_cnt)
  unfolding create elem_cnt
  create-Created bits room =
      Returns.bind (set_all-Sets (record { room = omega arith; small = small }) false)
        λ b s. returns (b, refl, Sets-Cleared b s)

  -- `bitmap_create_in_buf` for `bit_cnt` bits, where `bit_cnt + 31` fits in 32 bits, in a block
  -- that is as large as `bitmap_buf_size` says and has room for the elements, fails no assertion
  -- and gives a valid bitmap of that size in which every bit is false.
  pub create_in_buf-Cleared :
      (block : List ℕ) (block_size : ℕ)
      → elem_cnt bit_cnt ≤ length block
      → buf_size bit_cnt ≤ block_size
      → Returns (Cleared bit_cnt) (create_in_buf bit_cnt block block_size)
  unfolding create_in_buf elem_cnt
  create_in_buf-Cleared block block_size room h = rw (le→leb _ _ h) (
      Returns.mono (set_all-Sets (record { room = omega arith; small = small }) false) Sets-Cleared)
