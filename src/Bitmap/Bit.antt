-- ===== src/Bitmap/Bit.antt =====
-- The bits that a bitmap of bitmap.c stands for, and what the operations on one bit do to them.
use Prim.Native.Nat.{bit_and, bit_or, bit_xor, differ}
use cs162hwproj.Prelude.{
  ℕ, zero, suc, ◌+◌, ◌*◌, ◌/◌, ◌%◌, ◌^◌, ◌≤◌, ◌<◌, ◌≡◌, refl, ◌≢◌, Bool, true, false, not, some,
  arith, ◌==◌, if◌then◌else◌, length, length-set, get_or-set_self, get_or-set_ne,
}
use cs162hwproj.Prelude.Bits.{
  digit, digit-lt, complement, digit-bit_and, digit-bit_or, digit-bit_xor, digit-pow_self,
  digit-pow_ne, digit-complement, bit_and-pow-eq_zero, bit_and-pow-ne_zero, pow_mono,
}
use native.Mathlib.Decide.{ℕ_discrete}
use cs162hwproj.Bitmap.{Bitmap, bit_mask, element, update, mark, reset, flip, test}

-- The bit of number `i`.
abbrev pub bit_at : Bitmap → ℕ → Bool
bit_at b i = digit (element b i) (i % 32) == 1

-- The elements make room for every bit, and no size computation on them wraps.
pub record IsValid (b : Bitmap) : Type 0 where
  pub room : b.bit_cnt ≤ 32 * length b.bits
  pub small : b.bit_cnt + 31 < 2 ^ 32

module _ (b : Bitmap) (i w : ℕ) where
  -- Writing an element: the bits of its own index are those of `w`, all others stay.
  bit_at-update_self :
      (j : ℕ)
      → i < 32 * length b.bits
      → j / 32 ≡ i / 32
      → bit_at (update b i w) j ≡ (digit w (j % 32) == 1)
  bit_at-update_self j h e = rw e (rw (get_or-set_self b.bits (i / 32) w 0 (omega arith)) refl)

  bit_at-update_ne : (j : ℕ) → i / 32 ≢ j / 32 → bit_at (update b i w) j ≡ bit_at b j
  bit_at-update_ne j ne = rw (get_or-set_ne b.bits (i / 32) (j / 32) w 0 ne) refl

  pub update-IsValid : IsValid b → IsValid (update b i w)
  update-IsValid v = omega (arith, length-set b.bits (i / 32) w)

-- An operation on an element that turns digit `k` into `v` and keeps the other digits is an
-- operation on the bitmap that does so to one bit.
pub bit_at-update :
    (b : Bitmap) (i w : ℕ) (v : Bool)
    → i < 32 * length b.bits
    → ((digit w (i % 32) == 1) ≡ v)
    → ((k : ℕ) → k < 32 → i % 32 ≢ k → digit w k ≡ digit (element b i) k)
    → (j : ℕ) → bit_at (update b i w) j ≡ (if i == j then v else bit_at b j)
bit_at-update b i w v h own others j = elim (ℕ_discrete (i / 32) (j / 32)) [
  | no ne ↦ ground (arith, bit_at-update_ne b i w j ne)
  | yes e ↦ ground (arith, bit_at-update_self b i w j h, others (j % 32))
]

differ-zero : (x : ℕ) → differ x 0 ≡ x
differ-zero zero = refl
differ-zero (suc x) = refl

differ_one : (x : ℕ) → x < 2 → (differ x 1 == 1) ≡ not (x == 1)
differ_one zero h = refl
differ_one (suc zero) h = refl
differ_one (suc (suc x)) h = absurd (omega arith)

module _ {b : Bitmap} (i : ℕ) (v : IsValid b) (in_range : i < b.bit_cnt) where
  -- On a valid bitmap and an index below its size, `bitmap_mark` makes that bit true and leaves
  -- every other bit as it was.
  pub bit_at-mark : (j : ℕ) → bit_at (mark b i) j ≡ (if i == j then true else bit_at b j)
  unfolding mark
  bit_at-mark =
      bit_at-update b i (bit_or (element b i) (bit_mask i)) true (omega arith)
        (ground (
          arith,
          digit-bit_or (element b i) (bit_mask i) (i % 32),
          digit-pow_self (i % 32),
          digit-lt (element b i) (i % 32),
        ))
        (λ k hk ne.
          ground (arith, digit-bit_or (element b i) (bit_mask i) k, digit-pow_ne (i % 32) k ne))

  -- On a valid bitmap and an index below its size, `bitmap_reset` makes that bit false and leaves
  -- every other bit as it was.
  pub bit_at-reset : (j : ℕ) → bit_at (reset b i) j ≡ (if i == j then false else bit_at b j)
  unfolding reset
  bit_at-reset =
      bit_at-update b i (bit_and (element b i) (complement 32 (bit_mask i))) false (omega arith)
        (ground (
          arith,
          digit-bit_and (element b i) (complement 32 (bit_mask i)) (i % 32),
          digit-pow_self (i % 32),
          digit-complement 32 (bit_mask i) (i % 32) (pow_mono (i % 32) 32 (omega arith))
              (omega arith),
        ))
        (λ k hk ne. ground (
          arith,
          digit-bit_and (element b i) (complement 32 (bit_mask i)) k,
          digit-pow_ne (i % 32) k ne,
          digit-complement 32 (bit_mask i) k (pow_mono (i % 32) 32 (omega arith)) hk,
          digit-lt (element b i) k,
        ))

  -- On a valid bitmap and an index below its size, `bitmap_flip` makes that bit its opposite and
  -- leaves every other bit as it was.
  pub bit_at-flip :
      (j : ℕ) → bit_at (flip b i) j ≡ (if i == j then not (bit_at b i) else bit_at b j)
  unfolding flip
  bit_at-flip =
      bit_at-update b i (bit_xor (element b i) (bit_mask i)) (not (bit_at b i)) (omega arith)
        (rw (digit-bit_xor, digit-pow_self) (differ_one _ (digit-lt (element b i) (i % 32))))
        (λ k hk ne. rw (digit-bit_xor, digit-pow_ne (i % 32) k ne) (differ-zero _))

  -- On a valid bitmap and an index below its size, `bitmap_test` fails no assertion and returns
  -- that bit.
  pub test-bit_at : test b i ≡ some (bit_at b i)
  unfolding test
  test-bit_at = elim (ℕ_discrete (digit (element b i) (i % 32)) 0) [
    | yes e ↦ ground (arith, bit_and-pow-eq_zero (element b i) (i % 32) e)
    | no ne ↦
        ground (arith, digit-lt (element b i) (i % 32), bit_and-pow-ne_zero (element b i) (i % 32))
  ]
