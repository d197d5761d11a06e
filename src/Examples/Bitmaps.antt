-- ===== src/Examples/Bitmaps.antt =====
-- bitmap.c on a bitmap of ten bits, of which the first and the third are true.
use cs162hwproj.Prelude.{◌≡◌, refl, true, false, some, [], ◌∷◌, arith}
use cs162hwproj.Prelude.Returns.{Returns}
use cs162hwproj.Bitmap.{
  Bitmap, bitmap_error, mark, reset, test, set_multiple, set_all, count, count_loop, contains,
  contains_loop, scan, scan_loop, scan_and_flip, set_loop, set_bit,
}
use cs162hwproj.Bitmap.Bit.{IsValid}
use cs162hwproj.Bitmap.Range.{Sets, set_all-Sets}
use cs162hwproj.Bitmap.Scan.{Flipped, scan_and_flip-Flipped}

abbrev ten_bits : Bitmap
ten_bits = record { bit_cnt = 10; bits = 5 ∷ [] }

ten_bits-IsValid : IsValid ten_bits
ten_bits-IsValid = record { room = omega arith; small = omega arith }

scan_finds : scan ten_bits 0 2 false ≡ some 3
unfolding scan scan_loop contains contains_loop test
scan_finds = refl

scan_finds_none : scan ten_bits 2 9 false ≡ some bitmap_error
unfolding scan scan_loop contains contains_loop test
scan_finds_none = refl

flips_group : scan_and_flip ten_bits 0 2 false ≡ some (3, record { bit_cnt = 10; bits = 29 ∷ [] })
unfolding scan_and_flip scan scan_loop contains contains_loop test set_multiple set_loop set_bit
    mark reset
flips_group = refl

counts_range : count ten_bits 0 10 true ≡ some 2
unfolding count count_loop test
counts_range = refl

scan_and_flip-Flipped_example :
    Returns (λ (idx, b). Flipped ten_bits 1 2 false idx b) (scan_and_flip ten_bits 1 2 false)
scan_and_flip-Flipped_example = scan_and_flip-Flipped ten_bits-IsValid 1 (omega arith)

set_all-Sets_example : Returns (Sets ten_bits 0 10 true) (set_all ten_bits true)
set_all-Sets_example = set_all-Sets ten_bits-IsValid true
