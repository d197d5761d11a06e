-- ===== src/Ustar/Fields.antt =====
-- The number fields of ustar.c, written and read, and what the checksum counts.
use cs162hwproj.Prelude.{
  ℕ, zero, suc, ◌+◌, ◌-◌, ◌*◌, ◌/◌, ◌%◌, ◌^◌, ◌≤◌, ◌<◌, ◌≡◌, refl, ◌∙◌, true, false, ◌&&◌, some,
  List, [], ◌∷◌, ◌++◌, arith, ltb, leb, length,
}
use cs162hwproj.Ustar.{
  Header, chksum_loop, calculate_chksum, octal, octal_field, octal_loop, parse_octal_field,
}

-- `8 ^ digits`.
abbrev pub pow8 : ℕ → ℕ
pow8 zero = 1
pow8 (suc digits) = 8 * pow8 digits

octal_loop-octal :
    (digits n : ℕ) (rest : List ℕ) (ofs : ℕ)
    → n < pow8 digits
    → n < 2 ^ 32
    → octal_loop (octal digits n rest) ofs 0 ≡ octal_loop rest (ofs + digits) n
unfolding octal_loop
octal_loop-octal zero n rest ofs p q =
    let z : n ≡ 0 = omega arith in let o : ofs + 0 ≡ ofs = omega arith in rw (z, o) refl
octal_loop-octal (suc digits) n rest ofs p q =
    let i : (leb 48 (48 + n % 8) && leb (48 + n % 8) 55) ≡ true = ground arith in
    let j : ltb ((2 ^ 32 - 1) / 8) (n / 8) ≡ false = ground arith in
    let o : ofs + digits + 1 ≡ ofs + suc digits = omega arith in
    let v : 48 + n % 8 - 48 + n / 8 * 8 ≡ n = omega arith in
    let r = octal_loop-octal digits (n / 8) ((48 + n % 8) ∷ rest) ofs (omega arith) (omega arith) in
    r ∙ rw (i, j, o, v) refl

-- A number of 32 bits that has as many octal digits as a field at most, and that `snprintf` has written into the
-- field, is what `parse_octal_field` reads.
pub parse_octal_field-octal_field :
    (digits n : ℕ)
    → 0 < digits
    → n < pow8 digits
    → n < 2 ^ 32
    → parse_octal_field (octal_field digits n) ≡ some n
unfolding parse_octal_field octal_loop
parse_octal_field-octal_field digits n d p q =
    let r = octal_loop-octal digits n (0 ∷ []) 0 p q in
    let o : ltb 0 (0 + digits) ≡ true = ground arith in r ∙ rw o refl

chksum_loop-behind :
    (xs ys zs : List ℕ) (i : ℕ)
    → ((c : ℕ) → chksum_loop ys (i + length xs) c ≡ chksum_loop zs (i + length xs) c)
    → (c : ℕ) → chksum_loop (xs ++ ys) i c ≡ chksum_loop (xs ++ zs) i c
unfolding chksum_loop
chksum_loop-behind [] ys zs i h c = let z : i + 0 ≡ i = omega arith in rw z at (h c)
chksum_loop-behind (x ∷ xs) ys zs i h c =
    let z : i + suc (length xs) ≡ i + 1 + length xs = omega arith in
    chksum_loop-behind xs ys zs (i + 1) (λ c. rw z at (h c)) _

chksum_loop-masked :
    (xs ys rest : List ℕ) (i c : ℕ)
    → length xs ≡ length ys
    → 148 ≤ i
    → i + length xs ≤ 156
    → chksum_loop (xs ++ rest) i c ≡ chksum_loop (ys ++ rest) i c
unfolding chksum_loop
chksum_loop-masked [] [] rest i c e p q = refl
chksum_loop-masked [] (y ∷ ys) rest i c e p q = absurd (omega arith)
chksum_loop-masked (x ∷ xs) [] rest i c e p q = absurd (omega arith)
chksum_loop-masked (x ∷ xs) (y ∷ ys) rest i c e p q =
    let m : (leb 148 i && ltb i 156) ≡ true = ground arith in
    rw (chksum_loop, m)
      (chksum_loop-masked xs ys rest (i + 1) ((c + 32) % 2 ^ 32) (omega arith) (omega arith)
        (omega arith))

-- The fields before the checksum take 148 bytes, and it takes 8.
pub record IsLaidOut (h : Header) : Type 0 where
  pub before :
      length h.name + length h.mode + length h.uid + length h.gid + length h.size + length h.mtime
      ≡ 148
  pub chksum_ : length h.chksum ≡ 8

-- The checksum of a header does not depend on its checksum field, so that storing it there leaves it right.
pub calculate_chksum-stored :
    (h : Header) (field : List ℕ)
    → IsLaidOut h
    → length field ≡ 8
    → calculate_chksum (record h { chksum = field }) ≡ calculate_chksum h
unfolding calculate_chksum
calculate_chksum-stored h field l e =
    chksum_loop-behind h.name _ _ 0
      (chksum_loop-behind h.mode _ _ _ (
        chksum_loop-behind h.uid _ _ _ (
          chksum_loop-behind h.gid _ _ _ (
            chksum_loop-behind h.size _ _ _ (
              chksum_loop-behind h.mtime _ _ _ (λ c.
                chksum_loop-masked field h.chksum _ _ c (omega (arith, l.chksum_))
                  (omega (arith, l.before)) (omega (arith, l.before))))))))
      0
