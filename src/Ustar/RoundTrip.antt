-- ===== src/Ustar/RoundTrip.antt =====
-- A header that `ustar_make_header` of ustar.c makes is parsed back.
use cs162hwproj.Prelude.{
  ℕ, zero, suc, ◌+◌, ◌-◌, ◌*◌, ◌/◌, ◌%◌, ◌^◌, ◌≤◌, ◌<◌, ◌≡◌, refl, sym, ap, ◌∙◌, Bool, true, false,
  not, ◌&&◌, inl, inr, some, List, [], ◌∷◌, ◌++◌, arith, ltb, leb, ◌==◌, if◌then◌else◌, Bool-cases,
  length, length-append, length-take, get_or, take, replicate, ◌>>=◌,
}
use cs162hwproj.Ustar.{
  Kind, regular, directory, eof, Header, header_bytes, chksum_loop, calculate_chksum, field, octal,
  octal_field, is_regular, fill_header, is_all_zeros, is_nothing, is_antisocial, after_slash,
  strip_loop, strip_antisocial_prefixes, text_of, parse_kind, entry, ustar_make_header,
  ustar_parse_header,
}
use cs162hwproj.Ustar.Names.{passes, strip_antisocial_prefixes_again}
use cs162hwproj.Ustar.Fields.{parse_octal_field-octal_field, calculate_chksum-stored}

-- The characters of a name.
abbrev pub is_text : List ℕ → Bool
is_text [] = true
is_text (c ∷ s) = (not (c == 0) && ltb c 256) && is_text s

abbrev all_bytes : List ℕ → Bool
all_bytes [] = true
all_bytes (b ∷ bs) = ltb b 256 && all_bytes bs

all_bytes-append :
    (xs ys : List ℕ) → all_bytes xs ≡ true → all_bytes ys ≡ true → all_bytes (xs ++ ys) ≡ true
all_bytes-append [] ys p q = q
all_bytes-append (x ∷ xs) ys p q = ground (arith, all_bytes-append xs ys)

all_bytes-octal :
    (digits n : ℕ) (rest : List ℕ) → all_bytes rest ≡ true → all_bytes (octal digits n rest) ≡ true
all_bytes-octal zero n rest h = h
all_bytes-octal (suc digits) n rest h =
    all_bytes-octal digits (n / 8) ((48 + n % 8) ∷ rest)
      (let l : ltb (48 + n % 8) 256 ≡ true = ground arith in rw l h)

all_bytes-field :
    (n m : ℕ) (s : List ℕ) → is_text s ≡ true → all_bytes (take n (s ++ replicate m 0)) ≡ true
all_bytes-field zero m s h = refl
all_bytes-field (suc n) zero [] h = refl
all_bytes-field (suc n) (suc m) [] h = all_bytes-field n m [] refl
all_bytes-field (suc n) m (c ∷ s) h = let r = all_bytes-field n m s (ground arith) in ground arith

chksum_loop-bound :
    (bs : List ℕ) (i c : ℕ) → all_bytes bs ≡ true → chksum_loop bs i c ≤ c + 255 * length bs
unfolding chksum_loop
chksum_loop-bound [] i c h = omega arith
chksum_loop-bound (b ∷ bs) i c h =
    let r =
      chksum_loop-bound bs (i + 1) ((c + (if leb 148 i && ltb i 156 then 32 else b)) % 2 ^ 32)
        (ground arith) in
    let s : (c + (if leb 148 i && ltb i 156 then 32 else b)) % 2 ^ 32 ≤ c + 255 = ground arith in
    omega arith

text_of-field :
    (n m : ℕ) (s : List ℕ)
    → is_text s ≡ true
    → length s < n
    → n ≤ length s + m
    → text_of (take n (s ++ replicate m 0)) ≡ s
text_of-field zero m s h p q = absurd (omega arith)
text_of-field (suc n) zero [] h p q = refl
text_of-field (suc n) (suc m) [] h p q = refl
text_of-field (suc n) m (c ∷ s) h p q =
    let z : (c == 0) ≡ false = ground arith in
    let r = text_of-field n m s (ground arith) (omega arith) (omega arith) in
    rw (text_of, z, r) refl

get_or-field :
    (n m : ℕ) (s : List ℕ) (j : ℕ) → length s ≤ j → get_or (take n (s ++ replicate m 0)) j 0 ≡ 0
get_or-field zero m s j p = refl
get_or-field (suc n) zero [] j p = refl
get_or-field (suc n) (suc m) [] zero p = refl
get_or-field (suc n) (suc m) [] (suc j) p = get_or-field n m [] j (omega arith)
get_or-field (suc n) m (c ∷ s) zero p = absurd (omega arith)
get_or-field (suc n) m (c ∷ s) (suc j) p = get_or-field n m s j (omega arith)

is_text-after_slash : (s : List ℕ) → is_text s ≡ true → is_text (after_slash s) ≡ true
is_text-after_slash [] h = refl
is_text-after_slash (c ∷ s) h = ground (arith, is_text-after_slash s)

is_text-strip_loop : (fuel : ℕ) (s : List ℕ) → is_text s ≡ true → is_text (strip_loop fuel s) ≡ true
unfolding strip_loop
is_text-strip_loop zero s h = h
is_text-strip_loop (suc fuel) s h = elim (Bool-cases (is_antisocial s)) [
  | inl y ↦ rw y (is_text-strip_loop fuel (after_slash s) (is_text-after_slash s h))
  | inr n ↦ rw n h
]

is_text-strip : (s : List ℕ) → is_text s ≡ true → is_text (strip_antisocial_prefixes s) ≡ true
unfolding strip_antisocial_prefixes
is_text-strip s h = let r = is_text-strip_loop (length s) s h in ground arith

length-field : (s : List ℕ) → length s ≤ 99 → length (field 100 s) ≡ 100
length-field s h =
    let zeros : List ℕ = replicate 100 0 in
    let r : length zeros ≡ 100 = refl in
    length-take 100 (s ++ replicate 100 0) ∙ omega (arith, length-append s zeros)

all_bytes-seven :
    (a b c d e f rest : List ℕ)
    → all_bytes a ≡ true
    → all_bytes b ≡ true
    → all_bytes c ≡ true
    → all_bytes d ≡ true
    → all_bytes e ≡ true
    → all_bytes f ≡ true
    → all_bytes rest ≡ true
    → all_bytes (a ++ (b ++ (c ++ (d ++ (e ++ (f ++ rest)))))) ≡ true
all_bytes-seven a b c d e f rest p q r s t u v =
    all_bytes-append a (b ++ (c ++ (d ++ (e ++ (f ++ rest))))) p (
      all_bytes-append b (c ++ (d ++ (e ++ (f ++ rest)))) q (
        all_bytes-append c (d ++ (e ++ (f ++ rest))) r (
          all_bytes-append d (e ++ (f ++ rest)) s
            (all_bytes-append e (f ++ rest) t (all_bytes-append f rest u v)))))

abbrev from_chksum : Header → List ℕ
from_chksum h =
    h.chksum
    ++ (h.typeflag
        ++ (h.linkname
            ++ (h.magic
                ++ (h.version
                    ++ (h.uname
                        ++ (h.gname ++ (h.devmajor ++ (h.devminor ++ (h.prefix ++ h.padding)))))))))

all_bytes-from_chksum :
    (s : List ℕ) (type : Kind) (size : ℕ) → all_bytes (from_chksum (fill_header s type size)) ≡ true
unfolding fill_header
all_bytes-from_chksum s regular size = refl
all_bytes-from_chksum s directory size = refl
all_bytes-from_chksum s eof size = refl

starts_nonzero :
    (s rest : List ℕ)
    → is_text s ≡ true
    → is_nothing s ≡ false
    → is_all_zeros (field 100 s ++ rest) ≡ false
unfolding is_all_zeros
starts_nonzero [] rest t h = cc
starts_nonzero (c ∷ s) rest t h = ground arith

same_number : (a b : ℕ) → a ≡ b → (a == b) ≡ true
same_number a b e = ground arith

module _ (s : List ℕ) (text : is_text s ≡ true) (short : length s ≤ 99) (type : Kind)
    (size : ℕ) where
  length-header_bytes : length (header_bytes (fill_header s type size)) ≡ 512
  unfolding fill_header
  length-header_bytes = length-append (field 100 s) _ ∙ ap (λ n. n + 412) (length-field s short)

  all_bytes-header_bytes : all_bytes (header_bytes (fill_header s type size)) ≡ true
  unfolding fill_header
  all_bytes-header_bytes =
      all_bytes-seven (field 100 s) (octal_field 7 (if is_regular type then 420 else 493))
        (octal_field 7 0) (octal_field 7 0) (octal_field 11 size) (octal_field 11 1136102400)
        (from_chksum (fill_header s type size)) (all_bytes-field 100 100 s text)
        (all_bytes-octal 7 (if is_regular type then 420 else 493) (0 ∷ []) refl) refl refl
        (all_bytes-octal 11 size (0 ∷ []) refl) refl (all_bytes-from_chksum s type size)

  made : Header
  made = record (fill_header s type size) {
    chksum = octal_field 7 (calculate_chksum (fill_header s type size));
  }

  calculate_chksum-small : calculate_chksum (fill_header s type size) < 2097152
  unfolding calculate_chksum
  calculate_chksum-small =
      let b =
        chksum_loop-bound (header_bytes (fill_header s type size)) 0 0 all_bytes-header_bytes in
      let l = length-header_bytes in omega arith

  calculate_chksum-made : calculate_chksum made ≡ calculate_chksum (fill_header s type size)
  unfolding made fill_header
  calculate_chksum-made =
      calculate_chksum-stored (fill_header s type size)
        (octal_field 7 (calculate_chksum (fill_header s type size)))
        (record { before = let f = length-field s short in omega arith; chksum_ = refl }) refl

  not_zeros : is_nothing s ≡ false → is_all_zeros (header_bytes made) ≡ false
  unfolding made fill_header
  not_zeros h =
      starts_nonzero s
        (octal_field 7 (if is_regular type then 420 else 493)
          ++ (octal_field 7 0
              ++ (octal_field 7 0
                  ++ (octal_field 11 size ++ (octal_field 11 1136102400 ++ from_chksum made)))))
        text h

  parsed : is_nothing s ≡ false → ustar_parse_header made ≡ parse_kind made
  unfolding ustar_parse_header made fill_header
  parsed h =
      let z = not_zeros h in
      let c =
        parse_octal_field-octal_field 7 (calculate_chksum (fill_header s type size)) (omega arith)
          calculate_chksum-small (let b = calculate_chksum-small in omega arith) in
      let same_ : (calculate_chksum (fill_header s type size) == calculate_chksum made) ≡ true =
        same_number (calculate_chksum (fill_header s type size)) (calculate_chksum made)
          (sym calculate_chksum-made) in
      let last : (get_or (field 100 s) 99 0 == 0) ≡ true =
        same_number (get_or (field 100 s) 99 0) 0 (get_or-field 100 100 s 99 short) in
      rw (z, c, same_, last) refl

abbrev pub file_kind : Bool → Kind
file_kind true = regular
file_kind false = directory

parse_kind-made :
    (s : List ℕ) (file : Bool) (size : ℕ) (text : is_text s ≡ true) (short : length s ≤ 99)
    → strip_antisocial_prefixes s ≡ s
    → size < 2 ^ 31
    → parse_kind (made s text short (file_kind file) size)
      ≡ entry s (file_kind file) (if file then size else 0)
unfolding parse_kind made fill_header
parse_kind-made s true size text short e p =
    let n = text_of-field 100 100 s text (omega arith) (omega arith) in
    let q = parse_octal_field-octal_field 11 size (omega arith) (omega arith) (omega arith) in
    let small : ltb (2 ^ 31 - 1) size ≡ false = ground arith in rw (q, small, n, e) refl
parse_kind-made s false size text short e p =
    let n = text_of-field 100 100 s text (omega arith) (omega arith) in rw (n, e) refl

-- The header that `ustar_make_header` makes for a file or a directory, whose stripped name has 99 characters at most, is
-- parsed by `ustar_parse_header` as an entry of that kind with the stripped name, and for a file with its size, which is below 2^31.
pub ustar_parse_header-ustar_make_header :
    (file_name : List ℕ) (file : Bool) (size : ℕ)
    → is_text file_name ≡ true
    → length (strip_antisocial_prefixes file_name) ≤ 99
    → size < 2 ^ 31
    → (ustar_make_header file_name (file_kind file) size >>= λ h. some (ustar_parse_header h))
      ≡ some
          (entry (strip_antisocial_prefixes file_name) (file_kind file) (if file then size else 0))
unfolding ustar_make_header made
ustar_parse_header-ustar_make_header file_name file size t short p =
    let s = strip_antisocial_prefixes file_name in
    let (a, b, c) = passes file_name in
    let text = is_text-strip file_name t in
    let fits : ltb 99 (length s) ≡ false = ground arith in
    rw fits (
      ap some (
        parsed s text short (file_kind file) size b
        ∙ parse_kind-made s file size text short (strip_antisocial_prefixes_again file_name) p))
