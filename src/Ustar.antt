-- ===== src/Ustar.antt =====
-- group0/src/lib/ustar.c: headers of tar archives. A header is its fields, each the bytes of it, and a name its
-- characters without the zero byte behind it. `unsigned long` has 32 bits.
pub mod Names
pub mod Fields
pub mod RoundTrip
use cs162hwproj.Prelude.{
  ℕ, zero, suc, ◌+◌, ◌-◌, ◌*◌, ◌/◌, ◌%◌, ◌^◌, Bool, true, false, not, ◌&&◌, ◌||◌, Option, none,
  some, List, [], ◌∷◌, ◌++◌, ltb, leb, ◌==◌, if◌then◌else◌, take, drop, length, replicate, get_or,
}

pub data Kind : Type 0 where
  regular directory eof : Kind

pub record Header : Type 0 where
  pub name : List ℕ
  pub mode : List ℕ
  pub uid : List ℕ
  pub gid : List ℕ
  pub size : List ℕ
  pub mtime : List ℕ
  pub chksum : List ℕ
  pub typeflag : List ℕ
  pub linkname : List ℕ
  pub magic : List ℕ
  pub version : List ℕ
  pub uname : List ℕ
  pub gname : List ℕ
  pub devmajor : List ℕ
  pub devminor : List ℕ
  pub prefix : List ℕ
  pub padding : List ℕ

abbrev pub header_bytes : Header → List ℕ
header_bytes h =
    h.name
    ++ (h.mode
        ++ (h.uid
            ++ (h.gid
                ++ (h.size
                    ++ (h.mtime
                        ++ (h.chksum
                            ++ (h.typeflag
                                ++ (h.linkname
                                    ++ (h.magic
                                        ++ (h.version
                                            ++ (h.uname
                                                ++ (h.gname
                                                    ++ (h.devmajor
                                                        ++ (h.devminor
                                                            ++ (h.prefix ++ h.padding)))))))))))))))

-- The sum of the bytes from index `i` on, with spaces for those of the checksum.
unfoldable pub chksum_loop : List ℕ → (i chksum : ℕ) → ℕ
chksum_loop [] i chksum = chksum
chksum_loop (b ∷ bs) i chksum =
    chksum_loop bs (i + 1) ((chksum + (if leb 148 i && ltb i 156 then 32 else b)) % 2 ^ 32)

unfoldable pub calculate_chksum : Header → ℕ
unfolding chksum_loop
calculate_chksum h = chksum_loop (header_bytes h) 0 0

abbrev pub starts_with : List ℕ → List ℕ → Bool
starts_with [] s = true
starts_with (c ∷ cs) [] = false
starts_with (c ∷ cs) (d ∷ s) = (c == d) && starts_with cs s

-- `strchr (file_name, '/') + 1`, where there is a slash.
abbrev pub after_slash : List ℕ → List ℕ
after_slash [] = []
after_slash (c ∷ s) = if c == 47 then s else after_slash s

abbrev pub is_antisocial : List ℕ → Bool
is_antisocial s =
    starts_with (47 ∷ []) s || starts_with (46 ∷ 47 ∷ []) s || starts_with (46 ∷ 46 ∷ 47 ∷ []) s

abbrev pub is_nothing : List ℕ → Bool
is_nothing [] = true
is_nothing (c ∷ s) = false

abbrev pub is_dots : List ℕ → Bool
is_dots s = starts_with (46 ∷ 46 ∷ []) s && is_nothing (drop 2 s)

-- Each round drops a character at least.
unfoldable pub strip_loop : (fuel : ℕ) → List ℕ → List ℕ
strip_loop zero s = s
strip_loop (suc fuel) s =
    let rest = strip_loop fuel (after_slash s) in if is_antisocial s then rest else s

unfoldable pub strip_antisocial_prefixes : List ℕ → List ℕ
unfolding strip_loop
strip_antisocial_prefixes file_name =
    let s = strip_loop (length file_name) file_name in
    if is_nothing s || is_dots s then 46 ∷ [] else s

-- `strlcpy` into a field of zeros that has room.
abbrev pub field : (size : ℕ) → List ℕ → List ℕ
field size s = take size (s ++ replicate size 0)

-- `snprintf` of a number in octal, with at least `digits` digits, into a field one byte longer.
abbrev pub octal : (digits n : ℕ) → List ℕ → List ℕ
octal zero n rest = rest
octal (suc digits) n rest = octal digits (n / 8) ((48 + n % 8) ∷ rest)

abbrev pub octal_field : (digits n : ℕ) → List ℕ
octal_field digits n = octal digits n (0 ∷ [])

abbrev pub typeflag_of : Kind → ℕ
typeflag_of regular = 48
typeflag_of directory = 53
typeflag_of eof = 0

abbrev pub is_regular : Kind → Bool
is_regular regular = true
is_regular directory = false
is_regular eof = false

-- All but the checksum. The first field of it is eight zeros.
unfoldable pub fill_header : List ℕ → Kind → (size : ℕ) → Header
fill_header file_name type size = record {
  name = field 100 file_name;
  mode = octal_field 7 (if is_regular type then 420 else 493);
  uid = octal_field 7 0;
  gid = octal_field 7 0;
  size = octal_field 11 size;
  mtime = octal_field 11 1136102400;
  chksum = replicate 8 0;
  typeflag = typeflag_of type ∷ [];
  linkname = replicate 100 0;
  magic = field 6 (117 ∷ 115 ∷ 116 ∷ 97 ∷ 114 ∷ []);
  version = 48 ∷ 48 ∷ [];
  uname = field 32 (114 ∷ 111 ∷ 111 ∷ 116 ∷ []);
  gname = field 32 (114 ∷ 111 ∷ 111 ∷ 116 ∷ []);
  devmajor = replicate 8 0;
  devminor = replicate 8 0;
  prefix = replicate 155 0;
  padding = replicate 12 0;
}

-- For a file or a directory. A result of none is a name that is too long.
unfoldable pub ustar_make_header : List ℕ → Kind → (size : ℕ) → Option Header
unfolding strip_antisocial_prefixes fill_header calculate_chksum
ustar_make_header file_name type size =
    let name = strip_antisocial_prefixes file_name in
    let h = fill_header name type size in
    if ltb 99 (length name)
    then none
    else some (record h { chksum = octal_field 7 (calculate_chksum h) })

unfoldable pub octal_loop : List ℕ → (ofs value : ℕ) → Option ℕ
octal_loop [] ofs value = none
octal_loop (c ∷ s) ofs value =
    if leb 48 c && leb c 55
    then (if ltb ((2 ^ 32 - 1) / 8) value
        then none
        else octal_loop s (ofs + 1) (c - 48 + value * 8))
    else if (c == 32) || (c == 0)
    then (if ltb 0 ofs then some value else none)
    else none

unfoldable pub parse_octal_field : List ℕ → Option ℕ
unfolding octal_loop
parse_octal_field s = octal_loop s 0 0

unfoldable pub is_all_zeros : List ℕ → Bool
is_all_zeros [] = true
is_all_zeros (b ∷ bs) = (b == 0) && is_all_zeros bs

-- The messages of `ustar_parse_header`, and what it stores.
pub data Message : Type 0 where
  not_ustar invalid_version corrupt_chksum chksum_mismatch name_too_long unimplemented_type
        corrupt_size too_large :
      Message

pub data Parsed : Type 0 where
  end_of_archive : Parsed
  failed : Message → Parsed
  entry : (file_name : List ℕ) → Kind → (size : ℕ) → Parsed

-- A string in a field, up to its zero byte.
abbrev pub text_of : List ℕ → List ℕ
text_of [] = []
text_of (c ∷ s) = if c == 0 then [] else c ∷ text_of s

-- The last checks, for a file and for a directory.
unfoldable pub parse_kind : Header → Parsed
unfolding parse_octal_field strip_antisocial_prefixes
parse_kind h =
    let type = get_or h.typeflag 0 0 in
    if type == 48
    then elim (parse_octal_field h.size) [
      | none ↦ failed corrupt_size
      | some size ↦
          if ltb (2 ^ 31 - 1) size
          then failed too_large
          else entry (strip_antisocial_prefixes (text_of h.name)) regular size
    ]
    else if type == 53
    then entry (strip_antisocial_prefixes (text_of h.name)) directory 0
    else failed unimplemented_type

unfoldable pub ustar_parse_header : Header → Parsed
unfolding is_all_zeros parse_octal_field calculate_chksum parse_kind
ustar_parse_header h =
    if is_all_zeros (header_bytes h)
    then end_of_archive
    else if not (starts_with (117 ∷ 115 ∷ 116 ∷ 97 ∷ 114 ∷ 0 ∷ []) h.magic)
    then failed not_ustar
    else if not (starts_with (48 ∷ 48 ∷ []) h.version)
    then failed invalid_version
    else elim (parse_octal_field h.chksum) [
      | none ↦ failed corrupt_chksum
      | some chksum ↦
          if not (chksum == calculate_chksum h)
          then failed chksum_mismatch
          else if not (get_or h.name 99 0 == 0) || not (get_or h.prefix 0 0 == 0)
          then failed name_too_long
          else parse_kind h
    ]
