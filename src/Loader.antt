-- ===== src/Loader.antt =====
-- group0/src/userprog/process.c: the segments of a program, which `load` checks and reads page by page. Addresses and
-- sizes are numbers of 32 bits. What a page is read into, and its mapping, stand behind the plan of the pages.
pub mod Segments
use cs162hwproj.Prelude.{
  ℕ, zero, suc, ◌+◌, ◌-◌, ◌*◌, ◌/◌, ◌%◌, ◌^◌, Bool, true, false, not, ◌&&◌, ◌||◌, Option, none,
  some, List, [], ◌∷◌, ltb, leb, ◌==◌, if◌then◌else◌, ◌>>=◌, ◌>>◌, assert,
}
use cs162hwproj.Palloc.{page_size, pg_ofs}

abbrev pub phys_base : ℕ
phys_base = 3221225472

abbrev pub is_user_vaddr : ℕ → Bool
is_user_vaddr vaddr = ltb vaddr phys_base

-- The members of `struct Elf32_Phdr` that `load` reads.
pub record Phdr : Type 0 where
  pub p_type : ℕ
  pub p_offset : ℕ
  pub p_vaddr : ℕ
  pub p_filesz : ℕ
  pub p_memsz : ℕ
  pub p_flags : ℕ

abbrev pub end_of : Phdr → ℕ
end_of p = (p.p_vaddr + p.p_memsz) % 2 ^ 32

unfoldable pub validate_segment : Phdr → (file_length : ℕ) → Bool
validate_segment p file_length =
    if not (pg_ofs p.p_offset == pg_ofs p.p_vaddr)
    then false
    else if ltb file_length p.p_offset
    then false
    else if ltb p.p_memsz p.p_filesz
    then false
    else if p.p_memsz == 0
    then false
    else if not (is_user_vaddr p.p_vaddr)
    then false
    else if not (is_user_vaddr (end_of p))
    then false
    else if ltb (end_of p) p.p_vaddr
    then false
    else not (ltb p.p_vaddr page_size)

-- `ROUND_UP (x, PGSIZE)` of 32-bit numbers.
abbrev pub round_up : ℕ → ℕ
round_up x = (x + (page_size - 1)) % 2 ^ 32 / page_size * page_size % 2 ^ 32

-- The arguments that `load` gives to `load_segment`.
pub record Plan : Type 0 where
  pub file_page : ℕ
  pub mem_page : ℕ
  pub read_bytes : ℕ
  pub zero_bytes : ℕ
  pub writable : Bool

unfoldable pub plan_of : Phdr → Plan
plan_of p =
    let page_offset = pg_ofs p.p_vaddr in
    let total = round_up ((page_offset + p.p_memsz) % 2 ^ 32) in
    let read_bytes = if ltb 0 p.p_filesz then (page_offset + p.p_filesz) % 2 ^ 32 else 0 in
    record {
      file_page = p.p_offset - pg_ofs p.p_offset;
      mem_page = p.p_vaddr - page_offset;
      read_bytes = read_bytes;
      zero_bytes = (total + 2 ^ 32 - read_bytes) % 2 ^ 32;
      writable = not (p.p_flags / 2 % 2 == 0);
    }

-- A page of a segment: its address, and how many bytes of it are read and cleared.
pub record Page : Type 0 where
  pub upage : ℕ
  pub page_read_bytes : ℕ
  pub page_zero_bytes : ℕ

-- The pages that the loop of `load_segment` fills, if nothing fails. Each round takes a page off what is left, so that
-- it ends before fuel as large.
unfoldable pub page_loop : (fuel : ℕ) → (upage read_bytes zero_bytes : ℕ) → Option (List Page)
page_loop zero upage read_bytes zero_bytes = none
page_loop (suc fuel) upage read_bytes zero_bytes =
    let page_read = if ltb read_bytes page_size then read_bytes else page_size in
    let page_zero = page_size - page_read in
    let rest =
      page_loop fuel ((upage + page_size) % 2 ^ 32) (read_bytes - page_read)
        ((zero_bytes + 2 ^ 32 - page_zero) % 2 ^ 32) in
    if ltb 0 read_bytes || ltb 0 zero_bytes
    then (rest >>= λ pages. some (
        record { upage = upage; page_read_bytes = page_read; page_zero_bytes = page_zero } ∷ pages))
    else some []

unfoldable pub load_segment : Plan → Option (List Page)
unfolding page_loop
load_segment plan = do
  assert ((plan.read_bytes + plan.zero_bytes) % 2 ^ 32 % page_size == 0)
  assert (pg_ofs plan.mem_page == 0)
  assert (plan.file_page % page_size == 0)
  page_loop (plan.read_bytes + plan.zero_bytes + 1) plan.mem_page plan.read_bytes plan.zero_bytes
