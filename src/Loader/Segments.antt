-- ===== src/Loader/Segments.antt =====
-- The pages of a segment that process.c accepts lie in the user's part of the address space.
use cs162hwproj.Prelude.{
  ℕ, zero, suc, ◌+◌, ◌-◌, ◌*◌, ◌/◌, ◌%◌, ◌^◌, ◌≤◌, ◌<◌, ◌≡◌, refl, ap, true, ◌||◌, List, [], ◌∷◌,
  arith, min, ltb, ◌==◌, if◌then◌else◌, length,
}
use cs162hwproj.Prelude.Returns
use cs162hwproj.Prelude.Returns.{Returns, returns}
use cs162hwproj.Loader.{
  Phdr, phys_base, validate_segment, round_up, Plan, plan_of, Page, page_loop, load_segment,
}

-- Pages one behind the other from `upage` on, in user space and above page 0, which take `read` bytes of the file first and zeros behind them.
abbrev pub AreLaid : (upage read : ℕ) → List Page → Type 0
AreLaid upage read [] = read ≡ 0
AreLaid upage read (p ∷ ps) =
    (p.upage ≡ upage)
    × (4096 ≤ upage)
    × (upage + 4096 ≤ phys_base)
    × (p.page_read_bytes ≡ min read 4096)
    × (p.page_read_bytes + p.page_zero_bytes ≡ 4096)
    × AreLaid (upage + 4096) (read - 4096) ps

page_loop-AreLaid :
    (fuel upage read clear n : ℕ)
    → read + clear ≡ 4096 * n
    → 4096 ≤ upage
    → upage + 4096 * n ≤ phys_base
    → n < fuel
    → Returns (λ ps. AreLaid upage read ps × (length ps ≡ n)) (page_loop fuel upage read clear)
unfolding page_loop
page_loop-AreLaid zero upage read clear n e p q f = absurd (omega arith)
page_loop-AreLaid (suc fuel) upage read clear zero e p q f =
    let r : read ≡ 0 = omega arith in
    let z : clear ≡ 0 = omega arith in rw (r, z) (returns (refl, refl))
page_loop-AreLaid (suc fuel) upage read clear (suc n) e p q f =
    let more : (ltb 0 read || ltb 0 clear) ≡ true = ground arith in
    let c : (if ltb read 4096 then read else 4096) ≡ min read 4096 = ground arith in
    let u : (upage + 4096) % 2 ^ 32 ≡ upage + 4096 = omega arith in
    let r : read - min read 4096 ≡ read - 4096 = omega arith in
    let z : (clear + 2 ^ 32 - (4096 - min read 4096)) % 2 ^ 32 ≡ clear - (4096 - min read 4096) =
      omega arith in
    let ih =
      page_loop-AreLaid fuel (upage + 4096) (read - 4096) (clear - (4096 - min read 4096)) n
        (omega arith) (omega arith) (omega arith) (omega arith) in
    rw (more, c, u, r, z)
      (Returns.bind ih
        λ ps (laid, l). returns ((refl, p, omega arith, refl, omega arith, laid), ap suc l))

balance : (a b : ℕ) → a ≤ b → b < 2 ^ 32 → a + (b + 2 ^ 32 - a) % 2 ^ 32 ≡ b
balance a b p q = omega arith

-- What the checks of a segment say.
record IsChecked (p : Phdr) : Type 0 where
  offset : p.p_offset % 4096 ≡ p.p_vaddr % 4096
  sizes : p.p_filesz ≤ p.p_memsz
  some_ : 0 < p.p_memsz
  inside : p.p_vaddr + p.p_memsz < phys_base
  above_null : 4096 ≤ p.p_vaddr

validate_segment-IsChecked :
    (p : Phdr) (file_length : ℕ)
    → p.p_memsz < 2 ^ 32
    → validate_segment p file_length ≡ true
    → IsChecked p
unfolding validate_segment
validate_segment-IsChecked p file_length m h = record {
  offset = ground arith;
  sizes = ground arith;
  some_ = ground arith;
  inside = ground arith;
  above_null = ground arith;
}

plan-AreLaid :
    (plan : Plan) (n : ℕ)
    → plan.read_bytes + plan.zero_bytes ≡ 4096 * n
    → plan.mem_page % 4096 ≡ 0
    → plan.file_page % 4096 ≡ 0
    → 4096 ≤ plan.mem_page
    → plan.mem_page + 4096 * n ≤ phys_base
    → Returns (λ ps. AreLaid plan.mem_page plan.read_bytes ps × (length ps ≡ n)) (load_segment plan)
unfolding load_segment
plan-AreLaid plan n e m f p q =
    let a : ((plan.read_bytes + plan.zero_bytes) % 2 ^ 32 % 4096 == 0) ≡ true = ground arith in
    let b : (plan.mem_page % 4096 == 0) ≡ true = ground arith in
    let c : (plan.file_page % 4096 == 0) ≡ true = ground arith in
    rw (a, b, c)
      (page_loop-AreLaid (plan.read_bytes + plan.zero_bytes + 1) plan.mem_page plan.read_bytes
        plan.zero_bytes n e p q (omega arith))

-- A segment that `validate_segment` accepts, with a size of 32 bits, passes the assertions of `load_segment`, whose loop ends if no page fails; the
-- pages follow each other, lie between page 0 and the kernel's addresses, contain the whole segment, and take from the file as many bytes as
-- the segment has there and the start of its first page has before it.
pub load_segment-AreLaid :
    (p : Phdr) (file_length : ℕ)
    → p.p_memsz < 2 ^ 32
    → validate_segment p file_length ≡ true
    → Returns
        (λ ps.
          AreLaid
            (p.p_vaddr - p.p_vaddr % 4096)
            (if ltb 0 p.p_filesz then p.p_vaddr % 4096 + p.p_filesz else 0)
            ps
          × (p.p_vaddr + p.p_memsz ≤ p.p_vaddr - p.p_vaddr % 4096 + 4096 * length ps))
        (load_segment (plan_of p))
unfolding plan_of
load_segment-AreLaid p file_length m h =
    let c = validate_segment-IsChecked p file_length m h in
    let n = (p.p_vaddr % 4096 + p.p_memsz + 4095) / 4096 in
    let total : round_up ((p.p_vaddr % 4096 + p.p_memsz) % 2 ^ 32) ≡ 4096 * n =
      omega (arith, c.inside, c.above_null) in
    let taken : (if ltb 0 p.p_filesz then (p.p_vaddr % 4096 + p.p_filesz) % 2 ^ 32 else 0)
        ≡ (if ltb 0 p.p_filesz then p.p_vaddr % 4096 + p.p_filesz else 0) =
      let i = c.inside in let s = c.sizes in ground arith in
    let fits : (if ltb 0 p.p_filesz then p.p_vaddr % 4096 + p.p_filesz else 0) ≤ 4096 * n =
      let s = c.sizes in ground arith in
    let sum : (if ltb 0 p.p_filesz then p.p_vaddr % 4096 + p.p_filesz else 0)
          + (4096 * n + 2 ^ 32 - (if ltb 0 p.p_filesz then p.p_vaddr % 4096 + p.p_filesz else 0))
            % 2 ^ 32
        ≡ 4096 * n =
      let i = c.inside in
      balance (if ltb 0 p.p_filesz then p.p_vaddr % 4096 + p.p_filesz else 0) (4096 * n) fits
        (omega arith) in
    let laid =
      plan-AreLaid (plan_of p) n (rw (total, taken) sum) (omega arith) (omega arith)
        (let b = c.above_null in omega arith) (let i = c.inside in omega arith) in
    Returns.mono laid λ ps (l, k). (rw taken at l, let i = c.inside in omega arith)
