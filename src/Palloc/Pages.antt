-- ===== src/Palloc/Pages.antt =====
-- Which pages palloc.c gives out.
use cs162hwproj.Prelude.{
  ℕ, zero, suc, ◌+◌, ◌-◌, ◌*◌, ◌/◌, ◌%◌, ◌^◌, ◌≤◌, ◌<◌, ◌≡◌, refl, ◌∙◌, Bool, true, false, not,
  ◌&&◌, ◌||◌, some, arith, ltb, leb, ◌==◌, if◌then◌else◌, inl, inr, Bool-cases, ◌>>=◌, ◌>>◌,
}
use cs162hwproj.Prelude.Returns
use cs162hwproj.Prelude.Returns.{Returns, returns}
use cs162hwproj.Bitmap.{Bitmap, bitmap_error, all_set}
use cs162hwproj.Bitmap.Bit.{IsValid}
use cs162hwproj.Bitmap.Range.{Sets, set_multiple-Sets}
use cs162hwproj.Bitmap.Scan.{
  Group, Flipped, found, absent, scan_and_flip-Flipped, Holds, contains-Holds,
}
use cs162hwproj.CString.{Memory, put, memset, memset_loop}
use cs162hwproj.Palloc.{
  Pool, Pools, pool_of, with_pool, hand_out, palloc_get_multiple, page_from_pool, take_back,
  palloc_free_multiple,
}

-- A pool whose pages are addresses of 32 bits, and none of them null.
pub record IsPool (p : Pool) : Type 0 where
  pub valid : IsValid p.used_map
  pub aligned : p.base % 4096 ≡ 0
  pub above_null : 0 < p.base
  pub fits : p.base + 4096 * p.used_map.bit_cnt ≤ 2 ^ 32

memset_loop-fills :
    (size dst value : ℕ) (mem : Memory) (q : ℕ)
    → memset_loop size dst value mem q
      ≡ (if leb dst q && ltb q (dst + size) then value % 256 else mem q)
unfolding memset_loop
memset_loop-fills zero dst value mem q = ground arith
memset_loop-fills (suc size) dst value mem q =
    memset_loop-fills size (dst + 1) value (put mem dst (value % 256)) q ∙ ground arith

-- What a call for `cnt` pages gives: pages in a row of which none was in use, now filled with zeros if that was asked
-- for, and exactly these are in use as well; or nothing, as there are not so many in a row.
pub data Got (user zero_ : Bool) (cnt : ℕ) (ps : Pools) (mem : Memory)
    : ℕ × Pools × Memory → Type 0 where
  given :
      {idx : ℕ} {map : Bitmap} {mem' : Memory}
      → Group (pool_of user ps).used_map cnt false idx
      → Sets (pool_of user ps).used_map idx (idx + cnt) true map
      → ((q : ℕ)
          → mem' q ≡ (
              if zero_
                && (leb ((pool_of user ps).base + 4096 * idx) q
                    && ltb q ((pool_of user ps).base + 4096 * idx + 4096 * cnt))
              then 0
              else mem q))
      → Got user zero_ cnt ps mem (
        (pool_of user ps).base + 4096 * idx,
        with_pool user ps (record (pool_of user ps) { used_map = map }),
        mem',
      )
  refused :
      ((k : ℕ) → ¬ Group (pool_of user ps).used_map cnt false k)
      → Got user zero_ cnt ps mem (0, with_pool user ps (pool_of user ps), mem)

hand_out-fills :
    (zero_ : Bool) (pages cnt : ℕ) (ps : Pools) (mem : Memory)
    → 0 < pages
    → Returns
        (λ (address, ps', mem').
          (address ≡ pages)
          × (ps' ≡ ps)
          × ((q : ℕ)
              → mem' q
                ≡ (if zero_ && (leb pages q && ltb q (pages + 4096 * cnt)) then 0 else mem q)))
        (hand_out zero_ false pages cnt ps mem)
unfolding hand_out memset
hand_out-fills zero_ pages cnt ps mem p =
    let some_ : (pages == 0) ≡ false = ground arith in
    rw some_ (elim (Bool-cases zero_) [
      | inl y ↦ rw y (returns (refl, refl, memset_loop-fills (4096 * cnt) pages 0 mem))
      | inr n ↦ rw n (returns (refl, refl, λ q. refl))
    ])

hand_out_null :
    (zero_ : Bool) (cnt : ℕ) (ps : Pools) (mem : Memory)
    → hand_out zero_ false 0 cnt ps mem ≡ some (0, ps, mem)
unfolding hand_out
hand_out_null zero_ cnt ps mem = refl

-- `palloc_get_multiple` for one or more pages, without `PAL_ASSERT`, on a pool of pages that are addresses, fails no
-- assertion. Either it gives pages of that pool in a row, of which none was in use; exactly these are then in use as well,
-- and with `PAL_ZERO` all their bytes are zero; no other byte of the memory has changed. Or it gives a null pointer,
-- there are not so many free pages in a row, and nothing has changed.
pub palloc_get_multiple-Got :
    (user zero_ : Bool) (cnt : ℕ) (ps : Pools) (mem : Memory)
    → IsPool (pool_of user ps)
    → 0 < cnt
    → Returns (Got user zero_ cnt ps mem) (palloc_get_multiple user zero_ false cnt ps mem)
unfolding palloc_get_multiple
palloc_get_multiple-Got user zero_ cnt ps mem p pos =
    let some_ : (cnt == 0) ≡ false = ground arith in
    rw some_ (
      Returns.bind (scan_and_flip-Flipped p.valid 0 (omega arith))
        λ (idx, map) flipped. answer idx map flipped)
  where
    answer :
        (idx : ℕ) (map : Bitmap)
        → Flipped (pool_of user ps).used_map 0 cnt false idx map
        → Returns (Got user zero_ cnt ps mem) (
            hand_out zero_ false
              (if idx == bitmap_error then 0 else ((pool_of user ps).base + 4096 * idx) % 2 ^ 32)
              cnt
              (with_pool user ps (record (pool_of user ps) { used_map = map }))
              mem)
    answer idx map (absent e same_ all) =
        rw (e, same_, hand_out_null zero_ cnt (with_pool user ps (pool_of user ps)) mem)
          (returns (refused (λ k. all k (omega arith))))
    answer idx map (found q g first s) =
        let ne : (idx == bitmap_error) ≡ false = ground (arith, g.inside, p.valid.small) in
        let below : ((pool_of user ps).base + 4096 * idx) % 2 ^ 32
            ≡ (pool_of user ps).base + 4096 * idx =
          omega (arith, p.fits, g.inside) in
        rw (ne, below)
          (Returns.mono
            (hand_out-fills zero_ ((pool_of user ps).base + 4096 * idx) cnt
              (with_pool user ps (record (pool_of user ps) { used_map = map })) mem
              (omega (arith, p.above_null)))
            λ (address, ps', mem') (a, b, c). rw (a, b) (given g s c))

-- Both pools, of which the kernel's lies below the other.
pub record ArePools (ps : Pools) : Type 0 where
  pub kernel_ : IsPool ps.kernel
  pub user_ : IsPool ps.user
  pub apart : ps.kernel.base + 4096 * ps.kernel.used_map.bit_cnt ≤ ps.user.base

all_set-taken :
    {b : Bitmap} (idx cnt : ℕ)
    → IsValid b
    → Group b cnt true idx
    → Returns (λ taken. taken ≡ true) (all_set b idx cnt)
unfolding all_set
all_set-taken {b} idx cnt v g =
    Returns.bind (contains-Holds false v idx cnt g.inside) λ c r. all_taken c r
  where
    all_taken :
        (c : Bool)
        → Holds b idx (idx + cnt) false c
        → Returns (λ taken. taken ≡ true) (some (not c))
    all_taken true r = absurd (let (j, p, q, e) = r.found refl in ground (arith, g.equal j))
    all_taken false r = returns refl

ArePools-IsPool : (user : Bool) {ps : Pools} → ArePools ps → IsPool (pool_of user ps)
ArePools-IsPool true a = a.user_
ArePools-IsPool false a = a.kernel_

page_from_pool-place :
    (user : Bool) {ps : Pools} (idx : ℕ)
    → ArePools ps
    → idx < (pool_of user ps).used_map.bit_cnt
    → (page_from_pool ps.kernel ((pool_of user ps).base + 4096 * idx) ≡ not user)
      × (page_from_pool ps.user ((pool_of user ps).base + 4096 * idx) ≡ user)
unfolding page_from_pool
page_from_pool-place true {ps} idx a h =
    let k = a.kernel_.aligned in
    let u = a.user_.aligned in let p = a.apart in (ground arith, ground arith)
page_from_pool-place false {ps} idx a h =
    let k = a.kernel_.aligned in
    let u = a.user_.aligned in let p = a.apart in (ground arith, ground arith)

abbrev pub TakenBack : (user : Bool) → (idx cnt : ℕ) → Pools → Pools × Memory → Type 0
TakenBack user idx cnt ps (ps', mem') =
    (map : Bitmap) × (ps' ≡ with_pool user ps (record (pool_of user ps) { used_map = map }))
    × Sets (pool_of user ps).used_map idx (idx + cnt) false map

take_back-TakenBack :
    (user : Bool) (idx cnt : ℕ) (ps : Pools) (mem : Memory)
    → IsPool (pool_of user ps)
    → Group (pool_of user ps).used_map cnt true idx
    → Returns
        (TakenBack user idx cnt ps)
        (take_back user ((pool_of user ps).base + 4096 * idx) cnt ps mem)
unfolding take_back memset
take_back-TakenBack user idx cnt ps mem p g =
    let nn : (((pool_of user ps).base + 4096 * idx) == 0) ≡ false =
      let b = p.above_null in ground arith in
    let place : ((pool_of user ps).base + 4096 * idx) / 4096 - (pool_of user ps).base / 4096 ≡ idx =
      let b = p.aligned in omega arith in
    rw (nn, place)
      (Returns.bind (all_set-taken idx cnt p.valid g) λ taken e. rw e (
        Returns.bind (set_multiple-Sets idx cnt false p.valid g.inside)
          λ map s. returns (map, refl, s)))

-- `palloc_free_multiple` of one or more pages of one of the pools that are all in use, where the kernel's pool lies below
-- the user pool, fails no assertion: exactly these pages are then free as well, and the other pool is as it was.
pub palloc_free_multiple-TakenBack :
    (user : Bool) (idx cnt : ℕ) (ps : Pools) (mem : Memory)
    → ArePools ps
    → 0 < cnt
    → Group (pool_of user ps).used_map cnt true idx
    → Returns
        (TakenBack user idx cnt ps)
        (palloc_free_multiple ((pool_of user ps).base + 4096 * idx) cnt ps mem)
unfolding palloc_free_multiple
palloc_free_multiple-TakenBack user idx cnt ps mem a pos g =
    let ip = ArePools-IsPool user a in
    let (k, u) = page_from_pool-place user idx a (omega (arith, g.inside)) in
    let aligned : (((pool_of user ps).base + 4096 * idx) % 4096 == 0) ≡ true =
      let b = ip.aligned in ground arith in
    let some_ : ((((pool_of user ps).base + 4096 * idx) == 0) || (cnt == 0)) ≡ false =
      let b = ip.above_null in ground arith in
    let t = take_back-TakenBack user idx cnt ps mem ip g in
    rw (aligned, ◌>>◌, ◌>>=◌, some_, k, u)
      (elim (Bool-cases user) [ inl y ↦ rw y (rw y at t) | inr y ↦ rw y (rw y at t) ])
