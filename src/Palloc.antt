-- ===== src/Palloc.antt =====
-- group0/src/threads/palloc.c: giving out pages of the kernel's two pools. An address is a number of 32 bits.
pub mod Pages
use cs162hwproj.Prelude.{
  ℕ, ◌+◌, ◌-◌, ◌*◌, ◌/◌, ◌%◌, ◌^◌, Bool, true, false, not, ◌&&◌, ◌||◌, Option, none, some, List,
  ltb, leb, ◌==◌, if◌then◌else◌, min, ◌>>=◌, ◌>>◌, assert,
}
use cs162hwproj.Bitmap.{
  Bitmap, bitmap_error, size, buf_size, scan_and_flip, set_multiple, all_set, create_in_buf,
}
use cs162hwproj.CString.{Memory, memset}

abbrev pub page_size : ℕ
page_size = 4096

abbrev pub pg_no : ℕ → ℕ
pg_no va = va / page_size

abbrev pub pg_ofs : ℕ → ℕ
pg_ofs va = va % page_size

-- `struct pool`, less its lock, which each call holds while it uses the map.
pub record Pool : Type 0 where
  pub used_map : Bitmap
  pub base : ℕ

pub record Pools : Type 0 where
  pub kernel : Pool
  pub user : Pool

abbrev pub pool_of : (user : Bool) → Pools → Pool
pool_of user ps = if user then ps.user else ps.kernel

abbrev pub with_pool : (user : Bool) → Pools → Pool → Pools
with_pool user ps p = if user then record ps { user = p } else record ps { kernel = p }

-- `bm_pages` is computed with the wrap-around of `size_t`; `storage` is what the memory at `base` holds.
unfoldable pub init_pool : (base page_cnt : ℕ) → (storage : List ℕ) → Option Pool
init_pool base page_cnt storage = do
  let bm_pages = (buf_size page_cnt + (page_size - 1)) % 2 ^ 32 / page_size
  assert (leb bm_pages page_cnt)
  map ← create_in_buf (page_cnt - bm_pages) storage (bm_pages * page_size)
  some (record { used_map = map; base = base + bm_pages * page_size })

-- `free_start` and `free_end` are the addresses of the memory that is free.
unfoldable pub palloc_init :
    (free_start free_end user_page_limit : ℕ)
    → (kernel_storage user_storage : List ℕ) → Option Pools
unfolding init_pool
palloc_init free_start free_end user_page_limit kernel_storage user_storage = do
  let free_pages = (free_end - free_start) / page_size
  let user_pages = min (free_pages / 2) user_page_limit
  let kernel_pages = free_pages - user_pages
  kernel ← init_pool free_start kernel_pages kernel_storage
  user ← init_pool (free_start + kernel_pages * page_size) user_pages user_storage
  some (record { kernel = kernel; user = user })

-- The end of `palloc_get_multiple`: clearing the pages, or the panic that was asked for.
unfoldable pub hand_out :
    (zero_ assert_ : Bool) → (pages page_cnt : ℕ) → Pools → Memory → Option (ℕ × Pools × Memory)
hand_out zero_ assert_ pages page_cnt ps mem =
    if not (pages == 0)
    then (if zero_
        then (memset pages 0 (page_size * page_cnt) mem >>= λ (dst, mem'). some (pages, ps, mem'))
        else some (pages, ps, mem))
    else (if assert_ then none else some (0, ps, mem))

-- The flags are `PAL_USER`, `PAL_ZERO` and `PAL_ASSERT`. The result is an address, 0 for none.
unfoldable pub palloc_get_multiple :
    (user zero_ assert_ : Bool) → (page_cnt : ℕ) → Pools → Memory → Option (ℕ × Pools × Memory)
unfolding hand_out
palloc_get_multiple user zero_ assert_ page_cnt ps mem =
    if page_cnt == 0 then some (0, ps, mem) else (do
      let pool = pool_of user ps
      (page_idx, map) ← scan_and_flip pool.used_map 0 page_cnt false
      hand_out zero_ assert_
          (if page_idx == bitmap_error then 0 else (pool.base + page_size * page_idx) % 2 ^ 32)
          page_cnt (with_pool user ps (record pool { used_map = map })) mem)

unfoldable pub palloc_get_page :
    (user zero_ assert_ : Bool) → Pools → Memory → Option (ℕ × Pools × Memory)
unfolding palloc_get_multiple
palloc_get_page user zero_ assert_ ps mem = palloc_get_multiple user zero_ assert_ 1 ps mem

unfoldable pub page_from_pool : Pool → (page : ℕ) → Bool
page_from_pool pool page =
    let start_page = pg_no pool.base in
    leb start_page (pg_no page) && ltb (pg_no page) (start_page + size pool.used_map)

-- The end of `palloc_free_multiple`, where `NDEBUG` is not defined.
unfoldable pub take_back :
    (user : Bool) → (pages page_cnt : ℕ) → Pools → Memory → Option (Pools × Memory)
take_back user pages page_cnt ps mem = do
  let pool = pool_of user ps
  let page_idx = pg_no pages - pg_no pool.base
  (dst, mem') ← memset pages 204 (page_size * page_cnt) mem
  taken ← all_set pool.used_map page_idx page_cnt
  assert taken
  map ← set_multiple pool.used_map page_idx page_cnt false
  some (with_pool user ps (record pool { used_map = map }), mem')

unfoldable pub palloc_free_multiple :
    (pages page_cnt : ℕ) → Pools → Memory → Option (Pools × Memory)
unfolding page_from_pool take_back
palloc_free_multiple pages page_cnt ps mem = do
  assert (pg_ofs pages == 0)
  if (pages == 0) || (page_cnt == 0)
      then some (ps, mem)
      else (if page_from_pool ps.kernel pages
          then take_back false pages page_cnt ps mem
          else if page_from_pool ps.user pages
          then take_back true pages page_cnt ps mem
          else none)

unfoldable pub palloc_free_page : (page : ℕ) → Pools → Memory → Option (Pools × Memory)
unfolding palloc_free_multiple
palloc_free_page page ps mem = palloc_free_multiple page 1 ps mem
