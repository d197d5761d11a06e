-- ===== src/Malloc.antt =====
-- group0/src/threads/malloc.c: blocks of memory out of pages of Palloc. The headers of the arenas are kept by the
-- address of their page, and a free list is the sequence of its blocks' addresses.
pub mod Sizes
use cs162hwproj.Prelude.{
  ℕ, zero, suc, ◌+◌, ◌-◌, ◌*◌, ◌/◌, ◌%◌, ◌^◌, Bool, true, false, not, ◌&&◌, ◌||◌, Option, none,
  some, List, [], ◌∷◌, ◌++◌, ltb, leb, ◌==◌, if◌then◌else◌, min, length, set, get_elem?, ◌>>=◌,
  ◌>>◌, assert,
}
use cs162hwproj.CString.{Memory, memset, memcpy}
use cs162hwproj.Palloc.{
  Pools, page_size, pg_ofs, palloc_get_multiple, palloc_get_page, palloc_free_multiple,
  palloc_free_page,
}

-- `struct desc`, less its lock.
pub record Desc : Type 0 where
  pub block_size : ℕ
  pub blocks_per_arena : ℕ
  pub free_list : List ℕ

-- `struct arena`: the index of its descriptor, none for a big block.
pub record Arena : Type 0 where
  pub desc : Option ℕ
  pub free_cnt : ℕ

-- An address without a header has no `ARENA_MAGIC`.
pub record State : Type 0 where
  pub pools : Pools
  pub mem : Memory
  pub descs : List Desc
  pub arenas : ℕ → Option Arena

abbrev pub arena_size : ℕ
arena_size = 12

abbrev pub with_arena : (ℕ → Option Arena) → ℕ → Option Arena → ℕ → Option Arena
with_arena arenas a v = λ p. if p == a then v else arenas p

abbrev pub desc_of : ℕ → Desc
desc_of block_size = record {
  block_size = block_size;
  blocks_per_arena = (page_size - arena_size) / block_size;
  free_list = [];
}

-- The sizes double up to half a page, which takes fewer rounds than the fuel.
unfoldable pub init_loop : (fuel block_size : ℕ) → List Desc
init_loop zero block_size = []
init_loop (suc fuel) block_size =
    let rest = init_loop fuel (block_size * 2) in
    if ltb block_size (page_size / 2) then desc_of block_size ∷ rest else []

unfoldable pub malloc_init : Option (List Desc)
unfolding init_loop
malloc_init = do let descs = init_loop 8 16; assert (leb (length descs) 10); some descs

-- The smallest descriptor that is large enough, by its index.
unfoldable pub find_desc : List Desc → (size : ℕ) → Option ℕ
find_desc [] size = none
find_desc (d ∷ ds) size =
    if leb size d.block_size then some 0 else (find_desc ds size >>= λ i. some (suc i))

-- `DIV_ROUND_UP (size + sizeof *a, PGSIZE)`.
unfoldable pub big_pages : (size : ℕ) → ℕ
big_pages size = (size + arena_size + (page_size - 1)) % 2 ^ 32 / page_size

-- The blocks from index `i` on of the arena at `a`.
unfoldable pub blocks_from : (n i a block_size : ℕ) → List ℕ
blocks_from zero i a block_size = []
blocks_from (suc n) i a block_size =
    (a + arena_size + i * block_size) ∷ blocks_from n (i + 1) a block_size

-- `block_to_arena`, with its checks.
unfoldable pub block_to_arena : ℕ → State → Option (ℕ × Arena)
block_to_arena b st = do
  let a = b - pg_ofs b
  assert (not (a == 0))
  arena ← st.arenas a
  elim arena.desc [
    | none ↦ assert (pg_ofs b == arena_size)
    | some i ↦ (get_elem? st.descs i >>= λ d. assert ((pg_ofs b - arena_size) % d.block_size == 0))
  ]
  some (a, arena)

-- A new arena of a descriptor, whose blocks are all free.
unfoldable pub new_arena : (index : ℕ) → Desc → State → Option (Bool × State)
unfolding blocks_from
new_arena index d st = do
  (a, pools, mem) ← palloc_get_page false false false st.pools st.mem
  if a == 0
      then some (false, st)
      else some (
        true,
        record st {
          pools = pools;
          mem = mem;
          descs = set st.descs index (record d {
            free_list = d.free_list ++ blocks_from d.blocks_per_arena 0 a d.block_size;
          });
          arenas =
              with_arena st.arenas a
                (some (record { desc = some index; free_cnt = d.blocks_per_arena }));
        },
      )

unfoldable pub pop_block : (index : ℕ) → State → Option (ℕ × State)
unfolding block_to_arena
pop_block index st = do
  d ← get_elem? st.descs index
  elim d.free_list [
    | [] ↦ none
    | b ∷ rest ↦ do
      let st' = record st { descs = set st.descs index (record d { free_list = rest }) }
      (a, arena) ← block_to_arena b st'
      some (
        b,
        record st' {
          arenas = with_arena st.arenas a (some (record arena { free_cnt = arena.free_cnt - 1 }));
        },
      )
  ]

unfoldable pub malloc : (size : ℕ) → State → Option (ℕ × State)
unfolding find_desc big_pages new_arena pop_block
malloc size st = if size == 0 then some (0, st) else elim (find_desc st.descs size) [
  | none ↦ do
    (a, pools, mem) ← palloc_get_multiple false false false (big_pages size) st.pools st.mem
    if a == 0
        then some (0, st)
        else some (
          a + arena_size,
          record st {
            pools = pools;
            mem = mem;
            arenas =
                with_arena st.arenas a (some (record { desc = none; free_cnt = big_pages size }));
          },
        )
  | some index ↦ do
    d ← get_elem? st.descs index
    (filled, st') ← elim d.free_list [ [] ↦ new_arena index d st | b ∷ rest ↦ some (true, st) ]
    if filled then pop_block index st' else some (0, st')
]

-- The product, or none where the code finds that it does not fit.
unfoldable pub calloc_size : (a b : ℕ) → Option ℕ
calloc_size a b = let size = a * b % 2 ^ 32 in if ltb size a || ltb size b then none else some size

unfoldable pub calloc : (a b : ℕ) → State → Option (ℕ × State)
unfolding calloc_size malloc
calloc a b st = elim (calloc_size a b) [
  | none ↦ some (0, st)
  | some size ↦ do
    (p, st') ← malloc size st
    if p == 0
        then some (p, st')
        else (memset p 0 size st'.mem >>= λ (dst, mem). some (p, record st' { mem = mem }))
]

unfoldable pub block_size : (block : ℕ) → State → Option ℕ
unfolding block_to_arena
block_size block st = do
  (a, arena) ← block_to_arena block st
  elim arena.desc [
    | none ↦ some (page_size * arena.free_cnt - pg_ofs block)
    | some i ↦ (get_elem? st.descs i >>= λ d. some d.block_size)
  ]

-- A block that leaves the free list; each of these calls is for one that is in it.
unfoldable pub remove_block : ℕ → List ℕ → List ℕ
remove_block b [] = []
remove_block b (x ∷ xs) = if x == b then xs else x ∷ remove_block b xs

unfoldable pub remove_blocks : List ℕ → List ℕ → List ℕ
unfolding remove_block
remove_blocks [] xs = xs
remove_blocks (b ∷ bs) xs = remove_blocks bs (remove_block b xs)

-- A normal block of the arena at `a` goes back to its free list.
unfoldable pub free_normal : (p a index : ℕ) → Arena → State → Option State
unfolding blocks_from remove_blocks
free_normal p a index arena st = do
  d ← get_elem? st.descs index
  (dst, mem) ← memset p 204 d.block_size st.mem
  let free_list = p ∷ d.free_list
  let free_cnt = arena.free_cnt + 1
  if leb d.blocks_per_arena free_cnt
      then (do
        assert (free_cnt == d.blocks_per_arena)
        (pools, mem') ← palloc_free_page a st.pools mem
        some (record st {
          pools = pools;
          mem = mem';
          descs = set st.descs index (record d {
            free_list = remove_blocks (blocks_from d.blocks_per_arena 0 a d.block_size) free_list;
          });
          arenas = with_arena st.arenas a none;
        }))
      else some (record st {
        mem = mem;
        descs = set st.descs index (record d { free_list = free_list });
        arenas = with_arena st.arenas a (some (record arena { free_cnt = free_cnt }));
      })

unfoldable pub free : (p : ℕ) → State → Option State
unfolding block_to_arena free_normal
free p st = if p == 0 then some st else (do
  (a, arena) ← block_to_arena p st
  elim arena.desc [
    | some index ↦ free_normal p a index arena st
    | none ↦ do
      (pools, mem) ← palloc_free_multiple a arena.free_cnt st.pools st.mem
      some (record st { pools = pools; mem = mem; arenas = with_arena st.arenas a none })
  ])

unfoldable pub realloc : (old_block new_size : ℕ) → State → Option (ℕ × State)
unfolding malloc free block_size
realloc old_block new_size st =
    if new_size == 0 then (free old_block st >>= λ st'. some (0, st')) else (do
      (new_block, st1) ← malloc new_size st
      if not (old_block == 0) && not (new_block == 0)
          then (do
            old_size ← block_size old_block st1
            (dst, mem) ← memcpy new_block old_block (min new_size old_size) st1.mem
            st2 ← free old_block (record st1 { mem = mem })
            some (new_block, st2))
          else some (new_block, st1))
