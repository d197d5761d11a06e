-- ===== src/Malloc/Sizes.antt =====
-- The sizes that malloc.c computes.
use cs162hwproj.Prelude.{
  ℕ, zero, suc, ◌+◌, ◌-◌, ◌*◌, ◌^◌, ◌≤◌, ◌<◌, ◌≡◌, refl, false, ◌==◌, ◌>>=◌, Option, none, some,
  List, [], ◌∷◌, arith, leb, ltb, if◌then◌else◌, inl, inr, Bool-cases, Option-cases, eq_of_some,
  get_elem?,
}
use cs162hwproj.CString.{Memory}
use cs162hwproj.Palloc.{Pools, palloc_get_multiple}
use cs162hwproj.Malloc.{Desc, State, arena_size, with_arena, find_desc, big_pages, malloc}

-- The pages of a big block: they hold it and the header of its arena, and there is no page too many. From
-- 2^32 - 4107 bytes on the sum overflows, and there is a page at most, or none, that cannot hold the block.
abbrev pub ArePages : (size pages : ℕ) → Type 0
ArePages size pages =
    if ltb size (2 ^ 32 - 4107)
    then (size + 12 ≤ 4096 * pages) × (4096 * pages < size + 12 + 4096)
    else ((pages ≤ 1) × (4096 * pages < size))

big_pages-ArePages : (size : ℕ) → size < 2 ^ 32 → ArePages size (big_pages size)
unfolding big_pages
big_pages-ArePages size h = elim (Bool-cases (ltb size (2 ^ 32 - 4107))) [
  | inl y ↦ let p : size < 2 ^ 32 - 4107 = ground arith in rw y (omega arith, omega arith)
  | inr n ↦ let p : 2 ^ 32 - 4107 ≤ size = ground arith in rw n (omega arith, omega arith)
]

abbrev pub AllSmaller : List Desc → (n size : ℕ) → Type 0
AllSmaller ds n size = (j : ℕ) (d : Desc) → j < n → get_elem? ds j ≡ some d → d.block_size < size

-- The first descriptor whose blocks are large enough, or that there is none.
abbrev pub FirstFit : List Desc → (size : ℕ) → Option ℕ → Type 0
FirstFit ds size none = (j : ℕ) (d : Desc) → get_elem? ds j ≡ some d → d.block_size < size
FirstFit ds size (some i) =
    (d : Desc) × (get_elem? ds i ≡ some d) × (size ≤ d.block_size) × AllSmaller ds i size

-- The search of `malloc` finds the first descriptor whose blocks are large enough for the size, and finds none only if
-- the blocks of all descriptors are smaller.
pub find_desc-FirstFit : (ds : List Desc) (size : ℕ) → FirstFit ds size (find_desc ds size)
unfolding find_desc
find_desc-FirstFit [] size = λ j d e. cc
find_desc-FirstFit (d ∷ ds) size = elim (Bool-cases (leb size d.block_size)) [
  | inl y ↦ rw y (d, refl, ground arith, λ j e p. absurd (omega arith))
  | inr n ↦
      let rest = find_desc-FirstFit ds size in
      let small : d.block_size < size = ground arith in
      elim (Option-cases (find_desc ds size)) [
        | inl z ↦ rw (n, z) (behind none (rw z at rest) small)
        | inr (i, z) ↦ let (e, p, q, r) = rw z at rest in rw (n, z) (e, p, q, before i r small)
      ]
]
  where
    behind :
        (r : Option ℕ) → FirstFit ds size none → d.block_size < size → FirstFit (d ∷ ds) size none
    behind r f small zero e h = let g : d ≡ e = eq_of_some h in rw (← g) small
    behind r f small (suc j) e h = f j e h

    before : (i : ℕ) → AllSmaller ds i size → d.block_size < size → AllSmaller (d ∷ ds) (suc i) size
    before i f small zero e p h = let g : d ≡ e = eq_of_some h in rw (← g) small
    before i f small (suc j) e p h = f j e (omega arith) h

-- The state with a big block of `pages` pages at `a`, or as it was if there is no page.
abbrev pub with_big : (pages : ℕ) → State → ℕ × Pools × Memory → ℕ × State
with_big pages st (a, pools, mem) = if a == 0 then (0, st) else (
  a + 12,
  record st {
    pools = pools;
    mem = mem;
    arenas = with_arena st.arenas a (some (record { desc = none; free_cnt = pages }));
  },
)

too_large_for_all :
    (ds : List Desc) (size : ℕ)
    → ((j : ℕ) (d : Desc) → get_elem? ds j ≡ some d → d.block_size < size)
    → find_desc ds size ≡ none
too_large_for_all ds size h = elim (Option-cases (find_desc ds size)) [
  | inl n ↦ n
  | inr (i, e) ↦
      let (d, g, l, s) : FirstFit ds size (some i) = rw e at (find_desc-FirstFit ds size) in
      absurd (omega (arith, h i d g))
]

-- For a size that is a `size_t` and is larger than the blocks of all descriptors, `malloc` takes a number of pages at
-- once, and returns the address behind the header of the first one, with the number in that header, or a null pointer,
-- with nothing changed, if there are no such pages. Up to 2^32 - 4108 bytes the pages hold the block and the header,
-- and there is no page too many; a larger size gets a page at most, or none, that cannot hold the block.
pub malloc_big :
    (size : ℕ) (st : State)
    → 0 < size
    → size < 2 ^ 32
    → ((j : ℕ) (d : Desc) → get_elem? st.descs j ≡ some d → d.block_size < size)
    → (pages : ℕ) × ArePages size pages
      × (malloc size st ≡ (do
        got ← palloc_get_multiple false false false pages st.pools st.mem
        some (with_big pages st got)))
unfolding malloc
malloc_big size st p h s =
    let z : (size == 0) ≡ false = ground arith in
    (
      big_pages size,
      big_pages-ArePages size h,
      rw (z, too_large_for_all st.descs size s)
          (big_of size st (palloc_get_multiple false false false (big_pages size) st.pools st.mem)),
    )
  where
    big_of :
        (size : ℕ) (st : State) (r : Option (ℕ × Pools × Memory))
        → (do
          (a, pools, mem) ← r
          if a == 0
              then some (0, st)
              else some (
                a + arena_size,
                record st {
                  pools = pools;
                  mem = mem;
                  arenas =
                      with_arena st.arenas a
                        (some (record { desc = none; free_cnt = big_pages size }));
                },
              ))
          ≡ (do got ← r; some (with_big (big_pages size) st got))
    big_of size st none = refl
    big_of size st (some (a, pools, mem)) = elim (Bool-cases (a == 0)) [
      | inl y ↦ rw y refl
      | inr n ↦ rw n refl
    ]
