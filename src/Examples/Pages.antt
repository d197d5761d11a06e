-- ===== src/Examples/Pages.antt =====
-- palloc.c and malloc.c on two pools of eight pages, of which the kernel's has its first page in use.
use cs162hwproj.Prelude.{
  zero, suc, ap, eq_of_some, get_elem?, ◌<◌, ℕ, ◌≡◌, refl, ◌>>=◌, none, some, true, false, [], ◌∷◌,
  arith,
}
use cs162hwproj.Prelude.Returns.{Returns}
use cs162hwproj.Bitmap.Scan.{Group}
use cs162hwproj.Palloc.{Pools, Pool, palloc_get_multiple}
use cs162hwproj.Palloc.Pages.{IsPool, ArePools, Got, palloc_get_multiple-Got}
use cs162hwproj.Malloc.{Desc, desc_of, State, malloc}
use cs162hwproj.Malloc.Sizes.{ArePages, with_big, malloc_big}

abbrev kernel_pool : Pool
kernel_pool = record { used_map = record { bit_cnt = 8; bits = 1 ∷ [] }; base = 8192 }

abbrev user_pool : Pool
user_pool = record { used_map = record { bit_cnt = 8; bits = 0 ∷ [] }; base = 40960 }

abbrev pools : Pools
pools = record { kernel = kernel_pool; user = user_pool }

kernel_pool-IsPool : IsPool kernel_pool
kernel_pool-IsPool = record {
  valid = record { room = omega arith; small = omega arith };
  aligned = refl;
  above_null = omega arith;
  fits = omega arith;
}

pools-ArePools : ArePools pools
pools-ArePools = record {
  kernel_ = kernel_pool-IsPool;
  user_ = record {
    valid = record { room = omega arith; small = omega arith };
    aligned = refl;
    above_null = omega arith;
    fits = omega arith;
  };
  apart = omega arith;
}

first_page : Group kernel_pool.used_map 1 true 0
first_page = record {
  inside = omega arith;
  equal = λ j p q. let e : j ≡ 0 = omega arith in rw e refl;
}

palloc_get_multiple-Got_example :
    Returns
      (Got false true 2 pools (λ p. 7))
      (palloc_get_multiple false true false 2 pools (λ p. 7))
palloc_get_multiple-Got_example =
    palloc_get_multiple-Got false true 2 pools (λ p. 7) kernel_pool-IsPool (omega arith)

abbrev one_desc : State
one_desc = record { pools = pools; mem = λ p. 7; descs = desc_of 1024 ∷ []; arenas = λ p. none }

malloc_big_example :
    (pages : ℕ) × ArePages 5000 pages
    × (malloc 5000 one_desc ≡ (do
      got ← palloc_get_multiple false false false pages one_desc.pools one_desc.mem
      some (with_big pages one_desc got)))
malloc_big_example = malloc_big 5000 one_desc (omega arith) (omega arith) small
  where
    small : (j : ℕ) (d : Desc) → get_elem? one_desc.descs j ≡ some d → d.block_size < 5000
    small zero d e =
        let b : 1024 ≡ d.block_size = ap (λ (d : Desc). d.block_size) (eq_of_some e) in
        omega (arith, b)
    small (suc j) d e = absurd cc
