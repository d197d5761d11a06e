-- ===== src/Random.antt =====
-- group0/src/lib/random.c: pseudo-random bytes. The state is the table of 256 bytes and the two indexes.
pub mod Permutation
use cs162hwproj.Prelude.{
  ℕ, zero, suc, ◌+◌, ◌*◌, ◌/◌, ◌%◌, Bool, true, false, List, [], ◌∷◌, ◌==◌, if◌then◌else◌, get_or,
}
use cs162hwproj.FreeMap.{elem_bytes}

abbrev pub Table : Type 0
Table = ℕ → ℕ

pub record State : Type 0 where
  pub s : Table
  pub s_i : ℕ
  pub s_j : ℕ
  pub inited : Bool

-- Exchanging the bytes with two indexes.
abbrev pub swap_byte : Table → ℕ → ℕ → Table
swap_byte s i j = λ k. if k == j then s i else if k == i then s j else s k

-- The second loop of `random_init`, with `n` rounds left.
unfoldable pub init_loop : (n i j : ℕ) → List ℕ → Table → Table
init_loop zero i j seedp s = s
init_loop (suc n) i j seedp s =
    let j' = (j + (s i + get_or seedp (i % 4) 0)) % 256 in
    init_loop n (i + 1) j' seedp (swap_byte s i j')

unfoldable pub random_init : (seed : ℕ) → State
unfolding init_loop
random_init seed = record {
  s = init_loop 256 0 0 (elem_bytes seed) (λ i. i);
  s_i = 0;
  s_j = 0;
  inited = true;
}

-- One round of `random_bytes`, which gives a byte.
unfoldable pub random_byte : State → ℕ × State
random_byte st =
    let i = (st.s_i + 1) % 256 in
    let j = (st.s_j + st.s i) % 256 in
    let s = swap_byte st.s i j in (s ((s i + s j) % 256), record st { s = s; s_i = i; s_j = j })

unfoldable pub bytes_loop : (size : ℕ) → State → List ℕ × State
unfolding random_byte
bytes_loop zero st = ([], st)
bytes_loop (suc size) st =
    let (byte, st') = random_byte st in
    let (bytes, st'') = bytes_loop size st' in (byte ∷ bytes, st'')

unfoldable pub random_bytes : (size : ℕ) → State → List ℕ × State
unfolding bytes_loop random_init
random_bytes size st = bytes_loop size (if st.inited then st else random_init 0)

unfoldable pub random_ulong : State → ℕ × State
unfolding random_bytes
random_ulong st =
    let (bs, st') = random_bytes 4 st in
    (get_or bs 0 0 + 256 * get_or bs 1 0 + 65536 * get_or bs 2 0 + 16777216 * get_or bs 3 0, st')
