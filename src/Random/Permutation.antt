-- ===== src/Random/Permutation.antt =====
-- The table of random.c is a permutation of the bytes at all times.
use cs162hwproj.Prelude.{
  ℕ, zero, suc, ◌+◌, ◌%◌, ◌<◌, ◌≤◌, ◌≡◌, refl, sym, ap, ◌∙◌, Bool, true, false, List, [], ◌∷◌,
  arith, ◌==◌, if◌then◌else◌, inl, inr, Bool-cases, get_or, length,
}
use cs162hwproj.FreeMap.{elem_bytes}
use cs162hwproj.Random.{
  Table, State, swap_byte, init_loop, random_init, random_byte, bytes_loop, random_bytes,
}

-- Every entry is a byte, and no two are equal.
pub record IsPermutation (s : Table) : Type 0 where
  pub byte : (i : ℕ) → i < 256 → s i < 256
  pub apart : (i j : ℕ) → i < 256 → j < 256 → s i ≡ s j → i ≡ j

-- What holds of the state between calls, once it is initialized.
pub record IsState (st : State) : Type 0 where
  pub table : IsPermutation st.s
  pub i_ : st.s_i < 256
  pub j_ : st.s_j < 256

abbrev pub AllBytes : List ℕ → Type 0
AllBytes [] = Unit
AllBytes (b ∷ bs) = (b < 256) × AllBytes bs

abbrev swapped : ℕ → ℕ → ℕ → ℕ
swapped i j k = if k == j then i else if k == i then j else k

swap_byte-IsPermutation :
    (s : Table) (i j : ℕ) → i < 256 → j < 256 → IsPermutation s → IsPermutation (swap_byte s i j)
swap_byte-IsPermutation s i j p q h = record {
  byte = λ k r. rw (at k) (h.byte (swapped i j k) (ground arith));
  apart = λ k l r t e.
      let u =
        h.apart (swapped i j k) (swapped i j l) (ground arith) (ground arith)
          (sym (at k) ∙ e ∙ at l) in
      ground arith;
}
  where
    at : (k : ℕ) → swap_byte s i j k ≡ s (swapped i j k)
    at k = elim (Bool-cases (k == j)) [
      | inl y ↦ rw y refl
      | inr n ↦ rw n (elim (Bool-cases (k == i)) [ inl y ↦ rw y refl | inr m ↦ rw m refl ])
    ]

init_loop-IsPermutation :
    (n i j : ℕ) (seedp : List ℕ) (s : Table)
    → i + n ≤ 256
    → IsPermutation s
    → IsPermutation (init_loop n i j seedp s)
unfolding init_loop
init_loop-IsPermutation zero i j seedp s p h = h
init_loop-IsPermutation (suc n) i j seedp s p h =
    let j' = (j + (s i + get_or seedp (i % 4) 0)) % 256 in
    init_loop-IsPermutation n (i + 1) j' seedp (swap_byte s i j') (omega arith)
      (swap_byte-IsPermutation s i j' (omega arith) (omega arith) h)

random_init-IsState : (seed : ℕ) → IsState (random_init seed)
unfolding random_init
random_init-IsState seed = record {
  table =
      init_loop-IsPermutation 256 0 0 (elem_bytes seed) (λ i. i) (omega arith)
        (record { byte = λ i p. p; apart = λ i j p q e. e });
  i_ = omega arith;
  j_ = omega arith;
}

random_byte-IsState :
    (st : State) → IsState st → ((random_byte st).0 < 256) × IsState (random_byte st).1
unfolding random_byte
random_byte-IsState st h =
    let i = (st.s_i + 1) % 256 in
    let j = (st.s_j + st.s i) % 256 in
    let t = swap_byte-IsPermutation st.s i j (omega arith) (omega arith) h.table in
    (
      t.byte ((swap_byte st.s i j i + swap_byte st.s i j j) % 256) (omega arith),
      record { table = t; i_ = omega arith; j_ = omega arith },
    )

bytes_loop-IsState :
    (size : ℕ) (st : State)
    → IsState st
    → AllBytes (bytes_loop size st).0
      × (length (bytes_loop size st).0 ≡ size)
      × IsState (bytes_loop size st).1
unfolding bytes_loop
bytes_loop-IsState zero st h = (tt, refl, h)
bytes_loop-IsState (suc size) st h =
    let (b, h') = random_byte-IsState st h in
    let (bs, l, h'') = bytes_loop-IsState size (random_byte st).1 h' in ((b, bs), ap suc l, h'')

-- `random_bytes` gives as many bytes as it is asked for, and leaves a state whose table is a permutation of the 256 bytes,
-- both in a state that is not initialized and in one that it left.
pub random_bytes-IsState :
    (size : ℕ) (st : State)
    → (st.inited ≡ true → IsState st)
    → AllBytes (random_bytes size st).0
      × (length (random_bytes size st).0 ≡ size)
      × IsState (random_bytes size st).1
unfolding random_bytes
random_bytes-IsState size st h =
    bytes_loop-IsState size (if st.inited then st else random_init 0) (started st.inited refl)
  where
    started : (b : Bool) → st.inited ≡ b → IsState (if b then st else random_init 0)
    started true e = h e
    started false e = random_init-IsState 0
