-- ===== src/Hash.antt =====
-- group0/src/lib/kernel/hash.c: a hash table. An element is its address; a bucket is the sequence of the
-- elements of its list, whose pointers are those of KernelList. `hash` and `less` are the caller's
-- functions, with their `aux`.
pub mod Buckets
pub mod Valid
pub mod Rehash
pub mod Table
pub mod Iteration
use Prim.Native.Nat.{bit_and, bit_xor}
use cs162hwproj.Prelude.{
  ℕ, zero, suc, ◌+◌, ◌-◌, ◌*◌, ◌/◌, ◌%◌, ◌^◌, Bool, true, false, not, ◌&&◌, Option, none, some,
  List, [], ◌∷◌, ◌++◌, ltb, leb, ◌==◌, if◌then◌else◌, get_or, set, replicate, length,
}

abbrev pub Elem : Type 0
Elem = ℕ

-- `struct hash`, less the functions.
pub record Hash : Type 0 where
  pub elem_cnt : ℕ
  pub bucket_cnt : ℕ
  pub buckets : List (List Elem)

abbrev pub bucket : List (List Elem) → ℕ → List Elem
bucket bs i = get_or bs i []

-- `list_remove`, from the list that the element is in.
abbrev pub list_remove : Elem → List Elem → List Elem
list_remove e [] = []
list_remove e (x ∷ xs) = if e == x then xs else x ∷ list_remove e xs

unfoldable pub turn_off_least_1bit : ℕ → ℕ
turn_off_least_1bit x = bit_and x (x - 1)

unfoldable pub is_power_of_2 : ℕ → Bool
unfolding turn_off_least_1bit
is_power_of_2 x = not (x == 0) && (turn_off_least_1bit x == 0)

abbrev pub best_elems_per_bucket : ℕ
best_elems_per_bucket = 2

-- The loop of `rehash`; each round makes the number smaller, so that it ends before fuel as large.
unfoldable pub power_loop : (fuel x : ℕ) → ℕ
unfolding is_power_of_2 turn_off_least_1bit
power_loop zero x = x
power_loop (suc fuel) x =
    let rest = power_loop fuel (turn_off_least_1bit x) in if is_power_of_2 x then x else rest

unfoldable pub new_bucket_cnt : ℕ → ℕ
unfolding power_loop
new_bucket_cnt elem_cnt =
    let n = elem_cnt / best_elems_per_bucket in let m = if ltb n 4 then 4 else n in power_loop m m

unfoldable pub insert_elem : Hash → (bucket_idx : ℕ) → Elem → Hash
insert_elem h i e = record h {
  elem_cnt = (h.elem_cnt + 1) % 2 ^ 32;
  buckets = set h.buckets i (e ∷ bucket h.buckets i);
}

-- In each call the element is in bucket `i`.
unfoldable pub remove_elem : Hash → (bucket_idx : ℕ) → Elem → Hash
remove_elem h i e = record h {
  elem_cnt = h.elem_cnt - 1;
  buckets = set h.buckets i (list_remove e (bucket h.buckets i));
}

module _ (hash : Elem → ℕ) where
  -- The index of the bucket that `find_bucket` returns.
  unfoldable pub find_bucket : (bucket_cnt : ℕ) → Elem → ℕ
  find_bucket bucket_cnt e = bit_and (hash e) (bucket_cnt - 1)

  -- Moving the elements of one old bucket, and of all.
  unfoldable pub move_bucket : (bucket_cnt : ℕ) → List Elem → List (List Elem) → List (List Elem)
  move_bucket n [] bs = bs
  move_bucket n (e ∷ es) bs =
      let i = find_bucket n e in move_bucket n es (set bs i (e ∷ bucket bs i))

  unfoldable pub move_all :
      (bucket_cnt : ℕ) → List (List Elem) → List (List Elem) → List (List Elem)
  unfolding move_bucket
  move_all n [] bs = bs
  move_all n (b ∷ old) bs = move_all n old (move_bucket n b bs)

  -- `memory` is whether the new buckets can be allocated.
  unfoldable pub rehash : (memory : Bool) → Hash → Hash
  unfolding move_all new_bucket_cnt
  rehash memory h =
      let n = new_bucket_cnt h.elem_cnt in
      if n == h.bucket_cnt
      then h
      else if memory
      then record h { bucket_cnt = n; buckets = move_all n h.buckets (replicate n []) }
      else h

module _ (less : Elem → Elem → Bool) where
  -- Equal, as `find_elem` sees it.
  abbrev pub equal : Elem → Elem → Bool
  equal a b = not (less a b) && not (less b a)

  unfoldable pub find_elem : List Elem → Elem → Option Elem
  find_elem [] e = none
  find_elem (hi ∷ xs) e = if equal hi e then some hi else find_elem xs e

module _ (hash : Elem → ℕ) (less : Elem → Elem → Bool) where
  unfoldable pub hash_find : Hash → Elem → Option Elem
  unfolding find_elem find_bucket
  hash_find h e = find_elem less (bucket h.buckets (find_bucket hash h.bucket_cnt e)) e

  unfoldable pub hash_insert : (memory : Bool) → Hash → Elem → Option Elem × Hash
  unfolding rehash
  hash_insert memory h new =
      let i = find_bucket hash h.bucket_cnt new in
      let old = find_elem less (bucket h.buckets i) new in
      (old, rehash hash memory (elim old [ none ↦ insert_elem h i new | some o ↦ h ]))

  unfoldable pub hash_replace : (memory : Bool) → Hash → Elem → Option Elem × Hash
  unfolding rehash
  hash_replace memory h new =
      let i = find_bucket hash h.bucket_cnt new in
      let old = find_elem less (bucket h.buckets i) new in
      (
        old,
        rehash hash memory (insert_elem (elim old [ none ↦ h | some o ↦ remove_elem h i o ]) i new),
      )

  unfoldable pub hash_delete : (memory : Bool) → Hash → Elem → Option Elem × Hash
  unfolding rehash
  hash_delete memory h e =
      let i = find_bucket hash h.bucket_cnt e in
      let found = find_elem less (bucket h.buckets i) e in
      (found, elim found [ none ↦ h | some o ↦ rehash hash memory (remove_elem h i o) ])

-- `destructor` acts on a state of its own; a null pointer is `none`.
abbrev pub destroy_all : {S : Type 0} → (Elem → S → S) → List Elem → S → S
destroy_all destructor [] s = s
destroy_all destructor (e ∷ es) s = destroy_all destructor es (destructor e s)

abbrev pub clear_loop :
    {S : Type 0} → Option (Elem → S → S) → List (List Elem) → S → List (List Elem) × S
clear_loop destructor [] s = ([], s)
clear_loop none (b ∷ bs) s = let (rest, s') = clear_loop none bs s in ([] ∷ rest, s')
clear_loop (some f) (b ∷ bs) s =
    let (rest, s') = clear_loop (some f) bs (destroy_all f b s) in ([] ∷ rest, s')

unfoldable pub hash_clear : {S : Type 0} → Option (Elem → S → S) → Hash → S → Hash × S
hash_clear destructor h s =
    let (bs, s') = clear_loop destructor h.buckets s in
    (record h { elem_cnt = 0; buckets = bs }, s')

-- `none` is the failure of the allocation. New buckets hold what the memory held.
unfoldable pub hash_init : (memory : Option (List (List Elem))) → Option Hash
unfolding hash_clear
hash_init none = none
hash_init (some garbage) =
    some (hash_clear none (record { elem_cnt = 0; bucket_cnt = 4; buckets = garbage }) tt).0

-- `action` on every element, bucket by bucket.
abbrev pub apply_loop : {S : Type 0} → (Elem → S → S) → List (List Elem) → S → S
apply_loop action [] s = s
apply_loop action (b ∷ bs) s = apply_loop action bs (destroy_all action b s)

unfoldable pub hash_apply : {S : Type 0} → (Elem → S → S) → Hash → S → S
hash_apply action h s = apply_loop action h.buckets s

abbrev pub hash_size : Hash → ℕ
hash_size h = h.elem_cnt

abbrev pub hash_empty : Hash → Bool
hash_empty h = h.elem_cnt == 0

-- An iterator: the current element, the elements behind it in its bucket, and the buckets behind that.
pub record Iterator : Type 0 where
  pub elem : Option Elem
  pub rest : List Elem
  pub later : List (List Elem)

-- At the head of the first bucket. There is one.
unfoldable pub hash_first : Hash → Option Iterator
hash_first h = elim h.buckets [
  | [] ↦ none
  | b ∷ bs ↦ some (record { elem = none; rest = b; later = bs })
]

unfoldable pub next_loop : List Elem → List (List Elem) → Iterator
next_loop (e ∷ es) later = record { elem = some e; rest = es; later = later }
next_loop [] [] = record { elem = none; rest = []; later = [] }
next_loop [] (b ∷ bs) = next_loop b bs

unfoldable pub hash_next : Iterator → Iterator
unfolding next_loop
hash_next i = next_loop i.rest i.later

abbrev pub hash_cur : Iterator → Option Elem
hash_cur i = i.elem

abbrev pub fnv_32_prime : ℕ
fnv_32_prime = 16777619

abbrev pub fnv_32_basis : ℕ
fnv_32_basis = 2166136261

-- The loops of `hash_bytes` and `hash_string`, on the bytes that they read.
unfoldable pub fnv_loop : List ℕ → ℕ → ℕ
fnv_loop [] h = h
fnv_loop (c ∷ cs) h = fnv_loop cs (bit_xor (h * fnv_32_prime % 2 ^ 32) c)

unfoldable pub hash_bytes : List ℕ → ℕ
unfolding fnv_loop
hash_bytes buf = fnv_loop buf fnv_32_basis

unfoldable pub hash_string : List ℕ → ℕ
unfolding fnv_loop
hash_string s = fnv_loop s fnv_32_basis

-- The pattern of the `int`, the lowest byte first.
unfoldable pub hash_int : ℕ → ℕ
unfolding hash_bytes
hash_int i = hash_bytes (i % 256 ∷ i / 256 % 256 ∷ i / 65536 % 256 ∷ i / 16777216 % 256 ∷ [])
