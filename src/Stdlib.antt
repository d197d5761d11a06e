-- ===== src/Stdlib.antt =====
-- group0/src/lib/stdlib.c: sorting and searching of an array, and `atoi`. An array is its element at every
-- index, and an element the number that its `size` bytes stand for; `compare` is the caller's function, with
-- its `aux`, as the sign of what it returns.
pub mod Heap
pub mod Sorting
pub mod Search
pub mod Numbers
use cs162hwproj.Prelude.{
  ℕ, zero, suc, ◌+◌, ◌-◌, ◌*◌, ◌/◌, ◌%◌, ◌^◌, Bool, true, false, not, ◌&&◌, ◌||◌, Option, none,
  some, List, [], ◌∷◌, ltb, leb, ◌==◌, if◌then◌else◌,
}

abbrev pub Elem : Type 0
Elem = ℕ

abbrev pub Array : Type 0
Array = ℕ → Elem

-- Whether the result of `compare` is below, at or above zero.
pub data Order : Type 0 where
  less : Order
  same : Order
  greater : Order

abbrev pub is_greater : Order → Bool
is_greater greater = true
is_greater less = false
is_greater same = false

abbrev pub put : Array → ℕ → Elem → Array
put a i v = λ j. if j == i then v else a j

-- Indexes here are from 1; the loop over the bytes is one exchange.
unfoldable pub do_swap : Array → (a_idx b_idx : ℕ) → Array
do_swap a i j = put (put a (i - 1) (a (j - 1))) (j - 1) (a (i - 1))

module _ (compare : Elem → Elem → Order) where
  unfoldable pub do_compare : Array → (a_idx b_idx : ℕ) → Order
  do_compare a i j = compare (a (i - 1)) (a (j - 1))

  -- The index of the largest of an element and its children; `size_t` has 32 bits.
  unfoldable pub max_child : Array → (i cnt : ℕ) → ℕ
  unfolding do_compare
  max_child a i cnt =
      let left = 2 * i % 2 ^ 32 in
      let right = (2 * i + 1) % 2 ^ 32 in
      let max = if leb left cnt && is_greater (do_compare a left i) then left else i in
      if leb right cnt && is_greater (do_compare a right max) then right else max

  -- Each round goes down to a child, so that `cnt` rounds are enough.
  unfoldable pub heapify_loop : (fuel : ℕ) → Array → (i cnt : ℕ) → Array
  unfolding max_child do_swap
  heapify_loop zero a i cnt = a
  heapify_loop (suc fuel) a i cnt =
      let max = max_child a i cnt in
      let rest = heapify_loop fuel (do_swap a i max) max cnt in if max == i then a else rest

  unfoldable pub heapify : Array → (i cnt : ℕ) → Array
  unfolding heapify_loop
  heapify a i cnt = heapify_loop cnt a i cnt

  -- The two loops of `sort`, for an index that goes down.
  unfoldable pub build_loop : Array → (i cnt : ℕ) → Array
  unfolding heapify
  build_loop a zero cnt = a
  build_loop a (suc i) cnt = build_loop (heapify a (suc i) cnt) i cnt

  unfoldable pub drain_loop : Array → (i : ℕ) → Array
  unfolding heapify
  drain_loop a zero = a
  drain_loop a (suc zero) = a
  drain_loop a (suc (suc i)) = drain_loop (heapify (do_swap a 1 (suc (suc i))) 1 (suc i)) (suc i)

  -- The pointers are not null.
  unfoldable pub sort : Array → (cnt size : ℕ) → Option Array
  unfolding build_loop drain_loop
  sort a cnt size = if ltb 0 size then some (drain_loop (build_loop a (cnt / 2) cnt) cnt) else none

  -- With a caller's function that has no `aux`.
  abbrev pub qsort : Array → (cnt size : ℕ) → Option Array
  qsort a cnt size = sort a cnt size

  -- The loop of `binary_search`, with indexes for the pointers. The range becomes smaller in each round.
  unfoldable pub search_loop : (fuel : ℕ) → (key : Elem) → Array → (first last : ℕ) → Option ℕ
  search_loop zero key a first last = none
  search_loop (suc fuel) key a first last =
      let middle = first + (last - first) / 2 in
      let below = search_loop fuel key a first middle in
      let above = search_loop fuel key a (middle + 1) last in
      if ltb first last
      then elim (compare key (a middle)) [ less ↦ below | greater ↦ above | same ↦ some middle ]
      else none

  unfoldable pub binary_search : (key : Elem) → Array → (cnt : ℕ) → Option ℕ
  unfolding search_loop
  binary_search key a cnt = search_loop cnt key a 0 cnt

  -- With a caller's function that has no `aux`.
  abbrev pub bsearch : (key : Elem) → Array → (cnt : ℕ) → Option ℕ
  bsearch key a cnt = binary_search key a cnt

-- lib/ctype.h, which `atoi` uses.
abbrev pub isspace : ℕ → Bool
isspace c = (c == 32) || (c == 12) || (c == 10) || (c == 13) || (c == 9) || (c == 11)

abbrev pub isdigit : ℕ → Bool
isdigit c = leb 48 c && leb c 57

-- The characters of the string, without its zero byte.
unfoldable pub skip_space : List ℕ → List ℕ
skip_space [] = []
skip_space (c ∷ s) = if isspace c then skip_space s else c ∷ s

-- The pattern of a 32-bit `int`.
unfoldable pub digits_loop : List ℕ → (value : ℕ) → ℕ
digits_loop [] value = value
digits_loop (c ∷ s) value =
    if isdigit c then digits_loop s ((value * 10 + 2 ^ 32 - (c - 48)) % 2 ^ 32) else value

unfoldable pub parse_sign : List ℕ → Bool × List ℕ
parse_sign [] = (false, [])
parse_sign (c ∷ s) = if c == 43 then (false, s) else if c == 45 then (true, s) else (false, c ∷ s)

unfoldable pub atoi : List ℕ → ℕ
unfolding skip_space parse_sign digits_loop
atoi s =
    let (negative, t) = parse_sign (skip_space s) in
    let value = digits_loop t 0 in if negative then value else (2 ^ 32 - value) % 2 ^ 32
