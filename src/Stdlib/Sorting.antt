-- ===== src/Stdlib/Sorting.antt =====
-- `sort` of stdlib.c leaves an array in order, with the elements that it had.
use cs162hwproj.Prelude.{
  ℕ, zero, suc, ◌+◌, ◌-◌, ◌/◌, ◌<◌, ◌^◌, ◌≤◌, ◌≡◌, refl, ap, ◌∙◌, true, false, inl, inr, arith, ltb,
  ◌==◌, if◌then◌else◌, Bool-cases,
}
use cs162hwproj.Prelude.Returns.{Returns, returns}
use cs162hwproj.Stdlib.{Elem, Array, Order, put, do_swap, heapify, build_loop, drain_loop, sort}
use cs162hwproj.Stdlib.Heap.{
  elem, elem-do_swap, above, IsHeap, IsOrder, above_self, heapify-IsHeap, IsHeap-top,
  heapify-induction,
}

-- How many of the first `n` elements are `x`.
abbrev pub count : Elem → Array → (n : ℕ) → ℕ
count x a zero = 0
count x a (suc n) = (if a n == x then 1 else 0) + count x a n

module _ (compare : Elem → Elem → Order) where
  -- From index `n + 1` on, no element is below one before it.
  abbrev SortedFrom : (n cnt : ℕ) → Array → Type 0
  SortedFrom n cnt a =
      (j k : ℕ) → 1 ≤ j → j ≤ k → n < k → k ≤ cnt → above compare (elem a j) (elem a k) ≡ false

  -- The first `cnt` elements are in order.
  abbrev pub IsSorted : (cnt : ℕ) → Array → Type 0
  IsSorted cnt a = (j k : ℕ) → 1 ≤ j → j ≤ k → k ≤ cnt → above compare (elem a j) (elem a k) ≡ false

count-put :
    (x : Elem) (a : Array) (i : ℕ) (v : Elem) (n : ℕ)
    → i < n
    → count x (put a i v) n + (if a i == x then 1 else 0) ≡ count x a n + (if v == x then 1 else 0)
count-put x a i v zero h = absurd (omega arith)
count-put x a i v (suc n) h = elim (Bool-cases (n == i)) [
  | inl y ↦
      let e : n ≡ i = ground arith in
      let z = count-past x a i v n (omega arith) in rw (y) (ground arith)
  | inr k ↦ let r = count-put x a i v n (ground arith) in rw k (omega arith)
]
  where
    count-past :
        (x : Elem) (a : Array) (i : ℕ) (v : Elem) (n : ℕ)
        → n ≤ i
        → count x (put a i v) n ≡ count x a n
    count-past x a i v zero h = refl
    count-past x a i v (suc n) h =
        let d : (n == i) ≡ false = ground arith in
        rw d (ap (λ t. (if a n == x then 1 else 0) + t) (count-past x a i v n (omega arith)))

count-do_swap :
    (x : Elem) (a : Array) (i m n : ℕ)
    → 1 ≤ i
    → i ≤ n
    → 1 ≤ m
    → m ≤ n
    → count x (do_swap a i m) n ≡ count x a n
unfolding do_swap
count-do_swap x a i m n p q r s =
    let u = count-put x a (i - 1) (elem a m) n (omega arith) in
    let v = count-put x (put a (i - 1) (elem a m)) (m - 1) (elem a i) n (omega arith) in
    ground arith

module _ (compare : Elem → Elem → Order) where
  heapify-count :
      (x : Elem) (a : Array) (i n cnt : ℕ)
      → 1 ≤ i
      → n ≤ cnt
      → n < 2 ^ 31
      → i < 2 ^ 31
      → count x (heapify compare a i n) cnt ≡ count x a cnt
  heapify-count x a i n cnt p q b d =
      heapify-induction compare (λ b. count x b cnt ≡ count x a cnt) n
        (λ b j m u v w z h. count-do_swap x b j m cnt u (omega arith) w (omega arith) ∙ h) b a i p d
        refl

  heapify-past :
      (a : Array) (i n k : ℕ)
      → 1 ≤ i
      → n < 2 ^ 31
      → i < 2 ^ 31
      → n < k
      → elem (heapify compare a i n) k ≡ elem a k
  heapify-past a i n k p b d q =
      heapify-induction compare (λ b. elem b k ≡ elem a k) n
        (λ b j m u v w z h. elem-do_swap b j m k u w (omega arith) ∙ ground arith) b a i p d refl

  heapify-below :
      (v : Elem) (a : Array) (i n : ℕ)
      → 1 ≤ i
      → n < 2 ^ 31
      → i < 2 ^ 31
      → ((j : ℕ) → 1 ≤ j → j ≤ n → above compare (elem a j) v ≡ false)
      → (j : ℕ) → 1 ≤ j
      → j ≤ n
      → above compare (elem (heapify compare a i n) j) v ≡ false
  heapify-below v a i n p b d h =
      heapify-induction compare (λ b. (j : ℕ) → 1 ≤ j → j ≤ n → above compare (elem b j) v ≡ false)
        n
        (λ b i m u v' w z h j r s. rw (elem-do_swap b i m j u w r) (elim (Bool-cases (j == m)) [
          | inl y ↦ rw y (h i u v')
          | inr k ↦
              rw k (elim (Bool-cases (j == i)) [ inl y ↦ rw y (h m w z) | inr k ↦ rw k (h j r s) ])
        ]))
        b a i p d h

  build_loop-count :
      (x : Elem) (i : ℕ) (a : Array) (cnt : ℕ)
      → cnt < 2 ^ 31
      → i < 2 ^ 31
      → count x (build_loop compare a i cnt) cnt ≡ count x a cnt
  unfolding build_loop
  build_loop-count x zero a cnt b d = refl
  build_loop-count x (suc i) a cnt b d =
      build_loop-count x i (heapify compare a (suc i) cnt) cnt b (omega arith)
      ∙ heapify-count x a (suc i) cnt cnt (omega arith) (omega arith) b d

  drain_loop-count :
      (x : Elem) (i : ℕ) (a : Array) (cnt : ℕ)
      → i ≤ cnt
      → cnt < 2 ^ 31
      → count x (drain_loop compare a i) cnt ≡ count x a cnt
  unfolding drain_loop
  drain_loop-count x zero a cnt h b = refl
  drain_loop-count x (suc zero) a cnt h b = refl
  drain_loop-count x (suc (suc i)) a cnt h b =
      drain_loop-count x (suc i) (heapify compare (do_swap a 1 (suc (suc i))) 1 (suc i)) cnt
        (omega arith) b
      ∙ heapify-count x (do_swap a 1 (suc (suc i))) 1 (suc i) cnt (omega arith) (omega arith)
          (omega arith) (omega arith)
      ∙ count-do_swap x a 1 (suc (suc i)) cnt (omega arith) (omega arith) (omega arith) h

module _ {compare : Elem → Elem → Order} (o : IsOrder compare) where
  build_loop-IsHeap :
      (i cnt : ℕ) (a : Array)
      → cnt < 2 ^ 31
      → i < 2 ^ 31
      → IsHeap compare (suc i) cnt a
      → IsHeap compare 1 cnt (build_loop compare a i cnt)
  unfolding build_loop
  build_loop-IsHeap zero cnt a b d h = h
  build_loop-IsHeap (suc i) cnt a b d h =
      build_loop-IsHeap i cnt (heapify compare a (suc i) cnt) b (omega arith) (
        heapify-IsHeap o (suc i) cnt (suc i) a (omega arith) (omega arith) b d (record {
          others = λ c u v w. h c (omega arith) v;
          below = λ c u v w. absurd (omega arith);
        }))

  -- One round of the second loop.
  drained :
      (i n cnt : ℕ) (a : Array)
      → i ≡ suc n
      → 1 ≤ n
      → i ≤ cnt
      → cnt < 2 ^ 31
      → IsHeap compare 1 i a
      → SortedFrom compare i cnt a
      → IsHeap compare 1 n (heapify compare (do_swap a 1 i) 1 n)
        × SortedFrom compare n cnt (heapify compare (do_swap a 1 i) 1 n)
  drained i n cnt a e p q b h s = (
    heapify-IsHeap o 1 n 1 (do_swap a 1 i) (omega arith) (omega arith) (omega arith) (omega arith)
        (record {
          others = λ c u v w.
              rw (at c (omega arith), at (c / 2) (omega arith))
                (let d1 : (c == i) ≡ false = ground arith in
                  let d2 : (c == 1) ≡ false = ground arith in
                  let d3 : (c / 2 == i) ≡ false = ground arith in
                  let d4 : (c / 2 == 1) ≡ false = ground arith in
                  rw (d1, d2, d3, d4) (h c u (omega arith)));
          below = λ c u v w. absurd (omega arith);
        }),
    λ j k u v w x.
        rw (heapify-past compare (do_swap a 1 i) 1 n k (omega arith) (omega arith) (omega arith) w)
          (elim (Bool-cases (ltb n j)) [
            | inl y ↦
                rw
                  (heapify-past compare (do_swap a 1 i) 1 n j (omega arith) (omega arith)
                    (omega arith) (ground arith))
                  (swapped j k u v w x)
            | inr f ↦
                heapify-below compare (elem (do_swap a 1 i) k) (do_swap a 1 i) 1 n (omega arith)
                  (omega arith) (omega arith) (λ j r t. swapped j k r (omega arith) w x) j u
                  (ground arith)
          ]),
  )
    where
      at :
          (j : ℕ)
          → 1 ≤ j
          → elem (do_swap a 1 i) j
            ≡ (if j == i then elem a 1 else if j == 1 then elem a i else elem a j)
      at j r = elem-do_swap a 1 i j (omega arith) (omega arith) r

      swapped :
          (j k : ℕ)
          → 1 ≤ j
          → j ≤ k
          → n < k
          → k ≤ cnt
          → above compare (elem (do_swap a 1 i) j) (elem (do_swap a 1 i) k) ≡ false
      swapped j k u v w x =
          rw (at j u, at k (omega arith))
            (elim (Bool-cases (k == i)) [
              | inl y ↦ rw y (elim (Bool-cases (j == i)) [
                | inl z ↦ rw z (above_self o (elem a 1))
                | inr z ↦ rw z (elim (Bool-cases (j == 1)) [
                  | inl t ↦ rw t (IsHeap-top o i a h i (omega arith) (omega arith))
                  | inr t ↦ rw t (IsHeap-top o i a h j u (ground arith))
                ])
              ])
              | inr f ↦
                  let d : (k == 1) ≡ false = ground arith in
                  rw (f, d)
                    (elim (Bool-cases (j == i)) [
                      | inl z ↦ rw z (s 1 k (omega arith) (omega arith) (ground arith) x)
                      | inr z ↦ rw z (elim (Bool-cases (j == 1)) [
                        | inl t ↦ rw t (s i k (omega arith) (ground arith) (ground arith) x)
                        | inr t ↦ rw t (s j k u v (ground arith) x)
                      ])
                    ])
            ])

  drain_loop-IsSorted :
      (i cnt : ℕ) (a : Array)
      → i ≤ cnt
      → cnt < 2 ^ 31
      → IsHeap compare 1 i a
      → SortedFrom compare i cnt a
      → IsSorted compare cnt (drain_loop compare a i)
  unfolding drain_loop
  drain_loop-IsSorted zero cnt a l b h s = λ j k u v w. s j k u v (omega arith) w
  drain_loop-IsSorted (suc zero) cnt a l b h s = λ j k u v w. elim (Bool-cases (k == 1)) [
    | inl y ↦
        let e : k ≡ 1 = ground arith in
        let f : j ≡ 1 = omega arith in rw (e, f) (above_self o (elem a 1))
    | inr n ↦ s j k u v (ground arith) w
  ]
  drain_loop-IsSorted (suc (suc i)) cnt a l b h s =
      let (h', s') = drained (suc (suc i)) (suc i) cnt a refl (omega arith) l b h s in
      drain_loop-IsSorted (suc i) cnt (heapify compare (do_swap a 1 (suc (suc i))) 1 (suc i))
        (omega arith) b h' s'

  -- For a size above zero, fewer than 2^31 elements and a comparison that is an order, `sort` returns an array whose first `cnt` elements are in order, and are those that
  -- it was given, each as many times.
  pub sort-IsSorted :
      (a : Array) (cnt size : ℕ)
      → 0 < size
      → cnt < 2 ^ 31
      → Returns
          (λ b. IsSorted compare cnt b × ((x : Elem) → count x b cnt ≡ count x a cnt))
          (sort compare a cnt size)
  unfolding sort
  sort-IsSorted a cnt size p small =
      let t : ltb 0 size ≡ true = ground arith in
      let b = build_loop compare a (cnt / 2) cnt in
      let h =
        build_loop-IsHeap (cnt / 2) cnt a small (omega arith) (λ c u v. absurd (omega arith)) in
      rw t (
        returns (
          drain_loop-IsSorted cnt cnt b (omega arith) small h (λ j k u v w x. absurd (omega arith)),
          λ x.
              drain_loop-count compare x cnt b cnt (omega arith) small
              ∙ build_loop-count compare x (cnt / 2) a cnt small (omega arith),
        ))
