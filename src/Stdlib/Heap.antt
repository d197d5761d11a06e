-- ===== src/Stdlib/Heap.antt =====
-- What `heapify` of stdlib.c makes of an array: a heap, from elements that it had.
use cs162hwproj.Prelude.{
  ℕ, zero, suc, ◌+◌, ◌-◌, ◌*◌, ◌/◌, ◌%◌, ◌^◌, ◌<◌, ◌≤◌, ◌≡◌, refl, ◌≢◌, Bool, true, false, ◌&&◌,
  inl, inr, ◌⊎◌, arith, leb, ◌==◌, if◌then◌else◌, Bool-cases,
}
use cs162hwproj.Stdlib.{
  Elem, Array, Order, less, same, greater, is_greater, do_swap, do_compare, max_child, heapify_loop,
  heapify,
}

-- The element with an index from 1.
abbrev pub elem : Array → ℕ → Elem
elem a i = a (i - 1)

pub elem-do_swap :
    (a : Array) (i m j : ℕ)
    → 1 ≤ i
    → 1 ≤ m
    → 1 ≤ j
    → elem (do_swap a i m) j ≡ (if j == m then elem a i else if j == i then elem a m else elem a j)
unfolding do_swap
elem-do_swap a i m j p q r = ground arith

module _ (compare : Elem → Elem → Order) where
  abbrev pub above : Elem → Elem → Bool
  above x y = is_greater (compare x y)

  -- No element from `2 * lo` to `cnt` is above its parent.
  abbrev pub IsHeap : (lo cnt : ℕ) → Array → Type 0
  IsHeap lo cnt a = (c : ℕ) → 2 * lo ≤ c → c ≤ cnt → above (elem a c) (elem a (c / 2)) ≡ false

  -- A heap but for the children of `i`, which are not above its parent.
  pub record IsHeapBut (lo cnt i : ℕ) (a : Array) : Type 0 where
    pub others :
        (c : ℕ) → 2 * lo ≤ c → c ≤ cnt → c / 2 ≢ i → above (elem a c) (elem a (c / 2)) ≡ false
    pub below :
        (c : ℕ) → 2 * lo ≤ i → c ≤ cnt → c / 2 ≡ i → above (elem a c) (elem a (i / 2)) ≡ false

abbrev pub opposite : Order → Order
opposite less = greater
opposite same = same
opposite greater = less

-- What the caller's function must satisfy.
pub record IsOrder (compare : Elem → Elem → Order) : Type 0 where
  pub mirror : (x y : Elem) → compare y x ≡ opposite (compare x y)
  pub trans :
      (x y z : Elem)
      → above compare x y ≡ false
      → above compare y z ≡ false
      → above compare x z ≡ false

module _ {compare : Elem → Elem → Order} (o : IsOrder compare) where
  asym : (x y : Elem) → above compare x y ≡ true → above compare y x ≡ false
  asym x y h = let m = o.mirror x y in rw m (ground arith)

  pub above_self : (x : Elem) → above compare x x ≡ false
  above_self x = elim (Bool-cases (above compare x x)) [ inl y ↦ asym x x y | inr n ↦ n ]

  -- The index that `heapify` goes to is the element's or a child's, and no child is above it.
  record IsMax (a : Array) (i cnt m : ℕ) : Type 0 where
    place : (m ≡ i) ⊎ ((m / 2 ≡ i) × (m ≤ cnt) × (above compare (elem a i) (elem a m) ≡ false))
    most : (c : ℕ) → c / 2 ≡ i → c ≤ cnt → above compare (elem a c) (elem a m) ≡ false

  -- A child is one of two.
  children :
      (P : ℕ → Type 0) (i cnt : ℕ)
      → (2 * i ≤ cnt → P (2 * i))
      → (2 * i + 1 ≤ cnt → P (2 * i + 1))
      → (c : ℕ) → c / 2 ≡ i
      → c ≤ cnt
      → P c
  children P i cnt p q c e l = elim (Bool-cases (c == 2 * i)) [
    | inl y ↦ let g : c ≡ 2 * i = ground arith in rw g (p (omega arith))
    | inr n ↦ let g : c ≡ 2 * i + 1 = ground arith in rw g (q (omega arith))
  ]

  max_child-IsMax : (a : Array) (i cnt : ℕ) → i < 2 ^ 31 → IsMax a i cnt (max_child compare a i cnt)
  unfolding max_child do_compare
  max_child-IsMax a i cnt f =
      let wl : 2 * i % 2 ^ 32 ≡ 2 * i = omega arith in
      let wr : (2 * i + 1) % 2 ^ 32 ≡ 2 * i + 1 = omega arith in
      rw (wl, wr)
        (elim (Bool-cases (leb (2 * i) cnt && above compare (elem a (2 * i)) (elem a i))) [
          | inl l ↦
              let il = asym (elem a (2 * i)) (elem a i) (ground arith) in
              rw l
                (elim (Bool-cases
                  (leb (2 * i + 1) cnt && above compare (elem a (2 * i + 1)) (elem a (2 * i)))) [
                    | inl r ↦
                        let lr = asym (elem a (2 * i + 1)) (elem a (2 * i)) (ground arith) in
                        rw r (record {
                          place = inr (
                            omega arith,
                            ground arith,
                            o.trans (elem a i) (elem a (2 * i)) (elem a (2 * i + 1)) il lr,
                          );
                          most = children _ i cnt (λ p. lr) (λ p. above_self _);
                        })
                    | inr r ↦ rw r (record {
                      place = inr (omega arith, ground arith, il);
                      most = children _ i cnt (λ p. above_self _) (λ p. ground arith);
                    })
                  ])
          | inr l ↦
              rw l
                (elim (Bool-cases
                  (leb (2 * i + 1) cnt && above compare (elem a (2 * i + 1)) (elem a i))) [
                    | inl r ↦
                        let ir = asym (elem a (2 * i + 1)) (elem a i) (ground arith) in
                        rw r (record {
                          place = inr (omega arith, ground arith, ir);
                          most =
                              children _ i cnt
                                (λ p.
                                  o.trans (elem a (2 * i)) (elem a i) (elem a (2 * i + 1))
                                    (ground arith) ir)
                                (λ p. above_self _);
                        })
                    | inr r ↦ rw r (record {
                      place = inl refl;
                      most = children _ i cnt (λ p. ground arith) (λ p. ground arith);
                    })
                  ])
        ])

  -- One exchange of `heapify` moves the place that is not yet right to the child.
  IsHeapBut-do_swap :
      (lo cnt i m : ℕ) (a : Array)
      → 1 ≤ lo
      → lo ≤ i
      → IsHeapBut compare lo cnt i a
      → IsMax a i cnt m
      → m / 2 ≡ i
      → m ≤ cnt
      → above compare (elem a i) (elem a m) ≡ false
      → IsHeapBut compare lo cnt m (do_swap a i m)
  IsHeapBut-do_swap lo cnt i m a p q h x e l g = record {
    others = λ c u v w.
        rw
          (
            elem-do_swap a i m c (omega arith) (omega arith) (omega arith),
            elem-do_swap a i m (c / 2) (omega arith) (omega arith) (omega arith),
          )
          (let d : (c / 2 == m) ≡ false = ground arith in
            rw d (elim (Bool-cases (c == m)) [
              | inl y ↦ let z : (c / 2 == i) ≡ true = ground arith in rw (y, z) g
              | inr n ↦ rw n (elim (Bool-cases (c / 2 == i)) [
                | inl y ↦
                    let z : (c == i) ≡ false = ground arith in rw (y, z) (x.most c (ground arith) v)
                | inr k ↦ rw k (elim (Bool-cases (c == i)) [
                  | inl y ↦
                      let z : c ≡ i = ground arith in rw y (rw z (h.below m (omega arith) l e))
                  | inr z ↦ rw z (h.others c u v (ground arith))
                ])
              ])
            ]));
    below = λ c u v w.
        rw
          (
            elem-do_swap a i m c (omega arith) (omega arith) (omega arith),
            elem-do_swap a i m (m / 2) (omega arith) (omega arith) (omega arith),
          )
          (let d : (m / 2 == m) ≡ false = ground arith in
            let da : (m / 2 == i) ≡ true = ground arith in
            let db : (c == m) ≡ false = ground arith in
            let dc : (c == i) ≡ false = ground arith in
            rw (d, da, db, dc) (let r = h.others c (omega arith) v (omega arith) in rw w at r));
  }

  heapify_loop-IsHeap :
      (fuel lo cnt i : ℕ) (a : Array)
      → 1 ≤ lo
      → lo ≤ i
      → cnt < i + fuel
      → cnt < 2 ^ 31
      → i < 2 ^ 31
      → IsHeapBut compare lo cnt i a
      → IsHeap compare lo cnt (heapify_loop compare fuel a i cnt)
  unfolding heapify_loop
  heapify_loop-IsHeap zero lo cnt i a p q f b d h = λ c u v. h.others c u v (omega arith)
  heapify_loop-IsHeap (suc fuel) lo cnt i a p q f b d h =
      let x = max_child-IsMax a i cnt d in
      elim (Bool-cases (max_child compare a i cnt == i)) [
        | inl y ↦
            let e : max_child compare a i cnt ≡ i = ground arith in
            rw y (λ c u v. elim (Bool-cases (c / 2 == i)) [
              | inl k ↦
                  let r = x.most c (ground arith) v in
                  let z : c / 2 ≡ i = ground arith in rw z (rw e at r)
              | inr k ↦ h.others c u v (ground arith)
            ])
        | inr n ↦ rw n (elim x.place [
          | inl e ↦ absurd (ground arith)
          | inr (e, l, g) ↦
              heapify_loop-IsHeap fuel lo cnt (max_child compare a i cnt)
                (do_swap a i (max_child compare a i cnt)) p (omega arith) (omega arith) b
                (omega arith)
                (IsHeapBut-do_swap lo cnt i (max_child compare a i cnt) a p q h x e l g)
        ])
      ]

  -- `heapify` makes a heap from a place on, where there was one but for that place.
  pub heapify-IsHeap :
      (lo cnt i : ℕ) (a : Array)
      → 1 ≤ lo
      → lo ≤ i
      → cnt < 2 ^ 31
      → i < 2 ^ 31
      → IsHeapBut compare lo cnt i a
      → IsHeap compare lo cnt (heapify compare a i cnt)
  unfolding heapify
  heapify-IsHeap lo cnt i a p q b d h = heapify_loop-IsHeap cnt lo cnt i a p q (omega arith) b d h

  -- In a heap no element is above the first.
  top :
      (fuel cnt : ℕ) (a : Array)
      → IsHeap compare 1 cnt a
      → (j : ℕ) → 1 ≤ j
      → j ≤ cnt
      → j ≤ fuel
      → above compare (elem a j) (elem a 1) ≡ false
  top zero cnt a h j p q f = absurd (omega arith)
  top (suc fuel) cnt a h j p q f = elim (Bool-cases (j == 1)) [
    | inl y ↦ let e : j ≡ 1 = ground arith in rw e (above_self (elem a 1))
    | inr n ↦
        let two : 2 ≤ j = ground arith in
        o.trans (elem a j) (elem a (j / 2)) (elem a 1) (h j two q)
          (top fuel cnt a h (j / 2) (omega arith) (omega arith) (omega arith))
  ]

  pub IsHeap-top :
      (cnt : ℕ) (a : Array)
      → IsHeap compare 1 cnt a
      → (j : ℕ) → 1 ≤ j
      → j ≤ cnt
      → above compare (elem a j) (elem a 1) ≡ false
  IsHeap-top cnt a h j p q = top j cnt a h j p q (omega arith)

module _ (compare : Elem → Elem → Order) where
  max_child-bounds :
      (a : Array) (i cnt : ℕ)
      → i < 2 ^ 31
      → (max_child compare a i cnt == i) ≡ false
      → (i < max_child compare a i cnt) × (max_child compare a i cnt ≤ cnt)
  unfolding max_child
  max_child-bounds a i cnt f h =
      let wl : 2 * i % 2 ^ 32 ≡ 2 * i = omega arith in
      let wr : (2 * i + 1) % 2 ^ 32 ≡ 2 * i + 1 = omega arith in
      let h' = rw (wl, wr) at h in rw (wl, wr) (ground (arith, h'))

  heapify_loop-induction :
      (P : Array → Type 0) (n : ℕ)
      → ((a : Array) (i m : ℕ) → 1 ≤ i → i ≤ n → 1 ≤ m → m ≤ n → P a → P (do_swap a i m))
      → n < 2 ^ 31
      → (fuel : ℕ) (a : Array) (i : ℕ) → 1 ≤ i
      → i < 2 ^ 31
      → P a
      → P (heapify_loop compare fuel a i n)
  unfolding heapify_loop
  heapify_loop-induction P n s b zero a i p d h = h
  heapify_loop-induction P n s b (suc fuel) a i p d h =
      elim (Bool-cases (max_child compare a i n == i)) [
        | inl y ↦ rw y h
        | inr k ↦
            let (l, r) = max_child-bounds a i n d k in
            rw k (
              heapify_loop-induction P n s b fuel (do_swap a i (max_child compare a i n))
                (max_child compare a i n) (omega arith) (omega arith)
                (s a i (max_child compare a i n) p (omega arith) (omega arith) r h))
      ]

  -- What exchanges within the range keep, `heapify` keeps.
  pub heapify-induction :
      (P : Array → Type 0) (n : ℕ)
      → ((a : Array) (i m : ℕ) → 1 ≤ i → i ≤ n → 1 ≤ m → m ≤ n → P a → P (do_swap a i m))
      → n < 2 ^ 31
      → (a : Array) (i : ℕ) → 1 ≤ i
      → i < 2 ^ 31
      → P a
      → P (heapify compare a i n)
  unfolding heapify
  heapify-induction P n s b a i p d h = heapify_loop-induction P n s b n a i p d h
