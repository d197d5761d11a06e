-- ===== src/Hash/Rehash.antt =====
-- `rehash` of hash.c keeps the elements of the table.
use cs162hwproj.Prelude.{
  ℕ, zero, suc, ◌+◌, ◌-◌, ◌/◌, ◌<◌, ◌≤◌, ◌≡◌, refl, sym, ap, ◌∙◌, Bool, true, false, ◌||◌, inl, inr,
  List, [], ◌∷◌, ◌++◌, arith, ltb, ◌==◌, if◌then◌else◌, Bool-cases, length, length-set, set,
  replicate, length-replicate,
}
use cs162hwproj.Prelude.Bits.{bit_and-le_right}
use cs162hwproj.Prelude.Members.{has}
use cs162hwproj.Hash.{
  Elem, Hash, bucket, is_power_of_2, turn_off_least_1bit, power_loop, new_bucket_cnt,
  best_elems_per_bucket, find_bucket, equal, move_bucket, move_all, rehash,
}
use cs162hwproj.Hash.Buckets.{
  total, total-set, flat, length-flat, bucket-set, bucket-replicate, total-replicate, has_of_bucket,
  bucket_of_has, move_all-flat,
}
use cs162hwproj.Hash.Valid.{
  IsKeyed, clash, clash_of_has, Apart, AreBuckets, IsValid, member, positive, find_bucket-lt,
  find_bucket_same, AreBuckets-insert, member-insert,
}

-- The number of buckets is a power of two: fuel as large as the number is enough.
power_loop-is_power_of_2 :
    (fuel x : ℕ) → 0 < x → x ≤ fuel → is_power_of_2 (power_loop fuel x) ≡ true
unfolding power_loop is_power_of_2 turn_off_least_1bit
power_loop-is_power_of_2 zero x p h = absurd (omega arith)
power_loop-is_power_of_2 (suc fuel) x p h = elim (Bool-cases (is_power_of_2 x)) [
  | inl y ↦ rw y y
  | inr n ↦ rw n (
      power_loop-is_power_of_2 fuel (turn_off_least_1bit x) (ground arith)
        (let b = bit_and-le_right x (x - 1) in omega arith))
]

new_bucket_cnt-is_power_of_2 : (elem_cnt : ℕ) → is_power_of_2 (new_bucket_cnt elem_cnt) ≡ true
unfolding new_bucket_cnt
new_bucket_cnt-is_power_of_2 elem_cnt =
    let n =
      if ltb (elem_cnt / best_elems_per_bucket) 4 then 4 else elem_cnt / best_elems_per_bucket in
    power_loop-is_power_of_2 n n (ground arith) (omega arith)

module _ {hash : Elem → ℕ} {less : Elem → Elem → Bool} (k : IsKeyed hash less) where
  -- The elements that a move starts with clash with nothing and are put where they belong.
  move_bucket-AreBuckets :
      {n : ℕ} (xs : List Elem) (bs : List (List Elem))
      → 0 < n
      → Apart less xs
      → AreBuckets hash less n bs
      → ((x : Elem) → has x xs ≡ true → clash less x (bucket bs (find_bucket hash n x)) ≡ false)
      → AreBuckets hash less n (move_bucket hash n xs bs)
  unfolding move_bucket
  move_bucket-AreBuckets [] bs p a b c = b
  move_bucket-AreBuckets {n} (x ∷ xs) bs p (d, a) b c =
      move_bucket-AreBuckets xs _ p a (AreBuckets-insert k x p b (c x (ground arith))) (λ y h.
        rw
          (bucket-set bs (find_bucket hash n x) (find_bucket hash n y)
            (x ∷ bucket bs (find_bucket hash n x))
            (let f = find_bucket-lt hash n x p in omega (arith, b.size)))
          (elim (Bool-cases (find_bucket hash n x == find_bucket hash n y)) [
            | inl t ↦
                let g : find_bucket hash n x ≡ find_bucket hash n y = ground arith in
                let old = c y (ground arith) in
                rw (t, g)
                  (elim (Bool-cases (equal less y x)) [
                    | inl e ↦ let r = clash_of_has k xs x y h e in absurd (ground arith)
                    | inr u ↦ ground arith
                  ])
            | inr m ↦ rw m (c y (ground arith))
          ]))

  move_bucket-member :
      {n : ℕ} (xs : List Elem) (bs : List (List Elem)) (y : Elem)
      → 0 < n
      → length bs ≡ n
      → member hash n (move_bucket hash n xs bs) y ≡ (has y xs || member hash n bs y)
  unfolding move_bucket
  move_bucket-member [] bs y p s = refl
  move_bucket-member {n} (x ∷ xs) bs y p s =
      let i = find_bucket hash n x in
      move_bucket-member xs (set bs i (x ∷ bucket bs i)) y p (length-set bs i _ ∙ s)
      ∙ ap (λ b. has y xs || b) (member-insert hash n bs s p x y)
      ∙ ground arith

  move_bucket-total :
      {n : ℕ} (xs : List Elem) (bs : List (List Elem))
      → 0 < n
      → length bs ≡ n
      → total (move_bucket hash n xs bs) ≡ length xs + total bs
  unfolding move_bucket
  move_bucket-total [] bs p s = omega arith
  move_bucket-total {n} (x ∷ xs) bs p s =
      let i = find_bucket hash n x in
      let fits = find_bucket-lt hash n x p in
      let t = total-set bs i (x ∷ bucket bs i) (omega arith) in
      let r = move_bucket-total xs (set bs i (x ∷ bucket bs i)) p (length-set bs i _ ∙ s) in
      omega arith

  -- No two elements of a table are equal, in whichever buckets they stand.
  Apart-append :
      (xs ys : List Elem)
      → Apart less xs
      → Apart less ys
      → ((x y : Elem) → has x xs ≡ true → has y ys ≡ true → equal less y x ≡ false)
      → Apart less (xs ++ ys)
  Apart-append [] ys a b c = b
  Apart-append (x ∷ xs) ys (d, a) b c = (
    no_clash xs d (λ y h. c x y (ground arith) h),
    Apart-append xs ys a b (λ z y h i. c z y (ground arith) i),
  )
    where
      apart_from :
          (zs : List Elem)
          → ((y : Elem) → has y zs ≡ true → equal less y x ≡ false)
          → clash less x zs ≡ false
      apart_from [] f = refl
      apart_from (z ∷ zs) f =
          let e = f z (ground arith) in rw e (apart_from zs (λ y h. f y (ground arith)))

      no_clash :
          (zs : List Elem)
          → clash less x zs ≡ false
          → ((y : Elem) → has y ys ≡ true → equal less y x ≡ false)
          → clash less x (zs ++ ys) ≡ false
      no_clash [] e f = apart_from ys f
      no_clash (z ∷ zs) e f = ground (arith, no_clash zs (ground arith) f)

  Apart-flat :
      (n j : ℕ) (bs : List (List Elem))
      → ((i : ℕ) → Apart less (bucket bs i))
      → ((i : ℕ) (x : Elem) → has x (bucket bs i) ≡ true → find_bucket hash n x ≡ j + i)
      → Apart less (flat bs)
  Apart-flat n j [] a f = tt
  Apart-flat n j (b ∷ bs) a f =
      Apart-append b (flat bs) (a 0)
        (Apart-flat n (j + 1) bs (λ i. a (suc i)) (λ i x h. omega (arith, f (suc i) x h)))
        (λ x y h m. elim (Bool-cases (equal less y x)) [
          | inl e ↦
              let (i, p, q) = bucket_of_has bs y m in
              let s = find_bucket_same k n y x e in absurd (omega (arith, f 0 x h, f (suc i) y q))
          | inr t ↦ t
        ])

  has-flat :
      (n : ℕ) (bs : List (List Elem)) (x : Elem)
      → AreBuckets hash less n bs
      → has x (flat bs) ≡ member hash n bs x
  has-flat n bs x b = elim (Bool-cases (has x (flat bs))) [
    | inl y ↦ let (i, p, q) = bucket_of_has bs x y in let e = b.placed i x q in y ∙ sym (rw e q)
    | inr m ↦ elim (Bool-cases (member hash n bs x)) [
      | inl y ↦ let r = has_of_bucket bs (find_bucket hash n x) x y in absurd (ground arith)
      | inr t ↦ m ∙ sym t
    ]
  ]

  -- `rehash` keeps a table valid, with the elements it has.
  pub rehash-IsValid :
      (memory : Bool) {h : Hash} → IsValid hash less h → IsValid hash less (rehash hash memory h)
  unfolding rehash
  rehash-IsValid memory {h} v = elim (Bool-cases (new_bucket_cnt h.elem_cnt == h.bucket_cnt)) [
    | inl y ↦ rw y v
    | inr m ↦ rw m (elim (Bool-cases memory) [
      | inr full ↦ rw full v
      | inl room ↦
          rw room (moved (new_bucket_cnt h.elem_cnt) (new_bucket_cnt-is_power_of_2 h.elem_cnt))
    ])
  ]
    where
      moved :
          (n : ℕ)
          → is_power_of_2 n ≡ true
          → IsValid hash less
              (record h { bucket_cnt = n; buckets = move_all hash n h.buckets (replicate n []) })
      moved n p =
          let all = move_all-flat hash n h.buckets (replicate n []) in
          let empty : AreBuckets hash less n (replicate n []) = record {
            size = length-replicate n [];
            placed = λ i x b. absurd (let e = bucket-replicate n i in ground arith);
            apart = λ i. rw (bucket-replicate n i) tt;
          } in
          record {
            buckets_ = rw all (
                move_bucket-AreBuckets (flat h.buckets) (replicate n []) (positive n p)
                  (Apart-flat h.bucket_cnt 0 h.buckets v.buckets_.apart
                    (λ i x b. v.buckets_.placed i x b ∙ omega arith))
                  empty (λ x b. rw (bucket-replicate n (find_bucket hash n x)) refl));
            power = p;
            counted =
                rw
                  (
                    all,
                    move_bucket-total (flat h.buckets) (replicate n []) (positive n p)
                        (length-replicate n []),
                    length-flat h.buckets,
                    total-replicate n,
                  )
                  (omega (arith, v.counted));
          }

  pub rehash-member :
      (memory : Bool) {h : Hash}
      → IsValid hash less h
      → (x : Elem)
      → member hash (rehash hash memory h).bucket_cnt (rehash hash memory h).buckets x
        ≡ member hash h.bucket_cnt h.buckets x
  unfolding rehash
  rehash-member memory {h} v x = elim (Bool-cases (new_bucket_cnt h.elem_cnt == h.bucket_cnt)) [
    | inl y ↦ rw y refl
    | inr m ↦ rw m (elim (Bool-cases memory) [
      | inr full ↦ rw full refl
      | inl room ↦
          rw room (
            moved (new_bucket_cnt h.elem_cnt)
              (positive _ (new_bucket_cnt-is_power_of_2 h.elem_cnt)))
    ])
  ]
    where
      moved :
          (n : ℕ)
          → 0 < n
          → member hash n (move_all hash n h.buckets (replicate n [])) x
            ≡ member hash h.bucket_cnt h.buckets x
      moved n p =
          rw
            (
              move_all-flat hash n h.buckets (replicate n []),
              move_bucket-member (flat h.buckets) (replicate n []) x p (length-replicate n []),
              bucket-replicate n (find_bucket hash n x),
              has-flat h.bucket_cnt h.buckets x v.buckets_,
            )
            (ground arith)

  pub rehash-elem_cnt : (memory : Bool) (h : Hash) → (rehash hash memory h).elem_cnt ≡ h.elem_cnt
  unfolding rehash
  rehash-elem_cnt memory h = ground arith
