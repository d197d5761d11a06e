-- ===== src/Hash/Valid.antt =====
-- What holds of a hash table of hash.c between calls, and what `hash_find` returns.
use Prim.Native.Nat.{bit_and}
use cs162hwproj.Prelude.{
  ℕ, ◌-◌, ◌<◌, ◌≡◌, refl, sym, ap, ◌∙◌, ◌↔◌, Bool, true, false, ◌||◌, inl, inr, none, some, List,
  [], ◌∷◌, arith, ◌==◌, if◌then◌else◌, Bool-cases, eq_of_some, length, length-set, set,
}
use cs162hwproj.Prelude.Bits.{bit_and-le_right}
use cs162hwproj.Prelude.Members.{has}
use cs162hwproj.Hash.{
  Elem, Hash, bucket, is_power_of_2, find_bucket, equal, find_elem, list_remove, hash_find,
}
use cs162hwproj.Hash.Buckets.{total, bucket-set, has-remove}

-- What the caller's functions must satisfy: equality is transitive, and equal elements have one hash.
pub record IsKeyed (hash : Elem → ℕ) (less : Elem → Elem → Bool) : Type 0 where
  pub same : (a : Elem) → equal less a a ≡ true
  pub trans : (a b c : Elem) → equal less a b ≡ true → equal less b c ≡ true → equal less a c ≡ true
  pub hashed : (a b : Elem) → equal less a b ≡ true → hash a ≡ hash b

module _ (less : Elem → Elem → Bool) where
  -- Whether an element of the list equals `e`.
  abbrev pub clash : Elem → List Elem → Bool
  clash e [] = false
  clash e (y ∷ ys) = equal less y e || clash e ys

  abbrev pub Apart : List Elem → Type 0
  Apart [] = Unit
  Apart (x ∷ xs) = (clash x xs ≡ false) × Apart xs

-- The buckets hold what belongs there, no two equal elements, and as many as counted.
pub record AreBuckets (hash : Elem → ℕ) (less : Elem → Elem → Bool) (n : ℕ) (bs : List (List Elem))
    : Type 0 where
  pub size : length bs ≡ n
  pub placed : (i : ℕ) (x : Elem) → has x (bucket bs i) ≡ true → find_bucket hash n x ≡ i
  pub apart : (i : ℕ) → Apart less (bucket bs i)

pub record IsValid (hash : Elem → ℕ) (less : Elem → Elem → Bool) (h : Hash) : Type 0 where
  pub buckets_ : AreBuckets hash less h.bucket_cnt h.buckets
  pub power : is_power_of_2 h.bucket_cnt ≡ true
  pub counted : h.elem_cnt ≡ total h.buckets

-- Whether an element is in the table.
abbrev pub member : (hash : Elem → ℕ) → (n : ℕ) → List (List Elem) → Elem → Bool
member hash n bs x = has x (bucket bs (find_bucket hash n x))

pub positive : (n : ℕ) → is_power_of_2 n ≡ true → 0 < n
unfolding is_power_of_2
positive n h = ground arith

pub find_bucket-lt : (hash : Elem → ℕ) (n : ℕ) (x : Elem) → 0 < n → find_bucket hash n x < n
unfolding find_bucket
find_bucket-lt hash n x h = let b = bit_and-le_right (hash x) (n - 1) in omega arith

module _ {hash : Elem → ℕ} {less : Elem → Elem → Bool} (k : IsKeyed hash less) where
  equal_comm : (a b : Elem) → equal less a b ≡ equal less b a
  equal_comm a b = ground arith

  pub find_bucket_same :
      (n : ℕ) (a b : Elem) → equal less a b ≡ true → find_bucket hash n a ≡ find_bucket hash n b
  unfolding find_bucket
  find_bucket_same n a b e = let h = k.hashed a b e in ap (λ x. bit_and x (n - 1)) h

  pub find_elem-some :
      (xs : List Elem) (e x : Elem)
      → find_elem less xs e ≡ some x
      → (has x xs ≡ true) × (equal less x e ≡ true)
  unfolding find_elem
  find_elem-some [] e x h = cc
  find_elem-some (y ∷ xs) e x h = elim (Bool-cases (equal less y e)) [
    | inl hit ↦
        let f : some y ≡ some x = rw hit at h in
        let g : y ≡ x = eq_of_some f in (ground arith, rw (g) at hit)
    | inr miss ↦ let (p, q) = find_elem-some xs e x (rw miss at h) in (ground arith, q)
  ]

  pub find_elem-none :
      (xs : List Elem) (e : Elem) → find_elem less xs e ≡ none → clash less e xs ≡ false
  unfolding find_elem
  find_elem-none [] e h = refl
  find_elem-none (y ∷ xs) e h = elim (Bool-cases (equal less y e)) [
    | inl hit ↦ let f : some y ≡ none = rw hit at h in cc
    | inr miss ↦ rw miss (find_elem-none xs e (rw miss at h))
  ]

  -- A clash is there when an equal element is in the list.
  pub clash_of_has :
      (xs : List Elem) (e x : Elem)
      → has x xs ≡ true
      → equal less x e ≡ true
      → clash less e xs ≡ true
  clash_of_has [] e x h q = cc
  clash_of_has (y ∷ xs) e x h q = elim (Bool-cases (x == y)) [
    | inl s ↦
        let g : x ≡ y = ground arith in let r : equal less y e ≡ true = rw (g) at q in rw r refl
    | inr t ↦ let r = clash_of_has xs e x (ground arith) q in rw r (ground arith)
  ]

  pub find_elem-has :
      (xs : List Elem) (e x : Elem)
      → Apart less xs
      → has x xs ≡ true
      → equal less x e ≡ true
      → find_elem less xs e ≡ some x
  unfolding find_elem
  find_elem-has [] e x a h q = cc
  find_elem-has (y ∷ xs) e x (c, a) h q = elim (Bool-cases (x == y)) [
    | inl s ↦
        let g : x ≡ y = ground arith in
        let r : equal less y e ≡ true = rw (g) at q in rw r (ap some (sym g))
    | inr t ↦ elim (Bool-cases (equal less y e)) [
      | inl hit ↦
          let r = k.trans x e y q (equal_comm e y ∙ hit) in
          let s = clash_of_has xs y x (ground arith) r in absurd (ground arith)
      | inr miss ↦ rw miss (find_elem-has xs e x a (ground arith) q)
    ]
  ]

  -- `hash_find` on a valid table returns an element just if it is in the table and equals the one that
  -- was asked for.
  pub hash_find-member :
      {h : Hash} (v : IsValid hash less h) (e x : Elem)
      → (hash_find hash less h e ≡ some x)
        ↔ ((member hash h.bucket_cnt h.buckets x ≡ true) × (equal less x e ≡ true))
  unfolding hash_find
  hash_find-member {h} v e x = (found, finds)
    where
      found :
          hash_find hash less h e ≡ some x
          → (member hash h.bucket_cnt h.buckets x ≡ true) × (equal less x e ≡ true)
      found f =
          let (p, q) = find_elem-some (bucket h.buckets (find_bucket hash h.bucket_cnt e)) e x f in
          let same_bucket = find_bucket_same h.bucket_cnt x e q in (rw same_bucket p, q)

      finds :
          (member hash h.bucket_cnt h.buckets x ≡ true) × (equal less x e ≡ true)
          → hash_find hash less h e ≡ some x
      finds (p, q) =
          let same_bucket = find_bucket_same h.bucket_cnt x e q in
          find_elem-has (bucket h.buckets (find_bucket hash h.bucket_cnt e)) e x
            (v.buckets_.apart _) (rw same_bucket at p) q

clash-remove :
    (less : Elem → Elem → Bool) (e x : Elem) (xs : List Elem)
    → clash less x xs ≡ false
    → clash less x (list_remove e xs) ≡ false
clash-remove less e x [] h = refl
clash-remove less e x (y ∷ xs) h = ground (arith, clash-remove less e x xs)

Apart-remove :
    (less : Elem → Elem → Bool) (e : Elem) (xs : List Elem)
    → Apart less xs
    → Apart less (list_remove e xs)
Apart-remove less e [] a = tt
Apart-remove less e (y ∷ xs) (c, a) = elim (Bool-cases (e == y)) [
  | inl s ↦ rw s a
  | inr t ↦ rw t (clash-remove less e y xs c, Apart-remove less e xs a)
]

module _ {hash : Elem → ℕ} {less : Elem → Elem → Bool} (k : IsKeyed hash less) where
  -- An element that is taken out of a list without equal elements is no longer there.
  pub has-remove_self :
      (e : Elem) (xs : List Elem) → Apart less xs → has e (list_remove e xs) ≡ false
  has-remove_self e [] a = refl
  has-remove_self e (y ∷ xs) (c, a) = elim (Bool-cases (e == y)) [
    | inl s ↦
        let g : e ≡ y = ground arith in
        rw s (elim (Bool-cases (has e xs)) [
          | inl again ↦
              let r = clash_of_has k xs y e again (rw (← g) (k.same e)) in absurd (ground arith)
          | inr gone ↦ gone
        ])
    | inr t ↦ rw (t, has, t) (has-remove_self e xs a)
  ]

  -- Another content for one bucket.
  AreBuckets-set :
      {n : ℕ} {bs : List (List Elem)} (i : ℕ) (v : List Elem)
      → i < n
      → AreBuckets hash less n bs
      → ((x : Elem) → has x v ≡ true → find_bucket hash n x ≡ i)
      → Apart less v
      → AreBuckets hash less n (set bs i v)
  AreBuckets-set {n} {bs} i v p b own a = record {
    size = length-set bs i v ∙ b.size;
    placed = λ j x h. elim (Bool-cases (i == j)) [
      | inl y ↦ let g : i ≡ j = ground arith in own x (rw (at j, y) at h) ∙ g
      | inr m ↦ b.placed j x (rw (at j, m) at h)
    ];
    apart = λ j. elim (Bool-cases (i == j)) [
      | inl y ↦ rw (at j, y) a
      | inr m ↦ rw (at j, m) (b.apart j)
    ];
  }
    where
      at : (j : ℕ) → bucket (set bs i v) j ≡ (if i == j then v else bucket bs j)
      at j = bucket-set bs i j v (omega (arith, b.size))

  -- One more element, that equals none of its bucket.
  pub AreBuckets-insert :
      {n : ℕ} {bs : List (List Elem)} (e : Elem)
      → 0 < n
      → AreBuckets hash less n bs
      → clash less e (bucket bs (find_bucket hash n e)) ≡ false
      → AreBuckets hash less n
          (set bs (find_bucket hash n e) (e ∷ bucket bs (find_bucket hash n e)))
  AreBuckets-insert {n} {bs} e p b c =
      AreBuckets-set (find_bucket hash n e) _ (find_bucket-lt hash n e p) b
        (λ x h. elim (Bool-cases (x == e)) [
          | inl s ↦ let g : x ≡ e = ground arith in ap (find_bucket hash n) g
          | inr t ↦ b.placed _ x (ground arith)
        ])
        (c, b.apart _)

  pub AreBuckets-remove :
      {n : ℕ} {bs : List (List Elem)} (i : ℕ) (e : Elem)
      → i < n
      → AreBuckets hash less n bs
      → AreBuckets hash less n (set bs i (list_remove e (bucket bs i)))
  AreBuckets-remove {n} {bs} i e p b =
      AreBuckets-set i _ p b
        (λ x h. elim (Bool-cases (x == e)) [
          | inl s ↦
              let g : x ≡ e = ground arith in
              let gone = has-remove_self e (bucket bs i) (b.apart i) in
              let there : has e (list_remove e (bucket bs i)) ≡ true = rw g at h in
              absurd (ground arith)
          | inr t ↦ b.placed i x (sym (has-remove e x (bucket bs i) (ground arith)) ∙ h)
        ])
        (Apart-remove less e (bucket bs i) (b.apart i))

module _ (hash : Elem → ℕ) (n : ℕ) (bs : List (List Elem)) (size : length bs ≡ n) (p : 0 < n) where
  -- Which elements are in the table after the insertion.
  pub member-insert :
      (e x : Elem)
      → member hash n (set bs (find_bucket hash n e) (e ∷ bucket bs (find_bucket hash n e))) x
        ≡ ((x == e) || member hash n bs x)
  member-insert e x =
      rw
        (bucket-set bs (find_bucket hash n e) (find_bucket hash n x)
          (e ∷ bucket bs (find_bucket hash n e)) (let f = find_bucket-lt hash n e p in omega arith))
        (elim (Bool-cases (find_bucket hash n e == find_bucket hash n x)) [
          | inl y ↦
              let g : find_bucket hash n e ≡ find_bucket hash n x = ground arith in rw y (rw g refl)
          | inr m ↦ rw m (elim (Bool-cases (x == e)) [
            | inl s ↦
                let g : x ≡ e = ground arith in
                let f = ap (find_bucket hash n) g in absurd (ground arith)
            | inr t ↦ rw t refl
          ])
        ])
