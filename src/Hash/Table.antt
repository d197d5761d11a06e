-- ===== src/Hash/Table.antt =====
-- The calls of hash.c that change the table, as those of a set of elements no two of which are equal.
use cs162hwproj.Prelude.{
  ℕ, ◌+◌, ◌<◌, ◌^◌, ◌≡◌, refl, sym, ap, ◌∙◌, Bool, true, false, not, ◌&&◌, ◌||◌, inl, inr, Option,
  none, some, List, [], ◌∷◌, arith, ◌==◌, if◌then◌else◌, Bool-cases, Option-cases, eq_of_some,
  length,
}
use cs162hwproj.Prelude.Members.{has}
use cs162hwproj.Hash.{
  Elem, Hash, bucket, find_bucket, equal, find_elem, list_remove, insert_elem, remove_elem, rehash,
  hash_find, hash_insert, hash_replace, hash_delete,
}
use cs162hwproj.Hash.Buckets.{total-set, bucket-set, has-remove, length-remove}
use cs162hwproj.Hash.Valid.{
  IsKeyed, clash, Apart, IsValid, member, positive, find_bucket-lt, find_bucket_same,
  find_elem-some, find_elem-none, has-remove_self, AreBuckets-insert, AreBuckets-remove,
  member-insert,
}
use cs162hwproj.Hash.Rehash.{rehash-IsValid, rehash-member}

-- The table `g` is valid, and holds just the elements that `f` says.
pub record Holds (hash : Elem → ℕ) (less : Elem → Elem → Bool) (f : Elem → Bool) (g : Hash)
    : Type 0 where
  pub valid : IsValid hash less g
  pub members : (x : Elem) → member hash g.bucket_cnt g.buckets x ≡ f x

-- The elements of a table, without one that was found.
abbrev pub less_found : Option Elem → (Elem → Bool) → Elem → Bool
less_found none f x = f x
less_found (some o) f x = not (x == o) && f x

module _ {hash : Elem → ℕ} {less : Elem → Elem → Bool} (k : IsKeyed hash less) (memory : Bool)
    {h : Hash} (v : IsValid hash less h) where
  insert_elem-Holds :
      (e : Elem)
      → h.elem_cnt + 1 < 2 ^ 32
      → clash less e (bucket h.buckets (find_bucket hash h.bucket_cnt e)) ≡ false
      → Holds hash less
          (λ x. (x == e) || member hash h.bucket_cnt h.buckets x)
          (insert_elem h (find_bucket hash h.bucket_cnt e) e)
  unfolding insert_elem
  insert_elem-Holds e small c =
      let p = positive h.bucket_cnt v.power in
      let i = find_bucket hash h.bucket_cnt e in
      let t =
        total-set h.buckets i (e ∷ bucket h.buckets i)
          (let f = find_bucket-lt hash h.bucket_cnt e p in omega (arith, v.buckets_.size)) in
      record {
        valid = record {
          buckets_ = AreBuckets-insert k e p v.buckets_ c;
          power = v.power;
          counted = omega (arith, v.counted);
        };
        members = member-insert hash h.bucket_cnt h.buckets v.buckets_.size p e;
      }

  remove_elem-Holds :
      (i : ℕ) (e : Elem)
      → i ≡ find_bucket hash h.bucket_cnt e
      → member hash h.bucket_cnt h.buckets e ≡ true
      → Holds hash less
          (λ x. not (x == e) && member hash h.bucket_cnt h.buckets x)
          (remove_elem h i e)
  unfolding remove_elem
  remove_elem-Holds i e s m =
      let p = positive h.bucket_cnt v.power in
      let f = find_bucket-lt hash h.bucket_cnt e p in
      let there : has e (bucket h.buckets i) ≡ true = rw s m in
      let fits : i < length h.buckets = omega (arith, v.buckets_.size) in
      let t = total-set h.buckets i (list_remove e (bucket h.buckets i)) fits in
      let l = length-remove e (bucket h.buckets i) there in
      record {
        valid = record {
          buckets_ = AreBuckets-remove k i e (omega arith) v.buckets_;
          power = v.power;
          counted = omega (arith, v.counted);
        };
        members = λ x.
            rw
              (bucket-set h.buckets i (find_bucket hash h.bucket_cnt x)
                (list_remove e (bucket h.buckets i)) fits)
              (elim (Bool-cases (x == e)) [
                | inl y ↦ let g : x ≡ e = ground arith in rw (g) (gone e s)
                | inr n ↦ elim (Bool-cases (i == find_bucket hash h.bucket_cnt x)) [
                  | inl y ↦
                      let g : i ≡ find_bucket hash h.bucket_cnt x = ground arith in
                      rw (y, n, ← g) (has-remove e x (bucket h.buckets i) (ground arith))
                  | inr d ↦ rw (d, n) refl
                ]
              ]);
      }
    where
      gone :
          (x : Elem)
          → i ≡ find_bucket hash h.bucket_cnt x
          → has x (
              if i == find_bucket hash h.bucket_cnt x
              then list_remove x (bucket h.buckets i)
              else bucket h.buckets (find_bucket hash h.bucket_cnt x))
            ≡ (not (x == x) && member hash h.bucket_cnt h.buckets x)
      gone x s =
          let yes_ : (i == find_bucket hash h.bucket_cnt x) ≡ true = ground arith in
          let self : (x == x) ≡ true = ground arith in
          rw (yes_, self) (has-remove_self k x (bucket h.buckets i) (v.buckets_.apart i))

  rehash-Holds :
      {f : Elem → Bool} {g : Hash} → Holds hash less f g → Holds hash less f (rehash hash memory g)
  rehash-Holds r = record {
    valid = rehash-IsValid k memory r.valid;
    members = λ x. rehash-member k memory r.valid x ∙ r.members x;
  }

  -- On a valid table of fewer than 2^32 - 1 elements, with a `hash` that gives equal elements the same value and a
  -- `less` whose equality is an equivalence (`IsKeyed`), `hash_insert` returns what `hash_find` would. The table is then valid, and has the elements it had, with
  -- the new one if none equals it.
  pub hash_insert-Holds :
      (new : Elem)
      → h.elem_cnt + 1 < 2 ^ 32
      → ((hash_insert hash less memory h new).0 ≡ hash_find hash less h new)
        × Holds hash less
            (λ x. elim (hash_find hash less h new) [
              | none ↦ (x == new) || member hash h.bucket_cnt h.buckets x
              | some o ↦ member hash h.bucket_cnt h.buckets x
            ])
            (hash_insert hash less memory h new).1
  unfolding hash_insert hash_find
  hash_insert-Holds new small = (
    refl,
    elim (Option-cases
        (find_elem less (bucket h.buckets (find_bucket hash h.bucket_cnt new)) new)) [
          | inl out ↦
              rw out (rehash-Holds (insert_elem-Holds new small (find_elem-none k _ new out)))
          | inr (o, inn) ↦ rw inn (rehash-Holds (record { valid = v; members = λ x. refl }))
        ],
  )

  -- On a valid table, with a `hash` that gives equal elements the same value and a `less` whose equality is an
  -- equivalence (`IsKeyed`), `hash_delete` returns what `hash_find` would. The table is then valid, and has the elements it had, without
  -- the one that was found.
  pub hash_delete-Holds :
      (e : Elem)
      → ((hash_delete hash less memory h e).0 ≡ hash_find hash less h e)
        × Holds hash less
            (less_found (hash_find hash less h e) (member hash h.bucket_cnt h.buckets))
            (hash_delete hash less memory h e).1
  unfolding hash_delete hash_find
  hash_delete-Holds e = (
    refl,
    elim (Option-cases (find_elem less (bucket h.buckets (find_bucket hash h.bucket_cnt e)) e)) [
      | inl out ↦ rw (out, hash_delete) (record { valid = v; members = λ x. refl })
      | inr (o, inn) ↦
          let (p, q) =
            find_elem-some k (bucket h.buckets (find_bucket hash h.bucket_cnt e)) e o inn in
          let s = find_bucket_same k h.bucket_cnt o e q in
          rw (inn, hash_delete)
            (rehash-Holds (remove_elem-Holds (find_bucket hash h.bucket_cnt e) o (sym s) (rw s p)))
    ],
  )

module _ {hash : Elem → ℕ} {less : Elem → Elem → Bool} (k : IsKeyed hash less) where
  clash_same :
      (y e : Elem) (xs : List Elem)
      → equal less y e ≡ true
      → clash less y xs ≡ false
      → clash less e xs ≡ false
  clash_same y e [] q c = refl
  clash_same y e (z ∷ xs) q c = elim (Bool-cases (equal less z e)) [
    | inl hit ↦
        let back : equal less e y ≡ true = ground arith in
        let r = k.trans z e y hit back in absurd (ground arith)
    | inr miss ↦ rw miss (clash_same y e xs q (ground arith))
  ]

  -- With the element that was found gone, no other equals the one that was asked for.
  clash-remove_found :
      (e o : Elem) (xs : List Elem)
      → Apart less xs
      → find_elem less xs e ≡ some o
      → clash less e (list_remove o xs) ≡ false
  unfolding find_elem
  clash-remove_found e o [] a f = refl
  clash-remove_found e o (y ∷ xs) (c, a) f = elim (Bool-cases (equal less y e)) [
    | inl hit ↦
        let g : some y ≡ some o = rw hit at f in
        let s : (o == y) ≡ true = let t : y ≡ o = eq_of_some g in ground arith in
        rw s (clash_same y e xs hit c)
    | inr miss ↦
        let g : find_elem less xs e ≡ some o = rw miss at f in
        let (p, q) = find_elem-some k xs e o g in
        elim (Bool-cases (o == y)) [
          | inl s ↦
              let t : o ≡ y = ground arith in
              let u : equal less y e ≡ true = rw (t) at q in absurd (ground arith)
          | inr s ↦ rw (s, clash, miss) (clash-remove_found e o xs a g)
        ]
  ]

module _ {hash : Elem → ℕ} {less : Elem → Elem → Bool} (k : IsKeyed hash less) (memory : Bool)
    {h : Hash} (v : IsValid hash less h) where
  replaced :
      (new o : Elem)
      → h.elem_cnt + 1 < 2 ^ 32
      → find_elem less (bucket h.buckets (find_bucket hash h.bucket_cnt new)) new ≡ some o
      → Holds hash less
          (λ x. (x == new) || not (x == o) && member hash h.bucket_cnt h.buckets x)
          (rehash hash memory (
            insert_elem
              (remove_elem h (find_bucket hash h.bucket_cnt new) o)
              (find_bucket hash h.bucket_cnt new)
              new))
  unfolding remove_elem
  replaced new o small inn =
      let i = find_bucket hash h.bucket_cnt new in
      let (p, q) = find_elem-some k (bucket h.buckets i) new o inn in
      let s = find_bucket_same k h.bucket_cnt o new q in
      let r = remove_elem-Holds k memory v i o (sym s) (rw s p) in
      let fits : i < length h.buckets =
        let f = find_bucket-lt hash h.bucket_cnt new (positive h.bucket_cnt v.power) in
        omega (arith, v.buckets_.size) in
      let self : (i == i) ≡ true = ground arith in
      let w = insert_elem-Holds k memory r.valid new (omega arith) (
        rw (bucket-set h.buckets i i (list_remove o (bucket h.buckets i)) fits, self)
          (clash-remove_found k new o (bucket h.buckets i) (v.buckets_.apart i) inn)) in
      rehash-Holds k memory v (record {
        valid = w.valid;
        members = λ x. w.members x ∙ ap (λ b. (x == new) || b) (r.members x);
      })

  -- `hash_replace` returns what `hash_find` would. The table is then valid, and has the elements it had, without
  -- the one that was found and with the new one.
  pub hash_replace-Holds :
      (new : Elem)
      → h.elem_cnt + 1 < 2 ^ 32
      → ((hash_replace hash less memory h new).0 ≡ hash_find hash less h new)
        × Holds hash less
            (λ x.
              (x == new)
              || less_found (hash_find hash less h new) (member hash h.bucket_cnt h.buckets) x)
            (hash_replace hash less memory h new).1
  unfolding hash_replace hash_find
  hash_replace-Holds new small = (
    refl,
    elim (Option-cases
        (find_elem less (bucket h.buckets (find_bucket hash h.bucket_cnt new)) new)) [
          | inl out ↦ rw out (
              rehash-Holds k memory v
                (insert_elem-Holds k memory v new small (find_elem-none k _ new out)))
          | inr (o, inn) ↦ rw inn (replaced new o small inn)
        ],
  )
