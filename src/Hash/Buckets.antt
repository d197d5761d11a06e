-- ===== src/Hash/Buckets.antt =====
-- The buckets of hash.c as a list of lists: what stands in each, and how many elements in all.
use cs162hwproj.Prelude.{
  ℕ, zero, suc, ◌+◌, ◌<◌, ◌≡◌, refl, ◌≢◌, sym, ◌∙◌, true, inl, inr, List, [], ◌∷◌, ◌++◌, arith,
  ◌==◌, if◌then◌else◌, Bool-cases, set, length, get_or-set_self, get_or-set_ne, replicate,
  length-append,
}
use cs162hwproj.Prelude.Members.{has, has-append}
use cs162hwproj.Hash.{Elem, bucket, list_remove, move_bucket, move_all}

abbrev pub total : List (List Elem) → ℕ
total [] = 0
total (b ∷ bs) = length b + total bs

abbrev pub flat : List (List Elem) → List Elem
flat [] = []
flat (b ∷ bs) = b ++ flat bs

pub length-flat : (bs : List (List Elem)) → length (flat bs) ≡ total bs
length-flat [] = refl
length-flat (b ∷ bs) = omega (arith, length-append b (flat bs), length-flat bs)

pub total-set :
    (bs : List (List Elem)) (i : ℕ) (v : List Elem)
    → i < length bs
    → total (set bs i v) + length (bucket bs i) ≡ total bs + length v
total-set [] i v h = absurd (omega arith)
total-set (b ∷ bs) zero v h = omega arith
total-set (b ∷ bs) (suc i) v h = omega (arith, total-set bs i v)

pub bucket-set :
    (bs : List (List Elem)) (i j : ℕ) (v : List Elem)
    → i < length bs
    → bucket (set bs i v) j ≡ (if i == j then v else bucket bs j)
bucket-set bs i j v h = elim (Bool-cases (i == j)) [
  | inl y ↦ let e : i ≡ j = ground arith in rw y (rw (← e) (get_or-set_self bs i v [] h))
  | inr n ↦ rw n (get_or-set_ne bs i j v [] (ground arith))
]

pub bucket-replicate : (n i : ℕ) → bucket (replicate n []) i ≡ []
bucket-replicate zero i = refl
bucket-replicate (suc n) zero = refl
bucket-replicate (suc n) (suc i) = bucket-replicate n i

pub total-replicate : (n : ℕ) → total (replicate n []) ≡ 0
total-replicate zero = refl
total-replicate (suc n) = omega (arith, total-replicate n)

pub has-remove : (e x : Elem) (xs : List Elem) → x ≢ e → has x (list_remove e xs) ≡ has x xs
has-remove e x [] ne = refl
has-remove e x (y ∷ xs) ne = ground (arith, has-remove e x xs)

pub length-remove :
    (e : Elem) (xs : List Elem) → has e xs ≡ true → length (list_remove e xs) + 1 ≡ length xs
length-remove e [] h = absurd (ground arith)
length-remove e (y ∷ xs) h = ground (arith, length-remove e xs)

-- An element of a bucket is one of all the elements, and the other way.
pub has_of_bucket :
    (bs : List (List Elem)) (i : ℕ) (x : Elem) → has x (bucket bs i) ≡ true → has x (flat bs) ≡ true
has_of_bucket [] i x h = absurd (ground arith)
has_of_bucket (b ∷ bs) zero x h = ground (arith, has-append x b (flat bs))
has_of_bucket (b ∷ bs) (suc i) x h =
    ground (arith, has-append x b (flat bs), has_of_bucket bs i x h)

pub bucket_of_has :
    (bs : List (List Elem)) (x : Elem)
    → has x (flat bs) ≡ true
    → (i : ℕ) × (i < length bs) × (has x (bucket bs i) ≡ true)
bucket_of_has [] x h = absurd (ground arith)
bucket_of_has (b ∷ bs) x h = elim (Bool-cases (has x b)) [
  | inl y ↦ (0, omega arith, y)
  | inr n ↦
      let (i, p, q) = bucket_of_has bs x (ground (arith, has-append x b (flat bs))) in
      (suc i, omega arith, q)
]

module _ (hash : Elem → ℕ) where
  move_bucket-append :
      (n : ℕ) (xs ys : List Elem) (bs : List (List Elem))
      → move_bucket hash n (xs ++ ys) bs ≡ move_bucket hash n ys (move_bucket hash n xs bs)
  unfolding move_bucket
  move_bucket-append n [] ys bs = refl
  move_bucket-append n (x ∷ xs) ys bs = move_bucket-append n xs ys _

  pub move_all-flat :
      (n : ℕ) (old bs : List (List Elem))
      → move_all hash n old bs ≡ move_bucket hash n (flat old) bs
  unfolding move_all move_bucket
  move_all-flat n [] bs = refl
  move_all-flat n (b ∷ old) bs =
      move_all-flat n old (move_bucket hash n b bs) ∙ sym (move_bucket-append n b (flat old) bs)
