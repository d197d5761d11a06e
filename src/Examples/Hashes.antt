-- ===== src/Examples/Hashes.antt =====
-- A hash table of four buckets with the elements 5 and 1 in one bucket; elements are compared as numbers.
use cs162hwproj.Prelude.{
  ℕ, ◌%◌, ◌≡◌, refl, ◌↔◌, inl, inr, Bool-cases, true, ltb, some, none, List, [], ◌∷◌, arith, ◌||◌,
  ◌==◌, zero, suc,
}
use cs162hwproj.Prelude.Members.{has}
use cs162hwproj.Hash.{
  Elem, Hash, bucket, equal, hash_find, hash_insert, hash_delete, hash_apply, hash_first,
  destroy_all, find_bucket, find_elem, is_power_of_2,
}
use cs162hwproj.Hash.Valid.{IsKeyed, IsValid, Apart, member, hash_find-member}
use cs162hwproj.Hash.Table.{Holds, less_found, hash_insert-Holds, hash_delete-Holds}
use cs162hwproj.Hash.Iteration.{visited, at_head, hash_apply-visited}

abbrev by_number : Elem → ℕ
by_number e = e % 8

abbrev table : Hash
table = record { elem_cnt = 2; bucket_cnt = 4; buckets = [] ∷ (5 ∷ 1 ∷ []) ∷ [] ∷ [] ∷ [] }

by_number-IsKeyed : IsKeyed by_number ltb
by_number-IsKeyed = record {
  same = λ a. ground arith;
  trans = λ a b c p q. ground arith;
  hashed = λ a b p. let e : a ≡ b = ground arith in rw e refl;
}

table-IsValid : IsValid by_number ltb table
unfolding is_power_of_2 find_bucket
table-IsValid = record {
  buckets_ = record { size = refl; placed = placed; apart = apart };
  power = refl;
  counted = refl;
}
  where
    placed :
        (i : ℕ) (x : Elem) → has x (bucket table.buckets i) ≡ true → find_bucket by_number 4 x ≡ i
    placed zero x h = cc
    placed (suc zero) x h = elim (Bool-cases (x == 5)) [
      | inl y ↦ let e : x ≡ 5 = ground arith in rw e refl
      | inr n ↦ let e : x ≡ 1 = ground arith in rw e refl
    ]
    placed (suc (suc zero)) x h = cc
    placed (suc (suc (suc zero))) x h = cc
    placed (suc (suc (suc (suc i)))) x h = cc

    apart : (i : ℕ) → Apart ltb (bucket table.buckets i)
    apart zero = tt
    apart (suc zero) = (refl, (refl, tt))
    apart (suc (suc zero)) = tt
    apart (suc (suc (suc zero))) = tt
    apart (suc (suc (suc (suc i)))) = tt

small_table-find : hash_find by_number ltb table 1 ≡ some 1
unfolding hash_find find_elem find_bucket
small_table-find = refl

abbrev push_front : Elem → List Elem → List Elem
push_front e s = e ∷ s

hash_apply-visited_example :
    hash_apply push_front table []
    ≡ destroy_all push_front (visited 3 (at_head [] ((5 ∷ 1 ∷ []) ∷ [] ∷ [] ∷ []))) []
unfolding hash_first
hash_apply-visited_example =
    hash_apply-visited push_front table (at_head [] ((5 ∷ 1 ∷ []) ∷ [] ∷ [] ∷ [])) [] refl

hash_find-member_example :
    (hash_find by_number ltb table 1 ≡ some 1)
    ↔ ((member by_number 4 table.buckets 1 ≡ true) × (equal ltb 1 1 ≡ true))
hash_find-member_example = hash_find-member by_number-IsKeyed table-IsValid 1 1

hash_insert-Holds_example :
    ((hash_insert by_number ltb true table 13).0 ≡ hash_find by_number ltb table 13)
    × Holds by_number ltb
        (λ x. elim (hash_find by_number ltb table 13) [
          | none ↦ (x == 13) || member by_number 4 table.buckets x
          | some o ↦ member by_number 4 table.buckets x
        ])
        (hash_insert by_number ltb true table 13).1
hash_insert-Holds_example = hash_insert-Holds by_number-IsKeyed true table-IsValid 13 (omega arith)

hash_delete-Holds_example :
    ((hash_delete by_number ltb true table 1).0 ≡ hash_find by_number ltb table 1)
    × Holds by_number ltb
        (less_found (hash_find by_number ltb table 1) (member by_number 4 table.buckets))
        (hash_delete by_number ltb true table 1).1
hash_delete-Holds_example = hash_delete-Holds by_number-IsKeyed true table-IsValid 1
