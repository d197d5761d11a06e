-- ===== src/Stdlib/Search.antt =====
-- `binary_search` of stdlib.c finds an element of a sorted array just if there is one.
use cs162hwproj.Prelude.{
  ◌⊎◌, ℕ, zero, suc, ◌+◌, ◌-◌, ◌/◌, ◌<◌, ◌≤◌, ◌≡◌, refl, ◌≢◌, sym, ap, ◌∙◌, true, false, inl, inr,
  Option, none, some, arith, ltb, Bool-cases,
}
use cs162hwproj.Stdlib.{
  Elem, Array, Order, less, same, greater, is_greater, search_loop, binary_search,
}
use cs162hwproj.Stdlib.Heap.{above, opposite, IsOrder}
use cs162hwproj.Stdlib.Sorting.{IsSorted}

-- What the search must return: an index of an element that is the same as the key, if there is one.
abbrev pub Finds :
    (compare : Elem → Elem → Order) (key : Elem) → Array → (cnt : ℕ) → Option ℕ → Type 0
Finds compare key a cnt none = (i : ℕ) → i < cnt → compare key (a i) ≢ same
Finds compare key a cnt (some i) = (i < cnt) × (compare key (a i) ≡ same)

Order-cases : (c : Order) → (c ≡ less) ⊎ ((c ≡ same) ⊎ (c ≡ greater))
Order-cases less = inl refl
Order-cases same = inr (inl refl)
Order-cases greater = inr (inr refl)

module _ {compare : Elem → Elem → Order} (o : IsOrder compare) (key : Elem) (a : Array) (cnt : ℕ)
    (s : IsSorted compare cnt a) where
  greater_of_above : (x y : Elem) → above compare x y ≡ true → compare x y ≡ greater
  greater_of_above x y h = elim (Order-cases (compare x y)) [
    | inl e ↦ let f : false ≡ true = rw e at h in cc
    | inr (inl e) ↦ let f : false ≡ true = rw e at h in cc
    | inr (inr e) ↦ e
  ]

  in_order : (i j : ℕ) → i ≤ j → j < cnt → above compare (a i) (a j) ≡ false
  in_order i j p q =
      let w = s (i + 1) (j + 1) (omega arith) (omega arith) (omega arith) in
      let e : i + 1 - 1 ≡ i = omega arith in let f : j + 1 - 1 ≡ j = omega arith in rw (e, f) at w

  -- With the key before an element, it is before the later ones; behind one, it is behind the earlier ones.
  less_after : (i j : ℕ) → i ≤ j → j < cnt → compare key (a i) ≡ less → compare key (a j) ≡ less
  less_after i j p q h =
      let m : compare (a i) key ≡ greater = o.mirror key (a i) ∙ ap opposite h in
      let h' : above compare (a i) key ≡ true = rw m refl in
      elim (Bool-cases (above compare (a j) key)) [
        | inl y ↦ o.mirror (a j) key ∙ ap opposite (greater_of_above (a j) key y)
        | inr n ↦ let z = o.trans (a i) (a j) key (in_order i j p q) n in absurd (ground arith)
      ]

  greater_before :
      (i j : ℕ) → i ≤ j → j < cnt → compare key (a j) ≡ greater → compare key (a i) ≡ greater
  greater_before i j p q h =
      let h' : above compare key (a j) ≡ true = rw h refl in
      elim (Bool-cases (above compare key (a i))) [
        | inl y ↦ greater_of_above key (a i) y
        | inr n ↦ let z = o.trans key (a i) (a j) n (in_order i j p q) in absurd (ground arith)
      ]

  nowhere :
      (first last : ℕ)
      → last ≤ first
      → ((i : ℕ) → i < first → compare key (a i) ≡ greater)
      → ((i : ℕ) → last ≤ i → i < cnt → compare key (a i) ≡ less)
      → (i : ℕ) → i < cnt
      → compare key (a i) ≢ same
  nowhere first last p b c i h e = elim (Bool-cases (ltb i first)) [
    | inl y ↦
        let r = b i (ground arith) in
        let f : false ≡ is_greater (compare key (a i)) = ap is_greater (sym e) in
        let g = ap is_greater r in cc
    | inr n ↦
        let r = c i (ground arith) h in
        let f : is_greater (opposite same) ≡ is_greater (opposite less) =
          ap (λ t. is_greater (opposite t)) (sym e ∙ r) in
        cc
  ]

  search_loop-Finds :
      (fuel first last : ℕ)
      → last ≤ cnt
      → last - first ≤ fuel
      → ((i : ℕ) → i < first → compare key (a i) ≡ greater)
      → ((i : ℕ) → last ≤ i → i < cnt → compare key (a i) ≡ less)
      → Finds compare key a cnt (search_loop compare fuel key a first last)
  unfolding search_loop
  search_loop-Finds zero first last q f b c = nowhere first last (omega arith) b c
  search_loop-Finds (suc fuel) first last q f b c = elim (Bool-cases (ltb first last)) [
    | inr n ↦ rw n (nowhere first last (ground arith) b c)
    | inl y ↦
        let middle : ℕ = first + (last - first) / 2 in
        let l : middle < last = ground arith in
        rw y (elim (Order-cases (compare key (a middle))) [
          | inl e ↦ rw e (
              search_loop-Finds fuel first middle (omega arith) (omega arith) b
                (λ i u v. less_after middle i u v e))
          | inr (inl e) ↦ rw e (omega arith, e)
          | inr (inr e) ↦ rw e (
              search_loop-Finds fuel (middle + 1) last q (omega arith)
                (λ i u. greater_before i middle (omega arith) (omega arith) e) c)
        ])
  ]

-- On an array in order, `binary_search` returns the index of an element that is the same as the key; it returns
-- none only if there is no such element.
pub binary_search-Finds :
    {compare : Elem → Elem → Order} (o : IsOrder compare) (key : Elem) (a : Array) (cnt : ℕ)
    → IsSorted compare cnt a
    → Finds compare key a cnt (binary_search compare key a cnt)
unfolding binary_search
binary_search-Finds o key a cnt s =
    search_loop-Finds o key a cnt s cnt 0 cnt (omega arith) (omega arith)
      (λ i h. absurd (omega arith)) (λ i h k. absurd (omega arith))
