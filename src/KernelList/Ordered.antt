-- ===== src/KernelList/Ordered.antt =====
-- `list_insert_ordered` of list.c.
use cs162hwproj.Prelude.{
  ℕ, zero, suc, ◌<◌, ◌≡◌, refl, ◌≢◌, ap, Bool, true, false, not, some, List, [], ◌∷◌, ◌++◌, arith,
  ◌==◌, if◌then◌else◌, length, Bool-cases, inl, inr,
}
use mathlib.Core.List.{append-nil}
use cs162hwproj.Prelude.Returns.{Returns}
use cs162hwproj.KernelList.{
  Ptr, null, Heap, KList, list_begin, list_next, list_insert, list_push_back,
}
use cs162hwproj.KernelList.Access.{assert_true-some, assert_next-some, get_next-some}
use cs162hwproj.Prelude.Members.{has, has-append, ne_of_has}
use cs162hwproj.KernelList.Chain.{Chain, IsList, Chain-first}
use cs162hwproj.KernelList.Insert.{
  IsFresh, Ends, first_or, list_insert-IsList, list_push_back-IsList,
}
use cs162hwproj.KernelList.Order.{find_greater, list_insert_ordered}

module _ (less : Ptr → Ptr → Bool) where
  -- An element put before the first one that it is less than, or at the end.
  abbrev pub insert_before_greater : Ptr → List Ptr → List Ptr
  insert_before_greater elem [] = elem ∷ []
  insert_before_greater elem (x ∷ xs) =
      if less elem x then elem ∷ x ∷ xs else x ∷ insert_before_greater elem xs

  -- The elements before that place, and those behind it.
  abbrev passed : Ptr → List Ptr → List Ptr
  passed elem [] = []
  passed elem (x ∷ xs) = if less elem x then [] else x ∷ passed elem xs

  abbrev rest : Ptr → List Ptr → List Ptr
  rest elem [] = []
  rest elem (x ∷ xs) = if less elem x then x ∷ xs else rest elem xs

  passed-rest : (elem : Ptr) (xs : List Ptr) → passed elem xs ++ rest elem xs ≡ xs
  passed-rest elem [] = refl
  passed-rest elem (x ∷ xs) = elim (Bool-cases (less elem x)) [
    | inl y ↦ rw y refl
    | inr n ↦ rw n (ap (λ ys. x ∷ ys) (passed-rest elem xs))
  ]

  passed-insert :
      (elem : Ptr) (xs : List Ptr)
      → passed elem xs ++ elem ∷ rest elem xs ≡ insert_before_greater elem xs
  passed-insert elem [] = refl
  passed-insert elem (x ∷ xs) = elim (Bool-cases (less elem x)) [
    | inl y ↦ rw y refl
    | inr n ↦ rw n (ap (λ ys. x ∷ ys) (passed-insert elem xs))
  ]

  module _ (h : Heap) (l : KList) (elem : Ptr) where
    find_greater-rest :
        (fuel : ℕ) (a : Ptr) (xs : List Ptr)
        → Chain h a xs l.tail
        → has null (l.tail ∷ xs) ≡ false
        → has l.tail xs ≡ false
        → length xs < fuel
        → find_greater less fuel l elem (first_or xs l.tail) h
          ≡ some (first_or (rest elem xs) l.tail, h)
    unfolding find_greater list_next
    find_greater-rest zero a xs c n t f = absurd (omega arith)
    find_greater-rest (suc fuel) a [] c n t f = ground arith
    find_greater-rest (suc fuel) a (x ∷ xs) (e, p, c) n t f =
        let more : (x == l.tail) ≡ false = ground arith in
        let ne : x ≢ null = ground arith in
        let nn =
          ne_of_has (h.next x) null (xs ++ l.tail ∷ []) (Chain-first h x xs l.tail c)
            (ground (arith, has-append null xs (l.tail ∷ []))) in
        elim (Bool-cases (less elem x)) [
          | inl y ↦ rw (more, y) refl
          | inr m ↦
              let next : h.next x ≡ first_or xs l.tail = first xs c in
              rw (more, m, assert_next-some x h ne nn, get_next-some x h ne, next)
                (find_greater-rest fuel x xs c (ground arith) (ground arith) (omega arith))
        ]
      where
        first : (ys : List Ptr) → Chain h x ys l.tail → h.next x ≡ first_or ys l.tail
        first [] c = c.0
        first (y ∷ ys) c = c.0

    insert_at-IsList :
        (xs ys : List Ptr)
        → IsList h l (xs ++ ys)
        → IsFresh elem l (xs ++ ys)
        → Returns (Ends l h (xs ++ elem ∷ ys)) (list_insert (first_or ys l.tail) elem h)
    unfolding list_push_back
    insert_at-IsList xs [] is f =
        list_push_back-IsList h l elem xs (rw append-nil at is) (rw append-nil at f)
    insert_at-IsList xs (y ∷ ys) is f = list_insert-IsList h l elem xs y ys is f

    -- `list_insert_ordered` of a fresh element into a well-formed list, with fuel for more rounds than
    -- the list has elements, fails no assertion, and the list then holds its elements with the fresh one
    -- before the first that it is less than, or at the end if it is less than none.
    pub list_insert_ordered-IsList :
        (fuel : ℕ) (xs : List Ptr)
        → IsList h l xs
        → IsFresh elem l xs
        → length xs < fuel
        → Returns
            (Ends l h (insert_before_greater elem xs))
            (list_insert_ordered less fuel l elem h)
    unfolding list_insert_ordered list_begin
    list_insert_ordered-IsList fuel xs is f m =
        let d = is.apart in
        let ne : not (elem == null) ≡ true = ground arith in
        let first : h.next l.head ≡ first_or xs l.tail = begin xs is.chain in
        rw
          (
            assert_true-some (not (elem == null)) h ne,
            get_next-some l.head h (ground (arith, d)),
            first,
            find_greater-rest fuel l.head xs is.chain (ground (arith, d)) (ground (arith, d)) m,
            ← passed-insert elem xs,
          )
          (insert_at-IsList (passed elem xs) (rest elem xs) (rw (passed-rest elem xs) is)
            (rw (passed-rest elem xs) f))
      where
        begin : (ys : List Ptr) → Chain h l.head ys l.tail → h.next l.head ≡ first_or ys l.tail
        begin [] c = c.0
        begin (y ∷ ys) c = c.0
