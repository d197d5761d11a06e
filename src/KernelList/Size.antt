-- ===== src/KernelList/Size.antt =====
-- The walk of `list_size` in list.c.
use cs162hwproj.Prelude.{
  ℕ, zero, suc, ◌+◌, ◌<◌, ◌≡◌, ◌≢◌, ap, ◌∙◌, false, some, List, [], ◌∷◌, ◌++◌, arith, ◌==◌, length,
}
use cs162hwproj.KernelList.{Ptr, null, Heap, KList, list_begin, list_next, size_loop, list_size}
use cs162hwproj.KernelList.Access.{assert_next-some, get_next-some}
use cs162hwproj.Prelude.Members.{has, has-append, ne_of_has}
use cs162hwproj.KernelList.Chain.{Chain, IsList, Chain-first}
use cs162hwproj.KernelList.Insert.{first_or}

module _ (h : Heap) (l : KList) where
  size_loop-length :
      (fuel : ℕ) (a : Ptr) (xs : List Ptr) (cnt : ℕ)
      → Chain h a xs l.tail
      → has null (l.tail ∷ xs) ≡ false
      → has l.tail xs ≡ false
      → length xs < fuel
      → size_loop fuel l (first_or xs l.tail) cnt h ≡ some (cnt + length xs, h)
  unfolding size_loop list_next
  size_loop-length zero a xs cnt c n t f = absurd (omega arith)
  size_loop-length (suc fuel) a [] cnt c n t f = ground arith
  size_loop-length (suc fuel) a (x ∷ xs) cnt (e, p, c) n t f =
      let more : (x == l.tail) ≡ false = ground arith in
      let ne : x ≢ null = ground arith in
      let nn =
        ne_of_has (h.next x) null (xs ++ l.tail ∷ []) (Chain-first h x xs l.tail c)
          (ground (arith, has-append null xs (l.tail ∷ []))) in
      let next : h.next x ≡ first_or xs l.tail = first xs c in
      rw (more, assert_next-some x h ne nn, get_next-some x h ne, next)
        (size_loop-length fuel x xs (cnt + 1) c (ground arith) (ground arith) (omega arith)
          ∙ ap (λ k. some (k, h)) (omega arith))
    where
      first : (ys : List Ptr) → Chain h x ys l.tail → h.next x ≡ first_or ys l.tail
      first [] c = c.0
      first (y ∷ ys) c = c.0

  -- `list_size` on a well-formed list, with fuel for more rounds than the list has elements, fails
  -- no assertion, returns the number of elements and changes no pointer.
  pub list_size-length :
      (fuel : ℕ) (xs : List Ptr)
      → IsList h l xs
      → length xs < fuel
      → list_size fuel l h ≡ some (length xs, h)
  unfolding list_size list_begin
  list_size-length fuel [] is f =
      rw (get_next-some l.head h (ground (arith, is.apart)), is.chain.0)
        (size_loop-length fuel l.head [] 0 is.chain (ground (arith, is.apart))
          (ground (arith, is.apart)) f)
  list_size-length fuel (x ∷ xs) is f =
      rw (get_next-some l.head h (ground (arith, is.apart)), is.chain.0)
        (size_loop-length fuel l.head (x ∷ xs) 0 is.chain (ground (arith, is.apart))
            (ground (arith, is.apart)) f
          ∙ ap (λ k. some (k, h)) (omega arith))
