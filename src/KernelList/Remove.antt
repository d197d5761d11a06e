-- ===== src/KernelList/Remove.antt =====
-- `list_remove` and the two pops of list.c.
use cs162hwproj.Prelude.{◌≡◌, refl, ◌≢◌, true, not, List, [], ◌∷◌, ◌++◌, arith, ◌==◌}
use mathlib.Core.List.{append-nil}
use cs162hwproj.Prelude.Returns.{Returns, returns}
use cs162hwproj.KernelList.{
  Ptr, null, Heap, KList, at, list_begin, list_remove, list_empty, list_front, list_back,
  list_pop_front, list_pop_back,
}
use cs162hwproj.KernelList.Access.{
  and_then-Returns, assert_interior-some, assert_true-some, get_prev-some, set_prev-some,
  get_next-some, set_next-some,
}
use cs162hwproj.Prelude.Members.{Distinct, has-append, ne_of_has}
use cs162hwproj.KernelList.Chain.{Chain, IsList, Chain-frame, Chain-split, Chain-last, Chain-first}

-- What `list_remove` does to the pointers.
abbrev pub removed : Heap → Ptr → Heap
removed h e = record {
  prev = at h.prev (h.next e) (h.prev e);
  next = at h.next (h.prev e) (h.next e);
}

Distinct-remove : (e : Ptr) (xs ys : List Ptr) → Distinct (xs ++ e ∷ ys) → Distinct (xs ++ ys)
Distinct-remove e [] ys d = d.1
Distinct-remove e (x ∷ xs) ys (o, d) =
    (ground (arith, has-append x xs (e ∷ ys), has-append x xs ys), Distinct-remove e xs ys d)

module _ (h : Heap) (e : Ptr) where
  -- The element after `a` is removed.
  Chain-remove_next :
      (a : Ptr) (ys : List Ptr) (b : Ptr)
      → Chain h a (e ∷ ys) b
      → Distinct (a ∷ b ∷ e ∷ ys)
      → Chain (removed h e) a ys b
  unfolding at
  Chain-remove_next a [] b (n, p, c) d = ground arith
  Chain-remove_next a (y ∷ ys) b (n, p, (n', p', c)) d = (
    ground arith,
    ground arith,
    Chain-frame y ys b (λ q m. let ne = ne_of_has q a (y ∷ ys) m (ground arith) in ground arith)
        (λ q m.
          let ne = ne_of_has q y (ys ++ b ∷ []) m (ground (arith, has-append y ys (b ∷ []))) in
          ground arith)
        c,
  )

  Chain-remove :
      (a : Ptr) (xs ys : List Ptr) (b : Ptr)
      → Chain h a (xs ++ e ∷ ys) b
      → Distinct (a ∷ b ∷ xs ++ e ∷ ys)
      → Chain (removed h e) a (xs ++ ys) b
  unfolding at
  Chain-remove a [] ys b c d = Chain-remove_next a ys b c d
  Chain-remove a (x ∷ xs) ys b (n, p, c) d =
      let (before, after) = Chain-split h x xs e ys b c in
      let a_xs = has-append a xs (e ∷ ys) in
      let x_xs = has-append x xs (e ∷ ys) in
      let apart = ne_of_has (h.prev e) a (x ∷ xs) (Chain-last h x xs e before) (ground arith) in
      let apart' =
        ne_of_has (h.next e) x (ys ++ b ∷ []) (Chain-first h e ys b after)
          (ground (arith, has-append x ys (b ∷ []))) in
      (ground arith, ground arith, Chain-remove x xs ys b c (ground arith, (ground arith, d.1.1.1)))

-- The list without the element, and what the call returns.
abbrev pub Removed : KList → List Ptr → Ptr → Ptr × Heap → Type 0
Removed l xs out (r, g) = IsList g l xs × (r ≡ out)

module _ (h : Heap) (l : KList) where
  -- `list_remove` on an element of a well-formed list fails no assertion, returns the element
  -- behind it, and the list then holds the other elements in their order.
  pub list_remove-IsList :
      (xs : List Ptr) (e : Ptr) (ys : List Ptr)
      → IsList h l (xs ++ e ∷ ys)
      → Returns (Removed l (xs ++ ys) (h.next e)) (list_remove e h)
  unfolding list_remove at
  list_remove-IsList xs e ys is =
      let d = is.apart in
      let (c, c') = Chain-split h l.head xs e ys l.tail is.chain in
      let n_xs = has-append null xs (e ∷ ys) in
      let n_xs' = has-append null xs ys in
      let t_xs = has-append l.tail xs (e ∷ ys) in
      let t_xs' = has-append l.tail xs ys in
      let h_xs = has-append l.head xs (e ∷ ys) in
      let h_xs' = has-append l.head xs ys in
      let ne : e ≢ null = ground (arith, d) in
      let prev_e = Chain-last h l.head xs e c in
      let next_e = Chain-first h e ys l.tail c' in
      let np = ne_of_has (h.prev e) null (l.head ∷ xs) prev_e (ground (arith, d)) in
      let nn =
        ne_of_has (h.next e) null (ys ++ l.tail ∷ []) next_e
          (ground (arith, d, has-append null ys (l.tail ∷ []))) in
      let nt = ne_of_has (h.prev e) l.tail (l.head ∷ xs) prev_e (ground (arith, d)) in
      let nh =
        ne_of_has (h.next e) l.head (ys ++ l.tail ∷ []) next_e
          (ground (arith, d, has-append l.head ys (l.tail ∷ []))) in
      let self : at h.next (h.prev e) (h.next e) e ≡ h.next e = ground arith in
      rw
        (
          assert_interior-some e h ne np nn,
          get_prev-some e h ne,
          get_next-some e h ne,
          set_next-some (h.prev e) h np,
          get_next-some e _ ne,
          self,
          get_prev-some e _ ne,
          set_prev-some (h.next e) _ nn,
          get_next-some e _ ne,
          self,
        )
        (returns (
          record {
            chain = Chain-remove h e l.head xs ys l.tail is.chain (ground (arith, d), d.1.1);
            first = ground (arith, is.first);
            last = ground (arith, is.last);
            apart = (
              ground (arith, d),
              (ground (arith, d), (ground (arith, d), Distinct-remove e xs ys d.1.1.1)),
            );
          },
          refl,
        ))

  -- `list_pop_front` on a well-formed list that is not empty fails no assertion, returns the first
  -- element, and the list then holds the others in their order.
  pub list_pop_front-IsList :
      (e : Ptr) (ys : List Ptr)
      → IsList h l (e ∷ ys)
      → Returns (Removed l ys e) (list_pop_front l h)
  unfolding list_pop_front list_front list_empty list_begin
  list_pop_front-IsList e ys is =
      let nh : l.head ≢ null = ground (arith, is.apart) in
      let full : not (e == l.tail) ≡ true = ground (arith, is.apart) in
      rw
        (
          get_next-some l.head h nh,
          is.chain.0,
          assert_true-some _ h full,
          get_next-some l.head h nh,
          is.chain.0,
        )
        (and_then-Returns (list_remove-IsList [] e ys is) λ r g (is', _). returns (is', refl))

  -- `list_pop_back` on a well-formed list that is not empty fails no assertion, returns the last
  -- element, and the list then holds the others in their order.
  pub list_pop_back-IsList :
      (xs : List Ptr) (e : Ptr)
      → IsList h l (xs ++ e ∷ [])
      → Returns (Removed l xs e) (list_pop_back l h)
  unfolding list_pop_back list_back list_empty list_begin
  list_pop_back-IsList xs e is =
      let d = is.apart in
      let nh : l.head ≢ null = ground (arith, d) in
      let nt : l.tail ≢ null = ground (arith, d) in
      let (c, c') = Chain-split h l.head xs e [] l.tail is.chain in
      let first = Chain-first h l.head xs e c in
      let ne = ne_of_has (h.next l.head) l.tail (xs ++ e ∷ []) first (ground (arith, d)) in
      let full : not (h.next l.head == l.tail) ≡ true = ground arith in
      rw (get_next-some l.head h nh, assert_true-some _ h full, get_prev-some l.tail h nt, c'.1)
        (and_then-Returns (list_remove-IsList xs e [] is)
          λ r g (is', _). returns (rw append-nil at is', refl))
