-- ===== src/KernelList/Insert.antt =====
-- `list_init`, `list_insert` and the two pushes of list.c.
use cs162hwproj.Prelude.{
  ◌≡◌, refl, ◌≢◌, sym, false, not, ◌||◌, some, List, [], ◌∷◌, ◌++◌, arith, ◌==◌, Bool-cases, inl,
  inr,
}
use mathlib.Core.List.{append_assoc, append-nil}
use cs162hwproj.Prelude.Returns.{Returns, returns}
use cs162hwproj.KernelList.{
  Ptr, null, Heap, KList, at, list_init, list_begin, list_insert, list_push_front, list_push_back,
}
use cs162hwproj.KernelList.Access.{
  assert_prev-some, assert_true-some, get_prev-some, set_prev-some, get_next-some, set_next-some,
  at-ne,
}
use cs162hwproj.Prelude.Members.{has, Distinct, has-append, ne_of_has, Distinct-append}
use cs162hwproj.KernelList.Chain.{
  Chain, IsList, Chain-frame, Chain-append, Chain-split, Chain-last, inserted, Chain-insert,
}

has-insert : (p e : Ptr) (xs ys : List Ptr) → has p (xs ++ e ∷ ys) ≡ ((p == e) || has p (xs ++ ys))
has-insert p e [] ys = refl
has-insert p e (x ∷ xs) ys = ground (arith, has-insert p e xs ys)

Distinct-insert : (e : Ptr) (xs ys : List Ptr) → Distinct (e ∷ xs ++ ys) → Distinct (xs ++ e ∷ ys)
Distinct-insert e [] ys d = d
Distinct-insert e (x ∷ xs) ys (o, (p, d)) =
    (ground (arith, has-insert x e xs ys), Distinct-insert e xs ys (ground arith, d))

-- `e` is not yet in use: not null, and no part of the list.
abbrev pub IsFresh : Ptr → KList → List Ptr → Type 0
IsFresh e l xs = has e (null ∷ l.head ∷ l.tail ∷ xs) ≡ false

list_insert-inserted :
    (b e : Ptr) (h : Heap)
    → b ≢ null
    → e ≢ null
    → e ≢ b
    → h.prev b ≢ null
    → list_insert b e h ≡ some (tt, inserted h e b)
unfolding list_insert
list_insert-inserted b e h nb ne ab np =
    let p = h.prev b in
    let back = at-ne h.prev e p b (λ q. ab (sym q)) in
    rw (
      assert_prev-some b h nb np,
      assert_true-some (not (e == null)) h (ground arith),
      get_prev-some b h nb,
      set_prev-some e h ne p,
      set_next-some e _ ne b,
      get_prev-some b _ nb,
      back,
      set_next-some p _ np e,
      set_prev-some b _ nb e,
    )

abbrev pub Ends : KList → Heap → List Ptr → (Unit {0}) × Heap → Type 0
Ends l h xs (_, g) = IsList g l xs

-- The element that stands behind a position of the list: the first of the rest, or the tail.
abbrev pub first_or : List Ptr → Ptr → Ptr
first_or [] t = t
first_or (y ∷ ys) t = y

Distinct-fresh :
    (l : KList) (e : Ptr) (xs ys : List Ptr)
    → Distinct (null ∷ l.head ∷ l.tail ∷ xs ++ ys)
    → IsFresh e l (xs ++ ys)
    → Distinct (null ∷ l.head ∷ l.tail ∷ xs ++ e ∷ ys)
Distinct-fresh l e xs ys d f =
    let rest = Distinct-insert e xs ys (ground arith, ground arith) in
    (
      ground (arith, has-insert null e xs ys),
      (
        ground (arith, has-insert l.head e xs ys),
        (ground (arith, has-insert l.tail e xs ys), rest),
      ),
    )

module _ (h : Heap) (l : KList) (e : Ptr) where
  -- The pointers after an insertion before `b`, which follows `xs` and is followed by `ys`.
  inserted-Chain :
      (xs : List Ptr) (b : Ptr) (ys : List Ptr)
      → Chain h l.head xs b
      → Chain h b ys l.tail
      → Distinct (e ∷ l.head ∷ l.tail ∷ xs ++ b ∷ ys)
      → Chain (inserted h e b) l.head (xs ++ e ∷ b ∷ ys) l.tail
  unfolding at
  inserted-Chain xs b ys c d u =
      let (dx, dy, split) = Distinct-append xs (b ∷ ys) u.1.1.1 in
      let (fresh, (out_head, (out_tail, rest))) = u in
      let e_xs = has-append e xs (b ∷ ys) in
      let h_xs = has-append l.head xs (b ∷ ys) in
      let t_xs = has-append l.tail xs (b ∷ ys) in
      let (b_ys, ys_apart) = dy in
      let b_xs : has b xs ≡ false = elim (Bool-cases (has b xs)) [
        | inl y ↦ ground (arith, split b y)
        | inr n ↦ n
      ] in
      let last = Chain-last h l.head xs b c in
      let last_out : has (h.prev b) (b ∷ ys) ≡ false = elim (Bool-cases (h.prev b == l.head)) [
        | inl y ↦ ground (arith, y, h_xs, out_head)
        | inr n ↦ split (h.prev b) (ground (arith, n, last))
      ] in
      let whole =
        Chain-append (inserted h e b) l.head (xs ++ e ∷ []) b ys l.tail
          (Chain-insert h e l.head xs b c (ground arith, (ground arith, (ground arith, dx))))
          (Chain-frame b ys l.tail
            (λ p m.
              let pe = ne_of_has p e (b ∷ ys) m (ground arith) in
              let pl = ne_of_has p (h.prev b) (b ∷ ys) m last_out in ground arith)
            (λ p m.
              let pe =
                ne_of_has p e (ys ++ l.tail ∷ []) m
                  (ground (arith, has-append e ys (l.tail ∷ []))) in
              let pb =
                ne_of_has p b (ys ++ l.tail ∷ []) m
                  (ground (arith, has-append b ys (l.tail ∷ []))) in
              ground arith)
            d) in
      rw (append_assoc xs (e ∷ []) (b ∷ ys)) at whole

prev_ne_null :
    (h : Heap) (a : Ptr) (xs : List Ptr) (b : Ptr)
    → Chain h a xs b
    → has null (a ∷ xs) ≡ false
    → h.prev b ≢ null
prev_ne_null h a xs b c out = ne_of_has (h.prev b) null (a ∷ xs) (Chain-last h a xs b c) out

module _ (h : Heap) (l : KList) (e : Ptr) where
  insert_at_end :
      (xs : List Ptr)
      → IsList h l xs
      → IsFresh e l xs
      → Returns (Ends l h (xs ++ e ∷ [])) (list_insert l.tail e h)
  unfolding at
  insert_at_end xs is f =
      let d = is.apart in
      let prev_tail =
        ne_of_has (h.prev l.tail) l.tail (l.head ∷ xs) (Chain-last h l.head xs l.tail is.chain)
          (ground (arith, d)) in
      let d' : Distinct (null ∷ l.head ∷ l.tail ∷ xs ++ []) = rw append-nil d in
      let f' : IsFresh e l (xs ++ []) = rw append-nil f in
      rw
        (list_insert-inserted l.tail e h (ground (arith, d)) (ground arith) (ground arith)
          (prev_ne_null h l.head xs l.tail is.chain (ground (arith, d))))
        (returns (record {
          chain =
              Chain-insert h e l.head xs l.tail is.chain
                (ground (arith, d), (ground (arith, d), (ground (arith, d), d.1.1.1)));
          first = ground (arith, is.first, d);
          last = ground (arith, is.last, d);
          apart = Distinct-fresh l e xs [] d' f';
        }))

  -- `list_insert` of a fresh element before an element of a well-formed list fails no assertion,
  -- and the list then holds the elements with the fresh one right before that element.
  pub list_insert-IsList :
      (xs : List Ptr) (y : Ptr) (ys : List Ptr)
      → IsList h l (xs ++ y ∷ ys)
      → IsFresh e l (xs ++ y ∷ ys)
      → Returns (Ends l h (xs ++ e ∷ y ∷ ys)) (list_insert y e h)
  unfolding at
  list_insert-IsList xs y ys is f =
      let d = is.apart in
      let (c, c') = Chain-split h l.head xs y ys l.tail is.chain in
      let n_xs = has-append null xs (y ∷ ys) in
      let t_xs = has-append l.tail xs (y ∷ ys) in
      let h_xs = has-append l.head xs (y ∷ ys) in
      let e_xs = has-append e xs (y ∷ ys) in
      let prev_y = Chain-last h l.head xs y c in
      let prev_tail : h.prev y ≢ l.tail =
        ne_of_has (h.prev y) l.tail (l.head ∷ xs) prev_y (ground (arith, d)) in
      rw
        (list_insert-inserted y e h (ground (arith, d)) (ground arith) (ground arith)
          (prev_ne_null h l.head xs y c (ground (arith, d))))
        (returns (record {
          chain = inserted-Chain h l e xs y ys c c' (ground arith, d.1);
          first = ground (arith, is.first, d);
          last = ground (arith, is.last, d);
          apart = Distinct-fresh l e xs (y ∷ ys) d f;
        }))

  -- `list_push_back` of a fresh element on a well-formed list fails no assertion, and the list then
  -- holds the elements with the fresh one behind them.
  pub list_push_back-IsList :
      (xs : List Ptr)
      → IsList h l xs
      → IsFresh e l xs
      → Returns (Ends l h (xs ++ e ∷ [])) (list_push_back l e h)
  unfolding list_push_back
  list_push_back-IsList = insert_at_end

  -- `list_push_front` of a fresh element on a well-formed list fails no assertion, and the list
  -- then holds the elements with the fresh one before them.
  pub list_push_front-IsList :
      (xs : List Ptr)
      → IsList h l xs
      → IsFresh e l xs
      → Returns (Ends l h (e ∷ xs)) (list_push_front l e h)
  unfolding list_push_front list_begin
  list_push_front-IsList [] is f =
      rw (get_next-some l.head h (ground (arith, is.apart)), is.chain.0) (insert_at_end [] is f)
  list_push_front-IsList (y ∷ ys) is f =
      rw (get_next-some l.head h (ground (arith, is.apart)), is.chain.0)
        (list_insert-IsList [] y ys is f)

-- `list_init` makes an empty list, wherever the two ends lie.
pub list_init-IsList :
    (h : Heap) (l : KList)
    → l.head ≢ null
    → l.tail ≢ null
    → l.head ≢ l.tail
    → Returns (Ends l h []) (list_init l h)
unfolding list_init at
list_init-IsList h l nh nt ne =
    rw
      (
        set_prev-some l.head h nh,
        set_next-some l.head _ nh,
        set_prev-some l.tail _ nt,
        set_next-some l.tail _ nt,
      )
      (returns (record {
        chain = ground arith;
        first = ground arith;
        last = ground arith;
        apart = ground arith;
      }))
