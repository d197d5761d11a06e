-- ===== src/KernelList/Access.antt =====
-- Reads and writes of list.c through pointers that are not null.
use cs162hwproj.Prelude.{◌≡◌, ◌≢◌, Bool, true, false, Option, some, arith, ◌==◌}
use cs162hwproj.Prelude.Returns.{Returns, returns}
use cs162hwproj.KernelList.{
  M, and_then, Ptr, null, Heap, at, get_prev, get_next, set_prev, set_next, assert_true,
  assert_prev, assert_next, assert_interior,
}

-- The rule for a call that is followed by another.
pub and_then-Returns :
    {A B : Type 0} {P : A × Heap → Type 0} {Q : B × Heap → Type 0} {r : Option (A × Heap)}
    {k : A → M B}
    → Returns P r
    → ((a : A) (h : Heap) → P (a, h) → Returns Q (k a h))
    → Returns Q (and_then r k)
and_then-Returns (returns {a = (a, h)} p) next = next a h p

module _ (p : Ptr) (h : Heap) (ne : p ≢ null) where
  not_null : (p == null) ≡ false
  not_null = ground arith

  pub get_prev-some : get_prev p h ≡ some (h.prev p, h)
  unfolding get_prev
  get_prev-some = rw not_null

  pub get_next-some : get_next p h ≡ some (h.next p, h)
  unfolding get_next
  get_next-some = rw not_null

  pub set_prev-some : (q : Ptr) → set_prev p q h ≡ some (tt, record h { prev = at h.prev p q })
  unfolding set_prev
  set_prev-some q = rw not_null

  pub set_next-some : (q : Ptr) → set_next p q h ≡ some (tt, record h { next = at h.next p q })
  unfolding set_next
  set_next-some q = rw not_null

pub assert_true-some : (b : Bool) (h : Heap) → b ≡ true → assert_true b h ≡ some (tt, h)
unfolding assert_true
assert_true-some b h e = rw e

-- The assertions pass where the links that they look at are not null.
module _ (e : Ptr) (h : Heap) (ne : e ≢ null) where
  pub assert_prev-some : h.prev e ≢ null → assert_prev e h ≡ some (tt, h)
  unfolding assert_prev
  assert_prev-some np = ground arith

  pub assert_next-some : h.next e ≢ null → assert_next e h ≡ some (tt, h)
  unfolding assert_next
  assert_next-some nn = ground arith

  pub assert_interior-some : h.prev e ≢ null → h.next e ≢ null → assert_interior e h ≡ some (tt, h)
  unfolding assert_interior
  assert_interior-some np nn = ground arith

pub at_self : (f : Ptr → Ptr) (p q : Ptr) → at f p q p ≡ q
unfolding at
at_self f p q = ground arith

pub at-ne : (f : Ptr → Ptr) (p q a : Ptr) → a ≢ p → at f p q a ≡ f a
unfolding at
at-ne f p q a ne = ground arith
