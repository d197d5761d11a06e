-- ===== src/KernelList.antt =====
-- group0/src/lib/kernel/list.c: doubly linked lists through the pointers of a memory. `none` is a
-- failed `ASSERT` or the use of a null pointer. A loop takes fuel, and ends in `none` without it.
pub mod Access
pub mod Chain
pub mod Insert
pub mod Remove
pub mod Size
pub mod Order
pub mod Ordered
use cs162hwproj.Prelude.{
  ℕ, zero, suc, ◌+◌, ◌≡◌, Bool, true, false, not, ◌&&◌, ◌||◌, Option, none, some, ltb, ◌==◌,
  if◌then◌else◌,
}

abbrev pub Ptr : Type 0
Ptr = ℕ

abbrev pub null : Ptr
null = 0

-- The members `prev` and `next` of every `struct list_elem` in memory.
pub record Heap : Type 0 where
  pub prev : Ptr → Ptr
  pub next : Ptr → Ptr

-- The addresses of the two members of a `struct list`.
pub record KList : Type 0 where
  pub head : Ptr
  pub tail : Ptr

abbrev pub M : Type 0 → Type 0
M A = Heap → Option (A × Heap)

abbrev pub pure : {A : Type 0} → A → M A
pure a h = some (a, h)

abbrev pub and_then : {A B : Type 0} → Option (A × Heap) → (A → M B) → Option (B × Heap)
and_then none k = none
and_then (some (a, h)) k = k a h

infixl 5 ◌>>=◌ ◌>>◌
abbrev pub ◌>>=◌ : {A B : Type 0} → M A → (A → M B) → M B
m >>= k = λ h. and_then (m h) k

abbrev pub ◌>>◌ : {B : Type 0} → M (Unit {0}) → M B → M B
m >> k = m >>= λ _. k

-- Pointers that differ at one address.
unfoldable pub at : (Ptr → Ptr) → Ptr → Ptr → Ptr → Ptr
at f p q a = if a == p then q else f a

unfoldable pub get_prev : Ptr → M Ptr
get_prev p h = if p == null then none else some (h.prev p, h)

unfoldable pub get_next : Ptr → M Ptr
get_next p h = if p == null then none else some (h.next p, h)

unfoldable pub set_prev : Ptr → Ptr → M (Unit {0})
set_prev p q h = if p == null then none else some (tt, record h { prev = at h.prev p q })

unfoldable pub set_next : Ptr → Ptr → M (Unit {0})
set_next p q h = if p == null then none else some (tt, record h { next = at h.next p q })

abbrev pub is_head : Heap → Ptr → Bool
is_head h e = not (e == null) && ((h.prev e == null) && not (h.next e == null))

abbrev pub is_interior : Heap → Ptr → Bool
is_interior h e = not (e == null) && (not (h.prev e == null) && not (h.next e == null))

abbrev pub is_tail : Heap → Ptr → Bool
is_tail h e = not (e == null) && (not (h.prev e == null) && (h.next e == null))

-- The assertions of the file: on the place of an element, and on a flag.
unfoldable pub assert_next : Ptr → M (Unit {0})
assert_next e h = if is_head h e || is_interior h e then some (tt, h) else none

unfoldable pub assert_prev : Ptr → M (Unit {0})
assert_prev e h = if is_interior h e || is_tail h e then some (tt, h) else none

unfoldable pub assert_interior : Ptr → M (Unit {0})
assert_interior e h = if is_interior h e then some (tt, h) else none

unfoldable pub assert_true : Bool → M (Unit {0})
assert_true b h = if b then some (tt, h) else none

unfoldable pub list_init : KList → M (Unit {0})
list_init l = do
  set_prev l.head null
  set_next l.head l.tail
  set_prev l.tail l.head
  set_next l.tail null

unfoldable pub list_begin : KList → M Ptr
list_begin l = get_next l.head

unfoldable pub list_next : Ptr → M Ptr
list_next e = do assert_next e; get_next e

abbrev pub list_end : KList → Ptr
list_end l = l.tail

unfoldable pub list_rbegin : KList → M Ptr
list_rbegin l = get_prev l.tail

unfoldable pub list_prev : Ptr → M Ptr
list_prev e = do assert_prev e; get_prev e

abbrev pub list_rend : KList → Ptr
list_rend l = l.head

abbrev pub list_head : KList → Ptr
list_head l = l.head

abbrev pub list_tail : KList → Ptr
list_tail l = l.tail

unfoldable pub list_insert : (before elem : Ptr) → M (Unit {0})
list_insert before elem = do
  assert_prev before
  assert_true (not (elem == null))
  p ← get_prev before
  set_prev elem p
  set_next elem before
  q ← get_prev before
  set_next q elem
  set_prev before elem

unfoldable pub list_splice : (before first last : Ptr) → M (Unit {0})
list_splice before first last = do
  assert_prev before
  if first == last then pure tt else do
    last' ← list_prev last
    assert_interior first
    assert_interior last'
    fp ← get_prev first
    ln ← get_next last'
    set_next fp ln
    ln' ← get_next last'
    fp' ← get_prev first
    set_prev ln' fp'
    bp ← get_prev before
    set_prev first bp
    set_next last' before
    bp' ← get_prev before
    set_next bp' first
    set_prev before last'

unfoldable pub list_push_front : KList → Ptr → M (Unit {0})
unfolding list_begin list_insert
list_push_front l elem = do b ← list_begin l; list_insert b elem

unfoldable pub list_push_back : KList → Ptr → M (Unit {0})
unfolding list_insert
list_push_back l elem = list_insert (list_end l) elem

unfoldable pub list_remove : Ptr → M Ptr
list_remove elem = do
  assert_interior elem
  p ← get_prev elem
  n ← get_next elem
  set_next p n
  n' ← get_next elem
  p' ← get_prev elem
  set_prev n' p'
  get_next elem

unfoldable pub list_empty : KList → M Bool
unfolding list_begin
list_empty l = do b ← list_begin l; pure (b == list_end l)

unfoldable pub list_front : KList → M Ptr
unfolding list_empty
list_front l = do e ← list_empty l; assert_true (not e); get_next l.head

unfoldable pub list_back : KList → M Ptr
unfolding list_empty
list_back l = do e ← list_empty l; assert_true (not e); get_prev l.tail

unfoldable pub list_pop_front : KList → M Ptr
unfolding list_front list_remove
list_pop_front l = do front ← list_front l; next ← list_remove front; pure front

unfoldable pub list_pop_back : KList → M Ptr
unfolding list_back list_remove
list_pop_back l = do back ← list_back l; next ← list_remove back; pure back

unfoldable pub size_loop : (fuel : ℕ) → KList → (e : Ptr) (cnt : ℕ) → M ℕ
size_loop zero l e cnt = λ h. none
size_loop (suc fuel) l e cnt =
    if e == list_end l then pure cnt else (do e' ← list_next e; size_loop fuel l e' (cnt + 1))

unfoldable pub list_size : (fuel : ℕ) → KList → M ℕ
unfolding list_begin size_loop
list_size fuel l = do b ← list_begin l; size_loop fuel l b 0

-- The two swaps of one round of `list_reverse`.
unfoldable pub swap_links : Ptr → M (Unit {0})
swap_links e = do p ← get_prev e; n ← get_next e; set_prev e n; set_next e p

unfoldable pub reverse_loop : (fuel : ℕ) → KList → (e : Ptr) → M (Unit {0})
reverse_loop zero l e = λ h. none
reverse_loop (suc fuel) l e =
    if e == list_end l then pure tt else (do swap_links e; e' ← get_prev e; reverse_loop fuel l e')

unfoldable pub list_reverse : (fuel : ℕ) → KList → M (Unit {0})
unfolding list_empty reverse_loop
list_reverse fuel l = do
  e ← list_empty l
  if e then pure tt else do
    b ← list_begin l
    reverse_loop fuel l b
    first ← get_next l.head
    last ← get_prev l.tail
    set_next l.head last
    set_prev l.tail first
    hn ← get_next l.head
    tp ← get_prev l.tail
    x ← get_prev hn
    y ← get_next tp
    set_prev hn y
    set_next tp x
