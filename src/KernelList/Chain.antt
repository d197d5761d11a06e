-- ===== src/KernelList/Chain.antt =====
-- The sequences of elements that the pointers of list.c make, and how one grows and shrinks.
use cs162hwproj.Prelude.{◌≡◌, ap, ◌∙◌, true, List, [], ◌∷◌, ◌++◌, arith}
use cs162hwproj.Prelude.Members.{has, Distinct}
use cs162hwproj.KernelList.{Ptr, null, Heap, KList, at}

-- From `a` the pointers lead through `xs` to `b`, and back.
abbrev pub Chain : Heap → Ptr → List Ptr → Ptr → Type 0
Chain h a [] b = (h.next a ≡ b) × (h.prev b ≡ a)
Chain h a (x ∷ xs) b = (h.next a ≡ x) × (h.prev x ≡ a) × Chain h x xs b

-- The list `l` holds the elements `xs`, in this order.
pub record IsList (h : Heap) (l : KList) (xs : List Ptr) : Type 0 where
  pub chain : Chain h l.head xs l.tail
  pub first : h.prev l.head ≡ null
  pub last : h.next l.tail ≡ null
  pub apart : Distinct (null ∷ l.head ∷ l.tail ∷ xs)

-- A chain depends on `next` of all but its last and on `prev` of all but its first element.
pub Chain-frame :
    {h g : Heap} (a : Ptr) (xs : List Ptr) (b : Ptr)
    → ((p : Ptr) → has p (a ∷ xs) ≡ true → g.next p ≡ h.next p)
    → ((p : Ptr) → has p (xs ++ b ∷ []) ≡ true → g.prev p ≡ h.prev p)
    → Chain h a xs b
    → Chain g a xs b
Chain-frame a [] b n p (e, f) = (n a (ground arith) ∙ e, p b (ground arith) ∙ f)
Chain-frame a (x ∷ xs) b n p (e, f, c) = (
  n a (ground arith) ∙ e,
  p x (ground arith) ∙ f,
  Chain-frame x xs b (λ q m. n q (ground arith)) (λ q m. p q (ground arith)) c,
)

module _ (h : Heap) where
  pub Chain-append :
      (a : Ptr) (xs : List Ptr) (m : Ptr) (ys : List Ptr) (b : Ptr)
      → Chain h a xs m
      → Chain h m ys b
      → Chain h a (xs ++ m ∷ ys) b
  Chain-append a [] m ys b (e, f) d = (e, f, d)
  Chain-append a (x ∷ xs) m ys b (e, f, c) d = (e, f, Chain-append x xs m ys b c d)

  pub Chain-split :
      (a : Ptr) (xs : List Ptr) (m : Ptr) (ys : List Ptr) (b : Ptr)
      → Chain h a (xs ++ m ∷ ys) b
      → Chain h a xs m × Chain h m ys b
  Chain-split a [] m ys b (e, f, c) = ((e, f), c)
  Chain-split a (x ∷ xs) m ys b (e, f, c) =
      let (c', d) = Chain-split x xs m ys b c in ((e, f, c'), d)

  -- The element before the end of a chain is one of its elements or its start.
  pub Chain-last :
      (a : Ptr) (xs : List Ptr) (b : Ptr) → Chain h a xs b → has (h.prev b) (a ∷ xs) ≡ true
  Chain-last a [] b (e, f) = ground arith
  Chain-last a (x ∷ xs) b (e, f, c) = ground (arith, Chain-last x xs b c)

  pub Chain-first :
      (a : Ptr) (xs : List Ptr) (b : Ptr) → Chain h a xs b → has (h.next a) (xs ++ b ∷ []) ≡ true
  Chain-first a [] b (e, f) = ground arith
  Chain-first a (x ∷ xs) b (e, f, c) = ground arith

  -- The pointer that follows the last element is the end.
  pub Chain-next_last : (a : Ptr) (xs : List Ptr) (b : Ptr) → Chain h a xs b → h.next (h.prev b) ≡ b
  Chain-next_last a [] b (e, f) = ap h.next f ∙ e
  Chain-next_last a (x ∷ xs) b (e, f, c) = Chain-next_last x xs b c

module _ (h : Heap) (e : Ptr) where
  -- What `list_insert` does to the pointers.
  abbrev pub inserted : (before : Ptr) → Heap
  inserted before = record {
    prev = at (at h.prev e (h.prev before)) before e;
    next = at (at h.next e before) (h.prev before) e;
  }

  pub Chain-insert :
      (a : Ptr) (xs : List Ptr) (b : Ptr)
      → Chain h a xs b
      → Distinct (e ∷ b ∷ a ∷ xs)
      → Chain (inserted b) a (xs ++ e ∷ []) b
  unfolding at
  Chain-insert a [] b (n, p) d = ground arith
  Chain-insert a (x ∷ xs) b (n, p, c) d =
      (ground (arith, Chain-last h x xs b c), ground arith, Chain-insert x xs b c (ground arith))
