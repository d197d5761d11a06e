-- ===== src/Hash/Iteration.antt =====
-- The iterator of hash.c, and that `hash_apply` acts on the elements in its order.
use cs162hwproj.Prelude.{
  ℕ, zero, suc, ◌≡◌, refl, sym, ap, ◌∙◌, none, some, List, [], ◌∷◌, ◌++◌, eq_of_some, length,
}
use cs162hwproj.Hash.{
  Elem, Hash, Iterator, destroy_all, apply_loop, hash_apply, hash_first, next_loop, hash_next,
  hash_cur,
}

abbrev pub flat : List (List Elem) → List Elem
flat [] = []
flat (b ∷ bs) = b ++ flat bs

-- What `hash_cur` gives in a loop of `hash_next` that stops at the null pointer.
abbrev pub visited : (fuel : ℕ) → Iterator → List Elem
visited zero i = []
visited (suc n) i = elim (hash_cur (hash_next i)) [
  | none ↦ []
  | some e ↦ e ∷ visited n (hash_next i)
]

abbrev pub at_head : List Elem → List (List Elem) → Iterator
at_head b later = record { elem = none; rest = b; later = later }

-- The elements that an iterator has before it.
abbrev pub left : Iterator → List Elem
left i = i.rest ++ flat i.later

next_loop-none :
    (es : List Elem) (later : List (List Elem))
    → es ++ flat later ≡ []
    → (next_loop es later).elem ≡ none
unfolding next_loop
next_loop-none (e ∷ es) later h = cc
next_loop-none [] [] h = refl
next_loop-none [] (b ∷ bs) h = next_loop-none b bs h

next_loop-some :
    (es : List Elem) (later : List (List Elem)) (e : Elem) (r : List Elem)
    → es ++ flat later ≡ e ∷ r
    → ((next_loop es later).elem ≡ some e) × (left (next_loop es later) ≡ r)
unfolding next_loop
next_loop-some (x ∷ es) later e r h = (cc, cc)
next_loop-some [] [] e r h = cc
next_loop-some [] (b ∷ bs) e r h = next_loop-some b bs e r h

visited-left : (i : Iterator) (r : List Elem) → left i ≡ r → visited (suc (length r)) i ≡ r
unfolding hash_next
visited-left i [] h = rw (visited, next_loop-none i.rest i.later h) refl
visited-left i (e ∷ r) h =
    let (p, q) = next_loop-some i.rest i.later e r h in
    rw (visited, p) (ap (λ t. e ∷ t) (visited-left (next_loop i.rest i.later) r q))

destroy_all-append :
    {S : Type 0} (f : Elem → S → S) (xs ys : List Elem) (s : S)
    → destroy_all f (xs ++ ys) s ≡ destroy_all f ys (destroy_all f xs s)
destroy_all-append f [] ys s = refl
destroy_all-append f (x ∷ xs) ys s = destroy_all-append f xs ys (f x s)

apply_loop-flat :
    {S : Type 0} (f : Elem → S → S) (bs : List (List Elem)) (s : S)
    → apply_loop f bs s ≡ destroy_all f (flat bs) s
apply_loop-flat f [] s = refl
apply_loop-flat f (b ∷ bs) s =
    apply_loop-flat f bs (destroy_all f b s) ∙ sym (destroy_all-append f b (flat bs) s)

left-first :
    (h : Hash) (bs : List (List Elem)) (i : Iterator)
    → h.buckets ≡ bs
    → hash_first h ≡ some i
    → left i ≡ flat bs
unfolding hash_first
left-first h [] i e f = let g : none ≡ some i = rw (hash_first, e) at f in cc
left-first h (b ∷ later) i e f =
    let g : some (at_head b later) ≡ some i = rw (hash_first, e) at f in
    let l : at_head b later ≡ i = eq_of_some g in rw (← l) refl

-- In a table that has a bucket, `hash_apply` does the action on the elements that a loop of `hash_next` visits,
-- in that order; the loop ends after one more call than there are elements.
pub hash_apply-visited :
    {S : Type 0} (action : Elem → S → S) (h : Hash) (i : Iterator) (s : S)
    → hash_first h ≡ some i
    → hash_apply action h s ≡ destroy_all action (visited (suc (length (flat h.buckets))) i) s
unfolding hash_apply
hash_apply-visited action h i s f =
    let l = left-first h h.buckets i refl f in
    let whole = visited-left i (flat h.buckets) l in
    apply_loop-flat action h.buckets s ∙ ap (λ l. destroy_all action l s) (sym whole)
