-- ===== src/WordCount/Entries.antt =====
-- The word list of hw0/words/word_count.c as a table of counts.
use cs162hwproj.Prelude.{
  ℕ, ◌+◌, ◌≡◌, refl, ◌∙◌, true, false, none, some, List, [], ◌∷◌, ◌++◌, arith, if◌then◌else◌, inl,
  inr, Bool-cases, Option-cases, length, length-append,
}
use cs162hwproj.WordCount.{Entry, same_word, len_loop, len_words, find_word, increment, add_word}

pub eq_of_same_word : (a b : List ℕ) → same_word a b ≡ true → a ≡ b
unfolding same_word
eq_of_same_word [] [] h = refl
eq_of_same_word [] (y ∷ b) h = cc
eq_of_same_word (x ∷ a) [] h = cc
eq_of_same_word (x ∷ a) (y ∷ b) h = ground (arith, eq_of_same_word a b)

pub same_word_refl : (a : List ℕ) → same_word a a ≡ true
unfolding same_word
same_word_refl [] = refl
same_word_refl (x ∷ a) = ground (arith, same_word_refl a)

pub same_word-sym : (a b : List ℕ) → same_word a b ≡ same_word b a
unfolding same_word
same_word-sym [] [] = refl
same_word-sym [] (y ∷ b) = refl
same_word-sym (x ∷ a) [] = refl
same_word-sym (x ∷ a) (y ∷ b) = ground (arith, same_word-sym a b)

-- The count of a word, 0 if it is not in the list.
unfoldable pub count_of : List Entry → List ℕ → ℕ
count_of [] v = 0
count_of (e ∷ es) v = if same_word e.word v then e.count else count_of es v

count_of-increment :
    (es : List Entry) (w v : List ℕ) {e : Entry}
    → find_word es w ≡ some e
    → count_of (increment es w) v ≡ count_of es v + (if same_word w v then 1 else 0)
unfolding count_of find_word increment
count_of-increment [] w v h = cc
count_of-increment (x ∷ es) w v h = elim (Bool-cases (same_word x.word w)) [
  | inl here ↦
      let e = eq_of_same_word x.word w here in
      rw (here, e)
        (elim (Bool-cases (same_word w v)) [ inl y ↦ rw y refl | inr n ↦ rw n (omega arith) ])
  | inr there ↦
      let ih = count_of-increment es w v (rw there at h) in
      rw there (elim (Bool-cases (same_word x.word v)) [
        | inl y ↦
            let e = eq_of_same_word x.word v y in
            let other : same_word w v ≡ false = rw (same_word-sym w v, ← e) there in
            rw (y, other) (omega arith)
        | inr n ↦ rw n ih
      ])
]

count_of-append :
    (es : List Entry) (w v : List ℕ)
    → find_word es w ≡ none
    → count_of (es ++ record { word = w; count = 1 } ∷ []) v
      ≡ count_of es v + (if same_word w v then 1 else 0)
unfolding count_of find_word
count_of-append [] w v h = omega arith
count_of-append (x ∷ es) w v h = elim (Bool-cases (same_word x.word w)) [
  | inl here ↦ let bad : some x ≡ none = rw here at h in cc bad
  | inr there ↦
      let ih = count_of-append es w v (rw there at h) in
      elim (Bool-cases (same_word x.word v)) [
        | inl y ↦
            let e = eq_of_same_word x.word v y in
            let other : same_word w v ≡ false = rw (same_word-sym w v, ← e) there in
            rw (y, other) (omega arith)
        | inr n ↦ rw n ih
      ]
]

-- `add_word` adds one to the count of its word, which is 0 for a word that is not in the list, and
-- leaves the count of every other word.
pub count_of-add_word :
    (es : List Entry) (w v : List ℕ)
    → count_of (add_word es w) v ≡ count_of es v + (if same_word w v then 1 else 0)
unfolding add_word
count_of-add_word es w v = elim (Option-cases (find_word es w)) [
  | inl out ↦ rw (out, add_word) (count_of-append es w v out)
  | inr (e, inn) ↦ rw (inn, add_word) (count_of-increment es w v inn)
]

-- No word stands twice in the list.
abbrev pub Nodup : List Entry → Type 0
Nodup [] = Unit
Nodup (e ∷ es) = (find_word es e.word ≡ none) × Nodup es

find_word-increment :
    (es : List Entry) (w v : List ℕ) → find_word es v ≡ none → find_word (increment es w) v ≡ none
unfolding find_word increment
find_word-increment [] w v h = refl
find_word-increment (e ∷ es) w v h = ground (arith, find_word-increment es w v)

find_word-append :
    (es : List Entry) (w v : List ℕ)
    → find_word es v ≡ none
    → same_word w v ≡ false
    → find_word (es ++ record { word = w; count = 1 } ∷ []) v ≡ none
unfolding find_word
find_word-append [] w v h n = ground arith
find_word-append (e ∷ es) w v h n = ground (arith, find_word-append es w v)

Nodup-increment : (es : List Entry) (w : List ℕ) → Nodup es → Nodup (increment es w)
unfolding increment
Nodup-increment [] w d = tt
Nodup-increment (e ∷ es) w (o, d) = elim (Bool-cases (same_word e.word w)) [
  | inl y ↦ rw y (o, d)
  | inr n ↦ rw n (find_word-increment es w e.word o, Nodup-increment es w d)
]

Nodup-append :
    (es : List Entry) (w : List ℕ)
    → find_word es w ≡ none
    → Nodup es
    → Nodup (es ++ record { word = w; count = 1 } ∷ [])
unfolding find_word
Nodup-append [] w h d = (refl, tt)
Nodup-append (e ∷ es) w h (o, d) = elim (Bool-cases (same_word e.word w)) [
  | inl y ↦ let bad : some e ≡ none = rw y at h in cc bad
  | inr n ↦
      (find_word-append es w e.word o (same_word-sym w e.word ∙ n), Nodup-append es w (rw n at h) d)
]

-- `add_word` on a list in which no word stands twice gives such a list.
pub add_word-Nodup : (es : List Entry) (w : List ℕ) → Nodup es → Nodup (add_word es w)
unfolding add_word
add_word-Nodup es w d = elim (Option-cases (find_word es w)) [
  | inl out ↦ rw (out, add_word) (Nodup-append es w out d)
  | inr (e, inn) ↦ rw (inn, add_word) (Nodup-increment es w d)
]

len_loop-length : (es : List Entry) (n : ℕ) → len_loop es n ≡ n + length es
unfolding len_loop
len_loop-length [] n = omega arith
len_loop-length (e ∷ es) n = omega (arith, len_loop-length es (n + 1))

length-increment : (es : List Entry) (w : List ℕ) → length (increment es w) ≡ length es
unfolding increment
length-increment [] w = refl
length-increment (e ∷ es) w = ground (arith, length-increment es w)

-- `add_word` makes `len_words` one more if `find_word` does not find the word, and leaves it else.
pub len_words-add_word :
    (es : List Entry) (w : List ℕ)
    → len_words (add_word es w) ≡ len_words es + (elim (find_word es w) [ some e ↦ 0 | none ↦ 1 ])
unfolding len_words add_word
len_words-add_word es w = elim (Option-cases (find_word es w)) [
  | inl out ↦
      rw (out, add_word)
        (omega (
          arith,
          len_loop-length (es ++ record { word = w; count = 1 } ∷ []) 0,
          len_loop-length es 0,
          length-append es (record { word = w; count = 1 } ∷ []),
        ))
  | inr (e, inn) ↦
      rw (inn, add_word)
        (omega
          (arith, len_loop-length (increment es w) 0, len_loop-length es 0, length-increment es w))
]
