-- ===== src/WordCount/Frequency.antt =====
-- `count_words` of hw0/words/main.c. The `k`-th block that `malloc` returns has the bytes `fresh k`; a result of none is
-- a read past the end of a block, or through a null pointer.
use mathlib.Core.List.{append-nil, append_assoc}
use cs162hwproj.Prelude.{
  ℕ, ◌+◌, ◌<◌, ◌≡◌, ◌≢◌, refl, ap, ◌∙◌, Bool, true, false, inl, inr, Option, none, some, List, [],
  ◌∷◌, ◌++◌, arith, ltb, ◌==◌, if◌then◌else◌, Bool-cases, length, drop, length-append, ◌>>=◌,
  lt→ltb,
}
use cs162hwproj.WordCount.{Entry, add_word, eof_byte}

abbrev pub max_word_len : ℕ
max_word_len = 64

-- The string at the start of a block, if it ends inside of the block.
abbrev pub string_in : List ℕ → Option (List ℕ)
string_in [] = none
string_in (c ∷ block) =
    let rest = string_in block in if c == 0 then some [] else (do s ← rest; some (c ∷ s))

-- The block behind the characters that were stored in it.
abbrev pub block_with : List ℕ → List ℕ → List ℕ
block_with stored block = stored ++ drop (length stored) block

module _ (isalpha : ℕ → Bool) (tolower : ℕ → ℕ) (fresh : ℕ → List ℕ) where
  unfoldable pub count_loop :
      List ℕ → List Entry → (k : ℕ) → (single_word : List ℕ) → Option (List Entry)
  count_loop [] es k single_word = some es
  count_loop (c ∷ cs) es k single_word =
      let stored = count_loop cs es k (single_word ++ (tolower c ∷ [])) in
      let full = (do
        w ← string_in (block_with single_word (fresh k))
        count_loop cs (add_word es w) (k + 1) (tolower c ∷ [])) in
      let ended = (do
        w ← string_in (block_with single_word (fresh k))
        count_loop cs (add_word es w) (k + 1) []) in
      if c == eof_byte
      then some es
      else if isalpha c
      then (if ltb (length single_word) max_word_len then stored else full)
      else ended

  -- The first `fgetc` reads through a null `infile`.
  unfoldable pub count_words : Option (List ℕ) → List Entry → Option (List Entry)
  unfolding count_loop
  count_words none es = none
  count_words (some infile) es = count_loop infile es 0 []

module _ (isalpha : ℕ → Bool) (tolower : ℕ → ℕ) where
  -- The words of a file, with an empty one between two characters that are no letters: the first one and the rest.
  abbrev pub cut : ℕ → List ℕ × List (List ℕ) → List ℕ × List (List ℕ)
  cut c (w, ws) = if isalpha c then (tolower c ∷ w, ws) else ([], w ∷ ws)

  abbrev pub pieces : List ℕ → List ℕ × List (List ℕ)
  pieces [] = ([], [])
  pieces (c ∷ cs) = cut c (pieces cs)

-- All words but the last one are added, each with the bytes of its block that stand behind it, up to the first zero
-- byte: none if the block has no zero byte there.
abbrev pub add_ended :
    (fresh : ℕ → List ℕ) → (k : ℕ) → List Entry → List ℕ → List (List ℕ) → Option (List Entry)
add_ended fresh k es w [] = some es
add_ended fresh k es w (w' ∷ ws) = do
  behind ← string_in (drop (length w) (fresh k))
  add_ended fresh (k + 1) (add_word es (w ++ behind)) w' ws

abbrev pub AreShort : List (List ℕ) → Type 0
AreShort [] = Unit
AreShort (w ∷ ws) = (length w < max_word_len) × AreShort ws

abbrev pub NoEof : List ℕ → Type 0
NoEof [] = Unit
NoEof (c ∷ cs) = (c ≢ eof_byte) × NoEof cs

abbrev pub IsText : List ℕ → Type 0
IsText [] = Unit
IsText (c ∷ s) = (c ≢ 0) × IsText s

string_in-append :
    (s t : List ℕ) → IsText s → string_in (s ++ t) ≡ (do behind ← string_in t; some (s ++ behind))
string_in-append [] t h = some_of (string_in t)
  where
    some_of : (r : Option (List ℕ)) → r ≡ (do behind ← r; some behind)
    some_of none = refl
    some_of (some v) = refl
string_in-append (c ∷ s) t (n, h) =
    let z : (c == 0) ≡ false = ground arith in
    rw (z, string_in-append s t h) (behind_c c s (string_in t))
  where
    behind_c :
        (c : ℕ) (s : List ℕ) (r : Option (List ℕ))
        → (do v ← (do behind ← r; some (s ++ behind)); some (c ∷ v))
          ≡ (do behind ← r; some (c ∷ (s ++ behind)))
    behind_c c s none = refl
    behind_c c s (some v) = refl

IsText-append : (s : List ℕ) (c : ℕ) → IsText s → c ≢ 0 → IsText (s ++ (c ∷ []))
IsText-append [] c h n = (n, tt)
IsText-append (d ∷ s) c (m, h) n = (m, IsText-append s c h n)

-- `strcmp (a, b) <= 0`.
abbrev pub strcmp_le : List ℕ → List ℕ → Bool
strcmp_le [] b = true
strcmp_le (c ∷ a) [] = false
strcmp_le (c ∷ a) (d ∷ b) = if c == d then strcmp_le a b else ltb c d

unfoldable pub wordcount_less : Entry → Entry → Bool
wordcount_less wc1 wc2 =
    if ltb wc2.count wc1.count
    then false
    else if ltb wc1.count wc2.count
    then true
    else strcmp_le wc1.word wc2.word

-- The word of a block is added, and the rest of the file is counted.
bind-append :
    (w : List ℕ) (r : Option (List ℕ)) (f g : List ℕ → Option (List Entry))
    → ((v : List ℕ) → f v ≡ g v)
    → (do v ← (do behind ← r; some (w ++ behind)); f v) ≡ (do behind ← r; g (w ++ behind))
bind-append w none f g h = refl
bind-append w (some behind) f g h = h (w ++ behind)

module _ (isalpha : ℕ → Bool) (tolower : ℕ → ℕ) (fresh : ℕ → List ℕ)
    (letters : (c : ℕ) → isalpha c ≡ true → tolower c ≢ 0) where
  loop-pieces :
      (cs : List ℕ) (es : List Entry) (k : ℕ) (w : List ℕ)
      → IsText w
      → NoEof cs
      → length (w ++ (pieces isalpha tolower cs).0) < max_word_len
      → AreShort (pieces isalpha tolower cs).1
      → count_loop isalpha tolower fresh cs es k w
        ≡ add_ended fresh k es (w ++ (pieces isalpha tolower cs).0) (pieces isalpha tolower cs).1
  unfolding count_loop
  loop-pieces [] es k w t n l a = refl
  loop-pieces (c ∷ cs) es k w t (n, ns) l a = elim (Bool-cases (isalpha c)) [
    | inl y ↦
        let e : (c == eof_byte) ≡ false = ground arith in
        let p = (pieces isalpha tolower cs).0 in
        let l' : length (w ++ (tolower c ∷ p)) < max_word_len = rw y at l in
        let s = append_assoc w (tolower c ∷ []) p in
        let room : ltb (length w) max_word_len ≡ true =
          lt→ltb _ _ (omega (arith, length-append w (tolower c ∷ p))) in
        rw (e, y, room)
          (loop-pieces cs es k (w ++ (tolower c ∷ [])) (IsText-append w (tolower c) t (letters c y))
              ns (rw s l') (rw y at a)
            ∙ ap (λ v. add_ended fresh k es v (pieces isalpha tolower cs).1) s)
    | inr f ↦
        let e : (c == eof_byte) ≡ false = ground arith in
        let p = pieces isalpha tolower cs in
        let (l', a') = rw f at a in
        rw (e, f, append-nil, string_in-append w (drop (length w) (fresh k)) t)
          (bind-append w (string_in (drop (length w) (fresh k)))
            (λ v. count_loop isalpha tolower fresh cs (add_word es v) (k + 1) [])
            (λ v. add_ended fresh (k + 1) (add_word es v) p.0 p.1)
            (λ v. loop-pieces cs (add_word es v) (k + 1) [] tt ns l' a'))
  ]

  -- If the file has no byte 255 and no 64 letters in a row, and no letter in lower case is the zero byte, `count_words`
  -- adds the file's runs of letters, in lower case, all but the one that the file ends with; between two characters
  -- that are no letters it adds an empty word. What `malloc` left in a block behind the letters, up to a zero byte, is
  -- part of the word, and there is no result if the block has no zero byte behind them.
  pub count_words-pieces :
      (infile : List ℕ) (es : List Entry)
      → NoEof infile
      → AreShort ((pieces isalpha tolower infile).0 ∷ (pieces isalpha tolower infile).1)
      → count_words isalpha tolower fresh (some infile) es
        ≡ add_ended fresh 0 es (pieces isalpha tolower infile).0 (pieces isalpha tolower infile).1
  unfolding count_words
  count_words-pieces infile es n (l, a) = loop-pieces infile es 0 [] tt n l a
