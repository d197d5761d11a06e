-- ===== src/WordCount.antt =====
-- hw0/words: word_count.c and the counting of main.c. The linked list is its sequence of nodes; no
-- two nodes share. A file is the list of its bytes; `isalpha` and `tolower` are the C library's.
pub mod Entries
pub mod Counting
pub mod Frequency
use cs162hwproj.Prelude.{
  ℕ, zero, suc, ◌+◌, Bool, true, false, Option, none, some, List, [], ◌∷◌, ◌++◌, ltb, ◌==◌, ◌%◌,
  ◌^◌, ◌&&◌, if◌then◌else◌, ◌≡◌, ◌↔◌, length,
}

-- `struct word_count`, less `next`.
pub record Entry : Type 0 where
  pub word : List ℕ
  pub count : ℕ

-- `strcmp (a, b) == 0`, on the bytes before the terminating zero.
unfoldable pub same_word : List ℕ → List ℕ → Bool
same_word [] [] = true
same_word [] (y ∷ ys) = false
same_word (x ∷ xs) [] = false
same_word (x ∷ xs) (y ∷ ys) = if x == y then same_word xs ys else false

abbrev pub init_words : List Entry
init_words = []

unfoldable pub len_loop : List Entry → ℕ → ℕ
len_loop [] len = len
len_loop (e ∷ es) len = len_loop es (len + 1)

unfoldable pub len_words : List Entry → ℕ
unfolding len_loop
len_words es = len_loop es 0

unfoldable pub find_word : List Entry → List ℕ → Option Entry
unfolding same_word
find_word [] w = none
find_word (e ∷ es) w = if same_word e.word w then some e else find_word es w

-- The increment of the node that `find_word` returns.
unfoldable pub increment : List Entry → List ℕ → List Entry
unfolding same_word
increment [] w = []
increment (e ∷ es) w =
    if same_word e.word w then record e { count = e.count + 1 } ∷ es else e ∷ increment es w

unfoldable pub add_word : List Entry → List ℕ → List Entry
unfolding find_word increment
add_word es w = elim (find_word es w) [
  | some e ↦ increment es w
  | none ↦ es ++ record { word = w; count = 1 } ∷ []
]

-- `c == EOF` for `char c = fgetc (infile)`: at the end of the file, and at the byte 255.
abbrev pub eof_byte : ℕ
eof_byte = 255

-- `> 0` for an `int`, which is kept as its 32-bit pattern.
abbrev pub is_positive : ℕ → Bool
is_positive n = ltb 0 n && ltb n (2 ^ 31)

module _ (isalpha : ℕ → Bool) where
  unfoldable pub num_loop : List ℕ → (word_length num_words : ℕ) → ℕ
  num_loop [] word_length num_words = num_words
  num_loop (c ∷ cs) word_length num_words =
      if c == eof_byte
      then num_words
      else num_loop cs (if isalpha c then (word_length + 1) % 2 ^ 32 else 0) (
          if isalpha c
          then num_words
          else if is_positive word_length
          then (num_words + 1) % 2 ^ 32
          else num_words)

  -- A null `infile` is `none`.
  unfoldable pub num_words : Option (List ℕ) → ℕ
  unfolding num_loop
  num_words none = 0
  num_words (some infile) = num_loop infile 0 0
