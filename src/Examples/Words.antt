-- ===== src/Examples/Words.antt =====
-- tokenizer.c and word_count.c on short texts.
use cs162hwproj.Prelude.{
  ℕ, ◌+◌, ◌≡◌, refl, Bool, false, some, List, [], ◌∷◌, arith, leb, ◌==◌, ◌&&◌, if◌then◌else◌,
}
use cs162hwproj.Prelude.Returns.{Returns}
use cs162hwproj.Tokenizer.{tokenize, loop, step, step_normal, step_quoted, push_word}
use cs162hwproj.Tokenizer.RoundTrip.{AreWords, print_words, tokenize-print_words}
use cs162hwproj.Tokenizer.Words.{tokenize-Returns}
use cs162hwproj.WordCount.{num_words, num_loop}
use cs162hwproj.WordCount.Frequency.{count_words, pieces, add_ended, count_words-pieces}
use cs162hwproj.WordCount.Counting.{runs, ends_inside, num_words-runs}

abbrev is_space : ℕ → Bool
is_space c = c == b' '

abbrev is_letter : ℕ → Bool
is_letter c = leb b'a' c && leb c b'z'

abbrev ab_cd : List (List ℕ)
ab_cd = (b'a' ∷ b'b' ∷ []) ∷ (b'c' ∷ b'd' ∷ []) ∷ []

-- a 'b c'
splits_quoted :
    tokenize is_space (some (b'a' ∷ b' ' ∷ b'\'' ∷ b'b' ∷ b' ' ∷ b'c' ∷ b'\'' ∷ []))
    ≡ some (some ((b'a' ∷ []) ∷ (b'b' ∷ b' ' ∷ b'c' ∷ []) ∷ []))
unfolding tokenize loop step step_normal step_quoted push_word
splits_quoted = refl

tokenize-print_words_example : tokenize is_space (some (print_words ab_cd)) ≡ some (some ab_cd)
tokenize-print_words_example =
    tokenize-print_words is_space ab_cd refl
      (omega arith, omega arith, (omega arith, omega arith, tt))

tokenize-Returns_example :
    Returns
      (λ r. (ws : List (List ℕ)) × (r ≡ some ws) × AreWords ws)
      (tokenize is_space (some (b'\'' ∷ b'a' ∷ [])))
tokenize-Returns_example = tokenize-Returns is_space (b'\'' ∷ b'a' ∷ []) (omega arith)

misses_last : num_words is_letter (some (b'a' ∷ b' ' ∷ b'b' ∷ [])) ≡ 1
unfolding num_words num_loop
misses_last = refl

num_words-runs_example :
    num_words is_letter (some (b'a' ∷ b' ' ∷ b'b' ∷ []))
      + (if ends_inside is_letter false (b'a' ∷ b' ' ∷ b'b' ∷ []) then 1 else 0)
    ≡ runs is_letter false (b'a' ∷ b' ' ∷ b'b' ∷ [])
num_words-runs_example =
    num_words-runs is_letter (b'a' ∷ b' ' ∷ b'b' ∷ [])
      (omega arith, (omega arith, (omega arith, tt))) (omega arith)

-- "a  b".
abbrev two_spaces : List ℕ
two_spaces = b'a' ∷ b' ' ∷ b' ' ∷ b'b' ∷ []

-- Blocks with what another use of the memory left.
abbrev old_blocks : ℕ → List ℕ
old_blocks k = b'z' ∷ b'z' ∷ b'y' ∷ 0 ∷ b'z' ∷ []

count_words-pieces_example :
    count_words is_letter (λ c. c + 1) old_blocks (some two_spaces) []
    ≡ add_ended old_blocks 0 []
        (pieces is_letter (λ c. c + 1) two_spaces).0
        (pieces is_letter (λ c. c + 1) two_spaces).1
count_words-pieces_example =
    count_words-pieces is_letter (λ c. c + 1) old_blocks (λ c h e. omega arith) two_spaces []
      (omega arith, (omega arith, (omega arith, (omega arith, tt))))
      (omega arith, (omega arith, (omega arith, tt)))
