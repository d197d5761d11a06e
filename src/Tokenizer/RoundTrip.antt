-- ===== src/Tokenizer/RoundTrip.antt =====
-- A way to write words on a line that tokenizer.c reads back.
use cs162hwproj.Prelude.{
  ℕ, ◌+◌, ◌<◌, ◌≡◌, refl, ap, ◌∙◌, Bool, true, false, some, List, [], ◌∷◌, ◌++◌, arith, ◌==◌,
  length, length-append, lt→ltb,
}
use mathlib.Core.List.{append_assoc, append-nil}
use cs162hwproj.Tokenizer.{normal, n_max, push_word, step, loop, tokenize}

-- A backslash before every character, and a space behind every word.
pub escaped : List ℕ → List ℕ
escaped [] = []
escaped (c ∷ w) = b'\\' ∷ c ∷ escaped w

pub print_words : List (List ℕ) → List ℕ
unfolding escaped
print_words [] = []
print_words (w ∷ ws) = escaped w ++ b' ' ∷ print_words ws

abbrev pub AreWords : List (List ℕ) → Type 0
AreWords [] = Unit
AreWords (w ∷ ws) = (0 < length w) × (length w + 1 < n_max) × AreWords ws

module _ (isspace : ℕ → Bool) where
  loop-escaped :
      (w tok : List ℕ) (ws : List (List ℕ)) (rest : List ℕ)
      → length tok + length w + 1 < n_max
      → loop isspace (record { mode = normal; token = tok; words = ws }) (escaped w ++ rest)
        ≡ loop isspace (record { mode = normal; token = tok ++ w; words = ws }) rest
  unfolding escaped loop step
  loop-escaped [] tok ws rest h = rw append-nil refl
  loop-escaped (c ∷ w) tok ws rest h =
      rw (lt→ltb (length (tok ++ c ∷ []) + 1) n_max (omega (arith, length-append tok (c ∷ [])))) (
        loop-escaped w (tok ++ c ∷ []) ws rest (omega (arith, length-append tok (c ∷ [])))
        ∙ ap (λ t. loop isspace (record { mode = normal; token = t; words = ws }) rest)
            (append_assoc tok (c ∷ []) w))

  loop-space :
      (tok : List ℕ) (ws : List (List ℕ)) (rest : List ℕ)
      → isspace b' ' ≡ true
      → 0 < length tok
      → loop isspace (record { mode = normal; token = tok; words = ws }) (b' ' ∷ rest)
        ≡ loop isspace (record { mode = normal; token = []; words = ws ++ tok ∷ [] }) rest
  unfolding loop step push_word
  loop-space tok ws [] sp h = rw (sp, full tok h) refl
    where
      full : (t : List ℕ) → 0 < length t → (length t == 0) ≡ false
      full t p = ground arith
  loop-space tok ws (d ∷ rest) sp h = rw (sp, full tok h) refl
    where
      full : (t : List ℕ) → 0 < length t → (length t == 0) ≡ false
      full t p = ground arith

  loop-print_words :
      (vs ws : List (List ℕ))
      → isspace b' ' ≡ true
      → AreWords vs
      → loop isspace (record { mode = normal; token = []; words = ws }) (print_words vs)
        ≡ some (record { mode = normal; token = []; words = ws ++ vs })
  unfolding print_words loop
  loop-print_words [] ws sp h = rw append-nil refl
  loop-print_words (w ∷ vs) ws sp (p, q, h) =
      loop-escaped w [] ws (b' ' ∷ print_words vs) (omega arith)
      ∙ loop-space w ws (print_words vs) sp p
      ∙ loop-print_words vs (ws ++ w ∷ []) sp h
      ∙ ap (λ t. some (record { mode = normal; token = []; words = t }))
          (append_assoc ws (w ∷ []) vs)

  -- If `isspace` is true of the space: words that are not empty, and each of which has at most 4094
  -- characters, come back from `tokenize` when they are written with a backslash before
  -- every character and a space behind every word.
  pub tokenize-print_words :
      (vs : List (List ℕ))
      → isspace b' ' ≡ true
      → AreWords vs
      → tokenize isspace (some (print_words vs)) ≡ some (some vs)
  unfolding tokenize push_word
  tokenize-print_words vs sp h = rw (loop-print_words vs [] sp h) refl
