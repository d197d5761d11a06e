-- ===== src/Tokenizer.antt =====
-- hw-shell/tokenizer.c: a command line is split into words. Characters are bytes; `isspace` is the
-- C library's. `none` is `abort ()`.
pub mod Words
pub mod RoundTrip
use cs162hwproj.Prelude.{
  ℕ, ◌+◌, ◌^◌, Bool, true, false, Option, none, some, List, [], ◌∷◌, ◌++◌, ltb, ◌==◌, if◌then◌else◌,
  length, get_elem?, ◌>>=◌, ◌>>◌, assert,
}

-- MODE_NORMAL, MODE_SQUOTE and MODE_DQUOTE.
pub data Mode : Type 0 where
  normal squote dquote : Mode

-- The variables of the loop: `token[0..n)` is `token`, and the words that were pushed so far.
pub record State : Type 0 where
  pub mode : Mode
  pub token : List ℕ
  pub words : List (List ℕ)

-- `n_max`.
abbrev pub n_max : ℕ
n_max = 4096

abbrev pub start : State
start = record { mode = normal; token = []; words = [] }

-- `token[n++] = c`.
abbrev pub put : State → ℕ → State
put s c = record s { token = s.token ++ c ∷ [] }

-- `copy_word` and `vector_push`, if the token is not empty.
unfoldable pub push_word : State → State
push_word s =
    if length s.token == 0 then s else record s { token = []; words = s.words ++ s.token ∷ [] }

-- A backslash takes the character behind it, if there is one; the flag says that it did.
abbrev pub escape : State → Option ℕ → State × Bool
escape s none = (s, false)
escape s (some d) = (put s d, true)

module _ (isspace : ℕ → Bool) where
  unfoldable pub step_normal : State → ℕ → Option ℕ → State × Bool
  step_normal s c next =
      if c == b'\''
      then (record s { mode = squote }, false)
      else if c == b'"'
      then (record s { mode = dquote }, false)
      else if c == b'\\'
      then escape s next
      else if isspace c
      then (push_word s, false)
      else (put s c, false)

  unfoldable pub step_quoted : (quote : ℕ) → State → ℕ → Option ℕ → State × Bool
  step_quoted quote s c next =
      if c == quote
      then (record s { mode = normal }, false)
      else if c == b'\\'
      then escape s next
      else (put s c, false)

  -- One round of the loop on the character `c`, with `next` behind it.
  unfoldable pub step : Mode → State → ℕ → Option ℕ → State × Bool
  unfolding step_normal step_quoted
  step normal s c next = step_normal s c next
  step squote s c next = step_quoted b'\'' s c next
  step dquote s c next = step_quoted b'"' s c next

  -- The test at the end of each round.
  abbrev pub assert_room : State → Option (Unit {0})
  assert_room s = assert (ltb (length s.token + 1) n_max)

  unfoldable pub loop : State → List ℕ → Option State
  loop s [] = some s
  loop s (c ∷ []) = let (s', took) = step s.mode s c none in assert_room s' >> some s'
  loop s (c ∷ d ∷ rest) =
      let (s', took) = step s.mode s c (some d) in
      let after = loop s' rest in
      let at = loop s' (d ∷ rest) in assert_room s' >> (if took then after else at)

  -- A null pointer, as the line or as the result, is the inner `none`.
  unfoldable pub tokenize : Option (List ℕ) → Option (Option (List (List ℕ)))
  unfolding loop
  tokenize none = some none
  tokenize (some line) = do s ← loop start line; some (some (push_word s).words)

abbrev pub tokens_get_length : Option (List (List ℕ)) → ℕ
tokens_get_length none = 0
tokens_get_length (some ts) = length ts

abbrev pub tokens_get_token : Option (List (List ℕ)) → ℕ → Option (List ℕ)
tokens_get_token none n = none
tokens_get_token (some ts) n = get_elem? ts n
