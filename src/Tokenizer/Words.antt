-- ===== src/Tokenizer/Words.antt =====
-- What the words of tokenizer.c are like, and which lines it accepts.
use cs162hwproj.Prelude.{
  ℕ, ◌+◌, ◌≤◌, ◌<◌, ◌≡◌, refl, Bool, true, false, Option, none, some, List, [], ◌∷◌, ◌++◌, arith,
  ltb, ◌==◌, if◌then◌else◌, length, length-append, lt→ltb, inl, inr, Bool-cases, Option-cases,
  assert-some, eq_of_some,
}
use cs162hwproj.Prelude.Returns
use cs162hwproj.Prelude.Returns.{Returns, returns}
use mathlib.Core.Path.{subst}
use cs162hwproj.Tokenizer.{
  Mode, State, normal, squote, dquote, n_max, start, put, escape, push_word, step, loop, tokenize,
}
use cs162hwproj.Tokenizer.RoundTrip.{AreWords}

-- The words are words, and the token and its terminating zero fit the buffer.
pub record IsState (s : State) : Type 0 where
  pub words : AreWords s.words
  pub room : length s.token + 1 < n_max

AreWords-push :
    (ws : List (List ℕ)) (w : List ℕ)
    → AreWords ws
    → 0 < length w
    → length w + 1 < n_max
    → AreWords (ws ++ w ∷ [])
AreWords-push [] w h p q = (p, q, tt)
AreWords-push (v ∷ ws) w (a, b, h) p q = (a, b, AreWords-push ws w h p q)

push_word-IsState : {s : State} → IsState s → IsState (push_word s)
unfolding push_word
push_word-IsState {s} i = elim (Bool-cases (length s.token == 0)) [
  | inl e ↦ rw e i
  | inr n ↦ rw n (record {
    words = AreWords-push s.words s.token i.words (ground (arith, n)) i.room;
    room = omega arith;
  })
]

-- After a step the words are words, and the token has grown by one character at most.
record Stepped (s s' : State) : Type 0 where
  words : AreWords s'.words
  growth : length s'.token ≤ length s.token + 1

push_word-Stepped : {s : State} → IsState s → Stepped s (push_word s)
unfolding push_word
push_word-Stepped {s} i = elim (Bool-cases (length s.token == 0)) [
  | inl e ↦ rw e (record { words = i.words; growth = omega arith })
  | inr n ↦ rw n (record {
    words = AreWords-push s.words s.token i.words (ground (arith, n)) i.room;
    growth = omega arith;
  })
]

put-Stepped : {s : State} (c : ℕ) → IsState s → Stepped s (put s c)
put-Stepped {s} c i = record {
  words = i.words;
  growth = omega (arith, length-append s.token (c ∷ []));
}

mode-Stepped : {s : State} (m : Mode) → IsState s → Stepped s (record s { mode = m })
mode-Stepped m i = record { words = i.words; growth = omega arith }

escape-Stepped : {s : State} (next : Option ℕ) → IsState s → Stepped s (escape s next).0
escape-Stepped {s} none i = mode-Stepped s.mode i
escape-Stepped (some d) i = put-Stepped d i

-- A branch of a step has what both its sides have.
if-Stepped :
    {s : State} (b : Bool) (x y : State × Bool)
    → Stepped s x.0
    → Stepped s y.0
    → Stepped s (if b then x else y).0
if-Stepped true x y p q = p
if-Stepped false x y p q = q

module _ (isspace : ℕ → Bool) where
  step-Stepped :
      (m : Mode) {s : State} (c : ℕ) (next : Option ℕ)
      → IsState s
      → Stepped s (step isspace m s c next).0
  unfolding step
  step-Stepped normal c next i = if-Stepped _ _ _ (mode-Stepped squote i) (
      if-Stepped _ _ _ (mode-Stepped dquote i) (
        if-Stepped _ _ _ (escape-Stepped next i)
          (if-Stepped _ _ _ (push_word-Stepped i) (put-Stepped c i))))
  step-Stepped squote c next i =
      if-Stepped _ _ _ (mode-Stepped normal i)
        (if-Stepped _ _ _ (escape-Stepped next i) (put-Stepped c i))
  step-Stepped dquote c next i =
      if-Stepped _ _ _ (mode-Stepped normal i)
        (if-Stepped _ _ _ (escape-Stepped next i) (put-Stepped c i))

  -- A state after a step whose test at the end of the round passes.
  step-IsState :
      {s : State} (c : ℕ) (next : Option ℕ)
      → IsState s
      → let s' = (step isspace s.mode s c next).0 in
        ltb (length s'.token + 1) n_max ≡ true → IsState s'
  step-IsState {s} c next i ok = record {
    words = (step-Stepped s.mode c next i).words;
    room = ground (arith, ok);
  }

  loop-IsState :
      (line : List ℕ) {s s' : State} → IsState s → loop isspace s line ≡ some s' → IsState s'
  unfolding loop
  loop-IsState [] i e = subst IsState (eq_of_some e) i
  loop-IsState (c ∷ []) {s} i e =
      let (ok, out) = assert-some _ (some (step isspace s.mode s c none).0) e in
      subst IsState (eq_of_some out) (step-IsState c none i ok)
  loop-IsState (c ∷ d ∷ rest) {s} i e =
      let (s₁, took) = step isspace s.mode s c (some d) in
      let (ok, out) =
        assert-some _ (if took then loop isspace s₁ rest else loop isspace s₁ (d ∷ rest)) e in
      let i₁ = step-IsState c (some d) i ok in
      elim (Bool-cases took) [
        | inl two ↦ loop-IsState rest i₁ (rw two at out)
        | inr one ↦ loop-IsState (d ∷ rest) i₁ (rw one at out)
      ]

  -- Whenever `tokenize` returns words, each is not empty and fits the token buffer with its
  -- terminating zero.
  pub tokenize-AreWords :
      (line : List ℕ) {ws : List (List ℕ)}
      → tokenize isspace (some line) ≡ some (some ws)
      → AreWords ws
  unfolding tokenize
  tokenize-AreWords line {ws} e = elim (Option-cases (loop isspace start line)) [
    | inl stop ↦ let bad : none ≡ some (some ws) = rw stop at e in cc bad
    | inr (s, done) ↦
        let out : some (some (push_word s).words) ≡ some (some ws) = rw done at e in
        subst (λ t. AreWords t) (eq_of_some (eq_of_some out))
          (push_word-Stepped
            (loop-IsState line (record { words = tt; room = omega arith }) done)).words
  ]

  -- A line shorter than the buffer is never refused.
  loop-Returns :
      (line : List ℕ) (s : State)
      → IsState s
      → length s.token + length line + 1 < n_max
      → Returns IsState (loop isspace s line)
  unfolding loop
  loop-Returns [] s i h = returns i
  loop-Returns (c ∷ []) s i h =
      let st = step-Stepped s.mode c none i in
      let new = (step isspace s.mode s c none).0 in
      let ok = lt→ltb (length new.token + 1) n_max (omega (arith, st.growth)) in
      rw ok (returns (step-IsState c none i ok))
  loop-Returns (c ∷ d ∷ rest) s i h =
      let st = step-Stepped s.mode c (some d) i in
      let (s₁, took) = step isspace s.mode s c (some d) in
      let ok = lt→ltb (length s₁.token + 1) n_max (omega (arith, st.growth)) in
      let i₁ = step-IsState c (some d) i ok in
      rw ok (elim (Bool-cases took) [
        | inl two ↦ rw two (loop-Returns rest s₁ i₁ (omega (arith, st.growth)))
        | inr one ↦ rw one (loop-Returns (d ∷ rest) s₁ i₁ (omega (arith, st.growth)))
      ])

  -- `tokenize` on a line of fewer than 4095 characters does not abort, and returns words that are
  -- not empty and fit the token buffer with their terminating zero.
  pub tokenize-Returns :
      (line : List ℕ)
      → length line + 1 < n_max
      → Returns
          (λ r. (ws : List (List ℕ)) × (r ≡ some ws) × AreWords ws)
          (tokenize isspace (some line))
  unfolding tokenize
  tokenize-Returns line h =
      Returns.bind
        (loop-Returns line start (record { words = tt; room = omega arith }) (omega arith))
        λ s i. returns ((push_word s).words, refl, (push_word-Stepped i).words)
