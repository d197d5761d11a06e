-- ===== src/WordCount/Counting.antt =====
-- `num_words` of hw0/words/main.c against the number of words of a text.
use cs162hwproj.Prelude.{
  ℕ, ◌+◌, ◌%◌, ◌^◌, ◌<◌, length, ◌≡◌, ◌≢◌, Bool, false, not, ◌&&◌, some, List, [], ◌∷◌, arith, ltb,
  ◌==◌, refl, true, inl, inr, Bool-cases, if◌then◌else◌,
}
use cs162hwproj.WordCount.{eof_byte, is_positive, num_loop, num_words}

module _ (isalpha : ℕ → Bool) where
  -- The number of maximal runs of letters; `inside` says that a letter stands right before.
  pub runs : (inside : Bool) → List ℕ → ℕ
  runs inside [] = 0
  runs inside (c ∷ cs) = (if isalpha c && not inside then 1 else 0) + runs (isalpha c) cs

  -- Whether the text ends in a letter.
  pub ends_inside : Bool → List ℕ → Bool
  ends_inside inside [] = inside
  ends_inside inside (c ∷ cs) = ends_inside (isalpha c) cs

  abbrev pub IsText : List ℕ → Type 0
  IsText [] = Unit
  IsText (c ∷ cs) = (c ≢ eof_byte) × IsText cs

  num_loop-runs :
      (cs : List ℕ) (l n : ℕ)
      → IsText cs
      → l + length cs < 2 ^ 31
      → n + length cs < 2 ^ 31
      → num_loop isalpha cs l n + (if ends_inside (ltb 0 l) cs then 1 else 0)
        ≡ n + (if ltb 0 l then 1 else 0) + runs (ltb 0 l) cs
  unfolding num_loop runs ends_inside
  num_loop-runs [] l n h u v = ground arith
  num_loop-runs (c ∷ cs) l n (p, h) u v =
      let a : (l + 1) % 2 ^ 32 ≡ l + 1 = omega arith in
      let b : (n + 1) % 2 ^ 32 ≡ n + 1 = omega arith in
      let s : is_positive l ≡ ltb 0 l = ground arith in
      let e : (c == eof_byte) ≡ false = ground arith in
      let t : ltb 0 (l + 1) ≡ true = ground arith in
      let t' : ltb 0 0 ≡ false = refl in
      let i1 = rw t at (num_loop-runs cs (l + 1) n h (omega arith) (omega arith)) in
      let i2 = num_loop-runs cs 0 n h (omega arith) (omega arith) in
      let i3 = num_loop-runs cs 0 (n + 1) h (omega arith) (omega arith) in
      elim (Bool-cases (isalpha c)) [
        | inl y ↦
            rw (a, b, s, e, y)
              (elim (Bool-cases (ltb 0 l)) [
                | inl z ↦ rw z (omega (arith, i1))
                | inr z ↦ rw z (omega (arith, i1))
              ])
        | inr k ↦
            rw (a, b, s, e, k)
              (elim (Bool-cases (ltb 0 l)) [
                | inl z ↦ rw z (omega (arith, i3))
                | inr z ↦ rw z (omega (arith, i2))
              ])
      ]

  -- On a text of fewer than 2^31 bytes, none of which is 255, `num_words` returns the number of maximal runs of letters, less
  -- one if the text ends in a letter.
  pub num_words-runs :
      (cs : List ℕ)
      → IsText cs
      → length cs < 2 ^ 31
      → num_words isalpha (some cs) + (if ends_inside false cs then 1 else 0) ≡ runs false cs
  unfolding num_words
  num_words-runs cs h l = omega (arith, num_loop-runs cs 0 0 h (omega arith) (omega arith))
