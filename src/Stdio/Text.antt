-- ===== src/Stdio/Text.antt =====
-- `__vprintf` of stdio.c on a format without conversions.
use cs162hwproj.Prelude.{
  ℕ, zero, suc, ◌+◌, ◌<◌, ◌≢◌, Option, false, ◌>>=◌, length-append, ◌≡◌, refl, Bool, inl, inr, none,
  some, List, [], ◌∷◌, ◌++◌, arith, ◌==◌, if◌then◌else◌, Bool-cases, length,
}
use cs162hwproj.CString.{Memory}
use cs162hwproj.Stdio.Parse.{parse_conversion}
use cs162hwproj.Stdio.Printf.{converted, convert, vprintf_loop, vprintf, no_text, conversion_text}

-- No zero byte.
abbrev pub IsText : List ℕ → Type 0
IsText [] = Unit
IsText (ch ∷ text) = (ch ≢ 0) × IsText text

-- A format that stands for the text: `%%` for every `%`.
abbrev pub escaped : List ℕ → List ℕ
escaped [] = []
escaped (ch ∷ text) = if ch == b'%' then b'%' ∷ b'%' ∷ escaped text else ch ∷ escaped text

-- "<<no %", the zero byte, and " conversion>>".
abbrev pub no_conversion : List ℕ
no_conversion = no_text ++ (0 ∷ conversion_text)

module _ (fpu : (d power : ℕ) → ℕ × ℕ × Bool) (mem : Memory) where
  loop-escaped :
      (fuel : ℕ) (text behind args : List ℕ)
      → length (escaped text) < fuel
      → IsText text
      → vprintf_loop fpu mem fuel (escaped text ++ (0 ∷ behind)) args ≡ some text
  unfolding vprintf_loop
  loop-escaped zero text behind args h i = absurd (omega arith)
  loop-escaped (suc fuel) [] behind args h i = refl
  loop-escaped (suc fuel) (ch ∷ text) behind args h (c, i) = elim (Bool-cases (ch == b'%')) [
    | inl y ↦
        let e : ch ≡ b'%' = ground arith in
        let l : length (escaped text) < fuel = ground arith in
        rw (e, loop-escaped fuel text behind args l i) refl
    | inr n ↦
        let z : (ch == 0) ≡ false = ground arith in
        let l : length (escaped text) < fuel = ground arith in
        rw (n, z, n, loop-escaped fuel text behind args l i) refl
  ]

  -- A text in which every `%` is doubled is put out as it is, whatever the arguments.
  pub vprintf-escaped :
      (text behind args : List ℕ)
      → IsText text
      → vprintf fpu mem (escaped text ++ (0 ∷ behind)) args ≡ some text
  unfolding vprintf
  vprintf-escaped text behind args i =
      loop-escaped (suc (length (escaped text ++ (0 ∷ behind)))) text behind args
        (omega (arith, length-append (escaped text) (0 ∷ behind))) i

  -- A format whose only conversion is a `%` right before its zero byte, with any text before it, `%%` for each `%` of
  -- it: with any fuel, `__vprintf` puts out the text and a message that has the zero byte in it, and then goes on with
  -- the bytes behind the format as if they were more of it.
  pub vprintf_open :
      (fuel : ℕ) (text behind args : List ℕ)
      → IsText text
      → vprintf_loop fpu mem (length text + suc fuel) (escaped text ++ (b'%' ∷ 0 ∷ behind)) args
        ≡ (do more ← vprintf_loop fpu mem fuel behind args; some (text ++ (no_conversion ++ more)))
  unfolding vprintf_loop
  vprintf_open fuel [] behind args i =
      let e : 0 + suc fuel ≡ suc fuel = omega arith in
      rw e (unfold converted parse_conversion convert in refl)
  vprintf_open fuel (ch ∷ text) behind args (c, i) =
      let ih = vprintf_open fuel text behind args i in
      let s : suc (length text) + suc fuel ≡ suc (length text + suc fuel) = omega arith in
      rw s (elim (Bool-cases (ch == b'%')) [
        | inl y ↦
            let e : ch ≡ b'%' = ground arith in
            rw (e, ih) (front b'%' text (vprintf_loop fpu mem fuel behind args))
        | inr n ↦
            let z : (ch == 0) ≡ false = ground arith in
            rw (n, z, n, ih) (front ch text (vprintf_loop fpu mem fuel behind args))
      ])
    where
      front :
          (ch : ℕ) (text : List ℕ) (r : Option (List ℕ))
          → (do t ← (do more ← r; some (text ++ (no_conversion ++ more))); some (ch ∷ t))
            ≡ (do more ← r; some (ch ∷ (text ++ (no_conversion ++ more))))
      front ch text none = refl
      front ch text (some more) = refl
