-- ===== src/Ustar/Names.antt =====
-- What `strip_antisocial_prefixes` of ustar.c returns.
use mathlib.Core.List.{append_assoc}
use cs162hwproj.Prelude.{
  ℕ, zero, suc, ◌≤◌, ◌<◌, ◌≡◌, ◌≢◌, refl, sym, ap, ◌∙◌, ◌⊎◌, ◌++◌, ◌==◌, true, false, ◌||◌, inl,
  inr, List, [], ◌∷◌, arith, Bool-cases, length,
}
use cs162hwproj.Ustar.{
  after_slash, is_antisocial, is_nothing, is_dots, strip_loop, strip_antisocial_prefixes,
}

length-after_slash : (s : List ℕ) → length (after_slash s) ≤ length s
length-after_slash [] = omega arith
length-after_slash (c ∷ s) = ground (arith, length-after_slash s)

shorter : (s : List ℕ) → is_antisocial s ≡ true → length (after_slash s) < length s
shorter [] h = cc
shorter (c ∷ s) h = ground (arith, length-after_slash s)

-- With as many rounds as characters, no prefix is left.
strip_loop-social :
    (fuel : ℕ) (s : List ℕ) → length s ≤ fuel → is_antisocial (strip_loop fuel s) ≡ false
unfolding strip_loop
strip_loop-social zero [] h = refl
strip_loop-social zero (c ∷ s) h = absurd (omega arith)
strip_loop-social (suc fuel) s h = elim (Bool-cases (is_antisocial s)) [
  | inl y ↦ rw y (strip_loop-social fuel (after_slash s) (let l = shorter s y in omega arith))
  | inr n ↦ rw n n
]

-- The tests of the code on what is left.
pub passes :
    (file_name : List ℕ)
    → (is_antisocial (strip_antisocial_prefixes file_name) ≡ false)
      × (is_nothing (strip_antisocial_prefixes file_name) ≡ false)
      × (is_dots (strip_antisocial_prefixes file_name) ≡ false)
unfolding strip_antisocial_prefixes
passes s =
    let h = strip_loop-social (length s) s (omega arith) in
    elim (Bool-cases (is_nothing (strip_loop (length s) s) || is_dots (strip_loop (length s) s))) [
      | inl y ↦ rw y (refl, refl, refl)
      | inr n ↦ rw n (h, ground arith, ground arith)
    ]

after_slash-suffix : (s : List ℕ) → (t : List ℕ) × (s ≡ t ++ after_slash s)
after_slash-suffix [] = ([], refl)
after_slash-suffix (c ∷ s) = elim (Bool-cases (c == 47)) [
  | inl y ↦ (c ∷ [], rw y refl)
  | inr n ↦ let (t, e) = after_slash-suffix s in (c ∷ t, rw n (ap (λ r. c ∷ r) e))
]

strip_loop-suffix : (fuel : ℕ) (s : List ℕ) → (t : List ℕ) × (s ≡ t ++ strip_loop fuel s)
unfolding strip_loop
strip_loop-suffix zero s = ([], refl)
strip_loop-suffix (suc fuel) s = elim (Bool-cases (is_antisocial s)) [
  | inl y ↦
      let (t, e) = after_slash-suffix s in
      let (u, d) = strip_loop-suffix fuel (after_slash s) in
      (t ++ u, rw y (e ∙ (ap (λ r. t ++ r) d ∙ sym (append_assoc t u _))))
  | inr n ↦ ([], rw n refl)
]

-- The name that `strip_antisocial_prefixes` returns is "." or an end of the given one; it does not start with "/",
-- with "./" or with "../", it is not empty, and it is not "..".
pub strip_antisocial_prefixes-social :
    (file_name : List ℕ)
    → (((t : List ℕ) × (file_name ≡ t ++ strip_antisocial_prefixes file_name))
        ⊎ (strip_antisocial_prefixes file_name ≡ b'.' ∷ []))
      × ((t : List ℕ) → strip_antisocial_prefixes file_name ≢ b'/' ∷ t)
      × ((t : List ℕ) → strip_antisocial_prefixes file_name ≢ b'.' ∷ b'/' ∷ t)
      × ((t : List ℕ) → strip_antisocial_prefixes file_name ≢ b'.' ∷ b'.' ∷ b'/' ∷ t)
      × (strip_antisocial_prefixes file_name ≢ [])
      × (strip_antisocial_prefixes file_name ≢ b'.' ∷ b'.' ∷ [])
strip_antisocial_prefixes-social s =
    let (a, n, d) = passes s in
    (
      suffix s,
      λ t e. absurd (false_ne_true (sym a ∙ ap is_antisocial e)),
      λ t e. absurd (false_ne_true (sym a ∙ ap is_antisocial e)),
      λ t e. absurd (false_ne_true (sym a ∙ ap is_antisocial e)),
      λ e. absurd (false_ne_true (sym n ∙ ap is_nothing e)),
      λ e. absurd (false_ne_true (sym d ∙ ap is_dots e)),
    )
  where
    false_ne_true : false ≡ true → ⊥
    false_ne_true e = cc

    suffix :
        (s : List ℕ)
        → ((t : List ℕ) × (s ≡ t ++ strip_antisocial_prefixes s))
          ⊎ (strip_antisocial_prefixes s ≡ b'.' ∷ [])
    suffix s =
        unfold strip_antisocial_prefixes in
        (elim (Bool-cases
          (is_nothing (strip_loop (length s) s) || is_dots (strip_loop (length s) s))) [
            | inl y ↦ inr (rw y refl)
            | inr n ↦ inl (let (t, e) = strip_loop-suffix (length s) s in (t, rw n e))
          ])

strip_loop_stays : (fuel : ℕ) (s : List ℕ) → is_antisocial s ≡ false → strip_loop fuel s ≡ s
unfolding strip_loop
strip_loop_stays zero s h = refl
strip_loop_stays (suc fuel) s h = rw h refl

-- Stripping a name again changes nothing.
pub strip_antisocial_prefixes_again :
    (file_name : List ℕ)
    → strip_antisocial_prefixes (strip_antisocial_prefixes file_name)
      ≡ strip_antisocial_prefixes file_name
unfolding strip_antisocial_prefixes
strip_antisocial_prefixes_again s =
    let (a, b, c) = passes s in
    let e =
      strip_loop_stays (length (strip_antisocial_prefixes s)) (strip_antisocial_prefixes s) a in
    rw (e, b, c) refl
