-- ===== src/Shell/Segments.antt =====
-- The parts of a line between its pipe symbols, and what the searches of hw-shell/shell.c find of them.
use cs162hwproj.Prelude.{
  ℕ, suc, ◌+◌, ◌≤◌, ◌≡◌, refl, ap, ◌∙◌, inl, inr, none, some, List, [], ◌∷◌, arith, if◌then◌else◌,
  Bool-cases, length, take, drop,
}
use cs162hwproj.Shell.{Token, is_pipe, find_loop}

-- A line is a first segment and those behind the pipe symbols.
abbrev pub split : Token → List Token × List (List Token) → List Token × List (List Token)
split t (s, ss) = if is_pipe t then ([], s ∷ ss) else (t ∷ s, ss)

abbrev pub segments : List Token → List Token × List (List Token)
segments [] = ([], [])
segments (t ∷ tokens) = split t (segments tokens)

pub find_none :
    (tokens : List Token) (i : ℕ)
    → (segments tokens).1 ≡ []
    → (find_loop tokens i (b'|' ∷ []) ≡ none) × ((segments tokens).0 ≡ tokens)
unfolding find_loop
find_none [] i h = (refl, refl)
find_none (t ∷ tokens) i h = elim (Bool-cases (is_pipe t)) [
  | inl y ↦ absurd (ground (arith, rw y at h))
  | inr n ↦
      let (f, e) = find_none tokens (i + 1) (rw n at h) in (rw n f, rw n (ap (λ ts. t ∷ ts) e))
]

-- Where the first pipe symbol stands, counted from the start.
pub record Pipe (tokens : List Token) (s : List Token) (ss : List (List Token)) (i : ℕ)
    : Type 0 where
  pub at : ℕ
  pub found : find_loop tokens i (b'|' ∷ []) ≡ some (i + at)
  pub before : take at tokens ≡ (segments tokens).0
  pub behind : segments (drop (suc at) tokens) ≡ (s, ss)
  pub inside : suc at ≤ length tokens

pub find_some :
    (tokens : List Token) (i : ℕ) (s : List Token) (ss : List (List Token))
    → (segments tokens).1 ≡ s ∷ ss
    → Pipe tokens s ss i
unfolding find_loop
find_some [] i s ss h = absurd (cc)
find_some (t ∷ tokens) i s ss h = elim (Bool-cases (is_pipe t)) [
  | inl y ↦
      let (e, e') : ((segments tokens).0 ≡ s) × ((segments tokens).1 ≡ ss) =
        let h' = rw y at h in (cc, cc) in
      record {
        at = 0;
        found = rw y (ap (λ j. some j) (omega arith));
        before = rw y refl;
        behind = λ j. (e j, e' j);
        inside = omega arith;
      }
  | inr n ↦
      let p = find_some tokens (i + 1) s ss (rw n at h) in
      record {
        at = suc p.at;
        found = rw n (p.found ∙ ap (λ j. some j) (omega arith));
        before = rw n (ap (λ ts. t ∷ ts) p.before);
        behind = p.behind;
        inside = omega (arith, p.inside);
      }
]
