-- ===== src/Synch/RwLock/Counts.antt =====
-- The number of threads with a property, of which only finitely many have it.
use cs162hwproj.Prelude.{
  ℕ, ◌+◌, ◌-◌, ◌<◌, ◌≤◌, ◌≡◌, refl, sym, ◌∙◌, Bool, true, false, not, ◌&&◌, ◌||◌, List, [], ◌∷◌,
  ◌==◌, if◌then◌else◌, length, arith,
}
use cs162hwproj.Prelude.Members.{has, Distinct}
use cs162hwproj.Synch.{Tid}

-- Exactly `n` threads satisfy `p`.
pub record Counted (p : Tid → Bool) (n : ℕ) : Type 0 where
  pub members : List Tid
  pub distinct : Distinct members
  pub exact : (t : Tid) → has t members ≡ p t
  pub size : length members ≡ n

pub Counted-none : Counted (λ t. false) 0
Counted-none = record { members = []; distinct = tt; exact = λ t. refl; size = refl }

abbrev pub without : Tid → List Tid → List Tid
without t [] = []
without t (x ∷ xs) = if t == x then xs else x ∷ without t xs

has-without :
    (t u : Tid) (xs : List Tid) → Distinct xs → has u (without t xs) ≡ (not (u == t) && has u xs)
has-without t u [] d = ground arith
has-without t u (x ∷ xs) d = ground (arith, has-without t u xs)

Distinct-without : (t : Tid) (xs : List Tid) → Distinct xs → Distinct (without t xs)
Distinct-without t [] d = tt
Distinct-without t (x ∷ xs) d = ground (arith, Distinct-without t xs, has-without t x xs)

length-without : (t : Tid) (xs : List Tid) → has t xs ≡ true → length (without t xs) + 1 ≡ length xs
length-without t [] h = absurd (ground arith)
length-without t (x ∷ xs) h = ground (arith, length-without t xs)

module _ {p q : Tid → Bool} {n : ℕ} (c : Counted p n) where
  pub Counted-same : ((u : Tid) → q u ≡ p u) → Counted q n
  Counted-same e = record {
    members = c.members;
    distinct = c.distinct;
    exact = λ u. c.exact u ∙ sym (e u);
    size = c.size;
  }

  pub Counted-join :
      (t : Tid) → p t ≡ false → ((u : Tid) → q u ≡ ((u == t) || p u)) → Counted q (n + 1)
  Counted-join t h e = record {
    members = t ∷ c.members;
    distinct = (c.exact t ∙ h, c.distinct);
    exact = λ u. ground (arith, c.exact u, e u);
    size = omega (arith, c.size);
  }

  pub Counted-leave :
      (t : Tid) → p t ≡ true → ((u : Tid) → q u ≡ (not (u == t) && p u)) → Counted q (n - 1)
  Counted-leave t h e = record {
    members = without t c.members;
    distinct = Distinct-without t c.members c.distinct;
    exact = λ u. has-without t u c.members c.distinct ∙ ground (arith, c.exact u, e u);
    size = let l = length-without t c.members (c.exact t ∙ h) in omega (arith, c.size);
  }

module _ {p : Tid → Bool} {n : ℕ} (c : Counted p n) where
  -- Two of the threads that one counts are one.
  pub Counted-unique : n ≤ 1 → (t u : Tid) → p t ≡ true → p u ≡ true → t ≡ u
  Counted-unique small t u h k = one c.members c.size (c.exact t ∙ h) (c.exact u ∙ k)
    where
      one : (l : List Tid) → length l ≡ n → has t l ≡ true → has u l ≡ true → t ≡ u
      one [] e a b = absurd (ground arith)
      one (x ∷ []) e a b = ground arith
      one (x ∷ y ∷ l) e a b = absurd (omega arith)

  pub Counted-positive : (t : Tid) → p t ≡ true → 0 < n
  Counted-positive t h = some_member c.members c.size (c.exact t ∙ h)
    where
      some_member : (l : List Tid) → length l ≡ n → has t l ≡ true → 0 < n
      some_member [] e a = absurd (ground arith)
      some_member (x ∷ l) e a = omega arith
