-- ===== src/CString/Copies.antt =====
-- Strings in memory: `strlen`, `strlcpy` and `strchr` of string.c.
use cs162hwproj.Prelude.{
  ℕ, zero, suc, ◌+◌, ◌-◌, ◌≤◌, ◌<◌, ◌≡◌, ◌≢◌, refl, ap, ◌∙◌, true, false, not, ◌⊎◌, inl, inr, some,
  List, [], ◌∷◌, arith, ltb, ◌==◌, if◌then◌else◌, Bool-cases, min, take, length,
}
use cs162hwproj.Prelude.Returns
use cs162hwproj.Prelude.Returns.{Returns, returns}
use cs162hwproj.CString.{Memory, put, strlen_loop, strlen, strlcpy}
use cs162hwproj.CString.Blocks.{Moved, IsReadFirst, memcpy-Moved}

-- The string `s` stands at `p`: its characters, none of them zero, and a zero byte.
abbrev pub IsString : Memory → ℕ → List ℕ → Type 0
IsString mem p [] = mem p ≡ 0
IsString mem p (c ∷ s) = (mem p ≡ c) × (c ≢ 0) × IsString mem (p + 1) s

strlen_loop-length :
    (fuel p : ℕ) (s : List ℕ) (mem : Memory)
    → IsString mem p s
    → length s < fuel
    → strlen_loop fuel p mem ≡ some (p + length s)
unfolding strlen_loop
strlen_loop-length zero p s mem i h = absurd (omega arith)
strlen_loop-length (suc fuel) p [] mem i h = let e : p ≡ p + 0 = omega arith in rw i (ap some e)
strlen_loop-length (suc fuel) p (c ∷ s) mem (e, n, i) h =
    let more : (mem p == 0) ≡ false = ground arith in
    let f : p + 1 + length s ≡ p + suc (length s) = omega arith in
    rw more (strlen_loop-length fuel (p + 1) s mem i (omega arith) ∙ ap some f)

-- `strlen` of a string that is not at the null address, with fuel for more characters than it has, is
-- its length.
pub strlen-length :
    (fuel p : ℕ) (s : List ℕ) (mem : Memory)
    → p ≢ 0
    → IsString mem p s
    → length s < fuel
    → strlen fuel p mem ≡ some (length s)
unfolding strlen
strlen-length fuel p s mem ne i h =
    let a : not (p == 0) ≡ true = ground arith in
    rw (a, strlen_loop-length fuel p s mem i h) (ap some (omega arith))

-- A string whose bytes are copied up to `n` characters, with a zero behind them.
IsString-copy :
    (n dst src : ℕ) (s : List ℕ) (mem mem' : Memory)
    → IsString mem src s
    → n ≤ length s
    → ((k : ℕ) → k < n → mem' (dst + k) ≡ mem (src + k))
    → mem' (dst + n) ≡ 0
    → IsString mem' dst (take n s)
IsString-copy zero dst src s mem mem' i h same end =
    let e : dst + 0 ≡ dst = omega arith in rw e at end
IsString-copy (suc n) dst src [] mem mem' i h same end = absurd (omega arith)
IsString-copy (suc n) dst src (c ∷ s) mem mem' (e, ne, i) h same end =
    let d0 : dst + 0 ≡ dst = omega arith in
    let s0 : src + 0 ≡ src = omega arith in
    let first : mem' (dst + 0) ≡ mem (src + 0) = same 0 (omega arith) in
    let first' : mem' dst ≡ mem src = rw (d0, s0) at first in
    let shift : dst + suc n ≡ dst + 1 + n = omega arith in
    (
      first' ∙ e,
      ne,
      IsString-copy n (dst + 1) (src + 1) s mem mem' i (omega arith)
          (λ k p.
            let a : dst + suc k ≡ dst + 1 + k = omega arith in
            let b : src + suc k ≡ src + 1 + k = omega arith in
            let one : mem' (dst + suc k) ≡ mem (src + suc k) = same (suc k) (omega arith) in
            rw (a, b) at one)
          (rw shift at end),
    )

-- What `strlcpy` leaves: at most `size - 1` characters of the string with a zero byte behind them, and
-- every byte outside the destination as it was.
abbrev pub Copied : Memory → (dst size : ℕ) → List ℕ → ℕ × Memory → Type 0
Copied mem dst size s (r, mem') =
    (r ≡ length s)
    × (0 < size → IsString mem' dst (take (size - 1) s))
    × ((a : ℕ) → (a < dst) ⊎ (dst + size ≤ a) → mem' a ≡ mem a)

take-min : (n m : ℕ) (s : List ℕ) → n ≡ min m (length s) → take n s ≡ take m s
take-min zero zero s e = refl
take-min zero (suc m) [] e = refl
take-min zero (suc m) (c ∷ s) e = absurd (omega arith)
take-min (suc n) zero s e = absurd (omega arith)
take-min (suc n) (suc m) [] e = refl
take-min (suc n) (suc m) (c ∷ s) e = ap (λ l. c ∷ l) (take-min n m s (omega arith))

-- The last write of `strlcpy`, behind the characters that `memcpy` has moved.
terminated-Copied :
    (n dst src size : ℕ) (s : List ℕ) (mem mem' : Memory)
    → IsString mem src s
    → n ≡ min (size - 1) (length s)
    → 0 < size
    → Moved mem dst src n mem'
    → Copied mem dst size s (length s, put mem' (dst + n) 0)
terminated-Copied n dst src size s mem mem' i e z moved = (
  refl,
  (λ _.
      rw (← take-min n (size - 1) s e)
        (IsString-copy n dst src s mem (put mem' (dst + n) 0) i (omega arith) kept zero_end)),
  λ a o. ground (arith, moved a),
)
  where
    kept : (k : ℕ) → k < n → put mem' (dst + n) 0 (dst + k) ≡ mem (src + k)
    kept k h =
        let f : src + (dst + k - dst) ≡ src + k = omega arith in
        let g : mem (src + (dst + k - dst)) ≡ mem (src + k) = ap mem f in
        let m = moved (dst + k) in ground arith

    zero_end : put mem' (dst + n) 0 (dst + n) ≡ 0
    zero_end = ground arith

-- What `strlcpy` takes as the number of characters to copy.
abbrev copied_length : (len size : ℕ) → ℕ
copied_length len size = if ltb len (size - 1) then len else size - 1

-- `strlcpy` of a string to a destination of `size` bytes, where neither address is null, the string
-- lies apart from the destination and the fuel exceeds its length: it returns the length of the
-- string; if `size` is not 0, the destination then holds the first `size - 1` characters of the
-- string, or all if there are fewer, as a string; and no byte outside the destination changes.
pub strlcpy-Copied :
    (fuel dst src size : ℕ) (s : List ℕ) (mem : Memory)
    → dst ≢ 0
    → src ≢ 0
    → IsString mem src s
    → length s < fuel
    → (dst + size ≤ src) ⊎ (src + length s < dst)
    → Returns (Copied mem dst size s) (strlcpy fuel dst src size mem)
unfolding strlcpy
strlcpy-Copied fuel dst src size s mem p q i h apart =
    let a : not (dst == 0) ≡ true = ground arith in
    let b : not (src == 0) ≡ true = ground arith in
    rw (a, b, strlen-length fuel src s mem q i h)
      (elim (Bool-cases (ltb 0 size)) [
        | inr none_ ↦ rw none_ (returns (refl, (λ z. absurd (ground arith)), λ k o. refl))
        | inl room ↦ rw room (
            Returns.bind
              (memcpy-Moved dst src (copied_length (length s) size) mem p q (read_first apart))
              λ (r, mem') (e, moved). returns (
                terminated-Copied (copied_length (length s) size) dst src size s mem mem' i
                  (ground arith) (ground arith) moved))
      ])
  where
    read_first :
        (dst + size ≤ src) ⊎ (src + length s < dst)
        → IsReadFirst dst src (copied_length (length s) size)
    read_first (inl h) = inl (omega arith)
    read_first (inr h) = inr (ground arith)
