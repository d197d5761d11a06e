-- ===== src/Stdio/Buffer.antt =====
-- `vsnprintf` of stdio.c: what of the text comes into the buffer.
use cs162hwproj.Prelude.{
  ℕ, suc, ◌+◌, ◌-◌, ◌%◌, ◌^◌, ◌<◌, ◌≤◌, ◌≡◌, refl, ap, ◌∙◌, ◌⊎◌, Bool, true, false, ◌&&◌, inl, inr,
  some, List, [], ◌∷◌, arith, ltb, leb, ◌==◌, if◌then◌else◌, Bool-cases, length, get_or, min,
}
use cs162hwproj.CString.{Memory, put}
use cs162hwproj.Stdio.Printf.{Aux, int_lt, vsnprintf_helper, output_all, vsnprintf, vprintf}

-- The memory `mem`, with the first `n` characters of the text at `p`.
abbrev pub stored : (p n : ℕ) → List ℕ → Memory → Memory
stored p n text mem = λ q. if leb p q && ltb q (p + n) then get_or text (q - p) 0 else mem q

-- The helper without the bounds of `int`.
unfoldable plain_helper : ℕ → Aux → Aux
plain_helper ch aux =
    let aux' = record aux { length = aux.length + 1 } in
    if ltb aux.length aux.max_length
    then record aux' { mem = put aux.mem aux.p ch; p = aux.p + 1 }
    else aux'

unfoldable plain_all : List ℕ → Aux → Aux
plain_all [] aux = aux
plain_all (ch ∷ text) aux = plain_all text (plain_helper ch aux)

int_lt-ltb : (a b : ℕ) → a < 2 ^ 31 → b < 2 ^ 31 → int_lt a b ≡ ltb a b
int_lt-ltb a b h k =
    let e : (a + 2 ^ 31) % 2 ^ 32 ≡ a + 2 ^ 31 = omega arith in
    let e' : (b + 2 ^ 31) % 2 ^ 32 ≡ b + 2 ^ 31 = omega arith in rw (e, e') (ground arith)

helper-plain :
    (ch : ℕ) (aux : Aux)
    → aux.length < 2 ^ 31
    → aux.max_length < 2 ^ 31
    → vsnprintf_helper ch aux ≡ plain_helper ch aux
unfolding vsnprintf_helper plain_helper
helper-plain ch aux h k =
    let e : (aux.length + 1) % 2 ^ 32 ≡ aux.length + 1 = omega arith in
    rw (int_lt-ltb aux.length aux.max_length h k, e) refl

plain_helper-length : (ch : ℕ) (aux : Aux) → (plain_helper ch aux).length ≡ aux.length + 1
unfolding plain_helper
plain_helper-length ch aux = ground arith

plain_helper-max_length : (ch : ℕ) (aux : Aux) → (plain_helper ch aux).max_length ≡ aux.max_length
unfolding plain_helper
plain_helper-max_length ch aux = ground arith

output_all-plain :
    (text : List ℕ) (aux : Aux)
    → aux.length + length text < 2 ^ 31
    → aux.max_length < 2 ^ 31
    → output_all text aux ≡ plain_all text aux
unfolding output_all plain_all
output_all-plain [] aux h k = refl
output_all-plain (ch ∷ text) aux h k =
    ap (output_all text) (helper-plain ch aux (omega arith) k)
    ∙ output_all-plain text (plain_helper ch aux) (omega (arith, plain_helper-length ch aux))
        (omega (arith, plain_helper-max_length ch aux))

plain_all-length :
    (text : List ℕ) (aux : Aux) → (plain_all text aux).length ≡ aux.length + length text
unfolding plain_all plain_helper
plain_all-length [] aux = omega arith
plain_all-length (ch ∷ text) aux =
    let i = plain_all-length text (plain_helper ch aux) in ground (arith, i)

plain_all-p :
    (text : List ℕ) (aux : Aux)
    → (plain_all text aux).p ≡ aux.p + min (length text) (aux.max_length - aux.length)
unfolding plain_all plain_helper
plain_all-p [] aux = omega arith
plain_all-p (ch ∷ text) aux = let i = plain_all-p text (plain_helper ch aux) in ground (arith, i)

stored-suc :
    (p n ch : ℕ) (text : List ℕ) (mem : Memory) (q : ℕ)
    → stored (p + 1) n text (put mem p ch) q ≡ stored p (suc n) (ch ∷ text) mem q
stored-suc p n ch text mem q = elim (Bool-cases (leb (p + 1) q)) [
  | inl y ↦ let e : q - p ≡ suc (q - (p + 1)) = ground arith in rw e (ground arith)
  | inr k ↦ ground arith
]

abbrev with_char : ℕ → Aux → Aux
with_char ch aux = record aux { length = aux.length + 1; mem = put aux.mem aux.p ch; p = aux.p + 1 }

helper_room :
    (ch : ℕ) (aux : Aux)
    → ltb aux.length aux.max_length ≡ true
    → plain_helper ch aux ≡ with_char ch aux
unfolding plain_helper
helper_room ch aux y = rw y refl

helper_full :
    (ch : ℕ) (aux : Aux)
    → ltb aux.length aux.max_length ≡ false
    → plain_helper ch aux ≡ record aux { length = aux.length + 1 }
unfolding plain_helper
helper_full ch aux k = rw k refl

plain_all-mem :
    (text : List ℕ) (aux : Aux) (q : ℕ)
    → (plain_all text aux).mem q
      ≡ stored aux.p (min (length text) (aux.max_length - aux.length)) text aux.mem q
unfolding plain_all
plain_all-mem [] aux q = ground arith
plain_all-mem (ch ∷ text) aux q = elim (Bool-cases (ltb aux.length aux.max_length)) [
  | inl y ↦
      let n = min (length text) (aux.max_length - (aux.length + 1)) in
      let e : suc n ≡ min (suc (length text)) (aux.max_length - aux.length) = ground arith in
      ap (λ (a : Aux). (plain_all text a).mem q) (helper_room ch aux y)
      ∙ (plain_all-mem text (with_char ch aux) q
          ∙ (stored-suc aux.p n ch text aux.mem q
              ∙ ap (λ n. stored aux.p n (ch ∷ text) aux.mem q) e))
  | inr k ↦
      let full = record aux { length = aux.length + 1 } in
      let e : min (suc (length text)) (aux.max_length - aux.length) ≡ 0 = ground arith in
      let e' : min (length text) (aux.max_length - (aux.length + 1)) ≡ 0 = ground arith in
      ap (λ (a : Aux). (plain_all text a).mem q) (helper_full ch aux k)
      ∙ (plain_all-mem text full q ∙ rw (e, e') (nothing aux.p q text (ch ∷ text) aux.mem))
]
  where
    nothing : (p q : ℕ) (t t' : List ℕ) (mem : Memory) → stored p 0 t mem q ≡ stored p 0 t' mem q
    nothing p q t t' mem = ground arith

-- What `vsnprintf` does to a byte: the text, cut to leave room for a zero byte, and that byte.
abbrev pub printed : (buffer buf_size : ℕ) → List ℕ → Memory → Memory
printed buffer buf_size text mem = λ q.
    let n = min (length text) (buf_size - 1) in
    if ltb 0 buf_size && (q == buffer + n) then 0 else stored buffer n text mem q

abbrev pub entry_aux : (buffer buf_size : ℕ) → Memory → Aux
entry_aux buffer buf_size mem = record {
  p = buffer;
  length = 0;
  max_length = buf_size - 1;
  mem = mem;
}

abbrev terminated : (buf_size : ℕ) → Aux → Memory
terminated buf_size aux = if ltb 0 buf_size then put aux.mem aux.p 0 else aux.mem

terminated-printed :
    (buffer buf_size : ℕ) (text : List ℕ) (mem : Memory) (q : ℕ)
    → terminated buf_size (plain_all text (entry_aux buffer buf_size mem)) q
      ≡ printed buffer buf_size text mem q
terminated-printed buffer buf_size text mem q =
    let aux0 = entry_aux buffer buf_size mem in
    let n = min (length text) (buf_size - 1) in
    let e : min (length text) (buf_size - 1 - 0) ≡ n = omega arith in
    let m = plain_all-mem text aux0 q ∙ ap (λ n. stored buffer n text mem q) e in
    let p = plain_all-p text aux0 ∙ ap (λ n. buffer + n) e in
    elim (Bool-cases (ltb 0 buf_size)) [ inl y ↦ rw (y, p, m) refl | inr k ↦ rw (k, m) refl ]

outside :
    (buffer buf_size : ℕ) (text : List ℕ) (mem : Memory) (q : ℕ)
    → (q < buffer) ⊎ (buffer + buf_size ≤ q)
    → printed buffer buf_size text mem q ≡ mem q
outside buffer buf_size text mem q o = ground arith

-- For a buffer of at most 2^31 bytes and a text of less than 2^31 characters, the numbers that an `int` counts: if the
-- conversions put out that text, `vsnprintf` returns its whole length, and the memory behind it is the text, cut
-- to one character less than the size of the buffer, with a zero byte behind it; no byte outside of the buffer is
-- changed, and none at all if its size is zero.
pub vsnprintf-printed :
    (fpu : (d power : ℕ) → ℕ × ℕ × Bool) (buffer buf_size : ℕ) (format args : List ℕ) (mem : Memory)
    (text : List ℕ)
    → buf_size ≤ 2 ^ 31
    → length text < 2 ^ 31
    → vprintf fpu mem format args ≡ some text
    → (mem' : Memory) × (vsnprintf fpu buffer buf_size format args mem ≡ some (length text, mem'))
      × ((q : ℕ) → mem' q ≡ printed buffer buf_size text mem q)
      × ((q : ℕ) → (q < buffer) ⊎ (buffer + buf_size ≤ q) → mem' q ≡ mem q)
unfolding vsnprintf
vsnprintf-printed fpu buffer buf_size format args mem text b t e =
    let aux = plain_all text (entry_aux buffer buf_size mem) in
    let l : aux.length ≡ length text =
      plain_all-length text (entry_aux buffer buf_size mem) ∙ omega arith in
    let m : (if ltb 0 buf_size then (buf_size - 1) % 2 ^ 32 else 0) ≡ buf_size - 1 = ground arith in
    let o =
      output_all-plain text (entry_aux buffer buf_size mem) (omega (arith, t)) (omega arith) in
    let all = terminated-printed buffer buf_size text mem in
    (
      terminated buf_size aux,
      rw (e, m, o, l) refl,
      all,
      λ q o. all q ∙ outside buffer buf_size text mem q o,
    )
