-- ===== src/Intq/Fifo.antt =====
-- The queue that the ring buffer of intq.c stands for, and its operations as those of a queue.
use cs162hwproj.Prelude.{
  ℕ, zero, suc, ◌+◌, ◌-◌, ◌%◌, ◌≤◌, ◌<◌, ◌≡◌, ◌≢◌, refl, sym, ap, ◌∙◌, inl, inr, Bool, true, false,
  none, some, List, [], ◌∷◌, ◌++◌, arith, ◌==◌, get_or, set, length, length-set, get_or-set_self,
  get_or-set_ne, Bool-cases,
}
use cs162hwproj.Prelude.Returns.{Returns, returns}
use mathlib.Core.Path.{subst}
use cs162hwproj.Intq.{
  Intq, Outcome, blocked, finished, next, intq_init, intq_empty, intq_full, intq_getc, intq_putc,
}

pub record IsValid (q : Intq) : Type 0 where
  pub room : length q.buf ≡ 64
  pub head_small : q.head < 64
  pub tail_small : q.tail < 64

-- The `n` bytes from position `pos` on, round the end of the buffer.
abbrev pub window : List ℕ → ℕ → ℕ → List ℕ
window buf pos zero = []
window buf pos (suc n) = get_or buf pos 0 ∷ window buf (next pos) n

abbrev pub count : Intq → ℕ
count q = (q.head + 64 - q.tail) % 64

-- The bytes in the queue, the oldest first.
abbrev pub contents : Intq → List ℕ
contents q = window q.buf q.tail (count q)

length-window : (buf : List ℕ) (pos n : ℕ) → length (window buf pos n) ≡ n
length-window buf pos zero = refl
length-window buf pos (suc n) = ap suc (length-window buf (next pos) n)

window-set :
    (buf : List ℕ) (pos n k b : ℕ)
    → pos < 64
    → n ≤ k
    → k < 64
    → window (set buf ((pos + k) % 64) b) pos n ≡ window buf pos n
window-set buf pos zero k b p m h = refl
window-set buf pos (suc n) k b p m h =
    let ne : (pos + k) % 64 ≢ pos = omega arith in
    let e : (pos + k) % 64 ≡ (next pos + (k - 1)) % 64 = omega arith in
    let ih = window-set buf (next pos) n (k - 1) b (omega arith) (omega arith) (omega arith) in
    let rest : window (set buf ((pos + k) % 64) b) (next pos) n ≡ window buf (next pos) n =
      subst (λ x. window (set buf x b) (next pos) n ≡ window buf (next pos) n) (sym e) ih in
    rw (rest) (ap (◌∷ window buf (next pos) n) (get_or-set_ne buf ((pos + k) % 64) pos b 0 ne))

window_last :
    (buf : List ℕ) (pos n : ℕ)
    → pos < 64
    → window buf pos (suc n) ≡ window buf pos n ++ get_or buf ((pos + n) % 64) 0 ∷ []
window_last buf pos zero p = let e : (pos + 0) % 64 ≡ pos = omega arith in rw (e) refl
window_last buf pos (suc n) p =
    let e : (pos + suc n) % 64 ≡ (next pos + n) % 64 = omega arith in
    rw (e) (ap (get_or buf pos 0 ∷◌) (window_last buf (next pos) n (omega arith)))

-- What `intq_getc` does: on an empty queue the thread blocks and is the one that waits; else it takes
-- the oldest byte and wakes the thread that waits for room.
abbrev pub Got : Intq → ℕ → Intq × Outcome ℕ → Type 0
Got q t (r, blocked) = (contents q ≡ []) × (r ≡ record q { not_empty = some t })
Got q t (r, finished byte woken) =
    IsValid r
    × (contents q ≡ byte ∷ contents r)
    × (woken ≡ q.not_full)
    × (r.not_full ≡ none)
    × (r.not_empty ≡ q.not_empty)

abbrev pub Put : Intq → ℕ → ℕ → Intq × Outcome (Unit {0}) → Type 0
Put q t byte (r, blocked) = (length (contents q) ≡ 63) × (r ≡ record q { not_full = some t })
Put q t byte (r, finished done woken) =
    IsValid r
    × (contents r ≡ contents q ++ byte ∷ [])
    × (woken ≡ q.not_empty)
    × (r.not_empty ≡ none)
    × (r.not_full ≡ q.not_full)

contents_nil : (q : Intq) → IsValid q → intq_empty q ≡ true → contents q ≡ []
contents_nil q v e = let h = v.head_small in let z : count q ≡ 0 = ground arith in rw z refl

contents_cons :
    (q : Intq)
    → IsValid q
    → intq_empty q ≡ false
    → contents q ≡ get_or q.buf q.tail 0 ∷ contents (record q { tail = next q.tail })
contents_cons q v e =
    let h = v.head_small in
    let l = v.tail_small in
    let ne : q.head ≢ q.tail = ground arith in
    let z : count q ≡ suc ((q.head + 64 - next q.tail) % 64) = omega arith in rw z refl

contents_snoc :
    (q : Intq) (byte : ℕ)
    → IsValid q
    → intq_full q ≡ false
    → contents (record q { buf = set q.buf q.head byte; head = next q.head })
      ≡ contents q ++ byte ∷ []
contents_snoc q byte v e =
    let h = v.head_small in
    let l = v.tail_small in
    let ne : next q.head ≢ q.tail = ground arith in
    let z : (next q.head + 64 - q.tail) % 64 ≡ suc (count q) = omega arith in
    let at : (q.tail + count q) % 64 ≡ q.head = omega arith in
    let same : window (set q.buf q.head byte) q.tail (count q) ≡ contents q =
      subst (λ x. window (set q.buf x byte) q.tail (count q) ≡ contents q) at
        (window-set q.buf q.tail (count q) (count q) byte l (omega arith) (omega arith)) in
    let last : get_or (set q.buf q.head byte) ((q.tail + count q) % 64) 0 ≡ byte =
      rw at (get_or-set_self q.buf q.head byte 0 (let r = v.room in omega arith)) in
    rw (z, window_last (set q.buf q.head byte) q.tail (count q) l, same, last) refl

full-length : (q : Intq) → IsValid q → intq_full q ≡ true → length (contents q) ≡ 63
full-length q v e =
    let h = v.head_small in
    let l = v.tail_small in
    let m : next q.head ≡ q.tail = ground arith in
    let z : count q ≡ 63 = omega arith in length-window q.buf q.tail (count q) ∙ z

-- In a thread, or in a handler when the queue holds a byte, `intq_getc` on a valid queue ends without
-- a failed assertion. It blocks, with the thread noted as the one that waits, only when the queue is
-- empty; else it takes the oldest byte off the queue, keeps the order of the others, and wakes the
-- thread that waits for room.
pub intq_getc-Got :
    {q : Intq} (v : IsValid q) (in_handler : Bool) (t : ℕ)
    → (in_handler ≡ true → contents q ≢ [])
    → Returns (Got q t) (intq_getc in_handler t q)
unfolding intq_getc
intq_getc-Got {q} v in_handler t busy = elim (Bool-cases (intq_empty q)) [
  | inl y ↦
      let nil = contents_nil q v y in
      let thread : in_handler ≡ false = ground (arith, busy) in
      rw y (rw thread (returns (nil, refl)))
  | inr n ↦
      let h = v.head_small in
      let l = v.tail_small in
      let ne : q.head ≢ q.tail = ground arith in
      let room : (next q.head == next q.tail) ≡ false = ground arith in
      rw n (
        rw room (
          returns (
            record { room = v.room; head_small = h; tail_small = omega arith },
            contents_cons q v n,
            refl,
            refl,
            refl,
          )))
]

-- In a thread, or in a handler when the queue holds fewer than 63 bytes, `intq_putc` on a valid queue
-- ends without a failed assertion. It blocks, with the thread noted as the one that waits, only when
-- the queue holds 63 bytes; else it puts the byte behind the others and wakes the thread that waits
-- for one.
pub intq_putc-Put :
    {q : Intq} (v : IsValid q) (in_handler : Bool) (t byte : ℕ)
    → (in_handler ≡ true → length (contents q) ≢ 63)
    → Returns (Put q t byte) (intq_putc in_handler t q byte)
unfolding intq_putc
intq_putc-Put {q} v in_handler t byte room = elim (Bool-cases (intq_full q)) [
  | inl y ↦
      let full = full-length q v y in
      let thread : in_handler ≡ false = ground (arith, room) in
      rw y (rw thread (returns (full, refl)))
  | inr n ↦
      let h = v.head_small in
      let l = v.tail_small in
      let ne : next q.head ≢ q.tail = ground arith in
      rw n (
        returns (
          record {
            room = length-set q.buf q.head byte ∙ v.room;
            head_small = omega arith;
            tail_small = l;
          },
          contents_snoc q byte v n,
          refl,
          refl,
          refl,
        ))
]

-- `intq_init` on a buffer of 64 bytes gives a valid queue that holds nothing.
intq_init-contents :
    (buf : List ℕ) → length buf ≡ 64 → IsValid (intq_init buf) × (contents (intq_init buf) ≡ [])
unfolding intq_init
intq_init-contents buf e =
    (record { room = e; head_small = omega arith; tail_small = omega arith }, refl)
