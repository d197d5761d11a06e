-- ===== src/Intq.antt =====
-- group0/src/devices/intq.c: the ring buffer of bytes between threads and interrupt handlers. A call
-- is taken up to the point where it returns or its thread blocks; a woken thread calls again. The
-- lock around `wait`, which lets one thread at a time wait, is not modelled.
pub mod Fifo
use cs162hwproj.Prelude.{
  ℕ, ◌+◌, ◌%◌, Bool, true, false, not, Option, none, some, List, ◌==◌, if◌then◌else◌, get_or, set,
  replicate, ◌>>=◌, ◌>>◌, assert,
}

abbrev pub intq_bufsize : ℕ
intq_bufsize = 64

-- A waiting thread is its number.
pub record Intq : Type 0 where
  pub not_full : Option ℕ
  pub not_empty : Option ℕ
  pub buf : List ℕ
  pub head : ℕ
  pub tail : ℕ

-- How a call leaves: its thread blocks, or it has its result and has woken a thread.
pub data Outcome (A : Type 0) : Type 0 where
  blocked : Outcome A
  finished : A → Option ℕ → Outcome A

abbrev pub next : ℕ → ℕ
next pos = (pos + 1) % intq_bufsize

unfoldable pub intq_init : List ℕ → Intq
intq_init buf = record { not_full = none; not_empty = none; buf = buf; head = 0; tail = 0 }

abbrev pub intq_empty : Intq → Bool
intq_empty q = q.head == q.tail

abbrev pub intq_full : Intq → Bool
intq_full q = next q.head == q.tail

-- `wait` for `not_empty`, of thread `t`, and for `not_full`.
abbrev pub wait_not_empty : Bool → ℕ → Intq → Option Intq
wait_not_empty in_handler t q =
    assert (not in_handler) >> assert (intq_empty q) >> some (record q { not_empty = some t })

abbrev pub wait_not_full : Bool → ℕ → Intq → Option Intq
wait_not_full in_handler t q =
    assert (not in_handler) >> assert (intq_full q) >> some (record q { not_full = some t })

-- `signal`, with the thread that it wakes.
abbrev pub signal_not_empty : Intq → Option (Intq × Option ℕ)
signal_not_empty q =
    assert (not (intq_empty q)) >> some (record q { not_empty = none }, q.not_empty)

abbrev pub signal_not_full : Intq → Option (Intq × Option ℕ)
signal_not_full q = assert (not (intq_full q)) >> some (record q { not_full = none }, q.not_full)

-- A call in an interrupt handler, or by thread `t`.
unfoldable pub intq_getc : Bool → ℕ → Intq → Option (Intq × Outcome ℕ)
intq_getc in_handler t q =
    if intq_empty q
    then (do assert (not in_handler); q1 ← wait_not_empty in_handler t q; some (q1, blocked))
    else let byte = get_or q.buf q.tail 0 in
      do
        (q2, woken) ← signal_not_full (record q { tail = next q.tail })
        some (q2, finished byte woken)

unfoldable pub intq_putc : Bool → ℕ → Intq → ℕ → Option (Intq × Outcome (Unit {0}))
intq_putc in_handler t q byte =
    if intq_full q
    then (do assert (not in_handler); q1 ← wait_not_full in_handler t q; some (q1, blocked))
    else do
      (q2, woken) ← signal_not_empty (record q { buf = set q.buf q.head byte; head = next q.head })
      some (q2, finished tt woken)
