-- ===== src/Synch.antt =====
-- group0/src/threads/synch.c: semaphores and locks. What runs with interrupts off is one step; a
-- thread can be interrupted between such steps. A thread is its number.
pub mod Lock
pub mod LockSafety
pub mod RwLock
use cs162hwproj.Prelude.{
  ℕ, ◌+◌, ◌-◌, ◌%◌, ◌^◌, Bool, true, false, Option, none, some, List, [], ◌∷◌, ◌++◌, ltb, ◌==◌,
  if◌then◌else◌,
}

abbrev pub Tid : Type 0
Tid = ℕ

-- `struct semaphore`; the first waiter is the first to be woken.
pub record Semaphore : Type 0 where
  pub value : ℕ
  pub waiters : List Tid

unfoldable pub sema_init : ℕ → Semaphore
sema_init value = record { value = value; waiters = [] }

-- One round of the loop in `sema_down` for thread `t`, with interrupts off: it takes a unit and is
-- through, or it is put behind the waiters and blocks.
unfoldable pub down_round : Tid → Semaphore → Semaphore × Bool
down_round t s =
    if s.value == 0
    then (record s { waiters = s.waiters ++ t ∷ [] }, false)
    else (record s { value = s.value - 1 }, true)

unfoldable pub sema_try_down : Semaphore → Semaphore × Bool
sema_try_down s = if ltb 0 s.value then (record s { value = s.value - 1 }, true) else (s, false)

abbrev pub pop_waiter : List Tid → List Tid × Option Tid
pop_waiter [] = ([], none)
pop_waiter (t ∷ ts) = (ts, some t)

-- The second part of the result is the thread that `thread_unblock` makes ready.
unfoldable pub sema_up : Semaphore → Semaphore × Option Tid
sema_up s =
    let (rest, woken) = pop_waiter s.waiters in
    (record { value = (s.value + 1) % 2 ^ 32; waiters = rest }, woken)
