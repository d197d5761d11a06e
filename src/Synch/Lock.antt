-- ===== src/Synch/Lock.antt =====
-- Threads that use one lock of synch.c, as steps that interleave in any order.
use cs162hwproj.Prelude.{◌≡◌, Bool, true, false, Option, none, some, ◌==◌, if◌then◌else◌}
use cs162hwproj.Synch.{Tid, Semaphore, sema_init, down_round, sema_try_down, sema_up}

-- Where a thread is: outside; in the loop of `sema_down`; blocked there; past it, but not yet the
-- holder; holder; and in `lock_release` after the holder is reset.
pub data Phase : Type 0 where
  idle trying waiting downed holding releasing : Phase

-- `struct lock`, and the phase of every thread.
pub record System : Type 0 where
  pub semaphore : Semaphore
  pub holder : Option Tid
  pub phase : Tid → Phase

abbrev pub goes : (Tid → Phase) → Tid → Phase → Tid → Phase
goes f t p u = if u == t then p else f u

-- `lock_init`, with all threads outside.
unfoldable pub lock_init : System
unfolding sema_init
lock_init = record { semaphore = sema_init 1; holder = none; phase = λ t. idle }

abbrev pub is_self : Option Tid → Tid → Bool
is_self none t = false
is_self (some u) t = u == t

abbrev pub lock_held_by : System → Tid → Bool
lock_held_by s t = is_self s.holder t

-- A woken thread goes on with the loop of `sema_down`.
abbrev pub wake : (Tid → Phase) → Option Tid → Tid → Phase
wake f none = f
wake f (some u) = goes f u trying

unfoldable pub acquire_down : Tid → System → System
unfolding down_round
acquire_down t s =
    let (sema, through) = down_round t s.semaphore in
    record s { semaphore = sema; phase = goes s.phase t (if through then downed else waiting) }

unfoldable pub try_acquire_down : Tid → System → System
unfolding sema_try_down
try_acquire_down t s =
    let (sema, success) = sema_try_down s.semaphore in
    record s { semaphore = sema; phase = goes s.phase t (if success then downed else idle) }

unfoldable pub release_up : Tid → System → System
unfolding sema_up
release_up t s =
    let (sema, woken) = sema_up s.semaphore in
    record s { semaphore = sema; phase = wake (goes s.phase t idle) woken }

-- The atomic parts of `lock_acquire`, `lock_try_acquire` and `lock_release`, each with the
-- assertion that it makes.
pub data Step (s : System) : System → Type 0 where
  lock_acquire :
      (t : Tid)
      → s.phase t ≡ idle
      → lock_held_by s t ≡ false
      → Step s (record s { phase = goes s.phase t trying })
  sema_down : (t : Tid) → s.phase t ≡ trying → Step s (acquire_down t s)
  set_holder :
      (t : Tid)
      → s.phase t ≡ downed
      → Step s (record s { holder = some t; phase = goes s.phase t holding })
  lock_try_acquire :
      (t : Tid) → s.phase t ≡ idle → lock_held_by s t ≡ false → Step s (try_acquire_down t s)
  lock_release :
      (t : Tid)
      → s.phase t ≡ holding
      → lock_held_by s t ≡ true
      → Step s (record s { holder = none; phase = goes s.phase t releasing })
  sema_up_ : (t : Tid) → s.phase t ≡ releasing → Step s (release_up t s)

pub data Reach (s : System) : System → Type 0 where
  here : Reach s s
  next : {t u : System} → Reach s t → Step t u → Reach s u
