-- ===== src/Synch/RwLock.antt =====
-- The readers-writers lock of synch.c. Every part of a call between taking the guard lock and giving
-- it up, at its end or in `cond_wait`, is one step; a thread that was signalled comes back for
-- another. A condition variable is the list of the threads that wait on it, the next one first.
pub mod Counts
pub mod Safety
use cs162hwproj.Prelude.{
  ℕ, ◌+◌, ◌-◌, ◌≡◌, Bool, true, false, ◌&&◌, List, [], ◌∷◌, ◌++◌, ltb, ◌==◌, if◌then◌else◌, arith,
}
use cs162hwproj.Prelude.Members.{has}
use cs162hwproj.Synch.{Tid}

-- `struct rw_lock`, less the guard lock. The counters do not leave the range of `int`.
pub record RwLock : Type 0 where
  pub read : List Tid
  pub write : List Tid
  pub ar : ℕ
  pub wr : ℕ
  pub aw : ℕ
  pub ww : ℕ

unfoldable pub rw_lock_init : RwLock
rw_lock_init = record { read = []; write = []; ar = 0; wr = 0; aw = 0; ww = 0 }

-- What is left of the waiters, and the threads that are woken.
abbrev pub cond_signal : List Tid → List Tid × List Tid
cond_signal [] = ([], [])
cond_signal (t ∷ ts) = (ts, t ∷ [])

abbrev pub cond_broadcast : List Tid → List Tid × List Tid
cond_broadcast [] = ([], [])
cond_broadcast (t ∷ ts) = let (rest, woken) = cond_broadcast ts in (rest, t ∷ woken)

-- One test of the loop in `rw_lock_acquire` by thread `t`, as a reader or as a writer: it waits, or
-- it is through.
unfoldable pub acquire_round : (reader : Bool) → Tid → RwLock → RwLock × Bool
acquire_round true t rw =
    if ltb 0 (rw.aw + rw.ww)
    then (record rw { wr = rw.wr + 1; read = rw.read ++ t ∷ [] }, false)
    else (record rw { ar = rw.ar + 1 }, true)
acquire_round false t rw =
    if ltb 0 (rw.ar + rw.aw)
    then (record rw { ww = rw.ww + 1; write = rw.write ++ t ∷ [] }, false)
    else (record rw { aw = rw.aw + 1 }, true)

-- Behind `cond_wait`.
unfoldable pub leave_wait : (reader : Bool) → RwLock → RwLock
leave_wait true rw = record rw { wr = rw.wr - 1 }
leave_wait false rw = record rw { ww = rw.ww - 1 }

abbrev pub signal_write : RwLock → RwLock × List Tid
signal_write rw = let (rest, woken) = cond_signal rw.write in (record rw { write = rest }, woken)

abbrev pub broadcast_read : RwLock → RwLock × List Tid
broadcast_read rw = let (rest, woken) = cond_broadcast rw.read in (record rw { read = rest }, woken)

-- `rw_lock_release`, with the threads that it wakes.
unfoldable pub rw_lock_release : (reader : Bool) → RwLock → RwLock × List Tid
rw_lock_release true rw =
    let less = record rw { ar = rw.ar - 1 } in
    if (less.ar == 0) && ltb 0 less.ww then signal_write less else (less, [])
rw_lock_release false rw =
    let less = record rw { aw = rw.aw - 1 } in
    if ltb 0 less.ww
    then signal_write less
    else if ltb 0 less.wr
    then broadcast_read less
    else (less, [])

-- Where a thread is: outside; in `cond_wait`, not yet or already signalled; or with the lock.
pub data Phase : Type 0 where
  outside : Phase
  waiting woken active : (reader : Bool) → Phase

pub record System : Type 0 where
  pub rw : RwLock
  pub phase : Tid → Phase

abbrev pub goes : (Tid → Phase) → Tid → Phase → Tid → Phase
goes f t p u = if u == t then p else f u

abbrev pub signalled : Phase → Phase
signalled (waiting reader) = woken reader
signalled outside = outside
signalled (woken reader) = woken reader
signalled (active reader) = active reader

abbrev pub wake_all : (Tid → Phase) → List Tid → Tid → Phase
wake_all f ts u = if has u ts then signalled (f u) else f u

unfoldable pub try_round : (reader : Bool) → Tid → RwLock → (Tid → Phase) → System
unfolding acquire_round
try_round reader t rw f =
    let (rw', through) = acquire_round reader t rw in
    record { rw = rw'; phase = goes f t (if through then active reader else waiting reader) }

unfoldable pub release : (reader : Bool) → Tid → System → System
unfolding rw_lock_release
release reader t s =
    let (rw', ts) = rw_lock_release reader s.rw in
    record { rw = rw'; phase = wake_all (goes s.phase t outside) ts }

unfoldable pub rw_start : System
unfolding rw_lock_init
rw_start = record { rw = rw_lock_init; phase = λ t. outside }

pub data Step (s : System) : System → Type 0 where
  begin_acquire :
      (reader : Bool) (t : Tid) → s.phase t ≡ outside → Step s (try_round reader t s.rw s.phase)
  resume_acquire :
      (reader : Bool) (t : Tid)
      → s.phase t ≡ woken reader
      → Step s (try_round reader t (leave_wait reader s.rw) s.phase)
  rw_release : (reader : Bool) (t : Tid) → s.phase t ≡ active reader → Step s (release reader t s)

pub data Reach (s : System) : System → Type 0 where
  here : Reach s s
  next : {t u : System} → Reach s t → Step t u → Reach s u
