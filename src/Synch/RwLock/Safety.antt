-- ===== src/Synch/RwLock/Safety.antt =====
-- The counters of the readers-writers lock of synch.c, and who may have it at the same time.
use cs162hwproj.Prelude.{
  ℕ, ◌+◌, ◌-◌, ◌≡◌, refl, ap, ◌⊎◌, inl, inr, Bool, true, false, ◌&&◌, List, [], ltb, ◌==◌, same,
  arith, Bool-cases,
}
use cs162hwproj.Synch.{Tid}
use cs162hwproj.Synch.RwLock.{
  RwLock, cond_signal, cond_broadcast, leave_wait, rw_lock_release, Phase, outside, waiting, woken,
  active, System, goes, signalled, wake_all, try_round, release, rw_start, Step, begin_acquire,
  resume_acquire, rw_release, Reach, here, next,
}
use cs162hwproj.Synch.RwLock.Counts.{
  Counted, Counted-none, Counted-same, Counted-join, Counted-leave, Counted-unique,
  Counted-positive,
}

abbrev pub is_active : (reader : Bool) → Phase → Bool
is_active reader (active r) = same reader r
is_active reader outside = false
is_active reader (waiting r) = false
is_active reader (woken r) = false

-- In `cond_wait`.
abbrev pub is_queued : (reader : Bool) → Phase → Bool
is_queued reader (waiting r) = same reader r
is_queued reader (woken r) = same reader r
is_queued reader outside = false
is_queued reader (active r) = false

-- Each counter is the number of the threads that it is about, and a writer is alone.
pub record IsCounted (l : RwLock) (f : Tid → Phase) : Type 0 where
  pub readers : Counted (λ t. is_active true (f t)) l.ar
  pub writers : Counted (λ t. is_active false (f t)) l.aw
  pub read_waits : Counted (λ t. is_queued true (f t)) l.wr
  pub write_waits : Counted (λ t. is_queued false (f t)) l.ww
  pub exclusive : (l.aw ≡ 0) ⊎ ((l.aw ≡ 1) × (l.ar ≡ 0))

module _ (P : Phase → Bool) (f : Tid → Phase) (t : Tid) (p : Phase) {n : ℕ}
    (c : Counted (λ u. P (f u)) n) where
  goes_same : P p ≡ P (f t) → Counted (λ u. P (goes f t p u)) n
  goes_same e = Counted-same c (λ u. ground arith)

  goes_join : P (f t) ≡ false → P p ≡ true → Counted (λ u. P (goes f t p u)) (n + 1)
  goes_join h k = Counted-join c t h (λ u. ground arith)

  goes_leave : P (f t) ≡ true → P p ≡ false → Counted (λ u. P (goes f t p u)) (n - 1)
  goes_leave h k = Counted-leave c t h (λ u. ground arith)

signalled-is_active : (r : Bool) (p : Phase) → is_active r (signalled p) ≡ is_active r p
signalled-is_active r outside = refl
signalled-is_active r (waiting q) = refl
signalled-is_active r (woken q) = refl
signalled-is_active r (active q) = refl

signalled-is_queued : (r : Bool) (p : Phase) → is_queued r (signalled p) ≡ is_queued r p
signalled-is_queued r outside = refl
signalled-is_queued r (waiting q) = refl
signalled-is_queued r (woken q) = refl
signalled-is_queued r (active q) = refl

IsCounted-same :
    {l : RwLock} {f g : Tid → Phase} → ((u : Tid) → g u ≡ f u) → IsCounted l f → IsCounted l g
IsCounted-same e c = record {
  readers = Counted-same c.readers (λ u. ap (is_active true) (e u));
  writers = Counted-same c.writers (λ u. ap (is_active false) (e u));
  read_waits = Counted-same c.read_waits (λ u. ap (is_queued true) (e u));
  write_waits = Counted-same c.write_waits (λ u. ap (is_queued false) (e u));
  exclusive = c.exclusive;
}

-- Waking threads that wait changes no count, whatever is left on the two condition variables.
wake_all-IsCounted :
    {l : RwLock} {f : Tid → Phase} (r w ts : List Tid)
    → IsCounted l f
    → IsCounted (record l { read = r; write = w }) (wake_all f ts)
wake_all-IsCounted {l} {f} r w ts c = record {
  readers = Counted-same c.readers (λ u. ground (arith, signalled-is_active true (f u)));
  writers = Counted-same c.writers (λ u. ground (arith, signalled-is_active false (f u)));
  read_waits = Counted-same c.read_waits (λ u. ground (arith, signalled-is_queued true (f u)));
  write_waits = Counted-same c.write_waits (λ u. ground (arith, signalled-is_queued false (f u)));
  exclusive = c.exclusive;
}

-- A round of a thread that is outside.
try_round-IsCounted :
    {l : RwLock} {f : Tid → Phase} (reader : Bool) (t : Tid)
    → f t ≡ outside
    → IsCounted l f
    → IsCounted (try_round reader t l f).rw (try_round reader t l f).phase
unfolding try_round
try_round-IsCounted {l} {f} true t e c = elim (Bool-cases (ltb 0 (l.aw + l.ww))) [
  | inl busy ↦ rw busy (record {
    readers = goes_same (is_active true) f t (waiting true) c.readers (ground arith);
    writers = goes_same (is_active false) f t (waiting true) c.writers (ground arith);
    read_waits = goes_join (is_queued true) f t (waiting true) c.read_waits (ground arith) refl;
    write_waits = goes_same (is_queued false) f t (waiting true) c.write_waits (ground arith);
    exclusive = c.exclusive;
  })
  | inr quiet ↦ rw quiet (record {
    readers = goes_join (is_active true) f t (active true) c.readers (ground arith) refl;
    writers = goes_same (is_active false) f t (active true) c.writers (ground arith);
    read_waits = goes_same (is_queued true) f t (active true) c.read_waits (ground arith);
    write_waits = goes_same (is_queued false) f t (active true) c.write_waits (ground arith);
    exclusive = inl (ground arith);
  })
]
try_round-IsCounted {l} {f} false t e c = elim (Bool-cases (ltb 0 (l.ar + l.aw))) [
  | inl busy ↦ rw busy (record {
    readers = goes_same (is_active true) f t (waiting false) c.readers (ground arith);
    writers = goes_same (is_active false) f t (waiting false) c.writers (ground arith);
    read_waits = goes_same (is_queued true) f t (waiting false) c.read_waits (ground arith);
    write_waits = goes_join (is_queued false) f t (waiting false) c.write_waits (ground arith) refl;
    exclusive = c.exclusive;
  })
  | inr quiet ↦ rw quiet (record {
    readers = goes_same (is_active true) f t (active false) c.readers (ground arith);
    writers = goes_join (is_active false) f t (active false) c.writers (ground arith) refl;
    read_waits = goes_same (is_queued true) f t (active false) c.read_waits (ground arith);
    write_waits = goes_same (is_queued false) f t (active false) c.write_waits (ground arith);
    exclusive = inr (ground arith, ground arith);
  })
]

-- A thread that comes back from `cond_wait`, as one that is outside.
leave_wait-IsCounted :
    {l : RwLock} {f : Tid → Phase} (reader : Bool) (t : Tid)
    → f t ≡ woken reader
    → IsCounted l f
    → IsCounted (leave_wait reader l) (goes f t outside)
unfolding leave_wait
leave_wait-IsCounted {l} {f} true t e c = record {
  readers = goes_same (is_active true) f t outside c.readers (ground arith);
  writers = goes_same (is_active false) f t outside c.writers (ground arith);
  read_waits = goes_leave (is_queued true) f t outside c.read_waits (ground arith) refl;
  write_waits = goes_same (is_queued false) f t outside c.write_waits (ground arith);
  exclusive = c.exclusive;
}
leave_wait-IsCounted {l} {f} false t e c = record {
  readers = goes_same (is_active true) f t outside c.readers (ground arith);
  writers = goes_same (is_active false) f t outside c.writers (ground arith);
  read_waits = goes_same (is_queued true) f t outside c.read_waits (ground arith);
  write_waits = goes_leave (is_queued false) f t outside c.write_waits (ground arith) refl;
  exclusive = c.exclusive;
}

rw_lock_release-IsCounted :
    {l : RwLock} {f : Tid → Phase} (reader : Bool) (t : Tid)
    → f t ≡ active reader
    → IsCounted l f
    → IsCounted
        (rw_lock_release reader l).0
        (wake_all (goes f t outside) (rw_lock_release reader l).1)
unfolding rw_lock_release
rw_lock_release-IsCounted {l} {f} true t e c = elim (Bool-cases ((l.ar - 1 == 0) && ltb 0 l.ww)) [
  | inl y ↦ rw y (wake_all-IsCounted l.read (cond_signal l.write).0 (cond_signal l.write).1 less)
  | inr n ↦ rw n (wake_all-IsCounted l.read l.write [] less)
]
  where
    less : IsCounted (record l { ar = l.ar - 1 }) (goes f t outside)
    less = record {
      readers = goes_leave (is_active true) f t outside c.readers (ground arith) refl;
      writers = goes_same (is_active false) f t outside c.writers (ground arith);
      read_waits = goes_same (is_queued true) f t outside c.read_waits (ground arith);
      write_waits = goes_same (is_queued false) f t outside c.write_waits (ground arith);
      exclusive = ground arith;
    }
rw_lock_release-IsCounted {l} {f} false t e c = elim (Bool-cases (ltb 0 l.ww)) [
  | inl y ↦ rw y (wake_all-IsCounted l.read (cond_signal l.write).0 (cond_signal l.write).1 less)
  | inr n ↦ rw n (elim (Bool-cases (ltb 0 l.wr)) [
    | inl y ↦
        rw y (wake_all-IsCounted (cond_broadcast l.read).0 l.write (cond_broadcast l.read).1 less)
    | inr m ↦ rw m (wake_all-IsCounted l.read l.write [] less)
  ])
]
  where
    less : IsCounted (record l { aw = l.aw - 1 }) (goes f t outside)
    less = record {
      readers = goes_same (is_active true) f t outside c.readers (ground arith);
      writers = goes_leave (is_active false) f t outside c.writers (ground arith) refl;
      read_waits = goes_same (is_queued true) f t outside c.read_waits (ground arith);
      write_waits = goes_same (is_queued false) f t outside c.write_waits (ground arith);
      exclusive = inl (ground arith);
    }

Step-IsCounted : {s u : System} → Step s u → IsCounted s.rw s.phase → IsCounted u.rw u.phase
unfolding release try_round
Step-IsCounted (begin_acquire reader t e) c = try_round-IsCounted reader t e c
Step-IsCounted {s} (resume_acquire reader t e) c =
    IsCounted-same (λ u. overwritten u)
      (try_round-IsCounted reader t (ground arith) (leave_wait-IsCounted reader t e c))
  where
    overwritten :
        (u : Tid)
        → (try_round reader t (leave_wait reader s.rw) s.phase).phase u
          ≡ (try_round reader t (leave_wait reader s.rw) (goes s.phase t outside)).phase u
    overwritten u = ground arith
Step-IsCounted {s} (rw_release reader t e) c = rw_lock_release-IsCounted reader t e c

-- In every state that the steps of any threads reach from `rw_lock_init`: AR and AW are the numbers of
-- the threads that have the lock as readers and as writers, WR and WW are the numbers of those in
-- `cond_wait` as readers and as writers, and AW is 0, or it is 1 and AR is 0.
pub Reach-IsCounted : {s : System} → Reach rw_start s → IsCounted s.rw s.phase
unfolding rw_start
Reach-IsCounted here = record {
  readers = Counted-none;
  writers = Counted-none;
  read_waits = Counted-none;
  write_waits = Counted-none;
  exclusive = inl refl;
}
Reach-IsCounted (next r m) = Step-IsCounted m (Reach-IsCounted r)

-- In every reachable state, a thread that has the lock as a writer is the only one that has it: any
-- thread that has it, as a reader or as a writer, is the same thread.
pub rw-exclusive :
    {s : System}
    → Reach rw_start s
    → (t u : Tid) (reader : Bool) → s.phase t ≡ active false
    → s.phase u ≡ active reader
    → t ≡ u
rw-exclusive {s} r t u reader h k = together (Reach-IsCounted r)
  where
    together : IsCounted s.rw s.phase → t ≡ u
    together c =
        let w = Counted-positive c.writers t (ground arith) in
        elim (Bool-cases reader) [
          | inl y ↦ absurd (
              let p = Counted-positive c.readers u (ground arith) in
              let e = c.exclusive in ground arith)
          | inr n ↦
              Counted-unique c.writers (let e = c.exclusive in ground arith) t u (ground arith)
                (ground arith)
        ]
