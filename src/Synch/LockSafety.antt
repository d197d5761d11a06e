-- ===== src/Synch/LockSafety.antt =====
-- A lock of synch.c is held by one thread at a time, and no wake-up is lost.
use cs162hwproj.Prelude.{
  ◌+◌, ◌%◌, ◌^◌, ◌<◌, ◌≡◌, refl, sym, ◌∙◌, ◌⊎◌, inl, inr, Bool, true, false, Option, none, some,
  List, [], ◌∷◌, arith, ◌==◌, Bool-cases,
}
use cs162hwproj.Prelude.Members.{has, ne_of_has, Distinct, has-append, Distinct-join}
use cs162hwproj.Synch.{Tid, Semaphore, down_round, pop_waiter}
use cs162hwproj.Synch.Lock.{
  Phase, idle, trying, waiting, downed, holding, releasing, System, goes, lock_init, is_self,
  lock_held_by, wake, acquire_down, try_acquire_down, release_up, Step, lock_acquire, sema_down,
  set_holder, lock_try_acquire, lock_release, sema_up_, Reach, here, next,
}

-- Between the unit taken from the semaphore and the unit given back.
abbrev pub inside : Phase → Bool
inside downed = true
inside holding = true
inside releasing = true
inside _ = false

abbrev pub is_holding : Phase → Bool
is_holding holding = true
is_holding _ = false

-- The unit is in the semaphore and no thread is inside, or one thread has it.
pub data Unique (s : System) : Type 0 where
  free : s.semaphore.value ≡ 1 → ((t : Tid) → inside (s.phase t) ≡ false) → Unique s
  taken :
      s.semaphore.value ≡ 0
      → (t : Tid) → inside (s.phase t) ≡ true
      → ((u : Tid) → inside (s.phase u) ≡ true → u ≡ t)
      → Unique s

abbrev pub is_waiting : Phase → Bool
is_waiting waiting = true
is_waiting _ = false

-- The waiters are the blocked threads, each once, and the holder is the thread that holds.
pub record IsQueue (s : System) : Type 0 where
  pub waiting_ : (t : Tid) → has t s.semaphore.waiters ≡ is_waiting (s.phase t)
  pub distinct : Distinct s.semaphore.waiters
  pub holder : (t : Tid) → lock_held_by s t ≡ is_holding (s.phase t)

wake-inside :
    (f : Tid → Phase) (o : Option Tid) (u : Tid)
    → inside (f u) ≡ false
    → inside (wake f o u) ≡ false
wake-inside f none u h = h
wake-inside f (some v) u h = ground arith

Step-Unique : {s u : System} → Step s u → Unique s → Unique u
unfolding acquire_down try_acquire_down release_up
Step-Unique (lock_acquire t p h) (free v all) = free v (λ u. ground (arith, all u))
Step-Unique (lock_acquire t p h) (taken v w i all) =
    taken v w (ground arith) (λ u j. ground (arith, all u))
Step-Unique (sema_down t p) (free v all) =
    taken (ground arith) t (ground arith) (λ u j. ground (arith, all u))
Step-Unique (sema_down t p) (taken v w i all) =
    taken (ground arith) w (ground arith) (λ u j. ground (arith, all u))
Step-Unique (set_holder t p) (free v all) = absurd (ground (arith, all t))
Step-Unique (set_holder t p) (taken v w i all) =
    taken v w (ground arith) (λ u j. ground (arith, all u))
Step-Unique (lock_try_acquire t p h) (free v all) =
    taken (ground arith) t (ground arith) (λ u j. ground (arith, all u))
Step-Unique (lock_try_acquire t p h) (taken v w i all) =
    taken (ground arith) w (ground arith) (λ u j. ground (arith, all u))
Step-Unique (lock_release t p h) (free v all) = absurd (ground (arith, all t))
Step-Unique (lock_release t p h) (taken v w i all) =
    taken v w (ground arith) (λ u j. ground (arith, all u))
Step-Unique (sema_up_ t p) (free v all) = absurd (ground (arith, all t))
Step-Unique {s} (sema_up_ t p) (taken v w i all) =
    free (ground arith)
      λ u. wake-inside (goes s.phase t idle) (pop_waiter s.semaphore.waiters).1 u (outside u)
  where
    mine : t ≡ w
    mine = all t (ground arith)

    outside : (u : Tid) → inside (goes s.phase t idle u) ≡ false
    outside u = elim (Bool-cases (inside (s.phase u))) [
      | inl y ↦ let e = all u y in ground (arith, mine)
      | inr n ↦ ground arith
    ]

down_round-Distinct :
    (t : Tid) (m : Semaphore)
    → Distinct m.waiters
    → has t m.waiters ≡ false
    → Distinct (down_round t m).0.waiters
unfolding down_round
down_round-Distinct t m d n = elim (Bool-cases (m.value == 0)) [
  | inl y ↦ rw y (
      Distinct-join m.waiters (t ∷ []) d (refl, tt)
        (λ p h. ground (arith, ne_of_has p t m.waiters)))
  | inr e ↦ rw e d
]

inside_same :
    {s : System}
    → Unique s
    → (t u : Tid) → inside (s.phase t) ≡ true
    → inside (s.phase u) ≡ true
    → t ≡ u
inside_same (free v all) t u h k = absurd (ground (arith, all t))
inside_same (taken v w i all) t u h k = all t h ∙ sym (all u k)

Step-IsQueue : {s u : System} → Step s u → Unique s → IsQueue s → IsQueue u
unfolding acquire_down try_acquire_down release_up
Step-IsQueue (lock_acquire t p h) unique q = record {
  waiting_ = λ u. ground (arith, q.waiting_ u);
  distinct = q.distinct;
  holder = λ u. ground (arith, q.holder u);
}
Step-IsQueue {s} (sema_down t p) unique q = record {
  waiting_ = λ u. ground (arith, q.waiting_ u, has-append u s.semaphore.waiters (t ∷ []));
  distinct = down_round-Distinct t s.semaphore q.distinct (ground (arith, q.waiting_ t));
  holder = λ u. ground (arith, q.holder u);
}
Step-IsQueue {s} (set_holder t p) unique q = record {
  waiting_ = λ u. ground (arith, q.waiting_ u);
  distinct = q.distinct;
  holder = others;
}
  where
    others : (u : Tid) → is_self (some t) u ≡ is_holding (goes s.phase t holding u)
    others u = elim (Bool-cases (is_holding (s.phase u))) [
      | inl y ↦ let e = inside_same unique t u (ground arith) (ground arith) in ground (arith, e)
      | inr n ↦ ground arith
    ]
Step-IsQueue (lock_try_acquire t p h) unique q = record {
  waiting_ = λ u. ground (arith, q.waiting_ u);
  distinct = ground (arith, q.distinct);
  holder = λ u. ground (arith, q.holder u);
}
Step-IsQueue (lock_release t p h) unique q = record {
  waiting_ = λ u. ground (arith, q.waiting_ u);
  distinct = q.distinct;
  holder = λ u. ground (arith, q.holder u);
}
Step-IsQueue {s} (sema_up_ t p) unique q = released s.semaphore.waiters q.waiting_ q.distinct
  where
    released :
        (w : List Tid)
        → ((u : Tid) → has u w ≡ is_waiting (s.phase u))
        → Distinct w
        → IsQueue (record {
          semaphore = record {
            value = (s.semaphore.value + 1) % 2 ^ 32;
            waiters = (pop_waiter w).0;
          };
          holder = s.holder;
          phase = wake (goes s.phase t idle) (pop_waiter w).1;
        })
    released [] same d = record {
      waiting_ = λ u. ground (arith, same u);
      distinct = d;
      holder = λ u. ground (arith, q.holder u);
    }
    released (v ∷ w) same d = record {
      waiting_ = λ u. ground (arith, same u, d);
      distinct = d.1;
      holder = λ u. ground (arith, q.holder u, same u);
    }

Reach-Unique : {u : System} → Reach lock_init u → Unique u
unfolding lock_init
Reach-Unique here = free refl (λ t. refl)
Reach-Unique (next r m) = Step-Unique m (Reach-Unique r)

Reach-IsQueue : {u : System} → Reach lock_init u → IsQueue u
unfolding lock_init
Reach-IsQueue here = record { waiting_ = λ t. refl; distinct = tt; holder = λ t. refl }
Reach-IsQueue (next r m) = Step-IsQueue m (Reach-Unique r) (Reach-IsQueue r)

-- A unit that is free while a thread is blocked has a thread that is about to try for it.
abbrev pub IsAwake : System → Type 0
IsAwake s =
    s.semaphore.value ≡ 1 → (u : Tid) → s.phase u ≡ waiting → (t : Tid) × (s.phase t ≡ trying)

value_of_inside :
    {s : System} → Unique s → (t : Tid) → inside (s.phase t) ≡ true → s.semaphore.value ≡ 0
value_of_inside (free v all) t i = absurd (ground (arith, all t))
value_of_inside (taken v w j all) t i = v

value_small : {s : System} → Unique s → s.semaphore.value < 2
value_small (free v all) = omega arith
value_small (taken v w j all) = omega arith

Step-IsAwake : {s u : System} → Step s u → Unique s → IsQueue s → IsAwake s → IsAwake u
unfolding acquire_down try_acquire_down release_up
Step-IsAwake (lock_acquire t p h) unique q a = λ v x w. (t, ground arith)
Step-IsAwake (sema_down t p) unique q a = λ v x w. absurd (ground (arith, value_small unique))
Step-IsAwake (set_holder t p) unique q a =
    λ v x w. absurd (ground (arith, value_of_inside unique t))
Step-IsAwake (lock_try_acquire t p h) unique q a =
    λ v x w. absurd (ground (arith, value_small unique))
Step-IsAwake (lock_release t p h) unique q a =
    λ v x w. absurd (ground (arith, value_of_inside unique t))
Step-IsAwake {s} (sema_up_ t p) unique q a = λ v x w. woken s.semaphore.waiters q.waiting_ x w
  where
    woken :
        (l : List Tid)
        → ((u : Tid) → has u l ≡ is_waiting (s.phase u))
        → (x : Tid) → wake (goes s.phase t idle) (pop_waiter l).1 x ≡ waiting
        → (u : Tid) × (wake (goes s.phase t idle) (pop_waiter l).1 u ≡ trying)
    woken [] same x w = absurd (ground (arith, same x))
    woken (y ∷ l) same x w = (y, ground arith)

Reach-IsAwake : {u : System} → Reach lock_init u → IsAwake u
unfolding lock_init
Reach-IsAwake here = λ v x w. absurd (ground arith)
Reach-IsAwake (next r m) = Step-IsAwake m (Reach-Unique r) (Reach-IsQueue r) (Reach-IsAwake r)

-- In every state that the steps of any threads reach from `lock_init`, two threads that are between
-- the end of `sema_down` and the `sema_up` of the release, as the holder is, are the same thread.
pub lock-exclusive :
    {s : System}
    → Reach lock_init s
    → (t u : Tid) → inside (s.phase t) ≡ true
    → inside (s.phase u) ≡ true
    → t ≡ u
lock-exclusive r = inside_same (Reach-Unique r)

-- In every reachable state, `lock_held_by_current_thread` is true of exactly the threads that have
-- come out of `lock_acquire` or a successful `lock_try_acquire` and have not begun a `lock_release`.
pub lock_held_by-Phase :
    {s : System} → Reach lock_init s → (t : Tid) → lock_held_by s t ≡ is_holding (s.phase t)
lock_held_by-Phase r = (Reach-IsQueue r).holder

-- No wake-up is lost: in every reachable state in which a thread is blocked in `sema_down`, some
-- thread is about to try for the unit, or has it.
pub lock-awake :
    {s : System}
    → Reach lock_init s
    → (t : Tid) → s.phase t ≡ waiting
    → (u : Tid) × ((s.phase u ≡ trying) ⊎ (inside (s.phase u) ≡ true))
lock-awake {s} r t w = active (Reach-Unique r) (Reach-IsAwake r)
  where
    active : Unique s → IsAwake s → (u : Tid) × ((s.phase u ≡ trying) ⊎ (inside (s.phase u) ≡ true))
    active (free v all) a = let (u, h) = a v t w in (u, inl h)
    active (taken v u i all) a = (u, inr i)
