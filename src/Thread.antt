-- ===== src/Thread.antt =====
-- group0/src/threads/thread.c: threads, and which of them runs. A thread is the address of its page. The calls
-- run with interrupts off, so that each is one step up to the switch to another thread.
pub mod Order
pub mod Scheduling
pub mod Reachable
pub mod Waiting
use cs162hwproj.Prelude.{
  ℕ, zero, suc, ◌+◌, ◌^◌, ◌%◌, ◌≡◌, Bool, true, false, not, ◌&&◌, Option, none, some, List, [], ◌∷◌,
  ◌++◌, ltb, leb, ◌==◌, if◌then◌else◌, take, ◌>>=◌, ◌>>◌, assert,
}

abbrev pub Tid : Type 0
Tid = ℕ

pub data Status : Type 0 where
  running ready blocked dying : Status

abbrev pub is_status : Status → Status → Bool
is_status running running = true
is_status ready ready = true
is_status blocked blocked = true
is_status dying dying = true
is_status _ _ = false

-- `enum sched_policy`, and the other values of the jump table's index.
pub data Policy : Type 0 where
  fifo prio fair mlfqs reserved : Policy

-- The members of `struct thread` that do not change its state.
pub record Thread : Type 0 where
  pub tid : ℕ
  pub name : List ℕ
  pub priority : ℕ

-- The state of thread.c. `status` is none where there is no thread, and `current` is the running thread.
pub record System : Type 0 where
  pub status : ℕ → Option Status
  pub threads : ℕ → Thread
  pub ready_list : List ℕ
  pub all_list : List ℕ
  pub current : ℕ
  pub idle_thread : Option ℕ
  pub initial_thread : ℕ
  pub next_tid : ℕ
  pub thread_ticks : ℕ
  pub policy : Policy

abbrev pub pri_max : ℕ
pri_max = 63

abbrev pub pri_default : ℕ
pri_default = 31

abbrev pub time_slice : ℕ
time_slice = 4

abbrev pub set_status : (t : ℕ) → Option Status → System → System
set_status t st s = record s { status = λ u. if u == t then st else s.status u }

abbrev pub has_status : Status → Option Status → Bool
has_status st none = false
has_status st (some x) = is_status st x

abbrev pub is_thread : ℕ → System → Bool
is_thread t s = elim (s.status t) [ none ↦ false | some st ↦ true ]

abbrev pub is_same : Option ℕ → ℕ → Bool
is_same none t = false
is_same (some u) t = u == t

unfoldable pub thread_current : System → Option ℕ
thread_current s = do assert (has_status running (s.status s.current)); some s.current

-- `init_thread`, with a `tid` that is given behind it; the page is cleared.
unfoldable pub init_thread : (t : ℕ) → (name : List ℕ) → (priority : ℕ) → System → Option System
init_thread t name priority s = do
  assert (leb priority pri_max)
  some (record s {
    status = λ u. if u == t then some blocked else s.status u;
    threads = λ u.
        if u == t
        then record { tid = 0; name = take 15 name; priority = priority }
        else s.threads u;
    all_list = s.all_list ++ (t ∷ []);
  })

unfoldable pub allocate_tid : System → ℕ × System
allocate_tid s = (s.next_tid, record s { next_tid = (s.next_tid + 1) % 2 ^ 32 })

abbrev pub set_tid : (t tid : ℕ) → System → System
set_tid t tid s = record s {
  threads = λ u. if u == t then record (s.threads u) { tid = tid } else s.threads u;
}

-- The thread whose stack the code runs on is at `page`; "main" is its name.
unfoldable pub thread_init : (page : ℕ) → Policy → Option System
unfolding init_thread allocate_tid
thread_init page policy = do
  let empty : System = record {
    status = λ t. none;
    threads = λ t. record { tid = 0; name = []; priority = 0 };
    ready_list = [];
    all_list = [];
    current = page;
    idle_thread = none;
    initial_thread = page;
    next_tid = 1;
    thread_ticks = 0;
    policy = policy;
  }
  s ← init_thread page (109 ∷ 97 ∷ 105 ∷ 110 ∷ []) pri_default empty
  let (tid, s') = allocate_tid (set_status page (some running) s)
  some (set_tid page tid s')

abbrev pub enqueue_by : Policy → (t : ℕ) → System → Option System
enqueue_by fifo t s = some (record s { ready_list = s.ready_list ++ (t ∷ []) })
enqueue_by prio t s = none
enqueue_by fair t s = none
enqueue_by mlfqs t s = none
enqueue_by reserved t s = none

unfoldable pub thread_enqueue : (t : ℕ) → System → Option System
thread_enqueue t s = do assert (is_thread t s); enqueue_by s.policy t s

-- `list_pop_front` of the run queue, if it is not empty.
abbrev pub pop_ready : List ℕ → System → Option ℕ × System
pop_ready (t ∷ rest) s = (some t, record s { ready_list = rest })
pop_ready [] s = (s.idle_thread, s)

abbrev pub thread_schedule_fifo : System → Option ℕ × System
thread_schedule_fifo s = pop_ready s.ready_list s

abbrev pub scheduler_jump_table : Policy → System → Option (Option ℕ × System)
scheduler_jump_table fifo s = some (thread_schedule_fifo s)
scheduler_jump_table prio s = none
scheduler_jump_table fair s = none
scheduler_jump_table mlfqs s = none
scheduler_jump_table reserved s = none

unfoldable pub next_thread_to_run : System → Option (Option ℕ × System)
next_thread_to_run s = scheduler_jump_table s.policy s

-- `prev` is the thread that the switch has left, if there was a switch.
unfoldable pub thread_switch_tail : (prev : Option ℕ) → System → Option System
thread_switch_tail prev s =
    let s' = record (set_status s.current (some running) s) { thread_ticks = 0 } in
    elim prev [
      | none ↦ some s'
      | some p ↦
          if has_status dying (s'.status p) && not (p == s'.initial_thread)
          then (assert (not (p == s'.current)) >> some (set_status p none s'))
          else some s'
    ]

unfoldable pub schedule : System → Option System
unfolding next_thread_to_run thread_switch_tail
schedule s = do
  (next, s1) ← next_thread_to_run s
  assert (not (has_status running (s1.status s1.current)))
  n ← next
  assert (is_thread n s1)
  thread_switch_tail (if s1.current == n then none else some s1.current) (record s1 { current = n })

unfoldable pub thread_block : System → Option System
unfolding thread_current schedule
thread_block s = do cur ← thread_current s; schedule (set_status cur (some blocked) s)

unfoldable pub thread_unblock : (t : ℕ) → System → Option System
unfolding thread_enqueue
thread_unblock t s = do
  assert (is_thread t s)
  assert (has_status blocked (s.status t))
  s' ← thread_enqueue t s
  some (set_status t (some ready) s')

unfoldable pub thread_yield : System → Option System
unfolding thread_current thread_enqueue schedule
thread_yield s = do
  cur ← thread_current s
  s' ← if is_same s.idle_thread cur then some s else thread_enqueue cur s
  schedule (set_status cur (some ready) s')

-- `list_remove` of the thread that is in the list.
abbrev pub without : ℕ → List ℕ → List ℕ
without t [] = []
without t (u ∷ us) = if u == t then us else u ∷ without t us

unfoldable pub thread_exit : System → Option System
unfolding thread_current schedule
thread_exit s = do
  cur ← thread_current s
  schedule (set_status cur (some dying) (record s { all_list = without cur s.all_list }))

-- `page` is what the page allocator gives, 0 for none; a result of none is `TID_ERROR`.
unfoldable pub thread_create :
    (page : ℕ) → (name : List ℕ) → (priority : ℕ) → System → Option (Option Tid × System)
unfolding init_thread allocate_tid
thread_create page name priority s = if page == 0 then some (none, s) else (do
  s1 ← init_thread page name priority s
  let (tid, s2) = allocate_tid s1
  s3 ← thread_unblock page (set_tid page tid s2)
  some (some tid, s3))

-- Whether the running thread is to yield on the return from the interrupt. The statistics are left out.
unfoldable pub thread_tick : System → Option (Bool × System)
unfolding thread_current
thread_tick s = do
  t ← thread_current s
  let ticks = s.thread_ticks + 1
  some (leb time_slice ticks, record s { thread_ticks = ticks })

-- The start of `idle`.
unfoldable pub idle_start : System → Option System
unfolding thread_current
idle_start s = do t ← thread_current s; some (record s { idle_thread = some t })

unfoldable pub thread_tid : System → Option Tid
unfolding thread_current
thread_tid s = do t ← thread_current s; some (s.threads t).tid

unfoldable pub thread_get_priority : System → Option ℕ
unfolding thread_current
thread_get_priority s = do t ← thread_current s; some (s.threads t).priority

unfoldable pub thread_set_priority : ℕ → System → Option System
unfolding thread_current
thread_set_priority new_priority s = do
  t ← thread_current s
  some (record s {
    threads = λ u. if u == t then record (s.threads u) { priority = new_priority } else s.threads u;
  })
