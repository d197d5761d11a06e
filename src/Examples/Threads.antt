-- ===== src/Examples/Threads.antt =====
-- thread.c with the thread that starts and two that it creates.
use cs162hwproj.Prelude.{ℕ, ◌+◌, ◌≡◌, refl, Option, some, none, [], ◌∷◌, arith, get_elem?}
use cs162hwproj.Thread.{
  System, Tid, fifo, thread_init, thread_create, init_thread, allocate_tid, thread_unblock,
  thread_enqueue, thread_yield, thread_current, schedule, next_thread_to_run, thread_switch_tail,
}
use cs162hwproj.Thread.Scheduling.{IsSystem}
use cs162hwproj.Thread.Reachable.{Reach, start, step, create, yield_, Reach-IsSystem}
use cs162hwproj.Thread.Waiting.{Waits, here, next, Waits-turn}

abbrev empty : System
empty = record {
  status = λ t. none;
  threads = λ t. record { tid = 0; name = []; priority = 0 };
  ready_list = [];
  all_list = [];
  current = 0;
  idle_thread = none;
  initial_thread = 0;
  next_tid = 0;
  thread_ticks = 0;
  policy = fifo;
}

abbrev result : Option System → System
result none = empty
result (some s) = s

abbrev created : Option (Option Tid × System) → System
created none = empty
created (some (tid, s)) = s

abbrev started : System
started = result (thread_init 4096 fifo)

abbrev one_more : System
one_more = created (thread_create 8192 (97 ∷ []) 31 started)

abbrev two_more : System
two_more = created (thread_create 12288 (98 ∷ []) 31 one_more)

abbrev yielded : System
yielded = result (thread_yield two_more)

reached : Reach 4096 two_more
unfolding thread_init init_thread allocate_tid thread_create thread_unblock thread_enqueue
reached =
    step (step (start refl) (create {tid = some 2} 8192 (97 ∷ []) 31 refl refl))
      (create {tid = some 3} 12288 (98 ∷ []) 31 refl refl)

one_switch : Waits 12288 two_more 1 yielded
unfolding thread_init init_thread allocate_tid thread_create thread_unblock thread_enqueue
    thread_yield thread_current schedule next_thread_to_run thread_switch_tail
one_switch = next here (yield_ refl) (λ e. absurd (omega arith))

Reach-IsSystem_example : IsSystem two_more
Reach-IsSystem_example = Reach-IsSystem reached

Waits-turn_example : (m : ℕ) × (m + 1 ≡ 1) × (get_elem? yielded.ready_list m ≡ some 12288)
unfolding thread_init init_thread allocate_tid thread_create thread_unblock thread_enqueue
    thread_yield thread_current schedule next_thread_to_run thread_switch_tail
Waits-turn_example = Waits-turn {n = 1} reached refl one_switch
