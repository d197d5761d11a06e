-- ===== src/Thread/Waiting.antt =====
-- How long a ready thread of thread.c waits for the processor.
use cs162hwproj.Prelude.{
  leb, ℕ, zero, suc, ◌+◌, ◌≡◌, ◌≢◌, refl, sym, ap, ◌∙◌, Bool, true, false, inl, inr, get_elem?,
  none, some, List, [], ◌∷◌, ◌++◌, arith, if◌then◌else◌, Bool-cases, eq_of_some,
}
use cs162hwproj.Thread.{ready, blocked, dying, System, set_status, is_same, without}
use cs162hwproj.Thread.Scheduling.{IsSystem, Chosen}
use cs162hwproj.Thread.Order.{
  leaving, yielding, idling, ran, thread_block-schedule, thread_exit-schedule, thread_yield-idle,
  thread_yield-schedule,
}
use cs162hwproj.Thread.Reachable.{
  Step, block, unblock, yield_, exit, create, tick, idle, Step-IsSystem, Reach, Reach-IsSystem,
  is_given, thread_unblock-result, thread_create-result, thread_tick-some, idle_start-some,
}

-- The steps that give the processor away.
abbrev pub is_switch : {s s' : System} → Step s s' → Bool
is_switch (block e) = true
is_switch (yield_ e) = true
is_switch (exit i e) = true
is_switch (unblock t e) = false
is_switch (create page name priority f e) = false
is_switch (tick e) = false
is_switch (idle i e) = false

-- Steps with `k` switches, none of which leads to `t`.
pub data Waits (t : ℕ) (s : System) : ℕ → System → Type 0 where
  here : Waits t s 0 s
  next :
      {k : ℕ} {s1 s2 : System}
      → Waits t s k s1
      → (x : Step s1 s2) → s2.current ≢ t
      → Waits t s (if is_switch x then suc k else k) s2

get_elem-append :
    (xs ys : List ℕ) (n t : ℕ) → get_elem? xs n ≡ some t → get_elem? (xs ++ ys) n ≡ some t
get_elem-append [] ys n t e = cc
get_elem-append (x ∷ xs) ys zero t e = e
get_elem-append (x ∷ xs) ys (suc n) t e = get_elem-append xs ys n t e

-- The index of a thread in the run queue behind a switch.
moved_up :
    (x s' : System) (t n : ℕ)
    → Chosen x s'.current s'.ready_list
    → s'.current ≢ t
    → get_elem? x.ready_list n ≡ some t
    → (m : ℕ) × (suc m ≡ n) × (get_elem? s'.ready_list m ≡ some t)
moved_up x s' t n c ne e = elim c [
  | inl q ↦ up n (rw q at e)
  | inr (q, r, i) ↦
      let z : none ≡ some t = rw q at e in absurd (let w : false ≡ true = ap is_given z in cc)
]
  where
    up :
        (n : ℕ)
        → get_elem? (s'.current ∷ s'.ready_list) n ≡ some t
        → (m : ℕ) × (suc m ≡ n) × (get_elem? s'.ready_list m ≡ some t)
    up zero e = absurd (ne (eq_of_some e))
    up (suc m) e = (m, refl, e)

Step-turn :
    {s s' : System} (h : IsSystem s) (x : Step s s') (t n : ℕ)
    → get_elem? s.ready_list n ≡ some t
    → s'.current ≢ t
    → (m : ℕ) × ((if is_switch x then suc m else m) ≡ n) × (get_elem? s'.ready_list m ≡ some t)
Step-turn {s} {s'} h (block e) t n g ne =
    moved_up (set_status s.current (some blocked) s) s' t n
      (ran (leaving h blocked s.all_list refl refl (λ i. refl))
        (sym (thread_block-schedule h) ∙ e)).1
      ne g
Step-turn {s} {s'} h (exit i e) t n g ne =
    moved_up (set_status s.current (some dying) s) s' t n
      (ran (leaving h dying (without s.current s.all_list) refl refl (λ j. absurd (ground arith)))
        (sym (thread_exit-schedule h) ∙ e)).1
      ne g
Step-turn {s} {s'} h (yield_ e) t n g ne = elim (Bool-cases (is_same s.idle_thread s.current)) [
  | inl i ↦
      moved_up (set_status s.current (some ready) s) s' t n
        (ran (idling h i) (sym (thread_yield-idle h i) ∙ e)).1 ne g
  | inr i ↦
      moved_up
        (set_status s.current (some ready)
          (record s { ready_list = s.ready_list ++ (s.current ∷ []) }))
        s' t n (ran (yielding h) (sym (thread_yield-schedule h i) ∙ e)).1 ne
        (get_elem-append s.ready_list (s.current ∷ []) n t g)
]
Step-turn {s} {s'} h (unblock u e) t n g ne =
    let (i, l) = thread_unblock-result h u s' e in
    (n, refl, rw l (get_elem-append s.ready_list (u ∷ []) n t g))
Step-turn {s} {s'} h (create page name priority f e) t n g ne =
    elim ((thread_create-result h page name priority f e).1) [
      | inl l ↦ (n, refl, rw l g)
      | inr l ↦ (n, refl, rw l (get_elem-append s.ready_list (page ∷ []) n t g))
    ]
Step-turn {s} {s'} h (tick {late = late} e) t n g ne =
    let q : (leb 4 (s.thread_ticks + 1), record s { thread_ticks = s.thread_ticks + 1 })
        ≡ (late, s') =
      eq_of_some (sym (thread_tick-some h) ∙ e) in
    let l : s.ready_list ≡ s'.ready_list = ap (λ x. x.1.ready_list) q in (n, refl, rw (← l) g)
Step-turn {s} {s'} h (idle i e) t n g ne =
    let q : record s { idle_thread = some s.current } ≡ s' =
      eq_of_some (sym (idle_start-some h) ∙ e) in
    let l : s.ready_list ≡ s'.ready_list = ap (λ x. x.ready_list) q in (n, refl, rw (← l) g)

-- A thread that is at index `n` of the run queue in a state that the threads reach moves up by one place with every switch that
-- does not lead to it, whatever steps are in between: behind `k` such switches it is at index `n - k`. So it runs
-- with switch `n + 1` at the latest.
pub Waits-turn :
    {page : ℕ} {s s' : System} {t n k : ℕ}
    → Reach page s
    → get_elem? s.ready_list n ≡ some t
    → Waits t s k s'
    → (m : ℕ) × (m + k ≡ n) × (get_elem? s'.ready_list m ≡ some t)
Waits-turn {page} {s} {s'} {t} {n} r g w = (turn (Reach-IsSystem r) g w).1
  where
    counted :
        (b : Bool) (m' m k : ℕ)
        → (if b then suc m' else m') ≡ m
        → m + k ≡ n
        → m' + (if b then suc k else k) ≡ n
    counted true m' m k f e = omega arith
    counted false m' m k f e = omega arith

    turn :
        {s' : System} {k : ℕ}
        → IsSystem s
        → get_elem? s.ready_list n ≡ some t
        → Waits t s k s'
        → IsSystem s' × ((m : ℕ) × (m + k ≡ n) × (get_elem? s'.ready_list m ≡ some t))
    turn {s'} h g here = (h, (n, omega arith, g))
    turn {s'} h g (next {k} {s1} w x ne) =
        let (i, (m, e, q)) = turn h g w in
        let (m', f, q') = Step-turn i x t m q ne in
        (Step-IsSystem i x, (m', counted (is_switch x) m' m k f e, q'))
