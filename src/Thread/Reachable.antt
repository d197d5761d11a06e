-- ===== src/Thread/Reachable.antt =====
-- The steps of the threads of thread.c in any order, and the states that they reach.
use cs162hwproj.Prelude.{
  leb, ℕ, ◌+◌, ◌≡◌, refl, ◌⊎◌, sym, ap, ◌∙◌, Bool, true, false, inl, inr, Option, none, some, List,
  [], ◌∷◌, ◌++◌, arith, ◌==◌, if◌then◌else◌, Bool-cases, eq_of_some, ◌>>=◌,
}
use cs162hwproj.Prelude.Returns
use cs162hwproj.Prelude.Returns.{Returns, returns}
use cs162hwproj.Thread.{
  Tid, Thread, running, ready, blocked, dying, fifo, System, has_status, set_status, is_thread,
  is_same, without, thread_current, init_thread, allocate_tid, thread_enqueue, enqueue_by,
  thread_block, thread_unblock, thread_yield, thread_exit, thread_create, thread_tick, idle_start,
  thread_init,
}
use cs162hwproj.Thread.Scheduling.{status_is, IsSystem}
use cs162hwproj.Thread.Order.{
  not_queued, running_current, leaving, yielding, idling, readied-IsSystem, ran,
  thread_block-schedule, thread_exit-schedule, thread_yield-idle, thread_yield-schedule,
}

abbrev pub is_given : {A : Type 0} → Option A → Bool
is_given none = false
is_given (some a) = true

-- What the running thread does, or an interrupt that it takes. The idle thread does not exit, and a new page is no
-- thread's.
pub data Step (s : System) : System → Type 0 where
  block : {s' : System} → thread_block s ≡ some s' → Step s s'
  unblock : {s' : System} (t : ℕ) → thread_unblock t s ≡ some s' → Step s s'
  yield_ : {s' : System} → thread_yield s ≡ some s' → Step s s'
  exit :
      {s' : System} → is_same s.idle_thread s.current ≡ false → thread_exit s ≡ some s' → Step s s'
  create :
      {s' : System} {tid : Option Tid} (page : ℕ) (name : List ℕ) (priority : ℕ)
      → s.status page ≡ none
      → thread_create page name priority s ≡ some (tid, s')
      → Step s s'
  tick : {s' : System} {late : Bool} → thread_tick s ≡ some (late, s') → Step s s'
  idle : {s' : System} → s.idle_thread ≡ none → idle_start s ≡ some s' → Step s s'

-- The states that steps reach from the start.
pub data Reach (page : ℕ) : System → Type 0 where
  start : {s : System} → thread_init page fifo ≡ some s → Reach page s
  step : {s s' : System} → Reach page s → Step s s' → Reach page s'

module _ {s : System} (h : IsSystem s) where
  pub thread_unblock-append :
      (t : ℕ)
      → s.status t ≡ some blocked
      → thread_unblock t s
        ≡ some (set_status t (some ready) (record s { ready_list = s.ready_list ++ (t ∷ []) }))
  unfolding thread_unblock thread_enqueue
  thread_unblock-append t b =
      let i : is_thread t s ≡ true = rw (is_thread, b) refl in
      rw (i, b)
        (ap (λ p. (enqueue_by p t s >>= λ s'. some (set_status t (some ready) s'))) h.queue.policy_)

  unblocked-IsSystem :
      (t : ℕ)
      → s.status t ≡ some blocked
      → IsSystem (set_status t (some ready) (record s { ready_list = s.ready_list ++ (t ∷ []) }))
  unblocked-IsSystem t b =
      readied-IsSystem h t (not_queued blocked t h.queue refl b)
        (elim (Bool-cases (t == s.current)) [
          | inr n ↦ n
          | inl y ↦
              let e : t ≡ s.current = ground arith in
              let r : some running ≡ some blocked =
                sym (running_current h) ∙ ap s.status (sym e) ∙ b in
              let z : true ≡ false = ap (has_status running) r in cc
        ])

  -- What an `unblock` that passes its assertions does.
  pub thread_unblock-result :
      (t : ℕ) (s' : System)
      → thread_unblock t s ≡ some s'
      → IsSystem s' × (s'.ready_list ≡ s.ready_list ++ (t ∷ []))
  unfolding thread_unblock
  thread_unblock-result t s' e = elim (Bool-cases (has_status blocked (s.status t))) [
    | inl y ↦
        let b = status_is blocked (s.status t) y in
        let g = eq_of_some (sym (thread_unblock-append t b) ∙ e) in
        rw (← g) (unblocked-IsSystem t b, refl)
    | inr n ↦ elim (Bool-cases (is_thread t s)) [
      | inl i ↦ let f : none ≡ some s' = rw (i, n) at e in cc
      | inr i ↦ let f : none ≡ some s' = rw i at e in cc
    ]
  ]

  -- A new thread, which is blocked.
  new_thread-IsSystem :
      (page : ℕ)
      → s.status page ≡ none
      → (threads : ℕ → Thread) (all : List ℕ) (tid : ℕ)
      → IsSystem (
          set_status page
            (some blocked)
            (record s { threads = threads; all_list = all; next_tid = tid }))
  new_thread-IsSystem page f threads all tid = record {
    queue = record {
      policy_ = h.queue.policy_;
      in_list = λ t r. elim (Bool-cases (t == page)) [
        | inl y ↦
            let e : t ≡ page = ground arith in
            let z : false ≡ true = rw (e, f) at (h.queue.in_list t r) in cc
        | inr n ↦ rw n (h.queue.in_list t r)
      ];
      listed = λ t r. elim (Bool-cases (t == page)) [
        | inl y ↦ let x : false ≡ true = rw y at r in cc
        | inr n ↦ h.queue.listed t (rw n at r)
      ];
      distinct = h.queue.distinct;
      idle_ = λ t e. elim (Bool-cases (t == page)) [
        | inl y ↦ rw y refl
        | inr n ↦ rw n (h.queue.idle_ t e)
      ];
    };
    current_ = elim (Bool-cases (s.current == page)) [
      | inl y ↦
          let e : s.current ≡ page = ground arith in
          let z : false ≡ true = rw (e, f) at h.current_ in cc
      | inr n ↦ rw n h.current_
    ];
    only = λ t r. elim (Bool-cases (t == page)) [
      | inl y ↦ let x : false ≡ true = rw y at r in cc
      | inr n ↦ h.only t (rw n at r)
    ];
  }

module _ {s : System} (h : IsSystem s) where
  new_thread-Returns :
      (page : ℕ)
      → s.status page ≡ none
      → (threads : ℕ → Thread) (all : List ℕ) (tid : ℕ)
      → Returns
          (λ x. IsSystem x × (x.ready_list ≡ s.ready_list ++ (page ∷ [])))
          (thread_unblock page (
            set_status page
              (some blocked)
              (record s { threads = threads; all_list = all; next_tid = tid })))
  new_thread-Returns page f threads all tid =
      let g = new_thread-IsSystem h page f threads all tid in
      let self : (page == page) ≡ true = ground arith in
      let b : (if page == page then some blocked else s.status page) ≡ some blocked =
        rw self refl in
      rw (thread_unblock-append g page b) (returns (unblocked-IsSystem g page b, refl))

thread_create-IsSystem :
    {s : System} (h : IsSystem s) (page : ℕ) (name : List ℕ) (priority : ℕ)
    → s.status page ≡ none
    → Returns
        (λ (tid, s').
          IsSystem s'
          × ((s'.ready_list ≡ s.ready_list) ⊎ (s'.ready_list ≡ s.ready_list ++ (page ∷ []))))
        (thread_create page name priority s)
      ⊎ (thread_create page name priority s ≡ none)
unfolding thread_create init_thread allocate_tid
thread_create-IsSystem {s} h page name priority f = elim (Bool-cases (page == 0)) [
  | inl y ↦ inl (rw y (returns (h, inl refl)))
  | inr n ↦ elim (Bool-cases (leb priority 63)) [
    | inr m ↦ inr (rw (n, m) refl)
    | inl m ↦ inl (
        rw (n, m)
          (Returns.bind (new_thread-Returns h page f _ _ _) λ s3 (g, l). returns (g, inr l)))
  ]
]

module _ {s : System} (h : IsSystem s) where
  pub thread_tick-some :
      thread_tick s
      ≡ some (leb 4 (s.thread_ticks + 1), record s { thread_ticks = s.thread_ticks + 1 })
  unfolding thread_tick thread_current
  thread_tick-some = let c = h.current_ in rw c refl

  ticked : (n : ℕ) → IsSystem (record s { thread_ticks = n })
  ticked n = record {
    queue = record {
      policy_ = h.queue.policy_;
      in_list = h.queue.in_list;
      listed = h.queue.listed;
      distinct = h.queue.distinct;
      idle_ = h.queue.idle_;
    };
    current_ = h.current_;
    only = h.only;
  }

  pub idle_start-some : idle_start s ≡ some (record s { idle_thread = some s.current })
  unfolding idle_start thread_current
  idle_start-some = let c = h.current_ in rw c refl

  idle_known : s.idle_thread ≡ none → IsSystem (record s { idle_thread = some s.current })
  idle_known i = record {
    queue = record {
      policy_ = h.queue.policy_;
      in_list = h.queue.in_list;
      listed = λ t r. elim (h.queue.listed t r) [
        | inl l ↦ inl l
        | inr e ↦ let z : none ≡ some t = sym i ∙ e in cc
      ];
      distinct = h.queue.distinct;
      idle_ = λ t e. let g : s.current ≡ t = eq_of_some e in rw (← g, running_current h) refl;
    };
    current_ = h.current_;
    only = h.only;
  }

pub thread_create-result :
    {s s' : System} {tid : Option Tid} (h : IsSystem s) (page : ℕ) (name : List ℕ) (priority : ℕ)
    → s.status page ≡ none
    → thread_create page name priority s ≡ some (tid, s')
    → IsSystem s' × ((s'.ready_list ≡ s.ready_list) ⊎ (s'.ready_list ≡ s.ready_list ++ (page ∷ [])))
thread_create-result {s} {s'} {tid} h page name priority f e =
    elim (thread_create-IsSystem h page name priority f) [
      | inr z ↦
          let x : none ≡ some (tid, s') = sym z ∙ e in
          absurd (let w : false ≡ true = ap is_given x in cc)
      | inl r ↦
          let (y, g, k) = Returns.value r in
          let same_ : y ≡ (tid, s') = eq_of_some (sym g ∙ e) in rw same_ at k
    ]

pub Step-IsSystem : {s s' : System} → IsSystem s → Step s s' → IsSystem s'
Step-IsSystem {s} {s'} h (block e) =
    (ran (leaving h blocked s.all_list refl refl (λ i. refl)) (sym (thread_block-schedule h) ∙ e)).0
Step-IsSystem {s} {s'} h (unblock t e) = (thread_unblock-result h t s' e).0
Step-IsSystem {s} {s'} h (yield_ e) = elim (Bool-cases (is_same s.idle_thread s.current)) [
  | inl i ↦ (ran (idling h i) (sym (thread_yield-idle h i) ∙ e)).0
  | inr i ↦ (ran (yielding h) (sym (thread_yield-schedule h i) ∙ e)).0
]
Step-IsSystem {s} {s'} h (exit i e) =
    (ran (leaving h dying (without s.current s.all_list) refl refl (λ j. absurd (ground arith)))
      (sym (thread_exit-schedule h) ∙ e)).0
Step-IsSystem {s} {s'} h (create page name priority f e) =
    (thread_create-result h page name priority f e).0
Step-IsSystem {s} {s'} h (tick {late = late} e) =
    let g : (leb 4 (s.thread_ticks + 1), record s { thread_ticks = s.thread_ticks + 1 })
        ≡ (late, s') =
      eq_of_some (sym (thread_tick-some h) ∙ e) in
    rw (← ap (λ x. x.1) g) (ticked h (s.thread_ticks + 1))
Step-IsSystem {s} {s'} h (idle i e) =
    let g : record s { idle_thread = some s.current } ≡ s' =
      eq_of_some (sym (idle_start-some h) ∙ e) in
    rw (← g) (idle_known h i)

thread_init-IsSystem : (page : ℕ) → Returns IsSystem (thread_init page fifo)
unfolding thread_init init_thread allocate_tid
thread_init-IsSystem page = returns (record {
  queue = record {
    policy_ = refl;
    in_list = λ t r. cc;
    listed = λ t r. elim (Bool-cases (t == page)) [
      | inl y ↦ let z : false ≡ true = rw y at r in cc
      | inr n ↦ let z : false ≡ true = rw n at r in cc
    ];
    distinct = tt;
    idle_ = λ t e. cc;
  };
  current_ = let self : (page == page) ≡ true = ground arith in rw self refl;
  only = λ t r. elim (Bool-cases (t == page)) [
    | inl y ↦ ground arith
    | inr n ↦ let z : false ≡ true = rw n at r in cc
  ];
})

-- In every state that the threads reach from `thread_init` by blocking, unblocking, yielding, exiting, creating threads and timer ticks
-- in any order, where the idle thread does not exit and new threads get pages that are no thread's: just the current
-- thread is running; the run queue holds threads that are ready, no one twice, and every ready thread but perhaps the idle one; and the
-- idle thread, once it is known, is a thread that is not dying.
pub Reach-IsSystem : {page : ℕ} {s : System} → Reach page s → IsSystem s
Reach-IsSystem {page} {s} (start e) =
    let (y, g, k) = Returns.value (thread_init-IsSystem page) in
    let same_ : y ≡ s = eq_of_some (sym g ∙ e) in rw same_ at k
Reach-IsSystem (step r x) = Step-IsSystem (Reach-IsSystem r) x
