-- ===== src/Thread/Order.antt =====
-- What each call of thread.c hands to the scheduler.
use cs162hwproj.Prelude.{
  ℕ, ◌≡◌, refl, sym, ap, ◌∙◌, true, false, inl, inr, Option, none, some, List, [], ◌∷◌, ◌++◌, arith,
  ◌==◌, if◌then◌else◌, Bool-cases, eq_of_some,
}
use cs162hwproj.Prelude.Members.{has, has-append, Distinct-join}
use cs162hwproj.Prelude.Returns
use cs162hwproj.Prelude.Returns.{Returns, returns}
use cs162hwproj.Thread.{
  Status, running, ready, blocked, dying, System, is_status, has_status, set_status, is_thread,
  is_same, without, thread_current, thread_enqueue, enqueue_by, schedule, thread_block,
  thread_yield, thread_exit,
}
use cs162hwproj.Thread.Scheduling.{
  is_live, status_is, IsQueue, IsSystem, IsSwitching, Ran, schedule-Ran,
}

is_same-some : (o : Option ℕ) (t : ℕ) → is_same o t ≡ true → o ≡ some t
is_same-some none t e = cc
is_same-some (some u) t e = let g : u ≡ t = ground arith in ap some g

-- A thread that becomes ready goes to the end of the run queue.
enqueued-IsQueue :
    {s : System} (t : ℕ)
    → IsQueue s
    → has t s.ready_list ≡ false
    → IsQueue (set_status t (some ready) (record s { ready_list = s.ready_list ++ (t ∷ []) }))
enqueued-IsQueue {s} t h out = record {
  policy_ = h.policy_;
  in_list = λ u r. elim (Bool-cases (u == t)) [
    | inl y ↦ rw y refl
    | inr n ↦ let a = has-append u s.ready_list (t ∷ []) in rw n (h.in_list u (ground arith))
  ];
  listed = λ u r.
      let a = has-append u s.ready_list (t ∷ []) in
      elim (Bool-cases (u == t)) [
        | inl y ↦ inl (ground arith)
        | inr n ↦ elim (h.listed u (rw n at r)) [ inl l ↦ inl (ground arith) | inr i ↦ inr i ]
      ];
  distinct =
      Distinct-join s.ready_list (t ∷ []) h.distinct (refl, tt)
        (λ p r. elim (Bool-cases (p == t)) [
          | inl y ↦
              let e : p ≡ t = ground arith in
              let z : has t s.ready_list ≡ true = rw e at r in absurd (ground arith)
          | inr n ↦ ground arith
        ]);
  idle_ = λ u e. elim (Bool-cases (u == t)) [ inl y ↦ rw y refl | inr n ↦ rw n (h.idle_ u e) ];
}

-- A thread in another state than ready is not in the run queue.
pub not_queued :
    {s : System} (a : Status) (t : ℕ)
    → IsQueue s
    → is_status ready a ≡ false
    → s.status t ≡ some a
    → has t s.ready_list ≡ false
not_queued {s} a t h d e = elim (Bool-cases (has t s.ready_list)) [
  | inr n ↦ n
  | inl y ↦ let r : is_status ready a ≡ true = rw e at (h.in_list t y) in absurd (ground arith)
]

module _ {s : System} (h : IsSystem s) where
  pub running_current : s.status s.current ≡ some running
  running_current = status_is running (s.status s.current) h.current_

  none_behind :
      (st : Status)
      → is_status running st ≡ false
      → (t : ℕ) → has_status running (if t == s.current then some st else s.status t) ≡ false
  none_behind st p t = elim (Bool-cases (t == s.current)) [
    | inl y ↦ rw y p
    | inr n ↦ rw n (elim (Bool-cases (has_status running (s.status t))) [
      | inr k ↦ k
      | inl k ↦ let e = h.only t k in absurd (ground arith)
    ])
  ]

  -- The running thread leaves the processor for a state in which it is not ready.
  pub leaving :
      (st : Status) (all : List ℕ)
      → is_status running st ≡ false
      → is_status ready st ≡ false
      → (is_same s.idle_thread s.current ≡ true → is_status dying st ≡ false)
      → IsSwitching (set_status s.current (some st) (record s { all_list = all }))
  leaving st all p q i = record {
    queue = record {
      policy_ = h.queue.policy_;
      in_list = λ t r. elim (Bool-cases (t == s.current)) [
        | inl y ↦
            let e : t ≡ s.current = ground arith in
            let x = not_queued running s.current h.queue refl running_current in
            let z : has s.current s.ready_list ≡ true = rw e at r in absurd (ground arith)
        | inr n ↦ rw n (h.queue.in_list t r)
      ];
      listed = λ t r. elim (Bool-cases (t == s.current)) [
        | inl y ↦ let x : is_status ready st ≡ true = rw y at r in absurd (ground arith)
        | inr n ↦ h.queue.listed t (rw n at r)
      ];
      distinct = h.queue.distinct;
      idle_ = λ t e. elim (Bool-cases (t == s.current)) [
        | inl y ↦
            let same_ : is_same s.idle_thread s.current ≡ true = rw (e, is_same) y in
            let d = i same_ in rw (y, is_live, d) refl
        | inr n ↦ rw n (h.queue.idle_ t e)
      ];
    };
    none_ = none_behind st p;
  }

  pub yielding : IsSwitching (
      set_status s.current
        (some ready)
        (record s { ready_list = s.ready_list ++ (s.current ∷ []) }))
  yielding = record {
    queue =
        enqueued-IsQueue s.current h.queue
          (not_queued running s.current h.queue refl running_current);
    none_ = none_behind ready refl;
  }

  -- The idle thread yields.
  pub idling :
      is_same s.idle_thread s.current ≡ true → IsSwitching (set_status s.current (some ready) s)
  idling i = record {
    queue = record {
      policy_ = h.queue.policy_;
      in_list = λ t r. elim (Bool-cases (t == s.current)) [
        | inl y ↦ rw y refl
        | inr n ↦ rw n (h.queue.in_list t r)
      ];
      listed = λ t r. elim (Bool-cases (t == s.current)) [
        | inl y ↦
            let e : t ≡ s.current = ground arith in
            inr (is_same-some s.idle_thread s.current i ∙ ap some (sym e))
        | inr n ↦ h.queue.listed t (rw n at r)
      ];
      distinct = h.queue.distinct;
      idle_ = λ t e. elim (Bool-cases (t == s.current)) [
        | inl y ↦ rw y refl
        | inr n ↦ rw n (h.queue.idle_ t e)
      ];
    };
    none_ = none_behind ready refl;
  }

  -- A thread that is not running becomes ready.
  pub readied-IsSystem :
      (t : ℕ)
      → has t s.ready_list ≡ false
      → (t == s.current) ≡ false
      → IsSystem (set_status t (some ready) (record s { ready_list = s.ready_list ++ (t ∷ []) }))
  readied-IsSystem t out ne = record {
    queue = enqueued-IsQueue t h.queue out;
    current_ = let z : (s.current == t) ≡ false = ground arith in rw z h.current_;
    only = λ u r. elim (Bool-cases (u == t)) [
      | inl y ↦ let x : false ≡ true = rw y at r in absurd (ground arith)
      | inr n ↦ h.only u (rw n at r)
    ];
  }

-- The state after `schedule`.
pub ran : {x s' : System} → IsSwitching x → schedule x ≡ some s' → Ran x s'
ran {x} {s'} h e = elim (schedule-Ran h) [
  | inl (a, b, c) ↦ let f : none ≡ some s' = sym c ∙ e in cc
  | inr r ↦ let (y, f, p) = Returns.value r in let g : y ≡ s' = eq_of_some (sym f ∙ e) in rw (← g) p
]

module _ {s : System} (h : IsSystem s) where
  pub thread_block-schedule : thread_block s ≡ schedule (set_status s.current (some blocked) s)
  unfolding thread_block thread_current
  thread_block-schedule = let c = h.current_ in rw c refl

  pub thread_exit-schedule :
      thread_exit s
      ≡ schedule
          (set_status s.current (some dying) (record s { all_list = without s.current s.all_list }))
  unfolding thread_exit thread_current
  thread_exit-schedule = let c = h.current_ in rw c refl

  pub thread_yield-idle :
      is_same s.idle_thread s.current ≡ true
      → thread_yield s ≡ schedule (set_status s.current (some ready) s)
  unfolding thread_yield thread_current
  thread_yield-idle i = let c = h.current_ in rw (c, i) refl

  pub thread_enqueue-append :
      (t : ℕ)
      → is_thread t s ≡ true
      → thread_enqueue t s ≡ some (record s { ready_list = s.ready_list ++ (t ∷ []) })
  unfolding thread_enqueue
  thread_enqueue-append t i = rw i (ap (λ p. enqueue_by p t s) h.queue.policy_)

  pub thread_yield-schedule :
      is_same s.idle_thread s.current ≡ false
      → thread_yield s
        ≡ schedule (
            set_status s.current
              (some ready)
              (record s { ready_list = s.ready_list ++ (s.current ∷ []) }))
  unfolding thread_yield thread_current
  thread_yield-schedule i =
      let c = h.current_ in
      let e = thread_enqueue-append s.current (rw (is_thread, running_current h) refl) in
      rw (c, i, e) refl
