-- ===== src/Thread/Scheduling.antt =====
-- What holds of the threads of thread.c whenever the running thread is not in the scheduler.
use cs162hwproj.Prelude.{
  ℕ, ◌≡◌, ◌≢◌, refl, ◌⊎◌, ap, ◌∙◌, Bool, true, false, not, ◌&&◌, inl, inr, Option, none, some, List,
  [], ◌∷◌, arith, ◌==◌, if◌then◌else◌, Bool-cases, Option-cases,
}
use cs162hwproj.Prelude.Members.{has, Distinct}
use cs162hwproj.Prelude.Returns.{Returns, returns}
use cs162hwproj.Thread.{
  Status, running, ready, blocked, dying, fifo, System, is_status, has_status, set_status,
  is_thread, pop_ready, scheduler_jump_table, next_thread_to_run, thread_switch_tail, schedule,
}

abbrev pub is_live : Option Status → Bool
is_live none = false
is_live (some st) = not (is_status dying st)

-- The run queue: it holds threads that are ready, none twice, and every ready thread but the idle one.
pub record IsQueue (s : System) : Type 0 where
  pub policy_ : s.policy ≡ fifo
  pub in_list : (t : ℕ) → has t s.ready_list ≡ true → has_status ready (s.status t) ≡ true
  pub listed :
      (t : ℕ)
      → has_status ready (s.status t) ≡ true
      → (has t s.ready_list ≡ true) ⊎ (s.idle_thread ≡ some t)
  pub distinct : Distinct s.ready_list
  pub idle_ : (t : ℕ) → s.idle_thread ≡ some t → is_live (s.status t) ≡ true

-- Between calls: the queue, and just the current thread is running.
pub record IsSystem (s : System) : Type 0 where
  pub queue : IsQueue s
  pub current_ : has_status running (s.status s.current) ≡ true
  pub only : (t : ℕ) → has_status running (s.status t) ≡ true → t ≡ s.current

-- At the call of `schedule`: the queue, and no thread is running.
pub record IsSwitching (s : System) : Type 0 where
  pub queue : IsQueue s
  pub none_ : (t : ℕ) → has_status running (s.status t) ≡ false

-- The thread that runs next, and what is left of the run queue.
abbrev pub Chosen : System → (n : ℕ) → (rest : List ℕ) → Type 0
Chosen s n rest =
    (s.ready_list ≡ n ∷ rest) ⊎ ((s.ready_list ≡ []) × (rest ≡ []) × (s.idle_thread ≡ some n))

-- What `schedule` makes of a state: the thread at the head of the run queue runs, or else the idle one.
abbrev pub Ran : System → System → Type 0
Ran s s' = IsSystem s' × Chosen s s'.current s'.ready_list × (s'.idle_thread ≡ s.idle_thread)

List-cases : (xs : List ℕ) → (xs ≡ []) ⊎ ((t : ℕ) × (rest : List ℕ) × (xs ≡ t ∷ rest))
List-cases [] = inl refl
List-cases (t ∷ rest) = inr (t, rest, refl)

pub status_is : (a : Status) (o : Option Status) → has_status a o ≡ true → o ≡ some a
status_is a none e = cc
status_is running (some running) e = refl
status_is running (some ready) e = cc
status_is running (some blocked) e = cc
status_is running (some dying) e = cc
status_is ready (some running) e = cc
status_is ready (some ready) e = refl
status_is ready (some blocked) e = cc
status_is ready (some dying) e = cc
status_is blocked (some running) e = cc
status_is blocked (some ready) e = cc
status_is blocked (some blocked) e = refl
status_is blocked (some dying) e = cc
status_is dying (some running) e = cc
status_is dying (some ready) e = cc
status_is dying (some blocked) e = cc
status_is dying (some dying) e = refl

live_of_ready : (o : Option Status) → has_status ready o ≡ true → is_live o ≡ true
live_of_ready o e = rw (status_is ready o e) refl

dying-not_live : (o : Option Status) → has_status dying o ≡ true → is_live o ≡ false
dying-not_live o e = rw (status_is dying o e) refl

thread_of_live : (t : ℕ) (s : System) → is_live (s.status t) ≡ true → is_thread t s ≡ true
thread_of_live t s e = elim (Option-cases (s.status t)) [
  | inl z ↦ let f : false ≡ true = rw z at e in cc
  | inr (st, z) ↦ rw (is_thread, z) refl
]

module _ {s : System} (h : IsSwitching s) (n : ℕ) (rest : List ℕ) (c : Chosen s n rest) where
  chosen_live : is_live (s.status n) ≡ true
  chosen_live = elim c [
    | inl e ↦
        live_of_ready (s.status n)
          (h.queue.in_list n (rw e (let z : (n == n) ≡ true = ground arith in rw z refl)))
    | inr (e, f, g) ↦ h.queue.idle_ n g
  ]

  rest_ready :
      (t : ℕ)
      → has t rest ≡ true
      → (has_status ready (s.status t) ≡ true) × (t ≢ n) × (has t s.ready_list ≡ true)
  rest_ready t r = elim c [
    | inl e ↦
        let there : has t s.ready_list ≡ true = rw e (ground arith) in
        let (new, d) = rw e at h.queue.distinct in
        (
          h.queue.in_list t there,
          λ g. let x : has n rest ≡ true = rw g at r in absurd (ground arith),
          there,
        )
    | inr (e, f, g) ↦ let x : false ≡ true = rw f at r in absurd (ground arith)
  ]

  rest-Distinct : Distinct rest
  rest-Distinct = elim c [
    | inl e ↦ let (new, d) = rw e at h.queue.distinct in d
    | inr (e, f, g) ↦ rw f tt
  ]

  rest_listed :
      (t : ℕ)
      → t ≢ n
      → has_status ready (s.status t) ≡ true
      → (has t rest ≡ true) ⊎ (s.idle_thread ≡ some t)
  rest_listed t ne r = elim (h.queue.listed t r) [
    | inr i ↦ inr i
    | inl l ↦ elim c [
      | inl e ↦ let m : has t (n ∷ rest) ≡ true = rw e at l in inl (ground arith)
      | inr (e, f, g) ↦ let m : false ≡ true = rw e at l in absurd (ground arith)
    ]
  ]

  -- The state behind the switch, before a dying thread is destroyed.
  abbrev switched : System
  switched = record (set_status n (some running) s) {
    ready_list = rest;
    current = n;
    thread_ticks = 0;
  }

  switched-IsSystem : IsSystem switched
  switched-IsSystem = record {
    queue = record {
      policy_ = h.queue.policy_;
      in_list = λ t r.
          let (p, q, l) = rest_ready t r in let z : (t == n) ≡ false = ground arith in rw z p;
      listed = λ t r. elim (Bool-cases (t == n)) [
        | inl y ↦ let x : false ≡ true = rw y at r in absurd (ground arith)
        | inr y ↦ rest_listed t (ground arith) (rw y at r)
      ];
      distinct = rest-Distinct;
      idle_ = λ t e. elim (Bool-cases (t == n)) [
        | inl y ↦ rw y refl
        | inr y ↦ rw y (h.queue.idle_ t e)
      ];
    };
    current_ = let z : (n == n) ≡ true = ground arith in rw z refl;
    only = λ t r. elim (Bool-cases (t == n)) [
      | inl y ↦ ground arith
      | inr y ↦
          let x : has_status running (s.status t) ≡ true = rw y at r in
          let q = h.none_ t in absurd (ground arith)
    ];
  }

  destroyed-IsSystem :
      (p : ℕ)
      → (p == n) ≡ false
      → has_status dying (s.status p) ≡ true
      → IsSystem (set_status p none switched)
  destroyed-IsSystem p ne d =
      let w = switched-IsSystem in
      let dead = dying-not_live (s.status p) d in
      record {
        queue = record {
          policy_ = h.queue.policy_;
          in_list = λ t r. elim (Bool-cases (t == p)) [
            | inl y ↦
                let (q, z, l) = rest_ready t r in
                let e : t ≡ p = ground arith in
                let live : is_live (s.status p) ≡ true = rw e at (live_of_ready (s.status t) q) in
                absurd (ground arith)
            | inr y ↦ rw y (w.queue.in_list t r)
          ];
          listed = λ t r. elim (Bool-cases (t == p)) [
            | inl y ↦ let x : false ≡ true = rw y at r in absurd (ground arith)
            | inr y ↦ w.queue.listed t (rw y at r)
          ];
          distinct = rest-Distinct;
          idle_ = λ t e. elim (Bool-cases (t == p)) [
            | inl y ↦
                let g : t ≡ p = ground arith in
                let live : is_live (s.status p) ≡ true = rw g at (h.queue.idle_ t e) in
                absurd (ground arith)
            | inr y ↦ rw y (w.queue.idle_ t e)
          ];
        };
        current_ = let z : (n == p) ≡ false = ground arith in rw z w.current_;
        only = λ t r. elim (Bool-cases (t == p)) [
          | inl y ↦ let x : false ≡ true = rw y at r in absurd (ground arith)
          | inr y ↦ w.only t (rw y at r)
        ];
      }

  thread_switch_tail-IsSystem : Returns (Ran s) (
      thread_switch_tail
        (if s.current == n then none else some s.current)
        (record s { ready_list = rest; current = n }))
  unfolding thread_switch_tail
  thread_switch_tail-IsSystem = elim (Bool-cases (s.current == n)) [
    | inl y ↦ rw y (returns (switched-IsSystem, c, refl))
    | inr y ↦
        rw (y, y)
          (elim (Bool-cases
            (has_status dying (s.status s.current) && not (s.current == s.initial_thread))) [
              | inl d ↦ rw d (returns (destroyed-IsSystem s.current y (ground arith), c, refl))
              | inr d ↦ rw d (returns (switched-IsSystem, c, refl))
            ])
  ]

module _ {s : System} (h : IsSwitching s) where
  to_next :
      (n : ℕ) (rest : List ℕ)
      → Chosen s n rest
      → next_thread_to_run s ≡ some (some n, record s { ready_list = rest })
      → Returns (Ran s) (schedule s)
  unfolding schedule
  to_next n rest c e =
      let q = h.none_ s.current in
      let live = thread_of_live n s (chosen_live h n rest c) in
      rw (e, q, live) (thread_switch_tail-IsSystem h n rest c)

  no_next : next_thread_to_run s ≡ some (none, s) → schedule s ≡ none
  unfolding schedule
  no_next e = let q = h.none_ s.current in rw (e, q) refl

  popped : (xs : List ℕ) → s.ready_list ≡ xs → next_thread_to_run s ≡ some (pop_ready xs s)
  unfolding next_thread_to_run
  popped xs e =
      ap (λ p. scheduler_jump_table p s) h.queue.policy_ ∙ ap (λ l. some (pop_ready l s)) e

  -- `schedule` of a state without a running thread goes on with the head of the run queue, or with the idle thread if
  -- the queue is empty. It panics only if there is no idle thread yet, and nothing in the queue.
  pub schedule-Ran :
      ((s.ready_list ≡ []) × (s.idle_thread ≡ none) × (schedule s ≡ none))
      ⊎ Returns (Ran s) (schedule s)
  schedule-Ran = elim (List-cases s.ready_list) [
    | inr (t, rest, e) ↦ inr (to_next t rest (inl e) (popped (t ∷ rest) e))
    | inl e ↦ elim (Option-cases s.idle_thread) [
      | inr (i, f) ↦
          let same_ : s ≡ record s { ready_list = [] } = ap (λ l. record s { ready_list = l }) e in
          inr (
            to_next i [] (inr (e, refl, f))
              (popped [] e ∙ ap (λ i. some (i, s)) f ∙ ap (λ t. some (some i, t)) same_))
      | inl f ↦ inl (e, f, no_next (popped [] e ∙ ap (λ i. some (i, s)) f))
    ]
  ]
