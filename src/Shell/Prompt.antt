-- ===== src/Shell/Prompt.antt =====
-- What holds whenever hw-shell/shell.c waits for a line.
use mathlib.Core.Path.{subst}
use cs162hwproj.Prelude.{
  ℕ, ◌≡◌, ◌≢◌, refl, sym, ap, ◌∙◌, ◌⊎◌, Bool, true, false, not, Option, none, some, List, [], ◌∷◌,
  arith, ◌==◌, if◌then◌else◌, Bool-cases, inl, inr, >>=-eq-some, eq_of_some, Option-cases,
  get_elem?,
}
use cs162hwproj.Shell.{Token, CommandTask, lookup_cmd, parse_line}
use cs162hwproj.Shell.Launch.{Host, cut_background, resolve_loop, launch}
use cs162hwproj.Shell.Jobs.{
  WaitStatus, exited, signaled, stopped, neither, Jobs, Processes, wait_loop, settle, tcsetpgrp,
  reap, run_background, resume, cmd_fg, fg_of, run_foreground, run_programs, built_in, run_line,
  pids_of,
}

-- The shell has the terminal, and no job is in the foreground.
pub record IsPrompt (shell_pgid : ℕ) (jobs : Jobs) : Type 0 where
  pub has_terminal : jobs.terminal ≡ shell_pgid
  pub no_group : jobs.fg_pgid ≡ none
  pub no_pids : jobs.fg_pids ≡ []

-- The status that `waitpid` fills in, with WUNTRACED, tells of a process that ended or stopped.
pub record Answers (p : Processes) : Type 0 where
  pub status_lem : (pid : Option ℕ) → p.waitpid pid ≢ some neither

abbrev pub IsIdle : Jobs → Type 0
IsIdle jobs = (jobs.fg_pgid ≡ none) × (jobs.fg_pids ≡ [])

-- `waitpid` fails for every process of a job.
abbrev pub Unanswered : Processes → List (Option ℕ) → Type 0
Unanswered p [] = Unit
Unanswered p (pid ∷ pids) = (p.waitpid pid ≡ none) × Unanswered p pids

-- A line `fg` for a job that gets no signal, or whose processes give no status while the uninitialized variable for it
-- does not look like one.
abbrev pub Unresumed : Processes → List Token → Jobs → Type 0
Unresumed p tokens jobs =
    (lookup_cmd (get_elem? tokens 0) ≡ some 6)
    × ((pgid : ℕ) × (jobs.bg_pgid ≡ some pgid)
        × ((p.killpg pgid ≡ false) ⊎ ((p.garbage ≡ neither) × Unanswered p jobs.bg_pids)))

-- The shell has the terminal, and no job is in the foreground or `Left` tells why.
abbrev Prompt : (shell_pgid : ℕ) → (Left : Type 0) → Jobs → Type 0
Prompt shell_pgid Left jobs = (jobs.terminal ≡ shell_pgid) × (IsIdle jobs ⊎ Left)

widen : (g : ℕ) (U L : Type 0) (jobs : Jobs) → Prompt g L jobs → Prompt g (U ⊎ L) jobs
widen g U L jobs (t, inl i) = (t, inl i)
widen g U L jobs (t, inr l) = (t, inr (inr l))

wait_loop-cases :
    (p : Processes) (pids : List (Option ℕ)) (status : WaitStatus)
    → Answers p
    → (wait_loop p pids status ≢ neither) ⊎ ((status ≡ neither) × Unanswered p pids)
unfolding wait_loop
wait_loop-cases p [] exited a = inl (λ e. cc)
wait_loop-cases p [] signaled a = inl (λ e. cc)
wait_loop-cases p [] stopped a = inl (λ e. cc)
wait_loop-cases p [] neither a = inr (refl, tt)
wait_loop-cases p (pid ∷ pids) status a = elim (Option-cases (p.waitpid pid)) [
  | inl n ↦ elim (wait_loop-cases p pids status a) [
    | inl k ↦ inl (rw n k)
    | inr (e, u) ↦ inr (e, (n, u))
  ]
  | inr (s, y) ↦ elim (wait_loop-cases p pids s a) [
    | inl k ↦ inl (rw y k)
    | inr (e, u) ↦ absurd (a.status_lem pid (y ∙ ap some e))
  ]
]

settle-Prompt :
    (g : ℕ) (L : Type 0) (status : WaitStatus) (jobs : Jobs)
    → status ≢ neither
    → Prompt g L (tcsetpgrp (some g) (settle status jobs))
unfolding settle
settle-Prompt g L exited jobs k = (refl, inl (refl, refl))
settle-Prompt g L signaled jobs k = (refl, inl (refl, refl))
settle-Prompt g L stopped jobs k = (refl, inl (refl, refl))
settle-Prompt g L neither jobs k = absurd (k refl)

module _ (shell_pgid : ℕ) (Left : Type 0) where
  reap-Prompt :
      (p : Processes) (jobs : Jobs)
      → Prompt shell_pgid Left jobs
      → Prompt shell_pgid Left (reap p jobs)
  unfolding reap
  reap-Prompt p jobs v = elim (Option-cases jobs.bg_pgid) [
    | inl n ↦ rw n v
    | inr (pgid, y) ↦ elim (Bool-cases (p.is_process_alive pgid)) [
      | inl k ↦ rw (y, k) v
      | inr k ↦ rw (y, k) v
    ]
  ]

  resume-Prompt :
      (p : Processes) (tokens : List Token) (pgid : ℕ) (jobs : Jobs)
      → Answers p
      → lookup_cmd (get_elem? tokens 0) ≡ some 6
      → jobs.bg_pgid ≡ some pgid
      → jobs.terminal ≡ shell_pgid
      → Prompt shell_pgid (Unresumed p tokens jobs ⊎ Left) (resume shell_pgid p pgid jobs)
  unfolding resume
  resume-Prompt p tokens pgid jobs a f b t = elim (Bool-cases (p.killpg pgid)) [
    | inl y ↦ elim (wait_loop-cases p jobs.bg_pids p.garbage a) [
      | inl k ↦ rw y (settle-Prompt shell_pgid _ (wait_loop p jobs.bg_pids p.garbage) _ k)
      | inr u ↦ rw y (refl, inr (inl (f, (pgid, b, inr u))))
    ]
    | inr n ↦ rw n (t, inr (inl (f, (pgid, b, inl n))))
  ]

  fg_of-Prompt :
      (p : Processes) (tokens : List Token) (pgid : Option ℕ) (jobs : Jobs)
      → Answers p
      → lookup_cmd (get_elem? tokens 0) ≡ some 6
      → jobs.bg_pgid ≡ pgid
      → Prompt shell_pgid Left jobs
      → Prompt shell_pgid (Unresumed p tokens jobs ⊎ Left) (fg_of shell_pgid pgid p jobs)
  fg_of-Prompt p tokens none jobs a f b v = widen shell_pgid _ Left jobs v
  fg_of-Prompt p tokens (some pgid) jobs a f b v = elim (Bool-cases (pgid == 0)) [
    | inl y ↦ rw y (widen shell_pgid _ Left jobs v)
    | inr n ↦ rw n (resume-Prompt p tokens pgid jobs a f b v.0)
  ]

  -- What is done with the tasks of a line once they are resolved.
  finish-Prompt :
      (p : Processes) (tasks : List CommandTask) (valid background : Bool) (jobs : Jobs)
      → Answers p
      → Prompt shell_pgid Left jobs
      → Prompt shell_pgid Left (
          if not valid
          then jobs
          else if background
          then run_background tasks jobs
          else run_foreground shell_pgid p tasks jobs)
  unfolding run_background run_foreground
  finish-Prompt p tasks false background jobs a v = v
  finish-Prompt p tasks true true jobs a v = v
  finish-Prompt p tasks true false jobs a v = elim (wait_loop-cases p (pids_of tasks) exited a) [
    | inl k ↦ settle-Prompt shell_pgid Left (wait_loop p (pids_of tasks) exited) _ k
    | inr (e, u) ↦ absurd cc
  ]

  run_programs-Prompt :
      (h : Host) (p : Processes) (tokens : List Token) (jobs jobs' : Jobs)
      → Answers p
      → Prompt shell_pgid Left jobs
      → run_programs shell_pgid h p tokens jobs ≡ some jobs'
      → Prompt shell_pgid Left jobs'
  unfolding run_programs
  run_programs-Prompt h p tokens jobs jobs' a v e =
      let ((parsed, valid), e1, e2) =
        >>=-eq-some (parse_line h.open_out h.open_in h.pipe tokens) _ e in
      let tasks = (cut_background parsed).0 in
      let background = (cut_background parsed).1 in
      let ((resolved, valid'), e3, e4) = >>=-eq-some (resolve_loop h tasks valid) _ e2 in
      subst (Prompt shell_pgid Left) (eq_of_some e4)
        (finish-Prompt p (launch h resolved) valid' background jobs a v)

  run_line_plain :
      (h : Host) (p : Processes) (tokens : List Token) (jobs : Jobs)
      → lookup_cmd (get_elem? tokens 0) ≡ none
      → run_line shell_pgid h p tokens jobs ≡ run_programs shell_pgid h p tokens (reap p jobs)
  unfolding run_line
  run_line_plain h p tokens jobs n = rw (n, run_line) refl

  run_line-built_in :
      (h : Host) (p : Processes) (tokens : List Token) (jobs : Jobs) (i : ℕ)
      → lookup_cmd (get_elem? tokens 0) ≡ some i
      → run_line shell_pgid h p tokens jobs ≡ some (built_in shell_pgid i p (reap p jobs))
  unfolding run_line
  run_line-built_in h p tokens jobs i n = rw (n, run_line) refl

  built_in-Prompt :
      (i : ℕ) (p : Processes) (tokens : List Token) (jobs : Jobs)
      → Answers p
      → lookup_cmd (get_elem? tokens 0) ≡ some i
      → Prompt shell_pgid Left jobs
      → Prompt shell_pgid (Unresumed p tokens jobs ⊎ Left) (built_in shell_pgid i p jobs)
  unfolding cmd_fg
  built_in-Prompt i p tokens jobs a l v = elim (Bool-cases (i == 6)) [
    | inl y ↦
        let e : i ≡ 6 = ground arith in
        rw y (fg_of-Prompt p tokens jobs.bg_pgid jobs a (l ∙ ap some e) refl v)
    | inr n ↦ rw n (widen shell_pgid _ Left jobs v)
  ]

  run_line-Prompt :
      (h : Host) (p : Processes) (tokens : List Token) (jobs jobs' : Jobs)
      → Answers p
      → Prompt shell_pgid Left jobs
      → run_line shell_pgid h p tokens jobs ≡ some jobs'
      → Prompt shell_pgid (Unresumed p tokens (reap p jobs) ⊎ Left) jobs'
  run_line-Prompt h p tokens jobs jobs' a v e =
      let r = reap-Prompt p jobs v in
      elim (Option-cases (lookup_cmd (get_elem? tokens 0))) [
        | inl n ↦ widen shell_pgid _ Left jobs' (
            run_programs-Prompt h p tokens (reap p jobs) jobs' a r
              (sym (run_line_plain h p tokens jobs n) ∙ e))
        | inr (i, b) ↦
            subst (Prompt shell_pgid (Unresumed p tokens (reap p jobs) ⊎ Left))
              (eq_of_some (sym (run_line-built_in h p tokens jobs i b) ∙ e))
              (built_in-Prompt i p tokens (reap p jobs) a b r)
      ]

-- The jobs that a shell can have when it waits for a line, after any lines and with any answers of the host.
pub data Reach (shell_pgid : ℕ) (start : Jobs) : Jobs → Type 0 where
  here : Reach shell_pgid start start
  next :
      {jobs jobs' : Jobs} (h : Host) (p : Processes) (tokens : List Token)
      → Reach shell_pgid start jobs
      → Answers p
      → run_line shell_pgid h p tokens jobs ≡ some jobs'
      → Reach shell_pgid start jobs'

-- Some line was an `fg` that did not resume the job, or did not hear of it.
abbrev pub LeftForeground :
    {shell_pgid : ℕ} {start jobs : Jobs} → Reach shell_pgid start jobs → Type 0
LeftForeground here = ⊥
LeftForeground (next {jobs} h p tokens r a e) = Unresumed p tokens (reap p jobs) ⊎ LeftForeground r

-- Whatever lines were run, if each status that `waitpid` filled in told of a process that ended or stopped: when the
-- shell waits for the next line, it has the terminal; and no job is recorded as the foreground one, unless some line
-- was an `fg` for which `killpg` failed, or for which `waitpid` failed for each process of the job and the
-- uninitialized status tells neither of an end nor of a stop.
pub Reach-IsPrompt :
    {shell_pgid : ℕ} {start jobs : Jobs}
    → (r : Reach shell_pgid start jobs) → IsPrompt shell_pgid start
    → (jobs.terminal ≡ shell_pgid) × (IsIdle jobs ⊎ LeftForeground r)
Reach-IsPrompt here v = (v.has_terminal, inl (v.no_group, v.no_pids))
Reach-IsPrompt {shell_pgid} (next {jobs} {jobs'} h p tokens r a e) v =
    run_line-Prompt shell_pgid (LeftForeground r) h p tokens jobs jobs' a (Reach-IsPrompt r v) e
