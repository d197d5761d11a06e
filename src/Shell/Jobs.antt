-- ===== src/Shell/Jobs.antt =====
-- hw-shell/shell.c: the foreground and the background job, and what a line does to them.
use cs162hwproj.Prelude.{
  ℕ, Bool, not, Option, none, some, List, [], ◌∷◌, ◌==◌, if◌then◌else◌, ◌>>=◌, get_elem?,
}
use cs162hwproj.Shell.{Token, CommandTask, lookup_cmd, parse_line}
use cs162hwproj.Shell.Launch.{Host, cut_background, resolve_loop, launch}

-- What `WIFEXITED`, `WIFSIGNALED` and `WIFSTOPPED` tell of a status.
pub data WaitStatus : Type 0 where
  exited signaled stopped neither : WaitStatus

-- `fgPgid`, `fgPids`, `bgPgid`, `bgPids`, and the group that has the terminal.
pub record Jobs : Type 0 where
  pub fg_pgid : Option ℕ
  pub fg_pids : List (Option ℕ)
  pub bg_pgid : Option ℕ
  pub bg_pids : List (Option ℕ)
  pub terminal : ℕ

-- What the host answers about processes: the status that `waitpid` stores, if it stores one, whether a group is
-- alive, whether `killpg` succeeds, and what is in the `status` that `cmd_fg` does not initialise.
pub record Processes : Type 0 where
  pub waitpid : Option ℕ → Option WaitStatus
  pub is_process_alive : ℕ → Bool
  pub killpg : ℕ → Bool
  pub garbage : WaitStatus

-- `tcsetpgrp`, which fails for -1.
abbrev pub tcsetpgrp : Option ℕ → Jobs → Jobs
tcsetpgrp none jobs = jobs
tcsetpgrp (some pgid) jobs = record jobs { terminal = pgid }

abbrev pub status_after : Option WaitStatus → WaitStatus → WaitStatus
status_after none status = status
status_after (some status') status = status'

-- The status behind the loop is that of the last process for which there was one.
unfoldable pub wait_loop : Processes → List (Option ℕ) → WaitStatus → WaitStatus
wait_loop p [] status = status
wait_loop p (pid ∷ pids) status = wait_loop p pids (status_after (p.waitpid pid) status)

abbrev pub clear_foreground : Jobs → Jobs
clear_foreground jobs = record jobs { fg_pgid = none; fg_pids = [] }

abbrev pub move_to_background : Jobs → Jobs
move_to_background jobs = record jobs {
  bg_pgid = jobs.fg_pgid;
  bg_pids = jobs.fg_pids;
  fg_pgid = none;
  fg_pids = [];
}

-- A job that ended is forgotten, and one that stopped goes to the background.
unfoldable pub settle : WaitStatus → Jobs → Jobs
settle exited jobs = clear_foreground jobs
settle signaled jobs = clear_foreground jobs
settle stopped jobs = move_to_background jobs
settle neither jobs = jobs

abbrev pub pids_of : List CommandTask → List (Option ℕ)
pids_of [] = []
pids_of (task ∷ tasks) = task.pid ∷ pids_of tasks

abbrev pub first_pid : List CommandTask → Option ℕ
first_pid [] = none
first_pid (task ∷ tasks) = task.pid

-- What is done before each command.
unfoldable pub reap : Processes → Jobs → Jobs
reap p jobs = elim jobs.bg_pgid [
  | none ↦ jobs
  | some pgid ↦
      if not (p.is_process_alive pgid) then record jobs { bg_pgid = none; bg_pids = [] } else jobs
]

unfoldable pub run_background : List CommandTask → Jobs → Jobs
run_background tasks jobs = record jobs { bg_pgid = first_pid tasks; bg_pids = pids_of tasks }

abbrev pub to_foreground : Jobs → Jobs
to_foreground jobs = record jobs {
  fg_pgid = jobs.bg_pgid;
  fg_pids = jobs.bg_pids;
  bg_pgid = none;
  bg_pids = [];
}

module _ (shell_pgid : ℕ) where
  -- The background job comes to the foreground, and is waited for.
  unfoldable pub resume : Processes → (pgid : ℕ) → Jobs → Jobs
  resume p pgid jobs =
      let moved = to_foreground jobs in
      let status = wait_loop p jobs.bg_pids p.garbage in
      if not (p.killpg pgid)
      then moved
      else tcsetpgrp (some shell_pgid) (settle status (tcsetpgrp (some pgid) moved))

  -- `bgPgid > 0`.
  abbrev pub fg_of : Option ℕ → Processes → Jobs → Jobs
  fg_of none p jobs = jobs
  fg_of (some pgid) p jobs = if pgid == 0 then jobs else resume p pgid jobs

  unfoldable pub cmd_fg : Processes → Jobs → Jobs
  unfolding resume
  cmd_fg p jobs = fg_of jobs.bg_pgid p jobs

  unfoldable pub run_foreground : Processes → List CommandTask → Jobs → Jobs
  run_foreground p tasks jobs =
      let started = record jobs { fg_pgid = first_pid tasks; fg_pids = pids_of tasks } in
      let status = wait_loop p (pids_of tasks) exited in
      tcsetpgrp (some shell_pgid) (settle status (tcsetpgrp (first_pid tasks) started))

  -- A line that names no built-in command.
  unfoldable pub run_programs : Host → Processes → List Token → Jobs → Option Jobs
  run_programs h p tokens jobs = do
    (parsed, valid) ← parse_line h.open_out h.open_in h.pipe tokens
    let (tasks, background) = cut_background parsed
    (resolved, valid') ← resolve_loop h tasks valid
    let started = launch h resolved
    some (
        if not valid'
        then jobs
        else if background
        then run_background started jobs
        else run_foreground p started jobs)

  -- `cmd_table[fundex].fun`: of the built-in commands only `fg` changes the jobs; `bg` sends a signal, and the
  -- others print, change the working directory, or end the shell.
  abbrev pub built_in : (fundex : ℕ) → Processes → Jobs → Jobs
  built_in fundex p jobs = if fundex == 6 then cmd_fg p jobs else jobs

  -- One round of the loop of `main`.
  unfoldable pub run_line : Host → Processes → List Token → Jobs → Option Jobs
  run_line h p tokens jobs =
      let reaped = reap p jobs in
      elim (lookup_cmd (get_elem? tokens 0)) [
        | none ↦ run_programs h p tokens reaped
        | some fundex ↦ some (built_in fundex p reaped)
      ]
