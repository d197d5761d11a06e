-- ===== src/Examples/Shells.antt =====
-- Command lines and jobs of the shell of hw-shell.
use cs162hwproj.Prelude.{
  ℕ, ◌+◌, ◌≡◌, ◌⊎◌, refl, true, Option, none, some, List, [], ◌∷◌, arith, ◌>>=◌,
}
use cs162hwproj.Shell.{
  Token, CommandTask, init_command_task, task_loop, tokens_to_task, find_loop,
  find_symbol_from_tokens, pipe_loop, last_task, parse_line, lookup_cmd,
}
use cs162hwproj.Shell.Wiring.{wire, parse_line-wire}
use cs162hwproj.Shell.Faults.{parse_line-EndsBroken}
use cs162hwproj.Shell.Launch.{Host, launch, cut_background, cut_ampersand, resolve, resolve_loop}
use cs162hwproj.Shell.Jobs.{
  Jobs, Processes, exited, stopped, reap, settle, wait_loop, run_foreground, run_programs, run_line,
}
use cs162hwproj.Shell.Prompt.{
  IsPrompt, Answers, IsIdle, Reach, LeftForeground, here, next, Reach-IsPrompt,
}

abbrev give : Token → Option ℕ
give t = some 7

abbrev pipes : ℕ → ℕ × ℕ
pipes k = (k + k + 10, k + k + 11)

-- "a < b | c".
abbrev line : List Token
line = (b'a' ∷ []) ∷ (b'<' ∷ []) ∷ (b'b' ∷ []) ∷ (b'|' ∷ []) ∷ (b'c' ∷ []) ∷ []

abbrev first_task : CommandTask
first_task = record init_command_task { redirect_in = some 7; args = (b'a' ∷ []) ∷ [] }

abbrev second_task : CommandTask
second_task = record init_command_task { args = (b'c' ∷ []) ∷ [] }

first_parsed :
    task_loop give give init_command_task ((b'a' ∷ []) ∷ (b'<' ∷ []) ∷ (b'b' ∷ []) ∷ [])
    ≡ some first_task
unfolding task_loop
first_parsed = refl

second_parsed : task_loop give give init_command_task ((b'c' ∷ []) ∷ []) ≡ some second_task
unfolding task_loop
second_parsed = refl

parse_line-wire_example :
    parse_line give give pipes line ≡ some (wire pipes 0 none (first_task ∷ second_task ∷ []), true)
parse_line-wire_example =
    parse_line-wire give give pipes line (first_task ∷ second_task ∷ [])
      (first_parsed, (second_parsed, tt)) (omega arith)

nothing_parsed : task_loop give give init_command_task [] ≡ none
unfolding task_loop
nothing_parsed = refl

-- "c |".
parse_line-EndsBroken_example :
    (pipe_loop give give pipes 9 ((b'c' ∷ []) ∷ (b'|' ∷ []) ∷ []) 0 [] none
      >>= last_task give give pipes ((b'c' ∷ []) ∷ (b'|' ∷ []) ∷ []))
    ≡ none
parse_line-EndsBroken_example =
    parse_line-EndsBroken give give pipes 9 ((b'c' ∷ []) ∷ (b'|' ∷ []) ∷ [])
      ((second_task, second_parsed), nothing_parsed)

abbrev host : Host
host = record {
  open_out = give;
  open_in = give;
  pipe = pipes;
  access = λ t. true;
  path = [];
  fork = λ i. some (i + 30);
}

abbrev no_jobs : Jobs
no_jobs = record { fg_pgid = none; fg_pids = []; bg_pgid = none; bg_pids = []; terminal = 5 }

no_jobs-IsPrompt : IsPrompt 5 no_jobs
no_jobs-IsPrompt = record { has_terminal = refl; no_group = refl; no_pids = refl }

abbrev all_stop : Processes
all_stop = record {
  waitpid = λ pid. some stopped;
  is_process_alive = λ pgid. true;
  killpg = λ pgid. true;
  garbage = exited;
}

all_stop-Answers : Answers all_stop
all_stop-Answers = record { status_lem = λ pid e. cc }

abbrev stopped_job : Jobs
stopped_job = record no_jobs { bg_pgid = some 30; bg_pids = some 30 ∷ [] }

-- The program of the line "c" stops.
stops : run_line 5 host all_stop ((b'c' ∷ []) ∷ []) no_jobs ≡ some stopped_job
unfolding run_line run_programs run_foreground wait_loop settle lookup_cmd find_loop reap parse_line
    pipe_loop last_task find_symbol_from_tokens tokens_to_task task_loop cut_background
    cut_ampersand resolve_loop resolve launch
stops = refl

abbrev one_line : Reach 5 no_jobs stopped_job
one_line = next host all_stop ((b'c' ∷ []) ∷ []) here all_stop-Answers stops

Reach-IsPrompt_example : (stopped_job.terminal ≡ 5) × (IsIdle stopped_job ⊎ LeftForeground one_line)
Reach-IsPrompt_example = Reach-IsPrompt one_line no_jobs-IsPrompt
