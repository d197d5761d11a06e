-- ===== src/Shell/Launch.antt =====
-- hw-shell/shell.c: the programs of a line, and the processes that run them.
use cs162hwproj.Prelude.{
  ℕ, ◌+◌, Bool, true, false, ◌&&◌, Option, none, some, List, [], ◌∷◌, ◌++◌, ◌==◌, if◌then◌else◌,
  ◌>>=◌,
}
use cs162hwproj.Shell.{Token, CommandTask}

-- What the host system answers while a line runs: files, pipes, and the pid of the `i`-th child, or -1.
pub record Host : Type 0 where
  pub open_out : Token → Option ℕ
  pub open_in : Token → Option ℕ
  pub pipe : ℕ → ℕ × ℕ
  pub access : Token → Bool
  pub path : List ℕ
  pub fork : ℕ → Option ℕ

abbrev pub starts_with_ampersand : Token → Bool
starts_with_ampersand [] = false
starts_with_ampersand (c ∷ t) = c == b'&'

-- The arguments up to the null pointer that replaces a last one that starts with '&', and whether there is one.
unfoldable pub cut_ampersand : List Token → List Token × Bool
cut_ampersand [] = ([], false)
cut_ampersand (t ∷ []) = if starts_with_ampersand t then ([], true) else (t ∷ [], false)
cut_ampersand (t ∷ u ∷ args) =
    let (args', background) = cut_ampersand (u ∷ args) in (t ∷ args', background)

-- The last task is looked at.
unfoldable pub cut_background : List CommandTask → List CommandTask × Bool
unfolding cut_ampersand
cut_background [] = ([], false)
cut_background (task ∷ []) =
    let (args', background) = cut_ampersand task.args in
    (record task { args = args' } ∷ [], background)
cut_background (task ∷ next ∷ tasks) =
    let (tasks', background) = cut_background (next ∷ tasks) in (task ∷ tasks', background)

abbrev pub with_directory : Token → List Token → List Token
with_directory [] dirs = dirs
with_directory (d ∷ dir) dirs = (d ∷ dir) ∷ dirs

-- The directories of PATH, as `strtok_r` with ":" gives them; `dir` is what the current one has so far.
unfoldable pub directories : (dir : Token) → List ℕ → List Token
directories dir [] = with_directory dir []
directories dir (c ∷ path) =
    let ended = with_directory dir (directories [] path) in
    let longer = directories (dir ++ (c ∷ [])) path in if c == b':' then ended else longer

unfoldable pub find_in : (access : Token → Bool) → List Token → (filepath : Token) → Option Token
find_in access [] filepath = none
find_in access (dir ∷ dirs) filepath =
    let rest = find_in access dirs filepath in
    let dup_path = dir ++ (b'/' ∷ filepath) in if access dup_path then some dup_path else rest

unfoldable pub find_file_path : Host → (filepath : Token) → Option Token
unfolding directories find_in
find_file_path h filepath = find_in h.access (directories [] h.path) filepath

-- A program name that is a null pointer is read only if PATH has a directory.
abbrev pub find_null_path : List Token → Option Bool
find_null_path [] = some false
find_null_path (dir ∷ dirs) = none

-- The task with its program's path, and whether it was found.
unfoldable pub resolve : Host → CommandTask → List Token → Option (CommandTask × Bool)
unfolding find_file_path
resolve h task [] = do found ← find_null_path (directories [] h.path); some (task, found)
resolve h task (program_path ∷ args) =
    if h.access program_path then some (task, true) else elim (find_file_path h program_path) [
      | none ↦ some (task, false)
      | some found ↦ some (record task { args = found ∷ args }, true)
    ]

unfoldable pub resolve_loop :
    Host → List CommandTask → (valid : Bool) → Option (List CommandTask × Bool)
unfolding resolve
resolve_loop h [] valid = some ([], valid)
resolve_loop h (task ∷ tasks) valid = do
  (task', found) ← resolve h task task.args
  (tasks', valid') ← resolve_loop h tasks (valid && found)
  some (task' ∷ tasks', valid')

-- The tasks behind the first one, whose pid is the group of them all.
unfoldable pub launch_loop :
    Host → (i : ℕ) → (leader : Option ℕ) → List CommandTask → List CommandTask
launch_loop h i leader [] = []
launch_loop h i leader (task ∷ tasks) =
    record task { pgid = leader; pid = h.fork i } ∷ launch_loop h (i + 1) leader tasks

-- When the first one starts, its own pid is still -1.
unfoldable pub launch : Host → List CommandTask → List CommandTask
unfolding launch_loop
launch h [] = []
launch h (task ∷ tasks) =
    record task { pgid = none; pid = h.fork 0 } ∷ launch_loop h 1 (h.fork 0) tasks

-- `if (fd) close (fd);` where -1 closes nothing.
abbrev pub close_fd : Option ℕ → List ℕ
close_fd none = []
close_fd (some fd) = if fd == 0 then [] else fd ∷ []

-- What the shell closes while it starts the tasks.
unfoldable pub closed : List CommandTask → List ℕ
closed [] = []
closed (task ∷ tasks) = close_fd task.redirect_in ++ (close_fd task.redirect_out ++ closed tasks)

-- What a child sets up before `execv`: its group, and where its input and output go.
pub record Child : Type 0 where
  pub group : ℕ
  pub stdin : ℕ
  pub stdout : ℕ
  pub argv : List Token

-- The group that the task names, if it is positive.
abbrev pub child_group : (pid : ℕ) → Option ℕ → ℕ
child_group pid none = pid
child_group pid (some pgid) = if pgid == 0 then pid else pgid

abbrev pub redirected : Option ℕ → ℕ → ℕ
redirected none fd = fd
redirected (some target) fd = target

unfoldable pub create_process_and_exec : (pid : ℕ) → CommandTask → Child
create_process_and_exec pid task = record {
  group = child_group pid task.pgid;
  stdin = redirected task.redirect_in 0;
  stdout = redirected task.redirect_out 1;
  argv = task.args;
}
