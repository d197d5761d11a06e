-- ===== src/Shell.antt =====
-- hw-shell/shell.c: how a command line becomes tasks. A token is its characters. What the host system answers is a
-- parameter: the file descriptors that `open` and `pipe` give, and which files there are. An `int` that may be -1 is an
-- option, and a result of none stands for a read through a null pointer or a write past an array.
pub mod Jobs
pub mod Launch
pub mod Segments
pub mod Wiring
pub mod Faults
pub mod Groups
pub mod Prompt
use cs162hwproj.Prelude.{
  ℕ, zero, suc, ◌+◌, ◌-◌, Bool, true, false, not, ◌&&◌, ◌||◌, Option, none, some, List, [], ◌∷◌,
  ◌++◌, ltb, ◌==◌, if◌then◌else◌, length, take, drop, ◌>>=◌, ◌>>◌, assert,
}

abbrev pub Token : Type 0
Token = List ℕ

-- `strcmp (a, b) == 0`.
abbrev pub same_token : Token → Token → Bool
same_token [] [] = true
same_token [] (d ∷ b) = false
same_token (c ∷ a) [] = false
same_token (c ∷ a) (d ∷ b) = (c == d) && same_token a b

pub record CommandTask : Type 0 where
  pub pid : Option ℕ
  pub pgid : Option ℕ
  pub redirect_in : Option ℕ
  pub redirect_out : Option ℕ
  pub args : List Token

abbrev pub init_command_task : CommandTask
init_command_task = record {
  pid = none;
  pgid = none;
  redirect_in = none;
  redirect_out = none;
  args = [];
}

abbrev pub is_pipe : Token → Bool
is_pipe t = same_token t (b'|' ∷ [])

abbrev pub is_out : Token → Bool
is_out t = same_token t (b'>' ∷ [])

abbrev pub is_in : Token → Bool
is_in t = same_token t (b'<' ∷ [])

-- A token that may not name a file behind a redirection.
abbrev pub is_symbol : Token → Bool
is_symbol t = is_pipe t || is_out t || is_in t

-- The commands of `cmd_table`, in its order: "?", "exit", "cmdprint", "pwd", "cd", "pfgpgid", "fg", "bg", "fgpgid" and
-- "bgpgid".
abbrev pub cmd_table : List Token
cmd_table =
    (b'?' ∷ [])
    ∷ (b'e' ∷ b'x' ∷ b'i' ∷ b't' ∷ [])
    ∷ (b'c' ∷ b'm' ∷ b'd' ∷ b'p' ∷ b'r' ∷ b'i' ∷ b'n' ∷ b't' ∷ [])
    ∷ (b'p' ∷ b'w' ∷ b'd' ∷ [])
    ∷ (b'c' ∷ b'd' ∷ [])
    ∷ (b'p' ∷ b'f' ∷ b'g' ∷ b'p' ∷ b'g' ∷ b'i' ∷ b'd' ∷ [])
    ∷ (b'f' ∷ b'g' ∷ [])
    ∷ (b'b' ∷ b'g' ∷ [])
    ∷ (b'f' ∷ b'g' ∷ b'p' ∷ b'g' ∷ b'i' ∷ b'd' ∷ [])
    ∷ (b'b' ∷ b'g' ∷ b'p' ∷ b'g' ∷ b'i' ∷ b'd' ∷ [])
    ∷ []

-- The first token from index `i` on that is the symbol.
unfoldable pub find_loop : List Token → (i : ℕ) → (symbol : Token) → Option ℕ
find_loop [] i symbol = none
find_loop (t ∷ ts) i symbol = if same_token t symbol then some i else find_loop ts (i + 1) symbol

unfoldable pub find_symbol_from_tokens :
    List Token → (start_index : ℕ) → (symbol : Token) → Option ℕ
unfolding find_loop
find_symbol_from_tokens tokens start_index symbol =
    find_loop (drop start_index tokens) start_index symbol

-- For a line without words the command is a null pointer.
unfoldable pub lookup_cmd : (cmd : Option Token) → Option ℕ
unfolding find_loop
lookup_cmd none = none
lookup_cmd (some cmd) = find_loop cmd_table 0 cmd

module _ (open_out open_in : Token → Option ℕ) where
  -- The loop of `tokens_to_task` over the tokens up to `end_index`; the last test is behind it.
  unfoldable pub task_loop : CommandTask → List Token → Option CommandTask
  task_loop task [] = if length task.args == 0 then none else some task
  task_loop task (cur_token ∷ []) =
      if not (is_out cur_token) && not (is_in cur_token)
      then some (record task { args = task.args ++ (cur_token ∷ []) })
      else none
  task_loop task (cur_token ∷ next_token ∷ rest) =
      let word =
        task_loop (record task { args = task.args ++ (cur_token ∷ []) }) (next_token ∷ rest) in
      let written = task_loop (record task { redirect_out = open_out next_token }) rest in
      if not (is_out cur_token) && not (is_in cur_token)
      then word
      else if is_symbol next_token
      then none
      else if is_out cur_token
      then written
      else elim (open_in next_token) [
        | none ↦ none
        | some fd ↦ task_loop (record task { redirect_in = some fd }) rest
      ]

  unfoldable pub tokens_to_task : List Token → (start_index end_index : ℕ) → Option CommandTask
  tokens_to_task tokens start_index end_index =
      task_loop init_command_task (take (end_index - start_index) (drop start_index tokens))

  module _ (pipe : ℕ → ℕ × ℕ) where
    -- The array `all_com_tasks` has 512 places. The `k`-th pipe gives its read end and its write end. The result is
    -- the tasks, whether all are valid, where the next one starts, and its input.
    unfoldable pub pipe_loop :
        (fuel : ℕ)
        → List Token
        → (cur_index : ℕ) → (tasks : List CommandTask) → Option ℕ
        → Option (List CommandTask × Bool × ℕ × Option ℕ)
    pipe_loop zero tokens cur_index tasks next_in = none
    pipe_loop (suc fuel) tokens cur_index tasks next_in =
        elim (find_symbol_from_tokens tokens cur_index (b'|' ∷ [])) [
          | none ↦ some (tasks, true, cur_index, next_in)
          | some pipe_index ↦ elim (tokens_to_task tokens cur_index pipe_index) [
            | none ↦ some (tasks, false, cur_index, next_in)
            | some task ↦
                let (read_end, write_end) = pipe (length tasks) in
                let wired = record task { redirect_in = next_in; redirect_out = some write_end } in
                assert (ltb (length tasks) 512)
                >> pipe_loop fuel tokens (pipe_index + 1) (tasks ++ (wired ∷ [])) (some read_end)
          ]
        ]

    -- Behind the loop the last task is read through even if it is a null pointer.
    unfoldable pub last_task :
        List Token → List CommandTask × Bool × ℕ × Option ℕ → Option (List CommandTask × Bool)
    last_task tokens (tasks, valid, cur_index, next_in) = do
      task ← tokens_to_task tokens cur_index (length tokens)
      assert (ltb (length tasks) 512)
      some (tasks ++ (record task { redirect_in = next_in } ∷ []), valid)

    -- The tasks of a line, and whether it is valid.
    unfoldable pub parse_line : List Token → Option (List CommandTask × Bool)
    parse_line tokens = pipe_loop (suc (length tokens)) tokens 0 [] none >>= last_task tokens
